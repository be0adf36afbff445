-- ===== src/Link/Phase.antt =====
-- nextLinkPhase and advanceDeadline of forwarder/px4_link.go: which periodic action is due.
pub mod Laws
use uavlink_edge.Common.{
  Bool, false, if◌then◌else◌, leb, ltb, suc, true, zero, ℕ, ◌&&◌, ◌*◌, ◌+◌, ◌-◌,
}
use uavlink_edge.Link.Step.{millisecond, second}

pub data LinkPhase : Type 0 where
  phase_none phase_health phase_heartbeat : LinkPhase

abbrev pub link_health_period : ℕ
link_health_period = 500 * millisecond

abbrev pub link_heartbeat_period : ℕ
link_heartbeat_period = second

abbrev pub link_health_offset : ℕ
link_health_offset = 250 * millisecond

-- for !next.After(now) { next = next.Add(period) }, with fuel for the rounds.
advance_loop : ℕ → ℕ → ℕ → ℕ → ℕ
advance_loop zero period now next = next
advance_loop (suc fuel) period now next = elim (ltb now next) [
  | true ↦ next
  | false ↦ advance_loop fuel period now (next + period)
]

-- A round adds the period, which is positive, so now - due rounds and one more are enough.
unfoldable pub advance_deadline : ℕ → ℕ → ℕ → ℕ
unfolding advance_loop
advance_deadline due period now = advance_loop (suc (now - due)) period now (due + period)

-- The tuple that nextLinkPhase returns.
pub record Turn : Type 0 where
  pub phase : LinkPhase
  pub health_at : ℕ
  pub heartbeat_at : ℕ
  pub runs : Bool

unfoldable pub next_link_phase : ℕ → ℕ → ℕ → Turn
next_link_phase now next_health next_hb =
    let health_due = leb next_health now in
    let hb_due = leb next_hb now in
    if health_due && hb_due
    then (record {
      phase = phase_health;
      health_at = advance_deadline next_health link_health_period now;
      heartbeat_at = now + 200 * millisecond;
      runs = true;
    })
    else if hb_due
    then (record {
      phase = phase_heartbeat;
      health_at = next_health;
      heartbeat_at = advance_deadline next_hb link_heartbeat_period now;
      runs = true;
    })
    else if health_due
    then (record {
      phase = phase_health;
      health_at = advance_deadline next_health link_health_period now;
      heartbeat_at = next_hb;
      runs = true;
    })
    else (record {
      phase = phase_none;
      health_at = next_health;
      heartbeat_at = next_hb;
      runs = false;
    })
