-- ===== src/Link/Phase/Laws.antt =====
-- The deadlines of the loop in forwarder/px4_link.go.
use uavlink_edge.Common.{
  Bool-cases, arith, false, inl, inr, ltb, ltb→ge, ltb→lt, refl, suc, true, zero, ℕ, ◌*◌, ◌+◌, ◌-◌,
  ◌<◌, ◌≡◌, ◌≤◌, ◌⊎◌,
}
use uavlink_edge.Link.Phase.{
  advance_deadline, advance_loop, link_health_period, link_heartbeat_period, next_link_phase,
  phase_health, phase_heartbeat, phase_none,
}
use uavlink_edge.Link.Step.{millisecond}

-- The loop ends by its test: the fuel is enough, the first deadline after `now` is returned.
advance_loop_reaches :
    (fuel period now next : ℕ)
    → 0 < period
    → now < next + fuel
    → (k : ℕ) × (advance_loop fuel period now next ≡ next + k * period)
      × (now < next + k * period)
      × ((k ≡ 0) ⊎ (next + k * period ≤ now + period))
unfolding advance_loop
advance_loop_reaches zero period now next hp hf = (0, omega arith, omega arith, inl refl)
advance_loop_reaches (suc fuel) period now next hp hf = elim (Bool-cases (ltb now next)) [
  | inl past ↦
      (0, rw (past, advance_loop) (omega arith), omega (arith, ltb→lt now next past), inl refl)
  | inr due ↦
      let (k, e, after, least) =
        advance_loop_reaches fuel period now (next + period) hp
          (omega (arith, ltb→ge now next due)) in
      (
        k + 1,
        rw (due, advance_loop) (omega (arith, e)),
        omega arith,
        inr (ground (arith, ltb→ge now next due)),
      )
]

-- advanceDeadline returns a later deadline of the same rhythm: after now, a positive multiple of
-- the period behind the one that was due, and the first such.
pub advance_deadline_first :
    (due period now : ℕ)
    → 0 < period
    → (k : ℕ) × (advance_deadline due period now ≡ due + k * period)
      × (0 < k)
      × (now < due + k * period)
      × ((k ≡ 1) ⊎ (due + k * period ≤ now + period))
unfolding advance_deadline
advance_deadline_first due period now hp =
    let (k, e, after, least) =
      advance_loop_reaches (suc (now - due)) period now (due + period) hp (omega arith) in
    (k + 1, omega (arith, e), omega arith, omega arith, ground arith)

-- A deadline that is due is put off by at most its period.
pub advance_deadline_window :
    (due period now : ℕ)
    → 0 < period
    → due ≤ now
    → (now < advance_deadline due period now) × (advance_deadline due period now ≤ now + period)
advance_deadline_window due period now hp hd =
    let (k, e, positive, after, least) = advance_deadline_first due period now hp in ground arith

-- A turn of the loop. Health is chosen whenever it is due, and a heartbeat when it alone is; then
-- every deadline that was due is set anew, at most its period ahead, and the other one is kept.
-- A heartbeat that health puts off comes due 200 ms later. Without a due deadline nothing runs.
pub next_link_phase_turn :
    (now next_health next_hb : ℕ)
    → let t = next_link_phase now next_health next_hb in
      ((next_health ≤ now)
        × (t.phase ≡ phase_health)
        × (t.runs ≡ true)
        × (now < t.health_at)
        × (t.health_at ≤ now + link_health_period)
        × (((next_hb ≤ now) × (t.heartbeat_at ≡ now + 200 * millisecond))
            ⊎ ((now < next_hb) × (t.heartbeat_at ≡ next_hb))))
      ⊎ ((now < next_health)
          × (next_hb ≤ now)
          × (t.phase ≡ phase_heartbeat)
          × (t.runs ≡ true)
          × (t.health_at ≡ next_health)
          × (now < t.heartbeat_at)
          × (t.heartbeat_at ≤ now + link_heartbeat_period))
      ⊎ ((now < next_health)
          × (now < next_hb)
          × (t.phase ≡ phase_none)
          × (t.runs ≡ false)
          × (t.health_at ≡ next_health)
          × (t.heartbeat_at ≡ next_hb))
unfolding next_link_phase
next_link_phase_turn now next_health next_hb = ground (
  arith,
  advance_deadline_window next_health link_health_period now,
  advance_deadline_window next_hb link_heartbeat_period now,
)
