-- ===== src/Link/Arbiter/Recovery.antt =====
-- When commands go back to Ethernet: the count of heartbeats in forwarder/px4_link.go over any
-- order of calls.
use uavlink_edge.Common.{
  Bool, Bool-cases, List, Option, [], arith, false, if◌then◌else◌, inl, inr, none, refl, some, true,
  ℕ, ◌&&◌, ◌+◌, ◌∙◌, ◌∷◌, ◌≡◌, ◌≢◌, ◌≤◌, ◌⊎◌,
}
use mathlib.Core.Path.{subst}
use uavlink_edge.Link.Arbiter.{
  Arbiter, EndpointConf, Event, Heartbeat, apply_event, broadcast, endpoint_custom, endpoint_other,
  endpoint_serial, evaluate, evaluates, has_channel, identify, identify_conf, is_fresh,
  is_px4_autopilot_heartbeat, note_heartbeat, observe, observes, register, registers, run_events,
  store, unregister, unregisters,
}
use uavlink_edge.Link.Step.{
  LinkId, LinkSnap, is_eth, link_eth, link_none, link_telem2, link_telem3, recover_or_default,
  step_link,
}

-- The arbiter is on a serial link.
abbrev pub IsSerial : LinkSnap → Type 0
IsSerial s = (is_eth s.active ≡ false) × (s.active ≢ link_none)

step_link-IsSerial :
    (s : LinkSnap) (now : ℕ) (fresh is_open : LinkId → Bool) (loss n : ℕ)
    → IsSerial s
    → let t = (step_link s now fresh is_open loss n).0 in
      (IsSerial t × (t.eth_hb_since_loss ≡ s.eth_hb_since_loss))
      ⊎ (recover_or_default n ≤ s.eth_hb_since_loss)
unfolding step_link
step_link-IsSerial s now fresh is_open loss n h = ground arith

module _ {Channel : Type 0} (same : Discrete Channel) (conf : Channel → Option EndpointConf) where
  -- The endpoint is the UDP socket to the autopilot.
  abbrev on_ethernet : Option Channel → Bool
  on_ethernet none = false
  on_ethernet (some c) = elim (conf c) [ some endpoint_custom ↦ true | _ ↦ false ]

  -- How many PX4 heartbeats on Ethernet an event brings.
  abbrev pub eth_beat : Event Channel → ℕ
  eth_beat (registers c) = 0
  eth_beat (unregisters c) = 0
  eth_beat (observes c msg sys_id comp_id now) =
      if is_px4_autopilot_heartbeat sys_id comp_id msg && on_ethernet c then 1 else 0
  eth_beat (broadcast now) = 1
  eth_beat (evaluates now) = 0

  abbrev pub eth_beats : List (Event Channel) → ℕ
  eth_beats [] = 0
  eth_beats (e ∷ es) = eth_beat e + eth_beats es

  identify-on_ethernet :
      (a : Arbiter Channel) (c : Option Channel)
      → (identify same conf a c ≡ link_eth)
      → on_ethernet c ≡ true
  unfolding identify
  identify-on_ethernet a none h = cc
  identify-on_ethernet a (some c) h = go (conf c) h
    where
      go :
          (o : Option EndpointConf)
          → identify_conf a.telem2_dev a.telem3_dev o ≡ link_eth
          → elim o [ some endpoint_custom ↦ true | _ ↦ false ] ≡ true
      go none e = cc
      go (some (endpoint_serial d)) e = ground arith
      go (some endpoint_custom) e = refl
      go (some endpoint_other) e = cc

  -- What one event does to an arbiter on a serial link.
  abbrev Kept : Arbiter Channel → ℕ → Arbiter Channel → Type 0
  Kept a beats a' =
      IsSerial a'.snap
      × (a'.snap.eth_hb_since_loss ≤ a.snap.eth_hb_since_loss + beats)
      × (a'.recover_n ≡ a.recover_n)

  store-Kept :
      (a : Arbiter Channel) (id : LinkId) (c : Option Channel)
      → IsSerial a.snap
      → Kept a 0 (store a id c)
  unfolding store
  store-Kept a id none h = (h, omega arith, refl)
  store-Kept a link_none (some c) h = (h, omega arith, refl)
  store-Kept a link_eth (some c) h = (h, omega arith, refl)
  store-Kept a link_telem2 (some c) h = (h, omega arith, refl)
  store-Kept a link_telem3 (some c) h = (h, omega arith, refl)

  note-Kept :
      (a : Arbiter Channel) (id : LinkId) (now : ℕ)
      → IsSerial a.snap
      → Kept a (if is_eth id then 1 else 0) (note_heartbeat a id now)
  unfolding note_heartbeat
  note-Kept a link_none now h = (h, omega arith, refl)
  note-Kept a link_eth now h = (h, ground arith, refl)
  note-Kept a link_telem2 now h = (h, omega arith, refl)
  note-Kept a link_telem3 now h = (h, omega arith, refl)

  is_eth-identify :
      (a : Arbiter Channel) (c : Option Channel)
      → (if is_eth (identify same conf a c) then 1 else 0) ≤ (if on_ethernet c then 1 else 0)
  is_eth-identify a c = go (identify same conf a c) (identify-on_ethernet a c)
    where
      go :
          (id : LinkId)
          → (id ≡ link_eth → on_ethernet c ≡ true)
          → (if is_eth id then 1 else 0) ≤ (if on_ethernet c then 1 else 0)
      go link_eth h = rw (h refl) (omega arith)
      go link_none h = omega arith
      go link_telem2 h = omega arith
      go link_telem3 h = omega arith

  observe-Kept :
      (a : Arbiter Channel) (c : Option Channel) (msg : Option Heartbeat) (sys_id comp_id now : ℕ)
      → IsSerial a.snap
      → Kept a
          (eth_beat (observes c msg sys_id comp_id now))
          (observe same conf a c msg sys_id comp_id now).0
  unfolding observe
  observe-Kept a c msg sys_id comp_id now h =
      let id = identify same conf a c in
      let (h1, le1, r1) = store-Kept a id c h in
      let (h2, le2, r2) = note-Kept (store a id c) id now h1 in
      elim (Bool-cases (is_px4_autopilot_heartbeat sys_id comp_id msg)) [
        | inl beat ↦ rw beat (h2, omega (arith, is_eth-identify a c, le1, le2), r2 ∙ r1)
        | inr other ↦ rw other (h1, omega (arith, le1), r1)
      ]

  apply_event-Kept :
      (a : Arbiter Channel) (e : Event Channel)
      → IsSerial a.snap
      → Kept a (eth_beat e) (apply_event same conf a e)
        ⊎ (recover_or_default a.recover_n ≤ a.snap.eth_hb_since_loss)
  unfolding apply_event register unregister evaluate
  apply_event-Kept a (registers c) h = inl (store-Kept a _ c h)
  apply_event-Kept a (unregisters none) h = inl (h, omega arith, refl)
  apply_event-Kept a (unregisters (some c)) h = inl (h, omega arith, refl)
  apply_event-Kept a (observes c msg sys_id comp_id now) h =
      inl (observe-Kept a c msg sys_id comp_id now h)
  apply_event-Kept a (broadcast now) h = inl (note-Kept a link_eth now h)
  apply_event-Kept a (evaluates now) h =
      elim (step_link-IsSerial a.snap now (is_fresh a now) (has_channel a) a.loss a.recover_n h) [
        | inl (serial, same_count) ↦ inl (serial, omega (arith, same_count), refl)
        | inr enough ↦ inr enough
      ]

  -- Whatever happens in whatever order, an arbiter on a serial link is back on Ethernet only if
  -- the PX4 heartbeats seen on Ethernet since the loss reach the configured number (2 if none is
  -- configured): those already counted and those among the events.
  pub recovery_needs_heartbeats :
      (a : Arbiter Channel) (es : List (Event Channel))
      → IsSerial a.snap
      → (run_events same conf a es).snap.active ≡ link_eth
      → recover_or_default a.recover_n ≤ a.snap.eth_hb_since_loss + eth_beats es
  unfolding run_events
  recovery_needs_heartbeats a [] h back = ground arith
  recovery_needs_heartbeats a (e ∷ es) h back = elim (apply_event-Kept a e h) [
    | inl (serial, counted, kept) ↦
        let ih = recovery_needs_heartbeats (apply_event same conf a e) es serial back in
        let ih' =
          subst
            (λ n.
              recover_or_default n
              ≤ (apply_event same conf a e).snap.eth_hb_since_loss + eth_beats es)
            kept ih in
        omega (arith, ih', counted)
    | inr enough ↦ omega (arith, enough)
  ]
