-- ===== src/Link/Arbiter/Invariant.antt =====
-- What holds of px4Arbiter in forwarder/px4_link.go between any two calls.
use uavlink_edge.Common.{
  Bool, Bool-cases, List, Option, [], arith, false, inl, inr, none, refl, some, true, ℕ, ◌∷◌, ◌≡◌,
  ◌≢◌, ◌≤◌, ◌⊎◌,
}
use uavlink_edge.Link.Arbiter.{
  Arbiter, EndpointConf, Event, Heartbeat, apply_event, broadcast, evaluate, evaluates, has_channel,
  identify, is_fresh, is_px4_autopilot_heartbeat, note_heartbeat, observe, observes, put_at,
  register, registers, run_events, start_supervisor, store, unregister, unregisters, without,
}
use uavlink_edge.Link.Step.{
  LinkId, LinkSnap, is_eth, link_eth, link_none, link_telem2, link_telem3, step_link,
}

-- The part that concerns the link state alone.
abbrev SnapSound : LinkSnap → Type 0
SnapSound s =
    (is_eth s.active ≡ false → s.eth_lost_flag ≡ true)
    × (s.active ≢ link_none)
    × (s.eth_hb_since_loss ≤ 1000)

step_link-SnapSound :
    (s : LinkSnap) (now : ℕ) (fresh is_open : LinkId → Bool) (loss n : ℕ)
    → SnapSound s
    → SnapSound (step_link s now fresh is_open loss n).0
unfolding step_link
step_link-SnapSound s now fresh is_open loss n h = ground arith

put_at_stored :
    {Channel : Type 0} (f : LinkId → Option Channel) (id : LinkId) (c : Channel) (j : LinkId)
    (d : Channel)
    → put_at f id (some c) j ≡ some d
    → ((j ≡ id) × (c ≡ d)) ⊎ (f j ≡ some d)
put_at_stored f id c j d e = ground arith

module _ {Channel : Type 0} (same : Discrete Channel) (conf : Channel → Option EndpointConf) where
  pub record IsSound (a : Arbiter Channel) : Type 0 where
    pub serial_after_loss : is_eth a.snap.active ≡ false → a.snap.eth_lost_flag ≡ true
    pub chosen : a.snap.active ≢ link_none
    pub counted : a.snap.eth_hb_since_loss ≤ 1000
    pub stored : (id : LinkId) (c : Channel) → a.ch id ≡ some c → identify same conf a (some c) ≡ id

  note_heartbeat-IsSound :
      (a : Arbiter Channel) (id : LinkId) (now : ℕ) → IsSound a → IsSound (note_heartbeat a id now)
  unfolding note_heartbeat identify
  note_heartbeat-IsSound a link_none now h = h
  note_heartbeat-IsSound a link_eth now h = record {
    serial_after_loss = ground arith;
    chosen = ground arith;
    counted = ground arith;
    stored = h.stored;
  }
  note_heartbeat-IsSound a link_telem2 now h = record {
    serial_after_loss = ground arith;
    chosen = ground arith;
    counted = ground arith;
    stored = h.stored;
  }
  note_heartbeat-IsSound a link_telem3 now h = record {
    serial_after_loss = ground arith;
    chosen = ground arith;
    counted = ground arith;
    stored = h.stored;
  }

  store_at-IsSound :
      (a : Arbiter Channel) (id : LinkId) (c : Channel)
      → identify same conf a (some c) ≡ id
      → IsSound a
      → IsSound (record a { ch = put_at a.ch id (some c) })
  unfolding identify
  store_at-IsSound a id c found h = record {
    serial_after_loss = h.serial_after_loss;
    chosen = h.chosen;
    counted = h.counted;
    stored = λ j d e. elim (put_at_stored a.ch id c j d e) [
      | inl (ej, ec) ↦ cc
      | inr old ↦ h.stored j d old
    ];
  }

  store-IsSound :
      (a : Arbiter Channel) (id : LinkId) (c : Option Channel)
      → identify same conf a c ≡ id
      → IsSound a
      → IsSound (store a id c)
  unfolding store
  store-IsSound a id none e h = h
  store-IsSound a link_none (some c) e h = h
  store-IsSound a link_eth (some c) e h = store_at-IsSound a link_eth c e h
  store-IsSound a link_telem2 (some c) e h = store_at-IsSound a link_telem2 c e h
  store-IsSound a link_telem3 (some c) e h = store_at-IsSound a link_telem3 c e h

  unregister-IsSound :
      (a : Arbiter Channel) (c : Option Channel) → IsSound a → IsSound (unregister same conf a c)
  unfolding unregister identify
  unregister-IsSound a none h = h
  unregister-IsSound a (some c) h = record {
    serial_after_loss = h.serial_after_loss;
    chosen = h.chosen;
    counted = h.counted;
    stored = λ id d e. h.stored id d (kept (a.ch id) d e);
  }
    where
      kept : (o : Option Channel) (d : Channel) → without same conf c o ≡ some d → o ≡ some d
      kept none d e = e
      kept (some x) d e = ground arith

  evaluate-IsSound : (a : Arbiter Channel) (now : ℕ) → IsSound a → IsSound (evaluate a now)
  unfolding evaluate identify
  evaluate-IsSound a now h =
      let (lost, chosen, counted) =
        step_link-SnapSound a.snap now (is_fresh a now) (has_channel a) a.loss a.recover_n
          (h.serial_after_loss, h.chosen, h.counted) in
      record { serial_after_loss = lost; chosen = chosen; counted = counted; stored = h.stored }

  observe-IsSound :
      (a : Arbiter Channel) (c : Option Channel) (msg : Option Heartbeat) (sys_id comp_id now : ℕ)
      → IsSound a
      → IsSound (observe same conf a c msg sys_id comp_id now).0
  unfolding observe
  observe-IsSound a c msg sys_id comp_id now h =
      elim (Bool-cases (is_px4_autopilot_heartbeat sys_id comp_id msg)) [
        | inl beat ↦ rw beat (note_heartbeat-IsSound _ _ now stored_first)
        | inr other ↦ rw other stored_first
      ]
    where
      stored_first : IsSound (store a (identify same conf a c) c)
      stored_first = store-IsSound a _ c refl h

  pub apply_event-IsSound :
      (a : Arbiter Channel) (e : Event Channel) → IsSound a → IsSound (apply_event same conf a e)
  unfolding apply_event register
  apply_event-IsSound a (registers c) h = store-IsSound a _ c refl h
  apply_event-IsSound a (unregisters c) h = unregister-IsSound a c h
  apply_event-IsSound a (observes c msg sys_id comp_id now) h =
      observe-IsSound a c msg sys_id comp_id now h
  apply_event-IsSound a (broadcast now) h = note_heartbeat-IsSound a link_eth now h
  apply_event-IsSound a (evaluates now) h = evaluate-IsSound a now h

  pub run_events-IsSound :
      (a : Arbiter Channel) (es : List (Event Channel))
      → IsSound a
      → IsSound (run_events same conf a es)
  unfolding run_events
  run_events-IsSound a [] h = h
  run_events-IsSound a (e ∷ es) h =
      run_events-IsSound (apply_event same conf a e) es (apply_event-IsSound a e h)

  start-IsSound : (a : Arbiter Channel) (now : ℕ) → IsSound a → IsSound (start_supervisor a now)
  unfolding start_supervisor identify
  start-IsSound a now h = record {
    serial_after_loss = ground arith;
    chosen = ground arith;
    counted = omega arith;
    stored = h.stored;
  }
