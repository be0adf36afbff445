-- ===== src/Link/Arbiter/Routing.antt =====
-- Where frames go: the forwarding and writing of px4Arbiter in forwarder/px4_link.go.
use uavlink_edge.Common.{
  Bool, Bool-cases, List, Option, ap, arith, inl, inr, none, not, refl, some, sym, true, ℕ, ◌&&◌,
  ◌↔◌, ◌∙◌, ◌≡◌, ◌≢◌,
}
use mathlib.Core.Path.{subst}
use uavlink_edge.Link.Arbiter.{
  Arbiter, EndpointConf, Event, Heartbeat, heartbeat_target, identify, is_px4_autopilot_heartbeat,
  note_heartbeat, observe, run_events, same_link, store, write, write_to,
}
use uavlink_edge.Link.Arbiter.Invariant.{IsSound, run_events-IsSound}
use uavlink_edge.Link.Step.{LinkId, LinkSnap, link_eth, link_none, link_telem2, link_telem3}

store_keeps :
    {Channel : Type 0} (a : Arbiter Channel) (id : LinkId) (c : Option Channel)
    → ((store a id c).snap ≡ a.snap) × ((store a id c).gen ≡ a.gen)
unfolding store
store_keeps a id none = (refl, refl)
store_keeps a link_none (some c) = (refl, refl)
store_keeps a link_eth (some c) = (refl, refl)
store_keeps a link_telem2 (some c) = (refl, refl)
store_keeps a link_telem3 (some c) = (refl, refl)

note_keeps :
    {Channel : Type 0} (a : Arbiter Channel) (id : LinkId) (now : ℕ)
    → ((note_heartbeat a id now).snap.active ≡ a.snap.active)
      × ((note_heartbeat a id now).gen ≡ a.gen)
unfolding note_heartbeat
note_keeps a link_none now = (refl, refl)
note_keeps a link_eth now = (refl, refl)
note_keeps a link_telem2 now = (refl, refl)
note_keeps a link_telem3 now = (refl, refl)

same_link_iff :
    (id active : LinkId)
    → ((not (same_link id link_none) && same_link id active) ≡ true)
      ↔ ((id ≢ link_none) × (id ≡ active))
same_link_iff id active = (λ h. ground arith, λ h. ground arith)

module _ {Channel : Type 0} (same : Discrete Channel) (conf : Channel → Option EndpointConf) where
  write_target :
      (a : Arbiter Channel) (has_node has_msg : Bool) (c : Channel)
      → write a has_node has_msg ≡ write_to c
      → (has_node ≡ true) × (has_msg ≡ true) × (a.ch a.snap.active ≡ some c)
  unfolding write
  write_target a has_node has_msg c h = ground arith

  -- After any events from a sound arbiter, a command is written only to a channel whose endpoint
  -- belongs to the link that is active then, and never without a node or a message; the GCS
  -- heartbeat goes to the same channel.
  pub run_events-write :
      (a : Arbiter Channel) (es : List (Event Channel)) (has_node has_msg : Bool) (c : Channel)
      → IsSound same conf a
      → write (run_events same conf a es) has_node has_msg ≡ write_to c
      → let b = run_events same conf a es in
        (identify same conf b (some c) ≡ b.snap.active)
        × (b.snap.active ≢ link_none)
        × (has_node ≡ true)
        × (has_msg ≡ true)
        × (heartbeat_target b ≡ some c)
  unfolding heartbeat_target
  run_events-write a es has_node has_msg c h w =
      let sound = run_events-IsSound same conf a es h in
      let (node, msg, target) = write_target (run_events same conf a es) has_node has_msg c w in
      (sound.stored _ c target, sound.chosen, node, msg, target)

  observe_keeps :
      (a : Arbiter Channel) (c : Option Channel) (msg : Option Heartbeat) (sys_id comp_id now : ℕ)
      → let b = (observe same conf a c msg sys_id comp_id now).0 in
        (b.snap.active ≡ a.snap.active) × (b.gen ≡ a.gen)
  unfolding observe
  observe_keeps a c msg sys_id comp_id now =
      let id = identify same conf a c in
      let (s1, g1) = store_keeps a id c in
      let (s2, g2) = note_keeps (store a id c) id now in
      let s1' = ap (λ (s : LinkSnap). s.active) s1 in
      elim (Bool-cases (is_px4_autopilot_heartbeat sys_id comp_id msg)) [
        | inl beat ↦ rw beat (s2 ∙ s1', g2 ∙ g1)
        | inr other ↦ rw other (s1', g1)
      ]

  -- A frame may be forwarded exactly if it came over the link that is active, and over some link:
  -- what arrives on a backup, on an unknown device or without a channel is only noted.
  pub observe_forwards :
      (a : Arbiter Channel) (c : Option Channel) (msg : Option Heartbeat) (sys_id comp_id now : ℕ)
      → let (b, forward, gen) = observe same conf a c msg sys_id comp_id now in
        ((forward ≡ true)
          ↔ ((identify same conf a c ≢ link_none) × (identify same conf a c ≡ a.snap.active)))
        × (b.snap.active ≡ a.snap.active)
        × (gen ≡ a.gen)
  unfolding observe
  observe_forwards a c msg sys_id comp_id now =
      let (kept, gen_kept) = observe_keeps a c msg sys_id comp_id now in
      let iff = same_link_iff (identify same conf a c) a.snap.active in
      (
        subst
            (λ active.
              ((not (same_link (identify same conf a c) link_none)
                  && same_link (identify same conf a c) active)
                ≡ true)
              ↔ ((identify same conf a c ≢ link_none) × (identify same conf a c ≡ a.snap.active)))
            (sym kept) iff,
        kept,
        gen_kept,
      )
