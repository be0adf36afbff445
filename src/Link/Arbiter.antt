-- ===== src/Link/Arbiter.antt =====
-- px4Arbiter of forwarder/px4_link.go: the channels, heartbeats and active link under its mutex.
-- gomavlib is not modelled: a channel is a value of any type with decidable equality (the pointer
-- comparison), and `conf` gives the configuration of its endpoint, if it has one. Device names are
-- texts. A method that changes the arbiter returns the new one.
pub mod Invariant
pub mod Recovery
pub mod Routing
use uavlink_edge.Common.{
  Bool, List, Option, [], false, if◌then◌else◌, ltb, none, not, some, true, ℕ, ◌%◌, ◌&&◌, ◌+◌, ◌-◌,
  ◌/◌, ◌==◌, ◌^◌, ◌||◌, ◌∷◌,
}
use Prim.Native.String.{String}
use mathlib.Core.Logic.{ite}
use text.Mathlib.Text.{◌==◌ as str_eq}
use uavlink_edge.Link.Step.{
  LinkId, LinkSnap, Reason, is_eth, link_eth, link_none, link_telem2, link_telem3, millisecond,
  step_link, unchanged,
}

-- What identify tells apart: gomavlib.EndpointSerial, EndpointCustom, and every other type.
pub data EndpointConf : Type 0 where
  endpoint_serial : String → EndpointConf
  endpoint_custom endpoint_other : EndpointConf

pub record Arbiter (Channel : Type 0) : Type 0 where
  pub telem2_dev : String
  pub telem3_dev : String
  pub loss : ℕ
  pub recover_n : ℕ
  pub ch : LinkId → Option Channel
  pub last_hb : LinkId → ℕ
  pub snap : LinkSnap
  pub gen : ℕ

-- The fields of a HEARTBEAT that the arbiter reads; any other message is `none`.
pub record Heartbeat : Type 0 where
  pub autopilot : ℕ

abbrev pub same_link : LinkId → LinkId → Bool
same_link link_none link_none = true
same_link link_eth link_eth = true
same_link link_telem2 link_telem2 = true
same_link link_telem3 link_telem3 = true
same_link _ _ = false

-- array[id] = v
abbrev pub put_at {ℓ} : {A : Type ℓ} → (LinkId → A) → LinkId → A → LinkId → A
put_at f id v j = if same_link id j then v else f j

abbrev pub is_some {ℓ} : {A : Type ℓ} → Option A → Bool
is_some none = false
is_some (some _) = true

abbrev pub mav_autopilot_px4 : ℕ
mav_autopilot_px4 = 12

unfoldable pub is_px4_autopilot_heartbeat : ℕ → ℕ → Option Heartbeat → Bool
is_px4_autopilot_heartbeat sys_id comp_id none = false
is_px4_autopilot_heartbeat sys_id comp_id (some hb) =
    if sys_id == 0 || (sys_id == 255 || not (comp_id == 1))
    then false
    else hb.autopilot == mav_autopilot_px4

-- What write returns before it hands the message to the node, or the channel that it hands it to.
pub data WriteResult (Channel : Type 0) : Type 0 where
  not_ready : WriteResult Channel
  no_open_channel : LinkId → WriteResult Channel
  write_to : Channel → WriteResult Channel

-- The calls that the goroutines make, one at a time under the mutex, in any order. `broadcast`
-- is the note of a PX4 heartbeat by watchEthernetBroadcast.
pub data Event (Channel : Type 0) : Type 0 where
  registers unregisters : Option Channel → Event Channel
  observes : Option Channel → Option Heartbeat → ℕ → ℕ → ℕ → Event Channel
  broadcast evaluates : ℕ → Event Channel

abbrev has_reason : Reason → Bool
has_reason unchanged = false
has_reason _ = true

-- The type switch on the configuration, with the two device names that the arbiter holds.
abbrev identify_conf : String → String → Option EndpointConf → LinkId
identify_conf t2 t3 none = link_none
identify_conf t2 t3 (some (endpoint_serial device)) =
    if str_eq device t2 then link_telem2 else if str_eq device t3 then link_telem3 else link_none
identify_conf t2 t3 (some endpoint_custom) = link_eth
identify_conf t2 t3 (some endpoint_other) = link_none

module _ {Channel : Type 0} where
  -- a.ch[id] = ch, where id is not linkNone and ch is not nil.
  unfoldable pub store : Arbiter Channel → LinkId → Option Channel → Arbiter Channel
  store a id none = a
  store a link_none (some c) = a
  store a id (some c) = record a { ch = put_at a.ch id (some c) }

  unfoldable pub note_heartbeat : Arbiter Channel → LinkId → ℕ → Arbiter Channel
  note_heartbeat a link_none now = a
  note_heartbeat a id now =
      let s = a.snap in
      let counts =
        is_eth id && (s.eth_lost_flag && (not (is_eth s.active) && ltb s.eth_hb_since_loss 1000)) in
      record a {
        last_hb = put_at a.last_hb id now;
        snap = record s {
          eth_hb_since_loss = if counts then s.eth_hb_since_loss + 1 else s.eth_hb_since_loss;
        };
      }

  abbrev is_fresh : Arbiter Channel → ℕ → LinkId → Bool
  is_fresh a now link_none = false
  is_fresh a now id = not (a.last_hb id == 0) && ltb (now - a.last_hb id) a.loss

  abbrev has_channel : Arbiter Channel → LinkId → Bool
  has_channel a link_none = false
  has_channel a id = is_some (a.ch id)

  -- gen is a uint64.
  unfoldable pub evaluate : Arbiter Channel → ℕ → Arbiter Channel
  evaluate a now =
      let (next, reason) =
        step_link a.snap now (is_fresh a now) (has_channel a) a.loss a.recover_n in
      let switched = has_reason reason && not (same_link next.active a.snap.active) in
      record a { snap = next; gen = if switched then (a.gen + 1) % 2 ^ 64 else a.gen }

  -- The link and the age of its last heartbeat in milliseconds, if it had one, which evaluate
  -- hands to web.SetPX4LinkStatus.
  unfoldable pub link_status : Arbiter Channel → ℕ → LinkId × Option ℕ
  link_status a now =
      let last = a.last_hb a.snap.active in
      (a.snap.active, if last == 0 then none else some ((now - last) / millisecond))

  -- The channel of the active link, to which the GCS heartbeat goes, if it is open.
  unfoldable pub heartbeat_target : Arbiter Channel → Option Channel
  heartbeat_target a = a.ch a.snap.active

  abbrev to_channel : LinkId → Option Channel → WriteResult Channel
  to_channel id none = no_open_channel id
  to_channel id (some c) = write_to c

  unfoldable pub write : Arbiter Channel → Bool → Bool → WriteResult Channel
  write a has_node has_msg =
      if not has_node || not has_msg
      then not_ready
      else to_channel a.snap.active (a.ch a.snap.active)

  -- What startPX4LinkSupervisor sets before the loop starts.
  unfoldable pub start_supervisor : Arbiter Channel → ℕ → Arbiter Channel
  start_supervisor a now = record a {
    snap = record {
      active = link_eth;
      entered = now;
      hold_until = 0;
      eth_lost_flag = false;
      eth_hb_since_loss = 0;
    };
  }

module _ {Channel : Type 0} (same : Discrete Channel) (conf : Channel → Option EndpointConf) where
  unfoldable pub identify : Arbiter Channel → Option Channel → LinkId
  identify a none = link_none
  identify a (some c) = identify_conf a.telem2_dev a.telem3_dev (conf c)

  unfoldable pub register : Arbiter Channel → Option Channel → Arbiter Channel
  unfolding store
  register a c = store a (identify a c) c

  abbrev without : Channel → Option Channel → Option Channel
  without c none = none
  without c (some d) = ite (same d c) none (some d)

  unfoldable pub unregister : Arbiter Channel → Option Channel → Arbiter Channel
  unregister a none = a
  unregister a (some c) = record a { ch = λ id. without c (a.ch id) }

  -- The arbiter, and whether the frame may be forwarded with the generation that it belongs to.
  unfoldable pub observe :
      Arbiter Channel → Option Channel → Option Heartbeat → ℕ → ℕ → ℕ → Arbiter Channel × Bool × ℕ
  unfolding store note_heartbeat is_px4_autopilot_heartbeat
  observe a c msg sys_id comp_id now =
      let id = identify a c in
      let a1 = store a id c in
      let a2 =
        if is_px4_autopilot_heartbeat sys_id comp_id msg then note_heartbeat a1 id now else a1 in
      (a2, not (same_link id link_none) && same_link id a2.snap.active, a2.gen)

  unfoldable pub apply_event : Arbiter Channel → Event Channel → Arbiter Channel
  apply_event a (registers c) = register a c
  apply_event a (unregisters c) = unregister a c
  apply_event a (observes c msg sys_id comp_id now) = (observe a c msg sys_id comp_id now).0
  apply_event a (broadcast now) = note_heartbeat a link_eth now
  apply_event a (evaluates now) = evaluate a now

  unfoldable pub run_events : Arbiter Channel → List (Event Channel) → Arbiter Channel
  run_events a [] = a
  run_events a (e ∷ es) = run_events (apply_event a e) es
