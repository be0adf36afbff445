-- ===== src/Forward/Downlink/Laws.antt =====
-- What becomes of the frames that receiveFromServer of forwarder/forwarder.go takes.
use uavlink_edge.Common.{
  Bool, List, Option, arith, false, if◌then◌else◌, not, refl, some, sym, true, ℕ, ◌&&◌, ◌==◌, ◌↔◌,
  ◌≡◌, ◌≢◌, ◌⊎◌,
}
use mathlib.Core.Path.{subst}
use uavlink_edge.Forward.Downlink.{
  DownFate, DownSurroundings, MessageKind, ServerFrame, count_out, forward_to_px4, forwarded,
  handed, is_telemetry, not_written, other_kind, own_message, receive_server_frame, telemetry_echo,
}
use uavlink_edge.Forward.Stats.{MsgStats, inc_msg_srv_in, inc_msg_srv_out}
use uavlink_edge.Forward.Uplink.{Forwarder}
use uavlink_edge.Link.Arbiter.{
  Arbiter, EndpointConf, Event, WriteResult, identify, no_open_channel, not_ready, run_events,
  write, write_to,
}
use uavlink_edge.Link.Arbiter.Invariant.{IsSound, run_events-IsSound}
use uavlink_edge.Link.Step.{link_none}

-- A frame that the filters let pass.
abbrev pub IsCommand : DownSurroundings → ServerFrame → Type 0
IsCommand env x =
    ((env.pixhawk_sys_id ≡ 0) ⊎ (x.sys_id ≢ env.pixhawk_sys_id)) × (x.kind ≡ other_kind)

kind_other : (k : MessageKind) → (is_telemetry k ≡ false) ↔ (k ≡ other_kind)
kind_other k = ground arith

module _ {Channel : Type 0} where
  handed_iff :
      (b : Bool) (w : WriteResult Channel) (c : Channel)
      → (handed b w ≡ forwarded c) ↔ ((b ≡ true) × (w ≡ write_to c))
  handed_iff b w c = ground arith

  write_iff :
      (a : Arbiter Channel) (has_node : Bool) (c : Channel)
      → (write a has_node true ≡ write_to c) ↔ ((has_node ≡ true) × (a.ch a.snap.active ≡ some c))
  unfolding write
  write_iff a has_node c = ground arith

  -- The filters, and what is behind them.
  filtered_iff :
      (env : DownSurroundings) (x : ServerFrame) (f : Forwarder Channel) (c : Channel)
      → ((receive_server_frame env x f).1 ≡ forwarded c) ↔ (
          IsCommand env x
          × (handed env.write_succeeds (write f.links env.has_node true) ≡ forwarded c))
  unfolding receive_server_frame forward_to_px4
  filtered_iff env x f c = let other = kind_other x.kind in ground arith

  receive_server_frame_forwarded :
      (env : DownSurroundings) (x : ServerFrame) (f : Forwarder Channel) (c : Channel)
      → ((receive_server_frame env x f).1 ≡ forwarded c) ↔ (
          IsCommand env x
          × (env.has_node ≡ true)
          × (f.links.ch f.links.snap.active ≡ some c)
          × (env.write_succeeds ≡ true))
  unfolding receive_server_frame forward_to_px4 write
  receive_server_frame_forwarded env x f c =
      let filters = filtered_iff env x f c in
      let hands = handed_iff env.write_succeeds (write f.links env.has_node true) c in
      let writes = write_iff f.links env.has_node c in ground arith

  -- The counts of messages that a fate stands for.
  abbrev pub counts_of : ℕ → DownFate Channel → MsgStats → MsgStats
  counts_of id own_message m = m
  counts_of id telemetry_echo m = m
  counts_of id not_written m = inc_msg_srv_in id m
  counts_of id (forwarded c) m = inc_msg_srv_out id (inc_msg_srv_in id m)

  handed-counts :
      (b : Bool) (w : WriteResult Channel) (id : ℕ) (f : Forwarder Channel)
      → count_out id (record f { msg_stats = inc_msg_srv_in id f.msg_stats }) (handed b w)
        ≡ record f { msg_stats = counts_of id (handed b w) f.msg_stats }
  handed-counts true not_ready id f = refl
  handed-counts true (no_open_channel l) id f = refl
  handed-counts true (write_to c) id f = refl
  handed-counts false w id f = refl

  choose_counts :
      (a b : Bool) (id : ℕ) (f : Forwarder Channel) (p : Forwarder Channel × DownFate Channel)
      → p.0 ≡ record f { msg_stats = counts_of id p.1 f.msg_stats }
      → let q = if a then (f, own_message) else if b then (f, telemetry_echo) else p in
        q.0 ≡ record f { msg_stats = counts_of id q.1 f.msg_stats }
  choose_counts true b id f p h = refl
  choose_counts false true id f p h = refl
  choose_counts false false id f p h = h

  receive_server_frame-counts :
      (env : DownSurroundings) (x : ServerFrame) (f : Forwarder Channel)
      → let (g, fate) = receive_server_frame env x f in
        g ≡ record f { msg_stats = counts_of x.msg_id fate f.msg_stats }
  unfolding receive_server_frame forward_to_px4
  receive_server_frame-counts env x f =
      choose_counts (not (env.pixhawk_sys_id == 0) && x.sys_id == env.pixhawk_sys_id)
        (is_telemetry x.kind) x.msg_id f _
        (handed-counts env.write_succeeds (write f.links env.has_node true) x.msg_id f)

-- After any events from a sound arbiter, a frame from the server is forwarded to a channel exactly if
-- it is a command, there is a node, the channel is that of the active link, and the write succeeds;
-- then the endpoint of the channel belongs to the active link, which is a real link. Only the counts
-- of messages change, as the fate of the frame has it.
pub receive_server_frame-routes :
    {Channel : Type 0} (same : Discrete Channel) (conf : Channel → Option EndpointConf)
    (a : Arbiter Channel) (es : List (Event Channel)) (env : DownSurroundings) (x : ServerFrame)
    (f : Forwarder Channel) (c : Channel)
    → IsSound same conf a
    → f.links ≡ run_events same conf a es
    → let (g, fate) = receive_server_frame env x f in
      ((fate ≡ forwarded c) ↔ (
        IsCommand env x
        × (env.has_node ≡ true)
        × (f.links.ch f.links.snap.active ≡ some c)
        × (env.write_succeeds ≡ true)))
      × (fate ≡ forwarded c
          → (identify same conf f.links (some c) ≡ f.links.snap.active)
            × (f.links.snap.active ≢ link_none))
      × (g ≡ record f { msg_stats = counts_of x.msg_id fate f.msg_stats })
receive_server_frame-routes same conf a es env x f c sound run =
    let iff = receive_server_frame_forwarded env x f c in
    let here : IsSound same conf f.links =
      subst (IsSound same conf) (sym run) (run_events-IsSound same conf a es sound) in
    (iff, (λ h. (here.stored _ c (iff.0 h).2, here.chosen)), receive_server_frame-counts env x f)
