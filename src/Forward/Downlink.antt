-- ===== src/Forward/Downlink.antt =====
-- receiveFromServer of forwarder/forwarder.go on a frame from the server. What web.GetPixhawkSystemID
-- and the node's WriteMessageTo return is an argument. The log and the verbose mode are not modelled.
pub mod Laws
use uavlink_edge.Common.{Bool, false, if◌then◌else◌, not, true, ℕ, ◌&&◌, ◌==◌}
use uavlink_edge.Forward.Stats.{inc_msg_srv_in, inc_msg_srv_out}
use uavlink_edge.Forward.Uplink.{Forwarder}
use uavlink_edge.Link.Arbiter.{WriteResult, write, write_to}

-- The types that the switch tells apart.
pub data MessageKind : Type 0 where
  heartbeat_kind gps_raw_int_kind sys_status_kind attitude_kind : MessageKind
  global_position_int_kind vfr_hud_kind local_position_ned_kind other_kind : MessageKind

pub record ServerFrame : Type 0 where
  pub sys_id : ℕ
  pub msg_id : ℕ
  pub kind : MessageKind

pub record DownSurroundings : Type 0 where
  pub pixhawk_sys_id : ℕ
  pub has_node : Bool
  pub write_succeeds : Bool

-- Where the loop is done with a frame.
pub data DownFate (Channel : Type 0) : Type 0 where
  own_message telemetry_echo not_written : DownFate Channel
  forwarded : Channel → DownFate Channel

abbrev pub is_telemetry : MessageKind → Bool
is_telemetry other_kind = false
is_telemetry _ = true

module _ {Channel : Type 0} where
  -- The error of WriteMessageTo is that of the write.
  abbrev pub handed : Bool → WriteResult Channel → DownFate Channel
  handed true (write_to c) = forwarded c
  handed _ _ = not_written

  abbrev pub count_out : ℕ → Forwarder Channel → DownFate Channel → Forwarder Channel
  count_out id f (forwarded c) = record f { msg_stats = inc_msg_srv_out id f.msg_stats }
  count_out id f _ = f

  -- From incMsgSrvIn on.
  unfoldable pub forward_to_px4 :
      DownSurroundings → ServerFrame → Forwarder Channel → Forwarder Channel × DownFate Channel
  forward_to_px4 env x f =
      let counted = record f { msg_stats = inc_msg_srv_in x.msg_id f.msg_stats } in
      let fate = handed env.write_succeeds (write f.links env.has_node true) in
      (count_out x.msg_id counted fate, fate)

  unfoldable pub receive_server_frame :
      DownSurroundings → ServerFrame → Forwarder Channel → Forwarder Channel × DownFate Channel
  receive_server_frame env x f =
      if not (env.pixhawk_sys_id == 0) && x.sys_id == env.pixhawk_sys_id
      then (f, own_message)
      else if is_telemetry x.kind
      then (f, telemetry_echo)
      else forward_to_px4 env x f
