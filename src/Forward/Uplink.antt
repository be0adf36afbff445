-- ===== src/Forward/Uplink.antt =====
-- receiveAndForward of forwarder/forwarder.go on a frame from the autopilot, with
-- forwardGpsRawToServer. What the other goroutines hold at that moment is an argument: the health of
-- the session, the configuration, the VPN manager and what WriteFrameAll returns. The calls that
-- show values on the web page and the log are not modelled.
pub mod Laws
use uavlink_edge.Common.{Bool, Option, false, if◌then◌else◌, none, not, some, true, ℕ, ◌&&◌, ◌==◌}
use Prim.Native.String.{String}
use text.Mathlib.Text.{◌==◌ as str_eq}
use uavlink_edge.Forward.History.{SeqHist, duplicate, empty_hist}
use uavlink_edge.Forward.Stats.{
  MsgStats, PacketMetrics, PktCounter, PktStats, accepted_in_14540, drop_duplicate, drop_no_pixhawk,
  drop_send_error, drop_sys_id_255, drop_unhealthy, drop_vpn_not_ready, inc_failed_send,
  inc_failed_unhealthy, inc_msg_in, inc_msg_out, inc_pkt, inc_sent, out_server_forward,
  raw_in_14540,
}
use uavlink_edge.Link.Arbiter.{Arbiter, EndpointConf, Heartbeat, is_some, observe}

-- What a frame brings: the sequence number, the id and the name of the type of its message, and the
-- message if it is a heartbeat.
pub record Frame (Channel : Type 0) : Type 0 where
  pub channel : Option Channel
  pub sys_id : ℕ
  pub comp_id : ℕ
  pub seq_num : ℕ
  pub msg_id : ℕ
  pub msg_type_name : String
  pub heartbeat : Option Heartbeat

-- IsRunning and GetAssignedIP of a VPN manager.
pub record VpnStatus : Type 0 where
  pub is_running : Bool
  pub assigned_ip : String

-- The configuration: whether the VPN is enabled, and forward_gps_raw_int if it is given.
pub record UplinkConfig : Type 0 where
  pub vpn_enabled : Bool
  pub forward_gps_raw_int : Option Bool

pub record Surroundings : Type 0 where
  pub now : ℕ
  pub is_healthy : Bool
  pub cfg : Option UplinkConfig
  pub vpn_manager : Option VpnStatus
  pub write_succeeds : Bool

-- The arbiter and the fields of Forwarder that the loop changes. pixhawk_connected says that the
-- channel of that name is closed.
pub record Forwarder (Channel : Type 0) : Type 0 where
  pub links : Arbiter Channel
  pub link_gen : ℕ
  pub last_seq_num : ℕ → ℕ → Option SeqHist
  pub pixhawk_connected : Bool
  pub msg_stats : MsgStats
  pub pkt_stats : PktStats
  pub metrics : PacketMetrics

-- Where the loop is done with a frame.
pub data Fate : Type 0 where
  not_forward is_sys_id_255 is_duplicate no_pixhawk vpn_not_ready unhealthy withheld : Fate
  send_failed sent : Fate

abbrev pub mavlink_msg_gps_raw_int : ℕ
mavlink_msg_gps_raw_int = 24

unfoldable pub forward_gps_raw_to_server : Option UplinkConfig → Bool
forward_gps_raw_to_server none = true
forward_gps_raw_to_server (some cfg) = elim cfg.forward_gps_raw_int [
  | none ↦ true
  | some value ↦ value
]

abbrev pub has_tunnel : Option VpnStatus → Bool
has_tunnel none = false
has_tunnel (some v) = v.is_running && not (str_eq v.assigned_ip "")

abbrev pub vpn_blocks : Option UplinkConfig → Option VpnStatus → Bool
vpn_blocks none v = false
vpn_blocks (some cfg) v = cfg.vpn_enabled && not (has_tunnel v)

abbrev pub hist_of : Option SeqHist → SeqHist
hist_of none = empty_hist
hist_of (some h) = h

-- m[seqKey] = hist
abbrev pub put_hist : (ℕ → ℕ → Option SeqHist) → ℕ → ℕ → SeqHist → ℕ → ℕ → Option SeqHist
put_hist m sys comp hist i j = if i == sys && (j == comp) then some hist else m i j

module _ {Channel : Type 0} where
  abbrev pub count_pkt : PktCounter → Forwarder Channel → Forwarder Channel
  count_pkt c f = record f { pkt_stats = inc_pkt c f.pkt_stats }

  -- A new generation of the link starts new histories.
  unfoldable pub note_generation : ℕ → Forwarder Channel → Forwarder Channel
  note_generation gen f =
      if gen == f.link_gen then f else record f { link_gen = gen; last_seq_num = λ _ _. none }

  -- Under seqMu: the history of the sender, new if it has none, and its answer.
  unfoldable pub check_sequence : Frame Channel → Forwarder Channel → Forwarder Channel × Bool
  check_sequence x f =
      let hist = hist_of (f.last_seq_num x.sys_id x.comp_id) in
      let (hist', answer) = duplicate hist x.seq_num in
      (record f { last_seq_num = put_hist f.last_seq_num x.sys_id x.comp_id hist' }, answer)

  -- From the test of the connection on.
  unfoldable pub send_to_server :
      Surroundings → Frame Channel → Forwarder Channel → Forwarder Channel × Fate
  send_to_server env x f =
      if not f.pixhawk_connected
      then (count_pkt drop_no_pixhawk f, no_pixhawk)
      else if vpn_blocks env.cfg env.vpn_manager
      then (count_pkt drop_vpn_not_ready f, vpn_not_ready)
      else if not env.is_healthy
      then (
        count_pkt drop_unhealthy
            (record f { metrics = inc_failed_unhealthy x.msg_type_name f.metrics }),
        unhealthy,
      )
      else if x.msg_id == mavlink_msg_gps_raw_int && not (forward_gps_raw_to_server env.cfg)
      then (f, withheld)
      else if env.write_succeeds
      then (
        count_pkt out_server_forward (record f {
          metrics = inc_sent x.msg_type_name f.metrics;
          msg_stats = inc_msg_out x.msg_id f.msg_stats;
        }),
        sent,
      )
      else (
        count_pkt drop_send_error
            (record f { metrics = inc_failed_send x.msg_type_name f.metrics }),
        send_failed,
      )

  -- The first heartbeat closes pixhawkConnected.
  unfoldable pub note_pixhawk : Frame Channel → Forwarder Channel → Forwarder Channel
  note_pixhawk x f =
      if is_some x.heartbeat && not (x.sys_id == 255)
      then record f { pixhawk_connected = true }
      else f

  -- A frame that is new to its sender, or not.
  unfoldable pub take_sequence :
      Surroundings → Frame Channel → Forwarder Channel × Bool → Forwarder Channel × Fate
  take_sequence env x (f, answer) =
      if answer
      then (count_pkt drop_duplicate f, is_duplicate)
      else send_to_server env x (note_pixhawk x (count_pkt accepted_in_14540 f))

  -- A frame of the active link.
  unfoldable pub take_frame :
      Surroundings → Frame Channel → Forwarder Channel → Forwarder Channel × Fate
  take_frame env x f =
      if x.sys_id == 255
      then (count_pkt drop_sys_id_255 f, is_sys_id_255)
      else let counted = record f { msg_stats = inc_msg_in x.msg_id f.msg_stats } in
        take_sequence env x (check_sequence x counted)

module _ {Channel : Type 0} (same : Discrete Channel) (conf : Channel → Option EndpointConf) where
  unfoldable pub receive_frame :
      Surroundings → Frame Channel → Forwarder Channel → Forwarder Channel × Fate
  receive_frame env x f =
      let (a, forward, gen) =
        observe same conf f.links x.channel x.heartbeat x.sys_id x.comp_id env.now in
      let f1 = note_generation gen (record f { links = a }) in
      if forward then take_frame env x (count_pkt raw_in_14540 f1) else (f1, not_forward)
