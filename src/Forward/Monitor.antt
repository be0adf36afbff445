-- ===== src/Forward/Monitor.antt =====
-- monitorIPChange with getCurrentIP, checkPhysicalEgressChange, RebindUplink and the callbacks of
-- SetAuthClient in forwarder/forwarder.go. What a check reads from the VPN manager, the interfaces,
-- the status file and the session is an argument of it. The ticker and the logs, those of the metrics
-- included, are not modelled.
pub mod Laws
use uavlink_edge.Common.{
  Bool, List, Option, [], false, if◌then◌else◌, none, not, some, true, ℕ, ◌&&◌, ◌+◌, ◌||◌, ◌∷◌,
}
use Prim.Native.String.{String, slice, ◌++◌ as str_append}
use text.Mathlib.Text.{find?, ◌==◌ as str_eq}
use uavlink_edge.Egress.{Egress}
use uavlink_edge.Forward.Nodes.{NodeOutcomes, Nodes, rebuild_nodes}
use uavlink_edge.Forward.Uplink.{VpnStatus, has_tunnel}
use uavlink_edge.Session.World.{DisconnectCause, disconnect_auth_failed, disconnect_session_invalid}
use uavlink_edge.Wire.Cursor.{ok}

-- What one check reads: vpn_manager and local_ip are none for a nil manager and for an error, and
-- session_ip is the local address of GetSessionInfo.
pub record Reading : Type 0 where
  pub vpn_enabled : Bool
  pub vpn_manager : Option VpnStatus
  pub local_ip : Option String
  pub egress : Egress
  pub session_ip : String

-- The fields of Forwarder and the variable networkWasDown. force_check and sender_rebuild say that
-- the channel of that name, of capacity 1, is full; reconnects counts the calls of ForceReconnect,
-- and shown_ip is the address in the metrics.
pub record Monitor : Type 0 where
  pub nodes : Nodes
  pub auth_client : Bool
  pub previous_ip : String
  pub previous_physical_egress : String
  pub network_was_down : Bool
  pub is_healthy : Bool
  pub force_check : Bool
  pub sender_rebuild : Bool
  pub reconnects : ℕ
  pub shown_ip : String

abbrev pub is_blank : String → Bool
is_blank s = str_eq s ""

-- ip[:idx] up to the first slash.
abbrev pub before_slash : String → String
before_slash ip = elim (find? ip "/") [ none ↦ ip | some idx ↦ slice ip 0 idx ]

abbrev pub tunnel_ip : VpnStatus → String
tunnel_ip v = if v.is_running then before_slash v.assigned_ip else ""

abbrev pub or_blank : Option String → String
or_blank none = ""
or_blank (some ip) = ip

unfoldable pub get_current_ip : Reading → String
get_current_ip r =
    if r.vpn_enabled
    then elim r.vpn_manager [ none ↦ or_blank r.local_ip | some v ↦ tunnel_ip v ]
    else or_blank r.local_ip

abbrev pub egress_key : Egress → String
egress_key e = str_append e.iface (str_append "|" e.ip)

pub data RebuildReason : Type 0 where
  initial_bind network_restored ip_changed unhealthy_recovery physical_egress_changed :
      RebuildReason

abbrev pub is_initial : RebuildReason → Bool
is_initial initial_bind = true
is_initial _ = false

-- f.authClient.ForceReconnect() where there is a client.
abbrev pub call_force_reconnect : Monitor → Monitor
call_force_reconnect m = record m {
  reconnects = if m.auth_client then m.reconnects + 1 else m.reconnects;
}

-- From the answer of the creation on.
abbrev pub rebuilt : RebuildReason → Monitor → Nodes × Bool → Monitor
rebuilt why m (s, false) = record m { nodes = s }
rebuilt why m (s, true) = record m {
  nodes = s;
  sender_rebuild = true;
  reconnects = if is_initial why then m.reconnects else (call_force_reconnect m).reconnects;
  is_healthy = true;
}

module _ (env : NodeOutcomes) where
  unfoldable pub rebuild_sender : RebuildReason → Monitor → Monitor
  rebuild_sender why m = rebuilt why m (rebuild_nodes env m.nodes)

  unfoldable pub check_physical_egress_change : Reading → Monitor → Monitor
  check_physical_egress_change r m =
      let key = egress_key r.egress in
      let noted = record m { previous_physical_egress = key } in
      if not r.egress.ok || is_blank r.egress.iface
      then m
      else if is_blank m.previous_physical_egress
      then (if not (is_blank r.egress.ip)
            && (not (is_blank r.session_ip) && not (str_eq r.session_ip r.egress.ip))
          then call_force_reconnect noted
          else noted)
      else if str_eq key m.previous_physical_egress
      then m
      else rebuild_sender physical_egress_changed noted

  -- The part of checkIP on a current address.
  unfoldable pub check_current : String → Monitor → Monitor
  check_current ip m =
      if is_blank ip
      then (if m.network_was_down
          then m
          else record m { is_healthy = false; network_was_down = true })
      else if m.network_was_down
      then rebuild_sender network_restored
          (record m { shown_ip = ip; network_was_down = false; previous_ip = ip })
      else if is_blank m.previous_ip
      then rebuild_sender initial_bind (record m { previous_ip = ip; shown_ip = ip })
      else if not (str_eq m.previous_ip ip)
      then rebuild_sender ip_changed (record m { shown_ip = ip; previous_ip = ip })
      else if m.is_healthy
      then m
      else rebuild_sender unhealthy_recovery m

  unfoldable pub check_ip : Reading → Monitor → Monitor
  check_ip r m = check_current (get_current_ip r) (check_physical_egress_change r m)

  -- RebindUplink from the tests of the VPN on.
  unfoldable pub rebind_uplink : Reading → Monitor → Monitor
  rebind_uplink r m =
      if r.vpn_enabled && has_tunnel r.vpn_manager
      then (let (s, made) = rebuild_nodes env m.nodes in
          record m { nodes = s; sender_rebuild = m.sender_rebuild || made })
      else m

-- The callbacks.
unfoldable pub network_error_callback : Monitor → Monitor
network_error_callback m =
    if m.is_healthy then record m { is_healthy = false; force_check = true } else m

unfoldable pub disconnect_cause_callback : DisconnectCause → Monitor → Monitor
disconnect_cause_callback disconnect_session_invalid m = record m { is_healthy = false }
disconnect_cause_callback disconnect_auth_failed m = record m { is_healthy = false }
disconnect_cause_callback _ m = m

unfoldable pub session_restored_callback : Monitor → Monitor
session_restored_callback m = record m {
  is_healthy = true;
  force_check = m.force_check || not m.is_healthy;
}

-- What may happen to a forwarder: the tick or the forced check of the monitor, the goroutine of
-- startup, a callback of the session, and receiveFromServer taking the signal.
pub data UplinkEvent : Type 0 where
  ticks : Reading → UplinkEvent
  forces : Reading → UplinkEvent
  rebinds : Reading → UplinkEvent
  network_fails : UplinkEvent
  disconnects : DisconnectCause → UplinkEvent
  restores : UplinkEvent
  resubscribes : UplinkEvent

module _ (env : NodeOutcomes) where
  unfoldable pub apply_uplink_event : UplinkEvent → Monitor → Monitor
  apply_uplink_event (ticks r) m = check_ip env r m
  apply_uplink_event (forces r) m =
      if m.force_check then check_ip env r (record m { force_check = false }) else m
  apply_uplink_event (rebinds r) m = rebind_uplink env r m
  apply_uplink_event network_fails m = network_error_callback m
  apply_uplink_event (disconnects cause) m = disconnect_cause_callback cause m
  apply_uplink_event restores m = session_restored_callback m
  apply_uplink_event resubscribes m = record m { sender_rebuild = false }

  unfoldable pub run_uplink_events : List UplinkEvent → Monitor → Monitor
  run_uplink_events [] m = m
  run_uplink_events (e ∷ es) m = run_uplink_events es (apply_uplink_event e m)
