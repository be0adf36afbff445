-- ===== src/Startup.antt =====
-- startVPNAfterAuth, runAuthWhenReady, startAuthWithRetry and watchCloudAndRebind of main.go. How the
-- n-th call of the client's Start ends, and which configuration RequestVPNProvisioning hands to
-- SaveProvisionedConfig after it, if any, are arguments, as are the answers of the system and of
-- WireGuard. The authentication and watchCloudAndRebind are goroutines beside each other: the ticks of
-- the latter that come before a call of Start, and those between the start of the tunnel and the
-- rebinding, are arguments too. Two rebinds in the middle of each other are not covered. A loop takes
-- the rounds that it may run. The sleeps, the logs and a nil forwarder, which main does not pass, are
-- not modelled.
pub mod Laws
use uavlink_edge.Common.{
  Bool, List, Option, [], false, if◌then◌else◌, none, not, some, suc, zero, ℕ, ◌&&◌, ◌+◌, ◌∷◌,
}
use uavlink_edge.Egress.{Egress}
use uavlink_edge.Forward.Monitor.{Monitor, Reading, rebind_uplink}
use uavlink_edge.Forward.Nodes.{NodeOutcomes}
use uavlink_edge.Forward.Uplink.{VpnStatus}
use uavlink_edge.Vpn.{
  VpnConfig, VpnFailure, VpnManager, VpnOutcomes, save_provisioned_config, vpn_start, vpn_status,
  vpn_stop,
}
use uavlink_edge.Wire.Cursor.{ok}

-- ticks_at has what the ticks of watchCloudAndRebind read before a call of Start, and ticks_up what those
-- read that come before the rebinding with the tunnel up.
pub record StartupOutcomes : Type 0 where
  pub auth_at : ℕ → Bool
  pub provision_at : ℕ → Option VpnConfig
  pub ticks_at : ℕ → List Reading
  pub ticks_up : List Reading

-- What startup changes: the VPN manager, the forwarder, the calls of authClient.Start, how often the
-- authentication called RebindUplink, whether watchCloudAndRebind runs, and how often that called it.
pub record Program : Type 0 where
  pub vpn_mgr : Option VpnManager
  pub monitor : Monitor
  pub attempts : ℕ
  pub rebind_calls : ℕ
  pub watching : Bool
  pub cloud_rebinds : ℕ

pub data StartupEnd : Type 0 where
  still_trying bound : StartupEnd
  no_tunnel : VpnFailure → StartupEnd

abbrev pub manager_status : Option VpnManager → Option VpnStatus
manager_status none = none
manager_status (some m) = some (vpn_status m)

abbrev pub mgr_running : Option VpnManager → Bool
mgr_running none = false
mgr_running (some m) = m.vpn_running

abbrev pub stopped_first : VpnManager → VpnManager
stopped_first m = if m.vpn_running then vpn_stop m else m

-- fwd.RebindUplink, which reads the manager.
abbrev pub rebound : NodeOutcomes → Reading → Program → Monitor
rebound node_env r p =
    rebind_uplink node_env (record r { vpn_manager = manager_status p.vpn_mgr }) p.monitor

-- A tick of watchCloudAndRebind, which returns after its rebinding.
unfoldable pub watch_tick : NodeOutcomes → Reading → Program → Program
watch_tick node_env r p =
    if p.watching && (r.egress.ok && mgr_running p.vpn_mgr)
    then record p {
      monitor = rebound node_env r p;
      watching = false;
      cloud_rebinds = p.cloud_rebinds + 1;
    }
    else p

unfoldable pub watch_cloud_and_rebind : NodeOutcomes → List Reading → Program → Program
watch_cloud_and_rebind node_env [] p = p
watch_cloud_and_rebind node_env (r ∷ rs) p =
    watch_cloud_and_rebind node_env rs (watch_tick node_env r p)

-- PhysicalEgress, and the start of watchCloudAndRebind.
abbrev pub watched : Egress → Program → Program
watched e p = record p { watching = not e.ok }

module _ (vpn_env : VpnOutcomes) where
  abbrev pub provisioned : Option VpnConfig → VpnManager → VpnManager
  provisioned none m = m
  provisioned (some cfg) m = (save_provisioned_config vpn_env cfg m).0

  -- From the provisioning on.
  unfoldable pub restart_vpn : Option VpnConfig → VpnManager → VpnManager × Option VpnFailure
  restart_vpn answer m = vpn_start vpn_env (stopped_first (provisioned answer m))

  module _ (node_env : NodeOutcomes) (r : Reading) (env : StartupOutcomes) where
    -- The rebinding of the authentication.
    abbrev pub rebind : Program → Program
    rebind p = record p { monitor = rebound node_env r p; rebind_calls = p.rebind_calls + 1 }

    -- What follows startVPNAfterAuth.
    abbrev pub after_vpn : Program → VpnManager × Option VpnFailure → Program × StartupEnd
    after_vpn p (m, none) = (
      rebind (watch_cloud_and_rebind node_env env.ticks_up (record p { vpn_mgr = some m })),
      bound,
    )
    after_vpn p (m, some e) = (record p { vpn_mgr = some m }, no_tunnel e)

    abbrev pub vpn_after_auth :
        Option VpnManager → Option VpnConfig → Program → Program × StartupEnd
    vpn_after_auth none answer p = (rebind p, bound)
    vpn_after_auth (some m) answer p = after_vpn p (restart_vpn answer m)

    -- startVPNAfterAuth and the rebinding, after a call of Start.
    unfoldable pub start_vpn_after_auth : Option VpnConfig → Program → Program × StartupEnd
    start_vpn_after_auth answer p = vpn_after_auth p.vpn_mgr answer p

    -- The ticks before a call of Start, and the call.
    abbrev pub attempted : Program → Program
    attempted p =
        let q = watch_cloud_and_rebind node_env (env.ticks_at p.attempts) p in
        record q { attempts = q.attempts + 1 }

    -- The loop of startAuthWithRetry.
    unfoldable pub start_auth_with_retry : ℕ → Program → Program × StartupEnd
    start_auth_with_retry zero p = (p, still_trying)
    start_auth_with_retry (suc rounds) p =
        let later = start_auth_with_retry rounds (attempted p) in
        if env.auth_at p.attempts
        then start_vpn_after_auth (env.provision_at p.attempts) (attempted p)
        else later

    -- The first call of Start.
    unfoldable pub first_auth : ℕ → Program → Program × StartupEnd
    first_auth rounds p =
        let later = start_auth_with_retry rounds (attempted p) in
        if env.auth_at p.attempts
        then start_vpn_after_auth (env.provision_at p.attempts) (attempted p)
        else later

    unfoldable pub run_auth_when_ready : Egress → ℕ → Program → Program × StartupEnd
    run_auth_when_ready e rounds p = first_auth rounds (watched e p)
