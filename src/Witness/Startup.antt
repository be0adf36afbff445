-- ===== src/Witness/Startup.antt =====
-- The VPN manager of vpn/manager.go and the authentication of main.go, at concrete inputs.
use uavlink_edge.Common.{
  List, [], false, if◌then◌else◌, none, not, refl, some, true, ◌==◌, ◌∷◌, ◌≡◌,
}
use text.Mathlib.Text.{◌==◌ as str_eq}
use uavlink_edge.Forward.Monitor.{Monitor, Reading}
use uavlink_edge.Forward.Nodes.{NodeOutcomes, Nodes}
use uavlink_edge.Session.Calls.{end}
use uavlink_edge.Startup.{
  Program, StartupOutcomes, bound, first_auth, restart_vpn, run_auth_when_ready,
  start_auth_with_retry, start_vpn_after_auth, watch_cloud_and_rebind, watch_tick,
}
use uavlink_edge.Vpn.{
  VpnCall, VpnConfig, VpnOutcomes, apply_vpn_call, new_manager, run_vpn_calls,
  save_provisioned_config, saves_vpn, starts_vpn, stops_vpn, vpn_start, vpn_stop,
}
use uavlink_edge.Vpn.Laws.{IsVpnSound, lost_in, run_vpn_calls-IsVpnSound}

abbrev wireguard : VpnOutcomes
wireguard = record {
  parse_addr = λ ip. str_eq ip "10.8.0.2";
  parse_key = λ key. str_eq key "key";
  tun_at = λ _. true;
  ipc_at = λ n. not (n == 1);
  up_at = λ _. true;
  write_at = λ _. true;
  left_at = λ _. none;
  generate_at = λ _. some ("key", "public");
}

abbrev granted : VpnConfig
granted = record {
  config_ip = "10.8.0.2/32";
  private_key = "key";
  public_key = "public";
  server_pub_key = "key";
  server_endpoint = "1.2.3.4:51820";
}

-- Saved at 0, lost at 1, started at 2, and stopped.
abbrev calls_made : List VpnCall
calls_made = saves_vpn granted ∷ starts_vpn ∷ starts_vpn ∷ starts_vpn ∷ stops_vpn ∷ []

calls_run :
    let m = run_vpn_calls wireguard calls_made (new_manager none) in
    (m.devices_opened ≡ 2 ∷ 1 ∷ []) × (m.devices_closed ≡ 2 ∷ [])
unfolding run_vpn_calls apply_vpn_call vpn_start vpn_stop save_provisioned_config
calls_run = (refl, refl)

run_vpn_calls-IsVpnSound_example :
    IsVpnSound
      (lost_in wireguard (λ _. 0) calls_made (new_manager none))
      (run_vpn_calls wireguard calls_made (new_manager none))
run_vpn_calls-IsVpnSound_example = run_vpn_calls-IsVpnSound wireguard calls_made none

abbrev sent_once : Nodes
sent_once = record {
  sender_node = 0;
  camera_sender_node = none;
  companion_sender_node = none;
  tick = 1;
  opened = 0 ∷ [];
  closed = [];
}

abbrev forwarder : Monitor
forwarder = record {
  nodes = sent_once;
  auth_client = true;
  previous_ip = "";
  previous_physical_egress = "";
  network_was_down = false;
  is_healthy = true;
  force_check = false;
  sender_rebuild = false;
  reconnects = 0;
  shown_ip = "";
}

abbrev program : Program
program = record {
  vpn_mgr = some (new_manager none);
  monitor = forwarder;
  attempts = 0;
  rebind_calls = 0;
  watching = false;
  cloud_rebinds = 0;
}

abbrev nodes_made : NodeOutcomes
nodes_made = record { node_at = λ _. true; dial_at = λ _. true }

abbrev vpn_only : Reading
vpn_only = record {
  vpn_enabled = true;
  vpn_manager = none;
  local_ip = none;
  egress = record { iface = ""; ip = ""; ok = false };
  session_ip = "";
}

-- WireGuard that takes the first configuration.
abbrev first_taken : VpnOutcomes
first_taken = record wireguard { ipc_at = λ _. true }

abbrev cloud_up : Reading
cloud_up = record vpn_only { egress = record { iface = "wwan0"; ip = "10.0.0.2"; ok = true } }

-- The third call succeeds, and the router grants a configuration; the egress comes before the third
-- call, and is found once more before the rebinding.
abbrev third : StartupOutcomes
third = record {
  auth_at = λ n. n == 2;
  provision_at = λ _. some granted;
  ticks_at = λ n. if n == 2 then cloud_up ∷ [] else [];
  ticks_up = cloud_up ∷ [];
}

third_runs :
    let (q, end) =
      run_auth_when_ready first_taken nodes_made vpn_only third vpn_only.egress 4 program in
    (end ≡ bound) × (q.cloud_rebinds ≡ 1) × (q.rebind_calls ≡ 1)
unfolding run_auth_when_ready first_auth start_auth_with_retry start_vpn_after_auth restart_vpn
    vpn_start save_provisioned_config watch_cloud_and_rebind watch_tick vpn_stop
third_runs = (refl, refl, refl)
