-- ===== src/Witness/Config.antt =====
-- config/config.go at a file that leaves most out.
use uavlink_edge.Common.{[], false, refl, some, true, ◌∷◌, ◌≡◌}
use uavlink_edge.Config.{
  Config, load, loaded, negsuc, normalize_camera_config, pos, set_defaults, validate, validate_auth,
  validate_network,
}
use uavlink_edge.Config.Loading.{IsLoad, load-IsLoad}

abbrev file : Config
file = record {
  log_level = "";
  show_packet_stats = false;
  auth_enabled = true;
  auth_host = "router";
  auth_port = pos 5770;
  keepalive_interval = pos 30;
  negative_heartbeat = false;
  model_length = 4;
  local_listen_port = pos 14550;
  target_host = "router";
  target_port = pos 14550;
  web_port = pos 8080;
  subnet = "";
  pixhawk_connection_timeout = negsuc 0;
  cellular_driver = "";
  cellular_iface = "";
  sim7600 = false;
  sim8262 = false;
  vpn_config_file = "";
  vpn_port = pos 0;
  router_vpn_ip = "";
  streams =
      record {
        detect_frame_skip = pos 0;
        overlay_frame_skip = pos 2;
        gate_timeout_ms = negsuc 4;
        lores_size = [];
      }
      ∷ [];
}

file_runs : load true (some file) ≡ loaded (normalize_camera_config (set_defaults true file))
unfolding load validate validate_auth validate_network set_defaults
file_runs = refl

load-IsLoad_example : IsLoad true file (load true (some file))
load-IsLoad_example = load-IsLoad true file
