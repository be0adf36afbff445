-- ===== src/Session/Setup.antt =====
-- NewClient and the getters of auth/client.go, with New of metrics/metrics.go.
use uavlink_edge.Common.{Bool, [], false, if◌then◌else◌, length, ltb, none, take, ℕ, ◌*◌, ◌++◌, ◌∷◌}
use uavlink_edge.Link.Step.{second}
use uavlink_edge.Metrics.{Metrics}
use uavlink_edge.Session.Calls.{nothing_of}
use uavlink_edge.Session.World.{Client, DisconnectCause, World, disconnect_none}
use uavlink_edge.Wire.Bytes.{Bytes}

-- The state of NewClient for a UUID and a shared secret, before the callbacks are set. Where the
-- configuration has no UUID, the source makes one before this.
unfoldable pub new_client : Bytes → Bytes → Client
new_client drone_uuid shared_secret = record {
  drone_uuid = drone_uuid;
  shared_secret = shared_secret;
  secret = [];
  session_token = [];
  expires_at = 0;
  refresh_interval = 0;
  conn = none;
  running = false;
  stopped = false;
  reconnect_interval = 5 * 60 * second;
  next_reconnect_at = 0;
  server_reachable = false;
  ever_connected = false;
  disconnect_cause = disconnect_none;
  last_refresh_ok = 0;
  previous_local_ip = [];
  last_ip_change_time = 0;
  ip_change_threshold = 10 * second;
  vehicle_type = 0;
  model = [];
  on_network_error = false;
  on_disconnect_cause = false;
  on_session_restored = false;
  vpn_manager = false;
  vpn_public_key = [];
  vpn_ready = false;
}

-- The status and the logs of New.
unfoldable pub new_metrics : {Message : Type 0} → Metrics Message
new_metrics = record {
  current_ip = [];
  auth_status = "Initializing";
  disconnect_reason = "";
  server_reachable = false;
  last_auth = 0;
  last_refresh_ok = 0;
  session_expires_at = 0;
  refresh_interval = 0;
  recent_logs = [];
}

-- The program before the first method of a client.
abbrev pub new_world : Client → World
new_world c = record {
  client = c;
  metrics = new_metrics;
  tick = 0;
  opened = [];
  closed = [];
  written = [];
  callbacks = [];
}

unfoldable pub is_server_reachable : Client → Bool
is_server_reachable c = c.server_reachable

unfoldable pub get_disconnect_cause : Client → DisconnectCause
get_disconnect_cause c = c.disconnect_cause

unfoldable pub get_session_info : Client → Bytes × Bytes × ℕ
get_session_info c = (c.session_token, c.previous_local_ip, c.expires_at)

unfoldable pub set_vpn_manager : Bool → Client → Client
set_vpn_manager present c = record c { vpn_manager = present }

-- "none", the token itself, or its first 20 bytes and "...".
unfoldable pub truncate_token : Bytes → Bytes
truncate_token token =
    if nothing_of token
    then 110 ∷ 111 ∷ 110 ∷ 101 ∷ []
    else if ltb 20 (length token)
    then take 20 token ++ 46 ∷ 46 ∷ 46 ∷ []
    else token
