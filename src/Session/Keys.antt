-- ===== src/Session/Keys.antt =====
-- auth/client_apikey.go, and RequestVPNProvisioning of auth/client.go. Each method of an API key has
-- the same steps up to the reply, which `key_exchange` has once.
use uavlink_edge.Common.{Bool, false, if◌then◌else◌, ltb, none, not, some, true, ℕ, ◌%◌, ◌==◌, ◌^◌}
use uavlink_edge.Metrics.{add_log}
use uavlink_edge.Session.Calls.{
  Call, clock, crash, get_client, given, if_connected, nothing_of, panics, parsed, pure, raise,
  receive_packet, relabel, returns, send_packet, update, ◌>>=◌, ◌>>◌,
}
use uavlink_edge.Session.Handshake.{reconnect_tcp}
use uavlink_edge.Session.Status.{on_metrics}
use uavlink_edge.Session.World.{
  Client, Failure, LogMessage, Outside, World, api_key_deleted, api_key_generated, api_key_revoked,
  connection_failed, no_active_session, no_key_pair, no_session, no_vpn_manager, not_connected,
  not_running, rejected, save_failed, timed_out,
}
use uavlink_edge.Wire.Bytes.{Bytes}
use uavlink_edge.Wire.Codes.{result_success}
use uavlink_edge.Wire.KeyReplies.{
  ApiKeyResponse, ApiKeyStatusResponse, parse_api_key_delete_ack, parse_api_key_response,
  parse_api_key_revoke_ack, parse_api_key_status_response, parse_vpn_provision_ack,
}
use uavlink_edge.Wire.Requests.{
  serialize_api_key_delete, serialize_api_key_request, serialize_api_key_revoke,
  serialize_api_key_status, serialize_vpn_provision_request,
}

-- The clamp of the hours, which are 0 here where they are below 0 in the source.
unfoldable pub clamp_hours : ℕ → ℕ
clamp_hours hours = let h = if ltb hours 1 then 1 else hours in if ltb 720 h then 720 else h

-- What RequestAPIKey returns with a response: no error, or one of two.
pub data KeyRequestResult : Type 0 where
  key_granted already_active key_refused : ApiKeyResponse → KeyRequestResult

abbrev pub log_key : LogMessage → ℕ → World → World
log_key m now w = on_metrics (add_log now "INFO" m) w

-- close(c.vpnReadyCh), which panics on a channel that is closed.
abbrev pub close_ready : Bool → Call (Unit {0})
close_ready true w = panics w
close_ready false w = returns tt (record w { client = record w.client { vpn_ready = true } })

unfoldable pub close_vpn_ready : Call (Unit {0})
close_vpn_ready w = close_ready w.client.vpn_ready w

unfoldable pub set_vpn_public_key : Bytes → World → World
set_vpn_public_key key w = record w { client = record w.client { vpn_public_key = key } }

abbrev reconnect_error : Failure → Failure
reconnect_error e = connection_failed

module _ (env : Outside) where
  -- The connection, or a new one; without one the field would be nil.
  unfoldable pub key_connection : Client → Call ℕ
  key_connection c =
      if_connected c.conn
        (do
          relabel reconnect_error (reconnect_tcp env)
          c' ← get_client
          if_connected c'.conn crash pure)
        pure

  -- From the tests to the reply; `request` makes the packet.
  unfoldable pub key_exchange : (Client → Bytes) → Call Bytes
  key_exchange request = do
    c ← get_client
    if not c.running then raise not_running else pure tt
    if nothing_of c.session_token then raise no_active_session else pure tt
    conn ← key_connection c
    send_packet env conn (request c)
    relabel (λ e. timed_out) (receive_packet env)

  unfoldable pub request_api_key : ℕ → Call KeyRequestResult
  request_api_key hours = do
    reply ← key_exchange (λ c. serialize_api_key_request (record {
      drone_uuid = c.drone_uuid;
      session_token = c.session_token;
      expiration_hours = clamp_hours hours % 2 ^ 16;
    }))
    resp ← parsed (parse_api_key_response reply)
    if resp.result == result_success
        then (clock env >>= λ now.
            update (log_key api_key_generated now) >>= λ _. pure (key_granted resp))
        else if resp.error_code == 1
        then pure (already_active resp)
        else pure (key_refused resp)

  unfoldable pub revoke_api_key : Call (Unit {0})
  revoke_api_key = do
    reply ← key_exchange (λ c.
        serialize_api_key_revoke
          (record { drone_uuid = c.drone_uuid; session_token = c.session_token }))
    ack ← parsed (parse_api_key_revoke_ack reply)
    if ack.result == result_success then pure tt else raise (rejected ack.error_code)
    now ← clock env
    update (log_key api_key_revoked now)

  unfoldable pub get_api_key_status : Call ApiKeyStatusResponse
  get_api_key_status = do
    reply ← key_exchange (λ c.
        serialize_api_key_status
          (record { drone_uuid = c.drone_uuid; session_token = c.session_token }))
    parsed (parse_api_key_status_response reply)

  unfoldable pub delete_api_key : Call (Unit {0})
  delete_api_key = do
    reply ← key_exchange (λ c.
        serialize_api_key_delete
          (record { drone_uuid = c.drone_uuid; session_token = c.session_token }))
    ack ← parsed (parse_api_key_delete_ack reply)
    if ack.result == result_success then pure tt else raise (rejected ack.error_code)
    now ← clock env
    update (log_key api_key_deleted now)

  unfoldable pub load_key_pair : Call (Bytes × Bytes)
  load_key_pair w = given (env.key_pair_at w.tick) no_key_pair w

  unfoldable pub save_config : Call (Unit {0})
  save_config w = given (if env.save_config_at w.tick then some tt else none) save_failed w

  -- The part of RequestVPNProvisioning on a connection.
  unfoldable pub provision_vpn : Client → ℕ → Call (Unit {0})
  provision_vpn c conn = do
    keys ← load_key_pair
    update (set_vpn_public_key keys.1)
    send_packet env conn (
        serialize_vpn_provision_request (record {
          drone_uuid = c.drone_uuid;
          session_token = c.session_token;
          wg_public_key = keys.1;
        }))
    reply ← receive_packet env
    ack ← parsed (parse_vpn_provision_ack reply)
    if ack.result == result_success then pure tt else raise (rejected ack.error_code)
    save_config
    close_vpn_ready

  unfoldable pub request_vpn_provisioning : Call (Unit {0})
  request_vpn_provisioning = do
    c ← get_client
    if not c.vpn_manager then raise no_vpn_manager else pure tt
    if nothing_of c.session_token then raise no_session else pure tt
    if_connected c.conn (raise not_connected) (provision_vpn c)
