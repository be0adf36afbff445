-- ===== src/Session/Recovery.antt =====
-- Start, Stop, Send, Register, TriggerReauth, TriggerSessionRecovery, ForceReconnect, and the VPN
-- request of auth/client.go.
use uavlink_edge.Common.{
  Bool, Option, [], false, if◌then◌else◌, none, not, some, true, ℕ, ◌==◌, ◌||◌, ◌∷◌,
}
use uavlink_edge.Session.Calls.{
  Call, attempt, clock, dial, get_client, given, if_connected, nothing_of, on_failure, panics,
  parsed, pure, raise, receive_packet, returns, send_packet, unix_of, update, ◌>>=◌, ◌>>◌,
}
use uavlink_edge.Session.Handshake.{
  authenticate, close_conn, compute_hmac, request_session, reset_conn,
}
use uavlink_edge.Session.Refresh.{handle_refresh_failure, has_valid_session, send_refresh}
use uavlink_edge.Session.World.{
  Client, Outside, World, network_error, not_connected, not_running, recovery_failed, refresh_error,
  rejected, save_failed, shared_secret_required,
}
use uavlink_edge.Wire.Bytes.{Bytes}
use uavlink_edge.Wire.Codes.{result_success}
use uavlink_edge.Wire.Replies.{parse_register_ack, parse_register_challenge}
use uavlink_edge.Wire.Requests.{
  serialize_register_init, serialize_register_response, serialize_session_refresh,
}

-- closeTCP, and whether it closed a connection.
unfoldable pub close_tcp : Call Bool
close_tcp = do
  c ← get_client
  if_connected c.conn (pure false) (λ n. update reset_conn >>= λ _. pure true)

unfoldable pub set_running : Bool → World → World
set_running running w = record w { client = record w.client { running = running } }

-- The session that Register leaves: the new secret, and no connection or token.
unfoldable pub registered_with : Bytes → World → World
registered_with key w = record w {
  client = record w.client { secret = key; conn = none; session_token = []; expires_at = 0 };
}

-- GetSessionRefreshPacket
unfoldable pub get_session_refresh_packet : Client → Option Bytes
get_session_refresh_packet c =
    if nothing_of c.session_token
    then none
    else some (
        serialize_session_refresh
          (record { session_token = c.session_token; drone_uuid = c.drone_uuid }))

unfoldable pub alert_network_error : World → World
alert_network_error w = record w {
  callbacks = if w.client.on_network_error then network_error ∷ w.callbacks else w.callbacks;
}

-- close(c.stopCh), which panics on a channel that is closed.
abbrev pub close_stop : Bool → Call (Unit {0})
close_stop true w = panics w
close_stop false w = returns tt (record w { client = record w.client { stopped = true } })

unfoldable pub close_stop_channel : Call (Unit {0})
close_stop_channel w = close_stop w.client.stopped w

-- The connection is closed and stays in its field.
unfoldable pub stop : Call (Unit {0})
stop = do update (set_running false); close_stop_channel; update close_conn

module _ (env : Outside) where
  unfoldable pub start : Call (Unit {0})
  start = do
    c ← get_client
    if c.running then pure tt else (do
      now ← clock env
      if has_valid_session c now then pure tt else authenticate env
      update (set_running true))

  -- Send. A failed write starts the callback of a network error.
  unfoldable pub send : Bytes → Call (Unit {0})
  send data_bytes = do
    c ← get_client
    if_connected c.conn (raise not_connected) (λ n.
        if not c.running
        then raise not_connected
        else on_failure (update alert_network_error) (send_packet env n data_bytes))

  unfoldable pub trigger_reauth : Call (Unit {0})
  trigger_reauth = close_tcp >>= λ _. authenticate env

  -- requestSession on the connection at hand, and a new handshake if it fails or there is none.
  unfoldable pub request_or_reauth : Option ℕ → Call (Unit {0})
  request_or_reauth conn =
      if_connected conn trigger_reauth
        λ n. attempt (request_session env n) (λ e. trigger_reauth) pure

  unfoldable pub trigger_session_recovery : Call (Unit {0})
  trigger_session_recovery = do
    c ← get_client
    now ← clock env
    if not c.running
        then raise not_running
        else if has_valid_session c now
        then attempt (send_refresh env) (λ e. request_or_reauth c.conn) pure
        else request_or_reauth c.conn

  -- ForceReconnect with the goroutine that it starts.
  unfoldable pub force_reconnect : Call (Unit {0})
  force_reconnect = do
    had_conn ← close_tcp
    c ← get_client
    if not had_conn || not c.running
        then pure tt
        else attempt trigger_session_recovery
            (λ e. handle_refresh_failure env (refresh_error recovery_failed 0)) pure

  unfoldable pub save_secret : Call (Unit {0})
  save_secret w = given (if env.save_secret_at w.tick then some tt else none) save_failed w

  unfoldable pub register_response : Client → Bytes → ℕ → Bytes
  register_response c nonce timestamp = serialize_register_response (record {
    drone_uuid = c.drone_uuid;
    hmac = compute_hmac env c.shared_secret c.drone_uuid nonce timestamp;
    timestamp = timestamp;
  })

  -- Register. The connection is not stored; it is closed only at the end of a success.
  unfoldable pub register_drone : Call (Unit {0})
  register_drone = do
    c ← get_client
    if nothing_of c.shared_secret then raise shared_secret_required else pure tt
    n ← dial env
    send_packet env n (
        serialize_register_init
          (record { drone_uuid = c.drone_uuid; vehicle_type = c.vehicle_type; model = c.model }))
    reply ← receive_packet env
    challenge ← parsed (parse_register_challenge reply)
    now ← clock env
    send_packet env n (register_response c challenge.nonce (unix_of now))
    reply ← receive_packet env
    ack ← parsed (parse_register_ack reply)
    if ack.result == result_success then pure tt else raise (rejected ack.error_code)
    save_secret
    update λ w. registered_with ack.secret_key (record w { closed = n ∷ w.closed })
