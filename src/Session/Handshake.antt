-- ===== src/Session/Handshake.antt =====
-- authenticate, requestSession, reconnectTCP and Register of auth/client.go, with ComputeHMAC of
-- auth/hmac.go. Deadlines, TCP options and logging are left out, but for the slice of the token in a
-- log line, which panics on a token of fewer than 20 bytes.
use uavlink_edge.Common.{
  Bool, Option, [], false, if◌then◌else◌, length, ltb, none, not, some, true, ℕ, ◌&&◌, ◌*◌, ◌++◌,
  ◌==◌, ◌∷◌,
}
use uavlink_edge.Link.Step.{second}
use uavlink_edge.Metrics.{add_log, set_ip, set_session_info}
use uavlink_edge.Session.Calls.{
  Call, clock, dial, get_client, given, if_connected, ip_text, nothing_of, on_failure, panics,
  parsed, pure, raise, receive_packet, returns, same_bytes, send_packet, time_unix, unix_of, update,
  ◌>>=◌, ◌>>◌,
}
use uavlink_edge.Session.Status.{mark_connected, on_metrics}
use uavlink_edge.Session.World.{
  Client, Outside, World, authentication_successful, local_ip_changed, no_token, rejected,
  secret_missing,
}
use uavlink_edge.Wire.Bytes.{Bytes}
use uavlink_edge.Wire.Codes.{result_success}
use uavlink_edge.Wire.Replies.{AuthAck, parse_auth_ack, parse_auth_challenge, parse_session_ack}
use uavlink_edge.Wire.Requests.{
  serialize_auth_init, serialize_auth_response, serialize_session_request,
}

-- reconnectTCP and authenticate store a connection and its address under the mutex; `changed` is
-- the time at which reconnectTCP notes that the address changed.
unfoldable pub adopt_conn : ℕ → Bytes → World → World
adopt_conn n ip w = record w { client = record w.client { conn = some n; previous_local_ip = ip } }

-- conn.Close(), if there is a connection.
abbrev pub close_on : Option ℕ → World → World
close_on none w = w
close_on (some n) w = record w { closed = n ∷ w.closed }

unfoldable pub close_conn : World → World
close_conn w = close_on w.client.conn w

-- c.conn.Close(); c.conn = nil
unfoldable pub reset_conn : World → World
unfolding close_conn
reset_conn w = let v = close_conn w in record v { client = record v.client { conn = none } }

unfoldable pub set_secret : Bytes → World → World
set_secret key w = record w { client = record w.client { secret = key } }

-- The session of an ack, which the metrics are told too.
unfoldable pub store_session : Bytes → ℕ → ℕ → World → World
store_session token expires_at interval w = record w {
  client = record w.client {
    session_token = token;
    expires_at = expires_at;
    refresh_interval = interval;
  };
  metrics = set_session_info expires_at interval w.metrics;
}

-- The branch of reconnectTCP for another address.
unfoldable pub note_ip_change : ℕ → ℕ → Bytes → World → World
note_ip_change now now' ip w =
    let old = w.client.previous_local_ip in
    if not (nothing_of old) && not (same_bytes old ip)
    then record w {
      client = record w.client { last_ip_change_time = now' };
      metrics = add_log now "WARN" (local_ip_changed old ip) w.metrics;
    }
    else w

-- c.sessionToken[:20]
abbrev pub slice_token : Bool → Call (Unit {0})
slice_token true w = panics w
slice_token false w = returns tt w

unfoldable pub log_token : Call (Unit {0})
log_token w = slice_token (ltb (length w.client.session_token) 20) w

module _ (env : Outside) where
  -- The text "uuid:nonce:timestamp", keyed.
  unfoldable pub compute_hmac : Bytes → Bytes → Bytes → ℕ → Bytes
  compute_hmac key uuid nonce timestamp =
      env.hmac_sha256 key (uuid ++ 58 ∷ (env.encode_hex nonce ++ 58 ∷ env.decimal timestamp))

  unfoldable pub compute_combined_key : Bytes → Bytes → Bytes
  compute_combined_key shared_key private_key =
      env.encode_hex (env.sha256 (shared_key ++ private_key))

  unfoldable pub auth_key : Client → Bytes
  auth_key c =
      if nothing_of c.shared_secret then c.secret else compute_combined_key c.shared_secret c.secret

  -- LoadSecret gives the UUID and the key; a difference of the UUID is only logged.
  unfoldable pub load_secret : Call (Bytes × Bytes)
  load_secret w = given (env.load_secret_at w.tick) secret_missing w

  unfoldable pub ensure_secret : Call (Unit {0})
  ensure_secret = do
    c ← get_client
    if nothing_of c.secret then (load_secret >>= λ x. update (set_secret x.1)) else pure tt

  -- A new connection, stored.
  unfoldable pub connect : Call ℕ
  connect = do n ← dial env; update (adopt_conn n (ip_text env n)); pure n

  -- The connection at hand, or a new one.
  unfoldable pub conn_or_new : Call ℕ
  conn_or_new = do c ← get_client; if_connected c.conn connect pure

  -- Step 2: a connection, and a fresh one if that is forced.
  unfoldable pub auth_connection : Call ℕ
  auth_connection = do if env.auth_force_fresh_conn then update reset_conn else pure tt; conn_or_new

  -- "0.0.0.0" if the connection has no local address.
  abbrev current_ip_of : ℕ → Bytes
  current_ip_of conn = elim (env.local_ip conn) [
    | none ↦ 48 ∷ 46 ∷ 48 ∷ 46 ∷ 48 ∷ 46 ∷ 48 ∷ []
    | some ip ↦ ip
  ]

  -- AUTH_RESPONSE to a challenge.
  unfoldable pub auth_response : Client → ℕ → Bytes → ℕ → Bytes
  auth_response c conn nonce timestamp = serialize_auth_response (record {
    drone_uuid = c.drone_uuid;
    hmac = compute_hmac (auth_key c) c.drone_uuid nonce timestamp;
    timestamp = timestamp;
    ip = current_ip_of conn;
  })

  -- Steps 2 to 6, from AUTH_INIT to a successful AUTH_ACK.
  unfoldable pub auth_exchange : ℕ → Call AuthAck
  auth_exchange conn = do
    c ← get_client
    send_packet env conn (serialize_auth_init (record { drone_uuid = c.drone_uuid }))
    reply ← receive_packet env
    challenge ← parsed (parse_auth_challenge reply)
    now ← clock env
    send_packet env conn (auth_response c conn challenge.nonce (unix_of now))
    reply ← receive_packet env
    ack ← parsed (parse_auth_ack reply)
    if ack.result == result_success then pure ack else raise (rejected ack.error_code)

  -- Storing the session of an AUTH_ACK that has a token.
  unfoldable pub begin_session : AuthAck → Call (Unit {0})
  begin_session ack = do
    c ← get_client
    now ← clock env
    update (on_metrics (add_log now "INFO" (authentication_successful c.drone_uuid)))
    update (store_session ack.session_token (time_unix ack.expires_at) (ack.interval * second))
    mark_connected env
    log_token

  -- Every error of the exchange resets the connection; a missing token does not.
  unfoldable pub authenticate : Call (Unit {0})
  authenticate = do
    ensure_secret
    conn ← auth_connection
    ack ← on_failure (update reset_conn) (auth_exchange conn)
    if nothing_of ack.session_token then raise no_token else begin_session ack

  unfoldable pub request_session : ℕ → Call (Unit {0})
  request_session conn = do
    c ← get_client
    send_packet env conn (
        serialize_session_request
          (record { drone_uuid = c.drone_uuid; old_session_token = c.session_token }))
    reply ← receive_packet env
    ack ← parsed (parse_session_ack reply)
    if not (ack.result == result_success) then raise (rejected ack.error_code) else pure tt
    update (store_session ack.token (time_unix ack.expires_at) (ack.interval * second))
    mark_connected env
    log_token

  unfoldable pub reconnect_tcp : Call (Unit {0})
  reconnect_tcp = do
    update close_conn
    n ← dial env
    now ← clock env
    now' ← clock env
    update (note_ip_change now now' (ip_text env n))
    update (adopt_conn n (ip_text env n))
    update (on_metrics (set_ip (ip_text env n)))
