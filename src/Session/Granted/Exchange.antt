-- ===== src/Session/Granted/Exchange.antt =====
-- The handshake of authenticate in auth/client.go, when it succeeds.
use uavlink_edge.Common.{
  Bool, List, [], ap, arith, false, length, ltb, some, sym, true, ℕ, ◌*◌, ◌++◌, ◌+◌, ◌<◌, ◌∷◌, ◌≡◌,
}
use uavlink_edge.Link.Step.{second}
use uavlink_edge.Session.Calls.{clock, end, get_client, returns, time_unix, unix_of, update, ◌>>=◌}
use uavlink_edge.Session.Granted.{
  check-inversion, parsed-inversion, receive-inversion, send-inversion,
}
use uavlink_edge.Session.Handshake.{
  auth_exchange, auth_response, begin_session, log_token, slice_token, store_session,
}
use uavlink_edge.Session.Status.{connected_at, mark_connected}
use uavlink_edge.Session.World.{Client, Outside, World, disconnect_none}
use uavlink_edge.Wire.Bytes.{Bytes}
use uavlink_edge.Wire.Codes.{result_success}
use uavlink_edge.Wire.Cursor.{ok}
use uavlink_edge.Wire.Replies.{AuthAck, AuthChallenge, parse_auth_ack, parse_auth_challenge}
use uavlink_edge.Wire.Requests.{serialize_auth_init}

-- The packets of a handshake: the challenge and the ack that the server sent, when they were read,
-- and the time in the response.
pub record Handshake : Type 0 where
  pub challenge_packet : Bytes
  pub ack_packet : Bytes
  pub challenge : AuthChallenge
  pub ack : AuthAck
  pub challenge_read : ℕ
  pub ack_read : ℕ
  pub response_time : ℕ

-- The server has challenged the client and has granted a session.
pub record IsAnswered (env : Outside) (h : Handshake) : Type 0 where
  pub reads_challenge : env.read_at h.challenge_read ≡ some h.challenge_packet
  pub is_challenge : parse_auth_challenge h.challenge_packet ≡ ok h.challenge
  pub in_order : h.challenge_read < h.ack_read
  pub reads_ack : env.read_at h.ack_read ≡ some h.ack_packet
  pub is_ack : parse_auth_ack h.ack_packet ≡ ok h.ack
  pub is_success : h.ack.result ≡ result_success

-- The packets that the client writes to a connection, the latest first.
abbrev pub handshake_packets : (env : Outside) → Handshake → Client → ℕ → List (ℕ × Bytes)
handshake_packets env h c conn =
    (conn, auth_response env c conn h.challenge.nonce (unix_of (env.now_at h.response_time)))
    ∷ (conn, serialize_auth_init (record { drone_uuid = c.drone_uuid }))
    ∷ []

pub record Exchanged (env : Outside) (conn : ℕ) (w v : World) (ack : AuthAck) : Type 0 where
  pub handshake : Handshake
  pub answered : IsAnswered env handshake
  pub has_ack : handshake.ack ≡ ack
  pub same_client : v.client ≡ w.client
  pub writes : v.written ≡ handshake_packets env handshake w.client conn ++ w.written

-- The session of an ack, stored by the client.
abbrev pub stored : AuthAck → ℕ → Client → Client
stored ack now c = record c {
  session_token = ack.session_token;
  expires_at = time_unix ack.expires_at;
  refresh_interval = ack.interval * second;
  server_reachable = true;
  ever_connected = true;
  disconnect_cause = disconnect_none;
  next_reconnect_at = 0;
  last_refresh_ok = now;
}

module _ (env : Outside) where
  pub exchange-Exchanged :
      (conn : ℕ) (w v : World) (ack : AuthAck)
      → auth_exchange env conn w ≡ returns ack v
      → Exchanged env conn w v ack
  unfolding auth_exchange get_client clock ◌>>=◌
  exchange-Exchanged conn w v ack h =
      let s1 = send-inversion ack v env conn _ _ w h in
      let (r1, read1, s2) = receive-inversion ack v env _ _ s1 in
      let (challenge, parsed1, s3) = parsed-inversion ack v _ _ _ s2 in
      let s4 = send-inversion ack v env conn _ _ _ s3 in
      let (r2, read2, s5) = receive-inversion ack v env _ _ s4 in
      let (ack', parsed2, s6) = parsed-inversion ack v _ _ _ s5 in
      let (success, same, world) = check-inversion ack v _ _ _ _ s6 in
      record {
        handshake = record {
          challenge_packet = r1;
          ack_packet = r2;
          challenge = challenge;
          ack = ack';
          challenge_read = w.tick + 1;
          ack_read = w.tick + 1 + 1 + 1 + 1;
          response_time = w.tick + 1 + 1;
        };
        answered = record {
          reads_challenge = read1;
          is_challenge = parsed1;
          in_order = omega arith;
          reads_ack = read2;
          is_ack = parsed2;
          is_success = ground arith;
        };
        has_ack = same;
        same_client = sym (ap (λ u. u.client) world);
        writes = sym (ap (λ u. u.written) world);
      }

  log-returns : (w v : World) → log_token w ≡ returns tt v → w ≡ v
  unfolding log_token
  log-returns w v = go (ltb (length w.client.session_token) 20)
    where
      go : (t : Bool) → slice_token t w ≡ returns tt v → w ≡ v
      go true h = cc
      go false h = ap end h

  pub begin-stored :
      (ack : AuthAck) (w v : World)
      → begin_session env ack w ≡ returns tt v
      → (v.client ≡ stored ack (env.now_at (w.tick + 1)) w.client) × (v.written ≡ w.written)
  unfolding begin_session mark_connected get_client clock update ◌>>=◌ connected_at store_session
  begin-stored ack w v h =
      let world = log-returns _ v h in
      (sym (ap (λ u. u.client) world), sym (ap (λ u. u.written) world))
