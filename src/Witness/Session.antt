-- ===== src/Witness/Session.antt =====
-- auth/client.go and metrics/metrics.go in concrete runs, against a server that answers with fixed
-- packets.
use uavlink_edge.Common.{
  List, [], false, if◌then◌else◌, leb, leb→le, length, ltb, none, refl, some, suc, true, zero, ℕ,
  ◌*◌, ◌++◌, ◌+◌, ◌-◌, ◌<◌, ◌∷◌, ◌≡◌, ◌≤◌,
}
use uavlink_edge.Link.Step.{second}
use uavlink_edge.Metrics.{LogEntry}
use uavlink_edge.Metrics.Logs.{last_of, push_logs, push_logs-last_of}
use uavlink_edge.Session.Calls.{
  attempt, clock, dial, end, get_client, on_failure, panics, parsed, pure, raise, receive_packet,
  returns, send_packet, unix_to_internal, update, ◌>>=◌,
}
use uavlink_edge.Session.Consistent.{IsConsistent}
use uavlink_edge.Session.Consistent.Runs.{new_world-IsConsistent, run_methods-IsConsistent}
use uavlink_edge.Session.Granted.Authenticated.{authenticate-is_authenticated, stale_after}
use uavlink_edge.Session.Handshake.{
  adopt_conn, auth_connection, auth_exchange, authenticate, begin_session, conn_or_new, connect,
  ensure_secret, log_token, store_session,
}
use uavlink_edge.Session.Panics.Methods.{run_methods_panics}
use uavlink_edge.Session.Reaches.Settled.{IsSettled, handle_refresh_failure-IsSettled}
use uavlink_edge.Session.Recovery.{close_tcp, trigger_reauth}
use uavlink_edge.Session.Refresh.{handle_refresh_failure, kind_of}
use uavlink_edge.Session.Run.{keepalives, reauths, reconnects, run_methods, sends, starts, stops}
use uavlink_edge.Session.Setup.{new_client, new_world}
use uavlink_edge.Session.Status.{backoff_active, connected_at, is_authenticated, mark_connected}
use uavlink_edge.Session.World.{Outside, World, receive_failed, refresh_error}
use uavlink_edge.Wire.Bytes.{Bytes}
use uavlink_edge.Wire.Cursor.{get_bytes, get_string, get_u16, get_u64, get_u8, header}
use uavlink_edge.Wire.Replies.{auth_ack_accepted, parse_auth_ack, parse_auth_challenge}

abbrev filled : ℕ → ℕ → List ℕ → List ℕ
filled zero b rest = rest
filled (suc n) b rest = b ∷ filled n b rest

-- The packets of a server: a challenge, and a session with a token of `n` bytes.
abbrev nonce : Bytes
nonce = 0x02 ∷ 2 ∷ 0 ∷ 8 ∷ 9 ∷ 60 ∷ 0 ∷ []

abbrev session : ℕ → Bytes
session n = 0x04 ∷ 0x00 ∷ n ∷ 0 ∷ filled n 97 (0xE8 ∷ 0x03 ∷ 0 ∷ 0 ∷ 0 ∷ 0 ∷ 0 ∷ 0 ∷ 30 ∷ 0 ∷ [])

-- A network that works, and a clock that stands at 1 second after 1970.
abbrev network_of : ℕ → Outside
network_of n = record {
  now_at = λ t. (unix_to_internal + 1) * second;
  dial_at = λ t. true;
  local_ip = λ conn. some (49 ∷ []);
  write_at = λ t. true;
  read_at = λ t. some (if leb t 3 then nonce else session n);
  load_secret_at = λ t. some (117 ∷ [], 7 ∷ []);
  save_secret_at = λ t. true;
  key_pair_at = λ t. none;
  save_config_at = λ t. true;
  auth_force_fresh_conn = false;
  sha256 = λ bytes. bytes;
  hmac_sha256 = λ key bytes. key;
  encode_hex = λ bytes. bytes;
  decimal = λ k. [];
}

-- A new client with the private key 7 already in memory.
abbrev beginning : World
unfolding new_client
beginning = new_world (record (new_client (117 ∷ []) []) { secret = 7 ∷ [] })

abbrev after_handshake : ℕ → World
after_handshake n = end (authenticate (network_of n) beginning)

handshake_runs : authenticate (network_of 20) beginning ≡ returns tt (after_handshake 20)
unfolding new_client authenticate ensure_secret auth_connection conn_or_new connect dial
    auth_exchange send_packet receive_packet parsed clock begin_session mark_connected connected_at
    update get_client pure raise on_failure ◌>>=◌ log_token adopt_conn store_session
    parse_auth_challenge parse_auth_ack auth_ack_accepted header get_u8 get_u16 get_u64 get_bytes
    get_string
handshake_runs = refl

-- A minute after the session was granted.
abbrev later : ℕ
later = (unix_to_internal + 61) * second

in_time :
    (ltb later (after_handshake 20).client.expires_at ≡ true)
    × (leb (later - (after_handshake 20).client.last_refresh_ok) (60 * second) ≡ true)
    × ((after_handshake 20).client.refresh_interval ≡ 30 * second)
    × (backoff_active
          (after_handshake 20).client
          ((network_of 20).now_at ((after_handshake 20).tick + 1))
        ≡ false)
unfolding backoff_active new_client authenticate ensure_secret auth_connection conn_or_new connect
    dial auth_exchange send_packet receive_packet parsed clock begin_session mark_connected
    connected_at update get_client pure raise on_failure ◌>>=◌ log_token adopt_conn store_session
    parse_auth_challenge parse_auth_ack auth_ack_accepted header get_u8 get_u16 get_u64 get_bytes
    get_string
in_time = (refl, refl, refl, refl)

fresh_enough :
    later - (after_handshake 20).client.last_refresh_ok
    ≤ stale_after (after_handshake 20).client.refresh_interval
fresh_enough = rw in_time.2 (leb→le _ _ in_time.1)

authenticate-is_authenticated_example : is_authenticated (after_handshake 20).client later ≡ true
authenticate-is_authenticated_example =
    authenticate-is_authenticated (network_of 20) beginning (after_handshake 20) later
      handshake_runs in_time.0 fresh_enough

abbrev new_start : World
new_start = new_world (new_client (117 ∷ []) [])

run_methods-IsConsistent_example : IsConsistent (
    end (
      run_methods
        (network_of 20)
        (starts ∷ keepalives ∷ sends (1 ∷ []) ∷ reconnects ∷ stops ∷ [])
        new_start))
run_methods-IsConsistent_example =
    run_methods-IsConsistent (network_of 20)
      (starts ∷ keepalives ∷ sends (1 ∷ []) ∷ reconnects ∷ stops ∷ []) new_start
      (new_world-IsConsistent (117 ∷ []) [])

short_token_panics :
    run_methods (network_of 2) (reauths ∷ []) beginning ≡ panics (after_handshake 2)
unfolding new_client run_methods trigger_reauth close_tcp attempt authenticate ensure_secret
    auth_connection conn_or_new connect dial auth_exchange send_packet receive_packet parsed clock
    begin_session mark_connected connected_at update get_client pure raise on_failure ◌>>=◌
    log_token adopt_conn store_session parse_auth_challenge parse_auth_ack auth_ack_accepted header
    get_u8 get_u16 get_u64 get_bytes get_string
short_token_panics = refl

run_methods_panics_example : length (after_handshake 2).client.session_token < 20
run_methods_panics_example =
    run_methods_panics (network_of 2) (reauths ∷ []) beginning (after_handshake 2) (refl, tt)
      short_token_panics

handle_refresh_failure-IsSettled_example :
    IsSettled
      (network_of 20)
      (handle_refresh_failure (network_of 20) (refresh_error receive_failed 0) (after_handshake 20))
unfolding kind_of
handle_refresh_failure-IsSettled_example =
    handle_refresh_failure-IsSettled (network_of 20) (refresh_error receive_failed 0)
      (after_handshake 20) refl refl in_time.3

abbrev entry : ℕ → LogEntry ℕ
entry n = record { time = n; level = "INFO"; message = n }

abbrev entries : ℕ → List (LogEntry ℕ)
entries zero = []
entries (suc n) = entry n ∷ entries n

push_logs-last_of_example :
    push_logs (entries 99) (entries 3) ≡ last_of 100 (entries 99 ++ entries 3)
push_logs-last_of_example = push_logs-last_of (entries 99) (entries 3) (leb→le _ _ refl)
