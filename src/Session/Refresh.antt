-- ===== src/Session/Refresh.antt =====
-- sendRefresh, handleRefreshFailure and the body of keepaliveLoop of auth/client.go.
use uavlink_edge.Common.{Bool, false, if◌then◌else◌, ltb, not, true, ℕ, ◌&&◌, ◌-◌, ◌==◌, ◌||◌}
use uavlink_edge.Metrics.{set_session_info}
use uavlink_edge.Session.Calls.{
  Call, attempt, clock, crash, get_client, if_connected, nothing_of, parsed, pure, raise,
  receive_packet, relabel, send_packet, time_unix, update, ◌>>=◌, ◌>>◌,
}
use uavlink_edge.Session.Handshake.{authenticate, reconnect_tcp, reset_conn}
use uavlink_edge.Session.Status.{
  mark_connected, mark_disconnected, reconnect_backoff_active, schedule_reconnect_backoff,
  status_reconnecting,
}
use uavlink_edge.Session.World.{
  Client, DisconnectCause, Failure, Outside, RefreshMessage, World, disconnect_auth_failed,
  disconnect_network, disconnect_server_transient, disconnect_session_invalid, no_session_token,
  parse_failed, receive_failed, reconnect_failed, refresh_error, refresh_rejected, refresh_skipped,
  send_failed,
}
use uavlink_edge.Wire.Codes.{
  err_internal_error, err_invalid_token, err_rate_limited, err_session_expired, result_success,
}
use uavlink_edge.Wire.Replies.{parse_session_refresh_ack}
use uavlink_edge.Wire.Requests.{serialize_session_refresh}

-- needReauth, isTransientServerError and isNetworkError, one of which is set.
pub data FailureKind : Type 0 where
  needs_reauth transient_server network : FailureKind

abbrev kind_of_code : ℕ → FailureKind
kind_of_code code =
    if code == err_invalid_token || code == err_session_expired
    then needs_reauth
    else if code == err_internal_error || code == err_rate_limited
    then transient_server
    else network

unfoldable pub kind_of : Failure → FailureKind
kind_of (refresh_error message code) = kind_of_code code
kind_of _ = network

abbrev pub cause_of : FailureKind → DisconnectCause
cause_of needs_reauth = disconnect_session_invalid
cause_of transient_server = disconnect_server_transient
cause_of network = disconnect_network

-- tokenValid of handleRefreshFailure, the test of TriggerSessionRecovery and hasValidSession of Start.
abbrev pub has_valid_session : Client → ℕ → Bool
has_valid_session c now = not (nothing_of c.session_token) && ltb now c.expires_at

unfoldable pub extend_session : ℕ → World → World
extend_session expires_at w = record w {
  client = record w.client { expires_at = expires_at };
  metrics = set_session_info expires_at w.client.refresh_interval w.metrics;
}

abbrev pub is_network_kind : FailureKind → Bool
is_network_kind network = true
is_network_kind _ = false

abbrev is_reauth_kind : FailureKind → Bool
is_reauth_kind needs_reauth = true
is_reauth_kind _ = false

-- The errors of the steps of sendRefresh, which carry no code of the server.
abbrev as_refresh_error : RefreshMessage → Failure → Failure
as_refresh_error message e = refresh_error message 0

module _ (env : Outside) where
  -- The connection, or a new one; `connection()` of a client without one would be nil.
  unfoldable pub refresh_connection : Client → Call ℕ
  refresh_connection c =
      if_connected c.conn
        (do
          relabel (as_refresh_error reconnect_failed) (reconnect_tcp env)
          c' ← get_client
          if_connected c'.conn crash pure)
        pure

  -- SESSION_REFRESH and its ack on a connection.
  unfoldable pub refresh_exchange : Client → ℕ → Call (Unit {0})
  refresh_exchange c conn = do
    relabel (as_refresh_error send_failed) (
        send_packet env conn (
          serialize_session_refresh
            (record { session_token = c.session_token; drone_uuid = c.drone_uuid })))
    reply ← relabel (as_refresh_error receive_failed) (receive_packet env)
    ack ← relabel (as_refresh_error parse_failed) (parsed (parse_session_refresh_ack reply))
    if ack.result == result_success
        then update (extend_session (time_unix ack.expires_at))
        else raise (refresh_error refresh_rejected ack.error_code)
    mark_connected env

  unfoldable pub send_refresh : Call (Unit {0})
  send_refresh = do
    c ← get_client
    now ← clock env
    if ltb (now - c.last_ip_change_time) c.ip_change_threshold
        then raise refresh_skipped
        else pure tt
    if nothing_of c.session_token
        then raise (refresh_error no_session_token err_invalid_token)
        else pure tt
    conn ← refresh_connection c
    refresh_exchange c conn

  -- authenticate, and whether it recovered the session.
  unfoldable pub reauthenticate : Call Bool
  reauthenticate =
      attempt (authenticate env)
        (λ e. mark_disconnected env disconnect_auth_failed >>= λ _. pure false) λ _. pure true

  -- After reconnectTCP: the session is verified with the server.
  unfoldable pub verify_session : Call Bool
  verify_session =
      attempt send_refresh (λ e. if is_reauth_kind (kind_of e) then reauthenticate else pure false)
        λ _. pure true

  -- The branch of a network error.
  unfoldable pub recover_network : Call Bool
  recover_network = do
    c ← get_client
    now ← clock env
    if has_valid_session c now
        then attempt (reconnect_tcp env) (λ e. reauthenticate) (λ _. verify_session)
        else reauthenticate

  unfoldable pub recover : FailureKind → Call Bool
  recover needs_reauth = reauthenticate
  recover transient_server = pure false
  recover network = recover_network

  -- The recovery, and the backoff if it fails.
  unfoldable pub recover_or_schedule : FailureKind → Call (Unit {0})
  recover_or_schedule kind = do
    if is_network_kind kind then update reset_conn else pure tt
    recovered ← recover kind
    if recovered then pure tt else schedule_reconnect_backoff env

  unfoldable pub recover_now : FailureKind → Call (Unit {0})
  recover_now kind = do update status_reconnecting; recover_or_schedule kind

  -- From the test of the backoff on, for a failure that is not transient.
  unfoldable pub recover_unless_waiting : FailureKind → Call (Unit {0})
  recover_unless_waiting kind = do
    waiting ← reconnect_backoff_active env
    if waiting then pure tt else recover_now kind

  unfoldable pub handle_failure_kind : FailureKind → Call (Unit {0})
  handle_failure_kind transient_server = mark_disconnected env (cause_of transient_server)
  handle_failure_kind needs_reauth = do
    mark_disconnected env (cause_of needs_reauth)
    recover_unless_waiting needs_reauth
  handle_failure_kind network = do
    mark_disconnected env (cause_of network)
    recover_unless_waiting network

  unfoldable pub handle_refresh_failure : Failure → Call (Unit {0})
  handle_refresh_failure refresh_skipped = pure tt
  handle_refresh_failure e = handle_failure_kind (kind_of e)

  -- What keepaliveLoop does at its start and at every tick.
  unfoldable pub keepalive : Call (Unit {0})
  keepalive = do
    c ← get_client
    if c.running then attempt send_refresh handle_refresh_failure pure else pure tt
