-- ===== src/Session/Panics/Sessions.antt =====
-- The calls of auth/client.go that panic only on a short token, where they log it.
use uavlink_edge.Common.{Bool, false, length, ltb, ltb→lt, refl, true, ℕ, ◌+◌, ◌<◌, ◌≡◌}
use uavlink_edge.Metrics.{set_ip}
use uavlink_edge.Session.Calls.{
  Exit, and_then, clock, crash, dial, dialled, get_client, if_connected, ip_text, passed, pure,
  relabel, returns, update, with_failure, ◌>>=◌, ◌>>◌,
}
use uavlink_edge.Session.Handshake.{
  adopt_conn, auth_connection, auth_exchange, authenticate, begin_session, close_conn, conn_or_new,
  connect, ensure_secret, load_secret, log_token, note_ip_change, reconnect_tcp, request_session,
  slice_token,
}
use uavlink_edge.Session.Panics.{OnPanic, Panics, Panics-given, panics_rules}
use uavlink_edge.Session.Recovery.{
  close_tcp, force_reconnect, request_or_reauth, trigger_reauth, trigger_session_recovery,
}
use uavlink_edge.Session.Refresh.{
  FailureKind, handle_failure_kind, handle_refresh_failure, keepalive, needs_reauth, network,
  reauthenticate, recover, recover_network, recover_now, recover_or_schedule,
  recover_unless_waiting, refresh_connection, refresh_exchange, send_refresh, transient_server,
  verify_session,
}
use uavlink_edge.Session.Status.{
  mark_connected, mark_disconnected, on_metrics, reconnect_backoff_active,
  schedule_reconnect_backoff,
}
use uavlink_edge.Session.World.{
  Client, DisconnectCause, Failure, Outside, World, refresh_skipped, secret_missing,
}
use uavlink_edge.Wire.Replies.{AuthAck}
use uavlink_edge.Wire.Safety.{
  parse_api_key_delete_ack-NoPanic, parse_api_key_response-NoPanic,
  parse_api_key_revoke_ack-NoPanic, parse_api_key_status_response-NoPanic, parse_auth_ack-NoPanic,
  parse_auth_challenge-NoPanic, parse_session_ack-NoPanic, parse_session_refresh_ack-NoPanic,
}

abbrev pub HasShortToken : World → Type 0
HasShortToken w = length w.client.session_token < 20

pub log_token-Panics : Panics HasShortToken log_token
unfolding log_token
log_token-Panics = record { at = λ w. go (ltb (length w.client.session_token) 20) w refl }
  where
    go :
        (b : Bool) (w : World)
        → ltb (length w.client.session_token) 20 ≡ b
        → OnPanic HasShortToken (slice_token b w)
    go true w e = ltb→lt _ _ e
    go false w e = tt

-- After reconnectTCP the client has a connection, so no nil is used.
pub reconnected-Panics :
    {Q : World → Type 0} (env : Outside) (f : Failure → Failure)
    → Panics Q
        (relabel f (reconnect_tcp env) >> (get_client >>= λ c. if_connected c.conn crash pure))
unfolding reconnect_tcp adopt_conn dial clock update get_client relabel pure ◌>>=◌
reconnected-Panics {Q} env f = record {
  at = λ w. go (close_conn w) (env.dial_at (close_conn w).tick);
}
  where
    after : ℕ → World → Exit (Unit {0})
    after n u =
        let ip = ip_text env n in
        returns tt (
          on_metrics (set_ip ip) (
            adopt_conn n ip (
              note_ip_change (env.now_at u.tick) (env.now_at (u.tick + 1)) ip (passed (passed u)))))

    go :
        (v : World) (b : Bool)
        → OnPanic Q (
            and_then
              (λ _ u. if_connected u.client.conn crash pure u)
              (with_failure f (and_then after (dialled b v))))
    go v true = tt
    go v false = tt

pub ruleset session_rules = (
  panics_rules, log_token-Panics, parse_auth_challenge-NoPanic, parse_auth_ack-NoPanic,
  parse_session_ack-NoPanic, parse_session_refresh_ack-NoPanic, parse_api_key_response-NoPanic,
  parse_api_key_revoke_ack-NoPanic, parse_api_key_status_response-NoPanic,
  parse_api_key_delete_ack-NoPanic,
)

module _ (env : Outside) where
  mark_connected-Panics : Panics HasShortToken (mark_connected env)
  unfolding mark_connected
  mark_connected-Panics = search session_rules

  mark_disconnected-Panics :
      (cause : DisconnectCause) → Panics HasShortToken (mark_disconnected env cause)
  unfolding mark_disconnected
  mark_disconnected-Panics cause = search session_rules

  reconnect_tcp-Panics : Panics HasShortToken (reconnect_tcp env)
  unfolding reconnect_tcp
  reconnect_tcp-Panics = search session_rules depth 12

  load_secret-Panics : Panics HasShortToken (load_secret env)
  unfolding load_secret
  load_secret-Panics = record {
    at = λ w. (Panics-given (env.load_secret_at w.tick) secret_missing).at w;
  }

  auth_connection-Panics : Panics HasShortToken (auth_connection env)
  unfolding auth_connection conn_or_new connect
  auth_connection-Panics = search session_rules depth 12

  auth_exchange-Panics : (n : ℕ) → Panics HasShortToken (auth_exchange env n)
  unfolding auth_exchange
  auth_exchange-Panics n = search session_rules depth 20

  begin_session-Panics : (ack : AuthAck) → Panics HasShortToken (begin_session env ack)
  unfolding begin_session
  begin_session-Panics ack = search (session_rules, mark_connected-Panics) depth 20

  pub authenticate-Panics : Panics HasShortToken (authenticate env)
  unfolding authenticate ensure_secret
  authenticate-Panics =
      search
        (
          session_rules, load_secret-Panics, auth_connection-Panics, auth_exchange-Panics,
          begin_session-Panics,
        )
        depth 20

  request_session-Panics : (n : ℕ) → Panics HasShortToken (request_session env n)
  unfolding request_session
  request_session-Panics n = search (session_rules, mark_connected-Panics) depth 20

  refresh_connection-Panics : (c : Client) → Panics HasShortToken (refresh_connection env c)
  unfolding refresh_connection
  refresh_connection-Panics c = search (session_rules, reconnected-Panics) depth 12

  send_refresh-Panics : Panics HasShortToken (send_refresh env)
  unfolding send_refresh refresh_exchange
  send_refresh-Panics =
      search (session_rules, refresh_connection-Panics, mark_connected-Panics) depth 20

  reauthenticate-Panics : Panics HasShortToken (reauthenticate env)
  unfolding reauthenticate
  reauthenticate-Panics =
      search (session_rules, authenticate-Panics, mark_disconnected-Panics) depth 10

  pub recover-Panics : (kind : FailureKind) → Panics HasShortToken (recover env kind)
  unfolding recover recover_network verify_session
  recover-Panics needs_reauth = reauthenticate-Panics
  recover-Panics transient_server = search session_rules
  recover-Panics network =
      search (session_rules, reauthenticate-Panics, send_refresh-Panics, reconnect_tcp-Panics) depth
        12

  unless_waiting-Panics :
      (kind : FailureKind) → Panics HasShortToken (recover_unless_waiting env kind)
  unfolding recover_unless_waiting recover_now recover_or_schedule reconnect_backoff_active
      schedule_reconnect_backoff
  unless_waiting-Panics kind = search (session_rules, recover-Panics) depth 15

  handle_failure_kind-Panics :
      (kind : FailureKind) → Panics HasShortToken (handle_failure_kind env kind)
  unfolding handle_failure_kind
  handle_failure_kind-Panics needs_reauth =
      search (session_rules, mark_disconnected-Panics, unless_waiting-Panics)
  handle_failure_kind-Panics transient_server = mark_disconnected-Panics _
  handle_failure_kind-Panics network =
      search (session_rules, mark_disconnected-Panics, unless_waiting-Panics)

  handle_refresh_failure-Panics :
      (e : Failure) → Panics HasShortToken (handle_refresh_failure env e)
  unfolding handle_refresh_failure
  handle_refresh_failure-Panics refresh_skipped = search session_rules
  handle_refresh_failure-Panics _ = handle_failure_kind-Panics _

  pub keepalive-Panics : Panics HasShortToken (keepalive env)
  unfolding keepalive
  keepalive-Panics =
      search (session_rules, send_refresh-Panics, handle_refresh_failure-Panics) depth 10

  close_tcp-Panics : Panics HasShortToken close_tcp
  unfolding close_tcp
  close_tcp-Panics = search session_rules depth 10

  pub trigger_reauth-Panics : Panics HasShortToken (trigger_reauth env)
  unfolding trigger_reauth
  trigger_reauth-Panics = search (session_rules, close_tcp-Panics, authenticate-Panics)

  pub recovery-Panics : Panics HasShortToken (trigger_session_recovery env)
  unfolding trigger_session_recovery request_or_reauth
  recovery-Panics =
      search (session_rules, send_refresh-Panics, request_session-Panics, trigger_reauth-Panics)
        depth 15

  pub force_reconnect-Panics : Panics HasShortToken (force_reconnect env)
  unfolding force_reconnect
  force_reconnect-Panics =
      search (session_rules, close_tcp-Panics, recovery-Panics, handle_refresh_failure-Panics) depth
        10
