-- ===== src/Session/Reaches/Recovery.antt =====
-- What handleRefreshFailure of auth/client.go has at its end: a live session, or a backoff.
use uavlink_edge.Common.{
  Bool, Bool-cases, false, inl, inr, length, ltb, not, refl, true, ℕ, ◌&&◌, ◌≡◌,
}
use uavlink_edge.Metrics.{Metrics}
use uavlink_edge.Session.Calls.{
  clock, nothing_of, on_failure, pure, same_bytes, update, ◌>>=◌, ◌>>◌,
}
use uavlink_edge.Session.Consistent.Parts.{close_conn-same}
use uavlink_edge.Session.Handshake.{
  adopt_conn, auth_connection, auth_exchange, authenticate, begin_session, close_conn, conn_or_new,
  connect, ensure_secret, load_secret, log_token, note_ip_change, reconnect_tcp, reset_conn,
  set_secret, slice_token, store_session,
}
use uavlink_edge.Session.Reaches.{
  OnEnd, Reaches, Reaches-given, Reaches-on_failure, Reaches-update, Step, reaches_rules,
}
use uavlink_edge.Session.Refresh.{
  FailureKind, extend_session, needs_reauth, network, reauthenticate, recover, recover_network,
  refresh_connection, refresh_exchange, send_refresh, transient_server, verify_session,
}
use uavlink_edge.Session.Status.{
  connected_at, disconnected_at, mark_connected, mark_disconnected, on_metrics,
}
use uavlink_edge.Session.World.{Client, DisconnectCause, LogMessage, Outside, World, secret_missing}
use uavlink_edge.Wire.Bytes.{Bytes}
use uavlink_edge.Wire.Replies.{AuthAck}

module _ {b : Bool} where
  Reaches-reset_conn : Step b (update reset_conn)
  unfolding reset_conn
  Reaches-reset_conn = Reaches-update _ λ w. rw (close_conn-same w) refl

  Reaches-close_conn : Step b (update close_conn)
  Reaches-close_conn = Reaches-update _ λ w. rw (close_conn-same w) refl

  Reaches-set_secret : (key : Bytes) → Step b (update (set_secret key))
  unfolding set_secret
  Reaches-set_secret key = Reaches-update _ λ w. refl

  Reaches-adopt_conn : (n : ℕ) (ip : Bytes) → Step b (update (adopt_conn n ip))
  unfolding adopt_conn
  Reaches-adopt_conn n ip = Reaches-update _ λ w. refl

  Reaches-on_metrics :
      (f : Metrics LogMessage → Metrics LogMessage) → Step b (update (on_metrics f))
  Reaches-on_metrics f = Reaches-update _ λ w. refl

  Reaches-store_session :
      (token : Bytes) (expires interval : ℕ)
      → Step b (update (store_session token expires interval))
  unfolding store_session
  Reaches-store_session token expires interval = Reaches-update _ λ w. refl

  Reaches-extend_session : (expires : ℕ) → Step b (update (extend_session expires))
  unfolding extend_session
  Reaches-extend_session expires = Reaches-update _ λ w. refl

  Reaches-note_ip_change :
      (now now' : ℕ) (ip : Bytes) → Step b (update (note_ip_change now now' ip))
  unfolding note_ip_change
  Reaches-note_ip_change now now' ip = Reaches-update _ λ w.
      let changed =
        not (nothing_of w.client.previous_local_ip)
        && not (same_bytes w.client.previous_local_ip ip) in
      elim (Bool-cases changed) [ inl new ↦ rw new refl | inr old ↦ rw old refl ]

ruleset step_rules = (
  reaches_rules, Reaches-reset_conn, Reaches-close_conn, Reaches-set_secret, Reaches-adopt_conn,
  Reaches-on_metrics, Reaches-store_session, Reaches-extend_session, Reaches-note_ip_change,
)

module _ (env : Outside) where
  mark_connected-Reaches : Reaches true (λ u. true) (mark_connected env)
  unfolding mark_connected clock update ◌>>=◌ connected_at
  mark_connected-Reaches = record { at = λ w offline. refl }

  -- The last two steps of a handshake.
  marked-Reaches : Reaches true (λ u. true) (mark_connected env >> log_token)
  unfolding mark_connected clock update ◌>>=◌ connected_at log_token
  marked-Reaches = record { at = λ w offline. go (ltb (length w.client.session_token) 20) _ refl }
    where
      go :
          (t : Bool) (w : World)
          → w.client.server_reachable ≡ true
          → OnEnd true (λ u. true) (slice_token t w)
      go true w online = tt
      go false w online = online

  down-Reaches :
      (cause : DisconnectCause)
      → Reaches false (λ ok. ok) (mark_disconnected env cause >>= λ _. pure false)
  unfolding mark_disconnected clock update pure ◌>>=◌ disconnected_at
  down-Reaches cause = record { at = λ w offline. refl }

  reconnect_tcp-Reaches : Step true (reconnect_tcp env)
  unfolding reconnect_tcp
  reconnect_tcp-Reaches = search step_rules depth 15

  load_secret-Reaches : Step true (load_secret env)
  unfolding load_secret
  load_secret-Reaches = record {
    at = λ w offline. (Reaches-given (env.load_secret_at w.tick) secret_missing).at w offline;
  }

  auth_connection-Reaches : Step true (auth_connection env)
  unfolding auth_connection conn_or_new connect
  auth_connection-Reaches = search step_rules depth 12

  ensure_secret-Reaches : Step true (ensure_secret env)
  unfolding ensure_secret
  ensure_secret-Reaches = search (step_rules, load_secret-Reaches) depth 12

  auth_exchange-Reaches : (n : ℕ) → Step true (auth_exchange env n)
  unfolding auth_exchange
  auth_exchange-Reaches n = search step_rules depth 20

  failed_exchange-Reaches :
      (n : ℕ) → Step true (on_failure (update reset_conn) (auth_exchange env n))
  unfolding reset_conn
  failed_exchange-Reaches n =
      Reaches-on_failure _ _ (λ w. rw (close_conn-same w) refl) (auth_exchange-Reaches n)

  begin_session-Reaches : (ack : AuthAck) → Reaches true (λ u. true) (begin_session env ack)
  unfolding begin_session
  begin_session-Reaches ack = search (step_rules, marked-Reaches) depth 20

  authenticate-Reaches : Reaches true (λ u. true) (authenticate env)
  unfolding authenticate
  authenticate-Reaches =
      search
        (
          step_rules, ensure_secret-Reaches, auth_connection-Reaches, failed_exchange-Reaches,
          begin_session-Reaches,
        )
        depth 15

  reauthenticate-Reaches : Reaches false (λ ok. ok) (reauthenticate env)
  unfolding reauthenticate
  reauthenticate-Reaches = search (reaches_rules, authenticate-Reaches, down-Reaches)

  refresh_connection-Reaches : (c : Client) → Step true (refresh_connection env c)
  unfolding refresh_connection
  refresh_connection-Reaches c = search (step_rules, reconnect_tcp-Reaches) depth 12

  send_refresh-Reaches : Reaches true (λ u. true) (send_refresh env)
  unfolding send_refresh refresh_exchange
  send_refresh-Reaches =
      search (step_rules, refresh_connection-Reaches, mark_connected-Reaches) depth 20

  pub recover-Reaches : (kind : FailureKind) → Reaches false (λ ok. ok) (recover env kind)
  unfolding recover recover_network verify_session
  recover-Reaches needs_reauth = reauthenticate-Reaches
  recover-Reaches transient_server = search reaches_rules
  recover-Reaches network =
      search (reaches_rules, reauthenticate-Reaches, send_refresh-Reaches, reconnect_tcp-Reaches)
        depth 12
