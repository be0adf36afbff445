-- ===== src/Session/Consistent/Methods.antt =====
-- Every method of auth/client.go keeps the invariant.
use uavlink_edge.Common.{Bool, Option, false, length, ltb, none, refl, some, true, ℕ, ◌≡◌}
use Prim.Native.String.{String}
use uavlink_edge.Metrics.{add_log, set_session_info}
use uavlink_edge.Session.Calls.{end, get_client, if_connected, pure, update, ◌>>=◌}
use uavlink_edge.Session.Calls.Keeps.{Keeps, Keeps-update, keeps_rules}
use uavlink_edge.Session.Consistent.{IsConsistent}
use uavlink_edge.Session.Consistent.Interactions.{
  clock-IsConsistent, connect-at, load_secret-IsConsistent, receive_packet-IsConsistent,
  reconnect_tcp-IsConsistent, send_packet-IsConsistent,
}
use uavlink_edge.Session.Consistent.Parts.{
  client-IsConsistent, connected_at-IsConsistent, disconnected_at-IsConsistent, push_log-few,
  reset_conn-IsConsistent,
}
use uavlink_edge.Session.Handshake.{
  auth_connection, auth_exchange, authenticate, begin_session, conn_or_new, connect, ensure_secret,
  log_token, request_session, reset_conn, set_secret, slice_token, store_session,
}
use uavlink_edge.Session.Recovery.{set_running}
use uavlink_edge.Session.Refresh.{extend_session}
use uavlink_edge.Session.Status.{
  connected_at, disconnected_at, mark_connected, mark_disconnected, on_metrics, reconnect_after,
  schedule_reconnect_backoff,
}
use uavlink_edge.Session.World.{DisconnectCause, LogMessage, Outside, World}
use uavlink_edge.Wire.Bytes.{Bytes}
use uavlink_edge.Wire.Replies.{AuthAck}

pub connected-IsConsistent : (now now' : ℕ) → Keeps IsConsistent (update (connected_at now now'))
connected-IsConsistent now now' = Keeps-update _ (connected_at-IsConsistent now now')

pub disconnected-IsConsistent :
    (cause : DisconnectCause) (now : ℕ) → Keeps IsConsistent (update (disconnected_at cause now))
disconnected-IsConsistent cause now = Keeps-update _ (disconnected_at-IsConsistent cause now)

pub back_off-IsConsistent : (now : ℕ) → Keeps IsConsistent (update (reconnect_after now))
unfolding reconnect_after
back_off-IsConsistent now = Keeps-update _ λ w h. client-IsConsistent w _ refl refl h

pub reset-IsConsistent : Keeps IsConsistent (update reset_conn)
reset-IsConsistent = Keeps-update _ reset_conn-IsConsistent

pub secret-IsConsistent : (key : Bytes) → Keeps IsConsistent (update (set_secret key))
unfolding set_secret
secret-IsConsistent key = Keeps-update _ λ w h. client-IsConsistent w _ refl refl h

pub log-IsConsistent :
    (now : ℕ) (level : String) (m : LogMessage)
    → Keeps IsConsistent (update (on_metrics (add_log now level m)))
unfolding add_log
log-IsConsistent now level m = Keeps-update _ λ w h. record {
  coherent = h.coherent;
  disposed = h.disposed;
  few_logs = push_log-few _ w.metrics.recent_logs h.few_logs;
}

pub store-IsConsistent :
    (token : Bytes) (expires interval : ℕ)
    → Keeps IsConsistent (update (store_session token expires interval))
unfolding store_session set_session_info
store-IsConsistent token expires interval =
    Keeps-update _
      λ w h. record { coherent = h.coherent; disposed = h.disposed; few_logs = h.few_logs }

pub extend-IsConsistent : (expires : ℕ) → Keeps IsConsistent (update (extend_session expires))
unfolding extend_session set_session_info
extend-IsConsistent expires =
    Keeps-update _
      λ w h. record { coherent = h.coherent; disposed = h.disposed; few_logs = h.few_logs }

pub running-IsConsistent : (running : Bool) → Keeps IsConsistent (update (set_running running))
unfolding set_running
running-IsConsistent running = Keeps-update _ λ w h. client-IsConsistent w _ refl refl h

pub log_token-IsConsistent : Keeps IsConsistent log_token
unfolding log_token
log_token-IsConsistent = record { at = λ w h. go (ltb (length w.client.session_token) 20) w h }
  where
    go : (b : Bool) (w : World) → IsConsistent w → IsConsistent (end (slice_token b w))
    go true w h = h
    go false w h = h

pub ruleset update_rules = (
  keeps_rules, connected-IsConsistent, disconnected-IsConsistent, back_off-IsConsistent,
  reset-IsConsistent, secret-IsConsistent, log-IsConsistent, store-IsConsistent,
  extend-IsConsistent, running-IsConsistent, log_token-IsConsistent, clock-IsConsistent,
  send_packet-IsConsistent, receive_packet-IsConsistent, load_secret-IsConsistent,
  reconnect_tcp-IsConsistent,
)

module _ (env : Outside) where
  pub mark_connected-IsConsistent : Keeps IsConsistent (mark_connected env)
  unfolding mark_connected
  mark_connected-IsConsistent = search update_rules

  pub mark_disconnected-IsConsistent :
      (cause : DisconnectCause) → Keeps IsConsistent (mark_disconnected env cause)
  unfolding mark_disconnected
  mark_disconnected-IsConsistent cause = search update_rules

  pub schedule-IsConsistent : Keeps IsConsistent (schedule_reconnect_backoff env)
  unfolding schedule_reconnect_backoff
  schedule-IsConsistent = search update_rules

  ensure_secret-IsConsistent : Keeps IsConsistent (ensure_secret env)
  unfolding ensure_secret
  ensure_secret-IsConsistent = search update_rules

  auth_exchange-IsConsistent : (n : ℕ) → Keeps IsConsistent (auth_exchange env n)
  unfolding auth_exchange
  auth_exchange-IsConsistent n = search update_rules depth 40

  begin_session-IsConsistent : (ack : AuthAck) → Keeps IsConsistent (begin_session env ack)
  unfolding begin_session
  begin_session-IsConsistent ack = search (update_rules, mark_connected-IsConsistent) depth 20

  pub request_session-IsConsistent : (n : ℕ) → Keeps IsConsistent (request_session env n)
  unfolding request_session
  request_session-IsConsistent n = search (update_rules, mark_connected-IsConsistent) depth 30

  conn_or_new-IsConsistent : Keeps IsConsistent (conn_or_new env)
  unfolding conn_or_new get_client ◌>>=◌ pure
  conn_or_new-IsConsistent = record { at = λ w h. go w.client.conn w h refl }
    where
      go :
          (o : Option ℕ) (w : World)
          → IsConsistent w
          → w.client.conn ≡ o
          → IsConsistent (end (if_connected o (connect env) pure w))
      go none w h e = connect-at env w h e
      go (some n) w h e = h

  auth_connection-IsConsistent : Keeps IsConsistent (auth_connection env)
  unfolding auth_connection
  auth_connection-IsConsistent = search (update_rules, conn_or_new-IsConsistent) depth 10

  pub authenticate-IsConsistent : Keeps IsConsistent (authenticate env)
  unfolding authenticate
  authenticate-IsConsistent =
      search
        (
          update_rules, ensure_secret-IsConsistent, auth_connection-IsConsistent,
          auth_exchange-IsConsistent, begin_session-IsConsistent,
        )
        depth 20
