-- ===== src/Session/Consistent/Recoveries.antt =====
-- The refresh and the recoveries of auth/client.go keep the invariant.
use uavlink_edge.Common.{Bool, false, if◌then◌else◌, refl, true, ℕ, ◌≡◌}
use uavlink_edge.Session.Calls.{clock, end, get_client, passed, pure, update, ◌>>=◌, ◌>>◌}
use uavlink_edge.Session.Calls.Keeps.{Keeps}
use uavlink_edge.Session.Consistent.{IsConsistent}
use uavlink_edge.Session.Consistent.Interactions.{passed-IsConsistent}
use uavlink_edge.Session.Consistent.Methods.{
  authenticate-IsConsistent, mark_connected-IsConsistent, mark_disconnected-IsConsistent,
  schedule-IsConsistent, update_rules,
}
use uavlink_edge.Session.Consistent.Parts.{disconnected_at-IsConsistent, reconnecting-IsConsistent}
use uavlink_edge.Session.Refresh.{
  FailureKind, cause_of, handle_failure_kind, handle_refresh_failure, keepalive, needs_reauth,
  network, reauthenticate, recover, recover_network, recover_now, recover_or_schedule,
  recover_unless_waiting, refresh_connection, refresh_exchange, send_refresh, transient_server,
  verify_session,
}
use uavlink_edge.Session.Status.{
  backoff_active, disconnected_at, mark_disconnected, reconnect_backoff_active, status_reconnecting,
}
use uavlink_edge.Session.World.{Client, Failure, Outside, World, refresh_skipped}

module _ (env : Outside) where
  refresh_connection-IsConsistent : (c : Client) → Keeps IsConsistent (refresh_connection env c)
  unfolding refresh_connection
  refresh_connection-IsConsistent c = search update_rules depth 10

  refresh_exchange-IsConsistent :
      (c : Client) (n : ℕ) → Keeps IsConsistent (refresh_exchange env c n)
  unfolding refresh_exchange
  refresh_exchange-IsConsistent c n = search (update_rules, mark_connected-IsConsistent) depth 20

  pub send_refresh-IsConsistent : Keeps IsConsistent (send_refresh env)
  unfolding send_refresh
  send_refresh-IsConsistent =
      search (update_rules, refresh_connection-IsConsistent, refresh_exchange-IsConsistent) depth 20

  reauthenticate-IsConsistent : Keeps IsConsistent (reauthenticate env)
  unfolding reauthenticate
  reauthenticate-IsConsistent =
      search (update_rules, mark_disconnected-IsConsistent, authenticate-IsConsistent) depth 10

  verify_session-IsConsistent : Keeps IsConsistent (verify_session env)
  unfolding verify_session
  verify_session-IsConsistent =
      search (update_rules, send_refresh-IsConsistent, reauthenticate-IsConsistent) depth 10

  recover-IsConsistent : (kind : FailureKind) → Keeps IsConsistent (recover env kind)
  unfolding recover recover_network
  recover-IsConsistent needs_reauth = reauthenticate-IsConsistent
  recover-IsConsistent transient_server = search update_rules
  recover-IsConsistent network =
      search (update_rules, verify_session-IsConsistent, reauthenticate-IsConsistent) depth 10

  recover_or_schedule-IsConsistent :
      (kind : FailureKind) → Keeps IsConsistent (recover_or_schedule env kind)
  unfolding recover_or_schedule
  recover_or_schedule-IsConsistent kind =
      search (update_rules, recover-IsConsistent, schedule-IsConsistent) depth 10

  -- On a client that is marked as disconnected.
  recover_unless_waiting-at :
      (kind : FailureKind) (w : World)
      → w.client.server_reachable ≡ false
      → IsConsistent w
      → IsConsistent (end (recover_unless_waiting env kind w))
  unfolding recover_unless_waiting reconnect_backoff_active recover_now get_client clock pure update
      ◌>>=◌
  recover_unless_waiting-at kind w offline h = go (backoff_active w.client (env.now_at w.tick))
    where
      go :
          (waiting : Bool)
          → IsConsistent (end ((if waiting then pure tt else recover_now env kind) (passed w)))
      go true = passed-IsConsistent w h
      go false =
          (recover_or_schedule-IsConsistent kind).at (status_reconnecting (passed w))
            (reconnecting-IsConsistent (passed w) offline (passed-IsConsistent w h))

  marked-IsConsistent :
      (kind : FailureKind)
      → Keeps IsConsistent
          (mark_disconnected env (cause_of kind) >> recover_unless_waiting env kind)
  unfolding mark_disconnected disconnected_at clock update ◌>>=◌
  marked-IsConsistent kind = record {
    at = λ w h. recover_unless_waiting-at kind _ refl (
        disconnected_at-IsConsistent (cause_of kind) (env.now_at w.tick) (passed w)
          (passed-IsConsistent w h));
  }

  handle_failure_kind-IsConsistent :
      (kind : FailureKind) → Keeps IsConsistent (handle_failure_kind env kind)
  unfolding handle_failure_kind
  handle_failure_kind-IsConsistent needs_reauth = marked-IsConsistent needs_reauth
  handle_failure_kind-IsConsistent transient_server = mark_disconnected-IsConsistent env _
  handle_failure_kind-IsConsistent network = marked-IsConsistent network

  pub handle_refresh_failure-IsConsistent :
      (e : Failure) → Keeps IsConsistent (handle_refresh_failure env e)
  unfolding handle_refresh_failure
  handle_refresh_failure-IsConsistent refresh_skipped = search update_rules
  handle_refresh_failure-IsConsistent _ = handle_failure_kind-IsConsistent _

  pub keepalive-IsConsistent : Keeps IsConsistent (keepalive env)
  unfolding keepalive
  keepalive-IsConsistent =
      search (update_rules, send_refresh-IsConsistent, handle_refresh_failure-IsConsistent) depth 10
