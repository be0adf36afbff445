-- ===== src/Session/Reaches/Settled.antt =====
-- What handleRefreshFailure of auth/client.go leaves: a live session or a backoff, and nothing sent
-- while it waits.
use uavlink_edge.Common.{Bool, false, if◌then◌else◌, length, not, refl, true, ℕ, ◌+◌, ◌<◌, ◌≡◌}
use uavlink_edge.Session.Calls.{
  Exit, and_then, clock, fails, get_client, panics, passed, pure, returns, update, ◌>>=◌,
}
use uavlink_edge.Session.Consistent.Parts.{close_conn-same}
use uavlink_edge.Session.Handshake.{reset_conn}
use uavlink_edge.Session.Panics.{OnPanic}
use uavlink_edge.Session.Panics.Sessions.{HasShortToken, recover-Panics}
use uavlink_edge.Session.Reaches.{OnEnd}
use uavlink_edge.Session.Reaches.Recovery.{recover-Reaches}
use uavlink_edge.Session.Refresh.{
  FailureKind, cause_of, handle_failure_kind, handle_refresh_failure, kind_of, needs_reauth,
  network, recover, recover_now, recover_or_schedule, recover_unless_waiting, transient_server,
}
use uavlink_edge.Session.Status.{
  backoff_active, disconnected_at, mark_disconnected, reconnect_after, reconnect_backoff_active,
  schedule_reconnect_backoff, status_reconnecting,
}
use uavlink_edge.Session.World.{DisconnectCause, Failure, Outside, World, refresh_skipped}

-- The failures that the client returns without asking the server, and those that the server
-- calls transient.
abbrev pub is_skipped : Failure → Bool
is_skipped refresh_skipped = true
is_skipped _ = false

abbrev pub is_transient_kind : FailureKind → Bool
is_transient_kind transient_server = true
is_transient_kind _ = false

-- The session is live, or another attempt is due one interval after some time that the client read,
-- or there has never been a session.
pub data HasFuture (env : Outside) (w : World) : Type 0 where
  is_live : w.client.server_reachable ≡ true → HasFuture env w
  is_due :
      (n : ℕ)
      → w.client.next_reconnect_at ≡ env.now_at n + w.client.reconnect_interval
      → HasFuture env w
  is_unconnected : w.client.ever_connected ≡ false → HasFuture env w

-- A call that has a future and no error, and panics only on a short token.
abbrev pub IsSettled : Outside → Exit (Unit {0}) → Type 0
IsSettled env (returns u w) = HasFuture env w
IsSettled env (fails e w) = ⊥
IsSettled env (panics w) = length w.client.session_token < 20

-- The call returns and leaves the connections and the packets as they were in `w`, and the client too
-- but for the mark of a disconnection.
abbrev pub IsQuiet : Bool → DisconnectCause → World → Exit (Unit {0}) → Type 0
IsQuiet skipped cause w (returns u v) =
    (v.client ≡ (
      if skipped
      then w.client
      else record w.client { server_reachable = false; disconnect_cause = cause }))
    × (v.opened ≡ w.opened)
    × (v.closed ≡ w.closed)
    × (v.written ≡ w.written)
IsQuiet skipped cause w (fails e v) = ⊥
IsQuiet skipped cause w (panics v) = ⊥

module _ (env : Outside) where
  schedule-HasFuture : (w : World) → IsSettled env (schedule_reconnect_backoff env w)
  unfolding schedule_reconnect_backoff get_client clock update reconnect_after pure ◌>>=◌
  schedule-HasFuture w = go w.client.ever_connected refl
    where
      go :
          (b : Bool)
          → w.client.ever_connected ≡ b
          → IsSettled env
              ((if not b then pure tt else (clock env >>= λ now. update (reconnect_after now))) w)
      go false e = is_unconnected e
      go true e = is_due w.tick refl

  after_recovery :
      (x : Exit Bool)
      → OnEnd false (λ ok. ok) x
      → OnPanic HasShortToken x
      → IsSettled env (and_then (λ ok. if ok then pure tt else schedule_reconnect_backoff env) x)
  unfolding pure
  after_recovery (returns true w) h p = is_live h
  after_recovery (returns false w) h p = schedule-HasFuture w
  after_recovery (fails e w) h p = cc
  after_recovery (panics w) h p = p

  recover-IsSettled :
      (kind : FailureKind) (w : World)
      → w.client.server_reachable ≡ false
      → IsSettled env
          ((recover env kind >>= λ ok. if ok then pure tt else schedule_reconnect_backoff env) w)
  unfolding ◌>>=◌
  recover-IsSettled kind w offline =
      after_recovery (recover env kind w) ((recover-Reaches env kind).at w offline)
        ((recover-Panics env kind).at w)

  no_wait :
      (kind : FailureKind) (w : World)
      → w.client.server_reachable ≡ false
      → backoff_active w.client (env.now_at w.tick) ≡ false
      → IsSettled env (recover_unless_waiting env kind w)
  unfolding recover_unless_waiting reconnect_backoff_active recover_now recover_or_schedule
      status_reconnecting get_client clock update pure ◌>>=◌ reset_conn
  no_wait needs_reauth w offline idle = rw idle (recover-IsSettled needs_reauth _ offline)
  no_wait transient_server w offline idle = rw idle (recover-IsSettled transient_server _ offline)
  no_wait network w offline idle = rw idle (
      recover-IsSettled network (reset_conn (status_reconnecting (passed w)))
        (rw (close_conn-same (status_reconnecting (passed w))) offline))

  handled :
      (e : Failure) (w : World)
      → is_skipped e ≡ false
      → handle_refresh_failure env e w ≡ handle_failure_kind env (kind_of e) w
  unfolding handle_refresh_failure
  handled refresh_skipped w h = cc
  handled _ w h = refl

  kind-IsSettled :
      (kind : FailureKind) (w : World)
      → is_transient_kind kind ≡ false
      → backoff_active w.client (env.now_at (w.tick + 1)) ≡ false
      → IsSettled env (handle_failure_kind env kind w)
  unfolding handle_failure_kind mark_disconnected clock update ◌>>=◌ disconnected_at backoff_active
  kind-IsSettled needs_reauth w lasting idle = no_wait needs_reauth _ refl idle
  kind-IsSettled transient_server w lasting idle = cc
  kind-IsSettled network w lasting idle = no_wait network _ refl idle

  -- After a failed refresh that the server did not call transient, and outside of a backoff,
  -- handleRefreshFailure ends without an error, whatever the network and the server do: with a live
  -- session, or with the next attempt due one reconnect interval after a time that the client read,
  -- or with a client that never had a session. It panics only if the session has a token of fewer
  -- than 20 bytes.
  pub handle_refresh_failure-IsSettled :
      (e : Failure) (w : World)
      → is_skipped e ≡ false
      → is_transient_kind (kind_of e) ≡ false
      → backoff_active w.client (env.now_at (w.tick + 1)) ≡ false
      → IsSettled env (handle_refresh_failure env e w)
  handle_refresh_failure-IsSettled e w skips lasting idle =
      rw (handled e w skips) (kind-IsSettled (kind_of e) w lasting idle)

  skipped :
      (e : Failure) (w : World)
      → is_skipped e ≡ true
      → handle_refresh_failure env e w ≡ returns tt w
  unfolding handle_refresh_failure pure
  skipped refresh_skipped w h = refl
  skipped _ w h = cc

  abbrev marked : FailureKind → World → World
  marked kind w = disconnected_at (cause_of kind) (env.now_at w.tick) (passed w)
