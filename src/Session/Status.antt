-- ===== src/Session/Status.antt =====
-- What auth/client.go keeps of its connection to the server: markConnected, markDisconnected, the
-- reconnect backoff, IsAuthenticated and the setters.
use uavlink_edge.Common.{
  Bool, List, false, if◌then◌else◌, ltb, not, true, ℕ, ◌&&◌, ◌*◌, ◌+◌, ◌-◌, ◌==◌, ◌||◌, ◌∷◌,
}
use uavlink_edge.Link.Step.{second}
use uavlink_edge.Metrics.{
  Metrics, add_log, set_auth_status, set_disconnect_reason, set_last_refresh_ok,
}
use uavlink_edge.Session.Calls.{Call, clock, get_client, nothing_of, pure, update, ◌>>=◌}
use uavlink_edge.Session.World.{
  Callback, Client, DisconnectCause, LogMessage, Outside, World, cause_text, disconnect_caused,
  disconnect_none, is_network, network_error, server_disconnected, session_restored,
}
use uavlink_edge.Wire.Bytes.{Bytes}
use uavlink_edge.Wire.Requests.{clip_model}

-- The values of the callbacks that `go c.On…()` starts.
abbrev callback_if : Bool → Callback → List Callback → List Callback
callback_if has_handler call calls = if has_handler then call ∷ calls else calls

-- markConnected, with the times that its call and SetAuthStatus read.
unfoldable pub connected_at : ℕ → ℕ → World → World
connected_at now now' w = record w {
  client = record w.client {
    server_reachable = true;
    ever_connected = true;
    disconnect_cause = disconnect_none;
    next_reconnect_at = 0;
    last_refresh_ok = now;
  };
  metrics =
      set_last_refresh_ok now
        (set_disconnect_reason "" (set_auth_status now' "Authenticated" w.metrics));
  callbacks = callback_if w.client.on_session_restored session_restored w.callbacks;
}

-- markDisconnected, with the time that AddLog reads.
unfoldable pub disconnected_at : DisconnectCause → ℕ → World → World
disconnected_at cause now w = record w {
  client = record w.client { server_reachable = false; disconnect_cause = cause };
  metrics =
      add_log now "WARN" (server_disconnected cause)
        (set_disconnect_reason (cause_text cause) (set_auth_status now "Disconnected" w.metrics));
  callbacks =
      callback_if (is_network cause && w.client.on_network_error) network_error
        (callback_if w.client.on_disconnect_cause (disconnect_caused cause) w.callbacks);
}

unfoldable pub status_reconnecting : World → World
status_reconnecting w = record w { metrics = set_auth_status 0 "Reconnecting" w.metrics }

unfoldable pub reconnect_after : ℕ → World → World
reconnect_after now w = record w {
  client = record w.client { next_reconnect_at = now + w.client.reconnect_interval };
}

-- A method of Metrics.
abbrev pub on_metrics : (Metrics LogMessage → Metrics LogMessage) → World → World
on_metrics f w = record w { metrics = f w.metrics }

-- SetReconnectInterval, for seconds below 0 as for 0.
unfoldable pub set_reconnect_interval : ℕ → Client → Client
set_reconnect_interval seconds c = record c {
  reconnect_interval = (if seconds == 0 then 300 else seconds) * second;
}

-- The length test and the slice of SetRegistrationMeta.
unfoldable pub set_registration_meta : ℕ → Bytes → Client → Client
unfolding clip_model
set_registration_meta vehicle_type model c = record c {
  vehicle_type = vehicle_type;
  model = clip_model model;
}

unfoldable pub is_authenticated : Client → ℕ → Bool
is_authenticated c now =
    let stale_after = if c.refresh_interval * 2 == 0 then 60 * second else c.refresh_interval * 2 in
    if not c.server_reachable
    then false
    else if nothing_of c.session_token || not (ltb now c.expires_at)
    then false
    else if not (c.last_refresh_ok == 0) && ltb stale_after (now - c.last_refresh_ok)
    then false
    else true

unfoldable pub backoff_active : Client → ℕ → Bool
backoff_active c now =
    if not c.ever_connected
    then false
    else not (c.next_reconnect_at == 0) && ltb now c.next_reconnect_at

module _ (env : Outside) where
  unfoldable pub mark_connected : Call (Unit {0})
  mark_connected = do now ← clock env; now' ← clock env; update (connected_at now now')

  unfoldable pub mark_disconnected : DisconnectCause → Call (Unit {0})
  mark_disconnected cause = do now ← clock env; update (disconnected_at cause now)

  unfoldable pub schedule_reconnect_backoff : Call (Unit {0})
  schedule_reconnect_backoff = do
    c ← get_client
    if not c.ever_connected then pure tt else (clock env >>= λ now. update (reconnect_after now))

  unfoldable pub reconnect_backoff_active : Call Bool
  reconnect_backoff_active = do c ← get_client; now ← clock env; pure (backoff_active c now)
