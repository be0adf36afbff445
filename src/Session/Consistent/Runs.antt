-- ===== src/Session/Consistent/Runs.antt =====
-- The remaining methods of auth/client.go and auth/client_apikey.go keep the invariant, and so does
-- every run of methods.
use uavlink_edge.Common.{Bool, List, Option, [], arith, false, refl, true, ℕ, ◌∷◌, ◌≡◌}
use uavlink_edge.Session.Calls.{end, update}
use uavlink_edge.Session.Calls.Keeps.{Keeps, Keeps-bind, Keeps-update}
use uavlink_edge.Session.Consistent.{IsConsistent, status_of}
use uavlink_edge.Session.Consistent.Interactions.{given-IsConsistent}
use uavlink_edge.Session.Consistent.Methods.{
  authenticate-IsConsistent, log-IsConsistent, request_session-IsConsistent, update_rules,
}
use uavlink_edge.Session.Consistent.Parts.{client-IsConsistent, close_conn-IsConsistent}
use uavlink_edge.Session.Consistent.Recoveries.{
  handle_refresh_failure-IsConsistent, keepalive-IsConsistent, send_refresh-IsConsistent,
}
use uavlink_edge.Session.Handshake.{close_conn}
use uavlink_edge.Session.Keys.{
  close_ready, close_vpn_ready, delete_api_key, get_api_key_status, key_connection, key_exchange,
  load_key_pair, log_key, provision_vpn, request_api_key, request_vpn_provisioning, revoke_api_key,
  save_config, set_vpn_public_key,
}
use uavlink_edge.Session.Recovery.{
  alert_network_error, close_stop, close_stop_channel, close_tcp, force_reconnect,
  request_or_reauth, send, start, stop, trigger_reauth, trigger_session_recovery,
}
use uavlink_edge.Session.Run.{
  Method, asks_status, change_client, deletes, keepalives, method, provisions, reauths, reconnects,
  recovers_session, requests, revokes, run_methods, sends, sets_interval, sets_manager, sets_meta,
  starts, stops,
}
use uavlink_edge.Session.Setup.{new_client, new_metrics, new_world, set_vpn_manager}
use uavlink_edge.Session.Status.{set_reconnect_interval, set_registration_meta}
use uavlink_edge.Session.World.{Client, LogMessage, Outside, World, no_key_pair, save_failed}
use uavlink_edge.Wire.Bytes.{Bytes}

alert-IsConsistent : Keeps IsConsistent (update alert_network_error)
unfolding alert_network_error
alert-IsConsistent =
    Keeps-update _
      λ w h. record { coherent = h.coherent; disposed = h.disposed; few_logs = h.few_logs }

close_tcp-IsConsistent : Keeps IsConsistent close_tcp
unfolding close_tcp
close_tcp-IsConsistent = search update_rules depth 10

vpn_key-IsConsistent : (key : Bytes) → Keeps IsConsistent (update (set_vpn_public_key key))
unfolding set_vpn_public_key
vpn_key-IsConsistent key = Keeps-update _ λ w h. client-IsConsistent w _ refl refl h

close_ready-IsConsistent : (b : Bool) → Keeps IsConsistent (close_ready b)
close_ready-IsConsistent true = record { at = λ w h. h }
close_ready-IsConsistent false = record { at = λ w h. client-IsConsistent w _ refl refl h }

close_vpn_ready-IsConsistent : Keeps IsConsistent close_vpn_ready
unfolding close_vpn_ready
close_vpn_ready-IsConsistent = record {
  at = λ w h. (close_ready-IsConsistent w.client.vpn_ready).at w h;
}

close_stop-IsConsistent : (b : Bool) → Keeps IsConsistent (close_stop b)
close_stop-IsConsistent true = record { at = λ w h. h }
close_stop-IsConsistent false = record { at = λ w h. client-IsConsistent w _ refl refl h }

close_stop_channel-IsConsistent : Keeps IsConsistent close_stop_channel
unfolding close_stop_channel
close_stop_channel-IsConsistent = record {
  at = λ w h. (close_stop-IsConsistent w.client.stopped).at w h;
}

close-IsConsistent : Keeps IsConsistent (update close_conn)
close-IsConsistent = Keeps-update _ close_conn-IsConsistent

stop-IsConsistent : Keeps IsConsistent stop
unfolding stop
stop-IsConsistent =
    search (update_rules, close_stop_channel-IsConsistent, close-IsConsistent) depth 10

settings-IsConsistent :
    (f : Client → Client)
    → ((c : Client) → (f c).conn ≡ c.conn)
    → ((w : World) → status_of (change_client f w) ≡ status_of w)
    → Keeps IsConsistent (update (change_client f))
settings-IsConsistent f conn status =
    Keeps-update _ λ w h. client-IsConsistent w _ (status w) (conn w.client) h

module _ (env : Outside) where
  start-IsConsistent : Keeps IsConsistent (start env)
  unfolding start
  start-IsConsistent = search (update_rules, authenticate-IsConsistent) depth 10

  send-IsConsistent : (bytes : Bytes) → Keeps IsConsistent (send env bytes)
  unfolding send
  send-IsConsistent bytes = search (update_rules, alert-IsConsistent) depth 10

  trigger_reauth-IsConsistent : Keeps IsConsistent (trigger_reauth env)
  unfolding trigger_reauth
  trigger_reauth-IsConsistent =
      search (update_rules, close_tcp-IsConsistent, authenticate-IsConsistent)

  request_or_reauth-IsConsistent : (o : Option ℕ) → Keeps IsConsistent (request_or_reauth env o)
  unfolding request_or_reauth
  request_or_reauth-IsConsistent o =
      search (update_rules, request_session-IsConsistent, trigger_reauth-IsConsistent) depth 10

  recovery-IsConsistent : Keeps IsConsistent (trigger_session_recovery env)
  unfolding trigger_session_recovery
  recovery-IsConsistent =
      search (update_rules, send_refresh-IsConsistent, request_or_reauth-IsConsistent) depth 10

  force_reconnect-IsConsistent : Keeps IsConsistent (force_reconnect env)
  unfolding force_reconnect
  force_reconnect-IsConsistent =
      search
        (
          update_rules, close_tcp-IsConsistent, recovery-IsConsistent,
          handle_refresh_failure-IsConsistent,
        )
        depth 10

  key_connection-IsConsistent : (c : Client) → Keeps IsConsistent (key_connection env c)
  unfolding key_connection
  key_connection-IsConsistent c = search update_rules depth 10

  key_exchange-IsConsistent : (f : Client → Bytes) → Keeps IsConsistent (key_exchange env f)
  unfolding key_exchange
  key_exchange-IsConsistent f = search (update_rules, key_connection-IsConsistent) depth 20

  log_key-IsConsistent : (m : LogMessage) (now : ℕ) → Keeps IsConsistent (update (log_key m now))
  log_key-IsConsistent m now = log-IsConsistent now "INFO" m

  key_methods-IsConsistent :
      Keeps IsConsistent (revoke_api_key env)
      × Keeps IsConsistent (delete_api_key env)
      × Keeps IsConsistent (get_api_key_status env)
      × ((hours : ℕ) → Keeps IsConsistent (request_api_key env hours))
  unfolding revoke_api_key delete_api_key get_api_key_status request_api_key
  key_methods-IsConsistent = (
    search (update_rules, key_exchange-IsConsistent, log_key-IsConsistent) depth 15,
    search (update_rules, key_exchange-IsConsistent, log_key-IsConsistent) depth 15,
    search (update_rules, key_exchange-IsConsistent) depth 15,
    λ hours. search (update_rules, key_exchange-IsConsistent, log_key-IsConsistent) depth 15,
  )

  load_key_pair-IsConsistent : Keeps IsConsistent (load_key_pair env)
  unfolding load_key_pair
  load_key_pair-IsConsistent = record {
    at = λ w h. (given-IsConsistent (env.key_pair_at w.tick) no_key_pair).at w h;
  }

  save_config-IsConsistent : Keeps IsConsistent (save_config env)
  unfolding save_config
  save_config-IsConsistent = record { at = λ w h. (given-IsConsistent _ save_failed).at w h }

  provision-IsConsistent : (c : Client) (n : ℕ) → Keeps IsConsistent (provision_vpn env c n)
  unfolding provision_vpn
  provision-IsConsistent c n =
      search
        (
          update_rules, load_key_pair-IsConsistent, save_config-IsConsistent, vpn_key-IsConsistent,
          close_vpn_ready-IsConsistent,
        )
        depth 20

  vpn-IsConsistent : Keeps IsConsistent (request_vpn_provisioning env)
  unfolding request_vpn_provisioning
  vpn-IsConsistent = search (update_rules, provision-IsConsistent) depth 15

  method-IsConsistent : (m : Method) → Keeps IsConsistent (method env m)
  unfolding set_reconnect_interval set_registration_meta set_vpn_manager
  method-IsConsistent starts = search (update_rules, start-IsConsistent)
  method-IsConsistent stops = search (update_rules, stop-IsConsistent)
  method-IsConsistent keepalives = search (update_rules, keepalive-IsConsistent)
  method-IsConsistent reauths = search (update_rules, trigger_reauth-IsConsistent)
  method-IsConsistent recovers_session = search (update_rules, recovery-IsConsistent)
  method-IsConsistent reconnects = search (update_rules, force_reconnect-IsConsistent)
  method-IsConsistent revokes = search (update_rules, key_methods-IsConsistent.0)
  method-IsConsistent deletes = search (update_rules, key_methods-IsConsistent.1)
  method-IsConsistent asks_status = search (update_rules, key_methods-IsConsistent.2)
  method-IsConsistent provisions = search (update_rules, vpn-IsConsistent)
  method-IsConsistent (sends bytes) = search (update_rules, send-IsConsistent)
  method-IsConsistent (requests hours) = search (update_rules, key_methods-IsConsistent.3 hours)
  method-IsConsistent (sets_interval seconds) =
      settings-IsConsistent (set_reconnect_interval seconds) (λ c. refl) λ w. refl
  method-IsConsistent (sets_meta vehicle_type model) =
      settings-IsConsistent (set_registration_meta vehicle_type model) (λ c. refl) λ w. refl
  method-IsConsistent (sets_manager present) =
      settings-IsConsistent (set_vpn_manager present) (λ c. refl) λ w. refl

  run-IsConsistent : (ms : List Method) → Keeps IsConsistent (run_methods env ms)
  unfolding run_methods
  run-IsConsistent [] = search update_rules
  run-IsConsistent (m ∷ ms) =
      Keeps-bind (method env m) (λ _. run_methods env ms) (method-IsConsistent m)
        λ _. run-IsConsistent ms

-- Whatever the network, the clock and the server do, and whatever methods run in whatever order,
-- also where one panics: if the metrics show the status of the client and every connection is closed
-- or the client's, at most 100 logs are kept, and a reachable server means no cause of disconnection
-- and the status "Authenticated", then all of this holds at the end.
pub run_methods-IsConsistent :
    (env : Outside) (ms : List Method) (w : World)
    → IsConsistent w
    → IsConsistent (end (run_methods env ms w))
run_methods-IsConsistent env ms w h = (run-IsConsistent env ms).at w h

-- A new client and new metrics agree.
pub new_world-IsConsistent :
    (drone_uuid shared_secret : Bytes)
    → IsConsistent (new_world (new_client drone_uuid shared_secret))
unfolding new_client new_metrics
new_world-IsConsistent drone_uuid shared_secret = record {
  coherent = record { shown = refl; reason = refl; live = λ p. cc };
  disposed = tt;
  few_logs = omega arith;
}
