-- ===== src/Session/Panics/Methods.antt =====
-- Which methods of auth/client.go can panic: those that log a new session with a short token.
use uavlink_edge.Common.{All, Bool, List, [], false, length, true, ◌<◌, ◌∷◌, ◌≡◌}
use mathlib.Core.Path.{subst}
use uavlink_edge.Session.Calls.{panics}
use uavlink_edge.Session.Keys.{
  delete_api_key, get_api_key_status, key_connection, key_exchange, request_api_key, revoke_api_key,
}
use uavlink_edge.Session.Panics.{OnPanic, Panics, Panics-bind}
use uavlink_edge.Session.Panics.Sessions.{
  HasShortToken, authenticate-Panics, force_reconnect-Panics, keepalive-Panics, reconnected-Panics,
  recovery-Panics, session_rules, trigger_reauth-Panics,
}
use uavlink_edge.Session.Recovery.{send, start}
use uavlink_edge.Session.Run.{
  Method, asks_status, deletes, keepalives, method, provisions, reauths, reconnects,
  recovers_session, requests, revokes, run_methods, sends, sets_interval, sets_manager, sets_meta,
  starts, stops,
}
use uavlink_edge.Session.World.{Client, Outside, World}
use uavlink_edge.Wire.Bytes.{Bytes}

module _ (env : Outside) where
  key_connection-Panics : (c : Client) → Panics HasShortToken (key_connection env c)
  unfolding key_connection
  key_connection-Panics c = search (session_rules, reconnected-Panics) depth 12

  key_exchange-Panics : (f : Client → Bytes) → Panics HasShortToken (key_exchange env f)
  unfolding key_exchange
  key_exchange-Panics f = search (session_rules, key_connection-Panics) depth 20

  -- Closing a channel twice is the other way to panic.
  abbrev pub closes_channel : Method → Bool
  closes_channel stops = true
  closes_channel provisions = true
  closes_channel _ = false

  method-Panics : (m : Method) → closes_channel m ≡ false → Panics HasShortToken (method env m)
  unfolding start send revoke_api_key delete_api_key get_api_key_status request_api_key
  method-Panics starts h = search (session_rules, authenticate-Panics) depth 12
  method-Panics stops h = cc
  method-Panics keepalives h = search (session_rules, keepalive-Panics)
  method-Panics reauths h = search (session_rules, trigger_reauth-Panics)
  method-Panics recovers_session h = search (session_rules, recovery-Panics)
  method-Panics reconnects h = search (session_rules, force_reconnect-Panics)
  method-Panics revokes h = search (session_rules, key_exchange-Panics) depth 15
  method-Panics deletes h = search (session_rules, key_exchange-Panics) depth 15
  method-Panics asks_status h = search (session_rules, key_exchange-Panics) depth 15
  method-Panics provisions h = cc
  method-Panics (sends bytes) h = search session_rules depth 12
  method-Panics (requests hours) h = search (session_rules, key_exchange-Panics) depth 15
  method-Panics (sets_interval seconds) h = search session_rules
  method-Panics (sets_meta vehicle_type model) h = search session_rules
  method-Panics (sets_manager present) h = search session_rules

  run-Panics :
      (ms : List Method)
      → All (λ m. closes_channel m ≡ false) ms
      → Panics HasShortToken (run_methods env ms)
  unfolding run_methods
  run-Panics [] h = search session_rules
  run-Panics (m ∷ ms) h =
      Panics-bind (method env m) (λ _. run_methods env ms) (method-Panics m h.0)
        λ _. run-Panics ms h.1

  -- Whatever the network, the clock and the server do, and whatever methods run in whatever order
  -- but Stop and RequestVPNProvisioning: the program panics only where the session has a token of
  -- fewer than 20 bytes. No reply of the server and no missing connection makes it panic otherwise.
  pub run_methods_panics :
      (ms : List Method) (w v : World)
      → All (λ m. closes_channel m ≡ false) ms
      → run_methods env ms w ≡ panics v
      → length v.client.session_token < 20
  run_methods_panics ms w v h e = subst (OnPanic HasShortToken) e ((run-Panics ms h).at w)
