-- ===== src/Session/Run.antt =====
-- The methods of auth/client.go in any order, one at a time. The goroutines of the source hold
-- mutexes around their steps, not around whole methods, so a run is one of the orders that the
-- source allows and not every interleaving.
use uavlink_edge.Common.{Bool, List, [], ℕ, ◌∷◌}
use uavlink_edge.Session.Calls.{Call, attempt, pure, update, ◌>>◌}
use uavlink_edge.Session.Keys.{
  delete_api_key, get_api_key_status, request_api_key, request_vpn_provisioning, revoke_api_key,
}
use uavlink_edge.Session.Recovery.{
  force_reconnect, send, start, stop, trigger_reauth, trigger_session_recovery,
}
use uavlink_edge.Session.Refresh.{keepalive}
use uavlink_edge.Session.Setup.{set_vpn_manager}
use uavlink_edge.Session.Status.{set_reconnect_interval, set_registration_meta}
use uavlink_edge.Session.World.{Client, Outside, World}
use uavlink_edge.Wire.Bytes.{Bytes}

pub data Method : Type 0 where
  starts stops keepalives reauths recovers_session reconnects revokes deletes asks_status
        provisions :
      Method
  sends : Bytes → Method
  requests sets_interval : ℕ → Method
  sets_meta : ℕ → Bytes → Method
  sets_manager : Bool → Method

-- What a method returns is dropped.
abbrev pub ignored : {A : Type 0} → Call A → Call (Unit {0})
ignored m = attempt m (λ e. pure tt) λ a. pure tt

abbrev pub change_client : (Client → Client) → World → World
change_client f w = record w { client = f w.client }

module _ (env : Outside) where
  abbrev pub method : Method → Call (Unit {0})
  method starts = ignored (start env)
  method stops = ignored stop
  method keepalives = ignored (keepalive env)
  method reauths = ignored (trigger_reauth env)
  method recovers_session = ignored (trigger_session_recovery env)
  method reconnects = ignored (force_reconnect env)
  method revokes = ignored (revoke_api_key env)
  method deletes = ignored (delete_api_key env)
  method asks_status = ignored (get_api_key_status env)
  method provisions = ignored (request_vpn_provisioning env)
  method (sends bytes) = ignored (send env bytes)
  method (requests hours) = ignored (request_api_key env hours)
  method (sets_interval seconds) = update (change_client (set_reconnect_interval seconds))
  method (sets_meta vehicle_type model) =
      update (change_client (set_registration_meta vehicle_type model))
  method (sets_manager present) = update (change_client (set_vpn_manager present))

  -- A panic ends the program.
  unfoldable pub run_methods : List Method → Call (Unit {0})
  run_methods [] = pure tt
  run_methods (m ∷ ms) = method m >> run_methods ms
