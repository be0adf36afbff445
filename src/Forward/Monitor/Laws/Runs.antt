-- ===== src/Forward/Monitor/Laws/Runs.antt =====
-- The outgoing nodes over any events of the monitor, the startup and the session in
-- forwarder/forwarder.go.
use uavlink_edge.Common.{Bool, List, [], false, if◌then◌else◌, true, ℕ, ◌∙◌, ◌∷◌, ◌≡◌}
use Prim.Native.String.{String}
use uavlink_edge.Forward.Monitor.{
  Monitor, Reading, RebuildReason, UplinkEvent, apply_uplink_event, check_current, check_ip,
  check_physical_egress_change, disconnect_cause_callback, disconnects, forces, get_current_ip,
  network_error_callback, network_fails, rebind_uplink, rebinds, rebuild_sender, rebuilt, restores,
  resubscribes, run_uplink_events, session_restored_callback, ticks,
}
use uavlink_edge.Forward.Nodes.{NodeOutcomes, Nodes, rebuild_nodes}
use uavlink_edge.Forward.Nodes.Laws.{
  HasExcess, HasExcess-HasNoLeak, HasNoLeak, IsBalanced, rebuild_nodes-HasExcess,
  rebuild_nodes-IsBalanced, rebuild_nodes_answer,
}
use uavlink_edge.Session.World.{
  disconnect_auth_failed, disconnect_network, disconnect_none, disconnect_server_transient,
  disconnect_session_invalid,
}

-- What a rebuild of the nodes keeps, every event keeps.
module _ (env : NodeOutcomes) (P : Nodes → Type 0)
    (keeps : (s : Nodes) → P s → P (rebuild_nodes env s).0) where
  record Holds (m : Monitor) : Type 0 where
    at : P m.nodes

  choice : (b : Bool) (m u : Monitor) → Holds m → Holds u → Holds (if b then m else u)
  choice true m u p q = p
  choice false m u p q = q

  same-Holds : (m : Monitor) → P m.nodes → Holds m
  same-Holds m p = record { at = p }

  rebuilt-Holds :
      (why : RebuildReason) (m : Monitor) (s : Nodes) (b : Bool)
      → P s
      → Holds (rebuilt why m (s, b))
  rebuilt-Holds why m s true p = record { at = p }
  rebuilt-Holds why m s false p = record { at = p }

  rebuild_sender-Holds :
      (why : RebuildReason) (m : Monitor) → P m.nodes → Holds (rebuild_sender env why m)
  unfolding rebuild_sender
  rebuild_sender-Holds why m p =
      let s = rebuild_nodes env m.nodes in rebuilt-Holds why m s.0 s.1 (keeps m.nodes p)

  ruleset rules = (choice, rebuild_sender-Holds, same-Holds)

  egress-Holds :
      (r : Reading) (m : Monitor) → P m.nodes → Holds (check_physical_egress_change env r m)
  unfolding check_physical_egress_change
  egress-Holds r m p = search (rules, p) depth 12

  current-Holds : (ip : String) (m : Monitor) → P m.nodes → Holds (check_current env ip m)
  unfolding check_current
  current-Holds ip m p = search (rules, p) depth 12

  check-Holds : (r : Reading) (m : Monitor) → P m.nodes → Holds (check_ip env r m)
  unfolding check_ip
  check-Holds r m p = current-Holds (get_current_ip r) _ (egress-Holds r m p).at

  event-Holds : (e : UplinkEvent) (m : Monitor) → P m.nodes → Holds (apply_uplink_event env e m)
  unfolding apply_uplink_event rebind_uplink network_error_callback disconnect_cause_callback
      session_restored_callback
  event-Holds (ticks r) m p = check-Holds r m p
  event-Holds (forces r) m p = choice m.force_check _ m (check-Holds r _ p) (record { at = p })
  event-Holds (rebinds r) m p = choice _ _ m (record { at = keeps m.nodes p }) (record { at = p })
  event-Holds network_fails m p = choice m.is_healthy _ m (record { at = p }) (record { at = p })
  event-Holds (disconnects disconnect_none) m p = record { at = p }
  event-Holds (disconnects disconnect_network) m p = record { at = p }
  event-Holds (disconnects disconnect_session_invalid) m p = record { at = p }
  event-Holds (disconnects disconnect_auth_failed) m p = record { at = p }
  event-Holds (disconnects disconnect_server_transient) m p = record { at = p }
  event-Holds restores m p = record { at = p }
  event-Holds resubscribes m p = record { at = p }

  pub run_uplink_events-keeps :
      (es : List UplinkEvent) (m : Monitor) → P m.nodes → P (run_uplink_events env es m).nodes
  unfolding run_uplink_events
  run_uplink_events-keeps [] m p = p
  run_uplink_events-keeps (e ∷ es) m p =
      run_uplink_events-keeps es (apply_uplink_event env e m) (event-Holds e m p).at

-- Whatever happens, a node that was created stays the forwarder's or is closed. If creations succeed,
-- it is the forwarder's in one place or was closed once, and not both, so the forwarder's nodes are
-- open.
pub run_uplink_events-HasNoLeak :
    (env : NodeOutcomes) (es : List UplinkEvent) (m : Monitor)
    → IsBalanced m.nodes
    → HasNoLeak (run_uplink_events env es m).nodes
      × (((t : ℕ) → env.node_at t ≡ true) → IsBalanced (run_uplink_events env es m).nodes)
run_uplink_events-HasNoLeak env es m h =
    let P : Nodes → Type 0 = λ s. (k : ℕ → ℕ) × HasExcess k s in
    let (k, some_excess) =
      run_uplink_events-keeps env P (λ s p. (_, rebuild_nodes-HasExcess env p.0 s p.1)) es m
        (_, h) in
    (
      HasExcess-HasNoLeak k _ some_excess,
      λ made.
          run_uplink_events-keeps env IsBalanced
            (λ s p.
              (rebuild_nodes-IsBalanced env s p).0.1 (rebuild_nodes_answer env s ∙ made s.tick))
            es m h,
    )
