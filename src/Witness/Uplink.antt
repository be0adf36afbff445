-- ===== src/Witness/Uplink.antt =====
-- The outgoing nodes and the monitor of forwarder/forwarder.go, at concrete inputs.
use uavlink_edge.Common.{[], arith, false, ltb, none, refl, some, true, ℕ, ◌↔◌, ◌∷◌, ◌≡◌, ◌≤◌}
use uavlink_edge.Forward.Monitor.{
  Monitor, Reading, check_current, check_ip, check_physical_egress_change, egress_key, forces,
  get_current_ip, network_fails, rebuild_sender, run_uplink_events, ticks,
}
use uavlink_edge.Forward.Monitor.Laws.{check_ip_settles, names_egress}
use uavlink_edge.Forward.Monitor.Laws.Runs.{run_uplink_events-HasNoLeak}
use uavlink_edge.Forward.Monitor.Laws.Stuck.{IsMoved, changed_address_stuck}
use uavlink_edge.Forward.Nodes.{
  NodeOutcomes, Nodes, bind_to_vpn, created, init_camera_sender, init_companion_sender,
  new_forwarder, rebuild_nodes,
}
use uavlink_edge.Forward.Nodes.Laws.{HasNoLeak, IsBalanced, rebuild_nodes-IsBalanced, times}
use uavlink_edge.Forward.Nodes.Laws.Start.{Starts, startup-Starts}

abbrev working : NodeOutcomes
working = record { node_at = λ _. true; dial_at = λ _. true }

abbrev broken : NodeOutcomes
broken = record { node_at = λ _. false; dial_at = λ _. true }

abbrev three_nodes : Nodes
three_nodes = record {
  sender_node = 0;
  camera_sender_node = some 1;
  companion_sender_node = some 2;
  tick = 3;
  opened = 2 ∷ 1 ∷ 0 ∷ [];
  closed = [];
}

new_forwarder_runs : new_forwarder working 0 ≡ created three_nodes
unfolding new_forwarder init_camera_sender init_companion_sender
new_forwarder_runs = refl

three_nodes-IsBalanced : IsBalanced three_nodes
three_nodes-IsBalanced = record {
  numbered = record { once = λ n. ground arith; below = λ n le. ground arith };
  sum = λ n. omega arith;
}

-- The first three creations succeed.
abbrev three_work : NodeOutcomes
three_work = record { node_at = λ t. ltb t 3; dial_at = λ _. true }

startup-Starts_example :
    Starts (new_forwarder three_work 0)
    × (IsBalanced (bind_to_vpn three_work three_nodes).0
        ↔ ((three_work.dial_at 3 ≡ true) × (three_work.node_at 4 ≡ true)))
startup-Starts_example = startup-Starts three_work 0 three_nodes three_nodes-IsBalanced

rebuild_nodes-IsBalanced_example :
    let (u, made) = rebuild_nodes broken three_nodes in
    (IsBalanced u ↔ (made ≡ true))
    × HasNoLeak u
    × (made ≡ false
        → (u.sender_node ≡ 0) × (2 ≤ times u.sender_node (rebuild_nodes broken u).0.closed))
rebuild_nodes-IsBalanced_example =
    rebuild_nodes-IsBalanced broken three_nodes three_nodes-IsBalanced

abbrev reading : Reading
reading = record {
  vpn_enabled = true;
  vpn_manager = some (record { is_running = true; assigned_ip = "10.8.0.2/32" });
  local_ip = none;
  egress = record { iface = "wwan0"; ip = "10.0.0.2"; ok = true };
  session_ip = "10.0.0.2";
}

reading_runs : get_current_ip reading ≡ "10.8.0.2"
unfolding get_current_ip
reading_runs = refl

abbrev monitor : Monitor
monitor = record {
  nodes = three_nodes;
  auth_client = true;
  previous_ip = "10.8.0.9";
  previous_physical_egress = "wwan0|10.0.0.2";
  network_was_down = false;
  is_healthy = true;
  force_check = false;
  sender_rebuild = false;
  reconnects = 0;
  shown_ip = "10.8.0.9";
}

check_runs : (check_ip working reading monitor).reconnects ≡ 1
unfolding check_ip get_current_ip check_current check_physical_egress_change rebuild_sender
    rebuild_nodes
check_runs = refl

check_ip_settles_example :
    let u = check_ip working reading monitor in
    (u.previous_ip ≡ get_current_ip reading)
    × (u.network_was_down ≡ false)
    × (names_egress reading ≡ true → u.previous_physical_egress ≡ egress_key reading.egress)
    × (((t : ℕ) → true ≡ true) → u.is_healthy ≡ true)
    × (u.is_healthy ≡ true → check_ip working reading u ≡ u)
unfolding get_current_ip
check_ip_settles_example = check_ip_settles working reading monitor refl

run_uplink_events-HasNoLeak_example :
    let es = ticks reading ∷ network_fails ∷ forces reading ∷ [] in
    HasNoLeak (run_uplink_events working es monitor).nodes
    × (((t : ℕ) → true ≡ true) → IsBalanced (run_uplink_events working es monitor).nodes)
run_uplink_events-HasNoLeak_example =
    run_uplink_events-HasNoLeak working (ticks reading ∷ network_fails ∷ forces reading ∷ [])
      monitor three_nodes-IsBalanced

monitor-IsMoved : IsMoved reading monitor
unfolding get_current_ip
monitor-IsMoved = record {
  found = refl;
  bound = refl;
  moved = refl;
  there = refl;
  healthy = refl;
  egress = λ e. refl;
}

changed_address_stuck_example :
    let u = check_ip broken reading monitor in
    (u.is_healthy ≡ true)
    × (1 ≤ times u.nodes.sender_node u.nodes.closed)
    × (check_ip broken reading u ≡ u)
changed_address_stuck_example = changed_address_stuck broken reading monitor monitor-IsMoved refl
