-- ===== src/Witness/Link.antt =====
-- forwarder/px4_link.go at concrete states. A channel is a number: 1 is the UDP endpoint, 2 and 3
-- are the serial ports, and any other is of a type that the arbiter does not know.
use uavlink_edge.Common.{
  Bool, List, Option, [], arith, false, if◌then◌else◌, none, refl, some, true, ℕ, ◌*◌, ◌+◌, ◌<◌,
  ◌==◌, ◌∷◌, ◌≡◌, ◌≢◌, ◌≤◌, ◌⊎◌,
}
use native.Mathlib.Decide.{ℕ_discrete}
use uavlink_edge.Link.Arbiter.{
  Arbiter, EndpointConf, Event, apply_event, endpoint_custom, endpoint_other, endpoint_serial,
  evaluate, evaluates, heartbeat_target, identify, observe, observes, register, registers,
  run_events, same_link, store, write, write_to,
}
use uavlink_edge.Link.Arbiter.Invariant.{IsSound}
use uavlink_edge.Link.Arbiter.Recovery.{eth_beats, recovery_needs_heartbeats}
use uavlink_edge.Link.Arbiter.Routing.{run_events-write}
use uavlink_edge.Link.Phase.{
  Turn, advance_deadline, link_health_period, next_link_phase, phase_health,
}
use uavlink_edge.Link.Phase.Laws.{advance_deadline_first}
use uavlink_edge.Link.Step.{
  LinkId, LinkSnap, eth_lost, link_eth, link_none, link_telem2, millisecond, second, step_link,
  unchanged,
}
use uavlink_edge.Link.Step.Laws.{Edge, step_link-Edge}

abbrev all_open : LinkId → Bool
all_open _ = true

abbrev none_fresh : LinkId → Bool
none_fresh _ = false

abbrev only : LinkId → LinkId → Bool
only id j = same_link id j

abbrev on_eth : LinkSnap
on_eth = record {
  active = link_eth;
  entered = second;
  hold_until = 0;
  eth_lost_flag = false;
  eth_hb_since_loss = 0;
}

-- TELEM2, entered at 3 s and held for two seconds, with two heartbeats on Ethernet since.
abbrev on_telem2 : LinkSnap
on_telem2 = record {
  active = link_telem2;
  entered = 3 * second;
  hold_until = 5 * second;
  eth_lost_flag = true;
  eth_hb_since_loss = 2;
}

-- TestStepLinkDoesNotSkipOrOverlap: a silent Ethernet is left for TELEM2 after its window.
eth_lost_runs :
    step_link on_eth (3 * second) none_fresh all_open (2 * second) 2
    ≡ (record on_telem2 { eth_hb_since_loss = 0 }, eth_lost)
unfolding step_link
eth_lost_runs = refl

eth_window_runs :
    step_link on_eth (2 * second + 999 * millisecond) none_fresh all_open (2 * second) 2
    ≡ (on_eth, unchanged)
unfolding step_link
eth_window_runs = refl

step_link-Edge_example :
    ((eth_lost ≡ unchanged) × (link_telem2 ≡ link_eth))
    ⊎ (Edge link_eth eth_lost link_telem2
        × (all_open link_telem2 ≡ true)
        × (3 * second ≡ 3 * second))
unfolding step_link
step_link-Edge_example = step_link-Edge on_eth (3 * second) none_fresh all_open (2 * second) 2

-- A deadline missed by 1.2 s at a period of half a second.
advance_runs :
    advance_deadline (10 * second) link_health_period (11 * second + 200 * millisecond)
    ≡ 11 * second + 500 * millisecond
unfolding advance_deadline
advance_runs = refl

advance_deadline_first_example :
    (k : ℕ) × (advance_deadline 10 5 22 ≡ 10 + k * 5)
    × (0 < k)
    × (22 < 10 + k * 5)
    × ((k ≡ 1) ⊎ (10 + k * 5 ≤ 22 + 5))
advance_deadline_first_example = advance_deadline_first 10 5 22 (omega arith)

abbrev turn : Turn
turn = next_link_phase (2 * second) (2 * second) (3 * second)

turn_runs : (turn.phase ≡ phase_health) × (turn.heartbeat_at ≡ 3 * second)
unfolding next_link_phase
turn_runs = (refl, refl)

abbrev conf : ℕ → Option EndpointConf
conf c =
    if c == 1
    then some endpoint_custom
    else if c == 2
    then some (endpoint_serial "/dev/ttyAMA2")
    else if c == 3
    then some (endpoint_serial "/dev/ttyAMA3")
    else some endpoint_other

abbrev arbiter : Arbiter ℕ
arbiter = record {
  telem2_dev = "/dev/ttyAMA2";
  telem3_dev = "/dev/ttyAMA3";
  loss = 2 * second;
  recover_n = 2;
  ch = λ id. none;
  last_hb = λ id. 0;
  snap = on_telem2;
  gen = 0;
}

arbiter-IsSound : IsSound ℕ_discrete conf arbiter
arbiter-IsSound = record {
  serial_after_loss = λ e. refl;
  chosen = λ e. cc;
  counted = omega arith;
  stored = λ id c e. cc;
}

abbrev open_telem2 : List (Event ℕ)
open_telem2 = registers (some 2) ∷ []

abbrev opened : Arbiter ℕ
opened = run_events ℕ_discrete conf arbiter open_telem2

opened_writes : write opened true true ≡ write_to 2
unfolding run_events apply_event register identify store write
opened_writes = refl

run_events-write_example :
    (identify ℕ_discrete conf opened (some 2) ≡ opened.snap.active)
    × (opened.snap.active ≢ link_none)
    × (true ≡ true)
    × (true ≡ true)
    × (heartbeat_target opened ≡ some 2)
run_events-write_example =
    run_events-write ℕ_discrete conf arbiter open_telem2 true true 2 arbiter-IsSound opened_writes

-- Two heartbeats over the UDP endpoint and a health check.
abbrev recovery : List (Event ℕ)
recovery =
    observes (some 1) (some (record { autopilot = 12 })) 1 1 (6 * second)
    ∷ observes (some 1) (some (record { autopilot = 12 })) 1 1 (7 * second)
    ∷ evaluates (7 * second + 1)
    ∷ []

abbrev silent : Arbiter ℕ
silent = record arbiter { snap = record on_telem2 { eth_hb_since_loss = 0 } }

recovery_runs : (run_events ℕ_discrete conf silent recovery).snap.active ≡ link_eth
unfolding run_events apply_event observe identify evaluate step_link
recovery_runs = refl

recovery_needs_heartbeats_example : 2 ≤ 0 + eth_beats ℕ_discrete conf recovery
recovery_needs_heartbeats_example =
    recovery_needs_heartbeats ℕ_discrete conf silent recovery (refl, λ e. cc) recovery_runs
