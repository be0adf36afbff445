-- ===== src/Witness/Forward.antt =====
-- forwarder/forwarder.go at concrete inputs. The serial port of TELEM2 is the only channel, 2.
use uavlink_edge.Common.{
  Option, [], false, if◌then◌else◌, none, some, true, ℕ, ◌%◌, ◌*◌, ◌+◌, ◌==◌, ◌^◌, ◌∷◌, ◌≡◌,
}
use uavlink_edge.Forward.History.{duplicates, empty_hist}
use uavlink_edge.Forward.History.Laws.{duplicates-repeats}
use uavlink_edge.Forward.Stats.{PktStats, drop_duplicate, no_messages}
use uavlink_edge.Forward.Stats.Laws.{counts, reported, reports, reports_add_up, run_calls}
use uavlink_edge.Forward.Uplink.{Forwarder, Frame, Surroundings}
use uavlink_edge.Link.Arbiter.{Arbiter, EndpointConf, endpoint_serial}
use uavlink_edge.Link.Step.{link_telem2, second}

abbrev only_telem2 : ℕ → Option EndpointConf
only_telem2 n = if n == 2 then some (endpoint_serial "/dev/ttyAMA2") else none

abbrev arbiter : Arbiter ℕ
arbiter = record {
  telem2_dev = "/dev/ttyAMA2";
  telem3_dev = "/dev/ttyAMA3";
  loss = 2 * second;
  recover_n = 2;
  ch = λ _. none;
  last_hb = λ _. 0;
  snap = record {
    active = link_telem2;
    entered = second;
    hold_until = 0;
    eth_lost_flag = false;
    eth_hb_since_loss = 0;
  };
  gen = 0;
}

abbrev stats : PktStats
stats = record { total = λ _. 0; sec = λ _. 0 }

abbrev forwarder : Forwarder ℕ
forwarder = record {
  links = arbiter;
  link_gen = 0;
  last_seq_num = λ _ _. none;
  pixhawk_connected = false;
  msg_stats = no_messages;
  pkt_stats = stats;
  metrics = record {
    sent_packets = λ _. 0;
    failed_packets = λ _. 0;
    failed_unhealthy = λ _. 0;
    failed_send = λ _. 0;
  };
}

abbrev beat : Frame ℕ
beat = record {
  channel = some 2;
  sys_id = 1;
  comp_id = 1;
  seq_num = 7;
  msg_id = 0;
  msg_type_name = "HEARTBEAT";
  heartbeat = some (record { autopilot = 12 });
}

abbrev env : Surroundings
env = record {
  now = 5 * second;
  is_healthy = true;
  cfg = none;
  vpn_manager = none;
  write_succeeds = true;
}

duplicates-repeats_example : duplicates empty_hist (4 ∷ 5 ∷ 4 ∷ []) ≡ false ∷ false ∷ true ∷ []
duplicates-repeats_example = duplicates-repeats (4 ∷ 5 ∷ 4 ∷ [])

reports_add_up_example :
    (reported stats (counts drop_duplicate ∷ reports ∷ []) drop_duplicate
        + (run_calls stats (counts drop_duplicate ∷ reports ∷ [])).sec drop_duplicate
        + stats.total drop_duplicate)
      % 2 ^ 64
    ≡ (stats.sec drop_duplicate
        + (run_calls stats (counts drop_duplicate ∷ reports ∷ [])).total drop_duplicate)
      % 2 ^ 64
reports_add_up_example = reports_add_up stats (counts drop_duplicate ∷ reports ∷ []) drop_duplicate
