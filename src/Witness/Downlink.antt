-- ===== src/Witness/Downlink.antt =====
-- receiveFromServer and sendMavlinkKeepAlive of forwarder/forwarder.go at concrete inputs. The serial
-- port of TELEM2 is the only channel, 2.
use uavlink_edge.Common.{
  List, Option, [], arith, false, if◌then◌else◌, length, none, refl, some, true, ℕ, ◌*◌, ◌==◌, ◌↔◌,
  ◌∷◌, ◌≡◌, ◌≢◌,
}
use native.Mathlib.Decide.{ℕ_discrete}
use uavlink_edge.Forward.Downlink.{
  DownSurroundings, ServerFrame, forward_to_px4, forwarded, other_kind, receive_server_frame,
}
use uavlink_edge.Forward.Downlink.Laws.{IsCommand, counts_of, receive_server_frame-routes}
use uavlink_edge.Forward.Keepalive.{
  KeepAlive, KeepReading, KeepState, build_keepalive, decode_hex, keepalive_tick, keepalive_ticks,
  shifted_mode,
}
use uavlink_edge.Forward.Keepalive.Laws.{
  Sends, hex_text, keepalive_ticks-Sends, laid_out, truncated,
}
use uavlink_edge.Forward.Stats.{no_messages}
use uavlink_edge.Forward.Uplink.{Forwarder}
use uavlink_edge.Link.Arbiter.{
  Arbiter, EndpointConf, Event, apply_event, endpoint_serial, identify, register, registers,
  run_events, store, write,
}
use uavlink_edge.Link.Arbiter.Invariant.{IsSound}
use uavlink_edge.Link.Step.{link_none, link_telem2, second}
use uavlink_edge.Wire.Bytes.{Bytes, put_u16}

abbrev conf_of : ℕ → Option EndpointConf
conf_of n = if n == 2 then some (endpoint_serial "/dev/ttyAMA2") else none

abbrev links_at_start : Arbiter ℕ
links_at_start = record {
  telem2_dev = "/dev/ttyAMA2";
  telem3_dev = "/dev/ttyAMA3";
  loss = 2 * second;
  recover_n = 2;
  ch = λ _. none;
  last_hb = λ _. 0;
  snap = record {
    active = link_telem2;
    entered = second;
    hold_until = 0;
    eth_lost_flag = true;
    eth_hb_since_loss = 0;
  };
  gen = 0;
}

links_at_start-IsSound : IsSound ℕ_discrete conf_of links_at_start
links_at_start-IsSound = record {
  stored = λ id c e. absurd (ground arith);
  counted = omega arith;
  chosen = λ e. cc;
  serial_after_loss = λ e. refl;
}

abbrev after_open : List (Event ℕ)
after_open = registers (some 2) ∷ []

abbrev forwarder_here : Forwarder ℕ
forwarder_here = record {
  links = run_events ℕ_discrete conf_of links_at_start after_open;
  link_gen = 0;
  last_seq_num = λ _ _. none;
  pixhawk_connected = true;
  msg_stats = no_messages;
  pkt_stats = record { total = λ _. 0; sec = λ _. 0 };
  metrics = record {
    sent_packets = λ _. 0;
    failed_packets = λ _. 0;
    failed_unhealthy = λ _. 0;
    failed_send = λ _. 0;
  };
}

-- A COMMAND_LONG of a ground station.
abbrev command : ServerFrame
command = record { sys_id = 255; msg_id = 76; kind = other_kind }

abbrev around : DownSurroundings
around = record { pixhawk_sys_id = 1; has_node = true; write_succeeds = true }

command_runs : (receive_server_frame around command forwarder_here).1 ≡ forwarded 2
unfolding receive_server_frame forward_to_px4 write run_events apply_event register identify store
command_runs = refl

receive_server_frame-routes_example :
    let (g, fate) = receive_server_frame around command forwarder_here in
    ((fate ≡ forwarded 2) ↔ (
      IsCommand around command
      × (true ≡ true)
      × (forwarder_here.links.ch forwarder_here.links.snap.active ≡ some 2)
      × (true ≡ true)))
    × (fate ≡ forwarded 2
        → (identify ℕ_discrete conf_of forwarder_here.links (some 2)
            ≡ forwarder_here.links.snap.active)
          × (forwarder_here.links.snap.active ≢ link_none))
    × (g ≡ record forwarder_here { msg_stats = counts_of 76 fate no_messages })
receive_server_frame-routes_example =
    receive_server_frame-routes ℕ_discrete conf_of links_at_start after_open around command
      forwarder_here 2 links_at_start-IsSound refl

abbrev lay_out : KeepAlive → Bytes
lay_out k = truncated (laid_out k)

-- A token of 32 bytes that ends in 0, so that the shifted mode sends 38 bytes of 39.
abbrev a_token : Bytes
a_token =
    167 ∷ 167 ∷ 167 ∷ 167 ∷ 167 ∷ 167 ∷ 167 ∷ 167 ∷ 167 ∷ 167 ∷ 167 ∷ 167 ∷ 167 ∷ 167 ∷ 167 ∷ 167
    ∷ 167 ∷ 167 ∷ 167 ∷ 167 ∷ 167 ∷ 167 ∷ 167 ∷ 167 ∷ 167 ∷ 167 ∷ 167 ∷ 167 ∷ 167 ∷ 167 ∷ 167 ∷ 0
    ∷ []

abbrev with_text : Bytes → KeepReading
with_text text_of = record {
  token_hex = text_of;
  expires_unix = 1000;
  connected = true;
  write_succeeds = true;
}

abbrev two_readings : List KeepReading
two_readings = with_text [] ∷ with_text (hex_text a_token) ∷ []

abbrev last_number : KeepState
last_number = record {
  next_sequence = 65535;
  first_sent = false;
  heartbeat_sent = false;
  msg_stats = no_messages;
  pkt_stats = record { total = λ _. 0; sec = λ _. 0 };
}

ticks_run : (keepalive_ticks shifted_mode two_readings last_number).0.next_sequence ≡ 0
unfolding keepalive_ticks keepalive_tick decode_hex build_keepalive
ticks_run = refl

short_runs : length (lay_out (build_keepalive shifted_mode a_token 1000 7 true)) ≡ 38
unfolding build_keepalive put_u16
short_runs = refl

keepalive_ticks-Sends_example :
    Sends lay_out shifted_mode 65535 two_readings
      (keepalive_ticks shifted_mode two_readings last_number).1
keepalive_ticks-Sends_example =
    keepalive_ticks-Sends lay_out (λ k. refl) shifted_mode two_readings last_number
