-- ===== src/Witness/Scan.antt =====
-- The heartbeat scanner and the configuration of forwarder/px4_link.go at concrete inputs.
use uavlink_edge.Common.{Option, [], false, none, refl, some, true, ℕ, ◌*◌, ◌↔◌, ◌∷◌, ◌≡◌, ◌≢◌, ◌≤◌}
use uavlink_edge.Link.Arbiter.{Arbiter}
use uavlink_edge.Link.Scan.{
  checksum_matches, crc_accumulate, frame_has_px4_heartbeat, match_at, mavlink_crc,
}
use uavlink_edge.Link.Scan.Frames.{frame_has_px4_heartbeat_iff}
use uavlink_edge.Link.Scan.Laws.{HasFrame}
use uavlink_edge.Link.Setup.{
  BeginsOnEth, IsLossTime, IsRate, LinkConfig, configure_px4_links, configure_px4_links-limits,
}
use uavlink_edge.Link.Step.{link_eth, second}
use uavlink_edge.Wire.Bytes.{Bytes}

-- A heartbeat of PX4 behind two other bytes, one of which is a magic byte, and with one behind it.
abbrev datagram : Bytes
datagram =
    7 ∷ 253 ∷ 253 ∷ 9 ∷ 0 ∷ 0 ∷ 5 ∷ 1 ∷ 1 ∷ 0 ∷ 0 ∷ 0 ∷ 0 ∷ 0 ∷ 0 ∷ 0 ∷ 2 ∷ 12 ∷ 81 ∷ 3 ∷ 3 ∷ 108
    ∷ 94 ∷ 1 ∷ []

datagram_runs : frame_has_px4_heartbeat datagram ≡ some true
unfolding frame_has_px4_heartbeat match_at checksum_matches mavlink_crc crc_accumulate
datagram_runs = refl

frame_has_px4_heartbeat_iff_example :
    (frame_has_px4_heartbeat datagram ≢ none)
    × ((frame_has_px4_heartbeat datagram ≡ some true) ↔ HasFrame datagram)
frame_has_px4_heartbeat_iff_example = frame_has_px4_heartbeat_iff datagram

abbrev new_arbiter : Arbiter ℕ
new_arbiter = record {
  telem2_dev = "/dev/ttyAMA2";
  telem3_dev = "/dev/ttyAMA3";
  loss = 2 * second;
  recover_n = 2;
  ch = λ id. none;
  last_hb = λ id. 0;
  snap = record {
    active = link_eth;
    entered = 0;
    hold_until = 0;
    eth_lost_flag = false;
    eth_hb_since_loss = 0;
  };
  gen = 0;
}

-- A configuration with one of the old rates.
abbrev old_rate : Option LinkConfig
old_rate = some (record {
  telem2_port = "";
  serial_port = "/dev/ttyS0";
  telem2_baud = 57600;
  telem3_port = "";
  telem3_baud = 0;
  link_loss_timeout_ms = 500;
  eth_recover_heartbeats = 3;
})

configure_px4_links-limits_example :
    IsRate (configure_px4_links second old_rate new_arbiter).0.telem2_baud
    × IsRate (configure_px4_links second old_rate new_arbiter).0.telem3_baud
    × IsLossTime old_rate (configure_px4_links second old_rate new_arbiter).1.loss
    × (1 ≤ (configure_px4_links second old_rate new_arbiter).1.recover_n)
    × BeginsOnEth second new_arbiter.snap (configure_px4_links second old_rate new_arbiter).1.snap
configure_px4_links-limits_example = configure_px4_links-limits second old_rate new_arbiter
