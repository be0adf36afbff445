-- ===== src/Forward/Uplink/Laws.antt =====
-- What becomes of the frames that receiveAndForward of forwarder/forwarder.go takes.
pub mod Counts
use uavlink_edge.Common.{Bool, false, true, ◌≡◌, ◌≢◌, ◌⊎◌}
use uavlink_edge.Forward.Uplink.{Frame, Surroundings, forward_gps_raw_to_server, vpn_blocks}

module _ {Channel : Type 0} where
  -- What lets a frame through from the test of the connection on.
  abbrev pub Passes : Surroundings → Frame Channel → Bool → Type 0
  Passes env x connected =
      (connected ≡ true)
      × (vpn_blocks env.cfg env.vpn_manager ≡ false)
      × (env.is_healthy ≡ true)
      × ((x.msg_id ≢ 24) ⊎ (forward_gps_raw_to_server env.cfg ≡ true))
      × (env.write_succeeds ≡ true)
