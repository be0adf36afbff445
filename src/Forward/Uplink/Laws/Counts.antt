-- ===== src/Forward/Uplink/Laws/Counts.antt =====
-- The packet counters of forwarder/forwarder.go against the fates of the frames.
use uavlink_edge.Common.{List, Option, [], ◌∷◌, ◌≡◌}
use uavlink_edge.Forward.Stats.{
  PktCounter, PktStats, accepted_in_14540, drop_duplicate, drop_no_pixhawk, drop_send_error,
  drop_sys_id_255, drop_unhealthy, drop_vpn_not_ready, inc_pkt, out_server_forward, raw_in_14540,
}
use uavlink_edge.Forward.Uplink.{
  Fate, Forwarder, is_duplicate, is_sys_id_255, no_pixhawk, not_forward, send_failed, sent,
  unhealthy, vpn_not_ready, withheld,
}
use uavlink_edge.Link.Arbiter.{Arbiter, EndpointConf}

-- The counters that a frame of a given fate has raised.
abbrev pub trace : Fate → List PktCounter
trace not_forward = []
trace is_sys_id_255 = raw_in_14540 ∷ drop_sys_id_255 ∷ []
trace is_duplicate = raw_in_14540 ∷ drop_duplicate ∷ []
trace no_pixhawk = raw_in_14540 ∷ accepted_in_14540 ∷ drop_no_pixhawk ∷ []
trace vpn_not_ready = raw_in_14540 ∷ accepted_in_14540 ∷ drop_vpn_not_ready ∷ []
trace unhealthy = raw_in_14540 ∷ accepted_in_14540 ∷ drop_unhealthy ∷ []
trace withheld = raw_in_14540 ∷ accepted_in_14540 ∷ []
trace send_failed = raw_in_14540 ∷ accepted_in_14540 ∷ drop_send_error ∷ []
trace sent = raw_in_14540 ∷ accepted_in_14540 ∷ out_server_forward ∷ []

abbrev pub inc_all : List PktCounter → PktStats → PktStats
inc_all [] s = s
inc_all (c ∷ cs) s = inc_all cs (inc_pkt c s)

module _ {Channel : Type 0} (same : Discrete Channel) (conf : Channel → Option EndpointConf) where
  -- The counters are those of `s` with what the fate says raised.
  abbrev Counted : PktStats → Forwarder Channel × Fate → Type 0
  Counted s (f, fate) = f.pkt_stats ≡ inc_all (trace fate) s
