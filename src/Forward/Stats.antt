-- ===== src/Forward/Stats.antt =====
-- The packet and message counters of forwarder/forwarder.go, and the packet counters of
-- metrics/metrics.go. A map from a key to a count is a function, 0 where the key is missing; an
-- int64 is its 64 bits.
pub mod Laws
use uavlink_edge.Common.{Bool, false, if◌then◌else◌, ltb, true, ℕ, ◌%◌, ◌+◌, ◌-◌, ◌==◌, ◌^◌}
use Prim.Native.String.{String}
use text.Mathlib.Text.{◌==◌ as str_eq}

-- The names of the fields of pktStatsSnapshot and pktTotalsSnapshot, and of the counters behind them.
pub data PktCounter : Type 0 where
  raw_in_14540 accepted_in_14540 out_server_forward out_server_generated drop_sys_id_255 :
      PktCounter
  drop_duplicate drop_no_pixhawk drop_vpn_not_ready drop_unhealthy drop_send_error : PktCounter

abbrev pub same_counter : PktCounter → PktCounter → Bool
same_counter raw_in_14540 raw_in_14540 = true
same_counter accepted_in_14540 accepted_in_14540 = true
same_counter out_server_forward out_server_forward = true
same_counter out_server_generated out_server_generated = true
same_counter drop_sys_id_255 drop_sys_id_255 = true
same_counter drop_duplicate drop_duplicate = true
same_counter drop_no_pixhawk drop_no_pixhawk = true
same_counter drop_vpn_not_ready drop_vpn_not_ready = true
same_counter drop_unhealthy drop_unhealthy = true
same_counter drop_send_error drop_send_error = true
same_counter _ _ = false

-- The fields …Total and …Sec.
pub record PktStats : Type 0 where
  pub total : PktCounter → ℕ
  pub sec : PktCounter → ℕ

-- x++ on a uint64, or on the bits of an int64
abbrev pub inc_u64 : ℕ → ℕ
inc_u64 n = (n + 1) % 2 ^ 64

abbrev pub inc_counter : (PktCounter → ℕ) → PktCounter → PktCounter → ℕ
inc_counter f c d = if same_counter c d then inc_u64 (f d) else f d

-- incPktRawIn14540 and the nine functions of its kind.
unfoldable pub inc_pkt : PktCounter → PktStats → PktStats
inc_pkt c s = record { total = inc_counter s.total c; sec = inc_counter s.sec c }

-- The counts of the second and the totals, and the counters with the former reset.
unfoldable pub take_pkt_stats_snapshot : PktStats → ((PktCounter → ℕ) × (PktCounter → ℕ)) × PktStats
take_pkt_stats_snapshot s = ((s.sec, s.total), record s { sec = λ _. 0 })

-- m[id]++
abbrev pub inc_at : (ℕ → ℕ) → ℕ → ℕ → ℕ
inc_at m id j = if j == id then inc_u64 (m j) else m j

pub record MsgStats : Type 0 where
  pub msg_in_by_id : ℕ → ℕ
  pub msg_out_by_id : ℕ → ℕ
  pub msg_srv_in_by_id : ℕ → ℕ
  pub msg_srv_out_by_id : ℕ → ℕ

unfoldable pub inc_msg_in : ℕ → MsgStats → MsgStats
inc_msg_in id s = record s { msg_in_by_id = inc_at s.msg_in_by_id id }

unfoldable pub inc_msg_out : ℕ → MsgStats → MsgStats
inc_msg_out id s = record s { msg_out_by_id = inc_at s.msg_out_by_id id }

unfoldable pub inc_msg_srv_in : ℕ → MsgStats → MsgStats
inc_msg_srv_in id s = record s { msg_srv_in_by_id = inc_at s.msg_srv_in_by_id id }

unfoldable pub inc_msg_srv_out : ℕ → MsgStats → MsgStats
inc_msg_srv_out id s = record s { msg_srv_out_by_id = inc_at s.msg_srv_out_by_id id }

abbrev pub no_messages : MsgStats
no_messages = record {
  msg_in_by_id = λ _. 0;
  msg_out_by_id = λ _. 0;
  msg_srv_in_by_id = λ _. 0;
  msg_srv_out_by_id = λ _. 0;
}

-- The four maps, and the counters with new ones.
unfoldable pub take_msg_stats_snapshot : MsgStats → MsgStats × MsgStats
take_msg_stats_snapshot s = (s, no_messages)

-- A key of a whose count is not above that of b is missing from the result.
unfoldable pub subtract_positive : (ℕ → ℕ) → (ℕ → ℕ) → ℕ → ℕ
subtract_positive a b id = if ltb (b id) (a id) then a id - b id else 0

-- The packet maps of Metrics, by the name of a message type.
pub record PacketMetrics : Type 0 where
  pub sent_packets : String → ℕ
  pub failed_packets : String → ℕ
  pub failed_unhealthy : String → ℕ
  pub failed_send : String → ℕ

abbrev pub inc_name : (String → ℕ) → String → String → ℕ
inc_name m name s = if str_eq s name then inc_u64 (m s) else m s

unfoldable pub inc_sent : String → PacketMetrics → PacketMetrics
inc_sent name m = record m { sent_packets = inc_name m.sent_packets name }

unfoldable pub inc_failed : String → PacketMetrics → PacketMetrics
inc_failed name m = record m { failed_packets = inc_name m.failed_packets name }

unfoldable pub inc_failed_unhealthy : String → PacketMetrics → PacketMetrics
inc_failed_unhealthy name m = record m {
  failed_packets = inc_name m.failed_packets name;
  failed_unhealthy = inc_name m.failed_unhealthy name;
}

unfoldable pub inc_failed_send : String → PacketMetrics → PacketMetrics
inc_failed_send name m = record m {
  failed_packets = inc_name m.failed_packets name;
  failed_send = inc_name m.failed_send name;
}
