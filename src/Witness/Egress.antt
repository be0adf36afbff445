-- ===== src/Witness/Egress.antt =====
-- network/egress.go at a status file, and a wait for it.
use uavlink_edge.Common.{
  Option, ap, arith, none, refl, some, suc, true, zero, ℕ, ◌*◌, ◌+◌, ◌≡◌, ◌≤◌,
}
use uavlink_edge.Egress.{
  Egress, Fields, bool_value, cloud_uplink_block, field, no_fields, object, physical_egress, poll,
  raw_egress, string_value,
}
use uavlink_edge.Egress.Laws.{IsUsable, physical_egress-IsUsable}
use uavlink_edge.Egress.Waiting.{IsAnswer, poll-ends}
use uavlink_edge.Link.Step.{second}

abbrev cloud : Fields
cloud =
    field "ready" (bool_value true)
      (field "interface" (string_value "wwan0") (field "ip" (string_value "10.0.0.2") no_fields))

abbrev status : Fields
status =
    field "cloud_ready" (bool_value true)
      (field "planes" (object (field "cloud_uplink" (object cloud) no_fields)) no_fields)

status_runs : physical_egress (some status) ≡ record { iface = "wwan0"; ip = "10.0.0.2"; ok = true }
unfolding physical_egress raw_egress cloud_uplink_block
status_runs = refl

physical_egress-IsUsable_example : IsUsable status (physical_egress (some status))
physical_egress-IsUsable_example = physical_egress-IsUsable status (ap (λ e. e.ok) status_runs)

-- The status file appears in the second round.
abbrev file_at : ℕ → Option Fields
file_at zero = none
file_at (suc round) = some status

abbrev ticks : ℕ → ℕ
ticks i = i * (2 * second)

ticks_sleep : (i : ℕ) → ticks i + 2 * second ≤ ticks (i + 1)
ticks_sleep i = omega arith

poll-ends_example :
    (e : Egress) × (poll ticks file_at file_at (suc 3) 0 (5 * second) ≡ some e)
    × IsAnswer ticks file_at file_at (5 * second) e
poll-ends_example = poll-ends ticks file_at file_at ticks_sleep 3 0 (5 * second) (omega arith)
