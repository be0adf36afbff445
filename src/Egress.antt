-- ===== src/Egress.antt =====
-- network/egress.go: which interface carries the traffic to the cloud, by the status file of the
-- network monitor. The file as encoding/json decodes it is a value here, and reading it may fail.
pub mod Laws
pub mod Waiting
use uavlink_edge.Common.{
  Bool, Option, false, if◌then◌else◌, ltb, none, not, some, suc, true, zero, ℕ, ◌&&◌, ◌+◌,
}
use Prim.Native.String.{String}
use text.Mathlib.Text.{◌==◌ as str_eq}

mutual
  -- A decoded value; numbers, lists and null are never looked at.
  pub data Json : Type 0 where
    bool_value : Bool → Json
    string_value : String → Json
    object : Fields → Json
    other : Json

  pub data Fields : Type 0 where
    no_fields : Fields
    field : String → Json → Fields → Fields

abbrev pub get : Fields → String → Json
get no_fields key = other
get (field name value rest) key = if str_eq name key then value else get rest key

-- The type assertions with `_`, which give the zero value for any other type.
abbrev pub as_bool : Json → Bool
as_bool (bool_value b) = b
as_bool _ = false

abbrev pub as_text : Json → String
as_text (string_value s) = s
as_text _ = ""

-- A nil map has no keys.
abbrev pub as_object : Json → Fields
as_object (object fields) = fields
as_object _ = no_fields

abbrev pub has_text : String → Bool
has_text s = not (str_eq s "")

-- The three results of PhysicalEgress.
pub record Egress : Type 0 where
  pub iface : String
  pub ip : String
  pub ok : Bool

abbrev pub no_egress : Egress
no_egress = record { iface = ""; ip = ""; ok = false }

unfoldable pub cloud_ready : Option Fields → Bool
cloud_ready none = false
cloud_ready (some raw) = as_bool (get raw "cloud_ready")

unfoldable pub cloud_uplink_block : Fields → Fields
cloud_uplink_block raw = as_object (get (as_object (get raw "planes")) "cloud_uplink")

-- The loop over the keys of an address.
unfoldable pub address_of : Fields → String → String → Egress → Egress
address_of block iface key otherwise =
    let v = as_text (get block key) in
    if has_text v && not (str_eq v "null")
    then record { iface = iface; ip = v; ok = as_bool (get block "online") }
    else otherwise

unfoldable pub block_egress : Fields → String → Egress
block_egress block iface =
    address_of block iface "ip"
      (address_of block iface "ip_address" (record { iface = iface; ip = ""; ok = false }))

-- From the name of the active interface on.
unfoldable pub active_egress : Fields → String → Egress
active_egress raw iface =
    if not (has_text iface)
    then no_egress
    else if str_eq iface "wwan0"
    then block_egress (as_object (get raw "4g")) iface
    else if str_eq iface "wlan0"
    then block_egress (as_object (get raw "wifi")) iface
    else record { iface = iface; ip = ""; ok = false }

unfoldable pub raw_egress : Fields → Egress
raw_egress raw =
    let cu = cloud_uplink_block raw in
    let iface = as_text (get cu "interface") in
    let ip = as_text (get cu "ip") in
    if as_bool (get cu "ready") && (has_text iface && has_text ip)
    then record { iface = iface; ip = ip; ok = true }
    else active_egress raw (as_text (get raw "active_interface"))

unfoldable pub physical_egress : Option Fields → Egress
physical_egress none = no_egress
physical_egress (some raw) = raw_egress raw

-- WaitForCloudEgress. The clock is read and the status file is read, and read again for the egress,
-- in each round; none says that the rounds did not suffice.
module _ (now_at : ℕ → ℕ) (first_read second_read : ℕ → Option Fields) where
  unfoldable pub poll : ℕ → ℕ → ℕ → Option Egress
  poll zero round deadline = none
  poll (suc rounds) round deadline =
      let later = poll rounds (round + 1) deadline in
      if ltb (now_at round) deadline
      then (if cloud_ready (first_read round)
          then some (physical_egress (second_read round))
          else later)
      else some no_egress
