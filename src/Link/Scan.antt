-- ===== src/Link/Scan.antt =====
-- frameHasPX4Heartbeat, mavlinkCRC and crcAccumulate of forwarder/px4_link.go, with which the
-- Ethernet broadcast watch looks for heartbeats of the autopilot.
pub mod Laws
pub mod Frames
use uavlink_edge.Common.{
  Bool, Option, [], false, get_elem?, if◌then◌else◌, leb, length, ltb, none, not, refl, some, take,
  true, ℕ, ◌%◌, ◌*◌, ◌++◌, ◌+◌, ◌/◌, ◌==◌, ◌^◌, ◌||◌, ◌∷◌, ◌≡◌,
}
use Prim.Native.Nat.{bit_xor}
use uavlink_edge.Wire.Bytes.{Bytes, u16_of}

-- Shifts and exclusive ors of unsigned integers, tmp of 8 bits and crc of 16.
unfoldable pub crc_accumulate : ℕ → ℕ → ℕ
crc_accumulate b crc =
    let low = bit_xor (crc % 256) b in
    let tmp = bit_xor low (low * 2 ^ 4 % 256) in
    bit_xor (bit_xor (bit_xor (crc / 2 ^ 8) (tmp * 2 ^ 8)) (tmp * 2 ^ 3)) (tmp / 2 ^ 4)

abbrev accumulate_all : Bytes → ℕ → ℕ
accumulate_all [] crc = crc
accumulate_all (b ∷ bytes) crc = accumulate_all bytes (crc_accumulate b crc)

unfoldable pub mavlink_crc : Bytes → ℕ → ℕ
mavlink_crc bytes extra = crc_accumulate extra (accumulate_all bytes 0xFFFF)

-- An index out of range panics, which is `none`.
abbrev pub with_byte : Option ℕ → (ℕ → Option Bool) → Option Bool
with_byte none f = none
with_byte (some b) f = f b

-- The checksum behind a payload of `plen` bytes, where `rest` begins with the payload.
unfoldable pub checksum_matches : ℕ → Bytes → Bytes → Option Bool
checksum_matches plen body rest = with_byte (get_elem? rest plen) λ low.
    with_byte (get_elem? rest (plen + 1))
      λ high. some (mavlink_crc (body ++ take plen rest) 50 == u16_of low high)

-- The body of the loop at the bytes from i on, of which there are 12 or more.
unfoldable pub match_at : Bytes → Option Bool
match_at (magic ∷ plen ∷ b2 ∷ b3 ∷ b4 ∷ sysid ∷ compid ∷ id0 ∷ id1 ∷ id2 ∷ rest) =
    if not (magic == 0xFD)
    then some false
    else if ltb plen 9 || ltb (length rest) (plen + 2)
    then some false
    else if not (id0 + id1 * 2 ^ 8 + id2 * 2 ^ 16 == 0)
    then some false
    else if sysid == 0 || (sysid == 255 || not (compid == 1))
    then some false
    else with_byte (get_elem? (take plen rest) 5) λ autopilot.
      if not (autopilot == 12)
      then some false
      else checksum_matches plen (plen ∷ b2 ∷ b3 ∷ b4 ∷ sysid ∷ compid ∷ id0 ∷ id1 ∷ id2 ∷ []) rest
match_at _ = none

abbrev pub or_later : Option Bool → Option Bool → Option Bool
or_later none later = none
or_later (some true) later = some true
or_later (some false) later = later

unfoldable pub frame_has_px4_heartbeat : Bytes → Option Bool
frame_has_px4_heartbeat [] = some false
frame_has_px4_heartbeat (b ∷ bytes) =
    let later = frame_has_px4_heartbeat bytes in
    if leb 12 (length (b ∷ bytes)) then or_later (match_at (b ∷ bytes)) later else some false

-- The check value of CRC-16/MCRF4XX: the checksum of "12345678" and "9".
crc_check : mavlink_crc (49 ∷ 50 ∷ 51 ∷ 52 ∷ 53 ∷ 54 ∷ 55 ∷ 56 ∷ []) 57 ≡ 0x6F91
unfolding mavlink_crc crc_accumulate
crc_check = refl
