-- ===== src/Link/Scan/Laws.antt =====
-- Which bytes the scanner of forwarder/px4_link.go takes for a heartbeat of the autopilot.
use uavlink_edge.Common.{
  ==_iff, ==_refl, Bool, Option, [], ap, append_assoc, arith, false, get_elem?, if◌then◌else◌,
  length, length-append, length-take, ltb, none, not, refl, some, suc, sym, take,
  take-length-append, true, zero, ℕ, ◌*◌, ◌++◌, ◌+◌, ◌==◌, ◌^◌, ◌||◌, ◌∙◌, ◌∷◌, ◌≡◌, ◌≢◌, ◌≤◌, ◌⊎◌,
}
use mathlib.Core.Option.{some-injective}
use uavlink_edge.Link.Scan.{checksum_matches, match_at, mavlink_crc, with_byte}
use uavlink_edge.Wire.Bytes.{Bytes, u16_of}

-- The fields of a MAVLink 2 frame of a HEARTBEAT from component 1, without a signature.
pub record HeartbeatFrame : Type 0 where
  pub incompat_flags : ℕ
  pub compat_flags : ℕ
  pub sequence : ℕ
  pub system : ℕ
  pub payload : Bytes
  pub crc_low : ℕ
  pub crc_high : ℕ

-- The header behind the magic byte, which the checksum covers with the payload.
abbrev frame_header : HeartbeatFrame → Bytes
frame_header f =
    length f.payload
    ∷ f.incompat_flags
    ∷ f.compat_flags
    ∷ f.sequence
    ∷ f.system
    ∷ 1
    ∷ 0
    ∷ 0
    ∷ 0
    ∷ []

abbrev pub frame_bytes : HeartbeatFrame → Bytes
frame_bytes f = 0xFD ∷ frame_header f ++ f.payload ++ f.crc_low ∷ f.crc_high ∷ []

-- A frame of PX4 (autopilot 12) from a vehicle, whose checksum is right with the seed 50 of
-- HEARTBEAT.
pub record IsPx4 (f : HeartbeatFrame) : Type 0 where
  pub whole : 9 ≤ length f.payload
  pub from_vehicle : (f.system ≢ 0) × (f.system ≢ 255)
  pub autopilot : get_elem? f.payload 5 ≡ some 12
  pub checksum : mavlink_crc (frame_header f ++ f.payload) 50 ≡ u16_of f.crc_low f.crc_high

pub record BeginsFrame (bytes : Bytes) : Type 0 where
  pub frame : HeartbeatFrame
  pub is_px4 : IsPx4 frame
  pub after : Bytes
  pub split : bytes ≡ frame_bytes frame ++ after

-- A frame begins at some byte.
abbrev pub HasFrame : Bytes → Type 0
HasFrame [] = ⊥
HasFrame (b ∷ bytes) = BeginsFrame (b ∷ bytes) ⊎ HasFrame bytes

if_not-inversion :
    (t : Bool) (m : Option Bool)
    → (if t then some false else m) ≡ some true
    → (t ≡ false) × (m ≡ some true)
if_not-inversion true m h = cc
if_not-inversion false m h = (refl, h)

with_byte-inversion :
    (o : Option ℕ) (f : ℕ → Option Bool)
    → with_byte o f ≡ some true
    → (b : ℕ) × (o ≡ some b) × (f b ≡ some true)
with_byte-inversion none f h = cc
with_byte-inversion (some b) f h = (b, refl, h)

-- A list cut at two bytes that are known.
cut_at :
    (n : ℕ) (xs : Bytes) (a b : ℕ)
    → get_elem? xs n ≡ some a
    → get_elem? xs (suc n) ≡ some b
    → (after : Bytes) × (xs ≡ take n xs ++ a ∷ b ∷ after)
cut_at n [] a b ha hb = cc
cut_at zero (x ∷ []) a b ha hb = cc
cut_at zero (x ∷ y ∷ xs) a b ha hb =
    let first = some-injective x a ha in
    let next = some-injective y b hb in (xs, rw (first, next) refl)
cut_at (suc n) (x ∷ xs) a b ha hb =
    let (after, split) = cut_at n xs a b ha hb in (after, ap (λ l. x ∷ l) split)

get_elem?-append :
    (xs ys : Bytes) (a b : ℕ)
    → (get_elem? (xs ++ a ∷ b ∷ ys) (length xs) ≡ some a)
      × (get_elem? (xs ++ a ∷ b ∷ ys) (suc (length xs)) ≡ some b)
get_elem?-append [] ys a b = (refl, refl)
get_elem?-append (x ∷ xs) ys a b = get_elem?-append xs ys a b

next_index : (n : ℕ) → n + 1 ≡ suc n
next_index n = omega arith

-- The checksum is compared with the two bytes behind the payload.
checksum-inversion :
    (plen : ℕ) (body rest : Bytes)
    → checksum_matches plen body rest ≡ some true
    → (low : ℕ) × (high : ℕ) × (after : Bytes) × (rest ≡ take plen rest ++ low ∷ high ∷ after)
      × (mavlink_crc (body ++ take plen rest) 50 ≡ u16_of low high)
unfolding checksum_matches
checksum-inversion plen body rest h =
    let (low, is_low, h1) = with_byte-inversion (get_elem? rest plen) _ h in
    let (high, is_high, h2) = with_byte-inversion (get_elem? rest (plen + 1)) _ h1 in
    let next : get_elem? rest (suc plen) ≡ some high = rw (sym (next_index plen)) is_high in
    let (after, split) = cut_at plen rest low high is_low next in
    let same = some-injective _ _ h2 in (low, high, after, split, (==_iff _ _).0 same)

length_at : (xs : Bytes) (n k : ℕ) → n + k ≤ length xs → length (take n xs) ≡ n
length_at xs n k h = omega (arith, length-take n xs)

pub lengths_hold :
    (plen n : ℕ) → (ltb plen 9 || ltb n (plen + 2)) ≡ false → (9 ≤ plen) × (plen + 2 ≤ n)
lengths_hold plen n h = ground arith

is_heartbeat_id :
    (a b c : ℕ) → not (a + b * 2 ^ 8 + c * 2 ^ 16 == 0) ≡ false → (a ≡ 0) × (b ≡ 0) × (c ≡ 0)
is_heartbeat_id a b c h = ground arith

is_vehicle :
    (sysid compid : ℕ)
    → (sysid == 0 || (sysid == 255 || not (compid == 1))) ≡ false
    → (sysid ≢ 0) × (sysid ≢ 255) × (compid ≡ 1)
is_vehicle sysid compid h = ground arith

is_same : (a b : ℕ) → not (a == b) ≡ false → a ≡ b
is_same a b h = ground arith

frame_found :
    {magic plen compid id0 id1 id2 : ℕ} (b2 b3 b4 sysid : ℕ) (rest : Bytes)
    → magic ≡ 0xFD
    → (sysid ≢ 0) × (sysid ≢ 255)
    → compid ≡ 1
    → (id0 ≡ 0) × (id1 ≡ 0) × (id2 ≡ 0)
    → 9 ≤ plen
    → plen + 2 ≤ length rest
    → get_elem? (take plen rest) 5 ≡ some 12
    → (low high : ℕ) (after : Bytes) → rest ≡ take plen rest ++ low ∷ high ∷ after
    → mavlink_crc
        ((plen ∷ b2 ∷ b3 ∷ b4 ∷ sysid ∷ compid ∷ id0 ∷ id1 ∷ id2 ∷ []) ++ take plen rest)
        50
      ≡ u16_of low high
    → BeginsFrame (magic ∷ plen ∷ b2 ∷ b3 ∷ b4 ∷ sysid ∷ compid ∷ id0 ∷ id1 ∷ id2 ∷ rest)
frame_found {magic} {plen} {compid} {id0} {id1} {id2} b2 b3 b4 sysid rest is_magic vehicle one zeros
      nine enough autopilot low high after split checksum =
    let payload = take plen rest in
    let size : length payload ≡ plen = length_at rest plen 2 enough in
    let behind = split ∙ sym (append_assoc payload (low ∷ high ∷ []) after) in
    record {
      frame = record {
        incompat_flags = b2;
        compat_flags = b3;
        sequence = b4;
        system = sysid;
        payload = payload;
        crc_low = low;
        crc_high = high;
      };
      is_px4 = record {
        whole = rw size nine;
        from_vehicle = vehicle;
        autopilot = autopilot;
        checksum = rw size (rw (one, zeros.0, zeros.1, zeros.2) at checksum);
      };
      after = after;
      split =
          rw (size, is_magic, one, zeros.0, zeros.1, zeros.2)
            (ap (λ l. 0xFD ∷ plen ∷ b2 ∷ b3 ∷ b4 ∷ sysid ∷ 1 ∷ 0 ∷ 0 ∷ 0 ∷ l) behind);
    }

pub match_at_sound : (bytes : Bytes) → match_at bytes ≡ some true → BeginsFrame bytes
unfolding match_at
match_at_sound [] h = cc
match_at_sound (magic ∷ plen ∷ b2 ∷ b3 ∷ b4 ∷ sysid ∷ compid ∷ id0 ∷ id1 ∷ id2 ∷ rest) h =
    let (is_magic, h1) = if_not-inversion (not (magic == 0xFD)) _ h in
    let (is_long, h2) = if_not-inversion (ltb plen 9 || ltb (length rest) (plen + 2)) _ h1 in
    let (is_id, h3) = if_not-inversion (not (id0 + id1 * 2 ^ 8 + id2 * 2 ^ 16 == 0)) _ h2 in
    let (is_node, h4) = if_not-inversion (sysid == 0 || (sysid == 255 || not (compid == 1))) _ h3 in
    let (autopilot, at_5, h5) = with_byte-inversion (get_elem? (take plen rest) 5) _ h4 in
    let (is_12, h6) = if_not-inversion (not (autopilot == 12)) _ h5 in
    let (low, high, after, split, checksum) = checksum-inversion _ _ _ h6 in
    let (nine, enough) = lengths_hold plen (length rest) is_long in
    let (zero0, zero1, zero2) = is_heartbeat_id id0 id1 id2 is_id in
    let (not_0, not_255, one) = is_vehicle sysid compid is_node in
    frame_found b2 b3 b4 sysid rest (is_same magic 0xFD is_magic) (not_0, not_255) one
      (zero0, zero1, zero2) nine enough (at_5 ∙ ap some (is_same autopilot 12 is_12)) low high after
      split checksum
match_at_sound _ h = cc

pub match_at_complete :
    (f : HeartbeatFrame) (after : Bytes) → IsPx4 f → match_at (frame_bytes f ++ after) ≡ some true
unfolding match_at checksum_matches
match_at_complete f after px4 =
    let p = f.payload in
    let rest = p ++ f.crc_low ∷ f.crc_high ∷ after in
    let joined = append_assoc p (f.crc_low ∷ f.crc_high ∷ []) after in
    let long : (ltb (length p) 9 || ltb (length rest) (length p + 2)) ≡ false =
      ground (arith, px4.whole, length-append p (f.crc_low ∷ f.crc_high ∷ after)) in
    let vehicle : (f.system == 0 || (f.system == 255 || not (1 == 1))) ≡ false =
      ground (arith, px4.from_vehicle) in
    let (low, high) = get_elem?-append p after f.crc_low f.crc_high in
    rw
      (
        joined,
        long,
        vehicle,
        take-length-append p (f.crc_low ∷ f.crc_high ∷ after),
        px4.autopilot,
        next_index (length p),
        low,
        high,
        px4.checksum,
      )
      (ap some (==_refl _))
