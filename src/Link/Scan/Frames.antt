-- ===== src/Link/Scan/Frames.antt =====
-- The loop of frameHasPX4Heartbeat in forwarder/px4_link.go finds the frames, without a panic.
use uavlink_edge.Common.{
  Bool, Option, [], ap, arith, false, get_elem?, if◌then◌else◌, inl, inr, leb, length,
  length-append, length-take, le→leb, ltb, none, not, refl, some, suc, sym, take, true, zero, ℕ,
  ◌*◌, ◌++◌, ◌+◌, ◌<◌, ◌==◌, ◌^◌, ◌||◌, ◌↔◌, ◌∙◌, ◌∷◌, ◌≡◌, ◌≢◌, ◌≤◌, ◌⊎◌,
}
use native.Mathlib.Decide.{dec_lt}
use uavlink_edge.Link.Scan.{
  checksum_matches, frame_has_px4_heartbeat, match_at, or_later, with_byte,
}
use uavlink_edge.Link.Scan.Laws.{
  BeginsFrame, HasFrame, lengths_hold, match_at_complete, match_at_sound,
}
use uavlink_edge.Wire.Bytes.{Bytes}

-- A call does not panic.
if_else-total :
    (t : Bool) (m : Option Bool) → (t ≡ false → m ≢ none) → (if t then some false else m) ≢ none
if_else-total true m h e = cc
if_else-total false m h e = h refl e

with_byte-total :
    (o : Option ℕ) (f : ℕ → Option Bool)
    → (a : ℕ) × (o ≡ some a)
    → ((b : ℕ) → f b ≢ none)
    → with_byte o f ≢ none
with_byte-total none f (a, e) h p = cc
with_byte-total (some b) f found h p = h b p

in_range : (xs : Bytes) (i : ℕ) → i < length xs → (a : ℕ) × (get_elem? xs i ≡ some a)
in_range [] i h = absurd (omega arith)
in_range (x ∷ xs) zero h = (x, refl)
in_range (x ∷ xs) (suc i) h = in_range xs i (omega arith)

match_at-total : (bytes : Bytes) → 12 ≤ length bytes → match_at bytes ≢ none
unfolding match_at checksum_matches
match_at-total (magic ∷ plen ∷ b2 ∷ b3 ∷ b4 ∷ sysid ∷ compid ∷ id0 ∷ id1 ∷ id2 ∷ rest) h =
    if_else-total (not (magic == 0xFD)) _ λ is_magic.
      if_else-total (ltb plen 9 || ltb (length rest) (plen + 2)) _ λ long.
        let (nine, enough) = lengths_hold plen (length rest) long in
        if_else-total (not (id0 + id1 * 2 ^ 8 + id2 * 2 ^ 16 == 0)) _ λ is_id.
          if_else-total (sysid == 0 || (sysid == 255 || not (compid == 1))) _ λ is_node.
            with_byte-total (get_elem? (take plen rest) 5) _
              (in_range (take plen rest) 5 (omega (arith, length-take plen rest)))
              λ autopilot. if_else-total (not (autopilot == 12)) _ λ is_12.
                with_byte-total (get_elem? rest plen) _ (in_range rest plen (omega arith)) λ low.
                  with_byte-total (get_elem? rest (plen + 1)) _
                    (in_range rest (plen + 1) (omega arith)) λ high e. cc
match_at-total _ h = absurd (omega arith)

BeginsFrame-long : (bytes : Bytes) → BeginsFrame bytes → 12 ≤ length bytes
BeginsFrame-long bytes begins =
    let f = begins.frame in
    let ends = f.payload ++ f.crc_low ∷ f.crc_high ∷ [] in
    rw begins.split (
      omega (
        arith,
        begins.is_px4.whole,
        length-append ends begins.after,
        length-append f.payload (f.crc_low ∷ f.crc_high ∷ []),
      ))

HasFrame-long : (bytes : Bytes) → HasFrame bytes → 12 ≤ length bytes
HasFrame-long [] h = absurd h
HasFrame-long (b ∷ bytes) (inl here) = BeginsFrame-long (b ∷ bytes) here
HasFrame-long (b ∷ bytes) (inr there) = omega (arith, HasFrame-long bytes there)

long-step :
    (b : ℕ) (bytes : Bytes)
    → 12 ≤ length (b ∷ bytes)
    → frame_has_px4_heartbeat (b ∷ bytes)
      ≡ or_later (match_at (b ∷ bytes)) (frame_has_px4_heartbeat bytes)
unfolding frame_has_px4_heartbeat
long-step b bytes h = rw (le→leb 12 (length (b ∷ bytes)) h) refl

short-step :
    (b : ℕ) (bytes : Bytes)
    → length (b ∷ bytes) < 12
    → frame_has_px4_heartbeat (b ∷ bytes) ≡ some false
unfolding frame_has_px4_heartbeat
short-step b bytes h =
    let short : leb 12 (length (b ∷ bytes)) ≡ false = ground arith in rw short refl

or_later-total :
    (here later : Option Bool) → here ≢ none → later ≢ none → or_later here later ≢ none
or_later-total none later h k = h
or_later-total (some true) later h k = λ e. cc
or_later-total (some false) later h k = k

or_later-true :
    (here later : Option Bool)
    → or_later here later ≡ some true
    → (here ≡ some true) ⊎ (later ≡ some true)
or_later-true none later e = cc
or_later-true (some true) later e = inl refl
or_later-true (some false) later e = inr e

or_later-found :
    (here later : Option Bool) → here ≢ none → later ≡ some true → or_later here later ≡ some true
or_later-found none later h e = absurd (h refl)
or_later-found (some true) later h e = refl
or_later-found (some false) later h e = e

long_enough : (n : ℕ) → (n < 12 → ⊥) → 12 ≤ n
long_enough n h = ground (arith, h)

frame_has-total : (bytes : Bytes) → frame_has_px4_heartbeat bytes ≢ none
unfolding frame_has_px4_heartbeat
frame_has-total [] e = cc
frame_has-total (b ∷ bytes) e = elim (dec_lt (length (b ∷ bytes)) 12) [
  | yes short ↦ let step = short-step b bytes short in cc
  | no long ↦
      let enough = long_enough _ long in
      or_later-total (match_at (b ∷ bytes)) _ (match_at-total (b ∷ bytes) enough)
        (frame_has-total bytes) (sym (long-step b bytes enough) ∙ e)
]

frame_has_sound : (bytes : Bytes) → frame_has_px4_heartbeat bytes ≡ some true → HasFrame bytes
unfolding frame_has_px4_heartbeat
frame_has_sound [] e = cc
frame_has_sound (b ∷ bytes) e = elim (dec_lt (length (b ∷ bytes)) 12) [
  | yes short ↦ let step = short-step b bytes short in cc
  | no long ↦ elim (or_later-true _ _ (sym (long-step b bytes (long_enough _ long)) ∙ e)) [
    | inl here ↦ inl (match_at_sound (b ∷ bytes) here)
    | inr there ↦ inr (frame_has_sound bytes there)
  ]
]

begins-found : (bytes : Bytes) → BeginsFrame bytes → match_at bytes ≡ some true
begins-found bytes begins =
    ap match_at begins.split ∙ match_at_complete begins.frame begins.after begins.is_px4

frame_has_complete : (bytes : Bytes) → HasFrame bytes → frame_has_px4_heartbeat bytes ≡ some true
frame_has_complete [] h = absurd h
frame_has_complete (b ∷ bytes) (inl here) =
    let found = begins-found (b ∷ bytes) here in
    rw (long-step b bytes (BeginsFrame-long (b ∷ bytes) here), found) refl
frame_has_complete (b ∷ bytes) (inr there) =
    let enough = HasFrame-long (b ∷ bytes) (inr there) in
    long-step b bytes enough
    ∙ or_later-found (match_at (b ∷ bytes)) _ (match_at-total (b ∷ bytes) enough)
        (frame_has_complete bytes there)

-- Whatever bytes arrive, frameHasPX4Heartbeat does not index or slice out of range, and it says yes
-- exactly if a MAVLink 2 frame begins at some byte and is whole: a HEARTBEAT with a payload of 9
-- bytes or more from component 1 of a system other than 0 and 255, whose autopilot is PX4 and whose
-- checksum is right.
pub frame_has_px4_heartbeat_iff :
    (bytes : Bytes)
    → (frame_has_px4_heartbeat bytes ≢ none)
      × ((frame_has_px4_heartbeat bytes ≡ some true) ↔ HasFrame bytes)
frame_has_px4_heartbeat_iff bytes =
    (frame_has-total bytes, (frame_has_sound bytes, frame_has_complete bytes))
