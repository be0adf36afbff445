-- ===== src/Wire/Cursor/Laws.antt =====
-- The readers of auth/protocol.go on what encoding/binary writes.
use uavlink_edge.Common.{
  Bool-cases, [], append_assoc, arith, drop, drop-length-append, inl, inr, leb, length,
  length-append, refl, take, take-length-append, ℕ, ◌%◌, ◌++◌, ◌^◌, ◌∷◌, ◌≡◌,
}
use uavlink_edge.Wire.Bytes.{
  Bytes, IsU16, IsU64, put_u16, put_u64, u16_of, u16_of-put_u16, u64_of, u64_of-put_u64,
}
use uavlink_edge.Wire.Cursor.{
  ParseError, get_bytes, get_string, get_u16, get_u64, get_u8, header, ok, put_string, try_string,
  try_u64,
}

pub get_u8-cons : (e : ParseError) (b : ℕ) (r : Bytes) → get_u8 e (b ∷ r) ≡ ok (b, r)
unfolding get_u8
get_u8-cons e b r = ground arith

pub get_u16-put_u16 :
    (e : ParseError) (v : ℕ) (r : Bytes) → IsU16 v → get_u16 e (put_u16 v ++ r) ≡ ok (v, r)
unfolding get_u16 put_u16
get_u16-put_u16 e v r h = ground (arith, u16_of-put_u16 v h)

pub get_u64-put_u64 :
    (e : ParseError) (v : ℕ) (r : Bytes) → IsU64 v → get_u64 e (put_u64 v ++ r) ≡ ok (v, r)
unfolding get_u64 put_u64
get_u64-put_u64 e v r h = ground (arith, u64_of-put_u64 v h)

pub get_bytes-append : (e : ParseError) (s r : Bytes) → get_bytes e (length s) (s ++ r) ≡ ok (s, r)
unfolding get_bytes
get_bytes-append e s r =
    ground (arith, length-append s r, take-length-append s r, drop-length-append s r)

pub get_string-put_string :
    (e e' : ParseError) (s r : Bytes)
    → IsU16 (length s)
    → get_string e e' (put_string s ++ r) ≡ ok (s, r)
unfolding get_string put_string
get_string-put_string e e' s r h =
    let fits : length s % 2 ^ 16 ≡ length s = omega arith in
    rw (append_assoc (put_u16 (length s % 2 ^ 16)) s r, fits, get_u16-put_u16 e _ _ h)
      (get_bytes-append e' s r)

pub header-cons : (t : ℕ) (r : Bytes) → header t (t ∷ r) ≡ ok r
unfolding header
header-cons t r = ground arith

pub try_u64-put_u64 : (v : ℕ) (r : Bytes) → IsU64 v → try_u64 (put_u64 v ++ r) ≡ ok (v, r)
unfolding try_u64 put_u64
try_u64-put_u64 v r h = ground (arith, u64_of-put_u64 v h)

pub try_string-put_string :
    (s r : Bytes) → IsU16 (length s) → try_string (put_string s ++ r) ≡ ok (s, r)
unfolding try_string put_string put_u16
try_string-put_string s r h = ground (
  arith,
  append_assoc (put_u16 (length s % 2 ^ 16)) s r,
  u16_of-put_u16 (length s) h,
  length-append s r,
  take-length-append s r,
  drop-length-append s r,
)

-- An optional read always succeeds.
pub try_u64_total : (c : Bytes) → (x : ℕ × Bytes) × (try_u64 c ≡ ok x)
unfolding try_u64
try_u64_total (a ∷ b ∷ c ∷ d ∷ e ∷ f ∷ g ∷ h ∷ r) = ((u64_of a b c d e f g h, r), ground arith)
try_u64_total c = ((0, c), refl)

pub try_string_total : (c : Bytes) → (x : Bytes × Bytes) × (try_string c ≡ ok x)
unfolding try_string
try_string_total [] = (([], []), refl)
try_string_total (a ∷ []) = (([], a ∷ []), refl)
try_string_total (a ∷ b ∷ c) = elim (Bool-cases (leb (u16_of a b) (length c))) [
  | inl y ↦ ((take (u16_of a b) c, drop (u16_of a b) c), ground arith)
  | inr n ↦ (([], c), ground arith)
]
