-- ===== src/Wire/Cursor.antt =====
-- How the parsers of auth/protocol.go walk a packet. The cursor is data[offset:], so the test
-- len(data) < offset+k reads length c < k, and offset += k drops k bytes. An index or a slice that
-- Go checks at run time panics out of range.
pub mod Laws
pub mod Inversion
pub mod Safety
pub mod Results
use uavlink_edge.Common.{
  [], drop, get_elem?, if◌then◌else◌, leb, length, ltb, none, some, take, ℕ, ◌++◌, ◌==◌, ◌∷◌,
}
use uavlink_edge.Wire.Bytes.{Bytes, put_u16, u16_of, u64_of, uint16}

-- What an error message of a parser speaks of.
pub data Field : Type 0 where
  result error_code nonce_length nonce_data timeout token_length token_data expires_at : Field
  interval key_length key_data has_active_key status_length status_data api_key_length : Field
  api_key_data secret_key session_token assigned_ip server_public_key server_endpoint : Field

pub data ParseError : Type 0 where
  packet_too_short : ParseError
  invalid_type : ℕ → ℕ → ParseError
  too_short_for : Field → ParseError
  short_prefix short_string : Field → ParseError
  packet_incomplete : ℕ → ℕ → ParseError

-- A Go pair (value, error), or a run-time panic.
pub data Outcome {ℓ} (A : Type ℓ) : Type ℓ where
  ok : A → Outcome A
  err : ParseError → Outcome A
  panic : Outcome A

infixl 5 ◌>>=◌ ◌>>◌
abbrev pub ◌>>=◌ {ℓ κ} : {A : Type ℓ} {B : Type κ} → Outcome A → (A → Outcome B) → Outcome B
ok a >>= f = f a
err e >>= f = err e
panic >>= f = panic

abbrev pub ◌>>◌ {ℓ} : {B : Type ℓ} → Outcome (Unit {0}) → Outcome B → Outcome B
m >> k = m >>= λ _. k

-- data[offset]; offset++
abbrev pub slice_u8 : Bytes → Outcome (ℕ × Bytes)
slice_u8 [] = panic
slice_u8 (b ∷ c) = ok (b, c)

-- data[i]
abbrev pub index : Bytes → ℕ → Outcome ℕ
index c i = elim (get_elem? c i) [ none ↦ panic | some b ↦ ok b ]

-- Uint16(data[offset : offset+2]); offset += 2
abbrev pub slice_u16 : Bytes → Outcome (ℕ × Bytes)
slice_u16 (a ∷ b ∷ c) = ok (u16_of a b, c)
slice_u16 _ = panic

-- Uint64(data[offset : offset+8]); offset += 8
abbrev slice_u64 : Bytes → Outcome (ℕ × Bytes)
slice_u64 (a ∷ b ∷ c ∷ d ∷ e ∷ f ∷ g ∷ h ∷ r) = ok (u64_of a b c d e f g h, r)
slice_u64 _ = panic

-- data[offset : offset+n]; offset += n
abbrev slice : ℕ → Bytes → Outcome (Bytes × Bytes)
slice n c = if ltb (length c) n then panic else ok (take n c, drop n c)

-- if len(data) < offset+n { return nil, e }
abbrev pub need : ℕ → ParseError → Bytes → Outcome (Unit {0})
need n e c = if ltb (length c) n then err e else ok tt

unfoldable pub get_u8 : ParseError → Bytes → Outcome (ℕ × Bytes)
get_u8 e c = do need 1 e c; slice_u8 c

unfoldable pub get_u16 : ParseError → Bytes → Outcome (ℕ × Bytes)
get_u16 e c = do need 2 e c; slice_u16 c

unfoldable pub get_u64 : ParseError → Bytes → Outcome (ℕ × Bytes)
get_u64 e c = do need 8 e c; slice_u64 c

unfoldable pub get_bytes : ParseError → ℕ → Bytes → Outcome (Bytes × Bytes)
get_bytes e n c = do need n e c; slice n c

-- A length in two bytes, then that many bytes.
unfoldable pub get_string : ParseError → ParseError → Bytes → Outcome (Bytes × Bytes)
get_string e_length e_data c = do (n, c) ← get_u16 e_length c; get_bytes e_data n c

-- The reads of optional trailing fields: if the bytes are there they are taken, and else the
-- field keeps its zero value and the offset stays.
unfoldable pub try_u8 : Bytes → Outcome (ℕ × Bytes)
try_u8 c = if leb 1 (length c) then slice_u8 c else ok (0, c)

unfoldable pub try_u16 : Bytes → Outcome (ℕ × Bytes)
try_u16 c = if leb 2 (length c) then slice_u16 c else ok (0, c)

unfoldable pub try_u64 : Bytes → Outcome (ℕ × Bytes)
try_u64 c = if leb 8 (length c) then slice_u64 c else ok (0, c)

abbrev slice_if : ℕ → Bytes → Outcome (Bytes × Bytes)
slice_if n c = if leb n (length c) then slice n c else ok ([], c)

unfoldable pub try_string : Bytes → Outcome (Bytes × Bytes)
try_string c = if leb 2 (length c) then (do (n, c) ← slice_u16 c; slice_if n c) else ok ([], c)

-- if data[0] != expected { return nil, ... }
abbrev pub expect : ℕ → ℕ → Outcome (Unit {0})
expect t b = if b == t then ok tt else err (invalid_type b t)

-- The length test and the type byte with which most parsers begin.
unfoldable pub header : ℕ → Bytes → Outcome Bytes
header t c = do need 1 packet_too_short c; (b, c) ← slice_u8 c; expect t b; ok c

-- buf := PutUint16(uint16(len(s))); packet = append(append(packet, buf...), s...)
unfoldable pub put_string : Bytes → Bytes
put_string s = put_u16 (uint16 (length s)) ++ s
