-- ===== src/Wire/Bytes.antt =====
-- Byte slices and encoding/binary's LittleEndian as auth/protocol.go uses it. A []byte and a Go
-- string are a list of numbers below 256; an unsigned integer is a number with its width's bound.
use uavlink_edge.Common.{All, List, [], arith, ℕ, ◌%◌, ◌*◌, ◌+◌, ◌/◌, ◌<◌, ◌^◌, ◌∷◌, ◌≡◌}

abbrev pub Bytes : Type 0
Bytes = List ℕ

abbrev pub IsByte : ℕ → Type 0
IsByte b = b < 256

abbrev pub AreBytes : Bytes → Type 0
AreBytes = All IsByte

abbrev pub IsU16 : ℕ → Type 0
IsU16 n = n < 2 ^ 16

abbrev pub IsU64 : ℕ → Type 0
IsU64 n = n < 2 ^ 64

-- The conversion uint16(n) of an int that is not negative.
abbrev pub uint16 : ℕ → ℕ
uint16 n = n % 2 ^ 16

-- LittleEndian.PutUint16 and PutUint64 into a fresh buffer.
unfoldable pub put_u16 : ℕ → Bytes
put_u16 v = v % 256 ∷ v / 2 ^ 8 % 256 ∷ []

unfoldable pub put_u64 : ℕ → Bytes
put_u64 v =
    v % 256
    ∷ v / 2 ^ 8 % 256
    ∷ v / 2 ^ 16 % 256
    ∷ v / 2 ^ 24 % 256
    ∷ v / 2 ^ 32 % 256
    ∷ v / 2 ^ 40 % 256
    ∷ v / 2 ^ 48 % 256
    ∷ v / 2 ^ 56 % 256
    ∷ []

-- LittleEndian.Uint16 and Uint64 of the bytes, lowest first.
abbrev pub u16_of : ℕ → ℕ → ℕ
u16_of a b = a + b * 2 ^ 8

abbrev pub u64_of : ℕ → ℕ → ℕ → ℕ → ℕ → ℕ → ℕ → ℕ → ℕ
u64_of a b c d e f g h =
    a + b * 2 ^ 8 + c * 2 ^ 16 + d * 2 ^ 24 + e * 2 ^ 32 + f * 2 ^ 40 + g * 2 ^ 48 + h * 2 ^ 56

pub u16_of-put_u16 : (v : ℕ) → IsU16 v → u16_of (v % 256) (v / 2 ^ 8 % 256) ≡ v
u16_of-put_u16 v h = omega arith

pub u16_of-IsU16 : (a b : ℕ) → IsByte a → IsByte b → IsU16 (u16_of a b)
u16_of-IsU16 a b ha hb = omega arith

pub put_u16-u16_of : (a b : ℕ) → IsByte a → IsByte b → put_u16 (u16_of a b) ≡ a ∷ b ∷ []
unfolding put_u16
put_u16-u16_of a b ha hb = ground arith

pub u64_of-put_u64 :
    (v : ℕ)
    → IsU64 v
    → u64_of
        (v % 256)
        (v / 2 ^ 8 % 256)
        (v / 2 ^ 16 % 256)
        (v / 2 ^ 24 % 256)
        (v / 2 ^ 32 % 256)
        (v / 2 ^ 40 % 256)
        (v / 2 ^ 48 % 256)
        (v / 2 ^ 56 % 256)
      ≡ v
u64_of-put_u64 v h = omega arith
