-- ===== src/Wire/Cursor/Safety.antt =====
-- No read of auth/protocol.go indexes or slices past the end of the packet.
use uavlink_edge.Common.{Bool, [], arith, false, if◌then◌else◌, refl, true, ℕ, ◌∷◌, ◌≢◌}
use uavlink_edge.Wire.Bytes.{Bytes}
use uavlink_edge.Wire.Cursor.{
  Outcome, ParseError, err, get_bytes, get_string, get_u16, get_u64, get_u8, header, ok, panic,
  try_string, try_u16, try_u64, try_u8, ◌>>=◌,
}

abbrev pub NoPanic {ℓ} : {A : Type ℓ} → Outcome A → Type ℓ
NoPanic m = m ≢ panic

pub >>=-NoPanic {ℓ κ} :
    {A : Type ℓ} {B : Type κ} (m : Outcome A) (f : A → Outcome B)
    → NoPanic m
    → ((a : A) → NoPanic (f a))
    → NoPanic (m >>= f)
>>=-NoPanic (ok a) f hm hf = hf a
>>=-NoPanic (err e) f hm hf = λ p. cc
>>=-NoPanic panic f hm hf = absurd (hm refl)

pub ok-NoPanic {ℓ} : {A : Type ℓ} (a : A) → NoPanic (ok a)
ok-NoPanic a p = cc

pub header-NoPanic : (t : ℕ) (c : Bytes) → NoPanic (header t c)
unfolding header
header-NoPanic t [] = λ p. ground arith
header-NoPanic t (b ∷ c) = λ p. ground arith

pub get_u8-NoPanic : (e : ParseError) (c : Bytes) → NoPanic (get_u8 e c)
unfolding get_u8
get_u8-NoPanic e [] = λ p. ground arith
get_u8-NoPanic e (b ∷ c) = λ p. ground arith

pub get_u16-NoPanic : (e : ParseError) (c : Bytes) → NoPanic (get_u16 e c)
unfolding get_u16
get_u16-NoPanic e [] = λ p. ground arith
get_u16-NoPanic e (a ∷ []) = λ p. ground arith
get_u16-NoPanic e (a ∷ b ∷ c) = λ p. ground arith

pub get_u64-NoPanic : (e : ParseError) (c : Bytes) → NoPanic (get_u64 e c)
unfolding get_u64
get_u64-NoPanic e (b0 ∷ b1 ∷ b2 ∷ b3 ∷ b4 ∷ b5 ∷ b6 ∷ b7 ∷ c) = λ p. ground arith
get_u64-NoPanic e _ = λ p. ground arith

pub get_bytes-NoPanic : (e : ParseError) (n : ℕ) (c : Bytes) → NoPanic (get_bytes e n c)
unfolding get_bytes
get_bytes-NoPanic e n c = λ p. ground arith

pub get_string-NoPanic : (e e' : ParseError) (c : Bytes) → NoPanic (get_string e e' c)
unfolding get_string
get_string-NoPanic e e' c =
    >>=-NoPanic (get_u16 e c) _ (get_u16-NoPanic e c) (λ x. get_bytes-NoPanic e' x.0 x.1)

pub try_u8-NoPanic : (c : Bytes) → NoPanic (try_u8 c)
unfolding try_u8
try_u8-NoPanic [] = λ p. ground arith
try_u8-NoPanic (b ∷ c) = λ p. ground arith

pub try_u16-NoPanic : (c : Bytes) → NoPanic (try_u16 c)
unfolding try_u16
try_u16-NoPanic [] = λ p. ground arith
try_u16-NoPanic (a ∷ []) = λ p. ground arith
try_u16-NoPanic (a ∷ b ∷ c) = λ p. ground arith

pub try_u64-NoPanic : (c : Bytes) → NoPanic (try_u64 c)
unfolding try_u64
try_u64-NoPanic (b0 ∷ b1 ∷ b2 ∷ b3 ∷ b4 ∷ b5 ∷ b6 ∷ b7 ∷ c) = λ p. ground arith
try_u64-NoPanic _ = λ p. ground arith

pub try_string-NoPanic : (c : Bytes) → NoPanic (try_string c)
unfolding try_string
try_string-NoPanic [] = λ p. ground arith
try_string-NoPanic (a ∷ []) = λ p. ground arith
try_string-NoPanic (a ∷ b ∷ c) = λ p. ground arith

pub if-NoPanic {ℓ} :
    {A : Type ℓ} (b : Bool) (x y : Outcome A) → NoPanic x → NoPanic y → NoPanic (if b then x else y)
if-NoPanic true x y hx hy = hx
if-NoPanic false x y hx hy = hy

-- The rules with which a parser is shown not to panic.
pub ruleset no_panic = (
  >>=-NoPanic, if-NoPanic, ok-NoPanic, header-NoPanic, get_u8-NoPanic, get_u16-NoPanic,
  get_u64-NoPanic, get_string-NoPanic, try_u8-NoPanic, try_u16-NoPanic, try_u64-NoPanic,
  try_string-NoPanic,
)
