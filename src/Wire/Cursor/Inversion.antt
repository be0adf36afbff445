-- ===== src/Wire/Cursor/Inversion.antt =====
-- What a read of auth/protocol.go that succeeds says of the bytes it was given.
use uavlink_edge.Common.{
  All-drop, All-take, [], ap, append_assoc, arith, length, length-take, refl, take-append-drop, ℕ,
  ◌%◌, ◌++◌, ◌^◌, ◌∷◌, ◌≡◌,
}
use mathlib.Core.Path.{subst}
use uavlink_edge.Wire.Bytes.{AreBytes, Bytes, IsByte, IsU16, IsU64, put_u16, put_u64}
use uavlink_edge.Wire.Cursor.{
  Outcome, ParseError, err, get_bytes, get_string, get_u16, get_u64, get_u8, header, ok, panic,
  put_string, ◌>>=◌,
}

-- If a read and what follows it succeed, then the read alone does.
>>=-ok {ℓ κ} :
    {S : Type ℓ} {T : Type κ} {t : T} (next : S → Outcome T) (read : Outcome S)
    → (read >>= next) ≡ ok t
    → (s : S) × (next s ≡ ok t) × (read ≡ ok s)
>>=-ok next panic done = cc
>>=-ok next (err _) done = cc
>>=-ok next (ok s) done = (s, done, refl)

pub header-ok : (t : ℕ) (c : Bytes) {r : Bytes} → header t c ≡ ok r → c ≡ t ∷ r
unfolding header
header-ok t [] h = ground arith
header-ok t (b ∷ c) h = ground arith

pub get_u8-ok :
    (e : ParseError) (c : Bytes) {b : ℕ} {r : Bytes} → get_u8 e c ≡ ok (b, r) → c ≡ b ∷ r
unfolding get_u8
get_u8-ok e [] h = ground arith
get_u8-ok e (b ∷ c) h = ground arith

pub get_u16-ok :
    (e : ParseError) (c : Bytes) {v : ℕ} {r : Bytes}
    → AreBytes c
    → get_u16 e c ≡ ok (v, r)
    → IsU16 v × (c ≡ put_u16 v ++ r) × AreBytes r
unfolding get_u16 put_u16
get_u16-ok e [] w h = ground arith
get_u16-ok e (a ∷ []) w h = ground arith
get_u16-ok e (a ∷ b ∷ c) w h = ground arith

pub get_bytes-ok :
    (e : ParseError) (n : ℕ) (c : Bytes) {s r : Bytes}
    → AreBytes c
    → get_bytes e n c ≡ ok (s, r)
    → (length s ≡ n) × (c ≡ s ++ r) × AreBytes s × AreBytes r
unfolding get_bytes
get_bytes-ok e n c w h =
    ground
      (arith, take-append-drop n c, length-take n c, All-take IsByte n c w, All-drop IsByte n c w)

pub get_u64-ok :
    (e : ParseError) (c : Bytes) {v : ℕ} {r : Bytes}
    → AreBytes c
    → get_u64 e c ≡ ok (v, r)
    → IsU64 v × (c ≡ put_u64 v ++ r) × AreBytes r
unfolding get_u64 put_u64
get_u64-ok e (b0 ∷ b1 ∷ b2 ∷ b3 ∷ b4 ∷ b5 ∷ b6 ∷ b7 ∷ c) w h = ground arith
get_u64-ok e _ w h = ground arith

put_string_rejoin :
    (n : ℕ) (c d s r : Bytes)
    → IsU16 n
    → c ≡ put_u16 n ++ d
    → length s ≡ n
    → d ≡ s ++ r
    → c ≡ put_string s ++ r
unfolding put_string
put_string_rejoin n c d s r hn hc hs hd =
    let fits : length s % 2 ^ 16 ≡ n = omega arith in
    cc (append_assoc (put_u16 (length s % 2 ^ 16)) s r)

pub get_string-ok :
    (e e' : ParseError) (c : Bytes) {s r : Bytes}
    → AreBytes c
    → get_string e e' c ≡ ok (s, r)
    → IsU16 (length s) × (c ≡ put_string s ++ r) × AreBytes s × AreBytes r
unfolding get_string
get_string-ok e e' c w h =
    let ((n, d), q, p) = >>=-ok (λ x. get_bytes e' x.0 x.1) (get_u16 e c) h in
    let (hn, hc, wd) = get_u16-ok e c w p in
    let (hs, hd, ws, wr) = get_bytes-ok e' n d wd q in
    (omega arith, put_string_rejoin n c d _ _ hn hc hs hd, ws, wr)

pub ok-injective {ℓ} : {A : Type ℓ} {a b : A} → ok a ≡ ok b → a ≡ b
ok-injective {A} {a} {b} h = ap (λ (m : Outcome A). value m) h
  where
    value : Outcome A → A
    value (ok x) = x
    value (err e) = a
    value panic = a

-- The same as rules for a parser's first step: what comes after is shown for every value read.
module _ {ℓ κ} {B : Type ℓ} (P : Type κ) (c : Bytes) {b : B} where
  pub after_header :
      (t : ℕ) (f : Bytes → Outcome B)
      → AreBytes c
      → (header t c >>= f) ≡ ok b
      → ((r : Bytes) → c ≡ t ∷ r → AreBytes r → f r ≡ ok b → P)
      → P
  after_header t f w h k =
      let (r, q, p) = >>=-ok f (header t c) h in
      let e = header-ok t c p in let wr : AreBytes (t ∷ r) = subst AreBytes e w in k r e wr.1 q

  pub after_u8 :
      (e : ParseError) (f : ℕ × Bytes → Outcome B)
      → AreBytes c
      → (get_u8 e c >>= f) ≡ ok b
      → ((v : ℕ) (r : Bytes) → IsByte v → c ≡ v ∷ r → AreBytes r → f (v, r) ≡ ok b → P)
      → P
  after_u8 e f w h k =
      let ((v, r), q, p) = >>=-ok f (get_u8 e c) h in
      let e = get_u8-ok e c p in
      let wr : AreBytes (v ∷ r) = subst AreBytes e w in k v r wr.0 e wr.1 q

  pub after_u16 :
      (e : ParseError) (f : ℕ × Bytes → Outcome B)
      → AreBytes c
      → (get_u16 e c >>= f) ≡ ok b
      → ((v : ℕ) (r : Bytes) → IsU16 v → c ≡ put_u16 v ++ r → AreBytes r → f (v, r) ≡ ok b → P)
      → P
  after_u16 e f w h k =
      let ((v, r), q, p) = >>=-ok f (get_u16 e c) h in
      let (fits, e, wr) = get_u16-ok e c w p in k v r fits e wr q

  pub after_u64 :
      (e : ParseError) (f : ℕ × Bytes → Outcome B)
      → AreBytes c
      → (get_u64 e c >>= f) ≡ ok b
      → ((v : ℕ) (r : Bytes) → IsU64 v → c ≡ put_u64 v ++ r → AreBytes r → f (v, r) ≡ ok b → P)
      → P
  after_u64 e f w h k =
      let ((v, r), q, p) = >>=-ok f (get_u64 e c) h in
      let (fits, e, wr) = get_u64-ok e c w p in k v r fits e wr q

  pub after_string :
      (e e' : ParseError) (f : Bytes × Bytes → Outcome B)
      → AreBytes c
      → (get_string e e' c >>= f) ≡ ok b
      → ((s r : Bytes)
          → IsU16 (length s)
          → c ≡ put_string s ++ r
          → AreBytes r
          → f (s, r) ≡ ok b
          → P)
      → P
  after_string e e' f w h k =
      let ((s, r), q, p) = >>=-ok f (get_string e e' c) h in
      let (fits, e, _, wr) = get_string-ok e e' c w p in k s r fits e wr q
