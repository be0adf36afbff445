-- ===== src/Forward/Keepalive/Laws.antt =====
-- What sendMavlinkKeepAlive of forwarder/forwarder.go sends.
use uavlink_edge.Common.{
  ==_iff, Bool, Bool-cases, List, Option, [], ap, arith, drop, false, if◌then◌else◌, inl, inr,
  length, length-append, length-take, ltb, none, refl, some, suc, sym, take, take-length-append,
  take_all, true, zero, ℕ, ◌%◌, ◌&&◌, ◌++◌, ◌+◌, ◌/◌, ◌<◌, ◌==◌, ◌^◌, ◌∙◌, ◌∷◌, ◌≡◌, ◌≢◌, ◌≤◌,
}
use mathlib.Core.Option.{some-injective}
use mathlib.Core.Path.{subst}
use uavlink_edge.Forward.Keepalive.{
  HbMode, KeepAlive, KeepReading, KeepState, build_keepalive, build_session_heartbeat_payload,
  byte_at, decode_hex, flag_of, hex_digit, keepalive_tick, keepalive_ticks, normal_mode, note_write,
  put_u32, shifted_mode, sized_token, tick_with,
}
use uavlink_edge.Wire.Bytes.{AreBytes, Bytes, put_u16}

-- The lower case digits of a byte.
abbrev pub hex_char : ℕ → ℕ
hex_char d = if ltb d 10 then d + 48 else d + 87

abbrev pub hex_text : Bytes → Bytes
hex_text [] = []
hex_text (b ∷ bs) = hex_char (b / 16) ∷ hex_char (b % 16) ∷ hex_text bs

hex_digit-hex_char : (d : ℕ) → d < 16 → hex_digit (hex_char d) ≡ some d
hex_digit-hex_char d h = ground arith

pub decode_hex-hex_text : (bs : Bytes) → AreBytes bs → decode_hex (hex_text bs) ≡ some bs
unfolding decode_hex
decode_hex-hex_text [] h = refl
decode_hex-hex_text (b ∷ bs) h = rw (hex_digit-hex_char (b / 16) (omega (arith, h.0))) (
    rw (hex_digit-hex_char (b % 16) (omega arith))
      (rw (decode_hex-hex_text bs h.1) (ap (λ n. some (n ∷ bs)) (omega arith))))

-- The fields in the order of MAVLink: larger ones first, else as declared.
abbrev pub laid_out : KeepAlive → Bytes
laid_out k = put_u32 k.expires_at_unix ++ put_u16 k.sequence ++ k.token ++ k.pixhawk_flag ∷ []

abbrev pub all_zero : Bytes → Bool
all_zero [] = true
all_zero (b ∷ bs) = b == 0 && all_zero bs

-- Without the zeros at the end, as MAVLink 2 sends a payload; one byte is always sent.
abbrev pub truncated : Bytes → Bytes
truncated [] = []
truncated (b ∷ bs) = if all_zero bs then b ∷ [] else b ∷ truncated bs

-- How gomavlib writes the payload of the message.
abbrev pub LaysOut : (KeepAlive → Bytes) → Type 0
LaysOut payload = (k : KeepAlive) → payload k ≡ truncated (laid_out k)

-- The next n bytes from an offset on, where a payload ends in zeros that were not sent.
abbrev pub read_filled : ℕ → ℕ → Bytes → Bytes
read_filled zero o bs = []
read_filled (suc n) o bs = byte_at o bs ∷ read_filled n (suc o) bs

byte_at-all_zero : (i : ℕ) (bs : Bytes) → all_zero bs ≡ true → byte_at i bs ≡ 0
byte_at-all_zero i [] h = refl
byte_at-all_zero zero (b ∷ bs) h = ground (arith, h)
byte_at-all_zero (suc i) (b ∷ bs) h = byte_at-all_zero i bs (ground (arith, h))

only_first : (i b : ℕ) (bs : Bytes) → all_zero bs ≡ true → byte_at i (b ∷ []) ≡ byte_at i (b ∷ bs)
only_first zero b bs h = refl
only_first (suc i) b bs h = sym (byte_at-all_zero i bs h)

behind_first :
    (i b : ℕ) (bs cs : Bytes)
    → ((n : ℕ) → byte_at n bs ≡ byte_at n cs)
    → byte_at i (b ∷ bs) ≡ byte_at i (b ∷ cs)
behind_first zero b bs cs h = refl
behind_first (suc i) b bs cs h = h i

byte_at-truncated : (i : ℕ) (bs : Bytes) → byte_at i (truncated bs) ≡ byte_at i bs
byte_at-truncated i [] = refl
byte_at-truncated i (b ∷ bs) = elim (Bool-cases (all_zero bs)) [
  | inl rest ↦ rw rest (only_first i b bs rest)
  | inr more ↦ rw more (behind_first i b (truncated bs) bs (λ n. byte_at-truncated n bs))
]

read_filled-truncated : (n o : ℕ) (bs : Bytes) → read_filled n o (truncated bs) ≡ read_filled n o bs
read_filled-truncated zero o bs = refl
read_filled-truncated (suc n) o bs =
    rw (byte_at-truncated o bs, read_filled-truncated n (suc o) bs) refl

byte_at-drop : (o : ℕ) (bs : Bytes) → o < length bs → drop o bs ≡ byte_at o bs ∷ drop (suc o) bs
byte_at-drop o [] h = absurd (omega (arith, h))
byte_at-drop zero (b ∷ bs) h = refl
byte_at-drop (suc o) (b ∷ bs) h = byte_at-drop o bs (omega (arith, h))

read_filled-take :
    (n o : ℕ) (bs : Bytes) → o + n ≤ length bs → read_filled n o bs ≡ take n (drop o bs)
read_filled-take zero o bs h = refl
read_filled-take (suc n) o bs h =
    ap (λ l. byte_at o bs ∷ l) (read_filled-take n (suc o) bs (omega (arith, h)))
    ∙ ap (take (suc n)) (sym (byte_at-drop o bs (omega (arith, h))))

length-laid_out : (k : KeepAlive) → length (laid_out k) ≡ length k.token + 7
unfolding put_u16
length-laid_out k = omega (arith, length-append k.token (k.pixhawk_flag ∷ []))

-- Where a server of either kind looks for the token.
abbrev pub offset : HbMode → ℕ
offset normal_mode = 6
offset shifted_mode = 7

take-byte_at : (n : ℕ) (bs : Bytes) → length bs ≡ suc n → take n bs ++ byte_at n bs ∷ [] ≡ bs
take-byte_at n [] h = absurd (omega arith)
take-byte_at zero (b ∷ []) h = refl
take-byte_at zero (b ∷ c ∷ bs) h = absurd (omega arith)
take-byte_at (suc n) (b ∷ bs) h = ap (λ l. b ∷ l) (take-byte_at n bs (omega arith))

-- The token of a reading, and that a message carries it.
abbrev pub HasToken : KeepReading → Bytes → Type 0
HasToken r bs = (decode_hex r.token_hex ≡ some bs) × (length bs ≡ 32)

-- What each tick does, from a sequence number on.
abbrev pub Sends :
    (KeepAlive → Bytes) → HbMode → ℕ → List KeepReading → List (Option KeepAlive) → Type 0
Sends payload mode n [] [] = Unit
Sends payload mode n [] (k ∷ ks) = ⊥
Sends payload mode n (r ∷ rs) [] = ⊥
Sends payload mode n (r ∷ rs) (none ∷ ks) =
    ((bs : Bytes) → ¬ HasToken r bs) × Sends payload mode n rs ks
Sends payload mode n (r ∷ rs) (some k ∷ ks) =
    HasToken r (read_filled 32 (offset mode) (payload k))
    × (k.sequence ≡ n)
    × Sends payload mode ((n + 1) % 2 ^ 16) rs ks

nothing_decoded : (t bs : Bytes) → length t ≡ 0 → decode_hex t ≡ some bs → length bs ≢ 32
unfolding decode_hex
nothing_decoded [] [] h e size = absurd (omega (arith, size))
nothing_decoded [] (b ∷ bs) h e size =
    let same : [] ≡ b ∷ bs = some-injective _ _ e in absurd (ground arith)
nothing_decoded (a ∷ t) bs h e size = absurd (omega (arith, h))

note_write-sequence : (b : Bool) (s : KeepState) → (note_write b s).next_sequence ≡ s.next_sequence
note_write-sequence true s = refl
note_write-sequence false s = refl

build_keepalive-sequence :
    (mode : HbMode) (bs : Bytes) (expires n : ℕ) (connected : Bool)
    → (build_keepalive mode bs expires n connected).sequence ≡ n
unfolding build_keepalive
build_keepalive-sequence normal_mode bs expires n connected = refl
build_keepalive-sequence shifted_mode bs expires n connected = refl

module _ (payload : KeepAlive → Bytes) (lays : LaysOut payload) where
  read-laid_out :
      (o : ℕ) (k : KeepAlive)
      → o ≤ 7
      → length k.token ≡ 32
      → read_filled 32 o (payload k) ≡ take 32 (drop o (laid_out k))
  read-laid_out o k near size =
      ap (read_filled 32 o) (lays k)
      ∙ read_filled-truncated 32 o (laid_out k)
      ∙ read_filled-take 32 o (laid_out k) (omega (arith, near, size, length-laid_out k))

  payload-token :
      (mode : HbMode) (bs : Bytes) (expires sequence : ℕ) (connected : Bool)
      → length bs ≡ 32
      → read_filled 32 (offset mode) (payload (build_keepalive mode bs expires sequence connected))
        ≡ bs
  unfolding build_keepalive put_u16
  payload-token normal_mode bs expires sequence connected h =
      read-laid_out 6 (build_keepalive normal_mode bs expires sequence connected) (omega arith) h
      ∙ subst (λ n. take n (bs ++ flag_of connected ∷ []) ≡ bs) h
          (take-length-append bs (flag_of connected ∷ []))
  payload-token shifted_mode bs expires sequence connected h =
      read-laid_out 7 (build_keepalive shifted_mode bs expires sequence connected) (omega arith)
        (omega (arith, h, length-take 31 bs))
      ∙ ap (take 32) (take-byte_at 31 bs h)
      ∙ take_all 32 bs (omega (arith, h))

  sized-inversion :
      (o : Option Bytes) (bs : Bytes) → sized_token o ≡ some bs → (o ≡ some bs) × (length bs ≡ 32)
  sized-inversion none bs h = absurd (ground arith)
  sized-inversion (some b) bs h = elim (Bool-cases (length b == 32)) [
    | inl fits ↦
        let given : some b ≡ some bs = rw fits at h in
        let same : b ≡ bs = some-injective _ _ given in
        (ap some same, ap length (sym same) ∙ (==_iff (length b) 32).0 fits)
    | inr other_size ↦ absurd (ground arith)
  ]

  sized-none : (o : Option Bytes) (bs : Bytes) → sized_token o ≡ none → o ≡ some bs → length bs ≢ 32
  sized-none none bs h e size = absurd (ground arith)
  sized-none (some b) bs h e size =
      let same : b ≡ bs = some-injective _ _ e in
      let fits : length b ≡ 32 = ap length same ∙ size in absurd (ground arith)

  -- The two branches of a tick.
  tick_with-Sends :
      (mode : HbMode) (r : KeepReading) (rs : List KeepReading) (s : KeepState) (o : Option Bytes)
      → sized_token (decode_hex r.token_hex) ≡ o
      → ((u : KeepState) → Sends payload mode u.next_sequence rs (keepalive_ticks mode rs u).1)
      → Sends payload mode s.next_sequence
          (r ∷ rs)
          ((tick_with mode r s o).1 ∷ (keepalive_ticks mode rs (tick_with mode r s o).0).1)
  tick_with-Sends mode r rs s none h rest = ((λ bs has. sized-none _ bs h has.0 has.1), rest s)
  tick_with-Sends mode r rs s (some decoded) h rest =
      let (e, size) = sized-inversion _ decoded h in
      let expires = r.expires_unix in
      let found = payload-token mode decoded expires s.next_sequence r.connected size in
      let next = record s { next_sequence = (s.next_sequence + 1) % 2 ^ 16 } in
      (
        (e ∙ ap some (sym found), ap length found ∙ size),
        build_keepalive-sequence mode decoded expires s.next_sequence r.connected,
        subst
            (λ n.
              Sends payload mode n rs
                (keepalive_ticks mode rs (note_write r.write_succeeds next)).1)
            (note_write-sequence r.write_succeeds next) (rest (note_write r.write_succeeds next)),
      )

  -- If gomavlib lays the fields out as MAVLink orders them and leaves out the zeros at the end of a
  -- payload: over any ticks from any state, a message is given to the sender exactly where the session
  -- has a token of 32 bytes in hex; a server that fills the payload with zeros again and reads 32 bytes
  -- at the offset of the mode finds this token, and the numbers of the messages follow each other up
  -- to the wrap-around of 16 bits.
  pub keepalive_ticks-Sends :
      (mode : HbMode) (rs : List KeepReading) (s : KeepState)
      → Sends payload mode s.next_sequence rs (keepalive_ticks mode rs s).1
  unfolding keepalive_ticks keepalive_tick
  keepalive_ticks-Sends mode [] s = tt
  keepalive_ticks-Sends mode (r ∷ rs) s = elim (Bool-cases (length r.token_hex == 0)) [
    | inl blank ↦ rw blank (
      (λ bs has. nothing_decoded _ bs ((==_iff _ _).0 blank) has.0 has.1),
      keepalive_ticks-Sends mode rs s,
    )
    | inr there ↦ rw there (tick_with-Sends mode r rs s _ refl (keepalive_ticks-Sends mode rs))
  ]

-- The payload for the fleet router has the hash of the token where the shifted mode has the token.
pub session_heartbeat_payload-hash :
    (sha256 : Bytes → Bytes) (token : Bytes) (expires sequence active : ℕ)
    → length (sha256 token) ≡ 32
    → take 32 (
        drop
          (offset shifted_mode)
          (build_session_heartbeat_payload sha256 token expires sequence active))
      ≡ sha256 token
unfolding build_session_heartbeat_payload put_u16
session_heartbeat_payload-hash sha256 token expires sequence active h =
    ap (take 32) (take_all 32 (sha256 token) (omega (arith, h)))
    ∙ take_all 32 (sha256 token) (omega (arith, h))
