-- ===== src/Wire/SetupAcks.antt =====
-- ParseRegisterAck of auth/protocol.go against the documented format.
use uavlink_edge.Common.{[], arith, inl, inr, length, refl, sym, ℕ, ◌↔◌, ◌∙◌, ◌∷◌, ◌≡◌, ◌≢◌, ◌⊎◌}
use uavlink_edge.Wire.AuthAcks.{FitsSession}
use uavlink_edge.Wire.Bytes.{AreBytes, Bytes, IsU16}
use uavlink_edge.Wire.Codes.{msg_register_ack, result_success}
use uavlink_edge.Wire.Cursor.{Field, ok, too_short_for, try_u8}
use uavlink_edge.Wire.Cursor.Inversion.{after_string, after_u16, after_u64, ok-injective}
use uavlink_edge.Wire.Cursor.Laws.{
  get_string-put_string, get_u16-put_u16, get_u64-put_u64, get_u8-cons, header-cons,
}
use uavlink_edge.Wire.Cursor.Results.{body-failure, body-ok}
use uavlink_edge.Wire.Formats.{error_code_of, register_format}
use uavlink_edge.Wire.Replies.{
  RegisterAck, parse_register_ack, register_ack_accepted, register_ack_rejected,
}

abbrev pub register_granted : Bytes → Bytes → ℕ → ℕ → RegisterAck
register_granted secret token expires interval = record {
  result = result_success;
  error_code = 0;
  secret_key = secret;
  session_token = token;
  expires_at = expires;
  interval = interval;
}

abbrev pub register_refused : ℕ → Bytes → RegisterAck
register_refused result tail = record {
  result = result;
  error_code = error_code_of tail;
  secret_key = [];
  session_token = [];
  expires_at = 0;
  interval = 0;
}

abbrev pub RegisterGrants : Bytes → RegisterAck → Type 0
RegisterGrants packet ack =
    (secret : Bytes) × (token : Bytes) × (expires : ℕ) × (interval : ℕ) × (rest : Bytes) × (ack
      ≡ register_granted secret token expires interval)
    × (packet ≡ register_format secret token expires interval rest)
    × IsU16 (length secret)
    × FitsSession token expires interval

abbrev pub RegisterRefuses : Bytes → RegisterAck → Type 0
RegisterRefuses packet ack =
    (result : ℕ) × (tail : Bytes) × (result ≢ result_success)
    × (packet ≡ msg_register_ack ∷ result ∷ tail)
    × (ack ≡ register_refused result tail)

register_accepted_sound :
    (c : Bytes) (ack : RegisterAck)
    → AreBytes c
    → register_ack_accepted result_success c ≡ ok ack
    → RegisterGrants (msg_register_ack ∷ result_success ∷ c) ack
unfolding register_ack_accepted register_format
register_accepted_sound c ack w h = after_string _ c _ _ _ w h λ k c1 fk e1 w1 h1.
    after_string _ c1 _ _ _ w1 h1 λ s c2 fs e2 w2 h2. after_u64 _ c2 _ _ w2 h2 λ x c3 fx e3 w3 h3.
      after_u16 _ c3 _ _ w3 h3
        λ i c4 fi e4 w4 h4. (k, s, x, i, c4, sym (ok-injective h4), cc, fk, (fs, fx, fi))

register_grant_complete :
    (secret token : Bytes) (expires interval : ℕ) (rest : Bytes)
    → IsU16 (length secret)
    → FitsSession token expires interval
    → parse_register_ack (register_format secret token expires interval rest)
      ≡ ok (register_granted secret token expires interval)
unfolding parse_register_ack register_ack_accepted register_format
register_grant_complete secret token expires interval rest hk (ht, he, hi) = rw (
  header-cons msg_register_ack _,
  get_u8-cons (too_short_for Field.result) result_success _,
  get_string-put_string _ _ secret _ hk,
  get_string-put_string _ _ token _ ht,
  get_u64-put_u64 _ expires _ he,
  get_u16-put_u16 _ interval _ hi,
)

register_rejected_refused :
    (result : ℕ) (c : Bytes) → register_ack_rejected result c ≡ ok (register_refused result c)
unfolding register_ack_rejected try_u8
register_rejected_refused result [] = refl
register_rejected_refused result (x ∷ c) = ground arith

register_sound :
    (packet : Bytes) (ack : RegisterAck)
    → AreBytes packet
    → parse_register_ack packet ≡ ok ack
    → RegisterGrants packet ack ⊎ RegisterRefuses packet ack
unfolding parse_register_ack
register_sound packet ack w h =
    elim (body-ok msg_register_ack register_ack_accepted register_ack_rejected packet ack w h) [
      | inl (c, e, wc, k) ↦ inl (rw e (register_accepted_sound c ack wc k))
      | inr (r, c, n, e, wc, k) ↦
          inr (r, c, n, e, sym (ok-injective (sym (register_rejected_refused r c) ∙ k)))
    ]

register_complete :
    (packet : Bytes) (ack : RegisterAck)
    → RegisterGrants packet ack ⊎ RegisterRefuses packet ack
    → parse_register_ack packet ≡ ok ack
register_complete packet ack (inl (k, s, x, i, rest, ea, ep, fk, fits)) =
    rw (ea, ep) (register_grant_complete k s x i rest fk fits)
register_complete packet ack (inr (r, tail, n, ep, ea)) =
    rw (ea, ep)
      (unfold parse_register_ack in
        body-failure msg_register_ack register_ack_accepted register_ack_rejected r tail n
        ∙ register_rejected_refused r tail)

-- ParseRegisterAck returns an ack exactly for a grant in the documented format, whose secret key,
-- token, expiry and interval the ack carries, and for a packet with any other result byte, whose
-- error code the ack carries if it is there. Bytes behind either are ignored.
pub parse_register_ack_iff :
    (packet : Bytes) (ack : RegisterAck)
    → AreBytes packet
    → (parse_register_ack packet ≡ ok ack)
      ↔ (RegisterGrants packet ack ⊎ RegisterRefuses packet ack)
parse_register_ack_iff packet ack w = (register_sound packet ack w, register_complete packet ack)
