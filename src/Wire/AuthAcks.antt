-- ===== src/Wire/AuthAcks.antt =====
-- ParseAuthAck of auth/protocol.go against the documented format.
use uavlink_edge.Common.{[], arith, inl, inr, length, refl, sym, ℕ, ◌↔◌, ◌∙◌, ◌∷◌, ◌≡◌, ◌≢◌, ◌⊎◌}
use uavlink_edge.Wire.Bytes.{AreBytes, Bytes, IsU16, IsU64}
use uavlink_edge.Wire.Codes.{msg_auth_ack, result_success}
use uavlink_edge.Wire.Cursor.{Field, ok, too_short_for, try_u16, try_u8}
use uavlink_edge.Wire.Cursor.Inversion.{after_string, after_u16, after_u64, ok-injective}
use uavlink_edge.Wire.Cursor.Laws.{
  get_string-put_string, get_u16-put_u16, get_u64-put_u64, get_u8-cons, header-cons,
}
use uavlink_edge.Wire.Cursor.Results.{body-failure, body-ok}
use uavlink_edge.Wire.Formats.{granted, refused, session_format}
use uavlink_edge.Wire.Replies.{AuthAck, auth_ack_accepted, auth_ack_rejected, parse_auth_ack}

-- The values that fit their fields.
abbrev pub FitsSession : Bytes → ℕ → ℕ → Type 0
FitsSession token expires interval = IsU16 (length token) × IsU64 expires × IsU16 interval

auth_ack_complete :
    (token : Bytes) (expires interval : ℕ) (rest : Bytes)
    → FitsSession token expires interval
    → parse_auth_ack (session_format msg_auth_ack token expires interval rest)
      ≡ ok (granted token expires interval)
unfolding parse_auth_ack auth_ack_accepted session_format
auth_ack_complete token expires interval rest (ht, he, hi) = rw (
  header-cons msg_auth_ack _,
  get_u8-cons (too_short_for Field.result) result_success _,
  get_string-put_string _ _ token _ ht,
  get_u64-put_u64 _ expires _ he,
  get_u16-put_u16 _ interval _ hi,
)

-- The packet carries a session in the documented format, and the ack is that session.
abbrev pub Grants : Bytes → AuthAck → Type 0
Grants packet ack =
    (token : Bytes) × (expires : ℕ) × (interval : ℕ) × (rest : Bytes) × (ack
      ≡ granted token expires interval)
    × (packet ≡ session_format msg_auth_ack token expires interval rest)
    × FitsSession token expires interval

accepted_sound :
    (c : Bytes) (ack : AuthAck)
    → AreBytes c
    → auth_ack_accepted result_success c ≡ ok ack
    → Grants (msg_auth_ack ∷ result_success ∷ c) ack
unfolding auth_ack_accepted session_format
accepted_sound c ack w h = after_string _ c _ _ _ w h λ s c1 fs e1 w1 k1.
    after_u64 _ c1 _ _ w1 k1 λ x c2 fx e2 w2 k2.
      after_u16 _ c2 _ _ w2 k2
        λ i c3 fi e3 w3 k3. (s, x, i, c3, sym (ok-injective k3), cc, (fs, fx, fi))

-- Any other result byte is a refusal, whatever follows it.
abbrev pub Refuses : Bytes → AuthAck → Type 0
Refuses packet ack =
    (result : ℕ) × (tail : Bytes) × (result ≢ result_success)
    × (packet ≡ msg_auth_ack ∷ result ∷ tail)
    × (ack ≡ refused result tail)

rejected_refused : (result : ℕ) (c : Bytes) → auth_ack_rejected result c ≡ ok (refused result c)
unfolding auth_ack_rejected try_u8 try_u16
rejected_refused result [] = refl
rejected_refused result (x ∷ []) = refl
rejected_refused result (x ∷ a ∷ []) = refl
rejected_refused result (x ∷ a ∷ b ∷ c) = ground arith

ack_sound :
    (packet : Bytes) (ack : AuthAck)
    → AreBytes packet
    → parse_auth_ack packet ≡ ok ack
    → Grants packet ack ⊎ Refuses packet ack
unfolding parse_auth_ack
ack_sound packet ack w h =
    elim (body-ok msg_auth_ack auth_ack_accepted auth_ack_rejected packet ack w h) [
      | inl (c, e, wc, k) ↦ inl (rw e (accepted_sound c ack wc k))
      | inr (r, c, n, e, wc, k) ↦
          inr (r, c, n, e, sym (ok-injective (sym (rejected_refused r c) ∙ k)))
    ]

ack_complete :
    (packet : Bytes) (ack : AuthAck)
    → Grants packet ack ⊎ Refuses packet ack
    → parse_auth_ack packet ≡ ok ack
ack_complete packet ack (inl (s, x, i, rest, ea, ep, fits)) =
    rw (ea, ep) (auth_ack_complete s x i rest fits)
ack_complete packet ack (inr (r, tail, n, ep, ea)) =
    rw (ea, ep)
      (unfold parse_auth_ack in
        body-failure msg_auth_ack auth_ack_accepted auth_ack_rejected r tail n
        ∙ rejected_refused r tail)

-- ParseAuthAck returns an ack exactly for two kinds of packets, whatever bytes follow them: a
-- grant in the documented format, whose token, expiry and interval the ack carries, and a packet
-- with any other result byte, whose error code and wait the ack carries as far as they are there.
pub parse_auth_ack_iff :
    (packet : Bytes) (ack : AuthAck)
    → AreBytes packet
    → (parse_auth_ack packet ≡ ok ack) ↔ (Grants packet ack ⊎ Refuses packet ack)
parse_auth_ack_iff packet ack w = (ack_sound packet ack w, ack_complete packet ack)
