-- ===== src/Wire/SessionAcks.antt =====
-- ParseSessionAck and ParseSessionRefreshAck of auth/protocol.go against the documented formats.
use uavlink_edge.Common.{[], arith, inl, inr, refl, sym, ℕ, ◌↔◌, ◌∙◌, ◌∷◌, ◌≡◌, ◌≢◌, ◌⊎◌}
use uavlink_edge.Wire.AuthAcks.{FitsSession}
use uavlink_edge.Wire.Bytes.{AreBytes, Bytes, IsU16, IsU64}
use uavlink_edge.Wire.Codes.{msg_session_ack, msg_session_refresh_ack, result_success}
use uavlink_edge.Wire.Cursor.{Field, ok, too_short_for, try_u8}
use uavlink_edge.Wire.Cursor.Inversion.{after_string, after_u16, after_u64, ok-injective}
use uavlink_edge.Wire.Cursor.Laws.{
  get_string-put_string, get_u16-put_u16, get_u64-put_u64, get_u8-cons, header-cons,
}
use uavlink_edge.Wire.Cursor.Results.{body-failure, body-ok}
use uavlink_edge.Wire.Formats.{error_code_of, refresh_format, session_format}
use uavlink_edge.Wire.Replies.{
  SessionAck, SessionRefreshAck, parse_session_ack, parse_session_refresh_ack, refresh_ack_accepted,
  refresh_ack_rejected, session_ack_accepted, session_ack_rejected,
}

abbrev pub session_granted : Bytes → ℕ → ℕ → SessionAck
session_granted token expires interval = record {
  result = result_success;
  error_code = 0;
  token = token;
  expires_at = expires;
  interval = interval;
}

abbrev pub session_refused : ℕ → Bytes → SessionAck
session_refused result tail = record {
  result = result;
  error_code = error_code_of tail;
  token = [];
  expires_at = 0;
  interval = 0;
}

abbrev pub SessionGrants : Bytes → SessionAck → Type 0
SessionGrants packet ack =
    (token : Bytes) × (expires : ℕ) × (interval : ℕ) × (rest : Bytes) × (ack
      ≡ session_granted token expires interval)
    × (packet ≡ session_format msg_session_ack token expires interval rest)
    × FitsSession token expires interval

abbrev pub SessionRefuses : Bytes → SessionAck → Type 0
SessionRefuses packet ack =
    (result : ℕ) × (tail : Bytes) × (result ≢ result_success)
    × (packet ≡ msg_session_ack ∷ result ∷ tail)
    × (ack ≡ session_refused result tail)

session_accepted_sound :
    (c : Bytes) (ack : SessionAck)
    → AreBytes c
    → session_ack_accepted result_success c ≡ ok ack
    → SessionGrants (msg_session_ack ∷ result_success ∷ c) ack
unfolding session_ack_accepted session_format
session_accepted_sound c ack w h = after_string _ c _ _ _ w h λ s c1 fs e1 w1 k1.
    after_u64 _ c1 _ _ w1 k1 λ x c2 fx e2 w2 k2.
      after_u16 _ c2 _ _ w2 k2
        λ i c3 fi e3 w3 k3. (s, x, i, c3, sym (ok-injective k3), cc, (fs, fx, fi))

session_grant_complete :
    (token : Bytes) (expires interval : ℕ) (rest : Bytes)
    → FitsSession token expires interval
    → parse_session_ack (session_format msg_session_ack token expires interval rest)
      ≡ ok (session_granted token expires interval)
unfolding parse_session_ack session_ack_accepted session_format
session_grant_complete token expires interval rest (ht, he, hi) = rw (
  header-cons msg_session_ack _,
  get_u8-cons (too_short_for Field.result) result_success _,
  get_string-put_string _ _ token _ ht,
  get_u64-put_u64 _ expires _ he,
  get_u16-put_u16 _ interval _ hi,
)

session_rejected_refused :
    (result : ℕ) (c : Bytes) → session_ack_rejected result c ≡ ok (session_refused result c)
unfolding session_ack_rejected try_u8
session_rejected_refused result [] = refl
session_rejected_refused result (x ∷ c) = ground arith

session_sound :
    (packet : Bytes) (ack : SessionAck)
    → AreBytes packet
    → parse_session_ack packet ≡ ok ack
    → SessionGrants packet ack ⊎ SessionRefuses packet ack
unfolding parse_session_ack
session_sound packet ack w h =
    elim (body-ok msg_session_ack session_ack_accepted session_ack_rejected packet ack w h) [
      | inl (c, e, wc, k) ↦ inl (rw e (session_accepted_sound c ack wc k))
      | inr (r, c, n, e, wc, k) ↦
          inr (r, c, n, e, sym (ok-injective (sym (session_rejected_refused r c) ∙ k)))
    ]

session_complete :
    (packet : Bytes) (ack : SessionAck)
    → SessionGrants packet ack ⊎ SessionRefuses packet ack
    → parse_session_ack packet ≡ ok ack
session_complete packet ack (inl (s, x, i, rest, ea, ep, fits)) =
    rw (ea, ep) (session_grant_complete s x i rest fits)
session_complete packet ack (inr (r, tail, n, ep, ea)) =
    rw (ea, ep)
      (unfold parse_session_ack in
        body-failure msg_session_ack session_ack_accepted session_ack_rejected r tail n
        ∙ session_rejected_refused r tail)

-- ParseSessionAck returns an ack exactly for a grant in the documented format, whose token, expiry
-- and interval the ack carries, and for a packet with any other result byte, whose error code the
-- ack carries if it is there. Bytes behind either are ignored.
pub parse_session_ack_iff :
    (packet : Bytes) (ack : SessionAck)
    → AreBytes packet
    → (parse_session_ack packet ≡ ok ack) ↔ (SessionGrants packet ack ⊎ SessionRefuses packet ack)
parse_session_ack_iff packet ack w = (session_sound packet ack w, session_complete packet ack)

abbrev pub refresh_granted : ℕ → ℕ → SessionRefreshAck
refresh_granted expires interval = record {
  result = result_success;
  error_code = 0;
  expires_at = expires;
  interval = interval;
}

abbrev pub refresh_refused : ℕ → Bytes → SessionRefreshAck
refresh_refused result tail = record {
  result = result;
  error_code = error_code_of tail;
  expires_at = 0;
  interval = 0;
}

abbrev pub RefreshGrants : Bytes → SessionRefreshAck → Type 0
RefreshGrants packet ack =
    (expires : ℕ) × (interval : ℕ) × (rest : Bytes) × (ack ≡ refresh_granted expires interval)
    × (packet ≡ refresh_format expires interval rest)
    × (IsU64 expires × IsU16 interval)

abbrev pub RefreshRefuses : Bytes → SessionRefreshAck → Type 0
RefreshRefuses packet ack =
    (result : ℕ) × (tail : Bytes) × (result ≢ result_success)
    × (packet ≡ msg_session_refresh_ack ∷ result ∷ tail)
    × (ack ≡ refresh_refused result tail)

refresh_accepted_sound :
    (c : Bytes) (ack : SessionRefreshAck)
    → AreBytes c
    → refresh_ack_accepted result_success c ≡ ok ack
    → RefreshGrants (msg_session_refresh_ack ∷ result_success ∷ c) ack
unfolding refresh_ack_accepted refresh_format
refresh_accepted_sound c ack w h = after_u64 _ c _ _ w h λ x c1 fx e1 w1 k1.
    after_u16 _ c1 _ _ w1 k1 λ i c2 fi e2 w2 k2. (x, i, c2, sym (ok-injective k2), cc, (fx, fi))

refresh_grant_complete :
    (expires interval : ℕ) (rest : Bytes)
    → IsU64 expires
    → IsU16 interval
    → parse_session_refresh_ack (refresh_format expires interval rest)
      ≡ ok (refresh_granted expires interval)
unfolding parse_session_refresh_ack refresh_ack_accepted refresh_format
refresh_grant_complete expires interval rest he hi = rw (
  header-cons msg_session_refresh_ack _,
  get_u8-cons (too_short_for Field.result) result_success _,
  get_u64-put_u64 _ expires _ he,
  get_u16-put_u16 _ interval _ hi,
)

refresh_rejected_refused :
    (result : ℕ) (c : Bytes) → refresh_ack_rejected result c ≡ ok (refresh_refused result c)
unfolding refresh_ack_rejected try_u8
refresh_rejected_refused result [] = refl
refresh_rejected_refused result (x ∷ c) = ground arith

refresh_sound :
    (packet : Bytes) (ack : SessionRefreshAck)
    → AreBytes packet
    → parse_session_refresh_ack packet ≡ ok ack
    → RefreshGrants packet ack ⊎ RefreshRefuses packet ack
unfolding parse_session_refresh_ack
refresh_sound packet ack w h =
    elim (body-ok msg_session_refresh_ack refresh_ack_accepted refresh_ack_rejected packet ack w
      h) [
        | inl (c, e, wc, k) ↦ inl (rw e (refresh_accepted_sound c ack wc k))
        | inr (r, c, n, e, wc, k) ↦
            inr (r, c, n, e, sym (ok-injective (sym (refresh_rejected_refused r c) ∙ k)))
      ]

refresh_complete :
    (packet : Bytes) (ack : SessionRefreshAck)
    → RefreshGrants packet ack ⊎ RefreshRefuses packet ack
    → parse_session_refresh_ack packet ≡ ok ack
refresh_complete packet ack (inl (x, i, rest, ea, ep, fits)) =
    rw (ea, ep) (refresh_grant_complete x i rest fits.0 fits.1)
refresh_complete packet ack (inr (r, tail, n, ep, ea)) =
    rw (ea, ep)
      (unfold parse_session_refresh_ack in
        body-failure msg_session_refresh_ack refresh_ack_accepted refresh_ack_rejected r tail n
        ∙ refresh_rejected_refused r tail)

-- ParseSessionRefreshAck returns an ack exactly for an extension in the documented format, whose
-- expiry and interval the ack carries, and for a packet with any other result byte, whose error
-- code the ack carries if it is there. Bytes behind either are ignored.
pub parse_session_refresh_ack_iff :
    (packet : Bytes) (ack : SessionRefreshAck)
    → AreBytes packet
    → (parse_session_refresh_ack packet ≡ ok ack)
      ↔ (RefreshGrants packet ack ⊎ RefreshRefuses packet ack)
parse_session_refresh_ack_iff packet ack w =
    (refresh_sound packet ack w, refresh_complete packet ack)
