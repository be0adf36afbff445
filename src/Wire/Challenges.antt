-- ===== src/Wire/Challenges.antt =====
-- ParseAuthChallenge and ParseRegisterChallenge of auth/protocol.go against their format.
use uavlink_edge.Common.{length, sym, ℕ, ◌↔◌, ◌≡◌}
use uavlink_edge.Wire.Bytes.{AreBytes, Bytes, IsU16}
use uavlink_edge.Wire.Codes.{msg_auth_challenge, msg_register_challenge}
use uavlink_edge.Wire.Cursor.{ok}
use uavlink_edge.Wire.Cursor.Inversion.{after_header, after_string, after_u16, ok-injective}
use uavlink_edge.Wire.Cursor.Laws.{get_string-put_string, get_u16-put_u16, header-cons}
use uavlink_edge.Wire.Formats.{challenge_format}
use uavlink_edge.Wire.Replies.{
  AuthChallenge, RegisterChallenge, parse_auth_challenge, parse_register_challenge,
}

abbrev pub IsChallenge : ℕ → Bytes → Bytes → ℕ → Type 0
IsChallenge type packet nonce timeout =
    (rest : Bytes) × (packet ≡ challenge_format type nonce timeout rest)
    × IsU16 (length nonce)
    × IsU16 timeout

parse_auth_challenge-IsChallenge :
    (packet : Bytes) (ch : AuthChallenge)
    → AreBytes packet
    → parse_auth_challenge packet ≡ ok ch
    → IsChallenge msg_auth_challenge packet ch.nonce ch.timeout_sec
unfolding parse_auth_challenge challenge_format
parse_auth_challenge-IsChallenge packet ch w h = after_header _ packet _ _ w h λ c e w0 h0.
    after_string _ c _ _ _ w0 h0 λ n c1 fn e1 w1 h1.
      after_u16 _ c1 _ _ w1 h1
        λ t c2 ft e2 w2 h2. let same = sym (ok-injective h2) in rw same (c2, (cc), fn, ft)

challenge_complete :
    (packet : Bytes) (ch : AuthChallenge)
    → IsChallenge msg_auth_challenge packet ch.nonce ch.timeout_sec
    → parse_auth_challenge packet ≡ ok ch
unfolding parse_auth_challenge challenge_format
challenge_complete packet ch (rest, e, fn, ft) = rw (
  e,
  header-cons msg_auth_challenge _,
  get_string-put_string _ _ ch.nonce _ fn,
  get_u16-put_u16 _ ch.timeout_sec _ ft,
)

-- ParseAuthChallenge returns a challenge exactly for the packets in the format of AUTH_CHALLENGE
-- with its nonce and timeout, whatever bytes follow.
pub parse_auth_challenge_iff :
    (packet : Bytes) (ch : AuthChallenge)
    → AreBytes packet
    → (parse_auth_challenge packet ≡ ok ch)
      ↔ IsChallenge msg_auth_challenge packet ch.nonce ch.timeout_sec
parse_auth_challenge_iff packet ch w =
    (parse_auth_challenge-IsChallenge packet ch w, challenge_complete packet ch)

parse_register_challenge-IsChallenge :
    (packet : Bytes) (ch : RegisterChallenge)
    → AreBytes packet
    → parse_register_challenge packet ≡ ok ch
    → IsChallenge msg_register_challenge packet ch.nonce ch.timeout_sec
unfolding parse_register_challenge challenge_format
parse_register_challenge-IsChallenge packet ch w h = after_header _ packet _ _ w h λ c e w0 h0.
    after_string _ c _ _ _ w0 h0 λ n c1 fn e1 w1 h1.
      after_u16 _ c1 _ _ w1 h1
        λ t c2 ft e2 w2 h2. let same = sym (ok-injective h2) in rw same (c2, (cc), fn, ft)

register_challenge_complete :
    (packet : Bytes) (ch : RegisterChallenge)
    → IsChallenge msg_register_challenge packet ch.nonce ch.timeout_sec
    → parse_register_challenge packet ≡ ok ch
unfolding parse_register_challenge challenge_format
register_challenge_complete packet ch (rest, e, fn, ft) = rw (
  e,
  header-cons msg_register_challenge _,
  get_string-put_string _ _ ch.nonce _ fn,
  get_u16-put_u16 _ ch.timeout_sec _ ft,
)

-- ParseRegisterChallenge returns a challenge exactly for the packets in the format of
-- REGISTER_CHALLENGE with its nonce and timeout, whatever bytes follow.
pub parse_register_challenge_iff :
    (packet : Bytes) (ch : RegisterChallenge)
    → AreBytes packet
    → (parse_register_challenge packet ≡ ok ch)
      ↔ IsChallenge msg_register_challenge packet ch.nonce ch.timeout_sec
parse_register_challenge_iff packet ch w =
    (parse_register_challenge-IsChallenge packet ch w, register_challenge_complete packet ch)
