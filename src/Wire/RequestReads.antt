-- ===== src/Wire/RequestReads.antt =====
-- The Serialize functions of auth/protocol.go against a reader of the documented formats: what the
-- router recovers from each packet. The readers are the reference, and no code of the drone.
use uavlink_edge.Common.{[], append-nil, length, ℕ, ◌++◌, ◌∷◌, ◌≡◌}
use uavlink_edge.Wire.Bytes.{Bytes, IsU16, IsU64, put_u64}
use uavlink_edge.Wire.Cursor.{
  Outcome, get_string, get_u64, header, ok, packet_too_short, put_string, ◌>>=◌,
}
use uavlink_edge.Wire.Cursor.Laws.{get_string-put_string, get_u64-put_u64, header-cons}
use uavlink_edge.Wire.Requests.{
  serialize_api_key_delete, serialize_api_key_revoke, serialize_api_key_status,
  serialize_auth_response, serialize_register_response, serialize_session_refresh,
  serialize_session_request,
}

-- Errors do not matter here: a packet that does not fit gives some error.
abbrev word : Bytes → Outcome (Bytes × Bytes)
word c = get_string packet_too_short packet_too_short c

-- [TYPE:1][LEN:2][A:var]
abbrev read_one : ℕ → Bytes → Outcome (Bytes × Bytes)
read_one type packet = do c ← header type packet; word c

-- [TYPE:1][LEN:2][A:var][LEN:2][B:var]
abbrev pub read_two : ℕ → Bytes → Outcome (Bytes × Bytes × Bytes)
read_two type packet = do (a, c) ← read_one type packet; (b, c) ← word c; ok (a, b, c)

read_one-put :
    (type : ℕ) (a rest : Bytes)
    → IsU16 (length a)
    → read_one type (type ∷ (put_string a ++ rest)) ≡ ok (a, rest)
read_one-put type a rest ha = rw (header-cons type _, get_string-put_string _ _ a _ ha)

read_two-put :
    (type : ℕ) (a b rest : Bytes)
    → IsU16 (length a)
    → IsU16 (length b)
    → read_two type (type ∷ (put_string a ++ (put_string b ++ rest))) ≡ ok (a, b, rest)
read_two-put type a b rest ha hb =
    rw (read_one-put type a (put_string b ++ rest) ha, get_string-put_string _ _ b _ hb)

read_two-put_end :
    (type : ℕ) (a b : Bytes)
    → IsU16 (length a)
    → IsU16 (length b)
    → read_two type (type ∷ (put_string a ++ put_string b)) ≡ ok (a, b, [])
read_two-put_end type a b ha hb = rw (← append-nil (put_string b)) (read_two-put type a b [] ha hb)

-- What is read back, with nothing left over.
abbrev pub TokenRequestsRead : Bytes → Bytes → Type 0
TokenRequestsRead uuid token =
    (read_two 0x10
        (serialize_session_request (record { drone_uuid = uuid; old_session_token = token }))
      ≡ ok (uuid, token, []))
    × (read_two 0x12
          (serialize_session_refresh (record { session_token = token; drone_uuid = uuid }))
        ≡ ok (token, uuid, []))
    × (read_two 0x22
          (serialize_api_key_revoke (record { drone_uuid = uuid; session_token = token }))
        ≡ ok (uuid, token, []))
    × (read_two 0x24
          (serialize_api_key_status (record { drone_uuid = uuid; session_token = token }))
        ≡ ok (uuid, token, []))
    × (read_two 0x26
          (serialize_api_key_delete (record { drone_uuid = uuid; session_token = token }))
        ≡ ok (uuid, token, []))

-- The packets of a UUID and a session token, of at most 65535 bytes each, are read back: a session
-- request and a refresh (whose token stands first), and a revocation, a status query and a deletion
-- of an API key, each under its own type byte and with nothing left over.
pub token_requests_read :
    (uuid token : Bytes) → IsU16 (length uuid) → IsU16 (length token) → TokenRequestsRead uuid token
unfolding serialize_session_request serialize_session_refresh serialize_api_key_revoke
    serialize_api_key_status serialize_api_key_delete
token_requests_read uuid token hu ht = (
  read_two-put_end _ uuid token hu ht,
  read_two-put_end _ token uuid ht hu,
  read_two-put_end _ uuid token hu ht,
  read_two-put_end _ uuid token hu ht,
  read_two-put_end _ uuid token hu ht,
)

-- [TYPE:1][UUID_LEN:2][UUID:var][HMAC_LEN:2][HMAC:var][TIMESTAMP:8], then what follows.
abbrev pub read_proof : ℕ → Bytes → Outcome (Bytes × Bytes × ℕ × Bytes)
read_proof type packet = do
  (uuid, hmac, c) ← read_two type packet
  (timestamp, c) ← get_u64 packet_too_short c
  ok (uuid, hmac, timestamp, c)

read_proof-put :
    (type : ℕ) (a b : Bytes) (t : ℕ) (rest : Bytes)
    → IsU16 (length a)
    → IsU16 (length b)
    → IsU64 t
    → read_proof type (type ∷ (put_string a ++ (put_string b ++ (put_u64 t ++ rest))))
      ≡ ok (a, b, t, rest)
read_proof-put type a b t rest ha hb ht =
    rw (read_two-put type a b (put_u64 t ++ rest) ha hb, get_u64-put_u64 _ t _ ht)

abbrev pub read_address : Bytes × Bytes × ℕ × Bytes → Outcome (Bytes × Bytes × ℕ × Bytes × Bytes)
read_address (uuid, hmac, timestamp, c) = do (ip, c) ← word c; ok (uuid, hmac, timestamp, ip, c)

-- What is read back, with nothing left over.
abbrev pub ChallengeResponsesRead : Bytes → Bytes → ℕ → Bytes → Type 0
ChallengeResponsesRead uuid hmac timestamp ip =
    ((read_proof 0x03 (
          serialize_auth_response
            (record { drone_uuid = uuid; hmac = hmac; timestamp = timestamp; ip = ip }))
        >>= read_address)
      ≡ ok (uuid, hmac, timestamp, ip, []))
    × (read_proof 0xA2 (
          serialize_register_response
            (record { drone_uuid = uuid; hmac = hmac; timestamp = timestamp }))
        ≡ ok (uuid, hmac, timestamp, []))

-- The answers to a challenge are read back, if their strings have at most 65535 bytes and the
-- timestamp 64 bits: AUTH_RESPONSE with its UUID, HMAC, timestamp and address, REGISTER_RESPONSE
-- with the first three, and nothing left over.
pub challenge_responses_read :
    (uuid hmac : Bytes) (timestamp : ℕ) (ip : Bytes)
    → IsU16 (length uuid)
    → IsU16 (length hmac)
    → IsU64 timestamp
    → IsU16 (length ip)
    → ChallengeResponsesRead uuid hmac timestamp ip
unfolding serialize_auth_response serialize_register_response
challenge_responses_read uuid hmac timestamp ip hu hh ht hi = (
  rw
      (
        read_proof-put 0x03 uuid hmac timestamp (put_string ip) hu hh ht,
        ← append-nil (put_string ip),
      )
      (rw (get_string-put_string _ _ ip _ hi)),
  rw (← append-nil (put_u64 timestamp)) (read_proof-put 0xA2 uuid hmac timestamp [] hu hh ht),
)
