-- ===== src/Wire/RegisterReads.antt =====
-- SerializeRegisterInit, SerializeAPIKeyRequest and SerializeVPNProvisionRequest of
-- auth/protocol.go against a reader of their documented formats.
use uavlink_edge.Common.{
  Bool-cases, [], append-nil, arith, inl, inr, length, length-take, ltb, ltb→ge, refl, suc, sym,
  take, take_all, zero, ℕ, ◌∷◌, ◌≡◌, ◌≤◌,
}
use uavlink_edge.Wire.Bytes.{Bytes, IsU16, put_u16}
use uavlink_edge.Wire.Codes.{max_register_model_len, msg_register_init}
use uavlink_edge.Wire.Cursor.{
  Outcome, err, get_bytes, get_string, get_u16, header, ok, packet_too_short, put_string, ◌>>=◌,
}
use uavlink_edge.Wire.Cursor.Laws.{
  get_bytes-append, get_string-put_string, get_u16-put_u16, header-cons,
}
use uavlink_edge.Wire.Requests.{
  clip_model, register_trailer, serialize_api_key_request, serialize_register_init,
  serialize_vpn_provision_request,
}

abbrev word : Bytes → Outcome (Bytes × Bytes)
word c = get_string packet_too_short packet_too_short c

-- [VehicleType:1][ModelLen:1][Model:0..32], or nothing.
abbrev read_trailer : Bytes → Outcome (ℕ × Bytes)
read_trailer [] = ok (0, [])
read_trailer (vehicle_type ∷ []) = err packet_too_short
read_trailer (vehicle_type ∷ n ∷ c) = do
  (model, c) ← get_bytes packet_too_short n c
  ok (vehicle_type, model)

-- [TYPE:1][UUID_LEN:2 LE][UUID], then the trailer: v1 and v2 of REGISTER_INIT.
abbrev pub read_register_init : Bytes → Outcome (Bytes × ℕ × Bytes)
read_register_init packet = do
  c ← header msg_register_init packet
  (uuid, c) ← word c
  (vehicle_type, model) ← read_trailer c
  ok (uuid, vehicle_type, model)

clip_model-take : (model : Bytes) → clip_model model ≡ take max_register_model_len model
unfolding clip_model
clip_model-take model = elim (Bool-cases (ltb 32 (length model))) [
  | inl longer ↦ rw longer
  | inr short ↦ rw short (sym (take_all 32 model (ltb→ge 32 (length model) short)))
]

trailer_reads :
    (vehicle_type : ℕ) (model : Bytes)
    → length model ≤ 32
    → read_trailer (register_trailer vehicle_type model) ≡ ok (vehicle_type, model)
trailer_reads zero [] h = refl
trailer_reads (suc v) [] h = ground (arith, get_bytes-append packet_too_short [] [])
trailer_reads v (m ∷ ms) h =
    ground (arith, get_bytes-append packet_too_short (m ∷ ms) [], append-nil (m ∷ ms))

-- What is read back, with nothing left over.
abbrev pub RegisterInitReads : Bytes → ℕ → Bytes → Type 0
RegisterInitReads uuid vehicle_type model =
    read_register_init (
      serialize_register_init
        (record { drone_uuid = uuid; vehicle_type = vehicle_type; model = model }))
    ≡ ok (uuid, vehicle_type, take max_register_model_len model)

-- REGISTER_INIT is read back, for a UUID of at most 65535 bytes: the UUID, the vehicle type, and
-- the first 32 bytes of the model. So the short packet of version 1, which is sent when both are
-- empty, is told from version 2.
pub register_init_reads :
    (uuid : Bytes) (vehicle_type : ℕ) (model : Bytes)
    → IsU16 (length uuid)
    → RegisterInitReads uuid vehicle_type model
unfolding serialize_register_init
register_init_reads uuid vehicle_type model hu = rw (
  header-cons msg_register_init _,
  get_string-put_string _ _ uuid _ hu,
  clip_model-take model,
  trailer_reads vehicle_type (take 32 model) (omega (arith, length-take 32 model)),
)

-- The parts of an API key request and of a VPN request, in order.
abbrev pub read_api_key_request : Bytes → Outcome (Bytes × Bytes × ℕ × Bytes)
read_api_key_request packet = do
  c ← header 0x20 packet
  (uuid, c) ← word c
  (token, c) ← word c
  (hours, c) ← get_u16 packet_too_short c
  ok (uuid, token, hours, c)

abbrev pub read_vpn_request : Bytes → Outcome (Bytes × Bytes × Bytes × Bytes)
read_vpn_request packet = do
  c ← header 0xB0 packet
  (uuid, c) ← word c
  (token, c) ← word c
  (key, c) ← word c
  ok (uuid, token, key, c)

-- What is read back, with nothing left over.
abbrev pub KeyRequestsRead : Bytes → Bytes → Bytes → ℕ → Type 0
KeyRequestsRead uuid token key hours =
    (read_api_key_request (
        serialize_api_key_request
          (record { drone_uuid = uuid; session_token = token; expiration_hours = hours }))
      ≡ ok (uuid, token, hours, []))
    × (read_vpn_request (
          serialize_vpn_provision_request
            (record { drone_uuid = uuid; session_token = token; wg_public_key = key }))
        ≡ ok (uuid, token, key, []))

-- A request for an API key is read back with its UUID, token and hours, and a VPN request with its
-- UUID, token and public key, if the strings have at most 65535 bytes and the hours 16 bits.
pub key_requests_read :
    (uuid token key : Bytes) (hours : ℕ)
    → IsU16 (length uuid)
    → IsU16 (length token)
    → IsU16 (length key)
    → IsU16 hours
    → KeyRequestsRead uuid token key hours
unfolding serialize_api_key_request serialize_vpn_provision_request
key_requests_read uuid token key hours hu ht hk hh = (
  rw (← append-nil (put_u16 hours), header-cons 0x20 _)
      (rw (
        get_string-put_string _ _ uuid _ hu,
        get_string-put_string _ _ token _ ht,
        get_u16-put_u16 _ hours _ hh,
      )),
  rw (← append-nil (put_string key), header-cons 0xB0 _)
      (rw (
        get_string-put_string _ _ uuid _ hu,
        get_string-put_string _ _ token _ ht,
        get_string-put_string _ _ key _ hk,
      )),
)
