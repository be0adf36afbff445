-- ===== src/Witness/Wire.antt =====
-- auth/protocol.go at concrete packets.
use uavlink_edge.Common.{[], arith, refl, ℕ, ◌∷◌, ◌≡◌, ◌⊎◌}
use uavlink_edge.Wire.AuthAcks.{Grants, Refuses, parse_auth_ack_iff}
use uavlink_edge.Wire.Bytes.{Bytes, put_u16}
use uavlink_edge.Wire.Cursor.{
  Field, err, get_bytes, get_string, get_u16, get_u64, get_u8, header, ok, put_string,
  too_short_for, try_u16, try_u8,
}
use uavlink_edge.Wire.Formats.{granted, refused}
use uavlink_edge.Wire.KeyReplies.{VpnProvisionAck, parse_vpn_provision_ack, vpn_ack_accepted}
use uavlink_edge.Wire.Replies.{
  RegisterAck, auth_ack_accepted, auth_ack_rejected, parse_auth_ack, parse_auth_challenge,
  parse_register_ack, parse_register_challenge, parse_session_ack, parse_session_refresh_ack,
  refresh_ack_accepted, register_ack_accepted, session_ack_rejected,
}
use uavlink_edge.Wire.Requests.{clip_model, serialize_register_init}
use uavlink_edge.Wire.SessionAcks.{refresh_granted, session_refused}
use uavlink_edge.Wire.SetupAcks.{register_granted}
use uavlink_edge.Wire.VpnAcks.{vpn_granted}

-- AUTH_ACK: token "ab", expiry 1000, interval 30, and one byte more.
abbrev grant : Bytes
grant = 0x04 ∷ 0x00 ∷ 2 ∷ 0 ∷ 97 ∷ 98 ∷ 0xE8 ∷ 0x03 ∷ 0 ∷ 0 ∷ 0 ∷ 0 ∷ 0 ∷ 0 ∷ 30 ∷ 0 ∷ 9 ∷ []

grant_runs : parse_auth_ack grant ≡ ok (granted (97 ∷ 98 ∷ []) 1000 30)
unfolding parse_auth_ack auth_ack_accepted header get_u8 get_u16 get_u64 get_bytes get_string
grant_runs = refl

-- A refusal with error code 3 and a wait of 0x0102 seconds.
refusal_runs : parse_auth_ack (0x04 ∷ 1 ∷ 3 ∷ 2 ∷ 1 ∷ []) ≡ ok (refused 1 (3 ∷ 2 ∷ 1 ∷ []))
unfolding parse_auth_ack auth_ack_rejected header get_u8 try_u8 try_u16
refusal_runs = refl

cut_runs : parse_auth_ack (0x04 ∷ 0 ∷ 2 ∷ 0 ∷ 97 ∷ []) ≡ err (too_short_for Field.token_data)
unfolding parse_auth_ack auth_ack_accepted header get_u8 get_u16 get_bytes get_string
cut_runs = refl

short_init_runs :
    serialize_register_init (record { drone_uuid = 7 ∷ []; vehicle_type = 0; model = [] })
    ≡ 0xA0 ∷ 1 ∷ 0 ∷ 7 ∷ []
unfolding serialize_register_init clip_model put_string put_u16
short_init_runs = refl

parse_auth_ack_iff_example :
    Grants grant (granted (97 ∷ 98 ∷ []) 1000 30) ⊎ Refuses grant (granted (97 ∷ 98 ∷ []) 1000 30)
parse_auth_ack_iff_example =
    (parse_auth_ack_iff grant (granted (97 ∷ 98 ∷ []) 1000 30) (omega arith)).0 grant_runs

-- SESSION_ACK, SESSION_REFRESH_ACK, REGISTER_ACK and the VPN ack, refused with error code 7.
session_refusal_runs : parse_session_ack (0x11 ∷ 1 ∷ 7 ∷ []) ≡ ok (session_refused 1 (7 ∷ []))
unfolding parse_session_ack session_ack_rejected header get_u8 try_u8
session_refusal_runs = refl

-- SESSION_REFRESH_ACK: expiry 5, interval 30.
abbrev extension : Bytes
extension = 0x13 ∷ 0 ∷ 5 ∷ 0 ∷ 0 ∷ 0 ∷ 0 ∷ 0 ∷ 0 ∷ 0 ∷ 30 ∷ 0 ∷ []

extension_runs : parse_session_refresh_ack extension ≡ ok (refresh_granted 5 30)
unfolding parse_session_refresh_ack refresh_ack_accepted header get_u8 get_u16 get_u64
extension_runs = refl

-- REGISTER_ACK: key "k", token "t", expiry 5, interval 30.
abbrev registration : Bytes
registration = 0xA3 ∷ 0 ∷ 1 ∷ 0 ∷ 107 ∷ 1 ∷ 0 ∷ 116 ∷ 5 ∷ 0 ∷ 0 ∷ 0 ∷ 0 ∷ 0 ∷ 0 ∷ 0 ∷ 30 ∷ 0 ∷ []

abbrev registered : RegisterAck
registered = register_granted (107 ∷ []) (116 ∷ []) 5 30

registration_runs : parse_register_ack registration ≡ ok registered
unfolding parse_register_ack register_ack_accepted header get_u8 get_u16 get_u64 get_bytes
    get_string
registration_runs = refl

abbrev tunnel : Bytes
tunnel = 0xB1 ∷ 0 ∷ 1 ∷ 0 ∷ 49 ∷ 1 ∷ 0 ∷ 50 ∷ 1 ∷ 0 ∷ 51 ∷ []

abbrev provisioned : VpnProvisionAck
provisioned = vpn_granted (49 ∷ []) (50 ∷ []) (51 ∷ [])

tunnel_runs : parse_vpn_provision_ack tunnel ≡ ok provisioned
unfolding parse_vpn_provision_ack vpn_ack_accepted get_u16 get_bytes get_string
tunnel_runs = refl

abbrev nonce_packet : ℕ → Bytes
nonce_packet type = type ∷ 2 ∷ 0 ∷ 8 ∷ 9 ∷ 60 ∷ 0 ∷ []

challenge_runs :
    parse_auth_challenge (nonce_packet 0x02) ≡ ok (record { nonce = 8 ∷ 9 ∷ []; timeout_sec = 60 })
unfolding parse_auth_challenge header get_u16 get_bytes get_string
challenge_runs = refl

register_challenge_runs :
    parse_register_challenge (nonce_packet 0xA1)
    ≡ ok (record { nonce = 8 ∷ 9 ∷ []; timeout_sec = 60 })
unfolding parse_register_challenge header get_u16 get_bytes get_string
register_challenge_runs = refl
