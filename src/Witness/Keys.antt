-- ===== src/Witness/Keys.antt =====
-- The API key messages of auth/protocol.go, and the packets that the drone sends, at concrete
-- inputs.
use uavlink_edge.Common.{[], arith, refl, ◌∷◌, ◌≡◌, ◌⊎◌}
use uavlink_edge.Wire.Bytes.{Bytes}
use uavlink_edge.Wire.Cursor.{get_bytes, get_string, get_u16, get_u64, get_u8, ok}
use uavlink_edge.Wire.Cursor.Safety.{NoPanic}
use uavlink_edge.Wire.KeyAcks.{
  KeyGrants, KeyRefuses, key_granted, parse_api_key_response_from_offset_iff,
}
use uavlink_edge.Wire.KeyReplies.{
  api_key_granted, parse_api_key_delete_ack, parse_api_key_response,
  parse_api_key_response_from_offset, parse_api_key_revoke_ack, parse_api_key_status_response,
  parse_vpn_provision_ack,
}
use uavlink_edge.Wire.Replies.{
  parse_auth_ack, parse_auth_challenge, parse_register_ack, parse_register_challenge,
  parse_session_ack, parse_session_refresh_ack,
}
use uavlink_edge.Wire.Safety.{parsers-NoPanic}

abbrev key_packet : Bytes
key_packet = 0x21 ∷ 0 ∷ 0 ∷ 1 ∷ 0 ∷ 75 ∷ 5 ∷ 0 ∷ 0 ∷ 0 ∷ 0 ∷ 0 ∷ 0 ∷ 0 ∷ []

key_runs : parse_api_key_response_from_offset key_packet ≡ ok (key_granted 0 (75 ∷ []) 5)
unfolding parse_api_key_response_from_offset api_key_granted get_u8 get_u16 get_u64 get_bytes
    get_string
key_runs = refl

parse_api_key_response_from_offset_iff_example :
    KeyGrants key_packet (key_granted 0 (75 ∷ []) 5)
    ⊎ KeyRefuses key_packet (key_granted 0 (75 ∷ []) 5)
parse_api_key_response_from_offset_iff_example =
    (parse_api_key_response_from_offset_iff key_packet (key_granted 0 (75 ∷ []) 5) (omega arith)).0
      key_runs

parsers-NoPanic_example :
    NoPanic (parse_auth_challenge (0x21 ∷ 0 ∷ []))
    × NoPanic (parse_auth_ack (0x21 ∷ 0 ∷ []))
    × NoPanic (parse_session_ack (0x21 ∷ 0 ∷ []))
    × NoPanic (parse_session_refresh_ack (0x21 ∷ 0 ∷ []))
    × NoPanic (parse_register_challenge (0x21 ∷ 0 ∷ []))
    × NoPanic (parse_register_ack (0x21 ∷ 0 ∷ []))
    × NoPanic (parse_api_key_response (0x21 ∷ 0 ∷ []))
    × NoPanic (parse_api_key_revoke_ack (0x21 ∷ 0 ∷ []))
    × NoPanic (parse_api_key_status_response (0x21 ∷ 0 ∷ []))
    × NoPanic (parse_api_key_delete_ack (0x21 ∷ 0 ∷ []))
    × NoPanic (parse_vpn_provision_ack (0x21 ∷ 0 ∷ []))
parsers-NoPanic_example = parsers-NoPanic (0x21 ∷ 0 ∷ [])
