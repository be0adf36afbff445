-- ===== src/Wire/KeyReplies.antt =====
-- The replies to API key and VPN requests: their structs and Parse functions of auth/protocol.go.
use uavlink_edge.Common.{Bool, [], false, if◌then◌else◌, leb, length, ℕ, ◌+◌, ◌==◌}
use uavlink_edge.Wire.Bytes.{Bytes, uint16}
use uavlink_edge.Wire.Codes.{
  msg_api_key_delete_ack, msg_api_key_response, msg_api_key_revoke_ack, msg_api_key_status_resp,
  msg_vpn_provision_ack, result_success,
}
use uavlink_edge.Wire.Cursor.{
  Field, Outcome, expect, get_string, get_u64, get_u8, header, index, need, ok, packet_incomplete,
  packet_too_short, short_prefix, short_string, slice_u16, slice_u8, too_short_for, try_string,
  try_u64, try_u8, ◌>>=◌, ◌>>◌,
}

pub record ApiKeyResponse : Type 0 where
  pub result : ℕ
  pub error_code : ℕ
  pub api_key : Bytes
  pub expires_at : ℕ

pub record ApiKeyRevokeAck : Type 0 where
  pub result : ℕ
  pub error_code : ℕ

pub record ApiKeyStatusResponse : Type 0 where
  pub has_active_key : ℕ
  pub status : Bytes
  pub api_key : Bytes
  pub created_at : ℕ
  pub expires_at : ℕ
  pub user_uuid : Bytes
  pub user_activated_at : ℕ

pub record ApiKeyDeleteAck : Type 0 where
  pub result : ℕ
  pub error_code : ℕ

pub record VpnProvisionAck : Type 0 where
  pub result : ℕ
  pub error_code : ℕ
  pub assigned_ip : Bytes
  pub server_public_key : Bytes
  pub server_endpoint : Bytes

-- The branch result == 0x00 of parseAPIKeyResponseFromOffset.
unfoldable pub api_key_granted : ℕ → ℕ → Bytes → Outcome ApiKeyResponse
api_key_granted result error_code c = do
  (api_key, c) ← get_string (too_short_for Field.key_length) (too_short_for Field.key_data) c
  (expires_at, c) ← get_u64 (too_short_for Field.expires_at) c
  ok (record {
    result = result;
    error_code = error_code;
    api_key = api_key;
    expires_at = expires_at;
  })

-- The cursor is data[offset:] for the offset given.
unfoldable pub parse_api_key_response_from_offset : Bytes → Outcome ApiKeyResponse
parse_api_key_response_from_offset c = do
  (b, c) ← slice_u8 c
  expect msg_api_key_response b
  (result, c) ← get_u8 (too_short_for Field.result) c
  (error_code, c) ← get_u8 (too_short_for Field.error_code) c
  if result == result_success
      then api_key_granted result error_code c
      else ok (record { result = result; error_code = error_code; api_key = []; expires_at = 0 })

-- len(data) >= 3 && data[2] == MsgAPIKeyResponse
unfoldable pub has_length_prefix : Bytes → Outcome Bool
has_length_prefix packet =
    if leb 3 (length packet)
    then (do b ← index packet 2; ok (b == msg_api_key_response))
    else ok false

-- [LENGTH:2][TYPE:1]...; the wanted length in the message is a uint16 sum.
unfoldable pub parse_api_key_response_framed : Bytes → Outcome ApiKeyResponse
parse_api_key_response_framed packet = do
  (payload_length, c) ← slice_u16 packet
  need (payload_length + 2) (packet_incomplete (uint16 (payload_length + 2)) (length packet)) packet
  parse_api_key_response_from_offset c

-- [TYPE:1]...
unfoldable pub parse_api_key_response_unframed : Bytes → Outcome ApiKeyResponse
parse_api_key_response_unframed packet = do
  b ← index packet 0
  expect msg_api_key_response b
  parse_api_key_response_from_offset packet

unfoldable pub parse_api_key_response : Bytes → Outcome ApiKeyResponse
parse_api_key_response packet = do
  need 1 packet_too_short packet
  framed ← has_length_prefix packet
  if framed then parse_api_key_response_framed packet else parse_api_key_response_unframed packet

unfoldable pub parse_api_key_revoke_ack : Bytes → Outcome ApiKeyRevokeAck
parse_api_key_revoke_ack packet = do
  c ← header msg_api_key_revoke_ack packet
  (result, c) ← get_u8 (too_short_for Field.result) c
  (error_code, c) ← if result == result_success then ok (0, c) else try_u8 c
  ok (record { result = result; error_code = error_code })

-- The fields that follow when has_active_key is 0x01, each only if its bytes are there.
unfoldable pub status_details : ApiKeyStatusResponse → Bytes → Outcome ApiKeyStatusResponse
status_details resp c = do
  (created_at, c) ← try_u64 c
  (expires_at, c) ← try_u64 c
  (user_uuid, c) ← try_string c
  (user_activated_at, c) ← try_u64 c
  ok (record resp {
    created_at = created_at;
    expires_at = expires_at;
    user_uuid = user_uuid;
    user_activated_at = user_activated_at;
  })

unfoldable pub parse_api_key_status_response : Bytes → Outcome ApiKeyStatusResponse
parse_api_key_status_response packet = do
  c ← header msg_api_key_status_resp packet
  (has_active_key, c) ← get_u8 (too_short_for Field.has_active_key) c
  (status, c) ← get_string (too_short_for Field.status_length) (too_short_for Field.status_data) c
  (api_key, c) ←
      get_string (too_short_for Field.api_key_length) (too_short_for Field.api_key_data) c
  let resp : ApiKeyStatusResponse = record {
    has_active_key = has_active_key;
    status = status;
    api_key = api_key;
    created_at = 0;
    expires_at = 0;
    user_uuid = [];
    user_activated_at = 0;
  }
  if has_active_key == 0x01 then status_details resp c else ok resp

unfoldable pub parse_api_key_delete_ack : Bytes → Outcome ApiKeyDeleteAck
parse_api_key_delete_ack packet = do
  c ← header msg_api_key_delete_ack packet
  (result, c) ← get_u8 (too_short_for Field.result) c
  (error_code, c) ← get_u8 (too_short_for Field.error_code) c
  ok (record { result = result; error_code = error_code })

-- The closure readStr, whose errors the caller wraps with the field's name.
abbrev read_str : Field → Bytes → Outcome (Bytes × Bytes)
read_str f c = get_string (short_prefix f) (short_string f) c

unfoldable pub vpn_ack_accepted : ℕ → Bytes → Outcome VpnProvisionAck
vpn_ack_accepted result c = do
  (assigned_ip, c) ← read_str Field.assigned_ip c
  (server_public_key, c) ← read_str Field.server_public_key c
  (server_endpoint, c) ← read_str Field.server_endpoint c
  ok (record {
    result = result;
    error_code = 0;
    assigned_ip = assigned_ip;
    server_public_key = server_public_key;
    server_endpoint = server_endpoint;
  })

unfoldable pub vpn_ack_rejected : ℕ → Bytes → Outcome VpnProvisionAck
vpn_ack_rejected result c = do
  (error_code, c) ← try_u8 c
  ok (record {
    result = result;
    error_code = error_code;
    assigned_ip = [];
    server_public_key = [];
    server_endpoint = [];
  })

-- Here the first length test asks for the result byte too.
unfoldable pub parse_vpn_provision_ack : Bytes → Outcome VpnProvisionAck
parse_vpn_provision_ack packet = do
  need 2 packet_too_short packet
  (b, c) ← slice_u8 packet
  expect msg_vpn_provision_ack b
  (result, c) ← slice_u8 c
  if result == result_success then vpn_ack_accepted result c else vpn_ack_rejected result c
