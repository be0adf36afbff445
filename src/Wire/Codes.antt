-- ===== src/Wire/Codes.antt =====
-- The message types, result codes and limits of auth/protocol.go and auth/vehicletype.go.
use uavlink_edge.Common.{ℕ}

abbrev pub msg_auth_init : ℕ
msg_auth_init = 0x01

abbrev pub msg_auth_challenge : ℕ
msg_auth_challenge = 0x02

abbrev pub msg_auth_response : ℕ
msg_auth_response = 0x03

abbrev pub msg_auth_ack : ℕ
msg_auth_ack = 0x04

abbrev pub msg_session_new : ℕ
msg_session_new = 0x10

abbrev pub msg_session_ack : ℕ
msg_session_ack = 0x11

abbrev pub msg_session_refresh : ℕ
msg_session_refresh = 0x12

abbrev pub msg_session_refresh_ack : ℕ
msg_session_refresh_ack = 0x13

abbrev pub msg_api_key_request : ℕ
msg_api_key_request = 0x20

abbrev pub msg_api_key_response : ℕ
msg_api_key_response = 0x21

abbrev pub msg_api_key_revoke : ℕ
msg_api_key_revoke = 0x22

abbrev pub msg_api_key_revoke_ack : ℕ
msg_api_key_revoke_ack = 0x23

abbrev pub msg_api_key_status : ℕ
msg_api_key_status = 0x24

abbrev pub msg_api_key_status_resp : ℕ
msg_api_key_status_resp = 0x25

abbrev pub msg_api_key_delete : ℕ
msg_api_key_delete = 0x26

abbrev pub msg_api_key_delete_ack : ℕ
msg_api_key_delete_ack = 0x27

abbrev pub msg_register_init : ℕ
msg_register_init = 0xA0

abbrev pub msg_register_challenge : ℕ
msg_register_challenge = 0xA1

abbrev pub msg_register_response : ℕ
msg_register_response = 0xA2

abbrev pub msg_register_ack : ℕ
msg_register_ack = 0xA3

abbrev pub msg_vpn_provision_request : ℕ
msg_vpn_provision_request = 0xB0

abbrev pub msg_vpn_provision_ack : ℕ
msg_vpn_provision_ack = 0xB1

abbrev pub result_success : ℕ
result_success = 0x00

abbrev pub err_rate_limited : ℕ
err_rate_limited = 0x03

abbrev pub err_internal_error : ℕ
err_internal_error = 0x05

abbrev pub err_session_expired : ℕ
err_session_expired = 0x06

abbrev pub err_invalid_token : ℕ
err_invalid_token = 0x07

abbrev pub max_register_model_len : ℕ
max_register_model_len = 32
