-- ===== src/Wire/Replies.antt =====
-- The packets that the drone receives for authentication, sessions and registration: the reply
-- structs and the Parse functions of auth/protocol.go. A field that a reply does not carry keeps
-- its zero value: 0, or the empty string.
use uavlink_edge.Common.{[], if◌then◌else◌, ℕ, ◌==◌}
use uavlink_edge.Wire.Bytes.{Bytes}
use uavlink_edge.Wire.Codes.{
  msg_auth_ack, msg_auth_challenge, msg_register_ack, msg_register_challenge, msg_session_ack,
  msg_session_refresh_ack, result_success,
}
use uavlink_edge.Wire.Cursor.{
  Field, Outcome, get_string, get_u16, get_u64, get_u8, header, ok, short_prefix, short_string,
  too_short_for, try_u16, try_u8, ◌>>=◌,
}

pub record AuthChallenge : Type 0 where
  pub nonce : Bytes
  pub timeout_sec : ℕ

pub record AuthAck : Type 0 where
  pub result : ℕ
  pub error_code : ℕ
  pub wait_sec : ℕ
  pub new_secret_key : Bytes
  pub session_token : Bytes
  pub expires_at : ℕ
  pub interval : ℕ

pub record SessionAck : Type 0 where
  pub result : ℕ
  pub error_code : ℕ
  pub token : Bytes
  pub expires_at : ℕ
  pub interval : ℕ

pub record SessionRefreshAck : Type 0 where
  pub result : ℕ
  pub error_code : ℕ
  pub expires_at : ℕ
  pub interval : ℕ

pub record RegisterChallenge : Type 0 where
  pub nonce : Bytes
  pub timeout_sec : ℕ

pub record RegisterAck : Type 0 where
  pub result : ℕ
  pub error_code : ℕ
  pub secret_key : Bytes
  pub session_token : Bytes
  pub expires_at : ℕ
  pub interval : ℕ

unfoldable pub parse_auth_challenge : Bytes → Outcome AuthChallenge
parse_auth_challenge packet = do
  c ← header msg_auth_challenge packet
  (nonce, c) ← get_string (too_short_for Field.nonce_length) (too_short_for Field.nonce_data) c
  (timeout_sec, c) ← get_u16 (too_short_for Field.timeout) c
  ok (record { nonce = nonce; timeout_sec = timeout_sec })

-- The branch ack.Result != ResultSuccess of ParseAuthAck.
unfoldable pub auth_ack_rejected : ℕ → Bytes → Outcome AuthAck
auth_ack_rejected result c = do
  (error_code, c) ← try_u8 c
  (wait_sec, c) ← try_u16 c
  ok (record {
    result = result;
    error_code = error_code;
    wait_sec = wait_sec;
    new_secret_key = [];
    session_token = [];
    expires_at = 0;
    interval = 0;
  })

unfoldable pub auth_ack_accepted : ℕ → Bytes → Outcome AuthAck
auth_ack_accepted result c = do
  (token, c) ← get_string (too_short_for Field.token_length) (too_short_for Field.token_data) c
  (expires_at, c) ← get_u64 (too_short_for Field.expires_at) c
  (interval, c) ← get_u16 (too_short_for Field.interval) c
  ok (record {
    result = result;
    error_code = 0;
    wait_sec = 0;
    new_secret_key = [];
    session_token = token;
    expires_at = expires_at;
    interval = interval;
  })

unfoldable pub parse_auth_ack : Bytes → Outcome AuthAck
parse_auth_ack packet = do
  c ← header msg_auth_ack packet
  (result, c) ← get_u8 (too_short_for Field.result) c
  if result == result_success then auth_ack_accepted result c else auth_ack_rejected result c

unfoldable pub session_ack_accepted : ℕ → Bytes → Outcome SessionAck
session_ack_accepted result c = do
  (token, c) ← get_string (too_short_for Field.token_length) (too_short_for Field.token_data) c
  (expires_at, c) ← get_u64 (too_short_for Field.expires_at) c
  (interval, c) ← get_u16 (too_short_for Field.interval) c
  ok (record {
    result = result;
    error_code = 0;
    token = token;
    expires_at = expires_at;
    interval = interval;
  })

unfoldable pub session_ack_rejected : ℕ → Bytes → Outcome SessionAck
session_ack_rejected result c = do
  (error_code, c) ← try_u8 c
  ok (record { result = result; error_code = error_code; token = []; expires_at = 0; interval = 0 })

unfoldable pub parse_session_ack : Bytes → Outcome SessionAck
parse_session_ack packet = do
  c ← header msg_session_ack packet
  (result, c) ← get_u8 (too_short_for Field.result) c
  if result == result_success then session_ack_accepted result c else session_ack_rejected result c

unfoldable pub refresh_ack_accepted : ℕ → Bytes → Outcome SessionRefreshAck
refresh_ack_accepted result c = do
  (expires_at, c) ← get_u64 (too_short_for Field.expires_at) c
  (interval, c) ← get_u16 (too_short_for Field.interval) c
  ok (record { result = result; error_code = 0; expires_at = expires_at; interval = interval })

unfoldable pub refresh_ack_rejected : ℕ → Bytes → Outcome SessionRefreshAck
refresh_ack_rejected result c = do
  (error_code, c) ← try_u8 c
  ok (record { result = result; error_code = error_code; expires_at = 0; interval = 0 })

unfoldable pub parse_session_refresh_ack : Bytes → Outcome SessionRefreshAck
parse_session_refresh_ack packet = do
  c ← header msg_session_refresh_ack packet
  (result, c) ← get_u8 (too_short_for Field.result) c
  if result == result_success then refresh_ack_accepted result c else refresh_ack_rejected result c

unfoldable pub parse_register_challenge : Bytes → Outcome RegisterChallenge
parse_register_challenge packet = do
  c ← header msg_register_challenge packet
  (nonce, c) ← get_string (too_short_for Field.nonce_length) (too_short_for Field.nonce_data) c
  (timeout_sec, c) ← get_u16 (too_short_for Field.timeout) c
  ok (record { nonce = nonce; timeout_sec = timeout_sec })

-- The closure readString, whose errors the caller wraps with the field's name.
abbrev read_string : Field → Bytes → Outcome (Bytes × Bytes)
read_string f c = get_string (short_prefix f) (short_string f) c

unfoldable pub register_ack_accepted : ℕ → Bytes → Outcome RegisterAck
register_ack_accepted result c = do
  (secret_key, c) ← read_string Field.secret_key c
  (session_token, c) ← read_string Field.session_token c
  (expires_at, c) ← get_u64 (too_short_for Field.expires_at) c
  (interval, c) ← get_u16 (too_short_for Field.interval) c
  ok (record {
    result = result;
    error_code = 0;
    secret_key = secret_key;
    session_token = session_token;
    expires_at = expires_at;
    interval = interval;
  })

unfoldable pub register_ack_rejected : ℕ → Bytes → Outcome RegisterAck
register_ack_rejected result c = do
  (error_code, c) ← try_u8 c
  ok (record {
    result = result;
    error_code = error_code;
    secret_key = [];
    session_token = [];
    expires_at = 0;
    interval = 0;
  })

unfoldable pub parse_register_ack : Bytes → Outcome RegisterAck
parse_register_ack packet = do
  c ← header msg_register_ack packet
  (result, c) ← get_u8 (too_short_for Field.result) c
  if result == result_success
      then register_ack_accepted result c
      else register_ack_rejected result c
