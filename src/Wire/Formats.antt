-- ===== src/Wire/Formats.antt =====
-- The reply formats that the comments of auth/protocol.go document, as the router writes them, and
-- the values that the drone is to read from them. They are the reference against which the Parse
-- functions are judged.
use uavlink_edge.Common.{[], ℕ, ◌++◌, ◌∷◌}
use uavlink_edge.Wire.Bytes.{Bytes, put_u16, put_u64, u16_of}
use uavlink_edge.Wire.Codes.{
  msg_api_key_response, msg_api_key_status_resp, msg_register_ack, msg_session_refresh_ack,
  msg_vpn_provision_ack, result_success,
}
use uavlink_edge.Wire.Cursor.{put_string}
use uavlink_edge.Wire.Replies.{AuthAck}

-- [TYPE:1][NONCE_LEN:2][NONCE:var][TIMEOUT:2]
unfoldable pub challenge_format : ℕ → Bytes → ℕ → Bytes → Bytes
challenge_format type nonce timeout rest = type ∷ (put_string nonce ++ (put_u16 timeout ++ rest))

-- [TYPE:1][RESULT:1][SESSION_TOKEN_LEN:2][SESSION_TOKEN:var][EXPIRES_AT:8][INTERVAL:2]
unfoldable pub session_format : ℕ → Bytes → ℕ → ℕ → Bytes → Bytes
session_format type token expires interval rest =
    type ∷ result_success ∷ (put_string token ++ (put_u64 expires ++ (put_u16 interval ++ rest)))

abbrev pub granted : Bytes → ℕ → ℕ → AuthAck
granted token expires interval = record {
  result = result_success;
  error_code = 0;
  wait_sec = 0;
  new_secret_key = [];
  session_token = token;
  expires_at = expires;
  interval = interval;
}

-- [TYPE:1][RESULT:1][ERROR_CODE:1][WAIT_SEC:2], where the code and then the wait may be missing.
abbrev pub error_code_of : Bytes → ℕ
error_code_of [] = 0
error_code_of (code ∷ _) = code

abbrev pub wait_sec_of : Bytes → ℕ
wait_sec_of [] = 0
wait_sec_of (_ ∷ []) = 0
wait_sec_of (_ ∷ _ ∷ []) = 0
wait_sec_of (_ ∷ a ∷ b ∷ _) = u16_of a b

abbrev pub refused : ℕ → Bytes → AuthAck
refused result tail = record {
  result = result;
  error_code = error_code_of tail;
  wait_sec = wait_sec_of tail;
  new_secret_key = [];
  session_token = [];
  expires_at = 0;
  interval = 0;
}

-- [TYPE:1][RESULT:1][EXPIRES_AT:8][INTERVAL:2]
unfoldable pub refresh_format : ℕ → ℕ → Bytes → Bytes
refresh_format expires interval rest =
    msg_session_refresh_ack ∷ result_success ∷ (put_u64 expires ++ (put_u16 interval ++ rest))

-- [TYPE:1][RESULT:1][SECRET_KEY_LEN:2][SECRET_KEY:var][SESSION_TOKEN_LEN:2][SESSION_TOKEN:var]
-- [EXPIRES_AT:8][INTERVAL:2]
unfoldable pub register_format : Bytes → Bytes → ℕ → ℕ → Bytes → Bytes
register_format secret token expires interval rest =
    msg_register_ack
    ∷ result_success
    ∷ (put_string secret ++ (put_string token ++ (put_u64 expires ++ (put_u16 interval ++ rest))))

-- [TYPE:1][RESULT:1] and the three strings of a provisioned tunnel, each behind its length.
unfoldable pub vpn_format : Bytes → Bytes → Bytes → Bytes → Bytes
vpn_format ip key endpoint rest =
    msg_vpn_provision_ack
    ∷ result_success
    ∷ (put_string ip ++ (put_string key ++ (put_string endpoint ++ rest)))

-- [TYPE:1][RESULT:1][ERROR_CODE:1], then [KEY_LEN:2][KEY:var][EXPIRES_AT:8] on success.
unfoldable pub key_format : ℕ → Bytes → ℕ → Bytes → Bytes
key_format error_code key expires rest =
    msg_api_key_response
    ∷ result_success
    ∷ error_code
    ∷ (put_string key ++ (put_u64 expires ++ rest))

-- [TYPE:1][HAS_KEY:1][STATUS_LEN:2][STATUS:var][API_KEY_LEN:2][API_KEY:var]
unfoldable pub status_format : ℕ → Bytes → Bytes → Bytes → Bytes
status_format has_key status key rest =
    msg_api_key_status_resp ∷ has_key ∷ (put_string status ++ (put_string key ++ rest))

-- The optional fields of a status: [CREATED:8][EXPIRES:8][USER_LEN:2][USER:var][ACTIVATED:8]
unfoldable pub details_format : ℕ → ℕ → Bytes → ℕ → Bytes → Bytes
details_format created expires user activated rest =
    put_u64 created ++ (put_u64 expires ++ (put_string user ++ (put_u64 activated ++ rest)))
