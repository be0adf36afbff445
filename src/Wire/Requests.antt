-- ===== src/Wire/Requests.antt =====
-- The packets that the drone sends: the request structs and the Serialize functions of
-- auth/protocol.go. Strings are their bytes; byte counts go through the source's uint16().
use uavlink_edge.Common.{[], if◌then◌else◌, length, ltb, not, take, ℕ, ◌%◌, ◌++◌, ◌==◌, ◌||◌, ◌∷◌}
use uavlink_edge.Wire.Bytes.{Bytes, put_u16, put_u64}
use uavlink_edge.Wire.Codes.{
  max_register_model_len, msg_api_key_delete, msg_api_key_request, msg_api_key_revoke,
  msg_api_key_status, msg_auth_init, msg_auth_response, msg_register_init, msg_register_response,
  msg_session_new, msg_session_refresh, msg_vpn_provision_request,
}
use uavlink_edge.Wire.Cursor.{put_string}

pub record AuthInit : Type 0 where
  pub drone_uuid : Bytes

pub record AuthResponse : Type 0 where
  pub drone_uuid : Bytes
  pub hmac : Bytes
  pub timestamp : ℕ
  pub ip : Bytes

pub record SessionRequest : Type 0 where
  pub drone_uuid : Bytes
  pub old_session_token : Bytes

pub record SessionRefreshRequest : Type 0 where
  pub session_token : Bytes
  pub drone_uuid : Bytes

pub record RegisterInit : Type 0 where
  pub drone_uuid : Bytes
  pub vehicle_type : ℕ
  pub model : Bytes

pub record RegisterResponse : Type 0 where
  pub drone_uuid : Bytes
  pub hmac : Bytes
  pub timestamp : ℕ

pub record ApiKeyRequest : Type 0 where
  pub drone_uuid : Bytes
  pub session_token : Bytes
  pub expiration_hours : ℕ

pub record ApiKeyRevokeRequest : Type 0 where
  pub drone_uuid : Bytes
  pub session_token : Bytes

pub record ApiKeyStatusRequest : Type 0 where
  pub drone_uuid : Bytes
  pub session_token : Bytes

pub record ApiKeyDeleteRequest : Type 0 where
  pub drone_uuid : Bytes
  pub session_token : Bytes

pub record VpnProvisionRequest : Type 0 where
  pub drone_uuid : Bytes
  pub session_token : Bytes
  pub wg_public_key : Bytes

unfoldable pub serialize_auth_init : AuthInit → Bytes
serialize_auth_init init = msg_auth_init ∷ put_string init.drone_uuid

unfoldable pub serialize_auth_response : AuthResponse → Bytes
serialize_auth_response resp =
    msg_auth_response
    ∷ (put_string resp.drone_uuid
        ++ (put_string resp.hmac ++ (put_u64 resp.timestamp ++ put_string resp.ip)))

unfoldable pub serialize_session_request : SessionRequest → Bytes
serialize_session_request req =
    msg_session_new ∷ (put_string req.drone_uuid ++ put_string req.old_session_token)

unfoldable pub serialize_session_refresh : SessionRefreshRequest → Bytes
serialize_session_refresh req =
    msg_session_refresh ∷ (put_string req.session_token ++ put_string req.drone_uuid)

-- model = model[:MaxRegisterModelLen] if it is longer
unfoldable pub clip_model : Bytes → Bytes
clip_model model =
    if ltb max_register_model_len (length model) then take max_register_model_len model else model

-- uint8(len(model)) is at most 32.
abbrev pub register_trailer : ℕ → Bytes → Bytes
register_trailer vehicle_type model =
    if not (vehicle_type == 0) || ltb 0 (length model)
    then vehicle_type ∷ length model % 256 ∷ model
    else []

unfoldable pub serialize_register_init : RegisterInit → Bytes
serialize_register_init init =
    msg_register_init
    ∷ (put_string init.drone_uuid ++ register_trailer init.vehicle_type (clip_model init.model))

unfoldable pub serialize_register_response : RegisterResponse → Bytes
serialize_register_response resp =
    msg_register_response
    ∷ (put_string resp.drone_uuid ++ (put_string resp.hmac ++ put_u64 resp.timestamp))

unfoldable pub serialize_api_key_request : ApiKeyRequest → Bytes
serialize_api_key_request req =
    msg_api_key_request
    ∷ (put_string req.drone_uuid ++ (put_string req.session_token ++ put_u16 req.expiration_hours))

unfoldable pub serialize_api_key_revoke : ApiKeyRevokeRequest → Bytes
serialize_api_key_revoke req =
    msg_api_key_revoke ∷ (put_string req.drone_uuid ++ put_string req.session_token)

unfoldable pub serialize_api_key_status : ApiKeyStatusRequest → Bytes
serialize_api_key_status req =
    msg_api_key_status ∷ (put_string req.drone_uuid ++ put_string req.session_token)

unfoldable pub serialize_api_key_delete : ApiKeyDeleteRequest → Bytes
serialize_api_key_delete req =
    msg_api_key_delete ∷ (put_string req.drone_uuid ++ put_string req.session_token)

unfoldable pub serialize_vpn_provision_request : VpnProvisionRequest → Bytes
serialize_vpn_provision_request req =
    msg_vpn_provision_request
    ∷ (put_string req.drone_uuid ++ (put_string req.session_token ++ put_string req.wg_public_key))
