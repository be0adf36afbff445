-- ===== src/Wire/Safety.antt =====
-- The Parse functions of auth/protocol.go on arbitrary bytes.
use uavlink_edge.Common.{[], arith, ℕ, ◌∷◌}
use uavlink_edge.Wire.Bytes.{Bytes}
use uavlink_edge.Wire.Codes.{
  msg_auth_ack, msg_register_ack, msg_session_ack, msg_session_refresh_ack,
}
use uavlink_edge.Wire.Cursor.{get_u8}
use uavlink_edge.Wire.Cursor.Results.{body-NoPanic}
use uavlink_edge.Wire.Cursor.Safety.{NoPanic, no_panic}
use uavlink_edge.Wire.KeyReplies.{
  ApiKeyStatusResponse, api_key_granted, has_length_prefix, parse_api_key_delete_ack,
  parse_api_key_response, parse_api_key_response_framed, parse_api_key_response_from_offset,
  parse_api_key_response_unframed, parse_api_key_revoke_ack, parse_api_key_status_response,
  parse_vpn_provision_ack, status_details, vpn_ack_accepted, vpn_ack_rejected,
}
use uavlink_edge.Wire.Replies.{
  auth_ack_accepted, auth_ack_rejected, parse_auth_ack, parse_auth_challenge, parse_register_ack,
  parse_register_challenge, parse_session_ack, parse_session_refresh_ack, refresh_ack_accepted,
  refresh_ack_rejected, register_ack_accepted, register_ack_rejected, session_ack_accepted,
  session_ack_rejected,
}

auth_ack_accepted-NoPanic : (r : ℕ) (c : Bytes) → NoPanic (auth_ack_accepted r c)
unfolding auth_ack_accepted
auth_ack_accepted-NoPanic r c = search no_panic depth 9

auth_ack_rejected-NoPanic : (r : ℕ) (c : Bytes) → NoPanic (auth_ack_rejected r c)
unfolding auth_ack_rejected
auth_ack_rejected-NoPanic r c = search no_panic depth 9

session_ack_accepted-NoPanic : (r : ℕ) (c : Bytes) → NoPanic (session_ack_accepted r c)
unfolding session_ack_accepted
session_ack_accepted-NoPanic r c = search no_panic depth 9

session_ack_rejected-NoPanic : (r : ℕ) (c : Bytes) → NoPanic (session_ack_rejected r c)
unfolding session_ack_rejected
session_ack_rejected-NoPanic r c = search no_panic depth 9

refresh_ack_accepted-NoPanic : (r : ℕ) (c : Bytes) → NoPanic (refresh_ack_accepted r c)
unfolding refresh_ack_accepted
refresh_ack_accepted-NoPanic r c = search no_panic depth 9

refresh_ack_rejected-NoPanic : (r : ℕ) (c : Bytes) → NoPanic (refresh_ack_rejected r c)
unfolding refresh_ack_rejected
refresh_ack_rejected-NoPanic r c = search no_panic depth 9

register_ack_accepted-NoPanic : (r : ℕ) (c : Bytes) → NoPanic (register_ack_accepted r c)
unfolding register_ack_accepted
register_ack_accepted-NoPanic r c = search no_panic depth 9

register_ack_rejected-NoPanic : (r : ℕ) (c : Bytes) → NoPanic (register_ack_rejected r c)
unfolding register_ack_rejected
register_ack_rejected-NoPanic r c = search no_panic depth 9

vpn_ack_accepted-NoPanic : (r : ℕ) (c : Bytes) → NoPanic (vpn_ack_accepted r c)
unfolding vpn_ack_accepted
vpn_ack_accepted-NoPanic r c = search no_panic depth 9

vpn_ack_rejected-NoPanic : (r : ℕ) (c : Bytes) → NoPanic (vpn_ack_rejected r c)
unfolding vpn_ack_rejected
vpn_ack_rejected-NoPanic r c = search no_panic depth 9

pub parse_auth_ack-NoPanic : (packet : Bytes) → NoPanic (parse_auth_ack packet)
unfolding parse_auth_ack
parse_auth_ack-NoPanic packet =
    body-NoPanic msg_auth_ack auth_ack_accepted auth_ack_rejected packet auth_ack_accepted-NoPanic
      auth_ack_rejected-NoPanic

pub parse_session_ack-NoPanic : (packet : Bytes) → NoPanic (parse_session_ack packet)
unfolding parse_session_ack
parse_session_ack-NoPanic packet =
    body-NoPanic msg_session_ack session_ack_accepted session_ack_rejected packet
      session_ack_accepted-NoPanic session_ack_rejected-NoPanic

pub parse_session_refresh_ack-NoPanic :
    (packet : Bytes) → NoPanic (parse_session_refresh_ack packet)
unfolding parse_session_refresh_ack
parse_session_refresh_ack-NoPanic packet =
    body-NoPanic msg_session_refresh_ack refresh_ack_accepted refresh_ack_rejected packet
      refresh_ack_accepted-NoPanic refresh_ack_rejected-NoPanic

pub parse_register_ack-NoPanic : (packet : Bytes) → NoPanic (parse_register_ack packet)
unfolding parse_register_ack
parse_register_ack-NoPanic packet =
    body-NoPanic msg_register_ack register_ack_accepted register_ack_rejected packet
      register_ack_accepted-NoPanic register_ack_rejected-NoPanic

pub parse_auth_challenge-NoPanic : (packet : Bytes) → NoPanic (parse_auth_challenge packet)
unfolding parse_auth_challenge
parse_auth_challenge-NoPanic packet = search no_panic depth 9

pub parse_register_challenge-NoPanic : (packet : Bytes) → NoPanic (parse_register_challenge packet)
unfolding parse_register_challenge
parse_register_challenge-NoPanic packet = search no_panic depth 9

pub parse_api_key_revoke_ack-NoPanic : (packet : Bytes) → NoPanic (parse_api_key_revoke_ack packet)
unfolding parse_api_key_revoke_ack
parse_api_key_revoke_ack-NoPanic packet = search no_panic depth 9

pub parse_api_key_delete_ack-NoPanic : (packet : Bytes) → NoPanic (parse_api_key_delete_ack packet)
unfolding parse_api_key_delete_ack
parse_api_key_delete_ack-NoPanic packet = search no_panic depth 9

pub parse_vpn_provision_ack-NoPanic : (packet : Bytes) → NoPanic (parse_vpn_provision_ack packet)
unfolding parse_vpn_provision_ack
parse_vpn_provision_ack-NoPanic [] = λ p. ground arith
parse_vpn_provision_ack-NoPanic (b ∷ []) = λ p. ground arith
parse_vpn_provision_ack-NoPanic (b ∷ r ∷ c) =
    λ p. ground (arith, vpn_ack_accepted-NoPanic r c, vpn_ack_rejected-NoPanic r c)

status_details-NoPanic : (resp : ApiKeyStatusResponse) (c : Bytes) → NoPanic (status_details resp c)
unfolding status_details
status_details-NoPanic resp c = search no_panic depth 9

pub parse_api_key_status_response-NoPanic :
    (packet : Bytes) → NoPanic (parse_api_key_status_response packet)
unfolding parse_api_key_status_response
parse_api_key_status_response-NoPanic packet = search (no_panic, status_details-NoPanic) depth 9

api_key_granted-NoPanic : (r e : ℕ) (c : Bytes) → NoPanic (api_key_granted r e c)
unfolding api_key_granted
api_key_granted-NoPanic r e c = search no_panic depth 9

from_offset-NoPanic : (b : ℕ) (c : Bytes) → NoPanic (parse_api_key_response_from_offset (b ∷ c))
unfolding parse_api_key_response_from_offset get_u8
from_offset-NoPanic b [] = λ p. ground arith
from_offset-NoPanic b (r ∷ []) = λ p. ground arith
from_offset-NoPanic b (r ∷ e ∷ c) = λ p. ground (arith, api_key_granted-NoPanic r e c)

pub parse_api_key_response-NoPanic : (packet : Bytes) → NoPanic (parse_api_key_response packet)
unfolding parse_api_key_response has_length_prefix parse_api_key_response_framed
    parse_api_key_response_unframed
parse_api_key_response-NoPanic [] = λ p. ground arith
parse_api_key_response-NoPanic (a ∷ []) = λ p. ground (arith, from_offset-NoPanic a [])
parse_api_key_response-NoPanic (a ∷ b ∷ []) = λ p. ground (arith, from_offset-NoPanic a (b ∷ []))
parse_api_key_response-NoPanic (a ∷ b ∷ t ∷ c) =
    λ p. ground (arith, from_offset-NoPanic a (b ∷ t ∷ c), from_offset-NoPanic t c)

-- No Parse function indexes or slices out of range, on any packet: each returns a value or an
-- error.
pub parsers-NoPanic :
    (packet : Bytes)
    → NoPanic (parse_auth_challenge packet)
      × NoPanic (parse_auth_ack packet)
      × NoPanic (parse_session_ack packet)
      × NoPanic (parse_session_refresh_ack packet)
      × NoPanic (parse_register_challenge packet)
      × NoPanic (parse_register_ack packet)
      × NoPanic (parse_api_key_response packet)
      × NoPanic (parse_api_key_revoke_ack packet)
      × NoPanic (parse_api_key_status_response packet)
      × NoPanic (parse_api_key_delete_ack packet)
      × NoPanic (parse_vpn_provision_ack packet)
parsers-NoPanic p = (
  parse_auth_challenge-NoPanic p,
  parse_auth_ack-NoPanic p,
  parse_session_ack-NoPanic p,
  parse_session_refresh_ack-NoPanic p,
  parse_register_challenge-NoPanic p,
  parse_register_ack-NoPanic p,
  parse_api_key_response-NoPanic p,
  parse_api_key_revoke_ack-NoPanic p,
  parse_api_key_status_response-NoPanic p,
  parse_api_key_delete_ack-NoPanic p,
  parse_vpn_provision_ack-NoPanic p,
)
