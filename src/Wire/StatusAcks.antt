-- ===== src/Wire/StatusAcks.antt =====
-- ParseAPIKeyStatusResponse and the short acks of auth/protocol.go.
use uavlink_edge.Common.{Bool-cases, [], arith, if◌then◌else◌, inl, inr, length, ℕ, ◌==◌, ◌∙◌, ◌≡◌}
use uavlink_edge.Wire.Bytes.{Bytes, IsU16, IsU64}
use uavlink_edge.Wire.Codes.{msg_api_key_status_resp}
use uavlink_edge.Wire.Cursor.{Field, ok, too_short_for}
use uavlink_edge.Wire.Cursor.Laws.{
  get_string-put_string, get_u8-cons, header-cons, try_string-put_string, try_string_total,
  try_u64-put_u64, try_u64_total,
}
use uavlink_edge.Wire.Formats.{details_format, status_format}
use uavlink_edge.Wire.KeyReplies.{
  ApiKeyStatusResponse, parse_api_key_status_response, status_details,
}

abbrev pub status_of : ℕ → Bytes → Bytes → ApiKeyStatusResponse
status_of has_key status key = record {
  has_active_key = has_key;
  status = status;
  api_key = key;
  created_at = 0;
  expires_at = 0;
  user_uuid = [];
  user_activated_at = 0;
}

abbrev pub with_details : ApiKeyStatusResponse → ℕ → ℕ → Bytes → ℕ → ApiKeyStatusResponse
with_details resp created expires user activated = record resp {
  created_at = created;
  expires_at = expires;
  user_uuid = user;
  user_activated_at = activated;
}

status_branch :
    (has_key : ℕ) (status key tail : Bytes)
    → IsU16 (length status)
    → IsU16 (length key)
    → parse_api_key_status_response (status_format has_key status key tail) ≡ (
        if has_key == 1
        then status_details (status_of has_key status key) tail
        else ok (status_of has_key status key))
unfolding parse_api_key_status_response status_format
status_branch has_key status key tail hs hk = rw (
  header-cons msg_api_key_status_resp _,
  get_u8-cons (too_short_for Field.has_active_key) has_key _,
  get_string-put_string _ _ status _ hs,
  get_string-put_string _ _ key _ hk,
)

details_reads :
    (resp : ApiKeyStatusResponse) (created expires : ℕ) (user : Bytes) (activated : ℕ)
    (rest : Bytes)
    → IsU64 created
    → IsU64 expires
    → IsU16 (length user)
    → IsU64 activated
    → status_details resp (details_format created expires user activated rest)
      ≡ ok (with_details resp created expires user activated)
unfolding status_details details_format
details_reads resp created expires user activated rest hc hx hu ha = rw (
  try_u64-put_u64 created _ hc,
  try_u64-put_u64 expires _ hx,
  try_string-put_string user _ hu,
  try_u64-put_u64 activated _ ha,
)

-- A status in the documented format is read with its flag, status and key. The details behind
-- them, whose values fit their fields, are returned if the flag is 1, and keep their zero values
-- otherwise.
pub parse_api_key_status_response_reads :
    (has_key : ℕ) (status key : Bytes) (created expires : ℕ) (user : Bytes) (activated : ℕ)
    (rest : Bytes)
    → IsU16 (length status)
    → IsU16 (length key)
    → IsU64 created
    → IsU64 expires
    → IsU16 (length user)
    → IsU64 activated
    → let bare = status_of has_key status key in
      parse_api_key_status_response
        (status_format has_key status key (details_format created expires user activated rest))
      ≡ ok (if has_key == 1 then with_details bare created expires user activated else bare)
parse_api_key_status_response_reads has_key status key created expires user activated rest hs hk hc
      hx hu ha =
    status_branch has_key status key _ hs hk
    ∙ rw
        (details_reads (status_of has_key status key) created expires user activated rest hc hx hu
          ha)
        (ground arith)

details_total :
    (resp : ApiKeyStatusResponse) (c : Bytes)
    → (created : ℕ) × (expires : ℕ) × (user : Bytes) × (activated : ℕ) × (status_details resp c
        ≡ ok (with_details resp created expires user activated))
unfolding status_details
details_total resp c =
    let ((x, c1), e1) = try_u64_total c in
    let ((y, c2), e2) = try_u64_total c1 in
    let ((u, c3), e3) = try_string_total c2 in
    let ((z, c4), e4) = try_u64_total c3 in (x, y, u, z, rw (e1, e2, e3, e4))

-- However the details behind a status are cut off or damaged, the status is still read: with its
-- flag, its status and its key, and some values for the details.
pub parse_api_key_status_response_total :
    (has_key : ℕ) (status key tail : Bytes)
    → IsU16 (length status)
    → IsU16 (length key)
    → (created : ℕ) × (expires : ℕ) × (user : Bytes) × (activated : ℕ)
      × (parse_api_key_status_response (status_format has_key status key tail)
          ≡ ok (with_details (status_of has_key status key) created expires user activated))
parse_api_key_status_response_total has_key status key tail hs hk =
    elim (Bool-cases (has_key == 1)) [
      | inl y ↦
          let (a, b, u, d, e) = details_total (status_of has_key status key) tail in
          (a, b, u, d, status_branch has_key status key tail hs hk ∙ rw y e)
      | inr n ↦ (0, 0, [], 0, status_branch has_key status key tail hs hk ∙ rw n)
    ]
