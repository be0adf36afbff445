-- ===== src/Wire/KeyAcks.antt =====
-- ParseAPIKeyResponse of auth/protocol.go: the two framings, and the format behind them.
use uavlink_edge.Common.{
  [], arith, inl, inr, length, suc, sym, zero, ℕ, ◌++◌, ◌+◌, ◌↔◌, ◌∙◌, ◌∷◌, ◌≡◌, ◌≢◌, ◌≤◌, ◌⊎◌,
}
use mathlib.Core.Path.{subst}
use uavlink_edge.Wire.Bytes.{AreBytes, Bytes, IsU16, IsU64, put_u16, put_u64, u16_of-put_u16}
use uavlink_edge.Wire.Codes.{msg_api_key_response, result_success}
use uavlink_edge.Wire.Cursor.{get_u8, ok, put_string}
use uavlink_edge.Wire.Cursor.Inversion.{after_string, after_u64, ok-injective}
use uavlink_edge.Wire.Cursor.Laws.{get_string-put_string, get_u64-put_u64}
use uavlink_edge.Wire.Formats.{key_format}
use uavlink_edge.Wire.KeyReplies.{
  ApiKeyResponse, api_key_granted, has_length_prefix, parse_api_key_response,
  parse_api_key_response_framed, parse_api_key_response_from_offset,
  parse_api_key_response_unframed,
}

abbrev pub key_granted : ℕ → Bytes → ℕ → ApiKeyResponse
key_granted error_code key expires = record {
  result = result_success;
  error_code = error_code;
  api_key = key;
  expires_at = expires;
}

abbrev pub key_refused : ℕ → ℕ → ApiKeyResponse
key_refused result error_code = record {
  result = result;
  error_code = error_code;
  api_key = [];
  expires_at = 0;
}

abbrev pub KeyGrants : Bytes → ApiKeyResponse → Type 0
KeyGrants packet resp =
    (error_code : ℕ) × (key : Bytes) × (expires : ℕ) × (rest : Bytes) × (resp
      ≡ key_granted error_code key expires)
    × (packet ≡ key_format error_code key expires rest)
    × IsU16 (length key)
    × IsU64 expires

abbrev pub KeyRefuses : Bytes → ApiKeyResponse → Type 0
KeyRefuses packet resp =
    (result : ℕ) × (error_code : ℕ) × (rest : Bytes) × (result ≢ result_success)
    × (packet ≡ msg_api_key_response ∷ result ∷ error_code ∷ rest)
    × (resp ≡ key_refused result error_code)

key_accepted_sound :
    (e : ℕ) (c : Bytes) (resp : ApiKeyResponse)
    → AreBytes c
    → api_key_granted result_success e c ≡ ok resp
    → KeyGrants (msg_api_key_response ∷ result_success ∷ e ∷ c) resp
unfolding api_key_granted key_format
key_accepted_sound e c resp w h = after_string _ c _ _ _ w h λ k c1 fk e1 w1 h1.
    after_u64 _ c1 _ _ w1 h1 λ x c2 fx e2 w2 h2. (e, k, x, c2, sym (ok-injective h2), cc, fk, fx)

key_accepted_complete :
    (e : ℕ) (key : Bytes) (expires : ℕ) (rest : Bytes)
    → IsU16 (length key)
    → IsU64 expires
    → api_key_granted result_success e (put_string key ++ (put_u64 expires ++ rest))
      ≡ ok (key_granted e key expires)
unfolding api_key_granted
key_accepted_complete e key expires rest hk hx =
    rw (get_string-put_string _ _ key _ hk, get_u64-put_u64 _ expires _ hx)

offset_success :
    (e : ℕ) (c : Bytes)
    → parse_api_key_response_from_offset (msg_api_key_response ∷ result_success ∷ e ∷ c)
      ≡ api_key_granted result_success e c
unfolding parse_api_key_response_from_offset get_u8
offset_success e c = ground arith

offset_failure :
    (r e : ℕ) (c : Bytes)
    → r ≢ result_success
    → parse_api_key_response_from_offset (msg_api_key_response ∷ r ∷ e ∷ c) ≡ ok (key_refused r e)
unfolding parse_api_key_response_from_offset get_u8
offset_failure r e c n = ground arith

offset_type :
    (packet : Bytes) (resp : ApiKeyResponse)
    → parse_api_key_response_from_offset packet ≡ ok resp
    → (r : ℕ) × (e : ℕ) × (c : Bytes) × (packet ≡ msg_api_key_response ∷ r ∷ e ∷ c)
unfolding parse_api_key_response_from_offset get_u8
offset_type [] resp h = ground arith
offset_type (b ∷ []) resp h = ground arith
offset_type (b ∷ r ∷ []) resp h = ground arith
offset_type (b ∷ r ∷ e ∷ c) resp h = (r, e, c, ground arith)

key_sound :
    (packet : Bytes) (resp : ApiKeyResponse)
    → AreBytes packet
    → parse_api_key_response_from_offset packet ≡ ok resp
    → KeyGrants packet resp ⊎ KeyRefuses packet resp
key_sound packet resp w h =
    let (r, e, c, p) = offset_type packet resp h in
    go r e c p (subst AreBytes p w)
      (subst (λ q. parse_api_key_response_from_offset q ≡ ok resp) p h)
  where
    go :
        (r e : ℕ) (c : Bytes)
        → packet ≡ msg_api_key_response ∷ r ∷ e ∷ c
        → AreBytes (msg_api_key_response ∷ r ∷ e ∷ c)
        → parse_api_key_response_from_offset (msg_api_key_response ∷ r ∷ e ∷ c) ≡ ok resp
        → KeyGrants packet resp ⊎ KeyRefuses packet resp
    go zero e c p wc k =
        inl (rw p (key_accepted_sound e c resp wc.1.1.1 (sym (offset_success e c) ∙ k)))
    go (suc r) e c p wc k =
        let n : suc r ≢ result_success = λ q. omega arith in
        inr (suc r, e, c, n, p, sym (ok-injective (sym (offset_failure (suc r) e c n) ∙ k)))

key_complete :
    (packet : Bytes) (resp : ApiKeyResponse)
    → KeyGrants packet resp ⊎ KeyRefuses packet resp
    → parse_api_key_response_from_offset packet ≡ ok resp
unfolding key_format
key_complete packet resp (inl (e, k, x, rest, er, ep, fk, fx)) =
    rw (er, ep) (offset_success e _ ∙ key_accepted_complete e k x rest fk fx)
key_complete packet resp (inr (r, e, rest, n, ep, er)) = rw (er, ep) (offset_failure r e rest n)

-- From its type byte on, a response is read exactly if it is a grant in the documented format,
-- whose key and expiry are returned, or has another result byte; the error code is returned in
-- both cases. Bytes behind either are ignored.
pub parse_api_key_response_from_offset_iff :
    (packet : Bytes) (resp : ApiKeyResponse)
    → AreBytes packet
    → (parse_api_key_response_from_offset packet ≡ ok resp)
      ↔ (KeyGrants packet resp ⊎ KeyRefuses packet resp)
parse_api_key_response_from_offset_iff packet resp w =
    (key_sound packet resp w, key_complete packet resp)

-- A payload that begins with the type byte is read the same way behind a length of at most its
-- own, and without one, unless its third byte, the error code, is the type byte too.
pub parse_api_key_response_framings :
    (n r e : ℕ) (rest : Bytes)
    → IsU16 n
    → n ≤ length rest + 3
    → e ≢ msg_api_key_response
    → let payload : Bytes = msg_api_key_response ∷ r ∷ e ∷ rest in
      (parse_api_key_response (put_u16 n ++ payload) ≡ parse_api_key_response_from_offset payload)
      × (parse_api_key_response payload ≡ parse_api_key_response_from_offset payload)
unfolding parse_api_key_response has_length_prefix parse_api_key_response_framed put_u16
    parse_api_key_response_unframed
parse_api_key_response_framings n r e rest hn hl he =
    (ground (arith, u16_of-put_u16 n hn), ground arith)
