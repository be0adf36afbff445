-- ===== src/Web/Params/Laws/Confirmed.antt =====
-- When SetParameter of web/server.go calls a parameter set.
use uavlink_edge.Common.{
  Bool-cases, List, ap, arith, false, inl, inr, lt→ltb, refl, some, true, ℕ, ◌<◌, ◌∙◌, ◌∷◌, ◌≡◌,
  ◌≢◌,
}
use Prim.Native.String.{String}
use uavlink_edge.Session.Calls.{same_bytes}
use uavlink_edge.Web.Params.{
  Bridge, CachedParameter, Conversions, ParamSet, ParamValue, cached, decode_value, encode_value,
  get_mav_param_type, is_integer_type, lookup_cached_param, param_sent, process_param_value,
  set_parameter, trim_param_id, wait_for_param_response,
}
use uavlink_edge.Web.Params.Laws.{IsTrimming, same_bytes_iff}
use uavlink_edge.Web.Params.Laws.Runs.{IsStored, lookup-process}
use uavlink_edge.Wire.Bytes.{Bytes}

-- The PARAM_VALUE with which the autopilot answers a PARAM_SET that it took over.
abbrev pub echo_of : ParamSet → ℕ → ℕ → ParamValue
echo_of m total number = record {
  param_id = m.set_id;
  value_bits = m.set_bits;
  param_type = m.set_type;
  param_count = total;
  param_index = number;
}

module _ {F : Type 0} (conv : Conversions F) where
  -- A value that the encoding keeps: through int32 for every integer type, UINT32 included, and through
  -- float32 for any other type.
  abbrev pub Survives : ℕ → F → Type 0
  Survives t v =
      (is_integer_type t ≡ true → conv.of_int32 (conv.to_int32 v) ≡ v)
      × (is_integer_type t ≡ false → conv.of_float32 (conv.to_float32 v) ≡ v)

  decode-encode_value :
      (t : ℕ) (v : F) → Survives t v → decode_value conv t (encode_value conv t v) ≡ v
  unfolding decode_value encode_value
  decode-encode_value t v fits = elim (Bool-cases (is_integer_type t)) [
    | inl whole ↦ rw whole (fits.0 whole)
    | inr real ↦ rw real (fits.1 real)
  ]

module _ {F : Type 0} (conv : Conversions F) (trim_space : Bytes → Bytes)
    (trims : IsTrimming trim_space) where
  -- A poll after a message.
  wait_found :
      (key : Bytes) (since : ℕ) (b : Bridge F) (p : CachedParameter F) (polls : List (Bridge F))
      → lookup_cached_param trim_space key b.param_cache ≡ some p
      → since < b.param_last_update
      → wait_for_param_response conv trim_space key since (b ∷ polls) ≡ some p.value
  unfolding wait_for_param_response
  wait_found key since b p polls found late =
      rw found (rw (lt→ltb since b.param_last_update late) refl)

  sent-inversion :
      (key : Bytes) (v : F) (type_text : String) (b : Bridge F) (m : ParamSet)
      → set_parameter conv trim_space true key v type_text b ≡ param_sent m
      → (m.set_id ≡ key)
        × (m.set_type ≡ get_mav_param_type type_text)
        × (m.set_bits ≡ encode_value conv (get_mav_param_type type_text) v)
  unfolding set_parameter
  sent-inversion key v type_text b m h = ground arith

  -- If a parameter is in the cache, then a message about any other parameter that comes after the
  -- request is taken for its confirmation: the next poll answers with success and the value that the
  -- cache had before, whatever was asked for.
  pub wait_other_parameter :
      (key : Bytes) (since now : ℕ) (msg : ParamValue) (b : Bridge F) (p : CachedParameter F)
      (polls : List (Bridge F))
      → IsStored conv trim_space trims b
      → lookup_cached_param trim_space key b.param_cache ≡ some p
      → trim_param_id trim_space msg.param_id ≢ trim_param_id trim_space key
      → since < now
      → wait_for_param_response conv trim_space key since
          (process_param_value conv trim_space now msg b ∷ polls)
        ≡ some p.value
  unfolding process_param_value
  wait_other_parameter key since now msg b p polls h found apart late =
      let differ : same_bytes (trim_param_id trim_space msg.param_id) (trim_param_id trim_space key)
          ≡ false =
        ground (
          arith,
          same_bytes_iff (trim_param_id trim_space msg.param_id) (trim_param_id trim_space key),
        ) in
      let u = process_param_value conv trim_space now msg b in
      wait_found key since u p polls
        (lookup-process conv trim_space trims now msg key b h ∙ rw differ found) late

  -- A value that survives the conversion to int32, for every integer type, UINT32 included, or to
  -- float32, for any other type, if it is set on a connected bridge and echoed by the autopilot after
  -- the request, is confirmed at the next poll with this value.
  pub set_parameter_confirmed :
      (key : Bytes) (v : F) (type_text : String) (m : ParamSet) (total number since now : ℕ)
      (b c : Bridge F) (polls : List (Bridge F))
      → IsStored conv trim_space trims c
      → set_parameter conv trim_space true key v type_text b ≡ param_sent m
      → Survives conv (get_mav_param_type type_text) v
      → since < now
      → wait_for_param_response conv trim_space key since
          (process_param_value conv trim_space now (echo_of m total number) c ∷ polls)
        ≡ some v
  unfolding process_param_value
  set_parameter_confirmed key v type_text m total number since now b c polls h done fits late =
      let (same, kind, bits) = sent-inversion key v type_text b m done in
      let msg = echo_of m total number in
      let u = process_param_value conv trim_space now msg c in
      let own : same_bytes (trim_param_id trim_space m.set_id) (trim_param_id trim_space key)
          ≡ true =
        (same_bytes_iff _ _).1 (ap (trim_param_id trim_space) same) in
      let shown : decode_value conv m.set_type m.set_bits ≡ v =
        rw (kind, bits) (decode-encode_value conv (get_mav_param_type type_text) v fits) in
      wait_found key since u (cached conv trim_space msg) polls
        (lookup-process conv trim_space trims now msg key c h ∙ rw own refl) late
      ∙ ap some shown
