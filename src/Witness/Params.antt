-- ===== src/Witness/Params.antt =====
-- The parameters of web/server.go at concrete inputs. A float64 is its bits, and no name has space
-- around it.
use uavlink_edge.Common.{List, [], arith, false, if◌then◌else◌, refl, some, true, ℕ, ◌∷◌, ◌≡◌, ◌≢◌}
use uavlink_edge.Session.Calls.{same_bytes}
use uavlink_edge.Web.Params.{
  Bridge, Conversions, ParamEvent, ParamSet, ParamValue, arrives, asks_for_list, cached,
  decode_value, encode_value, get_mav_param_type, handle_param_value, lookup_cached_param,
  param_sent, process_next, process_param_value, processes, request_parameter_list,
  run_param_events, set_parameter, trim_param_id, wait_for_param_response,
}
use uavlink_edge.Web.Params.Laws.{IsTrimming}
use uavlink_edge.Web.Params.Laws.Confirmed.{echo_of, set_parameter_confirmed, wait_other_parameter}
use uavlink_edge.Web.Params.Laws.Runs.{IsStored, run_param_events-IsStored}
use uavlink_edge.Wire.Bytes.{Bytes}

abbrev bits_only : Conversions ℕ
bits_only = record {
  of_int32 = λ n. n;
  of_float32 = λ n. n;
  to_int32 = λ n. n;
  to_float32 = λ n. n;
}

abbrev as_it_is : Bytes → Bytes
as_it_is bs = bs

as_it_is-IsTrimming : IsTrimming as_it_is
as_it_is-IsTrimming = record { idempotent = λ bs. refl; without_nul = λ bs h. h }

-- A PARAM_VALUE of "A" or "B", the name padded with a NUL.
abbrev value_of : ℕ → ℕ → ParamValue
value_of letter bits = record {
  param_id = letter ∷ 0 ∷ [];
  value_bits = bits;
  param_type = 6;
  param_count = 2;
  param_index = 0;
}

abbrev new_bridge : Bridge ℕ
new_bridge = record {
  has_node = true;
  bridge_connected = true;
  bridge_sys_id = 1;
  param_cache = [];
  param_total = 0;
  param_received = 0;
  param_loading = false;
  param_last_update = 0;
  param_queue = [];
}

new_bridge-IsStored : IsStored bits_only as_it_is as_it_is-IsTrimming new_bridge
new_bridge-IsStored = record {
  clean = tt;
  unique = tt;
  received = refl;
  loading = λ e. absurd (ground arith);
}

abbrev two_messages : List ParamEvent
two_messages =
    asks_for_list true ∷ arrives (value_of 65 7) ∷ arrives (value_of 66 8) ∷ processes 10 ∷ []

cache_runs : (run_param_events bits_only as_it_is two_messages new_bridge).param_received ≡ 1
unfolding run_param_events request_parameter_list handle_param_value process_next
    process_param_value
cache_runs = refl

abbrev after_messages : Bridge ℕ
after_messages = run_param_events bits_only as_it_is two_messages new_bridge

run_param_events-IsStored_example :
    IsStored bits_only as_it_is as_it_is-IsTrimming after_messages
    × (lookup_cached_param as_it_is
          (65 ∷ [])
          (process_param_value bits_only as_it_is 11 (value_of 65 9) after_messages).param_cache
        ≡ (if same_bytes (trim_param_id as_it_is (65 ∷ 0 ∷ [])) (trim_param_id as_it_is (65 ∷ []))
            then some (cached bits_only as_it_is (value_of 65 9))
            else lookup_cached_param as_it_is (65 ∷ []) after_messages.param_cache))
run_param_events-IsStored_example =
    run_param_events-IsStored bits_only as_it_is as_it_is-IsTrimming two_messages new_bridge 11
      (value_of 65 9) (65 ∷ []) new_bridge-IsStored

after_messages-IsStored : IsStored bits_only as_it_is as_it_is-IsTrimming after_messages
after_messages-IsStored =
    (run_param_events-IsStored bits_only as_it_is as_it_is-IsTrimming two_messages new_bridge 11
      (value_of 65 9) (65 ∷ []) new_bridge-IsStored).0

-- "A" is 7 in the cache; a message about "B" arrives while "A" is set to something else.
a_found :
    lookup_cached_param as_it_is (65 ∷ []) after_messages.param_cache
    ≡ some (cached bits_only as_it_is (value_of 65 7))
unfolding run_param_events request_parameter_list handle_param_value process_next
    process_param_value lookup_cached_param trim_param_id
a_found = refl

b_apart : trim_param_id as_it_is (66 ∷ 0 ∷ []) ≢ trim_param_id as_it_is (65 ∷ [])
unfolding trim_param_id
b_apart e = absurd (ground arith)

wait_other_parameter_example :
    wait_for_param_response bits_only as_it_is
      (65 ∷ [])
      10
      (process_param_value bits_only as_it_is 11 (value_of 66 8) after_messages ∷ [])
    ≡ some (decode_value bits_only 6 7)
wait_other_parameter_example =
    wait_other_parameter bits_only as_it_is as_it_is-IsTrimming (65 ∷ []) 10 11 (value_of 66 8)
      after_messages (cached bits_only as_it_is (value_of 65 7)) [] after_messages-IsStored a_found
      b_apart (omega arith)

abbrev set_a : ParamSet
set_a = record { target_system = 1; set_id = 65 ∷ []; set_bits = 5; set_type = 6 }

set_runs : set_parameter bits_only as_it_is true (65 ∷ []) 5 "INT32" new_bridge ≡ param_sent set_a
unfolding set_parameter get_mav_param_type encode_value
set_runs = refl

set_parameter_confirmed_example :
    wait_for_param_response bits_only as_it_is
      (65 ∷ [])
      10
      (process_param_value bits_only as_it_is 11 (echo_of set_a 2 0) after_messages ∷ [])
    ≡ some 5
set_parameter_confirmed_example =
    set_parameter_confirmed bits_only as_it_is as_it_is-IsTrimming (65 ∷ []) 5 "INT32" set_a 2 0 10
      11 new_bridge after_messages [] after_messages-IsStored set_runs ((λ e. refl), λ e. refl)
      (omega arith)
