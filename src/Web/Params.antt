-- ===== src/Web/Params.antt =====
-- The parameters of the autopilot in web/server.go: MAVLinkBridge with its cache, the queue of
-- HandleParamValue, HandleHeartbeat and the requests. A name is its bytes, a float32 is its bits, and
-- a float64 is a parameter of the model, with the conversions that the code makes; so is
-- strings.TrimSpace. What writeToPixhawk returns is an argument. A map is a list without an order of
-- its own: Go's iteration may visit it in any order.
pub mod Laws
use uavlink_edge.Common.{
  Bool, List, Option, [], false, if◌then◌else◌, leb, length, ltb, none, not, some, true, ℕ, ◌&&◌,
  ◌++◌, ◌==◌, ◌||◌, ◌∷◌,
}
use Prim.Native.String.{String}
use text.Mathlib.Text.{◌==◌ as str_eq}
use uavlink_edge.Session.Calls.{same_bytes}
use uavlink_edge.Wire.Bytes.{Bytes}

-- The conversions between float64 and the bits of an int32 or a float32.
pub record Conversions (F : Type 0) : Type 0 where
  pub of_int32 : ℕ → F
  pub of_float32 : ℕ → F
  pub to_int32 : F → ℕ
  pub to_float32 : F → ℕ

-- A PARAM_VALUE.
pub record ParamValue : Type 0 where
  pub param_id : Bytes
  pub value_bits : ℕ
  pub param_type : ℕ
  pub param_count : ℕ
  pub param_index : ℕ

pub record CachedParameter (F : Type 0) : Type 0 where
  pub name : Bytes
  pub value : F
  pub type_of : ℕ
  pub index_of : ℕ

pub record Bridge (F : Type 0) : Type 0 where
  pub has_node : Bool
  pub bridge_connected : Bool
  pub bridge_sys_id : ℕ
  pub param_cache : List (CachedParameter F)
  pub param_total : ℕ
  pub param_received : ℕ
  pub param_loading : Bool
  pub param_last_update : ℕ
  pub param_queue : List ParamValue

-- The integer types of MAV_PARAM_TYPE that the code lists.
abbrev pub is_integer_type : ℕ → Bool
is_integer_type t = leb 1 t && leb t 6

unfoldable pub get_mav_param_type : String → ℕ
get_mav_param_type s =
    if str_eq s "FLOAT" || (str_eq s "float" || str_eq s "REAL32")
    then 9
    else if str_eq s "INT32" || str_eq s "int"
    then 6
    else if str_eq s "UINT32"
    then 5
    else if str_eq s "INT16"
    then 4
    else if str_eq s "UINT16"
    then 3
    else if str_eq s "INT8"
    then 2
    else if str_eq s "UINT8" || str_eq s "bool"
    then 1
    else 6

-- id[:i] up to the first NUL.
abbrev pub until_nul : Bytes → Bytes
until_nul [] = []
until_nul (b ∷ bs) = let rest = until_nul bs in if b == 0 then [] else b ∷ rest

-- What SetParameter is asked for, and the PARAM_SET that it writes.
pub record ParamSet : Type 0 where
  pub target_system : ℕ
  pub set_id : Bytes
  pub set_bits : ℕ
  pub set_type : ℕ

pub data SetResult : Type 0 where
  no_bridge no_pixhawk_yet not_sent : SetResult
  param_sent : ParamSet → SetResult

-- What the goroutines and the handlers do, one at a time under the mutex. asks_for_list says whether
-- the request is written.
pub data ParamEvent : Type 0 where
  hears : ℕ → ParamEvent
  arrives : ParamValue → ParamEvent
  processes : ℕ → ParamEvent
  asks_for_list : Bool → ParamEvent

module _ {F : Type 0} where
  -- cache[p.name] = p
  abbrev pub put_param : CachedParameter F → List (CachedParameter F) → List (CachedParameter F)
  put_param p [] = p ∷ []
  put_param p (q ∷ qs) =
      let rest = put_param p qs in if same_bytes q.name p.name then p ∷ qs else q ∷ rest

  abbrev pub get_param : Bytes → List (CachedParameter F) → Option (CachedParameter F)
  get_param key [] = none
  get_param key (q ∷ qs) =
      let rest = get_param key qs in if same_bytes q.name key then some q else rest

  unfoldable pub handle_param_value : ParamValue → Bridge F → Bridge F
  handle_param_value msg b =
      if ltb (length b.param_queue) 100
      then record b { param_queue = b.param_queue ++ msg ∷ [] }
      else b

  unfoldable pub handle_heartbeat : ℕ → Bridge F → Bridge F
  handle_heartbeat sys_id b =
      if b.bridge_connected then b else record b { bridge_connected = true; bridge_sys_id = sys_id }

  -- The answer of writeToPixhawk is given.
  unfoldable pub request_parameter_list : Bool → Bridge F → Bridge F × Bool
  request_parameter_list written b =
      if not b.has_node || not b.bridge_connected then (b, false) else (
        record b { param_cache = []; param_received = 0; param_total = 0; param_loading = written },
        written,
      )

-- GetPixhawkSystemID, none for a bridge that is not initialized.
unfoldable pub get_pixhawk_system_id : {F : Type 0} → Option (Bridge F) → ℕ
get_pixhawk_system_id none = 1
get_pixhawk_system_id (some b) = b.bridge_sys_id

unfoldable pub trim_param_id : (Bytes → Bytes) → Bytes → Bytes
trim_param_id trim_space id = trim_space (until_nul id)

module _ {F : Type 0} (trim_space : Bytes → Bytes) where
  -- The loop over the map.
  abbrev pub find_trimmed : Bytes → List (CachedParameter F) → Option (CachedParameter F)
  find_trimmed want [] = none
  find_trimmed want (q ∷ qs) =
      let rest = find_trimmed want qs in
      if same_bytes (trim_param_id trim_space q.name) want then some q else rest

  abbrev pub or_else :
      Option (CachedParameter F) → Option (CachedParameter F) → Option (CachedParameter F)
  or_else none o = o
  or_else (some p) o = some p

  unfoldable pub lookup_cached_param : Bytes → List (CachedParameter F) → Option (CachedParameter F)
  lookup_cached_param key cache =
      or_else (get_param key cache) (find_trimmed (trim_param_id trim_space key) cache)

module _ {F : Type 0} (conv : Conversions F) where
  unfoldable pub decode_value : ℕ → ℕ → F
  decode_value t bits = if is_integer_type t then conv.of_int32 bits else conv.of_float32 bits

  unfoldable pub encode_value : ℕ → F → ℕ
  encode_value t v = if is_integer_type t then conv.to_int32 v else conv.to_float32 v

module _ {F : Type 0} (conv : Conversions F) (trim_space : Bytes → Bytes) where
  abbrev pub cached : ParamValue → CachedParameter F
  cached msg = record {
    name = trim_param_id trim_space msg.param_id;
    value = decode_value conv msg.param_type msg.value_bits;
    type_of = msg.param_type;
    index_of = msg.param_index;
  }

  -- One round of the loop of processParamValues.
  unfoldable pub process_param_value : ℕ → ParamValue → Bridge F → Bridge F
  process_param_value now msg b =
      let cache = put_param (cached msg) b.param_cache in
      record b {
        param_cache = cache;
        param_total = msg.param_count;
        param_received = length cache;
        param_last_update = now;
        param_loading = b.param_loading && ltb (length cache) msg.param_count;
      }

  abbrev pub process_from : ℕ → List ParamValue → Bridge F → Bridge F
  process_from now [] b = b
  process_from now (msg ∷ rest) b = process_param_value now msg (record b { param_queue = rest })

  unfoldable pub process_next : ℕ → Bridge F → Bridge F
  process_next now b = process_from now b.param_queue b

  -- SetParameter up to the wait.
  unfoldable pub set_parameter : Bool → Bytes → F → String → Bridge F → SetResult
  set_parameter written key v type_text b =
      if not b.has_node
      then no_bridge
      else if not b.bridge_connected
      then no_pixhawk_yet
      else if written
      then param_sent (record {
        target_system = b.bridge_sys_id;
        set_id = key;
        set_bits = encode_value conv (get_mav_param_type type_text) v;
        set_type = get_mav_param_type type_text;
      })
      else not_sent

  abbrev pub poll_answer : Option (CachedParameter F) → Bool → Option F → Option F
  poll_answer none recent later = later
  poll_answer (some p) recent later = if recent then some p.value else later

  -- The polls of waitForParamResponse up to the timeout, each with the bridge at that time; none is
  -- the timeout.
  unfoldable pub wait_for_param_response : Bytes → ℕ → List (Bridge F) → Option F
  wait_for_param_response key since [] = none
  wait_for_param_response key since (b ∷ bs) =
      let later = wait_for_param_response key since bs in
      poll_answer (lookup_cached_param trim_space key b.param_cache) (ltb since b.param_last_update)
        later

  abbrev pub apply_param_event : ParamEvent → Bridge F → Bridge F
  apply_param_event (hears sys_id) b = handle_heartbeat sys_id b
  apply_param_event (arrives msg) b = handle_param_value msg b
  apply_param_event (processes now) b = process_next now b
  apply_param_event (asks_for_list written) b = (request_parameter_list written b).0

  unfoldable pub run_param_events : List ParamEvent → Bridge F → Bridge F
  run_param_events [] b = b
  run_param_events (e ∷ es) b = run_param_events es (apply_param_event e b)
