-- ===== src/Web/Params/Laws/Runs.antt =====
-- The cache of web/server.go over any messages and requests.
use uavlink_edge.Common.{
  Bool, List, [], arith, false, if◌then◌else◌, inl, inr, length, ltb, not, refl, some, true, ℕ, ◌<◌,
  ◌||◌, ◌∙◌, ◌∷◌, ◌≡◌, ◌⊎◌,
}
use uavlink_edge.Session.Calls.{same_bytes}
use uavlink_edge.Web.Params.{
  Bridge, Conversions, ParamEvent, ParamValue, apply_param_event, arrives, asks_for_list, cached,
  handle_heartbeat, handle_param_value, hears, lookup_cached_param, process_from, process_next,
  process_param_value, processes, request_parameter_list, run_param_events, trim_param_id,
}
use uavlink_edge.Web.Params.Laws.{
  HasCleanNames, HasUniqueNames, IsTrimming, get-put_param, lookup-get, put_param-HasCleanNames,
  put_param-HasUniqueNames, trim_idempotent,
}
use uavlink_edge.Wire.Bytes.{Bytes}

module _ {F : Type 0} (conv : Conversions F) (trim_space : Bytes → Bytes)
    (trims : IsTrimming trim_space) where
  -- The names are trimmed and stored once, the count of parameters is right, and while the list is
  -- being loaded some are missing or none has come.
  pub record IsStored (b : Bridge F) : Type 0 where
    pub clean : HasCleanNames trim_space trims b.param_cache
    pub unique : HasUniqueNames b.param_cache
    pub received : b.param_received ≡ length b.param_cache
    pub loading : b.param_loading ≡ true → (b.param_received < b.param_total) ⊎ (b.param_cache ≡ [])

  process_param_value-IsStored :
      (now : ℕ) (msg : ParamValue) (b : Bridge F)
      → IsStored b
      → IsStored (process_param_value conv trim_space now msg b)
  unfolding process_param_value
  process_param_value-IsStored now msg b h = record {
    clean =
        put_param-HasCleanNames trim_space trims (cached conv trim_space msg) b.param_cache
          (trim_idempotent trim_space trims msg.param_id) h.clean;
    unique = put_param-HasUniqueNames (cached conv trim_space msg) b.param_cache h.unique;
    received = refl;
    loading = λ e. inl (ground arith);
  }

  process_from-IsStored :
      (now : ℕ) (queue : List ParamValue) (b : Bridge F)
      → IsStored b
      → IsStored (process_from conv trim_space now queue b)
  process_from-IsStored now [] b h = h
  process_from-IsStored now (msg ∷ rest) b h =
      process_param_value-IsStored now msg (record b { param_queue = rest })
        (record { clean = h.clean; unique = h.unique; received = h.received; loading = h.loading })

  choice : (c : Bool) (x y : Bridge F) → IsStored x → IsStored y → IsStored (if c then x else y)
  choice true x y p q = p
  choice false x y p q = q

  first_of :
      (c : Bool) (x y : Bridge F × Bool)
      → IsStored x.0
      → IsStored y.0
      → IsStored (if c then x else y).0
  first_of true x y p q = p
  first_of false x y p q = q

  event-IsStored :
      (e : ParamEvent) (b : Bridge F)
      → IsStored b
      → IsStored (apply_param_event conv trim_space e b)
  unfolding handle_heartbeat handle_param_value request_parameter_list process_next
  event-IsStored (hears sys_id) b h =
      choice b.bridge_connected b _ h
        (record { clean = h.clean; unique = h.unique; received = h.received; loading = h.loading })
  event-IsStored (arrives msg) b h =
      choice (ltb (length b.param_queue) 100) _ b
        (record { clean = h.clean; unique = h.unique; received = h.received; loading = h.loading })
        h
  event-IsStored (processes now) b h = process_from-IsStored now b.param_queue b h
  event-IsStored (asks_for_list written) b h =
      first_of (not b.has_node || not b.bridge_connected) (b, false) _ h
        (record { clean = tt; unique = tt; received = refl; loading = λ e. inr refl })

  events-IsStored :
      (es : List ParamEvent) (b : Bridge F)
      → IsStored b
      → IsStored (run_param_events conv trim_space es b)
  unfolding run_param_events
  events-IsStored [] b h = h
  events-IsStored (e ∷ es) b h =
      events-IsStored es (apply_param_event conv trim_space e b) (event-IsStored e b h)

  -- A lookup after a message gives the message for its own name, and what it gave before for any
  -- other.
  pub lookup-process :
      (now : ℕ) (msg : ParamValue) (key : Bytes) (b : Bridge F)
      → IsStored b
      → lookup_cached_param trim_space key
          (process_param_value conv trim_space now msg b).param_cache
        ≡ (if same_bytes (trim_param_id trim_space msg.param_id) (trim_param_id trim_space key)
            then some (cached conv trim_space msg)
            else lookup_cached_param trim_space key b.param_cache)
  unfolding process_param_value
  lookup-process now msg key b h =
      lookup-get trim_space trims key _ (process_param_value-IsStored now msg b h).clean
      ∙ get-put_param (trim_param_id trim_space key) (cached conv trim_space msg) b.param_cache
      ∙ rw (lookup-get trim_space trims key b.param_cache h.clean) refl

  -- Over any messages and requests, from a sound cache: the names are trimmed and stored once, the
  -- count is right, and while the list is being loaded some parameters are missing or none has come.
  -- A lookup after one more message gives this message for its name, however that is padded, and what
  -- it gave before for any other name.
  pub run_param_events-IsStored :
      (es : List ParamEvent) (b : Bridge F) (now : ℕ) (msg : ParamValue) (key : Bytes)
      → IsStored b
      → let u = run_param_events conv trim_space es b in
        IsStored u
        × (lookup_cached_param trim_space key
              (process_param_value conv trim_space now msg u).param_cache
            ≡ (if same_bytes (trim_param_id trim_space msg.param_id) (trim_param_id trim_space key)
                then some (cached conv trim_space msg)
                else lookup_cached_param trim_space key u.param_cache))
  run_param_events-IsStored es b now msg key h =
      let after = events-IsStored es b h in (after, lookup-process now msg key _ after)
