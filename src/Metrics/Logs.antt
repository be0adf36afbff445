-- ===== src/Metrics/Logs.antt =====
-- The ring of recent logs of metrics/metrics.go.
use uavlink_edge.Common.{
  List, [], ap, append-nil, append_assoc, arith, drop, false, leb, length, length-append, refl, suc,
  true, ℕ, ◌++◌, ◌-◌, ◌<◌, ◌∙◌, ◌∷◌, ◌≡◌, ◌≤◌,
}
use native.Mathlib.Decide.{dec_lt}
use uavlink_edge.Metrics.{LogEntry, push_log}

-- The last n of a list.
abbrev pub last_of {ℓ} : {A : Type ℓ} → ℕ → List A → List A
last_of n xs = drop (length xs - n) xs

module _ {Message : Type 0} where
  -- The logs after a run of AddLog calls, with their entries in the order of the calls.
  abbrev pub push_logs : List (LogEntry Message) → List (LogEntry Message) → List (LogEntry Message)
  push_logs logs [] = logs
  push_logs logs (e ∷ entries) = push_logs (push_log e logs) entries

  push_log-short :
      (e : LogEntry Message) (logs : List (LogEntry Message))
      → length logs < 100
      → push_log e logs ≡ logs ++ e ∷ []
  unfolding push_log
  push_log-short e logs h =
      let short : leb 100 (length logs) ≡ false = ground arith in rw short refl

  push_log-full :
      (e x : LogEntry Message) (rest : List (LogEntry Message))
      → length rest ≡ 99
      → push_log e (x ∷ rest) ≡ rest ++ e ∷ []
  unfolding push_log
  push_log-full e x rest h =
      let full : leb 100 (suc (length rest)) ≡ true = rw h refl in rw full refl

  -- After any AddLog calls on at most 100 entries, the logs are the last 100 of those entries and
  -- the new ones, in order.
  pub push_logs-last_of :
      (logs entries : List (LogEntry Message))
      → length logs ≤ 100
      → push_logs logs entries ≡ last_of 100 (logs ++ entries)
  push_logs-last_of logs [] h =
      let whole : length logs - 100 ≡ 0 = omega arith in rw (append-nil logs, whole) refl
  push_logs-last_of [] (e ∷ entries) h =
      rw (push_log-short e [] (omega arith)) (push_logs-last_of (e ∷ []) entries (omega arith))
  push_logs-last_of (x ∷ rest) (e ∷ entries) h = elim (dec_lt (length rest) 99) [
    | yes short ↦
        let ih =
          push_logs-last_of ((x ∷ rest) ++ e ∷ []) entries
            (omega (arith, length-append rest (e ∷ []))) in
        let joined = append_assoc (x ∷ rest) (e ∷ []) entries in
        rw (push_log-short e (x ∷ rest) (omega arith)) (ih ∙ ap (last_of 100) joined)
    | no full ↦
        let ih =
          push_logs-last_of (rest ++ e ∷ []) entries (omega (arith, length-append rest (e ∷ []))) in
        let joined = append_assoc rest (e ∷ []) entries in
        let long : suc (length (rest ++ e ∷ entries)) - 100
            ≡ suc (length (rest ++ e ∷ entries) - 100) =
          omega (arith, length-append rest (e ∷ entries)) in
        rw (push_log-full e x rest (omega arith), ih, joined, long) refl
  ]
