-- ===== src/Session/Consistent/Interactions.antt =====
-- The invariant of auth/client.go under each interaction with the outside, dialling included.
use uavlink_edge.Common.{
  All, All-weaken, Bool, Bool-cases, Option, ap, false, inl, inr, length, none, not, refl, some,
  sym, true, ℕ, ◌&&◌, ◌+◌, ◌∙◌, ◌∷◌, ◌≡◌, ◌≤◌,
}
use mathlib.Core.Path.{subst}
use uavlink_edge.Forward.History.Laws.{elem}
use uavlink_edge.Metrics.{add_log, set_ip}
use uavlink_edge.Session.Calls.{
  Exit, and_then, clock, dial, dialled, end, given, ip_text, nothing_of, passed, pure,
  receive_packet, returns, same_bytes, send_packet, sent_packet, update, ◌>>=◌,
}
use uavlink_edge.Session.Calls.Keeps.{Keeps}
use uavlink_edge.Session.Consistent.{IsCoherent, IsConsistent, IsDisposed, status_of}
use uavlink_edge.Session.Consistent.Parts.{
  close_conn-closed, close_conn-IsConsistent, close_conn-same, push_log-few,
}
use uavlink_edge.Session.Handshake.{
  adopt_conn, close_conn, connect, load_secret, note_ip_change, reconnect_tcp,
}
use uavlink_edge.Session.Status.{on_metrics}
use uavlink_edge.Session.World.{Failure, Outside, World, read_failed, secret_missing}
use uavlink_edge.Wire.Bytes.{Bytes}

-- A call that only lets an interaction pass.
pub passed-IsConsistent : (w : World) → IsConsistent w → IsConsistent (passed w)
passed-IsConsistent w h = record {
  coherent = h.coherent;
  disposed = h.disposed;
  few_logs = h.few_logs;
}

pub given-IsConsistent : {A : Type 0} (o : Option A) (e : Failure) → Keeps IsConsistent (given o e)
given-IsConsistent none e = record { at = λ w h. passed-IsConsistent w h }
given-IsConsistent (some a) e = record { at = λ w h. passed-IsConsistent w h }

sent_packet-IsConsistent :
    (b : Bool) (n : ℕ) (packet : Bytes) → Keeps IsConsistent (sent_packet b n packet)
sent_packet-IsConsistent true n packet = record {
  at = λ w h. record { coherent = h.coherent; disposed = h.disposed; few_logs = h.few_logs };
}
sent_packet-IsConsistent false n packet = record { at = λ w h. passed-IsConsistent w h }

-- A new connection of a client whose connections are all closed.
abbrev AllClosed : World → Type 0
AllClosed w = All (λ n. elem n w.closed ≡ true) w.opened

adopt-IsConsistent :
    (n : ℕ) (ip : Bytes) (w v : World)
    → status_of v ≡ status_of w
    → v.opened ≡ n ∷ w.opened
    → v.closed ≡ w.closed
    → length v.metrics.recent_logs ≤ 100
    → AllClosed w
    → IsConsistent w
    → IsConsistent (adopt_conn n ip v)
unfolding adopt_conn
adopt-IsConsistent n ip w v q opened closed few all h = record {
  coherent = subst IsCoherent (sym q) h.coherent;
  disposed = rw opened (
    inr refl,
    All-weaken (λ k. elem k w.closed ≡ true) _ w.opened (λ k c. inl (rw closed c)) all,
  );
  few_logs = few;
}

none-AllClosed : (w : World) → IsConsistent w → w.client.conn ≡ none → AllClosed w
none-AllClosed w h e = All-weaken _ _ w.opened go h.disposed
  where
    go : (n : ℕ) → IsDisposed w n → elem n w.closed ≡ true
    go n (inl c) = c
    go n (inr c) = cc

note_ip_change-parts :
    (now now' : ℕ) (ip : Bytes) (w : World)
    → length w.metrics.recent_logs ≤ 100
    → let v = note_ip_change now now' ip w in
      (status_of v ≡ status_of w)
      × (v.opened ≡ w.opened)
      × (v.closed ≡ w.closed)
      × (length v.metrics.recent_logs ≤ 100)
unfolding note_ip_change add_log
note_ip_change-parts now now' ip w few =
    let old = w.client.previous_local_ip in
    elim (Bool-cases (not (nothing_of old) && not (same_bytes old ip))) [
      | inl other ↦ rw other (refl, refl, refl, push_log-few _ w.metrics.recent_logs few)
      | inr same ↦ rw same (refl, refl, refl, few)
    ]

module _ (env : Outside) where
  pub clock-IsConsistent : Keeps IsConsistent (clock env)
  unfolding clock
  clock-IsConsistent = record { at = λ w h. passed-IsConsistent w h }

  pub send_packet-IsConsistent :
      (n : ℕ) (packet : Bytes) → Keeps IsConsistent (send_packet env n packet)
  unfolding send_packet
  send_packet-IsConsistent n packet = record {
    at = λ w h. (sent_packet-IsConsistent (env.write_at w.tick) n packet).at w h;
  }

  pub receive_packet-IsConsistent : Keeps IsConsistent (receive_packet env)
  unfolding receive_packet
  receive_packet-IsConsistent = record {
    at = λ w h. (given-IsConsistent (env.read_at w.tick) read_failed).at w h;
  }

  pub load_secret-IsConsistent : Keeps IsConsistent (load_secret env)
  unfolding load_secret
  load_secret-IsConsistent = record {
    at = λ w h. (given-IsConsistent (env.load_secret_at w.tick) secret_missing).at w h;
  }

  pub connect-at :
      (w : World) → IsConsistent w → w.client.conn ≡ none → IsConsistent (end (connect env w))
  unfolding connect dial ◌>>=◌ update pure
  connect-at w h e = go (env.dial_at w.tick)
    where
      go :
          (b : Bool)
          → IsConsistent (
              end (
                and_then
                  (λ n u.
                    and_then (λ _ v. returns n v) (returns tt (adopt_conn n (ip_text env n) u)))
                  (dialled b w)))
      go true =
          adopt-IsConsistent w.tick (ip_text env w.tick) w
            (record w { tick = w.tick + 1; opened = w.tick ∷ w.opened }) refl refl refl h.few_logs
            (none-AllClosed w h e) h
      go false = passed-IsConsistent w h

  -- The last steps of reconnectTCP, on a new connection.
  abbrev settle : ℕ → ℕ → ℕ → World → World
  settle n now now' u =
      on_metrics (set_ip (ip_text env n))
        (adopt_conn n (ip_text env n) (note_ip_change now now' (ip_text env n) u))

  settle-IsConsistent :
      (n now now' : ℕ) (w u : World)
      → status_of u ≡ status_of w
      → u.opened ≡ n ∷ w.opened
      → u.closed ≡ w.closed
      → length u.metrics.recent_logs ≤ 100
      → AllClosed w
      → IsConsistent w
      → IsConsistent (settle n now now' u)
  unfolding set_ip adopt_conn
  settle-IsConsistent n now now' w u q opened closed few all h =
      let ip = ip_text env n in
      let (q', opened', closed', few') = note_ip_change-parts now now' ip u few in
      let v = note_ip_change now now' ip u in
      let a =
        adopt-IsConsistent n ip w v (q' ∙ q) (opened' ∙ opened) (closed' ∙ closed) few' all h in
      record { coherent = a.coherent; disposed = a.disposed; few_logs = a.few_logs }

  pub reconnect_tcp-IsConsistent : Keeps IsConsistent (reconnect_tcp env)
  unfolding reconnect_tcp dial clock ◌>>=◌ update pure
  reconnect_tcp-IsConsistent = record { at = λ w h. go w h (env.dial_at (close_conn w).tick) }
    where
      after : ℕ → World → Exit (Unit {0})
      after n u =
          returns tt (settle n (env.now_at u.tick) (env.now_at (u.tick + 1)) (passed (passed u)))

      all : (w : World) → IsConsistent w → AllClosed (close_conn w)
      all w h =
          subst (All λ n. elem n (close_conn w).closed ≡ true)
            (sym (ap (λ v. v.opened) (close_conn-same w))) (close_conn-closed w h)

      go :
          (w : World)
          → IsConsistent w
          → (b : Bool) → IsConsistent (end (and_then after (dialled b (close_conn w))))
      go w h true =
          let v = close_conn w in
          let h' = close_conn-IsConsistent w h in
          settle-IsConsistent v.tick _ _ v
            (record v { tick = v.tick + 1 + 1 + 1; opened = v.tick ∷ v.opened }) refl refl refl
            h'.few_logs (all w h) h'
      go w h false = passed-IsConsistent (close_conn w) (close_conn-IsConsistent w h)
