-- ===== src/Session/Consistent/Parts.antt =====
-- The invariant of auth/client.go under each update of the world.
use uavlink_edge.Common.{
  All, All-weaken, Bool-cases, List, Option, arith, false, inl, inr, length, length-append,
  length-drop, none, refl, some, sym, true, ℕ, ◌∙◌, ◌≡◌, ◌≤◌,
}
use Prim.Native.String.{String}
use mathlib.Core.Option.{some-injective}
use mathlib.Core.Path.{subst}
use text.Mathlib.Text.{◌==◌ as str_eq}
use uavlink_edge.Forward.History.Laws.{elem}
use uavlink_edge.Metrics.{
  LogEntry, Metrics, add_log, push_log, set_auth_status, set_disconnect_reason, set_last_refresh_ok,
}
use uavlink_edge.Session.Consistent.{IsCoherent, IsConsistent, IsDisposed, status_of}
use uavlink_edge.Session.Handshake.{close_conn, close_on, reset_conn}
use uavlink_edge.Session.Status.{connected_at, disconnected_at, status_reconnecting}
use uavlink_edge.Session.World.{
  Client, DisconnectCause, LogMessage, World, cause_text, server_disconnected,
}

-- An update that leaves the status, the connections and the logs alone.
quiet-IsConsistent :
    (w v : World)
    → status_of v ≡ status_of w
    → All (IsDisposed v) v.opened
    → length v.metrics.recent_logs ≤ 100
    → IsConsistent w
    → IsConsistent v
quiet-IsConsistent w v q disposed few h = record {
  coherent = subst IsCoherent (sym q) h.coherent;
  disposed = disposed;
  few_logs = few;
}

pub push_log-few :
    (e : LogEntry LogMessage) (logs : List (LogEntry LogMessage))
    → length logs ≤ 100
    → length (push_log e logs) ≤ 100
unfolding push_log
push_log-few e logs h = grind (arith, length-append, length-drop)

pub connected_at-IsConsistent :
    (now now' : ℕ) (w : World) → IsConsistent w → IsConsistent (connected_at now now' w)
unfolding connected_at set_auth_status set_disconnect_reason set_last_refresh_ok
connected_at-IsConsistent now now' w h = record {
  coherent = record { shown = refl; reason = refl; live = λ p. (refl, refl, refl) };
  disposed = h.disposed;
  few_logs = h.few_logs;
}

disconnected-parts :
    (reason : String) (now : ℕ) (m : Metrics LogMessage)
    → let m' = set_disconnect_reason reason (set_auth_status now "Disconnected" m) in
      (m'.server_reachable ≡ false)
      × (m'.disconnect_reason ≡ reason)
      × (m'.recent_logs ≡ m.recent_logs)
unfolding set_auth_status set_disconnect_reason
disconnected-parts reason now m = elim (Bool-cases (str_eq reason "")) [
  | inl nothing ↦ rw nothing (refl, refl, refl)
  | inr something ↦ rw something (refl, refl, refl)
]

pub disconnected_at-IsConsistent :
    (cause : DisconnectCause) (now : ℕ) (w : World)
    → IsConsistent w
    → IsConsistent (disconnected_at cause now w)
unfolding disconnected_at add_log
disconnected_at-IsConsistent cause now w h =
    let (offline, reason, logs) = disconnected-parts (cause_text cause) now w.metrics in
    record {
      coherent = record { shown = offline; reason = reason; live = λ p. cc };
      disposed = h.disposed;
      few_logs =
          (push_log-few (record { time = now; level = "WARN"; message = server_disconnected cause })
            _ (subst (λ l. length l ≤ 100) (sym logs) h.few_logs));
    }

pub reconnecting-IsConsistent :
    (w : World)
    → w.client.server_reachable ≡ false
    → IsConsistent w
    → IsConsistent (status_reconnecting w)
unfolding status_reconnecting set_auth_status
reconnecting-IsConsistent w offline h = record {
  coherent = record { shown = sym offline; reason = h.coherent.reason; live = λ p. cc };
  disposed = h.disposed;
  few_logs = h.few_logs;
}

close_on-disposed :
    (c : Option ℕ) (w : World) (n : ℕ)
    → w.client.conn ≡ c
    → IsDisposed w n
    → elem n (close_on c w).closed ≡ true
close_on-disposed none w n e (inl was) = was
close_on-disposed none w n e (inr now) = cc
close_on-disposed (some k) w n e (inl was) = ground arith
close_on-disposed (some k) w n e (inr now) =
    let same : k ≡ n = some-injective _ _ (sym e ∙ now) in ground arith

-- After the connection is closed, every connection is.
pub close_conn-closed :
    (w : World) → IsConsistent w → All (λ n. elem n (close_conn w).closed ≡ true) w.opened
unfolding close_conn
close_conn-closed w h =
    All-weaken (IsDisposed w) _ w.opened (λ n d. close_on-disposed w.client.conn w n refl d)
      h.disposed

pub close_conn-same : (w : World) → close_conn w ≡ record w { closed = (close_conn w).closed }
unfolding close_conn
close_conn-same w = go w.client.conn
  where
    go : (c : Option ℕ) → close_on c w ≡ record w { closed = (close_on c w).closed }
    go none = refl
    go (some n) = refl

pub close_conn-IsConsistent : (w : World) → IsConsistent w → IsConsistent (close_conn w)
close_conn-IsConsistent w h = rw (close_conn-same w) (
    quiet-IsConsistent w (record w { closed = (close_conn w).closed }) refl
      (All-weaken _ _ w.opened (λ n c. inl c) (close_conn-closed w h)) h.few_logs h)

pub reset_conn-IsConsistent : (w : World) → IsConsistent w → IsConsistent (reset_conn w)
unfolding reset_conn
reset_conn-IsConsistent w h =
    let v = close_conn w in
    rw (close_conn-same w) (
      quiet-IsConsistent w
        (record w { closed = (close_conn w).closed; client = record w.client { conn = none } }) refl
        (All-weaken _ _ w.opened (λ n c. inl c) (close_conn-closed w h)) h.few_logs h)

-- The client may change but for its status and its connection.
pub client-IsConsistent :
    (w : World) (c : Client)
    → status_of (record w { client = c }) ≡ status_of w
    → c.conn ≡ w.client.conn
    → IsConsistent w
    → IsConsistent (record w { client = c })
client-IsConsistent w c q same h =
    quiet-IsConsistent w (record w { client = c }) q (rw same h.disposed) h.few_logs h
