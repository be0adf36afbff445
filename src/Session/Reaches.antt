-- ===== src/Session/Reaches.antt =====
-- What a call of auth/client.go, begun while the server is not reachable, says of the server when it
-- ends: one rule for each way to build a call.
pub mod Recovery
pub mod Settled
use uavlink_edge.Common.{
  Bool, Option, false, if◌then◌else◌, none, refl, some, sym, true, ℕ, ◌∙◌, ◌≡◌,
}
use uavlink_edge.Session.Calls.{
  Call, Exit, after_attempt, and_then, attempt, before_failure, clock, crash, dial, dialled, fails,
  get_client, given, if_connected, on_failure, panics, parsed, pure, raise, receive_packet, relabel,
  returns, send_packet, sent_packet, update, with_failure, ◌>>=◌,
}
use uavlink_edge.Session.World.{Failure, Outside, World, read_failed}
use uavlink_edge.Wire.Bytes.{Bytes}
use uavlink_edge.Wire.Cursor.{Outcome, err, ok, panic}

-- `good` says for each value whether the server is reachable when the call returns it. After an error
-- it is not, and there is no error unless `fallible`.
abbrev pub OnEnd : {A : Type 0} → Bool → (A → Bool) → Exit A → Type 0
OnEnd fallible good (returns a v) = v.client.server_reachable ≡ good a
OnEnd fallible good (fails e v) = (fallible ≡ true) × (v.client.server_reachable ≡ false)
OnEnd fallible good (panics v) = Unit {0}

pub record Reaches {A : Type 0} (fallible : Bool) (good : A → Bool) (m : Call A) : Type 0 where
  pub at : (w : World) → w.client.server_reachable ≡ false → OnEnd fallible good (m w)

-- A step does not reach the server; `Yes` reaches it unless it fails.
abbrev pub Step : {A : Type 0} → Bool → Call A → Type 0
Step fallible m = Reaches fallible (λ a. false) m

module _ {A : Type 0} {b : Bool} {good : A → Bool} where
  pub Reaches-pure : (a : A) → good a ≡ false → Reaches b good (pure a)
  unfolding pure
  Reaches-pure a h = record { at = λ w offline. offline ∙ sym h }

  pub Reaches-if :
      (t : Bool) (m n : Call A)
      → Reaches b good m
      → Reaches b good n
      → Reaches b good (if t then m else n)
  Reaches-if true m n hm hn = hm
  Reaches-if false m n hm hn = hn

  pub Reaches-if_connected :
      (o : Option ℕ) (m : Call A) (f : ℕ → Call A)
      → Reaches b good m
      → ((n : ℕ) → Reaches b good (f n))
      → Reaches b good (if_connected o m f)
  Reaches-if_connected none m f hm hf = hm
  Reaches-if_connected (some n) m f hm hf = hf n

  pub Reaches-crash : Reaches b good crash
  unfolding crash
  Reaches-crash = record { at = λ w offline. tt }

module _ {A : Type 0} {good : A → Bool} where
  pub Reaches-raise : (e : Failure) → Reaches true good (raise {A = A} e)
  unfolding raise
  Reaches-raise e = record { at = λ w offline. (refl, offline) }

  pub Reaches-relabel :
      (f : Failure → Failure) (m : Call A) → Reaches true good m → Reaches true good (relabel f m)
  unfolding relabel
  Reaches-relabel f m hm = record { at = λ w offline. go (m w) (hm.at w offline) }
    where
      go : (x : Exit A) → OnEnd true good x → OnEnd true good (with_failure f x)
      go (returns a v) h = h
      go (fails e v) h = h
      go (panics v) h = h

  pub Reaches-on_failure :
      (f : World → World) (m : Call A)
      → ((w : World) → (f w).client.server_reachable ≡ w.client.server_reachable)
      → Reaches true good m
      → Reaches true good (on_failure (update f) m)
  unfolding on_failure update
  Reaches-on_failure f m same hm = record { at = λ w offline. go (m w) (hm.at w offline) }
    where
      go : (x : Exit A) → OnEnd true good x → OnEnd true good (before_failure (update f) x)
      go (returns a v) h = h
      go (fails e v) h = (refl, same v ∙ h.1)
      go (panics v) h = h

module _ {A B : Type 0} {b : Bool} {good : B → Bool} where
  pub Reaches-bind :
      (m : Call A) (f : A → Call B)
      → Step b m
      → ((a : A) → Reaches b good (f a))
      → Reaches b good (m >>= f)
  unfolding ◌>>=◌
  Reaches-bind m f hm hf = record { at = λ w offline. go (m w) (hm.at w offline) }
    where
      go : (x : Exit A) → OnEnd b (λ a. false) x → OnEnd b good (and_then f x)
      go (returns a v) h = (hf a).at v h
      go (fails e v) h = h
      go (panics v) h = h

  pub Reaches-attempt :
      (m : Call A) (g : Failure → Call B) (f : A → Call B)
      → Step true m
      → ((e : Failure) → Reaches b good (g e))
      → ((a : A) → Reaches b good (f a))
      → Reaches b good (attempt m g f)
  unfolding attempt
  Reaches-attempt m g f hm hg hf = record { at = λ w offline. go (m w) (hm.at w offline) }
    where
      go : (x : Exit A) → OnEnd true (λ a. false) x → OnEnd b good (after_attempt g f x)
      go (returns a v) h = (hf a).at v h
      go (fails e v) h = (hg e).at v h.1
      go (panics v) h = h

-- A call that reaches the server unless it fails, and then reports so.
pub Reaches-report :
    {A : Type 0} (m : Call A) (g : Failure → Call Bool)
    → Reaches true (λ a. true) m
    → ((e : Failure) → Reaches false (λ ok. ok) (g e))
    → Reaches false (λ ok. ok) (attempt m g (λ a. pure true))
unfolding attempt pure
Reaches-report {A} m g hm hg = record { at = λ w offline. go (m w) (hm.at w offline) }
  where
    go :
        (x : Exit A)
        → OnEnd true (λ a. true) x
        → OnEnd false (λ ok. ok) (after_attempt g (λ a. pure true) x)
    go (returns a v) h = h
    go (fails e v) h = (hg e).at v h.1
    go (panics v) h = h

module _ {b : Bool} where
  pub Reaches-get_client : Step b get_client
  unfolding get_client
  Reaches-get_client = record { at = λ w offline. offline }

  pub Reaches-update :
      (f : World → World)
      → ((w : World) → (f w).client.server_reachable ≡ w.client.server_reachable)
      → Step b (update f)
  unfolding update
  Reaches-update f same = record { at = λ w offline. same w ∙ offline }

  pub Reaches-clock : (env : Outside) → Step b (clock env)
  unfolding clock
  Reaches-clock env = record { at = λ w offline. offline }

pub Reaches-parsed : {A : Type 0} (x : Outcome A) → Step true (parsed x)
unfolding parsed
Reaches-parsed (ok a) = record { at = λ w offline. offline }
Reaches-parsed (err e) = record { at = λ w offline. (refl, offline) }
Reaches-parsed panic = record { at = λ w offline. tt }

pub Reaches-given : {A : Type 0} (o : Option A) (e : Failure) → Step true (given o e)
Reaches-given none e = record { at = λ w offline. (refl, offline) }
Reaches-given (some a) e = record { at = λ w offline. offline }

module _ (env : Outside) where
  pub Reaches-dial : Step true (dial env)
  unfolding dial
  Reaches-dial = record { at = λ w offline. go (env.dial_at w.tick) w offline }
    where
      go :
          (t : Bool) (w : World)
          → w.client.server_reachable ≡ false
          → OnEnd true (λ n. false) (dialled t w)
      go true w offline = offline
      go false w offline = (refl, offline)

  pub Reaches-send_packet : (n : ℕ) (packet : Bytes) → Step true (send_packet env n packet)
  unfolding send_packet
  Reaches-send_packet n packet = record { at = λ w offline. go (env.write_at w.tick) w offline }
    where
      go :
          (t : Bool) (w : World)
          → w.client.server_reachable ≡ false
          → OnEnd true (λ u. false) (sent_packet t n packet w)
      go true w offline = offline
      go false w offline = (refl, offline)

  pub Reaches-receive_packet : Step true (receive_packet env)
  unfolding receive_packet
  Reaches-receive_packet = record {
    at = λ w offline. (Reaches-given (env.read_at w.tick) read_failed).at w offline;
  }

pub ruleset reaches_rules = (
  Reaches-pure, Reaches-raise, Reaches-parsed, Reaches-if, Reaches-if_connected, Reaches-crash,
  Reaches-relabel, Reaches-bind, Reaches-attempt, Reaches-report, Reaches-get_client, Reaches-clock,
  Reaches-dial, Reaches-send_packet, Reaches-receive_packet,
)
