-- ===== src/Session/Panics.antt =====
-- When a call of auth/client.go panics: one rule for each way to build a call.
pub mod Sessions
pub mod Methods
use uavlink_edge.Common.{Bool, Option, false, if◌then◌else◌, none, refl, some, true, ℕ}
use uavlink_edge.Session.Calls.{
  Call, Exit, after_attempt, and_then, attempt, before_failure, clock, dial, dialled, fails,
  get_client, given, if_connected, on_failure, panics, parsed, pure, raise, receive_packet, relabel,
  returns, send_packet, sent_packet, update, with_failure, ◌>>=◌,
}
use uavlink_edge.Session.World.{Failure, Outside, World, read_failed}
use uavlink_edge.Wire.Bytes.{Bytes}
use uavlink_edge.Wire.Cursor.{Outcome, err, ok, panic}
use uavlink_edge.Wire.Cursor.Safety.{NoPanic}

abbrev pub OnPanic : {A : Type 0} → (World → Type 0) → Exit A → Type 0
OnPanic Q (returns a w) = Unit {0}
OnPanic Q (fails e w) = Unit {0}
OnPanic Q (panics w) = Q w

-- If the call `m` panics, then `Q` holds of the world that it leaves.
pub record Panics {A : Type 0} (Q : World → Type 0) (m : Call A) : Type 0 where
  pub at : (w : World) → OnPanic Q (m w)

module _ {A : Type 0} {Q : World → Type 0} where
  pub Panics-pure : (a : A) → Panics Q (pure a)
  unfolding pure
  Panics-pure a = record { at = λ w. tt }

  pub Panics-raise : (e : Failure) → Panics Q (raise {A = A} e)
  unfolding raise
  Panics-raise e = record { at = λ w. tt }

  pub Panics-parsed : (x : Outcome A) → NoPanic x → Panics Q (parsed x)
  unfolding parsed
  Panics-parsed (ok a) h = record { at = λ w. tt }
  Panics-parsed (err e) h = record { at = λ w. tt }
  Panics-parsed panic h = absurd (h refl)

  pub Panics-if :
      (b : Bool) (m n : Call A) → Panics Q m → Panics Q n → Panics Q (if b then m else n)
  Panics-if true m n hm hn = hm
  Panics-if false m n hm hn = hn

  pub Panics-if_connected :
      (o : Option ℕ) (m : Call A) (f : ℕ → Call A)
      → Panics Q m
      → ((n : ℕ) → Panics Q (f n))
      → Panics Q (if_connected o m f)
  Panics-if_connected none m f hm hf = hm
  Panics-if_connected (some n) m f hm hf = hf n

  pub Panics-relabel : (f : Failure → Failure) (m : Call A) → Panics Q m → Panics Q (relabel f m)
  unfolding relabel
  Panics-relabel f m hm = record { at = λ w. go (m w) (hm.at w) }
    where
      go : (x : Exit A) → OnPanic Q x → OnPanic Q (with_failure f x)
      go (returns a v) h = tt
      go (fails e v) h = tt
      go (panics v) h = h

module _ {A B : Type 0} {Q : World → Type 0} where
  pub Panics-bind :
      (m : Call A) (f : A → Call B) → Panics Q m → ((a : A) → Panics Q (f a)) → Panics Q (m >>= f)
  unfolding ◌>>=◌
  Panics-bind m f hm hf = record { at = λ w. go (m w) (hm.at w) }
    where
      go : (x : Exit A) → OnPanic Q x → OnPanic Q (and_then f x)
      go (returns a v) h = (hf a).at v
      go (fails e v) h = tt
      go (panics v) h = h

  pub Panics-attempt :
      (m : Call A) (g : Failure → Call B) (f : A → Call B)
      → Panics Q m
      → ((e : Failure) → Panics Q (g e))
      → ((a : A) → Panics Q (f a))
      → Panics Q (attempt m g f)
  unfolding attempt
  Panics-attempt m g f hm hg hf = record { at = λ w. go (m w) (hm.at w) }
    where
      go : (x : Exit A) → OnPanic Q x → OnPanic Q (after_attempt g f x)
      go (returns a v) h = (hf a).at v
      go (fails e v) h = (hg e).at v
      go (panics v) h = h

module _ {Q : World → Type 0} where
  -- An error leads to an update that does not panic.
  pub Panics-on_failure :
      {A : Type 0} (f : World → World) (m : Call A)
      → Panics Q m
      → Panics Q (on_failure (update f) m)
  unfolding on_failure update
  Panics-on_failure {A} f m hm = record { at = λ w. go (m w) (hm.at w) }
    where
      go : (x : Exit A) → OnPanic Q x → OnPanic Q (before_failure (update f) x)
      go (returns a v) h = tt
      go (fails e v) h = tt
      go (panics v) h = h

  pub Panics-get_client : Panics Q get_client
  unfolding get_client
  Panics-get_client = record { at = λ w. tt }

  pub Panics-update : (f : World → World) → Panics Q (update f)
  unfolding update
  Panics-update f = record { at = λ w. tt }

  pub Panics-given : {A : Type 0} (o : Option A) (e : Failure) → Panics Q (given o e)
  Panics-given none e = record { at = λ w. tt }
  Panics-given (some a) e = record { at = λ w. tt }

  pub Panics-clock : (env : Outside) → Panics Q (clock env)
  unfolding clock
  Panics-clock env = record { at = λ w. tt }

  pub Panics-dial : (env : Outside) → Panics Q (dial env)
  unfolding dial
  Panics-dial env = record { at = λ w. go (env.dial_at w.tick) w }
    where
      go : (b : Bool) (w : World) → OnPanic Q (dialled b w)
      go true w = tt
      go false w = tt

  pub Panics-send_packet :
      (env : Outside) (n : ℕ) (packet : Bytes) → Panics Q (send_packet env n packet)
  unfolding send_packet
  Panics-send_packet env n packet = record { at = λ w. go (env.write_at w.tick) w }
    where
      go : (b : Bool) (w : World) → OnPanic Q (sent_packet b n packet w)
      go true w = tt
      go false w = tt

  pub Panics-receive_packet : (env : Outside) → Panics Q (receive_packet env)
  unfolding receive_packet
  Panics-receive_packet env = record {
    at = λ w. (Panics-given (env.read_at w.tick) read_failed).at w;
  }

pub ruleset panics_rules = (
  Panics-pure, Panics-raise, Panics-parsed, Panics-if, Panics-if_connected, Panics-relabel,
  Panics-bind, Panics-attempt, Panics-on_failure, Panics-get_client, Panics-update, Panics-clock,
  Panics-dial, Panics-send_packet, Panics-receive_packet,
)
