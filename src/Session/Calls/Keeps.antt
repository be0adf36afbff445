-- ===== src/Session/Calls/Keeps.antt =====
-- Invariants of calls of auth/client.go, however they end: one rule for each way to build a call.
use uavlink_edge.Common.{Bool, Option, false, if◌then◌else◌, none, some, true, ℕ}
use uavlink_edge.Session.Calls.{
  Call, Exit, after_attempt, and_then, attempt, before_failure, crash, end, failing, fails,
  get_client, if_connected, on_failure, panics, parsed, pure, raise, relabel, returns, update,
  with_failure, ◌>>=◌,
}
use uavlink_edge.Session.World.{Failure, World}
use uavlink_edge.Wire.Cursor.{Outcome, err, ok, panic}

-- The call `m` keeps `P`.
pub record Keeps {A : Type 0} (P : World → Type 0) (m : Call A) : Type 0 where
  pub at : (w : World) → P w → P (end (m w))

failing-end :
    (A : Type 0) (P : World → Type 0) (e : Failure) (x : Exit (Unit {0}))
    → P (end x)
    → P (end (failing {A = A} e x))
failing-end A P e (returns a v) h = h
failing-end A P e (fails f v) h = h
failing-end A P e (panics v) h = h

module _ {A : Type 0} {P : World → Type 0} where
  pub Keeps-pure : (a : A) → Keeps P (pure a)
  unfolding pure
  Keeps-pure a = record { at = λ w h. h }

  pub Keeps-raise : (e : Failure) → Keeps P (raise {A = A} e)
  unfolding raise
  Keeps-raise e = record { at = λ w h. h }

  pub Keeps-crash : Keeps P (crash {A = A})
  unfolding crash
  Keeps-crash = record { at = λ w h. h }

  pub Keeps-parsed : (x : Outcome A) → Keeps P (parsed x)
  unfolding parsed
  Keeps-parsed (ok a) = record { at = λ w h. h }
  Keeps-parsed (err e) = record { at = λ w h. h }
  Keeps-parsed panic = record { at = λ w h. h }

  pub Keeps-if : (b : Bool) (m n : Call A) → Keeps P m → Keeps P n → Keeps P (if b then m else n)
  Keeps-if true m n hm hn = hm
  Keeps-if false m n hm hn = hn

  pub Keeps-if_connected :
      (o : Option ℕ) (m : Call A) (f : ℕ → Call A)
      → Keeps P m
      → ((n : ℕ) → Keeps P (f n))
      → Keeps P (if_connected o m f)
  Keeps-if_connected none m f hm hf = hm
  Keeps-if_connected (some n) m f hm hf = hf n

  pub Keeps-relabel : (f : Failure → Failure) (m : Call A) → Keeps P m → Keeps P (relabel f m)
  unfolding relabel
  Keeps-relabel f m hm = record { at = λ w h. go (m w) (hm.at w h) }
    where
      go : (x : Exit A) → P (end x) → P (end (with_failure f x))
      go (returns a v) h = h
      go (fails e v) h = h
      go (panics v) h = h

  pub Keeps-on_failure :
      (k : Call (Unit {0})) (m : Call A) → Keeps P k → Keeps P m → Keeps P (on_failure k m)
  unfolding on_failure
  Keeps-on_failure k m hk hm = record { at = λ w h. go (m w) (hm.at w h) }
    where
      go : (x : Exit A) → P (end x) → P (end (before_failure k x))
      go (returns a v) h = h
      go (fails e v) h = failing-end A P e (k v) (hk.at v h)
      go (panics v) h = h

module _ {A B : Type 0} {P : World → Type 0} where
  pub Keeps-bind :
      (m : Call A) (f : A → Call B) → Keeps P m → ((a : A) → Keeps P (f a)) → Keeps P (m >>= f)
  unfolding ◌>>=◌
  Keeps-bind m f hm hf = record { at = λ w h. go (m w) (hm.at w h) }
    where
      go : (x : Exit A) → P (end x) → P (end (and_then f x))
      go (returns a v) h = (hf a).at v h
      go (fails e v) h = h
      go (panics v) h = h

  pub Keeps-attempt :
      (m : Call A) (g : Failure → Call B) (f : A → Call B)
      → Keeps P m
      → ((e : Failure) → Keeps P (g e))
      → ((a : A) → Keeps P (f a))
      → Keeps P (attempt m g f)
  unfolding attempt
  Keeps-attempt m g f hm hg hf = record { at = λ w h. go (m w) (hm.at w h) }
    where
      go : (x : Exit A) → P (end x) → P (end (after_attempt g f x))
      go (returns a v) h = (hf a).at v h
      go (fails e v) h = (hg e).at v h
      go (panics v) h = h

module _ {P : World → Type 0} where
  pub Keeps-get_client : Keeps P get_client
  unfolding get_client
  Keeps-get_client = record { at = λ w h. h }

  pub Keeps-update : (f : World → World) → ((w : World) → P w → P (f w)) → Keeps P (update f)
  unfolding update
  Keeps-update f h = record { at = h }

pub ruleset keeps_rules = (
  Keeps-pure, Keeps-raise, Keeps-crash, Keeps-parsed, Keeps-if, Keeps-if_connected, Keeps-attempt,
  Keeps-relabel, Keeps-on_failure, Keeps-bind, Keeps-get_client,
)
