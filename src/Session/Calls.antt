-- ===== src/Session/Calls.antt =====
-- Calls of auth/client.go that end in a value, an error or a run-time panic, and the interactions
-- with the outside.
pub mod Keeps
-- How a call ends, and the world that it leaves.
use uavlink_edge.Common.{
  Bool, List, Option, [], false, if◌then◌else◌, ltb, none, some, true, ℕ, ◌%◌, ◌&&◌, ◌*◌, ◌+◌, ◌-◌,
  ◌/◌, ◌==◌, ◌^◌, ◌∷◌,
}
use uavlink_edge.Link.Step.{second}
use uavlink_edge.Session.World.{
  Client, Failure, Outside, World, bad_packet, connection_failed, read_failed, write_failed,
}
use uavlink_edge.Wire.Bytes.{Bytes}
use uavlink_edge.Wire.Cursor.{Outcome, err, ok, panic}

pub data Exit (A : Type 0) : Type 0 where
  returns : A → World → Exit A
  fails : Failure → World → Exit A
  panics : World → Exit A

abbrev pub Call : Type 0 → Type 0
Call A = World → Exit A

module _ {A : Type 0} where
  abbrev pub end : Exit A → World
  end (returns a w) = w
  end (fails e w) = w
  end (panics w) = w

  unfoldable pub pure : A → Call A
  pure a w = returns a w

  unfoldable pub raise : Failure → Call A
  raise e w = fails e w

  unfoldable pub crash : Call A
  crash w = panics w

  abbrev pub failing : Failure → Exit (Unit {0}) → Exit A
  failing e (returns a w) = fails e w
  failing e (fails f w) = fails f w
  failing e (panics w) = panics w

  abbrev pub before_failure : Call (Unit {0}) → Exit A → Exit A
  before_failure k (returns a w) = returns a w
  before_failure k (fails e w) = failing e (k w)
  before_failure k (panics w) = panics w

  -- Do `k` before an error of `m` is returned.
  unfoldable pub on_failure : Call (Unit {0}) → Call A → Call A
  on_failure k m w = before_failure k (m w)

  abbrev pub with_failure : (Failure → Failure) → Exit A → Exit A
  with_failure f (returns a w) = returns a w
  with_failure f (fails e w) = fails (f e) w
  with_failure f (panics w) = panics w

  -- Return another error in place of an error of `m`.
  unfoldable pub relabel : (Failure → Failure) → Call A → Call A
  relabel f m w = with_failure f (m w)

abbrev pub and_then : {A B : Type 0} → (A → Call B) → Exit A → Exit B
and_then f (returns a w) = f a w
and_then f (fails e w) = fails e w
and_then f (panics w) = panics w

infixl 5 ◌>>=◌ ◌>>◌
unfoldable pub ◌>>=◌ : {A B : Type 0} → Call A → (A → Call B) → Call B
◌>>=◌ m f w = and_then f (m w)

abbrev pub after_attempt : {A B : Type 0} → (Failure → Call B) → (A → Call B) → Exit A → Exit B
after_attempt g f (returns a w) = f a w
after_attempt g f (fails e w) = g e w
after_attempt g f (panics w) = panics w

-- if err := m; err != nil { g } else { f }
unfoldable pub attempt : {A B : Type 0} → Call A → (Failure → Call B) → (A → Call B) → Call B
attempt m g f w = after_attempt g f (m w)

-- if conn == nil { m } else { f }
abbrev pub if_connected : {A : Type 0} → Option ℕ → Call A → (ℕ → Call A) → Call A
if_connected none m f = m
if_connected (some n) m f = f n

abbrev pub ◌>>◌ : {A : Type 0} → Call (Unit {0}) → Call A → Call A
m >> k = m >>= λ _. k

-- The state of the client.
unfoldable pub get_client : Call Client
get_client w = returns w.client w

unfoldable pub update : (World → World) → Call (Unit {0})
update f w = returns tt (f w)

abbrev pub passed : World → World
passed w = record w { tick = w.tick + 1 }

abbrev pub nothing_of {ℓ} : {A : Type ℓ} → List A → Bool
nothing_of [] = true
nothing_of (x ∷ xs) = false

-- Equality of strings.
abbrev pub same_bytes : Bytes → Bytes → Bool
same_bytes [] [] = true
same_bytes [] (b ∷ bs) = false
same_bytes (a ∷ rest) [] = false
same_bytes (a ∷ rest) (b ∷ bs) = a == b && same_bytes rest bs

-- Seconds from Go's zero time to 1970.
abbrev pub unix_to_internal : ℕ
unix_to_internal = 62135596800

-- time.Unix(int64(s), 0). The sum wraps around to a time before the zero time, for which 0 stands:
-- the client only asks whether now is before the result.
abbrev pub time_unix : ℕ → ℕ
time_unix s = let t = (s + unix_to_internal) % 2 ^ 64 in if ltb t (2 ^ 63) then t * second else 0

-- uint64(t.Unix())
abbrev pub unix_of : ℕ → ℕ
unix_of t = (t / second + 2 ^ 64 - unix_to_internal) % 2 ^ 64

abbrev pub dialled : Bool → Call ℕ
dialled true w = returns w.tick (record w { tick = w.tick + 1; opened = w.tick ∷ w.opened })
dialled false w = fails connection_failed (passed w)

abbrev pub sent_packet : Bool → ℕ → Bytes → Call (Unit {0})
sent_packet true conn packet w =
    returns tt (record w { tick = w.tick + 1; written = (conn, packet) ∷ w.written })
sent_packet false conn packet w = fails write_failed (passed w)

-- The value that an interaction gives, or an error.
abbrev pub given : {A : Type 0} → Option A → Failure → Call A
given none e w = fails e (passed w)
given (some a) e w = returns a (passed w)

module _ (env : Outside) where
  unfoldable pub clock : Call ℕ
  clock w = returns (env.now_at w.tick) (passed w)

  unfoldable pub dial : Call ℕ
  dial w = dialled (env.dial_at w.tick) w

  -- conn.Write
  unfoldable pub send_packet : ℕ → Bytes → Call (Unit {0})
  send_packet conn packet w = sent_packet (env.write_at w.tick) conn packet w

  -- conn.Read, with its deadline
  unfoldable pub receive_packet : Call Bytes
  receive_packet w = given (env.read_at w.tick) read_failed w

  -- What ip.String() gives, "<nil>" for none.
  abbrev pub ip_text : ℕ → Bytes
  ip_text conn = elim (env.local_ip conn) [ none ↦ 60 ∷ 110 ∷ 105 ∷ 108 ∷ 62 ∷ [] | some ip ↦ ip ]

-- A Parse function's result.
unfoldable pub parsed : {A : Type 0} → Outcome A → Call A
parsed (ok a) w = returns a w
parsed (err e) w = fails (bad_packet e) w
parsed panic w = panics w
