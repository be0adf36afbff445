-- ===== src/Session/Granted.antt =====
-- What a handshake of auth/client.go that returns has seen: the packets of the server that it read,
-- what it wrote, and the session that it stored.
pub mod Bounds
pub mod Exchange
pub mod Authenticated
use uavlink_edge.Common.{
  Bool, Option, ap, false, if◌then◌else◌, none, refl, some, true, ℕ, ◌+◌, ◌∷◌, ◌≡◌,
}
use uavlink_edge.Session.Calls.{
  Call, Exit, and_then, before_failure, end, failing, fails, given, on_failure, panics, parsed,
  passed, pure, raise, receive_packet, returns, send_packet, sent_packet, ◌>>=◌, ◌>>◌,
}
use uavlink_edge.Session.World.{Failure, Outside, World, read_failed}
use uavlink_edge.Wire.Bytes.{Bytes}
use uavlink_edge.Wire.Cursor.{Outcome, err, ok, panic}

-- A call that returns has returned at each step.
pub record Returned {A B : Type 0} (m : Call A) (f : A → Call B) (w : World) (b : B) (v : World)
    : Type 0 where
  pub value : A
  pub world : World
  pub first : m w ≡ returns value world
  pub rest : f value world ≡ returns b v

pub bind-inversion :
    {A B : Type 0} (m : Call A) (f : A → Call B) (w : World) (b : B) (v : World)
    → (m >>= f) w ≡ returns b v
    → Returned m f w b v
unfolding ◌>>=◌
bind-inversion {A} {B} m f w b v e = go (m w) refl e
  where
    go : (x : Exit A) → m w ≡ x → and_then f x ≡ returns b v → Returned m f w b v
    go (returns a u) q h = record { value = a; world = u; first = q; rest = h }
    go (fails failure u) q h = cc
    go (panics u) q h = cc

pub on_failure-inversion :
    {A : Type 0} (k : Call (Unit {0})) (m : Call A) (w v : World) (a : A)
    → on_failure k m w ≡ returns a v
    → m w ≡ returns a v
unfolding on_failure
on_failure-inversion {A} k m w v a = go (m w)
  where
    no_return : (e : Failure) (x : Exit (Unit {0})) → failing {A = A} e x ≡ returns a v → ⊥
    no_return e (returns u world) h = cc
    no_return e (fails failure world) h = cc
    no_return e (panics world) h = cc

    go : (x : Exit A) → before_failure k x ≡ returns a v → x ≡ returns a v
    go (returns b u) h = h
    go (fails failure u) h = absurd (no_return failure (k u) h)
    go (panics u) h = cc

pub end-returns :
    {A : Type 0} (a b : A) (w v : World) → returns a w ≡ returns b v → (a ≡ b) × (w ≡ v)
end-returns {A} a b w v h = (ap value_of h, ap end h)
  where
    value_of : Exit A → A
    value_of (returns x u) = x
    value_of _ = a

-- The world after a packet is written.
abbrev pub after_write : ℕ → Bytes → World → World
after_write conn packet w = record w { tick = w.tick + 1; written = (conn, packet) ∷ w.written }

module _ {B : Type 0} (b : B) (v : World) where
  pub send-inversion :
      (env : Outside) (n : ℕ) (packet : Bytes) (k : Call B) (w : World)
      → (send_packet env n packet >> k) w ≡ returns b v
      → k (after_write n packet w) ≡ returns b v
  unfolding send_packet ◌>>=◌
  send-inversion env n packet k w = go (env.write_at w.tick)
    where
      go :
          (t : Bool)
          → and_then (λ u. k) (sent_packet t n packet w) ≡ returns b v
          → k (after_write n packet w) ≡ returns b v
      go true h = h
      go false h = cc

  pub receive-inversion :
      (env : Outside) (f : Bytes → Call B) (w : World)
      → (receive_packet env >>= f) w ≡ returns b v
      → (reply : Bytes) × (env.read_at w.tick ≡ some reply) × (f reply (passed w) ≡ returns b v)
  unfolding receive_packet ◌>>=◌
  receive-inversion env f w h = go (env.read_at w.tick) refl h
    where
      go :
          (o : Option Bytes)
          → env.read_at w.tick ≡ o
          → and_then f (given o read_failed w) ≡ returns b v
          → (reply : Bytes) × (env.read_at w.tick ≡ some reply) × (f reply (passed w) ≡ returns b v)
      go none q h = cc
      go (some reply) q h = (reply, q, h)

  pub parsed-inversion :
      {A : Type 0} (x : Outcome A) (f : A → Call B) (w : World)
      → (parsed x >>= f) w ≡ returns b v
      → (a : A) × (x ≡ ok a) × (f a w ≡ returns b v)
  unfolding parsed ◌>>=◌
  parsed-inversion (ok a) f w h = (a, refl, h)
  parsed-inversion (err e) f w h = cc
  parsed-inversion panic f w h = cc

  pub check-inversion :
      (t : Bool) (a : B) (e : Failure) (w : World)
      → (if t then pure a else raise e) w ≡ returns b v
      → (t ≡ true) × (a ≡ b) × (w ≡ v)
  unfolding pure raise
  check-inversion true a e w h = let (value, world) = end-returns a b w v h in (refl, value, world)
  check-inversion false a e w h = cc
