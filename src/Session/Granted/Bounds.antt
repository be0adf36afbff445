-- ===== src/Session/Granted/Bounds.antt =====
-- The hours of an API key that auth/client_apikey.go asks for.
use uavlink_edge.Common.{arith, ℕ, ◌%◌, ◌^◌, ◌≡◌, ◌≤◌}
use Prim.Native.Nat.{max, min}
use uavlink_edge.Session.Keys.{clamp_hours}

-- Whatever hours the caller asks for, the request has the hours of the range from 1 to 720 that are
-- nearest, and no bits are lost when they are written as 16 bits.
pub clamp_hours-bounds :
    (hours : ℕ)
    → (clamp_hours hours ≡ max 1 (min hours 720))
      × (1 ≤ clamp_hours hours)
      × (clamp_hours hours ≤ 720)
      × (clamp_hours hours % 2 ^ 16 ≡ clamp_hours hours)
unfolding clamp_hours
clamp_hours-bounds hours = ground arith
