-- ===== src/Common/Bits.antt =====
-- Bitwise operations on native numbers whose digits do not meet.
use Prim.Native.Nat.{ℕ, zero, suc, ◌+◌, ◌*◌, ◌/◌, ◌^◌, ◌<◌, bit_or, bit_or-bitwise, digits, max}
use mathlib.Core.Path.{◌≡◌, ◌∙◌}
use native.Mathlib.Omega.{arith}

digits-max :
    (k n a c : ℕ) → a < 2 ^ k → a < suc n → digits (λ b. b) max n a (c * 2 ^ k) ≡ a + c * 2 ^ k
digits-max k zero zero c h fuel = omega arith
digits-max k (suc n) zero c h fuel = omega arith
digits-max k zero (suc a) c h fuel = omega arith
digits-max zero (suc n) (suc a) c h fuel = omega arith
digits-max (suc k) (suc n) (suc a) c h fuel =
    let power : 2 ^ suc k ≡ 2 * 2 ^ k = omega arith in
    let double : c * 2 ^ suc k ≡ 2 * (c * 2 ^ k) = rw power (grind arith) in
    let half : c * 2 ^ suc k / 2 ≡ c * 2 ^ k = omega (arith, double) in
    let ih = digits-max k n (suc a / 2) c (omega arith) (omega arith) in
    rw half (rw ih (omega (arith, double)))

-- The binary digits of a lie below those of a multiple of 2 ^ k.
pub bit_or-add : (k a c : ℕ) → a < 2 ^ k → bit_or a (c * 2 ^ k) ≡ a + c * 2 ^ k
bit_or-add k a c h = (λ i. bit_or-bitwise a (c * 2 ^ k) i) ∙ digits-max k a a c h (omega arith)
