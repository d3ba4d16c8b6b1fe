-- ===== src/Mpu/Bits.antt =====
-- The two idioms of port_mpu_configure_for_task for a size that is a power of two:
-- `base & ~(size - 1)` and `__builtin_ctz(size)`.
use Prim.Native.Nat.{bit_and, bit_and-bitwise, digits, min}
use native.Mathlib.Nat.{div-div-eq-div-mul, pow-suc, mul_assoc, zero-div}
use crest_rtos.Base.{
  ℕ, zero, suc, ◌+◌, ◌-◌, ◌*◌, ◌/◌, ◌%◌, ◌^◌, ◌<◌, ◌≤◌, ◌≡◌, refl, sym, ap, ◌∙◌, arith,
}
use crest_rtos.Sched.{ctz_from}

-- The conjunction, digit by digit.
abbrev and_of : ℕ → ℕ → ℕ → ℕ
and_of fuel a b = digits (λ b. zero) min fuel a b

ones_step : (a : ℕ) → a / 2 * 2 + min (a % 2) 1 ≡ a
ones_step a = omega arith

half_down : (a k : ℕ) → a / 2 / 2 ^ k * 2 ^ k * 2 ≡ a / 2 ^ suc k * 2 ^ suc k
half_down a k =
    let quotient : a / 2 / 2 ^ k ≡ a / 2 ^ suc k =
      div-div-eq-div-mul a 2 (2 ^ k) ∙ ap (λ n. a / n) (omega (arith, pow-suc 2 k)) in
    mul_assoc (a / 2 / 2 ^ k) (2 ^ k) 2 ∙ rw (quotient, sym (pow-suc 2 k)) refl

zero_down : (k : ℕ) → 0 / 2 ^ k * 2 ^ k ≡ 0
zero_down k = rw (zero-div (2 ^ k)) (omega arith)

-- The mask without its lowest digit.
mask_half : (m k : ℕ) → (2 ^ suc m - 2 ^ suc k) / 2 ≡ 2 ^ m - 2 ^ k
mask_half m k = omega (arith, pow-suc 2 m, pow-suc 2 k)

ones_half : (m : ℕ) → (2 ^ suc m - 1) / 2 ≡ 2 ^ m - 1
ones_half m = omega (arith, pow-suc 2 m)

high_digits :
    (fuel a m k : ℕ)
    → a ≤ fuel
    → a < 2 ^ m
    → k ≤ m
    → and_of fuel a (2 ^ m - 2 ^ k) ≡ a / 2 ^ k * 2 ^ k
high_digits zero zero m k f lt le = sym (zero_down k)
high_digits zero (suc a) m k f lt le = absurd (omega arith)
high_digits (suc fuel) zero m k f lt le = sym (zero_down k)
high_digits (suc fuel) (suc a) zero k f lt le = absurd (omega arith)
high_digits (suc fuel) (suc a) (suc m) zero f lt le =
    let rest =
      high_digits fuel (suc a / 2) m 0 (omega arith) (omega (arith, pow-suc 2 m)) (omega arith) in
    rw (ones_half m, rest) (omega (arith, pow-suc 2 m))
high_digits (suc fuel) (suc a) (suc m) (suc k) f lt le =
    let rest =
      high_digits fuel (suc a / 2) m k (omega arith) (omega (arith, pow-suc 2 m)) (omega arith) in
    let even : (2 ^ suc m - 2 ^ suc k) % 2 ≡ 0 = omega (arith, pow-suc 2 m, pow-suc 2 k) in
    rw (mask_half m k, rest, even) (omega (arith, half_down (suc a) k))

pub ctz-power : (rounds i k : ℕ) → k < rounds → ctz_from rounds i (2 ^ k) ≡ i + k
unfolding ctz_from
ctz-power zero i k lt = absurd (omega arith)
ctz-power (suc rounds) i zero lt = omega arith
ctz-power (suc rounds) i (suc k) lt =
    let half : 2 ^ suc k / 2 ≡ 2 ^ k = omega (arith, pow-suc 2 k) in
    let even : 2 ^ suc k % 2 ≡ 0 = omega (arith, pow-suc 2 k) in
    rw (even, half) (ctz-power rounds (i + 1) k (omega arith) ∙ omega arith)

-- `base & ~(size - 1)` rounds an address down to a multiple of the size.
pub bit_and-multiple :
    (a k : ℕ) → a < 2 ^ 32 → k ≤ 32 → bit_and a (2 ^ 32 - 2 ^ k) ≡ a / 2 ^ k * 2 ^ k
bit_and-multiple a k lt le =
    bit_and-bitwise a (2 ^ 32 - 2 ^ k) ∙ high_digits a a 32 k (omega arith) lt le
