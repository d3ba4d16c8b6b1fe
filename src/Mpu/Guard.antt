-- ===== src/Mpu/Guard.antt =====
-- The guard of port_mpu_configure_for_task, for a stack that kernel/task.c has placed.
use native.Mathlib.Nat.{pow-suc, dvd_trans, dvd-mul_right, dvd_of_mod-eq-zero, mod-eq-zero_of_dvd}
use crest_rtos.Base.{
  ℕ, zero, suc, ◌-◌, ap, ◌∙◌, Bool-cases, leb, ◌+◌, ◌*◌, ◌%◌, ◌^◌, ◌<◌, ◌≤◌, ◌≡◌, inl, inr, arith,
  subst, sym,
}
use crest_rtos.Kernel.{max_task_stack_size}
use crest_rtos.Task.{next_power_of_two, alloc_bytes, base_in}
use crest_rtos.Task.Sizes.{next_power_of_two-IsRoundUp, base_in-IsPlaced, pow_le}
use crest_rtos.Mpu.{guard_base}
use crest_rtos.Mpu.Regions.{pow_pos}

-- Where the guard lies, for a stack at `base` in an allocation at `a`: wholly below the stack; next
-- to it and inside the allocation if the stack has 256 bytes or more; else at most 224 bytes away,
-- and at most 224 bytes before the allocation.
pub record IsFence (a stack base : ℕ) : Type 0 where
  pub below : guard_base base + 256 ≤ base
  pub adjacent : 256 ≤ stack → guard_base base + 256 ≡ base
  pub inside : 256 ≤ stack → a ≤ guard_base base
  pub near : base ≤ guard_base base + 480
  pub outside : a ≤ guard_base base + 224

-- A multiple of a power of two is one of a smaller power.
multiple_down : (base m d : ℕ) → base % 2 ^ (m + d) ≡ 0 → base % 2 ^ m ≡ 0
multiple_down base m zero h = subst (λ e. base % 2 ^ e ≡ 0) (omega arith) h
multiple_down base m (suc d) h =
    let doubled : 2 ^ (m + suc d) ≡ 2 ^ (m + d) * 2 =
      ap (λ e. 2 ^ e) (omega arith) ∙ pow-suc 2 (m + d) in
    let half_divides =
      dvd_trans (2 ^ (m + d)) (dvd-mul_right (2 ^ (m + d)) 2)
        (dvd_of_mod-eq-zero (2 ^ (m + d) * 2) (subst (λ p. base % p ≡ 0) doubled h)) in
    multiple_down base m d (mod-eq-zero_of_dvd (2 ^ (m + d)) half_divides)

exponent_ge : (m n : ℕ) → 2 ^ m ≤ 2 ^ n → m ≤ n
exponent_ge m n le = elim (Bool-cases (leb m n)) [
  | inl e ↦ ground arith
  | inr e ↦
      let less : suc n ≤ m = ground arith in
      absurd (omega (arith, pow_le (suc n) m less, pow-suc 2 n, pow_pos n))
]

module _ (a n base : ℕ) (base_lt : base < 2 ^ 32) (aligned : base % 2 ^ n ≡ 0)
    (room : a + 256 ≤ base) where
  multiple_of : (m : ℕ) → m ≤ n → base % 2 ^ m ≡ 0
  multiple_of m le =
      multiple_down base m (n - m) (subst (λ e. base % 2 ^ e ≡ 0) (omega (arith, le)) aligned)

  multiple-IsFence : 5 ≤ n → IsFence a (2 ^ n) base
  multiple-IsFence n_ge =
      let by_32 = multiple_of 5 n_ge in
      record {
        below = omega arith;
        adjacent = λ le. let by_256 = multiple_of 8 (exponent_ge 8 n le) in omega arith;
        inside = λ le. let by_256 = multiple_of 8 (exponent_ge 8 n le) in omega arith;
        near = omega arith;
        outside = omega arith;
      }

-- For every stack size that task_create accepts and every allocation that does not reach past the
-- address space, the guard of the new task lies below its stack. With 256 bytes of stack or more it
-- ends where the stack begins and lies inside the allocation; with a smaller stack it ends at most
-- 224 bytes before the stack and begins at most 224 bytes before the allocation.
pub guard_base-IsFence :
    (a v : ℕ)
    → v ≤ max_task_stack_size
    → a + alloc_bytes (next_power_of_two v) < 2 ^ 32
    → IsFence a (next_power_of_two v) (base_in a (next_power_of_two v))
guard_base-IsFence a v small fits =
    let stack = next_power_of_two v in
    let round = next_power_of_two-IsRoundUp v small in
    let placed = base_in-IsPlaced a stack (omega (arith, round.floor)) fits in
    let n = round.power.0 in
    let size = round.power.1 in
    let aligned = subst (λ s. base_in a stack % s ≡ 0) size placed.aligned in
    subst (λ s. IsFence a s (base_in a stack)) (sym size)
      (multiple-IsFence a n (base_in a stack) (omega (arith, placed.inside, fits, round.floor))
        aligned placed.guarded (exponent_ge 5 n (subst (λ s. 32 ≤ s) size round.floor)))
