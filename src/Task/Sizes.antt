-- ===== src/Task/Sizes.antt =====
-- kernel/task.c: the size of a stack, and its place in the block that task_create allocates.
use native.Mathlib.Nat.{div-mul-le_self, lt-div-mul-add, mul-mod_left, pow-le-pow_right}
use crest_rtos.Base.{
  ℕ, ◌+◌, ◌-◌, ◌*◌, ◌/◌, ◌%◌, ◌^◌, ◌≤◌, ◌<◌, ◌≡◌, refl, true, arith, leb, ◌==◌, all_below,
  all_below-at, if◌then◌else◌, ==_iff,
}
use crest_rtos.Kernel.{max_task_stack_size}
use crest_rtos.Task.{next_power_of_two, guard_size, alloc_bytes, base_in}

pub pow_le : (a b : ℕ) → a ≤ b → 2 ^ a ≤ 2 ^ b
pow_le a b le = pow-le-pow_right (omega arith) le

round_up : (x n : ℕ) → 0 < n → x < x / n * n + n
round_up x n pos = lt-div-mul-add pos

-- The least power of two, from 32 on, that is not below `v`.
pub record IsRoundUp (v r : ℕ) : Type 0 where
  pub power : (n : ℕ) × (r ≡ 2 ^ n)
  pub enough : v ≤ r
  pub floor : 32 ≤ r
  pub least : (n : ℕ) → 5 ≤ n → v ≤ 2 ^ n → r ≤ 2 ^ n

expo : ℕ → ℕ
expo v =
    if leb v 32
    then 5
    else if leb v 64
    then 6
    else if leb v 128
    then 7
    else if leb v 256
    then 8
    else 9

all_sizes : all_below 513 (λ v. next_power_of_two v == 2 ^ expo v) ≡ true
unfolding all_below next_power_of_two expo
all_sizes = refl

size_of : (v : ℕ) → v ≤ 512 → next_power_of_two v ≡ 2 ^ expo v
size_of v le =
    (==_iff (next_power_of_two v) (2 ^ expo v)).0
      (all_below-at 513 (λ u. next_power_of_two u == 2 ^ expo u) v all_sizes (omega (arith, le)))

expo-enough : (v : ℕ) → v ≤ 512 → v ≤ 2 ^ expo v
unfolding expo
expo-enough v le = ground arith

expo-le :
    (v n p : ℕ)
    → (n ≤ 5 → p ≤ 32)
    → (n ≤ 6 → p ≤ 64)
    → (n ≤ 7 → p ≤ 128)
    → (n ≤ 8 → p ≤ 256)
    → v ≤ 512
    → v ≤ p
    → 5 ≤ n
    → expo v ≤ n
unfolding expo
expo-le v n p h5 h6 h7 h8 small le big = ground arith

expo_ge : (v : ℕ) → 5 ≤ expo v
unfolding expo
expo_ge v = ground arith

-- next_power_of_two, of any size that task_create accepts, is the least power of two that is not
-- below the size, and at least 32, the smallest region of the MPU.
pub next_power_of_two-IsRoundUp :
    (v : ℕ) → v ≤ max_task_stack_size → IsRoundUp v (next_power_of_two v)
next_power_of_two-IsRoundUp v small = rw (size_of v small) (record {
  power = (expo v, refl);
  enough = expo-enough v small;
  floor = pow_le 5 (expo v) (expo_ge v);
  least = λ n big le.
      pow_le (expo v) n
        (expo-le v n (2 ^ n) (pow_le n 5) (pow_le n 6) (pow_le n 7) (pow_le n 8) small le big);
})

-- Where task_create puts a stack in its allocation at `a`: aligned to its size, behind the guard,
-- and inside the allocated bytes.
pub record IsPlaced (a stack base : ℕ) : Type 0 where
  pub aligned : base % stack ≡ 0
  pub guarded : a + guard_size ≤ base
  pub inside : base + stack ≤ a + alloc_bytes stack

-- base_in places a stack of any size in any allocation that does not reach past the address space.
pub base_in-IsPlaced :
    (a stack : ℕ) → 0 < stack → a + alloc_bytes stack < 2 ^ 32 → IsPlaced a stack (base_in a stack)
base_in-IsPlaced a stack pos fits =
    let top : (a + guard_size + (stack - 1)) % 2 ^ 32 ≡ a + guard_size + (stack - 1) =
      omega arith in
    let up = round_up (a + guard_size + (stack - 1)) stack pos in
    let down = div-mul-le_self (a + guard_size + (stack - 1)) stack in
    rw top (record {
      aligned = mul-mod_left ((a + guard_size + (stack - 1)) / stack) stack;
      guarded = omega arith;
      inside = omega arith;
    })
