-- ===== src/Mpu/Layout.antt =====
-- port_mpu_configure_for_task: the regions of a task, with the masks and sizes computed.
use crest_rtos.Base.{
  ℕ, ◌+◌, ◌-◌, ◌*◌, ◌/◌, ◌^◌, ◌<◌, ◌≤◌, ◌≡◌, refl, ap, ◌∙◌, arith, true, false, ◌||◌, ltb, ◌==◌,
  List, [], ◌∷◌,
}
use crest_rtos.Kernel.{Tcb}
use crest_rtos.Mpu.{
  Region, no_access, user_none, user_read, user_write, mask_base, size_field, rasr_of, guard_base,
  heap_regions, mpu_regions,
}
use crest_rtos.Mpu.Bits.{bit_and-multiple, ctz-power}
use crest_rtos.Mpu.Regions.{block, pow_pos}

-- The regions of a task whose stack has `2 ^ k` bytes, with a user heap of `2 ^ j` bytes.
abbrev pub layout : ℕ → ℕ → ℕ → ℕ → List Region
layout base k us j =
    block 0 256 19 user_read 0
    ∷ block 1 4096 17 user_none 1
    ∷ block 2 (base / 2 ^ k) k user_write 1
    ∷ block 3 (us / 2 ^ j) j user_write 1
    ∷ block 7 ((base - 256) / 256) 8 no_access 1
    ∷ []

size_field-power : (k : ℕ) → k < 32 → size_field (2 ^ k) ≡ k - 1
size_field-power k lt = ap (λ i. i - 1) (ctz-power 32 0 k lt ∙ omega arith)

-- A region that the code sizes from a power of two.
sized_region :
    (number base size k : ℕ)
    → size ≡ 2 ^ k
    → k < 32
    → base < 2 ^ 32
    → record {
      number = number;
      rbar = mask_base base size;
      rasr = rasr_of (size_field size) user_write 1;
    }
      ≡ block number (base / 2 ^ k) k user_write 1
sized_region number base size k e k_lt base_lt =
    rw (e, size_field-power k k_lt, bit_and-multiple base k base_lt (omega arith)) refl

guard_base-multiple :
    (base : ℕ) → 256 ≤ base → base < 2 ^ 32 → guard_base base ≡ (base - 256) / 256 * 256
guard_base-multiple base ge lt = omega arith

heap_regions-block :
    (us j : ℕ)
    → j < 32
    → us < 2 ^ 32
    → heap_regions us (us + 2 ^ j) ≡ block 3 (us / 2 ^ j) j user_write 1 ∷ []
heap_regions-block us j j_lt us_lt =
    let size : us + 2 ^ j - us ≡ 2 ^ j = omega arith in
    let some_bytes : ltb us (us + 2 ^ j) ≡ true = ground (arith, pow_pos j) in
    rw (some_bytes, sized_region 3 us (us + 2 ^ j - us) j size j_lt us_lt) refl

has_stack : (base size k : ℕ) → 256 ≤ base → size ≡ 2 ^ k → ((base == 0) || (size == 0)) ≡ false
has_stack base size k ge e = ground (arith, pow_pos k, ge, e)

module _ (c : Tcb) (k us j : ℕ) (stack : c.stack_size ≡ 2 ^ k) (k_ge : 5 ≤ k) (k_lt : k < 32)
    (j_ge : 5 ≤ j) (j_lt : j < 32) (base_ge : 256 ≤ c.stack_base) (base_lt : c.stack_base < 2 ^ 32)
    (us_lt : us < 2 ^ 32) where
  pub mpu_regions-layout : mpu_regions c us (us + 2 ^ j) ≡ layout c.stack_base k us j
  unfolding mpu_regions
  mpu_regions-layout =
      rw
        (
          has_stack c.stack_base c.stack_size k base_ge stack,
          sized_region 2 c.stack_base c.stack_size k stack k_lt base_lt,
          heap_regions-block us j j_lt us_lt,
          guard_base-multiple c.stack_base base_ge base_lt,
        )
        refl
