-- ===== src/Mpu/Isolation.antt =====
-- port_mpu_configure_for_task: what a user task and the kernel may do at each address while the
-- task runs.
use native.Mathlib.Nat.{div-add-mod'}
use crest_rtos.Base.{
  ℕ, ◌+◌, ◌-◌, ◌*◌, ◌/◌, ◌%◌, ◌^◌, ◌<◌, ◌≤◌, ◌≡◌, refl, sym, ap, ◌∙◌, arith, true, false, ◌||◌,
  List, [], ◌∷◌, Option, some, if◌then◌else◌, Bool-cases, inl, inr,
}
use crest_rtos.Kernel.{Tcb}
use crest_rtos.Mpu.{Region, no_access, user_none, user_read, user_write, mpu_regions}
use crest_rtos.Mpu.Hardware.{covers, accepted, IsMpu, rights_of}
use crest_rtos.Mpu.Rights.{task_data, task_code, kernel_only, task_rights, or_true}
use crest_rtos.Mpu.Layout.{layout, mpu_regions-layout}
use crest_rtos.Mpu.Regions.{in_range, block, covers-block, is_valid-block, rights_of-block}

module _ (decide : List Region → ℕ → Option Region) (mpu : IsMpu decide) (base k us j a : ℕ)
    (k_ge : 5 ≤ k) (k_lt : k < 32) (j_ge : 5 ≤ j) (j_lt : j < 32) (aligned : base % 2 ^ k ≡ 0) where
  abbrev flash_region : Region
  flash_region = block 0 256 19 user_read 0

  abbrev ram_region : Region
  ram_region = block 1 4096 17 user_none 1

  abbrev stack_region : Region
  stack_region = block 2 (base / 2 ^ k) k user_write 1

  abbrev heap_region : Region
  heap_region = block 3 (us / 2 ^ j) j user_write 1

  abbrev guard_region : Region
  guard_region = block 7 ((base - 256) / 256) 8 no_access 1

  layout-accepted : accepted (layout base k us j) ≡ true
  layout-accepted =
      rw
        (
          is_valid-block 2 (base / 2 ^ k) k 1 user_write (omega arith) (omega arith) k_ge
              (omega arith),
          is_valid-block 3 (us / 2 ^ j) j 1 user_write (omega arith) (omega arith) j_ge
              (omega arith),
          is_valid-block 7 ((base - 256) / 256) 8 1 no_access (omega arith) (omega arith)
              (omega arith) (omega arith),
        )
        refl

  base_multiple : base / 2 ^ k * 2 ^ k ≡ base
  base_multiple = omega (arith, div-add-mod' base (2 ^ k), aligned)

  covers-guard : covers guard_region a ≡ in_range ((base - 256) / 256 * 256) 256 a
  covers-guard = covers-block 7 ((base - 256) / 256) 8 1 no_access (omega arith) (omega arith) a

  covers-heap : covers heap_region a ≡ in_range (us / 2 ^ j * 2 ^ j) (2 ^ j) a
  covers-heap = covers-block 3 (us / 2 ^ j) j 1 user_write (omega arith) (omega arith) a

  covers-stack : covers stack_region a ≡ in_range base (2 ^ k) a
  covers-stack =
      covers-block 2 (base / 2 ^ k) k 1 user_write (omega arith) (omega arith) a
      ∙ ap (λ b. in_range b (2 ^ k) a) base_multiple

  covers-flash : covers flash_region a ≡ in_range 0x0800_0000 0x8_0000 a
  covers-flash = covers-block 0 256 19 0 user_read (omega arith) (omega arith) a

  -- The kernel's RAM is not in the flash.
  covers-ram : covers ram_region a ≡ true → in_range 0x0800_0000 0x8_0000 a ≡ false
  covers-ram e =
      let in_ram = sym (covers-block 1 4096 17 1 user_none (omega arith) (omega arith) a) ∙ e in
      ground (arith, in_ram)

  rights-own :
      (guard : covers guard_region a ≡ false)
      → (r : Region) → decide (layout base k us j) a ≡ some r
      → (in_range base (2 ^ k) a || in_range (us / 2 ^ j * 2 ^ j) (2 ^ j) a) ≡ true
      → rights_of (some r) ≡ task_data
      → rights_of (decide (layout base k us j) a) ≡ task_rights base k us j a
  rights-own guard r found own grant = rw (found, sym covers-guard ∙ guard, own) grant

  rights-others :
      covers guard_region a ≡ false
      → covers heap_region a ≡ false
      → covers stack_region a ≡ false
      → rights_of (decide (layout base k us j) a)
        ≡ (if in_range 0x0800_0000 0x8_0000 a then task_code else kernel_only)
      → rights_of (decide (layout base k us j) a) ≡ task_rights base k us j a
  rights-others guard heap stack grant =
      rw (sym covers-guard ∙ guard, sym covers-stack ∙ stack, sym covers-heap ∙ heap) grant

  rights-fixed :
      covers guard_region a ≡ false
      → covers heap_region a ≡ false
      → covers stack_region a ≡ false
      → rights_of (decide (layout base k us j) a)
        ≡ (if in_range 0x0800_0000 0x8_0000 a then task_code else kernel_only)
  rights-fixed guard heap stack = elim (Bool-cases (covers ram_region a)) [
    | inl ram ↦
        let found =
          mpu.highest (flash_region ∷ []) (stack_region ∷ heap_region ∷ guard_region ∷ [])
            ram_region a layout-accepted ram (rw (guard, heap, stack) refl) in
        rw (found, covers-ram ram) refl
    | inr ram ↦ elim (Bool-cases (covers flash_region a)) [
      | inl flash ↦
          let found =
            mpu.highest [] (ram_region ∷ stack_region ∷ heap_region ∷ guard_region ∷ [])
              flash_region a layout-accepted flash (rw (ram, guard, heap, stack) refl) in
          rw (found, sym covers-flash ∙ flash) refl
      | inr flash ↦
          let none_found =
            mpu.background (layout base k us j) a layout-accepted
              (rw (flash, ram, guard, heap, stack) refl) in
          rw (none_found, sym covers-flash ∙ flash) refl
    ]
  ]

  rights-layout : rights_of (decide (layout base k us j) a) ≡ task_rights base k us j a
  rights-layout = elim (Bool-cases (covers guard_region a)) [
    | inl guard ↦
        let found =
          mpu.highest (flash_region ∷ ram_region ∷ stack_region ∷ heap_region ∷ []) [] guard_region
            a layout-accepted guard refl in
        rw (found, sym covers-guard ∙ guard) refl
    | inr guard ↦ elim (Bool-cases (covers heap_region a)) [
      | inl heap ↦
          let found =
            mpu.highest (flash_region ∷ ram_region ∷ stack_region ∷ []) (guard_region ∷ [])
              heap_region a layout-accepted heap (rw guard refl) in
          rights-own guard heap_region found
            (rw (sym covers-heap ∙ heap) (or_true (in_range base (2 ^ k) a)))
            (rights_of-block 3 (us / 2 ^ j * 2 ^ j) (j - 1) 1 user_write (omega arith)
              (omega arith))
      | inr heap ↦ elim (Bool-cases (covers stack_region a)) [
        | inl stack ↦
            let found =
              mpu.highest (flash_region ∷ ram_region ∷ []) (heap_region ∷ guard_region ∷ [])
                stack_region a layout-accepted stack (rw (guard, heap) refl) in
            rights-own guard stack_region found (rw (sym covers-stack ∙ stack) refl) (
              rights_of-block 2 (base / 2 ^ k * 2 ^ k) (k - 1) 1 user_write (omega arith)
                (omega arith))
        | inr stack ↦ rights-others guard heap stack (rights-fixed guard heap stack)
      ]
    ]
  ]

-- While a task with a stack of `2 ^ k` bytes runs, `5 ≤ k < 32`, the stack aligned to its size and
-- 256 bytes or more above address 0, and the user heap has `2 ^ j` bytes, `5 ≤ j < 32`: on any MPU
-- that follows the architecture, the regions of port_mpu_configure_for_task give every address
-- exactly the rights of `task_rights`. User code writes only the stack, outside the guard, and
-- the heap, rounded down to its size, and executes only the flash.
pub user_rights_lem :
    (decide : List Region → ℕ → Option Region) (c : Tcb) (k us j a : ℕ)
    → IsMpu decide
    → c.stack_size ≡ 2 ^ k
    → 5 ≤ k
    → k < 32
    → c.stack_base % 2 ^ k ≡ 0
    → 256 ≤ c.stack_base
    → c.stack_base < 2 ^ 32
    → 5 ≤ j
    → j < 32
    → us < 2 ^ 32
    → rights_of (decide (mpu_regions c us (us + 2 ^ j)) a) ≡ task_rights c.stack_base k us j a
user_rights_lem decide c k us j a mpu size k_ge k_lt aligned base_ge base_lt j_ge j_lt us_lt =
    rw (mpu_regions-layout c k us j size k_ge k_lt j_ge j_lt base_ge base_lt us_lt)
      (rights-layout decide mpu c.stack_base k us j a k_ge k_lt j_ge j_lt aligned)
