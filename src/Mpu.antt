-- ===== src/Mpu.antt =====
-- arch/arm/cortex-m4/port.c, port_mpu_configure_for_task: the MPU regions of a task.
use Prim.Native.Nat.{bit_and}
use crest_rtos.Base.{
  ℕ, ◌+◌, ◌-◌, ◌*◌, ◌/◌, ◌%◌, ◌^◌, ◌||◌, ltb, ◌==◌, List, [], ◌∷◌, ◌++◌, if◌then◌else◌,
}
use crest_rtos.Kernel.{Tcb}
use crest_rtos.Sched.{ctz_from}
use crest_rtos.Task.{guard_size}
mod Bits
pub mod Hardware
mod Regions
mod Layout
pub mod Rights
pub mod Guard
pub mod Isolation
mod Tests

-- One programming of RNR, RBAR and RASR.
pub record Region : Type 0 where
  pub number : ℕ
  pub rbar : ℕ
  pub rasr : ℕ

-- MPU_AP_NO_ACCESS, MPU_AP_PRIV_RW_USER_NO, MPU_AP_PRIV_RW_USER_RO, MPU_AP_PRIV_RW_USER_RW
pub data Access : Type 0 where
  no_access user_none user_read user_write : Access

abbrev pub ap_code : Access → ℕ
ap_code no_access = 0
ap_code user_none = 1
ap_code user_read = 2
ap_code user_write = 3

-- `(1 << 0) | (size_field << 1) | (ap << 24) | xn`: the fields have no bit in common.
abbrev pub rasr_of : ℕ → Access → ℕ → ℕ
rasr_of size_field ap xn = 1 + size_field * 2 + ap_code ap * 2 ^ 24 + xn * 2 ^ 28

-- `__builtin_ctz(size) - 1`
abbrev pub size_field : ℕ → ℕ
size_field size = ctz_from 32 0 size - 1

-- The flash and the kernel's RAM.
abbrev pub fixed_regions : List Region
fixed_regions =
    record { number = 0; rbar = 0x0800_0000; rasr = rasr_of 18 user_read 0 }
    ∷ record { number = 1; rbar = 0x2000_0000; rasr = rasr_of 16 user_none 1 }
    ∷ []

-- `base & ~(size - 1)`
abbrev pub mask_base : ℕ → ℕ → ℕ
mask_base base size = bit_and base (2 ^ 32 - size)

-- The user heap, if it is not empty.
abbrev pub heap_regions : ℕ → ℕ → List Region
heap_regions uh_start uh_end =
    if ltb uh_start uh_end
    then record {
      number = 3;
      rbar = mask_base uh_start (uh_end - uh_start);
      rasr = rasr_of (size_field (uh_end - uh_start)) user_write 1;
    }
      ∷ []
    else []

-- `(stack_base - guard) & ~(guard - 1)`
abbrev pub guard_base : ℕ → ℕ
guard_base base = (base + 2 ^ 32 - guard_size) % 2 ^ 32 / guard_size * guard_size

-- port_mpu_configure_for_task: the regions that are programmed, in order; none for a task without
-- a stack.
unfoldable pub mpu_regions : Tcb → ℕ → ℕ → List Region
unfolding ctz_from
mpu_regions c uh_start uh_end =
    if c.stack_base == 0 || c.stack_size == 0
    then []
    else fixed_regions
      ++ (record {
        number = 2;
        rbar = mask_base c.stack_base c.stack_size;
        rasr = rasr_of (size_field c.stack_size) user_write 1;
      }
          ∷ heap_regions uh_start uh_end)
      ++ (record {
        number = 7;
        rbar = guard_base c.stack_base;
        rasr = rasr_of (size_field guard_size) no_access 1;
      }
          ∷ [])
