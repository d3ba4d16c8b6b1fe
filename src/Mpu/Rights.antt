-- ===== src/Mpu/Rights.antt =====
-- The rights that a running task and the kernel should have at each address.
use crest_rtos.Base.{ℕ, ◌-◌, ◌*◌, ◌/◌, ◌^◌, ◌≡◌, refl, Bool, true, false, ◌||◌, if◌then◌else◌}
use crest_rtos.Task.{guard_size}
use crest_rtos.Mpu.Hardware.{Rights}
use crest_rtos.Mpu.Regions.{in_range}

-- Nobody's memory, the task's data, its code, and the kernel's memory.
abbrev pub nobody : Rights
nobody = record {
  user_read = false;
  user_write = false;
  user_execute = false;
  kernel_write = false;
}

abbrev pub task_data : Rights
task_data = record {
  user_read = true;
  user_write = true;
  user_execute = false;
  kernel_write = true;
}

abbrev pub task_code : Rights
task_code = record {
  user_read = true;
  user_write = false;
  user_execute = true;
  kernel_write = true;
}

abbrev pub kernel_only : Rights
kernel_only = record {
  user_read = false;
  user_write = false;
  user_execute = false;
  kernel_write = true;
}

pub or_true : (b : Bool) → (b || true) ≡ true
or_true true = refl
or_true false = refl

abbrev pub assigned : Bool → Bool → Bool → Rights
assigned guard own flash =
    if guard then nobody else if own then task_data else if flash then task_code else kernel_only

-- The rights while a task runs that has a stack of `2 ^ k` bytes at `base`, with a user heap of
-- `2 ^ j` bytes at `us`: nobody writes the guard below the stack, the task has its stack and the
-- heap as data and the flash as code, and all else is the kernel's.
abbrev pub task_rights : ℕ → ℕ → ℕ → ℕ → ℕ → Rights
task_rights base k us j a =
    assigned (in_range ((base - guard_size) / guard_size * guard_size) guard_size a)
      (in_range base (2 ^ k) a || in_range (us / 2 ^ j * 2 ^ j) (2 ^ j) a)
      (in_range 0x0800_0000 0x8_0000 a)
