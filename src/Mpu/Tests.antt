-- ===== src/Mpu/Tests.antt =====
-- The MPU regions of concrete tasks, on a concrete MPU.
use crest_rtos.Base.{
  ℕ, ◌+◌, ◌^◌, ◌≡◌, refl, arith, Bool, true, false, ◌||◌, List, [], ◌∷◌, ◌++◌, Option, none, some,
  if◌then◌else◌,
}
use crest_rtos.Kernel.{Tcb}
use crest_rtos.Samples.{plain}
use crest_rtos.Task.{next_power_of_two, base_in}
use crest_rtos.Mpu.{Region, mpu_regions, guard_base}
use crest_rtos.Mpu.Hardware.{covers, any_covers, IsMpu, rights_of}
use crest_rtos.Mpu.Rights.{task_rights}
use crest_rtos.Mpu.Isolation.{user_rights_lem}
use crest_rtos.Mpu.Guard.{IsFence, guard_base-IsFence}

-- An MPU that looks for the last region that covers the address.
abbrev later : Option Region → Option Region → Option Region
later none earlier = earlier
later (some r) earlier = some r

abbrev last_covering : List Region → ℕ → Option Region
last_covering [] a = none
last_covering (r ∷ rs) a = later (last_covering rs a) (if covers r a then some r else none)

or_false : (b c : Bool) → (b || c) ≡ false → (b ≡ false) × (c ≡ false)
or_false b c h = ground arith

last_covering-none :
    (rs : List Region) (a : ℕ) → any_covers rs a ≡ false → last_covering rs a ≡ none
last_covering-none [] a h = refl
last_covering-none (r ∷ rs) a h =
    let (off, rest) = or_false (covers r a) (any_covers rs a) h in
    rw (last_covering-none rs a rest, off) refl

last_covering-some :
    (before after : List Region) (r : Region) (a : ℕ)
    → covers r a ≡ true
    → any_covers after a ≡ false
    → last_covering (before ++ r ∷ after) a ≡ some r
last_covering-some [] after r a on off = rw (last_covering-none after a off, on) refl
last_covering-some (s ∷ before) after r a on off =
    rw (last_covering-some before after r a on off) refl

last_covering-IsMpu : IsMpu last_covering
last_covering-IsMpu = record {
  highest = λ before after r a ok on off. last_covering-some before after r a on off;
  background = λ rs a ok off. last_covering-none rs a off;
}

-- A task with 512 bytes of stack, and the 16 KB user heap of kernel.ld at an aligned address.
abbrev boxed : Tcb
boxed = record plain { stack_base = 0x2000_1200; stack_size = 512 }

user_rights_lem_example :
    rights_of (last_covering (mpu_regions boxed 0x2000_4000 (0x2000_4000 + 2 ^ 14)) 0x2000_11f0)
    ≡ task_rights 0x2000_1200 9 0x2000_4000 14 0x2000_11f0
user_rights_lem_example =
    user_rights_lem last_covering boxed 9 0x2000_4000 14 0x2000_11f0 last_covering-IsMpu refl
      (omega arith) (omega arith) refl (omega arith) (omega arith) (omega arith) (omega arith)
      (omega arith)

-- kernel.ld aligns the user heap to 8 bytes only. With the heap at 0x20002008, a user task may
-- write the kernel's RAM below it and may not write the last bytes of the heap.
heap_off-below :
    (rights_of (last_covering (mpu_regions boxed 0x2000_2008 0x2000_6008) 0x2000_0010)).user_write
    ≡ true
unfolding mpu_regions
heap_off-below = refl

heap_off-above :
    (rights_of (last_covering (mpu_regions boxed 0x2000_2008 0x2000_6008) 0x2000_6000)).user_write
    ≡ false
unfolding mpu_regions
heap_off-above = refl

guard_base-IsFence_example :
    IsFence 0x2000_8008 (next_power_of_two 300) (base_in 0x2000_8008 (next_power_of_two 300))
unfolding next_power_of_two
guard_base-IsFence_example = guard_base-IsFence 0x2000_8008 300 (omega arith) (omega arith)

-- The guard of a stack of 32 bytes begins before the allocation at 0x20008008.
guard_base-small : guard_base (base_in 0x2000_8008 32) ≡ 0x2000_8000
guard_base-small = refl
