-- ===== src/Task/Tests.antt =====
-- Task creation on concrete values.
use crest_rtos.Task.{stack_init}
use crest_rtos.Task.Frames.{IsFrame, stack_init-IsFrame}
use crest_rtos.Base.{ℕ, ◌+◌, ◌≡◌, ◌≤◌, ◌<◌, refl, List, [], ◌∷◌, some, arith, length, false}
use crest_rtos.Libc.{strncpy}
use crest_rtos.Samples.{blank}
use crest_rtos.Sched.{init}
use crest_rtos.Sched.Reach.{started, Reach-HoldsTasks}
use crest_rtos.Alloc.{Heap, heap_init}
use crest_rtos.Alloc.Tiles.{vacant}
use crest_rtos.Alloc.Malloc.{heap_init-IsHeap}
use crest_rtos.Task.{Machine, task_create}
use crest_rtos.Task.Outcome.{IsMachine, Outcome}
use crest_rtos.Task.Create.{task_create_lem}
use crest_rtos.Task.{next_power_of_two, base_in, stored_name}
use crest_rtos.Task.Sizes.{IsRoundUp, IsPlaced, next_power_of_two-IsRoundUp, base_in-IsPlaced}
use crest_rtos.Task.Names.{IsName, stored_name-IsName, length-strncpy}

rounded_300 : IsRoundUp 300 (next_power_of_two 300)
rounded_300 = next_power_of_two-IsRoundUp 300 (omega arith)

next_300 : next_power_of_two 300 ≡ 512
unfolding next_power_of_two
next_300 = refl

base_of_256 : IsPlaced 0x2000_1008 256 (base_in 0x2000_1008 256)
base_of_256 = base_in-IsPlaced 0x2000_1008 256 (omega arith) (omega arith)

-- "idle"
abbrev idle : List ℕ
idle = 105 ∷ 100 ∷ 108 ∷ 101 ∷ []

idle-IsName : IsName idle (stored_name (some idle))
idle-IsName = stored_name-IsName idle

length-strncpy_example :
    (15 ≤ length idle → length (strncpy idle 15) ≡ 15)
    × (length idle < 15 → length (strncpy idle 15) ≡ 15 + 1)
length-strncpy_example = length-strncpy idle 15

stack_init-IsFrame_example :
    IsFrame
      (λ a. 7)
      (stack_init (λ a. 7) 0x2000_1120 32 0x0800_0100 9).0
      0x2000_1120
      32
      0x0800_0100
      9
      (stack_init (λ a. 7) 0x2000_1120 32 0x0800_0100 9).1
    × (64 ≤ 32 → 0x2000_1120 ≤ (stack_init (λ a. 7) 0x2000_1120 32 0x0800_0100 9).1)
    × (32 < 64 → (stack_init (λ a. 7) 0x2000_1120 32 0x0800_0100 9).1 < 0x2000_1120)
stack_init-IsFrame_example =
    stack_init-IsFrame (λ a. 7) 0x2000_1120 32 0x0800_0100 9 refl refl (omega arith) (omega arith)

-- The kernel and a heap of 4096 bytes at the start.
abbrev unused : Heap
unused = record {
  start = 0x2000_1000;
  limit = 0x2000_2000;
  free_list = 0;
  heap_inited = false;
  size = λ _. 0;
  next = λ _. 0;
}

abbrev fresh : Machine
fresh = record { kernel = init blank; heap = heap_init unused }

fresh-IsMachine : IsMachine fresh (λ _. []) (vacant 4096 ∷ [])
fresh-IsMachine = record {
  pool = record {
    held = Reach-HoldsTasks (init blank) (λ _. []) (started blank);
    used = λ pr u lt m. cc;
    below = λ pr u lt m. cc;
  };
  heap =
      (heap_init-IsHeap unused 8 (omega arith) refl (omega arith) (omega arith) (omega arith)
        (omega arith, refl)).0;
}

task_create_lem_example :
    (s' : Machine) × (task_create fresh 0x0800_4100 (some idle) 7 512 0 ≡ some s')
    × Outcome fresh
        (λ _. [])
        (vacant 4096 ∷ [])
        0x0800_4100
        (some idle)
        7
        (next_power_of_two 512)
        0
        s'
task_create_lem_example =
    task_create_lem fresh (λ _. []) (vacant 4096 ∷ []) 0x0800_4100 (some idle) 7 512 0
      fresh-IsMachine (omega arith) (omega arith) (omega arith)
