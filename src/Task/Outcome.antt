-- ===== src/Task/Outcome.antt =====
-- kernel/task.c, task_create: the ways in which it ends.
use crest_rtos.Base.{ℕ, ◌+◌, ◌<◌, ◌≡◌, ◌≢◌, true, false, none, some, Option, List, update}
use crest_rtos.Kernel.{max_tasks, ready}
use crest_rtos.Sched.Add.{with_task}
use crest_rtos.Alloc.{header_size}
use crest_rtos.Alloc.Tiles.{Tile}
use crest_rtos.Alloc.Take.{place}
use crest_rtos.Alloc.Place.{IsShort, IsPlacement}
use crest_rtos.Alloc.Malloc.{base, block_bytes, IsHeap}
use crest_rtos.Task.{Machine, alloc_bytes, base_in, stored_name}
use crest_rtos.Libc.{replicate}
use crest_rtos.Task.Names.{IsName}
use crest_rtos.Task.Sizes.{IsPlaced}
use crest_rtos.Task.Pool.{IsPool}
use crest_rtos.Task.Slot.{first_frame}

-- A kernel and a heap in order: the tasks of the lists are slots in use, and the heap has the
-- blocks `ts`.
pub record IsMachine (s : Machine) (lists : ℕ → List ℕ) (ts : List Tile) : Type 0 where
  pub pool : IsPool s.kernel lists
  pub heap : IsHeap s.heap ts

-- The bytes of a name field: the text, or NULs alone for a NULL name.
abbrev pub IsNamed : Option (List ℕ) → List ℕ → Type 0
IsNamed none bytes = bytes ≡ replicate 16 0
IsNamed (some text) bytes = IsName text bytes

-- The machine `s'` with a new task in slot `t`, whose bytes start at `a`.
pub record IsCreated (s s' : Machine) (task_fn : ℕ) (name : Option (List ℕ))
    (priority stack arg t a : ℕ) : Type 0 where
  pub inside : t < max_tasks
  pub unused : s.kernel.tcb_used t ≡ false
  pub lowest : (j : ℕ) → j < t → s.kernel.tcb_used j ≡ true
  pub marks : s'.kernel.tcb_used ≡ update s.kernel.tcb_used t true
  pub fields : s'.kernel.tcb t ≡ record {
    stack_base = base_in a stack;
    stack_size = stack;
    stack_pointer = (first_frame s.kernel a stack task_fn arg).1;
    stack_alloc = a;
    name = stored_name name;
    state = ready;
    priority = priority;
    user = false;
    svc_blocked = false;
    timed_out = false;
    next = s.kernel.task_list priority;
    wait_next = none;
    delay_ticks = 0;
    blocking_wait_list = none;
    task_function = task_fn;
    arg = arg;
  }
  pub named : IsNamed name (s'.kernel.tcb t).name
  pub placed : IsPlaced a stack (s'.kernel.tcb t).stack_base
  pub words : s'.kernel.word ≡ (first_frame s.kernel a stack task_fn arg).0
  pub current : s'.kernel.current_task ≡ s.kernel.current_task
  pub others : (u : ℕ) → u ≢ t → s'.kernel.tcb u ≡ s.kernel.tcb u

-- The three ends of task_create, for a stack of `stack` bytes: no slot is free; no block of the
-- heap is large enough; or a task is created.
pub data Outcome (s : Machine) (lists : ℕ → List ℕ) (ts : List Tile) (task_fn : ℕ)
    (name : Option (List ℕ)) (priority stack arg : ℕ) : Machine → Type 0 where
  full :
      ((j : ℕ) → j < max_tasks → s.kernel.tcb_used j ≡ true)
      → Outcome s lists ts task_fn name priority stack arg s
  short :
      (s' : Machine)
      → IsShort (block_bytes (alloc_bytes stack)) ts
      → s'.heap ≡ s.heap
      → s'.kernel.tcb ≡ s.kernel.tcb
      → s'.kernel.current_task ≡ s.kernel.current_task
      → ((j : ℕ) → s'.kernel.tcb_used j ≡ s.kernel.tcb_used j)
      → IsMachine s' lists ts
      → Outcome s lists ts task_fn name priority stack arg s'
  created :
      (s' : Machine) (t a : ℕ) (ts' : List Tile)
      → (place (block_bytes (alloc_bytes stack)) (base s.heap) ts ≡ some (a, ts'))
      → IsPlacement (block_bytes (alloc_bytes stack)) (base s.heap) ts a ts'
      → IsMachine s' (with_task lists priority t) ts'
      → IsCreated s s' task_fn name priority stack arg t (a + header_size)
      → Outcome s lists ts task_fn name priority stack arg s'
