-- ===== src/Demo/Started.antt =====
-- src/main.c, main: the tasks that it creates, and the one that starts first.
use crest_rtos.Base.{
  ℕ, ◌+◌, ◌-◌, ◌^◌, ◌<◌, ◌≤◌, ◌≡◌, ◌≢◌, inl, refl, sym, ap, ◌∙◌, arith, false, none, some, List, [],
  ◌∷◌, All, Ptr, ◌>>=◌, ==_of_ne,
}
use crest_rtos.Kernel.{Kernel, max_task_priorities, running, is_ready, set_tcb}
use crest_rtos.Sched.{get_next, set_current}
use crest_rtos.Sched.Turn.{IsRing}
use crest_rtos.Sched.Next.{select, first_alone}
use crest_rtos.Sched.Reach.{started, Reach-HoldsTasks}
use crest_rtos.Sched.Add.{with_task}
use crest_rtos.Alloc.{Heap, heap_init}
use crest_rtos.Alloc.Tiles.{Tile, vacant, IsSize}
use crest_rtos.Alloc.Malloc.{base, heap_init-IsHeap}
use crest_rtos.Console.{codes}
use crest_rtos.Port.{start_first_task}
use crest_rtos.Task.{
  Machine, get_free_tcb, free_slot, task_init, task_create, zero_tcb, next_power_of_two,
}
use crest_rtos.Task.Outcome.{IsMachine}
use crest_rtos.Task.Slot.{
  claimed, claim_slot, get_free_tcb_lem, after_malloc, with_slot, task_create-with_slot,
}
use crest_rtos.Demo.Main.{Functions, main_tasks, create_all, main}
use crest_rtos.Demo.Tasks.{Stage, IsTask, IsPlain, calls-IsBuilt}

-- The priority lists after the calls of task_create in main.
abbrev pub main_lists : ℕ → List ℕ
main_lists = with_task (with_task (with_task (with_task (with_task (λ _. []) 0 0) 1 1) 2 2) 3 3) 7 4

-- The tasks of main, in their slots.
pub record HasTasks (f : Functions) (k : Kernel) : Type 0 where
  pub worker : IsTask k 0 f.kernel_task_fn (codes "KernelWorker") 0
  pub producer : IsTask k 1 f.task_producer (codes "Producer") 1
  pub consumer : IsTask k 2 f.task_consumer (codes "Consumer") 2
  pub probe : IsTask k 3 f.task_mpu_probe (codes "MpuProbe") 3
  pub idle : IsTask k 4 f.idle_task (codes "Idle") 7

-- The machine behind task_init, with the heap as the first call of malloc sets it up.
abbrev begun : Machine → Machine
begun s = record { kernel = task_init s.kernel; heap = heap_init s.heap }

-- A heap that no call of malloc has touched, where `heap_init` finds `size` bytes.
pub record IsUntouched (h : Heap) (size : ℕ) : Type 0 where
  pub unused : h.heap_inited ≡ false
  pub low : h.start + 7 < 2 ^ 32
  pub high : h.limit < 2 ^ 32
  pub positive : 0 < h.start
  pub fit : IsSize (h.limit - base h)
  pub size_of : h.limit - base h ≡ size

module _ (s : Machine) (size : ℕ) (h : IsUntouched s.heap size) where
  begin : 6456 ≤ size → Stage 0 (5168 + 1288) (begun s) (λ _. [])
  unfolding task_init
  begin enough = record {
    blocks = vacant (s.heap.limit - base s.heap) ∷ [];
    machine = record {
      pool = record {
        held =
            Reach-HoldsTasks (task_init s.kernel) (λ _. [])
              (started (record s.kernel { tcb = λ _. zero_tcb; tcb_used = λ _. false }));
        used = λ pr u lt m. cc;
        below = λ pr u lt m. cc;
      };
      heap = (heap_init-IsHeap s.heap 8 (omega arith) h.unused h.low h.high h.positive h.fit).0;
    };
    current = refl;
    used = λ j. ground arith;
    space = inl (omega (arith, h.size_of, enough));
  }

  first_slot : get_free_tcb (task_init s.kernel) ≡ claim_slot (task_init s.kernel) (some 0)
  unfolding task_init free_slot
  first_slot = get_free_tcb_lem (task_init s.kernel) ∙ refl

  -- The first call of task_create sets the heap up.
  first_call :
      (task_fn : ℕ) (name : List ℕ)
      → task_create (record s { kernel = task_init s.kernel }) task_fn (some name) 0 512 0
        ≡ task_create (begun s) task_fn (some name) 0 512 0
  unfolding next_power_of_two
  first_call task_fn name =
      let init =
        heap_init-IsHeap s.heap 1279 (omega arith) h.unused h.low h.high h.positive h.fit in
      task_create-with_slot (record s { kernel = task_init s.kernel }) task_fn (some name) 0 512 0
        refl
      ∙ ap (with_slot (record s { kernel = task_init s.kernel }) task_fn (some name) 0 512 0)
          first_slot
      ∙ ap
          (λ o. do
            r ← o
            some (after_malloc (claimed (task_init s.kernel) 0) 0 task_fn (some name) 0 512 0 r))
          init.1
      ∙ ap (with_slot (begun s) task_fn (some name) 0 512 0) (sym first_slot)
      ∙ sym (task_create-with_slot (begun s) task_fn (some name) 0 512 0 refl)

-- The machine after the calls of task_create, in order and with its tasks.
pub record HasCreated (f : Functions) (s s₁ : Machine) : Type 0 where
  pub calls : create_all (main_tasks f) (record s { kernel = task_init s.kernel }) ≡ some s₁
  pub blocks : List Tile
  pub order : IsMachine s₁ main_lists blocks
  pub tasks : HasTasks f s₁.kernel
  pub nobody_runs : s₁.kernel.current_task ≡ none

same_calls :
    (f : Functions) (s : Machine) (size : ℕ)
    → IsUntouched s.heap size
    → create_all (main_tasks f) (record s { kernel = task_init s.kernel })
      ≡ create_all (main_tasks f) (begun s)
unfolding create_all
same_calls f s size h =
    ap
      (λ o. do
        s' ← o
        create_all
            (record { task_fn = f.task_producer; name = codes "Producer"; priority = 1; size = 512 }
              ∷ record {
                task_fn = f.task_consumer;
                name = codes "Consumer";
                priority = 2;
                size = 512;
              }
              ∷ record {
                task_fn = f.task_mpu_probe;
                name = codes "MpuProbe";
                priority = 3;
                size = 512;
              }
              ∷ record { task_fn = f.idle_task; name = codes "Idle"; priority = 7; size = 512 }
              ∷ [])
            s')
      (first_call s size h f.kernel_task_fn (codes "KernelWorker"))

main_creates :
    (f : Functions) (s : Machine) (size : ℕ)
    → IsUntouched s.heap size
    → 6456 ≤ size
    → (s₁ : Machine) × HasCreated f s s₁
main_creates f s size h enough =
    let plain : All IsPlain (main_tasks f) = (
      (omega arith, refl),
      (
        (omega arith, refl),
        ((omega arith, refl), ((omega arith, refl), ((omega arith, refl), tt))),
      ),
    ) in
    let (s₁, b) =
      calls-IsBuilt (main_tasks f) 0 (begun s) (λ _. []) (omega arith) plain
        (begin s size h enough) in
    let (worker, (producer, (consumer, (probe, (idle, _))))) = b.tasks in
    (
      s₁,
      record {
        calls = same_calls f s size h ∙ b.calls;
        blocks = b.stage.blocks;
        order = b.stage.machine;
        tasks = record {
          worker = worker;
          producer = producer;
          consumer = consumer;
          probe = probe;
          idle = idle;
        };
        nobody_runs = b.stage.current;
      },
    )

-- The state in which port_start_first_task resumes task `t`.
abbrev first_of : Kernel → ℕ → Kernel
first_of k t =
    let k' = set_current k (some t) in set_tcb k' t (record (k'.tcb t) { state = running })

start_first_task-some :
    (k k' : Kernel) (t : ℕ)
    → k.current_task ≡ none
    → get_next k ≡ some (k', some t)
    → start_first_task k ≡ some (first_of k' t, some t)
unfolding start_first_task
start_first_task-some k k' t idle e = rw (idle, e, start_first_task) refl

main-after :
    (f : Functions) (s s₁ : Machine) (k : Kernel) (first : Ptr)
    → create_all (main_tasks f) (record s { kernel = task_init s.kernel }) ≡ some s₁
    → start_first_task s₁.kernel ≡ some (k, first)
    → main f s ≡ some (record s₁ { kernel = k }, first)
unfolding main
main-after f s s₁ k first e e' =
    ap
      (λ o. do
        s' ← o
        (k, first) ← start_first_task s'.kernel
        some (record s' { kernel = k }, first))
      e
    ∙ ap (λ o. do (k, first) ← o; some (record s₁ { kernel = k }, first)) e'

-- The machine `s'` in which the kernel task runs first: it is the current task, and but for its
-- state nothing in the control blocks has changed since `s`.
pub record HasStarted (s s' : Machine) : Type 0 where
  pub current : s'.kernel.current_task ≡ some 0
  pub runs : s'.kernel.tcb 0 ≡ record (s.kernel.tcb 0) { state = running }
  pub others : (u : ℕ) → u ≢ 0 → s'.kernel.tcb u ≡ s.kernel.tcb u
  pub heap : s'.heap ≡ s.heap

HasStarted-first :
    (s : Machine) → HasStarted s (record s { kernel = first_of (select s.kernel 0 0) 0 })
unfolding set_current
HasStarted-first s = record {
  current = refl;
  runs = refl;
  others = λ u ne. rw (==_of_ne u 0 ne) refl;
  heap = refl;
}

-- Of the tasks of main, the kernel task is the first.
worker_first :
    (f : Functions) (k : Kernel)
    → HasTasks f k
    → ((pr : ℕ) → pr < max_task_priorities → IsRing k pr (main_lists pr))
    → get_next k ≡ some (select k 0 0, some 0)
worker_first f k h rings = first_alone k main_lists 0 rings refl (ap is_ready h.worker.state)

-- main, on a heap of 6456 bytes or more that malloc has not used yet, and whatever the kernel's
-- memory holds: each call of task_create creates its task, KernelWorker, Producer, Consumer,
-- MpuProbe and Idle in the slots 0 to 4, with the priorities 0, 1, 2, 3 and 7, each READY,
-- privileged, with a stack of 512 bytes and alone on its list; the priority lists, the pool and the
-- heap are in order. Then the kernel task is the one that is started.
pub main_lem :
    (f : Functions) (s : Machine) (size : ℕ)
    → IsUntouched s.heap size
    → 6456 ≤ size
    → (s₁ : Machine) × (s' : Machine) × HasCreated f s s₁
      × (main f s ≡ some (s', some 0))
      × HasStarted s₁ s'
main_lem f s size h enough =
    let (s₁, c) = main_creates f s size h enough in
    let k = first_of (select s₁.kernel 0 0) 0 in
    (
      s₁,
      record s₁ { kernel = k },
      c,
      main-after f s s₁ k (some 0) c.calls (
          start_first_task-some s₁.kernel (select s₁.kernel 0 0) 0 c.nobody_runs
            (worker_first f s₁.kernel c.tasks c.order.pool.held.ring)),
      HasStarted-first s₁,
    )
