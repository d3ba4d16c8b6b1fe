-- ===== src/Task/Slot.antt =====
-- kernel/task.c, task_create, in its parts: the slot, the allocation, the new control block.
use crest_rtos.Base.{
  ℕ, ◌<◌, ◌≡◌, ◌⊎◌, ◌||◌, inl, inr, refl, sym, subst, arith, Bool, true, false, Option, none, some,
  List, ◌∷◌, has, length, ◌==◌, ==_iff, ==_refl, Bool-cases, update, Ptr, if◌then◌else◌, leb, ltb,
  ◌>>=◌,
}
use crest_rtos.Kernel.{max_tasks, max_task_priorities, max_task_stack_size, Kernel, Tcb}
use crest_rtos.Sched
use crest_rtos.Sched.Lists.{HoldsTasks}
use crest_rtos.Sched.Add.{with_task, add_task-HoldsTasks}
use crest_rtos.Alloc
use crest_rtos.Alloc.{Heap, header_size, need_of}
use crest_rtos.Task.{
  Machine, get_free_tcb, free_tcb, zero_tcb, stack_init, next_power_of_two, alloc_bytes, base_in,
  stored_name, set_up, task_create, free_slot,
}
use crest_rtos.Task.Pool.{IsPool, free-absent, free-room, write-HoldsTasks}

-- The kernel with slot `t` taken, and a control block written there.
abbrev pub claimed : Kernel → ℕ → Kernel
claimed k t = record k { tcb_used = update k.tcb_used t true }

abbrev pub written : Kernel → ℕ → (ℕ → ℕ) → Tcb → Kernel
written k t word new = record (claimed k t) { word = word; tcb = update k.tcb t new }

module _ (k : Kernel) (lists : ℕ → List ℕ) (pool : IsPool k lists) (t : ℕ) (t_lt : t < max_tasks)
    (free : k.tcb_used t ≡ false) (word : ℕ → ℕ) (new : Tcb)
    (p_lt : new.priority < max_task_priorities) where
  abbrev added_to : Kernel
  added_to = written k t word new

  priority_at : (added_to.tcb t).priority ≡ new.priority
  priority_at = rw (==_refl t) refl

  added-HoldsTasks : HoldsTasks (Sched.add_task added_to t) (with_task lists new.priority t)
  added-HoldsTasks =
      subst (λ p. HoldsTasks (Sched.add_task added_to t) (with_task lists p t)) priority_at
        (add_task-HoldsTasks added_to lists t
          (subst (λ p. p < max_task_priorities) (sym priority_at) p_lt)
          (free-absent k lists pool t free)
          (subst (λ p. length (lists p) < max_tasks) (sym priority_at)
            (free-room k lists pool t free new.priority p_lt t_lt))
          (write-HoldsTasks k lists pool t free added_to refl refl (λ u ne. ground (arith, ne))))

  used_in :
      (pr u : ℕ)
      → pr < max_task_priorities
      → has u (with_task lists new.priority t pr) ≡ true
      → (u ≡ t) ⊎ (has u (lists pr) ≡ true)
  used_in pr u lt m = elim (Bool-cases (pr == new.priority)) [
    | inl e ↦
        let at = (==_iff pr new.priority).0 e in
        let here = subst (λ b. has u (if b then t ∷ lists new.priority else lists pr) ≡ true) e m in
        elim (Bool-cases (u == t)) [
          | inl same ↦ inl ((==_iff u t).0 same)
          | inr other ↦ inr (
              subst (λ p. has u (lists p) ≡ true) (sym at)
                (subst (λ b. (b || has u (lists new.priority)) ≡ true) other here))
        ]
    | inr e ↦ inr (subst (λ b. has u (if b then t ∷ lists new.priority else lists pr) ≡ true) e m)
  ]

  pub added-IsPool : IsPool (Sched.add_task added_to t) (with_task lists new.priority t)
  unfolding Sched.add_task
  added-IsPool = record {
    held = added-HoldsTasks;
    used = λ pr u lt m. elim (used_in pr u lt m) [
      | inl e ↦ rw (e, ==_refl t) refl
      | inr old ↦ elim (Bool-cases (u == t)) [
        | inl e ↦ rw e refl
        | inr e ↦ rw e (pool.used pr u lt old)
      ]
    ];
    below = λ pr u lt m. elim (used_in pr u lt m) [
      | inl e ↦ rw e t_lt
      | inr old ↦ pool.below pr u lt old
    ];
  }

-- The control block of a new task.
abbrev pub new_tcb : ℕ → ℕ → ℕ → Option (List ℕ) → ℕ → ℕ → ℕ → Tcb
new_tcb a sp task_fn name priority stack arg = record zero_tcb {
  stack_base = base_in a stack;
  stack_alloc = a;
  stack_size = stack;
  stack_pointer = sp;
  priority = priority;
  task_function = task_fn;
  arg = arg;
  name = stored_name name;
}

abbrev pub first_frame : Kernel → ℕ → ℕ → ℕ → ℕ → (ℕ → ℕ) × ℕ
first_frame k a stack task_fn arg =
    stack_init (update k.word a 0xdead_beef) (base_in a stack) stack task_fn arg

pub set_up_lem :
    (k : Kernel) (t a task_fn : ℕ) (name : Option (List ℕ)) (priority stack arg : ℕ)
    → set_up (claimed k t) t a task_fn name priority stack arg
      ≡ Sched.add_task
          (written k t
            (first_frame k a stack task_fn arg).0
            (new_tcb a (first_frame k a stack task_fn arg).1 task_fn name priority stack arg))
          t
unfolding set_up
set_up_lem k t a task_fn name priority stack arg = refl

-- What get_free_tcb does with the slot that the search found.
abbrev pub claim_slot : Kernel → Ptr → Kernel × Ptr
claim_slot k none = (k, none)
claim_slot k (some t) = (claimed k t, some t)

claim_slot_lem :
    (k : Kernel) (o : Ptr)
    → (elim o [ none ↦ (k, none) | some i ↦ (claimed k i, some i) ]) ≡ claim_slot k o
claim_slot_lem k none = refl
claim_slot_lem k (some t) = refl

pub get_free_tcb_lem : (k : Kernel) → get_free_tcb k ≡ claim_slot k (free_slot max_tasks k 0)
unfolding get_free_tcb
get_free_tcb_lem k = claim_slot_lem k (free_slot max_tasks k 0)

-- What task_create does with the slot, and with the allocation.
abbrev pub after_malloc : Kernel → ℕ → ℕ → Option (List ℕ) → ℕ → ℕ → ℕ → Heap × ℕ → Machine
after_malloc k t task_fn name priority stack arg (h, a) =
    if a == 0
    then record { kernel = free_tcb k t; heap = h }
    else record { kernel = set_up k t a task_fn name priority stack arg; heap = h }

abbrev pub with_slot : Machine → ℕ → Option (List ℕ) → ℕ → ℕ → ℕ → Kernel × Ptr → Option Machine
with_slot s task_fn name priority stack arg (k, none) = some (record s { kernel = k })
with_slot s task_fn name priority stack arg (k, some t) = do
  r ← Alloc.malloc s.heap (alloc_bytes stack)
  some (after_malloc k t task_fn name priority stack arg r)

abbrev pub is_refused : ℕ → ℕ → Bool
is_refused priority size =
    leb max_task_priorities priority || (size == 0 || ltb max_task_stack_size size)

module _ (s : Machine) (task_fn : ℕ) (name : Option (List ℕ)) (priority stack arg : ℕ) where
  branches :
      (refused : Bool) (r : Kernel × Ptr)
      → refused ≡ false
      → (if refused then some s else elim r.1 [
        | none ↦ some (record s { kernel = r.0 })
        | some t ↦ do
          (h, a) ← Alloc.malloc s.heap (alloc_bytes stack)
          some (
              if a == 0
              then record { kernel = free_tcb r.0 t; heap = h }
              else record { kernel = set_up r.0 t a task_fn name priority stack arg; heap = h })
      ])
        ≡ with_slot s task_fn name priority stack arg r
  branches true r e = cc
  branches false (k, none) e = refl
  branches false (k, some t) e = refl

pub task_create-with_slot :
    (s : Machine) (task_fn : ℕ) (name : Option (List ℕ)) (priority size arg : ℕ)
    → is_refused priority size ≡ false
    → task_create s task_fn name priority size arg
      ≡ with_slot s task_fn name priority (next_power_of_two size) arg (get_free_tcb s.kernel)
unfolding task_create
task_create-with_slot s task_fn name priority size arg e =
    branches s task_fn name priority (next_power_of_two size) arg (is_refused priority size)
      (get_free_tcb s.kernel) e
