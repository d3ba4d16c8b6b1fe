-- ===== src/Task/Create.antt =====
-- kernel/task.c, task_create, with the pool, the heap and the priority lists that it uses.
use crest_rtos.Base.{
  Bool-cases, ℕ, ◌+◌, ◌-◌, ◌^◌, ◌≤◌, ◌<◌, ◌≡◌, inl, inr, refl, sym, ap, ◌∙◌, subst, arith, Bool,
  true, false, Option, none, some, List, has, ◌==◌, ==_refl, ==_of_ne, ==_iff, update,
  if◌then◌else◌, ltb, ◌>>=◌,
}
use crest_rtos.Chain.{has→ne}
use crest_rtos.Kernel.{max_tasks, max_task_priorities, max_task_stack_size, Kernel, Tcb}
use crest_rtos.Sched
use crest_rtos.Alloc.{Heap, header_size}
use crest_rtos.Alloc.Tiles.{Tile, block_at}
use crest_rtos.Alloc.Release.{block-Laid}
use crest_rtos.Alloc.Take.{place}
use crest_rtos.Alloc.Place.{IsShort, IsPlacement}
use crest_rtos.Alloc.Malloc.{base, block_bytes, IsHeap, malloc-Allocated}
use crest_rtos.Task.{
  Machine, get_free_tcb, free_tcb, next_power_of_two, alloc_bytes, base_in, stored_name,
  task_create,
}
use crest_rtos.Task.Names.{stored_name-IsName}
use crest_rtos.Task.Pool.{IsPool, slot_cases, free-absent, write-HoldsTasks}
use crest_rtos.Task.Sizes.{IsPlaced, base_in-IsPlaced, next_power_of_two-IsRoundUp}
use crest_rtos.Task.Slot.{
  claimed, written, added-IsPool, new_tcb, first_frame, set_up_lem, claim_slot, get_free_tcb_lem,
  after_malloc, with_slot, task_create-with_slot,
}
use crest_rtos.Task.Outcome.{IsMachine, IsNamed, IsCreated, Outcome, full, short, created}

if_no : (b : Bool) (x y : Machine) → b ≡ false → (if b then x else y) ≡ y
if_no true x y e = cc
if_no false x y e = refl

stored_name-IsNamed : (name : Option (List ℕ)) → IsNamed name (stored_name name)
unfolding stored_name
stored_name-IsNamed none = refl
stored_name-IsNamed (some text) = stored_name-IsName text

-- A block at `a` with room for `bytes` bytes behind its header.
abbrev Taken : ℕ → ℕ → List Tile → ℕ → Type 0
Taken here a ts bytes = (m : ℕ) × (block_at here a ts ≡ some m) × (block_bytes bytes ≤ m)

Taken-of_IsPlacement :
    (bytes : ℕ) {here a : ℕ} {ts ts' : List Tile}
    → IsPlacement (block_bytes bytes) here ts a ts'
    → Taken here a ts' bytes
Taken-of_IsPlacement bytes p = (p.block.0, p.block.1, p.block.2)

-- The bytes of a block end before the address space does.
block-fits :
    (h : Heap) (ts : List Tile) (a bytes : ℕ)
    → IsHeap h ts
    → Taken (base h) a ts bytes
    → a + header_size + bytes < 2 ^ 32
block-fits h ts a bytes heap (m, at, room) =
    let (_, _, inside) = block-Laid h (base h) h.free_list a m ts heap.laid at in
    omega (arith, inside, room, heap.high)

module _ (s : Machine) (lists : ℕ → List ℕ) (ts : List Tile) (i : IsMachine s lists ts)
    (task_fn : ℕ) (name : Option (List ℕ)) (priority stack arg : ℕ)
    (p_lt : priority < max_task_priorities) where
  abbrev Ends : Option Machine → Type 0
  Ends o = (s' : Machine) × (o ≡ some s') × Outcome s lists ts task_fn name priority stack arg s'

  module _ (t : ℕ) (t_lt : t < max_tasks) (free : s.kernel.tcb_used t ≡ false)
      (lowest : (j : ℕ) → j < t → s.kernel.tcb_used j ≡ true) where
    not_the_slot :
        (pr u : ℕ) → pr < max_task_priorities → has u (lists pr) ≡ true → (u == t) ≡ false
    not_the_slot pr u lt m =
        ==_of_ne u t (has→ne t u (lists pr) (free-absent s.kernel lists i.pool t free pr lt) m)

    abbrev released : Kernel
    released = record s.kernel { tcb_used = update (update s.kernel.tcb_used t true) t false }

    released-IsPool : IsPool released lists
    released-IsPool = record {
      held = write-HoldsTasks s.kernel lists i.pool t free released refl refl (λ u ne. refl);
      used = λ pr u lt m. rw (not_the_slot pr u lt m) (i.pool.used pr u lt m);
      below = i.pool.below;
    }

    released-used : (j : ℕ) → released.tcb_used j ≡ s.kernel.tcb_used j
    released-used j = elim (Bool-cases (j == t)) [
      | inl e ↦ rw e (sym free ∙ ap s.kernel.tcb_used (sym ((==_iff j t).0 e)))
      | inr e ↦ rw e refl
    ]

    Ends-short :
        IsShort (block_bytes (alloc_bytes stack)) ts
        → Ends
            (some (after_malloc (claimed s.kernel t) t task_fn name priority stack arg (s.heap, 0)))
    unfolding free_tcb
    Ends-short tight =
        let s' : Machine = record { kernel = released; heap = s.heap } in
        let in_pool : ltb t max_tasks ≡ true = ground (arith, t_lt) in
        (
          s',
          rw in_pool refl,
          short s' tight refl refl refl released-used
              (record { pool = released-IsPool; heap = i.heap }),
        )

    module _ (h' : Heap) (a : ℕ) where
      abbrev block_of : ℕ
      block_of = a + header_size

      abbrev frame : (ℕ → ℕ) × ℕ
      frame = first_frame s.kernel block_of stack task_fn arg

      abbrev new : Tcb
      new = new_tcb block_of frame.1 task_fn name priority stack arg

      abbrev after : Machine
      after = record { kernel = Sched.add_task (written s.kernel t frame.0 new) t; heap = h' }

      after_malloc-after :
          after_malloc (claimed s.kernel t) t task_fn name priority stack arg (h', block_of) ≡ after
      after_malloc-after =
          if_no (block_of == 0) _ _ (ground arith)
          ∙ ap (λ k. record { kernel = k; heap = h' })
              (set_up_lem s.kernel t block_of task_fn name priority stack arg)

      after-IsCreated :
          IsPlaced block_of stack (base_in block_of stack)
          → IsCreated s after task_fn name priority stack arg t block_of
      unfolding Sched.add_task
      after-IsCreated placed = record {
        inside = t_lt;
        unused = free;
        lowest = lowest;
        marks = refl;
        fields = rw (==_refl t) refl;
        named = rw (==_refl t) (stored_name-IsNamed name);
        placed = rw (==_refl t) placed;
        words = refl;
        current = refl;
        others = λ u ne. rw (==_of_ne u t ne) refl;
      }

      Ends-created :
          (ts' : List Tile)
          → place (block_bytes (alloc_bytes stack)) (base s.heap) ts ≡ some (a, ts')
          → IsPlacement (block_bytes (alloc_bytes stack)) (base s.heap) ts a ts'
          → IsHeap h' ts'
          → base h' ≡ base s.heap
          → 0 < stack
          → Ends (
              some (
                after_malloc (claimed s.kernel t) t task_fn name priority stack arg (h', block_of)))
      Ends-created ts' found placed heap same pos = (
        after,
        ap (λ (m : Machine). some m) after_malloc-after,
        created after t a ts' found placed
            (record {
              pool = added-IsPool s.kernel lists i.pool t t_lt free frame.0 new p_lt;
              heap = heap;
            })
            (after-IsCreated (
              base_in-IsPlaced block_of stack pos (
                block-fits h' ts' a (alloc_bytes stack) heap (
                  subst (λ b. Taken b a ts' (alloc_bytes stack)) (sym same)
                    (Taken-of_IsPlacement (alloc_bytes stack) placed))))),
      )

    Ends-slot :
        0 < stack
        → alloc_bytes stack ≤ 2 ^ 32 - 16
        → Ends (with_slot s task_fn name priority stack arg (claimed s.kernel t, some t))
    Ends-slot pos small =
        let (h', q, e, ends) =
          malloc-Allocated s.heap ts (alloc_bytes stack) i.heap (omega (arith, pos)) small in
        let finish : Heap × ℕ → Machine =
          after_malloc (claimed s.kernel t) t task_fn name priority stack arg in
        subst (λ o. Ends (do r ← o; some (finish r))) (sym e)
          (elim ends [
            | inl (zero_q, same, tight) ↦
                subst (λ q. Ends (some (finish (h', q)))) (sym zero_q)
                  (subst (λ h. Ends (some (finish (h, 0)))) (sym same) (Ends-short tight))
            | inr (a, ts', at, heap, same, found, placed) ↦
                subst (λ q. Ends (some (finish (h', q)))) (sym at)
                  (Ends-created h' a ts' found placed heap same pos)
          ])

  Ends-all :
      0 < stack
      → alloc_bytes stack ≤ 2 ^ 32 - 16
      → Ends (with_slot s task_fn name priority stack arg (get_free_tcb s.kernel))
  Ends-all pos small =
      subst (λ r. Ends (with_slot s task_fn name priority stack arg r))
        (sym (get_free_tcb_lem s.kernel))
        (elim (slot_cases max_tasks s.kernel 0) [
          | inl (nothing, all) ↦
              subst
                (λ o. Ends (with_slot s task_fn name priority stack arg (claim_slot s.kernel o)))
                (sym nothing) (s, refl, full (λ j lt. all j (omega arith) (omega (arith, lt))))
          | inr (t, found, lt, free, lowest) ↦
              subst
                (λ o. Ends (with_slot s task_fn name priority stack arg (claim_slot s.kernel o)))
                (sym found)
                (Ends-slot t (omega (arith, lt)) free (λ j less. lowest j (omega arith) less) pos
                  small)
        ])

-- task_create with a priority below MAX_TASK_PRIORITIES and a stack size from 1 to
-- MAX_TASK_STACK_SIZE, on priority lists, a pool and a heap in order, returns. Without a free slot
-- it changes nothing; without a block that is large enough it leaves the heap, the control blocks
-- and the slots in use as they were; else it takes the first free slot and a block of the heap,
-- sets every field of the slot's control block, with no flags, no wait and no delay, with the stack
-- aligned to its size inside the block behind the guard, and adds the READY task to the front of
-- its list, and no other control block changes. The lists, the pool and the heap stay in order.
pub task_create_lem :
    (s : Machine) (lists : ℕ → List ℕ) (ts : List Tile) (task_fn : ℕ) (name : Option (List ℕ))
    (priority size arg : ℕ)
    → IsMachine s lists ts
    → priority < max_task_priorities
    → 0 < size
    → size ≤ max_task_stack_size
    → (s' : Machine) × (task_create s task_fn name priority size arg ≡ some s')
      × Outcome s lists ts task_fn name priority (next_power_of_two size) arg s'
task_create_lem s lists ts task_fn name priority size arg i p_lt pos small =
    let stack = next_power_of_two size in
    let round = next_power_of_two-IsRoundUp size small in
    let bound = round.least 9 (omega arith) (omega (arith, small)) in
    subst
      (λ o. (s' : Machine) × (o ≡ some s') × Outcome s lists ts task_fn name priority stack arg s')
      (sym
        (task_create-with_slot s task_fn name priority size arg (ground (arith, p_lt, pos, small))))
      (Ends-all s lists ts i task_fn name priority stack arg p_lt (omega (arith, round.floor))
        (omega (arith, bound)))
