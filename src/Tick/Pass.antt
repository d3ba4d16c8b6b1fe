-- ===== src/Tick/Pass.antt =====
-- kernel/sched.c, scheduler_tick, on priority lists that hold each task at most once.
use crest_rtos.Base.{
  ℕ, zero, suc, ◌+◌, ◌-◌, ◌%◌, ◌^◌, ◌<◌, ◌≡◌, ◌≢◌, ◌∙◌, ◌⊎◌, inl, inr, sym, subst, refl, true,
  false, arith, some, none, List, has, ltb, ◌==◌, Ptr,
}
use crest_rtos.Chain.{Chain}
use crest_rtos.Kernel.{
  max_task_priorities, TaskState, ready, running, waiting, suspended, Tcb, Kernel,
}
use crest_rtos.Sched.Round.{nexts}
use crest_rtos.Tick.{age, sync_task, sync_tick_all, tick}
use crest_rtos.Tick.Ages.{
  aged, aged_lists, IsListed, Chain-aged, blocking-aged, walk_lists-age, walk_lists_self,
  aged_lists-out, aged_lists-in,
}

blocking-aged_lists :
    (rounds : ℕ) (lists : ℕ → List ℕ) (pr : ℕ) (f : ℕ → Tcb) (t : ℕ)
    → (aged_lists rounds lists pr f t).blocking_wait_list ≡ (f t).blocking_wait_list
unfolding aged_lists
blocking-aged_lists zero lists pr f t = refl
blocking-aged_lists (suc rounds) lists pr f t =
    blocking-aged_lists rounds lists (pr + 1) (aged (lists pr) f) t ∙ blocking-aged (lists pr) f t

Chain-aged_lists :
    (rounds : ℕ) (lists : ℕ → List ℕ) (pr : ℕ) (f : ℕ → Tcb) (p : Ptr) (ts : List ℕ)
    → Chain (nexts f) p ts
    → Chain (nexts (aged_lists rounds lists pr f)) p ts
unfolding aged_lists
Chain-aged_lists zero lists pr f p ts c = c
Chain-aged_lists (suc rounds) lists pr f p ts c =
    Chain-aged_lists rounds lists (pr + 1) (aged (lists pr) f) p ts (Chain-aged (lists pr) ts f p c)

sync_task_idle : (t : ℕ) (k : Kernel) → (k.tcb t).blocking_wait_list ≡ none → sync_task t k ≡ some k
unfolding sync_task
sync_task_idle t k e = rw (e, sync_task) refl

-- The priority lists as lists of tasks, without repetition, none longer than the pool, and no task
-- on two of them.
pub record IsFiled (k : Kernel) (lists : ℕ → List ℕ) : Type 0 where
  pub listed : (pr : ℕ) → pr < max_task_priorities → IsListed k.task_list k.tcb pr (lists pr)
  pub apart :
      (i j t : ℕ)
      → i < max_task_priorities
      → j < max_task_priorities
      → i ≢ j
      → has t (lists j) ≡ true
      → has t (lists i) ≡ false

-- The state behind a tick without timeouts.
abbrev pub ticked : Kernel → (ℕ → List ℕ) → Kernel
ticked k lists = record k {
  tick_count = (k.tick_count + 1) % 2 ^ 32;
  tcb = aged_lists max_task_priorities lists 0 k.tcb;
}

-- One tick of a task without a timeout at a primitive, from control block `c` to `c'`.
abbrev pub Ticked : Tcb → Tcb → Type 0
Ticked c c' =
    ((c.state ≡ waiting) × (c.delay_ticks ≡ 1) × (c' ≡ record c { delay_ticks = 0; state = ready }))
    ⊎ ((c.state ≡ waiting)
        × (1 < c.delay_ticks)
        × (c' ≡ record c { delay_ticks = c.delay_ticks - 1 }))
    ⊎ ((c.delay_ticks ≡ 0) × (c' ≡ c))
    ⊎ ((c.state ≢ waiting) × (c' ≡ c))

age-waiting :
    (c : Tcb) (n : ℕ)
    → c.blocking_wait_list ≡ none
    → c.state ≡ waiting
    → c.delay_ticks ≡ n
    → Ticked c (age c)
unfolding age
age-waiting c zero b w d = inr (inr (inl (d, rw (w, b, d, age) refl)))
age-waiting c (suc zero) b w d = inl (w, d, rw (w, b, d, age) refl)
age-waiting c (suc (suc n)) b w d =
    let positive : ltb 0 (suc (suc n)) ≡ true = ground arith in
    let more : (suc (suc n) - 1 == 0) ≡ false = ground arith in
    inr (inl (w, omega (arith, d), rw (w, b, d, age, positive, more) refl))

age-Ticked : (c : Tcb) → c.blocking_wait_list ≡ none → Ticked c (age c)
unfolding age
age-Ticked c b = by_state c.state refl
  where
    by_state : (s : TaskState) → c.state ≡ s → Ticked c (age c)
    by_state waiting e = age-waiting c c.delay_ticks b e refl
    by_state ready e = inr (inr (inr (λ q. cc, rw (e, age) refl)))
    by_state running e = inr (inr (inr (λ q. cc, rw (e, age) refl)))
    by_state suspended e = inr (inr (inr (λ q. cc, rw (e, age) refl)))

module _ (k : Kernel) (lists : ℕ → List ℕ) (filed : IsFiled k lists)
    (idle : (i t : ℕ)
      → i < max_task_priorities
      → has t (lists i) ≡ true
      → (k.tcb t).blocking_wait_list ≡ none) where
  sync-ticked : sync_tick_all (ticked k lists) ≡ some (ticked k lists)
  unfolding sync_tick_all
  sync-ticked =
      walk_lists_self max_task_priorities sync_task (ticked k lists) lists 0
        (λ i ge lt.
          let (c, n, few) = filed.listed i (omega (arith, lt)) in
          (Chain-aged_lists max_task_priorities lists 0 k.tcb (k.task_list i) (lists i) c, n, few))
        (λ i t ge lt m. sync_task_idle t (ticked k lists) (
          blocking-aged_lists max_task_priorities lists 0 k.tcb t ∙ idle i t (omega (arith, lt)) m))

  tick-ticked : tick k ≡ some (ticked k lists)
  unfolding tick
  tick-ticked =
      rw
        (walk_lists-age max_task_priorities (record k { tick_count = (k.tick_count + 1) % 2 ^ 32 })
          lists 0 (λ i ge lt. filed.listed i (omega (arith, lt))))
        sync-ticked

  -- scheduler_tick, on well-formed priority lists whose tasks have no timeout at a primitive: it
  -- returns and counts the tick modulo 2^32. A task of a list that is WAITING with one tick to
  -- sleep is READY, with more it has one less and is WAITING still, and no other field of its
  -- control block changes; all other control blocks are as they were.
  pub tick_lem :
      (k' : Kernel) × (tick k ≡ some k')
      × (k'.tick_count ≡ (k.tick_count + 1) % 2 ^ 32)
      × ((i t : ℕ) → i < max_task_priorities → has t (lists i) ≡ true → Ticked (k.tcb t) (k'.tcb t))
      × ((t : ℕ)
          → ((i : ℕ) → i < max_task_priorities → has t (lists i) ≡ false)
          → k'.tcb t ≡ k.tcb t)
  tick_lem = (
    ticked k lists,
    tick-ticked,
    refl,
    λ i t lt m.
        subst (Ticked (k.tcb t))
          (sym (
            aged_lists-in max_task_priorities lists 0 k.tcb t i (omega arith) (omega (arith, lt)) m
              (λ j ge lt' ne. filed.apart j i t (omega (arith, lt')) lt ne m)))
          (age-Ticked (k.tcb t) (idle i t lt m)),
    λ t out.
        aged_lists-out max_task_priorities lists 0 k.tcb t (λ i ge lt. out i (omega (arith, lt))),
  )
