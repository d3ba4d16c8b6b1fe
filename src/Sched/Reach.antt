-- ===== src/Sched/Reach.antt =====
-- kernel/sched.c: the states that the scheduler's functions reach from scheduler_init.
use crest_rtos.Base.{
  ℕ, ◌<◌, ◌≡◌, inl, inr, refl, List, [], ◌∷◌, true, false, some, none, Ptr, arith, has, length,
  ◌==◌, update, Bool-cases, ==_iff, ==_refl, sym, subst, ◌⊎◌, ◌||◌, or_else, if◌then◌else◌,
}
use crest_rtos.Chain.{Chain}
use crest_rtos.Kernel.{max_task_priorities, max_tasks, Kernel}
use crest_rtos.Sched.{
  init, sleep, wake_task, add_task, remove_task, get_next, set_current, next_round,
}
use crest_rtos.Sched.Round.{nexts}
use crest_rtos.Sched.Turn.{IsRing}
use crest_rtos.Sched.Next.{select, get_next_lem}
use crest_rtos.Sched.Lists.{HoldsTasks, without, frame-HoldsTasks, remove_task-HoldsTasks}
use crest_rtos.Sched.Add.{with_task, add_task-HoldsTasks}

-- The states that calls of the scheduler's functions lead to, with the tasks that have been added
-- and not removed, the last added first. A task is added at a valid priority while it is on no
-- list and the pool has room; a task of a valid priority is removed.
pub data Reach : Kernel → (ℕ → List ℕ) → Type 0 where
  started : (k : Kernel) → Reach (init k) (λ _. [])
  added :
      (k : Kernel) (lists : ℕ → List ℕ) (t : ℕ)
      → Reach k lists
      → (k.tcb t).priority < max_task_priorities
      → ((pr : ℕ) → pr < max_task_priorities → has t (lists pr) ≡ false)
      → length (lists (k.tcb t).priority) < max_tasks
      → Reach (add_task k t) (with_task lists (k.tcb t).priority t)
  removed :
      (k k' : Kernel) (lists : ℕ → List ℕ) (t : ℕ)
      → Reach k lists
      → (k.tcb t).priority < max_task_priorities
      → remove_task k t ≡ some k'
      → Reach k' (without lists (k.tcb t).priority t)
  chosen :
      (k k' : Kernel) (lists : ℕ → List ℕ) (next : Ptr)
      → Reach k lists
      → get_next k ≡ some (k', next)
      → Reach k' lists
  slept :
      (k : Kernel) (lists : ℕ → List ℕ) (t ticks : ℕ)
      → Reach k lists
      → Reach (sleep k t ticks) lists
  woken :
      (k : Kernel) (lists : ℕ → List ℕ) (t result : ℕ)
      → Reach k lists
      → Reach (wake_task k t result) lists
  switched :
      (k : Kernel) (lists : ℕ → List ℕ) (p : Ptr) → Reach k lists → Reach (set_current k p) lists

-- The link of a task in a list leads to a task of the list, or nowhere.
link-member :
    (link : ℕ → Ptr) (p : Ptr) (ts : List ℕ) (t : ℕ)
    → Chain link p ts
    → has t ts ≡ true
    → (link t ≡ none) ⊎ ((n : ℕ) × (link t ≡ some n) × (has n ts ≡ true))
link-member link p [] t c m = cc
link-member link p (x ∷ xs) t (e, c) m = elim (Bool-cases (t == x)) [
  | inl same ↦ first_link xs (subst (λ y. Chain link (link y) xs) (sym ((==_iff t x).0 same)) c)
  | inr other ↦
      elim (link-member link (link x) xs t c (subst (λ b. (b || has t xs) ≡ true) other m)) [
        | inl n ↦ inl n
        | inr (n, l, h) ↦ inr (n, l, ground (arith, h))
      ]
]
  where
    first_link :
        (ys : List ℕ)
        → Chain link (link t) ys
        → (link t ≡ none) ⊎ ((n : ℕ) × (link t ≡ some n) × (has n (x ∷ ys) ≡ true))
    first_link [] c = inl c
    first_link (y ∷ ys) c = inr (y, c.0, ground (arith, ==_refl y))

-- The first task of a list is in it.
head-member :
    (link : ℕ → Ptr) (p : Ptr) (ts : List ℕ) (t : ℕ)
    → Chain link p ts
    → has t ts ≡ true
    → has (or_else p 0) ts ≡ true
head-member link p [] t c m = cc
head-member link p (x ∷ xs) t c m = rw c.0 (ground (arith, ==_refl x))

next_round-member :
    (k : Kernel) (pr t : ℕ) (ts : List ℕ)
    → IsRing k pr ts
    → has t ts ≡ true
    → has (next_round k.tcb (or_else (k.task_list pr) 0) t) ts ≡ true
next_round-member k pr t ts r m = elim (link-member (nexts k.tcb) (k.task_list pr) ts t r.chain m) [
  | inl n ↦ rw n (head-member (nexts k.tcb) (k.task_list pr) ts t r.chain m)
  | inr (n, l, h) ↦ rw l h
]

select-HoldsTasks :
    (k : Kernel) (lists : ℕ → List ℕ) (pr t : ℕ)
    → pr < max_task_priorities
    → has t (lists pr) ≡ true
    → HoldsTasks k lists
    → HoldsTasks (select k pr t) lists
select-HoldsTasks k lists pr t lt m h =
    frame-HoldsTasks k (select k pr t) lists (λ u. refl) (λ u. refl) (λ j. refl)
      (λ j s j_lt e. cursor_at j s j_lt e) h
  where
    n : ℕ
    n = next_round k.tcb (or_else (k.task_list pr) 0) t

    cursor_at :
        (j s : ℕ)
        → j < max_task_priorities
        → update k.rr_current pr (some n) j ≡ some s
        → has s (lists j) ≡ true
    cursor_at j s j_lt e = elim (Bool-cases (j == pr)) [
      | inl same ↦
          let at = subst (λ b. (if b then some n else k.rr_current j) ≡ some s) same e in
          let here : n ≡ s = cc at in
          subst (λ i. has s (lists i) ≡ true) (sym ((==_iff j pr).0 same))
            (subst (λ v. has v (lists pr) ≡ true) here
              (next_round-member k pr t (lists pr) (h.ring pr lt) m))
      | inr other ↦
          (h.ring j j_lt).cursor s
            (subst (λ b. (if b then some n else k.rr_current j) ≡ some s) other e)
    ]

-- Where a choice returns `(k', next)`, the lists of `k'` are in order.
chosen-HoldsTasks :
    (k k' : Kernel) (lists : ℕ → List ℕ) (next : Ptr)
    → HoldsTasks k lists
    → get_next k ≡ some (k', next)
    → HoldsTasks k' lists
chosen-HoldsTasks k k' lists next h e = elim (get_next_lem k lists h.ring) [
  | inl (pr, t, found, is) ↦
      let same : select k pr t ≡ k' = cc (found, e) in
      subst (λ s. HoldsTasks s lists) same (select-HoldsTasks k lists pr t is.inside is.member h)
  | inr (nothing, _) ↦ let same : k ≡ k' = cc (nothing, e) in subst (λ s. HoldsTasks s lists) same h
]

sleep-HoldsTasks :
    (k : Kernel) (lists : ℕ → List ℕ) (t ticks : ℕ)
    → HoldsTasks k lists
    → HoldsTasks (sleep k t ticks) lists
unfolding sleep
sleep-HoldsTasks k lists t ticks h =
    frame-HoldsTasks k (sleep k t ticks) lists (λ u. ground arith) (λ u. ground arith) (λ j. refl)
      (λ j s lt. (h.ring j lt).cursor s) h

wake_task-HoldsTasks :
    (k : Kernel) (lists : ℕ → List ℕ) (t result : ℕ)
    → HoldsTasks k lists
    → HoldsTasks (wake_task k t result) lists
unfolding wake_task
wake_task-HoldsTasks k lists t result h = elim (Bool-cases (k.tcb t).svc_blocked) [
  | inl b ↦ rw b (
      frame-HoldsTasks k _ lists (λ u. ground arith) (λ u. ground arith) (λ j. refl)
        (λ j s lt. (h.ring j lt).cursor s) h)
  | inr b ↦ rw b (
      frame-HoldsTasks k _ lists (λ u. ground arith) (λ u. ground arith) (λ j. refl)
        (λ j s lt. (h.ring j lt).cursor s) h)
]

-- In every state that the scheduler's functions reach from scheduler_init, the priority lists are
-- in order: they hold the tasks that were added and not removed, none twice, each at its own
-- priority, and every cursor is NULL or stands at a task of its list.
pub Reach-HoldsTasks : (k : Kernel) (lists : ℕ → List ℕ) → Reach k lists → HoldsTasks k lists
unfolding init set_current
Reach-HoldsTasks _ _ (started k) = record {
  ring = λ pr lt. record { chain = refl; nodup = tt; few = omega arith; cursor = λ s e. cc };
  own = λ pr u lt m. cc;
}
Reach-HoldsTasks _ _ (added k lists t r p_lt new room) =
    add_task-HoldsTasks k lists t p_lt new room (Reach-HoldsTasks k lists r)
Reach-HoldsTasks _ _ (removed k k' lists t r p_lt e) =
    let (k'', e', h) = remove_task-HoldsTasks k lists t p_lt (Reach-HoldsTasks k lists r) in
    let same : k'' ≡ k' = cc (e', e) in
    subst (λ s. HoldsTasks s (without lists (k.tcb t).priority t)) same h
Reach-HoldsTasks _ _ (chosen k k' lists next r e) =
    chosen-HoldsTasks k k' lists next (Reach-HoldsTasks k lists r) e
Reach-HoldsTasks _ _ (slept k lists t ticks r) =
    sleep-HoldsTasks k lists t ticks (Reach-HoldsTasks k lists r)
Reach-HoldsTasks _ _ (woken k lists t result r) =
    wake_task-HoldsTasks k lists t result (Reach-HoldsTasks k lists r)
Reach-HoldsTasks _ _ (switched k lists p r) =
    let h = Reach-HoldsTasks k lists r in
    frame-HoldsTasks k (set_current k p) lists (λ u. refl) (λ u. refl) (λ j. refl)
      (λ j s lt. (h.ring j lt).cursor s) h
