-- ===== src/Task/Pool.antt =====
-- kernel/task.c, tcb_pool: the slots that are in use, and the tasks of the priority lists in them.
use crest_rtos.Base.{
  ℕ, zero, suc, ◌+◌, ◌≤◌, ◌<◌, ◌≡◌, ◌≢◌, ◌⊎◌, ◌||◌, inl, inr, refl, sym, ap, ◌∙◌, subst, arith,
  true, false, none, some, List, [], ◌∷◌, has, length, IsNodup, ◌==◌, ==_iff, ==_refl, Bool-cases,
  eq_or_gt,
}
use crest_rtos.Chain.{Chain-move, has→ne, remove, has-remove_self, IsNodup-remove}
use crest_rtos.Kernel.{max_tasks, max_task_priorities, Kernel, Tcb}
use crest_rtos.Sched.Round.{nexts}
use crest_rtos.Sched.Lists.{HoldsTasks}
use crest_rtos.Task.{free_slot}

-- The tasks of the lists are slots in use.
pub record IsPool (k : Kernel) (lists : ℕ → List ℕ) : Type 0 where
  pub held : HoldsTasks k lists
  pub used : (pr u : ℕ) → pr < max_task_priorities → has u (lists pr) ≡ true → k.tcb_used u ≡ true
  pub below : (pr u : ℕ) → pr < max_task_priorities → has u (lists pr) ≡ true → u < max_tasks

-- What the search for a free slot finds from `i` on.
pub slot_cases :
    (rounds : ℕ) (k : Kernel) (i : ℕ)
    → ((free_slot rounds k i ≡ none) × ((j : ℕ) → i ≤ j → j < i + rounds → k.tcb_used j ≡ true))
      ⊎ ((t : ℕ) × (free_slot rounds k i ≡ some t)
          × (t < i + rounds)
          × (k.tcb_used t ≡ false)
          × ((j : ℕ) → i ≤ j → j < t → k.tcb_used j ≡ true))
unfolding free_slot
slot_cases zero k i = inl (refl, λ j ge lt. absurd (omega (arith, ge, lt)))
slot_cases (suc rounds) k i = elim (Bool-cases (k.tcb_used i)) [
  | inr free ↦ inr (i, rw free refl, omega arith, free, λ j ge lt. absurd (omega (arith, ge, lt)))
  | inl taken ↦ elim (slot_cases rounds k (i + 1)) [
    | inl (nothing, all) ↦ inl (
      rw (taken, nothing) refl,
      λ j ge lt. elim (eq_or_gt i j ge) [
        | inl e ↦ subst (λ m. k.tcb_used m ≡ true) e taken
        | inr more ↦ all j more (omega (arith, lt))
      ],
    )
    | inr (t, found, lt, free, lower) ↦ inr (
      t,
      rw (taken, found) refl,
      omega (arith, lt),
      free,
      λ j ge less. elim (eq_or_gt i j ge) [
        | inl e ↦ subst (λ m. k.tcb_used m ≡ true) e taken
        | inr more ↦ lower j more less
      ],
    )
  ]
]

-- Distinct numbers below `n` are at most `n`.
length-remove_member :
    (a : ℕ) (xs : List ℕ) → has a xs ≡ true → length xs ≡ suc (length (remove a xs))
length-remove_member a [] m = cc
length-remove_member a (x ∷ xs) m = elim (Bool-cases (x == a)) [
  | inl e ↦ rw e refl
  | inr e ↦
      let later : has a xs ≡ true = ground (arith, m, e) in
      rw e (ap suc (length-remove_member a xs later))
]

has_of_remove : (a t : ℕ) (ts : List ℕ) → has a (remove t ts) ≡ true → has a ts ≡ true
has_of_remove a t [] h = h
has_of_remove a t (x ∷ xs) h = ground (arith, has_of_remove a t xs)

distinct_below :
    (n : ℕ) (xs : List ℕ) → IsNodup xs → ((u : ℕ) → has u xs ≡ true → u < n) → length xs ≤ n
distinct_below zero [] d lt = omega arith
distinct_below zero (x ∷ xs) d lt = absurd (omega (arith, lt x (ground (arith, ==_refl x))))
distinct_below (suc n) xs d lt = elim (Bool-cases (has n xs)) [
  | inl m ↦ omega (
    arith,
    length-remove_member n xs m,
    distinct_below n (remove n xs) (IsNodup-remove n xs d) (λ u h.
        less u (lt u (has_of_remove u n xs h))
          (has→ne n u (remove n xs) (has-remove_self n xs d) h)),
  )
  | inr out ↦ omega (arith, distinct_below n xs d (λ u h. less u (lt u h) (has→ne n u xs out h)))
]
  where
    less : (u : ℕ) → u < suc n → u ≢ n → u < n
    less u le ne = elim (eq_or_gt u n (omega (arith, le))) [
      | inl e ↦ absurd (ne e)
      | inr l ↦ omega (arith, l)
    ]

module _ (k : Kernel) (lists : ℕ → List ℕ) (pool : IsPool k lists) (t : ℕ)
    (free : k.tcb_used t ≡ false) where
  -- A slot that is not in use is on no list, and each list has room for it.
  pub free-absent : (pr : ℕ) → pr < max_task_priorities → has t (lists pr) ≡ false
  free-absent pr lt = elim (Bool-cases (has t (lists pr))) [
    | inl m ↦ cc (pool.used pr t lt m, free)
    | inr out ↦ out
  ]

  pub free-room :
      (pr : ℕ) → pr < max_task_priorities → t < max_tasks → length (lists pr) < max_tasks
  free-room pr lt t_lt = omega (
    arith,
    distinct_below max_tasks (t ∷ lists pr) (free-absent pr lt, (pool.held.ring pr lt).nodup)
        (λ u h. elim (Bool-cases (u == t)) [
          | inl e ↦ rw ((==_iff u t).0 e) t_lt
          | inr e ↦ pool.below pr u lt (subst (λ b. (b || has u (lists pr)) ≡ true) e h)
        ]),
  )

  -- Writing the slot's control block does not touch the lists.
  pub write-HoldsTasks :
      (k' : Kernel)
      → k'.task_list ≡ k.task_list
      → k'.rr_current ≡ k.rr_current
      → ((u : ℕ) → u ≢ t → k'.tcb u ≡ k.tcb u)
      → HoldsTasks k' lists
  write-HoldsTasks k' heads cursors same = record {
    ring = λ pr lt.
        let r = pool.held.ring pr lt in
        record {
          chain =
              Chain-move (nexts k.tcb) (nexts k'.tcb) (k.task_list pr) (k'.task_list pr) (lists pr)
                (lists pr) (ap (λ f. f pr) heads) refl
                (λ a m.
                  ap (λ (c : Tcb). c.next) (same a (has→ne t a (lists pr) (free-absent pr lt) m)))
                r.chain;
          nodup = r.nodup;
          few = r.few;
          cursor = λ s e. r.cursor s (sym (ap (λ f. f pr) cursors) ∙ e);
        };
    own = λ pr u lt m.
        ap (λ (c : Tcb). c.priority) (same u (has→ne t u (lists pr) (free-absent pr lt) m))
        ∙ pool.held.own pr u lt m;
  }
