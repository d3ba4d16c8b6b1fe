-- ===== src/Tick/Ages.antt =====
-- kernel/sched.c, scheduler_tick: the walk over the priority lists, seen on lists of tasks.
use crest_rtos.Base.{
  ℕ, zero, suc, ◌+◌, ◌≤◌, ◌<◌, ◌≡◌, ◌≢◌, ◌∙◌, refl, sym, ap, subst, fun_ext, inl, inr, true, false,
  arith, Option, some, List, [], ◌∷◌, has, length, ◌==◌, ==_refl, eq_or_gt, if◌then◌else◌, update,
  Ptr, IsNodup, Bool-cases,
}
use crest_rtos.Chain.{Chain, Chain-frame}
use crest_rtos.Kernel.{max_tasks, Tcb, Kernel, set_tcb}
use crest_rtos.Sched.Round.{nexts}
use crest_rtos.Tick.{walk, walk_lists, age, age_task}

-- The control blocks after the tasks of a list have aged.
abbrev pub aged : List ℕ → (ℕ → Tcb) → ℕ → Tcb
aged ts f t = if has t ts then age (f t) else f t

age-next : (c : Tcb) → (age c).next ≡ c.next
unfolding age
age-next c = ground arith

age-blocking : (c : Tcb) → (age c).blocking_wait_list ≡ c.blocking_wait_list
unfolding age
age-blocking c = ground arith

next-aged : (ts : List ℕ) (f : ℕ → Tcb) (t : ℕ) → (aged ts f t).next ≡ (f t).next
next-aged ts f t = ground (arith, age-next (f t))

pub blocking-aged :
    (ts : List ℕ) (f : ℕ → Tcb) (t : ℕ)
    → (aged ts f t).blocking_wait_list ≡ (f t).blocking_wait_list
blocking-aged ts f t = ground (arith, age-blocking (f t))

aged-cons :
    (t : ℕ) (ts : List ℕ) (f : ℕ → Tcb)
    → has t ts ≡ false
    → aged ts (update f t (age (f t))) ≡ aged (t ∷ ts) f
aged-cons t ts f out = fun_ext (λ u. one u)
  where
    one : (u : ℕ) → aged ts (update f t (age (f t))) u ≡ aged (t ∷ ts) f u
    one u = elim (Bool-cases (t == u)) [
      | inl e ↦ ground (arith, e, out)
      | inr ne ↦ ground (arith, ne)
    ]

-- One list: each task ages, and nothing else changes.
walk-age :
    (fuel : ℕ) (k : Kernel) (p : Ptr) (ts : List ℕ)
    → length ts < fuel
    → IsNodup ts
    → Chain (nexts k.tcb) p ts
    → walk fuel age_task p k ≡ some (record k { tcb = aged ts k.tcb })
unfolding walk age_task
walk-age zero k p ts lt n c = ground (arith, lt)
walk-age (suc fuel) k p [] lt n c = rw c refl
walk-age (suc fuel) k p (t ∷ ts) lt n c =
    let k' = set_tcb k t (age (k.tcb t)) in
    let rest =
      Chain-frame (nexts k.tcb) (nexts k'.tcb) (k.tcb t).next ts
        (λ u m. ground (arith, age-next (k.tcb t))) c.1 in
    let here : (k'.tcb t).next ≡ (k.tcb t).next = ground (arith, age-next (k.tcb t)) in
    rw (c.0, here)
      (walk-age fuel k' (k.tcb t).next ts (omega (arith, lt)) n.1 rest
        ∙ ap (λ f. some (record k { tcb = f })) (aged-cons t ts k.tcb n.0))

walk-step :
    (fuel : ℕ) (body : ℕ → Kernel → Option Kernel) (t : ℕ) (k : Kernel)
    → body t k ≡ some k
    → walk (suc fuel) body (some t) k ≡ walk fuel body (k.tcb t).next k
unfolding walk
walk-step fuel body t k e = rw (e, walk) refl

-- A list on which the body changes nothing.
walk_self :
    (fuel : ℕ) (body : ℕ → Kernel → Option Kernel) (k : Kernel) (p : Ptr) (ts : List ℕ)
    → length ts < fuel
    → Chain (nexts k.tcb) p ts
    → ((t : ℕ) → has t ts ≡ true → body t k ≡ some k)
    → walk fuel body p k ≡ some k
unfolding walk
walk_self zero body k p ts lt c same = ground (arith, lt)
walk_self (suc fuel) body k p [] lt c same = rw c refl
walk_self (suc fuel) body k p (t ∷ ts) lt c same = rw c.0 (
    walk-step fuel body t k (same t (rw (==_refl t) refl))
    ∙ walk_self fuel body k (k.tcb t).next ts (omega (arith, lt)) c.1
        (λ u m. same u (ground (arith, m))))

-- The control blocks after the tasks of the lists from `pr` on have aged.
unfoldable pub aged_lists : ℕ → (ℕ → List ℕ) → ℕ → (ℕ → Tcb) → ℕ → Tcb
aged_lists zero lists pr f = f
aged_lists (suc rounds) lists pr f = aged_lists rounds lists (pr + 1) (aged (lists pr) f)

pub Chain-aged :
    (ts us : List ℕ) (f : ℕ → Tcb) (p : Ptr) → Chain (nexts f) p us → Chain (nexts (aged ts f)) p us
Chain-aged ts us f p c = Chain-frame (nexts f) (nexts (aged ts f)) p us (λ u m. next-aged ts f u) c

-- A priority list that the links of the store run through, and of at most MAX_TASKS tasks.
abbrev pub IsListed : (ℕ → Ptr) → (ℕ → Tcb) → ℕ → List ℕ → Type 0
IsListed heads f pr ts = Chain (nexts f) (heads pr) ts × IsNodup ts × (length ts ≤ max_tasks)

walk_lists-step :
    (rounds : ℕ) (body : ℕ → Kernel → Option Kernel) (pr : ℕ) (k k' : Kernel)
    → walk (max_tasks + 1) body (k.task_list pr) k ≡ some k'
    → walk_lists (suc rounds) body pr k ≡ walk_lists rounds body (pr + 1) k'
unfolding walk_lists
walk_lists-step rounds body pr k k' e = rw (e, walk_lists) refl

pub walk_lists-age :
    (rounds : ℕ) (k : Kernel) (lists : ℕ → List ℕ) (pr : ℕ)
    → ((i : ℕ) → pr ≤ i → i < pr + rounds → IsListed k.task_list k.tcb i (lists i))
    → walk_lists rounds age_task pr k ≡ some (record k { tcb = aged_lists rounds lists pr k.tcb })
unfolding walk_lists aged_lists
walk_lists-age zero k lists pr all = refl
walk_lists-age (suc rounds) k lists pr all =
    let (c, n, few) = all pr (omega arith) (omega arith) in
    let k' = record k { tcb = aged (lists pr) k.tcb } in
    walk_lists-step rounds age_task pr k k'
      (walk-age (max_tasks + 1) k (k.task_list pr) (lists pr) (omega (arith, few)) n c)
    ∙ walk_lists-age rounds k' lists (pr + 1) (λ i ge lt.
      let (c', n', few') = all i (omega (arith, ge)) (omega (arith, lt)) in
      (Chain-aged (lists pr) (lists i) k.tcb (k.task_list i) c', n', few'))

pub walk_lists_self :
    (rounds : ℕ) (body : ℕ → Kernel → Option Kernel) (k : Kernel) (lists : ℕ → List ℕ) (pr : ℕ)
    → ((i : ℕ) → pr ≤ i → i < pr + rounds → IsListed k.task_list k.tcb i (lists i))
    → ((i t : ℕ) → pr ≤ i → i < pr + rounds → has t (lists i) ≡ true → body t k ≡ some k)
    → walk_lists rounds body pr k ≡ some k
unfolding walk_lists
walk_lists_self zero body k lists pr all same = refl
walk_lists_self (suc rounds) body k lists pr all same =
    let (c, n, few) = all pr (omega arith) (omega arith) in
    walk_lists-step rounds body pr k k (
      walk_self (max_tasks + 1) body k (k.task_list pr) (lists pr) (omega (arith, few)) c
        (λ t m. same pr t (omega arith) (omega arith) m))
    ∙ walk_lists_self rounds body k lists (pr + 1)
        (λ i ge lt. all i (omega (arith, ge)) (omega (arith, lt)))
        (λ i t ge lt m. same i t (omega (arith, ge)) (omega (arith, lt)) m)

-- Tasks that stand on no list, and tasks that stand on one list only.
pub aged_lists-out :
    (rounds : ℕ) (lists : ℕ → List ℕ) (pr : ℕ) (f : ℕ → Tcb) (t : ℕ)
    → ((i : ℕ) → pr ≤ i → i < pr + rounds → has t (lists i) ≡ false)
    → aged_lists rounds lists pr f t ≡ f t
unfolding aged_lists
aged_lists-out zero lists pr f t out = refl
aged_lists-out (suc rounds) lists pr f t out =
    aged_lists-out rounds lists (pr + 1) (aged (lists pr) f) t
      (λ i ge lt. out i (omega (arith, ge)) (omega (arith, lt)))
    ∙ rw (out pr (omega arith) (omega arith)) refl

pub aged_lists-in :
    (rounds : ℕ) (lists : ℕ → List ℕ) (pr : ℕ) (f : ℕ → Tcb) (t j : ℕ)
    → pr ≤ j
    → j < pr + rounds
    → has t (lists j) ≡ true
    → ((i : ℕ) → pr ≤ i → i < pr + rounds → i ≢ j → has t (lists i) ≡ false)
    → aged_lists rounds lists pr f t ≡ age (f t)
unfolding aged_lists
aged_lists-in zero lists pr f t j ge lt inside out = ground arith
aged_lists-in (suc rounds) lists pr f t j ge lt inside out = elim (eq_or_gt pr j ge) [
  | inl e ↦
      aged_lists-out rounds lists (pr + 1) (aged (lists pr) f) t
        (λ i ge' lt'. out i (omega (arith, ge')) (omega (arith, lt')) (omega (arith, ge', e)))
      ∙ rw (subst (λ i. has t (lists i) ≡ true) (sym e) inside) refl
  | inr more ↦
      aged_lists-in rounds lists (pr + 1) (aged (lists pr) f) t j more (omega (arith, lt)) inside
        (λ i ge' lt' ne. out i (omega (arith, ge')) (omega (arith, lt')) ne)
      ∙ ap age (rw (out pr (omega arith) (omega arith) (omega (arith, more))) refl)
]
