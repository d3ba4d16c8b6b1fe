-- ===== src/Sched/Fair.antt =====
-- kernel/sched.c: round robin among the tasks of one priority.
use crest_rtos.Base.{
  ℕ, ◌<◌, ==_refl, ◌≡◌, ◌≢◌, refl, List, [], ◌∷◌, ◌++◌, true, false, some, arith, has, has-append,
  IsNodup, or_else, ap, ◌∙◌, subst, sym,
}
use mathlib.Core.List.{append_assoc}
use crest_rtos.Chain.{Chain}
use crest_rtos.Kernel.{max_task_priorities, Kernel, Tcb, is_ready}
use crest_rtos.Sched.Lists.{HoldsTasks}
use crest_rtos.Sched.Next.{select, chosen_lem}
use crest_rtos.Sched.{next_round, get_next}
use crest_rtos.Sched.Round.{nexts, first_ready, step-next, step-end}
use crest_rtos.Sched.Turn.{
  IsRing, turn, before, after, split_at, turn-head, Chain-behind, has-before, has-after,
}

after-append : (x : ℕ) (pre post : List ℕ) → has x pre ≡ false → after x (pre ++ (x ∷ post)) ≡ post
after-append x [] post out = ground arith
after-append x (y ∷ ys) post out = ground (arith, after-append x ys post)

before-append : (x : ℕ) (pre post : List ℕ) → has x pre ≡ false → before x (pre ++ (x ∷ post)) ≡ pre
before-append x [] post out = ground arith
before-append x (y ∷ ys) post out = ground (arith, before-append x ys post)

IsNodup-apart : (x : ℕ) (pre post : List ℕ) → IsNodup (pre ++ (x ∷ post)) → has x pre ≡ false
IsNodup-apart x [] post n = refl
IsNodup-apart x (y ∷ ys) post n =
    ground (arith, IsNodup-apart x ys post n.1, has-append y ys (x ∷ post))

-- A turn from inside a list.
turn-append :
    (x : ℕ) (pre post : List ℕ)
    → has x pre ≡ false
    → turn (some x) (pre ++ (x ∷ post)) ≡ x ∷ (post ++ pre)
turn-append x pre post out = rw (after-append x pre post out, before-append x pre post out) refl

module _ (tcb : ℕ → Tcb) (list t : ℕ) where
  -- The turn from the task behind `t` ends with `t`.
  turn-parts :
      (pre post : List ℕ)
      → Chain (nexts tcb) (some list) (pre ++ (t ∷ post))
      → IsNodup (pre ++ (t ∷ post))
      → turn (some (next_round tcb list t)) (pre ++ (t ∷ post)) ≡ (post ++ pre) ++ (t ∷ [])
  turn-parts [] [] c n =
      let e : list ≡ t = ground (arith, c.0) in
      subst (λ s. turn (some s) (t ∷ []) ≡ t ∷ []) (sym (step-end tcb list t c.1 ∙ e))
        (turn-head t [])
  turn-parts (y ∷ ys) [] c n =
      let e : list ≡ y = ground (arith, c.0) in
      let stop = Chain-behind (nexts tcb) (some list) (y ∷ ys) t [] c in
      subst (λ s. turn (some s) (y ∷ ys ++ (t ∷ [])) ≡ y ∷ ys ++ (t ∷ []))
        (sym (step-end tcb list t stop ∙ e)) (turn-head y (ys ++ (t ∷ [])))
  turn-parts pre (x ∷ post) c n =
      let on = Chain-behind (nexts tcb) (some list) pre t (x ∷ post) c in
      let regroup : pre ++ (t ∷ x ∷ post) ≡ (pre ++ (t ∷ [])) ++ (x ∷ post) =
        sym (append_assoc pre (t ∷ []) (x ∷ post)) in
      let out = IsNodup-apart x (pre ++ (t ∷ [])) post (subst IsNodup regroup n) in
      subst (λ s. turn (some s) (pre ++ (t ∷ x ∷ post)) ≡ x ∷ (post ++ pre) ++ (t ∷ []))
        (sym (step-next tcb list t x on.0))
        (ap (turn (some x)) regroup
          ∙ turn-append x (pre ++ (t ∷ [])) post out
          ∙ ap (λ r. x ∷ r) (sym (append_assoc post pre (t ∷ []))))

first_ready-last :
    (tcb : ℕ → Tcb) (xs : List ℕ) (t u : ℕ)
    → first_ready tcb (xs ++ (t ∷ [])) ≡ some t
    → has t xs ≡ false
    → has u xs ≡ true
    → is_ready (tcb u).state ≡ false
first_ready-last tcb [] t u e out h = cc
first_ready-last tcb (x ∷ xs) t u e out h =
    ground (arith, first_ready-last tcb xs t u, ap (λ v. is_ready (tcb v).state) {x = x} {y = u})

has-rest :
    (u t : ℕ) (ts : List ℕ)
    → has t ts ≡ true
    → u ≢ t
    → has u ts ≡ true
    → has u (after t ts ++ before t ts) ≡ true
has-rest u t ts m ne h = ground (
  arith,
  ap (has u) (split_at t ts m),
  has-append u (before t ts) (t ∷ after t ts),
  has-append u (after t ts) (before t ts),
)

-- With the cursor where the choice of `t` has put it, the search comes to `t` last.
robin_core :
    (k k' : Kernel) (pr list t u : ℕ) (ts : List ℕ)
    → IsRing k pr ts
    → k.task_list pr ≡ some list
    → has t ts ≡ true
    → k'.rr_current pr ≡ some (next_round k.tcb list t)
    → first_ready k'.tcb (turn (k'.rr_current pr) ts) ≡ some t
    → has u ts ≡ true
    → u ≢ t
    → is_ready (k'.tcb u).state ≡ false
robin_core k k' pr list t u ts r e m cur found h ne =
    let split = split_at t ts m in
    let order : turn (k'.rr_current pr) ts ≡ (after t ts ++ before t ts) ++ (t ∷ []) =
      ap (λ c. turn c ts) cur
      ∙ ap (turn (some (next_round k.tcb list t))) (sym split)
      ∙ turn-parts k.tcb list t (before t ts) (after t ts)
          (subst (Chain (nexts k.tcb) (some list)) (sym split)
            (subst (λ p. Chain (nexts k.tcb) p ts) e r.chain))
          (subst IsNodup (sym split) r.nodup) in
    first_ready-last k'.tcb (after t ts ++ before t ts) t u
      (ap (first_ready k'.tcb) (sym order) ∙ found)
      (has-append t (after t ts) (before t ts)
        ∙ ground (arith, has-after t ts r.nodup, has-before t ts))
      (has-rest u t ts m ne h)

list-head :
    (k : Kernel) (pr t : ℕ) (ts : List ℕ)
    → IsRing k pr ts
    → has t ts ≡ true
    → k.task_list pr ≡ some (or_else (k.task_list pr) 0)
list-head k pr t [] r m = cc
list-head k pr t (x ∷ ts) r m = r.chain.0 ∙ ap some (ap (λ p. or_else p 0) (sym r.chain.0))

-- Round robin. `k` and `k'` are states whose priority lists hold the same tasks in the same order.
-- If scheduler_get_next returns the task `t` of priority `pr` in `k`, the cursor of that priority
-- stays where this has put it until `k'`, and scheduler_get_next in `k'` returns `t` again, then no
-- other task of the priority is READY in `k'`.
pub round_robin :
    (k k₁ k' k₂ : Kernel) (ls : ℕ → List ℕ) (pr t u : ℕ)
    → HoldsTasks k ls
    → HoldsTasks k' ls
    → pr < max_task_priorities
    → has t (ls pr) ≡ true
    → get_next k ≡ some (k₁, some t)
    → k'.rr_current pr ≡ k₁.rr_current pr
    → get_next k' ≡ some (k₂, some t)
    → has u (ls pr) ≡ true
    → u ≢ t
    → is_ready (k'.tcb u).state ≡ false
round_robin k k₁ k' k₂ ls pr t u h h' lt m first kept again other ne =
    let (i, i_lt, _, in_i, moved) = chosen_lem k k₁ ls t h.ring first in
    let (j, j_lt, found, in_j, _) = chosen_lem k' k₂ ls t h'.ring again in
    let at_i : i ≡ pr = sym (h.own i t i_lt in_i) ∙ h.own pr t lt m in
    let at_j : j ≡ pr = sym (h'.own j t j_lt in_j) ∙ h'.own pr t lt m in
    let list = or_else (k.task_list pr) 0 in
    let cursor : (select k pr t).rr_current pr ≡ some (next_round k.tcb list t) =
      rw (==_refl pr) refl in
    robin_core k k' pr list t u (ls pr) (h.ring pr lt) (list-head k pr t (ls pr) (h.ring pr lt) m) m
      (kept ∙ ap (λ (s : Kernel). s.rr_current pr) (moved ∙ ap (λ p. select k p t) at_i) ∙ cursor)
      (subst (λ p. first_ready k'.tcb (turn (k'.rr_current p) (ls p)) ≡ some t) at_j found) other ne
