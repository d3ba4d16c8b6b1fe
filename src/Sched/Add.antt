-- ===== src/Sched/Add.antt =====
-- kernel/sched.c, scheduler_add_task: the priority lists stay in order.
use crest_rtos.Base.{
  ◌||◌, ℕ, ◌<◌, ◌≡◌, ◌≢◌, inl, inr, refl, List, ◌∷◌, true, false, arith, has, length, ◌==◌, update,
  Bool-cases, ==_iff, sym, subst, ap, ◌∙◌, if◌then◌else◌,
}
use crest_rtos.Chain.{Chain-move, has→ne}
use crest_rtos.Kernel.{max_task_priorities, max_tasks, Kernel}
use crest_rtos.Sched.{add_task}
use crest_rtos.Sched.Round.{nexts}
use crest_rtos.Sched.Turn.{IsRing}
use crest_rtos.Sched.Lists.{HoldsTasks}

-- The lists with the task at the front of list `p`.
abbrev pub with_task : (ℕ → List ℕ) → ℕ → ℕ → ℕ → List ℕ
with_task lists p t = update lists p (t ∷ lists p)

module _ (k : Kernel) (lists : ℕ → List ℕ) (t : ℕ) (p_lt : (k.tcb t).priority < max_task_priorities)
    (new : (pr : ℕ) → pr < max_task_priorities → has t (lists pr) ≡ false)
    (room : length (lists (k.tcb t).priority) < max_tasks) (h : HoldsTasks k lists) where
  front-IsRing : IsRing (add_task k t) (k.tcb t).priority (t ∷ lists (k.tcb t).priority)
  unfolding add_task
  front-IsRing =
      let p = (k.tcb t).priority in
      let r = h.ring p p_lt in
      record {
        chain = (
          ground arith,
          Chain-move (nexts k.tcb) (nexts (add_task k t).tcb) (k.task_list p)
              (nexts (add_task k t).tcb t) (lists p) (lists p) (ground arith) refl
              (λ a m. ground (arith, has→ne t a (lists p) (new p p_lt) m)) r.chain,
        );
        nodup = (new p p_lt, r.nodup);
        few = omega (arith, room);
        cursor = λ s e. ground (arith, r.cursor s e);
      }

  other-IsRing :
      (pr : ℕ)
      → pr < max_task_priorities
      → pr ≢ (k.tcb t).priority
      → IsRing (add_task k t) pr (lists pr)
  unfolding add_task
  other-IsRing pr lt ne =
      let r = h.ring pr lt in
      record {
        chain =
            Chain-move (nexts k.tcb) (nexts (add_task k t).tcb) (k.task_list pr)
              ((add_task k t).task_list pr) (lists pr) (lists pr) (ground arith) refl
              (λ a m. ground (arith, has→ne t a (lists pr) (new pr lt) m)) r.chain;
        nodup = r.nodup;
        few = r.few;
        cursor = r.cursor;
      }

  same_priority : (a : ℕ) → ((add_task k t).tcb a).priority ≡ (k.tcb a).priority
  unfolding add_task
  same_priority a = ground arith

  own_list :
      (pr a : ℕ)
      → pr < max_task_priorities
      → has a (with_task lists (k.tcb t).priority t pr) ≡ true
      → (k.tcb a).priority ≡ pr
  own_list pr a lt m =
      let p = (k.tcb t).priority in
      elim (Bool-cases (pr == p)) [
        | inl e ↦
            let same : pr ≡ p = (==_iff pr p).0 e in
            let here = subst (λ b. has a (if b then t ∷ lists p else lists pr) ≡ true) e m in
            elim (Bool-cases (a == t)) [
              | inl at ↦ ap (λ u. (k.tcb u).priority) ((==_iff a t).0 at) ∙ sym same
              | inr off ↦
                  h.own p a p_lt (subst (λ b. (b || has a (lists p)) ≡ true) off here) ∙ sym same
            ]
        | inr e ↦
            h.own pr a lt (subst (λ b. has a (if b then t ∷ lists p else lists pr) ≡ true) e m)
      ]

  -- scheduler_add_task of a task that is on no list, at a priority below MAX_TASK_PRIORITIES and
  -- with room in the pool: the lists are in order with the task at the front of its list, each task
  -- at its own priority.
  pub add_task-HoldsTasks : HoldsTasks (add_task k t) (with_task lists (k.tcb t).priority t)
  add_task-HoldsTasks =
      let p = (k.tcb t).priority in
      record {
        ring = λ pr lt. elim (Bool-cases (pr == p)) [
          | inl e ↦ rw e (
              subst (λ j. IsRing (add_task k t) j (t ∷ lists p)) (sym ((==_iff pr p).0 e))
                front-IsRing)
          | inr e ↦ rw e (other-IsRing pr lt (ground (arith, e)))
        ];
        own = λ pr a lt m. same_priority a ∙ own_list pr a lt m;
      }
