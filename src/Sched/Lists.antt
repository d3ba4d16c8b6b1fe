-- ===== src/Sched/Lists.antt =====
-- kernel/sched.c, scheduler_add_task and scheduler_remove_task: the priority lists stay in order.
use crest_rtos.Base.{
  ℕ, ◌+◌, ◌<◌, ◌≡◌, ◌≢◌, inl, inr, refl, List, [], ◌∷◌, true, false, none, some, Option, Ptr, arith,
  has, ◌==◌, update, Bool-cases, ==_iff, ==_refl, sym, subst, ap, ◌∙◌, is_null, points_to,
  if◌then◌else◌,
}
use crest_rtos.Chain.{Chain-move, remove, IsNodup-remove, length-remove}
use crest_rtos.Kernel.{max_task_priorities, max_tasks, Tcb, Kernel}
use crest_rtos.Sched.{remove_task, unlink, drop_cursor, drop_bit}
use crest_rtos.Sched.Round.{nexts}
use crest_rtos.Sched.Turn.{IsRing}
use crest_rtos.Sched.Unlink.{Unlinked, unlink_lem}

-- The priority lists are in order, and hold the tasks `lists` gives, each at its own priority.
pub record HoldsTasks (k : Kernel) (lists : ℕ → List ℕ) : Type 0 where
  pub ring : (pr : ℕ) → pr < max_task_priorities → IsRing k pr (lists pr)
  pub own :
      (pr u : ℕ) → pr < max_task_priorities → has u (lists pr) ≡ true → (k.tcb u).priority ≡ pr

has-remove_other : (a t : ℕ) (ts : List ℕ) → a ≢ t → has a ts ≡ true → has a (remove t ts) ≡ true
has-remove_other a t [] ne h = h
has-remove_other a t (x ∷ xs) ne h = ground (arith, has-remove_other a t xs)

has_of_remove : (a t : ℕ) (ts : List ℕ) → has a (remove t ts) ≡ true → has a ts ≡ true
has_of_remove a t [] h = h
has_of_remove a t (x ∷ xs) h = ground (arith, has_of_remove a t xs)

-- The state that the removal starts from: the cursor does not stand at the task.
abbrev OffCursor : Kernel → ℕ → ℕ → Kernel → Type 0
OffCursor k p t k' =
    (k'.tcb ≡ k.tcb)
    × (k'.task_list ≡ k.task_list)
    × ((j s : ℕ) → k'.rr_current j ≡ some s → (k.rr_current j ≡ some s) × (j ≡ p → s ≢ t))

cleared :
    (f : ℕ → Ptr) (p t j s : ℕ) → update f p none j ≡ some s → (f j ≡ some s) × (j ≡ p → s ≢ t)
cleared f p t j s e = elim (Bool-cases (j == p)) [
  | inl h ↦ cc (subst (λ b. (if b then none else f j) ≡ some s) h e)
  | inr h ↦ (subst (λ b. (if b then none else f j) ≡ some s) h e, λ same. ground (arith, h, same))
]

-- A cursor that does not stand at the task.
elsewhere : (f : ℕ → Ptr) (p t j s : ℕ) → points_to (f p) t ≡ false → f j ≡ some s → j ≡ p → s ≢ t
elsewhere f p t j s h e same at =
    let here : f p ≡ some t = ap f (sym same) ∙ e ∙ ap some at in
    cc (subst (λ q. points_to q t ≡ false) here h, ==_refl t)

drop_cursor-OffCursor : (k : Kernel) (t : ℕ) → OffCursor k (k.tcb t).priority t (drop_cursor k t)
drop_cursor-OffCursor k t =
    let p = (k.tcb t).priority in
    elim (Bool-cases (points_to (k.rr_current p) t)) [
      | inl h ↦ rw h (refl, refl, λ j s e. cleared k.rr_current p t j s e)
      | inr h ↦ rw h (refl, refl, λ j s e. (e, λ same. elsewhere k.rr_current p t j s h e same))
    ]

-- The lists without the task.
abbrev pub without : (ℕ → List ℕ) → ℕ → ℕ → ℕ → List ℕ
without lists p t = update lists p (remove t (lists p))

has-without :
    (lists : ℕ → List ℕ) (p t pr a : ℕ)
    → has a (without lists p t pr) ≡ true
    → has a (lists pr) ≡ true
has-without lists p t pr a m = elim (Bool-cases (pr == p)) [
  | inl e ↦
      let here = subst (λ b. has a (if b then remove t (lists p) else lists pr) ≡ true) e m in
      subst (λ j. has a (lists j) ≡ true) (sym ((==_iff pr p).0 e))
        (has_of_remove a t (lists p) here)
  | inr e ↦ subst (λ b. has a (if b then remove t (lists p) else lists pr) ≡ true) e m
]

module _ (k k' : Kernel) (lists : ℕ → List ℕ) (p t : ℕ) (p_lt : p < max_task_priorities)
    (h : HoldsTasks k lists) (u : Unlinked k p t (lists p) k')
    (cursors : (j s : ℕ)
      → k'.rr_current j ≡ some s
      → (k.rr_current j ≡ some s) × (j ≡ p → s ≢ t)) where
  changed-IsRing : IsRing k' p (remove t (lists p))
  changed-IsRing =
      let r = h.ring p p_lt in
      record {
        chain = u.chain;
        nodup = IsNodup-remove t (lists p) r.nodup;
        few = omega (arith, length-remove t (lists p), r.few);
        cursor = λ s e.
            let (e', ne) = cursors p s e in
            has-remove_other s t (lists p) (ne refl) (r.cursor s e');
      }

  -- A task of another list is not in this one.
  other_list :
      (pr a : ℕ)
      → pr < max_task_priorities
      → pr ≢ p
      → has a (lists pr) ≡ true
      → has a (lists p) ≡ false
  other_list pr a lt ne m = elim (Bool-cases (has a (lists p))) [
    | inl inside ↦ absurd (ne (sym (h.own pr a lt m) ∙ h.own p a p_lt inside))
    | inr out ↦ out
  ]

  same-IsRing : (pr : ℕ) → pr < max_task_priorities → pr ≢ p → IsRing k' pr (lists pr)
  same-IsRing pr lt ne =
      let r = h.ring pr lt in
      record {
        chain =
            Chain-move (nexts k.tcb) (nexts k'.tcb) (k.task_list pr) (k'.task_list pr) (lists pr)
              (lists pr) (u.heads pr ne) refl (λ a m. u.others a (other_list pr a lt ne m)) r.chain;
        nodup = r.nodup;
        few = r.few;
        cursor = λ s e. r.cursor s (cursors pr s e).0;
      }

  still-own : (a : ℕ) → (k'.tcb a).priority ≡ (k.tcb a).priority
  still-own a = ap (λ (c : Tcb). c.priority) (u.only a)

  unlinked-HoldsTasks : HoldsTasks k' (without lists p t)
  unlinked-HoldsTasks = record {
    ring = λ pr lt. elim (Bool-cases (pr == p)) [
      | inl e ↦
          rw e
            (subst (λ j. IsRing k' j (remove t (lists p))) (sym ((==_iff pr p).0 e)) changed-IsRing)
      | inr e ↦ rw e (same-IsRing pr lt (ground (arith, e)))
    ];
    own = λ pr a lt m. still-own a ∙ h.own pr a lt (has-without lists p t pr a m);
  }

-- Other states of the tasks change no list, as long as the cursors stand in their lists.
pub frame-HoldsTasks :
    (k k' : Kernel) (lists : ℕ → List ℕ)
    → ((u : ℕ) → nexts k'.tcb u ≡ nexts k.tcb u)
    → ((u : ℕ) → (k'.tcb u).priority ≡ (k.tcb u).priority)
    → ((pr : ℕ) → k'.task_list pr ≡ k.task_list pr)
    → ((pr s : ℕ) → pr < max_task_priorities → k'.rr_current pr ≡ some s → has s (lists pr) ≡ true)
    → HoldsTasks k lists
    → HoldsTasks k' lists
frame-HoldsTasks k k' lists links prios heads cursors h = record {
  ring = λ pr lt.
      let r = h.ring pr lt in
      record {
        chain =
            Chain-move (nexts k.tcb) (nexts k'.tcb) (k.task_list pr) (k'.task_list pr) (lists pr)
              (lists pr) (heads pr) refl (λ a m. links a) r.chain;
        nodup = r.nodup;
        few = r.few;
        cursor = λ s e. cursors pr s lt e;
      };
  own = λ pr a lt m. prios a ∙ h.own pr a lt m;
}

off-HoldsTasks :
    (k k' : Kernel) (lists : ℕ → List ℕ) (p t : ℕ)
    → OffCursor k p t k'
    → HoldsTasks k lists
    → HoldsTasks k' lists
off-HoldsTasks k k' lists p t (tcbs, heads, cursors) h =
    frame-HoldsTasks k k' lists (λ u. ap (λ f. nexts f u) tcbs)
      (λ u. ap (λ (f : ℕ → Tcb). (f u).priority) tcbs) (λ pr. ap (λ f. f pr) heads)
      (λ pr s lt e. (h.ring pr lt).cursor s (cursors pr s e).0) h

drop_bit-HoldsTasks :
    (k : Kernel) (p : ℕ) (lists : ℕ → List ℕ) → HoldsTasks k lists → HoldsTasks (drop_bit k p) lists
drop_bit-HoldsTasks k p lists h = elim (Bool-cases (is_null (k.task_list p))) [
  | inl e ↦ rw e (
      frame-HoldsTasks k _ lists (λ u. refl) (λ u. refl) (λ pr. refl)
        (λ pr s lt. (h.ring pr lt).cursor s) h)
  | inr e ↦ rw e h
]

-- The end of scheduler_remove_task.
abbrev finish : ℕ → Option Kernel → Option Kernel
finish p none = none
finish p (some k) = some (drop_bit k p)

remove_task-finish :
    (k : Kernel) (t p : ℕ) (k' : Kernel)
    → (k.tcb t).priority ≡ p
    → drop_cursor k t ≡ k'
    → remove_task k t ≡ finish p (unlink (max_tasks + 1) k' p t none (k'.task_list p))
unfolding remove_task
remove_task-finish k t p k' e e' =
    subst
      (λ (k' : Kernel).
        remove_task k t ≡ finish p (unlink (max_tasks + 1) k' p t none (k'.task_list p)))
      e'
      (subst
        (λ p.
          remove_task k t
          ≡ finish p
              (unlink (max_tasks + 1) (drop_cursor k t) p t none ((drop_cursor k t).task_list p)))
        e refl)

drop_cursor-mask : (k : Kernel) (t : ℕ) → (drop_cursor k t).priority_mask ≡ k.priority_mask
drop_cursor-mask k t = elim (Bool-cases (points_to (k.rr_current (k.tcb t).priority) t)) [
  | inl h ↦ rw h refl
  | inr h ↦ rw h refl
]

-- The state before the mask is set.
pub remove_task-drop_bit :
    (k : Kernel) (lists : ℕ → List ℕ) (t : ℕ)
    → (k.tcb t).priority < max_task_priorities
    → HoldsTasks k lists
    → (k₂ : Kernel) × (remove_task k t ≡ some (drop_bit k₂ (k.tcb t).priority))
      × HoldsTasks k₂ (without lists (k.tcb t).priority t)
      × (k₂.priority_mask ≡ k.priority_mask)
remove_task-drop_bit k lists t lt h =
    let p = (k.tcb t).priority in
    let k₁ = drop_cursor k t in
    let off = drop_cursor-OffCursor k t in
    let h₁ = off-HoldsTasks k k₁ lists p t off h in
    let r = h₁.ring p lt in
    let (k₂, e, u) =
      unlink_lem k₁ p t (max_tasks + 1) (lists p) (omega (arith, r.few)) r.nodup r.chain in
    let cursors : (j s : ℕ)
        → k₂.rr_current j ≡ some s
        → (k₁.rr_current j ≡ some s) × (j ≡ p → s ≢ t) =
      λ j s at.
        let at' = ap (λ (k : Kernel). k.rr_current j) (sym u.rest) ∙ at in
        (at', (off.2 j s at').1) in
    (
      k₂,
      remove_task-finish k t p k₁ refl refl ∙ ap (finish p) e,
      unlinked-HoldsTasks k₁ k₂ lists p t lt h₁ u cursors,
      ap (λ (k : Kernel). k.priority_mask) u.rest ∙ drop_cursor-mask k t,
    )

-- scheduler_remove_task of a task with a priority below MAX_TASK_PRIORITIES, on priority lists in
-- order: the walk ends within its rounds, the lists are in order without the task, each task at
-- its own priority, no cursor stands at a task that has left, and nothing happens to the lists if
-- the task is on none.
pub remove_task-HoldsTasks :
    (k : Kernel) (lists : ℕ → List ℕ) (t : ℕ)
    → (k.tcb t).priority < max_task_priorities
    → HoldsTasks k lists
    → (k' : Kernel) × (remove_task k t ≡ some k')
      × HoldsTasks k' (without lists (k.tcb t).priority t)
remove_task-HoldsTasks k lists t lt h =
    let (k₂, e, held, _) = remove_task-drop_bit k lists t lt h in
    let p = (k.tcb t).priority in
    (drop_bit k₂ p, e, drop_bit-HoldsTasks k₂ p (without lists p t) held)
