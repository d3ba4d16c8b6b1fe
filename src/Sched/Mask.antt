-- ===== src/Sched/Mask.antt =====
-- kernel/sched.c, g_priority_mask and scheduler_get_first_ready_priority: the mask has a bit for
-- each priority list that is not empty.
use Prim.Native.Nat.{bit_and, bit_or}
use crest_rtos.Base.{
  ℕ, ◌-◌, ◌^◌, ◌<◌, ◌≤◌, ◌≡◌, refl, Bool, true, false, not, ◌==◌, List, [], ◌∷◌, arith,
  if◌then◌else◌, ==_iff, ==_refl, Bool-cases, inl, inr, ap, ◌∙◌, sym, subst, is_null, some, Ptr,
}
use crest_rtos.Chain.{Chain, remove}
use crest_rtos.Kernel.{Kernel, max_task_priorities}
use crest_rtos.Sched.{
  ctz_from, init, sleep, wake_task, add_task, get_next, set_current, get_first_ready_priority,
  drop_bit,
}
use crest_rtos.Sched.Bits.{bit_at, bit_at-set, bit_at-clear, ctz-lt, bit_at-ctz, ctz_lowest}
use crest_rtos.Sched.Round.{nexts}
use crest_rtos.Sched.Next.{select, get_next_lem}
use crest_rtos.Sched.Lists.{HoldsTasks, without, remove_task-drop_bit}
use crest_rtos.Sched.Add.{with_task}
use crest_rtos.Sched.Reach.{
  Reach, started, added, removed, chosen, slept, woken, switched, Reach-HoldsTasks,
}

abbrev pub is_empty : List ℕ → Bool
is_empty [] = true
is_empty (x ∷ xs) = false

-- The mask is a byte whose bits are those of the lists that are not empty.
pub record Masks (mask : ℕ) (lists : ℕ → List ℕ) : Type 0 where
  pub byte : mask < 256
  pub bits : (i : ℕ) → i < 8 → bit_at mask i ≡ not (is_empty (lists i))

Masks-added :
    (m : ℕ) (lists : ℕ → List ℕ) (p t : ℕ)
    → p < 8
    → Masks m lists
    → Masks (bit_or m (2 ^ p)) (with_task lists p t)
Masks-added m lists p t p_lt h = record {
  byte = (bit_at-set m p p h.byte p_lt p_lt).1;
  bits = λ i lt.
      (bit_at-set m p i h.byte p_lt lt).0
      ∙ elim (Bool-cases (i == p)) [ inl e ↦ rw e refl | inr e ↦ rw e (h.bits i lt) ];
}

empty_of_remove : (t : ℕ) (xs : List ℕ) → is_empty (remove t xs) ≡ false → is_empty xs ≡ false
empty_of_remove t [] h = h
empty_of_remove t (x ∷ xs) h = refl

-- The list of `p` has lost a task: the bit goes with the last one.
Masks-without :
    (m : ℕ) (lists : ℕ → List ℕ) (p t : ℕ)
    → p < 8
    → Masks m lists
    → Masks
        (if is_empty (remove t (lists p)) then bit_and m (255 - 2 ^ p) else m)
        (without lists p t)
Masks-without m lists p t p_lt h = elim (Bool-cases (is_empty (remove t (lists p)))) [
  | inl e ↦ rw e (record {
    byte = (bit_at-clear m p p h.byte p_lt p_lt).1;
    bits = λ i lt.
        (bit_at-clear m p i h.byte p_lt lt).0
        ∙ elim (Bool-cases (i == p)) [ inl at ↦ rw (at, e) refl | inr off ↦ rw off (h.bits i lt) ];
  })
  | inr e ↦ rw e (record {
    byte = h.byte;
    bits = λ i lt. h.bits i lt ∙ elim (Bool-cases (i == p)) [
      | inl at ↦
          rw (at, e)
            (ap not
              (ap (λ j. is_empty (lists j)) ((==_iff i p).0 at) ∙ empty_of_remove t (lists p) e))
      | inr off ↦ rw off refl
    ];
  })
]

-- A list is empty exactly if its head is NULL.
is_null-Chain : (link : ℕ → Ptr) (p : Ptr) (ts : List ℕ) → Chain link p ts → is_null p ≡ is_empty ts
is_null-Chain link p [] c = ap is_null c
is_null-Chain link p (x ∷ xs) c = ap is_null c.0

drop_bit-mask :
    (k : Kernel) (p : ℕ) (b : Bool)
    → is_null (k.task_list p) ≡ b
    → (drop_bit k p).priority_mask
      ≡ (if b then bit_and k.priority_mask (255 - 2 ^ p) else k.priority_mask)
drop_bit-mask k p true e = rw e refl
drop_bit-mask k p false e = rw e refl

without_self : (lists : ℕ → List ℕ) (p t : ℕ) → without lists p t p ≡ remove t (lists p)
without_self lists p t = rw (==_refl p) refl

Masks-drop_bit :
    (k : Kernel) (m : ℕ) (lists : ℕ → List ℕ) (p t : ℕ)
    → p < 8
    → k.priority_mask ≡ m
    → is_null (k.task_list p) ≡ is_empty (remove t (lists p))
    → Masks m lists
    → Masks (drop_bit k p).priority_mask (without lists p t)
Masks-drop_bit k m lists p t p_lt kept last h =
    subst (λ m. Masks m (without lists p t))
      (sym (drop_bit-mask k p (is_empty (remove t (lists p))) last))
      (Masks-without k.priority_mask lists p t p_lt (subst (λ m. Masks m lists) (sym kept) h))

wake_task-mask :
    (k : Kernel) (t result : ℕ) → (wake_task k t result).priority_mask ≡ k.priority_mask
unfolding wake_task
wake_task-mask k t result = elim (Bool-cases (k.tcb t).svc_blocked) [
  | inl b ↦ rw b refl
  | inr b ↦ rw b refl
]

get_next-mask :
    (k k' : Kernel) (lists : ℕ → List ℕ) (next : Ptr)
    → HoldsTasks k lists
    → get_next k ≡ some (k', next)
    → k.priority_mask ≡ k'.priority_mask
get_next-mask k k' lists next h e = elim (get_next_lem k lists h.ring) [
  | inl (pr, t, found, _) ↦
      let same : select k pr t ≡ k' = cc (found, e) in ap (λ (k : Kernel). k.priority_mask) same
  | inr (nothing, _) ↦
      let same : k ≡ k' = cc (nothing, e) in ap (λ (k : Kernel). k.priority_mask) same
]

Reach-Masks : (k : Kernel) (lists : ℕ → List ℕ) → Reach k lists → Masks k.priority_mask lists
unfolding init set_current add_task sleep
Reach-Masks _ _ (started k) = record { byte = omega arith; bits = λ i lt. ground arith }
Reach-Masks _ _ (added k lists t r p_lt new room) =
    Masks-added k.priority_mask lists (k.tcb t).priority t p_lt (Reach-Masks k lists r)
Reach-Masks _ _ (removed k k' lists t r p_lt e) =
    let p = (k.tcb t).priority in
    let (k₂, e', held, kept) = remove_task-drop_bit k lists t p_lt (Reach-HoldsTasks k lists r) in
    let last =
      is_null-Chain (nexts k₂.tcb) (k₂.task_list p) (without lists p t p)
        (held.ring p p_lt).chain in
    let same : drop_bit k₂ p ≡ k' = cc (e', e) in
    subst (λ s. Masks s.priority_mask (without lists p t)) same
      (Masks-drop_bit k₂ k.priority_mask lists p t p_lt kept
        (last ∙ ap is_empty (without_self lists p t)) (Reach-Masks k lists r))
Reach-Masks _ _ (chosen k k' lists next r e) =
    subst (λ m. Masks m lists) (get_next-mask k k' lists next (Reach-HoldsTasks k lists r) e)
      (Reach-Masks k lists r)
Reach-Masks _ _ (slept k lists t ticks r) = Reach-Masks k lists r
Reach-Masks _ _ (woken k lists t result r) =
    subst (λ m. Masks m lists) (sym (wake_task-mask k t result)) (Reach-Masks k lists r)
Reach-Masks _ _ (switched k lists p r) = Reach-Masks k lists r

-- The highest priority with a task: the first list that is not empty, or 8.
pub record IsFirst (lists : ℕ → List ℕ) (p : ℕ) : Type 0 where
  pub upper : p ≤ max_task_priorities
  pub full : p < max_task_priorities → is_empty (lists p) ≡ false
  pub earlier : (i : ℕ) → i < p → lists i ≡ []

empty_lem : (xs : List ℕ) → not (is_empty xs) ≡ false → xs ≡ []
empty_lem [] h = refl
empty_lem (x ∷ xs) h = cc

no_bit : (i : ℕ) → i < 8 → bit_at 0 i ≡ false
no_bit i lt = ground arith

-- The answer for a mask with a bit.
first_priority-some :
    (k : Kernel)
    → (k.priority_mask == 0) ≡ false
    → ctz_from 8 0 k.priority_mask ≡ get_first_ready_priority k
unfolding get_first_ready_priority
first_priority-some k n = rw n refl

first_priority-none : (k : Kernel) → (k.priority_mask == 0) ≡ true → 8 ≡ get_first_ready_priority k
unfolding get_first_ready_priority
first_priority-none k n = rw n refl

full_of_bit : (b : Bool) → true ≡ not b → b ≡ false
full_of_bit true h = cc
full_of_bit false h = refl

IsFirst-Masks :
    (k : Kernel) (lists : ℕ → List ℕ)
    → Masks k.priority_mask lists
    → IsFirst lists (get_first_ready_priority k)
IsFirst-Masks k lists h = elim (Bool-cases (k.priority_mask == 0)) [
  | inl z ↦
      let zero_mask = (==_iff k.priority_mask 0).0 z in
      subst (IsFirst lists) (first_priority-none k z) (record {
        upper = omega arith;
        full = λ lt. absurd (omega arith);
        earlier = λ i lt.
            empty_lem (lists i) (sym (h.bits i lt) ∙ ap (λ m. bit_at m i) zero_mask ∙ no_bit i lt);
      })
  | inr n ↦
      let m = k.priority_mask in
      let c = ctz_from 8 0 m in
      let c_lt = ctz-lt m h.byte n in
      subst (IsFirst lists) (first_priority-some k n) (record {
        upper = omega (arith, c_lt);
        full = λ lt. full_of_bit (is_empty (lists c)) (sym (bit_at-ctz m h.byte n) ∙ h.bits c c_lt);
        earlier = λ i lt.
            empty_lem (lists i)
              (sym (h.bits i (omega (arith, lt, c_lt))) ∙ ctz_lowest m h.byte n i lt);
      })
]

-- In every state that the scheduler's functions reach from scheduler_init, the priority mask is a
-- byte with exactly the bits of the priorities that hold a task, READY or not, and
-- scheduler_get_first_ready_priority returns the highest of these priorities, 8 without a task.
pub first_ready_priority_lem :
    (k : Kernel) (lists : ℕ → List ℕ)
    → Reach k lists
    → Masks k.priority_mask lists × IsFirst lists (get_first_ready_priority k)
first_ready_priority_lem k lists r = let h = Reach-Masks k lists r in (h, IsFirst-Masks k lists h)
