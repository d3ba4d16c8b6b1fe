-- ===== src/Sync/Wake.antt =====
-- What it means for a waiting task to be released and woken, as every give, unlock, push and pop does.
use crest_rtos.Base.{ℕ, ◌≡◌, ◌≢◌, true, false, none, arith, ap, subst, ◌∙◌, List, [], ◌∷◌}
use crest_rtos.Kernel.{Kernel, Tcb, WaitRef, ready}
use crest_rtos.Sched.{wake_task, saved_r0}
use crest_rtos.Sync.{release_front}
use crest_rtos.Sync.Waits.{tcb-release_front}

-- The task is READY and waits on no list and with no timeout; its system call, if it was in one,
-- returns `v`; every other task's control block is as it was.
pub record Woken (k k' : Kernel) (w v : ℕ) : Type 0 where
  pub state : (k'.tcb w).state ≡ ready
  pub unblocked : (k'.tcb w).svc_blocked ≡ false
  pub unlisted : (k'.tcb w).blocking_wait_list ≡ none
  pub stopped : (k'.tcb w).delay_ticks ≡ 0
  pub result : (k.tcb w).svc_blocked ≡ true → k'.word (saved_r0 (k.tcb w)) ≡ v
  pub others : (u : ℕ) → u ≢ w → k'.tcb u ≡ k.tcb u

-- The first task of the list is woken with 0; no control block changes, where there is none.
abbrev pub WakesFirst : Kernel → Kernel → List ℕ → Type 0
WakesFirst k k' [] = k'.tcb ≡ k.tcb
WakesFirst k k' (w ∷ ws) = Woken k k' w 0

-- The control block that a release leaves.
abbrev pub released_tcb : Tcb → Tcb
released_tcb c = record c { wait_next = none; delay_ticks = 0; blocking_wait_list = none }

module _ (k : Kernel) (t v : ℕ) where
  pub wake_self : (wake_task k t v).tcb t ≡ record (k.tcb t) { svc_blocked = false; state = ready }
  unfolding wake_task
  wake_self = ground arith

  pub wake-other : (u : ℕ) → u ≢ t → (wake_task k t v).tcb u ≡ k.tcb u
  unfolding wake_task
  wake-other u ne = ground arith

  pub wake-result : (k.tcb t).svc_blocked ≡ true → (wake_task k t v).word (saved_r0 (k.tcb t)) ≡ v
  unfolding wake_task
  wake-result b = ground arith

-- A wake-up, of a task whose control block is a released one.
pub Woken-of_wake :
    (k k' : Kernel) (w v : ℕ)
    → k'.tcb w ≡ released_tcb (k.tcb w)
    → ((u : ℕ) → u ≢ w → k'.tcb u ≡ k.tcb u)
    → Woken k (wake_task k' w v) w v
Woken-of_wake k k' w v self other =
    let e : (wake_task k' w v).tcb w
        ≡ record (released_tcb (k.tcb w)) { svc_blocked = false; state = ready } =
      wake_self k' w v ∙ ap (λ (c : Tcb). record c { svc_blocked = false; state = ready }) self in
    record {
      state = ap (λ (c : Tcb). c.state) e;
      unblocked = ap (λ (c : Tcb). c.svc_blocked) e;
      unlisted = ap (λ (c : Tcb). c.blocking_wait_list) e;
      stopped = ap (λ (c : Tcb). c.delay_ticks) e;
      result = λ b.
          subst (λ a. (wake_task k' w v).word a ≡ v) (ap saved_r0 self)
            (wake-result k' w v (ap (λ (c : Tcb). c.svc_blocked) self ∙ b));
      others = λ u ne. wake-other k' w v u ne ∙ other u ne;
    }

-- A wake-up behind the release from any wait list.
pub Woken-release :
    (k : Kernel) (ref : WaitRef) (w v : ℕ) → Woken k (wake_task (release_front k ref w) w v) w v
Woken-release k ref w v =
    Woken-of_wake k (release_front k ref w) w v (rw (tcb-release_front k ref w) (ground arith))
      (λ u ne. rw (tcb-release_front k ref w) (ground arith))
