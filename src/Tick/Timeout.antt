-- ===== src/Tick/Timeout.antt =====
-- kernel/sched.c, sync_tick_all: what a tick does to one task that waits with a timeout.
use crest_rtos.Base.{
  ℕ, ◌+◌, ◌-◌, ◌≤◌, ◌≡◌, ◌≢◌, refl, List, true, false, some, none, arith, length, ap, ◌∙◌, subst,
  sym,
}
use crest_rtos.Chain.{remove}
use crest_rtos.Kernel.{
  max_tasks, minus_one, ready, waiting, Kernel, Tcb, WaitRef, wait_head, set_tcb,
}
use crest_rtos.Sched.{wake_task, saved_r0}
use crest_rtos.Sync.Waits.{wait_links, Waits, Waits-frame, Waits-wake, wait_head-tcb}
use crest_rtos.Tick.{expire, splice, sync_task}
use crest_rtos.Tick.Splice.{Spliced, splice_lem}

-- `blocking_wait_list = NULL` and the flag TASK_FLAG_TIMED_OUT.
abbrev give_up : Kernel → ℕ → Kernel
give_up k t = set_tcb k t (record (k.tcb t) { blocking_wait_list = none; timed_out = true })

-- The state after a timeout: the task has left the list, is READY and flagged, its system call
-- returns -1, and no other task's control block has changed but for the links of the list.
pub record Expired (k : Kernel) (ref : WaitRef) (t : ℕ) (ts : List ℕ) (k' : Kernel) : Type 0 where
  pub waits : Waits k' ref (remove t ts)
  pub state : (k'.tcb t).state ≡ ready
  pub flagged : (k'.tcb t).timed_out ≡ true
  pub unblocked : (k'.tcb t).svc_blocked ≡ false
  pub unlisted : (k'.tcb t).blocking_wait_list ≡ none
  pub result : (k.tcb t).svc_blocked ≡ true → k'.word (saved_r0 (k.tcb t)) ≡ minus_one
  pub others : (u : ℕ) → u ≢ t → k'.tcb u ≡ record (k.tcb u) { wait_next = wait_links k' u }

woken : Kernel → ℕ → Kernel
woken k t = wake_task (give_up k t) t minus_one

module _ (k : Kernel) (ref : WaitRef) (t : ℕ) (ts : List ℕ) where
  expire-step :
      (k' : Kernel)
      → splice (max_tasks + 1) k ref t none (wait_head k ref) ≡ some k'
      → expire k ref t ≡ some (woken k' t)
  unfolding expire woken
  expire-step k' e = rw (expire, e) refl

  Waits-woken : (k' : Kernel) (us : List ℕ) → Waits k' ref us → Waits (woken k' t) ref us
  unfolding woken
  Waits-woken k' us w = Waits-wake (give_up k' t) ref t minus_one ref us (
      Waits-frame k' (give_up k' t) ref us (wait_head-tcb k' ref (give_up k' t).tcb)
        (λ u m. ground arith) w)

  -- The fields of a woken task, and of the others.
  woken-fields :
      (k' : Kernel)
      → ((woken k' t).tcb t ≡ record (k'.tcb t) {
        blocking_wait_list = none;
        timed_out = true;
        svc_blocked = false;
        state = ready;
      })
        × ((u : ℕ) → u ≢ t → (woken k' t).tcb u ≡ k'.tcb u)
        × ((k'.tcb t).svc_blocked ≡ true → (woken k' t).word (saved_r0 (k'.tcb t)) ≡ minus_one)
  unfolding woken wake_task
  woken-fields k' = (ground arith, λ u ne. ground arith, λ b. ground arith)

  Expired-of_Spliced : (k' : Kernel) → Spliced k ref t ts k' → Expired k ref t ts (woken k' t)
  Expired-of_Spliced k' s =
      let (self, other, delivered) = woken-fields k' in
      record {
        waits = Waits-woken k' (remove t ts) s.waits;
        state = ap (λ (c : Tcb). c.state) self;
        flagged = ap (λ (c : Tcb). c.timed_out) self;
        unblocked = ap (λ (c : Tcb). c.svc_blocked) self;
        unlisted = ap (λ (c : Tcb). c.blocking_wait_list) self;
        result = λ b.
            subst (λ a. (woken k' t).word a ≡ minus_one) (ap saved_r0 (s.only t))
              (delivered (ap (λ (c : Tcb). c.svc_blocked) (s.only t) ∙ b));
        others = λ u ne.
            other u ne
            ∙ s.only u
            ∙ ap (λ n. record (k.tcb u) { wait_next = n })
                (sym (ap (λ (c : Tcb). c.wait_next) (other u ne)));
      }

  expire_lem :
      length ts ≤ max_tasks
      → Waits k ref ts
      → (k' : Kernel) × (expire k ref t ≡ some k') × Expired k ref t ts k'
  expire_lem le w =
      let (k', e, s) = splice_lem k ref t (max_tasks + 1) ts (omega arith) w in
      (woken k' t, expire-step k' e, Expired-of_Spliced k' s)

-- `--t->delay_ticks`
abbrev pub count_down : Kernel → ℕ → Kernel
count_down k t = set_tcb k t (record (k.tcb t) { delay_ticks = (k.tcb t).delay_ticks - 1 })

module _ (k : Kernel) (ref : WaitRef) (t n : ℕ) (st : (k.tcb t).state ≡ waiting)
    (bl : (k.tcb t).blocking_wait_list ≡ some ref) (dl : (k.tcb t).delay_ticks ≡ n + 1) where
  sync_task-later : n ≢ 0 → sync_task t k ≡ some (count_down k t)
  unfolding sync_task
  sync_task-later nz = ground arith

  sync_task-last : n ≡ 0 → sync_task t k ≡ expire (count_down k t) ref t
  unfolding sync_task
  sync_task-last z = ground arith

-- Counting down changes no wait list.
Waits-count_down :
    (k : Kernel) (ref : WaitRef) (t : ℕ) (ts : List ℕ)
    → Waits k ref ts
    → Waits (count_down k t) ref ts
Waits-count_down k ref t ts w =
    Waits-frame k (count_down k t) ref ts (wait_head-tcb k ref (count_down k t).tcb)
      (λ u m. ground arith) w

-- A task that waits in the list at `ref`, of at most MAX_TASKS tasks, with a timeout of `n + 1`
-- ticks. One tick later its timeout is `n` and nothing else has changed, where `n` is not 0; else
-- the task alone has left the list, is READY and flagged, and its system call, if it was in one,
-- returns -1.
pub sync_task_timeout :
    (k : Kernel) (ref : WaitRef) (t n : ℕ) (ts : List ℕ)
    → length ts ≤ max_tasks
    → Waits k ref ts
    → (k.tcb t).state ≡ waiting
    → (k.tcb t).blocking_wait_list ≡ some ref
    → (k.tcb t).delay_ticks ≡ n + 1
    → (n ≢ 0 → sync_task t k ≡ some (count_down k t))
      × (n ≡ 0 → (k' : Kernel) × (sync_task t k ≡ some k') × Expired (count_down k t) ref t ts k')
sync_task_timeout k ref t n ts le w st bl dl =
    let (k', e, x) = expire_lem (count_down k t) ref t ts le (Waits-count_down k ref t ts w) in
    (sync_task-later k ref t n st bl dl, λ z. (k', sync_task-last k ref t n st bl dl z ∙ e, x))
