-- ===== src/Sem/Block.antt =====
-- kernel/semaphore.c: the take of a privileged task, which blocks by itself.
use crest_rtos.Sem.Spec
use crest_rtos.Base.{
  inr, Bool-cases, ℕ, zero, suc, ◌-◌, ◌^◌, ◌<◌, ◌≡◌, refl, inl, List, ◌∷◌, true, false, some, arith,
  has, ◌==◌, if◌then◌else◌, ap, ◌∙◌,
}
use crest_rtos.Kernel.{Kernel, sem_waiters, waiting, trigger_pendsv}
use crest_rtos.Sync.{success, failure, Outcome, returned, blocked, enqueue_front, mark_waiting}
use crest_rtos.Sync.Waits.{Waits, Waits-frame, Waits-enqueue_front, tcb-enqueue_front}
use crest_rtos.Sem.{is_positive, take_timeout, set_count}
use crest_rtos.Sem.Spec.{View, view}
use crest_rtos.Sem.Refine.{Waits-set_count, Represents, count-enqueue_front}

-- How a take ends at once: a token, a refusal, or the wait.
abbrev pub ends : ℕ → ℕ → Outcome
ends (suc n) timeout = returned success
ends zero timeout = if timeout == 0 then returned failure else blocked

module _ (k : Kernel) (p cur timeout : ℕ) where
  -- The state in which the task waits.
  abbrev pub blocked_state : Kernel
  blocked_state = trigger_pendsv (enqueue_front (mark_waiting k cur) (sem_waiters p) cur timeout)

  take-token :
      (n : ℕ)
      → (k.sem p).count ≡ suc n
      → suc n < 2 ^ 31
      → take_timeout k p timeout ≡ (set_count k p n, returned success)
  unfolding take_timeout
  take-token n e lt =
      let positive : is_positive (k.sem p).count ≡ true = ground (arith, e, lt) in
      let less : (k.sem p).count - 1 ≡ n = omega arith in
      rw positive (ap (λ m. (set_count k p m, returned success)) less)

  take-fails :
      (k.sem p).count ≡ 0 → (timeout == 0) ≡ true → take_timeout k p timeout ≡ (k, returned failure)
  unfolding take_timeout
  take-fails e z = ground arith

  take-waits :
      (k.sem p).count ≡ 0
      → (timeout == 0) ≡ false
      → k.current_task ≡ some cur
      → take_timeout k p timeout ≡ (blocked_state, blocked)
  unfolding take_timeout
  take-waits e nz c = ground arith

  Waits-mark :
      (ts : List ℕ) → Waits k (sem_waiters p) ts → Waits (mark_waiting k cur) (sem_waiters p) ts
  unfolding mark_waiting
  Waits-mark ts w =
      Waits-frame k (mark_waiting k cur) (sem_waiters p) ts refl (λ u m. ground arith) w

  count-mark : ((mark_waiting k cur).sem p).count ≡ (k.sem p).count
  unfolding mark_waiting
  count-mark = refl

  Waits-trigger :
      (k' : Kernel) (ts : List ℕ)
      → Waits k' (sem_waiters p) ts
      → Waits (trigger_pendsv k') (sem_waiters p) ts
  Waits-trigger k' ts w = Waits-frame k' (trigger_pendsv k') (sem_waiters p) ts refl (λ u m. refl) w

  Represents-blocked :
      (ws : List ℕ)
      → has cur ws ≡ false
      → Represents k p (view 0 ws)
      → Represents blocked_state p (view 0 (cur ∷ ws))
  Represents-blocked ws out r = record {
    waits =
        Waits-trigger (enqueue_front (mark_waiting k cur) (sem_waiters p) cur timeout) (cur ∷ ws) (
          Waits-enqueue_front (mark_waiting k cur) (sem_waiters p) cur timeout ws out
            (Waits-mark ws r.waits));
    count = count-enqueue_front (mark_waiting k cur) p cur timeout ∙ count-mark ∙ r.count;
    bound = omega arith;
    settled = inl refl;
  }

  state-blocked : (blocked_state.tcb cur).state ≡ waiting
  unfolding mark_waiting
  state-blocked =
      rw (tcb-enqueue_front (mark_waiting k cur) (sem_waiters p) cur timeout) (ground arith)

-- The state `r.0` represents the view `v`, `r.1` is the outcome `o`, and a task that has blocked is
-- WAITING, with a switch asked for.
abbrev pub Ends : ℕ → ℕ → Kernel × Outcome → View → Outcome → Type 0
Ends p cur r v o =
    Represents r.0 p v
    × (r.1 ≡ o)
    × (r.1 ≡ blocked → ((r.0.tcb cur).state ≡ waiting) × (r.0.pendsv ≡ true))

module _ (k : Kernel) (p cur timeout : ℕ) (current : k.current_task ≡ some cur) where
  Ends-token :
      (n : ℕ) (ws : List ℕ)
      → Represents k p (view (suc n) ws)
      → Ends p cur
          (take_timeout k p timeout)
          (Spec.take (view (suc n) ws) timeout cur).0
          (ends (suc n) timeout)
  Ends-token n ws r = rw (take-token k p cur timeout n r.count r.bound) (
    record {
      waits = Waits-set_count k p n ws r.waits;
      count = ground arith;
      bound = omega (arith, r.bound);
      settled = inr (ground (arith, r.settled));
    },
    refl,
    λ e. cc,
  )

  Ends-empty :
      (ws : List ℕ)
      → has cur ws ≡ false
      → Represents k p (view 0 ws)
      → Ends p cur (take_timeout k p timeout) (Spec.take (view 0 ws) timeout cur).0 (ends 0 timeout)
  Ends-empty ws out r = elim (Bool-cases (timeout == 0)) [
    | inl z ↦ rw (z, take-fails k p cur timeout r.count z) (r, refl, λ e. cc)
    | inr nz ↦
        rw (nz, take-waits k p cur timeout r.count nz current)
          (
            Represents-blocked k p cur timeout ws out r,
            refl,
            λ e. (state-blocked k p cur timeout, refl),
          )
  ]

-- z_impl_sem_take_timeout, of a current task that does not wait at the semaphore already, leaves
-- the semaphore representing the view of the specification's take. It returns 0 with a token and
-- -1 without one for the timeout 0; else it blocks, and the task is WAITING with PendSV pending.
pub take-Refines :
    (k : Kernel) (p cur timeout : ℕ) (v : View)
    → k.current_task ≡ some cur
    → has cur v.waiters ≡ false
    → Represents k p v
    → Ends p cur (take_timeout k p timeout) (Spec.take v timeout cur).0 (ends v.count timeout)
take-Refines k p cur timeout v current = by_count v.count v.waiters
  where
    by_count :
        (n : ℕ) (ws : List ℕ)
        → has cur ws ≡ false
        → Represents k p (view n ws)
        → Ends p cur
            (take_timeout k p timeout)
            (Spec.take (view n ws) timeout cur).0
            (ends n timeout)
    by_count zero ws out r = Ends-empty k p cur timeout current ws out r
    by_count (suc n) ws out r = Ends-token k p cur timeout current n ws r
