-- ===== src/Mutex/Block.antt =====
-- kernel/mutex.c: the lock of a privileged task, which blocks by itself.
use crest_rtos.Base.{
  ◌∷◌, ℕ, ◌≡◌, refl, inl, inr, List, true, false, none, some, arith, Ptr, has, ◌==◌, if◌then◌else◌,
  Bool-cases, ◌∙◌,
}
use crest_rtos.Kernel.{Kernel, mutex_waiters, waiting, trigger_pendsv}
use crest_rtos.Sync.{success, failure, Outcome, returned, blocked, enqueue_front, mark_waiting}
use crest_rtos.Sync.Waits.{Waits-frame, Waits-enqueue_front, tcb-enqueue_front}
use crest_rtos.Mutex.{set_owner, lock_timeout}
use crest_rtos.Mutex.Spec
use crest_rtos.Mutex.Spec.{View, view}
use crest_rtos.Mutex.Refine.{Represents, Waits-set_owner, owner-enqueue_front}

-- How a lock by the task `t` ends: with the mutex, with a refusal, or with the wait.
abbrev pub ends : Ptr → ℕ → ℕ → Outcome
ends none timeout t = returned success
ends (some o) timeout t =
    if o == t then returned success else if timeout == 0 then returned failure else blocked

-- The state `r.0` represents the view `v`, `r.1` is the outcome `o`, and a task that has blocked is
-- WAITING, with a switch asked for.
abbrev pub Ends : ℕ → ℕ → Kernel × Outcome → View → Outcome → Type 0
Ends p cur r v o =
    Represents r.0 p v
    × (r.1 ≡ o)
    × (r.1 ≡ blocked → ((r.0.tcb cur).state ≡ waiting) × (r.0.pendsv ≡ true))

module _ (k : Kernel) (p cur timeout : ℕ) (current : k.current_task ≡ some cur) where
  own-free :
      (k.mutex p).owner ≡ none
      → lock_timeout k p timeout ≡ (set_owner k p (some cur), returned success)
  unfolding lock_timeout
  own-free e = ground arith

  own-again :
      (o : ℕ)
      → (k.mutex p).owner ≡ some o
      → (o == cur) ≡ true
      → lock_timeout k p timeout ≡ (k, returned success)
  unfolding lock_timeout
  own-again o e s = ground arith

  own-fails :
      (o : ℕ)
      → (k.mutex p).owner ≡ some o
      → (o == cur) ≡ false
      → (timeout == 0) ≡ true
      → lock_timeout k p timeout ≡ (k, returned failure)
  unfolding lock_timeout
  own-fails o e s z = ground arith

  own-waits :
      (o : ℕ)
      → (k.mutex p).owner ≡ some o
      → (o == cur) ≡ false
      → (timeout == 0) ≡ false
      → lock_timeout k p timeout ≡ (
        trigger_pendsv (enqueue_front (mark_waiting k cur) (mutex_waiters p) cur timeout),
        blocked,
      )
  unfolding lock_timeout
  own-waits o e s nz = ground arith

module _ (k : Kernel) (p cur : ℕ) where
  Represents-mark : (v : View) → Represents k p v → Represents (mark_waiting k cur) p v
  unfolding mark_waiting
  Represents-mark v r = record {
    waits =
        Waits-frame k (mark_waiting k cur) (mutex_waiters p) v.waiters refl (λ u m. ground arith)
          r.waits;
    owner = r.owner;
    settled = r.settled;
  }

  Represents-trigger : (v : View) → Represents k p v → Represents (trigger_pendsv k) p v
  Represents-trigger v r = record {
    waits = Waits-frame k (trigger_pendsv k) (mutex_waiters p) v.waiters refl (λ u m. refl) r.waits;
    owner = r.owner;
    settled = r.settled;
  }

  state-marked :
      (timeout : ℕ)
      → ((enqueue_front (mark_waiting k cur) (mutex_waiters p) cur timeout).tcb cur).state ≡ waiting
  unfolding mark_waiting
  state-marked timeout =
      rw (tcb-enqueue_front (mark_waiting k cur) (mutex_waiters p) cur timeout) (ground arith)

module _ (k : Kernel) (p cur timeout : ℕ) (ws : List ℕ) (current : k.current_task ≡ some cur)
    (out : has cur ws ≡ false) where
  Ends-free :
      Represents k p (view none ws)
      → Ends p cur
          (lock_timeout k p timeout)
          (Spec.lock (view none ws) timeout cur).0
          (ends none timeout cur)
  Ends-free r = rw (own-free k p cur timeout current r.owner) (
    record {
      waits = Waits-set_owner k p (some cur) ws r.waits;
      owner = ground arith;
      settled = out;
    },
    refl,
    λ b. cc,
  )

  Represents-blocked :
      (o : ℕ)
      → (o == cur) ≡ false
      → Represents k p (view (some o) ws)
      → Represents
          (enqueue_front (mark_waiting k cur) (mutex_waiters p) cur timeout)
          p
          (view (some o) (cur ∷ ws))
  Represents-blocked o other r =
      let marked = Represents-mark k p cur (view (some o) ws) r in
      record {
        waits =
            Waits-enqueue_front (mark_waiting k cur) (mutex_waiters p) cur timeout ws out
              marked.waits;
        owner = owner-enqueue_front (mark_waiting k cur) p cur timeout ∙ marked.owner;
        settled = settled_with o other r.settled;
      }
    where
      settled_with : (q : ℕ) → (q == cur) ≡ false → has q ws ≡ false → has q (cur ∷ ws) ≡ false
      settled_with q ne h = ground arith

  Ends-held :
      (o : ℕ)
      → Represents k p (view (some o) ws)
      → Ends p cur
          (lock_timeout k p timeout)
          (Spec.lock (view (some o) ws) timeout cur).0
          (ends (some o) timeout cur)
  Ends-held o r = elim (Bool-cases (o == cur)) [
    | inl same ↦ rw (same, own-again k p cur timeout current o r.owner same) (r, refl, λ b. cc)
    | inr other ↦ elim (Bool-cases (timeout == 0)) [
      | inl z ↦
          rw (other, z, own-fails k p cur timeout current o r.owner other z) (r, refl, λ b. cc)
      | inr nz ↦
          rw (other, nz, own-waits k p cur timeout current o r.owner other nz)
            (
              Represents-trigger (enqueue_front (mark_waiting k cur) (mutex_waiters p) cur timeout)
                  p cur (view (some o) (cur ∷ ws)) (Represents-blocked o other r),
              refl,
              λ b. (state-marked k p cur timeout, refl),
            )
    ]
  ]

-- z_impl_mutex_lock_timeout, of a current task that does not wait at the mutex already, leaves the
-- mutex representing the view of the specification's lock. It returns 0 to the owner and on a free
-- mutex, -1 for the timeout 0 on a held one; else it blocks, and the task is WAITING with PendSV
-- pending.
pub lock-Refines :
    (k : Kernel) (p cur timeout : ℕ) (v : View)
    → k.current_task ≡ some cur
    → has cur v.waiters ≡ false
    → Represents k p v
    → Ends p cur (lock_timeout k p timeout) (Spec.lock v timeout cur).0 (ends v.owner timeout cur)
lock-Refines k p cur timeout v current = by_owner v.owner v.waiters
  where
    by_owner :
        (o : Ptr) (ws : List ℕ)
        → has cur ws ≡ false
        → Represents k p (view o ws)
        → Ends p cur
            (lock_timeout k p timeout)
            (Spec.lock (view o ws) timeout cur).0
            (ends o timeout cur)
    by_owner none ws out r = Ends-free k p cur timeout ws current out r
    by_owner (some o) ws out r = Ends-held k p cur timeout ws current out o r
