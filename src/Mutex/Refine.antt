-- ===== src/Mutex/Refine.antt =====
-- kernel/mutex.c beside the mutex of Mutex/Spec.antt.
use crest_rtos.Base.{
  ℕ, ◌≡◌, ◌≢◌, inl, inr, refl, List, [], ◌∷◌, true, false, none, some, arith, Ptr, has, ◌==◌,
  Bool-cases, ==_iff, ap, ◌∙◌, ◌⊎◌,
}
use crest_rtos.Kernel.{Kernel, mutex_waiters, trigger_pendsv}
use crest_rtos.Sched.{wake_task}
use crest_rtos.Sync.{Status, success, failure, enqueue_front, release_front}
use crest_rtos.Sync.Waits.{
  Waits, Waits-frame, Waits-enqueue_front, Waits-release_front, Waits-wake, tcb-release_front,
}
use crest_rtos.Sync.Wake.{Woken-of_wake, WakesFirst}
use crest_rtos.Mutex.{set_owner, try_lock_timeout, hand_over_to, hand_over, unlock_for}
use crest_rtos.Mutex.Spec
use crest_rtos.Mutex.Spec.{View, view, IsSettled, passed_on}

-- The mutex at `p` has the view's owner, and its wait list holds the view's waiters.
pub record Represents (k : Kernel) (p : ℕ) (v : View) : Type 0 where
  pub waits : Waits k (mutex_waiters p) v.waiters
  pub owner : (k.mutex p).owner ≡ v.owner
  pub settled : IsSettled v.owner v.waiters

module _ (k : Kernel) (p : ℕ) where
  pub Waits-set_owner :
      (o : Ptr) (ts : List ℕ)
      → Waits k (mutex_waiters p) ts
      → Waits (set_owner k p o) (mutex_waiters p) ts
  Waits-set_owner o ts w =
      Waits-frame k (set_owner k p o) (mutex_waiters p) ts (ground arith) (λ u m. refl) w

  pub owner-enqueue_front :
      (t timeout : ℕ)
      → ((enqueue_front k (mutex_waiters p) t timeout).mutex p).owner ≡ (k.mutex p).owner
  unfolding enqueue_front
  owner-enqueue_front t timeout = ground arith

  lock-free :
      (t timeout : ℕ)
      → (k.mutex p).owner ≡ none
      → try_lock_timeout k p t timeout ≡ (set_owner k p (some t), success)
  unfolding try_lock_timeout
  lock-free t timeout e = ground arith

  lock-again :
      (o t timeout : ℕ)
      → (k.mutex p).owner ≡ some o
      → (o == t) ≡ true
      → try_lock_timeout k p t timeout ≡ (k, success)
  unfolding try_lock_timeout
  lock-again o t timeout e s = ground arith

  lock-fails :
      (o t timeout : ℕ)
      → (k.mutex p).owner ≡ some o
      → (o == t) ≡ false
      → (timeout == 0) ≡ true
      → try_lock_timeout k p t timeout ≡ (k, failure)
  unfolding try_lock_timeout
  lock-fails o t timeout e s z = ground arith

  lock-waits :
      (o t timeout : ℕ)
      → (k.mutex p).owner ≡ some o
      → (o == t) ≡ false
      → (timeout == 0) ≡ false
      → try_lock_timeout k p t timeout ≡ (enqueue_front k (mutex_waiters p) t timeout, failure)
  unfolding try_lock_timeout
  lock-waits o t timeout e s z = ground arith

  hand_over-nobody :
      (k.mutex p).wait_list ≡ none → hand_over k p ≡ trigger_pendsv (set_owner k p none)
  unfolding hand_over
  hand_over-nobody e = ap (hand_over_to k p) e

  hand_over-waiter :
      (w : ℕ)
      → (k.mutex p).wait_list ≡ some w
      → hand_over k p ≡ wake_task (set_owner (release_front k (mutex_waiters p) w) p (some w)) w 0
  unfolding hand_over
  hand_over-waiter w e = ap (hand_over_to k p) e

  owner-hand_over :
      (w : ℕ)
      → ((wake_task (set_owner (release_front k (mutex_waiters p) w) p (some w)) w 0).mutex p).owner
        ≡ some w
  unfolding release_front wake_task
  owner-hand_over w = ground arith

-- The state `r.0` represents the view `s.0`, and both return the same status.
abbrev pub Refines : ℕ → Kernel × Status → View × Status → Type 0
Refines p r s = Represents r.0 p s.0 × (r.1 ≡ s.1)

module _ (k : Kernel) (p t timeout : ℕ) (ws : List ℕ) where
  Refines-free :
      Represents k p (view none ws)
      → has t ws ≡ false
      → Refines p (try_lock_timeout k p t timeout) (Spec.lock (view none ws) timeout t)
  Refines-free r out = rw (lock-free k p t timeout r.owner) (
    record { waits = Waits-set_owner k p (some t) ws r.waits; owner = ground arith; settled = out },
    refl,
  )

  Refines-held :
      (o : ℕ)
      → Represents k p (view (some o) ws)
      → has t ws ≡ false
      → Refines p (try_lock_timeout k p t timeout) (Spec.lock (view (some o) ws) timeout t)
  Refines-held o r out = elim (Bool-cases (o == t)) [
    | inl same ↦ rw (same, lock-again k p o t timeout r.owner same) (r, refl)
    | inr other ↦ elim (Bool-cases (timeout == 0)) [
      | inl z ↦ rw (other, z, lock-fails k p o t timeout r.owner other z) (r, refl)
      | inr nz ↦
          rw (other, nz, lock-waits k p o t timeout r.owner other nz)
            (
              record {
                waits = Waits-enqueue_front k (mutex_waiters p) t timeout ws out r.waits;
                owner = owner-enqueue_front k p t timeout ∙ r.owner;
                settled = ground (arith, r.settled);
              },
              refl,
            )
    ]
  ]

-- z_impl_mutex_try_lock_timeout, for a caller that does not wait at the mutex already, returns the
-- status of the specification's lock, and leaves the mutex representing its view.
pub try_lock-Refines :
    (k : Kernel) (p t timeout : ℕ) (v : View)
    → has t v.waiters ≡ false
    → Represents k p v
    → Refines p (try_lock_timeout k p t timeout) (Spec.lock v timeout t)
try_lock-Refines k p t timeout v = by_owner v.owner v.waiters
  where
    by_owner :
        (o : Ptr) (ws : List ℕ)
        → has t ws ≡ false
        → Represents k p (view o ws)
        → Refines p (try_lock_timeout k p t timeout) (Spec.lock (view o ws) timeout t)
    by_owner none ws out r = Refines-free k p t timeout ws r out
    by_owner (some o) ws out r = Refines-held k p t timeout ws o r out

module _ (k : Kernel) (p : ℕ) (o : Ptr) where
  -- The mutex is let go: the first waiter owns it and is woken.
  hand_over_refines :
      (ws : List ℕ)
      → Represents k p (view o ws)
      → Represents (hand_over k p) p (passed_on ws) × WakesFirst k (hand_over k p) ws
  hand_over_refines [] r = rw (hand_over-nobody k p r.waits.chain) (
    record {
      waits =
          Waits-frame k (trigger_pendsv (set_owner k p none)) (mutex_waiters p) [] (ground arith)
            (λ u m. refl) r.waits;
      owner = ground arith;
      settled = refl;
    },
    refl,
  )
  hand_over_refines (w ∷ ws) r = rw (hand_over-waiter k p w r.waits.chain.0) (
    record {
      waits =
          Waits-wake (set_owner (release_front k (mutex_waiters p) w) p (some w)) (mutex_waiters p)
            w 0 (mutex_waiters p) ws
            (Waits-set_owner (release_front k (mutex_waiters p) w) p (some w) ws
              (Waits-release_front k (mutex_waiters p) w ws r.waits));
      owner = owner-hand_over k p w;
      settled = r.waits.nodup.0;
    },
    Woken-of_wake k (set_owner (release_front k (mutex_waiters p) w) p (some w)) w 0
        (rw (tcb-release_front k (mutex_waiters p) w) (ground arith))
        (λ u ne. rw (tcb-release_front k (mutex_waiters p) w) (ground arith)),
  )

module _ (k : Kernel) (p t : ℕ) where
  unlock-owner : (k.mutex p).owner ≡ some t → unlock_for k p t ≡ hand_over k p
  unfolding unlock_for
  unlock-owner e = ground arith

  unlock-other : (o : Ptr) → (k.mutex p).owner ≡ o → o ≢ some t → unlock_for k p t ≡ k
  unfolding unlock_for
  unlock-other o e ne = ground arith

  spec-owner : (v : View) → v.owner ≡ some t → Spec.unlock v t ≡ passed_on v.waiters
  spec-owner v e = ground arith

  spec-other : (v : View) → v.owner ≢ some t → Spec.unlock v t ≡ v
  spec-other v ne = ground arith

same_owner : (o : Ptr) (t : ℕ) → (o ≡ some t) ⊎ (o ≢ some t)
same_owner none t = inr (λ e. cc)
same_owner (some o) t = elim (Bool-cases (o == t)) [
  | inl e ↦ inl (ap some ((==_iff o t).0 e))
  | inr e ↦ inr (λ q. ground arith)
]

-- z_impl_mutex_unlock_for. By the owner: the first waiter owns the mutex and is woken with the
-- result 0, or the mutex is free; the mutex represents the view of the specification's unlock. By
-- any other task: nothing changes.
pub unlock_for_refines :
    (k : Kernel) (p t : ℕ) (v : View)
    → Represents k p v
    → Represents (unlock_for k p t) p (Spec.unlock v t)
      × (v.owner ≡ some t → WakesFirst k (unlock_for k p t) v.waiters)
      × (v.owner ≢ some t → unlock_for k p t ≡ k)
unlock_for_refines k p t v r = elim (same_owner v.owner t) [
  | inl own ↦
      let (kept, wakes) = hand_over_refines k p v.owner v.waiters r in
      (
        rw (spec-owner k p t v own, unlock-owner k p t (r.owner ∙ own)) kept,
        λ _. rw (unlock-owner k p t (r.owner ∙ own)) wakes,
        λ ne. absurd (ne own),
      )
  | inr other ↦
      let stays = unlock-other k p t v.owner r.owner other in
      (rw (spec-other k p t v other, stays) r, λ own. absurd (other own), λ _. stays)
]
