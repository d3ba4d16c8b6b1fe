-- ===== src/Sem/Refine.antt =====
-- kernel/semaphore.c beside the counting semaphore of Sem/Spec.antt.
use crest_rtos.Base.{
  ℕ, zero, suc, ◌+◌, ◌-◌, ◌%◌, ◌^◌, ◌<◌, ◌⊎◌, subst, ◌≡◌, ◌≢◌, inl, inr, refl, List, [], ◌∷◌, true,
  false, none, some, arith, has, ◌==◌, Bool-cases, ap, ◌∙◌,
}
use crest_rtos.Kernel.{Kernel, sem_waiters}
use crest_rtos.Sched.{wake_task}
use crest_rtos.Sync.{Status, success, failure, enqueue_front, release_front}
use crest_rtos.Sync.Waits.{Waits, Waits-frame, Waits-enqueue_front, Waits-release_front, Waits-wake}
use crest_rtos.Sync.Wake.{Woken-release, WakesFirst}
use crest_rtos.Sem.{is_positive, try_take_timeout, give, set_count}
use crest_rtos.Sem.Spec
use crest_rtos.Sem.Spec.{View, view, IsSettled}

-- The semaphore at `p` has the view's count, an int that is not negative, and its wait list holds
-- the view's waiters.
pub record Represents (k : Kernel) (p : ℕ) (v : View) : Type 0 where
  pub waits : Waits k (sem_waiters p) v.waiters
  pub count : (k.sem p).count ≡ v.count
  pub bound : v.count < 2 ^ 31
  pub settled : IsSettled v

module _ (k : Kernel) (p : ℕ) where
  pub Waits-set_count :
      (n : ℕ) (ts : List ℕ)
      → Waits k (sem_waiters p) ts
      → Waits (set_count k p n) (sem_waiters p) ts
  Waits-set_count n ts w =
      Waits-frame k (set_count k p n) (sem_waiters p) ts (ground arith) (λ u m. refl) w

  pub count-enqueue_front :
      (t timeout : ℕ) → ((enqueue_front k (sem_waiters p) t timeout).sem p).count ≡ (k.sem p).count
  unfolding enqueue_front
  count-enqueue_front t timeout = ground arith

  count-release_front :
      (t v : ℕ)
      → ((wake_task (release_front k (sem_waiters p) t) t v).sem p).count ≡ (k.sem p).count
  unfolding release_front wake_task
  count-release_front t v = ground arith

  take-token :
      (t timeout n : ℕ)
      → (k.sem p).count ≡ suc n
      → suc n < 2 ^ 31
      → try_take_timeout k p t timeout ≡ (set_count k p n, success)
  unfolding try_take_timeout
  take-token t timeout n e lt =
      let positive : is_positive (k.sem p).count ≡ true = ground (arith, e, lt) in
      let less : (k.sem p).count - 1 ≡ n = omega arith in
      rw positive (ap (λ m. (set_count k p m, success)) less)

  take-fails :
      (t timeout : ℕ)
      → (k.sem p).count ≡ 0
      → (timeout == 0) ≡ true
      → try_take_timeout k p t timeout ≡ (k, failure)
  unfolding try_take_timeout
  take-fails t timeout e z = ground arith

  take-waits :
      (t timeout : ℕ)
      → (k.sem p).count ≡ 0
      → timeout ≢ 0
      → try_take_timeout k p t timeout ≡ (enqueue_front k (sem_waiters p) t timeout, failure)
  unfolding try_take_timeout
  take-waits t timeout e nz = ground arith

-- The state `r.0` represents the view `s.0`, and both return the same status.
abbrev pub Refines : ℕ → Kernel × Status → View × Status → Type 0
Refines p r s = Represents r.0 p s.0 × (r.1 ≡ s.1)

module _ (k : Kernel) (p t timeout : ℕ) where
  Refines-token :
      (n : ℕ) (ws : List ℕ)
      → Represents k p (view (suc n) ws)
      → Refines p (try_take_timeout k p t timeout) (Spec.take (view (suc n) ws) timeout t)
  Refines-token n ws r = rw (take-token k p t timeout n r.count r.bound) (
    record {
      waits = Waits-set_count k p n ws r.waits;
      count = ground arith;
      bound = omega (arith, r.bound);
      settled = inr (ground (arith, r.settled));
    },
    refl,
  )

  Refines-empty :
      (ws : List ℕ)
      → has t ws ≡ false
      → Represents k p (view 0 ws)
      → Refines p (try_take_timeout k p t timeout) (Spec.take (view 0 ws) timeout t)
  Refines-empty ws out r = elim (Bool-cases (timeout == 0)) [
    | inl z ↦ rw (z, take-fails k p t timeout r.count z) (r, refl)
    | inr nz ↦
        rw (nz, take-waits k p t timeout r.count (ground arith))
          (
            record {
              waits = Waits-enqueue_front k (sem_waiters p) t timeout ws out r.waits;
              count = count-enqueue_front k p t timeout ∙ r.count;
              bound = omega arith;
              settled = inl refl;
            },
            refl,
          )
  ]

-- z_impl_sem_try_take_timeout, for a caller that does not wait at the semaphore already, returns
-- the status of the specification's take, and leaves the semaphore representing its view.
pub try_take-Refines :
    (k : Kernel) (p t timeout : ℕ) (v : View)
    → has t v.waiters ≡ false
    → Represents k p v
    → Refines p (try_take_timeout k p t timeout) (Spec.take v timeout t)
try_take-Refines k p t timeout v = by_count v.count v.waiters
  where
    by_count :
        (n : ℕ) (ws : List ℕ)
        → has t ws ≡ false
        → Represents k p (view n ws)
        → Refines p (try_take_timeout k p t timeout) (Spec.take (view n ws) timeout t)
    by_count zero ws out r = Refines-empty k p t timeout ws out r
    by_count (suc n) ws out r = Refines-token k p t timeout n ws r

module _ (k : Kernel) (p : ℕ) where
  give-nobody :
      (k.sem p).wait_list ≡ none → give k p ≡ set_count k p (((k.sem p).count + 1) % 2 ^ 32)
  unfolding give
  give-nobody e = ground arith

  give-waiter :
      (w : ℕ)
      → (k.sem p).wait_list ≡ some w
      → give k p ≡ wake_task (release_front k (sem_waiters p) w) w 0
  unfolding give
  give-waiter w e = rw (e, give) refl

  Refines-nobody :
      (n : ℕ)
      → n < 2 ^ 31 - 1
      → Represents k p (view n [])
      → Represents (give k p) p (Spec.give (view n [])) × WakesFirst k (give k p) []
  Refines-nobody n lt r = rw (give-nobody r.waits.chain) (
    record {
      waits = Waits-set_count k p (((k.sem p).count + 1) % 2 ^ 32) [] r.waits;
      count = ground (arith, r.count, lt);
      bound = omega (arith, lt);
      settled = inr refl;
    },
    refl,
  )

  Refines-waiter :
      (n w : ℕ) (ws : List ℕ)
      → Represents k p (view n (w ∷ ws))
      → Represents (give k p) p (Spec.give (view n (w ∷ ws))) × WakesFirst k (give k p) (w ∷ ws)
  Refines-waiter n w ws r = rw (give-waiter w r.waits.chain.0) (
    record {
      waits =
          Waits-wake (release_front k (sem_waiters p) w) (sem_waiters p) w 0 (sem_waiters p) ws
            (Waits-release_front k (sem_waiters p) w ws r.waits);
      count = count-release_front k p w 0 ∙ r.count;
      bound = r.bound;
      settled = inl (ground (arith, r.settled));
    },
    Woken-release k (sem_waiters p) w 0,
  )

  -- At INT_MAX the count becomes INT_MIN, and a take finds no token.
  give-overflows :
      Represents k p (view (2 ^ 31 - 1) [])
      → (give k p ≡ set_count k p (2 ^ 31))
        × ((t : ℕ) → try_take_timeout (give k p) p t 0 ≡ (give k p, failure))
  unfolding try_take_timeout
  give-overflows r =
      let e : give k p ≡ set_count k p (2 ^ 31) =
        give-nobody r.waits.chain ∙ ap (λ n. set_count k p ((n + 1) % 2 ^ 32)) r.count in
      (e, λ t. rw e (ground arith))

-- How a give ends: with the count at INT_MAX and nobody waiting it becomes INT_MIN, and a take with
-- timeout 0 fails; else the semaphore represents the view of the specification's give, and a task
-- that waits is woken with the result 0.
abbrev pub Gives : Kernel → ℕ → View → Type 0
Gives k p v =
    ((v ≡ view (2 ^ 31 - 1) [])
      × (give k p ≡ set_count k p (2 ^ 31))
      × ((t : ℕ) → try_take_timeout (give k p) p t 0 ≡ (give k p, failure)))
    ⊎ ((v ≢ view (2 ^ 31 - 1) [])
        × Represents (give k p) p (Spec.give v)
        × WakesFirst k (give k p) v.waiters)

-- z_impl_sem_give, of a semaphore whose count is not negative: with the count at INT_MAX and nobody
-- waiting, the count becomes INT_MIN and the next take with timeout 0 fails; else the semaphore
-- represents the view of the specification's give: a task that waits is woken with the result 0,
-- and without one the count goes up.
pub give_refines : (k : Kernel) (p : ℕ) (v : View) → Represents k p v → Gives k p v
give_refines k p v = by_waiters v.count v.waiters
  where
    by_waiters : (n : ℕ) (ws : List ℕ) → Represents k p (view n ws) → Gives k p (view n ws)
    by_waiters n [] r = elim (Bool-cases (n == 2 ^ 31 - 1)) [
      | inl e ↦
          let at : n ≡ 2 ^ 31 - 1 = ground (arith, e) in
          let same : view n [] ≡ view (2 ^ 31 - 1) [] = ap (λ m. view m []) at in
          let (e', fails) = give-overflows k p (subst (Represents k p) same r) in
          inl (same, e', fails)
      | inr e ↦
          let (represents, wakes) = Refines-nobody k p n (ground (arith, e, r.bound)) r in
          inr (λ q. ground (arith, e, ap (λ (v : View). v.count) q), represents, wakes)
    ]
    by_waiters n (w ∷ ws) r =
        let (represents, wakes) = Refines-waiter k p n w ws r in
        inr (λ q. no_waiter (ap (λ (v : View). v.waiters) q), represents, wakes)
      where
        no_waiter : w ∷ ws ≡ [] → ⊥
        no_waiter q = cc
