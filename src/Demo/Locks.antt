-- ===== src/Demo/Locks.antt =====
-- src/main.c: mutual exclusion of task_producer and task_consumer.
use crest_rtos.Base.{ℕ, ◌≡◌, ◌≢◌, refl, subst}
use crest_rtos.Kernel.{Item}
use crest_rtos.Sem
use crest_rtos.Mutex
use crest_rtos.Mutex.{same_task}
use crest_rtos.Demo.{
  Demo, Run, begun, produced, consumed, Producer, wants_lock, waits_lock, holds_lock, has_pushed,
  has_unlocked, Consumer, wants_token, waits_token, has_token, waits_mutex, holds_mutex, has_popped,
  producer_at, consumer_at, wait_forever, consumer_task, producer_task,
}
use crest_rtos.Demo.Claims.{
  Fits, consumer_claim, consumer_claim-locked, consumer_claim-resumed, consumer_claim-signalled,
  consumer_claim-taken, consumer_locks, consumer_unlocks, locked, producer_claim,
  producer_claim-locked, producer_claim-resumed, producer_locks, producer_unlocks, unlocked, Claim,
  away, blocked, inside,
}

abbrev IsLocked : Demo → Type 0
IsLocked d = Fits (producer_claim d.producer) (consumer_claim d.consumer) d.mutex

-- The claims of the two tasks, where one of them is known.
producer_known :
    (d : Demo) (p : Producer)
    → d.producer ≡ p
    → IsLocked d
    → Fits (producer_claim p) (consumer_claim d.consumer) d.mutex
producer_known d p at h =
    subst (λ p. Fits (producer_claim p) (consumer_claim d.consumer) d.mutex) at h

consumer_known :
    (d : Demo) (c : Consumer)
    → d.consumer ≡ c
    → IsLocked d
    → Fits (producer_claim d.producer) (consumer_claim c) d.mutex
consumer_known d c at h =
    subst (λ c. Fits (producer_claim d.producer) (consumer_claim c) d.mutex) at h

producer_at-IsLocked :
    (p : Producer) (x : Item) (d : Demo)
    → d.producer ≡ p
    → IsLocked d
    → IsLocked (producer_at p x d)
producer_at-IsLocked wants_lock x d at h =
    rw (producer_claim-locked (locked d.mutex producer_task).1)
      (producer_locks (consumer_claim d.consumer) d.mutex (producer_known d wants_lock at h))
producer_at-IsLocked waits_lock x d at h = h
producer_at-IsLocked holds_lock x d at h = producer_known d holds_lock at h
producer_at-IsLocked has_pushed x d at h =
    rw (consumer_claim-resumed (unlocked d.mutex producer_task).owner d.consumer)
      (producer_unlocks (consumer_claim d.consumer) d.mutex (producer_known d has_pushed at h))
producer_at-IsLocked has_unlocked x d at h =
    rw (consumer_claim-signalled d.sem.waiters d.consumer) (producer_known d has_unlocked at h)

consumer_at-IsLocked :
    (c : Consumer) (d : Demo) → d.consumer ≡ c → IsLocked d → IsLocked (consumer_at c d)
consumer_at-IsLocked wants_token d at h =
    rw (consumer_claim-taken (Sem.Spec.take d.sem wait_forever consumer_task).1)
      (consumer_known d wants_token at h)
consumer_at-IsLocked waits_token d at h = h
consumer_at-IsLocked has_token d at h =
    rw (consumer_claim-locked (locked d.mutex consumer_task).1)
      (consumer_locks (producer_claim d.producer) d.mutex (consumer_known d has_token at h))
consumer_at-IsLocked waits_mutex d at h = h
consumer_at-IsLocked holds_mutex d at h = consumer_known d holds_mutex at h
consumer_at-IsLocked has_popped d at h =
    rw (producer_claim-resumed (unlocked d.mutex consumer_task).owner d.producer)
      (consumer_unlocks (producer_claim d.producer) d.mutex (consumer_known d has_popped at h))

Run-IsLocked : (size : ℕ) (d : Demo) → Run size d → IsLocked d
Run-IsLocked size _ begun = refl
Run-IsLocked size _ (produced d x r) =
    producer_at-IsLocked d.producer x d refl (Run-IsLocked size d r)
Run-IsLocked size _ (consumed d r) = consumer_at-IsLocked d.consumer d refl (Run-IsLocked size d r)

fitting_inside : (p c : Claim) (m : Mutex.Spec.View) → Fits p c m → p ≡ inside → c ≢ inside
fitting_inside inside inside m e at = cc
fitting_inside inside away m e at = λ e. cc
fitting_inside inside blocked m e at = λ e. cc
fitting_inside away c m e at = cc
fitting_inside blocked c m e at = cc

producer_blocked : (c : Claim) (m : Mutex.Spec.View) → Fits blocked c m → c ≡ inside
producer_blocked inside m e = refl
producer_blocked away m e = cc
producer_blocked blocked m e = cc

consumer_blocked : (p : Claim) (m : Mutex.Spec.View) → Fits p blocked m → p ≡ inside
consumer_blocked inside m e = refl
consumer_blocked away m e = cc
consumer_blocked blocked m e = cc

-- In every run of the two loops on a queue of any size: the producer and the consumer are never
-- both between mutex_lock and mutex_unlock; the producer blocks in mutex_lock only while the
-- consumer is between them, and the consumer only while the producer is, so they never block each
-- other.
pub exclusion_lem :
    (size : ℕ) (d : Demo)
    → Run size d
    → (producer_claim d.producer ≡ inside → consumer_claim d.consumer ≢ inside)
      × (d.producer ≡ waits_lock → consumer_claim d.consumer ≡ inside)
      × (d.consumer ≡ waits_mutex → producer_claim d.producer ≡ inside)
exclusion_lem size d r =
    let h = Run-IsLocked size d r in
    (
      fitting_inside (producer_claim d.producer) (consumer_claim d.consumer) d.mutex h,
      λ at. producer_blocked (consumer_claim d.consumer) d.mutex (producer_known d waits_lock at h),
      λ at.
          consumer_blocked (producer_claim d.producer) d.mutex (consumer_known d waits_mutex at h),
    )
