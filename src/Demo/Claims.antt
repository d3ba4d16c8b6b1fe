-- ===== src/Demo/Claims.antt =====
-- src/main.c: which tasks of the demo are between mutex_lock and mutex_unlock, and the mutex that
-- fits them.
use crest_rtos.Base.{
  ℕ, ◌≡◌, refl, subst, Bool, Option, none, some, List, [], ◌∷◌, Bool-cases, inl, inr, Ptr,
  if◌then◌else◌,
}
use crest_rtos.Sync.{Status, success, failure}
use crest_rtos.Mutex
use crest_rtos.Mutex.{same_task}
use crest_rtos.Demo.{
  Producer, wants_lock, waits_lock, holds_lock, has_pushed, has_unlocked, Consumer, wants_token,
  waits_token, has_token, waits_mutex, holds_mutex, has_popped, resume_producer, resume_consumer,
  signal_consumer, by_status, wait_forever, consumer_task, producer_task,
}

-- What a task has to do with the mutex.
pub data Claim : Type 0 where
  away blocked inside : Claim

abbrev pub producer_claim : Producer → Claim
producer_claim wants_lock = away
producer_claim waits_lock = blocked
producer_claim holds_lock = inside
producer_claim has_pushed = inside
producer_claim has_unlocked = away

abbrev pub consumer_claim : Consumer → Claim
consumer_claim wants_token = away
consumer_claim waits_token = away
consumer_claim has_token = away
consumer_claim waits_mutex = blocked
consumer_claim holds_mutex = inside
consumer_claim has_popped = inside

-- The mutex that fits the claims of the producer and the consumer, if one does.
abbrev pub fitting : Claim → Claim → Option Mutex.Spec.View
fitting away away = some (Mutex.Spec.view none [])
fitting inside away = some (Mutex.Spec.view (some producer_task) [])
fitting inside blocked = some (Mutex.Spec.view (some producer_task) (consumer_task ∷ []))
fitting away inside = some (Mutex.Spec.view (some consumer_task) [])
fitting blocked inside = some (Mutex.Spec.view (some consumer_task) (producer_task ∷ []))
fitting _ _ = none

abbrev pub Fits : Claim → Claim → Mutex.Spec.View → Type 0
Fits p c m = fitting p c ≡ some m

pub some_inj : (m m' : Mutex.Spec.View) → some m ≡ some m' → m ≡ m'
some_inj m m' e = cc

-- A statement about the mutex is one about the fitting mutex.
pub by_fitting :
    (P : Mutex.Spec.View → Type 0) (m m' : Mutex.Spec.View) → P m → some m ≡ some m' → P m'
by_fitting P m m' h e = subst P (some_inj m m' e) h

-- The claim of a task that goes on if it owns the mutex.
abbrev pub go_on : Claim → Bool → Claim
go_on blocked owns = if owns then inside else blocked
go_on c owns = c

pub consumer_claim-resumed :
    (o : Ptr) (c : Consumer)
    → consumer_claim (resume_consumer o c)
      ≡ go_on (consumer_claim c) (same_task o (some consumer_task))
consumer_claim-resumed o waits_mutex = elim (Bool-cases (same_task o (some consumer_task))) [
  | inl e ↦ rw e refl
  | inr e ↦ rw e refl
]
consumer_claim-resumed o wants_token = refl
consumer_claim-resumed o waits_token = refl
consumer_claim-resumed o has_token = refl
consumer_claim-resumed o holds_mutex = refl
consumer_claim-resumed o has_popped = refl

pub producer_claim-resumed :
    (o : Ptr) (p : Producer)
    → producer_claim (resume_producer o p)
      ≡ go_on (producer_claim p) (same_task o (some producer_task))
producer_claim-resumed o waits_lock = elim (Bool-cases (same_task o (some producer_task))) [
  | inl e ↦ rw e refl
  | inr e ↦ rw e refl
]
producer_claim-resumed o wants_lock = refl
producer_claim-resumed o holds_lock = refl
producer_claim-resumed o has_pushed = refl
producer_claim-resumed o has_unlocked = refl

pub consumer_claim-signalled :
    (ws : List ℕ) (c : Consumer) → consumer_claim (signal_consumer ws c) ≡ consumer_claim c
consumer_claim-signalled [] c = refl
consumer_claim-signalled (w ∷ ws) waits_token = refl
consumer_claim-signalled (w ∷ ws) waits_mutex = refl
consumer_claim-signalled (w ∷ ws) wants_token = refl
consumer_claim-signalled (w ∷ ws) has_token = refl
consumer_claim-signalled (w ∷ ws) holds_mutex = refl
consumer_claim-signalled (w ∷ ws) has_popped = refl

-- What a call of mutex_lock makes of a claim.
pub producer_claim-locked :
    (r : Status) → producer_claim (by_status r holds_lock waits_lock) ≡ by_status r inside blocked
producer_claim-locked success = refl
producer_claim-locked failure = refl

pub consumer_claim-locked :
    (r : Status) → consumer_claim (by_status r holds_mutex waits_mutex) ≡ by_status r inside blocked
consumer_claim-locked success = refl
consumer_claim-locked failure = refl

pub consumer_claim-taken : (r : Status) → consumer_claim (by_status r has_token waits_token) ≡ away
consumer_claim-taken success = refl
consumer_claim-taken failure = refl

abbrev pub locked : Mutex.Spec.View → ℕ → Mutex.Spec.View × Status
locked m t = Mutex.Spec.lock m wait_forever t

abbrev pub unlocked : Mutex.Spec.View → ℕ → Mutex.Spec.View
unlocked m t = Mutex.Spec.unlock m t

pub producer_locks :
    (c : Claim) (m : Mutex.Spec.View)
    → Fits away c m
    → Fits (by_status (locked m producer_task).1 inside blocked) c (locked m producer_task).0
producer_locks away m e =
    by_fitting
      (λ m.
        Fits (by_status (locked m producer_task).1 inside blocked) away (locked m producer_task).0)
      _ m refl e
producer_locks inside m e =
    by_fitting
      (λ m.
        Fits (by_status (locked m producer_task).1 inside blocked) inside
          (locked m producer_task).0)
      _ m refl e
producer_locks blocked m e = cc

pub producer_unlocks :
    (c : Claim) (m : Mutex.Spec.View)
    → Fits inside c m
    → Fits away
        (go_on c (same_task (unlocked m producer_task).owner (some consumer_task)))
        (unlocked m producer_task)
producer_unlocks away m e = by_fitting (λ m. Fits away away (unlocked m producer_task)) _ m refl e
producer_unlocks blocked m e =
    by_fitting
      (λ m.
        Fits away (go_on blocked (same_task (unlocked m producer_task).owner (some consumer_task)))
          (unlocked m producer_task))
      _ m refl e
producer_unlocks inside m e = cc

pub consumer_locks :
    (p : Claim) (m : Mutex.Spec.View)
    → Fits p away m
    → Fits p (by_status (locked m consumer_task).1 inside blocked) (locked m consumer_task).0
consumer_locks away m e =
    by_fitting
      (λ m.
        Fits away (by_status (locked m consumer_task).1 inside blocked) (locked m consumer_task).0)
      _ m refl e
consumer_locks inside m e =
    by_fitting
      (λ m.
        Fits inside (by_status (locked m consumer_task).1 inside blocked)
          (locked m consumer_task).0)
      _ m refl e
consumer_locks blocked m e = cc

pub consumer_unlocks :
    (p : Claim) (m : Mutex.Spec.View)
    → Fits p inside m
    → Fits
        (go_on p (same_task (unlocked m consumer_task).owner (some producer_task)))
        away
        (unlocked m consumer_task)
consumer_unlocks away m e = by_fitting (λ m. Fits away away (unlocked m consumer_task)) _ m refl e
consumer_unlocks blocked m e =
    by_fitting
      (λ m.
        Fits (go_on blocked (same_task (unlocked m consumer_task).owner (some producer_task))) away
          (unlocked m consumer_task))
      _ m refl e
consumer_unlocks inside m e = cc
