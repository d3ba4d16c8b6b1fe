-- ===== src/Demo/Balance.antt =====
-- src/main.c: the balance that every call of task_producer and task_consumer keeps.
use crest_rtos.Base.{
  ℕ, ◌+◌, ◌≤◌, ◌≡◌, refl, Bool, true, false, some, List, [], ◌∷◌, ◌++◌, length, Bool-cases, inl,
  inr, Ptr,
}
use crest_rtos.Mutex.{same_task}
use crest_rtos.Demo.{
  Demo, Producer, wants_lock, waits_lock, holds_lock, has_pushed, has_unlocked, Consumer,
  wants_token, waits_token, has_token, waits_mutex, holds_mutex, has_popped, resume_producer,
  resume_consumer, consumer_task, producer_task,
}

-- The producer has tried to push and not yet given the token for it.
abbrev pub owes_give : Producer → ℕ
owes_give has_pushed = 1
owes_give has_unlocked = 1
owes_give _ = 0

-- The consumer has a token and not yet tried to pop for it.
abbrev pub owes_pop : Consumer → ℕ
owes_pop has_token = 1
owes_pop waits_mutex = 1
owes_pop holds_mutex = 1
owes_pop _ = 0

abbrev pub token_waiters : Consumer → List ℕ
token_waiters waits_token = consumer_task ∷ []
token_waiters _ = []

abbrev pub is_starved : Consumer → Bool
is_starved waits_token = true
is_starved _ = false

pub record IsBalanced (d : Demo) : Type 0 where
  pub tokens :
      d.sem.count + owes_pop d.consumer + owes_give d.producer + d.missed
      ≡ length d.queue.items + d.dropped
  pub reports : d.missed ≤ d.dropped
  pub order : d.received ++ d.queue.items ≡ d.sent
  pub waiters : d.sem.waiters ≡ token_waiters d.consumer
  pub starved : is_starved d.consumer ≡ true → d.sem.count ≡ 0

pub owes_give-resumed : (o : Ptr) (p : Producer) → owes_give (resume_producer o p) ≡ owes_give p
owes_give-resumed o waits_lock = elim (Bool-cases (same_task o (some producer_task))) [
  | inl e ↦ rw e refl
  | inr e ↦ rw e refl
]
owes_give-resumed o wants_lock = refl
owes_give-resumed o holds_lock = refl
owes_give-resumed o has_pushed = refl
owes_give-resumed o has_unlocked = refl

-- What a consumer that goes on with the mutex has in common with itself before.
pub record Resumed (c c' : Consumer) : Type 0 where
  pub owes : owes_pop c' ≡ owes_pop c
  pub waits : token_waiters c' ≡ token_waiters c
  pub starves : is_starved c' ≡ is_starved c

pub unchanged : (c : Consumer) → Resumed c c
unchanged c = record { owes = refl; waits = refl; starves = refl }

pub resume_consumer-Resumed : (o : Ptr) (c : Consumer) → Resumed c (resume_consumer o c)
resume_consumer-Resumed o waits_mutex = elim (Bool-cases (same_task o (some consumer_task))) [
  | inl e ↦ rw e (record { owes = refl; waits = refl; starves = refl })
  | inr e ↦ rw e (unchanged waits_mutex)
]
resume_consumer-Resumed o wants_token = unchanged wants_token
resume_consumer-Resumed o waits_token = unchanged waits_token
resume_consumer-Resumed o has_token = unchanged has_token
resume_consumer-Resumed o holds_mutex = unchanged holds_mutex
resume_consumer-Resumed o has_popped = unchanged has_popped

pub starved_at : (c : Consumer) → is_starved c ≡ true → c ≡ waits_token
starved_at waits_token e = refl
starved_at wants_token e = cc
starved_at has_token e = cc
starved_at waits_mutex e = cc
starved_at holds_mutex e = cc
starved_at has_popped e = cc

pub no_waiters : (c : Consumer) → is_starved c ≡ false → token_waiters c ≡ []
no_waiters waits_token e = cc
no_waiters wants_token e = refl
no_waiters has_token e = refl
no_waiters waits_mutex e = refl
no_waiters holds_mutex e = refl
no_waiters has_popped e = refl
