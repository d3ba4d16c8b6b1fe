-- ===== src/Demo/Produce.antt =====
-- src/main.c, task_producer: its calls keep the balance.
use mathlib.Core.List.{append_assoc}
use crest_rtos.Base.{
  ◌≡◌, refl, sym, ap, ◌∙◌, arith, Bool, true, false, [], ◌∷◌, ◌++◌, length, length-append, ◌==◌,
  Bool-cases, inl, inr,
}
use crest_rtos.Kernel.{Item}
use crest_rtos.Sync.{Status, success, failure}
use crest_rtos.Mutex.{same_task}
use crest_rtos.Mutex
use crest_rtos.Demo.{
  Demo, Producer, wants_lock, waits_lock, holds_lock, has_pushed, has_unlocked, producer_at,
  by_status, wait_forever, consumer_task, producer_task,
}
use crest_rtos.Demo.Balance.{
  owes_give, owes_pop, token_waiters, is_starved, IsBalanced, resume_consumer-Resumed, starved_at,
  no_waiters,
}

owes_give-locked : (r : Status) → owes_give (by_status r holds_lock waits_lock) ≡ 0
owes_give-locked success = refl
owes_give-locked failure = refl

-- A push, by whether there is room.
push-IsBalanced :
    (d : Demo) (x : Item) (full : Bool)
    → (length d.queue.items == d.queue.capacity) ≡ full
    → d.producer ≡ holds_lock
    → IsBalanced d
    → IsBalanced (producer_at holds_lock x d)
push-IsBalanced d x true e at h = rw e (record {
  tokens = omega (arith, h.tokens, ap owes_give at);
  reports = omega (arith, h.reports);
  order = h.order;
  waiters = h.waiters;
  starved = h.starved;
})
push-IsBalanced d x false e at h = rw e (record {
  tokens = omega (arith, h.tokens, ap owes_give at, length-append d.queue.items (x ∷ []));
  reports = h.reports;
  order = sym (append_assoc d.received d.queue.items (x ∷ [])) ∙ ap (λ xs. xs ++ (x ∷ [])) h.order;
  waiters = h.waiters;
  starved = h.starved;
})

-- A give, by whether the consumer waits for it.
give-IsBalanced :
    (d : Demo) (x : Item)
    → d.producer ≡ has_unlocked
    → IsBalanced d
    → IsBalanced (producer_at has_unlocked x d)
give-IsBalanced d x at h = elim (Bool-cases (is_starved d.consumer)) [
  | inl s ↦
      let place = starved_at d.consumer s in
      let ws : d.sem.waiters ≡ consumer_task ∷ [] = h.waiters ∙ ap token_waiters place in
      rw (ws, place)
        (record {
          tokens = omega (arith, h.tokens, ap owes_give at, ap owes_pop place);
          reports = h.reports;
          order = h.order;
          waiters = refl;
          starved = λ e. cc;
        })
  | inr s ↦
      let ws : d.sem.waiters ≡ [] = h.waiters ∙ no_waiters d.consumer s in
      rw ws (record {
        tokens = omega (arith, h.tokens, ap owes_give at);
        reports = h.reports;
        order = h.order;
        waiters = sym (no_waiters d.consumer s);
        starved = λ e. cc;
      })
]

pub producer_at-IsBalanced :
    (p : Producer) (x : Item) (d : Demo)
    → d.producer ≡ p
    → IsBalanced d
    → IsBalanced (producer_at p x d)
producer_at-IsBalanced wants_lock x d at h = record {
  tokens = omega (
    arith,
    h.tokens,
    ap owes_give at,
    owes_give-locked (Mutex.Spec.lock d.mutex wait_forever producer_task).1,
  );
  reports = h.reports;
  order = h.order;
  waiters = h.waiters;
  starved = h.starved;
}
producer_at-IsBalanced waits_lock x d at h = h
producer_at-IsBalanced holds_lock x d at h =
    push-IsBalanced d x (length d.queue.items == d.queue.capacity) refl at h
producer_at-IsBalanced has_pushed x d at h =
    let same = resume_consumer-Resumed (Mutex.Spec.unlock d.mutex producer_task).owner d.consumer in
    record {
      tokens = omega (arith, h.tokens, ap owes_give at, same.owes);
      reports = h.reports;
      order = h.order;
      waiters = h.waiters ∙ sym same.waits;
      starved = λ e. h.starved (sym same.starves ∙ e);
    }
producer_at-IsBalanced has_unlocked x d at h = give-IsBalanced d x at h
