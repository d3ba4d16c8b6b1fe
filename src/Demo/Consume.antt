-- ===== src/Demo/Consume.antt =====
-- src/main.c, task_consumer: its calls keep the balance.
use mathlib.Core.List.{append_assoc, append-nil}
use crest_rtos.Base.{ℕ, zero, suc, ◌≡◌, refl, sym, ap, ◌∙◌, arith, List, [], ◌∷◌, ◌++◌, length}
use crest_rtos.Kernel.{Item}
use crest_rtos.Sync.{Status, success, failure}
use crest_rtos.Mutex.{same_task}
use crest_rtos.Mutex
use crest_rtos.Demo.{
  Demo, Consumer, wants_token, waits_token, has_token, waits_mutex, holds_mutex, has_popped,
  consumer_at, by_status, wait_forever, consumer_task,
}
use crest_rtos.Demo.Balance.{
  owes_pop, token_waiters, is_starved, IsBalanced, owes_give-resumed, Resumed,
}

-- A take, by the count.
take-IsBalanced :
    (n : ℕ) (d : Demo)
    → d.sem.count ≡ n
    → d.consumer ≡ wants_token
    → IsBalanced d
    → IsBalanced (consumer_at wants_token d)
take-IsBalanced zero d e at h = rw e (record {
  tokens = omega (arith, h.tokens, ap owes_pop at, e);
  reports = h.reports;
  order = h.order;
  waiters = ap (λ ws. consumer_task ∷ ws) (h.waiters ∙ ap token_waiters at);
  starved = λ s. refl;
})
take-IsBalanced (suc n) d e at h = rw e (record {
  tokens = omega (arith, h.tokens, ap owes_pop at, e);
  reports = h.reports;
  order = h.order;
  waiters = h.waiters ∙ ap token_waiters at;
  starved = λ s. cc;
})

locked-Resumed : (r : Status) → Resumed has_token (by_status r holds_mutex waits_mutex)
locked-Resumed success = record { owes = refl; waits = refl; starves = refl }
locked-Resumed failure = record { owes = refl; waits = refl; starves = refl }

-- A pop, by the items that are there.
pop-IsBalanced :
    (xs : List Item) (d : Demo)
    → d.queue.items ≡ xs
    → d.consumer ≡ holds_mutex
    → IsBalanced d
    → IsBalanced (consumer_at holds_mutex d)
pop-IsBalanced [] d e at h =
    let none_left : length d.queue.items ≡ 0 = ap length e in
    rw e (record {
      tokens = omega (arith, h.tokens, ap owes_pop at, none_left);
      reports = omega (arith, h.tokens, ap owes_pop at, none_left);
      order =
          ap (λ ys. ys ++ []) (append-nil d.received)
          ∙ ap (λ ys. d.received ++ ys) (sym e)
          ∙ h.order;
      waiters = h.waiters ∙ ap token_waiters at;
      starved = λ s. cc;
    })
pop-IsBalanced (x ∷ xs) d e at h =
    let one_less : length d.queue.items ≡ suc (length xs) = ap length e in
    rw e (record {
      tokens = omega (arith, h.tokens, ap owes_pop at, one_less);
      reports = h.reports;
      order = append_assoc d.received (x ∷ []) xs ∙ ap (λ ys. d.received ++ ys) (sym e) ∙ h.order;
      waiters = h.waiters ∙ ap token_waiters at;
      starved = λ s. cc;
    })

pub consumer_at-IsBalanced :
    (c : Consumer) (d : Demo) → d.consumer ≡ c → IsBalanced d → IsBalanced (consumer_at c d)
consumer_at-IsBalanced wants_token d at h = take-IsBalanced d.sem.count d refl at h
consumer_at-IsBalanced waits_token d at h = h
consumer_at-IsBalanced has_token d at h =
    let same = locked-Resumed (Mutex.Spec.lock d.mutex wait_forever consumer_task).1 in
    record {
      tokens = omega (arith, h.tokens, ap owes_pop at, same.owes);
      reports = h.reports;
      order = h.order;
      waiters = h.waiters ∙ ap token_waiters at ∙ sym same.waits;
      starved = λ e. h.starved (ap is_starved at ∙ sym same.starves ∙ e);
    }
consumer_at-IsBalanced waits_mutex d at h = h
consumer_at-IsBalanced holds_mutex d at h = pop-IsBalanced d.queue.items d refl at h
consumer_at-IsBalanced has_popped d at h = record {
  tokens = omega (
    arith,
    h.tokens,
    ap owes_pop at,
    owes_give-resumed (Mutex.Spec.unlock d.mutex consumer_task).owner d.producer,
  );
  reports = h.reports;
  order = h.order;
  waiters = h.waiters ∙ ap token_waiters at;
  starved = λ s. cc;
}
