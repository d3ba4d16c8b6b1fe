-- ===== src/Demo/Handshake.antt =====
-- src/main.c, the loops of task_producer and task_consumer: what their runs add up to.
use crest_rtos.Base.{ℕ, ◌≤◌, ◌≡◌, refl, ap, arith, List, [], ◌∷◌, ◌++◌, length}
use crest_rtos.Kernel.{Item}
use crest_rtos.Demo.{Demo, Run, begun, produced, consumed, waits_token}
use crest_rtos.Demo.Balance.{owes_give, owes_pop, is_starved, IsBalanced}
use crest_rtos.Demo.Produce.{producer_at-IsBalanced}
use crest_rtos.Demo.Consume.{consumer_at-IsBalanced}

Run-IsBalanced : (size : ℕ) (d : Demo) → Run size d → IsBalanced d
Run-IsBalanced size _ begun = record {
  tokens = refl;
  reports = omega arith;
  order = refl;
  waiters = refl;
  starved = λ s. refl;
}
Run-IsBalanced size _ (produced d x r) =
    producer_at-IsBalanced d.producer x d refl (Run-IsBalanced size d r)
Run-IsBalanced size _ (consumed d r) =
    consumer_at-IsBalanced d.consumer d refl (Run-IsBalanced size d r)

empty_of_length : (xs : List Item) → length xs ≡ 0 → xs ≡ []
empty_of_length [] e = refl
empty_of_length (x ∷ xs) e = absurd (omega arith)

-- In every run of the two loops on a queue of any size: the items that queue_pop gave and those
-- in the queue are the items that queue_push took, in their order; "queue empty after signal" is
-- reported at most as often as "queue full, dropping"; and while the consumer waits for a token and
-- the producer is not between its push and its sem_give, the queue is empty.
pub handshake_lem :
    (size : ℕ) (d : Demo)
    → Run size d
    → (d.received ++ d.queue.items ≡ d.sent)
      × (d.missed ≤ d.dropped)
      × (d.consumer ≡ waits_token → owes_give d.producer ≡ 0 → d.queue.items ≡ [])
handshake_lem size d r =
    let h = Run-IsBalanced size d r in
    (
      h.order,
      h.reports,
      λ at done.
          empty_of_length d.queue.items (
            omega (arith, h.tokens, h.reports, ap owes_pop at, h.starved (ap is_starved at), done)),
    )
