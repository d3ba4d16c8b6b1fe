-- ===== src/Demo.antt =====
-- src/main.c: the demo of the repository, its producer and consumer on the semaphore, the mutex and
-- the queue that they share. The primitives are taken by their specifications, which kernel/ meets.
mod Balance
mod Produce
mod Consume
mod Handshake
mod Claims
mod Texts
mod Messages
pub mod Main
mod Tasks
mod Started
mod Tests
mod Locks
use crest_rtos.Base.{
  ℕ, ◌+◌, ◌^◌, ◌-◌, Option, none, some, List, [], ◌∷◌, ◌++◌, Ptr, has, if◌then◌else◌, ◌>>=◌,
}
use crest_rtos.Kernel.{Item}
use crest_rtos.Format.{vsnprintf}
use crest_rtos.Format.Spec.{take}
use crest_rtos.Console.{codes, until_nul}
use crest_rtos.Task.{overlay}
use crest_rtos.Sync.{Status, success, failure}
use crest_rtos.Sem
use crest_rtos.Mutex.{same_task}
use crest_rtos.Mutex
use crest_rtos.Queue

-- The item size and the length that task_producer gives to queue_create.
abbrev pub item_size : ℕ
item_size = 8

abbrev pub queue_length : ℕ
queue_length = 32

-- The item that queue_push takes: the first bytes of `msg`, behind snprintf with the number `i`.
unfoldable pub sent_item : ℕ → List ℕ → Option Item
unfolding vsnprintf
sent_item i msg = do
  (written, length) ← vsnprintf (λ p. []) 32 (codes "item-%d") (i ∷ [])
  some (take item_size (overlay written msg))

-- The text in some bytes of memory; without a NUL among them the source reads on behind them, where
-- the text has no defined end.
abbrev pub text_in : List ℕ → Option (List ℕ)
text_in bytes = if has 0 bytes then some (until_nul bytes) else none

-- What task_consumer reports of an item: the text in `buf`, which keeps its other bytes.
abbrev pub reported : Item → List ℕ → Option (List ℕ)
reported item buf = text_in (overlay item buf)

-- CREST_WAIT_FOREVER
abbrev pub wait_forever : ℕ
wait_forever = 2 ^ 32 - 1

-- The places of task_producer's loop: before mutex_lock, blocked in it, before queue_push, before
-- mutex_unlock, before sem_give.
pub data Producer : Type 0 where
  wants_lock waits_lock holds_lock has_pushed has_unlocked : Producer

-- The places of task_consumer's loop: before sem_take, blocked in it, before mutex_lock, blocked in
-- it, before queue_pop, before mutex_unlock.
pub data Consumer : Type 0 where
  wants_token waits_token has_token waits_mutex holds_mutex has_popped : Consumer

-- The shared objects and the two tasks; the items that queue_push took and queue_pop gave, and how
-- often "queue full, dropping" and "queue empty after signal" were reported.
pub record Demo : Type 0 where
  pub sem : Sem.Spec.View
  pub mutex : Mutex.Spec.View
  pub queue : Queue.Spec.View
  pub producer : Producer
  pub consumer : Consumer
  pub sent : List Item
  pub received : List Item
  pub dropped : ℕ
  pub missed : ℕ

abbrev pub by_status {ℓ} : {A : Type ℓ} → Status → A → A → A
by_status success a b = a
by_status failure a b = b

-- The tasks of the two loops.
abbrev pub producer_task : ℕ
producer_task = 1

abbrev pub consumer_task : ℕ
consumer_task = 2

-- A blocked task goes on when it has become the owner, or has been given the token.
abbrev pub resume_consumer : Ptr → Consumer → Consumer
resume_consumer o waits_mutex =
    if same_task o (some consumer_task) then holds_mutex else waits_mutex
resume_consumer o c = c

abbrev pub resume_producer : Ptr → Producer → Producer
resume_producer o waits_lock = if same_task o (some producer_task) then holds_lock else waits_lock
resume_producer o p = p

abbrev pub signal_consumer : List ℕ → Consumer → Consumer
signal_consumer [] c = c
signal_consumer (w ∷ ws) waits_token = has_token
signal_consumer (w ∷ ws) c = c

-- The next call of task_producer, which pushes the message `x`.
abbrev pub producer_at : Producer → Item → Demo → Demo
producer_at wants_lock x d =
    let (m, r) = Mutex.Spec.lock d.mutex wait_forever producer_task in
    record d { mutex = m; producer = by_status r holds_lock waits_lock }
producer_at waits_lock x d = d
producer_at holds_lock x d =
    let (q, r) = Queue.Spec.push d.queue x in
    record d {
      queue = q;
      producer = has_pushed;
      sent = by_status r (d.sent ++ (x ∷ [])) d.sent;
      dropped = by_status r d.dropped (d.dropped + 1);
    }
producer_at has_pushed x d =
    let m = Mutex.Spec.unlock d.mutex producer_task in
    record d { mutex = m; producer = has_unlocked; consumer = resume_consumer m.owner d.consumer }
producer_at has_unlocked x d = record d {
  sem = Sem.Spec.give d.sem;
  producer = wants_lock;
  consumer = signal_consumer d.sem.waiters d.consumer;
}

abbrev pub list_of : Option Item → List Item
list_of none = []
list_of (some x) = x ∷ []

-- The next call of task_consumer.
abbrev pub consumer_at : Consumer → Demo → Demo
consumer_at wants_token d =
    let (s, r) = Sem.Spec.take d.sem wait_forever consumer_task in
    record d { sem = s; consumer = by_status r has_token waits_token }
consumer_at waits_token d = d
consumer_at has_token d =
    let (m, r) = Mutex.Spec.lock d.mutex wait_forever consumer_task in
    record d { mutex = m; consumer = by_status r holds_mutex waits_mutex }
consumer_at waits_mutex d = d
consumer_at holds_mutex d =
    let (q, r, x) = Queue.Spec.pop d.queue in
    record d {
      queue = q;
      consumer = has_popped;
      received = d.received ++ list_of x;
      missed = by_status r d.missed (d.missed + 1);
    }
consumer_at has_popped d =
    let m = Mutex.Spec.unlock d.mutex consumer_task in
    record d { mutex = m; consumer = wants_token; producer = resume_producer m.owner d.producer }

-- The objects as task_producer creates them, with room for `size` items.
abbrev pub start : ℕ → Demo
start size = record {
  sem = Sem.Spec.view 0 [];
  mutex = Mutex.Spec.view none [];
  queue = Queue.Spec.view size [];
  producer = wants_lock;
  consumer = wants_token;
  sent = [];
  received = [];
  dropped = 0;
  missed = 0;
}

-- The runs: the two tasks make their calls in any order.
pub data Run (size : ℕ) : Demo → Type 0 where
  begun : Run size (start size)
  produced : (d : Demo) (x : Item) → Run size d → Run size (producer_at d.producer x d)
  consumed : (d : Demo) → Run size d → Run size (consumer_at d.consumer d)
