-- ===== src/Demo/Tests.antt =====
-- The demo's loops on concrete runs and messages.
use crest_rtos.Base.{
  ℕ, ◌≡◌, ◌≢◌, ◌≤◌, refl, arith, List, [], ◌∷◌, ◌++◌, length, some, none, Option, Ptr, ltb,
  if◌then◌else◌, false, has,
}
use crest_rtos.Kernel.{Item}
use crest_rtos.Format.{unsigned_text}
use crest_rtos.Format.Spec.{take}
use crest_rtos.Console.{codes, until_nul}
use crest_rtos.Demo.{
  Demo, Run, begun, produced, consumed, waits_lock, waits_token, waits_mutex, producer_at,
  consumer_at, start, sent_item, reported,
}
use crest_rtos.Demo.Balance.{owes_give}
use crest_rtos.Demo.Handshake.{handshake_lem}
use crest_rtos.Demo.Claims.{producer_claim, consumer_claim, inside}
use crest_rtos.Demo.Locks.{exclusion_lem}
use crest_rtos.Samples.{blank}
use crest_rtos.Alloc.{Heap}
use crest_rtos.Task.{Machine}
use crest_rtos.Demo.Main.{Functions, main}
use crest_rtos.Demo.Started.{IsUntouched, HasCreated, HasStarted, main_lem}
use crest_rtos.Demo.Texts.{drop}
use crest_rtos.Demo.Messages.{report_lem}

abbrev producer_next : Item → Demo → Demo
producer_next x d = producer_at d.producer x d

abbrev consumer_next : Demo → Demo
consumer_next d = consumer_at d.consumer d

-- The consumer waits for a token; the producer locks and pushes one item.
abbrev one_pushed : Demo
one_pushed = producer_next (7 ∷ []) (producer_next (7 ∷ []) (consumer_next (start 32)))

one_pushed-Run : Run 32 one_pushed
one_pushed-Run =
    produced (producer_next (7 ∷ []) (consumer_next (start 32))) (7 ∷ [])
      (produced (consumer_next (start 32)) (7 ∷ []) (consumed (start 32) begun))

handshake_lem_example :
    (one_pushed.received ++ one_pushed.queue.items ≡ one_pushed.sent)
    × (one_pushed.missed ≤ one_pushed.dropped)
    × (one_pushed.consumer ≡ waits_token
        → owes_give one_pushed.producer ≡ 0
        → one_pushed.queue.items ≡ [])
handshake_lem_example = handshake_lem 32 one_pushed one_pushed-Run

exclusion_lem_example :
    (producer_claim one_pushed.producer ≡ inside → consumer_claim one_pushed.consumer ≢ inside)
    × (one_pushed.producer ≡ waits_lock → consumer_claim one_pushed.consumer ≡ inside)
    × (one_pushed.consumer ≡ waits_mutex → producer_claim one_pushed.producer ≡ inside)
exclusion_lem_example = exclusion_lem 32 one_pushed one_pushed-Run

-- The token arrives and the item is received.
one_received :
    (consumer_next (consumer_next (producer_next [] (producer_next [] one_pushed)))).received
    ≡ (7 ∷ []) ∷ []
one_received = refl

abbrev zeros : ℕ → List ℕ
zeros crest_rtos.Base.zero = []
zeros (crest_rtos.Base.suc n) = 0 ∷ zeros n

-- The message 1234 into a buffer of zeros is reported as "item-123".
report_lem_example :
    (item : Item) × (sent_item 1234 (zeros 32) ≡ some item)
    × (reported item (zeros 32) ≡ (
        if ltb 1234 100
        then some (codes "item-" ++ unsigned_text 1234 10 false)
        else if has 0 (drop 8 (zeros 32))
        then some
            (take 8 (codes "item-" ++ unsigned_text 1234 10 false) ++ until_nul (drop 8 (zeros 32)))
        else none))
report_lem_example = report_lem 1234 (zeros 32) (zeros 32) (omega arith) refl refl

-- main on a kernel heap of 32 KB.
abbrev memory : Heap
memory = record {
  start = 0x2000_8000;
  limit = 0x2001_0000;
  free_list = 0;
  heap_inited = false;
  size = λ _. 0;
  next = λ _. 0;
}

abbrev powered : Machine
powered = record { kernel = blank; heap = memory }

abbrev functions : Functions
functions = record {
  kernel_task_fn = 0x0800_4101;
  task_producer = 0x0800_4201;
  task_consumer = 0x0800_4301;
  task_mpu_probe = 0x0800_4401;
  idle_task = 0x0800_4501;
}

memory-IsUntouched : IsUntouched memory 0x8000
memory-IsUntouched = record {
  unused = refl;
  low = omega arith;
  high = omega arith;
  positive = omega arith;
  fit = (omega arith, refl);
  size_of = refl;
}

main_lem_example :
    (s₁ : Machine) × (s' : Machine) × HasCreated functions powered s₁
    × (main functions powered ≡ some (s', some 0))
    × HasStarted s₁ s'
main_lem_example = main_lem functions powered 0x8000 memory-IsUntouched (omega arith)

-- The task that main starts: its slot, its priority and its function.
abbrev started_task : Option (Machine × Ptr) → Option (ℕ × ℕ × ℕ)
started_task (some (s, some t)) =
    some (t, (s.kernel.tcb t).priority, (s.kernel.tcb t).task_function)
started_task _ = none

-- It is the kernel task.
main_starts : started_task (main functions powered) ≡ some (0, 0, 0x0800_4101)
unfolding main
main_starts = refl
