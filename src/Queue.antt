-- ===== src/Queue.antt =====
-- kernel/queue.c: the blocking ring buffer of fixed-size items. queue_init and the allocation of
-- queue_create are in Dispatch.antt.
pub mod Spec
pub mod Fifo
pub mod Refine
mod Tests
use crest_rtos.Base.{ℕ, zero, suc, ◌+◌, ◌%◌, ◌^◌, Option, none, some, ◌==◌, if◌then◌else◌, update}
use crest_rtos.Kernel.{
  max_tasks, WaitRef, send_waiters, recv_waiters, Item, Queue, Kernel, set_tcb, set_queue,
  trigger_pendsv, wait_head, set_wait_head,
}
use crest_rtos.Sched.{wake_task}
use crest_rtos.Sync.{
  success, failure, Outcome, returned, blocked, fault, set_timeout, mark_waiting, release_front,
}

-- `(i + 1) % slots`, the addition on uint32_t.
abbrev pub next_index : Queue → ℕ → ℕ
next_index q i = (i + 1) % 2 ^ 32 % q.slots

-- The walk to the last waiter, and the write that follows it.
link_last : ℕ → Kernel → ℕ → ℕ → Option Kernel
link_last zero k t tail = none
link_last (suc fuel) k t tail = elim (k.tcb tail).wait_next [
  | none ↦ some (set_tcb k tail (record (k.tcb tail) { wait_next = some t }))
  | some c ↦ link_last fuel k t c
]

-- `if (head == NULL) head = cur; else …`
unfoldable pub append_waiter : Kernel → WaitRef → ℕ → Option Kernel
unfolding link_last
append_waiter k ref t = elim (wait_head k ref) [
  | none ↦ some (set_wait_head k ref (some t))
  | some first ↦ link_last max_tasks k t first
]

-- The task goes to the end of the wait list. `none` only on a cyclic list.
unfoldable pub enqueue_back : Kernel → WaitRef → ℕ → ℕ → Option Kernel
unfolding append_waiter
enqueue_back k ref t timeout =
    let k' = set_tcb k t (record (k.tcb t) { wait_next = none }) in
    elim (append_waiter k' ref t) [
      | none ↦ none
      | some k'' ↦ some (set_tcb k'' t (set_timeout (k''.tcb t) ref timeout))
    ]

-- The wake-up of the first task of a wait list, if there is one.
unfoldable pub wake_first : Kernel → WaitRef → Kernel
unfolding release_front wake_task
wake_first k ref = elim (wait_head k ref) [
  | some w ↦ wake_task (release_front k ref w) w 0
  | none ↦ k
]

-- The current task blocks on the wait list.
abbrev pub block_current : Kernel → WaitRef → ℕ → Option (Kernel × Outcome)
block_current k ref timeout = elim k.current_task [
  | none ↦ some (k, fault)
  | some cur ↦ elim (enqueue_back (mark_waiting k cur) ref cur timeout) [
    | none ↦ none
    | some k' ↦ some (trigger_pendsv k', blocked)
  ]
]

-- The copy of an item into the ring, at a queue that has room.
unfoldable pub store_item : Kernel → ℕ → Item → Kernel
store_item k p item =
    let q = k.queue p in
    set_queue k p (record q { buffer = update q.buffer q.tail item; tail = next_index q q.tail })

-- z_impl_queue_push: one round of its loop. A task that was woken with its flag clear runs the
-- round again with `timeout_ms` 0.
unfoldable pub push : Kernel → ℕ → Item → ℕ → Option (Kernel × Outcome)
unfolding store_item wake_first enqueue_back mark_waiting
push k p item timeout =
    if next_index (k.queue p) (k.queue p).tail == (k.queue p).head
    then (if timeout == 0
        then some (k, returned failure)
        else block_current k (send_waiters p) timeout)
    else some (wake_first (store_item k p item) (recv_waiters p), returned success)

-- The copy of the oldest item out of the ring.
unfoldable pub drop_item : Kernel → ℕ → Kernel
drop_item k p = let q = k.queue p in set_queue k p (record q { head = next_index q q.head })

-- z_impl_queue_pop: one round of its loop; the item that is copied out stands beside the outcome.
unfoldable pub pop : Kernel → ℕ → ℕ → Option (Kernel × Outcome × Option Item)
unfolding drop_item wake_first enqueue_back mark_waiting
pop k p timeout =
    if (k.queue p).head == (k.queue p).tail
    then (if timeout == 0
        then some (k, returned failure, none)
        else elim (block_current k (recv_waiters p) timeout) [
          | none ↦ none
          | some (k', o) ↦ some (k', o, none)
        ])
    else some (
      wake_first (drop_item k p) (send_waiters p),
      returned success,
      some ((k.queue p).buffer (k.queue p).head),
    )

-- What follows the wake-up in both loops: after a timeout -1, and the flag stays set; else the
-- round again with no timeout left.
unfoldable pub push_resume : Kernel → ℕ → ℕ → Item → Option (Kernel × Outcome)
unfolding push
push_resume k t p item = if (k.tcb t).timed_out then some (k, returned failure) else push k p item 0

unfoldable pub pop_resume : Kernel → ℕ → ℕ → Option (Kernel × Outcome × Option Item)
unfolding pop
pop_resume k t p = if (k.tcb t).timed_out then some (k, returned failure, none) else pop k p 0
