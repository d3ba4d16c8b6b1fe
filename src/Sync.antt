-- ===== src/Sync.antt =====
-- What kernel/semaphore.c, kernel/mutex.c and kernel/queue.c have in common: their results, the
-- two ways into a wait list, and the way out of its front. A blocking call ends where it triggers
-- PendSV; what it does when its task runs again is an operation of its own, `resume`.
pub mod Waits
pub mod Wake
use crest_rtos.Base.{ℕ, false, none, some, ◌==◌, if◌then◌else◌}
use crest_rtos.Kernel.{
  wait_forever, minus_one, waiting, WaitRef, Tcb, Kernel, set_tcb, wait_head, set_wait_head,
}

-- The results 0 and -1.
pub data Status : Type 0 where
  success failure : Status

-- `(uint32_t)r`
abbrev pub code : Status → ℕ
code success = 0
code failure = minus_one

-- A call returns, or it has blocked the current task. `fault` is a use of a NULL current task.
pub data Outcome : Type 0 where
  returned : Status → Outcome
  blocked : Outcome
  fault : Outcome

-- The fields that a finite or an endless timeout sets.
abbrev pub set_timeout : Tcb → WaitRef → ℕ → Tcb
set_timeout c ref timeout =
    if timeout == wait_forever
    then record c { delay_ticks = 0; blocking_wait_list = none }
    else record c { delay_ticks = timeout; blocking_wait_list = some ref }

-- The task goes to the front of the wait list.
unfoldable pub enqueue_front : Kernel → WaitRef → ℕ → ℕ → Kernel
enqueue_front k ref t timeout =
    let c = record (k.tcb t) { wait_next = wait_head k ref } in
    set_tcb (set_wait_head k ref (some t)) t (set_timeout c ref timeout)

-- `cur->flags &= ~TASK_FLAG_TIMED_OUT; cur->state = TASK_WAITING;`
unfoldable pub mark_waiting : Kernel → ℕ → Kernel
mark_waiting k t = set_tcb k t (record (k.tcb t) { timed_out = false; state = waiting })

-- The first waiter leaves the wait list, and its timeout ends.
unfoldable pub release_front : Kernel → WaitRef → ℕ → Kernel
release_front k ref w =
    let k' = set_wait_head k ref (k.tcb w).wait_next in
    set_tcb k' w
      (record (k'.tcb w) { wait_next = none; delay_ticks = 0; blocking_wait_list = none })

-- The end of a blocking call: -1 after a timeout, whose flag is cleared, and else 0.
unfoldable pub resume : Kernel → ℕ → Kernel × Status
resume k t =
    if (k.tcb t).timed_out
    then (set_tcb k t (record (k.tcb t) { timed_out = false }), failure)
    else (k, success)
