-- ===== src/Sem.antt =====
-- kernel/semaphore.c: the counting semaphore. The allocation of sem_create is in Dispatch.antt.
pub mod Spec
pub mod Refine
pub mod Block
mod Tests
use crest_rtos.Base.{ℕ, ◌+◌, ◌-◌, ◌%◌, ◌^◌, Bool, ◌&&◌, none, some, ltb, ◌==◌, if◌then◌else◌}
use crest_rtos.Kernel.{Kernel, set_sem, trigger_pendsv, sem_waiters}
use crest_rtos.Sched.{wake_task}
use crest_rtos.Sync.{
  Status, success, failure, Outcome, returned, blocked, fault, enqueue_front, mark_waiting,
  release_front,
}

-- `s->count > 0`; the count is an int, as the 32 bits of its two's complement.
abbrev pub is_positive : ℕ → Bool
is_positive n = ltb 0 n && ltb n (2 ^ 31)

-- `s->count` set to `n`
abbrev pub set_count : Kernel → ℕ → ℕ → Kernel
set_count k p n = set_sem k p (record (k.sem p) { count = n })

-- z_impl_sem_take_timeout, up to the point where it blocks
unfoldable pub take_timeout : Kernel → ℕ → ℕ → Kernel × Outcome
unfolding mark_waiting enqueue_front
take_timeout k p timeout =
    if is_positive (k.sem p).count
    then (set_count k p ((k.sem p).count - 1), returned success)
    else if timeout == 0
    then (k, returned failure)
    else elim k.current_task [
      | none ↦ (k, fault)
      | some cur ↦
          (trigger_pendsv (enqueue_front (mark_waiting k cur) (sem_waiters p) cur timeout), blocked)
    ]

-- z_impl_sem_try_take_timeout
unfoldable pub try_take_timeout : Kernel → ℕ → ℕ → ℕ → Kernel × Status
unfolding enqueue_front
try_take_timeout k p caller timeout =
    if is_positive (k.sem p).count
    then (set_count k p ((k.sem p).count - 1), success)
    else if timeout == 0
    then (k, failure)
    else (enqueue_front k (sem_waiters p) caller timeout, failure)

-- z_impl_sem_give; `s->count++` at INT_MAX, which C leaves undefined, wraps to INT_MIN as the add
-- instruction does.
unfoldable pub give : Kernel → ℕ → Kernel
unfolding release_front wake_task
give k p = elim (k.sem p).wait_list [
  | some waiter ↦ wake_task (release_front k (sem_waiters p) waiter) waiter 0
  | none ↦ set_count k p (((k.sem p).count + 1) % 2 ^ 32)
]
