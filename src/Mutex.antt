-- ===== src/Mutex.antt =====
-- kernel/mutex.c: the mutex with an owner. The allocation of mutex_create is in Dispatch.antt.
pub mod Spec
pub mod Refine
pub mod Block
mod Tests
use crest_rtos.Base.{ℕ, Bool, true, false, none, some, ◌==◌, if◌then◌else◌, Ptr}
use crest_rtos.Kernel.{Kernel, set_mutex, trigger_pendsv, mutex_waiters}
use crest_rtos.Sched.{wake_task}
use crest_rtos.Sync.{
  Status, success, failure, Outcome, returned, blocked, fault, enqueue_front, mark_waiting,
  release_front,
}

-- `p == q`
abbrev pub same_task : Ptr → Ptr → Bool
same_task none none = true
same_task (some a) (some b) = a == b
same_task _ _ = false

abbrev pub set_owner : Kernel → ℕ → Ptr → Kernel
set_owner k p o = set_mutex k p (record (k.mutex p) { owner = o })

-- z_impl_mutex_lock_timeout, up to the point where it blocks
unfoldable pub lock_timeout : Kernel → ℕ → ℕ → Kernel × Outcome
unfolding mark_waiting enqueue_front
lock_timeout k p timeout =
    if same_task (k.mutex p).owner k.current_task
    then (k, returned success)
    else elim (k.mutex p).owner [
      | none ↦ (set_owner k p k.current_task, returned success)
      | some _ ↦ if timeout == 0 then (k, returned failure) else elim k.current_task [
        | none ↦ (k, fault)
        | some cur ↦ (
          trigger_pendsv (enqueue_front (mark_waiting k cur) (mutex_waiters p) cur timeout),
          blocked,
        )
      ]
    ]

-- z_impl_mutex_try_lock_timeout
unfoldable pub try_lock_timeout : Kernel → ℕ → ℕ → ℕ → Kernel × Status
unfolding enqueue_front
try_lock_timeout k p caller timeout =
    if same_task (k.mutex p).owner (some caller) then (k, success) else elim (k.mutex p).owner [
      | none ↦ (set_owner k p (some caller), success)
      | some _ ↦
          if timeout == 0
          then (k, failure)
          else (enqueue_front k (mutex_waiters p) caller timeout, failure)
    ]

-- The branches of the two unlock functions, at the head of the wait list: the first waiter becomes
-- the owner, or nobody does.
unfoldable pub hand_over_to : Kernel → ℕ → Ptr → Kernel
unfolding release_front wake_task
hand_over_to k p (some w) =
    wake_task (set_owner (release_front k (mutex_waiters p) w) p (some w)) w 0
hand_over_to k p none = trigger_pendsv (set_owner k p none)

unfoldable pub hand_over : Kernel → ℕ → Kernel
unfolding hand_over_to
hand_over k p = hand_over_to k p (k.mutex p).wait_list

-- z_impl_mutex_unlock
unfoldable pub unlock : Kernel → ℕ → Kernel
unfolding hand_over
unlock k p = if same_task (k.mutex p).owner k.current_task then hand_over k p else k

-- z_impl_mutex_unlock_for
unfoldable pub unlock_for : Kernel → ℕ → ℕ → Kernel
unfolding hand_over
unlock_for k p owner = if same_task (k.mutex p).owner (some owner) then hand_over k p else k
