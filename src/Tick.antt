-- ===== src/Tick.antt =====
-- kernel/sched.c, scheduler_tick and sync_tick_all: sleeping tasks and timeouts, once a millisecond.
-- A loop over a linked list runs on fuel, one round for each task of the pool and one to see the
-- end; the result is `none` only if the fuel runs out, which happens on a cyclic list alone.
pub mod Splice
pub mod Timeout
pub mod Ages
pub mod Pass
mod Tests
use crest_rtos.Base.{
  true, ℕ, zero, suc, ◌+◌, ◌-◌, ◌%◌, ◌^◌, not, ◌&&◌, Option, none, some, ltb, ◌==◌, if◌then◌else◌,
  Ptr,
}
use crest_rtos.Kernel.{
  max_task_priorities, max_tasks, minus_one, ready, is_waiting, WaitRef, has_ref, Tcb, Kernel,
  set_tcb, wait_head, set_wait_head,
}
use crest_rtos.Sched.{wake_task}

-- `for (t = p; t; t = t->next) body(t)`
unfoldable pub walk : ℕ → (ℕ → Kernel → Option Kernel) → Ptr → Kernel → Option Kernel
walk zero body p k = none
walk (suc fuel) body none k = some k
walk (suc fuel) body (some t) k = elim (body t k) [
  | none ↦ none
  | some k' ↦ walk fuel body (k'.tcb t).next k'
]

-- The loop over the priority lists from `pr` on.
unfoldable pub walk_lists : ℕ → (ℕ → Kernel → Option Kernel) → ℕ → Kernel → Option Kernel
unfolding walk
walk_lists zero body pr k = some k
walk_lists (suc rounds) body pr k = elim (walk (max_tasks + 1) body (k.task_list pr) k) [
  | none ↦ none
  | some k' ↦ walk_lists rounds body (pr + 1) k'
]

-- A sleeper that is on no primitive's wait list, one tick later.
unfoldable pub age : Tcb → Tcb
age c =
    if is_waiting c.state && (ltb 0 c.delay_ticks && not (has_ref c.blocking_wait_list))
    then record c {
      delay_ticks = c.delay_ticks - 1;
      state = if c.delay_ticks - 1 == 0 then ready else c.state;
    }
    else c

-- The body of the loop of scheduler_tick.
unfoldable pub age_task : ℕ → Kernel → Option Kernel
unfolding age
age_task t k = some (set_tcb k t (age (k.tcb t)))

-- `prev->wait_next = q`, or `*head = q` at the first node.
abbrev pub set_wait_link : Kernel → WaitRef → Ptr → Ptr → Kernel
set_wait_link k ref none q = set_wait_head k ref q
set_wait_link k ref (some prev) q = set_tcb k prev (record (k.tcb prev) { wait_next = q })

-- The search of sync_tick_all for the task in the wait list, and the splice.
unfoldable pub splice : ℕ → Kernel → WaitRef → ℕ → Ptr → Ptr → Option Kernel
splice zero k ref t prev cur = none
splice (suc fuel) k ref t prev none = some k
splice (suc fuel) k ref t prev (some c) =
    let k' = set_wait_link k ref prev (k.tcb t).wait_next in
    let found = set_tcb k' t (record (k'.tcb t) { wait_next = none }) in
    let rest = splice fuel k ref t (some c) (k.tcb c).wait_next in
    if c == t then some found else rest

-- The end of a timeout: the task leaves its wait list and is woken with -1.
unfoldable pub expire : Kernel → WaitRef → ℕ → Option Kernel
unfolding splice wake_task
expire k ref t = elim (splice (max_tasks + 1) k ref t none (wait_head k ref)) [
  | none ↦ none
  | some k' ↦ some (
      wake_task (set_tcb k' t (record (k'.tcb t) { blocking_wait_list = none; timed_out = true })) t
        minus_one)
]

-- The body of the loop of sync_tick_all.
unfoldable pub sync_task : ℕ → Kernel → Option Kernel
unfolding expire
sync_task t k = elim (k.tcb t).blocking_wait_list [
  | none ↦ some k
  | some ref ↦
      let k' = set_tcb k t (record (k.tcb t) { delay_ticks = (k.tcb t).delay_ticks - 1 }) in
      if is_waiting (k.tcb t).state && ltb 0 (k.tcb t).delay_ticks
      then (if (k.tcb t).delay_ticks - 1 == 0 then expire k' ref t else some k')
      else some k
]

-- sync_tick_all
unfoldable pub sync_tick_all : Kernel → Option Kernel
unfolding walk_lists sync_task
sync_tick_all = walk_lists max_task_priorities sync_task 0

-- scheduler_tick
unfoldable pub tick : Kernel → Option Kernel
unfolding walk_lists age_task sync_tick_all
tick k =
    elim (walk_lists max_task_priorities age_task 0
      (record k { tick_count = (k.tick_count + 1) % 2 ^ 32 })) [
        | none ↦ none
        | some k' ↦ sync_tick_all k'
      ]
