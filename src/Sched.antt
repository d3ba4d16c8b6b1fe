-- ===== src/Sched.antt =====
-- kernel/sched.c: the per-priority task lists, the round-robin choice of the next task.
-- A loop over a linked list runs on fuel, one round for each task of the pool and one to see the
-- end; the result is `none` only if the fuel runs out, which happens on a cyclic list alone.
pub mod Round
pub mod Turn
pub mod Next
pub mod Fair
pub mod Unlink
pub mod Lists
pub mod Add
pub mod Reach
mod Bits
pub mod Mask
mod Tests
use Prim.Native.Nat.{bit_and, bit_or}
use crest_rtos.Base.{
  false, ℕ, zero, suc, ◌+◌, ◌-◌, ◌/◌, ◌%◌, ◌^◌, Option, none, some, ◌==◌, if◌then◌else◌, Ptr,
  is_null, or_else, points_to, update,
}
use crest_rtos.Kernel.{
  max_task_priorities, max_tasks, ready, waiting, is_ready, Tcb, Kernel, set_tcb, trigger_pendsv,
}

-- __builtin_ctz on a byte with a bit set: the index of the lowest one.
unfoldable pub ctz_from : ℕ → ℕ → ℕ → ℕ
ctz_from zero i mask = i
ctz_from (suc rounds) i mask =
    let rest = ctz_from rounds (i + 1) (mask / 2) in if mask % 2 == 1 then i else rest

-- scheduler_get_first_ready_priority
unfoldable pub get_first_ready_priority : Kernel → ℕ
unfolding ctz_from
get_first_ready_priority k =
    if k.priority_mask == 0 then max_task_priorities else ctz_from 8 0 k.priority_mask

-- scheduler_init
unfoldable pub init : Kernel → Kernel
init k = record k {
  task_list = λ _. none;
  rr_current = λ _. none;
  priority_mask = 0;
  current_task = none;
}

-- scheduler_sleep
unfoldable pub sleep : Kernel → ℕ → ℕ → Kernel
sleep k t ticks = set_tcb k t (record (k.tcb t) { delay_ticks = ticks; state = waiting })

-- `tcb->stack_pointer[8]`, the address of the stacked R0.
abbrev pub saved_r0 : Tcb → ℕ
saved_r0 c = c.stack_pointer + 32

-- The write of a system call's result, if the task was blocked by one.
abbrev pub deliver : Kernel → ℕ → ℕ → Kernel
deliver k t result =
    if (k.tcb t).svc_blocked
    then record k {
      word = update k.word (saved_r0 (k.tcb t)) result;
      tcb = update k.tcb t (record (k.tcb t) { svc_blocked = false });
    }
    else k

-- scheduler_wake_task
unfoldable pub wake_task : Kernel → ℕ → ℕ → Kernel
wake_task k t result =
    let k' = deliver k t result in
    trigger_pendsv (set_tcb k' t (record (k'.tcb t) { state = ready }))

-- scheduler_add_task
unfoldable pub add_task : Kernel → ℕ → Kernel
add_task k t =
    let p = (k.tcb t).priority in
    trigger_pendsv (record k {
      tcb = update k.tcb t (record (k.tcb t) { next = k.task_list p });
      task_list = update k.task_list p (some t);
      priority_mask = bit_or k.priority_mask (2 ^ p);
    })

-- `*p = q` for the link that leads to the current node: the head of list `pr`, or `prev->next`.
abbrev pub set_link : Kernel → ℕ → Ptr → Ptr → Kernel
set_link k pr none q = record k { task_list = update k.task_list pr q }
set_link k pr (some prev) q = set_tcb k prev (record (k.tcb prev) { next = q })

-- The loop of scheduler_remove_task over the links of list `pr`.
unfoldable pub unlink : ℕ → Kernel → ℕ → ℕ → Ptr → Ptr → Option Kernel
unlink zero k pr t prev cur = none
unlink (suc fuel) k pr t prev none = some k
unlink (suc fuel) k pr t prev (some c) =
    let k' = set_link k pr prev (k.tcb t).next in
    let found = set_tcb k' t (record (k'.tcb t) { next = none }) in
    let rest = unlink fuel k pr t (some c) (k.tcb c).next in if c == t then some found else rest

-- The round-robin cursor is cleared if it points at the task.
abbrev pub drop_cursor : Kernel → ℕ → Kernel
drop_cursor k t =
    let p = (k.tcb t).priority in
    if points_to (k.rr_current p) t then record k { rr_current = update k.rr_current p none } else k

-- The bit of an emptied list is cleared in the mask.
abbrev pub drop_bit : Kernel → ℕ → Kernel
drop_bit k p =
    if is_null (k.task_list p)
    then record k { priority_mask = bit_and k.priority_mask (255 - 2 ^ p) }
    else k

-- scheduler_remove_task
unfoldable pub remove_task : Kernel → ℕ → Option Kernel
unfolding unlink
remove_task k t =
    let p = (k.tcb t).priority in
    let k' = drop_cursor k t in
    elim (unlink (max_tasks + 1) k' p t none (k'.task_list p)) [
      | none ↦ none
      | some k'' ↦ some (drop_bit k'' p)
    ]

-- `t->next ? t->next : list`
abbrev pub next_round : (ℕ → Tcb) → ℕ → ℕ → ℕ
next_round tcb list t = or_else (tcb t).next list

-- The do-while loop of scheduler_get_next over the circular list, from `t` until `start`.
-- `some none` is a whole round without a READY task.
unfoldable pub scan : ℕ → (ℕ → Tcb) → ℕ → ℕ → ℕ → Option Ptr
scan zero tcb list start t = none
scan (suc fuel) tcb list start t =
    let rest = scan fuel tcb list start (next_round tcb list t) in
    let more = if next_round tcb list t == start then some none else rest in
    if is_ready (tcb t).state then some (some t) else more

-- The loop of scheduler_get_next over the priorities from `pr` on.
unfoldable pub get_next_from : ℕ → Kernel → ℕ → Option (Kernel × Ptr)
unfolding scan
get_next_from zero k pr = some (k, none)
get_next_from (suc rounds) k pr = elim (k.task_list pr) [
  | none ↦ get_next_from rounds k (pr + 1)
  | some list ↦
      let start = or_else (k.rr_current pr) list in
      elim (scan max_tasks k.tcb list start start) [
        | none ↦ none
        | some none ↦ get_next_from rounds k (pr + 1)
        | some (some t) ↦ some (
          record k { rr_current = update k.rr_current pr (some (next_round k.tcb list t)) },
          some t,
        )
      ]
]

-- scheduler_get_next
unfoldable pub get_next : Kernel → Option (Kernel × Ptr)
unfolding get_next_from
get_next k = get_next_from max_task_priorities k 0

-- scheduler_set_current
unfoldable pub set_current : Kernel → Ptr → Kernel
set_current k p = record k { current_task = p }
