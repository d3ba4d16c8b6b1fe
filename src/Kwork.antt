-- ===== src/Kwork.antt =====
-- kernel/kwork.c: the ring of work items between the SVC handler and the kernel task.
pub mod Fifo
mod Tests
use crest_rtos.Base.{
  ℕ, ◌+◌, ◌*◌, ◌%◌, Bool, true, false, Option, none, some, ◌==◌, if◌then◌else◌, Ptr, update,
}
use crest_rtos.Kernel.{max_tasks, ready, is_waiting, Kernel, set_tcb}

-- KWORK_QUEUE_SIZE
abbrev pub kwork_queue_size : ℕ
kwork_queue_size = max_tasks * 2

-- struct work_item; the four `args` are fields.
pub record WorkItem : Type 0 where
  pub id : ℕ
  pub arg0 : ℕ
  pub arg1 : ℕ
  pub arg2 : ℕ
  pub arg3 : ℕ
  pub caller : Ptr

-- kwork_buf, kwork_head, kwork_tail
pub record Ring : Type 0 where
  pub buf : ℕ → WorkItem
  pub head : ℕ
  pub tail : ℕ

-- The index behind `i`.
abbrev pub succ_index : ℕ → ℕ
succ_index i = (i + 1) % kwork_queue_size

-- `if (kernel_tcb && kernel_tcb->state == TASK_WAITING) kernel_tcb->state = TASK_READY;`
unfoldable pub wake_kernel : Kernel → Ptr → Kernel
wake_kernel k none = k
wake_kernel k (some t) =
    if is_waiting (k.tcb t).state then set_tcb k t (record (k.tcb t) { state = ready }) else k

-- kwork_push; the flag says whether the item is in the ring, result 0 of the source.
unfoldable pub push : Ring → Kernel → Ptr → WorkItem → (Ring × Kernel) × Bool
unfolding wake_kernel
push r k kernel_tcb item = if succ_index r.tail == r.head then ((r, k), false) else (
  (record r { buf = update r.buf r.tail item; tail = succ_index r.tail }, wake_kernel k kernel_tcb),
  true,
)

-- kwork_pop_locked
unfoldable pub pop : Ring → Option (Ring × WorkItem)
pop r =
    if r.head == r.tail then none else some (record r { head = succ_index r.head }, r.buf r.head)
