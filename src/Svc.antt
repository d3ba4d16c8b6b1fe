-- ===== src/Svc.antt =====
-- arch/arm/cortex-m4/syscall.c, svc_handler_c, and kernel/kwork.c, one round of kernel_task_fn:
-- the way of a system call from the exception frame through the ring to its dispatch.
pub mod Rings
mod Drain
mod Tests
use crest_rtos.Base.{
  ℕ, zero, suc, ◌+◌, Bool, true, false, Option, none, some, if◌then◌else◌, update, ◌>>=◌,
}
use crest_rtos.Kernel.{minus_one, ready, waiting, Kernel, set_tcb, trigger_pendsv}
use crest_rtos.Kwork
use crest_rtos.Kwork.{WorkItem}
use crest_rtos.Dispatch.{System, with_kernel, dispatch}

-- `caller->flags |= TASK_FLAG_SVC_BLOCKED; caller->state = TASK_WAITING;`
abbrev pub block_caller : Kernel → ℕ → Kernel
block_caller k t = set_tcb k t (record (k.tcb t) { svc_blocked = true; state = waiting })

-- The work item of a frame at address `frame`.
abbrev pub captured : Kernel → ℕ → ℕ → WorkItem
captured k t frame = record {
  id = k.word (frame + 16);
  arg0 = k.word frame;
  arg1 = k.word (frame + 4);
  arg2 = k.word (frame + 8);
  arg3 = k.word (frame + 12);
  caller = some t;
}

-- The caller is unblocked with an error, where the ring was full.
abbrev pub refuse : Kernel → ℕ → ℕ → Kernel
refuse k t frame =
    let k' = set_tcb k t (record (k.tcb t) { svc_blocked = false; state = ready }) in
    record k' { word = update k'.word frame minus_one }

-- svc_handler_c
unfoldable pub svc_handler : System → ℕ → System
unfolding Kwork.push
svc_handler s frame = elim s.kernel.current_task [
  | none ↦ s
  | some t ↦
      let ((r, k), done) =
        Kwork.push s.ring (block_caller s.kernel t) s.kernel_tcb (captured s.kernel t frame) in
      let s' = record s { ring = r; kernel = k } in
      if done then with_kernel s' (trigger_pendsv k) else with_kernel s' (refuse k t frame)
]

-- One round of the inner loop of kernel_task_fn: an item is taken and dispatched, and the flag
-- says that the loop goes on; on an empty ring the kernel task waits and asks for a switch.
unfoldable pub kernel_round : System → Option (System × Bool)
unfolding Kwork.pop dispatch
kernel_round s = elim (Kwork.pop s.ring) [
  | some (r, w) ↦ do s' ← dispatch (record s { ring = r }) w; some (s', true)
  | none ↦ elim s.kernel_tcb [
    | none ↦ none
    | some t ↦ some (
      with_kernel s
          (trigger_pendsv (set_tcb s.kernel t (record (s.kernel.tcb t) { state = waiting }))),
      false,
    )
  ]
]

-- kernel_task_fn up to its loop.
abbrev pub kernel_task_start : System → System
kernel_task_start s = record s { kernel_tcb = s.kernel.current_task }

-- The inner loop of kernel_task_fn, and the wait behind it, on fuel.
unfoldable pub drain : ℕ → System → Option System
unfolding kernel_round
drain zero s = none
drain (suc rounds) s = do
  (s', more) ← kernel_round s
  let rest = drain rounds s'
  if more then rest else some s'
