-- ===== src/Api/Round.antt =====
-- kernel/syscall_api.c, arch/arm/cortex-m4/syscall.c and kernel/kwork.c together: a user-mode call,
-- from its wrapper to its result.
use crest_rtos.Base.{ℕ, Bool, true, false, Option, none, some, [], ◌-◌, ◌≡◌, ◌>>=◌}
use crest_rtos.Port.{Switch, switch_context}
use crest_rtos.Kwork
use crest_rtos.Kwork.{Ring, WorkItem, wake_kernel}
use crest_rtos.Kwork.Fifo.{HoldsItems}
use crest_rtos.Dispatch.{System, with_kernel, dispatch}
use crest_rtos.Kernel.{waiting, Kernel, set_tcb, trigger_pendsv}
use crest_rtos.Svc.{kernel_round}
use crest_rtos.Api.{Cpu, trapped, Return, port_syscall_invoke}
use crest_rtos.Api.Trap.{Keeps}
use crest_rtos.Api.Served.{Call, issue, at_once}
use crest_rtos.Api.Delivered.{Answered}

-- A work item, sent by port_syscall_invoke.
abbrev sent : Cpu → System → WorkItem → Option (System × Return)
sent cpu s w = port_syscall_invoke cpu s w.id w.arg0 w.arg1 w.arg2

-- The round on an empty ring.
abbrev idle : System → Option (System × Bool)
idle s = elim s.kernel_tcb [
  | none ↦ none
  | some t ↦ some (
    with_kernel s
        (trigger_pendsv (set_tcb s.kernel t (record (s.kernel.tcb t) { state = waiting }))),
    false,
  )
]

abbrev from_pop : System → Option (Ring × WorkItem) → Option (System × Bool)
from_pop s none = idle s
from_pop s (some (r, w)) = do s' ← dispatch (record s { ring = r }) w; some (s', true)

-- What the caller sees: its call has trapped into `trap`; the switch at PendSV, with the stack
-- pointer 32 bytes below the frame, makes the kernel task the current one; its next round takes
-- the call out of the ring and answers it in the frame.
pub record IsServed (cpu : Cpu) (s : System) (t kt : ℕ) (c : Call) : Type 0 where
  pub trap : System
  pub k : Kernel
  pub to : Switch
  pub left : Ring
  pub answer : Option System
  pub traps : issue cpu s c ≡ some (trap, trapped)
  pub keeps : Keeps s trap
  pub switch : switch_context trap.kernel (cpu.frame - 32) ≡ some (k, to)
  pub runs : k.current_task ≡ some kt
  pub empty : HoldsItems left []
  pub round : kernel_round (record trap { kernel = k }) ≡ (do s' ← answer; some (s', true))
  pub served : Answered (at_once (record trap { kernel = k; ring = left }) c) t cpu.frame answer
