-- ===== src/Dispatch/Tests.antt =====
-- The dispatch of system calls on concrete states.
use crest_rtos.Base.{ℕ, suc, ◌<◌, ◌≡◌, refl, some}
use crest_rtos.Kernel.{ready, waiting}
use crest_rtos.Sched.{saved_r0}
use crest_rtos.Task.{task_delay}
use crest_rtos.Kwork.{WorkItem}
use crest_rtos.Dispatch.{System, dispatch_as, delay}
use crest_rtos.Dispatch.Delay.{ages, delay_lem, delay_zero}
use crest_rtos.Samples.{idle_system}

abbrev delay_call : ℕ → WorkItem
delay_call n = record { id = 0; arg0 = n; arg1 = 0; arg2 = 0; arg3 = 0; caller = some 1 }

delay_lem_example :
    (s' : System) × (dispatch_as delay idle_system (delay_call 3) ≡ some s')
    × (s'.kernel.word (saved_r0 (idle_system.kernel.tcb 1)) ≡ 0)
    × ((i : ℕ) → i < suc 2 → (ages i (s'.kernel.tcb 1)).state ≡ waiting)
    × ((ages (suc 2) (s'.kernel.tcb 1)).state ≡ ready)
delay_lem_example = delay_lem idle_system (delay_call 3) 1 refl 2 refl refl

delay_zero_example :
    ((s' : System) × (dispatch_as delay idle_system (delay_call 0) ≡ some s')
      × ((i : ℕ) → (ages i (s'.kernel.tcb 1)).state ≡ waiting))
    × (task_delay idle_system.kernel 0 ≡ idle_system.kernel)
delay_zero_example = delay_zero idle_system (delay_call 0) 1 refl refl

-- A queue of eight items of eight bytes, at the first block of the heap.
abbrev block : ℕ
block = 0x2000_1008
