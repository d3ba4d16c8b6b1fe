-- ===== src/Api/Tests.antt =====
-- Calls on concrete states.
use crest_rtos.Base.{ℕ, ◌≡◌, ◌==◌, if◌then◌else◌, refl, List, [], ◌∷◌, some, true, arith, update}
use crest_rtos.Kernel.{waiting}
use crest_rtos.Kobject.{sem_object, pack_handle}
use crest_rtos.Kwork.Fifo.{HoldsItems}
use crest_rtos.Dispatch.{System, dispatch}
use crest_rtos.Svc.{block_caller}
use crest_rtos.Api.{Cpu, trapped, stacked, port_syscall_invoke}
use crest_rtos.Api.Trap.{Trapped, Keeps, request, port_syscall_invoke_lem}
use crest_rtos.Api.Served.{give, Served, at_once, item_of, dispatch-Served}
use crest_rtos.Samples.{plain, blank, idle_system}

-- The processor in user mode.
abbrev user : Cpu
user = record { control = 3; frame = 0x2000_1100 }

-- A semaphore at the address 100, with its handle.
abbrev with_sem : System
with_sem = record idle_system {
  table =
      update idle_system.table 0
        (record { ptr = 100; type_of = sem_object; in_use = true; gen = 0 });
}

no_calls : HoldsItems with_sem.ring []
no_calls = record {
  head_lt = omega arith;
  few = omega arith;
  tail_at = refl;
  item = λ j lt. ground (arith, lt);
}

semaphore_trap :
    (s' : System) × (port_syscall_invoke user with_sem 3 7 8 9 ≡ some (s', trapped))
    × Keeps with_sem s'
    × Trapped with_sem
        (block_caller (stacked with_sem.kernel 0x2000_1100 3 7 8 9) 0)
        0
        0x2000_1100
        (request 3 7 8 9 0)
        []
        s'
semaphore_trap =
    port_syscall_invoke_lem user with_sem 3 7 8 9 0 [] refl (λ e. ground (arith, e)) no_calls

dispatch-Served_example :
    Served
      (at_once with_sem (give (pack_handle 0 0)))
      (some 0)
      (dispatch with_sem (item_of (give (pack_handle 0 0)) (some 0)))
dispatch-Served_example = dispatch-Served with_sem 0 (give (pack_handle 0 0))

-- Task 1 runs, and the kernel task 0 waits.
abbrev calling : System
calling = record with_sem {
  kernel = record blank {
    tcb = update blank.tcb 0 (record plain { state = waiting; priority = 0 });
    task_list = update (update blank.task_list 1 (some 1)) 0 (some 0);
    current_task = some 1;
    priority_mask = 3;
  };
  kernel_tcb = some 0;
}

abbrev two_lists : ℕ → List ℕ
two_lists pr = if pr == 0 then 0 ∷ [] else if pr == 1 then 1 ∷ [] else []
