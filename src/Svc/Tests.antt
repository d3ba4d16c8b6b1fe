-- ===== src/Svc/Tests.antt =====
-- The loop of the kernel task on a concrete ring.
use crest_rtos.Base.{◌≡◌, refl, arith, some, [], ◌∷◌, update}
use crest_rtos.Kwork.{WorkItem}
use crest_rtos.Kwork.Fifo.{HoldsItems}
use crest_rtos.Dispatch.{System}
use crest_rtos.Samples.{idle_system}
use crest_rtos.Svc.{kernel_task_start, drain}
use crest_rtos.Svc.Rings.{Keeps}
use crest_rtos.Svc.Drain.{serve, IsDrained, drain_lem}

-- A call of k_uart_write by task 1.
abbrev write_call : WorkItem
write_call = record { id = 7; arg0 = 0x0800_6000; arg1 = 0; arg2 = 0; arg3 = 0; caller = some 1 }

abbrev one_call : System
one_call = kernel_task_start (record idle_system {
  ring = record idle_system.ring {
    buf = update idle_system.ring.buf 0 write_call;
    head = 0;
    tail = 1;
  };
  kernel = record idle_system.kernel { current_task = some 0 };
})

one_call-HoldsItems : HoldsItems one_call.ring (write_call ∷ [])
one_call-HoldsItems = record {
  head_lt = omega arith;
  few = omega arith;
  tail_at = refl;
  item = λ j lt. ground (arith, lt);
}

drain_lem_example :
    (drain 2 one_call ≡ serve 0 (write_call ∷ []) one_call) × Keeps (IsDrained 0) (drain 2 one_call)
drain_lem_example = drain_lem 0 (write_call ∷ []) one_call one_call-HoldsItems refl
