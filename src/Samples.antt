-- ===== src/Samples.antt =====
-- Concrete states for the tests: a kernel with three tasks, of which two share a priority.
use crest_rtos.Base.{
  zero, suc, ℕ, ◌≡◌, ◌<◌, refl, List, arith, ◌==◌, if◌then◌else◌, [], ◌∷◌, true, false, none, some,
  update,
}
use crest_rtos.Kobject.{sem_object}
use crest_rtos.Dispatch.{System}
use crest_rtos.Sched.Turn.{IsRing}
use crest_rtos.Kernel.{max_task_priorities, ready, waiting, Tcb, Kernel, sem_waiters}

-- A READY task of priority 1.
abbrev pub plain : Tcb
plain = record {
  stack_base = 0x2000_1000;
  stack_size = 512;
  stack_pointer = 0x2000_1100;
  stack_alloc = 0x2000_0f00;
  name = [];
  state = ready;
  priority = 1;
  user = false;
  svc_blocked = false;
  timed_out = false;
  next = none;
  wait_next = none;
  delay_ticks = 0;
  blocking_wait_list = none;
  task_function = 0x0800_0100;
  arg = 0;
}

-- Nothing has been created yet.
abbrev pub blank : Kernel
blank = record {
  tcb = λ _. plain;
  tcb_used = λ _. false;
  task_list = λ _. none;
  rr_current = λ _. none;
  current_task = none;
  tick_count = 0;
  priority_mask = 0;
  pendsv = false;
  word = λ _. 0;
  sem = λ _. record { count = 0; wait_list = none };
  mutex = λ _. record { owner = none; wait_list = none };
  queue = λ _. record {
    item_size = 4;
    size = 2;
    slots = 3;
    head = 0;
    tail = 0;
    buffer = λ _. [];
    send_wait = none;
    recv_wait = none;
  };
}

-- Tasks 1 and 2 at priority 1, in this order; task 0 runs.
abbrev pub two_ready : Kernel
two_ready = record blank {
  tcb = update blank.tcb 1 (record plain { next = some 2 });
  task_list = update blank.task_list 1 (some 1);
  current_task = some 0;
  priority_mask = 2;
}

-- The priority lists of `two_ready`.
abbrev pub lists : ℕ → List ℕ
lists pr = if pr == 1 then 1 ∷ 2 ∷ [] else []

pub lists-IsRing : (pr : ℕ) → pr < max_task_priorities → IsRing two_ready pr (lists pr)
lists-IsRing zero lt = record { chain = refl; nodup = tt; few = omega arith; cursor = λ s e. cc }
lists-IsRing (suc zero) lt = record {
  chain = (refl, (refl, refl));
  nodup = (refl, (refl, tt));
  few = omega arith;
  cursor = λ s e. cc;
}
lists-IsRing (suc (suc pr)) lt =
    let far : (suc (suc pr) == 1) ≡ false = ground arith in
    record {
      chain = rw far refl;
      nodup = rw far tt;
      few = rw far (omega arith);
      cursor = λ s e. cc;
    }

-- Task 3, in a system call, waits at the semaphore 100 for one more tick.
abbrev pub sem_waiter : Kernel
sem_waiter = record blank {
  tcb = update blank.tcb 3 (record plain {
    state = waiting;
    svc_blocked = true;
    delay_ticks = 1;
    blocking_wait_list = some (sem_waiters 100);
  });
  sem = update blank.sem 100 (record { count = 0; wait_list = some 3 });
}

-- Task 2 owns the mutex 200, and task 3 waits for it.
abbrev pub mutex_waiter : Kernel
mutex_waiter = record blank {
  tcb = update blank.tcb 3 (record plain { state = waiting; svc_blocked = true; delay_ticks = 0 });
  mutex = update blank.mutex 200 (record { owner = some 2; wait_list = some 3 });
}

-- Task 3 waits to receive from the empty queue 300.
abbrev pub queue_waiter : Kernel
queue_waiter = record blank {
  tcb = update blank.tcb 3 (record plain { state = waiting });
  queue = update blank.queue 300 (record (blank.queue 300) { recv_wait = some 3 });
}

-- The queue 300 is full, its items stand at the slots 2 and 0, and task 3 waits to send.
abbrev pub queue_full : Kernel
queue_full = record blank {
  tcb = update blank.tcb 3 (record plain { state = waiting });
  queue =
      update blank.queue 300
        (record (blank.queue 300) { head = 2; tail = 1; buffer = λ i. i ∷ []; send_wait = some 3 });
}

-- `two_ready` with no kernel object, an empty ring, and task 4 as the kernel task.
abbrev pub idle_system : System
idle_system = record {
  kernel = two_ready;
  table = λ _. record { ptr = 0; type_of = sem_object; in_use = false; gen = 0 };
  heap = record {
    start = 0x2000_1000;
    limit = 0x2000_2000;
    free_list = 0;
    heap_inited = false;
    size = λ _. 0;
    next = λ _. 0;
  };
  ring = record {
    buf = λ _. record { id = 0; arg0 = 0; arg1 = 0; arg2 = 0; arg3 = 0; caller = none };
    head = 0;
    tail = 0;
  };
  kernel_tcb = some 4;
  items = λ _. [];
  uart = [];
}
