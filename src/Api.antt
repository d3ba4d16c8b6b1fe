-- ===== src/Api.antt =====
-- kernel/syscall_api.c: the calls of the kernel's users, and port_is_privileged and
-- port_syscall_invoke of arch/arm/cortex-m4/port.c. A privileged call that blocks ends where its
-- task blocks; a trapped call ends where svc_handler_c returns.
pub mod Trap
mod Served
mod Cells
mod Handover
mod Delivered
mod Round
mod Tests
use crest_rtos.Base.{
  ℕ, ◌+◌, ◌%◌, Bool, true, false, Option, none, some, ◌==◌, if◌then◌else◌, List, [], ◌∷◌, ◌++◌,
  update, ◌>>=◌,
}
use crest_rtos.Kernel.{minus_one, Kernel}
use crest_rtos.Sync.{Status, code, Outcome, returned, blocked, fault}
use crest_rtos.Sem
use crest_rtos.Mutex
use crest_rtos.Queue
use crest_rtos.Task
use crest_rtos.Kobject
use crest_rtos.Kobject.{KobjType, queue_object, sem_object, mutex_object, kobj_invalid}
use crest_rtos.Dispatch
use crest_rtos.Dispatch.{System, with_kernel, copy_out, Syscall, encode}
use crest_rtos.Svc.{svc_handler}

-- The register CONTROL, and the address at which the hardware stacks the frame of an exception.
pub record Cpu : Type 0 where
  pub control : ℕ
  pub frame : ℕ

-- port_is_privileged
abbrev pub is_privileged : Cpu → Bool
is_privileged cpu = cpu.control % 2 == 0

-- How a call ends: with a value, without one, with its task blocked, or in the SVC handler.
pub data Return : Type 0 where
  value : ℕ → Return
  void blocking faulted trapped : Return

abbrev pub of_outcome : Outcome → Return
of_outcome (returned r) = value (code r)
of_outcome blocked = blocking
of_outcome fault = faulted

-- The frame that `svc #0` stacks behind the moves of port_syscall_invoke: R3 keeps `arg2`, and the
-- argument `arg3` is not passed on.
abbrev pub stacked : Kernel → ℕ → ℕ → ℕ → ℕ → ℕ → Kernel
stacked k frame id arg0 arg1 arg2 = record k {
  word =
      update
        (update (update (update (update k.word frame arg0) (frame + 4) arg1) (frame + 8) arg2)
          (frame + 12) arg2)
        (frame + 16) id;
}

-- port_syscall_invoke
unfoldable pub port_syscall_invoke : Cpu → System → ℕ → ℕ → ℕ → ℕ → Option (System × Return)
unfolding svc_handler
port_syscall_invoke cpu s id arg0 arg1 arg2 =
    some (
      svc_handler (with_kernel s (stacked s.kernel cpu.frame id arg0 arg1 arg2)) cpu.frame,
      trapped,
    )

-- `if (!q) return KOBJ_INVALID; return k_obj_alloc(q, type);`
abbrev pub hand_out : KobjType → System × ℕ → System × Return
hand_out ty (s, p) =
    let (t, h) = Kobject.alloc s.table p ty in
    if p == 0 then (s, value kobj_invalid) else (record s { table = t }, value h)

unfoldable pub k_uart_write : Cpu → System → ℕ → Option (System × Return)
unfolding port_syscall_invoke
k_uart_write cpu s p =
    if is_privileged cpu
    then some (record s { uart = s.uart ++ (p ∷ []) }, void)
    else port_syscall_invoke cpu s (encode Syscall.uart_write) p 0 0

unfoldable pub task_delay : Cpu → System → ℕ → Option (System × Return)
unfolding port_syscall_invoke Task.task_delay
task_delay cpu s ticks =
    if is_privileged cpu
    then some (with_kernel s (Task.task_delay s.kernel ticks), void)
    else port_syscall_invoke cpu s (encode Syscall.delay) ticks 0 0

unfoldable pub queue_create : Cpu → System → ℕ → ℕ → Option (System × Return)
unfolding port_syscall_invoke Dispatch.queue_create Kobject.alloc
queue_create cpu s item_size num_items =
    if is_privileged cpu
    then (do r ← Dispatch.queue_create s item_size num_items; some (hand_out queue_object r))
    else port_syscall_invoke cpu s (encode Syscall.create_queue) item_size num_items 0

unfoldable pub queue_push : Cpu → System → ℕ → ℕ → ℕ → Option (System × Return)
unfolding port_syscall_invoke Kobject.get Queue.push
queue_push cpu s handle item timeout_ms =
    let q = Kobject.get s.table handle queue_object in
    let pushed = (do
      (k, o) ← Queue.push s.kernel q (s.items item) timeout_ms
      some (with_kernel s k, of_outcome o)) in
    if is_privileged cpu
    then (if q == 0 then some (s, value minus_one) else pushed)
    else port_syscall_invoke cpu s (encode Syscall.queue_send) handle item timeout_ms

unfoldable pub queue_pop : Cpu → System → ℕ → ℕ → ℕ → Option (System × Return)
unfolding port_syscall_invoke Kobject.get Queue.pop
queue_pop cpu s handle item timeout_ms =
    let q = Kobject.get s.table handle queue_object in
    let popped = (do
      (k, o, out) ← Queue.pop s.kernel q timeout_ms
      some (copy_out (with_kernel s k) item out, of_outcome o)) in
    if is_privileged cpu
    then (if q == 0 then some (s, value minus_one) else popped)
    else port_syscall_invoke cpu s (encode Syscall.queue_recv) handle item timeout_ms

unfoldable pub sem_create : Cpu → System → ℕ → Option (System × Return)
unfolding port_syscall_invoke Dispatch.sem_create Kobject.alloc
sem_create cpu s initial_count =
    if is_privileged cpu
    then (do r ← Dispatch.sem_create s initial_count; some (hand_out sem_object r))
    else port_syscall_invoke cpu s (encode Syscall.create_sem) initial_count 0 0

unfoldable pub sem_give : Cpu → System → ℕ → Option (System × Return)
unfolding port_syscall_invoke Kobject.get Sem.give
sem_give cpu s handle =
    let p = Kobject.get s.table handle sem_object in
    if is_privileged cpu
    then some (if p == 0 then s else with_kernel s (Sem.give s.kernel p), void)
    else port_syscall_invoke cpu s (encode Syscall.sem_post) handle 0 0

abbrev pub with_outcome : System → Kernel × Outcome → System × Return
with_outcome s (k, o) = (with_kernel s k, of_outcome o)

unfoldable pub sem_take : Cpu → System → ℕ → ℕ → Option (System × Return)
unfolding port_syscall_invoke Kobject.get Sem.take_timeout
sem_take cpu s handle timeout_ms =
    let p = Kobject.get s.table handle sem_object in
    if is_privileged cpu
    then some (
        if p == 0
        then (s, value minus_one)
        else with_outcome s (Sem.take_timeout s.kernel p timeout_ms))
    else port_syscall_invoke cpu s (encode Syscall.sem_wait) handle timeout_ms 0

unfoldable pub mutex_create : Cpu → System → Option (System × Return)
unfolding port_syscall_invoke Dispatch.mutex_create Kobject.alloc
mutex_create cpu s =
    if is_privileged cpu
    then (do r ← Dispatch.mutex_create s; some (hand_out mutex_object r))
    else port_syscall_invoke cpu s (encode Syscall.create_mutex) 0 0 0

unfoldable pub mutex_lock : Cpu → System → ℕ → ℕ → Option (System × Return)
unfolding port_syscall_invoke Kobject.get Mutex.lock_timeout
mutex_lock cpu s handle timeout_ms =
    let p = Kobject.get s.table handle mutex_object in
    if is_privileged cpu
    then some (
        if p == 0
        then (s, value minus_one)
        else with_outcome s (Mutex.lock_timeout s.kernel p timeout_ms))
    else port_syscall_invoke cpu s (encode Syscall.mutex_lock) handle timeout_ms 0

unfoldable pub mutex_unlock : Cpu → System → ℕ → Option (System × Return)
unfolding port_syscall_invoke Kobject.get Mutex.unlock
mutex_unlock cpu s handle =
    let p = Kobject.get s.table handle mutex_object in
    if is_privileged cpu
    then some (if p == 0 then s else with_kernel s (Mutex.unlock s.kernel p), void)
    else port_syscall_invoke cpu s (encode Syscall.mutex_unlock) handle 0 0
