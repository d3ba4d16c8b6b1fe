-- ===== src/Kernel.antt =====
-- kernel/include/task.h, and the statics of kernel/sched.c, kernel/task.c: the state that the
-- kernel's parts share. A `struct TaskControlBlock *` is an index into `tcb_pool`, NULL is `none`;
-- semaphores, mutexes and queues are named by the address that `malloc` gave them.
use crest_rtos.Base.{ℕ, ◌+◌, ◌^◌, Bool, true, false, List, Ptr, none, update}

-- MAX_TASK_PRIORITIES, MAX_TASKS, TASK_NAME_MAX_LEN, MAX_TASK_STACK_SIZE
abbrev pub max_task_priorities : ℕ
max_task_priorities = 8

abbrev pub max_tasks : ℕ
max_tasks = 8

abbrev pub task_name_max_len : ℕ
task_name_max_len = 16

abbrev pub max_task_stack_size : ℕ
max_task_stack_size = 512

-- CREST_WAIT_FOREVER
abbrev pub wait_forever : ℕ
wait_forever = 0xffff_ffff

-- `(uint32_t)-1`
abbrev pub minus_one : ℕ
minus_one = 0xffff_ffff

-- task_state_t
pub data TaskState : Type 0 where
  ready running waiting suspended : TaskState

abbrev pub is_ready : TaskState → Bool
is_ready ready = true
is_ready _ = false

abbrev pub is_running : TaskState → Bool
is_running running = true
is_running _ = false

abbrev pub is_waiting : TaskState → Bool
is_waiting waiting = true
is_waiting _ = false

-- A `struct TaskControlBlock **` of `blocking_wait_list`: the address of the wait-list head of a
-- semaphore, of a mutex, or one of the two of a queue.
pub data WaitRef : Type 0 where
  sem_waiters : ℕ → WaitRef
  mutex_waiters : ℕ → WaitRef
  send_waiters : ℕ → WaitRef
  recv_waiters : ℕ → WaitRef

abbrev pub WaitPtr : Type 0
WaitPtr = crest_rtos.Base.Option WaitRef

abbrev pub has_ref : WaitPtr → Bool
has_ref none = false
has_ref (crest_rtos.Base.some _) = true

-- The three bits of `flags` that the kernel uses are its fields `user`, `svc_blocked` and
-- `timed_out`. Stack pointers are byte addresses.
pub record Tcb : Type 0 where
  pub stack_base : ℕ
  pub stack_size : ℕ
  pub stack_pointer : ℕ
  pub stack_alloc : ℕ
  pub name : List ℕ
  pub state : TaskState
  pub priority : ℕ
  pub user : Bool
  pub svc_blocked : Bool
  pub timed_out : Bool
  pub next : Ptr
  pub wait_next : Ptr
  pub delay_ticks : ℕ
  pub blocking_wait_list : WaitPtr
  pub task_function : ℕ
  pub arg : ℕ

-- struct semaphore; the count is an int, as the 32 bits of its two's complement.
pub record Semaphore : Type 0 where
  pub count : ℕ
  pub wait_list : Ptr

-- struct mutex
pub record Mutex : Type 0 where
  pub owner : Ptr
  pub wait_list : Ptr

-- The bytes of one queue slot, moved whole by `memcpy`.
abbrev pub Item : Type 0
Item = List ℕ

-- struct queue; `buffer i` is the slot at byte offset `i * item_size` of the buffer.
pub record Queue : Type 0 where
  pub item_size : ℕ
  pub size : ℕ
  pub slots : ℕ
  pub head : ℕ
  pub tail : ℕ
  pub buffer : ℕ → Item
  pub send_wait : Ptr
  pub recv_wait : Ptr

-- `word` is the memory of the task stacks, a 32-bit word at each byte address.
-- `pendsv` is the PENDSVSET bit of SCB_ICSR.
pub record Kernel : Type 0 where
  pub tcb : ℕ → Tcb
  pub tcb_used : ℕ → Bool
  pub task_list : ℕ → Ptr
  pub rr_current : ℕ → Ptr
  pub current_task : Ptr
  pub tick_count : ℕ
  pub priority_mask : ℕ
  pub pendsv : Bool
  pub word : ℕ → ℕ
  pub sem : ℕ → Semaphore
  pub mutex : ℕ → Mutex
  pub queue : ℕ → Queue

abbrev pub set_tcb : Kernel → ℕ → Tcb → Kernel
set_tcb k t c = record k { tcb = update k.tcb t c }

abbrev pub set_sem : Kernel → ℕ → Semaphore → Kernel
set_sem k p s = record k { sem = update k.sem p s }

abbrev pub set_mutex : Kernel → ℕ → Mutex → Kernel
set_mutex k p m = record k { mutex = update k.mutex p m }

abbrev pub set_queue : Kernel → ℕ → Queue → Kernel
set_queue k p q = record k { queue = update k.queue p q }

-- port_trigger_pendsv (arch/arm/cortex-m4/port.c)
abbrev pub trigger_pendsv : Kernel → Kernel
trigger_pendsv k = record k { pendsv = true }

-- `*ref` and `*ref = p` for the head of a wait list.
abbrev pub wait_head : Kernel → WaitRef → Ptr
wait_head k (sem_waiters p) = (k.sem p).wait_list
wait_head k (mutex_waiters p) = (k.mutex p).wait_list
wait_head k (send_waiters p) = (k.queue p).send_wait
wait_head k (recv_waiters p) = (k.queue p).recv_wait

abbrev pub set_wait_head : Kernel → WaitRef → Ptr → Kernel
set_wait_head k (sem_waiters p) h = set_sem k p (record (k.sem p) { wait_list = h })
set_wait_head k (mutex_waiters p) h = set_mutex k p (record (k.mutex p) { wait_list = h })
set_wait_head k (send_waiters p) h = set_queue k p (record (k.queue p) { send_wait = h })
set_wait_head k (recv_waiters p) h = set_queue k p (record (k.queue p) { recv_wait = h })
