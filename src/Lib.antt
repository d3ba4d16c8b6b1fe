-- ===== src/Lib.antt =====
-- CREST RTOS: the kernel of a small real-time operating system for the Cortex-M4, as executable
-- definitions, with the theorems that make its parts correct.
--
-- The system. Tasks of eight priorities share one CPU. SysTick counts down delays and timeouts
-- every millisecond, and PendSV saves the running task and resumes the one that the scheduler
-- chooses: the highest priority with a READY task, round robin within a priority. Semaphores,
-- mutexes and queues block tasks on wait lists. Privileged tasks call them directly. A call of a
-- user task traps into the SVC handler, which puts a work item into a ring and blocks the caller;
-- the kernel task takes the items out in order, resolves the handles of kernel objects, performs
-- the calls and delivers the results.
--
-- Which file models what, and by which names:
-- - Kernel: `struct TaskControlBlock` (`Tcb`) and the state that the parts share (`Kernel`):
--   kernel/include/task.h, the statics of kernel/sched.c, the structs of the primitives.
-- - Sched: kernel/sched.c but for the tick: scheduler_get_next is `get_next` with its inner loop
--   `scan`, scheduler_add_task is `add_task`, and so on for the other names. Sched/Round and
--   Sched/Turn are about the scan, Sched/Next and Sched/Fair about the choice, Sched/Unlink,
--   Sched/Lists, Sched/Add and Sched/Reach about the lists, Sched/Bits and Sched/Mask about the
--   priority mask.
-- - Tick: scheduler_tick (`tick`) and sync_tick_all of kernel/sched.c.
-- - Sync: what kernel/semaphore.c, kernel/mutex.c and kernel/queue.c have in common: the ways into
--   and out of a wait list. Sync/Waits sees a wait list as the list of its tasks.
-- - Sem, Mutex, Queue: the three primitives, `z_impl_sem_give` as `Sem.give` and so on, each with a
--   specification (Spec) and the module where the code meets it (Refine, Block, Queue/Fifo).
-- - Kobject: the handle table of kernel/kobject.c.
-- - Alloc: the first-fit allocator of kernel/alloc.c, and of its copy kernel/user_alloc.c.
--   Alloc/Room is about requests that are sure to find a block.
-- - Kwork, Dispatch, Svc: the ring, the dispatch and the loop of kernel/kwork.c, with the creation
--   of semaphores, mutexes and queues; svc_handler_c of arch/arm/cortex-m4/syscall.c. Svc/Rings:
--   no dispatch changes the ring; Svc/Drain: the loop beside the list of the items in the ring;
--   Dispatch/Sizes: the bytes of a queue's buffer, as queue_init computes them.
-- - Api: the wrappers of kernel/syscall_api.c by their names, and port_syscall_invoke of
--   arch/arm/cortex-m4/port.c with the frame that the hardware stacks. Api/Trap, Api/Handover,
--   Api/Served, Api/Delivered and Api/Round follow a user-mode call from its wrapper through the
--   ring and the switch at PendSV to its result; Api/Cells says which control blocks a call spares.
-- - Port, Mpu: port_switch_context of arch/arm/cortex-m4/context_switch.c, the C parts of
--   arch/arm/cortex-m4/port.c, SysTick_Handler of boards/stm32f446/startup.c. Mpu/Hardware says
--   what the code relies on in the MPU, which is a parameter; Mpu/Rights is the specification.
-- - Task: kernel/task.c; Task/Pool, Task/Slot and Task/Create follow task_create.
-- - Libc, Format: kernel/libc_stubs.c; vsnprintf with its arguments as a list is in Format, with an
--   independent printer of formats in Format/Spec.
-- - Console: uart_write of boards/stm32f446/uart.c, stack_overflow_handler of
--   arch/arm/cortex-m4/port.c, Default_Handler and MemManage_Handler of
--   boards/stm32f446/startup.c, as the texts that they send.
-- - Boot: the memory that Reset_Handler of boards/stm32f446/startup.c sets up, and __start of
--   boards/stm32f446/bootloader.c.
-- - Demo: src/main.c: main (Demo/Main, Demo/Tasks, Demo/Started), and the loops of task_producer and
--   task_consumer on the specifications of the primitives (Demo/Handshake, Demo/Locks) with their
--   messages (Demo/Messages).
-- - Base, Chain, Ring: lists, tests and stores; linked lists through a field; ring buffers.
-- - Samples and the modules named Tests: concrete states, and the theorems applied to them.
--
-- How the state corresponds. A pointer to a control block is its index in `tcb_pool`, NULL is
-- `none`; a semaphore, mutex or queue is named by its address; the bits of `flags` are three
-- Booleans. The memory of the task stacks is a word at each address, and the items of a queue are
-- the slots of its buffer. An unsigned sum that can wrap is written with `% 2 ^ 32` or `% 2 ^ 16`;
-- the count of a semaphore, an int, is its two's complement, and wraps as the processor adds;
-- a disjoint `|` of shifted fields is written as a sum.
--
-- Steps. Each kernel function masks the interrupts, so it is one step of the model. A call that
-- blocks ends where it triggers PendSV, with the outcome `blocked`; what it does when its task runs
-- again is a function of its own (`resume`, `push_resume`, `pop_resume`).
--
-- Fuel. Loops over linked lists run on fuel, and `none` says that it ran out. Lists of tasks get
-- one round for each of the eight tasks and one to see the end, and only a cyclic list has more;
-- the scan of the scheduler, over a circular list, gets eight. The allocator gets one round for
-- each 8 bytes of the heap and two more; a block takes at least 8 bytes. The copy loops of the
-- reset get one round for each address of their range, and the digit loop of vsnprintf the 32 of
-- its buffer. The loop of the kernel task gets one round for each item in the ring and one more.
--
-- Not modelled: the assembly of PendSV and of the SVC entry; kernel/syscall_stubs.c, a copy of
-- kernel/syscall_api.c that is not built; the set-up of the UART, the vector tables and the
-- register writes of the boot code; of the demo, task_mpu_probe and the wait for the handles. The
-- texts that uart_write sends are kept in the order of the calls.
pub mod Base
pub mod Kernel
pub mod Chain
pub mod Ring
pub mod Samples
pub mod Sched
pub mod Tick
pub mod Sync
pub mod Sem
pub mod Mutex
pub mod Queue
pub mod Kobject
pub mod Alloc
pub mod Kwork
pub mod Dispatch
pub mod Svc
pub mod Api
pub mod Port
pub mod Libc
pub mod Format
pub mod Console
pub mod Boot
pub mod Task
pub mod Mpu
pub mod Demo
