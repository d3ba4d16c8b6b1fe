-- ===== src/Task.antt =====
-- kernel/task.c: the pool of task control blocks, stacks, and the life of a task.
pub mod Sizes
pub mod Names
pub mod Frames
pub mod Pool
pub mod Slot
pub mod Outcome
pub mod Create
mod Tests
use Prim.Native.Nat.{bit_or}
use crest_rtos.Base.{
  ℕ, zero, suc, ◌+◌, ◌-◌, ◌*◌, ◌/◌, ◌%◌, ◌^◌, true, false, ◌||◌, Option, none, some, ltb, leb, ◌==◌,
  List, [], ◌∷◌, if◌then◌else◌, Ptr, set, update, ◌>>=◌,
}
use crest_rtos.Kernel.{
  max_tasks, max_task_priorities, task_name_max_len, max_task_stack_size, ready, Tcb, Kernel,
  set_tcb, trigger_pendsv,
}
use crest_rtos.Sched
use crest_rtos.Libc.{strncpy, replicate}
use crest_rtos.Alloc
use crest_rtos.Alloc.{Heap}

-- The kernel and its heap.
pub record Machine : Type 0 where
  pub kernel : Kernel
  pub heap : Heap

-- The loop of get_free_tcb over the slots from `i` on.
unfoldable pub free_slot : ℕ → Kernel → ℕ → Ptr
free_slot zero k i = none
free_slot (suc rounds) k i =
    let rest = free_slot rounds k (i + 1) in if k.tcb_used i then rest else some i

-- get_free_tcb
unfoldable pub get_free_tcb : Kernel → Kernel × Ptr
unfolding free_slot
get_free_tcb k = elim (free_slot max_tasks k 0) [
  | none ↦ (k, none)
  | some i ↦ (record k { tcb_used = update k.tcb_used i true }, some i)
]

-- free_tcb, of `&tcb_pool[t]`
unfoldable pub free_tcb : Kernel → ℕ → Kernel
free_tcb k t = if ltb t max_tasks then record k { tcb_used = update k.tcb_used t false } else k

-- A control block of zero bytes.
abbrev pub zero_tcb : Tcb
zero_tcb = record {
  stack_base = 0;
  stack_size = 0;
  stack_pointer = 0;
  stack_alloc = 0;
  name = replicate task_name_max_len 0;
  state = ready;
  priority = 0;
  user = false;
  svc_blocked = false;
  timed_out = false;
  next = none;
  wait_next = none;
  delay_ticks = 0;
  blocking_wait_list = none;
  task_function = 0;
  arg = 0;
}

-- task_init
unfoldable pub task_init : Kernel → Kernel
unfolding Sched.init
task_init k = Sched.init (record k { tcb = λ _. zero_tcb; tcb_used = λ _. false })

-- `*(--sp) = v`: the words are written downwards from `sp`.
abbrev pub push_words : (ℕ → ℕ) → ℕ → List ℕ → ℕ → ℕ
push_words m sp [] = m
push_words m sp (v ∷ vs) = push_words (update m (sp - 4) v) (sp - 4) vs

-- xPSR, PC, LR, R12, R3, R2, R1, R0, and R11 to R4
abbrev pub initial_frame : ℕ → ℕ → List ℕ
initial_frame task_fn arg =
    0x0100_0000 ∷ task_fn ∷ 0xffff_fffd ∷ 0 ∷ 0 ∷ 0 ∷ 0 ∷ arg ∷ replicate 8 0

-- The top of a stack, aligned to 8 bytes.
abbrev pub stack_top : ℕ → ℕ → ℕ
stack_top base size = (base + size) % 2 ^ 32 / 8 * 8

-- stack_init: the memory with the first frame, and the stack pointer.
unfoldable pub stack_init : (ℕ → ℕ) → ℕ → ℕ → ℕ → ℕ → (ℕ → ℕ) × ℕ
stack_init m base size task_fn arg =
    let top = stack_top base size in (push_words m top (initial_frame task_fn arg), top - 64)

-- `v |= v >> k`
abbrev pub smear : ℕ → ℕ → ℕ
smear v k = bit_or v (v / 2 ^ k)

-- next_power_of_two
unfoldable pub next_power_of_two : ℕ → ℕ
next_power_of_two v =
    if v == 0
    then 32
    else if leb v 32
    then 32
    else (smear (smear (smear (smear (smear (v - 1) 1) 2) 4) 8) 16 + 1) % 2 ^ 32

-- PORT_STACK_GUARD_SIZE
abbrev pub guard_size : ℕ
guard_size = 256

-- The bytes that task_create asks for: the stack, the guard, and room to align the stack.
abbrev pub alloc_bytes : ℕ → ℕ
alloc_bytes stack = stack + guard_size + (stack - 1)

-- `(a + guard + (stack - 1)) & ~(stack - 1)`, for a power of two
abbrev pub base_in : ℕ → ℕ → ℕ
base_in a stack = (a + guard_size + (stack - 1)) % 2 ^ 32 / stack * stack

-- The bytes `ws` over the first ones of `bytes`.
abbrev pub overlay : List ℕ → List ℕ → List ℕ
overlay [] bytes = bytes
overlay (w ∷ ws) [] = []
overlay (w ∷ ws) (b ∷ bs) = w ∷ overlay ws bs

-- The `name` field: the copy by strncpy, ended by a NUL; all zero for a NULL name.
unfoldable pub stored_name : Option (List ℕ) → List ℕ
unfolding strncpy
stored_name none = replicate task_name_max_len 0
stored_name (some name) =
    set (overlay (strncpy name (task_name_max_len - 1)) (replicate task_name_max_len 0))
      (task_name_max_len - 1) 0

-- The part of task_create that follows a successful allocation at `a`.
unfoldable pub set_up : Kernel → ℕ → ℕ → ℕ → Option (List ℕ) → ℕ → ℕ → ℕ → Kernel
unfolding stack_init stored_name Sched.add_task
set_up k t a task_fn name priority stack arg =
    let base = base_in a stack in
    let (m, sp) = stack_init (update k.word a 0xdead_beef) base stack task_fn arg in
    let k' = record k {
      word = m;
      tcb = update k.tcb t (record zero_tcb {
        stack_base = base;
        stack_alloc = a;
        stack_size = stack;
        stack_pointer = sp;
        priority = priority;
        task_function = task_fn;
        arg = arg;
        name = stored_name name;
      });
    } in
    Sched.add_task k' t

-- task_create
unfoldable pub task_create : Machine → ℕ → Option (List ℕ) → ℕ → ℕ → ℕ → Option Machine
unfolding get_free_tcb free_tcb next_power_of_two Alloc.malloc set_up
task_create s task_fn name priority stack_size arg =
    let (k, slot) = get_free_tcb s.kernel in
    let stack = next_power_of_two stack_size in
    if leb max_task_priorities priority || (stack_size == 0 || ltb max_task_stack_size stack_size)
    then some s
    else elim slot [
      | none ↦ some (record s { kernel = k })
      | some t ↦ do
        (h, a) ← Alloc.malloc s.heap (alloc_bytes stack)
        some (
            if a == 0
            then record { kernel = free_tcb k t; heap = h }
            else record { kernel = set_up k t a task_fn name priority stack arg; heap = h })
    ]

-- task_delete, of a task that is not NULL
unfoldable pub task_delete : Machine → ℕ → Option Machine
unfolding Sched.remove_task Alloc.free free_tcb
task_delete s t = do
  k ← Sched.remove_task s.kernel t
  let a = (k.tcb t).stack_alloc
  h ← if a == 0 then some s.heap else Alloc.free s.heap a
  let k' = if a == 0 then k else set_tcb k t (record (k.tcb t) { stack_alloc = 0; stack_base = 0 })
  some (record { kernel = free_tcb k' t; heap = h })

-- task_yield
unfoldable pub task_yield : Kernel → Kernel
task_yield = trigger_pendsv

-- z_impl_task_delay
unfoldable pub task_delay : Kernel → ℕ → Kernel
unfolding Sched.sleep
task_delay k ticks =
    if ticks == 0
    then k
    else elim k.current_task [ none ↦ k | some t ↦ trigger_pendsv (Sched.sleep k t ticks) ]
