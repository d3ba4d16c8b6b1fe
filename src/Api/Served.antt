-- ===== src/Api/Served.antt =====
-- kernel/syscall_api.c with kernel/kwork.c: what the kernel task does for a trapped call is what
-- the privileged call does.
use crest_rtos.Base.{
  ℕ, Bool, true, false, Option, none, some, ◌==◌, if◌then◌else◌, Ptr, ◌≡◌, refl, inl, inr,
  Bool-cases, ◌>>=◌,
}
use crest_rtos.Kernel.{minus_one}
use crest_rtos.Kobject
use crest_rtos.Kobject.{KobjType, queue_object, sem_object, mutex_object, kobj_invalid}
use crest_rtos.Sem
use crest_rtos.Queue
use crest_rtos.Queue.{next_index}
use crest_rtos.Kwork.{WorkItem}
use crest_rtos.Dispatch
use crest_rtos.Dispatch.{System, Syscall, encode, complete, publish, dispatch}
use crest_rtos.Api.{
  Cpu, Return, value, void, k_uart_write, hand_out, queue_create, queue_push, queue_pop, sem_create,
  sem_give, sem_take, mutex_create,
}

-- The calls that do not ask which task is the current one.
pub data Call : Type 0 where
  uart_write : ℕ → Call
  create_queue : ℕ → ℕ → Call
  push : ℕ → ℕ → ℕ → Call
  pop : ℕ → ℕ → ℕ → Call
  create_sem : ℕ → Call
  give : ℕ → Call
  take : ℕ → Call
  create_mutex : Call

-- A processor in privileged thread mode.
abbrev pub privileged : Cpu
privileged = record { control = 2; frame = 0 }

-- The call by its wrapper; a take with timeout 0.
unfoldable pub issue : Cpu → System → Call → Option (System × Return)
unfolding k_uart_write queue_create queue_push queue_pop sem_create sem_give sem_take mutex_create
issue cpu s (uart_write p) = k_uart_write cpu s p
issue cpu s (create_queue item_size size) = queue_create cpu s item_size size
issue cpu s (push h a timeout) = queue_push cpu s h a timeout
issue cpu s (pop h a timeout) = queue_pop cpu s h a timeout
issue cpu s (create_sem initial) = sem_create cpu s initial
issue cpu s (give h) = sem_give cpu s h
issue cpu s (take h) = sem_take cpu s h 0
issue cpu s create_mutex = mutex_create cpu s

-- The call with timeout 0.
abbrev pub no_wait : Call → Call
no_wait (push h a timeout) = push h a 0
no_wait (pop h a timeout) = pop h a 0
no_wait c = c

-- The call of a privileged task that does not wait.
unfoldable pub at_once : System → Call → Option (System × Return)
unfolding issue
at_once s c = issue privileged s (no_wait c)

abbrev item : Syscall → ℕ → ℕ → ℕ → Ptr → WorkItem
item id arg0 arg1 arg2 caller = record {
  id = encode id;
  arg0 = arg0;
  arg1 = arg1;
  arg2 = arg2;
  arg3 = arg2;
  caller = caller;
}

-- The work item of a trapped call.
abbrev pub item_of : Call → Ptr → WorkItem
item_of (uart_write p) = item Syscall.uart_write p 0 0
item_of (create_queue item_size size) = item Syscall.create_queue item_size size 0
item_of (push h a timeout) = item Syscall.queue_send h a timeout
item_of (pop h a timeout) = item Syscall.queue_recv h a timeout
item_of (create_sem initial) = item Syscall.create_sem initial 0 0
item_of (give h) = item Syscall.sem_post h 0 0
item_of (take h) = item Syscall.sem_wait h 0 0
item_of create_mutex = item Syscall.create_mutex 0 0 0

-- The number delivered for a return: its value, and any number where the call has none.
abbrev pub Fits : Return → ℕ → Type 0
Fits (value n) v = v ≡ n
Fits void v = Unit
Fits _ v = ⊥

-- The caller is served: the state is that of the privileged call, with its value delivered.
abbrev pub Served : Option (System × Return) → Ptr → Option System → Type 0
Served none caller o = o ≡ none
Served (some (s, r)) caller o = (v : ℕ) × Fits r v × (o ≡ some (complete s caller v))

-- Either way, the state of the call with its value delivered.
chosen :
    (b : Bool) (caller : Ptr) (s s' : System) (v v' : ℕ)
    → Served
        (some (if b then (s, value v) else (s', value v')))
        caller
        (some (if b then complete s caller v else complete s' caller v'))
chosen true caller s s' v v' = (v, refl, refl)
chosen false caller s s' v v' = (v', refl, refl)

create-Served :
    (ty : KobjType) (caller : Ptr) (o : Option (System × ℕ))
    → Served (do r ← o; some (hand_out ty r)) caller (do r ← o; some (publish caller ty r))
unfolding publish
create-Served ty caller none = refl
create-Served ty caller (some (s, p)) =
    let (t, h) = Kobject.alloc s.table p ty in
    chosen (p == 0) caller s (record s { table = t }) kobj_invalid h

push-Served :
    (s : System) (caller : Ptr) (h a timeout : ℕ)
    → Served (at_once s (push h a timeout)) caller (dispatch s (item_of (push h a timeout) caller))
unfolding at_once issue dispatch Queue.push
push-Served s caller h a timeout =
    let p = Kobject.get s.table h queue_object in
    elim (Bool-cases (p == 0)) [
      | inl z ↦ rw z (minus_one, refl, refl)
      | inr z ↦
          elim (Bool-cases
            (next_index (s.kernel.queue p) (s.kernel.queue p).tail == (s.kernel.queue p).head)) [
              | inl full ↦ rw (z, full) (minus_one, refl, refl)
              | inr room ↦ rw (z, room) (0, refl, refl)
            ]
    ]

pop-Served :
    (s : System) (caller : Ptr) (h a timeout : ℕ)
    → Served (at_once s (pop h a timeout)) caller (dispatch s (item_of (pop h a timeout) caller))
unfolding at_once issue dispatch Queue.pop
pop-Served s caller h a timeout =
    let p = Kobject.get s.table h queue_object in
    elim (Bool-cases (p == 0)) [
      | inl z ↦ rw z (minus_one, refl, refl)
      | inr z ↦ elim (Bool-cases ((s.kernel.queue p).head == (s.kernel.queue p).tail)) [
        | inl empty ↦ rw (z, empty) (minus_one, refl, refl)
        | inr some_item ↦ rw (z, some_item) (0, refl, refl)
      ]
    ]

take-Served :
    (s : System) (t h : ℕ)
    → Served (at_once s (take h)) (some t) (dispatch s (item_of (take h) (some t)))
unfolding at_once issue dispatch Sem.take_timeout Sem.try_take_timeout
take-Served s t h =
    let p = Kobject.get s.table h sem_object in
    elim (Bool-cases (p == 0)) [
      | inl z ↦ rw z (minus_one, refl, refl)
      | inr z ↦ elim (Bool-cases (Sem.is_positive (s.kernel.sem p).count)) [
        | inl free ↦ rw (z, free) (0, refl, refl)
        | inr none_left ↦ rw (z, none_left) (minus_one, refl, refl)
      ]
    ]

give-Served :
    (s : System) (caller : Ptr) (h : ℕ)
    → Served (at_once s (give h)) caller (dispatch s (item_of (give h) caller))
unfolding at_once issue dispatch
give-Served s caller h = elim (Bool-cases (Kobject.get s.table h sem_object == 0)) [
  | inl z ↦ rw z (minus_one, tt, refl)
  | inr z ↦ rw z (0, tt, refl)
]

-- For every state, every calling task and every call that does not ask which task is current: what
-- the kernel task does for the trapped call is what the privileged call does in the same state,
-- and the caller gets the privileged call's value where it has one. A queue call acts as the
-- privileged one with timeout 0, whatever timeout it was given; a take is one with timeout 0.
pub dispatch-Served :
    (s : System) (t : ℕ) (c : Call)
    → Served (at_once s c) (some t) (dispatch s (item_of c (some t)))
unfolding at_once issue dispatch
dispatch-Served s t (uart_write p) = (0, tt, refl)
dispatch-Served s t (create_queue item_size size) =
    create-Served queue_object (some t) (Dispatch.queue_create s item_size size)
dispatch-Served s t (push h a timeout) = push-Served s (some t) h a timeout
dispatch-Served s t (pop h a timeout) = pop-Served s (some t) h a timeout
dispatch-Served s t (create_sem initial) =
    create-Served sem_object (some t) (Dispatch.sem_create s initial)
dispatch-Served s t (give h) = give-Served s (some t) h
dispatch-Served s t (take h) = take-Served s t h
dispatch-Served s t create_mutex = create-Served mutex_object (some t) (Dispatch.mutex_create s)
