-- ===== src/Dispatch.antt =====
-- kernel/kwork.c, dispatch and complete, with the allocating halves of kernel/semaphore.c,
-- kernel/mutex.c and kernel/queue.c: what the kernel task does with a work item.
pub mod Delay
pub mod Sizes
mod Tests
use crest_rtos.Base.{
  false, ℕ, ◌+◌, ◌*◌, ◌/◌, ◌%◌, ◌^◌, Bool, not, ◌&&◌, ◌||◌, Option, none, some, ◌==◌, ltb,
  if◌then◌else◌, Ptr, List, [], ◌∷◌, ◌++◌, update, ◌>>=◌,
}
use crest_rtos.Kernel.{minus_one, Item, Queue, Kernel, set_tcb, set_sem, set_mutex, set_queue}
use crest_rtos.Sched
use crest_rtos.Sched.{wake_task, saved_r0}
use crest_rtos.Sync.{Status, success, failure, code, Outcome, returned}
use crest_rtos.Sem
use crest_rtos.Mutex
use crest_rtos.Queue
use crest_rtos.Kobject
use crest_rtos.Kobject.{Table, KobjType, queue_object, sem_object, mutex_object, kobj_invalid}
use crest_rtos.Alloc
use crest_rtos.Alloc.{Heap}
use crest_rtos.Kwork.{Ring, WorkItem}

-- The whole state: the kernel, the handle table, the kernel heap, the ring of work items with
-- kernel_tcb, the callers' item buffers by address, and the texts handed to uart_write.
pub record System : Type 0 where
  pub kernel : Kernel
  pub table : Table
  pub heap : Heap
  pub ring : Ring
  pub kernel_tcb : Ptr
  pub items : ℕ → Item
  pub uart : List ℕ

abbrev pub with_kernel : System → Kernel → System
with_kernel s k = record s { kernel = k }

-- complete
unfoldable pub complete : System → Ptr → ℕ → System
unfolding wake_task
complete s none result = s
complete s (some t) result = with_kernel s (wake_task s.kernel t result)

-- z_impl_sem_create; `(initial_count >= 0) ? initial_count : 0` on the bits of an `int`.
unfoldable pub sem_create : System → ℕ → Option (System × ℕ)
unfolding Alloc.malloc
sem_create s initial = do
  (h, p) ← Alloc.malloc s.heap 8
  let count = if ltb initial (2 ^ 31) then initial else 0
  let k = set_sem s.kernel p (record { count = count; wait_list = none })
  if p == 0 then some (record s { heap = h }, 0) else some (record s { heap = h; kernel = k }, p)

-- z_impl_mutex_create
unfoldable pub mutex_create : System → Option (System × ℕ)
unfolding Alloc.malloc
mutex_create s = do
  (h, p) ← Alloc.malloc s.heap 8
  let k = set_mutex s.kernel p (record { owner = none; wait_list = none })
  if p == 0 then some (record s { heap = h }, 0) else some (record s { heap = h; kernel = k }, p)

-- The fields that queue_init sets; the buffer's bytes are not initialised, and stay what they were.
abbrev pub fresh_queue : Kernel → ℕ → ℕ → ℕ → Queue
fresh_queue k p item_size size = record {
  item_size = item_size;
  size = size;
  slots = (size + 1) % 2 ^ 32;
  head = 0;
  tail = 0;
  buffer = (k.queue p).buffer;
  send_wait = none;
  recv_wait = none;
}

-- The byte count of a queue's buffer, and the test of queue_init that it did not overflow.
abbrev pub total_bytes : ℕ → ℕ → ℕ
total_bytes item_size slots = item_size * slots % 2 ^ 32

abbrev pub overflows : ℕ → ℕ → Bool
overflows item_size slots =
    not (slots == 0) && not (total_bytes item_size slots / slots == item_size)

-- queue_init, of the queue at `p`; the result is 0 or -1
unfoldable pub queue_init : System → ℕ → ℕ → ℕ → Option (System × Status)
unfolding Alloc.malloc
queue_init s p item_size size =
    let slots = (size + 1) % 2 ^ 32 in
    let s' = with_kernel s (set_queue s.kernel p (fresh_queue s.kernel p item_size size)) in
    if p == 0 || (item_size == 0 || size == 0)
    then some (s, failure)
    else if overflows item_size slots
    then some (s', failure)
    else do
      (h, b) ← Alloc.malloc s.heap (total_bytes item_size slots)
      some (record s' { heap = h }, if b == 0 then failure else success)

-- z_impl_queue_create; sizeof(queue_t) is 32
unfoldable pub queue_create : System → ℕ → ℕ → Option (System × ℕ)
unfolding Alloc.malloc Alloc.free queue_init
queue_create s item_size size = if item_size == 0 || size == 0 then some (s, 0) else do
  (h, p) ← Alloc.malloc s.heap 32
  if p == 0 then some (record s { heap = h }, 0) else do
    (s', r) ← queue_init (record s { heap = h }) p item_size size
    elim r [
      | success ↦ some (s', p)
      | failure ↦ do h' ← Alloc.free s'.heap p; some (record s' { heap = h' }, 0)
    ]

-- `q ? k_obj_alloc(q, type) : KOBJ_INVALID`, delivered to the caller.
unfoldable pub publish : Ptr → KobjType → System × ℕ → System
unfolding Kobject.alloc complete
publish caller ty (s, p) =
    let (t, h) = Kobject.alloc s.table p ty in
    if p == 0 then complete s caller kobj_invalid else complete (record s { table = t }) caller h

-- SYSCALL_DELAY
unfoldable pub do_delay : System → WorkItem → Option System
unfolding Sched.sleep
do_delay s w = elim w.caller [
  | none ↦ some s
  | some t ↦
      let k = s.kernel in
      let k' = record k { word = update k.word (saved_r0 (k.tcb t)) 0 } in
      let k'' = set_tcb k' t (record (k'.tcb t) { svc_blocked = false }) in
      some (with_kernel s (Sched.sleep k'' t w.arg0))
]

-- The result of a call that the kernel task made with timeout 0, as a number.
abbrev pub result_code : Outcome → ℕ
result_code (returned r) = code r
result_code _ = minus_one

-- SYSCALL_QUEUE_SEND, at the queue that the handle names
unfoldable pub do_send : System → WorkItem → Option System
unfolding Kobject.get Queue.push complete
do_send s w =
    let p = Kobject.get s.table w.arg0 queue_object in
    if p == 0 then some (complete s w.caller minus_one) else do
      (k, r) ← Queue.push s.kernel p (s.items w.arg1) 0
      some (complete (with_kernel s k) w.caller (result_code r))

-- The item that was popped, if any, is copied to the caller's buffer.
abbrev pub copy_out : System → ℕ → Option Item → System
copy_out s a none = s
copy_out s a (some item) = record s { items = update s.items a item }

-- SYSCALL_QUEUE_RECV
unfoldable pub do_recv : System → WorkItem → Option System
unfolding Kobject.get Queue.pop complete
do_recv s w =
    let p = Kobject.get s.table w.arg0 queue_object in
    if p == 0 then some (complete s w.caller minus_one) else do
      (k, r, item) ← Queue.pop s.kernel p 0
      some (complete (copy_out (with_kernel s k) w.arg1 item) w.caller (result_code r))

-- SYSCALL_SEM_POST
unfoldable pub do_sem_post : System → WorkItem → Option System
unfolding Kobject.get Sem.give complete
do_sem_post s w =
    let p = Kobject.get s.table w.arg0 sem_object in
    if p == 0
    then some (complete s w.caller minus_one)
    else some (complete (with_kernel s (Sem.give s.kernel p)) w.caller 0)

-- What follows a try on behalf of a caller: the result is delivered, or the caller waits on.
abbrev pub settle : System → Ptr → ℕ → Kernel × Status → System
settle s caller timeout (k, success) = complete (with_kernel s k) caller 0
settle s caller timeout (k, failure) =
    if timeout == 0 then complete (with_kernel s k) caller minus_one else with_kernel s k

-- SYSCALL_SEM_WAIT and SYSCALL_MUTEX_LOCK; a NULL caller would be dereferenced (`none`).
unfoldable pub do_sem_wait : System → WorkItem → Option System
unfolding Kobject.get Sem.try_take_timeout complete
do_sem_wait s w =
    let p = Kobject.get s.table w.arg0 sem_object in
    if p == 0
    then some (complete s w.caller minus_one)
    else do t ← w.caller; some (settle s w.caller w.arg1 (Sem.try_take_timeout s.kernel p t w.arg1))

unfoldable pub do_mutex_lock : System → WorkItem → Option System
unfolding Kobject.get Mutex.try_lock_timeout complete
do_mutex_lock s w =
    let p = Kobject.get s.table w.arg0 mutex_object in
    if p == 0 then some (complete s w.caller minus_one) else do
      t ← w.caller
      some (settle s w.caller w.arg1 (Mutex.try_lock_timeout s.kernel p t w.arg1))

-- SYSCALL_MUTEX_UNLOCK
unfoldable pub do_mutex_unlock : System → WorkItem → Option System
unfolding Kobject.get Mutex.unlock_for complete
do_mutex_unlock s w =
    let p = Kobject.get s.table w.arg0 mutex_object in
    if p == 0
    then some (complete s w.caller minus_one)
    else do t ← w.caller; some (complete (with_kernel s (Mutex.unlock_for s.kernel p t)) w.caller 0)

-- syscall_id_t (kernel/include/syscall.h)
pub data Syscall : Type 0 where
  delay queue_send queue_recv sem_post sem_wait mutex_lock mutex_unlock uart_write : Syscall
  create_queue create_sem create_mutex unknown : Syscall

abbrev pub syscalls : List Syscall
syscalls =
    delay ∷ queue_send ∷ queue_recv ∷ sem_post ∷ sem_wait ∷ mutex_lock ∷ mutex_unlock ∷ uart_write
    ∷ create_queue ∷ create_sem ∷ create_mutex ∷ []

-- The values of the enumeration; `unknown` stands for SYSCALL_MAX.
abbrev pub encode : Syscall → ℕ
encode delay = 0
encode queue_send = 1
encode queue_recv = 2
encode sem_post = 3
encode sem_wait = 4
encode mutex_lock = 5
encode mutex_unlock = 6
encode uart_write = 7
encode create_queue = 8
encode create_sem = 9
encode create_mutex = 10
encode unknown = 11

-- `(syscall_id_t)n`
abbrev pub decode_from : List Syscall → ℕ → Syscall
decode_from [] n = unknown
decode_from (c ∷ cs) n = if n == 0 then c else decode_from cs (crest_rtos.Base.◌-◌ n 1)

-- The switch of dispatch.
unfoldable pub dispatch_as : Syscall → System → WorkItem → Option System
unfolding do_delay do_send do_recv do_sem_post do_sem_wait do_mutex_lock do_mutex_unlock complete
    sem_create mutex_create queue_create publish
dispatch_as delay s w = do_delay s w
dispatch_as queue_send s w = do_send s w
dispatch_as queue_recv s w = do_recv s w
dispatch_as sem_post s w = do_sem_post s w
dispatch_as sem_wait s w = do_sem_wait s w
dispatch_as mutex_lock s w = do_mutex_lock s w
dispatch_as mutex_unlock s w = do_mutex_unlock s w
dispatch_as uart_write s w =
    some (complete (record s { uart = s.uart ++ (w.arg0 ∷ []) }) w.caller 0)
dispatch_as create_queue s w = do
  r ← queue_create s w.arg0 w.arg1
  some (publish w.caller queue_object r)
dispatch_as create_sem s w = do r ← sem_create s w.arg0; some (publish w.caller sem_object r)
dispatch_as create_mutex s w = do r ← mutex_create s; some (publish w.caller mutex_object r)
dispatch_as unknown s w = some (complete s w.caller minus_one)

-- dispatch
unfoldable pub dispatch : System → WorkItem → Option System
unfolding dispatch_as
dispatch s w = dispatch_as (decode_from syscalls w.id) s w
