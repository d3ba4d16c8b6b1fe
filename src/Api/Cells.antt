-- ===== src/Api/Cells.antt =====
-- kernel/syscall_api.c: a call that does not wait leaves the control block of every task alone that
-- stands on no wait list.
use crest_rtos.Base.{
  ℕ, ◌+◌, ◌%◌, ◌^◌, ◌||◌, Bool, true, false, Bool-cases, Option, none, some, ◌==◌, ==_refl,
  ==_of_ne, if◌then◌else◌, Ptr, ◌≡◌, ◌≢◌, refl, sym, ap, ◌∙◌, inl, inr,
}
use crest_rtos.Kernel.{
  WaitRef, sem_waiters, mutex_waiters, send_waiters, recv_waiters, wait_head, set_wait_head, Item,
  Kernel, Tcb,
}
use crest_rtos.Sched.{wake_task}
use crest_rtos.Sync.{Status, release_front, Outcome}
use crest_rtos.Alloc
use crest_rtos.Kobject
use crest_rtos.Kobject.{KobjType, kobj_invalid, queue_object, sem_object, mutex_object}
use crest_rtos.Sem
use crest_rtos.Queue
use crest_rtos.Queue.{next_index, wake_first, store_item, drop_item}
use crest_rtos.Dispatch
use crest_rtos.Dispatch.{System, with_kernel, overflows, total_bytes, copy_out, queue_init}
use crest_rtos.Svc.Rings.{Keeps, Keeps-some, Keeps-then, Keeps-bind, Keeps-if, Keeps-by_status}
use crest_rtos.Api.{Return, value, hand_out}
use crest_rtos.Api.Served.{
  Call, uart_write, create_queue, push, pop, create_sem, give, take, create_mutex, issue, at_once,
}

-- Task `t` is at the front of no wait list.
abbrev pub IsFree : Kernel → ℕ → Type 0
IsFree k t = (ref : WaitRef) → wait_head k ref ≢ some t

module _ (t : ℕ) where
  tcb-set_wait_head : (k : Kernel) (ref : WaitRef) (p : Ptr) → (set_wait_head k ref p).tcb ≡ k.tcb
  tcb-set_wait_head k (sem_waiters q) p = refl
  tcb-set_wait_head k (mutex_waiters q) p = refl
  tcb-set_wait_head k (send_waiters q) p = refl
  tcb-set_wait_head k (recv_waiters q) p = refl

  wake-other : (k : Kernel) (w v : ℕ) → t ≢ w → (wake_task k w v).tcb t ≡ k.tcb t
  unfolding wake_task
  wake-other k w v ne = elim (Bool-cases (k.tcb w).svc_blocked) [
    | inl e ↦ rw (e, ==_of_ne t w ne) refl
    | inr e ↦ rw (e, ==_of_ne t w ne) refl
  ]

  release-other :
      (k : Kernel) (ref : WaitRef) (w : ℕ) → t ≢ w → (release_front k ref w).tcb t ≡ k.tcb t
  unfolding release_front
  release-other k ref w ne =
      rw (==_of_ne t w ne) (ap (λ f. f t) (tcb-set_wait_head k ref (k.tcb w).wait_next))

  woken-other :
      (k : Kernel) (ref : WaitRef) (w : ℕ)
      → t ≢ w
      → (wake_task (release_front k ref w) w 0).tcb t ≡ k.tcb t
  woken-other k ref w ne = wake-other (release_front k ref w) w 0 ne ∙ release-other k ref w ne

  -- The wake-up at the head of a wait list, as the code chooses it.
  by_head :
      (k : Kernel) (ref : WaitRef) (k' : Kernel) (o : Ptr)
      → wait_head k ref ≡ o
      → o ≢ some t
      → k'.tcb t ≡ k.tcb t
      → (let r : Kernel = elim o [ none ↦ k' | some w ↦ wake_task (release_front k ref w) w 0 ] in
          r.tcb t)
        ≡ k.tcb t
  by_head k ref k' none e ne same = same
  by_head k ref k' (some w) e ne same = woken-other k ref w (λ q. ne (ap some (sym q)))

  wake_first-other :
      (k : Kernel) (ref : WaitRef) → wait_head k ref ≢ some t → (wake_first k ref).tcb t ≡ k.tcb t
  unfolding wake_first
  wake_first-other k ref ne = by_head k ref k (wait_head k ref) refl ne refl

  give-other : (k : Kernel) (p : ℕ) → IsFree k t → (Sem.give k p).tcb t ≡ k.tcb t
  unfolding Sem.give
  give-other k p free =
      by_head k (sem_waiters p) (Sem.set_count k p (((k.sem p).count + 1) % 2 ^ 32))
        (k.sem p).wait_list refl (free (sem_waiters p)) refl

  take-other : (k : Kernel) (p : ℕ) → (Sem.take_timeout k p 0).0.tcb t ≡ k.tcb t
  unfolding Sem.take_timeout
  take-other k p = elim (Bool-cases (Sem.is_positive (k.sem p).count)) [
    | inl e ↦ rw e refl
    | inr e ↦ rw e refl
  ]

  module _ (cell : Tcb) where
    abbrev HasCell : System → Type 0
    HasCell s = s.kernel.tcb t ≡ cell

    abbrev FirstHas : (A : Type 0) → System × A → Type 0
    FirstHas A a = HasCell a.0

    push-cell :
        (k : Kernel) (p : ℕ) (x : Item)
        → IsFree k t
        → k.tcb t ≡ cell
        → Keeps (λ (a : Kernel × Outcome). a.0.tcb t ≡ cell) (Queue.push k p x 0)
    unfolding Queue.push store_item
    push-cell k p x free h =
        Keeps-if (next_index (k.queue p) (k.queue p).tail == (k.queue p).head) (Keeps-some h) (
          Keeps-some (
            wake_first-other (store_item k p x) (recv_waiters p)
              (rw (==_refl p, wait_head) (free (recv_waiters p)))
            ∙ h))

    pop-cell :
        (k : Kernel) (p : ℕ)
        → IsFree k t
        → k.tcb t ≡ cell
        → Keeps (λ (a : Kernel × Outcome × Option Item). a.0.tcb t ≡ cell) (Queue.pop k p 0)
    unfolding Queue.pop drop_item
    pop-cell k p free h = Keeps-if ((k.queue p).head == (k.queue p).tail) (Keeps-some h) (
        Keeps-some (
          wake_first-other (drop_item k p) (send_waiters p)
            (rw (==_refl p, wait_head) (free (send_waiters p)))
          ∙ h))

    copy_out-cell : (s : System) (a : ℕ) (o : Option Item) → HasCell s → HasCell (copy_out s a o)
    copy_out-cell s a none h = h
    copy_out-cell s a (some x) h = h

    hand_out-cell : (ty : KobjType) (a : System × ℕ) → HasCell a.0 → HasCell (hand_out ty a).0
    hand_out-cell ty (s, p) h = by_null (p == 0)
      where
        by_null :
            (b : Bool)
            → (let r : System × Return = if b then (s, value kobj_invalid) else (
              record s { table = (Kobject.alloc s.table p ty).0 },
              value (Kobject.alloc s.table p ty).1,
            ) in
                HasCell r.0)
        by_null true = h
        by_null false = h

    sem_create-cell :
        (s : System) (n : ℕ) → HasCell s → Keeps (FirstHas ℕ) (Dispatch.sem_create s n)
    unfolding Dispatch.sem_create
    sem_create-cell s n h =
        Keeps-bind (Alloc.malloc s.heap 8) (λ a. Keeps-if (a.1 == 0) (Keeps-some h) (Keeps-some h))

    mutex_create-cell : (s : System) → HasCell s → Keeps (FirstHas ℕ) (Dispatch.mutex_create s)
    unfolding Dispatch.mutex_create
    mutex_create-cell s h =
        Keeps-bind (Alloc.malloc s.heap 8) (λ a. Keeps-if (a.1 == 0) (Keeps-some h) (Keeps-some h))

    queue_init-cell :
        (s : System) (q item_size size : ℕ)
        → HasCell s
        → Keeps (FirstHas Status) (queue_init s q item_size size)
    unfolding queue_init
    queue_init-cell s q item_size size h =
        let slots = (size + 1) % 2 ^ 32 in
        Keeps-if ((q == 0) || ((item_size == 0) || (size == 0))) (Keeps-some h) (
          Keeps-if (overflows item_size slots) (Keeps-some h)
            (Keeps-bind (Alloc.malloc s.heap (total_bytes item_size slots)) (λ a. Keeps-some h)))

    queue_create-cell :
        (s : System) (item_size size : ℕ)
        → HasCell s
        → Keeps (FirstHas ℕ) (Dispatch.queue_create s item_size size)
    unfolding Dispatch.queue_create
    queue_create-cell s item_size size h =
        Keeps-if ((item_size == 0) || (size == 0)) (Keeps-some h) (
          Keeps-bind (Alloc.malloc s.heap 32) (λ a. Keeps-if (a.1 == 0) (Keeps-some h) (
            Keeps-then (queue_init-cell (record s { heap = a.0 }) a.1 item_size size h) (λ b kept.
              Keeps-by_status b.1 (Keeps-some kept)
                (Keeps-bind (Alloc.free b.0.heap a.1) (λ h'. Keeps-some kept))))))

    -- A call that does not wait.
    pub at_once-cell :
        (s : System) (c : Call)
        → IsFree s.kernel t
        → HasCell s
        → Keeps (FirstHas Return) (at_once s c)
    unfolding at_once issue
    at_once-cell s (uart_write p) free h = Keeps-some h
    at_once-cell s (create_queue item_size size) free h =
        Keeps-then (queue_create-cell s item_size size h)
          (λ a kept. Keeps-some (hand_out-cell queue_object a kept))
    at_once-cell s (push a x timeout) free h =
        let q = Kobject.get s.table a queue_object in
        Keeps-if (q == 0) (Keeps-some h)
          (Keeps-then (push-cell s.kernel q (s.items x) free h) (λ a kept. Keeps-some kept))
    at_once-cell s (pop a x timeout) free h =
        let q = Kobject.get s.table a queue_object in
        Keeps-if (q == 0) (Keeps-some h) (
          Keeps-then (pop-cell s.kernel q free h)
            (λ a kept. Keeps-some (copy_out-cell (with_kernel s a.0) x a.2 kept)))
    at_once-cell s (create_sem initial) free h =
        Keeps-then (sem_create-cell s initial h)
          (λ a kept. Keeps-some (hand_out-cell sem_object a kept))
    at_once-cell s (give a) free h =
        let p = Kobject.get s.table a sem_object in
        elim (Bool-cases (p == 0)) [
          | inl z ↦ rw z (Keeps-some h)
          | inr z ↦ rw z (Keeps-some (give-other s.kernel p free ∙ h))
        ]
    at_once-cell s (take a) free h =
        let p = Kobject.get s.table a sem_object in
        elim (Bool-cases (p == 0)) [
          | inl z ↦ rw z (Keeps-some h)
          | inr z ↦ rw z (Keeps-some (take-other s.kernel p ∙ h))
        ]
    at_once-cell s create_mutex free h =
        Keeps-then (mutex_create-cell s h)
          (λ a kept. Keeps-some (hand_out-cell mutex_object a kept))
