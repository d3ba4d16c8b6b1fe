-- ===== src/Svc/Rings.antt =====
-- kernel/kwork.c, dispatch: a work item's dispatch leaves the ring and kernel_tcb alone.
use crest_rtos.Base.{
  ◌+◌, ◌%◌, ◌^◌, ◌||◌, ℕ, ◌≡◌, refl, subst, Bool, true, false, Option, none, some, ◌==◌,
  if◌then◌else◌, Ptr, ◌>>=◌,
}
use crest_rtos.Kernel.{minus_one, Item, Kernel}
use crest_rtos.Sync.{Status, success, failure}
use crest_rtos.Alloc
use crest_rtos.Kobject
use crest_rtos.Kobject.{KobjType, kobj_invalid, queue_object, sem_object, mutex_object}
use crest_rtos.Kwork.{Ring, WorkItem}
use crest_rtos.Dispatch.{
  System, with_kernel, overflows, total_bytes, complete, settle, copy_out, publish, sem_create,
  mutex_create, queue_create, queue_init, do_delay, do_send, do_recv, do_sem_post, do_sem_wait,
  do_mutex_lock, do_mutex_unlock, Syscall, delay, queue_send, queue_recv, sem_post, sem_wait,
  mutex_lock, mutex_unlock, uart_write, create_queue, create_sem, create_mutex, unknown,
  dispatch_as, dispatch, decode_from, syscalls,
}

-- A system with the ring `r` and the kernel task `p`.
pub record HasRing (r : Ring) (p : Ptr) (s : System) : Type 0 where
  pub ring : s.ring ≡ r
  pub task : s.kernel_tcb ≡ p

-- What an optional value satisfies, if it is there.
pub record Keeps {ℓ} {A : Type ℓ} (P : A → Type 0) (o : Option A) : Type ℓ where
  pub holds : (a : A) → o ≡ some a → P a

some_inj {ℓ} : {A : Type ℓ} (a b : A) → some a ≡ some b → a ≡ b
some_inj a b e = cc

pub Keeps-some {ℓ} : {A : Type ℓ} {P : A → Type 0} {a : A} → P a → Keeps P (some a)
Keeps-some {P} {a} h = record { holds = λ b e. subst P (some_inj a b e) h }

pub Keeps-bind {ℓ κ} :
    {A : Type ℓ} {B : Type κ} {Q : B → Type 0} {f : A → Option B} (o : Option A)
    → ((a : A) → Keeps Q (f a))
    → Keeps Q (o >>= f)
Keeps-bind none g = record { holds = λ b e. cc }
Keeps-bind (some a) g = g a

-- The same, where the first part keeps something.
pub Keeps-then {ℓ κ} :
    {A : Type ℓ} {B : Type κ} {P : A → Type 0} {Q : B → Type 0} {o : Option A} {f : A → Option B}
    → Keeps P o
    → ((a : A) → P a → Keeps Q (f a))
    → Keeps Q (o >>= f)
Keeps-then {o = none} h g = record { holds = λ b e. cc }
Keeps-then {o = some a} h g = g a (h.holds a refl)

pub Keeps-if {ℓ} :
    {A : Type ℓ} {P : A → Type 0} {x y : Option A} (b : Bool)
    → Keeps P x
    → Keeps P y
    → Keeps P (if b then x else y)
Keeps-if true p q = p
Keeps-if false p q = q

pub Keeps-by_status {ℓ} :
    {A : Type ℓ} {P : A → Type 0} {x y : Option A} (r : Status)
    → Keeps P x
    → Keeps P y
    → Keeps P (elim r [ success ↦ x | failure ↦ y ])
Keeps-by_status success p q = p
Keeps-by_status failure p q = q

Keeps-ptr {ℓ} :
    {A : Type ℓ} {P : A → Type 0} {x : Option A} {f : ℕ → Option A} (o : Ptr)
    → Keeps P x
    → ((t : ℕ) → Keeps P (f t))
    → Keeps P (elim o [ none ↦ x | some t ↦ f t ])
Keeps-ptr none h g = h
Keeps-ptr (some t) h g = g t

module _ (r : Ring) (p : Ptr) where
  HasRing-complete :
      (s : System) (t : Ptr) (result : ℕ) → HasRing r p s → HasRing r p (complete s t result)
  unfolding complete
  HasRing-complete s none result h = h
  HasRing-complete s (some t) result h = record { ring = h.ring; task = h.task }

  HasRing-kernel : (s : System) (k : Kernel) → HasRing r p s → HasRing r p (with_kernel s k)
  HasRing-kernel s k h = record { ring = h.ring; task = h.task }

  either :
      (b : Bool) (x y : System) → HasRing r p x → HasRing r p y → HasRing r p (if b then x else y)
  either true x y a c = a
  either false x y a c = c

  HasRing-settle :
      (s : System) (t : Ptr) (timeout : ℕ) (o : Kernel × Status)
      → HasRing r p s
      → HasRing r p (settle s t timeout o)
  HasRing-settle s t timeout (k, success) h =
      HasRing-complete (with_kernel s k) t 0 (HasRing-kernel s k h)
  HasRing-settle s t timeout (k, failure) h =
      either (timeout == 0) (complete (with_kernel s k) t minus_one) (with_kernel s k)
        (HasRing-complete (with_kernel s k) t minus_one (HasRing-kernel s k h))
        (HasRing-kernel s k h)

  HasRing-copy_out :
      (s : System) (a : ℕ) (o : Option Item) → HasRing r p s → HasRing r p (copy_out s a o)
  HasRing-copy_out s a none h = h
  HasRing-copy_out s a (some item) h = record { ring = h.ring; task = h.task }

  abbrev KeepsPair : Option (System × ℕ) → Type 0
  KeepsPair o = Keeps (λ (a : System × ℕ). HasRing r p a.0) o

  sem_create-Keeps : (s : System) (n : ℕ) → HasRing r p s → KeepsPair (sem_create s n)
  unfolding sem_create
  sem_create-Keeps s n h = Keeps-bind (Alloc.malloc s.heap 8) (λ a.
      Keeps-if (a.1 == 0) (Keeps-some (record { ring = h.ring; task = h.task }))
        (Keeps-some (record { ring = h.ring; task = h.task })))

  mutex_create-Keeps : (s : System) → HasRing r p s → KeepsPair (mutex_create s)
  unfolding mutex_create
  mutex_create-Keeps s h = Keeps-bind (Alloc.malloc s.heap 8) (λ a.
      Keeps-if (a.1 == 0) (Keeps-some (record { ring = h.ring; task = h.task }))
        (Keeps-some (record { ring = h.ring; task = h.task })))

  queue_init-Keeps :
      (s : System) (q item_size size : ℕ)
      → HasRing r p s
      → Keeps (λ (a : System × Status). HasRing r p a.0) (queue_init s q item_size size)
  unfolding queue_init
  queue_init-Keeps s q item_size size h =
      let slots = (size + 1) % 2 ^ 32 in
      Keeps-if ((q == 0) || ((item_size == 0) || (size == 0))) (Keeps-some h) (
        Keeps-if (overflows item_size slots) (Keeps-some (record { ring = h.ring; task = h.task }))
          (Keeps-bind (Alloc.malloc s.heap (total_bytes item_size slots))
            (λ a. Keeps-some (record { ring = h.ring; task = h.task }))))

  queue_create-Keeps :
      (s : System) (item_size size : ℕ) → HasRing r p s → KeepsPair (queue_create s item_size size)
  unfolding queue_create
  queue_create-Keeps s item_size size h =
      Keeps-if ((item_size == 0) || (size == 0)) (Keeps-some h) (
        Keeps-bind (Alloc.malloc s.heap 32) (λ a.
          Keeps-if (a.1 == 0) (Keeps-some (record { ring = h.ring; task = h.task })) (
            Keeps-then
              (queue_init-Keeps (record s { heap = a.0 }) a.1 item_size size
                (record { ring = h.ring; task = h.task }))
              (λ b kept. Keeps-by_status b.1 (Keeps-some kept) (
                Keeps-bind (Alloc.free b.0.heap a.1)
                  (λ h'. Keeps-some (record { ring = kept.ring; task = kept.task })))))))

  HasRing-publish :
      (caller : Ptr) (ty : KobjType) (a : System × ℕ)
      → HasRing r p a.0
      → HasRing r p (publish caller ty a)
  unfolding publish
  HasRing-publish caller ty (s, q) h =
      either (q == 0) (complete s caller kobj_invalid)
        (complete (record s { table = (Kobject.alloc s.table q ty).0 }) caller
          (Kobject.alloc s.table q ty).1)
        (HasRing-complete s caller kobj_invalid h)
        (HasRing-complete (record s { table = (Kobject.alloc s.table q ty).0 }) caller
          (Kobject.alloc s.table q ty).1 (record { ring = h.ring; task = h.task }))

  do_delay-Keeps : (s : System) (w : WorkItem) → HasRing r p s → Keeps (HasRing r p) (do_delay s w)
  unfolding do_delay
  do_delay-Keeps s w h =
      Keeps-ptr w.caller (Keeps-some h) (λ t. Keeps-some (record { ring = h.ring; task = h.task }))

  do_send-Keeps : (s : System) (w : WorkItem) → HasRing r p s → Keeps (HasRing r p) (do_send s w)
  unfolding do_send
  do_send-Keeps s w h =
      Keeps-if _ (Keeps-some (HasRing-complete s w.caller minus_one h))
        (Keeps-bind _ (λ a. Keeps-some (HasRing-complete _ w.caller _ (HasRing-kernel s a.0 h))))

  do_recv-Keeps : (s : System) (w : WorkItem) → HasRing r p s → Keeps (HasRing r p) (do_recv s w)
  unfolding do_recv
  do_recv-Keeps s w h = Keeps-if _ (Keeps-some (HasRing-complete s w.caller minus_one h)) (
      Keeps-bind _ (λ a.
        Keeps-some
          (HasRing-complete _ w.caller _ (HasRing-copy_out _ w.arg1 a.2 (HasRing-kernel s a.0 h)))))

  do_sem_post-Keeps :
      (s : System) (w : WorkItem) → HasRing r p s → Keeps (HasRing r p) (do_sem_post s w)
  unfolding do_sem_post
  do_sem_post-Keeps s w h =
      Keeps-if _ (Keeps-some (HasRing-complete s w.caller minus_one h))
        (Keeps-some (HasRing-complete _ w.caller 0 (HasRing-kernel s _ h)))

  do_sem_wait-Keeps :
      (s : System) (w : WorkItem) → HasRing r p s → Keeps (HasRing r p) (do_sem_wait s w)
  unfolding do_sem_wait
  do_sem_wait-Keeps s w h =
      Keeps-if _ (Keeps-some (HasRing-complete s w.caller minus_one h))
        (Keeps-bind _ (λ a. Keeps-some (HasRing-settle s w.caller w.arg1 _ h)))

  do_mutex_lock-Keeps :
      (s : System) (w : WorkItem) → HasRing r p s → Keeps (HasRing r p) (do_mutex_lock s w)
  unfolding do_mutex_lock
  do_mutex_lock-Keeps s w h =
      Keeps-if _ (Keeps-some (HasRing-complete s w.caller minus_one h))
        (Keeps-bind _ (λ a. Keeps-some (HasRing-settle s w.caller w.arg1 _ h)))

  do_mutex_unlock-Keeps :
      (s : System) (w : WorkItem) → HasRing r p s → Keeps (HasRing r p) (do_mutex_unlock s w)
  unfolding do_mutex_unlock
  do_mutex_unlock-Keeps s w h =
      Keeps-if _ (Keeps-some (HasRing-complete s w.caller minus_one h))
        (Keeps-bind _ (λ a. Keeps-some (HasRing-complete _ w.caller 0 (HasRing-kernel s _ h))))

  dispatch_as-Keeps :
      (c : Syscall) (s : System) (w : WorkItem)
      → HasRing r p s
      → Keeps (HasRing r p) (dispatch_as c s w)
  unfolding dispatch_as
  dispatch_as-Keeps delay s w h = do_delay-Keeps s w h
  dispatch_as-Keeps queue_send s w h = do_send-Keeps s w h
  dispatch_as-Keeps queue_recv s w h = do_recv-Keeps s w h
  dispatch_as-Keeps sem_post s w h = do_sem_post-Keeps s w h
  dispatch_as-Keeps sem_wait s w h = do_sem_wait-Keeps s w h
  dispatch_as-Keeps mutex_lock s w h = do_mutex_lock-Keeps s w h
  dispatch_as-Keeps mutex_unlock s w h = do_mutex_unlock-Keeps s w h
  dispatch_as-Keeps uart_write s w h =
      Keeps-some (HasRing-complete _ w.caller 0 (record { ring = h.ring; task = h.task }))
  dispatch_as-Keeps create_queue s w h =
      Keeps-then (queue_create-Keeps s w.arg0 w.arg1 h)
        (λ a kept. Keeps-some (HasRing-publish w.caller queue_object a kept))
  dispatch_as-Keeps create_sem s w h =
      Keeps-then (sem_create-Keeps s w.arg0 h)
        (λ a kept. Keeps-some (HasRing-publish w.caller sem_object a kept))
  dispatch_as-Keeps create_mutex s w h =
      Keeps-then (mutex_create-Keeps s h)
        (λ a kept. Keeps-some (HasRing-publish w.caller mutex_object a kept))
  dispatch_as-Keeps unknown s w h = Keeps-some (HasRing-complete s w.caller minus_one h)

  -- dispatch of any work item.
  pub dispatch-Keeps :
      (s : System) (w : WorkItem) → HasRing r p s → Keeps (HasRing r p) (dispatch s w)
  unfolding dispatch
  dispatch-Keeps s w h = dispatch_as-Keeps (decode_from syscalls w.id) s w h
