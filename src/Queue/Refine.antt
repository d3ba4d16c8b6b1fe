-- ===== src/Queue/Refine.antt =====
-- kernel/queue.c beside the bounded queue of Queue/Spec.antt: a call that does not block.
use crest_rtos.Base.{
  ℕ, ◌≡◌, refl, inl, inr, true, arith, some, List, [], ◌∷◌, ◌++◌, length, ◌==◌, Bool-cases, ==_iff,
  ◌∙◌, ◌≢◌, subst, ap,
}
use crest_rtos.Sched.{saved_r0}
use crest_rtos.Kernel.{Tcb, Kernel, Item, recv_waiters, send_waiters}
use crest_rtos.Sync.{success, returned}
use crest_rtos.Sync.Waits.{Waits, Waits-frame}
use crest_rtos.Sync.Wake.{WakesFirst, Woken}
use crest_rtos.Queue.{push, pop, wake_first, store_item, drop_item}
use crest_rtos.Queue.Fifo.{
  Represents, WakesOn, Represents-store, Represents-drop, Represents-wake_recv,
  Represents-wake_send, full-eq, empty-eq, push-room, push-full, pop-some, pop-none,
  wake_first-WakesFirst,
}
use crest_rtos.Queue.Spec
use crest_rtos.Queue.Spec.{View, view}

module _ (k k0 k' : Kernel) where
  Woken-from : (w v : ℕ) → k.tcb ≡ k0.tcb → Woken k k' w v → Woken k0 k' w v
  Woken-from w v et h = record {
    state = h.state;
    unblocked = h.unblocked;
    unlisted = h.unlisted;
    stopped = h.stopped;
    result =
        subst (λ (f : ℕ → Tcb). (f w).svc_blocked ≡ true → k'.word (saved_r0 (f w)) ≡ v) et
          h.result;
    others = subst (λ (f : ℕ → Tcb). (u : ℕ) → u ≢ w → k'.tcb u ≡ f u) et h.others;
  }

  WakesFirst-from : (ws : List ℕ) → k.tcb ≡ k0.tcb → WakesFirst k k' ws → WakesFirst k0 k' ws
  WakesFirst-from [] et h = h ∙ et
  WakesFirst-from (w ∷ ws) et h = Woken-from w 0 et h

module _ (k : Kernel) (p : ℕ) where
  Waits-store :
      (x : Item) (ws : List ℕ)
      → Waits k (recv_waiters p) ws
      → Waits (store_item k p x) (recv_waiters p) ws
  unfolding store_item
  Waits-store x ws w =
      Waits-frame k (store_item k p x) (recv_waiters p) ws (ground arith) (λ u m. refl) w

  Waits-drop :
      (ws : List ℕ) → Waits k (send_waiters p) ws → Waits (drop_item k p) (send_waiters p) ws
  unfolding drop_item
  Waits-drop ws w = Waits-frame k (drop_item k p) (send_waiters p) ws (ground arith) (λ u m. refl) w

  WakesFirst-store :
      (x : Item) (ws : List ℕ)
      → Waits k (recv_waiters p) ws
      → WakesFirst k (wake_first (store_item k p x) (recv_waiters p)) ws
  unfolding store_item
  WakesFirst-store x ws w =
      WakesFirst-from (store_item k p x) k (wake_first (store_item k p x) (recv_waiters p)) ws refl
        (wake_first-WakesFirst (store_item k p x) (recv_waiters p) ws (Waits-store x ws w))

  WakesFirst-drop :
      (ws : List ℕ)
      → Waits k (send_waiters p) ws
      → WakesFirst k (wake_first (drop_item k p) (send_waiters p)) ws
  unfolding drop_item
  WakesFirst-drop ws w =
      WakesFirst-from (drop_item k p) k (wake_first (drop_item k p) (send_waiters p)) ws refl
        (wake_first-WakesFirst (drop_item k p) (send_waiters p) ws (Waits-drop ws w))

-- z_impl_queue_push, of a call that does not wait on a full queue, returns the status of the
-- specification's push and leaves the queue representing its view; after a success the first task
-- that waited to receive is woken with 0, and after a failure the kernel is as it was.
pub push-Refines :
    (k : Kernel) (p : ℕ) (x : Item) (timeout : ℕ) (v : View) (ws : List ℕ)
    → Represents k p v
    → Waits k (recv_waiters p) ws
    → (length v.items ≡ v.capacity → timeout ≡ 0)
    → (k' : Kernel) × (push k p x timeout ≡ some (k', returned (Spec.push v x).1))
      × Represents k' p (Spec.push v x).0
      × WakesOn (Spec.push v x).1 k k' ws
push-Refines k p x timeout v ws r w z = elim (Bool-cases (length v.items == v.capacity)) [
  | inl full ↦ rw full (
    k,
    push-full k p x timeout (full-eq k p v r ∙ full)
        (z ((==_iff (length v.items) v.capacity).0 full)),
    r,
    refl,
  )
  | inr room ↦ rw room (
    wake_first (store_item k p x) (recv_waiters p),
    push-room k p x timeout (full-eq k p v r ∙ room),
    Represents-wake_recv (store_item k p x) p (view v.capacity (v.items ++ (x ∷ [])))
        (Represents-store k p v r x room),
    WakesFirst-store k p x ws w,
  )
]

-- z_impl_queue_pop, of a call that does not wait on an empty queue, returns the status and the
-- item of the specification's pop and leaves the queue representing its view; after a success the
-- first task that waited to send is woken with 0, and after a failure the kernel is as it was.
pub pop-Refines :
    (k : Kernel) (p timeout : ℕ) (v : View) (ws : List ℕ)
    → Represents k p v
    → Waits k (send_waiters p) ws
    → (v.items ≡ [] → timeout ≡ 0)
    → (k' : Kernel) × (pop k p timeout ≡ some (k', returned (Spec.pop v).1, (Spec.pop v).2))
      × Represents k' p (Spec.pop v).0
      × WakesOn (Spec.pop v).1 k k' ws
pop-Refines k p timeout v ws = by_items v.capacity v.items
  where
    by_items :
        (n : ℕ) (xs : List Item)
        → Represents k p (view n xs)
        → Waits k (send_waiters p) ws
        → (xs ≡ [] → timeout ≡ 0)
        → (k' : Kernel) × (pop k p timeout
            ≡ some (k', returned (Spec.pop (view n xs)).1, (Spec.pop (view n xs)).2))
          × Represents k' p (Spec.pop (view n xs)).0
          × WakesOn (Spec.pop (view n xs)).1 k k' ws
    by_items n [] r w z = (k, pop-none k p timeout (empty-eq k p (view n []) r) (z refl), r, refl)
    by_items n (x ∷ xs) r w z =
        let (kept, oldest) = Represents-drop k p (view n (x ∷ xs)) r x xs refl in
        (
          wake_first (drop_item k p) (send_waiters p),
          pop-some k p timeout (empty-eq k p (view n (x ∷ xs)) r ∙ ground arith)
              ∙ ap
                  (λ y.
                    some (wake_first (drop_item k p) (send_waiters p), returned success, some y))
                  oldest,
          Represents-wake_send (drop_item k p) p (view n xs) kept,
          WakesFirst-drop k p ws w,
        )
