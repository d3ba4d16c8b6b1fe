-- ===== src/Queue/Fifo.antt =====
-- kernel/queue.c beside the bounded queue of Queue/Spec.antt: the ring of item slots.
use crest_rtos.Base.{
  ℕ, ◌+◌, ◌^◌, ◌<◌, ◌≡◌, ◌∙◌, refl, inl, inr, true, false, arith, none, some, Option-cases, List,
  [], ◌∷◌, ◌++◌, length, ◌==◌, update, subst,
}
use crest_rtos.Kernel.{Kernel, Item, WaitRef, recv_waiters, send_waiters, wait_head}
use crest_rtos.Sched.{wake_task}
use crest_rtos.Sync.{release_front, success, failure, returned, Status}
use crest_rtos.Sync.Waits.{Waits}
use crest_rtos.Sync.Wake.{WakesFirst, Woken-release}
use crest_rtos.Ring.{
  Holds, wrap, wrap_mod, empty_iff, full_iff, tail_lt, Holds-push, Holds-pop, item-head,
}
use crest_rtos.Queue.{push, pop, wake_first, store_item, drop_item, next_index}
use crest_rtos.Queue.Spec.{View, view}

-- The queue at `p` holds the view's items, in the slots from the head on.
pub record Represents (k : Kernel) (p : ℕ) (v : View) : Type 0 where
  pub word : (k.queue p).slots < 2 ^ 32
  pub slots : (k.queue p).slots ≡ v.capacity + 1
  pub holds : Holds (k.queue p).slots (k.queue p).head (k.queue p).tail (k.queue p).buffer v.items

suc_eq : (a b : ℕ) → (a + 1 == b + 1) ≡ (a == b)
suc_eq a b = ground arith

Represents-of_queue :
    (k : Kernel) (p : ℕ) (v : View) (slots head tail : ℕ) (buffer : ℕ → Item)
    → (k.queue p).slots ≡ slots
    → (k.queue p).head ≡ head
    → (k.queue p).tail ≡ tail
    → (k.queue p).buffer ≡ buffer
    → slots < 2 ^ 32
    → slots ≡ v.capacity + 1
    → Holds slots head tail buffer v.items
    → Represents k p v
Represents-of_queue k p v slots head tail buffer es eh et eb word cap h = record {
  word = rw es word;
  slots = es ∙ cap;
  holds = rw (es, eh, et, eb) h;
}

-- What the ring depends on.
Represents-frame :
    (k k' : Kernel) (p : ℕ) (v : View)
    → (k'.queue p).slots ≡ (k.queue p).slots
    → (k'.queue p).head ≡ (k.queue p).head
    → (k'.queue p).tail ≡ (k.queue p).tail
    → (k'.queue p).buffer ≡ (k.queue p).buffer
    → Represents k p v
    → Represents k' p v
Represents-frame k k' p v es eh et eb r =
    Represents-of_queue k' p v (k.queue p).slots (k.queue p).head (k.queue p).tail
      (k.queue p).buffer es eh et eb r.word r.slots r.holds

wake_first-none : (k : Kernel) (ref : WaitRef) → wait_head k ref ≡ none → wake_first k ref ≡ k
unfolding wake_first
wake_first-none k ref e = rw (e, wake_first) refl

wake_first-some :
    (k : Kernel) (ref : WaitRef) (w : ℕ)
    → wait_head k ref ≡ some w
    → wake_first k ref ≡ wake_task (release_front k ref w) w 0
unfolding wake_first
wake_first-some k ref w e = rw (e, wake_first) refl

module _ (k : Kernel) (p : ℕ) (v : View) (r : Represents k p v) where
  pub Represents-wake_recv : Represents (wake_first k (recv_waiters p)) p v
  unfolding release_front wake_task
  Represents-wake_recv = elim (Option-cases (k.queue p).recv_wait) [
    | inl e ↦ rw (wake_first-none k (recv_waiters p) e) r
    | inr (w, e) ↦ rw (wake_first-some k (recv_waiters p) w e) (
        Represents-frame k (wake_task (release_front k (recv_waiters p) w) w 0) p v (ground arith)
          (ground arith) (ground arith) (ground arith) r)
  ]

  pub Represents-wake_send : Represents (wake_first k (send_waiters p)) p v
  unfolding release_front wake_task
  Represents-wake_send = elim (Option-cases (k.queue p).send_wait) [
    | inl e ↦ rw (wake_first-none k (send_waiters p) e) r
    | inr (w, e) ↦ rw (wake_first-some k (send_waiters p) w e) (
        Represents-frame k (wake_task (release_front k (send_waiters p) w) w 0) p v (ground arith)
          (ground arith) (ground arith) (ground arith) r)
  ]

-- A wake-up takes the first of the waiting tasks off its list and wakes it, with result 0.
pub wake_first-WakesFirst :
    (k : Kernel) (ref : WaitRef) (ws : List ℕ) → Waits k ref ws → WakesFirst k (wake_first k ref) ws
wake_first-WakesFirst k ref [] w = rw (wake_first-none k ref w.chain) refl
wake_first-WakesFirst k ref (t ∷ ts) w =
    rw (wake_first-some k ref t w.chain.0) (Woken-release k ref t 0)

module _ (k : Kernel) (p : ℕ) (v : View) (r : Represents k p v) where
  slots-ne : 0 < (k.queue p).slots
  slots-ne = omega (arith, r.slots)

  pub full-eq :
      (next_index (k.queue p) (k.queue p).tail == (k.queue p).head) ≡ (length v.items == v.capacity)
  full-eq =
      let q = k.queue p in
      rw (wrap_mod q.slots q.tail r.word (tail_lt q.slots q.head q.tail q.buffer v.items r.holds)) (
        full_iff q.slots q.head q.tail q.buffer v.items r.holds
        ∙ rw r.slots (suc_eq (length v.items) v.capacity))

  pub empty-eq : ((k.queue p).head == (k.queue p).tail) ≡ (length v.items == 0)
  empty-eq = let q = k.queue p in empty_iff q.slots q.head q.tail q.buffer v.items r.holds

  pub Represents-store :
      (x : Item)
      → (length v.items == v.capacity) ≡ false
      → Represents (store_item k p x) p (view v.capacity (v.items ++ (x ∷ [])))
  unfolding store_item
  Represents-store x room =
      let q = k.queue p in
      let e =
        wrap_mod q.slots q.tail r.word (tail_lt q.slots q.head q.tail q.buffer v.items r.holds) in
      Represents-of_queue (store_item k p x) p (view v.capacity (v.items ++ (x ∷ []))) q.slots
        q.head (wrap q.slots (q.tail + 1)) (update q.buffer q.tail x) (ground arith) (ground arith)
        (ground (arith, e)) (ground arith) r.word r.slots
        (Holds-push q.slots q.head q.tail q.buffer v.items r.holds x
          (rw r.slots (suc_eq (length v.items) v.capacity ∙ room)))

  pub Represents-drop :
      (x : Item) (xs : List Item)
      → v.items ≡ x ∷ xs
      → Represents (drop_item k p) p (view v.capacity xs)
        × ((k.queue p).buffer (k.queue p).head ≡ x)
  unfolding drop_item
  Represents-drop x xs items =
      let q = k.queue p in
      let h : Holds q.slots q.head q.tail q.buffer (x ∷ xs) =
        subst (λ ys. Holds q.slots q.head q.tail q.buffer ys) items r.holds in
      let e = wrap_mod q.slots q.head r.word h.head_lt in
      (
        Represents-of_queue (drop_item k p) p (view v.capacity xs) q.slots
            (wrap q.slots (q.head + 1)) q.tail q.buffer (ground arith) (ground (arith, e))
            (ground arith) (ground arith) r.word r.slots
            (Holds-pop q.slots q.head q.tail q.buffer x xs h),
        item-head q.slots q.head q.tail q.buffer x xs h,
      )

module _ (k : Kernel) (p : ℕ) (x : Item) (timeout : ℕ) where
  pub push-room :
      (next_index (k.queue p) (k.queue p).tail == (k.queue p).head) ≡ false
      → push k p x timeout ≡ some (wake_first (store_item k p x) (recv_waiters p), returned success)
  unfolding push
  push-room e = rw e refl

  pub push-full :
      (next_index (k.queue p) (k.queue p).tail == (k.queue p).head) ≡ true
      → timeout ≡ 0
      → push k p x timeout ≡ some (k, returned failure)
  unfolding push
  push-full e z = rw (e, z) refl

module _ (k : Kernel) (p timeout : ℕ) where
  pub pop-some :
      ((k.queue p).head == (k.queue p).tail) ≡ false
      → pop k p timeout
        ≡ some (
          wake_first (drop_item k p) (send_waiters p),
          returned success,
          some ((k.queue p).buffer (k.queue p).head),
        )
  unfolding pop
  pop-some e = rw e refl

  pub pop-none :
      ((k.queue p).head == (k.queue p).tail) ≡ true
      → timeout ≡ 0
      → pop k p timeout ≡ some (k, returned failure, none)
  unfolding pop
  pop-none e z = rw (e, z) refl

-- A call that succeeded has woken the first of the tasks `ws`, and a call that failed has changed
-- nothing.
abbrev pub WakesOn : Status → Kernel → Kernel → List ℕ → Type 0
WakesOn success k k' ws = WakesFirst k k' ws
WakesOn failure k k' ws = k' ≡ k
