-- ===== src/Kwork/Fifo.antt =====
-- kernel/kwork.c: kwork_push and kwork_pop_locked, seen as operations on the list of work items.
use crest_rtos.Base.{
  ℕ, suc, ◌+◌, ◌<◌, ◌≡◌, ◌≢◌, refl, inl, inr, true, false, arith, none, some, List, [], ◌∷◌, ◌++◌,
  length, ◌==◌, Bool-cases, ◌∙◌, Ptr, Bool, Option, subst, sym, update, ◌%◌, ◌⊎◌,
}
use crest_rtos.Kernel.{TaskState, ready, running, waiting, suspended, Kernel}
use crest_rtos.Kwork.{Ring, WorkItem, kwork_queue_size, wake_kernel, push, pop}
use crest_rtos.Ring.{Holds, wrap, empty_iff, full_iff, tail_lt, Holds-push, Holds-pop, item-head}

-- The ring holds the items `ws`, the oldest first.
abbrev pub HoldsItems : Ring → List WorkItem → Type 0
HoldsItems r ws = Holds kwork_queue_size r.head r.tail r.buf ws

next-wrap :
    (i : ℕ) → i < kwork_queue_size → (i + 1) % kwork_queue_size ≡ wrap kwork_queue_size (i + 1)
next-wrap i lt = ground arith

cons_lem : (m : ℕ) → (suc m == 0) ≡ false
cons_lem m = ground arith

room_lt : (m : ℕ) → m < kwork_queue_size → (m + 1 == kwork_queue_size) ≡ false → m < 15
room_lt m lt e = ground arith

-- The result for the ring; the kernel is left to wake_kernel.
abbrev pub Queued : Ring → Kernel → Ptr → WorkItem → List WorkItem → (Ring × Kernel) × Bool → Type 0
Queued r k kernel_tcb w ws ((r', k'), done) =
    ((length ws ≡ 15) × (done ≡ false) × (r' ≡ r) × (k' ≡ k))
    ⊎ ((length ws < 15)
        × (done ≡ true)
        × HoldsItems r' (ws ++ (w ∷ []))
        × (k' ≡ wake_kernel k kernel_tcb))

module _ (r : Ring) (ws : List WorkItem) (h : HoldsItems r ws) where
  full-eq : ((r.tail + 1) % kwork_queue_size == r.head) ≡ (length ws + 1 == kwork_queue_size)
  full-eq =
      rw (next-wrap r.tail (tail_lt kwork_queue_size r.head r.tail r.buf ws h))
        (full_iff kwork_queue_size r.head r.tail r.buf ws h)

  pub push-Queued :
      (k : Kernel) (kernel_tcb : Ptr) (w : WorkItem)
      → Queued r k kernel_tcb w ws (push r k kernel_tcb w)
  unfolding push
  push-Queued k kernel_tcb w = elim (Bool-cases (length ws + 1 == kwork_queue_size)) [
    | inl full ↦ rw (full-eq ∙ full) (inl (ground arith, refl, refl, refl))
    | inr room ↦ rw (full-eq ∙ room) (
        inr (
          room_lt (length ws) h.few room,
          refl,
          subst (λ i. Holds kwork_queue_size r.head i (update r.buf r.tail w) (ws ++ (w ∷ [])))
              (sym (next-wrap r.tail (tail_lt kwork_queue_size r.head r.tail r.buf ws h)))
              (Holds-push kwork_queue_size r.head r.tail r.buf ws h w room),
          refl,
        ))
  ]

-- Waking the task at `p`: it is READY if it was WAITING, and nothing else changes; a task in
-- another state is left alone.
abbrev pub Woken : Kernel → Ptr → Kernel → Type 0
Woken k none k' = k' ≡ k
Woken k (some t) k' =
    (((k.tcb t).state ≡ waiting)
      × (k' ≡ record k { tcb = update k.tcb t (record (k.tcb t) { state = ready }) }))
    ⊎ (((k.tcb t).state ≢ waiting) × (k' ≡ k))

wake_kernel-Woken : (k : Kernel) (p : Ptr) → Woken k p (wake_kernel k p)
unfolding wake_kernel
wake_kernel-Woken k none = refl
wake_kernel-Woken k (some t) = by_state (k.tcb t).state refl
  where
    by_state : (c : TaskState) → (k.tcb t).state ≡ c → Woken k (some t) (wake_kernel k (some t))
    by_state waiting e = rw (e, wake_kernel) (inl (refl, refl))
    by_state ready e = rw (e, wake_kernel) (inr (λ q. cc, refl))
    by_state running e = rw (e, wake_kernel) (inr (λ q. cc, refl))
    by_state suspended e = rw (e, wake_kernel) (inr (λ q. cc, refl))

-- What the specification of a bounded queue says of the result: with fifteen items the ring is
-- full and nothing changes; else the item is the last one, and the kernel task is awake.
abbrev pub Pushed : Ring → Kernel → Ptr → WorkItem → List WorkItem → (Ring × Kernel) × Bool → Type 0
Pushed r k kernel_tcb w ws ((r', k'), done) =
    ((length ws ≡ 15) × (done ≡ false) × (r' ≡ r) × (k' ≡ k))
    ⊎ ((length ws < 15) × (done ≡ true) × HoldsItems r' (ws ++ (w ∷ [])) × Woken k kernel_tcb k')

Pushed-of_Queued :
    (r : Ring) (k : Kernel) (kernel_tcb : Ptr) (w : WorkItem) (ws : List WorkItem)
    (out : (Ring × Kernel) × Bool)
    → Queued r k kernel_tcb w ws out
    → Pushed r k kernel_tcb w ws out
Pushed-of_Queued r k kernel_tcb w ws ((r', k'), done) (inl full) = inl full
Pushed-of_Queued r k kernel_tcb w ws ((r', k'), done) (inr (room, d, h, e)) =
    inr (room, d, h, subst (Woken k kernel_tcb) (sym e) (wake_kernel-Woken k kernel_tcb))

-- kwork_push, of a ring that holds `ws`, refuses the item exactly if fifteen are waiting, and then
-- changes nothing; otherwise the item is behind all others, and the kernel task, if it has started
-- and is WAITING, is READY.
pub push_lem :
    (r : Ring) (ws : List WorkItem)
    → HoldsItems r ws
    → (k : Kernel) (kernel_tcb : Ptr) (w : WorkItem)
    → Pushed r k kernel_tcb w ws (push r k kernel_tcb w)
push_lem r ws h k kernel_tcb w =
    Pushed-of_Queued r k kernel_tcb w ws (push r k kernel_tcb w) (push-Queued r ws h k kernel_tcb w)

-- What a pop gives: nothing of an empty ring, else the oldest item.
abbrev pub Popped : List WorkItem → Option (Ring × WorkItem) → Type 0
Popped [] o = o ≡ none
Popped (w ∷ ws) o = (r' : Ring) × (o ≡ some (r', w)) × HoldsItems r' ws

-- kwork_pop_locked gives the oldest item and leaves the others in their order; it gives nothing
-- exactly if the ring holds none.
pub pop_lem : (r : Ring) (ws : List WorkItem) → HoldsItems r ws → Popped ws (pop r)
unfolding pop
pop_lem r [] h = rw (empty_iff kwork_queue_size r.head r.tail r.buf [] h) refl
pop_lem r (w ∷ ws) h = (
  record r { head = wrap kwork_queue_size (r.head + 1) },
  rw
      (
        empty_iff kwork_queue_size r.head r.tail r.buf (w ∷ ws) h ∙ cons_lem (length ws),
        next-wrap r.head h.head_lt,
        item-head kwork_queue_size r.head r.tail r.buf w ws h,
      )
      refl,
  Holds-pop kwork_queue_size r.head r.tail r.buf w ws h,
)
