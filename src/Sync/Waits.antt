-- ===== src/Sync/Waits.antt =====
-- The wait lists of semaphores, mutexes and queues, as the lists of the tasks that wait.
use crest_rtos.Base.{
  ℕ, ◌≡◌, ◌≢◌, refl, List, ◌∷◌, true, false, Ptr, none, some, arith, has, IsNodup, update, ap,
  fun_ext, ◌∙◌,
}
use crest_rtos.Chain.{Chain, Chain-frame, has→ne}
use crest_rtos.Kernel.{
  Kernel, Tcb, WaitRef, sem_waiters, mutex_waiters, send_waiters, recv_waiters, wait_head,
  set_wait_head, set_tcb,
}
use crest_rtos.Sched.{wake_task}
use crest_rtos.Sync.{set_timeout, enqueue_front, release_front}

-- `wait_next` of each task.
abbrev pub wait_links : Kernel → ℕ → Ptr
wait_links k t = (k.tcb t).wait_next

-- The tasks of `ts`, no two alike, wait in the list at `ref`, first the one at its head.
pub record Waits (k : Kernel) (ref : WaitRef) (ts : List ℕ) : Type 0 where
  pub chain : Chain (wait_links k) (wait_head k ref) ts
  pub nodup : IsNodup ts

pub wait_head-set :
    (k : Kernel) (ref : WaitRef) (p : Ptr) → wait_head (set_wait_head k ref p) ref ≡ p
wait_head-set k (sem_waiters a) p = ground arith
wait_head-set k (mutex_waiters a) p = ground arith
wait_head-set k (send_waiters a) p = ground arith
wait_head-set k (recv_waiters a) p = ground arith

pub tcb-set : (k : Kernel) (ref : WaitRef) (p : Ptr) → (set_wait_head k ref p).tcb ≡ k.tcb
tcb-set k (sem_waiters a) p = refl
tcb-set k (mutex_waiters a) p = refl
tcb-set k (send_waiters a) p = refl
tcb-set k (recv_waiters a) p = refl

pub wait_head-set_tcb :
    (k : Kernel) (ref : WaitRef) (t : ℕ) (c : Tcb) → wait_head (set_tcb k t c) ref ≡ wait_head k ref
wait_head-set_tcb k (sem_waiters a) t c = refl
wait_head-set_tcb k (mutex_waiters a) t c = refl
wait_head-set_tcb k (send_waiters a) t c = refl
wait_head-set_tcb k (recv_waiters a) t c = refl

-- The head depends on no control block.
pub wait_head-tcb :
    (k : Kernel) (ref : WaitRef) (f : ℕ → Tcb)
    → wait_head (record k { tcb = f }) ref ≡ wait_head k ref
wait_head-tcb k (sem_waiters a) f = refl
wait_head-tcb k (mutex_waiters a) f = refl
wait_head-tcb k (send_waiters a) f = refl
wait_head-tcb k (recv_waiters a) f = refl

update_self {ℓ} : {A : Type ℓ} (f : ℕ → A) (a : ℕ) → update f a (f a) ≡ f
update_self f a = fun_ext (λ j. ground arith)

-- Writing the head that stands there changes nothing.
pub set_wait_head_self : (k : Kernel) (ref : WaitRef) → set_wait_head k ref (wait_head k ref) ≡ k
set_wait_head_self k (sem_waiters a) = ap (λ f. record k { sem = f }) (update_self k.sem a)
set_wait_head_self k (mutex_waiters a) = ap (λ f. record k { mutex = f }) (update_self k.mutex a)
set_wait_head_self k (send_waiters a) = ap (λ f. record k { queue = f }) (update_self k.queue a)
set_wait_head_self k (recv_waiters a) = ap (λ f. record k { queue = f }) (update_self k.queue a)

-- What a wait list depends on: its head, and the links of its tasks.
pub Waits-frame :
    (k k' : Kernel) (ref : WaitRef) (ts : List ℕ)
    → wait_head k' ref ≡ wait_head k ref
    → ((t : ℕ) → has t ts ≡ true → wait_links k' t ≡ wait_links k t)
    → Waits k ref ts
    → Waits k' ref ts
Waits-frame k k' ref ts same_head same_links w = record {
  chain =
      rw same_head
        (Chain-frame (wait_links k) (wait_links k') (wait_head k ref) ts same_links w.chain);
  nodup = w.nodup;
}

-- A task put in front of the list.
pub Waits-cons :
    (k k' : Kernel) (ref : WaitRef) (t : ℕ) (ts : List ℕ)
    → wait_head k' ref ≡ some t
    → wait_links k' t ≡ wait_head k ref
    → ((u : ℕ) → u ≢ t → wait_links k' u ≡ wait_links k u)
    → has t ts ≡ false
    → Waits k ref ts
    → Waits k' ref (t ∷ ts)
Waits-cons k k' ref t ts head link same out w = record {
  chain = (
    head,
    rw link (
        Chain-frame (wait_links k) (wait_links k') (wait_head k ref) ts
          (λ u m. same u (has→ne t u ts out m)) w.chain),
  );
  nodup = (out, w.nodup);
}

-- The first task taken off the list.
pub Waits-uncons :
    (k k' : Kernel) (ref : WaitRef) (t : ℕ) (ts : List ℕ)
    → wait_head k' ref ≡ wait_links k t
    → ((u : ℕ) → u ≢ t → wait_links k' u ≡ wait_links k u)
    → Waits k ref (t ∷ ts)
    → Waits k' ref ts
Waits-uncons k k' ref t ts head same w = record {
  chain = rw head (
      Chain-frame (wait_links k) (wait_links k') (wait_links k t) ts
        (λ u m. same u (has→ne t u ts w.nodup.0 m)) w.chain.1);
  nodup = w.nodup.1;
}

module _ (k : Kernel) (ref : WaitRef) (t timeout : ℕ) where
  pub tcb-enqueue_front :
      (enqueue_front k ref t timeout).tcb
      ≡ update k.tcb t (set_timeout (record (k.tcb t) { wait_next = wait_head k ref }) ref timeout)
  unfolding enqueue_front
  tcb-enqueue_front = rw (tcb-set k ref (some t)) refl

  head-enqueue_front : wait_head (enqueue_front k ref t timeout) ref ≡ some t
  unfolding enqueue_front
  head-enqueue_front =
      wait_head-set_tcb (set_wait_head k ref (some t)) ref t
        (set_timeout (record (k.tcb t) { wait_next = wait_head k ref }) ref timeout)
      ∙ wait_head-set k ref (some t)

  -- A task that goes to the front of the list.
  pub Waits-enqueue_front :
      (ts : List ℕ)
      → has t ts ≡ false
      → Waits k ref ts
      → Waits (enqueue_front k ref t timeout) ref (t ∷ ts)
  Waits-enqueue_front ts out w =
      Waits-cons k (enqueue_front k ref t timeout) ref t ts head-enqueue_front
        (rw tcb-enqueue_front (ground arith)) (λ u ne. rw tcb-enqueue_front (ground arith)) out w

module _ (k : Kernel) (ref : WaitRef) (t : ℕ) where
  pub tcb-release_front :
      (release_front k ref t).tcb
      ≡ update k.tcb t
          (record (k.tcb t) { wait_next = none; delay_ticks = 0; blocking_wait_list = none })
  unfolding release_front
  tcb-release_front = rw (tcb-set k ref (k.tcb t).wait_next) refl

  head-release_front : wait_head (release_front k ref t) ref ≡ wait_links k t
  unfolding release_front
  head-release_front =
      let k' = set_wait_head k ref (k.tcb t).wait_next in
      wait_head-set_tcb k' ref t
        (record (k'.tcb t) { wait_next = none; delay_ticks = 0; blocking_wait_list = none })
      ∙ wait_head-set k ref (k.tcb t).wait_next

  -- The first task is released.
  pub Waits-release_front :
      (ts : List ℕ) → Waits k ref (t ∷ ts) → Waits (release_front k ref t) ref ts
  Waits-release_front ts w =
      Waits-uncons k (release_front k ref t) ref t ts head-release_front
        (λ u ne. rw tcb-release_front (ground arith)) w

  -- Waking a task changes no wait list.
  wait_head-wake : (r : WaitRef) (v : ℕ) → wait_head (wake_task k t v) r ≡ wait_head k r
  unfolding wake_task
  wait_head-wake (sem_waiters a) v = ground arith
  wait_head-wake (mutex_waiters a) v = ground arith
  wait_head-wake (send_waiters a) v = ground arith
  wait_head-wake (recv_waiters a) v = ground arith

  wait_links-wake : (v u : ℕ) → wait_links (wake_task k t v) u ≡ wait_links k u
  unfolding wake_task
  wait_links-wake v u = ground arith

  pub Waits-wake : (v : ℕ) (r : WaitRef) (ts : List ℕ) → Waits k r ts → Waits (wake_task k t v) r ts
  Waits-wake v r ts w =
      Waits-frame k (wake_task k t v) r ts (wait_head-wake r v) (λ u m. wait_links-wake v u) w
