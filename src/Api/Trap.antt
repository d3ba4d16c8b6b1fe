-- ===== src/Api/Trap.antt =====
-- kernel/syscall_api.c with arch/arm/cortex-m4/syscall.c: a trapped call on its way into the ring.
use crest_rtos.Base.{
  ℕ, ◌<◌, Bool, true, false, none, some, if◌then◌else◌, Ptr, List, [], ◌∷◌, ◌++◌, length, ◌≡◌, ◌≢◌,
  ◌⊎◌, refl, sym, ap, ◌∙◌, subst, inl, inr, Bool-cases, ==_refl, ==_of_ne, arith, update,
}
use crest_rtos.Kernel.{minus_one, ready, waiting, is_waiting, trigger_pendsv, Kernel, Tcb}
use crest_rtos.Kwork
use crest_rtos.Kwork.{Ring, WorkItem, wake_kernel}
use crest_rtos.Kwork.Fifo.{HoldsItems, Queued, push-Queued}
use crest_rtos.Dispatch.{System, with_kernel}
use crest_rtos.Svc.{svc_handler, captured, block_caller, refuse}
use crest_rtos.Api.{Cpu, trapped, stacked, port_syscall_invoke}

-- The work item of a call with these arguments.
abbrev pub request : ℕ → ℕ → ℕ → ℕ → ℕ → WorkItem
request id arg0 arg1 arg2 t = record {
  id = id;
  arg0 = arg0;
  arg1 = arg1;
  arg2 = arg2;
  arg3 = arg2;
  caller = some t;
}

abbrev item_of_words : ℕ → ℕ → ℕ → ℕ → ℕ → ℕ → WorkItem
item_of_words t id arg0 arg1 arg2 arg3 = record {
  id = id;
  arg0 = arg0;
  arg1 = arg1;
  arg2 = arg2;
  arg3 = arg3;
  caller = some t;
}

item_eq :
    (t : ℕ) {i i' a a' b b' c c' d d' : ℕ}
    → i ≡ i'
    → a ≡ a'
    → b ≡ b'
    → c ≡ c'
    → d ≡ d'
    → item_of_words t i a b c d ≡ item_of_words t i' a' b' c' d'
item_eq t p q r u v j = item_of_words t (p j) (q j) (r j) (u j) (v j)

-- The handler reads from the frame what port_syscall_invoke put into the registers.
captured-stacked :
    (k : Kernel) (t frame id arg0 arg1 arg2 : ℕ)
    → captured (stacked k frame id arg0 arg1 arg2) t frame ≡ request id arg0 arg1 arg2 t
captured-stacked k t frame id arg0 arg1 arg2 =
    item_eq t (ground arith) (ground arith) (ground arith) (ground arith) (ground arith)

wake_kernel-other :
    (k : Kernel) (kernel_tcb : Ptr) (t : ℕ)
    → kernel_tcb ≢ some t
    → (wake_kernel k kernel_tcb).tcb t ≡ k.tcb t
unfolding wake_kernel
wake_kernel-other k none t ne = refl
wake_kernel-other k (some kt) t ne = elim (Bool-cases (is_waiting (k.tcb kt).state)) [
  | inl h ↦ rw (h, ==_of_ne t kt (λ e. ne (ap some (sym e)))) refl
  | inr h ↦ rw h refl
]

-- The end of svc_handler_c, at the result of kwork_push.
abbrev handled : System → ℕ → ℕ → (Ring × Kernel) × Bool → System
handled s t frame ((r, k), done) =
    let s' = record s { ring = r; kernel = k } in
    if done then with_kernel s' (trigger_pendsv k) else with_kernel s' (refuse k t frame)

abbrev from_current : System → ℕ → Ptr → System
from_current s frame none = s
from_current s frame (some t) =
    handled s t frame
      (Kwork.push s.ring (block_caller s.kernel t) s.kernel_tcb (captured s.kernel t frame))

svc_handler_lem :
    (s : System) (frame t : ℕ)
    → s.kernel.current_task ≡ some t
    → svc_handler s frame ≡ from_current s frame (some t)
unfolding svc_handler
svc_handler_lem s frame t c =
    subst (λ cur. from_current s frame s.kernel.current_task ≡ from_current s frame cur) c refl

update_self {ℓ} : {A : Type ℓ} (f : ℕ → A) (i : ℕ) (a : A) → update f i a i ≡ a
update_self f i a = rw (==_refl i) refl

-- Nothing but the ring, the control blocks, the stacks and the pending switch has changed.
abbrev pub Keeps : System → System → Type 0
Keeps s s' =
    (s' ≡ record s { ring = s'.ring; kernel = s'.kernel })
    × (s'.kernel.sem ≡ s.kernel.sem)
    × (s'.kernel.mutex ≡ s.kernel.mutex)
    × (s'.kernel.queue ≡ s.kernel.queue)

wake_kernel-keeps :
    (k : Kernel) (kernel_tcb : Ptr)
    → ((wake_kernel k kernel_tcb).sem ≡ k.sem)
      × ((wake_kernel k kernel_tcb).mutex ≡ k.mutex)
      × ((wake_kernel k kernel_tcb).queue ≡ k.queue)
unfolding wake_kernel
wake_kernel-keeps k none = (refl, refl, refl)
wake_kernel-keeps k (some kt) = elim (Bool-cases (is_waiting (k.tcb kt).state)) [
  | inl h ↦ rw h (refl, refl, refl)
  | inr h ↦ rw h (refl, refl, refl)
]

-- With the kernel `k` in which `t` is blocked: a call of task `t` is in the ring behind `ws`, `t`
-- waits for its result, and the kernel task is woken; or, with fifteen
-- items in the ring, it is refused, and `t` goes on with -1.
abbrev pub Trapped : System → Kernel → ℕ → ℕ → WorkItem → List WorkItem → System → Type 0
Trapped s k t frame w ws s' =
    ((length ws < 15)
      × HoldsItems s'.ring (ws ++ (w ∷ []))
      × ((s'.kernel.tcb t).svc_blocked ≡ true)
      × ((s'.kernel.tcb t).state ≡ waiting)
      × (s'.kernel ≡ trigger_pendsv (wake_kernel k s.kernel_tcb)))
    ⊎ ((length ws ≡ 15)
        × (s'.ring ≡ s.ring)
        × ((s'.kernel.tcb t).svc_blocked ≡ false)
        × ((s'.kernel.tcb t).state ≡ ready)
        × (s'.kernel.word frame ≡ minus_one))

module _ (s : System) (t frame : ℕ) (other : s.kernel_tcb ≢ some t) (w : WorkItem)
    (ws : List WorkItem) where
  handled-Trapped :
      (out : (Ring × Kernel) × Bool)
      → Queued s.ring (block_caller s.kernel t) s.kernel_tcb w ws out
      → Trapped s (block_caller s.kernel t) t frame w ws (handled s t frame out)
  handled-Trapped ((r, k), done) (inl (full, d, er, ek)) =
      let blocked = block_caller s.kernel t in
      let cell =
        update_self blocked.tcb t (record (blocked.tcb t) { svc_blocked = false; state = ready }) in
      subst (λ out. Trapped s (block_caller s.kernel t) t frame w ws (handled s t frame out))
        (λ i. ((sym er i, sym ek i), sym d i))
        (inr (
          full,
          refl,
          ap (λ (c : Tcb). c.svc_blocked) cell,
          ap (λ (c : Tcb). c.state) cell,
          update_self blocked.word frame minus_one,
        ))
  handled-Trapped ((r, k), done) (inr (room, d, h, ek)) =
      let blocked = block_caller s.kernel t in
      let cell =
        wake_kernel-other blocked s.kernel_tcb t other
        ∙ update_self s.kernel.tcb t
            (record (s.kernel.tcb t) { svc_blocked = true; state = waiting }) in
      subst (λ out. Trapped s (block_caller s.kernel t) t frame w ws (handled s t frame out))
        (λ i. ((r, sym ek i), sym d i))
        (inl (room, h, ap (λ (c : Tcb). c.svc_blocked) cell, ap (λ (c : Tcb). c.state) cell, refl))

handled-Keeps :
    (s : System) (t frame : ℕ) (w : WorkItem) (ws : List WorkItem) (out : (Ring × Kernel) × Bool)
    → Queued s.ring (block_caller s.kernel t) s.kernel_tcb w ws out
    → Keeps s (handled s t frame out)
handled-Keeps s t frame w ws ((r, k), done) (inl (full, d, er, ek)) =
    subst (λ out. Keeps s (handled s t frame out)) (λ i. ((sym er i, sym ek i), sym d i))
      (refl, refl, refl, refl)
handled-Keeps s t frame w ws ((r, k), done) (inr (room, d, h, ek)) =
    let (sem, mutex, queue) = wake_kernel-keeps (block_caller s.kernel t) s.kernel_tcb in
    subst (λ out. Keeps s (handled s t frame out)) (λ i. ((r, sym ek i), sym d i))
      (refl, sem, mutex, queue)

-- port_syscall_invoke of the current task `t`, which is not the kernel task, on a ring that holds
-- `ws`: with fewer than fifteen items the call stands behind them in the ring with its number and
-- arguments, `t` is WAITING, flagged, the kernel task is woken and a switch is pending; with fifteen the ring is as it
-- was, and `t` is READY, not flagged, with -1 as its result. Semaphores, mutexes, queues, handles and the heap are as
-- they were.
pub port_syscall_invoke_lem :
    (cpu : Cpu) (s : System) (id arg0 arg1 arg2 t : ℕ) (ws : List WorkItem)
    → s.kernel.current_task ≡ some t
    → s.kernel_tcb ≢ some t
    → HoldsItems s.ring ws
    → (s' : System) × (port_syscall_invoke cpu s id arg0 arg1 arg2 ≡ some (s', trapped))
      × Keeps s s'
      × Trapped s
          (block_caller (stacked s.kernel cpu.frame id arg0 arg1 arg2) t)
          t
          cpu.frame
          (request id arg0 arg1 arg2 t)
          ws
          s'
unfolding port_syscall_invoke
port_syscall_invoke_lem cpu s id arg0 arg1 arg2 t ws c other h =
    let k = stacked s.kernel cpu.frame id arg0 arg1 arg2 in
    let s₁ = with_kernel s k in
    let w = captured k t cpu.frame in
    let s₂ = from_current s₁ cpu.frame (some t) in
    (
      s₂,
      ap (λ s. some (s, trapped)) (svc_handler_lem s₁ cpu.frame t c),
      handled-Keeps s₁ t cpu.frame w ws _
          (push-Queued s.ring ws h (block_caller k t) s.kernel_tcb w),
      subst (λ w. Trapped s (block_caller k t) t cpu.frame w ws s₂)
          (captured-stacked s.kernel t cpu.frame id arg0 arg1 arg2)
          (handled-Trapped s₁ t cpu.frame other w ws _
            (push-Queued s.ring ws h (block_caller k t) s.kernel_tcb w)),
    )
