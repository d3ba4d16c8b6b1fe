-- ===== src/Dispatch/Delay.antt =====
-- kernel/kwork.c, SYSCALL_DELAY, with the ageing of sleepers in kernel/sched.c, scheduler_tick.
use crest_rtos.Base.{
  ◌==◌, false, ltb, ℕ, zero, suc, ◌-◌, ◌<◌, ◌≡◌, ◌∙◌, refl, true, false, arith, none, some, ap,
}
use crest_rtos.Kernel.{Tcb, ready, waiting}
use crest_rtos.Sched
use crest_rtos.Sched.{saved_r0}
use crest_rtos.Tick.{age}
use crest_rtos.Task.{task_delay}
use crest_rtos.Kwork.{WorkItem}
use crest_rtos.Dispatch.{System, dispatch_as, do_delay, delay}

-- The control block after `n` ticks.
abbrev pub ages : ℕ → Tcb → Tcb
ages zero c = c
ages (suc n) c = ages n (age c)

-- A control block that scheduler_sleep has prepared.
abbrev pub asleep : Tcb → ℕ → Tcb
asleep c n = record c { svc_blocked = false; delay_ticks = n; state = waiting }

age_down :
    (c : Tcb) (n : ℕ)
    → c.blocking_wait_list ≡ none
    → age (asleep c (suc (suc n))) ≡ asleep c (suc n)
unfolding age
age_down c n e =
    let pos : ltb 0 (suc (suc n)) ≡ true = ground arith in
    let less : suc (suc n) - 1 ≡ suc n = omega arith in
    let more : (suc n == 0) ≡ false = ground arith in rw (e, pos, less, more) refl

age_last : (c : Tcb) → c.blocking_wait_list ≡ none → (age (asleep c 1)).state ≡ ready
unfolding age
age_last c e = rw e refl

age_stuck : (c : Tcb) → age (asleep c 0) ≡ asleep c 0
unfolding age
age_stuck c = refl

ages-asleep :
    (c : Tcb) (n i : ℕ)
    → c.blocking_wait_list ≡ none
    → i < suc n
    → (ages i (asleep c (suc n))).state ≡ waiting
ages-asleep c n zero e lt = refl
ages-asleep c zero (suc i) e lt = ground (arith, lt)
ages-asleep c (suc n) (suc i) e lt =
    ap (λ (d : Tcb). (ages i d).state) (age_down c n e) ∙ ages-asleep c n i e (omega (arith, lt))

ages-awake :
    (c : Tcb) (n : ℕ)
    → c.blocking_wait_list ≡ none
    → (ages (suc n) (asleep c (suc n))).state ≡ ready
ages-awake c zero e = age_last c e
ages-awake c (suc n) e =
    ap (λ (d : Tcb). (ages (suc n) d).state) (age_down c n e) ∙ ages-awake c n e

ages-stuck : (c : Tcb) (i : ℕ) → ages i (asleep c 0) ≡ asleep c 0
ages-stuck c zero = refl
ages-stuck c (suc i) = ap (ages i) (age_stuck c) ∙ ages-stuck c i

module _ (s : System) (w : WorkItem) (t : ℕ) (caller : w.caller ≡ some t) where
  -- The state that the dispatch of a delay leaves.
  delay_asleep :
      (s' : System) × (dispatch_as delay s w ≡ some s')
      × (s'.kernel.tcb t ≡ asleep (s.kernel.tcb t) w.arg0)
      × (s'.kernel.word (saved_r0 (s.kernel.tcb t)) ≡ 0)
  unfolding dispatch_as do_delay Sched.sleep
  delay_asleep = rw caller (_, refl, ground arith, ground arith)

  -- SYSCALL_DELAY with a positive number of ticks, for a caller that waits at no primitive: the
  -- call returns 0, the caller waits through all ticks before the last, and is READY at the last.
  pub delay_lem :
      (n : ℕ)
      → w.arg0 ≡ suc n
      → (s.kernel.tcb t).blocking_wait_list ≡ none
      → (s' : System) × (dispatch_as delay s w ≡ some s')
        × (s'.kernel.word (saved_r0 (s.kernel.tcb t)) ≡ 0)
        × ((i : ℕ) → i < suc n → (ages i (s'.kernel.tcb t)).state ≡ waiting)
        × ((ages (suc n) (s'.kernel.tcb t)).state ≡ ready)
  delay_lem n arg free =
      let (s', e, c, r) = delay_asleep in
      (
        s',
        e,
        r,
        λ i lt. rw (c, arg) (ages-asleep (s.kernel.tcb t) n i free lt),
        rw (c, arg) (ages-awake (s.kernel.tcb t) n free),
      )

  -- SYSCALL_DELAY with 0 ticks: the caller waits, and no number of ticks makes it READY, whereas
  -- z_impl_task_delay with 0 leaves the kernel as it is.
  pub delay_zero :
      w.arg0 ≡ 0
      → ((s' : System) × (dispatch_as delay s w ≡ some s')
          × ((i : ℕ) → (ages i (s'.kernel.tcb t)).state ≡ waiting))
        × (task_delay s.kernel 0 ≡ s.kernel)
  unfolding task_delay
  delay_zero arg =
      let (s', e, c, r) = delay_asleep in
      ((s', e, λ i. rw (c, arg) (ap (λ (d : Tcb). d.state) (ages-stuck (s.kernel.tcb t) i))), refl)
