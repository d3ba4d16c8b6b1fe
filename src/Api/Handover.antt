-- ===== src/Api/Handover.antt =====
-- A trapped call with arch/arm/cortex-m4/context_switch.c: from the caller to the kernel task.
use crest_rtos.Base.{
  ℕ, true, false, some, List, [], ◌∷◌, ◌-◌, ◌+◌, ◌<◌, ◌≤◌, ◌≡◌, ◌≢◌, refl, sym, ap, ◌∙◌, arith,
  ◌==◌, ==_refl, ==_of_ne, ltb,
}
use crest_rtos.Chain.{Chain-frame}
use crest_rtos.Sched.{set_current, saved_r0}
use crest_rtos.Sched.Round.{nexts}
use crest_rtos.Sched.Turn.{IsRing}
use crest_rtos.Sched.Next.{first_alone}
use crest_rtos.Port.{resumed, control_of, pick_next, switch_context}
use crest_rtos.Port.Chosen.{preempted, switched, switch-saved, pick-next, save_current-preempted}
use crest_rtos.Kwork.{wake_kernel}
use crest_rtos.Kwork.Fifo.{HoldsItems}
use crest_rtos.Dispatch.{System}
use crest_rtos.Kernel.{
  max_task_priorities, ready, waiting, is_ready, Kernel, set_tcb, trigger_pendsv, sem_waiters,
  mutex_waiters, send_waiters, recv_waiters,
}
use crest_rtos.Svc.{block_caller}
use crest_rtos.Api.{Cpu, is_privileged}
use crest_rtos.Api.Cells.{IsFree}

-- A user-mode call of the task `t`, while the kernel task `kt` waits for work, alone at priority 0:
-- the priority lists are in order, `t` runs and stands on no wait list, no other call is in the
-- ring, and 32 bytes more than the frame of the exception fit on the stack of `t`.
pub record IsCalling (cpu : Cpu) (s : System) (t kt : ℕ) (lists : ℕ → List ℕ) : Type 0 where
  pub user : is_privileged cpu ≡ false
  pub current : s.kernel.current_task ≡ some t
  pub worker : s.kernel_tcb ≡ some kt
  pub other : t ≢ kt
  pub idle : (s.kernel.tcb kt).state ≡ waiting
  pub no_calls : HoldsItems s.ring []
  pub rings : (pr : ℕ) → pr < max_task_priorities → IsRing s.kernel pr (lists pr)
  pub alone : lists 0 ≡ kt ∷ []
  pub free : IsFree s.kernel t
  pub low : 32 ≤ cpu.frame
  pub deep : ltb (cpu.frame - 32) (s.kernel.tcb t).stack_base ≡ false

-- The kernel when the call is in the ring: `t` is blocked and the kernel task is READY.
abbrev pub waiting_kernel : Kernel → (ℕ → ℕ) → ℕ → ℕ → Kernel
waiting_kernel k word t kt =
    let b = block_caller (record k { word = word }) t in
    trigger_pendsv (set_tcb b kt (record (b.tcb kt) { state = ready }))

module _ (cpu : Cpu) (s : System) (t kt : ℕ) (lists : ℕ → List ℕ) (h : IsCalling cpu s t kt lists)
    (word : ℕ → ℕ) where
  abbrev pub trap_kernel : Kernel
  trap_kernel = waiting_kernel s.kernel word t kt

  abbrev pub sp : ℕ
  sp = cpu.frame - 32

  abbrev pub saved : Kernel
  saved = preempted trap_kernel t sp

  abbrev pub worker_kernel : Kernel
  worker_kernel = switched saved 0 kt

  pub woken :
      trigger_pendsv (wake_kernel (block_caller (record s.kernel { word = word }) t) s.kernel_tcb)
      ≡ trap_kernel
  unfolding wake_kernel
  woken =
      let apart : (kt == t) ≡ false = ==_of_ne kt t (λ e. h.other (sym e)) in
      rw (h.worker, wake_kernel, apart, h.idle) refl

  saved-IsRing : (pr : ℕ) → pr < max_task_priorities → IsRing saved pr (lists pr)
  saved-IsRing pr lt =
      let r = h.rings pr lt in
      record {
        chain =
            Chain-frame (nexts s.kernel.tcb) (nexts saved.tcb) (s.kernel.task_list pr) (lists pr)
              (λ u m. ground arith) r.chain;
        nodup = r.nodup;
        few = r.few;
        cursor = r.cursor;
      }

  worker-is_ready : is_ready (saved.tcb kt).state ≡ true
  worker-is_ready =
      let apart : (kt == t) ≡ false = ==_of_ne kt t (λ e. h.other (sym e)) in
      rw (apart, ==_refl kt) refl

  deep_enough : ltb sp (trap_kernel.tcb t).stack_base ≡ false
  deep_enough =
      let apart : (t == kt) ≡ false = ==_of_ne t kt h.other in rw (apart, ==_refl t) h.deep

  pub switches :
      switch_context trap_kernel sp
      ≡ some
          (worker_kernel, resumed (saved.tcb kt).stack_pointer (some (control_of (saved.tcb kt))))
  switches =
      switch-saved trap_kernel t sp h.current deep_enough
      ∙ ap (λ k. pick_next k sp) (save_current-preempted trap_kernel t sp)
      ∙ pick-next saved sp 0 kt (first_alone saved lists kt saved-IsRing h.alone worker-is_ready)

  pub caller-flagged : (worker_kernel.tcb t).svc_blocked ≡ true
  unfolding set_current
  caller-flagged =
      let apart : (t == kt) ≡ false = ==_of_ne t kt h.other in rw (apart, ==_refl t) refl

  pub caller-frame : saved_r0 (worker_kernel.tcb t) ≡ cpu.frame
  unfolding set_current
  caller-frame =
      let apart : (t == kt) ≡ false = ==_of_ne t kt h.other in
      let back : cpu.frame - 32 + 32 ≡ cpu.frame = omega (arith, h.low) in
      rw (apart, ==_refl t) back

  pub caller-IsFree : IsFree worker_kernel t
  unfolding set_current
  caller-IsFree (sem_waiters p) = h.free (sem_waiters p)
  caller-IsFree (mutex_waiters p) = h.free (mutex_waiters p)
  caller-IsFree (send_waiters p) = h.free (send_waiters p)
  caller-IsFree (recv_waiters p) = h.free (recv_waiters p)
