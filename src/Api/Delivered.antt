-- ===== src/Api/Delivered.antt =====
-- kernel/kwork.c, complete: a call's value in the frame of its caller.
use crest_rtos.Base.{
  ℕ, true, false, Option, none, some, ◌≡◌, ◌≢◌, refl, ap, ◌∙◌, ==_refl, ==_of_ne, update,
}
use crest_rtos.Sched.{wake_task, saved_r0}
use crest_rtos.Dispatch.{System, complete}
use crest_rtos.Kernel.{ready, Tcb}
use crest_rtos.Svc.{kernel_round, block_caller}
use crest_rtos.Api.{Return}
use crest_rtos.Api.Served.{Fits, Served}

-- The call has ended in the state `s'`, for a privileged call that ends in `s` with the return `r`:
-- its value is the stacked R0, at the address `frame`, the caller is READY and no longer flagged,
-- and nothing else differs.
pub record IsDelivered (s : System) (r : Return) (t frame : ℕ) (s' : System) : Type 0 where
  pub result : ℕ
  pub fits : Fits r result
  pub stacked_r0 : s'.kernel.word ≡ update s.kernel.word frame result
  pub caller : s'.kernel.tcb t ≡ record (s.kernel.tcb t) { svc_blocked = false; state = ready }
  pub others : (u : ℕ) → u ≢ t → s'.kernel.tcb u ≡ s.kernel.tcb u
  pub rest : s' ≡ record s {
    kernel = record s.kernel { word = s'.kernel.word; tcb = s'.kernel.tcb; pendsv = true };
  }

complete-IsDelivered :
    (s : System) (r : Return) (t frame v : ℕ)
    → Fits r v
    → (s.kernel.tcb t).svc_blocked ≡ true
    → saved_r0 (s.kernel.tcb t) ≡ frame
    → IsDelivered s r t frame (complete s (some t) v)
unfolding complete wake_task
complete-IsDelivered s r t frame v fits flagged at = record {
  result = v;
  fits = fits;
  stacked_r0 = rw flagged (ap (λ a. update s.kernel.word a v) at);
  caller = rw (flagged, ==_refl t) refl;
  others = λ u ne. rw (flagged, ==_of_ne u t ne) refl;
  rest = rw flagged refl;
}

-- The dispatch of the call ends like the privileged call, with its value delivered.
abbrev pub Answered : Option (System × Return) → ℕ → ℕ → Option System → Type 0
Answered none t frame o = o ≡ none
Answered (some (s, r)) t frame o = (s' : System) × (o ≡ some s') × IsDelivered s r t frame s'

pub Answered-of_Served :
    (c : Tcb) (t frame : ℕ) (o : Option (System × Return)) (o' : Option System)
    → c.svc_blocked ≡ true
    → saved_r0 c ≡ frame
    → crest_rtos.Svc.Rings.Keeps (λ (a : System × Return). a.0.kernel.tcb t ≡ c) o
    → Served o (some t) o'
    → Answered o t frame o'
Answered-of_Served c t frame none o' flagged at kept e = e
Answered-of_Served c t frame (some (s, r)) o' flagged at kept (v, fits, e) =
    let same = kept.holds (s, r) refl in
    (
      complete s (some t) v,
      e,
      complete-IsDelivered s r t frame v fits (ap (λ (c : Tcb). c.svc_blocked) same ∙ flagged)
          (ap saved_r0 same ∙ at),
    )
