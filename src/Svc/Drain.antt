-- ===== src/Svc/Drain.antt =====
-- kernel/kwork.c, kernel_task_fn: the loop over the ring, beside the list of the items in it.
use crest_rtos.Base.{
  ℕ, suc, ◌≡◌, refl, sym, ap, ◌∙◌, subst, Bool, true, false, Option, none, some, List, [], ◌∷◌,
  length, ◌==◌, if◌then◌else◌, Ptr, ◌>>=◌, ==_refl,
}
use crest_rtos.Kernel.{waiting, set_tcb, trigger_pendsv}
use crest_rtos.Kwork
use crest_rtos.Kwork.{Ring, WorkItem, succ_index}
use crest_rtos.Kwork.Fifo.{HoldsItems, pop_lem}
use crest_rtos.Dispatch.{System, with_kernel, dispatch}
use crest_rtos.Svc.{kernel_round, drain}
use crest_rtos.Svc.Rings.{Keeps, Keeps-some, Keeps-then, dispatch-Keeps}

-- The wait at the end of the loop: the kernel task `t` is WAITING, and a switch is pending.
abbrev waits : System → ℕ → System
waits s t =
    with_kernel s
      (trigger_pendsv (set_tcb s.kernel t (record (s.kernel.tcb t) { state = waiting })))

-- The system without the oldest item in its ring.
abbrev advanced : System → System
advanced s = record s { ring = record s.ring { head = succ_index s.ring.head } }

-- What the kernel task `t` does with the items `ws`: one dispatch after the other, then the wait.
abbrev pub serve : ℕ → List WorkItem → System → Option System
serve t [] s = some (waits s t)
serve t (w ∷ ws) s = do s' ← dispatch (advanced s) w; serve t ws s'

abbrev from_ptr : System → Ptr → Option (System × Bool)
from_ptr s none = none
from_ptr s (some t) = some (waits s t, false)

abbrev from_pop : System → Option (Ring × WorkItem) → Option (System × Bool)
from_pop s none = from_ptr s s.kernel_tcb
from_pop s (some (r, w)) = do s' ← dispatch (record s { ring = r }) w; some (s', true)

abbrev from_round : ℕ → Option (System × Bool) → Option System
from_round rounds o = do (s', more) ← o; if more then drain rounds s' else some s'

drain_step : (rounds : ℕ) (s : System) → drain (suc rounds) s ≡ from_round rounds (kernel_round s)
unfolding drain
drain_step rounds s = refl

after_ptr :
    (s : System) (p : Ptr)
    → (elim p [ none ↦ none | some t ↦ some (waits s t, false) ]) ≡ from_ptr s p
after_ptr s none = refl
after_ptr s (some t) = refl

after_pop :
    (s : System) (o : Option (Ring × WorkItem))
    → (elim o [
      | some (r, w) ↦ do s' ← dispatch (record s { ring = r }) w; some (s', true)
      | none ↦ elim s.kernel_tcb [ none ↦ none | some t ↦ some (waits s t, false) ]
    ])
      ≡ from_pop s o
after_pop s none = after_ptr s s.kernel_tcb
after_pop s (some (r, w)) = refl

round_step : (s : System) → kernel_round s ≡ from_pop s (Kwork.pop s.ring)
unfolding kernel_round
round_step s = after_pop s (Kwork.pop s.ring)

if_some {ℓ} : {A : Type ℓ} (b : Bool) (x y : A) → (if b then none else some x) ≡ some y → x ≡ y
if_some true x y e = cc
if_some false x y e = cc

popped_ring :
    (r r' : Ring) (w : WorkItem)
    → Kwork.pop r ≡ some (r', w)
    → record r { head = succ_index r.head } ≡ r'
unfolding Kwork.pop
popped_ring r r' w e =
    ap (λ (a : Ring × WorkItem). a.0)
      (if_some (r.head == r.tail) (record r { head = succ_index r.head }, r.buf r.head) (r', w) e)

-- What the loop makes of the dispatch of one item.
after_dispatch :
    (t n : ℕ) (ws : List WorkItem) (o : Option System)
    → ((s' : System) → o ≡ some s' → drain n s' ≡ serve t ws s')
    → from_round n (do s' ← o; some (s', true)) ≡ (do s' ← o; serve t ws s')
after_dispatch t n ws none h = refl
after_dispatch t n ws (some s') h = h s' refl

drain-serve :
    (t : ℕ) (ws : List WorkItem) (s : System)
    → HoldsItems s.ring ws
    → s.kernel_tcb ≡ some t
    → drain (suc (length ws)) s ≡ serve t ws s
drain-serve t [] s h task =
    drain_step 0 s
    ∙ ap (from_round 0)
        (round_step s ∙ ap (from_pop s) (pop_lem s.ring [] h) ∙ ap (from_ptr s) task)
drain-serve t (w ∷ ws) s h task =
    let (r, popped, rest) = pop_lem s.ring (w ∷ ws) h in
    let at = popped_ring s.ring r w popped in
    let moved : record s { ring = r } ≡ advanced s = ap (λ q. record s { ring = q }) (sym at) in
    drain_step (suc (length ws)) s
    ∙ ap (from_round (suc (length ws))) (round_step s ∙ ap (from_pop s) popped)
    ∙ ap (λ m. from_round (suc (length ws)) (do s' ← dispatch m w; some (s', true))) moved
    ∙ after_dispatch t (suc (length ws)) ws (dispatch (advanced s) w) (λ s' e.
      let kept =
        (dispatch-Keeps (advanced s).ring (some t) (advanced s) w
            (record { ring = refl; task = task })).holds
          s' e in
      drain-serve t ws s' (subst (λ q. HoldsItems q ws) (sym at ∙ sym kept.ring) rest) kept.task)

-- The kernel task when the loop has come to its end.
pub record IsDrained (t : ℕ) (s : System) : Type 0 where
  pub empty : HoldsItems s.ring []
  pub state : (s.kernel.tcb t).state ≡ waiting
  pub pendsv : s.kernel.pendsv ≡ true

serve-IsDrained :
    (t : ℕ) (ws : List WorkItem) (s : System)
    → HoldsItems s.ring ws
    → s.kernel_tcb ≡ some t
    → Keeps (IsDrained t) (serve t ws s)
serve-IsDrained t [] s h task =
    Keeps-some (record { empty = h; state = rw (==_refl t) refl; pendsv = refl })
serve-IsDrained t (w ∷ ws) s h task =
    let (r, popped, rest) = pop_lem s.ring (w ∷ ws) h in
    let at = popped_ring s.ring r w popped in
    Keeps-then
      (dispatch-Keeps (advanced s).ring (some t) (advanced s) w
        (record { ring = refl; task = task }))
      (λ s' kept.
        serve-IsDrained t ws s' (subst (λ q. HoldsItems q ws) (sym at ∙ sym kept.ring) rest)
          kept.task)

-- The loop of the kernel task `t`, on a ring that holds the items `ws`, is over after one round for
-- each item and one more, and does what `serve` says: it dispatches the items in the order of their
-- arrival, each exactly once, and then waits. Unless a dispatch fails, the ring is empty at the end,
-- the kernel task is WAITING and a switch is pending.
pub drain_lem :
    (t : ℕ) (ws : List WorkItem) (s : System)
    → HoldsItems s.ring ws
    → s.kernel_tcb ≡ some t
    → (drain (suc (length ws)) s ≡ serve t ws s) × Keeps (IsDrained t) (drain (suc (length ws)) s)
drain_lem t ws s h task =
    let same = drain-serve t ws s h task in
    (same, subst (Keeps (IsDrained t)) (sym same) (serve-IsDrained t ws s h task))
