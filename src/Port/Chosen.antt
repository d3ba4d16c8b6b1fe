-- ===== src/Port/Chosen.antt =====
-- arch/arm/cortex-m4/context_switch.c: what a switch at PendSV leaves behind.
use crest_rtos.Base.{
  ℕ, ◌<◌, ◌≡◌, ◌≢◌, refl, subst, Bool, true, false, arith, some, List, has, ltb, ◌==◌, inl, inr,
  if◌then◌else◌, ap, ◌∙◌, Bool-cases,
}
use crest_rtos.Chain.{Chain-frame}
use crest_rtos.Kernel.{
  max_task_priorities, TaskState, running, ready, waiting, suspended, is_ready, is_running, Tcb,
  Kernel, set_tcb,
}
use crest_rtos.Sched.{get_next, set_current}
use crest_rtos.Sched.Round.{nexts}
use crest_rtos.Sched.Turn.{IsRing}
use crest_rtos.Sched.Next.{select, IsNext, get_next_lem}
use crest_rtos.Port.{
  Switch, resumed, control_of, save_current, pick_next, switch_from, switch_context,
}

IsRing-save :
    (k : Kernel) (t sp pr : ℕ) (ts : List ℕ) → IsRing k pr ts → IsRing (save_current k t sp) pr ts
IsRing-save k t sp pr ts r = record {
  chain =
      Chain-frame (nexts k.tcb) (nexts (save_current k t sp).tcb) (k.task_list pr) ts
        (λ u m. ground arith) r.chain;
  nodup = r.nodup;
  few = r.few;
  cursor = r.cursor;
}

-- No task but `t` is RUNNING.
abbrev pub RunsOnly : Kernel → ℕ → Type 0
RunsOnly k t = (u : ℕ) → u ≢ t → is_running (k.tcb u).state ≡ false

-- The state behind the switch to the task `t` of priority `pr`.
abbrev pub switched : Kernel → ℕ → ℕ → Kernel
switched k pr t =
    set_current (set_tcb (select k pr t) t (record (k.tcb t) { state = running })) (some t)

module _ (k : Kernel) (cur sp : ℕ) (current : k.current_task ≡ some cur)
    (deep : ltb sp (k.tcb cur).stack_base ≡ false) where
  pub switch-saved : switch_context k sp ≡ pick_next (save_current k cur sp) sp
  unfolding switch_context switch_from
  switch-saved = ap (switch_from k sp) current ∙ rw (deep, switch_from) refl

  -- The saved task is not RUNNING.
  RunsOnly-save :
      RunsOnly k cur → (u : ℕ) → is_running ((save_current k cur sp).tcb u).state ≡ false
  RunsOnly-save only u = elim (Bool-cases (u == cur)) [
    | inl e ↦ saved u e
    | inr ne ↦ ground (arith, ne, only u)
  ]
    where
      stops : (s : TaskState) → is_running (if is_running s then ready else s) ≡ false
      stops ready = refl
      stops running = refl
      stops waiting = refl
      stops suspended = refl

      saved : (v : ℕ) → (v == cur) ≡ true → is_running ((save_current k cur sp).tcb v).state ≡ false
      saved v e = rw e (stops (k.tcb cur).state)

pub pick-next :
    (k : Kernel) (sp pr t : ℕ)
    → get_next k ≡ some (select k pr t, some t)
    → pick_next k sp
      ≡ some (switched k pr t, resumed (k.tcb t).stack_pointer (some (control_of (k.tcb t))))
unfolding pick_next
pick-next k sp pr t e = rw (e, pick_next) refl

RunsOnly-switched :
    (k : Kernel) (pr t : ℕ)
    → ((u : ℕ) → is_running (k.tcb u).state ≡ false)
    → RunsOnly (switched k pr t) t
unfolding set_current
RunsOnly-switched k pr t none_runs u ne = ground (arith, ne, none_runs u)

state-switched : (k : Kernel) (pr t : ℕ) → ((switched k pr t).tcb t).state ≡ running
unfolding set_current
state-switched k pr t = ground arith

pub current-switched : (k : Kernel) (pr t : ℕ) → (switched k pr t).current_task ≡ some t
unfolding set_current
current-switched k pr t = refl

-- A RUNNING task that is preempted is READY again.
abbrev pub ready_again : TaskState → TaskState
ready_again running = ready
ready_again ready = ready
ready_again waiting = waiting
ready_again suspended = suspended

-- The kernel when the task `cur` has been preempted with the stack pointer `sp`.
abbrev pub preempted : Kernel → ℕ → ℕ → Kernel
preempted k cur sp =
    set_tcb k cur (record (k.tcb cur) { stack_pointer = sp; state = ready_again (k.tcb cur).state })

-- The value of CONTROL: unprivileged for a task with the USER flag, with the process stack.
abbrev pub control_value : Bool → ℕ
control_value true = 3
control_value false = 2

pub save_current-preempted : (k : Kernel) (cur sp : ℕ) → save_current k cur sp ≡ preempted k cur sp
save_current-preempted k cur sp =
    ap (λ c. set_tcb k cur (record (k.tcb cur) { stack_pointer = sp; state = c }))
      (again (k.tcb cur).state)
  where
    again : (s : TaskState) → (if is_running s then ready else s) ≡ ready_again s
    again ready = refl
    again running = refl
    again waiting = refl
    again suspended = refl

control_of-control_value : (c : Tcb) → control_of c ≡ control_value c.user
control_of-control_value c = by_flag c.user
  where
    by_flag : (b : Bool) → (if b then 3 else 2) ≡ control_value b
    by_flag true = refl
    by_flag false = refl

-- The switch to the task `t` of priority `pr`: it was READY, and the first in line, when the
-- preempted task was saved; it is the current task and the only one that is RUNNING; the CPU
-- resumes it at its stack pointer, with its privileges. The stack pointer of the preempted task is
-- saved.
pub record IsSwitched (k : Kernel) (lists : ℕ → List ℕ) (cur sp pr t : ℕ) (k' : Kernel) (r : Switch)
    : Type 0 where
  pub next : IsNext (preempted k cur sp) lists pr t
  pub current : k'.current_task ≡ some t
  pub runs : (k'.tcb t).state ≡ running
  pub alone : RunsOnly k' t
  pub saved : (k'.tcb cur).stack_pointer ≡ sp
  pub resumes :
      r
      ≡ resumed
          (if t == cur then sp else (k.tcb t).stack_pointer)
          (some (control_value (k.tcb t).user))

saved-switched :
    (k : Kernel) (cur sp pr t : ℕ)
    → ((switched (preempted k cur sp) pr t).tcb cur).stack_pointer ≡ sp
unfolding set_current
saved-switched k cur sp pr t = ground arith

pointer-preempted :
    (k : Kernel) (cur sp t : ℕ)
    → ((preempted k cur sp).tcb t).stack_pointer
      ≡ (if t == cur then sp else (k.tcb t).stack_pointer)
pointer-preempted k cur sp t = ground arith

user-preempted : (k : Kernel) (cur sp t : ℕ) → ((preempted k cur sp).tcb t).user ≡ (k.tcb t).user
user-preempted k cur sp t = ground arith

-- port_switch_context, with priority lists in order, a stack that has not overflowed, no RUNNING
-- task but the current one, and some task that is READY once the current one is preempted: it
-- returns, and has switched to a task as above.
pub switch_lem :
    (k : Kernel) (lists : ℕ → List ℕ) (cur sp i u : ℕ)
    → ((pr : ℕ) → pr < max_task_priorities → IsRing k pr (lists pr))
    → k.current_task ≡ some cur
    → ltb sp (k.tcb cur).stack_base ≡ false
    → RunsOnly k cur
    → i < max_task_priorities
    → has u (lists i) ≡ true
    → is_ready ((preempted k cur sp).tcb u).state ≡ true
    → (k' : Kernel) × (r : Switch) × (pr : ℕ) × (t : ℕ) × (switch_context k sp ≡ some (k', r))
      × IsSwitched k lists cur sp pr t k' r
switch_lem k lists cur sp i u rings current deep only lt m can =
    let s = preempted k cur sp in
    let same = save_current-preempted k cur sp in
    elim (get_next_lem s lists (λ pr l.
      subst (λ s. IsRing s pr (lists pr)) same (IsRing-save k cur sp pr (lists pr) (rings pr l)))) [
        | inr (e, nobody) ↦ cc (nobody i u lt m, can)
        | inl (pr, t, e, next) ↦ (
          switched s pr t,
          resumed (s.tcb t).stack_pointer (some (control_of (s.tcb t))),
          pr,
          t,
          switch-saved k cur sp current deep
              ∙ ap (λ s. pick_next s sp) same
              ∙ pick-next s sp pr t e,
          record {
            next = next;
            current = current-switched s pr t;
            runs = state-switched s pr t;
            alone = RunsOnly-switched s pr t (
                subst (λ s. (u : ℕ) → is_running (s.tcb u).state ≡ false) same
                  (RunsOnly-save k cur sp current deep only));
            saved = saved-switched k cur sp pr t;
            resumes =
                ap (λ q. resumed q (some (control_of (s.tcb t)))) (pointer-preempted k cur sp t)
                ∙ ap (λ c. resumed (if t == cur then sp else (k.tcb t).stack_pointer) (some c))
                    (control_of-control_value (s.tcb t)
                      ∙ ap control_value (user-preempted k cur sp t));
          },
        )
      ]
