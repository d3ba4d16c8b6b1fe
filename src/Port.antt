-- ===== src/Port.antt =====
-- arch/arm/cortex-m4/context_switch.c and port.c: the choice of the next task at PendSV and at the
-- start, and the MPU regions of a task; boards/stm32f446/startup.c, SysTick_Handler.
pub mod Chosen
mod Tests
use crest_rtos.Base.{
  ℕ, zero, suc, ◌+◌, ◌-◌, ◌*◌, ◌/◌, ◌%◌, ◌^◌, Bool, ◌||◌, Option, none, some, ltb, ◌==◌, List, [],
  ◌∷◌, ◌++◌, if◌then◌else◌, Ptr, ◌>>=◌,
}
use crest_rtos.Kernel.{ready, running, is_running, Tcb, Kernel, set_tcb, trigger_pendsv}
use crest_rtos.Sched.{get_next, set_current}
use crest_rtos.Tick.{tick}

-- What PendSV returns to: a stack pointer and the value of CONTROL, if it was written, or the
-- halt of stack_overflow_handler.
pub data Switch : Type 0 where
  resumed : ℕ → Option ℕ → Switch
  overflowed : ℕ → Switch

-- `ctrl = 2; if (user) ctrl |= 1`
abbrev pub control_of : Tcb → ℕ
control_of c = if c.user then 3 else 2

-- The preempted task's stack pointer is saved, and a RUNNING task is READY again.
abbrev pub save_current : Kernel → ℕ → ℕ → Kernel
save_current k t old_sp = set_tcb k t (record (k.tcb t) {
  stack_pointer = old_sp;
  state = if is_running (k.tcb t).state then ready else (k.tcb t).state;
})

-- The second half of port_switch_context.
unfoldable pub pick_next : Kernel → ℕ → Option (Kernel × Switch)
unfolding get_next set_current
pick_next k old_sp = do
  (k', next) ← get_next k
  elim next [
    | some t ↦
        let k'' = set_tcb k' t (record (k'.tcb t) { state = running }) in
        some (
          set_current k'' (some t),
          resumed (k'.tcb t).stack_pointer (some (control_of (k'.tcb t))),
        )
    | none ↦ elim k'.current_task [
      | none ↦ some (k', resumed old_sp none)
      | some t ↦ some (
        set_tcb k' t (record (k'.tcb t) { state = running }),
        resumed (k'.tcb t).stack_pointer none,
      )
    ]
  ]

-- The body of port_switch_context, at the value of scheduler_get_current.
unfoldable pub switch_from : Kernel → ℕ → Ptr → Option (Kernel × Switch)
switch_from k old_sp none = pick_next k old_sp
switch_from k old_sp (some t) =
    if ltb old_sp (k.tcb t).stack_base
    then some (save_current k t old_sp, overflowed t)
    else pick_next (save_current k t old_sp) old_sp

-- port_switch_context; the MPU set-up of the chosen task is `mpu_regions`.
unfoldable pub switch_context : Kernel → ℕ → Option (Kernel × Switch)
unfolding switch_from
switch_context k old_sp = switch_from k old_sp k.current_task

-- port_start_first_task: the first task, and `none` where the source spins for ever.
unfoldable pub start_first_task : Kernel → Option (Kernel × Ptr)
unfolding get_next set_current
start_first_task k = do
  (k', first) ← elim k.current_task [ some t ↦ some (k, some t) | none ↦ get_next k ]
  elim first [
    | none ↦ some (k', none)
    | some t ↦
        let k'' = set_current k' (some t) in
        some (set_tcb k'' t (record (k''.tcb t) { state = running }), some t)
  ]

-- SysTick_Handler; PREEMPT_TICK_INTERVAL is 50
unfoldable pub systick : Kernel → Option Kernel
unfolding tick
systick k = do k' ← tick k; some (if k'.tick_count % 50 == 0 then trigger_pendsv k' else k')

-- port_set_unprivileged, less the register write
unfoldable pub set_unprivileged : Kernel → Kernel
set_unprivileged k = elim k.current_task [
  | none ↦ k
  | some t ↦ set_tcb k t (record (k.tcb t) { user = crest_rtos.Base.true })
]
