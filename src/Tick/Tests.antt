-- ===== src/Tick/Tests.antt =====
-- A tick on concrete states.
use crest_rtos.Base.{
  ℕ, zero, suc, ◌+◌, ◌%◌, ◌^◌, ◌≡◌, ◌≢◌, ◌<◌, refl, [], ◌∷◌, true, false, none, some, arith, has,
  ◌==◌, update,
}
use crest_rtos.Kernel.{max_task_priorities, waiting, Kernel, sem_waiters}
use crest_rtos.Tick.{sync_task, tick}
use crest_rtos.Tick.Ages.{IsListed}
use crest_rtos.Tick.Pass.{IsFiled, Ticked, tick_lem}
use crest_rtos.Tick.Timeout.{Expired, count_down, sync_task_timeout}
use crest_rtos.Samples.{lists, plain, two_ready, sem_waiter}

sync_task_timeout_example :
    (◌≢◌ {A = ℕ} 0 0 → sync_task 3 sem_waiter ≡ some (count_down sem_waiter 3))
    × (◌≡◌ {A = ℕ} 0 0
        → (k' : Kernel) × (sync_task 3 sem_waiter ≡ some k')
          × Expired (count_down sem_waiter 3) (sem_waiters 100) 3 (3 ∷ []) k')
sync_task_timeout_example =
    sync_task_timeout sem_waiter (sem_waiters 100) 3 0 (3 ∷ []) (omega arith)
      (record { chain = (refl, refl); nodup = (refl, tt) }) refl refl refl

-- Task 2 sleeps for 5 ticks behind the READY task 1.
abbrev sleeper : Kernel
sleeper = record two_ready {
  tcb = update two_ready.tcb 2 (record plain { state = waiting; delay_ticks = 5 });
}

lists-IsListed :
    (pr : ℕ) → pr < max_task_priorities → IsListed sleeper.task_list sleeper.tcb pr (lists pr)
lists-IsListed zero lt = (refl, tt, omega arith)
lists-IsListed (suc zero) lt = ((refl, (refl, refl)), (refl, (refl, tt)), omega arith)
lists-IsListed (suc (suc pr)) lt =
    let far : (suc (suc pr) == 1) ≡ false = ground arith in
    (rw far refl, rw far tt, rw far (omega arith))

sleeper-IsFiled : IsFiled sleeper lists
sleeper-IsFiled = record { listed = lists-IsListed; apart = λ i j t lt lt' ne m. ground arith }

sleeper_idle :
    (i t : ℕ)
    → i < max_task_priorities
    → has t (lists i) ≡ true
    → (sleeper.tcb t).blocking_wait_list ≡ none
sleeper_idle i t lt m = ground arith

tick_lem_example :
    (k' : Kernel) × (tick sleeper ≡ some k')
    × (k'.tick_count ≡ (sleeper.tick_count + 1) % 2 ^ 32)
    × ((i t : ℕ)
        → i < max_task_priorities
        → has t (lists i) ≡ true
        → Ticked (sleeper.tcb t) (k'.tcb t))
    × ((t : ℕ)
        → ((i : ℕ) → i < max_task_priorities → has t (lists i) ≡ false)
        → k'.tcb t ≡ sleeper.tcb t)
tick_lem_example = tick_lem sleeper lists sleeper-IsFiled sleeper_idle
