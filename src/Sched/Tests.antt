-- ===== src/Sched/Tests.antt =====
-- The scheduler on concrete states.
use crest_rtos.Base.{ℕ, ◌≡◌, ◌<◌, ◌⊎◌, refl, List, [], true, false, none, some, arith, has, update}
use crest_rtos.Kernel.{max_task_priorities, waiting, Kernel, is_ready}
use crest_rtos.Chain.{Chain-frame}
use crest_rtos.Sched.Round.{nexts}
use crest_rtos.Sched.{get_next}
use crest_rtos.Sched.Turn.{IsRing}
use crest_rtos.Sched.Next.{select, IsNext, get_next_lem}
use crest_rtos.Sched.Fair.{round_robin}
use crest_rtos.Sched.{remove_task, add_task, init, sleep, get_first_ready_priority}
use crest_rtos.Sched.Mask.{Masks, IsFirst, first_ready_priority_lem}
use crest_rtos.Sched.Reach.{Reach, started, added, slept, Reach-HoldsTasks}
use crest_rtos.Sched.Lists.{HoldsTasks, without, remove_task-HoldsTasks}
use crest_rtos.Sched.Add.{with_task}
use crest_rtos.Samples.{blank, plain, two_ready, lists, lists-IsRing}

-- The next choice: task 2 has gone to wait.
abbrev second_waits : Kernel
second_waits = record two_ready {
  rr_current = update two_ready.rr_current 1 (some 2);
  tcb = update two_ready.tcb 2 (record plain { state = waiting });
}

-- Task 1 is chosen, and the cursor stands at task 2.
get_next_first : get_next two_ready ≡ some (select two_ready 1 1, some 1)
unfolding get_next
get_next_first = refl

get_next_lem_example :
    ((pr : ℕ) × (t : ℕ) × (get_next two_ready ≡ some (select two_ready pr t, some t))
      × IsNext two_ready lists pr t)
    ⊎ ((get_next two_ready ≡ some (two_ready, none))
        × ((i u : ℕ)
            → i < max_task_priorities
            → has u (lists i) ≡ true
            → is_ready (two_ready.tcb u).state ≡ false))
get_next_lem_example = get_next_lem two_ready lists lists-IsRing

two_ready-HoldsTasks : HoldsTasks two_ready lists
two_ready-HoldsTasks = record { ring = lists-IsRing; own = λ pr u lt m. ground (arith, m) }

second_waits-HoldsTasks : HoldsTasks second_waits lists
second_waits-HoldsTasks = record {
  ring = second_waits-IsRing;
  own = λ pr u lt m. ground (arith, m);
}
  where
    second_waits-IsRing : (pr : ℕ) → pr < max_task_priorities → IsRing second_waits pr (lists pr)
    second_waits-IsRing pr lt =
        let r = lists-IsRing pr lt in
        record {
          chain =
              Chain-frame (nexts two_ready.tcb) (nexts second_waits.tcb) (two_ready.task_list pr)
                (lists pr) (λ u m. ground arith) r.chain;
          nodup = r.nodup;
          few = r.few;
          cursor = λ s e. ground (arith, e);
        }

round_robin_example : is_ready (second_waits.tcb 2).state ≡ false
unfolding get_next
round_robin_example =
    round_robin two_ready (select two_ready 1 1) second_waits (select second_waits 1 1) lists 1 1 2
      two_ready-HoldsTasks second_waits-HoldsTasks (omega arith) refl refl refl refl refl
      (omega arith)

second_removed :
    (k' : Kernel) × (remove_task two_ready 2 ≡ some k') × HoldsTasks k' (without lists 1 2)
second_removed = remove_task-HoldsTasks two_ready lists 2 (omega arith) two_ready-HoldsTasks

-- Task 1 is added after the start, and goes to sleep.
abbrev one_added : Kernel
one_added = add_task (init blank) 1

abbrev one_list : ℕ → List ℕ
one_list = with_task (λ _. []) ((init blank).tcb 1).priority 1

one_asleep : Reach (sleep one_added 1 5) one_list
unfolding init
one_asleep =
    slept one_added one_list 1 5
      (added (init blank) (λ _. []) 1 (started blank) (omega arith) (λ pr lt. refl) (omega arith))

Reach-HoldsTasks_example : HoldsTasks (sleep one_added 1 5) one_list
Reach-HoldsTasks_example = Reach-HoldsTasks (sleep one_added 1 5) one_list one_asleep

first_ready_priority_lem_example :
    Masks (sleep one_added 1 5).priority_mask one_list
    × IsFirst one_list (get_first_ready_priority (sleep one_added 1 5))
first_ready_priority_lem_example =
    first_ready_priority_lem (sleep one_added 1 5) one_list one_asleep

-- The task sleeps, and its priority is reported all the same.
first_ready_priority-asleep : get_first_ready_priority (sleep one_added 1 5) ≡ 1
unfolding get_first_ready_priority sleep add_task init
first_ready_priority-asleep = refl
