-- ===== src/Sem/Tests.antt =====
-- The semaphore on concrete states.
use crest_rtos.Sem.{take_timeout}
use crest_rtos.Sem.Block.{Ends, ends, take-Refines}
use crest_rtos.Kernel.{Kernel}
use crest_rtos.Base.{some}
use crest_rtos.Base.{◌≡◌, refl, arith, [], ◌∷◌, inl}
use crest_rtos.Sem.{try_take_timeout, give}
use crest_rtos.Sem.Spec
use crest_rtos.Sem.Spec.{view}
use crest_rtos.Sem.Refine.{Represents, Refines, Gives, try_take-Refines, give_refines}
use crest_rtos.Samples.{sem_waiter}

sem_waiter-Represents : Represents sem_waiter 100 (view 0 (3 ∷ []))
sem_waiter-Represents = record {
  waits = record { chain = (refl, refl); nodup = (refl, tt) };
  count = refl;
  bound = omega arith;
  settled = inl refl;
}

-- Task 5 waits in front of task 3.
try_take-Refines_example :
    Refines 100 (try_take_timeout sem_waiter 100 5 20) (Spec.take (view 0 (3 ∷ [])) 20 5)
try_take-Refines_example =
    try_take-Refines sem_waiter 100 5 20 (view 0 (3 ∷ [])) refl sem_waiter-Represents

give_refines_example : Gives sem_waiter 100 (view 0 (3 ∷ []))
give_refines_example = give_refines sem_waiter 100 (view 0 (3 ∷ [])) sem_waiter-Represents

-- The waiter's system call returns 0.
give_delivers : (give sem_waiter 100).word 0x2000_1120 ≡ 0
unfolding give
give_delivers = refl

-- Task 5 runs and blocks in front of task 3.
abbrev runner : Kernel
runner = record sem_waiter { current_task = some 5 }

take-Refines_example :
    Ends 100 5 (take_timeout runner 100 20) (Spec.take (view 0 (3 ∷ [])) 20 5).0 (ends 0 20)
take-Refines_example = take-Refines runner 100 5 20 (view 0 (3 ∷ [])) refl refl (record {
  waits = record { chain = (refl, refl); nodup = (refl, tt) };
  count = refl;
  bound = omega arith;
  settled = inl refl;
})
