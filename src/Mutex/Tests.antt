-- ===== src/Mutex/Tests.antt =====
-- The mutex on concrete states.
use crest_rtos.Mutex.{lock_timeout}
use crest_rtos.Mutex.Block.{Ends, ends, lock-Refines}
use crest_rtos.Kernel.{Kernel}
use crest_rtos.Base.{Ptr, ◌≡◌, ◌≢◌, refl, [], ◌∷◌, some}
use crest_rtos.Sync.Wake.{WakesFirst}
use crest_rtos.Mutex.{try_lock_timeout, unlock_for}
use crest_rtos.Mutex.Spec
use crest_rtos.Mutex.Spec.{view}
use crest_rtos.Mutex.Refine.{Represents, Refines, try_lock-Refines, unlock_for_refines}
use crest_rtos.Samples.{mutex_waiter}

mutex_waiter-Represents : Represents mutex_waiter 200 (view (some 2) (3 ∷ []))
mutex_waiter-Represents = record {
  waits = record { chain = (refl, refl); nodup = (refl, tt) };
  owner = refl;
  settled = refl;
}

try_lock-Refines_example :
    Refines 200 (try_lock_timeout mutex_waiter 200 5 20) (Spec.lock (view (some 2) (3 ∷ [])) 20 5)
try_lock-Refines_example =
    try_lock-Refines mutex_waiter 200 5 20 (view (some 2) (3 ∷ [])) refl mutex_waiter-Represents

unlock_for_refines_example :
    Represents (unlock_for mutex_waiter 200 2) 200 (Spec.unlock (view (some 2) (3 ∷ [])) 2)
    × (◌≡◌ {A = Ptr} (some 2) (some 2)
        → WakesFirst mutex_waiter (unlock_for mutex_waiter 200 2) (3 ∷ []))
    × (◌≢◌ {A = Ptr} (some 2) (some 2) → unlock_for mutex_waiter 200 2 ≡ mutex_waiter)
unlock_for_refines_example =
    unlock_for_refines mutex_waiter 200 2 (view (some 2) (3 ∷ [])) mutex_waiter-Represents

-- Task 5 runs and blocks in front of task 3.
abbrev runner : Kernel
runner = record mutex_waiter { current_task = some 5 }

lock-Refines_example :
    Ends 200 5
      (lock_timeout runner 200 20)
      (Spec.lock (view (some 2) (3 ∷ [])) 20 5).0
      (ends (some 2) 20 5)
lock-Refines_example = lock-Refines runner 200 5 20 (view (some 2) (3 ∷ [])) refl refl (record {
  waits = record { chain = (refl, refl); nodup = (refl, tt) };
  owner = refl;
  settled = refl;
})
