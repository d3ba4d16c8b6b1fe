-- ===== src/Port/Tests.antt =====
-- The switch on concrete states.
use crest_rtos.Base.{ℕ, ◌≡◌, refl, arith, some}
use crest_rtos.Kernel.{Kernel}
use crest_rtos.Port.{Switch, switch_context}
use crest_rtos.Port.Chosen.{IsSwitched, switch_lem}
use crest_rtos.Samples.{two_ready, lists, lists-IsRing}

-- Task 0 is preempted for task 1.
switch_lem_example :
    (k' : Kernel) × (r : Switch) × (pr : ℕ) × (t : ℕ) × (switch_context two_ready 0x2000_10c0
      ≡ some (k', r))
    × IsSwitched two_ready lists 0 0x2000_10c0 pr t k' r
switch_lem_example =
    switch_lem two_ready lists 0 0x2000_10c0 1 1 lists-IsRing refl refl (λ u ne. ground arith)
      (omega arith) refl refl
