-- ===== src/Kwork/Tests.antt =====
-- The ring of work items on concrete states.
use crest_rtos.Base.{refl, [], ◌∷◌, some, arith, zero, suc, ℕ, ◌<◌, ◌+◌, ◌≡◌, length, get_elem?}
use crest_rtos.Ring.{wrap}
use crest_rtos.Kwork.{Ring, WorkItem, push, pop}
use crest_rtos.Kwork.Fifo.{HoldsItems, Pushed, Popped, push_lem, pop_lem}
use crest_rtos.Samples.{two_ready}

abbrev call_of : ℕ → WorkItem
call_of n = record { id = n; arg0 = 5; arg1 = 0; arg2 = 0; arg3 = 0; caller = some 1 }

-- One item, at the last cell; the next one goes to the first.
abbrev one_item : Ring
one_item = record { buf = call_of; head = 15; tail = 0 }

one_item-HoldsItems : HoldsItems one_item (call_of 15 ∷ [])
one_item-HoldsItems = record { head_lt = omega arith; few = omega arith; tail_at = refl; item = at }
  where
    at :
        (j : ℕ)
        → j < length (call_of 15 ∷ [])
        → get_elem? (call_of 15 ∷ []) j ≡ some (call_of (wrap 16 (15 + j)))
    at zero lt = refl
    at (suc j) lt = ground (arith, lt)

push_lem_example :
    Pushed one_item two_ready
      (some 2)
      (call_of 3)
      (call_of 15 ∷ [])
      (push one_item two_ready (some 2) (call_of 3))
push_lem_example =
    push_lem one_item (call_of 15 ∷ []) one_item-HoldsItems two_ready (some 2) (call_of 3)

oldest_call : Popped (call_of 15 ∷ []) (pop one_item)
oldest_call = pop_lem one_item (call_of 15 ∷ []) one_item-HoldsItems
