-- ===== src/Queue/Tests.antt =====
-- The queue on concrete states.
use crest_rtos.Base.{
  ℕ, zero, suc, ◌+◌, ◌≡◌, refl, [], ◌∷◌, List, some, arith, length, ◌<◌, get_elem?,
}
use crest_rtos.Kernel.{Kernel, Item}
use crest_rtos.Sync.{returned}
use crest_rtos.Ring.{wrap}
use crest_rtos.Queue.{push, pop}
use crest_rtos.Queue.Spec
use crest_rtos.Queue.Spec.{view}
use crest_rtos.Queue.Fifo.{Represents, WakesOn}
use crest_rtos.Queue.Refine.{push-Refines, pop-Refines}
use crest_rtos.Samples.{queue_waiter, queue_full}

queue_waiter-Represents : Represents queue_waiter 300 (view 2 [])
queue_waiter-Represents = record {
  word = omega arith;
  slots = refl;
  holds = record {
    head_lt = omega arith;
    few = omega arith;
    tail_at = refl;
    item = λ j lt. ground (arith, lt);
  };
}

abbrev two_items : List Item
two_items = (2 ∷ []) ∷ (0 ∷ []) ∷ []

two_items-at : (j : ℕ) → j < length two_items → get_elem? two_items j ≡ some (wrap 3 (2 + j) ∷ [])
two_items-at zero lt = refl
two_items-at (suc zero) lt = refl
two_items-at (suc (suc j)) lt = ground (arith, lt)

queue_full-Represents : Represents queue_full 300 (view 2 two_items)
queue_full-Represents = record {
  word = omega arith;
  slots = refl;
  holds = record { head_lt = omega arith; few = omega arith; tail_at = refl; item = two_items-at };
}

push-Refines_example :
    (k' : Kernel) × (push queue_waiter 300 (7 ∷ []) 0
      ≡ some (k', returned (Spec.push (view 2 []) (7 ∷ [])).1))
    × Represents k' 300 (Spec.push (view 2 []) (7 ∷ [])).0
    × WakesOn (Spec.push (view 2 []) (7 ∷ [])).1 queue_waiter k' (3 ∷ [])
push-Refines_example =
    push-Refines queue_waiter 300 (7 ∷ []) 0 (view 2 []) (3 ∷ []) queue_waiter-Represents
      (record { chain = (refl, refl); nodup = (refl, tt) }) (λ e. refl)

pop-Refines_example :
    (k' : Kernel) × (pop queue_full 300 9
      ≡ some (k', returned (Spec.pop (view 2 two_items)).1, (Spec.pop (view 2 two_items)).2))
    × Represents k' 300 (Spec.pop (view 2 two_items)).0
    × WakesOn (Spec.pop (view 2 two_items)).1 queue_full k' (3 ∷ [])
pop-Refines_example =
    pop-Refines queue_full 300 9 (view 2 two_items) (3 ∷ []) queue_full-Represents
      (record { chain = (refl, refl); nodup = (refl, tt) }) (λ e. cc)
