-- ===== src/Queue/Spec.antt =====
-- What a bounded queue promises, without the kernel: the items in the order of their arrival, and
-- room for so many.
use crest_rtos.Base.{ℕ, Option, none, some, List, [], ◌∷◌, ◌++◌, ◌==◌, if◌then◌else◌, length}
use crest_rtos.Kernel.{Item}
use crest_rtos.Sync.{Status, success, failure}

pub record View : Type 0 where
  pub capacity : ℕ
  pub items : List Item

abbrev pub view : ℕ → List Item → View
view n xs = record { capacity = n; items = xs }

-- A push: behind all others, if there is room.
abbrev pub push : View → Item → View × Status
push v x =
    if length v.items == v.capacity
    then (v, failure)
    else (view v.capacity (v.items ++ (x ∷ [])), success)

-- A pop: the oldest item.
abbrev pub pop_from : ℕ → List Item → View × Status × Option Item
pop_from n [] = (view n [], failure, none)
pop_from n (x ∷ xs) = (view n xs, success, some x)

abbrev pub pop : View → View × Status × Option Item
pop v = pop_from v.capacity v.items
