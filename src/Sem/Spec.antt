-- ===== src/Sem/Spec.antt =====
-- What a counting semaphore promises, without the kernel: a count and the tasks that wait, the last
-- to come first.
use crest_rtos.Base.{ℕ, zero, suc, ◌+◌, ◌≡◌, ◌⊎◌, List, [], ◌∷◌, ◌==◌, if◌then◌else◌}
use crest_rtos.Sync.{Status, success, failure}

pub record View : Type 0 where
  pub count : ℕ
  pub waiters : List ℕ

abbrev pub view : ℕ → List ℕ → View
view n ws = record { count = n; waiters = ws }

-- Tokens and waiters never stand side by side.
abbrev pub IsSettled : View → Type 0
IsSettled v = (v.count ≡ 0) ⊎ (v.waiters ≡ [])

-- A take with a timeout, by the task `t`; 0 does not wait.
abbrev pub take_from : ℕ → List ℕ → ℕ → ℕ → View × Status
take_from (suc n) ws timeout t = (view n ws, success)
take_from zero ws timeout t =
    if timeout == 0 then (view 0 ws, failure) else (view 0 (t ∷ ws), failure)

abbrev pub take : View → ℕ → ℕ → View × Status
take v = take_from v.count v.waiters

-- A give: the task in front gets the token, or the count goes up.
abbrev pub give_to : ℕ → List ℕ → View
give_to n [] = view (n + 1) []
give_to n (w ∷ ws) = view n ws

abbrev pub give : View → View
give v = give_to v.count v.waiters
