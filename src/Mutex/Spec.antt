-- ===== src/Mutex/Spec.antt =====
-- What a mutex promises, without the kernel: an owner and the tasks that wait, the last to come
-- first.
use crest_rtos.Base.{ℕ, ◌≡◌, false, none, some, List, [], ◌∷◌, ◌==◌, if◌then◌else◌, Ptr, has}
use crest_rtos.Sync.{Status, success, failure}
use crest_rtos.Mutex.{same_task}

pub record View : Type 0 where
  pub owner : Ptr
  pub waiters : List ℕ

abbrev pub view : Ptr → List ℕ → View
view o ws = record { owner = o; waiters = ws }

-- Nobody waits for a free mutex, and the owner does not wait for its own.
abbrev pub IsSettled : Ptr → List ℕ → Type 0
IsSettled none ws = ws ≡ []
IsSettled (some o) ws = has o ws ≡ false

-- A lock by the task `t` with a timeout; the owner locks again, and 0 does not wait.
abbrev pub lock_from : Ptr → List ℕ → ℕ → ℕ → View × Status
lock_from none ws timeout t = (view (some t) ws, success)
lock_from (some o) ws timeout t =
    if o == t
    then (view (some o) ws, success)
    else if timeout == 0
    then (view (some o) ws, failure)
    else (view (some o) (t ∷ ws), failure)

abbrev pub lock : View → ℕ → ℕ → View × Status
lock v = lock_from v.owner v.waiters

-- What becomes of a mutex that its owner lets go: the task in front owns it.
abbrev pub passed_on : List ℕ → View
passed_on [] = view none []
passed_on (w ∷ ws) = view (some w) ws

-- An unlock by the task `t`, without effect where it is not the owner.
abbrev pub unlock : View → ℕ → View
unlock v t = if same_task v.owner (some t) then passed_on v.waiters else v
