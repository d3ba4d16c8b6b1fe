-- ===== src/Base/Range.antt =====
-- A test that holds of all numbers below a bound, so that evaluation decides a lemma on a byte.
use Prim.Native.Nat.{ℕ, zero, suc, ◌<◌}
use mathlib.Core.Path.{◌≡◌}
use mathlib.Core.Logic.{inl, inr}
use mathlib.Core.Bool.{Bool, true, ◌&&◌}
use native.Mathlib.Omega.{arith}
use crest_rtos.Base.Tests.{eq_or_gt}

pub and_left : (a b : Bool) → (a && b) ≡ true → a ≡ true
and_left a b h = ground arith

pub and_right : (a b : Bool) → (a && b) ≡ true → b ≡ true
and_right a b h = ground arith

-- Whether `test` holds of all numbers below `n`.
unfoldable pub all_below : ℕ → (ℕ → Bool) → Bool
all_below zero test = true
all_below (suc n) test = test n && all_below n test

pub all_below-at :
    (n : ℕ) (test : ℕ → Bool) (i : ℕ) → all_below n test ≡ true → i < n → test i ≡ true
unfolding all_below
all_below-at zero test i h lt = ground (arith, lt)
all_below-at (suc n) test i h lt = elim (eq_or_gt i n (omega (arith, lt))) [
  | inl e ↦ rw e (and_left (test n) (all_below n test) h)
  | inr less ↦ all_below-at n test i (and_right (test n) (all_below n test) h) (omega (arith, less))
]
