-- ===== src/Mpu/Regions.antt =====
-- The regions that port_mpu_configure_for_task programs, read back by the fields of RBAR and RASR.
use native.Mathlib.Nat.{
  lt-div-mul-add, div-mul-le_self, mul-mod_left, div-eq_of_lt-le, mul-div_cancel, pow-suc,
}
use crest_rtos.Base.{
  ℕ, zero, suc, ◌+◌, ◌-◌, ◌*◌, ◌/◌, ◌%◌, ◌^◌, ◌<◌, ◌≤◌, ◌≡◌, refl, sym, ◌∙◌, subst, arith, Bool,
  true, ◌&&◌, ltb, leb, ◌==◌, some, Bool-cases, inl, inr, ==_refl, ==_iff,
}
use crest_rtos.Mpu.{Region, Access, no_access, user_none, user_read, user_write, ap_code, rasr_of}
use crest_rtos.Mpu.Hardware.{width, covers, is_valid, rights_by, rights_of}

-- `a` is one of the `n` bytes from `lo` on.
abbrev pub in_range : ℕ → ℕ → ℕ → Bool
in_range lo n a = leb lo a && ltb a (lo + n)

div_of : (q P a : ℕ) → q * P ≤ a → a < q * P + P → a / P ≡ q
div_of q P a le lt = div-eq_of_lt-le P le (omega (arith, lt))

is_in_range : (lo n a : ℕ) → lo ≤ a → a < lo + n → in_range lo n a ≡ true
is_in_range lo n a le lt = ground arith

in_range-bounds : (lo n a : ℕ) → in_range lo n a ≡ true → (lo ≤ a) × (a < lo + n)
in_range-bounds lo n a h = ground arith

same_block : (q P a : ℕ) → 0 < P → (a / P == q) ≡ in_range (q * P) P a
same_block q P a pos = elim (Bool-cases (in_range (q * P) P a)) [
  | inl e ↦
      let (le, lt) = in_range-bounds (q * P) P a e in rw (div_of q P a le lt, ==_refl q, e) refl
  | inr e ↦ elim (Bool-cases (a / P == q)) [
    | inl same ↦
        let block : in_range (a / P * P) P a ≡ true =
          is_in_range (a / P * P) P a (div-mul-le_self a P) (lt-div-mul-add pos) in
        cc (subst (λ q. in_range (q * P) P a ≡ true) ((==_iff (a / P) q).0 same) block)
    | inr other ↦ other ∙ sym e
  ]
]

pub pow_pos : (k : ℕ) → 0 < 2 ^ k
pow_pos zero = omega arith
pow_pos (suc k) = omega (arith, pow-suc 2 k, pow_pos k)

-- The fields of a region's RASR.
width_of : (s x : ℕ) (p : Access) → s < 32 → rasr_of s p x / 2 % 32 ≡ s
width_of s x no_access lt = omega (arith, lt)
width_of s x user_none lt = omega (arith, lt)
width_of s x user_read lt = omega (arith, lt)
width_of s x user_write lt = omega (arith, lt)

access_of : (s x : ℕ) (p : Access) → s < 32 → x < 2 → rasr_of s p x / 2 ^ 24 % 8 ≡ ap_code p
access_of s x no_access lt xn = omega (arith, lt, xn)
access_of s x user_none lt xn = omega (arith, lt, xn)
access_of s x user_read lt xn = omega (arith, lt, xn)
access_of s x user_write lt xn = omega (arith, lt, xn)

never_execute : (s x : ℕ) (p : Access) → s < 32 → x < 2 → rasr_of s p x / 2 ^ 28 % 2 ≡ x
never_execute s x no_access lt xn = omega (arith, lt, xn)
never_execute s x user_none lt xn = omega (arith, lt, xn)
never_execute s x user_read lt xn = omega (arith, lt, xn)
never_execute s x user_write lt xn = omega (arith, lt, xn)

enabled : (s x : ℕ) (p : Access) → rasr_of s p x % 2 ≡ 1
enabled s x no_access = omega arith
enabled s x user_none = omega arith
enabled s x user_read = omega arith
enabled s x user_write = omega arith

-- The `2 ^ k` bytes from the multiple `q * 2 ^ k` on.
abbrev pub block : ℕ → ℕ → ℕ → Access → ℕ → Region
block number q k p x = record { number = number; rbar = q * 2 ^ k; rasr = rasr_of (k - 1) p x }

module _ (number q k x : ℕ) (p : Access) (some_bytes : 0 < k) (k_le : k ≤ 32) where
  block-width : width (block number q k p x) ≡ k
  block-width =
      rw (width_of (k - 1) x p (omega (arith, some_bytes, k_le))) (omega (arith, some_bytes))

  pub covers-block : (a : ℕ) → covers (block number q k p x) a ≡ in_range (q * 2 ^ k) (2 ^ k) a
  covers-block a =
      rw (enabled (k - 1) x p, block-width, mul-div_cancel q (pow_pos k))
        (same_block q (2 ^ k) a (pow_pos k))

  pub is_valid-block : 5 ≤ k → number < 8 → is_valid (block number q k p x) ≡ true
  is_valid-block large few = rw (block-width, mul-mod_left q (2 ^ k)) (ground (arith, large, few))

-- What a programmed region grants.
pub rights_of-block :
    (number q s x : ℕ) (p : Access)
    → s < 32
    → x < 2
    → rights_of (some (record { number = number; rbar = q; rasr = rasr_of s p x }))
      ≡ rights_by (ap_code p) x
rights_of-block number q s x p s_lt x_lt =
    rw (access_of s x p s_lt x_lt, never_execute s x p s_lt x_lt) refl
