-- ===== src/Sched/Bits.antt =====
-- kernel/sched.c, the bits of g_priority_mask: what `|=`, `&=` and __builtin_ctz do to a byte.
use Prim.Native.Nat.{bit_and, bit_or}
use crest_rtos.Base.{
  ℕ, ◌-◌, ◌/◌, ◌%◌, ◌^◌, ◌<◌, ◌≡◌, refl, sym, subst, Bool, true, false, not, ◌&&◌, ◌||◌, ◌==◌, ltb,
  and_left, and_right, all_below, all_below-at, arith, ltb→lt,
}
use crest_rtos.Sched.{ctz_from}

-- Bit `i` of a mask.
abbrev pub bit_at : ℕ → ℕ → Bool
bit_at m i = m / 2 ^ i % 2 == 1

abbrev same : Bool → Bool → Bool
same true b = b
same false b = not b

same_eq : (a b : Bool) → same a b ≡ true → a ≡ b
same_eq true true h = refl
same_eq true false h = cc
same_eq false true h = cc
same_eq false false h = refl

-- `mask |= 1 << p` and `mask &= ~(1 << p)` on a byte.
abbrev set_ok : ℕ → ℕ → ℕ → Bool
set_ok m p i =
    same (bit_at (bit_or m (2 ^ p)) i) ((i == p) || bit_at m i) && ltb (bit_or m (2 ^ p)) 256

abbrev clear_ok : ℕ → ℕ → ℕ → Bool
clear_ok m p i =
    same (bit_at (bit_and m (255 - 2 ^ p)) i) (not (i == p) && bit_at m i)
    && ltb (bit_and m (255 - 2 ^ p)) 256

-- `__builtin_ctz`: the lowest bit that is set.
abbrev lowest_ok : ℕ → ℕ → Bool
lowest_ok m i =
    let c = ctz_from 8 0 m in
    (m == 0) || (ltb c 8 && (bit_at m c && (not (ltb i c) || not (bit_at m i))))

byte_table :
    all_below 8 (λ p. all_below 8 (λ i. all_below 256 (λ m. set_ok m p i && clear_ok m p i))) ≡ true
unfolding all_below
byte_table = refl

lowest_table : all_below 8 (λ i. all_below 256 (λ m. lowest_ok m i)) ≡ true
unfolding all_below ctz_from
lowest_table = refl

module _ (m p i : ℕ) (m_lt : m < 256) (p_lt : p < 8) (i_lt : i < 8) where
  entry : (set_ok m p i && clear_ok m p i) ≡ true
  entry =
      let test : ℕ → ℕ → ℕ → Bool = λ p i m. set_ok m p i && clear_ok m p i in
      let of_p =
        all_below-at 8 (λ p. all_below 8 (λ i. all_below 256 (test p i))) p byte_table p_lt in
      let of_i = all_below-at 8 (λ i. all_below 256 (test p i)) i of_p i_lt in
      all_below-at 256 (test p i) m of_i m_lt

  pub bit_at-set :
      (bit_at (bit_or m (2 ^ p)) i ≡ ((i == p) || bit_at m i)) × (bit_or m (2 ^ p) < 256)
  bit_at-set =
      let set_part = and_left _ _ entry in
      (same_eq _ _ (and_left _ _ set_part), ltb→lt _ _ (and_right _ _ set_part))

  pub bit_at-clear :
      (bit_at (bit_and m (255 - 2 ^ p)) i ≡ (not (i == p) && bit_at m i))
      × (bit_and m (255 - 2 ^ p) < 256)
  bit_at-clear =
      let clear_part = and_right _ _ entry in
      (same_eq _ _ (and_left _ _ clear_part), ltb→lt _ _ (and_right _ _ clear_part))

lt→ltb : (a b : ℕ) → a < b → ltb a b ≡ true
lt→ltb a b h = ground arith

below_or : (a b : Bool) → a ≡ true → (not a || not b) ≡ true → b ≡ false
below_or true true h g = sym g
below_or true false h g = refl
below_or false b h g = cc

module _ (m : ℕ) (m_lt : m < 256) (some_bit : (m == 0) ≡ false) where
  lowest :
      (i : ℕ)
      → i < 8
      → (ltb (ctz_from 8 0 m) 8
          && (bit_at m (ctz_from 8 0 m) && (not (ltb i (ctz_from 8 0 m)) || not (bit_at m i))))
        ≡ true
  lowest i i_lt =
      subst
        (λ b.
          (b
            || (ltb (ctz_from 8 0 m) 8
                && (bit_at m (ctz_from 8 0 m)
                    && (not (ltb i (ctz_from 8 0 m)) || not (bit_at m i)))))
          ≡ true)
        some_bit
        (all_below-at 256 (λ m. lowest_ok m i) m
          (all_below-at 8 (λ i. all_below 256 (λ m. lowest_ok m i)) i lowest_table i_lt) m_lt)

  pub ctz-lt : ctz_from 8 0 m < 8
  ctz-lt = ltb→lt _ _ (and_left _ _ (lowest 0 (omega arith)))

  pub bit_at-ctz : bit_at m (ctz_from 8 0 m) ≡ true
  bit_at-ctz = and_left _ _ (and_right _ _ (lowest 0 (omega arith)))

  pub ctz_lowest : (i : ℕ) → i < ctz_from 8 0 m → bit_at m i ≡ false
  ctz_lowest i lt =
      below_or (ltb i (ctz_from 8 0 m)) (bit_at m i) (lt→ltb i (ctz_from 8 0 m) lt)
        (and_right _ _ (and_right _ _ (lowest i (omega (arith, lt, ctz-lt)))))
