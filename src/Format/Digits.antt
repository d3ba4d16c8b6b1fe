-- ===== src/Format/Digits.antt =====
-- kernel/libc_stubs.c, emit_unsigned: the digits of a number, read back.
use crest_rtos.Base.{
  ℕ, zero, suc, ◌+◌, ◌-◌, ◌*◌, ◌/◌, ◌%◌, ◌^◌, ◌≤◌, ◌<◌, Bool, true, false, ltb, ◌==◌, if◌then◌else◌,
  List, [], ◌∷◌, ◌≡◌, refl, subst, sym, ap, ◌∙◌, arith, inl, inr, Bool-cases, ==_iff,
}
use native.Mathlib.Nat.{
  pow-zero, pow-suc, pow-le-pow_left, div-lt_iff_lt-mul, mod-lt, div-add-mod, mul_comm,
}
use crest_rtos.Format.{digit_char, digits_back, backwards, unsigned_text}

-- The value of a digit, 0 to 9, A to Z or a to z.
abbrev pub digit_value : ℕ → ℕ
digit_value c = if ltb c b'A' then c - b'0' else if ltb c b'a' then c - b'A' + 10 else c - b'a' + 10

-- The number that a text of digits stands for, after the digits of `n`.
unfoldable pub number_from : ℕ → ℕ → List ℕ → ℕ
number_from base n [] = n
number_from base n (c ∷ cs) = number_from base (n * base + digit_value c) cs

-- The same, with the last digit first.
unfoldable number_back : ℕ → List ℕ → ℕ
number_back base [] = 0
number_back base (c ∷ cs) = number_back base cs * base + digit_value c

number_from-backwards :
    (base : ℕ) (cs acc : List ℕ)
    → number_from base 0 (backwards cs acc) ≡ number_from base (number_back base cs) acc
unfolding number_from number_back backwards
number_from-backwards base [] acc = refl
number_from-backwards base (c ∷ cs) acc = number_from-backwards base cs (c ∷ acc)

lt_of_lt_le : {a b c : ℕ} → a < b → b ≤ c → a < c
lt_of_lt_le h g = omega (arith, h, g)

digit_value-digit_char : (upper : Bool) (d : ℕ) → d < 36 → digit_value (digit_char upper d) ≡ d
digit_value-digit_char true d h = ground (arith, h)
digit_value-digit_char false d h = ground (arith, h)

step_lem : (base val q d : ℕ) → q ≡ val / base → d ≡ val % base → q * base + d ≡ val
step_lem base val q d hq hd =
    ap (λ x. x * base + d) hq
    ∙ ap (λ x. val / base * base + x) hd
    ∙ omega (arith, div-add-mod val base, mul_comm base (val / base))

fits : (base val : ℕ) → 2 ≤ base → val < 2 ^ 32 → val < base ^ 32
fits base val lo h = lt_of_lt_le h (pow-le-pow_left lo 32)

number_back-digits :
    (room base : ℕ) (upper : Bool) (val : ℕ)
    → 2 ≤ base
    → base ≤ 36
    → val < base ^ room
    → number_back base (digits_back room base upper val) ≡ val
unfolding number_back digits_back
number_back-digits zero base upper val lo hi h = omega (arith, h, pow-zero base)
number_back-digits (suc room) base upper val lo hi h = elim (Bool-cases (val == 0)) [
  | inl z ↦ rw z (sym ((==_iff val 0).0 z))
  | inr z ↦
      let pos : 0 < base = omega (arith, lo) in
      let less : val < base ^ room * base = subst (λ p. val < p) (pow-suc base room) h in
      let rest =
        number_back-digits room base upper (val / base) lo hi ((div-lt_iff_lt-mul pos).1 less) in
      let digit = digit_value-digit_char upper (val % base) (lt_of_lt_le (mod-lt val pos) hi) in
      rw z (
        step_lem base val (number_back base (digits_back room base upper (val / base)))
          (digit_value (digit_char upper (val % base))) rest digit)
]

either_text :
    (base : ℕ) (b : Bool) (x y : List ℕ) (n : ℕ)
    → (b ≡ true → number_from base 0 x ≡ n)
    → (b ≡ false → number_from base 0 y ≡ n)
    → number_from base 0 (if b then x else y) ≡ n
either_text base true x y n p q = p refl
either_text base false x y n p q = q refl

-- Every number of 32 bits, printed by emit_unsigned in a base from 2 to 36 and read back in that
-- base, is the number; its buffer of 32 digits is enough.
pub number_from-unsigned_text :
    (base : ℕ) (upper : Bool) (val : ℕ)
    → 2 ≤ base
    → base ≤ 36
    → val < 2 ^ 32
    → number_from base 0 (unsigned_text val base upper) ≡ val
unfolding unsigned_text number_from
number_from-unsigned_text base upper val lo hi h =
    either_text base (val == 0) _ _ val (λ z. omega (arith, (==_iff val 0).0 z))
      (λ z.
        number_from-backwards base (digits_back 32 base upper val) []
        ∙ number_back-digits 32 base upper val lo hi (fits base val lo h))
