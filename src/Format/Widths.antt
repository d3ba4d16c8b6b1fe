-- ===== src/Format/Widths.antt =====
-- kernel/libc_stubs.c, vsnprintf: how long a text of a format can be.
use crest_rtos.Base.{
  ℕ, zero, suc, ◌+◌, ◌-◌, ◌*◌, ◌/◌, ◌^◌, ◌≤◌, ◌<◌, Bool, true, false, ltb, ◌==◌, Option, some,
  length, length-append, if◌then◌else◌, List, [], ◌∷◌, ◌++◌, ◌>>=◌, ◌≡◌, refl, subst, ap, arith,
  inl, inr, Bool-cases,
}
use native.Mathlib.Nat.{pow-zero, pow-suc, div-lt_iff_lt-mul}
use crest_rtos.Format.{digits_back, backwards, unsigned_text}
use crest_rtos.Format.Spec.{
  Directive, literal, argument, unknown, Conversion, string, character, signed, unsigned, lower,
  upper, pointer, conversion_text, directive_text, directives_text,
}

pub length-backwards : (cs acc : List ℕ) → length (backwards cs acc) ≡ length cs + length acc
unfolding backwards
length-backwards [] acc = omega arith
length-backwards (c ∷ cs) acc = omega (arith, length-backwards cs (c ∷ acc))

-- A number below base ^ n has at most n digits.
length-digits_back :
    (room n base : ℕ) (up : Bool) (v : ℕ)
    → 2 ≤ base
    → v < base ^ n
    → length (digits_back room base up v) ≤ n
unfolding digits_back
length-digits_back zero n base up v lo h = omega arith
length-digits_back (suc room) zero base up v lo h =
    let small : v < 1 = subst (λ p. v < p) (pow-zero base) h in
    let none_left : (v == 0) ≡ true = ground (arith, small) in rw none_left (omega arith)
length-digits_back (suc room) (suc n) base up v lo h = elim (Bool-cases (v == 0)) [
  | inl z ↦ rw z (omega arith)
  | inr z ↦
      let pos : 0 < base = omega (arith, lo) in
      let less : v < base ^ n * base = subst (λ p. v < p) (pow-suc base n) h in
      rw z (
        omega
          (arith, length-digits_back room n base up (v / base) lo ((div-lt_iff_lt-mul pos).1 less)))
]

one_or :
    (n : ℕ) (b : Bool) (xs : List ℕ)
    → 1 ≤ n
    → length xs ≤ n
    → length (if b then b'0' ∷ [] else xs) ≤ n
one_or n true xs one h = one
one_or n false xs one h = h

pub length-unsigned_text :
    (n base : ℕ) (up : Bool) (v : ℕ)
    → 2 ≤ base
    → 1 ≤ n
    → v < base ^ n
    → length (unsigned_text v base up) ≤ n
unfolding unsigned_text
length-unsigned_text n base up v lo one h = one_or n (v == 0) _ one (
    omega (
      arith,
      length-backwards (digits_back 32 base up v) [],
      length-digits_back 32 n base up v lo h,
    ))

-- The most characters of an argument of 32 bits, where strings have at most 15.
abbrev pub width : Conversion → ℕ
width string = 15
width character = 1
width signed = 11
width unsigned = 10
width lower = 8
width upper = 8
width pointer = 10

either_length :
    (n : ℕ) (b : Bool) (xs ys : List ℕ)
    → length xs ≤ n
    → length ys ≤ n
    → length (if b then xs else ys) ≤ n
either_length n true xs ys p q = p
either_length n false xs ys p q = q

module _ (text_at : ℕ → List ℕ) (short : (p : ℕ) → length (text_at p) ≤ 15) where
  length-conversion_text :
      (f : Conversion) (v : ℕ) → v < 2 ^ 32 → length (conversion_text text_at f v) ≤ width f
  length-conversion_text string v h = either_length 15 (v == 0) _ _ (omega arith) (short v)
  length-conversion_text character v h = omega arith
  length-conversion_text signed v h =
      either_length 11 (ltb v (2 ^ 31)) _ _
        (omega (
          arith,
          length-unsigned_text 10 10 false v (omega arith) (omega arith) (omega (arith, h)),
        ))
        (omega (
          arith,
          length-unsigned_text 10 10 false (2 ^ 32 - v) (omega arith) (omega arith) (omega arith),
        ))
  length-conversion_text unsigned v h =
      length-unsigned_text 10 10 false v (omega arith) (omega arith) (omega (arith, h))
  length-conversion_text lower v h =
      length-unsigned_text 8 16 false v (omega arith) (omega arith) (omega (arith, h))
  length-conversion_text upper v h =
      length-unsigned_text 8 16 true v (omega arith) (omega arith) (omega (arith, h))
  length-conversion_text pointer v h =
      omega
        (arith, length-unsigned_text 8 16 false v (omega arith) (omega arith) (omega (arith, h)))

-- The most characters of some directives.
abbrev pub widths : List Directive → ℕ
widths [] = 0
widths (literal c ∷ ds) = 1 + widths ds
widths (argument f ∷ ds) = width f + widths ds
widths (unknown c ∷ ds) = 2 + widths ds

-- Each conversion has an argument, of 32 bits.
abbrev pub Supplied : List Directive → List ℕ → Type 0
Supplied [] args = Unit
Supplied (literal c ∷ ds) args = Supplied ds args
Supplied (unknown c ∷ ds) args = Supplied ds args
Supplied (argument f ∷ ds) [] = ⊥
Supplied (argument f ∷ ds) (v ∷ vs) = (v < 2 ^ 32) × Supplied ds vs

-- A text within a bound, with the arguments left.
abbrev Within : ℕ → Option (List ℕ × List ℕ) → Type 0
Within n o = (t : List ℕ) × (left : List ℕ) × (o ≡ some (t, left)) × (length t ≤ n)

add_text :
    (n m : ℕ) (t : List ℕ) (o : Option (List ℕ × List ℕ))
    → length t ≤ n
    → Within m o
    → Within (n + m) (do (ts, left) ← o; some (t ++ ts, left))
add_text n m t o h (ts, left, e, h') = (
  t ++ ts,
  left,
  ap (λ o. do (ts, left) ← o; some (t ++ ts, left)) e,
  omega (arith, h, h', length-append t ts),
)

module _ (text_at : ℕ → List ℕ) (short : (p : ℕ) → length (text_at p) ≤ 15) where
  -- Directives with their arguments have a text, which is no longer than their widths allow.
  pub directives_text-Within :
      (ds : List Directive) (args : List ℕ)
      → Supplied ds args
      → (t : List ℕ) × (left : List ℕ) × (directives_text text_at ds args ≡ some (t, left))
        × (length t ≤ widths ds)
  unfolding directives_text directive_text
  directives_text-Within [] args s = ([], args, refl, omega arith)
  directives_text-Within (literal c ∷ ds) args s =
      add_text 1 (widths ds) (c ∷ []) (directives_text text_at ds args) (omega arith)
        (directives_text-Within ds args s)
  directives_text-Within (unknown c ∷ ds) args s =
      add_text 2 (widths ds) (b'%' ∷ c ∷ []) (directives_text text_at ds args) (omega arith)
        (directives_text-Within ds args s)
  directives_text-Within (argument f ∷ ds) (v ∷ vs) (lt, s) =
      add_text (width f) (widths ds) (conversion_text text_at f v) (directives_text text_at ds vs)
        (length-conversion_text text_at short f v lt) (directives_text-Within ds vs s)
  directives_text-Within (argument f ∷ ds) [] s = absurd s
