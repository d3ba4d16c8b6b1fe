-- ===== src/Demo/Texts.antt =====
-- Texts in buffers: what a copy keeps, and what is read up to the NUL.
use crest_rtos.Base.{
  ℕ, zero, suc, ◌-◌, ◌<◌, ◌≤◌, ◌≡◌, refl, ap, ◌∙◌, subst, arith, Bool, true, false, List, [], ◌∷◌,
  ◌++◌, length, has, ◌==◌, if◌then◌else◌,
}
use crest_rtos.Format.Spec.{take}
use crest_rtos.Console.{until_nul}
use crest_rtos.Task.{overlay}

abbrev pub drop : ℕ → List ℕ → List ℕ
drop zero xs = xs
drop (suc n) [] = []
drop (suc n) (x ∷ xs) = drop n xs

pub take_zero : (xs : List ℕ) → take 0 xs ≡ []
take_zero [] = refl
take_zero (x ∷ xs) = refl

pub overlay-append :
    (ws bytes : List ℕ) → length ws ≤ length bytes → overlay ws bytes ≡ ws ++ drop (length ws) bytes
overlay-append [] bytes le = refl
overlay-append (w ∷ ws) [] le = absurd (omega arith)
overlay-append (w ∷ ws) (b ∷ bytes) le =
    ap (λ xs. w ∷ xs) (overlay-append ws bytes (omega (arith, le)))

pub take-append_short :
    (n : ℕ) (xs ys : List ℕ) → length xs ≤ n → take n (xs ++ ys) ≡ xs ++ take (n - length xs) ys
take-append_short n [] ys le = ap (λ m. take m ys) (omega arith)
take-append_short zero (x ∷ xs) ys le = absurd (omega arith)
take-append_short (suc n) (x ∷ xs) ys le =
    ap (λ zs. x ∷ zs)
      (take-append_short n xs ys (omega (arith, le)) ∙ ap (λ m. xs ++ take m ys) (omega arith))

pub take-append_long : (n : ℕ) (xs ys : List ℕ) → n ≤ length xs → take n (xs ++ ys) ≡ take n xs
take-append_long n [] ys le = subst (λ m. take m ys ≡ []) (omega (arith, le)) (take_zero ys)
take-append_long zero (x ∷ xs) ys le = refl
take-append_long (suc n) (x ∷ xs) ys le =
    ap (λ zs. x ∷ zs) (take-append_long n xs ys (omega (arith, le)))

pub length-take : (n : ℕ) (xs : List ℕ) → n ≤ length xs → length (take n xs) ≡ n
length-take zero [] le = refl
length-take zero (x ∷ xs) le = refl
length-take (suc n) [] le = absurd (omega arith)
length-take (suc n) (x ∷ xs) le = ap suc (length-take n xs (omega (arith, le)))

-- A text without NULs in front of other bytes.
pub until_nul-append :
    (xs ys : List ℕ) → has 0 xs ≡ false → until_nul (xs ++ ys) ≡ xs ++ until_nul ys
until_nul-append [] ys h = refl
until_nul-append (x ∷ xs) ys h =
    let other : (x == 0) ≡ false = ground (arith, h) in
    let rest : has 0 xs ≡ false = ground (arith, h) in
    rw other (ap (λ zs. x ∷ zs) (until_nul-append xs ys rest))

pub has-take : (n : ℕ) (xs : List ℕ) → has 0 xs ≡ false → has 0 (take n xs) ≡ false
has-take n [] h = refl
has-take zero (x ∷ xs) h = refl
has-take (suc n) (x ∷ xs) h = ground (arith, has-take n xs)

pub take_all : (n : ℕ) (xs : List ℕ) → length xs ≤ n → take n xs ≡ xs
take_all n [] le = refl
take_all zero (x ∷ xs) le = absurd (omega arith)
take_all (suc n) (x ∷ xs) le = ap (λ ys. x ∷ ys) (take_all n xs (omega (arith, le)))

pub room_left : (n : ℕ) → n < 8 → 8 - n ≡ suc (7 - n)
room_left n lt = omega (arith, lt)

pub length-take_le : (n : ℕ) (xs : List ℕ) → length (take n xs) ≤ n
length-take_le n [] = omega arith
length-take_le zero (x ∷ xs) = omega arith
length-take_le (suc n) (x ∷ xs) = omega (arith, length-take_le n xs)

pub if_false : (b : Bool) (xs ys : List ℕ) → b ≡ false → (if b then xs else ys) ≡ ys
if_false true xs ys e = cc
if_false false xs ys e = refl

pub if_true : (b : Bool) (xs ys : List ℕ) → b ≡ true → (if b then xs else ys) ≡ xs
if_true true xs ys e = refl
if_true false xs ys e = cc
