-- ===== src/Task/Names.antt =====
-- kernel/task.c with strncpy of kernel/libc_stubs.c: the name that a task keeps.
use crest_rtos.Kernel.{task_name_max_len}
use crest_rtos.Task.{stored_name, overlay}
use crest_rtos.Base.{
  ◌∙◌, inl, some, ◌⊎◌, set, ap, get_elem?, ℕ, zero, suc, ◌+◌, ◌<◌, ◌≤◌, ◌≡◌, refl, arith, List, [],
  ◌∷◌, length,
}
use crest_rtos.Libc.{strncpy, replicate}

length-replicate : (n a : ℕ) → length (replicate n a) ≡ n
length-replicate zero a = refl
length-replicate (suc n) a = omega (arith, length-replicate n a)

length-strncpy_cut : (src : List ℕ) (n : ℕ) → n ≤ length src → length (strncpy src n) ≡ n
unfolding strncpy
length-strncpy_cut src zero le = refl
length-strncpy_cut [] (suc n) le = ground (arith, le)
length-strncpy_cut (c ∷ cs) (suc n) le = omega (arith, length-strncpy_cut cs n (omega (arith, le)))

length-strncpy_pad : (src : List ℕ) (n : ℕ) → length src < n → length (strncpy src n) ≡ n + 1
unfolding strncpy
length-strncpy_pad src zero lt = ground (arith, lt)
length-strncpy_pad [] (suc n) lt = omega (arith, length-replicate n 0)
length-strncpy_pad (c ∷ cs) (suc n) lt = omega (arith, length-strncpy_pad cs n (omega (arith, lt)))

-- strncpy writes `n` bytes of a text of `n` characters or more, and `n + 1` bytes, one past the
-- buffer's end, for a shorter text.
pub length-strncpy :
    (src : List ℕ) (n : ℕ)
    → (n ≤ length src → length (strncpy src n) ≡ n)
      × (length src < n → length (strncpy src n) ≡ n + 1)
length-strncpy src n = (length-strncpy_cut src n, length-strncpy_pad src n)

-- The first `n` characters, and a NUL for each that is missing and behind the last.
cut : List ℕ → ℕ → List ℕ
cut src zero = 0 ∷ []
cut [] (suc n) = 0 ∷ cut [] n
cut (c ∷ cs) (suc n) = c ∷ cut cs n

overlay-replicate : (n : ℕ) → overlay (replicate n 0) (replicate n 0) ≡ replicate n 0
overlay-replicate zero = refl
overlay-replicate (suc n) = ap (λ r. 0 ∷ r) (overlay-replicate n)

cut_nil : (n : ℕ) → replicate (suc n) 0 ≡ cut [] n
unfolding cut
cut_nil zero = refl
cut_nil (suc n) = ap (λ r. 0 ∷ r) (cut_nil n)

overlay-strncpy : (src : List ℕ) (n : ℕ) → overlay (strncpy src n) (replicate (suc n) 0) ≡ cut src n
unfolding strncpy cut
overlay-strncpy src zero = refl
overlay-strncpy [] (suc n) = ap (λ r. 0 ∷ r) (overlay-replicate (suc n) ∙ cut_nil n)
overlay-strncpy (c ∷ cs) (suc n) = ap (λ r. c ∷ r) (overlay-strncpy cs n)

set-cut : (src : List ℕ) (n : ℕ) → set (cut src n) n 0 ≡ cut src n
unfolding cut
set-cut src zero = refl
set-cut [] (suc n) = ap (λ r. 0 ∷ r) (set-cut [] n)
set-cut (c ∷ cs) (suc n) = ap (λ r. c ∷ r) (set-cut cs n)

stored_name-cut : (src : List ℕ) → stored_name (some src) ≡ cut src 15
unfolding stored_name
stored_name-cut src = ap (λ r. set r 15 0) (overlay-strncpy src 15) ∙ set-cut src 15

length-cut : (src : List ℕ) (n : ℕ) → length (cut src n) ≡ n + 1
unfolding cut
length-cut src zero = refl
length-cut [] (suc n) = omega (arith, length-cut [] n)
length-cut (c ∷ cs) (suc n) = omega (arith, length-cut cs n)

cut-text :
    (src : List ℕ) (n i : ℕ) → i < n → i < length src → get_elem? (cut src n) i ≡ get_elem? src i
unfolding cut
cut-text src zero i lt less = ground (arith, lt)
cut-text [] (suc n) i lt less = ground (arith, less)
cut-text (c ∷ cs) (suc n) zero lt less = refl
cut-text (c ∷ cs) (suc n) (suc i) lt less =
    cut-text cs n i (omega (arith, lt)) (omega (arith, less))

cut-end :
    (src : List ℕ) (n i : ℕ) → i ≤ n → (length src ≤ i) ⊎ (i ≡ n) → get_elem? (cut src n) i ≡ some 0
unfolding cut
cut-end src zero zero le out = refl
cut-end src zero (suc i) le out = ground (arith, le)
cut-end [] (suc n) zero le out = refl
cut-end [] (suc n) (suc i) le out = cut-end [] n i (omega (arith, le)) (inl (omega arith))
cut-end (c ∷ cs) (suc n) zero le out = ground (arith, out)
cut-end (c ∷ cs) (suc n) (suc i) le out = cut-end cs n i (omega (arith, le)) (ground (arith, out))

-- A C string of at most 15 characters in 16 bytes: the text as far as it fits, then NULs only.
pub record IsName (text bytes : List ℕ) : Type 0 where
  pub size : length bytes ≡ task_name_max_len
  pub kept : (i : ℕ) → i < 15 → i < length text → get_elem? bytes i ≡ get_elem? text i
  pub ended : (i : ℕ) → i ≤ 15 → (length text ≤ i) ⊎ (i ≡ 15) → get_elem? bytes i ≡ some 0

-- The name that task_create stores fills the field of 16 bytes exactly, keeps the first 15
-- characters of the text and ends with a NUL.
pub stored_name-IsName : (src : List ℕ) → IsName src (stored_name (some src))
stored_name-IsName src = rw (stored_name-cut src) (record {
  size = length-cut src 15;
  kept = λ i lt less. cut-text src 15 i lt less;
  ended = λ i le out. cut-end src 15 i le out;
})
