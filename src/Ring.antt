-- ===== src/Ring.antt =====
-- The ring buffers of kernel/queue.c and kernel/kwork.c: a buffer of `n` cells, of which one stays
-- free, read at `head` and written at `tail`, and the items that it holds, the oldest first.
use native.Mathlib.Nat.{mod-eq_of_lt, mod_self}
use crest_rtos.Base.{
  ℕ, zero, suc, ◌+◌, ◌-◌, ◌%◌, ◌^◌, ◌≤◌, ◌<◌, ◌≡◌, ◌≢◌, refl, List, [], ◌∷◌, ◌++◌, false, Option,
  none, some, arith, ◌==◌, ltb, if◌then◌else◌, update, length, length-append, get_elem?, ap, ◌∙◌,
  sym, inl, inr, Bool-cases, ltb→lt, eq_or_gt, ==_refl, ==_of_ne,
}

-- An index that has moved past the end goes on at the start.
abbrev pub wrap : ℕ → ℕ → ℕ
wrap n i = if ltb i n then i else i - n

pub record Holds {ℓ} {A : Type ℓ} (n head tail : ℕ) (buf : ℕ → A) (xs : List A) : Type ℓ where
  pub head_lt : head < n
  pub few : length xs < n
  pub tail_at : tail ≡ wrap n (head + length xs)
  pub item : (j : ℕ) → j < length xs → get_elem? xs j ≡ some (buf (wrap n (head + j)))

add_one : (i : ℕ) → suc i ≡ i + 1
add_one i = omega arith

get_elem?-append {ℓ} :
    {A : Type ℓ} (xs ys : List A) (j : ℕ) → j < length xs → get_elem? (xs ++ ys) j ≡ get_elem? xs j
get_elem?-append [] ys j lt = ground arith
get_elem?-append (x ∷ xs) ys zero lt = refl
get_elem?-append (x ∷ xs) ys (suc j) lt = get_elem?-append xs ys j (omega (arith, lt))

get_elem?-last {ℓ} :
    {A : Type ℓ} (xs : List A) (y : A) → get_elem? (xs ++ (y ∷ [])) (length xs) ≡ some y
get_elem?-last [] y = refl
get_elem?-last (x ∷ xs) y = get_elem?-last xs y

module _ (n head m : ℕ) (few : m < n) (head_lt : head < n) where
  wrap_empty : (head == wrap n (head + m)) ≡ (m == 0)
  wrap_empty = ground arith

  wrap_full : (wrap n (wrap n (head + m) + 1) == head) ≡ (m + 1 == n)
  wrap_full = ground arith

  wrap_next : wrap n (wrap n (head + m) + 1) ≡ wrap n (head + (m + 1))
  wrap_next = ground arith

  wrap_apart : (j : ℕ) → j < m → wrap n (head + j) ≢ wrap n (head + m)
  wrap_apart j lt = ground arith

  wrap_lt : wrap n (head + m) < n
  wrap_lt = ground arith

  room_lt : (m + 1 == n) ≡ false → m + 1 < n
  room_lt e = ground arith

-- `(i + 1) % slots` on uint32_t.
pub wrap_mod : (n i : ℕ) → n < 2 ^ 32 → i < n → (i + 1) % 2 ^ 32 % n ≡ wrap n (i + 1)
wrap_mod n i small lt =
    let word : (i + 1) % 2 ^ 32 ≡ i + 1 = omega arith in
    elim (Bool-cases (ltb (i + 1) n)) [
      | inl e ↦ rw (word, e) (mod-eq_of_lt (ltb→lt (i + 1) n e))
      | inr e ↦
          let full : i + 1 ≡ n = ground arith in rw (word, full) (mod_self n ∙ sym (wrap_self n))
    ]
  where
    wrap_self : (m : ℕ) → wrap m m ≡ 0
    wrap_self m = ground arith

module _ {ℓ} {A : Type ℓ} (n head tail : ℕ) (buf : ℕ → A) (xs : List A)
    (h : Holds n head tail buf xs) where
  -- The test for an empty ring.
  pub empty_iff : (head == tail) ≡ (length xs == 0)
  empty_iff = rw h.tail_at (wrap_empty n head (length xs) h.few h.head_lt)

  -- The test for a full one.
  pub full_iff : (wrap n (tail + 1) == head) ≡ (length xs + 1 == n)
  full_iff = rw h.tail_at (wrap_full n head (length xs) h.few h.head_lt)

  pub tail_lt : tail < n
  tail_lt = rw h.tail_at (wrap_lt n head (length xs) h.few h.head_lt)

  item-push :
      (x : A) (j : ℕ)
      → j < length (xs ++ (x ∷ []))
      → get_elem? (xs ++ (x ∷ [])) j ≡ some (update buf tail x (wrap n (head + j)))
  item-push x j lt = elim (eq_or_gt j (length xs) (omega (arith, lt, length-append xs (x ∷ [])))) [
    | inl e ↦ rw (e, h.tail_at, ==_refl (wrap n (head + length xs))) (get_elem?-last xs x)
    | inr less ↦
        let apart : (wrap n (head + j) == tail) ≡ false =
          ==_of_ne (wrap n (head + j)) tail (
            rw h.tail_at (wrap_apart n head (length xs) h.few h.head_lt j (omega (arith, less)))) in
        rw apart
          (get_elem?-append xs (x ∷ []) j (omega (arith, less)) ∙ h.item j (omega (arith, less)))
  ]

  -- An item written at the tail of a ring with room is the last one.
  pub Holds-push :
      (x : A)
      → (length xs + 1 == n) ≡ false
      → Holds n head (wrap n (tail + 1)) (update buf tail x) (xs ++ (x ∷ []))
  Holds-push x room =
      let more : length (xs ++ (x ∷ [])) ≡ length xs + 1 = length-append xs (x ∷ []) in
      record {
        head_lt = h.head_lt;
        few = rw more (room_lt n head (length xs) h.few h.head_lt room);
        tail_at = rw (more, h.tail_at) (wrap_next n head (length xs) h.few h.head_lt);
        item = item-push x;
      }

module _ (n head m : ℕ) (few : m + 1 < n) (head_lt : head < n) where
  wrap_step : (j : ℕ) → j ≤ m → wrap n (wrap n (head + 1) + j) ≡ wrap n (head + (j + 1))
  wrap_step j le = ground arith

  wrap_one : wrap n (head + 1) < n
  wrap_one = ground arith

wrap_here : (n head : ℕ) → head < n → wrap n (head + 0) ≡ head
wrap_here n head lt = ground arith

or_default {ℓ} : {A : Type ℓ} → A → Option A → A
or_default d none = d
or_default d (some a) = a

some_inj {ℓ} : {A : Type ℓ} {a b : A} → some a ≡ some b → a ≡ b
unfolding or_default
some_inj {a = a} e = ap (or_default a) e

module _ {ℓ} {A : Type ℓ} (n head tail : ℕ) (buf : ℕ → A) (x : A) (xs : List A)
    (h : Holds n head tail buf (x ∷ xs)) where
  -- The oldest item stands at the head.
  pub item-head : buf head ≡ x
  item-head =
      sym (some_inj (h.item 0 (omega arith) ∙ ap (λ i. some (buf i)) (wrap_here n head h.head_lt)))

  -- Without it, the ring holds the others.
  pub Holds-pop : Holds n (wrap n (head + 1)) tail buf xs
  Holds-pop =
      let few : length xs + 1 < n = omega (arith, h.few) in
      record {
        head_lt = wrap_one n head (length xs) few h.head_lt;
        few = omega (arith, few);
        tail_at =
            h.tail_at
            ∙ ap (λ i. wrap n (head + i)) (add_one (length xs))
            ∙ sym (wrap_step n head (length xs) few h.head_lt (length xs) (omega arith));
        item = λ j lt.
            h.item (suc j) (omega (arith, lt))
            ∙ ap (λ i. some (buf (wrap n (head + i)))) (add_one j)
            ∙ ap (λ i. some (buf i))
                (sym (wrap_step n head (length xs) few h.head_lt j (omega (arith, lt))));
      }
