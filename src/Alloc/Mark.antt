-- ===== src/Alloc/Mark.antt =====
-- kernel/alloc.c, free: the search for the place of a block in the free list, and its insertion.
use crest_rtos.Base.{
  ℕ, zero, suc, ◌+◌, ◌≤◌, ◌<◌, ◌≡◌, ◌≢◌, refl, arith, List, [], ◌∷◌, true, false, Option, some,
  ◌==◌, ltb, if◌then◌else◌, sym, ◌∙◌, inl, inr, Bool-cases, ==_iff, subst,
}
use crest_rtos.Alloc.{Heap, find_place}
use crest_rtos.Alloc.Tiles.{
  Tile, taken, vacant, IsSize, Laid, Laid-frame, Laid-ahead, block_at, block_ahead, vacancies,
}

-- The taken block at `a` has become vacant.
abbrev pub freed : ℕ → ℕ → List Tile → List Tile
freed here a [] = []
freed here a (taken n ∷ ts) = if here == a then vacant n ∷ ts else taken n ∷ freed (here + n) a ts
freed here a (vacant n ∷ ts) = vacant n ∷ freed (here + n) a ts

-- The last vacant block before `a`, or `prev` if there is none.
abbrev pub prev_of : ℕ → ℕ → ℕ → List Tile → ℕ
prev_of prev here a [] = prev
prev_of prev here a (taken n ∷ ts) = if here == a then prev else prev_of prev (here + n) a ts
prev_of prev here a (vacant n ∷ ts) = prev_of here (here + n) a ts

-- The block of `n` bytes at `a` stands in the free list between `prev` and `curr`.
pub record IsInserted (h h' : Heap) (a n prev curr : ℕ) : Type 0 where
  pub sizes : (b : ℕ) → h'.size b ≡ (if b == a then n else h.size b)
  pub nexts :
      (b : ℕ) → 0 < b → h'.next b ≡ (if b == prev then a else if b == a then curr else h.next b)
  pub limit : h'.limit ≡ h.limit

pub prev_of-ge : (prev here a : ℕ) (ts : List Tile) → prev ≤ here → prev ≤ prev_of prev here a ts
prev_of-ge prev here a [] le = omega arith
prev_of-ge prev here a (taken n ∷ ts) le = ground (arith, prev_of-ge prev (here + n) a ts)
prev_of-ge prev here a (vacant n ∷ ts) le =
    omega (arith, prev_of-ge here (here + n) a ts (omega arith))

find-stop :
    (fuel : ℕ) (h : Heap) (a prev curr : ℕ)
    → (curr ≢ 0 → a < curr)
    → find_place (suc fuel) h a prev curr ≡ some (prev, curr)
unfolding find_place
find-stop fuel h a prev curr far = elim (Bool-cases (curr == 0)) [
  | inl z ↦ rw z refl
  | inr nz ↦ let behind : ltb curr a ≡ false = ground (arith, nz, far) in rw (nz, behind) refl
]

find-step :
    (fuel : ℕ) (h : Heap) (a prev here : ℕ)
    → 0 < here
    → here < a
    → find_place (suc fuel) h a prev here ≡ find_place fuel h a here (h.next here)
unfolding find_place
find-step fuel h a prev here pos lt = ground arith

-- What the search finds, and the blocks after an insertion there.
pub record Found (fuel : ℕ) (h : Heap) (a n prev curr here : ℕ) (ts : List Tile) : Type 0 where
  pub behind : ℕ
  pub find : find_place fuel h a prev curr ≡ some (prev_of prev here a ts, behind)
  pub laid :
      (h' : Heap)
      → IsInserted h h' a n (prev_of prev here a ts) behind
      → Laid h' here (if prev_of prev here a ts == prev then a else curr) (freed here a ts)

Found-here :
    (fuel : ℕ) (h : Heap) (n prev curr here : ℕ) (ts : List Tile)
    → prev < here
    → IsSize n
    → Laid h (here + n) curr ts
    → Found (suc fuel) h here n prev curr here (taken n ∷ ts)
Found-here fuel h n prev curr here ts before size l =
    let self : (here == here) ≡ true = ground arith in
    let same : (prev == prev) ≡ true = ground arith in
    record {
      behind = curr;
      find = rw self (
          find-stop fuel h here prev curr
            (λ nz. omega (arith, Laid-ahead h (here + n) curr ts l nz, size)));
      laid = λ h' i.
          let j : IsInserted h h' here n prev curr =
            subst
              (λ b.
                IsInserted h h' here n (if b then prev else prev_of prev (here + n) here ts) curr)
              self i in
          rw (self, same)
            (
              j.sizes here ∙ ground arith,
              size,
              refl,
              subst (λ q. Laid h' (here + n) q ts) (sym (j.nexts here (omega arith) ∙ ground arith))
                  (Laid-frame h h' (here + n) curr ts j.limit (λ b ge. j.sizes b ∙ ground arith)
                    (λ b ge. j.nexts b (omega arith) ∙ ground arith) l),
            );
    }

Found-taken :
    (fuel : ℕ) (h : Heap) (a n prev curr here m : ℕ) (ts : List Tile)
    → (here == a) ≡ false
    → h.size here ≡ m + 1
    → IsSize m
    → Found fuel h a n prev curr (here + m) ts
    → Found fuel h a n prev curr here (taken m ∷ ts)
Found-taken fuel h a n prev curr here m ts ne e size f = record {
  behind = f.behind;
  find = rw ne f.find;
  laid = λ h' i.
      let j : IsInserted h h' a n (prev_of prev (here + m) a ts) f.behind =
        subst (λ b. IsInserted h h' a n (if b then prev else prev_of prev (here + m) a ts) f.behind)
          ne i in
      rw ne (j.sizes here ∙ rw ne e, size, f.laid h' j);
}

Found-vacant :
    (fuel : ℕ) (h : Heap) (a n prev here m : ℕ) (ts : List Tile)
    → prev < here
    → here < a
    → h.size here ≡ m
    → IsSize m
    → Found fuel h a n here (h.next here) (here + m) ts
    → Found (suc fuel) h a n prev here here (vacant m ∷ ts)
Found-vacant fuel h a n prev here m ts before lt e size f =
    let after : here ≤ prev_of here (here + m) a ts =
      prev_of-ge here (here + m) a ts (omega arith) in
    let moved : (prev_of here (here + m) a ts == prev) ≡ false = ground arith in
    record {
      behind = f.behind;
      find = find-step fuel h a prev here (omega arith) lt ∙ f.find;
      laid = λ h' i. rw moved (
        i.sizes here ∙ ground arith,
        size,
        refl,
        subst (λ q. Laid h' (here + m) q (freed (here + m) a ts))
            (sym (i.nexts here (omega arith) ∙ flip (prev_of here (here + m) a ts) f.behind lt))
            (f.laid h' i),
      );
    }
  where
    flip :
        (pv cv : ℕ)
        → here < a
        → (if here == pv then a else if here == a then cv else h.next here)
          ≡ (if pv == here then a else h.next here)
    flip pv cv lt' = ground arith

-- The search for the place of the taken block at `a`, with a round for each vacant block and one
-- more, finds it.
pub find_place-Found :
    (fuel : ℕ) (h : Heap) (a n prev curr here : ℕ) (ts : List Tile)
    → vacancies ts < fuel
    → prev < here
    → block_at here a ts ≡ some n
    → Laid h here curr ts
    → Found fuel h a n prev curr here ts
find_place-Found zero h a n prev curr here ts lt before at l = absurd (omega arith)
find_place-Found (suc fuel) h a n prev curr here [] lt before at l = cc
find_place-Found (suc fuel) h a n prev curr here (taken m ∷ ts) lt before at (e, size, l) =
    elim (Bool-cases (here == a)) [
      | inl eq ↦
          let there : here ≡ a = (==_iff here a).0 eq in
          let whole : m ≡ n = some_inj' m n (sym (pick m n eq at)) in
          subst (λ b. Found (suc fuel) h b n prev curr here (taken m ∷ ts)) there
            (subst (λ k. Found (suc fuel) h here k prev curr here (taken m ∷ ts)) whole
              (Found-here fuel h m prev curr here ts before size l))
      | inr ne ↦ Found-taken (suc fuel) h a n prev curr here m ts ne e size (
          find_place-Found (suc fuel) h a n prev curr (here + m) ts lt (omega arith) (skip ne at) l)
    ]
  where
    some_inj' : (i j : ℕ) → ◌≡◌ {A = Option ℕ} (some j) (some i) → i ≡ j
    some_inj' i j q = cc

    pick :
        (i j : ℕ)
        → (here == a) ≡ true
        → (if here == a then some i else block_at (here + i) a ts) ≡ some j
        → ◌≡◌ {A = Option ℕ} (some i) (some j)
    pick i j q r = ground (arith, q)

    skip :
        (here == a) ≡ false
        → (if here == a then some m else block_at (here + m) a ts) ≡ some n
        → block_at (here + m) a ts ≡ some n
    skip q r = ground (arith, q)
find_place-Found (suc fuel) h a n prev curr here (vacant m ∷ ts) lt before at (e, size, there, l) =
    subst (λ c. Found (suc fuel) h a n prev c here (vacant m ∷ ts)) (sym there)
      (Found-vacant fuel h a n prev here m ts before
        (omega (arith, block_ahead (here + m) a n ts at, size)) e size
        (find_place-Found fuel h a n here (h.next here) (here + m) ts (omega (arith, lt))
          (omega arith) at l))
