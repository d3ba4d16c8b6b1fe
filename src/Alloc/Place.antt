-- ===== src/Alloc/Place.antt =====
-- What an allocation does to the list of blocks.
use crest_rtos.Base.{
  ℕ, ◌+◌, ◌-◌, ◌%◌, ◌≤◌, ◌<◌, ◌≡◌, refl, arith, List, [], ◌∷◌, false, Option, none, some, ◌==◌, leb,
  inl, inr, Bool-cases,
}
use crest_rtos.Alloc.{Heap, min_block_size}
use crest_rtos.Alloc.Tiles.{Tile, taken, vacant, IsSize, Laid, IsMerged, block_at, block_ahead}
use crest_rtos.Alloc.Take.{place, place_behind, cut}

-- All blocks have sizes of blocks.
abbrev pub IsSized : List Tile → Type 0
IsSized [] = Unit
IsSized (taken n ∷ ts) = IsSize n × IsSized ts
IsSized (vacant n ∷ ts) = IsSize n × IsSized ts

pub Laid-IsSized : (h : Heap) (here p : ℕ) (ts : List Tile) → Laid h here p ts → IsSized ts
Laid-IsSized h here p [] l = tt
Laid-IsSized h here p (taken n ∷ ts) (e, size, l) = (size, Laid-IsSized h (here + n) p ts l)
Laid-IsSized h here p (vacant n ∷ ts) (e, size, at, l) =
    (size, Laid-IsSized h (here + n) (h.next here) ts l)

-- Every vacant block is smaller than `need`.
abbrev pub IsShort : ℕ → List Tile → Type 0
IsShort need [] = Unit
IsShort need (taken n ∷ ts) = IsShort need ts
IsShort need (vacant n ∷ ts) = (n < need) × IsShort need ts

-- The block at `a` has been taken for `need` bytes: it was not taken before, it is aligned, has the
-- bytes and less than a block more, and all blocks that were taken are so still.
pub record IsPlacement (need here : ℕ) (ts : List Tile) (a : ℕ) (ts' : List Tile) : Type 0 where
  pub ahead : here ≤ a
  pub aligned : here % 8 ≡ 0 → a % 8 ≡ 0
  pub unused : block_at here a ts ≡ none
  pub block : (m : ℕ) × (block_at here a ts' ≡ some m) × (need ≤ m) × (m < need + min_block_size)
  pub others : (b k : ℕ) → block_at here b ts ≡ some k → block_at here b ts' ≡ some k
  pub merged : IsMerged ts → IsMerged ts'

abbrev pub Places : ℕ → ℕ → List Tile → Option (ℕ × List Tile) → Type 0
Places need here ts none = IsShort need ts
Places need here ts (some (a, ts')) = IsPlacement need here ts a ts'

-- No block is taken before the first one.
no_block : (here a : ℕ) (ts : List Tile) → a < here → block_at here a ts ≡ none
no_block here a [] lt = refl
no_block here a (taken n ∷ ts) lt = ground (arith, no_block (here + n) a ts)
no_block here a (vacant n ∷ ts) lt = no_block (here + n) a ts (omega arith)

Places-taken :
    (need here n : ℕ) (ts : List Tile) (o : Option (ℕ × List Tile))
    → IsSize n
    → Places need (here + n) ts o
    → Places need here (taken n ∷ ts) (place_behind (taken n) o)
Places-taken need here n ts none size f = f
Places-taken need here n ts (some (a, ts')) size f =
    let ne : (here == a) ≡ false = ground (arith, f.ahead) in
    record {
      ahead = omega (arith, f.ahead);
      aligned = λ e. f.aligned (omega arith);
      unused = rw ne f.unused;
      block = rw ne f.block;
      others = λ b k. ground (arith, f.others b k);
      merged = f.merged;
    }

-- An allocation behind a vacant block leaves no vacant one in front.
vacant-IsMerged :
    (need here n a : ℕ) (ts ts' : List Tile)
    → place need here ts ≡ some (a, ts')
    → IsMerged (vacant n ∷ ts)
    → IsMerged ts'
    → IsMerged (vacant n ∷ ts')
vacant-IsMerged need here n a [] ts' e m m' = cc
vacant-IsMerged need here n a (vacant k ∷ ts) ts' e m m' = absurd m
vacant-IsMerged need here n a (taken k ∷ ts) [] e m m' = tt
vacant-IsMerged need here n a (taken k ∷ ts) (taken j ∷ ts') e m m' = m'
vacant-IsMerged need here n a (taken k ∷ ts) (vacant j ∷ ts') e m m' =
    absurd (no_vacant (place need (here + k) ts) e)
  where
    no_vacant :
        (o : Option (ℕ × List Tile)) → place_behind (taken k) o ≡ some (a, vacant j ∷ ts') → ⊥
    no_vacant none q = cc
    no_vacant (some (b, us)) q = cc

pub IsMerged-tail : (n : ℕ) (ts : List Tile) → IsMerged (vacant n ∷ ts) → IsMerged ts
IsMerged-tail n [] m = tt
IsMerged-tail n (taken k ∷ ts) m = m
IsMerged-tail n (vacant k ∷ ts) m = absurd m

Places-vacant :
    (need here n : ℕ) (ts : List Tile) (o : Option (ℕ × List Tile))
    → place need (here + n) ts ≡ o
    → IsSize n
    → n < need
    → Places need (here + n) ts o
    → Places need here (vacant n ∷ ts) (place_behind (vacant n) o)
Places-vacant need here n ts none e size small f = (small, f)
Places-vacant need here n ts (some (a, ts')) e size small f = record {
  ahead = omega (arith, f.ahead);
  aligned = λ q. f.aligned (omega arith);
  unused = f.unused;
  block = f.block;
  others = λ b k. f.others b k;
  merged = λ m. vacant-IsMerged need (here + n) n a ts ts' e m (f.merged (IsMerged-tail n ts m));
}

-- What stands behind a block that was vacant is not vacant.
pub cut-IsMerged : (n m : ℕ) (ts : List Tile) → IsMerged (vacant n ∷ ts) → IsMerged (vacant m ∷ ts)
cut-IsMerged n m [] h = tt
cut-IsMerged n m (taken k ∷ ts) h = h
cut-IsMerged n m (vacant k ∷ ts) h = absurd h

IsPlacement-cut :
    (need here n : ℕ) (ts : List Tile)
    → 0 < need
    → IsSize n
    → need ≤ n
    → IsPlacement need here (vacant n ∷ ts) here (cut need n ts)
IsPlacement-cut need here n ts pos size room = elim (Bool-cases (leb min_block_size (n - need))) [
  | inl more ↦
      let whole : here + need + (n - need) ≡ here + n = omega arith in
      rw more (record {
        ahead = omega arith;
        aligned = λ e. e;
        unused = no_block (here + n) here ts (omega arith);
        block = (need, ground arith, omega arith, omega arith);
        others = λ b k e.
            let far : (here == b) ≡ false = ground (arith, block_ahead (here + n) b k ts) in
            rw (far, whole) e;
        merged = λ m. cut-IsMerged n (n - need) ts m;
      })
  | inr less ↦ rw less (record {
    ahead = omega arith;
    aligned = λ e. e;
    unused = no_block (here + n) here ts (omega arith);
    block = (n, ground arith, room, ground (arith, less));
    others = λ b k e.
        let far : (here == b) ≡ false = ground (arith, block_ahead (here + n) b k ts) in rw far e;
    merged = λ m. IsMerged-tail n ts m;
  })
]

-- `place` takes a block as above, and finds none only if all vacant blocks are too small.
pub place-Places :
    (need here : ℕ) (ts : List Tile)
    → 0 < need
    → IsSized ts
    → Places need here ts (place need here ts)
place-Places need here [] pos sized = tt
place-Places need here (taken n ∷ ts) pos (size, sized) =
    Places-taken need here n ts (place need (here + n) ts) size
      (place-Places need (here + n) ts pos sized)
place-Places need here (vacant n ∷ ts) pos (size, sized) = elim (Bool-cases (leb need n)) [
  | inl fits ↦ rw fits (IsPlacement-cut need here n ts pos size (ground (arith, fits)))
  | inr small ↦ rw small (
      Places-vacant need here n ts (place need (here + n) ts) refl size (ground (arith, small))
        (place-Places need (here + n) ts pos sized))
]
