-- ===== src/Alloc/Tiles.antt =====
-- kernel/alloc.c: the heap seen as the list of its blocks, in the order of their addresses.
use crest_rtos.Base.{
  ℕ, suc, ◌+◌, ◌*◌, ◌%◌, ◌≤◌, ◌<◌, ◌≡◌, ◌≢◌, arith, List, [], ◌∷◌, Option, none, some, ◌==◌,
  if◌then◌else◌, sym, ◌∙◌,
}
use crest_rtos.Alloc.{Heap, hdr_size, min_block_size}

-- A block of so many bytes, its header included.
pub data Tile : Type 0 where
  taken vacant : ℕ → Tile

abbrev pub bytes_of : Tile → ℕ
bytes_of (taken n) = n
bytes_of (vacant n) = n

-- Sizes of blocks.
abbrev pub IsSize : ℕ → Type 0
IsSize n = (min_block_size ≤ n) × (n % 8 ≡ 0)

-- From the address `here` to the end of the heap the memory holds the blocks, with their headers,
-- and the free list from `p` on leads through the vacant ones.
abbrev pub Laid : Heap → ℕ → ℕ → List Tile → Type 0
Laid h here p [] = (here ≡ h.limit) × (p ≡ 0)
Laid h here p (taken n ∷ ts) = (h.size here ≡ n + 1) × IsSize n × Laid h (here + n) p ts
Laid h here p (vacant n ∷ ts) =
    (h.size here ≡ n) × IsSize n × (p ≡ here) × Laid h (here + n) (h.next here) ts

-- No two neighbours are vacant.
abbrev pub IsMerged : List Tile → Type 0
IsMerged [] = Unit
IsMerged (taken n ∷ ts) = IsMerged ts
IsMerged (vacant n ∷ []) = Unit
IsMerged (vacant n ∷ vacant m ∷ ts) = ⊥
IsMerged (vacant n ∷ taken m ∷ ts) = IsMerged ts

-- The size of the block at an address, if one is taken there.
abbrev pub block_at : ℕ → ℕ → List Tile → Option ℕ
block_at here a [] = none
block_at here a (taken n ∷ ts) = if here == a then some n else block_at (here + n) a ts
block_at here a (vacant n ∷ ts) = block_at (here + n) a ts

abbrev pub vacancies : List Tile → ℕ
vacancies [] = 0
vacancies (taken n ∷ ts) = vacancies ts
vacancies (vacant n ∷ ts) = suc (vacancies ts)

-- What the blocks from `here` on depend on.
pub Laid-frame :
    (h h' : Heap) (here p : ℕ) (ts : List Tile)
    → h'.limit ≡ h.limit
    → ((a : ℕ) → here ≤ a → h'.size a ≡ h.size a)
    → ((a : ℕ) → here ≤ a → h'.next a ≡ h.next a)
    → Laid h here p ts
    → Laid h' here p ts
Laid-frame h h' here p [] el es en l = (l.0 ∙ sym el, l.1)
Laid-frame h h' here p (taken n ∷ ts) el es en (e, fit, l) = (
  es here (omega arith) ∙ e,
  fit,
  Laid-frame h h' (here + n) p ts el (λ a ge. es a (omega arith)) (λ a ge. en a (omega arith)) l,
)
Laid-frame h h' here p (vacant n ∷ ts) el es en (e, fit, at, l) = (
  es here (omega arith) ∙ e,
  fit,
  at,
  rw (en here (omega arith)) (
      Laid-frame h h' (here + n) (h.next here) ts el (λ a ge. es a (omega arith))
        (λ a ge. en a (omega arith)) l),
)

-- The list leads to no address before the blocks, and each vacant block takes its bytes.
pub Laid-ahead : (h : Heap) (here p : ℕ) (ts : List Tile) → Laid h here p ts → p ≢ 0 → here ≤ p
Laid-ahead h here p [] l nz = absurd (nz l.1)
Laid-ahead h here p (taken n ∷ ts) (e, fit, l) nz = omega (arith, Laid-ahead h (here + n) p ts l nz)
Laid-ahead h here p (vacant n ∷ ts) (e, fit, at, l) nz = omega (arith, at)

pub Laid-room :
    (h : Heap) (here p : ℕ) (ts : List Tile) → Laid h here p ts → here + 16 * vacancies ts ≤ h.limit
Laid-room h here p [] l = omega (arith, l.0)
Laid-room h here p (taken n ∷ ts) (e, fit, l) = omega (arith, Laid-room h (here + n) p ts l)
Laid-room h here p (vacant n ∷ ts) (e, fit, at, l) =
    omega (arith, Laid-room h (here + n) (h.next here) ts l)

pub hdr_size-vacant : (h : Heap) (a n : ℕ) → h.size a ≡ n → IsSize n → hdr_size h a ≡ n
hdr_size-vacant h a n e fit = omega (arith, e)

pub hdr_size-taken : (h : Heap) (a n : ℕ) → h.size a ≡ n + 1 → IsSize n → hdr_size h a ≡ n
hdr_size-taken h a n e fit = omega (arith, e)

-- A taken block in the heap.
pub block_ahead : (here a n : ℕ) (ts : List Tile) → block_at here a ts ≡ some n → here ≤ a
block_ahead here a n [] e = cc
block_ahead here a n (taken m ∷ ts) e = ground (arith, block_ahead (here + m) a n ts)
block_ahead here a n (vacant m ∷ ts) e = omega (arith, block_ahead (here + m) a n ts e)

-- Taken blocks do not overlap.
pub blocks_apart :
    (h : Heap) (here p a b n m : ℕ) (ts : List Tile)
    → Laid h here p ts
    → block_at here a ts ≡ some n
    → block_at here b ts ≡ some m
    → a < b
    → a + n ≤ b
blocks_apart h here p a b n m [] l ea eb lt = cc
blocks_apart h here p a b n m (taken k ∷ ts) (e, fit, l) ea eb lt = ground (
  arith,
  blocks_apart h (here + k) p a b n m ts l,
  block_ahead (here + k) b m ts,
  block_ahead (here + k) a n ts,
)
blocks_apart h here p a b n m (vacant k ∷ ts) (e, fit, at, l) ea eb lt =
    blocks_apart h (here + k) (h.next here) a b n m ts l ea eb lt
