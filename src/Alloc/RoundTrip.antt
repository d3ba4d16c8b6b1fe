-- ===== src/Alloc/RoundTrip.antt =====
-- kernel/alloc.c: malloc, and then free of what it returned.
use crest_rtos.Base.{
  ℕ, ◌+◌, ◌-◌, ◌^◌, ◌≤◌, ◌<◌, ◌≡◌, refl, arith, List, [], ◌∷◌, true, false, Option, none, some,
  ◌==◌, leb, ap, sym, subst, ◌∙◌, inl, inr, Bool-cases, ==_of_ne,
}
use crest_rtos.Alloc.{Heap, malloc, free, need_of, min_block_size}
use crest_rtos.Alloc.Tiles.{Tile, taken, vacant, IsMerged, block_at}
use crest_rtos.Alloc.Take.{place, place_behind, cut}
use crest_rtos.Alloc.Place.{IsSized, Places, place-Places, IsMerged-tail, Laid-IsSized}
use crest_rtos.Alloc.Join.{glue}
use crest_rtos.Alloc.Release.{release}
use crest_rtos.Alloc.Malloc.{base, Allocated, IsHeap, malloc-need}
use crest_rtos.Alloc.Free.{free-release}

-- A release of the block that was placed gives the blocks back.
abbrev GivesBack : ℕ → List Tile → Option (ℕ × List Tile) → Type 0
GivesBack here ts none = Unit {0}
GivesBack here ts (some (a, ts')) = release here a ts' ≡ ts

glue-merged :
    (n : ℕ) (ts : List Tile) → IsMerged (vacant n ∷ ts) → glue (vacant n) ts ≡ vacant n ∷ ts
glue-merged n [] m = refl
glue-merged n (taken k ∷ ts) m = refl
glue-merged n (vacant k ∷ ts) m = absurd m

GivesBack-taken :
    (need here n : ℕ) (ts : List Tile) (o : Option (ℕ × List Tile))
    → min_block_size ≤ n
    → Places need (here + n) ts o
    → GivesBack (here + n) ts o
    → GivesBack here (taken n ∷ ts) (place_behind (taken n) o)
GivesBack-taken need here n ts none big f g = tt
GivesBack-taken need here n ts (some (a, ts')) big f g =
    let ne : (here == a) ≡ false = ==_of_ne here a (omega (arith, f.ahead, big)) in
    rw ne (ap (λ r. taken n ∷ r) g)

GivesBack-vacant :
    (here n : ℕ) (ts : List Tile) (o : Option (ℕ × List Tile))
    → IsMerged (vacant n ∷ ts)
    → GivesBack (here + n) ts o
    → GivesBack here (vacant n ∷ ts) (place_behind (vacant n) o)
GivesBack-vacant here n ts none m g = tt
GivesBack-vacant here n ts (some (a, ts')) m g = ap (glue (vacant n)) g ∙ glue-merged n ts m

release-cut :
    (need here n : ℕ) (ts : List Tile)
    → need ≤ n
    → IsMerged (vacant n ∷ ts)
    → release here here (cut need n ts) ≡ vacant n ∷ ts
release-cut need here n ts le m =
    let self : (here == here) ≡ true = ground arith in
    elim (Bool-cases (leb min_block_size (n - need))) [
      | inl more ↦
          let whole : need + (n - need) ≡ n = omega arith in
          rw (more, self) (ap (λ k. vacant k ∷ ts) whole)
      | inr less ↦ rw (less, self) (glue-merged n ts m)
    ]

place-GivesBack :
    (need here : ℕ) (ts : List Tile)
    → 0 < need
    → IsSized ts
    → IsMerged ts
    → GivesBack here ts (place need here ts)
place-GivesBack need here [] pos sized m = tt
place-GivesBack need here (taken n ∷ ts) pos (size, sized) m =
    GivesBack-taken need here n ts (place need (here + n) ts) size.0
      (place-Places need (here + n) ts pos sized) (place-GivesBack need (here + n) ts pos sized m)
place-GivesBack need here (vacant n ∷ ts) pos (size, sized) m = elim (Bool-cases (leb need n)) [
  | inl fits ↦ rw fits (release-cut need here n ts (ground (arith, fits)) m)
  | inr small ↦ rw small (
      GivesBack-vacant here n ts (place need (here + n) ts) m
        (place-GivesBack need (here + n) ts pos sized (IsMerged-tail n ts m)))
]

need_pos : (size : ℕ) → 0 < need_of size
need_pos size = ground arith

free-null : (h : Heap) → free h 0 ≡ some h
unfolding free
free-null h = refl

-- What malloc returned for a request of 1 to 2^32 - 16 bytes on a heap in order can be given to free, which returns a heap in order with the blocks that there were before.
pub free-malloc :
    (h : Heap) (ts : List Tile) (size : ℕ)
    → IsHeap h ts
    → 0 < size
    → size ≤ 2 ^ 32 - 16
    → (h' : Heap) × (q : ℕ) × (malloc h size ≡ some (h', q))
      × (h'' : Heap) × (free h' q ≡ some h'')
      × IsHeap h'' ts
free-malloc h ts size i pos small =
    let (h', q, e, f) = malloc-need h ts size i pos small in
    let (h'', done, back) = again h' q f in (h', q, e, h'', done, back)
  where
    again :
        (h' : Heap) (q : ℕ)
        → Allocated h ts (need_of size) h' q
        → (h'' : Heap) × (free h' q ≡ some h'') × IsHeap h'' ts
    again h' q (inl (z, same, short)) = (h, ap (free h') z ∙ free-null h' ∙ ap some same, i)
    again h' q (inr (a, ts', at, j, based, placed, f)) =
        let (m, block, big, few) = f.block in
        let (h'', e, rest, k) =
          free-release h' ts' a m j (subst (λ b. block_at b a ts' ≡ some m) (sym based) block) in
        let back : release (base h) a ts' ≡ ts = subst (GivesBack (base h) ts) placed (
          place-GivesBack (need_of size) (base h) ts (need_pos size)
            (Laid-IsSized h (base h) h.free_list ts i.laid) i.merged) in
        (h'', ap (free h') at ∙ e, subst (IsHeap h'') (ap (λ b. release b a ts') based ∙ back) k)
