-- ===== src/Alloc/Release.antt =====
-- What a release does to the list of blocks.
use crest_rtos.Base.{
  ℕ, ◌+◌, ◌≤◌, ◌<◌, ◌≡◌, ◌≢◌, refl, arith, List, [], ◌∷◌, false, some, ◌==◌, if◌then◌else◌, ap, sym,
  subst, ◌∙◌, ◌⊎◌, inl, inr, Bool-cases, ==_iff,
}
use crest_rtos.Alloc.{Heap}
use crest_rtos.Alloc.Tiles.{
  Laid, Laid-room, IsSize, Tile, taken, vacant, IsMerged, block_at, block_ahead,
}
use crest_rtos.Alloc.Place.{IsSized, IsMerged-tail, cut-IsMerged}
use crest_rtos.Alloc.Mark.{freed, prev_of}
use crest_rtos.Alloc.Join.{glue, join, VacantAt}

-- The taken block at `a` has become vacant, and is one with its vacant neighbours.
abbrev pub release : ℕ → ℕ → List Tile → List Tile
release here a [] = []
release here a (taken n ∷ ts) =
    if here == a then glue (vacant n) ts else taken n ∷ release (here + n) a ts
release here a (vacant n ∷ ts) = glue (vacant n) (release (here + n) a ts)

glue-IsMerged : (n : ℕ) (ts : List Tile) → IsMerged ts → IsMerged (glue (vacant n) ts)
glue-IsMerged n [] m = tt
glue-IsMerged n (taken k ∷ ts) m = m
glue-IsMerged n (vacant k ∷ ts) m = cut-IsMerged k (n + k) ts m

pub release-IsMerged : (here a : ℕ) (ts : List Tile) → IsMerged ts → IsMerged (release here a ts)
release-IsMerged here a [] m = m
release-IsMerged here a (taken n ∷ ts) m = elim (Bool-cases (here == a)) [
  | inl e ↦ rw e (glue-IsMerged n ts m)
  | inr e ↦ rw e (release-IsMerged (here + n) a ts m)
]
release-IsMerged here a (vacant n ∷ ts) m =
    glue-IsMerged n (release (here + n) a ts)
      (release-IsMerged (here + n) a ts (IsMerged-tail n ts m))

pub join-below : (here b : ℕ) (ts : List Tile) → b < here → join here b ts ≡ ts
join-below here b [] lt = refl
join-below here b (taken n ∷ ts) lt =
    ap (λ r. taken n ∷ r) (join-below (here + n) b ts (omega arith))
join-below here b (vacant n ∷ ts) lt =
    let ne : (here == b) ≡ false = ground arith in
    rw ne (ap (λ r. vacant n ∷ r) (join-below (here + n) b ts (omega arith)))

-- Behind a vacant block stands a taken one, which is the released one or stays.
glue-release :
    (here n a k : ℕ) (ts : List Tile)
    → IsMerged (vacant n ∷ ts)
    → block_at (here + n) a ts ≡ some k
    → prev_of here (here + n) a ts ≢ here
    → glue (vacant n) (release (here + n) a ts) ≡ vacant n ∷ release (here + n) a ts
glue-release here n a k [] m at ne = cc
glue-release here n a k (vacant j ∷ ts) m at ne = absurd m
glue-release here n a k (taken j ∷ ts) m at ne = elim (Bool-cases (here + n == a)) [
  | inl e ↦ absurd (ne (rw e refl))
  | inr e ↦ rw e refl
]

-- The two merges of free are those of `release`.
pub join-release :
    (prev here a k : ℕ) (ts : List Tile)
    → IsMerged ts
    → IsSized ts
    → prev < here
    → block_at here a ts ≡ some k
    → join here (prev_of prev here a ts) (join here a (freed here a ts)) ≡ release here a ts
join-release prev here a k [] m sized lt at = refl
join-release prev here a k (taken n ∷ ts) m (size, sized) lt at = elim (Bool-cases (here == a)) [
  | inl e ↦ rw (e, e) (join-below here prev (glue (vacant n) ts) lt)
  | inr e ↦ rw e (
      ap (λ r. taken n ∷ r)
        (join-release prev (here + n) a k ts m sized (omega arith) (ground (arith, at, e))))
]
join-release prev here a k (vacant n ∷ ts) m (size, sized) lt at =
    let pv = prev_of here (here + n) a ts in
    let rest = join-release here (here + n) a k ts (IsMerged-tail n ts m) sized (omega arith) at in
    let other : (here == a) ≡ false = ground (arith, block_ahead (here + n) a k ts) in
    elim (Bool-cases (here == pv)) [
      | inl e ↦
          let same : here ≡ pv = (==_iff here pv).0 e in
          rw (other, e)
            (ap (glue (vacant n)) (
              sym
                (join-below (here + n) pv (join (here + n) a (freed (here + n) a ts)) (omega arith))
              ∙ rest))
      | inr e ↦
          let apart : pv ≢ here = ground arith in
          rw (other, e) (ap (λ r. vacant n ∷ r) rest ∙ sym (glue-release here n a k ts m at apart))
    ]

pub vacant-freed :
    (here a n : ℕ) (ts : List Tile)
    → block_at here a ts ≡ some n
    → VacantAt here a (freed here a ts)
vacant-freed here a n [] at = cc
vacant-freed here a n (taken m ∷ ts) at = elim (Bool-cases (here == a)) [
  | inl e ↦ rw e (inl ((==_iff here a).0 e))
  | inr e ↦ rw e (vacant-freed (here + m) a n ts (ground (arith, at, e)))
]
vacant-freed here a n (vacant m ∷ ts) at = inr (vacant-freed (here + m) a n ts at)

-- The block before is vacant, if there is one, also after the release and the first merge.
pub prev_of-vacant :
    (prev here a n : ℕ) (ts : List Tile)
    → IsSized ts
    → block_at here a ts ≡ some n
    → (prev_of prev here a ts ≡ prev)
      ⊎ VacantAt here (prev_of prev here a ts) (join here a (freed here a ts))
prev_of-vacant prev here a n [] sized at = cc
prev_of-vacant prev here a n (taken m ∷ ts) (size, sized) at = elim (Bool-cases (here == a)) [
  | inl e ↦ rw (e, e) (inl refl)
  | inr e ↦ rw e (prev_of-vacant prev (here + m) a n ts sized (ground (arith, at, e)))
]
prev_of-vacant prev here a n (vacant m ∷ ts) (size, sized) at =
    let other : (here == a) ≡ false = ground (arith, block_ahead (here + m) a n ts) in
    rw other (
      inr (elim (prev_of-vacant here (here + m) a n ts sized at) [
        | inl e ↦ inl (sym e)
        | inr v ↦ inr v
      ]))

pub Laid-within : (h : Heap) (here p : ℕ) (ts : List Tile) → Laid h here p ts → here ≤ h.limit
Laid-within h here p ts l = omega (arith, Laid-room h here p ts l)

-- The facts about a taken block in the heap.
pub block-Laid :
    (h : Heap) (here p a n : ℕ) (ts : List Tile)
    → Laid h here p ts
    → block_at here a ts ≡ some n
    → (h.size a ≡ n + 1) × IsSize n × (a + n ≤ h.limit)
block-Laid h here p a n [] l at = cc
block-Laid h here p a n (taken m ∷ ts) (e, size, l) at = elim (Bool-cases (here == a)) [
  | inl eq ↦
      let there : here ≡ a = (==_iff here a).0 eq in
      let whole : m ≡ n = ground (arith, eq, at) in
      subst (λ b. (h.size b ≡ n + 1) × IsSize n × (b + n ≤ h.limit)) there
        (subst (λ k. (h.size here ≡ k + 1) × IsSize k × (here + k ≤ h.limit)) whole
          (e, size, Laid-within h (here + m) p ts l))
  | inr ne ↦ block-Laid h (here + m) p a n ts l (ground (arith, ne, at))
]
block-Laid h here p a n (vacant m ∷ ts) (e, size, there, l) at =
    block-Laid h (here + m) (h.next here) a n ts l at
