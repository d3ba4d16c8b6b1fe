-- ===== src/Alloc/Take.antt =====
-- kernel/alloc.c: malloc on the list of blocks.
use crest_rtos.Base.{
  suc, zero, ap, inl, inr, Bool-cases, true, subst, refl, ==_refl, false, Option, none, ℕ, ◌+◌, ◌-◌,
  ◌≤◌, ◌<◌, ◌≡◌, ◌≢◌, arith, List, [], ◌∷◌, some, ◌==◌, leb, if◌then◌else◌, ◌∙◌,
}
use crest_rtos.Alloc.{first_fit, hdr_size, header_size, take_whole, Heap, min_block_size, split}
use crest_rtos.Alloc.Tiles.{
  vacancies, Laid-frame, Laid, Tile, taken, vacant, IsSize, hdr_size-vacant,
}

-- The first vacant block with room is cut, or taken whole where less than a block would remain.
abbrev pub cut : ℕ → ℕ → List Tile → List Tile
cut need n ts =
    if leb min_block_size (n - need) then taken need ∷ vacant (n - need) ∷ ts else taken n ∷ ts

abbrev pub place_behind : Tile → Option (ℕ × List Tile) → Option (ℕ × List Tile)
place_behind t none = none
place_behind t (some (a, ts)) = some (a, t ∷ ts)

-- The address of the block that an allocation takes, and the blocks behind it.
abbrev pub place : ℕ → ℕ → List Tile → Option (ℕ × List Tile)
place need here [] = none
place need here (taken n ∷ ts) = place_behind (taken n) (place need (here + n) ts)
place need here (vacant n ∷ ts) =
    let rest = place_behind (vacant n) (place need (here + n) ts) in
    if leb need n then some (here, cut need n ts) else rest

-- The link that leads to the current block of the free list.
abbrev pub link_of : Heap → ℕ → ℕ
link_of h prev = if prev == 0 then h.free_list else h.next prev

-- `h'` differs from `h` before `here` in the link at `prev` alone, which now leads to `p`.
pub record IsRelinked (h h' : Heap) (prev here p : ℕ) : Type 0 where
  pub link : link_of h' prev ≡ p
  pub head : prev ≢ 0 → h'.free_list ≡ h.free_list
  pub sizes : (a : ℕ) → a < here → h'.size a ≡ h.size a
  pub nexts : (a : ℕ) → a < here → a ≢ prev → h'.next a ≡ h.next a
  pub limit : h'.limit ≡ h.limit
  pub start : h'.start ≡ h.start
  pub inited : h'.heap_inited ≡ h.heap_inited

module _ (h : Heap) (need prev here n : ℕ) (fit : IsSize need) (big : need + min_block_size ≤ n)
    (before : prev < here) (e : h.size here ≡ n) (size : IsSize n) where
  size-split :
      (a : ℕ)
      → (split h need prev here).size a
        ≡ (if a == here then need + 1 else if a == here + need then n - need else h.size a)
  unfolding split
  size-split a = ground (arith, hdr_size-vacant h here n e size)

  next-split :
      (a : ℕ)
      → (split h need prev here).next a ≡ (
          if a == here + need
          then h.next here
          else if prev == 0
          then h.next a
          else if a == prev
          then here + need
          else h.next a)
  unfolding split
  next-split a = ground arith

  IsRelinked-split : IsRelinked h (split h need prev here) prev here (here + need)
  unfolding split
  IsRelinked-split = record {
    link = ground arith;
    head = λ nz. ground arith;
    sizes = λ a lt. size-split a ∙ ground arith;
    nexts = λ a lt ne. next-split a ∙ ground arith;
    limit = ground arith;
    start = ground arith;
    inited = ground arith;
  }

  Laid-split :
      (ts : List Tile)
      → Laid h (here + n) (h.next here) ts
      → Laid (split h need prev here) here (here + need) (taken need ∷ vacant (n - need) ∷ ts)
  Laid-split ts l =
      let whole : here + need + (n - need) ≡ here + n = omega arith in
      (
        size-split here ∙ ground arith,
        fit,
        (
          size-split (here + need) ∙ ground arith,
          omega (arith, fit, size),
          refl,
          rw (whole, next-split (here + need), ==_refl (here + need))
              (Laid-frame h (split h need prev here) (here + n) (h.next here) ts
                IsRelinked-split.limit (λ a ge. size-split a ∙ ground arith)
                (λ a ge. next-split a ∙ ground arith) l),
        ),
      )

module _ (h : Heap) (prev here n : ℕ) (before : prev < here) (e : h.size here ≡ n)
    (size : IsSize n) where
  size-whole : (a : ℕ) → (take_whole h prev here).size a ≡ (if a == here then n + 1 else h.size a)
  unfolding take_whole
  size-whole a = ground (arith, hdr_size-vacant h here n e size)

  next-whole :
      (a : ℕ)
      → (take_whole h prev here).next a
        ≡ (if prev == 0 then h.next a else if a == prev then h.next here else h.next a)
  unfolding take_whole
  next-whole a = ground arith

  IsRelinked-whole : IsRelinked h (take_whole h prev here) prev here (h.next here)
  unfolding take_whole
  IsRelinked-whole = record {
    link = ground arith;
    head = λ nz. ground arith;
    sizes = λ a lt. size-whole a ∙ ground arith;
    nexts = λ a lt ne. next-whole a ∙ ground arith;
    limit = ground arith;
    start = ground arith;
    inited = ground arith;
  }

  Laid-whole :
      (ts : List Tile)
      → Laid h (here + n) (h.next here) ts
      → Laid (take_whole h prev here) here (h.next here) (taken n ∷ ts)
  Laid-whole ts l = (
    size-whole here ∙ ground arith,
    size,
    Laid-frame h (take_whole h prev here) (here + n) (h.next here) ts IsRelinked-whole.limit
        (λ a ge. size-whole a ∙ ground arith) (λ a ge. next-whole a ∙ ground arith) l,
  )

-- What the loop of malloc returns, where `place` gives the second argument.
abbrev pub Outcome : Heap → ℕ → ℕ → Option (ℕ × List Tile) → Option (Heap × ℕ) → Type 0
Outcome h prev here none r = r ≡ some (h, 0)
Outcome h prev here (some (a, ts)) r =
    (h' : Heap) × (p : ℕ) × (r ≡ some (h', a + header_size))
    × IsRelinked h h' prev here p
    × Laid h' here p ts

Outcome-taken :
    (h : Heap) (prev here n : ℕ) (o : Option (ℕ × List Tile)) (r : Option (Heap × ℕ))
    → h.size here ≡ n + 1
    → IsSize n
    → Outcome h prev (here + n) o r
    → Outcome h prev here (place_behind (taken n) o) r
Outcome-taken h prev here n none r e size out = out
Outcome-taken h prev here n (some (a, ts)) r e size (h', p, q, re, l) = (
  h',
  p,
  q,
  record {
    link = re.link;
    head = re.head;
    sizes = λ b lt. re.sizes b (omega arith);
    nexts = λ b lt ne. re.nexts b (omega arith) ne;
    limit = re.limit;
    start = re.start;
    inited = re.inited;
  },
  (re.sizes here (omega arith) ∙ e, size, l),
)

link-kept :
    (h h' : Heap) (prev here n p : ℕ)
    → prev < here
    → min_block_size ≤ n
    → IsRelinked h h' here (here + n) p
    → (h'.next here ≡ p) × (link_of h' prev ≡ link_of h prev)
link-kept h h' prev here n p lt big re =
    let nz : (here == 0) ≡ false = ground arith in
    (
      subst (λ b. (if b then h'.free_list else h'.next here) ≡ p) nz re.link,
      ground (arith, re.head (omega arith), re.nexts prev (omega arith) (omega arith)),
    )

Outcome-vacant :
    (h : Heap) (prev here n : ℕ) (o : Option (ℕ × List Tile)) (r : Option (Heap × ℕ))
    → prev < here
    → link_of h prev ≡ here
    → h.size here ≡ n
    → IsSize n
    → Outcome h here (here + n) o r
    → Outcome h prev here (place_behind (vacant n) o) r
Outcome-vacant h prev here n none r lt link e size out = out
Outcome-vacant h prev here n (some (a, ts)) r lt link e size (h', p, q, re, l) =
    let (next, same) = link-kept h h' prev here n p lt size.0 re in
    (
      h',
      here,
      q,
      record {
        link = same ∙ link;
        head = λ nz. re.head (omega arith);
        sizes = λ b less. re.sizes b (omega arith);
        nexts = λ b less ne. re.nexts b (omega arith) (omega arith);
        limit = re.limit;
        start = re.start;
        inited = re.inited;
      },
      (re.sizes here (omega arith) ∙ e, size, refl, rw next l),
    )

-- A block with room is cut or taken whole.
Outcome-fitting :
    (h : Heap) (need prev here n : ℕ) (ts : List Tile)
    → IsSize need
    → need ≤ n
    → prev < here
    → h.size here ≡ n
    → IsSize n
    → Laid h (here + n) (h.next here) ts
    → Outcome h prev here (some (here, cut need n ts)) (
        some (
          if leb min_block_size (hdr_size h here - need)
              then split h need prev here
              else take_whole h prev here,
          here + header_size,
        ))
Outcome-fitting h need prev here n ts fit room before e size l =
    elim (Bool-cases (leb min_block_size (n - need))) [
      | inl more ↦
          let big : need + min_block_size ≤ n = ground (arith, more) in
          rw (hdr_size-vacant h here n e size, more)
            (
              split h need prev here,
              here + need,
              refl,
              IsRelinked-split h need prev here n fit big before e size,
              Laid-split h need prev here n fit big before e size ts l,
            )
      | inr less ↦
          rw (hdr_size-vacant h here n e size, less)
            (
              take_whole h prev here,
              h.next here,
              refl,
              IsRelinked-whole h prev here n before e size,
              Laid-whole h prev here n before e size ts l,
            )
    ]

-- A block that is too small is passed over.
first_fit-skip :
    (fuel : ℕ) (h : Heap) (need prev here : ℕ)
    → here ≢ 0
    → leb need (hdr_size h here) ≡ false
    → first_fit (suc fuel) h need prev here ≡ first_fit fuel h need here (h.next here)
unfolding first_fit
first_fit-skip fuel h need prev here nz small = ground (arith, nz, small)

first_fit-take :
    (fuel : ℕ) (h : Heap) (need prev here : ℕ)
    → here ≢ 0
    → leb need (hdr_size h here) ≡ true
    → first_fit (suc fuel) h need prev here
      ≡ some (
        if leb min_block_size (hdr_size h here - need)
            then split h need prev here
            else take_whole h prev here,
        here + header_size,
      )
unfolding first_fit
first_fit-take fuel h need prev here nz fits =
    let there : (here == 0) ≡ false = ground arith in rw (there, fits) refl

-- The loop of malloc does what `place` does, with a round for each vacant block and one more.
pub first_fit-Outcome :
    (fuel : ℕ) (h : Heap) (need prev curr here : ℕ) (ts : List Tile)
    → vacancies ts < fuel
    → IsSize need
    → prev < here
    → link_of h prev ≡ curr
    → Laid h here curr ts
    → Outcome h prev here (place need here ts) (first_fit fuel h need prev curr)
unfolding first_fit
first_fit-Outcome zero h need prev curr here ts lt fit before link l = absurd (omega arith)
first_fit-Outcome (suc fuel) h need prev curr here [] lt fit before link l = rw l.1 refl
first_fit-Outcome (suc fuel) h need prev curr here (taken n ∷ ts) lt fit before link (e, size, l) =
    Outcome-taken h prev here n (place need (here + n) ts) (first_fit (suc fuel) h need prev curr) e
      size (first_fit-Outcome (suc fuel) h need prev curr (here + n) ts lt fit (omega arith) link l)
first_fit-Outcome (suc fuel) h need prev curr here (vacant n ∷ ts) lt fit before link
      (e, size, at, l) =
    elim (Bool-cases (leb need n)) [
      | inl fits ↦
          rw
            (
              fits,
              at,
              first_fit-take fuel h need prev here (omega arith)
                  (ap (leb need) (hdr_size-vacant h here n e size) ∙ fits),
            )
            (Outcome-fitting h need prev here n ts fit (ground (arith, fits)) before e size l)
      | inr small ↦
          rw
            (
              small,
              at,
              first_fit-skip fuel h need prev here (omega arith)
                  (ap (leb need) (hdr_size-vacant h here n e size) ∙ small),
            )
            (Outcome-vacant h prev here n (place need (here + n) ts)
              (first_fit fuel h need here (h.next here)) before (link ∙ at) e size
              (first_fit-Outcome fuel h need here (h.next here) (here + n) ts (omega (arith, lt))
                fit (omega arith) (link_here h here before) l))
    ]
  where
    link_here : (g : Heap) (a : ℕ) → prev < a → link_of g a ≡ g.next a
    link_here g a lt' = ground arith
