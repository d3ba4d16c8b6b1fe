-- ===== src/Alloc/Join.antt =====
-- kernel/alloc.c, free: the merging of a vacant block with the vacant one behind it.
use crest_rtos.Base.{
  false, ◌∙◌, ==_refl, sym, subst, true, refl, ℕ, ◌+◌, ◌≤◌, ◌<◌, ◌≡◌, ◌≢◌, arith, List, [], ◌∷◌,
  ◌==◌, if◌then◌else◌, inl, inr, ◌⊎◌,
}
use crest_rtos.Alloc.{coalesce_prev, Heap, coalesce_next}
use crest_rtos.Alloc.Tiles.{
  Laid, Laid-frame, Laid-ahead, Tile, taken, vacant, IsSize, hdr_size-vacant,
}

-- A vacant block and a vacant one behind it become one.
abbrev pub glue : Tile → List Tile → List Tile
glue (vacant n) (vacant m ∷ ts) = vacant (n + m) ∷ ts
glue t ts = t ∷ ts

-- The vacant block at `a` is merged with the one behind it.
abbrev pub join : ℕ → ℕ → List Tile → List Tile
join here a [] = []
join here a (taken n ∷ ts) = taken n ∷ join (here + n) a ts
join here a (vacant n ∷ ts) =
    if here == a then glue (vacant n) ts else vacant n ∷ join (here + n) a ts

-- Whether a vacant block stands at `a`.
abbrev pub VacantAt : ℕ → ℕ → List Tile → Type 0
VacantAt here a [] = ⊥
VacantAt here a (taken n ∷ ts) = VacantAt (here + n) a ts
VacantAt here a (vacant n ∷ ts) = (here ≡ a) ⊎ VacantAt (here + n) a ts

pub vacant-ahead : (here a : ℕ) (ts : List Tile) → VacantAt here a ts → here ≤ a
vacant-ahead here a [] v = absurd v
vacant-ahead here a (taken n ∷ ts) v = omega (arith, vacant-ahead (here + n) a ts v)
vacant-ahead here a (vacant n ∷ ts) (inl e) = omega (arith, e)
vacant-ahead here a (vacant n ∷ ts) (inr v) = omega (arith, vacant-ahead (here + n) a ts v)

module _ (h : Heap) (a n : ℕ) (pos : 0 < a) (e : h.size a ≡ n) (size : IsSize n) where
  coalesce-apart : h.next a ≢ a + n → coalesce_next h a ≡ h
  unfolding coalesce_next
  coalesce-apart ne = ground (arith, hdr_size-vacant h a n e size)

  module _ (m : ℕ) (near : h.next a ≡ a + n) (e' : h.size (a + n) ≡ m) (size' : IsSize m) where
    size-coalesce : (b : ℕ) → (coalesce_next h a).size b ≡ (if b == a then n + m else h.size b)
    unfolding coalesce_next
    size-coalesce b =
        ground (arith, hdr_size-vacant h a n e size, hdr_size-vacant h (a + n) m e' size')

    next-coalesce :
        (b : ℕ) → (coalesce_next h a).next b ≡ (if b == a then h.next (a + n) else h.next b)
    unfolding coalesce_next
    next-coalesce b = ground (arith, hdr_size-vacant h a n e size)

limit-coalesce : (h : Heap) (a : ℕ) → (coalesce_next h a).limit ≡ h.limit
unfolding coalesce_next
limit-coalesce h a = ground arith

module _ (h : Heap) (a b : ℕ) (ne : b ≢ a) where
  size-outside : (coalesce_next h a).size b ≡ h.size b
  unfolding coalesce_next
  size-outside = ground arith

  pub next-outside : (coalesce_next h a).next b ≡ h.next b
  unfolding coalesce_next
  next-outside = ground arith

-- The merge at the block that stands in front.
Laid-glue :
    (h : Heap) (here n : ℕ) (ts : List Tile)
    → 0 < here
    → Laid h here here (vacant n ∷ ts)
    → Laid (coalesce_next h here) here here (glue (vacant n) ts)
Laid-glue h here n [] pos (e, size, at, l) =
    subst (λ g. Laid g here here (vacant n ∷ []))
      (sym (coalesce-apart h here n pos e size (λ q. omega (arith, l.1)))) (e, size, at, l)
Laid-glue h here n (taken k ∷ ts) pos (e, size, at, (e', size', l)) =
    let ahead : h.next here ≢ 0 → here + n + k ≤ h.next here =
      Laid-ahead h (here + n + k) (h.next here) ts l in
    subst (λ g. Laid g here here (vacant n ∷ taken k ∷ ts))
      (sym (coalesce-apart h here n pos e size (λ q. omega (arith, ahead (omega arith)))))
      (e, size, at, (e', size', l))
Laid-glue h here n (vacant k ∷ ts) pos (e, size, at, (e', size', near, l)) =
    let whole : here + (n + k) ≡ here + n + k = omega arith in
    (
      size-coalesce h here n pos e size k near e' size' here ∙ ground arith,
      omega (arith, size, size'),
      refl,
      rw (whole, next-coalesce h here n pos e size k near e' size' here, ==_refl here)
          (Laid-frame h (coalesce_next h here) (here + n + k) (h.next (here + n)) ts
            (limit-coalesce h here) (λ b ge. size-outside h here b (omega arith))
            (λ b ge. next-outside h here b (omega arith)) l),
    )

-- coalesce_next does what `join` does.
pub Laid-join :
    (h : Heap) (here a p : ℕ) (ts : List Tile)
    → 0 < here
    → VacantAt here a ts
    → Laid h here p ts
    → Laid (coalesce_next h a) here p (join here a ts)
Laid-join h here a p [] pos v l = absurd v
Laid-join h here a p (taken n ∷ ts) pos v (e, size, l) =
    let ahead = vacant-ahead (here + n) a ts v in
    (size-outside h a here (omega arith) ∙ e, size, Laid-join h (here + n) a p ts (omega arith) v l)
Laid-join h here a p (vacant n ∷ ts) pos (inl eq) (e, size, at, l) =
    let same : (here == a) ≡ true = ground arith in
    let glued = Laid-glue h here n ts pos (e, size, refl, l) in
    rw same (
      subst (λ b. Laid (coalesce_next h b) here p (glue (vacant n) ts)) eq
        (subst (λ q. Laid (coalesce_next h here) here q (glue (vacant n) ts)) (sym at) glued))
Laid-join h here a p (vacant n ∷ ts) pos (inr v) (e, size, at, l) =
    let ahead = vacant-ahead (here + n) a ts v in
    let other : (here == a) ≡ false = ground arith in
    rw other (
      size-outside h a here (omega arith) ∙ e,
      size,
      at,
      rw (next-outside h a here (omega arith))
          (Laid-join h (here + n) a (h.next here) ts (omega arith) v l),
    )

-- Merging with the block before is the same merge, seen from there.
pub coalesce_prev-next :
    (h : Heap) (prev a : ℕ)
    → a ≢ 0
    → h.next prev ≡ a
    → coalesce_prev h prev a ≡ (if prev == 0 then h else coalesce_next h prev)
unfolding coalesce_prev coalesce_next
coalesce_prev-next h prev a nz e = ground arith
