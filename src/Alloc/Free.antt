-- ===== src/Alloc/Free.antt =====
-- kernel/alloc.c: free on a heap in order.
use crest_rtos.Base.{
  ℕ, ◌+◌, ◌-◌, ◌%◌, ◌^◌, ◌≤◌, ◌<◌, ◌≡◌, ◌≢◌, refl, arith, List, true, false, not, some, ◌==◌, ltb,
  leb, if◌then◌else◌, ap, sym, subst, ◌∙◌, ◌⊎◌, inl, inr, Bool-cases, ==_iff, update, [], ◌∷◌,
}
use crest_rtos.Alloc.{
  Heap, align_up, hdr_size, free, find_place, insert_at, insert, set_link, coalesce_next,
  coalesce_prev, rounds, header_size,
}
use crest_rtos.Alloc.Tiles.{
  Tile, taken, vacant, IsSize, Laid, Laid-room, IsMerged, block_at, block_ahead, hdr_size-taken,
}
use crest_rtos.Alloc.Place.{IsSized, Laid-IsSized}
use crest_rtos.Alloc.Mark.{freed, prev_of, IsInserted, Found, find_place-Found}
use crest_rtos.Alloc.Join.{join, Laid-join, VacantAt, next-outside, coalesce_prev-next}
use crest_rtos.Alloc.Release.{
  release, join-below, release-IsMerged, join-release, vacant-freed, prev_of-vacant, block-Laid,
}
use crest_rtos.Alloc.Malloc.{base, IsHeap}

-- The heap with the block at `a` in the free list between `prev` and `curr`, before the merges.
abbrev pub linked : Heap → ℕ → ℕ → ℕ → Heap
linked h a prev curr =
    let h1 = record h { size = update h.size a (hdr_size h a) } in
    set_link (record h1 { next = update h1.next a curr }) prev a

insert_lem :
    (h : Heap) (a prev curr : ℕ)
    → insert h a prev curr ≡ coalesce_prev (coalesce_next (linked h a prev curr) a) prev a
unfolding insert
insert_lem h a prev curr = refl

module _ (h : Heap) (a n prev curr : ℕ) (whole : hdr_size h a ≡ n) (before : prev < a) where
  linked-IsInserted : IsInserted h (linked h a prev curr) a n prev curr
  linked-IsInserted = record {
    sizes = λ b. ground (arith, whole);
    nexts = λ b pos. ground arith;
    limit = ground arith;
  }

  linked-head : (linked h a prev curr).free_list ≡ (if prev == 0 then a else h.free_list)
  linked-head = ground arith

coalesce-none : (h : Heap) (prev a : ℕ) → (prev == 0) ≡ true → coalesce_prev h prev a ≡ h
unfolding coalesce_prev
coalesce-none h prev a z = ground (arith, z)

-- The fields that the merges leave alone.
pub record IsSameHeap (h h' : Heap) : Type 0 where
  pub start : h'.start ≡ h.start
  pub limit : h'.limit ≡ h.limit
  pub inited : h'.heap_inited ≡ h.heap_inited
  pub head : h'.free_list ≡ h.free_list

coalesce-IsSameHeap : (h : Heap) (a : ℕ) → IsSameHeap h (coalesce_next h a)
unfolding coalesce_next
coalesce-IsSameHeap h a = record {
  start = ground arith;
  limit = ground arith;
  inited = ground arith;
  head = ground arith;
}

-- The last vacant block before a taken one.
prev_of-lt :
    (prev here a n : ℕ) (ts : List Tile)
    → IsSized ts
    → prev < here
    → block_at here a ts ≡ some n
    → prev_of prev here a ts < a
prev_of-lt prev here a n [] sized lt at = cc
prev_of-lt prev here a n (taken m ∷ ts) (size, sized) lt at =
    ground (arith, prev_of-lt prev (here + m) a n ts sized, block_ahead here a n (taken m ∷ ts) at)
prev_of-lt prev here a n (vacant m ∷ ts) (size, sized) lt at =
    prev_of-lt here (here + m) a n ts sized (omega (arith, size)) at

ne_of_== : (x y : ℕ) → (x == y) ≡ false → x ≢ y
ne_of_== x y e = ground arith

-- Both merges, on the heap with the block in its place.
merged-Laid :
    (g : Heap) (here a n p prev : ℕ) (ts : List Tile)
    → 0 < here
    → IsMerged ts
    → IsSized ts
    → block_at here a ts ≡ some n
    → prev ≡ prev_of 0 here a ts
    → (prev ≢ 0 → g.next prev ≡ a)
    → Laid g here p (freed here a ts)
    → (g' : Heap) × (coalesce_prev (coalesce_next g a) prev a ≡ g')
      × IsSameHeap g g'
      × Laid g' here p (release here a ts)
merged-Laid g here a n p prev ts pos m sized at is link l =
    let g1 = coalesce_next g a in
    let l1 = Laid-join g here a p (freed here a ts) pos (vacant-freed here a n ts at) l in
    let ahead = block_ahead here a n ts at in
    let before : prev < a = rw is (prev_of-lt 0 here a n ts sized pos at) in
    let result : join here prev (join here a (freed here a ts)) ≡ release here a ts =
      rw is (join-release 0 here a n ts m sized pos at) in
    elim (Bool-cases (prev == 0)) [
      | inl z ↦
          let zero : prev ≡ 0 = (==_iff prev 0).0 z in
          (
            g1,
            coalesce-none g1 prev a z,
            coalesce-IsSameHeap g a,
            subst (λ us. Laid g1 here p us)
                (sym (join-below here prev (join here a (freed here a ts)) (rw zero pos)) ∙ result)
                l1,
          )
      | inr nz ↦
          let some_prev = ne_of_== prev 0 nz in
          (
            coalesce_next g1 prev,
            coalesce_prev-next g1 prev a (omega arith)
                  (next-outside g a prev (omega arith) ∙ link some_prev)
                ∙ rw nz refl,
            both (coalesce-IsSameHeap g a) (coalesce-IsSameHeap g1 prev),
            subst (λ us. Laid (coalesce_next g1 prev) here p us) result
                (Laid-join g1 here prev p (join here a (freed here a ts)) pos
                  (there (prev_of-vacant 0 here a n ts sized at) some_prev) l1),
          )
    ]
  where
    both : {x y z : Heap} → IsSameHeap x y → IsSameHeap y z → IsSameHeap x z
    both u v = record {
      start = v.start ∙ u.start;
      limit = v.limit ∙ u.limit;
      inited = v.inited ∙ u.inited;
      head = v.head ∙ u.head;
    }

    there :
        (prev_of 0 here a ts ≡ 0)
          ⊎ VacantAt here (prev_of 0 here a ts) (join here a (freed here a ts))
        → prev ≢ 0
        → VacantAt here prev (join here a (freed here a ts))
    there (inl z) nz = absurd (nz (is ∙ z))
    there (inr v) nz = subst (λ b. VacantAt here b (join here a (freed here a ts))) (sym is) v

-- The block stands between its neighbours in the free list, before the merges.
linked-Laid :
    (h : Heap) (here a n prev curr : ℕ) (ts : List Tile)
    → 0 < here
    → hdr_size h a ≡ n
    → prev ≡ prev_of 0 here a ts
    → prev < a
    → ((h' : Heap)
        → IsInserted h h' a n (prev_of 0 here a ts) curr
        → Laid h' here (if prev_of 0 here a ts == 0 then a else h.free_list) (freed here a ts))
    → Laid (linked h a prev curr) here (linked h a prev curr).free_list (freed here a ts)
linked-Laid h here a n prev curr ts pos whole is before laid =
    let i = linked-IsInserted h a n prev curr whole before in
    rw (linked-head h a n prev curr whole before, is)
      (laid (linked h a (prev_of 0 here a ts) curr)
        (subst (λ q. IsInserted h (linked h a q curr) a n q curr) is i))

insert_at-some :
    (h : Heap) (a prev curr : ℕ) → insert_at h a (some (prev, curr)) ≡ some (insert h a prev curr)
unfolding insert_at
insert_at-some h a prev curr = refl

linked_start : (h : Heap) (a prev curr : ℕ) → (linked h a prev curr).start ≡ h.start
linked_start h a prev curr = ground arith

linked_inited : (h : Heap) (a prev curr : ℕ) → (linked h a prev curr).heap_inited ≡ h.heap_inited
linked_inited h a prev curr = ground arith

-- What stands in the way of free: nothing, for the address behind the header of a taken block.
free-valid :
    (h : Heap) (a n prev curr : ℕ)
    → h.heap_inited ≡ true
    → h.limit < 2 ^ 32
    → base h ≤ a
    → h.size a ≡ n + 1
    → IsSize n
    → a + n ≤ h.limit
    → find_place (rounds h) h a 0 h.free_list ≡ some (prev, curr)
    → free h (a + header_size) ≡ some (insert h a prev curr)
unfolding free
free-valid h a n prev curr init high low e size fits found =
    let back : (a + header_size + 2 ^ 32 - header_size) % 2 ^ 32 ≡ a = omega arith in
    let whole = hdr_size-taken h a n e size in
    let t1 : (a + header_size == 0) ≡ false = ground arith in
    let t2 : ltb a (align_up h.start) ≡ false = ground arith in
    let t3 : leb h.limit a ≡ false = ground arith in
    let t4 : ltb n header_size ≡ false = ground arith in
    let t5 : ltb h.limit ((a + n) % 2 ^ 32) ≡ false = ground arith in
    let t6 : not h.heap_inited ≡ false = ap not init in
    rw (t1, back, t2, t3, t6, whole, t4, t5)
      (ap (insert_at h a) found ∙ insert_at-some h a prev curr)

-- free, on a heap in order and for the address behind the header of the block that is taken at `a`,
-- returns a heap in order, in which that block is vacant and one with its vacant neighbours.
pub free-release :
    (h : Heap) (ts : List Tile) (a n : ℕ)
    → IsHeap h ts
    → block_at (base h) a ts ≡ some n
    → (h' : Heap) × (free h (a + header_size) ≡ some h')
      × (base h' ≡ base h)
      × IsHeap h' (release (base h) a ts)
free-release h ts a n i at =
    let b = base h in
    let sized = Laid-IsSized h b h.free_list ts i.laid in
    let room = Laid-room h b h.free_list ts i.laid in
    let (e, size, fits) = block-Laid h b h.free_list a n ts i.laid at in
    let low = block_ahead b a n ts at in
    let whole = hdr_size-taken h a n e size in
    let prev = prev_of 0 b a ts in
    let before : prev < a = prev_of-lt 0 b a n ts sized i.pos at in
    let f : Found (rounds h) h a n 0 h.free_list b ts =
      find_place-Found (rounds h) h a n 0 h.free_list b ts (omega (arith, i.low)) i.pos at i.laid in
    let g = linked h a prev f.behind in
    let ins = linked-IsInserted h a n prev f.behind whole before in
    let l = linked-Laid h b a n prev f.behind ts i.pos whole refl before f.laid in
    let (g', done, same, l') =
      merged-Laid g b a n g.free_list prev ts i.pos i.merged sized at refl
        (λ nz. ins.nexts prev (omega arith) ∙ here_test prev _) l in
    let start = same.start ∙ linked_start h a prev f.behind in
    let based : base g' ≡ b = ap align_up start in
    (
      g',
      free-valid h a n prev f.behind i.inited i.high low e size fits f.find
          ∙ ap some (insert_lem h a prev f.behind ∙ done),
      based,
      record {
        inited = same.inited ∙ linked_inited h a prev f.behind ∙ i.inited;
        low = rw (based, start) i.low;
        pos = rw based i.pos;
        high = rw (same.limit ∙ ins.limit) i.high;
        laid =
            subst (λ q. Laid g' (base g') q (release b a ts)) (sym same.head)
              (subst (λ c. Laid g' c g.free_list (release b a ts)) (sym based) l');
        merged = release-IsMerged b a ts i.merged;
      },
    )
  where
    here_test : (q x : ℕ) → (if q == q then a else x) ≡ a
    here_test q x = ground arith
