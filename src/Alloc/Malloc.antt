-- ===== src/Alloc/Malloc.antt =====
-- kernel/alloc.c: malloc on a heap in order.
use crest_rtos.Base.{
  ℕ, ◌+◌, ◌-◌, ◌*◌, ◌/◌, ◌%◌, ◌^◌, ◌≤◌, ◌<◌, ◌≡◌, ◌≢◌, refl, arith, List, [], ◌∷◌, true, false,
  Option, none, some, ◌==◌, if◌then◌else◌, ap, sym, subst, ◌∙◌, ◌⊎◌, inl, inr, suc, zero,
}
use crest_rtos.Alloc.{
  Heap, align_up, need_of, malloc, ready, rounds, first_fit, header_size, heap_init,
}
use crest_rtos.Alloc.Tiles.{Tile, vacant, IsSize, Laid, Laid-room, IsMerged}
use crest_rtos.Alloc.Take.{place, Outcome, first_fit-Outcome}
use crest_rtos.Alloc.Place.{IsShort, IsPlacement, Places, Laid-IsSized, place-Places}

-- The first address that the allocator uses.
abbrev pub base : Heap → ℕ
base h = align_up h.start

-- A heap in order: the memory from the aligned start to the limit is filled by the blocks `ts`, the
-- free list leads through the vacant ones by their addresses, and no two of these are neighbours.
pub record IsHeap (h : Heap) (ts : List Tile) : Type 0 where
  pub inited : h.heap_inited ≡ true
  pub low : h.start ≤ base h
  pub pos : 0 < base h
  pub high : h.limit < 2 ^ 32
  pub laid : Laid h (base h) h.free_list ts
  pub merged : IsMerged ts

-- What malloc promises: with a block for the request it returns the address behind the block's
-- header, the block is taken as `IsPlacement` says and the heap is in order; without one it returns
-- NULL, the heap is as it was, and every vacant block is too small.
abbrev pub Allocated : Heap → List Tile → ℕ → Heap → ℕ → Type 0
Allocated h ts need h' q =
    ((q ≡ 0) × (h' ≡ h) × IsShort need ts)
    ⊎ ((a : ℕ) × (ts' : List Tile) × (q ≡ a + header_size)
        × IsHeap h' ts'
        × (base h' ≡ base h)
        × (place need (base h) ts ≡ some (a, ts'))
        × IsPlacement need (base h) ts a ts')

need-IsSize : (size : ℕ) → size ≤ 2 ^ 32 - 16 → IsSize (need_of size)
need-IsSize size small = (ground arith, ground arith)

malloc-ready :
    (h g : Heap) (size : ℕ)
    → 0 < size
    → ready h ≡ g
    → malloc h size ≡ first_fit (rounds g) g (need_of size) 0 g.free_list
unfolding malloc
malloc-ready h g size pos e =
    let nz : (size == 0) ≡ false = ground arith in
    rw nz (ap (λ (f : Heap). first_fit (rounds f) f (need_of size) 0 f.free_list) e)

malloc-inited :
    (h : Heap) (size : ℕ)
    → 0 < size
    → h.heap_inited ≡ true
    → malloc h size ≡ first_fit (rounds h) h (need_of size) 0 h.free_list
malloc-inited h size pos e = malloc-ready h h size pos (rw e refl)

Allocated-of_Outcome :
    (h : Heap) (ts : List Tile) (need : ℕ) (o : Option (ℕ × List Tile)) (r : Option (Heap × ℕ))
    → IsHeap h ts
    → place need (base h) ts ≡ o
    → Places need (base h) ts o
    → Outcome h 0 (base h) o r
    → (h' : Heap) × (q : ℕ) × (r ≡ some (h', q)) × Allocated h ts need h' q
Allocated-of_Outcome h ts need none r i e f out = (h, 0, out, inl (refl, refl, f))
Allocated-of_Outcome h ts need (some (a, ts')) r i e f (h', p, out, re, l) =
    let same : base h' ≡ base h = ap align_up re.start in
    (
      h',
      a + header_size,
      out,
      inr (
        a,
        ts',
        refl,
        record {
          inited = re.inited ∙ i.inited;
          low = rw (same, re.start) i.low;
          pos = rw same i.pos;
          high = rw re.limit i.high;
          laid =
              subst (λ q. Laid h' (base h') q ts') (sym re.link)
                (subst (λ b. Laid h' b p ts') (sym same) l);
          merged = f.merged i.merged;
        },
        same,
        e,
        f,
      ),
    )

pub malloc-need :
    (h : Heap) (ts : List Tile) (size : ℕ)
    → IsHeap h ts
    → 0 < size
    → size ≤ 2 ^ 32 - 16
    → (h' : Heap) × (q : ℕ) × (malloc h size ≡ some (h', q)) × Allocated h ts (need_of size) h' q
malloc-need h ts size i pos small =
    let need = need_of size in
    let fit = need-IsSize size small in
    let room = Laid-room h (base h) h.free_list ts i.laid in
    let (h', q, e, f) =
      Allocated-of_Outcome h ts need (place need (base h) ts)
        (first_fit (rounds h) h need 0 h.free_list) i refl
        (place-Places need (base h) ts (omega (arith, fit.0))
          (Laid-IsSized h (base h) h.free_list ts i.laid))
        (first_fit-Outcome (rounds h) h need 0 h.free_list (base h) ts (omega (arith, i.low)) fit
          i.pos refl i.laid) in
    (h', q, malloc-inited h size pos i.inited ∙ e, f)

-- The bytes of a block for a request: the request and the 8 bytes of the header, rounded up to a
-- multiple of 8.
abbrev pub block_bytes : ℕ → ℕ
block_bytes size = (size + 8 + 7) / 8 * 8

pub need_of-block_bytes :
    (size : ℕ) → 0 < size → size ≤ 2 ^ 32 - 16 → need_of size ≡ block_bytes size
need_of-block_bytes size pos small = ground arith

-- malloc, on a heap in order and for a request of 1 to 2^32 - 16 bytes, returns. With a vacant block
-- that has room for the request and the header, rounded up to a multiple of 8, it returns the
-- address 8 bytes into the block, which is taken as `IsPlacement` says, and the heap is in order;
-- without one it returns NULL, and the heap is as it was.
pub malloc-Allocated :
    (h : Heap) (ts : List Tile) (size : ℕ)
    → IsHeap h ts
    → 0 < size
    → size ≤ 2 ^ 32 - 16
    → (h' : Heap) × (q : ℕ) × (malloc h size ≡ some (h', q))
      × Allocated h ts (block_bytes size) h' q
malloc-Allocated h ts size i pos small =
    let (h', q, e, f) = malloc-need h ts size i pos small in
    (h', q, e, subst (λ need. Allocated h ts need h' q) (need_of-block_bytes size pos small) f)

IsHeap-init :
    (h : Heap)
    → h.start + 7 < 2 ^ 32
    → h.limit < 2 ^ 32
    → 0 < h.start
    → IsSize (h.limit - base h)
    → IsHeap (heap_init h) (vacant (h.limit - base h) ∷ [])
unfolding heap_init
IsHeap-init h low high pos size =
    let some_room : crest_rtos.Base.leb h.limit (base h) ≡ false = ground arith in
    rw some_room (record {
      inited = refl;
      low = omega arith;
      pos = omega arith;
      high = high;
      laid = (ground arith, size, refl, (omega (arith, size), ground arith));
      merged = tt;
    })

heap_init-inited : (h : Heap) → (heap_init h).heap_inited ≡ true
unfolding heap_init
heap_init-inited h = ground arith

malloc-first :
    (h : Heap) (size : ℕ)
    → 0 < size
    → h.heap_inited ≡ false
    → malloc h size ≡ malloc (heap_init h) size
malloc-first h size pos unused =
    malloc-ready h (heap_init h) size pos (rw unused refl)
    ∙ sym (malloc-inited (heap_init h) size pos (heap_init-inited h))

-- heap_init, where the aligned start leaves a multiple of 8 bytes, 16 or more, up to the limit, puts
-- the heap in order as one vacant block; the first call of malloc goes on from there.
pub heap_init-IsHeap :
    (h : Heap) (size : ℕ)
    → 0 < size
    → h.heap_inited ≡ false
    → h.start + 7 < 2 ^ 32
    → h.limit < 2 ^ 32
    → 0 < h.start
    → IsSize (h.limit - base h)
    → IsHeap (heap_init h) (vacant (h.limit - base h) ∷ [])
      × (malloc h size ≡ malloc (heap_init h) size)
heap_init-IsHeap h size some_size unused low high pos fit =
    (IsHeap-init h low high pos fit, malloc-first h size some_size unused)
