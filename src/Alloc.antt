-- ===== src/Alloc.antt =====
-- kernel/alloc.c and its copy kernel/user_alloc.c: the first-fit allocators. Addresses and sizes
-- are 32-bit numbers, 0 is NULL; `size` and `next` are the header fields at each address. The
-- linker's bounds are the fields `start` and `limit`. The loops run on fuel, more rounds than the
-- heap has 8-byte units; `none` means that the free list is cyclic.
pub mod Sizes
pub mod Tiles
pub mod Take
pub mod Place
pub mod Mark
pub mod Join
pub mod Release
pub mod Malloc
pub mod Room
pub mod Free
pub mod RoundTrip
mod Tests
use crest_rtos.Base.{
  ℕ, zero, suc, ◌+◌, ◌-◌, ◌*◌, ◌/◌, ◌%◌, ◌^◌, Bool, true, not, ◌||◌, ◌&&◌, Option, none, some, ltb,
  leb, ◌==◌, if◌then◌else◌, update,
}

-- sizeof(block_header_t) and MIN_BLOCK_SIZE, with 32-bit `size_t` and pointers
abbrev pub header_size : ℕ
header_size = 8

abbrev pub min_block_size : ℕ
min_block_size = 16

-- The statics of the file, the headers in the heap, and the linker's symbols.
pub record Heap : Type 0 where
  pub start : ℕ
  pub limit : ℕ
  pub free_list : ℕ
  pub heap_inited : Bool
  pub size : ℕ → ℕ
  pub next : ℕ → ℕ

-- `(x + ALIGN_MASK) & ~ALIGN_MASK` on uint32_t
abbrev pub align_up : ℕ → ℕ
align_up x = (x + 7) % 2 ^ 32 / 8 * 8

-- hdr_size: the size without its lowest bit
abbrev pub hdr_size : Heap → ℕ → ℕ
hdr_size h a = h.size a / 2 * 2

-- `n | 1`
abbrev pub mark_allocated : ℕ → ℕ
mark_allocated n = n / 2 * 2 + 1

-- heap_init
unfoldable pub heap_init : Heap → Heap
heap_init h =
    if leb h.limit (align_up h.start)
    then record h { heap_inited = true; free_list = 0 }
    else record h {
      free_list = align_up h.start;
      size = update h.size (align_up h.start) (h.limit - align_up h.start);
      next = update h.next (align_up h.start) 0;
      heap_inited = true;
    }

-- `if (prev) prev->next = q; else free_list = q;`
abbrev pub set_link : Heap → ℕ → ℕ → Heap
set_link h prev q =
    if prev == 0 then record h { free_list = q } else record h { next = update h.next prev q }

-- The block `curr` is cut: `need` bytes are allocated, the rest is a free block in its place.
unfoldable pub split : Heap → ℕ → ℕ → ℕ → Heap
split h need prev curr =
    let n = curr + need in
    let h1 = record h {
      size = update h.size n (hdr_size h curr - need);
      next = update h.next n (h.next curr);
    } in
    let h2 = set_link h1 prev n in record h2 { size = update h2.size curr (mark_allocated need) }

-- The whole block `curr` is allocated.
unfoldable pub take_whole : Heap → ℕ → ℕ → Heap
take_whole h prev curr =
    let h1 = set_link h prev (h.next curr) in
    record h1 { size = update h1.size curr (mark_allocated (hdr_size h curr)) }

-- The loop of malloc.
unfoldable pub first_fit : ℕ → Heap → ℕ → ℕ → ℕ → Option (Heap × ℕ)
unfolding split take_whole
first_fit zero h need prev curr = none
first_fit (suc fuel) h need prev curr =
    let rest = first_fit fuel h need curr (h.next curr) in
    let fitting =
      if leb min_block_size (hdr_size h curr - need)
      then split h need prev curr
      else take_whole h prev curr in
    if curr == 0
    then some (h, 0)
    else if leb need (hdr_size h curr)
    then some (fitting, curr + header_size)
    else rest

abbrev pub rounds : Heap → ℕ
rounds h = (h.limit - h.start) / 8 + 2

abbrev pub ready : Heap → Heap
ready h = if h.heap_inited then h else heap_init h

-- The bytes that a request takes with its header, on uint32_t.
abbrev pub need_of : ℕ → ℕ
need_of size =
    let need = (align_up size + header_size) % 2 ^ 32 in
    if ltb need min_block_size then min_block_size else need

-- malloc
unfoldable pub malloc : Heap → ℕ → Option (Heap × ℕ)
unfolding first_fit heap_init
malloc h size =
    if size == 0
    then some (h, 0)
    else first_fit (rounds (ready h)) (ready h) (need_of size) 0 (ready h).free_list

-- The loop of free that finds the neighbours of `hdr` in the sorted list.
unfoldable pub find_place : ℕ → Heap → ℕ → ℕ → ℕ → Option (ℕ × ℕ)
find_place zero h hdr prev curr = none
find_place (suc fuel) h hdr prev curr =
    let rest = find_place fuel h hdr curr (h.next curr) in
    if not (curr == 0) && ltb curr hdr then rest else some (prev, curr)

-- `hdr` swallows the block behind it, if that one is adjacent.
unfoldable pub coalesce_next : Heap → ℕ → Heap
coalesce_next h hdr =
    let n = h.next hdr in
    if not (n == 0) && hdr + hdr_size h hdr == n
    then record h {
      size = update h.size hdr (hdr_size h hdr + hdr_size h n);
      next = update h.next hdr (h.next n);
    }
    else h

-- `prev` swallows `hdr`, if that one is adjacent.
unfoldable pub coalesce_prev : Heap → ℕ → ℕ → Heap
coalesce_prev h prev hdr =
    if not (prev == 0) && prev + hdr_size h prev == hdr
    then record h {
      size = update h.size prev (hdr_size h prev + hdr_size h hdr);
      next = update h.next prev (h.next hdr);
    }
    else h

-- The block goes into the free list between `prev` and `curr`.
unfoldable pub insert : Heap → ℕ → ℕ → ℕ → Heap
unfolding coalesce_next coalesce_prev
insert h hdr prev curr =
    let h1 = record h { size = update h.size hdr (hdr_size h hdr) } in
    let h2 = set_link (record h1 { next = update h1.next hdr curr }) prev hdr in
    coalesce_prev (coalesce_next h2 hdr) prev hdr

-- The end of free, at the place that was found.
unfoldable pub insert_at : Heap → ℕ → Option (ℕ × ℕ) → Option Heap
insert_at h hdr none = none
insert_at h hdr (some (prev, curr)) = some (insert h hdr prev curr)

-- free: a pointer that fails a validation is ignored.
unfoldable pub free : Heap → ℕ → Option Heap
free h ptr =
    let hdr = (ptr + 2 ^ 32 - header_size) % 2 ^ 32 in
    if ptr == 0
    then some h
    else if ltb hdr (align_up h.start) || leb h.limit hdr
    then some h
    else if not h.heap_inited
    then some h
    else if ltb (hdr_size h hdr) header_size || ltb h.limit ((hdr + hdr_size h hdr) % 2 ^ 32)
    then some h
    else insert_at h hdr (find_place (rounds h) h hdr 0 h.free_list)

-- user_malloc and user_free, the same code over the user heap
unfoldable pub user_malloc : Heap → ℕ → Option (Heap × ℕ)
unfolding malloc
user_malloc = malloc

unfoldable pub user_free : Heap → ℕ → Option Heap
unfolding free
user_free = free
