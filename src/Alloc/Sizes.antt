-- ===== src/Alloc/Sizes.antt =====
-- kernel/alloc.c: the bytes that malloc looks for.
use crest_rtos.Base.{ℕ, ◌+◌, ◌-◌, ◌^◌, ◌%◌, ◌≤◌, ◌<◌, ◌≡◌, refl, arith, ◌==◌, false, ◌⊎◌}
use crest_rtos.Alloc.{Heap, malloc, need_of, min_block_size, header_size}

-- The block that a request needs: up to 2^32 - 16 bytes it is a multiple of 8 with room for the
-- header and the bytes, less than 8 bytes larger than that or the smallest block; above that, the
-- 32-bit sum wraps and only the smallest block is asked for.
pub need_of_lem :
    (size : ℕ)
    → size < 2 ^ 32
    → (size ≤ 2 ^ 32 - 16
        → (size + header_size ≤ need_of size)
          × (need_of size % 8 ≡ 0)
          × ((need_of size < size + header_size + 8) ⊎ (need_of size ≡ min_block_size)))
      × (2 ^ 32 - 16 < size → need_of size ≡ min_block_size)
need_of_lem size lt = (λ small. ground arith, λ big. ground arith)

-- A request for more than 2^32 - 16 bytes succeeds like one for 8 bytes, with the same block.
pub malloc_wraps :
    (h : Heap) (size : ℕ) → 2 ^ 32 - 16 < size → size < 2 ^ 32 → malloc h size ≡ malloc h 8
unfolding malloc
malloc_wraps h size big lt =
    let e : need_of size ≡ need_of 8 = ground arith in
    let nz : (size == 0) ≡ false = ground arith in rw (nz, e) refl
