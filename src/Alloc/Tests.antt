-- ===== src/Alloc/Tests.antt =====
-- The allocator on concrete heaps.
use crest_rtos.Base.{
  ℕ, refl, true, some, [], ◌∷◌, update, ◌+◌, ◌-◌, ◌^◌, ◌%◌, ◌≡◌, ◌≤◌, ◌<◌, ◌⊎◌, arith, false,
}
use crest_rtos.Alloc.Tiles.{taken, vacant}
use crest_rtos.Alloc.Release.{release}
use crest_rtos.Alloc.Malloc.{
  base, IsHeap, Allocated, block_bytes, heap_init-IsHeap, malloc-Allocated,
}
use crest_rtos.Alloc.Free.{free-release}
use crest_rtos.Alloc.RoundTrip.{free-malloc}
use crest_rtos.Alloc.{heap_init, free, Heap, malloc, need_of, min_block_size, header_size}
use crest_rtos.Alloc.Sizes.{need_of_lem, malloc_wraps}

-- A heap of 4096 bytes that has not been used.
abbrev fresh : Heap
fresh = record {
  start = 0x2000_1004;
  limit = 0x2000_2000;
  free_list = 0;
  heap_inited = false;
  size = λ _. 0;
  next = λ _. 0;
}

need_of_twenty :
    (20 ≤ 2 ^ 32 - 16
      → (20 + header_size ≤ need_of 20)
        × (need_of 20 % 8 ≡ 0)
        × ((need_of 20 < 20 + header_size + 8) ⊎ (need_of 20 ≡ min_block_size)))
    × (2 ^ 32 - 16 < 20 → need_of 20 ≡ min_block_size)
need_of_twenty = need_of_lem 20 (omega arith)

huge_request : malloc fresh 0xffff_fffa ≡ malloc fresh 8
huge_request = malloc_wraps fresh 0xffff_fffa (omega arith) (omega arith)

fresh-IsHeap :
    IsHeap (heap_init fresh) (vacant (fresh.limit - base fresh) ∷ [])
    × (malloc fresh 20 ≡ malloc (heap_init fresh) 20)
fresh-IsHeap =
    heap_init-IsHeap fresh 20 (omega arith) refl (omega arith) (omega arith) (omega arith)
      (omega arith)

-- The heap that the first call finds.
abbrev started : Heap
started = record fresh {
  free_list = 0x2000_1008;
  heap_inited = true;
  size = update fresh.size 0x2000_1008 4088;
}

started-IsHeap : IsHeap started (vacant 4088 ∷ [])
started-IsHeap = record {
  inited = refl;
  low = omega arith;
  pos = omega arith;
  high = omega arith;
  laid = (refl, (omega arith, refl), refl, (refl, refl));
  merged = tt;
}

malloc-Allocated_example :
    (h' : Heap) × (q : ℕ) × (malloc started 20 ≡ some (h', q))
    × Allocated started (vacant 4088 ∷ []) (block_bytes 20) h' q
malloc-Allocated_example =
    malloc-Allocated started (vacant 4088 ∷ []) 20 started-IsHeap (omega arith) (omega arith)

free-malloc_example :
    (h' : Heap) × (q : ℕ) × (malloc started 20 ≡ some (h', q))
    × (h'' : Heap) × (free h' q ≡ some h'')
    × IsHeap h'' (vacant 4088 ∷ [])
free-malloc_example =
    free-malloc started (vacant 4088 ∷ []) 20 started-IsHeap (omega arith) (omega arith)

-- Two blocks are taken, and behind them the rest is vacant.
abbrev two_blocks : Heap
two_blocks = record started {
  free_list = 0x2000_1038;
  size = update (update (update fresh.size 0x2000_1008 33) 0x2000_1028 17) 0x2000_1038 4040;
}

two_blocks-IsHeap : IsHeap two_blocks (taken 32 ∷ taken 16 ∷ vacant 4040 ∷ [])
two_blocks-IsHeap = record {
  inited = refl;
  low = omega arith;
  pos = omega arith;
  high = omega arith;
  laid = (
    refl,
    (omega arith, refl),
    (refl, (omega arith, refl), (refl, (omega arith, refl), refl, (refl, refl))),
  );
  merged = tt;
}

free-release_example :
    (h' : Heap) × (free two_blocks (0x2000_1028 + header_size) ≡ some h')
    × (base h' ≡ base two_blocks)
    × IsHeap h' (release (base two_blocks) 0x2000_1028 (taken 32 ∷ taken 16 ∷ vacant 4040 ∷ []))
free-release_example =
    free-release two_blocks (taken 32 ∷ taken 16 ∷ vacant 4040 ∷ []) 0x2000_1028 16
      two_blocks-IsHeap refl

release_merges :
    release 0x2000_1008 0x2000_1028 (taken 32 ∷ taken 16 ∷ vacant 4040 ∷ [])
    ≡ taken 32 ∷ vacant 4056 ∷ []
release_merges = refl
