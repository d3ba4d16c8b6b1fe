-- ===== src/Dispatch/Sizes.antt =====
-- kernel/queue.c, queue_init: the bytes that it asks the allocator for.
use crest_rtos.Base.{ℕ, ◌==◌, Option, some, if◌then◌else◌, ◌>>=◌}
use crest_rtos.Kernel.{set_queue}
use crest_rtos.Sync.{Status, success, failure}
use crest_rtos.Alloc.{malloc}
use crest_rtos.Dispatch.{System, with_kernel, fresh_queue}

-- The fields of the queue at `p` are set.
abbrev pub started_queue : System → ℕ → ℕ → ℕ → System
started_queue s p item_size size =
    with_kernel s (set_queue s.kernel p (fresh_queue s.kernel p item_size size))

-- Setting up the queue at `p` with a buffer of `bytes` bytes, or without one if malloc gives none.
abbrev pub allot : System → ℕ → ℕ → ℕ → ℕ → Option (System × Status)
allot s p item_size size bytes = do
  (h, b) ← malloc s.heap bytes
  some (record (started_queue s p item_size size) { heap = h }, if b == 0 then failure else success)
