-- ===== src/Libc.antt =====
-- kernel/libc_stubs.c: memset, memcpy and strncpy. Memory is a byte at each address; pointers do
-- not wrap in the ranges that they are given.
use crest_rtos.Base.{ℕ, zero, suc, ◌+◌, ◌%◌, List, [], ◌∷◌, update}

-- The loop of memset.
unfoldable pub memset : (ℕ → ℕ) → ℕ → ℕ → ℕ → ℕ → ℕ
memset m p c zero = m
memset m p c (suc n) = memset (update m p (c % 256)) (p + 1) c n

-- The loop of memcpy.
unfoldable pub memcpy : (ℕ → ℕ) → ℕ → ℕ → ℕ → ℕ → ℕ
memcpy m d s zero = m
memcpy m d s (suc n) = memcpy (update m d (m s)) (d + 1) (s + 1) n

abbrev pub replicate : ℕ → ℕ → List ℕ
replicate zero a = []
replicate (suc n) a = a ∷ replicate n a

-- strncpy: the bytes that are written from `dest` on, in order, for a source text that a NUL ends.
-- At the NUL the first loop stops before `--n`, so the padding starts with `n` as it was.
unfoldable pub strncpy : List ℕ → ℕ → List ℕ
strncpy src zero = []
strncpy [] (suc n) = 0 ∷ replicate (suc n) 0
strncpy (c ∷ cs) (suc n) = c ∷ strncpy cs n
