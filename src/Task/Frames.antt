-- ===== src/Task/Frames.antt =====
-- kernel/task.c: the first frame on the stack of a new task.
use crest_rtos.Base.{
  ℕ, zero, suc, ◌+◌, ◌-◌, ◌*◌, ◌%◌, ◌^◌, ◌≤◌, ◌<◌, ◌≡◌, ◌∙◌, ◌⊎◌, inl, inr, refl, arith, List, [],
  ◌∷◌, some, length, get_elem?, update,
}
use crest_rtos.Task.{push_words, initial_frame, stack_top, stack_init}

-- Words outside the pushed range stay as they were.
push_words-outside :
    (m : ℕ → ℕ) (sp : ℕ) (vs : List ℕ) (a : ℕ)
    → 4 * length vs ≤ sp
    → (sp ≤ a) ⊎ (a < sp - 4 * length vs)
    → push_words m sp vs a ≡ m a
push_words-outside m sp [] a fits out = refl
push_words-outside m sp (v ∷ vs) a fits out =
    push_words-outside (update m (sp - 4) v) (sp - 4) vs a (omega (arith, fits)) (later out)
    ∙ ground (arith, out, fits)
  where
    later : (sp ≤ a) ⊎ (a < sp - 4 * suc (length vs)) → (sp - 4 ≤ a) ⊎ (a < sp - 4 - 4 * length vs)
    later (inl ge) = inl (omega (arith, ge))
    later (inr lt) = inr (omega (arith, lt))

-- The word of index `i` stands `i + 1` words below the start.
push_words-at :
    (m : ℕ → ℕ) (sp : ℕ) (vs : List ℕ) (i v a : ℕ)
    → 4 * length vs ≤ sp
    → get_elem? vs i ≡ some v
    → a + 4 * (i + 1) ≡ sp
    → push_words m sp vs a ≡ v
push_words-at m sp [] i v a fits e at = cc
push_words-at m sp (w ∷ vs) zero v a fits e at =
    push_words-outside (update m (sp - 4) w) (sp - 4) vs a (omega (arith, fits))
      (inl (omega (arith, at)))
    ∙ ground (arith, at, e)
push_words-at m sp (w ∷ vs) (suc i) v a fits e at =
    push_words-at (update m (sp - 4) w) (sp - 4) vs i v a (omega (arith, fits)) e
      (omega (arith, at, fits))

-- The frame at `sp` of a stack of `size` bytes at `base`: 64 bytes below the top, with the
-- argument in R0, the task's function in PC and the Thumb bit in xPSR; no other word is written.
pub record IsFrame (m m' : ℕ → ℕ) (base size task_fn arg sp : ℕ) : Type 0 where
  pub top : sp + 64 ≡ base + size
  pub r0 : m' (sp + 32) ≡ arg
  pub pc : m' (sp + 56) ≡ task_fn
  pub psr : m' (sp + 60) ≡ 0x0100_0000
  pub kept : (a : ℕ) → (base + size ≤ a) ⊎ (a < sp) → m' a ≡ m a

top_lem :
    (base size : ℕ)
    → base % 8 ≡ 0
    → size % 8 ≡ 0
    → base + size < 2 ^ 32
    → stack_top base size ≡ base + size
top_lem base size ab sa fits = omega arith

-- stack_init, of a stack aligned to 8 bytes that ends at 64 or above and does not reach past the
-- address space, writes such a frame; a stack of 64 bytes or more holds it, and in a smaller one
-- the stack pointer lies below the stack.
pub stack_init-IsFrame :
    (m : ℕ → ℕ) (base size task_fn arg : ℕ)
    → base % 8 ≡ 0
    → size % 8 ≡ 0
    → 64 ≤ base + size
    → base + size < 2 ^ 32
    → IsFrame m
        (stack_init m base size task_fn arg).0
        base
        size
        task_fn
        arg
        (stack_init m base size task_fn arg).1
      × (64 ≤ size → base ≤ (stack_init m base size task_fn arg).1)
      × (size < 64 → (stack_init m base size task_fn arg).1 < base)
unfolding stack_init
stack_init-IsFrame m base size task_fn arg ab sa low fits = rw (top_lem base size ab sa fits) (
  record {
    top = omega arith;
    r0 =
        push_words-at m (base + size) (initial_frame task_fn arg) 7 arg (base + size - 64 + 32)
          (omega arith) refl (omega arith);
    pc =
        push_words-at m (base + size) (initial_frame task_fn arg) 1 task_fn (base + size - 64 + 56)
          (omega arith) refl (omega arith);
    psr =
        push_words-at m (base + size) (initial_frame task_fn arg) 0 0x0100_0000
          (base + size - 64 + 60) (omega arith) refl (omega arith);
    kept =
        λ a out. push_words-outside m (base + size) (initial_frame task_fn arg) a (omega arith) out;
  },
  λ big. omega arith,
  λ small. omega arith,
)
