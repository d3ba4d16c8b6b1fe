-- ===== src/Console/Fits.antt =====
-- boards/stm32f446/startup.c, Default_Handler: its messages fit into their buffer.
use crest_rtos.Base.{
  ℕ, zero, suc, ◌+◌, ◌≤◌, ◌<◌, ◌^◌, Bool, true, false, Option, none, some, Ptr, List, [], ◌∷◌, ◌++◌,
  ◌>>=◌, length, ◌≡◌, refl, ap, ◌∙◌, arith, All, ◌/◌, ◌%◌, ◌==◌, if◌then◌else◌,
}
use crest_rtos.Kernel.{Kernel}
use crest_rtos.Format.{text}
use crest_rtos.Format.Spec.{Directive, parse, full_text, directives_text, take, kept}
use crest_rtos.Format.Truncate.{vsnprintf-full_text}
use crest_rtos.Format.Widths.{widths, Supplied, directives_text-Within}
use crest_rtos.Console.{
  Output, plain, printed, Message, message, formatted, FaultState, stacked_messages, stacked_at,
  task_message, default_handler, codes,
}

take_all : (n : ℕ) (t : List ℕ) → length t ≤ n → take n t ≡ t
take_all n [] h = refl
take_all zero (x ∷ t) h = ground (arith, h)
take_all (suc n) (x ∷ t) h = ap (λ t. x ∷ t) (take_all n t (omega (arith, h)))

-- What snprintf is called for stands in the buffer whole, with its NUL.
abbrev pub Fits : (ℕ → List ℕ) → Output → Type 0
Fits text_at (plain t) = Unit
Fits text_at (printed m) =
    (t : List ℕ) × (full_text text_at m.format m.args ≡ some t)
    × (length t < 128)
    × (formatted text_at m ≡ some (t ++ (0 ∷ []), length t))

abbrev or_nothing : Option (List Directive) → List Directive
or_nothing none = []
or_nothing (some ds) = ds

directives : Message → List Directive
unfolding parse
directives m = or_nothing (parse text m.format)

-- A format whose directives are supplied and at most 127 characters wide.
record Narrow (m : Message) : Type 0 where
  parsed : parse text m.format ≡ some (directives m)
  narrow : widths (directives m) ≤ 127
  supplied : Supplied (directives m) m.args

module _ (text_at : ℕ → List ℕ) (short : (p : ℕ) → length (text_at p) ≤ 15) where
  Narrow-Fits : (m : Message) → Narrow m → Fits text_at (printed m)
  unfolding full_text
  Narrow-Fits m n =
      let (t, left, e, h) = directives_text-Within text_at short (directives m) m.args n.supplied in
      let whole : full_text text_at m.format m.args ≡ some t =
        ap (λ o. do ds ← o; (t, left) ← directives_text text_at ds m.args; some t) n.parsed
        ∙ ap (λ o. do (t, left) ← o; some t) e in
      (
        t,
        whole,
        omega (arith, h, n.narrow),
        vsnprintf-full_text text_at 128 m.format m.args
            ∙ ap (λ o. do t ← o; some (kept 128 t, length t)) whole
            ∙ ap (λ u. some (u ++ (0 ∷ []), length t))
                (take_all 127 t (omega (arith, h, n.narrow))),
      )

-- A number of 32 bits.
abbrev Word : ℕ → Type 0
Word v = v < 2 ^ 32

exc_return-Narrow : (v : ℕ) → Word v → Narrow (message "EXC_RETURN=0x%lx\n" (v ∷ []))
unfolding parse directives
exc_return-Narrow v h = record { parsed = refl; narrow = omega arith; supplied = (h, tt) }

four-Narrow :
    (a b c d : ℕ)
    → Word a
    → Word b
    → Word c
    → Word d
    → Narrow (message "R0=%lx R1=%lx R2=%lx R3=%lx\n" (a ∷ b ∷ c ∷ d ∷ []))
      × Narrow (message "R12=%lx LR=%lx PC=%lx xPSR=%lx\n" (a ∷ b ∷ c ∷ d ∷ []))
      × Narrow (message "CFSR=0x%lx HFSR=0x%lx MMFAR=0x%lx BFAR=0x%lx\n" (a ∷ b ∷ c ∷ d ∷ []))
unfolding parse directives
four-Narrow a b c d ha hb hc hd = (
  record { parsed = refl; narrow = omega arith; supplied = (ha, (hb, (hc, (hd, tt)))) },
  record { parsed = refl; narrow = omega arith; supplied = (ha, (hb, (hc, (hd, tt)))) },
  record { parsed = refl; narrow = omega arith; supplied = (ha, (hb, (hc, (hd, tt)))) },
)

sp-Narrow : (v : ℕ) → Word v → Narrow (message "Stack frame @ %p\n" (v ∷ []))
unfolding parse directives
sp-Narrow v h = record { parsed = refl; narrow = omega arith; supplied = (h, tt) }

task-Narrow :
    (a b : ℕ) → Word a → Word b → Narrow (message "Current task: %s\n SP(%p)\n" (a ∷ b ∷ []))
unfolding parse directives
task-Narrow a b ha hb = record { parsed = refl; narrow = omega arith; supplied = (ha, (hb, tt)) }

abbrev IsNarrow : Output → Type 0
IsNarrow (plain t) = Unit
IsNarrow (printed m) = Narrow m

-- The registers and the memory hold words.
pub record IsWords (k : Kernel) (name_at : ℕ → ℕ) (f : FaultState) : Type 0 where
  pub exc_return : Word f.exc_return
  pub msp : Word f.msp
  pub psp : Word f.psp
  pub cfsr : Word f.cfsr
  pub hfsr : Word f.hfsr
  pub mmfar : Word f.mmfar
  pub bfar : Word f.bfar
  pub memory : (a : ℕ) → Word (k.word a)
  pub names : (t : ℕ) → Word (name_at t)
  pub pointers : (t : ℕ) → Word (k.tcb t).stack_pointer

All-append {ℓ κ} :
    {A : Type ℓ} (P : A → Type κ) (xs ys : List A) → All P xs → All P ys → All P (xs ++ ys)
All-append P [] ys h g = g
All-append P (x ∷ xs) ys (p, h) g = (p, All-append P xs ys h g)

module _ (k : Kernel) (name_at : ℕ → ℕ) (f : FaultState) (w : IsWords k name_at f) where
  stacked-Word : (b : Bool) → Word (if b then f.msp else f.psp)
  stacked-Word true = w.msp
  stacked-Word false = w.psp

  stacked-Narrow : (sp : ℕ) → Word sp → All IsNarrow (stacked_messages k.word sp)
  stacked-Narrow sp h = none_or (sp == 0)
    where
      some_messages : List Output
      some_messages =
          printed (message "Stack frame @ %p\n" (sp ∷ []))
          ∷ printed (
              message "R0=%lx R1=%lx R2=%lx R3=%lx\n"
                (k.word sp ∷ k.word (sp + 4) ∷ k.word (sp + 8) ∷ k.word (sp + 12) ∷ []))
          ∷ printed (
              message "R12=%lx LR=%lx PC=%lx xPSR=%lx\n"
                (k.word (sp + 16) ∷ k.word (sp + 20) ∷ k.word (sp + 24) ∷ k.word (sp + 28) ∷ []))
          ∷ []

      none_or : (b : Bool) → All IsNarrow (if b then [] else some_messages)
      none_or true = tt
      none_or false =
          let (first, _, _) =
            four-Narrow (k.word sp) (k.word (sp + 4)) (k.word (sp + 8)) (k.word (sp + 12))
              (w.memory sp) (w.memory (sp + 4)) (w.memory (sp + 8)) (w.memory (sp + 12)) in
          let (_, second, _) =
            four-Narrow (k.word (sp + 16)) (k.word (sp + 20)) (k.word (sp + 24)) (k.word (sp + 28))
              (w.memory (sp + 16)) (w.memory (sp + 20)) (w.memory (sp + 24)) (w.memory (sp + 28)) in
          (sp-Narrow sp h, (first, (second, tt)))

  current-Narrow : (cur : Ptr) → IsNarrow (task_message k name_at cur)
  current-Narrow none = tt
  current-Narrow (some t) =
      task-Narrow (name_at t) (k.tcb t).stack_pointer (w.names t) (w.pointers t)

  messages-Narrow : All IsNarrow (default_handler k name_at f)
  unfolding default_handler
  messages-Narrow =
      let (_, _, status) = four-Narrow f.cfsr f.hfsr f.mmfar f.bfar w.cfsr w.hfsr w.mmfar w.bfar in
      All-append IsNarrow
        (plain (codes "HARD FAULT!\n")
          ∷ printed (message "EXC_RETURN=0x%lx\n" (f.exc_return ∷ []))
          ∷ stacked_messages k.word (stacked_at f))
        _
        (
          tt,
          (
            exc_return-Narrow f.exc_return w.exc_return,
            stacked-Narrow (stacked_at f) (stacked-Word (f.exc_return / 4 % 2 == 0)),
          ),
        )
        (status, (current-Narrow k.current_task, tt))

All-map {ℓ κ μ} :
    {A : Type ℓ} (P : A → Type κ) (Q : A → Type μ) (xs : List A)
    → ((x : A) → P x → Q x)
    → All P xs
    → All Q xs
All-map P Q [] f h = tt
All-map P Q (x ∷ xs) f (p, h) = (f x p, All-map P Q xs f h)

-- Whatever the registers and the memory hold, with task names of at most 15 characters: every
-- call of snprintf in Default_Handler has a whole text of less than 128 characters, and leaves it in
-- the buffer of 128 bytes uncut, with its NUL.
pub default_handler-Fits :
    (text_at : ℕ → List ℕ) (k : Kernel) (name_at : ℕ → ℕ) (f : FaultState)
    → ((p : ℕ) → length (text_at p) ≤ 15)
    → IsWords k name_at f
    → All (Fits text_at) (default_handler k name_at f)
default_handler-Fits text_at k name_at f short w =
    All-map IsNarrow (Fits text_at) (default_handler k name_at f) fitting
      (messages-Narrow k name_at f w)
  where
    fitting : (o : Output) → IsNarrow o → Fits text_at o
    fitting (plain t) n = tt
    fitting (printed m) n = Narrow-Fits text_at short m n
