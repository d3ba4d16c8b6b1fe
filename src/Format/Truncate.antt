-- ===== src/Format/Truncate.antt =====
-- kernel/libc_stubs.c: vsnprintf is the printer of Format/Spec, cut to the buffer.
use crest_rtos.Base.{
  ℕ, zero, suc, ◌-◌, true, Option, none, some, ◌==◌, ltb, length, if◌then◌else◌, List, [], ◌∷◌,
  ◌++◌, ◌>>=◌, ◌≡◌, refl, sym, ap, ◌∙◌, arith, inl, inr, Bool-cases,
}
use mathlib.Core.List.{append_assoc, append-nil}
use crest_rtos.Format.{
  Mode, text, percent, long, Printer, emit_char, convert, run, vsnprintf, with_sink,
}
use crest_rtos.Format.Spec.{
  Directive, literal, directive, behind, parse, directive_text, directives_text, full_text, take,
  kept,
}
use crest_rtos.Format.Sinks.{
  sink_of, after, after_all, at_printer, printer, emit_char-shows, convert-after,
}

-- A run in a mode, and the printer it ends in, from any text and arguments.
abbrev Agrees : (ℕ → List ℕ) → ℕ → (Printer → Option Printer) → Option (List Directive) → Type 0
Agrees text_at a k ds =
    (xs args : List ℕ) → k (at_printer a xs args) ≡ after_all text_at ds a xs args

after-both :
    (a : ℕ) (xs t : List ℕ) (rest : Option (List ℕ × List ℕ))
    → after a (xs ++ t) rest ≡ after a xs (do (ts, left) ← rest; some (t ++ ts, left))
after-both a xs t none = refl
after-both a xs t (some (ts, left)) = ap (λ ys. some (at_printer a ys left)) (append_assoc xs t ts)

after-directive :
    (text_at : ℕ → List ℕ) (a : ℕ) (k : Printer → Option Printer) (ds : Option (List Directive))
    → Agrees text_at a k ds
    → (d : Directive) (xs args : List ℕ) (o : Option (List ℕ × List ℕ))
    → directive_text text_at d args ≡ o
    → (after a xs o >>= k) ≡ after_all text_at (behind d ds) a xs args
unfolding directives_text
after-directive text_at a k none h d xs args none e = refl
after-directive text_at a k none h d xs args (some (t, left)) e = h (xs ++ t) left
after-directive text_at a k (some ds) h d xs args none e = rw e refl
after-directive text_at a k (some ds) h d xs args (some (t, left)) e =
    rw e (h (xs ++ t) left ∙ after-both a xs t (directives_text text_at ds left))

bind_text :
    (f : Mode → List ℕ → Printer → Option Printer) (cs : List ℕ) (o : Option Printer)
    → ((do p' ← o; some (Mode.text, p')) >>= (λ (mode, p'). f mode cs p')) ≡ (o >>= f text cs)
bind_text f cs none = refl
bind_text f cs (some p) = refl

-- A character for itself, and a conversion, before what follows.
plain :
    (text_at : ℕ → List ℕ) (a : ℕ) (cs : List ℕ) (c : ℕ)
    → Agrees text_at a (run text_at text cs) (parse text cs)
    → Agrees text_at a
        (λ p. run text_at text cs (with_sink p (emit_char c p.sink)))
        (behind (literal c) (parse text cs))
unfolding directive_text
plain text_at a cs c h xs args =
    ap (λ s. run text_at text cs (printer s args)) (emit_char-shows a xs c)
    ∙ after-directive text_at a (run text_at text cs) (parse text cs) h (literal c) xs args
        (some (c ∷ [], args)) refl

converted :
    (text_at : ℕ → List ℕ) (a : ℕ) (cs : List ℕ) (c : ℕ)
    → Agrees text_at a (run text_at text cs) (parse text cs)
    → Agrees text_at a
        (λ p.
          (do p' ← convert text_at c p; some (Mode.text, p'))
          >>= (λ (mode, p'). run text_at mode cs p'))
        (behind (directive c) (parse text cs))
converted text_at a cs c h xs args =
    bind_text (run text_at) cs (convert text_at c (at_printer a xs args))
    ∙ ap (λ o. o >>= run text_at text cs) (convert-after text_at c a xs args)
    ∙ after-directive text_at a (run text_at text cs) (parse text cs) h (directive c) xs args
        (directive_text text_at (directive c) args) refl

run-after :
    (text_at : ℕ → List ℕ) (a : ℕ) (mode : Mode) (cs : List ℕ)
    → Agrees text_at a (run text_at mode cs) (parse mode cs)
unfolding run parse directives_text directive_text
run-after text_at a text [] xs args = ap (λ ys. some (at_printer a ys args)) (sym (append-nil xs))
run-after text_at a percent [] xs args = refl
run-after text_at a long [] xs args = refl
run-after text_at a text (c ∷ cs) xs args = elim (Bool-cases (c == b'%')) [
  | inl h ↦ rw h (run-after text_at a percent cs xs args)
  | inr h ↦ rw h (plain text_at a cs c (run-after text_at a text cs) xs args)
]
run-after text_at a percent (c ∷ cs) xs args = elim (Bool-cases (c == b'%')) [
  | inl h ↦ rw h (plain text_at a cs b'%' (run-after text_at a text cs) xs args)
  | inr h ↦ elim (Bool-cases (c == b'l')) [
    | inl l ↦ rw (h, l) (run-after text_at a long cs xs args)
    | inr l ↦ rw (h, l) (converted text_at a cs c (run-after text_at a text cs) xs args)
  ]
]
run-after text_at a long (c ∷ cs) xs args =
    converted text_at a cs c (run-after text_at a text cs) xs args

-- The buffer and the result after a run.
abbrev finish : ℕ → Option Printer → Option (List ℕ × ℕ)
finish size o = do
  p ← o
  some (if ltb 0 size then p.sink.out ++ (0 ∷ []) else p.sink.out, p.sink.total)

abbrev kept_of : ℕ → Option (List ℕ × List ℕ) → Option (List ℕ × ℕ)
kept_of size o = do t ← (do (t, left) ← o; some t); some (kept size t, length t)

take_zero : (t : List ℕ) → take 0 t ≡ []
take_zero [] = refl
take_zero (x ∷ t) = refl

finish-after :
    (size : ℕ) (o : Option (List ℕ × List ℕ)) → finish size (after (size - 1) [] o) ≡ kept_of size o
finish-after size none = refl
finish-after zero (some (t, left)) = ap (λ out. some (out, length t)) (take_zero t)
finish-after (suc n) (some (t, left)) =
    let room : suc n - 1 ≡ n = omega arith in
    let has_room : ltb 0 (suc n) ≡ true = ground arith in rw (room, has_room) refl

finish-parsed :
    (text_at : ℕ → List ℕ) (size : ℕ) (ds : Option (List Directive)) (args : List ℕ)
    → finish size (after_all text_at ds (size - 1) [] args) ≡ (do
      t ← (do ds ← ds; (t, left) ← directives_text text_at ds args; some t)
      some (kept size t, length t))
finish-parsed text_at size none args = refl
finish-parsed text_at size (some ds) args = finish-after size (directives_text text_at ds args)

all_left : (n : ℕ) → n ≡ n - 0
all_left n = omega arith

-- For every format, arguments and buffer size, vsnprintf writes the first size - 1 characters of
-- the whole text of the format and a NUL, nothing when the size is 0, and returns the length of
-- the whole text; it has no defined result just where the format ends behind a `%` or `%l`, or an
-- argument is missing.
pub vsnprintf-full_text :
    (text_at : ℕ → List ℕ) (size : ℕ) (format args : List ℕ)
    → vsnprintf text_at size format args
      ≡ (do t ← full_text text_at format args; some (kept size t, length t))
unfolding vsnprintf full_text
vsnprintf-full_text text_at size format args =
    ap (λ v. finish size (run text_at text format (printer (sink_of [] v 0) args)))
      (all_left (size - 1))
    ∙ ap (finish size) (run-after text_at (size - 1) text format [] args)
    ∙ finish-parsed text_at size (parse text format) args
