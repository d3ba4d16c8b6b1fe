-- ===== src/Format/Sinks.antt =====
-- kernel/libc_stubs.c: what vsnprintf's emitting functions do to a sink that shows a cut text.
use crest_rtos.Base.{
  ℕ, zero, suc, ◌+◌, ◌-◌, ◌%◌, ◌^◌, ◌≤◌, ◌<◌, Bool, true, false, ◌||◌, Option, none, some, ◌==◌,
  ltb, length, if◌then◌else◌, List, [], ◌∷◌, ◌++◌, ◌>>=◌, ◌≡◌, refl, subst, sym, ap, ◌∙◌, arith,
  inl, inr, Bool-cases, length-append, ltb→lt,
}
use mathlib.Core.List.{append_assoc, append-nil}
use crest_rtos.Format.{
  Sink, Printer, va_arg, string_at, unsigned_text, emit_char, emit_all, emit_unsigned, emit_signed,
  emit_pointer, convert, with_arg,
}
use crest_rtos.Format.Spec.{
  Directive, directive, directive_text, directives_text, take, signed_text,
}

-- The sink of a buffer with room for `a` characters, after a text.
abbrev pub shows : ℕ → List ℕ → Sink
shows a xs = record { out = take a xs; avail = a - length xs; total = length xs }

take_room :
    (a : ℕ) (xs : List ℕ) (c : ℕ) → length xs < a → take a xs ++ (c ∷ []) ≡ take a (xs ++ (c ∷ []))
take_room zero xs c h = ground (arith, h)
take_room (suc a) [] c h = refl
take_room (suc a) (x ∷ xs) c h = ap (λ t. x ∷ t) (take_room a xs c (omega (arith, h)))

take_full : (a : ℕ) (xs : List ℕ) (c : ℕ) → a ≤ length xs → take a xs ≡ take a (xs ++ (c ∷ []))
take_full zero [] c h = refl
take_full zero (x ∷ xs) c h = refl
take_full (suc a) [] c h = ground (arith, h)
take_full (suc a) (x ∷ xs) c h = ap (λ t. x ∷ t) (take_full a xs c (omega (arith, h)))

abbrev pub sink_of : List ℕ → ℕ → ℕ → Sink
sink_of o a t = record { out = o; avail = a; total = t }

emit_char-room :
    (c : ℕ) (s : Sink) (b : Bool)
    → ltb 0 s.avail ≡ b
    → emit_char c s ≡ (
        if b
        then sink_of (s.out ++ (c ∷ [])) (s.avail - 1) (s.total + 1)
        else sink_of s.out s.avail (s.total + 1))
emit_char-room c s b h =
    subst
      (λ b. emit_char c s ≡ (
        if b
        then sink_of (s.out ++ (c ∷ [])) (s.avail - 1) (s.total + 1)
        else sink_of s.out s.avail (s.total + 1)))
      h refl

sink_eq :
    {o o' : List ℕ} {a a' t t' : ℕ} → o ≡ o' → a ≡ a' → t ≡ t' → sink_of o a t ≡ sink_of o' a' t'
sink_eq p q r i = sink_of (p i) (q i) (r i)

no_room : (a n : ℕ) → ltb 0 (a - n) ≡ false → a ≤ n
no_room a n h = ground (arith, h)

pub emit_char-shows :
    (a : ℕ) (xs : List ℕ) (c : ℕ) → emit_char c (shows a xs) ≡ shows a (xs ++ (c ∷ []))
emit_char-shows a xs c = elim (Bool-cases (ltb 0 (a - length xs))) [
  | inl h ↦
      let lt = ltb→lt 0 (a - length xs) h in
      emit_char-room c (shows a xs) true h
      ∙ sink_eq (take_room a xs c (omega (arith, lt))) (omega (arith, length-append xs (c ∷ [])))
          (sym (length-append xs (c ∷ [])))
  | inr h ↦
      let le = no_room a (length xs) h in
      emit_char-room c (shows a xs) false h
      ∙ sink_eq (take_full a xs c le) (omega (arith, le, length-append xs (c ∷ [])))
          (sym (length-append xs (c ∷ [])))
]

emit_all-shows : (cs : List ℕ) (a : ℕ) (xs : List ℕ) → emit_all cs (shows a xs) ≡ shows a (xs ++ cs)
unfolding emit_all
emit_all-shows [] a xs = ap (shows a) (sym (append-nil xs))
emit_all-shows (c ∷ cs) a xs =
    ap (emit_all cs) (emit_char-shows a xs c)
    ∙ emit_all-shows cs a (xs ++ (c ∷ []))
    ∙ ap (shows a) (append_assoc xs (c ∷ []) cs)

abbrev pub shown : ℕ → List ℕ → List ℕ × List ℕ → Printer
shown a xs (t, left) = record { sink = shows a (xs ++ t); args = left }

-- The printer after a text that may be missing.
abbrev pub after : ℕ → List ℕ → Option (List ℕ × List ℕ) → Option Printer
after a xs none = none
after a xs (some r) = some (shown a xs r)

-- The printer after the directives that may be missing.
abbrev pub after_all : (ℕ → List ℕ) → Option (List Directive) → ℕ → List ℕ → List ℕ → Option Printer
after_all text_at none a xs args = none
after_all text_at (some ds) a xs args = after a xs (directives_text text_at ds args)

abbrev pub at_printer : ℕ → List ℕ → List ℕ → Printer
at_printer a xs args = record { sink = shows a xs; args = args }

if_eq {ℓ κ} :
    {A : Type ℓ} {B : Type κ} (f : A → B) (b : Bool) (x y : A) (x' y' : B)
    → x' ≡ f x
    → y' ≡ f y
    → (if b then x' else y') ≡ f (if b then x else y)
if_eq f true x y x' y' p q = p
if_eq f false x y x' y' p q = q

abbrev pub printer : Sink → List ℕ → Printer
printer s args = record { sink = s; args = args }

abbrev argument_text : (ℕ → List ℕ) → List ℕ → Option (List ℕ × List ℕ)
argument_text f args = do (v, rest) ← va_arg args; some (f v, rest)

-- An argument whose text `f` gives is printed like that text.
with_arg-after :
    (a : ℕ) (xs args : List ℕ) (print : ℕ → Sink → Sink) (f : ℕ → List ℕ)
    → ((v : ℕ) → print v (shows a xs) ≡ shows a (xs ++ f v))
    → with_arg (at_printer a xs args) print ≡ after a xs (argument_text f args)
with_arg-after a xs [] print f h = refl
with_arg-after a xs (v ∷ rest) print f h = ap (λ s. some (printer s rest)) (h v)

emitted :
    (a : ℕ) (xs args : List ℕ) (f : ℕ → List ℕ)
    → with_arg (at_printer a xs args) (λ v s. emit_all (f v) s) ≡ after a xs (argument_text f args)
emitted a xs args f =
    with_arg-after a xs args (λ v s. emit_all (f v) s) f (λ v. emit_all-shows (f v) a xs)

emit_signed-shows :
    (a : ℕ) (xs : List ℕ) (v : ℕ) → emit_signed v (shows a xs) ≡ shows a (xs ++ signed_text v)
unfolding emit_signed emit_unsigned
emit_signed-shows a xs v =
    if_eq (λ t. shows a (xs ++ t)) (ltb v (2 ^ 31)) _ _ _ _
      (emit_all-shows (unsigned_text v 10 false) a xs)
      (emit_all-shows (b'-' ∷ unsigned_text (2 ^ 32 - v) 10 false) a xs)

-- The printer after a directive.
abbrev pub shown_as : (ℕ → List ℕ) → ℕ → List ℕ → List ℕ → Directive → Option Printer
shown_as text_at a xs args d = after a xs (directive_text text_at d args)

-- What a conversion prints.
pub convert-after :
    (text_at : ℕ → List ℕ) (c a : ℕ) (xs args : List ℕ)
    → convert text_at c (at_printer a xs args) ≡ shown_as text_at a xs args (directive c)
unfolding convert emit_all emit_unsigned emit_signed emit_pointer directive_text
convert-after text_at c a xs args =
    let as_d = shown_as text_at a xs args in
    if_eq as_d (c == b's') _ _ _ _ (emitted a xs args (λ v. string_at text_at v)) (
      if_eq as_d (c == b'c') _ _ _ _ (emitted a xs args (λ v. (v % 256) ∷ [])) (
        if_eq as_d ((c == b'd') || (c == b'i')) _ _ _ _
          (with_arg-after a xs args emit_signed signed_text (emit_signed-shows a xs))
          (if_eq as_d (c == b'u') _ _ _ _ (emitted a xs args (λ v. unsigned_text v 10 false)) (
            if_eq as_d (c == b'x') _ _ _ _ (emitted a xs args (λ v. unsigned_text v 16 false)) (
              if_eq as_d (c == b'X') _ _ _ _ (emitted a xs args (λ v. unsigned_text v 16 true)) (
                if_eq as_d (c == b'p') _ _ _ _
                  (emitted a xs args (λ v. b'0' ∷ b'x' ∷ unsigned_text v 16 false))
                  (ap (λ s. some (printer s args)) (emit_all-shows (b'%' ∷ c ∷ []) a xs))))))))
