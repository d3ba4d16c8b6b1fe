-- ===== src/Format.antt =====
-- kernel/libc_stubs.c: vsnprintf and snprintf. A text is its bytes without the NUL; the arguments
-- are 32-bit words, and `text_at` is the memory that a `%s` argument points to. `long` and `int`
-- have 32 bits; the running count stays below INT_MAX.
pub mod Spec
pub mod Widths
mod Sinks
pub mod Truncate
mod Digits
mod Tests
use crest_rtos.Base.{
  ℕ, zero, suc, ◌+◌, ◌-◌, ◌/◌, ◌%◌, ◌^◌, Bool, true, false, ◌||◌, Option, none, some, ◌==◌, ltb,
  if◌then◌else◌, List, [], ◌∷◌, ◌++◌, ◌>>=◌,
}

-- dst, avail and total: the bytes written so far, the room left, the characters so far.
pub record Sink : Type 0 where
  pub out : List ℕ
  pub avail : ℕ
  pub total : ℕ

-- emit_char
abbrev pub emit_char : ℕ → Sink → Sink
emit_char c s =
    if ltb 0 s.avail
    then record { out = s.out ++ (c ∷ []); avail = s.avail - 1; total = s.total + 1 }
    else record s { total = s.total + 1 }

-- The loop of emit_string, and those that emit the characters of a buffer.
unfoldable pub emit_all : List ℕ → Sink → Sink
emit_all [] s = s
emit_all (c ∷ cs) s = emit_all cs (emit_char c s)

-- "(null)"
abbrev pub null_text : List ℕ
null_text = b'(' ∷ b'n' ∷ b'u' ∷ b'l' ∷ b'l' ∷ b')' ∷ []

-- emit_string
abbrev pub string_at : (ℕ → List ℕ) → ℕ → List ℕ
string_at text_at p = if p == 0 then null_text else text_at p

-- The characters of `digits`: 0 to 9, then letters.
abbrev pub digit_char : Bool → ℕ → ℕ
digit_char upper d = if ltb d 10 then b'0' + d else (if upper then b'A' else b'a') + (d - 10)

-- The loop of emit_unsigned: the digits, the last one first, at most `room` of them.
unfoldable pub digits_back : ℕ → ℕ → Bool → ℕ → List ℕ
digits_back zero base upper val = []
digits_back (suc room) base upper val =
    let rest = digits_back room base upper (val / base) in
    if val == 0 then [] else digit_char upper (val % base) ∷ rest

-- `for (i = idx - 1; i >= 0; --i)`
unfoldable pub backwards : List ℕ → List ℕ → List ℕ
backwards [] acc = acc
backwards (c ∷ cs) acc = backwards cs (c ∷ acc)

-- The text that emit_unsigned emits; its buffer has 32 bytes.
unfoldable pub unsigned_text : ℕ → ℕ → Bool → List ℕ
unfolding digits_back backwards
unsigned_text val base upper =
    if val == 0 then b'0' ∷ [] else backwards (digits_back 32 base upper val) []

-- emit_unsigned
unfoldable pub emit_unsigned : ℕ → ℕ → Bool → Sink → Sink
unfolding emit_all unsigned_text
emit_unsigned val base upper s = emit_all (unsigned_text val base upper) s

-- Where the loop of vsnprintf stands: in the text, behind a `%`, or behind `%l`.
pub data Mode : Type 0 where
  text percent long : Mode

-- The sink and the arguments that are left.
pub record Printer : Type 0 where
  pub sink : Sink
  pub args : List ℕ

abbrev pub with_sink : Printer → Sink → Printer
with_sink p s = record p { sink = s }

-- va_arg; one more than were given is undefined (`none`).
abbrev pub va_arg : List ℕ → Option (ℕ × List ℕ)
va_arg [] = none
va_arg (v ∷ vs) = some (v, vs)

-- An argument printed by `print`.
abbrev pub with_arg : Printer → (ℕ → Sink → Sink) → Option Printer
with_arg p print = do
  (v, rest) ← va_arg p.args
  some (record { sink = print v p.sink; args = rest })

-- `case 'd'`: a negative number as `-` and its absolute value.
unfoldable pub emit_signed : ℕ → Sink → Sink
unfolding emit_unsigned
emit_signed v s =
    if ltb v (2 ^ 31)
    then emit_unsigned v 10 false s
    else emit_unsigned (2 ^ 32 - v) 10 false (emit_char b'-' s)

-- `case 'p'`
unfoldable pub emit_pointer : ℕ → Sink → Sink
unfolding emit_unsigned
emit_pointer v s = emit_unsigned v 16 false (emit_char b'x' (emit_char b'0' s))

-- The switch on the conversion.
unfoldable pub convert : (ℕ → List ℕ) → ℕ → Printer → Option Printer
unfolding emit_all emit_unsigned emit_signed emit_pointer
convert text_at spec p =
    if spec == b's'
    then with_arg p (λ v s. emit_all (string_at text_at v) s)
    else if spec == b'c'
    then with_arg p (λ v s. emit_char (v % 256) s)
    else if (spec == b'd') || (spec == b'i')
    then with_arg p emit_signed
    else if spec == b'u'
    then with_arg p (λ v s. emit_unsigned v 10 false s)
    else if spec == b'x'
    then with_arg p (λ v s. emit_unsigned v 16 false s)
    else if spec == b'X'
    then with_arg p (λ v s. emit_unsigned v 16 true s)
    else if spec == b'p'
    then with_arg p emit_pointer
    else some (with_sink p (emit_char spec (emit_char b'%' p.sink)))

-- What one character of the format does.
unfoldable pub step : (ℕ → List ℕ) → Mode → ℕ → Printer → Option (Mode × Printer)
unfolding convert
step text_at text c p =
    some (if c == b'%' then (percent, p) else (text, with_sink p (emit_char c p.sink)))
step text_at percent c p =
    if c == b'%'
    then some (text, with_sink p (emit_char b'%' p.sink))
    else if c == b'l'
    then some (long, p)
    else do p' ← convert text_at c p; some (text, p')
step text_at long c p = do p' ← convert text_at c p; some (text, p')

-- The loop of vsnprintf. A format that ends behind a `%` makes it read past the end (`none`).
unfoldable pub run : (ℕ → List ℕ) → Mode → List ℕ → Printer → Option Printer
unfolding step
run text_at text [] p = some p
run text_at percent [] p = none
run text_at long [] p = none
run text_at mode (c ∷ cs) p = do (mode', p') ← step text_at mode c p; run text_at mode' cs p'

-- vsnprintf, and snprintf with its arguments as a list: the bytes written to `str`, and the result.
unfoldable pub vsnprintf : (ℕ → List ℕ) → ℕ → List ℕ → List ℕ → Option (List ℕ × ℕ)
unfolding run
vsnprintf text_at size format args = do
  p ←
      run text_at text format
        (record { sink = record { out = []; avail = size - 1; total = 0 }; args = args })
  some (if ltb 0 size then p.sink.out ++ (0 ∷ []) else p.sink.out, p.sink.total)
