-- ===== src/Format/Spec.antt =====
-- kernel/libc_stubs.c, vsnprintf, as a printer of a parsed format: what the text of a format is
-- when there is room for all of it, and what a buffer of a given size keeps of a text.
use crest_rtos.Base.{
  ℕ, zero, suc, ◌-◌, ◌%◌, ◌^◌, true, false, ◌||◌, Option, none, some, ◌==◌, ltb, if◌then◌else◌,
  List, [], ◌∷◌, ◌++◌, ◌>>=◌,
}
use crest_rtos.Format.{Mode, text, percent, long, va_arg, string_at, unsigned_text}

pub data Conversion : Type 0 where
  string character signed unsigned lower upper pointer : Conversion

-- A character that stands for itself, a conversion of an argument, or an unknown one.
pub data Directive : Type 0 where
  literal : ℕ → Directive
  argument : Conversion → Directive
  unknown : ℕ → Directive

abbrev pub directive : ℕ → Directive
directive c =
    if c == b's'
    then argument string
    else if c == b'c'
    then argument character
    else if (c == b'd') || (c == b'i')
    then argument signed
    else if c == b'u'
    then argument unsigned
    else if c == b'x'
    then argument lower
    else if c == b'X'
    then argument upper
    else if c == b'p'
    then argument pointer
    else unknown c

-- The text of a two's complement word.
abbrev pub signed_text : ℕ → List ℕ
signed_text v =
    if ltb v (2 ^ 31) then unsigned_text v 10 false else b'-' ∷ unsigned_text (2 ^ 32 - v) 10 false

-- The text of an argument.
abbrev pub conversion_text : (ℕ → List ℕ) → Conversion → ℕ → List ℕ
conversion_text text_at string v = string_at text_at v
conversion_text text_at character v = (v % 256) ∷ []
conversion_text text_at signed v = signed_text v
conversion_text text_at unsigned v = unsigned_text v 10 false
conversion_text text_at lower v = unsigned_text v 16 false
conversion_text text_at upper v = unsigned_text v 16 true
conversion_text text_at pointer v = b'0' ∷ b'x' ∷ unsigned_text v 16 false

abbrev pub behind : Directive → Option (List Directive) → Option (List Directive)
behind d none = none
behind d (some ds) = some (d ∷ ds)

-- The directives of a format, from a given mode; one that ends behind a `%` has none.
unfoldable pub parse : Mode → List ℕ → Option (List Directive)
parse text [] = some []
parse percent [] = none
parse long [] = none
parse text (c ∷ cs) =
    let rest = parse text cs in
    let conversion = parse percent cs in if c == b'%' then conversion else behind (literal c) rest
parse percent (c ∷ cs) =
    let rest = parse text cs in
    let behind_l = parse long cs in
    if c == b'%'
    then behind (literal b'%') rest
    else if c == b'l'
    then behind_l
    else behind (directive c) rest
parse long (c ∷ cs) = behind (directive c) (parse text cs)

-- The text of a directive, and the arguments left.
unfoldable pub directive_text : (ℕ → List ℕ) → Directive → List ℕ → Option (List ℕ × List ℕ)
directive_text text_at (literal c) args = some (c ∷ [], args)
directive_text text_at (argument f) args = do
  (v, rest) ← va_arg args
  some (conversion_text text_at f v, rest)
directive_text text_at (unknown c) args = some (b'%' ∷ c ∷ [], args)

unfoldable pub directives_text : (ℕ → List ℕ) → List Directive → List ℕ → Option (List ℕ × List ℕ)
unfolding directive_text
directives_text text_at [] args = some ([], args)
directives_text text_at (d ∷ ds) args = do
  (t, rest) ← directive_text text_at d args
  (ts, left) ← directives_text text_at ds rest
  some (t ++ ts, left)

-- The whole text of a format.
unfoldable pub full_text : (ℕ → List ℕ) → List ℕ → List ℕ → Option (List ℕ)
unfolding parse directives_text
full_text text_at format args = do
  ds ← parse text format
  (t, left) ← directives_text text_at ds args
  some t

abbrev pub take : ℕ → List ℕ → List ℕ
take n [] = []
take zero (x ∷ xs) = []
take (suc n) (x ∷ xs) = x ∷ take n xs

-- What a buffer of `size` bytes keeps of a text: as much as leaves room for the NUL, and the NUL.
abbrev pub kept : ℕ → List ℕ → List ℕ
kept zero t = []
kept (suc n) t = take n t ++ (0 ∷ [])
