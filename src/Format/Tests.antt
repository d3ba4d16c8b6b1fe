-- ===== src/Format/Tests.antt =====
-- Formatting on concrete texts.
use crest_rtos.Base.{ℕ, ◌≡◌, refl, List, [], ◌∷◌, none, some, true, arith, length, ◌>>=◌}
use crest_rtos.Format.{vsnprintf, unsigned_text}
use crest_rtos.Format.Spec.{full_text, kept}
use crest_rtos.Format.Truncate.{vsnprintf-full_text}
use crest_rtos.Format.Digits.{number_from, number_from-unsigned_text}

-- "n=%d %s"
abbrev count_format : List ℕ
count_format = b'n' ∷ b'=' ∷ b'%' ∷ b'd' ∷ b' ' ∷ b'%' ∷ b's' ∷ []

abbrev no_text : ℕ → List ℕ
no_text p = []

-- -7 and NULL, in 8 bytes
vsnprintf_cut :
    vsnprintf no_text 8 count_format (0xffff_fff9 ∷ 0 ∷ [])
    ≡ some (b'n' ∷ b'=' ∷ b'-' ∷ b'7' ∷ b' ' ∷ b'(' ∷ b'n' ∷ 0 ∷ [], 11)
unfolding vsnprintf
vsnprintf_cut = refl

-- The loop reads past the end of a format that ends in `%`.
vsnprintf_percent : vsnprintf no_text 8 (b'5' ∷ b'%' ∷ []) [] ≡ none
unfolding vsnprintf
vsnprintf_percent = refl

vsnprintf-full_text_example :
    vsnprintf no_text 8 count_format (0xffff_fff9 ∷ 0 ∷ [])
    ≡ (do t ← full_text no_text count_format (0xffff_fff9 ∷ 0 ∷ []); some (kept 8 t, length t))
vsnprintf-full_text_example = vsnprintf-full_text no_text 8 count_format (0xffff_fff9 ∷ 0 ∷ [])

number_from-unsigned_text_example : number_from 16 0 (unsigned_text 0xbeef 16 true) ≡ 0xbeef
number_from-unsigned_text_example =
    number_from-unsigned_text 16 true 0xbeef (omega arith) (omega arith) (omega arith)
