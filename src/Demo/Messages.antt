-- ===== src/Demo/Messages.antt =====
-- src/main.c: the message of task_producer on its way through the queue to the report of
-- task_consumer.
use native.Mathlib.Nat.{pow-suc}
use mathlib.Core.List.{append_assoc, append-nil}
use crest_rtos.Base.{
  ℕ, zero, suc, ◌-◌, ◌/◌, ◌%◌, ◌^◌, ◌<◌, ◌≤◌, ◌≡◌, refl, ap, ◌∙◌, arith, true, false, ◌||◌, Option,
  none, some, List, [], ◌∷◌, ◌++◌, length, length-append, has, has-append, ◌==◌, ltb, if◌then◌else◌,
  Bool-cases, inl, inr, ◌>>=◌,
}
use crest_rtos.Kernel.{Item}
use crest_rtos.Format.{digit_char, digits_back, backwards, unsigned_text, vsnprintf}
use crest_rtos.Format.Spec.{take, kept, full_text, signed_text}
use crest_rtos.Format.Widths.{length-unsigned_text, length-backwards}
use crest_rtos.Format.Truncate.{vsnprintf-full_text}
use crest_rtos.Console.{codes, until_nul}
use crest_rtos.Task.{overlay}
use crest_rtos.Demo.{item_size, sent_item, text_in, reported}
use crest_rtos.Demo.Texts.{
  drop, overlay-append, take-append_short, take-append_long, length-take, until_nul-append,
  has-take, take_all, room_left, length-take_le, if_false, if_true,
}

-- The digits of a number.
has-backwards : (cs acc : List ℕ) → has 0 (backwards cs acc) ≡ (has 0 cs || has 0 acc)
unfolding backwards
has-backwards [] acc = refl
has-backwards (c ∷ cs) acc = ground (arith, has-backwards cs (c ∷ acc))

has-digits_back : (room v : ℕ) → has 0 (digits_back room 10 false v) ≡ false
unfolding digits_back
has-digits_back zero v = refl
has-digits_back (suc room) v = elim (Bool-cases (v == 0)) [
  | inl z ↦ rw z refl
  | inr z ↦
      let other : (0 == digit_char false (v % 10)) ≡ false = ground arith in
      rw (z, other) (has-digits_back room (v / 10))
]

pow_pos : (n : ℕ) → 0 < 10 ^ n
pow_pos zero = omega arith
pow_pos (suc n) = omega (arith, pow-suc 10 n, pow_pos n)

digits_back-length :
    (room n v : ℕ) → 10 ^ n ≤ v → n < room → suc n ≤ length (digits_back room 10 false v)
unfolding digits_back
digits_back-length zero n v le lt = absurd (omega arith)
digits_back-length (suc room) zero v le lt =
    let some_digit : (v == 0) ≡ false = ground (arith, le) in rw some_digit (omega arith)
digits_back-length (suc room) (suc n) v le lt =
    let some_digit : (v == 0) ≡ false = ground (arith, le, pow-suc 10 n, pow_pos n) in
    let rest =
      digits_back-length room n (v / 10) (omega (arith, le, pow-suc 10 n)) (omega (arith, lt)) in
    rw some_digit (omega (arith, rest))

-- The text of the message with the number `i`.
abbrev pub message_text : ℕ → List ℕ
message_text i = codes "item-" ++ unsigned_text i 10 false

unsigned_text-zero : (i : ℕ) → (i == 0) ≡ true → unsigned_text i 10 false ≡ 48 ∷ []
unfolding unsigned_text
unsigned_text-zero i e = if_true (i == 0) (48 ∷ []) _ e

unsigned_text-digits :
    (i : ℕ) → (i == 0) ≡ false → unsigned_text i 10 false ≡ backwards (digits_back 32 10 false i) []
unfolding unsigned_text
unsigned_text-digits i e = if_false (i == 0) (48 ∷ []) _ e

has-unsigned_text : (i : ℕ) → has 0 (unsigned_text i 10 false) ≡ false
has-unsigned_text i = elim (Bool-cases (i == 0)) [
  | inl z ↦ ap (has 0) (unsigned_text-zero i z)
  | inr z ↦
      ap (has 0) (unsigned_text-digits i z)
      ∙ has-backwards (digits_back 32 10 false i) []
      ∙ ap (λ b. b || false) (has-digits_back 32 i)
]

three_digits : (i : ℕ) → 100 ≤ i → 3 ≤ length (unsigned_text i 10 false)
three_digits i le =
    let same = ap length (unsigned_text-digits i (ground (arith, le))) in
    omega (
      arith,
      same,
      length-backwards (digits_back 32 10 false i) [],
      digits_back-length 32 2 i le (omega arith),
    )

ten_digits : (i : ℕ) → i < 2 ^ 31 → length (unsigned_text i 10 false) ≤ 10
ten_digits i lt = length-unsigned_text 10 10 false i (omega arith) (omega arith) (omega (arith, lt))

full_text-message :
    (i : ℕ) → i < 2 ^ 31 → full_text (λ p. []) (codes "item-%d") (i ∷ []) ≡ some (message_text i)
unfolding full_text
full_text-message i lt =
    ap (λ u. some (codes "item-" ++ u))
      (append-nil (signed_text i) ∙ if_true (ltb i (2 ^ 31)) _ _ (ground (arith, lt)))

written_text :
    (i : ℕ)
    → i < 2 ^ 31
    → vsnprintf (λ p. []) 32 (codes "item-%d") (i ∷ [])
      ≡ some (message_text i ++ (0 ∷ []), length (message_text i))
written_text i lt =
    vsnprintf-full_text (λ p. []) 32 (codes "item-%d") (i ∷ [])
    ∙ ap (λ o. do t ← o; some (kept 32 t, length t)) (full_text-message i lt)
    ∙ ap (λ t. some (t ++ (0 ∷ []), length (message_text i)))
        (take_all 31 (message_text i) (omega (arith, ten_digits i lt)))

-- The bytes of `msg` that the message leaves as they were.
abbrev stale : ℕ → List ℕ → List ℕ
stale i msg = drop (length (message_text i ++ (0 ∷ []))) msg

sent_item-text :
    (i : ℕ) (msg : List ℕ)
    → i < 2 ^ 31
    → length msg ≡ 32
    → sent_item i msg ≡ some (take 8 (message_text i ++ (0 ∷ stale i msg)))
unfolding sent_item
sent_item-text i msg lt size =
    ap (λ o. do (w, n) ← o; some (take item_size (overlay w msg))) (written_text i lt)
    ∙ ap (λ bs. some (take 8 bs))
        (overlay-append (message_text i ++ (0 ∷ [])) msg
            (omega (arith, length-append (message_text i) (0 ∷ []), ten_digits i lt))
          ∙ append_assoc (message_text i) (0 ∷ []) (stale i msg))

-- The report of an item whose text ends in it, and of one whose text fills it.
text_in-append : (xs ys : List ℕ) → has 0 xs ≡ false → text_in (xs ++ (0 ∷ ys)) ≡ some xs
text_in-append xs ys h =
    let inside : has 0 (xs ++ (0 ∷ ys)) ≡ true = ground (arith, has-append 0 xs (0 ∷ ys)) in
    rw inside (ap (λ t. some t) (until_nul-append xs (0 ∷ ys) h ∙ append-nil xs))

text_in-behind :
    (xs ys : List ℕ)
    → has 0 xs ≡ false
    → text_in (xs ++ ys) ≡ (if has 0 ys then some (xs ++ until_nul ys) else none)
text_in-behind xs ys h =
    let inside : has 0 (xs ++ ys) ≡ has 0 ys = ground (arith, has-append 0 xs ys, h) in
    rw (inside, until_nul-append xs ys h) refl

short_report :
    (t rest buf : List ℕ)
    → has 0 t ≡ false
    → length t < 8
    → length buf ≡ 32
    → reported (take 8 (t ++ (0 ∷ rest))) buf ≡ some t
short_report t rest buf h lt size =
    let tail = take (7 - length t) rest in
    let item : take 8 (t ++ (0 ∷ rest)) ≡ t ++ (0 ∷ tail) =
      take-append_short 8 t (0 ∷ rest) (omega (arith, lt))
      ∙ ap (λ n. t ++ take n (0 ∷ rest)) (room_left (length t) lt) in
    let bound : length (t ++ (0 ∷ tail)) ≤ 8 =
      omega (arith, length-append t (0 ∷ tail), length-take_le (7 - length t) rest, lt) in
    let after = drop (length (t ++ (0 ∷ tail))) buf in
    ap (λ ys. reported ys buf) item
    ∙ ap text_in (
        overlay-append (t ++ (0 ∷ tail)) buf (omega (arith, bound, size))
        ∙ append_assoc t (0 ∷ tail) after)
    ∙ text_in-append t (tail ++ after) h

long_report :
    (t rest buf : List ℕ)
    → has 0 t ≡ false
    → 8 ≤ length t
    → length buf ≡ 32
    → reported (take 8 (t ++ rest)) buf
      ≡ (if has 0 (drop 8 buf) then some (take 8 t ++ until_nul (drop 8 buf)) else none)
long_report t rest buf h le size =
    let item = take 8 t in
    let size_8 = length-take 8 t le in
    ap (λ ys. reported ys buf) (take-append_long 8 t rest le)
    ∙ ap text_in (overlay-append item buf (omega (arith, size_8, size)))
    ∙ text_in-behind item (drop (length item) buf) (has-take 8 t h)
    ∙ ap (λ n. if has 0 (drop n buf) then some (item ++ until_nul (drop n buf)) else none) size_8

two_digits : (i : ℕ) → i < 100 → length (unsigned_text i 10 false) ≤ 2
two_digits i lt = length-unsigned_text 2 10 false i (omega arith) (omega arith) (omega (arith, lt))

has-message_text : (i : ℕ) → has 0 (message_text i) ≡ false
has-message_text i = has-unsigned_text i

either_report :
    (i : ℕ) (xs ys zs : Option (List ℕ))
    → (i < 100 → xs ≡ ys)
    → (100 ≤ i → xs ≡ zs)
    → xs ≡ (if ltb i 100 then ys else zs)
either_report i xs ys zs few many = elim (Bool-cases (ltb i 100)) [
  | inl e ↦ rw e (few (ground arith))
  | inr e ↦ rw e (many (ground arith))
]

-- The message with the number `i` below 2^31, from any 32 bytes of `msg` into any 32 bytes of
-- `buf`, where the queue has items of 8 bytes: with a number below 100 the consumer reports the
-- text "item-" and the number; from 100 on it reports the first 8 characters of that text and,
-- since no NUL has come with them, what its buffer held behind its first 8 bytes, up to the NUL
-- there; if the buffer holds no NUL there, it reads on past the buffer's end.
pub report_lem :
    (i : ℕ) (msg buf : List ℕ)
    → i < 2 ^ 31
    → length msg ≡ 32
    → length buf ≡ 32
    → (item : Item) × (sent_item i msg ≡ some item)
      × (reported item buf ≡ (
          if ltb i 100
          then some (codes "item-" ++ unsigned_text i 10 false)
          else if has 0 (drop 8 buf)
          then some (take 8 (codes "item-" ++ unsigned_text i 10 false) ++ until_nul (drop 8 buf))
          else none))
report_lem i msg buf lt msg_size buf_size =
    let item = take 8 (message_text i ++ (0 ∷ stale i msg)) in
    (
      item,
      sent_item-text i msg lt msg_size,
      either_report i (reported item buf) _ _
          (λ few.
            short_report (message_text i) (stale i msg) buf (has-message_text i)
              (omega (arith, two_digits i few)) buf_size)
          (λ many.
            long_report (message_text i) (0 ∷ stale i msg) buf (has-message_text i)
              (omega (arith, three_digits i many)) buf_size),
    )
