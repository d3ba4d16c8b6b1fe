-- ===== src/Boot/Image.antt =====
-- boards/stm32f446/startup.c, Reset_Handler: the initialised data and the zeroed data.
use crest_rtos.Base.{
  ℕ, zero, suc, ◌+◌, ◌-◌, ◌*◌, ◌≤◌, ◌<◌, ◌≡◌, ◌⊎◌, inl, inr, refl, ap, ◌∙◌, true, arith, ltb,
  update, Bool-cases,
}
use crest_rtos.Boot.{copy_words, zero_words, Layout, reset_memory}

-- An address outside the range is left as it is.
copy_words-outside :
    (fuel : ℕ) (m : ℕ → ℕ) (src dst end a : ℕ)
    → (a < dst) ⊎ (end ≤ a)
    → copy_words fuel m src dst end a ≡ m a
unfolding copy_words
copy_words-outside zero m src dst end a out = refl
copy_words-outside (suc fuel) m src dst end a out = elim (Bool-cases (ltb dst end)) [
  | inr h ↦ rw h refl
  | inl h ↦ rw h (
      copy_words-outside fuel (update m dst (m src)) (src + 4) (dst + 4) end a (ground (arith, out))
      ∙ ground (arith, out, h))
]

zero_words-outside :
    (fuel : ℕ) (m : ℕ → ℕ) (dst end a : ℕ)
    → (a < dst) ⊎ (end ≤ a)
    → zero_words fuel m dst end a ≡ m a
unfolding zero_words
zero_words-outside zero m dst end a out = refl
zero_words-outside (suc fuel) m dst end a out = elim (Bool-cases (ltb dst end)) [
  | inr h ↦ rw h refl
  | inl h ↦ rw h (
      zero_words-outside fuel (update m dst 0) (dst + 4) end a (ground (arith, out))
      ∙ ground (arith, out, h))
]

update_other : (m : ℕ → ℕ) (d v a : ℕ) → a < d → update m d v a ≡ m a
update_other m d v a lt = ground (arith, lt)

-- The words of a range below the target arrive there, in order.
copy_words-inside :
    (fuel : ℕ) (m : ℕ → ℕ) (src dst end i : ℕ)
    → end - dst ≤ fuel
    → src + (end - dst) ≤ dst
    → dst + 4 * i < end
    → copy_words fuel m src dst end (dst + 4 * i) ≡ m (src + 4 * i)
unfolding copy_words
copy_words-inside zero m src dst end i enough apart lt = ground (arith, enough, lt)
copy_words-inside (suc fuel) m src dst end zero enough apart lt =
    let more : ltb dst end ≡ true = ground (arith, lt) in
    rw more (
      copy_words-outside fuel (update m dst (m src)) (src + 4) (dst + 4) end (dst + 4 * 0)
        (inl (omega arith))
      ∙ ground arith)
copy_words-inside (suc fuel) m src dst end (suc i) enough apart lt =
    let more : ltb dst end ≡ true = ground (arith, lt) in
    let to : dst + 4 * suc i ≡ dst + 4 + 4 * i = omega arith in
    let source : src + 4 + 4 * i ≡ src + 4 * suc i = omega arith in
    rw more (
      ap (copy_words fuel (update m dst (m src)) (src + 4) (dst + 4) end) to
      ∙ copy_words-inside fuel (update m dst (m src)) (src + 4) (dst + 4) end i
          (omega (arith, enough)) (omega (arith, apart, lt)) (omega (arith, lt))
      ∙ ap (update m dst (m src)) source
      ∙ update_other m dst (m src) (src + 4 * suc i) (omega (arith, apart, lt)))

zero_words-inside :
    (fuel : ℕ) (m : ℕ → ℕ) (dst end i : ℕ)
    → end - dst ≤ fuel
    → dst + 4 * i < end
    → zero_words fuel m dst end (dst + 4 * i) ≡ 0
unfolding zero_words
zero_words-inside zero m dst end i enough lt = ground (arith, enough, lt)
zero_words-inside (suc fuel) m dst end zero enough lt =
    let more : ltb dst end ≡ true = ground (arith, lt) in
    rw more (
      zero_words-outside fuel (update m dst 0) (dst + 4) end (dst + 4 * 0) (inl (omega arith))
      ∙ ground arith)
zero_words-inside (suc fuel) m dst end (suc i) enough lt =
    let more : ltb dst end ≡ true = ground (arith, lt) in
    let to : dst + 4 * suc i ≡ dst + 4 + 4 * i = omega arith in
    rw more (
      ap (zero_words fuel (update m dst 0) (dst + 4) end) to
      ∙ zero_words-inside fuel (update m dst 0) (dst + 4) end i (omega (arith, enough))
          (omega (arith, lt)))

-- The image that main finds: the initialised data from the flash, zeros, and the rest untouched.
pub record IsImage (l : Layout) (m m' : ℕ → ℕ) : Type 0 where
  pub data_words : (i : ℕ) → l.sdata + 4 * i < l.edata → m' (l.sdata + 4 * i) ≡ m (l.sidata + 4 * i)
  pub bss_words : (i : ℕ) → l.sbss + 4 * i < l.ebss → m' (l.sbss + 4 * i) ≡ 0
  pub others : (a : ℕ) → (a < l.sdata) ⊎ (l.edata ≤ a) → (a < l.sbss) ⊎ (l.ebss ≤ a) → m' a ≡ m a

-- Reset_Handler, where the flash image of .data ends below .data, and .data below .bss: main finds
-- every word of .data initialised from the flash, every word of .bss zero, and no other changed.
pub reset_memory-IsImage :
    (l : Layout) (m : ℕ → ℕ)
    → l.sidata + (l.edata - l.sdata) ≤ l.sdata
    → l.sdata ≤ l.edata
    → l.edata ≤ l.sbss
    → IsImage l m (reset_memory l m)
unfolding reset_memory
reset_memory-IsImage l m apart up above =
    let copied = copy_words (l.edata - l.sdata) m l.sidata l.sdata l.edata in
    record {
      data_words = λ i lt.
          zero_words-outside (l.ebss - l.sbss) copied l.sbss l.ebss (l.sdata + 4 * i)
            (inl (omega (arith, lt, above)))
          ∙ copy_words-inside (l.edata - l.sdata) m l.sidata l.sdata l.edata i (omega arith) apart
              lt;
      bss_words =
          λ i lt. zero_words-inside (l.ebss - l.sbss) copied l.sbss l.ebss i (omega arith) lt;
      others = λ a out out'.
          zero_words-outside (l.ebss - l.sbss) copied l.sbss l.ebss a out'
          ∙ copy_words-outside (l.edata - l.sdata) m l.sidata l.sdata l.edata a out;
    }
