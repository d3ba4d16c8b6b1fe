-- ===== src/Boot.antt =====
-- boards/stm32f446/startup.c, Reset_Handler up to main, with the same loops of boot_startup.c, and
-- boards/stm32f446/bootloader.c, __start. Memory is a 32-bit word at each address; the linker's
-- symbols are addresses.
mod Image
mod Tests
use crest_rtos.Base.{
  ℕ, zero, suc, ◌+◌, ◌-◌, Bool, ◌||◌, ◌==◌, ltb, if◌then◌else◌, List, [], ◌∷◌, update,
}
use crest_rtos.Console.{codes}

-- `while (dst < end) *dst++ = *src++;` with fuel for each address of the range
unfoldable pub copy_words : ℕ → (ℕ → ℕ) → ℕ → ℕ → ℕ → ℕ → ℕ
copy_words zero m src dst end = m
copy_words (suc fuel) m src dst end =
    let rest = copy_words fuel (update m dst (m src)) (src + 4) (dst + 4) end in
    if ltb dst end then rest else m

-- `while (dst < end) *dst++ = 0;`
unfoldable pub zero_words : ℕ → (ℕ → ℕ) → ℕ → ℕ → ℕ → ℕ
zero_words zero m dst end = m
zero_words (suc fuel) m dst end =
    let rest = zero_words fuel (update m dst 0) (dst + 4) end in if ltb dst end then rest else m

-- The linker's symbols.
pub record Layout : Type 0 where
  pub sidata : ℕ
  pub sdata : ℕ
  pub edata : ℕ
  pub sbss : ℕ
  pub ebss : ℕ

-- Reset_Handler: the memory that main starts with
unfoldable pub reset_memory : Layout → (ℕ → ℕ) → ℕ → ℕ
unfolding copy_words zero_words
reset_memory l m =
    zero_words (l.ebss - l.sbss) (copy_words (l.edata - l.sdata) m l.sidata l.sdata l.edata) l.sbss
      l.ebss

-- KERNEL_START_ADDRESS
abbrev pub kernel_start_address : ℕ
kernel_start_address = 0x0800_4000

-- The test of __start that there is no kernel.
abbrev pub kernel_missing : ℕ → ℕ → Bool
kernel_missing sp reset =
    (ltb sp 0x2000_0000 || ltb 0x2002_0000 sp) || (reset == 0xffff_ffff || reset == 0)

-- How __start ends: it halts, or goes to an address with a main stack pointer; the texts before.
pub data Start : Type 0 where
  halted : List (List ℕ) → Start
  jumped : List (List ℕ) → ℕ → ℕ → Start

-- __start
unfoldable pub bootloader_start : (ℕ → ℕ) → Start
bootloader_start m =
    let sp = m kernel_start_address in
    let reset = m (kernel_start_address + 4) in
    if kernel_missing sp reset
    then halted
        (codes "[bootloader] started\n" ∷ codes "[bootloader] kernel invalid or missing\n" ∷ [])
    else jumped (codes "[bootloader] started\n" ∷ codes "[bootloader] jumping to kernel\n" ∷ []) sp
        reset
