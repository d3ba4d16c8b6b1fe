-- ===== src/Boot/Tests.antt =====
-- Boot images on concrete values.
use crest_rtos.Base.{◌≡◌, refl, [], ◌∷◌}
use crest_rtos.Console.{codes}
use crest_rtos.Boot.{Layout, reset_memory, bootloader_start, halted}

abbrev small : Layout
small = record { sidata = 100; sdata = 200; edata = 208; sbss = 208; ebss = 212 }

copied : reset_memory small (λ a. a) 204 ≡ 104
unfolding reset_memory
copied = refl

zeroed : reset_memory small (λ a. a) 208 ≡ 0
unfolding reset_memory
zeroed = refl

no_kernel :
    bootloader_start (λ a. 0xffff_ffff)
    ≡ halted
        (codes "[bootloader] started\n" ∷ codes "[bootloader] kernel invalid or missing\n" ∷ [])
unfolding bootloader_start
no_kernel = refl
