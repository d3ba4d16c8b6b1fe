-- ===== src/Console.antt =====
-- boards/stm32f446/uart.c, uart_write, and the reports of arch/arm/cortex-m4/port.c and
-- boards/stm32f446/startup.c: the texts that a fault handler sends before it halts. A text is its
-- bytes without the NUL.
mod Fits
mod Tests
use Prim.Native.String
use Prim.Native.String.{String}
use Prim.Native.Char.{code}
use crest_rtos.Base.{
  ℕ, zero, suc, ◌+◌, ◌-◌, ◌*◌, ◌/◌, ◌%◌, ◌^◌, Bool, Option, none, some, ◌==◌, ltb, Ptr,
  if◌then◌else◌, List, [], ◌∷◌, ◌++◌, ◌>>=◌,
}
use crest_rtos.Kernel.{Tcb, Kernel}
use crest_rtos.Format.{digit_char, vsnprintf}

-- The bytes of a text in the source.
abbrev pub codes : String → List ℕ
codes String.[] = []
codes (String.◌∷◌ c s) = code c ∷ codes s

-- The text in a buffer, up to its NUL.
abbrev pub until_nul : List ℕ → List ℕ
until_nul [] = []
until_nul (c ∷ cs) = if c == 0 then [] else c ∷ until_nul cs

-- uart_write: the bytes that uart_putc puts into USART2_DR.
unfoldable pub uart_write : List ℕ → List ℕ
uart_write [] = []
uart_write (c ∷ cs) = let rest = uart_write cs in if c == b'\n' then b'\r' ∷ c ∷ rest else c ∷ rest

-- `hex[(val >> ((7 - i) * 4)) & 0xF]` for the last `n` values of `i`
unfoldable pub hex_digits : ℕ → ℕ → List ℕ
hex_digits zero val = []
hex_digits (suc n) val =
    digit_char crest_rtos.Base.false (val / 2 ^ (n * 4) % 16) ∷ hex_digits n val

-- uart_write_hex: the text in its buffer
unfoldable pub hex_text : ℕ → List ℕ
unfolding hex_digits
hex_text val = b'0' ∷ b'x' ∷ hex_digits 8 val

-- stack_overflow_handler: the texts that it writes
unfoldable pub stack_overflow_handler : Tcb → List (List ℕ)
unfolding hex_text
stack_overflow_handler c =
    codes "\r\n[CREST] *** STACK OVERFLOW ***\r\n"
    ∷ codes "  task     : "
    ∷ until_nul c.name
    ∷ codes "\r\n"
    ∷ codes "  sp       : "
    ∷ hex_text c.stack_pointer
    ∷ codes "\r\n"
    ∷ codes "  base     : "
    ∷ hex_text c.stack_base
    ∷ codes "\r\n"
    ∷ codes "  overflow : "
    ∷ hex_text ((c.stack_base + 2 ^ 32 - c.stack_pointer) % 2 ^ 32)
    ∷ codes " bytes\r\n"
    ∷ codes "  Halting.\r\n"
    ∷ []

-- How MemManage_Handler ends.
pub data Report : Type 0 where
  overflow : ℕ → List (List ℕ) → Report
  violation : List (List ℕ) → Report

-- `if (cur) { ... }`
abbrev pub task_lines : Kernel → Ptr → List (List ℕ)
task_lines k none = []
task_lines k (some t) = codes "  task  : " ∷ until_nul (k.tcb t).name ∷ codes "\r\n" ∷ []

-- `psp` is the process stack pointer, `cfsr` and `mmfar` are SCB_CFSR and SCB_MMFAR.
abbrev pub violation_lines : Kernel → ℕ → ℕ → List (List ℕ)
violation_lines k cfsr mmfar =
    (codes "\r\n[CREST] *** MPU VIOLATION ***\r\n" ∷ task_lines k k.current_task)
    ++ (if cfsr / 2 ^ 7 % 2 == 1
        then codes "  addr  : " ∷ hex_text mmfar ∷ codes "\r\n" ∷ []
        else [])
    ++ (codes "  -> MPU correctly blocked cross-task access.\r\n" ∷ [])

-- MemManage_Handler
unfoldable pub mem_manage_handler : Kernel → ℕ → ℕ → ℕ → Report
unfolding stack_overflow_handler hex_text
mem_manage_handler k psp cfsr mmfar = elim k.current_task [
  | none ↦ violation (violation_lines k cfsr mmfar)
  | some t ↦
      if ltb psp (k.tcb t).stack_base
      then overflow t (stack_overflow_handler (record (k.tcb t) { stack_pointer = psp }))
      else violation (violation_lines k cfsr mmfar)
]

-- The registers that Default_Handler reports: EXC_RETURN, the stacked ones, the fault status.
pub record FaultState : Type 0 where
  pub exc_return : ℕ
  pub msp : ℕ
  pub psp : ℕ
  pub cfsr : ℕ
  pub hfsr : ℕ
  pub mmfar : ℕ
  pub bfar : ℕ

-- `((lr & 4) == 0) ? msp : psp`
abbrev pub stacked_at : FaultState → ℕ
stacked_at f = if f.exc_return / 4 % 2 == 0 then f.msp else f.psp

-- A call of snprintf in Default_Handler: the format and its arguments.
pub record Message : Type 0 where
  pub format : List ℕ
  pub args : List ℕ

abbrev pub message : String → List ℕ → Message
message s args = record { format = codes s; args = args }

-- A text for uart_write as it is, or one that snprintf puts into `buf` first.
pub data Output : Type 0 where
  plain : List ℕ → Output
  printed : Message → Output

-- `if (stacked) { ... }`
abbrev pub stacked_messages : (ℕ → ℕ) → ℕ → List Output
stacked_messages word sp =
    if sp == 0
    then []
    else printed (message "Stack frame @ %p\n" (sp ∷ []))
      ∷ printed (
          message "R0=%lx R1=%lx R2=%lx R3=%lx\n"
            (word sp ∷ word (sp + 4) ∷ word (sp + 8) ∷ word (sp + 12) ∷ []))
      ∷ printed (
          message "R12=%lx LR=%lx PC=%lx xPSR=%lx\n"
            (word (sp + 16) ∷ word (sp + 20) ∷ word (sp + 24) ∷ word (sp + 28) ∷ []))
      ∷ []

-- The last message: the current task, with the address of its name.
abbrev pub task_message : Kernel → (ℕ → ℕ) → Ptr → Output
task_message k name_at none = plain (codes "No current task\n")
task_message k name_at (some t) =
    printed (message "Current task: %s\n SP(%p)\n" (name_at t ∷ (k.tcb t).stack_pointer ∷ []))

-- Default_Handler: what it writes, in order
unfoldable pub default_handler : Kernel → (ℕ → ℕ) → FaultState → List Output
default_handler k name_at f =
    (plain (codes "HARD FAULT!\n")
      ∷ printed (message "EXC_RETURN=0x%lx\n" (f.exc_return ∷ []))
      ∷ stacked_messages k.word (stacked_at f))
    ++ (printed (
          message "CFSR=0x%lx HFSR=0x%lx MMFAR=0x%lx BFAR=0x%lx\n"
            (f.cfsr ∷ f.hfsr ∷ f.mmfar ∷ f.bfar ∷ []))
        ∷ task_message k name_at k.current_task
        ∷ [])

-- What snprintf leaves in `buf`, of 128 bytes, and its result.
abbrev pub formatted : (ℕ → List ℕ) → Message → Option (List ℕ × ℕ)
formatted text_at m = vsnprintf text_at 128 m.format m.args
