-- ===== src/Console/Tests.antt =====
-- Reports on concrete states.
use crest_rtos.Base.{ℕ, ◌≡◌, refl, List, arith, All}
use crest_rtos.Console.{codes, uart_write, hex_text, FaultState, default_handler}
use crest_rtos.Console.Fits.{Fits, IsWords, default_handler-Fits}
use crest_rtos.Samples.{two_ready}

hex_beef : hex_text 0xdead_0bef ≡ codes "0xdead0bef"
unfolding hex_text
hex_beef = refl

new_line : uart_write (codes "a\n") ≡ codes "a\r\n"
unfolding uart_write
new_line = refl

abbrev fault : FaultState
fault = record {
  exc_return = 0xffff_fffd;
  msp = 0x2001_fff0;
  psp = 0x2000_1100;
  cfsr = 0x82;
  hfsr = 0;
  mmfar = 0x2000_0000;
  bfar = 0;
}

abbrev name_address : ℕ → ℕ
name_address t = 0x2000_0010

abbrev idle_name : ℕ → List ℕ
idle_name p = codes "idle"

fault-IsWords : IsWords two_ready name_address fault
fault-IsWords = record {
  exc_return = omega arith;
  msp = omega arith;
  psp = omega arith;
  cfsr = omega arith;
  hfsr = omega arith;
  mmfar = omega arith;
  bfar = omega arith;
  memory = λ a. omega arith;
  names = λ t. omega arith;
  pointers = λ t. ground arith;
}

default_handler-Fits_example : All (Fits idle_name) (default_handler two_ready name_address fault)
default_handler-Fits_example =
    default_handler-Fits idle_name two_ready name_address fault (λ p. omega arith) fault-IsWords
