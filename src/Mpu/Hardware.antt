-- ===== src/Mpu/Hardware.antt =====
-- What arch/arm/cortex-m4/port.c relies on in the MPU of the ARMv7-M architecture: the fields of
-- RBAR and RASR, and which region decides about an address.
use crest_rtos.Base.{
  ℕ, ◌+◌, ◌/◌, ◌%◌, ◌^◌, ◌≡◌, Bool, true, false, ◌&&◌, ◌||◌, ltb, leb, ◌==◌, List, [], ◌∷◌, ◌++◌,
  Option, none, some,
}
use crest_rtos.Mpu.{Region}

-- A region has 2^(SIZE + 1) bytes; SIZE is RASR[5:1], and RASR[0] enables the region.
abbrev pub width : Region → ℕ
width r = r.rasr / 2 % 32 + 1

abbrev pub covers : Region → ℕ → Bool
covers r a = (r.rasr % 2 == 1) && (a / 2 ^ width r == r.rbar / 2 ^ width r)

abbrev pub any_covers : List Region → ℕ → Bool
any_covers [] a = false
any_covers (r ∷ rs) a = covers r a || any_covers rs a

-- What the architecture asks of a region: at least 32 bytes, a base that is aligned to the size.
abbrev pub is_valid : Region → Bool
is_valid r = leb 5 (width r) && ((r.rbar % 2 ^ width r == 0) && ltb r.number 8)

-- Regions in the order of their numbers.
abbrev pub accepted_from : ℕ → List Region → Bool
accepted_from least [] = true
accepted_from least (r ∷ rs) = leb least r.number && (is_valid r && accepted_from (r.number + 1) rs)

abbrev pub accepted : List Region → Bool
accepted rs = accepted_from 0 rs

-- `decide rs a` is the region that decides about the address `a`: the highest-numbered one that
-- covers it.
pub record IsMpu (decide : List Region → ℕ → Option Region) : Type 0 where
  pub highest :
      (before after : List Region) (r : Region) (a : ℕ)
      → accepted (before ++ r ∷ after) ≡ true
      → covers r a ≡ true
      → any_covers after a ≡ false
      → decide (before ++ r ∷ after) a ≡ some r
  pub background :
      (rs : List Region) (a : ℕ) → accepted rs ≡ true → any_covers rs a ≡ false → decide rs a ≡ none

-- Who may do what at an address.
pub record Rights : Type 0 where
  pub user_read : Bool
  pub user_write : Bool
  pub user_execute : Bool
  pub kernel_write : Bool

-- The rights of an access field and an execute-never bit.
abbrev pub rights_by : ℕ → ℕ → Rights
rights_by ap xn =
    let reads = (ap == 2) || ((ap == 3) || leb 6 ap) in
    record {
      user_read = reads;
      user_write = ap == 3;
      user_execute = reads && (xn == 0);
      kernel_write = leb 1 ap && leb ap 3;
    }

-- AP is RASR[26:24], XN is RASR[28]. With PRIVDEFENA, the addresses of no region are the kernel's.
abbrev pub rights_of : Option Region → Rights
rights_of none = record {
  user_read = false;
  user_write = false;
  user_execute = false;
  kernel_write = true;
}
rights_of (some r) = rights_by (r.rasr / 2 ^ 24 % 8) (r.rasr / 2 ^ 28 % 2)
