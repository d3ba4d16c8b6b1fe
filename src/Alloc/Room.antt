-- ===== src/Alloc/Room.antt =====
-- kernel/alloc.c: requests that a large vacant block is sure to satisfy.
use crest_rtos.Base.{
  ℕ, ◌+◌, ◌-◌, ◌≤◌, ◌≡◌, ◌⊎◌, inl, inr, refl, subst, ap, arith, Bool, true, false, Bool-cases,
  Option, none, some, List, [], ◌∷◌, leb, if◌then◌else◌,
}
use crest_rtos.Alloc.{min_block_size}
use crest_rtos.Alloc.Tiles.{Tile, taken, vacant}
use crest_rtos.Alloc.Take.{place, place_behind, cut}
use crest_rtos.Alloc.Place.{IsShort}

-- Some vacant block has `room` bytes.
abbrev pub HasRoom : ℕ → List Tile → Type 0
HasRoom room [] = ⊥
HasRoom room (taken n ∷ ts) = HasRoom room ts
HasRoom room (vacant n ∷ ts) = (room ≤ n) ⊎ HasRoom room ts

pub HasRoom-not_short :
    (room need : ℕ) (ts : List Tile) → need ≤ room → HasRoom room ts → IsShort need ts → ⊥
HasRoom-not_short room need [] le h s = h
HasRoom-not_short room need (taken n ∷ ts) le h s = HasRoom-not_short room need ts le h s
HasRoom-not_short room need (vacant n ∷ ts) le (inl here) s = absurd (omega (arith, le, here, s.0))
HasRoom-not_short room need (vacant n ∷ ts) le (inr later) s =
    HasRoom-not_short room need ts le later s.1

abbrev tiles_of : Option (ℕ × List Tile) → List Tile → List Tile
tiles_of none us = us
tiles_of (some (a, ts)) us = ts

HasRoom-behind :
    (room : ℕ) (t : Tile) (o : Option (ℕ × List Tile)) (a : ℕ) (ts' : List Tile)
    → place_behind t o ≡ some (a, ts')
    → ((b : ℕ) (us : List Tile) → o ≡ some (b, us) → HasRoom room (t ∷ us))
    → HasRoom room ts'
HasRoom-behind room t none a ts' e h = cc
HasRoom-behind room t (some (b, us)) a ts' e h =
    subst (HasRoom room) (ap (λ o. tiles_of o []) e) (h b us refl)

HasRoom-cut :
    (room need n : ℕ) (ts : List Tile)
    → min_block_size ≤ room
    → HasRoom (room + need) (vacant n ∷ ts)
    → HasRoom room (cut need n ts)
HasRoom-cut room need n ts le h = elim (Bool-cases (leb min_block_size (n - need))) [
  | inl more ↦ rw more (split h)
  | inr whole ↦ rw whole (use_all whole h)
]
  where
    weaker : (us : List Tile) → HasRoom (room + need) us → HasRoom room us
    weaker [] g = g
    weaker (taken m ∷ us) g = weaker us g
    weaker (vacant m ∷ us) (inl here) = inl (omega (arith, here))
    weaker (vacant m ∷ us) (inr later) = inr (weaker us later)

    split : HasRoom (room + need) (vacant n ∷ ts) → HasRoom room (vacant (n - need) ∷ ts)
    split (inl here) = inl (omega (arith, here))
    split (inr later) = inr (weaker ts later)

    use_all :
        leb min_block_size (n - need) ≡ false
        → HasRoom (room + need) (vacant n ∷ ts)
        → HasRoom room ts
    use_all q (inl here) = absurd (ground (arith, q, here, le))
    use_all q (inr later) = weaker ts later

-- After an allocation of `need` bytes, a block that was larger still has the rest.
pub HasRoom-place :
    (room need here : ℕ) (ts : List Tile) (a : ℕ) (ts' : List Tile)
    → min_block_size ≤ room
    → place need here ts ≡ some (a, ts')
    → HasRoom (room + need) ts
    → HasRoom room ts'
HasRoom-place room need here [] a ts' le e h = absurd h
HasRoom-place room need here (taken n ∷ ts) a ts' le e h =
    HasRoom-behind room (taken n) (place need (here + n) ts) a ts' e
      (λ b us q. HasRoom-place room need (here + n) ts b us le q h)
HasRoom-place room need here (vacant n ∷ ts) a ts' le e h =
    by_size (leb need n) refl e
      (λ more b us q. HasRoom-place room need (here + n) ts b us le q more)
  where
    later : leb need n ≡ false → HasRoom (room + need) ts
    later small = elim h [ inl large ↦ absurd (ground (arith, small, large)) | inr more ↦ more ]

    by_size :
        (b : Bool)
        → leb need n ≡ b
        → (if b
            then some (here, cut need n ts)
            else place_behind (vacant n) (place need (here + n) ts))
          ≡ some (a, ts')
        → (HasRoom (room + need) ts
            → (c : ℕ) (us : List Tile) → place need (here + n) ts ≡ some (c, us)
            → HasRoom room us)
        → HasRoom room ts'
    by_size true q e' rest =
        subst (HasRoom room) (ap (λ o. tiles_of o []) e') (HasRoom-cut room need n ts le h)
    by_size false q e' rest =
        HasRoom-behind room (vacant n) (place need (here + n) ts) a ts' e'
          (λ b us q'. inr (rest (later q) b us q'))
