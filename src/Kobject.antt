-- ===== src/Kobject.antt =====
-- kernel/kobject.c: the table of kernel objects and its handles, generation in the high half,
-- index in the low half. An object pointer is an address, 0 is NULL.
pub mod Handles
pub mod Safety
mod Tests
use crest_rtos.Base.{
  ℕ, zero, suc, ◌+◌, ◌*◌, ◌/◌, ◌%◌, ◌^◌, Bool, true, false, not, ◌&&◌, ◌==◌, ltb, if◌then◌else◌,
  update,
}

abbrev pub kobj_max : ℕ
kobj_max = 32

abbrev pub kobj_invalid : ℕ
kobj_invalid = 0xffff_ffff

-- kobj_type_t
pub data KobjType : Type 0 where
  queue_object sem_object mutex_object : KobjType

abbrev pub same_type : KobjType → KobjType → Bool
same_type queue_object queue_object = true
same_type sem_object sem_object = true
same_type mutex_object mutex_object = true
same_type _ _ = false

-- kobj_entry_t
pub record Entry : Type 0 where
  pub ptr : ℕ
  pub type_of : KobjType
  pub in_use : Bool
  pub gen : ℕ

abbrev pub Table : Type 0
Table = ℕ → Entry

-- pack_handle: the shifted generation and the index have no bit in common.
abbrev pub pack_handle : ℕ → ℕ → ℕ
pack_handle gen i = gen * 2 ^ 16 + i

-- handle_index
abbrev pub handle_index : ℕ → ℕ
handle_index h = h % 2 ^ 16

-- handle_gen
abbrev pub handle_gen : ℕ → ℕ
handle_gen h = h / 2 ^ 16 % 2 ^ 16

-- `gen = (uint16_t)(gen + 1); if (gen == 0) gen = 1;`
abbrev pub bump : ℕ → ℕ
bump g = if (g + 1) % 2 ^ 16 == 0 then 1 else (g + 1) % 2 ^ 16

-- The loop of k_obj_alloc over the slots from `i` on.
unfoldable pub alloc_from : ℕ → ℕ → Table → ℕ → KobjType → Table × ℕ
alloc_from zero i t p ty = (t, kobj_invalid)
alloc_from (suc rounds) i t p ty = elim (t i).in_use [
  | true ↦ alloc_from rounds (i + 1) t p ty
  | false ↦
      let g = bump (t i).gen in
      (update t i (record { ptr = p; type_of = ty; in_use = true; gen = g }), pack_handle g i)
]

-- k_obj_alloc
unfoldable pub alloc : Table → ℕ → KobjType → Table × ℕ
unfolding alloc_from
alloc t p ty = if p == 0 then (t, kobj_invalid) else alloc_from kobj_max 0 t p ty

-- k_obj_get; 0 is NULL
unfoldable pub get : Table → ℕ → KobjType → ℕ
get t h ty =
    let e = t (handle_index h) in
    if h == kobj_invalid
    then 0
    else if not (ltb (handle_index h) kobj_max)
    then 0
    else if not e.in_use
    then 0
    else if not (e.gen == handle_gen h)
    then 0
    else if not (same_type e.type_of ty)
    then 0
    else e.ptr

-- k_obj_free
unfoldable pub free : Table → ℕ → Table
free t h =
    let i = handle_index h in
    let e = t i in
    if h == kobj_invalid
    then t
    else if not (ltb i kobj_max)
    then t
    else if e.in_use && e.gen == handle_gen h
    then update t i (record { ptr = 0; type_of = queue_object; in_use = false; gen = bump e.gen })
    else t
