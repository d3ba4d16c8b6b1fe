-- ===== src/Kobject/Handles.antt =====
-- kernel/kobject.c: what a handle is good for, from its allocation to its end and after.
use crest_rtos.Base.{
  ℕ, zero, suc, ◌+◌, ◌≤◌, ◌<◌, ◌≡◌, ◌≢◌, ◌⊎◌, inl, inr, refl, ◌∙◌, true, false, arith, update,
  Bool-cases, ==_of_ne, eq_or_gt, subst,
}
use crest_rtos.Kobject.{
  kobj_max, kobj_invalid, KobjType, same_type, Entry, Table, pack_handle, handle_index, handle_gen,
  bump, alloc_from, alloc, get,
}

pub same_type_refl : (ty : KobjType) → same_type ty ty ≡ true
same_type_refl KobjType.queue_object = refl
same_type_refl KobjType.sem_object = refl
same_type_refl KobjType.mutex_object = refl

-- A packed handle unpacks, and is never the invalid one.
pub pack_lem :
    (g i : ℕ)
    → i < kobj_max
    → (handle_index (pack_handle (bump g) i) ≡ i)
      × (handle_gen (pack_handle (bump g) i) ≡ bump g)
      × (pack_handle (bump g) i ≢ kobj_invalid)
pack_lem g i h = ground arith

abbrev pub entry_of : Table → ℕ → ℕ → KobjType → Entry
entry_of t i p ty = record { ptr = p; type_of = ty; in_use = true; gen = bump (t i).gen }

-- The slot that the loop finds.
pub record Found (r i : ℕ) (t : Table) (p : ℕ) (ty : KobjType) : Type 0 where
  pub slot : ℕ
  pub lower : i ≤ slot
  pub upper : slot < i + r
  pub unused : (t slot).in_use ≡ false
  pub result :
      alloc_from r i t p ty
      ≡ (update t slot (entry_of t slot p ty), pack_handle (bump (t slot).gen) slot)

module _ (r i : ℕ) (t : Table) (p : ℕ) (ty : KobjType) where
  alloc_from-used : (t i).in_use ≡ true → alloc_from (suc r) i t p ty ≡ alloc_from r (i + 1) t p ty
  unfolding alloc_from
  alloc_from-used e = rw (e, alloc_from) refl

  alloc_from-unused :
      (t i).in_use ≡ false
      → alloc_from (suc r) i t p ty
        ≡ (update t i (entry_of t i p ty), pack_handle (bump (t i).gen) i)
  unfolding alloc_from
  alloc_from-unused e = rw (e, alloc_from) refl

-- No slot of the range is free, and nothing is allocated.
abbrev pub Full : ℕ → ℕ → Table → ℕ → KobjType → Type 0
Full r i t p ty =
    (alloc_from r i t p ty ≡ (t, kobj_invalid))
    × ((j : ℕ) → i ≤ j → j < i + r → (t j).in_use ≡ true)

Found-later :
    (r i : ℕ) (t : Table) (p : ℕ) (ty : KobjType)
    → (t i).in_use ≡ true
    → Found r (i + 1) t p ty
    → Found (suc r) i t p ty
Found-later r i t p ty e f = record {
  slot = f.slot;
  lower = omega arith;
  upper = omega arith;
  unused = f.unused;
  result = alloc_from-used r i t p ty e ∙ f.result;
}

Full-later :
    (r i : ℕ) (t : Table) (p : ℕ) (ty : KobjType)
    → (t i).in_use ≡ true
    → Full r (i + 1) t p ty
    → Full (suc r) i t p ty
Full-later r i t p ty e (none_found, used) = (
  alloc_from-used r i t p ty e ∙ none_found,
  λ j a b. elim (eq_or_gt i j a) [
    | inl q ↦ subst (λ n. (t n).in_use ≡ true) q e
    | inr q ↦ used j q (omega arith)
  ],
)

-- The loop finds an unused slot, or all its slots are in use.
pub alloc_from_cases :
    (r i : ℕ) (t : Table) (p : ℕ) (ty : KobjType) → Found r i t p ty ⊎ Full r i t p ty
unfolding alloc_from
alloc_from_cases zero i t p ty = inr (refl, λ j a b. absurd (omega arith))
alloc_from_cases (suc r) i t p ty = elim (Bool-cases (t i).in_use) [
  | inr e ↦ inl (record {
    slot = i;
    lower = omega arith;
    upper = omega arith;
    unused = e;
    result = alloc_from-unused r i t p ty e;
  })
  | inl e ↦ elim (alloc_from_cases r (i + 1) t p ty) [
    | inl f ↦ inl (Found-later r i t p ty e f)
    | inr f ↦ inr (Full-later r i t p ty e f)
  ]
]

module _ (t : Table) (p : ℕ) (ty : KobjType) where
  pub alloc-nonnull : p ≢ 0 → alloc t p ty ≡ alloc_from kobj_max 0 t p ty
  unfolding alloc
  alloc-nonnull h = rw (==_of_ne p 0 h) refl

  -- What k_obj_get sees of the new entry, and of every other slot.
  pub get-entry :
      (i h : ℕ) (ty' : KobjType)
      → i < kobj_max
      → handle_index h ≢ i
      → get (update t i (entry_of t i p ty)) h ty' ≡ get t h ty'
  unfolding get
  get-entry i h ty' lt ne = rw (==_of_ne (handle_index h) i ne) refl

  pub get-new :
      (i : ℕ)
      → i < kobj_max
      → get (update t i (entry_of t i p ty)) (pack_handle (bump (t i).gen) i) ty ≡ p
  unfolding get
  get-new i lt = ground (arith, pack_lem (t i).gen i, same_type_refl ty)
