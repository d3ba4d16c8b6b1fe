-- ===== src/Kobject/Safety.antt =====
-- kernel/kobject.c: handles are usable from their allocation to their end, and stale afterwards.
use crest_rtos.Base.{
  ℕ, ◌<◌, ◌^◌, ◌≡◌, ◌≢◌, ◌⊎◌, inl, inr, refl, true, false, arith, Bool-cases, ◌==◌, ==_iff, ap, sym,
}
use crest_rtos.Kobject.{
  kobj_max, kobj_invalid, KobjType, same_type, Table, handle_index, handle_gen, bump, alloc, get,
  free,
}
use crest_rtos.Kobject.Handles.{alloc_from_cases, alloc-nonnull, get-entry, get-new, pack_lem}

-- What k_obj_get has checked of a handle that it accepts.
pub record Live (t : Table) (h : ℕ) (ty : KobjType) : Type 0 where
  pub valid : h ≢ kobj_invalid
  pub index : handle_index h < kobj_max
  pub used : (t (handle_index h)).in_use ≡ true
  pub fresh : (t (handle_index h)).gen ≡ handle_gen h
  pub typed : same_type (t (handle_index h)).type_of ty ≡ true

pub Live-of_get : (t : Table) (h : ℕ) (ty : KobjType) → get t h ty ≢ 0 → Live t h ty
unfolding get
Live-of_get t h ty n = record {
  valid = ground arith;
  index = ground arith;
  used = ground arith;
  fresh = ground arith;
  typed = ground arith;
}

-- Where the table has a free slot, k_obj_alloc returns a valid handle, k_obj_get at that handle
-- and type returns the pointer, and every handle that was usable still yields the same object.
pub get-alloc :
    (t : Table) (p : ℕ) (ty : KobjType) (j : ℕ)
    → p ≢ 0
    → j < kobj_max
    → (t j).in_use ≡ false
    → ((alloc t p ty).1 ≢ kobj_invalid)
      × (get (alloc t p ty).0 (alloc t p ty).1 ty ≡ p)
      × ((h : ℕ) (ty' : KobjType) → get t h ty' ≢ 0 → get (alloc t p ty).0 h ty' ≡ get t h ty')
get-alloc t p ty j nn lt unused = elim (alloc_from_cases kobj_max 0 t p ty) [
  | inr full ↦ cc (full.1 j (omega arith) (omega arith))
  | inl f ↦
      rw (alloc-nonnull t p ty nn, f.result)
        (
          (pack_lem (t f.slot).gen f.slot (omega (arith, f.upper))).2,
          get-new t p ty f.slot (omega (arith, f.upper)),
          λ h ty' live.
              get-entry t p ty f.slot h ty' (omega (arith, f.upper))
                (λ e. let l = Live-of_get t h ty' live in cc (l.used, f.unused, e)),
        )
]

-- On a full table k_obj_alloc returns KOBJ_INVALID and changes nothing.
pub alloc_full :
    (t : Table) (p : ℕ) (ty : KobjType)
    → ((j : ℕ) → j < kobj_max → (t j).in_use ≡ true)
    → alloc t p ty ≡ (t, kobj_invalid)
unfolding alloc
alloc_full t p ty used = elim (alloc_from_cases kobj_max 0 t p ty) [
  | inl f ↦ cc (used f.slot (omega (arith, f.upper)), f.unused)
  | inr full ↦ elim (Bool-cases (p == 0)) [ inl e ↦ rw e refl | inr e ↦ rw e full.0 ]
]

pub get_stale :
    (t : Table) (h : ℕ) (ty : KobjType) → (t (handle_index h)).gen ≢ handle_gen h → get t h ty ≡ 0
unfolding get
get_stale t h ty ne = ground arith

module _ (t : Table) (h : ℕ) (ty : KobjType) (live : Live t h ty) where
  -- The slot after k_obj_free.
  gen-free : (free t h (handle_index h)).gen ≡ bump (t (handle_index h)).gen
  unfolding free
  gen-free = ground (arith, live.valid, live.index, live.used, live.fresh)

  in_use-free : (free t h (handle_index h)).in_use ≡ false
  unfolding free
  in_use-free = ground (arith, live.valid, live.index, live.used, live.fresh)

-- A slot that the handle does not name keeps its entry.
free-other : (t : Table) (h i : ℕ) → i ≢ handle_index h → free t h i ≡ t i
unfolding free
free-other t h i ne = ground arith

-- k_obj_get reads the slot of the handle alone.
get_local :
    (t t' : Table) (h : ℕ) (ty : KobjType)
    → t' (handle_index h) ≡ t (handle_index h)
    → get t' h ty ≡ get t h ty
unfolding get
get_local t t' h ty e = rw e refl

bump_ne : (g : ℕ) → g < 2 ^ 16 → (bump g ≢ g) × (bump (bump g) ≢ g)
bump_ne g lt = (ground arith, ground arith)

-- The generation of a slot after an allocation: bumped once more, or the same.
alloc_gen :
    (t : Table) (p : ℕ) (ty : KobjType) (i : ℕ)
    → ((alloc t p ty).0 i ≡ t i) ⊎ (((alloc t p ty).0 i).gen ≡ bump (t i).gen)
unfolding alloc
alloc_gen t p ty i = elim (Bool-cases (p == 0)) [
  | inl e ↦ inl (rw e refl)
  | inr e ↦ elim (alloc_from_cases kobj_max 0 t p ty) [
    | inr full ↦ inl (rw (e, full.0) refl)
    | inl f ↦ elim (Bool-cases (i == f.slot)) [
      | inl q ↦ inr (rw (e, f.result, q) (ap (λ n. bump (t n).gen) (sym ((==_iff i f.slot).0 q))))
      | inr q ↦ inl (rw (e, f.result, q) refl)
    ]
  ]
]

-- After k_obj_free of a usable handle, that handle is
-- refused at every type, also after a further allocation; each handle of another slot yields what
-- it yielded.
pub free_stale :
    (t : Table) (h p : ℕ) (ty ty' ty'' : KobjType)
    → get t h ty ≢ 0
    → (get (free t h) h ty' ≡ 0)
      × (get (alloc (free t h) p ty'').0 h ty' ≡ 0)
      × ((h' : ℕ) → handle_index h' ≢ handle_index h → get (free t h) h' ty' ≡ get t h' ty')
free_stale t h p ty ty' ty'' usable =
    let live = Live-of_get t h ty usable in
    let g = gen-free t h ty live in
    let g16 : handle_gen h < 2 ^ 16 = omega arith in
    let ne = bump_ne (handle_gen h) g16 in
    (
      get_stale (free t h) h ty' (ground (arith, g, live.fresh, ne)),
      get_stale (alloc (free t h) p ty'').0 h ty'
          (elim (alloc_gen (free t h) p ty'' (handle_index h)) [
            | inl e ↦ ground (arith, e, g, live.fresh, ne)
            | inr e ↦ ground (arith, e, g, live.fresh, ne)
          ]),
      λ h' d. get_local t (free t h) h' ty' (free-other t h (handle_index h') d),
    )
