-- ===== src/Sched/Round.antt =====
-- kernel/sched.c, the inner loop of scheduler_get_next: one round through a circular list.
use crest_rtos.Base.{
  ℕ, zero, suc, ◌<◌, ◌≤◌, ◌≡◌, ◌≢◌, refl, List, [], ◌∷◌, ◌++◌, true, false, none, some, Ptr, arith,
  has, length, if◌then◌else◌, or_else, Bool-cases, inl, inr, ap, subst, sym, ◌∙◌,
}
use crest_rtos.Chain.{Chain}
use crest_rtos.Kernel.{Tcb, is_ready}
use crest_rtos.Sched.{next_round, scan}

-- `next` of each task.
abbrev pub nexts : (ℕ → Tcb) → ℕ → Ptr
nexts tcb t = (tcb t).next

-- The first READY task of the list.
abbrev pub first_ready : (ℕ → Tcb) → List ℕ → Ptr
first_ready tcb [] = none
first_ready tcb (x ∷ xs) = if is_ready (tcb x).state then some x else first_ready tcb xs

-- From `t` the steps lead through the tasks of the list and then, for the first time, to `start`.
abbrev pub Orbit : (ℕ → ℕ) → ℕ → ℕ → List ℕ → Type 0
Orbit step start t [] = t ≡ start
Orbit step start t (x ∷ []) = (x ≡ t) × (step t ≡ start)
Orbit step start t (x ∷ y ∷ r) = (x ≡ t) × (step t ≢ start) × Orbit step start (step t) (y ∷ r)

module _ (tcb : ℕ → Tcb) (list start : ℕ) where
  scan-ready :
      (fuel t : ℕ)
      → is_ready (tcb t).state ≡ true
      → scan (suc fuel) tcb list start t ≡ some (some t)
  unfolding scan
  scan-ready fuel t e = rw (e, scan) refl

  scan-last :
      (fuel t : ℕ)
      → is_ready (tcb t).state ≡ false
      → next_round tcb list t ≡ start
      → scan (suc fuel) tcb list start t ≡ some none
  unfolding scan
  scan-last fuel t e s = ground arith

  scan-step :
      (fuel t : ℕ)
      → is_ready (tcb t).state ≡ false
      → next_round tcb list t ≢ start
      → scan (suc fuel) tcb list start t ≡ scan fuel tcb list start (next_round tcb list t)
  unfolding scan
  scan-step fuel t e s = ground arith

  -- The loop returns the first READY task of the round.
  pub scan-Orbit :
      (fuel t : ℕ) (xs : List ℕ)
      → 0 < length xs
      → length xs ≤ fuel
      → Orbit (next_round tcb list) start t xs
      → scan fuel tcb list start t ≡ some (first_ready tcb xs)
  scan-Orbit fuel t [] pos le o = absurd (omega arith)
  scan-Orbit zero t (x ∷ xs) pos le o = absurd (omega arith)
  scan-Orbit (suc fuel) t (x ∷ []) pos le (e, s) = elim (Bool-cases (is_ready (tcb t).state)) [
    | inl r ↦ rw (e, r) (scan-ready fuel t r)
    | inr r ↦ rw (e, r) (scan-last fuel t r s)
  ]
  scan-Orbit (suc fuel) t (x ∷ y ∷ rest) pos le (e, ne, o) =
      let ih = scan-Orbit fuel (next_round tcb list t) (y ∷ rest) (omega arith) (omega arith) o in
      elim (Bool-cases (is_ready (tcb t).state)) [
        | inl r ↦ rw (e, r) (scan-ready fuel t r)
        | inr r ↦ rw (e, r) (scan-step fuel t r ne ∙ ih)
      ]

-- The way on from the end of the list: back to its head, and through the tasks before `start`.
abbrev pub Wrap : (ℕ → ℕ) → ℕ → ℕ → List ℕ → Type 0
Wrap step start list [] = list ≡ start
Wrap step start list (y ∷ ys) = (list ≢ start) × Orbit step start list (y ∷ ys)

module _ (tcb : ℕ → Tcb) (list : ℕ) where
  abbrev pub step : ℕ → ℕ
  step = next_round tcb list

  pub step-next : (t x : ℕ) → nexts tcb t ≡ some x → step t ≡ x
  step-next t x e = ap (λ p. or_else p list) e

  pub step-end : (t : ℕ) → nexts tcb t ≡ none → step t ≡ list
  step-end t e = ap (λ p. or_else p list) e

  pub Orbit-suffix :
      (start x : ℕ) (xs pre : List ℕ)
      → Chain (nexts tcb) (nexts tcb x) xs
      → has start xs ≡ false
      → Wrap step start list pre
      → Orbit step start x (x ∷ xs ++ pre)
  Orbit-suffix start x [] [] c out w = (refl, step-end x c ∙ w)
  Orbit-suffix start x [] (y ∷ ys) c out (ne, o) = (
    refl,
    λ q. ne (sym (step-end x c) ∙ q),
    subst (λ n. Orbit step start n (y ∷ ys)) (sym (step-end x c)) o,
  )
  Orbit-suffix start x (x' ∷ xs) pre (e, c) out w =
      let s = step-next x x' e in
      (
        refl,
        λ q. ground (arith, out, s, q),
        subst (λ n. Orbit step start n (x' ∷ xs ++ pre)) (sym s)
            (Orbit-suffix start x' xs pre c (ground arith) w),
      )

  pub Orbit-prefix :
      (start y : ℕ) (ys post : List ℕ)
      → Chain (nexts tcb) (nexts tcb y) (ys ++ start ∷ post)
      → has start ys ≡ false
      → Orbit step start y (y ∷ ys)
  Orbit-prefix start y [] post c out = (refl, step-next y start c.0)
  Orbit-prefix start y (y' ∷ ys) post (e, c) out =
      let s = step-next y y' e in
      (
        refl,
        λ q. ground (arith, out, s, q),
        subst (λ n. Orbit step start n (y' ∷ ys)) (sym s)
            (Orbit-prefix start y' ys post c (ground arith)),
      )
