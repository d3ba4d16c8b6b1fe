-- ===== src/Sched/Turn.antt =====
-- kernel/sched.c: the order in which scheduler_get_next looks at the tasks of one priority.
use crest_rtos.Base.{
  ℕ, ◌≤◌, ◌≡◌, refl, List, [], ◌∷◌, ◌++◌, true, false, none, some, Ptr, arith, has, IsNodup, length,
  length-append, ◌==◌, ==_refl, if◌then◌else◌, or_else, Bool-cases, inl, inr, ==_iff, ap, subst,
  sym, ◌∙◌,
}
use mathlib.Core.List.{append-nil}
use crest_rtos.Chain.{Chain}
use crest_rtos.Kernel.{max_tasks, Tcb, Kernel}
use crest_rtos.Sched.{next_round, scan}
use crest_rtos.Sched.Round.{nexts, first_ready, Orbit, Wrap, scan-Orbit, Orbit-suffix, Orbit-prefix}

-- The tasks before `s`, and those behind it.
abbrev pub before : ℕ → List ℕ → List ℕ
before s [] = []
before s (x ∷ xs) = if x == s then [] else x ∷ before s xs

abbrev pub after : ℕ → List ℕ → List ℕ
after s [] = []
after s (x ∷ xs) = if x == s then xs else after s xs

-- The list from the cursor on, and round to it; from the head, if there is no cursor.
abbrev pub turn : Ptr → List ℕ → List ℕ
turn none ts = ts
turn (some s) ts = s ∷ after s ts ++ before s ts

pub split_at : (s : ℕ) (ts : List ℕ) → has s ts ≡ true → before s ts ++ (s ∷ after s ts) ≡ ts
split_at s [] h = cc
split_at s (x ∷ xs) h = elim (Bool-cases (x == s)) [
  | inl e ↦ rw (e, (==_iff x s).0 e) refl
  | inr e ↦ rw e (ap (λ r. x ∷ r) (split_at s xs (ground (arith, e))))
]

pub has-before : (s : ℕ) (ts : List ℕ) → has s (before s ts) ≡ false
has-before s [] = refl
has-before s (x ∷ xs) = ground (arith, has-before s xs)

pub has-after : (s : ℕ) (ts : List ℕ) → IsNodup ts → has s (after s ts) ≡ false
has-after s [] n = refl
has-after s (x ∷ xs) n = ground (arith, has-after s xs n.1)

-- A priority list in order: the links lead from its head through the tasks `ts`, no two alike and
-- no more than the pool has, and the cursor is NULL or points at one of them.
pub record IsRing (k : Kernel) (pr : ℕ) (ts : List ℕ) : Type 0 where
  pub chain : Chain (nexts k.tcb) (k.task_list pr) ts
  pub nodup : IsNodup ts
  pub few : length ts ≤ max_tasks
  pub cursor : (s : ℕ) → k.rr_current pr ≡ some s → has s ts ≡ true

-- The chain behind a part of the list.
pub Chain-behind :
    (link : ℕ → Ptr) (p : Ptr) (pre : List ℕ) (s : ℕ) (post : List ℕ)
    → Chain link p (pre ++ (s ∷ post))
    → Chain link (link s) post
Chain-behind link p [] s post c = c.1
Chain-behind link p (x ∷ xs) s post c = Chain-behind link (link x) xs s post c.1

module _ (tcb : ℕ → Tcb) (list : ℕ) where
  Wrap-at :
      (s : ℕ) (pre post : List ℕ)
      → Chain (nexts tcb) (some list) (pre ++ (s ∷ post))
      → has s pre ≡ false
      → Wrap (next_round tcb list) s list pre
  Wrap-at s [] post c out = ground (arith, c.0)
  Wrap-at s (y ∷ ys) post (e, c) out =
      let q : list ≡ y = ground arith in
      (
        ground (arith, out, q),
        subst (λ n. Orbit (next_round tcb list) s n (y ∷ ys)) (sym q)
            (Orbit-prefix tcb list s y ys post c (ground (arith, out))),
      )

  -- From a task of the list the steps go round, by its followers and then its predecessors.
  Orbit-at :
      (s : ℕ) (ts : List ℕ)
      → Chain (nexts tcb) (some list) ts
      → IsNodup ts
      → has s ts ≡ true
      → Orbit (next_round tcb list) s s (turn (some s) ts)
  Orbit-at s ts c n h =
      let c' = subst (Chain (nexts tcb) (some list)) (sym (split_at s ts h)) c in
      Orbit-suffix tcb list s s (after s ts) (before s ts)
        (Chain-behind (nexts tcb) (some list) (before s ts) s (after s ts) c') (has-after s ts n)
        (Wrap-at s (before s ts) (after s ts) c' (has-before s ts))

pub length-turn : (s : ℕ) (ts : List ℕ) → has s ts ≡ true → length (turn (some s) ts) ≡ length ts
length-turn s ts h =
    let e = ap length (split_at s ts h) in
    omega (
      arith,
      e,
      length-append (before s ts) (s ∷ after s ts),
      length-append (after s ts) (before s ts),
    )

-- At the head the turn is the list itself.
pub turn-head : (s : ℕ) (ts : List ℕ) → turn (some s) (s ∷ ts) ≡ s ∷ ts
turn-head s ts = rw (==_refl s) (ap (λ r. s ∷ r) (append-nil ts))

head-of :
    (link : ℕ → Ptr) (list : ℕ) (ts : List ℕ)
    → Chain link (some list) ts
    → (rest : List ℕ) × (ts ≡ list ∷ rest)
head-of link list [] c = cc
head-of link list (x ∷ xs) c = (xs, ground (arith, c.0))

module _ (tcb : ℕ → Tcb) (list : ℕ) (ts : List ℕ) where
  scan-from :
      (s : ℕ)
      → Chain (nexts tcb) (some list) ts
      → IsNodup ts
      → length ts ≤ max_tasks
      → has s ts ≡ true
      → scan max_tasks tcb list s s ≡ some (first_ready tcb (turn (some s) ts))
  scan-from s c n few h =
      scan-Orbit tcb list s max_tasks s (turn (some s) ts) (omega arith)
        (omega (arith, length-turn s ts h)) (Orbit-at tcb list s ts c n h)

  scan-cursor :
      (c : Ptr)
      → Chain (nexts tcb) (some list) ts
      → IsNodup ts
      → length ts ≤ max_tasks
      → ((s : ℕ) → c ≡ some s → has s ts ≡ true)
      → scan max_tasks tcb list (or_else c list) (or_else c list)
        ≡ some (first_ready tcb (turn c ts))
  scan-cursor (some s) c n few h = scan-from s c n few (h s refl)
  scan-cursor none c n few h =
      let (rest, e) = head-of (nexts tcb) list ts c in
      scan-from list c n few (rw (e, ==_refl list) refl)
      ∙ ap (λ r. some (first_ready tcb r)) {x = turn (some list) ts} (rw e (turn-head list rest))

-- The loop over a priority list returns the first READY task in turn.
pub scan-turn :
    (k : Kernel) (pr list : ℕ) (ts : List ℕ)
    → IsRing k pr ts
    → k.task_list pr ≡ some list
    → scan max_tasks k.tcb list (or_else (k.rr_current pr) list) (or_else (k.rr_current pr) list)
      ≡ some (first_ready k.tcb (turn (k.rr_current pr) ts))
scan-turn k pr list ts r e =
    scan-cursor k.tcb list ts (k.rr_current pr) (subst (λ p. Chain (nexts k.tcb) p ts) e r.chain)
      r.nodup r.few r.cursor
