-- ===== src/Sched/Next.antt =====
-- kernel/sched.c, scheduler_get_next: strict priority over the lists.
use crest_rtos.Base.{
  ==_refl, ℕ, zero, suc, ◌+◌, ◌<◌, ◌≤◌, ◌≡◌, ◌⊎◌, inl, inr, refl, List, [], ◌∷◌, true, false, none,
  some, Ptr, Option, arith, has, has-append, or_else, update, Option-cases, Bool-cases, ==_iff,
  ◌==◌, ap, ◌∙◌, subst, sym, eq_or_gt,
}
use crest_rtos.Kernel.{max_tasks, max_task_priorities, Kernel, Tcb, is_ready}
use crest_rtos.Sched.{next_round, scan, get_next_from, get_next}
use crest_rtos.Sched.Round.{first_ready}
use crest_rtos.Sched.Turn.{IsRing, turn, before, after, split_at, scan-turn}

-- The state after the choice of `t`: the cursor of its priority stands at the task behind it.
abbrev pub select : Kernel → ℕ → ℕ → Kernel
select k pr t = record k {
  rr_current = update k.rr_current pr (some (next_round k.tcb (or_else (k.task_list pr) 0) t));
}

-- What the search finds at priority `pr`, whose tasks are `ts`.
abbrev pub candidate : Kernel → ℕ → List ℕ → Ptr
candidate k pr ts = first_ready k.tcb (turn (k.rr_current pr) ts)

module _ (k : Kernel) (rounds pr : ℕ) where
  next-empty :
      k.task_list pr ≡ none → get_next_from (suc rounds) k pr ≡ get_next_from rounds k (pr + 1)
  unfolding get_next_from
  next-empty e = rw (e, get_next_from) refl

  next-skip :
      (list : ℕ)
      → k.task_list pr ≡ some list
      → scan max_tasks k.tcb list (or_else (k.rr_current pr) list) (or_else (k.rr_current pr) list)
        ≡ some none
      → get_next_from (suc rounds) k pr ≡ get_next_from rounds k (pr + 1)
  unfolding get_next_from
  next-skip list e s = rw (e, s, get_next_from) refl

  next-found :
      (list t : ℕ)
      → k.task_list pr ≡ some list
      → scan max_tasks k.tcb list (or_else (k.rr_current pr) list) (or_else (k.rr_current pr) list)
        ≡ some (some t)
      → get_next_from (suc rounds) k pr ≡ some (select k pr t, some t)
  unfolding get_next_from
  next-found list t e s = rw (e, s, get_next_from) refl

-- An empty list has no candidate.
candidate-empty :
    (k : Kernel) (pr : ℕ) (ts : List ℕ)
    → IsRing k pr ts
    → k.task_list pr ≡ none
    → candidate k pr ts ≡ none
candidate-empty k pr [] r e = elim (Option-cases (k.rr_current pr)) [
  | inl n ↦ rw n refl
  | inr (s, n) ↦ cc (r.cursor s n)
]
candidate-empty k pr (x ∷ xs) r e = cc (e, r.chain.0)

-- One priority: its candidate is chosen, or the search goes on.
one_list :
    (k : Kernel) (rounds pr : ℕ) (ts : List ℕ)
    → IsRing k pr ts
    → ((t : ℕ) × (candidate k pr ts ≡ some t)
        × (get_next_from (suc rounds) k pr ≡ some (select k pr t, some t)))
      ⊎ ((candidate k pr ts ≡ none)
          × (get_next_from (suc rounds) k pr ≡ get_next_from rounds k (pr + 1)))
one_list k rounds pr ts r = elim (Option-cases (k.task_list pr)) [
  | inl e ↦ inr (candidate-empty k pr ts r e, next-empty k rounds pr e)
  | inr (list, e) ↦ elim (Option-cases (candidate k pr ts)) [
    | inl n ↦ inr (n, next-skip k rounds pr list e (scan-turn k pr list ts r e ∙ ap some n))
    | inr (t, c) ↦
        inl (t, c, next-found k rounds pr list t e (scan-turn k pr list ts r e ∙ ap some c))
  ]
]

-- The first priority of a range with a candidate.
pub record Choice (k : Kernel) (ls : ℕ → List ℕ) (lo hi : ℕ) : Type 0 where
  pub prio : ℕ
  pub task : ℕ
  pub lower : lo ≤ prio
  pub upper : prio < hi
  pub is : candidate k prio (ls prio) ≡ some task
  pub earlier : (i : ℕ) → lo ≤ i → i < prio → candidate k i (ls i) ≡ none

abbrev pub NoChoice : Kernel → (ℕ → List ℕ) → ℕ → ℕ → Type 0
NoChoice k ls lo hi = (i : ℕ) → lo ≤ i → i < hi → candidate k i (ls i) ≡ none

-- What the search over the priorities `lo` to `lo + rounds - 1` returns.
abbrev pub Searched : Kernel → (ℕ → List ℕ) → ℕ → ℕ → Type 0
Searched k ls rounds lo =
    ((c : Choice k ls lo (lo + rounds)) × (get_next_from rounds k lo
        ≡ some (select k c.prio c.task, some c.task)))
    ⊎ (NoChoice k ls lo (lo + rounds) × (get_next_from rounds k lo ≡ some (k, none)))

-- The candidates below a first one that is missing.
earlier-from :
    (k : Kernel) (ls : ℕ → List ℕ) (lo hi : ℕ)
    → candidate k lo (ls lo) ≡ none
    → ((i : ℕ) → lo + 1 ≤ i → i < hi → candidate k i (ls i) ≡ none)
    → (i : ℕ) → lo ≤ i
    → i < hi
    → candidate k i (ls i) ≡ none
earlier-from k ls lo hi n later i a b = elim (eq_or_gt lo i a) [
  | inl q ↦ subst (λ j. candidate k j (ls j) ≡ none) q n
  | inr q ↦ later i q b
]

search_lem :
    (k : Kernel) (ls : ℕ → List ℕ) (rounds lo : ℕ)
    → ((i : ℕ) → lo ≤ i → i < lo + rounds → IsRing k i (ls i))
    → Searched k ls rounds lo
unfolding get_next_from
search_lem k ls zero lo rings = inr (λ i a b. absurd (omega arith), refl)
search_lem k ls (suc rounds) lo rings =
    elim (one_list k rounds lo (ls lo) (rings lo (omega arith) (omega arith))) [
      | inl (t, c, e) ↦ inl (
        record {
          prio = lo;
          task = t;
          lower = omega arith;
          upper = omega arith;
          is = c;
          earlier = λ i a b. absurd (omega arith);
        },
        e,
      )
      | inr (n, e) ↦
          elim (search_lem k ls rounds (lo + 1) (λ i a b. rings i (omega arith) (omega arith))) [
            | inl (c, e') ↦ inl (
              record {
                prio = c.prio;
                task = c.task;
                lower = omega (arith, c.lower);
                upper = omega (arith, c.upper);
                is = c.is;
                earlier = earlier-from k ls lo c.prio n c.earlier;
              },
              e ∙ e',
            )
            | inr (none_later, e') ↦ inr (
              earlier-from k ls lo (lo + suc rounds) n (λ i a b. none_later i a (omega arith)),
              e ∙ e',
            )
          ]
    ]

first_ready-some :
    (tcb : ℕ → Tcb) (xs : List ℕ) (t : ℕ)
    → first_ready tcb xs ≡ some t
    → (has t xs ≡ true) × (is_ready (tcb t).state ≡ true)
first_ready-some tcb [] t e = cc
first_ready-some tcb (x ∷ xs) t e = elim (Bool-cases (is_ready (tcb x).state)) [
  | inl r ↦ ground (arith, r)
  | inr r ↦ ground (arith, r, first_ready-some tcb xs t)
]

pub first_ready-none :
    (tcb : ℕ → Tcb) (xs : List ℕ) (u : ℕ)
    → first_ready tcb xs ≡ none
    → has u xs ≡ true
    → is_ready (tcb u).state ≡ false
first_ready-none tcb [] u e h = cc
first_ready-none tcb (x ∷ xs) u e h = elim (Bool-cases (x == u)) [
  | inl q ↦ subst (λ v. is_ready (tcb v).state ≡ false) ((==_iff x u).0 q) (ground arith)
  | inr q ↦ first_ready-none tcb xs u (ground arith) (ground (arith, q))
]

-- The turn holds the tasks of the list.
has-turn :
    (c : Ptr) (ts : List ℕ) (u : ℕ)
    → ((s : ℕ) → c ≡ some s → has s ts ≡ true)
    → has u (turn c ts) ≡ has u ts
has-turn none ts u h = refl
has-turn (some s) ts u h = ground (
  arith,
  ap (has u) (split_at s ts (h s refl)),
  has-append u (before s ts) (s ∷ after s ts),
  has-append u (after s ts) (before s ts),
)

-- A task that the search chose, of the highest priority with a READY task.
pub record IsNext (k : Kernel) (ls : ℕ → List ℕ) (pr t : ℕ) : Type 0 where
  pub inside : pr < max_task_priorities
  pub member : has t (ls pr) ≡ true
  pub is_ready_now : is_ready (k.tcb t).state ≡ true
  pub higher : (i u : ℕ) → i < pr → has u (ls i) ≡ true → is_ready (k.tcb u).state ≡ false

no_candidate :
    (k : Kernel) (pr u : ℕ) (ts : List ℕ)
    → IsRing k pr ts
    → candidate k pr ts ≡ none
    → has u ts ≡ true
    → is_ready (k.tcb u).state ≡ false
no_candidate k pr u ts r n h =
    first_ready-none k.tcb (turn (k.rr_current pr) ts) u n
      (has-turn (k.rr_current pr) ts u r.cursor ∙ h)

IsNext-of_Choice :
    (k : Kernel) (ls : ℕ → List ℕ) (c : Choice k ls 0 max_task_priorities)
    → ((pr : ℕ) → pr < max_task_priorities → IsRing k pr (ls pr))
    → IsNext k ls c.prio c.task
IsNext-of_Choice k ls c rings =
    let ring = rings c.prio c.upper in
    let (inside, now) =
      first_ready-some k.tcb (turn (k.rr_current c.prio) (ls c.prio)) c.task c.is in
    record {
      inside = c.upper;
      member = sym (has-turn (k.rr_current c.prio) (ls c.prio) c.task ring.cursor) ∙ inside;
      is_ready_now = now;
      higher = λ i u lt h.
          no_candidate k i u (ls i) (rings i (omega (arith, c.upper)))
            (c.earlier i (omega arith) lt) h;
    }

-- scheduler_get_next, where the priority lists hold the tasks of `ls`: it always returns. It
-- returns a READY task, of a priority above which no task is READY, and moves only the cursor of
-- that priority, to the task behind the one returned; or no task is READY, and it returns NULL and
-- changes nothing.
pub get_next_lem :
    (k : Kernel) (ls : ℕ → List ℕ)
    → ((pr : ℕ) → pr < max_task_priorities → IsRing k pr (ls pr))
    → ((pr : ℕ) × (t : ℕ) × (get_next k ≡ some (select k pr t, some t)) × IsNext k ls pr t)
      ⊎ ((get_next k ≡ some (k, none))
          × ((i u : ℕ)
              → i < max_task_priorities
              → has u (ls i) ≡ true
              → is_ready (k.tcb u).state ≡ false))
unfolding get_next
get_next_lem k ls rings =
    elim (search_lem k ls max_task_priorities 0 (λ i a b. rings i (omega arith))) [
      | inl (c, e) ↦ inl (c.prio, c.task, e, IsNext-of_Choice k ls c rings)
      | inr (n, e) ↦
          inr (e, λ i u lt h. no_candidate k i u (ls i) (rings i lt) (n i (omega arith) lt) h)
    ]

abbrev state_of : Option (Kernel × Ptr) → Kernel → Kernel
state_of none k = k
state_of (some (k', p)) k = k'

abbrev task_of : Option (Kernel × Ptr) → ℕ → ℕ
task_of none t = t
task_of (some (k, none)) t = t
task_of (some (k, some u)) t = u

-- The priority, the search and the cursor behind a task that was returned.
pub chosen_lem :
    (k k₁ : Kernel) (ls : ℕ → List ℕ) (t : ℕ)
    → ((pr : ℕ) → pr < max_task_priorities → IsRing k pr (ls pr))
    → get_next k ≡ some (k₁, some t)
    → (pr : ℕ) × (pr < max_task_priorities)
      × (candidate k pr (ls pr) ≡ some t)
      × (has t (ls pr) ≡ true)
      × (k₁ ≡ select k pr t)
unfolding get_next
chosen_lem k k₁ ls t rings e =
    elim (search_lem k ls max_task_priorities 0 (λ i a b. rings i (omega arith))) [
      | inl (c, e') ↦
          let (state, task) = same_pair (sym e' ∙ e) in
          let is = c.is ∙ ap some task in
          let (inside, _) = first_ready-some k.tcb (turn (k.rr_current c.prio) (ls c.prio)) t is in
          (
            c.prio,
            c.upper,
            is,
            sym (has-turn (k.rr_current c.prio) (ls c.prio) t (rings c.prio c.upper).cursor)
                ∙ inside,
            sym state ∙ ap (select k c.prio) task,
          )
      | inr (n, e') ↦ absurd (nothing (sym e' ∙ e))
    ]
  where
    same_pair :
        {a b : Kernel} {x y : ℕ}
        → ◌≡◌ {A = Option (Kernel × Ptr)} (some (a, some x)) (some (b, some y))
        → (a ≡ b) × (x ≡ y)
    same_pair {a} {b} {x} {y} q = (ap (λ o. state_of o a) q, ap (λ o. task_of o x) q)

    nothing : ◌≡◌ {A = Option (Kernel × Ptr)} (some (k, none)) (some (k₁, some t)) → ⊥
    nothing q = cc

-- A READY task that is alone at the highest priority is the next one.
pub first_alone :
    (k : Kernel) (ls : ℕ → List ℕ) (w : ℕ)
    → ((pr : ℕ) → pr < max_task_priorities → IsRing k pr (ls pr))
    → ls 0 ≡ w ∷ []
    → is_ready (k.tcb w).state ≡ true
    → get_next k ≡ some (select k 0 w, some w)
first_alone k ls w rings alone can = elim (get_next_lem k ls rings) [
  | inr (nothing, nobody) ↦ absurd (not_ready (nobody 0 w (omega arith) member))
  | inl (zero, t, found, next) ↦
      let here : has t (w ∷ []) ≡ true = subst (λ ts. has t ts ≡ true) alone next.member in
      let at : t ≡ w = ground (arith, here) in
      subst (λ t. get_next k ≡ some (select k 0 t, some t)) at found
  | inl (suc pr, t, found, next) ↦ absurd (not_ready (next.higher 0 w (omega arith) member))
]
  where
    not_ready : is_ready (k.tcb w).state ≡ false → ⊥
    not_ready e = cc (sym e ∙ can)

    member : has w (ls 0) ≡ true
    member = subst (λ ts. has w ts ≡ true) (sym alone) (rw (==_refl w) refl)
