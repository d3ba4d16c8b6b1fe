-- ===== src/Sched/Unlink.antt =====
-- kernel/sched.c, the loop of scheduler_remove_task: a task leaves its priority list.
use crest_rtos.Base.{
  ℕ, zero, suc, ◌<◌, ◌≡◌, ◌≢◌, inl, inr, refl, List, [], ◌∷◌, true, false, none, some, Ptr, arith,
  has, IsNodup, length, ◌==◌, Bool-cases, ==_iff, sym, subst, ap, ◌∙◌,
}
use crest_rtos.Chain.{Chain, Chain-move, remove, remove-head, remove-tail, has→ne}
use crest_rtos.Kernel.{Kernel, set_tcb}
use crest_rtos.Sched.{unlink, set_link}
use crest_rtos.Sched.Round.{nexts}

-- The control blocks of `k'` are those of `k`, but for their `next`.
abbrev pub OnlyNexts : Kernel → Kernel → Type 0
OnlyNexts k k' = (u : ℕ) → k'.tcb u ≡ record (k.tcb u) { next = nexts k'.tcb u }

-- The result of the search behind the task `q`, whose followers are `rs`.
record Behind (k : Kernel) (t q : ℕ) (rs : List ℕ) (k' : Kernel) : Type 0 where
  pub chain : Chain (nexts k'.tcb) (nexts k'.tcb q) (remove t rs)
  pub others : (u : ℕ) → u ≢ q → has u rs ≡ false → nexts k'.tcb u ≡ nexts k.tcb u
  pub only : OnlyNexts k k'
  pub rest : k' ≡ record k { tcb = k'.tcb }

-- `*p = tcb->next; tcb->next = NULL;`
abbrev cut : Kernel → ℕ → Ptr → ℕ → Kernel
cut k pr prev t =
    let k' = set_link k pr prev (k.tcb t).next in set_tcb k' t (record (k'.tcb t) { next = none })

module _ (k : Kernel) (pr t : ℕ) where
  unlink-found :
      (fuel : ℕ) (prev : Ptr) (c : ℕ)
      → (c == t) ≡ true
      → unlink (suc fuel) k pr t prev (some c) ≡ some (cut k pr prev t)
  unfolding unlink
  unlink-found fuel prev c e = rw (e, unlink) refl

  unlink-next :
      (fuel : ℕ) (prev : Ptr) (c : ℕ)
      → (c == t) ≡ false
      → unlink (suc fuel) k pr t prev (some c) ≡ unlink fuel k pr t (some c) (nexts k.tcb c)
  unfolding unlink
  unlink-next fuel prev c e = rw (e, unlink) refl

  unlink-none :
      (fuel : ℕ) (prev cur : Ptr) → cur ≡ none → unlink (suc fuel) k pr t prev cur ≡ some k
  unfolding unlink
  unlink-none fuel prev cur e = rw e refl

  cut-Behind :
      (q : ℕ) (rest : List ℕ)
      → q ≢ t
      → has q rest ≡ false
      → has t rest ≡ false
      → Chain (nexts k.tcb) (nexts k.tcb t) rest
      → Behind k t q (t ∷ rest) (cut k pr (some q) t)
  cut-Behind q rest ne out out' c =
      let tcb' = (cut k pr (some q) t).tcb in
      record {
        chain =
            Chain-move (nexts k.tcb) (nexts tcb') (nexts k.tcb t) (nexts tcb' q) rest
              (remove t (t ∷ rest)) (ground arith) (remove-head t rest)
              (λ u m. ground (arith, has→ne q u rest out m, has→ne t u rest out' m)) c;
        others = λ u n o. ground arith;
        only = λ u. ground arith;
        rest = refl;
      }

  -- The search behind a task that is not the one sought.
  next-Behind :
      (q c : ℕ) (rest : List ℕ) (k' : Kernel)
      → q ≢ c
      → (c == t) ≡ false
      → has q rest ≡ false
      → nexts k.tcb q ≡ some c
      → Behind k t c rest k'
      → Behind k t q (c ∷ rest) k'
  next-Behind q c rest k' ne e out link b = record {
    chain =
        subst (Chain (nexts k'.tcb) (nexts k'.tcb q)) (sym (remove-tail t c rest e))
          (b.others q ne out ∙ link, b.chain);
    others = λ u n o. b.others u (ground arith) (ground arith);
    only = b.only;
    rest = b.rest;
  }

  -- With a round for each follower and one more, the search ends.
  unlink-Behind :
      (fuel : ℕ) (q : ℕ) (cur : Ptr) (rs : List ℕ)
      → length rs < fuel
      → nexts k.tcb q ≡ cur
      → q ≢ t
      → has q rs ≡ false
      → IsNodup rs
      → Chain (nexts k.tcb) cur rs
      → (k' : Kernel) × (unlink fuel k pr t (some q) cur ≡ some k') × Behind k t q rs k'
  unlink-Behind zero q cur rs lt link ne out nd c = absurd (omega arith)
  unlink-Behind (suc fuel) q cur [] lt link ne out nd c = (
    k,
    unlink-none fuel (some q) cur c,
    record { chain = link ∙ c; others = λ u n o. refl; only = λ u. refl; rest = refl },
  )
  unlink-Behind (suc fuel) q cur (x ∷ rs) lt link ne out nd c = elim (Bool-cases (x == t)) [
    | inl e ↦
        let same : x ≡ t = (==_iff x t).0 e in
        (
          cut k pr (some q) t,
          rw c.0 (unlink-found fuel (some q) x e),
          subst (λ y. Behind k t q (y ∷ rs) (cut k pr (some q) t)) (sym same)
              (cut-Behind q rs ne (ground arith) (subst (λ y. has y rs ≡ false) same nd.0)
                (subst (λ y. Chain (nexts k.tcb) (nexts k.tcb y) rs) same c.1)),
        )
    | inr e ↦
        let (k', r, b) =
          unlink-Behind fuel x (nexts k.tcb x) rs (omega arith) refl (ground arith) nd.0 nd.1 c.1 in
        (
          k',
          rw c.0 (unlink-next fuel (some q) x e ∙ r),
          next-Behind q x rs k' (ground arith) e (ground arith) (link ∙ c.0) b,
        )
  ]

-- The task has left the list `pr`, which held the tasks `ts`.
pub record Unlinked (k : Kernel) (pr t : ℕ) (ts : List ℕ) (k' : Kernel) : Type 0 where
  pub chain : Chain (nexts k'.tcb) (k'.task_list pr) (remove t ts)
  pub others : (u : ℕ) → has u ts ≡ false → nexts k'.tcb u ≡ nexts k.tcb u
  pub heads : (j : ℕ) → j ≢ pr → k'.task_list j ≡ k.task_list j
  pub only : OnlyNexts k k'
  pub rest : k' ≡ record k { tcb = k'.tcb; task_list = k'.task_list }

module _ (k : Kernel) (pr t : ℕ) where
  first-Unlinked :
      (rest : List ℕ)
      → has t rest ≡ false
      → Chain (nexts k.tcb) (nexts k.tcb t) rest
      → Unlinked k pr t (t ∷ rest) (cut k pr none t)
  first-Unlinked rest out c =
      let k' = cut k pr none t in
      record {
        chain =
            Chain-move (nexts k.tcb) (nexts k'.tcb) (nexts k.tcb t) (k'.task_list pr) rest
              (remove t (t ∷ rest)) (ground arith) (remove-head t rest)
              (λ u m. ground (arith, has→ne t u rest out m)) c;
        others = λ u o. ground arith;
        heads = λ j ne. ground arith;
        only = λ u. ground arith;
        rest = refl;
      }

  later-Unlinked :
      (x : ℕ) (rest : List ℕ) (k' : Kernel)
      → (x == t) ≡ false
      → k.task_list pr ≡ some x
      → Behind k t x rest k'
      → Unlinked k pr t (x ∷ rest) k'
  later-Unlinked x rest k' e head b =
      let same : k'.task_list ≡ k.task_list = ap (λ (s : Kernel). s.task_list) b.rest in
      record {
        chain =
            subst (Chain (nexts k'.tcb) (k'.task_list pr)) (sym (remove-tail t x rest e))
              (ap (λ f. f pr) same ∙ head, b.chain);
        others = λ u o. b.others u (ground arith) (ground arith);
        heads = λ j ne. ap (λ f. f j) same;
        only = b.only;
        rest = b.rest ∙ ap (λ f. record k { tcb = k'.tcb; task_list = f }) (sym same);
      }

  -- With a round for each task of the list and one more, the loop ends and removes the task.
  pub unlink_lem :
      (fuel : ℕ) (ts : List ℕ)
      → length ts < fuel
      → IsNodup ts
      → Chain (nexts k.tcb) (k.task_list pr) ts
      → (k' : Kernel) × (unlink fuel k pr t none (k.task_list pr) ≡ some k') × Unlinked k pr t ts k'
  unlink_lem zero ts lt nd c = absurd (omega arith)
  unlink_lem (suc fuel) [] lt nd c = (
    k,
    unlink-none k pr t fuel none (k.task_list pr) c,
    record { chain = c; others = λ u o. refl; heads = λ j ne. refl; only = λ u. refl; rest = refl },
  )
  unlink_lem (suc fuel) (x ∷ xs) lt nd c = elim (Bool-cases (x == t)) [
    | inl e ↦
        let same : x ≡ t = (==_iff x t).0 e in
        (
          cut k pr none t,
          rw c.0 (unlink-found k pr t fuel none x e),
          subst (λ y. Unlinked k pr t (y ∷ xs) (cut k pr none t)) (sym same)
              (first-Unlinked xs (subst (λ y. has y xs ≡ false) same nd.0)
                (subst (λ y. Chain (nexts k.tcb) (nexts k.tcb y) xs) same c.1)),
        )
    | inr e ↦
        let (k', r, b) =
          unlink-Behind k pr t fuel x (nexts k.tcb x) xs (omega arith) refl (ground arith) nd.0 nd.1
            c.1 in
        (k', rw c.0 (unlink-next k pr t fuel none x e ∙ r), later-Unlinked x xs k' e c.0 b)
  ]
