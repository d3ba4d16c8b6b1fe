-- ===== src/Tick/Splice.antt =====
-- kernel/sched.c, the splice of sync_tick_all: a task leaves the wait list that it stands in.
use crest_rtos.Base.{
  ℕ, zero, suc, ◌<◌, ◌≡◌, ◌≢◌, inl, inr, refl, List, [], ◌∷◌, true, false, none, some, Ptr, arith,
  has, IsNodup, length, ◌==◌, update, Bool-cases, ==_iff, sym, subst, ap, ◌∙◌,
}
use crest_rtos.Chain.{
  Chain, Chain-move, remove, remove-head, remove-tail, has→ne, has-remove, IsNodup-remove,
}
use crest_rtos.Kernel.{Kernel, WaitRef, set_tcb, wait_head, set_wait_head}
use crest_rtos.Sync.Waits.{
  wait_links, Waits, tcb-set, wait_head-set, wait_head-tcb, set_wait_head_self, Waits-uncons,
}
use crest_rtos.Tick.{splice, set_wait_link}

-- The control blocks of `k'` are those of `k`, but for their `wait_next`.
abbrev pub OnlyLinks : Kernel → Kernel → Type 0
OnlyLinks k k' = (u : ℕ) → k'.tcb u ≡ record (k.tcb u) { wait_next = wait_links k' u }

-- The result of the search behind the task `q`, whose followers are `rs`.
pub record Behind (k : Kernel) (t q : ℕ) (rs : List ℕ) (k' : Kernel) : Type 0 where
  pub chain : Chain (wait_links k') (wait_links k' q) (remove t rs)
  pub others : (u : ℕ) → u ≢ q → has u rs ≡ false → wait_links k' u ≡ wait_links k u
  pub only : OnlyLinks k k'
  pub rest : k' ≡ record k { tcb = k'.tcb }
  pub loose : has t rs ≡ true → wait_links k' t ≡ none

-- `prev->wait_next = t->wait_next; t->wait_next = NULL;`
abbrev cut : Kernel → WaitRef → Ptr → ℕ → Kernel
cut k ref prev t =
    let k' = set_wait_link k ref prev (k.tcb t).wait_next in
    set_tcb k' t (record (k'.tcb t) { wait_next = none })

module _ (k : Kernel) (ref : WaitRef) (t : ℕ) where
  splice-found :
      (fuel : ℕ) (prev : Ptr) (c : ℕ)
      → (c == t) ≡ true
      → splice (suc fuel) k ref t prev (some c) ≡ some (cut k ref prev t)
  unfolding splice
  splice-found fuel prev c e = rw (e, splice) refl

  splice-next :
      (fuel : ℕ) (prev : Ptr) (c : ℕ)
      → (c == t) ≡ false
      → splice (suc fuel) k ref t prev (some c) ≡ splice fuel k ref t (some c) (wait_links k c)
  unfolding splice
  splice-next fuel prev c e = rw (e, splice) refl

  cut-Behind :
      (q : ℕ) (rest : List ℕ)
      → q ≢ t
      → has q rest ≡ false
      → has t rest ≡ false
      → Chain (wait_links k) (wait_links k t) rest
      → Behind k t q (t ∷ rest) (cut k ref (some q) t)
  cut-Behind q rest ne out out' c = record {
    chain =
        Chain-move (wait_links k) (wait_links (cut k ref (some q) t)) (wait_links k t)
          (wait_links (cut k ref (some q) t) q) rest (remove t (t ∷ rest)) (ground arith)
          (remove-head t rest)
          (λ u m. ground (arith, has→ne q u rest out m, has→ne t u rest out' m)) c;
    others = λ u n o. ground arith;
    only = λ u. ground arith;
    rest = refl;
    loose = λ _. ground arith;
  }

  splice-none :
      (fuel : ℕ) (prev cur : Ptr) → cur ≡ none → splice (suc fuel) k ref t prev cur ≡ some k
  unfolding splice
  splice-none fuel prev cur e = rw e refl

  stay-Behind : (q : ℕ) (cur : Ptr) → wait_links k q ≡ cur → cur ≡ none → Behind k t q [] k
  stay-Behind q cur link e = record {
    chain = link ∙ e;
    others = λ u n o. refl;
    only = λ u. refl;
    rest = refl;
    loose = λ m. cc;
  }

  -- The search behind a task that is not the one sought.
  next-Behind :
      (q c : ℕ) (rest : List ℕ) (k' : Kernel)
      → q ≢ c
      → (c == t) ≡ false
      → has q rest ≡ false
      → wait_links k q ≡ some c
      → Behind k t c rest k'
      → Behind k t q (c ∷ rest) k'
  next-Behind q c rest k' ne e out link b = record {
    chain =
        subst (Chain (wait_links k') (wait_links k' q)) (sym (remove-tail t c rest e))
          (b.others q ne out ∙ link, b.chain);
    others = λ u n o. b.others u (ground arith) (ground arith);
    only = b.only;
    rest = b.rest;
    loose = λ m. b.loose (ground (arith, e));
  }

  splice-Behind :
      (fuel : ℕ) (q : ℕ) (cur : Ptr) (rs : List ℕ)
      → length rs < fuel
      → wait_links k q ≡ cur
      → q ≢ t
      → has q rs ≡ false
      → IsNodup rs
      → Chain (wait_links k) cur rs
      → (k' : Kernel) × (splice fuel k ref t (some q) cur ≡ some k') × Behind k t q rs k'
  splice-Behind zero q cur rs lt link ne out nd c = absurd (omega arith)
  splice-Behind (suc fuel) q cur [] lt link ne out nd c =
      (k, splice-none fuel (some q) cur c, stay-Behind q cur link c)
  splice-Behind (suc fuel) q cur (x ∷ rs) lt link ne out nd c = elim (Bool-cases (x == t)) [
    | inl e ↦
        let same : x ≡ t = (==_iff x t).0 e in
        (
          cut k ref (some q) t,
          rw c.0 (splice-found fuel (some q) x e),
          subst (λ y. Behind k t q (y ∷ rs) (cut k ref (some q) t)) (sym same)
              (cut-Behind q rs ne (ground arith) (subst (λ y. has y rs ≡ false) same nd.0)
                (subst (λ y. Chain (wait_links k) (wait_links k y) rs) same c.1)),
        )
    | inr e ↦
        let (k', r, b) =
          splice-Behind fuel x (wait_links k x) rs (omega arith) refl (ground arith) nd.0 nd.1
            c.1 in
        (
          k',
          rw c.0 (splice-next fuel (some q) x e ∙ r),
          next-Behind q x rs k' (ground arith) e (ground arith) (link ∙ c.0) b,
        )
  ]

-- A task has left the wait list at `ref`, which held the tasks `ts`: the list is `ts` without it,
-- and nothing else has changed but links of tasks in the list.
pub record Spliced (k : Kernel) (ref : WaitRef) (t : ℕ) (ts : List ℕ) (k' : Kernel) : Type 0 where
  pub waits : Waits k' ref (remove t ts)
  pub only : OnlyLinks k k'
  pub rest : k' ≡ record (set_wait_head k ref (wait_head k' ref)) { tcb = k'.tcb }
  pub others : (u : ℕ) → has u ts ≡ false → wait_links k' u ≡ wait_links k u
  pub loose : has t ts ≡ true → wait_links k' t ≡ none

module _ (k : Kernel) (ref : WaitRef) (t : ℕ) where
  stay-Spliced : Waits k ref [] → Spliced k ref t [] k
  stay-Spliced w = record {
    waits = w;
    only = λ u. refl;
    rest = ap (λ (s : Kernel). record s { tcb = k.tcb }) (sym (set_wait_head_self k ref));
    others = λ u o. refl;
    loose = λ m. cc;
  }

  tcb-cut_first : (cut k ref none t).tcb ≡ update k.tcb t (record (k.tcb t) { wait_next = none })
  tcb-cut_first = rw (tcb-set k ref (wait_links k t)) refl

  head-cut_first : wait_head (cut k ref none t) ref ≡ wait_links k t
  head-cut_first =
      wait_head-tcb (set_wait_head k ref (wait_links k t)) ref (cut k ref none t).tcb
      ∙ wait_head-set k ref (wait_links k t)

  first-Spliced :
      (rest : List ℕ) → Waits k ref (t ∷ rest) → Spliced k ref t (t ∷ rest) (cut k ref none t)
  first-Spliced rest w = record {
    waits = subst (Waits (cut k ref none t) ref) (sym (remove-head t rest)) (
        Waits-uncons k (cut k ref none t) ref t rest head-cut_first
          (λ u ne. rw tcb-cut_first (ground arith)) w);
    only = λ u. rw tcb-cut_first (ground arith);
    rest =
        ap (λ h. record (set_wait_head k ref h) { tcb = (cut k ref none t).tcb })
          (sym head-cut_first);
    others = λ u o. rw tcb-cut_first (ground arith);
    loose = λ m. rw tcb-cut_first (ground arith);
  }

  later-Spliced :
      (x : ℕ) (rest : List ℕ) (k' : Kernel)
      → (x == t) ≡ false
      → Waits k ref (x ∷ rest)
      → Behind k t x rest k'
      → Spliced k ref t (x ∷ rest) k'
  later-Spliced x rest k' e w b =
      let same_head : wait_head k' ref ≡ wait_head k ref =
        ap (λ s. wait_head s ref) b.rest ∙ wait_head-tcb k ref k'.tcb in
      record {
        waits = subst (Waits k' ref) (sym (remove-tail t x rest e)) (record {
          chain = (same_head ∙ w.chain.0, b.chain);
          nodup = (has-remove x t rest w.nodup.0, IsNodup-remove t rest w.nodup.1);
        });
        only = b.only;
        rest =
            b.rest
            ∙ ap (λ (s : Kernel). record s { tcb = k'.tcb })
                (sym (set_wait_head_self k ref) ∙ ap (set_wait_head k ref) (sym same_head));
        others = λ u o. b.others u (ground arith) (ground arith);
        loose = λ m. b.loose (ground (arith, e));
      }

  -- With a round for each task of the list and one more, the splice ends and removes the task.
  pub splice_lem :
      (fuel : ℕ) (ts : List ℕ)
      → length ts < fuel
      → Waits k ref ts
      → (k' : Kernel) × (splice fuel k ref t none (wait_head k ref) ≡ some k')
        × Spliced k ref t ts k'
  splice_lem zero ts lt w = absurd (omega arith)
  splice_lem (suc fuel) [] lt w =
      (k, splice-none k ref t fuel none (wait_head k ref) w.chain, stay-Spliced w)
  splice_lem (suc fuel) (x ∷ xs) lt w = elim (Bool-cases (x == t)) [
    | inl e ↦
        let same : x ≡ t = (==_iff x t).0 e in
        (
          cut k ref none t,
          rw w.chain.0 (splice-found k ref t fuel none x e),
          subst (λ y. Spliced k ref t (y ∷ xs) (cut k ref none t)) (sym same)
              (first-Spliced xs (subst (λ y. Waits k ref (y ∷ xs)) same w)),
        )
    | inr e ↦
        let (k', r, b) =
          splice-Behind k ref t fuel x (wait_links k x) xs (omega arith) refl (ground arith)
            w.nodup.0 w.nodup.1 w.chain.1 in
        (k', rw w.chain.0 (splice-next k ref t fuel none x e ∙ r), later-Spliced x xs k' e w b)
  ]
