-- ===== src/Chain.antt =====
-- Singly linked lists through a link field, as the kernel's wait lists (`wait_next`) and priority
-- lists (`next`): from `p` the links lead through the tasks of a list to NULL.
use crest_rtos.Base.{
  ℕ, ◌≤◌, ◌≡◌, ◌≢◌, refl, List, [], ◌∷◌, true, false, Ptr, none, some, arith, has, IsNodup, length,
  ◌==◌, if◌then◌else◌, ==_refl, subst,
}

abbrev pub Chain : (ℕ → Ptr) → Ptr → List ℕ → Type 0
Chain link p [] = p ≡ none
Chain link p (t ∷ ts) = (p ≡ some t) × Chain link (link t) ts

-- Links outside the list may change.
pub Chain-frame :
    (link link' : ℕ → Ptr) (p : Ptr) (ts : List ℕ)
    → ((t : ℕ) → has t ts ≡ true → link' t ≡ link t)
    → Chain link p ts
    → Chain link' p ts
Chain-frame link link' p [] same c = c
Chain-frame link link' p (t ∷ ts) same (e, c) = (
  e,
  rw (same t (rw (==_refl t) refl))
      (Chain-frame link link' (link t) ts (λ u m. same u (ground arith)) c),
)

-- The list without the task.
abbrev pub remove : ℕ → List ℕ → List ℕ
remove t [] = []
remove t (x ∷ xs) = if x == t then xs else x ∷ remove t xs

pub has-remove : (a t : ℕ) (ts : List ℕ) → has a ts ≡ false → has a (remove t ts) ≡ false
has-remove a t [] h = refl
has-remove a t (x ∷ xs) h = ground (arith, has-remove a t xs)

pub IsNodup-remove : (t : ℕ) (ts : List ℕ) → IsNodup ts → IsNodup (remove t ts)
IsNodup-remove t [] n = n
IsNodup-remove t (x ∷ xs) n = ground (arith, has-remove x t xs, IsNodup-remove t xs n.1)

pub length-remove : (t : ℕ) (ts : List ℕ) → length (remove t ts) ≤ length ts
length-remove t [] = omega arith
length-remove t (x ∷ xs) = ground (arith, length-remove t xs)

pub has-remove_self : (t : ℕ) (ts : List ℕ) → IsNodup ts → has t (remove t ts) ≡ false
has-remove_self t [] n = refl
has-remove_self t (x ∷ xs) n = ground (arith, has-remove_self t xs n.1)

-- The same, from an equal start and for an equal list.
pub Chain-move :
    (link link' : ℕ → Ptr) (p p' : Ptr) (ts ts' : List ℕ)
    → p' ≡ p
    → ts' ≡ ts
    → ((t : ℕ) → has t ts ≡ true → link' t ≡ link t)
    → Chain link p ts
    → Chain link' p' ts'
Chain-move link link' p p' ts ts' e e' same c = rw (e, e') (Chain-frame link link' p ts same c)

pub remove-head : (t : ℕ) (ts : List ℕ) → remove t (t ∷ ts) ≡ ts
remove-head t ts = ground arith

pub remove-tail : (t x : ℕ) (ts : List ℕ) → (x == t) ≡ false → remove t (x ∷ ts) ≡ x ∷ remove t ts
remove-tail t x ts e = rw e refl

pub has→ne : (a b : ℕ) (ts : List ℕ) → has a ts ≡ false → has b ts ≡ true → b ≢ a
has→ne a b ts out inside e = cc (subst (λ x. has x ts ≡ true) e inside, out)
