-- ===== src/Demo/Tasks.antt =====
-- src/main.c, main: one call of task_create after the other, on a heap with room for their stacks.
use crest_rtos.Base.{
  ℕ, suc, ◌+◌, ◌≤◌, ◌<◌, ◌≡◌, ◌≢◌, inl, inr, refl, sym, ap, ◌∙◌, subst, fun_ext, arith, Bool-cases,
  Bool, true, false, none, some, List, [], ◌∷◌, ltb, ◌==◌, update, eq_or_gt, length, All, ◌*◌,
  ◌>>=◌,
}
use crest_rtos.Kernel.{Kernel, Tcb, max_tasks, max_task_priorities, ready}
use crest_rtos.Sched.Add.{with_task}
use crest_rtos.Alloc.Tiles.{Tile}
use crest_rtos.Alloc.Room.{HasRoom, HasRoom-not_short, HasRoom-place}
use crest_rtos.Alloc.Malloc.{base}
use crest_rtos.Task.{Machine, stored_name, next_power_of_two, task_create}
use crest_rtos.Task.Outcome.{IsMachine, IsCreated, Outcome, full, short, created}
use crest_rtos.Task.Create.{task_create_lem}
use crest_rtos.Demo.Main.{NewTask, create_all}

-- The first `n` slots are in use, and a vacant block has `room` bytes.
pub record Stage (n room : ℕ) (s : Machine) (lists : ℕ → List ℕ) : Type 0 where
  pub blocks : List Tile
  pub machine : IsMachine s lists blocks
  pub current : s.kernel.current_task ≡ none
  pub used : (j : ℕ) → s.kernel.tcb_used j ≡ ltb j n
  pub space : HasRoom room blocks

-- The READY task in slot `t` with a stack of 512 bytes, alone on its priority list.
pub record IsTask (k : Kernel) (t task_fn : ℕ) (name : List ℕ) (priority : ℕ) : Type 0 where
  pub function : (k.tcb t).task_function ≡ task_fn
  pub argument : (k.tcb t).arg ≡ 0
  pub name_field : (k.tcb t).name ≡ stored_name (some name)
  pub level : (k.tcb t).priority ≡ priority
  pub state : (k.tcb t).state ≡ ready
  pub size : (k.tcb t).stack_size ≡ 512
  pub privileged : (k.tcb t).user ≡ false

not_below : (n : ℕ) → ltb n n ≡ true → ⊥
not_below n e = ground (arith, e)

first_free :
    (f : ℕ → Bool) (n t : ℕ)
    → ((j : ℕ) → f j ≡ ltb j n)
    → f t ≡ false
    → ((j : ℕ) → j < t → f j ≡ true)
    → t ≡ n
first_free f n t used free lowest =
    let at : ltb t n ≡ false = sym (used t) ∙ free in
    elim (eq_or_gt n t (ground (arith, at))) [
      | inl e ↦ sym e
      | inr less ↦ absurd (not_below n (sym (used n) ∙ lowest n (omega (arith, less))))
    ]

used-next : (n j : ℕ) → update (λ i. ltb i n) n true j ≡ ltb j (suc n)
used-next n j = elim (Bool-cases (j == n)) [
  | inl e ↦ rw e (ground (arith, e))
  | inr e ↦ rw e (ground (arith, e))
]

-- What the next call of task_create gives.
pub record IsNextStage (n room : ℕ) (s s' : Machine) (lists : ℕ → List ℕ) (task_fn : ℕ)
    (name : List ℕ) (priority : ℕ) : Type 0 where
  pub stage : Stage (suc n) room s' (with_task lists priority n)
  pub new : IsTask s'.kernel n task_fn name priority
  pub others : (u : ℕ) → u ≢ n → s'.kernel.tcb u ≡ s.kernel.tcb u

IsTask-of_IsCreated :
    (s s' : Machine) (task_fn : ℕ) (name : List ℕ) (priority n a : ℕ)
    → IsCreated s s' task_fn (some name) priority 512 0 n a
    → IsTask s'.kernel n task_fn name priority
IsTask-of_IsCreated s s' task_fn name priority n a is = record {
  function = ap (λ (c : Tcb). c.task_function) is.fields;
  argument = ap (λ (c : Tcb). c.arg) is.fields;
  name_field = ap (λ (c : Tcb). c.name) is.fields;
  level = ap (λ (c : Tcb). c.priority) is.fields;
  state = ap (λ (c : Tcb). c.state) is.fields;
  size = ap (λ (c : Tcb). c.stack_size) is.fields;
  privileged = ap (λ (c : Tcb). c.user) is.fields;
}

module _ (n room : ℕ) (n_lt : n < max_tasks) (enough : 16 ≤ room) (s : Machine) (lists : ℕ → List ℕ)
    (h : Stage n (room + 1288) s lists) (task_fn : ℕ) (name : List ℕ) (priority : ℕ) where
  next_of :
      (s' : Machine)
      → Outcome s lists h.blocks task_fn (some name) priority 512 0 s'
      → IsNextStage n room s s' lists task_fn name priority
  next_of _ (full all) = absurd (not_below n (sym (h.used n) ∙ all n n_lt))
  next_of _ (short s' tight heap tcbs current used i) =
      absurd (HasRoom-not_short (room + 1288) 1288 h.blocks (omega arith) h.space tight)
  next_of _ (created s' t a ts' found placed i is) =
      let at = first_free s.kernel.tcb_used n t h.used is.unused is.lowest in
      let i' = subst (λ t. IsMachine s' (with_task lists priority t) ts') at i in
      let is' = subst (λ t. IsCreated s s' task_fn (some name) priority 512 0 t (a + 8)) at is in
      record {
        stage = record {
          blocks = ts';
          machine = i';
          current = is'.current ∙ h.current;
          used = λ j.
              ap (λ f. f j) is'.marks
              ∙ ap (λ f. update f n true j) (fun_ext h.used)
              ∙ used-next n j;
          space = HasRoom-place room 1288 (base s.heap) h.blocks a ts' enough found h.space;
        };
        new = IsTask-of_IsCreated s s' task_fn name priority n (a + 8) is';
        others = is'.others;
      }

  pub next_stage :
      priority < max_task_priorities
      → (s' : Machine) × (task_create s task_fn (some name) priority 512 0 ≡ some s')
        × IsNextStage n room s s' lists task_fn name priority
  unfolding next_power_of_two
  next_stage p_lt =
      let (s', e, out) =
        task_create_lem s lists h.blocks task_fn (some name) priority 512 0 h.machine p_lt
          (omega arith) (omega arith) in
      (s', e, next_of s' out)

IsTask-same :
    (k k' : Kernel) (t fn : ℕ) (text : List ℕ) (pr : ℕ)
    → k'.tcb t ≡ k.tcb t
    → IsTask k t fn text pr
    → IsTask k' t fn text pr
IsTask-same k k' t fn text pr same is = record {
  function = ap (λ (c : Tcb). c.task_function) same ∙ is.function;
  argument = ap (λ (c : Tcb). c.arg) same ∙ is.argument;
  name_field = ap (λ (c : Tcb). c.name) same ∙ is.name_field;
  level = ap (λ (c : Tcb). c.priority) same ∙ is.level;
  state = ap (λ (c : Tcb). c.state) same ∙ is.state;
  size = ap (λ (c : Tcb). c.stack_size) same ∙ is.size;
  privileged = ap (λ (c : Tcb). c.user) same ∙ is.privileged;
}

-- The tasks of a list of calls, in the slots from `n` on, and the priority lists with them.
abbrev pub Built : Kernel → ℕ → List NewTask → Type 0
Built k n [] = Unit
Built k n (t ∷ ts) = IsTask k n t.task_fn t.name t.priority × Built k (suc n) ts

abbrev pub lists_of : (ℕ → List ℕ) → ℕ → List NewTask → ℕ → List ℕ
lists_of lists n [] = lists
lists_of lists n (t ∷ ts) = lists_of (with_task lists t.priority n) (suc n) ts

-- A call with a stack of 512 bytes and a priority in range.
abbrev pub IsPlain : NewTask → Type 0
IsPlain t = (t.priority < max_task_priorities) × (t.size ≡ 512)

-- The machine behind a chain of calls.
pub record IsBuilt (n : ℕ) (ts : List NewTask) (s s' : Machine) (lists : ℕ → List ℕ) : Type 0 where
  pub calls : create_all ts s ≡ some s'
  pub stage : Stage (n + length ts) 16 s' (lists_of lists n ts)
  pub tasks : Built s'.kernel n ts
  pub before : (u : ℕ) → u < n → s'.kernel.tcb u ≡ s.kernel.tcb u

abbrev room_for : List NewTask → ℕ
room_for ts = 16 + 1288 * length ts

IsBuilt-cons :
    (n : ℕ) (t : NewTask) (ts : List NewTask) (s s₁ s' : Machine) (lists : ℕ → List ℕ)
    → task_create s t.task_fn (some t.name) t.priority t.size 0 ≡ some s₁
    → IsNextStage n (room_for ts) s s₁ lists t.task_fn t.name t.priority
    → IsBuilt (suc n) ts s₁ s' (with_task lists t.priority n)
    → IsBuilt n (t ∷ ts) s s' lists
unfolding create_all
IsBuilt-cons n t ts s s₁ s' lists e next rest = record {
  calls = ap (λ o. do s' ← o; create_all ts s') e ∙ rest.calls;
  stage =
      subst (λ m. Stage m 16 s' (lists_of lists n (t ∷ ts))) {x = suc n + length ts} (omega arith)
        rest.stage;
  tasks = (
    IsTask-same s₁.kernel s'.kernel n t.task_fn t.name t.priority (rest.before n (omega arith))
        next.new,
    rest.tasks,
  );
  before = λ u lt. rest.before u (omega (arith, lt)) ∙ next.others u (omega (arith, lt));
}

-- On a heap with room for all stacks, every call creates its task.
pub calls-IsBuilt :
    (ts : List NewTask) (n : ℕ) (s : Machine) (lists : ℕ → List ℕ)
    → n + length ts ≤ max_tasks
    → All IsPlain ts
    → Stage n (room_for ts) s lists
    → (s' : Machine) × IsBuilt n ts s s' lists
unfolding create_all
calls-IsBuilt [] n s lists few plain h = (
  s,
  record {
    calls = refl;
    stage = subst (λ m. Stage m 16 s lists) {x = n} (omega arith) h;
    tasks = tt;
    before = λ u lt. refl;
  },
)
calls-IsBuilt (t ∷ ts) n s lists few plain h =
    let h' = subst (λ r. Stage n r s lists) {y = room_for ts + 1288} (omega arith) h in
    let (s₁, e, next) =
      next_stage n (room_for ts) (omega (arith, few)) (omega arith) s lists h' t.task_fn t.name
        t.priority plain.0.0 in
    let (s', rest) =
      calls-IsBuilt ts (suc n) s₁ (with_task lists t.priority n) (omega (arith, few)) plain.1
        next.stage in
    let e' =
      subst (λ size. task_create s t.task_fn (some t.name) t.priority size 0 ≡ some s₁)
        (sym plain.0.1) e in
    (s', IsBuilt-cons n t ts s s₁ s' lists e' next rest)
