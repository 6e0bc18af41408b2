-- ===== src/Tasks/Removal.antt =====
-- task_free of ViOS64Bit/src/task/task.c, and what it leaves of the list of tasks.
use vi_os.Prelude.{
  ℕ, zero, suc, ◌≡◌, refl, ap, sym, ◌∙◌, inl, inr, Bool, true, false, List, [], ◌∷◌, ◌++◌,
  append_assoc, append-nil, Option, none, some, ok, fault, Run, ◌>>=◌, load, store, ◌==◌,
  if◌then◌else◌, arith,
}
use mathlib.Core.Path.{subst}
use vi_os.Tasks.{
  Task, TaskList, same_task, or_head, task_get_next, unlink, detach, task_list_remove, task_free,
}
use vi_os.Tasks.Links.{
  Forward, Apart, Distinct, Stale, Linked-behind, Distinct-behind, Apart-at, split_last,
  first_before, Forward-elsewhere, Stale-elsewhere, Forward-relinked,
}
use vi_os.Tasks.Rounds.{first, Linked}

abbrev IsOkRun : {A : Type 0} → Run A → Type 0
IsOkRun fault = ⊥
IsOkRun (ok a) = Unit

module _ {A : Type 0} where
  -- A structure that is there can be written; those at other places stay.
  store-loaded :
      (xs : List A) (i : ℕ) (x v : A)
      → load xs i ≡ ok x
      → (ys : List A) × (store xs i v ≡ ok ys)
        × (load ys i ≡ ok v)
        × ((j : ℕ) → (i == j) ≡ false → load ys j ≡ load xs j)
  store-loaded [] i x v e = absurd (subst IsOkRun (sym e) tt)
  store-loaded (y ∷ xs) zero x v e = (v ∷ xs, refl, refl, others)
    where
      others : (j : ℕ) → (0 == j) ≡ false → load (v ∷ xs) j ≡ load (y ∷ xs) j
      others zero different = absurd (ground arith)
      others (suc j) different = refl
  store-loaded (y ∷ xs) (suc i) x v e =
      let (ys, stored, there, others) = store-loaded xs i x v e in
      (y ∷ ys, rw stored refl, there, beside ys others)
    where
      beside :
          (ys : List A)
          → ((j : ℕ) → (i == j) ≡ false → load ys j ≡ load xs j)
          → (j : ℕ) → (suc i == j) ≡ false
          → load (y ∷ ys) j ≡ load (y ∷ xs) j
      beside ys others zero different = refl
      beside ys others (suc j) different = others j (ground arith)

same_task-some : (task : ℕ) (other : Option ℕ) → same_task task other ≡ true → other ≡ some task
same_task-some task none e = absurd (ground arith)
same_task-some task (some other) e = ap some (ground arith)

same_self : (task : ℕ) → (task == task) ≡ true
same_self task = ground arith

-- The list without `task`, whose structure is `node`, as far as it is not in the other tasks.
abbrev without : TaskList → ℕ → Task → TaskList
without list task node =
    let head = if same_task task list.task_head then node.next else list.task_head in
    record list {
      task_head = head;
      task_tail = if same_task task list.task_tail then node.prev else list.task_tail;
      current_task =
          if same_task task list.current_task then or_head node.next head else list.current_task;
    }

detach-without :
    (h t c : Bool) (list : TaskList) (task : ℕ) (node : Task)
    → load list.tasks task ≡ ok node
    → same_task task list.task_head ≡ h
    → same_task task list.task_tail ≡ t
    → same_task task list.current_task ≡ c
    → detach list task node ≡ ok (without list task node)
unfolding detach task_get_next
detach-without true true true list task node here h t c =
    rw (same_task-some task list.current_task c, h, t, same_self task, here) refl
detach-without true false true list task node here h t c =
    rw (same_task-some task list.current_task c, h, t, same_self task, here) refl
detach-without false true true list task node here h t c =
    rw (same_task-some task list.current_task c, h, t, same_self task, here) refl
detach-without false false true list task node here h t c =
    rw (same_task-some task list.current_task c, h, t, same_self task, here) refl
detach-without true true false list task node here h t c = rw (h, t, c) refl
detach-without true false false list task node here h t c = rw (h, t, c) refl
detach-without false true false list task node here h t c = rw (h, t, c) refl
detach-without false false false list task node here h t c = rw (h, t, c) refl

-- The tasks `done ++ rest` are left, linked forwards from the head; if `task` ran, the one behind it runs now, or
-- else the head.
pub record Freed (list list' : TaskList) (done : List ℕ) (task : ℕ) (rest : List ℕ) : Type 0 where
  pub linked : Forward list'.tasks (done ++ rest)
  pub head : list'.task_head ≡ first (done ++ rest)
  pub current :
      list'.current_task
      ≡ (if same_task task list.current_task then first (rest ++ done) else list.current_task)
  pub stale : Stale list' task rest

-- The task that runs next, of the tasks `done ++ rest` that are left.
next_running :
    (done rest : List ℕ) → or_head (first rest) (first (done ++ rest)) ≡ first (rest ++ done)
next_running done [] = ap first (append-nil done)
next_running done (y ∷ rest) = refl

relink :
    (list : TaskList) (task : ℕ) (node : Task) (prev : Option ℕ)
    → load list.tasks task ≡ ok node
    → node.prev ≡ prev
    → task_free list (some task) ≡ (unlink list prev node.next >>= λ list'. detach list' task node)
unfolding task_free task_list_remove
relink list task node prev here e =
    rw here refl ∙ ap (λ before. unlink list before node.next >>= λ list'. detach list' task node) e

relink-behind :
    (list : TaskList) (tasks' : List Task) (p : ℕ) (before : Task) (next : Option ℕ)
    → load list.tasks p ≡ ok before
    → store list.tasks p (record before { next = next }) ≡ ok tasks'
    → unlink list (some p) next ≡ ok (record list { tasks = tasks' })
relink-behind list tasks' p before next at_p stored = rw (at_p, stored) refl

first-Freed :
    (list : TaskList) (task : ℕ) (rest : List ℕ)
    → Linked list.tasks none (task ∷ rest)
    → Distinct (task ∷ rest)
    → list.task_head ≡ some task
    → (list' : TaskList) × (task_free list (some task) ≡ ok list') × Freed list list' [] task rest
first-Freed list task rest linked distinct head =
    let (node, here, prev, next) = linked.0 in
    let is_head : same_task task list.task_head ≡ true = rw head (same_self task) in
    let elsewhere : (j : ℕ) → (task == j) ≡ false → load list.tasks j ≡ load list.tasks j =
      λ j e. refl in
    (
      without list task node,
      relink list task node none here prev
          ∙ detach-without true _ _ list task node here is_head refl refl,
      record {
        linked =
            Forward-elsewhere list.tasks list.tasks task elsewhere rest (some task) distinct.0
              linked.1;
        head = rw is_head next;
        current =
            rw (is_head, next)
              (ap (λ o. if same_task task list.current_task then o else list.current_task)
                (next_running [] rest));
        stale =
            Stale-elsewhere list.tasks list.tasks task elsewhere (without list task node) task rest
              refl distinct.0 linked.1;
      },
    )

not_first :
    (done : List ℕ) (p task : ℕ) (rest : List ℕ)
    → Distinct (done ++ (p ∷ task ∷ rest))
    → same_task task (first (done ++ (p ∷ task ∷ rest))) ≡ false
not_first [] p task rest distinct = ground (arith, distinct.0.0)
not_first (x ∷ done) p task rest distinct =
    Apart-at (done ++ (p ∷ [])) x task rest
      (subst (Apart x) (sym (append_assoc done (p ∷ []) (task ∷ rest))) distinct.0)

behind-Freed :
    (list : TaskList) (done : List ℕ) (p task : ℕ) (rest : List ℕ)
    → Linked list.tasks none (done ++ (p ∷ task ∷ rest))
    → Distinct (done ++ (p ∷ task ∷ rest))
    → list.task_head ≡ first (done ++ (p ∷ task ∷ rest))
    → (list' : TaskList) × (task_free list (some task) ≡ ok list')
      × Freed list list' (done ++ (p ∷ [])) task rest
behind-Freed list done p task rest linked distinct head =
    let here = Linked-behind list.tasks done (p ∷ task ∷ rest) none linked in
    let apart = Distinct-behind done (p ∷ task ∷ rest) distinct in
    let (before, at_p, p_prev, p_next) = here.0 in
    let (node, at_task, prev, next) = here.1.0 in
    let (tasks', stored, written, others) =
      store-loaded list.tasks p before (record before { next = node.next }) at_p in
    let list' = record list { tasks = tasks' } in
    let is_head : same_task task list.task_head ≡ false =
      ap (same_task task) head ∙ not_first done p task rest distinct in
    let shape : (done ++ (p ∷ [])) ++ rest ≡ done ++ (p ∷ rest) = append_assoc done (p ∷ []) rest in
    let head' : list.task_head ≡ first ((done ++ (p ∷ [])) ++ rest) =
      head ∙ first_before done p (task ∷ rest) rest ∙ ap first (sym shape) in
    (
      without list' task node,
      relink list task node (some p) at_task prev
          ∙ ap (λ linked. linked >>= λ list''. detach list'' task node)
              (relink-behind list tasks' p before node.next at_p stored)
          ∙ detach-without false _ _ list' task node (others task apart.0.0 ∙ at_task) is_head refl
              refl,
      record {
        linked = subst (Forward tasks') (sym shape) (
            Forward-relinked list.tasks tasks' p others done none task rest
              (record before { next = node.next }) linked distinct written next);
        head = rw is_head head';
        current =
            rw (is_head, next, head')
              (ap (λ o. if same_task task list.current_task then o else list.current_task)
                (next_running (done ++ (p ∷ [])) rest));
        stale =
            Stale-elsewhere list.tasks tasks' p others (without list' task node) task rest refl
              apart.0.1 here.1.1;
      },
    )

-- task_free of a task of the list, where the tasks are all different and linked in both directions, returns: the
-- other tasks are linked forwards, in their order; if the freed task ran, the one behind it runs, or else the first;
-- but the task behind it still has the freed one before it.
pub task_free-Freed :
    (list : TaskList) (done : List ℕ) (task : ℕ) (rest : List ℕ)
    → Linked list.tasks none (done ++ (task ∷ rest))
    → Distinct (done ++ (task ∷ rest))
    → list.task_head ≡ first (done ++ (task ∷ rest))
    → (list' : TaskList) × (task_free list (some task) ≡ ok list') × Freed list list' done task rest
task_free-Freed list done task rest linked distinct head = elim (split_last done) [
  | inl e ↦
      let at_start = λ (xs : List ℕ). ap (λ ds. ds ++ xs) e in
      let (list', run, freed) =
        first-Freed list task rest (subst (Linked list.tasks none) (at_start (task ∷ rest)) linked)
          (subst Distinct (at_start (task ∷ rest)) distinct)
          (head ∙ ap first (at_start (task ∷ rest))) in
      (list', run, subst (λ ds. Freed list list' ds task rest) (sym e) freed)
  | inr (done', p, e) ↦
      let shape : done ++ (task ∷ rest) ≡ done' ++ (p ∷ task ∷ rest) =
        ap (λ ds. ds ++ (task ∷ rest)) e ∙ append_assoc done' (p ∷ []) (task ∷ rest) in
      let (list', run, freed) =
        behind-Freed list done' p task rest (subst (Linked list.tasks none) shape linked)
          (subst Distinct shape distinct) (head ∙ ap first shape) in
      (list', run, subst (λ ds. Freed list list' ds task rest) (sym e) freed)
]
