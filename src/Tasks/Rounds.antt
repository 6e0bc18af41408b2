-- ===== src/Tasks/Rounds.antt =====
-- The scheduler of ViOS64Bit/src/task/task.c takes the tasks in turn.
use vi_os.Prelude.{
  ℕ, ◌≡◌, refl, ap, sym, ◌∙◌, List, [], ◌∷◌, ◌++◌, append_assoc, Option, none, some, ok, load,
}
use mathlib.Core.Path.{subst}
use vi_os.Tasks.{Task, TaskList, task_get_next, task_switch, task_next}

abbrev pub first : List ℕ → Option ℕ
first [] = none
first (x ∷ xs) = some x

-- The tasks `xs` are linked in both directions, behind the task `before`.
abbrev pub Linked : List Task → Option ℕ → List ℕ → Type 0
Linked tasks before [] = Unit
Linked tasks before (x ∷ xs) =
    ((node : Task) × (load tasks x ≡ ok node) × (node.prev ≡ before) × (node.next ≡ first xs))
    × Linked tasks (some x) xs

-- The list is that of the tasks `xs`, and `x` of them runs.
pub record Running (list : TaskList) (done : List ℕ) (x : ℕ) (waiting : List ℕ) : Type 0 where
  pub linked : Linked list.tasks none (done ++ (x ∷ waiting))
  pub head : list.task_head ≡ first (done ++ (x ∷ waiting))
  pub current : list.current_task ≡ some x

-- One task of the linked list.
node_of :
    (tasks : List Task) (before : Option ℕ) (done : List ℕ) (x : ℕ) (waiting : List ℕ)
    → Linked tasks before (done ++ (x ∷ waiting))
    → (node : Task) × (load tasks x ≡ ok node) × (node.next ≡ first waiting)
node_of tasks before [] x waiting linked = let (node, e, p, n) = linked.0 in (node, e, n)
node_of tasks before (y ∷ done) x waiting linked = node_of tasks (some y) done x waiting linked.1

-- The tasks in the order in which they get their turn, the running one last.
abbrev pub turns : List ℕ → ℕ → List ℕ → List ℕ
turns done x waiting = waiting ++ (done ++ (x ∷ []))

pub task_get_next-turns :
    (list : TaskList) (done : List ℕ) (x : ℕ) (waiting : List ℕ)
    → Running list done x waiting
    → task_get_next list ≡ ok (first (turns done x waiting))
unfolding task_get_next
task_get_next-turns list done x [] running =
    let (node, e, n) = node_of list.tasks none done x [] running.linked in
    rw (running.current, e, n, running.head)
task_get_next-turns list done x (y ∷ waiting) running =
    let (node, e, n) = node_of list.tasks none done x (y ∷ waiting) running.linked in
    rw (running.current, e, n)

-- Where the next task stands among the tasks.
split :
    (list : TaskList) (done : List ℕ) (x : ℕ) (waiting : List ℕ)
    → Running list done x waiting
    → (done' : List ℕ) × (y : ℕ) × (waiting' : List ℕ) × (first (turns done x waiting) ≡ some y)
      × (done' ++ (y ∷ waiting') ≡ done ++ (x ∷ waiting))
split list done x (y ∷ waiting) running =
    (done ++ (x ∷ []), y, waiting, refl, append_assoc done (x ∷ []) (y ∷ waiting))
split list [] x [] running = ([], x, [], refl, refl)
split list (z ∷ done) x [] running = ([], z, done ++ (x ∷ []), refl, refl)

-- The call that gives the turn to the task `y`.
pub task_next-turn :
    (list : TaskList) (done : List ℕ) (x : ℕ) (waiting done' : List ℕ) (y : ℕ) (waiting' : List ℕ)
    → Running list done x waiting
    → first (turns done x waiting) ≡ some y
    → done' ++ (y ∷ waiting') ≡ done ++ (x ∷ waiting)
    → (node : Task) × (list' : TaskList) × (task_next list ≡ ok (node.registers, list'))
      × (load list.tasks y ≡ ok node)
      × Running list' done' y waiting'
unfolding task_next task_switch
task_next-turn list done x waiting done' y waiting' running turn same =
    let linked = subst (λ xs. Linked list.tasks none xs) (sym same) running.linked in
    let (node, e, n) = node_of list.tasks none done' y waiting' linked in
    (
      node,
      record list { current_task = some y; paged = some node.process },
      rw (task_get_next-turns list done x waiting running ∙ ap ok turn, e, e),
      e,
      record { linked = linked; head = running.head ∙ ap first (sym same); current = refl },
    )

-- task_next of a list of tasks, one of which runs, gives the turn to the task behind it, and from the last
-- one to the first: it returns that task's registers, and the list is the same with that task running.
pub task_next-Running :
    (list : TaskList) (done : List ℕ) (x : ℕ) (waiting : List ℕ)
    → Running list done x waiting
    → (done' : List ℕ) × (y : ℕ) × (waiting' : List ℕ) × (node : Task) × (list' : TaskList)
      × (task_next list ≡ ok (node.registers, list'))
      × (load list.tasks y ≡ ok node)
      × (first (turns done x waiting) ≡ some y)
      × (done' ++ (y ∷ waiting') ≡ done ++ (x ∷ waiting))
      × Running list' done' y waiting'
task_next-Running list done x waiting running =
    let (done', y, waiting', turn, same) = split list done x waiting running in
    let (node, list', e, found, running') =
      task_next-turn list done x waiting done' y waiting' running turn same in
    (done', y, waiting', node, list', e, found, turn, same, running')
