-- ===== src/Tasks/Tests.antt =====
-- Task switches, and the theorem about them at a concrete list.
use vi_os.Prelude.{
  ℕ, ◌≡◌, refl, true, false, List, [], ◌∷◌, ◌++◌, none, some, ok, fault, ◌>>=◌, load,
}
use vi_os.Tasks.{Task, TaskList, task_init, task_new, task_next, task_free}
use vi_os.Tasks.Turns.{task_next_times, task_next_times-After}
use vi_os.Tasks.Removal.{Freed, task_free-Freed}
use vi_os.Tasks.Rounds.{Running, first, turns, task_next-Running}

abbrev no_tasks : TaskList
no_tasks = record {
  tasks = [];
  current_task = none;
  task_head = none;
  task_tail = none;
  paged = none;
}

-- Two tasks of the processes 7 and 8; the first runs.
abbrev two_tasks : TaskList
unfolding task_init
two_tasks = record {
  tasks =
      record (task_init 7 none) { next = some 1 }
      ∷ record (task_init 8 none) { prev = some 0 }
      ∷ [];
  current_task = some 0;
  task_head = some 0;
  task_tail = some 1;
  paged = none;
}

created :
    (task_new no_tasks 7 none true >>= λ (_, list). task_new list 8 none true)
    ≡ ok (some 1, two_tasks)
unfolding task_new
created = refl

-- Where kzalloc refuses, task_new reads through NULL.
refused : task_new two_tasks 9 none false ≡ fault
unfolding task_new
refused = refl

two_tasks-Running : Running two_tasks [] 0 (1 ∷ [])
unfolding task_init
two_tasks-Running = record {
  linked = (
    (record (task_init 7 none) { next = some 1 }, refl, refl, refl),
    ((record (task_init 8 none) { prev = some 0 }, refl, refl, refl), tt),
  );
  head = refl;
  current = refl;
}

task_next-Running_example :
    (done' : List ℕ) × (y : ℕ) × (waiting' : List ℕ) × (node : Task) × (list' : TaskList)
    × (task_next two_tasks ≡ ok (node.registers, list'))
    × (load two_tasks.tasks y ≡ ok node)
    × (first (turns [] 0 (1 ∷ [])) ≡ some y)
    × (done' ++ (y ∷ waiting') ≡ 0 ∷ 1 ∷ [])
    × Running list' done' y waiting'
task_next-Running_example = task_next-Running two_tasks [] 0 (1 ∷ []) two_tasks-Running

task_next_times-After_example :
    (list' : TaskList) × (task_next_times 3 two_tasks ≡ ok list') × Running list' (0 ∷ []) 1 []
task_next_times-After_example =
    task_next_times-After two_tasks [] 0 (1 ∷ []) (0 ∷ []) 1 [] two_tasks-Running refl

task_free-Freed_example :
    (list' : TaskList) × (task_free two_tasks (some 0) ≡ ok list')
    × Freed two_tasks list' [] 0 (1 ∷ [])
task_free-Freed_example =
    task_free-Freed two_tasks [] 0 (1 ∷ []) two_tasks-Running.linked ((refl, tt), (tt, tt))
      two_tasks-Running.head
