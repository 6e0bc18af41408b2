-- ===== src/Tasks.antt =====
-- The list of tasks of ViOS64Bit/src/task/task.c. A task is an index into the memory of tasks, where
-- each task_new puts a new one and, since kfree gives nothing back, none is reused. `none` is NULL.
pub mod Links
pub mod Removal
pub mod Rounds
pub mod Turns
mod Tests
use vi_os.Prelude.{
  ℕ, zero, suc, ◌+◌, Bool, true, false, List, [], ◌∷◌, ◌++◌, Option, none, some, ◌==◌,
  if◌then◌else◌, length, Run, ok, fault, ◌>>=◌, load, store,
}

-- `struct registers`, and the registers that an interrupt saves.
pub record Registers : Type 0 where
  pub rdi : ℕ
  pub rsi : ℕ
  pub rbp : ℕ
  pub rbx : ℕ
  pub rdx : ℕ
  pub rcx : ℕ
  pub rax : ℕ
  pub ip : ℕ
  pub cs : ℕ
  pub flags : ℕ
  pub rsp : ℕ
  pub ss : ℕ

-- `struct task`
pub record Task : Type 0 where
  pub registers : Registers
  pub process : ℕ
  pub next : Option ℕ
  pub prev : Option ℕ

-- The static variables, the memory of tasks, and the process whose pages are switched to.
pub record TaskList : Type 0 where
  pub tasks : List Task
  pub current_task : Option ℕ
  pub task_head : Option ℕ
  pub task_tail : Option ℕ
  pub paged : Option ℕ

-- `task->field` of a pointer that may be NULL.
abbrev pub fetch : TaskList → Option ℕ → Run Task
fetch list none = fault
fetch list (some task) = load list.tasks task

abbrev pub put : TaskList → ℕ → Task → Run TaskList
put list task value = store list.tasks task value >>= λ tasks'. ok (record list { tasks = tasks' })

abbrev pub same_task : ℕ → Option ℕ → Bool
same_task task none = false
same_task task (some other) = task == other

-- `entry` is the entry point of the process' file, if that is an ELF file.
unfoldable pub task_init : ℕ → Option ℕ → Task
task_init process entry = record {
  registers = registers;
  process = process;
  next = none;
  prev = none;
}
  where
    start : Option ℕ → ℕ
    start none = 4194304
    start (some e_entry) = e_entry

    registers : Registers
    registers = record {
      rdi = 0;
      rsi = 0;
      rbp = 0;
      rbx = 0;
      rdx = 0;
      rcx = 0;
      rax = 0;
      ip = start entry;
      cs = 43;
      flags = 0;
      rsp = 4190208;
      ss = 51;
    }

abbrev pub or_head : Option ℕ → Option ℕ → Option ℕ
or_head none head = head
or_head (some next) head = some next

unfoldable pub task_get_next : TaskList → Run (Option ℕ)
task_get_next list = do task ← fetch list list.current_task; ok (or_head task.next list.task_head)

-- `task->prev->next = task->next`, where there is a task before.
abbrev pub unlink : TaskList → Option ℕ → Option ℕ → Run TaskList
unlink list none next = ok list
unlink list (some prev) next =
    load list.tasks prev >>= λ before. put list prev (record before { next = next })

-- What task_list_remove does behind that.
unfoldable pub detach : TaskList → ℕ → Task → Run TaskList
unfolding task_get_next
detach list task node =
    let list =
      if same_task task list.task_head then record list { task_head = node.next } else list in
    let list =
      if same_task task list.task_tail then record list { task_tail = node.prev } else list in
    let moved = task_get_next list >>= λ next. ok (record list { current_task = next }) in
    if same_task task list.current_task then moved else ok list

unfoldable pub task_list_remove : TaskList → Option ℕ → Run TaskList
unfolding detach
task_list_remove list none = fault
task_list_remove list (some task) = do
  node ← load list.tasks task
  list ← unlink list node.prev node.next
  detach list task node

unfoldable pub task_free : TaskList → Option ℕ → Run TaskList
unfolding task_list_remove
task_free list task = task_list_remove list task

-- `granted` says whether kzalloc gives the structure; task_free of NULL reads through it.
unfoldable pub task_new : TaskList → ℕ → Option ℕ → Bool → Run (Option ℕ × TaskList)
unfolding task_init task_free
task_new list process entry false = task_free list none >>= λ list'. ok (none, list')
task_new list process entry true = append list.task_head list.task_tail
  where
    fresh : Task
    fresh = task_init process entry

    append : Option ℕ → Option ℕ → Run (Option ℕ × TaskList)
    append none task_tail = ok (
      some (length list.tasks),
      record list {
        tasks = list.tasks ++ (fresh ∷ []);
        task_head = some (length list.tasks);
        task_tail = some (length list.tasks);
        current_task = some (length list.tasks);
      },
    )
    append (some head) none = fault
    append (some head) (some last) = do
      node ← load list.tasks last
      tasks ←
          store (list.tasks ++ (record fresh { prev = some last } ∷ [])) last
            (record node { next = some (length list.tasks) })
      ok (
        some (length list.tasks),
        record list { tasks = tasks; task_tail = some (length list.tasks) },
      )

unfoldable pub task_switch : TaskList → ℕ → Run TaskList
task_switch list task = load list.tasks task >>= λ node.
    ok (record list { current_task = some task; paged = some node.process })

-- The registers that task_return restores, and the list.
unfoldable pub task_next : TaskList → Run (Registers × TaskList)
unfolding task_get_next task_switch
task_next list = task_get_next list >>= resume
  where
    resume : Option ℕ → Run (Registers × TaskList)
    resume none = fault
    resume (some next) = do
      list ← task_switch list next
      node ← load list.tasks next
      ok (node.registers, list)

unfoldable pub task_save_state : Task → Registers → Task
task_save_state task frame = record task { registers = frame }

unfoldable pub task_current_save_state : TaskList → Registers → Run TaskList
unfolding task_save_state
task_current_save_state list frame = save list.current_task
  where
    save : Option ℕ → Run TaskList
    save none = fault
    save (some current) =
        load list.tasks current >>= λ task. put list current (task_save_state task frame)
