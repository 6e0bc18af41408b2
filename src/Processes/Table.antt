-- ===== src/Processes/Table.antt =====
-- The table of processes of ViOS64Bit/src/task/process.c, and the end of a process. A process is known by
-- its slot in the table; what its structure holds is passed beside the kernel's state. Freeing its program, its
-- stack and its vectors only calls kfree.
use vi_os.Prelude.{
  ℕ, ◌+◌, Bool, false, List, [], ◌∷◌, ◌++◌, Option, none, some, ◌⊎◌, inl, inr, ◌==◌, if◌then◌else◌,
  length, get_elem?, set, Run, ok, fault, ◌>>=◌, ℤ, pos, neg, is_negative,
}
use vi_os.Config.{e_invarg, e_nomem}
use vi_os.Paging.{PageTables}
use vi_os.Files.{Files, first_free, fclose}
use vi_os.Tasks.{TaskList, task_free}
use vi_os.Processes.{
  Allocation, KernelHeap, Space, elements, process_terminate_allocations, validate,
}

-- `struct process_file_handle` at its address; the path and the mode are never read.
pub record FileHandle : Type 0 where
  pub address : ℕ
  pub fd : ℤ

-- `struct process`.
pub record Process : Type 0 where
  pub id : ℕ
  pub task : Option ℕ
  pub pml : ℕ
  pub allocations : Option (List Allocation)
  pub file_handles : Option (List FileHandle)

-- The state that processes share; a slot of the table is NULL or has a process.
pub record Kernel (H W P : Type 0) : Type 0 where
  pub heap : H
  pub tables : PageTables
  pub files : Files W P
  pub tasks : TaskList
  pub processes : Option (List (Option Process))
  pub current_process : Option ℕ

-- The loop for the first slot with a process.
unfoldable pub first_process : List (Option Process) → ℕ → Option ℕ
first_process [] i = none
first_process (none ∷ processes) i = first_process processes (i + 1)
first_process (some process ∷ processes) i = some i

abbrev pub is_current : Option ℕ → ℕ → Bool
is_current none id = false
is_current (some current) id = current == id

abbrev pub task_free_if : TaskList → Option ℕ → Run TaskList
task_free_if tasks none = ok tasks
task_free_if tasks (some task) = task_free tasks (some task)

module _ {H W P : Type 0} (kernel_heap : KernelHeap H) where
  -- ERROR of a positive number is no error: behind the end of the table the pointer is EINVARG.
  unfoldable pub process_get : Kernel H W P → ℕ → Run (ℕ ⊎ Option Process)
  process_get kernel process_id = do
    processes ← elements kernel.processes
    ok (elim (get_elem? processes process_id) [ none ↦ inl e_invarg | some slot ↦ inr slot ])

  -- A slot that is NULL, or a new one.
  unfoldable pub process_get_free_slot : Kernel H W P → Run (ℤ × Kernel H W P)
  unfolding first_free
  process_get_free_slot kernel = do
    processes ← elements kernel.processes
    ok (elim (first_free processes 0) [ some i ↦ (pos i, kernel) | none ↦ pushed processes ])
    where
      kept : List (Option Process) → Option (List (Option Process))
      kept [] = some []
      kept (_ ∷ _) = none

      pushed : List (Option Process) → ℤ × Kernel H W P
      pushed processes =
          let (granted, heap) = kernel_heap.grows kernel.heap in
          if granted
          then (
            pos (length processes),
            record kernel { heap = heap; processes = some (processes ++ (none ∷ [])) },
          )
          else (neg e_nomem, record kernel { heap = heap; processes = kept processes })

  -- Without a process the kernel panics.
  unfoldable pub process_switch_to_any : Kernel H W P → Run (Kernel H W P)
  unfolding first_process
  process_switch_to_any kernel = do
    processes ← elements kernel.processes
    elim (first_process processes 0) [
      | none ↦ fault
      | some i ↦ ok (record kernel { current_process = some i })
    ]

  -- vector_overwrite refuses an index behind the end of the table, and its result is not tested.
  unfoldable pub process_unlink : Kernel H W P → ℕ → Run (Kernel H W P)
  unfolding process_switch_to_any
  process_unlink kernel id = do
    processes ← elements kernel.processes
    let unlinked = record kernel { processes = some (set processes id none) }
    if is_current kernel.current_process id then process_switch_to_any unlinked else ok unlinked

  -- The loop over the handles of a process; the results of fclose are not tested.
  unfoldable pub process_close_file_handles : Kernel H W P → List FileHandle → Run (Kernel H W P)
  process_close_file_handles kernel [] = ok kernel
  process_close_file_handles kernel (handle ∷ file_handles) = do
    (res, files) ← fclose kernel.files handle.fd
    process_close_file_handles (record kernel { files = files }) file_handles

  unfoldable pub process_free_process : Kernel H W P → Process → Run (ℤ × Kernel H W P)
  process_free_process kernel process = do
    let space : Space H = record {
      heap = kernel.heap;
      tables = kernel.tables;
      pml = process.pml;
      allocations = process.allocations;
    }
    space' ← process_terminate_allocations kernel_heap space
    file_handles ← elements process.file_handles
    kernel' ←
        process_close_file_handles (record kernel { heap = space'.heap; tables = space'.tables })
          file_handles
    tasks ← task_free_if kernel'.tasks process.task
    ok (pos 0, record kernel' { tasks = tasks })

  unfoldable pub process_terminate : Kernel H W P → Process → Run (ℤ × Kernel H W P)
  process_terminate kernel process = do
    kernel' ← process_unlink kernel process.id
    process_free_process kernel' process

  unfoldable pub process_validate_memory_or_terminate :
      Kernel H W P → Process → ℕ → ℕ → Run (ℤ × Kernel H W P)
  process_validate_memory_or_terminate kernel process virt_addr space_needed = do
    res ← validate process.allocations virt_addr space_needed
    let terminated = (process_terminate kernel process >>= λ (res', kernel'). ok (res, kernel'))
    if is_negative res then terminated else ok (res, kernel)
