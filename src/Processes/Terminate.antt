-- ===== src/Processes/Terminate.antt =====
-- process_terminate of ViOS64Bit/src/task/process.c: the slot of the process, its memory, its files and its task.
use native.Mathlib.Nat.{zero-add}
use vi_os.Prelude.{
  ℕ, ◌+◌, ◌*◌, ◌≡◌, refl, ap, ◌∙◌, Bool-cases, inl, inr, false, List, [], ◌∷◌, ◌++◌, Option, none,
  some, arith, length, set, set-prefix, ok, ◌>>=◌, ℤ, pos, neg, if◌then◌else◌,
}
use vi_os.Config.{e_io}
use vi_os.Files.{Files, fclose}
use vi_os.Files.Table.{IsTable}
use vi_os.Files.Calls.{fclose-Settles}
use vi_os.Paging.Map.{IsTree}
use vi_os.Tasks.Rounds.{first, Linked}
use vi_os.Tasks.Links.{Distinct}
use vi_os.Tasks.Removal.{Freed, task_free-Freed}
use vi_os.Processes.{Allocation, KernelHeap, Space, process_is_stack_memory, validate}
use vi_os.Processes.Bounds.{Outside, validate-Outside}
use vi_os.Processes.Ending.{Whole, Closed, all_pages, process_terminate_allocations-Unused}
use vi_os.Processes.Table.{
  FileHandle, Process, Kernel, first_process, process_switch_to_any, is_current, process_unlink,
  process_close_file_handles, process_free_process, process_terminate,
  process_validate_memory_or_terminate,
}

-- Slots that are NULL.
abbrev pub Null : List (Option Process) → Type 0
Null [] = Unit
Null (none ∷ processes) = Null processes
Null (some process ∷ processes) = ⊥

first_process-first :
    (nulls : List (Option Process)) (process : Process) (behind : List (Option Process)) (i : ℕ)
    → Null nulls
    → first_process (nulls ++ (some process ∷ behind)) i ≡ some (i + length nulls)
unfolding first_process
first_process-first [] process behind i null = ap some (omega arith)
first_process-first (none ∷ nulls) process behind i null =
    first_process-first nulls process behind (i + 1) null ∙ ap some (omega arith)
first_process-first (some p ∷ nulls) process behind i null = absurd null

-- What a process needs to end: whole allocations and frames for their pages, a table of open files, and a task
-- among different ones that are linked in both directions.
pub record Ends {H W P : Type 0} (kernel : Kernel H W P) (process : Process)
    (allocations : List Allocation) (file_handles : List FileHandle) (done : List ℕ) (task : ℕ)
    (rest : List ℕ) (n : ℕ) : Type 0 where
  pub given : process.allocations ≡ some allocations
  pub whole : Whole allocations
  pub tree : IsTree kernel.tables process.pml (n + 3 * all_pages allocations)
  pub opened : process.file_handles ≡ some file_handles
  pub table : IsTable kernel.files
  pub has_task : process.task ≡ some task
  pub linked : Linked kernel.tasks.tasks none (done ++ (task ∷ rest))
  pub distinct : Distinct (done ++ (task ∷ rest))
  pub head : kernel.tasks.task_head ≡ first (done ++ (task ∷ rest))

-- A slot of the table of processes, and the slots before the first process that is left without it.
pub record InSlot {H W P : Type 0} (kernel : Kernel H W P) (process next : Process)
    (pre post nulls behind : List (Option Process)) : Type 0 where
  pub slots : kernel.processes ≡ some (pre ++ (some process ∷ post))
  pub id : process.id ≡ length pre
  pub others : pre ++ (none ∷ post) ≡ nulls ++ (some next ∷ behind)
  pub null : Null nulls

-- fclose of each of the handles in turn, whatever it answers.
pub data ClosedAll {W P : Type 0} : Files W P → List FileHandle → Files W P → Type 0 where
  all_closed : {files : Files W P} → ClosedAll files [] files
  handle_closed :
      {handle : FileHandle} {handles : List FileHandle} {files files' files'' : Files W P} (res : ℤ)
      → fclose files handle.fd ≡ ok (res, files')
      → ClosedAll files' handles files''
      → ClosedAll files (handle ∷ handles) files''

module _ {H W P : Type 0} (kernel_heap : KernelHeap H) where
  -- The loop over the handles returns, and leaves a table of open files.
  close_file_handles-IsTable :
      (file_handles : List FileHandle) (kernel : Kernel H W P)
      → IsTable kernel.files
      → (files : Files W P) × (process_close_file_handles kernel_heap kernel file_handles
          ≡ ok (record kernel { files = files }))
        × IsTable files
        × ClosedAll kernel.files file_handles files
  unfolding process_close_file_handles
  close_file_handles-IsTable [] kernel table = (kernel.files, refl, table, all_closed)
  close_file_handles-IsTable (handle ∷ file_handles) kernel table =
      let (res, files, closed, table') = fclose-Settles kernel.files handle.fd table in
      let (files', run, table'', after) =
        close_file_handles-IsTable file_handles (record kernel { files = files }) table' in
      (files', rw closed run, table'', handle_closed res closed after)

  unlink-none :
      (kernel : Kernel H W P) (process next : Process)
      (pre post nulls behind : List (Option Process))
      → kernel.processes ≡ some (pre ++ (some process ∷ post))
      → process.id ≡ length pre
      → pre ++ (none ∷ post) ≡ nulls ++ (some next ∷ behind)
      → Null nulls
      → process_unlink kernel_heap kernel process.id
        ≡ ok (record kernel {
          processes = some (pre ++ (none ∷ post));
          current_process =
              if is_current kernel.current_process process.id
              then some (length nulls)
              else kernel.current_process;
        })
  unfolding process_unlink process_switch_to_any
  unlink-none kernel process next pre post nulls behind slots id others null =
      let unlinked : set (pre ++ (some process ∷ post)) process.id none ≡ pre ++ (none ∷ post) =
        ap (λ i. set (pre ++ (some process ∷ post)) i none) id
        ∙ set-prefix pre post (some process) none in
      elim (Bool-cases (is_current kernel.current_process process.id)) [
        | inl c ↦
            rw
              (
                slots,
                ◌>>=◌,
                c,
                unlinked,
                ◌>>=◌,
                others,
                first_process-first nulls next behind 0 null,
                zero-add,
              )
              (ap
                (λ ps.
                  ok (record kernel { processes = some ps; current_process = some (length nulls) }))
                (unlinked ∙ others))
        | inr c ↦ rw (slots, c, unlinked) refl
      ]

  free_process-Freed :
      (kernel : Kernel H W P) (process : Process) (allocations : List Allocation)
      (file_handles : List FileHandle) (done : List ℕ) (task : ℕ) (rest : List ℕ) (n : ℕ)
      → Ends kernel process allocations file_handles done task rest n
      → (kernel' : Kernel H W P) × (process_free_process kernel_heap kernel process
          ≡ ok (pos 0, kernel'))
        × (kernel'.processes ≡ kernel.processes)
        × (kernel'.current_process ≡ kernel.current_process)
        × IsTree kernel'.tables process.pml n
        × IsTable kernel'.files
        × Closed process.pml kernel.tables allocations kernel'.tables
        × ClosedAll kernel.files file_handles kernel'.files
        × Freed kernel.tasks kernel'.tasks done task rest
  unfolding process_free_process
  free_process-Freed kernel process allocations file_handles done task rest n ends =
      let space : Space H = record {
        heap = kernel.heap;
        tables = kernel.tables;
        pml = process.pml;
        allocations = process.allocations;
      } in
      let (tables, xs, ended, unused, same, tree, pages_closed) =
        process_terminate_allocations-Unused kernel_heap space allocations n ends.given ends.whole
          ends.tree in
      let (files, closed, table, files_closed) =
        close_file_handles-IsTable file_handles (record kernel { tables = tables }) ends.table in
      let (tasks, removed, freed) =
        task_free-Freed kernel.tasks done task rest ends.linked ends.distinct ends.head in
      (
        record kernel { tables = tables; files = files; tasks = tasks },
        rw (ended, ends.opened) (rw (closed, ends.has_task) (rw removed refl)),
        refl,
        refl,
        tree,
        table,
        pages_closed,
        files_closed,
        freed,
      )

  -- process_terminate of a process in its slot, with another process in the table, allocations of whole pages below
  -- 2^47, three frames for each of their pages left, a table of open files, and a task in a list of different ones that
  -- are linked in both directions, returns 0. The slot is NULL and the others are as before; if the process was the
  -- current one, the first of the others is now. The pages of all its allocations are closed, fclose is called for each
  -- of its handles, the table of open files stays a table, and the task is out of the list of tasks.
  pub process_terminate-Freed :
      (kernel : Kernel H W P) (process next : Process)
      (pre post nulls behind : List (Option Process)) (allocations : List Allocation)
      (file_handles : List FileHandle) (done : List ℕ) (task : ℕ) (rest : List ℕ) (n : ℕ)
      → InSlot kernel process next pre post nulls behind
      → Ends kernel process allocations file_handles done task rest n
      → (kernel' : Kernel H W P) × (process_terminate kernel_heap kernel process
          ≡ ok (pos 0, kernel'))
        × (kernel'.processes ≡ some (pre ++ (none ∷ post)))
        × (kernel'.current_process ≡ (
            if is_current kernel.current_process process.id
            then some (length nulls)
            else kernel.current_process))
        × IsTree kernel'.tables process.pml n
        × IsTable kernel'.files
        × Closed process.pml kernel.tables allocations kernel'.tables
        × ClosedAll kernel.files file_handles kernel'.files
        × Freed kernel.tasks kernel'.tasks done task rest
  unfolding process_terminate
  process_terminate-Freed kernel process next pre post nulls behind allocations file_handles done
        task rest n slot ends =
      let unlinked = record kernel {
        processes = some (pre ++ (none ∷ post));
        current_process =
            if is_current kernel.current_process process.id
            then some (length nulls)
            else kernel.current_process;
      } in
      let (kernel', freed, processes, current, tree, table, pages_closed, files_closed, left) =
        free_process-Freed unlinked process allocations file_handles done task rest n (record {
          given = ends.given;
          whole = ends.whole;
          tree = ends.tree;
          opened = ends.opened;
          table = ends.table;
          has_task = ends.has_task;
          linked = ends.linked;
          distinct = ends.distinct;
          head = ends.head;
        }) in
      (
        kernel',
        rw
            (unlink-none kernel process next pre post nulls behind slot.slots slot.id slot.others
              slot.null)
            freed,
        processes,
        current,
        tree,
        table,
        pages_closed,
        files_closed,
        left,
      )

  -- For an address that is neither on the stack nor in an allocation, process_validate_memory_or_terminate returns
  -- -EIO and terminates the process, as process_terminate does.
  pub process_validate_memory_or_terminate-Outside :
      (kernel : Kernel H W P) (process : Process) (allocations : List Allocation)
      (virt_addr space_needed : ℕ) (res : ℤ) (kernel' : Kernel H W P)
      → process.allocations ≡ some allocations
      → process_is_stack_memory virt_addr ≡ false
      → Outside virt_addr allocations
      → process_terminate kernel_heap kernel process ≡ ok (res, kernel')
      → process_validate_memory_or_terminate kernel_heap kernel process virt_addr space_needed
        ≡ ok (neg e_io, kernel')
  unfolding process_validate_memory_or_terminate
  process_validate_memory_or_terminate-Outside kernel process allocations virt_addr space_needed res
        kernel' given off_stack outside terminated =
      let refused : validate process.allocations virt_addr space_needed ≡ ok (neg e_io) =
        ap (λ found. validate found virt_addr space_needed) given
        ∙ validate-Outside allocations virt_addr space_needed off_stack outside in
      rw (refused, terminated) refl
