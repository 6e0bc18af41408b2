-- ===== src/Processes/Sessions.antt =====
-- The files of a process: process_fopen, process_fclose and process_fread of ViOS64Bit/src/task/process.c.
use vi_os.Prelude.{
  ℕ, suc, ◌+◌, ◌≡◌, ◌<◌, refl, sym, true, false, List, [], ◌∷◌, ◌++◌, Option, none, some, arith,
  length, ok, ◌>>=◌, ℤ, pos, negsuc, neg, if◌then◌else◌, ◌==◌, ltb, mul64, ap, ◌∙◌, drop, replicate,
  length-replicate,
}
use vi_os.Config.{e_io}
use vi_os.CString.{strncpy}
use vi_os.CString.Length.{NoNul}
use vi_os.CString.Copy.{strncpy-short}
use vi_os.PathParser.{PathRoot}
use vi_os.Files.{
  Files, FileDescriptor, Filesystem, FileMode, pointer, is_error, disk_id, fopen, fclose,
}
use vi_os.Files.Table.{Full}
use vi_os.Files.Open.{IsOpening, fopen-fclose}
use vi_os.Tasks.Removal.{Freed}
use vi_os.Processes.{Allocation, KernelHeap, process_is_stack_memory}
use vi_os.Processes.Bounds.{Outside}
use vi_os.Processes.Table.{
  FileHandle, Process, Kernel, is_current, process_validate_memory_or_terminate,
}
use vi_os.Processes.Terminate.{
  Ends, InSlot, process_terminate-Freed, process_validate_memory_or_terminate-Outside,
}
use vi_os.Processes.Handles.{
  same_fd, process_file_handle_get, pop_handle, push_handle, handle_names, process_fopen,
  process_fclose, process_fread,
}

-- No handle has the number, or the address.
abbrev pub Fresh : ℤ → ℕ → List FileHandle → Type 0
Fresh fd address [] = Unit
Fresh fd address (handle ∷ handles) =
    (same_fd handle.fd fd ≡ false)
    × ((handle.address == address) ≡ false)
    × Fresh fd address handles

same_fd_self : (fd : ℤ) → same_fd fd fd ≡ true
same_fd_self (pos n) = ground arith
same_fd_self (negsuc n) = ground arith

handle_get-last :
    (handles : List FileHandle) (handle : FileHandle)
    → Fresh handle.fd handle.address handles
    → process_file_handle_get (handles ++ (handle ∷ [])) handle.fd ≡ some handle
unfolding process_file_handle_get
handle_get-last [] handle fresh = rw (same_fd_self handle.fd)
handle_get-last (x ∷ handles) handle fresh = rw (fresh.0) (handle_get-last handles handle fresh.2)

pop_handle-last :
    (handles : List FileHandle) (handle : FileHandle)
    → Fresh handle.fd handle.address handles
    → pop_handle (handles ++ (handle ∷ [])) handle.address ≡ handles
unfolding pop_handle
pop_handle-last [] handle fresh =
    let here : (handle.address == handle.address) ≡ true = ground arith in rw here
pop_handle-last (x ∷ handles) handle fresh = rw (fresh.1, pop_handle-last handles handle fresh.2)

-- What the heaps give for the handle, for its place in the vector, and for vector_pop_element.
pub record Grants {H : Type 0} (kernel_heap : KernelHeap H) (heap : H) (ptr : ℕ) (heap' heap'' : H)
    (buffer : ℕ) : Type 0 where
  pub middle : H
  pub handle : kernel_heap.kzalloc heap 8 ≡ (ptr, middle)
  pub handle_given : 0 < ptr
  pub place : kernel_heap.grows middle ≡ (true, heap')
  pub compared : kernel_heap.kzalloc heap' 8 ≡ (buffer, heap'')
  pub compared_given : 0 < buffer

-- A text with its NUL, of fewer than `count` characters.
pub record IsText (text : List ℕ) (count : ℕ) : Type 0 where
  pub chars : List ℕ
  pub rest : List ℕ
  pub split : text ≡ chars ++ (0 ∷ rest)
  pub no_nul : NoNul chars
  pub short : length chars < count

handle_names-IsText :
    (path mode : List ℕ)
    → IsText path 108
    → IsText mode 2
    → (names : List ℕ × List ℕ) × (handle_names path mode ≡ ok names)
unfolding handle_names
handle_names-IsText path mode a b =
    let first =
      ap (λ t. strncpy (replicate 4092 0) t 108) a.split
      ∙ strncpy-short a.chars a.rest (replicate 4092 0) 108 a.no_nul a.short
          (omega (arith, length-replicate {A = ℕ} 4092 0, a.short)) in
    let second =
      ap (λ t. strncpy (replicate 3984 0) t 2) b.split
      ∙ strncpy-short b.chars b.rest (replicate 3984 0) 2 b.no_nul b.short
          (omega (arith, length-replicate {A = ℕ} 3984 0, b.short)) in
    (
      (
        a.chars ++ (0 ∷ drop (length a.chars + 1) (replicate 4092 0)),
        b.chars ++ (0 ∷ drop (length b.chars + 1) (replicate 3984 0)),
      ),
      rw (first, second) refl,
    )

module _ {H W P : Type 0} (kernel_heap : KernelHeap H) where
  process_fopen-opened :
      (kernel : Kernel H W P) (process : Process) (path mode : List ℕ)
      (file_handles : List FileHandle) (fd ptr : ℕ) (files : Files W P) (heap middle : H)
      → fopen kernel.files path mode ≡ ok (pos fd, files)
      → 0 < fd
      → process.file_handles ≡ some file_handles
      → kernel_heap.kzalloc kernel.heap 8 ≡ (ptr, middle)
      → 0 < ptr
      → kernel_heap.grows middle ≡ (true, heap)
      → IsText path 108
      → IsText mode 2
      → process_fopen kernel_heap kernel process path mode
        ≡ ok (
          pos fd,
          record kernel { heap = heap; files = files },
          record process {
            file_handles = some (file_handles ++ (record { address = ptr; fd = pos fd } ∷ []));
          },
        )
  unfolding process_fopen push_handle
  process_fopen-opened kernel process path mode file_handles fd ptr files heap middle opened
        positive handles given not_null grown is_path is_mode =
      let (names, named) = handle_names-IsText path mode is_path is_mode in
      let is_open : ltb 0 fd ≡ true = ground arith in
      let is_given : (ptr == 0) ≡ false = ground arith in
      rw (opened, given) (rw (is_open, is_given, named, grown, handles) refl)

  process_fclose-closed :
      (kernel : Kernel H W P) (process : Process) (file_handles : List FileHandle)
      (handle : FileHandle) (res : ℤ) (files : Files W P) (heap : H) (buffer : ℕ)
      → process.file_handles ≡ some (file_handles ++ (handle ∷ []))
      → Fresh handle.fd handle.address file_handles
      → fclose kernel.files handle.fd ≡ ok (res, files)
      → kernel_heap.kzalloc kernel.heap 8 ≡ (buffer, heap)
      → 0 < buffer
      → process_fclose kernel_heap kernel process handle.fd
        ≡ ok (
          pos 0,
          record kernel { heap = heap; files = files },
          record process { file_handles = some file_handles },
        )
  unfolding process_fclose
  process_fclose-closed kernel process file_handles handle res files heap buffer handles fresh
        closed given not_null =
      let is_given : (buffer == 0) ≡ false = ground arith in
      rw (handles, ◌>>=◌, handle_get-last file_handles handle fresh)
        (rw (closed, given, is_given, pop_handle-last file_handles handle fresh) refl)

  -- Where the driver opens and closes the file, the path has fewer than 108 characters and the mode one at most, one of the first 511 slots of the table of open files is free, and
  -- the heaps give the memory, at an address that no handle of the process has, with no handle for the number yet, and
  -- where bit 31 of the address of the driver's pointer is 0, process_fopen returns the number of the first free slot, counted from 1, and the
  -- process has a handle for it; process_fclose of that number returns 0, and the descriptors and the handles are
  -- those before.
  pub process_fopen-process_fclose :
      (kernel : Kernel H W P) (process : Process) (path mode_str : List ℕ)
      (filesystem : Filesystem W P) (root_path : PathRoot) (mode : FileMode) (left : ℕ)
      (pre post : List (Option (FileDescriptor W P))) (p : P) (world world' : W)
      (file_handles : List FileHandle) (ptr : ℕ) (heap heap' : H) (buffer : ℕ)
      → IsOpening kernel.files path mode_str filesystem root_path mode (suc left)
      → kernel.files.descriptors ≡ pre ++ (none ∷ post)
      → Full pre
      → length pre < 511
      → filesystem.open_path (disk_id root_path.drive_no) root_path.first mode kernel.files.world
        ≡ (pointer p, world)
      → is_error filesystem (pointer p) ≡ false
      → filesystem.close (pointer p) world ≡ (pos 0, world')
      → process.file_handles ≡ some file_handles
      → Fresh (pos (length pre + 1)) ptr file_handles
      → Grants kernel_heap kernel.heap ptr heap heap' buffer
      → IsText path 108
      → IsText mode_str 2
      → (kernel' kernel'' : Kernel H W P) × (process' process'' : Process) × (process_fopen
            kernel_heap kernel process path mode_str
          ≡ ok (pos (length pre + 1), kernel', process'))
        × (process'.file_handles
            ≡ some (file_handles ++ (record { address = ptr; fd = pos (length pre + 1) } ∷ [])))
        × (process_fclose kernel_heap kernel' process' (pos (length pre + 1))
            ≡ ok (pos 0, kernel'', process''))
        × (kernel''.files.descriptors ≡ kernel.files.descriptors)
        × (process''.file_handles ≡ process.file_handles)
  process_fopen-process_fclose kernel process path mode_str filesystem root_path mode left pre post
        p world world' file_handles ptr heap heap' buffer opening slots full inside driver valid
        closing handles fresh grants is_path is_mode =
      let (files', files'', opened, closed, same) =
        fopen-fclose kernel.files path mode_str filesystem root_path mode left pre post p world
          world' opening slots full inside driver valid closing in
      let handle : FileHandle = record { address = ptr; fd = pos (length pre + 1) } in
      let kernel' = record kernel { heap = heap; files = files' } in
      let process' = record process { file_handles = some (file_handles ++ (handle ∷ [])) } in
      (
        kernel',
        record kernel { heap = heap'; files = files'' },
        process',
        record process { file_handles = some file_handles },
        process_fopen-opened kernel process path mode_str file_handles (length pre + 1) ptr files'
            heap grants.middle opened (omega arith) handles grants.handle grants.handle_given
            grants.place is_path is_mode,
        refl,
        process_fclose-closed kernel' process' file_handles handle (pos 0) files'' heap' buffer refl
            fresh closed grants.compared grants.compared_given,
        same,
        sym handles,
      )

  fread-terminated :
      (kernel kernel' : Kernel H W P) (process : Process) (handle : FileHandle)
      (file_handles : List FileHandle) (virt_ptr size nmemb : ℕ) (fd : ℤ)
      → process.file_handles ≡ some file_handles
      → process_file_handle_get file_handles fd ≡ some handle
      → process_validate_memory_or_terminate kernel_heap kernel process virt_ptr (mul64 size nmemb)
        ≡ ok (neg e_io, kernel')
      → process_fread kernel_heap kernel process virt_ptr size nmemb fd
        ≡ ok ((neg e_io, none), kernel')
  unfolding process_fread
  fread-terminated kernel kernel' process handle file_handles virt_ptr size nmemb fd opened there
        refused =
      rw (opened, ◌>>=◌, there) (rw refused refl)

  -- process_fread of an open file to an address that is neither on the stack nor in an allocation of the process, of a
  -- process in its slot, with another one in the table, allocations of whole pages below 2^47, three frames for each of
  -- their pages left, a table of open files, and a task in a list of different ones that are linked in both directions,
  -- reads nothing, returns -EIO and ends the process: its slot is NULL, and if it was the current one, the first
  -- other process is; its task is out of the list of tasks.
  pub process_fread-Outside :
      (kernel : Kernel H W P) (process next : Process)
      (pre post nulls behind : List (Option Process)) (allocations : List Allocation)
      (file_handles : List FileHandle) (done : List ℕ) (task : ℕ) (rest : List ℕ) (n : ℕ)
      (handle : FileHandle) (virt_ptr size nmemb : ℕ) (fd : ℤ)
      → InSlot kernel process next pre post nulls behind
      → Ends kernel process allocations file_handles done task rest n
      → process_file_handle_get file_handles fd ≡ some handle
      → process_is_stack_memory virt_ptr ≡ false
      → Outside virt_ptr allocations
      → (kernel' : Kernel H W P) × (process_fread kernel_heap kernel process virt_ptr size nmemb fd
          ≡ ok ((neg e_io, none), kernel'))
        × (kernel'.processes ≡ some (pre ++ (none ∷ post)))
        × (kernel'.current_process ≡ (
            if is_current kernel.current_process process.id
            then some (length nulls)
            else kernel.current_process))
        × Freed kernel.tasks kernel'.tasks done task rest
  process_fread-Outside kernel process next pre post nulls behind allocations file_handles done task
        rest n handle virt_ptr size nmemb fd slot ends there off_stack outside =
      let (
        kernel', terminated, processes, current, tree, table, pages_closed, files_closed, freed,
      ) =
        process_terminate-Freed kernel_heap kernel process next pre post nulls behind allocations
          file_handles done task rest n slot ends in
      (
        kernel',
        fread-terminated kernel kernel' process handle file_handles virt_ptr size nmemb fd
            ends.opened there
            (process_validate_memory_or_terminate-Outside kernel_heap kernel process allocations
              virt_ptr (mul64 size nmemb) (pos 0) kernel' ends.given off_stack outside terminated),
        processes,
        current,
        freed,
      )
