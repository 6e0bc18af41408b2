-- ===== src/Processes/Handles.antt =====
-- The file handles of a process of ViOS64Bit/src/task/process.c: its vector of handles over the table of open
-- files of fs/file.c. kzalloc of a handle is that of the heaps; the allocations that fs/file.c makes itself are
-- counted there. The bytes of a read are returned with the address that they are written to.

use vi_os.Prelude.{
  ℕ, ◌^◌, ◌%◌, Bool, false, List, [], ◌∷◌, ◌++◌, Option, none, some, ltb, ◌==◌, if◌then◌else◌, Run,
  ok, fault, ◌>>=◌, ℤ, pos, negsuc, neg, is_negative, mul64, replicate,
}
use vi_os.Config.{e_io, e_invarg, e_nomem}
use vi_os.Paging.{paging_get_physical_address}
use vi_os.CString.{strncpy}
use vi_os.Files.{fopen, fclose, fseek, fstat, fread, fwrite}
use vi_os.Processes.{KernelHeap, elements, or_null}
use vi_os.Processes.Table.{FileHandle, Process, Kernel, process_validate_memory_or_terminate}

-- Whether two numbers of files are the same.
abbrev pub same_fd : ℤ → ℤ → Bool
same_fd (pos m) (pos n) = m == n
same_fd (negsuc m) (negsuc n) = m == n
same_fd (pos m) (negsuc n) = false
same_fd (negsuc m) (pos n) = false

abbrev pub is_positive : ℤ → Bool
is_positive (pos n) = ltb 0 n
is_positive (negsuc n) = false

unfoldable pub process_file_handle_get : List FileHandle → ℤ → Option FileHandle
process_file_handle_get [] fd = none
process_file_handle_get (handle ∷ handles) fd =
    let rest = process_file_handle_get handles fd in
    if same_fd handle.fd fd then some handle else rest

-- What vector_pop_element leaves of the pointers to handles: the first with the address is taken out.
unfoldable pub pop_handle : List FileHandle → ℕ → List FileHandle
pop_handle [] address = []
pop_handle (handle ∷ handles) address =
    let rest = pop_handle handles address in
    if handle.address == address then handles else handle ∷ rest

-- The path and the mode of a handle, which are never read. kzalloc gives whole blocks of 4096 bytes, so that there are
-- 4092 behind the number and 3984 behind the 108 of the path, though it is asked for 8.
unfoldable pub handle_names : List ℕ → List ℕ → Run (List ℕ × List ℕ)
unfolding strncpy
handle_names path mode = do
  file_path ← strncpy (replicate 4092 0) path 108
  mode' ← strncpy (replicate 3984 0) mode 2
  ok (file_path, mode')

module _ {H W P : Type 0} (kernel_heap : KernelHeap H) where
  -- The handle's entry in the vector. A refused vector_push, which nobody tests, loses the vector that has handles.
  unfoldable pub push_handle : Kernel H W P → Process → ℤ → ℕ → Run (Kernel H W P × Process)
  push_handle kernel process fd ptr = do
    handles ← elements process.file_handles
    let (granted, heap) = kernel_heap.grows kernel.heap
    let pushed =
        if granted then some (handles ++ (record { address = ptr; fd = fd } ∷ [])) else kept handles
    ok (record kernel { heap = heap }, record process { file_handles = pushed })
    where
      kept : List FileHandle → Option (List FileHandle)
      kept [] = some []
      kept (_ ∷ _) = none

  unfoldable pub process_fopen :
      Kernel H W P → Process → List ℕ → List ℕ → Run (ℤ × Kernel H W P × Process)
  unfolding push_handle
  process_fopen kernel process path mode = do
    (fd, files) ← fopen kernel.files path mode
    let opened = record kernel { files = files }
    let (ptr, heap) = kernel_heap.kzalloc kernel.heap 8
    let allocated = record opened { heap = heap }
    let recorded =
        (handle_names path mode >>= λ _.
        push_handle allocated process fd ptr >>= λ (kernel', process'). ok (fd, kernel', process'))
    let given = if ptr == 0 then give_up allocated fd e_nomem else recorded
    if is_positive fd then given else give_up opened fd e_io
    where
      give_up : Kernel H W P → ℤ → ℕ → Run (ℤ × Kernel H W P × Process)
      give_up kernel fd e = do
        (res, files) ← fclose kernel.files fd
        ok (neg e, record kernel { files = files }, process)

  -- The result of fclose is not tested. Without its buffer vector_pop_element takes nothing out, which nobody tests.
  unfoldable pub process_fclose : Kernel H W P → Process → ℤ → Run (ℤ × Kernel H W P × Process)
  unfolding process_file_handle_get pop_handle
  process_fclose kernel process fd = do
    handles ← elements process.file_handles
    elim (process_file_handle_get handles fd) [
      | none ↦ ok (neg e_invarg, kernel, process)
      | some handle ↦ do
        (res, files) ← fclose kernel.files handle.fd
        let (buffer, heap) = kernel_heap.kzalloc kernel.heap 8
        let popped = if buffer == 0 then handles else pop_handle handles handle.address
        ok (
          pos 0,
          record kernel { heap = heap; files = files },
          record process { file_handles = some popped },
        )
    ]

  unfoldable pub process_fseek : Kernel H W P → Process → ℤ → ℤ → ℕ → Run (ℤ × Kernel H W P)
  unfolding process_file_handle_get
  process_fseek kernel process fd offset whence = do
    handles ← elements process.file_handles
    elim (process_file_handle_get handles fd) [
      | none ↦ ok (neg e_io, kernel)
      | some handle ↦ do
        (res, files) ← fseek kernel.files handle.fd offset whence
        ok (res, record kernel { files = files })
    ]

  abbrev pub process_virtual_address_to_physical : Kernel H W P → Process → ℕ → ℕ
  process_virtual_address_to_physical kernel process virt_addr =
      or_null (paging_get_physical_address kernel.tables.memory process.pml virt_addr)

  -- Through the process' task, which may be NULL.
  unfoldable pub task_virtual_address_to_physical : Kernel H W P → Process → ℕ → Run ℕ
  task_virtual_address_to_physical kernel process virt_addr = elim process.task [
    | none ↦ fault
    | some task ↦ ok (process_virtual_address_to_physical kernel process virt_addr)
  ]

  -- The result, and what is written to which address: the flags and the size.
  unfoldable pub process_fstat :
      Kernel H W P → Process → ℤ → ℕ → Run ((ℤ × Option (ℕ × ℕ × ℕ)) × Kernel H W P)
  process_fstat kernel process fd virt_filestat_addr = do
    (res, kernel') ←
        process_validate_memory_or_terminate kernel_heap kernel process virt_filestat_addr 8
    let address = process_virtual_address_to_physical kernel' process virt_filestat_addr
    let stat =
        (fstat kernel'.files fd >>= λ ((res', flags, filesize), files).
        ok ((res', some (address, flags, filesize)), record kernel' { files = files }))
    let translated = if address == 0 then ok ((neg e_invarg, none), kernel') else stat
    if is_negative res then ok ((res, none), kernel') else translated

  -- Size and number are cut to the 32 bits that fread takes.
  unfoldable pub process_fread :
      Kernel H W P → Process → ℕ → ℕ → ℕ → ℤ → Run ((ℤ × Option (ℕ × List ℕ)) × Kernel H W P)
  unfolding process_file_handle_get task_virtual_address_to_physical
  process_fread kernel process virt_ptr size nmemb fd = do
    handles ← elements process.file_handles
    elim (process_file_handle_get handles fd) [
      | none ↦ ok ((neg e_io, none), kernel)
      | some handle ↦ do
        (res, kernel') ←
            process_validate_memory_or_terminate kernel_heap kernel process virt_ptr
              (mul64 size nmemb)
        let translated =
            (task_virtual_address_to_physical kernel' process virt_ptr >>= read kernel' handle)
        if is_negative res then ok ((res, none), kernel') else translated
    ]
    where
      read : Kernel H W P → FileHandle → ℕ → Run ((ℤ × Option (ℕ × List ℕ)) × Kernel H W P)
      read kernel handle address =
          let done =
            (fread kernel.files (size % 2 ^ 32) (nmemb % 2 ^ 32) handle.fd
              >>= λ ((res, bytes), files).
                  ok ((res, some (address, bytes)), record kernel { files = files })) in
          if address == 0 then ok ((pos 0, none), kernel) else done

  unfoldable pub process_write_memory :
      Kernel H W P → Process → ℕ → List ℕ → ℕ → Run ((ℤ × Option (ℕ × List ℕ)) × Kernel H W P)
  unfolding task_virtual_address_to_physical
  process_write_memory kernel process virt_ptr src size = do
    (res, kernel') ← process_validate_memory_or_terminate kernel_heap kernel process virt_ptr size
    let written =
        (task_virtual_address_to_physical kernel' process virt_ptr >>= λ address. ok (
          if address == 0
          then ((neg e_io, none), kernel')
          else ((pos 0, some (address, src)), kernel')))
    if is_negative res then ok ((res, none), kernel') else written

  -- `bytes` is what the memory has at an address. What the process may read is not tested.
  unfoldable pub process_fwrite :
      (ℕ → List ℕ) → Kernel H W P → Process → ℕ → ℕ → ℕ → ℤ → Run (ℤ × Kernel H W P)
  unfolding process_file_handle_get task_virtual_address_to_physical
  process_fwrite bytes kernel process virt_ptr size nmemb fd = do
    handles ← elements process.file_handles
    elim (process_file_handle_get handles fd) [
      | none ↦ ok (neg e_io, kernel)
      | some handle ↦ task_virtual_address_to_physical kernel process virt_ptr >>= write handle
    ]
    where
      write : FileHandle → ℕ → Run (ℤ × Kernel H W P)
      write handle address =
          let done =
            (fwrite kernel.files (bytes address) size nmemb handle.fd >>= λ (res, files).
            ok (res, record kernel { files = files })) in
          if address == 0 then ok (neg e_io, kernel) else done
