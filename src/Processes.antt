-- ===== src/Processes.antt =====
-- The memory of processes of ViOS64Bit/src/task/process.c: the table of allocations of a process, and the
-- pages that are mapped for them. A vector is the list that it holds (Vector/Contents); `none` is a vector
-- whose memory a refused krealloc has lost while it still counts elements. kfree gives nothing back, as in
-- kheap.c.
pub mod Bounds
pub mod Ending
pub mod Handles
pub mod Memory
pub mod Release
mod Sessions
pub mod Table
pub mod Terminate
mod Tests
use vi_os.Prelude.{
  ℕ, zero, suc, ◌+◌, ◌-◌, ◌*◌, Bool, true, false, ◌&&◌, ◌||◌, not, List, [], ◌∷◌, ◌++◌, Option,
  none, some, ltb, leb, ◌==◌, if◌then◌else◌, length, get_elem?, set, Run, ok, fault, ◌>>=◌, ℤ, pos,
  negsuc, neg, is_negative, add64, sub64, mul64,
}
use vi_os.Config.{e_io, e_invarg, e_nomem, e_notfound, stack_start, stack_end, stack_size}
use vi_os.Paging.{PageTables, paging_map_to, paging_align_address, paging_get_physical_address}

-- `struct process_allocation`.
pub record Allocation : Type 0 where
  pub ptr : ℕ
  pub end : ℕ
  pub size : ℕ

abbrev pub no_allocation : Allocation
no_allocation = record { ptr = 0; end = 0; size = 0 }

-- The functions of kheap.c over the state `H` of the heaps. `grows` says whether krealloc gives a vector
-- that is full new memory.
pub record KernelHeap (H : Type 0) : Type 0 where
  pub kzalloc : H → ℕ → ℕ × H
  pub krealloc : H → ℕ → ℕ → ℕ × H
  pub grows : H → Bool × H

-- What the functions of one process change: the heaps, the page tables, and the allocations of the
-- process, whose highest table is `pml`.
pub record Space (H : Type 0) : Type 0 where
  pub heap : H
  pub tables : PageTables
  pub pml : ℕ
  pub allocations : Option (List Allocation)

-- vector_at of a vector that has lost its memory reads through NULL.
abbrev pub elements {ℓ} : {A : Type ℓ} → Option A → Run A
elements none = fault
elements (some xs) = ok xs

-- Writeable, present and for all.
abbrev pub user_flags : ℕ
user_flags = 7

-- The loop for the first entry that is not used.
unfoldable pub free_index : List Allocation → ℕ → Option ℕ
free_index [] i = none
free_index (allocation ∷ allocations) i =
    let rest = free_index allocations (i + 1) in if allocation.ptr == 0 then some i else rest

-- The loop of process_allocation_exists: the status, which is that of the last vector_at, and the index.
unfoldable pub exists_loop : List Allocation → ℕ → ℕ → ℤ → ℤ × ℕ
exists_loop [] ptr i res = (res, 0)
exists_loop (allocation ∷ allocations) ptr i res =
    let rest = exists_loop allocations ptr (i + 1) (pos 0) in
    if allocation.ptr == ptr then (pos 0, i) else rest

unfoldable pub process_allocation_exists : List Allocation → ℕ → ℤ × ℕ
unfolding exists_loop
process_allocation_exists allocations ptr = exists_loop allocations ptr 0 (neg e_notfound)

unfoldable pub process_is_process_pointer : List Allocation → ℕ → Bool
process_is_process_pointer [] ptr = false
process_is_process_pointer (allocation ∷ allocations) ptr =
    let rest = process_is_process_pointer allocations ptr in
    if allocation.ptr == ptr then true else rest

-- The first allocation that begins at the address.
unfoldable pub process_get_allocation_by_start_addr : List Allocation → ℕ → Option Allocation
process_get_allocation_by_start_addr [] addr = none
process_get_allocation_by_start_addr (allocation ∷ allocations) addr =
    let rest = process_get_allocation_by_start_addr allocations addr in
    if allocation.ptr == addr then some allocation else rest

unfoldable pub process_allocation_unjoin : List Allocation → ℕ → List Allocation
process_allocation_unjoin [] ptr = []
process_allocation_unjoin (allocation ∷ allocations) ptr =
    (if allocation.ptr == ptr then no_allocation else allocation)
    ∷ process_allocation_unjoin allocations ptr

abbrev pub or_null : Option ℕ → ℕ
or_null none = 0
or_null (some address) = address

module _ {H : Type 0} (kernel : KernelHeap H) where
  -- A refused vector_push leaves a vector with nothing in it as it is.
  unfoldable pub push_allocation : Space H → List Allocation → ℤ × Space H
  push_allocation space allocations =
      let (granted, heap) = kernel.grows space.heap in
      if granted
      then (
        pos (length allocations),
        record space { heap = heap; allocations = some (allocations ++ (no_allocation ∷ [])) },
      )
      else (neg e_nomem, record space { heap = heap; allocations = kept allocations })
    where
      kept : List Allocation → Option (List Allocation)
      kept [] = some []
      kept (_ ∷ _) = none

  unfoldable pub process_find_free_allocation_index : Space H → Run (ℤ × Space H)
  unfolding free_index push_allocation
  process_find_free_allocation_index space = do
    allocations ← elements space.allocations
    ok (elim (free_index allocations 0) [
      | some i ↦ (pos i, space)
      | none ↦ push_allocation space allocations
    ])

  -- The result of vector_overwrite is not tested; its index is that of a vector_at that has succeeded.
  unfoldable pub process_allocation_set_map : Space H → ℕ → ℕ → ℕ → Run (ℤ × Space H)
  process_allocation_set_map space index ptr size = do
    let (res, tables) =
        paging_map_to space.tables space.pml ptr ptr (paging_align_address (add64 ptr size))
          user_flags
    let mapped = record space { tables = tables }
    let recorded =
        (elements space.allocations >>= λ allocations. ok (
          if ltb index (length allocations)
          then (
            pos 0,
            record mapped {
              allocations =
                  some (
                    set allocations index
                      (record { ptr = ptr; end = add64 ptr size; size = size }));
            },
          )
          else (neg e_invarg, mapped)))
    if is_negative res then ok (res, mapped) else recorded

  -- process_malloc once kzalloc has returned `ptr`.
  unfoldable pub malloc_at : Space H → ℕ → ℕ → Run (ℕ × Space H)
  malloc_at space size ptr =
      let allocated =
        (process_find_free_allocation_index space >>= λ (index, space'). elim index [
          | negsuc e ↦ ok (0, space')
          | pos i ↦ process_allocation_set_map space' i ptr size >>= λ (res, space'').
              ok (if is_negative res then (0, space'') else (ptr, space''))
        ]) in
      if ptr == 0 then ok (0, space) else allocated

  -- The pointer, or 0 for NULL.
  unfoldable pub process_malloc : Space H → ℕ → Run (ℕ × Space H)
  process_malloc space size =
      let (ptr, heap) = kernel.kzalloc space.heap size in
      malloc_at (record space { heap = heap }) size ptr

  unfoldable pub process_realloc : Space H → ℕ → ℕ → Run (ℕ × Space H)
  unfolding process_allocation_exists
  process_realloc space old_virt_ptr new_size = do
    allocations ← elements space.allocations
    let (res, old_allocation_index) = process_allocation_exists allocations old_virt_ptr
    let old_phys_ptr =
        or_null (paging_get_physical_address space.tables.memory space.pml old_virt_ptr)
    let (new_ptr, heap) =
        kernel.krealloc space.heap (if old_virt_ptr == 0 then 0 else old_phys_ptr) new_size
    let space' = record space { heap = heap }
    let moved =
        (process_allocation_set_map space' old_allocation_index new_ptr new_size
          >>= λ (res, space''). ok (new_ptr, space''))
    let given = if new_ptr == 0 then ok (0, space') else moved
    if is_negative res
        then ok (0, space)
        else (if not (old_virt_ptr == 0) && old_phys_ptr == 0 then ok (0, space) else given)

  unfoldable pub process_free : Space H → ℕ → Run (Space H)
  unfolding process_get_allocation_by_start_addr process_allocation_unjoin
  process_free space ptr = do
    allocations ← elements space.allocations
    elim (process_get_allocation_by_start_addr allocations ptr) [
      | none ↦ ok space
      | some allocation ↦
          let (res, tables) =
            paging_map_to space.tables space.pml allocation.ptr allocation.ptr
              (paging_align_address (add64 allocation.ptr allocation.size)) 0 in
          ok (record space {
            tables = tables;
            allocations = some (
                if is_negative res then allocations else process_allocation_unjoin allocations ptr);
          })
    ]

module _ {H : Type 0} (kernel : KernelHeap H) where
  -- The loop of process_terminate_allocations, over the entries from `i` on.
  unfoldable pub terminate_loop : ℕ → ℕ → Space H → Run (Space H)
  unfolding process_free
  terminate_loop zero i space = ok space
  terminate_loop (suc rounds) i space = do
    allocations ← elements space.allocations
    let next = λ (space' : Space H). terminate_loop rounds (i + 1) space'
    elim (get_elem? allocations i) [
      | none ↦ ok space
      | some allocation ↦
          if allocation.ptr == 0
          then next space
          else (process_free kernel space allocation.ptr >>= next)
    ]

  unfoldable pub process_terminate_allocations : Space H → Run (Space H)
  unfolding terminate_loop
  process_terminate_allocations space = do
    allocations ← elements space.allocations
    terminate_loop (length allocations) 0 space

unfoldable pub process_is_stack_memory : ℕ → Bool
process_is_stack_memory addr = leb stack_end addr && leb addr stack_start

-- `struct process_allocation_request`.
pub record AllocationRequest : Type 0 where
  pub allocation : Allocation
  pub is_stack_memory : Bool
  pub addr : ℕ
  pub end : ℕ
  pub total_bytes_left : ℕ

-- The loop over the heap's allocations.
unfoldable pub request_loop : List Allocation → ℕ → Option AllocationRequest
request_loop [] addr = none
request_loop (allocation ∷ allocations) addr =
    let rest = request_loop allocations addr in
    if leb allocation.ptr addr && leb addr allocation.end
    then some (record {
      allocation = allocation;
      is_stack_memory = false;
      addr = addr;
      end = allocation.end;
      total_bytes_left = sub64 allocation.end (sub64 addr allocation.ptr);
    })
    else rest

-- `none` is the status -EIO.
unfoldable pub process_get_allocation_by_addr :
    Option (List Allocation) → ℕ → Run (Option AllocationRequest)
unfolding process_is_stack_memory request_loop
process_get_allocation_by_addr allocations addr =
    if process_is_stack_memory addr
    then ok (
        some (record {
          allocation = record { ptr = stack_end; end = stack_start; size = stack_size };
          is_stack_memory = true;
          addr = addr;
          end = stack_start;
          total_bytes_left = sub64 stack_start addr;
        }))
    else (elements allocations >>= λ xs. ok (request_loop xs addr))

-- The status of process_validate_memory_or_terminate, which terminates the process where it is negative.
unfoldable pub validate : Option (List Allocation) → ℕ → ℕ → Run ℤ
unfolding process_get_allocation_by_addr
validate allocations virt_addr space_needed = do
  request ← process_get_allocation_by_addr allocations virt_addr
  ok (elim request [
    | none ↦ neg e_io
    | some r ↦ if ltb r.total_bytes_left space_needed then neg e_invarg else pos 0
  ])
