-- ===== src/Processes/Release.antt =====
-- process_free of ViOS64Bit/src/task/process.c: the entry of the table and the pages that it releases.
use vi_os.Prelude.{
  ℕ, ◌+◌, ◌*◌, ◌%◌, ◌^◌, ◌<◌, ◌≡◌, refl, ap, true, false, List, [], ◌∷◌, ◌++◌, some, arith, ok,
  ◌>>=◌, ◌==◌,
}
use vi_os.Paging.{PageTables}
use vi_os.Paging.Map.{IsTree}
use vi_os.Paging.Range.{RangeMapped}
use vi_os.Processes.{
  Allocation, no_allocation, KernelHeap, Space, process_get_allocation_by_start_addr,
  process_allocation_unjoin, process_free,
}
use vi_os.Processes.Memory.{pages, paging_map_to-RangeMapped}

-- No entry begins at the address.
abbrev pub Absent : ℕ → List Allocation → Type 0
Absent ptr [] = Unit
Absent ptr (allocation ∷ allocations) = ((allocation.ptr == ptr) ≡ false) × Absent ptr allocations

start_addr-found :
    (pre : List Allocation) (a : Allocation) (post : List Allocation)
    → Absent a.ptr pre
    → process_get_allocation_by_start_addr (pre ++ (a ∷ post)) a.ptr ≡ some a
unfolding process_get_allocation_by_start_addr
start_addr-found [] a post absent = let here : (a.ptr == a.ptr) ≡ true = ground arith in rw here
start_addr-found (b ∷ pre) a post absent = rw (absent.0) (start_addr-found pre a post absent.1)

unjoin-Absent :
    (ptr : ℕ) (xs : List Allocation) → Absent ptr xs → process_allocation_unjoin xs ptr ≡ xs
unfolding process_allocation_unjoin
unjoin-Absent ptr [] absent = refl
unjoin-Absent ptr (x ∷ xs) absent = rw (absent.0, unjoin-Absent ptr xs absent.1)

unjoin-found :
    (pre : List Allocation) (a : Allocation) (post : List Allocation)
    → Absent a.ptr pre
    → process_allocation_unjoin (pre ++ (a ∷ post)) a.ptr
      ≡ pre ++ (no_allocation ∷ process_allocation_unjoin post a.ptr)
unfolding process_allocation_unjoin
unjoin-found [] a post absent = let here : (a.ptr == a.ptr) ≡ true = ground arith in rw here
unjoin-found (b ∷ pre) a post absent = rw (absent.0, unjoin-found pre a post absent.1)

-- process_free of the first allocation that begins at the address.
pub process_free-first :
    {H : Type 0} (kernel : KernelHeap H) (space : Space H) (pre : List Allocation) (a : Allocation)
    (post : List Allocation) (n : ℕ)
    → space.allocations ≡ some (pre ++ (a ∷ post))
    → Absent a.ptr pre
    → a.ptr % 4096 ≡ 0
    → a.ptr + a.size < 2 ^ 47
    → IsTree space.tables space.pml (n + 3 * pages a.size)
    → (tables' : PageTables) × (process_free kernel space a.ptr
        ≡ ok (record space {
          tables = tables';
          allocations = some (pre ++ (no_allocation ∷ process_allocation_unjoin post a.ptr));
        }))
      × RangeMapped space.tables tables' space.pml a.ptr a.ptr (pages a.size) 0
      × IsTree tables' space.pml n
unfolding process_free
process_free-first kernel space pre a post n e absent aligned small tree =
    let (tables', mapping, mapped, tree') =
      paging_map_to-RangeMapped space.tables space.pml a.ptr a.size 0 n aligned small tree in
    (
      tables',
      rw (process_free, e, ◌>>=◌, start_addr-found pre a post absent)
          (rw (mapping, unjoin-found pre a post absent) refl),
      mapped,
      tree',
    )

-- process_free of an allocation of whole pages below 2^47 that the table has once, with three frames for each page
-- left, makes its entry free, closes its pages to everyone and leaves the translation of all other addresses.
pub process_free-RangeMapped :
    {H : Type 0} (kernel : KernelHeap H) (space : Space H) (pre post : List Allocation)
    (ptr size n : ℕ)
    → space.allocations ≡ some (pre ++ (record { ptr = ptr; end = ptr + size; size = size } ∷ post))
    → Absent ptr pre
    → Absent ptr post
    → ptr % 4096 ≡ 0
    → ptr + size < 2 ^ 47
    → IsTree space.tables space.pml (n + 3 * pages size)
    → (space' : Space H) × (process_free kernel space ptr ≡ ok space')
      × (space'.allocations ≡ some (pre ++ (no_allocation ∷ post)))
      × RangeMapped space.tables space'.tables space.pml ptr ptr (pages size) 0
      × IsTree space'.tables space.pml n
process_free-RangeMapped kernel space pre post ptr size n e absent absent' aligned small tree =
    let a : Allocation = record { ptr = ptr; end = ptr + size; size = size } in
    let (tables', done, mapped, tree') =
      process_free-first kernel space pre a post n e absent aligned small tree in
    (
      record space {
        tables = tables';
        allocations = some (pre ++ (no_allocation ∷ process_allocation_unjoin post ptr));
      },
      done,
      ap (λ behind. some (pre ++ (no_allocation ∷ behind))) (unjoin-Absent ptr post absent'),
      mapped,
      tree',
    )
