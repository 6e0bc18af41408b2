-- ===== src/Processes/Bounds.antt =====
-- What process.c of ViOS64Bit/src/task makes of addresses that its table of allocations does not have, and of the
-- bytes behind an address.
use vi_os.Prelude.{
  ℕ, ◌+◌, ◌-◌, ◌*◌, ◌%◌, ◌^◌, ◌≤◌, ◌<◌, ◌≡◌, refl, true, false, ◌&&◌, List, [], ◌∷◌, ◌++◌, none,
  some, arith, ok, ◌>>=◌, pos, neg, leb, ◌==◌, if◌then◌else◌, sub64,
}
use vi_os.Config.{e_io, e_invarg}
use vi_os.Paging.Map.{IsTree}
use vi_os.Processes.{
  Allocation, KernelHeap, Space, exists_loop, process_allocation_exists, process_realloc,
  request_loop, process_is_stack_memory, process_get_allocation_by_addr, validate,
}
use vi_os.Processes.Memory.{Used, pages, set_map_at}

exists_loop-Used :
    (xs : List Allocation) (i : ℕ) → Used xs → exists_loop xs 0 i (pos 0) ≡ (pos 0, 0)
unfolding exists_loop
exists_loop-Used [] i used = refl
exists_loop-Used (x ∷ xs) i used =
    let taken : (x.ptr == 0) ≡ false = ground (arith, used.0) in
    rw (taken, exists_loop-Used xs (i + 1) used.1)

-- process_realloc of NULL, where every entry of the table is in use and krealloc gives memory of whole pages below
-- 2^47, with three frames for each page left, writes the new allocation over the first entry of the table.
pub process_realloc-null :
    {H : Type 0} (kernel : KernelHeap H) (space : Space H) (first : Allocation)
    (rest : List Allocation) (size ptr n : ℕ) (heap : H)
    → space.allocations ≡ some (first ∷ rest)
    → Used (first ∷ rest)
    → kernel.krealloc space.heap 0 size ≡ (ptr, heap)
    → 0 < ptr
    → ptr % 4096 ≡ 0
    → ptr + size < 2 ^ 47
    → IsTree space.tables space.pml (n + 3 * pages size)
    → (space' : Space H) × (process_realloc kernel space 0 size ≡ ok (ptr, space'))
      × (space'.allocations ≡ some (record { ptr = ptr; end = ptr + size; size = size } ∷ rest))
unfolding process_realloc process_allocation_exists exists_loop
process_realloc-null kernel space first rest size ptr n heap e used given positive aligned small
      tree =
    let (tables', done, mapped, tree') =
      set_map_at kernel (record space { heap = heap; allocations = some (first ∷ rest) }) [] rest
        first ptr size n refl aligned small tree in
    let taken : (first.ptr == 0) ≡ false = ground (arith, used.0) in
    let not_null : (ptr == 0) ≡ false = ground arith in
    (
      record space {
        heap = heap;
        tables = tables';
        allocations = some (record { ptr = ptr; end = ptr + size; size = size } ∷ rest);
      },
      rw (process_realloc, given, e)
          (rw (◌>>=◌, taken, exists_loop-Used rest 1 used.1, not_null, done) refl),
      refl,
    )

-- The address lies in none of the allocations.
abbrev pub Outside : ℕ → List Allocation → Type 0
Outside addr [] = Unit
Outside addr (a ∷ as') = ((leb a.ptr addr && leb addr a.end) ≡ false) × Outside addr as'

request_loop-found :
    (pre post : List Allocation) (ptr size k : ℕ)
    → Outside (ptr + k) pre
    → k ≤ size
    → ptr + size < 2 ^ 64
    → request_loop (pre ++ (record { ptr = ptr; end = ptr + size; size = size } ∷ post)) (ptr + k)
      ≡ some (record {
        allocation = record { ptr = ptr; end = ptr + size; size = size };
        is_stack_memory = false;
        addr = ptr + k;
        end = ptr + size;
        total_bytes_left = ptr + size - k;
      })
unfolding request_loop
request_loop-found [] post ptr size k outside le small =
    let within : (leb ptr (ptr + k) && leb (ptr + k) (ptr + size)) ≡ true = ground arith in
    let left : sub64 (ptr + size) (sub64 (ptr + k) ptr) ≡ ptr + size - k = omega arith in
    rw (within, left)
request_loop-found (a ∷ pre) post ptr size k outside le small =
    rw (outside.0) (request_loop-found pre post ptr size k outside.1 le small)

-- For an address `k` bytes behind the begin of an allocation, not on the stack and in no allocation before it in the
-- table, the memory that is asked for is held to be there exactly if it is not more than the address of the
-- allocation's end, less `k`; only `size - k` bytes are there.
pub validate-found :
    (pre post : List Allocation) (ptr size k space_needed : ℕ)
    → Outside (ptr + k) pre
    → k ≤ size
    → ptr + size < 2 ^ 64
    → process_is_stack_memory (ptr + k) ≡ false
    → validate
        (some (pre ++ (record { ptr = ptr; end = ptr + size; size = size } ∷ post)))
        (ptr + k)
        space_needed
      ≡ ok (if leb space_needed (ptr + size - k) then pos 0 else neg e_invarg)
unfolding validate process_get_allocation_by_addr
validate-found pre post ptr size k space_needed outside le small heap =
    rw (heap, request_loop-found pre post ptr size k outside le small) (ground arith)

request_loop-Outside :
    (allocations : List Allocation) (addr : ℕ)
    → Outside addr allocations
    → request_loop allocations addr ≡ none
unfolding request_loop
request_loop-Outside [] addr outside = refl
request_loop-Outside (a ∷ allocations) addr outside =
    rw (outside.0) (request_loop-Outside allocations addr outside.1)

pub validate-Outside :
    (allocations : List Allocation) (virt_addr space_needed : ℕ)
    → process_is_stack_memory virt_addr ≡ false
    → Outside virt_addr allocations
    → validate (some allocations) virt_addr space_needed ≡ ok (neg e_io)
unfolding validate process_get_allocation_by_addr
validate-Outside allocations virt_addr space_needed off_stack outside =
    rw (off_stack, request_loop-Outside allocations virt_addr outside)
