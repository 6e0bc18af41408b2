-- ===== src/Processes/Memory.antt =====
-- The table of allocations of a process of ViOS64Bit/src/task/process.c, and the pages of its memory.
use native.Mathlib.Nat.{zero-add}
use vi_os.Prelude.{
  ℕ, ◌+◌, ◌*◌, ◌/◌, ◌%◌, ◌^◌, ◌<◌, ◌≡◌, refl, ap, ◌∙◌, ◌⊎◌, inl, inr, true, false, List, [], ◌∷◌,
  ◌++◌, Option, none, some, arith, length, length-append, set-prefix, ok, ◌>>=◌, pos, ltb, ◌==◌,
  add64, sub64,
}
use vi_os.Paging.{PageTables, paging_map_range, paging_map_to, paging_align_address}
use vi_os.Paging.Map.{IsTree}
use vi_os.Paging.Range.{RangeMapped, paging_map_range-RangeMapped}
use vi_os.Processes.{
  Allocation, no_allocation, KernelHeap, Space, user_flags, free_index, push_allocation,
  process_find_free_allocation_index, process_allocation_set_map, malloc_at, process_malloc,
}

-- The pages from `ptr` that `size` bytes take.
abbrev pub pages : ℕ → ℕ
pages size = (size + 4095) / 4096

aligned_end :
    (ptr size : ℕ)
    → ptr % 4096 ≡ 0
    → ptr + size < 2 ^ 47
    → paging_align_address (add64 ptr size) ≡ ptr + 4096 * pages size
unfolding paging_align_address
aligned_end ptr size aligned small = ground arith

paging_map_to-range :
    (pt : PageTables) (pml ptr count flags : ℕ)
    → ptr % 4096 ≡ 0
    → ptr + 4096 * count < 2 ^ 48
    → paging_map_to pt pml ptr ptr (ptr + 4096 * count) flags
      ≡ paging_map_range count pt pml ptr ptr flags
unfolding paging_map_to
paging_map_to-range pt pml ptr count flags aligned small =
    let start : (ptr % 4096 == 0) ≡ true = ground arith in
    let end : ((ptr + 4096 * count) % 4096 == 0) ≡ true = ground arith in
    let order : ltb (ptr + 4096 * count) ptr ≡ false = ground arith in
    let number : sub64 (ptr + 4096 * count) ptr / 4096 ≡ count = omega arith in
    rw (start, end, order, number)

-- Mapping the pages of an allocation.
pub paging_map_to-RangeMapped :
    (pt : PageTables) (pml ptr size flags n : ℕ)
    → ptr % 4096 ≡ 0
    → ptr + size < 2 ^ 47
    → IsTree pt pml (n + 3 * pages size)
    → (pt' : PageTables) × (paging_map_to pt pml ptr ptr
          (paging_align_address (add64 ptr size))
          flags
        ≡ (pos 0, pt'))
      × RangeMapped pt pt' pml ptr ptr (pages size) flags
      × IsTree pt' pml n
paging_map_to-RangeMapped pt pml ptr size flags n aligned small tree =
    let (pt', e, mapped, tree') =
      paging_map_range-RangeMapped (pages size) pt pml ptr ptr flags n tree (omega arith)
        (omega arith) in
    (
      pt',
      ap (λ end. paging_map_to pt pml ptr ptr end flags) (aligned_end ptr size aligned small)
          ∙ paging_map_to-range pt pml ptr (pages size) flags aligned (omega arith)
          ∙ e,
      mapped,
      tree',
    )

-- Entries that are all in use.
abbrev pub Used : List Allocation → Type 0
Used [] = Unit
Used (allocation ∷ allocations) = (0 < allocation.ptr) × Used allocations

free_index-Used : (pre : List Allocation) (i : ℕ) → Used pre → free_index pre i ≡ none
unfolding free_index
free_index-Used [] i used = refl
free_index-Used (a ∷ pre) i used =
    let taken : (a.ptr == 0) ≡ false = ground (arith, used.0) in
    rw (taken, free_index-Used pre (i + 1) used.1)

free_index-first :
    (pre : List Allocation) (a : Allocation) (post : List Allocation) (i : ℕ)
    → Used pre
    → a.ptr ≡ 0
    → free_index (pre ++ (a ∷ post)) i ≡ some (i + length pre)
unfolding free_index
free_index-first [] a post i used unused =
    let here : (a.ptr == 0) ≡ true = ground arith in rw here (ap some (omega arith))
free_index-first (b ∷ pre) a post i used unused =
    let taken : (b.ptr == 0) ≡ false = ground (arith, used.0) in
    rw (taken, free_index-first pre a post (i + 1) used.1 unused) (ap some (omega arith))

module _ {H : Type 0} (kernel : KernelHeap H) where
  -- Behind the entries `pre`, all in use, there is one that is not, or there is none and the vector grows.
  abbrev pub Room : H → List Allocation → List Allocation → List Allocation → H → Type 0
  Room heap allocations pre post heap' =
      ((a : Allocation) × (allocations ≡ pre ++ (a ∷ post)) × (a.ptr ≡ 0) × (heap' ≡ heap))
      ⊎ ((allocations ≡ pre) × (post ≡ []) × (kernel.grows heap ≡ (true, heap')))

  -- The index that process_malloc uses.
  free_place :
      (space : Space H) (allocations pre post : List Allocation) (heap' : H)
      → space.allocations ≡ some allocations
      → Used pre
      → Room space.heap allocations pre post heap'
      → (b : Allocation) × (process_find_free_allocation_index kernel space
          ≡ ok (
            pos (length pre),
            record space { heap = heap'; allocations = some (pre ++ (b ∷ post)) },
          ))
  unfolding process_find_free_allocation_index push_allocation
  free_place space allocations pre post heap' e used (inl (a, there, unused, same)) = (
    a,
    rw
        (
          process_find_free_allocation_index,
          e ∙ ap some there,
          free_index-first pre a post 0 used unused,
          same,
          zero-add,
        )
        (ap
          (λ (found : Option (List Allocation)).
            ok (pos (length pre), record space { allocations = found }))
          (e ∙ ap some there)),
  )
  free_place space allocations pre post heap' e used (inr (all, none_behind, grown)) = (
    no_allocation,
    rw
        (
          process_find_free_allocation_index,
          e ∙ ap some all,
          free_index-Used pre 0 used,
          none_behind,
          grown,
        )
        refl,
  )

  pub set_map_at :
      (space : Space H) (pre post : List Allocation) (b : Allocation) (ptr size n : ℕ)
      → space.allocations ≡ some (pre ++ (b ∷ post))
      → ptr % 4096 ≡ 0
      → ptr + size < 2 ^ 47
      → IsTree space.tables space.pml (n + 3 * pages size)
      → (tables' : PageTables) × (process_allocation_set_map kernel space (length pre) ptr size
          ≡ ok (
            pos 0,
            record space {
              tables = tables';
              allocations =
                  some (pre ++ (record { ptr = ptr; end = ptr + size; size = size } ∷ post));
            },
          ))
        × RangeMapped space.tables tables' space.pml ptr ptr (pages size) user_flags
        × IsTree tables' space.pml n
  unfolding process_allocation_set_map
  set_map_at space pre post b ptr size n e aligned small tree =
      let (tables', mapping, mapped, tree') =
        paging_map_to-RangeMapped space.tables space.pml ptr size user_flags n aligned small tree in
      let inside : ltb (length pre) (length (pre ++ (b ∷ post))) ≡ true =
        ground (arith, length-append pre (b ∷ post)) in
      let sum : add64 ptr size ≡ ptr + size = omega arith in
      (
        tables',
        rw (process_allocation_set_map, mapping, e, inside, sum)
            (rw (set-prefix pre post b (record { ptr = ptr; end = ptr + size; size = size })) refl),
        mapped,
        tree',
      )

  malloc_at-RangeMapped :
      (space : Space H) (allocations pre post : List Allocation) (size ptr n : ℕ) (heap' : H)
      → 0 < ptr
      → ptr % 4096 ≡ 0
      → ptr + size < 2 ^ 47
      → space.allocations ≡ some allocations
      → Used pre
      → Room space.heap allocations pre post heap'
      → IsTree space.tables space.pml (n + 3 * pages size)
      → (tables' : PageTables) × (malloc_at kernel space size ptr
          ≡ ok (
            ptr,
            record space {
              heap = heap';
              tables = tables';
              allocations =
                  some (pre ++ (record { ptr = ptr; end = ptr + size; size = size } ∷ post));
            },
          ))
        × RangeMapped space.tables tables' space.pml ptr ptr (pages size) user_flags
        × IsTree tables' space.pml n
  unfolding malloc_at
  malloc_at-RangeMapped space allocations pre post size ptr n heap' positive aligned small e used
        room tree =
      let (b, found) = free_place space allocations pre post heap' e used room in
      let (tables', done, mapped, tree') =
        set_map_at (record space { heap = heap'; allocations = some (pre ++ (b ∷ post)) }) pre post
          b ptr size n refl aligned small tree in
      let not_null : (ptr == 0) ≡ false = ground arith in
      (tables', rw (malloc_at, not_null, found) (rw (◌>>=◌, done) refl), mapped, tree')

  -- process_malloc with memory of whole pages below 2^47, a place in the table of allocations and three frames for
  -- each page left, returns the memory: the pages translate to themselves, open to the process, all other addresses
  -- as before, and the allocation stands in the first free entry of the table.
  pub process_malloc-RangeMapped :
      (space : Space H) (allocations pre post : List Allocation) (size ptr n : ℕ) (heap heap' : H)
      → kernel.kzalloc space.heap size ≡ (ptr, heap)
      → 0 < ptr
      → ptr % 4096 ≡ 0
      → ptr + size < 2 ^ 47
      → space.allocations ≡ some allocations
      → Used pre
      → Room heap allocations pre post heap'
      → IsTree space.tables space.pml (n + 3 * pages size)
      → (space' : Space H) × (process_malloc kernel space size ≡ ok (ptr, space'))
        × (space'.allocations
            ≡ some (pre ++ (record { ptr = ptr; end = ptr + size; size = size } ∷ post)))
        × RangeMapped space.tables space'.tables space.pml ptr ptr (pages size) user_flags
        × IsTree space'.tables space.pml n
  unfolding process_malloc
  process_malloc-RangeMapped space allocations pre post size ptr n heap heap' given positive aligned
        small e used room tree =
      let (tables', done, mapped, tree') =
        malloc_at-RangeMapped (record space { heap = heap }) allocations pre post size ptr n heap'
          positive aligned small e used room tree in
      (
        record space {
          heap = heap';
          tables = tables';
          allocations = some (pre ++ (record { ptr = ptr; end = ptr + size; size = size } ∷ post));
        },
        rw (process_malloc, given) done,
        refl,
        mapped,
        tree',
      )
