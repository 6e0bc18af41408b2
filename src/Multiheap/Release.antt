-- ===== src/Multiheap/Release.antt =====
-- multiheap_free of ViOS64Bit/src/memory/heap/multiheap.c.
use vi_os.Prelude.{
  ℕ, zero, suc, ◌+◌, List, [], ◌∷◌, ◌++◌, Option, none, some, Run, ok, fault, ◌>>=◌, load, store, ℤ,
  pos, negsuc, add64, mul64,
}
use vi_os.Config.{heap_block_size}
use vi_os.Heap.{Call, allocated, freed, free, allocation_block_count, address_to_block}
use vi_os.Paging.{paging_map, paging_get_physical_address}
use vi_os.Multiheap.{Multiheap, get_heaps}

-- heap_free of a heap, and multiheap_paging_heap_free_block for each block it reports, the latest call
-- first in the list. The callback is only set where there are page tables.
unfoldable pub unmap : Multiheap → List Call → Multiheap
unmap multiheap [] = multiheap
unmap multiheap (allocated ptr size ∷ calls) = unmap multiheap calls
unmap multiheap (freed ptr ∷ calls) =
    let earlier = unmap multiheap calls in
    elim multiheap.paging_desc [
      | none ↦ earlier
      | some pml ↦ record earlier { tables = (paging_map earlier.tables pml ptr 0 0).1 }
    ]

unfoldable pub free_in : Multiheap → ℕ → ℕ → Run Multiheap
unfolding unmap
free_in multiheap i ptr = do
  heap ← load multiheap.heaps i
  heap' ← free (record heap { calls = [] }) ptr
  heaps ← store multiheap.heaps i (record heap' { calls = heap'.calls ++ heap.calls })
  ok (unmap (record multiheap { heaps = heaps }) heap'.calls)

-- The loop over the blocks from `i` on, by a function that frees an address.
unfoldable pub free_frames : (Multiheap → ℕ → Run Multiheap) → ℕ → Multiheap → ℕ → ℕ → Run Multiheap
free_frames free_ptr zero multiheap ptr i = ok multiheap
free_frames free_ptr (suc rounds) multiheap ptr i = elim multiheap.paging_desc [
  | none ↦ fault
  | some pml ↦
      free_ptr multiheap (
        frame (
          paging_get_physical_address multiheap.tables.memory pml
            (add64 ptr (mul64 i heap_block_size))))
      >>= λ multiheap'. free_frames free_ptr rounds multiheap' ptr (i + 1)
]
  where
    frame : Option ℕ → ℕ
    frame none = 0
    frame (some phys) = phys

-- The release of an address of a paging heap.
unfoldable pub free_virtual :
    (Multiheap → ℕ → Run Multiheap) → Multiheap → ℕ → Option ℕ → Run Multiheap
unfolding free_in free_frames
free_virtual free_ptr multiheap ptr none = fault
free_virtual free_ptr multiheap ptr (some i) = do
  heap ← load multiheap.heaps i
  total_blocks ← allocation_block_count heap ptr
  multiheap' ← frames (address_to_block heap ptr) total_blocks
  free_in multiheap' i ptr
  where
    frames : ℤ → ℕ → Run Multiheap
    frames (negsuc b) total_blocks = fault
    frames (pos starting_block) total_blocks =
        free_frames free_ptr total_blocks multiheap ptr starting_block

-- At most `depth` calls inside of one another.
unfoldable pub multiheap_free : ℕ → Multiheap → ℕ → Run Multiheap
unfolding get_heaps free_in free_virtual
multiheap_free zero multiheap ptr = fault
multiheap_free (suc depth) multiheap ptr = do
  (phys_heap, paging_heap, real_phys_addr) ← get_heaps multiheap ptr
  let virtual = λ (paging : Option ℕ). free_virtual (multiheap_free depth) multiheap ptr paging
  elim paging_heap [
    | some single ↦ virtual single.paging_heap
    | none ↦ elim phys_heap [
      | none ↦ ok multiheap
      | some single ↦ free_in multiheap single.heap real_phys_addr
    ]
  ]
