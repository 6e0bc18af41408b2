-- ===== src/Multiheap/Tests.antt =====
-- The theorems about several heaps at two of them.
use vi_os.Prelude.{ℕ, ◌+◌, ◌*◌, ◌≡◌, ◌⊎◌, refl, false, true, [], ◌∷◌, none, arith, replicate, ok}
use vi_os.Heap.{Heap, created_heap, entry_free}
use vi_os.Heap.Layout.{gap}
use vi_os.Heap.Create.{create-IsLaid}
use vi_os.Paging.{null}
use vi_os.Multiheap.{Multiheap, SingleHeap, multiheap_alloc, multiheap_allocation_block_count}
use vi_os.Multiheap.Alloc.{
  Laid, AllLaid, NoneFits, FirstFits, multiheap_alloc-FirstFits,
  multiheap_allocation_block_count-physical,
}

abbrev unset : Heap
unset = record {
  entries = [];
  total = 0;
  saddr = 0;
  eaddr = 0;
  total_blocks = 0;
  free_blocks = 0;
  used_blocks = 0;
  allocated_callback = false;
  free_callback = false;
  calls = [];
}

-- A pool of four blocks.
abbrev pool : ℕ → Heap
pool start = created_heap start (start + 4 * 4096) (replicate 4 entry_free) 4

abbrev single : ℕ → SingleHeap
single i = record { heap = i; paging_heap = none; externally_owned = true; allows_paging = false }

abbrev two_heaps : Multiheap
two_heaps = record {
  starting_heap = 0;
  singles = single 0 ∷ single 1 ∷ [];
  max_end_data_addr = 100000;
  is_ready = true;
  total_heaps = 2;
  heaps = pool 4096 ∷ pool 40960 ∷ [];
  bytes = λ a. 0;
  tables = record { memory = λ f i. null; frames = []; invalidated = [] };
  paging_desc = none;
}

first-Laid : Laid two_heaps.heaps 0 (pool 4096) (replicate 4 gap)
first-Laid = record {
  pre = [];
  post = pool 40960 ∷ [];
  split = refl;
  place = refl;
  laid =
      (create-IsLaid unset 4096 20480 (replicate 4 7) 4 refl (omega arith) refl (omega arith)
        refl).1;
}

second-Laid : Laid two_heaps.heaps 1 (pool 40960) (replicate 4 gap)
second-Laid = record {
  pre = pool 4096 ∷ [];
  post = [];
  split = refl;
  place = refl;
  laid =
      (create-IsLaid unset 40960 57344 (replicate 4 7) 4 refl (omega arith) refl (omega arith)
        refl).1;
}

two_heaps-AllLaid : AllLaid two_heaps.heaps two_heaps.singles
two_heaps-AllLaid =
    ((pool 4096, replicate 4 gap, first-Laid), ((pool 40960, replicate 4 gap, second-Laid), tt))

multiheap_alloc-FirstFits_example :
    (NoneFits two_heaps.heaps 5000 two_heaps.singles
      × (multiheap_alloc two_heaps 5000 ≡ ok (0, two_heaps)))
    ⊎ FirstFits two_heaps 5000 two_heaps.singles (multiheap_alloc two_heaps 5000)
multiheap_alloc-FirstFits_example =
    multiheap_alloc-FirstFits two_heaps 5000 two_heaps-AllLaid (omega arith) (omega arith)

multiheap_allocation_block_count-physical_example :
    multiheap_allocation_block_count two_heaps 4096 ≡ ok 0
multiheap_allocation_block_count-physical_example =
    multiheap_allocation_block_count-physical two_heaps 4096 two_heaps-AllLaid (omega arith)
