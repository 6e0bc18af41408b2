-- ===== src/Multiheap/Setup.antt =====
-- Adding heaps, and their paging heaps, of ViOS64Bit/src/memory/heap/multiheap.c.
use vi_os.Prelude.{
  ℕ, ◌+◌, Bool, true, false, ◌||◌, List, [], ◌∷◌, ◌++◌, none, some, ◌==◌, if◌then◌else◌, Run, ok,
  fault, ◌>>=◌, load, store, ℤ, pos, neg, is_negative, replicate, length, add64,
}
use vi_os.Config.{e_invarg, e_nomem}
use vi_os.Heap.{Heap, create, callbacks_set}
use vi_os.Heap.Resize.{zalloc}
use vi_os.Paging.{paging_map_to}
use vi_os.Multiheap.{SingleHeap, Multiheap, get_max_memory_end_address}
use vi_os.Multiheap.Release.{free_in}

-- The new record is an allocation in the starting heap of as many bytes as it has.
unfoldable pub multiheap_add_heap : Multiheap → ℕ → Bool → Bool → Run (ℤ × Multiheap)
multiheap_add_heap multiheap heap externally_owned allows_paging =
    if multiheap.is_ready then ok (neg e_invarg, multiheap) else added
  where
    single : SingleHeap
    single = record {
      heap = heap;
      paging_heap = none;
      externally_owned = externally_owned;
      allows_paging = allows_paging;
    }

    added : Run (ℤ × Multiheap)
    added = do
      starting ← load multiheap.heaps multiheap.starting_heap
      (new_heap, starting', bytes) ← zalloc starting multiheap.bytes 32
      heaps ← store multiheap.heaps multiheap.starting_heap starting'
      let allocated = record multiheap { heaps = heaps; bytes = bytes }
      ok (
          if new_heap == 0 then (neg e_nomem, allocated) else (
            pos 0,
            record allocated {
              singles = multiheap.singles ++ (single ∷ []);
              total_heaps = multiheap.total_heaps + 1;
            },
          ))

abbrev pub multiheap_add_existing_heap : Multiheap → ℕ → Bool → Run (ℤ × Multiheap)
multiheap_add_existing_heap multiheap heap allows_paging =
    multiheap_add_heap multiheap heap true allows_paging

-- What heap_zalloc leaves in a `struct heap`.
abbrev pub zeroed : Heap
zeroed = record {
  entries = [];
  total = 0;
  saddr = 0;
  eaddr = 0;
  total_blocks = 0;
  free_blocks = 0;
  used_blocks = 0;
  allocated_callback = false;
  free_callback = false;
  calls = [];
}

-- heap_zalloc in the starting heap.
unfoldable pub zalloc_starting : Multiheap → ℕ → Run (ℕ × Multiheap)
zalloc_starting multiheap size = do
  starting ← load multiheap.heaps multiheap.starting_heap
  (ptr, starting', bytes) ← zalloc starting multiheap.bytes size
  heaps ← store multiheap.heaps multiheap.starting_heap starting'
  ok (ptr, record multiheap { heaps = heaps; bytes = bytes })

-- The table of the new heap is zeroed: it has no entries. A `struct heap` has 64 bytes and its table 16.
unfoldable pub multiheap_add : Multiheap → ℕ → ℕ → Bool → Bool → Run (ℤ × Multiheap)
unfolding zalloc_starting free_in multiheap_add_heap
multiheap_add multiheap saddr eaddr externally_owned allows_paging = do
  (heap, multiheap1) ← zalloc_starting multiheap 64
  (table, multiheap2) ← zalloc_starting multiheap1 16
  let created = create_in multiheap2 heap table
  if heap == 0 || table == 0 then ok (neg e_nomem, multiheap2) else created
  where
    create_in : Multiheap → ℕ → ℕ → Run (ℤ × Multiheap)
    create_in multiheap heap table = create zeroed saddr eaddr [] 0 >>= λ (res, new_heap).
        let refused = (do
          multiheap1 ← free_in multiheap multiheap.starting_heap heap
          multiheap2 ← free_in multiheap1 multiheap.starting_heap table
          ok (res, multiheap2)) in
        let added =
          multiheap_add_heap (record multiheap { heaps = multiheap.heaps ++ (new_heap ∷ []) })
            (length multiheap.heaps) externally_owned allows_paging in
        if is_negative res then refused else added

-- The paging heap of one heap; what heap_zalloc refuses is written through NULL, and the results of
-- heap_create and paging_map_to are not tested.
unfoldable pub ready_heap : Multiheap → ℕ → ℕ → SingleHeap → Run (SingleHeap × Multiheap)
unfolding zalloc_starting
ready_heap multiheap pml max_end_addr current = do
  heap ← load multiheap.heaps current.heap
  (table, multiheap1) ← zalloc_starting multiheap 16
  (entries, multiheap2) ← zalloc_starting multiheap1 heap.total
  (paging_heap, multiheap3) ← zalloc_starting multiheap2 64
  let start = add64 max_end_addr heap.saddr
  let end = add64 max_end_addr heap.eaddr
  (res, new_heap) ← create zeroed start end (replicate heap.total 0) heap.total
  let created = callbacks_set new_heap false true
  let tables = (paging_map_to multiheap3.tables pml start start end 0).1
  if table == 0 || (entries == 0 || paging_heap == 0)
      then fault
      else ok (
        record current { paging_heap = some (length multiheap3.heaps) },
        record multiheap3 { heaps = multiheap3.heaps ++ (created ∷ []); tables = tables },
      )

unfoldable pub ready_loop : List SingleHeap → Multiheap → ℕ → ℕ → Run (List SingleHeap × Multiheap)
unfolding ready_heap
ready_loop [] multiheap pml max_end_addr = ok ([], multiheap)
ready_loop (current ∷ next) multiheap pml max_end_addr = do
  (current', multiheap') ←
      if current.allows_paging
      then ready_heap multiheap pml max_end_addr current
      else ok (current, multiheap)
  (next', multiheap'') ← ready_loop next multiheap' pml max_end_addr
  ok (current' ∷ next', multiheap'')

unfoldable pub multiheap_ready : Multiheap → Run (ℤ × Multiheap)
unfolding get_max_memory_end_address ready_loop
multiheap_ready multiheap = elim multiheap.paging_desc [
  | none ↦ fault
  | some pml ↦ do
    max_end_addr ← get_max_memory_end_address multiheap.heaps multiheap.singles 0
    let started = record multiheap { is_ready = true; max_end_data_addr = max_end_addr }
    (singles, multiheap') ← ready_loop multiheap.singles started pml max_end_addr
    ok (pos 0, record multiheap' { singles = singles })
]
