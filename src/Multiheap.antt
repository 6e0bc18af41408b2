-- ===== src/Multiheap.antt =====
-- The allocator over several heaps of ViOS64Bit/src/memory/heap/multiheap.c. The heaps, the starting one
-- included, stand in one list, and a pointer to a heap is its index there: one heap can be in both roles.
-- A list of `struct multiheap_single_heap` is a list of records.
pub mod Alloc
pub mod Release
pub mod Setup
mod Tests
use vi_os.Prelude.{
  ℕ, zero, suc, ◌+◌, ◌-◌, ◌*◌, ◌/◌, Bool, true, false, ◌&&◌, ◌||◌, not, List, [], ◌∷◌, ◌++◌, Option,
  none, some, ltb, leb, ◌==◌, if◌then◌else◌, Run, ok, fault, ◌>>=◌, load, store, ℤ, pos, negsuc,
  neg, is_negative, replicate, length, add64, sub64, mul64,
}
use vi_os.Config.{heap_block_size, e_invarg, e_nomem}
use vi_os.Heap.{
  Heap, Call, allocated, freed, malloc, free, is_address_within_heap, allocation_block_count,
  address_to_block, align_value_to_upper, create, callbacks_set,
}
use vi_os.Heap.Resize.{zalloc, realloc}
use vi_os.Memory.{Bytes}
use vi_os.Paging.{PageTables, paging_map, paging_map_to, paging_get_physical_address}

-- `struct multiheap_single_heap`; its flags are a bit each.
pub record SingleHeap : Type 0 where
  pub heap : ℕ
  pub paging_heap : Option ℕ
  pub externally_owned : Bool
  pub allows_paging : Bool

-- `struct multiheap`, with the heaps, the memory of the allocations and the page tables that the code
-- reaches through it; `paging_desc` is what paging_current_descriptor gives.
pub record Multiheap : Type 0 where
  pub starting_heap : ℕ
  pub singles : List SingleHeap
  pub max_end_data_addr : ℕ
  pub is_ready : Bool
  pub total_heaps : ℕ
  pub heaps : List Heap
  pub bytes : Bytes
  pub tables : PageTables
  pub paging_desc : Option ℕ

unfoldable pub get_max_memory_end_address : List Heap → List SingleHeap → ℕ → Run ℕ
get_max_memory_end_address heaps [] max_addr = ok max_addr
get_max_memory_end_address heaps (current ∷ next) max_addr = do
  heap ← load heaps current.heap
  get_max_memory_end_address heaps next (if leb max_addr heap.eaddr then heap.eaddr else max_addr)

unfoldable pub get_heap_for_address : List Heap → List SingleHeap → ℕ → Run (Option SingleHeap)
get_heap_for_address heaps [] address = ok none
get_heap_for_address heaps (current ∷ next) address = do
  heap ← load heaps current.heap
  let rest = get_heap_for_address heaps next address
  if is_address_within_heap heap address then ok (some current) else rest

-- A paging heap that is NULL is read through NULL.
abbrev pub load_heap : List Heap → Option ℕ → Run Heap
load_heap heaps none = fault
load_heap heaps (some i) = load heaps i

unfoldable pub get_paging_heap_for_address :
    List Heap → List SingleHeap → ℕ → Run (Option SingleHeap)
get_paging_heap_for_address heaps [] address = ok none
get_paging_heap_for_address heaps (current ∷ next) address =
    let rest = get_paging_heap_for_address heaps next address in
    let tested =
      (load_heap heaps current.paging_heap >>= λ heap.
      if is_address_within_heap heap address then ok (some current) else rest) in
    if not current.allows_paging then rest else tested

abbrev pub is_address_virtual : Multiheap → ℕ → Bool
is_address_virtual multiheap ptr = leb multiheap.max_end_data_addr ptr

-- The heap, the paging heap and the physical address.
unfoldable pub get_heaps : Multiheap → ℕ → Run (Option SingleHeap × Option SingleHeap × ℕ)
unfolding get_heap_for_address get_paging_heap_for_address
get_heaps multiheap ptr =
    let virtual = (do
      paging ← get_paging_heap_for_address multiheap.heaps multiheap.singles ptr
      let real_addr = sub64 ptr multiheap.max_end_data_addr
      heap ← get_heap_for_address multiheap.heaps multiheap.singles real_addr
      ok (heap, paging, real_addr)) in
    let physical =
      (get_heap_for_address multiheap.heaps multiheap.singles ptr >>= λ heap.
      ok (heap, none, ptr)) in
    if is_address_virtual multiheap ptr then virtual else physical

-- The physical heap is not used, and of the paging heap's record the heap of the data.
unfoldable pub multiheap_allocation_block_count : Multiheap → ℕ → Run ℕ
unfolding get_heaps
multiheap_allocation_block_count multiheap ptr = do
  (phys_heap, paging_heap, real_phys_addr) ← get_heaps multiheap ptr
  elim paging_heap [
    | none ↦ ok 0
    | some heap_to_check ↦
        load multiheap.heaps heap_to_check.heap >>= λ heap. allocation_block_count heap ptr
  ]

-- The loop over the heaps from `singles` on.
unfoldable pub first_pass : List SingleHeap → Multiheap → ℕ → Run (ℕ × Multiheap)
first_pass [] multiheap size = ok (0, multiheap)
first_pass (current ∷ next) multiheap size = do
  heap ← load multiheap.heaps current.heap
  (ptr, heap') ← malloc heap size
  heaps ← store multiheap.heaps current.heap heap'
  let rest = first_pass next (record multiheap { heaps = heaps }) size
  if ptr == 0 then rest else ok (ptr, record multiheap { heaps = heaps })

unfoldable pub multiheap_alloc : Multiheap → ℕ → Run (ℕ × Multiheap)
unfolding first_pass
multiheap_alloc multiheap size = first_pass multiheap.singles multiheap size

unfoldable pub alloc_paging :
    List SingleHeap → Multiheap → ℕ → Run (ℕ × Option SingleHeap × Multiheap)
alloc_paging [] multiheap size = ok (0, none, multiheap)
alloc_paging (current ∷ next) multiheap size = do
  let rest = alloc_paging next multiheap size
  let tried = do
    heap ← load multiheap.heaps current.heap
    let allocated = do
      paging_heap ← load_heap multiheap.heaps current.paging_heap
      (ptr, paging_heap') ← malloc paging_heap size
      heaps ← store_heap multiheap.heaps current.paging_heap paging_heap'
      let further = alloc_paging next (record multiheap { heaps = heaps }) size
      if ptr == 0 then further else ok (ptr, some current, record multiheap { heaps = heaps })
    if ltb heap.free_blocks (size / heap_block_size) then rest else allocated
  if not current.allows_paging then rest else tried
  where
    store_heap : List Heap → Option ℕ → Heap → Run (List Heap)
    store_heap heaps none heap = fault
    store_heap heaps (some i) heap = store heaps i heap

-- The loop that gives each page its frame; the flags are writeable and present.
unfoldable pub map_blocks : ℕ → Multiheap → ℕ → SingleHeap → ℕ → Run Multiheap
map_blocks zero multiheap pml chosen current_addr = ok multiheap
map_blocks (suc rounds) multiheap pml chosen current_addr = do
  heap ← load multiheap.heaps chosen.heap
  (block_addr, heap', bytes) ← zalloc heap multiheap.bytes heap_block_size
  heaps ← store multiheap.heaps chosen.heap heap'
  let (res, tables) = paging_map multiheap.tables pml current_addr block_addr 3
  let rest =
      map_blocks rounds (record multiheap { heaps = heaps; bytes = bytes; tables = tables }) pml
        chosen (add64 current_addr heap_block_size)
  if block_addr == 0 then fault else rest

unfoldable pub second_pass : Multiheap → ℕ → Run (ℕ × Multiheap)
unfolding alloc_paging map_blocks
second_pass multiheap size = elim multiheap.paging_desc [
  | none ↦ fault
  | some pml ↦ do
    let size' = align_value_to_upper size
    (saddr, chosen, multiheap') ← alloc_paging multiheap.singles multiheap size'
    elim chosen [
      | none ↦ ok (0, multiheap')
      | some single ↦ map_blocks (size' / heap_block_size) multiheap' pml single saddr >>= λ mapped.
          ok (saddr, mapped)
    ]
]

unfoldable pub multiheap_palloc : Multiheap → ℕ → Run (ℕ × Multiheap)
unfolding first_pass second_pass
multiheap_palloc multiheap size = do
  (ptr, multiheap') ← first_pass multiheap.singles multiheap size
  let second = second_pass multiheap' size
  if ptr == 0 then second else ok (ptr, multiheap')

unfoldable pub multiheap_realloc : Multiheap → ℕ → ℕ → Run (ℕ × Multiheap)
unfolding get_heaps multiheap_alloc
multiheap_realloc multiheap old_ptr new_size = do
  (phys_heap, paging_heap, real_phys_addr) ← get_heaps multiheap old_ptr
  elim paging_heap [ some single ↦ fault | none ↦ moved phys_heap ]
  where
    moved : Option SingleHeap → Run (ℕ × Multiheap)
    moved none = multiheap_alloc multiheap new_size
    moved (some single) = do
      heap ← load multiheap.heaps single.heap
      (ptr, heap', bytes) ← realloc heap multiheap.bytes old_ptr new_size
      heaps ← store multiheap.heaps single.heap heap'
      ok (ptr, record multiheap { heaps = heaps; bytes = bytes })
