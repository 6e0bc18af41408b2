-- ===== src/Heap.antt =====
-- The block allocator of ViOS64Bit/src/memory/heap/heap.c and heap.h.
pub mod Create
pub mod FirstFit
pub mod Layout
pub mod Malloc
pub mod NoBlocks
pub mod Release
mod Tests
pub mod Resize
use vi_os.Prelude.{
  ℕ, zero, suc, ◌+◌, ◌-◌, ◌/◌, ◌%◌, Bool, false, ◌&&◌, ◌||◌, not, List, [], ◌∷◌, ◌++◌, ltb, leb,
  ◌==◌, if◌then◌else◌, length, drop, replicate, Run, ok, fault, ◌>>=◌, load, store, ℤ, pos, negsuc,
  neg, is_negative, add64, sub64, mul64, to_int64, quot,
}
use vi_os.Config.{heap_block_size, e_invarg, e_nomem}

-- The bits of a HEAP_BLOCK_TABLE_ENTRY.
abbrev pub entry_free : ℕ
entry_free = 0x00

abbrev pub entry_taken : ℕ
entry_taken = 0x01

abbrev pub entry_has_next : ℕ
entry_has_next = 0b10000000

abbrev pub entry_is_first : ℕ
entry_is_first = 0b01000000

-- `entry & TAKEN` and `entry & HAS_NEXT` of an unsigned char.
abbrev pub is_taken : ℕ → Bool
is_taken e = e % 2 == 1

abbrev pub has_next : ℕ → Bool
has_next e = e / 128 % 2 == 1

-- `entry | HAS_NEXT` and `entry & ~HAS_NEXT` of an unsigned char.
abbrev pub with_next : ℕ → ℕ
with_next e = if has_next e then e else e + entry_has_next

abbrev pub without_next : ℕ → ℕ
without_next e = if has_next e then e - entry_has_next else e

-- A call of a callback, with its arguments.
pub data Call : Type 0 where
  allocated : ℕ → ℕ → Call
  freed : ℕ → Call

-- `struct heap` with its `struct heap_table`. The callbacks are set or NULL, and `calls` is the
-- history of their calls, the latest first.
pub record Heap : Type 0 where
  pub entries : List ℕ
  pub total : ℕ
  pub saddr : ℕ
  pub eaddr : ℕ
  pub total_blocks : ℕ
  pub free_blocks : ℕ
  pub used_blocks : ℕ
  pub allocated_callback : Bool
  pub free_callback : Bool
  pub calls : List Call

pub validate_table : ℕ → ℕ → ℕ → ℤ
validate_table ptr end total =
    if sub64 end ptr / heap_block_size == total then pos 0 else neg e_invarg

pub validate_alignment : ℕ → Bool
validate_alignment ptr = ptr % heap_block_size == 0

-- A heap without an allocation, with the given table.
unfoldable pub created_heap : ℕ → ℕ → List ℕ → ℕ → Heap
created_heap ptr end entries total = record {
  entries = entries;
  total = total;
  saddr = ptr;
  eaddr = end;
  total_blocks = total;
  free_blocks = total;
  used_blocks = 0;
  allocated_callback = false;
  free_callback = false;
  calls = [];
}

-- The table comes as its size and its entries, which the call overwrites; memset behind the entries faults. The heap is written only
-- if the alignment is right, and the entries are cleared only if the size of the table is, too.
pub create : Heap → ℕ → ℕ → List ℕ → ℕ → Run (ℤ × Heap)
unfolding validate_table validate_alignment created_heap
create heap ptr end entries total =
    if not (validate_alignment ptr) || not (validate_alignment end)
    then ok (neg e_invarg, heap)
    else (let res = validate_table ptr end total in
        if is_negative res then ok (res, created_heap ptr end entries total) else cleared)
  where
    cleared : Run (ℤ × Heap)
    cleared =
        if ltb (length entries) total
        then fault
        else ok
            (pos 0, created_heap ptr end (replicate total entry_free ++ drop total entries) total)

pub align_value_to_upper : ℕ → ℕ
align_value_to_upper val =
    if val % heap_block_size == 0 then val else add64 (val - val % heap_block_size) heap_block_size

pub align_value_to_lower : ℕ → ℕ
align_value_to_lower val = if val % heap_block_size == 0 then val else val - val % heap_block_size

-- `entry & 0x0f`
abbrev pub get_entry_type : ℕ → ℕ
get_entry_type entry = entry % 16

pub is_address_within_heap : Heap → ℕ → Bool
is_address_within_heap heap ptr = leb heap.saddr ptr && leb ptr heap.eaddr

pub callbacks_set : Heap → Bool → Bool → Heap
callbacks_set heap allocated_func free_func = record heap {
  allocated_callback = allocated_func;
  free_callback = free_func;
}

-- The loop of `get_start_block`: `rounds` entries are left, from index `i` on, and `bs` is -1 or
-- the start of the run of `bc` free blocks that ends before `i`.
pub start_block_loop : ℕ → ℕ → List ℕ → ℕ → ℕ → ℤ → Run (ℕ × ℤ)
start_block_loop total_blocks zero es i bc bs = ok (bc, bs)
start_block_loop total_blocks (suc rounds) [] i bc bs = fault
start_block_loop total_blocks (suc rounds) (entry ∷ es) i bc bs =
    let bs' = if is_negative bs then pos i else bs in
    let reset = start_block_loop total_blocks rounds es (i + 1) 0 (neg 1) in
    let more = start_block_loop total_blocks rounds es (i + 1) (bc + 1) bs' in
    if get_entry_type entry == entry_free
    then (if bc + 1 == total_blocks then ok (bc + 1, bs') else more)
    else reset

pub get_start_block : Heap → ℕ → Run ℤ
unfolding start_block_loop
get_start_block heap total_blocks = do
  (bc, bs) ← start_block_loop total_blocks heap.total heap.entries 0 0 (neg 1)
  ok (if bc == total_blocks then bs else neg e_nomem)

pub block_to_address : Heap → ℕ → ℕ
block_to_address heap block = add64 heap.saddr (mul64 block heap_block_size)

pub address_to_block : Heap → ℕ → ℤ
address_to_block heap address = quot (to_int64 (sub64 address heap.saddr)) heap_block_size

abbrev pub notify_allocated : Heap → ℕ → List Call
notify_allocated heap address =
    if heap.allocated_callback then allocated address heap_block_size ∷ heap.calls else heap.calls

abbrev pub notify_freed : Heap → ℕ → List Call
notify_freed heap address = if heap.free_callback then freed address ∷ heap.calls else heap.calls

-- `rounds` blocks are left to mark, from `i` on; `i != end_block` while more than one is.
pub mark_taken_loop : ℕ → ℕ → ℕ → Heap → Run Heap
unfolding block_to_address
mark_taken_loop zero i entry heap = ok heap
mark_taken_loop (suc rounds) i entry heap = do
  es ← store heap.entries i entry
  let entry' = if rounds == 0 then entry_taken else entry_taken + entry_has_next
  let calls' = notify_allocated heap (block_to_address heap i)
  mark_taken_loop rounds (i + 1) entry' (record heap { entries = es; calls = calls' })

pub mark_blocks_taken : Heap → ℕ → ℕ → Run Heap
unfolding mark_taken_loop
mark_blocks_taken heap start_block total_blocks =
    let first = entry_taken + entry_is_first in
    mark_taken_loop total_blocks start_block
      (if ltb 1 total_blocks then first + entry_has_next else first) heap

-- The address (0 is NULL) and the new heap.
pub malloc_blocks : Heap → ℕ → Run (ℕ × Heap)
unfolding get_start_block mark_blocks_taken block_to_address
malloc_blocks heap total_blocks = do
  start_block ← get_start_block heap total_blocks
  elim start_block [
    | negsuc _ ↦ ok (0, heap)
    | pos block ↦ mark_blocks_taken heap block total_blocks >>= λ heap'. ok (
      block_to_address heap block,
      record heap' {
        used_blocks = add64 heap'.used_blocks total_blocks;
        free_blocks = sub64 heap'.free_blocks total_blocks;
      },
    )
  ]

pub malloc : Heap → ℕ → Run (ℕ × Heap)
unfolding malloc_blocks align_value_to_upper
malloc heap size = malloc_blocks heap (align_value_to_upper size / heap_block_size)

-- `rounds` entries are left, from `i` on; the result counts the freed blocks.
pub mark_free_loop : ℕ → ℕ → ℕ → Heap → Run (ℕ × Heap)
unfolding block_to_address
mark_free_loop zero i count heap = ok (count, heap)
mark_free_loop (suc rounds) i count heap = do
  entry ← load heap.entries i
  es ← store heap.entries i entry_free
  let heap' = record heap { entries = es; calls = notify_freed heap (block_to_address heap i) }
  let rest = mark_free_loop rounds (i + 1) (count + 1) heap'
  if has_next entry then rest else ok (count + 1, heap')

-- A negative index faults at the first access.
pub mark_blocks_free : Heap → ℤ → Run Heap
unfolding mark_free_loop
mark_blocks_free heap (negsuc _) = fault
mark_blocks_free heap (pos starting_block) = do
  (count, heap') ← mark_free_loop (heap.total - starting_block) starting_block 0 heap
  ok (record heap' {
    used_blocks = sub64 heap'.used_blocks count;
    free_blocks = add64 heap'.free_blocks count;
  })

pub free : Heap → ℕ → Run Heap
unfolding mark_blocks_free address_to_block
free heap ptr = mark_blocks_free heap (address_to_block heap ptr)

pub block_count_loop : ℕ → List ℕ → ℕ → ℕ → Run ℕ
block_count_loop zero es i count = ok count
block_count_loop (suc rounds) es i count = do
  entry ← load es i
  let count' = if is_taken entry then count + 1 else count
  let rest = block_count_loop rounds es (i + 1) count'
  if has_next entry then rest else ok count'

pub allocation_block_count : Heap → ℕ → Run ℕ
unfolding block_count_loop address_to_block
allocation_block_count heap starting_address = elim (address_to_block heap starting_address) [
  | negsuc _ ↦ ok 0
  | pos starting_block ↦
      block_count_loop (heap.total - starting_block) heap.entries starting_block 0
]
