-- ===== src/Heap/Resize.antt =====
-- zalloc, realloc and the totals of ViOS64Bit/src/memory/heap/heap.c.
use vi_os.Prelude.{
  ℕ, zero, suc, ◌+◌, ◌-◌, ◌/◌, Bool, true, false, List, [], ◌∷◌, leb, ◌==◌, if◌then◌else◌, Run, ok,
  fault, ◌>>=◌, load, store, ℤ, pos, negsuc, add64, sub64, mul64,
}
use vi_os.Config.{heap_block_size}
use vi_os.Memory.{Bytes, memset, memcpy}
use vi_os.Heap.{
  Heap, malloc, free, mark_blocks_free, allocation_block_count, address_to_block, is_taken,
  with_next, without_next, get_entry_type, align_value_to_upper, entry_taken, entry_has_next,
}

pub zalloc : Heap → Bytes → ℕ → Run (ℕ × Heap × Bytes)
unfolding malloc memset
zalloc heap m size = do
  (ptr, heap') ← malloc heap size
  if ptr == 0 then ok (0, heap', m) else (memset m ptr 0x00 size >>= λ m'. ok (ptr, heap', m'))

-- `rounds` blocks are left, from `i` on.
pub range_free_loop : ℕ → List ℕ → ℕ → Run Bool
range_free_loop zero es i = ok true
range_free_loop (suc rounds) es i = do
  entry ← load es i
  let rest = range_free_loop rounds es (i + 1)
  if is_taken entry then ok false else rest

pub is_block_range_free : Heap → ℕ → ℕ → Run Bool
unfolding range_free_loop
is_block_range_free heap starting_block ending_block =
    range_free_loop (ending_block + 1 - starting_block) heap.entries starting_block

pub extend_loop : ℕ → ℕ → List ℕ → Run (List ℕ)
extend_loop zero i es = ok es
extend_loop (suc rounds) i es =
    store es i (entry_taken + entry_has_next) >>= extend_loop rounds (i + 1)

-- Gives back the blocks of an allocation of `current` blocks behind its first `new_total`.
pub shrink : Heap → ℕ → ℕ → ℕ → Run Heap
unfolding mark_blocks_free
shrink heap starting_block current new_total = do
  heap' ← mark_blocks_free heap (pos (starting_block + new_total))
  es ←
      (if new_total == 0 then ok heap'.entries else (do
        entry ← load heap'.entries (starting_block + new_total - 1)
        store heap'.entries (starting_block + new_total - 1) (without_next entry)))
  let freed_blocks = current - new_total
  ok (record heap' {
    entries = es;
    used_blocks = sub64 heap'.used_blocks freed_blocks;
    free_blocks = add64 heap'.free_blocks freed_blocks;
  })

-- Takes `extra` free blocks behind an allocation that ends before `extension_start`.
pub extend : Heap → ℕ → ℕ → Run Heap
unfolding extend_loop
extend heap zero extra = fault
extend heap (suc ending_block) extra = do
  es ← extend_loop (extra - 1) (suc ending_block) heap.entries
  es ← store es (suc ending_block + extra - 1) entry_taken
  entry ← load es ending_block
  es ← store es ending_block (with_next entry)
  ok (record heap {
    entries = es;
    used_blocks = add64 heap.used_blocks extra;
    free_blocks = sub64 heap.free_blocks extra;
  })

-- The last resort: a new allocation that takes over the old bytes.
pub move : Heap → Bytes → ℕ → ℕ → ℕ → Run (ℕ × Heap × Bytes)
unfolding zalloc memcpy free
move heap m old_ptr old_total_size new_size_aligned = do
  (new_addr, heap', m') ← zalloc heap m new_size_aligned
  if new_addr == 0 then ok (0, heap', m') else (do
    m'' ← memcpy m' new_addr old_ptr old_total_size
    heap'' ← free heap' old_ptr
    ok (new_addr, heap'', m''))

-- A block index below 0 makes the first access to the table fault.
pub resize_at : Heap → Bytes → ℕ → ℤ → ℕ → ℕ → Run (ℕ × Heap × Bytes)
unfolding shrink extend move is_block_range_free
resize_at heap m old_ptr (negsuc _) current new_size_aligned =
    if current == new_size_aligned / heap_block_size then ok (old_ptr, heap, m) else fault
resize_at heap m old_ptr (pos starting_block) current new_size_aligned =
    let new_total = new_size_aligned / heap_block_size in
    let extra = new_total - current in
    let extension_start = starting_block + current in
    if leb new_total current
    then (if current == new_total
        then ok (old_ptr, heap, m)
        else (shrink heap starting_block current new_total >>= λ heap'. ok (old_ptr, heap', m)))
    else (do
      available ← is_block_range_free heap extension_start (extension_start + extra - 1)
      if available
          then (extend heap extension_start extra >>= λ heap'. ok (old_ptr, heap', m))
          else move heap m old_ptr (mul64 current heap_block_size) new_size_aligned)

pub realloc : Heap → Bytes → ℕ → ℕ → Run (ℕ × Heap × Bytes)
unfolding malloc free allocation_block_count address_to_block resize_at align_value_to_upper
realloc heap m old_ptr new_size =
    if old_ptr == 0
    then (malloc heap new_size >>= λ (ptr, heap'). ok (ptr, heap', m))
    else (if new_size == 0 then (free heap old_ptr >>= λ heap'. ok (0, heap', m)) else (do
      current ← allocation_block_count heap old_ptr
      resize_at heap m old_ptr (address_to_block heap old_ptr) current
          (align_value_to_upper new_size)))

pub total_size : Heap → ℕ
total_size heap = mul64 heap.total heap_block_size

pub used_loop : ℕ → List ℕ → ℕ → Run ℕ
used_loop zero es sum = ok sum
used_loop (suc rounds) [] sum = fault
used_loop (suc rounds) (entry ∷ es) sum =
    used_loop rounds es
      (if get_entry_type entry == entry_taken then add64 sum heap_block_size else sum)

pub total_used : Heap → Run ℕ
unfolding used_loop
total_used heap = used_loop heap.total heap.entries 0

pub total_available : Heap → Run ℕ
unfolding total_used total_size
total_available heap = total_used heap >>= λ used. ok (sub64 (total_size heap) used)
