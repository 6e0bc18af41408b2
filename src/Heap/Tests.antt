-- ===== src/Heap/Tests.antt =====
-- Runs of the allocator on a pool of four blocks, and the theorems about it at such heaps.
use vi_os.Prelude.{
  add64, ℕ, ◌+◌, ◌*◌, ◌≡◌, refl, ◌⊎◌, inl, false, List, [], ◌∷◌, replicate, ok, arith, neg, sub64,
  ◌>>=◌,
}
use vi_os.Config.{heap_block_size, e_invarg}
use vi_os.Heap.{Call, Heap, create, malloc, free}
use vi_os.Heap.Layout.{Seg, gap, alloc, encode, taken_blocks, IsLaid}
use vi_os.Heap.Create.{create-misaligned}
use vi_os.Heap.Malloc.{Succeeds, Fails, last_block, malloc-refines}
use vi_os.Heap.Release.{address_of, release, release_count, free-refines, free-neighbour}

abbrev pool : ℕ
pool = 0x0100_0000

-- A heap of four blocks with the given table and count of taken blocks.
abbrev heap_of : List ℕ → ℕ → ℕ → Heap
heap_of es used available = record {
  entries = es;
  total = 4;
  saddr = pool;
  eaddr = pool + 4 * heap_block_size;
  total_blocks = 4;
  free_blocks = available;
  used_blocks = used;
  allocated_callback = false;
  free_callback = false;
  calls = [];
}

abbrev fresh : Heap
fresh = heap_of (replicate 4 0) 0 4

abbrev unset : Heap
unset = heap_of [] 0 0

abbrev gaps : List Seg
gaps = replicate 4 gap

-- Two blocks, then one block, then a free one.
abbrev packed : Heap
packed = heap_of (0xc1 ∷ 0x81 ∷ 0x41 ∷ 0 ∷ []) 3 1

abbrev packed_segs : List Seg
packed_segs = alloc 1 ∷ alloc 0 ∷ gap ∷ []

-- Two blocks, then two free ones.
abbrev loose : Heap
loose = heap_of (0xc1 ∷ 0x81 ∷ 0 ∷ 0 ∷ []) 2 2

two_allocations : (malloc fresh 5000 >>= λ (a, h). malloc h 1) ≡ ok (pool + 2 * 4096, packed)
unfolding malloc
two_allocations = refl

freed_both : (free packed pool >>= λ h. ok h.entries) ≡ ok (replicate 4 0)
unfolding free
freed_both = refl

fresh-IsLaid : IsLaid fresh gaps
unfolding encode taken_blocks
fresh-IsLaid = record {
  table = refl;
  whole = refl;
  used = refl;
  available = refl;
  start = omega arith;
  room = omega arith;
}

packed-IsLaid : IsLaid packed packed_segs
unfolding encode taken_blocks
packed-IsLaid = record {
  table = refl;
  whole = refl;
  used = refl;
  available = refl;
  start = omega arith;
  room = omega arith;
}

loose-IsLaid : IsLaid loose (alloc 1 ∷ gap ∷ gap ∷ [])
unfolding encode taken_blocks
loose-IsLaid = record {
  table = refl;
  whole = refl;
  used = refl;
  available = refl;
  start = omega arith;
  room = omega arith;
}

create-misaligned_example : create unset 12 8192 [] 2 ≡ ok (neg e_invarg, unset)
create-misaligned_example = create-misaligned unset 12 8192 [] 2 (inl (omega arith))

malloc-refines_example :
    Succeeds packed packed_segs (last_block 100) (malloc packed 100)
    ⊎ Fails packed packed_segs (last_block 100) (malloc packed 100)
malloc-refines_example =
    malloc-refines packed packed_segs 100 packed-IsLaid (omega arith) (omega arith)

free-refines_example :
    (calls' : List Call) × (free packed (address_of packed [])
      ≡ ok (record packed {
        entries = encode (release packed_segs);
        calls = calls';
        used_blocks = sub64 3 (release_count packed_segs);
        free_blocks = add64 1 (release_count packed_segs);
      }))
free-refines_example = free-refines packed [] packed_segs packed-IsLaid

free-neighbour_example :
    (h' : Heap) × (rest : List Seg) × (free packed (address_of packed []) ≡ ok h')
    × (h'.entries ≡ encode (gap ∷ gap ∷ gap ∷ rest))
free-neighbour_example = free-neighbour packed [] (gap ∷ []) 0 0 packed-IsLaid
