-- ===== src/Heap/Create.antt =====
-- heap_create of ViOS64Bit/src/memory/heap/heap.c.
use vi_os.Prelude.{
  ℕ, ◌+◌, ◌*◌, ◌/◌, ◌%◌, ◌^◌, ◌<◌, ◌≡◌, ◌≢◌, ◌⊎◌, refl, sym, true, false, List, [], ◌∷◌, ◌++◌,
  append-nil, zero, suc, ap, ◌∙◌, ltb, length, drop, ok, ◌==◌, arith, replicate, pos, neg, sub64,
}
use vi_os.Config.{heap_block_size, e_invarg}
use vi_os.Heap.{Heap, create, created_heap, entry_free}
use vi_os.Heap.Layout.{gap, IsLaid, encode-gaps, length-encode-gaps, taken_blocks-gaps}

cleared :
    (entries : List ℕ) (total : ℕ)
    → length entries ≡ total
    → replicate total entry_free ++ drop total entries ≡ replicate total entry_free
cleared entries total size =
    ap (λ es. replicate total entry_free ++ es) (drop-all entries total size)
    ∙ append-nil (replicate total entry_free)
  where
    drop-all : (entries : List ℕ) (total : ℕ) → length entries ≡ total → drop total entries ≡ []
    drop-all [] zero e = refl
    drop-all [] (suc total) e = refl
    drop-all (x ∷ entries) zero e = absurd (omega arith)
    drop-all (x ∷ entries) (suc total) e = drop-all entries total (omega arith)

pub create-IsLaid :
    (heap : Heap) (ptr end : ℕ) (entries : List ℕ) (total : ℕ)
    → ptr % heap_block_size ≡ 0
    → 0 < ptr
    → end ≡ ptr + total * heap_block_size
    → end < 2 ^ 63
    → length entries ≡ total
    → (create heap ptr end entries total
        ≡ ok (pos 0, created_heap ptr end (replicate total entry_free) total))
      × IsLaid (created_heap ptr end (replicate total entry_free) total) (replicate total gap)
unfolding create created_heap
create-IsLaid heap ptr end entries total aligned positive e small size =
    let at_start : (ptr % heap_block_size == 0) ≡ true = ground arith in
    let at_end : (end % heap_block_size == 0) ≡ true = ground arith in
    let table : (sub64 end ptr / heap_block_size == total) ≡ true = ground arith in
    let enough : ltb (length entries) total ≡ false = ground arith in
    (
      rw (at_start, at_end, table, enough)
          (ap (λ es. ok (pos 0, created_heap ptr end es total)) (cleared entries total size)),
      record {
        table = sym (encode-gaps total);
        whole = sym (length-encode-gaps total);
        used = sym (taken_blocks-gaps total);
        available = omega arith;
        start = positive;
        room = omega arith;
      },
    )

-- heap_create refuses a pool whose start or end is not aligned, and changes nothing.
pub create-misaligned :
    (heap : Heap) (ptr end : ℕ) (entries : List ℕ) (total : ℕ)
    → (ptr % heap_block_size ≢ 0) ⊎ (end % heap_block_size ≢ 0)
    → create heap ptr end entries total ≡ ok (neg e_invarg, heap)
unfolding create
create-misaligned heap ptr end entries total h = ground arith

-- heap_create refuses a table with another number of entries than the pool has blocks, and clears no
-- entry.
pub create-mismatch :
    (heap : Heap) (ptr end : ℕ) (entries : List ℕ) (total : ℕ)
    → ptr % heap_block_size ≡ 0
    → end % heap_block_size ≡ 0
    → sub64 end ptr / heap_block_size ≢ total
    → create heap ptr end entries total ≡ ok (neg e_invarg, created_heap ptr end entries total)
unfolding create
create-mismatch heap ptr end entries total at_start at_end h = ground arith
