-- ===== src/Heap/NoBlocks.antt =====
-- heap_malloc of ViOS64Bit/src/memory/heap/heap.c for sizes that come to no block.
use vi_os.Prelude.{
  ℕ, ◌+◌, ◌-◌, ◌/◌, ◌^◌, ◌<◌, ◌≡◌, refl, ap, ◌∙◌, ◌⊎◌, inl, inr, false, List, [], ◌∷◌, ◌==◌, arith,
  length, ok, ℤ, neg, negsuc, Bool-cases,
}
use vi_os.Config.{heap_block_size}
use vi_os.Heap.{
  Heap, entry_free, get_entry_type, start_block_loop, get_start_block, malloc_blocks, malloc,
  align_value_to_upper,
}

zero_loop :
    (es : List ℕ) (i bc : ℕ) (bs : ℤ)
    → (bc ≡ 0 → bs ≡ neg 1)
    → (bc' : ℕ) × (bs' : ℤ) × (start_block_loop 0 (length es) es i bc bs ≡ ok (bc', bs'))
      × (bc' ≡ 0 → bs' ≡ neg 1)
unfolding start_block_loop
zero_loop [] i bc bs inv = (bc, bs, refl, inv)
zero_loop (entry ∷ es) i bc bs inv = elim (Bool-cases (get_entry_type entry == entry_free)) [
  | inl free ↦
      let more : (bc + 1 == 0) ≡ false = ground arith in
      rw (free, more) (zero_loop es (i + 1) (bc + 1) _ (λ e. absurd (omega arith)))
  | inr taken ↦ rw taken (zero_loop es (i + 1) 0 (neg 1) (λ _. refl))
]

finish_zero :
    (h : Heap) (bc : ℕ) (bs : ℤ)
    → start_block_loop 0 h.total h.entries 0 0 (neg 1) ≡ ok (bc, bs)
    → (bc ≡ 0 → bs ≡ neg 1)
    → (c : ℕ) × (get_start_block h 0 ≡ ok (negsuc c))
unfolding get_start_block
finish_zero h bc bs e inv = elim (Bool-cases (bc == 0)) [
  | inl z ↦ (0, rw (e, z) (ap ok (inv (ground arith))))
  | inr n ↦ (2, rw (e, n))
]

-- The search for 0 blocks never answers with a block.
pub get_start_block-zero :
    (h : Heap) → h.total ≡ length h.entries → (c : ℕ) × (get_start_block h 0 ≡ ok (negsuc c))
get_start_block-zero h fits =
    let (bc, bs, e, inv) = zero_loop h.entries 0 0 (neg 1) (λ _. refl) in
    finish_zero h bc bs (ap (λ t. start_block_loop 0 t h.entries 0 0 (neg 1)) fits ∙ e) inv

no_blocks :
    (size : ℕ)
    → (size ≡ 0) ⊎ ((2 ^ 64 - 4096 < size) × (size < 2 ^ 64))
    → align_value_to_upper size / heap_block_size ≡ 0
unfolding align_value_to_upper
no_blocks size small = ground arith

-- heap_malloc of 0 bytes, and of more than 2^64 - 4096, returns NULL and changes nothing.
pub malloc-zero :
    (h : Heap) (size : ℕ)
    → h.total ≡ length h.entries
    → (size ≡ 0) ⊎ ((2 ^ 64 - 4096 < size) × (size < 2 ^ 64))
    → malloc h size ≡ ok (0, h)
unfolding malloc malloc_blocks
malloc-zero h size whole small =
    let (c, e) = get_start_block-zero h whole in rw (no_blocks size small, e)
