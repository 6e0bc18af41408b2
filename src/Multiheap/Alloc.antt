-- ===== src/Multiheap/Alloc.antt =====
-- The first pass of the allocation of ViOS64Bit/src/memory/heap/multiheap.c over heaps that are laid out.
use vi_os.Prelude.{
  ℕ, ◌≤◌, ◌<◌, ◌^◌, ◌≡◌, refl, ap, sym, ◌∙◌, ◌⊎◌, inl, inr, Bool-cases, false, ◌==◌, Option, List,
  [], ◌∷◌, ◌++◌, some, none, arith, length, Run, ok, ◌>>=◌, load, load-prefix, store-prefix, leb,
}
use vi_os.Heap.{Heap, malloc, is_address_within_heap}
use vi_os.Heap.Layout.{Seg, IsLaid}
use vi_os.Heap.Malloc.{Allocated, Fails, last_block, malloc-refines}
use vi_os.Multiheap.{
  Multiheap, SingleHeap, get_heap_for_address, get_heaps, first_pass, multiheap_alloc,
  multiheap_allocation_block_count,
}

-- The heap with the index `i`, and how it is laid out.
pub record Laid (heaps : List Heap) (i : ℕ) (heap : Heap) (segs : List Seg) : Type 0 where
  pub pre : List Heap
  pub post : List Heap
  pub split : heaps ≡ pre ++ (heap ∷ post)
  pub place : length pre ≡ i
  pub laid : IsLaid heap segs

-- Each heap of the list is laid out.
abbrev pub AllLaid : List Heap → List SingleHeap → Type 0
AllLaid heaps [] = Unit
AllLaid heaps (single ∷ singles) =
    ((heap : Heap) × (segs : List Seg) × Laid heaps single.heap heap segs) × AllLaid heaps singles

-- No heap of the list has a row of free blocks that is long enough.
abbrev pub NoneFits : List Heap → ℕ → List SingleHeap → Type 0
NoneFits heaps size [] = Unit
NoneFits heaps size (single ∷ singles) =
    ((heap : Heap) × (segs : List Seg) × Laid heaps single.heap heap segs
      × Fails heap segs (last_block size) (malloc heap size))
    × NoneFits heaps size singles

-- The first heap of the list that has such a row makes the allocation, and is the only one that changes.
pub record FirstFits (multiheap : Multiheap) (size : ℕ) (singles : List SingleHeap)
    (out : Run (ℕ × Multiheap)) : Type 0 where
  pub before : List SingleHeap
  pub single : SingleHeap
  pub after : List SingleHeap
  pub heap : Heap
  pub heap' : Heap
  pub segs : List Seg
  pub addr : ℕ
  pub order : singles ≡ before ++ (single ∷ after)
  pub none_before : NoneFits multiheap.heaps size before
  pub chosen : Laid multiheap.heaps single.heap heap segs
  pub not_null : 0 < addr
  pub change : Allocated heap segs (last_block size) addr heap'
  pub result : out ≡ ok (addr, record multiheap { heaps = chosen.pre ++ (heap' ∷ chosen.post) })

first_pass-fails :
    (single : SingleHeap) (singles : List SingleHeap) (multiheap : Multiheap) (size : ℕ)
    (heap : Heap) (segs : List Seg)
    → Laid multiheap.heaps single.heap heap segs
    → malloc heap size ≡ ok (0, heap)
    → first_pass (single ∷ singles) multiheap size ≡ first_pass singles multiheap size
unfolding first_pass
first_pass-fails single singles multiheap size heap segs laid e =
    rw
      (
        first_pass,
        sym laid.place,
        laid.split,
        load-prefix laid.pre laid.post heap,
        e,
        store-prefix laid.pre laid.post heap heap,
      )
      refl

first_pass-succeeds :
    (single : SingleHeap) (singles : List SingleHeap) (multiheap : Multiheap) (size addr : ℕ)
    (heap heap' : Heap) (segs : List Seg)
    → (laid : Laid multiheap.heaps single.heap heap segs) → 0 < addr
    → malloc heap size ≡ ok (addr, heap')
    → first_pass (single ∷ singles) multiheap size
      ≡ ok (addr, record multiheap { heaps = laid.pre ++ (heap' ∷ laid.post) })
unfolding first_pass
first_pass-succeeds single singles multiheap size addr heap heap' segs laid positive e =
    let found : (addr == 0) ≡ false = ground arith in
    rw
      (
        first_pass,
        sym laid.place,
        laid.split,
        load-prefix laid.pre laid.post heap,
        e,
        store-prefix laid.pre laid.post heap heap',
      )
      (rw found refl)

FirstFits-later :
    (single : SingleHeap) (singles : List SingleHeap) (multiheap : Multiheap) (size : ℕ)
    (heap : Heap) (segs : List Seg)
    → (laid : Laid multiheap.heaps single.heap heap segs)
    → Fails heap segs (last_block size) (malloc heap size)
    → (NoneFits multiheap.heaps size singles
        × (first_pass singles multiheap size ≡ ok (0, multiheap)))
      ⊎ FirstFits multiheap size singles (first_pass singles multiheap size)
    → (NoneFits multiheap.heaps size (single ∷ singles)
        × (first_pass (single ∷ singles) multiheap size ≡ ok (0, multiheap)))
      ⊎ FirstFits multiheap size (single ∷ singles) (first_pass (single ∷ singles) multiheap size)
FirstFits-later single singles multiheap size heap segs laid fails (inl (none_fit, e)) = inl (
  ((heap, segs, laid, fails), none_fit),
  first_pass-fails single singles multiheap size heap segs laid fails.0 ∙ e,
)
FirstFits-later single singles multiheap size heap segs laid fails (inr first) = inr (record {
  before = single ∷ first.before;
  single = first.single;
  after = first.after;
  heap = first.heap;
  heap' = first.heap';
  segs = first.segs;
  addr = first.addr;
  order = ap (λ l. single ∷ l) first.order;
  none_before = ((heap, segs, laid, fails), first.none_before);
  chosen = first.chosen;
  not_null = first.not_null;
  change = first.change;
  result = first_pass-fails single singles multiheap size heap segs laid fails.0 ∙ first.result;
})

first_pass-cases :
    (singles : List SingleHeap) (multiheap : Multiheap) (size : ℕ)
    → AllLaid multiheap.heaps singles
    → 0 < size
    → size ≤ 2 ^ 63
    → (NoneFits multiheap.heaps size singles
        × (first_pass singles multiheap size ≡ ok (0, multiheap)))
      ⊎ FirstFits multiheap size singles (first_pass singles multiheap size)
unfolding first_pass
first_pass-cases [] multiheap size all some_bytes fits = inl (tt, refl)
first_pass-cases (single ∷ singles) multiheap size ((heap, segs, laid), all) some_bytes fits =
    elim (malloc-refines heap segs size laid.laid some_bytes fits) [
      | inl (addr, heap', e, positive, change) ↦ inr (record {
        before = [];
        single = single;
        after = singles;
        heap = heap;
        heap' = heap';
        segs = segs;
        addr = addr;
        order = refl;
        none_before = tt;
        chosen = laid;
        not_null = positive;
        change = change;
        result =
            first_pass-succeeds single singles multiheap size addr heap heap' segs laid positive e;
      })
      | inr (e, none_free) ↦
          FirstFits-later single singles multiheap size heap segs laid (e, none_free)
            (first_pass-cases singles multiheap size all some_bytes fits)
    ]

-- multiheap_alloc of 1 to 2^63 bytes, where each of its heaps is laid out, returns. Either no heap has a row of free
-- blocks that is long enough, and it returns NULL and changes nothing; or the first heap that has such a row makes
-- the allocation, in the first such row, and nothing else changes.
pub multiheap_alloc-FirstFits :
    (multiheap : Multiheap) (size : ℕ)
    → AllLaid multiheap.heaps multiheap.singles
    → 0 < size
    → size ≤ 2 ^ 63
    → (NoneFits multiheap.heaps size multiheap.singles
        × (multiheap_alloc multiheap size ≡ ok (0, multiheap)))
      ⊎ FirstFits multiheap size multiheap.singles (multiheap_alloc multiheap size)
unfolding multiheap_alloc
multiheap_alloc-FirstFits multiheap size all some_bytes fits =
    first_pass-cases multiheap.singles multiheap size all some_bytes fits

get_heap_for_address-found :
    (heaps : List Heap) (singles : List SingleHeap) (address : ℕ)
    → AllLaid heaps singles
    → (found : Option SingleHeap) × (get_heap_for_address heaps singles address ≡ ok found)
unfolding get_heap_for_address
get_heap_for_address-found heaps [] address all = (none, refl)
get_heap_for_address-found heaps (single ∷ singles) address ((heap, segs, laid), all) =
    let (found, e) = get_heap_for_address-found heaps singles address all in
    let here : load heaps single.heap ≡ ok heap =
      rw (sym laid.place, laid.split) (load-prefix laid.pre laid.post heap) in
    elim (Bool-cases (is_address_within_heap heap address)) [
      | inl within ↦ (some single, rw (here, ◌>>=◌) (rw within refl))
      | inr outside ↦ (found, rw (here, ◌>>=◌) (rw outside e))
    ]

-- Of an address below the end of the data, where each of the heaps is laid out, multiheap_allocation_block_count
-- returns 0, whatever is allocated there.
pub multiheap_allocation_block_count-physical :
    (multiheap : Multiheap) (ptr : ℕ)
    → AllLaid multiheap.heaps multiheap.singles
    → ptr < multiheap.max_end_data_addr
    → multiheap_allocation_block_count multiheap ptr ≡ ok 0
unfolding multiheap_allocation_block_count get_heaps
multiheap_allocation_block_count-physical multiheap ptr all lt =
    let (found, e) = get_heap_for_address-found multiheap.heaps multiheap.singles ptr all in
    let physical : leb multiheap.max_end_data_addr ptr ≡ false = ground arith in rw (physical, e)
