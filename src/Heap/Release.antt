-- ===== src/Heap/Release.antt =====
-- heap_free of ViOS64Bit/src/memory/heap/heap.c against the layout of the block table.
use vi_os.Prelude.{
  ℕ, zero, suc, ◌+◌, ◌*◌, ◌-◌, ◌≤◌, ◌≡◌, refl, ap, sym, ◌∙◌, inl, inr, List, [], ◌∷◌, ◌++◌,
  Bool-cases, append_assoc, if◌then◌else◌, arith, length, length-append, replicate, ok, load, store,
  load-prefix, store-prefix, pos, add64, sub64, to_int64, quot,
}
use mathlib.Core.Path.{ap₂}
use native.Mathlib.Nat.{add-zero}
use vi_os.Config.{heap_block_size}
use vi_os.Heap.{
  Heap, Call, entry_free, has_next, mark_free_loop, mark_blocks_free, free, address_to_block,
  block_to_address, notify_freed,
}
use vi_os.Heap.Layout.{
  Seg, gap, alloc, encode, taken_blocks, IsLaid, encode-append, encode-gaps, taken_blocks-append,
  taken_blocks-gaps, length-encode-append,
}

-- What the loop does to the entries from its start on, and how many it counts.
abbrev cleared : List ℕ → List ℕ
cleared [] = []
cleared (e ∷ es) = entry_free ∷ (if has_next e then cleared es else es)

abbrev clear_count : List ℕ → ℕ
clear_count [] = 0
clear_count (e ∷ es) = suc (if has_next e then clear_count es else 0)

mark_free_loop-prefix :
    (es pre : List ℕ) (i count : ℕ) (h : Heap)
    → i ≡ length pre
    → h.entries ≡ pre ++ es
    → (calls' : List Call) × (mark_free_loop (length es) i count h
        ≡ ok (count + clear_count es, record h { entries = pre ++ cleared es; calls = calls' }))
unfolding mark_free_loop
mark_free_loop-prefix [] pre i count h at e =
    (h.calls, ap₂ (λ c es. ok (c, record h { entries = es })) (sym (add-zero count)) e)
mark_free_loop-prefix (x ∷ es) pre i count h at e = elim (Bool-cases (has_next x)) [
  | inl more ↦
      let (calls', done) =
        mark_free_loop-prefix es (pre ++ (entry_free ∷ [])) (i + 1) (count + 1) after
          (omega (arith, length-append pre (entry_free ∷ [])))
          (sym (append_assoc pre (entry_free ∷ []) es)) in
      (
        calls',
        rw (loaded, stored, more)
            (done
              ∙ ap₂ (λ c es. ok (c, record h { entries = es; calls = calls' }))
                  (let e : count + 1 + clear_count es ≡ count + suc (clear_count es) =
                      omega arith in
                    e)
                  (append_assoc pre (entry_free ∷ []) (cleared es))),
      )
  | inr last ↦ (notify_freed h (block_to_address h i), rw (loaded, stored, last))
]
  where
    after : Heap
    after = record h {
      entries = pre ++ (entry_free ∷ es);
      calls = notify_freed h (block_to_address h i);
    }

    loaded : load h.entries i ≡ ok x
    loaded = rw (e, at) (load-prefix pre es x)

    stored : store h.entries i entry_free ≡ ok (pre ++ (entry_free ∷ es))
    stored = rw (e, at) (store-prefix pre es x entry_free)

-- What the code leaves of a layout when it frees from the layout's start on, and how many blocks it
-- counts: an allocation of several blocks passes the loop on to what stands behind it.
unfoldable pub release : List Seg → List Seg
release [] = []
release (gap ∷ segs) = gap ∷ segs
release (alloc zero ∷ segs) = gap ∷ segs
release (alloc (suc k) ∷ segs) = replicate (suc (suc k)) gap ++ release segs

unfoldable pub release_count : List Seg → ℕ
release_count [] = 0
release_count (gap ∷ segs) = 1
release_count (alloc zero ∷ segs) = 1
release_count (alloc (suc k) ∷ segs) = suc (suc k) + release_count segs

cleared-linked :
    (n : ℕ) (es : List ℕ) → cleared (replicate n 0x81 ++ es) ≡ replicate n entry_free ++ cleared es
cleared-linked zero es = refl
cleared-linked (suc n) es = ap (λ t. entry_free ∷ t) (cleared-linked n es)

clear_count-linked :
    (n : ℕ) (es : List ℕ) → clear_count (replicate n 0x81 ++ es) ≡ n + clear_count es
clear_count-linked zero es = omega arith
clear_count-linked (suc n) es = omega (arith, clear_count-linked n es)

cleared-encode : (segs : List Seg) → cleared (encode segs) ≡ encode (release segs)
unfolding encode release
cleared-encode [] = refl
cleared-encode (gap ∷ segs) = refl
cleared-encode (alloc zero ∷ segs) = refl
cleared-encode (alloc (suc k) ∷ segs) =
    ap (λ t. entry_free ∷ t)
      (cleared-linked (suc k) (encode segs)
        ∙ ap (λ t. replicate (suc k) entry_free ++ t) (cleared-encode segs)
        ∙ ap (λ t. t ++ encode (release segs)) (sym (encode-gaps (suc k)))
        ∙ sym (encode-append (replicate (suc k) gap) (release segs)))

clear_count-encode : (segs : List Seg) → clear_count (encode segs) ≡ release_count segs
unfolding encode release_count
clear_count-encode [] = refl
clear_count-encode (gap ∷ segs) = refl
clear_count-encode (alloc zero ∷ segs) = refl
clear_count-encode (alloc (suc k) ∷ segs) =
    omega (arith, clear_count-linked (suc k) (encode segs), clear_count-encode segs)

-- heap_free of the address of block `s` works on block `s`.
pub address_to_block-address :
    (h : Heap) (segs : List Seg) (s : ℕ)
    → IsLaid h segs
    → s ≤ h.total
    → address_to_block h (h.saddr + s * heap_block_size) ≡ pos s
unfolding address_to_block
address_to_block-address h segs s laid le =
    ap (λ d. quot (to_int64 d) heap_block_size) offset ∙ ground (arith, laid.room)
  where
    offset : sub64 (h.saddr + s * heap_block_size) h.saddr ≡ s * heap_block_size
    offset = omega (arith, laid.room)

-- The address of the segment behind `pre`.
abbrev pub address_of : Heap → List Seg → ℕ
address_of h pre = h.saddr + length (encode pre) * heap_block_size

-- heap_free of the address of any segment of the layout returns, releases from there on as `release`
-- says, and counts the released blocks.
pub free-refines :
    (h : Heap) (pre post : List Seg)
    → IsLaid h (pre ++ post)
    → (calls' : List Call) × (free h (address_of h pre)
        ≡ ok (record h {
          entries = encode (pre ++ release post);
          calls = calls';
          used_blocks = sub64 h.used_blocks (release_count post);
          free_blocks = add64 h.free_blocks (release_count post);
        }))
unfolding free mark_blocks_free
free-refines h pre post laid =
    let (calls', done) =
      mark_free_loop-prefix (encode post) (encode pre) (length (encode pre)) 0 h refl
        (laid.table ∙ encode-append pre post) in
    (
      calls',
      rw (block, rounds, done)
          (ap₂
            (λ c es. ok (record h {
              entries = es;
              calls = calls';
              used_blocks = sub64 h.used_blocks c;
              free_blocks = add64 h.free_blocks c;
            }))
            counted released),
    )
  where
    counted : 0 + clear_count (encode post) ≡ release_count post
    counted = omega (arith, clear_count-encode post)

    released : encode pre ++ cleared (encode post) ≡ encode (pre ++ release post)
    released =
        ap (λ es. encode pre ++ es) (cleared-encode post) ∙ sym (encode-append pre (release post))

    sizes : h.total ≡ length (encode pre) + length (encode post)
    sizes = laid.whole ∙ length-encode-append pre post

    rounds : h.total - length (encode pre) ≡ length (encode post)
    rounds = omega (arith, sizes)

    block : address_to_block h (address_of h pre) ≡ pos (length (encode pre))
    block =
        address_to_block-address h (pre ++ post) (length (encode pre)) laid (omega (arith, sizes))

-- The layout without one of its one-block allocations.
single_sizes :
    (pre post : List Seg)
    → (length (encode (pre ++ (alloc zero ∷ post))) ≡ length (encode (pre ++ (gap ∷ post))))
      × (taken_blocks (pre ++ (alloc zero ∷ post)) ≡ taken_blocks (pre ++ (gap ∷ post)) + 1)
unfolding taken_blocks encode
single_sizes pre post = omega (
  arith,
  length-encode-append pre (alloc zero ∷ post),
  length-encode-append pre (gap ∷ post),
  taken_blocks-append pre (alloc zero ∷ post),
  taken_blocks-append pre (gap ∷ post),
)

IsLaid-uncount :
    (h : Heap) (old new : List Seg) (calls' : List Call)
    → IsLaid h old
    → length (encode old) ≡ length (encode new)
    → taken_blocks old ≡ taken_blocks new + 1
    → IsLaid
        (record h {
          entries = encode new;
          calls = calls';
          used_blocks = sub64 h.used_blocks 1;
          free_blocks = add64 h.free_blocks 1;
        })
        new
IsLaid-uncount h old new calls' laid len taken = record {
  table = refl;
  whole = laid.whole ∙ len;
  used = omega (arith, laid.used, laid.whole, laid.room, laid.available);
  available = omega (arith, laid.used, laid.whole, laid.room, laid.available);
  start = laid.start;
  room = laid.room;
}

-- heap_free of an allocation of one block frees exactly that block and keeps the counters right.
pub free-single :
    (h : Heap) (pre post : List Seg)
    → IsLaid h (pre ++ (alloc zero ∷ post))
    → (h' : Heap) × (free h (address_of h pre) ≡ ok h') × IsLaid h' (pre ++ (gap ∷ post))
unfolding release release_count
free-single h pre post laid =
    let (calls', done) = free-refines h pre (alloc zero ∷ post) laid in
    let (len, taken) = single_sizes pre post in
    (
      _,
      done,
      IsLaid-uncount h (pre ++ (alloc zero ∷ post)) (pre ++ (gap ∷ post)) calls' laid len taken,
    )

-- heap_free of an allocation of at least two blocks that has another allocation right behind it also
-- frees the first block of that other allocation.
pub free-neighbour :
    (h : Heap) (pre post : List Seg) (k j : ℕ)
    → IsLaid h (pre ++ (alloc (suc k) ∷ (alloc j ∷ post)))
    → (h' : Heap) × (rest : List Seg) × (free h (address_of h pre) ≡ ok h')
      × (h'.entries ≡ encode (pre ++ (replicate (suc (suc k)) gap ++ (gap ∷ rest))))
unfolding release release_count
free-neighbour h pre post k zero laid =
    let (calls', done) = free-refines h pre (alloc (suc k) ∷ (alloc zero ∷ post)) laid in
    (_, post, done, refl)
free-neighbour h pre post k (suc j) laid =
    let (calls', done) = free-refines h pre (alloc (suc k) ∷ (alloc (suc j) ∷ post)) laid in
    (_, replicate (suc j) gap ++ release post, done, refl)

several_sizes :
    (pre post : List Seg) (k : ℕ)
    → taken_blocks (pre ++ (alloc (suc k) ∷ (gap ∷ post)))
      ≡ taken_blocks (pre ++ (replicate (suc (suc k)) gap ++ (gap ∷ post))) + suc (suc k)
unfolding taken_blocks
several_sizes pre post k = omega (
  arith,
  taken_blocks-append pre (alloc (suc k) ∷ (gap ∷ post)),
  taken_blocks-append pre (replicate (suc (suc k)) gap ++ (gap ∷ post)),
  taken_blocks-append (replicate (suc (suc k)) gap) (gap ∷ post),
  taken_blocks-gaps (suc (suc k)),
)

-- heap_free of an allocation of at least two blocks with a free block right behind it frees exactly
-- that allocation, but counts one block too many: used_blocks is one below the taken blocks, and wraps
-- where none is left.
pub free-several :
    (h : Heap) (pre post : List Seg) (k : ℕ)
    → IsLaid h (pre ++ (alloc (suc k) ∷ (gap ∷ post)))
    → let left = pre ++ (replicate (suc (suc k)) gap ++ (gap ∷ post)) in
      (h' : Heap) × (free h (address_of h pre) ≡ ok h')
      × (h'.entries ≡ encode left)
      × (h'.used_blocks ≡ sub64 (taken_blocks left) 1)
unfolding release release_count
free-several h pre post k laid =
    let (calls', done) = free-refines h pre (alloc (suc k) ∷ (gap ∷ post)) laid in
    (
      _,
      done,
      refl,
      count (taken_blocks (pre ++ (replicate (suc (suc k)) gap ++ (gap ∷ post))))
          (laid.used ∙ several_sizes pre post k),
    )
  where
    count :
        (t : ℕ)
        → h.used_blocks ≡ t + suc (suc k)
        → sub64 h.used_blocks (suc (suc k) + 1) ≡ sub64 t 1
    count t e = omega (arith, e, laid.room, laid.available, laid.whole)
