-- ===== src/Heap/Malloc.antt =====
-- heap_malloc of ViOS64Bit/src/memory/heap/heap.c against the layout of the block table.
use vi_os.Prelude.{
  ℕ, zero, suc, ◌+◌, ◌*◌, ◌-◌, ◌/◌, ◌^◌, ◌≤◌, ◌<◌, ◌≡◌, refl, ap, sym, ◌∙◌, ◌⊎◌, inl, inr, List, [],
  ◌∷◌, ◌++◌, append_assoc, ◌==◌, ltb, if◌then◌else◌, arith, length, length-append, length-replicate,
  replicate, Run, ok, store, store-prefix, pos, add64, sub64,
}
use mathlib.Core.Path.{subst}
use vi_os.Config.{heap_block_size}
use vi_os.Heap.{
  Heap, Call, entry_free, entry_taken, entry_has_next, entry_is_first, get_start_block,
  mark_taken_loop, mark_blocks_taken, malloc_blocks, malloc, block_to_address, align_value_to_upper,
  notify_allocated,
}
use vi_os.Heap.FirstFit.{FreeRun, FirstFit, Answer, get_start_block-Answer}
use vi_os.Heap.Layout.{
  Seg, gap, alloc, chain, encode, taken_blocks, IsLaid, encode-append, encode-gaps,
  taken_blocks-append, taken_blocks-gaps, length-encode-append, length-encode-gaps,
  length-encode-alloc, taken_blocks-le, Splits, FreeRun-Splits,
}

-- What the marking loop writes over `n` blocks.
abbrev marks : ℕ → ℕ → List ℕ
marks entry zero = []
marks entry (suc k) = entry ∷ replicate k 0x81

marks-next :
    (n : ℕ)
    → marks (if n == 0 then entry_taken else entry_taken + entry_has_next) n ≡ replicate n 0x81
marks-next zero = refl
marks-next (suc n) = ground arith

mark_taken_loop-prefix :
    (mid pre post : List ℕ) (i entry : ℕ) (h : Heap)
    → i ≡ length pre
    → h.entries ≡ pre ++ (mid ++ post)
    → (calls' : List Call) × (mark_taken_loop (length mid) i entry h
        ≡ ok (record h { entries = pre ++ (marks entry (length mid) ++ post); calls = calls' }))
unfolding mark_taken_loop
mark_taken_loop-prefix [] pre post i entry h at e =
    (h.calls, ap (λ es. ok (record h { entries = es })) e)
mark_taken_loop-prefix (x ∷ mid) pre post i entry h at e =
    let (calls', done) =
      mark_taken_loop-prefix mid (pre ++ (entry ∷ [])) post (i + 1) next after
        (omega (arith, length-append pre (entry ∷ [])))
        (sym (append_assoc pre (entry ∷ []) (mid ++ post))) in
    (calls', rw stored (done ∙ ap (λ es. ok (record h { entries = es; calls = calls' })) regroup))
  where
    next : ℕ
    next = if length mid == 0 then entry_taken else entry_taken + entry_has_next

    after : Heap
    after = record h {
      entries = pre ++ (entry ∷ (mid ++ post));
      calls = notify_allocated h (block_to_address h i);
    }

    stored : store h.entries i entry ≡ ok (pre ++ (entry ∷ (mid ++ post)))
    stored = rw (e, at) (store-prefix pre (mid ++ post) x entry)

    regroup :
        (pre ++ (entry ∷ [])) ++ (marks next (length mid) ++ post)
        ≡ pre ++ (entry ∷ (replicate (length mid) 0x81 ++ post))
    regroup =
        append_assoc pre (entry ∷ []) (marks next (length mid) ++ post)
        ∙ ap (λ ms. pre ++ (entry ∷ (ms ++ post))) (marks-next (length mid))

abbrev first_mark : ℕ → ℕ
first_mark n =
    let first = entry_taken + entry_is_first in if ltb 1 n then first + entry_has_next else first

marks-chain : (k : ℕ) → marks (first_mark (suc k)) (suc k) ≡ chain k
marks-chain zero = refl
marks-chain (suc k) = ground arith

-- The table after the marking of `k + 1` free blocks is that of the layout with an allocation there.
mark_blocks_taken-Seg :
    (pre post : List Seg) (k : ℕ) (h : Heap)
    → h.entries ≡ encode (pre ++ (replicate (suc k) gap ++ post))
    → (calls' : List Call) × (mark_blocks_taken h (length (encode pre)) (suc k)
        ≡ ok (record h { entries = encode (pre ++ (alloc k ∷ post)); calls = calls' }))
unfolding mark_blocks_taken encode
mark_blocks_taken-Seg pre post k h e =
    let (calls', done) =
      mark_taken_loop-prefix frees (encode pre) (encode post) (length (encode pre)) first h refl
        split in
    (
      calls',
      ap (λ n. mark_taken_loop n (length (encode pre)) first h) (sym size)
          ∙ done
          ∙ ap (λ es. ok (record h { entries = es; calls = calls' })) joined,
    )
  where
    frees : List ℕ
    frees = replicate (suc k) entry_free

    first : ℕ
    first = first_mark (suc k)

    size : length frees ≡ suc k
    size = length-replicate (suc k) entry_free

    split : h.entries ≡ encode pre ++ (frees ++ encode post)
    split =
        e
        ∙ encode-append pre (replicate (suc k) gap ++ post)
        ∙ ap (λ es. encode pre ++ es)
            (encode-append (replicate (suc k) gap) post
              ∙ ap (λ es. es ++ encode post) (encode-gaps (suc k)))

    joined :
        encode pre ++ (marks first (length frees) ++ encode post) ≡ encode (pre ++ (alloc k ∷ post))
    joined =
        ap (λ ms. encode pre ++ (ms ++ encode post)) (ap (marks first) size ∙ marks-chain k)
        ∙ sym (encode-append pre (alloc k ∷ post))

-- What a successful allocation of `k + 1` blocks at `addr` does to the heap and to its layout.
pub record Allocated (h : Heap) (segs : List Seg) (k addr : ℕ) (h' : Heap) : Type 0 where
  pub pre : List Seg
  pub post : List Seg
  pub before : segs ≡ pre ++ (replicate (suc k) gap ++ post)
  pub after : IsLaid h' (pre ++ (alloc k ∷ post))
  pub address : addr ≡ h.saddr + length (encode pre) * heap_block_size
  pub inside : addr + suc k * heap_block_size ≤ h.saddr + h.total * heap_block_size
  pub first : (s : ℕ) → s < length (encode pre) → ¬ FreeRun (encode segs) (suc k) s
  pub same_pool : (h'.saddr ≡ h.saddr) × (h'.eaddr ≡ h.eaddr) × (h'.total ≡ h.total)

-- The layout after an allocation keeps the size of the table, and has `k + 1` more taken blocks.
alloc_sizes :
    (pre post : List Seg) (k : ℕ)
    → (length (encode (pre ++ (alloc k ∷ post)))
        ≡ length (encode (pre ++ (replicate (suc k) gap ++ post))))
      × (taken_blocks (pre ++ (alloc k ∷ post))
          ≡ taken_blocks (pre ++ (replicate (suc k) gap ++ post)) + suc k)
      × (taken_blocks (pre ++ (replicate (suc k) gap ++ post)) + suc k
          ≤ length (encode (pre ++ (replicate (suc k) gap ++ post))))
      × (length (encode pre) + suc k ≤ length (encode (pre ++ (replicate (suc k) gap ++ post))))
unfolding taken_blocks
alloc_sizes pre post k = omega (
  arith,
  length-encode-append pre (alloc k ∷ post),
  length-encode-alloc k post,
  length-encode-append pre (replicate (suc k) gap ++ post),
  length-encode-append (replicate (suc k) gap) post,
  length-encode-gaps (suc k),
  taken_blocks-append pre (alloc k ∷ post),
  taken_blocks-append pre (replicate (suc k) gap ++ post),
  taken_blocks-append (replicate (suc k) gap) post,
  taken_blocks-gaps (suc k),
  taken_blocks-le pre,
  taken_blocks-le post,
)

-- A heap that counts `n` more taken blocks is laid out by a layout that has them.
IsLaid-count :
    (h : Heap) (old new : List Seg) (n : ℕ) (calls' : List Call)
    → IsLaid h old
    → length (encode new) ≡ length (encode old)
    → taken_blocks new ≡ taken_blocks old + n
    → taken_blocks old + n ≤ length (encode old)
    → IsLaid
        (record h {
          entries = encode new;
          calls = calls';
          used_blocks = add64 h.used_blocks n;
          free_blocks = sub64 h.free_blocks n;
        })
        new
IsLaid-count h old new n calls' laid len taken fits = record {
  table = refl;
  whole = laid.whole ∙ sym len;
  used = omega (arith, laid.used, laid.whole, laid.room);
  available = omega (arith, laid.used, laid.whole, laid.room, laid.available);
  start = laid.start;
  room = laid.room;
}

block_address :
    (h : Heap) (segs : List Seg) (s n : ℕ)
    → IsLaid h segs
    → s + n ≤ length (encode segs)
    → (block_to_address h s ≡ h.saddr + s * heap_block_size)
      × (h.saddr + s * heap_block_size + n * heap_block_size ≤ h.saddr + h.total * heap_block_size)
unfolding block_to_address
block_address h segs s n laid le = omega (arith, laid.whole, laid.room)

allocate_at :
    (h : Heap) (pre post : List Seg) (k : ℕ)
    → IsLaid h (pre ++ (replicate (suc k) gap ++ post))
    → get_start_block h (suc k) ≡ ok (pos (length (encode pre)))
    → FirstFit (encode (pre ++ (replicate (suc k) gap ++ post))) (suc k) (length (encode pre))
    → (addr : ℕ) × (h' : Heap) × (malloc_blocks h (suc k) ≡ ok (addr, h'))
      × (0 < addr)
      × Allocated h (pre ++ (replicate (suc k) gap ++ post)) k addr h'
unfolding malloc_blocks
allocate_at h pre post k laid found fit =
    let (calls', marked) = mark_blocks_taken-Seg pre post k h laid.table in
    let (len, taken, fits, inside) = alloc_sizes pre post k in
    let (at, fits_pool) = block_address h _ (length (encode pre)) (suc k) laid inside in
    let e : malloc_blocks h (suc k)
        ≡ ok (
          block_to_address h (length (encode pre)),
          record h {
            entries = encode (pre ++ (alloc k ∷ post));
            calls = calls';
            used_blocks = add64 h.used_blocks (suc k);
            free_blocks = sub64 h.free_blocks (suc k);
          },
        ) =
      rw (found, marked) in
    (
      _,
      _,
      e,
      omega (arith, at, laid.start),
      record {
        pre = pre;
        post = post;
        before = refl;
        after =
            IsLaid-count h (pre ++ (replicate (suc k) gap ++ post)) (pre ++ (alloc k ∷ post))
              (suc k) calls' laid len taken fits;
        address = at;
        inside = omega (arith, at, fits_pool);
        first = fit.earlier;
        same_pool = (refl, refl, refl);
      },
    )

-- An allocation of `k + 1` blocks succeeds.
abbrev pub Succeeds : Heap → List Seg → ℕ → Run (ℕ × Heap) → Type 0
Succeeds h segs k out =
    (addr : ℕ) × (h' : Heap) × (out ≡ ok (addr, h')) × (0 < addr) × Allocated h segs k addr h'

-- An allocation of `k + 1` blocks fails, with NULL and no change, and no `k + 1` blocks in a row are
-- free.
abbrev pub Fails : Heap → List Seg → ℕ → Run (ℕ × Heap) → Type 0
Fails h segs k out = (out ≡ ok (0, h)) × ((s : ℕ) → ¬ FreeRun (encode segs) (suc k) s)

allocate_split :
    (h : Heap) (segs pre post : List Seg) (k s : ℕ)
    → segs ≡ pre ++ (replicate (suc k) gap ++ post)
    → length (encode pre) ≡ s
    → IsLaid h segs
    → get_start_block h (suc k) ≡ ok (pos s)
    → FirstFit (encode segs) (suc k) s
    → Succeeds h segs k (malloc_blocks h (suc k))
allocate_split h segs pre post k s e at laid found fit =
    subst (λ l. Succeeds h l k (malloc_blocks h (suc k))) (sym e)
      (allocate_at h pre post k (subst (IsLaid h) e laid) (found ∙ ap (λ t. ok (pos t)) (sym at)) (
        subst (λ l. FirstFit (encode l) (suc k) (length (encode pre))) e
          (subst (FirstFit (encode segs) (suc k)) (sym at) fit)))

malloc_blocks-refines :
    (h : Heap) (segs : List Seg) (k : ℕ)
    → IsLaid h segs
    → Succeeds h segs k (malloc_blocks h (suc k)) ⊎ Fails h segs k (malloc_blocks h (suc k))
unfolding Splits malloc_blocks
malloc_blocks-refines h segs k laid =
    let (r, found, answer) =
      get_start_block-Answer h (suc k) (omega arith) (laid.whole ∙ ap length (sym laid.table)) in
    elim (subst (λ es. Answer es (suc k) r) laid.table answer) [
      | inl (s, e, fit) ↦
          let (pre, post, split, at) = FreeRun-Splits (suc k) segs s (omega arith) fit.run in
          inl (allocate_split h segs pre post k s split at laid (found ∙ ap ok e) fit)
      | inr (e, nothing) ↦ inr (rw (found, e), nothing)
    ]

-- The whole number of blocks that hold `size` bytes, less one.
abbrev pub last_block : ℕ → ℕ
last_block size = (size - 1) / heap_block_size

pub malloc-malloc_blocks :
    (h : Heap) (size : ℕ)
    → 0 < size
    → size ≤ 2 ^ 63
    → malloc h size ≡ malloc_blocks h (suc (last_block size))
unfolding malloc align_value_to_upper
malloc-malloc_blocks h size some_bytes fits = ap (malloc_blocks h) (ground arith)

-- heap_malloc of 1 to 2^63 bytes on a heap laid out as `segs` returns, and either replaces the first
-- row of free blocks that is long enough by an allocation, inside the pool and with the counters kept
-- up, or, where no row is long enough, returns NULL and changes nothing.
pub malloc-refines :
    (h : Heap) (segs : List Seg) (size : ℕ)
    → IsLaid h segs
    → 0 < size
    → size ≤ 2 ^ 63
    → Succeeds h segs (last_block size) (malloc h size)
      ⊎ Fails h segs (last_block size) (malloc h size)
malloc-refines h segs size laid some_bytes fits =
    subst (λ out. Succeeds h segs (last_block size) out ⊎ Fails h segs (last_block size) out)
      (sym (malloc-malloc_blocks h size some_bytes fits))
      (malloc_blocks-refines h segs (last_block size) laid)
