-- ===== src/Heap/Layout.antt =====
-- The abstract view of the block table of ViOS64Bit/src/memory/heap/heap.c: a row of free blocks and
-- of allocations.
use vi_os.Prelude.{
  ℕ, zero, suc, ◌+◌, ◌*◌, ◌-◌, ◌^◌, ◌≤◌, ◌<◌, ◌≡◌, refl, ap, sym, ◌∙◌, true, List, [], ◌∷◌, ◌++◌,
  append_assoc, ◌==◌, arith, length, length-append, length-replicate, get_or-append_left,
  get_or-append_right, get_or-replicate, replicate,
}
use mathlib.Core.Path.{subst}
use native.Mathlib.Decide.{dec_lt}
use vi_os.Config.{heap_block_size}
use vi_os.Heap.{Heap, entry_free, entry_taken, get_entry_type}
use vi_os.Heap.FirstFit.{Free, FreeRun}

-- A free block, or an allocation of `k + 1` blocks.
pub data Seg : Type 0 where
  gap : Seg
  alloc : ℕ → Seg

-- What the code writes for an allocation: every block behind the first has HAS_NEXT, the last too.
abbrev pub chain : ℕ → List ℕ
chain zero = 0x41 ∷ []
chain (suc k) = 0xc1 ∷ replicate (suc k) 0x81

abbrev pub encode_seg : Seg → List ℕ
encode_seg gap = entry_free ∷ []
encode_seg (alloc k) = chain k

unfoldable pub encode : List Seg → List ℕ
encode [] = []
encode (s ∷ segs) = encode_seg s ++ encode segs

unfoldable pub taken_blocks : List Seg → ℕ
taken_blocks [] = 0
taken_blocks (gap ∷ segs) = taken_blocks segs
taken_blocks (alloc k ∷ segs) = suc k + taken_blocks segs

-- The heap is laid out as `segs`, its pool is aligned and ends below 2^63, and its counters are those
-- of the layout.
pub record IsLaid (h : Heap) (segs : List Seg) : Type 0 where
  pub table : h.entries ≡ encode segs
  pub whole : h.total ≡ length (encode segs)
  pub used : h.used_blocks ≡ taken_blocks segs
  pub available : h.free_blocks + h.used_blocks ≡ h.total
  pub start : 0 < h.saddr
  pub room : h.saddr + h.total * heap_block_size < 2 ^ 63

pub length-chain : (k : ℕ) → length (chain k) ≡ suc k
length-chain zero = refl
length-chain (suc k) = ap (λ n. suc (suc n)) (length-replicate k 0x81)

pub encode-append : (xs ys : List Seg) → encode (xs ++ ys) ≡ encode xs ++ encode ys
unfolding encode
encode-append [] ys = refl
encode-append (x ∷ xs) ys =
    rw (encode-append xs ys) (sym (append_assoc (encode_seg x) (encode xs) (encode ys)))

pub encode-gaps : (n : ℕ) → encode (replicate n gap) ≡ replicate n entry_free
unfolding encode
encode-gaps zero = refl
encode-gaps (suc n) = ap (λ es. entry_free ∷ es) (encode-gaps n)

pub taken_blocks-append :
    (xs ys : List Seg) → taken_blocks (xs ++ ys) ≡ taken_blocks xs + taken_blocks ys
unfolding taken_blocks
taken_blocks-append [] ys = omega arith
taken_blocks-append (gap ∷ xs) ys = taken_blocks-append xs ys
taken_blocks-append (alloc k ∷ xs) ys = omega (arith, taken_blocks-append xs ys)

pub taken_blocks-gaps : (n : ℕ) → taken_blocks (replicate n gap) ≡ 0
unfolding taken_blocks
taken_blocks-gaps zero = refl
taken_blocks-gaps (suc n) = taken_blocks-gaps n

pub length-encode-append :
    (xs ys : List Seg) → length (encode (xs ++ ys)) ≡ length (encode xs) + length (encode ys)
length-encode-append xs ys = ap length (encode-append xs ys) ∙ length-append (encode xs) (encode ys)

pub length-encode-gaps : (n : ℕ) → length (encode (replicate n gap)) ≡ n
length-encode-gaps n = ap length (encode-gaps n) ∙ length-replicate n entry_free

pub length-encode-alloc :
    (k : ℕ) (segs : List Seg) → length (encode (alloc k ∷ segs)) ≡ suc k + length (encode segs)
unfolding encode
length-encode-alloc k segs = length-append (chain k) (encode segs) ∙ omega (arith, length-chain k)

pub taken_blocks-le : (segs : List Seg) → taken_blocks segs ≤ length (encode segs)
unfolding taken_blocks encode
taken_blocks-le [] = omega arith
taken_blocks-le (gap ∷ segs) = omega (arith, taken_blocks-le segs)
taken_blocks-le (alloc k ∷ segs) =
    omega (arith, taken_blocks-le segs, length-chain k, length-append (chain k) (encode segs))

-- No block of an allocation is free.
chain-taken : (k i : ℕ) → i < suc k → ¬ Free (chain k) i
chain-taken zero zero h free = cc
chain-taken zero (suc i) h free = absurd (omega arith)
chain-taken (suc k) zero h free = cc
chain-taken (suc k) (suc i) h free = cc (
  ap (λ e. get_entry_type e == entry_free)
      (get_or-replicate (suc k) 0x81 i entry_taken (omega arith)),
  free,
)

-- Free blocks at the start of the table are gaps of the layout.
gaps_at_start :
    (n : ℕ) (segs : List Seg)
    → FreeRun (encode segs) n 0
    → (post : List Seg) × (segs ≡ replicate n gap ++ post)
unfolding encode
gaps_at_start zero segs run = (segs, refl)
gaps_at_start (suc n) [] run = cc (run 0 (omega arith))
gaps_at_start (suc n) (alloc zero ∷ segs) run = cc (run 0 (omega arith))
gaps_at_start (suc n) (alloc (suc k) ∷ segs) run = cc (run 0 (omega arith))
gaps_at_start (suc n) (gap ∷ segs) run =
    let (post, e) = gaps_at_start n segs (λ k lt.
      subst (Free (encode (gap ∷ segs))) {x = 0 + suc k} {y = suc (0 + k)} (omega arith)
        (run (suc k) (omega arith))) in
    (post, ap (λ l. gap ∷ l) e)

-- What a run of free blocks from block `s` on says of the layout.
unfoldable pub Splits : ℕ → List Seg → ℕ → Type 0
Splits n segs s =
    (pre : List Seg) × (post : List Seg) × (segs ≡ pre ++ (replicate n gap ++ post))
    × (length (encode pre) ≡ s)

split_start : (n : ℕ) (segs : List Seg) → FreeRun (encode segs) n 0 → Splits n segs 0
unfolding Splits encode
split_start n segs run = let (post, e) = gaps_at_start n segs run in ([], post, e, refl)

Splits-cons :
    (n : ℕ) (x : Seg) (segs : List Seg) (s t : ℕ)
    → length (encode_seg x) + s ≡ t
    → Splits n segs s
    → Splits n (x ∷ segs) t
unfolding Splits encode
Splits-cons n x segs s t at (pre, post, e, l) =
    (x ∷ pre, post, ap (λ l. x ∷ l) e, length-append (encode_seg x) (encode pre) ∙ omega arith)

-- The first block of an allocation and those behind it end no free run before the allocation's end.
run_after_chain : (k n s : ℕ) (es : List ℕ) → 0 < n → FreeRun (chain k ++ es) n s → suc k ≤ s
run_after_chain k n s es some_blocks run = elim (dec_lt s (suc k)) [
  | yes lt ↦ absurd (
      chain-taken k s lt (
        subst (λ e. (get_entry_type e == entry_free) ≡ true)
          (get_or-append_left (chain k) es s entry_taken (rw length-chain lt))
          (subst (Free (chain k ++ es)) (omega arith) (run 0 some_blocks))))
  | no ge ↦ omega arith
]

run_behind_chain :
    (k n s : ℕ) (es : List ℕ) → suc k ≤ s → FreeRun (chain k ++ es) n s → FreeRun es n (s - suc k)
run_behind_chain k n s es le run j lt =
    subst (λ e. (get_entry_type e == entry_free) ≡ true)
      (get_or-append_right (chain k) es (s - suc k + j) entry_taken)
      (subst (Free (chain k ++ es)) here (run j lt))
  where
    here : s + j ≡ length (chain k) + (s - suc k + j)
    here = omega (arith, length-chain k)

pub FreeRun-Splits :
    (n : ℕ) (segs : List Seg) (s : ℕ) → 0 < n → FreeRun (encode segs) n s → Splits n segs s
unfolding encode
FreeRun-Splits n [] s some_blocks run = cc (run 0 some_blocks)
FreeRun-Splits n (gap ∷ segs) zero some_blocks run = split_start n (gap ∷ segs) run
FreeRun-Splits n (gap ∷ segs) (suc s) some_blocks run =
    Splits-cons n gap segs s (suc s) (omega arith) (
      FreeRun-Splits n segs s some_blocks λ k lt.
        subst (Free (encode (gap ∷ segs))) {x = suc s + k} {y = suc (s + k)} (omega arith)
          (run k lt))
FreeRun-Splits n (alloc k ∷ segs) s some_blocks run =
    let le = run_after_chain k n s (encode segs) some_blocks run in
    Splits-cons n (alloc k) segs (s - suc k) s (omega (arith, length-chain k))
      (FreeRun-Splits n segs (s - suc k) some_blocks (run_behind_chain k n s (encode segs) le run))
