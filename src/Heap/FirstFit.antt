-- ===== src/Heap/FirstFit.antt =====
-- The search of heap_get_start_block in ViOS64Bit/src/memory/heap/heap.c is first fit.
use vi_os.Prelude.{
  ℕ, suc, ◌+◌, ◌-◌, ◌≤◌, ◌<◌, ◌≡◌, ◌≢◌, ◌∙◌, ap, refl, ◌⊎◌, inl, inr, true, List, [], ◌∷◌, ◌==◌,
  if◌then◌else◌, arith, Bool-cases, length, get_or, get_or-beyond, ok, neg, is_negative, ℤ, pos,
}
use mathlib.Core.Path.{subst}
use native.Mathlib.Decide.{dec_lt}
use native.Mathlib.Nat.{add-zero}
use vi_os.Config.{e_nomem}
use vi_os.Heap.{Heap, get_entry_type, entry_free, entry_taken, start_block_loop, get_start_block}

-- Block `i` is in the table and free.
abbrev pub Free : List ℕ → ℕ → Type 0
Free es i = (get_entry_type (get_or es i entry_taken) == entry_free) ≡ true

-- The `n` blocks from `s` are free.
abbrev pub FreeRun : List ℕ → ℕ → ℕ → Type 0
FreeRun es n s = (k : ℕ) → k < n → Free es (s + k)

-- `s` is the first place where `n` blocks are free.
pub record FirstFit (es : List ℕ) (n s : ℕ) : Type 0 where
  pub run : FreeRun es n s
  pub earlier : (s' : ℕ) → s' < s → ¬ FreeRun es n s'

-- What the search answers: the first fit, or -ENOMEM where nothing fits.
abbrev pub Answer : List ℕ → ℕ → ℤ → Type 0
Answer es n r =
    ((s : ℕ) × (r ≡ pos s) × FirstFit es n s) ⊎ ((r ≡ neg e_nomem) × ((s : ℕ) → ¬ FreeRun es n s))

module _ (all : List ℕ) (n : ℕ) where
  -- The invariant of the loop before block `i`.
  record Scan (i bc : ℕ) (bs : ℤ) : Type 0 where
    short : bc < n
    back : bc ≤ i
    start : bs ≡ (if bc == 0 then neg 1 else pos (i - bc))
    run : (j : ℕ) → i ≤ j + bc → j < i → Free all j
    earlier : (s : ℕ) → s + bc < i → ¬ FreeRun all n s

  Tail : List ℕ → ℕ → Type 0
  Tail es i = (k : ℕ) → get_or es k entry_taken ≡ get_or all (i + k) entry_taken

  LoopAnswer : ℕ → ℤ → Type 0
  LoopAnswer bc bs =
      ((s : ℕ) × (bc ≡ n) × (bs ≡ pos s) × FirstFit all n s)
      ⊎ ((bc < n) × ((s : ℕ) → ¬ FreeRun all n s))

  -- A run of `n` blocks from `i` or before would need block `i`.
  blocked : (i bc : ℕ) {bs : ℤ} → Scan i bc bs → ¬ Free all i → (s : ℕ) → s ≤ i → ¬ FreeRun all n s
  blocked i bc scan taken s le run = elim (dec_lt (s + bc) i) [
    | yes p ↦ scan.earlier s p run
    | no p ↦
        let here : s + (i - s) ≡ i = omega arith in
        taken (subst (Free all) here (run (i - s) (omega (arith, scan.short))))
  ]

  Scan-start : 0 < n → Scan 0 0 (neg 1)
  Scan-start h = record {
    short = h;
    back = omega arith;
    start = refl;
    run = λ j le lt. absurd (omega arith);
    earlier = λ s lt run. absurd (omega arith);
  }

  Scan-bs :
      (i bc : ℕ) {bs : ℤ} → Scan i bc bs → (if is_negative bs then pos i else bs) ≡ pos (i - bc)
  Scan-bs i bc {bs} scan = ground (arith, scan.start)

  Scan-run :
      (i bc : ℕ) {bs : ℤ}
      → Scan i bc bs
      → Free all i
      → (j : ℕ) → i ≤ j + bc
      → j < i + 1
      → Free all j
  Scan-run i bc scan free j le lt = elim (dec_lt j i) [
    | yes p ↦ scan.run j le p
    | no p ↦ let here : i ≡ j = omega arith in subst (Free all) here free
  ]

  Scan-more :
      (i bc : ℕ) {bs : ℤ}
      → Scan i bc bs
      → Free all i
      → bc + 1 ≢ n
      → Scan (i + 1) (bc + 1) (if is_negative bs then pos i else bs)
  Scan-more i bc scan free ne = record {
    short = omega (arith, scan.short);
    back = omega (arith, scan.back);
    start = Scan-bs i bc scan ∙ ground arith;
    run = λ j le lt. Scan-run i bc scan free j (omega arith) lt;
    earlier = λ s lt. scan.earlier s (omega arith);
  }

  Scan-reset : (i bc : ℕ) {bs : ℤ} → Scan i bc bs → ¬ Free all i → Scan (i + 1) 0 (neg 1)
  Scan-reset i bc scan taken = record {
    short = omega (arith, scan.short);
    back = omega arith;
    start = refl;
    run = λ j le lt. absurd (omega arith);
    earlier = λ s lt. blocked i bc scan taken s (omega arith);
  }

  Scan-found :
      (i bc : ℕ) {bs : ℤ} → Scan i bc bs → Free all i → bc + 1 ≡ n → FirstFit all n (i - bc)
  Scan-found i bc scan free full = record {
    run = λ k lt.
        Scan-run i bc scan free (i - bc + k) (omega (arith, scan.back)) (omega (arith, scan.back));
    earlier = λ s lt. scan.earlier s (omega arith);
  }

  beyond : (i : ℕ) → length all ≤ i → ¬ Free all i
  beyond i le free =
      cc (ap (λ e. get_entry_type e == entry_free) (get_or-beyond all i entry_taken le), free)

  Scan-end : (i bc : ℕ) {bs : ℤ} → Scan i bc bs → length all ≤ i → (s : ℕ) → ¬ FreeRun all n s
  Scan-end i bc scan le s run = elim (dec_lt i s) [
    | yes p ↦ beyond (s + 0) (omega arith) (run 0 (omega (arith, scan.short)))
    | no p ↦ blocked i bc scan (beyond i le) s (omega arith) run
  ]

  loop-LoopAnswer :
      (es : List ℕ) (i bc : ℕ) (bs : ℤ)
      → Scan i bc bs
      → Tail es i
      → length all ≤ i + length es
      → (bc' : ℕ) × (bs' : ℤ) × (start_block_loop n (length es) es i bc bs ≡ ok (bc', bs'))
        × LoopAnswer bc' bs'
  unfolding start_block_loop LoopAnswer Tail
  loop-LoopAnswer [] i bc bs scan tail le =
      (bc, bs, refl, inr (scan.short, Scan-end i bc scan (omega arith)))
  loop-LoopAnswer (entry ∷ es) i bc bs scan tail le =
      let head : entry ≡ get_or all i entry_taken =
        tail 0 ∙ ap (λ j. get_or all j entry_taken) (add-zero i) in
      let tail' : Tail es (i + 1) =
        λ k. tail (suc k) ∙ ap (λ j. get_or all j entry_taken) (omega arith) in
      elim (Bool-cases (get_entry_type entry == entry_free)) [
        | inl free ↦
            let free' : Free all i =
              subst (λ e. (get_entry_type e == entry_free) ≡ true) head free in
            elim (Bool-cases (bc + 1 == n)) [
              | inl full ↦
                  let full' : bc + 1 ≡ n = ground arith in
                  rw (free, full)
                    (
                      bc + 1,
                      (if is_negative bs then pos i else bs),
                      refl,
                      inl (i - bc, full', Scan-bs i bc scan, Scan-found i bc scan free' full'),
                    )
              | inr more ↦
                  rw (free, more)
                    (loop-LoopAnswer es (i + 1) (bc + 1) _
                      (Scan-more i bc scan free' (λ e. ground arith)) tail' (omega arith))
            ]
        | inr taken ↦ rw taken (
            loop-LoopAnswer es (i + 1) 0 _ (Scan-reset i bc scan (λ f. cc (head, f, taken))) tail'
              (omega arith))
      ]

LoopAnswer-Answer :
    (es : List ℕ) (n bc : ℕ) (bs : ℤ)
    → LoopAnswer es n bc bs
    → Answer es n (if bc == n then bs else neg e_nomem)
unfolding LoopAnswer
LoopAnswer-Answer es n bc bs (inl (s, full, e, fit)) = inl (s, ground arith, fit)
LoopAnswer-Answer es n bc bs (inr (lt, nothing)) = inr (ground arith, nothing)

finish-Answer :
    (h : Heap) (n bc : ℕ) (bs : ℤ)
    → start_block_loop n h.total h.entries 0 0 (neg 1) ≡ ok (bc, bs)
    → LoopAnswer h.entries n bc bs
    → (r : ℤ) × (get_start_block h n ≡ ok r) × Answer h.entries n r
unfolding get_start_block
finish-Answer h n bc bs e answer =
    (if bc == n then bs else neg e_nomem, rw e, LoopAnswer-Answer h.entries n bc bs answer)

-- For at least one block, heap_get_start_block returns the first place of the table where that many
-- blocks in a row are free, and -ENOMEM exactly when there is none.
pub get_start_block-Answer :
    (h : Heap) (n : ℕ)
    → 0 < n
    → h.total ≡ length h.entries
    → (r : ℤ) × (get_start_block h n ≡ ok r) × Answer h.entries n r
unfolding Tail
get_start_block-Answer h n some_blocks fits =
    let (bc, bs, e, answer) =
      loop-LoopAnswer h.entries n h.entries 0 0 (neg 1) (Scan-start h.entries n some_blocks)
        (λ k. ap (λ j. get_or h.entries j entry_taken) (omega arith)) (omega arith) in
    finish-Answer h n bc bs (ap (λ t. start_block_loop n t h.entries 0 0 (neg 1)) fits ∙ e) answer
