-- ===== src/Processes/Ending.antt =====
-- What process_terminate of ViOS64Bit/src/task/process.c leaves of the memory of a process.
use mathlib.Core.Path.{subst}
use native.Mathlib.Nat.{zero-add}
use vi_os.Prelude.{
  ℕ, zero, suc, ◌+◌, ◌*◌, ◌%◌, ◌^◌, ◌≤◌, ◌<◌, ◌≡◌, refl, ap, sym, ◌∙◌, inl, inr, Bool-cases, true,
  false, List, [], ◌∷◌, ◌++◌, append_assoc, append-nil, some, arith, length, length-append,
  get_elem?-prefix, Run, ok, ◌>>=◌, ◌==◌, if◌then◌else◌,
}
use vi_os.Paging.{PageTables}
use vi_os.Paging.Map.{IsTree}
use vi_os.Paging.Range.{RangeMapped}
use vi_os.Processes.{
  Allocation, no_allocation, KernelHeap, Space, process_allocation_unjoin, process_free,
  terminate_loop, process_terminate_allocations,
}
use vi_os.Processes.Memory.{pages}
use vi_os.Processes.Release.{Absent, process_free-first}

-- Entries that are free.
abbrev pub Unused : List Allocation → Type 0
Unused [] = Unit
Unused (a ∷ xs) = (a.ptr ≡ 0) × Unused xs

-- Entries that are free, or of whole pages below 2^47.
abbrev pub Whole : List Allocation → Type 0
Whole [] = Unit
Whole (a ∷ xs) = (a.ptr % 4096 ≡ 0) × (a.ptr + a.size < 2 ^ 47) × Whole xs

-- The pages of all entries.
abbrev pub all_pages : List Allocation → ℕ
all_pages [] = 0
all_pages (a ∷ xs) = pages a.size + all_pages xs

Unused-Absent : (xs : List Allocation) (ptr : ℕ) → 0 < ptr → Unused xs → Absent ptr xs
Unused-Absent [] ptr positive unused = tt
Unused-Absent (a ∷ xs) ptr positive unused =
    (ground (arith, unused.0), Unused-Absent xs ptr positive unused.1)

Unused-append :
    (xs : List Allocation) (a : Allocation) → Unused xs → a.ptr ≡ 0 → Unused (xs ++ (a ∷ []))
Unused-append [] a unused free = (free, tt)
Unused-append (x ∷ xs) a unused free = (unused.0, Unused-append xs a unused.1 free)

-- Entries that are made free are whole and have fewer pages.
unjoin-Whole :
    (xs : List Allocation) (ptr : ℕ)
    → Whole xs
    → Whole (process_allocation_unjoin xs ptr)
      × (all_pages (process_allocation_unjoin xs ptr) ≤ all_pages xs)
      × (length (process_allocation_unjoin xs ptr) ≡ length xs)
unfolding process_allocation_unjoin
unjoin-Whole [] ptr whole = (tt, omega arith, refl)
unjoin-Whole (a ∷ xs) ptr whole =
    let (whole', fewer, same) = unjoin-Whole xs ptr whole.2 in
    elim (Bool-cases (a.ptr == ptr)) [
      | inl e ↦ rw e ((omega arith, omega arith, whole'), omega (arith, fewer), ap suc same)
      | inr e ↦ rw e ((whole.0, whole.1, whole'), omega (arith, fewer), ap suc same)
    ]

-- The pages of each allocation in turn are mapped to themselves with no rights, and no other page changes; where the
-- same address comes again, its entry is free by then.
pub data Closed (pml : ℕ) : PageTables → List Allocation → PageTables → Type 0 where
  closed_none : {pt : PageTables} → Closed pml pt [] pt
  closed_free :
      {a : Allocation} {xs : List Allocation} {pt pt' : PageTables}
      → (a.ptr == 0) ≡ true
      → Closed pml pt xs pt'
      → Closed pml pt (a ∷ xs) pt'
  closed_pages :
      {a : Allocation} {xs : List Allocation} {pt pt' pt'' : PageTables}
      → (a.ptr == 0) ≡ false
      → RangeMapped pt pt' pml a.ptr a.ptr (pages a.size) 0
      → Closed pml pt' (process_allocation_unjoin xs a.ptr) pt''
      → Closed pml pt (a ∷ xs) pt''

pub IsTree-fewer :
    {pt : PageTables} {pml n m : ℕ} → n ≤ length pt.frames → IsTree pt pml m → IsTree pt pml n
IsTree-fewer enough tree = record {
  places = tree.places;
  placed = tree.placed;
  free = tree.free;
  root = tree.root;
  enough = enough;
}

module _ {H : Type 0} (kernel : KernelHeap H) where
  -- What the loop leaves: `count` entries, all free, and a tree with `n` frames left, in which the pages of `rest` are
  -- closed.
  abbrev Ended : Space H → List Allocation → ℕ → ℕ → Run (Space H) → Type 0
  Ended space rest count n run =
      (tables' : PageTables) × (xs : List Allocation) × (run
        ≡ ok (record space { tables = tables'; allocations = some xs }))
      × Unused xs
      × (length xs ≡ count)
      × IsTree tables' space.pml n
      × Closed space.pml space.tables rest tables'

  terminate_loop-step :
      (rounds : ℕ) (done rest : List Allocation) (a : Allocation) (space : Space H)
      → terminate_loop kernel
          (suc rounds)
          (length done)
          (record space { allocations = some (done ++ (a ∷ rest)) })
        ≡ (if a.ptr == 0
            then terminate_loop kernel rounds
                (length done + 1)
                (record space { allocations = some (done ++ (a ∷ rest)) })
            else (process_free kernel
                  (record space { allocations = some (done ++ (a ∷ rest)) })
                  a.ptr
                >>= λ space'. terminate_loop kernel rounds (length done + 1) space'))
  unfolding terminate_loop
  terminate_loop-step rounds done rest a space = rw (◌>>=◌, get_elem?-prefix done rest a) refl

  terminate_loop-Unused :
      (rounds : ℕ) (done rest : List Allocation) (space : Space H) (n : ℕ)
      → Unused done
      → Whole rest
      → rounds ≡ length rest
      → IsTree space.tables space.pml (n + 3 * all_pages rest)
      → Ended space rest (length done + rounds) n (
          terminate_loop kernel rounds
            (length done)
            (record space { allocations = some (done ++ rest) }))
  terminate_loop-Unused zero done (a ∷ rest) space n unused whole count tree = absurd (omega arith)
  terminate_loop-Unused (suc rounds) done [] space n unused whole count tree = absurd (omega arith)
  terminate_loop-Unused zero done [] space n unused whole count tree = (
    space.tables,
    done,
    unfold terminate_loop in
        ap (λ found. ok (record space { allocations = some found })) (append-nil done),
    unused,
    omega arith,
    IsTree-fewer (omega (arith, tree.enough)) tree,
    closed_none,
  )
  terminate_loop-Unused (suc rounds) done (a ∷ rest) space n unused whole count tree =
      let step = terminate_loop-step rounds done rest a space in
      let more : (b : Allocation) → length (done ++ (b ∷ [])) ≡ length done + 1 =
        λ b. length-append done (b ∷ []) in
      let next = λ (b : Allocation) (xs : List Allocation) (tables' : PageTables).
        ap
          (λ (at : ℕ × List Allocation).
            terminate_loop kernel rounds at.0
              (record space { tables = tables'; allocations = some at.1 }))
          (ap (λ i. (i, done ++ (b ∷ xs))) (sym (more b))
            ∙ ap (λ ys. (length (done ++ (b ∷ [])), ys)) (sym (append_assoc done (b ∷ []) xs))) in
      elim (Bool-cases (a.ptr == 0)) [
        | inl free ↦
            let (tables', xs, run, unused', same, tree', closed) =
              terminate_loop-Unused rounds (done ++ (a ∷ [])) rest space n
                (Unused-append done a unused (ground arith)) whole.2 (omega arith)
                (IsTree-fewer (omega (arith, tree.enough)) tree) in
            (
              tables',
              xs,
              step ∙ rw free (next a rest space.tables ∙ run),
              unused',
              omega (arith, more a),
              tree',
              closed_free free closed,
            )
        | inr taken ↦
            let (whole', fewer, same_length) = unjoin-Whole rest a.ptr whole.2 in
            let (tables', freed, mapped, tree') =
              process_free-first kernel (record space { allocations = some (done ++ (a ∷ rest)) })
                done a rest (n + 3 * all_pages rest) refl
                (Unused-Absent done a.ptr (ground arith) unused) whole.0 whole.1
                (IsTree-fewer (omega (arith, tree.enough)) tree) in
            let (tables'', xs, run, unused', same, tree'', closed) =
              terminate_loop-Unused rounds (done ++ (no_allocation ∷ []))
                (process_allocation_unjoin rest a.ptr) (record space { tables = tables' }) n
                (Unused-append done no_allocation unused refl) whole' (omega arith)
                (IsTree-fewer (omega (arith, tree'.enough, fewer)) tree') in
            (
              tables'',
              xs,
              step
                  ∙ rw (taken, freed)
                      (next no_allocation (process_allocation_unjoin rest a.ptr) tables' ∙ run),
              unused',
              omega (arith, more no_allocation),
              tree'',
              closed_pages taken mapped closed,
            )
      ]

  -- process_terminate_allocations of allocations of whole pages below 2^47, with three frames for each page left,
  -- returns, leaves all entries of the table of allocations free, and closes the pages of all allocations.
  pub process_terminate_allocations-Unused :
      (space : Space H) (allocations : List Allocation) (n : ℕ)
      → space.allocations ≡ some allocations
      → Whole allocations
      → IsTree space.tables space.pml (n + 3 * all_pages allocations)
      → Ended space allocations (length allocations) n (process_terminate_allocations kernel space)
  unfolding process_terminate_allocations
  process_terminate_allocations-Unused space allocations n e whole tree =
      subst
        (λ found.
          Ended space allocations (length allocations) n
            (process_terminate_allocations kernel (record space { allocations = found })))
        (sym e)
        (subst
          (λ count. Ended space allocations count n (
            terminate_loop kernel (length allocations) 0
              (record space { allocations = some allocations })))
          (zero-add (length allocations))
          (terminate_loop-Unused (length allocations) [] allocations space n tt whole refl tree))
