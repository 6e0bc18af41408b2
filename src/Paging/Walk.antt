-- ===== src/Paging/Walk.antt =====
-- The walk over page tables by a list of indices, and what mapping a page does to every walk.
use vi_os.Prelude.{
  ℕ, suc, ◌+◌, ◌≤◌, ◌<◌, ◌≡◌, refl, sym, ◌∙◌, ap, inl, inr, Bool, true, false, ◌&&◌, Bool-cases,
  List, [], ◌∷◌, arith, length, ◌==◌, if◌then◌else◌,
}
use vi_os.Paging.{Entry, PageTables, null, null_entry, write_entry, leaf, ensure, set_leaf}
use vi_os.Paging.Frames.{Places, Placed, Free, Ensured, ensure-Ensured}

-- The entry that the processor finds from the table `g` on, null where a table is missing.
unfoldable pub look : (ℕ → ℕ → Entry) → ℕ → ℕ → List ℕ → Entry
look memory g j [] = memory g j
look memory g j (l ∷ js) =
    if null_entry (memory g j) then null else look memory ((memory g j).address) l js

-- Mapping from the table `f` on.
unfoldable pub map_path : PageTables → ℕ → ℕ → List ℕ → ℕ → ℕ → ℕ → PageTables
map_path pt f i [] virt phys flags = set_leaf pt f i virt phys flags
map_path pt f i (k ∷ is) virt phys flags =
    let pt' = ensure pt f i in map_path pt' ((pt'.memory f i).address) k is virt phys flags

abbrev pub same_path : List ℕ → List ℕ → Bool
same_path [] [] = true
same_path (i ∷ is) (j ∷ js) = i == j && same_path is js
same_path [] (_ ∷ _) = false
same_path (_ ∷ _) [] = false

look-null :
    (memory : ℕ → ℕ → Entry) (g : ℕ) (j : ℕ) (js : List ℕ)
    → ((j : ℕ) → memory g j ≡ null)
    → look memory g j js ≡ null
unfolding look null_entry
look-null memory g j [] h = h j
look-null memory g j (l ∷ js) h =
    let empty : null_entry (memory g j) ≡ true = ap null_entry (h j) in rw empty

-- A walk that starts below the table in which an entry is made sees nothing of it.
look-below :
    (places : Places) (memory memory' : ℕ → ℕ → Entry) (f i g j : ℕ) (js : List ℕ)
    → Placed places memory
    → ((g j : ℕ) → places.depth g < 4 → (g == f && j == i) ≡ false → memory' g j ≡ memory g j)
    → places.depth f < places.depth g
    → places.depth g + length js ≡ 3
    → look memory' g j js ≡ look memory g j js
unfolding look
look-below places memory memory' f i g j [] placed others deeper level =
    others g j (omega arith) (ground (arith, deeper))
look-below places memory memory' f i g j (l ∷ js) placed others deeper level =
    elim (Bool-cases (null_entry (memory g j))) [
      | inl empty ↦ rw (others g j (omega arith) apart, empty)
      | inr used ↦
          rw (others g j (omega arith) apart, used)
            (look-below places memory memory' f i ((memory g j).address) l js placed others
              (omega (arith, placed.child_depth g j (omega arith) used))
              (omega (arith, placed.child_depth g j (omega arith) used)))
    ]
  where
    apart : (g == f && j == i) ≡ false
    apart = ground (arith, deeper)

-- What `map_path` leaves behind.
pub record Mapped (places : Places) (pt : PageTables) (f i : ℕ) (is : List ℕ) (phys flags : ℕ)
    (places' : Places) (pt' : PageTables) : Type 0 where
  pub placed : Placed places' pt'.memory
  pub free : Free places' pt'.frames
  pub count : length pt.frames ≤ length pt'.frames + length is
  pub same_places :
      (g : ℕ)
      → places.depth g < 4
      → (places'.depth g ≡ places.depth g)
        × (places'.owner g ≡ places.owner g)
        × (places'.slot g ≡ places.slot g)
  pub others :
      (g j : ℕ)
      → places.depth g ≤ places.depth f
      → (g == f && j == i) ≡ false
      → pt'.memory g j ≡ pt.memory g j
  pub law :
      (g j : ℕ) (js : List ℕ)
      → places.depth g ≡ places.depth f
      → length js ≡ length is
      → look pt'.memory g j js ≡ (
          if g == f && same_path (i ∷ is) (j ∷ js)
          then leaf (look pt.memory f i is) phys flags
          else look pt.memory g j js)

set_leaf-Mapped :
    (places : Places) (pt : PageTables) (f i virt phys flags : ℕ)
    → Placed places pt.memory
    → Free places pt.frames
    → places.depth f ≡ 3
    → Mapped places pt f i [] phys flags places (set_leaf pt f i virt phys flags)
unfolding set_leaf look
set_leaf-Mapped places pt f i virt phys flags placed free level = record {
  placed = record {
    child_depth = λ g j lt used.
        let old = upper g j lt in rw old (placed.child_depth g j lt (rw old at used));
    child_owner = λ g j lt used.
        let old = upper g j lt in rw old (placed.child_owner g j lt (rw old at used));
    child_slot =
        λ g j lt used. let old = upper g j lt in rw old (placed.child_slot g j lt (rw old at used));
  };
  free = free;
  count = omega arith;
  same_places = λ g lt. (refl, refl, refl);
  others = λ g j le other. rewritten g j other;
  law = λ g j js same_depth size. written g j js size;
}
  where
    upper :
        (g j : ℕ)
        → places.depth g < 3
        → write_entry pt.memory f i (leaf (pt.memory f i) phys flags) g j ≡ pt.memory g j
    upper g j lt = let other : (g == f) ≡ false = ground (arith, lt, level) in rw other

    rewritten :
        (g j : ℕ)
        → (g == f && j == i) ≡ false
        → write_entry pt.memory f i (leaf (pt.memory f i) phys flags) g j ≡ pt.memory g j
    rewritten g j other = ground (arith, other)

    written :
        (g j : ℕ) (js : List ℕ)
        → length js ≡ 0
        → look (write_entry pt.memory f i (leaf (pt.memory f i) phys flags)) g j js ≡ (
            if g == f && same_path (i ∷ []) (j ∷ js)
            then leaf (pt.memory f i) phys flags
            else look pt.memory g j js)
    written g j [] size = ground arith
    written g j (l ∷ js) size = absurd (omega arith)

pub lower_depth :
    (places places' : Places) (pt pt' : PageTables) (f i : ℕ)
    → Ensured places pt f i places' pt'
    → places.depth f < 3
    → places'.depth ((pt'.memory f i).address) ≡ places.depth f + 1
lower_depth places places' pt pt' f i ensured lt =
    let same = ensured.same_places f (omega arith) in
    omega (arith, ensured.placed.child_depth f i (omega (arith, same.0)) ensured.not_null, same.0)

module _ (places places' places'' : Places) (pt pt' pt'' : PageTables) (f i k : ℕ) (is : List ℕ)
    (phys flags : ℕ) (placed : Placed places pt.memory)
    (level : places.depth f + (length is + 1) ≡ 3) (ensured : Ensured places pt f i places' pt')
    (mapped : Mapped places' pt' ((pt'.memory f i).address) k is phys flags places'' pt'') where
  lower : places'.depth ((pt'.memory f i).address) ≡ places.depth f + 1
  lower = lower_depth places places' pt pt' f i ensured (omega arith)

  -- The walk from the lower table, new or old, is the old walk from `f` by `i`.
  through :
      (l : ℕ) (js : List ℕ)
      → look pt'.memory ((pt'.memory f i).address) l js ≡ look pt.memory f i (l ∷ js)
  unfolding look
  through l js = elim ensured.below [
    | inl (was_null, empty) ↦
        rw was_null (look-null pt'.memory ((pt'.memory f i).address) l js empty)
    | inr (used, same) ↦ rw (same, used)
  ]

  -- Tables that are not deeper than `f` are left to the first step.
  passed : (g j : ℕ) → places.depth g ≤ places.depth f → pt''.memory g j ≡ pt'.memory g j
  passed g j le =
      let same = ensured.same_places g (omega arith) in
      let apart : (g == (pt'.memory f i).address) ≡ false = ground (arith, lower, same.0) in
      mapped.others g j (omega (arith, lower, same.0)) (rw apart)

  kept : (g j : ℕ) → places.depth g ≡ places.depth f → pt''.memory g j ≡ pt'.memory g j
  kept g j same = passed g j (omega arith)

  step :
      (l : ℕ) (js : List ℕ)
      → look pt''.memory f i (l ∷ js) ≡ look pt''.memory ((pt'.memory f i).address) l js
  unfolding look
  step l js = rw (kept f i refl, ensured.not_null)

  -- A walk by the entry `i` of `f`.
  law_here :
      (l : ℕ) (js : List ℕ)
      → length js ≡ length is
      → look pt''.memory f i (l ∷ js) ≡ (
          if same_path (k ∷ is) (l ∷ js)
          then leaf (look pt.memory f i (k ∷ is)) phys flags
          else look pt.memory f i (l ∷ js))
  law_here l js size =
      step l js
      ∙ mapped.law ((pt'.memory f i).address) l js refl size
      ∙ rw (itself ((pt'.memory f i).address), through k is, through l js)
    where
      itself : (n : ℕ) → (n == n) ≡ true
      itself n = ground arith

  -- A walk by another entry.
  law_other :
      (g j l : ℕ) (js : List ℕ)
      → places.depth g ≡ places.depth f
      → length js ≡ length is
      → (g == f && j == i) ≡ false
      → look pt''.memory g j (l ∷ js) ≡ look pt.memory g j (l ∷ js)
  unfolding look
  law_other g j l js same size other = elim (Bool-cases (null_entry (pt.memory g j))) [
    | inl empty ↦ rw (entry, empty)
    | inr used ↦
        rw (entry, used)
          (mapped.law ((pt.memory g j).address) l js (same_depth used) size
            ∙ rw (apart used) (
                look-below places pt.memory pt'.memory f i ((pt.memory g j).address) l js placed
                  ensured.others (omega (arith, placed.child_depth g j (omega arith) used))
                  (omega (arith, placed.child_depth g j (omega arith) used))))
  ]
    where
      entry : pt''.memory g j ≡ pt.memory g j
      entry = kept g j same ∙ ensured.others g j (omega arith) other

      same_depth :
          null_entry (pt.memory g j) ≡ false
          → places'.depth ((pt.memory g j).address) ≡ places'.depth ((pt'.memory f i).address)
      same_depth used = omega (
        arith,
        lower,
        placed.child_depth g j (omega arith) used,
        (ensured.same_places ((pt.memory g j).address)
            (omega (arith, placed.child_depth g j (omega arith) used))).0,
      )

      collision :
          null_entry (pt.memory g j) ≡ false
          → (pt.memory g j).address ≡ (pt'.memory f i).address
          → ⊥
      collision used e =
          let shallow : places'.depth f < 3 =
            omega (arith, (ensured.same_places f (omega arith)).0) in
          let range : places.depth ((pt.memory g j).address) < 4 =
            omega (arith, placed.child_depth g j (omega arith) used) in
          let old = ensured.same_places ((pt.memory g j).address) range in
          let table : g ≡ f =
            sym (placed.child_owner g j (omega arith) used)
            ∙ sym (old.1)
            ∙ ap places'.owner e
            ∙ ensured.placed.child_owner f i shallow ensured.not_null in
          let index : j ≡ i =
            sym (placed.child_slot g j (omega arith) used)
            ∙ sym (old.2)
            ∙ ap places'.slot e
            ∙ ensured.placed.child_slot f i shallow ensured.not_null in
          ground (arith, table, index, other)

      apart :
          null_entry (pt.memory g j) ≡ false
          → ((pt.memory g j).address == (pt'.memory f i).address) ≡ false
      apart used = elim (Bool-cases ((pt.memory g j).address == (pt'.memory f i).address)) [
        | inl same ↦ absurd (collision used (ground (arith, same)))
        | inr differ ↦ differ
      ]

  step-Mapped : Mapped places pt f i (k ∷ is) phys flags places'' pt''
  step-Mapped = record {
    placed = mapped.placed;
    free = mapped.free;
    count = omega (arith, mapped.count, ensured.count);
    same_places = λ g lt.
        let one = ensured.same_places g lt in
        let two = mapped.same_places g (rw (one.0) lt) in
        (two.0 ∙ one.0, two.1 ∙ one.1, two.2 ∙ one.2);
    others = λ g j le other. passed g j le ∙ ensured.others g j (omega arith) other;
    law = λ g j js same size. law g j js same size;
  }
    where
      law :
          (g j : ℕ) (js : List ℕ)
          → places.depth g ≡ places.depth f
          → length js ≡ suc (length is)
          → look pt''.memory g j js ≡ (
              if g == f && same_path (i ∷ k ∷ is) (j ∷ js)
              then leaf (look pt.memory f i (k ∷ is)) phys flags
              else look pt.memory g j js)
      law g j [] same size = absurd (omega arith)
      law g j (l ∷ js) same size = elim (Bool-cases (g == f && j == i)) [
        | inl here ↦
            let table : g ≡ f = ground (arith, here) in
            let index : j ≡ i = ground (arith, here) in
            rw (table, index) (law_here l js (omega arith) ∙ ground arith)
        | inr other ↦ law_other g j l js same (omega arith) other ∙ ground (arith, other)
      ]

-- Mapping a page from a table of the tree, with frames enough for the tables below it.
pub map_path-Mapped :
    (is : List ℕ) (places : Places) (pt : PageTables) (f i virt phys flags : ℕ)
    → Placed places pt.memory
    → Free places pt.frames
    → places.depth f + length is ≡ 3
    → length is ≤ length pt.frames
    → (places' : Places) × Mapped places pt f i is phys flags places'
        (map_path pt f i is virt phys flags)
unfolding map_path
map_path-Mapped [] places pt f i virt phys flags placed free level enough =
    (places, set_leaf-Mapped places pt f i virt phys flags placed free (omega arith))
map_path-Mapped (k ∷ is) places pt f i virt phys flags placed free level enough =
    let (places', ensured) = ensure-Ensured places pt f i placed (omega arith) free (omega arith) in
    let (places'', mapped) =
      map_path-Mapped is places' (ensure pt f i) (((ensure pt f i).memory f i).address) k virt phys
        flags ensured.placed ensured.free
        (omega (arith, lower_depth places places' pt (ensure pt f i) f i ensured (omega arith)))
        (omega (arith, ensured.count)) in
    (
      places'',
      step-Mapped places places' places'' pt (ensure pt f i)
          (map_path (ensure pt f i) (((ensure pt f i).memory f i).address) k is virt phys flags) f i
          k is phys flags placed (omega arith) ensured mapped,
    )
