-- ===== src/Paging/Frames.antt =====
-- Where the tables of ViOS64Bit/src/memory/paging/paging.c stand in the tree, and what the allocation
-- of a lower table does to it.
use vi_os.Prelude.{
  ℕ, ◌+◌, ◌^◌, ◌≤◌, ◌<◌, ◌≡◌, refl, sym, ◌∙◌, ap, ◌⊎◌, inl, inr, true, false, ◌&&◌, Bool-cases,
  List, [], ◌∷◌, arith, length, ◌==◌, if◌then◌else◌,
}
use vi_os.Paging.{
  Entry, PageTables, null, null_entry, write_entry, cleared, refer, allocate, ensure,
}

-- How deep each table stands, and the table and the index that refer to it. A frame of depth 4 is no
-- table yet.
pub record Places : Type 0 where
  pub depth : ℕ → ℕ
  pub owner : ℕ → ℕ
  pub slot : ℕ → ℕ

-- An entry of the upper three levels that is not null refers to a table of its own.
pub record Placed (places : Places) (memory : ℕ → ℕ → Entry) : Type 0 where
  pub child_depth :
      (g j : ℕ)
      → places.depth g < 3
      → null_entry (memory g j) ≡ false
      → places.depth ((memory g j).address) ≡ places.depth g + 1
  pub child_owner :
      (g j : ℕ)
      → places.depth g < 3
      → null_entry (memory g j) ≡ false
      → places.owner ((memory g j).address) ≡ g
  pub child_slot :
      (g j : ℕ)
      → places.depth g < 3
      → null_entry (memory g j) ≡ false
      → places.slot ((memory g j).address) ≡ j

abbrev pub Absent : ℕ → List ℕ → Type 0
Absent n [] = Unit
Absent n (m ∷ frames) = ((m == n) ≡ false) × Absent n frames

-- The frames that kzalloc will give are in range, no tables, and different.
abbrev pub Free : Places → List ℕ → Type 0
Free places [] = Unit
Free places (n ∷ frames) =
    (places.depth n ≡ 4) × (n < 2 ^ 40) × Absent n frames × Free places frames

-- The tree with a new table.
abbrev pub grown : Places → ℕ → ℕ → ℕ → Places
grown places new f i = record {
  depth = λ g. if g == new then places.depth f + 1 else places.depth g;
  owner = λ g. if g == new then f else places.owner g;
  slot = λ g. if g == new then i else places.slot g;
}

Free-grown :
    (places : Places) (new f i : ℕ) (frames : List ℕ)
    → Absent new frames
    → Free places frames
    → Free (grown places new f i) frames
Free-grown places new f i [] absent free = tt
Free-grown places new f i (n ∷ frames) absent free =
    (rw (absent.0) (free.0), free.1, free.2, Free-grown places new f i frames absent.1 free.3)

-- What `ensure` leaves behind, for the entry `i` of the table `f`.
pub record Ensured (places : Places) (pt : PageTables) (f i : ℕ) (places' : Places)
    (pt' : PageTables) : Type 0 where
  pub placed : Placed places' pt'.memory
  pub free : Free places' pt'.frames
  pub count : length pt.frames ≤ length pt'.frames + 1
  pub not_null : null_entry (pt'.memory f i) ≡ false
  pub same_places :
      (g : ℕ)
      → places.depth g < 4
      → (places'.depth g ≡ places.depth g)
        × (places'.owner g ≡ places.owner g)
        × (places'.slot g ≡ places.slot g)
  pub others :
      (g j : ℕ) → places.depth g < 4 → (g == f && j == i) ≡ false → pt'.memory g j ≡ pt.memory g j
  pub below :
      ((null_entry (pt.memory f i) ≡ true)
        × ((j : ℕ) → pt'.memory ((pt'.memory f i).address) j ≡ null))
      ⊎ ((null_entry (pt.memory f i) ≡ false) × (pt'.memory ≡ pt.memory))

-- The memory with the new table, entered at the index `i` of the table `f`.
abbrev extended : (ℕ → ℕ → Entry) → ℕ → ℕ → ℕ → ℕ → ℕ → Entry
extended memory f i new = write_entry (cleared memory new) f i (refer (cleared memory new f i) new)

module _ (places : Places) (memory : ℕ → ℕ → Entry) (f i new : ℕ) where
  -- An entry of the extended tree is the new one, one of the new table, or an old one.
  cases :
      (g j : ℕ)
      → ((g ≡ f) × (j ≡ i))
        ⊎ (((g ≡ new) × (extended memory f i new g j ≡ null))
            ⊎ (((g == new) ≡ false)
                × ((g == f && j == i) ≡ false)
                × (extended memory f i new g j ≡ memory g j)))
  cases g j = elim (Bool-cases (g == f && j == i)) [
    | inl same ↦ inl (ground (arith, same))
    | inr other ↦ inr (elim (Bool-cases (g == new)) [
      | inl at_new ↦ inl (ground (arith, at_new), ground (arith, at_new, other))
      | inr old ↦ inr (old, other, ground (arith, old, other))
    ])
  ]

  at_entry : extended memory f i new f i ≡ refer (cleared memory new f i) new
  at_entry = ground arith

  module _ (placed : Placed places memory) (shallow : places.depth f < 3)
      (free : places.depth new ≡ 4) (range : new < 2 ^ 40) where
    address : (extended memory f i new f i).address ≡ new
    address = ap (λ e. e.address) at_entry ∙ omega arith

    -- What an entry of the extended tree refers to.
    child :
        (g j : ℕ)
        → (grown places new f i).depth g < 3
        → null_entry (extended memory f i new g j) ≡ false
        → ((grown places new f i).depth ((extended memory f i new g j).address)
            ≡ (grown places new f i).depth g + 1)
          × ((grown places new f i).owner ((extended memory f i new g j).address) ≡ g)
          × ((grown places new f i).slot ((extended memory f i new g j).address) ≡ j)
    unfolding null_entry
    child g j lt used = elim (cases g j) [
      | inl (e, e') ↦
          let there : (extended memory f i new g j).address ≡ new =
            ap (λ g. (extended memory f i new g j).address) e
            ∙ ap (λ j. (extended memory f i new f j).address) e'
            ∙ address in
          rw there (ground (arith, e, e'))
      | inr (inl (e, e')) ↦ cc (sym used, ap null_entry e')
      | inr (inr (old, other, e)) ↦
          let used' : null_entry (memory g j) ≡ false = ap null_entry (sym e) ∙ used in
          let lt' : places.depth g < 3 = ground (arith, old) in
          rw e (
            ground (
              arith,
              old,
              placed.child_depth g j lt' used',
              placed.child_owner g j lt' used',
              placed.child_slot g j lt' used',
            ))
    ]

allocate-cons :
    (pt : PageTables) (f i new : ℕ) (frames : List ℕ)
    → pt.frames ≡ new ∷ frames
    → allocate pt f i ≡ record pt { memory = extended pt.memory f i new; frames = frames }
unfolding allocate
allocate-cons pt f i new frames e = rw (allocate, e)

allocated :
    (places : Places) (pt : PageTables) (f i new : ℕ) (frames : List ℕ)
    → Placed places pt.memory
    → places.depth f < 3
    → Free places (new ∷ frames)
    → length pt.frames ≤ length frames + 1
    → null_entry (pt.memory f i) ≡ true
    → Ensured places pt f i
        (grown places new f i)
        (record pt { memory = extended pt.memory f i new; frames = frames })
unfolding null_entry
allocated places pt f i new frames placed shallow free count was_null = record {
  placed = record {
    child_depth = λ g j lt used.
        (child places pt.memory f i new placed shallow (free.0) (free.1) g j lt used).0;
    child_owner = λ g j lt used.
        (child places pt.memory f i new placed shallow (free.0) (free.1) g j lt used).1;
    child_slot = λ g j lt used.
        (child places pt.memory f i new placed shallow (free.0) (free.1) g j lt used).2;
  };
  free = Free-grown places new f i frames (free.2) (free.3);
  count = count;
  not_null = ap null_entry (at_entry places pt.memory f i new);
  same_places =
      λ g lt. let old : (g == new) ≡ false = ground (arith, free.0) in (rw old, rw old, rw old);
  others = λ g j lt other.
      let old : (g == new) ≡ false = ground (arith, free.0) in ground (arith, old, other);
  below = inl (
    was_null,
    λ j.
        let new_table : (new == f) ≡ false = ground (arith, free.0) in
        ap (λ g. extended pt.memory f i new g j)
          (address places pt.memory f i new placed shallow (free.0) (free.1))
        ∙ ground (arith, new_table),
  );
}

pub ensure-Ensured :
    (places : Places) (pt : PageTables) (f i : ℕ)
    → Placed places pt.memory
    → places.depth f < 3
    → Free places pt.frames
    → 0 < length pt.frames
    → (places' : Places) × Ensured places pt f i places' (ensure pt f i)
unfolding ensure
ensure-Ensured places pt f i placed shallow free enough =
    elim (Bool-cases (null_entry (pt.memory f i))) [
      | inl was_null ↦ rw was_null (given pt.frames refl free enough was_null)
      | inr used ↦ rw used (
        places,
        record {
          placed = placed;
          free = free;
          count = omega arith;
          not_null = used;
          same_places = λ g lt. (refl, refl, refl);
          others = λ g j lt other. refl;
          below = inr (used, refl);
        },
      )
    ]
  where
    given :
        (frames : List ℕ)
        → pt.frames ≡ frames
        → Free places frames
        → 0 < length frames
        → null_entry (pt.memory f i) ≡ true
        → (places' : Places) × Ensured places pt f i places' (allocate pt f i)
    given [] e free enough was_null = absurd (omega arith)
    given (new ∷ frames) e free enough was_null = (
      grown places new f i,
      rw (allocate-cons pt f i new frames e) (
          allocated places pt f i new frames placed shallow free (omega (arith, ap length e))
            was_null),
    )
