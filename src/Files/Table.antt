-- ===== src/Files/Table.antt =====
-- The array of descriptors of ViOS64Bit/src/fs/file.c: the descriptor in each slot has the slot's number,
-- counted from 1.
use mathlib.Core.Path.{subst}
use vi_os.Prelude.{
  ℕ, zero, suc, ◌+◌, ◌-◌, ◌<◌, ◌≡◌, refl, ap, ◌∙◌, ◌⊎◌, inl, inr, Bool-cases, false, ◌||◌, ◌==◌,
  leb, List, [], ◌∷◌, ◌++◌, Option, none, some, arith, length, ok, load-prefix, store-prefix, ℤ,
  pos, negsuc,
}
use vi_os.Config.{max_file_descriptors}
use vi_os.Files.{Files, FileDescriptor, first_free, file_get_descriptor, file_free_descriptor}

module _ {W P : Type 0} where
  abbrev pub Fits : ℕ → Option (FileDescriptor W P) → Type 0
  Fits i none = Unit
  Fits i (some desc) = desc.index ≡ i + 1

  -- The slots from the number `i` on.
  abbrev pub Indexed : ℕ → List (Option (FileDescriptor W P)) → Type 0
  Indexed i [] = Unit
  Indexed i (slot ∷ slots) = Fits i slot × Indexed (i + 1) slots

  pub record IsTable (files : Files W P) : Type 0 where
    pub size : length files.descriptors ≡ 512
    pub indexed : Indexed 0 files.descriptors

  pub Indexed-at :
      (i : ℕ) (pre post : List (Option (FileDescriptor W P))) (slot : Option (FileDescriptor W P))
      → Indexed i (pre ++ (slot ∷ post))
      → Fits (i + length pre) slot
  Indexed-at i [] post slot indexed = let same : i + 0 ≡ i = omega arith in rw same (indexed.0)
  Indexed-at i (x ∷ pre) post slot indexed =
      let same : i + suc (length pre) ≡ i + 1 + length pre = omega arith in
      rw same (Indexed-at (i + 1) pre post slot indexed.1)

  pub Indexed-set :
      (i : ℕ) (pre post : List (Option (FileDescriptor W P)))
      (slot slot' : Option (FileDescriptor W P))
      → Indexed i (pre ++ (slot ∷ post))
      → Fits (i + length pre) slot'
      → Indexed i (pre ++ (slot' ∷ post))
  Indexed-set i [] post slot slot' indexed fits =
      (subst (λ n. Fits n slot') (omega arith) fits, indexed.1)
  Indexed-set i (x ∷ pre) post slot slot' indexed fits = (
    indexed.0,
    Indexed-set (i + 1) pre post slot slot' indexed.1
        (subst (λ n. Fits n slot') (omega arith) fits),
  )

  -- A slot inside of the array.
  pub split_at :
      (slots : List (Option (FileDescriptor W P))) (i : ℕ)
      → i < length slots
      → (pre post : List (Option (FileDescriptor W P))) × (slot : Option (FileDescriptor W P))
        × (slots ≡ pre ++ (slot ∷ post))
        × (length pre ≡ i)
  split_at [] i lt = absurd (omega arith)
  split_at (slot ∷ slots) zero lt = ([], slots, slot, refl, refl)
  split_at (x ∷ slots) (suc i) lt =
      let (pre, post, slot, e, size) = split_at slots i (omega arith) in
      (x ∷ pre, post, slot, ap (λ s. x ∷ s) e, ap suc size)

  -- No slot is free, or there is a first free one.
  abbrev pub Full : List (Option (FileDescriptor W P)) → Type 0
  Full [] = Unit
  Full (none ∷ slots) = ⊥
  Full (some desc ∷ slots) = Full slots

  abbrev pub FreeSlot : List (Option (FileDescriptor W P)) → ℕ → Type 0
  FreeSlot slots i =
      (pre post : List (Option (FileDescriptor W P))) × (slots ≡ pre ++ (none ∷ post))
      × Full pre
      × (first_free slots i ≡ some (i + length pre))

  pub first_free-cases :
      (slots : List (Option (FileDescriptor W P))) (i : ℕ)
      → (Full slots × (first_free slots i ≡ none)) ⊎ FreeSlot slots i
  unfolding first_free
  first_free-cases [] i = inl (tt, refl)
  first_free-cases (none ∷ slots) i = inr ([], slots, refl, tt, ap some (omega arith))
  first_free-cases (some desc ∷ slots) i = elim (first_free-cases slots (i + 1)) [
    | inl h ↦ inl h
    | inr (pre, post, e, full, found) ↦
        inr (some desc ∷ pre, post, ap (λ s. some desc ∷ s) e, full, found ∙ ap some (omega arith))
  ]

  -- What a call finds for the number of a file.
  abbrev pub Lookup : Files W P → ℤ → Type 0
  Lookup files fd =
      (file_get_descriptor files fd ≡ ok none)
      ⊎ ((pre post : List (Option (FileDescriptor W P))) × (desc : FileDescriptor W P)
          × (files.descriptors ≡ pre ++ (some desc ∷ post))
          × (fd ≡ pos (length pre + 1))
          × (file_get_descriptor files fd ≡ ok (some desc)))

  pub file_get_descriptor-at :
      (files : Files W P) (pre post : List (Option (FileDescriptor W P)))
      (slot : Option (FileDescriptor W P))
      → files.descriptors ≡ pre ++ (slot ∷ post)
      → length pre < 511
      → file_get_descriptor files (pos (length pre + 1)) ≡ ok slot
  unfolding file_get_descriptor
  file_get_descriptor-at files pre post slot e lt =
      let inside : (length pre + 1 == 0 || leb max_file_descriptors (length pre + 1)) ≡ false =
        ground arith in
      let same : length pre + 1 - 1 ≡ length pre = omega arith in
      rw (inside, same, e) (load-prefix pre post slot)

  pub file_get_descriptor-Lookup : (files : Files W P) (fd : ℤ) → IsTable files → Lookup files fd
  unfolding file_get_descriptor
  file_get_descriptor-Lookup files (negsuc n) table = inl refl
  file_get_descriptor-Lookup files (pos n) table =
      elim (Bool-cases (n == 0 || leb max_file_descriptors n)) [
        | inl outside ↦ inl (rw outside refl)
        | inr inside ↦
            let (pre, post, slot, e, size) =
              split_at files.descriptors (n - 1) (ground (arith, inside, table.size)) in
            let number : n ≡ length pre + 1 = ground (arith, inside, size) in
            let small : length pre < 511 = ground (arith, inside, size) in
            found pre post slot e number small
      ]
    where
      found :
          (pre post : List (Option (FileDescriptor W P))) (slot : Option (FileDescriptor W P))
          → files.descriptors ≡ pre ++ (slot ∷ post)
          → n ≡ length pre + 1
          → length pre < 511
          → Lookup files (pos n)
      found pre post none e number small = inl (
          ap (λ m. file_get_descriptor files (pos m)) number
          ∙ file_get_descriptor-at files pre post none e small)
      found pre post (some desc) e number small = inr (
        pre,
        post,
        desc,
        e,
        ap pos number,
        ap (λ m. file_get_descriptor files (pos m)) number
            ∙ file_get_descriptor-at files pre post (some desc) e small,
      )

  pub file_free_descriptor-at :
      (files : Files W P) (pre post : List (Option (FileDescriptor W P)))
      (desc : FileDescriptor W P)
      → files.descriptors ≡ pre ++ (some desc ∷ post)
      → desc.index ≡ length pre + 1
      → file_free_descriptor files desc ≡ ok (record files { descriptors = pre ++ (none ∷ post) })
  unfolding file_free_descriptor
  file_free_descriptor-at files pre post desc e index =
      let same : length pre + 1 ≡ suc (length pre) = omega arith in
      rw (index, same, e, store-prefix pre post (some desc) none)
