-- ===== src/Files/Open.antt =====
-- fopen of ViOS64Bit/src/fs/file.c: which number a file gets, and how fclose gives it back.
use vi_os.Prelude.{
  ℕ, zero, suc, ◌+◌, ◌<◌, ◌≡◌, refl, ap, sym, ◌∙◌, ◌⊎◌, inl, inr, false, List, [], ◌∷◌, ◌++◌,
  Option, none, some, arith, length, ok, fault, store-prefix, pos,
}
use vi_os.PathParser.{PathRoot, parse}
use vi_os.Files.{
  Files, FileDescriptor, Filesystem, FileMode, Pointer, pointer, first_free, open_file,
  file_new_descriptor, is_error, file_get_mode_by_string, disk_get, disk_id, is_empty, is_invalid,
  open_with_mode, open_parsed, fopen, fclose,
}
use vi_os.Files.Table.{Full, first_free-cases, file_get_descriptor-at, file_free_descriptor-at}

zero_or_suc : (n : ℕ) → (n ≡ 0) ⊎ ((m : ℕ) × (n ≡ suc m))
zero_or_suc zero = inl refl
zero_or_suc (suc m) = inr (m, refl)

module _ {W P : Type 0} where
  -- The descriptor behind the slots `pre`.
  abbrev pub opened :
      List (Option (FileDescriptor W P)) → Filesystem W P → Pointer P → ℕ → FileDescriptor W P
  opened pre filesystem private disk = record {
    index = length pre + 1;
    filesystem = filesystem;
    private = private;
    disk = disk;
  }

  first_free-Full :
      (pre post : List (Option (FileDescriptor W P))) (i : ℕ)
      → Full pre
      → first_free (pre ++ (none ∷ post)) i ≡ some (i + length pre)
  unfolding first_free
  first_free-Full [] post i full = ap some (omega arith)
  first_free-Full (none ∷ pre) post i full = absurd full
  first_free-Full (some desc ∷ pre) post i full =
      first_free-Full pre post (i + 1) full ∙ ap some (omega arith)

  pub file_new_descriptor-free :
      (files : Files W P) (filesystem : Filesystem W P) (private : Pointer P) (disk : ℕ)
      (pre post : List (Option (FileDescriptor W P))) (left : ℕ)
      → files.descriptors ≡ pre ++ (none ∷ post)
      → first_free files.descriptors 0 ≡ some (length pre)
      → files.left ≡ suc left
      → file_new_descriptor files filesystem private disk
        ≡ ok (
          some (length pre + 1),
          record files {
            descriptors = pre ++ (some (opened pre filesystem private disk) ∷ post);
            left = left;
          },
        )
  unfolding file_new_descriptor
  file_new_descriptor-free files filesystem private disk pre post left e found allocations = rw (
    file_new_descriptor,
    found,
    allocations,
    e,
    store-prefix {A = Option (FileDescriptor W P)} pre post none
        (some (opened pre filesystem private disk)),
  )

  -- No slot, no memory, or a new descriptor in the first free slot.
  pub file_new_descriptor-cases :
      (files : Files W P) (filesystem : Filesystem W P) (private : Pointer P) (disk : ℕ)
      → (file_new_descriptor files filesystem private disk ≡ ok (none, files))
        ⊎ ((file_new_descriptor files filesystem private disk ≡ fault)
            ⊎ ((pre post : List (Option (FileDescriptor W P))) × (left : ℕ) × (files.descriptors
                  ≡ pre ++ (none ∷ post))
                × Full pre
                × (files.left ≡ suc left)
                × (file_new_descriptor files filesystem private disk
                    ≡ ok (
                      some (length pre + 1),
                      record files {
                        descriptors = pre ++ (some (opened pre filesystem private disk) ∷ post);
                        left = left;
                      },
                    ))))
  unfolding file_new_descriptor
  file_new_descriptor-cases files filesystem private disk =
      elim (first_free-cases files.descriptors 0) [
        | inl (full, e) ↦ inl (rw (file_new_descriptor, e) refl)
        | inr (pre, post, e, full, found) ↦ elim (zero_or_suc files.left) [
          | inl none_left ↦ inr (inl (rw (file_new_descriptor, found, none_left) refl))
          | inr (left, allocations) ↦ inr (
              inr (
                pre,
                post,
                left,
                e,
                full,
                allocations,
                file_new_descriptor-free files filesystem private disk pre post left e
                    (found ∙ ap some (omega arith)) allocations,
              ))
        ]
      ]

  -- A call of fopen that gets to the driver, with `left` allocations.
  pub record IsOpening (files : Files W P) (filename mode_str : List ℕ)
      (filesystem : Filesystem W P) (root_path : PathRoot) (mode : FileMode) (left : ℕ)
      : Type 0 where
    pub parsed : parse files.primary files.left filename ≡ ok (some root_path, left)
    pub some_part : is_empty root_path.first ≡ false
    pub on_disk : disk_get files root_path.drive_no ≡ some (some filesystem)
    pub mode_found : file_get_mode_by_string mode_str ≡ ok mode
    pub mode_valid : is_invalid mode ≡ false

  pub fopen-open_file :
      (files : Files W P) (filename mode_str : List ℕ) (filesystem : Filesystem W P)
      (root_path : PathRoot) (mode : FileMode) (left : ℕ)
      → IsOpening files filename mode_str filesystem root_path mode left
      → fopen files filename mode_str
        ≡ open_file
            (record files { left = left })
            filesystem
            (disk_id root_path.drive_no)
            root_path.first
            mode
  unfolding fopen open_parsed open_with_mode disk_get
  fopen-open_file files filename mode_str filesystem root_path mode left opening =
      rw (fopen, opening.parsed)
        (rw (opening.some_part, opening.on_disk, opening.mode_found, opening.mode_valid) refl)

  abbrev pub with_file :
      Files W P
      → Filesystem W P
      → PathRoot
      → ℕ
      → List (Option (FileDescriptor W P))
      → List (Option (FileDescriptor W P))
      → P
      → W
      → Files W P
  with_file files filesystem root_path left pre post p world = record files {
    descriptors =
        pre ++ (some (opened pre filesystem (pointer p) (disk_id root_path.drive_no)) ∷ post);
    left = left;
    world = world;
  }

  -- Where the driver opens the file, and its pointer is not taken for an error, fopen returns the number of the first free slot, counted from 1.
  pub fopen-first :
      (files : Files W P) (filename mode_str : List ℕ) (filesystem : Filesystem W P)
      (root_path : PathRoot) (mode : FileMode) (left : ℕ)
      (pre post : List (Option (FileDescriptor W P))) (p : P) (world : W)
      → IsOpening files filename mode_str filesystem root_path mode (suc left)
      → files.descriptors ≡ pre ++ (none ∷ post)
      → Full pre
      → filesystem.open_path (disk_id root_path.drive_no) root_path.first mode files.world
        ≡ (pointer p, world)
      → is_error filesystem (pointer p) ≡ false
      → fopen files filename mode_str
        ≡ ok (pos (length pre + 1), with_file files filesystem root_path left pre post p world)
  unfolding open_file
  fopen-first files filename mode_str filesystem root_path mode left pre post p world opening slots
        full driver valid =
      fopen-open_file files filename mode_str filesystem root_path mode (suc left) opening
      ∙ rw (open_file, driver, valid)
          (rw
            (file_new_descriptor-free (record files { left = suc left; world = world }) filesystem
              (pointer p) (disk_id root_path.drive_no) pre post left slots
              (ap (λ s. first_free s 0) slots
                ∙ first_free-Full pre post 0 full
                ∙ ap some (omega arith))
              refl)
            refl)

  -- Where the driver opens the file, with a pointer that ISERR does not take for an error, since bit 31 of its
  -- address is 0, and one of the first 511 slots is free, fopen returns the number of the first
  -- free slot, counted from 1; fclose of that number, where the driver closes the file, returns 0 and leaves the
  -- descriptors as they were before.
  pub fopen-fclose :
      (files : Files W P) (filename mode_str : List ℕ) (filesystem : Filesystem W P)
      (root_path : PathRoot) (mode : FileMode) (left : ℕ)
      (pre post : List (Option (FileDescriptor W P))) (p : P) (world world' : W)
      → IsOpening files filename mode_str filesystem root_path mode (suc left)
      → files.descriptors ≡ pre ++ (none ∷ post)
      → Full pre
      → length pre < 511
      → filesystem.open_path (disk_id root_path.drive_no) root_path.first mode files.world
        ≡ (pointer p, world)
      → is_error filesystem (pointer p) ≡ false
      → filesystem.close (pointer p) world ≡ (pos 0, world')
      → (files' files'' : Files W P) × (fopen files filename mode_str
          ≡ ok (pos (length pre + 1), files'))
        × (fclose files' (pos (length pre + 1)) ≡ ok (pos 0, files''))
        × (files''.descriptors ≡ files.descriptors)
  unfolding fclose
  fopen-fclose files filename mode_str filesystem root_path mode left pre post p world world'
        opening slots full inside driver valid closing =
      (
        with_file files filesystem root_path left pre post p world,
        record files { descriptors = pre ++ (none ∷ post); left = left; world = world' },
        fopen-first files filename mode_str filesystem root_path mode left pre post p world opening
            slots full driver valid,
        rw
            (
              fclose,
              file_get_descriptor-at (with_file files filesystem root_path left pre post p world)
                  pre post (some desc) refl inside,
            )
            (rw closing (
              rw
                (file_free_descriptor-at
                  (record files {
                    descriptors = pre ++ (some desc ∷ post);
                    left = left;
                    world = world';
                  })
                  pre post desc refl refl)
                refl)),
        sym slots,
      )
    where
      desc : FileDescriptor W P
      desc = opened pre filesystem (pointer p) (disk_id root_path.drive_no)
