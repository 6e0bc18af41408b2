-- ===== src/Files/Calls.antt =====
-- The calls of ViOS64Bit/src/fs/file.c keep its array of descriptors in order.
use mathlib.Core.Path.{subst}
use vi_os.Prelude.{
  ℕ, ◌+◌, ◌≡◌, refl, ap, sym, ◌∙◌, inl, inr, Bool, Bool-cases, true, false, List, [], ◌∷◌, ◌++◌,
  Option, none, some, arith, length, length-append, Run, ok, fault, ◌>>=◌, ℤ, pos, neg,
  if◌then◌else◌,
}
use vi_os.PathParser.{PathRoot, parse}
use vi_os.Config.{e_io, e_invarg}
use vi_os.Files.{
  Files, FileDescriptor, Filesystem, FileMode, Pointer, is_ok, is_error, is_null, is_refused,
  is_invalid, is_empty, disk_id, disk_get, give_up, open_file, open_with_mode, open_parsed,
  file_new_descriptor, file_get_mode_by_string, fopen, fclose, fseek, fstat, fread, fwrite,
}
use vi_os.Files.Open.{opened, file_new_descriptor-cases}
use vi_os.Files.Table.{
  Fits, Indexed, Indexed-at, Indexed-set, IsTable, file_get_descriptor-Lookup,
  file_free_descriptor-at,
}

module _ {W P : Type 0} where
  -- A call that returns leaves a table.
  abbrev pub Keeps : {R : Type 0} → Run (R × Files W P) → Type 0
  Keeps fault = Unit
  Keeps (ok (res, files)) = IsTable files

  Keeps-if :
      {R : Type 0} (b : Bool) (x y : Run (R × Files W P))
      → Keeps x
      → Keeps y
      → Keeps (if b then x else y)
  Keeps-if true x y hx hy = hx
  Keeps-if false x y hx hy = hy

  Keeps-bind :
      {A R : Type 0} (m : Run A) (f : A → Run (R × Files W P))
      → ((a : A) → Keeps (f a))
      → Keeps (m >>= f)
  Keeps-bind fault f h = tt
  Keeps-bind (ok a) f h = h a

  -- With one slot changed there is a table again.
  with_slot :
      (files : Files W P) (pre post : List (Option (FileDescriptor W P)))
      (slot slot' : Option (FileDescriptor W P))
      → IsTable files
      → files.descriptors ≡ pre ++ (slot ∷ post)
      → Fits (length pre) slot'
      → (length (pre ++ (slot' ∷ post)) ≡ 512) × Indexed 0 (pre ++ (slot' ∷ post))
  with_slot files pre post slot slot' table e fits = (
    omega (
      arith,
      table.size,
      ap length e,
      length-append pre (slot ∷ post),
      length-append pre (slot' ∷ post),
    ),
    Indexed-set 0 pre post slot slot' (subst (Indexed 0) e table.indexed)
        (subst (λ n. Fits n slot') (omega arith) fits),
  )

  file_new_descriptor-Keeps :
      (files : Files W P) (filesystem : Filesystem W P) (private : Pointer P) (disk : ℕ)
      → IsTable files
      → Keeps (file_new_descriptor files filesystem private disk)
  file_new_descriptor-Keeps files filesystem private disk table =
      elim (file_new_descriptor-cases files filesystem private disk) [
        | inl e ↦ rw e table
        | inr (inl e) ↦ rw e tt
        | inr (inr (pre, post, left, e, full, none_left, done)) ↦
            let (size, indexed) =
              with_slot files pre post none (some (opened pre filesystem private disk)) table e
                refl in
            rw done (record { size = size; indexed = indexed })
      ]

  same_slots :
      {files files' : Files W P}
      → IsTable files
      → files'.descriptors ≡ files.descriptors
      → IsTable files'
  same_slots table e = record {
    size = ap length e ∙ table.size;
    indexed = subst (Indexed 0) (sym e) table.indexed;
  }

  give_up-IsTable :
      (files : Files W P) (filesystem : Filesystem W P) (private : Pointer P)
      → IsTable files
      → IsTable ((give_up files filesystem private).1)
  unfolding give_up
  give_up-IsTable files filesystem private table = elim (Bool-cases (is_null private)) [
    | inl nothing ↦ rw nothing table
    | inr something ↦ rw something (same_slots table refl)
  ]

  open_file-Keeps :
      (files : Files W P) (filesystem : Filesystem W P) (disk : ℕ) (path : List (List ℕ))
      (mode : FileMode)
      → IsTable files
      → Keeps (open_file files filesystem disk path mode)
  unfolding open_file
  open_file-Keeps files filesystem disk path mode table =
      let (private, world) = filesystem.open_path disk path mode files.world in
      let called : IsTable (record files { world = world }) = same_slots table refl in
      Keeps-if (is_error filesystem private)
        (ok (give_up (record files { world = world }) filesystem private)) _
        (give_up-IsTable (record files { world = world }) filesystem private called)
        (described (record files { world = world }) private called)
    where
      described :
          (files : Files W P) (private : Pointer P)
          → IsTable files
          → Keeps (
              file_new_descriptor files filesystem private disk >>= λ (index, files'). elim index [
                | none ↦ ok (give_up files' filesystem private)
                | some fd ↦ ok (pos fd, files')
              ])
      described files private table =
          elim (file_new_descriptor-cases files filesystem private disk) [
            | inl e ↦ rw e (give_up-IsTable files filesystem private table)
            | inr (inl e) ↦ rw e tt
            | inr (inr (pre, post, left, e, full, none_left, done)) ↦
                let (size, indexed) =
                  with_slot files pre post none (some (opened pre filesystem private disk)) table e
                    refl in
                rw done (record { size = size; indexed = indexed })
          ]

  open_with_mode-Keeps :
      (files : Files W P) (filesystem : Filesystem W P) (root_path : PathRoot) (mode_str : List ℕ)
      → IsTable files
      → Keeps (open_with_mode files filesystem root_path mode_str)
  unfolding open_with_mode
  open_with_mode-Keeps files filesystem root_path mode_str table =
      Keeps-bind (file_get_mode_by_string mode_str) _ (λ mode.
        Keeps-if (is_invalid mode) (ok (pos 0, files))
          (open_file files filesystem (disk_id root_path.drive_no) root_path.first mode) table
          (open_file-Keeps files filesystem (disk_id root_path.drive_no) root_path.first mode
            table))

  open_parsed-Keeps :
      (files : Files W P) (root_path : Option PathRoot) (mode_str : List ℕ)
      → IsTable files
      → Keeps (open_parsed files root_path mode_str)
  unfolding open_parsed
  open_parsed-Keeps files none mode_str table = table
  open_parsed-Keeps files (some root_path) mode_str table =
      Keeps-if (is_empty root_path.first) (ok (pos 0, files)) _ table
        (on_disk (disk_get files root_path.drive_no))
    where
      on_disk :
          (found : Option (Option (Filesystem W P)))
          → Keeps (elim found as (λ x. Run (ℤ × Files W P)) [
            | some (some filesystem) ↦ open_with_mode files filesystem root_path mode_str
            | some none ↦ ok (pos 0, files)
            | none ↦ ok (pos 0, files)
          ])
      on_disk (some (some filesystem)) =
          open_with_mode-Keeps files filesystem root_path mode_str table
      on_disk (some none) = table
      on_disk none = table

  pub fopen-Keeps :
      (files : Files W P) (filename mode_str : List ℕ)
      → IsTable files
      → Keeps (fopen files filename mode_str)
  unfolding fopen
  fopen-Keeps files filename mode_str table =
      Keeps-bind (parse files.primary files.left filename) _ (λ (root_path, left).
        open_parsed-Keeps (record files { left = left }) root_path mode_str (same_slots table refl))

  -- A call that does return, and leaves a table.
  abbrev pub Settles : {R : Type 0} → Run (R × Files W P) → Type 0
  Settles {R} run = (res : R) × (files : Files W P) × (run ≡ ok (res, files)) × IsTable files

  pub fclose-Settles : (files : Files W P) (fd : ℤ) → IsTable files → Settles (fclose files fd)
  unfolding fclose
  fclose-Settles files fd table = elim (file_get_descriptor-Lookup files fd table) [
    | inl e ↦ (neg e_io, files, rw (fclose, e) refl, table)
    | inr (pre, post, desc, slots, number, e) ↦
        let index : desc.index ≡ length pre + 1 =
          Indexed-at 0 pre post (some desc) (subst (Indexed 0) slots table.indexed) ∙ omega arith in
        let (res, world) = desc.filesystem.close desc.private files.world in
        let (size, indexed) = with_slot files pre post (some desc) none table slots tt in
        elim (Bool-cases (is_ok res)) [
          | inl closed ↦ (
            res,
            record files { world = world; descriptors = pre ++ (none ∷ post) },
            rw
                (
                  fclose,
                  e,
                  closed,
                  file_free_descriptor-at (record files { world = world }) pre post desc slots
                      index,
                )
                refl,
            record { size = size; indexed = indexed },
          )
          | inr refused ↦ (
            res,
            record files { world = world },
            rw (fclose, e, refused) refl,
            same_slots table refl,
          )
        ]
  ]

  pub fclose-Keeps : (files : Files W P) (fd : ℤ) → IsTable files → Keeps (fclose files fd)
  fclose-Keeps files fd table =
      let (res, files', e, table') = fclose-Settles files fd table in rw e table'

  pub fseek-Keeps :
      (files : Files W P) (fd offset : ℤ) (whence : ℕ)
      → IsTable files
      → Keeps (fseek files fd offset whence)
  unfolding fseek
  fseek-Keeps files fd offset whence table = elim (file_get_descriptor-Lookup files fd table) [
    | inl e ↦ rw (fseek, e) table
    | inr (pre, post, desc, slots, number, e) ↦ rw (fseek, e) (same_slots table refl)
  ]

  pub fstat-Keeps : (files : Files W P) (fd : ℤ) → IsTable files → Keeps (fstat files fd)
  unfolding fstat
  fstat-Keeps files fd table = elim (file_get_descriptor-Lookup files fd table) [
    | inl e ↦ rw (fstat, e) table
    | inr (pre, post, desc, slots, number, e) ↦ rw (fstat, e) (same_slots table refl)
  ]

  pub fread-Keeps :
      (files : Files W P) (size nmemb : ℕ) (fd : ℤ)
      → IsTable files
      → Keeps (fread files size nmemb fd)
  unfolding fread
  fread-Keeps files size nmemb fd table =
      Keeps-if (is_refused size nmemb fd) (ok ((neg e_invarg, []), files)) _ table
        (elim (file_get_descriptor-Lookup files fd table) [
          | inl e ↦ rw e table
          | inr (pre, post, desc, slots, number, e) ↦ rw e (same_slots table refl)
        ])

  pub fwrite-Keeps :
      (files : Files W P) (bytes : List ℕ) (size nmemb : ℕ) (fd : ℤ)
      → IsTable files
      → Keeps (fwrite files bytes size nmemb fd)
  unfolding fwrite
  fwrite-Keeps files bytes size nmemb fd table =
      Keeps-if (is_refused size nmemb fd) (ok (neg e_invarg, files)) _ table
        (elim (file_get_descriptor-Lookup files fd table) [
          | inl e ↦ rw e table
          | inr (pre, post, desc, slots, number, e) ↦ rw e (same_slots table refl)
        ])
