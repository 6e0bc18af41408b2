-- ===== src/Files.antt =====
-- The table of open files of ViOS64Bit/src/fs/file.c, with disk_get of ViOS64Bit/src/disk/disk.c. The
-- drivers of file systems are records of functions, over `W`, the state of the drivers and the disks, and
-- `P`, what they keep for an open file.
pub mod Table
pub mod Open
pub mod Calls
pub mod Reach
pub mod Refused
mod Tests
use vi_os.Prelude.{
  ℕ, zero, suc, ◌+◌, ◌-◌, Bool, true, false, ◌||◌, not, List, [], ◌∷◌, Option, none, some, leb,
  ◌==◌, if◌then◌else◌, get_elem?, replicate, Run, ok, fault, ◌>>=◌, load, store, ℤ, pos, negsuc,
  neg, is_negative, to_int32, sub64,
}
use vi_os.Config.{e_io, e_invarg, max_filesystems, max_file_descriptors}
use vi_os.CString.{strncmp}
use vi_os.PathParser.{PathRoot, parse}

pub data FileMode : Type 0 where
  mode_read : FileMode
  mode_write : FileMode
  mode_append : FileMode
  mode_invalid : FileMode

-- A `void*` of a driver: ERROR of a negative status, NULL, or what it keeps for the file.
pub data Pointer (P : Type 0) : Type 0 where
  error : ℕ → Pointer P
  null : Pointer P
  pointer : P → Pointer P

-- `struct filesystem`, and the address of what the driver keeps for a file, which is not NULL. A disk is given by its id; a size and a number of members, an offset and where it
-- counts from are the numbers of the call.
pub record Filesystem (W P : Type 0) : Type 0 where
  pub resolve : ℕ → W → ℤ × W
  pub address : P → ℕ
  pub open_path : ℕ → List (List ℕ) → FileMode → W → Pointer P × W
  pub read : ℕ → Pointer P → ℕ → ℕ → W → (ℤ × List ℕ) × W
  pub seek : Pointer P → ℤ → ℕ → W → ℤ × W
  pub stat : ℕ → Pointer P → W → (ℤ × ℕ × ℕ) × W
  pub close : Pointer P → W → ℤ × W
  pub write : ℕ → Pointer P → List ℕ → ℕ → ℕ → W → ℤ × W

-- `struct file_descriptor`.
pub record FileDescriptor (W P : Type 0) : Type 0 where
  pub index : ℕ
  pub filesystem : Filesystem W P
  pub private : Pointer P
  pub disk : ℕ

-- The two arrays; the file systems of the disks, in the order of the disks; the disk of the kernel's file
-- system; how many allocations succeed; and the state of the drivers.
pub record Files (W P : Type 0) : Type 0 where
  pub filesystems : List (Option (Filesystem W P))
  pub descriptors : List (Option (FileDescriptor W P))
  pub disks : List (Option (Filesystem W P))
  pub primary : Option ℕ
  pub left : ℕ
  pub world : W

-- The loop for the first slot that is NULL.
unfoldable pub first_free {ℓ} : {A : Type ℓ} → List (Option A) → ℕ → Option ℕ
first_free [] i = none
first_free (none ∷ slots) i = some i
first_free (some a ∷ slots) i = first_free slots (i + 1)

abbrev pub is_ok : ℤ → Bool
is_ok (pos n) = n == 0
is_ok (negsuc n) = false

abbrev pub is_invalid : FileMode → Bool
is_invalid mode_invalid = true
is_invalid _ = false

-- The disk with that number.
abbrev pub disk_id : ℤ → ℕ
disk_id (pos id) = id
disk_id (negsuc _) = 0

abbrev pub is_empty : List (List ℕ) → Bool
is_empty [] = true
is_empty (_ ∷ _) = false

-- ISERR looks at the sign of the low 32 bits of the address.
unfoldable pub is_error : {W P : Type 0} → Filesystem W P → Pointer P → Bool
unfolding to_int32
is_error filesystem (error n) = is_negative (to_int32 (sub64 0 n))
is_error filesystem null = false
is_error filesystem (pointer p) = is_negative (to_int32 (filesystem.address p))

abbrev pub is_null : {P : Type 0} → Pointer P → Bool
is_null (error n) = n == 0
is_null null = true
is_null (pointer p) = false

abbrev pub is_refused : ℕ → ℕ → ℤ → Bool
is_refused size nmemb (pos fd) = size == 0 || (nmemb == 0 || fd == 0)
is_refused size nmemb (negsuc fd) = true

-- strncmp with a literal of one character.
unfoldable pub file_get_mode_by_string : List ℕ → Run FileMode
unfolding strncmp
file_get_mode_by_string str = do
  r ← strncmp 1 str (114 ∷ 0 ∷ [])
  w ← strncmp 1 str (119 ∷ 0 ∷ [])
  a ← strncmp 1 str (97 ∷ 0 ∷ [])
  ok (
      if is_ok r
      then mode_read
      else (if is_ok w then mode_write else (if is_ok a then mode_append else mode_invalid)))

module _ {W P : Type 0} where
  -- Without a free slot it stops for ever.
  unfoldable pub fs_insert_filesystem : Files W P → Filesystem W P → Run (Files W P)
  unfolding first_free
  fs_insert_filesystem files filesystem = elim (first_free files.filesystems 0) [
    | none ↦ fault
    | some i ↦ store files.filesystems i (some filesystem) >>= λ filesystems.
        ok (record files { filesystems = filesystems })
  ]

  -- `fat16` is what fat16_init gives.
  unfoldable pub fs_init : Files W P → Filesystem W P → Run (Files W P)
  unfolding fs_insert_filesystem
  fs_init files fat16 =
      fs_insert_filesystem
        (record files {
          filesystems = replicate max_filesystems none;
          descriptors = replicate max_file_descriptors none;
        })
        fat16

  unfoldable pub resolve_loop : List (Option (Filesystem W P)) → ℕ → W → Option (Filesystem W P) × W
  resolve_loop [] disk world = (none, world)
  resolve_loop (none ∷ filesystems) disk world = resolve_loop filesystems disk world
  resolve_loop (some fs ∷ filesystems) disk world =
      let (res, world') = fs.resolve disk world in
      let rest = resolve_loop filesystems disk world' in
      if is_ok res then (some fs, world') else rest

  unfoldable pub fs_resolve : Files W P → ℕ → Option (Filesystem W P) × Files W P
  unfolding resolve_loop
  fs_resolve files disk =
      let (fs, world) = resolve_loop files.filesystems disk files.world in
      (fs, record files { world = world })

  unfoldable pub file_free_descriptor : Files W P → FileDescriptor W P → Run (Files W P)
  file_free_descriptor files desc = elim desc.index [
    | zero ↦ fault
    | suc i ↦ store files.descriptors i none >>= λ descriptors.
        ok (record files { descriptors = descriptors })
  ]

  -- The index of the new descriptor, if a slot is free. What the caller puts into the descriptor next is an
  -- argument. The result of kzalloc is not tested.
  unfoldable pub file_new_descriptor :
      Files W P → Filesystem W P → Pointer P → ℕ → Run (Option ℕ × Files W P)
  unfolding first_free
  file_new_descriptor files filesystem private disk = elim (first_free files.descriptors 0) [
    | none ↦ ok (none, files)
    | some i ↦ elim files.left [
      | zero ↦ fault
      | suc left ↦ do
        let desc : FileDescriptor W P = record {
          index = i + 1;
          filesystem = filesystem;
          private = private;
          disk = disk;
        }
        descriptors ← store files.descriptors i (some desc)
        ok (some (i + 1), record files { descriptors = descriptors; left = left })
    ]
  ]

  unfoldable pub file_get_descriptor : Files W P → ℤ → Run (Option (FileDescriptor W P))
  file_get_descriptor files (negsuc fd) = ok none
  file_get_descriptor files (pos fd) =
      if fd == 0 || leb max_file_descriptors fd then ok none else load files.descriptors (fd - 1)

  -- The file system of a disk, if there is such a disk.
  unfoldable pub disk_get : Files W P → ℤ → Option (Option (Filesystem W P))
  disk_get files (pos index) = get_elem? files.disks index
  disk_get files (negsuc index) = none

  -- What fopen does on an error after the driver is called: it closes every pointer but NULL.
  unfoldable pub give_up : Files W P → Filesystem W P → Pointer P → ℤ × Files W P
  give_up files filesystem private =
      if is_null private
      then (pos 0, files)
      else (pos 0, record files { world = (filesystem.close private files.world).1 })

  -- fopen behind the tests of the path and the mode.
  unfoldable pub open_file :
      Files W P → Filesystem W P → ℕ → List (List ℕ) → FileMode → Run (ℤ × Files W P)
  unfolding file_new_descriptor give_up is_error
  open_file files filesystem disk path mode =
      let (private, world) = filesystem.open_path disk path mode files.world in
      let opened = record files { world = world } in
      let described =
        (file_new_descriptor opened filesystem private disk >>= λ (index, files'). elim index [
          | none ↦ ok (give_up files' filesystem private)
          | some fd ↦ ok (pos fd, files')
        ]) in
      if is_error filesystem private then ok (give_up opened filesystem private) else described

  -- fopen behind the tests of the path and the disk.
  unfoldable pub open_with_mode :
      Files W P → Filesystem W P → PathRoot → List ℕ → Run (ℤ × Files W P)
  unfolding file_get_mode_by_string open_file
  open_with_mode files filesystem root_path mode_str = do
    mode ← file_get_mode_by_string mode_str
    let found = open_file files filesystem (disk_id root_path.drive_no) root_path.first mode
    if is_invalid mode then ok (pos 0, files) else found

  -- fopen behind the parser.
  unfoldable pub open_parsed : Files W P → Option PathRoot → List ℕ → Run (ℤ × Files W P)
  unfolding disk_get open_with_mode
  open_parsed files none mode_str = ok (pos 0, files)
  open_parsed files (some root_path) mode_str =
      let on_disk : Run (ℤ × Files W P) = (elim (disk_get files root_path.drive_no) [
        | some (some filesystem) ↦ open_with_mode files filesystem root_path mode_str
        | some none ↦ ok (pos 0, files)
        | none ↦ ok (pos 0, files)
      ]) in
      if is_empty root_path.first then ok (pos 0, files) else on_disk

  -- The descriptor's index, or 0 on every error.
  unfoldable pub fopen : Files W P → List ℕ → List ℕ → Run (ℤ × Files W P)
  unfolding parse open_parsed
  fopen files filename mode_str = do
    (root_path, left) ← parse files.primary files.left filename
    open_parsed (record files { left = left }) root_path mode_str

  unfoldable pub fclose : Files W P → ℤ → Run (ℤ × Files W P)
  unfolding file_get_descriptor file_free_descriptor
  fclose files fd = do
    found ← file_get_descriptor files fd
    elim found [ none ↦ ok (neg e_io, files) | some desc ↦ close desc ]
    where
      close : FileDescriptor W P → Run (ℤ × Files W P)
      close desc =
          let (res, world) = desc.filesystem.close desc.private files.world in
          let closed = record files { world = world } in
          let freed = (file_free_descriptor closed desc >>= λ files'. ok (res, files')) in
          if is_ok res then freed else ok (res, closed)

  unfoldable pub fseek : Files W P → ℤ → ℤ → ℕ → Run (ℤ × Files W P)
  unfolding file_get_descriptor
  fseek files fd offset whence = do
    found ← file_get_descriptor files fd
    elim found [ none ↦ ok (neg e_io, files) | some desc ↦ seek desc ]
    where
      seek : FileDescriptor W P → Run (ℤ × Files W P)
      seek desc =
          let (res, world) = desc.filesystem.seek desc.private offset whence files.world in
          ok (res, record files { world = world })

  -- The flags and the size are 0 where the driver gives none.
  unfoldable pub fstat : Files W P → ℤ → Run ((ℤ × ℕ × ℕ) × Files W P)
  unfolding file_get_descriptor
  fstat files fd = do
    found ← file_get_descriptor files fd
    elim found [ none ↦ ok ((neg e_io, 0, 0), files) | some desc ↦ stat desc ]
    where
      stat : FileDescriptor W P → Run ((ℤ × ℕ × ℕ) × Files W P)
      stat desc =
          let (res, world) = desc.filesystem.stat desc.disk desc.private files.world in
          ok (res, record files { world = world })

  -- The result and the bytes.
  unfoldable pub fread : Files W P → ℕ → ℕ → ℤ → Run ((ℤ × List ℕ) × Files W P)
  unfolding file_get_descriptor
  fread files size nmemb fd =
      if is_refused size nmemb fd then ok ((neg e_invarg, []), files) else described
    where
      read : FileDescriptor W P → Run ((ℤ × List ℕ) × Files W P)
      read desc =
          let (res, world) = desc.filesystem.read desc.disk desc.private size nmemb files.world in
          ok (res, record files { world = world })

      described : Run ((ℤ × List ℕ) × Files W P)
      described = do
        found ← file_get_descriptor files fd
        elim found [ none ↦ ok ((neg e_invarg, []), files) | some desc ↦ read desc ]

  unfoldable pub fwrite : Files W P → List ℕ → ℕ → ℕ → ℤ → Run (ℤ × Files W P)
  unfolding file_get_descriptor
  fwrite files bytes size nmemb fd =
      if is_refused size nmemb fd then ok (neg e_invarg, files) else described
    where
      write : FileDescriptor W P → Run (ℤ × Files W P)
      write desc =
          let (res, world) =
            desc.filesystem.write desc.disk desc.private bytes size nmemb files.world in
          ok (res, record files { world = world })

      described : Run (ℤ × Files W P)
      described = do
        found ← file_get_descriptor files fd
        elim found [ none ↦ ok (neg e_invarg, files) | some desc ↦ write desc ]
