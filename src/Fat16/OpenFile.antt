-- ===== src/Fat16/OpenFile.antt =====
-- Opening, creating, reading and closing files of ViOS64Bit/src/fs/fat/fat16.c, with fat16_resolve.
use vi_os.Prelude.{
  ℕ, zero, suc, ◌+◌, ◌-◌, ◌*◌, ◌/◌, ◌%◌, ◌^◌, Bool, true, false, ◌||◌, not, List, [], ◌∷◌, ◌++◌,
  Option, none, some, ◌⊎◌, inl, inr, leb, ◌==◌, if◌then◌else◌, length, drop, take, replicate, Run,
  ok, fault, ◌>>=◌, ℤ, pos, neg, is_negative, min,
}
use vi_os.Config.{e_io, e_invarg, e_nomem, e_fsnotus, e_unimp}
use vi_os.CString.{toupper, strchr}
use vi_os.Streamer.{Disk, Drive, diskstreamer_read, diskstreamer_write}
use vi_os.Files.{FileMode, mode_write, mode_append, is_ok}
use vi_os.Fat16.{FatPrivate, word, read_internal}
use vi_os.Fat16.Directory.{
  FatDirectory, FatItem, file_item, directory_item, Volume, byte_at, is_read_only, filesize,
  get_first_cluster, entries_of, item_at, alloc, new_fat_item_for_directory_item,
  get_directory_entry,
}
use vi_os.Fat16.Writing.{FatFile, patch, truncate}

-- The first entry that is unused or deleted.
unfoldable pub free_slot : ℕ → List ℕ → ℕ → Run (Option ℕ)
free_slot zero items i = ok none
free_slot (suc entries) items i = do
  item ← item_at items i
  let rest = free_slot entries items (i + 1)
  if byte_at item 0 == 0 || byte_at item 0 == 229 then ok (some i) else rest

-- At most `n` characters up to the NUL, as strncpy copies them, and in upper case.
unfoldable pub upper : ℕ → List ℕ → List ℕ
unfolding toupper
upper zero str = []
upper (suc n) [] = []
upper (suc n) (c ∷ str) = let rest = upper n str in if c == 0 then [] else toupper c ∷ rest

abbrev pub spaced : ℕ → List ℕ → List ℕ
spaced n str = take n (str ++ replicate n 32)

-- The new item: the name up to the dot, the extension behind it, FAT_FILE_ARCHIVED, and zeros.
unfoldable pub new_item : List ℕ → Run (List ℕ)
unfolding strchr upper
new_item filename = do
  dot ← strchr filename 46
  let names : List ℕ × List ℕ = (elim dot [
    | none ↦ (upper 8 filename, [])
    | some behind ↦
        (upper (min (length filename - length behind) 8) filename, upper 3 (drop 1 behind))
  ])
  ok (spaced 8 names.0 ++ (spaced 3 names.1 ++ (32 ∷ replicate 20 0)))

abbrev pub is_writing : FileMode → Bool
is_writing mode_write = true
is_writing mode_append = true
is_writing _ = false

abbrev pub truncates : FileMode → Bool
truncates mode_write = true
truncates _ = false

abbrev pub appends : FileMode → Bool
appends mode_append = true
appends _ = false

module _ (rounds : ℕ) (disk : Disk) (private : FatPrivate) (stack : ℕ → List ℕ) where
  -- The item, NULL, or an error. The result of the write to the disk is not tested.
  unfoldable pub create_file_in_root : Volume → List ℕ → Run ((ℕ ⊎ Option FatItem) × Volume)
  unfolding free_slot new_item new_fat_item_for_directory_item
  create_file_in_root volume filename = do
    let root_dir = volume.root_directory
    found ← free_slot (entries_of root_dir) root_dir.items 0
    elim found [
      | none ↦ ok (inl e_nomem, volume)
      | some i ↦ do
        item ← new_item filename
        let sector = root_dir.sector_pos + 32 * i / 512
        (res, position, drive) ←
            diskstreamer_write disk volume.drive stack (sector * 512 + 32 * i % 512) item
        let volume' = record volume {
          drive = drive;
          root_directory = record root_dir { items = patch root_dir.items (32 * i) item };
        }
        (created, volume'') ←
            new_fat_item_for_directory_item rounds disk private volume' item sector (32 * i % 512)
        ok (inr created, volume'')
    ]

  -- The descriptor of an item that is there. The result of fat16_truncate is not tested.
  unfoldable pub open_item : Volume → FatItem → FileMode → Run ((ℕ ⊎ FatFile) × Volume)
  unfolding truncate
  open_item volume (directory_item pointer sector offset) mode =
      ok (inr (record { item = directory_item pointer sector offset; pos = 0 }), volume)
  open_item volume (file_item pointer sector offset) mode =
      let descriptor : FatFile = record { item = file_item pointer sector offset; pos = 0 } in
      let truncated =
        (truncate disk private stack rounds volume.drive descriptor 0 >>= λ (res, drive, file).
        ok (inr file, record volume { drive = drive })) in
      let at_end : Run ((ℕ ⊎ FatFile) × Volume) = (elim pointer [
        | none ↦ fault
        | some item ↦ ok (inr (record descriptor { pos = filesize item }), volume)
      ]) in
      if truncates mode
      then truncated
      else (if appends mode then at_end else ok (inr descriptor, volume))

  unfoldable pub open_created :
      Volume → (ℕ ⊎ Option FatItem) → FileMode → Run ((ℕ ⊎ FatFile) × Volume)
  unfolding open_item
  open_created volume (inl e) mode = ok (inl e, volume)
  open_created volume (inr none) mode = ok (inl e_io, volume)
  open_created volume (inr (some item)) mode = open_item volume item mode

  -- The descriptor, or the error. A path has a part at least.
  unfoldable pub open_path : Volume → List (List ℕ) → FileMode → Run ((ℕ ⊎ FatFile) × Volume)
  unfolding get_directory_entry create_file_in_root open_created
  open_path volume path mode = elim (alloc volume) [
    | none ↦ ok (inl e_nomem, volume)
    | some volume' ↦ do
      (found, volume'') ← get_directory_entry rounds disk private volume' path
      let missing = if is_writing mode then create volume'' path else ok (inl e_io, volume'')
      elim found [ none ↦ missing | some item ↦ open_item volume'' item mode ]
  ]
    where
      create : Volume → List (List ℕ) → Run ((ℕ ⊎ FatFile) × Volume)
      create volume [] = fault
      create volume (part ∷ []) = create_file_in_root volume part >>= λ (created, volume').
          open_created volume' created mode
      create volume (part ∷ next ∷ parts) = ok (inl e_io, volume)

-- The loop that reads one member after the other: the status of the last read, and the bytes.
unfoldable pub read_members : ℕ → Disk → Drive → FatPrivate → ℕ → ℕ → ℕ → ℤ → Run (ℤ × List ℕ)
read_members zero disk drive private cluster offset size res = ok (res, [])
read_members (suc members) disk drive private cluster offset size last = do
  (res, bytes) ← read_internal disk drive private cluster offset size
  let rest =
      (read_members members disk drive private cluster (offset + size) size res
        >>= λ (res', bytes'). ok (res', bytes ++ bytes'))
  if is_negative res then ok (res, bytes) else rest

-- A division by a size of 0 traps. A directory, which the code takes for the item of a file, is not followed.
unfoldable pub read_file :
    Disk → Drive → FatPrivate → FatFile → ℕ → ℕ → Run ((ℤ × List ℕ) × FatFile)
unfolding read_members get_first_cluster
read_file disk drive private file size nmemb = elim file.item [
  | directory_item pointer sector offset ↦ fault
  | file_item pointer sector offset ↦ elim pointer [
    | none ↦ fault
    | some item ↦
        let total_to_read = min (size * nmemb % 2 ^ 32) (filesize item - file.pos) in
        let items_to_read = total_to_read / size in
        let read =
          (read_members items_to_read disk drive private (get_first_cluster item) file.pos size
              (pos 0)
            >>= λ (res, bytes). ok (
                if is_negative res then ((res, bytes), file) else (
                  (pos items_to_read, bytes),
                  record file { pos = file.pos + items_to_read * size },
                ))) in
        if size == 0 then fault else (if items_to_read == 0 then ok ((pos 0, []), file) else read)
  ]
]

-- SEEK_SET, SEEK_CUR and SEEK_END are 0, 1 and 2.
unfoldable pub seek_file : FatFile → ℕ → ℕ → Run (ℤ × FatFile)
seek_file file offset seek_mode = elim file.item [
  | directory_item pointer sector offset' ↦ ok (neg e_invarg, file)
  | file_item pointer sector offset' ↦ elim pointer [
    | none ↦ fault
    | some item ↦ ok (
        if leb (filesize item) offset
        then (neg e_io, file)
        else (if seek_mode == 0
            then (pos 0, record file { pos = offset })
            else (if seek_mode == 1
                then (pos 0, record file { pos = (file.pos + offset) % 2 ^ 32 })
                else (if seek_mode == 2 then (neg e_unimp, file) else (neg e_invarg, file)))))
  ]
]

-- The status, the flags and the size.
unfoldable pub stat_file : FatFile → Run (ℤ × ℕ × ℕ)
stat_file file = elim file.item [
  | directory_item pointer sector offset ↦ ok (neg e_invarg, 0, 0)
  | file_item pointer sector offset ↦ elim pointer [
    | none ↦ fault
    | some item ↦ ok (pos 0, (if is_read_only item then 1 else 0), filesize item)
  ]
]

-- The root directory, whose size the caller's header gives, and where the clusters begin.
unfoldable pub get_root_directory :
    Disk → Drive → FatPrivate → ℕ → Bool → Run (ℤ × FatDirectory × FatPrivate)
get_root_directory disk drive private root_dir_entries granted = do
  let sector_pos = private.fat_copies * private.sectors_per_fat + private.reserved_sectors
  let size = root_dir_entries * 32
  let read =
      (diskstreamer_read disk drive (sector_pos * 512) size >>= λ (res, position, bytes). ok (
        if is_ok res
        then (
          pos 0,
          record { items = bytes; total = pos root_dir_entries; sector_pos = sector_pos },
          record private { ending_sector_pos = sector_pos + (size + 511) / 512 },
        )
        else (neg e_io, nothing, private)))
  if granted then read else ok (neg e_nomem, nothing, private)
  where
    nothing : FatDirectory
    nothing = record { items = []; total = pos 0; sector_pos = 0 }

-- `struct fat_h` of its bytes.
abbrev pub header_of : List ℕ → FatPrivate
header_of bytes = record {
  reserved_sectors = word (drop 14 bytes);
  fat_copies = byte_at bytes 16;
  sectors_per_fat = word (drop 22 bytes);
  sectors_per_cluster = byte_at bytes 13;
  number_of_sectors = word (drop 19 bytes);
  sectors_big = word (drop 32 bytes) + 65536 * word (drop 34 bytes);
  ending_sector_pos = 0;
}

-- What fat16_resolve gives for a disk whose streams and private data are there: a status, and what it keeps. `granted`
-- says whether kzalloc gives the root directory.
unfoldable pub resolve : Disk → Drive → Bool → Run (ℤ × Option (FatDirectory × FatPrivate))
unfolding get_root_directory
resolve disk drive granted = do
  (res, position, header) ← diskstreamer_read disk drive 0 62
  let private = header_of header
  let root =
      (get_root_directory disk drive private (word (drop 17 header)) granted
        >>= λ (res', directory, private').
            ok (if is_ok res' then (pos 0, some (directory, private')) else (neg e_io, none)))
  if not (is_ok res)
      then ok (neg e_io, none)
      else (if byte_at header 38 == 41 then root else ok (neg e_fsnotus, none))
