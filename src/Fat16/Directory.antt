-- ===== src/Fat16/Directory.antt =====
-- The directories of ViOS64Bit/src/fs/fat/fat16.c. An item of a directory is its 32 bytes, a directory the bytes of
-- its items. kfree does nothing, so that a directory that is freed can still be read; `left` is how many calls of
-- kzalloc succeed.
use vi_os.Prelude.{
  ℕ, zero, suc, ◌+◌, ◌*◌, ◌/◌, ◌%◌, Bool, true, false, ◌&&◌, ◌||◌, not, List, [], ◌∷◌, ◌++◌, Option,
  none, some, ◌==◌, if◌then◌else◌, length, drop, take, replicate, get_or, Run, ok, fault, ◌>>=◌, ℤ,
  pos, negsuc, neg,
}
use vi_os.Config.{e_io, max_path}
use vi_os.CString.{istrncmp}
use vi_os.Streamer.{Disk, Drive, diskstreamer_read}
use vi_os.Files.{is_ok}
use vi_os.Fat16.{FatPrivate, word, cluster_to_sector, read_internal}

-- `struct fat_directory`. The number of items is negative where they could not be counted.
pub record FatDirectory : Type 0 where
  pub items : List ℕ
  pub total : ℤ
  pub sector_pos : ℕ

-- `struct fat_item`: its pointer, which may be NULL, and where its entry stands.
pub data FatItem : Type 0 where
  file_item : Option (List ℕ) → ℕ → ℕ → FatItem
  directory_item : Option FatDirectory → ℕ → ℕ → FatItem

-- The state: the disk's contents, the root directory in memory, and the allocations left.
pub record Volume : Type 0 where
  pub drive : Drive
  pub root_directory : FatDirectory
  pub left : ℕ

abbrev pub byte_at : List ℕ → ℕ → ℕ
byte_at bytes i = get_or bytes i 0

abbrev pub is_subdirectory : List ℕ → Bool
is_subdirectory item = byte_at item 11 / 16 % 2 == 1

abbrev pub is_read_only : List ℕ → Bool
is_read_only item = byte_at item 11 % 2 == 1

abbrev pub filesize : List ℕ → ℕ
filesize item = word (drop 28 item) + 65536 * word (drop 30 item)

unfoldable pub get_first_cluster : List ℕ → ℕ
get_first_cluster item = word (drop 20 item) * 65536 + word (drop 26 item)

-- `directory->item[i]`
abbrev pub item_at : List ℕ → ℕ → Run (List ℕ)
item_at items i =
    let item = take 32 (drop (32 * i) items) in if length item == 32 then ok item else fault

-- What kzalloc and a read of the bytes leave.
abbrev pub padded : List ℕ → ℕ → List ℕ
padded bytes n = take n (bytes ++ replicate n 0)

unfoldable pub to_proper_string : List ℕ → List ℕ
to_proper_string [] = []
to_proper_string (c ∷ field) =
    let rest = to_proper_string field in if c == 0 || c == 32 then [] else c ∷ rest

unfoldable pub get_full_relative_filename : List ℕ → List ℕ
unfolding to_proper_string
get_full_relative_filename item =
    let ext = take 3 (drop 8 item) in
    let dot_ext =
      if not (byte_at item 8 == 0) && not (byte_at item 8 == 32)
      then 46 ∷ to_proper_string ext
      else [] in
    padded (to_proper_string (take 8 item) ++ dot_ext) max_path

-- The loop that counts items, at most `rounds` of them.
unfoldable pub count_items : ℕ → Disk → Drive → ℕ → ℕ → Run ℤ
count_items zero disk drive position i = fault
count_items (suc rounds) disk drive position i = do
  (res, position', item) ← diskstreamer_read disk drive position 32
  let skipped = count_items rounds disk drive (position + 32) i
  let counted = count_items rounds disk drive (position + 32) (i + 1)
  if not (is_ok res)
      then ok (neg e_io)
      else (if byte_at item 0 == 0
          then ok (pos i)
          else (if byte_at item 0 == 229 then skipped else counted))

unfoldable pub get_total_items_for_directory : ℕ → Disk → Drive → ℕ → Run ℤ
unfolding count_items
get_total_items_for_directory rounds disk drive directory_start_sector =
    count_items rounds disk drive (directory_start_sector * 512) 0

abbrev pub alloc : Volume → Option Volume
alloc volume = elim volume.left [ zero ↦ none | suc left ↦ some (record volume { left = left }) ]

-- The number of bytes of the items; a negative number makes a size that no heap has.
abbrev pub items_size : ℤ → Option ℕ
items_size (pos n) = some (n * 32)
items_size (negsuc n) = none

unfoldable pub clone_directory_item : Volume → List ℕ → Option (List ℕ) × Volume
clone_directory_item volume item = elim (alloc volume) [
  | none ↦ (none, volume)
  | some volume' ↦ (some item, volume')
]

-- The loop over the entries from `i` on: the index of the entry with the name.
unfoldable pub find_index : ℕ → List ℕ → ℕ → List ℕ → Run (Option ℕ)
unfolding get_full_relative_filename
find_index zero items i name = ok none
find_index (suc entries) items i name = do
  item ← item_at items i
  let rest = find_index entries items (i + 1) name
  let compared =
      (istrncmp max_path (get_full_relative_filename item) name >>= λ difference.
      if is_ok difference then ok (some i) else rest)
  if byte_at item 0 == 0 then ok none else (if byte_at item 0 == 229 then rest else compared)

abbrev pub entries_of : FatDirectory → ℕ
entries_of directory = elim directory.total [ pos n ↦ n | negsuc n ↦ 0 ]

module _ (rounds : ℕ) (disk : Disk) (private : FatPrivate) where
  -- The items of the directory of `total` items, which begins at the cluster. The number of bytes that
  -- fat16_read_internal returns is taken for an error, and the directory freed.
  unfoldable pub load_items : Volume → ℕ → ℤ → Run (FatDirectory × Volume)
  load_items volume cluster total = elim (items_size total) [
    | none ↦ ok (record { items = []; total = total; sector_pos = 0 }, volume)
    | some size ↦ elim (alloc volume) [
      | none ↦ ok (record { items = []; total = total; sector_pos = 0 }, volume)
      | some volume' ↦ do
        (res, bytes) ← read_internal disk volume'.drive private cluster 0 size
        ok (record { items = padded bytes size; total = total; sector_pos = 0 }, volume')
    ]
  ]

  -- An item that is no directory gives NULL.
  unfoldable pub load_fat_directory : Volume → List ℕ → Run (Option FatDirectory × Volume)
  unfolding get_first_cluster get_total_items_for_directory load_items
  load_fat_directory volume item =
      let cluster = get_first_cluster item in
      let loaded : Run (Option FatDirectory × Volume) = (elim (alloc volume) [
        | none ↦ ok (none, volume)
        | some volume' ↦ do
          total ←
              get_total_items_for_directory rounds disk volume'.drive
                (cluster_to_sector private cluster)
          (directory, volume'') ← load_items volume' cluster total
          ok (some directory, volume'')
      ]) in
      if is_subdirectory item then loaded else ok (none, volume)

  unfoldable pub new_fat_item_for_directory_item :
      Volume → List ℕ → ℕ → ℕ → Run (Option FatItem × Volume)
  unfolding load_fat_directory clone_directory_item
  new_fat_item_for_directory_item volume item directory_sector directory_offset =
      elim (alloc volume) [
        | none ↦ ok (none, volume)
        | some volume' ↦
            let loaded =
              (load_fat_directory volume' item >>= λ (directory, volume'').
              ok (some (directory_item directory directory_sector directory_offset), volume'')) in
            let (cloned, volume'') = clone_directory_item volume' item in
            if is_subdirectory item
            then loaded
            else ok (some (file_item cloned directory_sector directory_offset), volume'')
      ]

  -- The item behind the name that is found in the entry `i`: the entry is read again.
  unfoldable pub reread_item : Volume → FatDirectory → ℕ → Run (Option FatItem × Volume)
  unfolding new_fat_item_for_directory_item
  reread_item volume directory i =
      let sector = directory.sector_pos + 32 * i / 512 in
      elim (alloc volume) [
        | none ↦ ok (none, volume)
        | some volume' ↦ do
          (res, position, fresh_item) ←
              diskstreamer_read disk volume'.drive (sector * 512 + 32 * i % 512) 32
          new_fat_item_for_directory_item volume' (padded fresh_item 32) sector (32 * i % 512)
      ]

  unfoldable pub find_item_in_directory :
      Volume → FatDirectory → List ℕ → Run (Option FatItem × Volume)
  unfolding find_index reread_item
  find_item_in_directory volume directory name = do
    found ← find_index (entries_of directory) directory.items 0 name
    elim found [ none ↦ ok (none, volume) | some i ↦ reread_item volume directory i ]

  -- The loop over the parts of a path behind the first. A part in a directory that has no such item is looked for
  -- through NULL.
  unfoldable pub walk : Volume → Option FatItem → List (List ℕ) → Run (Option FatItem × Volume)
  unfolding find_item_in_directory
  walk volume current_item [] = ok (current_item, volume)
  walk volume current_item (part ∷ next_parts) = elim current_item [
    | none ↦ fault
    | some item ↦ elim item [
      | file_item pointer sector offset ↦ ok (none, volume)
      | directory_item pointer sector offset ↦ elim pointer [
        | none ↦ fault
        | some directory ↦ do
          (tmp_item, volume') ← find_item_in_directory volume directory part
          walk volume' tmp_item next_parts
      ]
    ]
  ]

  unfoldable pub get_directory_entry : Volume → List (List ℕ) → Run (Option FatItem × Volume)
  unfolding find_item_in_directory walk
  get_directory_entry volume [] = fault
  get_directory_entry volume (part ∷ next_parts) = do
    (root_item, volume') ← find_item_in_directory volume volume.root_directory part
    if is_none root_item then ok (none, volume') else walk volume' root_item next_parts
    where
      is_none : Option FatItem → Bool
      is_none none = true
      is_none (some item) = false
