-- ===== src/Fat16/Writing.antt =====
-- Writing and truncating files of ViOS64Bit/src/fs/fat/fat16.c.
use vi_os.Prelude.{
  ℕ, zero, suc, ◌+◌, ◌-◌, ◌*◌, ◌/◌, ◌%◌, ◌^◌, Bool, false, ◌&&◌, List, [], ◌∷◌, ◌++◌, none, some,
  ltb, leb, ◌==◌, if◌then◌else◌, length, drop, take, Run, ok, fault, ◌>>=◌, ℤ, pos, negsuc, neg,
  is_negative, min,
}
use vi_os.Config.{e_invarg, e_rdonly}
use vi_os.Streamer.{Disk, Drive, diskstreamer_write}
use vi_os.Fat16.{
  FatPrivate, word_bytes, cluster_bytes, cluster_to_sector, get_fat_entry, set_fat_entry,
  get_cluster_for_offset, allocate_cluster, free_cluster_chain,
}
use vi_os.Fat16.Directory.{
  FatItem, file_item, directory_item, is_read_only, filesize, get_first_cluster,
}

-- `struct fat_file_descriptor`
pub record FatFile : Type 0 where
  pub item : FatItem
  pub pos : ℕ

-- An item with other bytes from `i` on.
abbrev pub patch : List ℕ → ℕ → List ℕ → List ℕ
patch item i bytes = take i item ++ (bytes ++ drop (i + length bytes) item)

abbrev pub with_cluster : List ℕ → ℕ → List ℕ
with_cluster item cluster =
    patch (patch item 26 (word_bytes (cluster % 65536))) 20 (word_bytes (cluster / 65536 % 65536))

abbrev pub with_size : List ℕ → ℕ → List ℕ
with_size item size = patch item 28 (word_bytes (size % 65536) ++ word_bytes (size / 65536 % 65536))

-- The sector of a cluster whose number may be the negative status of a read of the table.
unfoldable pub sector_of : FatPrivate → ℤ → Run ℕ
unfolding cluster_to_sector
sector_of private (pos cluster) = ok (cluster_to_sector private cluster)
sector_of private (negsuc e) =
    let below = (e + 3) * private.sectors_per_cluster in
    if leb below private.ending_sector_pos then ok (private.ending_sector_pos - below) else fault

abbrev pub is_end : ℤ → Bool
is_end (pos cluster) = leb 65528 cluster
is_end (negsuc e) = false

-- What get_fat_entry and set_fat_entry get for the number of a cluster: a negative one is not followed further.
abbrev pub as_cluster : ℤ → Run ℕ
as_cluster (pos cluster) = ok cluster
as_cluster (negsuc e) = fault

-- A status as a `uint32_t`.
abbrev pub to_u32 : ℤ → ℕ
to_u32 (pos n) = n % 2 ^ 32
to_u32 (negsuc n) = 2 ^ 32 - 1 - n % 2 ^ 32

-- The bytes of the call; a total that is negative as an `int` writes none.
abbrev pub bytes_of : List ℕ → ℕ → ℕ → List ℕ
bytes_of bytes size nmemb =
    let total = size * nmemb % 2 ^ 32 in if leb (2 ^ 31) total then [] else take total bytes

module _ (disk : Disk) (private : FatPrivate) (stack : ℕ → List ℕ) where
  unfoldable pub update_directory_entry : Drive → List ℕ → ℕ → ℕ → Run (ℤ × Drive)
  update_directory_entry drive item entry_sector entry_offset = do
    (res, position, drive') ←
        diskstreamer_write disk drive stack (entry_sector * 512 + entry_offset) item
    ok (res, drive')

  -- The cluster behind `cluster`, a new one at the end of the chain; only a failed allocation ends the loop.
  unfoldable pub next_cluster : Drive → ℤ → Run (Bool × ℤ × Drive)
  next_cluster drive cluster = do
    number ← as_cluster cluster
    next ← get_fat_entry disk drive private number
    let allocated =
        (allocate_cluster disk drive private stack (some number) >>= λ (new_cluster, drive').
        ok (is_negative new_cluster, new_cluster, drive'))
    if is_end next then allocated else ok (false, next, drive)

  -- The loop over the clusters, with the bytes that are left to write.
  unfoldable pub write_loop : ℕ → Drive → ℤ → ℕ → List ℕ → ℕ → Run (ℤ × Drive)
  unfolding next_cluster sector_of
  write_loop zero drive cluster offset_in_cluster bytes written = fault
  write_loop (suc rounds) drive cluster offset_in_cluster [] written = ok (pos written, drive)
  write_loop (suc rounds) drive cluster offset_in_cluster (b ∷ bytes) written = do
    sector ← sector_of private cluster
    let to_write = min (cluster_bytes private - offset_in_cluster) (length (b ∷ bytes))
    (res, position, drive') ←
        diskstreamer_write disk drive stack (sector * 512 + offset_in_cluster)
          (take to_write (b ∷ bytes))
    let rest = λ (next : ℤ) (drive'' : Drive).
        write_loop rounds drive'' next 0 (drop to_write (b ∷ bytes)) (written + to_write)
    let linked =
        (next_cluster drive' cluster >>= λ (stops, next, drive'').
        if stops then ok (next, drive'') else rest next drive'')
    let behind =
        if to_write == length (b ∷ bytes) then ok (pos (written + to_write), drive') else linked
    if is_negative res then ok (res, drive') else behind

  -- Each round writes a byte at least.
  unfoldable pub write_internal : Drive → ℕ → ℕ → List ℕ → Run (ℤ × Drive)
  unfolding write_loop
  write_internal drive starting_cluster offset bytes = do
    cluster ← get_cluster_for_offset disk drive private (starting_cluster % 65536) offset
    let written =
        write_loop (length bytes + 1) drive cluster (offset % cluster_bytes private) bytes 0
    if is_negative cluster then ok (cluster, drive) else written

  -- The result of the write to the disk is not tested.
  unfoldable pub extend_file : Drive → List ℕ → ℕ → ℕ → ℕ → Run (List ℕ × Drive)
  extend_file drive item directory_sector directory_offset new_size =
      let extended = with_size item new_size in
      let written =
        (diskstreamer_write disk drive stack (directory_sector * 512 + directory_offset) extended
          >>= λ (res, position, drive'). ok (extended, drive')) in
      if leb new_size (filesize item) then ok (item, drive) else written

  -- fat16_write once there is a first cluster.
  unfoldable pub write_from :
      Drive → FatFile → List ℕ → ℕ → ℕ → ℕ → List ℕ → ℕ → Run (ℤ × Drive × FatFile)
  unfolding write_internal extend_file
  write_from drive file item directory_sector directory_offset starting_cluster bytes size = do
    (res, drive') ← write_internal drive starting_cluster file.pos bytes
    elim res [
      | negsuc e ↦ ok (
        negsuc e,
        drive',
        record file { item = file_item (some item) directory_sector directory_offset },
      )
      | pos written ↦ do
        let moved = (file.pos + written) % 2 ^ 32
        (item', drive'') ← extend_file drive' item directory_sector directory_offset moved
        let file' : FatFile = record {
          item = file_item (some item') directory_sector directory_offset;
          pos = moved;
        }
        ok (pos (if size == 0 then written else written / size), drive'', file')
    ]

  -- A failed allocation of the first cluster is not seen, since the number is unsigned.
  unfoldable pub write_file : Drive → FatFile → List ℕ → ℕ → ℕ → Run (ℤ × Drive × FatFile)
  unfolding write_from get_first_cluster
  write_file drive file bytes size nmemb = elim file.item [
    | directory_item pointer sector offset ↦ ok (neg e_invarg, drive, file)
    | file_item pointer sector offset ↦ elim pointer [
      | none ↦ fault
      | some item ↦
          let starting_cluster = get_first_cluster item in
          let given = bytes_of bytes size nmemb in
          let first =
            (allocate_cluster disk drive private stack none >>= λ (cluster, drive').
            write_from drive' file (with_cluster item (to_u32 cluster)) sector offset
              (to_u32 cluster) given size) in
          let allocated =
            if starting_cluster == 0
            then first
            else write_from drive file item sector offset starting_cluster given size in
          if is_read_only item then ok (neg e_rdonly, drive, file) else allocated
    ]
  ]

  -- The loop to the last cluster that stays.
  unfoldable pub kept_cluster : ℕ → Drive → ℕ → Run ℤ
  kept_cluster zero drive cluster = ok (pos cluster)
  kept_cluster (suc clusters) drive cluster =
      let followed =
        (get_fat_entry disk drive private cluster >>= λ next. elim next [
          | negsuc e ↦ ok (negsuc e)
          | pos n ↦ kept_cluster clusters drive n
        ]) in
      if leb 2 cluster then followed else ok (pos cluster)

  -- What follows the last cluster that stays is freed, at most `rounds` clusters; a failed read or write is not tested.
  unfoldable pub cut_behind : ℕ → Drive → ℕ → Run Drive
  cut_behind rounds drive cluster =
      let behind = λ (next : ℕ).
        (if leb 2 next && ltb next 65528
          then (free_cluster_chain rounds disk drive private stack next >>= λ (res, drive').
              ok drive')
          else ok drive) in
      let cut = (do
        next ← get_fat_entry disk drive private cluster
        drive' ← elim next [ pos n ↦ behind n | negsuc e ↦ ok drive ]
        (res, drive'') ← set_fat_entry disk drive' private stack cluster 65535
        ok drive'') in
      if leb 2 cluster then cut else ok drive

  -- The entry of the directory on the disk stays as it is.
  unfoldable pub truncate : ℕ → Drive → FatFile → ℕ → Run (ℤ × Drive × FatFile)
  unfolding kept_cluster cut_behind get_first_cluster
  truncate rounds drive file size = elim file.item [
    | directory_item pointer sector offset ↦ ok (neg e_invarg, drive, file)
    | file_item pointer sector offset ↦ elim pointer [
      | none ↦ fault
      | some item ↦
          let freed =
            (free_cluster_chain rounds disk drive private stack (get_first_cluster item)
              >>= λ (res, drive'). ok (
                pos 0,
                drive',
                record {
                  item = file_item (some (with_size (with_cluster item 0) 0)) sector offset;
                  pos = 0;
                },
              )) in
          let sized : FatFile = record {
            item = file_item (some (with_size item size)) sector offset;
            pos = if ltb size file.pos then size else file.pos;
          } in
          let clusters_needed =
            (size + cluster_bytes private - 1) % 2 ^ 32 / cluster_bytes private in
          let shortened =
            (kept_cluster (clusters_needed - 1) drive (get_first_cluster item) >>= λ cluster.
            elim cluster [
              | negsuc e ↦ ok (negsuc e, drive, file)
              | pos kept ↦ cut_behind rounds drive kept >>= λ drive'. ok (pos 0, drive', sized)
            ]) in
          let to_size = if cluster_bytes private == 0 then fault else shortened in
          if is_read_only item
          then ok (neg e_rdonly, drive, file)
          else (if size == 0 then freed else to_size)
    ]
  ]
