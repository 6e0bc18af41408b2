-- ===== src/Fat16.antt =====
-- The file allocation table and the clusters of ViOS64Bit/src/fs/fat/fat16.c, over the byte stream of a
-- disk. Each stream is there and set to a position before it is used, so that no position is kept. The sectors of
-- a disk have 512 bytes; positions are `int`s that do not overflow.
pub mod Chain
pub mod Contents
pub mod Directory
pub mod Free
pub mod NextEntries
pub mod Read
pub mod Rewrite
pub mod Subdirectories
pub mod Table
pub mod Whole
pub mod Writing
pub mod OpenFile
mod Tests
use vi_os.Prelude.{
  ℕ, zero, suc, ◌+◌, ◌-◌, ◌*◌, ◌/◌, ◌%◌, Bool, true, false, ◌&&◌, ◌||◌, not, List, [], ◌∷◌, ◌++◌,
  Option, none, some, ltb, leb, ◌==◌, if◌then◌else◌, length, drop, take, Run, ok, fault, ◌>>=◌, ℤ,
  pos, negsuc, neg, is_negative, min, to_int32, quot,
}
use vi_os.Config.{e_io, e_nomem, e_outofrange}
use vi_os.Streamer.{Disk, Drive, diskstreamer_read, diskstreamer_write}

-- What `struct fat_private` and the header say of the layout of the disk.
pub record FatPrivate : Type 0 where
  pub reserved_sectors : ℕ
  pub fat_copies : ℕ
  pub sectors_per_fat : ℕ
  pub sectors_per_cluster : ℕ
  pub number_of_sectors : ℕ
  pub sectors_big : ℕ
  pub ending_sector_pos : ℕ

-- A conversion to `uint16_t`.
abbrev pub to_u16 : ℤ → ℕ
to_u16 (pos n) = n % 65536
to_u16 (negsuc n) = 65535 - n % 65536

-- A `uint16_t` of two bytes, 0 before they are read.
abbrev pub word : List ℕ → ℕ
word [] = 0
word (a ∷ []) = a
word (a ∷ b ∷ _) = a + 256 * b

abbrev pub word_bytes : ℕ → List ℕ
word_bytes n = n % 256 ∷ n / 256 % 256 ∷ []

abbrev pub cluster_bytes : FatPrivate → ℕ
cluster_bytes private = private.sectors_per_cluster * 512

-- Clusters of data begin with 2. The sector of the clusters 0 and 1, which no chain leads to, is negative only where the
-- root directory ends before the sector `2 * sectors_per_cluster`; such a disk is not modelled.
unfoldable pub cluster_to_sector : FatPrivate → ℕ → ℕ
cluster_to_sector private cluster =
    private.ending_sector_pos
    + cluster * private.sectors_per_cluster
    - 2 * private.sectors_per_cluster

abbrev pub entry_position : FatPrivate → ℕ → ℕ
entry_position private cluster = private.reserved_sectors * 512 + cluster * 2

unfoldable pub get_fat_entry : Disk → Drive → FatPrivate → ℕ → Run ℤ
get_fat_entry disk drive private cluster = do
  (res, position, result) ← diskstreamer_read disk drive (entry_position private cluster) 2
  ok (if is_negative res then res else pos (word result))

abbrev pub end_of_chain : ℕ → Bool
end_of_chain entry = leb 65528 entry

-- VIOS_FAT16_BAD_SECTOR, the reserved entries and the unused one.
abbrev pub not_a_link : ℕ → Bool
not_a_link entry = entry == 4087 || ((leb 65520 entry && leb entry 65526) || entry == 0)

-- The loop over the clusters ahead, by a function that reads the table.
unfoldable pub follow : (ℕ → Run ℤ) → ℕ → ℕ → Run ℤ
follow get_entry zero cluster_to_use = ok (pos cluster_to_use)
follow get_entry (suc clusters_ahead) cluster_to_use = do
  read ← get_entry cluster_to_use
  let rest = follow get_entry clusters_ahead (to_u16 read)
  if end_of_chain (to_u16 read)
      then ok (neg e_outofrange)
      else (if not_a_link (to_u16 read) then ok (neg e_io) else rest)

-- A division by 0 traps.
unfoldable pub get_cluster_for_offset : Disk → Drive → FatPrivate → ℕ → ℕ → Run ℤ
get_cluster_for_offset disk drive private starting_cluster offset =
    if cluster_bytes private == 0
    then fault
    else follow (get_fat_entry disk drive private) (offset / cluster_bytes private) starting_cluster

-- The status or the number of bytes read, and the bytes.
unfoldable pub read_loop : ℕ → Disk → Drive → FatPrivate → ℕ → ℕ → ℕ → ℕ → Run (ℤ × List ℕ)
read_loop zero disk drive private cluster starting_offset total bytes_read = fault
read_loop (suc rounds) disk drive private cluster starting_offset total bytes_read =
    let rest = (do
      res ← get_cluster_for_offset disk drive private cluster starting_offset
      let size = cluster_bytes private
      let offset_from_cluster = starting_offset % size
      let starting_pos = cluster_to_sector private (to_u16 res) * 512 + offset_from_cluster
      let total_to_read = min (size - offset_from_cluster) total
      let more =
          read_loop rounds disk drive private cluster (starting_offset + total_to_read)
            (total - total_to_read) (bytes_read + total_to_read)
      let transfer = do
        (res, position, out) ← diskstreamer_read disk drive starting_pos total_to_read
        let next = more >>= λ (res, out'). ok (res, out ++ out')
        if is_negative res then ok (res, out) else next
      if is_negative res then ok (res, []) else transfer) in
    if total == 0 then ok (pos bytes_read, []) else rest

-- Each round reads a byte at least.
unfoldable pub read_internal : Disk → Drive → FatPrivate → ℕ → ℕ → ℕ → Run (ℤ × List ℕ)
unfolding read_loop
read_internal disk drive private starting_cluster offset total =
    read_loop (total + 1) disk drive private (starting_cluster % 65536) offset total 0

-- The loop over the copies of the table behind the first.
unfoldable pub set_copies :
    ℕ → ℕ → Disk → Drive → FatPrivate → (ℕ → List ℕ) → ℕ → ℕ → Run (ℤ × Drive)
set_copies zero i disk drive private stack fat_table_position value = ok (pos 0, drive)
set_copies (suc rounds) i disk drive private stack fat_table_position value = do
  (res, position, drive) ←
      diskstreamer_write disk drive stack (fat_table_position + i * private.sectors_per_fat * 512)
        (word_bytes value)
  let rest = set_copies rounds (i + 1) disk drive private stack fat_table_position value
  if is_negative res then ok (res, drive) else rest

-- `stack` is what the buffer of the writer holds before.
unfoldable pub set_fat_entry : Disk → Drive → FatPrivate → (ℕ → List ℕ) → ℕ → ℕ → Run (ℤ × Drive)
unfolding set_copies
set_fat_entry disk drive private stack cluster value = do
  (res, position, drive) ←
      diskstreamer_write disk drive stack (entry_position private cluster) (word_bytes value)
  let copies =
      set_copies (private.fat_copies - 1) 1 disk drive private stack
        (entry_position private cluster) value
  if is_negative res then ok (res, drive) else copies

abbrev pub is_unused : ℤ → Bool
is_unused (pos n) = n == 0
is_unused (negsuc n) = false

-- The search for an unused entry, from `cluster` on.
unfoldable pub find_free : (ℕ → Run ℤ) → ℕ → ℕ → Run ℤ
find_free get_entry zero cluster = ok (neg e_nomem)
find_free get_entry (suc rounds) cluster = do
  entry ← get_entry cluster
  let rest = find_free get_entry rounds (cluster + 1)
  if is_unused entry then ok (pos cluster) else rest

-- The number of sectors, and of clusters in them, as `int`s.
unfoldable pub total_sectors : FatPrivate → ℤ
unfolding to_int32
total_sectors private =
    if private.number_of_sectors == 0
    then to_int32 private.sectors_big
    else pos private.number_of_sectors

unfoldable pub total_clusters : FatPrivate → ℤ
unfolding total_sectors
total_clusters private = quot (total_sectors private) private.sectors_per_cluster

-- How often the loop from cluster 2 on runs.
abbrev pub rounds_from_two : ℤ → ℕ
rounds_from_two (pos n) = n - 2
rounds_from_two (negsuc _) = 0

-- A division by 0 traps.
unfoldable pub find_free_cluster : Disk → Drive → FatPrivate → Run ℤ
unfolding find_free total_clusters
find_free_cluster disk drive private =
    if private.sectors_per_cluster == 0
    then fault
    else find_free (get_fat_entry disk drive private) (rounds_from_two (total_clusters private)) 2

-- A `previous_cluster` of `none` is negative.
unfoldable pub allocate_cluster :
    Disk → Drive → FatPrivate → (ℕ → List ℕ) → Option ℕ → Run (ℤ × Drive)
allocate_cluster disk drive private stack previous_cluster = do
  found ← find_free_cluster disk drive private
  elim found [ negsuc e ↦ ok (negsuc e, drive) | pos new_cluster ↦ mark new_cluster ]
  where
    link : ℕ → Option ℕ → Drive → Run (ℤ × Drive)
    link new_cluster none drive = ok (pos new_cluster, drive)
    link new_cluster (some previous) drive = do
      (res, drive) ← set_fat_entry disk drive private stack previous new_cluster
      let undone =
          set_fat_entry disk drive private stack new_cluster 0 >>= λ (_, drive). ok (res, drive)
      if is_negative res then undone else ok (pos new_cluster, drive)

    mark : ℕ → Run (ℤ × Drive)
    mark new_cluster = do
      (res, drive) ← set_fat_entry disk drive private stack new_cluster 65535
      if is_negative res then ok (res, drive) else link new_cluster previous_cluster drive

-- The loop that frees a chain, at most `rounds` entries of it.
unfoldable pub free_chain : ℕ → Disk → Drive → FatPrivate → (ℕ → List ℕ) → ℕ → ℤ → Run (ℤ × Drive)
free_chain zero disk drive private stack current_cluster res = fault
free_chain (suc rounds) disk drive private stack current_cluster res =
    let unused = λ (n : ℕ).
      (set_fat_entry disk drive private stack current_cluster 0 >>= λ (res, drive').
      let next = free_chain rounds disk drive' private stack n res in
      if is_negative res then ok (res, drive') else next) in
    let body =
      (get_fat_entry disk drive private current_cluster >>= λ next_cluster. elim next_cluster [
        | pos n ↦ unused n
        | negsuc n ↦ ok (negsuc n, drive)
      ]) in
    if leb 2 current_cluster && ltb current_cluster 65528 then body else ok (res, drive)

unfoldable pub free_cluster_chain :
    ℕ → Disk → Drive → FatPrivate → (ℕ → List ℕ) → ℕ → Run (ℤ × Drive)
unfolding free_chain
free_cluster_chain rounds disk drive private stack starting_cluster =
    if starting_cluster == 0
    then ok (pos 0, drive)
    else free_chain rounds disk drive private stack starting_cluster (pos 0)
