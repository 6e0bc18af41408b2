-- ===== src/Streamer.antt =====
-- The byte stream on a disk of ViOS64Bit/src/disk/streamer.c, with disk_read_block and disk_write_block
-- of ViOS64Bit/src/disk/disk.c below it. Positions and totals are `int`s that are not negative and do
-- not overflow.
pub mod Bytes
pub mod Read
pub mod Sector
pub mod Tail
pub mod Write
mod Tests
use vi_os.Prelude.{
  ℕ, zero, suc, ◌+◌, ◌-◌, ◌*◌, ◌/◌, ◌%◌, Bool, true, false, ◌&&◌, ◌||◌, not, List, [], ◌∷◌, ◌++◌,
  Option, none, some, ltb, leb, ◌==◌, if◌then◌else◌, length, drop, take, Run, ok, fault, ◌>>=◌,
  load, store, ℤ, pos, neg, add64,
}
use vi_os.Config.{e_io}

-- `struct disk`, a window on a drive.
pub record Disk : Type 0 where
  pub starting_lba : ℕ
  pub ending_lba : ℕ

-- What the ATA drive behind disk_read_sector and disk_write_sector holds: the bytes of a sector, and
-- whether the drive sets its error bit for it.
pub record Drive : Type 0 where
  pub sectors : ℕ → List ℕ
  pub bad : ℕ → Bool

abbrev pub sector_size : ℕ
sector_size = 512

unfoldable pub crosses : Disk → ℕ → ℕ → Bool
crosses idisk lba total =
    ltb idisk.ending_lba (add64 (add64 idisk.starting_lba lba) total)
    && (not (idisk.starting_lba == 0) && not (idisk.ending_lba == 0))

-- One sector; `none` is the status -EIO.
unfoldable pub disk_read_block : Disk → Drive → ℕ → Option (List ℕ)
unfolding crosses
disk_read_block idisk drive lba =
    if crosses idisk lba 1
    then none
    else (if drive.bad (add64 idisk.starting_lba lba)
        then none
        else some (drive.sectors (add64 idisk.starting_lba lba)))

unfoldable pub disk_write_block : Disk → Drive → ℕ → List ℕ → Option Drive
unfolding crosses
disk_write_block idisk drive lba buf =
    let absolute_lba = add64 idisk.starting_lba lba in
    if crosses idisk lba 1
    then none
    else (if drive.bad absolute_lba
        then none
        else some
            (record drive { sectors = λ l. if l == absolute_lba then buf else drive.sectors l }))

-- The loop that copies `total` bytes of the buffer out.
unfoldable pub copy_out : List ℕ → ℕ → ℕ → Run (List ℕ)
copy_out buf i zero = ok []
copy_out buf i (suc total) =
    load buf i >>= λ b. (copy_out buf (i + 1) total >>= λ out. ok (b ∷ out))

-- The loop that copies bytes into the buffer.
unfoldable pub copy_in : List ℕ → ℕ → List ℕ → Run (List ℕ)
copy_in buf i [] = ok buf
copy_in buf i (b ∷ input) = store buf i b >>= λ buf'. copy_in buf' (i + 1) input

abbrev pub overflows : ℕ → ℕ → Bool
overflows offset total = leb 512 (offset + total)

-- How much of the transfer is in the first sector.
abbrev pub part : ℕ → ℕ → ℕ
part offset total = if overflows offset total then total - (offset + total - 512) else total

-- The status, the position afterwards and the bytes given out. `rounds` bounds the depth of the
-- recursion.
unfoldable pub read_rounds : ℕ → Disk → Drive → ℕ → ℕ → Run (ℤ × ℕ × List ℕ)
unfolding disk_read_block copy_out
read_rounds zero disk drive position total = fault
read_rounds (suc rounds) disk drive position total =
    let offset = position % 512 in
    let total_to_read = part offset total in
    let rest = read_rounds rounds disk drive (position + total_to_read) (total - total_to_read) in
    elim (disk_read_block disk drive (position / 512)) [
      | none ↦ ok (neg e_io, position, [])
      | some buf ↦ copy_out buf offset total_to_read >>= λ out.
          if overflows offset total
          then (rest >>= λ (res, position', more). ok (res, position', out ++ more))
          else ok (pos 0, position + total_to_read, out)
    ]

-- Every level of the recursion but the first begins a sector.
unfoldable pub diskstreamer_read : Disk → Drive → ℕ → ℕ → Run (ℤ × ℕ × List ℕ)
unfolding read_rounds
diskstreamer_read disk drive position total =
    read_rounds (total / 512 + 2) disk drive position total

-- What stands in `buf` before the copy: the sector, or what `stack` says the uninitialised buffer holds
-- in the call for the sector.
unfoldable pub prepared : Disk → Drive → (ℕ → List ℕ) → ℕ → ℕ → ℕ → Option (List ℕ)
unfolding disk_read_block
prepared disk drive stack sector offset total =
    if not (offset == 0) || (overflows offset total && ltb total 512)
    then disk_read_block disk drive sector
    else some (stack sector)

-- The status, the position and the drive afterwards; `input` are the bytes to write.
unfoldable pub write_rounds : ℕ → Disk → Drive → (ℕ → List ℕ) → ℕ → List ℕ → Run (ℤ × ℕ × Drive)
write_rounds zero disk drive stack position input = fault
write_rounds (suc rounds) disk drive stack position input =
    let sector = position / 512 in
    let offset = position % 512 in
    let total = length input in
    let total_to_write = part offset total in
    elim (prepared disk drive stack sector offset total) [
      | none ↦ ok (neg e_io, position, drive)
      | some buf ↦ copy_in buf offset (take total_to_write input) >>= λ buf'.
          elim (disk_write_block disk drive sector buf') [
            | none ↦ ok (neg e_io, position, drive)
            | some drive' ↦
                let rest =
                  write_rounds rounds disk drive' stack (position + total_to_write)
                    (drop total_to_write input) in
                if overflows offset total
                then rest
                else ok (pos 0, position + total_to_write, drive')
          ]
    ]

unfoldable pub diskstreamer_write : Disk → Drive → (ℕ → List ℕ) → ℕ → List ℕ → Run (ℤ × ℕ × Drive)
unfolding write_rounds
diskstreamer_write disk drive stack position input =
    write_rounds (length input / 512 + 2) disk drive stack position input
