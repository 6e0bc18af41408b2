-- ===== src/Streamer/Tail.antt =====
-- What a write of ViOS64Bit/src/disk/streamer.c that begins with a sector does to the rest of that sector.
use vi_os.Prelude.{
  ℕ, suc, ◌+◌, ◌/◌, ◌%◌, ◌≤◌, ◌<◌, ◌≡◌, ap, ◌∙◌, inr, false, List, arith, ◌&&◌, some, length,
  get_or, ok, ◌>>=◌, ltb, pos,
}
use vi_os.Streamer.{
  Disk, Drive, disk_write_block, copy_in, overflows, prepared, write_rounds, diskstreamer_write,
}
use vi_os.Streamer.Bytes.{byte, copy_in-CopiedIn}
use vi_os.Streamer.Sector.{Accessible, with_sector, byte-written}
use vi_os.Streamer.Write.{Accessible-here, take-length}

-- The buffer of a write that begins with a sector and ends before it does is not filled before.
prepared-start :
    (disk : Disk) (drive : Drive) (stack : ℕ → List ℕ) (sector total : ℕ)
    → total < 512
    → prepared disk drive stack sector 0 total ≡ some (stack sector)
unfolding prepared
prepared-start disk drive stack sector total lt =
    let whole : (overflows 0 total && ltb total 512) ≡ false = ground arith in rw whole

disk_write_block-Accessible :
    (disk : Disk) (drive : Drive) (s : ℕ) (buf : List ℕ)
    → Accessible disk drive s s
    → disk_write_block disk drive s buf ≡ some (with_sector disk drive s buf)
unfolding disk_write_block
disk_write_block-Accessible disk drive s buf accessible =
    let (within, good) = Accessible-here disk drive s s accessible (omega arith) in
    rw (within, good)

write_rounds-start :
    (rounds : ℕ) (disk : Disk) (drive : Drive) (stack : ℕ → List ℕ) (position : ℕ)
    (input buf' : List ℕ)
    → Accessible disk drive (position / 512) (position / 512)
    → position % 512 ≡ 0
    → length input < 512
    → copy_in (stack (position / 512)) 0 input ≡ ok buf'
    → write_rounds (suc rounds) disk drive stack position input
      ≡ ok (pos 0, position + length input, with_sector disk drive (position / 512) buf')
unfolding write_rounds
write_rounds-start rounds disk drive stack position input buf' accessible start short e =
    let inside : overflows 0 (length input) ≡ false = ground arith in
    rw
      (
        write_rounds,
        start,
        prepared-start disk drive stack (position / 512) (length input) short,
        start,
        inside,
        take-length input,
        e,
      )
      (rw (◌>>=◌, accepted, start, inside))
  where
    accepted :
        disk_write_block disk drive (position / 512) buf'
        ≡ some (with_sector disk drive (position / 512) buf')
    accepted = disk_write_block-Accessible disk drive (position / 512) buf' accessible

-- diskstreamer_write of less than 512 bytes at the start of a sector that takes a write returns 0, and fills
-- the rest of the sector with what the uninitialised buffer held before.
pub diskstreamer_write-tail :
    (disk : Disk) (drive : Drive) (stack : ℕ → List ℕ) (position : ℕ) (input : List ℕ)
    → ((s : ℕ) → length (stack s) ≡ 512)
    → Accessible disk drive (position / 512) (position / 512)
    → position % 512 ≡ 0
    → length input < 512
    → (drive' : Drive) × (diskstreamer_write disk drive stack position input
        ≡ ok (pos 0, position + length input, drive'))
      × ((j : ℕ)
          → length input ≤ j
          → j < 512
          → byte disk drive' (position + j) ≡ get_or (stack (position / 512)) j 0)
unfolding diskstreamer_write
diskstreamer_write-tail disk drive stack position input stacks accessible start short =
    let (buf', e, copied) =
      copy_in-CopiedIn (stack (position / 512)) 0 input (omega (arith, stacks (position / 512))) in
    let fuel : length input / 512 + 2 ≡ suc (length input / 512 + 1) = omega arith in
    (
      with_sector disk drive (position / 512) buf',
      rw fuel (
          write_rounds-start (length input / 512 + 1) disk drive stack position input buf'
            accessible start short e),
      λ j lo hi.
          byte-written disk drive (position / 512) buf' (position + j) (omega arith)
          ∙ ap (λ n. get_or buf' n 0) (omega arith)
          ∙ copied.outside j (inr (omega arith)),
    )
