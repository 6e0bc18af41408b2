-- ===== src/Streamer/Tests.antt =====
-- The theorems about the stream at concrete disks.
use vi_os.Prelude.{
  List, [], ◌∷◌, ℕ, ◌≡◌, refl, false, none, arith, length-replicate, replicate, ok, pos,
}
use vi_os.Streamer.{Disk, Drive, crosses, disk_read_block, diskstreamer_read, diskstreamer_write}
use vi_os.Streamer.Bytes.{Formatted, range}
use vi_os.Streamer.Sector.{Accessible, Written}
use vi_os.Streamer.Write.{diskstreamer_write-Written}
use vi_os.Streamer.Read.{Readable, diskstreamer_read-range}

-- The whole drive, a partition of two of its sectors, and a drive full of one byte.
abbrev primary : Disk
primary = record { starting_lba = 0; ending_lba = 0 }

abbrev partition : Disk
partition = record { starting_lba = 10; ending_lba = 12 }

abbrev sevens : Drive
sevens = record { sectors = λ lba. replicate 512 7; bad = λ lba. false }

sevens-Formatted : Formatted sevens
unfolding Formatted
sevens-Formatted = λ lba. length-replicate {A = ℕ} 512 7

primary-Readable : Readable primary sevens 0 1
unfolding Readable disk_read_block
primary-Readable = λ s lo hi. ground arith

partition-Readable : Readable partition sevens 1 1
unfolding Readable disk_read_block
partition-Readable = λ s lo hi. ground arith

partition-end : disk_read_block partition sevens 2 ≡ none
unfolding disk_read_block
partition-end = refl

diskstreamer_read-range_example :
    diskstreamer_read primary sevens 510 4 ≡ ok (pos 0, 514, range primary sevens 510 4)
diskstreamer_read-range_example =
    diskstreamer_read-range primary sevens 510 4 sevens-Formatted primary-Readable

primary-Accessible : Accessible primary sevens 0 1
unfolding Accessible crosses
primary-Accessible = λ s lo hi. (ground arith, refl)

-- What the uninitialised buffers hold.
abbrev nines : ℕ → List ℕ
nines s = replicate 512 9

diskstreamer_write-Written_example :
    (drive' : Drive) × (diskstreamer_write primary sevens nines 510 (1 ∷ 2 ∷ 3 ∷ 4 ∷ [])
      ≡ ok (pos 0, 514, drive'))
    × Written primary sevens 510 (1 ∷ 2 ∷ 3 ∷ 4 ∷ []) drive'
diskstreamer_write-Written_example =
    diskstreamer_write-Written primary sevens nines 510 (1 ∷ 2 ∷ 3 ∷ 4 ∷ []) sevens-Formatted
      (λ s. length-replicate {A = ℕ} 512 9) primary-Accessible (omega arith)
