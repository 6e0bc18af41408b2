-- ===== src/Gpt/Mount.antt =====
-- The disks that ViOS64Bit/src/disk/gpt.c makes of the entries of a partition table.
use vi_os.Prelude.{
  ℕ, zero, suc, ◌+◌, ◌≡◌, List, [], ◌∷◌, ◌++◌, if◌then◌else◌, length, drop, take, Run, ok, ℤ, pos,
  ◌<◌, ◌^◌,
}
use vi_os.Streamer.{Disk, Drive}
use vi_os.Streamer.Bytes.{range}
use vi_os.Files.{Files}
use vi_os.Gpt.{Disks, number, all_zero, disk_create_new}

-- The partition of an entry.
abbrev pub partition : List ℕ → Disk
partition entry = record {
  starting_lba = number 8 (drop 32 entry);
  ending_lba = number 8 (drop 40 entry);
}

-- The partitions of the entries in use, of `entries` entries of the given size from the position on.
unfoldable pub partitions : Disk → Drive → ℕ → ℕ → ℕ → List Disk
partitions disk drive size position zero = []
partitions disk drive size position (suc entries) =
    let rest = partitions disk drive size (position + size) entries in
    let entry = range disk drive position size in
    if all_zero (take 16 entry) then rest else partition entry ∷ rest

-- Partitions whose numbers of sectors are `int`s.
abbrev pub AllSmall : List Disk → Type 0
AllSmall [] = Unit
AllSmall (p ∷ ps) = (p.starting_lba < 2 ^ 31) × (p.ending_lba < 2 ^ 31) × AllSmall ps

module _ {W P : Type 0} (volume_name : ℕ → W → List ℕ)
    (names : (id : ℕ) (world : W) → length (volume_name id world) ≡ 11) where
  abbrev mounted : ℕ → Files W P → List Disk → Run (ℤ × Disks W P)
  mounted tm_elems files geometry =
      ok (pos 0, record { files = files; geometry = geometry; tm_elems = tm_elems })

  -- A disk more, and an allocation less.
  abbrev Created : Disks W P → ℕ → ℕ → ℕ → Type 0
  Created disks starting_lba ending_lba left =
      (files : Files W P) × (disk_create_new volume_name disks starting_lba ending_lba
        ≡ ok (
          pos 0,
          record {
            files = files;
            geometry =
                disks.geometry
                ++ (record { starting_lba = starting_lba; ending_lba = ending_lba } ∷ []);
            tm_elems = disks.tm_elems;
          },
        ))
      × (files.left ≡ left)
