-- ===== src/Fat16/Table.antt =====
-- The entries of the file allocation table of ViOS64Bit/src/fs/fat/fat16.c after one of them is written.
use vi_os.Prelude.{
  ℕ, zero, suc, Bool, ◌+◌, ◌-◌, ◌*◌, ◌/◌, ◌%◌, ◌^◌, ◌≤◌, ◌<◌, ◌≡◌, refl, ap, sym, ◌∙◌, List, arith,
  length, ok, ◌>>=◌, pos, add64,
}
use vi_os.Streamer.{Disk, Drive, disk_read_block, diskstreamer_write}
use vi_os.Streamer.Bytes.{Formatted, byte, range}
use vi_os.Streamer.Read.{Readable, diskstreamer_read-range}
use vi_os.Streamer.Sector.{Accessible, Written}
use vi_os.Streamer.Write.{diskstreamer_write-Written}
use vi_os.Fat16.{FatPrivate, word_bytes, entry_position, get_fat_entry, set_copies, set_fat_entry}

-- The drive takes and gives every sector up to `last`.
pub record Usable (disk : Disk) (drive : Drive) (last : ℕ) : Type 0 where
  pub formatted : Formatted drive
  pub accessible : Accessible disk drive 0 last

pub Accessible-inside :
    (disk : Disk) (drive : Drive) (last first' last' : ℕ)
    → Accessible disk drive 0 last
    → last' ≤ last
    → Accessible disk drive first' last'
unfolding Accessible
Accessible-inside disk drive last first' last' accessible le =
    λ s lo hi. accessible s (omega arith) (omega arith)

pub Accessible-Readable :
    (disk : Disk) (drive : Drive) (first last : ℕ)
    → Accessible disk drive first last
    → Readable disk drive first last
unfolding Accessible Readable disk_read_block
Accessible-Readable disk drive first last accessible =
    λ s lo hi. let (within, good) = accessible s lo hi in rw (within, good) refl

pub Accessible-same :
    (disk : Disk) (drive drive' : Drive) (last : ℕ)
    → Accessible disk drive 0 last
    → drive'.bad ≡ drive.bad
    → Accessible disk drive' 0 last
unfolding Accessible
Accessible-same disk drive drive' last accessible same = λ s lo hi.
    let (within, good) = accessible s lo hi in
    (within, ap (λ (bad : ℕ → Bool). bad (add64 disk.starting_lba s)) same ∙ good)

-- The entry is the word at its position.
pub get_fat_entry-byte :
    (disk : Disk) (drive : Drive) (private : FatPrivate) (cluster last : ℕ)
    → Usable disk drive last
    → entry_position private cluster + 2 ≤ 512 * last
    → get_fat_entry disk drive private cluster
      ≡ ok (
          pos (
            byte disk drive (entry_position private cluster)
            + 256 * byte disk drive (entry_position private cluster + 1)))
unfolding get_fat_entry range
get_fat_entry-byte disk drive private cluster last usable le =
    let p = entry_position private cluster in
    rw
      (diskstreamer_read-range disk drive p 2 usable.formatted (
        Accessible-Readable disk drive (p / 512) ((p + 2) / 512) (
          Accessible-inside disk drive last (p / 512) ((p + 2) / 512) usable.accessible
            (omega arith))))
      refl

-- One write of a word, inside of the sectors up to `last`.
Stores : Disk → Drive → (ℕ → List ℕ) → ℕ → ℕ → ℕ → Type 0
Stores disk drive stack last position value =
    (drive' : Drive) × (diskstreamer_write disk drive stack position (word_bytes value)
      ≡ ok (pos 0, position + 2, drive'))
    × Written disk drive position (word_bytes value) drive'
    × Usable disk drive' last

module _ (disk : Disk) (private : FatPrivate) (stack : ℕ → List ℕ) (last : ℕ)
    (stacks : (s : ℕ) → length (stack s) ≡ 512) (small : disk.starting_lba + last < 2 ^ 64) where
  write_word :
      (drive : Drive) (position value : ℕ)
      → Usable disk drive last
      → position + 2 ≤ 512 * last
      → Stores disk drive stack last position value
  unfolding Stores
  write_word drive position value usable le =
      let (drive', e, written) =
        diskstreamer_write-Written disk drive stack position (word_bytes value) usable.formatted
          stacks
          (Accessible-inside disk drive last (position / 512) ((position + 2) / 512)
            usable.accessible (omega arith))
          (omega arith) in
      (
        drive',
        e,
        written,
        record {
          formatted = written.formatted;
          accessible = Accessible-same disk drive drive' last usable.accessible written.same_bad;
        },
      )

  -- The copies leave what stands before the first of them.
  set_copies-below :
      (rounds i : ℕ) (drive : Drive) (position value : ℕ)
      → Usable disk drive last
      → ((k : ℕ) → k < i + rounds → position + k * private.sectors_per_fat * 512 + 2 ≤ 512 * last)
      → (drive' : Drive) × (set_copies rounds i disk drive private stack position value
          ≡ ok (pos 0, drive'))
        × Usable disk drive' last
        × ((p : ℕ)
            → p < position + i * private.sectors_per_fat * 512
            → byte disk drive' p ≡ byte disk drive p)
  unfolding set_copies Stores
  set_copies-below zero i drive position value usable fits = (drive, refl, usable, λ p lt. refl)
  set_copies-below (suc rounds) i drive position value usable fits =
      let (drive1, e, written, usable1) =
        write_word drive (position + i * private.sectors_per_fat * 512) value usable
          (fits i (omega arith)) in
      let (drive2, e', usable2, below) =
        set_copies-below rounds (i + 1) drive1 position value usable1
          (λ k lt. fits k (omega arith)) in
      (
        drive2,
        rw (e, ◌>>=◌) e',
        usable2,
        λ p lt. below p (omega (arith, further)) ∙ written.below p lt,
      )
    where
      further :
          (i + 1) * private.sectors_per_fat * 512
          ≡ i * private.sectors_per_fat * 512 + private.sectors_per_fat * 512
      further = omega arith

  -- The first write and the copies.
  unfoldable pub Set : Drive → ℕ → ℕ → Type 0
  Set drive cluster value =
      (drive1 drive' : Drive) × (diskstreamer_write disk drive stack
          (entry_position private cluster) (word_bytes value)
        ≡ ok (pos 0, entry_position private cluster + 2, drive1))
      × Written disk drive (entry_position private cluster) (word_bytes value) drive1
      × (set_fat_entry disk drive private stack cluster value ≡ ok (pos 0, drive'))
      × Usable disk drive' last
      × ((p : ℕ)
          → p < entry_position private cluster + private.sectors_per_fat * 512
          → byte disk drive' p ≡ byte disk drive1 p)

  pub set_fat_entry_lem :
      (drive : Drive) (cluster value : ℕ)
      → Usable disk drive last
      → 0 < private.fat_copies
      → ((k : ℕ)
          → k < private.fat_copies
          → entry_position private cluster + k * private.sectors_per_fat * 512 + 2 ≤ 512 * last)
      → Set drive cluster value
  unfolding Set set_fat_entry Stores
  set_fat_entry_lem drive cluster value usable some_copy fits =
      let (drive1, e, written, usable1) =
        write_word drive (entry_position private cluster) value usable
          (omega (arith, fits 0 some_copy)) in
      let (drive', e', usable', below) =
        set_copies-below (private.fat_copies - 1) 1 drive1 (entry_position private cluster) value
          usable1 (λ k lt. fits k (omega arith)) in
      (drive1, drive', e, written, rw (e, ◌>>=◌) e', usable', λ p lt. below p (omega arith))

-- Writing the entry of a cluster, where the drive takes every sector up to `last` and each copy of the entry
-- stands before it.
pub record IsWritable (disk : Disk) (drive : Drive) (private : FatPrivate) (stack : ℕ → List ℕ)
    (last cluster : ℕ) : Type 0 where
  pub usable : Usable disk drive last
  pub stacks : (s : ℕ) → length (stack s) ≡ 512
  pub small : disk.starting_lba + last < 2 ^ 64
  pub some_copy : 0 < private.fat_copies
  pub some_sector : 0 < private.sectors_per_fat
  pub fits :
      (k : ℕ)
      → k < private.fat_copies
      → entry_position private cluster + k * private.sectors_per_fat * 512 + 2 ≤ 512 * last

-- Where the drive takes every sector up to `last` and each copy of the entry stands before it, fat16_set_fat_entry
-- returns 0; afterwards the entry of the cluster is the value, and those of the clusters before it are as they were.
pub set_fat_entry-get_fat_entry :
    (disk : Disk) (drive : Drive) (private : FatPrivate) (stack : ℕ → List ℕ)
    (last cluster value : ℕ)
    → IsWritable disk drive private stack last cluster
    → value < 65536
    → (drive' : Drive) × (set_fat_entry disk drive private stack cluster value ≡ ok (pos 0, drive'))
      × (get_fat_entry disk drive' private cluster ≡ ok (pos value))
      × ((c : ℕ)
          → c < cluster
          → get_fat_entry disk drive' private c ≡ get_fat_entry disk drive private c)
unfolding Set
set_fat_entry-get_fat_entry disk drive private stack last cluster value writable lt =
    let (drive1, drive', e, written, done, usable', below) =
      set_fat_entry_lem disk private stack last writable.stacks writable.small drive cluster value
        writable.usable writable.some_copy writable.fits in
    let first = writable.fits 0 writable.some_copy in
    let start = entry_position private cluster in
    let low : byte disk drive' start ≡ value % 256 =
      below start (omega (arith, writable.some_sector))
      ∙ ap (byte disk drive1) (omega arith)
      ∙ written.inside 0 (omega arith) in
    let high : byte disk drive' (start + 1) ≡ value / 256 % 256 =
      below (start + 1) (omega (arith, writable.some_sector)) ∙ written.inside 1 (omega arith) in
    (
      drive',
      done,
      get_fat_entry-byte disk drive' private cluster last usable' (omega (arith, first))
          ∙ ap (λ n. ok (pos n)) (omega (arith, low, high)),
      λ c before.
          let same = λ (p : ℕ). λ (lt : p < start). below p (omega arith) ∙ written.below p lt in
          get_fat_entry-byte disk drive' private c last usable' (omega (arith, first))
          ∙ ap (λ n. ok (pos n))
              (omega (
                arith,
                same (entry_position private c) (omega arith),
                same (entry_position private c + 1) (omega arith),
              ))
          ∙ sym
              (get_fat_entry-byte disk drive private c last writable.usable (omega (arith, first))),
    )
