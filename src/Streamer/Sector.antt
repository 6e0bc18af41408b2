-- ===== src/Streamer/Sector.antt =====
-- One sector of diskstreamer_write of ViOS64Bit/src/disk/streamer.c.
use vi_os.Prelude.{
  ℕ, zero, suc, ◌+◌, ◌/◌, ◌%◌, ◌^◌, ◌≤◌, ◌<◌, ◌≡◌, refl, ap, sym, ◌∙◌, ◌⊎◌, inl, inr, Bool-cases,
  true, false, List, ◌&&◌, some, arith, length, get_or, ok, ltb, ◌==◌, add64, if◌then◌else◌,
}
use vi_os.Streamer.{
  Disk, Drive, crosses, disk_read_block, disk_write_block, copy_in, overflows, prepared,
}
use vi_os.Streamer.Bytes.{Formatted, byte, CopiedIn, copy_in-CopiedIn}

-- The disk and the drive accept each of the sectors from `first` up to and with `last`.
unfoldable pub Accessible : Disk → Drive → ℕ → ℕ → Type 0
Accessible disk drive first last =
    (s : ℕ)
    → first ≤ s
    → s ≤ last
    → (crosses disk s 1 ≡ false) × (drive.bad (add64 disk.starting_lba s) ≡ false)

-- The drive after a sector is written.
abbrev pub with_sector : Disk → Drive → ℕ → List ℕ → Drive
with_sector disk drive s buf = record drive {
  sectors = λ l. if l == add64 disk.starting_lba s then buf else drive.sectors l;
}

pub byte-written :
    (disk : Disk) (drive : Drive) (s : ℕ) (buf : List ℕ) (p : ℕ)
    → p / 512 ≡ s
    → byte disk (with_sector disk drive s buf) p ≡ get_or buf (p % 512) 0
unfolding byte
byte-written disk drive s buf p e =
    let same : (add64 disk.starting_lba (p / 512) == add64 disk.starting_lba s) ≡ true =
      ground (arith, e) in
    rw same

byte-of :
    (disk : Disk) (drive : Drive) (p s : ℕ)
    → p / 512 ≡ s
    → get_or (drive.sectors (add64 disk.starting_lba s)) (p % 512) 0 ≡ byte disk drive p
unfolding byte
byte-of disk drive p s e = rw (sym e)

byte-elsewhere :
    (disk : Disk) (drive : Drive) (s : ℕ) (buf : List ℕ) (p : ℕ)
    → (p / 512 < s) ⊎ (s < p / 512)
    → disk.starting_lba + p / 512 < 2 ^ 64
    → disk.starting_lba + s < 2 ^ 64
    → byte disk (with_sector disk drive s buf) p ≡ byte disk drive p
unfolding byte
byte-elsewhere disk drive s buf p differ small small' = rw (other differ)
  where
    other :
        (p / 512 < s) ⊎ (s < p / 512)
        → (add64 disk.starting_lba (p / 512) == add64 disk.starting_lba s) ≡ false
    other (inl lt) = ground arith
    other (inr gt) = ground arith

pub Formatted-written :
    (disk : Disk) (drive : Drive) (s : ℕ) (buf : List ℕ)
    → Formatted drive
    → length buf ≡ 512
    → Formatted (with_sector disk drive s buf)
unfolding Formatted
Formatted-written disk drive s buf formatted size = λ l.
    elim (Bool-cases (l == add64 disk.starting_lba s)) [
      | inl same ↦ rw same size
      | inr other ↦ rw other (formatted l)
    ]

-- What a write of `input` at `position` makes of the drive, when nothing behind `last` is touched.
pub record Written (disk : Disk) (drive : Drive) (position : ℕ) (input : List ℕ) (drive' : Drive)
    : Type 0 where
  pub formatted : Formatted drive'
  pub same_bad : drive'.bad ≡ drive.bad
  pub inside : (j : ℕ) → j < length input → byte disk drive' (position + j) ≡ get_or input j 0
  pub below : (p : ℕ) → p < position → byte disk drive' p ≡ byte disk drive p
  pub later :
      (p : ℕ)
      → (position + length input) / 512 < p / 512
      → disk.starting_lba + p / 512 < 2 ^ 64
      → byte disk drive' p ≡ byte disk drive p

-- The buffer before the copy: the sector, unless the write begins with the sector.
IsReady : Disk → Drive → (ℕ → List ℕ) → ℕ → ℕ → List ℕ → Type 0
IsReady disk drive stack position total buf =
    (prepared disk drive stack (position / 512) (position % 512) total ≡ some buf)
    × (length buf ≡ 512)
    × (0 < position % 512 → buf ≡ drive.sectors (add64 disk.starting_lba (position / 512)))

prepared-IsReady :
    (disk : Disk) (drive : Drive) (stack : ℕ → List ℕ) (position total : ℕ)
    → Formatted drive
    → ((s : ℕ) → length (stack s) ≡ 512)
    → crosses disk (position / 512) 1 ≡ false
    → drive.bad (add64 disk.starting_lba (position / 512)) ≡ false
    → (buf : List ℕ) × IsReady disk drive stack position total buf
unfolding Formatted IsReady prepared disk_read_block
prepared-IsReady disk drive stack position total formatted stacks inside good =
    elim (Bool-cases (position % 512 == 0)) [
      | inl start ↦
          let whole : (overflows (position % 512) total && ltb total 512) ≡ false =
            ground (arith, start) in
          (
            stack (position / 512),
            (rw (start, whole), stacks (position / 512), λ later. absurd (ground (arith, start))),
          )
      | inr middle ↦ (
        drive.sectors (add64 disk.starting_lba (position / 512)),
        (
          rw (middle, inside, good),
          formatted (add64 disk.starting_lba (position / 512)),
          λ later. refl,
        ),
      )
    ]

-- One sector of a write.
unfoldable pub WritesSector : Disk → Drive → (ℕ → List ℕ) → ℕ → List ℕ → ℕ → Type 0
WritesSector disk drive stack position ds total =
    (buf buf' : List ℕ) × (prepared disk drive stack (position / 512) (position % 512) total
      ≡ some buf)
    × (copy_in buf (position % 512) ds ≡ ok buf')
    × (disk_write_block disk drive (position / 512) buf'
        ≡ some (with_sector disk drive (position / 512) buf'))
    × Formatted (with_sector disk drive (position / 512) buf')
    × Written disk drive position ds (with_sector disk drive (position / 512) buf')

pub compare : (i n : ℕ) → (i ≡ n) ⊎ ((i < n) ⊎ (n < i))
compare zero zero = inl refl
compare zero (suc n) = inr (inl (omega arith))
compare (suc i) zero = inr (inr (omega arith))
compare (suc i) (suc n) = elim (compare i n) [
  | inl e ↦ inl (ap suc e)
  | inr (inl h) ↦ inr (inl (omega arith))
  | inr (inr h) ↦ inr (inr (omega arith))
]

pub write_sector_lem :
    (disk : Disk) (drive : Drive) (stack : ℕ → List ℕ) (position : ℕ) (ds : List ℕ) (total : ℕ)
    → Formatted drive
    → ((s : ℕ) → length (stack s) ≡ 512)
    → crosses disk (position / 512) 1 ≡ false
    → drive.bad (add64 disk.starting_lba (position / 512)) ≡ false
    → disk.starting_lba + position / 512 < 2 ^ 64
    → position % 512 + length ds ≤ 512
    → WritesSector disk drive stack position ds total
unfolding WritesSector IsReady disk_write_block
write_sector_lem disk drive stack position ds total formatted stacks inside good small fits =
    let (buf, (e, size, from)) =
      prepared-IsReady disk drive stack position total formatted stacks inside good in
    let (buf', e', copied) = copy_in-CopiedIn buf (position % 512) ds (omega (arith, size)) in
    (
      buf,
      buf',
      e,
      e',
      rw (inside, good),
      Formatted-written disk drive (position / 512) buf' formatted (copied.same_length ∙ size),
      record {
        formatted =
            Formatted-written disk drive (position / 512) buf' formatted
              (copied.same_length ∙ size);
        same_bad = refl;
        inside = λ j lt.
            byte-written disk drive (position / 512) buf' (position + j) (omega arith)
            ∙ ap (λ n. get_or buf' n 0) (omega arith)
            ∙ copied.inside j lt;
        below = λ p lt. below buf buf' from copied p lt (compare (p / 512) (position / 512));
        later = λ p lt room.
            byte-elsewhere disk drive (position / 512) buf' p (inr (omega arith)) room small;
      },
    )
  where
    below :
        (buf buf' : List ℕ)
        → (0 < position % 512 → buf ≡ drive.sectors (add64 disk.starting_lba (position / 512)))
        → CopiedIn buf (position % 512) ds buf'
        → (p : ℕ) → p < position
        → (p / 512 ≡ position / 512) ⊎ ((p / 512 < position / 512) ⊎ (position / 512 < p / 512))
        → byte disk (with_sector disk drive (position / 512) buf') p ≡ byte disk drive p
    below buf buf' from copied p lt (inl same) =
        byte-written disk drive (position / 512) buf' p same
        ∙ copied.outside (p % 512) (inl (omega arith))
        ∙ ap (λ b. get_or b (p % 512) 0) (from (omega arith))
        ∙ byte-of disk drive p (position / 512) same
    below buf buf' from copied p lt (inr (inl lower)) =
        byte-elsewhere disk drive (position / 512) buf' p (inl lower) (omega arith) small
    below buf buf' from copied p lt (inr (inr higher)) = absurd (omega arith)
