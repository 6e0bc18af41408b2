-- ===== src/Streamer/Bytes.antt =====
-- The bytes of a disk, and the loops that copy them between a buffer and memory.
use vi_os.Prelude.{
  ℕ, zero, suc, ◌+◌, ◌*◌, ◌/◌, ◌%◌, ◌≤◌, ◌<◌, ◌≡◌, refl, ap, sym, ◌∙◌, ◌⊎◌, inl, inr, List, [], ◌∷◌,
  ◌++◌, arith, length, get_or, ok, add64,
}
use vi_os.Prelude.{Stored, store-Stored, load-get_or}
use vi_os.Streamer.{Disk, Drive, copy_out, copy_in}

-- The byte at a position of the disk, and `n` bytes from it on.
unfoldable pub byte : Disk → Drive → ℕ → ℕ
byte disk drive p = get_or (drive.sectors (add64 disk.starting_lba (p / 512))) (p % 512) 0

unfoldable pub range : Disk → Drive → ℕ → ℕ → List ℕ
unfolding byte
range disk drive p zero = []
range disk drive p (suc n) = byte disk drive p ∷ range disk drive (p + 1) n

-- Each sector of the drive has 512 bytes.
unfoldable pub Formatted : Drive → Type 0
Formatted drive = (lba : ℕ) → length (drive.sectors lba) ≡ 512

pub range-append :
    (disk : Disk) (drive : Drive) (p m n : ℕ)
    → range disk drive p (m + n) ≡ range disk drive p m ++ range disk drive (p + m) n
unfolding range
range-append disk drive p zero n =
    let same : p + 0 ≡ p = omega arith in
    let none_more : 0 + n ≡ n = omega arith in rw (same, none_more)
range-append disk drive p (suc m) n =
    let more : suc m + n ≡ suc (m + n) = omega arith in
    rw more (
      ap (λ t. byte disk drive p ∷ t)
        (range-append disk drive (p + 1) m n
          ∙ ap (λ q. range disk drive (p + 1) m ++ range disk drive q n) (omega arith)))

pub byte-sector :
    (disk : Disk) (drive : Drive) (s offset : ℕ)
    → offset < 512
    → byte disk drive (512 * s + offset)
      ≡ get_or (drive.sectors (add64 disk.starting_lba s)) offset 0
unfolding byte
byte-sector disk drive s offset lt = rw (sector, place)
  where
    sector : (512 * s + offset) / 512 ≡ s
    sector = omega arith

    place : (512 * s + offset) % 512 ≡ offset
    place = omega arith

-- The loop of the reader inside one sector gives that sector's bytes.
pub copy_out-range :
    (disk : Disk) (drive : Drive) (s offset n : ℕ)
    → Formatted drive
    → offset + n ≤ 512
    → copy_out (drive.sectors (add64 disk.starting_lba s)) offset n
      ≡ ok (range disk drive (512 * s + offset) n)
unfolding Formatted copy_out range
copy_out-range disk drive s offset zero formatted le = refl
copy_out-range disk drive s offset (suc n) formatted le =
    rw
      (
        load-get_or (drive.sectors (add64 disk.starting_lba s)) offset
            (omega (arith, formatted (add64 disk.starting_lba s))),
        copy_out-range disk drive s (offset + 1) n formatted (omega arith),
      )
      (ap ok (cc (first, again)))
  where
    first :
        get_or (drive.sectors (add64 disk.starting_lba s)) offset 0
        ≡ byte disk drive (512 * s + offset)
    first = sym (byte-sector disk drive s offset (omega arith))

    again : range disk drive (512 * s + (offset + 1)) n ≡ range disk drive (512 * s + offset + 1) n
    again = ap (λ q. range disk drive q n) (omega arith)

-- What the loop of the writer makes of the buffer.
pub record CopiedIn (buf : List ℕ) (i : ℕ) (input buf' : List ℕ) : Type 0 where
  pub same_length : length buf' ≡ length buf
  pub outside : (j : ℕ) → (j < i) ⊎ (i + length input ≤ j) → get_or buf' j 0 ≡ get_or buf j 0
  pub inside : (j : ℕ) → j < length input → get_or buf' (i + j) 0 ≡ get_or input j 0

pub copy_in-CopiedIn :
    (buf : List ℕ) (i : ℕ) (input : List ℕ)
    → i + length input ≤ length buf
    → (buf' : List ℕ) × (copy_in buf i input ≡ ok buf') × CopiedIn buf i input buf'
unfolding Stored copy_in
copy_in-CopiedIn buf i [] le = (
  buf,
  refl,
  record { same_length = refl; outside = λ j h. refl; inside = λ j lt. absurd (omega arith) },
)
copy_in-CopiedIn buf i (b ∷ input) le =
    let (buf', (e, size, there, others)) = store-Stored buf i b (omega arith) in
    let (buf'', e', copied) = copy_in-CopiedIn buf' (i + 1) input (omega arith) in
    (
      buf'',
      rw (e, e'),
      record {
        same_length = copied.same_length ∙ size;
        outside = λ j h. copied.outside j (beyond j h) ∙ others j (away j h);
        inside = within buf' buf'' there copied;
      },
    )
  where
    beyond :
        (j : ℕ) → (j < i) ⊎ (i + suc (length input) ≤ j) → (j < i + 1) ⊎ (i + 1 + length input ≤ j)
    beyond j (inl h) = inl (omega arith)
    beyond j (inr h) = inr (omega arith)

    away : (j : ℕ) → (j < i) ⊎ (i + suc (length input) ≤ j) → (j < i) ⊎ (i < j)
    away j (inl h) = inl h
    away j (inr h) = inr (omega arith)

    within :
        (buf' buf'' : List ℕ)
        → get_or buf' i 0 ≡ b
        → CopiedIn buf' (i + 1) input buf''
        → (j : ℕ) → j < suc (length input)
        → get_or buf'' (i + j) 0 ≡ get_or (b ∷ input) j 0
    within buf' buf'' there copied zero lt =
        ap (λ q. get_or buf'' q 0) (omega arith) ∙ copied.outside i (inl (omega arith)) ∙ there
    within buf' buf'' there copied (suc j) lt =
        ap (λ q. get_or buf'' q 0) (omega arith) ∙ copied.inside j (omega arith)
