-- ===== src/Streamer/Read.antt =====
-- diskstreamer_read of ViOS64Bit/src/disk/streamer.c.
use vi_os.Prelude.{
  ℕ, zero, suc, ◌+◌, ◌-◌, ◌*◌, ◌/◌, ◌%◌, ◌≤◌, ◌<◌, ◌≡◌, refl, ap, sym, ◌∙◌, ◌⊎◌, inl, inr,
  Bool-cases, true, false, List, ◌++◌, none, some, arith, Run, ok, add64, ℤ, pos, neg,
}
use vi_os.Config.{e_io}
use vi_os.Streamer.{
  Disk, Drive, disk_read_block, copy_out, part, overflows, read_rounds, diskstreamer_read,
}
use vi_os.Streamer.Bytes.{Formatted, range, range-append, copy_out-range}

-- disk_read_block gives each of the sectors from `first` up to and with `last`.
unfoldable pub Readable : Disk → Drive → ℕ → ℕ → Type 0
Readable disk drive first last =
    (s : ℕ)
    → first ≤ s
    → s ≤ last
    → disk_read_block disk drive s ≡ some (drive.sectors (add64 disk.starting_lba s))

-- The part of a transfer in its first sector.
part-crossing :
    (offset total : ℕ)
    → offset < 512
    → overflows offset total ≡ true
    → (part offset total + offset ≡ 512) × (part offset total ≤ total)
part-crossing offset total lt over = ground arith

first_part :
    (disk : Disk) (drive : Drive) (position total : ℕ)
    → Formatted drive
    → position % 512 + total ≤ 512
    → copy_out (drive.sectors (add64 disk.starting_lba (position / 512))) (position % 512) total
      ≡ ok (range disk drive position total)
first_part disk drive position total formatted le =
    copy_out-range disk drive (position / 512) (position % 512) total formatted le
    ∙ ap (λ q. ok (range disk drive q total)) (omega arith)

-- A call with all of its bytes in one sector, and one with further sectors to read.
read_rounds-inside :
    (rounds : ℕ) (disk : Disk) (drive : Drive) (position total : ℕ)
    → Formatted drive
    → disk_read_block disk drive (position / 512)
      ≡ some (drive.sectors (add64 disk.starting_lba (position / 512)))
    → overflows (position % 512) total ≡ false
    → read_rounds (suc rounds) disk drive position total
      ≡ ok (pos 0, position + total, range disk drive position total)
unfolding read_rounds
read_rounds-inside rounds disk drive position total formatted readable inside =
    rw
      (read_rounds, readable, inside, first_part disk drive position total formatted (ground arith))

read_rounds-crossing :
    (rounds : ℕ) (disk : Disk) (drive : Drive) (position total : ℕ)
    → Formatted drive
    → disk_read_block disk drive (position / 512)
      ≡ some (drive.sectors (add64 disk.starting_lba (position / 512)))
    → overflows (position % 512) total ≡ true
    → (n left : ℕ) → position % 512 + n ≡ 512
    → total ≡ n + left
    → (res : ℤ) (position' : ℕ) (out : List ℕ)
    → read_rounds rounds disk drive (position + n) left ≡ ok (res, position', out)
    → read_rounds (suc rounds) disk drive position total
      ≡ ok (res, position', range disk drive position n ++ out)
unfolding read_rounds
read_rounds-crossing rounds disk drive position total formatted readable over n left full sum res
      position' out e =
    rw (
      read_rounds,
      readable,
      over,
      size,
      remainder,
      first_part disk drive position n formatted (omega arith),
      e,
    )
  where
    size : total - (position % 512 + total - 512) ≡ n
    size = omega arith

    remainder : total - n ≡ left
    remainder = omega arith

Readable-here :
    (disk : Disk) (drive : Drive) (first last : ℕ)
    → Readable disk drive first last
    → first ≤ last
    → disk_read_block disk drive first ≡ some (drive.sectors (add64 disk.starting_lba first))
unfolding Readable
Readable-here disk drive first last readable le = readable first (omega arith) le

pub Readable-later :
    (disk : Disk) (drive : Drive) (first last first' last' : ℕ)
    → Readable disk drive first last
    → first ≤ first'
    → last' ≤ last
    → Readable disk drive first' last'
unfolding Readable
Readable-later disk drive first last first' last' readable le le' =
    λ s lo hi. readable s (omega arith) (omega arith)

-- The bytes of the first sector and of what follows.
joined :
    (disk : Disk) (drive : Drive) (position n left total : ℕ) (res : ℤ)
    → total ≡ n + left
    → ◌≡◌ {A = Run (ℤ × ℕ × List ℕ)}
        (ok (
          res,
          position + n + left,
          range disk drive position n ++ range disk drive (position + n) left,
        ))
        (ok (res, position + total, range disk drive position total))
joined disk drive position n left total res sum =
    ap (λ q. ok (res, q, range disk drive position n ++ range disk drive (position + n) left))
      (omega arith)
    ∙ ap (λ t. ok (res, position + total, t)) (sym (range-append disk drive position n left))
    ∙ ap (λ q. ok (res, position + total, range disk drive position q)) (sym sum)

read_rounds-range :
    (rounds : ℕ) (disk : Disk) (drive : Drive) (position total : ℕ)
    → Formatted drive
    → position % 512 + total < 512 * rounds
    → Readable disk drive (position / 512) ((position + total) / 512)
    → read_rounds rounds disk drive position total
      ≡ ok (pos 0, position + total, range disk drive position total)
read_rounds-range zero disk drive position total formatted enough readable = absurd (omega arith)
read_rounds-range (suc rounds) disk drive position total formatted enough readable =
    elim (Bool-cases (overflows (position % 512) total)) [
      | inl over ↦
          let (full, le) = part-crossing (position % 512) total (omega arith) over in
          crossing over (512 - position % 512) (total - (512 - position % 512)) (omega arith)
            (omega arith)
            (read_rounds-range rounds disk drive (position + (512 - position % 512))
              (total - (512 - position % 512)) formatted (omega arith)
              (Readable-later disk drive (position / 512) ((position + total) / 512)
                ((position + (512 - position % 512)) / 512)
                ((position + (512 - position % 512) + (total - (512 - position % 512))) / 512)
                readable (omega arith) (omega arith)))
      | inr inside ↦ read_rounds-inside rounds disk drive position total formatted here inside
    ]
  where
    here :
        disk_read_block disk drive (position / 512)
        ≡ some (drive.sectors (add64 disk.starting_lba (position / 512)))
    here =
        Readable-here disk drive (position / 512) ((position + total) / 512) readable (omega arith)

    crossing :
        overflows (position % 512) total ≡ true
        → (n left : ℕ) → position % 512 + n ≡ 512
        → total ≡ n + left
        → read_rounds rounds disk drive (position + n) left
          ≡ ok (pos 0, position + n + left, range disk drive (position + n) left)
        → read_rounds (suc rounds) disk drive position total
          ≡ ok (pos 0, position + total, range disk drive position total)
    crossing over n left full sum rest =
        read_rounds-crossing rounds disk drive position total formatted here over n left full sum
          (pos 0) (position + n + left) (range disk drive (position + n) left) rest
        ∙ joined disk drive position n left total (pos 0) sum

-- Where the drive gives every sector from that of the position to that of the position behind the last
-- byte, diskstreamer_read returns 0, gives out the bytes of the disk and moves on by their number.
pub diskstreamer_read-range :
    (disk : Disk) (drive : Drive) (position total : ℕ)
    → Formatted drive
    → Readable disk drive (position / 512) ((position + total) / 512)
    → diskstreamer_read disk drive position total
      ≡ ok (pos 0, position + total, range disk drive position total)
unfolding diskstreamer_read
diskstreamer_read-range disk drive position total formatted readable =
    read_rounds-range (total / 512 + 2) disk drive position total formatted (omega arith) readable

zero_or_more : (n : ℕ) → (0 ≡ n) ⊎ (0 < n)
zero_or_more zero = inl refl
zero_or_more (suc n) = inr (omega arith)

-- The call for no bytes at the sector behind the last one.
last_call :
    (rounds : ℕ) (disk : Disk) (drive : Drive) (position total : ℕ)
    → 0 ≡ total
    → disk_read_block disk drive (position / 512) ≡ none
    → 0 < rounds
    → read_rounds rounds disk drive position total
      ≡ ok (neg e_io, position + total, range disk drive position total)
unfolding read_rounds range
last_call zero disk drive position total none_left refused enough = absurd (omega arith)
last_call (suc rounds) disk drive position zero none_left refused enough =
    let stays : position + 0 ≡ position = omega arith in rw (read_rounds, refused, stays)
last_call (suc rounds) disk drive position (suc total) none_left refused enough =
    absurd (omega arith)

-- A read that only needs the sectors `first` to `last` and ends with the last byte of `last`.
read_rounds-end :
    (rounds : ℕ) (disk : Disk) (drive : Drive) (position total last : ℕ)
    → Formatted drive
    → position % 512 + total < 512 * rounds
    → position + total ≡ 512 * (last + 1)
    → 0 < total
    → Readable disk drive (position / 512) last
    → disk_read_block disk drive (last + 1) ≡ none
    → read_rounds rounds disk drive position total
      ≡ ok (neg e_io, position + total, range disk drive position total)
read_rounds-end zero disk drive position total last formatted enough ends some_bytes readable
      refused =
    absurd (omega arith)
read_rounds-end (suc rounds) disk drive position total last formatted enough ends some_bytes
      readable refused =
    crossing (512 - position % 512) (total - (512 - position % 512)) (omega arith) (omega arith) (
      rest (512 - position % 512) (total - (512 - position % 512)) (omega arith) (omega arith)
        (zero_or_more (total - (512 - position % 512)))
        (λ n left full sum more.
          read_rounds-end rounds disk drive (position + n) left last formatted (omega arith)
            (omega arith) more
            (Readable-later disk drive (position / 512) last ((position + n) / 512) last readable
              (omega arith) (omega arith))
            refused))
  where
    over : overflows (position % 512) total ≡ true
    over = ground arith

    here :
        disk_read_block disk drive (position / 512)
        ≡ some (drive.sectors (add64 disk.starting_lba (position / 512)))
    here = Readable-here disk drive (position / 512) last readable (omega arith)

    rest :
        (n left : ℕ)
        → position % 512 + n ≡ 512
        → total ≡ n + left
        → (0 ≡ left) ⊎ (0 < left)
        → ((n left : ℕ)
            → position % 512 + n ≡ 512
            → total ≡ n + left
            → 0 < left
            → read_rounds rounds disk drive (position + n) left
              ≡ ok (neg e_io, position + n + left, range disk drive (position + n) left))
        → read_rounds rounds disk drive (position + n) left
          ≡ ok (neg e_io, position + n + left, range disk drive (position + n) left)
    rest n left full sum (inl nothing) again =
        last_call rounds disk drive (position + n) left nothing
          (let at_last : (position + n) / 512 ≡ last + 1 = omega arith in rw at_last refused)
          (omega arith)
    rest n left full sum (inr more) again = again n left full sum more

    crossing :
        (n left : ℕ)
        → position % 512 + n ≡ 512
        → total ≡ n + left
        → read_rounds rounds disk drive (position + n) left
          ≡ ok (neg e_io, position + n + left, range disk drive (position + n) left)
        → read_rounds (suc rounds) disk drive position total
          ≡ ok (neg e_io, position + total, range disk drive position total)
    crossing n left full sum rest =
        read_rounds-crossing rounds disk drive position total formatted here over n left full sum
          (neg e_io) (position + n + left) (range disk drive (position + n) left) rest
        ∙ joined disk drive position n left total (neg e_io) sum

-- A read that ends with the last byte of the last sector the disk gives returns -EIO, since it also asks
-- for the sector behind it; all of the bytes are given out before.
pub diskstreamer_read-end :
    (disk : Disk) (drive : Drive) (position total last : ℕ)
    → Formatted drive
    → position + total ≡ 512 * (last + 1)
    → 0 < total
    → Readable disk drive (position / 512) last
    → disk_read_block disk drive (last + 1) ≡ none
    → diskstreamer_read disk drive position total
      ≡ ok (neg e_io, position + total, range disk drive position total)
unfolding diskstreamer_read
diskstreamer_read-end disk drive position total last formatted ends some_bytes readable refused =
    read_rounds-end (total / 512 + 2) disk drive position total last formatted (omega arith) ends
      some_bytes readable refused
