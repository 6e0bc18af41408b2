-- ===== src/Streamer/Write.antt =====
-- diskstreamer_write of ViOS64Bit/src/disk/streamer.c.
use vi_os.Prelude.{
  ℕ, zero, suc, ◌+◌, ◌-◌, ◌*◌, ◌/◌, ◌%◌, ◌^◌, ◌≤◌, ◌<◌, ◌≡◌, refl, ap, ◌∙◌, ◌⊎◌, inl, inr,
  Bool-cases, true, false, List, [], ◌∷◌, some, arith, length, length-take, length-drop, get_or,
  take, drop, ok, ◌>>=◌, add64, pos,
}
use vi_os.Streamer.{
  Disk, Drive, crosses, disk_write_block, copy_in, overflows, prepared, write_rounds,
  diskstreamer_write,
}
use vi_os.Streamer.Bytes.{Formatted, byte}
use vi_os.Streamer.Sector.{
  Accessible, with_sector, Written, WritesSector, write_sector_lem, compare,
}

get_or-take : (n : ℕ) (xs : List ℕ) (j : ℕ) → j < n → get_or (take n xs) j 0 ≡ get_or xs j 0
get_or-take zero xs j lt = absurd (omega arith)
get_or-take (suc n) [] j lt = refl
get_or-take (suc n) (x ∷ xs) zero lt = refl
get_or-take (suc n) (x ∷ xs) (suc j) lt = get_or-take n xs j (omega arith)

get_or-drop : (n : ℕ) (xs : List ℕ) (j : ℕ) → get_or (drop n xs) j 0 ≡ get_or xs (n + j) 0
get_or-drop zero xs j = ap (λ k. get_or xs k 0) (omega arith)
get_or-drop (suc n) [] j = refl
get_or-drop (suc n) (x ∷ xs) j =
    let more : suc n + j ≡ suc (n + j) = omega arith in rw more (get_or-drop n xs j)

pub take-length : (xs : List ℕ) → take (length xs) xs ≡ xs
take-length [] = refl
take-length (x ∷ xs) = rw (take-length xs)

-- A write in two parts, the second of which begins where the first ends.
Written-parts :
    (disk : Disk) (drive drive' drive'' : Drive) (position n : ℕ) (input : List ℕ)
    → n ≤ length input
    → Written disk drive position (take n input) drive'
    → Written disk drive' (position + n) (drop n input) drive''
    → Written disk drive position input drive''
Written-parts disk drive drive' drive'' position n input le one two = record {
  formatted = two.formatted;
  same_bad = two.same_bad ∙ one.same_bad;
  inside = λ j lt. inside j lt (compare j n);
  below = λ p lt. two.below p (omega arith) ∙ one.below p lt;
  later = λ p lt small.
      two.later p (omega (arith, length-drop n input)) small
      ∙ one.later p (omega (arith, length-take n input)) small;
}
  where
    first : (j : ℕ) → j < n → byte disk drive'' (position + j) ≡ get_or input j 0
    first j lt =
        two.below (position + j) (omega arith)
        ∙ one.inside j (omega (arith, length-take n input))
        ∙ get_or-take n input j lt

    second :
        (j : ℕ) → j < length input → n ≤ j → byte disk drive'' (position + j) ≡ get_or input j 0
    second j lt ge =
        ap (byte disk drive'') (omega arith)
        ∙ two.inside (j - n) (omega (arith, length-drop n input))
        ∙ get_or-drop n input (j - n)
        ∙ ap (λ k. get_or input k 0) (omega arith)

    inside :
        (j : ℕ)
        → j < length input
        → (j ≡ n) ⊎ ((j < n) ⊎ (n < j))
        → byte disk drive'' (position + j) ≡ get_or input j 0
    inside j lt (inl e) = second j lt (omega arith)
    inside j lt (inr (inl less)) = first j less
    inside j lt (inr (inr more)) = second j lt (omega arith)

-- A call of the writer that succeeds.
Success : ℕ → Disk → Drive → (ℕ → List ℕ) → ℕ → List ℕ → Type 0
Success rounds disk drive stack position input =
    (drive' : Drive) × (write_rounds rounds disk drive stack position input
      ≡ ok (pos 0, position + length input, drive'))
    × Written disk drive position input drive'

write_rounds-inside :
    (rounds : ℕ) (disk : Disk) (drive : Drive) (stack : ℕ → List ℕ) (position : ℕ) (input : List ℕ)
    → WritesSector disk drive stack position input (length input)
    → overflows (position % 512) (length input) ≡ false
    → Success (suc rounds) disk drive stack position input
unfolding WritesSector Success write_rounds
write_rounds-inside rounds disk drive stack position input
      (buf, buf', e, e', e'', formatted, written) inside =
    (
      with_sector disk drive (position / 512) buf',
      rw (write_rounds, e, inside, take-length input, e') (rw (◌>>=◌, e'', inside)),
      written,
    )

write_rounds-crossing :
    (rounds : ℕ) (disk : Disk) (drive drive' : Drive) (stack : ℕ → List ℕ) (position n : ℕ)
    (input : List ℕ) (buf buf' : List ℕ)
    → position % 512 + n ≡ 512
    → n ≤ length input
    → prepared disk drive stack (position / 512) (position % 512) (length input) ≡ some buf
    → copy_in buf (position % 512) (take n input) ≡ ok buf'
    → disk_write_block disk drive (position / 512) buf' ≡ some drive'
    → Written disk drive position (take n input) drive'
    → Success rounds disk drive' stack (position + n) (drop n input)
    → Success (suc rounds) disk drive stack position input
unfolding Success write_rounds
write_rounds-crossing rounds disk drive drive' stack position n input buf buf' full le e e' e''
      written (drive'', e3, more) =
    (
      drive'',
      rw (write_rounds, e, over, size, e') (rw (◌>>=◌, e'', over, size, e3, there)),
      Written-parts disk drive drive' drive'' position n input le written more,
    )
  where
    over : overflows (position % 512) (length input) ≡ true
    over = ground arith

    size : length input - (position % 512 + length input - 512) ≡ n
    size = omega arith

    there : position + n + length (drop n input) ≡ position + length input
    there = omega (arith, length-drop n input)

Accessible-later :
    (disk : Disk) (drive : Drive) (s : ℕ) (buf : List ℕ) (first last first' last' : ℕ)
    → Accessible disk drive first last
    → first ≤ first'
    → last' ≤ last
    → Accessible disk (with_sector disk drive s buf) first' last'
unfolding Accessible
Accessible-later disk drive s buf first last first' last' accessible le le' =
    λ s lo hi. accessible s (omega arith) (omega arith)

pub Accessible-here :
    (disk : Disk) (drive : Drive) (first last : ℕ)
    → Accessible disk drive first last
    → first ≤ last
    → (crosses disk first 1 ≡ false) × (drive.bad (add64 disk.starting_lba first) ≡ false)
unfolding Accessible
Accessible-here disk drive first last accessible le = accessible first (omega arith) le

write_rounds-Success :
    (rounds : ℕ) (disk : Disk) (drive : Drive) (stack : ℕ → List ℕ) (position : ℕ) (input : List ℕ)
    → Formatted drive
    → ((s : ℕ) → length (stack s) ≡ 512)
    → Accessible disk drive (position / 512) ((position + length input) / 512)
    → disk.starting_lba + (position + length input) / 512 < 2 ^ 64
    → position % 512 + length input < 512 * rounds
    → Success rounds disk drive stack position input
unfolding WritesSector
write_rounds-Success zero disk drive stack position input formatted stacks accessible small enough =
    absurd (omega arith)
write_rounds-Success (suc rounds) disk drive stack position input formatted stacks accessible small
      enough =
    let (within, good) =
      Accessible-here disk drive (position / 512) ((position + length input) / 512) accessible
        (omega arith) in
    elim (Bool-cases (overflows (position % 512) (length input))) [
      | inr inside ↦
          write_rounds-inside rounds disk drive stack position input
            (write_sector_lem disk drive stack position input (length input) formatted stacks within
              good (omega arith) (ground (arith, inside)))
            inside
      | inl over ↦
          let n = 512 - position % 512 in
          let full : position % 512 + (512 - position % 512) ≡ 512 = omega arith in
          let le : 512 - position % 512 ≤ length input = ground (arith, over) in
          let (buf, buf', e, e', e'', formatted', written) =
            write_sector_lem disk drive stack position (take n input) (length input) formatted
              stacks within good (omega arith) (omega (arith, length-take n input)) in
          write_rounds-crossing rounds disk drive (with_sector disk drive (position / 512) buf')
            stack position n input buf buf' full le e e' e'' written
            (write_rounds-Success rounds disk (with_sector disk drive (position / 512) buf') stack
              (position + n) (drop n input) formatted' stacks
              (Accessible-later disk drive (position / 512) buf' (position / 512)
                ((position + length input) / 512) ((position + n) / 512)
                ((position + n + length (drop n input)) / 512) accessible (omega arith)
                (omega (arith, length-drop n input)))
              (omega (arith, length-drop n input)) (omega (arith, length-drop n input)))
    ]

-- Where the drive accepts every sector from that of the position to that of the position behind the last
-- byte, diskstreamer_write returns 0 and moves on by the number of bytes; the disk then holds the input
-- there, and the bytes before the position and in the sectors behind that of the new position are as they
-- were.
pub diskstreamer_write-Written :
    (disk : Disk) (drive : Drive) (stack : ℕ → List ℕ) (position : ℕ) (input : List ℕ)
    → Formatted drive
    → ((s : ℕ) → length (stack s) ≡ 512)
    → Accessible disk drive (position / 512) ((position + length input) / 512)
    → disk.starting_lba + (position + length input) / 512 < 2 ^ 64
    → (drive' : Drive) × (diskstreamer_write disk drive stack position input
        ≡ ok (pos 0, position + length input, drive'))
      × Written disk drive position input drive'
unfolding diskstreamer_write Success
diskstreamer_write-Written disk drive stack position input formatted stacks accessible small =
    write_rounds-Success (length input / 512 + 2) disk drive stack position input formatted stacks
      accessible small (omega arith)
