-- ===== src/Fat16/Rewrite.antt =====
-- fat16_write_internal and fat16_read_internal of ViOS64Bit/src/fs/fat/fat16.c, one after the other.
use native.Mathlib.Nat.{div-eq_of_lt, mod-eq_of_lt, zero-add}
use vi_os.Prelude.{
  ℕ, suc, ◌+◌, ◌-◌, ◌*◌, ◌/◌, ◌%◌, ◌^◌, ◌≤◌, ◌<◌, ◌≡◌, refl, ap, ◌∙◌, true, false, List, [], ◌∷◌,
  ◌++◌, append-nil, arith, length, take, get_or, ok, pos, min, ◌==◌,
}
use vi_os.Streamer.{Disk, Drive, diskstreamer_read, diskstreamer_write}
use vi_os.Streamer.Bytes.{byte, range}
use vi_os.Streamer.Read.{diskstreamer_read-range}
use vi_os.Streamer.Write.{diskstreamer_write-Written}
use vi_os.Fat16.{
  FatPrivate, cluster_bytes, cluster_to_sector, follow, get_cluster_for_offset, read_loop,
  read_internal,
}
use vi_os.Fat16.Table.{Usable, Accessible-inside, Accessible-Readable, Accessible-same}
use vi_os.Fat16.Writing.{sector_of, write_loop, write_internal}

range-bytes :
    (disk : Disk) (drive : Drive) (position : ℕ) (input : List ℕ)
    → ((j : ℕ) → j < length input → byte disk drive (position + j) ≡ get_or input j 0)
    → range disk drive position (length input) ≡ input
unfolding range
range-bytes disk drive position [] inside = refl
range-bytes disk drive position (b ∷ input) inside =
    let here : byte disk drive position ≡ b =
      ap (byte disk drive) (omega arith) ∙ inside 0 (omega arith) in
    let behind = λ (j : ℕ) (lt : j < length input).
      ap (byte disk drive) (omega arith) ∙ inside (suc j) (omega arith) in
    rw (here, range-bytes disk drive (position + 1) input behind)

take-all : (xs : List ℕ) → take (length xs) xs ≡ xs
take-all [] = refl
take-all (x ∷ xs) = ap (λ ys. x ∷ ys) (take-all xs)

module _ (disk : Disk) (private : FatPrivate) (cluster offset : ℕ) (small : cluster < 65536)
    (inside : offset < cluster_bytes private) where
  first_offset : offset % cluster_bytes private ≡ offset
  first_offset = mod-eq_of_lt {n = offset} {m = cluster_bytes private} inside

  cluster-first :
      (drive : Drive)
      → get_cluster_for_offset disk drive private (cluster % 65536) offset ≡ ok (pos cluster)
  unfolding get_cluster_for_offset follow
  cluster-first drive =
      let some_bytes : (cluster_bytes private == 0) ≡ false = ground arith in
      let none_ahead : offset / cluster_bytes private ≡ 0 =
        div-eq_of_lt {n = offset} {m = cluster_bytes private} inside in
      let same : cluster % 65536 ≡ cluster = omega arith in rw (some_bytes, none_ahead, same)

-- Where the bytes of the first cluster of a file are written or read.
abbrev pub first_place : FatPrivate → ℕ → ℕ → ℕ
first_place private cluster offset = cluster_to_sector private cluster * 512 + offset

module _ (disk : Disk) (private : FatPrivate) (cluster offset : ℕ) (small : cluster < 65536) where
  write-first :
      (stack : ℕ → List ℕ) (drive drive' : Drive) (b : ℕ) (bytes : List ℕ) (position : ℕ)
      → offset + length (b ∷ bytes) ≤ cluster_bytes private
      → diskstreamer_write disk drive stack (first_place private cluster offset) (b ∷ bytes)
        ≡ ok (pos 0, position, drive')
      → write_internal disk private stack drive cluster offset (b ∷ bytes)
        ≡ ok (pos (length (b ∷ bytes)), drive')
  unfolding write_internal write_loop sector_of
  write-first stack drive drive' b bytes position le written =
      let inside : offset < cluster_bytes private = omega arith in
      let rounds : length (b ∷ bytes) + 1 ≡ suc (length (b ∷ bytes)) = omega arith in
      let all : min (cluster_bytes private - offset) (length (b ∷ bytes)) ≡ length (b ∷ bytes) =
        omega arith in
      let ends : (length (b ∷ bytes) == length (b ∷ bytes)) ≡ true = ground arith in
      rw
        (
          cluster-first disk private cluster offset small inside drive,
          rounds,
          first_offset disk private cluster offset small inside,
        )
        (rw (all, take-all (b ∷ bytes), written, ends) (ap (λ n. ok (pos n, drive')) (omega arith)))

  read-first :
      (drive : Drive) (b : ℕ) (bytes : List ℕ) (position : ℕ)
      → offset + length (b ∷ bytes) ≤ cluster_bytes private
      → diskstreamer_read disk drive (first_place private cluster offset) (length (b ∷ bytes))
        ≡ ok (pos 0, position, b ∷ bytes)
      → read_internal disk drive private cluster offset (length (b ∷ bytes))
        ≡ ok (pos (length (b ∷ bytes)), b ∷ bytes)
  unfolding read_internal read_loop
  read-first drive b bytes position le read =
      let inside : offset < cluster_bytes private = omega arith in
      let rounds : length (b ∷ bytes) + 1 ≡ suc (length (b ∷ bytes)) = omega arith in
      let all : min (cluster_bytes private - offset) (length (b ∷ bytes)) ≡ length (b ∷ bytes) =
        omega arith in
      let some_left : (length (b ∷ bytes) == 0) ≡ false = ground arith in
      let done : length (b ∷ bytes) - length (b ∷ bytes) ≡ 0 = omega arith in
      let same : cluster % 65536 ≡ cluster = omega arith in
      rw
        (
          rounds,
          some_left,
          cluster-first disk private cluster offset small inside drive,
          first_offset disk private cluster offset small inside,
        )
        (rw (all, same, read, done)
          (ap (λ n. ok (pos n, b ∷ (bytes ++ []))) (zero-add (length (b ∷ bytes)))
            ∙ ap (λ ys. ok (pos (length (b ∷ bytes)), b ∷ ys)) (append-nil bytes)))

  -- Writing a byte or more inside of the first cluster of a file, on a disk whose sectors up to `last` can be read and
  -- written, the cluster and the sector behind it among them, returns the number of bytes; reading as many bytes there
  -- afterwards returns it too, and gives the bytes.
  pub write_internal-read_internal :
      (stack : ℕ → List ℕ) (drive : Drive) (b : ℕ) (bytes : List ℕ) (last : ℕ)
      → Usable disk drive last
      → ((s : ℕ) → length (stack s) ≡ 512)
      → disk.starting_lba + last < 2 ^ 64
      → offset + length (b ∷ bytes) ≤ cluster_bytes private
      → cluster_to_sector private cluster * 512 + cluster_bytes private ≤ 512 * last
      → (drive' : Drive) × (write_internal disk private stack drive cluster offset (b ∷ bytes)
          ≡ ok (pos (length (b ∷ bytes)), drive'))
        × (read_internal disk drive' private cluster offset (length (b ∷ bytes))
            ≡ ok (pos (length (b ∷ bytes)), b ∷ bytes))
  write_internal-read_internal stack drive b bytes last usable stacks room le ends =
      let p = first_place private cluster offset in
      let before : (p + length (b ∷ bytes)) / 512 ≤ last = omega arith in
      let (drive', written, result) =
        diskstreamer_write-Written disk drive stack p (b ∷ bytes) usable.formatted stacks
          (Accessible-inside disk drive last (p / 512) ((p + length (b ∷ bytes)) / 512)
            usable.accessible before)
          (omega arith) in
      let accessible = Accessible-same disk drive drive' last usable.accessible result.same_bad in
      let read = diskstreamer_read-range disk drive' p (length (b ∷ bytes)) result.formatted (
        Accessible-Readable disk drive' (p / 512) ((p + length (b ∷ bytes)) / 512) (
          Accessible-inside disk drive' last (p / 512) ((p + length (b ∷ bytes)) / 512) accessible
            before)) in
      (
        drive',
        write-first stack drive drive' b bytes (p + length (b ∷ bytes)) le written,
        read-first drive' b bytes (p + length (b ∷ bytes)) le (
            read
            ∙ ap (λ out. ok (pos 0, p + length (b ∷ bytes), out))
                (range-bytes disk drive' p (b ∷ bytes) result.inside)),
      )
