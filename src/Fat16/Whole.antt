-- ===== src/Fat16/Whole.antt =====
-- fat16_read of ViOS64Bit/src/fs/fat/fat16.c, over the clusters of the file.
use native.Mathlib.Nat.{div-add-mod', div-eq_of_lt}
use vi_os.Prelude.{
  ℕ, zero, suc, ◌+◌, ◌-◌, ◌*◌, ◌/◌, ◌%◌, ◌^◌, ◌≤◌, ◌<◌, ◌≡◌, refl, ap, sym, ◌∙◌, Bool-cases, inl,
  inr, false, List, [], ◌∷◌, some, arith, length, Run, ok, ℤ, pos, is_negative, min, leb, ◌==◌,
}
use vi_os.Streamer.{Disk, Drive}
use vi_os.Fat16.{FatPrivate, cluster_bytes}
use vi_os.Fat16.Contents.{file_range, file_range-append}
use vi_os.Fat16.Read.{IsFile, read_internal-file_range}
use vi_os.Fat16.Directory.{file_item, filesize, get_first_cluster}
use vi_os.Fat16.Writing.{FatFile}
use vi_os.Fat16.OpenFile.{read_members, read_file}

module _ (disk : Disk) (drive : Drive) (private : FatPrivate) (cluster : ℕ) (next : List ℕ)
    (last : ℕ) (file : IsFile disk drive private cluster next last) where
  read_members-file_range :
      (members offset size : ℕ) (res : ℤ)
      → is_negative res ≡ false
      → offset + members * size ≤ length (cluster ∷ next) * cluster_bytes private
      → (res' : ℤ) × (read_members members disk drive private cluster offset size res
          ≡ ok (res', file_range disk drive private (cluster ∷ next) offset (members * size)))
        × (is_negative res' ≡ false)
  unfolding read_members
  read_members-file_range zero offset size res good le =
      let nothing : 0 * size ≡ 0 = omega arith in
      (res, rw nothing (unfold file_range in refl), good)
  read_members-file_range (suc members) offset size res good le =
      let more : suc members * size ≡ size + members * size = omega arith in
      let here =
        read_internal-file_range disk drive private cluster next last offset size file
          (omega (arith, more, le)) in
      let (res', there, good') =
        read_members-file_range members (offset + size) size (pos size) refl
          (omega (arith, more, le)) in
      (
        res',
        rw
            (
              here,
              there,
              more,
              file_range-append disk drive private (cluster ∷ next) offset size (members * size),
            )
            refl,
        good',
      )

  -- The number of whole members of a read.
  abbrev pub whole_members : FatFile → List ℕ → ℕ → ℕ → ℕ
  whole_members descriptor item size nmemb =
      min (size * nmemb) (filesize item - descriptor.pos) / size

  -- fat16_read of members of a byte at least, fewer than 2^32 bytes in all, of a file whose clusters have a sector at
  -- least and together room for its size, are numbered from 2 to 0xFFEF, none of them 0xFF7, are linked in the table
  -- up to an end mark, and end before the sector `last`, up to which every sector of the disk can be read, returns
  -- the number of whole members from the position to the end of the file, or the number asked for if it is smaller;
  -- it gives their bytes and moves on behind them.
  pub read_file-file_range :
      (descriptor : FatFile) (item : List ℕ) (sector offset size nmemb : ℕ)
      → descriptor.item ≡ file_item (some item) sector offset
      → get_first_cluster item ≡ cluster
      → filesize item ≤ length (cluster ∷ next) * cluster_bytes private
      → 0 < size
      → size * nmemb < 2 ^ 32
      → read_file disk drive private descriptor size nmemb
        ≡ ok (
          (
            pos (whole_members descriptor item size nmemb),
            file_range disk drive private
                (cluster ∷ next)
                descriptor.pos
                (whole_members descriptor item size nmemb * size),
          ),
          record descriptor {
            pos = descriptor.pos + whole_members descriptor item size nmemb * size;
          },
        )
  unfolding read_file
  read_file-file_range descriptor item sector offset size nmemb e first enough some_size small =
      let n = whole_members descriptor item size nmemb in
      let sized : (size == 0) ≡ false = ground arith in
      let total : size * nmemb % 2 ^ 32 ≡ size * nmemb = omega arith in
      elim (Bool-cases (n == 0)) [
        | inl none_left ↦
            let at_end : n ≡ 0 = ground arith in
            let nothing : 0 * size ≡ 0 = omega arith in
            let stays : descriptor.pos + 0 ≡ descriptor.pos = omega arith in
            let read_none : read_file disk drive private descriptor size nmemb
                ≡ ok ((pos 0, []), descriptor) =
              rw (e, sized, total, none_left) refl in
            read_none
            ∙ sym (ap (λ m. answer m) at_end ∙ rw (nothing, stays) (unfold file_range in refl))
        | inr some_left ↦
            let (res, run, good) =
              read_members-file_range n descriptor.pos size (pos 0) refl
                (inside (ground (arith, some_left))) in
            rw (e, sized, total, some_left, first, run, good) refl
      ]
    where
      answer : ℕ → Run ((ℤ × List ℕ) × FatFile)
      answer m = ok (
        (pos m, file_range disk drive private (cluster ∷ next) descriptor.pos (m * size)),
        record descriptor { pos = descriptor.pos + m * size },
      )

      whole : whole_members descriptor item size nmemb * size ≤ filesize item - descriptor.pos
      whole = omega (arith, div-add-mod' (min (size * nmemb) (filesize item - descriptor.pos)) size)

      behind : filesize item < descriptor.pos → whole_members descriptor item size nmemb ≡ 0
      behind gt =
          let nothing : min (size * nmemb) (filesize item - descriptor.pos) ≡ 0 = omega arith in
          ap (λ t. t / size) nothing ∙ div-eq_of_lt {n = 0} {m = size} some_size

      inside :
          0 < whole_members descriptor item size nmemb
          → descriptor.pos + whole_members descriptor item size nmemb * size
            ≤ length (cluster ∷ next) * cluster_bytes private
      inside some_left = elim (Bool-cases (leb descriptor.pos (filesize item))) [
        | inl le ↦ ground (arith, whole, enough)
        | inr gt ↦ absurd (omega (arith, some_left, behind (ground arith)))
      ]
