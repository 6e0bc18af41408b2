-- ===== src/Fat16/Read.antt =====
-- fat16_read_internal of ViOS64Bit/src/fs/fat/fat16.c reads the bytes of a file.
use Prim.Native.Nat.{min}
use native.Mathlib.Nat.{div-lt_iff_lt-mul, mod-lt}
use vi_os.Prelude.{
  ℕ, zero, suc, ◌+◌, ◌-◌, ◌*◌, ◌/◌, ◌%◌, ◌≤◌, ◌<◌, ◌≡◌, refl, ap, sym, ◌∙◌, false, List, ◌∷◌, ◌++◌,
  arith, length, get_or, ok, ◌>>=◌, ◌==◌, pos, neg,
}
use vi_os.Config.{e_outofrange}
use vi_os.Streamer.{Disk, Drive, diskstreamer_read}
use vi_os.Streamer.Bytes.{Formatted, range}
use vi_os.Streamer.Read.{Readable, Readable-later, diskstreamer_read-range}
use vi_os.Fat16.{
  FatPrivate, get_fat_entry, get_cluster_for_offset, cluster_bytes, cluster_to_sector, read_loop,
  read_internal,
}
use vi_os.Fat16.Chain.{IsCluster, Linked, answer, get_cluster_for_offset-Linked}
use vi_os.Fat16.Contents.{
  place, file_range, file_range-append, file_range-range, get_elem?-get_or, cluster-lt,
}

-- A file on the disk: the table links its clusters, up to an end mark, and each of them ends before the sector `last`,
-- up to which the drive gives every sector.
pub record IsFile (disk : Disk) (drive : Drive) (private : FatPrivate) (cluster : ℕ) (next : List ℕ)
    (last : ℕ) : Type 0 where
  pub formatted : Formatted drive
  pub readable : Readable disk drive 0 last
  pub some_bytes : 0 < cluster_bytes private
  pub first : IsCluster cluster
  pub linked : Linked (get_fat_entry disk drive private) cluster next (neg e_outofrange)
  pub ends :
      (k : ℕ)
      → k < length (cluster ∷ next)
      → cluster_to_sector private (get_or (cluster ∷ next) k 0) * 512 + cluster_bytes private
        ≤ 512 * last

module _ (disk : Disk) (drive : Drive) (private : FatPrivate) (cluster : ℕ) (next : List ℕ)
    (last : ℕ) (file : IsFile disk drive private cluster next last) where
  inside :
      (i : ℕ)
      → i < length (cluster ∷ next) * cluster_bytes private
      → i / cluster_bytes private < length (cluster ∷ next)
  inside i lt = (div-lt_iff_lt-mul file.some_bytes).1 lt

  -- The cluster of an offset inside of the file.
  cluster_found :
      (i : ℕ)
      → i < length (cluster ∷ next) * cluster_bytes private
      → get_cluster_for_offset disk drive private cluster i
        ≡ ok (pos (get_or (cluster ∷ next) (i / cluster_bytes private) 0))
  cluster_found i lt =
      get_cluster_for_offset-Linked disk drive private cluster i next (neg e_outofrange) file.linked
        file.some_bytes
      ∙ ap (λ found. ok (answer (neg e_outofrange) found))
          (get_elem?-get_or (cluster ∷ next) (i / cluster_bytes private) (inside i lt))

  -- A transfer inside of one cluster.
  transfer :
      (i n : ℕ)
      → i < length (cluster ∷ next) * cluster_bytes private
      → i % cluster_bytes private + n ≤ cluster_bytes private
      → diskstreamer_read disk drive (place private (cluster ∷ next) i) n
        ≡ ok (
          pos 0,
          place private (cluster ∷ next) i + n,
          file_range disk drive private (cluster ∷ next) i n,
        )
  unfolding place
  transfer i n lt le =
      diskstreamer_read-range disk drive (place private (cluster ∷ next) i) n file.formatted (
        Readable-later disk drive 0 last (place private (cluster ∷ next) i / 512)
          ((place private (cluster ∷ next) i + n) / 512) file.readable (omega arith)
          (omega (arith, file.ends (i / cluster_bytes private) (inside i lt))))
      ∙ ap (λ out. ok (pos 0, place private (cluster ∷ next) i + n, out))
          (sym (
              file_range-range disk drive private (cluster ∷ next) i 0 n (omega arith)
              ∙ ap (λ q. range disk drive q n) (omega arith))
            ∙ ap (λ q. file_range disk drive private (cluster ∷ next) q n) (omega arith))

  nothing :
      (rounds i bytes_read : ℕ)
      → read_loop (suc rounds) disk drive private cluster i 0 bytes_read
        ≡ ok (pos (bytes_read + 0), file_range disk drive private (cluster ∷ next) i 0)
  unfolding read_loop file_range
  nothing rounds i bytes_read = let same : bytes_read + 0 ≡ bytes_read = omega arith in rw same

  -- One round, which reads `n` bytes.
  round :
      (rounds i total bytes_read n : ℕ) (out : List ℕ)
      → (total == 0) ≡ false
      → i < length (cluster ∷ next) * cluster_bytes private
      → min (cluster_bytes private - i % cluster_bytes private) total ≡ n
      → i % cluster_bytes private + n ≤ cluster_bytes private
      → read_loop rounds disk drive private cluster (i + n) (total - n) (bytes_read + n)
        ≡ ok (pos (bytes_read + total), out)
      → read_loop (suc rounds) disk drive private cluster i total bytes_read
        ≡ ok (pos (bytes_read + total), file_range disk drive private (cluster ∷ next) i n ++ out)
  unfolding read_loop place
  round rounds i total bytes_read n out more lt size le rest =
      rw (read_loop, more, cluster_found i lt)
        (rw (to_u16_same, size) (rw (transfer i n lt le, ◌>>=◌) (rw rest)))
    where
      to_u16_same :
          get_or (cluster ∷ next) (i / cluster_bytes private) 0 % 65536
          ≡ get_or (cluster ∷ next) (i / cluster_bytes private) 0
      to_u16_same = omega (
        arith,
        cluster-lt (get_fat_entry disk drive private) cluster next (i / cluster_bytes private)
            file.linked (omega (arith, file.first.1)) (inside i lt),
      )

  read_loop-file_range :
      (rounds i total bytes_read : ℕ)
      → total < rounds
      → i + total ≤ length (cluster ∷ next) * cluster_bytes private
      → read_loop rounds disk drive private cluster i total bytes_read
        ≡ ok (pos (bytes_read + total), file_range disk drive private (cluster ∷ next) i total)
  read_loop-file_range zero i total bytes_read enough le = absurd (omega arith)
  read_loop-file_range (suc rounds) i zero bytes_read enough le = nothing rounds i bytes_read
  read_loop-file_range (suc rounds) i (suc total) bytes_read enough le =
      some_bytes (min (cluster_bytes private - i % cluster_bytes private) (suc total)) refl
        (λ n positive small.
          read_loop-file_range rounds (i + n) (suc total - n) (bytes_read + n) (omega arith)
            (omega arith))
    where
      offset : i % cluster_bytes private < cluster_bytes private
      offset = mod-lt i file.some_bytes

      joined :
          (n : ℕ)
          → n ≤ suc total
          → file_range disk drive private (cluster ∷ next) i n
              ++ file_range disk drive private (cluster ∷ next) (i + n) (suc total - n)
            ≡ file_range disk drive private (cluster ∷ next) i (suc total)
      joined n small =
          sym (file_range-append disk drive private (cluster ∷ next) i n (suc total - n))
          ∙ ap (file_range disk drive private (cluster ∷ next) i) (omega arith)

      some_bytes :
          (n : ℕ)
          → min (cluster_bytes private - i % cluster_bytes private) (suc total) ≡ n
          → ((n : ℕ)
              → 0 < n
              → n ≤ suc total
              → read_loop rounds disk drive private cluster (i + n) (suc total - n) (bytes_read + n)
                ≡ ok (
                  pos (bytes_read + n + (suc total - n)),
                  file_range disk drive private (cluster ∷ next) (i + n) (suc total - n),
                ))
          → read_loop (suc rounds) disk drive private cluster i (suc total) bytes_read
            ≡ ok (
              pos (bytes_read + suc total),
              file_range disk drive private (cluster ∷ next) i (suc total),
            )
      some_bytes n size rest =
          let positive : 0 < n = omega (arith, offset) in
          let small : n ≤ suc total = omega arith in
          round rounds i (suc total) bytes_read n
            (file_range disk drive private (cluster ∷ next) (i + n) (suc total - n)) (ground arith)
            (omega arith) size (omega (arith, offset))
            (rest n positive small
              ∙ ap
                  (λ q.
                    ok (
                      pos q,
                      file_range disk drive private (cluster ∷ next) (i + n) (suc total - n),
                    ))
                  (omega arith))
          ∙ ap (λ out. ok (pos (bytes_read + suc total), out)) (joined n small)

-- Reading inside of the clusters of a file returns the number of bytes asked for, and gives the bytes of the
-- file from the offset on.
pub read_internal-file_range :
    (disk : Disk) (drive : Drive) (private : FatPrivate) (cluster : ℕ) (next : List ℕ)
    (last offset total : ℕ)
    → IsFile disk drive private cluster next last
    → offset + total ≤ length (cluster ∷ next) * cluster_bytes private
    → read_internal disk drive private cluster offset total
      ≡ ok (pos total, file_range disk drive private (cluster ∷ next) offset total)
unfolding read_internal
read_internal-file_range disk drive private cluster next last offset total file le =
    let same : cluster % 65536 ≡ cluster = omega (arith, file.first) in
    rw same (
      read_loop-file_range disk drive private cluster next last file (total + 1) offset total 0
        (omega arith) le
      ∙ ap (λ q. ok (pos q, file_range disk drive private (cluster ∷ next) offset total))
          (omega arith))
