-- ===== src/Fat16/Contents.antt =====
-- The bytes of a file of ViOS64Bit/src/fs/fat/fat16.c, and how they are read.
use native.Mathlib.Nat.{div-add-mod', mul-add-div_right, div-eq_of_lt}
use vi_os.Prelude.{
  ℕ, zero, suc, ◌+◌, ◌*◌, ◌/◌, ◌%◌, ◌≤◌, ◌<◌, ◌≡◌, refl, ap, ◌∙◌, List, [], ◌∷◌, ◌++◌, some, arith,
  length, get_elem?, get_or, Run, ℤ, neg,
}
use vi_os.Config.{e_outofrange}
use vi_os.Streamer.{Disk, Drive}
use vi_os.Streamer.Bytes.{byte, range}
use vi_os.Fat16.{FatPrivate, cluster_bytes, cluster_to_sector}
use vi_os.Fat16.Chain.{Linked}

-- Where the byte `i` of a file with the given clusters stands on the disk.
unfoldable pub place : FatPrivate → List ℕ → ℕ → ℕ
place private clusters i =
    cluster_to_sector private (get_or clusters (i / cluster_bytes private) 0) * 512
    + i % cluster_bytes private

-- `n` bytes of the file, from `i` on.
unfoldable pub file_range : Disk → Drive → FatPrivate → List ℕ → ℕ → ℕ → List ℕ
unfolding place
file_range disk drive private clusters i zero = []
file_range disk drive private clusters i (suc n) =
    byte disk drive (place private clusters i) ∷ file_range disk drive private clusters (i + 1) n

pub file_range-append :
    (disk : Disk) (drive : Drive) (private : FatPrivate) (clusters : List ℕ) (i m n : ℕ)
    → file_range disk drive private clusters i (m + n)
      ≡ file_range disk drive private clusters i m
        ++ file_range disk drive private clusters (i + m) n
unfolding file_range
file_range-append disk drive private clusters i zero n =
    let same : i + 0 ≡ i = omega arith in
    let none_more : 0 + n ≡ n = omega arith in rw (same, none_more)
file_range-append disk drive private clusters i (suc m) n =
    let more : suc m + n ≡ suc (m + n) = omega arith in
    rw more (
      ap (λ t. byte disk drive (place private clusters i) ∷ t)
        (file_range-append disk drive private clusters (i + 1) m n
          ∙ ap
              (λ q.
                file_range disk drive private clusters (i + 1) m
                ++ file_range disk drive private clusters q n)
              (omega arith)))

-- Moving on inside of one unit of `m`.
module _ (m i k : ℕ) (inside : i % m + k < m) where
  split : i + k ≡ i / m * m + (i % m + k)
  split = omega (arith, div-add-mod' i m)

  same_unit : (i + k) / m ≡ i / m
  same_unit =
      ap (λ n. n / m) split
      ∙ mul-add-div_right {m = m} (omega arith) (i / m) (i % m + k)
      ∙ omega (arith, div-eq_of_lt {n = i % m + k} {m = m} inside)

  next_offset : (i + k) % m ≡ i % m + k
  next_offset = omega (arith, div-add-mod' (i + k) m, ap (λ q. q * m) same_unit, split)

place-inside :
    (private : FatPrivate) (clusters : List ℕ) (i k : ℕ)
    → i % cluster_bytes private + k < cluster_bytes private
    → place private clusters (i + k) ≡ place private clusters i + k
unfolding place
place-inside private clusters i k lt =
    rw (same_unit (cluster_bytes private) i k lt, next_offset (cluster_bytes private) i k lt)
      (omega arith)

-- Inside of one cluster the bytes of the file are those of the disk.
pub file_range-range :
    (disk : Disk) (drive : Drive) (private : FatPrivate) (clusters : List ℕ) (i k n : ℕ)
    → i % cluster_bytes private + (k + n) ≤ cluster_bytes private
    → file_range disk drive private clusters (i + k) n
      ≡ range disk drive (place private clusters i + k) n
unfolding file_range range
file_range-range disk drive private clusters i k zero le = refl
file_range-range disk drive private clusters i k (suc n) le =
    rw (place-inside private clusters i k (omega arith)) (
      ap (λ t. byte disk drive (place private clusters i + k) ∷ t)
        (ap (λ q. file_range disk drive private clusters q n) (omega arith)
          ∙ file_range-range disk drive private clusters i (k + 1) n (omega arith)
          ∙ ap (λ q. range disk drive q n) (omega arith)))

pub get_elem?-get_or : (xs : List ℕ) (k : ℕ) → k < length xs → get_elem? xs k ≡ some (get_or xs k 0)
get_elem?-get_or [] k lt = absurd (omega arith)
get_elem?-get_or (x ∷ xs) zero lt = refl
get_elem?-get_or (x ∷ xs) (suc k) lt = get_elem?-get_or xs k (omega arith)

pub cluster-lt :
    (get_entry : ℕ → Run ℤ) (cluster : ℕ) (next : List ℕ) (k : ℕ)
    → Linked get_entry cluster next (neg e_outofrange)
    → cluster < 65528
    → k < length (cluster ∷ next)
    → get_or (cluster ∷ next) k 0 < 65536
cluster-lt get_entry cluster next zero linked lt inside = omega arith
cluster-lt get_entry cluster [] (suc k) linked lt inside = absurd (omega arith)
cluster-lt get_entry cluster (c ∷ next) (suc k) linked lt inside =
    cluster-lt get_entry c next k (linked.2) (omega (arith, linked.1.1)) (omega arith)
