-- ===== src/Fat16/Free.antt =====
-- The search for an unused cluster of ViOS64Bit/src/fs/fat/fat16.c, and its allocation.
use vi_os.Prelude.{
  ℕ, zero, suc, ◌+◌, ◌-◌, ◌≤◌, ◌<◌, ◌≡◌, refl, ◌∙◌, ◌⊎◌, inl, inr, false, List, arith, Run, ok,
  ◌>>=◌, ℤ, pos, neg, ◌/◌, ◌^◌, true, ap, sym, to_int32-small, to_int32-large, ◌==◌, none,
  Bool-cases,
}
use native.Mathlib.Nat.{zero-div}
use vi_os.Config.{e_nomem}
use vi_os.Streamer.{Disk, Drive}
use vi_os.Fat16.{
  FatPrivate, get_fat_entry, find_free, find_free_cluster, total_sectors, total_clusters,
  rounds_from_two, allocate_cluster,
}
use vi_os.Fat16.Table.{IsWritable, set_fat_entry-get_fat_entry}

-- What a search of the clusters `first` to `first + rounds - 1` is to give: the first one without a use, if any.
pub data Found (entry : ℕ → ℕ) (first rounds : ℕ) : ℤ → Type 0 where
  full :
      ((c : ℕ) → first ≤ c → c < first + rounds → 0 < entry c)
      → Found entry first rounds (neg e_nomem)
  found :
      (c : ℕ)
      → first ≤ c
      → c < first + rounds
      → entry c ≡ 0
      → ((c' : ℕ) → first ≤ c' → c' < c → 0 < entry c')
      → Found entry first rounds (pos c)

at_or_after : (first c : ℕ) → first ≤ c → (c ≡ first) ⊎ (first + 1 ≤ c)
at_or_after first c le = elim (Bool-cases (c == first)) [
  | inl e ↦ inl (ground arith)
  | inr e ↦ inr (ground arith)
]

Found-later :
    (entry : ℕ → ℕ) (first rounds : ℕ) (res : ℤ)
    → 0 < entry first
    → Found entry (first + 1) rounds res
    → Found entry first (suc rounds) res
Found-later entry first rounds _ used (full all) = full (λ c lo hi. elim (at_or_after first c lo) [
  | inl e ↦ rw e used
  | inr after ↦ all c after (omega arith)
])
Found-later entry first rounds _ used (found c lo hi unused least) =
    found c (omega arith) (omega arith) unused (λ c' lo' hi'. elim (at_or_after first c' lo') [
      | inl e ↦ rw e used
      | inr after ↦ least c' after hi'
    ])

find_free-Found :
    (get_entry : ℕ → Run ℤ) (entry : ℕ → ℕ) (first rounds : ℕ)
    → ((c : ℕ) → first ≤ c → c < first + rounds → get_entry c ≡ ok (pos (entry c)))
    → (res : ℤ) × (find_free get_entry rounds first ≡ ok res) × Found entry first rounds res
unfolding find_free
find_free-Found get_entry entry first zero given =
    (neg e_nomem, refl, full (λ c lo hi. absurd (omega arith)))
find_free-Found get_entry entry first (suc rounds) given = elim (Bool-cases (entry first == 0)) [
  | inl unused ↦ (
    pos first,
    rw (given first (omega arith) (omega arith), ◌>>=◌) (rw unused refl),
    found first (omega arith) (omega arith) (ground (arith, unused))
        (λ c' lo hi. absurd (omega arith)),
  )
  | inr used ↦
      let (res, e, result) =
        find_free-Found get_entry entry (first + 1) rounds
          (λ c lo hi. given c (omega arith) (omega arith)) in
      (
        res,
        rw (given first (omega arith) (omega arith), ◌>>=◌) (rw used e),
        Found-later entry first rounds res (ground (arith, used)) result,
      )
]

-- The number of sectors that the search goes by: the small count, the large one where the small one is 0, and none
-- where the large one does not fit into an `int`.
pub data Sectors (private : FatPrivate) : ℕ → Type 0 where
  counted :
      (sectors : ℕ) → private.number_of_sectors ≡ sectors → 0 < sectors → Sectors private sectors
  counted_big :
      (sectors : ℕ)
      → private.number_of_sectors ≡ 0
      → private.sectors_big ≡ sectors
      → sectors < 2 ^ 31
      → Sectors private sectors
  overflowed :
      private.number_of_sectors ≡ 0
      → 2 ^ 31 ≤ private.sectors_big
      → private.sectors_big < 2 ^ 32
      → Sectors private 0

rounds-neg : (m : ℕ) → rounds_from_two (neg m) ≡ 0
rounds-neg zero = refl
rounds-neg (suc m) = refl

rounds-Sectors :
    (private : FatPrivate) (sectors : ℕ)
    → Sectors private sectors
    → rounds_from_two (total_clusters private) ≡ sectors / private.sectors_per_cluster - 2
unfolding total_clusters total_sectors
rounds-Sectors private sectors (counted _ e positive) =
    let some_small : (private.number_of_sectors == 0) ≡ false = ground arith in
    rw (some_small, e) refl
rounds-Sectors private sectors (counted_big _ none_small e small) =
    let nothing : (private.number_of_sectors == 0) ≡ true = ground arith in
    rw (nothing, e, to_int32-small sectors small) refl
rounds-Sectors private _ (overflowed none_small lo hi) =
    let nothing : (private.number_of_sectors == 0) ≡ true = ground arith in
    let (n, negative) = to_int32-large private.sectors_big (omega arith) in
    rw (nothing, negative)
      (rounds-neg (suc n / private.sectors_per_cluster)
        ∙ sym (ap (λ n. n - 2) (zero-div private.sectors_per_cluster)))

-- fat16_find_free_cluster, where a cluster has a sector at least, ends and returns the first cluster from 2 on, and
-- below the number of sectors by those of a cluster, whose entry is 0, or -ENOMEM if there is none; here where the
-- entries of these clusters can be read. The number of sectors is the large count where the small one is 0, and a
-- large count of 2^31 or more counts as 0.
pub find_free_cluster-Found :
    (disk : Disk) (drive : Drive) (private : FatPrivate) (sectors : ℕ) (entry : ℕ → ℕ)
    → 0 < private.sectors_per_cluster
    → Sectors private sectors
    → ((c : ℕ)
        → 2 ≤ c
        → c < 2 + (sectors / private.sectors_per_cluster - 2)
        → get_fat_entry disk drive private c ≡ ok (pos (entry c)))
    → (res : ℤ) × (find_free_cluster disk drive private ≡ ok res)
      × Found entry 2 (sectors / private.sectors_per_cluster - 2) res
unfolding find_free_cluster
find_free_cluster-Found disk drive private sectors entry positive count given =
    let divides : (private.sectors_per_cluster == 0) ≡ false = ground arith in
    let (res, e, result) =
      find_free-Found (get_fat_entry disk drive private) entry 2
        (sectors / private.sectors_per_cluster - 2) given in
    (res, rw (divides, rounds-Sectors private sectors count) e, result)

-- Allocating a cluster that is linked to no other one, where the search finds `cluster` and its entry can be
-- written, returns `cluster`; its entry is then 0xFFFF, and those of the clusters before it are as they were.
pub allocate_cluster-first :
    (disk : Disk) (drive : Drive) (private : FatPrivate) (stack : ℕ → List ℕ) (last cluster : ℕ)
    → find_free_cluster disk drive private ≡ ok (pos cluster)
    → IsWritable disk drive private stack last cluster
    → (drive' : Drive) × (allocate_cluster disk drive private stack none ≡ ok (pos cluster, drive'))
      × (get_fat_entry disk drive' private cluster ≡ ok (pos 0xFFFF))
      × ((c : ℕ)
          → c < cluster
          → get_fat_entry disk drive' private c ≡ get_fat_entry disk drive private c)
unfolding allocate_cluster
allocate_cluster-first disk drive private stack last cluster unused writable =
    let (drive', e, marked, before) =
      set_fat_entry-get_fat_entry disk drive private stack last cluster 0xFFFF writable
        (omega arith) in
    (drive', rw (unused, ◌>>=◌) (rw e refl), marked, before)
