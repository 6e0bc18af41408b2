-- ===== src/Fat16/Chain.antt =====
-- The chain of a file's clusters in the file allocation table of ViOS64Bit/src/fs/fat/fat16.c.
use vi_os.Prelude.{
  ℕ, zero, suc, ◌/◌, ◌%◌, ◌≤◌, ◌<◌, ◌≡◌, refl, true, false, List, [], ◌∷◌, Option, none, some,
  arith, get_elem?, Run, ok, ◌==◌, leb, ℤ, pos, neg,
}
use vi_os.Config.{e_io, e_outofrange}
use vi_os.Streamer.{Disk, Drive}
use vi_os.Fat16.{
  FatPrivate, not_a_link, follow, get_fat_entry, get_cluster_for_offset, cluster_bytes,
}

-- The entries that are not the number of a cluster, and what a search that comes to one answers. That 0xFF7 is among
-- them is the code's own rule; the mark of a bad cluster is 0xFFF7.
pub data Ending : ℕ → ℤ → Type 0 where
  end_mark : (entry : ℕ) → 65528 ≤ entry → entry < 65536 → Ending entry (neg e_outofrange)
  reserved : (entry : ℕ) → 65520 ≤ entry → entry ≤ 65526 → Ending entry (neg e_io)
  unused : Ending 0 (neg e_io)
  taken_for_bad : Ending 0xFF7 (neg e_io)

-- The numbers of the clusters of data that the code can follow.
abbrev pub IsCluster : ℕ → Type 0
IsCluster c = (2 ≤ c) × (c < 65520) × ((c == 0xFF7) ≡ false)

-- The table links `cluster` to the clusters `next`; the entry of the last one ends the chain with the answer `res`.
abbrev pub Linked : (ℕ → Run ℤ) → ℕ → List ℕ → ℤ → Type 0
Linked get_entry cluster [] res = (last : ℕ) × (get_entry cluster ≡ ok (pos last)) × Ending last res
Linked get_entry cluster (c ∷ next) res =
    (get_entry cluster ≡ ok (pos c)) × IsCluster c × Linked get_entry c next res

-- What is answered for the `k`th cluster of a chain that ends with `res`.
abbrev pub answer : ℤ → Option ℕ → ℤ
answer res none = res
answer res (some c) = pos c

follow-Ending :
    (get_entry : ℕ → Run ℤ) (k cluster last : ℕ) (res : ℤ)
    → get_entry cluster ≡ ok (pos last)
    → Ending last res
    → follow get_entry (suc k) cluster ≡ ok res
unfolding follow
follow-Ending get_entry k cluster _ _ e (end_mark last lo hi) =
    let same : last % 65536 ≡ last = omega arith in
    let ends : leb 65528 last ≡ true = ground arith in rw (e, same, ends)
follow-Ending get_entry k cluster _ _ e (reserved last lo hi) =
    let same : last % 65536 ≡ last = omega arith in
    let more : leb 65528 last ≡ false = ground arith in
    let stops : not_a_link last ≡ true = ground arith in rw (e, same, more, stops)
follow-Ending get_entry k cluster _ _ e unused = rw e refl
follow-Ending get_entry k cluster _ _ e taken_for_bad = rw e refl

follow-Linked :
    (get_entry : ℕ → Run ℤ) (k cluster : ℕ) (next : List ℕ) (res : ℤ)
    → Linked get_entry cluster next res
    → follow get_entry k cluster ≡ ok (answer res (get_elem? (cluster ∷ next) k))
unfolding follow
follow-Linked get_entry zero cluster next res linked = refl
follow-Linked get_entry (suc k) cluster [] res (last, e, ending) =
    follow-Ending get_entry k cluster last res e ending
follow-Linked get_entry (suc k) cluster (c ∷ next) res (e, (lo, hi, other), linked) =
    let same : c % 65536 ≡ c = omega arith in
    let more : leb 65528 c ≡ false = ground arith in
    let link : not_a_link c ≡ false = ground (arith, other) in
    rw (e, same, more, link, follow-Linked get_entry k c next res linked)

-- Where a cluster has a sector at least, and the table links the clusters of a file, of which those behind the first
-- are numbered from 2 to 0xFFEF and none of them 0xFF7, the cluster of an offset is the one that many whole clusters
-- ahead; behind the last the answer is -EOUTOFRANGE if its entry is an end mark from 0xFFF8 on, and -EIO if it is 0,
-- one from 0xFFF0 to 0xFFF6, or 0xFF7.
pub get_cluster_for_offset-Linked :
    (disk : Disk) (drive : Drive) (private : FatPrivate) (cluster offset : ℕ) (next : List ℕ)
    (res : ℤ)
    → Linked (get_fat_entry disk drive private) cluster next res
    → 0 < cluster_bytes private
    → get_cluster_for_offset disk drive private cluster offset
      ≡ ok (answer res (get_elem? (cluster ∷ next) (offset / cluster_bytes private)))
unfolding get_cluster_for_offset
get_cluster_for_offset-Linked disk drive private cluster offset next res linked positive =
    let divides : (cluster_bytes private == 0) ≡ false = ground arith in
    rw (
      divides,
      follow-Linked (get_fat_entry disk drive private) (offset / cluster_bytes private) cluster next
          res linked,
    )

-- The entry that marks a bad cluster, 0xFFF7, is taken for the number of a cluster of the file.
pub get_cluster_for_offset-bad :
    (disk : Disk) (drive : Drive) (private : FatPrivate) (cluster offset : ℕ)
    → 0 < cluster_bytes private
    → offset / cluster_bytes private ≡ 1
    → get_fat_entry disk drive private cluster ≡ ok (pos 0xFFF7)
    → get_cluster_for_offset disk drive private cluster offset ≡ ok (pos 0xFFF7)
unfolding get_cluster_for_offset follow
get_cluster_for_offset-bad disk drive private cluster offset positive one e =
    let divides : (cluster_bytes private == 0) ≡ false = ground arith in rw (divides, one, e)
