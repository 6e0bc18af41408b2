-- ===== src/Fat16/Tests.antt =====
-- The theorems about the FAT16 driver at a small volume.
use vi_os.Prelude.{
  ℕ, zero, suc, ◌+◌, ◌-◌, ◌*◌, ◌≤◌, ◌<◌, ◌≡◌, refl, false, Bool-cases, inl, inr, List, [], ◌∷◌,
  ◌++◌, some, arith, replicate, length-replicate, ok, ◌==◌, if◌then◌else◌, ℤ, pos, neg, get_or,
  get_elem?,
}
use vi_os.Config.{e_outofrange}
use vi_os.Streamer.{Disk, Drive, crosses, disk_read_block, diskstreamer_read}
use vi_os.Streamer.Bytes.{Formatted}
use vi_os.Streamer.Read.{Readable}
use vi_os.Streamer.Sector.{Accessible}
use vi_os.Fat16.{
  FatPrivate, follow, get_fat_entry, get_cluster_for_offset, read_internal, set_fat_entry,
  find_free_cluster, cluster_to_sector,
}
use vi_os.Fat16.Directory.{
  FatDirectory, file_item, Volume, get_first_cluster, load_fat_directory, find_index,
  find_item_in_directory,
}
use vi_os.Fat16.Writing.{FatFile, write_internal}
use vi_os.Fat16.OpenFile.{read_file}
use vi_os.Fat16.Whole.{read_file-file_range}
use vi_os.Fat16.Rewrite.{write_internal-read_internal}
use vi_os.Fat16.Subdirectories.{find_item_in_directory-first_sectors}
use vi_os.CString.{istrncmp}
use vi_os.Fat16.Chain.{Linked, end_mark, answer, get_cluster_for_offset-Linked}
use vi_os.Fat16.Contents.{file_range}
use vi_os.Fat16.Read.{IsFile}
use vi_os.Fat16.NextEntries.{set_fat_entry-next_entries}
use vi_os.Fat16.Table.{IsWritable, set_fat_entry-get_fat_entry}
use vi_os.Fat16.Free.{Found, counted, find_free_cluster-Found}

abbrev primary : Disk
primary = record { starting_lba = 0; ending_lba = 0 }

-- A file in the clusters 2 and 3, a bad cluster 5 behind 4, and no other.
abbrev table : List ℕ
table = 248 ∷ 255 ∷ 255 ∷ 255 ∷ 3 ∷ 0 ∷ 255 ∷ 255 ∷ 247 ∷ 255 ∷ replicate 502 0

abbrev volume : Drive
volume = record { sectors = λ l. if l == 1 then table else replicate 512 7; bad = λ l. false }

abbrev private : FatPrivate
private = record {
  reserved_sectors = 1;
  fat_copies = 2;
  sectors_per_fat = 1;
  sectors_per_cluster = 1;
  number_of_sectors = 6;
  sectors_big = 0;
  ending_sector_pos = 3;
}

abbrev nines : ℕ → List ℕ
nines s = replicate 512 9

volume-Formatted : Formatted volume
unfolding Formatted
volume-Formatted = λ l. elim (Bool-cases (l == 1)) [
  | inl fat ↦ rw fat refl
  | inr other ↦ rw other (length-replicate {A = ℕ} 512 7)
]

volume-Readable : Readable primary volume 0 7
unfolding Readable disk_read_block
volume-Readable = λ s lo hi. ground arith

volume-Accessible : Accessible primary volume 0 7
unfolding Accessible crosses
volume-Accessible = λ s lo hi. (ground arith, refl)

entry_two : get_fat_entry primary volume private 2 ≡ ok (pos 3)
unfolding get_fat_entry diskstreamer_read
entry_two = refl

entry_three : get_fat_entry primary volume private 3 ≡ ok (pos 65535)
unfolding get_fat_entry diskstreamer_read
entry_three = refl

entry_four : get_fat_entry primary volume private 4 ≡ ok (pos 0xFFF7)
unfolding get_fat_entry diskstreamer_read
entry_four = refl

two_clusters-Linked : Linked (get_fat_entry primary volume private) 2 (3 ∷ []) (neg e_outofrange)
two_clusters-Linked = (
  entry_two,
  (omega arith, omega arith, refl),
  (65535, entry_three, end_mark 65535 (omega arith) (omega arith)),
)

get_cluster_for_offset-Linked_example :
    get_cluster_for_offset primary volume private 2 600
    ≡ ok (answer (neg e_outofrange) (get_elem? (2 ∷ 3 ∷ []) 1))
get_cluster_for_offset-Linked_example =
    get_cluster_for_offset-Linked primary volume private 2 600 (3 ∷ []) (neg e_outofrange)
      two_clusters-Linked (omega arith)

file_ends : (k : ℕ) → k < 2 → cluster_to_sector private (get_or (2 ∷ 3 ∷ []) k 0) * 512 + 512 ≤ 3584
unfolding cluster_to_sector
file_ends zero lt = omega arith
file_ends (suc zero) lt = omega arith
file_ends (suc (suc k)) lt = absurd (omega arith)

two_clusters-IsFile : IsFile primary volume private 2 (3 ∷ []) 7
two_clusters-IsFile = record {
  formatted = volume-Formatted;
  readable = volume-Readable;
  some_bytes = omega arith;
  first = (omega arith, omega arith, refl);
  linked = two_clusters-Linked;
  ends = file_ends;
}

copies_fit : (cluster k : ℕ) → cluster < 10 → k < 2 → 512 + cluster * 2 + k * 1 * 512 + 2 ≤ 512 * 7
copies_fit cluster k lt le = omega arith

volume-IsWritable : (cluster : ℕ) → cluster < 10 → IsWritable primary volume private nines 7 cluster
volume-IsWritable cluster lt = record {
  usable = record { formatted = volume-Formatted; accessible = volume-Accessible };
  stacks = λ s. length-replicate {A = ℕ} 512 9;
  small = omega arith;
  some_copy = omega arith;
  some_sector = omega arith;
  fits = λ k le. copies_fit cluster k lt le;
}

set_fat_entry-get_fat_entry_example :
    (drive' : Drive) × (set_fat_entry primary volume private nines 3 4 ≡ ok (pos 0, drive'))
    × (get_fat_entry primary drive' private 3 ≡ ok (pos 4))
    × ((c : ℕ)
        → c < 3
        → get_fat_entry primary drive' private c ≡ get_fat_entry primary volume private c)
set_fat_entry-get_fat_entry_example =
    set_fat_entry-get_fat_entry primary volume private nines 7 3 4
      (volume-IsWritable 3 (omega arith)) (omega arith)

-- The entry of cluster 0 begins the table.
set_fat_entry-next_entries_example :
    (drive' : Drive) × (set_fat_entry primary volume private nines 0 4 ≡ ok (pos 0, drive'))
    × ((k : ℕ)
        → 0 < k
        → k < 256
        → get_fat_entry primary drive' private (0 + k)
          ≡ ok (pos (get_or (nines 1) (2 * k) 0 + 256 * get_or (nines 1) (2 * k + 1) 0)))
set_fat_entry-next_entries_example =
    set_fat_entry-next_entries primary volume private nines 7 0 4
      (volume-IsWritable 0 (omega arith)) refl

abbrev entries : ℕ → ℕ
entries c = get_or (0 ∷ 0 ∷ 3 ∷ 65535 ∷ 0xFFF7 ∷ []) c 0

entries_read :
    (c : ℕ)
    → 2 ≤ c
    → c < 2 + (6 - 2)
    → get_fat_entry primary volume private c ≡ ok (pos (entries c))
unfolding get_fat_entry diskstreamer_read
entries_read zero lo hi = absurd (omega arith)
entries_read (suc zero) lo hi = absurd (omega arith)
entries_read (suc (suc zero)) lo hi = refl
entries_read (suc (suc (suc zero))) lo hi = refl
entries_read (suc (suc (suc (suc zero)))) lo hi = refl
entries_read (suc (suc (suc (suc (suc zero))))) lo hi = refl
entries_read (suc (suc (suc (suc (suc (suc c)))))) lo hi = absurd (omega arith)

find_free_cluster-Found_example :
    (res : ℤ) × (find_free_cluster primary volume private ≡ ok res) × Found entries 2 4 res
find_free_cluster-Found_example =
    find_free_cluster-Found primary volume private 6 entries (omega arith)
      (counted 6 refl (omega arith)) entries_read

free_five : find_free_cluster primary volume private ≡ ok (pos 5)
unfolding find_free_cluster get_fat_entry diskstreamer_read
free_five = refl

-- A file of 600 bytes from cluster 2 on, open at 500.
abbrev entry : List ℕ
entry = replicate 26 0 ++ (2 ∷ 0 ∷ 88 ∷ 2 ∷ 0 ∷ 0 ∷ [])

abbrev descriptor : FatFile
descriptor = record { item = file_item (some entry) 3 0; pos = 500 }

entry-cluster : get_first_cluster entry ≡ 2
unfolding get_first_cluster
entry-cluster = refl

-- 100 bytes are left, which are 3 whole members of 30.
read_file-file_range_example :
    read_file primary volume private descriptor 30 5
    ≡ ok (
      (pos 3, file_range primary volume private (2 ∷ 3 ∷ []) 500 90),
      record descriptor { pos = 590 },
    )
read_file-file_range_example =
    read_file-file_range primary volume private 2 (3 ∷ []) 7 two_clusters-IsFile descriptor entry 3
      0 30 5 refl entry-cluster (omega arith) (omega arith) (omega arith)

write_internal-read_internal_example :
    (drive' : Drive) × (write_internal primary private nines volume 2 10 (1 ∷ 2 ∷ 3 ∷ [])
      ≡ ok (pos 3, drive'))
    × (read_internal primary drive' private 2 10 3 ≡ ok (pos 3, 1 ∷ 2 ∷ 3 ∷ []))
write_internal-read_internal_example =
    write_internal-read_internal primary private 2 10 (omega arith) nines volume 1 (2 ∷ 3 ∷ []) 7
      (record { formatted = volume-Formatted; accessible = volume-Accessible })
      (λ s. length-replicate {A = ℕ} 512 9) (omega arith) (omega arith) (file_ends 0 (omega arith))

-- A directory in cluster 2 with the file "A", and nothing but the number 7 in the first sector of the disk.
abbrev named : List ℕ
named = 65 ∷ replicate 10 32 ++ replicate 21 0

abbrev with_directory : Volume
with_directory = record {
  drive = record {
    sectors = λ l. if l == 3 then named ++ replicate 480 0 else replicate 512 7;
    bad = λ l. false;
  };
  root_directory = record { items = []; total = pos 0; sector_pos = 0 };
  left = 5;
}

abbrev subdirectory : List ℕ
subdirectory = replicate 11 32 ++ (16 ∷ replicate 14 0) ++ (2 ∷ replicate 5 0)

abbrev loaded : FatDirectory
loaded = record { items = named; total = pos 1; sector_pos = 0 }

is_loaded :
    load_fat_directory 9 primary private with_directory subdirectory
    ≡ ok (some loaded, record with_directory { left = 3 })
unfolding load_fat_directory diskstreamer_read read_internal get_cluster_for_offset
    cluster_to_sector follow
is_loaded = refl

is_found : find_index 1 named 0 (97 ∷ 0 ∷ []) ≡ ok (some 0)
unfolding find_index istrncmp
is_found = refl

first_bytes : diskstreamer_read primary with_directory.drive 0 32 ≡ ok (pos 0, 32, replicate 32 7)
unfolding diskstreamer_read
first_bytes = refl

find_item_in_directory-first_sectors_example :
    find_item_in_directory 9 primary private
      (record with_directory { left = 3 })
      loaded
      (97 ∷ 0 ∷ [])
    ≡ ok (some (file_item (some (replicate 32 7)) 0 0), record with_directory { left = 0 })
find_item_in_directory-first_sectors_example =
    find_item_in_directory-first_sectors 9 primary private with_directory
      (record with_directory { left = 3 }) subdirectory loaded (97 ∷ 0 ∷ []) 0 (pos 0) 32
      (replicate 32 7) 0 is_loaded is_found refl first_bytes refl
