-- ===== src/Gpt/Tests.antt =====
-- The theorem about partition tables at a table of two entries, one of which is in use.
use vi_os.Prelude.{
  ℕ, ◌+◌, false, List, [], ◌∷◌, ◌++◌, none, some, replicate, pos, ◌==◌, if◌then◌else◌,
}
use vi_os.Streamer.{Disk, Drive}
use vi_os.Files.{Files, Filesystem, pointer}
use vi_os.Gpt.{Disks, Header}

abbrev primary : Disk
primary = record { starting_lba = 0; ending_lba = 0 }

-- An unused entry, and that of the partition from sector 5 to sector 9.
abbrev entries : List ℕ
entries =
    replicate 128 0
    ++ (replicate 32 1 ++ (5 ∷ replicate 7 0 ++ (9 ∷ replicate 7 0 ++ replicate 336 0)))

abbrev drive : Drive
drive = record { sectors = λ l. if l == 2 then entries else replicate 512 7; bad = λ l. false }

-- A driver that takes every disk.
abbrev taking : Filesystem ℕ ℕ
taking = record {
  resolve = λ disk n. (pos 0, n + 1);
  address = λ p. p + 4096;
  open_path = λ disk path mode n. (pointer n, n);
  read = λ disk p size nmemb n. ((pos 0, []), n);
  seek = λ p offset whence n. (pos 0, n);
  stat = λ disk p n. ((pos 0, 0, 0), n);
  close = λ p n. (pos 0, n);
  write = λ disk p bytes size nmemb n. (pos 0, n);
}

abbrev one_disk : Disks ℕ ℕ
one_disk = record {
  files = record {
    filesystems = some taking ∷ [];
    descriptors = [];
    disks = none ∷ [];
    primary = none;
    left = 2;
    world = 0;
  };
  geometry = primary ∷ [];
  tm_elems = 5;
}

abbrev header : Header
header = record { guid_array_lba_start = 2; total_array_entries = 2; array_entry_size = 128 }
