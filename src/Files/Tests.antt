-- ===== src/Files/Tests.antt =====
-- The theorems about open files at a small driver.
use vi_os.Prelude.{
  ℕ, ◌+◌, ◌≡◌, refl, List, [], ◌∷◌, Option, none, some, arith, replicate, ok, pos, ◌^◌,
}
use vi_os.PathParser.{PathRoot, parse}
use vi_os.Files.{
  Files, FileDescriptor, Filesystem, mode_read, pointer, is_error, disk_get,
  file_get_mode_by_string, fs_init, fopen, fclose,
}
use vi_os.Files.Table.{IsTable}
use vi_os.Files.Open.{IsOpening, fopen-fclose}
use vi_os.Files.Refused.{fopen-mistaken}
use vi_os.Files.Reach.{here, next, opens, Reachable-IsTable}

-- A driver that keeps the number of files it has opened, and one whose pointers look like errors.
abbrev counting : Filesystem ℕ ℕ
counting = record {
  resolve = λ disk n. (pos 0, n);
  address = λ p. p + 4096;
  open_path = λ disk path mode n. (pointer n, n + 1);
  read = λ disk p size nmemb n. ((pos nmemb, []), n);
  seek = λ p offset whence n. (pos 0, n);
  stat = λ disk p n. ((pos 0, 0, 0), n);
  close = λ p n. (pos 0, n);
  write = λ disk p bytes size nmemb n. (pos nmemb, n);
}

abbrev mistaken : Filesystem ℕ ℕ
mistaken = record counting { address = λ p. p + 2 ^ 31 }

abbrev with_slots : Filesystem ℕ ℕ → List (Option (FileDescriptor ℕ ℕ)) → Files ℕ ℕ
with_slots filesystem slots = record {
  filesystems = some filesystem ∷ replicate 11 none;
  descriptors = slots;
  disks = some filesystem ∷ [];
  primary = none;
  left = 9;
  world = 0;
}

-- "0:/a" and "r".
abbrev name : List ℕ
name = 48 ∷ 58 ∷ 47 ∷ 97 ∷ 0 ∷ []

abbrev reading : List ℕ
reading = 114 ∷ 0 ∷ []

abbrev root : PathRoot
root = record { drive_no = pos 0; first = (97 ∷ replicate 107 0) ∷ [] }

opening :
    (filesystem : Filesystem ℕ ℕ) (slots : List (Option (FileDescriptor ℕ ℕ)))
    → IsOpening (with_slots filesystem slots) name reading filesystem root mode_read 5
unfolding parse disk_get file_get_mode_by_string
opening filesystem slots = record {
  parsed = refl;
  some_part = refl;
  on_disk = refl;
  mode_found = refl;
  mode_valid = refl;
}

fopen-fclose_example :
    (files' files'' : Files ℕ ℕ) × (fopen (with_slots counting (replicate 512 none)) name reading
      ≡ ok (pos 1, files'))
    × (fclose files' (pos 1) ≡ ok (pos 0, files''))
    × (files''.descriptors ≡ replicate 512 none)
fopen-fclose_example =
    fopen-fclose (with_slots counting (replicate 512 none)) name reading counting root mode_read 4
      [] (replicate 511 none) 0 1 1 (opening counting (replicate 512 none)) refl tt (omega arith)
      refl (unfold is_error in refl) refl

fopen-mistaken_example :
    (files' : Files ℕ ℕ) × (fopen (with_slots mistaken (replicate 512 none)) name reading
      ≡ ok (pos 0, files'))
    × (files'.world ≡ 1)
    × (files'.descriptors ≡ replicate 512 none)
fopen-mistaken_example =
    fopen-mistaken (with_slots mistaken (replicate 512 none)) name reading mistaken root mode_read 5
      0 1 (opening mistaken (replicate 512 none)) refl (omega arith)

abbrev start : Files ℕ ℕ
start = with_slots counting (replicate 512 none)

abbrev one_open : Files ℕ ℕ
one_open = record start {
  descriptors =
      some (record { index = 1; filesystem = counting; private = pointer 0; disk = 0 })
      ∷ replicate 511 none;
  left = 4;
  world = 1;
}

initialised : fs_init (with_slots counting []) counting ≡ ok start
unfolding fs_init
initialised = refl

opened_one : fopen start name reading ≡ ok (pos 1, one_open)
unfolding fopen
opened_one = refl

Reachable-IsTable_example : IsTable one_open
Reachable-IsTable_example =
    Reachable-IsTable (with_slots counting []) counting start one_open initialised
      (next here (opens name reading (pos 1) opened_one))
