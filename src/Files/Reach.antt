-- ===== src/Files/Reach.antt =====
-- Sequences of calls of ViOS64Bit/src/fs/file.c after fs_init.
use mathlib.Core.Path.{subst}
use vi_os.Prelude.{
  ℕ, zero, suc, ◌+◌, ◌≡◌, List, Option, none, replicate, length-replicate, Run, ok, fault, ℤ,
}
use vi_os.Files.{
  Files, FileDescriptor, Filesystem, fs_insert_filesystem, fs_init, fopen, fclose, fseek, fstat,
  fread, fwrite,
}
use vi_os.Files.Table.{Indexed, IsTable}
use vi_os.Files.Calls.{
  Keeps, fopen-Keeps, fclose-Keeps, fseek-Keeps, fstat-Keeps, fread-Keeps, fwrite-Keeps,
}

Indexed-replicate : (W P : Type 0) (n i : ℕ) → Indexed {W = W} {P = P} i (replicate n none)
Indexed-replicate W P zero i = tt
Indexed-replicate W P (suc n) i = (tt, Indexed-replicate W P n (i + 1))

module _ {W P : Type 0} where
  -- One call that returns.
  pub data Call (files files' : Files W P) : Type 0 where
    opens :
        (filename mode_str : List ℕ) (fd : ℤ)
        → fopen files filename mode_str ≡ ok (fd, files')
        → Call files files'
    closes : (fd res : ℤ) → fclose files fd ≡ ok (res, files') → Call files files'
    seeks :
        (fd offset : ℤ) (whence : ℕ) (res : ℤ)
        → fseek files fd offset whence ≡ ok (res, files')
        → Call files files'
    stats : (fd : ℤ) (res : ℤ × ℕ × ℕ) → fstat files fd ≡ ok (res, files') → Call files files'
    reads :
        (size nmemb : ℕ) (fd : ℤ) (res : ℤ × List ℕ)
        → fread files size nmemb fd ≡ ok (res, files')
        → Call files files'
    writes :
        (bytes : List ℕ) (size nmemb : ℕ) (fd res : ℤ)
        → fwrite files bytes size nmemb fd ≡ ok (res, files')
        → Call files files'

  pub data Reachable (start : Files W P) : Files W P → Type 0 where
    here : Reachable start start
    next :
        {files files' : Files W P}
        → Reachable start files
        → Call files files'
        → Reachable start files'

  Call-IsTable : {files files' : Files W P} → Call files files' → IsTable files → IsTable files'
  Call-IsTable {files} (opens filename mode_str fd e) table =
      subst Keeps e (fopen-Keeps files filename mode_str table)
  Call-IsTable {files} (closes fd res e) table = subst Keeps e (fclose-Keeps files fd table)
  Call-IsTable {files} (seeks fd offset whence res e) table =
      subst Keeps e (fseek-Keeps files fd offset whence table)
  Call-IsTable {files} (stats fd res e) table = subst Keeps e (fstat-Keeps files fd table)
  Call-IsTable {files} (reads size nmemb fd res e) table =
      subst Keeps e (fread-Keeps files size nmemb fd table)
  Call-IsTable {files} (writes bytes size nmemb fd res e) table =
      subst Keeps e (fwrite-Keeps files bytes size nmemb fd table)

  abbrev Starts : Run (Files W P) → Type 0
  Starts fault = Unit
  Starts (ok start) = IsTable start

  fs_init-Starts : (files : Files W P) (fat16 : Filesystem W P) → Starts (fs_init files fat16)
  unfolding fs_init fs_insert_filesystem
  fs_init-Starts files fat16 = record {
    size = length-replicate {A = Option (FileDescriptor W P)} 512 none;
    indexed = Indexed-replicate W P 512 0;
  }

  IsTable-reached :
      {start files : Files W P} → IsTable start → Reachable start files → IsTable files
  IsTable-reached table here = table
  IsTable-reached table (next before call) = Call-IsTable call (IsTable-reached table before)

  -- After fs_init and any calls of fopen, fclose, fseek, fstat, fread and fwrite that return, the array has its 512
  -- slots, and the descriptor in each slot has the number of the slot, counted from 1.
  pub Reachable-IsTable :
      (files : Files W P) (fat16 : Filesystem W P) (start files' : Files W P)
      → fs_init files fat16 ≡ ok start
      → Reachable start files'
      → IsTable files'
  Reachable-IsTable files fat16 start files' e reachable =
      IsTable-reached (subst Starts e (fs_init-Starts files fat16)) reachable
