-- ===== src/Fat16/Subdirectories.antt =====
-- Files in directories that are not the root directory, in ViOS64Bit/src/fs/fat/fat16.c.
use mathlib.Core.Path.{subst}
use native.Mathlib.Nat.{div-add-mod', zero-add}
use vi_os.Prelude.{
  ℕ, zero, suc, ◌+◌, ◌*◌, ◌/◌, ◌%◌, ◌≡◌, refl, ap, ◌∙◌, Bool-cases, inl, inr, false, List, Option,
  none, some, Run, ok, fault, ◌>>=◌, ℤ, pos, negsuc,
}
use vi_os.Streamer.{Disk, diskstreamer_read}
use vi_os.Fat16.{FatPrivate, cluster_to_sector, read_internal}
use vi_os.Fat16.Directory.{
  FatDirectory, file_item, Volume, is_subdirectory, padded, get_first_cluster,
  get_total_items_for_directory, load_items, load_fat_directory, clone_directory_item,
  new_fat_item_for_directory_item, reread_item, find_index, entries_of, find_item_in_directory,
}

-- What holds of the result of code that returns.
abbrev Always : {A : Type 0} → (A → Type 0) → Run A → Type 0
Always P fault = Unit
Always P (ok a) = P a

Always-bind :
    {A B : Type 0} (Q : A → Type 0) (P : B → Type 0) (run : Run A) (f : A → Run B)
    → Always Q run
    → ((a : A) → Q a → Always P (f a))
    → Always P (run >>= f)
Always-bind Q P fault f holds each = tt
Always-bind Q P (ok a) f holds each = each a holds

Always-any : {A : Type 0} (run : Run A) → Always (λ a. Unit) run
Always-any fault = tt
Always-any (ok a) = tt

abbrev Nowhere : Option FatDirectory × Volume → Type 0
Nowhere (none, volume) = Unit
Nowhere (some directory, volume) = directory.sector_pos ≡ 0

abbrev AtZero : FatDirectory × Volume → Type 0
AtZero (directory, volume) = directory.sector_pos ≡ 0

module _ (rounds : ℕ) (disk : Disk) (private : FatPrivate) where
  load_items-AtZero :
      (volume : Volume) (cluster : ℕ) (total : ℤ)
      → Always AtZero (load_items rounds disk private volume cluster total)
  unfolding load_items
  load_items-AtZero volume cluster (negsuc e) = refl
  load_items-AtZero volume cluster (pos n) = by_left volume.left refl
    where
      by_left :
          (left : ℕ)
          → volume.left ≡ left
          → Always AtZero (load_items rounds disk private volume cluster (pos n))
      by_left zero e = rw (load_items, e) refl
      by_left (suc left) e =
          rw (load_items, e)
            (Always-bind (λ a. Unit) AtZero
              (read_internal disk volume.drive private cluster 0 (n * 32)) _
              (Always-any (read_internal disk volume.drive private cluster 0 (n * 32)))
              (λ a h. refl))

  load_fat_directory-Nowhere :
      (volume : Volume) (item : List ℕ)
      → Always Nowhere (load_fat_directory rounds disk private volume item)
  unfolding load_fat_directory
  load_fat_directory-Nowhere volume item = by_left volume.left refl
    where
      by_left :
          (left : ℕ)
          → volume.left ≡ left
          → Always Nowhere (load_fat_directory rounds disk private volume item)
      by_left zero e = elim (Bool-cases (is_subdirectory item)) [
        | inl is ↦ rw (load_fat_directory, is, e) tt
        | inr isnt ↦ rw (load_fat_directory, isnt) tt
      ]
      by_left (suc left) e = elim (Bool-cases (is_subdirectory item)) [
        | inl is ↦
            let volume' = record volume { left = left } in
            let counted =
              get_total_items_for_directory rounds disk volume.drive
                (cluster_to_sector private (get_first_cluster item)) in
            rw (load_fat_directory, is, e)
              (Always-bind (λ a. Unit) Nowhere counted _ (Always-any counted)
                (λ total h.
                  Always-bind AtZero Nowhere
                    (load_items rounds disk private volume' (get_first_cluster item) total) _
                    (load_items-AtZero volume' (get_first_cluster item) total)
                    (λ (directory, volume'') at_zero. at_zero)))
        | inr isnt ↦ rw (load_fat_directory, isnt) tt
      ]

  -- An item that is found in a directory that is not the root is not made of the entry that has the name, the `i`-th of
  -- the directory, but of the 32 bytes at `32 * i` of the disk, which lie in its first sectors; here with three
  -- allocations left, and where these bytes do not have the mark of a directory.
  pub find_item_in_directory-first_sectors :
      (volume volume' : Volume) (item : List ℕ) (directory : FatDirectory) (name : List ℕ) (i : ℕ)
      (res : ℤ) (position : ℕ) (bytes : List ℕ) (left : ℕ)
      → load_fat_directory rounds disk private volume item ≡ ok (some directory, volume')
      → find_index (entries_of directory) directory.items 0 name ≡ ok (some i)
      → volume'.left ≡ suc (suc (suc left))
      → diskstreamer_read disk volume'.drive (32 * i) 32 ≡ ok (res, position, bytes)
      → is_subdirectory (padded bytes 32) ≡ false
      → find_item_in_directory rounds disk private volume' directory name
        ≡ ok (
          some (file_item (some (padded bytes 32)) (32 * i / 512) (32 * i % 512)),
          record volume' { left = left },
        )
  unfolding find_item_in_directory reread_item new_fat_item_for_directory_item clone_directory_item
  find_item_in_directory-first_sectors volume volume' item directory name i res position bytes left
        loaded found allocations read no_directory =
      let nowhere : directory.sector_pos ≡ 0 =
        subst (Always Nowhere) loaded (load_fat_directory-Nowhere volume item) in
      let sector : directory.sector_pos + 32 * i / 512 ≡ 32 * i / 512 =
        ap (λ s. s + 32 * i / 512) nowhere ∙ zero-add (32 * i / 512) in
      let place : 32 * i / 512 * 512 + 32 * i % 512 ≡ 32 * i = div-add-mod' (32 * i) 512 in
      rw (found, allocations) (rw (sector, place, read) (rw no_directory refl))
