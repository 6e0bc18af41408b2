-- ===== src/Files/Refused.antt =====
-- fopen of ViOS64Bit/src/fs/file.c on the last slot, and on a pointer that looks like an error.
use vi_os.Prelude.{
  ℕ, suc, ◌≡◌, refl, ap, ◌∙◌, inl, inr, Bool-cases, List, [], ◌∷◌, ◌++◌, Option, none, arith,
  length, ok, pos, neg, false, ◌≤◌, ◌%◌, ◌^◌, to_int32-large,
}
use vi_os.Config.{e_io, e_invarg}
use vi_os.PathParser.{PathRoot}
use vi_os.Files.{
  Files, FileDescriptor, Filesystem, FileMode, pointer, is_refused, give_up, is_error, open_file,
  file_get_descriptor, disk_id, fopen, fclose, fread,
}
use vi_os.Files.Table.{Full}
use vi_os.Files.Open.{IsOpening, with_file, fopen-open_file, fopen-first}

module _ {W P : Type 0} where
  -- Where only the last slot is free and the driver opens the file, fopen returns 512; fclose of 512 returns -EIO
  -- and fread -EINVARG, and both change nothing.
  pub fopen-last :
      (files : Files W P) (filename mode_str : List ℕ) (filesystem : Filesystem W P)
      (root_path : PathRoot) (mode : FileMode) (left : ℕ)
      (pre post : List (Option (FileDescriptor W P))) (p : P) (world : W)
      → IsOpening files filename mode_str filesystem root_path mode (suc left)
      → files.descriptors ≡ pre ++ (none ∷ post)
      → Full pre
      → length pre ≡ 511
      → filesystem.open_path (disk_id root_path.drive_no) root_path.first mode files.world
        ≡ (pointer p, world)
      → is_error filesystem (pointer p) ≡ false
      → (files' : Files W P) × (fopen files filename mode_str ≡ ok (pos 512, files'))
        × (fclose files' (pos 512) ≡ ok (neg e_io, files'))
        × ((size nmemb : ℕ) → fread files' size nmemb (pos 512) ≡ ok ((neg e_invarg, []), files'))
  unfolding fclose fread file_get_descriptor
  fopen-last files filename mode_str filesystem root_path mode left pre post p world opening slots
        full last driver valid =
      (
        with_file files filesystem root_path left pre post p world,
        fopen-first files filename mode_str filesystem root_path mode left pre post p world opening
              slots full driver valid
            ∙ ap (λ n. ok (pos n, with_file files filesystem root_path left pre post p world))
                (omega arith),
        refl,
        λ size nmemb. elim (Bool-cases (is_refused size nmemb (pos 512))) [
          | inl e ↦ rw (fread, e) refl
          | inr e ↦ rw (fread, e) refl
        ],
      )

  -- Where the driver opens the file, and bit 31 of the address of its pointer is 1, fopen takes the pointer for an
  -- error: it has the driver close the file and returns 0. No slot is taken.
  pub fopen-mistaken :
      (files : Files W P) (filename mode_str : List ℕ) (filesystem : Filesystem W P)
      (root_path : PathRoot) (mode : FileMode) (left : ℕ) (p : P) (world : W)
      → IsOpening files filename mode_str filesystem root_path mode left
      → filesystem.open_path (disk_id root_path.drive_no) root_path.first mode files.world
        ≡ (pointer p, world)
      → 2 ^ 31 ≤ filesystem.address p % 2 ^ 32
      → (files' : Files W P) × (fopen files filename mode_str ≡ ok (pos 0, files'))
        × (files'.world ≡ (filesystem.close (pointer p) world).1)
        × (files'.descriptors ≡ files.descriptors)
  unfolding open_file give_up is_error
  fopen-mistaken files filename mode_str filesystem root_path mode left p world opening driver
        large =
      let (n, negative) = to_int32-large (filesystem.address p) large in
      (
        record files { left = left; world = (filesystem.close (pointer p) world).1 },
        fopen-open_file files filename mode_str filesystem root_path mode left opening
            ∙ rw (open_file, driver, negative) refl,
        refl,
        refl,
      )
