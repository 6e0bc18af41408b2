-- ===== src/Gpt.antt =====
-- The partitions of ViOS64Bit/src/disk/gpt.c, and disk_create_new of ViOS64Bit/src/disk/disk.c over the open files.
-- The number of the first byte of the table is an `int` that does not overflow. A krealloc of the vector of disks
-- that is refused, which leaves it without memory, counts as a fault. `volume_name` is the driver's: the 11 bytes that it gives for a disk.
pub mod Mount
mod Tests
use vi_os.Prelude.{
  ℕ, zero, suc, ◌+◌, ◌*◌, ◌^◌, ◌%◌, Bool, true, false, ◌&&◌, not, List, [], ◌∷◌, ◌++◌, Option, none,
  some, ◌==◌, ltb, if◌then◌else◌, length, drop, take, get_elem?, Run, ok, fault, ◌>>=◌, ℤ, pos,
  negsuc, neg, is_negative, to_int32, to_size,
}
use vi_os.Config.{e_io, e_nomem, e_invarg, e_informat}
use vi_os.CString.{strncmp}
use vi_os.Streamer.{Disk, Drive, disk_read_block, diskstreamer_read}
use vi_os.Files.{Files, Filesystem, fs_resolve, is_ok}

-- The vector of disks: their file systems stand with the open files. It has room for `tm_elems` disks.
pub record Disks (W P : Type 0) : Type 0 where
  pub files : Files W P
  pub geometry : List Disk
  pub tm_elems : ℕ

-- A number of the first `n` bytes, the lowest first.
abbrev pub number : ℕ → List ℕ → ℕ
number zero bytes = 0
number (suc n) [] = 0
number (suc n) (b ∷ bytes) = b + 256 * number n bytes

-- VIOS_KERNEL_FILESYSTEM_NAME, without its NUL.
abbrev pub kernel_filesystem_name : List ℕ
kernel_filesystem_name = 86 ∷ 73 ∷ 79 ∷ 83 ∷ 32 ∷ 32 ∷ 32 ∷ 32 ∷ 32 ∷ 32 ∷ 32 ∷ []

abbrev pub all_zero : List ℕ → Bool
all_zero [] = true
all_zero (b ∷ bytes) = b == 0 && all_zero bytes

-- "EFI PART"
abbrev pub signature : List ℕ
signature = 69 ∷ 70 ∷ 73 ∷ 32 ∷ 80 ∷ 65 ∷ 82 ∷ 84 ∷ []

abbrev pub same_text : List ℕ → List ℕ → Bool
same_text [] [] = true
same_text (a ∷ as') (b ∷ bs) = a == b && same_text as' bs
same_text [] (b ∷ bs) = false
same_text (a ∷ as') [] = false

-- `struct gpt_partition_table_header`, as far as it is read.
pub record Header : Type 0 where
  pub guid_array_lba_start : ℕ
  pub total_array_entries : ℕ
  pub array_entry_size : ℕ

abbrev pub header_fields : List ℕ → Header
header_fields sector = record {
  guid_array_lba_start = number 8 (drop 72 sector);
  total_array_entries = number 4 (drop 80 sector);
  array_entry_size = number 4 (drop 84 sector);
}

module _ {W P : Type 0} (volume_name : ℕ → W → List ℕ) where
  unfoldable pub disk_create_new : Disks W P → ℕ → ℕ → Run (ℤ × Disks W P)
  unfolding fs_resolve to_int32
  disk_create_new disks starting_lba ending_lba = elim disks.files.left [
    | zero ↦ ok (neg e_nomem, disks)
    | suc left ↦
        let id = length disks.files.disks in
        let (filesystem, files) = fs_resolve (record disks.files { left = left }) id in
        let pushed = λ (primary : Option ℕ) (left' tm_elems : ℕ).
          (ok (
            pos 0,
            record {
              files = record files {
                disks = files.disks ++ (filesystem ∷ []);
                primary = primary;
                left = left';
              };
              geometry =
                  disks.geometry
                  ++ (record {
                    starting_lba = to_size (to_int32 starting_lba);
                    ending_lba = to_size (to_int32 ending_lba);
                  }
                      ∷ []);
              tm_elems = tm_elems;
            },
          )) in
        let grown = λ (primary : Option ℕ). (elim left as (λ _. Run (ℤ × Disks W P)) [
          | zero ↦ fault
          | suc left' ↦ pushed primary left' (4 + length disks.geometry + 1)
        ]) in
        let push = λ (primary : Option ℕ).
          (if ltb (length disks.geometry + 1) disks.tm_elems
            then pushed primary left disks.tm_elems
            else grown primary) in
        let compared =
          (strncmp 11 (volume_name id files.world) kernel_filesystem_name >>= λ difference.
          push (if is_ok difference then some id else files.primary)) in
        elim filesystem [ none ↦ push files.primary | some fs ↦ compared ]
  ]

  -- The loop over the entries that are left, from the position on. An entry that ends before its fields is read
  -- behind its buffer.
  unfoldable pub mount_loop : ℕ → Disk → Drive → ℕ → ℕ → Disks W P → Run (ℤ × Disks W P)
  unfolding disk_create_new
  mount_loop zero disk drive entry_size position disks = ok (pos 0, disks)
  mount_loop (suc entries) disk drive entry_size position disks = do
    (res, position', entry) ← diskstreamer_read disk drive position entry_size
    let skipped = mount_loop entries disk drive entry_size position' disks
    let next = λ (disks' : Disks W P). mount_loop entries disk drive entry_size position' disks'
    let mounted =
        (disk_create_new disks (number 8 (drop 32 entry)) (number 8 (drop 40 entry))
          >>= λ (res', disks'). if is_negative res' then ok (res', disks') else next disks')
    if is_negative res
        then ok (res, disks)
        else (if ltb (length entry) 48
            then fault
            else (if all_zero (take 16 entry) then skipped else mounted))

  -- The new streamer is not tested for NULL.
  unfoldable pub gpt_mount_partitions : Disk → Drive → Disks W P → Header → Run (ℤ × Disks W P)
  unfolding mount_loop
  gpt_mount_partitions disk drive disks header = elim disks.files.left [
    | zero ↦ fault
    | suc left ↦
        mount_loop header.total_array_entries disk drive header.array_entry_size
          (header.guid_array_lba_start * 512)
          (record disks { files = record disks.files { left = left } })
  ]

  unfoldable pub gpt_init : Drive → Disks W P → Run (ℤ × Disks W P)
  unfolding gpt_mount_partitions
  gpt_init drive disks = elim (get_elem? disks.geometry 0) [
    | none ↦ ok (neg e_invarg, disks)
    | some disk ↦ elim (disk_read_block disk drive 1) [
      | none ↦ ok (neg e_io, disks)
      | some sector ↦
          let mounted = gpt_mount_partitions disk drive disks (header_fields sector) in
          if same_text (take 8 sector) signature then mounted else ok (neg e_informat, disks)
    ]
  ]
