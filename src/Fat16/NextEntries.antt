-- ===== src/Fat16/NextEntries.antt =====
-- What becomes of the other entries of a sector of the file allocation table of ViOS64Bit/src/fs/fat/fat16.c
-- when one of them is written.
use vi_os.Prelude.{
  ℕ, ◌+◌, ◌*◌, ◌/◌, ◌%◌, ◌≤◌, ◌<◌, ◌≡◌, ap, sym, ◌∙◌, List, arith, get_or, Run, ok, fault, ℤ, pos,
}
use vi_os.Streamer.{Disk, Drive}
use vi_os.Streamer.Bytes.{byte}
use vi_os.Streamer.Tail.{diskstreamer_write-tail}
use vi_os.Fat16.{FatPrivate, word_bytes, entry_position, get_fat_entry, set_fat_entry}
use vi_os.Fat16.Table.{IsWritable, Set, set_fat_entry_lem, get_fat_entry-byte, Accessible-inside}

byte_at : (disk : Disk) (drive : Drive) (p q : ℕ) → p ≡ q → byte disk drive p ≡ byte disk drive q
byte_at disk drive p q e = ap (byte disk drive) e

abbrev written_drive : Drive → Run (ℤ × ℕ × Drive) → Drive
written_drive drive (ok (res, position, drive')) = drive'
written_drive drive fault = drive

-- Where the drive takes every sector up to `last` and each copy of the entry stands before it, and the entry begins
-- a sector, fat16_set_fat_entry gives each entry behind it in the sector what the uninitialised buffer of
-- diskstreamer_write held before.
pub set_fat_entry-next_entries :
    (disk : Disk) (drive : Drive) (private : FatPrivate) (stack : ℕ → List ℕ)
    (last cluster value : ℕ)
    → IsWritable disk drive private stack last cluster
    → entry_position private cluster % 512 ≡ 0
    → (drive' : Drive) × (set_fat_entry disk drive private stack cluster value ≡ ok (pos 0, drive'))
      × ((k : ℕ)
          → 0 < k
          → k < 256
          → get_fat_entry disk drive' private (cluster + k)
            ≡ ok (
                pos (
                  get_or (stack (entry_position private cluster / 512)) (2 * k) 0
                  + 256 * get_or (stack (entry_position private cluster / 512)) (2 * k + 1) 0)))
unfolding Set
set_fat_entry-next_entries disk drive private stack last cluster value writable start =
    let (drive1, drive', e, written, done, usable', below) =
      set_fat_entry_lem disk private stack last writable.stacks writable.small drive cluster value
        writable.usable writable.some_copy writable.fits in
    let first = writable.fits 0 writable.some_copy in
    let sector = entry_position private cluster / 512 in
    let (drive2, e2, tail) =
      diskstreamer_write-tail disk drive stack (entry_position private cluster) (word_bytes value)
        writable.stacks
        (Accessible-inside disk drive last sector sector writable.usable.accessible (omega arith))
        start (omega arith) in
    let same : drive1 ≡ drive2 = ap (written_drive drive) (sym e ∙ e2) in
    let left = λ (j : ℕ). λ (lo : 2 ≤ j). λ (hi : j < 512).
      below (entry_position private cluster + j) (omega (arith, writable.some_sector))
      ∙ ap (λ d. byte disk d (entry_position private cluster + j)) same
      ∙ tail j lo hi in
    let low = λ (k : ℕ).
      byte_at disk drive' (entry_position private (cluster + k))
        (entry_position private cluster + 2 * k) (omega arith) in
    let high = λ (k : ℕ).
      byte_at disk drive' (entry_position private (cluster + k) + 1)
        (entry_position private cluster + (2 * k + 1)) (omega arith) in
    (
      drive',
      done,
      λ k lo hi.
          get_fat_entry-byte disk drive' private (cluster + k) last usable' (omega (arith, first))
          ∙ ap (λ n. ok (pos n))
              (omega (
                arith,
                low k,
                high k,
                left (2 * k) (omega arith) (omega arith),
                left (2 * k + 1) (omega arith) (omega arith),
              )),
    )
