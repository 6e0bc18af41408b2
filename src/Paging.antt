-- ===== src/Paging.antt =====
-- The four levels of page tables of ViOS64Bit/src/memory/paging/paging.c. A pointer to a table is its
-- frame, the address divided by the size of a page; the memory gives the entries of each frame.
pub mod Frames
pub mod Walk
pub mod Map
pub mod Range
pub mod Get
mod Tests
use vi_os.Prelude.{
  ℕ, zero, suc, ◌+◌, ◌-◌, ◌*◌, ◌/◌, ◌%◌, ◌^◌, Bool, true, false, ◌&&◌, not, List, [], ◌∷◌, Option,
  none, some, ltb, ◌==◌, if◌then◌else◌, ℤ, pos, neg, is_negative, add64, sub64,
}
use vi_os.Config.{e_invarg}
use vi_os.Memory.{E820Entry}

-- `struct paging_desc_entry`; `other` are the bits that the code leaves alone.
pub record Entry : Type 0 where
  pub present : Bool
  pub read_write : Bool
  pub user_supervisor : Bool
  pub address : ℕ
  pub other : ℕ

abbrev pub null : Entry
null = record {
  present = false;
  read_write = false;
  user_supervisor = false;
  address = 0;
  other = 0;
}

unfoldable pub null_entry : Entry → Bool
null_entry entry =
    not entry.present
    && (not entry.read_write
        && (not entry.user_supervisor && (entry.address == 0 && entry.other == 0)))

-- The memory of tables, the frames that the next calls of kzalloc give (NULL behind them), and the
-- addresses taken out of the translation cache.
pub record PageTables : Type 0 where
  pub memory : ℕ → ℕ → Entry
  pub frames : List ℕ
  pub invalidated : List ℕ

abbrev pub write_entry : (ℕ → ℕ → Entry) → ℕ → ℕ → Entry → ℕ → ℕ → Entry
write_entry memory table i entry g j =
    if g == table then (if j == i then entry else memory g j) else memory g j

abbrev pub cleared : (ℕ → ℕ → Entry) → ℕ → ℕ → ℕ → Entry
cleared memory frame g j = if g == frame then null else memory g j

-- An entry that refers to a lower table.
abbrev pub refer : Entry → ℕ → Entry
refer entry frame = record entry {
  address = frame % 2 ^ 40;
  present = true;
  read_write = true;
  user_supervisor = true;
}

unfoldable pub allocate : PageTables → ℕ → ℕ → PageTables
allocate pt table i = give pt.frames
  where
    give : List ℕ → PageTables
    give [] = record pt { memory = write_entry pt.memory table i (refer (pt.memory table i) 0) }
    give (new ∷ frames) =
        let memory = cleared pt.memory new in
        record pt {
          memory = write_entry memory table i (refer (memory table i) new);
          frames = frames;
        }

unfoldable pub ensure : PageTables → ℕ → ℕ → PageTables
unfolding null_entry allocate
ensure pt table i = if null_entry (pt.memory table i) then allocate pt table i else pt

-- The indices of an address in the four tables, the highest first.
abbrev pub pml4_index : ℕ → ℕ
pml4_index va = va / 2 ^ 39 % 512

abbrev pub pdpt_index : ℕ → ℕ
pdpt_index va = va / 2 ^ 30 % 512

abbrev pub pd_index : ℕ → ℕ
pd_index va = va / 2 ^ 21 % 512

abbrev pub pt_index : ℕ → ℕ
pt_index va = va / 2 ^ 12 % 512

abbrev pub flag : ℕ → ℕ → Bool
flag flags bit = flags / bit % 2 == 1

-- The entry that maps to a physical address.
abbrev pub leaf : Entry → ℕ → ℕ → Entry
leaf entry phys flags = record entry {
  address = phys / 4096 % 2 ^ 40;
  present = flag flags 1;
  read_write = flag flags 2;
  user_supervisor = flag flags 4;
}

unfoldable pub set_leaf : PageTables → ℕ → ℕ → ℕ → ℕ → ℕ → PageTables
unfolding null_entry
set_leaf pt table i virt phys flags = record pt {
  memory = write_entry pt.memory table i (leaf (pt.memory table i) phys flags);
  invalidated = if null_entry (pt.memory table i) then pt.invalidated else virt ∷ pt.invalidated;
}

-- `pml` is the frame of the highest table. The status is always 0.
unfoldable pub paging_map : PageTables → ℕ → ℕ → ℕ → ℕ → ℤ × PageTables
unfolding ensure set_leaf
paging_map pt pml virt phys flags =
    let pt1 = ensure pt pml (pml4_index virt) in
    let pdpt = (pt1.memory pml (pml4_index virt)).address in
    let pt2 = ensure pt1 pdpt (pdpt_index virt) in
    let pd = (pt2.memory pdpt (pdpt_index virt)).address in
    let pt3 = ensure pt2 pd (pd_index virt) in
    let table = (pt3.memory pd (pd_index virt)).address in
    (pos 0, set_leaf pt3 table (pt_index virt) virt phys flags)

-- `count` pages, counted as the `int` that does not overflow.
unfoldable pub paging_map_range : ℕ → PageTables → ℕ → ℕ → ℕ → ℕ → ℤ × PageTables
paging_map_range zero pt pml virt phys flags = (pos 0, pt)
paging_map_range (suc count) pt pml virt phys flags =
    let (res, pt') = paging_map pt pml virt phys flags in
    let rest = paging_map_range count pt' pml (add64 virt 4096) (add64 phys 4096) flags in
    if is_negative res then (res, pt') else rest

unfoldable pub paging_map_to : PageTables → ℕ → ℕ → ℕ → ℕ → ℕ → ℤ × PageTables
unfolding paging_map_range
paging_map_to pt pml virt phys phys_end flags =
    if not (virt % 4096 == 0)
    then (neg e_invarg, pt)
    else (if not (phys % 4096 == 0)
        then (neg e_invarg, pt)
        else (if not (phys_end % 4096 == 0)
            then (neg e_invarg, pt)
            else (if ltb phys_end phys
                then (neg e_invarg, pt)
                else paging_map_range (sub64 phys_end phys / 4096) pt pml virt phys flags)))

unfoldable pub paging_is_aligned : ℕ → Bool
paging_is_aligned addr = addr % 4096 == 0

unfoldable pub paging_align_address : ℕ → ℕ
paging_align_address ptr = if ptr % 4096 == 0 then ptr else sub64 (add64 ptr 4096) (ptr % 4096)

unfoldable pub paging_align_to_lower_page : ℕ → ℕ
paging_align_to_lower_page addr = addr - addr % 4096

-- The loop over the memory map; a failing region is passed over.
unfoldable pub map_regions : PageTables → ℕ → List E820Entry → PageTables
unfolding paging_map_to paging_is_aligned paging_align_address paging_align_to_lower_page
map_regions pt pml [] = pt
map_regions pt pml (entry ∷ entries) =
    map_regions (if entry.type == 1 then region else pt) pml entries
  where
    base : ℕ
    base =
        if not (paging_is_aligned entry.base_addr)
        then paging_align_address entry.base_addr
        else entry.base_addr

    end_addr : ℕ
    end_addr = add64 entry.base_addr entry.size

    end' : ℕ
    end' =
        if not (paging_is_aligned end_addr) then paging_align_to_lower_page end_addr else end_addr

    region : PageTables
    region = (paging_map_to pt pml base base end' 3).1

unfoldable pub paging_map_e820_memory_regions : PageTables → ℕ → List E820Entry → ℤ × PageTables
unfolding map_regions
paging_map_e820_memory_regions pt pml entries =
    (pos 0, map_regions ((paging_map_to pt pml 0 0 (2 ^ 20) 3).1) pml entries)

-- The table and the index of the last entry; `none` is NULL. Before it goes down, the code looks at the
-- first entry of the lower table.
unfoldable pub paging_get : (ℕ → ℕ → Entry) → ℕ → ℕ → Option (ℕ × ℕ)
unfolding null_entry
paging_get memory pml va =
    let pml4_entry = memory pml (pml4_index va) in
    let pdpt = pml4_entry.address in
    let pdpt_entry = memory pdpt (pdpt_index va) in
    let pd = pdpt_entry.address in
    let pd_entry = memory pd (pd_index va) in
    if null_entry pml4_entry
    then none
    else (if null_entry (memory pdpt 0)
        then none
        else (if null_entry pdpt_entry
            then none
            else (if null_entry (memory pd 0)
                then none
                else (if null_entry pd_entry
                    then none
                    else (if null_entry (memory pd 0)
                        then none
                        else some (pd_entry.address, pt_index va))))))

unfoldable pub paging_get_physical_address : (ℕ → ℕ → Entry) → ℕ → ℕ → Option ℕ
unfolding paging_get
paging_get_physical_address memory pml virtual_address =
    physical (paging_get memory pml virtual_address)
  where
    physical : Option (ℕ × ℕ) → Option ℕ
    physical none = none
    physical (some (table, i)) =
        some (add64 ((memory table i).address * 4096) (virtual_address % 4096))

unfoldable pub paging_map_level_is_valid : ℕ → Bool
paging_map_level_is_valid level = level == 4

-- A new descriptor's table, where `granted` says whether kzalloc gives the descriptor. The table's
-- allocation is not tested: behind the frames it is NULL.
unfoldable pub paging_desc_new : PageTables → ℕ → Bool → Option ℕ × PageTables
unfolding paging_map_level_is_valid
paging_desc_new pt root_map_level granted =
    if not (paging_map_level_is_valid root_map_level)
    then (none, pt)
    else (if not granted then (none, pt) else new pt.frames)
  where
    new : List ℕ → Option ℕ × PageTables
    new [] = (some 0, pt)
    new (pml ∷ frames) = (some pml, record pt { memory = cleared pt.memory pml; frames = frames })
