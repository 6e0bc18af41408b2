-- ===== src/Memory.antt =====
-- ViOS64Bit/src/memory/memory.c: the block operations on bytes, and the E820 memory map.
pub mod Blocks
pub mod Map
mod Tests
use vi_os.Prelude.{
  ℕ, zero, suc, ◌+◌, ◌%◌, ◌^◌, Bool, List, [], ◌∷◌, Option, none, some, ltb, leb, ◌==◌,
  if◌then◌else◌, get_elem?, length, Run, ok, fault, ℤ, pos, neg, add64,
}

-- The bytes at all addresses.
abbrev pub Bytes : Type 0
Bytes = ℕ → ℕ

abbrev pub put : Bytes → ℕ → ℕ → Bytes
put m p v a = if a == p then v else m a

pub memset_loop : ℕ → Bytes → ℕ → ℕ → Bytes
memset_loop zero m ptr c = m
memset_loop (suc rounds) m ptr c = memset_loop rounds (put m ptr (c % 256)) (ptr + 1) c

-- The counter is an `int`, which overflows at a size of `2 ^ 31`.
unfoldable pub memset : Bytes → ℕ → ℕ → ℕ → Run Bytes
unfolding memset_loop
memset m ptr c size = if ltb size (2 ^ 31) then ok (memset_loop size m ptr c) else fault

pub memcpy_loop : ℕ → Bytes → ℕ → ℕ → Bytes
memcpy_loop zero m d s = m
memcpy_loop (suc len) m d s = memcpy_loop len (put m d (m s)) (d + 1) (s + 1)

-- The length is an `int`: one whose low 32 bits are negative counts down past the smallest `int`.
unfoldable pub memcpy : Bytes → ℕ → ℕ → ℕ → Run Bytes
unfolding memcpy_loop
memcpy m dest src len =
    if ltb (len % 2 ^ 32) (2 ^ 31) then ok (memcpy_loop (len % 2 ^ 32) m dest src) else fault

-- The order of `char`, which is signed.
abbrev pub ltb_char : ℕ → ℕ → Bool
ltb_char x y = ltb ((x + 128) % 256) ((y + 128) % 256)

pub memcmp : ℕ → Bytes → ℕ → ℕ → ℤ
memcmp zero m s1 s2 = pos 0
memcmp (suc count) m s1 s2 =
    let rest = memcmp count m (s1 + 1) (s2 + 1) in
    if m s1 == m s2 then rest else if ltb_char (m s1) (m s2) then neg 1 else pos 1

-- `struct e820_entry`, less the extended attributes.
pub record E820Entry : Type 0 where
  pub base_addr : ℕ
  pub size : ℕ
  pub type : ℕ

-- The map is the list of its entries.
pub e820_total_entries : List E820Entry → ℕ
e820_total_entries entries = length entries

pub e820_entry : List E820Entry → ℕ → Option E820Entry
unfolding e820_total_entries
e820_entry entries index =
    if leb (e820_total_entries entries) index then none else get_elem? entries index

pub largest_loop : List E820Entry → Option E820Entry → Option E820Entry
largest_loop [] chosen = chosen
largest_loop (entry ∷ entries) chosen = largest_loop entries (
    if entry.type == 1
    then elim chosen [
      | none ↦ some entry
      | some c ↦ if ltb c.size entry.size then some entry else some c
    ]
    else chosen)

pub e820_largest_free_entry : List E820Entry → Option E820Entry
unfolding largest_loop
e820_largest_free_entry entries = largest_loop entries none

pub accessible_loop : List E820Entry → ℕ → ℕ
accessible_loop [] total_memory = total_memory
accessible_loop (entry ∷ entries) total_memory =
    accessible_loop entries
      (if entry.type == 1 then add64 total_memory entry.size else total_memory)

pub e820_total_accessible_memory : List E820Entry → ℕ
unfolding accessible_loop
e820_total_accessible_memory entries = accessible_loop entries 0
