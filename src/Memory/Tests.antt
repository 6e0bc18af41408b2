-- ===== src/Memory/Tests.antt =====
-- Runs of memory.c, and the theorems about it at concrete inputs.
use vi_os.Prelude.{ℕ, ◌≡◌, refl, List, [], ◌∷◌, pos, neg}
use vi_os.Memory.{Bytes, memcmp, E820Entry, e820_largest_free_entry}
use vi_os.Memory.Map.{Largest, e820_largest_free_entry-Largest}

-- Every byte is its own address.
abbrev ramp : Bytes
ramp a = a

abbrev entry : ℕ → ℕ → E820Entry
entry n t = record { base_addr = 0; size = n; type = t }

abbrev map : List E820Entry
map = entry 7 2 ∷ entry 5 1 ∷ entry 6 1 ∷ []

memcmp_signed : memcmp 2 ramp 127 127 ≡ pos 0
unfolding memcmp
memcmp_signed = refl

-- 0x80 is below 0x7f as a `char`.
memcmp_order : memcmp 1 ramp 128 127 ≡ neg 1
unfolding memcmp
memcmp_order = refl

e820_largest_free_entry-Largest_example : Largest map (e820_largest_free_entry map)
e820_largest_free_entry-Largest_example = e820_largest_free_entry-Largest map
