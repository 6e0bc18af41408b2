-- ===== src/Memory/Map.antt =====
-- The choices that ViOS64Bit/src/memory/memory.c makes from the E820 memory map.
use vi_os.Prelude.{
  ℕ, ◌+◌, ◌%◌, ◌^◌, ◌≤◌, ◌≡◌, refl, ◌⊎◌, inl, inr, false, List, [], ◌∷◌, Option, none, some, ltb,
  ◌<◌, ap, ◌∙◌, Bool-cases, ◌==◌, if◌then◌else◌, arith, add64,
}
use native.Mathlib.Nat.{le_trans}
use vi_os.Memory.{
  E820Entry, largest_loop, e820_largest_free_entry, accessible_loop, e820_total_accessible_memory,
}

-- `entry` stands in the map.
abbrev pub Occurs : E820Entry → List E820Entry → Type 0
Occurs entry [] = ⊥
Occurs entry (x ∷ entries) = (entry ≡ x) ⊎ Occurs entry entries

-- Every usable entry of the map is at most as large as `bound`.
abbrev pub AllFit : ℕ → List E820Entry → Type 0
AllFit bound [] = Unit
AllFit bound (x ∷ entries) = (x.type ≡ 1 → x.size ≤ bound) × AllFit bound entries

-- No entry of the map is usable.
abbrev pub NoneUsable : List E820Entry → Type 0
NoneUsable [] = Unit
NoneUsable (x ∷ entries) = ((x.type == 1) ≡ false) × NoneUsable entries

-- What the search promises of its result.
abbrev pub Largest : List E820Entry → Option E820Entry → Type 0
Largest entries none = NoneUsable entries
Largest entries (some e) = (e.type ≡ 1) × Occurs e entries × AllFit e.size entries

-- What the search returns from a usable candidate `c`.
Found : List E820Entry → E820Entry → Option E820Entry → Type 0
Found entries c out =
    (r : E820Entry) × (out ≡ some r)
    × (r.type ≡ 1)
    × (c.size ≤ r.size)
    × ((r ≡ c) ⊎ Occurs r entries)
    × AllFit r.size entries

module _ (x : E820Entry) (entries : List E820Entry) (c : E820Entry) (out : Option E820Entry) where
  Found-replace : x.type ≡ 1 → c.size < x.size → Found entries x out → Found (x ∷ entries) c out
  unfolding Found
  Found-replace u lt (r, e, t, le, from, fit) = (r, e, t, omega arith, inr from, ((λ _. le), fit))

  Found-keep : (x.type ≡ 1 → x.size ≤ c.size) → Found entries c out → Found (x ∷ entries) c out
  unfolding Found
  Found-keep small (r, e, t, le, from, fit) = (
    r,
    e,
    t,
    le,
    elim from [ inl same ↦ inl same | inr occ ↦ inr (inr occ) ],
    ((λ u. le_trans (small u) le), fit),
  )

largest_loop-Found :
    (entries : List E820Entry) (c : E820Entry)
    → c.type ≡ 1
    → Found entries c (largest_loop entries (some c))
unfolding largest_loop
largest_loop-Found [] c h = unfold Found in (c, refl, h, omega arith, inl refl, tt)
largest_loop-Found (x ∷ entries) c h = elim (Bool-cases (x.type == 1)) [
  | inl u ↦ elim (Bool-cases (ltb c.size x.size)) [
    | inl lt ↦
        rw (u, lt)
          (Found-replace x entries c _ (ground arith) (ground arith)
            (largest_loop-Found entries x (ground arith)))
    | inr ge ↦
        rw (u, ge) (Found-keep x entries c _ (λ _. ground arith) (largest_loop-Found entries c h))
  ]
  | inr v ↦
      rw v (Found-keep x entries c _ (λ u. absurd (ground arith)) (largest_loop-Found entries c h))
]

Largest-skip :
    (x : E820Entry) (entries : List E820Entry) (out : Option E820Entry)
    → (x.type == 1) ≡ false
    → Largest entries out
    → Largest (x ∷ entries) out
Largest-skip x entries none v l = (v, l)
Largest-skip x entries (some e) v (t, occ, fit) = (t, inr occ, ((λ u. absurd (ground arith)), fit))

Found-Largest :
    (x : E820Entry) (entries : List E820Entry) (out : Option E820Entry)
    → x.type ≡ 1
    → Found entries x out
    → Largest (x ∷ entries) out
unfolding Found
Found-Largest x entries out u (r, e, t, le, from, fit) = rw e (t, from, ((λ _. le), fit))

-- e820_largest_free_entry returns a usable entry of the map that no usable entry exceeds in size, and
-- NULL exactly when no entry is usable.
pub e820_largest_free_entry-Largest :
    (entries : List E820Entry) → Largest entries (e820_largest_free_entry entries)
unfolding e820_largest_free_entry
e820_largest_free_entry-Largest [] = tt
e820_largest_free_entry-Largest (x ∷ entries) = elim (Bool-cases (x.type == 1)) [
  | inl u ↦
      rw u (Found-Largest x entries _ (ground arith) (largest_loop-Found entries x (ground arith)))
  | inr v ↦ rw v (Largest-skip x entries _ v (e820_largest_free_entry-Largest entries))
]

-- The bytes of all usable entries.
unfoldable pub usable_bytes : List E820Entry → ℕ
usable_bytes [] = 0
usable_bytes (x ∷ entries) = (if x.type == 1 then x.size else 0) + usable_bytes entries

accessible_loop-eq :
    (entries : List E820Entry) (acc : ℕ)
    → acc < 2 ^ 64
    → accessible_loop entries acc ≡ (acc + usable_bytes entries) % 2 ^ 64
unfolding accessible_loop usable_bytes
accessible_loop-eq [] acc h = omega arith
accessible_loop-eq (x ∷ entries) acc h =
    ground (arith, accessible_loop-eq entries acc, accessible_loop-eq entries (add64 acc x.size))

-- e820_total_accessible_memory is the sum of the sizes of the usable entries, modulo 2^64.
pub e820_total_accessible_memory-eq :
    (entries : List E820Entry)
    → e820_total_accessible_memory entries ≡ usable_bytes entries % 2 ^ 64
unfolding e820_total_accessible_memory
e820_total_accessible_memory-eq entries =
    accessible_loop-eq entries 0 (omega arith) ∙ ap (λ n. n % 2 ^ 64) (omega arith)
