-- ===== src/Paging/Tests.antt =====
-- Page tables that are mapped, and the theorems about them at a concrete tree.
use vi_os.Prelude.{
  ℕ, ◌+◌, ◌*◌, ◌/◌, ◌%◌, ◌≤◌, ◌≡◌, refl, false, [], ◌∷◌, none, some, arith, ◌==◌, if◌then◌else◌,
  pos, neg,
}
use vi_os.Config.{e_invarg}
use vi_os.Paging.{
  PageTables, null, null_entry, leaf, paging_map, paging_map_range, paging_map_to, paging_get,
  paging_get_physical_address,
}
use vi_os.Paging.Frames.{Places, Placed, Free}
use vi_os.Paging.Map.{translation, Remapped, IsTree, paging_map-Remapped}
use vi_os.Paging.Range.{RangeMapped, paging_map_range-RangeMapped}
use vi_os.Paging.Get.{FirstsUsed, paging_get_physical_address-paging_map, paging_get-unused_first}

-- An empty table in frame 5, and the frames 6 to 11 for new tables.
empty : PageTables
empty = record { memory = λ g j. null; frames = 6 ∷ 7 ∷ 8 ∷ 9 ∷ 10 ∷ 11 ∷ []; invalidated = [] }

abbrev roots : Places
roots = record { depth = λ g. if g == 5 then 0 else 4; owner = λ g. 0; slot = λ g. 0 }

empty-Placed : Placed roots empty.memory
unfolding empty null_entry
empty-Placed = record {
  child_depth = λ g j lt used. absurd (unused used);
  child_owner = λ g j lt used. absurd (unused used);
  child_slot = λ g j lt used. absurd (unused used);
}
  where
    unused : null_entry null ≡ false → ⊥
    unused h = cc

empty-Free : Free roots empty.frames
unfolding empty
empty-Free = (
  refl,
  omega arith,
  (refl, (refl, (refl, (refl, (refl, tt))))),
  (
    refl,
    omega arith,
    (refl, (refl, (refl, (refl, tt)))),
    (
      refl,
      omega arith,
      (refl, (refl, (refl, tt))),
      (
        refl,
        omega arith,
        (refl, (refl, tt)),
        (refl, omega arith, (refl, tt), (refl, omega arith, tt, tt)),
      ),
    ),
  ),
)

empty-IsTree : (n : ℕ) → n ≤ 6 → IsTree empty 5 n
unfolding empty
empty-IsTree n le = record {
  places = roots;
  placed = empty-Placed;
  free = empty-Free;
  root = refl;
  enough = le;
}

-- An address of the first page.
found :
    paging_get_physical_address ((paging_map empty 5 0x123 0x7000 7).1.memory) 5 0x123 ≡ some 0x7123
unfolding paging_get_physical_address paging_map empty
found = refl

unaligned : paging_map_to empty 5 0x1000 0x7001 0x8000 3 ≡ (neg e_invarg, empty)
unfolding paging_map_to
unaligned = refl

paging_map-Remapped_example :
    (pt' : PageTables) × (paging_map empty 5 0x400000 0x7000 7 ≡ (pos 0, pt'))
    × Remapped empty pt' 5 0x400000 0x7000 7
    × IsTree pt' 5 0
paging_map-Remapped_example =
    paging_map-Remapped empty 5 0x400000 0x7000 7 0 (empty-IsTree 3 (omega arith))

paging_map_range-RangeMapped_example :
    (pt' : PageTables) × (paging_map_range 2 empty 5 0x400000 0x7000 7 ≡ (pos 0, pt'))
    × RangeMapped empty pt' 5 0x400000 0x7000 2 7
    × IsTree pt' 5 0
paging_map_range-RangeMapped_example =
    paging_map_range-RangeMapped 2 empty 5 0x400000 0x7000 7 0 (empty-IsTree 6 (omega arith))
      (omega arith) (omega arith)

firsts : FirstsUsed ((paging_map empty 5 0x123 0x7000 7).1.memory) 5 0x123
unfolding paging_map empty
firsts = record { pdpt_first = refl; pd_first = refl }

paging_get_physical_address-paging_map_example :
    paging_get_physical_address ((paging_map empty 5 0x123 0x7000 7).1.memory) 5 0x123
    ≡ some (0x7000 / 4096 * 4096 + 0x123 % 4096)
paging_get_physical_address-paging_map_example =
    paging_get_physical_address-paging_map empty 5 0x123 0x7000 7 (empty-IsTree 3 (omega arith))
      (omega arith) refl firsts

-- An address one gigabyte up.
paging_get-unused_first_example :
    (translation ((paging_map empty 5 0x40000000 0x7000 7).1.memory) 5 0x40000000
      ≡ leaf null 0x7000 7)
    × (paging_get ((paging_map empty 5 0x40000000 0x7000 7).1.memory) 5 0x40000000 ≡ none)
unfolding empty null_entry
paging_get-unused_first_example =
    paging_get-unused_first empty 5 0x40000000 0x7000 7 (empty-IsTree 3 (omega arith)) refl
      (omega arith)
