-- ===== src/Paging/Map.antt =====
-- paging_map, paging_map_range and paging_get of ViOS64Bit/src/memory/paging/paging.c against the walk of
-- the processor.
use vi_os.Prelude.{
  ℕ, ◌+◌, ◌/◌, ◌%◌, ◌^◌, ◌≤◌, ◌≡◌, refl, ◌∙◌, inl, inr, Bool, true, Bool-cases, [], ◌∷◌, arith,
  length, ◌==◌, if◌then◌else◌, pos,
}
use vi_os.Paging.{Entry, PageTables, leaf, pml4_index, pdpt_index, pd_index, pt_index, paging_map}
use vi_os.Paging.Frames.{Places, Placed, Free}
use vi_os.Paging.Walk.{look, map_path, same_path, map_path-Mapped}

-- The entry by which the processor translates an address.
unfoldable pub translation : (ℕ → ℕ → Entry) → ℕ → ℕ → Entry
unfolding look
translation memory pml va =
    look memory pml (pml4_index va) (pdpt_index va ∷ pd_index va ∷ pt_index va ∷ [])

-- Two addresses of one page of the 48 bits that are translated.
unfoldable pub same_page : ℕ → ℕ → Bool
same_page va va' = va / 4096 % 2 ^ 36 == va' / 4096 % 2 ^ 36

pub same_page_self : (va : ℕ) → same_page va va ≡ true
unfolding same_page
same_page_self va = ground arith

-- The tables below `pml` form a tree, and at least `n` frames are left for new ones.
pub record IsTree (pt : PageTables) (pml n : ℕ) : Type 0 where
  pub places : Places
  pub placed : Placed places pt.memory
  pub free : Free places pt.frames
  pub root : places.depth pml ≡ 0
  pub enough : n ≤ length pt.frames

same_path-same_page :
    (va va' : ℕ)
    → same_path
        (pml4_index va ∷ pdpt_index va ∷ pd_index va ∷ pt_index va ∷ [])
        (pml4_index va' ∷ pdpt_index va' ∷ pd_index va' ∷ pt_index va' ∷ [])
      ≡ same_page va va'
unfolding same_page
same_path-same_page va va' = elim (Bool-cases (va / 4096 % 2 ^ 36 == va' / 4096 % 2 ^ 36)) [
  | inl same ↦ ground (arith, same)
  | inr other ↦ ground (arith, other)
]

pub paging_map-map_path :
    (pt : PageTables) (pml virt phys flags : ℕ)
    → paging_map pt pml virt phys flags ≡ (
      pos 0,
      map_path pt pml
          (pml4_index virt)
          (pdpt_index virt ∷ pd_index virt ∷ pt_index virt ∷ [])
          virt
          phys
          flags,
    )
unfolding paging_map map_path
paging_map-map_path pt pml virt phys flags = refl

-- What a paging_map does to the translation of every address.
abbrev pub Remapped : PageTables → PageTables → ℕ → ℕ → ℕ → ℕ → Type 0
Remapped pt pt' pml virt phys flags =
    (va : ℕ)
    → translation pt'.memory pml va ≡ (
        if same_page virt va
        then leaf (translation pt.memory pml virt) phys flags
        else translation pt.memory pml va)

-- paging_map, on a tree of tables with three frames left, returns 0 and maps the page of the address as
-- asked; every address of another page is translated as before, and the tables form a tree again.
pub paging_map-Remapped :
    (pt : PageTables) (pml virt phys flags n : ℕ)
    → IsTree pt pml (n + 3)
    → (pt' : PageTables) × (paging_map pt pml virt phys flags ≡ (pos 0, pt'))
      × Remapped pt pt' pml virt phys flags
      × IsTree pt' pml n
unfolding translation
paging_map-Remapped pt pml virt phys flags n tree =
    let (places', mapped) =
      map_path-Mapped (pdpt_index virt ∷ pd_index virt ∷ pt_index virt ∷ []) tree.places pt pml
        (pml4_index virt) virt phys flags tree.placed tree.free (omega (arith, tree.root))
        (omega (arith, tree.enough)) in
    (
      map_path pt pml (pml4_index virt) (pdpt_index virt ∷ pd_index virt ∷ pt_index virt ∷ []) virt
          phys flags,
      paging_map-map_path pt pml virt phys flags,
      (λ va.
          mapped.law pml (pml4_index va) (pdpt_index va ∷ pd_index va ∷ pt_index va ∷ []) refl refl
          ∙ rw (itself pml, same_path-same_page virt va)),
      record {
        places = places';
        placed = mapped.placed;
        free = mapped.free;
        root = (mapped.same_places pml (omega (arith, tree.root))).0 ∙ tree.root;
        enough = omega (arith, mapped.count, tree.enough);
      },
    )
  where
    itself : (g : ℕ) → (g == g) ≡ true
    itself g = ground arith
