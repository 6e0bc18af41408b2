-- ===== src/Paging/Get.antt =====
-- paging_get and paging_get_physical_address of ViOS64Bit/src/memory/paging/paging.c against the walk of the
-- processor.
use vi_os.Prelude.{
  ℕ, ◌+◌, ◌*◌, ◌/◌, ◌%◌, ◌^◌, ◌<◌, ◌≡◌, sym, ◌∙◌, ap, ◌⊎◌, inl, inr, true, false, Bool-cases, [],
  ◌∷◌, none, some, arith, ◌==◌, add64,
}
use mathlib.Core.Path.{subst}
use vi_os.Paging.{
  Entry, PageTables, null, null_entry, leaf, flag, ensure, pml4_index, pdpt_index, pd_index,
  pt_index, paging_map, paging_get, paging_get_physical_address,
}
use vi_os.Paging.Frames.{ensure-Ensured}
use vi_os.Paging.Walk.{look, map_path, map_path-Mapped, lower_depth}
use vi_os.Paging.Map.{translation, same_page_self, IsTree, paging_map-map_path, paging_map-Remapped}

-- The tables on the way to an address.
abbrev pub pdpt_of : (ℕ → ℕ → Entry) → ℕ → ℕ → ℕ
pdpt_of memory pml va = (memory pml (pml4_index va)).address

abbrev pub pd_of : (ℕ → ℕ → Entry) → ℕ → ℕ → ℕ
pd_of memory pml va = (memory (pdpt_of memory pml va) (pdpt_index va)).address

-- The first entries of the two middle tables are in use.
pub record FirstsUsed (memory : ℕ → ℕ → Entry) (pml va : ℕ) : Type 0 where
  pub pdpt_first : null_entry (memory (pdpt_of memory pml va) 0) ≡ false
  pub pd_first : null_entry (memory (pd_of memory pml va) 0) ≡ false

-- Where the processor finds an entry and the first entries are in use, the code finds the same.
missing : null_entry null ≡ false → ⊥
unfolding null_entry
missing h = cc

paging_get_physical_address-translation :
    (memory : ℕ → ℕ → Entry) (pml va : ℕ)
    → FirstsUsed memory pml va
    → null_entry (translation memory pml va) ≡ false
    → paging_get_physical_address memory pml va
      ≡ some (add64 ((translation memory pml va).address * 4096) (va % 4096))
unfolding translation paging_get_physical_address paging_get look
paging_get_physical_address-translation memory pml va firsts found =
    elim (Bool-cases (null_entry (memory pml (pml4_index va)))) [
      | inl empty ↦ absurd (missing (rw empty at found))
      | inr used ↦ elim (Bool-cases (null_entry (memory (pdpt_of memory pml va) (pdpt_index va)))) [
        | inl empty ↦ absurd (missing (rw (used, empty) at found))
        | inr used' ↦ elim (Bool-cases (null_entry (memory (pd_of memory pml va) (pd_index va)))) [
          | inl empty ↦ absurd (missing (rw (used, used', empty) at found))
          | inr used'' ↦ rw (used, firsts.pdpt_first, used', firsts.pd_first, used'')
        ]
      ]
    ]

-- A page that paging_map maps as present to a frame below 2^52 is found by paging_get_physical_address, with
-- the offset in the page, if the first entries of the two middle tables are in use afterwards.
pub paging_get_physical_address-paging_map :
    (pt : PageTables) (pml virt phys flags : ℕ)
    → IsTree pt pml 3
    → phys < 2 ^ 52
    → flag flags 1 ≡ true
    → FirstsUsed ((paging_map pt pml virt phys flags).1.memory) pml virt
    → paging_get_physical_address ((paging_map pt pml virt phys flags).1.memory) pml virt
      ≡ some (phys / 4096 * 4096 + virt % 4096)
unfolding null_entry
paging_get_physical_address-paging_map pt pml virt phys flags tree small present firsts =
    let (pt', e, law, tree') =
      paging_map-Remapped pt pml virt phys flags 0 (subst (IsTree pt pml) (omega arith) tree) in
    let found : translation pt'.memory pml virt ≡ leaf (translation pt.memory pml virt) phys flags =
      law virt ∙ rw (same_page_self virt) in
    let same : paging_get_physical_address pt'.memory pml virt
        ≡ some (phys / 4096 * 4096 + virt % 4096) =
      paging_get_physical_address-translation pt'.memory pml virt
        (subst (λ r. FirstsUsed (r.1.memory) pml virt) e firsts) (ap null_entry found ∙ rw present)
      ∙ ap (λ (e : Entry). some (add64 (e.address * 4096) (virt % 4096))) found
      ∙ ap some (omega arith) in
    subst
      (λ r.
        paging_get_physical_address (r.1.memory) pml virt ≡ some (phys / 4096 * 4096 + virt % 4096))
      (sym e) same

-- The first entry of a second table that has just been made for an index other than 0.
Unseen : (ℕ → ℕ → Entry) → ℕ → ℕ → Type 0
Unseen memory pml virt =
    (null_entry (memory pml (pml4_index virt)) ≡ false)
    × (null_entry (memory (pdpt_of memory pml virt) 0) ≡ true)

map_path-Unseen :
    (pt : PageTables) (pml virt phys flags : ℕ)
    → IsTree pt pml 3
    → null_entry (pt.memory pml (pml4_index virt)) ≡ true
    → 0 < pdpt_index virt
    → Unseen
        (map_path pt pml
          (pml4_index virt)
          (pdpt_index virt ∷ pd_index virt ∷ pt_index virt ∷ [])
          virt
          phys
          flags).memory
        pml
        virt
unfolding Unseen map_path null_entry
map_path-Unseen pt pml virt phys flags tree was_null index =
    let (places', ensured) =
      ensure-Ensured tree.places pt pml (pml4_index virt) tree.placed (omega (arith, tree.root))
        tree.free (omega (arith, tree.enough)) in
    let pt' : PageTables = ensure pt pml (pml4_index virt) in
    let n : ℕ = (pt'.memory pml (pml4_index virt)).address in
    let depth =
      lower_depth tree.places places' pt pt' pml (pml4_index virt) ensured
        (omega (arith, tree.root)) in
    let (places'', mapped) =
      map_path-Mapped (pd_index virt ∷ pt_index virt ∷ []) places' pt' n (pdpt_index virt) virt phys
        flags ensured.placed ensured.free (omega (arith, depth, tree.root))
        (omega (arith, ensured.count, tree.enough)) in
    let root = (ensured.same_places pml (omega (arith, tree.root))).0 in
    let apart : (pml == n) ≡ false = ground (arith, depth, root, tree.root) in
    let kept = mapped.others pml (pml4_index virt) (omega (arith, depth, root)) (rw apart) in
    let first : (0 == pdpt_index virt) ≡ false = ground (arith, index) in
    let empty = mapped.others n 0 (omega arith) (ground (arith, first)) in
    (
      ap null_entry kept ∙ ensured.not_null,
      ap null_entry (
          ap
            (λ (e : Entry).
              (map_path pt' n (pdpt_index virt) (pd_index virt ∷ pt_index virt ∷ []) virt phys
                  flags).memory
                e.address 0)
            kept
          ∙ empty
          ∙ fresh ensured.below),
    )
  where
    fresh :
        ((null_entry (pt.memory pml (pml4_index virt)) ≡ true)
            × ((j : ℕ)
                → (ensure pt pml (pml4_index virt)).memory
                    (((ensure pt pml (pml4_index virt)).memory pml (pml4_index virt)).address)
                    j
                  ≡ null))
          ⊎ ((null_entry (pt.memory pml (pml4_index virt)) ≡ false)
              × ((ensure pt pml (pml4_index virt)).memory ≡ pt.memory))
        → (ensure pt pml (pml4_index virt)).memory
            (((ensure pt pml (pml4_index virt)).memory pml (pml4_index virt)).address)
            0
          ≡ null
    fresh (inl (e, empty)) = empty 0
    fresh (inr (e, same)) = absurd (ground (arith, e, was_null))

Unseen-paging_get :
    (memory : ℕ → ℕ → Entry) (pml va : ℕ) → Unseen memory pml va → paging_get memory pml va ≡ none
unfolding Unseen paging_get
Unseen-paging_get memory pml va unseen = rw (unseen.0, unseen.1)

missing_translation :
    (memory : ℕ → ℕ → Entry) (pml va : ℕ)
    → null_entry (memory pml (pml4_index va)) ≡ true
    → translation memory pml va ≡ null
unfolding translation look
missing_translation memory pml va e = rw e

-- Where paging_map has to make the second table, and the address has another index in it than 0,
-- the processor finds the new entry, and paging_get does not.
pub paging_get-unused_first :
    (pt : PageTables) (pml virt phys flags : ℕ)
    → IsTree pt pml 3
    → null_entry (pt.memory pml (pml4_index virt)) ≡ true
    → 0 < pdpt_index virt
    → (translation ((paging_map pt pml virt phys flags).1.memory) pml virt ≡ leaf null phys flags)
      × (paging_get ((paging_map pt pml virt phys flags).1.memory) pml virt ≡ none)
paging_get-unused_first pt pml virt phys flags tree was_null index =
    let (pt', e, law, tree') =
      paging_map-Remapped pt pml virt phys flags 0 (subst (IsTree pt pml) (omega arith) tree) in
    let found : translation pt'.memory pml virt ≡ leaf null phys flags =
      law virt
      ∙ rw (same_page_self virt)
          (ap (λ e. leaf e phys flags) (missing_translation pt.memory pml virt was_null)) in
    let unseen = map_path-Unseen pt pml virt phys flags tree was_null index in
    (
      subst (λ r. translation (r.1.memory) pml virt ≡ leaf null phys flags) (sym e) found,
      subst (λ r. paging_get (r.1.memory) pml virt ≡ none)
          (sym (paging_map-map_path pt pml virt phys flags))
          (Unseen-paging_get
            (map_path pt pml (pml4_index virt)
              (pdpt_index virt ∷ pd_index virt ∷ pt_index virt ∷ []) virt phys flags).memory
            pml virt unseen),
    )
