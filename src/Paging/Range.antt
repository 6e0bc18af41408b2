-- ===== src/Paging/Range.antt =====
-- paging_map_range of ViOS64Bit/src/memory/paging/paging.c.
use vi_os.Prelude.{
  ℕ, zero, suc, ◌+◌, ◌*◌, ◌^◌, ◌≤◌, ◌<◌, ◌≡◌, refl, ◌∙◌, ap, false, arith, pos, add64,
}
use mathlib.Core.Path.{subst}
use vi_os.Paging.{PageTables, leaf, paging_map_range}
use vi_os.Paging.Map.{translation, same_page, IsTree, Remapped, paging_map-Remapped, same_page_self}

-- The `count` pages from `virt` on are mapped to those from `phys` on, and no other page changes.
pub record RangeMapped (pt pt' : PageTables) (pml virt phys count flags : ℕ) : Type 0 where
  pub inside :
      (k : ℕ)
      → k < count
      → translation pt'.memory pml (virt + 4096 * k)
        ≡ leaf (translation pt.memory pml (virt + 4096 * k)) (phys + 4096 * k) flags
  pub outside :
      (va : ℕ)
      → ((k : ℕ) → k < count → same_page (virt + 4096 * k) va ≡ false)
      → translation pt'.memory pml va ≡ translation pt.memory pml va

other_page :
    (virt k : ℕ) → 0 < k → virt + 4096 * k < 2 ^ 48 → same_page virt (virt + 4096 * k) ≡ false
unfolding same_page
other_page virt k positive small = ground arith

other_page' :
    (virt k : ℕ) → 0 < k → virt + 4096 * k < 2 ^ 48 → same_page (virt + 4096 * k) virt ≡ false
unfolding same_page
other_page' virt k positive small = ground arith

-- The first page, and the pages behind it.
RangeMapped-suc :
    (pt pt' pt'' : PageTables) (pml virt phys count flags : ℕ)
    → virt + 4096 * (count + 1) ≤ 2 ^ 48
    → Remapped pt pt' pml virt phys flags
    → RangeMapped pt' pt'' pml (virt + 4096) (phys + 4096) count flags
    → RangeMapped pt pt'' pml virt phys (suc count) flags
RangeMapped-suc pt pt' pt'' pml virt phys count flags small first rest = record {
  inside = λ k lt. inside k lt;
  outside = λ va apart.
      rest.outside va (λ k lt. ap (λ q. same_page q va) (omega arith) ∙ apart (suc k) (omega arith))
      ∙ first va
      ∙ (let here : same_page virt va ≡ false =
            ap (λ q. same_page q va) (omega arith) ∙ apart 0 (omega arith) in
          rw here);
}
  where
    at_first : translation pt''.memory pml virt ≡ leaf (translation pt.memory pml virt) phys flags
    at_first =
        rest.outside virt (λ k lt.
          ap (λ q. same_page q virt) (omega arith)
          ∙ other_page' virt (k + 1) (omega arith) (omega arith))
        ∙ first virt
        ∙ rw (same_page_self virt)

    behind :
        (k : ℕ)
        → k < count
        → translation pt''.memory pml (virt + 4096 + 4096 * k)
          ≡ leaf (translation pt.memory pml (virt + 4096 + 4096 * k)) (phys + 4096 + 4096 * k) flags
    behind k lt =
        let unmoved : translation pt'.memory pml (virt + 4096 + 4096 * k)
            ≡ translation pt.memory pml (virt + 4096 + 4096 * k) =
          first (virt + 4096 + 4096 * k)
          ∙ (let other : same_page virt (virt + 4096 + 4096 * k) ≡ false =
                ap (same_page virt) (omega arith)
                ∙ other_page virt (k + 1) (omega arith) (omega arith) in
              rw other) in
        rest.inside k lt ∙ ap (λ e. leaf e (phys + 4096 + 4096 * k) flags) unmoved

    inside :
        (k : ℕ)
        → k < suc count
        → translation pt''.memory pml (virt + 4096 * k)
          ≡ leaf (translation pt.memory pml (virt + 4096 * k)) (phys + 4096 * k) flags
    inside zero lt =
        let here : virt + 4096 * 0 ≡ virt = omega arith in
        let there : phys + 4096 * 0 ≡ phys = omega arith in rw (here, there) at_first
    inside (suc k) lt =
        let here : virt + 4096 * suc k ≡ virt + 4096 + 4096 * k = omega arith in
        let there : phys + 4096 * suc k ≡ phys + 4096 + 4096 * k = omega arith in
        rw (here, there) (behind k (omega arith))

-- paging_map_range of `count` pages, inside of the 48 bits of an address and with three frames for each
-- page left, returns 0, maps those pages one after the other and leaves the translation of all others.
pub paging_map_range-RangeMapped :
    (count : ℕ) (pt : PageTables) (pml virt phys flags n : ℕ)
    → IsTree pt pml (n + 3 * count)
    → virt + 4096 * count ≤ 2 ^ 48
    → phys + 4096 * count ≤ 2 ^ 52
    → (pt' : PageTables) × (paging_map_range count pt pml virt phys flags ≡ (pos 0, pt'))
      × RangeMapped pt pt' pml virt phys count flags
      × IsTree pt' pml n
unfolding paging_map_range
paging_map_range-RangeMapped zero pt pml virt phys flags n tree small small' = (
  pt,
  refl,
  record { inside = λ k lt. absurd (omega arith); outside = λ va apart. refl },
  subst (IsTree pt pml) (omega arith) tree,
)
paging_map_range-RangeMapped (suc count) pt pml virt phys flags n tree small small' =
    let (pt', e, first, tree') =
      paging_map-Remapped pt pml virt phys flags (n + 3 * count)
        (subst (IsTree pt pml) (omega arith) tree) in
    let (pt'', e', rest, tree'') =
      paging_map_range-RangeMapped count pt' pml (virt + 4096) (phys + 4096) flags n tree'
        (omega arith) (omega arith) in
    let virt_step : add64 virt 4096 ≡ virt + 4096 = omega arith in
    let phys_step : add64 phys 4096 ≡ phys + 4096 = omega arith in
    (
      pt'',
      rw (e, virt_step, phys_step, e'),
      RangeMapped-suc pt pt' pt'' pml virt phys count flags (omega arith) first rest,
      tree'',
    )
