-- ===== src/Vector/Reorder.antt =====
-- vector_reorder of ViOS64Bit/src/lib/vector/vector.c sorts.
use vi_os.Prelude.{
  ℕ, zero, suc, ◌+◌, ◌-◌, ◌<◌, ◌≡◌, refl, ap, sym, ◌∙◌, Bool, true, false, List, [], ◌∷◌, ◌++◌,
  append_assoc, some, arith, length, length-append, Bool-cases, inl, inr, Run, ok, ltb, pos, ◌≤◌,
  ◌^◌, to_int32, to_int32-small,
}
use mathlib.Core.Path.{subst}
use mathlib.Core.List.{Perm}
use mathlib.Core.List.Perm
use native.Mathlib.Nat.{le_refl}
use vi_os.Vector.{Vector, Elem, at, overwrite}
use vi_os.Vector.Bubble.{Reorder, compare_swap, inner_loop, outer_loop, reorder}
use vi_os.Vector.Contents.{Holds, at_lem, overwrite_lem}
use vi_os.Vector.Sort.{IsOrder, Sorted, bubble, passes, passes-perm, passes-Sorted}

module _ (greater : Reorder) where
  -- A run that goes on with a vector of the same element size, which holds `xs`.
  GoesOn : Vector → List Elem → Run (Bool × Vector) → Type 0
  GoesOn vec xs out = (vec' : Vector) × (out ≡ ok (true, vec')) × Holds vec' xs

  module _ (vec : Vector) (front rest : List Elem) (a b : Elem)
      (holds : Holds vec (front ++ (a ∷ (b ∷ rest)))) (few : length front + 1 < 2 ^ 31) where
    first_index : to_int32 (length front) ≡ pos (length front)
    first_index = to_int32-small (length front) (omega arith)

    second_index : to_int32 (length front + 1) ≡ pos (length front + 1)
    second_index = to_int32-small (length front + 1) few

    next : length front + 1 ≡ length (front ++ (a ∷ []))
    next = omega (arith, length-append front (a ∷ []))

    second : at vec (length front + 1) false vec.e_size ≡ ok (pos 0, b)
    second =
        ap (λ i. at vec i false vec.e_size) next
        ∙ at_lem vec (front ++ (a ∷ [])) rest b
            (subst (Holds vec) (sym (append_assoc front (a ∷ []) (b ∷ rest))) holds) vec.e_size
            (le_refl vec.e_size)

    compare_swap-keep :
        greater a b ≡ false → compare_swap greater vec (length front) ≡ ok (true, vec)
    unfolding compare_swap
    compare_swap-keep le =
        rw (at_lem vec front (b ∷ rest) a holds vec.e_size (le_refl vec.e_size), second, le)

    swapped :
        greater a b ≡ true
        → GoesOn vec (front ++ (b ∷ (a ∷ rest))) (compare_swap greater vec (length front))
    unfolding compare_swap GoesOn
    swapped gt =
        let (v1, e1, h1, s1) =
          overwrite_lem vec front (b ∷ rest) a holds b vec.e_size (le_refl vec.e_size) in
        let (v2, e2, h2, s2) =
          overwrite_lem v1 (front ++ (b ∷ [])) rest b
            (subst (Holds v1) (sym (append_assoc front (b ∷ []) (b ∷ rest))) h1) a v1.e_size
            (le_refl v1.e_size) in
        (
          v2,
          rw (
            at_lem vec front (b ∷ rest) a holds vec.e_size (le_refl vec.e_size),
            second,
            gt,
            first_index,
            e1,
            second_index,
            placed v1 v2 e2,
          ),
          subst (Holds v2) (append_assoc front (b ∷ []) (a ∷ rest)) h2,
        )
      where
        placed :
            (v1 v2 : Vector)
            → overwrite v1 (pos (length (front ++ (b ∷ [])))) a v1.e_size ≡ ok (pos 0, v2)
            → overwrite v1 (pos (length front + 1)) a v1.e_size ≡ ok (pos 0, v2)
        placed v1 v2 e =
            ap (λ i. overwrite v1 (pos i) a v1.e_size) (omega (arith, length-append front (b ∷ [])))
            ∙ e

  inner_step :
      (rounds : ℕ) (front ys : List Elem) (c : Elem) (i : ℕ) (vec : Vector)
      → i ≡ length front
      → GoesOn vec (front ++ (c ∷ ys)) (compare_swap greater vec (length front))
      → ((v1 : Vector)
          → Holds v1 ((front ++ (c ∷ [])) ++ ys)
          → GoesOn v1
              ((front ++ (c ∷ [])) ++ bubble greater rounds ys)
              (inner_loop greater rounds (i + 1) v1))
      → GoesOn vec (front ++ (c ∷ bubble greater rounds ys)) (inner_loop greater (suc rounds) i vec)
  unfolding inner_loop GoesOn
  inner_step rounds front ys c i vec here (v1, e1, h1) later =
      let (v2, e2, h2) = later v1 (subst (Holds v1) (sym (append_assoc front (c ∷ []) ys)) h1) in
      (
        v2,
        rw (here, e1) (ap (λ n. inner_loop greater rounds (n + 1) v1) (sym here) ∙ e2),
        subst (Holds v2) (append_assoc front (c ∷ []) (bubble greater rounds ys)) h2,
      )

  inner_loop_lem :
      (rounds : ℕ) (front xs : List Elem) (i : ℕ) (vec : Vector)
      → i ≡ length front
      → rounds < length xs
      → length front + length xs ≤ 2 ^ 31
      → Holds vec (front ++ xs)
      → GoesOn vec (front ++ bubble greater rounds xs) (inner_loop greater rounds i vec)
  unfolding inner_loop bubble GoesOn
  inner_loop_lem zero front xs i vec here lt few holds = (vec, refl, holds)
  inner_loop_lem (suc rounds) front [] i vec here lt few holds = absurd (omega arith)
  inner_loop_lem (suc rounds) front (a ∷ []) i vec here lt few holds = absurd (omega arith)
  inner_loop_lem (suc rounds) front (a ∷ (b ∷ xs)) i vec here lt few holds =
      elim (Bool-cases (greater a b)) [
        | inl gt ↦ rw gt (
            inner_step rounds front (a ∷ xs) b i vec here
              (swapped vec front xs a b holds (omega arith) gt)
              (λ v1.
                inner_loop_lem rounds (front ++ (b ∷ [])) (a ∷ xs) (i + 1) v1
                  (omega (arith, here, length-append front (b ∷ []))) (omega arith)
                  (omega (arith, length-append front (b ∷ [])))))
        | inr le ↦ rw le (
            inner_step rounds front (b ∷ xs) a i vec here
              (vec, compare_swap-keep vec front xs a b holds (omega arith) le, holds)
              (λ v1.
                inner_loop_lem rounds (front ++ (a ∷ [])) (b ∷ xs) (i + 1) v1
                  (omega (arith, here, length-append front (a ∷ []))) (omega arith)
                  (omega (arith, length-append front (a ∷ [])))))
      ]

  length-bubble : (k : ℕ) (xs : List Elem) → length (bubble greater k xs) ≡ length xs
  unfolding bubble
  length-bubble zero xs = refl
  length-bubble (suc k) [] = refl
  length-bubble (suc k) (a ∷ []) = refl
  length-bubble (suc k) (a ∷ (b ∷ xs)) = elim (Bool-cases (greater a b)) [
    | inl gt ↦ rw gt (ap suc (length-bubble k (a ∷ xs)))
    | inr le ↦ rw le (ap suc (length-bubble k (b ∷ xs)))
  ]

  outer_loop_lem :
      (rounds : ℕ) (xs : List Elem) (vec : Vector)
      → rounds < length xs
      → length xs ≤ 2 ^ 31
      → Holds vec xs
      → (vec' : Vector) × (outer_loop greater rounds vec ≡ ok vec')
        × Holds vec' (passes greater rounds xs)
  unfolding outer_loop passes GoesOn
  outer_loop_lem zero xs vec lt few holds = (vec, refl, holds)
  outer_loop_lem (suc rounds) xs vec lt few holds =
      let (v1, e1, h1) = inner_loop_lem (suc rounds) [] xs 0 vec refl lt (omega arith) holds in
      let (v2, e2, h2) =
        outer_loop_lem rounds (bubble greater (suc rounds) xs) v1
          (omega (arith, length-bubble (suc rounds) xs))
          (omega (arith, length-bubble (suc rounds) xs)) h1 in
      (v2, rw e1 e2, h2)

  -- vector_reorder of at most 2^31 elements, of 1 to 2^31 - 1 bytes each, given its buffers and a comparison that is
  -- an order, returns a vector that holds a rearrangement of the elements in which none is greater than one behind
  -- it.
  pub reorder-Sorted :
      (vec : Vector) (xs : List Elem)
      → IsOrder greater
      → length xs ≤ 2 ^ 31
      → Holds vec xs
      → (vec' : Vector) × (ys : List Elem) × (reorder vec (some greater) true ≡ ok vec')
        × Holds vec' ys
        × Perm xs ys
        × Sorted greater ys
  unfolding reorder
  reorder-Sorted vec [] order few_enough holds =
      let few : ltb vec.t_elems 2 ≡ true = ground (arith, holds.counted) in
      (vec, [], rw few, holds, Perm.refl [], tt)
  reorder-Sorted vec (x ∷ []) order few_enough holds =
      let few : ltb vec.t_elems 2 ≡ true = ground (arith, holds.counted) in
      (vec, x ∷ [], rw few, holds, Perm.refl (x ∷ []), (tt, tt))
  reorder-Sorted vec (x ∷ (y ∷ xs)) order few_enough holds =
      let many : ltb vec.t_elems 2 ≡ false = ground (arith, holds.counted) in
      let rounds : vec.t_elems - 1 ≡ suc (length xs) = omega (arith, holds.counted) in
      let (vec', e, holds') =
        outer_loop_lem (suc (length xs)) (x ∷ (y ∷ xs)) vec (omega arith) few_enough holds in
      (
        vec',
        passes greater (suc (length xs)) (x ∷ (y ∷ xs)),
        rw many (ap (λ n. outer_loop greater n vec) rounds ∙ e),
        holds',
        passes-perm greater (suc (length xs)) (x ∷ (y ∷ xs)),
        passes-Sorted greater order (x ∷ (y ∷ xs)) (suc (length xs)) refl,
      )
