-- ===== src/Vector/Sort.antt =====
-- The bubble sort of vector_reorder in ViOS64Bit/src/lib/vector/vector.c, on lists.
use vi_os.Prelude.{
  ℕ, zero, suc, ◌≡◌, refl, ap, ◌∙◌, true, false, List, [], ◌∷◌, ◌++◌, arith, length, if◌then◌else◌,
  Bool-cases, inl, inr, append-nil,
}
use mathlib.Core.Path.{subst}
use mathlib.Core.List.{Perm}
use mathlib.Core.List.Perm
use vi_os.Vector.{Elem}
use vi_os.Vector.Bubble.{Reorder}

-- What the code needs of a comparison to sort by it.
pub record IsOrder (greater : Reorder) : Type 0 where
  pub asym : (a b : Elem) → greater a b ≡ true → greater b a ≡ false
  pub trans : (a b c : Elem) → greater a b ≡ false → greater b c ≡ false → greater a c ≡ false

abbrev pub All : (Elem → Type 0) → List Elem → Type 0
All P [] = Unit
All P (x ∷ xs) = P x × All P xs

-- `k` rounds of the inner loop, from the list's start on.
unfoldable pub bubble : Reorder → ℕ → List Elem → List Elem
bubble greater zero xs = xs
bubble greater (suc k) [] = []
bubble greater (suc k) (a ∷ []) = a ∷ []
bubble greater (suc k) (a ∷ (b ∷ xs)) =
    if greater a b then b ∷ bubble greater k (a ∷ xs) else a ∷ bubble greater k (b ∷ xs)

unfoldable pub passes : Reorder → ℕ → List Elem → List Elem
passes greater zero xs = xs
passes greater (suc k) xs = passes greater k (bubble greater (suc k) xs)

module _ (greater : Reorder) where
  -- No element is greater than one behind it.
  abbrev pub Sorted : List Elem → Type 0
  Sorted [] = Unit
  Sorted (x ∷ xs) = All (λ y. greater x y ≡ false) xs × Sorted xs

  bubble-perm : (k : ℕ) (xs : List Elem) → Perm xs (bubble greater k xs)
  unfolding bubble
  bubble-perm zero xs = Perm.refl xs
  bubble-perm (suc k) [] = Perm.refl []
  bubble-perm (suc k) (a ∷ []) = Perm.refl (a ∷ [])
  bubble-perm (suc k) (a ∷ (b ∷ xs)) = elim (Bool-cases (greater a b)) [
    | inl gt ↦ rw gt (Perm.trans (Perm.swap b a xs) (Perm.cons b (bubble-perm k (a ∷ xs))))
    | inr le ↦ rw le (Perm.cons a (bubble-perm k (b ∷ xs)))
  ]

  pub passes-perm : (k : ℕ) (xs : List Elem) → Perm xs (passes greater k xs)
  unfolding passes
  passes-perm zero xs = Perm.refl xs
  passes-perm (suc k) xs =
      Perm.trans (bubble-perm (suc k) xs) (passes-perm k (bubble greater (suc k) xs))

  -- What a pass leaves behind it, and the greatest element, which it carries to the end.
  carry : Elem → List Elem → List Elem × Elem
  carry a [] = ([], a)
  carry a (b ∷ ys) =
      let up = carry a ys in
      let stay = carry b ys in if greater a b then (b ∷ up.0, up.1) else (a ∷ stay.0, stay.1)

  bubble-carry :
      (ys zs : List Elem) (a : Elem)
      → bubble greater (length ys) (a ∷ (ys ++ zs)) ≡ (carry a ys).0 ++ ((carry a ys).1 ∷ zs)
  unfolding bubble carry
  bubble-carry [] zs a = refl
  bubble-carry (b ∷ ys) zs a = elim (Bool-cases (greater a b)) [
    | inl gt ↦ rw gt (ap (λ t. b ∷ t) (bubble-carry ys zs a))
    | inr le ↦ rw le (ap (λ t. a ∷ t) (bubble-carry ys zs b))
  ]

  length-carry : (ys : List Elem) (a : Elem) → length (carry a ys).0 ≡ length ys
  unfolding carry
  length-carry [] a = refl
  length-carry (b ∷ ys) a = elim (Bool-cases (greater a b)) [
    | inl gt ↦ rw gt (ap suc (length-carry ys a))
    | inr le ↦ rw le (ap suc (length-carry ys b))
  ]

  carry-All :
      (P : Elem → Type 0) (ys : List Elem) (a : Elem)
      → P a
      → All P ys
      → All P (carry a ys).0 × P (carry a ys).1
  unfolding carry
  carry-All P [] a p all = (tt, p)
  carry-All P (b ∷ ys) a p all = elim (Bool-cases (greater a b)) [
    | inl gt ↦ let (rest, top) = carry-All P ys a p all.1 in rw gt ((all.0, rest), top)
    | inr le ↦ let (rest, top) = carry-All P ys b all.0 all.1 in rw le ((p, rest), top)
  ]

  module _ (order : IsOrder greater) where
    not_greater_self : (a : Elem) → greater a a ≡ false
    not_greater_self a = elim (Bool-cases (greater a a)) [
      | inl gt ↦ order.asym a a gt
      | inr le ↦ le
    ]

    carry-ge : (ys : List Elem) (a : Elem) → greater a (carry a ys).1 ≡ false
    unfolding carry
    carry-ge [] a = not_greater_self a
    carry-ge (b ∷ ys) a = elim (Bool-cases (greater a b)) [
      | inl gt ↦ rw gt (carry-ge ys a)
      | inr le ↦ rw le (order.trans a b (carry b ys).1 le (carry-ge ys b))
    ]

    carry-max :
        (ys : List Elem) (a : Elem) → All (λ y. greater y (carry a ys).1 ≡ false) (carry a ys).0
    unfolding carry
    carry-max [] a = tt
    carry-max (b ∷ ys) a = elim (Bool-cases (greater a b)) [
      | inl gt ↦
          rw gt (order.trans b a (carry a ys).1 (order.asym a b gt) (carry-ge ys a), carry-max ys a)
      | inr le ↦ rw le (order.trans a b (carry b ys).1 le (carry-ge ys b), carry-max ys b)
    ]

    -- Every element of `ys` is at most every element of `zs`.
    abbrev Below : List Elem → List Elem → Type 0
    Below ys zs = All (λ y. All (λ z. greater y z ≡ false) zs) ys

    Below-cons :
        (ys zs : List Elem) (m : Elem)
        → All (λ y. greater y m ≡ false) ys
        → Below ys zs
        → Below ys (m ∷ zs)
    Below-cons [] zs m le below = tt
    Below-cons (y ∷ ys) zs m le below = ((le.0, below.0), Below-cons ys zs m le.1 below.1)

    passes-from :
        (k : ℕ) (ys zs : List Elem)
        → length ys ≡ suc k
        → Below ys zs
        → Sorted zs
        → Sorted (passes greater k (ys ++ zs))
    unfolding passes
    passes-from k [] zs size below sorted = absurd (omega arith)
    passes-from zero (a ∷ []) zs size below sorted = (below.0, sorted)
    passes-from zero (a ∷ (b ∷ ys)) zs size below sorted = absurd (omega arith)
    passes-from (suc k) (a ∷ ys) zs size below sorted =
        let (rest, top) = carry-All (λ y. All (λ z. greater y z ≡ false) zs) ys a below.0 below.1 in
        let long : suc k ≡ length ys = omega arith in
        rw (long, bubble-carry ys zs a)
          (passes-from k (carry a ys).0 ((carry a ys).1 ∷ zs) (length-carry ys a ∙ omega arith)
            (Below-cons (carry a ys).0 zs (carry a ys).1 (carry-max ys a) rest) (top, sorted))

    Below-nil : (ys : List Elem) → Below ys []
    Below-nil [] = tt
    Below-nil (y ∷ ys) = (tt, Below-nil ys)

    pub passes-Sorted : (xs : List Elem) (k : ℕ) → length xs ≡ suc k → Sorted (passes greater k xs)
    passes-Sorted xs k size =
        subst (λ l. Sorted (passes greater k l)) (append-nil xs)
          (passes-from k xs [] size (Below-nil xs) tt)
