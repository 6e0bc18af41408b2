-- ===== src/CString/Compare.antt =====
-- strncmp and istrncmp of ViOS64Bit/src/string/string.c.
use vi_os.Prelude.{
  ℕ, zero, suc, ◌≡◌, ◌↔◌, refl, List, [], ◌∷◌, ◌++◌, arith, take, ok, ◌==◌, if◌then◌else◌, ℤ, pos,
}
use vi_os.CString.{strncmp, difference}
use vi_os.CString.Length.{NoNul}

-- What strncmp answers for two strings.
compare_texts : ℕ → List ℕ → List ℕ → ℤ
compare_texts zero s t = pos 0
compare_texts (suc n) [] [] = pos 0
compare_texts (suc n) [] (d ∷ t) = difference 0 d
compare_texts (suc n) (c ∷ s) [] = difference c 0
compare_texts (suc n) (c ∷ s) (d ∷ t) = if c == d then compare_texts n s t else difference c d

strncmp-compare_texts :
    (n : ℕ) (s t rest rest' : List ℕ)
    → NoNul s
    → NoNul t
    → strncmp n (s ++ (0 ∷ rest)) (t ++ (0 ∷ rest')) ≡ ok (compare_texts n s t)
unfolding strncmp compare_texts
strncmp-compare_texts zero s t rest rest' h k = refl
strncmp-compare_texts (suc n) [] [] rest rest' h k = refl
strncmp-compare_texts (suc n) [] (d ∷ t) rest rest' h k = ground arith
strncmp-compare_texts (suc n) (c ∷ s) [] rest rest' h k = ground arith
strncmp-compare_texts (suc n) (c ∷ s) (d ∷ t) rest rest' h k =
    ground (arith, strncmp-compare_texts n s t rest rest' h.1 k.1)

compare_texts-zero :
    (n : ℕ) (s t : List ℕ) → NoNul s → NoNul t → compare_texts n s t ≡ pos 0 → take n s ≡ take n t
unfolding compare_texts
compare_texts-zero zero s t h k e = refl
compare_texts-zero (suc n) [] [] h k e = refl
compare_texts-zero (suc n) [] (d ∷ t) h k e = ground arith
compare_texts-zero (suc n) (c ∷ s) [] h k e = ground arith
compare_texts-zero (suc n) (c ∷ s) (d ∷ t) h k e = ground (arith, compare_texts-zero n s t h.1 k.1)

take-compare_texts : (n : ℕ) (s t : List ℕ) → take n s ≡ take n t → compare_texts n s t ≡ pos 0
unfolding compare_texts
take-compare_texts zero s t e = refl
take-compare_texts (suc n) [] [] e = refl
take-compare_texts (suc n) [] (d ∷ t) e = cc
take-compare_texts (suc n) (c ∷ s) [] e = cc
take-compare_texts (suc n) (c ∷ s) (d ∷ t) e = ground (arith, take-compare_texts n s t)

-- strncmp of two strings returns, without reading behind their terminators, 0 exactly when their first
-- `n` characters agree.
pub strncmp-take :
    (n : ℕ) (s t rest rest' : List ℕ)
    → NoNul s
    → NoNul t
    → (r : ℤ) × (strncmp n (s ++ (0 ∷ rest)) (t ++ (0 ∷ rest')) ≡ ok r)
      × ((r ≡ pos 0) ↔ (take n s ≡ take n t))
strncmp-take n s t rest rest' h k = (
  compare_texts n s t,
  strncmp-compare_texts n s t rest rest' h k,
  (compare_texts-zero n s t h k, take-compare_texts n s t),
)
