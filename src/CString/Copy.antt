-- ===== src/CString/Copy.antt =====
-- strcpy and strncpy of ViOS64Bit/src/string/string.c.
use vi_os.Prelude.{
  ℕ, zero, suc, ◌+◌, ◌≤◌, ◌<◌, ◌≡◌, refl, ap, List, [], ◌∷◌, ◌++◌, arith, length, drop, ok, fault,
}
use vi_os.CString.{strcpy, strncpy}
use vi_os.CString.Length.{NoNul}

-- strcpy into a buffer with room for the string and its terminator copies both and leaves the rest.
pub strcpy_lem :
    (s rest dest : List ℕ)
    → NoNul s
    → length s < length dest
    → strcpy dest (s ++ (0 ∷ rest)) ≡ ok (s ++ (0 ∷ drop (length s + 1) dest))
unfolding strcpy
strcpy_lem [] rest [] h lt = absurd (omega arith)
strcpy_lem [] rest (d ∷ dest) h lt = refl
strcpy_lem (c ∷ s) rest [] h lt = absurd (omega arith)
strcpy_lem (c ∷ s) rest (d ∷ dest) h lt =
    rw (h.0, strcpy_lem s rest dest h.1 (omega arith))
      (ap (λ n. ok ((c ∷ s) ++ (0 ∷ drop n (d ∷ dest)))) index)
  where
    index : suc (length s + 1) ≡ suc (length s) + 1
    index = omega arith

-- strcpy into a buffer without that room writes behind its end.
pub strcpy-fault :
    (s rest dest : List ℕ)
    → NoNul s
    → length dest ≤ length s
    → strcpy dest (s ++ (0 ∷ rest)) ≡ fault
unfolding strcpy
strcpy-fault [] rest [] h le = refl
strcpy-fault [] rest (d ∷ dest) h le = absurd (omega arith)
strcpy-fault (c ∷ s) rest [] h le = refl
strcpy-fault (c ∷ s) rest (d ∷ dest) h le = rw (h.0, strcpy-fault s rest dest h.1 (omega arith))

-- strncpy of a string shorter than `count`, into a buffer with room for it and its terminator, copies
-- both and leaves the rest.
pub strncpy-short :
    (s rest dest : List ℕ) (count : ℕ)
    → NoNul s
    → length s < count
    → length s < length dest
    → strncpy dest (s ++ (0 ∷ rest)) count ≡ ok (s ++ (0 ∷ drop (length s + 1) dest))
unfolding strncpy
strncpy-short s rest dest zero h lt room = absurd (omega arith)
strncpy-short [] rest [] (suc count) h lt room = absurd (omega arith)
strncpy-short [] rest (d ∷ dest) (suc count) h lt room = refl
strncpy-short (c ∷ s) rest [] (suc count) h lt room = absurd (omega arith)
strncpy-short (c ∷ s) rest (d ∷ dest) (suc count) h lt room =
    rw (h.0, strncpy-short s rest dest count h.1 (omega arith) (omega arith))
      (ap (λ n. ok ((c ∷ s) ++ (0 ∷ drop n (d ∷ dest)))) index)
  where
    index : suc (length s + 1) ≡ suc (length s) + 1
    index = omega arith

-- strncpy of `count` characters or more writes `count + 1` bytes: into a buffer of just `count` bytes
-- it writes behind the end.
pub strncpy-overflow :
    (s rest dest : List ℕ) (count : ℕ)
    → NoNul s
    → count ≤ length s
    → length dest ≤ count
    → strncpy dest (s ++ rest) count ≡ fault
unfolding strncpy
strncpy-overflow s rest [] zero h le full = refl
strncpy-overflow s rest (d ∷ dest) zero h le full = absurd (omega arith)
strncpy-overflow [] rest dest (suc count) h le full = absurd (omega arith)
strncpy-overflow (c ∷ s) rest [] (suc count) h le full = refl
strncpy-overflow (c ∷ s) rest (d ∷ dest) (suc count) h le full =
    rw (h.0, strncpy-overflow s rest dest count h.1 (omega arith) (omega arith))
