-- ===== src/CString/Length.antt =====
-- strlen, strnlen and strchr of ViOS64Bit/src/string/string.c on a string in a buffer.
use vi_os.Prelude.{
  ℕ, zero, suc, ◌+◌, ◌≡◌, ap, ◌∙◌, true, false, List, [], ◌∷◌, ◌++◌, arith, length, min, ok, ◌==◌,
  ◌||◌,
}
use vi_os.CString.{
  strlen_loop, strlen, strnlen_loop, strnlen, strnlen_terminator_loop, strnlen_terminator,
}

-- No character of the text is the terminator `t`, or NUL.
abbrev pub Lacks : ℕ → List ℕ → Type 0
Lacks t [] = Unit
Lacks t (c ∷ s) = ((c == 0) ≡ false) × ((c == t) ≡ false) × Lacks t s

abbrev pub NoNul : List ℕ → Type 0
NoNul [] = Unit
NoNul (c ∷ s) = ((c == 0) ≡ false) × NoNul s

strlen_loop_lem :
    (s rest : List ℕ) (i : ℕ) → NoNul s → strlen_loop (s ++ (0 ∷ rest)) i ≡ ok (i + length s)
unfolding strlen_loop
strlen_loop_lem [] rest i h = ap ok (omega arith)
strlen_loop_lem (c ∷ s) rest i h =
    rw (h.0) (strlen_loop_lem s rest (i + 1) h.1 ∙ ap ok (omega arith))

-- strlen of a string in a buffer is its length.
pub strlen_lem : (s rest : List ℕ) → NoNul s → strlen (s ++ (0 ∷ rest)) ≡ ok (length s)
unfolding strlen
strlen_lem s rest h = strlen_loop_lem s rest 0 h ∙ ap ok (omega arith)

strnlen_loop_lem :
    (max : ℕ) (s rest : List ℕ) (i : ℕ)
    → NoNul s
    → strnlen_loop max (s ++ (0 ∷ rest)) i ≡ ok (i + min max (length s))
unfolding strnlen_loop
strnlen_loop_lem zero s rest i h = ap ok (omega arith)
strnlen_loop_lem (suc max) [] rest i h = ap ok (omega arith)
strnlen_loop_lem (suc max) (c ∷ s) rest i h =
    rw (h.0) (strnlen_loop_lem max s rest (i + 1) h.1 ∙ ap ok (omega arith))

-- strnlen of a string in a buffer is its length, and at most `max`.
pub strnlen_lem :
    (max : ℕ) (s rest : List ℕ) → NoNul s → strnlen (s ++ (0 ∷ rest)) max ≡ ok (min max (length s))
unfolding strnlen
strnlen_lem max s rest h = strnlen_loop_lem max s rest 0 h ∙ ap ok (omega arith)

strnlen_terminator_loop_lem :
    (max t : ℕ) (s rest : List ℕ) (c i : ℕ)
    → Lacks t s
    → (c == 0 || c == t) ≡ true
    → strnlen_terminator_loop max (s ++ (c ∷ rest)) t i ≡ ok (i + min max (length s))
unfolding strnlen_terminator_loop
strnlen_terminator_loop_lem zero t s rest c i h stop = ap ok (omega arith)
strnlen_terminator_loop_lem (suc max) t [] rest c i h stop = rw stop (ap ok (omega arith))
strnlen_terminator_loop_lem (suc max) t (x ∷ s) rest c i h stop =
    rw (h.0, h.1)
      (strnlen_terminator_loop_lem max t s rest c (i + 1) h.2 stop ∙ ap ok (omega arith))

-- strnlen_terminator counts up to the first NUL or terminator, and at most to `max`.
pub strnlen_terminator_lem :
    (max t : ℕ) (s rest : List ℕ) (c : ℕ)
    → Lacks t s
    → (c == 0 || c == t) ≡ true
    → strnlen_terminator (s ++ (c ∷ rest)) max t ≡ ok (min max (length s))
unfolding strnlen_terminator
strnlen_terminator_lem max t s rest c h stop =
    strnlen_terminator_loop_lem max t s rest c 0 h stop ∙ ap ok (omega arith)
