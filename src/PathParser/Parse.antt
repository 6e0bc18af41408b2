-- ===== src/PathParser/Parse.antt =====
-- pathparser_parse of ViOS64Bit/src/fs/pparser.c on a path made of a drive and names.
use vi_os.Prelude.{
  ℕ, zero, suc, ◌+◌, ◌-◌, ◌/◌, ◌≤◌, ◌<◌, ◌≡◌, refl, ap, sym, ◌∙◌, true, false, List, [], ◌∷◌, ◌++◌,
  append_assoc, Option, some, arith, length, length-append, take, ok, ◌==◌, ltb, leb, min, pos,
}
use vi_os.CString.{strlen, isdigit, tonumericdigit}
use vi_os.CString.Length.{Lacks, NoNul, strlen_lem, strnlen_lem}
use vi_os.PathParser.{parse_path_part, path_valid_format, get_drive_by_path, parse}
use vi_os.PathParser.Parts.{
  padded, pad_all, behind, joined, Names, parse_path_part-joined, parse_loop-joined,
}

-- The characters of the names, with slashes between them.
abbrev pub further : List (List ℕ) → List ℕ
further [] = []
further (s ∷ names) = 47 ∷ (s ++ further names)

abbrev pub printed : ℕ → List ℕ → List (List ℕ) → List ℕ
printed drive s names = drive ∷ 58 ∷ 47 ∷ (s ++ further names)

further-behind :
    (names : List (List ℕ)) (rest : List ℕ) → behind names rest ≡ further names ++ (0 ∷ rest)
further-behind [] rest = refl
further-behind (s ∷ names) rest =
    ap (λ t. 47 ∷ t)
      (ap (λ t. s ++ t) (further-behind names rest)
        ∙ sym (append_assoc s (further names) (0 ∷ rest)))

NoNul-append : (s t : List ℕ) → Lacks 47 s → NoNul t → NoNul (s ++ t)
NoNul-append [] t h k = k
NoNul-append (c ∷ s) t h k = (h.0, NoNul-append s t h.2 k)

NoNul-further : (names : List (List ℕ)) → Names names → NoNul (further names)
NoNul-further [] h = tt
NoNul-further (s ∷ names) h = (refl, NoNul-append s (further names) h.0 (NoNul-further names h.3))

length-joined :
    (names : List (List ℕ)) (rest : List ℕ)
    → Names names
    → length names ≤ length (joined names rest)
length-joined [] rest h = omega arith
length-joined (s ∷ []) rest h = omega (arith, length-append s (0 ∷ rest))
length-joined (s ∷ t ∷ names) rest h = omega (
  arith,
  length-joined (t ∷ names) rest h.3,
  length-append s (47 ∷ (t ++ behind names rest)),
  h.1,
)

tonumericdigit-digit : (d : ℕ) → 48 ≤ d → d ≤ 57 → tonumericdigit d ≡ pos (d - 48)
unfolding tonumericdigit
tonumericdigit-digit d lo hi =
    let small : ltb d 128 ≡ true = ground arith in
    let up : leb 48 d ≡ true = ground arith in rw (tonumericdigit, small, up)

-- The drive of a string that starts as a path.
get_drive_by_path-digit :
    (primary : Option ℕ) (d : ℕ) (text rest : List ℕ)
    → 48 ≤ d
    → d ≤ 57
    → NoNul text
    → get_drive_by_path primary (d ∷ 58 ∷ 47 ∷ (text ++ (0 ∷ rest)))
      ≡ ok (pos (d - 48), text ++ (0 ∷ rest))
unfolding get_drive_by_path path_valid_format isdigit
get_drive_by_path-digit primary d text rest lo hi h = rw (
  strnlen_lem 108 (d ∷ 58 ∷ 47 ∷ text) rest (nonzero, (refl, (refl, h))),
  long,
  above,
  below,
  other,
  tonumericdigit-digit d lo hi,
)
  where
    nonzero : (d == 0) ≡ false
    nonzero = ground arith

    long : leb 3 (min 108 (suc (suc (suc (length text))))) ≡ true
    long = ground arith

    above : leb 48 d ≡ true
    above = ground arith

    below : leb d 57 ≡ true
    below = ground arith

    other : (d == 64) ≡ false
    other = ground arith

-- pathparser_parse of a path of at most 108 characters, a drive's digit and at least one name, with three
-- allocations or more left, returns the drive and the names, in their order; where memory runs out, it
-- returns the names it had memory for, two allocations each, as if they were the whole path.
pub parse-printed :
    (primary : Option ℕ) (left d : ℕ) (s : List ℕ) (names : List (List ℕ)) (rest : List ℕ)
    → 48 ≤ d
    → d ≤ 57
    → Names (s ∷ names)
    → length (printed d s names) ≤ 108
    → 3 ≤ left
    → (left' : ℕ) × (parse primary left (printed d s names ++ (0 ∷ rest))
        ≡ ok (
          some (record {
            drive_no = pos (d - 48);
            first = pad_all (s ∷ take ((left - 3) / 2) names);
          }),
          left',
        ))
unfolding parse
parse-printed primary zero d s names rest lo hi h short enough = absurd (omega arith)
parse-printed primary (suc zero) d s names rest lo hi h short enough = absurd (omega arith)
parse-printed primary (suc (suc zero)) d s names rest lo hi h short enough = absurd (omega arith)
parse-printed primary (suc (suc (suc left))) d s names rest lo hi h short enough =
    let (left', e) =
      parse_loop-joined (length (joined names rest) + 1) left names rest h.3 rounds in
    (
      left',
      rw (
        counted,
        not_long,
        get_drive_by_path-digit primary d (s ++ further names) rest lo hi text,
        first,
        e,
        three,
      ),
    )
  where
    text : NoNul (s ++ further names)
    text = NoNul-append s (further names) h.0 (NoNul-further names h.3)

    nonzero : (d == 0) ≡ false
    nonzero = ground arith

    counted :
        strlen (d ∷ 58 ∷ 47 ∷ ((s ++ further names) ++ (0 ∷ rest)))
        ≡ ok (length (printed d s names))
    counted = strlen_lem (printed d s names) rest (nonzero, (refl, (refl, text)))

    not_long : ltb 108 (length (printed d s names)) ≡ false
    not_long = ground arith

    first :
        parse_path_part (suc (suc left)) ((s ++ further names) ++ (0 ∷ rest))
        ≡ ok (some (padded s), joined names rest, left)
    first =
        ap (parse_path_part (suc (suc left))) (
          append_assoc s (further names) (0 ∷ rest)
          ∙ ap (λ t. s ++ t) (sym (further-behind names rest)))
        ∙ parse_path_part-joined left s names rest h

    three : suc (suc (suc left)) - 3 ≡ left
    three = omega arith

    rounds : length names < length (joined names rest) + 1
    rounds = omega (arith, length-joined names rest h.3)
