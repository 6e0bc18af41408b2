-- ===== src/PathParser/Parts.antt =====
-- The parts of a path: how pathparser_parse_path_part and the loop around it read names with slashes
-- between them.
use vi_os.Prelude.{
  ℕ, zero, suc, ◌+◌, ◌-◌, ◌/◌, ◌≤◌, ◌<◌, ◌≡◌, refl, ap, ◌∙◌, true, false, ◌||◌, List, [], ◌∷◌, ◌++◌,
  none, some, arith, length, take, replicate, Run, ok, ◌==◌,
}
use vi_os.CString.Length.{Lacks}
use vi_os.PathParser.{part_loop, get_path_part, parse_path_part, parse_loop, skip_slash}

-- A name as a part keeps it: padded with zeros.
abbrev pub padded : List ℕ → List ℕ
padded s = s ++ replicate (108 - length s) 0

abbrev pub pad_all : List (List ℕ) → List (List ℕ)
pad_all [] = []
pad_all (s ∷ names) = padded s ∷ pad_all names

-- What stands behind a name: the further names, each with a slash before it, and NUL.
abbrev pub behind : List (List ℕ) → List ℕ → List ℕ
behind [] rest = 0 ∷ rest
behind (s ∷ names) rest = 47 ∷ (s ++ behind names rest)

-- Names with slashes between them, and NUL.
abbrev pub joined : List (List ℕ) → List ℕ → List ℕ
joined [] rest = 0 ∷ rest
joined (s ∷ names) rest = s ++ behind names rest

-- Each name has 1 to 108 characters, neither slash nor NUL.
abbrev pub Names : List (List ℕ) → Type 0
Names [] = Unit
Names (s ∷ names) = Lacks 47 s × (0 < length s) × (length s ≤ 108) × Names names

pub part_loop-copied :
    (s rest : List ℕ) (c m : ℕ)
    → Lacks 47 s
    → (c == 47 || c == 0) ≡ true
    → part_loop (s ++ (c ∷ rest)) (replicate (length s + m) 0)
      ≡ ok (s ++ replicate m 0, length s, c ∷ rest)
unfolding part_loop
part_loop-copied [] rest c zero h stop = rw stop
part_loop-copied [] rest c (suc m) h stop =
    let size : 0 + suc m ≡ suc m = omega arith in rw (size, stop)
part_loop-copied (x ∷ s) rest c m h stop =
    let size : suc (length s) + m ≡ suc (length s + m) = omega arith in
    rw (size, h.0, h.1, part_loop-copied s rest c m h.2 stop)

-- One part, where two allocations are left.
pub parse_path_part-name :
    (left : ℕ) (s rest : List ℕ) (c : ℕ)
    → Lacks 47 s
    → 0 < length s
    → length s ≤ 108
    → (c == 47 || c == 0) ≡ true
    → parse_path_part (suc (suc left)) (s ++ (c ∷ rest))
      ≡ ok (some (padded s), skip_slash (c ∷ rest), left)
unfolding parse_path_part get_path_part
parse_path_part-name left s rest c h positive le stop = rw (copied, some_characters)
  where
    size : 108 ≡ length s + (108 - length s)
    size = omega arith

    some_characters : (length s == 0) ≡ false
    some_characters = ground arith

    copied :
        part_loop (s ++ (c ∷ rest)) (replicate 108 0)
        ≡ ok (s ++ replicate (108 - length s) 0, length s, c ∷ rest)
    copied =
        ap (λ n. part_loop (s ++ (c ∷ rest)) (replicate n 0)) size
        ∙ part_loop-copied s rest c (108 - length s) h stop

-- One name of a path, where two allocations are left.
pub parse_path_part-joined :
    (left : ℕ) (s : List ℕ) (names : List (List ℕ)) (rest : List ℕ)
    → Names (s ∷ names)
    → parse_path_part (suc (suc left)) (joined (s ∷ names) rest)
      ≡ ok (some (padded s), joined names rest, left)
parse_path_part-joined left s [] rest (h, positive, le, more) =
    parse_path_part-name left s rest 0 h positive le refl
parse_path_part-joined left s (t ∷ names) rest (h, positive, le, more) =
    parse_path_part-name left s (joined (t ∷ names) rest) 47 h positive le refl

-- Where the names or the allocations have come to an end there is no part.
NoPart : ℕ → List ℕ → Type 0
NoPart left path =
    (path' : List ℕ) × (left' : ℕ) × (parse_path_part left path ≡ ok (none, path', left'))

parse_path_part-nul : (left : ℕ) (rest : List ℕ) → NoPart left (0 ∷ rest)
unfolding NoPart parse_path_part get_path_part part_loop
parse_path_part-nul zero rest = (0 ∷ rest, 0, refl)
parse_path_part-nul (suc left) rest = (0 ∷ rest, left, refl)

parse_path_part-out :
    (left : ℕ) (s : List ℕ) (names : List (List ℕ)) (rest : List ℕ)
    → Names (s ∷ names)
    → left < 2
    → NoPart left (joined (s ∷ names) rest)
unfolding NoPart parse_path_part get_path_part
parse_path_part-out zero s names rest h lt = (joined (s ∷ names) rest, 0, refl)
parse_path_part-out (suc zero) s names rest (h, positive, le, more) lt =
    let (c, text, e, stop) = head names in
    (
      skip_slash (c ∷ text),
      0,
      rw e (
          rw (
            ap (λ n. part_loop (s ++ (c ∷ text)) (replicate n 0)) size
                ∙ part_loop-copied s text c (108 - length s) h stop,
            some_characters,
          )),
    )
  where
    size : 108 ≡ length s + (108 - length s)
    size = omega arith

    some_characters : (length s == 0) ≡ false
    some_characters = ground arith

    head :
        (names : List (List ℕ))
        → (c : ℕ) × (text : List ℕ) × (behind names rest ≡ c ∷ text) × ((c == 47 || c == 0) ≡ true)
    head [] = (0, rest, refl, refl)
    head (t ∷ names) = (47, t ++ behind names rest, refl, refl)
parse_path_part-out (suc (suc left)) s names rest h lt = absurd (omega arith)

-- The loop finds the names, as far as two allocations are left for each.
pub parse_loop-joined :
    (rounds left : ℕ) (names : List (List ℕ)) (rest : List ℕ)
    → Names names
    → length names < rounds
    → (left' : ℕ) × (parse_loop rounds left (joined names rest)
        ≡ ok (pad_all (take (left / 2) names), left'))
unfolding parse_loop NoPart
parse_loop-joined zero left names rest h lt = absurd (omega arith)
parse_loop-joined (suc rounds) left [] rest h lt =
    let (path', left', e) = parse_path_part-nul left rest in
    (left', rw e (none_taken left' (left / 2)))
  where
    none_taken :
        (left' n : ℕ)
        → ◌≡◌ {A = Run (List (List ℕ) × ℕ)} (ok ([], left')) (ok (pad_all (take n []), left'))
    none_taken left' zero = refl
    none_taken left' (suc n) = refl
parse_loop-joined (suc rounds) zero (s ∷ names) rest h lt = (0, refl)
parse_loop-joined (suc rounds) (suc zero) (s ∷ names) rest h lt =
    let (path', left', e) = parse_path_part-out 1 s names rest h (omega arith) in (left', rw e)
parse_loop-joined (suc rounds) (suc (suc left)) (s ∷ names) rest h lt =
    let (left', e) = parse_loop-joined rounds left names rest h.3 (omega arith) in
    let half : suc (suc left) / 2 ≡ suc (left / 2) = omega arith in
    (left', rw (parse_path_part-joined left s names rest h, e, half))
