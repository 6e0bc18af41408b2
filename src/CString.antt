-- ===== src/CString.antt =====
-- ViOS64Bit/src/string/string.c. A pointer into a buffer is the list of the bytes from there to the
-- end of the buffer: an access behind its end faults.
pub mod Copy
pub mod Compare
pub mod Length
pub mod Decimal
mod Tests
use vi_os.Prelude.{
  ℕ, zero, suc, ◌+◌, ◌-◌, ◌*◌, ◌/◌, ◌%◌, Bool, true, false, ◌&&◌, ◌||◌, not, List, [], ◌∷◌, Option,
  none, some, ltb, leb, ◌==◌, if◌then◌else◌, Run, ok, fault, ◌>>=◌, ℤ, pos, negsuc, neg,
}

-- a - b as an `int`, for small a and b.
abbrev pub difference : ℕ → ℕ → ℤ
difference a b = if leb b a then pos (a - b) else neg (b - a)

-- The value of a `char`, which is signed.
abbrev pub char_value : ℕ → ℤ
char_value c = if ltb c 128 then pos c else neg (256 - c)

unfoldable pub tolower : ℕ → ℕ
tolower s1 = if leb 65 s1 && leb s1 90 then s1 + 32 else s1

unfoldable pub toupper : ℕ → ℕ
toupper s1 = if leb 97 s1 && leb s1 122 then s1 - 32 else s1

-- The rest of the string from the first `c` on; `none` is NULL. `c` is taken as a `char`.
unfoldable pub strchr : List ℕ → ℕ → Run (Option (List ℕ))
strchr [] c = fault
strchr (x ∷ str) c =
    let rest = strchr str c in
    if x == 0
    then ok (if c == 0 then some (x ∷ str) else none)
    else (if x == c % 256 then ok (some (x ∷ str)) else rest)

unfoldable pub strlen_loop : List ℕ → ℕ → Run ℕ
strlen_loop [] i = fault
strlen_loop (c ∷ ptr) i = let rest = strlen_loop ptr (i + 1) in if c == 0 then ok i else rest

unfoldable pub strlen : List ℕ → Run ℕ
unfolding strlen_loop
strlen ptr = strlen_loop ptr 0

unfoldable pub strnlen_loop : ℕ → List ℕ → ℕ → Run ℕ
strnlen_loop zero ptr i = ok i
strnlen_loop (suc rounds) [] i = fault
strnlen_loop (suc rounds) (c ∷ ptr) i =
    let rest = strnlen_loop rounds ptr (i + 1) in if c == 0 then ok i else rest

unfoldable pub strnlen : List ℕ → ℕ → Run ℕ
unfolding strnlen_loop
strnlen ptr max = strnlen_loop max ptr 0

unfoldable pub strnlen_terminator_loop : ℕ → List ℕ → ℕ → ℕ → Run ℕ
strnlen_terminator_loop zero str terminator i = ok i
strnlen_terminator_loop (suc rounds) [] terminator i = fault
strnlen_terminator_loop (suc rounds) (c ∷ str) terminator i =
    let rest = strnlen_terminator_loop rounds str terminator (i + 1) in
    if c == 0 || c == terminator then ok i else rest

unfoldable pub strnlen_terminator : List ℕ → ℕ → ℕ → Run ℕ
unfolding strnlen_terminator_loop
strnlen_terminator str max terminator = strnlen_terminator_loop max str terminator 0

unfoldable pub istrncmp : ℕ → List ℕ → List ℕ → Run ℤ
unfolding tolower
istrncmp zero s1 s2 = ok (pos 0)
istrncmp (suc n) [] s2 = fault
istrncmp (suc n) (u1 ∷ s1) [] = fault
istrncmp (suc n) (u1 ∷ s1) (u2 ∷ s2) =
    let rest = istrncmp n s1 s2 in
    if not (u1 == u2) && not (tolower u1 == tolower u2)
    then ok (difference u1 u2)
    else (if u1 == 0 then ok (pos 0) else rest)

unfoldable pub strncmp : ℕ → List ℕ → List ℕ → Run ℤ
strncmp zero str1 str2 = ok (pos 0)
strncmp (suc n) [] str2 = fault
strncmp (suc n) (u1 ∷ str1) [] = fault
strncmp (suc n) (u1 ∷ str1) (u2 ∷ str2) =
    let rest = strncmp n str1 str2 in
    if not (u1 == u2) then ok (difference u1 u2) else (if u1 == 0 then ok (pos 0) else rest)

-- `*p = c`, and `*p = c` followed by what is done behind it.
abbrev pub put_char : ℕ → List ℕ → Run (List ℕ)
put_char c [] = fault
put_char c (_ ∷ dest) = ok (c ∷ dest)

-- The destination after the copy.
unfoldable pub strcpy : List ℕ → List ℕ → Run (List ℕ)
strcpy dest [] = fault
strcpy [] (c ∷ src) = fault
strcpy (d ∷ dest) (c ∷ src) =
    let rest = strcpy dest src in
    if c == 0 then ok (0 ∷ dest) else (rest >>= λ copied. ok (c ∷ copied))

-- The destination after the copy. The terminator stands behind `count` characters where the source is
-- longer.
unfoldable pub strncpy : List ℕ → List ℕ → ℕ → Run (List ℕ)
strncpy dest src zero = put_char 0 dest
strncpy dest [] (suc count) = fault
strncpy [] (c ∷ src) (suc count) = fault
strncpy (d ∷ dest) (c ∷ src) (suc count) =
    let rest = strncpy dest src count in
    if c == 0 then ok (0 ∷ dest) else (rest >>= λ copied. ok (c ∷ copied))

unfoldable pub isdigit : ℕ → Bool
isdigit c = leb 48 c && leb c 57

unfoldable pub tonumericdigit : ℕ → ℤ
tonumericdigit c = elim (char_value c) [ pos n ↦ difference n 48 | negsuc n ↦ neg (suc n + 48) ]

-- The digits of `n`, put in front of `text`; `loc` places are left in the buffer.
unfoldable pub itoa_loop : ℕ → ℕ → List ℕ → Run (ℕ × List ℕ)
itoa_loop zero n text = if n == 0 then ok (zero, text) else fault
itoa_loop (suc loc) n text =
    let rest = itoa_loop loc (n / 10) ((48 + n % 10) ∷ text) in
    if n == 0 then ok (suc loc, text) else rest

-- The text behind the returned pointer, its terminator included. The code counts with the negated
-- magnitude, which every `int` has.
unfoldable pub itoa : ℤ → Run (List ℕ)
unfolding itoa_loop
itoa i = do
  (loc, text) ← itoa_loop 11 (magnitude i) (0 ∷ [])
  (loc, text) ← (if loc == 11 then place loc 48 text else ok (loc, text))
  (loc, text) ← (if is_minus i then place loc 45 text else ok (loc, text))
  ok text
  where
    magnitude : ℤ → ℕ
    magnitude (pos n) = n
    magnitude (negsuc n) = suc n

    is_minus : ℤ → Bool
    is_minus (pos n) = false
    is_minus (negsuc n) = true

    place : ℕ → ℕ → List ℕ → Run (ℕ × List ℕ)
    place zero c text = fault
    place (suc loc) c text = ok (loc, c ∷ text)
