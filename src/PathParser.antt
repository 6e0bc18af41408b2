-- ===== src/PathParser.antt =====
-- The parser of paths such as "0:/bin/shell" of ViOS64Bit/src/fs/pparser.c. A pointer into a string is
-- the rest of its buffer. kzalloc succeeds `left` times more; kfree gives nothing back, as in kheap.c.
pub mod Parts
pub mod Parse
mod Tests
use vi_os.Prelude.{
  ℕ, zero, suc, ◌+◌, ◌-◌, Bool, true, false, ◌&&◌, ◌||◌, not, List, [], ◌∷◌, Option, none, some,
  ltb, leb, ◌==◌, if◌then◌else◌, length, drop, replicate, Run, ok, fault, ◌>>=◌, load, ℤ, pos,
  negsuc, neg, is_negative,
}
use vi_os.Config.{e_badpath, e_io, max_path}
use vi_os.CString.{strlen, strnlen, isdigit, tonumericdigit}

-- `struct path_root`, with the linked list of its parts; a part is a buffer of VIOS_MAX_PATH bytes.
pub record PathRoot : Type 0 where
  pub drive_no : ℤ
  pub first : List (List ℕ)

-- memcmp reads both characters behind the drive.
unfoldable pub path_valid_format : List ℕ → Run Bool
unfolding strnlen isdigit
path_valid_format filename = do
  len ← strnlen filename max_path
  let rest = do
    c ← load filename 0
    let separator = do
      colon ← load filename 1
      slash ← load filename 2
      ok (colon == 58 && slash == 47)
    if isdigit c || c == 64 then separator else ok false
  if leb 3 len then rest else ok false

-- The drive or a negative status, and the path behind it. `primary` is the id of the primary file
-- system's disk, if any.
unfoldable pub get_drive_by_path : Option ℕ → List ℕ → Run (ℤ × List ℕ)
unfolding path_valid_format tonumericdigit
get_drive_by_path primary path = do
  valid ← path_valid_format path
  let found = do
    drive_character ← load path 0
    if drive_character == 64
        then elim primary [ none ↦ ok (neg e_io, path) | some id ↦ ok (pos id, drop 3 path) ]
        else ok (tonumericdigit drive_character, drop 3 path)
  if valid then found else ok (neg e_badpath, path)

-- What stands in the buffer after the loop, the number of characters copied, and the path behind them.
unfoldable pub part_loop : List ℕ → List ℕ → Run (List ℕ × ℕ × List ℕ)
part_loop [] dest = fault
part_loop (c ∷ path) [] = if c == 47 || c == 0 then ok ([], 0, c ∷ path) else fault
part_loop (c ∷ path) (d ∷ dest) =
    let rest = part_loop path dest in
    if c == 47 || c == 0
    then ok (d ∷ dest, 0, c ∷ path)
    else (rest >>= λ (out, i, path'). ok (c ∷ out, suc i, path'))

-- Skip the slash.
abbrev pub skip_slash : List ℕ → List ℕ
skip_slash [] = []
skip_slash (c ∷ path) = if c == 47 then path else c ∷ path

-- The part, the path behind it and the allocations left.
unfoldable pub get_path_part : ℕ → List ℕ → Run (Option (List ℕ) × List ℕ × ℕ)
unfolding part_loop
get_path_part zero path = ok (none, path, 0)
get_path_part (suc left) path = do
  (result_path_part, i, path') ← part_loop path (replicate max_path 0)
  ok (if i == 0 then none else some result_path_part, skip_slash path', left)

unfoldable pub parse_path_part : ℕ → List ℕ → Run (Option (List ℕ) × List ℕ × ℕ)
unfolding get_path_part
parse_path_part left path = do
  (part, path', left') ← get_path_part left path
  ok (allocated part path' left')
  where
    allocated : Option (List ℕ) → List ℕ → ℕ → Option (List ℕ) × List ℕ × ℕ
    allocated none path' left' = (none, path', left')
    allocated (some part) path' zero = (none, path', 0)
    allocated (some part) path' (suc left') = (some part, path', left')

-- The loop over the further parts, at most `rounds` of them.
unfoldable pub parse_loop : ℕ → ℕ → List ℕ → Run (List (List ℕ) × ℕ)
unfolding parse_path_part
parse_loop zero left path = fault
parse_loop (suc rounds) left path = do
  (part, path', left') ← parse_path_part left path
  let rest = parse_loop rounds left' path'
  elim part [
    | none ↦ ok ([], left')
    | some name ↦ rest >>= λ (parts, left''). ok (name ∷ parts, left'')
  ]

-- `none` is NULL. Each part that is found takes at least a character off the path.
unfoldable pub parse : Option ℕ → ℕ → List ℕ → Run (Option PathRoot × ℕ)
unfolding strlen get_drive_by_path parse_path_part parse_loop
parse primary left path = do
  len ← strlen path
  let opened = do
    (res, tmp_path) ← get_drive_by_path primary path
    if is_negative res then ok (none, left) else root res left tmp_path
  if ltb max_path len then ok (none, left) else opened
  where
    linked : ℤ → Option (List ℕ) → List ℕ → ℕ → Run (Option PathRoot × ℕ)
    linked drive none tmp_path left = ok (none, left)
    linked drive (some first_part) tmp_path left = do
      (parts, left') ← parse_loop (length tmp_path + 1) left tmp_path
      ok (some (record { drive_no = drive; first = first_part ∷ parts }), left')

    root : ℤ → ℕ → List ℕ → Run (Option PathRoot × ℕ)
    root drive zero tmp_path = ok (none, 0)
    root drive (suc left) tmp_path = do
      (first_part, tmp_path', left') ← parse_path_part left tmp_path
      linked drive first_part tmp_path' left'
