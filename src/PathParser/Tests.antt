-- ===== src/PathParser/Tests.antt =====
-- Paths that are parsed, and the theorem about them at a concrete path.
use vi_os.Prelude.{ℕ, ◌-◌, ◌/◌, ◌≡◌, refl, List, [], ◌∷◌, ◌++◌, none, some, arith, take, ok, pos}
use vi_os.PathParser.{parse, get_drive_by_path}
use vi_os.PathParser.Parts.{pad_all, Names}
use vi_os.PathParser.Parse.{printed, parse-printed}

-- "bin" and "sh"
abbrev bin : List ℕ
bin = 98 ∷ 105 ∷ 110 ∷ []

abbrev sh : List ℕ
sh = 115 ∷ 104 ∷ []

bin-Names : Names (bin ∷ sh ∷ [])
bin-Names = (
  (refl, refl, (refl, refl, (refl, refl, tt))),
  omega arith,
  omega arith,
  ((refl, refl, (refl, refl, tt)), omega arith, omega arith, tt),
)

-- "@:/bin" on a system whose primary file system is on disk 3.
resolves :
    get_drive_by_path (some 3) (64 ∷ 58 ∷ 47 ∷ (bin ++ (0 ∷ []))) ≡ ok (pos 3, bin ++ (0 ∷ []))
unfolding get_drive_by_path
resolves = refl

-- With four allocations the path loses its second name.
parse-printed_example :
    (left' : ℕ) × (parse none 4 (printed 48 bin (sh ∷ []) ++ (0 ∷ []))
      ≡ ok (
        some (record {
          drive_no = pos (48 - 48);
          first = pad_all (bin ∷ take ((4 - 3) / 2) (sh ∷ []));
        }),
        left',
      ))
parse-printed_example =
    parse-printed none 4 48 bin (sh ∷ []) [] (omega arith) (omega arith) bin-Names (omega arith)
      (omega arith)
