-- ===== src/CString/Tests.antt =====
-- Runs of the string functions, and the theorems about them at concrete buffers.
use vi_os.Prelude.{ℕ, ◌≡◌, ◌≤◌, refl, List, [], ◌∷◌, ◌++◌, arith, length, some, ok, pos, negsuc}
use vi_os.CString.{strlen, strchr, istrncmp, itoa}
use vi_os.CString.Length.{NoNul}
use vi_os.CString.Decimal.{read, itoa-read}

-- "0:/a"
abbrev text : List ℕ
text = 48 ∷ 58 ∷ 47 ∷ 97 ∷ []

text-NoNul : NoNul text
text-NoNul = (refl, (refl, (refl, (refl, tt))))

counts : strlen (text ++ (0 ∷ 9 ∷ [])) ≡ ok 4
unfolding strlen
counts = refl

finds : strchr (text ++ (0 ∷ [])) 47 ≡ ok (some (47 ∷ 97 ∷ 0 ∷ []))
unfolding strchr
finds = refl

ignores_case : istrncmp 2 (65 ∷ 98 ∷ []) (97 ∷ 66 ∷ []) ≡ ok (pos 0)
unfolding istrncmp
ignores_case = refl

prints : itoa (negsuc 41) ≡ ok (45 ∷ 52 ∷ 50 ∷ 0 ∷ [])
unfolding itoa
prints = refl

itoa-read_example :
    (s : List ℕ) × (itoa (negsuc 2147483647) ≡ ok (s ++ (0 ∷ [])))
    × (read s ≡ some (negsuc 2147483647))
    × (length s ≤ 11)
itoa-read_example = itoa-read (negsuc 2147483647) (omega arith)
