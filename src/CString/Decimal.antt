-- ===== src/CString/Decimal.antt =====
-- itoa of ViOS64Bit/src/string/string.c prints what a reader of decimal numbers reads back.
use vi_os.Prelude.{
  ℕ, zero, suc, ◌+◌, ◌-◌, ◌*◌, ◌/◌, ◌%◌, ◌^◌, ◌≤◌, ◌<◌, ◌≡◌, refl, ap, sym, ◌∙◌, inl, inr,
  Bool-cases, Bool, true, false, Option, none, some, leb, ◌&&◌, List, [], ◌∷◌, ◌++◌, append_assoc,
  arith, length, length-append, Run, ok, ◌==◌, if◌then◌else◌, ℤ, pos, negsuc, neg,
}
use mathlib.Core.Option
use vi_os.CString.{itoa_loop, itoa}

-- The number that a row of digits stands for, behind the digits of `acc`.
abbrev pub value : ℕ → List ℕ → ℕ
value acc [] = acc
value acc (c ∷ cs) = value (10 * acc + (c - 48)) cs

abbrev pub all_digits : List ℕ → Bool
all_digits [] = true
all_digits (c ∷ cs) = (leb 48 c && leb c 57) && all_digits cs

-- One digit or more, and nothing else.
abbrev pub numeral : List ℕ → Option ℕ
numeral [] = none
numeral (c ∷ cs) = if all_digits (c ∷ cs) then some (value 0 (c ∷ cs)) else none

-- An optional minus and a numeral.
unfoldable pub read : List ℕ → Option ℤ
read [] = none
read (c ∷ cs) = if c == 45 then Option.map neg (numeral cs) else Option.map pos (numeral (c ∷ cs))

-- 10 to the power of `loc`.
abbrev bound : ℕ → ℕ
bound zero = 1
bound (suc loc) = 10 * bound loc

value-append : (xs : List ℕ) (acc c : ℕ) → value acc (xs ++ (c ∷ [])) ≡ 10 * value acc xs + (c - 48)
value-append [] acc c = refl
value-append (x ∷ xs) acc c = value-append xs (10 * acc + (x - 48)) c

-- Each of the characters is a digit.
abbrev Digits : List ℕ → Type 0
Digits [] = Unit
Digits (c ∷ cs) = (48 ≤ c) × (c ≤ 57) × Digits cs

Digits-append : (xs : List ℕ) (c : ℕ) → Digits xs → 48 ≤ c → c ≤ 57 → Digits (xs ++ (c ∷ []))
Digits-append [] c h lo hi = (lo, hi, tt)
Digits-append (x ∷ xs) c h lo hi = (h.0, h.1, Digits-append xs c h.2 lo hi)

-- What the loop has put in front of `text` when it ends.
Printed : ℕ → ℕ → List ℕ → Run (ℕ × List ℕ) → Type 0
Printed loc n text out =
    (left : ℕ) × (ds : List ℕ) × (out ≡ ok (left, ds ++ text))
    × (left + length ds ≡ loc)
    × (value 0 ds ≡ n)
    × Digits ds

itoa_loop-Printed :
    (loc n : ℕ) (text : List ℕ) → n < bound loc → Printed loc n text (itoa_loop loc n text)
unfolding itoa_loop Printed
itoa_loop-Printed zero n text lt =
    let done : (n == 0) ≡ true = ground arith in (0, [], rw done, omega arith, omega arith, tt)
itoa_loop-Printed (suc loc) n text lt = elim (Bool-cases (n == 0)) [
  | inl done ↦ (suc loc, [], rw done, omega arith, ground arith, tt)
  | inr more ↦
      let (left, ds, e, size, v, digits) =
        itoa_loop-Printed loc (n / 10) ((48 + n % 10) ∷ text) (omega arith) in
      (
        left,
        ds ++ ((48 + n % 10) ∷ []),
        rw more (e ∙ ap (λ t. ok (left, t)) (sym (append_assoc ds ((48 + n % 10) ∷ []) text))),
        omega (arith, length-append ds ((48 + n % 10) ∷ [])),
        omega (arith, value-append ds 0 (48 + n % 10)),
        Digits-append ds (48 + n % 10) digits (omega arith) (omega arith),
      )
]

all_digits-Digits : (ds : List ℕ) → Digits ds → all_digits ds ≡ true
all_digits-Digits [] h = refl
all_digits-Digits (c ∷ ds) h = ground (arith, all_digits-Digits ds h.2)

numeral-Digits : (ds : List ℕ) → 0 < value 0 ds → Digits ds → numeral ds ≡ some (value 0 ds)
numeral-Digits [] positive h = absurd (omega arith)
numeral-Digits (c ∷ ds) positive h = rw (all_digits-Digits (c ∷ ds) h) refl

read-Digits : (ds : List ℕ) → 0 < value 0 ds → Digits ds → read ds ≡ some (pos (value 0 ds))
unfolding read
read-Digits [] positive h = absurd (omega arith)
read-Digits (c ∷ ds) positive h =
    let digit : (c == 45) ≡ false = ground arith in
    rw (digit, numeral-Digits (c ∷ ds) positive h) refl

-- One more place in the buffer is one more place left.
itoa_loop-suc :
    (loc n : ℕ) (text : List ℕ) (left : ℕ) (t : List ℕ)
    → itoa_loop loc n text ≡ ok (left, t)
    → itoa_loop (suc loc) n text ≡ ok (suc left, t)
unfolding itoa_loop
itoa_loop-suc zero n text left t e = ground arith
itoa_loop-suc (suc loc) n text left t e = elim (Bool-cases (n == 0)) [
  | inl done ↦ ground arith
  | inr more ↦ rw more (itoa_loop-suc loc (n / 10) ((48 + n % 10) ∷ text) left t (rw more at e))
]

-- The loop of itoa from a magnitude that is not 0.
Run10 : ℕ → Type 0
Run10 n =
    (left : ℕ) × (ds : List ℕ) × (itoa_loop 11 n (0 ∷ []) ≡ ok (suc left, ds ++ (0 ∷ [])))
    × ((suc left == 11) ≡ false)
    × (length ds ≤ 10)
    × (value 0 ds ≡ n)
    × Digits ds

magnitude-Run10 : (n : ℕ) → 0 < n → n ≤ 2 ^ 31 → Run10 n
unfolding Run10 Printed
magnitude-Run10 n positive le =
    let (left, ds, e, size, v, digits) = itoa_loop-Printed 10 n (0 ∷ []) (omega arith) in
    (
      left,
      ds,
      itoa_loop-suc 10 n (0 ∷ []) left (ds ++ (0 ∷ [])) e,
      more left ds size v,
      omega arith,
      v,
      digits,
    )
  where
    more :
        (left : ℕ) (ds : List ℕ) → left + length ds ≡ 10 → value 0 ds ≡ n → (suc left == 11) ≡ false
    more left [] size v = absurd (omega arith)
    more left (c ∷ ds) size v = ground arith

-- The numbers of an `int`.
abbrev pub IsInt : ℤ → Type 0
IsInt (pos n) = n < 2 ^ 31
IsInt (negsuc n) = n < 2 ^ 31

-- itoa of an `int` returns, inside its buffer, a text of at most 11 characters and NUL. The text is the number: a
-- digit or more, behind a minus if it is negative, and nothing else.
pub itoa-read :
    (i : ℤ)
    → IsInt i
    → (text : List ℕ) × (itoa i ≡ ok (text ++ (0 ∷ []))) × (read text ≡ some i) × (length text ≤ 11)
unfolding itoa Run10 read
itoa-read (pos zero) range = (48 ∷ [], refl, refl, omega arith)
itoa-read (pos (suc n)) range =
    let (left, ds, e, more, size, v, digits) =
      magnitude-Run10 (suc n) (omega arith) (omega arith) in
    (
      ds,
      rw (e, more),
      read-Digits ds (omega (arith, v)) digits ∙ ap (λ n. some (pos n)) v,
      omega arith,
    )
itoa-read (negsuc n) range =
    let (left, ds, e, more, size, v, digits) =
      magnitude-Run10 (suc n) (omega arith) (omega arith) in
    (
      45 ∷ ds,
      rw (e, more),
      rw (numeral-Digits ds (omega (arith, v)) digits) (ap (λ n. some (neg n)) v),
      omega arith,
    )
