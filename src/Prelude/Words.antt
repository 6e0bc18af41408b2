-- ===== src/Prelude/Words.antt =====
-- Machine words of 64 and 32 bits as native numbers, and signed results.
use Prim.Native.Nat.{ℕ, zero, suc, ◌+◌, ◌-◌, ◌*◌, ◌/◌, ◌%◌, ◌^◌}
use Prim.Native.Nat.{◌<◌, ◌≤◌}
use mathlib.Core.Path.{◌≡◌, refl, ap}
use mathlib.Core.Bool.{Bool, true, false}
use native.Mathlib.Omega.{arith}
use vi_os.Prelude.Tests.{ltb, if◌then◌else◌}

-- `negsuc n` is -(n + 1).
pub data ℤ : Type 0 where
  pos : ℕ → ℤ
  negsuc : ℕ → ℤ

-- `-e` of an unsigned constant.
abbrev pub neg : ℕ → ℤ
neg zero = pos 0
neg (suc n) = negsuc n

-- `r < 0`
abbrev pub is_negative : ℤ → Bool
is_negative (pos n) = false
is_negative (negsuc n) = true

-- `size_t` and `uintptr_t` arithmetic wraps.
abbrev pub add64 : ℕ → ℕ → ℕ
add64 a b = (a + b) % 2 ^ 64

abbrev pub sub64 : ℕ → ℕ → ℕ
sub64 a b = (a + 2 ^ 64 - b) % 2 ^ 64

abbrev pub mul64 : ℕ → ℕ → ℕ
mul64 a b = a * b % 2 ^ 64

-- The `int64_t` with the bit pattern `w`.
abbrev pub to_int64 : ℕ → ℤ
to_int64 w = if ltb w (2 ^ 63) then pos w else neg (2 ^ 64 - w)

-- The `int` that a `size_t`, or another wider number, is converted to.
unfoldable pub to_int32 : ℕ → ℤ
to_int32 w = if ltb (w % 2 ^ 32) (2 ^ 31) then pos (w % 2 ^ 32) else neg (2 ^ 32 - w % 2 ^ 32)

pub to_int32-small : (w : ℕ) → w < 2 ^ 31 → to_int32 w ≡ pos w
unfolding to_int32
to_int32-small w small =
    let same : w % 2 ^ 32 ≡ w = omega arith in
    let inside : ltb w (2 ^ 31) ≡ true = ground arith in rw (same, inside) refl

-- A number with bit 31 becomes negative.
pub to_int32-large : (w : ℕ) → 2 ^ 31 ≤ w % 2 ^ 32 → (n : ℕ) × (to_int32 w ≡ negsuc n)
unfolding to_int32
to_int32-large w large =
    let outside : ltb (w % 2 ^ 32) (2 ^ 31) ≡ false = ground arith in
    let positive : 2 ^ 32 - w % 2 ^ 32 ≡ suc (2 ^ 32 - w % 2 ^ 32 - 1) = omega arith in
    (2 ^ 32 - w % 2 ^ 32 - 1, rw outside (ap neg positive))

-- The `size_t` that an `int` is converted to.
abbrev pub to_size : ℤ → ℕ
to_size (pos n) = n
to_size (negsuc n) = 2 ^ 64 - suc n

-- `x / d` on `int64_t` rounds towards zero.
abbrev pub quot : ℤ → ℕ → ℤ
quot (pos n) d = pos (n / d)
quot (negsuc n) d = neg (suc n / d)
