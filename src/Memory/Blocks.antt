-- ===== src/Memory/Blocks.antt =====
-- What memset, memcpy and memcmp of ViOS64Bit/src/memory/memory.c do to every address.
use vi_os.Prelude.{
  ℕ, zero, suc, ◌+◌, ◌-◌, ◌%◌, ◌^◌, ◌≤◌, ◌<◌, ◌≡◌, refl, ◌⊎◌, inl, inr, ap, ◌∙◌, ◌&&◌, ltb, leb,
  lt→ltb, if◌then◌else◌, arith, ok, pos, ◌↔◌, Bool,
}
use native.Mathlib.Nat.{add-zero}
use vi_os.Memory.{Bytes, put, memset_loop, memset, memcpy_loop, memcpy, memcmp}

-- `p ≤ a < p + n`
abbrev pub within : ℕ → ℕ → ℕ → Bool
within p n a = leb p a && ltb a (p + n)

pub memset_loop_lem :
    (n : ℕ) (m : Bytes) (p c a : ℕ)
    → memset_loop n m p c a ≡ (if within p n a then c % 256 else m a)
unfolding memset_loop
memset_loop_lem zero m p c a = ground arith
memset_loop_lem (suc n) m p c a = ground (arith, memset_loop_lem n (put m p (c % 256)) (p + 1) c a)

pub memcpy_loop_lem :
    (n : ℕ) (m : Bytes) (d s a : ℕ)
    → (d ≤ s) ⊎ (s + n ≤ d)
    → memcpy_loop n m d s a ≡ (if within d n a then m (s + (a - d)) else m a)
unfolding memcpy_loop
memcpy_loop_lem zero m d s a h = ground arith
memcpy_loop_lem (suc n) m d s a h =
    ground (arith, memcpy_loop_lem n (put m d (m s)) (d + 1) (s + 1) a premise, same)
  where
    premise : (d + 1 ≤ s + 1) ⊎ (s + 1 + n ≤ d + 1)
    premise = elim h [ inl le ↦ inl (omega arith) | inr le ↦ inr (omega arith) ]

    same : d < a → m (s + 1 + (a - (d + 1))) ≡ m (s + (a - d))
    same lt = ap m (omega arith)

-- memset writes the low byte of `c` over exactly the `n` bytes from `p`, and returns for every size
-- that an `int` counts.
pub memset_lem :
    (n : ℕ) (m : Bytes) (p c : ℕ)
    → n < 2 ^ 31
    → (m' : Bytes) × (memset m p c n ≡ ok m')
      × ((a : ℕ) → m' a ≡ (if within p n a then c % 256 else m a))
unfolding memset
memset_lem n m p c h = (memset_loop n m p c, ground arith, λ a. memset_loop_lem n m p c a)

-- memcpy, on ranges that are apart or moved to a lower address, returns and copies the old bytes of
-- the source over exactly the destination.
pub memcpy_lem :
    (n : ℕ) (m : Bytes) (d s : ℕ)
    → n < 2 ^ 31
    → (d ≤ s) ⊎ (s + n ≤ d)
    → (m' : Bytes) × (memcpy m d s n ≡ ok m')
      × ((a : ℕ) → m' a ≡ (if within d n a then m (s + (a - d)) else m a))
unfolding memcpy
memcpy_lem n m d s h apart =
    (memcpy_loop n m d s, rw (low, lt→ltb n (2 ^ 31) h), λ a. memcpy_loop_lem n m d s a apart)
  where
    low : n % 2 ^ 32 ≡ n
    low = omega arith

memcmp-zero :
    (n : ℕ) (m : Bytes) (s1 s2 : ℕ)
    → memcmp n m s1 s2 ≡ pos 0
    → (k : ℕ) → k < n
    → m (s1 + k) ≡ m (s2 + k)
unfolding memcmp
memcmp-zero zero m s1 s2 e k h = absurd (omega arith)
memcmp-zero (suc n) m s1 s2 e zero h = ground (arith, ap m (add-zero s1), ap m (add-zero s2))
memcmp-zero (suc n) m s1 s2 e (suc k) h =
    ap m (omega arith)
    ∙ memcmp-zero n m (s1 + 1) (s2 + 1) (ground arith) k (omega arith)
    ∙ ap m (omega arith)

zero-memcmp :
    (n : ℕ) (m : Bytes) (s1 s2 : ℕ)
    → ((k : ℕ) → k < n → m (s1 + k) ≡ m (s2 + k))
    → memcmp n m s1 s2 ≡ pos 0
unfolding memcmp
zero-memcmp zero m s1 s2 h = refl
zero-memcmp (suc n) m s1 s2 h =
    ground
      (arith, h 0, ap m (add-zero s1), ap m (add-zero s2), zero-memcmp n m (s1 + 1) (s2 + 1) later)
  where
    later : (k : ℕ) → k < n → m (s1 + 1 + k) ≡ m (s2 + 1 + k)
    later k lt = ap m (omega arith) ∙ h (k + 1) (omega arith) ∙ ap m (omega arith)

-- memcmp returns 0 exactly when the two ranges hold the same bytes.
pub memcmp-eq :
    (n : ℕ) (m : Bytes) (s1 s2 : ℕ)
    → (memcmp n m s1 s2 ≡ pos 0) ↔ ((k : ℕ) → k < n → m (s1 + k) ≡ m (s2 + k))
memcmp-eq n m s1 s2 = (memcmp-zero n m s1 s2, zero-memcmp n m s1 s2)
