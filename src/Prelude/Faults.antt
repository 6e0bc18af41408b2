-- ===== src/Prelude/Faults.antt =====
-- Runs that may fault: an access outside of an object, or a panic of the kernel.
use Prim.Native.Nat.{ℕ, zero, suc}
use mathlib.Core.Path.{◌≡◌, refl}
use mathlib.Core.List.{List, [], ◌∷◌, ◌++◌}
use mathlib.Core.Path.{ap}
use mathlib.Core.Logic.{◌⊎◌, inl, inr}
use Prim.Native.Nat.{◌<◌}
use native.Mathlib.Omega.{arith}
use vi_os.Prelude.Lists.{length, get_or}

pub data Run {ℓ} (A : Type ℓ) : Type ℓ where
  ok : A → Run A
  fault : Run A

infixl 5 ◌>>=◌ ◌>>◌
abbrev pub ◌>>=◌ {ℓ κ} : {A : Type ℓ} {B : Type κ} → Run A → (A → Run B) → Run B
ok a >>= f = f a
fault >>= f = fault

abbrev pub ◌>>◌ {ℓ κ} : {A : Type ℓ} {B : Type κ} → Run A → Run B → Run B
m >> k = m >>= λ _. k

module _ {ℓ} {A : Type ℓ} where
  -- `p[i]` as a value, and as the target of an assignment.
  abbrev pub load : List A → ℕ → Run A
  load [] i = fault
  load (x ∷ xs) zero = ok x
  load (x ∷ xs) (suc i) = load xs i

  abbrev pub store : List A → ℕ → A → Run (List A)
  store [] i v = fault
  store (x ∷ xs) zero v = ok (v ∷ xs)
  store (x ∷ xs) (suc i) v = store xs i v >>= λ ys. ok (x ∷ ys)

  pub load-prefix : (pre post : List A) (x : A) → load (pre ++ (x ∷ post)) (length pre) ≡ ok x
  load-prefix [] post x = refl
  load-prefix (y ∷ pre) post x = load-prefix pre post x

  pub store-prefix :
      (pre post : List A) (x v : A)
      → store (pre ++ (x ∷ post)) (length pre) v ≡ ok (pre ++ (v ∷ post))
  store-prefix [] post x v = refl
  store-prefix (y ∷ pre) post x v = rw (store-prefix pre post x v)

pub load-get_or : (xs : List ℕ) (i : ℕ) → i < length xs → load xs i ≡ ok (get_or xs i 0)
load-get_or [] i lt = absurd (omega arith)
load-get_or (x ∷ xs) zero lt = refl
load-get_or (x ∷ xs) (suc i) lt = load-get_or xs i (omega arith)

-- The buffer with one number stored.
unfoldable pub Stored : List ℕ → ℕ → ℕ → List ℕ → Type 0
Stored buf i b buf' =
    (store buf i b ≡ ok buf')
    × (length buf' ≡ length buf)
    × (get_or buf' i 0 ≡ b)
    × ((j : ℕ) → (j < i) ⊎ (i < j) → get_or buf' j 0 ≡ get_or buf j 0)

pub store-Stored : (buf : List ℕ) (i b : ℕ) → i < length buf → (buf' : List ℕ) × Stored buf i b buf'
unfolding Stored
store-Stored [] i b lt = absurd (omega arith)
store-Stored (x ∷ buf) zero b lt = (b ∷ buf, (refl, refl, refl, others))
  where
    others : (j : ℕ) → (j < 0) ⊎ (0 < j) → get_or (b ∷ buf) j 0 ≡ get_or (x ∷ buf) j 0
    others zero (inl h) = absurd (omega arith)
    others zero (inr h) = absurd (omega arith)
    others (suc j) h = refl
store-Stored (x ∷ buf) (suc i) b lt =
    let (buf', (e, size, there, others)) = store-Stored buf i b (omega arith) in
    (x ∷ buf', (rw e, ap suc size, there, elsewhere buf' others))
  where
    elsewhere :
        (buf' : List ℕ)
        → ((j : ℕ) → (j < i) ⊎ (i < j) → get_or buf' j 0 ≡ get_or buf j 0)
        → (j : ℕ) → (j < suc i) ⊎ (suc i < j)
        → get_or (x ∷ buf') j 0 ≡ get_or (x ∷ buf) j 0
    elsewhere buf' others zero h = refl
    elsewhere buf' others (suc j) (inl h) = others j (inl (omega arith))
    elsewhere buf' others (suc j) (inr h) = others j (inr (omega arith))
