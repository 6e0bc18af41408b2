-- ===== src/Keyboard/Tests.antt =====
-- Key presses, and the theorems about the key buffer at concrete buffers.
use vi_os.Prelude.{
  ℕ, ◌+◌, ◌%◌, ◌<◌, ◌≡◌, refl, sym, true, false, [], ◌∷◌, none, some, arith, replicate,
  length-replicate, get_or, ok, fault, zero, suc,
}
use vi_os.CString.Length.{NoNul}
use vi_os.Keyboard.{KeyboardBuffer, scancode_to_char, handle_interrupt}
use vi_os.Keyboard.Ring.{Queue}
use vi_os.Keyboard.Scancodes.{handle_interrupt-Queue}

get_or-replicate : (n i d : ℕ) → get_or (replicate n d) i d ≡ d
get_or-replicate zero i d = refl
get_or-replicate (suc n) zero d = refl
get_or-replicate (suc n) (suc i) d = get_or-replicate n i d

-- The buffer of a new process, and one that is full of the letter "a".
abbrev empty : KeyboardBuffer
empty = record { buffer = replicate 1024 0; tail = 0; head = 0 }

empty-Queue : Queue empty []
empty-Queue = record {
  size = length-replicate {A = ℕ} 1024 0;
  ends = refl;
  fits = omega arith;
  small = omega arith;
  slots = λ i lt. get_or-replicate 1024 ((0 + i) % 1024) 0;
  nonzero = tt;
}

full : KeyboardBuffer
full = record { buffer = replicate 1024 97; tail = 1024; head = 0 }

NoNul-replicate : (n : ℕ) → NoNul (replicate {A = ℕ} n 97)
NoNul-replicate zero = tt
NoNul-replicate (suc n) = (refl, NoNul-replicate n)

filled : (n i : ℕ) → i < n → get_or (replicate {A = ℕ} n 97) i 0 ≡ 97
filled zero i lt = absurd (omega arith)
filled (suc n) zero lt = refl
filled (suc n) (suc i) lt = filled n i (omega arith)

get_or-same :
    (n i j : ℕ)
    → i < n
    → j < n
    → get_or (replicate {A = ℕ} n 97) i 0 ≡ get_or (replicate {A = ℕ} n 97) j 0
get_or-same zero i j lt lt' = absurd (omega arith)
get_or-same (suc n) zero zero lt lt' = refl
get_or-same (suc n) zero (suc j) lt lt' = sym (filled n j (omega arith))
get_or-same (suc n) (suc i) zero lt lt' = filled n i (omega arith)
get_or-same (suc n) (suc i) (suc j) lt lt' = get_or-same n i j (omega arith) (omega arith)

full-Queue : Queue full (replicate 1024 97)
unfolding full
full-Queue = record {
  size = length-replicate {A = ℕ} 1024 97;
  ends = omega (arith, length-replicate {A = ℕ} 1024 97);
  fits = omega (arith, length-replicate {A = ℕ} 1024 97);
  small = omega arith;
  slots = λ i lt. get_or-same 1024 ((0 + i) % 1024) i (omega arith) lt;
  nonzero = NoNul-replicate 1024;
}

-- A scancode of the size of the table is read behind it.
behind_table : scancode_to_char true 82 ≡ fault
unfolding scancode_to_char
behind_table = refl

capslock_key : handle_interrupt false none 58 ≡ ok (true, none)
unfolding handle_interrupt scancode_to_char
capslock_key = refl

handle_interrupt-Queue_example :
    (keyboard' : KeyboardBuffer) × (handle_interrupt false (some empty) 30
      ≡ ok (false, some keyboard'))
    × Queue keyboard' (97 ∷ [])
unfolding scancode_to_char
handle_interrupt-Queue_example =
    handle_interrupt-Queue false empty [] 30 97 empty-Queue (omega arith) (omega arith)
      (omega arith) refl refl refl
