-- ===== src/Keyboard.antt =====
-- The key buffer of a process of ViOS64Bit/src/keyboard/keyboard.c, and the keyboard's interrupt handler of
-- ViOS64Bit/src/keyboard/ps2keyboard.c that fills it. `tail` and `head` are `int`s, kept as the
-- `size_t` that the code converts them to: a negative one is 2^31 at most below 2^64. The overflow of an `int` is
-- undefined, and faults.
pub mod Ring
pub mod Scancodes
mod Tests
use vi_os.Prelude.{
  ℕ, zero, suc, ◌+◌, ◌-◌, ◌%◌, Bool, true, false, ◌&&◌, not, List, [], ◌∷◌, Option, none, some, ltb,
  leb, ◌==◌, if◌then◌else◌, length, Run, ok, fault, ◌>>=◌, load, store, add64, sub64, ◌^◌,
}

-- `struct keyboard_buffer`
pub record KeyboardBuffer : Type 0 where
  pub buffer : List ℕ
  pub tail : ℕ
  pub head : ℕ

unfoldable pub get_tail_index : KeyboardBuffer → ℕ
get_tail_index keyboard = keyboard.tail % 1024

-- `n + 1` and `n - 1` of an `int`.
unfoldable pub next_int : ℕ → Run ℕ
next_int n = if n == 2 ^ 31 - 1 then fault else ok (add64 n 1)

unfoldable pub prev_int : ℕ → Run ℕ
prev_int n = if n == 2 ^ 64 - 2 ^ 31 then fault else ok (sub64 n 1)

unfoldable pub backspace : KeyboardBuffer → Run KeyboardBuffer
unfolding get_tail_index prev_int
backspace keyboard = prev_int keyboard.tail >>= λ tail'.
    let real_index = get_tail_index (record keyboard { tail = tail' }) in
    store keyboard.buffer real_index 0 >>= λ buffer'.
    ok (record keyboard { tail = tail'; buffer = buffer' })

-- The buffer of the current process, if there is one.
unfoldable pub push : Option KeyboardBuffer → ℕ → Run (Option KeyboardBuffer)
unfolding get_tail_index next_int
push none c = ok none
push (some keyboard) c =
    if c == 0
    then ok (some keyboard)
    else (store keyboard.buffer (get_tail_index keyboard) c >>= λ buffer'.
        next_int keyboard.tail >>= λ tail'.
        ok (some (record keyboard { buffer = buffer'; tail = tail' })))

-- The character, 0 where there is none, and the buffer of the current task's process.
unfoldable pub pop : Option KeyboardBuffer → Run (ℕ × Option KeyboardBuffer)
unfolding next_int
pop none = ok (0, none)
pop (some keyboard) =
    let real_index = keyboard.head % 1024 in
    load keyboard.buffer real_index >>= λ c.
    if c == 0
    then ok (0, some keyboard)
    else (store keyboard.buffer real_index 0 >>= λ buffer'. next_int keyboard.head >>= λ head'.
        ok (c, some (record keyboard { buffer = buffer'; head = head' })))

abbrev pub scan_set_one : List ℕ
scan_set_one =
    0 ∷ 27 ∷ 49 ∷ 50 ∷ 51 ∷ 52 ∷ 53 ∷ 54 ∷ 55 ∷ 56 ∷ 57 ∷ 48 ∷ 45 ∷ 61 ∷ 8 ∷ 9 ∷ 81 ∷ 87 ∷ 69 ∷ 82
    ∷ 84 ∷ 89 ∷ 85 ∷ 73 ∷ 79 ∷ 80 ∷ 91 ∷ 93 ∷ 13 ∷ 0 ∷ 65 ∷ 83 ∷ 68 ∷ 70 ∷ 71 ∷ 72 ∷ 74 ∷ 75 ∷ 76
    ∷ 59 ∷ 39 ∷ 96 ∷ 0 ∷ 92 ∷ 90 ∷ 88 ∷ 67 ∷ 86 ∷ 66 ∷ 78 ∷ 77 ∷ 44 ∷ 46 ∷ 47 ∷ 0 ∷ 42 ∷ 0 ∷ 32 ∷ 0
    ∷ 0 ∷ 0 ∷ 0 ∷ 0 ∷ 0 ∷ 0 ∷ 0 ∷ 0 ∷ 0 ∷ 0 ∷ 55 ∷ 56 ∷ 57 ∷ 45 ∷ 52 ∷ 53 ∷ 54 ∷ 43 ∷ 49 ∷ 50 ∷ 51
    ∷ 48 ∷ 46 ∷ []

-- A read behind the table faults; `capslock` is KEYBOARD_CAPS_LOCK_ON.
unfoldable pub scancode_to_char : Bool → ℕ → Run ℕ
scancode_to_char capslock scancode =
    if ltb (length scan_set_one) scancode
    then ok 0
    else (load scan_set_one scancode >>= λ c.
        ok (if not capslock && leb 65 c && leb c 90 then c + 32 else c))

-- The state of capslock and the buffer of the current process after the interrupt for a scancode.
unfoldable pub handle_interrupt :
    Bool → Option KeyboardBuffer → ℕ → Run (Bool × Option KeyboardBuffer)
handle_interrupt capslock current scancode =
    if leb 128 scancode
    then ok (capslock, current)
    else key (if scancode == 58 then not capslock else capslock)
  where
    key : Bool → Run (Bool × Option KeyboardBuffer)
    key capslock' = do
      c ← scancode_to_char capslock' scancode
      let pushed = push current c >>= λ current'. ok (capslock', current')
      if c == 0 then ok (capslock', current) else pushed
