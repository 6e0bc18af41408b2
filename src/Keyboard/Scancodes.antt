-- ===== src/Keyboard/Scancodes.antt =====
-- The keyboard's interrupt handler of ViOS64Bit/src/keyboard/ps2keyboard.c.
use vi_os.Prelude.{
  ℕ, ◌+◌, ◌^◌, ◌<◌, ◌≡◌, Bool, true, false, List, [], ◌∷◌, ◌++◌, some, arith, length, get_or, ok,
  ◌==◌, ltb, leb, load, load-get_or,
}
use vi_os.CString.{tolower}
use vi_os.Keyboard.{KeyboardBuffer, scan_set_one, scancode_to_char, handle_interrupt}
use vi_os.Keyboard.Ring.{Queue, push-Queue}

-- For each scancode inside of the table the character without capslock is the one with capslock, turned
-- to lower case.
pub scancode_to_char-tolower :
    (scancode : ℕ)
    → scancode < 82
    → (c : ℕ) × (scancode_to_char true scancode ≡ ok c)
      × (scancode_to_char false scancode ≡ ok (tolower c))
unfolding scancode_to_char tolower
scancode_to_char-tolower scancode lt =
    (get_or scan_set_one scancode 0, rw (inside, read), rw (inside, read))
  where
    inside : ltb 82 scancode ≡ false
    inside = ground arith

    read : load scan_set_one scancode ≡ ok (get_or scan_set_one scancode 0)
    read = load-get_or scan_set_one scancode lt

-- The interrupt for a key that stands for a character puts that character behind the others in the buffer
-- of the current process, if it has less than 1024 and its tail is below 2^31 - 1, and leaves capslock as it is.
pub handle_interrupt-Queue :
    (capslock : Bool) (keyboard : KeyboardBuffer) (q : List ℕ) (scancode c : ℕ)
    → Queue keyboard q
    → length q < 1024
    → keyboard.tail + 1 < 2 ^ 31
    → scancode < 128
    → (scancode == 58) ≡ false
    → scancode_to_char capslock scancode ≡ ok c
    → (c == 0) ≡ false
    → (keyboard' : KeyboardBuffer) × (handle_interrupt capslock (some keyboard) scancode
        ≡ ok (capslock, some keyboard'))
      × Queue keyboard' (q ++ (c ∷ []))
unfolding handle_interrupt
handle_interrupt-Queue capslock keyboard q scancode c queue room small pressed no_capslock char
      character =
    let (keyboard', e, queue') = push-Queue keyboard q c queue character room small in
    (keyboard', rw (down, no_capslock, char, character, e), queue')
  where
    down : leb 128 scancode ≡ false
    down = ground arith
