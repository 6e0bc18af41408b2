-- ===== src/Keyboard/Ring.antt =====
-- The key buffer of ViOS64Bit/src/keyboard/keyboard.c as a queue.
use vi_os.Prelude.{
  ℕ, zero, suc, ◌+◌, ◌-◌, ◌%◌, ◌^◌, ◌≤◌, ◌<◌, ◌≡◌, refl, ap, sym, ◌∙◌, ◌⊎◌, inl, inr, false, List,
  [], ◌∷◌, ◌++◌, some, arith, length, length-append, get_or, ok, ◌==◌, load, Stored, store-Stored,
  load-get_or, add64,
}
use mathlib.Core.Path.{subst}
use vi_os.CString.Length.{NoNul}
use vi_os.Keyboard.{KeyboardBuffer, next_int, push, pop}

-- The buffer holds the characters `q`, the oldest first: they stand from `head` on, round the end of the
-- buffer, and zeros everywhere else.
pub record Queue (keyboard : KeyboardBuffer) (q : List ℕ) : Type 0 where
  pub size : length keyboard.buffer ≡ 1024
  pub ends : keyboard.head + length q ≡ keyboard.tail
  pub fits : length q ≤ 1024
  pub small : keyboard.tail < 2 ^ 31
  pub slots :
      (i : ℕ) → i < 1024 → get_or keyboard.buffer ((keyboard.head + i) % 1024) 0 ≡ get_or q i 0
  pub nonzero : NoNul q

get_or-beyond : (q : List ℕ) (i : ℕ) → length q ≤ i → get_or q i 0 ≡ 0
get_or-beyond [] i le = refl
get_or-beyond (x ∷ q) zero le = absurd (omega arith)
get_or-beyond (x ∷ q) (suc i) le = get_or-beyond q i (omega arith)

get_or-snoc : (q : List ℕ) (c : ℕ) → get_or (q ++ (c ∷ [])) (length q) 0 ≡ c
get_or-snoc [] c = refl
get_or-snoc (x ∷ q) c = get_or-snoc q c

get_or-snoc_other :
    (q : List ℕ) (c i : ℕ)
    → (i < length q) ⊎ (length q < i)
    → get_or (q ++ (c ∷ [])) i 0 ≡ get_or q i 0
get_or-snoc_other [] c zero (inl h) = absurd (omega arith)
get_or-snoc_other [] c zero (inr h) = absurd (omega arith)
get_or-snoc_other [] c (suc i) h = refl
get_or-snoc_other (x ∷ q) c zero h = refl
get_or-snoc_other (x ∷ q) c (suc i) (inl h) = get_or-snoc_other q c i (inl (omega arith))
get_or-snoc_other (x ∷ q) c (suc i) (inr h) = get_or-snoc_other q c i (inr (omega arith))

NoNul-snoc : (q : List ℕ) (c : ℕ) → NoNul q → (c == 0) ≡ false → NoNul (q ++ (c ∷ []))
NoNul-snoc [] c h k = (k, tt)
NoNul-snoc (x ∷ q) c h k = (h.0, NoNul-snoc q c h.1 k)

compare : (i n : ℕ) → (i ≡ n) ⊎ ((i < n) ⊎ (n < i))
compare zero zero = inl refl
compare zero (suc n) = inr (inl (omega arith))
compare (suc i) zero = inr (inr (omega arith))
compare (suc i) (suc n) = elim (compare i n) [
  | inl e ↦ inl (ap suc e)
  | inr (inl h) ↦ inr (inl (omega arith))
  | inr (inr h) ↦ inr (inr (omega arith))
]

-- Two slots of the ring at different distances from the head are different.
apart :
    (h i n : ℕ)
    → i < 1024
    → n < 1024
    → (i < n) ⊎ (n < i)
    → ((h + i) % 1024 < (h + n) % 1024) ⊎ ((h + n) % 1024 < (h + i) % 1024)
apart h i n lt lt' differ = elim (compare ((h + i) % 1024) ((h + n) % 1024)) [
  | inl e ↦ absurd (differs differ e)
  | inr less_or_more ↦ less_or_more
]
  where
    differs : (i < n) ⊎ (n < i) → (h + i) % 1024 ≡ (h + n) % 1024 → ⊥
    differs (inl less) e = omega arith
    differs (inr more) e = omega arith

-- keyboard_push of a character other than NUL, to a buffer with less than 1024 characters, puts it behind
-- the others, if the `int` tail does not overflow.
pub push-Queue :
    (keyboard : KeyboardBuffer) (q : List ℕ) (c : ℕ)
    → Queue keyboard q
    → (c == 0) ≡ false
    → length q < 1024
    → keyboard.tail + 1 < 2 ^ 31
    → (keyboard' : KeyboardBuffer) × (push (some keyboard) c ≡ ok (some keyboard'))
      × Queue keyboard' (q ++ (c ∷ []))
unfolding push next_int Stored
push-Queue keyboard q c queue character room small =
    let (buffer', (e, size, there, others)) =
      store-Stored keyboard.buffer (keyboard.tail % 1024) c (omega (arith, queue.size)) in
    (
      record keyboard { buffer = buffer'; tail = add64 keyboard.tail 1 },
      rw (character, e, no_overflow),
      record {
        size = size ∙ queue.size;
        ends = omega (arith, queue.ends, length-append q (c ∷ []));
        fits = omega (arith, length-append q (c ∷ []));
        small = omega arith;
        slots = slots buffer' there others;
        nonzero = NoNul-snoc q c queue.nonzero character;
      },
    )
  where
    no_overflow : (keyboard.tail == 2 ^ 31 - 1) ≡ false
    no_overflow = ground arith

    slots :
        (buffer' : List ℕ)
        → get_or buffer' (keyboard.tail % 1024) 0 ≡ c
        → ((j : ℕ)
            → (j < keyboard.tail % 1024) ⊎ (keyboard.tail % 1024 < j)
            → get_or buffer' j 0 ≡ get_or keyboard.buffer j 0)
        → (i : ℕ) → i < 1024
        → get_or buffer' ((keyboard.head + i) % 1024) 0 ≡ get_or (q ++ (c ∷ [])) i 0
    slots buffer' there others i lt = elim (compare i (length q)) [
      | inl e ↦
          ap (λ n. get_or buffer' n 0) (omega (arith, queue.ends))
          ∙ there
          ∙ sym (get_or-snoc q c)
          ∙ ap (λ n. get_or (q ++ (c ∷ [])) n 0) (sym e)
      | inr differ ↦
          others ((keyboard.head + i) % 1024) (
            subst
              (λ t.
                ((keyboard.head + i) % 1024 < t % 1024) ⊎ (t % 1024 < (keyboard.head + i) % 1024))
              queue.ends (apart keyboard.head i (length q) lt room differ))
          ∙ queue.slots i lt
          ∙ sym (get_or-snoc_other q c i differ)
    ]

-- The queue whose oldest character is popped, and the answer.
abbrev pub popped : List ℕ → ℕ × List ℕ
popped [] = (0, [])
popped (c ∷ q) = (c, q)

slot_of_head :
    (keyboard : KeyboardBuffer) (q : List ℕ)
    → Queue keyboard q
    → load keyboard.buffer (keyboard.head % 1024) ≡ ok (get_or q 0 0)
slot_of_head keyboard q queue =
    load-get_or keyboard.buffer (keyboard.head % 1024) (omega (arith, queue.size))
    ∙ ap (λ n. ok (get_or keyboard.buffer n 0)) (omega arith)
    ∙ ap ok (queue.slots 0 (omega arith))

-- keyboard_pop returns the oldest character and removes it from the queue, and returns 0 and leaves an
-- empty queue as it is.
pub pop-Queue :
    (keyboard : KeyboardBuffer) (q : List ℕ)
    → Queue keyboard q
    → (keyboard' : KeyboardBuffer) × (pop (some keyboard) ≡ ok ((popped q).0, some keyboard'))
      × Queue keyboard' ((popped q).1)
unfolding pop next_int Stored
pop-Queue keyboard [] queue = (keyboard, rw (slot_of_head keyboard [] queue), queue)
pop-Queue keyboard (c ∷ q) queue =
    let (buffer', (e, size, there, others)) =
      store-Stored keyboard.buffer (keyboard.head % 1024) 0 (omega (arith, queue.size)) in
    (
      record keyboard { buffer = buffer'; head = add64 keyboard.head 1 },
      rw (slot_of_head keyboard (c ∷ q) queue, queue.nonzero.0, e, no_overflow),
      record {
        size = size ∙ queue.size;
        ends = omega (arith, queue.ends, queue.small);
        fits = omega (arith, queue.fits);
        small = queue.small;
        slots = λ i lt.
            ap (λ n. get_or buffer' n 0)
              (shift i (add64 keyboard.head 1) (omega (arith, queue.ends, queue.small)))
            ∙ slots buffer' there others i lt (compare (suc i) 1024);
        nonzero = queue.nonzero.1;
      },
    )
  where
    no_overflow : (keyboard.head == 2 ^ 31 - 1) ≡ false
    no_overflow = ground (arith, queue.ends, queue.small)

    shift : (i h : ℕ) → h ≡ keyboard.head + 1 → (h + i) % 1024 ≡ (keyboard.head + suc i) % 1024
    shift i h e = omega arith

    slots :
        (buffer' : List ℕ)
        → get_or buffer' (keyboard.head % 1024) 0 ≡ 0
        → ((j : ℕ)
            → (j < keyboard.head % 1024) ⊎ (keyboard.head % 1024 < j)
            → get_or buffer' j 0 ≡ get_or keyboard.buffer j 0)
        → (i : ℕ) → i < 1024
        → (suc i ≡ 1024) ⊎ ((suc i < 1024) ⊎ (1024 < suc i))
        → get_or buffer' ((keyboard.head + suc i) % 1024) 0 ≡ get_or q i 0
    slots buffer' there others i lt (inl e) =
        ap (λ n. get_or buffer' n 0) (omega arith)
        ∙ there
        ∙ sym (get_or-beyond q i (omega (arith, queue.fits)))
    slots buffer' there others i lt (inr (inl more)) =
        others ((keyboard.head + suc i) % 1024) (
          subst (λ t. ((keyboard.head + suc i) % 1024 < t) ⊎ (t < (keyboard.head + suc i) % 1024))
            (omega arith) (apart keyboard.head (suc i) 0 more (omega arith) (inr (omega arith))))
        ∙ queue.slots (suc i) more
    slots buffer' there others i lt (inr (inr over)) = absurd (omega arith)

-- keyboard_push to a buffer with 1024 characters writes over the oldest one: the next keyboard_pop returns
-- the new character, before the older ones.
pub push-full :
    (keyboard : KeyboardBuffer) (q : List ℕ) (c : ℕ)
    → Queue keyboard q
    → (c == 0) ≡ false
    → length q ≡ 1024
    → keyboard.tail + 1 < 2 ^ 31
    → (keyboard' keyboard'' : KeyboardBuffer) × (push (some keyboard) c ≡ ok (some keyboard'))
      × (pop (some keyboard') ≡ ok (c, some keyboard''))
unfolding push pop next_int Stored
push-full keyboard q c queue character full small =
    let (buffer', (e, size, there, others)) =
      store-Stored keyboard.buffer (keyboard.tail % 1024) c (omega (arith, queue.size)) in
    let (buffer'', (e', size', there', others')) =
      store-Stored buffer' (keyboard.head % 1024) 0 (omega (arith, size, queue.size)) in
    (
      record keyboard { buffer = buffer'; tail = add64 keyboard.tail 1 },
      record keyboard {
        buffer = buffer'';
        tail = add64 keyboard.tail 1;
        head = add64 keyboard.head 1;
      },
      rw (character, e, no_overflow),
      rw (
        load-get_or buffer' (keyboard.head % 1024) (omega (arith, size, queue.size)),
        ap (λ n. get_or buffer' n 0) same ∙ there,
        character,
        e',
        no_overflow',
      ),
    )
  where
    no_overflow : (keyboard.tail == 2 ^ 31 - 1) ≡ false
    no_overflow = ground arith

    no_overflow' : (keyboard.head == 2 ^ 31 - 1) ≡ false
    no_overflow' = ground (arith, queue.ends)

    same : keyboard.head % 1024 ≡ keyboard.tail % 1024
    same = omega (arith, queue.ends)
