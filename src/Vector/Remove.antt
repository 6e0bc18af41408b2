-- ===== src/Vector/Remove.antt =====
-- vector_pop_element of ViOS64Bit/src/lib/vector/vector.c.
use vi_os.Prelude.{
  ℕ, zero, suc, ◌+◌, ◌-◌, ◌≡◌, refl, ap, sym, ◌∙◌, true, false, List, [], ◌∷◌, ◌++◌, append_assoc,
  append-nil, none, some, arith, length, length-append, ok, load, store, load-prefix, store-prefix,
  if◌then◌else◌, pos, neg, ◌==◌, sub64, mul64, to_int32-small, ◌*◌, ◌<◌, ◌^◌,
}
use mathlib.Core.Path.{subst}
use native.Mathlib.Nat.{le_refl, mul-div_cancel, mul-mod_left, mod-eq_of_lt}
use vi_os.Config.{e_io}
use vi_os.Vector.{
  Vector, Elem, Cells, cells, same_bytes, memcmp_is_zero, find_loop, shift_loop, shift_part,
  memcpy_down, pop_element,
}
use vi_os.Vector.Contents.{Holds, at_lem, pop-last}

-- No element of the list has the first `size` bytes of `v`.
abbrev pub NoneSame : ℕ → Elem → List Elem → Type 0
NoneSame size v [] = Unit
NoneSame size v (x ∷ xs) = (same_bytes size x v ≡ false) × NoneSame size v xs

same_bytes_refl : (count : ℕ) (v : Elem) → same_bytes count v v ≡ true
unfolding same_bytes
same_bytes_refl zero v = refl
same_bytes_refl (suc count) [] = refl
same_bytes_refl (suc count) (a ∷ v) = ground (arith, same_bytes_refl count v)

module _ (vec : Vector) (v : Elem) where
  find_step :
      (seen rest : List Elem) (x : Elem) (rounds : ℕ)
      → Holds vec (seen ++ (x ∷ rest))
      → find_loop vec v (suc rounds) (length seen) ≡ (
          if same_bytes vec.e_size x v
          then ok (pos 0, pos (length seen))
          else find_loop vec v rounds (length seen + 1))
  unfolding find_loop memcmp_is_zero
  find_step seen rest x rounds holds =
      rw
        (
          at_lem vec seen rest x holds vec.e_size (le_refl vec.e_size),
          to_int32-small vec.e_size holds.sized,
        )
        refl

  find_loop-found :
      (mid seen back : List Elem) (rounds i : ℕ)
      → Holds vec (seen ++ (mid ++ (v ∷ back)))
      → NoneSame vec.e_size v mid
      → rounds ≡ length mid + suc (length back)
      → i ≡ length seen
      → find_loop vec v rounds i ≡ ok (pos 0, pos (length seen + length mid))
  find_loop-found mid seen back zero i holds none_same e here = absurd (omega arith)
  find_loop-found [] seen back (suc rounds) i holds none_same e here =
      rw (here, find_step seen back v rounds holds, same_bytes_refl vec.e_size v)
        (ap (λ n. ok (pos 0, pos n)) (omega arith))
  find_loop-found (x ∷ mid) seen back (suc rounds) i holds none_same e here =
      rw (here, find_step seen (mid ++ (v ∷ back)) x rounds holds, none_same.0)
        (find_loop-found mid (seen ++ (x ∷ [])) back rounds (length seen + 1)
            (subst (Holds vec) (sym (append_assoc seen (x ∷ []) (mid ++ (v ∷ back)))) holds)
            none_same.1 (omega arith) (omega (arith, length-append seen (x ∷ [])))
          ∙ ap (λ n. ok (pos 0, pos n)) (omega (arith, length-append seen (x ∷ []))))

  find_loop-absent :
      (mid seen : List Elem) (rounds i : ℕ)
      → Holds vec (seen ++ mid)
      → NoneSame vec.e_size v mid
      → rounds ≡ length mid
      → i ≡ length seen
      → find_loop vec v rounds i ≡ ok (pos 0, neg 1)
  find_loop-absent [] seen zero i holds none_same e here = unfold find_loop in refl
  find_loop-absent [] seen (suc rounds) i holds none_same e here = absurd (omega arith)
  find_loop-absent (x ∷ mid) seen zero i holds none_same e here = absurd (omega arith)
  find_loop-absent (x ∷ mid) seen (suc rounds) i holds none_same e here =
      rw (here, find_step seen mid x rounds holds, none_same.0)
        (find_loop-absent mid (seen ++ (x ∷ [])) rounds (length seen + 1)
          (subst (Holds vec) (sym (append_assoc seen (x ∷ []) mid)) holds) none_same.1 (omega arith)
          (omega (arith, length-append seen (x ∷ []))))

shift_loop-prefix :
    (mid front spare : List Elem) (x : Elem) (i : ℕ) (vec : Vector)
    → i ≡ length front
    → vec.memory ≡ some (front ++ (x ∷ (mid ++ spare)))
    → (last : Elem) × (shift_loop (length mid) i vec
        ≡ ok (record vec { memory = some (front ++ (mid ++ (last ∷ spare))) }))
unfolding shift_loop
shift_loop-prefix [] front spare x i vec here e = (x, ap (λ m. ok (record vec { memory = m })) e)
shift_loop-prefix (y ∷ mid) front spare x i vec here e =
    let (last, done) =
      shift_loop-prefix mid (front ++ (y ∷ [])) spare y (i + 1) after
        (omega (arith, here, length-append front (y ∷ [])))
        (ap some (sym (append_assoc front (y ∷ []) (y ∷ (mid ++ spare))))) in
    (
      last,
      rw (loaded, stored)
          (done
            ∙ ap (λ es. ok (record vec { memory = some es }))
                (append_assoc front (y ∷ []) (mid ++ (last ∷ spare)))),
    )
  where
    after : Vector
    after = record vec { memory = some (front ++ (y ∷ (y ∷ (mid ++ spare)))) }

    next : i + 1 ≡ length (front ++ (x ∷ []))
    next = omega (arith, here, length-append front (x ∷ []))

    loaded : load (cells vec.memory) (i + 1) ≡ ok y
    loaded =
        ap (λ m. load (cells m) (i + 1))
          (e ∙ ap some (sym (append_assoc front (x ∷ []) (y ∷ (mid ++ spare)))))
        ∙ rw next (load-prefix (front ++ (x ∷ [])) (mid ++ spare) y)

    stored : store (cells vec.memory) i y ≡ ok (front ++ (y ∷ (y ∷ (mid ++ spare))))
    stored = ap (λ m. store (cells m) i y) e ∙ rw here (store-prefix front (y ∷ (mid ++ spare)) x y)

full_memory :
    (m : Cells) (front back : List Elem) (x : Elem)
    → cells m ≡ front ++ (x ∷ back)
    → m ≡ some (front ++ (x ∷ back))
full_memory none front back x e =
    absurd (omega (arith, ap length e, length-append front (x ∷ back)))
full_memory (some es) front back x e = ap some e

same_size : (n : ℕ) → (n == n) ≡ true
same_size n = ground arith

module _ (vec : Vector) (v : Elem) where
  remove_last :
      (front : List Elem)
      → Holds vec (front ++ (v ∷ []))
      → NoneSame vec.e_size v front
      → (vec' : Vector) × (pop_element vec v vec.e_size true ≡ ok (pos 0, vec')) × Holds vec' front
  unfolding pop_element
  remove_last front holds none_same =
      let (vec', popped, holds') = pop-last vec front v holds in
      (vec', rw (same_size vec.e_size, found, at_end) (ap ok popped), holds')
    where
      size : vec.t_elems ≡ length front + 1
      size = omega (arith, holds.counted, length-append front (v ∷ []))

      found : find_loop vec v vec.t_elems 0 ≡ ok (pos 0, pos (0 + length front))
      found =
          find_loop-found vec v front [] [] vec.t_elems 0 holds none_same (omega (arith, size)) refl

      at_end : (0 + length front == sub64 vec.t_elems 1) ≡ true
      at_end = ground (arith, size, holds.small)

  remove_inner :
      (front back : List Elem) (y : Elem)
      → suc (length back) * vec.e_size < 2 ^ 31
      → Holds vec (front ++ (v ∷ (y ∷ back)))
      → NoneSame vec.e_size v front
      → (vec' : Vector) × (pop_element vec v vec.e_size true ≡ ok (pos 0, vec'))
        × Holds vec' (front ++ (y ∷ back))
  unfolding pop_element memcpy_down shift_part
  remove_inner front back y few holds none_same =
      let (last, shifted) =
        shift_loop-prefix (y ∷ back) front holds.spare v (0 + length front) vec (omega arith) (
          full_memory vec.memory front ((y ∷ back) ++ holds.spare) v
            (holds.layout ∙ append_assoc front (v ∷ (y ∷ back)) holds.spare)) in
      (
        record vec {
          memory = some (front ++ ((y ∷ back) ++ (last ∷ holds.spare)));
          t_elems = vec.t_elems - 1;
        },
        rw
            (
              same_size vec.e_size,
              found,
              not_at_end,
              rounds,
              no_wrap,
              to_int32-small (suc (length back) * vec.e_size) few,
              mul-div_cancel (suc (length back)) holds.positive,
              mul-mod_left (suc (length back)) vec.e_size,
              shifted,
            )
            refl,
        record {
          spare = last ∷ holds.spare;
          layout = sym (append_assoc front (y ∷ back) (last ∷ holds.spare));
          counted = omega (arith, size, shorter);
          room = omega (arith, holds.room, longer, shorter);
          small = omega (arith, holds.small);
          positive = holds.positive;
          sized = holds.sized;
        },
      )
    where
      longer : length (front ++ (v ∷ (y ∷ back))) ≡ length front + suc (suc (length back))
      longer = length-append front (v ∷ (y ∷ back))

      shorter : length (front ++ (y ∷ back)) ≡ length front + suc (length back)
      shorter = length-append front (y ∷ back)

      size : vec.t_elems ≡ length front + suc (suc (length back))
      size = holds.counted ∙ longer

      found : find_loop vec v vec.t_elems 0 ≡ ok (pos 0, pos (0 + length front))
      found = find_loop-found vec v front [] (y ∷ back) vec.t_elems 0 holds none_same size refl

      not_at_end : (0 + length front == sub64 vec.t_elems 1) ≡ false
      not_at_end = ground (arith, size, holds.small)

      no_wrap : mul64 (suc (length back)) vec.e_size ≡ suc (length back) * vec.e_size
      no_wrap = mod-eq_of_lt (omega (arith, few))

      rounds : vec.t_elems - (0 + length front) - 1 ≡ suc (length back)
      rounds = omega (arith, size)

  -- vector_pop_element of elements of 1 to 2^31 - 1 bytes each, given its buffer and the right size, with fewer than
  -- 2^31 bytes of elements behind the one it finds, returns 0 and removes the first element with the given bytes; the
  -- elements before and behind it stay, in their order.
  pub pop_element-present :
      (front back : List Elem)
      → length back * vec.e_size < 2 ^ 31
      → Holds vec (front ++ (v ∷ back))
      → NoneSame vec.e_size v front
      → (vec' : Vector) × (pop_element vec v vec.e_size true ≡ ok (pos 0, vec'))
        × Holds vec' (front ++ back)
  pop_element-present front [] few holds none_same =
      let (vec', e, holds') = remove_last front holds none_same in
      (vec', e, subst (Holds vec') (sym (append-nil front)) holds')
  pop_element-present front (y ∷ back) few holds none_same =
      remove_inner front back y few holds none_same

  -- Where no element has the given bytes, vector_pop_element returns -EIO and changes nothing.
  pub pop_element-absent :
      (xs : List Elem)
      → Holds vec xs
      → NoneSame vec.e_size v xs
      → pop_element vec v vec.e_size true ≡ ok (neg e_io, vec)
  unfolding pop_element
  pop_element-absent xs holds none_same = rw (
    same_size vec.e_size,
    find_loop-absent vec v xs [] vec.t_elems 0 holds none_same holds.counted refl,
  )
