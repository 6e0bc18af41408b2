-- ===== src/Vector/Push.antt =====
-- vector_push of ViOS64Bit/src/lib/vector/vector.c, over what krealloc promises.
use vi_os.Prelude.{
  ℕ, suc, ◌+◌, ◌<◌, ◌≤◌, ◌≡◌, refl, ap, sym, ◌∙◌, ◌⊎◌, inl, inr, Bool-cases, Option-cases, ℤ, true,
  false, List, [], ◌∷◌, ◌++◌, append_assoc, none, some, arith, length, length-append, get_elem?,
  Run, ok, fault, store-prefix, ltb, pos, neg, ◌^◌, ltb→lt, add64, mul64, to_int32-small, ◌*◌, ◌/◌,
}
use mathlib.Core.Path.{ap₂}
use native.Mathlib.Nat.{mul-div_cancel, mod-eq_of_lt}
use vi_os.Config.{e_nomem}
use vi_os.Vector.{Vector, Elem, Allocator, cells, resize, push, at}
use vi_os.Vector.Contents.{Holds}

-- A list that begins as another does is that list and a rest.
prefix_rest :
    (xs es ys : List Elem)
    → length xs ≤ length es
    → ((i : ℕ) → i < length xs → get_elem? es i ≡ get_elem? (xs ++ ys) i)
    → (rest : List Elem) × (es ≡ xs ++ rest)
prefix_rest [] es ys le same = (es, refl)
prefix_rest (x ∷ xs) [] ys le same = absurd (omega arith)
prefix_rest (x ∷ xs) (e ∷ es) ys le same =
    let (rest, tail) = prefix_rest xs es ys (omega arith) (λ i h. same (suc i) (omega arith)) in
    (rest, ap₂ ◌∷◌ (cc (same 0 (omega arith))) tail)

-- The vector has a cell to spare, and otherwise holds `xs`.
record Roomy (old vec : Vector) (xs : List Elem) : Type 0 where
  next : Elem
  spare : List Elem
  layout : cells vec.memory ≡ xs ++ (next ∷ spare)
  counted : vec.t_elems ≡ length xs
  room : vec.tm_elems ≡ length xs + length (next ∷ spare)
  reserved : vec.t_reserved_elements ≡ old.t_reserved_elements
  same_size : vec.e_size ≡ old.e_size

nonempty :
    (xs spare es : List Elem)
    → es ≡ xs ++ spare
    → length xs < length es
    → (y : Elem) × (ys : List Elem) × (spare ≡ y ∷ ys)
nonempty xs [] es e lt = absurd (omega (arith, ap length e, length-append xs []))
nonempty xs (y ∷ ys) es e lt = (y, ys, refl)

module _ (heap : Allocator) (vec : Vector) (xs : List Elem) (holds : Holds vec xs)
    (fits : vec.t_reserved_elements + length xs + 1 < 2 ^ 64) (few : length xs < 2 ^ 31)
    (bytes : (vec.t_reserved_elements + length xs + 1) * vec.e_size < 2 ^ 64) where
  -- How many elements the vector asks memory for when it grows by one.
  abbrev pub wanted : ℕ
  wanted = vec.t_reserved_elements + length xs + 1

  Resized : Type 0
  Resized =
      ((vec' : Vector) × (resize heap vec 1 ≡ (pos 0, vec')) × Roomy vec vec' xs)
      ⊎ ((heap.krealloc vec.memory wanted ≡ none)
          × (resize heap vec 1 ≡ (neg e_nomem, record vec { memory = none })))

  in_place : ltb (add64 vec.t_elems 1) vec.tm_elems ≡ true → Resized
  unfolding Resized resize
  in_place test =
      let (y, ys, e) = nonempty xs holds.spare (xs ++ holds.spare) refl (
        omega (
          arith,
          ltb→lt _ _ test,
          holds.counted,
          holds.room,
          holds.small,
          length-append xs holds.spare,
        )) in
      inl (
        vec,
        rw test,
        record {
          next = y;
          spare = ys;
          layout = holds.layout ∙ ap (λ t. xs ++ t) e;
          counted = holds.counted;
          room = holds.room ∙ ap (λ t. length xs + length t) e;
          reserved = refl;
          same_size = refl;
        },
      )

  final : add64 vec.t_reserved_elements (add64 vec.t_elems 1) ≡ wanted
  final = omega (arith, holds.counted, holds.small)

  -- The size in bytes does not wrap, so that krealloc is asked for all of the elements.
  whole : mul64 wanted vec.e_size / vec.e_size ≡ wanted
  whole = ap (λ n. n / vec.e_size) (mod-eq_of_lt bytes) ∙ mul-div_cancel wanted holds.positive

  grown :
      (es : List Elem)
      → ltb (add64 vec.t_elems 1) vec.tm_elems ≡ false
      → heap.krealloc vec.memory wanted ≡ some es
      → Resized
  unfolding Resized resize
  grown es test e =
      let (rest, front) =
        prefix_rest xs es holds.spare (omega (arith, heap.grants vec.memory wanted es e)) kept in
      let (y, ys, tail) =
        nonempty xs rest es front (omega (arith, heap.grants vec.memory wanted es e)) in
      inl (
        record vec { memory = some es; tm_elems = wanted },
        rw (test, final, whole, e)
            (ap (λ n. (pos 0, record vec { memory = some es; tm_elems = n })) final),
        record {
          next = y;
          spare = ys;
          layout = front ∙ ap (λ t. xs ++ t) tail;
          counted = holds.counted;
          room =
              sym (heap.grants vec.memory wanted es e)
              ∙ ap length (front ∙ ap (λ t. xs ++ t) tail)
              ∙ length-append xs (y ∷ ys);
          reserved = refl;
          same_size = refl;
        },
      )
    where
      kept : (i : ℕ) → i < length xs → get_elem? es i ≡ get_elem? (xs ++ holds.spare) i
      kept i lt =
          heap.keeps vec.memory wanted es e i
            (omega (arith, ap length holds.layout, length-append xs holds.spare)) (omega arith)
          ∙ ap (λ t. get_elem? t i) holds.layout

  refused :
      ltb (add64 vec.t_elems 1) vec.tm_elems ≡ false
      → heap.krealloc vec.memory wanted ≡ none
      → Resized
  unfolding Resized resize
  refused test e = inr (e, rw (test, final, whole, e))

  resized : Resized
  resized = elim (Bool-cases (ltb (add64 vec.t_elems 1) vec.tm_elems)) [
    | inl test ↦ in_place test
    | inr test ↦ elim (Option-cases (heap.krealloc vec.memory wanted)) [
      | inl e ↦ refused test e
      | inr (es, e) ↦ grown es test e
    ]
  ]

  -- vector_push after a resize that gave room.
  Appended : Elem → Run (ℤ × Vector) → Type 0
  Appended elem out =
      (vec' : Vector) × (out ≡ ok (pos (length xs), vec'))
      × Holds vec' (xs ++ (elem ∷ []))
      × (vec'.t_reserved_elements ≡ vec.t_reserved_elements)

  appended :
      (elem : Elem) (vec' : Vector)
      → resize heap vec 1 ≡ (pos 0, vec')
      → Roomy vec vec' xs
      → Appended elem (push heap vec elem)
  unfolding Appended push
  appended elem vec' r roomy =
      let after =
        λ (n : ℕ). record vec' { memory = some (xs ++ (elem ∷ roomy.spare)); t_elems = n } in
      (
        after (length xs + 1),
        rw
            (
              r,
              roomy.layout,
              roomy.counted,
              to_int32-small (length xs) few,
              store-prefix xs roomy.spare roomy.next elem,
            )
            (ap (λ n. ok (pos (length xs), after n)) (omega (arith, fits))),
        record {
          spare = roomy.spare;
          layout = sym (append_assoc xs (elem ∷ []) roomy.spare);
          counted = longer;
          room = omega (arith, roomy.room, longer);
          small = omega (arith, fits);
          positive = omega (arith, holds.positive, roomy.same_size);
          sized = omega (arith, holds.sized, roomy.same_size);
        },
        roomy.reserved,
      )
    where
      longer : length xs + 1 ≡ length (xs ++ (elem ∷ []))
      longer = omega (arith, length-append xs (elem ∷ []))

  -- What vector_push answers: it appends, or krealloc refused and the memory is given up.
  unfoldable pub Pushed : Elem → Run (ℤ × Vector) → Type 0
  unfolding Appended
  Pushed elem out =
      Appended elem out
      ⊎ ((heap.krealloc vec.memory wanted ≡ none)
          × (out ≡ ok (neg e_nomem, record vec { memory = none })))

  -- vector_push on a vector that holds `xs`, fewer than 2^31 elements of 1 to 2^31 - 1 bytes each, where neither the
  -- number of elements to ask memory for nor its bytes wrap, returns the index `length xs` and a vector that holds
  -- `xs` and then the element; only where krealloc refuses does it return -ENOMEM, and then the vector's memory is
  -- NULL.
  pub push-Pushed : (elem : Elem) → Pushed elem (push heap vec elem)
  unfolding Pushed Resized push
  push-Pushed elem = elim resized [
    | inl (vec', r, roomy) ↦ inl (appended elem vec' r roomy)
    | inr (e, r) ↦ inr (e, rw r)
  ]

  -- Where vector_push has to grow the memory and krealloc refuses, it returns -ENOMEM and keeps the
  -- count, and vector_at of any index below the count then faults.
  pub at-refused :
      (elem : Elem) (i size : ℕ)
      → heap.krealloc vec.memory wanted ≡ none
      → vec.tm_elems ≤ length xs + 1
      → i < length xs
      → vec.e_size ≤ size
      → (vec' : Vector) × (push heap vec elem ≡ ok (neg e_nomem, vec'))
        × (vec'.t_elems ≡ length xs)
        × (at vec' i false size ≡ fault)
  unfolding push resize at
  at-refused elem i size e full lt enough =
      let test : ltb (add64 vec.t_elems 1) vec.tm_elems ≡ false =
        ground (arith, holds.counted, holds.small, fits) in
      let big : ltb size vec.e_size ≡ false = ground arith in
      let inside : ltb i vec.t_elems ≡ true = ground (arith, holds.counted) in
      (record vec { memory = none }, rw (test, final, whole, e), holds.counted, rw (big, inside))
