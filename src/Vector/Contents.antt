-- ===== src/Vector/Contents.antt =====
-- The elements that a vector of ViOS64Bit/src/lib/vector/vector.c holds, and reading and writing them.
use vi_os.Prelude.{
  ℕ, ◌+◌, ◌-◌, ◌<◌, ◌≤◌, ◌≡◌, refl, ap, sym, ◌∙◌, true, false, List, [], ◌∷◌, ◌++◌, append_assoc,
  some, arith, length, length-append, ok, ◌>>=◌, load, store, load-prefix, store-prefix, ltb, pos,
  neg, replicate, ◌^◌, ◌==◌, lt→ltb, sub64,
}
use vi_os.Config.{e_invarg}
use vi_os.Vector.{
  Vector, Elem, cells, valid_bounds, read_cell, write_cell, overwrite, pop, at, back,
}

-- The vector holds the elements `xs`, of 1 to 2^31 - 1 bytes each; the memory may have cells to spare.
pub record Holds (vec : Vector) (xs : List Elem) : Type 0 where
  pub spare : List Elem
  pub layout : cells vec.memory ≡ xs ++ spare
  pub counted : vec.t_elems ≡ length xs
  pub room : vec.tm_elems ≡ length xs + length spare
  pub small : vec.t_elems < 2 ^ 64
  pub positive : 0 < vec.e_size
  pub sized : vec.e_size < 2 ^ 31

module _ (vec : Vector) (front back : List Elem) (x : Elem) (i : ℕ)
    (e : cells vec.memory ≡ front ++ (x ∷ back)) (here : i ≡ length front) where
  pub read_cell_lem : read_cell vec i ≡ ok x
  unfolding read_cell
  read_cell_lem = rw (e, here) (load-prefix front back x)

  pub write_cell_lem :
      (v : Elem) → write_cell vec i v ≡ ok (record vec { memory = some (front ++ (v ∷ back)) })
  unfolding write_cell
  write_cell_lem v =
      ap (λ c. store c i v >>= λ es. ok (record vec { memory = some es })) e
      ∙ rw here (rw (store-prefix front back x v))

module _ (vec : Vector) (front back : List Elem) (x : Elem)
    (holds : Holds vec (front ++ (x ∷ back))) where
  split : cells vec.memory ≡ front ++ (x ∷ (back ++ holds.spare))
  split = holds.layout ∙ append_assoc front (x ∷ back) holds.spare

  inside : ltb (length front) vec.t_elems ≡ true
  inside = lt→ltb _ _ (omega (arith, holds.counted, length-append front (x ∷ back)))

  -- vector_at of an index in range, with room for an element, returns 0 and the element.
  pub at_lem : (size : ℕ) → vec.e_size ≤ size → at vec (length front) false size ≡ ok (pos 0, x)
  unfolding at valid_bounds
  at_lem size fits =
      let enough : ltb size vec.e_size ≡ false = ground arith in
      let loaded : load (cells vec.memory) (length front) ≡ ok x =
        ap (λ c. load c (length front)) split ∙ load-prefix front (back ++ holds.spare) x in
      rw (enough, inside, loaded)

  -- vector_overwrite of an index in range replaces that element and no other.
  pub overwrite_lem :
      (v : Elem) (size : ℕ)
      → vec.e_size ≤ size
      → (vec' : Vector) × (overwrite vec (pos (length front)) v size ≡ ok (pos 0, vec'))
        × Holds vec' (front ++ (v ∷ back))
        × (vec'.e_size ≡ vec.e_size)
  unfolding overwrite valid_bounds
  overwrite_lem v size fits =
      let enough : ltb size vec.e_size ≡ false = ground arith in
      let stored : store (cells vec.memory) (length front) v
          ≡ ok (front ++ (v ∷ (back ++ holds.spare))) =
        ap (λ c. store c (length front) v) split ∙ store-prefix front (back ++ holds.spare) x v in
      (
        record vec { memory = some (front ++ (v ∷ (back ++ holds.spare))) },
        rw (inside, enough, stored),
        record {
          spare = holds.spare;
          layout = sym (append_assoc front (v ∷ back) holds.spare);
          counted = holds.counted ∙ same_length;
          room = holds.room ∙ ap (λ n. n + length holds.spare) same_length;
          small = holds.small;
          positive = holds.positive;
          sized = holds.sized;
        },
        refl,
      )
    where
      same_length : length (front ++ (x ∷ back)) ≡ length (front ++ (v ∷ back))
      same_length = length-append front (x ∷ back) ∙ sym (length-append front (v ∷ back))

-- vector_at of an index out of range returns -EINVARG and zeros.
pub at-outside :
    (vec : Vector) (xs : List Elem) (i size : ℕ)
    → Holds vec xs
    → length xs ≤ i
    → at vec i false size ≡ ok (neg e_invarg, replicate size 0)
unfolding at
at-outside vec xs i size holds h =
    let out : ltb i vec.t_elems ≡ false = ground (arith, holds.counted) in ground (arith, out)

-- vector_back of a vector that is not empty, with room for an element, returns 0 and the last one.
pub back-last :
    (vec : Vector) (front : List Elem) (x : Elem) (size : ℕ)
    → Holds vec (front ++ (x ∷ []))
    → vec.e_size ≤ size
    → back vec false size ≡ ok (pos 0, x)
unfolding back
back-last vec front x size holds fits =
    ap (λ i. at vec i false size) last ∙ at_lem vec front [] x holds size fits
  where
    last : sub64 vec.t_elems 1 ≡ length front
    last = omega (arith, holds.counted, holds.small, length-append front (x ∷ []))

pub back-empty :
    (vec : Vector) (size : ℕ)
    → Holds vec []
    → back vec false size ≡ ok (neg e_invarg, replicate size 0)
unfolding back
back-empty vec size holds = at-outside vec [] (sub64 vec.t_elems 1) size holds (omega arith)

-- vector_pop of a vector that is not empty returns 0, removes the last element and no other.
pub pop-last :
    (vec : Vector) (front : List Elem) (x : Elem)
    → Holds vec (front ++ (x ∷ []))
    → (vec' : Vector) × (pop vec ≡ (pos 0, vec')) × Holds vec' front
unfolding pop
pop-last vec front x holds =
    let some_left : (vec.t_elems == 0) ≡ false = ground (arith, longer, holds.counted) in
    (
      record vec { t_elems = vec.t_elems - 1 },
      rw some_left,
      record {
        spare = x ∷ holds.spare;
        layout = holds.layout ∙ append_assoc front (x ∷ []) holds.spare;
        counted = omega (arith, longer, holds.counted);
        room = omega (arith, longer, holds.room);
        small = omega (arith, holds.small);
        positive = holds.positive;
        sized = holds.sized;
      },
    )
  where
    longer : length (front ++ (x ∷ [])) ≡ length front + 1
    longer = omega (arith, length-append front (x ∷ []))
