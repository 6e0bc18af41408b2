-- ===== src/Vector/Tests.antt =====
-- Runs of the vector, and the theorems about it at concrete vectors.
use vi_os.Prelude.{
  ℕ, ◌<◌, ◌≡◌, refl, true, false, List, [], ◌∷◌, none, some, ltb, arith, length, ok, pos, get_elem?,
  suc, zero, ◌∙◌, ap,
}
use mathlib.Core.List.{Perm}
use vi_os.Vector.{Vector, Elem, cells, Allocator, push, pop_element, same_bytes}
use vi_os.Vector.Bubble.{Reorder, reorder}
use vi_os.Vector.Contents.{Holds}
use vi_os.Vector.Push.{Pushed, push-Pushed}
use vi_os.Vector.Remove.{pop_element-present}
use vi_os.Vector.Sort.{IsOrder, Sorted}
use vi_os.Vector.Reorder.{reorder-Sorted}

-- krealloc that always refuses, and one that pads the old cells with empty ones.
refusing : Allocator
refusing = record { krealloc = λ m n. none; grants = λ m n es e. cc; keeps = λ m n es e. cc }

abbrev pad : ℕ → List Elem → List Elem
pad zero es = []
pad (suc n) [] = [] ∷ pad n []
pad (suc n) (e ∷ es) = e ∷ pad n es

length-pad : (n : ℕ) (es : List Elem) → length (pad n es) ≡ n
length-pad zero es = refl
length-pad (suc n) [] = ap suc (length-pad n [])
length-pad (suc n) (e ∷ es) = ap suc (length-pad n es)

pad-keeps :
    (n : ℕ) (es : List Elem) (i : ℕ)
    → i < length es
    → i < n
    → get_elem? (pad n es) i ≡ get_elem? es i
pad-keeps zero es i h lt = absurd (omega arith)
pad-keeps (suc n) [] i h lt = absurd (omega arith)
pad-keeps (suc n) (e ∷ es) zero h lt = refl
pad-keeps (suc n) (e ∷ es) (suc i) h lt = pad-keeps n es i (omega arith) (omega arith)

padding : Allocator
padding = record {
  krealloc = λ m n. some (pad n (cells m));
  grants = λ m n es e. ap length (cc e) ∙ length-pad n (cells m);
  keeps = λ m n es e i h lt. cc (e, pad-keeps n (cells m) i h lt);
}

-- Elements of one byte, two of them, and no cell to spare but one.
abbrev pair : Vector
pair = record {
  memory = some ((9 ∷ []) ∷ (4 ∷ []) ∷ (0 ∷ []) ∷ []);
  flags = 0;
  e_size = 1;
  t_elems = 2;
  tm_elems = 3;
  t_reserved_elements = 5;
}

abbrev two : List Elem
two = (9 ∷ []) ∷ (4 ∷ []) ∷ []

pair-Holds : Holds pair two
pair-Holds = record {
  spare = (0 ∷ []) ∷ [];
  layout = refl;
  counted = refl;
  room = omega arith;
  small = omega arith;
  positive = omega arith;
  sized = omega arith;
}

-- The order by the first byte.
abbrev greater : Reorder
greater [] b = false
greater (x ∷ _) [] = true
greater (x ∷ _) (y ∷ _) = ltb y x

greater-IsOrder : IsOrder greater
greater-IsOrder = record { asym = asym; trans = trans }
  where
    asym : (a b : Elem) → greater a b ≡ true → greater b a ≡ false
    asym [] b h = cc h
    asym (x ∷ a) [] h = refl
    asym (x ∷ a) (y ∷ b) h = ground arith

    trans : (a b c : Elem) → greater a b ≡ false → greater b c ≡ false → greater a c ≡ false
    trans [] b c h k = refl
    trans (x ∷ a) [] c h k = cc h
    trans (x ∷ a) (y ∷ b) [] h k = cc k
    trans (x ∷ a) (y ∷ b) (z ∷ c) h k = ground arith

sorts :
    reorder pair (some greater) true
    ≡ ok (record pair { memory = some ((4 ∷ []) ∷ (9 ∷ []) ∷ (0 ∷ []) ∷ []) })
unfolding reorder
sorts = refl

push-Pushed_example :
    Pushed padding pair two pair-Holds
      (omega arith)
      (omega arith)
      (omega arith)
      (7 ∷ [])
      (push padding pair (7 ∷ []))
push-Pushed_example =
    push-Pushed padding pair two pair-Holds (omega arith) (omega arith) (omega arith) (7 ∷ [])

pop_element-present_example :
    (vec' : Vector) × (pop_element pair (4 ∷ []) 1 true ≡ ok (pos 0, vec'))
    × Holds vec' ((9 ∷ []) ∷ [])
unfolding same_bytes
pop_element-present_example =
    pop_element-present pair (4 ∷ []) ((9 ∷ []) ∷ []) [] (omega arith) pair-Holds (refl, tt)

reorder-Sorted_example :
    (vec' : Vector) × (ys : List Elem) × (reorder pair (some greater) true ≡ ok vec')
    × Holds vec' ys
    × Perm two ys
    × Sorted greater ys
reorder-Sorted_example = reorder-Sorted greater pair two greater-IsOrder (omega arith) pair-Holds
