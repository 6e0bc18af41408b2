-- ===== src/Vector/Bubble.antt =====
-- vector_reorder of ViOS64Bit/src/lib/vector/vector.c: a bubble sort by the caller's comparison.
use vi_os.Prelude.{
  ℕ, zero, suc, ◌+◌, ◌-◌, Bool, true, false, ◌||◌, not, Option, none, some, ltb, if◌then◌else◌, Run,
  ok, ◌>>=◌, is_negative, to_int32,
}
use vi_os.Vector.{Vector, Elem, at, overwrite, count}

-- A comparison as the code uses it: whether `reorder_function(a, b) > 0`.
abbrev pub Reorder : Type 0
Reorder = Elem → Elem → Bool

-- One round of the inner loop; `false` leaves for `cleanup`.
unfoldable pub compare_swap : Reorder → Vector → ℕ → Run (Bool × Vector)
unfolding at overwrite to_int32
compare_swap greater vec j = do
  (res, elem1) ← at vec j false vec.e_size
  if is_negative res then ok (false, vec) else (do
    (res, elem2) ← at vec (j + 1) false vec.e_size
    if is_negative res
        then ok (false, vec)
        else (if greater elem1 elem2
            then (do
              (res, vec) ← overwrite vec (to_int32 j) elem2 vec.e_size
              if is_negative res then ok (false, vec) else (do
                (res, vec) ← overwrite vec (to_int32 (j + 1)) elem1 vec.e_size
                ok (not (is_negative res), vec)))
            else ok (true, vec)))

unfoldable pub inner_loop : Reorder → ℕ → ℕ → Vector → Run (Bool × Vector)
unfolding compare_swap
inner_loop greater zero j vec = ok (true, vec)
inner_loop greater (suc rounds) j vec = do
  (going, vec) ← compare_swap greater vec j
  let rest = inner_loop greater rounds (j + 1) vec
  if going then rest else ok (false, vec)

-- With `rounds` rounds of the outer loop left, the inner loop makes as many.
unfoldable pub outer_loop : Reorder → ℕ → Vector → Run Vector
unfolding inner_loop
outer_loop greater zero vec = ok vec
outer_loop greater (suc rounds) vec = do
  (going, vec) ← inner_loop greater (suc rounds) 0 vec
  let rest = outer_loop greater rounds vec
  if going then rest else ok vec

-- `granted` says whether kzalloc gives both temporary buffers; `none` is a NULL function.
unfoldable pub reorder : Vector → Option Reorder → Bool → Run Vector
unfolding outer_loop count
reorder vec none granted = ok vec
reorder vec (some greater) granted =
    if ltb (count vec) 2 || not granted then ok vec else outer_loop greater (count vec - 1) vec
