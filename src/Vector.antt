-- ===== src/Vector.antt =====
-- The growing array of ViOS64Bit/src/lib/vector/vector.c and vector.h. The memory is seen in cells of one
-- element; an element has fewer than 2^31 bytes, as memcpy takes its length as an `int`.
pub mod Bubble
pub mod Contents
pub mod Push
pub mod Remove
pub mod Reorder
pub mod Sort
mod Tests
use vi_os.Prelude.{
  ℕ, zero, suc, ◌+◌, ◌-◌, ◌<◌, ◌≡◌, Bool, true, false, ◌&&◌, ◌||◌, not, List, [], ◌∷◌, ◌++◌, Option,
  none, some, ltb, leb, ◌==◌, if◌then◌else◌, length, get_elem?, replicate, take, drop, to_int32,
  to_size, mul64, ◌/◌, ◌%◌, ◌*◌, Run, ok, fault, ◌>>=◌, load, store, ℤ, pos, neg, negsuc,
  is_negative, add64, sub64,
}
use vi_os.Config.{e_invarg, e_nomem, e_io}

-- The bytes of one element, and an array of elements; `none` is NULL.
abbrev pub Elem : Type 0
Elem = List ℕ

abbrev pub Cells : Type 0
Cells = Option (List Elem)

-- The cells of a block of memory.
abbrev pub cells : Cells → List Elem
cells none = []
cells (some es) = es

-- What vector.c asks of krealloc: the new size is given in whole elements, and `none` is a refusal.
pub record Allocator : Type 0 where
  pub krealloc : Cells → ℕ → Cells
  pub grants : (m : Cells) (n : ℕ) (es : List Elem) → krealloc m n ≡ some es → length es ≡ n
  pub keeps :
      (m : Cells) (n : ℕ) (es : List Elem)
      → krealloc m n ≡ some es
      → (i : ℕ) → i < length (cells m)
      → i < n
      → get_elem? es i ≡ get_elem? (cells m) i

-- `struct vector`, its memory as an array of elements of `e_size` bytes.
pub record Vector : Type 0 where
  pub memory : Cells
  pub flags : ℕ
  pub e_size : ℕ
  pub t_elems : ℕ
  pub tm_elems : ℕ
  pub t_reserved_elements : ℕ

pub valid_bounds : Vector → ℕ → ℤ
valid_bounds vec index = if ltb index vec.t_elems then pos 0 else neg e_invarg

-- kpzalloc, the allocation of the structure, panics rather than fail.
pub new : ℕ → ℕ → ℕ → Vector
new element_size total_reserved_elements_per_resize flags = record {
  memory = none;
  flags = flags;
  e_size = element_size;
  t_elems = 0;
  tm_elems = 0;
  t_reserved_elements = total_reserved_elements_per_resize;
}

-- `vec->memory[index]` as a value and as the target of a copy.
pub read_cell : Vector → ℕ → Run Elem
read_cell vec index = load (cells vec.memory) index

pub write_cell : Vector → ℕ → Elem → Run Vector
write_cell vec index elem =
    store (cells vec.memory) index elem >>= λ es. ok (record vec { memory = some es })

module _ (heap : Allocator) where
  pub resize : Vector → ℕ → ℤ × Vector
  resize vec total_needed_elements =
      let total_elements_required = add64 vec.t_elems total_needed_elements in
      let final = add64 vec.t_reserved_elements total_elements_required in
      let total_bytes_required = mul64 final vec.e_size in
      if ltb total_elements_required vec.tm_elems
      then (pos 0, vec)
      else elim (heap.krealloc vec.memory (total_bytes_required / vec.e_size)) [
        | none ↦ (neg e_nomem, record vec { memory = none })
        | some es ↦ (pos 0, record vec { memory = some es; tm_elems = final })
      ]

  pub push : Vector → Elem → Run (ℤ × Vector)
  unfolding resize write_cell to_int32
  push vec elem =
      let (res, vec') = resize vec 1 in
      if is_negative res
      then ok (res, vec')
      else (write_cell vec' vec'.t_elems elem >>= λ vec''.
          ok (to_int32 vec'.t_elems, record vec'' { t_elems = add64 vec'.t_elems 1 }))

-- The `int` index counts as a `size_t` again once it is used.
unfoldable pub overwrite : Vector → ℤ → Elem → ℕ → Run (ℤ × Vector)
unfolding valid_bounds write_cell
overwrite vec index elem elem_size =
    let res = valid_bounds vec (to_size index) in
    if is_negative res
    then ok (res, vec)
    else (if ltb elem_size vec.e_size
        then ok (neg e_invarg, vec)
        else (write_cell vec (to_size index) elem >>= λ vec'. ok (pos 0, vec')))

pub pop : Vector → ℤ × Vector
pop vec =
    if vec.t_elems == 0 then (neg e_io, vec) else (pos 0, record vec { t_elems = vec.t_elems - 1 })

-- The status, and what stands at `data_out` afterwards. Where `data_out` is NULL, the error path
-- writes zeros through it.
unfoldable pub at : Vector → ℕ → Bool → ℕ → Run (ℤ × Elem)
unfolding valid_bounds read_cell
at vec index data_out_is_null size =
    if ltb size vec.e_size
    then (if data_out_is_null then fault else ok (neg e_invarg, replicate size 0))
    else (if data_out_is_null
        then fault
        else (if is_negative (valid_bounds vec index)
            then ok (neg e_invarg, replicate size 0)
            else (read_cell vec index >>= λ elem. ok (pos 0, elem))))

pub back : Vector → Bool → ℕ → Run (ℤ × Elem)
unfolding at
back vec data_out_is_null size = at vec (sub64 vec.t_elems 1) data_out_is_null size

unfoldable pub count : Vector → ℕ
count vec = vec.t_elems

-- The first `count` bytes of two elements are the same.
pub same_bytes : ℕ → Elem → Elem → Bool
same_bytes zero xs ys = true
same_bytes (suc count) [] [] = true
same_bytes (suc count) (a ∷ xs) (b ∷ ys) = a == b && same_bytes count xs ys
same_bytes (suc count) [] (_ ∷ _) = false
same_bytes (suc count) (_ ∷ _) [] = false

-- memcmp of two elements is 0; a negative count compares nothing.
pub memcmp_is_zero : ℤ → Elem → Elem → Bool
unfolding same_bytes
memcmp_is_zero (pos count) xs ys = same_bytes count xs ys
memcmp_is_zero (negsuc _) xs ys = true

-- The search for `mem_val`: the index, -1 where it is not found, or the error of a read.
pub find_loop : Vector → Elem → ℕ → ℕ → Run (ℤ × ℤ)
unfolding at memcmp_is_zero to_int32
find_loop vec mem_val zero i = ok (pos 0, neg 1)
find_loop vec mem_val (suc rounds) i = do
  (res, tmp_mem) ← at vec i false vec.e_size
  let rest = find_loop vec mem_val rounds (i + 1)
  if is_negative res
      then ok (res, neg 1)
      else (if memcmp_is_zero (to_int32 vec.e_size) tmp_mem mem_val then ok (res, pos i) else rest)

-- The copy of `rounds` whole elements from `i + 1` to `i`, the lowest first.
pub shift_loop : ℕ → ℕ → Vector → Run Vector
unfolding read_cell write_cell
shift_loop zero i vec = ok vec
shift_loop (suc rounds) i vec = do
  elem ← read_cell vec (i + 1)
  vec' ← write_cell vec i elem
  shift_loop rounds (i + 1) vec'

-- The copy of the first bytes of the element `i + 1` to the element `i`.
pub shift_part : ℕ → ℕ → Vector → Run Vector
unfolding read_cell write_cell
shift_part zero i vec = ok vec
shift_part (suc count) i vec = do
  next ← read_cell vec (i + 1)
  elem ← read_cell vec i
  write_cell vec i (take (suc count) next ++ drop (suc count) elem)

-- memcpy of `len` bytes to the element `index` from the one behind it. The loop of memcpy with a negative length
-- does not end before its counter overflows.
pub memcpy_down : Vector → ℕ → ℤ → Run Vector
unfolding shift_loop shift_part
memcpy_down vec index (negsuc _) = fault
memcpy_down vec index (pos len) = shift_loop (len / vec.e_size) index vec >>= λ vec'.
    shift_part (len % vec.e_size) (index + len / vec.e_size) vec'

-- `granted` says whether kzalloc gives the temporary buffer.
pub pop_element : Vector → Elem → ℕ → Bool → Run (ℤ × Vector)
unfolding find_loop memcpy_down to_int32 pop count
pop_element vec mem_val size granted =
    if not (size == vec.e_size)
    then ok (neg e_invarg, vec)
    else (if not granted
        then ok (neg e_nomem, vec)
        else (find_loop vec mem_val (count vec) 0 >>= λ (res, index).
            if is_negative res then ok (res, vec) else remove index))
  where
    remove : ℤ → Run (ℤ × Vector)
    remove (negsuc _) = ok (neg e_io, vec)
    remove (pos i) =
        if i == sub64 (count vec) 1
        then ok (pop vec)
        else (memcpy_down vec i (to_int32 (mul64 (vec.t_elems - i - 1) vec.e_size)) >>= λ vec'.
            ok (pos 0, record vec' { t_elems = vec.t_elems - 1 }))
