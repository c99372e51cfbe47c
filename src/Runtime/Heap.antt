-- ===== src/Runtime/Heap.antt =====
-- Arrays behind pointers, and the copy-on-write pair of pkg/runtime/array.go: `ShareValue` and `Own`.
-- The heap is the list of the arrays made so far and an address is a position in it, so an array made
-- now has the address `length h`. Cells are never freed.
pub mod Extends
pub mod Isolation
use quill_template_engine.Prelude.{
  ℕ, Bool, true, false, not, Option, none, some, List, [], ◌∷◌, ◌++◌, Bytes, if◌then◌else◌, length,
  get_elem?, set as set_elem,
}
use quill_template_engine.Prelude.Assoc.{Assoc}
use quill_template_engine.Runtime.Value.{Value, arr}
use quill_template_engine.Runtime.Array.{Array}

module _ (F O : Type 0) where
  abbrev pub Heap : Type 0
  Heap = List (Array F O)

module _ {F O : Type 0} where
  -- `v.arr.shared = true` at an address
  unfoldable pub mark_shared : ℕ → Heap F O → Heap F O
  mark_shared x h = elim (get_elem? h x) [
    | none ↦ h
    | some a ↦ set_elem h x (record a { shared = true })
  ]

  abbrev pub is_shared_at : ℕ → Heap F O → Bool
  is_shared_at x h = elim (get_elem? h x) [ none ↦ false | some a ↦ a.shared ]

  -- The bind primitive; a cell that is marked already is not stored again.
  unfoldable pub share_value : Value F O → Heap F O → Value F O × Heap F O
  unfolding mark_shared
  share_value (arr (some x)) h =
      if not (is_shared_at x h) then (arr (some x), mark_shared x h) else (arr (some x), h)
  share_value v h = (v, h)

  -- The marks that the copy loop of cloneShallowCOW leaves on the elements.
  unfoldable pub mark_element : Value F O → Heap F O → Heap F O
  unfolding mark_shared
  mark_element (arr (some x)) h = mark_shared x h
  mark_element v h = h

  unfoldable pub mark_elements : Assoc Bytes (Value F O) → Heap F O → Heap F O
  unfolding mark_element
  mark_elements [] h = h
  mark_elements ((k, v) ∷ vals) h = mark_elements vals (mark_element v h)

  -- The new array's address, and the heap with it.
  unfoldable pub clone_shallow_cow : Array F O → Heap F O → ℕ × Heap F O
  unfolding mark_elements
  clone_shallow_cow a h =
      let marked = mark_elements a.vals h in
      (length marked, marked ++ record { keys = a.keys; vals = a.vals; shared = false } ∷ [])

  -- `Own` of the array at an address: `Arr(v.arr.cloneShallowCOW()), true` or `v, false`.
  unfoldable pub own_array : ℕ → Option (Array F O) → Heap F O → Value F O × Bool × Heap F O
  unfolding clone_shallow_cow
  own_array x none h = (arr (some x), false, h)
  own_array x (some a) h =
      if a.shared
      then (let (y, h') = clone_shallow_cow a h in (arr (some y), true, h'))
      else (arr (some x), false, h)

  unfoldable pub own : Value F O → Heap F O → Value F O × Bool × Heap F O
  unfolding own_array
  own (arr (some x)) h = own_array x (get_elem? h x) h
  own v h = (v, false, h)
