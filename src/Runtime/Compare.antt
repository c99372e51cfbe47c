-- ===== src/Runtime/Compare.antt =====
-- Equality, identity, order and membership of pkg/runtime/compare.go, over the heap of arrays.
-- `equal` descends into arrays with fuel, none where it runs out: an array that held itself would
-- never be done in the source either. Compare/Total says how much is enough.
pub mod Symmetry
pub mod Total
pub mod Ordering
use quill_template_engine.Prelude.{
  ℕ, zero, suc, Bool, true, false, not, ◌&&◌, Option, none, some, List, [], ◌∷◌, Bytes, bytes_eq,
  bytes_beq, bytes_ltb, ◌==◌, if◌then◌else◌, length, get_elem?, is_some,
}
use quill_template_engine.Prelude.Assoc.{Assoc, lookup}
use quill_template_engine.Prelude.Int.{ℤ, int_beq}
use quill_template_engine.Errors.{ErrorKind, kind_comparison, Result, ok, err}
use quill_template_engine.Runtime.Value.{
  Value, null, bool, int, float, str, arr, obj, safe, normalize_safe, or_null,
}
use quill_template_engine.Runtime.Array.{Array, len}
use quill_template_engine.Runtime.Heap.{Heap}
use quill_template_engine.Runtime.Host.{Host}
use quill_template_engine.Runtime.Text.{to_text, contains_string}

pub data Sign : Type 0 where
  less level more : Sign

abbrev pub bool_beq : Bool → Bool → Bool
bool_beq true b = b
bool_beq false b = not b

abbrev pub address_beq : Option ℕ → Option ℕ → Bool
address_beq none none = true
address_beq (some x) (some y) = x == y
address_beq _ _ = false

abbrev pub sign_of : Bool → Bool → Sign
sign_of below above = if below then less else if above then more else level

module _ {F O : Type 0} where
  -- The loop over the two slices of keys, which have one length; `same` is the recursive Equal.
  unfoldable pub equal_entries :
      (Value F O → Value F O → Option Bool)
      → List Bytes
      → List Bytes
      → Assoc Bytes (Value F O)
      → Assoc Bytes (Value F O)
      → Option Bool
  equal_entries same [] bs va vb = some true
  equal_entries same (ka ∷ ks) [] va vb = some true
  equal_entries same (ka ∷ ks) (kb ∷ bs) va vb =
      let rest = equal_entries same ks bs va vb in
      if not (bytes_beq ka kb)
      then some false
      else elim (same (or_null (lookup ka va)) (or_null (lookup kb vb))) [
        | none ↦ none
        | some false ↦ some false
        | some true ↦ rest
      ]

  unfoldable pub equal_cells :
      (Value F O → Value F O → Option Bool) → Option (Array F O) → Option (Array F O) → Option Bool
  unfolding equal_entries len
  equal_cells same (some a) (some b) =
      if not (len a == len b) then some false else equal_entries same a.keys b.keys a.vals b.vals
  equal_cells same _ _ = some false

  unfoldable pub array_equal :
      (Value F O → Value F O → Option Bool) → Option ℕ → Option ℕ → Heap F O → Option Bool
  unfolding equal_cells
  array_equal same none none h = some true
  array_equal same (some x) (some y) h = equal_cells same (get_elem? h x) (get_elem? h y)
  array_equal same _ _ h = some false

  unfoldable pub is_numeric : Value F O → Bool
  is_numeric (int i) = true
  is_numeric (float f) = true
  is_numeric _ = false

module _ {F O : Type 0} (host : Host F O) where
  -- The Equaler hook of the left object, or the identity of the two.
  unfoldable pub object_equal : O → O → Bool
  object_equal o p = elim (host.equaler o) [ some eq ↦ eq (obj p) | none ↦ host.same_object o p ]

  -- toFloat(a) == toFloat(b)
  unfoldable pub numeric_equal : F → F → Bool
  numeric_equal x y = host.float_eq x y

  -- On two values with Safe taken off; `same` compares the elements of arrays.
  unfoldable pub equal_kinds :
      (Value F O → Value F O → Option Bool) → Value F O → Value F O → Heap F O → Option Bool
  unfolding array_equal object_equal numeric_equal
  equal_kinds same null null h = some true
  equal_kinds same (bool a) (bool b) h = some (bool_beq a b)
  equal_kinds same (int a) (int b) h = some (int_beq a b)
  equal_kinds same (int a) (float b) h = some (numeric_equal (host.float_of_int a) b)
  equal_kinds same (float a) (int b) h = some (numeric_equal a (host.float_of_int b))
  equal_kinds same (float a) (float b) h = some (host.float_eq a b)
  equal_kinds same (str a) (str b) h = some (bytes_beq a b)
  equal_kinds same (arr a) (arr b) h = array_equal same a b h
  equal_kinds same (obj a) (obj b) h = some (object_equal a b)
  equal_kinds same _ _ h = some false

  unfoldable pub equal : ℕ → Heap F O → Value F O → Value F O → Option Bool
  unfolding equal_kinds
  equal zero h a b = none
  equal (suc fuel) h a b = equal_kinds (equal fuel h) (normalize_safe a) (normalize_safe b) h

  -- Identity: no normalisation, no numeric bridge, arrays and objects by pointer.
  unfoldable pub same_value : Value F O → Value F O → Bool
  same_value null null = true
  same_value (bool a) (bool b) = bool_beq a b
  same_value (int a) (int b) = int_beq a b
  same_value (float a) (float b) = host.float_eq a b
  same_value (str a) (str b) = bytes_beq a b
  same_value (safe a) (safe b) = bytes_beq a b
  same_value (arr a) (arr b) = address_beq a b
  same_value (obj a) (obj b) = host.same_object a b
  same_value _ _ = false

  unfoldable pub order_floats : F → F → Result Sign
  order_floats x y = ok (sign_of (host.float_lt x y) (host.float_lt y x))

  unfoldable pub order_kinds : Value F O → Value F O → Result Sign
  unfolding order_floats
  order_kinds (int a) (int b) = order_floats (host.float_of_int a) (host.float_of_int b)
  order_kinds (int a) (float b) = order_floats (host.float_of_int a) b
  order_kinds (float a) (int b) = order_floats a (host.float_of_int b)
  order_kinds (float a) (float b) = order_floats a b
  order_kinds (str a) (str b) = ok (sign_of (bytes_ltb a b) (bytes_ltb b a))
  order_kinds _ _ = err kind_comparison

  unfoldable pub order : Value F O → Value F O → Result Sign
  unfolding order_kinds
  order a b = order_kinds (normalize_safe a) (normalize_safe b)

  -- The loop of `In` over the elements of an array.
  unfoldable pub any_equal :
      ℕ → Heap F O → Value F O → List Bytes → Assoc Bytes (Value F O) → Option Bool
  unfolding equal
  any_equal fuel h x [] vals = some false
  any_equal fuel h x (enc ∷ encs) vals =
      let rest = any_equal fuel h x encs vals in
      elim (equal fuel h x (or_null (lookup enc vals))) [
        | none ↦ none
        | some true ↦ some true
        | some false ↦ rest
      ]

  abbrev in_text : Bytes → Result Bytes → Result (Option Bool)
  in_text s (ok needle) = ok (some (contains_string s needle))
  in_text s (err e) = err e

  unfoldable pub in_kinds : ℕ → Heap F O → Value F O → Value F O → Result (Option Bool)
  unfolding any_equal
  in_kinds fuel h x (arr none) = ok (some false)
  in_kinds fuel h x (arr (some y)) = elim (get_elem? h y) [
    | none ↦ ok (some false)
    | some a ↦ ok (any_equal fuel h x a.keys a.vals)
  ]
  in_kinds fuel h x (str s) = in_text s (to_text host x)
  in_kinds fuel h x haystack = err kind_comparison

  -- `x in haystack`
  unfoldable pub is_in : ℕ → Heap F O → Value F O → Value F O → Result (Option Bool)
  unfolding in_kinds
  is_in fuel h x haystack = in_kinds fuel h x (normalize_safe haystack)
