-- ===== src/Runtime/Array.antt =====
-- The ordered collection of pkg/runtime/array.go: an ordered slice of key encodings beside a map
-- from encodings to values. Methods return the new array; the pointer is in Runtime/Heap.
pub mod Slots
pub mod Order
pub mod Shape
use quill_template_engine.Prelude.{
  ℕ, zero, suc, ◌+◌, Bool, true, false, not, Option, none, some, List, [], ◌∷◌, ◌++◌, map, Bytes,
  bytes_eq, bytes_beq, if◌then◌else◌, length, get_elem?, is_some, ◌≡◌, refl,
}
use quill_template_engine.Prelude.Assoc.{Assoc, lookup, insert}
use quill_template_engine.Prelude.Int.{ℤ, pos}
use quill_template_engine.Runtime.Keys.{
  canon_int, canonicalize_string_key, is_canonical_int_key, fast_canon_int,
}
use quill_template_engine.Runtime.Value.{Value, null, int, str, as_str, or_null, Pair}

pub record Array (F O : Type 0) : Type 0 where
  pub keys : List Bytes
  pub vals : Assoc Bytes (Value F O)
  pub shared : Bool

unfoldable pub is_list_from : ℕ → List Bytes → Bool
is_list_from i [] = true
is_list_from i (enc ∷ encs) =
    if not (is_canonical_int_key enc)
    then false
    else if not (bytes_beq enc (canon_int (pos i)))
    then false
    else is_list_from (suc i) encs

module _ {F O : Type 0} where
  unfoldable pub new_array : Array F O
  new_array = record { keys = []; vals = []; shared = false }

  unfoldable pub len : Array F O → ℕ
  len a = length a.keys

  unfoldable pub set : Bytes → Value F O → Array F O → Array F O
  set enc v a = record a {
    keys = if is_some (lookup enc a.vals) then a.keys else a.keys ++ enc ∷ [];
    vals = insert enc v a.vals;
  }

  unfoldable pub set_int : ℤ → Value F O → Array F O → Array F O
  set_int k v a = set (canon_int k) v a

  unfoldable pub set_str : Bytes → Value F O → Array F O → Array F O
  set_str k v a = set (canonicalize_string_key k).0 v a

  -- Any key that is no Int is taken by its `s` field.
  unfoldable pub set_key : Value F O → Value F O → Array F O → Array F O
  unfolding set_int set_str
  set_key (int i) v a = set_int i v a
  set_key key v a = set_str (as_str key) v a

  unfoldable pub get_int : ℤ → Array F O → Option (Value F O)
  get_int k a = lookup (canon_int k) a.vals

  unfoldable pub get_str : Bytes → Array F O → Option (Value F O)
  get_str k a = lookup (canonicalize_string_key k).0 a.vals

  unfoldable pub get : Value F O → Array F O → Option (Value F O)
  unfolding get_int get_str
  get (int i) a = get_int i a
  get key a = get_str (as_str key) a

  -- `for i, v := range vals { a.SetInt(int64(i), v) }`
  unfoldable pub set_all_from : ℕ → List (Value F O) → Array F O → Array F O
  set_all_from i [] a = a
  set_all_from i (v ∷ vs) a = set_all_from (suc i) vs (set_int (pos i) v a)

  unfoldable pub new_list : List (Value F O) → Array F O
  unfolding set_all_from new_array
  new_list vals = set_all_from 0 vals new_array

  unfoldable pub key_value : Bytes → Value F O
  key_value enc = if is_canonical_int_key enc then int (fast_canon_int enc) else str enc

  unfoldable pub keys_of : Array F O → List (Value F O)
  keys_of a = map key_value a.keys

  unfoldable pub pair_of : Array F O → Bytes → Pair F O
  pair_of a enc = record { key = key_value enc; val = or_null (lookup enc a.vals) }

  -- An index past the end is a fault of the caller, here none.
  unfoldable pub pair_at : Array F O → ℕ → Option (Pair F O)
  unfolding pair_of
  pair_at a i = elim (get_elem? a.keys i) [ none ↦ none | some enc ↦ some (pair_of a enc) ]

  unfoldable pub append_pairs : Array F O → List Bytes → List (Pair F O) → List (Pair F O)
  unfolding pair_of
  append_pairs a [] out = out
  append_pairs a (enc ∷ encs) out = append_pairs a encs (out ++ pair_of a enc ∷ [])

  unfoldable pub pairs : Array F O → List (Pair F O)
  unfolding append_pairs
  pairs a = append_pairs a a.keys []

  -- `buf` is cut to length zero and appended to.
  unfoldable pub pairs_into : Array F O → List (Pair F O) → List (Pair F O)
  unfolding append_pairs
  pairs_into a buf = append_pairs a a.keys []

  unfoldable pub is_list : Array F O → Bool
  unfolding is_list_from
  is_list a = is_list_from 0 a.keys
