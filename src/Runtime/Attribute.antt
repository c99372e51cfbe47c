-- ===== src/Runtime/Attribute.antt =====
-- Member access and assignment of pkg/runtime/attribute.go, over the heap of arrays.
pub mod Isolation
use quill_template_engine.Prelude.{
  ℕ, Bool, true, false, Option, none, some, Bytes, if◌then◌else◌, get_elem?, is_some,
  set as set_elem,
}
use quill_template_engine.Errors.{
  ErrorKind, kind_runtime, kind_undefined, kind_attribute, kind_key, Result, ok, err,
}
use quill_template_engine.Runtime.Value.{
  Value, null, bool, int, float, str, arr, obj, safe, as_str, kind, k_int, k_str,
}
use quill_template_engine.Runtime.Array.{Array, get, get_str, set_str, set_key}
use quill_template_engine.Runtime.Heap.{Heap}
use quill_template_engine.Runtime.Host.{Host}

pub data AccessKind : Type 0 where
  access_dot access_index : AccessKind

module _ {F O : Type 0} where
  -- A miss: Null under suppression, else the error.
  unfoldable pub absent : Bool → ErrorKind → Result (Value F O)
  absent allow_absent e = if allow_absent then ok null else err e

  abbrev pub found_or_absent : Bool → Option (Value F O) → Result (Value F O)
  found_or_absent allow_absent none = absent allow_absent kind_undefined
  found_or_absent allow_absent (some v) = ok v

  -- The keys that may subscript.
  unfoldable pub is_key : Value F O → Bool
  is_key (int i) = true
  is_key (str s) = true
  is_key _ = false

module _ {F O : Type 0} (host : Host F O) where
  open host use {get_field, indexable, field_setter, index_setter}

  unfoldable pub get_dot : Value F O → Value F O → Bool → Heap F O → Result (Value F O)
  unfolding absent
  get_dot (arr none) key allow h = absent allow kind_undefined
  get_dot (arr (some x)) key allow h = elim (get_elem? h x) [
    | none ↦ absent allow kind_undefined
    | some a ↦ found_or_absent allow (get_str (as_str key) a)
  ]
  get_dot (obj o) key allow h = found_or_absent allow (get_field o (as_str key))
  get_dot recv key allow h = err kind_attribute

  unfoldable pub get_index_of : Value F O → Value F O → Bool → Heap F O → Result (Value F O)
  unfolding absent
  get_index_of (arr none) key allow h = absent allow kind_undefined
  get_index_of (arr (some x)) key allow h = elim (get_elem? h x) [
    | none ↦ absent allow kind_undefined
    | some a ↦ found_or_absent allow (get key a)
  ]
  get_index_of (obj o) key allow h = elim (indexable o) [
    | none ↦ err kind_attribute
    | some ix ↦ found_or_absent allow (ix key)
  ]
  get_index_of recv key allow h = err kind_attribute

  unfoldable pub get_index : Value F O → Value F O → Bool → Heap F O → Result (Value F O)
  unfolding is_key get_index_of
  get_index recv key allow h = if is_key key then get_index_of recv key allow h else err kind_key

  unfoldable pub get_attribute :
      AccessKind → Value F O → Value F O → Bool → Heap F O → Result (Value F O)
  get_attribute access_dot recv key allow h = get_dot recv key allow h
  get_attribute access_index recv key allow h = get_index recv key allow h

  -- The host's answer to an assignment; the arrays stay as they are.
  abbrev pub answered : Option ErrorKind → Heap F O → Result (Heap F O)
  answered none h = ok h
  answered (some e) h = err e

  unfoldable pub set_member : Value F O → Bytes → Value F O → Heap F O → Result (Heap F O)
  set_member (arr none) name v h = err kind_runtime
  set_member (arr (some x)) name v h = elim (get_elem? h x) [
    | none ↦ err kind_runtime
    | some a ↦ ok (set_elem h x (set_str name v a))
  ]
  set_member (obj o) name v h = elim (field_setter o) [
    | none ↦ err kind_runtime
    | some fs ↦ answered (fs name v) h
  ]
  set_member recv name v h = err kind_runtime

  unfoldable pub set_index_of : Value F O → Value F O → Value F O → Heap F O → Result (Heap F O)
  set_index_of (arr none) key v h = err kind_runtime
  set_index_of (arr (some x)) key v h = elim (get_elem? h x) [
    | none ↦ err kind_runtime
    | some a ↦ ok (set_elem h x (set_key key v a))
  ]
  set_index_of (obj o) key v h = elim (index_setter o) [
    | none ↦ err kind_runtime
    | some is ↦ answered (is key v) h
  ]
  set_index_of recv key v h = err kind_runtime

  unfoldable pub set_index : Value F O → Value F O → Value F O → Heap F O → Result (Heap F O)
  unfolding is_key set_index_of
  set_index recv key v h = if is_key key then set_index_of recv key v h else err kind_key

  -- The presence test: no error on any receiver or key.
  unfoldable pub is_defined_in : AccessKind → Value F O → Array F O → Bool
  unfolding is_key
  is_defined_in access_dot key a = is_some (get_str (as_str key) a)
  is_defined_in access_index key a = if is_key key then is_some (get key a) else false

  unfoldable pub is_defined_on : AccessKind → Value F O → O → Bool
  is_defined_on access_dot key o = is_some (get_field o (as_str key))
  is_defined_on access_index key o = elim (indexable o) [
    | none ↦ false
    | some ix ↦ is_some (ix key)
  ]

  unfoldable pub is_defined_attribute : AccessKind → Value F O → Value F O → Heap F O → Bool
  unfolding is_defined_in is_defined_on
  is_defined_attribute access (arr (some x)) key h = elim (get_elem? h x) [
    | none ↦ false
    | some a ↦ is_defined_in access key a
  ]
  is_defined_attribute access (obj o) key h = is_defined_on access key o
  is_defined_attribute access recv key h = false
