-- ===== src/Runtime/Value.antt =====
-- The tagged union of pkg/runtime/value.go. The float type `F` and the type `O` of host objects are
-- parameters; an *Array is `none` for the nil pointer or the address of a cell (Runtime/Heap).
use quill_template_engine.Prelude.{ℕ, Bool, true, false, Option, none, some, [], Bytes, codes}
use quill_template_engine.Prelude.Int.{ℤ, pos}

pub data Kind : Type 0 where
  k_null k_bool k_int k_float k_str k_array k_object k_safe : Kind

-- Kind.String
unfoldable pub kind_label : Kind → Bytes
kind_label k_null = codes "null"
kind_label k_bool = codes "bool"
kind_label k_int = codes "int"
kind_label k_float = codes "float"
kind_label k_str = codes "string"
kind_label k_array = codes "array"
kind_label k_object = codes "object"
kind_label k_safe = codes "safe"

pub data Value (F O : Type 0) : Type 0 where
  null : Value F O
  bool : Bool → Value F O
  int : ℤ → Value F O
  float : F → Value F O
  str : Bytes → Value F O
  arr : Option ℕ → Value F O
  obj : O → Value F O
  safe : Bytes → Value F O

module _ {F O : Type 0} where
  unfoldable pub kind : Value F O → Kind
  kind null = k_null
  kind (bool b) = k_bool
  kind (int i) = k_int
  kind (float f) = k_float
  kind (str s) = k_str
  kind (arr a) = k_array
  kind (obj o) = k_object
  kind (safe s) = k_safe

  -- An accessor on the wrong kind gives the field's zero value.
  unfoldable pub as_bool : Value F O → Bool
  as_bool (bool b) = b
  as_bool _ = false

  unfoldable pub as_int : Value F O → ℤ
  as_int (int i) = i
  as_int _ = pos 0

  unfoldable pub as_str : Value F O → Bytes
  as_str (str s) = s
  as_str (safe s) = s
  as_str _ = []

  unfoldable pub is_null : Value F O → Bool
  is_null null = true
  is_null _ = false

  unfoldable pub is_scalar : Value F O → Bool
  is_scalar null = true
  is_scalar (bool b) = true
  is_scalar (int i) = true
  is_scalar (float f) = true
  is_scalar (str s) = true
  is_scalar _ = false

  unfoldable pub normalize_safe : Value F O → Value F O
  normalize_safe (safe s) = str s
  normalize_safe v = v

  -- What `m[k]` reads where the key is missing: the zero Value, whose kind is KNull.
  abbrev pub or_null : Option (Value F O) → Value F O
  or_null none = null
  or_null (some v) = v

pub record Pair (F O : Type 0) : Type 0 where
  pub key : Value F O
  pub val : Value F O
