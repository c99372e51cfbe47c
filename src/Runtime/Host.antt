-- ===== src/Runtime/Host.antt =====
-- What the value operations ask of the host: the float arithmetic of the machine, and the optional
-- interfaces of host objects (value.go, attribute.go), each `none` where an object lacks it.
-- A host object's own state is not modelled: a setter reports only whether it took the value.
use quill_template_engine.Prelude.{Bool, Option, List, Bytes}
use quill_template_engine.Prelude.Int.{ℤ}
use quill_template_engine.Errors.{ErrorKind, Result}
use quill_template_engine.Runtime.Value.{Value, Pair}

pub record Host (F O : Type 0) : Type 0 where
  -- ==, < and the conversion float64(i)
  pub float_eq : F → F → Bool
  pub float_lt : F → F → Bool
  pub float_of_int : ℤ → F
  -- formatFloat: strconv's shortest form, or the refusal of a non-finite value
  pub format_float : F → Result Bytes
  -- `o == other.obj`
  pub same_object : O → O → Bool
  pub get_field : O → Bytes → Option (Value F O)
  pub indexable : O → Option (Value F O → Option (Value F O))
  pub field_setter : O → Option (Bytes → Value F O → Option ErrorKind)
  pub index_setter : O → Option (Value F O → Value F O → Option ErrorKind)
  pub stringifier : O → Option (Result Bytes)
  pub equaler : O → Option (Value F O → Bool)
  pub iterable : O → Option (List (Pair F O))
