-- ===== src/Errors.antt =====
-- The error kinds of pkg/errors/errors.go and the result of fallible code. Messages and positions are
-- not modelled: an error is its kind.

pub data ErrorKind : Type 0 where
  kind_runtime kind_syntax kind_type_check kind_undefined kind_arithmetic : ErrorKind
  kind_comparison kind_attribute kind_render kind_iteration kind_key kind_security : ErrorKind

pub data Result {ℓ} (A : Type ℓ) : Type ℓ where
  ok : A → Result A
  err : ErrorKind → Result A

-- The next step of a chain, or the error that ended it.
abbrev pub and_then {ℓ κ} : {A : Type ℓ} {B : Type κ} (next : A → Result B) → Result A → Result B
and_then next (err e) = err e
and_then next (ok a) = next a
