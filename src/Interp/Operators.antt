-- ===== src/Interp/Operators.antt =====
-- The binary operators of internal/interp/operators.go on evaluated operands. The sandbox's test of the
-- operands of `~`, the range, the regular expressions and the arrows are not modelled.
pub mod Exact
use quill_template_engine.Prelude.{
  ℕ, zero, suc, ◌+◌, ◌-◌, ◌*◌, ◌/◌, ◌%◌, ◌≤◌, Bool, true, false, not, ◌&&◌, ◌||◌, Option, none,
  some, Bytes, ◌++◌, if◌then◌else◌, ◌==◌, length, take, drop, bytes_beq, ltb,
}
use quill_template_engine.Prelude.Int.{
  ℤ, pos, negsuc, int_beq, to_word, of_word, rem, wrap, is_negative,
}
use quill_template_engine.Errors.{ErrorKind, kind_arithmetic, Result, ok, err, and_then}
use quill_template_engine.Runtime.Value.{Value, bool, int, float, str}
use quill_template_engine.Runtime.Heap.{Heap}
use quill_template_engine.Runtime.Host.{Host}
use quill_template_engine.Runtime.Compare.{Sign, less, level, more, order, equal, is_numeric, is_in}
use quill_template_engine.Runtime.Text.{to_text}
use quill_template_engine.Interp.Arith.{
  add_int64, sub_int64, mul_int64, div_int64, floor_div_int64, pow_int64,
}

-- The float operations of the machine and of Go's math package.
pub record Floats (F : Type 0) : Type 0 where
  pub add : F → F → F
  pub sub : F → F → F
  pub mul : F → F → F
  pub div : F → F → F
  pub floor : F → F
  pub fmod : F → F → F
  pub pow : F → F → F
  pub is_finite : F → Bool

pub data ArithOp : Type 0 where
  plus minus times divide floor_divide modulo : ArithOp

pub data CompareOp : Type 0 where
  lt gt le ge spaceship : CompareOp

pub data BitOp : Type 0 where
  b_or b_and b_xor : BitOp

module _ {F O : Type 0} where
  -- An int64 result, or the overflow error.
  abbrev pub int_result : Option ℤ → Result (Value F O)
  int_result none = err kind_arithmetic
  int_result (some z) = ok (int z)

  -- The test `c < 0` and so on of a sign.
  unfoldable pub compare_result : CompareOp → Sign → Value F O
  compare_result lt less = bool true
  compare_result lt s = bool false
  compare_result gt more = bool true
  compare_result gt s = bool false
  compare_result le more = bool false
  compare_result le s = bool true
  compare_result ge less = bool false
  compare_result ge s = bool true
  compare_result spaceship less = int (negsuc 0)
  compare_result spaceship level = int (pos 0)
  compare_result spaceship more = int (pos 1)

module _ {F O : Type 0} (host : Host F O) (fl : Floats F) where
  unfoldable pub as_float : Value F O → F
  as_float (int i) = host.float_of_int i
  as_float (float x) = x
  as_float v = host.float_of_int (pos 0)

  unfoldable pub finite : F → Result (Value F O)
  finite x = if fl.is_finite x then ok (float x) else err kind_arithmetic

  -- asF(r) == 0
  unfoldable pub is_zero : Value F O → Bool
  unfolding as_float
  is_zero v = host.float_eq (as_float v) (host.float_of_int (pos 0))

  -- The operators where an operand is a float.
  unfoldable pub arith_floats : ArithOp → F → F → Result (Value F O)
  unfolding finite
  arith_floats plus x y = finite (fl.add x y)
  arith_floats minus x y = finite (fl.sub x y)
  arith_floats times x y = finite (fl.mul x y)
  arith_floats divide x y = finite (fl.div x y)
  arith_floats floor_divide x y = finite (fl.floor (fl.div x y))
  arith_floats modulo x y = finite (fl.fmod x y)

  -- Two integers stay integers, but for an inexact quotient.
  unfoldable pub arith_ints : ArithOp → ℤ → ℤ → Result (Value F O)
  unfolding is_zero finite as_float
  arith_ints plus a b = int_result (add_int64 a b)
  arith_ints minus a b = int_result (sub_int64 a b)
  arith_ints times a b = int_result (mul_int64 a b)
  arith_ints divide a b =
      if is_zero (int b)
      then err kind_arithmetic
      else if int_beq (rem a b) (pos 0)
      then int_result (div_int64 a b)
      else finite (fl.div (as_float (int a)) (as_float (int b)))
  arith_ints floor_divide a b =
      if is_zero (int b) then err kind_arithmetic else int_result (floor_div_int64 a b)
  arith_ints modulo a b = if int_beq b (pos 0) then err kind_arithmetic else ok (int (rem a b))

  abbrev pub divides : ArithOp → Bool
  divides plus = false
  divides minus = false
  divides times = false
  divides op = true

  unfoldable pub arith_mixed : ArithOp → Value F O → Value F O → Result (Value F O)
  unfolding is_zero arith_floats as_float
  arith_mixed op l r =
      if divides op && is_zero r
      then err kind_arithmetic
      else arith_floats op (as_float l) (as_float r)

  -- Both operands must be numbers.
  unfoldable pub arith_values : ArithOp → Value F O → Value F O → Result (Value F O)
  unfolding arith_ints arith_mixed
  arith_values op (int a) (int b) = arith_ints op a b
  arith_values op l r =
      if not (is_numeric l) || not (is_numeric r) then err kind_arithmetic else arith_mixed op l r

  unfoldable pub compare_values : CompareOp → Value F O → Value F O → Result (Value F O)
  unfolding compare_result
  compare_values op l r = and_then (λ c. ok (compare_result op c)) (order host l r)

  -- e >= 0
  abbrev pub power_ints : ℤ → ℤ → Result (Value F O)
  power_ints b (pos e) = int_result (pow_int64 b e)
  power_ints b (negsuc e) = finite (fl.pow (host.float_of_int b) (host.float_of_int (negsuc e)))

  unfoldable pub power_values : Value F O → Value F O → Result (Value F O)
  unfolding finite as_float
  power_values (int b) (int e) = power_ints b e
  power_values l r =
      if not (is_numeric l) || not (is_numeric r)
      then err kind_arithmetic
      else finite (fl.pow (as_float l) (as_float r))

  -- The operands are rendered from left to right.
  unfoldable pub concat_values : Value F O → Value F O → Result (Value F O)
  concat_values l r =
      and_then (λ ls. and_then (λ rs. ok (str (ls ++ rs))) (to_text host r)) (to_text host l)

  -- starts with, ends with
  unfoldable pub affix_values : Bool → Value F O → Value F O → Result (Value F O)
  affix_values prefix l r =
      and_then
        (λ ls.
          and_then
            (λ rs. ok (
              bool (
                not (ltb (length ls) (length rs))
                && bytes_beq
                    (if prefix then take (length rs) ls else drop (length ls - length rs) ls) rs)))
            (to_text host r))
        (to_text host l)

-- Bit by bit, on the patterns of two int64 values.
unfoldable pub bits_with : (Bool → Bool → Bool) → ℕ → ℕ → ℕ → ℕ
bits_with f zero x y = 0
bits_with f (suc w) x y =
    (if f (x % 2 == 1) (y % 2 == 1) then 1 else 0) + 2 * bits_with f w (x / 2) (y / 2)

abbrev pub bit_test : BitOp → Bool → Bool → Bool
bit_test b_or x y = x || y
bit_test b_and x y = x && y
bit_test b_xor true y = not y
bit_test b_xor false y = y

unfoldable pub bit_ints : BitOp → ℤ → ℤ → ℤ
unfolding bits_with of_word
bit_ints op a b = of_word (bits_with (bit_test op) 64 (to_word a) (to_word b))

unfoldable pub bitwise_values : {F O : Type 0} → BitOp → Value F O → Value F O → Result (Value F O)
unfolding bit_ints
bitwise_values op (int a) (int b) = ok (int (bit_ints op a b))
bitwise_values op l r = err kind_arithmetic
