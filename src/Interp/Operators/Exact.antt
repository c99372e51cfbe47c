-- ===== src/Interp/Operators/Exact.antt =====
-- The integer operators beside exact arithmetic.
use quill_template_engine.Prelude.{
  ℕ, Option, none, some, if◌then◌else◌, ◌≡◌, ◌≢◌, refl, ap, arith, Bool-cases, inl, inr,
}
use quill_template_engine.Prelude.Int.{ℤ, pos, IsInt64, int_beq, int_beq_iff, ◌+ℤ◌, ◌-ℤ◌, ◌*ℤ◌, rem}
use quill_template_engine.Runtime.Value.{int}
use quill_template_engine.Runtime.Host.{Host}
use quill_template_engine.Interp.Arith.{checked}
use quill_template_engine.Interp.Arith.Sums.{add_int64-checked, sub_int64-checked}
use quill_template_engine.Interp.Arith.Products.{mul_int64-checked}
use quill_template_engine.Interp.Arith.Quotients.{floor_quot, floor_div_int64-checked}
use quill_template_engine.Interp.Arith.Powers.{pow_int64-checked}
use quill_template_engine.Interp.Arith.Signs.{power}
use quill_template_engine.Interp.Operators.{
  Floats, ArithOp, plus, minus, times, divide, floor_divide, modulo, int_result, is_zero,
  arith_ints, arith_values, power_values,
}

-- The exact result, where int64 has it and the operator gives one.
pub exact : ArithOp → ℤ → ℤ → Option ℤ
exact plus a b = checked (a +ℤ b)
exact minus a b = checked (a -ℤ b)
exact times a b = checked (a *ℤ b)
exact floor_divide a b = if int_beq b (pos 0) then none else checked (floor_quot a b)
exact modulo a b = if int_beq b (pos 0) then none else some (rem a b)
exact divide a b = none

module _ {F O : Type 0} (host : Host F O) (fl : Floats F) where
  floor_exact :
      (a b : ℤ)
      → IsInt64 a
      → IsInt64 b
      → is_zero host fl (int b) ≡ int_beq b (pos 0)
      → arith_ints host fl floor_divide a b ≡ int_result (exact floor_divide a b)
  unfolding arith_ints exact
  floor_exact a b ha hb z = elim (Bool-cases (int_beq b (pos 0))) [
    | inl e ↦ rw (z, e)
    | inr e ↦
        rw (z, e)
          (ap int_result
            (floor_div_int64-checked a b ha hb (λ p. ground (arith, int_beq_iff b (pos 0)))))
  ]

  -- On two int64 operands, `+`, `-`, `*`, `//` and `%` give the exact integer result where it is
  -- an int64, and the arithmetic error where it is not or where a divisor is zero: `//` rounds
  -- down, `%` has the sign of the left operand. The condition is that the float of the right
  -- operand is zero just where the operand is.
  pub arith_values-exact :
      (op : ArithOp) (a b : ℤ)
      → op ≢ divide
      → IsInt64 a
      → IsInt64 b
      → is_zero host fl (int b) ≡ int_beq b (pos 0)
      → arith_values host fl op (int a) (int b) ≡ int_result (exact op a b)
  unfolding arith_values arith_ints exact
  arith_values-exact plus a b no_quotient ha hb z = ap int_result (add_int64-checked a b ha hb)
  arith_values-exact minus a b no_quotient ha hb z = ap int_result (sub_int64-checked a b ha hb)
  arith_values-exact times a b no_quotient ha hb z = ap int_result (mul_int64-checked a b ha hb)
  arith_values-exact divide a b no_quotient ha hb z = absurd (no_quotient refl)
  arith_values-exact floor_divide a b no_quotient ha hb z = floor_exact a b ha hb z
  arith_values-exact modulo a b no_quotient ha hb z = elim (Bool-cases (int_beq b (pos 0))) [
    | inl e ↦ rw e
    | inr e ↦ rw e
  ]

  -- An int64 to the power of a non-negative integer is the exact power where that is an int64,
  -- and the arithmetic error where it is not: the squarings of the loop refuse no power that is
  -- in range.
  pub power_values-exact :
      (a : ℤ) (e : ℕ)
      → IsInt64 a
      → power_values host fl (int a) (int (pos e)) ≡ int_result (checked (power a e))
  unfolding power_values
  power_values-exact a e h = ap int_result (pow_int64-checked a e h)
