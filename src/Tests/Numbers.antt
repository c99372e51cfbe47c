-- ===== src/Tests/Numbers.antt =====
-- Arithmetic at the edge of int64, over floats that are numbers.
use quill_template_engine.Prelude.{ℕ, ◌+◌, ◌-◌, ◌*◌, ◌/◌, ◌%◌, ◌^◌, true, ◌≡◌, ◌≢◌, refl, arith}
use quill_template_engine.Prelude.Int.{pos, negsuc, int_beq}
use quill_template_engine.Runtime.Value.{int}
use quill_template_engine.Interp.Arith.{checked}
use quill_template_engine.Interp.Arith.Signs.{power}
use quill_template_engine.Interp.Operators.{
  Floats, times, divide, arith_values, power_values, int_result, is_zero,
}
use quill_template_engine.Interp.Operators.Exact.{exact, arith_values-exact, power_values-exact}
use quill_template_engine.Tests.{host}

abbrev floats : Floats ℕ
floats = record {
  add = ◌+◌;
  sub = ◌-◌;
  mul = ◌*◌;
  div = ◌/◌;
  floor = λ x. x;
  fmod = ◌%◌;
  pow = ◌^◌;
  is_finite = λ x. true;
}

no_quotient : times ≢ divide
no_quotient = λ e. ground arith

arith_values-exact_example :
    arith_values host floats times (int (negsuc (2 ^ 62))) (int (pos 2))
    ≡ int_result (exact times (negsuc (2 ^ 62)) (pos 2))
unfolding is_zero int_beq
arith_values-exact_example =
    arith_values-exact host floats times (negsuc (2 ^ 62)) (pos 2) no_quotient (omega arith)
      (omega arith) refl

power_values-exact_example :
    power_values host floats (int (negsuc 1)) (int (pos 63))
    ≡ int_result (checked (power (negsuc 1) 63))
power_values-exact_example = power_values-exact host floats (negsuc 1) 63 (omega arith)
