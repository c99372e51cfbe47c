-- ===== src/Interp/Arith/Sums.antt =====
-- Checked sums and differences.
use quill_template_engine.Prelude.{zero, suc, ◌≡◌, arith}
use quill_template_engine.Prelude.Int.{ℤ, pos, negsuc, IsInt64, wrap, of_word, ◌+ℤ◌, ◌-ℤ◌, in_int64}
use quill_template_engine.Interp.Arith.{checked, add_int64, sub_int64}

pub add_int64-checked : (a b : ℤ) → IsInt64 a → IsInt64 b → add_int64 a b ≡ checked (a +ℤ b)
unfolding add_int64 checked ◌+ℤ◌ wrap of_word in_int64
add_int64-checked (pos zero) (pos n) ha hb = ground arith
add_int64-checked (pos (suc m)) (pos n) ha hb = ground arith
add_int64-checked (pos m) (negsuc n) ha hb = ground arith
add_int64-checked (negsuc m) (pos n) ha hb = ground arith
add_int64-checked (negsuc m) (negsuc n) ha hb = ground arith

pub sub_int64-checked : (a b : ℤ) → IsInt64 a → IsInt64 b → sub_int64 a b ≡ checked (a -ℤ b)
unfolding sub_int64 checked ◌-ℤ◌ wrap of_word in_int64
sub_int64-checked (pos m) (pos n) ha hb = ground arith
sub_int64-checked (pos m) (negsuc n) ha hb = ground arith
sub_int64-checked (negsuc m) (pos n) ha hb = ground arith
sub_int64-checked (negsuc m) (negsuc n) ha hb = ground arith
