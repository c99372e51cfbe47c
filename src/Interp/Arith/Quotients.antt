-- ===== src/Interp/Arith/Quotients.antt =====
-- Floor division.
use native.Mathlib.Nat.{div-add-mod', mod-lt, div-le_self, div-eq_of_lt-le}
use quill_template_engine.Prelude.{
  ℕ, zero, suc, ◌+◌, ◌/◌, ◌%◌, if◌then◌else◌, ◌≡◌, ◌≢◌, refl, arith, ◌==◌, ==_iff, Bool-cases, inl,
  inr,
}
use quill_template_engine.Prelude.Int.{
  ℤ, pos, negsuc, neg, IsInt64, wrap, of_word, quot, rem, in_int64, int_beq, ◌-ℤ◌,
}
use quill_template_engine.Interp.Arith.{checked, div_int64, floor_div_int64}

-- The quotient rounded down: towards zero for operands of one sign, away from it for others.
pub floor_quot : ℤ → ℤ → ℤ
floor_quot (pos m) (pos n) = pos (m / n)
floor_quot (pos m) (negsuc n) = neg ((m + n) / suc n)
floor_quot (negsuc m) (pos n) = neg ((m + n) / n)
floor_quot (negsuc m) (negsuc n) = pos (suc m / suc n)

-- Rounding up, from the quotient and the remainder.
ceiling : (m n : ℕ) → (m + n) / suc n ≡ (if m % suc n == 0 then m / suc n else m / suc n + 1)
ceiling m n =
    let d = div-add-mod' m (suc n) in
    let r = mod-lt m {m = suc n} (omega arith) in
    elim (Bool-cases (m % suc n == 0)) [
      | inl e ↦ rw e (
          div-eq_of_lt-le {k = m / suc n} (suc n) (omega (arith, d))
            (omega (arith, d, r, (==_iff (m % suc n) 0).0 e)))
      | inr e ↦
          rw e
            (div-eq_of_lt-le {k = m / suc n + 1} (suc n) (ground (arith, d)) (omega (arith, d, r)))
    ]

pub floor_div_int64-checked :
    (a b : ℤ) → IsInt64 a → IsInt64 b → b ≢ pos 0 → floor_div_int64 a b ≡ checked (floor_quot a b)
unfolding floor_div_int64 div_int64 checked floor_quot quot rem int_beq in_int64 wrap of_word ◌-ℤ◌
floor_div_int64-checked (pos m) (pos zero) ha hb nz = absurd (nz refl)
floor_div_int64-checked (negsuc m) (pos zero) ha hb nz = absurd (nz refl)
floor_div_int64-checked (pos m) (pos (suc n)) ha hb nz = ground (arith, div-le_self m (suc n))
floor_div_int64-checked (pos m) (negsuc n) ha hb nz =
    ground (arith, div-le_self m (suc n), ceiling m n)
floor_div_int64-checked (negsuc m) (pos (suc n)) ha hb nz =
    ground (arith, div-le_self (suc m) (suc n), ceiling (suc m) n)
floor_div_int64-checked (negsuc m) (negsuc n) ha hb nz = ground (arith, div-le_self (suc m) (suc n))
