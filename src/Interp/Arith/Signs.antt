-- ===== src/Interp/Arith/Signs.antt =====
-- Signs and sizes of products and powers, for powInt64 of internal/interp/operators.go.
use native.Mathlib.Nat.{
  mul_comm, mul_assoc, pow-zero, one-le-pow, pow-suc, mul-le-mul, le-mul_of_pos_right,
}
use quill_template_engine.Prelude.{
  ℕ, zero, suc, ◌+◌, ◌*◌, ◌%◌, ◌^◌, ◌<◌, ◌≤◌, Bool, true, false, ◌&&◌, Option, none, some,
  if◌then◌else◌, ltb, ◌≡◌, refl, sym, ap, ◌∙◌, arith, ◌==◌, ltb→lt, Bool-cases, inl, inr,
}
use quill_template_engine.Prelude.Int.{
  ℤ, pos, negsuc, neg, IsInt64, in_int64, ◌*ℤ◌, signed, magnitude, is_negative, xor,
}
use quill_template_engine.Interp.Arith.{checked, mul_int64, pow_loop}
use quill_template_engine.Interp.Arith.Products.{mul_int64-checked, int64_test}

-- The power with a sign: negative for a negative base and an odd exponent.
unfoldable pub power : ℤ → ℕ → ℤ
power b e = signed (is_negative b && e % 2 == 1) (magnitude b ^ e)

pub signed-mul : (s t : Bool) (m n : ℕ) → signed s m *ℤ signed t n ≡ signed (xor s t) (m * n)
unfolding ◌*ℤ◌
signed-mul false false m n = refl
signed-mul false true m zero = ground arith
signed-mul false true m (suc n) = refl
signed-mul true false zero n = ground arith
signed-mul true false (suc m) n = refl
signed-mul true true zero n = ground arith
signed-mul true true (suc m) zero = ground arith
signed-mul true true (suc m) (suc n) = refl

pub signed_self : (z : ℤ) → signed (is_negative z) (magnitude z) ≡ z
signed_self (pos n) = refl
signed_self (negsuc n) = refl

-- Halving the exponent squares the base.
pub pow-square : (b k : ℕ) → b ^ (k + k) ≡ (b * b) ^ k
pow-square b zero = ap (λ e. b ^ e) (omega arith) ∙ pow-zero b ∙ sym (pow-zero (b * b))
pow-square b (suc k) =
    ap (λ e. b ^ e) (omega arith)
    ∙ pow-suc b (suc (k + k))
    ∙ ap (λ t. t * b) (pow-suc b (k + k))
    ∙ mul_assoc (b ^ (k + k)) b b
    ∙ ap (λ t. t * (b * b)) (pow-square b k)
    ∙ sym (pow-suc (b * b) k)

pub range_neg : (n : ℕ) → in_int64 (signed true n) ≡ ltb n (2 ^ 63 + 1)
unfolding in_int64
range_neg zero = refl
range_neg (suc n) = ground arith

pub range_pos : (n : ℕ) → in_int64 (signed false n) ≡ ltb n (2 ^ 63)
unfolding in_int64
range_pos n = refl

-- An integer out of range stays so under a positive factor.
pub grows :
    (s : Bool) (n k : ℕ)
    → 0 < k
    → in_int64 (signed s n) ≡ false
    → in_int64 (signed s (n * k)) ≡ false
grows false n k p h =
    ground (arith, le-mul_of_pos_right {m = k} n p, range_pos n, range_pos (n * k))
grows true n k p h = ground (arith, le-mul_of_pos_right {m = k} n p, range_neg n, range_neg (n * k))

out_of_size : (s : Bool) (n : ℕ) → 2 ^ 63 < n → in_int64 (signed s n) ≡ false
out_of_size false n h = ground (arith, range_pos n)
out_of_size true n h = ground (arith, range_neg n)

-- No square is 2^63, so a square out of range has no int64 of its size.
large_square : (n : ℕ) → 2 ^ 63 ≤ n * n → 2 ^ 63 < n * n
large_square n h = elim (Bool-cases (ltb n 3037000500)) [
  | inl small ↦ absurd (
      omega (
        arith,
        ltb→lt n 3037000500 small,
        mul-le-mul {n₁ = n} {m₁ = n} {n₂ = 3037000499} {m₂ = 3037000499} (ground arith)
            (ground arith),
      ))
  | inr big ↦ omega (
    arith,
    mul-le-mul {n₁ = 3037000500} {m₁ = 3037000500} {n₂ = n} {m₂ = n} (ground arith) (ground arith),
  )
]

square : (b : ℤ) → b *ℤ b ≡ pos (magnitude b * magnitude b)
unfolding ◌*ℤ◌
square (pos n) = refl
square (negsuc n) = refl

pub times :
    (r : ℤ) (t : Bool) (q : ℕ) → r *ℤ signed t q ≡ signed (xor (is_negative r) t) (magnitude r * q)
times r t q =
    ap (λ z. z *ℤ signed t q) (sym (signed_self r)) ∙ signed-mul (is_negative r) t (magnitude r) q

-- What is left of the loop after the product with the base, where half the exponent is `k`.
abbrev pub rest_of : ℕ → ℤ → ℤ → ℕ → Option ℤ
rest_of rounds r b k =
    if k == 0
    then some r
    else elim (mul_int64 b b) [ none ↦ none | some sq ↦ pow_loop rounds r sq k ]

abbrev pub Linked : ℤ → ℤ → Type 0
Linked r b = magnitude r ≡ 0 → magnitude b ≡ 0

pow_ge : (q k : ℕ) → 0 < q → 0 < k → q ≤ q ^ k
pow_ge q zero p h = absurd (omega arith)
pow_ge q (suc k) p h =
    omega
      (arith, pow-suc q k, le-mul_of_pos_right {m = q ^ k} q (one-le-pow k q p), mul_comm q (q ^ k))

square_size : (n : ℕ) → in_int64 (pos (n * n)) ≡ false → 2 ^ 63 ≤ n * n
unfolding in_int64
square_size n h = ground arith

nonzero_factor : (m n : ℕ) → (m ≡ 0 → n ≡ 0) → 0 < n * n → 0 < m
nonzero_factor zero n l h = absurd (omega (arith, ap (λ t. t * t) (l refl), zero_mul_zero))
  where
    zero_mul_zero : 0 * 0 ≡ 0
    zero_mul_zero = omega arith
nonzero_factor (suc m) n l h = omega arith

pub times_one : (r : ℤ) → r *ℤ pos 1 ≡ r
unfolding ◌*ℤ◌
times_one (pos n) = ap pos {y = n} (omega arith)
times_one (negsuc n) = ap neg {y = suc n} (omega arith)

pub checked_self : (r : ℤ) → IsInt64 r → checked r ≡ some r
unfolding checked
checked_self r h = rw (int64_test r h)

-- A square out of range puts the power out of range.
pub square_overflow :
    (r b : ℤ) (k : ℕ)
    → Linked r b
    → 0 < k
    → in_int64 (b *ℤ b) ≡ false
    → in_int64 (r *ℤ pos ((magnitude b * magnitude b) ^ k)) ≡ false
square_overflow r b k l p out =
    let n = magnitude b in
    let large = large_square n (square_size n (sym (ap in_int64 (square b)) ∙ out)) in
    let r_pos = nonzero_factor (magnitude r) n l (omega (arith, large)) in
    rw (times r false ((n * n) ^ k)) (
      out_of_size (xor (is_negative r) false) (magnitude r * (n * n) ^ k) (
        omega (
          arith,
          large,
          pow_ge (n * n) k (omega (arith, large)) p,
          le-mul_of_pos_right {m = magnitude r} ((n * n) ^ k) r_pos,
          mul_comm (magnitude r) ((n * n) ^ k),
        )))

pub power_square : (q k : ℕ) → power (pos q) k ≡ pos (q ^ k)
unfolding power
power_square q k = refl

pub power_none : (b : ℤ) (k : ℕ) → k ≡ 0 → (magnitude b * magnitude b) ^ k ≡ 1
power_none b k e =
    ap (λ t. (magnitude b * magnitude b) ^ t) e ∙ pow-zero (magnitude b * magnitude b)

pub squared_in :
    (b : ℤ)
    → IsInt64 b
    → in_int64 (b *ℤ b) ≡ true
    → mul_int64 b b ≡ some (pos (magnitude b * magnitude b))
unfolding checked
squared_in b hb fits = mul_int64-checked b b hb hb ∙ rw fits (ap some (square b))

pub squared_out : (b : ℤ) → IsInt64 b → in_int64 (b *ℤ b) ≡ false → mul_int64 b b ≡ none
unfolding checked
squared_out b hb out = mul_int64-checked b b hb hb ∙ rw out

pub in_range : (b : ℤ) → in_int64 (b *ℤ b) ≡ true → IsInt64 (pos (magnitude b * magnitude b))
unfolding in_int64
in_range b h = ground (arith, square b)

pub Linked-square : (r b : ℤ) → Linked r b → Linked r (pos (magnitude b * magnitude b))
Linked-square r b l e = ap (λ t. t * t) (l e) ∙ omega arith
