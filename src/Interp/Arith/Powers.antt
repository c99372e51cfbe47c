-- ===== src/Interp/Arith/Powers.antt =====
-- Powers by repeated squaring.
use native.Mathlib.Nat.{
  mul_comm, mul_assoc, one-le-pow, pow-suc, div-add-mod, mod-lt, le-mul_of_pos_right,
}
use quill_template_engine.Prelude.{
  ℕ, zero, suc, ◌+◌, ◌*◌, ◌/◌, ◌%◌, ◌^◌, ◌<◌, ◌≤◌, Bool, true, false, ◌&&◌, none, some, ◌≡◌, refl,
  sym, ap, ◌∙◌, arith, ◌==◌, ==_iff, Bool-cases, inl, inr,
}
use quill_template_engine.Prelude.Int.{
  ℤ, pos, negsuc, neg, IsInt64, in_int64, ◌*ℤ◌, signed, magnitude, is_negative, xor,
}
use quill_template_engine.Interp.Arith.{checked, mul_int64, pow_loop, pow_int64}
use quill_template_engine.Interp.Arith.Products.{mul_int64-checked, magnitude-mul}
use quill_template_engine.Interp.Arith.Signs.{
  power, signed-mul, signed_self, pow-square, range_neg, range_pos, grows, times, rest_of, Linked,
  times_one, checked_self, square_overflow, power_square, power_none, squared_in, squared_out,
  in_range, Linked-square,
}

module _ (rounds : ℕ)
    (ih : (r b : ℤ) (e : ℕ)
      → e ≤ rounds
      → IsInt64 r
      → IsInt64 b
      → Linked r b
      → pow_loop rounds r b e ≡ checked (r *ℤ power b e)) where
  rest_of-checked :
      (r b : ℤ) (k : ℕ)
      → k ≤ rounds
      → IsInt64 r
      → IsInt64 b
      → Linked r b
      → rest_of rounds r b k ≡ checked (r *ℤ pos ((magnitude b * magnitude b) ^ k))
  rest_of-checked r b k h hr hb l = elim (Bool-cases (k == 0)) [
    | inl e ↦ ground (
      arith,
      checked_self r hr,
      ap (λ t. checked (r *ℤ pos t)) (power_none b k (ground arith)),
      ap checked (times_one r),
    )
    | inr e ↦ elim (Bool-cases (in_int64 (b *ℤ b))) [
      | inl fits ↦
          rw (e, squared_in b hb fits)
            (ih r (pos (magnitude b * magnitude b)) k h hr (in_range b fits) (Linked-square r b l)
              ∙ ap (λ t. checked (r *ℤ t)) (power_square (magnitude b * magnitude b) k))
      | inr out ↦
          rw (e, squared_out b hb out)
            (unfold checked in rw (square_overflow r b k l (ground arith) out))
    ]
  ]

halves : (e : ℕ) → e ≡ e / 2 + e / 2 + e % 2
halves e = omega (arith, div-add-mod e 2)

xor-false : (s : Bool) → xor s false ≡ s
xor-false true = refl
xor-false false = refl

half_power : ℤ → ℕ → ℕ
half_power b e = (magnitude b * magnitude b) ^ (e / 2)

even_power : (n e : ℕ) → e % 2 ≡ 0 → n ^ e ≡ (n * n) ^ (e / 2)
even_power n e h = ap (λ t. n ^ t) (omega (arith, halves e)) ∙ pow-square n (e / 2)

odd_power : (n e : ℕ) → e % 2 ≡ 1 → n ^ e ≡ (n * n) ^ (e / 2) * n
odd_power n e h =
    ap (λ t. n ^ t) (omega (arith, halves e))
    ∙ pow-suc n (e / 2 + e / 2)
    ∙ ap (λ t. t * n) (pow-square n (e / 2))

product_signed :
    (r b : ℤ) → r *ℤ b ≡ signed (xor (is_negative r) (is_negative b)) (magnitude r * magnitude b)
product_signed r b = ap (λ t. r *ℤ t) (sym (signed_self b)) ∙ times r (is_negative b) (magnitude b)

product_times :
    (r b : ℤ) (q : ℕ)
    → (r *ℤ b) *ℤ pos q
      ≡ signed (xor (is_negative r) (is_negative b)) (magnitude r * magnitude b * q)
product_times r b q =
    ap (λ t. t *ℤ pos q) (product_signed r b)
    ∙ signed-mul (xor (is_negative r) (is_negative b)) false (magnitude r * magnitude b) q
    ∙ ap (λ s. signed s (magnitude r * magnitude b * q))
        (xor-false (xor (is_negative r) (is_negative b)))

and_true : (t : Bool) → t && true ≡ t
and_true true = refl
and_true false = refl

and_false : (t : Bool) → t && false ≡ false
and_false true = refl
and_false false = refl

pos_square : (m n : ℕ) → 0 < m * n → 0 < n * n
pos_square m zero h = absurd (omega arith)
pos_square m (suc n) h = omega (arith, le-mul_of_pos_right {m = suc n} (suc n) (omega arith))

size_pos : (s : Bool) (n : ℕ) → in_int64 (signed s n) ≡ false → 0 < n
size_pos true n h = ground (arith, range_neg n)
size_pos false n h = ground (arith, range_pos n)

zero_product : (m n : ℕ) → (m ≡ 0 → n ≡ 0) → m * n ≡ 0 → n ≡ 0
zero_product zero n l h = l refl
zero_product (suc m) zero l h = refl
zero_product (suc m) (suc n) l h =
    absurd (omega (arith, le-mul_of_pos_right {m = suc n} (suc m) (omega arith)))

odd_split :
    (r b : ℤ) (e : ℕ)
    → e % 2 == 1 ≡ true
    → r *ℤ power b e ≡ (r *ℤ b) *ℤ pos ((magnitude b * magnitude b) ^ (e / 2))
unfolding power
odd_split r b e h =
    let n = magnitude b in
    let q = (n * n) ^ (e / 2) in
    let m = magnitude r in
    times r (is_negative b && e % 2 == 1) (n ^ e)
    ∙ ap (λ o. signed (xor (is_negative r) (is_negative b && o)) (m * n ^ e)) h
    ∙ ap (λ o. signed (xor (is_negative r) o) (m * n ^ e)) (and_true (is_negative b))
    ∙ ap (λ t. signed (xor (is_negative r) (is_negative b)) (m * t))
        (odd_power n e ((==_iff (e % 2) 1).0 h) ∙ mul_comm q n)
    ∙ ap (signed (xor (is_negative r) (is_negative b))) (sym (mul_assoc m n q))
    ∙ sym (product_times r b q)

even_split :
    (r b : ℤ) (e : ℕ)
    → e % 2 == 1 ≡ false
    → r *ℤ power b e ≡ r *ℤ pos ((magnitude b * magnitude b) ^ (e / 2))
unfolding power
even_split r b e h =
    let n = magnitude b in
    let m = magnitude r in
    times r (is_negative b && e % 2 == 1) (n ^ e)
    ∙ ap (λ o. signed (xor (is_negative r) (is_negative b && o)) (m * n ^ e)) h
    ∙ ap (λ o. signed (xor (is_negative r) o) (m * n ^ e)) (and_false (is_negative b))
    ∙ ap (λ t. signed (xor (is_negative r) false) (m * t))
        (even_power n e (ground (arith, mod-lt e {m = 2} (omega arith))))
    ∙ sym (times r false ((n * n) ^ (e / 2)))

odd_overflow :
    (r b : ℤ) (e : ℕ)
    → e % 2 == 1 ≡ true
    → in_int64 (r *ℤ b) ≡ false
    → in_int64 (r *ℤ power b e) ≡ false
odd_overflow r b e h out =
    let m = magnitude r in
    let n = magnitude b in
    let q = (n * n) ^ (e / 2) in
    let wide = sym (ap in_int64 (product_signed r b)) ∙ out in
    let s = xor (is_negative r) (is_negative b) in
    rw (odd_split r b e h, product_times r b q)
      (grows s (m * n) q (one-le-pow (e / 2) (n * n) (pos_square m n (size_pos s (m * n) wide)))
        wide)

Linked-product : (r b : ℤ) → Linked r b → Linked (r *ℤ b) b
Linked-product r b l e = zero_product (magnitude r) (magnitude b) l (sym (magnitude-mul r b) ∙ e)

power_zero : (r b : ℤ) (e : ℕ) → IsInt64 r → e ≡ 0 → checked (r *ℤ power b e) ≡ some r
power_zero r b e hr z =
    ap checked (even_split r b e (ap (λ t. t % 2 == 1) z))
    ∙ ap (λ t. checked (r *ℤ pos t)) (power_none b (e / 2) (omega (arith, z)))
    ∙ ap checked (times_one r)
    ∙ checked_self r hr

mul_in :
    (r b : ℤ) → IsInt64 r → IsInt64 b → in_int64 (r *ℤ b) ≡ true → mul_int64 r b ≡ some (r *ℤ b)
unfolding checked
mul_in r b hr hb fits = mul_int64-checked r b hr hb ∙ rw fits

mul_out : (r b : ℤ) → IsInt64 r → IsInt64 b → in_int64 (r *ℤ b) ≡ false → mul_int64 r b ≡ none
unfolding checked
mul_out r b hr hb out = mul_int64-checked r b hr hb ∙ rw out

IsInt64-intro : (z : ℤ) → in_int64 z ≡ true → IsInt64 z
unfolding in_int64
IsInt64-intro (pos n) h = ground arith
IsInt64-intro (negsuc n) h = ground arith

pow_loop-checked :
    (rounds : ℕ) (r b : ℤ) (e : ℕ)
    → e ≤ rounds
    → IsInt64 r
    → IsInt64 b
    → Linked r b
    → pow_loop rounds r b e ≡ checked (r *ℤ power b e)
unfolding pow_loop
pow_loop-checked zero r b e h hr hb l = sym (power_zero r b e hr (omega arith))
pow_loop-checked (suc rounds) r b e h hr hb l = elim (Bool-cases (e == 0)) [
  | inl z ↦ rw z (sym (power_zero r b e hr ((==_iff e 0).0 z)))
  | inr nz ↦ elim (Bool-cases (e % 2 == 1)) [
    | inl odd ↦ elim (Bool-cases (in_int64 (r *ℤ b))) [
      | inl fits ↦
          rw (nz, odd, mul_in r b hr hb fits)
            (rest_of-checked rounds (pow_loop-checked rounds) (r *ℤ b) b (e / 2)
                (omega (arith, halves e)) (IsInt64-intro (r *ℤ b) fits) hb (Linked-product r b l)
              ∙ ap checked (sym (odd_split r b e odd)))
      | inr out ↦
          rw (nz, odd, mul_out r b hr hb out) (unfold checked in rw (odd_overflow r b e odd out))
    ]
    | inr even ↦
        rw (nz, even)
          (rest_of-checked rounds (pow_loop-checked rounds) r b (e / 2) (omega (arith, halves e)) hr
              hb l
            ∙ ap checked (sym (even_split r b e even)))
  ]
]

one_times : (z : ℤ) → pos 1 *ℤ z ≡ z
unfolding ◌*ℤ◌
one_times (pos n) = ap pos {y = n} (omega arith)
one_times (negsuc n) = ap neg {y = suc n} (omega arith)

pub pow_int64-checked : (a : ℤ) (e : ℕ) → IsInt64 a → pow_int64 a e ≡ checked (power a e)
unfolding pow_int64
pow_int64-checked a e h =
    pow_loop-checked e (pos 1) a e (omega arith) (omega arith) h (λ z. absurd (omega (arith, z)))
    ∙ ap checked (one_times (power a e))
