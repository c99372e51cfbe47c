-- ===== src/Interp/Arith/Products.antt =====
-- Checked products.
use native.Mathlib.Nat.{
  mul-div-le, div-lt_self, mul-div_cancel_left, div-add-mod, mod-lt, mul_comm, div-le_self,
}
use quill_template_engine.Prelude.{
  ℕ, zero, suc, ◌+◌, ◌-◌, ◌*◌, ◌/◌, ◌^◌, ◌<◌, ◌≤◌, Bool, true, false, ◌≡◌, ◌≢◌, refl, sym, ap, ◌∙◌,
  arith, ◌||◌, Bool-cases, inl, inr,
}
use quill_template_engine.Prelude.Int.{
  ℤ, pos, negsuc, neg, IsInt64, wrap, of_word, ◌*ℤ◌, quot, in_int64, is_negative, int_beq,
  int_beq_iff, signed, magnitude, xor,
}
use quill_template_engine.Interp.Arith.{checked, mul_int64, min_int64, is_min_by_minus_one}

-- A quotient that comes out as `n` bounds the dividend from both sides.
quotient_bounds : (p m n : ℕ) → p / suc m ≡ n → (suc m * n ≤ p) × (p < suc m * n + suc m)
quotient_bounds p m n e =
    let d = div-add-mod p (suc m) in
    let r = mod-lt p {m = suc m} (omega arith) in
    rw (sym e) (omega (arith, d, r), omega (arith, d, r))

exact_quotient : (m n : ℕ) → suc m * n / suc m ≡ n
exact_quotient m n = mul-div_cancel_left n {n = suc m} (omega arith)

pub magnitude-signed : (s : Bool) (n : ℕ) → magnitude (signed s n) ≡ n
magnitude-signed false n = refl
magnitude-signed true zero = refl
magnitude-signed true (suc n) = refl

-- An int64 is what wrapping leaves alone.
wrap_self : (z : ℤ) → in_int64 z ≡ true → wrap z ≡ z
unfolding wrap of_word in_int64
wrap_self (pos n) h = ground arith
wrap_self (negsuc n) h = ground arith

magnitude-wrap : (z : ℤ) → magnitude z ≤ 2 ^ 63 → magnitude (wrap z) ≡ magnitude z
unfolding wrap of_word
magnitude-wrap (pos n) h = ground arith
magnitude-wrap (negsuc n) h = ground arith

magnitude-wrap-le : (z : ℤ) → magnitude (wrap z) ≤ 2 ^ 63
unfolding wrap of_word
magnitude-wrap-le (pos n) = ground arith
magnitude-wrap-le (negsuc n) = ground arith

quot_mul : (a b : ℤ) → int_beq a (pos 0) ≡ false → quot (a *ℤ b) a ≡ b
unfolding quot ◌*ℤ◌ int_beq
quot_mul (pos zero) b h = cc
quot_mul (pos (suc m)) (pos n) h = cc (exact_quotient m n)
quot_mul (pos (suc m)) (negsuc n) h = ground (arith, exact_quotient m (suc n))
quot_mul (negsuc m) (pos zero) h = ground (arith, exact_quotient m 0)
quot_mul (negsuc m) (pos (suc n)) h = ground (arith, exact_quotient m (suc n))
quot_mul (negsuc m) (negsuc n) h = cc (exact_quotient m (suc n))

-- Dividing back what wrapping left of a product gives the factor only where the product is no larger
-- than an int64 can be.
divided_back : (a b z : ℤ) → wrap (quot (wrap z) a) ≡ b → magnitude a * magnitude b ≤ 2 ^ 63
unfolding quot
divided_back a b z e =
    let p = wrap z in
    let q = magnitude-signed (xor (is_negative p) (is_negative a)) (magnitude p / magnitude a) in
    let small = div-le_self (magnitude p) (magnitude a) in
    let le = magnitude-wrap-le z in
    let w = magnitude-wrap (quot p a) (omega (arith, q, small, le)) in
    rw (sym (ap magnitude e) ∙ w ∙ q) (omega (arith, mul-div-le (magnitude p) (magnitude a), le))

wrap_pos-negsuc : (k n : ℕ) → k ≤ 2 ^ 63 → wrap (pos k) ≡ negsuc n → k ≡ 2 ^ 63
unfolding wrap of_word
wrap_pos-negsuc k n h e = ground arith

wrap-neg-pos : (k n : ℕ) → k ≤ 2 ^ 63 → wrap (neg k) ≢ pos (suc n)
unfolding wrap of_word
wrap-neg-pos zero n h e = ground arith
wrap-neg-pos (suc k) n h e = ground arith

-- The one product of that size that is no int64 has two factors of one sign.
least_by_negative : (m n : ℕ) → wrap (quot min_int64 (negsuc m)) ≡ negsuc n → m ≡ 0
unfolding quot
least_by_negative zero n e = refl
least_by_negative (suc m) n e = absurd (
    omega (
      arith,
      wrap_pos-negsuc (2 ^ 63 / suc (suc m)) n (div-le_self (2 ^ 63) (suc (suc m))) e,
      div-lt_self {n = 2 ^ 63} {k = suc (suc m)} (omega arith) (omega arith),
    ))

least_by_positive : (m n : ℕ) → wrap (quot min_int64 (pos (suc m))) ≢ pos (suc n)
unfolding quot
least_by_positive m n e = wrap-neg-pos (2 ^ 63 / suc m) n (div-le_self (2 ^ 63) (suc m)) e

-- A product out of range that is no larger than an int64 can be.
too_large : (z : ℤ) → in_int64 z ≡ false → magnitude z ≤ 2 ^ 63 → z ≡ pos (2 ^ 63)
unfolding in_int64
too_large (pos n) h l = ap pos (ground arith)
too_large (negsuc n) h l = absurd (ground arith)

wrap_least : wrap (pos (2 ^ 63)) ≡ min_int64
unfolding wrap of_word
wrap_least = refl

neg-pos : (t k : ℕ) → neg t ≡ pos k → k ≡ 0
neg-pos zero k e = ground arith
neg-pos (suc t) k e = cc

product_one : (m n : ℕ) → m ≡ 0 → suc m * suc n ≡ 2 ^ 63 → n ≡ 2 ^ 63 - 1
product_one zero n h e = omega arith
product_one (suc m) n h e = absurd (omega arith)

least_product :
    (a b : ℤ)
    → int_beq a (pos 0) ≡ false
    → int_beq b (pos 0) ≡ false
    → is_min_by_minus_one b a ≡ false
    → a *ℤ b ≡ pos (2 ^ 63)
    → wrap (quot min_int64 a) ≢ b
unfolding int_beq ◌*ℤ◌
least_product (pos zero) b ha hb special z e = cc
least_product (pos (suc m)) (pos zero) ha hb special z e = cc
least_product (pos (suc m)) (pos (suc n)) ha hb special z e = least_by_positive m n e
least_product (pos (suc m)) (negsuc n) ha hb special z e =
    absurd (omega (arith, neg-pos (suc m * suc n) (2 ^ 63) z))
least_product (negsuc m) (pos zero) ha hb special z e = cc
least_product (negsuc m) (pos (suc n)) ha hb special z e =
    absurd (omega (arith, neg-pos (suc m * suc n) (2 ^ 63) z))
least_product (negsuc m) (negsuc n) ha hb special z e =
    let m0 = least_by_negative m n e in ground (arith, m0, product_one m n m0 (ap magnitude z))

pub magnitude-mul : (a b : ℤ) → magnitude (a *ℤ b) ≡ magnitude a * magnitude b
unfolding ◌*ℤ◌
magnitude-mul a b =
    magnitude-signed (xor (is_negative a) (is_negative b)) (magnitude a * magnitude b)

overflow_shows :
    (a b : ℤ)
    → int_beq a (pos 0) ≡ false
    → int_beq b (pos 0) ≡ false
    → is_min_by_minus_one b a ≡ false
    → in_int64 (a *ℤ b) ≡ false
    → wrap (quot (wrap (a *ℤ b)) a) ≢ b
overflow_shows a b ha hb special out e =
    let le = divided_back a b (a *ℤ b) e in
    let z = too_large (a *ℤ b) out (omega (arith, magnitude-mul a b, le)) in
    least_product a b ha hb special z
      (sym (ap (λ t. wrap (quot (wrap t) a)) z ∙ ap (λ t. wrap (quot t a)) wrap_least) ∙ e)

zero_factor : (a b : ℤ) → int_beq a (pos 0) || int_beq b (pos 0) ≡ true → a *ℤ b ≡ pos 0
unfolding int_beq ◌*ℤ◌
zero_factor (pos zero) (pos n) h = ground arith
zero_factor (pos zero) (negsuc n) h = ground arith
zero_factor (pos (suc m)) (pos n) h = ground arith
zero_factor (pos (suc m)) (negsuc n) h = ground arith
zero_factor (negsuc m) (pos n) h = ground arith
zero_factor (negsuc m) (negsuc n) h = cc

special_product : (a b : ℤ) → is_min_by_minus_one a b ≡ true → in_int64 (a *ℤ b) ≡ false
unfolding int_beq ◌*ℤ◌ in_int64
special_product (negsuc m) (negsuc n) h = ground arith
special_product (pos m) b h = cc
special_product (negsuc m) (pos n) h = ground arith

mul_comm_ℤ : (a b : ℤ) → a *ℤ b ≡ b *ℤ a
unfolding ◌*ℤ◌
mul_comm_ℤ (pos m) (pos n) = ap pos (mul_comm m n)
mul_comm_ℤ (pos m) (negsuc n) = ap neg (mul_comm m (suc n))
mul_comm_ℤ (negsuc m) (pos n) = ap neg (mul_comm (suc m) n)
mul_comm_ℤ (negsuc m) (negsuc n) = ap pos (mul_comm (suc m) (suc n))

pub int64_test : (a : ℤ) → IsInt64 a → in_int64 a ≡ true
unfolding in_int64
int64_test (pos n) h = ground arith
int64_test (negsuc n) h = ground arith

-- The last test of `mulInt64`, for factors that are not zero.
last_test :
    (a b : ℤ)
    → IsInt64 b
    → int_beq a (pos 0) ≡ false
    → int_beq b (pos 0) ≡ false
    → is_min_by_minus_one b a ≡ false
    → int_beq (wrap (quot (wrap (a *ℤ b)) a)) b ≡ in_int64 (a *ℤ b)
last_test a b hb za zb special = elim (Bool-cases (in_int64 (a *ℤ b))) [
  | inl fits ↦
      rw (fits, wrap_self (a *ℤ b) fits, quot_mul a b za, wrap_self b (int64_test b hb))
        ((int_beq_iff b b).1 refl)
  | inr out ↦ rw out (
      ground (
        arith,
        overflow_shows a b za zb special out,
        int_beq_iff (wrap (quot (wrap (a *ℤ b)) a)) b,
      ))
]

mul_nonzero :
    (a b : ℤ)
    → IsInt64 b
    → int_beq a (pos 0) || int_beq b (pos 0) ≡ false
    → mul_int64 a b ≡ checked (a *ℤ b)
unfolding mul_int64 checked
mul_nonzero a b hb nz = rw nz (
    ground (
      arith,
      last_test a b hb,
      special_product a b,
      special_product b a,
      mul_comm_ℤ a b,
      wrap_self (a *ℤ b),
    ))

pub mul_int64-checked : (a b : ℤ) → IsInt64 a → IsInt64 b → mul_int64 a b ≡ checked (a *ℤ b)
mul_int64-checked a b ha hb = elim (Bool-cases (int_beq a (pos 0) || int_beq b (pos 0))) [
  | inl none_left ↦ unfold mul_int64 checked in_int64 in rw (none_left, zero_factor a b none_left)
  | inr nz ↦ mul_nonzero a b hb nz
]
