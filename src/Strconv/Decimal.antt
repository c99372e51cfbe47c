-- ===== src/Strconv/Decimal.antt =====
-- Lemmas on decimal digits.
use native.Mathlib.Nat.{mul-le-mul_right}
use quill_template_engine.Prelude.{
  ℕ, zero, suc, ◌+◌, ◌-◌, ◌*◌, ◌/◌, ◌%◌, ◌≤◌, ◌<◌, true, [], ◌∷◌, ◌++◌, Bytes, ltb, ◌≡◌, refl,
  arith, length, bytes_ltb, Bool-cases, inl, inr,
}
use quill_template_engine.Strconv.{emit, digits, all_digits, value}

-- Fuel above the number is enough, and more makes no difference.
emit_fuel : (f g n : ℕ) (out : Bytes) → n < f → n < g → emit f n out ≡ emit g n out
unfolding emit
emit_fuel zero g n out h k = absurd (omega arith)
emit_fuel (suc f) zero n out h k = absurd (omega arith)
emit_fuel (suc f) (suc g) n out h k = ground (arith, emit_fuel f g (n / 10) ((b'0' + n % 10) ∷ out))

pub digits_last : (n : ℕ) (out : Bytes) → n < 10 → digits n out ≡ (b'0' + n) ∷ out
unfolding digits emit
digits_last n out h = ground arith

pub digits_step :
    (n : ℕ) (out : Bytes) → 10 ≤ n → digits n out ≡ digits (n / 10) ((b'0' + n % 10) ∷ out)
unfolding digits emit
digits_step n out h = ground (arith, emit_fuel n (suc (n / 10)) (n / 10) ((b'0' + n % 10) ∷ out))

-- Printing what digits spell behind a positive `v` prints `v` and then those digits.
pub digits-value :
    (v : ℕ) (s out : Bytes)
    → 0 < v
    → all_digits s ≡ true
    → digits (value v s) out ≡ digits v (s ++ out)
unfolding value all_digits
digits-value v [] out h d = refl
digits-value v (c ∷ s) out h d =
    let w = v * 10 + (c - b'0') in ground (arith, digits-value w s out, digits_step w (s ++ out))

value-emit : (f n : ℕ) (out : Bytes) → n < f → value 0 (emit f n out) ≡ value n out
unfolding emit value
value-emit zero n out h = absurd (omega arith)
value-emit (suc f) n out h = ground (arith, value-emit f (n / 10) ((b'0' + n % 10) ∷ out))

pub value-digits : (n : ℕ) (out : Bytes) → value 0 (digits n out) ≡ value n out
unfolding digits
value-digits n out = value-emit (suc n) n out (omega arith)

all_digits-emit : (f n : ℕ) (out : Bytes) → all_digits out ≡ true → all_digits (emit f n out) ≡ true
unfolding emit all_digits
all_digits-emit zero n out h = h
all_digits-emit (suc f) n out h = ground (arith, all_digits-emit f (n / 10) ((b'0' + n % 10) ∷ out))

pub all_digits-digits : (n : ℕ) → all_digits (digits n []) ≡ true
unfolding digits all_digits
all_digits-digits n = all_digits-emit (suc n) n [] refl

-- The first byte of a print is a digit, and "0" only in the print of 0.
abbrev pub StartsWell : ℕ → Bytes → Type 0
StartsWell n [] = ⊥
StartsWell n (c ∷ s) = (b'0' ≤ c) × (c ≤ b'9') × (0 < n → b'0' < c)

StartsWell-weaken : (n m : ℕ) (s : Bytes) → 0 < m → StartsWell m s → StartsWell n s
StartsWell-weaken n m (c ∷ s) h w = (w.0, w.1, λ _. w.2 h)
StartsWell-weaken n m [] h w = w

emit-StartsWell : (f n : ℕ) (out : Bytes) → n < f → StartsWell n (emit f n out)
unfolding emit
emit-StartsWell zero n out h = absurd (omega arith)
emit-StartsWell (suc f) n out h = elim (Bool-cases (ltb n 10)) [
  | inl small ↦ rw small (ground arith)
  | inr large ↦
      rw large (
        StartsWell-weaken n (n / 10) _ (ground arith) (emit-StartsWell f (n / 10) _ (ground arith)))
]

pub digits-StartsWell : (n : ℕ) → StartsWell n (digits n [])
unfolding digits
digits-StartsWell n = emit-StartsWell (suc n) n [] (omega arith)

-- Digits of one length are ordered as their values are.
value_mono :
    (u v : ℕ) (a b : Bytes)
    → u < v
    → all_digits a ≡ true
    → length a ≡ length b
    → value u a < value v b
unfolding value all_digits
value_mono u v [] [] h da e = h
value_mono u v (x ∷ a) (y ∷ b) h da e =
    ground (arith, value_mono (u * 10 + (x - b'0')) (v * 10 + (y - b'0')) a b)
value_mono u v _ _ h da e = absurd (omega arith)

pub bytes_ltb-value :
    (v : ℕ) (a b : Bytes)
    → all_digits a ≡ true
    → all_digits b ≡ true
    → length a ≡ length b
    → bytes_ltb a b ≡ ltb (value v a) (value v b)
unfolding value all_digits bytes_ltb
bytes_ltb-value v [] [] da db e = ground arith
bytes_ltb-value v (x ∷ a) (y ∷ b) da db e = ground (
  arith,
  bytes_ltb-value (v * 10 + (x - b'0')) a b,
  value_mono (v * 10 + (x - b'0')) (v * 10 + (y - b'0')) a b,
  value_mono (v * 10 + (y - b'0')) (v * 10 + (x - b'0')) b a,
)
bytes_ltb-value v _ _ da db e = absurd (omega arith)

abbrev pub pow10 : ℕ → ℕ
pow10 zero = 1
pow10 (suc k) = 10 * pow10 k

pow10_pos : (k : ℕ) → 0 < pow10 k
pow10_pos zero = omega arith
pow10_pos (suc k) = omega (arith, pow10_pos k)

scale_up : (w v p : ℕ) → w ≤ v * 10 + 9 → (w + 1) * p ≤ (v + 1) * (10 * p)
scale_up w v p h = omega (arith, mul-le-mul_right {m = w + 1} {n = 10 * (v + 1)} p (omega arith))

scale_down : (w v p : ℕ) → v * 10 ≤ w → v * (10 * p) ≤ w * p
scale_down w v p h = omega (arith, mul-le-mul_right {m = v * 10} {n = w} p h)

pub le-value : (v : ℕ) (s : Bytes) → v ≤ value v s
unfolding value
le-value v [] = omega arith
le-value v (c ∷ s) = omega (arith, le-value (v * 10 + (c - b'0')) s)

pub value-lt-pow10 :
    (v k : ℕ) (s : Bytes) → all_digits s ≡ true → length s ≤ k → value v s < (v + 1) * pow10 k
unfolding value all_digits
value-lt-pow10 v k [] d h = grind (arith, pow10_pos k)
value-lt-pow10 v zero (c ∷ s) d h = absurd (omega arith)
value-lt-pow10 v (suc k) (c ∷ s) d h =
    let w = v * 10 + (c - b'0') in ground (arith, value-lt-pow10 w k s, scale_up w v (pow10 k))

pub pow10-le-value :
    (v k : ℕ) (s : Bytes) → all_digits s ≡ true → k ≤ length s → v * pow10 k ≤ value v s
unfolding value all_digits
pow10-le-value v zero s d h = omega (arith, le-value v s)
pow10-le-value v (suc k) [] d h = absurd (omega arith)
pow10-le-value v (suc k) (c ∷ s) d h =
    let w = v * 10 + (c - b'0') in ground (arith, pow10-le-value w k s, scale_down w v (pow10 k))
