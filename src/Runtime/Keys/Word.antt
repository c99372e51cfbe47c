-- ===== src/Runtime/Keys/Word.antt =====
-- `fastCanonInt` in int64 arithmetic.
use quill_template_engine.Prelude.{
  ℕ, suc, ◌+◌, ◌-◌, ◌*◌, ◌%◌, ◌<◌, ◌≤◌, ◌^◌, true, [], ◌∷◌, Bytes, ◌≡◌, refl, ◌∙◌, arith,
}
use quill_template_engine.Prelude.Int.{ℤ, pos, negsuc, IsInt64, word_mod, of_word}
use quill_template_engine.Strconv.{format_int, all_digits, value, digits}
use quill_template_engine.Strconv.Decimal.{
  value-digits, all_digits-digits, digits-StartsWell, le-value, StartsWell,
}
use quill_template_engine.Runtime.Keys.{canon_int, subtract_digits, fast_canon_int}
use quill_template_engine.Runtime.Keys.Canonical.{canon_int-eq-format_int}

-- The pattern of -n.
abbrev neg_word : ℕ → ℕ
neg_word n = (word_mod - n) % word_mod

subtract_one :
    (n c : ℕ)
    → b'0' ≤ c
    → c ≤ b'9'
    → n * 10 + (c - b'0') ≤ 2 ^ 63
    → (neg_word n * 10 + (word_mod - (c + 256 - b'0') % 256)) % word_mod
      ≡ neg_word (n * 10 + (c - b'0'))
subtract_one n c lo hi fits = omega arith

-- While the digits spell at most 2^63, the accumulator holds the negated value.
subtract_digits-value :
    (n : ℕ) (s : Bytes)
    → all_digits s ≡ true
    → value n s ≤ 2 ^ 63
    → subtract_digits (neg_word n) s ≡ neg_word (value n s)
unfolding subtract_digits value all_digits
subtract_digits-value n [] a fits = refl
subtract_digits-value n (c ∷ cs) a fits =
    let m = n * 10 + (c - b'0') in
    ground (arith, subtract_one n c, le-value m cs, subtract_digits-value m cs)

fold_positive :
    (n : ℕ) (s : Bytes)
    → n < 2 ^ 63
    → StartsWell n s
    → all_digits s ≡ true
    → value 0 s ≡ n
    → fast_canon_int s ≡ pos n
unfolding fast_canon_int of_word
fold_positive n [] h w a v = absurd w
fold_positive n (c ∷ cs) h w a v = ground (arith, subtract_digits-value 0 (c ∷ cs), w.0)

fold_negative :
    (n : ℕ) (s : Bytes)
    → n < 2 ^ 63
    → all_digits s ≡ true
    → value 0 s ≡ suc n
    → fast_canon_int (b'-' ∷ s) ≡ negsuc n
unfolding fast_canon_int of_word
fold_negative n s h a v = ground (arith, subtract_digits-value 0 s)

-- Folding the encoding of an int64 key back in 64-bit arithmetic gives the key, the least int64
-- included.
pub fast_canon_int-canon_int : (k : ℤ) → IsInt64 k → fast_canon_int (canon_int k) ≡ k
fast_canon_int-canon_int (pos n) h = rw (canon_int-eq-format_int (pos n)) (
    unfold format_int in
    fold_positive n (digits n []) h (digits-StartsWell n) (all_digits-digits n)
      (value-digits n [] ∙ unfold value in refl))
fast_canon_int-canon_int (negsuc n) h = rw (canon_int-eq-format_int (negsuc n)) (
    unfold format_int in
    fold_negative n (digits (suc n) []) h (all_digits-digits (suc n))
      (value-digits (suc n) [] ∙ unfold value in refl))
