-- ===== src/Runtime/Keys/Bound.antt =====
-- `isCanonicalIntKey` beside `parseCanonicalInt`.
use quill_template_engine.Prelude.{
  ℕ, ◌-◌, ◌<◌, ◌≤◌, ◌^◌, true, false, [], ◌∷◌, Bytes, ltb, leb, ◌≡◌, refl, ◌∙◌, arith, length,
  bytes_ltb, is_some,
}
use quill_template_engine.Strconv.{parse_int, parse_magnitude, all_digits, value}
use quill_template_engine.Strconv.Decimal.{value-lt-pow10, pow10-le-value, bytes_ltb-value}
use quill_template_engine.Runtime.Keys.{
  looks_unsigned, looks_canonical_int, parse_canonical_int, fits_bound, fits_int64,
  is_canonical_int_key, max_int64_text, min_int64_text,
}

-- Against a bound of nineteen digits the test compares the values.
fits_bound-value :
    (d : ℕ) (ds bound : Bytes)
    → b'0' < d
    → all_digits (d ∷ ds) ≡ true
    → all_digits bound ≡ true
    → length bound ≡ 19
    → 10 ^ 18 ≤ value 0 bound
    → value 0 bound < 10 ^ 19
    → fits_bound (d ∷ ds) bound ≡ leb (value 0 (d ∷ ds)) (value 0 bound)
unfolding fits_bound value all_digits
fits_bound-value d ds bound h a b l lo hi = ground (
  arith,
  bytes_ltb-value 0 bound (d ∷ ds),
  value-lt-pow10 (d - b'0') 17 ds,
  pow10-le-value (d - b'0') 19 ds,
)

fits_max :
    (d : ℕ) (ds : Bytes)
    → b'0' < d
    → all_digits (d ∷ ds) ≡ true
    → fits_bound (d ∷ ds) max_int64_text ≡ ltb (value 0 (d ∷ ds)) (2 ^ 63)
unfolding value all_digits
fits_max d ds h a =
    fits_bound-value d ds max_int64_text h a refl refl (omega arith) (omega arith) ∙ ground arith

fits_min :
    (d : ℕ) (ds : Bytes)
    → b'0' < d
    → all_digits (d ∷ ds) ≡ true
    → fits_bound (d ∷ ds) min_int64_text ≡ leb (value 0 (d ∷ ds)) (2 ^ 63)
unfolding value all_digits
fits_min d ds h a = fits_bound-value d ds min_int64_text h a refl refl (omega arith) (omega arith)

zero_fits : fits_bound (b'0' ∷ []) max_int64_text ≡ true
unfolding fits_bound bytes_ltb
zero_fits = refl

unsigned_agrees :
    (s : Bytes)
    → looks_unsigned s s ≡ true
    → fits_bound s max_int64_text ≡ is_some (parse_magnitude false s)
unfolding looks_unsigned parse_magnitude
unsigned_agrees [] l = cc
unsigned_agrees (d ∷ []) l = ground (arith, fits_max d [], zero_fits)
unsigned_agrees (d ∷ e ∷ ds) l = ground (arith, fits_max d (e ∷ ds))

signed_agrees :
    (cs : Bytes)
    → looks_unsigned (b'-' ∷ cs) cs ≡ true
    → fits_bound cs min_int64_text ≡ is_some (parse_magnitude true cs)
unfolding looks_unsigned parse_magnitude
signed_agrees [] l = cc
signed_agrees (d ∷ ds) l = ground (arith, fits_min d ds)

-- `isCanonicalIntKey`, which only looks at shape and bounds, holds exactly where
-- `parseCanonicalInt` succeeds.
pub is_canonical_int_key-parse :
    (s : Bytes) → is_canonical_int_key s ≡ is_some (parse_canonical_int s)
unfolding is_canonical_int_key parse_canonical_int parse_int looks_canonical_int fits_int64
is_canonical_int_key-parse [] = refl
is_canonical_int_key-parse (c ∷ cs) = ground (arith, signed_agrees cs, unsigned_agrees (c ∷ cs))
