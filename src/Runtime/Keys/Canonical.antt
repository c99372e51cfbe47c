-- ===== src/Runtime/Keys/Canonical.antt =====
-- `parseCanonicalInt` and `canonInt` beside the decimal prints.
use native.Mathlib.Nat.{add-zero, zero-add}
use quill_template_engine.Prelude.{
  ℕ, zero, suc, ◌+◌, ◌-◌, ◌<◌, ◌≤◌, ◌^◌, true, false, some, [], ◌∷◌, Bytes, ◌≡◌, refl, ◌∙◌, ap,
  arith, get_elem?, append-nil, ◌↔◌,
}
use quill_template_engine.Prelude.Int.{ℤ, pos, negsuc, neg, IsInt64}
use quill_template_engine.Strconv.{
  digits, format_int, parse_int, parse_magnitude, all_digits, value,
}
use quill_template_engine.Strconv.Decimal.{
  digits_last, digits-value, value-digits, all_digits-digits, StartsWell, digits-StartsWell,
  le-value,
}
use quill_template_engine.Runtime.Keys.{
  small_int, small_int_keys_from, small_int_keys, canon_int, looks_unsigned, looks_canonical_int,
  parse_canonical_int,
}

get_elem?-small :
    (n i j : ℕ)
    → j < n
    → get_elem? (small_int_keys_from n i) j ≡ some (format_int (small_int (i + j)))
unfolding small_int_keys_from
get_elem?-small zero i j h = absurd (omega arith)
get_elem?-small (suc n) i zero h = rw add-zero
get_elem?-small (suc n) i (suc j) h =
    let shift : suc i + j ≡ i + suc j = omega arith in
    rw (← shift) (get_elem?-small n (suc i) j (omega arith))

get_elem?-small_int_keys :
    (j : ℕ) → j < 257 → get_elem? small_int_keys j ≡ some (format_int (small_int j))
unfolding small_int_keys
get_elem?-small_int_keys j h =
    get_elem?-small 257 0 j h ∙ ap (λ t. some (format_int (small_int t))) (zero-add j)

-- The interned keys are the prints.
pub canon_int-eq-format_int : (k : ℤ) → canon_int k ≡ format_int k
unfolding canon_int
canon_int-eq-format_int (pos n) = ground (arith, get_elem?-small_int_keys (suc n))
canon_int-eq-format_int (negsuc n) = ground (arith, get_elem?-small_int_keys 0)

-- Digits with a leading one that is not "0" are the print of their value, which is positive.
digits_of_canonical :
    (d : ℕ) (ds : Bytes)
    → b'0' < d
    → all_digits (d ∷ ds) ≡ true
    → (digits (value 0 (d ∷ ds)) [] ≡ d ∷ ds) × (0 < value 0 (d ∷ ds))
unfolding value all_digits
digits_of_canonical d ds h a = (
  ground (arith, digits-value (d - b'0') ds [], append-nil ds, digits_last (d - b'0') ds),
  ground (arith, le-value (d - b'0') ds),
)

format_int-neg : (n : ℕ) → 0 < n → format_int (neg n) ≡ b'-' ∷ digits n []
unfolding format_int
format_int-neg zero h = absurd (omega arith)
format_int-neg (suc n) h = refl

neg-IsInt64 : (n : ℕ) → n ≤ 2 ^ 63 → IsInt64 (neg n)
neg-IsInt64 zero h = omega arith
neg-IsInt64 (suc n) h = h

abbrev Prints : Bytes → ℤ → Type 0
Prints s i = (s ≡ format_int i) × IsInt64 i

signed_sound :
    (cs : Bytes) (i : ℤ)
    → looks_unsigned (b'-' ∷ cs) cs ≡ true
    → parse_magnitude true cs ≡ some i
    → Prints (b'-' ∷ cs) i
unfolding looks_unsigned parse_magnitude
signed_sound [] i l p = cc
signed_sound (d ∷ ds) i l p =
    let n = value 0 (d ∷ ds) in
    (ground (arith, digits_of_canonical d ds, format_int-neg n), ground (arith, neg-IsInt64 n))

unsigned_sound :
    (s : Bytes) (i : ℤ) → looks_unsigned s s ≡ true → parse_magnitude false s ≡ some i → Prints s i
unfolding looks_unsigned parse_magnitude format_int
unsigned_sound [] i l p = cc
unsigned_sound (d ∷ []) i l p = ground (arith, digits_of_canonical d [], digits_last (d - b'0') [])
unsigned_sound (d ∷ e ∷ ds) i l p = ground (arith, digits_of_canonical d (e ∷ ds))

parse_sound : (s : Bytes) (i : ℤ) → parse_canonical_int s ≡ some i → Prints s i
unfolding parse_canonical_int parse_int looks_canonical_int
parse_sound [] i h = cc
parse_sound (c ∷ cs) i h = ground (arith, signed_sound cs i, unsigned_sound (c ∷ cs) i)

-- The print of a number, taken apart.
record IsPrintOf (n : ℕ) (s : Bytes) : Type 0 where
  starts : StartsWell n s
  all_are_digits : all_digits s ≡ true
  spells : value 0 s ≡ n

digits-IsPrintOf : (n : ℕ) → IsPrintOf n (digits n [])
unfolding value
digits-IsPrintOf n = record {
  starts = digits-StartsWell n;
  all_are_digits = all_digits-digits n;
  spells = value-digits n [];
}

parse_print :
    (n : ℕ) (s : Bytes) → 0 < n → n < 2 ^ 63 → IsPrintOf n s → parse_canonical_int s ≡ some (pos n)
unfolding parse_canonical_int parse_int looks_canonical_int
parse_print n [] h b v = absurd v.starts
parse_print n (d ∷ ds) h b v = ground (arith, v.starts.2 h, v.all_are_digits, v.spells)

parse_negative_print :
    (n : ℕ) (s : Bytes)
    → 0 < n
    → n ≤ 2 ^ 63
    → IsPrintOf n s
    → parse_canonical_int (b'-' ∷ s) ≡ some (neg n)
unfolding parse_canonical_int parse_int looks_canonical_int
parse_negative_print n [] h b v = absurd v.starts
parse_negative_print n (d ∷ ds) h b v = ground (arith, v.starts.2 h, v.all_are_digits, v.spells)

parse_complete : (i : ℤ) → IsInt64 i → parse_canonical_int (format_int i) ≡ some i
unfolding format_int
parse_complete (pos zero) h =
    rw (digits_last 0 [] (omega arith))
      (unfold parse_canonical_int parse_int looks_canonical_int in refl)
parse_complete (pos (suc n)) h = parse_print (suc n) _ (omega arith) h (digits-IsPrintOf (suc n))
parse_complete (negsuc n) h =
    parse_negative_print (suc n) _ (omega arith) h (digits-IsPrintOf (suc n))

-- `parseCanonicalInt` accepts a text as the integer `i` exactly when `i` is an int64 and the text
-- is the decimal print of `i`.
pub parse_canonical_int_iff :
    (s : Bytes) (i : ℤ) → (parse_canonical_int s ≡ some i) ↔ ((s ≡ format_int i) × IsInt64 i)
parse_canonical_int_iff s i = (parse_sound s i, λ p. rw (p.0) (parse_complete i p.1))
