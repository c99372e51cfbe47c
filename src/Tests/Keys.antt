-- ===== src/Tests/Keys.antt =====
-- Subscripts.
use quill_template_engine.Prelude.{
  ℕ, ◌<◌, ◌^◌, true, some, codes, ◌≡◌, refl, ◌↔◌, arith, is_some, none, bytes_ltb,
}
use quill_template_engine.Prelude.Int.{pos, negsuc, IsInt64}
use quill_template_engine.Strconv.{format_int, all_digits}
use quill_template_engine.Runtime.Keys.{
  canon_int, parse_canonical_int, is_canonical_int_key, fast_canon_int, looks_canonical_int,
  fits_int64,
}
use quill_template_engine.Runtime.Keys.Canonical.{canon_int-eq-format_int, parse_canonical_int_iff}
use quill_template_engine.Runtime.Keys.Bound.{is_canonical_int_key-parse}
use quill_template_engine.Runtime.Keys.Word.{fast_canon_int-canon_int}
use quill_template_engine.Runtime.Value.{Value, int}
use quill_template_engine.Runtime.Array.{key_value}
use quill_template_engine.Runtime.Array.Slots.{key_text, key_text-key_value, key_value-format_int}

max_is_a_key : is_canonical_int_key (codes "9223372036854775807") ≡ true
unfolding is_canonical_int_key looks_canonical_int all_digits fits_int64 bytes_ltb
max_is_a_key = refl

leading_zero_is_text : parse_canonical_int (codes "01") ≡ none
unfolding parse_canonical_int looks_canonical_int
leading_zero_is_text = refl

canon_int-eq-format_int_example : canon_int (negsuc 0) ≡ format_int (negsuc 0)
canon_int-eq-format_int_example = canon_int-eq-format_int (negsuc 0)

parse_canonical_int_iff_example :
    (parse_canonical_int (codes "42") ≡ some (pos 42))
    ↔ ((codes "42" ≡ format_int (pos 42)) × IsInt64 (pos 42))
parse_canonical_int_iff_example = parse_canonical_int_iff (codes "42") (pos 42)

is_canonical_int_key-parse_example :
    is_canonical_int_key (codes "9223372036854775808")
    ≡ is_some (parse_canonical_int (codes "9223372036854775808"))
is_canonical_int_key-parse_example = is_canonical_int_key-parse (codes "9223372036854775808")

lowest : 9223372036854775807 < 2 ^ 63
lowest = omega arith

fast_canon_int-canon_int_example :
    fast_canon_int (canon_int (negsuc 9223372036854775807)) ≡ negsuc 9223372036854775807
fast_canon_int-canon_int_example = fast_canon_int-canon_int (negsuc 9223372036854775807) lowest

key_text-key_value_example : key_text (key_value {F = ℕ} {O = ℕ} (codes "-7")) ≡ codes "-7"
key_text-key_value_example = key_text-key_value ℕ ℕ (codes "-7")

key_value-format_int_example :
    ◌≡◌ {A = Value ℕ ℕ}
      (key_value (format_int (negsuc 9223372036854775807)))
      (int (negsuc 9223372036854775807))
key_value-format_int_example = key_value-format_int ℕ ℕ (negsuc 9223372036854775807) lowest
