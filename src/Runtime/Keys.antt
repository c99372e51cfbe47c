-- ===== src/Runtime/Keys.antt =====
-- The canonical key encodings of pkg/runtime/array.go: which string subscripts name integer slots.
-- A byte is a number below 256; an int64 accumulator is its bit pattern, a number below 2^64.
pub mod Canonical
pub mod Bound
pub mod Word
use quill_template_engine.Prelude.{
  ℕ, zero, suc, ◌+◌, ◌-◌, ◌*◌, ◌%◌, Bool, true, false, not, Option, none, some, List, [], ◌∷◌,
  Bytes, ltb, leb, ◌==◌, if◌then◌else◌, codes, length, get_elem?, bytes_ltb, ◌≡◌, refl,
}
use quill_template_engine.Prelude.Int.{ℤ, pos, negsuc, word_mod, of_word}
use quill_template_engine.Strconv.{format_int, parse_int, all_digits}

-- The integer at an index of `smallIntKeys`, which begins at smallIntKeyLo = -1.
abbrev pub small_int : ℕ → ℤ
small_int zero = negsuc 0
small_int (suc n) = pos n

abbrev pub small_int_count : ℕ
small_int_count = 257

unfoldable pub small_int_keys_from : ℕ → ℕ → List Bytes
small_int_keys_from zero i = []
small_int_keys_from (suc n) i = format_int (small_int i) ∷ small_int_keys_from n (suc i)

unfoldable pub small_int_keys : List Bytes
small_int_keys = small_int_keys_from small_int_count 0

-- k >= smallIntKeyLo && k <= smallIntKeyHi
unfoldable pub is_small : ℤ → Bool
is_small (pos n) = leb n 255
is_small (negsuc n) = n == 0

-- k - smallIntKeyLo
unfoldable pub small_index : ℤ → ℕ
small_index (pos n) = suc n
small_index (negsuc n) = 0

abbrev pub or_empty : Option Bytes → Bytes
or_empty none = []
or_empty (some s) = s

unfoldable pub canon_int : ℤ → Bytes
unfolding is_small small_index
canon_int k =
    if is_small k then or_empty (get_elem? small_int_keys (small_index k)) else format_int k

-- `s` is the whole text; the second argument is what stands behind an optional sign.
unfoldable pub looks_unsigned : Bytes → Bytes → Bool
looks_unsigned s [] = false
looks_unsigned s (d ∷ ds) = if d == b'0' then length s == 1 else all_digits (d ∷ ds)

unfoldable pub looks_canonical_int : Bytes → Bool
unfolding looks_unsigned
looks_canonical_int [] = false
looks_canonical_int (c ∷ cs) = looks_unsigned (c ∷ cs) (if c == b'-' then cs else c ∷ cs)

unfoldable pub parse_canonical_int : Bytes → Option ℤ
parse_canonical_int s = if looks_canonical_int s then parse_int s else none

-- The fits-int64 test on the digits behind the sign.
unfoldable pub fits_bound : Bytes → Bytes → Bool
fits_bound digits bound =
    if not (length digits == length bound)
    then ltb (length digits) (length bound)
    else not (bytes_ltb bound digits)

abbrev pub max_int64_text : Bytes
max_int64_text = codes "9223372036854775807"

abbrev pub min_int64_text : Bytes
min_int64_text = codes "9223372036854775808"

-- digits, bound: the text with no sign against MaxInt64, or behind "-" against -MinInt64.
unfoldable pub fits_int64 : Bytes → Bool
unfolding fits_bound
fits_int64 [] = fits_bound [] max_int64_text
fits_int64 (c ∷ cs) =
    if c == b'-' then fits_bound cs min_int64_text else fits_bound (c ∷ cs) max_int64_text

unfoldable pub is_canonical_int_key : Bytes → Bool
is_canonical_int_key enc = if not (looks_canonical_int enc) then false else fits_int64 enc

-- n = n*10 - int64(enc[i]-'0'), in int64; `enc[i]-'0'` is a byte.
unfoldable pub subtract_digits : ℕ → Bytes → ℕ
subtract_digits n [] = n
subtract_digits n (c ∷ cs) =
    subtract_digits ((n * 10 + (word_mod - (c + 256 - b'0') % 256)) % word_mod) cs

-- An empty encoding, an index fault in the source, does not occur: see the callers' gate.
unfoldable pub fast_canon_int : Bytes → ℤ
unfolding subtract_digits
fast_canon_int [] = pos 0
fast_canon_int (c ∷ cs) =
    if c == b'-'
    then of_word (subtract_digits 0 cs)
    else of_word ((word_mod - subtract_digits 0 (c ∷ cs)) % word_mod)

-- The encoding of a string subscript, and whether it names an integer slot.
abbrev pub encode_parsed : Bytes → Option ℤ → Bytes × Bool
encode_parsed s none = (s, false)
encode_parsed s (some i) = (canon_int i, true)

unfoldable pub canonicalize_string_key : Bytes → Bytes × Bool
canonicalize_string_key s = encode_parsed s (parse_canonical_int s)
