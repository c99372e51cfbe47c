-- ===== src/Strconv.antt =====
-- What the runtime uses of Go's strconv: the decimal print and parse of an int64.
pub mod Decimal
use quill_template_engine.Prelude.{
  ℕ, zero, suc, ◌+◌, ◌-◌, ◌*◌, ◌/◌, ◌%◌, ◌^◌, Bool, true, false, ◌&&◌, Option, none, some, [], ◌∷◌,
  Bytes, ltb, leb, ◌==◌, if◌then◌else◌, ◌≡◌, refl, codes,
}
use quill_template_engine.Prelude.Int.{ℤ, pos, negsuc, neg}

-- One digit a round, the last digit first; the fuel bounds the rounds.
unfoldable pub emit : ℕ → ℕ → Bytes → Bytes
emit zero n out = out
emit (suc fuel) n out =
    let digit = b'0' + n % 10 in
    let rest = emit fuel (n / 10) (digit ∷ out) in if ltb n 10 then digit ∷ out else rest

-- The decimal digits of `n` in front of `out`.
unfoldable pub digits : ℕ → Bytes → Bytes
digits n out = emit (suc n) n out

-- strconv.FormatInt(k, 10)
unfoldable pub format_int : ℤ → Bytes
format_int (pos n) = digits n []
format_int (negsuc n) = b'-' ∷ digits (suc n) []

abbrev pub is_digit : ℕ → Bool
is_digit c = leb b'0' c && leb c b'9'

unfoldable pub all_digits : Bytes → Bool
all_digits [] = true
all_digits (c ∷ s) = is_digit c && all_digits s

-- The number that digits spell behind `n`.
unfoldable pub value : ℕ → Bytes → ℕ
value n [] = n
value n (c ∷ s) = value (n * 10 + (c - b'0')) s

-- The digits of a signed literal; none for a sign alone or another byte. The range is tested on the
-- exact value, where strconv stops at the first digit that leaves uint64: both refuse the same texts.
unfoldable pub parse_magnitude : Bool → Bytes → Option ℤ
unfolding all_digits value
parse_magnitude negative [] = none
parse_magnitude negative (c ∷ s) =
    let n = value 0 (c ∷ s) in
    if all_digits (c ∷ s)
    then (if negative
        then (if leb n (2 ^ 63) then some (neg n) else none)
        else (if ltb n (2 ^ 63) then some (pos n) else none))
    else none

-- strconv.ParseInt(s, 10, 64), its error as none
unfoldable pub parse_int : Bytes → Option ℤ
unfolding parse_magnitude
parse_int [] = none
parse_int (c ∷ s) =
    if c == b'-'
    then parse_magnitude true s
    else if c == b'+'
    then parse_magnitude false s
    else parse_magnitude false (c ∷ s)

format_runs : format_int (negsuc 1204) ≡ codes "-1205"
unfolding format_int digits emit
format_runs = refl

parse_runs : parse_int (codes "-9223372036854775808") ≡ some (negsuc 9223372036854775807)
unfolding parse_int
parse_runs = refl
