-- ===== src/Lex/Numbers.antt =====
-- internal/lex/literal.go: scanName and scanNumber.
use quill_template_engine.Prelude.{
  ℕ, Bool, false, ◌&&◌, ◌||◌, Option, none, some, [], ◌∷◌, Bytes, bytes_beq, codes, ◌==◌,
  if◌then◌else◌,
}
use quill_template_engine.Lex.Token.{
  Kind, int, float, true_literal, false_literal, null_literal, name,
}
use quill_template_engine.Lex.Cursor.{
  Cursor, Lexer, span, advance, advance_by, slice, token, emit, at, front_is, is_digit, is_hex_byte,
  is_word_byte,
}

unfoldable pub word_kind : Bytes → Kind
word_kind word =
    if bytes_beq word (codes "true")
    then true_literal
    else if bytes_beq word (codes "false")
    then false_literal
    else if bytes_beq word (codes "null") || bytes_beq word (codes "none")
    then null_literal
    else name

unfoldable pub scan_name : Lexer → Lexer
unfolding span word_kind
scan_name l =
    let start = l.cursor in
    let p = (span is_word_byte start).after in
    let word = slice start p in emit (token (word_kind word) word start) (at p l)

-- strings.ReplaceAll(raw, "_", "")
unfoldable pub without_underscores : Bytes → Bytes
without_underscores [] = []
without_underscores (c ∷ s) =
    let rest = without_underscores s in if c == b'_' then rest else c ∷ rest

unfoldable pub emit_number : Kind → Cursor → Cursor → Lexer → Lexer
unfolding without_underscores
emit_number k start p l = emit (token k (without_underscores (slice start p)) start) (at p l)

abbrev pub is_base_letter : ℕ → Bool
is_base_letter c =
    c == b'x' || (c == b'X' || (c == b'b' || (c == b'B' || (c == b'o' || c == b'O'))))

abbrev pub base_follows : Bytes → Bool
base_follows (c ∷ s) = c == b'0' && front_is is_base_letter s
base_follows _ = false

abbrev pub fraction_follows : Bytes → Bool
fraction_follows (c ∷ s) = c == b'.' && front_is is_digit s
fraction_follows _ = false

abbrev is_sign : ℕ → Bool
is_sign c = c == b'+' || c == b'-'

-- The bytes of an exponent in front of its digits; none where there is no exponent.
unfoldable pub exponent_width : Bytes → Option ℕ
exponent_width (c ∷ d ∷ s) =
    if c == b'e' || c == b'E'
    then (if is_sign d
        then (if front_is is_digit s then some 2 else none)
        else if is_digit d
        then some 1
        else none)
    else none
exponent_width _ = none

abbrev pub is_digit_or_separator : ℕ → Bool
is_digit_or_separator c = is_digit c || c == b'_'

abbrev pub is_hex_or_separator : ℕ → Bool
is_hex_or_separator c = is_hex_byte c || c == b'_'

unfoldable pub skip_fraction : Cursor → Cursor
unfolding span advance
skip_fraction p =
    if fraction_follows p.rest then (span is_digit_or_separator (advance p)).after else p

unfoldable pub scan_exponent : Kind → Cursor → Cursor → Lexer → Lexer
unfolding span advance_by exponent_width emit_number
scan_exponent k start p l = elim (exponent_width p.rest) [
  | none ↦ emit_number k start p l
  | some n ↦ emit_number float start (span is_digit_or_separator (advance_by n p)).after l
]

unfoldable pub scan_number : Lexer → Lexer
unfolding span advance_by emit_number skip_fraction scan_exponent
scan_number l =
    let start = l.cursor in
    let whole = (span is_digit_or_separator start).after in
    if base_follows start.rest
    then emit_number int start (span is_hex_or_separator (advance_by 2 start)).after l
    else if fraction_follows whole.rest
    then scan_exponent float start (skip_fraction whole) l
    else scan_exponent int start whole l
