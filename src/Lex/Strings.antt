-- ===== src/Lex/Strings.antt =====
-- internal/lex/literal.go: scanString. The loops are state machines: a state says how the byte in front of
-- the cursor is read, none that it is the closing quote.
use quill_template_engine.Prelude.{
  ℕ, zero, suc, true, false, Option, none, some, [], ◌∷◌, Bytes, ◌==◌, if◌then◌else◌,
}
use quill_template_engine.Lex.Token.{
  Fault, Quote, string, unterminated_raw_string, unterminated_single, unterminated_double,
  quote_single, quote_double, quote_backtick, trim_none,
}
use quill_template_engine.Lex.Cursor.{
  Cursor, Lexer, Scan, stopped, scanned, walk, span, advance, slice, emit, errorf, at, front_is,
}

-- In a quoted string; the byte behind a backslash; the '{' of an interpolation; in so many braces of one.
pub data Mode : Type 0 where
  in_text behind_backslash at_brace : Mode
  in_braces : ℕ → Mode

unfoldable pub single_step : Mode → ℕ → Bytes → Option Mode
single_step in_text c s =
    if c == b'\\' then some behind_backslash else if c == b'\'' then none else some in_text
single_step _ c s = some in_text

-- The braces that are left behind a byte; none of them and the text goes on.
abbrev pub fewer_braces : ℕ → Mode
fewer_braces zero = in_text
fewer_braces (suc zero) = in_text
fewer_braces (suc (suc n)) = in_braces (suc n)

unfoldable pub double_step : Mode → ℕ → Bytes → Option Mode
double_step in_text c s =
    if c == b'\\'
    then some behind_backslash
    else if c == b'#'
    then (if front_is (λ d. d == b'{') s then some at_brace else some in_text)
    else if c == b'"'
    then none
    else some in_text
double_step behind_backslash c s = some in_text
double_step at_brace c s = some (in_braces 1)
double_step (in_braces n) c s =
    if c == b'{'
    then some (in_braces (suc n))
    else if c == b'}'
    then some (fewer_braces n)
    else some (in_braces n)

-- The cursor stands at the closing quote, or the input has ended.
unfoldable pub close_string : Fault → Quote → Cursor → Cursor → Lexer → Scan
unfolding advance
close_string fault quote start p l = elim p.rest [
  | [] ↦ stopped (errorf start fault (at p l))
  | c ∷ s ↦
      let text = slice start (advance p) in
      scanned (
        emit
          (record {
            kind = string;
            text = text;
            line = start.line;
            col = start.col;
            trim_l = trim_none;
            trim_r = trim_none;
            quote = quote;
          })
          (at (advance p) l))
]

unfoldable pub scan_string : ℕ → Lexer → Scan
unfolding span walk single_step double_step close_string advance
scan_string quote l =
    let start = l.cursor in
    let p = advance start in
    if quote == b'`'
    then close_string unterminated_raw_string quote_backtick start
        (span (λ c. if c == b'`' then false else true) p).after l
    else if quote == b'\''
    then close_string unterminated_single quote_single start (walk single_step in_text p).after l
    else close_string unterminated_double quote_double start (walk double_step in_text p).after l
