-- ===== src/Lex/Cursor.antt =====
-- internal/lex/lexer.go, internal/lex/scan.go: the state of the scan, and how the cursor moves. The cursor is
-- the rest of the input with the line and the column of its first byte.
use quill_template_engine.Prelude.{
  ℕ, zero, suc, Bool, true, false, ◌&&◌, ◌||◌, Option, none, some, List, [], ◌∷◌, ◌++◌, Bytes,
  length, take, ◌-◌, leb, ◌==◌, if◌then◌else◌,
}
use quill_template_engine.Lex.Token.{
  Token, Kind, Fault, error, Trim, trim_none, trim_hard, trim_line, trim_keep, quote_none,
}

pub record Cursor : Type 0 where
  pub rest : Bytes
  pub line : ℕ
  pub col : ℕ

abbrev pub next_line : ℕ → ℕ → ℕ
next_line c line = if c == b'\n' then suc line else line

abbrev pub next_col : ℕ → ℕ → ℕ
next_col c col = if c == b'\n' then 1 else suc col

unfoldable pub advance : Cursor → Cursor
advance p = elim p.rest [
  | [] ↦ p
  | c ∷ s ↦ record { rest = s; line = next_line c p.line; col = next_col c p.col }
]

unfoldable pub advance_by : ℕ → Cursor → Cursor
unfolding advance
advance_by zero p = p
advance_by (suc n) p = advance_by n (advance p)

-- A loop that moves the cursor byte by byte while its state goes on: the bytes it passes.
pub record Span : Type 0 where
  pub taken : Bytes
  pub after : Cursor

abbrev pub longer : ℕ → Span → Span
longer c more = record { taken = c ∷ more.taken; after = more.after }

unfoldable pub walk_bytes {ℓ} : {M : Type ℓ} → (M → ℕ → Bytes → Option M) → M → Bytes → ℕ → ℕ → Span
walk_bytes step m [] line col = record {
  taken = [];
  after = record { rest = []; line = line; col = col };
}
walk_bytes step m (c ∷ s) line col = elim (step m c s) [
  | none ↦ record { taken = []; after = record { rest = c ∷ s; line = line; col = col } }
  | some next ↦ longer c (walk_bytes step next s (next_line c line) (next_col c col))
]

unfoldable pub walk {ℓ} : {M : Type ℓ} → (M → ℕ → Bytes → Option M) → M → Cursor → Span
unfolding walk_bytes
walk step m p = walk_bytes step m p.rest p.line p.col

-- The loop `for l.pos < len(l.in) && test(l.in[l.pos]) { l.advance() }`.
abbrev pub while_test : (ℕ → Bool) → Unit {0} → ℕ → Bytes → Option (Unit {0})
while_test test u c s = if test c then some tt else none

unfoldable pub span : (ℕ → Bool) → Cursor → Span
unfolding walk
span test p = walk (while_test test) tt p

-- l.in[start:l.pos]
abbrev pub slice : Cursor → Cursor → Bytes
slice p q = take (length p.rest - length q.rest) p.rest

pub record Lexer : Type 0 where
  pub cursor : Cursor
  pub out : List Token
  pub at_line_start : Bool

-- A token without trims and quote, with the place of its first byte.
abbrev pub token : Kind → Bytes → Cursor → Token
token k text p = record {
  kind = k;
  text = text;
  line = p.line;
  col = p.col;
  trim_l = trim_none;
  trim_r = trim_none;
  quote = quote_none;
}

abbrev pub emit : Token → Lexer → Lexer
emit t l = record { cursor = l.cursor; out = l.out ++ t ∷ []; at_line_start = l.at_line_start }

-- errorf, at the place of a cursor.
abbrev pub errorf : Cursor → Fault → Lexer → Lexer
errorf p f l = emit (token (error f) [] p) l

abbrev pub at : Cursor → Lexer → Lexer
at p l = record { cursor = p; out = l.out; at_line_start = l.at_line_start }

abbrev pub set_line_start : Bool → Lexer → Lexer
set_line_start b l = record { cursor = l.cursor; out = l.out; at_line_start = b }

-- What a scan reports: a fault was emitted and the caller must stop, or it goes on.
pub data Scan : Type 0 where
  stopped : Lexer → Scan
  scanned : Lexer → Scan

abbrev pub front_is : (ℕ → Bool) → Bytes → Bool
front_is test [] = false
front_is test (c ∷ s) = test c

-- l.has
unfoldable pub has : Bytes → Bytes → Bool
has [] s = true
has (c ∷ t) [] = false
has (c ∷ t) (d ∷ s) = c == d && has t s

-- An optional trim in front of the cursor, and the cursor behind it.
pub record Taken : Type 0 where
  pub trim : Trim
  pub behind : Cursor

unfoldable pub take_open_trim : Cursor → Taken
unfolding advance
take_open_trim p =
    if front_is (λ c. c == b'-') p.rest
    then record { trim = trim_hard; behind = advance p }
    else if front_is (λ c. c == b'~') p.rest
    then record { trim = trim_line; behind = advance p }
    else record { trim = trim_none; behind = p }

unfoldable pub take_close_trim : Cursor → Taken
unfolding advance
take_close_trim p =
    if front_is (λ c. c == b'-') p.rest
    then record { trim = trim_hard; behind = advance p }
    else if front_is (λ c. c == b'~') p.rest
    then record { trim = trim_line; behind = advance p }
    else if front_is (λ c. c == b'+') p.rest
    then record { trim = trim_keep; behind = advance p }
    else record { trim = trim_none; behind = p }

abbrev pub is_keep : Trim → Bool
is_keep trim_keep = true
is_keep _ = false

abbrev pub is_close_trim : ℕ → Bool
is_close_trim b = b == b'-' || (b == b'~' || b == b'+')

abbrev pub is_digit : ℕ → Bool
is_digit b = leb b'0' b && leb b b'9'

abbrev pub is_hex_byte : ℕ → Bool
is_hex_byte b = is_digit b || ((leb b'a' b && leb b b'f') || (leb b'A' b && leb b b'F'))

abbrev pub is_ident_start : ℕ → Bool
is_ident_start b =
    b == b'_' || ((leb b'a' b && leb b b'z') || ((leb b'A' b && leb b b'Z') || leb 0x80 b))

abbrev pub is_word_byte : ℕ → Bool
is_word_byte b = is_ident_start b || is_digit b

abbrev pub is_blank : ℕ → Bool
is_blank c = c == b' ' || c == b'\t'

abbrev pub is_line_blank : ℕ → Bool
is_line_blank c = c == b' ' || (c == b'\t' || c == b'\r')

abbrev pub is_newline : ℕ → Bool
is_newline c = c == b'\n'

-- eatOneNewline: the cursor, and whether there was a newline.
unfoldable pub eat_one_newline : Cursor → Cursor
unfolding advance
eat_one_newline p = if front_is is_newline p.rest then advance p else p

-- skipTrailingHorizontalWS
abbrev pub at_line_end : Bytes → Bool
at_line_end [] = true
at_line_end (c ∷ s) = is_newline c

unfoldable pub skip_trailing_horizontal_ws : Cursor → Cursor
unfolding span
skip_trailing_horizontal_ws p =
    let run = span is_line_blank p in if at_line_end run.after.rest then run.after else p
