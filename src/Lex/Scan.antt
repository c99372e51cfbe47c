-- ===== src/Lex/Scan.antt =====
-- internal/lex/lexer.go: Lex, run and scanText.
use quill_template_engine.Prelude.{
  ℕ, zero, suc, ◌+◌, Bool, true, false, ◌&&◌, ◌||◌, Option, none, some, List, [], ◌∷◌, ◌++◌, Bytes,
  bytes_beq, codes, length, take, ◌==◌, if◌then◌else◌,
}
use quill_template_engine.Source.{Source}
use quill_template_engine.Lex.Token.{Token, text, eof, is_error, unfinished}
use quill_template_engine.Lex.Cursor.{
  Cursor, Lexer, Scan, stopped, scanned, next_line, next_col, front_is, token, emit, errorf, at,
  set_line_start,
}
use quill_template_engine.Lex.Doors.{
  peek_statement, peek_block_close, scan_interp, scan_comment, scan_statement, scan_block_close,
}
use quill_template_engine.Lex.Verbatim.{scan_verbatim}
use quill_template_engine.Lex.Trims.{apply_trims}

pub data Door : Type 0 where
  interp comment verbatim block_close : Door
  statement : Bytes → Door

-- What the loop of scanText does at a byte: it leaves at a door, takes an escaped byte, or copies the byte.
pub data TextStep : Type 0 where
  leaves : Door → TextStep
  escaped copied : TextStep

unfoldable pub line_door : Bytes → TextStep
unfolding peek_statement peek_block_close
line_door s = elim (peek_statement s) [
  | some kw ↦ if bytes_beq kw (codes "verbatim") then leaves verbatim else leaves (statement kw)
  | none ↦ if peek_block_close s then leaves block_close else copied
]

abbrev pub is_escapable : ℕ → Bool
is_escapable d = d == b'{' || (d == b'}' || d == b'\\')

unfoldable pub text_step : Bool → ℕ → Bytes → TextStep
unfolding line_door
text_step line_start c s =
    if c == b'{' && front_is (λ d. d == b'{') s
    then leaves interp
    else if c == b'{' && front_is (λ d. d == b'#') s
    then leaves comment
    else if line_start && c == b'@'
    then line_door s
    else if c == b'\\' && front_is is_escapable s
    then escaped
    else copied

-- The text before a door, the length of its lines before the current one, and the place and the line-start
-- flag at the door.
pub record Segment : Type 0 where
  pub door : Option Door
  pub text : Bytes
  pub line_mark : ℕ
  pub cursor : Cursor
  pub line_start : Bool

abbrev pub segment : Option Door → Bytes → ℕ → ℕ → ℕ → Bool → Bytes → Segment
segment d b mark line col line_start s = record {
  door = d;
  text = b;
  line_mark = mark;
  cursor = record { rest = s; line = line; col = col };
  line_start = line_start;
}

abbrev pub stays_at_start : Bool → ℕ → Bool
stays_at_start line_start c = c == b'\n' || (line_start && (c == b' ' || c == b'\t'))

abbrev pub mark_line : ℕ → Bytes → ℕ → ℕ
mark_line c b mark = if c == b'\n' then length b + 1 else mark

unfoldable pub text_loop : Bool → Bytes → ℕ → ℕ → ℕ → Bytes → Segment
unfolding text_step
text_loop line_start b mark line col [] = segment none b mark line col line_start []
text_loop line_start b mark line col (c ∷ []) = elim (text_step line_start c []) [
  | leaves d ↦ segment (some d) b mark line col line_start (c ∷ [])
  | _ ↦
      text_loop (stays_at_start line_start c) (b ++ c ∷ []) (mark_line c b mark) (next_line c line)
        (next_col c col) []
]
text_loop line_start b mark line col (c ∷ d ∷ s) = elim (text_step line_start c (d ∷ s)) [
  | leaves door ↦ segment (some door) b mark line col line_start (c ∷ d ∷ s)
  | escaped ↦
      text_loop line_start (b ++ d ∷ []) mark (next_line d (next_line c line))
        (next_col d (next_col c col)) s
  | copied ↦
      text_loop (stays_at_start line_start c) (b ++ c ∷ []) (mark_line c b mark) (next_line c line)
        (next_col c col) (d ∷ s)
]

-- A TEXT token for a text that is not empty.
abbrev pub flush : Bytes → Cursor → Lexer → Lexer
flush [] start l = l
flush (c ∷ s) start l = emit (token text (c ∷ s) start) l

unfoldable pub enter : Option Door → Bytes → ℕ → Cursor → Lexer → Scan
unfolding scan_interp scan_comment scan_statement scan_block_close scan_verbatim
enter none b mark start l = scanned (flush b start l)
enter (some interp) b mark start l = scanned (scan_interp (flush b start l))
enter (some comment) b mark start l = scan_comment (flush b start l)
enter (some verbatim) b mark start l = scan_verbatim (flush (take mark b) start l)
enter (some (statement kw)) b mark start l =
    scanned (scan_statement kw (flush (take mark b) start l))
enter (some block_close) b mark start l = scanned (scan_block_close (flush (take mark b) start l))

unfoldable pub scan_text : Lexer → Scan
unfolding text_loop enter
scan_text l =
    let start = l.cursor in
    let found = text_loop l.at_line_start [] 0 start.line start.col start.rest in
    enter found.door found.text found.line_mark start
      (set_line_start found.line_start (at found.cursor l))

abbrev pub ends_in_error : List Token → Bool
ends_in_error [] = false
ends_in_error (t ∷ []) = is_error t.kind
ends_in_error (t ∷ u ∷ ts) = ends_in_error (u ∷ ts)

abbrev pub emit_eof : Lexer → Lexer
emit_eof l = emit (token eof [] l.cursor) l

unfoldable pub run : ℕ → Lexer → Lexer
unfolding scan_text
run zero l = emit_eof (errorf l.cursor unfinished l)
run (suc rounds) l = elim l.cursor.rest [
  | [] ↦ emit_eof l
  | c ∷ s ↦ elim (scan_text l) [
    | stopped l' ↦ emit_eof l'
    | scanned l' ↦ elim (ends_in_error l'.out) [ true ↦ emit_eof l' | false ↦ run rounds l' ]
  ]
]

abbrev pub start_lexer : Bytes → Lexer
start_lexer code = record {
  cursor = record { rest = code; line = 1; col = 1 };
  out = [];
  at_line_start = true;
}

-- The stream of a source. Each segment moves the cursor, so the rounds are one more than the bytes.
unfoldable pub scan : Bytes → List Token
unfolding run
scan code = (run (suc (length code)) (start_lexer code)).out

unfoldable pub lex : Source → List Token
unfolding scan apply_trims
lex src = apply_trims (scan src.code)
