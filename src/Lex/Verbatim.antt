-- ===== src/Lex/Verbatim.antt =====
-- internal/lex/verbatim.go. The depth of the braces is an integer: a '}' in front of its '{' takes it below.
use quill_template_engine.Prelude.{
  ℕ, zero, suc, Bool, true, false, ◌&&◌, Option, none, some, [], ◌∷◌, ◌++◌, Bytes, bytes_beq, codes,
  length, ◌==◌, if◌then◌else◌,
}
use quill_template_engine.Prelude.Int.{ℤ, pos, negsuc, ◌+ℤ◌, int_beq}
use quill_template_engine.Lex.Token.{
  Token, Kind, Trim, trim_none, quote_none, stmt, block_open, block_close, verbatim,
  unterminated_verbatim, missing_fence, unterminated_fence, unfinished,
}
use quill_template_engine.Lex.Cursor.{
  Cursor, Lexer, Scan, stopped, scanned, Span, span, walk, advance, advance_by, take_close_trim,
  is_keep, eat_one_newline, skip_trailing_horizontal_ws, is_blank, is_line_blank, is_newline,
  front_is, token, emit, errorf, at, set_line_start,
}

-- A delimiter with the trim on its right side.
abbrev pub trimmed : Kind → Trim → Cursor → Token
trimmed k t p = record {
  kind = k;
  text = [];
  line = p.line;
  col = p.col;
  trim_l = trim_none;
  trim_r = t;
  quote = quote_none;
}

-- none at the "@}" that closes the region.
unfoldable pub braced_step : ℤ → ℕ → Bytes → Option ℤ
unfolding int_beq ◌+ℤ◌
braced_step depth c s =
    if int_beq depth (pos 1) && (c == b'@' && front_is (λ d. d == b'}') s)
    then none
    else if c == b'{'
    then some (depth +ℤ pos 1)
    else if c == b'}'
    then some (depth +ℤ negsuc 0)
    else some depth

-- Behind a close that is not kept, the rest of a blank line goes.
unfoldable pub close_line : Trim → Cursor → Cursor
unfolding skip_trailing_horizontal_ws eat_one_newline
close_line t p = if is_keep t then p else eat_one_newline (skip_trailing_horizontal_ws p)

unfoldable pub open_line : Trim → Cursor → Cursor
unfolding eat_one_newline
open_line t p = if is_keep t then p else eat_one_newline p

-- The body, from where it starts to the cursor; there the region closes, or the input has ended.
unfoldable pub close_braced : Cursor → Cursor → Span → Lexer → Scan
unfolding advance_by take_close_trim close_line
close_braced opener start body l = elim body.after.rest [
  | [] ↦ stopped (errorf opener unterminated_verbatim (at body.after l))
  | c ∷ s ↦
      let closed = take_close_trim (advance_by 2 body.after) in
      let l' = emit (token verbatim body.taken start) l in
      scanned (
        set_line_start true (
          at (close_line closed.trim closed.behind)
            (emit (trimmed block_close closed.trim body.after) l')))
]

unfoldable pub scan_verbatim_braced : Lexer → Scan
unfolding advance take_close_trim open_line walk braced_step close_braced
scan_verbatim_braced l =
    let opened = take_close_trim (advance l.cursor) in
    let start = open_line opened.trim opened.behind in
    close_braced l.cursor start (walk braced_step (pos 1) start)
      (emit (trimmed block_open opened.trim l.cursor) l)

-- strings.TrimRight(s, " \t\r")
unfoldable pub trim_line_blanks : Bytes → Bytes
trim_line_blanks [] = []
trim_line_blanks (c ∷ s) = elim (trim_line_blanks s) [
  | [] ↦ if is_line_blank c then [] else c ∷ []
  | d ∷ t ↦ c ∷ d ∷ t
]

abbrev pub in_line : ℕ → Bool
in_line c = if is_newline c then false else true

abbrev pub line_break : Bytes → Bytes
line_break [] = []
line_break (c ∷ s) = b'\n' ∷ []

-- The loop over the lines of the body, which has these bytes so far.
unfoldable pub fenced_lines : ℕ → Bytes → Cursor → Cursor → Bytes → Cursor → Lexer → Scan
unfolding span advance eat_one_newline trim_line_blanks
fenced_lines zero fence opener start body p l = stopped (errorf opener unfinished (at p l))
fenced_lines (suc rounds) fence opener start body p l = elim p.rest [
  | [] ↦ stopped (errorf opener (unterminated_fence fence) (at p l))
  | c ∷ s ↦
      let read = span in_line p in
      elim (bytes_beq (trim_line_blanks read.taken) fence) [
        | true ↦ scanned (
            set_line_start true
              (emit (token verbatim body start) (at (eat_one_newline read.after) l)))
        | false ↦
            fenced_lines rounds fence opener start
              (body ++ read.taken ++ line_break read.after.rest) (advance read.after) l
      ]
]

-- Each line moves the cursor, so the rounds are one more than the bytes.
unfoldable pub scan_verbatim_fenced : Cursor → Lexer → Scan
unfolding span eat_one_newline trim_line_blanks fenced_lines
scan_verbatim_fenced opener l =
    let first = span in_line l.cursor in
    let start = eat_one_newline first.after in
    elim (trim_line_blanks first.taken) [
      | [] ↦ stopped (errorf opener missing_fence (at first.after l))
      | c ∷ fence ↦ fenced_lines (suc (length start.rest)) (c ∷ fence) opener start [] start l
    ]

unfoldable pub scan_verbatim : Lexer → Scan
unfolding span advance_by scan_verbatim_braced scan_verbatim_fenced
scan_verbatim l =
    let opener = l.cursor in
    let p = (span is_blank (advance_by 9 opener)).after in
    let l' = at p (emit (token stmt (codes "verbatim") opener) l) in
    if front_is (λ c. c == b'{') p.rest
    then scan_verbatim_braced l'
    else scan_verbatim_fenced opener l'
