-- ===== src/Lex/Doors.antt =====
-- internal/lex/doors.go, internal/lex/keyword.go: what opens code in a text, and the scans behind it.
use quill_template_engine.Prelude.{
  ℕ, ◌+◌, Bool, true, false, ◌&&◌, ◌||◌, Option, none, some, List, [], ◌∷◌, Bytes, bytes_beq,
  bytes_eq, mem, codes, length, ◌==◌, if◌then◌else◌,
}
use quill_template_engine.Lex.Token.{
  Token, Trim, trim_none, quote_none, stmt, stmt_end, open_interp, close_interp, block_open,
  block_close, unterminated_comment,
}
use quill_template_engine.Lex.Cursor.{
  Cursor, Lexer, Scan, stopped, scanned, span, walk, advance, advance_by, take_open_trim,
  take_close_trim, is_keep, eat_one_newline, is_line_blank, is_newline, is_word_byte, is_close_trim,
  front_is, at_line_end, token, emit, errorf, at, set_line_start,
}
use quill_template_engine.Lex.Code.{scan_region}
use quill_template_engine.Lex.Heads.{interp_close, stmt_head_end}
use quill_template_engine.Lex.Verbatim.{trimmed, open_line, close_line}

abbrev pub statement_keywords : List Bytes
statement_keywords =
    codes "extends"
    ∷ codes "block"
    ∷ codes "for"
    ∷ codes "if"
    ∷ codes "elseif"
    ∷ codes "else"
    ∷ codes "macro"
    ∷ codes "set"
    ∷ codes "include"
    ∷ codes "import"
    ∷ codes "from"
    ∷ codes "use"
    ∷ codes "embed"
    ∷ codes "with"
    ∷ codes "apply"
    ∷ codes "do"
    ∷ codes "flush"
    ∷ codes "deprecated"
    ∷ codes "guard"
    ∷ codes "types"
    ∷ codes "escape"
    ∷ codes "sandbox"
    ∷ codes "verbatim"
    ∷ codes "line"
    ∷ codes "cache"
    ∷ codes "capture"
    ∷ codes "log"
    ∷ codes "tab"
    ∷ codes "provide"
    ∷ codes "yield"
    ∷ codes "call"
    ∷ []

-- The bytes of the word in front of a text.
unfoldable pub word_at : Bytes → Bytes
word_at [] = []
word_at (c ∷ s) = let word = word_at s in if is_word_byte c then c ∷ word else []

-- peekStatement, of what follows the '@'.
unfoldable pub peek_statement : Bytes → Option Bytes
unfolding word_at mem
peek_statement s = let word = word_at s in if mem word statement_keywords then some word else none

unfoldable pub peek_continuation : Bytes → Option Bytes
unfolding word_at
peek_continuation s =
    let word = word_at s in
    if bytes_beq word (codes "elseif") || bytes_beq word (codes "else") then some word else none

unfoldable pub skip_line_blanks : Bytes → Bytes
skip_line_blanks [] = []
skip_line_blanks (c ∷ s) = let rest = skip_line_blanks s in if is_line_blank c then rest else c ∷ s

abbrev pub without_close_trim : Bytes → Bytes
without_close_trim [] = []
without_close_trim (c ∷ s) = if is_close_trim c then s else c ∷ s

abbrev is_present : Option Bytes → Bool
is_present none = false
is_present (some word) = true

-- peekBlockClose, of what follows the '@'.
unfoldable pub peek_block_close : Bytes → Bool
unfolding skip_line_blanks peek_continuation
peek_block_close [] = false
peek_block_close (c ∷ s) =
    let rest = skip_line_blanks (without_close_trim s) in
    c == b'}' && (at_line_end rest || is_present (peek_continuation rest))

unfoldable pub close_interp_at : Lexer → Lexer
unfolding take_close_trim advance_by
close_interp_at l =
    let closed = take_close_trim l.cursor in
    set_line_start false
      (emit (trimmed close_interp closed.trim closed.behind) (at (advance_by 2 closed.behind) l))

abbrev pub opening : Trim → Cursor → Token
opening t p = record {
  kind = open_interp;
  text = [];
  line = p.line;
  col = p.col;
  trim_l = t;
  trim_r = trim_none;
  quote = quote_none;
}

unfoldable pub scan_interp : Lexer → Lexer
unfolding advance_by take_open_trim scan_region close_interp_at interp_close
scan_interp l =
    let opener = l.cursor in
    let opened = take_open_trim (advance_by 2 opener) in
    elim (scan_region interp_close opener
      (emit (opening opened.trim opener) (at opened.behind l))) [
        | stopped l' ↦ l'
        | scanned l' ↦ close_interp_at l'
      ]

-- none at the "#}" that closes the comment.
unfoldable pub comment_step : Unit {0} → ℕ → Bytes → Option (Unit {0})
comment_step u c s = if c == b'#' && front_is (λ d. d == b'}') s then none else some tt

-- A '+' behind the comment keeps the newline.
unfoldable pub close_comment : Cursor → Lexer → Lexer
unfolding advance eat_one_newline
close_comment p l =
    if front_is (λ c. c == b'+') p.rest
    then set_line_start false (at (advance p) l)
    else set_line_start (front_is is_newline p.rest) (at (eat_one_newline p) l)

unfoldable pub scan_comment : Lexer → Scan
unfolding advance_by walk comment_step close_comment
scan_comment l =
    let opener = l.cursor in
    let p = (walk comment_step tt (advance_by 2 opener)).after in
    elim p.rest [
      | [] ↦ stopped (errorf opener unterminated_comment (at p l))
      | c ∷ s ↦ scanned (close_comment (advance_by 2 p) l)
    ]

-- Behind a head: the '{' of a body, or the end of a line statement.
unfoldable pub end_head : Lexer → Lexer
unfolding advance take_close_trim open_line eat_one_newline
end_head l =
    let p = l.cursor in
    let opened = take_close_trim (advance p) in
    if front_is (λ c. c == b'{') p.rest
    then set_line_start
        (if is_keep opened.trim then false else front_is is_newline opened.behind.rest)
        (emit (trimmed block_open opened.trim p) (at (open_line opened.trim opened.behind) l))
    else set_line_start (front_is is_newline p.rest)
        (emit (token stmt_end [] p) (at (eat_one_newline p) l))

-- A keyword, with as many bytes in front of it, and its head: scanContinuation without any, scanStatement
-- with the '@'.
unfoldable pub scan_head : ℕ → Bytes → Lexer → Lexer
unfolding advance_by scan_region end_head stmt_head_end
scan_head sigil kw l =
    let opener = l.cursor in
    elim (scan_region stmt_head_end opener
      (emit (token stmt kw opener) (at (advance_by (sigil + length kw) opener) l))) [
        | stopped l' ↦ l'
        | scanned l' ↦ end_head l'
      ]

unfoldable pub scan_continuation : Bytes → Lexer → Lexer
unfolding scan_head
scan_continuation kw l = scan_head 0 kw l

unfoldable pub scan_statement : Bytes → Lexer → Lexer
unfolding scan_head
scan_statement kw l = scan_head 1 kw l

unfoldable pub scan_block_close : Lexer → Lexer
unfolding advance_by take_close_trim span scan_continuation peek_continuation close_line
scan_block_close l =
    let opener = l.cursor in
    let closed = take_close_trim (advance_by 2 opener) in
    let l' = emit (trimmed block_close closed.trim opener) (at closed.behind l) in
    let p = (span is_line_blank closed.behind).after in
    elim (peek_continuation p.rest) [
      | some kw ↦ scan_continuation kw (at p l')
      | none ↦ set_line_start true (at (close_line closed.trim closed.behind) l')
    ]
