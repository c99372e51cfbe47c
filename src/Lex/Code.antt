-- ===== src/Lex/Code.antt =====
-- internal/lex/code.go: scanCode, with the operators by maximal munch. The brackets' depth is an argument.
use quill_template_engine.Prelude.{
  ℕ, zero, suc, ◌-◌, Bool, true, false, not, ◌&&◌, ◌||◌, Option, none, some, [], ◌∷◌, Bytes, codes,
  length, ◌==◌, if◌then◌else◌,
}
use quill_template_engine.Lex.Token.{
  Kind, unterminated_interpolation, unexpected_byte, unfinished, lparen, rparen, lbracket, rbracket,
  lbrace, rbrace, spread, range, dot, comma, colon, bitor3, oror, pipe, equal, arrow, assign,
  not_equal, bang, spaceship, less_equal, less, greater_equal, greater, plus, typearrow, minus, pow,
  star, floordiv, slash, percent, tilde, coalesce, elvis, optdot, optbrack, question, andand, amp,
  caret,
}
use quill_template_engine.Lex.Cursor.{
  Cursor, Lexer, Scan, stopped, scanned, span, advance_by, has, token, emit, errorf, at, is_digit,
  is_ident_start, is_newline, is_line_blank,
}
use quill_template_engine.Lex.Strings.{scan_string}
use quill_template_engine.Lex.Numbers.{scan_name, scan_number}
use quill_template_engine.Lex.Heads.{is_quote}

pub data Nesting : Type 0 where
  opens closes keeps : Nesting

pub record Operator : Type 0 where
  pub kind : Kind
  pub width : ℕ
  pub nesting : Nesting

abbrev pub operator : Kind → ℕ → Nesting → Option Operator
operator k n d = some (record { kind = k; width = n; nesting = d })

-- The operator in front of the cursor, the longest one that fits.
unfoldable pub munch : ℕ → Bytes → Option Operator
unfolding has
munch c s =
    if c == b'('
    then operator lparen 1 opens
    else if c == b')'
    then operator rparen 1 closes
    else if c == b'['
    then operator lbracket 1 opens
    else if c == b']'
    then operator rbracket 1 closes
    else if c == b'{'
    then operator lbrace 1 opens
    else if c == b'}'
    then operator rbrace 1 closes
    else if c == b'.'
    then (if has (codes "...") s
        then operator spread 3 keeps
        else if has (codes "..") s
        then operator range 2 keeps
        else operator dot 1 keeps)
    else if c == b','
    then operator comma 1 keeps
    else if c == b':'
    then operator colon 1 keeps
    else if c == b'|'
    then (if has (codes "|||") s
        then operator bitor3 3 keeps
        else if has (codes "||") s
        then operator oror 2 keeps
        else operator pipe 1 keeps)
    else if c == b'='
    then (if has (codes "==") s
        then operator equal 2 keeps
        else if has (codes "=>") s
        then operator arrow 2 keeps
        else operator assign 1 keeps)
    else if c == b'!'
    then (if has (codes "!=") s then operator not_equal 2 keeps else operator bang 1 keeps)
    else if c == b'<'
    then (if has (codes "<=>") s
        then operator spaceship 3 keeps
        else if has (codes "<=") s
        then operator less_equal 2 keeps
        else operator less 1 keeps)
    else if c == b'>'
    then (if has (codes ">=") s then operator greater_equal 2 keeps else operator greater 1 keeps)
    else if c == b'+'
    then operator plus 1 keeps
    else if c == b'-'
    then (if has (codes "->") s then operator typearrow 2 keeps else operator minus 1 keeps)
    else if c == b'*'
    then (if has (codes "**") s then operator pow 2 keeps else operator star 1 keeps)
    else if c == b'/'
    then (if has (codes "//") s then operator floordiv 2 keeps else operator slash 1 keeps)
    else if c == b'%'
    then operator percent 1 keeps
    else if c == b'~'
    then operator tilde 1 keeps
    else if c == b'?'
    then (if has (codes "??") s
        then operator coalesce 2 keeps
        else if has (codes "?:") s
        then operator elvis 2 keeps
        else if has (codes "?.") s
        then operator optdot 2 keeps
        else if has (codes "?[") s
        then operator optbrack 2 opens
        else operator question 1 keeps)
    else if c == b'&'
    then (if has (codes "&&") s then operator andand 2 keeps else operator amp 1 keeps)
    else if c == b'^'
    then operator caret 1 keeps
    else none

-- The depth stops at zero.
abbrev pub nested : Nesting → ℕ → ℕ
nested opens depth = suc depth
nested closes depth = depth - 1
nested keeps depth = depth

-- One round of the loop: a fault, or the lexer and the depth for the next round.
pub data Round : Type 0 where
  faulted : Lexer → Round
  continues : Lexer → ℕ → Round

abbrev pub after_string : ℕ → Scan → Round
after_string depth (stopped l) = faulted l
after_string depth (scanned l) = continues l depth

unfoldable pub op : ℕ → Option Operator → ℕ → Lexer → Round
unfolding advance_by
op c none depth l = faulted (errorf l.cursor (unexpected_byte c) l)
op c (some o) depth l =
    continues (emit (token o.kind [] l.cursor) (at (advance_by o.width l.cursor) l))
      (nested o.nesting depth)

abbrev pub is_space : ℕ → Bool
is_space c = is_line_blank c || is_newline c

-- At the byte in front of the cursor.
unfoldable pub code_round : ℕ → ℕ → Lexer → Round
unfolding span advance_by scan_string scan_number scan_name op munch
code_round c depth l =
    if is_space c
    then continues (at (advance_by 1 l.cursor) l) depth
    else if c == b'#'
    then continues (at (span (λ d. not (is_newline d)) l.cursor).after l) depth
    else if is_quote c
    then after_string depth (scan_string c l)
    else if is_digit c
    then continues (scan_number l) depth
    else if is_ident_start c
    then continues (scan_name l) depth
    else op c (munch c l.cursor.rest) depth l

unfoldable pub code_end : (Bytes → Bool) → Cursor → Lexer → Scan
code_end stop opener l =
    if stop l.cursor.rest then scanned l else stopped (errorf opener unterminated_interpolation l)

unfoldable pub scan_code : ℕ → (Bytes → Bool) → Cursor → ℕ → Lexer → Scan
unfolding code_round code_end
scan_code zero stop opener depth l = stopped (errorf opener unfinished l)
scan_code (suc rounds) stop opener depth l = elim l.cursor.rest [
  | [] ↦ code_end stop opener l
  | c ∷ s ↦ elim (depth == 0 && stop (c ∷ s)) [
    | true ↦ scanned l
    | false ↦ elim (code_round c depth l) [
      | faulted l' ↦ stopped l'
      | continues l' deeper ↦ scan_code rounds stop opener deeper l'
    ]
  ]
]

-- Each round moves the cursor, so the rounds are one more than the bytes.
unfoldable pub scan_region : (Bytes → Bool) → Cursor → Lexer → Scan
unfolding scan_code
scan_region stop opener l = scan_code (suc (length l.cursor.rest)) stop opener 0 l
