-- ===== src/Lex/Heads.antt =====
-- internal/lex/code.go: where a region of code ends, and whether a '{' in a head opens a mapping.
use quill_template_engine.Prelude.{
  ℕ, suc, Bool, true, false, not, ◌&&◌, ◌||◌, [], ◌∷◌, Bytes, ◌==◌, if◌then◌else◌,
}
use quill_template_engine.Lex.Cursor.{front_is, is_blank, is_close_trim}

abbrev pub two_braces : Bytes → Bool
two_braces (c ∷ d ∷ s) = c == b'}' && d == b'}'
two_braces _ = false

-- scanInterpClose
unfoldable pub interp_close : Bytes → Bool
interp_close [] = false
interp_close (c ∷ s) = if is_close_trim c then two_braces s else two_braces (c ∷ s)

unfoldable pub skip_blanks : Bytes → Bytes
skip_blanks [] = []
skip_blanks (c ∷ s) = let rest = skip_blanks s in if is_blank c then rest else c ∷ s

abbrev pub lone_assign : Bytes → Bool
lone_assign (c ∷ s) = c == b'=' && not (front_is (λ d. d == b'=') s)
lone_assign _ = false

unfoldable pub assign_follows : Bytes → Bool
unfolding skip_blanks
assign_follows s = lone_assign (skip_blanks s)

-- How the peek reads the next byte: outside strings, in one with this quote, behind a backslash of one.
pub data Place : Type 0 where
  outside : Place
  in_string behind_backslash : ℕ → Place

-- The peek knows the answer, or goes on at a depth.
pub data Peek : Type 0 where
  answer : Bool → Peek
  goes_on : Place → ℕ → Peek

unfoldable pub close_bracket : ℕ → Bytes → Peek
unfolding assign_follows
close_bracket (suc (suc depth)) s = goes_on outside (suc depth)
close_bracket _ s = answer (assign_follows s)

abbrev pub is_quote : ℕ → Bool
is_quote c = c == b'\'' || (c == b'"' || c == b'`')

abbrev pub two_dots : Bytes → Bool
two_dots (c ∷ d ∷ s) = c == b'.' && d == b'.'
two_dots _ = false

unfoldable pub peek_step : Place → ℕ → ℕ → Bytes → Peek
unfolding close_bracket
peek_step outside depth c s =
    if c == b'{' || (c == b'(' || c == b'[')
    then goes_on outside (suc depth)
    else if c == b'}' || (c == b')' || c == b']')
    then close_bracket depth s
    else if is_quote c
    then goes_on (in_string c) depth
    else if c == b':'
    then (if depth == 1 then answer true else goes_on outside depth)
    else if c == b'.'
    then (if depth == 1 && two_dots s then answer true else goes_on outside depth)
    else if c == b'\n'
    then answer false
    else goes_on outside depth
peek_step (in_string quote) depth c s =
    if not (quote == b'`') && c == b'\\'
    then goes_on (behind_backslash quote) depth
    else if c == quote
    then goes_on outside depth
    else goes_on (in_string quote) depth
peek_step (behind_backslash quote) depth c s = goes_on (in_string quote) depth

unfoldable pub map_loop : Place → ℕ → Bytes → Bool
unfolding peek_step
map_loop place depth [] = false
map_loop place depth (c ∷ s) = elim (peek_step place depth c s) [
  | answer b ↦ b
  | goes_on next deeper ↦ map_loop next deeper s
]

-- mapAhead, of what follows the '{'.
unfoldable pub map_ahead : Bytes → Bool
unfolding skip_blanks map_loop
map_ahead s =
    let body = skip_blanks s in
    if front_is (λ c. c == b'}') body then true else map_loop outside 1 body

-- scanStmtHeadEnd
unfoldable pub stmt_head_end : Bytes → Bool
unfolding map_ahead
stmt_head_end [] = true
stmt_head_end (c ∷ s) = if c == b'\n' then true else if c == b'{' then not (map_ahead s) else false
