-- ===== src/Lex/VerbatimLaws.antt =====
-- internal/lex/verbatim.go: the bytes of a verbatim body.
use quill_template_engine.Prelude.{
  ℕ, suc, Bool, false, ◌||◌, none, some, List, [], ◌∷◌, ◌++◌, Bytes, mem, nat_eq, ◌==◌, ◌≡◌, refl,
  arith, ap,
}
use quill_template_engine.Prelude.Int.{pos, int_beq}
use quill_template_engine.Lex.Token.{Token, Trim, trim_none, block_open, block_close, verbatim}
use quill_template_engine.Lex.Cursor.{
  Cursor, Lexer, scanned, Span, walk, walk_bytes, advance, token, emit, next_line, next_col,
  front_is, take_close_trim, eat_one_newline,
}
use quill_template_engine.Lex.Verbatim.{
  trimmed, braced_step, close_braced, scan_verbatim_braced, open_line,
}
use quill_template_engine.Lex.Advance.{from}

abbrev closing : Bytes → Bytes
closing s = b'@' ∷ b'}' ∷ s

-- A byte of a body, in front of a byte that is no '}'.
abbrev is_brace : ℕ → Bool
is_brace c = c == b'{' || c == b'}'

braced_step-copied :
    (c : ℕ) (s : Bytes)
    → is_brace c ≡ false
    → front_is (λ d. d == b'}') s ≡ false
    → braced_step (pos 1) c s ≡ some (pos 1)
unfolding braced_step
braced_step-copied c s h k = ground arith

front-closing :
    (b s : Bytes) → mem b'}' b ≡ false → front_is (λ d. d == b'}') (b ++ closing s) ≡ false
unfolding mem
front-closing [] s h = refl
front-closing (c ∷ b) s h = ground arith

braced_step-closing : (s : Bytes) → braced_step (pos 1) b'@' (b'}' ∷ s) ≡ none
unfolding braced_step int_beq
braced_step-closing s = refl

no_braces :
    (c : ℕ) (b : Bytes)
    → mem b'{' (c ∷ b) ≡ false
    → mem b'}' (c ∷ b) ≡ false
    → (is_brace c ≡ false) × (mem b'{' b ≡ false) × (mem b'}' b ≡ false)
unfolding mem
no_braces c b h k = ground arith

-- The loop passes the body and stands at the "@}".
walk-closing :
    (b s : Bytes) (line col : ℕ)
    → mem b'{' b ≡ false
    → mem b'}' b ≡ false
    → ((walk_bytes braced_step (pos 1) (b ++ closing s) line col).taken ≡ b)
      × ((walk_bytes braced_step (pos 1) (b ++ closing s) line col).after.rest ≡ closing s)
unfolding walk_bytes mem
walk-closing [] s line col h k = rw (braced_step-closing s, walk_bytes) (refl, refl)
walk-closing (c ∷ b) s line col h k =
    let more =
      walk-closing b s (next_line c line) (next_col c col) (no_braces c b h k).1
        (no_braces c b h k).2 in
    rw
      (
        braced_step-copied c (b ++ closing s) (no_braces c b h k).0
            (front-closing b s (no_braces c b h k).2),
        walk_bytes,
      )
      (ap (λ x. c ∷ x) more.0, more.1)

close_braced-closing :
    (opener start : Cursor) (b s : Bytes) (body : Span) (l : Lexer)
    → body.taken ≡ b
    → body.after.rest ≡ closing s
    → (l' : Lexer) × (t : Trim) × (close_braced opener start body l ≡ scanned l')
      × (l'.out ≡ (l.out ++ token verbatim b start ∷ []) ++ trimmed block_close t body.after ∷ [])
unfolding close_braced
close_braced-closing opener start b s body l e f = rw (f, close_braced, e) (_, _, refl, refl)

-- A braced verbatim region that opens with `{` and a newline, and whose body has no brace, gives
-- the tokens of the opener, of the body byte for byte at the start of the next line, and of the
-- close, whatever comes behind its `@}`.
pub scan_verbatim_braced-body :
    (b s : Bytes) (line col : ℕ) (out : List Token) (line_start : Bool)
    → mem b'{' b ≡ false
    → mem b'}' b ≡ false
    → (l' : Lexer) × (t : Trim) × (p : Cursor) × (scan_verbatim_braced (record {
      cursor = from (b'{' ∷ b'\n' ∷ (b ++ b'@' ∷ b'}' ∷ s)) line col;
      out = out;
      at_line_start = line_start;
    })
        ≡ scanned l')
      × (l'.out
          ≡ ((out ++ trimmed block_open trim_none (from [] line col) ∷ [])
              ++ token verbatim b (from [] (suc line) 1) ∷ [])
            ++ trimmed block_close t p ∷ [])
unfolding scan_verbatim_braced open_line advance take_close_trim eat_one_newline walk
scan_verbatim_braced-body b s line col out line_start h k =
    let (taken, rest) = walk-closing b s (suc line) 1 h k in
    let body = walk_bytes braced_step (pos 1) (b ++ closing s) (suc line) 1 in
    let p = from (b'{' ∷ b'\n' ∷ (b ++ closing s)) line col in
    let (l', t, e, f) =
      close_braced-closing p (from (b ++ closing s) (suc line) 1) b s body
        (emit (trimmed block_open trim_none p)
          (record { cursor = p; out = out; at_line_start = line_start }))
        taken rest in
    (l', t, body.after, e, f)
