-- ===== src/Lex/Literal.antt =====
-- internal/lex/lexer.go: scanText, and the text that it makes of bytes that it does not copy.
use quill_template_engine.Prelude.{
  ℕ, zero, suc, ◌≤◌, Bool, true, false, none, some, [], ◌∷◌, ◌++◌, Bytes, bytes_beq, codes, length,
  mem, nat_eq, if◌then◌else◌, ◌==◌, ◌≡◌, refl, arith, sym, ap, ◌∙◌, Bool-cases, append_assoc,
  append-nil, inl, inr,
}
use quill_template_engine.Lex.Token.{Token, eof, text}
use quill_template_engine.Lex.Cursor.{
  Cursor, Lexer, scanned, at, set_line_start, token, next_line, next_col,
}
use quill_template_engine.Lex.Advance.{from}
use quill_template_engine.Lex.Doors.{peek_statement, scan_statement}
use quill_template_engine.Lex.Scan.{
  Segment, segment, text_step, text_loop, scan_text, escaped, copied, leaves, statement,
  is_escapable, start_lexer, scan, flush, run, enter, line_door, stays_at_start, mark_line,
  ends_in_error,
}

-- A text with a backslash in front of each brace and backslash.
unfoldable pub protect : Bytes → Bytes
protect [] = []
protect (c ∷ s) = let rest = protect s in if is_escapable c then b'\\' ∷ c ∷ rest else c ∷ rest

text_step-escaped :
    (line_start : Bool) (c : ℕ) (s : Bytes)
    → is_escapable c ≡ true
    → text_step line_start b'\\' (c ∷ s) ≡ escaped
unfolding text_step
text_step-escaped line_start c s h = elim (Bool-cases line_start) [
  | inl e ↦ rw (e, h) refl
  | inr e ↦ rw (e, h) refl
]

text_step-copied :
    (line_start : Bool) (c : ℕ) (s : Bytes)
    → is_escapable c ≡ false
    → c == b'@' ≡ false
    → text_step line_start c s ≡ copied
unfolding text_step
text_step-copied line_start c s h k = ground arith

-- The loop ends with the text.
abbrev Reads : Bytes → Segment → Type 0
Reads b g = (g.door ≡ none) × (g.text ≡ b) × (g.cursor.rest ≡ [])

text_loop-copied :
    (line_start : Bool) (b : Bytes) (mark line col c : ℕ) (s : Bytes)
    → text_step line_start c s ≡ copied
    → text_loop line_start b mark line col (c ∷ s)
      ≡ text_loop
          (stays_at_start line_start c)
          (b ++ c ∷ [])
          (mark_line c b mark)
          (next_line c line)
          (next_col c col)
          s
unfolding text_loop
text_loop-copied line_start b mark line col c [] e = rw (e, text_loop) refl
text_loop-copied line_start b mark line col c (d ∷ s) e = rw (e, text_loop) refl

text_loop-escaped :
    (line_start : Bool) (b : Bytes) (mark line col c d : ℕ) (s : Bytes)
    → text_step line_start c (d ∷ s) ≡ escaped
    → text_loop line_start b mark line col (c ∷ d ∷ s)
      ≡ text_loop line_start
          (b ++ d ∷ [])
          mark
          (next_line d (next_line c line))
          (next_col d (next_col c col))
          s
unfolding text_loop
text_loop-escaped line_start b mark line col c d s e = rw (e, text_loop) refl

protect-escaped :
    (c : ℕ) (s : Bytes) → is_escapable c ≡ true → protect (c ∷ s) ≡ b'\\' ∷ c ∷ protect s
unfolding protect
protect-escaped c s h = rw (h) refl

protect-kept : (c : ℕ) (s : Bytes) → is_escapable c ≡ false → protect (c ∷ s) ≡ c ∷ protect s
unfolding protect
protect-kept c s h = rw (h) refl

mem-rest :
    (c : ℕ) (s : Bytes) → mem b'@' (c ∷ s) ≡ false → (c == b'@' ≡ false) × (mem b'@' s ≡ false)
unfolding mem
mem-rest c s h = ground arith

text_loop-protect :
    (line_start : Bool) (b : Bytes) (mark line col : ℕ) (s : Bytes)
    → mem b'@' s ≡ false
    → Reads (b ++ s) (text_loop line_start b mark line col (protect s))
text_loop-protect line_start b mark line col [] h =
    unfold text_loop in unfold protect in (refl, sym (append-nil b), refl)
text_loop-protect line_start b mark line col (c ∷ s) h = elim (Bool-cases (is_escapable c)) [
  | inl e ↦
      let k =
        text_loop-protect line_start (b ++ c ∷ []) mark (next_line c (next_line b'\\' line))
          (next_col c (next_col b'\\' col)) s (mem-rest c s h).1 in
      rw
        (
          protect-escaped c s e,
          text_loop-escaped line_start b mark line col b'\\' c (protect s)
              (text_step-escaped line_start c (protect s) e),
        )
        (k.0, k.1 ∙ append_assoc b (c ∷ []) s, k.2)
  | inr e ↦
      let k =
        text_loop-protect (stays_at_start line_start c) (b ++ c ∷ []) (mark_line c b mark)
          (next_line c line) (next_col c col) s (mem-rest c s h).1 in
      rw
        (
          protect-kept c s e,
          text_loop-copied line_start b mark line col c (protect s)
              (text_step-copied line_start c (protect s) e (mem-rest c s h).0),
        )
        (k.0, k.1 ∙ append_assoc b (c ∷ []) s, k.2)
]

scan_text-protect :
    (s : Bytes) (found : Segment)
    → text_loop true [] 0 1 1 (protect s) ≡ found
    → Reads s found
    → scan_text (start_lexer (protect s))
      ≡ scanned (
          flush s
            (start_lexer (protect s)).cursor
            (set_line_start found.line_start (at found.cursor (start_lexer (protect s)))))
unfolding scan_text enter
scan_text-protect s found e (d, t, r) = rw (e, d, t) refl

run-step :
    (rounds : ℕ) (l l' : Lexer) (c : ℕ) (s : Bytes)
    → l.cursor.rest ≡ c ∷ s
    → scan_text l ≡ scanned l'
    → ends_in_error l'.out ≡ false
    → run (suc rounds) l ≡ run rounds l'
unfolding run
run-step rounds l l' c s e f g = rw (e, run, f, g) refl

run-end :
    (rounds : ℕ) (l : Lexer)
    → 1 ≤ rounds
    → l.cursor.rest ≡ []
    → (run rounds l).out ≡ l.out ++ token eof [] l.cursor ∷ []
unfolding run
run-end zero l h e = absurd (omega arith)
run-end (suc rounds) l h e = rw (e, run) refl

protect-front : (c : ℕ) (s : Bytes) → (d : ℕ) × (t : Bytes) × (protect (c ∷ s) ≡ d ∷ t)
protect-front c s = elim (Bool-cases (is_escapable c)) [
  | inl e ↦ (b'\\', c ∷ protect s, protect-escaped c s e)
  | inr e ↦ (c, protect s, protect-kept c s e)
]

-- For every text of one byte or more without `@`: with a backslash put in front of each brace and
-- backslash, it lexes to one TEXT token, which has the text as it was and stands at line 1 and
-- column 1, and EOF.
pub scan-protect :
    (c : ℕ) (s : Bytes)
    → mem b'@' (c ∷ s) ≡ false
    → (e : Token) × (scan (protect (c ∷ s)) ≡ token text (c ∷ s) (start_lexer []).cursor ∷ e ∷ [])
      × (e.kind ≡ eof)
unfolding scan
scan-protect c s h =
    let l = start_lexer (protect (c ∷ s)) in
    let found = text_loop true [] 0 1 1 (protect (c ∷ s)) in
    let reads = text_loop-protect true [] 0 1 1 (c ∷ s) h in
    let l' = flush (c ∷ s) l.cursor (set_line_start found.line_start (at found.cursor l)) in
    let (d, t, front) = protect-front c s in
    (
      token eof [] found.cursor,
      ap Lexer.out (
            run-step (length (protect (c ∷ s))) l l' d t front
              (scan_text-protect (c ∷ s) found refl reads) refl)
          ∙ run-end (length (protect (c ∷ s))) l' (omega (arith, ap length front)) reads.2,
      refl,
    )

text_step-door :
    (kw s : Bytes)
    → peek_statement s ≡ some kw
    → bytes_beq kw (codes "verbatim") ≡ false
    → text_step true b'@' s ≡ leaves (statement kw)
unfolding text_step line_door
text_step-door kw s e h = rw (e, text_step, line_door, h) refl

text_loop-door :
    (b : Bytes) (mark line col : ℕ) (kw s : Bytes)
    → peek_statement s ≡ some kw
    → bytes_beq kw (codes "verbatim") ≡ false
    → text_loop true b mark line col (b'@' ∷ s)
      ≡ segment (some (statement kw)) b mark line col true (b'@' ∷ s)
unfolding text_loop
text_loop-door b mark line col kw [] e h = rw (text_step-door kw [] e h, text_loop) refl
text_loop-door b mark line col kw (c ∷ s) e h = rw (text_step-door kw (c ∷ s) e h, text_loop) refl

scan_text-found :
    (l : Lexer) (g : Segment)
    → text_loop l.at_line_start [] 0 l.cursor.line l.cursor.col l.cursor.rest ≡ g
    → scan_text l
      ≡ enter g.door g.text g.line_mark l.cursor (set_line_start g.line_start (at g.cursor l))
unfolding scan_text
scan_text-found l g e = rw (e) refl

enter-statement :
    (kw b : Bytes) (p : Cursor) (l : Lexer)
    → enter (some (statement kw)) b 0 p l ≡ scanned (scan_statement kw l)
unfolding enter
enter-statement kw b p l = refl

-- In a template that starts with an escaped brace or backslash and, directly behind it, `@` and a
-- statement keyword other than `verbatim`, the lexer opens the statement, and emits no TEXT for the
-- escaped byte.
pub scan_text-escaped_statement :
    (c : ℕ) (kw s : Bytes)
    → is_escapable c ≡ true
    → peek_statement s ≡ some kw
    → bytes_beq kw (codes "verbatim") ≡ false
    → scan_text (start_lexer (b'\\' ∷ c ∷ b'@' ∷ s))
      ≡ scanned
          (scan_statement kw (at (from (b'@' ∷ s) (next_line c 1) (next_col c 2)) (start_lexer [])))
scan_text-escaped_statement c kw s h e v =
    scan_text-found (start_lexer (b'\\' ∷ c ∷ b'@' ∷ s))
      (segment (some (statement kw)) (c ∷ []) 0 (next_line c 1) (next_col c 2) true (b'@' ∷ s))
      (text_loop-escaped true [] 0 1 1 b'\\' c (b'@' ∷ s) (text_step-escaped true c (b'@' ∷ s) h)
        ∙ text_loop-door (c ∷ []) 0 (next_line c 1) (next_col c 2) kw s e v)
    ∙ enter-statement kw (c ∷ []) _ _
