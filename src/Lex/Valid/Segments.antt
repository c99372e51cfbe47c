-- ===== src/Lex/Valid/Segments.antt =====
-- internal/lex/lexer.go: one segment of a text, with what its door opens, moves the cursor.
use quill_template_engine.Prelude.{
  ℕ, suc, ◌≤◌, Bool, Option, none, some, [], ◌∷◌, ◌++◌, Bytes, length, take, ◌≡◌, ◌⊎◌, refl, arith,
  ap, ◌∙◌, inl, inr,
}
use quill_template_engine.Lex.Cursor.{
  Cursor, Lexer, Scan, stopped, scanned, advance, at, set_line_start, next_line, next_col,
}
use quill_template_engine.Lex.Scan.{
  Door, interp, comment, verbatim, block_close, statement, TextStep, leaves, escaped, copied,
  text_step, Segment, text_loop, stays_at_start, mark_line, flush, enter, scan_text,
}
use quill_template_engine.Lex.Advance.{from, Advances, stay, step, length-Advances}
use quill_template_engine.Lex.Valid.{start, Fits, Faulted, Outcome, Ends, Fits-emit, Fits-at}
use quill_template_engine.Lex.Doors.{scan_interp, scan_statement, scan_block_close}
use quill_template_engine.Lex.Valid.Doors.{
  scan_interp-Ends, scan_comment-Outcome, scan_statement-Ends, scan_block_close-Ends,
}
use quill_template_engine.Lex.Valid.Verbatim.{scan_verbatim-Outcome}

-- A door has a byte in front of it; without one the text has ended.
abbrev AtDoor : Option Door → Bytes → Type 0
AtDoor none s = s ≡ []
AtDoor (some d) s = (c : ℕ) × (t : Bytes) × (s ≡ c ∷ t)

abbrev Found : Cursor → Segment → Type 0
Found p g = Advances p g.cursor × AtDoor g.door g.cursor.rest

TextStep-cases : (t : TextStep) → ((d : Door) × (t ≡ leaves d)) ⊎ ((t ≡ escaped) ⊎ (t ≡ copied))
TextStep-cases (leaves d) = inl (d, refl)
TextStep-cases escaped = inr (inl refl)
TextStep-cases copied = inr (inr refl)

text_loop-Found :
    (line_start : Bool) (b : Bytes) (mark line col : ℕ) (s : Bytes)
    → Found (from s line col) (text_loop line_start b mark line col s)
unfolding text_loop advance
text_loop-Found line_start b mark line col [] = (stay _, refl)
text_loop-Found line_start b mark line col (c ∷ []) =
    elim (TextStep-cases (text_step line_start c [])) [
      | inl (d, e) ↦ rw (e, text_loop) (stay _, (c, [], refl))
      | inr (inl e) ↦
          let k =
            text_loop-Found (stays_at_start line_start c) (b ++ c ∷ []) (mark_line c b mark)
              (next_line c line) (next_col c col) [] in
          rw (e, text_loop) (step (from (c ∷ []) line col) _ k.0, k.1)
      | inr (inr e) ↦
          let k =
            text_loop-Found (stays_at_start line_start c) (b ++ c ∷ []) (mark_line c b mark)
              (next_line c line) (next_col c col) [] in
          rw (e, text_loop) (step (from (c ∷ []) line col) _ k.0, k.1)
    ]
text_loop-Found line_start b mark line col (c ∷ d ∷ s) =
    elim (TextStep-cases (text_step line_start c (d ∷ s))) [
      | inl (door, e) ↦ rw (e, text_loop) (stay _, (c, d ∷ s, refl))
      | inr (inl e) ↦
          let k =
            text_loop-Found line_start (b ++ d ∷ []) mark (next_line d (next_line c line))
              (next_col d (next_col c col)) s in
          rw (e, text_loop)
            (
              step (from (c ∷ d ∷ s) line col) _
                  (step (from (d ∷ s) (next_line c line) (next_col c col)) _ k.0),
              k.1,
            )
      | inr (inr e) ↦
          let k =
            text_loop-Found (stays_at_start line_start c) (b ++ c ∷ []) (mark_line c b mark)
              (next_line c line) (next_col c col) (d ∷ s) in
          rw (e, text_loop) (step (from (c ∷ d ∷ s) line col) _ k.0, k.1)
    ]

module _ (code : Bytes) where
  flush-Fits :
      (b : Bytes) (p : Cursor) (l : Lexer)
      → Fits code l
      → Advances (start code) p
      → Fits code (flush b p l)
  flush-Fits [] p l h a = h
  flush-Fits (c ∷ s) p l h a = Fits-emit code l _ h refl (p, a, refl, refl, tt)

  cursor-flush : (b : Bytes) (p : Cursor) (l : Lexer) → (flush b p l).cursor ≡ l.cursor
  cursor-flush [] p l = refl
  cursor-flush (c ∷ s) p l = refl

  -- What scanText reports, with the fault that a door emitted without reporting it.
  abbrev pub ScanEnds : ℕ → Scan → Type 0
  ScanEnds n (stopped l) = Faulted code l
  ScanEnds n (scanned l) = Ends code n l

  Ends-weaken : (n m : ℕ) (l : Lexer) → n ≤ m → Ends code n l → Ends code m l
  Ends-weaken n m l h (inl (fits, k)) = inl (fits, omega arith)
  Ends-weaken n m l h (inr k) = inr k

  ScanEnds-Outcome : (n m : ℕ) (r : Scan) → n ≤ m → Outcome code n r → ScanEnds m r
  ScanEnds-Outcome n m (stopped l) h k = k
  ScanEnds-Outcome n m (scanned l) h (fits, k) = inl (fits, omega arith)

  enter-ScanEnds :
      (n : ℕ) (door : Option Door) (b : Bytes) (mark : ℕ) (p : Cursor) (l : Lexer)
      → Fits code l
      → Advances (start code) p
      → AtDoor door l.cursor.rest
      → length l.cursor.rest ≤ suc n
      → ScanEnds n (enter door b mark p l)
  unfolding enter
  enter-ScanEnds n none b mark p l h a e k =
      inl (flush-Fits b p l h a, rw (cursor-flush b p l, e) (omega arith))
  enter-ScanEnds n (some interp) b mark p l h a (c, s, e) k =
      Ends-weaken (length s) n (scan_interp (flush b p l)) (omega (arith, k, ap length e)) (
        scan_interp-Ends code (flush b p l) c s (flush-Fits b p l h a)
          (ap Cursor.rest (cursor-flush b p l) ∙ e))
  enter-ScanEnds n (some comment) b mark p l h a (c, s, e) k =
      ScanEnds-Outcome (length s) n _ (omega (arith, k, ap length e)) (
        scan_comment-Outcome code (flush b p l) c s (flush-Fits b p l h a)
          (ap Cursor.rest (cursor-flush b p l) ∙ e))
  enter-ScanEnds n (some verbatim) b mark p l h a (c, s, e) k =
      ScanEnds-Outcome (length s) n _ (omega (arith, k, ap length e)) (
        scan_verbatim-Outcome code (flush (take mark b) p l) c s (flush-Fits (take mark b) p l h a)
          (ap Cursor.rest (cursor-flush (take mark b) p l) ∙ e))
  enter-ScanEnds n (some (statement kw)) b mark p l h a (c, s, e) k =
      Ends-weaken (length s) n (scan_statement kw (flush (take mark b) p l))
        (omega (arith, k, ap length e))
        (scan_statement-Ends code kw (flush (take mark b) p l) c s
          (flush-Fits (take mark b) p l h a) (ap Cursor.rest (cursor-flush (take mark b) p l) ∙ e))
  enter-ScanEnds n (some block_close) b mark p l h a (c, s, e) k =
      Ends-weaken (length s) n (scan_block_close (flush (take mark b) p l))
        (omega (arith, k, ap length e))
        (scan_block_close-Ends code (flush (take mark b) p l) c s (flush-Fits (take mark b) p l h a)
          (ap Cursor.rest (cursor-flush (take mark b) p l) ∙ e))

  pub scan_text-ScanEnds :
      (l : Lexer) (c : ℕ) (s : Bytes)
      → Fits code l
      → l.cursor.rest ≡ c ∷ s
      → ScanEnds (length s) (scan_text l)
  unfolding scan_text
  scan_text-ScanEnds l c s h e =
      enter-ScanEnds (length s) found.door found.text found.line_mark l.cursor
        (set_line_start found.line_start (at found.cursor l))
        (Fits-at code l found.cursor h moves.0) h.0 moves.1
        (omega (arith, length-Advances moves.0, ap length e))
    where
      found : Segment
      found = text_loop l.at_line_start [] 0 l.cursor.line l.cursor.col l.cursor.rest

      moves : Found l.cursor found
      moves = text_loop-Found l.at_line_start [] 0 l.cursor.line l.cursor.col l.cursor.rest
