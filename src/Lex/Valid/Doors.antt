-- ===== src/Lex/Valid/Doors.antt =====
-- internal/lex/doors.go: every scan behind a door moves the cursor.
use mathlib.Core.Path.{subst}
use quill_template_engine.Lex.Valid.Verbatim.{Advances-open_line, Advances-close_line}
use quill_template_engine.Prelude.{
  ℕ, ◌+◌, ◌∷◌, Bytes, length, ◌≡◌, ◌⊎◌, refl, arith, Option-cases, inl, inr,
}
use quill_template_engine.Lex.Token.{block_close, stmt}
use quill_template_engine.Lex.Cursor.{
  Cursor, Lexer, Scan, stopped, scanned, advance, advance_by, token, emit, at, span, walk,
  take_open_trim, take_close_trim, Taken, is_line_blank, front_is,
}
use quill_template_engine.Lex.Code.{scan_region}
use quill_template_engine.Lex.Heads.{interp_close, stmt_head_end}
use quill_template_engine.Lex.Verbatim.{trimmed}
use quill_template_engine.Lex.Doors.{
  opening, close_interp_at, scan_interp, comment_step, close_comment, scan_comment, end_head,
  scan_head, scan_continuation, scan_statement, scan_block_close, peek_continuation,
}
use quill_template_engine.Lex.Advance.{
  Advances, Advances-trans, Advances-advance, Advances-advance_by, Advances-span, Advances-walk,
  Advances-take_open_trim, Advances-take_close_trim, Advances-eat_one_newline,
}
use quill_template_engine.Lex.Valid.{
  Fits, Leaves, Outcome, Ends, Fits-at, Leaves-at, Leaves-emit, Leaves-front, Faulted-errorf,
}
use quill_template_engine.Lex.Valid.Code.{Bytes-cases, scan_region-Outcome}
use quill_template_engine.Lex.Valid.Rounds.{if-Leaves, Advances-wide}

pub Scan-cases : (r : Scan) → ((l : Lexer) × (r ≡ stopped l)) ⊎ ((l : Lexer) × (r ≡ scanned l))
Scan-cases (stopped l) = inl (l, refl)
Scan-cases (scanned l) = inr (l, refl)

module _ (code : Bytes) where
  close_interp_at-Leaves : (n : ℕ) (l : Lexer) → Leaves code n l → Leaves code n (close_interp_at l)
  unfolding close_interp_at
  close_interp_at-Leaves n l h =
      Leaves-emit code (at _ l) _ n
        (Leaves-at code l _ n h (Advances-trans closed (Advances-advance_by 2 _))) refl
        (_, Advances-trans h.0.0 closed, refl, refl, tt)
    where
      closed : Advances l.cursor (take_close_trim l.cursor).behind
      closed = Advances-take_close_trim l.cursor

  pub scan_interp-Ends :
      (l : Lexer) (c : ℕ) (s : Bytes)
      → Fits code l
      → l.cursor.rest ≡ c ∷ s
      → Ends code (length s) (scan_interp l)
  unfolding scan_interp
  scan_interp-Ends l c s fits front = elim (Scan-cases (scan_region interp_close l.cursor opened)) [
    | inl (l', e) ↦ rw (e, scan_interp) (inr (subst (Outcome code (length s)) e region))
    | inr (l', e) ↦
        rw (e, scan_interp)
          (inl (close_interp_at-Leaves (length s) l' (subst (Outcome code (length s)) e region)))
  ]
    where
      behind : Taken
      behind = take_open_trim (advance_by 2 l.cursor)

      opened : Lexer
      opened = emit (opening behind.trim l.cursor) (at behind.behind l)

      region : Outcome code (length s) (scan_region interp_close l.cursor opened)
      region =
          scan_region-Outcome code interp_close l.cursor (length s) opened
            (Leaves-emit code (at behind.behind l) _ (length s)
              (Leaves-front code l _ c s fits front (
                Advances-trans (Advances-wide 2 l.cursor (omega arith))
                  (Advances-take_open_trim (advance_by 2 l.cursor))))
              refl (l.cursor, fits.0, refl, refl, tt))
            fits.0

  close_comment-Leaves :
      (n : ℕ) (l : Lexer) (p : Cursor)
      → Leaves code n l
      → Advances l.cursor p
      → Leaves code n (close_comment p l)
  unfolding close_comment
  close_comment-Leaves n l p h a =
      if-Leaves code n (front_is _ p.rest) _ _
        (Leaves-at code l _ n h (Advances-trans a (Advances-advance p)))
        (Leaves-at code l _ n h (Advances-trans a (Advances-eat_one_newline p)))

  end_head-Leaves : (n : ℕ) (l : Lexer) → Leaves code n l → Leaves code n (end_head l)
  unfolding end_head
  end_head-Leaves n l h =
      if-Leaves code n (front_is _ l.cursor.rest) _ _
        (Leaves-emit code (at _ l) _ n
          (Leaves-at code l _ n h (
            Advances-trans (Advances-advance l.cursor) (
              Advances-trans (Advances-take_close_trim (advance l.cursor))
                (Advances-open_line _ _))))
          refl (l.cursor, h.0.0, refl, refl, tt))
        (Leaves-emit code (at _ l) _ n (Leaves-at code l _ n h (Advances-eat_one_newline l.cursor))
          refl (l.cursor, h.0.0, refl, refl, tt))

  pub scan_comment-Outcome :
      (l : Lexer) (c : ℕ) (s : Bytes)
      → Fits code l
      → l.cursor.rest ≡ c ∷ s
      → Outcome code (length s) (scan_comment l)
  unfolding scan_comment
  scan_comment-Outcome l c s fits front = elim (Bytes-cases found.rest) [
    | inl e ↦
        rw (e, scan_comment)
          (Faulted-errorf code (at found l) l.cursor _
            (Fits-at code l found fits (Advances-trans (Advances-advance l.cursor) moved)) fits.0
            refl)
    | inr (d, t, e) ↦
        rw (e, scan_comment)
          (close_comment-Leaves (length s) (at found l) (advance_by 2 found)
            (Leaves-front code l found c s fits front moved) (Advances-advance_by 2 found))
  ]
    where
      found : Cursor
      found = (walk comment_step tt (advance_by 2 l.cursor)).after

      moved : Advances (advance l.cursor) found
      moved =
          Advances-trans (Advances-wide 2 l.cursor (omega arith))
            (Advances-walk comment_step tt (advance_by 2 l.cursor))

  -- Behind the keyword of a head no more bytes than so many are left.
  scan_head-Ends :
      (sigil n : ℕ) (kw : Bytes) (l : Lexer)
      → Fits code l
      → Leaves code n (at (advance_by (sigil + length kw) l.cursor) l)
      → Ends code n (scan_head sigil kw l)
  unfolding scan_head
  scan_head-Ends sigil n kw l fits h =
      elim (Scan-cases (scan_region stmt_head_end l.cursor headed)) [
        | inl (l', e) ↦ rw (e, scan_head) (inr (subst (Outcome code n) e region))
        | inr (l', e) ↦
            rw (e, scan_head) (inl (end_head-Leaves n l' (subst (Outcome code n) e region)))
      ]
    where
      headed : Lexer
      headed = emit (token stmt kw l.cursor) (at (advance_by (sigil + length kw) l.cursor) l)

      region : Outcome code n (scan_region stmt_head_end l.cursor headed)
      region =
          scan_region-Outcome code stmt_head_end l.cursor n headed
            (Leaves-emit code (at _ l) _ n h refl (l.cursor, fits.0, refl, refl, tt)) fits.0

  pub scan_statement-Ends :
      (kw : Bytes) (l : Lexer) (c : ℕ) (s : Bytes)
      → Fits code l
      → l.cursor.rest ≡ c ∷ s
      → Ends code (length s) (scan_statement kw l)
  unfolding scan_statement
  scan_statement-Ends kw l c s fits front =
      scan_head-Ends 1 (length s) kw l fits (
        Leaves-front code l _ c s fits front (Advances-wide (1 + length kw) l.cursor (omega arith)))

  scan_continuation-Ends :
      (kw : Bytes) (n : ℕ) (l : Lexer) → Leaves code n l → Ends code n (scan_continuation kw l)
  unfolding scan_continuation
  scan_continuation-Ends kw n l h =
      scan_head-Ends 0 n kw l h.0
        (Leaves-at code l _ n h (Advances-advance_by (0 + length kw) l.cursor))

  pub scan_block_close-Ends :
      (l : Lexer) (c : ℕ) (s : Bytes)
      → Fits code l
      → l.cursor.rest ≡ c ∷ s
      → Ends code (length s) (scan_block_close l)
  unfolding scan_block_close
  scan_block_close-Ends l c s fits front =
      elim (Option-cases (peek_continuation (span is_line_blank behind.behind).after.rest)) [
        | inl e ↦
            rw (e, scan_block_close)
              (inl (
                Leaves-at code closed _ (length s) leaves
                  (Advances-close_line behind.trim behind.behind)))
        | inr (kw, e) ↦
            rw (e, scan_block_close)
              (scan_continuation-Ends kw (length s) (at _ closed) (
                Leaves-at code closed _ (length s) leaves
                  (Advances-span is_line_blank behind.behind)))
      ]
    where
      behind : Taken
      behind = take_close_trim (advance_by 2 l.cursor)

      closed : Lexer
      closed = emit (trimmed block_close behind.trim l.cursor) (at behind.behind l)

      leaves : Leaves code (length s) closed
      leaves =
          Leaves-emit code (at behind.behind l) _ (length s)
            (Leaves-front code l _ c s fits front (
              Advances-trans (Advances-wide 2 l.cursor (omega arith))
                (Advances-take_close_trim (advance_by 2 l.cursor))))
            refl (l.cursor, fits.0, refl, refl, tt)
