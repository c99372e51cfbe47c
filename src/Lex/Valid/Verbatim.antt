-- ===== src/Lex/Valid/Verbatim.antt =====
-- internal/lex/verbatim.go: the scans of a verbatim region move the cursor.
use quill_template_engine.Prelude.{
  ℕ, zero, suc, ◌<◌, ◌≤◌, Bool, false, [], ◌∷◌, Bytes, bytes_beq, codes, length, ◌≡◌, refl, arith,
  ap, Bool-cases, inl, inr,
}
use quill_template_engine.Prelude.Int.{pos}
use quill_template_engine.Lex.Token.{Trim, block_close, stmt, verbatim}
use quill_template_engine.Lex.Cursor.{
  Cursor, Lexer, Span, advance, advance_by, token, emit, at, span, walk, walk_bytes,
  take_close_trim, Taken, is_keep, eat_one_newline, skip_trailing_horizontal_ws, is_blank, front_is,
}
use quill_template_engine.Lex.Verbatim.{
  trimmed, open_line, close_line, braced_step, close_braced, scan_verbatim_braced, trim_line_blanks,
  in_line, fenced_lines, scan_verbatim_fenced, scan_verbatim,
}
use quill_template_engine.Lex.Advance.{
  Advances, stay, Advances-trans, Advances-advance, Advances-advance_by, Advances-span,
  Advances-span-front, Advances-walk, Advances-take_close_trim, Advances-eat_one_newline,
  Advances-skip_trailing_horizontal_ws, length-Advances, Advances-shorter,
}
use quill_template_engine.Lex.Valid.{
  start, Fits, Leaves, Outcome, Fits-at, Leaves-at, Leaves-emit, Leaves-front, Faulted-errorf,
}
use quill_template_engine.Lex.Valid.Code.{Bytes-cases}
use quill_template_engine.Lex.Valid.Rounds.{if-Outcome, Advances-wide}

pub Advances-open_line : (t : Trim) (p : Cursor) → Advances p (open_line t p)
unfolding open_line
Advances-open_line t p = elim (Bool-cases (is_keep t)) [
  | inl e ↦ rw (e, open_line) (stay p)
  | inr e ↦ rw (e, open_line) (Advances-eat_one_newline p)
]

pub Advances-close_line : (t : Trim) (p : Cursor) → Advances p (close_line t p)
unfolding close_line
Advances-close_line t p = elim (Bool-cases (is_keep t)) [
  | inl e ↦ rw (e, close_line) (stay p)
  | inr e ↦
      rw (e, close_line)
        (Advances-trans (Advances-skip_trailing_horizontal_ws p)
          (Advances-eat_one_newline (skip_trailing_horizontal_ws p)))
]

-- A loop stays at a byte that it does not take.
span-stop :
    (test : ℕ → Bool) (p : Cursor) (c : ℕ) (s : Bytes)
    → p.rest ≡ c ∷ s
    → test c ≡ false
    → (span test p).after ≡ p
unfolding span walk walk_bytes
span-stop test p c s e h = rw (e, walk_bytes, h) refl

-- Behind the line in front of the cursor.
Advances-line :
    (p : Cursor) (c : ℕ) (s : Bytes)
    → p.rest ≡ c ∷ s
    → Advances (advance p) (advance (span in_line p).after)
Advances-line p c s e = elim (Bool-cases (in_line c)) [
  | inl h ↦
      Advances-trans (Advances-span-front in_line p c s e h)
        (Advances-advance (span in_line p).after)
  | inr h ↦ rw (span-stop in_line p c s e h) (stay (advance p))
]

module _ (code : Bytes) where
  close_braced-Outcome :
      (n : ℕ) (opener from : Cursor) (body : Span) (l : Lexer)
      → Leaves code n l
      → Advances (start code) opener
      → Advances (start code) from
      → Advances l.cursor body.after
      → Outcome code n (close_braced opener from body l)
  unfolding close_braced
  close_braced-Outcome n opener from body l h a b m = elim (Bytes-cases body.after.rest) [
    | inl e ↦
        rw (e, close_braced)
          (Faulted-errorf code (at body.after l) opener _ (Fits-at code l _ h.0 m) a refl)
    | inr (c, s, e) ↦
        rw (e, close_braced)
          (Leaves-at code (emit (trimmed block_close behind.trim body.after) read) _ n
            (Leaves-emit code read _ n (Leaves-emit code l _ n h refl (from, b, refl, refl, tt))
              refl (body.after, Advances-trans h.0.0 m, refl, refl, tt))
            (Advances-trans m (
              Advances-trans (Advances-advance_by 2 body.after) (
                Advances-trans (Advances-take_close_trim _)
                  (Advances-close_line behind.trim behind.behind)))))
  ]
    where
      behind : Taken
      behind = take_close_trim (advance_by 2 body.after)

      read : Lexer
      read = emit (token verbatim body.taken from) l

  scan_verbatim_braced-Outcome :
      (n : ℕ) (l : Lexer) → Leaves code n l → Outcome code n (scan_verbatim_braced l)
  unfolding scan_verbatim_braced
  scan_verbatim_braced-Outcome n l h =
      close_braced-Outcome n l.cursor from _ _
        (Leaves-emit code l _ n h refl (l.cursor, h.0.0, refl, refl, tt)) h.0.0
        (Advances-trans h.0.0 moved) (Advances-trans moved (Advances-walk braced_step (pos 1) from))
    where
      behind : Taken
      behind = take_close_trim (advance l.cursor)

      from : Cursor
      from = open_line behind.trim behind.behind

      moved : Advances l.cursor from
      moved = Advances-trans (Advances-advance l.cursor) (
          Advances-trans (Advances-take_close_trim (advance l.cursor))
            (Advances-open_line behind.trim behind.behind))

  fenced_lines-Outcome :
      (n rounds : ℕ) (fence body : Bytes) (opener from p : Cursor) (l : Lexer)
      → Fits code l
      → Advances (start code) opener
      → Advances (start code) from
      → Advances l.cursor p
      → length p.rest < rounds
      → length p.rest ≤ n
      → Outcome code n (fenced_lines rounds fence opener from body p l)
  unfolding fenced_lines
  fenced_lines-Outcome n zero fence body opener from p l h a b m r k = absurd (omega arith)
  fenced_lines-Outcome n (suc rounds) fence body opener from p l h a b m r k =
      elim (Bytes-cases p.rest) [
        | inl e ↦
            rw (e, fenced_lines)
              (Faulted-errorf code (at p l) opener _ (Fits-at code l p h m) a refl)
        | inr (c, s, e) ↦
            elim (Bool-cases (bytes_beq (trim_line_blanks (span in_line p).taken) fence)) [
              | inl found ↦
                  rw (e, fenced_lines, found)
                    (Leaves-emit code (at _ l) _ n
                      (
                        Fits-at code l _ h (Advances-trans m closed),
                        omega (arith, length-Advances closed),
                      )
                      refl (from, b, refl, refl, tt))
              | inr other ↦
                  rw (e, fenced_lines, other)
                    (fenced_lines-Outcome n rounds fence _ opener from _ l h a b
                      (Advances-trans m next)
                      (omega
                        (arith, Advances-shorter p _ c s e (Advances-line p c s e), ap length e))
                      (omega (arith, length-Advances next)))
            ]
      ]
    where
      closed : Advances p (eat_one_newline (span in_line p).after)
      closed =
          Advances-trans (Advances-span in_line p) (Advances-eat_one_newline (span in_line p).after)

      next : Advances p (advance (span in_line p).after)
      next = Advances-trans (Advances-span in_line p) (Advances-advance (span in_line p).after)

  scan_verbatim_fenced-Outcome :
      (n : ℕ) (opener : Cursor) (l : Lexer)
      → Leaves code n l
      → Advances (start code) opener
      → Outcome code n (scan_verbatim_fenced opener l)
  unfolding scan_verbatim_fenced
  scan_verbatim_fenced-Outcome n opener l h a =
      elim (Bytes-cases (trim_line_blanks (span in_line l.cursor).taken)) [
        | inl e ↦
            rw (e, scan_verbatim_fenced)
              (Faulted-errorf code (at _ l) opener _
                (Fits-at code l _ h.0 (Advances-span in_line l.cursor)) a refl)
        | inr (c, fence, e) ↦
            rw (e, scan_verbatim_fenced)
              (fenced_lines-Outcome n (suc (length from.rest)) (c ∷ fence) [] opener from from l h.0
                a (Advances-trans h.0.0 moved) moved (omega arith)
                (omega (arith, length-Advances moved, h.1)))
      ]
    where
      from : Cursor
      from = eat_one_newline (span in_line l.cursor).after

      moved : Advances l.cursor from
      moved =
          Advances-trans (Advances-span in_line l.cursor)
            (Advances-eat_one_newline (span in_line l.cursor).after)

  pub scan_verbatim-Outcome :
      (l : Lexer) (c : ℕ) (s : Bytes)
      → Fits code l
      → l.cursor.rest ≡ c ∷ s
      → Outcome code (length s) (scan_verbatim l)
  unfolding scan_verbatim
  scan_verbatim-Outcome l c s fits front =
      if-Outcome code (length s) (front_is _ p.rest) _ _
        (scan_verbatim_braced-Outcome (length s) opened leaves)
        (scan_verbatim_fenced-Outcome (length s) l.cursor opened leaves fits.0)
    where
      p : Cursor
      p = (span is_blank (advance_by 9 l.cursor)).after

      opened : Lexer
      opened = at p (emit (token stmt (codes "verbatim") l.cursor) l)

      leaves : Leaves code (length s) opened
      leaves =
          Leaves-emit code (at p l) _ (length s)
            (Leaves-front code l p c s fits front (
              Advances-trans (Advances-wide 9 l.cursor (omega arith))
                (Advances-span is_blank (advance_by 9 l.cursor))))
            refl (l.cursor, fits.0, refl, refl, tt)
