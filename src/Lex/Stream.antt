-- ===== src/Lex/Stream.antt =====
-- internal/lex/lexer.go: what the scan of a text gives, whole.
use mathlib.Core.Path.{subst}
use quill_template_engine.Lex.Valid.Segments.{ScanEnds, scan_text-ScanEnds}
use mathlib.Core.Bool.{false≢true}
use quill_template_engine.Prelude.{
  ℕ, zero, suc, ◌<◌, true, false, List, [], ◌∷◌, ◌++◌, Bytes, length, All, ◌≡◌, ◌⊎◌, refl, arith,
  ap, inl, inr,
}
use quill_template_engine.Lex.Token.{Token, Kind, eof, error, is_error, Fault}
use quill_template_engine.Lex.Cursor.{Cursor, Lexer, token}
use quill_template_engine.Lex.Scan.{scan_text, ends_in_error, emit_eof, run, start_lexer, scan}
use quill_template_engine.Lex.Advance.{Advances, stay}
use quill_template_engine.Lex.Valid.{is_plain, is_unfinished, start, Placed, Good, Fits, Faulted}
use quill_template_engine.Source.{Source}
use quill_template_engine.Lex.Valid.Code.{Bytes-cases}
use quill_template_engine.Lex.Valid.Doors.{Scan-cases}

-- Without a fault, the whole input was scanned, and the last token stands at its end.
abbrev pub Whole : Bytes → List Token → Token → Type 0
Whole code body e =
    All (Good code) body
    × (p : Cursor) × Advances (start code) p
    × (p.rest ≡ [])
    × (e.line ≡ p.line)
    × (e.col ≡ p.col)

-- The last token but one, and it alone, is a fault, which is not `unfinished`.
abbrev pub Broken : Bytes → List Token → Token → Type 0
Broken code body e =
    (ts : List Token) × (t : Token) × (f : Fault) × (body ≡ ts ++ t ∷ [])
    × All (Good code) ts
    × (t.kind ≡ error f)
    × (is_unfinished f ≡ false)
    × Placed code t
    × Placed code e

abbrev pub Stream : Bytes → List Token → Type 0
Stream code ts =
    (body : List Token) × (e : Token) × (ts ≡ body ++ e ∷ [])
    × (e.kind ≡ eof)
    × (Whole code body e ⊎ Broken code body e)

is_error-plain : (k : Kind) → is_plain k ≡ true → is_error k ≡ false
is_error-plain (error f) h = absurd (false≢true h)
is_error-plain _ h = refl

ends_in_error-append :
    (ts : List Token) (t : Token) → ends_in_error (ts ++ t ∷ []) ≡ is_error t.kind
ends_in_error-append [] t = refl
ends_in_error-append (u ∷ []) t = refl
ends_in_error-append (u ∷ v ∷ ts) t = ends_in_error-append (v ∷ ts) t

ends_in_error-Good :
    (code : Bytes) (ts : List Token) → All (Good code) ts → ends_in_error ts ≡ false
ends_in_error-Good code [] h = refl
ends_in_error-Good code (t ∷ []) (h, k) = is_error-plain t.kind h.0
ends_in_error-Good code (t ∷ u ∷ ts) (h, k) = ends_in_error-Good code (u ∷ ts) k

module _ (code : Bytes) where
  Stream-Faulted : (l : Lexer) → Faulted code l → Stream code (emit_eof l).out
  Stream-Faulted l (ts, t, f, e, h, k, u, p, a) = (
    l.out,
    token eof [] l.cursor,
    refl,
    refl,
    inr (ts, t, f, e, h, k, u, p, (l.cursor, a, refl, refl, tt)),
  )

  ends_in_error-Faulted : (l : Lexer) → Faulted code l → ends_in_error l.out ≡ true
  ends_in_error-Faulted l (ts, t, f, e, h, k, u, p, a) = rw (e, ends_in_error-append ts t, k) refl

  run-Stream :
      (rounds : ℕ) (l : Lexer)
      → Fits code l
      → length l.cursor.rest < rounds
      → Stream code (run rounds l).out
  unfolding run
  run-Stream zero l h r = absurd (omega arith)
  run-Stream (suc rounds) l h r = elim (Bytes-cases l.cursor.rest) [
    | inl e ↦
        rw (e, run)
          (l.out, token eof [] l.cursor, refl, refl, inl (h.1, l.cursor, h.0, e, refl, refl))
    | inr (c, s, e) ↦ elim (Scan-cases (scan_text l)) [
      | inl (l', f) ↦
          rw (e, run, f)
            (Stream-Faulted l'
              (subst (ScanEnds code (length s)) f (scan_text-ScanEnds code l c s h e)))
      | inr (l', f) ↦
          elim (subst (ScanEnds code (length s)) f (scan_text-ScanEnds code l c s h e)) [
            | inl (fits, k) ↦
                rw (e, run, f, ends_in_error-Good code l'.out fits.1)
                  (run-Stream rounds l' fits (omega (arith, k, ap length e)))
            | inr broken ↦
                rw (e, run, f, ends_in_error-Faulted l' broken) (Stream-Faulted l' broken)
          ]
    ]
  ]

-- The scan of every input ends
pub scan-Stream : (code : Bytes) → Stream code (scan code)
unfolding scan
scan-Stream code =
    run-Stream code (suc (length code)) (start_lexer code) (stay (start code), tt) (omega arith)
