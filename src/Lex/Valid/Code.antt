-- ===== src/Lex/Valid/Code.antt =====
-- internal/lex/code.go: a region of code ends, or has one fault.
use mathlib.Core.Path.{subst}
use quill_template_engine.Lex.Valid.Rounds.{RoundOutcome, code_round-RoundOutcome, if-Outcome}
use quill_template_engine.Prelude.{
  ℕ, zero, suc, ◌<◌, Bool, ◌&&◌, [], ◌∷◌, Bytes, length, ◌==◌, ◌≡◌, ◌⊎◌, refl, arith, ap,
  Bool-cases, inl, inr,
}
use quill_template_engine.Lex.Cursor.{Cursor, Lexer}
use quill_template_engine.Lex.Code.{
  Round, faulted, continues, code_round, code_end, scan_code, scan_region,
}
use quill_template_engine.Lex.Advance.{Advances}
use quill_template_engine.Lex.Valid.{start, Leaves, Outcome, Faulted-errorf}

pub Bytes-cases : (s : Bytes) → (s ≡ []) ⊎ ((c : ℕ) × (t : Bytes) × (s ≡ c ∷ t))
Bytes-cases [] = inl refl
Bytes-cases (c ∷ t) = inr (c, t, refl)

Round-cases :
    (r : Round)
    → ((l : Lexer) × (r ≡ faulted l)) ⊎ ((l : Lexer) × (depth : ℕ) × (r ≡ continues l depth))
Round-cases (faulted l) = inl (l, refl)
Round-cases (continues l depth) = inr (l, depth, refl)

code_end-Outcome :
    (code : Bytes) (stop : Bytes → Bool) (opener : Cursor) (n : ℕ) (l : Lexer)
    → Leaves code n l
    → Advances (start code) opener
    → Outcome code n (code_end stop opener l)
unfolding code_end
code_end-Outcome code stop opener n l h a =
    if-Outcome code n (stop l.cursor.rest) _ _ h (Faulted-errorf code l opener _ h.0 a refl)

-- With one round more than there are bytes, a region of code ends where its test holds, or in a fault.
scan_code-Outcome :
    (code : Bytes) (stop : Bytes → Bool) (opener : Cursor) (rounds depth n : ℕ) (l : Lexer)
    → Leaves code n l
    → Advances (start code) opener
    → length l.cursor.rest < rounds
    → Outcome code n (scan_code rounds stop opener depth l)
unfolding scan_code
scan_code-Outcome code stop opener zero depth n l h a r = absurd (omega arith)
scan_code-Outcome code stop opener (suc rounds) depth n l (fits, small) a r =
    elim (Bytes-cases l.cursor.rest) [
      | inl e ↦ rw (e, scan_code) (code_end-Outcome code stop opener n l (fits, small) a)
      | inr (c, s, e) ↦ elim (Bool-cases (depth == 0 && stop (c ∷ s))) [
        | inl done ↦ rw (e, scan_code, done) (fits, small)
        | inr goes ↦ elim (Round-cases (code_round c depth l)) [
          | inl (l', f) ↦
              rw (e, scan_code, goes, f)
                (subst (RoundOutcome code (length s)) f
                  (code_round-RoundOutcome code l c s fits e depth))
          | inr (l', deeper, f) ↦
              let next =
                subst (RoundOutcome code (length s)) f
                  (code_round-RoundOutcome code l c s fits e depth) in
              rw (e, scan_code, goes, f)
                (scan_code-Outcome code stop opener rounds deeper n l'
                  (next.0, omega (arith, next.1, ap length e)) a
                  (omega (arith, next.1, ap length e)))
        ]
      ]
    ]

pub scan_region-Outcome :
    (code : Bytes) (stop : Bytes → Bool) (opener : Cursor) (n : ℕ) (l : Lexer)
    → Leaves code n l
    → Advances (start code) opener
    → Outcome code n (scan_region stop opener l)
unfolding scan_region
scan_region-Outcome code stop opener n l h a =
    scan_code-Outcome code stop opener (suc (length l.cursor.rest)) 0 n l h a (omega arith)
