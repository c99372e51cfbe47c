-- ===== src/Lex/Valid.antt =====
-- internal/lex: the lexer's state between the scans, and what a scan may leave.
pub mod Munched
pub mod Rounds
pub mod Code
pub mod Verbatim
pub mod Doors
pub mod Segments
use quill_template_engine.Prelude.{
  take, drop, ap, ◌-◌, suc, zero, ℕ, ◌≤◌, Bool, true, false, List, [], ◌∷◌, ◌++◌, Bytes, length,
  All, All-append, ◌≡◌, ◌⊎◌, refl, arith,
}
use quill_template_engine.Lex.Token.{
  name, string, true_literal, false_literal, null_literal, Token, Kind, error, eof, Fault,
  unfinished,
}
use quill_template_engine.Lex.Cursor.{
  slice, Cursor, Lexer, Scan, stopped, scanned, advance, token, emit, errorf, at,
}
use quill_template_engine.Lex.Advance.{
  Advances, Advances-trans, Advances-advance, Advances-shorter, length-Advances,
}

abbrev pub is_plain : Kind → Bool
is_plain eof = false
is_plain (error f) = false
is_plain _ = true

abbrev pub is_unfinished : Fault → Bool
is_unfinished unfinished = true
is_unfinished _ = false

abbrev pub start : Bytes → Cursor
start code = record { rest = code; line = 1; col = 1 }

-- A name, a literal word or a string is in the input as it is written.
abbrev pub Spells : Kind → Bytes → Bytes → Type 0
Spells name text s = (r : Bytes) × (s ≡ text ++ r)
Spells string text s = (r : Bytes) × (s ≡ text ++ r)
Spells true_literal text s = (r : Bytes) × (s ≡ text ++ r)
Spells false_literal text s = (r : Bytes) × (s ≡ text ++ r)
Spells null_literal text s = (r : Bytes) × (s ≡ text ++ r)
Spells _ text s = Unit

take-append : (n : ℕ) (s : Bytes) → s ≡ take n s ++ drop n s
take-append zero s = refl
take-append (suc n) [] = refl
take-append (suc n) (c ∷ s) = ap (λ t. c ∷ t) (take-append n s)

slice-append : (p q : Cursor) → (r : Bytes) × (p.rest ≡ slice p q ++ r)
slice-append p q = (
  drop (length p.rest - length q.rest) p.rest,
  take-append (length p.rest - length q.rest) p.rest,
)

-- The bytes between two places are what the first one has in front of it.
pub slice-Spells : (k : Kind) (p q : Cursor) → Spells k (slice p q) p.rest
slice-Spells name p q = slice-append p q
slice-Spells string p q = slice-append p q
slice-Spells true_literal p q = slice-append p q
slice-Spells false_literal p q = slice-append p q
slice-Spells null_literal p q = slice-append p q
slice-Spells _ p q = tt

-- The token has the line and the column of a place in the input, and its spelling stands there.
abbrev pub Placed : Bytes → Token → Type 0
Placed code t =
    (p : Cursor) × Advances (start code) p
    × (t.line ≡ p.line)
    × (t.col ≡ p.col)
    × Spells t.kind t.text p.rest

abbrev pub Good : Bytes → Token → Type 0
Good code t = (is_plain t.kind ≡ true) × Placed code t

abbrev pub Fits : Bytes → Lexer → Type 0
Fits code l = Advances (start code) l.cursor × All (Good code) l.out

-- The last token, and it alone, is a fault.
abbrev pub Faulted : Bytes → Lexer → Type 0
Faulted code l =
    (ts : List Token) × (t : Token) × (f : Fault) × (l.out ≡ ts ++ t ∷ [])
    × All (Good code) ts
    × (t.kind ≡ error f)
    × (is_unfinished f ≡ false)
    × Placed code t
    × Advances (start code) l.cursor

-- No more bytes than so many are left.
abbrev pub Leaves : Bytes → ℕ → Lexer → Type 0
Leaves code n l = Fits code l × (length l.cursor.rest ≤ n)

abbrev pub Outcome : Bytes → ℕ → Scan → Type 0
Outcome code n (stopped l) = Faulted code l
Outcome code n (scanned l) = Leaves code n l

abbrev pub Ends : Bytes → ℕ → Lexer → Type 0
Ends code n l = Leaves code n l ⊎ Faulted code l

module _ (code : Bytes) where
  pub Fits-emit :
      (l : Lexer) (t : Token)
      → Fits code l
      → is_plain t.kind ≡ true
      → Placed code t
      → Fits code (emit t l)
  Fits-emit l t (h, k) e p = (h, All-append (Good code) l.out (t ∷ []) k ((e, p), tt))

  pub Fits-at : (l : Lexer) (q : Cursor) → Fits code l → Advances l.cursor q → Fits code (at q l)
  Fits-at l q (h, k) a = (Advances-trans h a, k)

  pub Leaves-at :
      (l : Lexer) (q : Cursor) (n : ℕ)
      → Leaves code n l
      → Advances l.cursor q
      → Leaves code n (at q l)
  Leaves-at l q n (h, k) a = (Fits-at l q h a, omega (arith, length-Advances a))

  pub Leaves-emit :
      (l : Lexer) (t : Token) (n : ℕ)
      → Leaves code n l
      → is_plain t.kind ≡ true
      → Placed code t
      → Leaves code n (emit t l)
  Leaves-emit l t n (h, k) e p = (Fits-emit l t h e p, k)

  -- From a byte on, the lexer at a later place.
  pub Leaves-front :
      (l : Lexer) (q : Cursor) (c : ℕ) (s : Bytes)
      → Fits code l
      → l.cursor.rest ≡ c ∷ s
      → Advances (advance l.cursor) q
      → Leaves code (length s) (at q l)
  Leaves-front l q c s h e a = (
    Fits-at l q h (Advances-trans (Advances-advance l.cursor) a),
    Advances-shorter l.cursor q c s e a,
  )

  pub Faulted-errorf :
      (l : Lexer) (p : Cursor) (f : Fault)
      → Fits code l
      → Advances (start code) p
      → is_unfinished f ≡ false
      → Faulted code (errorf p f l)
  Faulted-errorf l p f (h, k) a e =
      (l.out, token (error f) [] p, f, refl, k, refl, e, (p, a, refl, refl, tt), h)

  pub Outcome-weaken : (n m : ℕ) (r : Scan) → n ≤ m → Outcome code n r → Outcome code m r
  Outcome-weaken n m (stopped l) h k = k
  Outcome-weaken n m (scanned l) h (k, i) = (k, omega arith)
