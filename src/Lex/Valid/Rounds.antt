-- ===== src/Lex/Valid/Rounds.antt =====
-- internal/lex/code.go, internal/lex/literal.go: one round of a region of code moves the cursor.
use quill_template_engine.Lex.Valid.Munched.{Munched, munch-Munched}
use quill_template_engine.Prelude.{
  ℕ, zero, suc, ◌≤◌, Bool, true, false, not, ◌||◌, Option, none, some, [], ◌∷◌, Bytes, codes,
  bytes_beq, length, if◌then◌else◌, ◌==◌, ◌≡◌, refl, arith, Bool-cases, Option-cases, inl, inr,
}
use quill_template_engine.Lex.Token.{string, Kind, Fault, Quote, unexpected_byte, int, float}
use quill_template_engine.Lex.Cursor.{
  Cursor, Lexer, Scan, stopped, scanned, advance, advance_by, token, emit, at, span, is_digit,
  is_ident_start, is_word_byte, is_newline,
}
use quill_template_engine.Lex.Strings.{scan_string, close_string, single_step, double_step, in_text}
use quill_template_engine.Lex.Numbers.{
  scan_name, scan_number, word_kind, emit_number, scan_exponent, exponent_width, skip_fraction,
  fraction_follows, base_follows, is_digit_or_separator, is_hex_or_separator,
}
use quill_template_engine.Lex.Heads.{is_quote}
use quill_template_engine.Lex.Code.{
  Operator, Round, faulted, continues, munch, op, code_round, after_string, is_space,
}
use quill_template_engine.Lex.Advance.{
  Advances, stay, Advances-trans, Advances-advance, Advances-advance_by, Advances-span,
  Advances-span-front, Advances-walk,
}
use quill_template_engine.Lex.Valid.{
  Spells, slice-Spells, is_plain, is_unfinished, Placed, Fits, Faulted, Leaves, Outcome, Fits-at,
  Leaves-emit, Leaves-front, Faulted-errorf,
}

abbrev pub RoundOutcome : Bytes → ℕ → Round → Type 0
RoundOutcome code n (faulted l) = Faulted code l
RoundOutcome code n (continues l depth) = Leaves code n l

if-RoundOutcome :
    (code : Bytes) (n : ℕ) (b : Bool) (x y : Round)
    → (b ≡ true → RoundOutcome code n x)
    → (b ≡ false → RoundOutcome code n y)
    → RoundOutcome code n (if b then x else y)
if-RoundOutcome code n true x y h k = h refl
if-RoundOutcome code n false x y h k = k refl

pub if-Outcome :
    (code : Bytes) (n : ℕ) (b : Bool) (x y : Scan)
    → Outcome code n x
    → Outcome code n y
    → Outcome code n (if b then x else y)
if-Outcome code n true x y h k = h
if-Outcome code n false x y h k = k

after_string-RoundOutcome :
    (code : Bytes) (n depth : ℕ) (r : Scan)
    → Outcome code n r
    → RoundOutcome code n (after_string depth r)
after_string-RoundOutcome code n depth (stopped l) h = h
after_string-RoundOutcome code n depth (scanned l) h = h

if-plain :
    (b : Bool) (x y : Kind)
    → is_plain x ≡ true
    → is_plain y ≡ true
    → is_plain (if b then x else y) ≡ true
if-plain true x y h k = h
if-plain false x y h k = k

pub if-Leaves :
    (code : Bytes) (n : ℕ) (b : Bool) (x y : Lexer)
    → Leaves code n x
    → Leaves code n y
    → Leaves code n (if b then x else y)
if-Leaves code n true x y h k = h
if-Leaves code n false x y h k = k

Advances-skip_fraction : (p : Cursor) → Advances p (skip_fraction p)
unfolding skip_fraction
Advances-skip_fraction p = elim (Bool-cases (fraction_follows p.rest)) [
  | inl e ↦
      rw (e, skip_fraction)
        (Advances-trans (Advances-advance p) (Advances-span is_digit_or_separator (advance p)))
  | inr e ↦ rw (e, skip_fraction) (stay p)
]

pub Advances-wide : (n : ℕ) (p : Cursor) → 1 ≤ n → Advances (advance p) (advance_by n p)
unfolding advance_by
Advances-wide zero p h = absurd (omega arith)
Advances-wide (suc n) p h = Advances-advance_by n (advance p)

module _ (code : Bytes) (l : Lexer) (c : ℕ) (s : Bytes) (fits : Fits code l)
    (front : l.cursor.rest ≡ c ∷ s) where
  placed :
      (k : Kind) (text : Bytes) → Spells k text l.cursor.rest → Placed code (token k text l.cursor)
  placed k text h = (l.cursor, fits.0, refl, refl, h)

  -- A token that starts at the cursor and reaches to a later place.
  emit-Leaves :
      (k : Kind) (text : Bytes) (q : Cursor)
      → Advances (advance l.cursor) q
      → is_plain k ≡ true
      → Spells k text l.cursor.rest
      → Leaves code (length s) (emit (token k text l.cursor) (at q l))
  emit-Leaves k text q a e w =
      Leaves-emit code (at q l) _ (length s) (Leaves-front code l q c s fits front a) e
        (placed k text w)

  close_string-from :
      (fault : Fault) (quote : Quote) (r : Bytes) (line col : ℕ)
      → is_unfinished fault ≡ false
      → Advances (advance l.cursor) (record { rest = r; line = line; col = col })
      → Outcome code
          (length s)
          (close_string fault quote l.cursor (record { rest = r; line = line; col = col }) l)
  unfolding close_string
  close_string-from fault quote [] line col e a =
      Faulted-errorf code (at _ l) l.cursor fault
        (Fits-at code l _ fits (Advances-trans (Advances-advance l.cursor) a)) fits.0 e
  close_string-from fault quote (d ∷ r) line col e a =
      Leaves-emit code (at _ l) _ (length s)
        (Leaves-front code l _ c s fits front (Advances-trans a (Advances-advance _))) refl
        (
          l.cursor,
          fits.0,
          refl,
          refl,
          slice-Spells string l.cursor (advance (record { rest = d ∷ r; line = line; col = col })),
        )

  scan_string-Outcome : (quote : ℕ) → Outcome code (length s) (scan_string quote l)
  unfolding scan_string
  scan_string-Outcome quote =
      if-Outcome code (length s) (quote == b'`') _ _
        (close_string-from _ _ _ _ _ refl (Advances-span _ (advance l.cursor)))
        (if-Outcome code (length s) (quote == b'\'') _ _
          (close_string-from _ _ _ _ _ refl (Advances-walk single_step in_text (advance l.cursor)))
          (close_string-from _ _ _ _ _ refl (Advances-walk double_step in_text (advance l.cursor))))

  scan_name-Leaves : is_ident_start c ≡ true → Leaves code (length s) (scan_name l)
  unfolding scan_name
  scan_name-Leaves e =
      emit-Leaves _ _ _ (Advances-span-front is_word_byte l.cursor c s front (ground arith))
        (word_kind-is_plain _) (slice-Spells _ l.cursor (span is_word_byte l.cursor).after)
    where
      word_kind-is_plain : (w : Bytes) → is_plain (word_kind w) ≡ true
      word_kind-is_plain w = if-plain (bytes_beq w (codes "true")) _ _ refl (
          if-plain (bytes_beq w (codes "false")) _ _ refl
            (if-plain (bytes_beq w (codes "null") || bytes_beq w (codes "none")) _ _ refl refl))

  emit_number-Leaves :
      (k : Kind) (q : Cursor)
      → is_plain k ≡ true
      → Advances (advance l.cursor) q
      → ((t r : Bytes) → Spells k t r)
      → Leaves code (length s) (emit_number k l.cursor q l)
  unfolding emit_number
  emit_number-Leaves k q e a u = emit-Leaves k _ q a e (u _ _)

  scan_exponent-Leaves :
      (k : Kind) (q : Cursor)
      → is_plain k ≡ true
      → Advances (advance l.cursor) q
      → ((t r : Bytes) → Spells k t r)
      → Leaves code (length s) (scan_exponent k l.cursor q l)
  unfolding scan_exponent
  scan_exponent-Leaves k q e a u = elim (Option-cases (exponent_width q.rest)) [
    | inl f ↦ rw (f, scan_exponent) (emit_number-Leaves k q e a u)
    | inr (n, f) ↦
        rw (f, scan_exponent)
          (emit_number-Leaves float _ refl
            (Advances-trans a
              (Advances-trans (Advances-advance_by n q) (Advances-span _ (advance_by n q))))
            (λ t r. tt))
  ]

  scan_number-Leaves : is_digit c ≡ true → Leaves code (length s) (scan_number l)
  unfolding scan_number
  scan_number-Leaves e =
      if-Leaves code (length s) (base_follows l.cursor.rest) _ _
        (emit_number-Leaves int _ refl
          (Advances-trans (Advances-wide 2 l.cursor (omega arith))
            (Advances-span is_hex_or_separator (advance_by 2 l.cursor)))
          (λ t r. tt))
        (if-Leaves code (length s) (fraction_follows whole.rest) _ _
          (scan_exponent-Leaves float _ refl (Advances-trans digits (Advances-skip_fraction whole))
            (λ t r. tt))
          (scan_exponent-Leaves int _ refl digits (λ t r. tt)))
    where
      whole : Cursor
      whole = (span is_digit_or_separator l.cursor).after

      digits : Advances (advance l.cursor) whole
      digits = Advances-span-front is_digit_or_separator l.cursor c s front (ground arith)

  op-RoundOutcome :
      (o : Option Operator) (depth : ℕ) → Munched o → RoundOutcome code (length s) (op c o depth l)
  unfolding op
  op-RoundOutcome none depth h = Faulted-errorf code l l.cursor (unexpected_byte c) fits fits.0 refl
  op-RoundOutcome (some o) depth (e, h, u) =
      emit-Leaves o.kind [] _ (Advances-wide o.width l.cursor h) e (u _)

  pub code_round-RoundOutcome : (depth : ℕ) → RoundOutcome code (length s) (code_round c depth l)
  unfolding code_round
  code_round-RoundOutcome depth =
      if-RoundOutcome code n (is_space c) _ _
        (λ e. Leaves-front code l _ c s fits front (Advances-wide 1 l.cursor (omega arith)))
        (λ e.
          if-RoundOutcome code n (c == b'#') _ _
            (λ h.
              Leaves-front code l _ c s fits front
                (Advances-span-front (λ d. not (is_newline d)) l.cursor c s front (ground arith)))
            (λ h.
              if-RoundOutcome code n (is_quote c) _ _
                (λ q. after_string-RoundOutcome code n depth _ (scan_string-Outcome c))
                (λ q. if-RoundOutcome code n (is_digit c) _ _ scan_number-Leaves (λ d.
                  if-RoundOutcome code n (is_ident_start c) _ _ scan_name-Leaves (λ i.
                    op-RoundOutcome (munch c l.cursor.rest) depth
                      (munch-Munched c l.cursor.rest))))))
    where
      n : ℕ
      n = length s
