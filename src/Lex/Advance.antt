-- ===== src/Lex/Advance.antt =====
-- internal/lex: how the cursor moves over the input, for each helper of the scans.
use quill_template_engine.Prelude.{
  ℕ, zero, suc, ◌≤◌, Bool, true, false, Option, [], ◌∷◌, Bytes, length, if◌then◌else◌, ◌≡◌, arith,
  Option-cases, inl, inr,
}
use quill_template_engine.Lex.Cursor.{
  Cursor, advance, advance_by, walk, walk_bytes, span, while_test, take_open_trim, take_close_trim,
  eat_one_newline, skip_trailing_horizontal_ws, next_line, next_col, front_is, is_newline,
  at_line_end, is_line_blank, Taken,
}

-- The cursor moved from the one place to the other byte by byte.
pub data Advances : Cursor → Cursor → Type 0 where
  stay : (p : Cursor) → Advances p p
  step : (p q : Cursor) → Advances (advance p) q → Advances p q

pub Advances-trans : {p q r : Cursor} → Advances p q → Advances q r → Advances p r
Advances-trans (stay p) k = k
Advances-trans (step p q h) k = step p _ (Advances-trans h k)

pub Advances-advance : (p : Cursor) → Advances p (advance p)
Advances-advance p = step p _ (stay (advance p))

pub Advances-advance_by : (n : ℕ) (p : Cursor) → Advances p (advance_by n p)
unfolding advance_by
Advances-advance_by zero p = stay p
Advances-advance_by (suc n) p = step p _ (Advances-advance_by n (advance p))

abbrev pub from : Bytes → ℕ → ℕ → Cursor
from s line col = record { rest = s; line = line; col = col }

length-advance-from :
    (s : Bytes) (line col : ℕ) → length (advance (from s line col)).rest ≤ length s
unfolding advance
length-advance-from [] line col = omega arith
length-advance-from (c ∷ s) line col = omega arith

length-advance : (p : Cursor) → length (advance p).rest ≤ length p.rest
length-advance p = length-advance-from p.rest p.line p.col

pub length-Advances : {p q : Cursor} → Advances p q → length q.rest ≤ length p.rest
length-Advances (stay p) = omega arith
length-Advances (step p q h) = omega (arith, length-Advances h, length-advance p)

length-advance-front :
    (p : Cursor) (c : ℕ) (s : Bytes) → p.rest ≡ c ∷ s → length (advance p).rest ≤ length s
unfolding advance
length-advance-front p c s e = rw (e) (omega arith)

-- From a byte on, a cursor that moved at all has fewer bytes in front of it.
pub Advances-shorter :
    (p q : Cursor) (c : ℕ) (s : Bytes)
    → p.rest ≡ c ∷ s
    → Advances (advance p) q
    → length q.rest ≤ length s
Advances-shorter p q c s e h = omega (arith, length-Advances h, length-advance-front p c s e)

Advances-walk_bytes {ℓ} :
    {M : Type ℓ} (f : M → ℕ → Bytes → Option M) (m : M) (s : Bytes) (line col : ℕ)
    → Advances (from s line col) (walk_bytes f m s line col).after
unfolding walk_bytes advance
Advances-walk_bytes f m [] line col = stay (from [] line col)
Advances-walk_bytes f m (c ∷ s) line col = elim (Option-cases (f m c s)) [
  | inl e ↦ rw (e, walk_bytes) (stay (from (c ∷ s) line col))
  | inr (next, e) ↦
      rw (e, walk_bytes)
        (step (from (c ∷ s) line col) _
          (Advances-walk_bytes f next s (next_line c line) (next_col c col)))
]

pub Advances-walk {ℓ} :
    {M : Type ℓ} (f : M → ℕ → Bytes → Option M) (m : M) (p : Cursor) → Advances p (walk f m p).after
unfolding walk
Advances-walk f m p = Advances-walk_bytes f m p.rest p.line p.col

pub Advances-span : (test : ℕ → Bool) (p : Cursor) → Advances p (span test p).after
unfolding span
Advances-span test p = Advances-walk (while_test test) tt p

-- A loop that takes the byte in front of the cursor moves it.
pub Advances-span-front :
    (test : ℕ → Bool) (p : Cursor) (c : ℕ) (s : Bytes)
    → p.rest ≡ c ∷ s
    → test c ≡ true
    → Advances (advance p) (span test p).after
unfolding span walk walk_bytes advance
Advances-span-front test p c s e h =
    rw (e, walk_bytes, h)
      (Advances-walk_bytes (while_test test) tt s (next_line c p.line) (next_col c p.col))

if-Advances :
    {p : Cursor} (b : Bool) (q r : Cursor)
    → Advances p q
    → Advances p r
    → Advances p (if b then q else r)
if-Advances true q r h k = h
if-Advances false q r h k = k

if-behind :
    {p : Cursor} (b : Bool) (t u : Taken)
    → Advances p t.behind
    → Advances p u.behind
    → Advances p (if b then t else u).behind
if-behind true t u h k = h
if-behind false t u h k = k

pub Advances-take_open_trim : (p : Cursor) → Advances p (take_open_trim p).behind
unfolding take_open_trim
Advances-take_open_trim p =
    if-behind (front_is _ p.rest) _ _ (Advances-advance p)
      (if-behind (front_is _ p.rest) _ _ (Advances-advance p) (stay p))

pub Advances-take_close_trim : (p : Cursor) → Advances p (take_close_trim p).behind
unfolding take_close_trim
Advances-take_close_trim p = if-behind (front_is _ p.rest) _ _ (Advances-advance p) (
    if-behind (front_is _ p.rest) _ _ (Advances-advance p)
      (if-behind (front_is _ p.rest) _ _ (Advances-advance p) (stay p)))

pub Advances-eat_one_newline : (p : Cursor) → Advances p (eat_one_newline p)
unfolding eat_one_newline
Advances-eat_one_newline p =
    if-Advances (front_is is_newline p.rest) _ _ (Advances-advance p) (stay p)

pub Advances-skip_trailing_horizontal_ws : (p : Cursor) → Advances p (skip_trailing_horizontal_ws p)
unfolding skip_trailing_horizontal_ws
Advances-skip_trailing_horizontal_ws p =
    if-Advances (at_line_end (span is_line_blank p).after.rest) _ _ (Advances-span is_line_blank p)
      (stay p)
