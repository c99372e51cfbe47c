-- ===== src/Lex/Munch.antt =====
-- internal/lex/code.go: the operators of scanCode against a table of their spellings.
use mathlib.Core.Path.{subst}
use mathlib.Core.Bool.{false≢true}
use quill_template_engine.Prelude.{
  ℕ, ◌≤◌, Bool, true, false, ◌&&◌, not, Option, none, some, List, [], ◌∷◌, ◌++◌, Bytes, codes,
  length, All, mem, nat_eq, if◌then◌else◌, ◌==◌, ==_iff, ◌≡◌, refl, arith, sym, ap, ◌∙◌, Bool-cases,
  inl, inr,
}
use quill_template_engine.Lex.Token.{
  Kind, lparen, rparen, lbracket, rbracket, lbrace, rbrace, spread, range, dot, comma, colon,
  bitor3, oror, pipe, equal, arrow, assign, not_equal, bang, spaceship, less_equal, less,
  greater_equal, greater, plus, typearrow, minus, pow, star, floordiv, slash, percent, tilde,
  coalesce, elvis, optdot, optbrack, question, andand, amp, caret,
}
use quill_template_engine.Lex.Cursor.{has}
use quill_template_engine.Lex.Code.{Operator, Nesting, opens, closes, keeps, munch, operator}

pub record Row : Type 0 where
  pub spelling : Bytes
  pub kind : Kind
  pub nesting : Nesting

abbrev row : Bytes → Kind → Nesting → Row
row s k n = record { spelling = s; kind = k; nesting = n }

-- A longer operator stands in front of the ones that it starts with.
abbrev pub table : List Row
table =
    row (codes "(") lparen opens
    ∷ row (codes ")") rparen closes
    ∷ row (codes "[") lbracket opens
    ∷ row (codes "]") rbracket closes
    ∷ row (codes "{") lbrace opens
    ∷ row (codes "}") rbrace closes
    ∷ row (codes "...") spread keeps
    ∷ row (codes "..") range keeps
    ∷ row (codes ".") dot keeps
    ∷ row (codes ",") comma keeps
    ∷ row (codes ":") colon keeps
    ∷ row (codes "|||") bitor3 keeps
    ∷ row (codes "||") oror keeps
    ∷ row (codes "|") pipe keeps
    ∷ row (codes "==") equal keeps
    ∷ row (codes "=>") arrow keeps
    ∷ row (codes "=") assign keeps
    ∷ row (codes "!=") not_equal keeps
    ∷ row (codes "!") bang keeps
    ∷ row (codes "<=>") spaceship keeps
    ∷ row (codes "<=") less_equal keeps
    ∷ row (codes "<") less keeps
    ∷ row (codes ">=") greater_equal keeps
    ∷ row (codes ">") greater keeps
    ∷ row (codes "+") plus keeps
    ∷ row (codes "->") typearrow keeps
    ∷ row (codes "-") minus keeps
    ∷ row (codes "**") pow keeps
    ∷ row (codes "*") star keeps
    ∷ row (codes "//") floordiv keeps
    ∷ row (codes "/") slash keeps
    ∷ row (codes "%") percent keeps
    ∷ row (codes "~") tilde keeps
    ∷ row (codes "??") coalesce keeps
    ∷ row (codes "?:") elvis keeps
    ∷ row (codes "?.") optdot keeps
    ∷ row (codes "?[") optbrack opens
    ∷ row (codes "?") question keeps
    ∷ row (codes "&&") andand keeps
    ∷ row (codes "&") amp keeps
    ∷ row (codes "^") caret keeps
    ∷ []

-- The first row whose spelling the text starts with.
unfoldable pub first_match : List Row → Bytes → Option Row
unfolding has
first_match [] s = none
first_match (r ∷ rs) s = let rest = first_match rs s in if has r.spelling s then some r else rest

abbrev pub as_operator : Option Row → Option Operator
as_operator none = none
as_operator (some r) = operator r.kind (length r.spelling) r.nesting

abbrev Agrees : ℕ → Bytes → Type 0
Agrees c s = munch c (c ∷ s) ≡ as_operator (first_match table (c ∷ s))

if-as_operator :
    (b : Bool) (o : Option Operator) (r : Row) (x : Option Row)
    → o ≡ as_operator x
    → (if b then operator r.kind (length r.spelling) r.nesting else o)
      ≡ as_operator (if b then some r else x)
if-as_operator true o r x h = refl
if-as_operator false o r x h = h

abbrev starts : List ℕ
starts =
    b'(' ∷ b')' ∷ b'[' ∷ b']' ∷ b'{' ∷ b'}' ∷ b'.' ∷ b',' ∷ b':' ∷ b'|' ∷ b'=' ∷ b'!' ∷ b'<' ∷ b'>'
    ∷ b'+' ∷ b'-' ∷ b'*' ∷ b'/' ∷ b'%' ∷ b'~' ∷ b'?' ∷ b'&' ∷ b'^' ∷ []

starts-Agrees : All (λ c. (s : Bytes) → Agrees c s) starts
unfolding munch first_match
starts-Agrees = (
  λ s. refl,
  (
    λ s. refl,
    (
      λ s. refl,
      (
        λ s. refl,
        (
          λ s. refl,
          (
            λ s. refl,
            (
              λ s.
                  (if-as_operator (has (codes "..") s) _ (row (codes "...") spread keeps) _
                    (if-as_operator (has (codes ".") s) _ (row (codes "..") range keeps) _ refl)),
              (
                λ s. refl,
                (
                  λ s. refl,
                  (
                    λ s.
                        (if-as_operator (has (codes "||") s) _ (row (codes "|||") bitor3 keeps) _ (
                          if-as_operator (has (codes "|") s) _ (row (codes "||") oror keeps) _
                            refl)),
                    (
                      λ s.
                          (if-as_operator (has (codes "=") s) _ (row (codes "==") equal keeps) _ (
                            if-as_operator (has (codes ">") s) _ (row (codes "=>") arrow keeps) _
                              refl)),
                      (
                        λ s.
                            (if-as_operator (has (codes "=") s) _ (row (codes "!=") not_equal keeps)
                              _ refl),
                        (
                          λ s.
                              (if-as_operator (has (codes "=>") s) _
                                (row (codes "<=>") spaceship keeps) _
                                (if-as_operator (has (codes "=") s) _
                                  (row (codes "<=") less_equal keeps) _ refl)),
                          (
                            λ s.
                                (if-as_operator (has (codes "=") s) _
                                  (row (codes ">=") greater_equal keeps) _ refl),
                            (
                              λ s. refl,
                              (
                                λ s.
                                    (if-as_operator (has (codes ">") s) _
                                      (row (codes "->") typearrow keeps) _ refl),
                                (
                                  λ s.
                                      (if-as_operator (has (codes "*") s) _
                                        (row (codes "**") pow keeps) _ refl),
                                  (
                                    λ s.
                                        (if-as_operator (has (codes "/") s) _
                                          (row (codes "//") floordiv keeps) _ refl),
                                    (
                                      λ s. refl,
                                      (
                                        λ s. refl,
                                        (
                                          λ s.
                                              (if-as_operator (has (codes "?") s) _
                                                (row (codes "??") coalesce keeps) _
                                                (if-as_operator (has (codes ":") s) _
                                                  (row (codes "?:") elvis keeps) _
                                                  (if-as_operator (has (codes ".") s) _
                                                    (row (codes "?.") optdot keeps) _
                                                    (if-as_operator (has (codes "[") s) _
                                                      (row (codes "?[") optbrack opens) _ refl)))),
                                          (
                                            λ s.
                                                (if-as_operator (has (codes "&") s) _
                                                  (row (codes "&&") andand keeps) _ refl),
                                            (λ s. refl, tt),
                                          ),
                                        ),
                                      ),
                                    ),
                                  ),
                                ),
                              ),
                            ),
                          ),
                        ),
                      ),
                    ),
                  ),
                ),
              ),
            ),
          ),
        ),
      ),
    ),
  ),
)

All-mem : (P : ℕ → Type 0) (c : ℕ) (xs : List ℕ) → All P xs → mem c xs ≡ true → P c
unfolding mem
All-mem P c [] h k = absurd (false≢true k)
All-mem P c (x ∷ xs) (h, m) k = elim (Bool-cases (c == x)) [
  | inl e ↦ subst P (sym ((==_iff c x).0 e)) h
  | inr e ↦ All-mem P c xs m (ground arith)
]

other-Agrees : (c : ℕ) (s : Bytes) → mem c starts ≡ false → Agrees c s
unfolding mem munch first_match
other-Agrees c s h = ground arith

munch-first_match : (c : ℕ) (s : Bytes) → munch c (c ∷ s) ≡ as_operator (first_match table (c ∷ s))
munch-first_match c s = elim (Bool-cases (mem c starts)) [
  | inl e ↦ All-mem (λ d. (s : Bytes) → Agrees d s) c starts starts-Agrees e s
  | inr e ↦ other-Agrees c s e
]

-- No row starts with an earlier one.
abbrev none_extends : Bytes → List Row → Bool
none_extends t [] = true
none_extends t (r ∷ rs) = not (has t r.spelling) && none_extends t rs

unfoldable is_ordered : List Row → Bool
unfolding has
is_ordered [] = true
is_ordered (r ∷ rs) = none_extends r.spelling rs && is_ordered rs

table-ordered : is_ordered table ≡ true
unfolding is_ordered
table-ordered = refl

-- Of two starts of a text, the shorter one starts the other.
has-shorter :
    (t u s : Bytes) → has t s ≡ true → has u s ≡ true → length t ≤ length u → has t u ≡ true
unfolding has
has-shorter [] u s h k m = refl
has-shorter (c ∷ t) [] s h k m = absurd (omega arith)
has-shorter (c ∷ t) (d ∷ u) [] h k m = absurd (false≢true h)
has-shorter (c ∷ t) (d ∷ u) (e ∷ s) h k m = ground (arith, has-shorter t u s)

-- The rows that start a text are no longer than so many bytes.
abbrev pub AtMost : ℕ → Bytes → List Row → Type 0
AtMost n s rs = All (λ q. has q.spelling s ≡ true → length q.spelling ≤ n) rs

none_extends-AtMost :
    (t s : Bytes) (rs : List Row)
    → none_extends t rs ≡ true
    → has t s ≡ true
    → AtMost (length t) s rs
none_extends-AtMost t s [] h k = tt
none_extends-AtMost t s (r ∷ rs) h k = (
  (λ m. ground (arith, has-shorter t r.spelling s k m)),
  none_extends-AtMost t s rs (ground arith) k,
)

-- The longest of the rows that start a text; none where there is none.
abbrev pub Longest : List Row → Bytes → Option Row → Type 0
Longest rs s none = All (λ q. has q.spelling s ≡ false) rs
Longest rs s (some r) =
    (before after : List Row) × (rs ≡ before ++ r ∷ after)
    × (has r.spelling s ≡ true)
    × AtMost (length r.spelling) s rs

Longest-later :
    (r : Row) (rs : List Row) (s : Bytes) (o : Option Row)
    → has r.spelling s ≡ false
    → Longest rs s o
    → Longest (r ∷ rs) s o
Longest-later r rs s none e h = (e, h)
Longest-later r rs s (some q) e (before, after, f, h, m) =
    (r ∷ before, after, ap (λ qs. r ∷ qs) f, h, ((λ k. absurd (false≢true (sym e ∙ k))), m))

first_match-Longest :
    (rs : List Row) (s : Bytes) → is_ordered rs ≡ true → Longest rs s (first_match rs s)
unfolding is_ordered first_match
first_match-Longest [] s h = tt
first_match-Longest (r ∷ rs) s h = elim (Bool-cases (has r.spelling s)) [
  | inl e ↦
      rw (e, first_match)
        (
          [],
          rs,
          refl,
          e,
          ((λ k. omega arith), none_extends-AtMost r.spelling s rs (ground arith) e),
        )
  | inr e ↦ rw (e, first_match) (Longest-later r rs s _ e (first_match-Longest rs s (ground arith)))
]

-- At every byte, with every text behind it, the operator that a region of code takes is, in kind,
-- width and change of depth, a row of the table of operators whose spelling is there, and no row
-- whose spelling is there is longer; it takes none exactly where no row's spelling is there.
pub munch-Longest :
    (c : ℕ) (s : Bytes)
    → (o : Option Row) × (munch c (c ∷ s) ≡ as_operator o) × Longest table (c ∷ s) o
munch-Longest c s = (
  first_match table (c ∷ s),
  munch-first_match c s,
  first_match-Longest table (c ∷ s) table-ordered,
)
