-- ===== src/Lex/Trims.antt =====
-- internal/lex/trim.go. The loop rewrites the neighbours of the delimiters in place, from the left.
use quill_template_engine.Prelude.{ℕ, Bool, ◌||◌, List, [], ◌∷◌, Bytes, ◌==◌, if◌then◌else◌}
use quill_template_engine.Lex.Token.{
  Token, Kind, text, open_interp, close_interp, block_open, block_close, Trim, trim_none, trim_hard,
  trim_line,
}

abbrev pub is_line_ws : ℕ → Bool
is_line_ws c = c == b' ' || (c == b'\t' || (c == 0 || c == 11))

abbrev pub is_hard_ws : ℕ → Bool
is_hard_ws c = is_line_ws c || (c == b'\n' || c == b'\r')

-- strings.TrimLeft and strings.TrimRight
unfoldable pub drop_left : (ℕ → Bool) → Bytes → Bytes
drop_left test [] = []
drop_left test (c ∷ s) = let rest = drop_left test s in if test c then rest else c ∷ s

unfoldable pub drop_right : (ℕ → Bool) → Bytes → Bytes
drop_right test [] = []
drop_right test (c ∷ s) = elim (drop_right test s) [
  | [] ↦ if test c then [] else c ∷ []
  | d ∷ t ↦ c ∷ d ∷ t
]

unfoldable pub trim_right : Bytes → Trim → Bytes
unfolding drop_right
trim_right s trim_hard = drop_right is_hard_ws s
trim_right s trim_line = drop_right is_line_ws s
trim_right s _ = s

unfoldable pub trim_left : Bytes → Trim → Bytes
unfolding drop_left
trim_left s trim_hard = drop_left is_hard_ws s
trim_left s trim_line = drop_left is_line_ws s
trim_left s _ = s

abbrev pub with_text : Bytes → Token → Token
with_text s t = record {
  kind = t.kind;
  text = s;
  line = t.line;
  col = t.col;
  trim_l = t.trim_l;
  trim_r = t.trim_r;
  quote = t.quote;
}

-- What a delimiter does to the token in front of it, and to the one behind it.
abbrev pub right_edge : Kind → Trim → Token → Token
right_edge text trim t = with_text (trim_right t.text trim) t
right_edge _ trim t = t

abbrev pub left_edge : Kind → Trim → Token → Token
left_edge text trim t = with_text (trim_left t.text trim) t
left_edge _ trim t = t

-- The trim that a token asks of the text in front of it, and of the text behind it.
abbrev pub trim_before : Token → Trim
trim_before t = elim t.kind [ open_interp ↦ t.trim_l | _ ↦ trim_none ]

abbrev pub trim_behind : Token → Trim
trim_behind t = elim t.kind [
  | close_interp ↦ t.trim_r
  | block_open ↦ t.trim_r
  | block_close ↦ t.trim_r
  | _ ↦ trim_none
]

-- The loop at a token, which its left neighbour has trimmed, and the tokens behind it.
unfoldable pub trim_from : Token → List Token → List Token
unfolding trim_right trim_left
trim_from t [] = t ∷ []
trim_from t (u ∷ ts) =
    right_edge t.kind (trim_before u) t ∷ trim_from (left_edge u.kind (trim_behind t) u) ts

unfoldable pub apply_trims : List Token → List Token
unfolding trim_from
apply_trims [] = []
apply_trims (t ∷ ts) = trim_from t ts
