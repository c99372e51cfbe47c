-- ===== src/Source.antt =====
-- pkg/source/source.go. A nil source, for which the methods give the empty string, is not modelled.
use quill_template_engine.Prelude.{
  ℕ, zero, suc, false, not, Option, none, some, List, [], ◌∷◌, Bytes, nat_eq, ◌==◌, if◌then◌else◌,
  mem, get_elem?, ◌≡◌, refl, arith,
}

-- '\r' and '\n'
abbrev pub carriage_return : ℕ
carriage_return = 13

abbrev pub line_feed : ℕ
line_feed = 10

pub record Source : Type 0 where
  pub name : Bytes
  pub code : Bytes

-- The loop: at a "\r" a following "\n" is part of the same break.
unfoldable pub fold_newlines : Bytes → Bytes
fold_newlines [] = []
fold_newlines (c ∷ []) = (if c == carriage_return then line_feed else c) ∷ []
fold_newlines (c ∷ d ∷ s) =
    let after_pair = fold_newlines s in
    let after_one = fold_newlines (d ∷ s) in
    if c == carriage_return
    then line_feed ∷ (if d == line_feed then after_pair else after_one)
    else c ∷ after_one

unfoldable pub normalize_newlines : Bytes → Bytes
unfolding fold_newlines
normalize_newlines s = if not (mem carriage_return s) then s else fold_newlines s

unfoldable pub new_source : Bytes → Bytes → Source
unfolding normalize_newlines
new_source n c = record { name = n; code = normalize_newlines c }

-- strings.Split(s, "\n"): the first line and those behind it.
unfoldable pub split_lines : Bytes → Bytes × List Bytes
split_lines [] = ([], [])
split_lines (c ∷ s) =
    let (first, rest) = split_lines s in
    if c == line_feed then ([], first ∷ rest) else (c ∷ first, rest)

abbrev or_no_text : Option Bytes → Bytes
or_no_text none = []
or_no_text (some s) = s

unfoldable pub line : ℕ → Source → Bytes
unfolding split_lines
line zero s = []
line (suc n) s = let (first, rest) = split_lines s.code in or_no_text (get_elem? (first ∷ rest) n)

pub mem-fold_newlines : (s : Bytes) → mem carriage_return (fold_newlines s) ≡ false
unfolding fold_newlines mem
mem-fold_newlines [] = refl
mem-fold_newlines (c ∷ []) = ground arith
mem-fold_newlines (c ∷ d ∷ s) = ground (arith, mem-fold_newlines s, mem-fold_newlines (d ∷ s))
