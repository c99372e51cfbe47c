-- ===== src/Ext/Escape/Runes.antt =====
-- pkg/ext/escape.go: the loop over the runes of a text.
use mathlib.Core.Path.{subst}
use mathlib.Core.Option.{none-ne-some}
use quill_template_engine.Prelude.{
  ℕ, zero, suc, ◌+◌, ◌-◌, ◌<◌, ◌≤◌, Bool, true, false, Option, none, some, List, [], ◌∷◌, ◌++◌,
  Bytes, length, ltb, if◌then◌else◌, ◌≡◌, ◌⊎◌, refl, arith, ap, ◌∙◌, Option-cases, inl, inr,
}
use quill_template_engine.Utf8.{decode_rune, decode_two, decode_three, decode_four}
use quill_template_engine.Ext.Escape.{Escaped, escaped, invalid_utf8, written, each_rune}

-- A text starts with the encodings of these runes, and another text is left.
pub data Decodes : Bytes → List ℕ → Bytes → Type 0 where
  done : (s : Bytes) → Decodes s [] s
  next :
      (s s' t : Bytes) (r : ℕ) (rs : List ℕ)
      → decode_rune s ≡ some (r, s')
      → Decodes s' rs t
      → Decodes s (r ∷ rs) t

-- The rest that a decoder leaves is shorter than its text.
abbrev Shorter : ℕ → Option (ℕ × Bytes) → Type 0
Shorter n none = Unit
Shorter n (some (r, s)) = length s < n

decode_two-Shorter : (a : ℕ) (s : Bytes) → Shorter (suc (length s)) (decode_two a s)
unfolding decode_two
decode_two-Shorter a [] = tt
decode_two-Shorter a (b ∷ s) = ground arith

decode_three-Shorter : (lo hi a : ℕ) (s : Bytes) → Shorter (suc (length s)) (decode_three lo hi a s)
unfolding decode_three
decode_three-Shorter lo hi a (b ∷ c ∷ s) = ground arith
decode_three-Shorter lo hi a _ = tt

decode_four-Shorter : (lo hi a : ℕ) (s : Bytes) → Shorter (suc (length s)) (decode_four lo hi a s)
unfolding decode_four
decode_four-Shorter lo hi a (b ∷ c ∷ d ∷ s) = ground arith
decode_four-Shorter lo hi a _ = tt

if-Shorter :
    (n : ℕ) (b : Bool) (x y : Option (ℕ × Bytes))
    → Shorter n x
    → Shorter n y
    → Shorter n (if b then x else y)
if-Shorter n true x y h k = h
if-Shorter n false x y h k = k

decode_rune-Shorter : (s : Bytes) → Shorter (length s) (decode_rune s)
unfolding decode_rune
decode_rune-Shorter [] = tt
decode_rune-Shorter (a ∷ s) = if-Shorter n (ltb a 0x80) _ _ (omega arith) (
    if-Shorter n (ltb a 0xC2) _ _ tt (
      if-Shorter n (ltb a 0xE0) _ _ (decode_two-Shorter a s) (
        if-Shorter n (ltb a 0xE1) _ _ (decode_three-Shorter 0xA0 0xBF a s) (
          if-Shorter n (ltb a 0xED) _ _ (decode_three-Shorter 0x80 0xBF a s) (
            if-Shorter n (ltb a 0xEE) _ _ (decode_three-Shorter 0x80 0x9F a s) (
              if-Shorter n (ltb a 0xF0) _ _ (decode_three-Shorter 0x80 0xBF a s) (
                if-Shorter n (ltb a 0xF1) _ _ (decode_four-Shorter 0x90 0xBF a s) (
                  if-Shorter n (ltb a 0xF4) _ _ (decode_four-Shorter 0x80 0xBF a s)
                    (if-Shorter n (ltb a 0xF5) _ _ (decode_four-Shorter 0x80 0x8F a s) tt)))))))))
  where
    n : ℕ
    n = suc (length s)

length-decode_rune : (s s' : Bytes) (r : ℕ) → decode_rune s ≡ some (r, s') → length s' < length s
length-decode_rune s s' r e = subst (Shorter (length s)) e (decode_rune-Shorter s)

length-Decodes : {s : Bytes} {rs : List ℕ} {t : Bytes} → Decodes s rs t → length t ≤ length s
length-Decodes (done s) = omega arith
length-Decodes (next s s' t r rs e d) = omega (arith, length-decode_rune s s' r e, length-Decodes d)

abbrev pub write_all : (ℕ → Bytes) → List ℕ → Bytes
write_all write [] = []
write_all write (r ∷ rs) = write r ++ write_all write rs

-- The loop went to the end of the text, or to the first byte that starts no rune.
abbrev pub Runs : Bytes → (ℕ → Bytes) → ℕ → Bytes → Escaped → Type 0
Runs strategy write i s o =
    ((rs : List ℕ) × Decodes s rs [] × (o ≡ escaped (write_all write rs)))
    ⊎ ((rs : List ℕ) × (c : ℕ) × (t : Bytes) × Decodes s rs (c ∷ t)
        × (decode_rune (c ∷ t) ≡ none)
        × (o ≡ invalid_utf8 strategy (i + (length s - length (c ∷ t)))))

pub each_rune-Runs :
    (strategy : Bytes) (write : ℕ → Bytes) (rounds i : ℕ) (s : Bytes)
    → length s ≤ rounds
    → Runs strategy write i s (each_rune strategy write rounds i s)
unfolding each_rune
each_rune-Runs strategy write rounds i [] h = inl ([], done [], each_rune_end rounds)
  where
    each_rune_end : (k : ℕ) → each_rune strategy write k i [] ≡ escaped []
    each_rune_end zero = refl
    each_rune_end (suc k) = refl
each_rune-Runs strategy write zero i (c ∷ s) h = absurd (omega arith)
each_rune-Runs strategy write (suc rounds) i (c ∷ s) h = elim (Option-cases (decode_rune (c ∷ s))) [
  | inl e ↦
      inr ([], c, s, done (c ∷ s), e, rw (e, each_rune) (ap (invalid_utf8 strategy) (omega arith)))
  | inr ((r, s'), e) ↦
      let shorter = length-decode_rune (c ∷ s) s' r e in
      let j = i + (length (c ∷ s) - length s') in
      elim (each_rune-Runs strategy write rounds j s' (omega arith)) [
        | inl (rs, d, out) ↦
            inl
              (r ∷ rs, next (c ∷ s) s' [] r rs e d, rw (e, each_rune) (ap (written (write r)) out))
        | inr (rs, b, t, d, bad, out) ↦ inr (
          r ∷ rs,
          b,
          t,
          next (c ∷ s) s' (b ∷ t) r rs e d,
          bad,
          rw (e, each_rune)
              (ap (written (write r)) out
                ∙ ap (invalid_utf8 strategy) (omega (arith, length-Decodes d))),
        )
      ]
]

pub each_rune-Decodes :
    (strategy : Bytes) (write : ℕ → Bytes) (rounds i : ℕ) {s : Bytes} {rs : List ℕ} {t : Bytes}
    → Decodes s rs t
    → t ≡ []
    → length s ≤ rounds
    → each_rune strategy write rounds i s ≡ escaped (write_all write rs)
unfolding each_rune
each_rune-Decodes strategy write rounds i (done s) e h = rw (e) (each_rune-nil rounds)
  where
    each_rune-nil : (k : ℕ) → each_rune strategy write k i [] ≡ escaped []
    each_rune-nil zero = refl
    each_rune-nil (suc k) = refl
each_rune-Decodes strategy write rounds i (next [] s' t r rs e d) f h =
    absurd (none-ne-some (r, s') e)
each_rune-Decodes strategy write zero i (next (c ∷ s) s' t r rs e d) f h = absurd (omega arith)
each_rune-Decodes strategy write (suc rounds) i (next (c ∷ s) s' t r rs e d) f h =
    rw (e, each_rune)
      (ap (written (write r)) (
        each_rune-Decodes strategy write rounds _ d f
          (omega (arith, length-decode_rune (c ∷ s) s' r e))))
