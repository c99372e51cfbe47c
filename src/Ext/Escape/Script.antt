-- ===== src/Ext/Escape/Script.antt =====
-- pkg/ext/escape.go: escapeJS, and a reader of JavaScript string literals.
use quill_template_engine.Prelude.{
  ℕ, zero, suc, ◌+◌, ◌*◌, ◌/◌, ◌%◌, ◌<◌, ◌≤◌, Bool, true, false, ◌||◌, Option, none, some, List, [],
  ◌∷◌, ◌++◌, Bytes, All, codes, length, ltb, ◌==◌, if◌then◌else◌, ◌≡◌, refl, arith, ap, ◌∙◌,
  Bool-cases, inl, inr,
}
use quill_template_engine.Utf8.{encode_rune, hex_digit, format_hex_padded}
use quill_template_engine.Utf8.Hex.{
  digit_value, digit_value-hex_digit, format_hex_padded_two, format_hex_padded_four,
  format_hex_padded_five,
}
use quill_template_engine.Ext.Escape.{escaped, is_alnum, write_js, escape_js}
use quill_template_engine.Ext.Escape.Runes.{Decodes, write_all, each_rune-Decodes}

-- Where a reader stands: between characters, behind a backslash, before so many digits with the value of
-- those that were read.
pub data Position : Type 0 where
  plain after_backslash : Position
  digits : ℕ → ℕ → Position

abbrev unit_in_front : ℕ → Option (List ℕ) → Option (List ℕ)
unit_in_front u none = none
unit_in_front u (some us) = some (u ∷ us)

-- A byte that ends a literal, or the line.
abbrev pub ends_literal : ℕ → Bool
ends_literal c = c == b'"' || (c == b'\'' || (c == b'\n' || c == b'\r'))

-- The code units of a literal's text; none where a byte would end the literal, or an escape is none of
-- \xHH and \uHHHH.
unfoldable pub js_read : Position → Bytes → Option (List ℕ)
unfolding digit_value
js_read plain [] = some []
js_read _ [] = none
js_read plain (c ∷ s) =
    let escape = js_read after_backslash s in
    let rest = js_read plain s in
    if c == b'\\' then escape else if ends_literal c then none else unit_in_front c rest
js_read after_backslash (c ∷ s) =
    let two = js_read (digits 2 0) s in
    let four = js_read (digits 4 0) s in if c == b'x' then two else if c == b'u' then four else none
js_read (digits zero v) (c ∷ s) = none
js_read (digits (suc zero) v) (c ∷ s) = elim (digit_value c) [
  | none ↦ none
  | some d ↦ unit_in_front (v * 16 + d) (js_read plain s)
]
js_read (digits (suc (suc k)) v) (c ∷ s) = elim (digit_value c) [
  | none ↦ none
  | some d ↦ js_read (digits (suc k) (v * 16 + d)) s
]

more :
    (k v d w : ℕ) (s : Bytes)
    → d < 16
    → w ≡ v * 16 + d
    → js_read (digits (suc (suc k)) v) (hex_digit d ∷ s) ≡ js_read (digits (suc k) w) s
unfolding js_read
more k v d w s h e = rw (js_read, digit_value-hex_digit d h, e) refl

last :
    (v d w : ℕ) (s : Bytes)
    → d < 16
    → w ≡ v * 16 + d
    → js_read (digits (suc zero) v) (hex_digit d ∷ s) ≡ unit_in_front w (js_read plain s)
unfolding js_read
last v d w s h e = rw (js_read, digit_value-hex_digit d h, e) refl

-- Two digits, and four.
js_read-two :
    (r : ℕ) (s : Bytes)
    → r < 256
    → js_read (digits 2 0) (hex_digit (r / 16) ∷ hex_digit (r % 16) ∷ s)
      ≡ unit_in_front r (js_read plain s)
js_read-two r s h =
    more 0 0 (r / 16) (r / 16) _ (omega arith) (omega arith)
    ∙ last (r / 16) (r % 16) r s (omega arith) (omega arith)

js_read-four :
    (r : ℕ) (s : Bytes)
    → r < 65536
    → js_read (digits 4 0) (
        hex_digit (r / 16 / 16 / 16)
        ∷ hex_digit (r / 16 / 16 % 16)
        ∷ hex_digit (r / 16 % 16)
        ∷ hex_digit (r % 16)
        ∷ s)
      ≡ unit_in_front r (js_read plain s)
js_read-four r s h =
    more 2 0 (r / 16 / 16 / 16) (r / 16 / 16 / 16) _ (omega arith) (omega arith)
    ∙ more 1 (r / 16 / 16 / 16) (r / 16 / 16 % 16) (r / 16 / 16) _ (omega arith) (omega arith)
    ∙ more 0 (r / 16 / 16) (r / 16 % 16) (r / 16) _ (omega arith) (omega arith)
    ∙ last (r / 16) (r % 16) r s (omega arith) (omega arith)

-- The bytes that stand for themselves.
abbrev is_kept : ℕ → Bool
is_kept r = is_alnum r || (r == b',' || (r == b'.' || r == b'_'))

js_read-kept :
    (r : ℕ) (s : Bytes)
    → is_kept r ≡ true
    → js_read plain (encode_rune r ++ s) ≡ unit_in_front r (js_read plain s)
unfolding js_read encode_rune
js_read-kept r s h = ground arith

js_read-open_two : (s : Bytes) → js_read plain (b'\\' ∷ b'x' ∷ s) ≡ js_read (digits 2 0) s
unfolding js_read
js_read-open_two s = refl

js_read-open_four : (s : Bytes) → js_read plain (b'\\' ∷ b'u' ∷ s) ≡ js_read (digits 4 0) s
unfolding js_read
js_read-open_four s = refl

write_js-kept : (r : ℕ) → is_kept r ≡ true → write_js r ≡ encode_rune r
unfolding write_js
write_js-kept r h = ground arith

write_js-two :
    (r : ℕ) → is_kept r ≡ false → r < 256 → write_js r ≡ b'\\' ∷ b'x' ∷ format_hex_padded 2 r
unfolding write_js
write_js-two r h k = ground arith

write_js-four : (r : ℕ) → 256 ≤ r → write_js r ≡ b'\\' ∷ b'u' ∷ format_hex_padded 4 r
unfolding write_js
write_js-four r k = ground arith

js_read-write_js :
    (r : ℕ) (s : Bytes)
    → r < 65536
    → js_read plain (write_js r ++ s) ≡ unit_in_front r (js_read plain s)
js_read-write_js r s h = elim (Bool-cases (is_kept r)) [
  | inl e ↦ rw (write_js-kept r e) (js_read-kept r s e)
  | inr e ↦ elim (Bool-cases (ltb r 256)) [
    | inl small ↦
        rw (write_js-two r e (ground arith), format_hex_padded_two r (ground arith))
          (js_read-open_two _ ∙ js_read-two r s (ground arith))
    | inr large ↦
        rw (write_js-four r (ground arith), format_hex_padded_four r h)
          (js_read-open_four _ ∙ js_read-four r s h)
  ]
]

-- A digit stands for itself between the escapes.
js_read-digit : (d : ℕ) → d < 16 → js_read plain (hex_digit d ∷ []) ≡ some (hex_digit d ∷ [])
unfolding js_read hex_digit
js_read-digit d h = ground arith

js_read-write_all :
    (rs : List ℕ) → All (λ r. r < 65536) rs → js_read plain (write_all write_js rs) ≡ some rs
js_read-write_all [] h = unfold js_read in refl
js_read-write_all (r ∷ rs) (h, k) =
    js_read-write_js r (write_all write_js rs) h ∙ ap (unit_in_front r) (js_read-write_all rs k)

-- A text that is the encoding of runes below 65536 has a js escape, and it is the inside of a
-- JavaScript string literal with just these code units: no byte of it ends the literal or the line.
pub escape_js-Decodes :
    (s : Bytes) (rs : List ℕ)
    → Decodes s rs []
    → All (λ r. r < 65536) rs
    → (out : Bytes) × (escape_js s ≡ escaped out) × (js_read plain out ≡ some rs)
unfolding escape_js
escape_js-Decodes s rs d h = (
  write_all write_js rs,
  each_rune-Decodes (codes "js") write_js (length s) 0 d refl (omega arith),
  js_read-write_all rs h,
)

-- The js escape of one rune from 65536 up to 1048575 is the inside of a JavaScript string literal
-- of two code units: the rune divided by 16, and the digit of the remainder.
pub escape_js-astral :
    (s : Bytes) (r : ℕ)
    → Decodes s (r ∷ []) []
    → 65536 ≤ r
    → r < 1048576
    → (out : Bytes) × (escape_js s ≡ escaped out)
      × (js_read plain out ≡ some (r / 16 ∷ hex_digit (r % 16) ∷ []))
unfolding escape_js
escape_js-astral s r d h k = (
  write_all write_js (r ∷ []),
  each_rune-Decodes (codes "js") write_js (length s) 0 d refl (omega arith),
  rw (write_js-four r (omega arith), format_hex_padded_five r h k)
      (js_read-open_four _
        ∙ js_read-four (r / 16) _ (omega arith)
        ∙ ap (unit_in_front (r / 16)) (js_read-digit (r % 16) (omega arith))),
)
