-- ===== src/Ext/Escape/Percent.antt =====
-- pkg/ext/escape.go: escapeURL, and a reader of percent-encoded texts.
use quill_template_engine.Prelude.{
  ℕ, ◌+◌, ◌*◌, ◌/◌, ◌%◌, ◌<◌, Option, none, some, [], ◌∷◌, ◌++◌, Bytes, All, ◌==◌, if◌then◌else◌,
  ◌≡◌, refl, arith, ap, ◌∙◌, Bool-cases, inl, inr,
}
use quill_template_engine.Utf8.{hex_digit}
use quill_template_engine.Utf8.Hex.{digit_value, digit_value-hex_digit, format_hex_padded_two}
use quill_template_engine.Ext.Escape.{is_url_unreserved, write_url, escape_url}
use quill_template_engine.Ext.Escape.Markup.{in_front}

pub data Place : Type 0 where
  outside after_percent : Place
  after_digit : ℕ → Place

-- What percent-encoding stands for; none where a byte needs an encoding that it has not.
unfoldable pub read_percent : Place → Bytes → Option Bytes
unfolding digit_value
read_percent outside [] = some []
read_percent _ [] = none
read_percent outside (c ∷ s) =
    let encoded = read_percent after_percent s in
    let rest = read_percent outside s in
    if c == b'%' then encoded else if is_url_unreserved c then in_front c rest else none
read_percent after_percent (c ∷ s) = elim (digit_value c) [
  | none ↦ none
  | some d ↦ read_percent (after_digit d) s
]
read_percent (after_digit v) (c ∷ s) = elim (digit_value c) [
  | none ↦ none
  | some d ↦ in_front (v * 16 + d) (read_percent outside s)
]

read_percent-digits :
    (c : ℕ) (s : Bytes)
    → c < 256
    → read_percent outside (b'%' ∷ hex_digit (c / 16) ∷ hex_digit (c % 16) ∷ s)
      ≡ in_front c (read_percent outside s)
unfolding read_percent
read_percent-digits c s h =
    rw
      (
        read_percent,
        digit_value-hex_digit (c / 16) (omega arith),
        digit_value-hex_digit (c % 16) (omega arith),
      )
      (ap (λ v. in_front v (read_percent outside s)) (omega arith))

read_percent-write_url :
    (c : ℕ) (s : Bytes)
    → c < 256
    → read_percent outside (write_url c ++ s) ≡ in_front c (read_percent outside s)
unfolding write_url
read_percent-write_url c s h = elim (Bool-cases (is_url_unreserved c)) [
  | inl e ↦ rw e (unfold read_percent in ground arith)
  | inr e ↦ rw (e, format_hex_padded_two c h) (read_percent-digits c s h)
]

-- Decoding the percent-encoding of a text of bytes, by a decoder that refuses a byte that is
-- neither unreserved nor encoded, gives the text.
pub read_percent-escape_url :
    (s : Bytes) → All (λ c. c < 256) s → read_percent outside (escape_url s) ≡ some s
unfolding escape_url
read_percent-escape_url [] h = unfold read_percent in refl
read_percent-escape_url (c ∷ s) (h, k) =
    read_percent-write_url c (escape_url s) h ∙ ap (in_front c) (read_percent-escape_url s k)
