-- ===== src/Utf8.antt =====
-- What the engine uses of Go's unicode/utf8 and of fmt's hexadecimal verbs.
pub mod Hex
use quill_template_engine.Prelude.{
  ℕ, zero, suc, ◌+◌, ◌-◌, ◌*◌, ◌/◌, ◌%◌, Bool, true, false, ◌&&◌, Option, none, some, List, [], ◌∷◌,
  ◌++◌, Bytes, ltb, leb, length, if◌then◌else◌,
}

-- The rune at the front of a text and the rest of the text; none where utf8.DecodeRuneInString gives
-- RuneError and the size 1, or the text is empty.
abbrev within : ℕ → ℕ → ℕ → Bool
within lo c hi = leb lo c && leb c hi

abbrev is_tail : ℕ → Bool
is_tail c = within 0x80 c 0xBF

unfoldable pub decode_two : ℕ → Bytes → Option (ℕ × Bytes)
decode_two a (b ∷ s) = if is_tail b then some ((a - 0xC0) * 64 + (b - 0x80), s) else none
decode_two a _ = none

-- The second byte lies between the bounds.
unfoldable pub decode_three : ℕ → ℕ → ℕ → Bytes → Option (ℕ × Bytes)
decode_three lo hi a (b ∷ c ∷ s) =
    if within lo b hi && is_tail c
    then some ((a - 0xE0) * 4096 + (b - 0x80) * 64 + (c - 0x80), s)
    else none
decode_three lo hi a _ = none

unfoldable pub decode_four : ℕ → ℕ → ℕ → Bytes → Option (ℕ × Bytes)
decode_four lo hi a (b ∷ c ∷ d ∷ s) =
    if within lo b hi && (is_tail c && is_tail d)
    then some ((a - 0xF0) * 262144 + (b - 0x80) * 4096 + (c - 0x80) * 64 + (d - 0x80), s)
    else none
decode_four lo hi a _ = none

unfoldable pub decode_rune : Bytes → Option (ℕ × Bytes)
unfolding decode_two decode_three decode_four
decode_rune [] = none
decode_rune (a ∷ s) =
    if ltb a 0x80
    then some (a, s)
    else if ltb a 0xC2
    then none
    else if ltb a 0xE0
    then decode_two a s
    else if ltb a 0xE1
    then decode_three 0xA0 0xBF a s
    else if ltb a 0xED
    then decode_three 0x80 0xBF a s
    else if ltb a 0xEE
    then decode_three 0x80 0x9F a s
    else if ltb a 0xF0
    then decode_three 0x80 0xBF a s
    else if ltb a 0xF1
    then decode_four 0x90 0xBF a s
    else if ltb a 0xF4
    then decode_four 0x80 0xBF a s
    else if ltb a 0xF5
    then decode_four 0x80 0x8F a s
    else none

-- strings.Builder.WriteRune, for a rune that is no surrogate and at most 0x10FFFF.
unfoldable pub encode_rune : ℕ → Bytes
encode_rune r =
    if ltb r 0x80
    then r ∷ []
    else if ltb r 0x800
    then (0xC0 + r / 64) ∷ (0x80 + r % 64) ∷ []
    else if ltb r 0x10000
    then (0xE0 + r / 4096) ∷ (0x80 + r / 64 % 64) ∷ (0x80 + r % 64) ∷ []
    else (0xF0 + r / 262144) ∷ (0x80 + r / 4096 % 64) ∷ (0x80 + r / 64 % 64) ∷ (0x80 + r % 64) ∷ []

-- A hexadecimal digit, in capitals.
unfoldable pub hex_digit : ℕ → ℕ
hex_digit d = if ltb d 10 then b'0' + d else b'A' + (d - 10)

unfoldable pub hex_loop : ℕ → ℕ → Bytes → Bytes
unfolding hex_digit
hex_loop zero n out = out
hex_loop (suc fuel) n out =
    let rest = hex_loop fuel (n / 16) (hex_digit (n % 16) ∷ out) in
    if ltb n 16 then hex_digit n ∷ out else rest

-- %X
unfoldable pub format_hex : ℕ → Bytes
unfolding hex_loop
format_hex n = hex_loop (suc n) n []

abbrev pub zeros : ℕ → Bytes → Bytes
zeros zero s = s
zeros (suc n) s = b'0' ∷ zeros n s

-- %0wX
unfoldable pub format_hex_padded : ℕ → ℕ → Bytes
unfolding format_hex
format_hex_padded width n = zeros (width - length (format_hex n)) (format_hex n)
