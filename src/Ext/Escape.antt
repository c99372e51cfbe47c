-- ===== src/Ext/Escape.antt =====
-- pkg/ext/escape.go. A text is a list of bytes.
pub mod Markup
pub mod Runes
pub mod Script
pub mod Percent
pub mod Strategies
use quill_template_engine.Prelude.{
  ℕ, zero, suc, ◌+◌, ◌-◌, Bool, true, false, ◌&&◌, ◌||◌, Option, none, some, List, [], ◌∷◌, ◌++◌,
  Bytes, bytes_beq, codes, ltb, leb, ◌==◌, length, if◌then◌else◌,
}
use quill_template_engine.Utf8.{decode_rune, encode_rune, format_hex, format_hex_padded}

-- What the replacer puts for one byte: it replaces single bytes, in one pass.
unfoldable pub html_bytes : ℕ → Bytes
html_bytes c =
    if c == b'&'
    then codes "&amp;"
    else if c == b'<'
    then codes "&lt;"
    else if c == b'>'
    then codes "&gt;"
    else if c == b'"'
    then codes "&quot;"
    else if c == b'\''
    then codes "&#39;"
    else c ∷ []

unfoldable pub escape_html : Bytes → Bytes
unfolding html_bytes
escape_html [] = []
escape_html (c ∷ s) = html_bytes c ++ escape_html s

-- An escaped text, or the offset of a byte that is no UTF-8 and the strategy that refused it. A text of
-- more bytes than the rounds of the loop is `unfinished`.
pub data Escaped : Type 0 where
  escaped : Bytes → Escaped
  invalid_utf8 : Bytes → ℕ → Escaped
  unknown_strategy : Bytes → Escaped
  unfinished : Escaped

abbrev pub is_alnum : ℕ → Bool
is_alnum r =
    (leb b'a' r && leb r b'z') || ((leb b'A' r && leb r b'Z') || (leb b'0' r && leb r b'9'))

abbrev pub written : Bytes → Escaped → Escaped
written out (escaped rest) = escaped (out ++ rest)
written out e = e

-- The loop over the runes of a text, at an offset; `write` is what its body appends.
unfoldable pub each_rune : Bytes → (ℕ → Bytes) → ℕ → ℕ → Bytes → Escaped
unfolding decode_rune
each_rune strategy write rounds i [] = escaped []
each_rune strategy write zero i (c ∷ s) = unfinished
each_rune strategy write (suc rounds) i (c ∷ s) = elim (decode_rune (c ∷ s)) [
  | none ↦ invalid_utf8 strategy i
  | some (r, rest) ↦
      written (write r) (each_rune strategy write rounds (i + (length (c ∷ s) - length rest)) rest)
]

unfoldable pub write_js : ℕ → Bytes
unfolding encode_rune format_hex_padded
write_js r =
    if is_alnum r
    then encode_rune r
    else if r == b',' || (r == b'.' || r == b'_')
    then encode_rune r
    else if ltb r 0x100
    then b'\\' ∷ b'x' ∷ format_hex_padded 2 r
    else b'\\' ∷ b'u' ∷ format_hex_padded 4 r

unfoldable pub write_css : ℕ → Bytes
unfolding encode_rune format_hex
write_css r = if is_alnum r then encode_rune r else b'\\' ∷ format_hex r ++ b' ' ∷ []

unfoldable pub write_html_attr : Bool → ℕ → Bytes
unfolding encode_rune format_hex
write_html_attr relaxed r =
    if is_alnum r || (r == b',' || (r == b'.' || (r == b'-' || r == b'_')))
    then encode_rune r
    else if relaxed && (r == b':' || (r == b'@' || (r == b'[' || r == b']')))
    then encode_rune r
    else b'&' ∷ b'#' ∷ b'x' ∷ format_hex r ++ b';' ∷ []

unfoldable pub escape_js : Bytes → Escaped
unfolding each_rune write_js
escape_js s = each_rune (codes "js") write_js (length s) 0 s

unfoldable pub escape_css : Bytes → Escaped
unfolding each_rune write_css
escape_css s = each_rune (codes "css") write_css (length s) 0 s

unfoldable pub escape_html_attr : Bytes → Bool → Escaped
unfolding each_rune write_html_attr
escape_html_attr s relaxed =
    each_rune (if relaxed then codes "html_attr_relaxed" else codes "html_attr")
      (write_html_attr relaxed) (length s) 0 s

abbrev pub is_url_unreserved : ℕ → Bool
is_url_unreserved c = is_alnum c || (c == b'-' || (c == b'.' || (c == b'_' || c == b'~')))

unfoldable pub write_url : ℕ → Bytes
unfolding format_hex_padded
write_url c = if is_url_unreserved c then c ∷ [] else b'%' ∷ format_hex_padded 2 c

unfoldable pub escape_url : Bytes → Bytes
unfolding write_url
escape_url [] = []
escape_url (c ∷ s) = write_url c ++ escape_url s

unfoldable pub escape : Bytes → Bytes → Escaped
unfolding escape_html escape_js escape_css escape_html_attr escape_url
escape strategy s =
    if bytes_beq strategy (codes "html")
    then escaped (escape_html s)
    else if bytes_beq strategy (codes "js")
    then escape_js s
    else if bytes_beq strategy (codes "css")
    then escape_css s
    else if bytes_beq strategy (codes "html_attr")
    then escape_html_attr s false
    else if bytes_beq strategy (codes "html_attr_relaxed")
    then escape_html_attr s true
    else if bytes_beq strategy (codes "url")
    then escaped (escape_url s)
    else unknown_strategy strategy
