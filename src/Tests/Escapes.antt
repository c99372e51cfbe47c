-- ===== src/Tests/Escapes.antt =====
-- The escaping strategies.
use quill_template_engine.Prelude.{
  ℕ, ◌/◌, ◌%◌, true, false, none, some, [], ◌∷◌, Bytes, bytes_beq, codes, mem, nat_eq, ◌≡◌, refl,
  arith,
}
use quill_template_engine.Utf8.{decode_rune, hex_digit}
use quill_template_engine.Ext.Escape.{
  escaped, escape, escape_html, escape_js, escape_url, write_js, invalid_utf8,
}
use quill_template_engine.Ext.Escape.Markup.{read_html, is_markup, escape_html-safe}
use quill_template_engine.Ext.Escape.Runes.{Decodes, done, next, Runs}
use quill_template_engine.Ext.Escape.Strategies.{js, escape-Runs}
use quill_template_engine.Ext.Escape.Script.{js_read, plain, escape_js-Decodes, escape_js-astral}
use quill_template_engine.Ext.Escape.Percent.{read_percent, outside, read_percent-escape_url}

escape_html-safe_example :
    (read_html none (escape_html (codes "<a b='c'>")) ≡ some (codes "<a b='c'>"))
    × ((m : ℕ) → is_markup m ≡ true → mem m (escape_html (codes "<a b='c'>")) ≡ false)
escape_html-safe_example = escape_html-safe (codes "<a b='c'>")

-- "'é"
abbrev quote_e : Bytes
quote_e = 39 ∷ 195 ∷ 169 ∷ []

quote_e-Decodes : Decodes quote_e (39 ∷ 233 ∷ []) []
unfolding decode_rune
quote_e-Decodes =
    next quote_e (195 ∷ 169 ∷ []) [] 39 (233 ∷ []) refl
      (next (195 ∷ 169 ∷ []) [] [] 233 [] refl (done []))

escape_js-Decodes_example :
    (out : Bytes) × (escape_js quote_e ≡ escaped out) × (js_read plain out ≡ some (39 ∷ 233 ∷ []))
escape_js-Decodes_example =
    escape_js-Decodes quote_e (39 ∷ 233 ∷ []) quote_e-Decodes (omega arith, (omega arith, tt))

-- U+1F600
abbrev smile : Bytes
smile = 240 ∷ 159 ∷ 152 ∷ 128 ∷ []

smile-Decodes : Decodes smile (128512 ∷ []) []
unfolding decode_rune
smile-Decodes = next smile [] [] 128512 [] refl (done [])

escape_js-astral_example :
    (out : Bytes) × (escape_js smile ≡ escaped out)
    × (js_read plain out ≡ some (128512 / 16 ∷ hex_digit (128512 % 16) ∷ []))
escape_js-astral_example = escape_js-astral smile 128512 smile-Decodes (omega arith) (omega arith)

escape-Runs_example : Runs (codes "js") write_js 0 quote_e (escape (codes "js") quote_e)
escape-Runs_example = escape-Runs (codes "js") write_js quote_e js

escape_stops : escape (codes "css") (97 ∷ 233 ∷ 98 ∷ []) ≡ invalid_utf8 (codes "css") 1
unfolding escape bytes_beq
escape_stops = refl

read_percent-escape_url_example : read_percent outside (escape_url quote_e) ≡ some quote_e
read_percent-escape_url_example =
    read_percent-escape_url quote_e (omega arith, (omega arith, (omega arith, tt)))
