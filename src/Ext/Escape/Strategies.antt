-- ===== src/Ext/Escape/Strategies.antt =====
-- pkg/ext/escape.go: Escape, for the strategies that go over the runes of a text.
use quill_template_engine.Prelude.{ℕ, true, false, Bytes, bytes_beq, codes, length, arith}
use quill_template_engine.Ext.Escape.{
  write_js, write_css, write_html_attr, escape_js, escape_css, escape_html_attr, escape,
}
use quill_template_engine.Ext.Escape.Runes.{Runs, each_rune-Runs}

-- The names of the strategies, with what each writes for a rune.
pub data Writes : Bytes → (ℕ → Bytes) → Type 0 where
  js : Writes (codes "js") write_js
  css : Writes (codes "css") write_css
  html_attr : Writes (codes "html_attr") (write_html_attr false)
  html_attr_relaxed : Writes (codes "html_attr_relaxed") (write_html_attr true)

-- The js, css, html_attr and html_attr_relaxed strategies give, for every text, what they write for
-- each of its runes in order where the text is all UTF-8, and otherwise the error with their name
-- and the offset of the first byte that starts no rune.
pub escape-Runs :
    (strategy : Bytes) (write : ℕ → Bytes) (s : Bytes)
    → Writes strategy write
    → Runs strategy write 0 s (escape strategy s)
unfolding escape escape_js escape_css escape_html_attr bytes_beq
escape-Runs strategy write s js = each_rune-Runs strategy write (length s) 0 s (omega arith)
escape-Runs strategy write s css = each_rune-Runs strategy write (length s) 0 s (omega arith)
escape-Runs strategy write s html_attr = each_rune-Runs strategy write (length s) 0 s (omega arith)
escape-Runs strategy write s html_attr_relaxed =
    each_rune-Runs strategy write (length s) 0 s (omega arith)
