-- ===== src/Tests/Lexing.antt =====
-- The lexer.
use quill_template_engine.Prelude.{
  Option, true, List, [], ◌∷◌, ◌++◌, Bytes, codes, bytes_beq, mem, ◌≡◌, refl, map,
}
use quill_template_engine.Source.{Source}
use quill_template_engine.Lex.Token.{
  Token, Trim, eof, text, label, trim_none, block_open, block_close, verbatim,
}
use quill_template_engine.Lex.Cursor.{Cursor, Lexer, scanned, token, at, next_line, next_col}
use quill_template_engine.Lex.Advance.{from}
use quill_template_engine.Lex.Doors.{scan_statement, peek_statement}
use quill_template_engine.Lex.Scan.{scan, scan_text, start_lexer}
use quill_template_engine.Lex.Stream.{Stream}
use quill_template_engine.Lex.Code.{munch}
use quill_template_engine.Lex.Munch.{Row, table, as_operator, Longest, munch-Longest}
use quill_template_engine.Lex.Literal.{protect, scan-protect, scan_text-escaped_statement}
use quill_template_engine.Lex.Verbatim.{trimmed, scan_verbatim_braced}
use quill_template_engine.Lex.VerbatimLaws.{scan_verbatim_braced-body}

abbrev template : Source
template = record { name = codes "t"; code = codes "a {{- x + 1 }}\n@if y {\n b\n@} else {\n@}\n" }

abbrev kinds : Bytes → List Bytes
kinds s = map (λ t. label t.kind) (scan s)

kinds_of_interpolation :
    kinds (codes "a{{ x }}")
    ≡ codes "TEXT" ∷ codes "OPEN_INTERP" ∷ codes "NAME" ∷ codes "CLOSE_INTERP" ∷ codes "EOF" ∷ []
unfolding scan bytes_beq
kinds_of_interpolation = refl

kinds_of_fault :
    kinds (codes "{{ x $ }} y")
    ≡ codes "OPEN_INTERP" ∷ codes "NAME" ∷ codes "ERROR" ∷ codes "EOF" ∷ []
unfolding scan bytes_beq
kinds_of_fault = refl

scan-protect_example :
    (e : Token) × (scan (protect (codes "{{ x }}"))
      ≡ token text (codes "{{ x }}") (start_lexer []).cursor ∷ e ∷ [])
    × (e.kind ≡ eof)
scan-protect_example = scan-protect b'{' (codes "{ x }}") (unfold mem in refl)

-- The brace is lost.
scan_text-escaped_statement_example :
    scan_text (start_lexer (b'\\' ∷ b'{' ∷ b'@' ∷ codes "do x"))
    ≡ scanned (
        scan_statement
          (codes "do")
          (at (from (b'@' ∷ codes "do x") (next_line b'{' 1) (next_col b'{' 2)) (start_lexer [])))
scan_text-escaped_statement_example =
    scan_text-escaped_statement b'{' (codes "do") (codes "do x") refl
      (unfold peek_statement in unfold mem in unfold bytes_beq in refl) (unfold bytes_beq in refl)

scan_verbatim_braced-body_example :
    (l' : Lexer) × (t : Trim) × (p : Cursor) × (scan_verbatim_braced (record {
      cursor = from (b'{' ∷ b'\n' ∷ (codes "@if x" ++ b'@' ∷ b'}' ∷ codes "\n")) 1 11;
      out = [];
      at_line_start = true;
    })
      ≡ scanned l')
    × (l'.out
        ≡ (([] ++ trimmed block_open trim_none (from [] 1 11) ∷ [])
            ++ token verbatim (codes "@if x") (from [] 2 1) ∷ [])
          ++ trimmed block_close t p ∷ [])
scan_verbatim_braced-body_example =
    scan_verbatim_braced-body (codes "@if x") (codes "\n") 1 11 [] true (unfold mem in refl)
      (unfold mem in refl)

munch-Longest_example :
    (o : Option Row) × (munch b'<' (b'<' ∷ codes "=> 1") ≡ as_operator o)
    × Longest table (b'<' ∷ codes "=> 1") o
munch-Longest_example = munch-Longest b'<' (codes "=> 1")
