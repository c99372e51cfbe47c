-- ===== src/Ext/Escape/Markup.antt =====
-- pkg/ext/escape.go: EscapeHTML, and a reader of the entities that it writes.
use quill_template_engine.Prelude.{
  ℕ, Bool, true, false, ◌||◌, Option, none, some, [], ◌∷◌, ◌++◌, Bytes, bytes_beq, codes, ◌==◌,
  ==_iff, if◌then◌else◌, nat_eq, mem, mem-append, ◌≡◌, refl, arith, ap, ◌∙◌, Bool-cases, inl, inr,
}
use quill_template_engine.Ext.Escape.{html_bytes, escape_html}

abbrev pub in_front : ℕ → Option Bytes → Option Bytes
in_front c none = none
in_front c (some s) = some (c ∷ s)

-- The byte that an entity names.
abbrev named : Bytes → Option ℕ
named n =
    if bytes_beq n (codes "amp")
    then some b'&'
    else if bytes_beq n (codes "lt")
    then some b'<'
    else if bytes_beq n (codes "gt")
    then some b'>'
    else if bytes_beq n (codes "quot")
    then some b'"'
    else if bytes_beq n (codes "#39")
    then some b'\''
    else none

abbrev in_front_of : Option ℕ → Option Bytes → Option Bytes
in_front_of none s = none
in_front_of (some c) s = in_front c s

-- What a browser reads in a text; the first argument is the name of an entity that is not closed.
unfoldable pub read_html : Option Bytes → Bytes → Option Bytes
unfolding bytes_beq
read_html none [] = some []
read_html (some name) [] = none
read_html none (c ∷ s) =
    let entity = read_html (some []) s in
    let rest = read_html none s in if c == b'&' then entity else in_front c rest
read_html (some name) (c ∷ s) =
    let rest = read_html none s in
    let more = read_html (some (name ++ c ∷ [])) s in
    if c == b';' then in_front_of (named name) rest else more

read_html-html_bytes :
    (c : ℕ) (s : Bytes) → read_html none (html_bytes c ++ s) ≡ in_front c (read_html none s)
unfolding read_html html_bytes
read_html-html_bytes c s = elim (Bool-cases (c == b'&')) [
  | inl e ↦ rw ((==_iff c b'&').0 e) refl
  | inr n1 ↦ elim (Bool-cases (c == b'<')) [
    | inl e ↦ rw ((==_iff c b'<').0 e) refl
    | inr n2 ↦ elim (Bool-cases (c == b'>')) [
      | inl e ↦ rw ((==_iff c b'>').0 e) refl
      | inr n3 ↦ elim (Bool-cases (c == b'"')) [
        | inl e ↦ rw ((==_iff c b'"').0 e) refl
        | inr n4 ↦ elim (Bool-cases (c == b'\'')) [
          | inl e ↦ rw ((==_iff c b'\'').0 e) refl
          | inr n5 ↦ rw (n1, n2, n3, n4, n5) (rw n1 refl)
        ]
      ]
    ]
  ]
]

read_html-escape_html : (s : Bytes) → read_html none (escape_html s) ≡ some s
unfolding escape_html
read_html-escape_html [] = unfold read_html in refl
read_html-escape_html (c ∷ s) =
    read_html-html_bytes c (escape_html s) ∙ ap (in_front c) (read_html-escape_html s)

-- The bytes that can open a tag or close an attribute.
abbrev pub is_markup : ℕ → Bool
is_markup m = m == b'<' || (m == b'>' || (m == b'"' || m == b'\''))

mem-html_bytes : (m c : ℕ) → is_markup m ≡ true → mem m (html_bytes c) ≡ false
unfolding html_bytes mem
mem-html_bytes m c h = elim (Bool-cases (c == b'&')) [
  | inl e ↦ rw e (ground arith)
  | inr n1 ↦ elim (Bool-cases (c == b'<')) [
    | inl e ↦ rw (n1, e) (ground arith)
    | inr n2 ↦ elim (Bool-cases (c == b'>')) [
      | inl e ↦ rw (n1, n2, e) (ground arith)
      | inr n3 ↦ elim (Bool-cases (c == b'"')) [
        | inl e ↦ rw (n1, n2, n3, e) (ground arith)
        | inr n4 ↦ elim (Bool-cases (c == b'\'')) [
          | inl e ↦ rw (n1, n2, n3, n4, e) (ground arith)
          | inr n5 ↦ rw (n1, n2, n3, n4, n5) (ground arith)
        ]
      ]
    ]
  ]
]

mem-escape_html : (m : ℕ) (s : Bytes) → is_markup m ≡ true → mem m (escape_html s) ≡ false
unfolding escape_html
mem-escape_html m [] h = unfold mem in refl
mem-escape_html m (c ∷ s) h =
    mem-append m (html_bytes c) (escape_html s)
    ∙ rw (mem-html_bytes m c h, mem-escape_html m s h) refl

-- The html escape of every text reads back, by its entities, as the text, and has no `<`, `>`, or
-- quote in it.
pub escape_html-safe :
    (s : Bytes)
    → (read_html none (escape_html s) ≡ some s)
      × ((m : ℕ) → is_markup m ≡ true → mem m (escape_html s) ≡ false)
escape_html-safe s = (read_html-escape_html s, λ m. mem-escape_html m s)
