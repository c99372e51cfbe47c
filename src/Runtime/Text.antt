-- ===== src/Runtime/Text.antt =====
-- The one implicit coercion, `ToText` of pkg/runtime/stringify.go, and substring search of compare.go.
pub mod Contains
use quill_template_engine.Prelude.{
  ℕ, zero, suc, ◌+◌, ◌-◌, Bool, true, false, Option, none, some, List, [], ◌∷◌, Bytes, codes,
  bytes_beq, ltb, ◌==◌, if◌then◌else◌, length, take, drop,
}
use quill_template_engine.Errors.{ErrorKind, kind_render, Result, ok, err}
use quill_template_engine.Strconv.{format_int}
use quill_template_engine.Runtime.Value.{Value, null, bool, int, float, str, arr, obj, safe}
use quill_template_engine.Runtime.Host.{Host}

module _ {F O : Type 0} (host : Host F O) where
  unfoldable pub to_text : Value F O → Result Bytes
  to_text null = ok []
  to_text (bool b) = ok (if b then codes "true" else codes "false")
  to_text (int i) = ok (format_int i)
  to_text (float f) = host.format_float f
  to_text (str s) = ok s
  to_text (safe s) = ok s
  to_text (arr a) = err kind_render
  to_text (obj o) = elim (host.stringifier o) [ none ↦ err kind_render | some r ↦ r ]

-- s[i : i+len(sub)] == sub
abbrev pub matches_at : Bytes → Bytes → ℕ → Bool
matches_at s sub i = bytes_beq (take (length sub) (drop i s)) sub

-- The loop over i, with the rounds that are left.
unfoldable pub contains_from : ℕ → ℕ → Bytes → Bytes → Bool
contains_from zero i s sub = false
contains_from (suc rounds) i s sub =
    let rest = contains_from rounds (suc i) s sub in if matches_at s sub i then true else rest

unfoldable pub contains_string : Bytes → Bytes → Bool
unfolding contains_from
contains_string s sub =
    if length sub == 0
    then true
    else if ltb (length s) (length sub)
    then false
    else contains_from (length s - length sub + 1) 0 s sub
