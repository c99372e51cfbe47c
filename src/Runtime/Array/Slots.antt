-- ===== src/Runtime/Array/Slots.antt =====
-- Which subscripts share a slot, and what reads and writes of slots do.
use quill_template_engine.Prelude.{
  true, bytes_eq, Option, none, some, [], ◌∷◌, Bytes, bytes_beq, bytes_beq_iff, if◌then◌else◌,
  is_some, ◌≡◌, refl, sym, ap, ◌∙◌, arith, Option-cases, mem, mem-append, distinct,
  distinct-append_one, inl, inr,
}
use quill_template_engine.Prelude.Assoc.{lookup, lookup-insert}
use quill_template_engine.Prelude.Int.{ℤ, IsInt64}
use quill_template_engine.Strconv.{format_int}
use quill_template_engine.Runtime.Keys.{
  canonicalize_string_key, parse_canonical_int, is_canonical_int_key, fast_canon_int,
}
use quill_template_engine.Runtime.Keys.Canonical.{canon_int-eq-format_int, parse_canonical_int_iff}
use quill_template_engine.Runtime.Keys.Bound.{is_canonical_int_key-parse}
use quill_template_engine.Runtime.Keys.Word.{fast_canon_int-canon_int}
use quill_template_engine.Runtime.Value.{Value, int, as_str}
use quill_template_engine.Runtime.Array.{Array, new_array, set, set_key, get, key_value}

-- The text of a subscript: the decimal print of an Int, the bytes of a Str.
unfoldable pub key_text : {F O : Type 0} → Value F O → Bytes
key_text (int i) = format_int i
key_text k = as_str k

-- A string subscript is encoded as itself.
pub canonicalize_string_key_self : (s : Bytes) → (canonicalize_string_key s).0 ≡ s
unfolding canonicalize_string_key
canonicalize_string_key_self s = elim (Option-cases (parse_canonical_int s)) [
  | inl e ↦ rw e
  | inr (i, e) ↦ rw e (canon_int-eq-format_int i ∙ sym ((parse_canonical_int_iff s i).0 e).0)
]

module _ {F O : Type 0} where
  pub get-lookup : (k : Value F O) (a : Array F O) → get k a ≡ lookup (key_text k) a.vals
  unfolding get key_text
  get-lookup (int i) a = rw canon_int-eq-format_int
  get-lookup k a = ap (λ t. lookup t a.vals) (canonicalize_string_key_self (as_str k))

  pub set_key-set : (k v : Value F O) (a : Array F O) → set_key k v a ≡ set (key_text k) v a
  unfolding set_key key_text
  set_key-set (int i) v a = rw canon_int-eq-format_int
  set_key-set k v a = ap (λ t. set t v a) (canonicalize_string_key_self (as_str k))

  -- A read after a write gives the written value where the two subscripts have the same text (the
  -- decimal print of an integer, the bytes of a string), and what was there before elsewhere.
  pub get-set_key :
      (k j v : Value F O) (a : Array F O)
      → get j (set_key k v a) ≡ (if bytes_beq (key_text k) (key_text j) then some v else get j a)
  get-set_key k j v a =
      rw (get-lookup j (set_key k v a), get-lookup j a, set_key-set k v a)
        (unfold set in lookup-insert (key_text k) (key_text j) v a.vals)

parsed_key : (enc : Bytes) (i : ℤ) → parse_canonical_int enc ≡ some i → fast_canon_int enc ≡ i
parsed_key enc i e =
    let (print, fits) = (parse_canonical_int_iff enc i).0 e in
    ap fast_canon_int (print ∙ sym (canon_int-eq-format_int i)) ∙ fast_canon_int-canon_int i fits

module _ (F O : Type 0) where
  key_value_text :
      (enc : Bytes) (o : Option ℤ)
      → parse_canonical_int enc ≡ o
      → key_text (key_value {F = F} {O = O} enc) ≡ enc
  unfolding key_value key_text as_str
  key_value_text enc none e = rw (is_canonical_int_key-parse enc, e)
  key_value_text enc (some i) e =
      rw (is_canonical_int_key-parse enc, e)
        (rw (parsed_key enc i e) (sym ((parse_canonical_int_iff enc i).0 e).0))

  -- The key that iteration shows for a stored encoding has that encoding as its text.
  pub key_text-key_value : (enc : Bytes) → key_text (key_value {F = F} {O = O} enc) ≡ enc
  key_text-key_value enc = key_value_text enc (parse_canonical_int enc) refl

  pub parsed_print : (i : ℤ) → IsInt64 i → is_canonical_int_key (format_int i) ≡ true
  parsed_print i h =
      is_canonical_int_key-parse (format_int i)
      ∙ ap is_some ((parse_canonical_int_iff (format_int i) i).1 (refl, h))

  -- An int64 key comes back as the integer, whether it was written as Int or as its print.
  pub key_value-format_int :
      (i : ℤ) → IsInt64 i → ◌≡◌ {A = Value F O} (key_value (format_int i)) (int i)
  unfolding key_value
  key_value-format_int i h = rw (parsed_print i h) (
      ap int (parsed_key (format_int i) i ((parse_canonical_int_iff (format_int i) i).1 (refl, h))))

-- The keys are distinct, and are those of the map.
pub record IsValid {F O : Type 0} (a : Array F O) : Type 0 where
  pub no_dups : distinct a.keys ≡ true
  pub stored : (enc : Bytes) → mem enc a.keys ≡ is_some (lookup enc a.vals)

module _ {F O : Type 0} where
  pub new_array-IsValid : IsValid (new_array {F = F} {O = O})
  unfolding new_array distinct mem lookup
  new_array-IsValid = record { no_dups = refl; stored = λ enc. refl }

  pub set-IsValid :
      (enc : Bytes) (v : Value F O) (a : Array F O) → IsValid a → IsValid (set enc v a)
  unfolding set mem
  set-IsValid enc v a h = record {
    no_dups = ground (arith, h.no_dups, h.stored enc, distinct-append_one a.keys enc);
    stored = λ j. ground (
      arith,
      h.stored enc,
      h.stored j,
      lookup-insert enc j v a.vals,
      mem-append j a.keys (enc ∷ []),
      bytes_beq_iff enc j,
    );
  }

  -- A write keeps an array valid: its keys distinct, and just those that the map has.
  pub set_key-IsValid : (k v : Value F O) (a : Array F O) → IsValid a → IsValid (set_key k v a)
  set_key-IsValid k v a h = rw (set_key-set k v a) (set-IsValid (key_text k) v a h)
