-- ===== src/Runtime/Array/Shape.antt =====
-- List-shaped arrays: the keys 0, 1, ... in this order.
use quill_template_engine.Prelude.{
  ℕ, zero, suc, ◌+◌, ◌<◌, ◌^◌, ◌≤◌, true, false, bytes_eq, List, [], ◌∷◌, ◌++◌, Bytes,
  bytes_beq_iff, length, ◌≡◌, refl, sym, ap, ◌∙◌, arith, mem, mem-append, map, append_assoc,
  append-nil, ◌↔◌,
}
use quill_template_engine.Prelude.Int.{pos}
use quill_template_engine.Strconv.{format_int}
use quill_template_engine.Runtime.Keys.{canon_int, fast_canon_int}
use quill_template_engine.Runtime.Keys.Canonical.{canon_int-eq-format_int}
use quill_template_engine.Runtime.Keys.Word.{fast_canon_int-canon_int}
use quill_template_engine.Runtime.Value.{Value, int, Pair}
use quill_template_engine.Runtime.Array.{
  Array, new_array, new_list, set_all_from, set, set_key, key_value, pairs, is_list, is_list_from,
  keys_of, len,
}
use quill_template_engine.Runtime.Array.Slots.{
  key_text, key_value-format_int, IsValid, key_text-key_value, set_key-IsValid, new_array-IsValid,
  parsed_print,
}
use quill_template_engine.Runtime.Array.Order.{pairs-set_key}

format_int_injective :
    (i j : ℕ) → i < 2 ^ 63 → j < 2 ^ 63 → format_int (pos i) ≡ format_int (pos j) → i ≡ j
format_int_injective i j hi hj e =
    let back = λ (n : ℕ) (h : n < 2 ^ 63).
      ap fast_canon_int (sym (canon_int-eq-format_int (pos n)))
      ∙ fast_canon_int-canon_int (pos n) h in
    cc (back i hi, back j hj)

module _ {F O : Type 0} where
  pub ints_from : ℕ → ℕ → List (Value F O)
  ints_from i zero = []
  ints_from i (suc n) = int (pos i) ∷ ints_from (suc i) n

  is_list_from-ints :
      (i : ℕ) (encs : List Bytes)
      → i + length encs ≤ 2 ^ 63
      → is_list_from i encs ≡ true
      → map (key_value {F = F} {O = O}) encs ≡ ints_from i (length encs)
  unfolding is_list_from ints_from
  is_list_from-ints i [] h e = refl
  is_list_from-ints i (enc ∷ encs) h e = ground (
    arith,
    is_list_from-ints (suc i) encs,
    key_value-format_int F O (pos i),
    canon_int-eq-format_int (pos i),
    bytes_beq_iff enc (canon_int (pos i)),
  )

  ints-is_list_from :
      (i : ℕ) (encs : List Bytes)
      → i + length encs ≤ 2 ^ 63
      → map (key_value {F = F} {O = O}) encs ≡ ints_from i (length encs)
      → is_list_from i encs ≡ true
  unfolding is_list_from ints_from key_text
  ints-is_list_from i [] h e = refl
  ints-is_list_from i (enc ∷ encs) h e = ground (
    arith,
    ints-is_list_from (suc i) encs,
    key_text-key_value F O enc,
    canon_int-eq-format_int (pos i),
    bytes_beq_iff enc (canon_int (pos i)),
    parsed_print F O (pos i),
  )

  -- An array of at most 2^63 entries is list-shaped exactly when its keys, as iteration shows
  -- them, are the integers from 0 up in this order.
  pub is_list_iff :
      (a : Array F O) → len a ≤ 2 ^ 63 → (is_list a ≡ true) ↔ (keys_of a ≡ ints_from 0 (len a))
  unfolding is_list len keys_of
  is_list_iff a h =
      (is_list_from-ints 0 a.keys (omega arith), ints-is_list_from 0 a.keys (omega arith))

  -- The entries of a list that begins with index `i`.
  pub number_from : ℕ → List (Value F O) → List (Pair F O)
  number_from i [] = []
  number_from i (v ∷ vs) = record { key = int (pos i); val = v } ∷ number_from (suc i) vs

  abbrev IsFreshFrom : ℕ → Array F O → Type 0
  IsFreshFrom i a = (j : ℕ) → i ≤ j → j < 2 ^ 63 → mem (format_int (pos j)) a.keys ≡ false

  set_int-IsFreshFrom :
      (i : ℕ) (v : Value F O) (a : Array F O)
      → i < 2 ^ 63
      → IsFreshFrom i a
      → IsFreshFrom (suc i) (set_key (int (pos i)) v a)
  unfolding set_key set mem
  set_int-IsFreshFrom i v a hi f j lo hj = ground (
    arith,
    f j,
    f i,
    canon_int-eq-format_int (pos i),
    mem-append (format_int (pos j)) a.keys (format_int (pos i) ∷ []),
    bytes_beq_iff (format_int (pos i)) (format_int (pos j)),
    format_int_injective i j,
  )

  -- A write at the next index appends one entry.
  pairs-set_next :
      (i : ℕ) (v : Value F O) (a : Array F O)
      → i < 2 ^ 63
      → IsValid a
      → IsFreshFrom i a
      → pairs (set_key (int (pos i)) v a) ≡ pairs a ++ record { key = int (pos i); val = v } ∷ []
  unfolding key_text
  pairs-set_next i v a hi h f =
      pairs-set_key (int (pos i)) v a h ∙ ground (arith, f i, key_value-format_int F O (pos i))

  pairs-set_all_from :
      (i : ℕ) (vs : List (Value F O)) (a : Array F O)
      → i + length vs ≤ 2 ^ 63
      → IsValid a
      → IsFreshFrom i a
      → pairs (set_all_from i vs a) ≡ pairs a ++ number_from i vs
  unfolding set_all_from number_from set_key
  pairs-set_all_from i [] a w h f = sym (append-nil (pairs a))
  pairs-set_all_from i (v ∷ vs) a w h f =
      let next = set_key (int (pos i)) v a in
      pairs-set_all_from (suc i) vs next (omega arith) (set_key-IsValid (int (pos i)) v a h)
        (set_int-IsFreshFrom i v a (omega arith) f)
      ∙ ap (λ ps. ps ++ number_from (suc i) vs) (pairs-set_next i v a (omega arith) h f)
      ∙ append_assoc (pairs a) _ (number_from (suc i) vs)

  -- The entries of `NewList` of at most 2^63 values are the values in order, numbered from 0.
  pub pairs-new_list :
      (vs : List (Value F O)) → length vs ≤ 2 ^ 63 → pairs (new_list vs) ≡ number_from 0 vs
  unfolding new_list
  pairs-new_list vs h =
      pairs-set_all_from 0 vs new_array (omega arith) new_array-IsValid
        (λ j lo hi. unfold new_array mem in refl)
      ∙ unfold pairs new_array in refl
