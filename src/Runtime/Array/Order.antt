-- ===== src/Runtime/Array/Order.antt =====
-- Iteration: the pairs in insertion order, and the list shape.
use mathlib.Core.List.{map-append}
use quill_template_engine.Prelude.{
  ℕ, zero, suc, false, bytes_eq, none, some, List, [], ◌∷◌, ◌++◌, Bytes, bytes_beq, bytes_beq_iff,
  if◌then◌else◌, get_elem?, ◌≡◌, refl, sym, ap, ◌∙◌, arith, mem, inl, inr, Bool-cases, map,
  append_assoc, append-nil,
}
use quill_template_engine.Prelude.Assoc.{lookup, lookup-insert}
use quill_template_engine.Runtime.Value.{Value, Pair}
use quill_template_engine.Runtime.Array.{
  Array, set, set_key, key_value, pair_of, pair_at, pairs, append_pairs,
}
use quill_template_engine.Runtime.Array.Slots.{key_text, set_key-set, IsValid, key_text-key_value}

module _ {F O : Type 0} where
  append_pairs-map :
      (a : Array F O) (encs : List Bytes) (out : List (Pair F O))
      → append_pairs a encs out ≡ out ++ map (pair_of a) encs
  unfolding append_pairs
  append_pairs-map a [] out = sym (append-nil out)
  append_pairs-map a (enc ∷ encs) out =
      append_pairs-map a encs (out ++ pair_of a enc ∷ [])
      ∙ append_assoc out (pair_of a enc ∷ []) (map (pair_of a) encs)

  pub pairs-map : (a : Array F O) → pairs a ≡ map (pair_of a) a.keys
  unfolding pairs
  pairs-map a = append_pairs-map a a.keys []

  get_elem?-map :
      (f : Bytes → Pair F O) (xs : List Bytes) (i : ℕ)
      → get_elem? (map f xs) i ≡ elim (get_elem? xs i) [ none ↦ none | some x ↦ some (f x) ]
  get_elem?-map f [] i = refl
  get_elem?-map f (x ∷ xs) zero = refl
  get_elem?-map f (x ∷ xs) (suc i) = get_elem?-map f xs i

  -- `PairAt(i)` is the entry at position `i` of `Pairs()`, and none past its end.
  pub pair_at-pairs : (a : Array F O) (i : ℕ) → pair_at a i ≡ get_elem? (pairs a) i
  unfolding pair_at
  pair_at-pairs a i = rw (pairs-map a) (sym (get_elem?-map (pair_of a) a.keys i))

  -- One entry with its value replaced where the key's text is `enc`.
  abbrev pub replace_val : Bytes → Value F O → Pair F O → Pair F O
  replace_val enc v p = record {
    key = p.key;
    val = if bytes_beq enc (key_text p.key) then v else p.val;
  }

  pair_of-set :
      (enc j : Bytes) (v : Value F O) (a : Array F O)
      → pair_of (set enc v a) j ≡ replace_val enc v (pair_of a j)
  unfolding set pair_of
  pair_of-set enc j v a = ground (arith, lookup-insert enc j v a.vals, key_text-key_value F O j)

  map-pair_of-set :
      (enc : Bytes) (v : Value F O) (a : Array F O) (js : List Bytes)
      → map (pair_of (set enc v a)) js ≡ map (replace_val enc v) (map (pair_of a) js)
  map-pair_of-set enc v a [] = refl
  map-pair_of-set enc v a (j ∷ js) = cc (pair_of-set enc j v a, map-pair_of-set enc v a js)

  map-replace_absent :
      (enc : Bytes) (v : Value F O) (a : Array F O) (js : List Bytes)
      → mem enc js ≡ false
      → map (replace_val enc v) (map (pair_of a) js) ≡ map (pair_of a) js
  unfolding mem pair_of
  map-replace_absent enc v a [] h = refl
  map-replace_absent enc v a (j ∷ js) h = ground (
    arith,
    map-replace_absent enc v a js,
    key_text-key_value F O j,
    bytes_beq_iff enc j,
    bytes_beq_iff j enc,
  )

  keys_set :
      (enc : Bytes) (v : Value F O) (a : Array F O)
      → IsValid a
      → (set enc v a).keys ≡ (if mem enc a.keys then a.keys else a.keys ++ enc ∷ [])
  unfolding set
  keys_set enc v a h = ground (arith, h.stored enc)

  pair_of-set_self :
      (enc : Bytes) (v : Value F O) (a : Array F O)
      → pair_of (set enc v a) enc ≡ record { key = key_value enc; val = v }
  unfolding set pair_of
  pair_of-set_self enc v a = ground (arith, lookup-insert enc enc v a.vals, bytes_beq_iff enc enc)

  pairs-set :
      (enc : Bytes) (v : Value F O) (a : Array F O)
      → IsValid a
      → map (pair_of (set enc v a)) (set enc v a).keys ≡ (
          if mem enc a.keys
          then map (replace_val enc v) (map (pair_of a) a.keys)
          else map (pair_of a) a.keys ++ record { key = key_value enc; val = v } ∷ [])
  unfolding set lookup pair_of
  pairs-set enc v a h = elim (Bool-cases (mem enc a.keys)) [
    | inl old ↦ rw (keys_set enc v a h, old) (map-pair_of-set enc v a a.keys)
    | inr new ↦
        rw (keys_set enc v a h, new)
          (rw (map-append, map-pair_of-set enc v a a.keys, map-replace_absent enc v a a.keys new)
            (ap (λ p. map (pair_of a) a.keys ++ p ∷ []) (pair_of-set_self enc v a)))
  ]

  -- The entries of a valid array after a write: where the key's text is among the keys, the entry
  -- with that key keeps its place and takes the value; where it is not, a new entry comes last.
  pub pairs-set_key :
      (k v : Value F O) (a : Array F O)
      → IsValid a
      → pairs (set_key k v a) ≡ (
          if mem (key_text k) a.keys
          then map (replace_val (key_text k) v) (pairs a)
          else pairs a ++ record { key = key_value (key_text k); val = v } ∷ [])
  pairs-set_key k v a h =
      rw (set_key-set k v a, pairs-map (set (key_text k) v a), pairs-map a)
        (pairs-set (key_text k) v a h)
