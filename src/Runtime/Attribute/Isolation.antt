-- ===== src/Runtime/Attribute/Isolation.antt =====
-- A write through what `Own` returns.
use quill_template_engine.Prelude.{
  ℕ, ◌≤◌, true, false, some, bytes_beq_iff, length, get_elem?, set as set_elem, ◌≡◌, refl, ◌∙◌,
  arith,
}
use quill_template_engine.Errors.{ok}
use quill_template_engine.Runtime.Value.{Value, arr}
use quill_template_engine.Runtime.Array.{Array, set_key}
use quill_template_engine.Runtime.Array.Slots.{get-set_key, key_text}
use quill_template_engine.Runtime.Heap.{Heap, own}
use quill_template_engine.Runtime.Heap.Extends.{
  Extends, own-Extends, get_elem?-set_elem_self, get_elem?-set_elem_ne, get_elem?-lt,
  length-set_elem,
}
use quill_template_engine.Runtime.Heap.Isolation.{own_shared}
use quill_template_engine.Runtime.Host.{Host}
use quill_template_engine.Runtime.Attribute.{
  get_index, set_index, is_key, get_index_of, set_index_of,
}

module _ {F O : Type 0} (host : Host F O) where
  -- A write to the cell at an address that the old heap does not have leaves the old arrays alone.
  set_fresh-Extends :
      (h k : Heap F O) (y : ℕ) (a : Array F O)
      → Extends h k
      → length h ≤ y
      → Extends h (set_elem k y a)
  set_fresh-Extends h k y a ext fresh = record {
    longer = omega (arith, ext.longer, length-set_elem k y a);
    kept = λ x c e.
        let (b, eb, keeps) = ext.kept x c e in
        let old = get_elem?-lt h x c e in
        (b, get_elem?-set_elem_ne k y x a (omega arith) ∙ eb, keeps);
  }

  pub set_index-cell :
      (y : ℕ) (a : Array F O) (key v : Value F O) (h : Heap F O)
      → is_key key ≡ true
      → get_elem? h y ≡ some a
      → set_index host (arr (some y)) key v h ≡ ok (set_elem h y (set_key key v a))
  unfolding set_index
  set_index-cell y a key v h k e = rw (k, e, set_index_of)

  pub get_index-cell :
      (y : ℕ) (a : Array F O) (key v : Value F O) (h : Heap F O)
      → is_key key ≡ true
      → get_elem? h y ≡ some (set_key key v a)
      → get_index host (arr (some y)) key false h ≡ ok v
  unfolding get_index
  get_index-cell y a key v h k e =
      rw (k, e, get_index_of)
        (rw (get-set_key key key v a, (bytes_beq_iff (key_text key) (key_text key)).1 refl))

  -- For a marked array on the heap and an integer or string key: assigning the subscript through
  -- what `Own` returns succeeds, reading it back there gives the assigned value, and every array
  -- of the heap before the assignment keeps its keys and its values.
  pub own-set_index :
      (x : ℕ) (a : Array F O) (key v : Value F O) (h : Heap F O)
      → get_elem? h x ≡ some a
      → a.shared ≡ true
      → is_key key ≡ true
      → (h' : Heap F O) × (set_index host (own (arr (some x)) h).0 key v (own (arr (some x)) h).2
          ≡ ok h')
        × (get_index host (own (arr (some x)) h).0 key false h' ≡ ok v)
        × Extends h h'
  own-set_index x a key v h e s k =
      let (address, _, cell) = own_shared x a h e s in
      let k1 = (own (arr (some x)) h).2 in
      let fresh : Array F O = record a { shared = false } in
      (
        set_elem k1 (length h) (set_key key v fresh),
        rw address (set_index-cell (length h) fresh key v k1 k cell),
        rw address (
            get_index-cell (length h) fresh key v _ k
              (get_elem?-set_elem_self k1 (length h) (set_key key v fresh) fresh cell)),
        set_fresh-Extends h k1 (length h) (set_key key v fresh) (own-Extends (arr (some x)) h)
            (omega arith),
      )
