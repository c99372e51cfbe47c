-- ===== src/Runtime/Heap/Isolation.antt =====
-- `Own` of marked and of unmarked arrays.
use mathlib.Core.Bool.{false≢true}
use quill_template_engine.Prelude.{
  ℕ, true, false, some, [], ◌∷◌, Bytes, length, get_elem?, ◌≡◌, refl, ap, ◌∙◌, Bool-cases,
  Option-cases, inl, inr, bytes_eq, bytes_beq,
}
use quill_template_engine.Prelude.Assoc.{Assoc, lookup}
use quill_template_engine.Runtime.Value.{Value, arr}
use quill_template_engine.Runtime.Array.{Array}
use quill_template_engine.Runtime.Heap.{
  Heap, mark_shared, mark_element, mark_elements, clone_shallow_cow, own, own_array, is_shared_at,
}
use quill_template_engine.Runtime.Heap.Extends.{
  get_elem?-append_one, length-set_elem, get_elem?-set_elem_self, Extends, mark_elements-Extends,
  mark_element-Extends, append-Extends,
}

module _ {F O : Type 0} where
  length-mark_element : (v : Value F O) (h : Heap F O) → length (mark_element v h) ≡ length h
  unfolding mark_element
  length-mark_element (arr (some x)) h = elim (Option-cases (get_elem? h x)) [
    | inl e ↦ rw (e, mark_shared)
    | inr (c, e) ↦ rw (e, mark_shared) (length-set_elem h x (record c { shared = true }))
  ]
  length-mark_element v h = refl

  length-mark_elements :
      (vals : Assoc Bytes (Value F O)) (h : Heap F O) → length (mark_elements vals h) ≡ length h
  unfolding mark_elements
  length-mark_elements [] h = refl
  length-mark_elements ((k, v) ∷ vals) h =
      length-mark_elements vals (mark_element v h) ∙ length-mark_element v h

  -- `Own` of a marked array gives a new array, at an address that was free, with the same entries
  -- and no mark.
  pub own_shared :
      (x : ℕ) (a : Array F O) (h : Heap F O)
      → get_elem? h x ≡ some a
      → a.shared ≡ true
      → ((own (arr (some x)) h).0 ≡ arr (some (length h)))
        × ((own (arr (some x)) h).1 ≡ true)
        × (get_elem? (own (arr (some x)) h).2 (length h) ≡ some (record a { shared = false }))
  unfolding own own_array clone_shallow_cow
  own_shared x a h e s =
      rw (e, s)
        (
          ap (λ n. arr (some n)) (length-mark_elements a.vals h),
          refl,
          rw (← length-mark_elements a.vals h) (get_elem?-append_one (mark_elements a.vals h) _),
        )

  -- `Own` of an array with no mark gives the array itself.
  pub own_unshared :
      (x : ℕ) (a : Array F O) (h : Heap F O)
      → get_elem? h x ≡ some a
      → a.shared ≡ false
      → own (arr (some x)) h ≡ (arr (some x), false, h)
  unfolding own own_array
  own_unshared x a h e s = rw (e, s)

  mark_shared-is_shared :
      (x : ℕ) (c : Array F O) (h : Heap F O)
      → get_elem? h x ≡ some c
      → is_shared_at x (mark_shared x h) ≡ true
  unfolding mark_shared
  mark_shared-is_shared x c h e =
      rw (e, mark_shared)
        (rw (get_elem?-set_elem_self h x (record c { shared = true }) c e, is_shared_at))

  -- A mark stays while the heap extends.
  is_shared-Extends :
      (x : ℕ) (h h' : Heap F O) → Extends h h' → is_shared_at x h ≡ true → is_shared_at x h' ≡ true
  is_shared-Extends x h h' ext s = elim (Option-cases (get_elem? h x)) [
    | inl e ↦ absurd (false≢true (rw (e, is_shared_at) at s))
    | inr (c, e) ↦
        let (b, eb, keeps) = ext.kept x c e in
        rw (eb, is_shared_at) (keeps.shared (rw (e, is_shared_at) at s))
  ]

  mark_elements-is_shared :
      (vals : Assoc Bytes (Value F O)) (h : Heap F O) (enc : Bytes) (z : ℕ) (c : Array F O)
      → lookup enc vals ≡ some (arr (some z))
      → get_elem? h z ≡ some c
      → is_shared_at z (mark_elements vals h) ≡ true
  unfolding lookup mark_elements
  mark_elements-is_shared [] h enc z c l e = cc
  mark_elements-is_shared ((k, v) ∷ vals) h enc z c l e = elim (Bool-cases (bytes_beq k enc)) [
    | inl same ↦
        let found : some v ≡ some (arr (some z)) = rw same at l in
        let here : v ≡ arr (some z) = cc in
        is_shared-Extends z (mark_element v h) (mark_elements vals (mark_element v h))
          (mark_elements-Extends vals (mark_element v h))
          (rw here (unfold mark_element in mark_shared-is_shared z c h e))
    | inr other ↦
        let (b, eb, keeps) = (mark_element-Extends v h).kept z c e in
        mark_elements-is_shared vals (mark_element v h) enc z b (rw other at l) eb
  ]

  -- After `Own` of a marked array, every array that it holds is marked as shared.
  pub own-marks_elements :
      (x : ℕ) (a : Array F O) (h : Heap F O)
      → get_elem? h x ≡ some a
      → a.shared ≡ true
      → (enc : Bytes) (z : ℕ) (c : Array F O) → lookup enc a.vals ≡ some (arr (some z))
      → get_elem? h z ≡ some c
      → is_shared_at z (own (arr (some x)) h).2 ≡ true
  unfolding own own_array clone_shallow_cow
  own-marks_elements x a h e s enc z c l ez =
      rw (e, s)
        (is_shared-Extends z (mark_elements a.vals h) _ (append-Extends (mark_elements a.vals h) _)
          (mark_elements-is_shared a.vals h enc z c l ez))
