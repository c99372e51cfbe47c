-- ===== src/Interp/Assign/Marks.antt =====
-- Assignment and the arrays that are marked as shared.
use mathlib.Core.Bool.{false≢true}
use mathlib.Core.Option.{some-injective}
use quill_template_engine.Prelude.{
  ℕ, true, false, Option, none, some, Bytes, length, get_elem?, set as set_elem, ◌≡◌, refl, ap, ◌∙◌,
  sym, arith, Bool-cases, Option-cases, inl, inr, is_some, ◌⊎◌,
}
use quill_template_engine.Errors.{ErrorKind, Result, ok, err}
use quill_template_engine.Runtime.Value.{Value, arr, null, obj}
use quill_template_engine.Runtime.Array.{Array, set_key, set_str}
use quill_template_engine.Runtime.Heap.{Heap, own, own_array}
use quill_template_engine.Runtime.Heap.Extends.{
  Extends, Keeps, Keeps-refl, Keeps-trans, get_elem?-lt, get_elem?-set_elem_ne,
}
use quill_template_engine.Runtime.Heap.Isolation.{own_shared, own_unshared}
use quill_template_engine.Runtime.Host.{Host}
use quill_template_engine.Runtime.Attribute.{set_member, set_index, set_index_of, answered, is_key}

module _ {F O : Type 0} where
  -- Every array that `h` marks keeps its keys, its values and its mark.
  pub record KeepsMarked (h k : Heap F O) : Type 0 where
    pub kept :
        (x : ℕ) (a : Array F O)
        → get_elem? h x ≡ some a
        → a.shared ≡ true
        → (b : Array F O) × (get_elem? k x ≡ some b) × Keeps a b

  -- An array in hand is not one that `h` marks.
  abbrev pub IsOwned : Value F O → Heap F O → Type 0
  IsOwned (arr (some x)) h = (a : Array F O) → get_elem? h x ≡ some a → a.shared ≡ false
  IsOwned v h = Unit

  pub KeepsMarked-refl : (h : Heap F O) → KeepsMarked h h
  KeepsMarked-refl h = record { kept = λ x a e s. (a, e, Keeps-refl a) }

  pub Extends-KeepsMarked : {h k l : Heap F O} → KeepsMarked h k → Extends k l → KeepsMarked h l
  Extends-KeepsMarked p e = record {
    kept = λ x a at s.
        let (b, eb, ab) = p.kept x a at s in
        let (c, ec, bc) = e.kept x b eb in (c, ec, Keeps-trans ab bc);
  }

  -- An address whose array in `k` is unmarked, or that `k` lacks, is not one that `h` marks.
  unmarked-IsOwned :
      (h k : Heap F O) (x : ℕ)
      → KeepsMarked h k
      → ((b : Array F O) → get_elem? k x ≡ some b → b.shared ≡ false)
      → IsOwned (arr (some x)) h
  unmarked-IsOwned h k x m u = λ a e. elim (Bool-cases a.shared) [
    | inr s ↦ s
    | inl s ↦ let (b, eb, ab) = m.kept x a e s in absurd (false≢true (sym (u b eb) ∙ ab.shared s))
  ]

  -- Own gives the value itself, or a new one on a longer heap; it is owned in either case.
  abbrev pub OwnResult : Heap F O → Value F O → Heap F O → Type 0
  OwnResult h v k =
      ((own v k ≡ (v, false, k)) × IsOwned v h)
      ⊎ ((w : Value F O) × (l : Heap F O) × (own v k ≡ (w, true, l)) × IsOwned w h)

  missing-OwnResult :
      (h k : Heap F O) (x : ℕ)
      → KeepsMarked h k
      → get_elem? k x ≡ none
      → OwnResult h (arr (some x)) k
  unfolding own own_array
  missing-OwnResult h k x m e =
      inl (rw e, unmarked-IsOwned h k x m (λ b f. absurd (false≢true (ap is_some (sym e ∙ f)))))

  shared-OwnResult :
      (h k : Heap F O) (x : ℕ) (a : Array F O)
      → KeepsMarked h k
      → get_elem? k x ≡ some a
      → a.shared ≡ true
      → OwnResult h (arr (some x)) k
  shared-OwnResult h k x a m e s =
      let (address, copied, cell) = own_shared x a k e s in
      let l = (own (arr (some x)) k).2 in
      inr (
        arr (some (length k)),
        l,
        cc (address, copied),
        unmarked-IsOwned h k (length k) m
            (λ b f. absurd (omega (arith, get_elem?-lt k (length k) b f))),
      )

  pub own-OwnResult :
      (h : Heap F O) (v : Value F O) (k : Heap F O) → KeepsMarked h k → OwnResult h v k
  own-OwnResult h (arr (some x)) k m = elim (Option-cases (get_elem? k x)) [
    | inl e ↦ missing-OwnResult h k x m e
    | inr (a, e) ↦ elim (Bool-cases a.shared) [
      | inl s ↦ shared-OwnResult h k x a m e s
      | inr s ↦ inl (
        own_unshared x a k e s,
        unmarked-IsOwned h k x m (λ b f. ap (λ c. c.shared) (some-injective _ _ (sym f ∙ e)) ∙ s),
      )
    ]
  ]
  own-OwnResult h v k m = unfold own in inl (refl, tt)

  -- A write to an owned cell.
  set_elem-KeepsMarked :
      (h k : Heap F O) (x : ℕ) (b : Array F O)
      → KeepsMarked h k
      → IsOwned (arr (some x)) h
      → KeepsMarked h (set_elem k x b)
  set_elem-KeepsMarked h k x b m o = record {
    kept = λ y a e s.
        let (c, ec, ac) = m.kept y a e s in
        let apart = λ (p : x ≡ y). false≢true (sym (o a (ap (get_elem? h) p ∙ e)) ∙ s) in
        (c, get_elem?-set_elem_ne k x y b apart ∙ ec, ac);
  }

  abbrev pub SafeHeap : Heap F O → Result (Heap F O) → Type 0
  SafeHeap h (ok k) = KeepsMarked h k
  SafeHeap h (err e) = Unit

module _ {F O : Type 0} (host : Host F O) where
  answered-SafeHeap :
      (h : Heap F O) (o : Option ErrorKind) (k : Heap F O)
      → KeepsMarked h k
      → SafeHeap h (answered host o k)
  answered-SafeHeap h none k m = m
  answered-SafeHeap h (some e) k m = tt

  index_of-SafeHeap :
      (h : Heap F O) (recv key v : Value F O) (k : Heap F O)
      → KeepsMarked h k
      → IsOwned recv h
      → SafeHeap h (set_index_of host recv key v k)
  unfolding set_index_of
  index_of-SafeHeap h (arr (some x)) key v k m o = elim (Option-cases (get_elem? k x)) [
    | inl e ↦ rw (e, SafeHeap) tt
    | inr (a, e) ↦ rw (e, SafeHeap) (set_elem-KeepsMarked h k x (set_key key v a) m o)
  ]
  index_of-SafeHeap h (obj p) key v k m o = elim (Option-cases (host.index_setter p)) [
    | inl e ↦ rw (e, SafeHeap) tt
    | inr (s, e) ↦ rw (e, SafeHeap) (answered-SafeHeap h (s key v) k m)
  ]
  index_of-SafeHeap h (arr none) key v k m o = tt
  index_of-SafeHeap h null key v k m o = tt
  index_of-SafeHeap h _ key v k m o = tt

  pub index-SafeHeap :
      (h : Heap F O) (recv key v : Value F O) (k : Heap F O)
      → KeepsMarked h k
      → IsOwned recv h
      → SafeHeap h (set_index host recv key v k)
  unfolding set_index
  index-SafeHeap h recv key v k m o = elim (Bool-cases (is_key key)) [
    | inl e ↦ rw e (index_of-SafeHeap h recv key v k m o)
    | inr e ↦ rw e tt
  ]

  pub member-SafeHeap :
      (h : Heap F O) (recv : Value F O) (n : Bytes) (v : Value F O) (k : Heap F O)
      → KeepsMarked h k
      → IsOwned recv h
      → SafeHeap h (set_member host recv n v k)
  unfolding set_member
  member-SafeHeap h (arr (some x)) n v k m o = elim (Option-cases (get_elem? k x)) [
    | inl e ↦ rw (e, SafeHeap) tt
    | inr (a, e) ↦ rw (e, SafeHeap) (set_elem-KeepsMarked h k x (set_str n v a) m o)
  ]
  member-SafeHeap h (obj p) n v k m o = elim (Option-cases (host.field_setter p)) [
    | inl e ↦ rw (e, SafeHeap) tt
    | inr (s, e) ↦ rw (e, SafeHeap) (answered-SafeHeap h (s n v) k m)
  ]
  member-SafeHeap h (arr none) n v k m o = tt
  member-SafeHeap h null n v k m o = tt
  member-SafeHeap h _ n v k m o = tt
