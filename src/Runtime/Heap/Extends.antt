-- ===== src/Runtime/Heap/Extends.antt =====
-- Heaps before and after the copy-on-write operations.
use quill_template_engine.Prelude.{
  ℕ, zero, suc, ◌<◌, ◌≤◌, true, Option, none, some, List, [], ◌∷◌, ◌++◌, Bytes, length, get_elem?,
  set as set_elem, ◌≡◌, ◌≢◌, refl, ap, ◌∙◌, arith, length-append, Bool-cases, Option-cases, inl,
  inr, ◌==◌, ==_iff,
}
use quill_template_engine.Prelude.Assoc.{Assoc}
use quill_template_engine.Runtime.Value.{Value, arr}
use quill_template_engine.Runtime.Array.{Array}
use quill_template_engine.Runtime.Heap.{
  Heap, mark_shared, share_value, mark_element, mark_elements, clone_shallow_cow, own, own_array,
  is_shared_at,
}

module _ {ℓ} {A : Type ℓ} where
  pub length-set_elem : (h : List A) (x : ℕ) (a : A) → length (set_elem h x a) ≡ length h
  length-set_elem [] x a = refl
  length-set_elem (b ∷ h) zero a = refl
  length-set_elem (b ∷ h) (suc x) a = ap suc (length-set_elem h x a)

  pub get_elem?-set_elem_self :
      (h : List A) (x : ℕ) (a b : A)
      → get_elem? h x ≡ some b
      → get_elem? (set_elem h x a) x ≡ some a
  get_elem?-set_elem_self [] x a b e = cc
  get_elem?-set_elem_self (c ∷ h) zero a b e = refl
  get_elem?-set_elem_self (c ∷ h) (suc x) a b e = get_elem?-set_elem_self h x a b e

  pub get_elem?-set_elem_ne :
      (h : List A) (x y : ℕ) (a : A) → x ≢ y → get_elem? (set_elem h x a) y ≡ get_elem? h y
  get_elem?-set_elem_ne [] x y a ne = refl
  get_elem?-set_elem_ne (c ∷ h) zero zero a ne = absurd (ne refl)
  get_elem?-set_elem_ne (c ∷ h) zero (suc y) a ne = refl
  get_elem?-set_elem_ne (c ∷ h) (suc x) zero a ne = refl
  get_elem?-set_elem_ne (c ∷ h) (suc x) (suc y) a ne =
      get_elem?-set_elem_ne h x y a (λ e. ne (ap suc e))

  pub get_elem?-append :
      (h t : List A) (x : ℕ) (a : A) → get_elem? h x ≡ some a → get_elem? (h ++ t) x ≡ some a
  get_elem?-append [] t x a e = cc
  get_elem?-append (c ∷ h) t zero a e = e
  get_elem?-append (c ∷ h) t (suc x) a e = get_elem?-append h t x a e

  pub get_elem?-append_one : (h : List A) (a : A) → get_elem? (h ++ a ∷ []) (length h) ≡ some a
  get_elem?-append_one [] a = refl
  get_elem?-append_one (c ∷ h) a = get_elem?-append_one h a

  pub get_elem?-lt : (h : List A) (x : ℕ) (a : A) → get_elem? h x ≡ some a → x < length h
  get_elem?-lt [] x a e = cc
  get_elem?-lt (c ∷ h) zero a e = omega arith
  get_elem?-lt (c ∷ h) (suc x) a e = omega (arith, get_elem?-lt h x a e)

module _ {F O : Type 0} where
  -- The array `b` has the entries of `a`, and its mark if `a` has one.
  pub record Keeps (a b : Array F O) : Type 0 where
    pub keys : b.keys ≡ a.keys
    pub vals : b.vals ≡ a.vals
    pub shared : a.shared ≡ true → b.shared ≡ true

  pub Keeps-refl : (a : Array F O) → Keeps a a
  Keeps-refl a = record { keys = refl; vals = refl; shared = λ s. s }

  pub Keeps-trans : {a b c : Array F O} → Keeps a b → Keeps b c → Keeps a c
  Keeps-trans p q = record {
    keys = q.keys ∙ p.keys;
    vals = q.vals ∙ p.vals;
    shared = λ s. q.shared (p.shared s);
  }

  -- Every array of `h` is in `h'` at its address, with its entries.
  pub record Extends (h h' : Heap F O) : Type 0 where
    pub longer : length h ≤ length h'
    pub kept :
        (x : ℕ) (a : Array F O)
        → get_elem? h x ≡ some a
        → (b : Array F O) × (get_elem? h' x ≡ some b) × Keeps a b

  pub Extends-refl : (h : Heap F O) → Extends h h
  Extends-refl h = record { longer = omega arith; kept = λ x a e. (a, e, Keeps-refl a) }

  pub Extends-trans : {h k l : Heap F O} → Extends h k → Extends k l → Extends h l
  Extends-trans p q = record {
    longer = omega (arith, p.longer, q.longer);
    kept = λ x a e.
        let (b, eb, ab) = p.kept x a e in
        let (c, ec, bc) = q.kept x b eb in (c, ec, Keeps-trans ab bc);
  }

  mark-kept :
      (h : Heap F O) (x : ℕ) (c : Array F O)
      → get_elem? h x ≡ some c
      → (y : ℕ) (a : Array F O) → get_elem? h y ≡ some a
      → (b : Array F O) × (get_elem? (set_elem h x (record c { shared = true })) y ≡ some b)
        × Keeps a b
  mark-kept h x c ec y a ea = elim (Bool-cases (x == y)) [
    | inl same ↦
        let e : x ≡ y = (==_iff x y).0 same in
        let ac : c ≡ a = cc in
        (
          record c { shared = true },
          rw (← e) (get_elem?-set_elem_self h x (record c { shared = true }) c ec),
          record { keys = ap (λ r. r.keys) ac; vals = ap (λ r. r.vals) ac; shared = λ _. refl },
        )
    | inr other ↦ (
      a,
      get_elem?-set_elem_ne h x y (record c { shared = true }) (ground arith) ∙ ea,
      Keeps-refl a,
    )
  ]

  pub mark_shared-Extends : (x : ℕ) (h : Heap F O) → Extends h (mark_shared x h)
  unfolding mark_shared
  mark_shared-Extends x h = elim (Option-cases (get_elem? h x)) [
    | inl e ↦ rw (e, mark_shared) (Extends-refl h)
    | inr (c, e) ↦
        rw (e, mark_shared)
          (record {
            longer = omega (arith, length-set_elem h x (record c { shared = true }));
            kept = mark-kept h x c e;
          })
  ]

  -- So does a bind.
  pub share_value-Extends : (v : Value F O) (h : Heap F O) → Extends h (share_value v h).1
  unfolding share_value
  share_value-Extends (arr (some x)) h = elim (Bool-cases (is_shared_at x h)) [
    | inl e ↦ rw e (Extends-refl h)
    | inr e ↦ rw e (mark_shared-Extends x h)
  ]
  share_value-Extends v h = Extends-refl h

  pub mark_element-Extends : (v : Value F O) (h : Heap F O) → Extends h (mark_element v h)
  unfolding mark_element
  mark_element-Extends (arr (some x)) h = mark_shared-Extends x h
  mark_element-Extends v h = Extends-refl h

  pub mark_elements-Extends :
      (vals : Assoc Bytes (Value F O)) (h : Heap F O) → Extends h (mark_elements vals h)
  unfolding mark_elements
  mark_elements-Extends [] h = Extends-refl h
  mark_elements-Extends ((k, v) ∷ vals) h =
      Extends-trans (mark_element-Extends v h) (mark_elements-Extends vals (mark_element v h))

  pub append-Extends : (h t : Heap F O) → Extends h (h ++ t)
  append-Extends h t = record {
    longer = omega (arith, length-append h t);
    kept = λ x a e. (a, get_elem?-append h t x a e, Keeps-refl a);
  }

  pub clone_shallow_cow-Extends :
      (a : Array F O) (h : Heap F O) → Extends h (clone_shallow_cow a h).1
  unfolding clone_shallow_cow
  clone_shallow_cow-Extends a h =
      Extends-trans (mark_elements-Extends a.vals h) (append-Extends _ _)

  own_array-Extends :
      (x : ℕ) (o : Option (Array F O)) (h : Heap F O) → Extends h (own_array x o h).2
  unfolding own_array
  own_array-Extends x none h = Extends-refl h
  own_array-Extends x (some a) h = elim (Bool-cases a.shared) [
    | inl e ↦ rw e (clone_shallow_cow-Extends a h)
    | inr e ↦ rw e (Extends-refl h)
  ]

  -- `Own` leaves every array of the heap where it is, with its keys and its values, and with its
  -- mark if it had one.
  pub own-Extends : (v : Value F O) (h : Heap F O) → Extends h (own v h).2
  unfolding own
  own-Extends (arr (some x)) h = own_array-Extends x (get_elem? h x) h
  own-Extends v h = Extends-refl h
