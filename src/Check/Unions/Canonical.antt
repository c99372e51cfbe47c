-- ===== src/Check/Unions/Canonical.antt =====
-- pkg/check/type.go: `unionOf`, `join`.
use mathlib.Core.Bool.{false≢true}
use quill_template_engine.Prelude.{
  Bool, true, false, List, [], ◌∷◌, mem, bytes_ltb, bytes_ltb_total, distinct, Eq, ◌≡◌, refl, arith,
  sym, ap, Bool-cases, inl, inr, ◌∙◌,
}
use quill_template_engine.Check.{
  StaticType, any, never, union, from_list, to_list, text, insert_type, sort_types, dedupe,
  collapse, union_of,
}
use quill_template_engine.Check.Equality.{equal_type_refl, type_eq}
use quill_template_engine.Check.Unions.{
  alternatives, offered, mem-dedupe, distinct-dedupe, flatten-any, flatten-Flattened,
}
use quill_template_engine.Check.Unions.Sorting.{
  sorted, first-least, mem-sort_types, distinct-sort_types, sorted-sort_types,
}

pub mem-head : (t : StaticType) (ts : List StaticType) → mem t (t ∷ ts) ≡ true
unfolding mem
mem-head t ts = rw (equal_type_refl t) refl

module _ {ℓ} {A : Type ℓ} ⦃e : Eq A⦄ (x a : A) (xs ys : List A) where
  same-tail :
      distinct (x ∷ xs) ≡ true
      → distinct (x ∷ ys) ≡ true
      → mem a (x ∷ xs) ≡ mem a (x ∷ ys)
      → mem a xs ≡ mem a ys
  unfolding mem distinct
  same-tail d k h = ground (arith, e.beq_iff x a)

pub mem-behind {ℓ} :
    {A : Type ℓ} ⦃e : Eq A⦄ (x a : A) (xs : List A) → mem a xs ≡ true → mem a (x ∷ xs) ≡ true
unfolding mem
mem-behind x a xs h = ground arith

distinct-tail {ℓ} :
    {A : Type ℓ} ⦃e : Eq A⦄ (x : A) (xs : List A) → distinct (x ∷ xs) ≡ true → distinct xs ≡ true
unfolding distinct
distinct-tail x xs d = ground arith

-- Two types of a list that have one text are one.
abbrev Distinguished : List StaticType → Type 0
Distinguished ts = (a b : StaticType) → mem a ts ≡ true → mem b ts ≡ true → text a ≡ text b → a ≡ b

sorted-tail : (t : StaticType) (ts : List StaticType) → sorted (t ∷ ts) ≡ true → sorted ts ≡ true
unfolding sorted
sorted-tail t ts h = ground arith

same_sorted :
    (xs ys : List StaticType)
    → distinct xs ≡ true
    → distinct ys ≡ true
    → sorted xs ≡ true
    → sorted ys ≡ true
    → Distinguished xs
    → ((a : StaticType) → mem a xs ≡ mem a ys)
    → xs ≡ ys
unfolding mem
same_sorted [] [] d k s r apart same = refl
same_sorted [] (y ∷ ys) d k s r apart same = absurd (false≢true (same y ∙ mem-head y ys))
same_sorted (x ∷ xs) [] d k s r apart same = absurd (false≢true (sym (same x) ∙ mem-head x xs))
same_sorted (x ∷ xs) (y ∷ ys) d k s r apart same = rw first (
    ap (◌∷◌ y) (
      same_sorted xs ys (distinct-tail x xs d) (distinct-tail y ys k) (sorted-tail x xs s)
        (sorted-tail y ys r) (λ a b m n. apart a b (mem-behind x a xs m) (mem-behind x b xs n))
        (λ a. same-tail x a xs ys d (rw first k) (same a ∙ rw first refl))))
  where
    y_in : mem y (x ∷ xs) ≡ true
    y_in = same y ∙ mem-head y ys

    first : x ≡ y
    first = apart x y (mem-head x xs) y_in (
        bytes_ltb_total (text x) (text y) (first-least y x ys r (sym (same x) ∙ mem-head x xs))
          (first-least x y xs s y_in))

-- What a sorted list of arms makes.
unfoldable packed : List StaticType → StaticType
packed [] = never
packed (t ∷ []) = t
packed (t ∷ u ∷ ts) = union (from_list (t ∷ u ∷ ts))

insert_type-one :
    (t : StaticType) (us : List StaticType)
    → (v : StaticType) × (vs : List StaticType) × (insert_type t us ≡ v ∷ vs)
unfolding insert_type
insert_type-one t [] = (t, [], refl)
insert_type-one t (u ∷ us) = elim (Bool-cases (bytes_ltb (text u) (text t))) [
  | inl h ↦ (u, insert_type t us, rw h refl)
  | inr h ↦ (t, u ∷ us, rw h refl)
]

insert_type-two :
    (t u : StaticType) (us : List StaticType)
    → packed (insert_type t (u ∷ us)) ≡ union (from_list (insert_type t (u ∷ us)))
unfolding insert_type packed
insert_type-two t u us = elim (Bool-cases (bytes_ltb (text u) (text t))) [
  | inl h ↦ let (v, vs, e) = insert_type-one t us in rw (h, e) refl
  | inr h ↦ rw h refl
]

collapse_lem : (ts : List StaticType) → collapse ts ≡ packed (sort_types ts)
unfolding collapse packed sort_types insert_type
collapse_lem [] = refl
collapse_lem (t ∷ []) = refl
collapse_lem (t ∷ u ∷ ts) =
    let (v, vs, e) = insert_type-one u (sort_types ts) in rw e (sym (insert_type-two t v vs))

-- The arms that `union_of` is left with: every one that is offered, once, in order of their texts.
record Gathered (ps : List StaticType) : Type 0 where
  arms_of : List StaticType
  is_result : union_of ps ≡ packed arms_of
  once : distinct arms_of ≡ true
  in_order : sorted arms_of ≡ true
  has_arms : (a : StaticType) → mem a arms_of ≡ offered a ps

union_of-Gathered : (ps : List StaticType) → mem any ps ≡ false → Gathered ps
unfolding union_of mem distinct
union_of-Gathered ps h =
    let r = flatten-Flattened ps h in
    record {
      arms_of = sort_types (dedupe [] r.flat);
      is_result = rw (r.is_result, union_of) (collapse_lem (dedupe [] r.flat));
      once = distinct-sort_types (dedupe [] r.flat) ∙ distinct-dedupe [] r.flat refl;
      in_order = sorted-sort_types (dedupe [] r.flat);
      has_arms = λ a. mem-sort_types a (dedupe [] r.flat) ∙ mem-dedupe a [] r.flat ∙ r.has_arms a;
    }

union_of-any : (ps : List StaticType) → mem any ps ≡ true → union_of ps ≡ any
unfolding union_of
union_of-any ps h = rw (flatten-any ps h, union_of) refl

-- Two lists of types that both have `any` or both lack it, and that offer the same arms, have one
-- union, in whatever order and however often the arms stand, as long as no two of the offered arms
-- have one text.
pub union_of-canonical :
    (ps qs : List StaticType)
    → mem any ps ≡ mem any qs
    → ((a : StaticType) → offered a ps ≡ offered a qs)
    → ((a b : StaticType) → offered a ps ≡ true → offered b ps ≡ true → text a ≡ text b → a ≡ b)
    → union_of ps ≡ union_of qs
union_of-canonical ps qs h same apart = elim (Bool-cases (mem any ps)) [
  | inl e ↦ union_of-any ps e ∙ sym (union_of-any qs (sym h ∙ e))
  | inr e ↦
      let r = union_of-Gathered ps e in
      let s = union_of-Gathered qs (sym h ∙ e) in
      r.is_result
      ∙ ap packed (
          same_sorted r.arms_of s.arms_of r.once s.once r.in_order s.in_order
            (λ a b m n. apart a b (sym (r.has_arms a) ∙ m) (sym (r.has_arms b) ∙ n))
            (λ a. r.has_arms a ∙ same a ∙ sym (s.has_arms a)))
      ∙ sym s.is_result
]

-- What may stand as an arm of a union: not `any`, no union.
abbrev pub is_arm : StaticType → Bool
is_arm any = false
is_arm never = false
is_arm (union ts) = false
is_arm t = true

pub alternatives-is_arm : (t : StaticType) → is_arm t ≡ true → alternatives t ≡ t ∷ []
alternatives-is_arm any h = refl
alternatives-is_arm never h = absurd (false≢true h)
alternatives-is_arm (union ts) h = absurd (false≢true h)
alternatives-is_arm _ h = refl

to_list-from_list : (ts : List StaticType) → to_list (from_list ts) ≡ ts
to_list-from_list [] = refl
to_list-from_list (t ∷ ts) = ap (◌∷◌ t) (to_list-from_list ts)

alternatives-packed :
    (ts : List StaticType)
    → ((a : StaticType) → mem a ts ≡ true → is_arm a ≡ true)
    → alternatives (packed ts) ≡ ts
unfolding packed
alternatives-packed [] h = refl
alternatives-packed (t ∷ []) h = alternatives-is_arm t (h t (mem-head t []))
alternatives-packed (t ∷ u ∷ ts) h = to_list-from_list (t ∷ u ∷ ts)

pub alternatives-union_of :
    (ps : List StaticType)
    → mem any ps ≡ false
    → ((a : StaticType) → offered a ps ≡ true → is_arm a ≡ true)
    → (a : StaticType) → mem a (alternatives (union_of ps)) ≡ offered a ps
alternatives-union_of ps h plain a =
    let r = union_of-Gathered ps h in
    rw (r.is_result, alternatives-packed r.arms_of (λ b m. plain b (sym (r.has_arms b) ∙ m)))
      (r.has_arms a)
