-- ===== src/Check/Unions/Sorting.antt =====
-- pkg/check/type.go: the sort in `unionOf`.
use mathlib.Core.Bool.{false≢true}
use quill_template_engine.Prelude.{
  Bool, true, false, not, ◌&&◌, List, [], ◌∷◌, mem, bytes_ltb, bytes_ltb_asymm, bytes_ltb_irrefl,
  bytes_ltb_trans, bytes_ltb_total, Bytes, distinct, if◌then◌else◌, Eq, ◌≡◌, refl, arith, ap,
  Bool-cases, inl, inr, ◌∙◌,
}
use quill_template_engine.Check.{StaticType, equal_type, text, insert_type, sort_types}
use quill_template_engine.Check.Equality.{equal_type_iff, type_eq}

-- No type of the list has a text less than that of `t`.
unfoldable pub none_below : StaticType → List StaticType → Bool
none_below t [] = true
none_below t (u ∷ us) = not (bytes_ltb (text u) (text t)) && none_below t us

unfoldable pub sorted : List StaticType → Bool
unfolding none_below
sorted [] = true
sorted (t ∷ ts) = none_below t ts && sorted ts

-- The step of `insert_type`, for any order.
module _ {ℓ} {A : Type ℓ} ⦃e : Eq A⦄ (a t u : A) (rest us : List A) (less : Bool) where
  mem-placed :
      mem a rest ≡ mem a (t ∷ us)
      → mem a (if less then u ∷ rest else t ∷ u ∷ us) ≡ mem a (t ∷ u ∷ us)
  unfolding mem
  mem-placed h = ground (arith, e.beq_iff u a, e.beq_iff t a)

mem-insert_type :
    (a t : StaticType) (us : List StaticType) → mem a (insert_type t us) ≡ mem a (t ∷ us)
unfolding insert_type
mem-insert_type a t [] = refl
mem-insert_type a t (u ∷ us) =
    mem-placed a t u (insert_type t us) us (bytes_ltb (text u) (text t)) (mem-insert_type a t us)

pub mem-sort_types : (a : StaticType) (ts : List StaticType) → mem a (sort_types ts) ≡ mem a ts
unfolding sort_types mem
mem-sort_types a [] = refl
mem-sort_types a (t ∷ ts) = mem-insert_type a t (sort_types ts) ∙ rw (mem-sort_types a ts) refl

module _ {ℓ} {A : Type ℓ} ⦃e : Eq A⦄ (t u : A) (rest us : List A) (less : Bool) where
  distinct-placed :
      mem u rest ≡ mem u (t ∷ us)
      → distinct rest ≡ not (mem t us) && distinct us
      → distinct (if less then u ∷ rest else t ∷ u ∷ us) ≡ not (mem t (u ∷ us)) && distinct (u ∷ us)
  unfolding mem distinct
  distinct-placed h k = ground (arith, e.beq_iff u t, e.beq_iff t u)

distinct-insert_type :
    (t : StaticType) (us : List StaticType)
    → distinct (insert_type t us) ≡ not (mem t us) && distinct us
unfolding insert_type mem distinct
distinct-insert_type t [] = refl
distinct-insert_type t (u ∷ us) =
    distinct-placed t u (insert_type t us) us (bytes_ltb (text u) (text t)) (mem-insert_type u t us)
      (distinct-insert_type t us)

pub distinct-sort_types : (ts : List StaticType) → distinct (sort_types ts) ≡ distinct ts
unfolding sort_types distinct
distinct-sort_types [] = refl
distinct-sort_types (t ∷ ts) =
    distinct-insert_type t (sort_types ts) ∙ rw (mem-sort_types t ts, distinct-sort_types ts) refl

not_less_trans :
    (a b c : Bytes) → bytes_ltb a b ≡ false → bytes_ltb b c ≡ false → bytes_ltb a c ≡ false
not_less_trans a b c h k = ground (arith, bytes_ltb_trans b a c, bytes_ltb_total b a)

none_below-not_less :
    (t u : StaticType) (us : List StaticType)
    → bytes_ltb (text u) (text t) ≡ false
    → none_below u us ≡ true
    → none_below t us ≡ true
unfolding none_below
none_below-not_less t u [] h k = refl
none_below-not_less t u (v ∷ us) h k =
    ground (arith, not_less_trans (text v) (text u) (text t), none_below-not_less t u us h)

none_below-insert_type :
    (u t : StaticType) (us : List StaticType)
    → none_below u (insert_type t us) ≡ not (bytes_ltb (text t) (text u)) && none_below u us
unfolding insert_type none_below
none_below-insert_type u t [] = refl
none_below-insert_type u t (v ∷ us) = ground (arith, none_below-insert_type u t us)

sorted-insert_type :
    (t : StaticType) (us : List StaticType) → sorted us ≡ true → sorted (insert_type t us) ≡ true
unfolding insert_type sorted none_below
sorted-insert_type t [] h = refl
sorted-insert_type t (u ∷ us) h = ground (
  arith,
  none_below-insert_type u t us,
  bytes_ltb_asymm (text u) (text t),
  none_below-not_less t u us,
  sorted-insert_type t us,
)

pub sorted-sort_types : (ts : List StaticType) → sorted (sort_types ts) ≡ true
unfolding sort_types sorted
sorted-sort_types [] = refl
sorted-sort_types (t ∷ ts) = sorted-insert_type t (sort_types ts) (sorted-sort_types ts)

-- The first of a sorted list is the least of its members.
least :
    (t a : StaticType) (ts : List StaticType)
    → none_below t ts ≡ true
    → mem a ts ≡ true
    → bytes_ltb (text a) (text t) ≡ false
unfolding none_below mem
least t a [] h m = absurd (false≢true m)
least t a (u ∷ us) h m = elim (Bool-cases (equal_type u a)) [
  | inl e ↦ ground (arith, ap text ((equal_type_iff u a).0 e))
  | inr e ↦ ground (arith, least t a us)
]

pub first-least :
    (t a : StaticType) (ts : List StaticType)
    → sorted (t ∷ ts) ≡ true
    → mem a (t ∷ ts) ≡ true
    → bytes_ltb (text a) (text t) ≡ false
unfolding sorted
first-least t a ts h m = least t a (t ∷ ts) (rw (none_below-self t ts) (ground arith)) m
  where
    none_below-self :
        (t : StaticType) (us : List StaticType) → none_below t (t ∷ us) ≡ none_below t us
    none_below-self t us = unfold none_below in rw (bytes_ltb_irrefl (text t)) refl
