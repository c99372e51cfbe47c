-- ===== src/Check/Unions.antt =====
-- pkg/check/type.go: the loops of `unionOf`, and what of the parts they keep.
pub mod Sorting
pub mod Canonical
use mathlib.Core.Bool.{false≢true}
use quill_template_engine.Prelude.{
  Bool, true, false, not, ◌&&◌, ◌||◌, Option, none, some, List, [], ◌∷◌, ◌++◌, mem, mem-append,
  distinct, distinct-append_one, if◌then◌else◌, Eq, ◌≡◌, refl, arith, sym, ap, Option-cases, inl,
  inr, Bool-cases, ◌∙◌,
}
use quill_template_engine.Check.{
  StaticType, any, never, union, nil, cons, to_list, equal_type, flatten, in_front, has_equal,
  dedupe,
}
use quill_template_engine.Check.Equality.{equal_type_iff, type_eq, equal_type_comm}

-- The arms of a type, where the empty type has none.
abbrev pub alternatives : StaticType → List StaticType
alternatives never = []
alternatives (union ts) = to_list ts
alternatives t = t ∷ []

-- Some type of the list has the arm.
unfoldable pub offered : StaticType → List StaticType → Bool
offered a [] = false
offered a (p ∷ ps) = mem a (alternatives p) || offered a ps

module _ {ℓ} {A : Type ℓ} ⦃e : Eq A⦄ (a p : A) (us : List A) (b : Bool) where
  mem-absorb : mem p us ≡ true → mem a us || (e.beq p a || b) ≡ mem a us || b
  mem-absorb h = ground (arith, e.beq_iff p a)

  mem-push : mem a (us ++ p ∷ []) || b ≡ mem a us || (e.beq p a || b)
  unfolding mem
  mem-push = ground (arith, mem-append a us (p ∷ []))

has_equal_lem : (p : StaticType) (qs : List StaticType) → has_equal p qs ≡ mem p qs
unfolding has_equal mem
has_equal_lem p [] = refl
has_equal_lem p (q ∷ qs) = rw (equal_type_comm p q, has_equal_lem p qs) refl

pub mem-dedupe :
    (a : StaticType) (uniq ps : List StaticType) → mem a (dedupe uniq ps) ≡ mem a uniq || mem a ps
unfolding dedupe mem
mem-dedupe a uniq [] = ground arith
mem-dedupe a uniq (p ∷ ps) = elim (Bool-cases (mem p uniq)) [
  | inl h ↦
      rw (has_equal_lem p uniq, h) (mem-dedupe a uniq ps ∙ sym (mem-absorb a p uniq (mem a ps) h))
  | inr h ↦
      rw (has_equal_lem p uniq, h) (mem-dedupe a (uniq ++ p ∷ []) ps ∙ mem-push a p uniq (mem a ps))
]

pub distinct-dedupe :
    (uniq ps : List StaticType) → distinct uniq ≡ true → distinct (dedupe uniq ps) ≡ true
unfolding dedupe
distinct-dedupe uniq [] d = d
distinct-dedupe uniq (p ∷ ps) d = elim (Bool-cases (mem p uniq)) [
  | inl h ↦ rw (has_equal_lem p uniq, h) (distinct-dedupe uniq ps d)
  | inr h ↦
      rw (has_equal_lem p uniq, h)
        (distinct-dedupe (uniq ++ p ∷ []) ps (rw (distinct-append_one uniq p, h, d) refl))
]

pub flatten-any : (ps : List StaticType) → mem any ps ≡ true → flatten ps ≡ none
unfolding flatten mem equal_type
flatten-any [] h = absurd (false≢true h)
flatten-any (any ∷ ps) h = refl
flatten-any (never ∷ ps) h = flatten-any ps h
flatten-any (union ts ∷ ps) h = rw (flatten-any ps h) refl
flatten-any (_ ∷ ps) h = rw (flatten-any ps h) refl

-- What the first loop leaves.
pub record Flattened (ps : List StaticType) : Type 0 where
  pub flat : List StaticType
  pub is_result : flatten ps ≡ some flat
  pub has_arms : (a : StaticType) → mem a flat ≡ offered a ps

unfoldable joined_to :
    (p : StaticType) (ps : List StaticType)
    → flatten (p ∷ ps) ≡ in_front (alternatives p) (flatten ps)
    → Flattened ps
    → Flattened (p ∷ ps)
unfolding offered
joined_to p ps e r = record {
  flat = alternatives p ++ r.flat;
  is_result = e ∙ rw r.is_result refl;
  has_arms = λ a. rw (mem-append a (alternatives p) r.flat, r.has_arms a) refl;
}

pub flatten-Flattened : (ps : List StaticType) → mem any ps ≡ false → Flattened ps
unfolding flatten mem offered equal_type
flatten-Flattened [] h = record { flat = []; is_result = refl; has_arms = λ a. refl }
flatten-Flattened (any ∷ ps) h = absurd (false≢true (sym h))
flatten-Flattened (never ∷ ps) h =
    let r = flatten-Flattened ps h in
    record { flat = r.flat; is_result = r.is_result; has_arms = r.has_arms }
flatten-Flattened (union ts ∷ ps) h = joined_to (union ts) ps refl (flatten-Flattened ps h)
flatten-Flattened (p ∷ ps) h = joined_to _ ps refl (flatten-Flattened ps h)
