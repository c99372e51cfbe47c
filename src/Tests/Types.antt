-- ===== src/Tests/Types.antt =====
-- Static types, a registry with one host type and one with a cycle, and routes of loaders.
use mathlib.Core.Bool.{false≢true}
use mathlib.Core.Option.{none-ne-some, some-injective}
use mathlib.Core.Path.{subst}
use quill_template_engine.Prelude.{
  ℕ, ◌<◌, true, false, not, ◌&&◌, some, none, [], ◌∷◌, Bytes, codes, bytes_eq, bytes_beq, bytes_ltb,
  bytes_beq_iff, mem, is_some, if◌then◌else◌, ◌≡◌, ◌∙◌, ap, refl, sym, arith, Bool-cases, inl, inr,
}
use quill_template_engine.Check.{
  StaticType, any, null, int, string, list_of, arrow_of, flatten, dedupe, collapse, sort_types,
  insert_type, has_equal, union, never, nil, cons, text, union_of, narrow_to, equal_type,
}
use quill_template_engine.Check.Equality.{type_eq}
use quill_template_engine.Check.Unions.{alternatives, offered}
use quill_template_engine.Check.Unions.Canonical.{is_arm, union_of-canonical}
use quill_template_engine.Check.Narrowing.{IsProper, narrow_to_lem}
use quill_template_engine.Check.Registry.{
  Registry, ObjectType, new_registry, add_type, new_object_type, with_supertypes, object_type,
  subtype_of,
}
use quill_template_engine.Check.Registry.Depth.{
  Ranked, Decides, subtype_of-Decides, subtype_of-cycle,
}
use quill_template_engine.Check.Consistency.{consistent}
use quill_template_engine.Check.Consistency.Reflexive.{consistent-answers}
use quill_template_engine.Prelude.Assoc.{Assoc, lookup, insert}
use quill_template_engine.Loader.{Loader, array_loader, find_route, full_routes, prefix_routes}
use quill_template_engine.Loader.Routes.{Longest, find_route-prefix_routes}

abbrev int_or_null : StaticType
int_or_null = union (cons int (cons null nil))

same_offer :
    (a : StaticType) → offered a (string ∷ int_or_null ∷ []) ≡ offered a (null ∷ int ∷ string ∷ [])
unfolding offered mem equal_type
same_offer any = refl
same_offer _ = refl

-- The arm that a text names.
abbrev named : Bytes → StaticType
named s =
    if bytes_beq s (codes "string") then string else if bytes_beq s (codes "int") then int else null

named-text : (a : StaticType) → offered a (string ∷ int_or_null ∷ []) ≡ true → named (text a) ≡ a
unfolding offered mem equal_type text bytes_beq
named-text string h = refl
named-text int h = refl
named-text null h = refl
named-text _ h = absurd (false≢true h)

union_of-canonical_example :
    union_of (string ∷ int_or_null ∷ []) ≡ union_of (null ∷ int ∷ string ∷ [])
unfolding mem equal_type
union_of-canonical_example =
    union_of-canonical (string ∷ int_or_null ∷ []) (null ∷ int ∷ string ∷ []) refl same_offer
      (λ a b h k e. sym (named-text a h) ∙ ap named e ∙ named-text b k)

plain : (a : StaticType) → mem a (alternatives int_or_null) ≡ true → is_arm a ≡ true
unfolding mem equal_type
plain any h = absurd (false≢true h)
plain never h = absurd (false≢true h)
plain (union ts) h = absurd (false≢true h)
plain _ h = refl

int_or_null-IsProper : IsProper int_or_null
int_or_null-IsProper = (refl, plain)

narrow_to_lem_example :
    (narrow_to int_or_null int false ≡ int)
    × ((a : StaticType)
        → mem a (alternatives (narrow_to int_or_null int true))
          ≡ mem a (alternatives int_or_null) && not (equal_type a int))
narrow_to_lem_example = narrow_to_lem int_or_null int int_or_null-IsProper refl

abbrev circle : ObjectType
circle = with_supertypes (codes "Shape" ∷ []) (new_object_type (codes "Circle"))

abbrev shapes : Registry
shapes = add_type circle new_registry

abbrev rank : Bytes → ℕ
rank n = if bytes_beq (codes "Circle") n then 1 else 0

rank-shape : (s : Bytes) → mem s (codes "Shape" ∷ []) ≡ true → rank s ≡ 0
unfolding mem bytes_beq
rank-shape s m = elim (Bool-cases (bytes_beq (codes "Shape") s)) [
  | inl e ↦ rw (sym ((bytes_beq_iff (codes "Shape") s).0 e)) refl
  | inr e ↦ absurd (false≢true (sym (rw e refl) ∙ m))
]

shapes-Ranked : Ranked shapes rank
unfolding object_type add_type lookup insert bytes_beq mem
shapes-Ranked t s ot found m = elim (Bool-cases (bytes_beq (codes "Circle") t)) [
  | inl e ↦
      let same = some-injective circle ot (sym (rw e refl) ∙ found) in
      rw (rank-shape s (subst (λ o. mem s o.supertypes ≡ true) (sym same) m), e) (omega arith)
  | inr e ↦ absurd (none-ne-some _ (sym (rw e refl) ∙ found))
]

low : (n : Bytes) → rank n < 2
low n = ground arith

subtype_of-Decides_example :
    Decides shapes
      (codes "Circle")
      (codes "Shape")
      (subtype_of shapes 2 (codes "Circle") (codes "Shape"))
subtype_of-Decides_example =
    subtype_of-Decides shapes rank shapes-Ranked 2 (codes "Circle") (codes "Shape")
      (low (codes "Circle"))

consistent-answers_example :
    ((s t : StaticType) → is_some (consistent shapes 2 s t) ≡ true)
    × ((t : StaticType) → consistent shapes 2 t t ≡ some true)
consistent-answers_example = consistent-answers shapes rank shapes-Ranked 1 low

-- A type that is declared to be its own supertype.
abbrev node : ObjectType
node = with_supertypes (codes "Node" ∷ []) (new_object_type (codes "Node"))

abbrev looped : Registry
looped = add_type node new_registry

subtype_of-cycle_example : subtype_of looped 9 (codes "Node") (codes "Leaf") ≡ none
unfolding object_type add_type lookup insert bytes_beq
subtype_of-cycle_example =
    subtype_of-cycle looped (λ t. t ≡ codes "Node") (codes "Leaf")
      (λ t e. (rw e refl, (node, codes "Node", [], rw e refl, refl, refl))) 9 (codes "Node") refl

abbrev empty_loader : Loader ℕ
empty_loader = array_loader []

abbrev two_routes : Assoc Bytes (Loader ℕ)
two_routes = (codes "a", empty_loader) ∷ (codes "a/b/", empty_loader) ∷ []

find_route-prefix_routes_example :
    Longest
      (codes "a/b/c")
      (full_routes (codes "/") two_routes)
      (find_route (codes "a/b/c") (prefix_routes (codes "/") two_routes))
find_route-prefix_routes_example = find_route-prefix_routes (codes "a/b/c") (codes "/") two_routes

-- list<() => (int | string)> and list<(() => int) | string>, which have one text.
abbrev returns_either : StaticType
returns_either = list_of (arrow_of nil (union (cons int (cons string nil))))

abbrev either_returns : StaticType
either_returns = list_of (union (cons (arrow_of nil int) (cons string nil)))

one_text : text returns_either ≡ text either_returns
unfolding text
one_text = refl

two_unions :
    equal_type
      (union_of (returns_either ∷ either_returns ∷ []))
      (union_of (either_returns ∷ returns_either ∷ []))
    ≡ false
unfolding equal_type union_of flatten dedupe collapse sort_types insert_type has_equal text
    bytes_ltb bytes_beq
two_unions = refl
