-- ===== src/Check/Consistency/Answers.antt =====
-- pkg/check/consistency.go: the tests of `consistent`, where no walk is cut off.
use mathlib.Core.Bool.{false≢true}
use mathlib.Core.Option.{some-injective}
use quill_template_engine.Prelude.{
  Bool, true, false, Option, none, some, Bytes, is_some, mem, ◌≡◌, refl, sym, ap, Bool-cases, inl,
  inr, ◌∙◌, bytes_eq,
}
use quill_template_engine.Check.{
  StaticType, any, list_of, map_of, object_of, arrow_of, union, StaticTypes, nil, cons, to_list,
  equal_type,
}
use quill_template_engine.Check.Equality.{equal_type_iff, type_eq}
use quill_template_engine.Check.Consistency.{
  and_then, or_else, same_count, into, into_some, into_list, into_map, into_object, into_arrow,
}

pub and_then-is_some :
    (a b : Option Bool) → is_some a ≡ true → is_some b ≡ true → is_some (and_then a b) ≡ true
and_then-is_some none b h k = h
and_then-is_some (some false) b h k = refl
and_then-is_some (some true) b h k = k

or_else-is_some :
    (a b : Option Bool) → is_some a ≡ true → is_some b ≡ true → is_some (or_else a b) ≡ true
or_else-is_some none b h k = h
or_else-is_some (some true) b h k = refl
or_else-is_some (some false) b h k = k

pub and_then-both :
    (a b : Option Bool) → and_then a b ≡ some true → (a ≡ some true) × (b ≡ some true)
and_then-both none b h = absurd (false≢true (ap is_some h))
and_then-both (some false) b h = absurd (false≢true (some-injective false true h))
and_then-both (some true) b h = (refl, h)

or_else-true : (a : Option Bool) → is_some a ≡ true → or_else a (some true) ≡ some true
or_else-true none h = absurd (false≢true h)
or_else-true (some true) h = refl
or_else-true (some false) h = refl

module _ (f : StaticType → Option Bool) (total : (t : StaticType) → is_some (f t) ≡ true) where
  mutual
    unfolding into

    pub into-is_some : (t : StaticType) → is_some (into f t) ≡ true
    into-is_some any = refl
    into-is_some (union ts) = into_some-is_some ts
    into-is_some t = total _

    into_some-is_some : (ts : StaticTypes) → is_some (into_some f ts) ≡ true
    into_some-is_some nil = refl
    into_some-is_some (cons t ts) =
        or_else-is_some (into f t) (into_some f ts) (into-is_some t) (into_some-is_some ts)

  pub into_some-arm :
      (u : StaticType) (ts : StaticTypes)
      → mem u (to_list ts) ≡ true
      → into f u ≡ some true
      → into_some f ts ≡ some true
  unfolding into mem
  into_some-arm u nil m h = absurd (false≢true m)
  into_some-arm u (cons t ts) m h = elim (Bool-cases (equal_type t u)) [
    | inl e ↦ rw ((equal_type_iff t u).0 e, h) refl
    | inr e ↦
        rw (into_some-arm u ts (sym (rw e refl) ∙ m) h) (or_else-true (into f t) (into-is_some t))
  ]

pub into_list-is_some :
    (f : StaticType → Option Bool)
    → ((t : StaticType) → is_some (f t) ≡ true)
    → (t : StaticType) → is_some (into_list f t) ≡ true
into_list-is_some f h (list_of b) = h b
into_list-is_some f h _ = refl

pub into_map-is_some :
    (f g : StaticType → Option Bool)
    → ((t : StaticType) → is_some (f t) ≡ true)
    → ((t : StaticType) → is_some (g t) ≡ true)
    → (t : StaticType) → is_some (into_map f g t) ≡ true
into_map-is_some f g h k (map_of j b) = and_then-is_some (f j) (g b) (h j) (k b)
into_map-is_some f g h k _ = refl

pub into_object-is_some :
    (f : Bytes → Option Bool)
    → ((n : Bytes) → is_some (f n) ≡ true)
    → (t : StaticType) → is_some (into_object f t) ≡ true
into_object-is_some f h (object_of n) = h n
into_object-is_some f h _ = refl

pub into_arrow-is_some :
    (ps : StaticTypes) (f : StaticTypes → Option Bool) (g : StaticType → Option Bool)
    → ((ts : StaticTypes) → is_some (f ts) ≡ true)
    → ((t : StaticType) → is_some (g t) ≡ true)
    → (t : StaticType) → is_some (into_arrow ps f g t) ≡ true
into_arrow-is_some ps f g h k (arrow_of qs b) = elim (Bool-cases (same_count ps qs)) [
  | inl e ↦ rw e (and_then-is_some (f qs) (g b) (h qs) (k b))
  | inr e ↦ rw e refl
]
into_arrow-is_some ps f g h k _ = refl

pub same_count_refl : (ts : StaticTypes) → same_count ts ts ≡ true
same_count_refl nil = refl
same_count_refl (cons t ts) = same_count_refl ts
