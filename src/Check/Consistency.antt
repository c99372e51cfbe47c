-- ===== src/Check/Consistency.antt =====
-- pkg/check/consistency.go: which types may flow where, which render and which iterate. A walk over
-- supertypes is cut off at a depth, and none is a call that needs a deeper one.

pub mod Answers
pub mod Reflexive
use quill_template_engine.Prelude.{
  ℕ, zero, suc, Bool, true, false, ◌&&◌, Option, none, some, List, [], ◌∷◌, Bytes, if◌then◌else◌,
}
use quill_template_engine.Check.{
  StaticType, any, null, bool, int, float, string, list_of, map_of, object_of, arrow_of, union,
  never, StaticTypes, nil, cons, is_any, join, equal_type,
}
use quill_template_engine.Check.Registry.{Registry, subtype_of, stringifies, iter_elem}

-- `a && b` and `a || b` on calls that may be cut off: the second is made only where it is needed.
abbrev pub and_then : Option Bool → Option Bool → Option Bool
and_then none b = none
and_then (some false) b = some false
and_then (some true) b = b

abbrev pub or_else : Option Bool → Option Bool → Option Bool
or_else none b = none
or_else (some true) b = some true
or_else (some false) b = b

abbrev pub same_count : StaticTypes → StaticTypes → Bool
same_count nil nil = true
same_count (cons s ss) (cons t ts) = same_count ss ts
same_count _ _ = false

-- A target that is any, and the loop over the arms of a target union, for a source that is no union;
-- `f` compares the source with another target.
unfoldable mutual
  pub into : (StaticType → Option Bool) → StaticType → Option Bool
  into f any = some true
  into f (union ts) = into_some f ts
  into f t = f t

  pub into_some : (StaticType → Option Bool) → StaticTypes → Option Bool
  into_some f nil = some false
  into_some f (cons t ts) = or_else (into f t) (into_some f ts)

abbrev pub into_list : (StaticType → Option Bool) → StaticType → Option Bool
into_list f (list_of b) = f b
into_list f _ = some false

abbrev pub into_map :
    (StaticType → Option Bool) → (StaticType → Option Bool) → StaticType → Option Bool
into_map f g (map_of k b) = and_then (f k) (g b)
into_map f g _ = some false

abbrev pub into_object : (Bytes → Option Bool) → StaticType → Option Bool
into_object f (object_of n) = f n
into_object f _ = some false

-- `f` compares the parameters, `g` the results.
abbrev pub into_arrow :
    StaticTypes
    → (StaticTypes → Option Bool)
    → (StaticType → Option Bool)
    → StaticType
    → Option Bool
into_arrow ps f g (arrow_of qs b) = if same_count ps qs then and_then (f qs) (g b) else some false
into_arrow ps f g _ = some false

module _ (r : Registry) (depth : ℕ) where
  -- `every_arm` is the loop over the arms of a source union, `pairwise` the one over the parameters
  -- of two arrows.
  unfoldable mutual
    unfolding into equal_type subtype_of

    pub consistent : StaticType → StaticType → Option Bool
    consistent any t = some true
    consistent never t = some true
    consistent (union ss) t =
        let arms_flow = every_arm ss t in if is_any t then some true else arms_flow
    consistent (object_of m) t = into (into_object (subtype_of r depth m)) t
    consistent (list_of a) t = into (into_list (consistent a)) t
    consistent (map_of j a) t = into (into_map (consistent j) (consistent a)) t
    consistent (arrow_of ps a) t = into (into_arrow ps (pairwise ps) (consistent a)) t
    consistent null t = into (λ u. some (equal_type null u)) t
    consistent bool t = into (λ u. some (equal_type bool u)) t
    consistent int t = into (λ u. some (equal_type int u)) t
    consistent float t = into (λ u. some (equal_type float u)) t
    consistent string t = into (λ u. some (equal_type string u)) t

    pub every_arm : StaticTypes → StaticType → Option Bool
    every_arm nil t = some true
    every_arm (cons s ss) t = and_then (consistent s t) (every_arm ss t)

    pub pairwise : StaticTypes → StaticTypes → Option Bool
    pairwise (cons s ss) (cons t ts) = and_then (consistent s t) (pairwise ss ts)
    pairwise _ _ = some true

-- A call that is not cut off: the registry is not walked.
module _ (r : Registry) where
  unfoldable mutual
    unfolding stringifies

    pub renderable : StaticType → Bool
    renderable (object_of n) = stringifies r n
    renderable (union ts) = all_renderable ts
    renderable (list_of t) = false
    renderable (map_of k v) = false
    renderable (arrow_of ps t) = false
    renderable _ = true

    pub all_renderable : StaticTypes → Bool
    all_renderable nil = true
    all_renderable (cons t ts) = renderable t && all_renderable ts

  abbrev object_elem : Option StaticType → Option (StaticType × StaticType)
  object_elem none = none
  object_elem (some e) = some (e, any)

  -- The elements and keys so far joined with those of one more arm, in the rest of the loop.
  abbrev and_join :
      StaticType
      → StaticType
      → Option (StaticType × StaticType)
      → (StaticType → StaticType → Option (StaticType × StaticType))
      → Option (StaticType × StaticType)
  and_join e k none rest = none
  and_join e k (some (f, l)) rest = rest (join e f) (join k l)

  -- The element and the key.
  unfoldable mutual
    unfolding iter_elem join

    pub iterable_elem : StaticType → Option (StaticType × StaticType)
    iterable_elem any = some (any, any)
    iterable_elem (list_of t) = some (t, int)
    iterable_elem (map_of k v) = some (v, k)
    iterable_elem string = some (string, int)
    iterable_elem (object_of n) = object_elem (iter_elem r n)
    iterable_elem (union ts) = joined_elems never never ts
    iterable_elem _ = none

    pub joined_elems : StaticType → StaticType → StaticTypes → Option (StaticType × StaticType)
    joined_elems e k nil = some (e, k)
    joined_elems e k (cons t ts) = and_join e k (iterable_elem t) (λ f l. joined_elems f l ts)
