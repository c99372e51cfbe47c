-- ===== src/Check.antt =====
-- pkg/check: the static types of the gradual checker, type.go. A nil type, which the code reads as
-- `any`, is not modelled: an optional one is an Option.
pub mod Equality
pub mod Unions
pub mod Registry
pub mod Consistency
pub mod Narrowing
pub mod Guards
use quill_template_engine.Prelude.{
  ℕ, zero, suc, Bool, true, false, ◌&&◌, ◌||◌, Option, none, some, List, [], ◌∷◌, ◌++◌, Bytes,
  bytes_beq, bytes_ltb, codes, if◌then◌else◌,
}

-- `cons` and `nil` are a slice of types: the parameters of an arrow, the arms of a union.
mutual
  pub data StaticType : Type 0 where
    any : StaticType
    null : StaticType
    bool : StaticType
    int : StaticType
    float : StaticType
    string : StaticType
    list_of : StaticType → StaticType
    map_of : StaticType → StaticType → StaticType
    object_of : Bytes → StaticType
    arrow_of : StaticTypes → StaticType → StaticType
    union : StaticTypes → StaticType
    never : StaticType

  pub data StaticTypes : Type 0 where
    nil : StaticTypes
    cons : StaticType → StaticTypes → StaticTypes

abbrev pub to_list : StaticTypes → List StaticType
to_list nil = []
to_list (cons t ts) = t ∷ to_list ts

abbrev pub from_list : List StaticType → StaticTypes
from_list [] = nil
from_list (t ∷ ts) = cons t (from_list ts)

-- Slices of different lengths differ.
unfoldable mutual
  pub equal_type : StaticType → StaticType → Bool
  equal_type any any = true
  equal_type null null = true
  equal_type bool bool = true
  equal_type int int = true
  equal_type float float = true
  equal_type string string = true
  equal_type never never = true
  equal_type (object_of m) (object_of n) = bytes_beq m n
  equal_type (list_of a) (list_of b) = equal_type a b
  equal_type (map_of j a) (map_of k b) = equal_type j k && equal_type a b
  equal_type (arrow_of ps a) (arrow_of qs b) = equal_type a b && equal_types ps qs
  equal_type (union ps) (union qs) = equal_types ps qs
  equal_type _ _ = false

  pub equal_types : StaticTypes → StaticTypes → Bool
  equal_types nil nil = true
  equal_types (cons p ps) (cons q qs) = equal_type p q && equal_types ps qs
  equal_types _ _ = false

-- A separator stands between the texts of a slice. The first two clauses for a union are
-- `asNullable`.
unfoldable mutual
  pub text : StaticType → Bytes
  text any = codes "any"
  text null = codes "null"
  text bool = codes "bool"
  text int = codes "int"
  text float = codes "float"
  text string = codes "string"
  text never = codes "never"
  text (list_of t) = codes "list<" ++ text t ++ codes ">"
  text (map_of k v) = codes "map<" ++ text k ++ codes ", " ++ text v ++ codes ">"
  text (object_of n) = codes "Object<\"" ++ n ++ codes "\">"
  text (arrow_of ps t) = codes "(" ++ joined (codes ", ") ps ++ codes ") => " ++ text t
  text (union (cons null (cons t nil))) = text t ++ codes "?"
  text (union (cons t (cons null nil))) = text t ++ codes "?"
  text (union ts) = joined (codes " | ") ts

  joined : Bytes → StaticTypes → Bytes
  joined sep nil = []
  joined sep (cons t nil) = text t
  joined sep (cons t ts) = text t ++ sep ++ joined sep ts

abbrev pub arms : StaticType → List StaticType
arms (union ts) = to_list ts
arms t = t ∷ []

unfoldable mutual
  pub has_null : StaticType → Bool
  has_null null = true
  has_null (union ts) = some_null ts
  has_null _ = false

  some_null : StaticTypes → Bool
  some_null nil = false
  some_null (cons t ts) = has_null t || some_null ts

abbrev pub is_any : StaticType → Bool
is_any any = true
is_any _ = false

abbrev pub in_front : List StaticType → Option (List StaticType) → Option (List StaticType)
in_front ts none = none
in_front ts (some rest) = some (ts ++ rest)

-- The first loop of `unionOf`; none is its early return of `any`.
unfoldable pub flatten : List StaticType → Option (List StaticType)
flatten [] = some []
flatten (any ∷ ps) = none
flatten (never ∷ ps) = flatten ps
flatten (union ts ∷ ps) = in_front (to_list ts) (flatten ps)
flatten (p ∷ ps) = in_front (p ∷ []) (flatten ps)

unfoldable pub has_equal : StaticType → List StaticType → Bool
unfolding equal_type
has_equal p [] = false
has_equal p (q ∷ qs) = equal_type p q || has_equal p qs

-- The second loop, with `uniq` as it stands.
unfoldable pub dedupe : List StaticType → List StaticType → List StaticType
unfolding has_equal
dedupe uniq [] = uniq
dedupe uniq (p ∷ ps) = dedupe (if has_equal p uniq then uniq else uniq ++ p ∷ []) ps

-- sort.SliceStable by text: an element goes before the first that is not less.
unfoldable pub insert_type : StaticType → List StaticType → List StaticType
insert_type t [] = t ∷ []
insert_type t (u ∷ us) =
    let rest = insert_type t us in if bytes_ltb (text u) (text t) then u ∷ rest else t ∷ u ∷ us

unfoldable pub sort_types : List StaticType → List StaticType
unfolding insert_type
sort_types [] = []
sort_types (t ∷ ts) = insert_type t (sort_types ts)

-- What the arms that remain make.
unfoldable pub collapse : List StaticType → StaticType
unfolding sort_types
collapse [] = never
collapse (t ∷ []) = t
collapse (t ∷ u ∷ ts) = union (from_list (sort_types (t ∷ u ∷ ts)))

unfoldable pub union_of : List StaticType → StaticType
unfolding flatten dedupe collapse
union_of parts = elim (flatten parts) [ none ↦ any | some flat ↦ collapse (dedupe [] flat) ]

unfoldable pub join : StaticType → StaticType → StaticType
unfolding union_of equal_type
join a b =
    if is_any a || is_any b
    then any
    else if equal_type a never
    then b
    else if equal_type b never
    then a
    else if equal_type a b
    then a
    else union_of (a ∷ b ∷ [])

-- The arms that are not null.
unfoldable pub without_null : List StaticType → List StaticType
without_null [] = []
without_null (null ∷ ts) = without_null ts
without_null (t ∷ ts) = t ∷ without_null ts

unfoldable pub remove_null : StaticType → StaticType
unfolding without_null union_of
remove_null null = never
remove_null (union ts) = union_of (without_null (to_list ts))
remove_null t = t

-- `kept` of narrowTo.
unfoldable pub keep_equal : StaticType → List StaticType → List StaticType
unfolding equal_type
keep_equal target [] = []
keep_equal target (a ∷ ts) =
    let kept = keep_equal target ts in if equal_type a target then a ∷ kept else kept

unfoldable pub drop_equal : StaticType → List StaticType → List StaticType
unfolding equal_type
drop_equal target [] = []
drop_equal target (a ∷ ts) =
    let kept = drop_equal target ts in if equal_type a target then kept else a ∷ kept

unfoldable pub subtract_arm : StaticType → StaticType → StaticType
unfolding drop_equal union_of
subtract_arm cur target = union_of (drop_equal target (arms cur))

-- The union of what was kept, or the default where nothing was.
unfoldable pub or_default : StaticType → List StaticType → StaticType
unfolding union_of
or_default d [] = d
or_default d (t ∷ ts) = union_of (t ∷ ts)

unfoldable pub narrow_to : StaticType → StaticType → Bool → StaticType
unfolding subtract_arm keep_equal or_default
narrow_to cur target true = if is_any cur then cur else subtract_arm cur target
narrow_to cur target false =
    if is_any cur then target else or_default target (keep_equal target (arms cur))

unfoldable pub collections : List StaticType → List StaticType
collections [] = []
collections (list_of t ∷ ts) = list_of t ∷ collections ts
collections (map_of k v ∷ ts) = map_of k v ∷ collections ts
collections (t ∷ ts) = collections ts

unfoldable pub narrow_to_collection : StaticType → StaticType → StaticType
unfolding collections or_default
narrow_to_collection cur fallback =
    if is_any cur then fallback else or_default fallback (collections (arms cur))
