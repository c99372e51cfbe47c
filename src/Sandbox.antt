-- ===== src/Sandbox.antt =====
-- pkg/sandbox/sandbox.go: the type graph and the allowlists of a security policy. A map from names to
-- true is the list of the names in it. The policy is one that exists: a nil policy denies everything.
pub mod Scan
pub mod Closure
pub mod Access
use quill_template_engine.Prelude.{
  ℕ, zero, suc, Bool, true, false, ◌||◌, Option, none, some, List, [], ◌∷◌, ◌++◌, Bytes, bytes_eq,
  if◌then◌else◌, length, ltb, mem,
}
use quill_template_engine.Prelude.Assoc.{Assoc, lookup, insert}

-- The set or list that a map holds under a name, empty where it holds none.
abbrev pub or_none : Option (List Bytes) → List Bytes
or_none none = []
or_none (some xs) = xs

unfoldable pub names_at : Bytes → Assoc Bytes (List Bytes) → List Bytes
names_at t m = or_none (lookup t m)

pub record TypeGraph : Type 0 where
  pub parents : Assoc Bytes (List Bytes)

unfoldable pub new_type_graph : TypeGraph
new_type_graph = record { parents = [] }

unfoldable pub declare_type : Bytes → List Bytes → TypeGraph → TypeGraph
unfolding names_at
declare_type t supers g = record { parents = insert t (names_at t g.parents ++ supers) g.parents }

unfoldable pub parents_of : TypeGraph → Bytes → List Bytes
unfolding names_at
parents_of g t = names_at t g.parents

-- The variables of the loop in `ancestors`.
pub record Search : Type 0 where
  pub out : List Bytes
  pub seen : List Bytes
  pub queue : List Bytes

unfoldable pub scan_parents : List Bytes → Search → Search
scan_parents [] s = s
scan_parents (p ∷ ps) s = scan_parents ps (
    if mem p s.seen
    then s
    else record { out = s.out ++ p ∷ []; seen = p ∷ s.seen; queue = s.queue ++ p ∷ [] })

-- The loop, cut off after so many rounds.
unfoldable pub walk : TypeGraph → ℕ → Search → List Bytes
unfolding scan_parents parents_of
walk g zero s = s.out
walk g (suc rounds) s = elim s.queue [
  | [] ↦ s.out
  | cur ∷ rest ↦ walk g rounds (scan_parents (parents_of g cur) (record s { queue = rest }))
]

-- Every name that stands as a supertype in the graph.
unfoldable pub supers_in : Assoc Bytes (List Bytes) → List Bytes
supers_in [] = []
supers_in ((t, supers) ∷ m) = supers ++ supers_in m

abbrev pub search_from : Bytes → Search
search_from t = record { out = t ∷ []; seen = t ∷ []; queue = t ∷ [] }

unfoldable pub ancestors : Option TypeGraph → Bytes → List Bytes
unfolding walk supers_in
ancestors none t = t ∷ []
ancestors (some g) t = walk g (suc (length (supers_in g.parents))) (search_from t)

pub record Policy : Type 0 where
  pub tags : List Bytes
  pub filters : List Bytes
  pub functions : List Bytes
  pub methods : Assoc Bytes (List Bytes)
  pub properties : Assoc Bytes (List Bytes)
  pub strict : Bool
  pub graph : Option TypeGraph

unfoldable pub empty_policy : Policy
empty_policy = record {
  tags = [];
  filters = [];
  functions = [];
  methods = [];
  properties = [];
  strict = false;
  graph = none;
}

-- The options are applied in order.
unfoldable pub new_policy : List (Policy → Policy) → Policy → Policy
new_policy [] p = p
new_policy (opt ∷ opts) p = new_policy opts (opt p)

unfoldable pub allow_tags : List Bytes → Policy → Policy
allow_tags names p = record p { tags = names ++ p.tags }

unfoldable pub allow_filters : List Bytes → Policy → Policy
allow_filters names p = record p { filters = names ++ p.filters }

unfoldable pub allow_functions : List Bytes → Policy → Policy
allow_functions names p = record p { functions = names ++ p.functions }

unfoldable pub allow_members :
    Bytes → List Bytes → Assoc Bytes (List Bytes) → Assoc Bytes (List Bytes)
unfolding names_at
allow_members t names m = insert t (names ++ names_at t m) m

unfoldable pub allow_methods : Bytes → List Bytes → Policy → Policy
unfolding allow_members
allow_methods t names p = record p { methods = allow_members t names p.methods }

unfoldable pub allow_properties : Bytes → List Bytes → Policy → Policy
unfolding allow_members
allow_properties t names p = record p { properties = allow_members t names p.properties }

unfoldable pub strict_access : Policy → Policy
strict_access p = record p { strict = true }

unfoldable pub with_type_graph : TypeGraph → Policy → Policy
with_type_graph g p = record p { graph = some g }

unfoldable pub allows_tag : Policy → Bytes → Bool
allows_tag p tag = mem tag p.tags

unfoldable pub allows_filter : Policy → Bytes → Bool
allows_filter p name = mem name p.filters

unfoldable pub allows_function : Policy → Bytes → Bool
allows_function p name = mem name p.functions

-- Some type of the list has the member.
unfoldable pub allowed_on : Assoc Bytes (List Bytes) → Bytes → List Bytes → Bool
unfolding names_at
allowed_on m name [] = false
allowed_on m name (t ∷ ts) =
    let rest = allowed_on m name ts in if mem name (names_at t m) then true else rest

unfoldable pub allows_method : Policy → Bytes → Bytes → Bool
unfolding allowed_on ancestors
allows_method p t method = allowed_on p.methods method (ancestors p.graph t)

unfoldable pub allows_property : Policy → Bytes → Bytes → Bool
unfolding allowed_on ancestors
allows_property p t prop = allowed_on p.properties prop (ancestors p.graph t)

abbrev pub has_some : List Bytes → Bool
has_some [] = false
has_some (x ∷ xs) = true

abbrev pub has_parents : Option TypeGraph → Bytes → Bool
has_parents none t = false
has_parents (some g) t = has_some (parents_of g t)

unfoldable pub known_in : Policy → List Bytes → Bool
unfolding names_at parents_of
known_in p [] = false
known_in p (t ∷ ts) =
    let rest = known_in p ts in
    if has_some (names_at t p.methods) || has_some (names_at t p.properties)
    then true
    else if has_parents p.graph t
    then true
    else rest

unfoldable pub knows : Policy → Bytes → Bool
unfolding known_in ancestors
knows p t = known_in p (ancestors p.graph t)
