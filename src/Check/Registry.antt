-- ===== src/Check/Registry.antt =====
-- pkg/check/registry.go: what a host declares of its types, and the walks over the declared
-- supertypes. The registry is one that exists, made by NewRegistry; a walk is cut off at a depth, and
-- none is a walk that was.
pub mod Depth
use quill_template_engine.Prelude.{
  ℕ, zero, suc, Bool, true, false, not, ◌||◌, Option, none, some, List, [], ◌∷◌, Bytes, bytes_eq,
  bytes_beq, if◌then◌else◌, is_some,
}
use quill_template_engine.Prelude.Assoc.{Assoc, lookup, insert}
use quill_template_engine.Check.{StaticType, any}

pub record Signature : Type 0 where
  pub params : List StaticType
  pub optional : ℕ
  pub variadic : Bool
  pub var_elem : Option StaticType
  pub ret : StaticType

abbrev pub new_signature : List StaticType → ℕ → Bool → Option StaticType → StaticType → Signature
new_signature params optional variadic var_elem ret = record {
  params = params;
  optional = optional;
  variadic = variadic;
  var_elem = var_elem;
  ret = ret;
}

pub record ObjectType : Type 0 where
  pub name : Bytes
  pub members : Assoc Bytes StaticType
  pub methods : Assoc Bytes Signature
  pub elem_type : Option StaticType
  pub stringify : Bool
  pub supertypes : List Bytes

abbrev pub new_object_type : Bytes → ObjectType
new_object_type name = record {
  name = name;
  members = [];
  methods = [];
  elem_type = none;
  stringify = false;
  supertypes = [];
}

abbrev pub with_members : Assoc Bytes StaticType → ObjectType → ObjectType
with_members members o = record o { members = members }

abbrev pub with_methods : Assoc Bytes Signature → ObjectType → ObjectType
with_methods methods o = record o { methods = methods }

abbrev pub with_elem_type : Option StaticType → ObjectType → ObjectType
with_elem_type t o = record o { elem_type = t }

abbrev pub with_stringify : Bool → ObjectType → ObjectType
with_stringify b o = record o { stringify = b }

abbrev pub with_supertypes : List Bytes → ObjectType → ObjectType
with_supertypes names o = record o { supertypes = names }

pub record Registry : Type 0 where
  pub types : Assoc Bytes ObjectType
  pub signatures : Assoc Bytes Signature

abbrev pub new_registry : Registry
new_registry = record { types = []; signatures = [] }

unfoldable pub add_type : ObjectType → Registry → Registry
unfolding insert
add_type t r = record r { types = insert t.name t r.types }

unfoldable pub add_signature : Bytes → Signature → Registry → Registry
unfolding insert
add_signature name s r = record r { signatures = insert name s r.signatures }

abbrev has_types : Assoc Bytes ObjectType → Bool
has_types [] = false
has_types (t ∷ ts) = true

unfoldable pub nominal : Registry → Bool
nominal r = has_types r.types

unfoldable pub object_type : Registry → Bytes → Option ObjectType
unfolding lookup
object_type r name = lookup name r.types

unfoldable pub knows_type : Registry → Bytes → Bool
unfolding nominal object_type
knows_type r name = if not (nominal r) then true else is_some (object_type r name)

unfoldable pub signature : Registry → Bytes → Option Signature
unfolding lookup
signature r name = lookup name r.signatures

-- The loop over the supertypes, which ends at the first that answers. What a walk gives: none, cut
-- off; `some none`, no answer; `some (some x)`, the answer.
unfoldable pub first_answer {ℓ} :
    {A : Type ℓ} → (Bytes → Option (Option A)) → List Bytes → Option (Option A)
first_answer walk [] = some none
first_answer walk (sup ∷ sups) = elim (walk sup) [
  | none ↦ none
  | some none ↦ first_answer walk sups
  | some (some x) ↦ some (some x)
]

-- A type that is not registered has every member, of type any.
unfoldable pub member_type : Registry → ℕ → Bytes → Bytes → Option (Option StaticType)
unfolding object_type first_answer lookup
member_type r zero name member = none
member_type r (suc depth) name member = elim (object_type r name) [
  | none ↦ some (some any)
  | some ot ↦ elim (lookup member ot.members) [
    | some t ↦ some (some t)
    | none ↦ first_answer (λ sup. member_type r depth sup member) ot.supertypes
  ]
]

-- The inner option is the nil signature of a type that is not registered.
unfoldable pub method_sig : Registry → ℕ → Bytes → Bytes → Option (Option (Option Signature))
unfolding object_type first_answer lookup
method_sig r zero name method = none
method_sig r (suc depth) name method = elim (object_type r name) [
  | none ↦ some (some none)
  | some ot ↦ elim (lookup method ot.methods) [
    | some s ↦ some (some (some s))
    | none ↦ first_answer (λ sup. method_sig r depth sup method) ot.supertypes
  ]
]

-- Whether it can be iterated at all, and then its elements.
unfoldable pub iter_elem : Registry → Bytes → Option StaticType
unfolding object_type
iter_elem r name = elim (object_type r name) [ none ↦ some any | some ot ↦ ot.elem_type ]

unfoldable pub stringifies : Registry → Bytes → Bool
unfolding object_type
stringifies r name = elim (object_type r name) [ none ↦ true | some ot ↦ ot.stringify ]

-- The loop over the supertypes, which ends at the first that is true.
unfoldable pub any_true : (Bytes → Option Bool) → List Bytes → Option Bool
any_true walk [] = some false
any_true walk (sup ∷ sups) = elim (walk sup) [
  | none ↦ none
  | some true ↦ some true
  | some false ↦ any_true walk sups
]

-- What the supertypes of a shape answer; a type that is not registered has none.
abbrev supers_answer : (Bytes → Option Bool) → Option ObjectType → Option Bool
supers_answer walk none = some false
supers_answer walk (some ot) = any_true walk ot.supertypes

unfoldable pub subtype_of : Registry → ℕ → Bytes → Bytes → Option Bool
unfolding object_type any_true
subtype_of r zero sub sup = none
subtype_of r (suc depth) sub sup =
    let supers = supers_answer (λ s. subtype_of r depth s sup) (object_type r sub) in
    if bytes_beq sub sup then some true else supers
