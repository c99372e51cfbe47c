-- ===== src/Check/Guards.antt =====
-- pkg/check: fromAST of type.go, the scopes of check.go, and narrowTrue and narrowTest of narrow.go. A
-- scope is written in its own frame only, which is the first of the list.
use quill_template_engine.Prelude.{
  ℕ, zero, suc, Bool, true, false, ◌&&◌, ◌||◌, Option, none, some, List, [], ◌∷◌, Bytes, bytes_eq,
  bytes_beq, codes, if◌then◌else◌,
}
use quill_template_engine.Prelude.Assoc.{Assoc, lookup, insert}
use quill_template_engine.Ast.{
  Kind, kind_type, kind_test, kind_logical, kind_name, Head, Node, node, Nodes, end, child, gap,
}
use quill_template_engine.Check.{
  StaticType, any, null, bool, int, float, string, list_of, map_of, object_of, arrow_of, from_list,
  union_of, join, remove_null, narrow_to, narrow_to_collection,
}

abbrev pub is_type : Kind → Bool
is_type kind_type = true
is_type _ = false

abbrev pub first_child : Nodes → Option Node
first_child end = none
first_child (gap ns) = none
first_child (child n ns) = some n

abbrev pub head_of : Node → Head
head_of (node h ch) = h

abbrev name_in : Option Node → Bytes
name_in none = []
name_in (some n) = (head_of n).str

-- The type of a child that may be missing.
abbrev type_at : List StaticType → ℕ → StaticType
type_at [] i = any
type_at (t ∷ ts) zero = t
type_at (t ∷ ts) (suc i) = type_at ts i

-- Parameters, then the result.
abbrev all_but_last : List StaticType → List StaticType
all_but_last [] = []
all_but_last (t ∷ []) = []
all_but_last (t ∷ u ∷ ts) = t ∷ all_but_last (u ∷ ts)

abbrev last_or_any : List StaticType → StaticType
last_or_any [] = any
last_or_any (t ∷ []) = t
last_or_any (t ∷ u ∷ ts) = last_or_any (u ∷ ts)

unfoldable pub annotated_union : Bool → List StaticType → StaticType
unfolding union_of join
annotated_union true ts = join (union_of ts) null
annotated_union false ts = union_of ts

-- The type that the text of a node says, over the types of its children.
unfoldable pub type_of : Head → Nodes → List StaticType → StaticType
unfolding annotated_union
type_of h ch ts =
    if bytes_beq h.str (codes "null")
    then null
    else if bytes_beq h.str (codes "bool")
    then bool
    else if bytes_beq h.str (codes "int")
    then int
    else if bytes_beq h.str (codes "float")
    then float
    else if bytes_beq h.str (codes "string")
    then string
    else if bytes_beq h.str (codes "list")
    then list_of (type_at ts 0)
    else if bytes_beq h.str (codes "map")
    then map_of (type_at ts 0) (type_at ts 1)
    else if bytes_beq h.str (codes "Object")
    then object_of (name_in (first_child ch))
    else if bytes_beq h.str (codes "arrow")
    then arrow_of (from_list (all_but_last ts)) (last_or_any ts)
    else if bytes_beq h.str (codes "group")
    then type_at ts 0
    else if bytes_beq h.str (codes "union")
    then annotated_union h.flag ts
    else any

unfoldable mutual
  unfolding type_of

  pub from_ast : Node → StaticType
  from_ast (node h ch) = let ts = from_asts ch in if is_type h.kind then type_of h ch ts else any

  pub from_asts : Nodes → List StaticType
  from_asts end = []
  from_asts (gap ns) = any ∷ from_asts ns
  from_asts (child n ns) = from_ast n ∷ from_asts ns

pub record Scope : Type 0 where
  pub vars : Assoc Bytes StaticType
  pub parents : List (Assoc Bytes StaticType)

unfoldable pub new_scope : Scope → Scope
new_scope s = record { vars = []; parents = s.vars ∷ s.parents }

abbrev in_frames : Bytes → List (Assoc Bytes StaticType) → Option StaticType
in_frames name [] = none
in_frames name (f ∷ fs) = elim (lookup name f) [ none ↦ in_frames name fs | some t ↦ some t ]

unfoldable pub lookup_name : Bytes → Scope → Option StaticType
lookup_name name s = in_frames name (s.vars ∷ s.parents)

unfoldable pub set_name : Bytes → StaticType → Scope → Scope
unfolding insert
set_name name t s = record s { vars = insert name t s.vars }

abbrev or_any : Option StaticType → StaticType
or_any none = any
or_any (some t) = t

-- The test `x is ...` on a name of this type.
unfoldable pub narrow_name : Head → Bytes → StaticType → Scope → Scope
unfolding set_name remove_null narrow_to narrow_to_collection
narrow_name h name cur s =
    if bytes_beq h.str (codes "null") || bytes_beq h.str (codes "none")
    then set_name name (if h.flag then remove_null cur else null) s
    else if bytes_beq h.str (codes "int")
    then set_name name (narrow_to cur int h.flag) s
    else if bytes_beq h.str (codes "float")
    then set_name name (narrow_to cur float h.flag) s
    else if bytes_beq h.str (codes "string")
    then set_name name (narrow_to cur string h.flag) s
    else if bytes_beq h.str (codes "bool")
    then set_name name (narrow_to cur bool h.flag) s
    else if bytes_beq h.str (codes "iterable") || bytes_beq h.str (codes "sequence")
    then if h.flag then s else set_name name (narrow_to_collection cur (list_of any)) s
    else if bytes_beq h.str (codes "mapping")
    then if h.flag then s else set_name name (narrow_to_collection cur (map_of any any)) s
    else s

abbrev is_name : Kind → Bool
is_name kind_name = true
is_name _ = false

abbrev narrow_subject : Head → Option Node → Scope → Scope
narrow_subject h none s = s
narrow_subject h (some n) s =
    if is_name (head_of n).kind
    then narrow_name h (head_of n).str (or_any (lookup_name (head_of n).str s)) s
    else s

unfoldable pub narrow_test : Head → Nodes → Scope → Scope
unfolding narrow_name lookup_name
narrow_test h ch s = narrow_subject h (first_child ch) s

abbrev is_test : Kind → Bool
is_test kind_test = true
is_test _ = false

abbrev is_logical : Kind → Bool
is_logical kind_logical = true
is_logical _ = false

-- `narrow_firsts` narrows by so many children of an `and`.
unfoldable mutual
  unfolding narrow_test

  pub narrow_true : Node → Scope → Scope
  narrow_true (node h ch) s =
      let both = narrow_firsts ch 2 s in
      if is_test h.kind
      then narrow_test h ch s
      else if is_logical h.kind && bytes_beq h.str (codes "and")
      then both
      else s

  narrow_firsts : Nodes → ℕ → Scope → Scope
  narrow_firsts end k s = s
  narrow_firsts (gap ns) zero s = s
  narrow_firsts (gap ns) (suc k) s = narrow_firsts ns k s
  narrow_firsts (child n ns) zero s = s
  narrow_firsts (child n ns) (suc k) s = narrow_firsts ns k (narrow_true n s)
