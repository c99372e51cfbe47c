-- ===== src/Tests/Policies.antt =====
-- Security policies over a type graph with a cycle.
use quill_template_engine.Prelude.{
  true, some, [], ◌∷◌, codes, bytes_eq, mem, distinct, ◌≡◌, ◌↔◌, Bytes,
}
use quill_template_engine.Sandbox.{
  TypeGraph, ancestors, declare_type, new_type_graph, Policy, empty_policy, allow_methods,
  with_type_graph, allows_method, names_at,
}
use quill_template_engine.Sandbox.Closure.{Ancestor, ancestors_exact}
use quill_template_engine.Sandbox.Access.{Covers, allows_method_iff}

-- User and Account are supertypes of each other.
abbrev circular : TypeGraph
circular =
    declare_type (codes "User") (codes "Account" ∷ codes "Named" ∷ [])
      (declare_type (codes "Account") (codes "User" ∷ []) new_type_graph)

abbrev policy : Policy
policy = with_type_graph circular (allow_methods (codes "Named") (codes "name" ∷ []) empty_policy)

ancestors_exact_example :
    ((w : Bytes)
      → (mem w (ancestors (some circular) (codes "User")) ≡ true)
        ↔ Ancestor circular (codes "User") w)
    × (distinct (ancestors (some circular) (codes "User")) ≡ true)
ancestors_exact_example = ancestors_exact circular (codes "User")

allows_method_iff_example : (allows_method policy (codes "User") (codes "name") ≡ true) ↔ (
    (u : Bytes) × Covers policy.graph (codes "User") u
    × (mem (codes "name") (names_at u policy.methods) ≡ true))
allows_method_iff_example = allows_method_iff policy (codes "User") (codes "name")
