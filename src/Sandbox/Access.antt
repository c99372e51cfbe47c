-- ===== src/Sandbox/Access.antt =====
-- The per-type checks beside the type graph.
use mathlib.Core.Bool.{false≢true}
use quill_template_engine.Prelude.{
  true, ◌&&◌, ◌||◌, Option, none, some, List, [], ◌∷◌, ◌++◌, Bytes, bytes_eq, bytes_beq,
  bytes_beq_iff, mem, mem-append, ◌≡◌, refl, arith, Bool-cases, inl, inr, ◌↔◌,
}
use quill_template_engine.Prelude.Assoc.{Assoc, lookup-insert}
use quill_template_engine.Sandbox.{
  TypeGraph, ancestors, Policy, names_at, allowed_on, allow_members, allows_method, allow_methods,
}
use quill_template_engine.Sandbox.Closure.{Ancestor, ancestors_exact}

-- The types that an entry for `t` may stand at.
abbrev pub Covers : Option TypeGraph → Bytes → Bytes → Type 0
Covers none t u = u ≡ t
Covers (some g) t u = Ancestor g t u

mem-ancestors-none : (t u : Bytes) → mem u (ancestors none t) ≡ bytes_beq t u
unfolding ancestors mem
mem-ancestors-none t u = ground arith

mem-ancestors : (g : Option TypeGraph) (t u : Bytes) → (mem u (ancestors g t) ≡ true) ↔ Covers g t u
mem-ancestors (some g) t u = (ancestors_exact g t).0 u
mem-ancestors none t u = (
  λ m. ground (arith, mem-ancestors-none t u, bytes_beq_iff t u),
  λ e. ground (arith, mem-ancestors-none t u, bytes_beq_iff t u),
)

allowed_on-found :
    (m : Assoc Bytes (List Bytes)) (name : Bytes) (ts : List Bytes)
    → allowed_on m name ts ≡ true
    → (u : Bytes) × (mem u ts ≡ true) × (mem name (names_at u m) ≡ true)
unfolding allowed_on mem
allowed_on-found m name [] h = absurd (false≢true h)
allowed_on-found m name (t ∷ ts) h = elim (Bool-cases (mem name (names_at t m))) [
  | inl here ↦ (t, ground (arith, bytes_beq_iff t t), here)
  | inr not_here ↦
      let (u, in_list, has) = allowed_on-found m name ts (ground arith) in (u, ground arith, has)
]

allowed_on-intro :
    (m : Assoc Bytes (List Bytes)) (name u : Bytes) (ts : List Bytes)
    → mem u ts ≡ true
    → mem name (names_at u m) ≡ true
    → allowed_on m name ts ≡ true
unfolding allowed_on mem
allowed_on-intro m name u [] i h = cc
allowed_on-intro m name u (t ∷ ts) i h =
    ground (arith, allowed_on-intro m name u ts, bytes_beq_iff t u)

-- A policy allows a method on a type exactly when the method is in the allowlist of the type itself
-- or, where the policy has a type graph, of a type that a chain of declared supertypes leads to.
pub allows_method_iff :
    (p : Policy) (t method : Bytes)
    → (allows_method p t method ≡ true)
      ↔ ((u : Bytes) × Covers p.graph t u × (mem method (names_at u p.methods) ≡ true))
unfolding allows_method
allows_method_iff p t method = (
  λ h.
      let (u, in_list, has) = allowed_on-found p.methods method (ancestors p.graph t) h in
      (u, (mem-ancestors p.graph t u).0 in_list, has),
  λ (u, covers, has).
      allowed_on-intro p.methods method u (ancestors p.graph t)
        ((mem-ancestors p.graph t u).1 covers) has,
)

names_at-allow_members :
    (t u name : Bytes) (names : List Bytes) (m : Assoc Bytes (List Bytes))
    → mem name (names_at u (allow_members t names m))
      ≡ mem name (names_at u m) || (bytes_beq t u && mem name names)
unfolding names_at allow_members
names_at-allow_members t u name names m = ground (
  arith,
  lookup-insert t u (names ++ names_at t m) m,
  mem-append name names (names_at t m),
  bytes_beq_iff t u,
)

allowed_on-allow_members :
    (t name : Bytes) (names : List Bytes) (m : Assoc Bytes (List Bytes)) (ts : List Bytes)
    → allowed_on (allow_members t names m) name ts
      ≡ allowed_on m name ts || (mem t ts && mem name names)
unfolding allowed_on mem
allowed_on-allow_members t name names m [] = refl
allowed_on-allow_members t name names m (u ∷ ts) = ground (
  arith,
  allowed_on-allow_members t name names m ts,
  names_at-allow_members t u name names m,
  bytes_beq_iff t u,
  bytes_beq_iff u t,
)

allows_method-allow_methods :
    (u : Bytes) (names : List Bytes) (p : Policy) (t method : Bytes)
    → allows_method (allow_methods u names p) t method
      ≡ allows_method p t method || (mem u (ancestors p.graph t) && mem method names)
unfolding allows_method allow_methods
allows_method-allow_methods u names p t method =
    allowed_on-allow_members u method names p.methods (ancestors p.graph t)
