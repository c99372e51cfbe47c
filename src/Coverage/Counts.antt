-- ===== src/Coverage/Counts.antt =====
-- internal/covercore/core.go: what the counters of a Core count.
use quill_template_engine.Prelude.{
  ℕ, ◌+◌, false, Option, none, some, List, [], ◌∷◌, Bytes, bytes_eq, is_some, mem, if◌then◌else◌,
  Eq, ◌≡◌, refl, sym, arith, ◌∙◌, Bool-cases, inl, inr,
}
use quill_template_engine.Prelude.Assoc.{Assoc, lookup, insert, lookup-insert}
use quill_template_engine.Prelude.Int.{ℤ, pos, negsuc, IsInt64, wrap, of_word, ◌+ℤ◌}
use quill_template_engine.Source.{Source}
use quill_template_engine.Ast.{Head, Node, node, Nodes, end, child, gap}
use quill_template_engine.Coverage.{
  RegionKind, region_kinds, RegionId, id_eq, macro_eq, Core, or_zero, region_at, hit, seed,
  seed_kinds, clause_kinds, is_clause, is_if, seed_if_arms, seed_node, seed_walk, seed_children,
  head_of, keep_source, seed_template, macro_id, seed_new_macro, seed_macro,
}

-- The counter of a region, zero where it has none.
unfoldable pub hits_at : RegionId → Core → ℤ
hits_at id c = or_zero (lookup id c.regions)

-- What the interpreter calls on a Core.
pub data Event : Type 0 where
  hit_of : Bytes → Head → RegionKind → Event
  template_of : Bytes → Node → Event
  macro_of : Bytes → Node → Node → Event

unfoldable pub record_event : Event → Core → Core
unfolding hit seed_template seed_macro
record_event (hit_of name h kind) c = hit name h kind c
record_event (template_of name root) c = seed_template name root c
record_event (macro_of name root macro) c = seed_macro name root macro c

unfoldable pub record_all : List Event → Core → Core
unfolding record_event
record_all [] c = c
record_all (e ∷ es) c = record_all es (record_event e c)

-- One for a hit of this region.
abbrev pub counted : RegionId → Event → ℕ
counted id (hit_of name h kind) = if id_eq.beq (region_at name h kind) id then 1 else 0
counted id (template_of name root) = 0
counted id (macro_of name root macro) = 0

unfoldable pub hits_of : RegionId → List Event → ℕ
hits_of id [] = 0
hits_of id (e ∷ es) = counted id e + hits_of id es

wrap_zero : (z : ℤ) → IsInt64 z → wrap (z +ℤ pos 0) ≡ z
unfolding wrap of_word ◌+ℤ◌
wrap_zero (pos n) h = ground arith
wrap_zero (negsuc n) h = ground arith

wrap-IsInt64 : (z : ℤ) → IsInt64 (wrap z)
unfolding wrap of_word
wrap-IsInt64 (pos n) = ground arith
wrap-IsInt64 (negsuc n) = ground arith

-- A sum that wraps after each part is the sum that wraps once.
wrap_again : (z : ℤ) (m n : ℕ) → wrap (wrap (z +ℤ pos m) +ℤ pos n) ≡ wrap (z +ℤ pos (m + n))
unfolding wrap of_word ◌+ℤ◌
wrap_again (pos k) m n = ground arith
wrap_again (negsuc k) m n = ground arith

module _ {ℓ} {K : Type ℓ} ⦃e : Eq K⦄ (j k : K) (m : Assoc K ℤ) where
  or_zero-insert-zero :
      is_some (lookup j m) ≡ false → or_zero (lookup k (insert j (pos 0) m)) ≡ or_zero (lookup k m)
  or_zero-insert-zero h = ground (arith, lookup-insert j k (pos 0) m, e.beq_iff j k)

  or_zero-insert-wrap :
      IsInt64 (or_zero (lookup k m))
      → or_zero (lookup k (insert j (wrap (or_zero (lookup j m) +ℤ pos 1)) m))
        ≡ wrap (or_zero (lookup k m) +ℤ pos (if e.beq j k then 1 else 0))
  or_zero-insert-wrap h = ground (
    arith,
    lookup-insert j k (wrap (or_zero (lookup j m) +ℤ pos 1)) m,
    e.beq_iff j k,
    wrap_zero (or_zero (lookup k m)) h,
  )

hits_at-seed :
    (id : RegionId) (name : Bytes) (h : Head) (kind : RegionKind) (c : Core)
    → hits_at id (seed name h kind c) ≡ hits_at id c
unfolding hits_at seed
hits_at-seed id name h kind c =
    elim (Bool-cases (is_some (lookup (region_at name h kind) c.regions))) [
      | inl e ↦ rw e refl
      | inr e ↦ rw e (or_zero-insert-zero (region_at name h kind) id c.regions e)
    ]

hits_at-hit :
    (id : RegionId) (name : Bytes) (h : Head) (kind : RegionKind) (c : Core)
    → IsInt64 (hits_at id c)
    → hits_at id (hit name h kind c) ≡ wrap (hits_at id c +ℤ pos (counted id (hit_of name h kind)))
unfolding hits_at hit
hits_at-hit id name h kind c = or_zero-insert-wrap (region_at name h kind) id c.regions

hits_at-seed_kinds :
    (id : RegionId) (name : Bytes) (h : Head) (ks : List RegionKind) (c : Core)
    → hits_at id (seed_kinds name h ks c) ≡ hits_at id c
unfolding seed_kinds
hits_at-seed_kinds id name h [] c = refl
hits_at-seed_kinds id name h (k ∷ ks) c =
    hits_at-seed_kinds id name h ks (seed name h k c) ∙ hits_at-seed id name h k c

hits_at-seed_if_arms :
    (id : RegionId) (name : Bytes) (ns : Nodes) (c : Core)
    → hits_at id (seed_if_arms name ns c) ≡ hits_at id c
unfolding seed_if_arms
hits_at-seed_if_arms id name end c = refl
hits_at-seed_if_arms id name (gap ns) c = hits_at-seed_if_arms id name ns c
hits_at-seed_if_arms id name (child (node h ch) ns) c = elim (Bool-cases (is_clause h.kind)) [
  | inl e ↦ rw e (
      hits_at-seed_if_arms id name ns (seed_kinds name h (clause_kinds h.flag) c)
      ∙ hits_at-seed_kinds id name h (clause_kinds h.flag) c)
  | inr e ↦ rw e (hits_at-seed_if_arms id name ns c)
]

hits_at-seed_node :
    (id : RegionId) (name : Bytes) (h : Head) (ch : Nodes) (c : Core)
    → hits_at id (seed_node name h ch c) ≡ hits_at id c
unfolding seed_node
hits_at-seed_node id name h ch c = elim (Bool-cases (is_if h.kind)) [
  | inl e ↦ rw e (
      hits_at-seed_if_arms id name ch (seed_kinds name h (region_kinds h.kind) c)
      ∙ hits_at-seed_kinds id name h (region_kinds h.kind) c)
  | inr e ↦ rw e (hits_at-seed_kinds id name h (region_kinds h.kind) c)
]

mutual
  unfolding seed_walk

  pub hits_at-seed_walk :
      (id : RegionId) (name : Bytes) (n : Node) (c : Core)
      → hits_at id (seed_walk name n c) ≡ hits_at id c
  hits_at-seed_walk id name (node h ch) c =
      hits_at-seed_children id name ch (seed_node name h ch c) ∙ hits_at-seed_node id name h ch c

  hits_at-seed_children :
      (id : RegionId) (name : Bytes) (ns : Nodes) (c : Core)
      → hits_at id (seed_children name ns c) ≡ hits_at id c
  hits_at-seed_children id name end c = refl
  hits_at-seed_children id name (gap ns) c = hits_at-seed_children id name ns c
  hits_at-seed_children id name (child n ns) c =
      hits_at-seed_children id name ns (seed_walk name n c) ∙ hits_at-seed_walk id name n c

hits_at-keep_source :
    (id : RegionId) (name : Bytes) (src : Option Source) (c : Core)
    → hits_at id (keep_source name src c) ≡ hits_at id c
unfolding hits_at keep_source
hits_at-keep_source id name none c = refl
hits_at-keep_source id name (some s) c = refl

hits_at-seed_template :
    (id : RegionId) (name : Bytes) (root : Node) (c : Core)
    → hits_at id (seed_template name root c) ≡ hits_at id c
unfolding seed_template
hits_at-seed_template id name root c = elim (Bool-cases (mem name c.seeded_full)) [
  | inl e ↦ rw e refl
  | inr e ↦
      let marked = record c { seeded_full = name ∷ c.seeded_full } in
      rw e (
        hits_at-seed_walk id name root (keep_source name (head_of root).src marked)
        ∙ hits_at-keep_source id name (head_of root).src marked
        ∙ unfold hits_at in refl)
]

hits_at-seed_new_macro :
    (id : RegionId) (name : Bytes) (macro : Node) (c : Core)
    → hits_at id (seed_new_macro name macro c) ≡ hits_at id c
unfolding seed_new_macro
hits_at-seed_new_macro id name macro c =
    elim (Bool-cases (mem (macro_id name (head_of macro)) c.seeded_macro)) [
      | inl e ↦ rw e refl
      | inr e ↦ rw e (
          hits_at-seed_walk id name macro
            (record c { seeded_macro = macro_id name (head_of macro) ∷ c.seeded_macro })
          ∙ unfold hits_at in refl)
    ]

hits_at-seed_macro :
    (id : RegionId) (name : Bytes) (root macro : Node) (c : Core)
    → hits_at id (seed_macro name root macro c) ≡ hits_at id c
unfolding seed_macro
hits_at-seed_macro id name root macro c = elim (Bool-cases (mem name c.seeded_full)) [
  | inl e ↦ rw e refl
  | inr e ↦ elim (Bool-cases (is_some (lookup name c.sources))) [
    | inl k ↦ rw (e, k) (hits_at-seed_new_macro id name macro c)
    | inr k ↦
        rw (e, k)
          (hits_at-seed_new_macro id name macro (keep_source name (head_of root).src c)
            ∙ hits_at-keep_source id name (head_of root).src c)
  ]
]

hits_at-record_event :
    (id : RegionId) (e : Event) (c : Core)
    → IsInt64 (hits_at id c)
    → hits_at id (record_event e c) ≡ wrap (hits_at id c +ℤ pos (counted id e))
unfolding record_event
hits_at-record_event id (hit_of name h kind) c b = hits_at-hit id name h kind c b
hits_at-record_event id (template_of name root) c b =
    hits_at-seed_template id name root c ∙ sym (wrap_zero (hits_at id c) b)
hits_at-record_event id (macro_of name root macro) c b =
    hits_at-seed_macro id name root macro c ∙ sym (wrap_zero (hits_at id c) b)

-- After any sequence of hits, template seeds and macro seeds, in any order, the counter of a
-- region, an int64, is what int64 arithmetic, which wraps around, leaves of what it was plus the
-- number of hits of just that region in the sequence: a seed changes no counter.
pub hits_at-record_all :
    (id : RegionId) (es : List Event) (c : Core)
    → IsInt64 (hits_at id c)
    → hits_at id (record_all es c) ≡ wrap (hits_at id c +ℤ pos (hits_of id es))
unfolding record_all hits_of
hits_at-record_all id [] c b = sym (wrap_zero (hits_at id c) b)
hits_at-record_all id (e ∷ es) c b =
    let step = hits_at-record_event id e c b in
    hits_at-record_all id es (record_event e c)
      (rw step (wrap-IsInt64 (hits_at id c +ℤ pos (counted id e))))
    ∙ rw step (wrap_again (hits_at id c) (counted id e) (hits_of id es))
