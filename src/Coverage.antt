-- ===== src/Coverage.antt =====
-- internal/covercore: what a coverage collector records, core.go and seed.go, without its lock. The Core
-- exists. A counter is an int64.

pub mod Counts
use mathlib.Core.Option.{some-injective}
use quill_template_engine.Prelude.{
  ℕ, zero, suc, Bool, true, false, leb, ◌&&◌, ◌==◌, Option, none, some, List, [], ◌∷◌, Bytes,
  bytes_eq, bytes_beq, if◌then◌else◌, get_elem?, Eq, is_some, mem, ◌≡◌, ◌↔◌, refl, arith, ap, sym,
  ◌∙◌, ==_iff, bytes_beq_iff,
}
use quill_template_engine.Prelude.Assoc.{Assoc, lookup, insert}
use quill_template_engine.Prelude.Int.{ℤ, pos, wrap, ◌+ℤ◌}
use quill_template_engine.Source.{Source}
use quill_template_engine.Ast.{
  Kind, Head, Node, node, Nodes, end, child, gap, kind_apply, kind_block, kind_cache,
  kind_call_block, kind_capture, kind_clause, kind_coalesce, kind_do, kind_elvis, kind_embed,
  kind_escape, kind_for, kind_guard, kind_if, kind_include, kind_log, kind_macro, kind_print,
  kind_provide, kind_sandbox, kind_set, kind_tab_block, kind_ternary, kind_text, kind_verbatim,
  kind_with, kind_yield,
}

pub data RegionKind : Type 0 where
  region_invalid unit_print unit_text unit_set unit_do unit_with unit_apply unit_escape unit_sandbox
        unit_cache unit_guard_tag unit_include unit_embed unit_block unit_macro unit_if unit_for
        unit_log unit_tab_block unit_provide unit_yield unit_call_block if_then if_not_taken if_else
        for_body for_empty tern_then tern_else elvis_left elvis_right coal_left coal_right guard_yes
        guard_no :
      RegionKind

-- The number that iota gives a kind.
unfoldable pub ordinal : RegionKind → ℕ
ordinal region_invalid = 0
ordinal unit_print = 1
ordinal unit_text = 2
ordinal unit_set = 3
ordinal unit_do = 4
ordinal unit_with = 5
ordinal unit_apply = 6
ordinal unit_escape = 7
ordinal unit_sandbox = 8
ordinal unit_cache = 9
ordinal unit_guard_tag = 10
ordinal unit_include = 11
ordinal unit_embed = 12
ordinal unit_block = 13
ordinal unit_macro = 14
ordinal unit_if = 15
ordinal unit_for = 16
ordinal unit_log = 17
ordinal unit_tab_block = 18
ordinal unit_provide = 19
ordinal unit_yield = 20
ordinal unit_call_block = 21
ordinal if_then = 22
ordinal if_not_taken = 23
ordinal if_else = 24
ordinal for_body = 25
ordinal for_empty = 26
ordinal tern_then = 27
ordinal tern_else = 28
ordinal elvis_left = 29
ordinal elvis_right = 30
ordinal coal_left = 31
ordinal coal_right = 32
ordinal guard_yes = 33
ordinal guard_no = 34

unfoldable pub is_branch_arm : RegionKind → Bool
unfolding ordinal
is_branch_arm k = leb (ordinal if_then) (ordinal k)

-- The regions that a node of a kind seeds at its own position, in order.
unfoldable pub region_kinds : Kind → List RegionKind
region_kinds kind_text = unit_text ∷ []
region_kinds kind_verbatim = unit_text ∷ []
region_kinds kind_print = unit_print ∷ []
region_kinds kind_set = unit_set ∷ []
region_kinds kind_capture = unit_set ∷ []
region_kinds kind_do = unit_do ∷ []
region_kinds kind_with = unit_with ∷ []
region_kinds kind_apply = unit_apply ∷ []
region_kinds kind_escape = unit_escape ∷ []
region_kinds kind_sandbox = unit_sandbox ∷ []
region_kinds kind_cache = unit_cache ∷ []
region_kinds kind_include = unit_include ∷ []
region_kinds kind_embed = unit_embed ∷ []
region_kinds kind_block = unit_block ∷ []
region_kinds kind_macro = unit_macro ∷ []
region_kinds kind_log = unit_log ∷ []
region_kinds kind_tab_block = unit_tab_block ∷ []
region_kinds kind_provide = unit_provide ∷ []
region_kinds kind_yield = unit_yield ∷ []
region_kinds kind_call_block = unit_call_block ∷ []
region_kinds kind_if = unit_if ∷ []
region_kinds kind_for = unit_for ∷ for_body ∷ for_empty ∷ []
region_kinds kind_guard = unit_guard_tag ∷ guard_yes ∷ guard_no ∷ []
region_kinds kind_ternary = tern_then ∷ tern_else ∷ []
region_kinds kind_elvis = elvis_left ∷ elvis_right ∷ []
region_kinds kind_coalesce = coal_left ∷ coal_right ∷ []
region_kinds _ = []

abbrev pub is_if : Kind → Bool
is_if kind_if = true
is_if _ = false

abbrev pub is_clause : Kind → Bool
is_clause kind_clause = true
is_clause _ = false

all_kinds : List RegionKind
all_kinds =
    region_invalid ∷ unit_print ∷ unit_text ∷ unit_set ∷ unit_do ∷ unit_with ∷ unit_apply
    ∷ unit_escape ∷ unit_sandbox ∷ unit_cache ∷ unit_guard_tag ∷ unit_include ∷ unit_embed
    ∷ unit_block ∷ unit_macro ∷ unit_if ∷ unit_for ∷ unit_log ∷ unit_tab_block ∷ unit_provide
    ∷ unit_yield ∷ unit_call_block ∷ if_then ∷ if_not_taken ∷ if_else ∷ for_body ∷ for_empty
    ∷ tern_then ∷ tern_else ∷ elvis_left ∷ elvis_right ∷ coal_left ∷ coal_right ∷ guard_yes
    ∷ guard_no ∷ []

get_elem?-ordinal : (k : RegionKind) → get_elem? all_kinds (ordinal k) ≡ some k
unfolding ordinal all_kinds
get_elem?-ordinal region_invalid = refl
get_elem?-ordinal _ = refl

unfoldable pub kind_beq : RegionKind → RegionKind → Bool
kind_beq j k = ordinal j == ordinal k

pub kind_beq_iff : (j k : RegionKind) → (kind_beq j k ≡ true) ↔ (j ≡ k)
unfolding kind_beq
kind_beq_iff j k = (
  λ h. some-injective j k (
      sym (get_elem?-ordinal j)
      ∙ ap (get_elem? all_kinds) ((==_iff (ordinal j) (ordinal k)).0 h)
      ∙ get_elem?-ordinal k),
  λ e. (==_iff (ordinal j) (ordinal k)).1 (ap ordinal e),
)

pub record RegionId : Type 0 where
  pub tmpl : Bytes
  pub line : ℕ
  pub col : ℕ
  pub kind : RegionKind

unfoldable pub id_beq : RegionId → RegionId → Bool
id_beq a b =
    bytes_beq a.tmpl b.tmpl && (a.line == b.line && (a.col == b.col && kind_beq a.kind b.kind))

pub id_beq_iff : (a b : RegionId) → (id_beq a b ≡ true) ↔ (a ≡ b)
unfolding id_beq
id_beq_iff a b = ground (arith, bytes_beq_iff a.tmpl b.tmpl, kind_beq_iff a.kind b.kind)

instance abbrev pub id_eq : Eq RegionId
id_eq = record { beq = id_beq; beq_iff = id_beq_iff }

pub record MacroSeedId : Type 0 where
  pub tmpl : Bytes
  pub line : ℕ
  pub col : ℕ

unfoldable pub macro_beq : MacroSeedId → MacroSeedId → Bool
macro_beq a b = bytes_beq a.tmpl b.tmpl && (a.line == b.line && a.col == b.col)

pub macro_beq_iff : (a b : MacroSeedId) → (macro_beq a b ≡ true) ↔ (a ≡ b)
unfolding macro_beq
macro_beq_iff a b = ground (arith, bytes_beq_iff a.tmpl b.tmpl)

instance abbrev pub macro_eq : Eq MacroSeedId
macro_eq = record { beq = macro_beq; beq_iff = macro_beq_iff }

-- A map to true is the list of its keys.
pub record Core : Type 0 where
  pub regions : Assoc RegionId ℤ
  pub seeded_full : List Bytes
  pub seeded_macro : List MacroSeedId
  pub sources : Assoc Bytes Bytes

unfoldable pub new_core : Core
new_core = record { regions = []; seeded_full = []; seeded_macro = []; sources = [] }

abbrev pub or_zero : Option ℤ → ℤ
or_zero none = pos 0
or_zero (some n) = n

unfoldable pub region_at : Bytes → Head → RegionKind → RegionId
region_at name h kind = record { tmpl = name; line = h.line; col = h.col; kind = kind }

-- The counter that `region` finds or makes, one higher in int64.
unfoldable pub hit : Bytes → Head → RegionKind → Core → Core
unfolding region_at lookup insert wrap ◌+ℤ◌
hit name h kind c =
    let id = region_at name h kind in
    record c { regions = insert id (wrap (or_zero (lookup id c.regions) +ℤ pos 1)) c.regions }

unfoldable pub seed : Bytes → Head → RegionKind → Core → Core
unfolding region_at lookup insert
seed name h kind c =
    let id = region_at name h kind in
    if is_some (lookup id c.regions) then c else record c { regions = insert id (pos 0) c.regions }

unfoldable pub seed_kinds : Bytes → Head → List RegionKind → Core → Core
unfolding seed
seed_kinds name h [] c = c
seed_kinds name h (k ∷ ks) c = seed_kinds name h ks (seed name h k c)

abbrev pub clause_kinds : Bool → List RegionKind
clause_kinds true = if_then ∷ if_not_taken ∷ []
clause_kinds false = if_else ∷ []

unfoldable pub seed_if_arms : Bytes → Nodes → Core → Core
unfolding seed_kinds
seed_if_arms name end c = c
seed_if_arms name (gap ns) c = seed_if_arms name ns c
seed_if_arms name (child (node h ch) ns) c =
    seed_if_arms name ns (if is_clause h.kind then seed_kinds name h (clause_kinds h.flag) c else c)

unfoldable pub seed_node : Bytes → Head → Nodes → Core → Core
unfolding seed_kinds region_kinds seed_if_arms
seed_node name h ch c =
    let own = seed_kinds name h (region_kinds h.kind) c in
    if is_if h.kind then seed_if_arms name ch own else own

unfoldable mutual
  unfolding seed_node

  pub seed_walk : Bytes → Node → Core → Core
  seed_walk name (node h ch) c = seed_children name ch (seed_node name h ch c)

  pub seed_children : Bytes → Nodes → Core → Core
  seed_children name end c = c
  seed_children name (gap ns) c = seed_children name ns c
  seed_children name (child n ns) c = seed_children name ns (seed_walk name n c)

abbrev pub head_of : Node → Head
head_of (node h ch) = h

-- The text of a module, where it has a source.
unfoldable pub keep_source : Bytes → Option Source → Core → Core
unfolding insert
keep_source name none c = c
keep_source name (some s) c = record c { sources = insert name s.code c.sources }

unfoldable pub seed_template : Bytes → Node → Core → Core
unfolding keep_source seed_walk mem
seed_template name root c =
    if mem name c.seeded_full
    then c
    else seed_walk name root
        (keep_source name (head_of root).src (record c { seeded_full = name ∷ c.seeded_full }))

abbrev pub macro_id : Bytes → Head → MacroSeedId
macro_id name h = record { tmpl = name; line = h.line; col = h.col }

-- Behind the captured source.
unfoldable pub seed_new_macro : Bytes → Node → Core → Core
unfolding seed_walk mem
seed_new_macro name macro c =
    let id = macro_id name (head_of macro) in
    if mem id c.seeded_macro
    then c
    else seed_walk name macro (record c { seeded_macro = id ∷ c.seeded_macro })

unfoldable pub seed_macro : Bytes → Node → Node → Core → Core
unfolding keep_source seed_new_macro mem lookup
seed_macro name root macro c =
    if mem name c.seeded_full
    then c
    else seed_new_macro name macro
        (if is_some (lookup name c.sources) then c else keep_source name (head_of root).src c)

unfoldable pub snapshot : Core → Assoc RegionId ℤ × Assoc Bytes Bytes
snapshot c = (c.regions, c.sources)
