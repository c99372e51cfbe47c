-- ===== src/Tests/Assignments.antt =====
-- Assignments along paths.
use quill_template_engine.Prelude.{ℕ, true, false, none, some, [], ◌∷◌, codes, ◌≡◌, refl, bytes_beq}
use quill_template_engine.Prelude.Assoc.{lookup, insert}
use quill_template_engine.Errors.{ok}
use quill_template_engine.Strconv.{all_digits}
use quill_template_engine.Runtime.Keys.{
  canonicalize_string_key, parse_canonical_int, looks_canonical_int,
}
use quill_template_engine.Runtime.Value.{Value, null, arr, as_str}
use quill_template_engine.Runtime.Array.{Array, set_str, set, get_str}
use quill_template_engine.Runtime.Heap.{Heap, own}
use quill_template_engine.Runtime.Attribute.{get_dot, set_member}
use quill_template_engine.Runtime.Attribute
use quill_template_engine.Runtime.Scope.{Scope}
use quill_template_engine.Runtime.Scope
use quill_template_engine.Interp.Assign.{Names, name, attr, attr_target, assign_member}
use quill_template_engine.Interp.Assign.Marks.{KeepsMarked}
use quill_template_engine.Interp.Assign.Paths.{assign_member-KeepsMarked}
use quill_template_engine.Tests.{host, num}

abbrev no_macros : Names ℕ
no_macros = record { macro_ref = λ n. none; strict = true }

-- a = { x: null, y: { k: 0 } }, the outer array marked where `m` says so.
abbrev inner : Array ℕ ℕ
inner = record { keys = codes "k" ∷ []; vals = (codes "k", num 0) ∷ []; shared = false }

abbrev nested : Array ℕ ℕ
nested = record {
  keys = codes "x" ∷ codes "y" ∷ [];
  vals = (codes "x", null) ∷ (codes "y", arr (some 1)) ∷ [];
  shared = false;
}

abbrev marked : Heap ℕ ℕ
marked = record nested { shared = true } ∷ inner ∷ []

abbrev root_at : ℕ → Scope (Value ℕ ℕ)
root_at x = record {
  top = record { entries = record { name = codes "a"; val = arr (some x) } ∷ []; spill = none };
  parents = [];
}

abbrev written : Array ℕ ℕ
written = record { keys = codes "k" ∷ []; vals = (codes "k", num 7) ∷ []; shared = false }

abbrev after : Heap ℕ ℕ
after =
    record nested { shared = true }
    ∷ record inner { shared = true }
    ∷ record nested { vals = (codes "x", null) ∷ (codes "y", arr (some 3)) ∷ [] }
    ∷ written
    ∷ []

-- A marked array is copied before the write, and its element after it.
copied :
    assign_member host no_macros
      (attr_target (attr (name (codes "a")) (codes "y")) (codes "k"))
      (num 7)
      (root_at 0, marked)
    ≡ ok (root_at 2, after)
unfolding assign_member Scope.get Scope.lookup_frame bytes_beq own Attribute.get_attribute get_dot
    get_str lookup canonicalize_string_key parse_canonical_int looks_canonical_int as_str all_digits
    set_member Scope.set_owned set_str set insert
copied = refl

-- Where @set a.x = a.y has put one unmarked array into both members, @set a.y.k = 7 writes to the
-- array that a.x holds too.
aliased :
    assign_member host no_macros
      (attr_target (attr (name (codes "a")) (codes "y")) (codes "k"))
      (num 7)
      (
        root_at 0,
        record nested { vals = (codes "x", arr (some 1)) ∷ (codes "y", arr (some 1)) ∷ [] }
            ∷ inner
            ∷ [],
      )
    ≡ ok (
      root_at 0,
      record nested { vals = (codes "x", arr (some 1)) ∷ (codes "y", arr (some 1)) ∷ [] }
          ∷ written
          ∷ [],
    )
unfolding assign_member Scope.get Scope.lookup_frame bytes_beq own Attribute.get_attribute get_dot
    get_str lookup canonicalize_string_key parse_canonical_int looks_canonical_int as_str all_digits
    set_member set_str set insert
aliased = refl

assign_member-KeepsMarked_example : KeepsMarked marked after
assign_member-KeepsMarked_example =
    assign_member-KeepsMarked host no_macros
      (attr_target (attr (name (codes "a")) (codes "y")) (codes "k")) (num 7) (root_at 0)
      (root_at 2) marked after copied
