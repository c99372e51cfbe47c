-- ===== src/Runtime/Loop/Fields.antt =====
-- The fields of neighbouring iterations.
use quill_template_engine.Prelude.{
  ℕ, ◌+◌, ◌<◌, false, Option, some, List, String, codes, bytes_beq, length, get_elem?, ◌≡◌, refl,
  arith,
}
use quill_template_engine.Runtime.Value.{Value, bool, Pair}
use quill_template_engine.Runtime.Loop.{LoopInfo, new_loop_value, new_loop_cursor, at, get_field}

module _ {F O : Type 0} where
  -- A cursor moved to `i` reads exactly as a loop value made fresh for `i`, in every field.
  pub at-new_loop_value :
      (i j : ℕ) (pairs : List (Pair F O)) (parent : Option (Value F O))
      → at i (at j (new_loop_cursor pairs parent)) ≡ new_loop_value i pairs parent
  unfolding at new_loop_cursor new_loop_value
  at-new_loop_value i j pairs parent = refl

  abbrev pub field_of : String → LoopInfo F O → Option (Value F O)
  field_of name li = get_field (codes name) li

  -- Between two neighbouring iterations of a loop, `next` of the first is the value of the
  -- second, `prev` of the second the value of the first, the first is not `last` and the second
  -- is not `first`.
  pub neighbours :
      (i : ℕ) (pairs : List (Pair F O)) (parent : Option (Value F O)) (p q : Pair F O)
      → get_elem? pairs i ≡ some p
      → get_elem? pairs (i + 1) ≡ some q
      → i + 1 < length pairs
      → (field_of "next" (new_loop_value i pairs parent) ≡ some q.val)
        × (field_of "prev" (new_loop_value (i + 1) pairs parent) ≡ some p.val)
        × (field_of "last" (new_loop_value i pairs parent) ≡ some (bool false))
        × (field_of "first" (new_loop_value (i + 1) pairs parent) ≡ some (bool false))
  unfolding get_field new_loop_value bytes_beq
  neighbours i pairs parent p q hp hq h = (ground arith, ground arith, ground arith, ground arith)
