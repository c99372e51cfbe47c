-- ===== src/Runtime/Loop.antt =====
-- The loop.* metadata of pkg/runtime/loopinfo.go. The parent is the value itself, none for a nil
-- pointer: what the pointer names is not written after it is made. Positions are Go ints.
pub mod Fields
use quill_template_engine.Prelude.{
  ℕ, zero, suc, ◌+◌, ◌-◌, Bool, true, false, ◌&&◌, Option, none, some, List, [], ◌∷◌, Bytes, codes,
  bytes_beq, ltb, ◌==◌, if◌then◌else◌, length, get_elem?,
}
use quill_template_engine.Prelude.Int.{ℤ, pos, sub_ℕ}
use quill_template_engine.Errors.{kind_attribute, Result, err}
use quill_template_engine.Runtime.Value.{Value, null, bool, int, float, str, arr, obj, safe, Pair}

pub record LoopInfo (F O : Type 0) : Type 0 where
  pub i : ℕ
  pub n : ℕ
  pub pairs : List (Pair F O)
  pub parent : Option (Value F O)
  pub depth0 : ℕ
  pub recursive : Bool

module _ {F O : Type 0} where
  unfoldable pub new_loop_value : ℕ → List (Pair F O) → Option (Value F O) → LoopInfo F O
  new_loop_value i pairs parent = record {
    i = i;
    n = length pairs;
    pairs = pairs;
    parent = parent;
    depth0 = 0;
    recursive = false;
  }

  unfoldable pub new_recursive_loop_value :
      ℕ → List (Pair F O) → ℕ → Option (Value F O) → LoopInfo F O
  new_recursive_loop_value i pairs depth0 parent = record {
    i = i;
    n = length pairs;
    pairs = pairs;
    parent = parent;
    depth0 = depth0;
    recursive = true;
  }

  -- The reused object of a cursor, at its first position.
  unfoldable pub new_loop_cursor : List (Pair F O) → Option (Value F O) → LoopInfo F O
  new_loop_cursor pairs parent = record {
    i = 0;
    n = length pairs;
    pairs = pairs;
    parent = parent;
    depth0 = 0;
    recursive = false;
  }

  -- `At` writes the index in place.
  unfoldable pub at : ℕ → LoopInfo F O → LoopInfo F O
  at i c = record c { i = i }

  -- li.pairs[k].Val; an index past the end, a fault in the source, does not occur where n is the length.
  abbrev pub val_at : List (Pair F O) → ℕ → Value F O
  val_at ps k = elim (get_elem? ps k) [ none ↦ null | some p ↦ p.val ]

  abbrev pub parent_or_null : Option (Value F O) → Value F O
  parent_or_null none = null
  parent_or_null (some v) = v

  unfoldable pub get_field : Bytes → LoopInfo F O → Option (Value F O)
  get_field name li =
      if bytes_beq name (codes "index0")
      then some (int (pos li.i))
      else if bytes_beq name (codes "index")
      then some (int (pos (li.i + 1)))
      else if bytes_beq name (codes "revindex0")
      then some (int (sub_ℕ li.n (1 + li.i)))
      else if bytes_beq name (codes "revindex")
      then some (int (sub_ℕ li.n li.i))
      else if bytes_beq name (codes "first")
      then some (bool (li.i == 0))
      else if bytes_beq name (codes "last")
      then some (bool (li.i + 1 == li.n))
      else if bytes_beq name (codes "length")
      then some (int (pos li.n))
      else if bytes_beq name (codes "prev")
      then some (if ltb 0 li.i then val_at li.pairs (li.i - 1) else null)
      else if bytes_beq name (codes "next")
      then some (if ltb (li.i + 1) li.n then val_at li.pairs (li.i + 1) else null)
      else if bytes_beq name (codes "parent")
      then some (parent_or_null li.parent)
      else if bytes_beq name (codes "depth")
      then (if li.recursive then some (int (pos (li.depth0 + 1))) else none)
      else if bytes_beq name (codes "depth0")
      then (if li.recursive then some (int (pos li.depth0)) else none)
      else none

  -- loop has no callable members.
  unfoldable pub call_method : Bytes → LoopInfo F O → Result (Value F O)
  call_method name li = err kind_attribute

  unfoldable pub get_index : Value F O → LoopInfo F O → Option (Value F O)
  unfolding get_field
  get_index (str s) li = get_field s li
  get_index key li = none
