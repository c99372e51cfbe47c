-- ===== src/Runtime/Iterate.antt =====
-- What a for loop walks, pkg/runtime/iterate.go. The shape tests of a dangling address are those of nil.
use quill_template_engine.Prelude.{
  Bool, true, false, not, none, some, List, [], if◌then◌else◌, get_elem?,
}
use quill_template_engine.Errors.{kind_iteration, Result, ok, err}
use quill_template_engine.Runtime.Value.{Value, arr, obj, Pair}
use quill_template_engine.Runtime.Array.{pairs, is_list}
use quill_template_engine.Runtime.Heap.{Heap}
use quill_template_engine.Runtime.Host.{Host}

module _ {F O : Type 0} where
  unfoldable pub non_iterable : Bool → Result (List (Pair F O))
  non_iterable lenient = if lenient then ok [] else err kind_iteration

  unfoldable pub is_sequence : Value F O → Heap F O → Bool
  is_sequence (arr (some x)) h = elim (get_elem? h x) [ none ↦ false | some a ↦ is_list a ]
  is_sequence v h = false

  unfoldable pub is_mapping : Value F O → Heap F O → Bool
  is_mapping (arr (some x)) h = elim (get_elem? h x) [ none ↦ false | some a ↦ not (is_list a) ]
  is_mapping (obj o) h = true
  is_mapping v h = false

module _ {F O : Type 0} (host : Host F O) where
  unfoldable pub ensure_traversable : Value F O → Bool → Heap F O → Result (List (Pair F O))
  unfolding non_iterable
  ensure_traversable (arr none) lenient h = ok []
  ensure_traversable (arr (some x)) lenient h = elim (get_elem? h x) [
    | none ↦ ok []
    | some a ↦ ok (pairs a)
  ]
  ensure_traversable (obj o) lenient h = elim (host.iterable o) [
    | none ↦ non_iterable lenient
    | some ps ↦ ok ps
  ]
  ensure_traversable v lenient h = non_iterable lenient
