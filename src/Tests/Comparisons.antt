-- ===== src/Tests/Comparisons.antt =====
-- Comparisons and searches.
use mathlib.Core.Bool.{false≢true}
use mathlib.Core.Option.{some-injective}
use quill_template_engine.Prelude.{
  ℕ, suc, zero, true, false, some, [], ◌∷◌, codes, ◌≡◌, ◌≢◌, refl, ◌↔◌, arith, ltb, is_some, ◌&&◌,
  ◌||◌, ◌==◌, ap, none, List, ◌+◌, sym,
}
use quill_template_engine.Prelude.Int.{ℤ, pos, negsuc}
use quill_template_engine.Prelude.Assoc.{lookup}
use quill_template_engine.Errors.{ok}
use quill_template_engine.Runtime.Value.{arr, Pair, bool}
use quill_template_engine.Runtime.Array.{new_array}
use quill_template_engine.Runtime.Heap.{Heap}
use quill_template_engine.Runtime.Text.{contains_string}
use quill_template_engine.Runtime.Text.Contains.{Occurs, contains_string_iff}
use quill_template_engine.Runtime.Compare.{equal, order, level, object_equal, is_numeric}
use quill_template_engine.Runtime.Compare.Symmetry.{equal_comm}
use quill_template_engine.Runtime.Compare.Total.{IsRanked, IsClosed, equal_total, equal_refl}
use quill_template_engine.Runtime.Compare.Ordering.{
  order_flip, flip_result, order_rounds, order_defined, is_defined, is_text,
}
use quill_template_engine.Runtime.Loop.{new_loop_value}
use quill_template_engine.Runtime.Loop.Fields.{field_of, neighbours}
use quill_template_engine.Tests.{host, num, text}

contains_string_iff_example :
    (contains_string (codes "banana") (codes "nan") ≡ true) ↔ Occurs (codes "nan") (codes "banana")
contains_string_iff_example = contains_string_iff (codes "banana") (codes "nan")

abbrev heap : Heap ℕ ℕ
heap = new_array ∷ []

test_comm : (x y : ℕ) → (x == y) ≡ (y == x)
test_comm x y = ground arith

objects_comm : (x y : ℕ) → object_equal host x y ≡ object_equal host y x
unfolding object_equal
objects_comm x y = ground arith

equal_comm_example : equal host 2 heap (arr (some 0)) text ≡ equal host 2 heap text (arr (some 0))
equal_comm_example = equal_comm host test_comm objects_comm 2 heap (arr (some 0)) text

heap-IsRanked : IsRanked (λ x. 0) heap
unfolding lookup new_array
heap-IsRanked zero a e enc = ground arith
heap-IsRanked (suc x) a e enc = cc

heap-IsClosed : IsClosed heap
unfolding lookup new_array
heap-IsClosed zero a e enc = rw (sym (some-injective new_array a e)) tt
heap-IsClosed (suc x) a e enc = absurd (false≢true (ap is_some e))

test_refl : (x : ℕ) → (x == x) ≡ true
test_refl x = ground arith

objects_refl : (x : ℕ) → object_equal host x x ≡ true
unfolding object_equal
objects_refl x = ground arith

equal_total_example : is_some (equal host 2 heap (arr (some 0)) (arr (some 0))) ≡ true
equal_total_example =
    equal_total host (λ x. 0) heap heap-IsRanked 2 (arr (some 0)) (arr (some 0)) (omega arith)

equal_refl_example : equal host 2 heap (arr (some 0)) (arr (some 0)) ≡ some true
equal_refl_example =
    equal_refl host (λ x. 0) heap heap-IsRanked test_refl objects_refl heap-IsClosed 2
      (arr (some 0)) (omega arith) refl

test_asymm : (x y : ℕ) → ltb x y ≡ true → ltb y x ≡ false
test_asymm x y h = ground arith

test_irrefl : (x : ℕ) → ltb x x ≡ false
test_irrefl x = ground arith

order_defined_example :
    is_defined (order host text (num 1))
    ≡ (is_numeric text && is_numeric (num 1)) || (is_text text && is_text (num 1))
order_defined_example = order_defined host text (num 1)

order_flip_example : order host (num 2) (num 1) ≡ flip_result (order host (num 1) (num 2))
order_flip_example = order_flip host (num 1) (num 2) test_asymm

abbrev magnitude : ℤ → ℕ
magnitude (pos n) = n
magnitude (negsuc n) = n

pos_value : {m n : ℕ} → pos m ≡ pos n → m ≡ n
pos_value e = ap magnitude e

far_apart : pos 9007199254740992 ≢ pos 9007199254740993
far_apart e = omega (arith, pos_value e)

order_rounds_example :
    (order host (num 9007199254740992) (num 9007199254740993) ≡ ok level)
    × (equal host 1 heap (num 9007199254740992) (num 9007199254740993) ≡ some false)
order_rounds_example =
    order_rounds host (pos 9007199254740992) (pos 9007199254740993) 0 heap test_irrefl refl
      far_apart

abbrev entry : ℕ → Pair ℕ ℕ
entry n = record { key = num n; val = num (n + 10) }

abbrev entries : List (Pair ℕ ℕ)
entries = entry 0 ∷ entry 1 ∷ []

neighbours_example :
    (field_of "next" (new_loop_value 0 entries none) ≡ some (num 11))
    × (field_of "prev" (new_loop_value 1 entries none) ≡ some (num 10))
    × (field_of "last" (new_loop_value 0 entries none) ≡ some (bool false))
    × (field_of "first" (new_loop_value 1 entries none) ≡ some (bool false))
neighbours_example = neighbours 0 entries none (entry 0) (entry 1) refl refl (omega arith)
