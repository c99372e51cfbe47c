-- ===== src/Tests/Arrays.antt =====
-- Arrays, the heap and assignment.
use quill_template_engine.Prelude.{
  ℕ, ◌≤◌, ◌^◌, true, false, some, [], ◌∷◌, ◌++◌, codes, bytes_eq, bytes_beq, mem, get_elem?,
  if◌then◌else◌, map, ◌≡◌, refl, ◌↔◌, arith,
}
use quill_template_engine.Prelude.Assoc.{lookup}
use quill_template_engine.Errors.{ok}
use quill_template_engine.Runtime.Value.{str, arr}
use quill_template_engine.Runtime.Array.{
  Array, new_array, new_list, set_key, get, key_value, pair_at, pairs, is_list, keys_of, len, set,
  set_int, set_all_from,
}
use quill_template_engine.Runtime.Array.Slots.{
  key_text, get-set_key, IsValid, new_array-IsValid, set_key-IsValid,
}
use quill_template_engine.Runtime.Array.Order.{pair_at-pairs, replace_val, pairs-set_key}
use quill_template_engine.Runtime.Array.Shape.{ints_from, is_list_iff, number_from, pairs-new_list}
use quill_template_engine.Runtime.Heap.{Heap, own, share_value, is_shared_at}
use quill_template_engine.Runtime.Heap.Extends.{Extends, own-Extends, share_value-Extends}
use quill_template_engine.Runtime.Heap.Isolation.{own_shared, own-marks_elements}
use quill_template_engine.Runtime.Attribute.{get_index, set_index, is_key}
use quill_template_engine.Runtime.Attribute.Isolation.{own-set_index}
use quill_template_engine.Tests.{host, num, text, two}

two-IsValid : IsValid two
two-IsValid = set_key-IsValid text (num 20) _ (set_key-IsValid (num 1) (num 10) _ new_array-IsValid)

set_key-IsValid_example : IsValid (set_key (num 1) (num 10) new_array)
set_key-IsValid_example = set_key-IsValid (num 1) (num 10) new_array new_array-IsValid

get-set_key_example : get (str (codes "1")) (set_key (num 1) (num 7) two) ≡ (
    if bytes_beq (key_text (num 1)) (key_text {F = ℕ} {O = ℕ} (str (codes "1")))
    then some (num 7)
    else get (str (codes "1")) two)
get-set_key_example = get-set_key (num 1) (str (codes "1")) (num 7) two

pairs-set_key_example : pairs (set_key (num 1) (num 7) two) ≡ (
    if mem (key_text (num 1)) two.keys
    then map (replace_val (key_text (num 1)) (num 7)) (pairs two)
    else pairs two ++ record { key = key_value (key_text (num 1)); val = num 7 } ∷ [])
pairs-set_key_example = pairs-set_key (num 1) (num 7) two two-IsValid

pair_at-pairs_example : pair_at two 1 ≡ get_elem? (pairs two) 1
pair_at-pairs_example = pair_at-pairs two 1

abbrev one : Array ℕ ℕ
one = new_list (text ∷ [])

one_fits : len one ≤ 2 ^ 63
unfolding len new_list set_all_from set_int set new_array lookup
one_fits = omega arith

is_list_iff_example : (is_list one ≡ true) ↔ (keys_of one ≡ ints_from 0 (len one))
is_list_iff_example = is_list_iff one one_fits

pairs-new_list_example : pairs (new_list (text ∷ num 3 ∷ [])) ≡ number_from 0 (text ∷ num 3 ∷ [])
pairs-new_list_example = pairs-new_list (text ∷ num 3 ∷ []) (omega arith)

-- The array at 0 holds the one at 1, and is marked; the other is not.
abbrev outer : Array ℕ ℕ
outer = record { keys = codes "a" ∷ []; vals = (codes "a", arr (some 1)) ∷ []; shared = true }

abbrev heap : Heap ℕ ℕ
heap = outer ∷ new_array ∷ []

own-Extends_example : Extends heap (own (arr (some 0)) heap).2
own-Extends_example = own-Extends (arr (some 0)) heap

share_value-Extends_example : Extends heap (share_value (arr (some 1)) heap).1
share_value-Extends_example = share_value-Extends (arr (some 1)) heap

own_shared_example :
    ((own (arr (some 0)) heap).0 ≡ arr (some 2))
    × ((own (arr (some 0)) heap).1 ≡ true)
    × (get_elem? (own (arr (some 0)) heap).2 2 ≡ some (record outer { shared = false }))
own_shared_example = own_shared 0 outer heap refl refl

own-marks_elements_example : is_shared_at 1 (own (arr (some 0)) heap).2 ≡ true
own-marks_elements_example =
    own-marks_elements 0 outer heap refl refl (codes "a") 1 new_array
      (unfold lookup bytes_beq in refl) refl

own-set_index_example :
    (h' : Heap ℕ ℕ) × (set_index host
        (own (arr (some 0)) heap).0
        (num 5)
        text
        (own (arr (some 0)) heap).2
      ≡ ok h')
    × (get_index host (own (arr (some 0)) heap).0 (num 5) false h' ≡ ok text)
    × Extends heap h'
unfolding is_key
own-set_index_example = own-set_index host 0 outer (num 5) text heap refl refl refl
