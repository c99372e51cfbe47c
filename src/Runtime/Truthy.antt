-- ===== src/Runtime/Truthy.antt =====
-- Truthiness and emptiness, pkg/runtime/truthy.go. A float is tested against `float64(0)`.
use quill_template_engine.Prelude.{
  ℕ, Bool, true, false, not, none, some, ◌==◌, length, get_elem?, ◌≡◌, refl,
}
use quill_template_engine.Prelude.Int.{pos, int_beq}
use quill_template_engine.Runtime.Value.{Value, null, bool, int, float, str, arr, obj, safe}
use quill_template_engine.Runtime.Array.{len}
use quill_template_engine.Runtime.Heap.{Heap}
use quill_template_engine.Runtime.Host.{Host}

module _ {F O : Type 0} where
  -- `v.arr.Len()` at an address
  unfoldable pub len_at : ℕ → Heap F O → ℕ
  unfolding len
  len_at x h = elim (get_elem? h x) [ none ↦ 0 | some a ↦ len a ]

  unfoldable pub empty : Value F O → Heap F O → Bool
  unfolding len_at
  empty null h = true
  empty (str s) h = length s == 0
  empty (arr none) h = true
  empty (arr (some x)) h = len_at x h == 0
  empty (safe s) h = length s == 0
  empty v h = false

module _ {F O : Type 0} (host : Host F O) where
  unfoldable pub truthy : Value F O → Heap F O → Bool
  unfolding len_at
  truthy null h = false
  truthy (bool b) h = b
  truthy (int i) h = not (int_beq i (pos 0))
  truthy (float f) h = not (host.float_eq f (host.float_of_int (pos 0)))
  truthy (str s) h = not (length s == 0)
  truthy (arr none) h = false
  truthy (arr (some x)) h = not (len_at x h == 0)
  truthy (obj o) h = true
  truthy (safe s) h = not (length s == 0)

  -- The kinds that have a length.
  abbrev HasLength : Value F O → Type 0
  HasLength (str s) = Unit
  HasLength (arr a) = Unit
  HasLength (safe s) = Unit
  HasLength v = ⊥

  truthy-empty : (v : Value F O) (h : Heap F O) → HasLength v → truthy v h ≡ not (empty v h)
  unfolding truthy empty
  truthy-empty (arr none) h l = refl
  truthy-empty (arr (some x)) h l = refl
  truthy-empty (str s) h l = refl
  truthy-empty (safe s) h l = refl
  truthy-empty null h l = absurd l
  truthy-empty (bool b) h l = absurd l
  truthy-empty (int i) h l = absurd l
  truthy-empty (float f) h l = absurd l
  truthy-empty (obj o) h l = absurd l
