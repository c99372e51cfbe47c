-- ===== src/Runtime/Compare/Symmetry.antt =====
-- The operands of `Equal`, swapped.
use quill_template_engine.Prelude.{
  ℕ, zero, suc, Bool, Option, none, some, List, [], ◌∷◌, Bytes, bytes_eq, bytes_beq_iff, length,
  get_elem?, ◌≡◌, refl, arith,
}
use quill_template_engine.Prelude.Assoc.{Assoc, lookup}
use quill_template_engine.Prelude.Int.{int_beq_iff}
use quill_template_engine.Runtime.Value.{
  Value, null, bool, int, float, str, arr, obj, safe, normalize_safe, or_null,
}
use quill_template_engine.Runtime.Array.{Array}
use quill_template_engine.Runtime.Heap.{Heap}
use quill_template_engine.Runtime.Host.{Host}
use quill_template_engine.Runtime.Compare.{
  equal_entries, equal_cells, array_equal, equal_kinds, equal, object_equal,
}

module _ {F O : Type 0} (host : Host F O)
    (float_sym : (x y : F) → host.float_eq x y ≡ host.float_eq y x)
    (object_sym : (o p : O) → object_equal host o p ≡ object_equal host p o) where
  abbrev IsSymmetric : (Value F O → Value F O → Option Bool) → Type 0
  IsSymmetric e = (a b : Value F O) → e a b ≡ e b a

  entries_sym :
      (e : Value F O → Value F O → Option Bool)
      → IsSymmetric e
      → (ks bs : List Bytes) (va vb : Assoc Bytes (Value F O)) → length ks ≡ length bs
      → equal_entries e ks bs va vb ≡ equal_entries e bs ks vb va
  unfolding equal_entries
  entries_sym e s [] [] va vb l = refl
  entries_sym e s (ka ∷ ks) (kb ∷ bs) va vb l = ground (
    arith,
    entries_sym e s ks bs va vb,
    bytes_beq_iff ka kb,
    bytes_beq_iff kb ka,
    s (or_null (lookup ka va)) (or_null (lookup kb vb)),
  )
  entries_sym e s _ _ va vb l = absurd (omega arith)

  cells_sym :
      (e : Value F O → Value F O → Option Bool)
      → IsSymmetric e
      → (a b : Option (Array F O)) → equal_cells e a b ≡ equal_cells e b a
  unfolding equal_cells
  cells_sym e s (some a) (some b) = ground (arith, entries_sym e s a.keys b.keys a.vals b.vals)
  cells_sym e s none none = refl
  cells_sym e s none (some b) = refl
  cells_sym e s (some a) none = refl

  arrays_sym :
      (e : Value F O → Value F O → Option Bool)
      → IsSymmetric e
      → (a b : Option ℕ) (h : Heap F O) → array_equal e a b h ≡ array_equal e b a h
  unfolding array_equal
  arrays_sym e s none none h = refl
  arrays_sym e s (some x) (some y) h = cells_sym e s (get_elem? h x) (get_elem? h y)
  arrays_sym e s none (some y) h = refl
  arrays_sym e s (some x) none h = refl

  kinds_sym :
      (e : Value F O → Value F O → Option Bool)
      → IsSymmetric e
      → (a b : Value F O) (h : Heap F O) → equal_kinds host e a b h ≡ equal_kinds host e b a h
  unfolding equal_kinds
  kinds_sym e s null null h = refl
  kinds_sym e s (arr a) (arr b) h = arrays_sym e s a b h
  kinds_sym e s (float a) (float b) h = ground (arith, float_sym a b)
  kinds_sym e s (float a) (int b) h = ground (arith, float_sym a (host.float_of_int b))
  kinds_sym e s (int a) (float b) h = ground (arith, float_sym b (host.float_of_int a))
  kinds_sym e s (int a) (int b) h = ground (arith, int_beq_iff a b, int_beq_iff b a)
  kinds_sym e s (str a) (str b) h = ground (arith, bytes_beq_iff a b, bytes_beq_iff b a)
  kinds_sym e s (obj a) (obj b) h = ground (arith, object_sym a b)
  kinds_sym e s (bool a) (bool b) h = ground arith
  kinds_sym e s (safe a) null h = refl
  kinds_sym e s _ _ h = refl

  -- Where the host's comparison of floats and of objects is symmetric, Equal of two values is
  -- Equal of them the other way round, at every fuel.
  pub equal_comm :
      (fuel : ℕ) (h : Heap F O) (a b : Value F O) → equal host fuel h a b ≡ equal host fuel h b a
  unfolding equal
  equal_comm zero h a b = refl
  equal_comm (suc fuel) h a b =
      kinds_sym (equal host fuel h) (equal_comm fuel h) (normalize_safe a) (normalize_safe b) h
