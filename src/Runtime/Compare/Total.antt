-- ===== src/Runtime/Compare/Total.antt =====
-- Fuel for `Equal`, and a value beside itself.
use mathlib.Core.Bool.{false≢true}
use quill_template_engine.Prelude.{
  ℕ, zero, suc, ◌<◌, Bool, true, Option, none, some, List, [], ◌∷◌, Bytes, bytes_eq, bytes_beq_iff,
  get_elem?, ◌≡◌, refl, arith, is_some,
}
use quill_template_engine.Prelude.Assoc.{Assoc, lookup}
use quill_template_engine.Prelude.Int.{int_beq_iff}
use quill_template_engine.Runtime.Value.{
  Value, null, bool, int, float, str, arr, obj, safe, normalize_safe, or_null,
}
use quill_template_engine.Runtime.Array.{Array}
use quill_template_engine.Runtime.Heap.{Heap}
use quill_template_engine.Runtime.Host.{Host}
use quill_template_engine.Runtime.Compare.{
  equal_entries, equal_cells, array_equal, equal_kinds, equal, object_equal,
}

module _ {F O : Type 0} where
  -- The rank of a value under a ranking of addresses: above those of the elements.
  abbrev pub rank_of : (ℕ → ℕ) → Value F O → ℕ
  rank_of rank (arr (some x)) = suc (rank x)
  rank_of rank v = 0

  -- Each array's elements rank below it, so no array holds itself at any depth.
  abbrev pub IsRanked : (ℕ → ℕ) → Heap F O → Type 0
  IsRanked rank h =
      (x : ℕ) (a : Array F O)
      → get_elem? h x ≡ some a
      → (enc : Bytes) → rank_of rank (or_null (lookup enc a.vals)) < suc (rank x)

  -- The value's array is on the heap.
  abbrev pub IsLive : Heap F O → Value F O → Type 0
  IsLive h (arr (some x)) = is_some (get_elem? h x) ≡ true
  IsLive h v = Unit

  -- The elements of every array are on the heap.
  abbrev pub IsClosed : Heap F O → Type 0
  IsClosed h =
      (x : ℕ) (a : Array F O)
      → get_elem? h x ≡ some a
      → (enc : Bytes) → IsLive h (or_null (lookup enc a.vals))

module _ {F O : Type 0} (host : Host F O) where
  entries_total :
      (e : Value F O → Value F O → Option Bool) (ks bs : List Bytes)
      (va vb : Assoc Bytes (Value F O))
      → ((enc : Bytes) (b : Value F O) → is_some (e (or_null (lookup enc va)) b) ≡ true)
      → is_some (equal_entries e ks bs va vb) ≡ true
  unfolding equal_entries
  entries_total e [] bs va vb t = refl
  entries_total e (ka ∷ ks) [] va vb t = refl
  entries_total e (ka ∷ ks) (kb ∷ bs) va vb t =
      ground (arith, entries_total e ks bs va vb t, t ka (or_null (lookup kb vb)))

  module _ (rank : ℕ → ℕ) (h : Heap F O) (ranked : IsRanked rank h) where
    cells_total :
        (e : Value F O → Value F O → Option Bool) (x : ℕ) (p q : Option (Array F O))
        → get_elem? h x ≡ p
        → ((a b : Value F O) → rank_of rank a < suc (rank x) → is_some (e a b) ≡ true)
        → is_some (equal_cells e p q) ≡ true
    unfolding equal_cells
    cells_total e x (some a) (some b) found t =
        ground (
          arith,
          entries_total e a.keys b.keys a.vals b.vals (λ enc v. t _ v (ranked x a found enc)),
        )
    cells_total e x none none found t = refl
    cells_total e x none (some b) found t = refl
    cells_total e x (some a) none found t = refl

    kinds_total :
        (e : Value F O → Value F O → Option Bool) (a b : Value F O)
        → ((u v : Value F O) → rank_of rank u < rank_of rank a → is_some (e u v) ≡ true)
        → is_some (equal_kinds host e a b h) ≡ true
    unfolding equal_kinds array_equal
    kinds_total e (arr (some x)) (arr (some y)) t = cells_total e x _ (get_elem? h y) refl t
    kinds_total e (arr none) (arr none) t = refl
    kinds_total e null null t = refl
    kinds_total e (bool a) (bool b) t = refl
    kinds_total e (int a) (int b) t = refl
    kinds_total e (float a) (float b) t = refl
    kinds_total e (str a) (str b) t = refl
    kinds_total e (obj a) (obj b) t = refl
    kinds_total e (safe a) null t = refl
    kinds_total e _ _ t = refl

    rank_of-normalize : (a : Value F O) → rank_of rank (normalize_safe a) ≡ rank_of rank a
    unfolding normalize_safe
    rank_of-normalize null = refl
    rank_of-normalize (safe s) = refl
    rank_of-normalize _ = refl

    -- Where no array of a heap holds itself at any depth, fuel above the rank of the left value
    -- is enough for Equal to give an answer.
    pub equal_total :
        (fuel : ℕ) (a b : Value F O)
        → rank_of rank a < fuel
        → is_some (equal host fuel h a b) ≡ true
    unfolding equal
    equal_total zero a b r = absurd (omega arith)
    equal_total (suc fuel) a b r =
        kinds_total (equal host fuel h) (normalize_safe a) (normalize_safe b)
          (λ u v s. equal_total fuel u v (omega (arith, rank_of-normalize a)))

    module _ (float_refl : (x : F) → host.float_eq x x ≡ true)
        (object_refl : (o : O) → object_equal host o o ≡ true) (closed : IsClosed h) where
      entries_refl :
          (e : Value F O → Value F O → Option Bool) (ks : List Bytes)
          (vals : Assoc Bytes (Value F O))
          → ((enc : Bytes) → e (or_null (lookup enc vals)) (or_null (lookup enc vals)) ≡ some true)
          → equal_entries e ks ks vals vals ≡ some true
      unfolding equal_entries
      entries_refl e [] vals t = refl
      entries_refl e (k ∷ ks) vals t =
          ground (arith, entries_refl e ks vals t, t k, bytes_beq_iff k k)

      cells_refl :
          (e : Value F O → Value F O → Option Bool) (x : ℕ) (p : Option (Array F O))
          → get_elem? h x ≡ p
          → is_some p ≡ true
          → ((u : Value F O) → rank_of rank u < suc (rank x) → IsLive h u → e u u ≡ some true)
          → equal_cells e p p ≡ some true
      unfolding equal_cells
      cells_refl e x none found l t = absurd (false≢true l)
      cells_refl e x (some c) found l t = ground (
        arith,
        entries_refl e c.keys c.vals
            (λ enc. t (or_null (lookup enc c.vals)) (ranked x c found enc) (closed x c found enc)),
      )

      kinds_refl :
          (e : Value F O → Value F O → Option Bool) (a : Value F O)
          → ((u : Value F O) → rank_of rank u < rank_of rank a → IsLive h u → e u u ≡ some true)
          → IsLive h a
          → equal_kinds host e (normalize_safe a) (normalize_safe a) h ≡ some true
      unfolding equal_kinds array_equal normalize_safe
      kinds_refl e null t l = refl
      kinds_refl e (bool a) t l = ground arith
      kinds_refl e (int a) t l = ground (arith, int_beq_iff a a)
      kinds_refl e (float a) t l = ground (arith, float_refl a)
      kinds_refl e (str a) t l = ground (arith, bytes_beq_iff a a)
      kinds_refl e (safe a) t l = ground (arith, bytes_beq_iff a a)
      kinds_refl e (obj a) t l = ground (arith, object_refl a)
      kinds_refl e (arr none) t l = refl
      kinds_refl e (arr (some x)) t l = cells_refl e x (get_elem? h x) refl l t

      -- Where no array of a heap holds itself at any depth, all elements are on the heap, and
      -- the host's own comparisons are reflexive, a live value is Equal to itself, given fuel
      -- above its rank.
      pub equal_refl :
          (fuel : ℕ) (a : Value F O)
          → rank_of rank a < fuel
          → IsLive h a
          → equal host fuel h a a ≡ some true
      unfolding equal
      equal_refl zero a r l = absurd (omega arith)
      equal_refl (suc fuel) a r l =
          kinds_refl (equal host fuel h) a (λ u s live. equal_refl fuel u (omega arith) live) l
