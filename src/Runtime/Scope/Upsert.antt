-- ===== src/Runtime/Scope/Upsert.antt =====
-- The reference for `bind`: replace the first entry of the name where it stands, else append.
use quill_template_engine.Prelude.{
  ℕ, suc, ◌+◌, ◌^◌, ◌<◌, ◌≤◌, true, false, Option, none, some, List, [], ◌∷◌, ◌++◌, Bytes, bytes_eq,
  bytes_beq, bytes_beq_iff, if◌then◌else◌, length, get_elem?, mem, distinct, distinct-append_one,
  ◌≡◌, refl, arith,
}
use quill_template_engine.Prelude.Assoc.{Assoc, lookup, insert, lookup-insert}
use quill_template_engine.Prelude.Int.{ℤ, pos}
use quill_template_engine.Runtime.Scope.{
  int32, Entry, set_entry, scan_replace, scan, index_from, entry_val,
}

pub int32-pos : (n : ℕ) → n < 2 ^ 31 → int32 n ≡ pos n
unfolding int32
int32-pos n h = ground arith

module _ {V : Type 0} where
  unfoldable pub upsert : Bytes → V → List (Entry V) → List (Entry V)
  upsert name v [] = record { name = name; val = v } ∷ []
  upsert name v (e ∷ es) =
      if bytes_beq e.name name then record { name = e.name; val = v } ∷ es else e ∷ upsert name v es

  abbrev pub names_in : List (Entry V) → List Bytes
  names_in [] = []
  names_in (e ∷ es) = e.name ∷ names_in es

  unfoldable pub index_of : Bytes → List (Entry V) → Option ℕ
  index_of name [] = none
  index_of name (e ∷ es) =
      if bytes_beq e.name name
      then some 0
      else elim (index_of name es) [ none ↦ none | some i ↦ some (suc i) ]

  pub scan-upsert :
      (name j : Bytes) (v : V) (es : List (Entry V))
      → scan j (upsert name v es) ≡ (if bytes_beq name j then some v else scan j es)
  unfolding scan upsert
  scan-upsert name j v [] = refl
  scan-upsert name j v (e ∷ es) = ground (
    arith,
    scan-upsert name j v es,
    bytes_beq_iff e.name name,
    bytes_beq_iff e.name j,
    bytes_beq_iff name j,
  )

  pub names_in-upsert :
      (name : Bytes) (v : V) (es : List (Entry V))
      → names_in (upsert name v es)
        ≡ (if mem name (names_in es) then names_in es else names_in es ++ name ∷ [])
  unfolding upsert mem
  names_in-upsert name v [] = refl
  names_in-upsert name v (e ∷ es) = ground (arith, names_in-upsert name v es)

  pub distinct-upsert :
      (name : Bytes) (v : V) (es : List (Entry V))
      → distinct (names_in es) ≡ true
      → distinct (names_in (upsert name v es)) ≡ true
  distinct-upsert name v es h =
      rw (names_in-upsert name v es) (ground (arith, distinct-append_one (names_in es) name))

  -- What the scan of a frame with no index does.
  pub scan_replace-upsert :
      (name : Bytes) (v : V) (es : List (Entry V))
      → elim (scan_replace name v es) [
        | none ↦ es ++ record { name = name; val = v } ∷ []
        | some es' ↦ es'
      ]
        ≡ upsert name v es
  unfolding scan_replace upsert
  scan_replace-upsert name v [] = refl
  scan_replace-upsert name v (e ∷ es) = ground (arith, scan_replace-upsert name v es)

  -- What a write through the index does, where the index is right.
  pub set_entry-upsert :
      (name : Bytes) (v : V) (es : List (Entry V))
      → elim (index_of name es) [
        | none ↦ es ++ record { name = name; val = v } ∷ []
        | some i ↦ set_entry es i v
      ]
        ≡ upsert name v es
  unfolding set_entry upsert index_of
  set_entry-upsert name v [] = refl
  set_entry-upsert name v (e ∷ es) = ground (arith, set_entry-upsert name v es)

  pub get-index_of :
      (name : Bytes) (es : List (Entry V))
      → elim (index_of name es) [ none ↦ none | some i ↦ entry_val (get_elem? es i) ] ≡ scan name es
  unfolding index_of scan
  get-index_of name [] = refl
  get-index_of name (e ∷ es) = ground (arith, get-index_of name es)

  pub index_of-upsert :
      (name j : Bytes) (v : V) (es : List (Entry V))
      → index_of j (upsert name v es) ≡ elim (index_of j es) [
        | some i ↦ some i
        | none ↦ if bytes_beq name j then some (length es) else none
      ]
  unfolding index_of upsert
  index_of-upsert name j v [] = ground arith
  index_of-upsert name j v (e ∷ es) = ground (
    arith,
    index_of-upsert name j v es,
    bytes_beq_iff e.name name,
    bytes_beq_iff e.name j,
    bytes_beq_iff name j,
  )

  index_of-mem :
      (name : Bytes) (es : List (Entry V))
      → mem name (names_in es) ≡ false
      → index_of name es ≡ none
  unfolding index_of mem
  index_of-mem name [] h = refl
  index_of-mem name (e ∷ es) h = ground (arith, index_of-mem name es)

  -- Inside the bound, the index that `bind` builds gives each name its position.
  pub lookup-index_from :
      (j : Bytes) (i : ℕ) (es : List (Entry V)) (m : Assoc Bytes ℤ)
      → distinct (names_in es) ≡ true
      → i + length es ≤ 2 ^ 31
      → lookup j (index_from i es m)
        ≡ elim (index_of j es) [ some k ↦ some (pos (i + k)) | none ↦ lookup j m ]
  unfolding index_from index_of distinct
  lookup-index_from j i [] m d b = refl
  lookup-index_from j i (e ∷ es) m d b = ground (
    arith,
    lookup-index_from j (suc i) es (insert e.name (int32 i) m),
    lookup-insert e.name j (int32 i) m,
    int32-pos i,
    bytes_beq_iff e.name j,
    index_of-mem e.name es,
  )
