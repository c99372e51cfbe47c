-- ===== src/Runtime/Scope.antt =====
-- The lexical scope of pkg/runtime/scope.go: frames of ordered bindings, the innermost first. A frame
-- wider than `scope_spill_width` has an index from names to positions beside its entries.
-- A child frame's parents are read, and never written through the child, so a scope is the list of
-- its frames; leaving a scope is dropping its first frame. A position in an index is an int32; one that
-- is outside the entries, where Go panics, finds no entry and changes none.
pub mod Upsert
pub mod Frames
pub mod FirstSeen
pub mod Names
use quill_template_engine.Prelude.{
  ℕ, zero, suc, ◌+◌, Bool, true, false, not, Option, none, some, List, [], ◌∷◌, ◌++◌, Bytes,
  bytes_eq, bytes_beq, if◌then◌else◌, length, get_elem?, ltb, is_some, ◌-◌, ◌%◌, ◌^◌,
}
use quill_template_engine.Prelude.Int.{ℤ, pos, negsuc}
use quill_template_engine.Prelude.Assoc.{Assoc, lookup, insert}
use quill_template_engine.Runtime.Value.{Value}
use quill_template_engine.Runtime.Heap.{Heap, share_value}

abbrev pub scope_spill_width : ℕ
scope_spill_width = 8

pub record Entry (V : Type 0) : Type 0 where
  pub name : Bytes
  pub val : V

pub record Frame (V : Type 0) : Type 0 where
  pub entries : List (Entry V)
  pub spill : Option (Assoc Bytes ℤ)

pub record Scope (V : Type 0) : Type 0 where
  pub top : Frame V
  pub parents : List (Frame V)

-- int32(n), for a length or a position.
unfoldable pub int32 : ℕ → ℤ
int32 n = let w = n % 2 ^ 32 in if ltb w (2 ^ 31) then pos w else negsuc (2 ^ 32 - w - 1)

-- seen[name]
abbrev pub seen_before : Option Bool → Bool
seen_before none = false
seen_before (some b) = b

module _ {V : Type 0} where
  unfoldable pub new_scope : Scope V
  new_scope = record { top = record { entries = []; spill = none }; parents = [] }

  -- Capacities are not modelled; a width past the spill width makes the index at once.
  unfoldable pub new_scope_sized : ℕ → Scope V
  new_scope_sized n = record {
    top = record { entries = []; spill = if ltb scope_spill_width n then some [] else none };
    parents = [];
  }

  unfoldable pub child : Scope V → Scope V
  child s = record { top = record { entries = []; spill = none }; parents = s.top ∷ s.parents }

  unfoldable pub set_entry : List (Entry V) → ℕ → V → List (Entry V)
  set_entry [] i v = []
  set_entry (e ∷ es) zero v = record { name = e.name; val = v } ∷ es
  set_entry (e ∷ es) (suc i) v = e ∷ set_entry es i v

  -- s.entries[i].v = v
  unfoldable pub set_entry_at : List (Entry V) → ℤ → V → List (Entry V)
  unfolding set_entry
  set_entry_at es (pos i) v = set_entry es i v
  set_entry_at es (negsuc i) v = es

  -- s.entries[i]
  unfoldable pub entry_at : List (Entry V) → ℤ → Option (Entry V)
  entry_at es (pos i) = get_elem? es i
  entry_at es (negsuc i) = none

  -- The scan: the entries with the binding replaced where it stands, or none where no entry has it.
  unfoldable pub scan_replace : Bytes → V → List (Entry V) → Option (List (Entry V))
  scan_replace name v [] = none
  scan_replace name v (e ∷ es) =
      let rest = scan_replace name v es in
      if bytes_beq e.name name
      then some (record { name = e.name; val = v } ∷ es)
      else elim rest [ none ↦ none | some es' ↦ some (e ∷ es') ]

  unfoldable pub index_from : ℕ → List (Entry V) → Assoc Bytes ℤ → Assoc Bytes ℤ
  unfolding int32
  index_from i [] m = m
  index_from i (e ∷ es) m = index_from (suc i) es (insert e.name (int32 i) m)

  -- The append of a new name to a frame with no index.
  unfoldable pub append_entry : Bytes → V → List (Entry V) → Frame V
  unfolding index_from
  append_entry name v es =
      let es' = es ++ record { name = name; val = v } ∷ [] in
      record {
        entries = es';
        spill = if ltb scope_spill_width (length es') then some (index_from 0 es' []) else none;
      }

  unfoldable pub bind_spilled : Bytes → V → List (Entry V) → Assoc Bytes ℤ → Option ℤ → Frame V
  unfolding set_entry_at int32
  bind_spilled name v es m (some i) = record { entries = set_entry_at es i v; spill = some m }
  bind_spilled name v es m none = record {
    entries = es ++ record { name = name; val = v } ∷ [];
    spill = some (insert name (int32 (length es)) m);
  }

  unfoldable pub bind_scanned : Bytes → V → List (Entry V) → Option (List (Entry V)) → Frame V
  unfolding append_entry
  bind_scanned name v es (some es') = record { entries = es'; spill = none }
  bind_scanned name v es none = append_entry name v es

  unfoldable pub bind_in : Bytes → V → List (Entry V) → Option (Assoc Bytes ℤ) → Frame V
  unfolding bind_spilled bind_scanned scan_replace
  bind_in name v es (some m) = bind_spilled name v es m (lookup name m)
  bind_in name v es none = bind_scanned name v es (scan_replace name v es)

  unfoldable pub bind : Bytes → V → Scope V → Scope V
  unfolding bind_in
  bind name v s = record s { top = bind_in name v s.top.entries s.top.spill }

  unfoldable pub scan : Bytes → List (Entry V) → Option V
  scan name [] = none
  scan name (e ∷ es) = if bytes_beq e.name name then some e.val else scan name es

  abbrev pub entry_val : Option (Entry V) → Option V
  entry_val none = none
  entry_val (some e) = some e.val

  unfoldable pub lookup_in : Bytes → List (Entry V) → Option (Assoc Bytes ℤ) → Option V
  unfolding scan entry_at
  lookup_in name es (some m) = elim (lookup name m) [
    | none ↦ none
    | some i ↦ entry_val (entry_at es i)
  ]
  lookup_in name es none = scan name es

  unfoldable pub lookup_frame : Bytes → Frame V → Option V
  unfolding lookup_in
  lookup_frame name f = lookup_in name f.entries f.spill

  -- The innermost binding in a chain of frames.
  unfoldable pub lookup_chain : Bytes → List (Frame V) → Option V
  lookup_chain name [] = none
  lookup_chain name (f ∷ fs) = elim (lookup_frame name f) [
    | none ↦ lookup_chain name fs
    | some v ↦ some v
  ]

  -- One frame's names behind those collected so far.
  unfoldable pub collect_names :
      List (Entry V) → Assoc Bytes Bool → List Bytes → Assoc Bytes Bool × List Bytes
  collect_names [] seen out = (seen, out)
  collect_names (e ∷ es) seen out =
      let fresh = not (seen_before (lookup e.name seen)) in
      collect_names es (if fresh then insert e.name true seen else seen)
        (if fresh then out ++ e.name ∷ [] else out)

  -- The frames from the outermost in.
  unfoldable pub names_of : List (Frame V) → Assoc Bytes Bool × List Bytes
  unfolding collect_names
  names_of [] = ([], [])
  names_of (f ∷ fs) = let (seen, out) = names_of fs in collect_names f.entries seen out

  unfoldable pub names : Scope V → List Bytes
  unfolding names_of
  names s = (names_of (s.top ∷ s.parents)).1

module _ {F O : Type 0} where
  -- An array is marked shared as it is bound.
  unfoldable pub set :
      Bytes → Value F O → Scope (Value F O) → Heap F O → Scope (Value F O) × Heap F O
  unfolding bind
  set name v s h = let (shared, h') = share_value v h in (bind name shared s, h')

  unfoldable pub set_owned : Bytes → Value F O → Scope (Value F O) → Scope (Value F O)
  unfolding bind
  set_owned name v s = bind name v s

  -- A value from an outer frame is marked on the way out; one from the frame itself is not.
  abbrev pub outer_result : Option (Value F O) → Heap F O → Option (Value F O) × Heap F O
  outer_result none h = (none, h)
  outer_result (some v) h = let (shared, h') = share_value v h in (some shared, h')

  unfoldable pub get : Bytes → Scope (Value F O) → Heap F O → Option (Value F O) × Heap F O
  unfolding lookup_chain
  get name s h = elim (lookup_frame name s.top) [
    | some v ↦ (some v, h)
    | none ↦ outer_result (lookup_chain name s.parents) h
  ]

  unfoldable pub has : Bytes → Scope (Value F O) → Heap F O → Bool × Heap F O
  unfolding get
  has name s h = let (found, h') = get name s h in (is_some found, h')
