-- ===== src/Runtime/Scope/Frames.antt =====
-- The index of a wide frame, and the scan that it stands for.
use quill_template_engine.Prelude.{
  ℕ, ◌^◌, ◌<◌, ◌≤◌, Bool, true, false, Option, none, some, List, [], ◌∷◌, ◌++◌, Bytes, bytes_eq,
  bytes_beq, bytes_beq_iff, if◌then◌else◌, length, length-append, ltb, distinct, ◌≡◌, refl, arith,
}
use quill_template_engine.Prelude.Assoc.{Assoc, lookup, lookup-insert}
use quill_template_engine.Prelude.Int.{ℤ, pos}
use quill_template_engine.Runtime.Scope.{
  int32, set_entry_at, entry_at, Entry, Frame, Scope, scope_spill_width, scan_replace, scan,
  index_from, bind_in, bind, append_entry, bind_spilled, bind_scanned, lookup_in, lookup_frame,
  new_scope_sized, child,
}
use quill_template_engine.Runtime.Scope.Upsert.{
  upsert, names_in, index_of, scan-upsert, distinct-upsert, scan_replace-upsert, set_entry-upsert,
  get-index_of, index_of-upsert, lookup-index_from, int32-pos,
}

abbrev pub as_index : Option ℕ → Option ℤ
as_index none = none
as_index (some i) = some (pos i)

module _ {V : Type 0} where
  -- The index, where there is one, gives each name the position of its entry.
  abbrev pub Indexes : Option (Assoc Bytes ℤ) → List (Entry V) → Type 0
  Indexes none es = Unit
  Indexes (some m) es = (name : Bytes) → lookup name m ≡ as_index (index_of name es)

  pub record IsValid (f : Frame V) : Type 0 where
    pub no_dups : distinct (names_in f.entries) ≡ true
    pub indexed : Indexes f.spill f.entries

  lookup_in-scan :
      (name : Bytes) (es : List (Entry V)) (spill : Option (Assoc Bytes ℤ))
      → Indexes spill es
      → lookup_in name es spill ≡ scan name es
  unfolding lookup_in entry_at
  lookup_in-scan name es none h = refl
  lookup_in-scan name es (some m) h = ground (arith, h name, get-index_of name es)

  -- A lookup in a frame, indexed or not, is the scan of its entries.
  pub lookup_frame-scan :
      (name : Bytes) (f : Frame V) → IsValid f → lookup_frame name f ≡ scan name f.entries
  unfolding lookup_frame
  lookup_frame-scan name f h = lookup_in-scan name f.entries f.spill h.indexed

  spilled-entries :
      (name : Bytes) (v : V) (es : List (Entry V)) (m : Assoc Bytes ℤ) (o : Option ℕ)
      → index_of name es ≡ o
      → (bind_spilled name v es m (as_index o)).entries ≡ upsert name v es
  unfolding bind_spilled set_entry_at
  spilled-entries name v es m none e = ground (arith, set_entry-upsert name v es)
  spilled-entries name v es m (some i) e = ground (arith, set_entry-upsert name v es)

  scanned-entries :
      (name : Bytes) (v : V) (es : List (Entry V)) (o : Option (List (Entry V)))
      → scan_replace name v es ≡ o
      → (bind_scanned name v es o).entries ≡ upsert name v es
  unfolding bind_scanned
  scanned-entries name v es none e = ground (arith, scan_replace-upsert name v es)
  scanned-entries name v es (some es') e = ground (arith, scan_replace-upsert name v es)

  bind_in-entries :
      (name : Bytes) (v : V) (es : List (Entry V)) (spill : Option (Assoc Bytes ℤ))
      → Indexes spill es
      → (bind_in name v es spill).entries ≡ upsert name v es
  unfolding bind_in
  bind_in-entries name v es none h = scanned-entries name v es _ refl
  bind_in-entries name v es (some m) h = rw (h name) (spilled-entries name v es m _ refl)

  spilled-Indexes :
      (name : Bytes) (v : V) (es : List (Entry V)) (m : Assoc Bytes ℤ) (o : Option ℕ)
      → index_of name es ≡ o
      → length es < 2 ^ 31
      → Indexes (some m) es
      → Indexes (bind_spilled name v es m (as_index o)).spill (upsert name v es)
  unfolding bind_spilled
  spilled-Indexes name v es m none e b h = λ j. ground (
    arith,
    index_of-upsert name j v es,
    lookup-insert name j (int32 (length es)) m,
    int32-pos (length es),
    h j,
    bytes_beq_iff name j,
  )
  spilled-Indexes name v es m (some i) e b h =
      λ j. ground (arith, index_of-upsert name j v es, h j, bytes_beq_iff name j)

  lookup-index_from_start :
      (j : Bytes) (es : List (Entry V))
      → distinct (names_in es) ≡ true
      → length es ≤ 2 ^ 31
      → lookup j (index_from 0 es []) ≡ as_index (index_of j es)
  unfolding lookup
  lookup-index_from_start j es d b = ground (arith, lookup-index_from j 0 es [])

  built-Indexes :
      (b : Bool) (es : List (Entry V))
      → distinct (names_in es) ≡ true
      → length es ≤ 2 ^ 31
      → Indexes (if b then some (index_from 0 es []) else none) es
  built-Indexes true es d k = λ j. lookup-index_from_start j es d k
  built-Indexes false es d k = tt

  scanned-Indexes :
      (name : Bytes) (v : V) (es : List (Entry V)) (o : Option (List (Entry V)))
      → scan_replace name v es ≡ o
      → distinct (names_in es) ≡ true
      → length es < 2 ^ 31
      → Indexes (bind_scanned name v es o).spill (upsert name v es)
  unfolding bind_scanned append_entry
  scanned-Indexes name v es none e d b =
      let appended = es ++ record { name = name; val = v } ∷ [] in
      rw (← scanned-entries name v es none e) (
        built-Indexes _ appended
          (rw (scanned-entries name v es none e) (distinct-upsert name v es d))
          (omega (arith, length-append es (record { name = name; val = v } ∷ []))))
  scanned-Indexes name v es (some es') e d b = tt

  bind_in-Indexes :
      (name : Bytes) (v : V) (es : List (Entry V)) (spill : Option (Assoc Bytes ℤ))
      → distinct (names_in es) ≡ true
      → length es < 2 ^ 31
      → Indexes spill es
      → Indexes (bind_in name v es spill).spill (upsert name v es)
  unfolding bind_in
  bind_in-Indexes name v es none d b h = scanned-Indexes name v es (scan_replace name v es) refl d b
  bind_in-Indexes name v es (some m) d b h =
      rw (h name) (spilled-Indexes name v es m (index_of name es) refl b h)

  -- In a valid frame, with an index or without, a bind replaces the first entry of the name where
  -- it stands, or appends one where there is none.
  pub entries-bind :
      (name : Bytes) (v : V) (s : Scope V)
      → IsValid s.top
      → (bind name v s).top.entries ≡ upsert name v s.top.entries
  unfolding bind
  entries-bind name v s h = bind_in-entries name v s.top.entries s.top.spill h.indexed

  pub distinct-bind :
      (name : Bytes) (v : V) (s : Scope V)
      → IsValid s.top
      → distinct (names_in (bind name v s).top.entries) ≡ true
  distinct-bind name v s h =
      rw (entries-bind name v s h) (distinct-upsert name v s.top.entries h.no_dups)

  -- A bind in a valid frame of fewer than 2^31 entries gives a valid frame: distinct names, and
  -- an index, where the frame has one, that gives each name its position, in int32, and no other
  -- name any.
  pub bind-IsValid :
      (name : Bytes) (v : V) (s : Scope V)
      → IsValid s.top
      → length s.top.entries < 2 ^ 31
      → IsValid (bind name v s).top
  bind-IsValid name v s h b = record {
    no_dups = distinct-bind name v s h;
    indexed =
        rw (entries-bind name v s h)
          (unfold bind in bind_in-Indexes name v s.top.entries s.top.spill h.no_dups b h.indexed);
  }

  -- In the frame, the name that was bound last has the value; the other names are as before.
  pub lookup_frame-bind :
      (name j : Bytes) (v : V) (s : Scope V)
      → IsValid s.top
      → length s.top.entries < 2 ^ 31
      → lookup_frame j (bind name v s).top
        ≡ (if bytes_beq name j then some v else lookup_frame j s.top)
  lookup_frame-bind name j v s h b =
      rw
        (
          lookup_frame-scan j (bind name v s).top (bind-IsValid name v s h b),
          lookup_frame-scan j s.top h,
          entries-bind name v s h,
        )
        (scan-upsert name j v s.top.entries)

  pub child-IsValid : (s : Scope V) → IsValid (child s).top
  unfolding child distinct
  child-IsValid s = record { no_dups = refl; indexed = tt }

  pub new_scope_sized-IsValid : (n : ℕ) → IsValid (new_scope_sized {V = V} n).top
  unfolding new_scope_sized distinct index_from
  new_scope_sized-IsValid n = record {
    no_dups = refl;
    indexed = built-Indexes (ltb scope_spill_width n) [] refl (omega arith);
  }
