-- ===== src/Runtime/Scope/Names.antt =====
-- A chain of frames beside one flat context.
use quill_template_engine.Prelude.{
  Bool, true, false, not, none, some, List, [], ◌∷◌, ◌++◌, Bytes, bytes_eq, bytes_beq_iff,
  if◌then◌else◌, is_some, mem, mem-append, distinct, ◌≡◌, refl, ap, ◌∙◌, sym, arith, Bool-cases,
  inl, inr, All,
}
use quill_template_engine.Prelude.Assoc.{Assoc, lookup, insert, lookup-insert}
use quill_template_engine.Runtime.Context
use quill_template_engine.Runtime.Context.{Context, new_context}
use quill_template_engine.Runtime.Scope.{
  Entry, Frame, Scope, scan, lookup_chain, collect_names, names_of, names, seen_before, bind, child,
}
use quill_template_engine.Runtime.Scope.Upsert.{upsert, names_in, names_in-upsert, scan-upsert}
use quill_template_engine.Runtime.Scope.Frames.{
  IsValid, lookup_frame-scan, entries-bind, distinct-bind,
}
use quill_template_engine.Runtime.Scope.FirstSeen.{
  add_name, add_names, mem-add_names, add_names-append_one, Sees, Sees-step, out-step,
}

module _ {V : Type 0} where
  bind_all : List (Entry V) → Context V → Context V
  bind_all [] c = c
  bind_all (e ∷ es) c = bind_all es (Context.bind e.name e.val c)

  -- The flat context: the frames' entries bound from the outermost in.
  pub flatten : List (Frame V) → Context V
  flatten [] = new_context
  flatten (f ∷ fs) = bind_all f.entries (flatten fs)

  abbrev pub flatten_scope : Scope V → Context V
  flatten_scope s = flatten (s.top ∷ s.parents)

  -- The order lists the names of the map.
  abbrev InStep : Context V → Type 0
  InStep c = (j : Bytes) → mem j c.order ≡ is_some (lookup j c.vars)

  bind-InStep : (n : Bytes) (v : V) (c : Context V) → InStep c → InStep (Context.bind n v c)
  unfolding Context.bind mem
  bind-InStep n v c h = λ j. ground (
    arith,
    h j,
    h n,
    mem-append j c.order (n ∷ []),
    lookup-insert n j v c.vars,
    bytes_beq_iff n j,
  )

  bind_all-InStep : (es : List (Entry V)) (c : Context V) → InStep c → InStep (bind_all es c)
  unfolding bind_all
  bind_all-InStep [] c h = h
  bind_all-InStep (e ∷ es) c h =
      bind_all-InStep es (Context.bind e.name e.val c) (bind-InStep e.name e.val c h)

  flatten-InStep : (fs : List (Frame V)) → InStep (flatten fs)
  unfolding flatten new_context mem lookup
  flatten-InStep [] = λ j. refl
  flatten-InStep (f ∷ fs) = bind_all-InStep f.entries (flatten fs) (flatten-InStep fs)

  order-bind :
      (n : Bytes) (v : V) (c : Context V)
      → InStep c
      → (Context.bind n v c).order ≡ add_name n c.order
  unfolding Context.bind add_name
  order-bind n v c h = ground (arith, h n)

  order-bind_all :
      (es : List (Entry V)) (c : Context V)
      → InStep c
      → (bind_all es c).order ≡ add_names (names_in es) c.order
  unfolding bind_all add_names
  order-bind_all [] c h = refl
  order-bind_all (e ∷ es) c h =
      order-bind_all es (Context.bind e.name e.val c) (bind-InStep e.name e.val c h)
      ∙ ap (add_names (names_in es)) (order-bind e.name e.val c h)

  not_mem-scan : (j : Bytes) (es : List (Entry V)) → mem j (names_in es) ≡ false → scan j es ≡ none
  unfolding mem scan
  not_mem-scan j [] h = refl
  not_mem-scan j (e ∷ es) h = ground (arith, not_mem-scan j es)

  lookup-bind_all :
      (j : Bytes) (es : List (Entry V)) (c : Context V)
      → distinct (names_in es) ≡ true
      → lookup j (bind_all es c).vars
        ≡ elim (scan j es) [ some v ↦ some v | none ↦ lookup j c.vars ]
  unfolding bind_all scan distinct Context.bind
  lookup-bind_all j [] c d = refl
  lookup-bind_all j (e ∷ es) c d = ground (
    arith,
    lookup-bind_all j es (Context.bind e.name e.val c),
    lookup-insert e.name j e.val c.vars,
    not_mem-scan e.name es,
    bytes_beq_iff e.name j,
  )

  -- Where every frame of a chain is valid, the innermost binding of a name is what the flat
  -- context of the chain binds it to.
  pub lookup_chain-flatten :
      (j : Bytes) (fs : List (Frame V))
      → All IsValid fs
      → lookup_chain j fs ≡ Context.get j (flatten fs)
  unfolding lookup_chain flatten new_context lookup Context.get
  lookup_chain-flatten j [] h = refl
  lookup_chain-flatten j (f ∷ fs) h = ground (
    arith,
    lookup_frame-scan j f h.0,
    lookup_chain-flatten j fs h.1,
    lookup-bind_all j f.entries (flatten fs) h.0.no_dups,
  )

  collect_names-add_names :
      (es : List (Entry V)) (seen : Assoc Bytes Bool) (out : List Bytes)
      → Sees seen out
      → ((collect_names es seen out).1 ≡ add_names (names_in es) out)
        × Sees (collect_names es seen out).0 (collect_names es seen out).1
  unfolding collect_names add_names
  collect_names-add_names [] seen out h = (refl, h)
  collect_names-add_names (e ∷ es) seen out h =
      let fresh = not (seen_before (lookup e.name seen)) in
      let seen' : Assoc Bytes Bool = if fresh then insert e.name true seen else seen in
      let out' : List Bytes = if fresh then out ++ e.name ∷ [] else out in
      let (collected, sees) = collect_names-add_names es seen' out' (Sees-step e.name seen out h) in
      (collected ∙ ap (add_names (names_in es)) (out-step e.name seen out h), sees)

  names_of-flatten :
      (fs : List (Frame V))
      → ((names_of fs).1 ≡ (flatten fs).order) × Sees (names_of fs).0 (names_of fs).1
  unfolding names_of flatten new_context mem lookup
  names_of-flatten [] = (refl, λ j. refl)
  names_of-flatten (f ∷ fs) =
      let (same, sees) = names_of-flatten fs in
      let (collected, sees') =
        collect_names-add_names f.entries (names_of fs).0 (names_of fs).1 sees in
      (
        collected
            ∙ ap (add_names (names_in f.entries)) same
            ∙ sym (order-bind_all f.entries (flatten fs) (flatten-InStep fs)),
        sees',
      )

  -- The names of a scope are the order of its flat context.
  pub names-flatten : (s : Scope V) → names s ≡ Context.names (flatten_scope s)
  unfolding names Context.names
  names-flatten s = (names_of-flatten (s.top ∷ s.parents)).0

  -- Entering a scope shows what was there.
  pub flatten-child : (s : Scope V) → flatten_scope (child s) ≡ flatten_scope s
  unfolding child flatten bind_all
  flatten-child s = refl

  order-upsert :
      (n : Bytes) (v : V) (es : List (Entry V)) (out : List Bytes)
      → add_names (names_in (upsert n v es)) out ≡ add_name n (add_names (names_in es) out)
  order-upsert n v es out = rw (names_in-upsert n v es) (elim (Bool-cases (mem n (names_in es))) [
    | inl old ↦ rw old (unfold add_name in ground (arith, mem-add_names n (names_in es) out))
    | inr new ↦ rw new (add_names-append_one n (names_in es) out)
  ])

  -- The two contexts have one order and show the same bindings.
  pub record SameContext (c d : Context V) : Type 0 where
    pub order : Context.names c ≡ Context.names d
    pub vars : (j : Bytes) → Context.get j c ≡ Context.get j d

  vars-bind :
      (j n : Bytes) (v : V) (s : Scope V) (base : Context V)
      → IsValid s.top
      → lookup j (bind_all (bind n v s).top.entries base).vars
        ≡ lookup j (Context.bind n v (bind_all s.top.entries base)).vars
  unfolding Context.bind
  vars-bind j n v s base h =
      rw
        (
          lookup-bind_all j (bind n v s).top.entries base (distinct-bind n v s h),
          entries-bind n v s h,
        )
        (ground (
          arith,
          scan-upsert n j v s.top.entries,
          lookup-bind_all j s.top.entries base h.no_dups,
          lookup-insert n j v (bind_all s.top.entries base).vars,
        ))

  -- Where every frame is valid, the flat context of a scope after a bind in its innermost frame,
  -- and the flat context after the same bind of its own, have one order of names and show one
  -- value for each name.
  pub flatten-bind :
      (n : Bytes) (v : V) (s : Scope V)
      → All IsValid (s.top ∷ s.parents)
      → SameContext (flatten_scope (bind n v s)) (Context.bind n v (flatten_scope s))
  unfolding flatten Context.get Context.names bind
  flatten-bind n v s h =
      let base = flatten s.parents in
      let es = s.top.entries in
      let entries = entries-bind n v s h.0 in
      record {
        order =
            ap (λ x. (bind_all x base).order) entries
            ∙ order-bind_all (upsert n v es) base (flatten-InStep s.parents)
            ∙ order-upsert n v es base.order
            ∙ ap (add_name n) (sym (order-bind_all es base (flatten-InStep s.parents)))
            ∙ sym (
                order-bind n v (bind_all es base)
                  (bind_all-InStep es base (flatten-InStep s.parents)));
        vars = λ j. vars-bind j n v s base h.0;
      }
