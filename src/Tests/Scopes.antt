-- ===== src/Tests/Scopes.antt =====
-- Scopes.
use quill_template_engine.Prelude.{ℕ, some, arith, ◌∷◌, codes, bytes_beq, if◌then◌else◌, ◌≡◌, All}
use quill_template_engine.Runtime.Context.{Context}
use quill_template_engine.Runtime.Context
use quill_template_engine.Runtime.Scope.{
  Scope, new_scope_sized, child, bind, lookup_frame, lookup_chain, names,
}
use quill_template_engine.Runtime.Scope.Upsert.{upsert}
use quill_template_engine.Runtime.Scope.Frames.{
  IsValid, lookup_frame-bind, entries-bind, bind-IsValid, child-IsValid, new_scope_sized-IsValid,
}
use quill_template_engine.Runtime.Scope.Names.{
  flatten, flatten_scope, lookup_chain-flatten, names-flatten, flatten-bind, SameContext,
}

-- A frame with its index from the start, that binds x.
abbrev wide : Scope ℕ
wide = bind (codes "x") 1 (new_scope_sized 9)

wide-IsValid : IsValid wide.top
unfolding new_scope_sized
wide-IsValid =
    bind-IsValid (codes "x") 1 (new_scope_sized 9) (new_scope_sized-IsValid 9) (ground arith)

bind-IsValid_example : IsValid (bind (codes "y") 2 wide).top
unfolding bind new_scope_sized
bind-IsValid_example = bind-IsValid (codes "y") 2 wide wide-IsValid (ground arith)

abbrev inner : Scope ℕ
inner = child wide

parents-IsValid : All IsValid inner.parents
unfolding child bind new_scope_sized
parents-IsValid = (wide-IsValid, tt)

inner-IsValid : All IsValid (inner.top ∷ inner.parents)
inner-IsValid = (child-IsValid wide, parents-IsValid)

entries-bind_example : (bind (codes "x") 2 wide).top.entries ≡ upsert (codes "x") 2 wide.top.entries
entries-bind_example = entries-bind (codes "x") 2 wide wide-IsValid

lookup_frame-bind_example :
    lookup_frame (codes "y") (bind (codes "x") 2 wide).top
    ≡ (if bytes_beq (codes "x") (codes "y") then some 2 else lookup_frame (codes "y") wide.top)
unfolding bind new_scope_sized
lookup_frame-bind_example =
    lookup_frame-bind (codes "x") (codes "y") 2 wide wide-IsValid (ground arith)

lookup_chain-flatten_example :
    lookup_chain (codes "x") (inner.top ∷ inner.parents)
    ≡ Context.get (codes "x") (flatten (inner.top ∷ inner.parents))
lookup_chain-flatten_example =
    lookup_chain-flatten (codes "x") (inner.top ∷ inner.parents) inner-IsValid

names-flatten_example : names inner ≡ Context.names (flatten_scope inner)
names-flatten_example = names-flatten inner

flatten-bind_example :
    SameContext
      (flatten_scope (bind (codes "x") 3 inner))
      (Context.bind (codes "x") 3 (flatten_scope inner))
flatten-bind_example = flatten-bind (codes "x") 3 inner inner-IsValid
