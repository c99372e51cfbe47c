-- ===== src/Runtime/Context.antt =====
-- The flat variable scope of pkg/runtime/context.go: names in first-seen order beside a map.
use quill_template_engine.Prelude.{
  Bool, Option, List, [], ◌∷◌, ◌++◌, Bytes, bytes_eq, if◌then◌else◌, is_some,
}
use quill_template_engine.Prelude.Assoc.{Assoc, lookup, insert}
use quill_template_engine.Runtime.Value.{Value}
use quill_template_engine.Runtime.Heap.{Heap, share_value}

pub record Context (V : Type 0) : Type 0 where
  pub order : List Bytes
  pub vars : Assoc Bytes V

module _ {V : Type 0} where
  unfoldable pub new_context : Context V
  new_context = record { order = []; vars = [] }

  unfoldable pub bind : Bytes → V → Context V → Context V
  bind name v c = record {
    order = if is_some (lookup name c.vars) then c.order else c.order ++ name ∷ [];
    vars = insert name v c.vars;
  }

  unfoldable pub get : Bytes → Context V → Option V
  get name c = lookup name c.vars

  unfoldable pub has : Bytes → Context V → Bool
  has name c = is_some (lookup name c.vars)

  unfoldable pub names : Context V → List Bytes
  names c = c.order

module _ {F O : Type 0} where
  unfoldable pub set :
      Bytes → Value F O → Context (Value F O) → Heap F O → Context (Value F O) × Heap F O
  unfolding bind
  set name v c h = let (shared, h') = share_value v h in (bind name shared c, h')

  unfoldable pub set_owned : Bytes → Value F O → Context (Value F O) → Context (Value F O)
  unfolding bind
  set_owned name v c = bind name v c

  -- Each binding of the copy is marked as it is copied.
  unfoldable pub share_bindings :
      Assoc Bytes (Value F O) → Heap F O → Assoc Bytes (Value F O) × Heap F O
  share_bindings [] h = ([], h)
  share_bindings ((k, v) ∷ vars) h =
      let (shared, h1) = share_value v h in
      let (rest, h2) = share_bindings vars h1 in ((k, shared) ∷ rest, h2)

  unfoldable pub clone : Context (Value F O) → Heap F O → Context (Value F O) × Heap F O
  unfolding share_bindings
  clone c h =
      let (vars, h') = share_bindings c.vars h in (record { order = c.order; vars = vars }, h')
