-- ===== src/Interp/Assign.antt =====
-- Assignment to members, internal/interp/exec.go, with the lookup of a name and the coercion of keys
-- of eval.go. A target holds its evaluated subscripts. An error ends the render, so no state is kept
-- with it. Scope and heap are passed on as a pair.
pub mod Marks
pub mod Paths
use quill_template_engine.Prelude.{
  ℕ, Bool, true, false, Option, none, some, [], Bytes, if◌then◌else◌, codes,
}
use quill_template_engine.Errors.{
  ErrorKind, kind_undefined, kind_runtime, Result, ok, err, and_then,
}
use quill_template_engine.Runtime.Value.{Value, null, int, str, obj}
use quill_template_engine.Runtime.Heap.{Heap, own}
use quill_template_engine.Runtime.Scope.{Scope}
use quill_template_engine.Runtime.Scope
use quill_template_engine.Runtime.Host.{Host}
use quill_template_engine.Runtime.Text.{to_text}
use quill_template_engine.Runtime.Attribute.{
  get_attribute, access_dot, access_index, set_member, set_index,
}

-- The path of a receiver, always rooted at a name.
pub data Receiver (F O : Type 0) : Type 0 where
  name : Bytes → Receiver F O
  attr : Receiver F O → Bytes → Receiver F O
  index : Receiver F O → Value F O → Receiver F O

-- recv.name or recv[key]
pub data Target (F O : Type 0) : Type 0 where
  attr_target : Receiver F O → Bytes → Target F O
  index_target : Receiver F O → Value F O → Target F O

abbrev pub State : Type 0 → Type 0 → Type 0
State F O = Scope (Value F O) × Heap F O

-- A value with the state after it.
abbrev pub Step : Type 0 → Type 0 → Type 0
Step F O = Value F O × Scope (Value F O) × Heap F O

-- What evalName asks of the interpreter: the macros by name, and StrictVariables.
pub record Names (O : Type 0) : Type 0 where
  pub macro_ref : Bytes → Option O
  pub strict : Bool

module _ {F O : Type 0} (host : Host F O) where
  -- A failing ToText gives the empty key.
  unfoldable pub key_of : Value F O → Value F O
  unfolding to_text
  key_of (int i) = int i
  key_of v = elim (to_text host v) [ ok s ↦ str s | err e ↦ str [] ]

module _ {F O : Type 0} (host : Host F O) (env : Names O) where
  unfoldable pub missing_name : Bytes → Bool → Result (Value F O)
  missing_name n allow_absent = elim (env.macro_ref n) [
    | some o ↦ ok (obj o)
    | none ↦ if allow_absent then ok null else if env.strict then err kind_undefined else ok null
  ]

  abbrev pub found_name :
      Bytes → Bool → Scope (Value F O) → Option (Value F O) × Heap F O → Result (Step F O)
  found_name n allow_absent s (some v, h) = ok (v, s, h)
  found_name n allow_absent s (none, h) = and_then (λ v. ok (v, s, h)) (missing_name n allow_absent)

  unfoldable pub eval_name : Bytes → Bool → State F O → Result (Step F O)
  unfolding missing_name
  eval_name n allow_absent (s, h) = found_name n allow_absent s (Scope.get n s h)

  -- `if owned, copied := Own(cur); copied { ctx.SetOwned(...) }`
  abbrev pub rebind_name :
      Bytes → Value F O → Scope (Value F O) → Value F O × Bool × Heap F O → Result (Step F O)
  rebind_name n cur s (owned, true, h) = ok (owned, Scope.set_owned n owned s, h)
  rebind_name n cur s (owned, false, h) = ok (cur, s, h)

  unfoldable pub own_name : Bytes → Step F O → Result (Step F O)
  own_name n (cur, s, h) = rebind_name n cur s (own cur h)

  -- The same into the member of an owned parent.
  abbrev pub rebind_member :
      Value F O
      → Bytes
      → Value F O
      → Scope (Value F O)
      → Value F O × Bool × Heap F O
      → Result (Step F O)
  rebind_member parent n cur s (owned, true, h) =
      and_then (λ h'. ok (owned, s, h')) (set_member host parent n owned h)
  rebind_member parent n cur s (owned, false, h) = ok (cur, s, h)

  unfoldable pub own_member : Bytes → Step F O → Result (Step F O)
  own_member n (parent, s, h) =
      and_then (λ cur. rebind_member parent n cur s (own cur h))
        (get_attribute host access_dot parent (str n) false h)

  abbrev pub rebind_index :
      Value F O
      → Value F O
      → Value F O
      → Scope (Value F O)
      → Value F O × Bool × Heap F O
      → Result (Step F O)
  rebind_index parent key cur s (owned, true, h) =
      and_then (λ h'. ok (owned, s, h')) (set_index host parent key owned h)
  rebind_index parent key cur s (owned, false, h) = ok (cur, s, h)

  unfoldable pub own_index : Value F O → Step F O → Result (Step F O)
  own_index key (parent, s, h) =
      and_then (λ cur. rebind_index parent key cur s (own cur h))
        (get_attribute host access_index parent key false h)

  unfoldable pub own_path : Receiver F O → State F O → Result (Step F O)
  unfolding eval_name own_name own_member own_index key_of
  own_path (name n) st = and_then (own_name n) (eval_name n false st)
  own_path (attr t n) st = and_then (own_member n) (own_path t st)
  own_path (index t k) st = and_then (own_index (key_of host k)) (own_path t st)

  abbrev pub write_member : Bytes → Value F O → Step F O → Result (State F O)
  write_member n v (recv, s, h) = and_then (λ h'. ok (s, h')) (set_member host recv n v h)

  abbrev pub write_index : Value F O → Value F O → Step F O → Result (State F O)
  write_index key v (recv, s, h) = and_then (λ h'. ok (s, h')) (set_index host recv key v h)

  unfoldable pub assign_member : Target F O → Value F O → State F O → Result (State F O)
  unfolding own_path key_of
  assign_member (attr_target t n) v st = and_then (write_member n v) (own_path t st)
  assign_member (index_target t k) v st = and_then (write_index (key_of host k) v) (own_path t st)
