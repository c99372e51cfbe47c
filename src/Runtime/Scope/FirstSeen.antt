-- ===== src/Runtime/Scope/FirstSeen.antt =====
-- pkg/runtime/scope.go: names collected in first-seen order.
use quill_template_engine.Prelude.{
  Bool, true, not, ◌||◌, List, [], ◌∷◌, ◌++◌, Bytes, bytes_eq, bytes_beq, bytes_beq_iff,
  if◌then◌else◌, mem, mem-append, ◌≡◌, refl, arith,
}
use quill_template_engine.Prelude.Assoc.{Assoc, lookup, insert, lookup-insert}
use quill_template_engine.Runtime.Scope.{seen_before}

-- One more name in first-seen order.
unfoldable pub add_name : Bytes → List Bytes → List Bytes
add_name n ns = if mem n ns then ns else ns ++ n ∷ []

unfoldable pub add_names : List Bytes → List Bytes → List Bytes
add_names [] out = out
add_names (n ∷ ns) out = add_names ns (add_name n out)

pub mem-add_name :
    (j n : Bytes) (out : List Bytes) → mem j (add_name n out) ≡ mem j out || bytes_beq n j
unfolding add_name mem
mem-add_name j n out = ground (arith, mem-append j out (n ∷ []), bytes_beq_iff n j)

pub mem-add_names :
    (j : Bytes) (ns out : List Bytes) → mem j (add_names ns out) ≡ mem j out || mem j ns
unfolding add_names mem
mem-add_names j [] out = ground arith
mem-add_names j (n ∷ ns) out =
    ground (arith, mem-add_names j ns (add_name n out), mem-add_name j n out)

pub add_names-append_one :
    (n : Bytes) (ns out : List Bytes) → add_names (ns ++ n ∷ []) out ≡ add_name n (add_names ns out)
unfolding add_names
add_names-append_one n [] out = refl
add_names-append_one n (x ∷ ns) out = add_names-append_one n ns (add_name x out)

pub mem-one : (j n : Bytes) → mem j (n ∷ []) ≡ bytes_beq n j
unfolding mem
mem-one j n = ground arith

-- `seen` holds the names collected in `out`.
abbrev pub Sees : Assoc Bytes Bool → List Bytes → Type 0
Sees seen out = (j : Bytes) → seen_before (lookup j seen) ≡ mem j out

abbrev pub is_fresh : Bytes → Assoc Bytes Bool → Bool
is_fresh n seen = not (seen_before (lookup n seen))

pub Sees-step :
    (n : Bytes) (seen : Assoc Bytes Bool) (out : List Bytes)
    → Sees seen out
    → Sees
        (if is_fresh n seen then insert n true seen else seen)
        (if is_fresh n seen then out ++ n ∷ [] else out)
Sees-step n seen out h = λ j. ground (
  arith,
  h j,
  h n,
  mem-append j out (n ∷ []),
  lookup-insert n j true seen,
  mem-one j n,
  bytes_beq_iff n j,
)

pub out-step :
    (n : Bytes) (seen : Assoc Bytes Bool) (out : List Bytes)
    → Sees seen out
    → (if is_fresh n seen then out ++ n ∷ [] else out) ≡ add_name n out
unfolding add_name
out-step n seen out h = ground (arith, h n)
