-- ===== src/Interp/Assign/Paths.antt =====
-- Assignment along a whole path.
use mathlib.Core.Path.{subst}
use quill_template_engine.Prelude.{
  Bool, true, false, Option, none, some, Bytes, ◌≡◌, sym, ap, Option-cases, inl, inr,
}
use quill_template_engine.Errors.{Result, ok, err, and_then}
use quill_template_engine.Runtime.Value.{Value, str}
use quill_template_engine.Runtime.Heap.{Heap, own}
use quill_template_engine.Runtime.Heap.Extends.{
  Extends, Extends-refl, own-Extends, share_value-Extends,
}
use quill_template_engine.Runtime.Host.{Host}
use quill_template_engine.Runtime.Scope.{Scope, lookup_frame, lookup_chain}
use quill_template_engine.Runtime.Scope
use quill_template_engine.Runtime.Attribute.{
  set_member, set_index, get_attribute, access_dot, access_index,
}
use quill_template_engine.Interp.Assign.{
  Receiver, name, attr, index, Target, attr_target, index_target, State, Step, Names, eval_name,
  own_name, own_member, own_index, own_path, assign_member, missing_name, key_of, rebind_member,
  rebind_index, found_name, write_member, write_index,
}
use quill_template_engine.Interp.Assign.Marks.{
  KeepsMarked, IsOwned, KeepsMarked-refl, Extends-KeepsMarked, own-OwnResult, SafeHeap,
  index-SafeHeap, member-SafeHeap,
}

module _ {F O : Type 0} (host : Host F O) (env : Names O) where
  -- A step ends in an error, or with an owned value and a heap that keeps the marked arrays.
  abbrev pub SafeStep : Heap F O → Result (Step F O) → Type 0
  SafeStep h (ok (v, s, k)) = KeepsMarked h k × IsOwned v h
  SafeStep h (err e) = Unit

  abbrev pub SafeState : Heap F O → Result (State F O) → Type 0
  SafeState h (ok (s, k)) = KeepsMarked h k
  SafeState h (err e) = Unit

  -- What Own leaves, in the terms of its two results.
  own-SafeStep :
      (h : Heap F O) (cur w : Value F O) (c : Bool) (k l : Heap F O)
      → KeepsMarked h k
      → own cur k ≡ (w, c, l)
      → KeepsMarked h l
  own-SafeStep h cur w c k l m e =
      rw (sym (ap (λ t. t.2) e)) (Extends-KeepsMarked m (own-Extends cur k))

  own_name-SafeStep :
      (h : Heap F O) (n : Bytes) (cur : Value F O) (s : Scope (Value F O)) (k : Heap F O)
      → KeepsMarked h k
      → SafeStep h (own_name host env n (cur, s, k))
  unfolding own_name
  own_name-SafeStep h n cur s k m = elim (own-OwnResult h cur k m) [
    | inl (e, o) ↦ rw e (m, o)
    | inr (w, l, e, o) ↦ rw e (own-SafeStep h cur w true k l m e, o)
  ]

  stored-SafeStep :
      (h : Heap F O) (w : Value F O) (s : Scope (Value F O)) (r : Result (Heap F O))
      → IsOwned w h
      → SafeHeap h r
      → SafeStep h (and_then (λ l. ok (w, s, l)) r)
  stored-SafeStep h w s (ok l) o m = (m, o)
  stored-SafeStep h w s (err e) o m = tt

  member_hop-SafeStep :
      (h : Heap F O) (n : Bytes) (parent : Value F O) (s : Scope (Value F O)) (k : Heap F O)
      → KeepsMarked h k
      → IsOwned parent h
      → (r : Result (Value F O))
      → SafeStep h (and_then (λ cur. rebind_member host env parent n cur s (own cur k)) r)
  member_hop-SafeStep h n parent s k m p (err e) = tt
  member_hop-SafeStep h n parent s k m p (ok cur) = elim (own-OwnResult h cur k m) [
    | inl (e, o) ↦ rw e (m, o)
    | inr (w, l, e, o) ↦ rw e (
        stored-SafeStep h w s (set_member host parent n w l) o
          (member-SafeHeap host h parent n w l (own-SafeStep h cur w true k l m e) p))
  ]

  index_hop-SafeStep :
      (h : Heap F O) (key parent : Value F O) (s : Scope (Value F O)) (k : Heap F O)
      → KeepsMarked h k
      → IsOwned parent h
      → (r : Result (Value F O))
      → SafeStep h (and_then (λ cur. rebind_index host env parent key cur s (own cur k)) r)
  index_hop-SafeStep h key parent s k m p (err e) = tt
  index_hop-SafeStep h key parent s k m p (ok cur) = elim (own-OwnResult h cur k m) [
    | inl (e, o) ↦ rw e (m, o)
    | inr (w, l, e, o) ↦ rw e (
        stored-SafeStep h w s (set_index host parent key w l) o
          (index-SafeHeap host h parent key w l (own-SafeStep h cur w true k l m e) p))
  ]

  -- A chain of two steps, where the second is safe after what the first gives.
  chain-SafeStep :
      (h : Heap F O) (next : Step F O → Result (Step F O)) (r : Result (Step F O))
      → SafeStep h r
      → ((v : Value F O) (s : Scope (Value F O)) (k : Heap F O)
          → KeepsMarked h k
          → IsOwned v h
          → SafeStep h (next (v, s, k)))
      → SafeStep h (and_then next r)
  chain-SafeStep h next (err e) p q = tt
  chain-SafeStep h next (ok (v, s, k)) p q = q v s k p.0 p.1

  get-Extends : (n : Bytes) (s : Scope (Value F O)) (h : Heap F O) → Extends h (Scope.get n s h).1
  unfolding Scope.get
  get-Extends n s h = elim (Option-cases (lookup_frame n s.top)) [
    | inr (v, e) ↦ rw (e, Scope.get) (Extends-refl h)
    | inl e ↦ elim (Option-cases (lookup_chain n s.parents)) [
      | inl f ↦ rw (e, f, Scope.get) (Extends-refl h)
      | inr (v, f) ↦ rw (e, f, Scope.get) (share_value-Extends v h)
    ]
  ]

  missing-SafeStep :
      (h : Heap F O) (n : Bytes) (s : Scope (Value F O)) (k : Heap F O)
      → KeepsMarked h k
      → (r : Result (Value F O))
      → SafeStep h (and_then (own_name host env n) (and_then (λ v. ok (v, s, k)) r))
  missing-SafeStep h n s k m (err e) = tt
  missing-SafeStep h n s k m (ok v) = own_name-SafeStep h n v s k m

  name-SafeStep :
      (h : Heap F O) (n : Bytes) (s : Scope (Value F O)) (g : Option (Value F O) × Heap F O)
      → KeepsMarked h g.1
      → SafeStep h (and_then (own_name host env n) (found_name host env n false s g))
  name-SafeStep h n s (some v, k) m = own_name-SafeStep h n v s k m
  name-SafeStep h n s (none, k) m = missing-SafeStep h n s k m (missing_name host env n false)

  pub own_path-SafeStep :
      (t : Receiver F O) (s : Scope (Value F O)) (h : Heap F O)
      → SafeStep h (own_path host env t (s, h))
  unfolding own_path own_member own_index
  own_path-SafeStep (name n) s h =
      unfold eval_name in
      name-SafeStep h n s (Scope.get n s h)
        (Extends-KeepsMarked (KeepsMarked-refl h) (get-Extends n s h))
  own_path-SafeStep (attr t n) s h =
      chain-SafeStep h (own_member host env n) (own_path host env t (s, h))
        (own_path-SafeStep t s h)
        (λ v s1 k m o.
          member_hop-SafeStep h n v s1 k m o (get_attribute host access_dot v (str n) false k))
  own_path-SafeStep (index t key) s h =
      chain-SafeStep h (own_index host env (key_of host key)) (own_path host env t (s, h))
        (own_path-SafeStep t s h)
        (λ v s1 k m o.
          index_hop-SafeStep h (key_of host key) v s1 k m o
            (get_attribute host access_index v (key_of host key) false k))

  member_write-SafeState :
      (h : Heap F O) (s : Scope (Value F O)) (r : Result (Heap F O))
      → SafeHeap h r
      → SafeState h (and_then (λ k. ok (s, k)) r)
  member_write-SafeState h s (ok k) m = m
  member_write-SafeState h s (err e) m = tt

  written-SafeState :
      (h : Heap F O) (next : Step F O → Result (State F O)) (r : Result (Step F O))
      → SafeStep h r
      → ((v : Value F O) (s : Scope (Value F O)) (k : Heap F O)
          → KeepsMarked h k
          → IsOwned v h
          → SafeState h (next (v, s, k)))
      → SafeState h (and_then next r)
  written-SafeState h next (err e) p q = tt
  written-SafeState h next (ok (v, s, k)) p q = q v s k p.0 p.1

  assign_member-SafeState :
      (t : Target F O) (v : Value F O) (s : Scope (Value F O)) (h : Heap F O)
      → SafeState h (assign_member host env t v (s, h))
  unfolding assign_member
  assign_member-SafeState (attr_target t n) v s h =
      written-SafeState h (write_member host env n v) (own_path host env t (s, h))
        (own_path-SafeStep t s h)
        (λ recv s1 k m o.
          member_write-SafeState h s1 (set_member host recv n v k)
            (member-SafeHeap host h recv n v k m o))
  assign_member-SafeState (index_target t key) v s h =
      written-SafeState h (write_index host env (key_of host key) v) (own_path host env t (s, h))
        (own_path-SafeStep t s h)
        (λ recv s1 k m o.
          member_write-SafeState h s1 (set_index host recv (key_of host key) v k)
            (index-SafeHeap host h recv (key_of host key) v k m o))

  -- An assignment to a member or a subscript that succeeds, along a path of any length, leaves
  -- every array that was marked as shared before it with its keys, its values and its mark.
  pub assign_member-KeepsMarked :
      (t : Target F O) (v : Value F O) (s s' : Scope (Value F O)) (h h' : Heap F O)
      → assign_member host env t v (s, h) ≡ ok (s', h')
      → KeepsMarked h h'
  assign_member-KeepsMarked t v s s' h h' e =
      subst (SafeState h) e (assign_member-SafeState t v s h)
