-- ===== src/Check/Consistency/Reflexive.antt =====
-- pkg/check/consistency.go: `consistent` between a type and itself.
use mathlib.Core.Bool.{false≢true}
use mathlib.Core.Path.{subst}
use quill_template_engine.Prelude.{
  ℕ, suc, ◌<◌, true, some, Bytes, is_some, mem, ◌≡◌, refl, sym, Bool-cases, inl, inr, ◌∙◌, beq_self,
  bytes_eq,
}
use quill_template_engine.Check.{
  StaticType, any, null, bool, int, float, string, list_of, map_of, object_of, arrow_of, union,
  never, StaticTypes, nil, cons, is_any, to_list, equal_type,
}
use quill_template_engine.Check.Equality.{type_eq}
use quill_template_engine.Check.Unions.Canonical.{mem-head, mem-behind}
use quill_template_engine.Check.Registry.{Registry, subtype_of}
use quill_template_engine.Check.Registry.Depth.{Ranked, subtype_of-Decides}
use quill_template_engine.Check.Consistency.{
  into, into_list, into_map, into_object, into_arrow, consistent, every_arm, pairwise,
}
use quill_template_engine.Check.Consistency.Answers.{
  and_then-is_some, and_then-both, into-is_some, into_some-arm, into_list-is_some, into_map-is_some,
  into_object-is_some, into_arrow-is_some, same_count_refl,
}

is_any_lem : (t : StaticType) → is_any t ≡ true → t ≡ any
is_any_lem any h = refl
is_any_lem _ h = absurd (false≢true h)

module _ (r : Registry) (d : ℕ)
    (decided : (m n : Bytes) → is_some (subtype_of r (suc d) m n) ≡ true) where
  mutual
    unfolding consistent

    pub consistent-is_some : (s t : StaticType) → is_some (consistent r (suc d) s t) ≡ true
    consistent-is_some any t = refl
    consistent-is_some never t = refl
    consistent-is_some (union ss) t = elim (Bool-cases (is_any t)) [
      | inl e ↦ rw e refl
      | inr e ↦ rw e (every_arm-is_some ss t)
    ]
    consistent-is_some (object_of m) t =
        into-is_some (into_object (subtype_of r (suc d) m))
          (into_object-is_some (subtype_of r (suc d) m) (decided m)) t
    consistent-is_some (list_of a) t =
        into-is_some (into_list (consistent r (suc d) a))
          (into_list-is_some (consistent r (suc d) a) (consistent-is_some a)) t
    consistent-is_some (map_of j a) t =
        into-is_some (into_map (consistent r (suc d) j) (consistent r (suc d) a))
          (into_map-is_some (consistent r (suc d) j) (consistent r (suc d) a) (consistent-is_some j)
            (consistent-is_some a))
          t
    consistent-is_some (arrow_of ps a) t =
        into-is_some (into_arrow ps (pairwise r (suc d) ps) (consistent r (suc d) a))
          (into_arrow-is_some ps (pairwise r (suc d) ps) (consistent r (suc d) a)
            (pairwise-is_some ps) (consistent-is_some a))
          t
    consistent-is_some null t = into-is_some (λ u. some (equal_type null u)) (λ u. refl) t
    consistent-is_some bool t = into-is_some (λ u. some (equal_type bool u)) (λ u. refl) t
    consistent-is_some int t = into-is_some (λ u. some (equal_type int u)) (λ u. refl) t
    consistent-is_some float t = into-is_some (λ u. some (equal_type float u)) (λ u. refl) t
    consistent-is_some string t = into-is_some (λ u. some (equal_type string u)) (λ u. refl) t

    every_arm-is_some :
        (ss : StaticTypes) (t : StaticType) → is_some (every_arm r (suc d) ss t) ≡ true
    every_arm-is_some nil t = refl
    every_arm-is_some (cons s ss) t =
        and_then-is_some (consistent r (suc d) s t) (every_arm r (suc d) ss t)
          (consistent-is_some s t) (every_arm-is_some ss t)

    pairwise-is_some : (ss ts : StaticTypes) → is_some (pairwise r (suc d) ss ts) ≡ true
    pairwise-is_some (cons s ss) (cons t ts) =
        and_then-is_some (consistent r (suc d) s t) (pairwise r (suc d) ss ts)
          (consistent-is_some s t) (pairwise-is_some ss ts)
    pairwise-is_some _ _ = refl

  consistent-any : (s : StaticType) → consistent r (suc d) s any ≡ some true
  unfolding consistent into
  consistent-any any = refl
  consistent-any _ = refl

  every_arm-any : (ss : StaticTypes) → every_arm r (suc d) ss any ≡ some true
  unfolding consistent
  every_arm-any nil = refl
  every_arm-any (cons s ss) = rw (consistent-any s) (every_arm-any ss)

  -- What flows into an arm of a union flows into the union.
  mutual
    unfolding consistent into

    consistent-arm :
        (s u : StaticType) (ts : StaticTypes)
        → mem u (to_list ts) ≡ true
        → consistent r (suc d) s u ≡ some true
        → consistent r (suc d) s (union ts) ≡ some true
    consistent-arm any u ts m h = refl
    consistent-arm never u ts m h = refl
    consistent-arm (union ss) u ts m h = elim (Bool-cases (is_any u)) [
      | inl e ↦
          every_arm-arm ss any ts (subst (λ v. mem v (to_list ts) ≡ true) (is_any_lem u e) m)
            (every_arm-any ss)
      | inr e ↦ every_arm-arm ss u ts m (sym (rw e refl) ∙ h)
    ]
    consistent-arm (object_of n) u ts m h =
        into_some-arm (into_object (subtype_of r (suc d) n))
          (into_object-is_some (subtype_of r (suc d) n) (decided n)) u ts m h
    consistent-arm (list_of a) u ts m h =
        into_some-arm (into_list (consistent r (suc d) a))
          (into_list-is_some (consistent r (suc d) a) (consistent-is_some a)) u ts m h
    consistent-arm (map_of j a) u ts m h =
        into_some-arm (into_map (consistent r (suc d) j) (consistent r (suc d) a))
          (into_map-is_some (consistent r (suc d) j) (consistent r (suc d) a) (consistent-is_some j)
            (consistent-is_some a))
          u ts m h
    consistent-arm (arrow_of ps a) u ts m h =
        into_some-arm (into_arrow ps (pairwise r (suc d) ps) (consistent r (suc d) a))
          (into_arrow-is_some ps (pairwise r (suc d) ps) (consistent r (suc d) a)
            (pairwise-is_some ps) (consistent-is_some a))
          u ts m h
    consistent-arm null u ts m h =
        into_some-arm (λ v. some (equal_type null v)) (λ v. refl) u ts m h
    consistent-arm bool u ts m h =
        into_some-arm (λ v. some (equal_type bool v)) (λ v. refl) u ts m h
    consistent-arm int u ts m h = into_some-arm (λ v. some (equal_type int v)) (λ v. refl) u ts m h
    consistent-arm float u ts m h =
        into_some-arm (λ v. some (equal_type float v)) (λ v. refl) u ts m h
    consistent-arm string u ts m h =
        into_some-arm (λ v. some (equal_type string v)) (λ v. refl) u ts m h

    every_arm-arm :
        (ss : StaticTypes) (u : StaticType) (ts : StaticTypes)
        → mem u (to_list ts) ≡ true
        → every_arm r (suc d) ss u ≡ some true
        → every_arm r (suc d) ss (union ts) ≡ some true
    every_arm-arm nil u ts m h = refl
    every_arm-arm (cons s ss) u ts m h =
        let (a, b) = and_then-both (consistent r (suc d) s u) (every_arm r (suc d) ss u) h in
        rw (consistent-arm s u ts m a) (every_arm-arm ss u ts m b)

  subtype_of_refl : (n : Bytes) → subtype_of r (suc d) n n ≡ some true
  unfolding subtype_of
  subtype_of_refl n = rw (beq_self n) refl

  mutual
    unfolding consistent into equal_type

    pub consistent_refl : (t : StaticType) → consistent r (suc d) t t ≡ some true
    consistent_refl (union ts) = every_arm_refl ts ts (λ a m. m)
    consistent_refl (object_of n) = subtype_of_refl n
    consistent_refl (list_of a) = consistent_refl a
    consistent_refl (map_of k a) = rw (consistent_refl k) (consistent_refl a)
    consistent_refl (arrow_of ps a) = rw (same_count_refl ps, pairwise_refl ps) (consistent_refl a)
    consistent_refl _ = refl

    every_arm_refl :
        (ss ts : StaticTypes)
        → ((a : StaticType) → mem a (to_list ss) ≡ true → mem a (to_list ts) ≡ true)
        → every_arm r (suc d) ss (union ts) ≡ some true
    every_arm_refl nil ts h = refl
    every_arm_refl (cons s ss) ts h =
        rw (consistent-arm s s ts (h s (mem-head s (to_list ss))) (consistent_refl s))
          (every_arm_refl ss ts (λ a m. h a (mem-behind s a (to_list ss) m)))

    pairwise_refl : (ts : StaticTypes) → pairwise r (suc d) ts ts ≡ some true
    pairwise_refl nil = refl
    pairwise_refl (cons t ts) = rw (consistent_refl t) (pairwise_refl ts)

-- Where a rank goes down at every declared supertype and the depth is above all ranks, `consistent`
-- answers for every two types, and says yes for a type and itself.
pub consistent-answers :
    (r : Registry) (rank : Bytes → ℕ)
    → Ranked r rank
    → (d : ℕ) → ((n : Bytes) → rank n < suc d)
    → ((s t : StaticType) → is_some (consistent r (suc d) s t) ≡ true)
      × ((t : StaticType) → consistent r (suc d) t t ≡ some true)
consistent-answers r rank ranked d low =
    (consistent-is_some r d decided, consistent_refl r d decided)
  where
    decided : (m n : Bytes) → is_some (subtype_of r (suc d) m n) ≡ true
    decided m n =
        let (b, e, answer) = subtype_of-Decides r rank ranked (suc d) m n (low m) in rw e refl
