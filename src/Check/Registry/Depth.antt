-- ===== src/Check/Registry/Depth.antt =====
-- pkg/check/registry.go: `subtypeOf`, and the depth that its walk needs.
use mathlib.Core.Bool.{false≢true}
use mathlib.Core.Path.{subst}
use mathlib.Core.Option.{some-injective, none-ne-some}
use quill_template_engine.Prelude.{
  ℕ, zero, suc, ◌<◌, Bool, true, false, Option, none, some, List, [], ◌∷◌, Bytes, bytes_eq,
  bytes_beq, bytes_beq_iff, ◌≡◌, ◌↔◌, refl, arith, sym, Bool-cases, Option-cases, inl, inr, ◌∙◌,
  mem, ◌||◌, ◌⊎◌, beq_self,
}
use quill_template_engine.Check.Registry.{Registry, ObjectType, object_type, any_true, subtype_of}

-- A chain of declarations leads from one type up to another.
pub data Subtype (r : Registry) : Bytes → Bytes → Type 0 where
  same : (t : Bytes) → Subtype r t t
  up :
      (t s u : Bytes) (ot : ObjectType)
      → object_type r t ≡ some ot
      → mem s ot.supertypes ≡ true
      → Subtype r s u
      → Subtype r t u

-- The declarations have no cycle: a rank goes down at each.
abbrev pub Ranked : Registry → (Bytes → ℕ) → Type 0
Ranked r rank =
    (t s : Bytes) (ot : ObjectType)
    → object_type r t ≡ some ot
    → mem s ot.supertypes ≡ true
    → rank s < rank t

-- The walk ended, and its answer is that of the relation.
abbrev pub Decides : Registry → Bytes → Bytes → Option Bool → Type 0
Decides r t u o = (b : Bool) × (o ≡ some b) × ((b ≡ true) ↔ Subtype r t u)

Subtype-cases :
    (r : Registry) (t u : Bytes)
    → Subtype r t u
    → (t ≡ u)
      ⊎ ((ot : ObjectType) × (s : Bytes) × (object_type r t ≡ some ot)
          × (mem s ot.supertypes ≡ true)
          × Subtype r s u)
Subtype-cases r t u (same t') = inl refl
Subtype-cases r t u (up t' s u' ot e m h) = inr (ot, s, e, m, h)

any_true_lem :
    (walk : Bytes → Option Bool) (holds : Bytes → Type 0) (ss : List Bytes)
    → ((s : Bytes) → mem s ss ≡ true → (b : Bool) × (walk s ≡ some b) × ((b ≡ true) ↔ holds s))
    → (b : Bool) × (any_true walk ss ≡ some b)
      × ((b ≡ true) ↔ ((s : Bytes) × (mem s ss ≡ true) × holds s))
unfolding any_true mem
any_true_lem walk holds [] h =
    (false, refl, (λ e. absurd (false≢true e), λ (s, m, k). absurd (false≢true m)))
any_true_lem walk holds (x ∷ xs) h =
    let (b, e, iff) = h x (rw (beq_self x) refl) in
    let (c, k, rest) = any_true_lem walk holds xs (λ s m. h s (behind s m)) in
    elim (Bool-cases b) [
      | inl y ↦
          (true, rw (e, y, any_true) refl, (λ n. (x, rw (beq_self x) refl, iff.0 y), λ n. refl))
      | inr n ↦ (
        c,
        rw (e, n, any_true) k,
        (
          λ y. let (s, m, z) = rest.0 y in (s, behind s m, z),
          λ (s, m, z). elim (Bool-cases (bytes_beq x s)) [
            | inl q ↦
                absurd (false≢true (sym n ∙ iff.1 (subst holds (sym ((bytes_beq_iff x s).0 q)) z)))
            | inr q ↦ rest.1 (s, sym (rw q refl) ∙ m, z)
          ],
        ),
      )
    ]
  where
    behind : (s : Bytes) → mem s xs ≡ true → bytes_beq x s || mem s xs ≡ true
    behind s m = ground arith

Subtype-up :
    (r : Registry) (t u : Bytes)
    → bytes_beq t u ≡ false
    → Subtype r t u
    → (ot : ObjectType) × (s : Bytes) × (object_type r t ≡ some ot)
      × (mem s ot.supertypes ≡ true)
      × Subtype r s u
Subtype-up r t u ne h = elim (Subtype-cases r t u h) [
  | inl e ↦ absurd (false≢true (sym ne ∙ (bytes_beq_iff t u).1 e))
  | inr found ↦ found
]

none_or_some {ℓ κ} : {A : Type ℓ} {B : Type κ} {o : Option A} {x : A} → o ≡ none → o ≡ some x → B
none_or_some h k = absurd (none-ne-some _ (sym h ∙ k))

same_shape :
    (r : Registry) (t u : Bytes) (ot : ObjectType)
    → object_type r t ≡ some ot
    → ((ot' : ObjectType) × (s : Bytes) × (object_type r t ≡ some ot')
        × (mem s ot'.supertypes ≡ true)
        × Subtype r s u)
    → (s : Bytes) × (mem s ot.supertypes ≡ true) × Subtype r s u
same_shape r t u ot found (ot', s, k, m, z) =
    (s, subst (λ o. mem s o.supertypes ≡ true) (some-injective ot' ot (sym k ∙ found)) m, z)

-- Where a rank goes down at every declared supertype, so that no declaration is cyclic, `subtypeOf`
-- ends within a depth above the rank of its first type, and says yes exactly when a chain of
-- declarations leads from the first type to the second.
pub subtype_of-Decides :
    (r : Registry) (rank : Bytes → ℕ)
    → Ranked r rank
    → (depth : ℕ) (t u : Bytes) → rank t < depth
    → Decides r t u (subtype_of r depth t u)
unfolding subtype_of
subtype_of-Decides r rank ranked zero t u enough = absurd (omega arith)
subtype_of-Decides r rank ranked (suc depth) t u enough = elim (Bool-cases (bytes_beq t u)) [
  | inl e ↦
      (true, rw e refl, (λ k. subst (Subtype r t) ((bytes_beq_iff t u).0 e) (same t), λ k. refl))
  | inr e ↦ elim (Option-cases (object_type r t)) [
    | inl none_there ↦ (
      false,
      rw (e, none_there) refl,
      (
        λ k. absurd (false≢true k),
        λ h. let (ot, s, k, m, z) = Subtype-up r t u e h in none_or_some none_there k,
      ),
    )
    | inr (ot, found) ↦
        let (b, k, iff) =
          any_true_lem (λ s. subtype_of r depth s u) (λ s. Subtype r s u) ot.supertypes
            (λ s m.
              subtype_of-Decides r rank ranked depth s u (omega (arith, ranked t s ot found m))) in
        (
          b,
          rw (e, found) k,
          (
            λ y. let (s, m, z) = iff.0 y in up t s u ot found m z,
            λ h. iff.1 (same_shape r t u ot found (Subtype-up r t u e h)),
          ),
        )
  ]
]

-- Where every type of a set is registered, differs from the type that is looked for and has its
-- first supertype in the set, `subtypeOf` from a type of the set ends at no depth: on a cycle of
-- declarations the recursion does not stop.
pub subtype_of-cycle :
    (r : Registry) (Cycle : Bytes → Type 0) (u : Bytes)
    → ((t : Bytes)
        → Cycle t
        → (bytes_beq t u ≡ false)
          × ((ot : ObjectType) × (s : Bytes) × (ss : List Bytes) × (object_type r t ≡ some ot)
              × (ot.supertypes ≡ s ∷ ss)
              × Cycle s))
    → (depth : ℕ) (t : Bytes) → Cycle t
    → subtype_of r depth t u ≡ none
unfolding subtype_of any_true
subtype_of-cycle r Cycle u goes_on zero t h = refl
subtype_of-cycle r Cycle u goes_on (suc depth) t h =
    let (ne, (ot, s, ss, found, e, k)) = goes_on t h in
    rw (ne, found, e, subtype_of-cycle r Cycle u goes_on depth s k) refl
