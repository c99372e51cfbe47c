-- ===== src/Check/Narrowing.antt =====
-- pkg/check/narrow.go: `narrowTo`, `subtractArm`.
use mathlib.Core.Bool.{false≢true}
use quill_template_engine.Prelude.{
  Bool, true, false, not, ◌&&◌, List, [], ◌∷◌, mem, if◌then◌else◌, Eq, ◌≡◌, ◌⊎◌, refl, arith, sym,
  ap, Bool-cases, inl, inr, ◌∙◌,
}
use quill_template_engine.Check.{
  StaticType, any, never, union, arms, is_any, equal_type, flatten, dedupe, collapse, union_of,
  keep_equal, drop_equal, subtract_arm, or_default, narrow_to,
}
use quill_template_engine.Check.Equality.{equal_type_iff, equal_type_refl, same_truth, type_eq}
use quill_template_engine.Check.Unions.{alternatives, offered}
use quill_template_engine.Check.Unions.Canonical.{
  is_arm, alternatives-is_arm, union_of-canonical, alternatives-union_of,
}

module _ {ℓ} {A : Type ℓ} ⦃e : Eq A⦄ (a t u : A) (rest us : List A) where
  mem-kept :
      mem a rest ≡ mem a us && e.beq a t
      → mem a (if e.beq u t then u ∷ rest else rest) ≡ mem a (u ∷ us) && e.beq a t
  unfolding mem
  mem-kept h = ground (arith, e.beq_iff u a, e.beq_iff u t, e.beq_iff a t)

  mem-dropped :
      mem a rest ≡ mem a us && not (e.beq a t)
      → mem a (if e.beq u t then rest else u ∷ rest) ≡ mem a (u ∷ us) && not (e.beq a t)
  unfolding mem
  mem-dropped h = ground (arith, e.beq_iff u a, e.beq_iff u t, e.beq_iff a t)

mem-keep_equal :
    (a t : StaticType) (ts : List StaticType) → mem a (keep_equal t ts) ≡ mem a ts && equal_type a t
unfolding keep_equal mem
mem-keep_equal a t [] = refl
mem-keep_equal a t (u ∷ us) = mem-kept a t u (keep_equal t us) us (mem-keep_equal a t us)

mem-drop_equal :
    (a t : StaticType) (ts : List StaticType)
    → mem a (drop_equal t ts) ≡ mem a ts && not (equal_type a t)
unfolding drop_equal mem
mem-drop_equal a t [] = refl
mem-drop_equal a t (u ∷ us) = mem-dropped a t u (drop_equal t us) us (mem-drop_equal a t us)

-- A type whose arms may stand in a union: `never`, an arm, a union of arms.
abbrev pub IsProper : StaticType → Type 0
IsProper t =
    (is_any t ≡ false) × ((a : StaticType) → mem a (alternatives t) ≡ true → is_arm a ≡ true)

offered-arms :
    (a : StaticType) (ts : List StaticType)
    → ((b : StaticType) → mem b ts ≡ true → is_arm b ≡ true)
    → offered a ts ≡ mem a ts
unfolding offered mem
offered-arms a [] plain = refl
offered-arms a (t ∷ ts) plain =
    rw
      (
        alternatives-is_arm t (plain t (rw (equal_type_refl t) refl)),
        offered-arms a ts (λ b m. plain b (ground arith)),
      )
      (ground arith)

no_any :
    (ts : List StaticType)
    → ((b : StaticType) → mem b ts ≡ true → is_arm b ≡ true)
    → mem any ts ≡ false
no_any ts plain = elim (Bool-cases (mem any ts)) [
  | inl h ↦ absurd (false≢true (plain any h))
  | inr h ↦ h
]

union_of-one : (t : StaticType) → is_arm t ≡ true → union_of (t ∷ []) ≡ t
unfolding union_of flatten dedupe collapse
union_of-one any h = absurd (false≢true h)
union_of-one never h = refl
union_of-one (union ts) h = absurd (false≢true h)
union_of-one _ h = refl

mem-all_one :
    (t u a : StaticType) (us : List StaticType)
    → ((b : StaticType) → mem b (u ∷ us) ≡ true → b ≡ t)
    → mem a (u ∷ us) ≡ equal_type t a
unfolding mem
mem-all_one t u a us same =
    same_truth (mem a (u ∷ us)) (equal_type t a) (λ m. (equal_type_iff t a).1 (sym (same a m)))
      (λ m.
        let e = same u (rw (equal_type_refl u) refl) ∙ (equal_type_iff t a).0 m in
        rw ((equal_type_iff u a).1 e) refl)

mem-one : (t b : StaticType) → mem b (t ∷ []) ≡ true → b ≡ t
unfolding mem
mem-one t b m = elim (Bool-cases (equal_type t b)) [
  | inl h ↦ sym ((equal_type_iff t b).0 h)
  | inr h ↦ absurd (false≢true (sym (rw h refl) ∙ m))
]

-- A list of one type, however often, makes that type.
union_of-all_one :
    (t u : StaticType) (us : List StaticType)
    → is_arm t ≡ true
    → ((b : StaticType) → mem b (u ∷ us) ≡ true → b ≡ t)
    → union_of (u ∷ us) ≡ t
union_of-all_one t u us plain same =
    union_of-canonical (u ∷ us) (t ∷ [])
      (no_any (u ∷ us) plain_all ∙ sym (no_any (t ∷ []) plain_one))
      (λ a.
        offers a
        ∙ mem-all_one t u a us same
        ∙ sym (mem-all_one t t a [] (mem-one t))
        ∙ sym (offered-arms a (t ∷ []) plain_one))
      (λ a b m n x. same a (sym (offers a) ∙ m) ∙ sym (same b (sym (offers b) ∙ n)))
    ∙ union_of-one t plain
  where
    plain_all : (b : StaticType) → mem b (u ∷ us) ≡ true → is_arm b ≡ true
    plain_all b m = rw (same b m) plain

    plain_one : (b : StaticType) → mem b (t ∷ []) ≡ true → is_arm b ≡ true
    plain_one b m = rw (mem-one t b m) plain

    offers : (a : StaticType) → offered a (u ∷ us) ≡ mem a (u ∷ us)
    offers a = offered-arms a (u ∷ us) plain_all

left : (x y : Bool) → x && y ≡ true → x ≡ true
left x y h = ground arith

right : (x y : Bool) → x && y ≡ true → y ≡ true
right x y h = ground arith

subtract_arms :
    (cur target : StaticType)
    → arms cur ≡ alternatives cur
    → IsProper cur
    → (a : StaticType)
    → mem a (alternatives (subtract_arm cur target))
      ≡ mem a (alternatives cur) && not (equal_type a target)
unfolding subtract_arm
subtract_arms cur target e proper a =
    alternatives-union_of (drop_equal target (arms cur))
      (no_any (drop_equal target (arms cur)) plain)
      (λ b m. plain b (sym (offered-arms b (drop_equal target (arms cur)) plain) ∙ m)) a
    ∙ offered-arms a (drop_equal target (arms cur)) plain
    ∙ mem-drop_equal a target (arms cur)
    ∙ rw e refl
  where
    plain : (b : StaticType) → mem b (drop_equal target (arms cur)) ≡ true → is_arm b ≡ true
    plain b m = proper.1 b (
        ap (mem b) (sym e)
        ∙ left (mem b (arms cur)) (not (equal_type b target))
            (sym (mem-drop_equal b target (arms cur)) ∙ m))

subtract_arm-never :
    (target a : StaticType) → mem a (alternatives (subtract_arm never target)) ≡ false
unfolding subtract_arm drop_equal union_of flatten dedupe collapse mem
subtract_arm-never target a = elim (Bool-cases (equal_type never target)) [
  | inl h ↦ rw h refl
  | inr h ↦ rw h refl
]

arms-cases : (t : StaticType) → (t ≡ never) ⊎ (arms t ≡ alternatives t)
arms-cases never = inl refl
arms-cases (union ts) = inr refl
arms-cases _ = inr refl

subtract_arm-alternatives :
    (cur target : StaticType)
    → IsProper cur
    → (a : StaticType)
    → mem a (alternatives (subtract_arm cur target))
      ≡ mem a (alternatives cur) && not (equal_type a target)
unfolding mem
subtract_arm-alternatives cur target proper a = elim (arms-cases cur) [
  | inl e ↦ rw e (subtract_arm-never target a)
  | inr e ↦ subtract_arms cur target e proper a
]

or_default-one :
    (t : StaticType) (ts : List StaticType)
    → is_arm t ≡ true
    → ((b : StaticType) → mem b ts ≡ true → b ≡ t)
    → or_default t ts ≡ t
unfolding or_default
or_default-one t [] plain same = refl
or_default-one t (u ∷ us) plain same = union_of-all_one t u us plain same

-- For a type whose arms are neither `any`, `never` nor unions, and a target that is such an arm:
-- narrowing to the target gives the target, and narrowing away from it leaves the arms of the type
-- but the target.
pub narrow_to_lem :
    (cur target : StaticType)
    → IsProper cur
    → is_arm target ≡ true
    → (narrow_to cur target false ≡ target)
      × ((a : StaticType)
          → mem a (alternatives (narrow_to cur target true))
            ≡ mem a (alternatives cur) && not (equal_type a target))
unfolding narrow_to
narrow_to_lem cur target proper plain = (
  rw proper.0 (
      or_default-one target (keep_equal target (arms cur)) plain (λ b m.
        (equal_type_iff b target).0 (
          right (mem b (arms cur)) (equal_type b target)
            (sym (mem-keep_equal b target (arms cur)) ∙ m)))),
  λ a. rw proper.0 (subtract_arm-alternatives cur target proper a),
)
