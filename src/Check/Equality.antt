-- ===== src/Check/Equality.antt =====
-- pkg/check/type.go: `equalType`.
use mathlib.Core.Bool.{false≢true}
use quill_template_engine.Prelude.{
  Bool, true, false, ◌&&◌, bytes_beq_iff, bytes_eq, beq_self, Eq, ◌≡◌, ◌↔◌, refl, arith, ap, sym,
}
use quill_template_engine.Check.{
  StaticType, any, null, bool, int, float, string, list_of, map_of, object_of, arrow_of, union,
  never, StaticTypes, nil, cons, equal_type, equal_types,
}

both : (a b : Bool) → a && b ≡ true → (a ≡ true) × (b ≡ true)
both true b h = (refl, h)
both false b h = absurd (false≢true h)

mutual
  unfolding equal_type

  pub equal_type_sound : (a b : StaticType) → equal_type a b ≡ true → a ≡ b
  equal_type_sound any any h = refl
  equal_type_sound null null h = refl
  equal_type_sound bool bool h = refl
  equal_type_sound int int h = refl
  equal_type_sound float float h = refl
  equal_type_sound string string h = refl
  equal_type_sound never never h = refl
  equal_type_sound (object_of m) (object_of n) h = ap object_of ((bytes_beq_iff m n).0 h)
  equal_type_sound (list_of a) (list_of b) h = ap list_of (equal_type_sound a b h)
  equal_type_sound (map_of j a) (map_of k b) h =
      let e = both (equal_type j k) (equal_type a b) h in
      rw (equal_type_sound j k e.0, equal_type_sound a b e.1) refl
  equal_type_sound (arrow_of ps a) (arrow_of qs b) h =
      let e = both (equal_type a b) (equal_types ps qs) h in
      rw (equal_type_sound a b e.0, equal_types_sound ps qs e.1) refl
  equal_type_sound (union ps) (union qs) h = ap union (equal_types_sound ps qs h)
  equal_type_sound _ _ h = absurd (false≢true h)

  equal_types_sound : (a b : StaticTypes) → equal_types a b ≡ true → a ≡ b
  equal_types_sound nil nil h = refl
  equal_types_sound (cons p ps) (cons q qs) h =
      let e = both (equal_type p q) (equal_types ps qs) h in
      rw (equal_type_sound p q e.0, equal_types_sound ps qs e.1) refl
  equal_types_sound _ _ h = absurd (false≢true h)

mutual
  unfolding equal_type

  pub equal_type_refl : (a : StaticType) → equal_type a a ≡ true
  equal_type_refl (object_of n) = beq_self n
  equal_type_refl (list_of a) = equal_type_refl a
  equal_type_refl (map_of k a) = rw (equal_type_refl k) (equal_type_refl a)
  equal_type_refl (arrow_of ps a) = rw (equal_type_refl a) (equal_types_refl ps)
  equal_type_refl (union ps) = equal_types_refl ps
  equal_type_refl _ = refl

  equal_types_refl : (a : StaticTypes) → equal_types a a ≡ true
  equal_types_refl nil = refl
  equal_types_refl (cons p ps) = rw (equal_type_refl p) (equal_types_refl ps)

pub equal_type_iff : (a b : StaticType) → (equal_type a b ≡ true) ↔ (a ≡ b)
equal_type_iff a b = (equal_type_sound a b, λ e. rw e (equal_type_refl b))

instance abbrev pub type_eq : Eq StaticType
type_eq = record { beq = equal_type; beq_iff = equal_type_iff }

pub same_truth : (x y : Bool) → (x ≡ true → y ≡ true) → (y ≡ true → x ≡ true) → x ≡ y
same_truth x y f g = ground arith

pub equal_type_comm : (a b : StaticType) → equal_type a b ≡ equal_type b a
equal_type_comm a b =
    same_truth (equal_type a b) (equal_type b a)
      (λ h. (equal_type_iff b a).1 (sym ((equal_type_iff a b).0 h)))
      (λ h. (equal_type_iff a b).1 (sym ((equal_type_iff b a).0 h)))
