-- ===== src/Lex/TrimLaws.antt =====
-- internal/lex/trim.go: what the trims take from a stream.
use mathlib.Core.Path.{subst}
use mathlib.Core.Bool.{true≢false}
use quill_template_engine.Prelude.{
  ℕ, Bool, true, false, List, [], ◌∷◌, ◌++◌, Bytes, All, ◌≡◌, refl, sym, ap, ◌∙◌, Bool-cases,
  append-nil, append_assoc, inl, inr,
}
use quill_template_engine.Lex.Token.{Token, Kind, text, Trim, trim_hard, trim_line}
use quill_template_engine.Lex.Valid.Code.{Bytes-cases}
use quill_template_engine.Lex.Trims.{
  is_line_ws, is_hard_ws, drop_left, drop_right, trim_left, trim_right, with_text, right_edge,
  left_edge, trim_before, trim_behind, trim_from, apply_trims,
}

-- The second text is the first one without white space at its ends.
pub data Shaved : Bytes → Bytes → Type 0 where
  whole : (s : Bytes) → Shaved s s
  front : (c : ℕ) (s t : Bytes) → is_hard_ws c ≡ true → Shaved s t → Shaved (c ∷ s) t
  back : (c : ℕ) (s t : Bytes) → is_hard_ws c ≡ true → Shaved s t → Shaved (s ++ c ∷ []) t

Shaved-trans : {s t u : Bytes} → Shaved s t → Shaved t u → Shaved s u
Shaved-trans (whole s) k = k
Shaved-trans (front c s t h d) k = front c s _ h (Shaved-trans d k)
Shaved-trans (back c s t h d) k = back c s _ h (Shaved-trans d k)

module _ (test : ℕ → Bool) (hard : (c : ℕ) → test c ≡ true → is_hard_ws c ≡ true) where
  drop_left-Shaved : (s : Bytes) → Shaved s (drop_left test s)
  unfolding drop_left
  drop_left-Shaved [] = whole []
  drop_left-Shaved (c ∷ s) = elim (Bool-cases (test c)) [
    | inl e ↦ rw (e, drop_left) (front c s _ (hard c e) (drop_left-Shaved s))
    | inr e ↦ rw (e, drop_left) (whole (c ∷ s))
  ]

  -- A text in front of white space.
  Shaved-append : (b t : Bytes) → All (λ c. test c ≡ true) b → Shaved (t ++ b) t
  Shaved-append [] t h = subst (λ x. Shaved x t) (sym (append-nil t)) (whole t)
  Shaved-append (c ∷ b) t (h, k) =
      subst (λ x. Shaved x t) (append_assoc t (c ∷ []) b)
        (Shaved-trans (Shaved-append b (t ++ c ∷ []) k) (back c t t (hard c h) (whole t)))

  drop_right-append :
      (s : Bytes) → (b : Bytes) × (s ≡ drop_right test s ++ b) × All (λ c. test c ≡ true) b
  unfolding drop_right
  drop_right-append [] = ([], refl, tt)
  drop_right-append (c ∷ s) = elim (Bytes-cases (drop_right test s)) [
    | inl e ↦ elim (Bool-cases (test c)) [
      | inl h ↦
          rw (e, drop_right, h)
            (
              c ∷ (drop_right-append s).0,
              ap (λ x. c ∷ x) ((drop_right-append s).1 ∙ ap (λ x. x ++ (drop_right-append s).0) e),
              (h, (drop_right-append s).2),
            )
      | inr h ↦
          rw (e, drop_right, h)
            (
              (drop_right-append s).0,
              ap (λ x. c ∷ x) ((drop_right-append s).1 ∙ ap (λ x. x ++ (drop_right-append s).0) e),
              (drop_right-append s).2,
            )
    ]
    | inr (d, t, e) ↦
        rw (e, drop_right)
          (
            (drop_right-append s).0,
            ap (λ x. c ∷ x) ((drop_right-append s).1 ∙ ap (λ x. x ++ (drop_right-append s).0) e),
            (drop_right-append s).2,
          )
  ]

  drop_right-Shaved : (s : Bytes) → Shaved s (drop_right test s)
  drop_right-Shaved s =
      let (b, e, h) = drop_right-append s in
      subst (λ x. Shaved x (drop_right test s)) (sym e) (Shaved-append b (drop_right test s) h)

is_line_ws-hard : (c : ℕ) → is_line_ws c ≡ true → is_hard_ws c ≡ true
is_line_ws-hard c h = rw (h) refl

trim_left-Shaved : (s : Bytes) (t : Trim) → Shaved s (trim_left s t)
unfolding trim_left
trim_left-Shaved s trim_hard = drop_left-Shaved is_hard_ws (λ c h. h) s
trim_left-Shaved s trim_line = drop_left-Shaved is_line_ws is_line_ws-hard s
trim_left-Shaved s _ = whole s

trim_right-Shaved : (s : Bytes) (t : Trim) → Shaved s (trim_right s t)
unfolding trim_right
trim_right-Shaved s trim_hard = drop_right-Shaved is_hard_ws (λ c h. h) s
trim_right-Shaved s trim_line = drop_right-Shaved is_line_ws is_line_ws-hard s
trim_right-Shaved s _ = whole s

abbrev pub is_text : Kind → Bool
is_text text = true
is_text _ = false

-- A token that is equal but for white space at the ends of a TEXT.
abbrev pub Cut : Token → Token → Type 0
Cut t u = (u ≡ with_text u.text t) × Shaved t.text u.text × (is_text t.kind ≡ false → u ≡ t)

Cut-refl : (t : Token) → Cut t t
Cut-refl t = (refl, whole t.text, λ h. refl)

Cut-trans : (t u v : Token) → Cut t u → Cut u v → Cut t v
Cut-trans t u v (e, s, k) (f, r, m) =
    (f ∙ ap (with_text v.text) e, Shaved-trans s r, λ h. m (ap is_text (ap Token.kind e) ∙ h) ∙ k h)

right_edge-Cut : (k : Kind) (trim : Trim) (t : Token) → t.kind ≡ k → Cut t (right_edge k trim t)
right_edge-Cut text trim t e =
    (refl, trim_right-Shaved t.text trim, λ h. absurd (true≢false (sym (ap is_text e) ∙ h)))
right_edge-Cut _ trim t e = Cut-refl t

left_edge-Cut : (k : Kind) (trim : Trim) (t : Token) → t.kind ≡ k → Cut t (left_edge k trim t)
left_edge-Cut text trim t e =
    (refl, trim_left-Shaved t.text trim, λ h. absurd (true≢false (sym (ap is_text e) ∙ h)))
left_edge-Cut _ trim t e = Cut-refl t

abbrev pub Cuts : List Token → List Token → Type 0
Cuts [] [] = Unit
Cuts (t ∷ ts) (u ∷ us) = Cut t u × Cuts ts us
Cuts _ _ = ⊥

Cuts-front : (t u : Token) (ts us : List Token) → Cut t u → Cuts (u ∷ ts) us → Cuts (t ∷ ts) us
Cuts-front t u ts [] h k = absurd k
Cuts-front t u ts (v ∷ us) h (k, m) = (Cut-trans t u v h k, m)

trim_from-Cuts : (t : Token) (ts : List Token) → Cuts (t ∷ ts) (trim_from t ts)
unfolding trim_from
trim_from-Cuts t [] = (Cut-refl t, tt)
trim_from-Cuts t (u ∷ ts) = (
  right_edge-Cut t.kind (trim_before u) t refl,
  Cuts-front u (left_edge u.kind (trim_behind t) u) ts _
      (left_edge-Cut u.kind (trim_behind t) u refl)
      (trim_from-Cuts (left_edge u.kind (trim_behind t) u) ts),
)

-- The trims
pub apply_trims-Cuts : (ts : List Token) → Cuts ts (apply_trims ts)
unfolding apply_trims
apply_trims-Cuts [] = tt
apply_trims-Cuts (t ∷ ts) = trim_from-Cuts t ts
