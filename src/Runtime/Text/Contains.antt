-- ===== src/Runtime/Text/Contains.antt =====
-- `containsString` beside the occurrences of a substring.
use quill_template_engine.Prelude.{
  ℕ, zero, suc, ◌+◌, ◌-◌, ◌≤◌, ◌<◌, Bool, true, false, [], ◌∷◌, ◌++◌, Bytes, bytes_beq_iff, ◌==◌,
  if◌then◌else◌, length, take, drop, ◌≡◌, refl, sym, ap, ◌∙◌, arith, ◌↔◌, Bool-cases, inl, inr,
  length-append,
}
use quill_template_engine.Runtime.Text.{matches_at, contains_from, contains_string}

-- `sub` stands in `s`, with `before` in front of it.
pub record Occurs (sub s : Bytes) : Type 0 where
  pub before : Bytes
  pub after : Bytes
  pub splits : s ≡ before ++ (sub ++ after)

take-append_drop : (n : ℕ) (xs : Bytes) → take n xs ++ drop n xs ≡ xs
take-append_drop zero xs = refl
take-append_drop (suc n) [] = refl
take-append_drop (suc n) (x ∷ xs) = ap (◌∷◌ x) (take-append_drop n xs)

take-length : (sub after : Bytes) → take (length sub) (sub ++ after) ≡ sub
take-length [] after = refl
take-length (x ∷ sub) after = ap (◌∷◌ x) (take-length sub after)

drop-length : (before rest : Bytes) → drop (length before) (before ++ rest) ≡ rest
drop-length [] rest = refl
drop-length (x ∷ before) rest = drop-length before rest

matches_at-Occurs : (s sub : Bytes) (i : ℕ) → matches_at s sub i ≡ true → Occurs sub s
matches_at-Occurs s sub i m =
    let found = (bytes_beq_iff _ sub).0 m in
    record {
      before = take i s;
      after = drop (length sub) (drop i s);
      splits =
          sym (take-append_drop i s)
          ∙ ap (λ t. take i s ++ t)
              (sym (take-append_drop (length sub) (drop i s))
                ∙ ap (λ t. t ++ drop (length sub) (drop i s)) found);
    }

contains_from-Occurs :
    (rounds i : ℕ) (s sub : Bytes) → contains_from rounds i s sub ≡ true → Occurs sub s
unfolding contains_from
contains_from-Occurs zero i s sub h = cc
contains_from-Occurs (suc rounds) i s sub h = elim (Bool-cases (matches_at s sub i)) [
  | inl m ↦ matches_at-Occurs s sub i m
  | inr m ↦ contains_from-Occurs rounds (suc i) s sub (rw m at h)
]

Occurs-matches_at : (s sub : Bytes) (o : Occurs sub s) → matches_at s sub (length o.before) ≡ true
Occurs-matches_at s sub o = (bytes_beq_iff _ sub).1 (
    ap (λ t. take (length sub) (drop (length o.before) t)) o.splits
    ∙ ap (take (length sub)) (drop-length o.before (sub ++ o.after))
    ∙ take-length sub o.after)

if_same : (b : Bool) → (if b then true else true) ≡ true
if_same true = refl
if_same false = refl

contains_from-matches :
    (rounds i j : ℕ) (s sub : Bytes)
    → i ≤ j
    → j < i + rounds
    → matches_at s sub j ≡ true
    → contains_from rounds i s sub ≡ true
unfolding contains_from
contains_from-matches zero i j s sub lo hi m = absurd (omega arith)
contains_from-matches (suc rounds) i j s sub lo hi m = elim (Bool-cases (i == j)) [
  | inl e ↦ let same : i ≡ j = ground arith in rw same (rw m)
  | inr e ↦
      let rest = contains_from-matches rounds (suc i) j s sub (ground arith) (omega arith) m in
      rw rest (if_same (matches_at s sub i))
]

Occurs-length : (s sub : Bytes) (o : Occurs sub s) → length o.before + length sub ≤ length s
Occurs-length s sub o =
    omega (
      arith,
      ap length o.splits,
      length-append o.before (sub ++ o.after),
      length-append sub o.after,
    )

-- `containsString` says yes exactly when the text is some bytes, then the needle, then some bytes.
pub contains_string_iff : (s sub : Bytes) → (contains_string s sub ≡ true) ↔ Occurs sub s
unfolding contains_string
contains_string_iff s [] = (λ h. record { before = []; after = s; splits = refl }, λ o. refl)
contains_string_iff s (c ∷ cs) =
    let sub = c ∷ cs in
    let rounds = length s - length sub + 1 in
    (
      λ h. contains_from-Occurs rounds 0 s sub (ground arith),
      λ o. ground (
        arith,
        Occurs-length s sub o,
        Occurs-matches_at s sub o,
        contains_from-matches rounds 0 (length o.before) s sub,
      ),
    )
