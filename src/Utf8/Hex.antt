-- ===== src/Utf8/Hex.antt =====
-- fmt's hexadecimal verbs: what a reader of the digits gets back.
use quill_template_engine.Prelude.{
  ℕ, zero, suc, ◌+◌, ◌-◌, ◌*◌, ◌/◌, ◌%◌, ◌<◌, ◌≤◌, ◌&&◌, Option, none, some, [], ◌∷◌, ◌++◌, Bytes,
  ltb, leb, length, if◌then◌else◌, ◌≡◌, refl, arith, ap, ◌∙◌, Bool-cases, inl, inr,
}
use quill_template_engine.Utf8.{hex_digit, hex_loop, format_hex, zeros, format_hex_padded}

-- The value of a capital hexadecimal digit.
unfoldable pub digit_value : ℕ → Option ℕ
digit_value c =
    if leb b'0' c && leb c b'9'
    then some (c - b'0')
    else if leb b'A' c && leb c b'F'
    then some (c - b'A' + 10)
    else none

pub digit_value-hex_digit : (d : ℕ) → d < 16 → digit_value (hex_digit d) ≡ some d
unfolding digit_value hex_digit
digit_value-hex_digit d h = ground arith

-- Digits up to the first byte that is none, behind the value so far.
unfoldable pub read_hex : ℕ → Bytes → ℕ × Bytes
unfolding digit_value
read_hex v [] = (v, [])
read_hex v (c ∷ s) = elim (digit_value c) [ none ↦ (v, c ∷ s) | some d ↦ read_hex (v * 16 + d) s ]

read_hex-digit :
    (v d w : ℕ) (s : Bytes) → d < 16 → w ≡ v * 16 + d → read_hex v (hex_digit d ∷ s) ≡ read_hex w s
unfolding read_hex
read_hex-digit v d w s h e = rw (read_hex, digit_value-hex_digit d h, e) refl

read_hex-hex_loop : (f n : ℕ) (out : Bytes) → n < f → read_hex 0 (hex_loop f n out) ≡ read_hex n out
unfolding hex_loop
read_hex-hex_loop zero n out h = absurd (omega arith)
read_hex-hex_loop (suc f) n out h = elim (Bool-cases (ltb n 16)) [
  | inl small ↦ rw small (read_hex-digit 0 n n out (ground arith) (omega arith))
  | inr large ↦ rw large (
      read_hex-hex_loop f (n / 16) (hex_digit (n % 16) ∷ out) (ground arith)
      ∙ read_hex-digit (n / 16) (n % 16) n out (omega arith) (omega arith))
]

read_hex-none : (n c : ℕ) (s : Bytes) → digit_value c ≡ none → read_hex n (c ∷ s) ≡ (n, c ∷ s)
unfolding read_hex
read_hex-none n c s h = rw (read_hex, h) refl

hex_loop-append :
    (f n : ℕ) (out rest : Bytes) → hex_loop f n out ++ rest ≡ hex_loop f n (out ++ rest)
unfolding hex_loop
hex_loop-append zero n out rest = refl
hex_loop-append (suc f) n out rest = elim (Bool-cases (ltb n 16)) [
  | inl small ↦ rw small refl
  | inr large ↦ rw large (hex_loop-append f (n / 16) (hex_digit (n % 16) ∷ out) rest)
]

-- Reading a print of `n` gives `n` and what stands behind it.
pub read_hex-format_hex :
    (n c : ℕ) (s : Bytes) → digit_value c ≡ none → read_hex 0 (format_hex n ++ c ∷ s) ≡ (n, c ∷ s)
unfolding format_hex
read_hex-format_hex n c s h =
    rw (hex_loop-append (suc n) n [] (c ∷ s), read_hex-hex_loop (suc n) n (c ∷ s) (omega arith))
      (read_hex-none n c s h)

hex_loop_last : (f n : ℕ) (out : Bytes) → n < 16 → hex_loop (suc f) n out ≡ hex_digit n ∷ out
unfolding hex_loop
hex_loop_last f n out h = ground arith

hex_loop_step :
    (f n : ℕ) (out : Bytes)
    → 16 ≤ n
    → hex_loop (suc f) n out ≡ hex_loop f (n / 16) (hex_digit (n % 16) ∷ out)
unfolding hex_loop
hex_loop_step f n out h = ground arith

last : (f n : ℕ) (out : Bytes) → n < 16 → n < f → hex_loop f n out ≡ hex_digit n ∷ out
last zero n out h k = absurd (omega arith)
last (suc f) n out h k = hex_loop_last f n out h

step :
    (f n : ℕ) (out rest : Bytes)
    → 16 ≤ n
    → n < f
    → ((g : ℕ) → n / 16 < g → hex_loop g (n / 16) (hex_digit (n % 16) ∷ out) ≡ rest)
    → hex_loop f n out ≡ rest
step zero n out rest h k next = absurd (omega arith)
step (suc f) n out rest h k next = hex_loop_step f n out h ∙ next f (omega arith)

format_hex_one : (n : ℕ) → n < 16 → format_hex n ≡ hex_digit n ∷ []
unfolding format_hex
format_hex_one n h = last (suc n) n [] h (omega arith)

format_hex_two :
    (n : ℕ) → 16 ≤ n → n < 256 → format_hex n ≡ hex_digit (n / 16) ∷ hex_digit (n % 16) ∷ []
unfolding format_hex
format_hex_two n h k =
    step (suc n) n [] _ h (omega arith) (λ g l. last g (n / 16) _ (omega arith) l)

format_hex_three :
    (n : ℕ)
    → 256 ≤ n
    → n < 4096
    → format_hex n ≡ hex_digit (n / 16 / 16) ∷ hex_digit (n / 16 % 16) ∷ hex_digit (n % 16) ∷ []
unfolding format_hex
format_hex_three n h k =
    step (suc n) n [] _ (omega arith) (omega arith)
      (λ g l. step g (n / 16) _ _ (omega arith) l (λ f m. last f (n / 16 / 16) _ (omega arith) m))

format_hex_four :
    (n : ℕ)
    → 4096 ≤ n
    → n < 65536
    → format_hex n
      ≡ hex_digit (n / 16 / 16 / 16)
        ∷ hex_digit (n / 16 / 16 % 16)
        ∷ hex_digit (n / 16 % 16)
        ∷ hex_digit (n % 16)
        ∷ []
unfolding format_hex
format_hex_four n h k = step (suc n) n [] _ (omega arith) (omega arith) (λ g l.
    step g (n / 16) _ _ (omega arith) l (λ f m.
      step f (n / 16 / 16) _ _ (omega arith) m
        (λ e o. last e (n / 16 / 16 / 16) _ (omega arith) o)))

format_hex_five :
    (n : ℕ)
    → 65536 ≤ n
    → n < 1048576
    → format_hex n
      ≡ hex_digit (n / 16 / 16 / 16 / 16)
        ∷ hex_digit (n / 16 / 16 / 16 % 16)
        ∷ hex_digit (n / 16 / 16 % 16)
        ∷ hex_digit (n / 16 % 16)
        ∷ hex_digit (n % 16)
        ∷ []
unfolding format_hex
format_hex_five n h k = step (suc n) n [] _ (omega arith) (omega arith) (λ g l.
    step g (n / 16) _ _ (omega arith) l (λ f m. step f (n / 16 / 16) _ _ (omega arith) m (λ e o.
      step e (n / 16 / 16 / 16) _ _ (omega arith) o
        (λ d q. last d (n / 16 / 16 / 16 / 16) _ (omega arith) q))))

mod_small : (n : ℕ) → n < 16 → n ≡ n % 16
mod_small n h = omega arith

digit_zero : (n : ℕ) → n ≡ 0 → b'0' ≡ hex_digit n
unfolding hex_digit
digit_zero n h = ground arith

padded :
    (width n : ℕ) (d : Bytes)
    → format_hex n ≡ d
    → format_hex_padded width n ≡ zeros (width - length d) d
unfolding format_hex_padded
padded width n d e = ap (λ d. zeros (width - length d) d) e

same_four :
    (a b c d e f g h : ℕ) → a ≡ e → b ≡ f → c ≡ g → d ≡ h → a ∷ b ∷ c ∷ d ∷ [] ≡ e ∷ f ∷ g ∷ h ∷ []
same_four a b c d e f g h p q r s = cc

pub format_hex_padded_two :
    (n : ℕ) → n < 256 → format_hex_padded 2 n ≡ hex_digit (n / 16) ∷ hex_digit (n % 16) ∷ []
format_hex_padded_two n h = elim (Bool-cases (ltb n 16)) [
  | inl small ↦
      padded 2 n _ (format_hex_one n (ground arith))
      ∙ cc (digit_zero (n / 16) (ground arith), ap hex_digit (mod_small n (ground arith)))
  | inr large ↦ padded 2 n _ (format_hex_two n (ground arith) h)
]

pub format_hex_padded_four :
    (n : ℕ)
    → n < 65536
    → format_hex_padded 4 n
      ≡ hex_digit (n / 16 / 16 / 16)
        ∷ hex_digit (n / 16 / 16 % 16)
        ∷ hex_digit (n / 16 % 16)
        ∷ hex_digit (n % 16)
        ∷ []
format_hex_padded_four n h = elim (Bool-cases (ltb n 16)) [
  | inl small ↦
      padded 4 n _ (format_hex_one n (ground arith))
      ∙ same_four _ _ _ _ _ _ _ _ (digit_zero (n / 16 / 16 / 16) (ground arith))
          (digit_zero (n / 16 / 16 % 16) (ground arith)) (digit_zero (n / 16 % 16) (ground arith))
          (ap hex_digit (mod_small n (ground arith)))
  | inr not_one ↦ elim (Bool-cases (ltb n 256)) [
    | inl small ↦
        padded 4 n _ (format_hex_two n (ground arith) (ground arith))
        ∙ same_four _ _ _ _ _ _ _ _ (digit_zero (n / 16 / 16 / 16) (ground arith))
            (digit_zero (n / 16 / 16 % 16) (ground arith))
            (ap hex_digit (mod_small (n / 16) (ground arith))) refl
    | inr not_two ↦ elim (Bool-cases (ltb n 4096)) [
      | inl small ↦
          padded 4 n _ (format_hex_three n (ground arith) (ground arith))
          ∙ same_four _ _ _ _ _ _ _ _ (digit_zero (n / 16 / 16 / 16) (ground arith))
              (ap hex_digit (mod_small (n / 16 / 16) (ground arith))) refl refl
      | inr not_three ↦ padded 4 n _ (format_hex_four n (ground arith) h)
    ]
  ]
]

-- A number of five digits is not cut to four.
pub format_hex_padded_five :
    (n : ℕ)
    → 65536 ≤ n
    → n < 1048576
    → format_hex_padded 4 n
      ≡ hex_digit (n / 16 / 16 / 16 / 16)
        ∷ hex_digit (n / 16 / 16 / 16 % 16)
        ∷ hex_digit (n / 16 / 16 % 16)
        ∷ hex_digit (n / 16 % 16)
        ∷ hex_digit (n % 16)
        ∷ []
format_hex_padded_five n h k = padded 4 n _ (format_hex_five n h k)
