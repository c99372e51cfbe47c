-- ===== src/Interp/Arith.antt =====
-- The checked int64 arithmetic of internal/interp/operators.go. A pair (0, false) is none.
-- An int64 is an integer, and what Go's operators leave of a result is its `wrap`.
pub mod Sums
pub mod Products
pub mod Quotients
pub mod Signs
pub mod Powers
use quill_template_engine.Prelude.{
  ℕ, zero, suc, ◌-◌, ◌*◌, ◌/◌, ◌%◌, ◌^◌, Bool, true, false, not, ◌&&◌, ◌||◌, Option, none, some,
  if◌then◌else◌, ◌==◌,
}
use quill_template_engine.Prelude.Int.{
  ℤ, pos, negsuc, int_beq, wrap, ◌+ℤ◌, ◌-ℤ◌, ◌*ℤ◌, quot, rem, is_negative, in_int64, xor,
}

-- What a checked operation gives for an exact result.
unfoldable pub checked : ℤ → Option ℤ
unfolding in_int64
checked z = if in_int64 z then some z else none

-- a > 0
abbrev pub is_positive : ℤ → Bool
is_positive (pos zero) = false
is_positive (pos (suc n)) = true
is_positive (negsuc n) = false

unfoldable pub add_int64 : ℤ → ℤ → Option ℤ
unfolding wrap ◌+ℤ◌
add_int64 a b =
    let s = wrap (a +ℤ b) in
    if (is_positive a && is_positive b && is_negative s)
      || (is_negative a && is_negative b && not (is_negative s))
    then none
    else some s

unfoldable pub sub_int64 : ℤ → ℤ → Option ℤ
unfolding wrap ◌-ℤ◌
sub_int64 a b =
    let d = wrap (a -ℤ b) in
    if (not (is_negative a) && is_negative b && is_negative d)
      || (is_negative a && is_positive b && not (is_negative d))
    then none
    else some d

-- math.MinInt64
abbrev pub min_int64 : ℤ
min_int64 = negsuc (2 ^ 63 - 1)

abbrev pub is_min_by_minus_one : ℤ → ℤ → Bool
is_min_by_minus_one a b = int_beq a min_int64 && int_beq b (negsuc 0)

unfoldable pub mul_int64 : ℤ → ℤ → Option ℤ
mul_int64 a b =
    let p = wrap (a *ℤ b) in
    if int_beq a (pos 0) || int_beq b (pos 0)
    then some (pos 0)
    else if is_min_by_minus_one a b || is_min_by_minus_one b a
    then none
    else if not (int_beq (wrap (quot p a)) b)
    then none
    else some p

unfoldable pub div_int64 : ℤ → ℤ → Option ℤ
div_int64 a b = if is_min_by_minus_one a b then none else some (wrap (quot a b))

unfoldable pub floor_div_int64 : ℤ → ℤ → Option ℤ
unfolding div_int64
floor_div_int64 a b = elim (div_int64 a b) [
  | none ↦ none
  | some q ↦ some (
      if not (int_beq (rem a b) (pos 0)) && xor (is_negative a) (is_negative b)
      then wrap (q -ℤ pos 1)
      else q)
]

-- The loop of powInt64, where the bits of the exponent are its rounds: e & 1 is e % 2, e >>= 1 halves.
unfoldable pub pow_loop : ℕ → ℤ → ℤ → ℕ → Option ℤ
unfolding mul_int64
pow_loop zero result base e = some result
pow_loop (suc rounds) result base e =
    if e == 0
    then some result
    else elim (if e % 2 == 1 then mul_int64 result base else some result) [
      | none ↦ none
      | some r ↦
          if e / 2 == 0
          then some r
          else elim (mul_int64 base base) [ none ↦ none | some sq ↦ pow_loop rounds r sq (e / 2) ]
    ]

-- The exponent is not negative; it bounds the rounds.
unfoldable pub pow_int64 : ℤ → ℕ → Option ℤ
unfolding pow_loop
pow_int64 a e = pow_loop e (pos 1) a e
