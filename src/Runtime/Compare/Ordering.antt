-- ===== src/Runtime/Compare/Ordering.antt =====
-- `Order`: its domain, its operands swapped, and large integers.
use quill_template_engine.Prelude.{
  Bool, true, false, ◌&&◌, ◌||◌, Bytes, bytes_ltb, bytes_ltb_asymm, ◌≡◌, ◌≢◌, refl, arith, some, ℕ,
  suc,
}
use quill_template_engine.Prelude.Int.{ℤ, int_beq_iff}
use quill_template_engine.Errors.{Result, ok, err}
use quill_template_engine.Runtime.Value.{
  Value, null, bool, int, float, str, arr, obj, safe, normalize_safe,
}
use quill_template_engine.Runtime.Heap.{Heap}
use quill_template_engine.Runtime.Host.{Host}
use quill_template_engine.Runtime.Compare.{
  Sign, less, level, more, order, order_floats, sign_of, equal, is_numeric,
}

abbrev pub flip_sign : Sign → Sign
flip_sign less = more
flip_sign level = level
flip_sign more = less

abbrev pub flip_result : Result Sign → Result Sign
flip_result (ok s) = ok (flip_sign s)
flip_result (err e) = err e

module _ {F O : Type 0} where
  -- The texts: Str, and Safe by its content.
  abbrev pub is_text : Value F O → Bool
  is_text (str s) = true
  is_text (safe s) = true
  is_text v = false

abbrev pub is_defined : Result Sign → Bool
is_defined (ok s) = true
is_defined (err e) = false

texts_flip :
    (a b : Bytes)
    → ◌≡◌ {A = Result Sign}
        (ok (sign_of (bytes_ltb b a) (bytes_ltb a b)))
        (flip_result (ok (sign_of (bytes_ltb a b) (bytes_ltb b a))))
texts_flip a b = ground (arith, bytes_ltb_asymm a b, bytes_ltb_asymm b a)

module _ {F O : Type 0} (host : Host F O) where
  -- Order gives a sign for two numbers and for two texts, and an error for every other pair.
  pub order_defined :
      (a b : Value F O)
      → is_defined (order host a b) ≡ (is_numeric a && is_numeric b) || (is_text a && is_text b)
  unfolding order normalize_safe is_numeric
  order_defined null null = refl
  order_defined (bool a) null = refl
  order_defined (int a) null = refl
  order_defined (float a) null = refl
  order_defined (str a) null = refl
  order_defined (arr a) null = refl
  order_defined (obj a) null = refl
  order_defined (safe a) null = refl
  order_defined _ _ = refl

  floats_flip :
      (x y : F)
      → ((x y : F) → host.float_lt x y ≡ true → host.float_lt y x ≡ false)
      → order_floats host y x ≡ flip_result (order_floats host x y)
  unfolding order_floats
  floats_flip x y asymm = ground (arith, asymm x y, asymm y x)

  -- Where `<` on floats is asymmetric, swapping the operands of Order flips its sign, and a pair
  -- is refused one way with the error of the other way.
  pub order_flip :
      (a b : Value F O)
      → ((x y : F) → host.float_lt x y ≡ true → host.float_lt y x ≡ false)
      → order host b a ≡ flip_result (order host a b)
  unfolding order normalize_safe
  order_flip (int a) (int b) asymm = floats_flip (host.float_of_int a) (host.float_of_int b) asymm
  order_flip (int a) (float b) asymm = floats_flip (host.float_of_int a) b asymm
  order_flip (float a) (int b) asymm = floats_flip a (host.float_of_int b) asymm
  order_flip (float a) (float b) asymm = floats_flip a b asymm
  order_flip (str a) (str b) asymm = texts_flip a b
  order_flip (str a) (safe b) asymm = texts_flip a b
  order_flip (safe a) (str b) asymm = texts_flip a b
  order_flip (safe a) (safe b) asymm = texts_flip a b
  order_flip null null asymm = refl
  order_flip (bool a) null asymm = refl
  order_flip (arr a) null asymm = refl
  order_flip (obj a) null asymm = refl
  order_flip _ _ asymm = refl

  -- Where `<` on floats is irreflexive, two different integers with one float are level in Order
  -- and not Equal.
  pub order_rounds :
      (a b : ℤ) (fuel : ℕ) (h : Heap F O)
      → ((x : F) → host.float_lt x x ≡ false)
      → host.float_of_int a ≡ host.float_of_int b
      → a ≢ b
      → (order host (int a) (int b) ≡ ok level)
        × (equal host (suc fuel) h (int a) (int b) ≡ some false)
  unfolding order normalize_safe equal
  order_rounds a b fuel h irrefl one ne =
      (rw one (rw (irrefl (host.float_of_int b))), ground (arith, int_beq_iff a b))
