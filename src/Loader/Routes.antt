-- ===== src/Loader/Routes.antt =====
-- pkg/loader/composable.go: the order of the routes of a PrefixLoader.
use mathlib.Core.Path.{subst}
use mathlib.Core.List.{Memᴰ, Permᴰ}
use mathlib.Core.List.Permᴰ
use quill_template_engine.Prelude.{
  ℕ, ◌≤◌, Bool, true, false, not, ◌&&◌, ◌||◌, Option, none, some, List, [], ◌∷◌, ◌++◌, Bytes,
  length, ltb, leb, All, ◌≡◌, refl, arith, ◌∙◌, Bool-cases, inl, inr,
}
use quill_template_engine.Prelude.Assoc.{Assoc}
use quill_template_engine.Loader.{
  Loader, PrefixRoute, has_prefix, passes, place, sort_routes, find_route, full_routes,
  prefix_routes,
}

module _ {ℓ} {A : Type ℓ} where
  Memᴰ-Permᴰ : {a : A} {xs ys : List A} → Permᴰ xs ys → Memᴰ a xs → Memᴰ a ys
  Memᴰ-Permᴰ Permᴰ.nil m = m
  Memᴰ-Permᴰ (Permᴰ.cons e d) (Memᴰ.head f) = Memᴰ.head (f ∙ e)
  Memᴰ-Permᴰ (Permᴰ.cons e d) (Memᴰ.tail m) = Memᴰ.tail (Memᴰ-Permᴰ d m)
  Memᴰ-Permᴰ (Permᴰ.swap e f) (Memᴰ.head g) = Memᴰ.tail (Memᴰ.head (g ∙ e))
  Memᴰ-Permᴰ (Permᴰ.swap e f) (Memᴰ.tail (Memᴰ.head g)) = Memᴰ.head (g ∙ f)
  Memᴰ-Permᴰ (Permᴰ.swap e f) (Memᴰ.tail (Memᴰ.tail m)) = Memᴰ.tail (Memᴰ.tail m)
  Memᴰ-Permᴰ (Permᴰ.trans d e) m = Memᴰ-Permᴰ e (Memᴰ-Permᴰ d m)

module _ {ℓ κ} {A : Type ℓ} (P : A → Type κ) where
  All-Permᴰ : {xs ys : List A} → Permᴰ xs ys → All P xs → All P ys
  All-Permᴰ Permᴰ.nil h = h
  All-Permᴰ (Permᴰ.cons e d) h = (subst P e h.0, All-Permᴰ d h.1)
  All-Permᴰ (Permᴰ.swap e f) h = (subst P f h.1.0, (subst P e h.0, h.1.1))
  All-Permᴰ (Permᴰ.trans d e) h = All-Permᴰ e (All-Permᴰ d h)

module _ {E : Type 0} where
  place-Permᴰ : (r : PrefixRoute E) (qs : List (PrefixRoute E)) → Permᴰ (r ∷ qs) (place r qs)
  unfolding place
  place-Permᴰ r [] = Permᴰ.refl (r ∷ [])
  place-Permᴰ r (q ∷ qs) = elim (Bool-cases (passes r (q ∷ qs))) [
    | inl e ↦ rw e (Permᴰ.refl (r ∷ q ∷ qs))
    | inr e ↦ rw e (Permᴰ.trans (Permᴰ.swap refl refl) (Permᴰ.cons refl (place-Permᴰ r qs)))
  ]

  -- The sort loses no route and makes none.
  sort_routes-Permᴰ : (done rs : List (PrefixRoute E)) → Permᴰ (done ++ rs) (sort_routes done rs)
  unfolding sort_routes
  sort_routes-Permᴰ done [] = Permᴰ.append-nil done
  sort_routes-Permᴰ done (r ∷ rs) = Permᴰ.trans (Permᴰ.middle r done rs) (
      Permᴰ.trans (Permᴰ.append_right rs (place-Permᴰ r done))
        (sort_routes-Permᴰ (place r done) rs))

  -- A route that the name does not start with, or whose prefix is at most this long.
  abbrev pub AtMost : Bytes → ℕ → PrefixRoute E → Type 0
  AtMost name n q = (not (has_prefix name q.full) || leb (length q.full) n) ≡ true

  -- A route of the list, its loader with it, that the name starts with and that no longer one
  -- beats; or none, where the name starts with none of them.
  abbrev pub Longest : Bytes → List (PrefixRoute E) → Option (PrefixRoute E) → Type 0
  Longest name rs none = All (λ q. has_prefix name q.full ≡ false) rs
  Longest name rs (some r) =
      Memᴰ r rs × (has_prefix name r.full ≡ true) × All (AtMost name (length r.full)) rs

  Longest-Permᴰ :
      (name : Bytes) (qs rs : List (PrefixRoute E)) (o : Option (PrefixRoute E))
      → Permᴰ qs rs
      → Longest name qs o
      → Longest name rs o
  Longest-Permᴰ name qs rs none d h = All-Permᴰ (λ q. has_prefix name q.full ≡ false) d h
  Longest-Permᴰ name qs rs (some r) d (m, h, k) =
      (Memᴰ-Permᴰ d m, h, All-Permᴰ (AtMost name (length r.full)) d k)

  no_longer : ℕ → List (PrefixRoute E) → Bool
  no_longer n [] = true
  no_longer n (q ∷ qs) = leb (length q.full) n && no_longer n qs

  longest_first : List (PrefixRoute E) → Bool
  longest_first [] = true
  longest_first (q ∷ qs) = no_longer (length q.full) qs && longest_first qs

  no_longer-place :
      (n : ℕ) (r : PrefixRoute E) (qs : List (PrefixRoute E))
      → no_longer n (place r qs) ≡ leb (length r.full) n && no_longer n qs
  unfolding no_longer place
  no_longer-place n r [] = refl
  no_longer-place n r (q ∷ qs) = ground (arith, no_longer-place n r qs)

  no_longer_mono :
      (m n : ℕ) (qs : List (PrefixRoute E)) → m ≤ n → no_longer m qs ≡ true → no_longer n qs ≡ true
  unfolding no_longer
  no_longer_mono m n [] le h = refl
  no_longer_mono m n (q ∷ qs) le h = ground (arith, no_longer_mono m n qs le)

  passes-longer :
      (r : PrefixRoute E) (n : ℕ) (qs : List (PrefixRoute E))
      → no_longer n qs ≡ true
      → ltb n (length r.full) ≡ true
      → passes r qs ≡ true
  unfolding no_longer passes
  passes-longer r n [] h k = refl
  passes-longer r n (q ∷ qs) h k = ground (arith, passes-longer r n qs)

  not_past :
      (r q : PrefixRoute E) (qs : List (PrefixRoute E))
      → no_longer (length q.full) qs ≡ true
      → passes r (q ∷ qs) ≡ false
      → leb (length r.full) (length q.full) ≡ true
  unfolding no_longer passes
  not_past r q qs h k = ground (arith, passes-longer r (length q.full) qs h)

  past :
      (r : PrefixRoute E) (qs : List (PrefixRoute E))
      → passes r qs ≡ true
      → no_longer (length r.full) qs ≡ true
  unfolding no_longer passes
  past r [] h = refl
  past r (q ∷ qs) h = ground (arith, past r qs)

  longest_first-place :
      (r : PrefixRoute E) (qs : List (PrefixRoute E))
      → longest_first qs ≡ true
      → longest_first (place r qs) ≡ true
  unfolding longest_first place no_longer
  longest_first-place r [] h = refl
  longest_first-place r (q ∷ qs) h = elim (Bool-cases (passes r (q ∷ qs))) [
    | inl e ↦ rw e (ground (arith, past r (q ∷ qs) e))
    | inr e ↦ rw e (
        ground
          (arith, no_longer-place (length q.full) r qs, not_past r q qs, longest_first-place r qs))
  ]

  longest_first-sort_routes :
      (done rs : List (PrefixRoute E))
      → longest_first done ≡ true
      → longest_first (sort_routes done rs) ≡ true
  unfolding sort_routes
  longest_first-sort_routes done [] h = h
  longest_first-sort_routes done (r ∷ rs) h =
      longest_first-sort_routes (place r done) rs (longest_first-place r done h)

  no_longer-AtMost :
      (name : Bytes) (n : ℕ) (qs : List (PrefixRoute E))
      → no_longer n qs ≡ true
      → All (AtMost name n) qs
  unfolding no_longer
  no_longer-AtMost name n [] h = tt
  no_longer-AtMost name n (q ∷ qs) h = (ground arith, no_longer-AtMost name n qs (ground arith))

  Longest-later :
      (name : Bytes) (q : PrefixRoute E) (qs : List (PrefixRoute E)) (o : Option (PrefixRoute E))
      → has_prefix name q.full ≡ false
      → Longest name qs o
      → Longest name (q ∷ qs) o
  Longest-later name q qs none e h = (e, h)
  Longest-later name q qs (some r) e (m, h, k) = (Memᴰ.tail m, h, (rw e refl, k))

  find_route-Longest :
      (name : Bytes) (qs : List (PrefixRoute E))
      → longest_first qs ≡ true
      → Longest name qs (find_route name qs)
  unfolding longest_first find_route
  find_route-Longest name [] h = tt
  find_route-Longest name (q ∷ qs) h = elim (Bool-cases (has_prefix name q.full)) [
    | inl e ↦
        rw e (
          Memᴰ.head refl,
          e,
          (ground arith, no_longer-AtMost name (length q.full) qs (ground arith)),
        )
    | inr e ↦
        rw e (
          Longest-later name q qs (find_route name qs) e
            (find_route-Longest name qs (ground arith)))
  ]

  -- In whatever order the routes are registered, the route that a PrefixLoader finds for a name
  -- is one of the registered routes, its prefix, delimiter included, with its loader; the name
  -- starts with that prefix, and no registered prefix that the name starts with is longer. It
  -- finds none only where the name starts with no registered prefix.
  pub find_route-prefix_routes :
      (name delimiter : Bytes) (routes : Assoc Bytes (Loader E))
      → Longest name
          (full_routes delimiter routes)
          (find_route name (prefix_routes delimiter routes))
  unfolding prefix_routes longest_first
  find_route-prefix_routes name delimiter routes =
      let full = full_routes delimiter routes in
      Longest-Permᴰ name (sort_routes [] full) full (find_route name (sort_routes [] full))
        (Permᴰ.symm (sort_routes-Permᴰ [] full))
        (find_route-Longest name (sort_routes [] full) (longest_first-sort_routes [] full refl))
