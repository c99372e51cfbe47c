-- ===== src/Sandbox/Scan.antt =====
-- The inner loop of `ancestors`: what a scan adds to the output and to the queue.
use quill_template_engine.Prelude.{
  ℕ, suc, ◌+◌, ◌≤◌, ◌<◌, true, false, not, ◌&&◌, ◌||◌, List, [], ◌∷◌, ◌++◌, Bytes, bytes_eq,
  bytes_beq, bytes_beq_iff, if◌then◌else◌, length, length-append, mem, mem-append, distinct,
  distinct-append_one, ◌≡◌, ap, arith,
}
use quill_template_engine.Prelude.Assoc.{Assoc, lookup}
use quill_template_engine.Sandbox.{
  Search, scan_parents, TypeGraph, parents_of, names_at, supers_in, search_from,
}

-- The flags and the output hold the same names.
pub record InStep (s : Search) : Type 0 where
  pub flags : (w : Bytes) → mem w s.seen ≡ mem w s.out
  pub once : distinct s.out ≡ true

abbrev offer : Bytes → Search → Search
offer p s =
    if mem p s.seen
    then s
    else record { out = s.out ++ p ∷ []; seen = p ∷ s.seen; queue = s.queue ++ p ∷ [] }

offer-InStep : (p : Bytes) (s : Search) → InStep s → InStep (offer p s)
unfolding mem
offer-InStep p s h = record {
  flags = λ w. ground (arith, h.flags w, mem-append w s.out (p ∷ []));
  once = ground (arith, h.flags p, h.once, distinct-append_one s.out p);
}

pub scan_parents-InStep : (ps : List Bytes) (s : Search) → InStep s → InStep (scan_parents ps s)
unfolding scan_parents
scan_parents-InStep [] s h = h
scan_parents-InStep (p ∷ ps) s h = scan_parents-InStep ps (offer p s) (offer-InStep p s h)

mem-offer_out :
    (p : Bytes) (s : Search) (w : Bytes)
    → InStep s
    → mem w (offer p s).out ≡ mem w s.out || bytes_beq p w
unfolding mem
mem-offer_out p s w h = ground (arith, h.flags p, mem-append w s.out (p ∷ []), bytes_beq_iff p w)

mem-offer_queue :
    (p : Bytes) (s : Search) (w : Bytes)
    → InStep s
    → mem w (offer p s).queue ≡ mem w s.queue || (bytes_beq p w && not (mem w s.out))
unfolding mem
mem-offer_queue p s w h =
    ground (arith, h.flags p, mem-append w s.queue (p ∷ []), bytes_beq_iff p w)

-- A scan puts out the names that it is given.
pub mem-scan_out :
    (ps : List Bytes) (s : Search) (w : Bytes)
    → InStep s
    → mem w (scan_parents ps s).out ≡ mem w s.out || mem w ps
unfolding scan_parents mem
mem-scan_out [] s w h = ground arith
mem-scan_out (p ∷ ps) s w h =
    ground (arith, mem-scan_out ps (offer p s) w (offer-InStep p s h), mem-offer_out p s w h)

-- It queues those that were not put out before.
pub mem-scan_queue :
    (ps : List Bytes) (s : Search) (w : Bytes)
    → InStep s
    → mem w (scan_parents ps s).queue ≡ mem w s.queue || (mem w ps && not (mem w s.out))
unfolding scan_parents mem
mem-scan_queue [] s w h = ground arith
mem-scan_queue (p ∷ ps) s w h = ground (
  arith,
  mem-scan_queue ps (offer p s) w (offer-InStep p s h),
  mem-offer_out p s w h,
  mem-offer_queue p s w h,
)

-- The names of a list that are not yet seen, as often as they stand there.
unseen : List Bytes → List Bytes → ℕ
unseen [] seen = 0
unseen (x ∷ xs) seen = (if mem x seen then 0 else 1) + unseen xs seen

unseen-le : (u seen : List Bytes) → unseen u seen ≤ length u
unfolding unseen
unseen-le [] seen = omega arith
unseen-le (x ∷ u) seen = ground (arith, unseen-le u seen)

unseen-cons_le :
    (u : List Bytes) (p : Bytes) (seen : List Bytes) → unseen u (p ∷ seen) ≤ unseen u seen
unfolding unseen mem
unseen-cons_le [] p seen = omega arith
unseen-cons_le (x ∷ u) p seen = ground (arith, unseen-cons_le u p seen)

unseen-cons_lt :
    (u : List Bytes) (p : Bytes) (seen : List Bytes)
    → mem p u ≡ true
    → mem p seen ≡ false
    → unseen u (p ∷ seen) < unseen u seen
unfolding unseen mem
unseen-cons_lt [] p seen m n = cc
unseen-cons_lt (x ∷ u) p seen m n =
    ground (
      arith,
      unseen-cons_lt u p seen,
      unseen-cons_le u p seen,
      bytes_beq_iff x p,
      bytes_beq_iff p x,
    )

abbrev IsWithin : List Bytes → List Bytes → Type 0
IsWithin ps u = (w : Bytes) → mem w ps ≡ true → mem w u ≡ true

pub work : List Bytes → Search → ℕ
unfolding unseen
work u s = unseen u s.seen + length s.queue

pub work-pop :
    (u : List Bytes) (s : Search) (cur : Bytes) (rest : List Bytes)
    → s.queue ≡ cur ∷ rest
    → work u s ≡ suc (work u (record s { queue = rest }))
unfolding work
work-pop u s cur rest e = omega (arith, ap length e)

pub work-search_from : (u : List Bytes) (t : Bytes) → work u (search_from t) ≤ suc (length u)
unfolding work
work-search_from u t = omega (arith, unseen-le u (t ∷ []))

pub work_idle : (u : List Bytes) (s : Search) → work u s ≤ 0 → s.queue ≡ []
unfolding work
work_idle u s h = ground arith

offer-work :
    (u : List Bytes) (p : Bytes) (s : Search) → mem p u ≡ true → work u (offer p s) ≤ work u s
unfolding work
offer-work u p s m = ground (arith, unseen-cons_lt u p s.seen m, length-append s.queue (p ∷ []))

pub scan_parents-work :
    (u : List Bytes) (ps : List Bytes) (s : Search)
    → ((w : Bytes) → mem w ps ≡ true → mem w u ≡ true)
    → work u (scan_parents ps s) ≤ work u s
unfolding scan_parents
scan_parents-work u [] s m = omega arith
scan_parents-work u (p ∷ ps) s m = omega (
  arith,
  scan_parents-work u ps (offer p s) (λ w h. m w (unfold mem in ground arith)),
  offer-work u p s (m p (unfold mem in ground (arith, bytes_beq_iff p p))),
)

parents_within :
    (t w : Bytes) (m : Assoc Bytes (List Bytes))
    → mem w (names_at t m) ≡ true
    → mem w (supers_in m) ≡ true
unfolding names_at supers_in lookup mem
parents_within t w [] h = cc
parents_within t w ((j, supers) ∷ m) h =
    ground (arith, parents_within t w m, mem-append w supers (supers_in m))

pub parents_of_within :
    (g : TypeGraph) (t w : Bytes)
    → mem w (parents_of g t) ≡ true
    → mem w (supers_in g.parents) ≡ true
unfolding parents_of
parents_of_within g t w h = parents_within t w g.parents h
