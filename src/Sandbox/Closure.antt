-- ===== src/Sandbox/Closure.antt =====
-- The outer loop of `ancestors`, beside the paths of declared edges.
use quill_template_engine.Prelude.{
  List-cases, ℕ, zero, suc, ◌≤◌, true, false, not, ◌&&◌, ◌||◌, some, List, [], ◌∷◌, Bytes, bytes_eq,
  bytes_beq, bytes_beq_iff, length, mem, distinct, ◌≡◌, refl, arith, Bool-cases, inl, inr, ◌↔◌, sym,
}
use quill_template_engine.Sandbox.{
  Search, scan_parents, TypeGraph, parents_of, supers_in, search_from, walk, ancestors,
}
use quill_template_engine.Sandbox.Scan.{
  InStep, scan_parents-InStep, mem-scan_out, mem-scan_queue, work, work-pop, work_idle,
  work-search_from, scan_parents-work, parents_of_within,
}

-- A path of declared edges from a type.
pub data Ancestor (g : TypeGraph) (t : Bytes) : Bytes → Type 0 where
  itself : Ancestor g t t
  above : {u v : Bytes} → Ancestor g t u → mem v (parents_of g u) ≡ true → Ancestor g t v

module _ (g : TypeGraph) (t : Bytes) where
  record Inv (s : Search) : Type 0 where
    in_step : InStep s
    source : mem t s.out ≡ true
    sound : (w : Bytes) → mem w s.out ≡ true → Ancestor g t w
    queued : (w : Bytes) → mem w s.queue ≡ true → mem w s.out ≡ true
    closed :
        (u v : Bytes)
        → mem u s.out ≡ true
        → mem v (parents_of g u) ≡ true
        → mem u s.queue || mem v s.out ≡ true

  abbrev popped : Search → List Bytes → Search
  popped s rest = record s { queue = rest }

  abbrev expand : Search → Bytes → List Bytes → Search
  expand s cur rest = scan_parents (parents_of g cur) (popped s rest)

  popped-InStep : (s : Search) (rest : List Bytes) → InStep s → InStep (popped s rest)
  popped-InStep s rest i = record { flags = i.flags; once = i.once }

  expand_out :
      (s : Search) (cur : Bytes) (rest : List Bytes) (w : Bytes)
      → Inv s
      → mem w (expand s cur rest).out ≡ mem w s.out || mem w (parents_of g cur)
  expand_out s cur rest w h =
      mem-scan_out (parents_of g cur) (popped s rest) w (popped-InStep s rest h.in_step)

  expand_queue :
      (s : Search) (cur : Bytes) (rest : List Bytes) (w : Bytes)
      → Inv s
      → mem w (expand s cur rest).queue
        ≡ mem w rest || (mem w (parents_of g cur) && not (mem w s.out))
  expand_queue s cur rest w h =
      mem-scan_queue (parents_of g cur) (popped s rest) w (popped-InStep s rest h.in_step)

  queue_head :
      (s : Search) (cur : Bytes) (rest : List Bytes) (w : Bytes)
      → s.queue ≡ cur ∷ rest
      → mem w s.queue ≡ bytes_beq cur w || mem w rest
  queue_head s cur rest w e = rw e (unfold mem in refl)

  head_out :
      (s : Search) (cur : Bytes) (rest : List Bytes)
      → s.queue ≡ cur ∷ rest
      → Inv s
      → mem cur s.out ≡ true
  head_out s cur rest e h =
      h.queued cur (ground (arith, queue_head s cur rest cur e, bytes_beq_iff cur cur))

  expand-sound :
      (s : Search) (cur : Bytes) (rest : List Bytes)
      → s.queue ≡ cur ∷ rest
      → Inv s
      → (w : Bytes) → mem w (expand s cur rest).out ≡ true
      → Ancestor g t w
  expand-sound s cur rest e h w m = elim (Bool-cases (mem w s.out)) [
    | inl old ↦ h.sound w old
    | inr new ↦
        above (h.sound cur (head_out s cur rest e h)) (ground (arith, expand_out s cur rest w h))
  ]

  -- A round keeps the invariant.
  expand-Inv :
      (s : Search) (cur : Bytes) (rest : List Bytes)
      → s.queue ≡ cur ∷ rest
      → Inv s
      → Inv (expand s cur rest)
  expand-Inv s cur rest e h = record {
    in_step =
        scan_parents-InStep (parents_of g cur) (popped s rest) (popped-InStep s rest h.in_step);
    source = ground (arith, h.source, expand_out s cur rest t h);
    sound = expand-sound s cur rest e h;
    queued = λ w m. ground (
      arith,
      expand_out s cur rest w h,
      expand_queue s cur rest w h,
      h.queued w,
      queue_head s cur rest w e,
    );
    closed = λ u v m p. ground (
      arith,
      expand_out s cur rest u h,
      expand_out s cur rest v h,
      expand_queue s cur rest u h,
      h.closed u v,
      queue_head s cur rest u e,
      bytes_beq_iff cur u,
    );
  }

  -- With nothing queued, the output is closed under the edges.
  complete : (s : Search) → Inv s → s.queue ≡ [] → {w : Bytes} → Ancestor g t w → mem w s.out ≡ true
  complete s h e itself = h.source
  complete s h e (above {u} {v} p m) =
      ground (arith, complete s h e p, h.closed u v, nothing_queued u)
    where
      nothing_queued : (u : Bytes) → mem u s.queue ≡ false
      nothing_queued u = rw e (unfold mem in refl)

  pub record IsClosure (out : List Bytes) : Type 0 where
    pub exact : (w : Bytes) → (mem w out ≡ true) ↔ Ancestor g t w
    pub once : distinct out ≡ true

  done-IsClosure : (s : Search) → Inv s → s.queue ≡ [] → IsClosure s.out
  done-IsClosure s h e = record { exact = λ w. (h.sound w, complete s h e); once = h.in_step.once }

  -- The rounds cover the work: what is queued, and what the graph has and the search has not seen.
  walk-IsClosure :
      (rounds : ℕ) (s : Search)
      → Inv s
      → work (supers_in g.parents) s ≤ rounds
      → IsClosure (walk g rounds s)
  unfolding walk
  walk-IsClosure zero s h b = done-IsClosure s h (work_idle (supers_in g.parents) s b)
  walk-IsClosure (suc rounds) s h b = elim (List-cases s.queue) [
    | inl e ↦ rw (e, walk) (done-IsClosure s h e)
    | inr (cur, rest, e) ↦
        rw (e, walk)
          (walk-IsClosure rounds (expand s cur rest) (expand-Inv s cur rest e h) (
            omega (
              arith,
              work-pop (supers_in g.parents) s cur rest e,
              scan_parents-work (supers_in g.parents) (parents_of g cur) (popped s rest)
                  (parents_of_within g cur),
            )))
  ]

  start-Inv : Inv (search_from t)
  unfolding mem distinct
  start-Inv = record {
    in_step = record { flags = λ w. refl; once = refl };
    source = ground (arith, bytes_beq_iff t t);
    sound = λ w m. rw (sym ((bytes_beq_iff t w).0 (ground arith))) itself;
    queued = λ w m. m;
    closed = λ u v m p. ground arith;
  }

  ancestors-IsClosure : IsClosure (ancestors (some g) t)
  unfolding ancestors
  ancestors-IsClosure =
      walk-IsClosure (suc (length (supers_in g.parents))) (search_from t) start-Inv
        (work-search_from (supers_in g.parents) t)

-- For every type graph, a cyclic one included, `ancestors` of a type lists exactly the names that a
-- chain of declared supertypes leads to from it, itself among them, each of them once.
pub ancestors_exact :
    (g : TypeGraph) (t : Bytes)
    → ((w : Bytes) → (mem w (ancestors (some g) t) ≡ true) ↔ Ancestor g t w)
      × (distinct (ancestors (some g) t) ≡ true)
ancestors_exact g t = let r = ancestors-IsClosure g t in (r.exact, r.once)
