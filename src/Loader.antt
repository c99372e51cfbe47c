-- ===== src/Loader.antt =====
-- pkg/loader: what resolves a template's name to its source, and how resolvers compose. The loaders
-- over files are not modelled: a host's loader is any value of `Loader`.
pub mod Routes
use quill_template_engine.Prelude.{
  ℕ, zero, suc, ◌-◌, not, Bool, true, false, ◌&&◌, ◌||◌, ◌==◌, Option, none, some, List, [], ◌∷◌,
  ◌++◌, Bytes, bytes_eq, bytes_beq, if◌then◌else◌, is_some, length, drop, ltb, codes,
}
use quill_template_engine.Prelude.Assoc.{Assoc, lookup, insert}
use quill_template_engine.Source.{Source, new_source}

-- An error: the sentinel under the name that was asked for, or one of a host.
pub data Fault (E : Type 0) : Type 0 where
  not_found : Bytes → Fault E
  host_error : E → Fault E

pub data Fetched (E : Type 0) : Type 0 where
  fetched : Source → Fetched E
  failed : Fault E → Fetched E

pub record Loader (E : Type 0) : Type 0 where
  pub get : Bytes → Fetched E
  pub exists : Bytes → Bool

abbrev pub is_not_found : {E : Type 0} → Fault E → Bool
is_not_found (not_found n) = true
is_not_found (host_error e) = false

pub record PrefixRoute (E : Type 0) : Type 0 where
  pub full : Bytes
  pub loader : Loader E

-- What the callback of a FuncLoader gives: a text or none, or its error.
pub data Called (E : Type 0) : Type 0 where
  known : Bytes → Called E
  unknown : Called E
  broken : E → Called E

-- ArrayLoader: the map from names to texts.
unfoldable pub set_template : Bytes → Bytes → Assoc Bytes Bytes → Assoc Bytes Bytes
set_template name src templates = insert name src templates

unfoldable pub has_prefix : Bytes → Bytes → Bool
has_prefix s [] = true
has_prefix [] (p ∷ ps) = false
has_prefix (c ∷ s) (p ∷ ps) = c == p && has_prefix s ps

unfoldable pub has_suffix : Bytes → Bytes → Bool
has_suffix s suffix =
    not (ltb (length s) (length suffix)) && bytes_beq (drop (length s - length suffix) s) suffix

module _ {E : Type 0} where
  abbrev source_or_missing : Bytes → Option Bytes → Fetched E
  source_or_missing name none = failed (not_found name)
  source_or_missing name (some src) = fetched (new_source name src)

  unfoldable pub array_loader : Assoc Bytes Bytes → Loader E
  unfolding lookup
  array_loader templates = record {
    get = λ name. source_or_missing name (lookup name templates);
    exists = λ name. is_some (lookup name templates);
  }

  -- ChainLoader
  unfoldable pub chain_get : List (Loader E) → Bytes → Fetched E
  chain_get [] name = failed (not_found name)
  chain_get (sub ∷ subs) name = elim (sub.get name) [
    | fetched src ↦ fetched src
    | failed err ↦ if is_not_found err then chain_get subs name else failed err
  ]

  unfoldable pub chain_exists : List (Loader E) → Bytes → Bool
  chain_exists [] name = false
  chain_exists (sub ∷ subs) name = sub.exists name || chain_exists subs name

  unfoldable pub chain_loader : List (Loader E) → Loader E
  unfolding chain_get chain_exists
  chain_loader subs = record { get = chain_get subs; exists = chain_exists subs }

  unfoldable pub full_routes : Bytes → Assoc Bytes (Loader E) → List (PrefixRoute E)
  unfolding has_suffix
  full_routes delimiter [] = []
  full_routes delimiter ((p, sub) ∷ routes) =
      record { full = if has_suffix p delimiter then p else p ++ delimiter; loader = sub }
      ∷ full_routes delimiter routes

  -- The route moves to the left past all of these.
  unfoldable pub passes : PrefixRoute E → List (PrefixRoute E) → Bool
  passes r [] = true
  passes r (q ∷ qs) = ltb (length q.full) (length r.full) && passes r qs

  -- The inner loop of the sort: the route comes in at the right end.
  unfoldable pub place : PrefixRoute E → List (PrefixRoute E) → List (PrefixRoute E)
  unfolding passes
  place r [] = r ∷ []
  place r (q ∷ qs) = let rest = place r qs in if passes r (q ∷ qs) then r ∷ q ∷ qs else q ∷ rest

  -- The outer loop, with the routes in order on the left.
  unfoldable pub sort_routes : List (PrefixRoute E) → List (PrefixRoute E) → List (PrefixRoute E)
  unfolding place
  sort_routes done [] = done
  sort_routes done (r ∷ rs) = sort_routes (place r done) rs

  unfoldable pub find_route : Bytes → List (PrefixRoute E) → Option (PrefixRoute E)
  unfolding has_prefix
  find_route name [] = none
  find_route name (r ∷ rs) =
      let rest = find_route name rs in if has_prefix name r.full then some r else rest

  -- The part of the name behind the prefix goes to the loader of the route.
  unfoldable pub prefix_get : List (PrefixRoute E) → Bytes → Fetched E
  unfolding find_route
  prefix_get routes name = elim (find_route name routes) [
    | none ↦ failed (not_found name)
    | some r ↦ elim (r.loader.get (drop (length r.full) name)) [
      | fetched src ↦ fetched (new_source name src.code)
      | failed err ↦ if is_not_found err then failed (not_found name) else failed err
    ]
  ]

  unfoldable pub prefix_exists : List (PrefixRoute E) → Bytes → Bool
  unfolding find_route
  prefix_exists routes name = elim (find_route name routes) [
    | none ↦ false
    | some r ↦ r.loader.exists (drop (length r.full) name)
  ]

  -- NewPrefixLoaderDelim: the routes in the order in which Go gives them, each with the delimiter.
  unfoldable pub prefix_routes : Bytes → Assoc Bytes (Loader E) → List (PrefixRoute E)
  unfolding full_routes sort_routes
  prefix_routes delimiter routes = sort_routes [] (full_routes delimiter routes)

  unfoldable pub prefix_loader : Bytes → Assoc Bytes (Loader E) → Loader E
  unfolding prefix_routes prefix_get prefix_exists
  prefix_loader delimiter routes = record {
    get = prefix_get (prefix_routes delimiter routes);
    exists = prefix_exists (prefix_routes delimiter routes);
  }

  unfoldable pub new_prefix_loader : Assoc Bytes (Loader E) → Loader E
  unfolding prefix_loader
  new_prefix_loader routes = prefix_loader (codes "/") routes

  -- FuncLoader over a callback that exists.
  unfoldable pub func_loader : (Bytes → Called E) → Loader E
  func_loader fn = record {
    get = λ name. elim (fn name) [
      | known code ↦ fetched (new_source name code)
      | unknown ↦ failed (not_found name)
      | broken err ↦ failed (host_error err)
    ];
    exists = λ name. elim (fn name) [ known code ↦ true | unknown ↦ false | broken err ↦ false ];
  }
