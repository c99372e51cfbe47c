-- ===== src/Cache.antt =====
-- pkg/cache/cache.go. The locks are not modelled: each method holds its lock throughout, so a history of
-- calls is a sequence of these operations. A set of keys is a list.
use quill_template_engine.Prelude.{
  ◌&&◌, ◌||◌, Option, none, some, List, [], ◌∷◌, Bytes, bytes_eq, bytes_beq, bytes_beq_iff,
  if◌then◌else◌, mem, ◌≡◌, refl, arith,
}
use quill_template_engine.Prelude.Assoc.{Assoc, lookup, insert, erase, lookup-insert, lookup-erase}

-- The memo of parsed modules; `M` is the type of modules.
pub record Cache (M : Type 0) : Type 0 where
  pub modules : Assoc Bytes M

pub record RenderCache : Type 0 where
  pub entries : Assoc Bytes Bytes
  pub by_tag : Assoc Bytes (List Bytes)

module _ {M : Type 0} where
  unfoldable pub new_cache : Cache M
  new_cache = record { modules = [] }

  unfoldable pub get_module : Bytes → Cache M → Option M
  get_module name c = lookup name c.modules

  unfoldable pub put_module : Bytes → M → Cache M → Cache M
  put_module name m c = record { modules = insert name m c.modules }

  unfoldable pub clear_modules : Cache M → Cache M
  clear_modules c = record { modules = [] }

unfoldable pub new_render_cache : RenderCache
new_render_cache = record { entries = []; by_tag = [] }

unfoldable pub get_body : Bytes → RenderCache → Option Bytes
get_body key c = lookup key c.entries

abbrev pub keys_or_empty : Option (List Bytes) → List Bytes
keys_or_empty none = []
keys_or_empty (some keys) = keys

-- c.byTag[tag], the empty set for a tag with none.
unfoldable pub keys_with : Bytes → Assoc Bytes (List Bytes) → List Bytes
keys_with tag m = keys_or_empty (lookup tag m)

unfoldable pub add_key : Bytes → List Bytes → List Bytes
add_key key keys = if mem key keys then keys else key ∷ keys

unfoldable pub tag_key : Bytes → List Bytes → Assoc Bytes (List Bytes) → Assoc Bytes (List Bytes)
unfolding keys_with add_key
tag_key key [] m = m
tag_key key (tag ∷ tags) m = tag_key key tags (insert tag (add_key key (keys_with tag m)) m)

unfoldable pub put_body : Bytes → Bytes → List Bytes → RenderCache → RenderCache
unfolding tag_key
put_body key body tags c = record {
  entries = insert key body c.entries;
  by_tag = tag_key key tags c.by_tag;
}

unfoldable pub erase_all : List Bytes → Assoc Bytes Bytes → Assoc Bytes Bytes
erase_all [] m = m
erase_all (key ∷ keys) m = erase_all keys (erase key m)

unfoldable pub invalidate_tag : Bytes → RenderCache → RenderCache
unfolding keys_with erase_all
invalidate_tag tag c = record {
  entries = erase_all (keys_with tag c.by_tag) c.entries;
  by_tag = erase tag c.by_tag;
}

unfoldable pub clear_bodies : RenderCache → RenderCache
unfolding new_render_cache
clear_bodies c = new_render_cache

lookup-erase_all :
    (keys : List Bytes) (j : Bytes) (m : Assoc Bytes Bytes)
    → lookup j (erase_all keys m) ≡ (if mem j keys then none else lookup j m)
unfolding erase_all mem
lookup-erase_all [] j m = refl
lookup-erase_all (key ∷ keys) j m =
    ground (arith, lookup-erase_all keys j (erase key m), lookup-erase key j m)

keys_with-add :
    (key tag : Bytes) (j t : Bytes) (m : Assoc Bytes (List Bytes))
    → mem j (keys_with t (insert tag (add_key key (keys_with tag m)) m))
      ≡ (bytes_beq tag t && bytes_beq key j) || mem j (keys_with t m)
unfolding keys_with add_key mem
keys_with-add key tag j t m = ground (
  arith,
  lookup-insert tag t (add_key key (keys_with tag m)) m,
  bytes_beq_iff tag t,
  bytes_beq_iff key j,
)

keys_with-tag_key :
    (key : Bytes) (tags : List Bytes) (j t : Bytes) (m : Assoc Bytes (List Bytes))
    → mem j (keys_with t (tag_key key tags m))
      ≡ (mem t tags && bytes_beq key j) || mem j (keys_with t m)
unfolding tag_key mem
keys_with-tag_key key [] j t m = refl
keys_with-tag_key key (tag ∷ tags) j t m = ground (
  arith,
  keys_with-add key tag j t m,
  keys_with-tag_key key tags j t (insert tag (add_key key (keys_with tag m)) m),
)

-- After a body is stored with its tags and then one tag is invalidated, a key has no body where it
-- carried the tag before or is the stored key and the tag is among its tags; else the stored key
-- has the stored body, and any other key what it had.
pub get_body-invalidate_tag-put_body :
    (key body : Bytes) (tags : List Bytes) (tag j : Bytes) (c : RenderCache)
    → get_body j (invalidate_tag tag (put_body key body tags c)) ≡ (
        if mem j (keys_with tag c.by_tag) || (mem tag tags && bytes_beq key j)
        then none
        else if bytes_beq key j
        then some body
        else get_body j c)
unfolding get_body invalidate_tag put_body
get_body-invalidate_tag-put_body key body tags tag j c = ground (
  arith,
  lookup-erase_all (keys_with tag (tag_key key tags c.by_tag)) j (insert key body c.entries),
  keys_with-tag_key key tags j tag c.by_tag,
  lookup-insert key j body c.entries,
)
