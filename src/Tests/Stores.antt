-- ===== src/Tests/Stores.antt =====
-- Sources and caches.
use quill_template_engine.Prelude.{
  ◌∷◌, [], ◌||◌, ◌&&◌, none, some, codes, mem, nat_eq, bytes_eq, bytes_beq, if◌then◌else◌, ◌≡◌,
}
use quill_template_engine.Cache.{
  get_body, invalidate_tag, put_body, keys_with, new_render_cache, get_body-invalidate_tag-put_body,
}

get_body-invalidate_tag-put_body_example :
    get_body (codes "k") (
      invalidate_tag
        (codes "t")
        (put_body (codes "k") (codes "body") (codes "t" ∷ []) new_render_cache))
    ≡ (if mem (codes "k") (keys_with (codes "t") new_render_cache.by_tag)
          || (mem (codes "t") (codes "t" ∷ []) && bytes_beq (codes "k") (codes "k"))
        then none
        else if bytes_beq (codes "k") (codes "k")
        then some (codes "body")
        else get_body (codes "k") new_render_cache)
get_body-invalidate_tag-put_body_example =
    get_body-invalidate_tag-put_body (codes "k") (codes "body") (codes "t" ∷ []) (codes "t")
      (codes "k") new_render_cache
