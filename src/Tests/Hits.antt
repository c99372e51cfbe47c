-- ===== src/Tests/Hits.antt =====
-- A region that is hit before its template is seeded, and after.
use quill_template_engine.Prelude.{none, false, List, [], ◌∷◌, codes, ◌≡◌, arith}
use quill_template_engine.Prelude.Assoc.{lookup}
use quill_template_engine.Prelude.Int.{pos, wrap, ◌+ℤ◌}
use quill_template_engine.Ast.{Kind, kind_module, kind_print, Head, Node, node, end, child}
use quill_template_engine.Coverage.{RegionId, new_core, region_at, unit_print}
use quill_template_engine.Coverage.Counts.{
  Event, hit_of, template_of, record_all, hits_at, hits_of, hits_at-record_all,
}

abbrev head : Kind → Head
head k = record { kind = k; str = []; int = pos 0; flag = false; line = 1; col = 3; src = none }

abbrev page : Node
page = node (head kind_module) (child (node (head kind_print) end) end)

abbrev events : List Event
events =
    hit_of (codes "page") (head kind_print) unit_print
    ∷ template_of (codes "page") page
    ∷ hit_of (codes "page") (head kind_print) unit_print
    ∷ []

abbrev shown : RegionId
shown = region_at (codes "page") (head kind_print) unit_print

hits_at-record_all_example :
    hits_at shown (record_all events new_core)
    ≡ wrap (hits_at shown new_core +ℤ pos (hits_of shown events))
unfolding hits_at new_core lookup
hits_at-record_all_example = hits_at-record_all shown events new_core (ground arith)
