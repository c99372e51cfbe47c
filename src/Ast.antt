-- ===== src/Ast.antt =====
-- pkg/ast: the nodes of a parsed template, without the value of a float literal.
use quill_template_engine.Prelude.{Bool, Option, ℕ, Bytes}
use quill_template_engine.Prelude.Int.{ℤ}
use quill_template_engine.Source.{Source}

pub data Kind : Type 0 where
  kind_invalid kind_module kind_text kind_print kind_verbatim kind_int kind_float kind_string
        kind_bool kind_null kind_name kind_special_name kind_list kind_map kind_map_entry kind_arrow
        kind_param kind_attr kind_index kind_slice kind_call kind_filter kind_arg kind_unary
        kind_spread kind_binary kind_logical kind_power kind_membership kind_test kind_ternary
        kind_coalesce kind_elvis kind_assign kind_list_pattern kind_map_pattern kind_optional
        kind_map_target kind_type kind_if kind_clause kind_for kind_target kind_body kind_set
        kind_capture kind_with kind_apply kind_apply_filter kind_do kind_flush kind_deprecated
        kind_guard kind_types kind_type_decl kind_escape kind_sandbox kind_line kind_cache
        kind_cache_arg kind_extends kind_block kind_params kind_macro kind_import kind_from
        kind_from_item kind_use kind_embed kind_include kind_provide kind_yield kind_call_block
        kind_log kind_tab_block :
      Kind

-- The fields of a node, but for its children.
pub record Head : Type 0 where
  pub kind : Kind
  pub str : Bytes
  pub int : ℤ
  pub flag : Bool
  pub line : ℕ
  pub col : ℕ
  pub src : Option Source

-- `gap` is a child that is nil.
mutual
  pub data Node : Type 0 where
    node : Head → Nodes → Node

  pub data Nodes : Type 0 where
    end : Nodes
    child : Node → Nodes → Nodes
    gap : Nodes → Nodes
