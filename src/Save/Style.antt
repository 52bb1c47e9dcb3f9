-- ===== src/Save/Style.antt =====
-- src/save.c: the style of an emitted value, from the schema's flags and the configuration.
use libcyaml.Base.{Bool, if◌then◌else◌}
use libcyaml.Schema.{SchemaValue, Config}
use libcyaml.Schema.Flag
use libcyaml.Schema.CfgFlag
use libcyaml.Strings.{has_flag}

-- `enum cyaml_emit_style`
pub data EmitStyle : Type 0 where
  default block flow : EmitStyle

-- libyaml's styles of a collection and of a scalar, as far as they are named.
pub data CollectionStyle : Type 0 where
  any_style block_style flow_style : CollectionStyle

pub data ScalarStyle : Type 0 where
  any_scalar plain single_quoted double_quoted literal folded : ScalarStyle

-- `cyaml__get_emit_style`
unfoldable pub get_emit_style : Config → SchemaValue → EmitStyle
get_emit_style config schema =
    if has_flag schema.flags Flag.block
    then block
    else if has_flag schema.flags Flag.flow
    then flow
    else if has_flag config.flags CfgFlag.style_block
    then block
    else if has_flag config.flags CfgFlag.style_flow
    then flow
    else default

abbrev collection_style : EmitStyle → CollectionStyle
collection_style default = any_style
collection_style block = block_style
collection_style flow = flow_style

-- `cyaml__get_emit_style_seq`
unfoldable pub get_emit_style_seq : Config → SchemaValue → CollectionStyle
unfolding get_emit_style
get_emit_style_seq config schema = collection_style (get_emit_style config schema)

-- `cyaml__get_emit_style_map`
unfoldable pub get_emit_style_map : Config → SchemaValue → CollectionStyle
unfolding get_emit_style
get_emit_style_map config schema = collection_style (get_emit_style config schema)

-- `cyaml__get_emit_style_scalar`
unfoldable pub get_emit_style_scalar : SchemaValue → ScalarStyle
get_emit_style_scalar schema =
    if has_flag schema.flags Flag.scalar_quote_double
    then double_quoted
    else if has_flag schema.flags Flag.scalar_quote_single
    then single_quoted
    else if has_flag schema.flags Flag.scalar_literal
    then literal
    else if has_flag schema.flags Flag.scalar_folded
    then folded
    else if has_flag schema.flags Flag.scalar_plain
    then plain
    else any_scalar

-- `cyaml__emit_doc_delim`
unfoldable pub emit_doc_delim : Config → Bool
emit_doc_delim config = has_flag config.flags CfgFlag.document_delim
