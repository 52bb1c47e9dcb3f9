-- ===== src/Strings.antt =====
-- src/util.h and src/util.c: comparison of strings as the configuration and the schema want it, and
-- the readable names of states, types and error codes.
--
-- The C library's `strcmp` is written out; only the sign of its answer is specified.
pub mod Order
use Prim.Native.String.{String}
use libcyaml.Base.{ℕ, Bool, true, false, not, Option, none, some, List, [], ◌∷◌, ◌++◌}
use libcyaml.Base.{get_elem?, ◌==◌, ltb, leb, if◌then◌else◌, bit_and}
use libcyaml.Base.Int.{ℤ, pos, negsuc}
use libcyaml.Schema.{Bytes, SchemaType, SchemaValue, Config}
use libcyaml.Schema.Flag
use libcyaml.Schema.CfgFlag
use libcyaml.Utf8.{casecmp, Compared, returns}

-- `flags & mask` as a condition.
abbrev pub has_flag : ℕ → ℕ → Bool
has_flag flags mask = not (bit_and flags mask == 0)

-- `cyaml__is_case_sensitive`
unfoldable pub is_case_sensitive : Config → SchemaValue → Bool
is_case_sensitive config schema =
    if has_flag schema.flags Flag.case_insensitive
    then false
    else if has_flag schema.flags Flag.case_sensitive
    then true
    else if has_flag config.flags CfgFlag.case_insensitive
    then false
    else true

-- The C library's `strcmp`, on strings without their terminators.
unfoldable pub c_strcmp : Bytes → Bytes → ℤ
c_strcmp [] [] = pos 0
c_strcmp [] (y ∷ ys) = negsuc 0
c_strcmp (x ∷ xs) [] = pos 1
c_strcmp (x ∷ xs) (y ∷ ys) =
    let rest = c_strcmp xs ys in if ltb x y then negsuc 0 else if ltb y x then pos 1 else rest

abbrev pub terminated : Bytes → Bytes
terminated s = s ++ (0 ∷ [])

-- `cyaml__strcmp`
unfoldable pub strcmp : Config → SchemaValue → Bytes → Bytes → Compared
unfolding is_case_sensitive c_strcmp casecmp
strcmp config schema str1 str2 =
    if is_case_sensitive config schema
    then returns (c_strcmp str1 str2)
    else casecmp (terminated str1) (terminated str2)

-- `enum cyaml_state_e`; `invalid` is any value from `CYAML_STATE__COUNT` on.
pub data State : Type 0 where
  start in_stream in_doc in_map_key in_map_value in_sequence : State
  invalid : State

-- `cyaml__state_to_str`
unfoldable pub state_to_str : State → String
state_to_str start = "start"
state_to_str in_stream = "in stream"
state_to_str in_doc = "in doc"
state_to_str in_map_key = "in mapping (key)"
state_to_str in_map_value = "in mapping (value)"
state_to_str in_sequence = "in sequence"
state_to_str invalid = "<invalid>"

-- `cyaml__type_to_str`
unfoldable pub type_to_str : SchemaType → String
type_to_str SchemaType.int = "INT"
type_to_str SchemaType.uint = "UINT"
type_to_str SchemaType.bool = "BOOL"
type_to_str SchemaType.enum = "ENUM"
type_to_str SchemaType.flags = "FLAGS"
type_to_str SchemaType.float = "FLOAT"
type_to_str SchemaType.string = "STRING"
type_to_str SchemaType.mapping = "MAPPING"
type_to_str SchemaType.bitfield = "BITFIELD"
type_to_str SchemaType.sequence = "SEQUENCE"
type_to_str SchemaType.sequence_fixed = "SEQUENCE_FIXED"
type_to_str SchemaType.ignore = "IGNORE"
type_to_str SchemaType.unknown = "<invalid>"

-- The table of `cyaml_strerror`, by the error's code.
abbrev pub error_strings : List String
error_strings =
    "Success" ∷ "Memory allocation failed" ∷ "YAML alias unsupported" ∷ "Could not open file"
    ∷ "Invalid key" ∷ "Invalid value" ∷ "No anchor found for alias" ∷ "Internal error"
    ∷ "Unexpected event" ∷ "String length too short" ∷ "String length too long"
    ∷ "Data size must be 0 < X <= 8 bytes" ∷ "Top-level schema value must be pointer"
    ∷ "Schema contains invalid type" ∷ "Bad schema: min exceeds max" ∷ "Bad parameter: seq_count"
    ∷ "Bad parameter: NULL data" ∷ "Bit value beyond bitfield size"
    ∷ "Sequence with too few entries" ∷ "Sequence with too many entries"
    ∷ "Sequence fixed has unequal min max" ∷ "Non-fixed sequence in sequence"
    ∷ "Missing required mapping field" ∷ "Bad config: NULL mem function"
    ∷ "Bad parameter: NULL config" ∷ "Bad parameter: NULL schema"
    ∷ "Data target must be NULL pointer" ∷ "libyaml emitter init failed"
    ∷ "libyaml parser init failed" ∷ "libyaml event init failed" ∷ "libyaml emitter error"
    ∷ "libyaml parser error" ∷ []

-- `cyaml_strerror`; `none` is the failure of its assertion.
unfoldable pub strerror : ℕ → Option String
strerror err = if leb 32 err then some "Invalid error code" else get_elem? error_strings err
