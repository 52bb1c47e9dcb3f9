-- ===== src/Load/Store.antt =====
-- src/load.c, the `cyaml__store_*` functions: the last checks on a scalar value, and its bytes in
-- the client's data. The answer is the memory that the call leaves, or its error; an error leaves
-- the memory as it was. Log messages and assertions on the schema's type are left out.
pub mod Laws
pub mod Range
use libcyaml.Base.{ℕ, zero, suc, ◌+◌, ◌-◌, ◌*◌, ◌/◌, ◌%◌, ◌^◌, Bool, true, false, not, ◌&&◌, ◌||◌}
use libcyaml.Base.{
  Option, none, some, List, [], ◌∷◌, ◌++◌, length, ltb, ◌==◌, if◌then◌else◌, bit_and,
}
use libcyaml.Base.Int.{ℤ, pos, negsuc, ltb_ℤ, eqb_ℤ, to_u64, of_u64}
use libcyaml.Errors.{Result, ok, fail, invalid_value, invalid_data_size, ◌>>=◌, ◌>>◌, require}
use libcyaml.Errors.{bad_min_max_schema, string_length_min, string_length_max}
use libcyaml.Schema.{Bytes, SchemaType, SchemaValue}
use libcyaml.Schema.Flag
use libcyaml.Memory.{Memory, Host, write_bytes, object_bytes}
use libcyaml.Data.{data_write}

-- `if (validate_cb != NULL) if (!validate_cb(...)) return CYAML_ERR_INVALID_VALUE;`
abbrev pub passes {ℓ} : {A : Type ℓ} → Option (A → Bool) → A → Bool
passes none v = true
passes (some cb) v = cb v

-- `(schema->flags & mask) == mask`, `cyaml__flag_check_all`.
unfoldable pub flag_check_all : ℕ → ℕ → Bool
flag_check_all flags mask = bit_and flags mask == mask

-- `cyaml__validate_int`
unfoldable pub validate_int : SchemaValue → ℤ → Result (Unit {0})
validate_int schema value =
    let lo = schema.integer.min in
    let hi = schema.integer.max in
    let constrained = not (eqb_ℤ lo (pos 0)) || not (eqb_ℤ hi (pos 0)) in
    if constrained && (ltb_ℤ value lo || ltb_ℤ hi value)
    then fail invalid_value
    else require (passes schema.integer.validation_cb value) invalid_value

-- The validation of `cyaml__store_int`, by the schema's type.
unfoldable pub validate_signed : SchemaValue → SchemaType → ℤ → Result (Unit {0})
unfolding validate_int
validate_signed schema SchemaType.int value = validate_int schema value
validate_signed schema SchemaType.enum value =
    require (passes schema.enumeration.validation_cb value) invalid_value
validate_signed schema _ value = ok tt

-- `(UINT64_MAX >> ((8 - data_size) * 8)) / 2`; the least value is `-max - 1`.
abbrev pub int_max : ℕ → ℕ
int_max data_size = (2 ^ 64 - 1) / 2 ^ ((8 - data_size) * 8) / 2

-- `cyaml__store_int`
unfoldable pub store_int : Host → SchemaValue → ℕ → ℤ → Bool → Memory → Result Memory
store_int h schema location value validate m =
    if schema.data_size == 0 || ltb 8 schema.data_size
    then fail invalid_data_size
    else let max = int_max schema.data_size in
      if ltb_ℤ value (negsuc max) || ltb_ℤ (pos max) value then fail invalid_value else do
        if validate then validate_signed schema schema.type value else ok tt
        data_write h (to_u64 value) schema.data_size location m

-- `cyaml__validate_uint`
unfoldable pub validate_uint : SchemaValue → ℕ → Result (Unit {0})
validate_uint schema value =
    let lo = schema.unsigned_integer.min in
    let hi = schema.unsigned_integer.max in
    if (not (lo == 0) || not (hi == 0)) && (ltb value lo || ltb hi value)
    then fail invalid_value
    else require (passes schema.unsigned_integer.validation_cb value) invalid_value

-- The validation of `cyaml__store_uint`, by the schema's type.
unfoldable pub validate_unsigned : SchemaValue → SchemaType → ℕ → Result (Unit {0})
unfolding validate_uint
validate_unsigned schema SchemaType.uint value = validate_uint schema value
validate_unsigned schema SchemaType.flags value =
    require (passes schema.enumeration.validation_cb (of_u64 value)) invalid_value
validate_unsigned schema SchemaType.bitfield value =
    require (passes schema.bitfield.validation_cb value) invalid_value
validate_unsigned schema _ value = ok tt

-- `~(uint64_t)0 >> ((8 - data_size) * 8)`
abbrev pub uint_max : ℕ → ℕ
uint_max data_size = (2 ^ 64 - 1) / 2 ^ ((8 - data_size) * 8)

-- `cyaml__store_uint`
unfoldable pub store_uint : Host → SchemaValue → ℕ → ℕ → Bool → Memory → Result Memory
store_uint h schema location value validate m =
    if schema.data_size == 0 || ltb 8 schema.data_size
    then fail invalid_data_size
    else if ltb (uint_max schema.data_size) value
    then fail invalid_value
    else do
      if validate then validate_unsigned schema schema.type value else ok tt
      data_write h value schema.data_size location m

-- `cyaml__store_bool`
unfoldable pub store_bool : Host → SchemaValue → ℕ → Bool → Memory → Result Memory
unfolding data_write
store_bool h schema location value m =
    data_write h (if value then 1 else 0) schema.data_size location m

-- The floating-point unit, on bit patterns: a double as 64 bits, a float as 32.
pub record FloatUnit : Type 0 where
  -- `value > FLT_MAX || value < -FLT_MAX`
  pub exceeds_float : ℕ → Bool
  -- `(float)value`, and a float as the double that is passed to a callback.
  pub narrow : ℕ → ℕ
  pub widen : ℕ → ℕ

-- `cyaml__store_float`
unfoldable pub store_float : FloatUnit → Host → SchemaValue → ℕ → ℕ → Memory → Result Memory
unfolding flag_check_all
store_float fpu h schema location value m =
    if schema.data_size == 4
    then (if flag_check_all schema.flags Flag.strict && fpu.exceeds_float value
        then fail invalid_value
        else let fvalue = fpu.narrow value in
          require (passes schema.floating_point.validation_cb (fpu.widen fvalue)) invalid_value
          >> ok (write_bytes location (object_bytes h 4 fvalue) m))
    else if schema.data_size == 8
    then require (passes schema.floating_point.validation_cb value) invalid_value
      >> ok (write_bytes location (object_bytes h 8 value) m)
    else fail invalid_data_size

-- `cyaml__store_string`
unfoldable pub store_string : SchemaValue → ℕ → Bytes → Memory → Result Memory
store_string schema location value m =
    let str_len = length value in
    if ltb schema.string.max schema.string.min
    then fail bad_min_max_schema
    else if ltb str_len schema.string.min
    then fail string_length_min
    else if ltb schema.string.max str_len
    then fail string_length_max
    else require (passes schema.string.validation_cb value) invalid_value
      >> ok (write_bytes location (value ++ (0 ∷ [])) m)
