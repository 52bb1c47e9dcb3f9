-- ===== src/Save/Scalar.antt =====
-- src/save.c, the `cyaml__write_*` functions of scalar values, flags and bit fields.
--
-- A C string in the client's memory is read up to its terminator; memory without one is a fault, and
-- so is a shift by 64 bits or more.
use libcyaml.Base.{ℕ, zero, suc, ◌+◌, ◌-◌, ◌*◌, ◌/◌, ◌%◌, ◌^◌, Bool, true, false, ◌||◌}
use libcyaml.Base.{Option, none, some, List, [], ◌∷◌, ltb, ◌==◌, if◌then◌else◌, bit_and}
use libcyaml.Base.Int.{ℤ, eqb_ℤ, to_u64, of_u64}
use libcyaml.Errors.{invalid_value, invalid_data_size, bad_bitval_in_schema}
use libcyaml.Outcome.{M, ◌>>=◌, ◌>>◌, return, raise, undefined, lift}
use libcyaml.Schema.{Bytes, SchemaType, SchemaValue, StrVal, BitDef}
use libcyaml.Schema.Flag
use libcyaml.Memory.{Memory, read_bytes, object_value}
use libcyaml.Data.{data_read}
use libcyaml.Strings.{has_flag}
use libcyaml.Number.{print_signed, print_unsigned, print_hex}
use libcyaml.Save.Sign.{sign_pad}
use libcyaml.Save.Style.{any_style, get_emit_style_map}
use libcyaml.Save.Emitter.{Saver, int_tag, bool_tag, float_tag, str_tag, emit, emit_scalar}
use libcyaml.Save.Emitter.{sequence_start, sequence_end, mapping_start, mapping_end}

-- `cyaml__get_int`
unfoldable pub get_int : ℤ → Bytes
unfolding print_signed
get_int value = print_signed value

-- `cyaml__get_uint`
unfoldable pub get_uint : ℕ → Bool → Bytes
unfolding print_unsigned print_hex
get_uint value hex = if hex then print_hex value else print_unsigned value

-- The string at an address, on as much fuel as there are addresses.
unfoldable pub c_string : ℕ → ℕ → Memory → Option Bytes
c_string zero a m = none
c_string (suc fuel) a m = elim (m a) [
  | zero ↦ some []
  | suc b ↦ elim (c_string fuel (a + 1) m) [ none ↦ none | some bs ↦ some (suc b ∷ bs) ]
]

-- The loop of `cyaml__write_enum`.
unfoldable pub enum_name : List StrVal → ℤ → Option Bytes
enum_name [] number = none
enum_name (s ∷ strings) number =
    let rest = enum_name strings number in if eqb_ℤ number s.val then some s.str else rest

-- "true" and "false"
abbrev pub true_text : Bytes
true_text = 116 ∷ 114 ∷ 117 ∷ 101 ∷ []

abbrev pub false_text : Bytes
false_text = 102 ∷ 97 ∷ 108 ∷ 115 ∷ 101 ∷ []

-- `~flag`
abbrev pub complement : ℕ → ℕ
complement flag = 2 ^ 64 - 1 - flag

-- `(~(uint64_t)0 >> (64 - bits)) << offset`
abbrev pub bits_mask : BitDef → ℕ
bits_mask b = (2 ^ 64 - 1) / 2 ^ (64 - b.bits) * 2 ^ b.offset % 2 ^ 64

module _ {W : Type 0} (s : Saver W) where
  -- `cyaml_data_read` of the schema's size.
  abbrev pub read_value : SchemaValue → ℕ → M W ℕ
  read_value schema a = lift (data_read s.host schema.data_size a s.memory)

  -- `cyaml__write_int`
  unfoldable pub write_int : SchemaValue → ℕ → M W (Unit {0})
  unfolding emit_scalar get_int
  write_int schema a = do
    raw ← read_value schema a
    emit_scalar s schema (get_int (sign_pad raw schema.data_size)) int_tag

  -- `cyaml__write_uint`
  unfoldable pub write_uint : SchemaValue → ℕ → M W (Unit {0})
  unfolding emit_scalar get_uint
  write_uint schema a = do
    number ← read_value schema a
    emit_scalar s schema (get_uint number false) int_tag

  -- `cyaml__write_bool`
  unfoldable pub write_bool : SchemaValue → ℕ → M W (Unit {0})
  unfolding emit_scalar
  write_bool schema a = do
    number ← read_value schema a
    emit_scalar s schema (if number == 0 then false_text else true_text) bool_tag

  -- `cyaml__write_enum`
  unfoldable pub write_enum : SchemaValue → ℕ → M W (Unit {0})
  unfolding emit_scalar write_int
  write_enum schema a = do
    number ← read_value schema a
    elim (enum_name schema.enumeration.strings (of_u64 number)) [
      | some string ↦ emit_scalar s schema string str_tag
      | none ↦ if has_flag schema.flags Flag.strict then raise invalid_value else write_int schema a
    ]

  -- `cyaml__write_float`
  unfoldable pub write_float : SchemaValue → ℕ → M W (Unit {0})
  unfolding emit_scalar
  write_float schema a =
      if schema.data_size == 4
      then emit_scalar s schema
          (s.print_g (s.widen (object_value s.host (read_bytes a 4 s.memory)))) float_tag
      else if schema.data_size == 8
      then emit_scalar s schema (s.print_e (object_value s.host (read_bytes a 8 s.memory)))
          float_tag
      else raise invalid_data_size

  -- `cyaml__write_string`
  unfoldable pub write_string : SchemaValue → ℕ → M W (Unit {0})
  unfolding emit_scalar c_string
  write_string schema a = elim (c_string (2 ^ 64) a s.memory) [
    | none ↦ undefined
    | some string ↦ emit_scalar s schema string str_tag
  ]

  -- `cyaml__write_scalar_value`: the table of functions, which has none for the other types.
  unfoldable pub write_scalar_value : SchemaValue → SchemaType → ℕ → M W (Unit {0})
  unfolding write_int write_uint write_bool write_enum write_float write_string
  write_scalar_value schema SchemaType.int a = write_int schema a
  write_scalar_value schema SchemaType.uint a = write_uint schema a
  write_scalar_value schema SchemaType.bool a = write_bool schema a
  write_scalar_value schema SchemaType.enum a = write_enum schema a
  write_scalar_value schema SchemaType.float a = write_float schema a
  write_scalar_value schema SchemaType.string a = write_string schema a
  write_scalar_value schema _ a = undefined

  -- The loop of `cyaml__emit_flags_sequence`: the bits that no flag has named.
  unfoldable pub emit_flags : SchemaValue → List StrVal → ℕ → M W ℕ
  unfolding emit_scalar
  emit_flags schema [] number = return number
  emit_flags schema (strval ∷ strings) number =
      let flag = to_u64 strval.val in
      let skip = emit_flags schema strings number in
      let clear = emit_flags schema strings (bit_and number (complement flag)) in
      if bit_and number flag == 0 then skip else emit_scalar s schema strval.str str_tag >> clear

  -- `cyaml__emit_flags_sequence`
  unfoldable pub emit_flags_sequence : SchemaValue → ℕ → M W (Unit {0})
  unfolding emit emit_flags emit_scalar get_uint
  emit_flags_sequence schema number = do
    emit s (sequence_start any_style)
    left ← emit_flags schema schema.enumeration.strings number
    (if left == 0
        then return tt
        else if has_flag schema.flags Flag.strict
        then raise invalid_value
        else emit_scalar s schema (get_uint left false) str_tag)
    emit s sequence_end

  -- `cyaml__write_flags_value`
  unfoldable pub write_flags_value : SchemaValue → ℕ → M W (Unit {0})
  unfolding emit_flags_sequence
  write_flags_value schema a = do number ← read_value schema a; emit_flags_sequence schema number

  -- The loop of `cyaml__emit_bitfield_mapping`.
  unfoldable pub emit_bits : SchemaValue → List BitDef → ℕ → M W (Unit {0})
  unfolding emit_scalar get_uint
  emit_bits schema [] number = return tt
  emit_bits schema (b ∷ bitdefs) number =
      let rest = emit_bits schema bitdefs number in
      if ltb (schema.data_size * 8) (b.bits + b.offset)
      then raise bad_bitval_in_schema
      else if b.bits == 0 || ltb 64 b.bits
      then undefined
      else if bit_and number (bits_mask b) == 0
      then rest
      else do
        emit_scalar s schema b.name str_tag
        emit_scalar s schema (get_uint (bit_and number (bits_mask b) / 2 ^ b.offset) true) int_tag
        rest

  -- `cyaml__emit_bitfield_mapping`
  unfoldable pub emit_bitfield_mapping : SchemaValue → ℕ → M W (Unit {0})
  unfolding emit emit_bits get_emit_style_map
  emit_bitfield_mapping schema number = do
    emit s (mapping_start (get_emit_style_map s.config schema))
    emit_bits schema schema.bitfield.bitdefs number
    emit s mapping_end

  -- `cyaml__write_bitfield_value`
  unfoldable pub write_bitfield_value : SchemaValue → ℕ → M W (Unit {0})
  unfolding emit_bitfield_mapping
  write_bitfield_value schema a = do
    number ← read_value schema a
    emit_bitfield_mapping schema number
