-- ===== src/Load/Fields.antt =====
-- src/load.c, the fields of a mapping: the search for a key, the bit field of the fields that were
-- found, and the defaults of missing scalar fields; and the event that a schema's type expects.
--
-- A search can compare a string that `cyaml_utf8_casecmp` reads past its end: the answer is `none`
-- then. An array access out of range is `none` as well. The client's allocator is a parameter, which
-- is asked for a number of bytes and answers with their address.
pub mod Found
pub mod Key
pub mod Default
use libcyaml.Base.{ℕ, zero, suc, ◌+◌, ◌-◌, ◌*◌, ◌/◌, ◌%◌, ◌^◌, Bool, true, false, not, ◌||◌}
use libcyaml.Base.{Option, none, some, List, [], ◌∷◌, length, get_elem?, set, replicate, ◌==◌}
use libcyaml.Base.{if◌then◌else◌, bit_and, bit_or}
use libcyaml.Base.Int.{ℤ, pos, eqb_ℤ, to_u64}
use libcyaml.Errors.{Err, Result, ok, fail, oom, invalid_value, internal_error, bad_type_in_schema}
use libcyaml.Outcome.{Outcome, done, failed, fault, M}
use libcyaml.Schema.{Bytes, SchemaType, SchemaValue, Field, Config}
use libcyaml.Schema.Flag
use libcyaml.Memory.{Memory, Host, write_bytes}
use libcyaml.Data.{data_write_pointer}
use libcyaml.Strings.{strcmp, has_flag}
use libcyaml.Utf8.{Compared, returns}
use libcyaml.Load.Store.{FloatUnit, store_int, store_uint, store_bool, store_float, store_string}
use libcyaml.Load.Events.{EventType}

-- `... == 0` of a comparison.
abbrev pub is_zero : Compared → Option Bool
is_zero (returns d) = some (eqb_ℤ d (pos 0))
is_zero _ = none

-- `CYAML_FIELDS_IDX_NONE`
abbrev pub fields_idx_none : ℕ
fields_idx_none = 0xffff

-- The loop of `cyaml__get_mapping_field_idx`; `index` is a `uint16_t`.
unfoldable pub find_field : Config → SchemaValue → Bytes → List Field → ℕ → Option ℕ
unfolding strcmp
find_field config schema key [] index = some fields_idx_none
find_field config schema key (f ∷ fields) index =
    let rest = find_field config schema key fields ((index + 1) % 2 ^ 16) in
    elim (is_zero (strcmp config schema f.key key)) [
      | none ↦ none
      | some same ↦ if same then some index else rest
    ]

-- `cyaml__get_mapping_field_idx`
unfoldable pub get_mapping_field_idx : Config → SchemaValue → Bytes → Option ℕ
unfolding find_field
get_mapping_field_idx config schema key = find_field config schema key schema.mapping.fields 0

-- `CYAML_BITFIELD_BITS`
abbrev pub bitfield_bits : ℕ
bitfield_bits = 32

-- `cyaml__mapping_bitfieid_create`: the words, all zero; no words are allocated for no fields.
unfoldable pub mapping_bitfield_create :
    {H : Type 0} → (H → ℕ → Bool × H) → ℕ → H → Result (List ℕ) × H
mapping_bitfield_create alloc count h =
    let words = (count + bitfield_bits - 1) / bitfield_bits in
    let (got, h') = alloc h (words * 4) in
    if count == 0 then (ok [], h) else if got then (ok (replicate words 0), h') else (fail oom, h')

-- `cyaml__mapping_bitfieid_set`
unfoldable pub mapping_bitfield_set : List ℕ → ℕ → Option (List ℕ)
mapping_bitfield_set fields_set idx = elim (get_elem? fields_set (idx / bitfield_bits)) [
  | none ↦ none
  | some w ↦ some (set fields_set (idx / bitfield_bits) (bit_or w (2 ^ (idx % bitfield_bits))))
]

-- `cyaml__mapping_bitfieid_check`
unfoldable pub mapping_bitfield_check : List ℕ → ℕ → Option Bool
mapping_bitfield_check fields_set idx = elim (get_elem? fields_set (idx / bitfield_bits)) [
  | none ↦ none
  | some w ↦ some (not (bit_and w (2 ^ (idx % bitfield_bits)) == 0))
]

-- `cyaml__numerical_default_zero`; a double is zero with either sign.
unfoldable pub numerical_default_zero : SchemaValue → SchemaType → Bool
numerical_default_zero schema SchemaType.int = eqb_ℤ (pos 0) schema.integer.missing
numerical_default_zero schema SchemaType.enum = eqb_ℤ (pos 0) schema.enumeration.missing
numerical_default_zero schema SchemaType.uint = 0 == schema.unsigned_integer.missing
numerical_default_zero schema SchemaType.flags = eqb_ℤ (pos 0) schema.enumeration.missing
numerical_default_zero schema SchemaType.bitfield = 0 == schema.bitfield.missing
numerical_default_zero schema SchemaType.bool = not schema.boolean_missing
numerical_default_zero schema SchemaType.float =
    (0 == schema.floating_point.missing) || (2 ^ 63 == schema.floating_point.missing)
numerical_default_zero schema _ = false

-- `valid_event` of `cyaml__validate_event_type_for_schema`.
abbrev valid_event : SchemaType → Option EventType
valid_event SchemaType.flags = some EventType.seq_start
valid_event SchemaType.mapping = some EventType.map_start
valid_event SchemaType.bitfield = some EventType.map_start
valid_event SchemaType.sequence = some EventType.seq_start
valid_event SchemaType.sequence_fixed = some EventType.seq_start
valid_event SchemaType.ignore = none
valid_event SchemaType.unknown = none
valid_event _ = some EventType.scalar

abbrev same_event : EventType → EventType → Bool
same_event EventType.scalar EventType.scalar = true
same_event EventType.seq_start EventType.seq_start = true
same_event EventType.map_start EventType.map_start = true
same_event _ _ = false

-- `cyaml__validate_event_type_for_schema`, by the schema's type.
unfoldable pub validate_event_type_for_schema : SchemaType → EventType → Result (Unit {0})
validate_event_type_for_schema SchemaType.unknown event = fail bad_type_in_schema
validate_event_type_for_schema SchemaType.ignore event = ok tt
validate_event_type_for_schema type event = elim (valid_event type) [
  | none ↦ fail invalid_value
  | some e ↦ if same_event e event then ok tt else fail invalid_value
]

module _ {H : Type 0} (h : Host) (fpu : FloatUnit) (alloc : H → ℕ → Option ℕ × H) where
  -- The memory that a store leaves, or its error.
  abbrev pub stored : Result Memory → M (Memory × H) (Unit {0})
  stored (ok m) (_, heap) = done tt (m, heap)
  stored (fail e) s = failed e s

  -- The last switch of `cyaml__field_scalar_apply_default`.
  unfoldable pub store_default : SchemaValue → SchemaType → ℕ → M (Memory × H) (Unit {0})
  unfolding store_int store_uint store_bool store_float store_string
  store_default schema SchemaType.int target s =
      stored (store_int h schema target schema.integer.missing false s.0) s
  store_default schema SchemaType.enum target s =
      stored (store_int h schema target schema.enumeration.missing false s.0) s
  store_default schema SchemaType.uint target s =
      stored (store_uint h schema target schema.unsigned_integer.missing false s.0) s
  store_default schema SchemaType.flags target s =
      stored (store_uint h schema target (to_u64 schema.enumeration.missing) false s.0) s
  store_default schema SchemaType.bitfield target s =
      stored (store_uint h schema target schema.bitfield.missing false s.0) s
  store_default schema SchemaType.bool target s =
      stored (store_bool h schema target schema.boolean_missing s.0) s
  store_default schema SchemaType.float target s =
      stored (store_float fpu h schema target schema.floating_point.missing s.0) s
  store_default schema SchemaType.string target s = elim schema.string.missing [
    | none ↦ fault
    | some str ↦ stored (store_string schema target str s.0) s
  ]
  store_default schema _ target s = failed internal_error s

  abbrev pub default_size : SchemaValue → SchemaType → ℕ
  default_size schema SchemaType.string = elim schema.string.missing [
    | none ↦ 0
    | some str ↦ length str + 1
  ]
  default_size schema _ = schema.data_size

  abbrev pub no_string_default : SchemaValue → SchemaType → Bool
  no_string_default schema SchemaType.string = elim schema.string.missing [
    | none ↦ true
    | some str ↦ false
  ]
  no_string_default schema _ = false

  -- `cyaml__field_scalar_apply_default`
  unfoldable pub field_scalar_apply_default : SchemaValue → ℕ → M (Memory × H) (Unit {0})
  unfolding numerical_default_zero store_default data_write_pointer
  field_scalar_apply_default schema target (m, heap) =
      let size = default_size schema schema.type in
      let (p, heap') = alloc heap size in
      if numerical_default_zero schema schema.type || no_string_default schema schema.type
      then done tt (m, heap)
      else if has_flag schema.flags Flag.pointer
      then elim p [
        | none ↦ failed oom (m, heap')
        | some value_data ↦ store_default schema schema.type value_data (
          data_write_pointer h value_data target (write_bytes value_data (replicate size 0) m),
          heap',
        )
      ]
      else store_default schema schema.type target (m, heap)
