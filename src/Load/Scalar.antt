-- ===== src/Load/Scalar.antt =====
-- src/load.c, the `cyaml__read_*` functions: the value of a scalar's text, and its bytes in the
-- client's data.
--
-- The state of these functions is the client's memory; a comparison that reads past the end of a
-- string is a fault. The C library's `strtod` is a parameter: the bits of the double, the text from
-- its end pointer on, and whether it set `errno` to `ERANGE`.
pub mod Back
pub mod Named
use libcyaml.Base.{ℕ, ◌+◌, ◌-◌, ◌*◌, ◌/◌, ◌%◌, ◌^◌, Bool, true, false, not, ◌&&◌, ◌||◌}
use libcyaml.Base.{Option, none, some, List, [], ◌∷◌, ltb, ◌==◌, if◌then◌else◌, bit_or}
use libcyaml.Base.Int.{ℤ, pos, negsuc, eqb_ℤ, to_u64}
use libcyaml.Errors.{Result, ok, fail, invalid_value}
use libcyaml.Outcome.{Outcome, done, failed, fault, M, ◌>>=◌, ◌>>◌, return, raise, undefined}
use libcyaml.Schema.{Bytes, SchemaType, SchemaValue, StrVal, Config}
use libcyaml.Schema.Flag
use libcyaml.Memory.{Memory, Host}
use libcyaml.Strings.{strcmp, has_flag}
use libcyaml.Utf8.{casecmp, Compared, returns}
use libcyaml.Strings.{terminated}
use libcyaml.Number.{Conversion, strtoll, strtoull}
use libcyaml.Load.Store.{FloatUnit, store_int, store_uint, store_bool, store_float, store_string}
use libcyaml.Load.Store.{flag_check_all, uint_max}
use libcyaml.Load.Fields.{is_zero}

-- A `cyaml__store_*` call: an error leaves the memory as it was.
abbrev pub stores : (Memory → Result Memory) → M Memory (Unit {0})
stores f m = elim (f m) [ ok m' ↦ done tt m' | fail e ↦ failed e m ]

abbrev pub is_empty : Bytes → Bool
is_empty [] = true
is_empty (c ∷ cs) = false

-- The value of a conversion of the whole text, within range.
unfoldable pub whole : {A : Type 0} → Option (Conversion A) → Option A
whole none = none
whole (some c) = if not (is_empty c.rest) || c.range then none else some c.value

-- `cyaml__read_int`
unfoldable pub read_int : Host → SchemaValue → Bytes → ℕ → M Memory (Unit {0})
unfolding strtoll whole store_int
read_int h schema value location = elim (whole (strtoll value)) [
  | none ↦ raise invalid_value
  | some temp ↦ stores (store_int h schema location temp true)
]

-- `cyaml__read_uint64_t`
unfoldable pub read_uint64_t : Bytes → Result ℕ
unfolding strtoull whole
read_uint64_t value = elim (whole (strtoull value)) [
  | none ↦ fail invalid_value
  | some temp ↦ ok temp
]

-- `cyaml__read_uint`
unfoldable pub read_uint : Host → SchemaValue → Bytes → ℕ → M Memory (Unit {0})
unfolding read_uint64_t store_uint
read_uint h schema value location = elim (read_uint64_t value) [
  | fail e ↦ raise e
  | ok temp ↦ stores (store_uint h schema location temp true)
]

-- "false", "no", "off", "disable", "0"
abbrev pub false_strings : List Bytes
false_strings =
    (102 ∷ 97 ∷ 108 ∷ 115 ∷ 101 ∷ [])
    ∷ (110 ∷ 111 ∷ [])
    ∷ (111 ∷ 102 ∷ 102 ∷ [])
    ∷ (100 ∷ 105 ∷ 115 ∷ 97 ∷ 98 ∷ 108 ∷ 101 ∷ [])
    ∷ (48 ∷ [])
    ∷ []

-- The loop of `cyaml__read_bool`; `none` is a comparison that does not return.
unfoldable pub bool_value : Bytes → List Bytes → Option Bool
unfolding casecmp
bool_value value [] = some true
bool_value value (f ∷ strings) =
    let rest = bool_value value strings in
    elim (is_zero (casecmp (terminated value) (terminated f))) [
      | none ↦ none
      | some same ↦ if same then some false else rest
    ]

-- `cyaml__read_bool`
unfoldable pub read_bool : Host → SchemaValue → Bytes → ℕ → M Memory (Unit {0})
unfolding bool_value store_bool
read_bool h schema value location = elim (bool_value value false_strings) [
  | none ↦ undefined
  | some temp ↦ stores (store_bool h schema location temp)
]

-- The loop over the names of an enumeration: the value of the first that is the same, if any;
-- `none` is a comparison that does not return.
unfoldable pub find_strval : Config → SchemaValue → Bytes → List StrVal → Option (Option ℤ)
unfolding strcmp
find_strval config schema value [] = some none
find_strval config schema value (s ∷ strings) =
    let rest = find_strval config schema value strings in
    elim (is_zero (strcmp config schema value s.str)) [
      | none ↦ none
      | some same ↦ if same then some (some s.val) else rest
    ]

-- The numerical fallback of `cyaml__read_enum`: every failure is an invalid value.
unfoldable pub read_enum_number : Host → SchemaValue → Bytes → ℕ → M Memory (Unit {0})
unfolding read_int flag_check_all
read_enum_number h schema value location m =
    if not (flag_check_all schema.flags Flag.strict)
    then elim (read_int h schema value location m) [
      | done u m' ↦ done tt m'
      | failed e m' ↦ failed invalid_value m'
      | fault ↦ fault
    ]
    else failed invalid_value m

-- `cyaml__read_enum`
unfoldable pub read_enum : Config → Host → SchemaValue → Bytes → ℕ → M Memory (Unit {0})
unfolding find_strval store_int read_enum_number
read_enum config h schema value location =
    elim (find_strval config schema value schema.enumeration.strings) [
      | none ↦ undefined
      | some (some val) ↦ stores (store_int h schema location val true)
      | some none ↦ read_enum_number h schema value location
    ]

-- `cyaml__read_float`
unfoldable pub read_float :
    FloatUnit
    → (Bytes → Option (Conversion ℕ))
    → Host
    → SchemaValue
    → Bytes
    → ℕ
    → M Memory (Unit {0})
unfolding store_float flag_check_all
read_float fpu strtod h schema value location = elim (strtod value) [
  | none ↦ raise invalid_value
  | some c ↦
      if not (is_empty c.rest)
      then raise invalid_value
      else if c.range && flag_check_all schema.flags Flag.strict
      then raise invalid_value
      else stores (store_float fpu h schema location c.value)
]

-- `cyaml__read_string`
unfoldable pub read_string : SchemaValue → Bytes → ℕ → M Memory (Unit {0})
unfolding store_string
read_string schema value location = stores (store_string schema location value)

-- `cyaml__read_scalar_value`: the table of functions, which has none for the other types.
unfoldable pub read_scalar_value :
    FloatUnit
    → (Bytes → Option (Conversion ℕ))
    → Config
    → Host
    → SchemaValue
    → SchemaType
    → Bytes
    → ℕ
    → M Memory (Unit {0})
unfolding read_int read_uint read_bool read_enum read_float read_string
read_scalar_value fpu strtod config h schema SchemaType.int value location =
    read_int h schema value location
read_scalar_value fpu strtod config h schema SchemaType.uint value location =
    read_uint h schema value location
read_scalar_value fpu strtod config h schema SchemaType.bool value location =
    read_bool h schema value location
read_scalar_value fpu strtod config h schema SchemaType.enum value location =
    read_enum config h schema value location
read_scalar_value fpu strtod config h schema SchemaType.float value location =
    read_float fpu strtod h schema value location
read_scalar_value fpu strtod config h schema SchemaType.string value location =
    read_string schema value location
read_scalar_value fpu strtod config h schema _ value location = undefined

-- The numerical fallback of `cyaml__set_flag`: a signed number from 0 to the largest of the size.
unfoldable pub flag_number : SchemaValue → Bytes → Option ℕ
unfolding strtoll whole
flag_number schema value = elim (whole (strtoll value)) [
  | some (pos temp) ↦ if ltb (uint_max schema.data_size) temp then none else some temp
  | _ ↦ none
]

-- `cyaml__set_flag`; the state is the value of the flags. The shift in its fallback is undefined
-- unless the size is 1 to 8 bytes.
unfoldable pub set_flag : Config → SchemaValue → Bytes → M ℕ (Unit {0})
unfolding find_strval flag_number
set_flag config schema value flags =
    elim (find_strval config schema value schema.enumeration.strings) [
      | none ↦ fault
      | some (some val) ↦ done tt (bit_or flags (to_u64 val))
      | some none ↦
          if has_flag schema.flags Flag.strict
          then failed invalid_value flags
          else if schema.data_size == 0 || ltb 8 schema.data_size
          then fault
          else elim (flag_number schema value) [
            | some temp ↦ done tt (bit_or flags temp)
            | none ↦ failed invalid_value flags
          ]
    ]
