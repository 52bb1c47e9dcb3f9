-- ===== src/Tests/Fields.antt =====
-- Runs of the fields of a mapping.
use libcyaml.Base.{ℕ, ◌+◌, ◌≡◌, refl, arith, Bool, true, false, Option, none, some, List, [], ◌∷◌}
use libcyaml.Base.Int.{negsuc}
use libcyaml.Errors.{ok, fail}
use libcyaml.Schema.{SchemaType, SchemaValue, Field}
use libcyaml.Memory.{Memory, little_endian, read_bytes}
use libcyaml.Data.{data_read, data_write, host_is_big_endian, host_is_little_endian}
use libcyaml.Strings.{strcmp, c_strcmp, is_case_sensitive}
use libcyaml.Save.Sign.{sign_pad}
use libcyaml.Load.Store.{FloatUnit, store_int}
use libcyaml.Load.Fields.{mapping_bitfield_create, mapping_bitfield_check}
use libcyaml.Load.Fields.{find_field, get_mapping_field_idx, field_scalar_apply_default}
use libcyaml.Load.Fields.{store_default, numerical_default_zero}
use libcyaml.Load.Fields.Found.{set_all, has_index, check-set_all}
use libcyaml.Load.Fields.Key.{Located, get_mapping_field_idx-Located}
use libcyaml.Load.Fields.Default.{HoldsInt, sign_pad-field_scalar_apply_default}
use libcyaml.Tests.Integers.{config, plain_schema, int_schema, blank}

abbrev granting : ℕ → ℕ → Bool × ℕ
granting h n = (true, h + n)

check-set_all_example :
    (ws' : List ℕ) × (set_all (0 ∷ 0 ∷ []) (33 ∷ 2 ∷ []) ≡ some ws')
    × (mapping_bitfield_check ws' 33 ≡ some (has_index 33 (33 ∷ 2 ∷ [])))
unfolding mapping_bitfield_create
check-set_all_example =
    check-set_all granting 40 0 (0 ∷ 0 ∷ []) (33 ∷ 2 ∷ []) 33 refl (omega arith, (omega arith, tt))
      (omega arith)

abbrev field : ℕ → Field
field letter = record {
  key = letter ∷ [];
  data_offset = 0;
  count_offset = 0;
  count_size = 0;
  value = 0;
}

abbrev map_schema : SchemaValue
map_schema = plain_schema SchemaType.mapping 8 (field 0x61 ∷ field 0x62 ∷ [])

second_field : get_mapping_field_idx config map_schema (0x62 ∷ []) ≡ some 1
unfolding get_mapping_field_idx find_field strcmp c_strcmp is_case_sensitive
second_field = refl

no_field : get_mapping_field_idx config map_schema (0x63 ∷ []) ≡ some 0xffff
unfolding get_mapping_field_idx find_field strcmp c_strcmp is_case_sensitive
no_field = refl

get_mapping_field_idx-Located_example :
    Located
      (0x62 ∷ [])
      map_schema.mapping.fields
      0
      (get_mapping_field_idx config map_schema (0x62 ∷ []))
unfolding is_case_sensitive
get_mapping_field_idx-Located_example =
    get_mapping_field_idx-Located config map_schema (0x62 ∷ []) refl (omega arith)

abbrev fpu : FloatUnit
fpu = record { exceeds_float = λ x. false; narrow = λ x. 0; widen = λ x. 0 }

abbrev no_memory : ℕ → ℕ → Option ℕ × ℕ
no_memory h n = (none, h)

abbrev applied : Memory
applied = elim (store_int little_endian int_schema 8 (negsuc 6) false blank) [
  | ok m ↦ m
  | fail e ↦ blank
]

sign_pad-field_scalar_apply_default_example : HoldsInt little_endian int_schema 8 applied (negsuc 6)
unfolding field_scalar_apply_default store_default numerical_default_zero store_int data_write
    data_read sign_pad host_is_big_endian host_is_little_endian read_bytes
sign_pad-field_scalar_apply_default_example =
    sign_pad-field_scalar_apply_default little_endian fpu no_memory int_schema 8 blank 0
      (applied, 0) refl refl (0, refl, refl) refl
