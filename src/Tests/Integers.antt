-- ===== src/Tests/Integers.antt =====
-- Runs of src/data.h and of the stores of integers.
use libcyaml.Base.{ℕ, ◌+◌, ◌^◌, ◌%◌, ◌<◌, ◌≤◌, ◌≡◌, ◌↔◌, refl, arith, ◌⊎◌}
use libcyaml.Base.{true, false, none, List, []}
use libcyaml.Base.Int.{pos, negsuc}
use libcyaml.Errors.{ok, fail, invalid_data_size, invalid_value}
use libcyaml.Schema.{SchemaType, SchemaValue, Config, Field}
use libcyaml.Memory.{Memory, little_endian, big_endian, write_bytes, read_bytes}
use libcyaml.Data.{data_write, data_read, host_is_big_endian, host_is_little_endian}
use libcyaml.Data.Laws.{data_read-data_write}
use libcyaml.Save.Sign.{sign_pad}
use libcyaml.Load.Store.{
  store_int, store_uint, validate_signed, validate_int, validate_unsigned, validate_uint,
}
use libcyaml.Load.Store.Range.{FitsInt}
use libcyaml.Load.Store.Laws.{
  store_int_accepts, sign_pad-store_int, data_read-store_uint, store_int_errors,
}

abbrev pub config : Config
config = record { flags = 0 }

-- A schema of the given type and size, without constraints.
abbrev pub plain_schema : SchemaType → ℕ → List Field → SchemaValue
plain_schema type size fields = record {
  type = type;
  flags = 0;
  data_size = size;
  integer = record { min = pos 0; max = pos 0; validation_cb = none; missing = negsuc 6 };
  unsigned_integer = record { min = 0; max = 0; validation_cb = none; missing = 0 };
  boolean_missing = false;
  floating_point = record { validation_cb = none; missing = 0 };
  string = record { min = 0; max = 10; validation_cb = none; missing = none };
  mapping = record { fields = fields; validation_cb = none; missing = 0 };
  bitfield = record { bitdefs = []; validation_cb = none; missing = 0 };
  sequence = record {
    entry = 0;
    min = 0;
    max = 0;
    validation_cb = none;
    missing = 0;
    missing_count = 0;
  };
  enumeration = record { strings = []; validation_cb = none; missing = pos 0 };
}

abbrev pub int_schema : SchemaValue
int_schema = plain_schema SchemaType.int 2 []

abbrev uint_schema : SchemaValue
uint_schema = plain_schema SchemaType.uint 2 []

abbrev pub blank : Memory
blank a = 0

-- -2 in two bytes on a big-endian host.
minus_two_big :
    data_read big_endian 2 8
      (elim (store_int big_endian int_schema 8 (negsuc 1) true blank) [ ok m ↦ m | fail e ↦ blank ])
    ≡ ok 0xfffe
unfolding store_int data_write data_read validate_signed validate_int host_is_big_endian
    host_is_little_endian write_bytes read_bytes
minus_two_big = refl

data_read-data_write_example :
    (m' : Memory) × (data_write big_endian 0x12345 2 8 blank ≡ ok m')
    × (data_read big_endian 2 8 m' ≡ ok (0x12345 % 256 ^ 2))
    × ((x : ℕ) → (x < 8) ⊎ (8 + 2 ≤ x) → m' x ≡ blank x)
data_read-data_write_example =
    data_read-data_write big_endian 0x12345 2 8 blank (omega arith) (omega arith)

store_int_accepts_example :
    ((m' : Memory) × (store_int little_endian int_schema 8 (negsuc 1) true blank ≡ ok m')) ↔ (
      (0 < 2)
      × (2 ≤ 8)
      × FitsInt 2 (negsuc 1)
      × (true ≡ true → validate_signed int_schema SchemaType.int (negsuc 1) ≡ ok tt))
store_int_accepts_example = store_int_accepts little_endian int_schema 8 (negsuc 1) true blank

-- The memory after that store.
abbrev stored_int : Memory
stored_int = elim (store_int little_endian int_schema 8 (negsuc 1) true blank) [
  | ok m ↦ m
  | fail e ↦ blank
]

abbrev stored_uint : Memory
stored_uint = elim (store_uint little_endian uint_schema 8 513 true blank) [
  | ok m ↦ m
  | fail e ↦ blank
]

sign_pad-store_int_example :
    (raw : ℕ) × (data_read little_endian 2 8 stored_int ≡ ok raw)
    × (sign_pad raw 2 ≡ negsuc 1)
    × ((x : ℕ) → (x < 8) ⊎ (8 + 2 ≤ x) → stored_int x ≡ blank x)
unfolding store_int data_write validate_signed validate_int host_is_big_endian host_is_little_endian
sign_pad-store_int_example =
    sign_pad-store_int little_endian int_schema 8 (negsuc 1) true blank stored_int refl

data_read-store_uint_example :
    (data_read little_endian 2 8 stored_uint ≡ ok 513)
    × ((x : ℕ) → (x < 8) ⊎ (8 + 2 ≤ x) → stored_uint x ≡ blank x)
unfolding store_uint data_write validate_unsigned validate_uint host_is_big_endian
    host_is_little_endian
data_read-store_uint_example =
    data_read-store_uint little_endian uint_schema 8 513 true blank stored_uint refl

store_int_errors_example :
    (((int_schema.data_size ≡ 0) ⊎ (8 < 2)) × (invalid_value ≡ invalid_data_size))
    ⊎ ((0 < 2) × (2 ≤ 8) × (invalid_value ≡ invalid_value))
unfolding store_int
store_int_errors_example = store_int_errors little_endian int_schema 8 (pos 40000) false blank refl
