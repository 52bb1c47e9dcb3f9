-- ===== src/Schema.antt =====
-- The schema and configuration structures of include/cyaml/cyaml.h. A C string is the list of its
-- bytes without the terminator; a pointer to an array with its count is a list. The anonymous
-- union is a record with all members: each function reads the member that belongs to the type.
-- A validation callback is closed over the client's context and the schema that it is called with.
pub mod Flag
pub mod CfgFlag
use libcyaml.Base.{ℕ, Bool, Option, List}
use libcyaml.Base.Int.{ℤ}

abbrev pub Bytes : Type 0
Bytes = List ℕ

-- `cyaml_type_e`; `unknown` is any value from `CYAML__TYPE_COUNT` on.
pub data SchemaType : Type 0 where
  int uint bool enum flags float string mapping bitfield sequence sequence_fixed ignore : SchemaType
  unknown : SchemaType

-- `cyaml_strval_t`
pub record StrVal : Type 0 where
  pub str : Bytes
  pub val : ℤ

-- `cyaml_bitdef_t`
pub record BitDef : Type 0 where
  pub name : Bytes
  pub offset : ℕ
  pub bits : ℕ

-- The members of the union.
pub record IntSpec : Type 0 where
  pub min : ℤ
  pub max : ℤ
  pub validation_cb : Option (ℤ → Bool)
  pub missing : ℤ

pub record UintSpec : Type 0 where
  pub min : ℕ
  pub max : ℕ
  pub validation_cb : Option (ℕ → Bool)
  pub missing : ℕ

-- A double is its 64 bits.
pub record FloatSpec : Type 0 where
  pub validation_cb : Option (ℕ → Bool)
  pub missing : ℕ

pub record StringSpec : Type 0 where
  pub min : ℕ
  pub max : ℕ
  pub validation_cb : Option (Bytes → Bool)
  pub missing : Option Bytes

pub record BitfieldSpec : Type 0 where
  pub bitdefs : List BitDef
  pub validation_cb : Option (ℕ → Bool)
  pub missing : ℕ

pub record EnumSpec : Type 0 where
  pub strings : List StrVal
  pub validation_cb : Option (ℤ → Bool)
  pub missing : ℤ

-- A reference to a schema value, `const cyaml_schema_value_t *`.
abbrev pub SchemaRef : Type 0
SchemaRef = ℕ

-- `cyaml_schema_field_t`
pub record Field : Type 0 where
  pub key : Bytes
  pub data_offset : ℕ
  pub count_offset : ℕ
  pub count_size : ℕ
  pub value : SchemaRef

-- `fields` up to the entry with the NULL key; the callback is given the memory and
-- the address of the data.
pub record MappingSpec : Type 0 where
  pub fields : List Field
  pub validation_cb : Option ((ℕ → ℕ) → ℕ → Bool)
  pub missing : ℕ

pub record SequenceSpec : Type 0 where
  pub entry : SchemaRef
  pub min : ℕ
  pub max : ℕ
  pub validation_cb : Option ((ℕ → ℕ) → ℕ → ℕ → Bool)
  pub missing : ℕ
  pub missing_count : ℕ

-- `cyaml_schema_value_t`
pub record SchemaValue : Type 0 where
  pub type : SchemaType
  pub flags : ℕ
  pub data_size : ℕ
  pub integer : IntSpec
  pub unsigned_integer : UintSpec
  pub boolean_missing : Bool
  pub floating_point : FloatSpec
  pub string : StringSpec
  pub mapping : MappingSpec
  pub bitfield : BitfieldSpec
  pub sequence : SequenceSpec
  pub enumeration : EnumSpec

-- `cyaml_config_t`, as far as the functions below read it.
pub record Config : Type 0 where
  pub flags : ℕ
