-- ===== src/Free/Owned.antt =====
-- What src/free.c is to free: the blocks that a value owns, told by its schema and the memory.
use libcyaml.Base.{ℕ, zero, suc, ◌+◌, ◌*◌, ◌^◌, ◌<◌, ◌≡◌, ◌≢◌, arith, true, false}
use libcyaml.Base.{List, [], ◌∷◌, ◌++◌, if◌then◌else◌, Option, some, none, ltb, ◌&&◌}
use libcyaml.Schema.{SchemaType, SchemaValue, SchemaRef, Field}
use libcyaml.Schema.Flag
use libcyaml.Memory.{Memory, Host, read_bytes, object_value}
use libcyaml.Data.{data_read_pointer}
use libcyaml.Strings.{has_flag}
use libcyaml.Save.Machine.{is_type_fixed}

-- A value with all that it owns: a NULL pointer, data in place, or a block of its own.
mutual
  pub data Tree : Type 0 where
    null : Tree
    inside : Parts → Tree
    block : ℕ → Parts → Tree

  pub data Parts : Type 0 where
    no_parts : Parts
    part : Tree → Parts → Parts

-- The blocks of a tree: those of its parts, then its own.
unfoldable mutual
  pub blocks : Tree → List ℕ
  blocks null = []
  blocks (inside ps) = blocks_all ps
  blocks (block a ps) = blocks_all ps ++ (a ∷ [])

  pub blocks_all : Parts → List ℕ
  blocks_all no_parts = []
  blocks_all (part t ps) = blocks t ++ blocks_all ps

-- The levels of a tree.
unfoldable mutual
  pub levels : Tree → ℕ
  levels null = 1
  levels (inside ps) = suc (levels_all ps)
  levels (block a ps) = suc (levels_all ps)

  pub levels_all : Parts → ℕ
  levels_all no_parts = 0
  levels_all (part t ps) = levels t + levels_all ps

pub levels_pos : (t : Tree) → 0 < levels t
unfolding levels
levels_pos null = omega arith
levels_pos (inside ps) = omega arith
levels_pos (block a ps) = omega arith

-- A value that lies within another one.
pub record Child : Type 0 where
  pub schema : SchemaValue
  pub place : ℕ
  pub count : ℕ

-- The bytes of an entry of a sequence; a fixed sequence in place takes those of all its entries.
abbrev pub entry_bytes : SchemaValue → ℕ
entry_bytes value =
    if has_flag value.flags Flag.pointer
    then 8
    else if is_type_fixed value.type
    then value.data_size * value.sequence.max
    else value.data_size

-- The entries of a sequence, one behind the other.
unfoldable pub entries_of : SchemaValue → ℕ → ℕ → ℕ → List Child
entries_of value p i zero = []
entries_of value p i (suc n) =
    record { schema = value; place = p + entry_bytes value * i; count = 0 }
    ∷ entries_of value p (suc i) n

-- A sequence of fewer than 2 ^ 32 entries and bytes.
abbrev pub IsSmall : SchemaValue → ℕ → Type 0
IsSmall value n = (n < 2 ^ 32) × (entry_bytes value * n < 2 ^ 32)

module _ (h : Host) (m : Memory) (schemas : SchemaRef → SchemaValue) where
  -- The count of the entries of a field's value: for a sequence the number in the bytes at the field's
  -- place for it, if they are 1 to 8.
  abbrev pub stored_count : ℕ → Field → SchemaType → Option ℕ
  stored_count p field SchemaType.sequence =
      if ltb 0 field.count_size && ltb field.count_size 9
      then some (object_value h (read_bytes (p + field.count_offset) field.count_size m))
      else none
  stored_count p field _ = some 0

  -- The values of the fields, up to one whose count has no valid size.
  unfoldable pub fields_of : ℕ → List Field → List Child
  unfolding read_bytes
  fields_of p [] = []
  fields_of p (field ∷ fields) =
      let rest = fields_of p fields in
      elim (stored_count p field (schemas field.value).type) [
        | none ↦ []
        | some n ↦
            record { schema = schemas field.value; place = p + field.data_offset; count = n } ∷ rest
      ]

  -- The values that lie within the data at `p`.
  abbrev pub children : SchemaValue → SchemaType → ℕ → ℕ → List Child
  children schema SchemaType.mapping p count = fields_of p schema.mapping.fields
  children schema SchemaType.sequence p count = entries_of (schemas schema.sequence.entry) p 0 count
  children schema SchemaType.sequence_fixed p count =
      entries_of (schemas schema.sequence.entry) p 0 schema.sequence.max
  children schema _ p count = []

  abbrev pub IsSized : SchemaValue → SchemaType → ℕ → Type 0
  IsSized schema SchemaType.sequence count = IsSmall (schemas schema.sequence.entry) count
  IsSized schema SchemaType.sequence_fixed count =
      IsSmall (schemas schema.sequence.entry) schema.sequence.max
  IsSized schema _ count = Unit

  -- Whether the value at a place, with the count of its entries, owns a tree.
  unfoldable mutual
    unfolding fields_of data_read_pointer

    pub Owns : SchemaValue → ℕ → ℕ → Tree → Type 0
    Owns schema place count null =
        (has_flag schema.flags Flag.pointer ≡ true) × (data_read_pointer h place m ≡ 0)
    Owns schema place count (inside ps) =
        (has_flag schema.flags Flag.pointer ≡ false)
        × IsSized schema schema.type count
        × AreOwned (children schema schema.type place count) ps
    Owns schema place count (block a ps) =
        (has_flag schema.flags Flag.pointer ≡ true)
        × (data_read_pointer h place m ≡ a)
        × (a ≢ 0)
        × IsSized schema schema.type count
        × AreOwned (children schema schema.type a count) ps

    pub AreOwned : List Child → Parts → Type 0
    AreOwned [] no_parts = Unit
    AreOwned (c ∷ cs) (part t ps) = Owns c.schema c.place c.count t × AreOwned cs ps
    AreOwned _ _ = ⊥
