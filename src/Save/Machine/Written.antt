-- ===== src/Save/Machine/Written.antt =====
-- What src/save.c is to write: the events of a value, told by its schema and the client's data alone,
-- and the emitter that accepts every event and keeps it.
use libcyaml.Base.{ℕ, suc, ◌+◌, ◌*◌, ◌%◌, ◌^◌, ◌≡◌, ◌≢◌, Bool, true, false, List, [], ◌∷◌, ◌++◌}
use libcyaml.Base.{◌==◌, zero, ◌⊎◌, ◌<◌, ◌≤◌, bit_and, if◌then◌else◌}
use libcyaml.Outcome.{done, M}
use libcyaml.Schema.{SchemaType, SchemaValue, Field}
use libcyaml.Schema.Flag
use libcyaml.Strings.{has_flag}
use libcyaml.Memory.{read_bytes, object_value}
use libcyaml.Data.{data_read_pointer}
use libcyaml.Save.Style.{
  CollectionStyle, get_emit_style_map, get_emit_style_seq, get_emit_style_scalar,
}
use libcyaml.Save.Emitter.{Saver, OutEvent, scalar, str_tag}
use libcyaml.Save.Emitter.{mapping_start, mapping_end, sequence_start, sequence_end}
use libcyaml.Save.Scalar.{write_scalar_value, write_flags_value, write_bitfield_value}

abbrev pub Events : Type 0
Events = List OutEvent

-- The emitter that accepts every event, and an allocator that has memory.
abbrev pub recorder : {W : Type 0} → Saver W → Saver Events
recorder s = record {
  config = s.config;
  host = s.host;
  memory = s.memory;
  schemas = s.schemas;
  print_g = s.print_g;
  print_e = s.print_e;
  widen = s.widen;
  event_initialize = λ e log. (true, log);
  emitter_emit = λ e log. (true, log ++ (e ∷ []));
  emitter_flush = λ log. (true, log);
  realloc = λ n log. (true, log);
}

-- An action that emits the given events.
abbrev pub Emits : M Events (Unit {0}) → Events → Type 0
Emits m evs = (log : Events) → m log ≡ done tt (log ++ evs)

-- The document that a value stands for. A leaf is a value that is written at once: a scalar, flags, a
-- bit field, or NULL; a mapping has a member for each field that is not left out.
mutual
  pub data Node : Type 0 where
    leaf : Events → Node
    mapping : CollectionStyle → Members → Node
    sequence : CollectionStyle → Items → Node

  pub data Members : Type 0 where
    no_members : Members
    left_out : Members → Members
    member : OutEvent → Node → Members → Members

  pub data Items : Type 0 where
    no_items : Items
    item : Node → Items → Items

-- The events of a document, in order.
unfoldable mutual
  pub flatten : Node → Events
  flatten (leaf evs) = evs
  flatten (mapping style ms) = mapping_start style ∷ (flatten_members ms ++ (mapping_end ∷ []))
  flatten (sequence style xs) = sequence_start style ∷ (flatten_items xs ++ (sequence_end ∷ []))

  pub flatten_members : Members → Events
  flatten_members no_members = []
  flatten_members (left_out ms) = flatten_members ms
  flatten_members (member key t ms) = key ∷ (flatten t ++ flatten_members ms)

  pub flatten_items : Items → Events
  flatten_items no_items = []
  flatten_items (item t xs) = flatten t ++ flatten_items xs

abbrev pub is_leaf : SchemaType → Bool
is_leaf SchemaType.mapping = false
is_leaf SchemaType.sequence = false
is_leaf SchemaType.sequence_fixed = false
is_leaf SchemaType.ignore = false
is_leaf SchemaType.unknown = false
is_leaf _ = true

-- A sequence, or one of fixed length whose limits agree.
abbrev pub is_list : SchemaValue → SchemaType → Bool
is_list schema SchemaType.sequence = true
is_list schema SchemaType.sequence_fixed = schema.sequence.min == schema.sequence.max
is_list schema _ = false

module _ {W : Type 0} (s : Saver W) where
  -- How a leaf is written.
  abbrev pub write_leaf : SchemaValue → SchemaType → ℕ → M Events (Unit {0})
  write_leaf schema SchemaType.flags place = write_flags_value (recorder s) schema place
  write_leaf schema SchemaType.bitfield place = write_bitfield_value (recorder s) schema place
  write_leaf schema t place = write_scalar_value (recorder s) schema t place

  -- The place of a value: behind its pointer, if it is one.
  abbrev pub target : SchemaValue → ℕ → ℕ
  target schema place =
      if has_flag schema.flags Flag.pointer then data_read_pointer s.host place s.memory else place

  -- What stands for NULL: "null" where the flags allow it to be a string, else nothing where they allow
  -- it to be left empty.
  abbrev pub IsNull : SchemaValue → Events → Type 0
  IsNull schema evs =
      let style = get_emit_style_scalar schema in
      ((bit_and schema.flags 14 ≡ 14)
        × (evs ≡ scalar (110 ∷ 117 ∷ 108 ∷ 108 ∷ []) str_tag style ∷ []))
      ⊎ ((bit_and schema.flags 14 ≢ 14)
          × (bit_and schema.flags 6 ≡ 6)
          × (evs ≡ scalar [] str_tag style ∷ []))

  -- A field of which nothing is written: an ignored one, or an optional pointer that is NULL.
  abbrev pub IsLeft : Field → ℕ → Type 0
  IsLeft field p =
      let value = s.schemas field.value in
      (value.type ≡ SchemaType.ignore)
      ⊎ ((bit_and value.flags 1 ≢ 0)
          × (bit_and value.flags 2 ≢ 0)
          × (data_read_pointer s.host (p + field.data_offset) s.memory ≡ 0))

  -- The count of a field's entries: of a sequence the number in the bytes that the field has for it, of a
  -- fixed sequence the one that the schema has.
  abbrev pub HasEntries : Field → ℕ → SchemaValue → SchemaType → ℕ → Type 0
  HasEntries field p value SchemaType.sequence n =
      (0 < field.count_size)
      × (field.count_size ≤ 8)
      × (n ≡ object_value s.host (read_bytes (p + field.count_offset) field.count_size s.memory))
  HasEntries field p value SchemaType.sequence_fixed n = n ≡ value.sequence.min
  HasEntries field p value _ n = n ≡ 0

  -- The first for a fixed sequence, the second for other types.
  abbrev pub fixed_or : SchemaType → ℕ → ℕ → ℕ
  fixed_or SchemaType.sequence_fixed a b = a
  fixed_or _ a b = b

  abbrev pub item_count : SchemaValue → ℕ
  item_count value = fixed_or value.type value.sequence.max 0

  -- The bytes of an entry of a sequence: a pointer, or the value with all its entries, in 64 bits.
  abbrev pub pitch : SchemaValue → ℕ
  pitch value =
      if has_flag value.flags Flag.pointer
      then 8
      else fixed_or value.type (value.data_size * value.sequence.max % 2 ^ 64) value.data_size

  -- Whether the data at a place is a document, under a schema and with the count of its entries.
  unfoldable mutual
    unfolding data_read_pointer read_bytes get_emit_style_map get_emit_style_seq
        get_emit_style_scalar

    pub IsValue : SchemaValue → ℕ → ℕ → Node → Type 0
    IsValue schema place count (leaf evs) =
        ((target schema place ≡ 0) × IsNull schema evs)
        ⊎ ((target schema place ≢ 0)
            × (is_leaf schema.type ≡ true)
            × Emits (write_leaf schema schema.type (target schema place)) evs)
    IsValue schema place count (mapping style ms) =
        (target schema place ≢ 0)
        × (schema.type ≡ SchemaType.mapping)
        × (style ≡ get_emit_style_map s.config schema)
        × AreMembers schema (target schema place) schema.mapping.fields ms
    IsValue schema place count (sequence style xs) =
        (target schema place ≢ 0)
        × (is_list schema schema.type ≡ true)
        × (style ≡ get_emit_style_seq s.config schema)
        × AreItems schema (target schema place) 0 count xs

    pub AreMembers : SchemaValue → ℕ → List Field → Members → Type 0
    AreMembers schema p [] no_members = Unit
    AreMembers schema p (field ∷ fields) (left_out ms) =
        IsLeft field p × AreMembers schema p fields ms
    AreMembers schema p (field ∷ fields) (member key t ms) =
        ¬ IsLeft field p
        × (key ≡ scalar field.key str_tag (get_emit_style_scalar schema))
        × ((n : ℕ) × HasEntries field p (s.schemas field.value) (s.schemas field.value).type n
            × IsValue (s.schemas field.value) (p + field.data_offset) n t)
        × AreMembers schema p fields ms
    AreMembers schema p _ _ = ⊥

    pub AreItems : SchemaValue → ℕ → ℕ → ℕ → Items → Type 0
    AreItems schema p entry zero no_items = Unit
    AreItems schema p entry (suc k) (item t xs) =
        let value = s.schemas schema.sequence.entry in
        (value.type ≢ SchemaType.sequence)
        × IsValue value (p + pitch value * entry % 2 ^ 64) (item_count value) t
        × AreItems schema p (entry + 1) k xs
    AreItems schema p entry _ _ = ⊥
