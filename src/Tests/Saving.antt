-- ===== src/Tests/Saving.antt =====
-- src/save.c on a mapping of an integer and a sequence.
use libcyaml.Base.{ℕ, ◌+◌, ◌≡◌, refl, true, none, some, List, [], ◌∷◌, get_elem?, ◌-◌, ltb}
use libcyaml.Base.{if◌then◌else◌}
use libcyaml.Outcome.{done}
use libcyaml.Schema.{Bytes, SchemaType, SchemaValue, SchemaRef, Field}
use libcyaml.Memory.{Memory, little_endian, read_bytes}
use libcyaml.Save.Emitter.{Saver, OutEvent, scalar, int_tag, str_tag, stream_start, stream_end}
use libcyaml.Save.Emitter.{
  document_start, document_end, mapping_start, mapping_end, sequence_start, sequence_end,
}
use libcyaml.Save.Style.{
  any_style, any_scalar, emit_doc_delim, get_emit_style_seq, get_emit_style_map,
  get_emit_style_scalar,
}
use libcyaml.Params.{validate_save_params}
use libcyaml.Data.{data_read_pointer}
use libcyaml.Save.Scalar.{write_scalar_value}
use libcyaml.Save.Sign.{sign_pad}
use libcyaml.Base.{inl, inr, ◌≢◌, arith}
use libcyaml.Save.Machine.Document.{save-flatten}
use libcyaml.Save.Machine.{save}
use libcyaml.Save.Machine.Written.{
  Events, recorder, IsValue, Node, leaf, mapping, sequence, Members, no_members, member, Items,
  no_items, item, flatten, Emits, write_leaf, is_leaf, IsLeft, target,
}
use libcyaml.Tests.Integers.{config, plain_schema, int_schema}

-- struct { int16_t a; uint8_t *list; uint8_t list_count; }, and a pointer to one.
abbrev pub byte_schema : SchemaValue
byte_schema = plain_schema SchemaType.uint 1 []

abbrev pub list_schema : SchemaValue
list_schema = record (plain_schema SchemaType.sequence 1 []) {
  flags = 2;
  sequence = record (plain_schema SchemaType.sequence 1 []).sequence { entry = 1; max = 9 };
}

abbrev first_of : Field
first_of = record { key = 97 ∷ []; data_offset = 0; count_offset = 0; count_size = 0; value = 0 }

abbrev second_of : Field
second_of = record { key = 98 ∷ []; data_offset = 8; count_offset = 16; count_size = 1; value = 2 }

abbrev pub struct_fields : List Field
struct_fields = first_of ∷ second_of ∷ []

abbrev pub struct_schema : SchemaValue
struct_schema = record (plain_schema SchemaType.mapping 24 struct_fields) { flags = 2 }

abbrev pub schemas : SchemaRef → SchemaValue
schemas r =
    if ltb r 1
    then int_schema
    else if ltb r 2
    then byte_schema
    else if ltb r 3
    then list_schema
    else struct_schema

-- The pointer at 8 leads to 100, whose list at 200 has the two entries 7 and 8.
abbrev client_bytes : Bytes
client_bytes = 254 ∷ 255 ∷ 0 ∷ 0 ∷ 0 ∷ 0 ∷ 0 ∷ 0 ∷ 200 ∷ 0 ∷ 0 ∷ 0 ∷ 0 ∷ 0 ∷ 0 ∷ 0 ∷ 2 ∷ []

abbrev pub client_memory : Memory
client_memory a =
    if ltb a 8
    then 0
    else if ltb a 16
    then (if ltb a 9 then 100 else 0)
    else if ltb a 100
    then 0
    else if ltb a 117
    then elim (get_elem? client_bytes (a - 100)) [ none ↦ 0 | some b ↦ b ]
    else if ltb a 200
    then 0
    else if ltb a 201
    then 7
    else 8

abbrev pub saver : Saver Events
saver = record {
  config = config;
  host = little_endian;
  memory = client_memory;
  schemas = schemas;
  print_g = λ bits. [];
  print_e = λ bits. [];
  widen = λ bits. bits;
  event_initialize = λ e log. (true, log);
  emitter_emit = λ e log. (true, log);
  emitter_flush = λ log. (true, log);
  realloc = λ n log. (true, log);
}

abbrev int_text : Bytes → OutEvent
int_text text = scalar text int_tag any_scalar

abbrev key_text : Bytes → OutEvent
key_text text = scalar text str_tag any_scalar

-- The document { a: -2, b: [7, 8] }.
abbrev the_list : Items
the_list = item (leaf (int_text (55 ∷ []) ∷ [])) (item (leaf (int_text (56 ∷ []) ∷ [])) no_items)

abbrev the_members : Members
the_members =
    member (key_text (97 ∷ [])) (leaf (int_text (45 ∷ 50 ∷ []) ∷ []))
      (member (key_text (98 ∷ [])) (sequence any_style the_list) no_members)

abbrev the_document : Node
the_document = mapping any_style the_members

-- A number at a place that is no pointer.
number_leaf :
    (schema : SchemaValue) (place : ℕ) (text : Bytes)
    → target saver schema place ≢ 0
    → is_leaf schema.type ≡ true
    → Emits (write_leaf saver schema schema.type (target saver schema place)) (int_text text ∷ [])
    → IsValue saver schema place 0 (leaf (int_text text ∷ []))
unfolding IsValue
number_leaf schema place text there is emits = inr (there, is, emits)

first_field : IsValue saver int_schema 100 0 (leaf (int_text (45 ∷ 50 ∷ []) ∷ []))
unfolding data_read_pointer write_scalar_value read_bytes sign_pad
first_field = number_leaf int_schema 100 (45 ∷ 50 ∷ []) (omega arith) refl (λ log. refl)

first_entry : IsValue saver byte_schema 200 0 (leaf (int_text (55 ∷ []) ∷ []))
unfolding data_read_pointer write_scalar_value read_bytes sign_pad
first_entry = number_leaf byte_schema 200 (55 ∷ []) (omega arith) refl (λ log. refl)

second_entry : IsValue saver byte_schema 201 0 (leaf (int_text (56 ∷ []) ∷ []))
unfolding data_read_pointer write_scalar_value read_bytes sign_pad
second_entry = number_leaf byte_schema 201 (56 ∷ []) (omega arith) refl (λ log. refl)

list-IsValue : IsValue saver list_schema 108 2 (sequence any_style the_list)
unfolding IsValue data_read_pointer get_emit_style_seq read_bytes
list-IsValue = (omega arith, refl, refl, ((λ e. cc, first_entry, (λ e. cc, second_entry, tt))))

the_document-IsValue : IsValue saver struct_schema 8 0 the_document
unfolding IsValue data_read_pointer get_emit_style_map get_emit_style_scalar read_bytes
the_document-IsValue = (
  omega arith,
  refl,
  refl,
  (
    kept_first,
    refl,
    (0, refl, first_field),
    (kept_second, refl, (2, (omega arith, omega arith, refl), list-IsValue), tt),
  ),
)
  where
    kept_first : ¬ IsLeft saver first_of 100
    kept_first (inl e) = cc
    kept_first (inr (a, b, c)) = a refl

    kept_second : ¬ IsLeft saver second_of 100
    kept_second (inl e) = cc
    kept_second (inr (a, b, c)) = a refl

save-flatten_example :
    (n : ℕ) × ((k : ℕ)
      → save (recorder saver) (n + k) struct_schema 8 0 []
        ≡ done true (
            stream_start
            ∷ document_start true
            ∷ mapping_start any_style
            ∷ key_text (97 ∷ [])
            ∷ int_text (45 ∷ 50 ∷ [])
            ∷ key_text (98 ∷ [])
            ∷ sequence_start any_style
            ∷ int_text (55 ∷ [])
            ∷ int_text (56 ∷ [])
            ∷ sequence_end
            ∷ mapping_end
            ∷ document_end true
            ∷ stream_end
            ∷ []))
unfolding flatten validate_save_params data_read_pointer read_bytes emit_doc_delim
save-flatten_example =
    save-flatten saver struct_schema 8 0 the_document (refl, refl) (λ e. cc) the_document-IsValue
