-- ===== src/Tests/Values.antt =====
-- Values that src/save.c wrote, read back by src/load.c; and an ignored value.
use libcyaml.Base.{ℕ, ◌+◌, ◌≤◌, ◌<◌, ◌≡◌, ◌⊎◌, inr, refl, arith, true}
use libcyaml.Base.{none, List, [], ◌∷◌}
use libcyaml.Base.Int.{pos}
use libcyaml.Errors.{ok}
use libcyaml.Outcome.{Outcome, done}
use libcyaml.Schema.{Bytes, SchemaType, SchemaValue}
use libcyaml.Memory.{Memory, little_endian, read_bytes}
use libcyaml.Data.{data_read}
use libcyaml.Save.Style.{any_style, any_scalar, get_emit_style_scalar, get_emit_style_map}
use libcyaml.Save.Emitter.{Saver, scalar, int_tag, str_tag, sequence_start, sequence_end}
use libcyaml.Save.Emitter.{mapping_start, mapping_end}
use libcyaml.Load.Values.{read_flags_value, read_bitfield_value, find_bitdef}
use libcyaml.Load.Values.Flags.{named, left, IsWhole}
use libcyaml.Load.Values.Saved.{read_flags_value-write_flags_value}
use libcyaml.Load.Values.Bits.{field_texts, covered}
use libcyaml.Load.Values.BitsSaved.{read_bitfield_value-write_bitfield_value}
use libcyaml.Load.Scalar.{find_strval}
use libcyaml.Number.{print_unsigned, print_hex}
use libcyaml.Tests.Integers.{config}
use libcyaml.Save.Scalar.{write_int, write_uint, write_flags_value, write_bitfield_value}
use libcyaml.Save.Machine.Written.{Events, recorder, Emits}
use libcyaml.Load.Store.{validate_signed, validate_unsigned}
use libcyaml.Load.Events.{
  EventType, Event, Ctx, get_next_event, fetch, handle_record, handle_anchor,
}
use libcyaml.Load.Events.{handle_anchor_named, event_anchor}
use libcyaml.Load.Scalar.{read_int, read_uint}
use libcyaml.Load.Scalar.Back.{CameBack, read_int-write_int, read_uint-write_uint}
use libcyaml.Load.Values.{Loading, next, consume_ignored_value}
use libcyaml.Load.Values.Ignored.{consume_ignored_value-Has, single, collection, Shapes}
use libcyaml.Load.Values.Ignored.{none_left, more, Has, HasAll, size, depth}
use libcyaml.Tests.Integers.{int_schema, plain_schema, blank}
use libcyaml.Tests.Events.{from_list, granting, fresh, plain}
use libcyaml.Tests.Saving.{saver}

-- A client whose bytes are all 254: as a signed number of two bytes, -258.
abbrev saver_254 : Saver Events
saver_254 = record saver { memory = λ x. 254 }

abbrev uint_schema : SchemaValue
uint_schema = plain_schema SchemaType.uint 2 []

read_int-write_int_example :
    (text : Bytes) × Emits
      (write_int (recorder saver_254) int_schema 8)
      (scalar text int_tag any_scalar ∷ [])
    × CameBack saver_254 int_schema 8 (read_int little_endian int_schema text 16) 16 blank
unfolding get_emit_style_scalar
read_int-write_int_example =
    read_int-write_int saver_254 int_schema 8 16 blank (λ x. omega arith) (omega arith)
      (omega arith) (unfold validate_signed in refl)

read_uint-write_uint_example :
    (text : Bytes) × Emits
      (write_uint (recorder saver_254) uint_schema 8)
      (scalar text int_tag any_scalar ∷ [])
    × CameBack saver_254 uint_schema 8 (read_uint little_endian uint_schema text 16) 16 blank
unfolding get_emit_style_scalar
read_uint-write_uint_example =
    read_uint-write_uint saver_254 uint_schema 8 16 blank (λ x. omega arith) (omega arith)
      (omega arith) (unfold validate_unsigned in refl)

-- The context behind an event, and the next event without an anchor.
abbrev seen : Event → List Event → Ctx (List Event) ℕ
seen e es = record (fresh es) { have_event = true; event = e }

abbrev text_event : Bytes → Event
text_event text = record (plain EventType.scalar) { value = text }

abbrev next_of : Ctx (List Event) ℕ → Outcome (Ctx (List Event) ℕ) Event
next_of = next from_list granting 104

next_text :
    (e : Event) (text : Bytes) (es : List Event)
    → next_of (seen e (text_event text ∷ es)) ≡ done (text_event text) (seen (text_event text) es)
unfolding get_next_event fetch handle_record handle_anchor handle_anchor_named event_anchor
next_text e text es = refl

next_seq_start :
    (e : Event) (es : List Event)
    → next_of (seen e (plain EventType.seq_start ∷ es))
      ≡ done (plain EventType.seq_start) (seen (plain EventType.seq_start) es)
unfolding get_next_event fetch handle_record handle_anchor handle_anchor_named event_anchor
next_seq_start e es = refl

next_seq_end :
    (e : Event) (es : List Event)
    → next_of (seen e (plain EventType.seq_end ∷ es))
      ≡ done (plain EventType.seq_end) (seen (plain EventType.seq_end) es)
unfolding get_next_event fetch handle_record handle_anchor handle_anchor_named event_anchor
next_seq_end e es = refl

next_map_end :
    (e : Event) (es : List Event)
    → next_of (seen e (plain EventType.map_end ∷ es))
      ≡ done (plain EventType.map_end) (seen (plain EventType.map_end) es)
unfolding get_next_event fetch handle_record handle_anchor handle_anchor_named event_anchor
next_map_end e es = refl

-- What follows the start of the ignored value { a: [b] }.
abbrev ignored : Shapes
ignored = more single (more (collection (more single none_left)) none_left)

abbrev behind : List Event
behind = text_event [] ∷ []

abbrev at_end : List Event
at_end = plain EventType.seq_end ∷ plain EventType.map_end ∷ behind

abbrev in_list : List Event
in_list = text_event (98 ∷ []) ∷ at_end

abbrev ignored_events : List Event
ignored_events = text_event (97 ∷ []) ∷ plain EventType.seq_start ∷ in_list

abbrev before : Ctx (List Event) ℕ
before = seen (plain EventType.map_start) ignored_events

abbrev last_entry : Ctx (List Event) ℕ
last_entry = seen (plain EventType.seq_end) (plain EventType.map_end ∷ behind)

ignored-Has : HasAll from_list granting 104 before ignored last_entry
unfolding Has
ignored-Has = (
  seen (text_event (97 ∷ [])) (plain EventType.seq_start ∷ in_list),
  (text_event (97 ∷ []), next_text (plain EventType.map_start) (97 ∷ []) _, (refl, refl)),
  (
    last_entry,
    (
      seen (plain EventType.seq_start) in_list,
      (plain EventType.seq_start, next_seq_start (text_event (97 ∷ [])) in_list, refl),
      (
        seen (text_event (98 ∷ [])) at_end,
        (
          seen (text_event (98 ∷ [])) at_end,
          (
            text_event (98 ∷ []),
            next_text (plain EventType.seq_start) (98 ∷ []) at_end,
            (refl, refl),
          ),
          refl,
        ),
        (plain EventType.seq_end, next_seq_end (text_event (98 ∷ [])) _, refl),
      ),
    ),
    refl,
  ),
)

consume_ignored_value-Has_example :
    consume_ignored_value from_list granting 104 5 EventType.map_start before
    ≡ done true (seen (plain EventType.map_end) behind)
unfolding size depth
consume_ignored_value-Has_example =
    consume_ignored_value-Has from_list granting 104 EventType.map_start ignored 0 before last_entry
      (seen (plain EventType.map_end) behind) refl (omega arith) ignored-Has
      (plain EventType.map_end, next_map_end (plain EventType.seq_end) behind, refl)

-- Two flags of a byte that holds 254: the second is set, and 252 is left.
abbrev flags_schema : SchemaValue
flags_schema = record (plain_schema SchemaType.flags 1 []) {
  enumeration = record {
    strings = record { str = 97 ∷ []; val = pos 1 } ∷ record { str = 98 ∷ []; val = pos 2 } ∷ [];
    validation_cb = none;
    missing = pos 0;
  };
}

abbrev text_252 : Bytes
text_252 = 50 ∷ 53 ∷ 50 ∷ []

abbrev flag_stream : Ctx (List Event) ℕ
flag_stream =
    seen (plain EventType.seq_start)
      (text_event (98 ∷ []) ∷ text_event text_252 ∷ plain EventType.seq_end ∷ behind)

abbrev loading : Ctx (List Event) ℕ → Loading (List Event) ℕ
loading c = record { context = c; memory = blank }

read_flags_value-write_flags_value_example :
    Emits (write_flags_value (recorder saver_254) flags_schema 8) (
      sequence_start any_style
      ∷ scalar (98 ∷ []) str_tag any_scalar
      ∷ scalar text_252 str_tag any_scalar
      ∷ sequence_end
      ∷ [])
    × ((m' : Memory) × (read_flags_value from_list granting 104 config flags_schema 3 little_endian
            16
            (loading flag_stream)
          ≡ done true (record { context = seen (plain EventType.seq_end) behind; memory = m' }))
        × (data_read little_endian 1 16 m' ≡ data_read little_endian 1 8 saver_254.memory)
        × ((x : ℕ) → (x < 16) ⊎ (16 + 1 ≤ x) → m' x ≡ blank x))
unfolding get_emit_style_scalar named left IsWhole read_bytes print_unsigned
read_flags_value-write_flags_value_example =
    read_flags_value-write_flags_value saver_254 from_list granting 104 config flags_schema 8 16
      (loading flag_stream) (seen (plain EventType.seq_end) behind) (λ x. omega arith) (omega arith)
      (omega arith) (unfold find_strval in (refl, (refl, tt))) (refl, tt)
      (inr (refl, unfold find_strval in refl, omega arith, omega arith))
      (unfold validate_unsigned in refl)
      (
        seen (text_event (98 ∷ [])) (text_event text_252 ∷ plain EventType.seq_end ∷ behind),
        (text_event (98 ∷ []), next_text (plain EventType.seq_start) (98 ∷ []) _, refl, refl),
        (
          seen (text_event text_252) (plain EventType.seq_end ∷ behind),
          (text_event text_252, next_text (text_event (98 ∷ [])) text_252 _, refl, refl),
          (plain EventType.seq_end, next_seq_end (text_event text_252) behind, refl),
        ),
      )

-- A field of three bits from bit 1 on: of 254 it holds 7, and covers 14.
abbrev bits_schema : SchemaValue
bits_schema = record (plain_schema SchemaType.bitfield 1 []) {
  bitfield = record {
    bitdefs = record { name = 97 ∷ []; offset = 1; bits = 3 } ∷ [];
    validation_cb = none;
    missing = 0;
  };
}

abbrev text_7 : Bytes
text_7 = 48 ∷ 120 ∷ 55 ∷ []

abbrev bits_stream : Ctx (List Event) ℕ
bits_stream =
    seen (plain EventType.map_start)
      (text_event (97 ∷ []) ∷ text_event text_7 ∷ plain EventType.map_end ∷ behind)

read_bitfield_value-write_bitfield_value_example :
    Emits (write_bitfield_value (recorder saver_254) bits_schema 8) (
      mapping_start any_style
      ∷ scalar (97 ∷ []) str_tag any_scalar
      ∷ scalar text_7 int_tag any_scalar
      ∷ mapping_end
      ∷ [])
    × ((m' : Memory) × (read_bitfield_value from_list granting 104 config bits_schema 2
            little_endian 16
            (loading bits_stream)
          ≡ done true (record { context = seen (plain EventType.map_end) behind; memory = m' }))
        × (data_read little_endian 1 16 m' ≡ ok 14)
        × ((x : ℕ) → (x < 16) ⊎ (16 + 1 ≤ x) → m' x ≡ blank x))
unfolding get_emit_style_scalar get_emit_style_map field_texts covered read_bytes print_hex
read_bitfield_value-write_bitfield_value_example =
    read_bitfield_value-write_bitfield_value saver_254 from_list granting 104 config bits_schema 8
      16 (loading bits_stream) (seen (plain EventType.map_end) behind) (λ x. omega arith)
      (omega arith) (omega arith) ((omega arith, omega arith), tt)
      (unfold find_bitdef in (refl, tt)) (unfold validate_unsigned in refl)
      (
        seen (text_event (97 ∷ [])) (text_event text_7 ∷ plain EventType.map_end ∷ behind),
        (text_event (97 ∷ []), next_text (plain EventType.map_start) (97 ∷ []) _, refl, refl),
        (
          seen (text_event text_7) (plain EventType.map_end ∷ behind),
          (text_event text_7, next_text (text_event (97 ∷ [])) text_7 _, refl, refl),
          (plain EventType.map_end, next_map_end (text_event text_7) behind, refl),
        ),
      )
