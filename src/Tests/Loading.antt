-- ===== src/Tests/Loading.antt =====
-- src/load.c on the document that Tests.Saving writes.
use libcyaml.Base.{
  ℕ, false, some, none, List, [], ◌∷◌, ◌≡◌, refl, ◌+◌, Option, Bool-cases, inl, inr, ltb, arith,
}
use libcyaml.Outcome.{Outcome, done, failed, fault, Ensures, Leads}
use libcyaml.Schema.{Bytes, SchemaType, SchemaValue, SchemaRef}
use libcyaml.Memory.{little_endian, read_bytes}
use libcyaml.Load.Events.{EventType, Event}
use libcyaml.Load.Stack.{Frame, LoadCtx, Loader, new_frame}
use libcyaml.Load.Machine.{load, load_body, initial, handle_map_end}
use libcyaml.Load.Machine.Complete.{AreFound, IsAccepted, handle_map_end-AreFound}
use libcyaml.Load.Machine.Sound.{IsSound, IsLoader}
use libcyaml.Load.Machine.Kept.{Finished, load_body-Finished}
use libcyaml.Load.Store.{validate_signed, validate_unsigned}
use libcyaml.Strings.{State, is_case_sensitive}
use libcyaml.Tests.Integers.{config, blank, plain_schema}
use libcyaml.Base.{◌++◌, if◌then◌else◌}
use libcyaml.Tests.Events.{from_list, granting, fresh, fresh-Good, plain}
use libcyaml.Tests.Saving.{schemas, struct_schema, struct_fields, client_memory}

abbrev pub loader : Loader (List Event) ℕ
loader = record {
  config = config;
  host = little_endian;
  fpu = record { exceeds_float = λ v. false; narrow = λ v. v; widen = λ v. v };
  strtod = λ text. none;
  schemas = schemas;
  parse = from_list;
  event_size = 104;
  realloc = granting;
  resize = λ h ptr n. (some (1000 + h), h + n);
  copy_fuel = 99;
  copy_place = 24;
  copy_data = 32;
  copy_variable = 40;
  copy_count = 48;
  variable = 8;
  count_variable = 16;
}

abbrev text_event : Bytes → Event
text_event text = record (plain EventType.scalar) { value = text }

-- { a: -2, b: [7, 8] }
abbrev document : List Event
document =
    plain EventType.strm_start
    ∷ plain EventType.doc_start
    ∷ plain EventType.map_start
    ∷ text_event (97 ∷ [])
    ∷ text_event (45 ∷ 50 ∷ [])
    ∷ text_event (98 ∷ [])
    ∷ plain EventType.seq_start
    ∷ text_event (55 ∷ [])
    ∷ text_event (56 ∷ [])
    ∷ plain EventType.seq_end
    ∷ plain EventType.map_end
    ∷ plain EventType.doc_end
    ∷ plain EventType.strm_end
    ∷ []

abbrev loaded : Outcome (LoadCtx (List Event) ℕ) (Option (ℕ × ℕ))
loaded = load loader 9 20 struct_schema false (initial loader (fresh document) blank)

abbrev what : {A : Type 0} → Outcome (LoadCtx (List Event) ℕ) A → Option A
what (done a c) = some a
what (failed e c) = none
what fault = none

abbrev bytes_at : {A : Type 0} → ℕ → ℕ → Outcome (LoadCtx (List Event) ℕ) A → Bytes
bytes_at a n (done x c) = read_bytes a n c.loading.memory
bytes_at a n (failed e c) = []
bytes_at a n fault = []

-- The data lies at 2024: the integer -2, and the address and the length of the list.
data_found : what loaded ≡ some (some (2024, 0))
unfolding load validate_signed validate_unsigned
data_found = refl

data_bytes :
    bytes_at 2024 17 loaded
    ≡ 254 ∷ 255 ∷ 0 ∷ 0 ∷ 0 ∷ 0 ∷ 0 ∷ 0 ∷ 5 ∷ 8 ∷ 0 ∷ 0 ∷ 0 ∷ 0 ∷ 0 ∷ 0 ∷ 2 ∷ []
unfolding load validate_signed validate_unsigned
data_bytes = refl

-- A pointer to a structure with an optional field, which has the structure at 100 as its default.
abbrev default_schemas : SchemaRef → SchemaValue
default_schemas r = if ltb r 4 then schemas r else record struct_schema {
  flags = 3;
  mapping = record struct_schema.mapping { missing = 100 };
}

abbrev outer_schema : SchemaValue
outer_schema =
    record (plain_schema SchemaType.mapping 8 (
      record { key = 120 ∷ []; data_offset = 0; count_offset = 0; count_size = 0; value = 4 }
      ∷ [])) { flags = 2 }

abbrev empty_document : List Event
empty_document =
    plain EventType.strm_start
    ∷ plain EventType.doc_start
    ∷ plain EventType.map_start
    ∷ plain EventType.map_end
    ∷ plain EventType.doc_end
    ∷ plain EventType.strm_end
    ∷ []

abbrev default_loaded : Outcome (LoadCtx (List Event) ℕ) (Option (ℕ × ℕ))
default_loaded =
    let l = record loader { schemas = default_schemas } in
    load l 9 20 outer_schema false (initial l (fresh empty_document) client_memory)

-- The copy of the default lies at 3188, its list at 3212.
default_place : bytes_at 2024 2 default_loaded ≡ 116 ∷ 12 ∷ []
unfolding load
default_place = refl

default_bytes :
    bytes_at 3188 2 default_loaded ++ bytes_at 3212 2 default_loaded ≡ 254 ∷ 255 ∷ 7 ∷ 8 ∷ []
unfolding load
default_bytes = refl

schema-IsSound : (r : ℕ) → IsSound config (schemas r)
unfolding is_case_sensitive
schema-IsSound r = elim (Bool-cases (ltb r 1)) [
  | inl a ↦ rw a (refl, tt)
  | inr a ↦ elim (Bool-cases (ltb r 2)) [
    | inl b ↦ rw (a, b) (refl, tt)
    | inr b ↦ elim (Bool-cases (ltb r 3)) [
      | inl c ↦ rw (a, b, c) (refl, tt)
      | inr c ↦ rw (a, b, c) (refl, omega arith)
    ]
  ]
]

schema-no_copies : (r : ℕ) → ((schemas r).mapping.missing ≡ 0) × ((schemas r).sequence.missing ≡ 0)
schema-no_copies r = elim (Bool-cases (ltb r 1)) [
  | inl a ↦ rw a (refl, refl)
  | inr a ↦ elim (Bool-cases (ltb r 2)) [
    | inl b ↦ rw (a, b) (refl, refl)
    | inr b ↦ elim (Bool-cases (ltb r 3)) [
      | inl c ↦ rw (a, b, c) (refl, refl)
      | inr c ↦ rw (a, b, c) (refl, refl)
    ]
  ]
]

loader-IsLoader : IsLoader loader
loader-IsLoader = record { sound = schema-IsSound; no_copies = schema-no_copies }

load_body-Finished_example :
    Ensures
      (Finished loader loader-IsLoader 9)
      (load_body loader 9 20 struct_schema (initial loader (fresh document) blank))
load_body-Finished_example =
    load_body-Finished loader loader-IsLoader 9 20 struct_schema (fresh document) blank
      (fresh-Good document) (schema-IsSound 3)

-- The end of the mapping, with both fields marked.
abbrev ending : Frame
ending = record (new_frame State.in_map_key struct_schema 100) { fields_set = 3 ∷ [] }

abbrev at_end : LoadCtx (List Event) ℕ
at_end = record (initial loader (fresh document) blank) {
  stack = ending ∷ new_frame State.in_doc struct_schema 8 ∷ [];
  stack_max = 16;
}

ends : what (handle_map_end loader ending at_end) ≡ some tt
unfolding handle_map_end
ends = refl

handle_map_end-AreFound_example :
    Leads
      (λ u c'.
        AreFound loader ending 0 struct_fields
        × IsAccepted loader ending none 100 c'.loading.memory)
      (handle_map_end loader ending at_end)
handle_map_end-AreFound_example = handle_map_end-AreFound loader ending at_end (omega arith)
