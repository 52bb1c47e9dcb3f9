-- ===== src/Params.antt =====
-- The checks of the parameters that clients call with, src/load.c, src/save.c and src/copy.c; the
-- dispatch of events to the handlers of the load states, and the strings that stand for NULL.
--
-- A pointer parameter is none for NULL. Of the configuration the checks read whether its `mem_fn` is
-- given, of a pointer to a pointer whether that one is NULL.
pub mod Accepted
use libcyaml.Base.{ℕ, Bool, true, false, not, ◌&&◌, ◌||◌, Option, none, some, List, [], ◌∷◌}
use libcyaml.Base.{if◌then◌else◌, ◌==◌}
use libcyaml.Errors.{Result, ok, fail, bad_param_null_config, bad_config_null_memfn}
use libcyaml.Errors.{bad_param_null_schema, bad_param_seq_count, top_level_non_ptr}
use libcyaml.Errors.{bad_param_null_data, data_target_non_null, internal_error}
use libcyaml.Schema.{Bytes, SchemaType, SchemaValue}
use libcyaml.Schema.Flag
use libcyaml.Strings.{State, has_flag}
use libcyaml.Load.Events.{EventType, same_name}
use libcyaml.Load.Store.{flag_check_all}

abbrev pub is_sequence : SchemaType → Bool
is_sequence SchemaType.sequence = true
is_sequence _ = false

-- `cyaml__is_sequence` of src/copy.c
abbrev pub is_any_sequence : SchemaType → Bool
is_any_sequence SchemaType.sequence = true
is_any_sequence SchemaType.sequence_fixed = true
is_any_sequence _ = false

abbrev pub differ : Bool → Bool → Bool
differ true b = not b
differ false b = b

-- The checks that loading and saving share: the configuration and the schema are given, the schema
-- is a sequence exactly when there is a count, it is a pointer, and there is data.
unfoldable pub validate_top_level :
    Option Bool → Option SchemaValue → Bool → Bool → Result (Unit {0})
validate_top_level none schema counted given = fail bad_param_null_config
validate_top_level (some false) schema counted given = fail bad_config_null_memfn
validate_top_level (some true) none counted given = fail bad_param_null_schema
validate_top_level (some true) (some schema) counted given =
    if differ (is_sequence schema.type) counted
    then fail bad_param_seq_count
    else if not (has_flag schema.flags Flag.pointer)
    then fail top_level_non_ptr
    else if not given
    then fail bad_param_null_data
    else ok tt

-- `cyaml__validate_load_params`: the last two tell whether `seq_count_tgt` and `data_tgt` are given.
unfoldable pub validate_load_params :
    Option Bool → Option SchemaValue → Bool → Bool → Result (Unit {0})
unfolding validate_top_level
validate_load_params config schema data_tgt seq_count_tgt =
    validate_top_level config schema seq_count_tgt data_tgt

-- `cyaml__validate_save_params`
unfoldable pub validate_save_params :
    Option Bool → Option SchemaValue → Bool → ℕ → Result (Unit {0})
unfolding validate_top_level
validate_save_params config schema given seq_count =
    validate_top_level config schema (not (seq_count == 0)) given

-- `cyaml__validate_copy_params`: `data_out` is NULL, or points to NULL (false) or to data (true).
unfoldable pub validate_copy_params :
    Option Bool → Option SchemaValue → ℕ → Option Bool → Result (Unit {0})
validate_copy_params none schema seq_count data_out = fail bad_param_null_config
validate_copy_params (some false) schema seq_count data_out = fail bad_config_null_memfn
validate_copy_params (some true) none seq_count data_out = fail bad_param_null_schema
validate_copy_params (some true) (some schema) seq_count data_out =
    if differ (is_any_sequence schema.type) (not (seq_count == 0))
    then fail bad_param_seq_count
    else elim data_out [
      | none ↦ fail bad_param_null_data
      | some occupied ↦
          if has_flag schema.flags Flag.pointer && occupied
          then fail data_target_non_null
          else ok tt
    ]

-- The handlers of src/load.c.
pub data Handler : Type 0 where
  stream_start doc_start stream_end doc_root_value doc_end : Handler
  map_key map_end map_value seq_entry seq_end : Handler

-- The table of `cyaml__load_event`; none is CYAML_ERR_INTERNAL_ERROR.
unfoldable pub load_event_handler : State → EventType → Option Handler
load_event_handler State.start EventType.strm_start = some stream_start
load_event_handler State.in_stream EventType.doc_start = some doc_start
load_event_handler State.in_stream EventType.strm_end = some stream_end
load_event_handler State.in_doc EventType.scalar = some doc_root_value
load_event_handler State.in_doc EventType.seq_start = some doc_root_value
load_event_handler State.in_doc EventType.map_start = some doc_root_value
load_event_handler State.in_doc EventType.doc_end = some doc_end
load_event_handler State.in_map_key EventType.scalar = some map_key
load_event_handler State.in_map_key EventType.map_end = some map_end
load_event_handler State.in_map_value EventType.scalar = some map_value
load_event_handler State.in_map_value EventType.seq_start = some map_value
load_event_handler State.in_map_value EventType.map_start = some map_value
load_event_handler State.in_sequence EventType.scalar = some seq_entry
load_event_handler State.in_sequence EventType.seq_start = some seq_entry
load_event_handler State.in_sequence EventType.map_start = some seq_entry
load_event_handler State.in_sequence EventType.seq_end = some seq_end
load_event_handler _ _ = none

-- "~", "null", "Null", "NULL"
abbrev null_strings : List Bytes
null_strings =
    (0x7e ∷ [])
    ∷ (0x6e ∷ 0x75 ∷ 0x6c ∷ 0x6c ∷ [])
    ∷ (0x4e ∷ 0x75 ∷ 0x6c ∷ 0x6c ∷ [])
    ∷ (0x4e ∷ 0x55 ∷ 0x4c ∷ 0x4c ∷ [])
    ∷ []

abbrev is_one_of : Bytes → List Bytes → Bool
is_one_of s [] = false
is_one_of s (x ∷ xs) = same_name s x || is_one_of s xs

abbrev is_empty : Bytes → Bool
is_empty [] = true
is_empty (b ∷ bs) = false

-- `cyaml__string_is_null_ptr`
unfoldable pub string_is_null_ptr : SchemaValue → Bytes → Bool
unfolding flag_check_all same_name
string_is_null_ptr schema value =
    if flag_check_all schema.flags Flag.pointer_null && is_empty value
    then true
    else if not (flag_check_all schema.flags Flag.pointer_null_str)
    then false
    else is_one_of value null_strings
