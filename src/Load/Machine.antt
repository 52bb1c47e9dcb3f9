-- ===== src/Load/Machine.antt =====
-- src/load.c, the state machine: each event is given to the handler of the state on top of the stack.
-- Backtraces are log messages and left out. The Boolean that a function returns is whether its fuel was
-- enough: the loops over events, and the loop of `cyaml__load`, run on fuel.
pub mod Sound
pub mod Values
pub mod Pushed
pub mod Reading
pub mod Mapping
pub mod Handlers
pub mod Kept
pub mod Complete
use libcyaml.Base.{ℕ, zero, suc, ◌+◌, ◌-◌, ◌*◌, ◌%◌, ◌^◌, Bool, true, false, not, ◌&&◌, ◌||◌}
use libcyaml.Base.{Option, none, some, List, [], ◌∷◌, length, get_elem?, replicate, ltb, ◌==◌, take}
use libcyaml.Base.{if◌then◌else◌}
use libcyaml.Errors.{Result, ok, fail, invalid_value, internal_error, bad_type_in_schema}
use libcyaml.Errors.{mapping_field_missing, invalid_key, unexpected_event, sequence_entries_max}
use libcyaml.Errors.{sequence_entries_min}
use libcyaml.Outcome.{Outcome, done, failed, fault, M, ◌>>=◌, ◌>>◌, return, raise, undefined, gets}
use libcyaml.Outcome.{modify, lift}
use libcyaml.Schema.{Bytes, SchemaType, SchemaValue, Field, Config}
use libcyaml.Schema.Flag
use libcyaml.Schema.CfgFlag
use libcyaml.Memory.{Memory, write_bytes, read_bytes, object_value}
use libcyaml.Data.{data_write, data_read_pointer}
use libcyaml.Strings.{State, has_flag}
use libcyaml.Params.{is_any_sequence, string_is_null_ptr, validate_load_params, Handler}
use libcyaml.Params.{
  load_event_handler, stream_start, doc_start, stream_end, doc_root_value, doc_end,
}
use libcyaml.Params.{map_key, map_end, map_value, seq_entry, seq_end}
use libcyaml.Free.{cyaml_free}
use libcyaml.Load.Store.{flag_check_all}
use libcyaml.Load.Fields.{fields_idx_none, get_mapping_field_idx, mapping_bitfield_set}
use libcyaml.Load.Fields.{mapping_bitfield_check, validate_event_type_for_schema}
use libcyaml.Load.Fields.{field_scalar_apply_default}
use libcyaml.Load.Events.{EventType, Event, Ctx, get_next_event}
use libcyaml.Load.Scalar.{read_scalar_value, stores}
use libcyaml.Load.Values.{Loading, on_context, next, consume_ignored_value, read_flags_value}
use libcyaml.Load.Values.{read_bitfield_value}
use libcyaml.Copy.Stack.{Copier}
use libcyaml.Copy.Call.{copy_to}
use libcyaml.Load.Stack.{Frame, LoadCtx, Loader, on_loading, on_heap, on_memory, top_state}
use libcyaml.Load.Stack.{
  change_top, stack_pop, stack_push, data_handle_pointer, mapping_field_count,
}

abbrev pub is_type_ignore : SchemaType → Bool
is_type_ignore SchemaType.ignore = true
is_type_ignore _ = false

abbrev pub is_type_fixed : SchemaType → Bool
is_type_fixed SchemaType.sequence_fixed = true
is_type_fixed _ = false

abbrev pub is_scalar : EventType → Bool
is_scalar EventType.scalar = true
is_scalar _ = false

abbrev pub is_start : State → Bool
is_start State.start = true
is_start _ = false

-- An array access or a comparison that C leaves undefined.
abbrev pub defined {ℓ} : {S : Type ℓ} {A : Type 0} → Option A → M S A
defined none = undefined
defined (some a) = return a

-- A validation callback that is given refuses the value.
abbrev pub refuses : Option Bool → Bool
refuses none = false
refuses (some accepted) = not accepted

-- What a callback, if there is one, says.
abbrev pub judged : {A : Type 0} → Option A → (A → Bool) → Option Bool
judged none verdict = none
judged (some cb) verdict = some (verdict cb)

module _ {P H : Type 0} (l : Loader P H) where
  -- What `cyaml_copy` works on, called from loading.
  abbrev pub copier : Copier H
  copier = record {
    host = l.host;
    schemas = l.schemas;
    realloc = l.realloc;
    allocate = λ h n. l.resize h 0 n;
    data_variable = l.copy_data;
    copy_variable = l.copy_variable;
    count_variable = l.copy_count;
  }

  -- The call of `cyaml_copy` in `cyaml__field_apply_default`, and what follows it: the count of a
  -- sequence is written.
  unfoldable pub copy_default :
      SchemaValue → SchemaType → ℕ → ℕ → Frame → Field → ℕ → M (LoadCtx P H) (Unit {0})
  unfolding data_write copy_to
  copy_default schema type missing seq_count top field place =
      if missing == 0 then return tt else do
        on_heap (copy_to copier l.copy_fuel l.copy_place schema missing (seq_count % 2 ^ 32) place)
        (elim type [
          | SchemaType.sequence ↦ on_memory (
              stores
                (data_write l.host seq_count field.count_size (top.data_at + field.count_offset)))
          | _ ↦ return tt
        ])

  -- `cyaml__field_apply_default`, by the type of the field's schema.
  unfoldable pub field_apply_default :
      SchemaValue → SchemaType → Frame → Field → ℕ → M (LoadCtx P H) (Unit {0})
  unfolding copy_default field_scalar_apply_default
  field_apply_default schema SchemaType.mapping top field place =
      copy_default schema SchemaType.mapping schema.mapping.missing 0 top field place
  field_apply_default schema SchemaType.sequence top field place =
      copy_default schema SchemaType.sequence schema.sequence.missing schema.sequence.missing_count
        top field place
  field_apply_default schema SchemaType.sequence_fixed top field place =
      copy_default schema SchemaType.sequence_fixed schema.sequence.missing schema.sequence.max top
        field place
  field_apply_default schema SchemaType.ignore top field place = return tt
  field_apply_default schema SchemaType.unknown top field place = raise bad_type_in_schema
  field_apply_default schema t top field place =
      on_heap (field_scalar_apply_default l.host l.fpu (λ h n. l.resize h 0 n) schema place)

  -- The loop of `cyaml__mapping_bitfieid_validate`, with the fields from the index `i` on.
  unfoldable pub validate_fields : Frame → ℕ → List Field → M (LoadCtx P H) (Unit {0})
  unfolding mapping_bitfield_check flag_check_all field_apply_default
  validate_fields top i [] = return tt
  validate_fields top i (field ∷ fields) =
      let rest = validate_fields top (suc i) fields in
      let value = l.schemas field.value in
      defined (mapping_bitfield_check top.fields_set i) >>= λ seen.
      if seen
      then rest
      else if flag_check_all value.flags Flag.optional
      then field_apply_default value value.type top field (top.data_at + field.data_offset) >> rest
      else raise mapping_field_missing

  -- `cyaml__mapping_bitfieid_validate`
  unfoldable pub mapping_bitfield_validate : Frame → M (LoadCtx P H) (Unit {0})
  unfolding validate_fields
  mapping_bitfield_validate top =
      validate_fields top 0 (take (mapping_field_count top.schema) top.schema.mapping.fields)

  -- The last `switch` of `cyaml__read_value`.
  unfoldable pub read_by_type : ℕ → SchemaValue → SchemaType → ℕ → Event → M (LoadCtx P H) Bool
  unfolding read_scalar_value read_flags_value read_bitfield_value consume_ignored_value stack_push
  read_by_type fuel schema SchemaType.flags place event =
      on_loading (read_flags_value l.parse l.realloc l.event_size l.config schema fuel l.host place)
  read_by_type fuel schema SchemaType.mapping place event =
      stack_push l State.in_map_key schema place >> return true
  read_by_type fuel schema SchemaType.bitfield place event =
      on_loading
        (read_bitfield_value l.parse l.realloc l.event_size l.config schema fuel l.host place)
  read_by_type fuel schema SchemaType.sequence place event =
      stack_push l State.in_sequence schema place >> return true
  read_by_type fuel schema SchemaType.sequence_fixed place event =
      stack_push l State.in_sequence schema place >> return true
  read_by_type fuel schema SchemaType.ignore place event =
      on_loading (on_context (consume_ignored_value l.parse l.realloc l.event_size fuel event.type))
  read_by_type fuel schema SchemaType.unknown place event = raise internal_error
  read_by_type fuel schema t place event =
      on_memory (read_scalar_value l.fpu l.strtod l.config l.host schema t event.value place)
      >> return true

  -- `cyaml__read_value`
  unfoldable pub read_value : ℕ → SchemaValue → ℕ → Event → M (LoadCtx P H) Bool
  unfolding string_is_null_ptr validate_event_type_for_schema data_handle_pointer read_by_type
  read_value fuel schema place event =
      if is_scalar event.type && string_is_null_ptr schema event.value then return true else do
        lift (validate_event_type_for_schema schema.type event.type)
        target ←
            (if is_any_sequence schema.type
              then return place
              else data_handle_pointer l schema event.value place)
        read_by_type fuel schema schema.type target event

  -- `cyaml__doc_start`
  unfoldable pub handle_doc_start : Frame → M (LoadCtx P H) (Unit {0})
  unfolding stack_pop stack_push
  handle_doc_start top = if top.doc_count == 1 then stack_pop else do
    change_top λ f. record f { doc_count = (top.doc_count + 1) % 2 ^ 32 }
    stack_push l State.in_doc top.schema top.data_at

  -- `cyaml__map_key_check_field`
  unfoldable pub map_key_check_field : Frame → ℕ → Field → M (LoadCtx P H) (Unit {0})
  unfolding mapping_bitfield_check mapping_bitfield_set
  map_key_check_field top idx field = do
    seen ←
        (if is_type_ignore (l.schemas field.value).type
          then return false
          else defined (mapping_bitfield_check top.fields_set idx))
    (if seen then raise unexpected_event else return tt)
    words ← defined (mapping_bitfield_set top.fields_set idx)
    change_top λ f. record f { fields_set = words }

  -- A key without a field, in `cyaml__map_key`.
  unfoldable pub ignored_key : ℕ → M (LoadCtx P H) Bool
  unfolding get_next_event consume_ignored_value
  ignored_key fuel =
      if has_flag l.config.flags CfgFlag.ignore_unknown_keys
      then on_loading (
          on_context (
            next l.parse l.realloc l.event_size >>= λ event.
            consume_ignored_value l.parse l.realloc l.event_size fuel event.type))
      else raise invalid_key

  -- `cyaml__map_key`
  unfoldable pub handle_map_key : ℕ → Frame → Event → M (LoadCtx P H) Bool
  unfolding get_mapping_field_idx ignored_key map_key_check_field
  handle_map_key fuel top event = do
    idx ← defined (get_mapping_field_idx l.config top.schema event.value)
    change_top λ f. record f { fields_idx = idx }
    (if idx == fields_idx_none then ignored_key fuel else do
      field ← defined (get_elem? top.schema.mapping.fields idx)
      map_key_check_field top idx field
      change_top λ f. record f { state = State.in_map_value }
      return true)

  -- `cyaml__map_end`
  unfoldable pub handle_map_end : Frame → M (LoadCtx P H) (Unit {0})
  unfolding mapping_bitfield_validate stack_pop
  handle_map_end top = do
    mapping_bitfield_validate top
    m ← gets (λ c. c.loading.memory)
    (if refuses (judged top.schema.mapping.validation_cb (λ cb. cb m top.data_at))
        then raise invalid_value
        else stack_pop)

  -- `cyaml__map_value`
  unfoldable pub handle_map_value : ℕ → Frame → Event → M (LoadCtx P H) Bool
  unfolding read_value
  handle_map_value fuel top event = do
    field ← defined (get_elem? top.schema.mapping.fields top.fields_idx)
    change_top λ f. record f { state = State.in_map_key }
    read_value fuel (l.schemas field.value) (top.data_at + field.data_offset) event

  -- The count of the entries is written, in `cyaml__seq_entry`.
  unfoldable pub write_count : Frame → ℕ → M (LoadCtx P H) (Unit {0})
  unfolding data_write
  write_count top count =
      if is_type_fixed top.schema.type
      then return tt
      else on_memory (stores (data_write l.host count top.count_size top.count_data))

  -- `cyaml__seq_entry`; the address of the entry is computed with 32 bits.
  unfoldable pub handle_seq_entry : ℕ → Frame → Event → M (LoadCtx P H) Bool
  unfolding data_handle_pointer write_count read_value
  handle_seq_entry fuel top event =
      let count = (top.count + 1) % 2 ^ 32 in
      if ltb top.schema.sequence.max count then raise sequence_entries_max else do
        start ← data_handle_pointer l top.schema event.value top.data_at
        change_top λ f. record f { count = count }
        write_count top count
        read_value fuel (l.schemas top.schema.sequence.entry)
            (start + top.schema.data_size * top.count % 2 ^ 32) event

  -- `cyaml__seq_end`
  unfoldable pub handle_seq_end : Frame → M (LoadCtx P H) (Unit {0})
  unfolding stack_pop
  handle_seq_end top = do
    m ← gets (λ c. c.loading.memory)
    (if ltb top.count top.schema.sequence.min
        then raise sequence_entries_min
        else if refuses
            (judged top.schema.sequence.validation_cb (λ cb. cb m top.data_at top.count))
        then raise invalid_value
        else stack_pop)

  -- The handlers; `cyaml__stream_start`, `cyaml__stream_end`, `cyaml__doc_root_value` and
  -- `cyaml__doc_end` are written out.
  unfoldable pub handle : ℕ → Frame → Event → Handler → M (LoadCtx P H) Bool
  unfolding stack_push stack_pop handle_doc_start handle_map_key handle_map_end handle_map_value
      handle_seq_entry handle_seq_end read_value
  handle fuel top event stream_start =
      stack_push l State.in_stream top.schema top.data_at >> return true
  handle fuel top event doc_start = handle_doc_start top >> return true
  handle fuel top event stream_end = stack_pop >> return true
  handle fuel top event doc_root_value = read_value fuel top.schema top.data_at event
  handle fuel top event doc_end = stack_pop >> return true
  handle fuel top event map_key = handle_map_key fuel top event
  handle fuel top event map_end = handle_map_end top >> return true
  handle fuel top event map_value = handle_map_value fuel top event
  handle fuel top event seq_entry = handle_seq_entry fuel top event
  handle fuel top event seq_end = handle_seq_end top >> return true

  -- `cyaml__load_event`
  unfoldable pub load_event : ℕ → Event → M (LoadCtx P H) Bool
  unfolding load_event_handler handle
  load_event fuel event = do
    top ← top_state
    (elim (load_event_handler top.state event.type) [
      | none ↦ raise internal_error
      | some h ↦ handle fuel top event h
    ])

  -- One round of the loop of `cyaml__load`.
  unfoldable pub step : ℕ → M (LoadCtx P H) Bool
  unfolding get_next_event load_event
  step fuel = do
    event ← on_loading (on_context (next l.parse l.realloc l.event_size))
    load_event fuel event

  -- The loop of `cyaml__load`, of at most `n` rounds: whether it came to its end.
  unfoldable pub run : ℕ → ℕ → M (LoadCtx P H) Bool
  unfolding step
  run fuel zero = return false
  run fuel (suc n) = do
    enough ← step fuel
    top ← top_state
    (if not enough
        then return false
        else elim top.state [ State.start ↦ return true | _ ↦ run fuel n ])

  -- The context at the start: no data, a count of 0, an empty stack.
  abbrev pub initial : Ctx P H → Memory → LoadCtx P H
  initial context m = record {
    loading = record {
      context = context;
      memory =
          write_bytes l.count_variable (replicate 4 0) (write_bytes l.variable (replicate 8 0) m);
    };
    stack = [];
    stack_max = 0;
  }

  -- The body of `cyaml__load`.
  unfoldable pub load_body : ℕ → ℕ → SchemaValue → M (LoadCtx P H) Bool
  unfolding stack_push run stack_pop
  load_body fuel n schema = do
    stack_push l State.start schema l.variable
    ended ← run fuel n
    (if ended then stack_pop else return tt)
    return ended

  -- `cyaml__load`: the data and the count of a top-level sequence; `none` is too little fuel.
  unfoldable pub load : ℕ → ℕ → SchemaValue → Bool → M (LoadCtx P H) (Option (ℕ × ℕ))
  unfolding validate_load_params load_body data_read_pointer read_bytes
  load fuel n schema counted =
      lift (validate_load_params (some true) (some schema) true counted) >> do
        ended ← load_body fuel n schema
        m ← gets (λ c. c.loading.memory)
        return (
            if ended
            then some (
              data_read_pointer l.host l.variable m,
              object_value l.host (read_bytes l.count_variable 4 m),
            )
            else none)

  -- What `cyaml__load` frees when it ends with an error.
  unfoldable pub freed_on_error : ℕ → SchemaValue → LoadCtx P H → Result (Option (List ℕ))
  unfolding cyaml_free data_read_pointer read_bytes
  freed_on_error fuel schema c =
      let m = c.loading.memory in
      cyaml_free l.host m l.schemas fuel (some true) (some schema) l.variable
        (data_read_pointer l.host l.variable m)
        (object_value l.host (read_bytes l.count_variable 4 m))
