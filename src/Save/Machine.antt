-- ===== src/Save/Machine.antt =====
-- src/save.c, the state machine: the top state of the stack is handled until only the first is left.
-- Backtraces are log messages and left out.
pub mod Written
pub mod Meant
pub mod Simulated
pub mod Rounds
pub mod Refined
pub mod Document
use libcyaml.Base.{ℕ, zero, suc, ◌+◌, ◌-◌, ◌*◌, ◌%◌, ◌^◌, Bool, true, false, not, ◌&&◌}
use libcyaml.Base.{List, [], ◌∷◌, length, get_elem?, set, none, some, ltb, ◌==◌, if◌then◌else◌}
use libcyaml.Base.{bit_and}
use libcyaml.Errors.{Result, ok, fail, oom, invalid_value, internal_error, bad_type_in_schema}
use libcyaml.Errors.{sequence_fixed_count, sequence_in_sequence, libyaml_emitter}
use libcyaml.Outcome.{Outcome, done, failed, fault, M, ◌>>=◌, ◌>>◌, return, raise, undefined, lift}
use libcyaml.Outcome.{gets, modify}
use libcyaml.Schema.{Bytes, SchemaType, SchemaValue, Field}
use libcyaml.Schema.Flag
use libcyaml.Data.{data_read, data_read_pointer, data_save_handle_pointer}
use libcyaml.Strings.{State, has_flag}
use libcyaml.Load.Store.{flag_check_all}
use libcyaml.Params.{validate_save_params}
use libcyaml.Save.Style.{get_emit_style_map, get_emit_style_seq, emit_doc_delim}
use libcyaml.Save.Emitter.{Saver, OutEvent, str_tag, emit, emit_scalar}
use libcyaml.Save.Emitter.{stream_start, stream_end, document_start, document_end}
use libcyaml.Save.Emitter.{mapping_start, mapping_end, sequence_start, sequence_end}
use libcyaml.Save.Scalar.{write_scalar_value, write_flags_value, write_bitfield_value}
use libcyaml.Save.Stack.{Frame, SaveCtx, on_world, change_top, mark_done, stack_push, stack_pop}

-- "null"
abbrev pub null_text : Bytes
null_text = 110 ∷ 117 ∷ 108 ∷ 108 ∷ []

abbrev pub is_type_sequence : SchemaType → Bool
is_type_sequence SchemaType.sequence = true
is_type_sequence _ = false

abbrev pub is_type_fixed : SchemaType → Bool
is_type_fixed SchemaType.sequence_fixed = true
is_type_fixed _ = false

abbrev pub is_type_ignore : SchemaType → Bool
is_type_ignore SchemaType.ignore = true
is_type_ignore _ = false

module _ {W : Type 0} (s : Saver W) where
  -- The `switch` of `cyaml__write_value`, on a value that is not NULL.
  unfoldable pub write_by_type : SchemaValue → SchemaType → ℕ → ℕ → M (SaveCtx W) (Unit {0})
  unfolding write_scalar_value write_flags_value write_bitfield_value stack_push
  write_by_type schema SchemaType.flags place seq_count =
      on_world (write_flags_value s schema place)
  write_by_type schema SchemaType.mapping place seq_count =
      stack_push s State.in_map_key schema place
  write_by_type schema SchemaType.bitfield place seq_count =
      on_world (write_bitfield_value s schema place)
  write_by_type schema SchemaType.sequence_fixed place seq_count =
      if schema.sequence.min == schema.sequence.max
      then (do
        stack_push s State.in_sequence schema place
        change_top λ f. record f { count = seq_count })
      else raise sequence_fixed_count
  write_by_type schema SchemaType.sequence place seq_count = do
    stack_push s State.in_sequence schema place
    change_top λ f. record f { count = seq_count }
  write_by_type schema SchemaType.ignore place seq_count = raise bad_type_in_schema
  write_by_type schema SchemaType.unknown place seq_count = raise bad_type_in_schema
  write_by_type schema t place seq_count = on_world (write_scalar_value s schema t place)

  -- The branch of `cyaml__write_value` for NULL.
  unfoldable pub write_null : SchemaValue → M W (Unit {0})
  unfolding emit_scalar flag_check_all
  write_null schema =
      if flag_check_all schema.flags Flag.pointer_null_str
      then emit_scalar s schema null_text str_tag
      else if flag_check_all schema.flags Flag.pointer_null
      then emit_scalar s schema [] str_tag
      else raise invalid_value

  -- `cyaml__write_value`
  unfoldable pub write_value : SchemaValue → ℕ → ℕ → M (SaveCtx W) (Unit {0})
  unfolding write_null write_by_type data_save_handle_pointer
  write_value schema data_in seq_count =
      let place = data_save_handle_pointer s.host schema data_in s.memory in
      if place == 0
      then on_world (write_null schema)
      else write_by_type schema schema.type place seq_count

  -- `cyaml__write_start`
  unfoldable pub write_start : Frame → M (SaveCtx W) (Unit {0})
  unfolding stack_push
  write_start top = stack_push s State.in_stream top.schema top.data_at

  -- `cyaml__write_stream`; `CYAML_STATE_IN_STREAM` is 1.
  unfoldable pub write_stream : Frame → M (SaveCtx W) (Unit {0})
  unfolding stack_push stack_pop mark_done
  write_stream top =
      if top.handled
      then stack_pop s true
      else (do mark_done 1; stack_push s State.in_doc top.schema top.data_at)

  -- `cyaml__write_doc`; `CYAML_STATE_IN_DOC` is 2.
  unfoldable pub write_doc : Frame → M (SaveCtx W) (Unit {0})
  unfolding stack_pop mark_done write_value
  write_doc top = if top.handled then stack_pop s true else (do
    seq_count ←
        gets λ c. if is_type_fixed top.schema.type then top.schema.sequence.max else c.seq_count
    mark_done 2
    write_value top.schema top.data_at seq_count)

  -- `ctx->state->mapping.field++`
  abbrev pub next_field : List Field → M (SaveCtx W) (Unit {0})
  next_field rest = change_top λ f. record f { fields = rest }

  -- The count of the entries of a field's sequence.
  abbrev pub field_count : Field → ℕ → SchemaValue → SchemaType → Result ℕ
  field_count field place value SchemaType.sequence =
      data_read s.host field.count_size (place + field.count_offset) s.memory
  field_count field place value SchemaType.sequence_fixed = ok value.sequence.min
  field_count field place value _ = ok 0

  -- An optional pointer that is NULL.
  abbrev pub is_left_out : Field → ℕ → SchemaValue → Bool
  is_left_out field place value =
      has_flag value.flags Flag.optional
      && has_flag value.flags Flag.pointer
      && (data_read_pointer s.host (place + field.data_offset) s.memory == 0)

  -- `cyaml__write_mapping`, by the fields that are left.
  unfoldable pub write_mapping : Frame → List Field → M (SaveCtx W) (Unit {0})
  unfolding stack_pop emit_scalar write_value
  write_mapping top [] = stack_pop s true
  write_mapping top (field ∷ rest) =
      let value = s.schemas field.value in
      let place = top.data_at in
      if is_type_ignore value.type
      then next_field rest
      else if is_left_out field place value
      then next_field rest
      else do
        on_world (emit_scalar s top.schema field.key str_tag)
        next_field rest
        seq_count ← lift (field_count field place value value.type)
        write_value value (place + field.data_offset) seq_count

  -- The bytes from one entry to the next.
  abbrev pub entry_size : SchemaValue → ℕ
  entry_size value =
      if has_flag value.flags Flag.pointer
      then 8
      else if is_type_fixed value.type
      then value.data_size * value.sequence.max % 2 ^ 64
      else value.data_size

  -- `cyaml__write_sequence`
  unfoldable pub write_sequence : Frame → M (SaveCtx W) (Unit {0})
  unfolding stack_pop write_value
  write_sequence top =
      let value = s.schemas top.schema.sequence.entry in
      let seq_count : ℕ = if is_type_fixed value.type then value.sequence.max else 0 in
      let offset = entry_size value * top.entry % 2 ^ 64 in
      if not (ltb top.entry top.count)
      then stack_pop s true
      else if is_type_sequence value.type
      then raise sequence_in_sequence
      else do
        change_top λ f. record f { entry = top.entry + 1 }
        write_value value (top.data_at + offset) seq_count

  -- The table of functions of `cyaml__save`.
  unfoldable pub handle : Frame → State → M (SaveCtx W) (Unit {0})
  unfolding write_start write_stream write_doc write_mapping write_sequence
  handle top State.start = write_start top
  handle top State.in_stream = write_stream top
  handle top State.in_doc = write_doc top
  handle top State.in_map_key = write_mapping top top.fields
  handle top State.in_map_value = write_mapping top top.fields
  handle top State.in_sequence = write_sequence top
  handle top State.invalid = undefined

  -- One round of the loop.
  unfoldable pub step : M (SaveCtx W) (Unit {0})
  unfolding handle
  step c = elim c.stack [ [] ↦ fault | top ∷ rest ↦ handle top top.state c ]

  -- The loop of `cyaml__save` on fuel: whether it came to its end.
  unfoldable pub run : ℕ → M (SaveCtx W) Bool
  unfolding step
  run zero = return false
  run (suc fuel) = step >>= λ u c. if ltb 1 (length c.stack) then run fuel c else done true c

  -- What follows the loop: the first state is popped and the emitter flushed.
  unfoldable pub finish : M (SaveCtx W) (Unit {0})
  unfolding stack_pop
  finish = do
    stack_pop s true
    on_world λ w.
        let (flushed, w') = s.emitter_flush w in
        if flushed then done tt w' else failed libyaml_emitter w'

  abbrev pub empty_ctx : ℕ → W → SaveCtx W
  empty_ctx seq_count w = record { stack = []; stack_max = 0; seq_count = seq_count; world = w }

  -- The end of a context, at the label `out`: the stack is emptied without events, and freed.
  abbrev pub out : {A : Type 0} → Outcome (SaveCtx W) A → Outcome W A
  out (done a c) = done a c.world
  out (failed e c) = failed e c.world
  out fault = fault

  -- The body of `cyaml__save`; whether the fuel was enough.
  unfoldable pub save_body : ℕ → SchemaValue → ℕ → M (SaveCtx W) Bool
  unfolding stack_push run finish
  save_body fuel schema data_at = do
    stack_push s State.start schema data_at
    ended ← run fuel
    (if ended then finish else return tt)
    return ended

  -- `cyaml__save`, where `data_at` is the address of its parameter `data`.
  unfoldable pub save : ℕ → SchemaValue → ℕ → ℕ → M W Bool
  unfolding validate_save_params save_body
  save fuel schema data_at seq_count w =
      let given = not (data_read_pointer s.host data_at s.memory == 0) in
      elim (validate_save_params (some true) (some schema) given seq_count) [
        | fail e ↦ failed e w
        | ok u ↦ out (save_body fuel schema data_at (empty_ctx seq_count w))
      ]
