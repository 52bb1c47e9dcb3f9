-- ===== src/Copy/Machine.antt =====
-- src/copy.c, the state machine: the top state of the stack is handled until only the first is left.
-- Backtraces are log messages and left out. The Boolean that the loop returns is whether its fuel was
-- enough for it to come to its end.
use libcyaml.Base.{ℕ, zero, suc, ◌+◌, ◌*◌, ◌%◌, ◌^◌, Bool, true, false, none, some}
use libcyaml.Base.{length, get_elem?, ltb, if◌then◌else◌}
use libcyaml.Errors.{Err, Result, ok, bad_param_null_data}
use libcyaml.Errors.{mapping_field_missing}
use libcyaml.Outcome.{done, failed, fault, M, ◌>>=◌, ◌>>◌, return, raise, undefined, gets, lift}
use libcyaml.Schema.{SchemaType, SchemaValue, Field}
use libcyaml.Schema.Flag
use libcyaml.Memory.{Memory, read_bytes, object_value}
use libcyaml.Data.{data_read}
use libcyaml.Strings.{State, has_flag}
use libcyaml.Copy.Stack.{Frame, CopyCtx, Copier, top_state, change_top}
use libcyaml.Copy.Stack.{stack_push, stack_pop}
use libcyaml.Copy.Clone.{clone_value}

-- `uint64_t` and `unsigned` values.
abbrev wide : ℕ → ℕ
wide n = n % 2 ^ 64

-- The count of the entries that are copied for a field, and for an entry.
abbrev pub fixed_count : ℕ → SchemaType → ℕ
fixed_count n SchemaType.sequence_fixed = n
fixed_count n _ = 0

-- The `data_size` of `cyaml__clone_sequence`.
unfoldable pub entry_size : SchemaValue → SchemaType → ℕ → ℕ
entry_size value t seq_count = if has_flag value.flags Flag.pointer then 8 else elim t [
  | SchemaType.sequence_fixed ↦ wide (value.data_size * seq_count)
  | _ ↦ value.data_size
]

module _ {H : Type 0} where
  -- What `cyaml__clone_mapping` makes of an error: a pointer that is NULL is allowed if it is optional.
  unfoldable pub after_error : Bool → Err → M (CopyCtx H) (Unit {0})
  after_error true bad_param_null_data = return tt
  after_error false bad_param_null_data = raise mapping_field_missing
  after_error optional e = raise e

  unfoldable pub unless_null : Bool → M (CopyCtx H) (Unit {0}) → M (CopyCtx H) (Unit {0})
  unfolding after_error
  unless_null optional m c = elim (m c) [
    | done a s ↦ done a s
    | failed e s ↦ after_error optional e s
    | fault ↦ fault
  ]

module _ {H : Type 0} (l : Copier H) where
  -- `ctx->seq_count`
  abbrev pub seq_count_of : CopyCtx H → ℕ
  seq_count_of c = object_value l.host (read_bytes l.count_variable 4 c.memory)

  -- `cyaml__clone_start`
  unfoldable pub clone_start : Frame → M (CopyCtx H) (Unit {0})
  unfolding clone_value read_bytes
  clone_start top = do
    seq_count ← gets seq_count_of
    clone_value l top.schema top.data_at seq_count top.copy_at

  -- The count of the entries of a field's sequence.
  abbrev pub field_count : Field → ℕ → SchemaValue → SchemaType → Memory → Result ℕ
  field_count field origin value SchemaType.sequence m =
      data_read l.host field.count_size (origin + field.count_offset) m
  field_count field origin value t m = ok (fixed_count value.sequence.min t)

  -- The value of a field in `cyaml__clone_mapping`, by its type.
  unfoldable pub clone_field_value :
      Frame → Field → SchemaValue → SchemaType → M (CopyCtx H) (Unit {0})
  unfolding data_read clone_value unless_null
  clone_field_value top field value SchemaType.ignore = return tt
  clone_field_value top field value t = do
    count ← gets λ c. field_count field top.data_at value t c.memory
    seq_count ← lift count
    unless_null (has_flag value.flags Flag.optional) (
        clone_value l value (top.data_at + field.data_offset) seq_count
          (top.copy_at + field.data_offset))

  -- `cyaml__clone_mapping` on a field.
  unfoldable pub clone_field : Frame → Field → M (CopyCtx H) (Unit {0})
  unfolding clone_field_value
  clone_field top field = do
    change_top λ f. record f { field = suc top.field }
    clone_field_value top field (l.schemas field.value) (l.schemas field.value).type

  -- `cyaml__clone_mapping`; the fields end where the key is NULL.
  unfoldable pub clone_mapping : Frame → M (CopyCtx H) (Unit {0})
  unfolding clone_field stack_pop
  clone_mapping top = elim (get_elem? top.schema.mapping.fields top.field) [
    | none ↦ stack_pop
    | some field ↦ clone_field top field
  ]

  -- `cyaml__clone_sequence` on an entry.
  unfoldable pub clone_entry : Frame → SchemaValue → M (CopyCtx H) (Unit {0})
  unfolding entry_size clone_value
  clone_entry top value =
      let seq_count = fixed_count (value.sequence.max % 2 ^ 32) value.type in
      let offset = wide (entry_size value value.type seq_count * top.entry) in
      do
        change_top λ f. record f { entry = wide (top.entry + 1) }
        clone_value l value (top.data_at + offset) seq_count (top.copy_at + offset)

  -- `cyaml__clone_sequence`
  unfoldable pub clone_sequence : Frame → M (CopyCtx H) (Unit {0})
  unfolding clone_entry stack_pop
  clone_sequence top =
      if ltb top.entry top.count
      then clone_entry top (l.schemas top.schema.sequence.entry)
      else stack_pop

  -- The table of `cyaml_copy`; the call of a NULL is undefined.
  unfoldable pub clone_state : Frame → State → M (CopyCtx H) (Unit {0})
  unfolding clone_start clone_mapping clone_sequence
  clone_state top State.start = clone_start top
  clone_state top State.in_map_key = clone_mapping top
  clone_state top State.in_map_value = clone_mapping top
  clone_state top State.in_sequence = clone_sequence top
  clone_state top _ = undefined

  -- The loop of `cyaml_copy`, of at most `n` rounds.
  unfoldable pub run : ℕ → M (CopyCtx H) Bool
  unfolding clone_state
  run zero = return false
  run (suc n) = do
    top ← top_state
    clone_state top top.state
    depth ← gets λ c. length c.stack
    (if ltb 1 depth then run n else return true)

  -- The stack's first state, the loop, and the end of the first state.
  unfoldable pub copy_loop : ℕ → SchemaValue → ℕ → ℕ → M (CopyCtx H) Bool
  unfolding stack_push run stack_pop
  copy_loop n schema origin copy = do
    stack_push l State.start schema origin copy
    ended ← run n
    (if ended then stack_pop else return tt)
    return ended
