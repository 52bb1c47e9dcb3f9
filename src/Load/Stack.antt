-- ===== src/Load/Stack.antt =====
-- src/load.c, the stack of states, and the allocation of the values that are loaded.
--
-- The stack is a list with its top first: `ctx->state` is its head and `ctx->stack_idx` its length. A
-- frame has the members of all structures of the source's union; its `mapping.fields` are those of its
-- schema. Lines and columns, which only log messages read, are left out. An assertion that fails, and
-- an access out of range, is a fault. What loading is given and only reads is the record `Loader`. The
-- variables `data` and `ctx.seq_count` of `cyaml__load` lie in the memory, at the addresses that it
-- has; what is freed is not told to the allocator's state.
use libcyaml.Base.{ℕ, ◌+◌, ◌*◌, ◌%◌, ◌^◌, Bool, ◌++◌, Option, none, some}
use libcyaml.Base.{List, [], ◌∷◌, length, get_elem?, replicate, ltb, ◌==◌, if◌then◌else◌}
use libcyaml.Errors.{ok, fail, oom, sequence_fixed_count, sequence_in_sequence}
use libcyaml.Outcome.{done, failed, fault, M, ◌>>=◌, ◌>>◌, return, raise, undefined}
use libcyaml.Outcome.{modify}
use libcyaml.Schema.{Bytes, SchemaType, SchemaValue, SchemaRef, Config}
use libcyaml.Schema.Flag
use libcyaml.Memory.{Memory, Host, read_bytes, write_bytes}
use libcyaml.Data.{data_write_pointer}
use libcyaml.Strings.{State, has_flag}
use libcyaml.Number.{Conversion}
use libcyaml.Params.{is_any_sequence}
use libcyaml.Load.Store.{FloatUnit}
use libcyaml.Load.Fields.{mapping_bitfield_create}
use libcyaml.Load.Events.{Event}
use libcyaml.Load.Values.{Loading}

-- `cyaml_state_t` of src/load.c
pub record Frame : Type 0 where
  pub state : State
  pub schema : SchemaValue
  pub data_at : ℕ
  pub doc_count : ℕ
  pub fields_set : List ℕ
  pub fields_idx : ℕ
  pub seq_data : ℕ
  pub count_data : ℕ
  pub count_size : ℕ
  pub count : ℕ

-- `cyaml_ctx_t` of src/load.c, with the client's memory.
pub record LoadCtx (P H : Type 0) : Type 0 where
  pub loading : Loading P H
  pub stack : List Frame
  pub stack_max : ℕ

-- `resize` is the client's allocator: it is asked to make a block (0 for a new one) of a number of
-- bytes, and answers with its address. The members of `copy_` are for the calls of
-- `cyaml_copy`: the rounds of its loop, and the addresses of the place that it is given and of its own
-- variables `data`, `copy` and `ctx.seq_count`.
pub record Loader (P H : Type 0) : Type 0 where
  pub config : Config
  pub host : Host
  pub fpu : FloatUnit
  pub strtod : Bytes → Option (Conversion ℕ)
  pub schemas : SchemaRef → SchemaValue
  pub parse : P → Option (Event × P)
  pub event_size : ℕ
  pub realloc : H → ℕ → Bool × H
  pub resize : H → ℕ → ℕ → Option ℕ × H
  pub copy_fuel : ℕ
  pub copy_place : ℕ
  pub copy_data : ℕ
  pub copy_variable : ℕ
  pub copy_count : ℕ
  pub variable : ℕ
  pub count_variable : ℕ

-- `sizeof(cyaml_state_t)`, with 8-byte pointers.
abbrev pub frame_size : ℕ
frame_size = 64

-- The frame of `cyaml__stack_push` before its `switch`.
abbrev pub new_frame : State → SchemaValue → ℕ → Frame
new_frame state schema place = record {
  state = state;
  schema = schema;
  data_at = place;
  doc_count = 0;
  fields_set = [];
  fields_idx = 0;
  seq_data = 0;
  count_data = 0;
  count_size = 0;
  count = 0;
}

module _ {P H : Type 0} where
  -- A function of the event context and the memory, one of the memory, and one of the memory and the
  -- allocator's state, within the whole context.
  abbrev pub on_loading {κ} : {A : Type κ} → M (Loading P H) A → M (LoadCtx P H) A
  on_loading m c = elim (m c.loading) [
    | done a s ↦ done a (record c { loading = s })
    | failed e s ↦ failed e (record c { loading = s })
    | fault ↦ fault
  ]

  abbrev pub with_heap : LoadCtx P H → Memory → H → LoadCtx P H
  with_heap c m h = record c {
    loading = record c.loading { context = record c.loading.context { heap = h }; memory = m };
  }

  abbrev pub on_heap {κ} : {A : Type κ} → M (Memory × H) A → M (LoadCtx P H) A
  on_heap m c = elim (m (c.loading.memory, c.loading.context.heap)) [
    | done a s ↦ done a (with_heap c s.0 s.1)
    | failed e s ↦ failed e (with_heap c s.0 s.1)
    | fault ↦ fault
  ]

  abbrev pub on_memory {κ} : {A : Type κ} → M Memory A → M (LoadCtx P H) A
  on_memory m c = elim (m c.loading.memory) [
    | done a s ↦ done a (with_heap c s c.loading.context.heap)
    | failed e s ↦ failed e (with_heap c s c.loading.context.heap)
    | fault ↦ fault
  ]

  -- `ctx->state`, and a change of it.
  abbrev pub top_state : M (LoadCtx P H) Frame
  top_state c = elim c.stack [ [] ↦ fault | top ∷ rest ↦ done top c ]

  abbrev pub change_top : (Frame → Frame) → M (LoadCtx P H) (Unit {0})
  change_top f c = elim c.stack [
    | [] ↦ fault
    | top ∷ rest ↦ done tt (record c { stack = f top ∷ rest })
  ]

  abbrev pub push_frame : Frame → M (LoadCtx P H) (Unit {0})
  push_frame f = modify λ c. record c { stack = f ∷ c.stack }

  -- `cyaml__stack_pop`
  unfoldable pub stack_pop : M (LoadCtx P H) (Unit {0})
  stack_pop c = elim c.stack [ [] ↦ fault | top ∷ rest ↦ done tt (record c { stack = rest }) ]

-- `cyaml__get_mapping_field_count`, a `uint16_t`.
abbrev pub mapping_field_count : SchemaValue → ℕ
mapping_field_count schema = length schema.mapping.fields % 2 ^ 16

module _ {P H : Type 0} (l : Loader P H) where
  -- `cyaml__stack_ensure`
  unfoldable pub stack_ensure : M (LoadCtx P H) (Unit {0})
  stack_ensure c =
      let max = (c.stack_max + 16) % 2 ^ 32 in
      let (got, h) = l.realloc c.loading.context.heap (frame_size * max) in
      let asked = with_heap c c.loading.memory h in
      if ltb (length c.stack) c.stack_max
      then done tt c
      else if got
      then done tt (record asked { stack_max = max })
      else failed oom asked

  -- `cyaml__mapping_bitfieid_create`, on the allocator's state of the context.
  unfoldable pub create_fields_set : ℕ → M (LoadCtx P H) (List ℕ)
  unfolding mapping_bitfield_create
  create_fields_set count c =
      let (r, h) = mapping_bitfield_create l.realloc count c.loading.context.heap in
      let asked = with_heap c c.loading.memory h in
      elim r [ ok words ↦ done words asked | fail e ↦ failed e asked ]

  -- The place of the count of a sequence, and its size, by the state that the sequence is in.
  unfoldable pub count_place : Frame → State → M (LoadCtx P H) (ℕ × ℕ)
  count_place top State.in_sequence = raise sequence_in_sequence
  count_place top State.in_map_key = elim (get_elem? top.schema.mapping.fields top.fields_idx) [
    | none ↦ undefined
    | some field ↦ return (top.data_at + field.count_offset, field.count_size)
  ]
  count_place top State.in_doc = return (l.count_variable, 4)
  count_place top _ = undefined

  -- The second case of the `switch` of `cyaml__stack_push`, by the type of the schema.
  unfoldable pub push_sequence : SchemaValue → SchemaType → ℕ → M (LoadCtx P H) (Unit {0})
  unfolding count_place
  push_sequence schema SchemaType.sequence_fixed place =
      if schema.sequence.min == schema.sequence.max
      then push_frame (new_frame State.in_sequence schema place)
      else raise sequence_fixed_count
  push_sequence schema SchemaType.sequence place = do
    top ← top_state
    at ← count_place top top.state
    push_frame
        (record (new_frame State.in_sequence schema place) { count_data = at.0; count_size = at.1 })
  push_sequence schema t place = undefined

  -- `cyaml__stack_push`
  unfoldable pub stack_push : State → SchemaValue → ℕ → M (LoadCtx P H) (Unit {0})
  unfolding stack_ensure create_fields_set push_sequence
  stack_push State.in_map_key schema place = do
    stack_ensure
    words ← create_fields_set (mapping_field_count schema)
    push_frame (record (new_frame State.in_map_key schema place) { fields_set = words })
  stack_push State.in_sequence schema place = do
    stack_ensure
    push_sequence schema schema.type place
  stack_push state schema place = do stack_ensure; push_frame (new_frame state schema place)

  -- The call of `cyaml__realloc` in `cyaml__data_handle_pointer`, and what follows it: the block at
  -- `ptr` of `offset` bytes grows by `delta` bytes of zeros, and its address is stored.
  unfoldable pub extend : SchemaType → ℕ → ℕ → ℕ → ℕ → M (LoadCtx P H) ℕ
  unfolding data_write_pointer read_bytes write_bytes
  extend type ptr offset delta place c =
      let (p, h) = l.resize c.loading.context.heap ptr ((offset + delta) % 2 ^ 64) in
      elim p [
        | none ↦ failed oom (with_heap c c.loading.memory h)
        | some value_data ↦
            let m = c.loading.memory in
            let bytes = read_bytes ptr offset m ++ replicate delta 0 in
            let m' = data_write_pointer l.host value_data place (write_bytes value_data bytes m) in
            ((if is_any_sequence type
                  then change_top (λ f. record f { seq_data = value_data })
                  else return tt)
                >> return value_data)
              (with_heap c m' h)
      ]

  -- The `switch` of `cyaml__data_handle_pointer`.
  unfoldable pub allocate_value : SchemaValue → SchemaType → Bytes → ℕ → M (LoadCtx P H) ℕ
  unfolding extend
  allocate_value schema SchemaType.string text place =
      extend SchemaType.string 0 0 (length text + 1) place
  allocate_value schema SchemaType.sequence text place = do
    top ← top_state
    extend SchemaType.sequence top.seq_data (schema.data_size * top.count % 2 ^ 64) schema.data_size
        place
  allocate_value schema SchemaType.sequence_fixed text place = do
    top ← top_state
    (if ltb 0 top.count
        then return top.seq_data
        else extend SchemaType.sequence_fixed 0 0 (schema.data_size * schema.sequence.max % 2 ^ 64)
            place)
  allocate_value schema t text place = extend t 0 0 schema.data_size place

  -- `cyaml__data_handle_pointer`, on the text of the event: where the value is to be written.
  unfoldable pub data_handle_pointer : SchemaValue → Bytes → ℕ → M (LoadCtx P H) ℕ
  unfolding allocate_value
  data_handle_pointer schema text place =
      if has_flag schema.flags Flag.pointer
      then allocate_value schema schema.type text place
      else return place
