-- ===== src/Copy/Stack.antt =====
-- src/copy.c, the stack of states, and the allocation of the values that are copied.
--
-- The stack is a list with its top first: `ctx->state` is its head and `ctx->stack_idx` its length. A
-- frame has the members of all structures of the source's union; `mapping.field` is an index of the
-- schema's fields, and the members `data` and `c`, that nothing reads, are left out. An assertion that
-- fails, an access out of range, and a string without its terminator, are a fault. The variables
-- `data`, `copy` and `ctx.seq_count` of `cyaml_copy` lie in the memory, at the addresses that a
-- `Copier` has for them.
use libcyaml.Base.{ℕ, zero, suc, ◌+◌, ◌*◌, ◌%◌, ◌^◌, Bool, Option, none, some}
use libcyaml.Base.{List, [], ◌∷◌, length, get_elem?, replicate, ltb, ◌==◌, if◌then◌else◌}
use libcyaml.Errors.{oom, bad_param_null_data, sequence_fixed_count, sequence_in_sequence}
use libcyaml.Outcome.{done, failed, fault, M, ◌>>=◌, ◌>>◌, return, raise, undefined, gets, modify}
use libcyaml.Schema.{SchemaType, SchemaValue, SchemaRef}
use libcyaml.Schema.Flag
use libcyaml.Memory.{Memory, Host, write_bytes}
use libcyaml.Data.{data_write_pointer, data_save_handle_pointer}
use libcyaml.Strings.{State, has_flag}
use libcyaml.Save.Scalar.{c_string}

-- `cyaml_state_t` of src/copy.c
pub record Frame : Type 0 where
  pub state : State
  pub schema : SchemaValue
  pub field : ℕ
  pub count_data : ℕ
  pub count_size : ℕ
  pub entry : ℕ
  pub count : ℕ
  pub data_at : ℕ
  pub copy_at : ℕ

-- `cyaml_ctx_t` of src/copy.c, with the client's memory and the state of its allocator.
pub record CopyCtx (H : Type 0) : Type 0 where
  pub stack : List Frame
  pub stack_max : ℕ
  pub memory : Memory
  pub heap : H

-- What copying is given and only reads. `realloc` is the client's allocator for the stack of states,
-- whose content the model keeps apart; `allocate` is the same allocator for a new block of a number of
-- bytes, and answers with its address.
pub record Copier (H : Type 0) : Type 0 where
  pub host : Host
  pub schemas : SchemaRef → SchemaValue
  pub realloc : H → ℕ → Bool × H
  pub allocate : H → ℕ → Option ℕ × H
  pub data_variable : ℕ
  pub copy_variable : ℕ
  pub count_variable : ℕ

-- `sizeof(cyaml_state_t)`, with 8-byte pointers.
abbrev pub frame_size : ℕ
frame_size = 72

-- The frame of `cyaml__stack_push` before its `switch`, with the first field of a mapping.
abbrev pub new_frame : State → SchemaValue → ℕ → ℕ → Frame
new_frame state schema origin copy = record {
  state = state;
  schema = schema;
  field = 0;
  count_data = 0;
  count_size = 0;
  entry = 0;
  count = 0;
  data_at = origin;
  copy_at = copy;
}

module _ {H : Type 0} where
  -- `ctx->state`, and a change of it.
  abbrev pub top_state : M (CopyCtx H) Frame
  top_state c = elim c.stack [ [] ↦ fault | top ∷ rest ↦ done top c ]

  abbrev pub change_top : (Frame → Frame) → M (CopyCtx H) (Unit {0})
  change_top f c = elim c.stack [
    | [] ↦ fault
    | top ∷ rest ↦ done tt (record c { stack = f top ∷ rest })
  ]

  abbrev pub push_frame : Frame → M (CopyCtx H) (Unit {0})
  push_frame f = modify λ c. record c { stack = f ∷ c.stack }

  abbrev pub change_memory : (Memory → Memory) → M (CopyCtx H) (Unit {0})
  change_memory f = modify λ c. record c { memory = f c.memory }

  -- `cyaml__stack_pop`
  unfoldable pub stack_pop : M (CopyCtx H) (Unit {0})
  stack_pop c = elim c.stack [ [] ↦ fault | top ∷ rest ↦ done tt (record c { stack = rest }) ]

-- An access that C leaves undefined where there is no value.
abbrev pub defined {ℓ} : {S : Type ℓ} {A : Type 0} → Option A → M S A
defined none = undefined
defined (some a) = return a

module _ {H : Type 0} (l : Copier H) where
  -- `cyaml__stack_ensure`
  unfoldable pub stack_ensure : M (CopyCtx H) (Unit {0})
  stack_ensure c =
      let max = (c.stack_max + 16) % 2 ^ 32 in
      let (got, h) = l.realloc c.heap (frame_size * max) in
      if ltb (length c.stack) c.stack_max
      then done tt c
      else if got
      then done tt (record c { stack_max = max; heap = h })
      else failed oom (record c { heap = h })

  -- The place of the count of a sequence, and its size, by the state that the sequence is in.
  unfoldable pub count_place : Frame → State → M (CopyCtx H) (ℕ × ℕ)
  count_place top State.in_sequence = raise sequence_in_sequence
  count_place top State.in_map_key = elim top.field [
    | zero ↦ undefined
    | suc i ↦ defined (get_elem? top.schema.mapping.fields i) >>= λ field.
        return (top.copy_at + field.count_offset, field.count_size)
  ]
  count_place top State.start = return (l.count_variable, 4)
  count_place top _ = undefined

  -- The second case of the `switch` of `cyaml__stack_push`, by the type of the schema.
  unfoldable pub push_sequence : SchemaValue → SchemaType → ℕ → ℕ → M (CopyCtx H) (Unit {0})
  unfolding count_place
  push_sequence schema SchemaType.sequence_fixed origin copy =
      if schema.sequence.min == schema.sequence.max
      then push_frame (new_frame State.in_sequence schema origin copy)
      else raise sequence_fixed_count
  push_sequence schema SchemaType.sequence origin copy = do
    top ← top_state
    at ← count_place top top.state
    push_frame (record (new_frame State.in_sequence schema origin copy) {
      count_data = at.0;
      count_size = at.1;
    })
  push_sequence schema t origin copy = undefined

  -- `cyaml__stack_push`
  unfoldable pub stack_push : State → SchemaValue → ℕ → ℕ → M (CopyCtx H) (Unit {0})
  unfolding stack_ensure push_sequence
  stack_push State.in_sequence schema origin copy = do
    stack_ensure
    push_sequence schema schema.type origin copy
  stack_push state schema origin copy = do
    stack_ensure
    push_frame (new_frame state schema origin copy)

  -- The size of the block that `cyaml__data_handle_pointer` asks for.
  unfoldable pub block_size : SchemaValue → SchemaType → ℕ → M (CopyCtx H) ℕ
  unfolding c_string
  block_size schema SchemaType.string origin = do
    text ← gets λ c. c_string (2 ^ 64) origin c.memory
    bytes ← defined text
    return (length bytes + 1)
  block_size schema SchemaType.sequence origin = do
    top ← top_state
    return (schema.data_size * top.count % 2 ^ 64)
  block_size schema SchemaType.sequence_fixed origin =
      return (schema.data_size * schema.sequence.max % 2 ^ 64)
  block_size schema t origin = return schema.data_size

  -- `cyaml__alloc` of a number of bytes, with zeros.
  unfoldable pub alloc : ℕ → M (CopyCtx H) ℕ
  unfolding write_bytes
  alloc size c =
      let (p, h) = l.allocate c.heap size in
      elim p [
        | none ↦ failed oom (record c { heap = h })
        | some a ↦
            done a (record c { memory = write_bytes a (replicate size 0) c.memory; heap = h })
      ]

  -- `cyaml__data_handle_pointer`: where the value is to be read from, and where to be written.
  unfoldable pub data_handle_pointer : SchemaValue → ℕ → ℕ → M (CopyCtx H) (ℕ × ℕ)
  unfolding data_save_handle_pointer data_write_pointer block_size alloc
  data_handle_pointer schema data_in copy = do
    origin ← gets λ c. data_save_handle_pointer l.host schema data_in c.memory
    (if has_flag schema.flags Flag.pointer
        then (if origin == 0 then raise bad_param_null_data else do
          size ← block_size schema schema.type origin
          block ← alloc size
          change_memory (data_write_pointer l.host block copy)
          return (origin, block))
        else return (origin, copy))
