-- ===== src/Save/Stack.antt =====
-- src/save.c, the stack of states, and the events that pushing and popping a state emits.
--
-- The stack is a list with its top first: `ctx->state` is its head, `ctx->stack_idx` its length, and
-- entry `k` of the array stands at `stack_idx - 1 - k`. A frame has the members of both structures of
-- the source's union; `mapping.field` is the list of the fields from it on. The assertion that the
-- stack is not empty is a fault here.
use libcyaml.Base.{ℕ, ◌+◌, ◌-◌, ◌*◌, ◌%◌, ◌^◌, Bool, true, false, not}
use libcyaml.Base.{List, [], ◌∷◌, length, get_elem?, set, none, some, ltb, if◌then◌else◌}
use libcyaml.Errors.{oom, internal_error}
use libcyaml.Outcome.{done, failed, fault, M, ◌>>◌, return, raise}
use libcyaml.Outcome.{modify}
use libcyaml.Schema.{SchemaValue, Field}
use libcyaml.Strings.{State}
use libcyaml.Save.Style.{get_emit_style_map, get_emit_style_seq, emit_doc_delim}
use libcyaml.Save.Emitter.{Saver, emit}
use libcyaml.Save.Emitter.{stream_start, stream_end, document_start, document_end}
use libcyaml.Save.Emitter.{mapping_start, mapping_end, sequence_start, sequence_end}

-- `cyaml_state_t` of src/save.c
pub record Frame : Type 0 where
  pub state : State
  pub schema : SchemaValue
  pub fields : List Field
  pub entry : ℕ
  pub count : ℕ
  pub data_at : ℕ
  pub handled : Bool

-- `cyaml_ctx_t` of src/save.c, with the state `world` of the emitter and the allocator.
pub record SaveCtx (W : Type 0) : Type 0 where
  pub stack : List Frame
  pub stack_max : ℕ
  pub seq_count : ℕ
  pub world : W

-- `sizeof(cyaml_state_t)`, with 8-byte pointers.
abbrev pub frame_size : ℕ
frame_size = 48

-- The frame of a value that is about to be written.
abbrev pub new_frame : State → SchemaValue → ℕ → Frame
new_frame state schema place = record {
  state = state;
  schema = schema;
  fields = elim state [ State.in_map_key ↦ schema.mapping.fields | _ ↦ [] ];
  entry = 0;
  count = 0;
  data_at = place;
  handled = false;
}

module _ {W : Type 0} where
  -- A function of the world within the context.
  abbrev pub on_world {κ} : {A : Type κ} → M W A → M (SaveCtx W) A
  on_world m c = elim (m c.world) [
    | done a w ↦ done a (record c { world = w })
    | failed e w ↦ failed e (record c { world = w })
    | fault ↦ fault
  ]

  -- The top frame changes.
  abbrev pub change_top : (Frame → Frame) → M (SaveCtx W) (Unit {0})
  change_top f c = elim c.stack [
    | [] ↦ fault
    | top ∷ rest ↦ done tt (record c { stack = f top ∷ rest })
  ]

  -- `ctx->stack[k].done = true`
  unfoldable pub mark_done : ℕ → M (SaveCtx W) (Unit {0})
  mark_done k c =
      let i = length c.stack - 1 - k in
      if ltb k (length c.stack)
      then elim (get_elem? c.stack i) [
        | none ↦ fault
        | some f ↦ done tt (record c { stack = set c.stack i (record f { handled = true }) })
      ]
      else fault

module _ {W : Type 0} (s : Saver W) where
  -- `cyaml__stack_ensure`
  unfoldable pub stack_ensure : M (SaveCtx W) (Unit {0})
  stack_ensure c =
      let max = (c.stack_max + 16) % 2 ^ 32 in
      let (got, w) = s.realloc (frame_size * max) c.world in
      if ltb (length c.stack) c.stack_max
      then done tt c
      else if got
      then done tt (record c { stack_max = max; world = w })
      else failed oom (record c { world = w })

  -- `cyaml__stack_push_write_event`
  unfoldable pub push_write_event : State → SchemaValue → M W (Unit {0})
  unfolding emit emit_doc_delim get_emit_style_map get_emit_style_seq
  push_write_event State.start schema = emit s stream_start
  push_write_event State.in_stream schema = emit s (document_start (not (emit_doc_delim s.config)))
  push_write_event State.in_doc schema = return tt
  push_write_event State.in_map_key schema =
      emit s (mapping_start (get_emit_style_map s.config schema))
  push_write_event State.in_sequence schema =
      emit s (sequence_start (get_emit_style_seq s.config schema))
  push_write_event _ schema = raise internal_error

  -- `cyaml__stack_push`
  unfoldable pub stack_push : State → SchemaValue → ℕ → M (SaveCtx W) (Unit {0})
  unfolding stack_ensure push_write_event
  stack_push state schema place = do
    on_world (push_write_event state schema)
    stack_ensure
    modify λ c. record c { stack = new_frame state schema place ∷ c.stack }

  -- `cyaml__stack_pop_write_event`
  unfoldable pub pop_write_event : State → M W (Unit {0})
  unfolding emit emit_doc_delim
  pop_write_event State.start = return tt
  pop_write_event State.in_stream = emit s stream_end
  pop_write_event State.in_doc = emit s (document_end (not (emit_doc_delim s.config)))
  pop_write_event State.in_map_key = emit s mapping_end
  pop_write_event State.in_sequence = emit s sequence_end
  pop_write_event _ = raise internal_error

  -- `cyaml__stack_pop`
  unfoldable pub stack_pop : Bool → M (SaveCtx W) (Unit {0})
  unfolding pop_write_event
  stack_pop emitting c = elim c.stack [
    | [] ↦ fault
    | top ∷ rest ↦
        (do
          (if emitting then on_world (pop_write_event top.state) else return tt)
          modify λ c. record c { stack = rest })
          c
  ]
