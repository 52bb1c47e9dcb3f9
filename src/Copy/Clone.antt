-- ===== src/Copy/Clone.antt =====
-- src/copy.c, the copy of one value: of a scalar its bytes, of a collection a state on the stack.
use libcyaml.Base.{ℕ, ◌^◌}
use libcyaml.Base.{[], ◌∷◌, ◌++◌, if◌then◌else◌}
use libcyaml.Errors.{ok, fail, bad_type_in_schema}
use libcyaml.Outcome.{done, fault, M, ◌>>=◌, ◌>>◌, return, raise, undefined, gets}
use libcyaml.Schema.{SchemaType, SchemaValue}
use libcyaml.Memory.{write_bytes, read_bytes}
use libcyaml.Data.{data_write}
use libcyaml.Strings.{State}
use libcyaml.Params.{is_sequence, is_any_sequence}
use libcyaml.Save.Scalar.{c_string}
use libcyaml.Copy.Stack.{CopyCtx, Copier, top_state, change_top, change_memory, defined}
use libcyaml.Copy.Stack.{stack_push, data_handle_pointer}

module _ {H : Type 0} where
  -- `cyaml__clone_number`
  unfoldable pub clone_number : SchemaValue → ℕ → ℕ → M (CopyCtx H) (Unit {0})
  unfolding write_bytes read_bytes
  clone_number schema origin copy =
      change_memory λ m. write_bytes copy (read_bytes origin schema.data_size m) m

  -- `cyaml__clone_string`
  unfoldable pub clone_string : ℕ → ℕ → M (CopyCtx H) (Unit {0})
  unfolding c_string write_bytes
  clone_string origin copy = do
    text ← gets λ c. c_string (2 ^ 64) origin c.memory
    bytes ← defined text
    change_memory (write_bytes copy (bytes ++ (0 ∷ [])))

module _ {H : Type 0} (l : Copier H) where
  -- `cyaml__write_sequence_count`, with its assertion.
  unfoldable pub write_sequence_count : SchemaValue → ℕ → M (CopyCtx H) (Unit {0})
  unfolding data_write
  write_sequence_count schema seq_count =
      if is_sequence schema.type
      then (top_state >>= λ top c.
          elim (data_write l.host seq_count top.count_size top.count_data c.memory) [
            | fail e ↦ fault
            | ok m ↦ done tt (record c { memory = m })
          ])
      else return tt

  -- The case of sequences in `cyaml__clone_value`.
  unfoldable pub clone_sequence_value : SchemaValue → ℕ → ℕ → ℕ → M (CopyCtx H) (Unit {0})
  unfolding stack_push data_handle_pointer write_sequence_count
  clone_sequence_value schema data_in seq_count copy_in = do
    stack_push l State.in_sequence schema data_in copy_in
    change_top λ f. record f { count = seq_count }
    at ← data_handle_pointer l schema data_in copy_in
    write_sequence_count schema seq_count
    change_top λ f. record f { data_at = at.0; copy_at = at.1 }

  -- The `switch` of `cyaml__clone_value`, but for sequences.
  unfoldable pub clone_by_type : SchemaValue → SchemaType → ℕ → ℕ → M (CopyCtx H) (Unit {0})
  unfolding clone_number clone_string stack_push
  clone_by_type schema SchemaType.string origin copy = clone_string origin copy
  clone_by_type schema SchemaType.mapping origin copy =
      stack_push l State.in_map_key schema origin copy
  clone_by_type schema SchemaType.sequence origin copy = undefined
  clone_by_type schema SchemaType.sequence_fixed origin copy = undefined
  clone_by_type schema SchemaType.ignore origin copy = raise bad_type_in_schema
  clone_by_type schema SchemaType.unknown origin copy = raise bad_type_in_schema
  clone_by_type schema t origin copy = clone_number schema origin copy

  -- `cyaml__clone_value`
  unfoldable pub clone_value : SchemaValue → ℕ → ℕ → ℕ → M (CopyCtx H) (Unit {0})
  unfolding data_handle_pointer clone_by_type clone_sequence_value
  clone_value schema origin seq_count copy =
      if is_any_sequence schema.type then clone_sequence_value schema origin seq_count copy else do
        at ← data_handle_pointer l schema origin copy
        clone_by_type schema schema.type at.0 at.1
