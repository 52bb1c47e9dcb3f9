-- ===== src/Copy/Call.antt =====
-- src/copy.c, the call of `cyaml_copy`: its variables, the loop, what it hands to the client, and what it
-- frees; and the call of it that loading makes for the defaults of fields.
use libcyaml.Base.{ℕ, ◌*◌, ◌%◌, ◌^◌, Bool, true, not, Option, none, some}
use libcyaml.Base.{List, [], ◌∷◌, ◌++◌, ◌==◌, if◌then◌else◌}
use libcyaml.Errors.{Result, ok, fail, bad_param_null_data}
use libcyaml.Outcome.{done, failed, fault, M, ◌>>=◌, ◌>>◌, return, raise, gets, lift}
use libcyaml.Schema.{SchemaType, SchemaValue}
use libcyaml.Schema.Flag
use libcyaml.Memory.{Memory, write_bytes, read_bytes, object_bytes}
use libcyaml.Data.{data_write_pointer, data_read_pointer}
use libcyaml.Strings.{has_flag}
use libcyaml.Params.{validate_copy_params}
use libcyaml.Free.{cyaml_free}
use libcyaml.Copy.Stack.{CopyCtx, Copier, change_memory, defined}
use libcyaml.Copy.Stack.{alloc}
use libcyaml.Copy.Machine.{copy_loop, seq_count_of}

-- `uint64_t` and `unsigned` values.
abbrev wide : ℕ → ℕ
wide n = n % 2 ^ 64

-- `cyaml__get_data_len`
unfoldable pub get_data_len : SchemaValue → SchemaValue → SchemaType → ℕ → ℕ
get_data_len schema entry SchemaType.sequence seq_count = wide (entry.data_size * seq_count)
get_data_len schema entry SchemaType.sequence_fixed seq_count =
    wide (entry.data_size * schema.sequence.max)
get_data_len schema entry _ seq_count = schema.data_size

module _ {H : Type 0} (l : Copier H) where
  -- The variables of `cyaml_copy` at its start.
  abbrev pub with_variables : ℕ → ℕ → Memory → Memory
  with_variables origin seq_count m =
      write_bytes l.count_variable (object_bytes l.host 4 seq_count) (
        data_write_pointer l.host 0 l.copy_variable
          (data_write_pointer l.host origin l.data_variable m))

  -- `cyaml_copy` after the check of its parameters: the clone to the address in the client's variable
  -- at `out`, or of a pointer into that variable. The Boolean is whether the fuel was enough.
  unfoldable pub copy_body : ℕ → SchemaValue → ℕ → ℕ → ℕ → M (CopyCtx H) Bool
  unfolding alloc copy_loop get_data_len data_read_pointer data_write_pointer read_bytes write_bytes
  copy_body n schema origin seq_count out =
      let len = get_data_len schema (l.schemas schema.sequence.entry) schema.type seq_count in
      do
        change_memory (with_variables origin seq_count)
        (if has_flag schema.flags Flag.pointer
            then (do
              ended ← copy_loop l n schema l.data_variable l.copy_variable
              copy ← gets λ c. data_read_pointer l.host l.copy_variable c.memory
              (if ended then change_memory (data_write_pointer l.host copy out) else return tt)
              return ended)
            else (do
              copy ← alloc l len
              change_memory (data_write_pointer l.host copy l.copy_variable)
              ended ← copy_loop l n schema origin copy
              target ← gets λ c. data_read_pointer l.host out c.memory
              (if not ended
                  then return tt
                  else if target == 0
                  then raise bad_param_null_data
                  else change_memory λ m. write_bytes target (read_bytes copy len m) m)
              return ended))

  -- `cyaml_copy`, with a configuration that has a memory function.
  unfoldable pub cyaml_copy : ℕ → SchemaValue → ℕ → ℕ → Option ℕ → M (CopyCtx H) Bool
  unfolding validate_copy_params copy_body data_read_pointer
  cyaml_copy n schema origin seq_count data_out = do
    given ← gets λ c. elim data_out as (λ _. Option Bool) [
      | none ↦ none
      | some out ↦ some (not (data_read_pointer l.host out c.memory == 0))
    ]
    lift (validate_copy_params (some true) (some schema) seq_count given)
    out ← defined data_out
    copy_body n schema origin seq_count out

  -- What `cyaml_copy` frees of the data at its end, given whether it ends with an error.
  unfoldable pub freed : ℕ → Bool → SchemaValue → CopyCtx H → Result (Option (List ℕ))
  unfolding cyaml_free data_read_pointer read_bytes
  freed fuel in_error schema c =
      let copy = data_read_pointer l.host l.copy_variable c.memory in
      let block = if has_flag schema.flags Flag.pointer then [] else copy ∷ [] in
      if in_error
      then elim (cyaml_free l.host c.memory l.schemas fuel (some true) (some schema) l.copy_variable
          copy (seq_count_of l c)) [
            | fail e ↦ fail e
            | ok none ↦ ok none
            | ok (some blocks) ↦ ok (some (blocks ++ block))
          ]
      else ok (some block)

  -- The call of `cyaml_copy` in `cyaml__field_apply_default`: a pointer
  -- is made at `place`, any other value goes there, by the variable at `variable` that holds the place.
  -- Too little fuel is a fault.
  unfoldable pub copy_to : ℕ → ℕ → SchemaValue → ℕ → ℕ → ℕ → M (Memory × H) (Unit {0})
  unfolding cyaml_copy data_write_pointer
  copy_to n variable schema missing seq_count place (m, h) =
      let out : ℕ = if has_flag schema.flags Flag.pointer then place else variable in
      let start : CopyCtx H = record {
        stack = [];
        stack_max = 0;
        memory = data_write_pointer l.host place variable m;
        heap = h;
      } in
      elim (cyaml_copy n schema missing seq_count (some out) start) [
        | done ended c ↦ if ended then done tt (c.memory, c.heap) else fault
        | failed e c ↦ failed e (c.memory, c.heap)
        | fault ↦ fault
      ]
