-- ===== src/Free.antt =====
-- src/free.c: what is freed, in which order. The memory is read as it is before the call. `none` is a
-- call that does not return: the recursion runs on fuel.
pub mod Owned
pub mod Freed
use libcyaml.Base.{ℕ, zero, suc, ◌+◌, ◌-◌, ◌*◌, ◌%◌, ◌^◌, Bool, true, false, Option, none, some}
use libcyaml.Base.{List, [], ◌∷◌, ◌++◌, ltb, ◌==◌, if◌then◌else◌}
use libcyaml.Errors.{Result, ok, fail, bad_param_null_config, bad_config_null_memfn}
use libcyaml.Errors.{bad_param_null_schema}
use libcyaml.Schema.{SchemaType, SchemaValue, SchemaRef, Field}
use libcyaml.Schema.Flag
use libcyaml.Memory.{Memory, Host}
use libcyaml.Data.{data_read, data_read_pointer}
use libcyaml.Strings.{has_flag}
use libcyaml.Params.{is_sequence}

-- What a function frees, given the values it frees by, and in what order.
abbrev pub Free : Type 0
Free = SchemaValue → ℕ → ℕ → Option (List ℕ)

-- One call after another.
abbrev pub both : Option (List ℕ) → Option (List ℕ) → Option (List ℕ)
both none y = none
both (some a) none = none
both (some a) (some b) = some (a ++ b)

-- The `data_size` of `cyaml__free_sequence`.
abbrev pub free_size : SchemaValue → ℕ
free_size value = if has_flag value.flags Flag.pointer then 8 else value.data_size

-- The loop of `cyaml__free_sequence`, with the entries that are left; the product has 32 bits.
unfoldable pub free_entries : Free → SchemaValue → ℕ → ℕ → ℕ → Option (List ℕ)
free_entries free value p i zero = some []
free_entries free value p i (suc n) =
    both (free value (p + free_size value * i % 2 ^ 32) 0) (free_entries free value p (suc i) n)

-- `cyaml__free_sequence`: the counter has 32 bits, and never reaches a count above them.
unfoldable pub free_sequence : Free → SchemaValue → ℕ → ℕ → Option (List ℕ)
unfolding free_entries
free_sequence free value p count =
    if ltb (2 ^ 32 - 1) count then none else free_entries free value p 0 count

module _ (h : Host) (m : Memory) (schemas : SchemaRef → SchemaValue) where
  -- The count of a field, in `cyaml__free_mapping`.
  abbrev pub free_count : ℕ → Field → Result ℕ
  free_count p field =
      if is_sequence (schemas field.value).type
      then data_read h field.count_size (p + field.count_offset) m
      else ok 0

  -- `cyaml__free_mapping`, on the fields that are left.
  unfoldable pub free_mapping : Free → ℕ → List Field → Option (List ℕ)
  unfolding data_read
  free_mapping free p [] = some []
  free_mapping free p (field ∷ fields) =
      let rest = free_mapping free p fields in
      elim (free_count p field) [
        | fail e ↦ some []
        | ok count ↦ both (free (schemas field.value) (p + field.data_offset) count) rest
      ]

  -- What `cyaml__free_value` does with the data behind the pointer, by the type.
  unfoldable pub free_content : Free → SchemaValue → SchemaType → ℕ → ℕ → Option (List ℕ)
  unfolding free_mapping free_sequence
  free_content free schema SchemaType.mapping p count = free_mapping free p schema.mapping.fields
  free_content free schema SchemaType.sequence p count =
      free_sequence free (schemas schema.sequence.entry) p count
  free_content free schema SchemaType.sequence_fixed p count =
      free_sequence free (schemas schema.sequence.entry) p schema.sequence.max
  free_content free schema _ p count = some []

  -- The same, for the target of a pointer: it is freed after its content.
  unfoldable pub free_target : Free → SchemaValue → ℕ → ℕ → Option (List ℕ)
  unfolding free_content
  free_target free schema p count =
      if p == 0
      then some []
      else both (free_content free schema schema.type p count) (some (p ∷ []))

  -- `cyaml__free_value`
  unfoldable pub free_value : ℕ → SchemaValue → ℕ → ℕ → Option (List ℕ)
  unfolding free_content free_target data_read_pointer
  free_value zero schema location count = none
  free_value (suc fuel) schema location count =
      let free = free_value fuel in
      if has_flag schema.flags Flag.pointer
      then free_target free schema (data_read_pointer h location m) count
      else free_content free schema schema.type location count

  -- `cyaml_free`, with the address of its variable `data` and the value that it holds.
  unfoldable pub cyaml_free :
      ℕ → Option Bool → Option SchemaValue → ℕ → ℕ → ℕ → Result (Option (List ℕ))
  unfolding free_value
  cyaml_free fuel none schema variable location seq_count = fail bad_param_null_config
  cyaml_free fuel (some false) schema variable location seq_count = fail bad_config_null_memfn
  cyaml_free fuel (some true) none variable location seq_count = fail bad_param_null_schema
  cyaml_free fuel (some true) (some schema) variable location seq_count = ok (
      free_value fuel schema (if has_flag schema.flags Flag.pointer then variable else location)
        seq_count)
