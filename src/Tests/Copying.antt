-- ===== src/Tests/Copying.antt =====
-- src/copy.c on the structure that Tests.Saving writes, and on a pointer that is NULL.
use libcyaml.Base.{
  ℕ, ◌+◌, ◌≡◌, refl, true, false, Bool, Option, none, some, [], ◌∷◌, ◌++◌, ltb, if◌then◌else◌,
  Bool-cases, inl, inr, arith,
}
use libcyaml.Outcome.{Outcome, done, failed, fault, Guards}
use libcyaml.Schema.{Bytes, SchemaType, SchemaValue, SchemaRef, Field}
use libcyaml.Memory.{Memory, little_endian, read_bytes}
use libcyaml.Base.{◌⊎◌, ◌<◌, ◌≤◌}
use libcyaml.Data.{data_read_pointer}
use libcyaml.Copy.Numbers.{clone_value-Copies}
use libcyaml.Copy.Stack.{CopyCtx, Copier}
use libcyaml.Copy.Clone.{clone_value}
use libcyaml.Copy.Call.{cyaml_copy, copy_to}
use libcyaml.Copy.Machine.{copy_loop}
use libcyaml.Copy.Sound.{is_text, IsCopier}
use libcyaml.Copy.Kept.{Untouched, Finished, copy_loop-Finished}
use libcyaml.Tests.Integers.{int_schema, plain_schema}
use libcyaml.Tests.Saving.{schemas, struct_schema, client_memory}

-- Blocks one after the other; the variables lie behind them.
abbrev copier : (SchemaRef → SchemaValue) → Copier ℕ
copier table = record {
  host = little_endian;
  schemas = table;
  realloc = λ h n. (true, h);
  allocate = λ h n. (some (1000 + h), h + n);
  data_variable = 9000;
  copy_variable = 9008;
  count_variable = 9016;
}

abbrev start : Memory → CopyCtx ℕ
start m = record { stack = []; stack_max = 0; memory = m; heap = 0 }

abbrev bytes_at : ℕ → ℕ → Outcome (CopyCtx ℕ) Bool → Option (Bool × Bytes)
bytes_at a n (done x c) = some (x, read_bytes a n c.memory)
bytes_at a n (failed e c) = none
bytes_at a n fault = none

abbrev copied : Outcome (CopyCtx ℕ) Bool
copied = cyaml_copy (copier schemas) 9 struct_schema 100 0 (some 40) (start client_memory)

-- The client's variable leads to 1000, whose list at 1024 has the two entries 7 and 8.
copied_pointer : bytes_at 40 2 copied ≡ some (true, 232 ∷ 3 ∷ [])
unfolding cyaml_copy
copied_pointer = refl

copied_bytes :
    bytes_at 1000 26 copied
    ≡ some (
      true,
      254 ∷ 255 ∷ 0 ∷ 0 ∷ 0 ∷ 0 ∷ 0 ∷ 0 ∷ 0 ∷ 4 ∷ 0 ∷ 0 ∷ 0 ∷ 0 ∷ 0 ∷ 0 ∷ 2 ∷ 0 ∷ 0 ∷ 0 ∷ 0 ∷ 0 ∷ 0
          ∷ 0 ∷ 7 ∷ 8 ∷ [],
    )
unfolding cyaml_copy
copied_bytes = refl

-- The structure at 100 is the default of a field whose pointer is at 48.
default_copied :
    (elim (copy_to (copier schemas) 9 7000 struct_schema 100 0 48 (client_memory, 0))
      as (λ _. Bytes) [
        | done a s ↦ read_bytes 48 2 s.0 ++ read_bytes 1000 2 s.0 ++ read_bytes 1024 2 s.0
        | failed e s ↦ []
        | fault ↦ []
      ])
    ≡ 232 ∷ 3 ∷ 254 ∷ 255 ∷ 7 ∷ 8 ∷ []
unfolding copy_to
default_copied = refl

-- struct { uint8_t *pair; }, where `pair` is NULL or leads to sixteen bytes, and a pointer to one; the
-- structure at 100 is followed by other bytes, which end up behind the block of its copy at 1000.
abbrev pair_schema : SchemaValue
pair_schema = record (plain_schema SchemaType.sequence_fixed 1 []) {
  flags = 3;
  sequence = record (plain_schema SchemaType.sequence 1 []).sequence {
    entry = 1;
    min = 16;
    max = 16;
  };
}

abbrev pair_field : Field
pair_field = record { key = 97 ∷ []; data_offset = 0; count_offset = 0; count_size = 0; value = 0 }

abbrev holder_schema : SchemaValue
holder_schema = record (plain_schema SchemaType.mapping 8 (pair_field ∷ [])) { flags = 2 }

abbrev holder_schemas : SchemaRef → SchemaValue
holder_schemas r = if ltb r 1 then pair_schema else plain_schema SchemaType.uint 1 []

abbrev holder_memory : Memory
holder_memory a = if ltb a 108 then 0 else if ltb a 200 then 77 else 0

null_copied :
    bytes_at 1000 17
      (cyaml_copy (copier holder_schemas) 30 holder_schema 100 0 (some 40) (start holder_memory))
    ≡ some (true, 0 ∷ 0 ∷ 0 ∷ 0 ∷ 0 ∷ 0 ∷ 0 ∷ 0 ∷ 77 ∷ 77 ∷ 77 ∷ 77 ∷ 77 ∷ 77 ∷ 77 ∷ 77 ∷ 0 ∷ [])
unfolding cyaml_copy
null_copied = refl

no_text : (r : ℕ) → is_text (schemas r).type ≡ false
no_text r = elim (Bool-cases (ltb r 1)) [
  | inl a ↦ rw a refl
  | inr a ↦ elim (Bool-cases (ltb r 2)) [
    | inl b ↦ rw (a, b) refl
    | inr b ↦ elim (Bool-cases (ltb r 3)) [ inl c ↦ rw (a, b, c) refl | inr c ↦ rw (a, b, c) refl ]
  ]
]

copier-IsCopier : IsCopier (copier schemas) 1000
copier-IsCopier = record {
  blocks = λ h n p e. let q : 1000 + h ≡ p = cc in omega (arith, q);
  counts = omega arith;
  texts = no_text;
}

copy_loop-Finished_example :
    Guards
      (Untouched (copier schemas) 1000 client_memory copier-IsCopier)
      (Finished (copier schemas) 1000 client_memory copier-IsCopier)
      (copy_loop (copier schemas) 9 struct_schema 8 9008 (start client_memory))
copy_loop-Finished_example =
    copy_loop-Finished (copier schemas) 1000 client_memory copier-IsCopier 9 struct_schema 8 9008
      (start client_memory) refl (omega arith) ((λ x below. refl), refl)

-- A pointer at 8 to a number of two bytes at 100, copied to a pointer at 40.
abbrev number_schema : SchemaValue
number_schema = record int_schema { flags = 2 }

pointer_at : data_read_pointer little_endian 8 client_memory ≡ 100
unfolding data_read_pointer read_bytes
pointer_at = refl

clone_value-Copies_example :
    (m' : Memory) × (clone_value (copier schemas) number_schema 8 0 40 (start client_memory)
      ≡ done tt (record (start client_memory) { memory = m'; heap = 2 }))
    × (read_bytes 1000 2 m' ≡ read_bytes 100 2 client_memory)
    × (data_read_pointer little_endian 40 m' ≡ 1000)
    × ((x : ℕ) → (x < 1000) ⊎ (1002 ≤ x) → (x < 40) ⊎ (48 ≤ x) → m' x ≡ client_memory x)
clone_value-Copies_example =
    clone_value-Copies (copier schemas) number_schema refl refl 8 40 100 1000 (start client_memory)
      pointer_at (λ e. cc) refl (omega arith) (inl (omega arith)) (inl (omega arith))
      (inr (omega arith)) 0
