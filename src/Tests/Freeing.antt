-- ===== src/Tests/Freeing.antt =====
-- src/free.c on the data of Tests.Saving: a block with a mapping, which owns a block with a list.
use libcyaml.Base.{
  ℕ, true, some, List, [], ◌∷◌, ◌≡◌, refl, arith, if◌then◌else◌, ltb, Bool-cases, inl, inr,
}
use libcyaml.Base.{none, ◌-◌, get_elem?}
use libcyaml.Errors.{ok}
use libcyaml.Schema.{SchemaRef, SchemaType, SchemaValue}
use libcyaml.Memory.{little_endian, read_bytes, Memory}
use libcyaml.Data.{data_read_pointer}
use libcyaml.Free.{cyaml_free, free_size, free_value}
use libcyaml.Free.Owned.{
  Tree, inside, block, no_parts, part, Owns, blocks, entry_bytes, levels, entries_of, fields_of,
}
use libcyaml.Free.Freed.{cyaml_free-Owns}
use libcyaml.Tests.Integers.{plain_schema}
use libcyaml.Tests.Saving.{schemas, client_memory, struct_schema}

abbrev the_tree : Tree
the_tree = block 100 (
    part (inside no_parts)
      (part (block 200 (part (inside no_parts) (part (inside no_parts) no_parts))) no_parts))

same_sizes : (r : SchemaRef) → free_size (schemas r) ≡ entry_bytes (schemas r)
same_sizes r = elim (Bool-cases (ltb r 1)) [
  | inl a ↦ rw a refl
  | inr a ↦ elim (Bool-cases (ltb r 2)) [
    | inl b ↦ rw (a, b) refl
    | inr b ↦ elim (Bool-cases (ltb r 3)) [ inl c ↦ rw (a, b, c) refl | inr c ↦ rw (a, b, c) refl ]
  ]
]

the_tree-Owns : Owns little_endian client_memory schemas struct_schema 8 0 the_tree
unfolding Owns fields_of entries_of data_read_pointer read_bytes
the_tree-Owns = (
  refl,
  refl,
  omega arith,
  tt,
  (
    (refl, tt, tt),
    (
      (refl, refl, omega arith, (omega arith, omega arith), ((refl, tt, tt), ((refl, tt, tt), tt))),
      tt,
    ),
  ),
)

cyaml_free-Owns_example :
    cyaml_free little_endian client_memory schemas 9 (some true) (some struct_schema) 8 100 0
    ≡ ok (some (200 ∷ 100 ∷ []))
unfolding blocks
cyaml_free-Owns_example =
    cyaml_free-Owns little_endian client_memory schemas same_sizes the_tree 9 struct_schema 8 100 0
      (unfold levels in omega arith) the_tree-Owns

-- A sequence of one entry, which is a sequence in place of two pointers to strings. Its entries are at
-- 16 bytes' distance; freeing a sequence of two such entries takes 8.
abbrev nested_schemas : SchemaRef → SchemaValue
nested_schemas r =
    if ltb r 1
    then record (plain_schema SchemaType.string 1 []) { flags = 2 }
    else record (plain_schema SchemaType.sequence_fixed 8 []) {
      sequence = record (plain_schema SchemaType.sequence_fixed 8 []).sequence {
        entry = 0;
        min = 2;
        max = 2;
      };
    }

-- Pointers to 101 to 104 at 8, 16, 24 and 32.
abbrev nested_memory : Memory
nested_memory a = elim (get_elem? nested_bytes (a - 8)) [ none ↦ 0 | some b ↦ b ]
  where
    nested_bytes : List ℕ
    nested_bytes =
        101 ∷ 0 ∷ 0 ∷ 0 ∷ 0 ∷ 0 ∷ 0 ∷ 0 ∷ 102 ∷ 0 ∷ 0 ∷ 0 ∷ 0 ∷ 0 ∷ 0 ∷ 0 ∷ 103 ∷ 0 ∷ 0 ∷ 0 ∷ 0 ∷ 0
        ∷ 0 ∷ 0 ∷ 104 ∷ 0 ∷ 0 ∷ 0 ∷ 0 ∷ 0 ∷ 0 ∷ 0 ∷ []

-- The second block is freed twice and the fourth one never.
nested_freed :
    free_value little_endian nested_memory nested_schemas 9
      (record (plain_schema SchemaType.sequence 16 []) {
        sequence = record (plain_schema SchemaType.sequence 16 []).sequence { entry = 1; max = 2 };
      })
      8
      2
    ≡ some (101 ∷ 102 ∷ 102 ∷ 103 ∷ [])
unfolding free_value read_bytes
nested_freed = refl
