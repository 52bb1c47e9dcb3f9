-- ===== src/Copy/Numbers.antt =====
-- src/copy.c, the copy of a number behind a pointer.
use libcyaml.Base.{ℕ, ◌+◌, ◌^◌, ◌≤◌, ◌<◌, ◌≡◌, ◌≢◌, refl, ◌∙◌, arith, inl, inr}
use libcyaml.Base.{Bool, true, false, some, ◌⊎◌, ◌==◌, Bool-cases, replicate}
use libcyaml.Base.{bit_and}
use mathlib.Core.Path.{subst}
use libcyaml.Outcome.{done, ◌>>=◌, ◌>>◌}
use libcyaml.Schema.{SchemaType, SchemaValue}
use libcyaml.Schema.Flag
use libcyaml.Memory.{Memory, read_bytes, write_bytes}
use libcyaml.Memory.Laws.{read_bytes-write_bytes, write_bytes_outside}
use libcyaml.Data.{data_write_pointer, data_read_pointer}
use libcyaml.Data.{data_save_handle_pointer}
use libcyaml.Strings.{has_flag}
use libcyaml.Params.{is_any_sequence}
use libcyaml.Copy.Ranges.{
  AreApart, length-read_bytes, length-replicate, read_bytes-elsewhere, read_bytes-same,
  data_read_pointer-same, data_write_pointer_lem,
}
use libcyaml.Copy.Stack.{CopyCtx, Copier, block_size, alloc, data_handle_pointer}
use libcyaml.Copy.Clone.{clone_value, clone_by_type, clone_number}

-- The types that `cyaml__clone_number` copies.
abbrev pub is_number : SchemaType → Bool
is_number SchemaType.int = true
is_number SchemaType.uint = true
is_number SchemaType.bool = true
is_number SchemaType.enum = true
is_number SchemaType.float = true
is_number SchemaType.flags = true
is_number SchemaType.bitfield = true
is_number _ = false

module _ {H : Type 0} (l : Copier H) (schema : SchemaValue) (number : is_number schema.type ≡ true)
    (pointer : has_flag schema.flags Flag.pointer ≡ true) where
  block_size-number :
      (t : SchemaType) (origin : ℕ) (c : CopyCtx H)
      → is_number t ≡ true
      → block_size l schema t origin c ≡ done schema.data_size c
  unfolding block_size
  block_size-number SchemaType.int origin c is = refl
  block_size-number SchemaType.uint origin c is = refl
  block_size-number SchemaType.bool origin c is = refl
  block_size-number SchemaType.enum origin c is = refl
  block_size-number SchemaType.float origin c is = refl
  block_size-number SchemaType.flags origin c is = refl
  block_size-number SchemaType.bitfield origin c is = refl
  block_size-number _ origin c is = cc

  clone_by_type-number :
      (t : SchemaType) (origin copy : ℕ) (c : CopyCtx H)
      → is_number t ≡ true
      → clone_by_type l schema t origin copy c
        ≡ done tt (record c {
          memory = write_bytes copy (read_bytes origin schema.data_size c.memory) c.memory;
        })
  unfolding clone_by_type clone_number
  clone_by_type-number SchemaType.int origin copy c is = refl
  clone_by_type-number SchemaType.uint origin copy c is = refl
  clone_by_type-number SchemaType.bool origin copy c is = refl
  clone_by_type-number SchemaType.enum origin copy c is = refl
  clone_by_type-number SchemaType.float origin copy c is = refl
  clone_by_type-number SchemaType.flags origin copy c is = refl
  clone_by_type-number SchemaType.bitfield origin copy c is = refl
  clone_by_type-number _ origin copy c is = cc

  is_any_sequence-number : (t : SchemaType) → is_number t ≡ true → is_any_sequence t ≡ false
  is_any_sequence-number SchemaType.sequence is = cc
  is_any_sequence-number SchemaType.sequence_fixed is = cc
  is_any_sequence-number _ is = refl

  data_save_handle_pointer-read :
      (origin : ℕ) (m : Memory)
      → data_save_handle_pointer l.host schema origin m ≡ data_read_pointer l.host origin m
  unfolding data_save_handle_pointer
  data_save_handle_pointer-read origin m =
      elim (Bool-cases (bit_and schema.flags Flag.pointer == 0)) [
        | inl e ↦ let f = rw e at pointer in absurd (cc)
        | inr e ↦ rw e refl
      ]

  module _ (origin copy d p : ℕ) (c : CopyCtx H)
      (leads : data_read_pointer l.host origin c.memory ≡ d) (given : d ≢ 0)
      (granted : (l.allocate c.heap schema.data_size).0 ≡ some p) where
    abbrev h' : H
    h' = (l.allocate c.heap schema.data_size).1

    -- The memory with the block of zeros and the pointer to it.
    abbrev with_block : Memory
    with_block =
        data_write_pointer l.host p copy (write_bytes p (replicate schema.data_size 0) c.memory)

    abbrev with_copy : Memory
    with_copy = write_bytes p (read_bytes d schema.data_size with_block) with_block

    data_handle_pointer-number :
        data_handle_pointer l schema origin copy c
        ≡ done (d, p) (record c { memory = with_block; heap = h' })
    unfolding data_handle_pointer alloc
    data_handle_pointer-number =
        let not_null : (d == 0) ≡ false = ground (arith, given) in
        let found : data_save_handle_pointer l.host schema origin c.memory ≡ d =
          data_save_handle_pointer-read origin c.memory ∙ leads in
        rw
          (
            pointer,
            ◌>>=◌,
            found,
            not_null,
            ◌>>=◌,
            block_size-number schema.type d c number,
            ◌>>=◌,
            granted,
            ◌>>◌,
            found,
          )
          refl

    clone_value-done :
        (n : ℕ)
        → clone_value l schema origin n copy c
          ≡ done tt (record c { memory = with_copy; heap = h' })
    unfolding clone_value
    clone_value-done n =
        rw
          (
            is_any_sequence-number schema.type number,
            ◌>>=◌,
            data_handle_pointer-number,
            clone_by_type-number schema.type d p (record c { memory = with_block; heap = h' })
                number,
          )
          refl

    module _ (small : p < 2 ^ 64) (beside_data : AreApart d schema.data_size p schema.data_size)
        (beside_slot : AreApart copy 8 p schema.data_size)
        (slot_beside : AreApart d schema.data_size copy 8) where
      abbrev size : ℕ
      size = schema.data_size

      abbrev with_zeros : Memory
      with_zeros = write_bytes p (replicate size 0) c.memory

      same_data : read_bytes d size with_block ≡ read_bytes d size c.memory
      same_data =
          let same = (data_write_pointer_lem l.host p copy with_zeros small).1 in
          read_bytes-same d size with_block with_zeros
            (λ x a b. same x (ground (arith, slot_beside, a, b)))
          ∙ read_bytes-elsewhere d size p (replicate size 0) c.memory
              (rw (length-replicate size 0) beside_data)

      copied_bytes : read_bytes p size with_copy ≡ read_bytes d size with_block
      copied_bytes =
          let bytes = read_bytes d size with_block in
          subst (λ n. read_bytes p n with_copy ≡ bytes) (length-read_bytes d size with_block)
            (read_bytes-write_bytes bytes p with_block)

      slot : data_read_pointer l.host copy with_copy ≡ p
      slot =
          data_read_pointer-same l.host copy with_copy with_block (
            read_bytes-elsewhere copy 8 p (read_bytes d size with_block) with_block
              (rw (length-read_bytes d size with_block) beside_slot))
          ∙ (data_write_pointer_lem l.host p copy with_zeros small).0

      outside :
          (x : ℕ)
          → (x < p) ⊎ (p + size ≤ x)
          → (x < copy) ⊎ (copy + 8 ≤ x)
          → with_copy x ≡ c.memory x
      outside x block pointer =
          write_bytes_outside (read_bytes d size with_block) p x with_block
            (rw (length-read_bytes d size with_block) block)
          ∙ (data_write_pointer_lem l.host p copy with_zeros small).1 x pointer
          ∙ write_bytes_outside (replicate size 0) p x c.memory (rw (length-replicate size 0) block)

      -- The copy of a number behind a pointer is a new block with the same bytes, and a pointer to it.
      pub clone_value-Copies :
          (n : ℕ)
          → (m' : Memory) × (clone_value l schema origin n copy c
              ≡ done tt (record c { memory = m'; heap = h' }))
            × (read_bytes p schema.data_size m' ≡ read_bytes d schema.data_size c.memory)
            × (data_read_pointer l.host copy m' ≡ p)
            × ((x : ℕ)
                → (x < p) ⊎ (p + schema.data_size ≤ x)
                → (x < copy) ⊎ (copy + 8 ≤ x)
                → m' x ≡ c.memory x)
      clone_value-Copies n =
          (with_copy, clone_value-done n, copied_bytes ∙ same_data, slot, outside)
