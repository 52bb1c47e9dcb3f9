-- ===== src/Free/Freed.antt =====
-- src/free.c: the loops and the recursion, over the values that lie in one.
use libcyaml.Base.{
  ℕ, zero, suc, ◌+◌, ◌*◌, ◌%◌, ◌^◌, ◌≤◌, ◌<◌, ◌≡◌, refl, ap, ◌∙◌, arith, true, false,
}
use libcyaml.Base.{Option, some, List, [], ◌∷◌, if◌then◌else◌, ◌==◌, ltb, ◌-◌}
use libcyaml.Errors.{Err, ok, fail, invalid_data_size}
use libcyaml.Base.{none, ◌⊎◌, inl, inr, ◌&&◌, Bool-cases}
use libcyaml.Data.{data_read}
use libcyaml.Data.Laws.{data_read_lem, data_size_refused}
use libcyaml.Params.{is_sequence}
use libcyaml.Schema.{SchemaType, SchemaValue, SchemaRef, Field}
use libcyaml.Schema.Flag
use libcyaml.Memory.{Memory, Host, read_bytes, object_value}
use libcyaml.Strings.{has_flag}
use libcyaml.Free.{
  Free, both, free_size, free_entries, free_sequence, free_mapping, free_content, free_target,
  free_value, cyaml_free,
}
use native.Mathlib.Nat.{mod-eq_of_lt, mul-le-mul_left}
use libcyaml.Free.Owned.{
  Tree, Parts, blocks, blocks_all, levels, levels_all, Child, entry_bytes, entries_of, IsSmall,
  stored_count, fields_of, children, IsSized, Owns, AreOwned, null, inside, block, no_parts, part,
  levels_pos,
}

-- Freeing values one after the other.
unfoldable free_children : Free → List Child → Option (List ℕ)
free_children free [] = some []
free_children free (c ∷ cs) = both (free c.schema c.place c.count) (free_children free cs)

free_entries-entries_of :
    (free : Free) (value : SchemaValue) (p i n t : ℕ)
    → free_size value ≡ entry_bytes value
    → entry_bytes value * t < 2 ^ 32
    → i + n ≤ t
    → free_entries free value p i n ≡ free_children free (entries_of value p i n)
unfolding free_entries entries_of free_children
free_entries-entries_of free value p i zero t same low le = refl
free_entries-entries_of free value p i (suc n) t same low le =
    let below : entry_bytes value * i ≤ entry_bytes value * t =
      mul-le-mul_left (entry_bytes value) (omega (arith, le)) in
    let fits : free_size value * i % 2 ^ 32 ≡ entry_bytes value * i =
      ap (λ k. k * i % 2 ^ 32) same ∙ mod-eq_of_lt (omega (arith, below, low)) in
    ap (λ k. both (free value (p + k) 0) (free_entries free value p (suc i) n)) fits
    ∙ ap (both (free value (p + entry_bytes value * i) 0))
        (free_entries-entries_of free value p (suc i) n t same low (omega (arith, le)))

free_sequence-entries_of :
    (free : Free) (value : SchemaValue) (p n : ℕ)
    → free_size value ≡ entry_bytes value
    → IsSmall value n
    → free_sequence free value p n ≡ free_children free (entries_of value p 0 n)
unfolding free_sequence
free_sequence-entries_of free value p n same (few, low) =
    let under : ltb (2 ^ 32 - 1) n ≡ false = ground arith in
    rw under (free_entries-entries_of free value p 0 n n same low (omega arith))

module _ (h : Host) (m : Memory) (schemas : SchemaRef → SchemaValue)
    (same : (r : SchemaRef) → free_size (schemas r) ≡ entry_bytes (schemas r)) where
  -- The count that is read is the one that is stored; a size that is not valid ends both.
  free_count-stored_count :
      (p : ℕ) (field : Field) (t : SchemaType)
      → ((n : ℕ) × ((if is_sequence t
              then data_read h field.count_size (p + field.count_offset) m
              else ok 0)
            ≡ ok n)
          × (stored_count h m schemas p field t ≡ some n))
        ⊎ ((e : Err) × ((if is_sequence t
                then data_read h field.count_size (p + field.count_offset) m
                else ok 0)
              ≡ fail e)
            × (stored_count h m schemas p field t ≡ none))
  free_count-stored_count p field SchemaType.sequence =
      let size = field.count_size in
      elim (Bool-cases (ltb 0 size && ltb size 9)) [
        | inl f ↦ inl (
          object_value h (read_bytes (p + field.count_offset) size m),
          data_read_lem h size (p + field.count_offset) m (ground (arith, f)) (ground (arith, f)),
          rw f refl,
        )
        | inr f ↦ inr (
          invalid_data_size,
          (data_size_refused h 0 size (p + field.count_offset) m (ground (arith, f))).1,
          rw f refl,
        )
      ]
  free_count-stored_count p field _ = inl (0, refl, refl)

  free_mapping-fields_of :
      (free : Free) (p : ℕ) (fields : List Field)
      → free_mapping h m schemas free p fields ≡ free_children free (fields_of h m schemas p fields)
  unfolding free_mapping fields_of free_children
  free_mapping-fields_of free p [] = refl
  free_mapping-fields_of free p (field ∷ fields) =
      let ih = free_mapping-fields_of free p fields in
      elim (free_count-stored_count p field (schemas field.value).type) [
        | inl (n, read, stored) ↦
            rw (free_mapping, fields_of, read, stored)
              (ap (both (free (schemas field.value) (p + field.data_offset) n)) ih)
        | inr (e, read, stored) ↦ rw (free_mapping, fields_of, read, stored) refl
      ]

  free_content-children :
      (free : Free) (schema : SchemaValue) (t : SchemaType) (p count : ℕ)
      → IsSized h m schemas schema t count
      → free_content h m schemas free schema t p count
        ≡ free_children free (children h m schemas schema t p count)
  unfolding free_content free_children
  free_content-children free schema SchemaType.mapping p count sized =
      free_mapping-fields_of free p schema.mapping.fields
  free_content-children free schema SchemaType.sequence p count sized =
      free_sequence-entries_of free _ p count (same schema.sequence.entry) sized
  free_content-children free schema SchemaType.sequence_fixed p count sized =
      free_sequence-entries_of free _ p schema.sequence.max (same schema.sequence.entry) sized
  free_content-children free schema _ p count sized = refl

  mutual
    unfolding free_value free_target free_children Owns blocks levels

    free_value-Owns :
        (t : Tree) (fuel : ℕ) (schema : SchemaValue) (place count : ℕ)
        → levels t ≤ fuel
        → Owns h m schemas schema place count t
        → free_value h m schemas fuel schema place count ≡ some (blocks t)
    free_value-Owns t zero schema place count le w =
        let no : ⊥ = omega (arith, le, levels_pos t) in absurd no
    free_value-Owns null (suc fuel) schema place count le (ptr, is) = rw (ptr, is) refl
    free_value-Owns (inside ps) (suc fuel) schema place count le (ptr, sized, w) = rw ptr (
        free_content-children (free_value h m schemas fuel) schema schema.type place count sized
        ∙ free_children-Owned ps fuel _ (omega (arith, le)) w)
    free_value-Owns (block a ps) (suc fuel) schema place count le (ptr, is, ne, sized, w) =
        let given : (a == 0) ≡ false = ground (arith, ne) in
        rw (ptr, is, given)
          (ap (λ o. both o (some (a ∷ [])))
            (free_content-children (free_value h m schemas fuel) schema schema.type a count sized
              ∙ free_children-Owned ps fuel _ (omega (arith, le)) w))

    free_children-Owned :
        (ps : Parts) (fuel : ℕ) (cs : List Child)
        → levels_all ps ≤ fuel
        → AreOwned h m schemas cs ps
        → free_children (free_value h m schemas fuel) cs ≡ some (blocks_all ps)
    free_children-Owned no_parts fuel [] le w = refl
    free_children-Owned no_parts fuel (c ∷ cs) le w = absurd w
    free_children-Owned (part t ps) fuel [] le w = absurd w
    free_children-Owned (part t ps) fuel (c ∷ cs) le (one, rest) =
        rw
          (
            free_value-Owns t fuel c.schema c.place c.count (omega (arith, le)) one,
            free_children-Owned ps fuel cs (omega (arith, le)) rest,
          )
          refl

  -- `cyaml_free` frees the blocks that the data owns: each at every place that owns it, the blocks of
  -- its parts before its own, and nothing else. For a configuration with a memory function, schemas
  -- for which freeing takes the same distance between the entries of a sequence as they have, and data
  -- that owns a tree of blocks, its sequences of as many entries as the bytes for their counts say, and
  -- of fewer than 2 ^ 32 entries and bytes, it returns on fuel for the levels of the tree.
  pub cyaml_free-Owns :
      (t : Tree) (fuel : ℕ) (schema : SchemaValue) (variable location count : ℕ)
      → levels t ≤ fuel
      → Owns h m schemas schema
          (if has_flag schema.flags Flag.pointer then variable else location)
          count
          t
      → cyaml_free h m schemas fuel (some true) (some schema) variable location count
        ≡ ok (some (blocks t))
  unfolding cyaml_free
  cyaml_free-Owns t fuel schema variable location count le w =
      ap ok (free_value-Owns t fuel schema _ count le w)
