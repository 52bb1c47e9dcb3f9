-- ===== src/Save/Machine/Refined.antt =====
-- `cyaml__save` of src/save.c writes the document that the client's data stands for.
use libcyaml.Base.{ℕ, zero, suc, ◌+◌, ◌*◌, ◌%◌, ◌^◌, ◌≤◌, ◌≡◌, ◌≢◌, arith, ap, ◌∙◌}
use libcyaml.Base.{true, List, [], ◌∷◌, ◌++◌, length, inl, inr}
use libcyaml.Outcome.{Outcome, done}
use libcyaml.Schema.{SchemaType, SchemaValue, Field}
use libcyaml.Save.Emitter.{Saver}
use libcyaml.Save.Emitter.{mapping_start, mapping_end, sequence_start, sequence_end}
use libcyaml.Save.Stack.{Frame, SaveCtx}
use libcyaml.Save.Style.{CollectionStyle, get_emit_style_map, get_emit_style_seq}
use libcyaml.Save.Machine.{write_value, write_null, write_by_type}
use libcyaml.Save.Machine.Written.{Events, recorder, Node, leaf, mapping, sequence, Members}
use libcyaml.Save.Machine.Written.{no_members, left_out, member, Items, no_items, item, write_leaf}
use libcyaml.Save.Machine.Written.{
  IsValue, AreMembers, AreItems, pitch, target, item_count, is_list,
}
use libcyaml.Save.Machine.Meant.{
  IsNull-Emits, IsLeft-IsSkipped, IsSkipped-IsLeft, HasEntries-field_count,
}
use libcyaml.Save.Machine.Simulated.{context, grown, map_frame, list_frame, Goes, here, then_on}
use libcyaml.Save.Machine.Simulated.{Goes-trans, onto, onto_members, onto_items, on_world_done}
use libcyaml.Save.Machine.Simulated.{by_type_leaf, by_type_list, by_type_mapping}
use libcyaml.Save.Machine.Simulated.{write_value-null, write_value-by_type}
use libcyaml.Save.Machine.Rounds.{step_map_end, step_map_left, step_map_member, step_list_end}
use libcyaml.Save.Machine.Rounds.{step_list_item}

module _ {W : Type 0} (s : Saver W) where
  -- A call of `write_value` and the rounds after it leave the stack as it was, and the log longer by
  -- the events of the document.
  abbrev pub Wrote : Outcome (SaveCtx Events) (Unit {0}) → List Frame → ℕ → Events → Type 0
  Wrote o stack q log =
      (c1 : SaveCtx Events) × (o ≡ done tt c1)
      × (length stack ≤ length c1.stack)
      × ((max : ℕ) × Goes s c1 (context stack max q log))

  value_leaf :
      (evs : Events) (schema : SchemaValue) (place count : ℕ) (stack : List Frame) (max q : ℕ)
      (log : Events)
      → IsValue s schema place count (leaf evs)
      → Wrote
          (write_value (recorder s) schema place count (context stack max q log))
          stack
          q
          (log ++ evs)
  unfolding IsValue
  value_leaf evs schema place count stack max q log (inl (null, emits)) =
      let c = context stack max q log in
      (
        context stack max q (log ++ evs),
        write_value-null s schema place count c null
            ∙ on_world_done s (write_null (recorder s) schema) stack max q log evs
                (IsNull-Emits s schema evs emits),
        omega arith,
        (max, here),
      )
  value_leaf evs schema place count stack max q log (inr (there, is, emits)) =
      let c = context stack max q log in
      let p = target s schema place in
      (
        context stack max q (log ++ evs),
        write_value-by_type s schema place count c there
            ∙ by_type_leaf s schema schema.type p count c is
            ∙ on_world_done s (write_leaf s schema schema.type p) stack max q log evs emits,
        omega arith,
        (max, here),
      )

  mapping_written :
      (style : CollectionStyle) (schema : SchemaValue) (place count : ℕ) (stack : List Frame)
      (max q : ℕ) (log : Events)
      → target s schema place ≢ 0
      → schema.type ≡ SchemaType.mapping
      → style ≡ get_emit_style_map s.config schema
      → write_value (recorder s) schema place count (context stack max q log)
        ≡ done tt (
            context
              (map_frame s schema (target s schema place) schema.mapping.fields ∷ stack)
              (grown stack max)
              q
              (log ++ (mapping_start style ∷ [])))
  mapping_written style schema place count stack max q log there is styled =
      let c = context stack max q log in
      let p = target s schema place in
      write_value-by_type s schema place count c there
      ∙ ap (λ t. write_by_type (recorder s) schema t p count c) is
      ∙ rw styled (by_type_mapping s schema p count stack max q log)

  sequence_written :
      (style : CollectionStyle) (schema : SchemaValue) (place count : ℕ) (stack : List Frame)
      (max q : ℕ) (log : Events)
      → target s schema place ≢ 0
      → is_list schema schema.type ≡ true
      → style ≡ get_emit_style_seq s.config schema
      → write_value (recorder s) schema place count (context stack max q log)
        ≡ done tt (
            context
              (list_frame s schema (target s schema place) 0 count ∷ stack)
              (grown stack max)
              q
              (log ++ (sequence_start style ∷ [])))
  sequence_written style schema place count stack max q log there is styled =
      write_value-by_type s schema place count (context stack max q log) there
      ∙ rw styled
          (by_type_list s schema schema.type (target s schema place) count stack max q log is)

  mutual
    unfolding onto IsValue

    pub value :
        (t : Node) (schema : SchemaValue) (place count : ℕ) (stack : List Frame) (max q : ℕ)
        (log : Events)
        → 2 ≤ length stack
        → IsValue s schema place count t
        → Wrote
            (write_value (recorder s) schema place count (context stack max q log))
            stack
            q
            (onto t log)
    value (leaf evs) schema place count stack max q log deep h =
        value_leaf evs schema place count stack max q log h
    value (mapping style ms) schema place count stack max q log deep h =
        let p = target s schema place in
        let (max', g) =
          members ms schema p schema.mapping.fields stack (grown stack max) q
            (log ++ (mapping_start style ∷ [])) deep h.3 in
        (
          context (map_frame s schema p schema.mapping.fields ∷ stack) (grown stack max) q
              (log ++ (mapping_start style ∷ [])),
          mapping_written style schema place count stack max q log h.0 h.1 h.2,
          omega arith,
          (max', g),
        )
    value (sequence style xs) schema place count stack max q log deep h =
        let p = target s schema place in
        let (max', g) =
          items xs schema p 0 count count stack (grown stack max) q
            (log ++ (sequence_start style ∷ [])) deep (omega arith) h.3 in
        (
          context (list_frame s schema p 0 count ∷ stack) (grown stack max) q
              (log ++ (sequence_start style ∷ [])),
          sequence_written style schema place count stack max q log h.0 h.1 h.2,
          omega arith,
          (max', g),
        )

    members :
        (ms : Members) (schema : SchemaValue) (p : ℕ) (fields : List Field) (stack : List Frame)
        (max q : ℕ) (log : Events)
        → 2 ≤ length stack
        → AreMembers s schema p fields ms
        → (max' : ℕ) × Goes s
            (context (map_frame s schema p fields ∷ stack) max q log)
            (context stack max' q (onto_members ms log ++ (mapping_end ∷ [])))
    members no_members schema p [] stack max q log deep h =
        (max, then_on (step_map_end s schema p stack max q log) (omega arith) here)
    members no_members schema p (field ∷ fields) stack max q log deep h = absurd h
    members (left_out ms) schema p [] stack max q log deep h = absurd h
    members (left_out ms) schema p (field ∷ fields) stack max q log deep h =
        let (max', g) = members ms schema p fields stack max q log deep h.1 in
        (
          max',
          then_on
              (step_map_left s schema p stack max q log field fields
                (IsLeft-IsSkipped s field p h.0))
              (omega arith) g,
        )
    members (member key t ms) schema p [] stack max q log deep h = absurd h
    members (member key t ms) schema p (field ∷ fields) stack max q log deep h =
        let (n, counted, val) = h.2 in
        let (c1, w, tall, (max1, g1)) =
          value t (s.schemas field.value) (p + field.data_offset) n
            (map_frame s schema p fields ∷ stack) max q (log ++ (key ∷ [])) (omega arith) val in
        let (max', g) =
          members ms schema p fields stack max1 q (onto t (log ++ (key ∷ []))) deep h.3 in
        (
          max',
          then_on
              (step_map_member s schema p stack max q log field fields key n
                (λ k. h.0 (IsSkipped-IsLeft s field p k)) h.1
                (HasEntries-field_count s field p (s.schemas field.value)
                  (s.schemas field.value).type n counted)
                w)
              (omega (arith, tall)) (Goes-trans s g1 g),
        )

    items :
        (xs : Items) (schema : SchemaValue) (p entry k count : ℕ) (stack : List Frame) (max q : ℕ)
        (log : Events)
        → 2 ≤ length stack
        → entry + k ≡ count
        → AreItems s schema p entry k xs
        → (max' : ℕ) × Goes s
            (context (list_frame s schema p entry count ∷ stack) max q log)
            (context stack max' q (onto_items xs log ++ (sequence_end ∷ [])))
    items no_items schema p entry zero count stack max q log deep e h = (
      max,
      then_on (step_list_end s schema p stack max q log count entry (omega arith)) (omega arith)
          here,
    )
    items no_items schema p entry (suc k) count stack max q log deep e h = absurd h
    items (item t xs) schema p entry zero count stack max q log deep e h = absurd h
    items (item t xs) schema p entry (suc k) count stack max q log deep e h =
        let (c1, w, tall, (max1, g1)) =
          value t (s.schemas schema.sequence.entry)
            (p + pitch s (s.schemas schema.sequence.entry) * entry % 2 ^ 64)
            (item_count s (s.schemas schema.sequence.entry))
            (list_frame s schema p (entry + 1) count ∷ stack) max q log (omega arith) h.1 in
        let (max', g) =
          items xs schema p (entry + 1) k count stack max1 q (onto t log) deep (omega arith) h.2 in
        (
          max',
          then_on (step_list_item s schema p stack max q log count entry (omega arith) h.0 w)
              (omega (arith, tall)) (Goes-trans s g1 g),
        )
