-- ===== src/Save/Machine/Rounds.antt =====
-- One round of the loop of `cyaml__save` of src/save.c, in a mapping and in a sequence, on the emitter
-- that accepts every event.
use libcyaml.Base.{◌≢◌}
use libcyaml.Schema.{SchemaType}
use libcyaml.Base.{ℕ, ◌+◌, ◌*◌, ◌%◌, ◌^◌, ◌<◌, ◌≡◌, refl, arith}
use libcyaml.Base.{Bool, true, false, List, [], ◌∷◌, ◌++◌, ltb}
use libcyaml.Base.{inl, inr, Bool-cases, lt→ltb}
use libcyaml.Errors.{ok}
use libcyaml.Outcome.{done, ◌>>=◌, ◌>>◌, lift}
use libcyaml.Schema.{SchemaValue, Field}
use libcyaml.Save.Style.{get_emit_style_scalar}
use libcyaml.Save.Emitter.{Saver, OutEvent, emit_scalar, str_tag}
use libcyaml.Save.Emitter.{mapping_end, sequence_end, scalar}
use libcyaml.Save.Stack.{Frame, SaveCtx, on_world, pop_write_event, change_top}
use libcyaml.Save.Machine.{write_value, step, handle, is_left_out, is_type_ignore}
use libcyaml.Save.Machine.{next_field, write_mapping, write_sequence, field_count}
use libcyaml.Save.Machine.Written.{Events, recorder, item_count, pitch}
use libcyaml.Save.Machine.Meant.{IsSkipped, if-fixed_or, entry_size-pitch, not_sequence}
use libcyaml.Save.Machine.Simulated.{context, map_frame, list_frame, stack_pop-recorder}
use libcyaml.Save.Machine.Simulated.{emit-recorder}

not_true : (b : Bool) → ¬ (b ≡ true) → b ≡ false
not_true true h = absurd (h refl)
not_true false h = refl

module _ {W : Type 0} (s : Saver W) (schema : SchemaValue) (p : ℕ) (stack : List Frame) (max q : ℕ)
    (log : Events) where
  pub step_map_end :
      step (recorder s) (context (map_frame s schema p [] ∷ stack) max q log)
      ≡ done tt (context stack max q (log ++ (mapping_end ∷ [])))
  unfolding step handle write_mapping pop_write_event
  step_map_end =
      stack_pop-recorder s (map_frame s schema p []) stack max q log _
        (emit-recorder s mapping_end log)

  module _ (field : Field) (fields : List Field) where
    pub step_map_left :
        IsSkipped s field p
        → step (recorder s) (context (map_frame s schema p (field ∷ fields) ∷ stack) max q log)
          ≡ done tt (context (map_frame s schema p fields ∷ stack) max q log)
    unfolding step handle write_mapping
    step_map_left (inl e) = rw e refl
    step_map_left (inr e) = elim (Bool-cases (is_type_ignore (s.schemas field.value).type)) [
      | inl i ↦ rw i refl
      | inr i ↦ rw (i, e) refl
    ]

    key_written :
        emit_scalar (recorder s) schema field.key str_tag log
        ≡ done tt (log ++ (scalar field.key str_tag (get_emit_style_scalar schema) ∷ []))
    unfolding emit_scalar
    key_written = emit-recorder s (scalar field.key str_tag (get_emit_style_scalar schema)) log

    member_body :
        (n : ℕ) {c1 : SaveCtx Events}
        → field_count s field p (s.schemas field.value) (s.schemas field.value).type ≡ ok n
        → write_value (recorder s) (s.schemas field.value) (p + field.data_offset) n (
            context
              (map_frame s schema p fields ∷ stack)
              max
              q
              (log ++ (scalar field.key str_tag (get_emit_style_scalar schema) ∷ [])))
          ≡ done tt c1
        → (on_world (emit_scalar (recorder s) schema field.key str_tag)
              >> (next_field (recorder s) fields
                  >> (lift (
                        field_count
                          (recorder s)
                          field
                          p
                          (s.schemas field.value)
                          (s.schemas field.value).type)
                      >>= λ seq_count.
                          write_value
                            (recorder s)
                            (s.schemas field.value)
                            (p + field.data_offset)
                            seq_count)))
            (context (map_frame s schema p (field ∷ fields) ∷ stack) max q log)
          ≡ done tt c1
    member_body n e w = rw (key_written, e, ◌>>=◌, ◌>>◌, on_world, change_top) w

    pub step_map_member :
        (key : OutEvent) (n : ℕ) {c1 : SaveCtx Events}
        → ¬ IsSkipped s field p
        → key ≡ scalar field.key str_tag (get_emit_style_scalar schema)
        → field_count s field p (s.schemas field.value) (s.schemas field.value).type ≡ ok n
        → write_value
            (recorder s)
            (s.schemas field.value)
            (p + field.data_offset)
            n
            (context (map_frame s schema p fields ∷ stack) max q (log ++ (key ∷ [])))
          ≡ done tt c1
        → step (recorder s) (context (map_frame s schema p (field ∷ fields) ∷ stack) max q log)
          ≡ done tt c1
    unfolding step handle write_mapping
    step_map_member key n h same e w =
        let i = not_true (is_type_ignore (s.schemas field.value).type) (λ t. h (inl t)) in
        let l = not_true (is_left_out s field p (s.schemas field.value)) (λ t. h (inr t)) in
        rw (i, l) (member_body n e (rw same at w))

  module _ (count entry : ℕ) where
    pub step_list_end :
        entry ≡ count
        → step (recorder s) (context (list_frame s schema p entry count ∷ stack) max q log)
          ≡ done tt (context stack max q (log ++ (sequence_end ∷ [])))
    unfolding step handle write_sequence pop_write_event
    step_list_end e =
        let le : ltb entry count ≡ false = ground arith in
        rw le (
          stack_pop-recorder s (list_frame s schema p entry count) stack max q log _
            (emit-recorder s sequence_end log))

    pub step_list_item :
        {c1 : SaveCtx Events}
        → entry < count
        → (s.schemas schema.sequence.entry).type ≢ SchemaType.sequence
        → write_value
            (recorder s)
            (s.schemas schema.sequence.entry)
            (p + pitch s (s.schemas schema.sequence.entry) * entry % 2 ^ 64)
            (item_count s (s.schemas schema.sequence.entry))
            (context (list_frame s schema p (entry + 1) count ∷ stack) max q log)
          ≡ done tt c1
        → step (recorder s) (context (list_frame s schema p entry count ∷ stack) max q log)
          ≡ done tt c1
    unfolding step handle write_sequence
    step_list_item lt ne w =
        let value = s.schemas schema.sequence.entry in
        rw
          (
            lt→ltb entry count lt,
            not_sequence s value.type ne,
            change_top,
            ◌>>=◌,
            ◌>>◌,
            entry_size-pitch s value,
            if-fixed_or s value.type value.sequence.max 0,
          )
          w
