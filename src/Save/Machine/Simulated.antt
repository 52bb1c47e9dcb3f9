-- ===== src/Save/Machine/Simulated.antt =====
-- The loop of `cyaml__save` of src/save.c, on the emitter that accepts every event: rounds that write
-- a value, one by one.
use libcyaml.Base.{ℕ, suc, ◌+◌, ◌%◌, ◌^◌, ◌<◌, ◌≡◌, ◌≢◌, refl, arith, ap, ◌∙◌}
use libcyaml.Base.{true, List, [], ◌∷◌, ◌++◌, length, ltb, if◌then◌else◌}
use libcyaml.Base.{inl, inr, ==-ne, lt→ltb, Bool-cases}
use libcyaml.Outcome.{done, M, ◌>>=◌, ◌>>◌, bind_done}
use libcyaml.Schema.{SchemaType, SchemaValue, Field}
use libcyaml.Strings.{State}
use libcyaml.Save.Style.{get_emit_style_map, get_emit_style_seq}
use libcyaml.Save.Emitter.{Saver, OutEvent, emit, emit_event_helper}
use libcyaml.Save.Emitter.{mapping_start, mapping_end, sequence_start, sequence_end}
use libcyaml.Save.Stack.{Frame, SaveCtx, new_frame, on_world, stack_ensure, stack_push, stack_pop}
use libcyaml.Save.Stack.{push_write_event, pop_write_event}
use libcyaml.Save.Machine.{write_value, write_by_type, write_null, step, run}
use libcyaml.Save.Machine.Written.{Events, recorder, Emits, Node, leaf, mapping, sequence, Members}
use libcyaml.Save.Machine.Written.{no_members, left_out, member, Items, no_items, item, write_leaf}
use libcyaml.Save.Machine.Meant.{data_save_handle_pointer-target}
use libcyaml.Save.Machine.Written.{target, is_leaf, is_list}

-- The log that a document leaves after a given one.
unfoldable mutual
  pub onto : Node → Events → Events
  onto (leaf evs) log = log ++ evs
  onto (mapping style ms) log =
      onto_members ms (log ++ (mapping_start style ∷ [])) ++ (mapping_end ∷ [])
  onto (sequence style xs) log =
      onto_items xs (log ++ (sequence_start style ∷ [])) ++ (sequence_end ∷ [])

  pub onto_members : Members → Events → Events
  onto_members no_members log = log
  onto_members (left_out ms) log = onto_members ms log
  onto_members (member key t ms) log = onto_members ms (onto t (log ++ (key ∷ [])))

  pub onto_items : Items → Events → Events
  onto_items no_items log = log
  onto_items (item t xs) log = onto_items xs (onto t log)

abbrev pub context : List Frame → ℕ → ℕ → Events → SaveCtx Events
context stack max q log = record { stack = stack; stack_max = max; seq_count = q; world = log }

-- The size of the array that `cyaml__stack_ensure` leaves.
abbrev pub grown : List Frame → ℕ → ℕ
grown stack max = if ltb (length stack) max then max else (max + 16) % 2 ^ 32

module _ {W : Type 0} (s : Saver W) where
  -- Rounds of the loop after each of which more than the first state is left.
  pub data Goes : SaveCtx Events → SaveCtx Events → Type 0 where
    here : {c : SaveCtx Events} → Goes c c
    then_on :
        {c c1 c2 : SaveCtx Events}
        → step (recorder s) c ≡ done tt c1
        → 1 < length c1.stack
        → Goes c1 c2
        → Goes c c2

  pub Goes-trans : {c c1 c2 : SaveCtx Events} → Goes c c1 → Goes c1 c2 → Goes c c2
  Goes-trans here h = h
  Goes-trans (then_on e lt g) h = then_on e lt (Goes-trans g h)

  run_round :
      (fuel : ℕ) (c c1 : SaveCtx Events)
      → step (recorder s) c ≡ done tt c1
      → 1 < length c1.stack
      → run (recorder s) (suc fuel) c ≡ run (recorder s) fuel c1
  unfolding run
  run_round fuel c c1 e lt =
      bind_done (step (recorder s))
        (λ u c. if ltb 1 (length c.stack) then run (recorder s) fuel c else done true c) c e
      ∙ rw (lt→ltb 1 (length c1.stack) lt) refl

  -- With fuel for them, the loop makes these rounds.
  pub run-Goes :
      {c c1 : SaveCtx Events}
      → Goes c c1
      → (n : ℕ) × ((k : ℕ) → run (recorder s) (n + k) c ≡ run (recorder s) k c1)
  run-Goes {c} here = (0, λ k. ap (λ t. run (recorder s) t c) (omega arith))
  run-Goes {c} (then_on {c1 = c1} e lt g) =
      let (n, h) = run-Goes g in
      (suc n, λ k. ap (λ t. run (recorder s) t c) (omega arith) ∙ run_round (n + k) c c1 e lt ∙ h k)

  pub emit-recorder :
      (e : OutEvent) (log : Events) → emit (recorder s) e log ≡ done tt (log ++ (e ∷ []))
  unfolding emit emit_event_helper
  emit-recorder e log = refl

  pub stack_ensure-recorder :
      (stack : List Frame) (max q : ℕ) (log : Events)
      → stack_ensure (recorder s) (context stack max q log)
        ≡ done tt (context stack (grown stack max) q log)
  unfolding stack_ensure
  stack_ensure-recorder stack max q log = elim (Bool-cases (ltb (length stack) max)) [
    | inl e ↦ rw e refl
    | inr e ↦ rw e refl
  ]

  pub stack_push-recorder :
      (state : State) (schema : SchemaValue) (place : ℕ) (stack : List Frame) (max q : ℕ)
      (log log' : Events)
      → push_write_event (recorder s) state schema log ≡ done tt log'
      → stack_push (recorder s) state schema place (context stack max q log)
        ≡ done tt (context (new_frame state schema place ∷ stack) (grown stack max) q log')
  unfolding stack_push
  stack_push-recorder state schema place stack max q log log' e =
      rw (e, stack_ensure-recorder stack max q log', on_world, ◌>>=◌, ◌>>◌) refl

  -- A popped state emits its end.
  pub stack_pop-recorder :
      (f : Frame) (stack : List Frame) (max q : ℕ) (log log' : Events)
      → pop_write_event (recorder s) f.state log ≡ done tt log'
      → stack_pop (recorder s) true (context (f ∷ stack) max q log)
        ≡ done tt (context stack max q log')
  unfolding stack_pop
  stack_pop-recorder f stack max q log log' e = rw (e, on_world, ◌>>=◌, ◌>>◌) refl

  pub on_world_done :
      (m : M Events (Unit {0})) (stack : List Frame) (max q : ℕ) (log : Events) (evs : Events)
      → Emits m evs
      → on_world m (context stack max q log) ≡ done tt (context stack max q (log ++ evs))
  on_world_done m stack max q log evs h = rw (h log, on_world) refl

  pub by_type_leaf :
      (schema : SchemaValue) (t : SchemaType) (p count : ℕ) (c : SaveCtx Events)
      → is_leaf t ≡ true
      → write_by_type (recorder s) schema t p count c ≡ on_world (write_leaf s schema t p) c
  unfolding write_by_type
  by_type_leaf schema SchemaType.int p count c e = refl
  by_type_leaf schema SchemaType.uint p count c e = refl
  by_type_leaf schema SchemaType.bool p count c e = refl
  by_type_leaf schema SchemaType.enum p count c e = refl
  by_type_leaf schema SchemaType.flags p count c e = refl
  by_type_leaf schema SchemaType.float p count c e = refl
  by_type_leaf schema SchemaType.string p count c e = refl
  by_type_leaf schema SchemaType.bitfield p count c e = refl
  by_type_leaf schema SchemaType.mapping p count c e = cc
  by_type_leaf schema SchemaType.sequence p count c e = cc
  by_type_leaf schema SchemaType.sequence_fixed p count c e = cc
  by_type_leaf schema SchemaType.ignore p count c e = cc
  by_type_leaf schema SchemaType.unknown p count c e = cc

  abbrev pub list_frame : SchemaValue → ℕ → ℕ → ℕ → Frame
  list_frame schema p entry count = record (new_frame State.in_sequence schema p) {
    entry = entry;
    count = count;
  }

  abbrev pub map_frame : SchemaValue → ℕ → List Field → Frame
  map_frame schema p fields = record (new_frame State.in_map_key schema p) { fields = fields }

  pub by_type_list :
      (schema : SchemaValue) (t : SchemaType) (p count : ℕ) (stack : List Frame) (max q : ℕ)
      (log : Events)
      → is_list schema t ≡ true
      → write_by_type (recorder s) schema t p count (context stack max q log)
        ≡ done tt (
            context
              (list_frame schema p 0 count ∷ stack)
              (grown stack max)
              q
              (log ++ (sequence_start (get_emit_style_seq s.config schema) ∷ [])))
  unfolding write_by_type push_write_event
  by_type_list schema SchemaType.sequence p count stack max q log e =
      rw
        (
          stack_push-recorder State.in_sequence schema p stack max q log _ (emit-recorder _ log),
          ◌>>=◌,
          ◌>>◌,
        )
        refl
  by_type_list schema SchemaType.sequence_fixed p count stack max q log e =
      rw
        (
          e,
          stack_push-recorder State.in_sequence schema p stack max q log _ (emit-recorder _ log),
          ◌>>=◌,
          ◌>>◌,
        )
        refl
  by_type_list schema SchemaType.int p count stack max q log e = cc
  by_type_list schema SchemaType.uint p count stack max q log e = cc
  by_type_list schema SchemaType.bool p count stack max q log e = cc
  by_type_list schema SchemaType.enum p count stack max q log e = cc
  by_type_list schema SchemaType.flags p count stack max q log e = cc
  by_type_list schema SchemaType.float p count stack max q log e = cc
  by_type_list schema SchemaType.string p count stack max q log e = cc
  by_type_list schema SchemaType.bitfield p count stack max q log e = cc
  by_type_list schema SchemaType.mapping p count stack max q log e = cc
  by_type_list schema SchemaType.ignore p count stack max q log e = cc
  by_type_list schema SchemaType.unknown p count stack max q log e = cc

  pub by_type_mapping :
      (schema : SchemaValue) (p count : ℕ) (stack : List Frame) (max q : ℕ) (log : Events)
      → write_by_type (recorder s) schema SchemaType.mapping p count (context stack max q log)
        ≡ done tt (
            context
              (map_frame schema p schema.mapping.fields ∷ stack)
              (grown stack max)
              q
              (log ++ (mapping_start (get_emit_style_map s.config schema) ∷ [])))
  unfolding write_by_type push_write_event
  by_type_mapping schema p count stack max q log =
      stack_push-recorder State.in_map_key schema p stack max q log _ (emit-recorder _ log)

  module _ (schema : SchemaValue) (place count : ℕ) (c : SaveCtx Events) where
    pub write_value-null :
        target s schema place ≡ 0
        → write_value (recorder s) schema place count c
          ≡ on_world (write_null (recorder s) schema) c
    unfolding write_value
    write_value-null e = rw (data_save_handle_pointer-target s schema place ∙ e) refl

    pub write_value-by_type :
        target s schema place ≢ 0
        → write_value (recorder s) schema place count c
          ≡ write_by_type (recorder s) schema schema.type (target s schema place) count c
    unfolding write_value
    write_value-by_type ne =
        let e = ==-ne _ 0 ne in rw (data_save_handle_pointer-target s schema place, e) refl
