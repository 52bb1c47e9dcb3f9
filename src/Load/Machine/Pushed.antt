-- ===== src/Load/Machine/Pushed.antt =====
-- src/load.c, pushing a state and allocating a value: what is on the stack after them.
use libcyaml.Base.{
  ℕ, zero, suc, ◌+◌, ◌*◌, ◌/◌, ◌%◌, ◌-◌, ◌^◌, ◌≤◌, ◌<◌, ◌≡◌, refl, ◌∙◌, arith, inl, inr,
}
use libcyaml.Base.{true, List, ◌∷◌, length, get_elem?-in_range}
use libcyaml.Base.{◌==◌, ltb, Bool-cases, replicate}
use libcyaml.Outcome.{done, ◌>>=◌, ◌>>◌, Ensures, Ensures-bind}
use libcyaml.Outcome.{Option-cases}
use libcyaml.Schema.{Bytes, SchemaType, SchemaValue}
use libcyaml.Schema.Flag
use libcyaml.Strings.{State, has_flag}
use libcyaml.Params.{is_any_sequence}
use libcyaml.Load.Fields.{mapping_bitfield_create}
use libcyaml.Load.Events.Invariant.{Good}
use libcyaml.Load.Stack.{Frame, LoadCtx, Loader, new_frame, top_state, change_top, push_frame}
use libcyaml.Load.Stack.{
  stack_ensure, create_fields_set, count_place, push_sequence, stack_push, extend,
}
use libcyaml.Load.Stack.{allocate_value, data_handle_pointer, mapping_field_count}
use native.Mathlib.Nat.{mod-eq_of_lt}
use libcyaml.Load.Machine.Sound.{IsSound, takes_value, IsFrame, Under, IsStack}
use libcyaml.Load.Machine.Sound.{Reads, Keeps, Holds}

length-replicate : (n : ℕ) (x : ℕ) → length (replicate n x) ≡ n
length-replicate zero x = refl
length-replicate (suc n) x = omega (arith, length-replicate n x)

module _ {P H : Type 0} where
  pub top_state-cons :
      (c : LoadCtx P H) {top : Frame} {rest : List Frame}
      → c.stack ≡ top ∷ rest
      → top_state c ≡ done top c
  top_state-cons c e = rw e refl

  pub change_top-cons :
      (f : Frame → Frame) (c : LoadCtx P H) {top : Frame} {rest : List Frame}
      → c.stack ≡ top ∷ rest
      → change_top f c ≡ done tt (record c { stack = f top ∷ rest })
  change_top-cons f c e = rw e refl

module _ {P H : Type 0} (l : Loader P H) where
  stack_ensure-Keeps :
      (c : LoadCtx P H) → Good c.loading.context → Ensures (Keeps c.stack) (stack_ensure l c)
  unfolding stack_ensure
  stack_ensure-Keeps c g = elim (Bool-cases (ltb (length c.stack) c.stack_max)) [
    | inl e ↦ rw e (g, refl)
    | inr e ↦
        let asked = l.realloc c.loading.context.heap (64 * ((c.stack_max + 16) % 2 ^ 32)) in
        elim (Bool-cases asked.0) [ inl k ↦ rw (e, k) (g, refl) | inr k ↦ rw (e, k) tt ]
  ]

  create_fields_set-Keeps :
      (count : ℕ) (c : LoadCtx P H)
      → Good c.loading.context
      → Ensures
          (λ words c'. Keeps c.stack words c' × (count ≤ 32 * length words))
          (create_fields_set l count c)
  unfolding create_fields_set mapping_bitfield_create
  create_fields_set-Keeps count c g =
      let words = (count + 32 - 1) / 32 in
      elim (Bool-cases (count == 0)) [
        | inl e ↦ rw (create_fields_set, e) ((g, refl), ground (arith, e))
        | inr e ↦ elim (Bool-cases (l.realloc c.loading.context.heap (words * 4)).0) [
          | inl k ↦
              rw (create_fields_set, e, k) ((g, refl), omega (arith, length-replicate words 0))
          | inr k ↦ rw (create_fields_set, e, k) tt
        ]
      ]

  -- A frame is pushed on a good stack.
  pushed :
      (f : Frame) (st : List Frame) (c : LoadCtx P H)
      → IsFrame l.config f
      → Under l.config f.state st
      → Keeps {A = Unit {0}} st tt c
      → Ensures (Holds l.config) (push_frame f c)
  pushed f st c k under (g, e) = (g, rw e (k, under))

  pub ensure_pushed :
      (f : Frame) (c : LoadCtx P H)
      → Good c.loading.context
      → IsFrame l.config f
      → Under l.config f.state c.stack
      → Ensures (Holds l.config) ((stack_ensure l >>= λ _. push_frame f) c)
  ensure_pushed f c g k under =
      Ensures-bind (Keeps c.stack) (Holds l.config) (stack_ensure l) _ c (stack_ensure-Keeps c g)
        (λ u c' _ kept. pushed f c.stack c' k under kept)

  module _ (top : Frame) (rest : List Frame) (w : IsStack l.config (top ∷ rest)) where
    pub push_map :
        (schema : SchemaValue) (place : ℕ) (c : LoadCtx P H)
        → IsSound l.config schema
        → length schema.mapping.fields < 2 ^ 16 - 1
        → takes_value top.state ≡ true
        → Keeps {A = Unit {0}} (top ∷ rest) tt c
        → Ensures (Holds l.config) (stack_push l State.in_map_key schema place c)
    unfolding stack_push
    push_map schema place c sound few takes (g, e) =
        let few16 : length schema.mapping.fields < 2 ^ 16 = omega (arith, few) in
        Ensures-bind (Keeps c.stack) (Holds l.config) (stack_ensure l) _ c (stack_ensure-Keeps c g)
          (λ u c1 _ (g1, e1).
            Ensures-bind
              (λ words c2.
                Keeps c1.stack words c2 × (mapping_field_count schema ≤ 32 * length words))
              (Holds l.config) (create_fields_set l (mapping_field_count schema)) _ c1
              (create_fields_set-Keeps (mapping_field_count schema) c1 g1)
              (λ words c2 _ ((g2, e2), enough).
                pushed (record (new_frame State.in_map_key schema place) { fields_set = words })
                  (top ∷ rest) c2 (sound, (few, rw (mod-eq_of_lt few16) at enough))
                  (takes, w.0, w.1) (g2, e2 ∙ e1 ∙ e)))

    count_place-Keeps :
        (c : LoadCtx P H) (s : State)
        → takes_value s ≡ true
        → (s ≡ State.in_map_key → top.fields_idx < length top.schema.mapping.fields)
        → Good c.loading.context
        → Ensures (Keeps c.stack) (count_place l top s c)
    unfolding count_place
    count_place-Keeps c State.in_sequence takes field g = tt
    count_place-Keeps c State.in_doc takes field g = (g, refl)
    count_place-Keeps c State.in_map_key takes field g =
        let (f, at) = get_elem?-in_range top.schema.mapping.fields top.fields_idx (field refl) in
        rw (count_place, at) (g, refl)
    count_place-Keeps c _ takes field g = cc

    push_sequence-Holds :
        (schema : SchemaValue) (t : SchemaType) (place : ℕ) (c : LoadCtx P H)
        → IsSound l.config schema
        → is_any_sequence t ≡ true
        → Reads l.config (top ∷ rest)
        → Keeps {A = Unit {0}} (top ∷ rest) tt c
        → Ensures (Holds l.config) (push_sequence l schema t place c)
    unfolding push_sequence
    push_sequence-Holds schema SchemaType.sequence_fixed place c sound is (takes, field) kept =
        elim (Bool-cases (schema.sequence.min == schema.sequence.max)) [
          | inr k ↦ rw k tt
          | inl k ↦ rw k (
              pushed (new_frame State.in_sequence schema place) (top ∷ rest) c (sound, omega arith)
                (takes, w.0, w.1) kept)
        ]
    push_sequence-Holds schema SchemaType.sequence place c sound is (takes, field) (g, e) =
        Ensures-bind (λ t c1. (t ≡ top) × Keeps {A = Unit {0}} (top ∷ rest) tt c1) (Holds l.config)
          top_state _ c (rw (top_state-cons c e) (refl, (g, e)))
          (λ t c1 _ (same, (g1, e1)).
            Ensures-bind (Keeps c1.stack) (Holds l.config) (count_place l t t.state) _ c1
              (rw same (count_place-Keeps c1 top.state takes field g1))
              (λ at c2 _ (g2, e2).
                pushed
                  (record (new_frame State.in_sequence schema place) {
                    count_data = at.0;
                    count_size = at.1;
                  })
                  (top ∷ rest) c2 (sound, omega arith) (takes, w.0, w.1) (g2, e2 ∙ e1)))
    push_sequence-Holds schema _ place c sound is reads kept = cc

    pub push_seq :
        (schema : SchemaValue) (place : ℕ) (c : LoadCtx P H)
        → IsSound l.config schema
        → is_any_sequence schema.type ≡ true
        → Reads l.config (top ∷ rest)
        → Keeps {A = Unit {0}} (top ∷ rest) tt c
        → Ensures (Holds l.config) (stack_push l State.in_sequence schema place c)
    unfolding stack_push
    push_seq schema place c sound is reads (g, e) =
        Ensures-bind (Keeps c.stack) (Holds l.config) (stack_ensure l) _ c (stack_ensure-Keeps c g)
          (λ u c1 _ (g1, e1).
            push_sequence-Holds schema schema.type place c1 sound is reads (g1, e1 ∙ e))

    -- The stack is as it was, but that the top frame may have another address of its entries.
    abbrev pub Moved {κ} : {A : Type κ} → A → LoadCtx P H → Type 0
    Moved a c = Good c.loading.context × ((x : ℕ) × (c.stack ≡ record top { seq_data = x } ∷ rest))

    extend-Moved :
        (t : SchemaType) (ptr offset delta place : ℕ) (c : LoadCtx P H)
        → Keeps {A = Unit {0}} (top ∷ rest) tt c
        → Ensures Moved (extend l t ptr offset delta place c)
    unfolding extend
    extend-Moved t ptr offset delta place c (g, e) =
        elim (Option-cases (l.resize c.loading.context.heap ptr ((offset + delta) % 2 ^ 64)).0) [
          | inl k ↦ rw (extend, k) tt
          | inr (p, k) ↦
              rw (extend, k)
                (elim (Bool-cases (is_any_sequence t)) [
                  | inl seq ↦ rw (seq, e, ◌>>=◌, ◌>>◌) (g, (p, refl))
                  | inr other ↦ rw (other, ◌>>=◌, ◌>>◌) (g, (top.seq_data, e))
                ])
        ]

    allocate_value-Moved :
        (schema : SchemaValue) (t : SchemaType) (text : Bytes) (place : ℕ) (c : LoadCtx P H)
        → Keeps {A = Unit {0}} (top ∷ rest) tt c
        → Ensures Moved (allocate_value l schema t text place c)
    unfolding allocate_value
    allocate_value-Moved schema SchemaType.string text place c kept =
        extend-Moved SchemaType.string 0 0 (length text + 1) place c kept
    allocate_value-Moved schema SchemaType.sequence text place c (g, e) =
        Ensures-bind (λ t c1. Keeps {A = Unit {0}} (top ∷ rest) tt c1) Moved top_state _ c
          (rw (top_state-cons c e) (g, e))
          (λ t c1 _ kept.
            extend-Moved SchemaType.sequence t.seq_data (schema.data_size * t.count % 2 ^ 64)
              schema.data_size place c1 kept)
    allocate_value-Moved schema SchemaType.sequence_fixed text place c (g, e) =
        Ensures-bind (λ t c1. Keeps {A = Unit {0}} (top ∷ rest) tt c1) Moved top_state _ c
          (rw (top_state-cons c e) (g, e))
          (λ t c1 _ kept. elim (Bool-cases (ltb 0 t.count)) [
            | inl k ↦ rw k (kept.0, (top.seq_data, kept.1))
            | inr k ↦ rw k (
                extend-Moved SchemaType.sequence_fixed 0 0
                  (schema.data_size * schema.sequence.max % 2 ^ 64) place c1 kept)
          ])
    allocate_value-Moved schema t text place c kept =
        extend-Moved t 0 0 schema.data_size place c kept

    pub data_handle_pointer-Moved :
        (schema : SchemaValue) (text : Bytes) (place : ℕ) (c : LoadCtx P H)
        → Keeps {A = Unit {0}} (top ∷ rest) tt c
        → Ensures Moved (data_handle_pointer l schema text place c)
    unfolding data_handle_pointer
    data_handle_pointer-Moved schema text place c kept =
        elim (Bool-cases (has_flag schema.flags Flag.pointer)) [
          | inl k ↦ rw k (allocate_value-Moved schema schema.type text place c kept)
          | inr k ↦ rw k (kept.0, (top.seq_data, kept.1))
        ]
