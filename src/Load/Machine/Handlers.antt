-- ===== src/Load/Machine/Handlers.antt =====
-- The other handlers of src/load.c: what is on the stack after them.
use libcyaml.Base.{ℕ, ◌+◌, ◌*◌, ◌%◌, ◌^◌, ◌≤◌, ◌≡◌, refl, arith, inl, inr}
use libcyaml.Base.{Bool, Option, List, [], ◌∷◌, get_elem?-in_range}
use libcyaml.Base.{◌==◌, ltb, if◌then◌else◌, Bool-cases}
use libcyaml.Errors.{Result, invalid_value}
use libcyaml.Outcome.{◌>>=◌, raise, Ensures, Ensures-bind}
use libcyaml.Schema.{Config}
use libcyaml.Strings.{State}
use libcyaml.Data.{data_write}
use libcyaml.Memory.{Memory}
use libcyaml.Load.Events.{Event}
use libcyaml.Load.Events.Invariant.{Good}
use libcyaml.Load.Scalar.{stores}
use libcyaml.Load.Stack.{Frame, LoadCtx, Loader, new_frame, stack_pop, stack_push}
use libcyaml.Load.Stack.{data_handle_pointer}
use libcyaml.Load.Machine.{
  handle_doc_start, handle_map_value, handle_seq_entry, handle_seq_end, write_count,
}
use libcyaml.Load.Machine.{refuses, is_type_fixed}
use libcyaml.Load.Machine.Values.{on_memory-Keeps, stores-IsDefined}
use libcyaml.Load.Machine.Sound.{IsInState, Under, IsStack}
use libcyaml.Load.Machine.Sound.{Keeps, Holds, IsLoader}
use libcyaml.Load.Machine.Pushed.{ensure_pushed, Moved, data_handle_pointer-Moved}
use libcyaml.Load.Machine.Reading.{read_value-Holds}
use libcyaml.Load.Machine.Mapping.{stack_pop-Holds}

Under-key :
    (config : Config) (rest : List Frame)
    → Under config State.in_map_value rest
    → Under config State.in_map_key rest
Under-key config [] e = cc
Under-key config (f ∷ rest) h = h

module _ {P H : Type 0} (l : Loader P H) (good : IsLoader l) (fuel : ℕ) where
  module _ (top : Frame) (rest : List Frame) (w : IsStack l.config (top ∷ rest)) (c : LoadCtx P H)
      (kept : Keeps {A = Unit {0}} (top ∷ rest) tt c) where
    pub stream_start_ok :
        top.state ≡ State.start
        → Ensures (Holds l.config) (stack_push l State.in_stream top.schema top.data_at c)
    unfolding stack_push
    stream_start_ok is =
        ensure_pushed l (new_frame State.in_stream top.schema top.data_at) c kept.0
          (w.0.0, omega arith) (rw kept.1 (rw is refl, w.0, w.1))

    pub doc_start_ok :
        top.state ≡ State.in_stream → Ensures (Holds l.config) (handle_doc_start l top c)
    unfolding handle_doc_start stack_push
    doc_start_ok is =
        let few : top.doc_count ≤ 1 = rw is at w.0.1 in
        elim (Bool-cases (top.doc_count == 1)) [
          | inl e ↦ rw e (stack_pop-Holds l good top rest c w kept (λ k. cc))
          | inr e ↦
              let top' = record top { doc_count = (top.doc_count + 1) % 2 ^ 32 } in
              let one : (top.doc_count + 1) % 2 ^ 32 ≤ 1 = ground (arith, few, e) in
              rw (e, ◌>>=◌, kept.1)
                (ensure_pushed l (new_frame State.in_doc top.schema top.data_at)
                  (record c { stack = top' ∷ rest }) kept.0 (w.0.0, tt)
                  (rw is refl, (w.0.0, rw is one), w.1))
        ]

    pub map_value_ok :
        (event : Event)
        → top.state ≡ State.in_map_value
        → Ensures (Holds l.config) (handle_map_value l fuel top event c)
    unfolding handle_map_value
    map_value_ok event is =
        let (words, lt) : IsInState top State.in_map_value = rw is at w.0.1 in
        let (field, at) = get_elem?-in_range top.schema.mapping.fields top.fields_idx lt in
        rw (handle_map_value, at, ◌>>=◌, kept.1)
          (read_value-Holds l fuel (l.schemas field.value) (top.data_at + field.data_offset) event
            (record top { state = State.in_map_key }) rest
            (record c { stack = record top { state = State.in_map_key } ∷ rest })
            ((w.0.0, words), Under-key l.config rest (rw is at w.1)) (refl, λ k. lt) (kept.0, refl)
            (good.sound field.value))

    pub seq_end_ok :
        top.state ≡ State.in_sequence → Ensures (Holds l.config) (handle_seq_end l top c)
    unfolding handle_seq_end
    seq_end_ok is = elim (Bool-cases (ltb top.count top.schema.sequence.min)) [
      | inl e ↦ rw e tt
      | inr e ↦ rw e (popped _)
    ]
      where
        popped :
            (o : Option Bool)
            → Ensures (Holds l.config) ((if refuses o then raise invalid_value else stack_pop) c)
        popped o = elim (Bool-cases (refuses o)) [
          | inl k ↦ rw k tt
          | inr k ↦ rw k (stack_pop-Holds l good top rest c w kept (λ q. cc))
        ]

  write_count-Keeps :
      (top : Frame) (count : ℕ) (c : LoadCtx P H)
      → Good c.loading.context
      → Ensures (Keeps c.stack) (write_count l top count c)
  unfolding write_count
  write_count-Keeps top count c g = elim (Bool-cases (is_type_fixed top.schema.type)) [
    | inl e ↦ rw e (g, refl)
    | inr e ↦
        let f : Memory → Result Memory = data_write l.host count top.count_size top.count_data in
        rw e (on_memory-Keeps (stores f) c g (stores-IsDefined f c.loading.memory))
  ]

  pub seq_entry_ok :
      (top : Frame) (rest : List Frame) (event : Event) (c : LoadCtx P H)
      → IsStack l.config (top ∷ rest)
      → top.state ≡ State.in_sequence
      → Keeps {A = Unit {0}} (top ∷ rest) tt c
      → Ensures (Holds l.config) (handle_seq_entry l fuel top event c)
  unfolding handle_seq_entry
  seq_entry_ok top rest event c w is kept =
      let count = (top.count + 1) % 2 ^ 32 in
      elim (Bool-cases (ltb top.schema.sequence.max count)) [
        | inl e ↦ rw e tt
        | inr e ↦
            let le : count ≤ top.schema.sequence.max = ground (arith, e) in
            rw e (
              Ensures-bind (Moved l top rest w) (Holds l.config)
                (data_handle_pointer l top.schema event.value top.data_at) _ c
                (data_handle_pointer-Moved l top rest w top.schema event.value top.data_at c kept)
                (λ start c1 _ (g1, (x, e1)).
                  let top' = record top { seq_data = x; count = count } in
                  let c2 = record c1 { stack = top' ∷ rest } in
                  rw (e1, ◌>>=◌)
                    (Ensures-bind (Keeps c2.stack) (Holds l.config) (write_count l top count) _ c2
                      (write_count-Keeps top count c2 g1)
                      (λ u c3 _ k3.
                        read_value-Holds l fuel (l.schemas top.schema.sequence.entry)
                          (start + top.schema.data_size * top.count % 2 ^ 32) event top' rest c3
                          ((w.0.0, rw is le), w.1) (rw is refl, λ q. absurd (cc)) k3
                          (good.sound top.schema.sequence.entry)))))
      ]
