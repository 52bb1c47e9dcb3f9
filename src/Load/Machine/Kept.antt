-- ===== src/Load/Machine/Kept.antt =====
-- The loop of `cyaml__load` of src/load.c: what is on the stack after it, on any events.
use libcyaml.Base.{ℕ, zero, suc, ◌≡◌, refl}
use libcyaml.Base.{Bool, true, false, not, none, some, List, [], ◌∷◌}
use libcyaml.Base.{if◌then◌else◌}
use libcyaml.Errors.{internal_error}
use libcyaml.Outcome.{M, ◌>>=◌, ◌>>◌, return, raise, Ensures, Ensures-bind}
use libcyaml.Schema.{SchemaValue}
use libcyaml.Strings.{State}
use libcyaml.Memory.{Memory}
use libcyaml.Params.{load_event_handler}
use libcyaml.Load.Events.{Event, EventType, Ctx}
use libcyaml.Load.Events.Invariant.{Good}
use libcyaml.Load.Values.{on_context, next}
use libcyaml.Load.Values.Total.{next-Stays}
use libcyaml.Load.Stack.{
  Frame, LoadCtx, Loader, new_frame, top_state, stack_pop, stack_push, on_loading,
}
use libcyaml.Load.Machine.{
  handle_doc_start, handle_map_value, handle_seq_entry, handle_seq_end, handle_map_end, handle,
  load_event,
}
use libcyaml.Load.Machine.{step, run, load_body, initial, read_value}
use libcyaml.Load.Machine.Values.{on_context-StaysIn, on_loading-Keeps}
use libcyaml.Load.Machine.Sound.{IsSound, Under, IsStack}
use libcyaml.Load.Machine.Sound.{Keeps, Holds, IsLoader}
use libcyaml.Load.Machine.Pushed.{top_state-cons, ensure_pushed}
use libcyaml.Load.Machine.Reading.{returned, read_value-Holds}
use libcyaml.Load.Machine.Mapping.{stack_pop-Holds, handle_map_end-Holds, handle_map_key-Holds}
use libcyaml.Load.Machine.Handlers.{
  stream_start_ok, doc_start_ok, map_value_ok, seq_end_ok, seq_entry_ok,
}

module _ {P H : Type 0} (l : Loader P H) (good : IsLoader l) (fuel : ℕ) where
  module _ (top : Frame) (rest : List Frame) (event : Event) (c : LoadCtx P H)
      (w : IsStack l.config (top ∷ rest)) (kept : Keeps {A = Unit {0}} (top ∷ rest) tt c) where
    root_value :
        top.state ≡ State.in_doc
        → Ensures (Holds l.config) (read_value l fuel top.schema top.data_at event c)
    root_value is =
        read_value-Holds l fuel top.schema top.data_at event top rest c w
          (rw is refl, λ q. absurd (cc)) kept w.0.0

    entry :
        top.state ≡ State.in_sequence
        → Ensures (Holds l.config) (handle_seq_entry l fuel top event c)
    entry is = seq_entry_ok l good fuel top rest event c w is kept

    value :
        top.state ≡ State.in_map_value
        → Ensures (Holds l.config) (handle_map_value l fuel top event c)
    value is = map_value_ok l good fuel top rest w c kept event is

    -- The table of `cyaml__load_event`, by the state on top and the event.
    dispatched :
        (s : State) (t : EventType)
        → top.state ≡ s
        → Ensures (Holds l.config) (
            (elim (load_event_handler s t) as (λ _. M (LoadCtx P H) Bool) [
              | none ↦ raise internal_error
              | some h ↦ handle l fuel top event h
            ])
              c)
    unfolding load_event_handler handle
    dispatched State.start EventType.strm_start is =
        returned l fuel (stack_push l State.in_stream top.schema top.data_at) c
          (stream_start_ok l good fuel top rest w c kept is)
    dispatched State.in_stream EventType.doc_start is =
        returned l fuel (handle_doc_start l top) c (doc_start_ok l good fuel top rest w c kept is)
    dispatched State.in_stream EventType.strm_end is =
        returned l fuel stack_pop c (stack_pop-Holds l good top rest c w kept (λ q. cc))
    dispatched State.in_doc EventType.scalar is = root_value is
    dispatched State.in_doc EventType.seq_start is = root_value is
    dispatched State.in_doc EventType.map_start is = root_value is
    dispatched State.in_doc EventType.doc_end is =
        returned l fuel stack_pop c (stack_pop-Holds l good top rest c w kept (λ q. cc))
    dispatched State.in_map_key EventType.scalar is =
        handle_map_key-Holds l good fuel top rest is w event c w.0.0.0 (rw is at w.0.1) kept
    dispatched State.in_map_key EventType.map_end is =
        returned l fuel (handle_map_end l top) c
          (handle_map_end-Holds l good top rest c w (rw is at w.0.1) (λ q. cc) kept)
    dispatched State.in_map_value EventType.scalar is = value is
    dispatched State.in_map_value EventType.seq_start is = value is
    dispatched State.in_map_value EventType.map_start is = value is
    dispatched State.in_sequence EventType.scalar is = entry is
    dispatched State.in_sequence EventType.seq_start is = entry is
    dispatched State.in_sequence EventType.map_start is = entry is
    dispatched State.in_sequence EventType.seq_end is =
        returned l fuel (handle_seq_end l top) c (seq_end_ok l good fuel top rest w c kept is)
    dispatched State.start _ is = tt
    dispatched State.in_stream _ is = tt
    dispatched State.in_doc _ is = tt
    dispatched State.in_map_key _ is = tt
    dispatched State.in_map_value _ is = tt
    dispatched State.in_sequence _ is = tt
    dispatched State.invalid _ is = tt

  load_event-Holds :
      (event : Event) (st : List Frame) (c : LoadCtx P H)
      → c.stack ≡ st
      → Good c.loading.context
      → IsStack l.config st
      → Ensures (Holds l.config) (load_event l fuel event c)
  unfolding load_event
  load_event-Holds event [] c e g w = absurd w
  load_event-Holds event (top ∷ rest) c e g w =
      rw (load_event, top_state-cons c e, ◌>>=◌)
        (dispatched top rest event c w (g, e) top.state event.type refl)

  -- From a good state, one round of the loop of `cyaml__load` returns or fails in a good state, without
  -- undefined behaviour.
  pub step-Holds :
      (c : LoadCtx P H)
      → Good c.loading.context
      → IsStack l.config c.stack
      → Ensures (Holds l.config) (step l fuel c)
  unfolding step
  step-Holds c g w =
      let m : M (Ctx P H) Event = next l.parse l.realloc l.event_size in
      Ensures-bind (Keeps c.stack) (Holds l.config) (on_loading (on_context m)) _ c
        (on_loading-Keeps (on_context m) c (
          on_context-StaysIn m c.loading
            (next-Stays l.parse l.realloc l.event_size c.loading.context g)))
        (λ event c1 _ (g1, e1). load_event-Holds event c.stack c1 e1 g1 w)

  -- When the loop has ended, the first state is all that is on the stack.
  abbrev Ended : Bool → LoadCtx P H → Type 0
  Ended ended c =
      Holds {A = Unit {0}} l.config tt c × (ended ≡ true → (f : Frame) × (c.stack ≡ f ∷ []))

  alone :
      (top : Frame) (rest : List Frame)
      → Under l.config State.start rest
      → (f : Frame) × (top ∷ rest ≡ f ∷ [])
  alone top [] u = (top, refl)
  alone top (g ∷ rest) u = cc

  module _ (n : ℕ)
      (more : (c : LoadCtx P H)
        → Good c.loading.context
        → IsStack l.config c.stack
        → Ensures Ended (run l fuel n c)) where
    continued :
        (s : State) (top : Frame) (rest : List Frame) (c : LoadCtx P H)
        → c.stack ≡ top ∷ rest
        → top.state ≡ s
        → Good c.loading.context
        → IsStack l.config (top ∷ rest)
        → Ensures Ended (
            (elim s as (λ _. M (LoadCtx P H) Bool) [ State.start ↦ return true | _ ↦ run l fuel n ])
              c)
    continued State.start top rest c e is g w =
        ((g, rw e w), λ _. rw e (alone top rest (rw is at w.1)))
    continued _ top rest c e is g w = more c g (rw e w)

    after :
        (enough : Bool) (st : List Frame) (c : LoadCtx P H)
        → c.stack ≡ st
        → Good c.loading.context
        → IsStack l.config st
        → Ensures Ended (
            (top_state >>= λ top.
            if not enough then return false else elim top.state as (λ _. M (LoadCtx P H) Bool) [
              | State.start ↦ return true
              | _ ↦ run l fuel n
            ])
              c)
    after enough [] c e g w = absurd w
    after true (top ∷ rest) c e g w =
        rw (top_state-cons c e, ◌>>=◌) (continued top.state top rest c e refl g w)
    after false (top ∷ rest) c e g w = rw (top_state-cons c e, ◌>>=◌) ((g, rw e w), λ k. cc)

  run-Ended :
      (n : ℕ) (c : LoadCtx P H)
      → Good c.loading.context
      → IsStack l.config c.stack
      → Ensures Ended (run l fuel n c)
  unfolding run
  run-Ended zero c g w = ((g, w), λ k. cc)
  run-Ended (suc n) c g w =
      Ensures-bind (Holds l.config) Ended (step l fuel) _ c (step-Holds c g w)
        (λ enough c1 _ (g1, w1). after n (run-Ended n) enough c1.stack c1 refl g1 w1)

  -- After the loop: no state is left if it ended, and good ones are if it did not.
  abbrev pub Finished : Bool → LoadCtx P H → Type 0
  Finished ended c =
      Good c.loading.context
      × (ended ≡ true → c.stack ≡ [])
      × (ended ≡ false → IsStack l.config c.stack)

  -- Loading keeps its stack of states in order. For an event context that is in order, and schemas that
  -- compare keys by case, have no truth values, at most 65534 fields in a mapping, flags and bit fields
  -- of valid sizes, and no defaults of mappings and sequences: on any events, the body of `cyaml__load`
  -- fails with an error, or runs out of the given rounds with states that may stand on each other, each
  -- with a bit field for all its fields and no more entries than its schema allows, or ends with an
  -- empty stack, as its assertion says. No state is taken from an empty stack, no index of a field, of
  -- a word of a bit field or of a recorded event is out of range, and no shift is by too much. Of the
  -- addresses in the client's data it says nothing.
  pub load_body-Finished :
      (n : ℕ) (schema : SchemaValue) (context : Ctx P H) (m : Memory)
      → Good context
      → IsSound l.config schema
      → Ensures Finished (load_body l fuel n schema (initial l context m))
  unfolding load_body stack_push
  load_body-Finished n schema context m g sound =
      Ensures-bind (Holds l.config) Finished (stack_push l State.start schema l.variable) _
        (initial l context m)
        (ensure_pushed l (new_frame State.start schema l.variable) (initial l context m) g
          (sound, tt) refl)
        (λ u c1 _ (g1, w1).
          Ensures-bind Ended Finished (run l fuel n) _ c1 (run-Ended n c1 g1 w1)
            (λ ended c2 _ ((g2, w2), last). finished ended c2 g2 w2 last))
    where
      finished :
          (ended : Bool) (c : LoadCtx P H)
          → Good c.loading.context
          → IsStack l.config c.stack
          → (ended ≡ true → (f : Frame) × (c.stack ≡ f ∷ []))
          → Ensures Finished (((if ended then stack_pop else return tt) >> return ended) c)
      finished true c g w last =
          let (f, e) = last refl in rw (stack_pop, e, ◌>>=◌, ◌>>◌) (g, (λ k. refl), λ k. cc)
      finished false c g w last = (g, (λ k. cc), λ k. w)
