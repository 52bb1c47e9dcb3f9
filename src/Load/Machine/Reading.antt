-- ===== src/Load/Machine/Reading.antt =====
-- `cyaml__read_value` of src/load.c: what is on the stack after it.
use libcyaml.Base.{ℕ, ◌≡◌, refl, ap, ◌∙◌, inl, inr}
use libcyaml.Base.{Bool, true, false, ◌&&◌, List, ◌∷◌}
use libcyaml.Base.{if◌then◌else◌, Bool-cases}
use libcyaml.Outcome.{Outcome, done, failed, fault, M, ◌>>=◌, ◌>>◌, return, Ensures, Ensures-bind}
use libcyaml.Outcome.{Result-cases, lift}
use libcyaml.Schema.{SchemaType, SchemaValue}
use libcyaml.Strings.{State, is_case_sensitive}
use libcyaml.Params.{is_any_sequence, string_is_null_ptr}
use libcyaml.Load.Fields.{validate_event_type_for_schema}
use libcyaml.Load.Events.{Event}
use libcyaml.Load.Scalar.{read_scalar_value}
use libcyaml.Load.Values.{on_context, read_flags_value, read_bitfield_value, consume_ignored_value}
use libcyaml.Load.Values.Total.{consume_ignored_value-Stays}
use libcyaml.Load.Stack.{Frame, LoadCtx, Loader, on_loading, on_memory}
use libcyaml.Load.Stack.{stack_push, data_handle_pointer}
use libcyaml.Load.Machine.{read_by_type, read_value, is_scalar}
use libcyaml.Load.Machine.Values.{on_context-StaysIn, on_loading-Keeps, on_memory-Keeps}
use libcyaml.Load.Machine.Values.{
  read_flags_value-StaysIn, read_bitfield_value-StaysIn, is_plain_scalar,
  read_scalar_value-IsDefined,
}
use libcyaml.Load.Machine.Sound.{IsSound, IsSoundType, IsStack}
use libcyaml.Load.Machine.Sound.{Reads, Keeps, Holds}
use libcyaml.Load.Machine.Pushed.{push_map, push_seq, Moved, data_handle_pointer-Moved}

module _ {P H : Type 0} (l : Loader P H) (fuel : ℕ) where
  -- What keeps a good stack.
  pub keeps_held :
      {A : Type 0} (o : Outcome (LoadCtx P H) A) {st : List Frame} (top : Frame) (rest : List Frame)
      → IsStack l.config (top ∷ rest)
      → st ≡ top ∷ rest
      → Ensures (Keeps st) o
      → Ensures (Holds l.config) o
  keeps_held (done a c') top rest w e (g, k) = (g, rw (k ∙ e) w)
  keeps_held (failed x c') top rest w e k = tt
  keeps_held fault top rest w e k = k

  pub returned :
      (m : M (LoadCtx P H) (Unit {0})) (c : LoadCtx P H)
      → Ensures (Holds l.config) (m c)
      → Ensures (Holds l.config) ((m >> return true) c)
  returned m c h = Ensures-bind (Holds l.config) (Holds l.config) m _ c h (λ u c' _ k. k)

  scalar_read :
      (schema : SchemaValue) (t : SchemaType) (place : ℕ) (event : Event) (top : Frame)
      (rest : List Frame) (c : LoadCtx P H)
      → IsStack l.config (top ∷ rest)
      → Keeps {A = Unit {0}} (top ∷ rest) tt c
      → is_case_sensitive l.config schema ≡ true
      → is_plain_scalar t ≡ true
      → Ensures (Holds l.config) (
          (on_memory (read_scalar_value l.fpu l.strtod l.config l.host schema t event.value place)
              >> return true)
            c)
  scalar_read schema t place event top rest c w (g, e) exact plain =
      let m = read_scalar_value l.fpu l.strtod l.config l.host schema t event.value place in
      returned (on_memory m) c (
        keeps_held (on_memory m c) top rest w e (
          on_memory-Keeps m c g (
            read_scalar_value-IsDefined l.host schema event.value place c.loading.memory l.fpu
              l.strtod l.config t exact plain)))

  read_by_type-Holds :
      (schema : SchemaValue) (t : SchemaType) (place : ℕ) (event : Event) (top : Frame)
      (rest : List Frame) (c : LoadCtx P H)
      → IsStack l.config (top ∷ rest)
      → Reads l.config (top ∷ rest)
      → Keeps {A = Unit {0}} (top ∷ rest) tt c
      → IsSound l.config schema
      → schema.type ≡ t
      → IsSoundType schema t
      → Ensures (Holds l.config) (read_by_type l fuel schema t place event c)
  unfolding read_by_type
  read_by_type-Holds schema SchemaType.flags place event top rest c w r (g, e) sound is (p, q) =
      let m = read_flags_value l.parse l.realloc l.event_size l.config schema fuel l.host place in
      keeps_held (on_loading m c) top rest w e (
        on_loading-Keeps m c (
          read_flags_value-StaysIn l.parse l.realloc l.event_size l.config schema sound.0 fuel
            l.host place c.loading g p q))
  read_by_type-Holds schema SchemaType.bitfield place event top rest c w r (g, e) sound is
        (q, wide) =
      let m =
        read_bitfield_value l.parse l.realloc l.event_size l.config schema fuel l.host place in
      keeps_held (on_loading m c) top rest w e (
        on_loading-Keeps m c (
          read_bitfield_value-StaysIn l.parse l.realloc l.event_size l.config schema sound.0 fuel
            l.host place c.loading g q wide))
  read_by_type-Holds schema SchemaType.mapping place event top rest c w r kept sound is few =
      returned (stack_push l State.in_map_key schema place) c
        (push_map l top rest w schema place c sound few r.0 kept)
  read_by_type-Holds schema SchemaType.sequence place event top rest c w r kept sound is u =
      returned (stack_push l State.in_sequence schema place) c
        (push_seq l top rest w schema place c sound (ap is_any_sequence is) r kept)
  read_by_type-Holds schema SchemaType.sequence_fixed place event top rest c w r kept sound is u =
      returned (stack_push l State.in_sequence schema place) c
        (push_seq l top rest w schema place c sound (ap is_any_sequence is) r kept)
  read_by_type-Holds schema SchemaType.ignore place event top rest c w r (g, e) sound is u =
      let m = consume_ignored_value l.parse l.realloc l.event_size fuel event.type in
      keeps_held (on_loading (on_context m) c) top rest w e (
        on_loading-Keeps (on_context m) c (
          on_context-StaysIn m c.loading (
            consume_ignored_value-Stays l.parse l.realloc l.event_size fuel event.type
              c.loading.context g)))
  read_by_type-Holds schema SchemaType.bool place event top rest c w r kept sound is u = absurd u
  read_by_type-Holds schema SchemaType.unknown place event top rest c w r kept sound is u = tt
  read_by_type-Holds schema SchemaType.int place event top rest c w r kept sound is u =
      scalar_read schema SchemaType.int place event top rest c w kept sound.0 refl
  read_by_type-Holds schema SchemaType.uint place event top rest c w r kept sound is u =
      scalar_read schema SchemaType.uint place event top rest c w kept sound.0 refl
  read_by_type-Holds schema SchemaType.enum place event top rest c w r kept sound is u =
      scalar_read schema SchemaType.enum place event top rest c w kept sound.0 refl
  read_by_type-Holds schema SchemaType.float place event top rest c w r kept sound is u =
      scalar_read schema SchemaType.float place event top rest c w kept sound.0 refl
  read_by_type-Holds schema SchemaType.string place event top rest c w r kept sound is u =
      scalar_read schema SchemaType.string place event top rest c w kept sound.0 refl

  -- The value of a schema is read where a value may stand.
  pub read_value-Holds :
      (schema : SchemaValue) (place : ℕ) (event : Event) (top : Frame) (rest : List Frame)
      (c : LoadCtx P H)
      → IsStack l.config (top ∷ rest)
      → Reads l.config (top ∷ rest)
      → Keeps {A = Unit {0}} (top ∷ rest) tt c
      → IsSound l.config schema
      → Ensures (Holds l.config) (read_value l fuel schema place event c)
  unfolding read_value
  read_value-Holds schema place event top rest c w r kept sound =
      elim (Bool-cases (is_scalar event.type && string_is_null_ptr schema event.value)) [
        | inl e ↦ rw e (kept.0, rw kept.1 w)
        | inr e ↦
            rw e (elim (Result-cases (validate_event_type_for_schema schema.type event.type)) [
              | inl (x, k) ↦ rw (k, ◌>>=◌, lift) tt
              | inr (u, k) ↦ rw (k, ◌>>=◌, lift) (reading (is_any_sequence schema.type))
            ])
      ]
    where
      reading :
          (b : Bool)
          → Ensures (Holds l.config) (
              ((if b then return place else data_handle_pointer l schema event.value place)
                  >>= λ target. read_by_type l fuel schema schema.type target event)
                c)
      reading true =
          read_by_type-Holds schema schema.type place event top rest c w r kept sound refl sound.1
      reading false =
          Ensures-bind (Moved l top rest w) (Holds l.config)
            (data_handle_pointer l schema event.value place) _ c
            (data_handle_pointer-Moved l top rest w schema event.value place c kept)
            (λ target c1 _ (g1, (x, e1)).
              read_by_type-Holds schema schema.type target event (record top { seq_data = x }) rest
                c1 w r (g1, e1) sound refl sound.1)
