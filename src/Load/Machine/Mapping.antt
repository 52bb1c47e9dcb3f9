-- ===== src/Load/Machine/Mapping.antt =====
-- The handlers of src/load.c for the keys and the end of a mapping: what is on the stack after them.
use mathlib.Core.Path.{subst}
use libcyaml.Base.{
  ℕ, zero, suc, ◌+◌, ◌*◌, ◌/◌, ◌%◌, ◌^◌, ◌≤◌, ◌<◌, ◌≡◌, ◌≢◌, refl, ◌∙◌, arith, inl, inr,
}
use libcyaml.Base.{
  Bool, true, false, not, Option, some, List, [], ◌∷◌, length, get_elem?, get_elem?-in_range,
}
use libcyaml.Base.{◌==◌, if◌then◌else◌, Bool-cases, set, take, bit_and, bit_or, length-set}
use libcyaml.Errors.{invalid_value}
use libcyaml.Outcome.{Outcome, M, ◌>>=◌, return, raise, Ensures, Ensures-bind}
use libcyaml.Schema.{SchemaType, SchemaValue, Config, Field}
use libcyaml.Schema.Flag
use libcyaml.Schema.CfgFlag
use libcyaml.Strings.{State, has_flag, is_case_sensitive}
use libcyaml.Data.{data_write}
use libcyaml.Load.Store.{flag_check_all}
use libcyaml.Load.Fields.{
  fields_idx_none, get_mapping_field_idx, mapping_bitfield_set, mapping_bitfield_check,
  field_scalar_apply_default,
}
use libcyaml.Load.Fields.Key.{Located, found, missing, get_mapping_field_idx-Located}
use libcyaml.Load.Events.{Event, Ctx}
use libcyaml.Load.Events.Invariant.{Good}
use libcyaml.Load.Scalar.{stores}
use libcyaml.Load.Values.{on_context, next, consume_ignored_value}
use libcyaml.Load.Values.Total.{Stays, next-Stays, consume_ignored_value-Stays}
use libcyaml.Load.Stack.{
  Frame, LoadCtx, Loader, change_top, stack_pop, on_memory, mapping_field_count,
}
use libcyaml.Load.Machine.{
  copy_default, field_apply_default, validate_fields, mapping_bitfield_validate,
  map_key_check_field,
}
use libcyaml.Load.Machine.{
  ignored_key, handle_map_key, handle_map_end, defined, refuses, is_type_ignore,
}
use libcyaml.Load.Machine.Values.{
  on_context-StaysIn, on_loading-Keeps, on_heap-Keeps, on_memory-Keeps,
}
use libcyaml.Load.Machine.Values.{stores-IsDefined, field_scalar_apply_default-IsDefined}
use libcyaml.Load.Machine.Sound.{HasWords, Under, IsStack}
use libcyaml.Load.Machine.Sound.{Keeps, Holds, IsLoader}
use libcyaml.Load.Machine.Reading.{keeps_held}

get_elem?-lt {ℓ} :
    {A : Type ℓ} (xs : List A) (i : ℕ) {a : A} → get_elem? xs i ≡ some a → i < length xs
get_elem?-lt [] i e = cc
get_elem?-lt (x ∷ xs) zero e = omega arith
get_elem?-lt (x ∷ xs) (suc i) e = omega (arith, get_elem?-lt xs i e)

length-take_le {ℓ} : {A : Type ℓ} (n : ℕ) (xs : List A) → length (take n xs) ≤ length xs
length-take_le zero xs = omega arith
length-take_le (suc n) [] = omega arith
length-take_le (suc n) (x ∷ xs) = omega (arith, length-take_le n xs)

-- A field of which there is a word can be looked up and marked.
check_some :
    (words : List ℕ) (i : ℕ)
    → i < 32 * length words
    → (b : Bool) × (mapping_bitfield_check words i ≡ some b)
unfolding mapping_bitfield_check
check_some words i lt =
    let (w, at) = get_elem?-in_range words (i / 32) (omega (arith, lt)) in
    (not (bit_and w (2 ^ (i % 32)) == 0), rw (mapping_bitfield_check, at) refl)

set_some :
    (words : List ℕ) (i : ℕ)
    → i < 32 * length words
    → (words' : List ℕ) × (mapping_bitfield_set words i ≡ some words')
      × (length words' ≡ length words)
unfolding mapping_bitfield_set
set_some words i lt =
    let (w, at) = get_elem?-in_range words (i / 32) (omega (arith, lt)) in
    (
      set words (i / 32) (bit_or w (2 ^ (i % 32))),
      rw (mapping_bitfield_set, at) refl,
      length-set words (i / 32) _,
    )

Keeps-as :
    {P H : Type 0} {A : Type 0} (o : Outcome (LoadCtx P H) A) {st st' : List Frame}
    → st ≡ st'
    → Ensures (Keeps st) o
    → Ensures (Keeps st') o
Keeps-as o e h = subst (λ s. Ensures (Keeps s) o) e h

Under-value :
    (config : Config) (rest : List Frame)
    → Under config State.in_map_key rest
    → Under config State.in_map_value rest
Under-value config [] e = cc
Under-value config (f ∷ rest) h = h

module _ {P H : Type 0} (l : Loader P H) (good : IsLoader l) where
  copied_count :
      (t : SchemaType) (seq_count size place : ℕ) (c : LoadCtx P H)
      → Good c.loading.context
      → Ensures (Keeps {A = Unit {0}} c.stack) (
          (elim t as (λ _. M (LoadCtx P H) (Unit {0})) [
            | SchemaType.sequence ↦ on_memory (stores (data_write l.host seq_count size place))
            | _ ↦ return tt
          ])
            c)
  copied_count SchemaType.sequence seq_count size place c g =
      on_memory-Keeps (stores (data_write l.host seq_count size place)) c g
        (stores-IsDefined (data_write l.host seq_count size place) c.loading.memory)
  copied_count _ seq_count size place c g = (g, refl)

  copy_default-Keeps :
      (schema : SchemaValue) (t : SchemaType) (given seq_count : ℕ) (top : Frame) (field : Field)
      (place : ℕ) (c : LoadCtx P H)
      → given ≡ 0
      → Good c.loading.context
      → Ensures (Keeps c.stack) (copy_default l schema t given seq_count top field place c)
  unfolding copy_default
  copy_default-Keeps schema t given seq_count top field place c e g = rw e (g, refl)

  field_apply_default-Keeps :
      (schema : SchemaValue) (t : SchemaType) (top : Frame) (field : Field) (place : ℕ)
      (c : LoadCtx P H)
      → (schema.mapping.missing ≡ 0) × (schema.sequence.missing ≡ 0)
      → Good c.loading.context
      → Ensures (Keeps c.stack) (field_apply_default l schema t top field place c)
  unfolding field_apply_default
  field_apply_default-Keeps schema SchemaType.mapping top field place c bare g =
      copy_default-Keeps schema SchemaType.mapping schema.mapping.missing 0 top field place c bare.0
        g
  field_apply_default-Keeps schema SchemaType.sequence top field place c bare g =
      copy_default-Keeps schema SchemaType.sequence schema.sequence.missing
        schema.sequence.missing_count top field place c bare.1 g
  field_apply_default-Keeps schema SchemaType.sequence_fixed top field place c bare g =
      copy_default-Keeps schema SchemaType.sequence_fixed schema.sequence.missing
        schema.sequence.max top field place c bare.1 g
  field_apply_default-Keeps schema SchemaType.ignore top field place c bare g = (g, refl)
  field_apply_default-Keeps schema SchemaType.unknown top field place c bare g = tt
  field_apply_default-Keeps schema _ top field place c bare g =
      on_heap-Keeps (field_scalar_apply_default l.host l.fpu (λ h n. l.resize h 0 n) schema place) c
        g (field_scalar_apply_default-IsDefined l.host l.fpu (λ h n. l.resize h 0 n) schema place _)

  validate_fields-Keeps :
      (top : Frame) (i : ℕ) (fields : List Field) (c : LoadCtx P H)
      → i + length fields ≤ 32 * length top.fields_set
      → Good c.loading.context
      → Ensures (Keeps c.stack) (validate_fields l top i fields c)
  unfolding validate_fields
  validate_fields-Keeps top i [] c le g = (g, refl)
  validate_fields-Keeps top i (field ∷ fields) c le g =
      let (seen, at) = check_some top.fields_set i (omega (arith, le)) in
      let value = l.schemas field.value in
      let next_le : suc i + length fields ≤ 32 * length top.fields_set = omega (arith, le) in
      rw (validate_fields, at, ◌>>=◌)
        (elim (Bool-cases seen) [
          | inl e ↦ rw e (validate_fields-Keeps top (suc i) fields c next_le g)
          | inr e ↦ rw e (elim (Bool-cases (flag_check_all value.flags Flag.optional)) [
            | inr k ↦ rw k tt
            | inl k ↦ rw k (
                Ensures-bind (Keeps c.stack) (Keeps c.stack)
                  (field_apply_default l value value.type top field
                    (top.data_at + field.data_offset))
                  _ c
                  (field_apply_default-Keeps value value.type top field
                    (top.data_at + field.data_offset) c (good.no_copies field.value) g)
                  (λ u c1 _ (g1, e1).
                    Keeps-as (validate_fields l top (suc i) fields c1) e1
                      (validate_fields-Keeps top (suc i) fields c1 next_le g1)))
          ])
        ])

  -- A state is popped that is not the first.
  pub stack_pop-Holds :
      (top : Frame) (rest : List Frame) (c : LoadCtx P H)
      → IsStack l.config (top ∷ rest)
      → Keeps {A = Unit {0}} (top ∷ rest) tt c
      → top.state ≢ State.start
      → Ensures (Holds l.config) (stack_pop c)
  unfolding stack_pop
  stack_pop-Holds top [] c w kept ne = absurd (ne w.1)
  stack_pop-Holds top (f ∷ rest) c w (g, e) ne = rw e (g, (w.1.1, w.1.2))

  pub handle_map_end-Holds :
      (top : Frame) (rest : List Frame) (c : LoadCtx P H)
      → IsStack l.config (top ∷ rest)
      → HasWords top
      → top.state ≢ State.start
      → Keeps {A = Unit {0}} (top ∷ rest) tt c
      → Ensures (Holds l.config) (handle_map_end l top c)
  unfolding handle_map_end mapping_bitfield_validate
  handle_map_end-Holds top rest c w words ne (g, e) =
      Ensures-bind (Keeps c.stack) (Holds l.config) (mapping_bitfield_validate l top) _ c
        (validate_fields-Keeps top 0
          (take (mapping_field_count top.schema) top.schema.mapping.fields) c
          (omega (
            arith,
            words.1,
            length-take_le (mapping_field_count top.schema) top.schema.mapping.fields,
          ))
          g)
        (λ u c1 _ (g1, e1). popped c1 (g1, e1 ∙ e) _)
    where
      popped :
          (c1 : LoadCtx P H)
          → Keeps {A = Unit {0}} (top ∷ rest) tt c1
          → (o : Option Bool)
          → Ensures (Holds l.config) ((if refuses o then raise invalid_value else stack_pop) c1)
      popped c1 kept o = elim (Bool-cases (refuses o)) [
        | inl k ↦ rw k tt
        | inr k ↦ rw k (stack_pop-Holds top rest c1 w kept ne)
      ]

  module _ (fuel : ℕ) (top : Frame) (rest : List Frame) (takes : top.state ≡ State.in_map_key)
      (w : IsStack l.config (top ∷ rest)) where
    ignored_key-Keeps :
        (c : LoadCtx P H) → Good c.loading.context → Ensures (Keeps c.stack) (ignored_key l fuel c)
    unfolding ignored_key
    ignored_key-Keeps c g =
        elim (Bool-cases (has_flag l.config.flags CfgFlag.ignore_unknown_keys)) [
          | inr e ↦ rw e tt
          | inl e ↦
              let m : M (Ctx P H) Bool = next l.parse l.realloc l.event_size >>= λ event.
              consume_ignored_value l.parse l.realloc l.event_size fuel event.type in
              rw e (
                on_loading-Keeps (on_context m) c (
                  on_context-StaysIn m c.loading (
                    Ensures-bind Stays Stays (next l.parse l.realloc l.event_size) _
                      c.loading.context
                      (next-Stays l.parse l.realloc l.event_size c.loading.context g)
                      (λ event c' _ g'.
                        consume_ignored_value-Stays l.parse l.realloc l.event_size fuel event.type
                          c' g'))))
        ]

    -- The field of the index is marked.
    abbrev Marked : ℕ → Unit {0} → LoadCtx P H → Type 0
    Marked idx u c =
        Good c.loading.context
        × ((words : List ℕ) × (c.stack ≡ record top { fields_set = words; fields_idx = idx } ∷ rest)
            × (length words ≡ length top.fields_set))

    map_key_check_field-Marked :
        (idx : ℕ) (field : Field) (c : LoadCtx P H)
        → idx < length top.schema.mapping.fields
        → HasWords top
        → Good c.loading.context
        → c.stack ≡ record top { fields_idx = idx } ∷ rest
        → Ensures (Marked idx) (map_key_check_field l top idx field c)
    unfolding map_key_check_field
    map_key_check_field-Marked idx field c lt words g e =
        let (seen, at) = check_some top.fields_set idx (omega (arith, lt, words.1)) in
        let (words', set_at, same) = set_some top.fields_set idx (omega (arith, lt, words.1)) in
        elim (Bool-cases (is_type_ignore (l.schemas field.value).type)) [
          | inl k ↦ rw (map_key_check_field, k, ◌>>=◌, set_at, e) (g, (words', refl, same))
          | inr k ↦ elim (Bool-cases seen) [
            | inl s ↦ rw (map_key_check_field, k, at, s, ◌>>=◌) tt
            | inr s ↦ rw (map_key_check_field, k, at, s, ◌>>=◌, set_at, e) (g, (words', refl, same))
          ]
        ]

    with_field :
        (idx : ℕ) (c : LoadCtx P H)
        → idx < length top.schema.mapping.fields
        → HasWords top
        → Good c.loading.context
        → c.stack ≡ record top { fields_idx = idx } ∷ rest
        → Ensures (Holds l.config) (
            (defined (get_elem? top.schema.mapping.fields idx) >>= λ field.
            map_key_check_field l top idx field >>= λ _.
            change_top (λ f. record f { state = State.in_map_value }) >>= λ _. return true)
              c)
    with_field idx c lt words g e =
        let (field, at) = get_elem?-in_range top.schema.mapping.fields idx lt in
        rw (at, ◌>>=◌)
          (Ensures-bind (Marked idx) (Holds l.config) (map_key_check_field l top idx field) _ c
            (map_key_check_field-Marked idx field c lt words g e)
            (λ u c1 _ (g1, (words', e1, same)). rw e1 (
              g1,
              (
                (w.0.0, ((words.0, omega (arith, words.1, same)), lt)),
                Under-value l.config rest (rw takes at w.1),
              ),
            )))

    pub handle_map_key-Holds :
        (event : Event) (c : LoadCtx P H)
        → is_case_sensitive l.config top.schema ≡ true
        → HasWords top
        → Keeps {A = Unit {0}} (top ∷ rest) tt c
        → Ensures (Holds l.config) (handle_map_key l fuel top event c)
    unfolding handle_map_key
    handle_map_key-Holds event c exact words (g, e) =
        go (get_mapping_field_idx l.config top.schema event.value)
          (get_mapping_field_idx-Located l.config top.schema event.value exact words.0) refl
      where
        go :
            (o : Option ℕ)
            → Located event.value top.schema.mapping.fields 0 o
            → get_mapping_field_idx l.config top.schema event.value ≡ o
            → Ensures (Holds l.config) (handle_map_key l fuel top event c)
        go _ (found i f at same first) k =
            let lt = get_elem?-lt top.schema.mapping.fields i at in
            let there : (0 + i == fields_idx_none) ≡ false = ground (arith, lt, words.0) in
            rw (handle_map_key, k, ◌>>=◌, e, there)
              (with_field (0 + i) (record c { stack = record top { fields_idx = 0 + i } ∷ rest })
                (omega (arith, lt)) words g refl)
        go _ (missing none_) k =
            let c1 = record c { stack = record top { fields_idx = fields_idx_none } ∷ rest } in
            rw (handle_map_key, k, ◌>>=◌, e)
              (keeps_held l fuel (ignored_key l fuel c1)
                (record top { fields_idx = fields_idx_none }) rest ((w.0.0, rw takes words), w.1)
                refl (ignored_key-Keeps c1 g))
