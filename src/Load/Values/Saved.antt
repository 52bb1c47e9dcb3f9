-- ===== src/Load/Values/Saved.antt =====
-- `cyaml__write_flags_value` of src/save.c, and `cyaml__read_flags_value` of src/load.c on what it
-- wrote.
use libcyaml.Base.{ℕ, zero, suc, ◌+◌, ◌^◌, ◌≤◌, ◌<◌, ◌≡◌, refl, ap, sym, ◌∙◌, arith, ◌⊎◌}
use libcyaml.Base.{Bool, true, false, Option, some, List, [], ◌∷◌, ◌++◌, map, length, All}
use libcyaml.Base.{inl, inr, ◌==◌, if◌then◌else◌, Bool-cases, append_assoc}
use libcyaml.Errors.{ok, invalid_value}
use libcyaml.Outcome.{Outcome, done, failed, fault, M, ◌>>=◌, ◌>>◌, return, raise, bind_done}
use libcyaml.Schema.{Bytes, SchemaValue, Config}
use libcyaml.Memory.{Memory, Host}
use libcyaml.Base.Width.{Width-all}
use native.Mathlib.Nat.{mod-eq_of_lt}
use libcyaml.Data.{data_read}
use libcyaml.Data.Laws.{data_read_lem}
use libcyaml.Strings.{has_flag}
use libcyaml.Schema.Flag
use libcyaml.Number.{print_unsigned}
use libcyaml.Save.Style.{any_style}
use libcyaml.Save.Emitter.{
  Saver, OutEvent, sequence_start, sequence_end, str_tag, emit_scalar, emit,
}
use libcyaml.Save.Scalar.{write_flags_value, emit_flags_sequence, emit_flags, get_uint}
use libcyaml.Save.Machine.Written.{Events, recorder, Emits}
use libcyaml.Save.Machine.Simulated.{emit-recorder}
use libcyaml.Load.Events.{EventType, Event, Ctx}
use libcyaml.Load.Store.{validate_unsigned, store_uint}
use libcyaml.Load.Scalar.{set_flag}
use libcyaml.Load.Scalar.Back.{AreBytes, raw_at, object_value-lt, store_uint-Leaves}
use libcyaml.Load.Values.{
  Loading, on_context, store_to, next, add_flag, flags_event, flags_loop, read_flags_value,
}
use libcyaml.Load.Values.Flags.{named, left, rest_text, flag_texts, flag_event, IsWhole, IsReadable}
use libcyaml.Load.Values.Flags.{IsFound, set_flags, set_flags-flag_texts, emit_flags-named}

map_append {ℓ κ} :
    {A : Type ℓ} {B : Type κ} (f : A → B) (xs ys : List A) → map f (xs ++ ys) ≡ map f xs ++ map f ys
map_append f [] ys = refl
map_append f (x ∷ xs) ys = ap (λ l. f x ∷ l) (map_append f xs ys)

-- Two parts between a first and a last event.
between :
    (log : Events) (first last : OutEvent) (a b : Events)
    → ((log ++ (first ∷ [])) ++ a) ++ (b ++ (last ∷ []))
      ≡ log ++ (first ∷ ((a ++ b) ++ (last ∷ [])))
between log first last a b =
    append_assoc (log ++ (first ∷ [])) a (b ++ (last ∷ []))
    ∙ append_assoc log (first ∷ []) (a ++ (b ++ (last ∷ [])))
    ∙ ap (λ l. log ++ (first ∷ l)) (sym (append_assoc a b (last ∷ [])))

module _ {W : Type 0} (s : Saver W) (config : Config) (schema : SchemaValue) where
  abbrev pub flag_events : List Bytes → Events
  flag_events texts = map (flag_event s schema) texts

  -- What follows the loop over the names.
  abbrev after_names : ℕ → M Events (Unit {0})
  after_names bits =
      (if bits == 0
        then return tt
        else if has_flag schema.flags Flag.strict
        then raise invalid_value
        else emit_scalar (recorder s) schema (get_uint bits false) str_tag)
      >> emit (recorder s) sequence_end

  after_names-Emits :
      (bits : ℕ)
      → IsReadable config schema bits
      → Emits (after_names bits) (flag_events (rest_text bits) ++ (sequence_end ∷ []))
  unfolding emit_scalar get_uint
  after_names-Emits bits (inl z) log = rw z (emit-recorder s sequence_end log)
  after_names-Emits bits (inr (loose, unnamed, lt, fits)) log = elim (Bool-cases (bits == 0)) [
    | inl e ↦ rw e (emit-recorder s sequence_end log)
    | inr e ↦
        rw (e, loose)
          (ap (λ l. done tt l)
            (append_assoc log (flag_events (print_unsigned bits ∷ [])) (sequence_end ∷ [])))
  ]

  -- A value of flags is written as a sequence of its texts.
  pub emit_flags_sequence-Emits :
      (number : ℕ)
      → IsReadable config schema (left schema.enumeration.strings number)
      → Emits (emit_flags_sequence (recorder s) schema number) (
          sequence_start any_style
          ∷ (flag_events (flag_texts schema number) ++ (sequence_end ∷ [])))
  unfolding emit_flags_sequence
  emit_flags_sequence-Emits number readable log =
      let strings = schema.enumeration.strings in
      let log1 = log ++ (sequence_start any_style ∷ []) in
      let names = flag_events (named strings number) in
      bind_done (emit_flags (recorder s) schema strings number) after_names log1
        (emit_flags-named s schema strings number log1)
      ∙ after_names-Emits (left strings number) readable (log1 ++ names)
      ∙ ap (λ l. done tt l)
          (between log (sequence_start any_style) sequence_end names
              (flag_events (rest_text (left strings number)))
            ∙ ap (λ l. log ++ (sequence_start any_style ∷ (l ++ (sequence_end ∷ []))))
                (sym (
                  map_append (flag_event s schema) (named strings number)
                    (rest_text (left strings number)))))

  write_flags_value-Emits :
      (a : ℕ)
      → 0 < schema.data_size
      → schema.data_size ≤ 8
      → IsReadable config schema (left schema.enumeration.strings (raw_at s schema a))
      → Emits (write_flags_value (recorder s) schema a) (
          sequence_start any_style
          ∷ (flag_events (flag_texts schema (raw_at s schema a)) ++ (sequence_end ∷ [])))
  unfolding write_flags_value
  write_flags_value-Emits a p q readable log =
      rw (data_read_lem s.host schema.data_size a s.memory p q, ◌>>=◌)
        (emit_flags_sequence-Emits (raw_at s schema a) readable log)

-- A sequence that returns normally is one of actions that do.
then_inv_at :
    {S : Type 0} (o : Outcome S (Unit {0})) (k : M S (Unit {0})) {s2 : S}
    → (elim o [ done u s1 ↦ k s1 | failed e s1 ↦ failed e s1 | fault ↦ fault ]) ≡ done tt s2
    → (s1 : S) × (o ≡ done tt s1) × (k s1 ≡ done tt s2)
then_inv_at (done u s1) k h = (s1, refl, h)
then_inv_at (failed x s1) k h = cc
then_inv_at fault k h = cc

then_inv :
    {S : Type 0} (m k : M S (Unit {0})) (s : S) {s2 : S}
    → (m >> k) s ≡ done tt s2
    → (s1 : S) × (m s ≡ done tt s1) × (k s1 ≡ done tt s2)
then_inv m k s h = then_inv_at (m s) k h

module _ {P H : Type 0} (parse : P → Option (Event × P)) (realloc : H → ℕ → Bool × H)
    (event_size : ℕ) (config : Config) (schema : SchemaValue) where
  -- The next events are scalars with the given texts, and the end of a sequence.
  abbrev pub Delivers : Ctx P H → List Bytes → Ctx P H → Type 0
  Delivers c [] c' =
      (e : Event) × (next parse realloc event_size c ≡ done e c') × (e.type ≡ EventType.seq_end)
  Delivers c (text ∷ texts) c' =
      (c1 : Ctx P H) × ((e : Event) × (next parse realloc event_size c ≡ done e c1)
        × (e.type ≡ EventType.scalar)
        × (e.value ≡ text))
      × Delivers c1 texts c'

  -- The body of the loop.
  abbrev on_event : ℕ → EventType → Bytes → ℕ → M (Ctx P H) (Option ℕ)
  on_event fuel =
      flags_event parse realloc event_size config schema
        (flags_loop parse realloc event_size config schema fuel)

  scalar_added :
      (rest : ℕ → M (Ctx P H) (Option ℕ)) (text : Bytes) (value : ℕ) (c : Ctx P H) {value1 : ℕ}
      → set_flag config schema text value ≡ done tt value1
      → flags_event parse realloc event_size config schema rest EventType.scalar text value c
        ≡ rest value1 c
  unfolding flags_event
  scalar_added rest text value c e = rw (e, ◌>>=◌, add_flag) refl

  flags_loop-Delivers :
      (texts : List Bytes) (fuel value : ℕ) (c c' : Ctx P H) {value' : ℕ}
      → length texts < fuel
      → set_flags config schema texts value ≡ done tt value'
      → Delivers c texts c'
      → flags_loop parse realloc event_size config schema fuel value c ≡ done (some value') c'
  unfolding flags_loop flags_event
  flags_loop-Delivers texts zero value c c' lt run events = absurd (omega arith)
  flags_loop-Delivers [] (suc fuel) value c c' {value'} lt run (e, got, is) =
      let same : value ≡ value' = cc in
      bind_done (next parse realloc event_size)
        (λ event. on_event fuel event.type event.value value) c got
      ∙ rw (is, same) refl
  flags_loop-Delivers (text ∷ texts) (suc fuel) value c c' lt run (c1, (e, got, is, same), more) =
      let (value1, set, rest) =
        then_inv (set_flag config schema text) (set_flags config schema texts) value run in
      let ih = flags_loop-Delivers texts fuel value1 c1 c' (omega arith) rest more in
      bind_done (next parse realloc event_size)
        (λ event. on_event fuel event.type event.value value) c got
      ∙ ap (λ t. on_event fuel t e.value value c1) is
      ∙ ap (λ x. on_event fuel EventType.scalar x value c1) same
      ∙ scalar_added (flags_loop parse realloc event_size config schema fuel) text value c1 set
      ∙ ih

  read_flags_value-done :
      (fuel value b : ℕ) (h : Host) (st : Loading P H) {c' : Ctx P H} {m' : Memory}
      → 0 < schema.data_size
      → flags_loop parse realloc event_size config schema fuel 0 st.context ≡ done (some value) c'
      → store_uint h schema b value true st.memory ≡ ok m'
      → read_flags_value parse realloc event_size config schema fuel h b st
        ≡ done true (record { context = c'; memory = m' })
  unfolding read_flags_value
  read_flags_value-done fuel value b h st p e f =
      let sized : (schema.data_size == 0) ≡ false = ground arith in
      rw sized (rw (e, on_context, ◌>>=◌) (rw (f, store_to, ◌>>=◌) refl))

module _ {W P H : Type 0} (s : Saver W) (parse : P → Option (Event × P))
    (realloc : H → ℕ → Bool × H) (event_size : ℕ) (config : Config) (schema : SchemaValue) where
  -- Flags that were saved load to the same bytes. For a size of 1 to 8 bytes, names that are found
  -- with their own values when loading, a value of which each flag is set with all of its bits or
  -- with none at its turn, bits without a name that can be read back, and a value that the schema's
  -- validation accepts: saving emits a sequence of texts; and loading, when the next events are
  -- scalars with these texts and the sequence's end, returns with fuel for them, leaves at its address
  -- the value that was saved, and changes no other byte.
  pub read_flags_value-write_flags_value :
      (a b : ℕ) (st : Loading P H) (c' : Ctx P H)
      → AreBytes s.memory
      → 0 < schema.data_size
      → schema.data_size ≤ 8
      → All (IsFound config schema) schema.enumeration.strings
      → IsWhole schema.enumeration.strings (raw_at s schema a)
      → IsReadable config schema (left schema.enumeration.strings (raw_at s schema a))
      → validate_unsigned schema schema.type (raw_at s schema a) ≡ ok tt
      → Delivers parse realloc event_size config schema st.context
          (flag_texts schema (raw_at s schema a))
          c'
      → Emits (write_flags_value (recorder s) schema a) (
          sequence_start any_style
          ∷ (flag_events s config schema (flag_texts schema (raw_at s schema a))
              ++ (sequence_end ∷ [])))
        × ((m' : Memory) × (read_flags_value parse realloc event_size config schema
                (suc (length (flag_texts schema (raw_at s schema a))))
                s.host
                b
                st
              ≡ done true (record { context = c'; memory = m' }))
            × (data_read s.host schema.data_size b m'
                ≡ data_read s.host schema.data_size a s.memory)
            × ((x : ℕ) → (x < b) ⊎ (b + schema.data_size ≤ x) → m' x ≡ st.memory x))
  read_flags_value-write_flags_value a b st c' bytes p q found whole readable valid events =
      let n = schema.data_size in
      let raw = raw_at s schema a in
      let texts = flag_texts schema raw in
      let below = object_value-lt s.host a n s.memory bytes in
      let wid = Width-all n p q in
      let word : raw < 2 ^ 64 = omega (arith, below, wid.bytes, wid.cap) in
      let set = set_flags-flag_texts config schema p q raw word found whole readable in
      let loop =
        flags_loop-Delivers parse realloc event_size config schema texts (suc (length texts)) 0
          st.context c' (omega arith) set events in
      let (m', stored, back, rest) =
        store_uint-Leaves s.host schema b st.memory raw p q below valid in
      (
        write_flags_value-Emits s config schema a p q readable,
        (
          m',
          read_flags_value-done parse realloc event_size config schema (suc (length texts)) raw b
              s.host st p loop stored,
          back ∙ ap ok (mod-eq_of_lt below) ∙ sym (data_read_lem s.host n a s.memory p q),
          rest,
        ),
      )
