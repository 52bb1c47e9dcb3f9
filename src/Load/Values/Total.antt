-- ===== src/Load/Values/Total.antt =====
-- The loops over events of src/load.c, and the invariant of the event context: what they do with any
-- events at all.
use libcyaml.Base.{ℕ, zero, suc, ◌+◌, ◌*◌, ◌/◌, ◌-◌, ◌^◌, ◌≤◌, ◌<◌, ◌≡◌, refl, arith, inl, inr}
use libcyaml.Base.{
  Bool, true, false, ◌||◌, Option, none, some, List, [], ◌∷◌, All, Bool-cases, ◌==◌, ltb,
}
use libcyaml.Base.{if◌then◌else◌, bit_or}
use libcyaml.Base.Int.{ℤ, pos, eqb_ℤ, to_u64}
use libcyaml.Errors.{Result, ok, fail, invalid_value}
use libcyaml.Outcome.{Outcome, done, failed, fault, M, ◌>>=◌, lift, Ensures, Ensures-bind}
use libcyaml.Schema.{Bytes, SchemaValue, Config, StrVal, BitDef}
use libcyaml.Schema.Flag
use libcyaml.Strings.{strcmp, c_strcmp, is_case_sensitive, has_flag}
use libcyaml.Utf8.{returns}
use libcyaml.Load.Events.{EventType, Event, Ctx, get_next_event}
use libcyaml.Load.Events.Invariant.{Good}
use libcyaml.Load.Events.Total.{get_next_event-Good}
use libcyaml.Load.Scalar.{find_strval, flag_number, set_flag, read_uint64_t}
use libcyaml.Load.Values.{next, next_level, add_bits, find_bitdef, stateless}
use libcyaml.Load.Values.{consume_loop, consume_ignored_value, flags_event, flags_loop}
use libcyaml.Load.Values.{bitval_event, set_bitval, bits_event, bits_loop}

module _ (config : Config) (schema : SchemaValue)
    (exact : is_case_sensitive config schema ≡ true) where
  pub strcmp-c_strcmp : (a b : Bytes) → strcmp config schema a b ≡ returns (c_strcmp a b)
  unfolding strcmp
  strcmp-c_strcmp a b = rw exact refl

  pub find_strval-some :
      (text : Bytes) (strings : List StrVal)
      → (o : Option ℤ) × (find_strval config schema text strings ≡ some o)
  unfolding find_strval
  find_strval-some text [] = (none, refl)
  find_strval-some text (s ∷ strings) = elim (Bool-cases (eqb_ℤ (c_strcmp text s.str) (pos 0))) [
    | inl e ↦ (some s.val, rw (find_strval, strcmp-c_strcmp text s.str, e) refl)
    | inr e ↦
        let (o, h) = find_strval-some text strings in
        (o, rw (find_strval, strcmp-c_strcmp text s.str, e) h)
  ]

  abbrev Returns : Outcome ℕ (Unit {0}) → Type 0
  Returns o = Ensures (λ _ _. Unit) o

  set_flag_ok :
      (text : Bytes) (flags : ℕ)
      → 0 < schema.data_size
      → schema.data_size ≤ 8
      → Ensures (λ _ _. Unit) (set_flag config schema text flags)
  unfolding set_flag
  set_flag_ok text flags p q =
      let (o, h) = find_strval-some text schema.enumeration.strings in
      let sized : (schema.data_size == 0 || ltb 8 schema.data_size) ≡ false = ground arith in
      rw (set_flag, h) (go sized o)
    where
      number :
          (o : Option ℕ)
          → Returns (elim o [
            | some temp ↦ done tt (bit_or flags temp)
            | none ↦ failed invalid_value flags
          ])
      number (some temp) = tt
      number none = tt

      go :
          (schema.data_size == 0 || ltb 8 schema.data_size) ≡ false
          → (o : Option ℤ)
          → Returns (elim o [
            | some val ↦ done tt (bit_or flags (to_u64 val))
            | none ↦
                if has_flag schema.flags Flag.strict
                then failed invalid_value flags
                else if schema.data_size == 0 || ltb 8 schema.data_size
                then fault
                else elim (flag_number schema text) [
                  | some temp ↦ done tt (bit_or flags temp)
                  | none ↦ failed invalid_value flags
                ]
          ])
      go sized (some val) = tt
      go sized none = elim (Bool-cases (has_flag schema.flags Flag.strict)) [
        | inl e ↦ rw e tt
        | inr e ↦ rw (e, sized) (number (flag_number schema text))
      ]

  find_bitdef_ok :
      (name : Bytes) (bitdefs : List BitDef)
      → All (λ b. 0 < b.bits) bitdefs
      → Ensures
          (λ b _. (0 < b.bits) × (b.bits + b.offset ≤ schema.data_size * 8))
          (find_bitdef config schema name bitdefs tt)
  unfolding find_bitdef
  find_bitdef_ok name [] h = tt
  find_bitdef_ok name (b ∷ bitdefs) (wide, h) =
      elim (Bool-cases (ltb (schema.data_size * 8) (b.bits + b.offset))) [
        | inl e ↦ rw e tt
        | inr e ↦
            rw (e, strcmp-c_strcmp name b.name)
              (elim (Bool-cases (eqb_ℤ (c_strcmp name b.name) (pos 0))) [
                | inl same ↦ rw same (wide, ground (arith, e))
                | inr other ↦ rw other (find_bitdef_ok name bitdefs h)
              ])
      ]

add_bits_ok :
    (b : BitDef) (value bits : ℕ)
    → 0 < b.bits
    → b.bits + b.offset ≤ 64
    → Ensures (λ _ _. Unit) (add_bits b value bits tt)
unfolding add_bits
add_bits_ok b value bits p q =
    let some_bits : (b.bits == 0) ≡ false = ground (arith, p) in
    let few : ltb 64 b.bits ≡ false = ground (arith, q) in
    let low : ltb 63 b.offset ≡ false = ground (arith, p, q) in
    rw (some_bits, few, low)
      (elim (Bool-cases (ltb ((2 ^ 64 - 1) / 2 ^ (64 - b.bits)) value)) [
        | inl e ↦ rw e tt
        | inr e ↦ rw e tt
      ])

module _ {P H : Type 0} where
  -- A postcondition of the context alone.
  abbrev pub Stays {κ} : {A : Type κ} → A → Ctx P H → Type 0
  Stays a c = Good c

module _ {P H : Type 0} (parse : P → Option (Event × P)) (realloc : H → ℕ → Bool × H)
    (event_size : ℕ) where
  pub next-Stays : (c : Ctx P H) → Good c → Ensures Stays (next parse realloc event_size c)
  next-Stays c g =
      Ensures-bind Stays Stays (get_next_event parse realloc event_size) _ c
        (get_next_event-Good parse realloc event_size c g) (λ _ c' _ g'. g')

  pub consume_loop-Stays :
      (fuel level : ℕ) (c : Ctx P H)
      → Good c
      → Ensures Stays (consume_loop parse realloc event_size fuel level c)
  unfolding consume_loop
  consume_loop-Stays fuel zero c g = g
  consume_loop-Stays zero (suc level) c g = g
  consume_loop-Stays (suc fuel) (suc level) c g =
      Ensures-bind Stays Stays (next parse realloc event_size) _ c (next-Stays c g)
        (λ event c' _ g'. consume_loop-Stays fuel (next_level event.type (suc level)) c' g')

  pub consume_ignored_value-Stays :
      (fuel : ℕ) (t : EventType) (c : Ctx P H)
      → Good c
      → Ensures Stays (consume_ignored_value parse realloc event_size fuel t c)
  unfolding consume_ignored_value
  consume_ignored_value-Stays fuel EventType.scalar c g = g
  consume_ignored_value-Stays fuel _ c g = consume_loop-Stays fuel 1 c g

module _ {P H : Type 0} (parse : P → Option (Event × P)) (realloc : H → ℕ → Bool × H)
    (event_size : ℕ) (config : Config) (schema : SchemaValue)
    (exact : is_case_sensitive config schema ≡ true) (p : 0 < schema.data_size)
    (q : schema.data_size ≤ 8) where
  abbrev Flags : M (Ctx P H) (Option ℕ) → Type 0
  Flags m = (c : Ctx P H) → Good c → Ensures Stays (m c)

  flags_event_ok :
      (rest : ℕ → M (Ctx P H) (Option ℕ)) (t : EventType) (text : Bytes) (value : ℕ)
      → ((value' : ℕ) → Flags (rest value'))
      → Flags (flags_event parse realloc event_size config schema rest t text value)
  unfolding flags_event
  flags_event_ok rest EventType.scalar text value h c g =
      go (set_flag config schema text value) (set_flag_ok config schema exact text value p q)
    where
      go :
          (o : Outcome ℕ (Unit {0}))
          → Ensures (λ _ _. Unit {0}) o
          → Ensures Stays (
              ((λ c. elim o [
                | done u value' ↦ done value' c
                | failed e value' ↦ failed e c
                | fault ↦ fault
              ])
                  >>= (λ value'. rest value'))
                c)
      go (done u value') k = h value' c g
      go (failed e value') k = tt
      go fault k = k
  flags_event_ok rest EventType.seq_end text value h c g = g
  flags_event_ok rest _ text value h c g = tt

  pub flags_loop-Stays :
      (fuel value : ℕ) → Flags (flags_loop parse realloc event_size config schema fuel value)
  unfolding flags_loop
  flags_loop-Stays zero value c g = g
  flags_loop-Stays (suc fuel) value c g =
      Ensures-bind Stays Stays (next parse realloc event_size) _ c
        (next-Stays parse realloc event_size c g)
        (λ event c' _ g'.
          flags_event_ok (flags_loop parse realloc event_size config schema fuel) event.type
            event.value value (flags_loop-Stays fuel) c' g')

module _ {P H : Type 0} (parse : P → Option (Event × P)) (realloc : H → ℕ → Bool × H)
    (event_size : ℕ) (config : Config) (schema : SchemaValue)
    (exact : is_case_sensitive config schema ≡ true) (q : schema.data_size ≤ 8)
    (wide : All (λ b. 0 < b.bits) schema.bitfield.bitdefs) where
  bitval_event_ok :
      (b : BitDef) (bits : ℕ) (t : EventType) (text : Bytes) (c : Ctx P H)
      → (0 < b.bits) × (b.bits + b.offset ≤ schema.data_size * 8)
      → Good c
      → Ensures Stays (bitval_event b bits t text c)
  unfolding bitval_event
  bitval_event_ok b bits EventType.scalar text c (some_bits, within) g = go (read_uint64_t text)
    where
      added :
          (o : Outcome (Unit {0}) ℕ)
          → Ensures (λ _ _. Unit {0}) o
          → Ensures Stays (elim o [ done a u ↦ done a c | failed e u ↦ failed e c | fault ↦ fault ])
      added (done a u) k = g
      added (failed e u) k = tt
      added fault k = k

      go :
          (r : Result ℕ) → Ensures Stays ((lift r >>= λ value. stateless (add_bits b value bits)) c)
      go (ok value) =
          added (add_bits b value bits tt)
            (add_bits_ok b value bits some_bits (omega (arith, within, q)))
      go (fail e) = tt
  bitval_event_ok b bits _ text c h g = tt

  set_bitval_ok :
      (name : Bytes) (bits : ℕ) (c : Ctx P H)
      → Good c
      → Ensures Stays (set_bitval parse realloc event_size config schema name bits c)
  unfolding set_bitval
  set_bitval_ok name bits c g =
      go (find_bitdef config schema name schema.bitfield.bitdefs tt)
        (find_bitdef_ok config schema exact name schema.bitfield.bitdefs wide)
    where
      go :
          (o : Outcome (Unit {0}) BitDef)
          → Ensures (λ b _. (0 < b.bits) × (b.bits + b.offset ≤ schema.data_size * 8)) o
          → Ensures Stays (
              ((λ c. elim o [ done b u ↦ done b c | failed e u ↦ failed e c | fault ↦ fault ])
                  >>= λ b. next parse realloc event_size >>= λ event.
                      bitval_event b bits event.type event.value)
                c)
      go (done b u) k =
          Ensures-bind Stays Stays (next parse realloc event_size) _ c
            (next-Stays parse realloc event_size c g)
            (λ event c' _ g'. bitval_event_ok b bits event.type event.value c' k g')
      go (failed e u) k = tt
      go fault k = k

  abbrev Bits : M (Ctx P H) (Option ℕ) → Type 0
  Bits m = (c : Ctx P H) → Good c → Ensures Stays (m c)

  bits_event_ok :
      (rest : ℕ → M (Ctx P H) (Option ℕ)) (t : EventType) (name : Bytes) (value : ℕ)
      → ((value' : ℕ) → Bits (rest value'))
      → Bits (bits_event parse realloc event_size config schema rest t name value)
  unfolding bits_event
  bits_event_ok rest EventType.scalar name value h c g =
      Ensures-bind Stays Stays (set_bitval parse realloc event_size config schema name value) rest c
        (set_bitval_ok name value c g) (λ value' c' _ g'. h value' c' g')
  bits_event_ok rest EventType.map_end name value h c g = g
  bits_event_ok rest _ name value h c g = tt

  pub bits_loop-Stays :
      (fuel value : ℕ) → Bits (bits_loop parse realloc event_size config schema fuel value)
  unfolding bits_loop
  bits_loop-Stays zero value c g = g
  bits_loop-Stays (suc fuel) value c g =
      Ensures-bind Stays Stays (next parse realloc event_size) _ c
        (next-Stays parse realloc event_size c g)
        (λ event c' _ g'.
          bits_event_ok (bits_loop parse realloc event_size config schema fuel) event.type
            event.value value (bits_loop-Stays fuel) c' g')
