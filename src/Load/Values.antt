-- ===== src/Load/Values.antt =====
-- src/load.c, values that take several events: flags, bit fields, and values that are ignored.
--
-- The state is the event context and the client's memory. A loop runs on fuel and answers `none` when
-- that is not enough. The configuration, which the context refers to, is a parameter. A shift by 64
-- bits or more is a fault.
pub mod Flags
pub mod Saved
pub mod Ignored
pub mod Bits
pub mod BitsSaved
pub mod Total
use libcyaml.Base.{ℕ, zero, suc, ◌+◌, ◌-◌, ◌*◌, ◌/◌, ◌%◌, ◌^◌, Bool, true, false, not, ◌||◌}
use libcyaml.Base.{Option, none, some, List, [], ◌∷◌, ltb, ◌==◌, if◌then◌else◌, bit_or}
use libcyaml.Errors.{Result, ok, fail, invalid_value, invalid_data_size, unexpected_event}
use libcyaml.Errors.{bad_bitval_in_schema}
use libcyaml.Outcome.{Outcome, done, failed, fault, M, ◌>>=◌, ◌>>◌, return, raise, undefined, gets}
use libcyaml.Outcome.{lift}
use libcyaml.Schema.{Bytes, SchemaValue, BitDef, Config}
use libcyaml.Memory.{Memory, Host}
use libcyaml.Strings.{strcmp}
use libcyaml.Load.Store.{store_uint}
use libcyaml.Load.Fields.{is_zero}
use libcyaml.Load.Events.{EventType, Event, Ctx, get_next_event}
use libcyaml.Load.Scalar.{set_flag, read_uint64_t}

pub record Loading (P H : Type 0) : Type 0 where
  pub context : Ctx P H
  pub memory : Memory

module _ {P H : Type 0} where
  -- A function of the event context, and one of the memory.
  abbrev pub on_context {κ} : {A : Type κ} → M (Ctx P H) A → M (Loading P H) A
  on_context m s = elim (m s.context) [
    | done a c ↦ done a (record s { context = c })
    | failed e c ↦ failed e (record s { context = c })
    | fault ↦ fault
  ]

  -- A function without a state.
  abbrev pub stateless {κ} : {A : Type κ} → M (Unit {0}) A → M (Ctx P H) A
  stateless m c = elim (m tt) [ done a u ↦ done a c | failed e u ↦ failed e c | fault ↦ fault ]

  abbrev pub store_to : (Memory → Result Memory) → M (Loading P H) (Unit {0})
  store_to f s = elim (f s.memory) [
    | ok m ↦ done tt (record s { memory = m })
    | fail e ↦ failed e s
  ]

  -- The value of the flags after `cyaml__set_flag`.
  abbrev pub add_flag : Config → SchemaValue → Bytes → ℕ → M (Ctx P H) ℕ
  add_flag config schema text value c = elim (set_flag config schema text value) [
    | done u value' ↦ done value' c
    | failed e value' ↦ failed e c
    | fault ↦ fault
  ]

-- The `switch` of `cyaml__consume_ignored_value`; `level` is an `unsigned`, and above 0.
unfoldable pub next_level : EventType → ℕ → ℕ
next_level EventType.seq_start level = (level + 1) % 2 ^ 32
next_level EventType.map_start level = (level + 1) % 2 ^ 32
next_level EventType.seq_end level = level - 1
next_level EventType.map_end level = level - 1
next_level _ level = level

-- `cyaml__get_bitval_index`: the definition that the index it answers stands for.
unfoldable pub find_bitdef : Config → SchemaValue → Bytes → List BitDef → M (Unit {0}) BitDef
unfolding strcmp
find_bitdef config schema name [] = raise invalid_value
find_bitdef config schema name (b ∷ bitdefs) =
    let rest = find_bitdef config schema name bitdefs in
    if ltb (schema.data_size * 8) (b.bits + b.offset)
    then raise bad_bitval_in_schema
    else elim (is_zero (strcmp config schema name b.name)) [
      | none ↦ undefined
      | some same ↦ if same then return b else rest
    ]

-- The end of `cyaml__set_bitval`: the value of a field is added to the value of the bits.
unfoldable pub add_bits : BitDef → ℕ → ℕ → M (Unit {0}) ℕ
add_bits b value bits =
    let mask = (2 ^ 64 - 1) / 2 ^ (64 - b.bits) in
    if b.bits == 0 || ltb 64 b.bits
    then undefined
    else if ltb mask value
    then raise invalid_value
    else if ltb 63 b.offset
    then undefined
    else return (bit_or bits (value * 2 ^ b.offset % 2 ^ 64))

module _ {P H : Type 0} where
  -- The `switch` of `cyaml__set_bitval`, on the event after the name, and what follows it.
  unfoldable pub bitval_event : BitDef → ℕ → EventType → Bytes → M (Ctx P H) ℕ
  unfolding add_bits read_uint64_t
  bitval_event b bits EventType.scalar text =
      lift (read_uint64_t text) >>= λ value. stateless (add_bits b value bits)
  bitval_event b bits _ text = raise unexpected_event

module _ {P H : Type 0} (parse : P → Option (Event × P)) (realloc : H → ℕ → Bool × H)
    (event_size : ℕ) where
  -- `cyaml_get_next_event`, and the event that it put into the context.
  abbrev pub next : M (Ctx P H) Event
  next = get_next_event parse realloc event_size >>= λ u. gets (λ c. c.event)

  -- The loop of `cyaml__consume_ignored_value`.
  unfoldable pub consume_loop : ℕ → ℕ → M (Ctx P H) Bool
  unfolding get_next_event next_level
  consume_loop fuel zero = return true
  consume_loop zero (suc level) = return false
  consume_loop (suc fuel) (suc level) =
      next >>= λ event. consume_loop fuel (next_level event.type (suc level))

  -- `cyaml__consume_ignored_value`, on the type of the value's first event.
  unfoldable pub consume_ignored_value : ℕ → EventType → M (Ctx P H) Bool
  unfolding consume_loop
  consume_ignored_value fuel EventType.scalar = return true
  consume_ignored_value fuel t = consume_loop fuel 1

module _ {P H : Type 0} (parse : P → Option (Event × P)) (realloc : H → ℕ → Bool × H)
    (event_size : ℕ) (config : Config) (schema : SchemaValue) where
  -- The `switch` in the loop of `cyaml__read_flags_value`, and what follows a scalar.
  unfoldable pub flags_event :
      (ℕ → M (Ctx P H) (Option ℕ)) → EventType → Bytes → ℕ → M (Ctx P H) (Option ℕ)
  unfolding set_flag
  flags_event rest EventType.scalar text value =
      add_flag config schema text value >>= λ value'. rest value'
  flags_event rest EventType.seq_end text value = return (some value)
  flags_event rest _ text value = raise unexpected_event

  -- The loop of `cyaml__read_flags_value`.
  unfoldable pub flags_loop : ℕ → ℕ → M (Ctx P H) (Option ℕ)
  unfolding get_next_event flags_event
  flags_loop zero value = return none
  flags_loop (suc fuel) value = next parse realloc event_size >>= λ event.
      flags_event (flags_loop fuel) event.type event.value value

  -- `cyaml__read_flags_value`; whether the fuel was enough.
  unfoldable pub read_flags_value : ℕ → Host → ℕ → M (Loading P H) Bool
  unfolding flags_loop store_uint
  read_flags_value fuel h location =
      if schema.data_size == 0
      then raise invalid_data_size
      else on_context (flags_loop fuel 0) >>= λ ended. elim ended [
        | none ↦ return false
        | some value ↦
            store_to (λ m. store_uint h schema location value true m) >>= λ u. return true
      ]

  -- `cyaml__set_bitval`, on the text of the event with the name.
  unfoldable pub set_bitval : Bytes → ℕ → M (Ctx P H) ℕ
  unfolding get_next_event find_bitdef bitval_event
  set_bitval name bits = stateless (find_bitdef config schema name schema.bitfield.bitdefs) >>= λ b.
      next parse realloc event_size >>= λ event. bitval_event b bits event.type event.value

  -- The `switch` in the loop of `cyaml__read_bitfield_value`, and what follows a scalar.
  unfoldable pub bits_event :
      (ℕ → M (Ctx P H) (Option ℕ)) → EventType → Bytes → ℕ → M (Ctx P H) (Option ℕ)
  unfolding set_bitval
  bits_event rest EventType.scalar name value = set_bitval name value >>= λ value'. rest value'
  bits_event rest EventType.map_end name value = return (some value)
  bits_event rest _ name value = raise unexpected_event

  -- The loop of `cyaml__read_bitfield_value`.
  unfoldable pub bits_loop : ℕ → ℕ → M (Ctx P H) (Option ℕ)
  unfolding get_next_event bits_event
  bits_loop zero value = return none
  bits_loop (suc fuel) value = next parse realloc event_size >>= λ event.
      bits_event (bits_loop fuel) event.type event.value value

  -- `cyaml__read_bitfield_value`; whether the fuel was enough.
  unfoldable pub read_bitfield_value : ℕ → Host → ℕ → M (Loading P H) Bool
  unfolding bits_loop store_uint
  read_bitfield_value fuel h location = on_context (bits_loop fuel 0) >>= λ ended. elim ended [
    | none ↦ return false
    | some value ↦ store_to (λ m. store_uint h schema location value true m) >>= λ u. return true
  ]
