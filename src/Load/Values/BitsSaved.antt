-- ===== src/Load/Values/BitsSaved.antt =====
-- `cyaml__read_bitfield_value` of src/load.c on what `cyaml__write_bitfield_value` of src/save.c wrote.
use libcyaml.Base.{ℕ, zero, suc, ◌+◌, ◌-◌, ◌/◌, ◌^◌, ◌≤◌, ◌<◌, ◌≡◌, refl, ap, sym, ◌∙◌}
use libcyaml.Base.{arith, Bool, true, false, Option, some, List, [], ◌∷◌, ◌++◌, length, All}
use libcyaml.Base.{inl, inr, ◌==◌, ◌||◌, ltb, Bool-cases, bit_and, bit_or, ==→eq}
use libcyaml.Base.{◌⊎◌}
use libcyaml.Base.Bits.{bit_or_assoc, bit_or-zero, bit_or_comm}
use libcyaml.Base.Shift.{picked_le, picked_back}
use libcyaml.Errors.{ok}
use native.Mathlib.Nat.{div-le_self}
use libcyaml.Outcome.{done, M, ◌>>=◌, bind_done}
use libcyaml.Schema.{Bytes, SchemaValue, BitDef, Config}
use libcyaml.Number.{print_hex}
use libcyaml.Number.Parsed.{strtoull-print_hex}
use libcyaml.Save.Style.{get_emit_style_map}
use libcyaml.Save.Emitter.{Saver}
use libcyaml.Save.Emitter.{mapping_start, mapping_end}
use libcyaml.Save.Scalar.{write_bitfield_value, bits_mask}
use libcyaml.Save.Machine.Written.{recorder, Emits}
use libcyaml.Load.Scalar.{read_uint64_t, whole}
use libcyaml.Load.Values.{next, stateless, find_bitdef, add_bits, bitval_event, set_bitval}
use libcyaml.Load.Values.{bits_event, bits_loop}
use libcyaml.Load.Values.Bits.{
  mask, bits_mask-mask, field_value, field_texts, covered, IsWithin, field_events,
}
use libcyaml.Load.Values.Bits.{write_bitfield_value-Emits, covered-le}
use libcyaml.Load.Events.{EventType, Event, Ctx}
use libcyaml.Base.Width.{Width-all}
use libcyaml.Memory.{Memory, Host}
use libcyaml.Data.{data_read}
use libcyaml.Load.Store.{validate_unsigned, store_uint}
use libcyaml.Load.Scalar.Back.{AreBytes, raw_at, object_value-lt, store_uint-Leaves}
use libcyaml.Load.Values.{Loading, on_context, store_to, read_bitfield_value}
use native.Mathlib.Nat.{mod-eq_of_lt}

-- The hexadecimal text of a number is read back.
read_uint64_t-print_hex : (n : ℕ) → n < 2 ^ 64 → read_uint64_t (print_hex n) ≡ ok n
unfolding read_uint64_t
read_uint64_t-print_hex n lt = rw (strtoull-print_hex n lt, read_uint64_t, whole) refl

field_value_le :
    (b : BitDef) (number : ℕ)
    → b.bits + b.offset ≤ 64
    → field_value b number ≤ (2 ^ 64 - 1) / 2 ^ (64 - b.bits)
field_value_le b number within =
    rw (bits_mask-mask b within) at (picked_le b.bits b.offset number within)

add_bits-field_value :
    (b : BitDef) (number bits : ℕ)
    → number < 2 ^ 64
    → 0 < b.bits
    → b.bits + b.offset ≤ 64
    → add_bits b (field_value b number) bits tt ≡ done (bit_or bits (bit_and number (mask b))) tt
unfolding add_bits
add_bits-field_value b number bits lt some_bits within =
    let shifts : (b.bits == 0 || ltb 64 b.bits) ≡ false = ground arith in
    let place : ltb 63 b.offset ≡ false = ground arith in
    let masked : bits_mask b ≡ mask b = bits_mask-mask b within in
    let fits : ltb ((2 ^ 64 - 1) / 2 ^ (64 - b.bits)) (field_value b number) ≡ false =
      ground (arith, field_value_le b number within) in
    rw (shifts, fits, place)
      (ap (λ v. done (bit_or bits v) tt)
        (rw masked at (picked_back b.bits b.offset number within lt)))

module _ {P H : Type 0} (parse : P → Option (Event × P)) (realloc : H → ℕ → Bool × H)
    (event_size : ℕ) (config : Config) (schema : SchemaValue) where
  -- The next event is a scalar with the given text.
  abbrev pub IsText : Ctx P H → Bytes → Ctx P H → Type 0
  IsText c text c' =
      (e : Event) × (next parse realloc event_size c ≡ done e c')
      × (e.type ≡ EventType.scalar)
      × (e.value ≡ text)

  -- The next events are scalars with the given names and values, and the end of a mapping.
  abbrev pub DeliversFields : Ctx P H → List (Bytes × Bytes) → Ctx P H → Type 0
  DeliversFields c [] c' =
      (e : Event) × (next parse realloc event_size c ≡ done e c') × (e.type ≡ EventType.map_end)
  DeliversFields c ((name, text) ∷ texts) c' =
      (c1 : Ctx P H) × IsText c name c1
      × ((c2 : Ctx P H) × IsText c1 text c2 × DeliversFields c2 texts c')

  -- A name that is found with its own definition.
  abbrev pub IsFoundBit : BitDef → Type 0
  IsFoundBit b = find_bitdef config schema b.name schema.bitfield.bitdefs tt ≡ done b tt

  -- The body of the loop.
  unfoldable next_bits : ℕ → EventType → Bytes → ℕ → M (Ctx P H) (Option ℕ)
  next_bits fuel =
      bits_event parse realloc event_size config schema
        (bits_loop parse realloc event_size config schema fuel)

  no_fields :
      (fuel value : ℕ) (c c' : Ctx P H) (e : Event)
      → next parse realloc event_size c ≡ done e c'
      → e.type ≡ EventType.map_end
      → bits_loop parse realloc event_size config schema (suc fuel) value c ≡ done (some value) c'
  unfolding bits_loop bits_event next_bits
  no_fields fuel value c c' e got is =
      bind_done (next parse realloc event_size)
        (λ event. next_bits fuel event.type event.value value) c got
      ∙ ap (λ t. next_bits fuel t e.value value c') is

  module _ (b : BitDef) (number bits : ℕ) (lt : number < 2 ^ 64) (some_bits : 0 < b.bits)
      (within : b.bits + b.offset ≤ 64) where
    abbrev bits' : ℕ
    bits' = bit_or bits (bit_and number (mask b))

    bitval_event-field_value :
        (c : Ctx P H)
        → bitval_event b bits EventType.scalar (print_hex (field_value b number)) c ≡ done bits' c
    unfolding bitval_event
    bitval_event-field_value c =
        let le = div-le_self (2 ^ 64 - 1) (2 ^ (64 - b.bits)) in
        let small : field_value b number < 2 ^ 64 =
          omega (arith, field_value_le b number within, le) in
        rw
          (
            read_uint64_t-print_hex (field_value b number) small,
            add_bits-field_value b number bits lt some_bits within,
            ◌>>=◌,
            stateless,
          )
          refl

    set_bitval-field_value :
        (c c' : Ctx P H)
        → IsFoundBit b
        → IsText c (print_hex (field_value b number)) c'
        → set_bitval parse realloc event_size config schema b.name bits c ≡ done bits' c'
    unfolding set_bitval
    set_bitval-field_value c c' found (e, got, is, same) =
        rw (found, stateless, ◌>>=◌)
          (bind_done (next parse realloc event_size)
              (λ event. bitval_event b bits event.type event.value) c got
            ∙ ap (λ t. bitval_event b bits t e.value c') is
            ∙ ap (λ x. bitval_event b bits EventType.scalar x c') same
            ∙ bitval_event-field_value c')

    one_field :
        (fuel : ℕ) (c c1 c2 : Ctx P H)
        → IsFoundBit b
        → IsText c b.name c1
        → IsText c1 (print_hex (field_value b number)) c2
        → bits_loop parse realloc event_size config schema (suc fuel) bits c
          ≡ bits_loop parse realloc event_size config schema fuel bits' c2
    unfolding bits_loop bits_event next_bits
    one_field fuel c c1 c2 found (e, got, is, same) value =
        bind_done (next parse realloc event_size)
          (λ event. next_bits fuel event.type event.value bits) c got
        ∙ ap (λ t. next_bits fuel t e.value bits c1) is
        ∙ ap (λ x. next_bits fuel EventType.scalar x bits c1) same
        ∙ bind_done (set_bitval parse realloc event_size config schema b.name bits)
            (λ value'. bits_loop parse realloc event_size config schema fuel value') c1
            (set_bitval-field_value c1 c2 found value)

  bits_loop-field_texts :
      (bitdefs : List BitDef) (fuel number value : ℕ) (c c' : Ctx P H)
      → schema.data_size ≤ 8
      → number < 2 ^ 64
      → length (field_texts bitdefs number) < fuel
      → All (IsWithin schema) bitdefs
      → All IsFoundBit bitdefs
      → DeliversFields c (field_texts bitdefs number) c'
      → bits_loop parse realloc event_size config schema fuel value c
        ≡ done (some (bit_or value (covered bitdefs number))) c'
  unfolding field_texts covered
  bits_loop-field_texts bitdefs zero number value c c' q lt enough within found events =
      absurd (omega arith)
  bits_loop-field_texts [] (suc fuel) number value c c' q lt enough within found (e, got, is) =
      no_fields fuel value c c' e got is ∙ ap (λ v. done (some v) c') (sym (bit_or-zero value))
  bits_loop-field_texts (b ∷ bitdefs) (suc fuel) number value c c' q lt enough within found events =
      elim (Bool-cases (bit_and number (mask b) == 0)) [
        | inl e ↦
            let ih =
              bits_loop-field_texts bitdefs (suc fuel) number value c c' q lt (rw e at enough)
                within.1 found.1 (rw e at events) in
            let none : bit_and number (mask b) ≡ 0 = ==→eq _ 0 e in
            ih
            ∙ ap (λ v. done (some (bit_or value v)) c')
                (rw none (
                  sym (
                    bit_or_comm 0 (covered bitdefs number) ∙ bit_or-zero (covered bitdefs number))))
        | inr e ↦
            let (c1, name, (c2, text, more)) = rw e at events in
            let ih =
              bits_loop-field_texts bitdefs fuel number (bit_or value (bit_and number (mask b))) c2
                c' q lt (omega (arith, rw e at enough)) within.1 found.1 more in
            one_field b number value lt within.0.0 (omega (arith, within.0.1)) fuel c c1 c2 found.0
              name text
            ∙ ih
            ∙ ap (λ v. done (some v) c')
                (bit_or_assoc value (bit_and number (mask b)) (covered bitdefs number))
      ]

  read_bitfield_value-done :
      (fuel value b : ℕ) (h : Host) (st : Loading P H) {c' : Ctx P H} {m' : Memory}
      → bits_loop parse realloc event_size config schema fuel 0 st.context ≡ done (some value) c'
      → store_uint h schema b value true st.memory ≡ ok m'
      → read_bitfield_value parse realloc event_size config schema fuel h b st
        ≡ done true (record { context = c'; memory = m' })
  unfolding read_bitfield_value
  read_bitfield_value-done fuel value b h st e f =
      rw (e, on_context, ◌>>=◌) (rw (f, store_to, ◌>>=◌) refl)

module _ {W P H : Type 0} (s : Saver W) (parse : P → Option (Event × P))
    (realloc : H → ℕ → Bool × H) (event_size : ℕ) (config : Config) (schema : SchemaValue) where
  -- A bit field that was saved loads to the bits of it that its fields cover, those that stand from the
  -- offset of a field on and are as many as it has. For a size of 1 to 8
  -- bytes, fields of at least one bit within the data, names that are found with their own definitions
  -- when loading, and a result that the schema's validation accepts: saving emits a mapping of the
  -- fields that are not 0; and loading, when the next events are scalars with these names and values
  -- and the mapping's end, returns with fuel for them, leaves at its address the bits that were saved
  -- of every field and no others, and changes no other byte.
  pub read_bitfield_value-write_bitfield_value :
      (a b : ℕ) (st : Loading P H) (c' : Ctx P H)
      → AreBytes s.memory
      → 0 < schema.data_size
      → schema.data_size ≤ 8
      → All (IsWithin schema) schema.bitfield.bitdefs
      → All (IsFoundBit parse realloc event_size config schema) schema.bitfield.bitdefs
      → validate_unsigned schema schema.type (covered schema.bitfield.bitdefs (raw_at s schema a))
        ≡ ok tt
      → DeliversFields parse realloc event_size config schema st.context
          (field_texts schema.bitfield.bitdefs (raw_at s schema a))
          c'
      → Emits (write_bitfield_value (recorder s) schema a) (
          mapping_start (get_emit_style_map s.config schema)
          ∷ (field_events s schema (field_texts schema.bitfield.bitdefs (raw_at s schema a))
              ++ (mapping_end ∷ [])))
        × ((m' : Memory) × (read_bitfield_value parse realloc event_size config schema
                (suc (length (field_texts schema.bitfield.bitdefs (raw_at s schema a))))
                s.host
                b
                st
              ≡ done true (record { context = c'; memory = m' }))
            × (data_read s.host schema.data_size b m'
                ≡ ok (covered schema.bitfield.bitdefs (raw_at s schema a)))
            × ((x : ℕ) → (x < b) ⊎ (b + schema.data_size ≤ x) → m' x ≡ st.memory x))
  read_bitfield_value-write_bitfield_value a b st c' bytes p q within found valid events =
      let n = schema.data_size in
      let raw = raw_at s schema a in
      let bitdefs = schema.bitfield.bitdefs in
      let bits = covered bitdefs raw in
      let wid = Width-all n p q in
      let below : raw < 256 ^ n = object_value-lt s.host a n s.memory bytes in
      let fits : bits < 256 ^ n = omega (arith, below, covered-le bitdefs raw) in
      let fuel = suc (length (field_texts bitdefs raw)) in
      let loop =
        bits_loop-field_texts parse realloc event_size config schema bitdefs fuel raw 0 st.context
          c' q (omega (arith, below, wid.bytes, wid.cap)) (omega arith) within found events in
      let whole : bit_or 0 bits ≡ bits = bit_or_comm 0 bits ∙ bit_or-zero bits in
      let (m', stored, back, rest) =
        store_uint-Leaves s.host schema b st.memory bits p q fits valid in
      (
        write_bitfield_value-Emits s schema a p q within,
        (
          m',
          read_bitfield_value-done parse realloc event_size config schema fuel bits b s.host st
              (loop ∙ ap (λ v. done (some v) c') whole) stored,
          back ∙ ap ok (mod-eq_of_lt fits),
          rest,
        ),
      )
