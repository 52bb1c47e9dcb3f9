-- ===== src/Load/Values/Bits.antt =====
-- A bit field that src/save.c wrote as a mapping, read back by src/load.c.
use libcyaml.Base.{ℕ, ◌+◌, ◌*◌, ◌/◌, ◌^◌, ◌≤◌, ◌<◌, ◌≡◌, ap, sym, ◌∙◌}
use libcyaml.Base.{arith, ◌-◌, false, List, [], ◌∷◌, ◌++◌, All}
use libcyaml.Base.{inl, inr, ◌==◌, ◌||◌, ltb, if◌then◌else◌, Bool-cases, bit_and, bit_or}
use libcyaml.Base.{append_assoc, append-nil}
use libcyaml.Base.Shift.{field_mask_lem}
use libcyaml.Base.Complement.{bit_and_le}
use libcyaml.Data.Laws.{data_read_lem}
use libcyaml.Load.Scalar.Back.{raw_at}
use libcyaml.Base.Bits.{bit, bits_ext, bit-bit_and, bit-bit_or, bit_and-zero}
use libcyaml.Outcome.{done, ◌>>=◌, ◌>>◌}
use libcyaml.Schema.{Bytes, SchemaValue, BitDef}
use libcyaml.Number.{print_hex}
use libcyaml.Save.Style.{get_emit_style_map, get_emit_style_scalar}
use libcyaml.Save.Emitter.{Saver, scalar, str_tag, int_tag, emit_scalar}
use libcyaml.Save.Emitter.{mapping_start, mapping_end}
use libcyaml.Save.Scalar.{
  emit_bits, emit_bitfield_mapping, write_bitfield_value, bits_mask, get_uint,
}
use libcyaml.Save.Machine.Written.{Events, recorder, Emits}

-- The bits that a field takes: as many ones as it has bits, from its offset on.
abbrev pub mask : BitDef → ℕ
mask b = (2 ^ b.bits - 1) * 2 ^ b.offset

pub bits_mask-mask : (b : BitDef) → b.bits + b.offset ≤ 64 → bits_mask b ≡ mask b
bits_mask-mask b fits = field_mask_lem b.bits b.offset 0 fits

-- The value of a field within a number.
abbrev pub field_value : BitDef → ℕ → ℕ
field_value b number = bit_and number (mask b) / 2 ^ b.offset

-- The names and the values that a number is written with.
unfoldable pub field_texts : List BitDef → ℕ → List (Bytes × Bytes)
field_texts [] number = []
field_texts (b ∷ bitdefs) number =
    let rest = field_texts bitdefs number in
    if bit_and number (mask b) == 0 then rest else (b.name, print_hex (field_value b number)) ∷ rest

-- The bits of a number that some field covers.
unfoldable pub covered : List BitDef → ℕ → ℕ
covered [] number = 0
covered (b ∷ bitdefs) number = bit_or (bit_and number (mask b)) (covered bitdefs number)

-- A field of at least one bit that lies within the data.
abbrev pub IsWithin : SchemaValue → BitDef → Type 0
IsWithin schema b = (0 < b.bits) × (b.bits + b.offset ≤ schema.data_size * 8)

module _ {W : Type 0} (s : Saver W) (schema : SchemaValue) where
  abbrev pub field_events : List (Bytes × Bytes) → Events
  field_events [] = []
  field_events ((name, text) ∷ texts) =
      scalar name str_tag (get_emit_style_scalar schema)
      ∷ scalar text int_tag (get_emit_style_scalar schema)
      ∷ field_events texts

  pub emit_bits-field_texts :
      (bitdefs : List BitDef) (number : ℕ) (log : Events)
      → schema.data_size ≤ 8
      → All (IsWithin schema) bitdefs
      → emit_bits (recorder s) schema bitdefs number log
        ≡ done tt (log ++ field_events (field_texts bitdefs number))
  unfolding emit_bits field_texts emit_scalar get_uint
  emit_bits-field_texts [] number log q within = ap (λ l. done tt l) (sym (append-nil log))
  emit_bits-field_texts (b ∷ bitdefs) number log q within =
      let inside : ltb (schema.data_size * 8) (b.bits + b.offset) ≡ false =
        ground (arith, within.0.1) in
      let shifts : (b.bits == 0 || ltb 64 b.bits) ≡ false =
        ground (arith, within.0.0, within.0.1) in
      let masked : bits_mask b ≡ mask b = bits_mask-mask b (omega (arith, within.0.1)) in
      elim (Bool-cases (bit_and number (mask b) == 0)) [
        | inl e ↦
            rw (masked, inside, shifts, e) (emit_bits-field_texts bitdefs number log q within.1)
        | inr e ↦
            rw (masked, inside, shifts, e)
              (let name = scalar b.name str_tag (get_emit_style_scalar schema) in
                let text =
                  scalar (print_hex (field_value b number)) int_tag
                    (get_emit_style_scalar schema) in
                let rest = field_events (field_texts bitdefs number) in
                emit_bits-field_texts bitdefs number ((log ++ (name ∷ [])) ++ (text ∷ [])) q
                  within.1
                ∙ ap (λ l. done tt l)
                    (append_assoc (log ++ (name ∷ [])) (text ∷ []) rest
                      ∙ append_assoc log (name ∷ []) (text ∷ rest)))
      ]

  emit_bitfield_mapping-Emits :
      (number : ℕ)
      → schema.data_size ≤ 8
      → All (IsWithin schema) schema.bitfield.bitdefs
      → Emits (emit_bitfield_mapping (recorder s) schema number) (
          mapping_start (get_emit_style_map s.config schema)
          ∷ (field_events (field_texts schema.bitfield.bitdefs number) ++ (mapping_end ∷ [])))
  unfolding emit_bitfield_mapping
  emit_bitfield_mapping-Emits number q within log =
      let start = mapping_start (get_emit_style_map s.config schema) in
      let fields = field_events (field_texts schema.bitfield.bitdefs number) in
      rw
        (
          emit_bits-field_texts schema.bitfield.bitdefs number (log ++ (start ∷ [])) q within,
          ◌>>=◌,
          ◌>>◌,
        )
        (ap (λ l. done tt l)
          (append_assoc (log ++ (start ∷ [])) fields (mapping_end ∷ [])
            ∙ append_assoc log (start ∷ []) (fields ++ (mapping_end ∷ []))))

  -- A bit field is written as a mapping of its fields that are not 0.
  pub write_bitfield_value-Emits :
      (a : ℕ)
      → 0 < schema.data_size
      → schema.data_size ≤ 8
      → All (IsWithin schema) schema.bitfield.bitdefs
      → Emits (write_bitfield_value (recorder s) schema a) (
          mapping_start (get_emit_style_map s.config schema)
          ∷ (field_events (field_texts schema.bitfield.bitdefs (raw_at s schema a))
              ++ (mapping_end ∷ [])))
  unfolding write_bitfield_value
  write_bitfield_value-Emits a p q within log =
      rw (data_read_lem s.host schema.data_size a s.memory p q, ◌>>=◌)
        (emit_bitfield_mapping-Emits (raw_at s schema a) q within log)

covered_within : (bitdefs : List BitDef) (n : ℕ) → bit_and n (covered bitdefs n) ≡ covered bitdefs n
unfolding covered
covered_within [] n = bit_and-zero n
covered_within (b ∷ bitdefs) n =
    let part = bit_and n (mask b) in
    let rest = covered bitdefs n in
    bits_ext _ _ (λ k. omega (
      arith,
      bit-bit_and k n (bit_or part rest),
      bit-bit_or k part rest,
      bit-bit_and k n (mask b),
      bit-bit_and k n rest,
      ap (λ t. bit k t) (covered_within bitdefs n),
    ))

pub covered-le : (bitdefs : List BitDef) (n : ℕ) → covered bitdefs n ≤ n
covered-le bitdefs n = omega (arith, covered_within bitdefs n, bit_and_le n (covered bitdefs n))
