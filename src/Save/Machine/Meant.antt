-- ===== src/Save/Machine/Meant.antt =====
-- src/save.c: what its functions find in the schema and the data is what the document is told by.
use libcyaml.Base.{ℕ, ◌+◌, ◌*◌, ◌%◌, ◌^◌, ◌≡◌, ◌≢◌, refl, ap, sym, ◌∙◌, arith, ◌⊎◌, inl, inr}
use libcyaml.Base.{true, false, ◌==◌, Bool-cases, bit_and, if◌then◌else◌}
use libcyaml.Errors.{ok}
use libcyaml.Schema.{SchemaType, SchemaValue, Field}
use libcyaml.Schema.Flag
use libcyaml.Strings.{has_flag}
use libcyaml.Data.{data_save_handle_pointer}
use libcyaml.Data.Laws.{data_read_lem}
use libcyaml.Load.Store.{flag_check_all}
use libcyaml.Save.Emitter.{Saver, emit_scalar, emit_event_helper}
use libcyaml.Save.Machine.{write_null, field_count, is_left_out, entry_size}
use libcyaml.Save.Machine.{is_type_sequence, is_type_fixed, is_type_ignore}
use libcyaml.Save.Machine.Written.{Events, recorder, Emits, target, IsNull, IsLeft, HasEntries}
use libcyaml.Save.Machine.Written.{fixed_or, pitch}

is_type_ignore-ignore : (t : SchemaType) → is_type_ignore t ≡ true → t ≡ SchemaType.ignore
is_type_ignore-ignore SchemaType.ignore e = refl
is_type_ignore-ignore _ e = cc

module _ {W : Type 0} (s : Saver W) where
  pub if-fixed_or :
      (t : SchemaType) (a b : ℕ) → (if is_type_fixed t then a else b) ≡ fixed_or s t a b
  if-fixed_or SchemaType.sequence_fixed a b = refl
  if-fixed_or _ a b = refl

  pub data_save_handle_pointer-target :
      (schema : SchemaValue) (place : ℕ)
      → data_save_handle_pointer s.host schema place s.memory ≡ target s schema place
  unfolding data_save_handle_pointer
  data_save_handle_pointer-target schema place =
      elim (Bool-cases (bit_and schema.flags Flag.pointer == 0)) [
        | inl e ↦ rw e refl
        | inr e ↦ rw e refl
      ]

  pub entry_size-pitch : (value : SchemaValue) → entry_size s value ≡ pitch s value
  entry_size-pitch value = elim (Bool-cases (has_flag value.flags Flag.pointer)) [
    | inl e ↦ rw e refl
    | inr e ↦
        rw e
          (if-fixed_or value.type (value.data_size * value.sequence.max % 2 ^ 64) value.data_size)
  ]

  pub not_sequence : (t : SchemaType) → t ≢ SchemaType.sequence → is_type_sequence t ≡ false
  not_sequence SchemaType.sequence ne = absurd (ne refl)
  not_sequence _ ne = refl

  -- What `cyaml__write_mapping` tests, for a field that it passes over.
  abbrev pub IsSkipped : Field → ℕ → Type 0
  IsSkipped field p =
      let value = s.schemas field.value in
      (is_type_ignore value.type ≡ true) ⊎ (is_left_out s field p value ≡ true)

  pub IsLeft-IsSkipped : (field : Field) (p : ℕ) → IsLeft s field p → IsSkipped field p
  IsLeft-IsSkipped field p (inl e) = inl (rw e refl)
  IsLeft-IsSkipped field p (inr (a, b, c)) = inr (ground arith)

  pub IsSkipped-IsLeft : (field : Field) (p : ℕ) → IsSkipped field p → IsLeft s field p
  IsSkipped-IsLeft field p (inl e) = inl (is_type_ignore-ignore _ e)
  IsSkipped-IsLeft field p (inr e) = inr (ground (arith, e))

  pub HasEntries-field_count :
      (field : Field) (p : ℕ) (value : SchemaValue) (t : SchemaType) (n : ℕ)
      → HasEntries s field p value t n
      → field_count s field p value t ≡ ok n
  HasEntries-field_count field p value SchemaType.sequence n (a, b, e) =
      data_read_lem s.host field.count_size (p + field.count_offset) s.memory a b ∙ ap ok (sym e)
  HasEntries-field_count field p value SchemaType.sequence_fixed n e = ap ok (sym e)
  HasEntries-field_count field p value _ n e = ap ok (sym e)

  pub IsNull-Emits :
      (schema : SchemaValue) (evs : Events)
      → IsNull s schema evs
      → Emits (write_null (recorder s) schema) evs
  unfolding write_null flag_check_all emit_scalar emit_event_helper
  IsNull-Emits schema evs (inl (e, same)) log = rw (e, same) refl
  IsNull-Emits schema evs (inr (ne, e, same)) log =
      let no : (bit_and schema.flags 14 == 14) ≡ false = ground (arith, ne) in rw (no, e, same) refl
