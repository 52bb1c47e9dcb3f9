-- ===== src/Load/Fields/Default.antt =====
-- The default of a missing integer field of a mapping, src/load.c, as src/save.c reads it.
use mathlib.Core.Path.{subst}
use libcyaml.Base.{ℕ, ◌≡◌, refl, ap, sym, ◌∙◌}
use libcyaml.Base.{true, false, Option, ◌⊎◌, inl, inr, Bool-cases}
use libcyaml.Base.Int.{ℤ, pos, eqb_ℤ, eqb_ℤ→eq}
use libcyaml.Errors.{Result, ok, fail}
use libcyaml.Outcome.{done}
use libcyaml.Schema.{SchemaType, SchemaValue}
use libcyaml.Schema.Flag
use libcyaml.Memory.{Memory, Host}
use libcyaml.Data.{data_read}
use libcyaml.Strings.{has_flag}
use libcyaml.Save.Sign.{sign_pad}
use libcyaml.Load.Store.{FloatUnit, store_int}
use libcyaml.Load.Store.Laws.{sign_pad-store_int}
use libcyaml.Load.Fields.{field_scalar_apply_default, numerical_default_zero, store_default, stored}

-- Saving reads `v` at the address.
abbrev pub HoldsInt : Host → SchemaValue → ℕ → Memory → ℤ → Type 0
HoldsInt h schema a m v =
    (raw : ℕ) × (data_read h schema.data_size a m ≡ ok raw) × (sign_pad raw schema.data_size ≡ v)

module _ {H : Type 0} (h : Host) (fpu : FloatUnit) (alloc : H → ℕ → Option ℕ × H) where
  default_zero :
      (schema : SchemaValue)
      → schema.type ≡ SchemaType.int
      → numerical_default_zero schema schema.type ≡ eqb_ℤ (pos 0) schema.integer.missing
  unfolding numerical_default_zero
  default_zero schema is = rw is refl

  applied_zero :
      (schema : SchemaValue) (target : ℕ) (m : Memory) (heap : H)
      → numerical_default_zero schema schema.type ≡ true
      → field_scalar_apply_default h fpu alloc schema target (m, heap) ≡ done tt (m, heap)
  unfolding field_scalar_apply_default
  applied_zero schema target m heap z = rw (z, field_scalar_apply_default) refl

  stored_ok :
      (r : Result Memory) (m : Memory) (heap : H) (s : Memory × H)
      → stored h fpu alloc r (m, heap) ≡ done tt s
      → r ≡ ok s.0
  stored_ok (ok m') m heap s e = ap ok (cc e)
  stored_ok (fail x) m heap s e = cc e

  applied_int :
      (schema : SchemaValue) (target : ℕ) (m : Memory) (heap : H)
      → schema.type ≡ SchemaType.int
      → has_flag schema.flags Flag.pointer ≡ false
      → numerical_default_zero schema schema.type ≡ false
      → field_scalar_apply_default h fpu alloc schema target (m, heap)
        ≡ stored h fpu alloc (store_int h schema target schema.integer.missing false m) (m, heap)
  unfolding field_scalar_apply_default store_default
  applied_int schema target m heap is plain z = rw (z, field_scalar_apply_default, plain, is) refl

  -- The default of a missing integer field that is no pointer: if the field's bytes are zero and the
  -- call succeeds, then saving reads the schema's `missing` value from the field.
  pub sign_pad-field_scalar_apply_default :
      (schema : SchemaValue) (target : ℕ) (m : Memory) (heap : H) (s : Memory × H)
      → schema.type ≡ SchemaType.int
      → has_flag schema.flags Flag.pointer ≡ false
      → HoldsInt h schema target m (pos 0)
      → field_scalar_apply_default h fpu alloc schema target (m, heap) ≡ done tt s
      → HoldsInt h schema target s.0 schema.integer.missing
  sign_pad-field_scalar_apply_default schema target m heap s is plain zeroed e =
      go (Bool-cases (eqb_ℤ (pos 0) schema.integer.missing))
    where
      go :
          (eqb_ℤ (pos 0) schema.integer.missing ≡ true)
            ⊎ (eqb_ℤ (pos 0) schema.integer.missing ≡ false)
          → HoldsInt h schema target s.0 schema.integer.missing
      go (inl z) =
          let same : done tt (m, heap) ≡ done tt s =
            sym (applied_zero schema target m heap (default_zero schema is ∙ z)) ∙ e in
          let left : m ≡ s.0 = cc same in
          subst (λ t. HoldsInt h schema target t schema.integer.missing) left
            (subst (λ v. HoldsInt h schema target m v) (eqb_ℤ→eq _ _ z) zeroed)
      go (inr z) =
          let r =
            stored_ok _ m heap s
              (sym (applied_int schema target m heap is plain (default_zero schema is ∙ z)) ∙ e) in
          let (raw, reads, padded, _) =
            sign_pad-store_int h schema target schema.integer.missing false m s.0 r in
          (raw, reads, padded)
