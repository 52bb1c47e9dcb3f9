-- ===== src/Load/Fields/Key.antt =====
-- The search for a mapping's key in src/load.c, with case-sensitive comparison.
use mathlib.Core.Path.{subst}
use libcyaml.Base.{ℕ, zero, suc, ◌+◌, ◌%◌, ◌^◌, ◌<◌, ◌≡◌, ◌≢◌, refl, arith}
use libcyaml.Base.{true, false, Option, some, List, [], ◌∷◌, length, get_elem?}
use libcyaml.Base.{Bool-cases, ◌⊎◌, inl, inr}
use libcyaml.Base.Int.{pos, eqb_ℤ, eqb_ℤ→eq}
use libcyaml.Schema.{Bytes, SchemaValue, Field, Config}
use libcyaml.Strings.{strcmp, c_strcmp, is_case_sensitive}
use libcyaml.Strings.Order.{c_strcmp-zero, c_strcmp-same}
use libcyaml.Load.Fields.{find_field, get_mapping_field_idx, is_zero, fields_idx_none}

-- The answer `base + i` for the first field with the key, or the value for no field.
pub data Located (key : Bytes) (fields : List Field) (base : ℕ) : Option ℕ → Type 0 where
  found :
      (i : ℕ) (f : Field)
      → get_elem? fields i ≡ some f
      → f.key ≡ key
      → ((j : ℕ) (g : Field) → j < i → get_elem? fields j ≡ some g → g.key ≢ key)
      → Located key fields base (some (base + i))
  missing :
      ((j : ℕ) (g : Field) → get_elem? fields j ≡ some g → g.key ≢ key)
      → Located key fields base (some fields_idx_none)

compared :
    (config : Config) (schema : SchemaValue) (s t : Bytes)
    → is_case_sensitive config schema ≡ true
    → is_zero (strcmp config schema s t) ≡ some (eqb_ℤ (c_strcmp s t) (pos 0))
unfolding strcmp
compared config schema s t sensitive = rw sensitive refl

Located-next :
    (key : Bytes) (f : Field) (fields : List Field) (base : ℕ)
    → f.key ≢ key
    → (o : Option ℕ) → Located key fields (base + 1) o
    → Located key (f ∷ fields) base o
Located-next key f fields base ne _ (found i g at same first) =
    subst (λ n. Located key (f ∷ fields) base (some n)) (omega arith)
      (found (suc i) g at same before)
  where
    before : (j : ℕ) (g : Field) → j < suc i → get_elem? (f ∷ fields) j ≡ some g → g.key ≢ key
    before zero g lt at = λ e. ne (cc (at, e))
    before (suc j) g lt at = first j g (omega (arith, lt)) at
Located-next key f fields base ne _ (missing none_) = missing before
  where
    before : (j : ℕ) (g : Field) → get_elem? (f ∷ fields) j ≡ some g → g.key ≢ key
    before zero g at = λ e. ne (cc (at, e))
    before (suc j) g at = none_ j g at

find_field-Located :
    (config : Config) (schema : SchemaValue) (key : Bytes) (fields : List Field) (base : ℕ)
    → is_case_sensitive config schema ≡ true
    → base + length fields < 0xffff
    → Located key fields base (find_field config schema key fields base)
unfolding find_field
find_field-Located config schema key [] base sensitive lt = missing (λ j g e. cc)
find_field-Located config schema key (f ∷ fields) base sensitive lt =
    go (Bool-cases (eqb_ℤ (c_strcmp f.key key) (pos 0)))
      (find_field-Located config schema key fields (base + 1) sensitive (omega (arith, lt)))
  where
    small : (base + 1) % 2 ^ 16 ≡ base + 1
    small = omega (arith, lt)

    test : is_zero (strcmp config schema f.key key) ≡ some (eqb_ℤ (c_strcmp f.key key) (pos 0))
    test = compared config schema f.key key sensitive

    go :
        (eqb_ℤ (c_strcmp f.key key) (pos 0) ≡ true) ⊎ (eqb_ℤ (c_strcmp f.key key) (pos 0) ≡ false)
        → Located key fields (base + 1) (find_field config schema key fields (base + 1))
        → Located key (f ∷ fields) base (find_field config schema key (f ∷ fields) base)
    go (inl e) rest =
        rw (test, find_field, e)
          (subst (λ n. Located key (f ∷ fields) base (some n)) (omega arith)
            (found 0 f refl (c_strcmp-zero f.key key (eqb_ℤ→eq _ _ e))
              (λ j g l. absurd (omega arith))))
    go (inr e) rest =
        rw (test, find_field, e, small)
          (Located-next key f fields base (λ q. cc (rw (c_strcmp-same f.key key q) at e)) _ rest)

-- For a schema with less than 65535 fields and case-sensitive comparison, the search answers the
-- index of the first field with the key, or CYAML_FIELDS_IDX_NONE if there is none.
pub get_mapping_field_idx-Located :
    (config : Config) (schema : SchemaValue) (key : Bytes)
    → is_case_sensitive config schema ≡ true
    → length schema.mapping.fields < 0xffff
    → Located key schema.mapping.fields 0 (get_mapping_field_idx config schema key)
unfolding get_mapping_field_idx
get_mapping_field_idx-Located config schema key sensitive lt =
    find_field-Located config schema key schema.mapping.fields 0 sensitive (omega (arith, lt))
