-- ===== src/Params/Accepted.antt =====
-- The parameters that src/load.c, src/save.c and src/copy.c accept.
use libcyaml.Base.{ℕ, ◌≡◌, ◌↔◌, refl, arith, Bool, true, false, not, Option, none, some, ◌==◌}
use libcyaml.Errors.{ok}
use libcyaml.Schema.{SchemaValue}
use libcyaml.Schema.Flag
use libcyaml.Strings.{has_flag}
use libcyaml.Params.{validate_top_level, validate_load_params, validate_save_params}
use libcyaml.Params.{is_sequence, differ}

differ_same : (a b : Bool) → differ a b ≡ false → a ≡ b
differ_same true true e = refl
differ_same true false e = cc
differ_same false true e = cc
differ_same false false e = refl

differ_self : (b : Bool) → differ b b ≡ false
differ_self true = refl
differ_self false = refl

-- The schema of a top-level value is given, is a pointer, and is a sequence exactly if it is counted.
abbrev pub IsTopLevel : Option SchemaValue → Bool → Type 0
IsTopLevel none counted = ⊥
IsTopLevel (some schema) counted =
    (is_sequence schema.type ≡ counted) × (has_flag schema.flags Flag.pointer ≡ true)

validate_top_level_accepts :
    (config : Option Bool) (schema : Option SchemaValue) (counted given : Bool)
    → (validate_top_level config schema counted given ≡ ok tt)
      ↔ ((config ≡ some true) × IsTopLevel schema counted × (given ≡ true))
unfolding validate_top_level
validate_top_level_accepts none schema counted given = (λ e. cc, λ h. cc (h.0))
validate_top_level_accepts (some false) schema counted given = (λ e. cc, λ h. cc (h.0))
validate_top_level_accepts (some true) none counted given = (λ e. cc, λ h. elim h.1 [ ])
validate_top_level_accepts (some true) (some schema) counted given = (
  λ e. (
    refl,
    (ground (arith, differ_same (is_sequence schema.type) counted), ground arith),
    ground arith,
  ),
  λ h. rw (h.1.0, differ_self counted, h.1.1, h.2) refl,
)

-- cyaml__validate_load_params accepts exactly the calls with a configuration that has a memory
-- function, a schema that is a pointer, and data; a count is given exactly if the schema is a sequence.
pub validate_load_params_accepts :
    (config : Option Bool) (schema : Option SchemaValue) (data_tgt seq_count_tgt : Bool)
    → (validate_load_params config schema data_tgt seq_count_tgt ≡ ok tt)
      ↔ ((config ≡ some true) × IsTopLevel schema seq_count_tgt × (data_tgt ≡ true))
unfolding validate_load_params
validate_load_params_accepts config schema data_tgt seq_count_tgt =
    validate_top_level_accepts config schema seq_count_tgt data_tgt

-- cyaml__validate_save_params accepts exactly the calls with a configuration that has a memory
-- function, a schema that is a pointer, and data, where the count is not 0 exactly if the schema is a
-- sequence. This is what the code does; include/cyaml/cyaml.h (at cyaml_save_file and cyaml_save_data)
-- says that the count is ignored for other types, which the code refuses with any count but 0.
pub validate_save_params_accepts :
    (config : Option Bool) (schema : Option SchemaValue) (given : Bool) (seq_count : ℕ)
    → (validate_save_params config schema given seq_count ≡ ok tt)
      ↔ ((config ≡ some true) × IsTopLevel schema (not (seq_count == 0)) × (given ≡ true))
unfolding validate_save_params
validate_save_params_accepts config schema given seq_count =
    validate_top_level_accepts config schema (not (seq_count == 0)) given
