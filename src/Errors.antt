-- ===== src/Errors.antt =====
-- Error codes of include/cyaml/cyaml.h, and results that carry them.
use libcyaml.Base.{ℕ, Bool, true, false}

-- `cyaml_err_t` without `CYAML_OK`, which is `Result.ok`.
pub data Err : Type 0 where
  oom alias file_open invalid_key invalid_value invalid_alias internal_error : Err
  unexpected_event string_length_min string_length_max invalid_data_size : Err
  top_level_non_ptr bad_type_in_schema bad_min_max_schema bad_param_seq_count : Err
  bad_param_null_data bad_bitval_in_schema sequence_entries_min sequence_entries_max : Err
  sequence_fixed_count sequence_in_sequence mapping_field_missing : Err
  bad_config_null_memfn bad_param_null_config bad_param_null_schema : Err
  data_target_non_null libyaml_emitter_init libyaml_parser_init libyaml_event_init : Err
  libyaml_emitter libyaml_parser : Err

-- What a function answers: `CYAML_OK` with its value, or an error code.
pub data Result {ℓ} (A : Type ℓ) : Type ℓ where
  ok : A → Result A
  fail : Err → Result A

infixl 5 ◌>>=◌ ◌>>◌
abbrev pub ◌>>=◌ {ℓ κ} : {A : Type ℓ} {B : Type κ} → Result A → (A → Result B) → Result B
ok a >>= f = f a
fail e >>= f = fail e

abbrev pub ◌>>◌ {ℓ} : {B : Type ℓ} → Result (Unit {0}) → Result B → Result B
m >> k = m >>= λ _. k

-- `if (!test) return e;`
abbrev pub require : Bool → Err → Result (Unit {0})
require true e = ok tt
require false e = fail e

-- The code of each error in the enumeration; `CYAML_OK` is 0.
abbrev pub code : Err → ℕ
code oom = 1
code alias = 2
code file_open = 3
code invalid_key = 4
code invalid_value = 5
code invalid_alias = 6
code internal_error = 7
code unexpected_event = 8
code string_length_min = 9
code string_length_max = 10
code invalid_data_size = 11
code top_level_non_ptr = 12
code bad_type_in_schema = 13
code bad_min_max_schema = 14
code bad_param_seq_count = 15
code bad_param_null_data = 16
code bad_bitval_in_schema = 17
code sequence_entries_min = 18
code sequence_entries_max = 19
code sequence_fixed_count = 20
code sequence_in_sequence = 21
code mapping_field_missing = 22
code bad_config_null_memfn = 23
code bad_param_null_config = 24
code bad_param_null_schema = 25
code data_target_non_null = 26
code libyaml_emitter_init = 27
code libyaml_parser_init = 28
code libyaml_event_init = 29
code libyaml_emitter = 30
code libyaml_parser = 31
