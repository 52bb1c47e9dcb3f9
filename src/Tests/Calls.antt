-- ===== src/Tests/Calls.antt =====
-- Runs of the checks of parameters and of the dispatch table.
use libcyaml.Base.{◌≡◌, ◌↔◌, refl, true, false, not, some, none, ◌==◌}
use libcyaml.Errors.{ok, fail, top_level_non_ptr}
use libcyaml.Strings.{State}
use libcyaml.Load.Events.{EventType}
use libcyaml.Params.{
  validate_load_params, validate_save_params, validate_top_level, load_event_handler,
}
use libcyaml.Params.Accepted.{
  IsTopLevel, validate_load_params_accepts, validate_save_params_accepts,
}
use libcyaml.Tests.Integers.{int_schema}

-- A top-level schema that is no pointer.
plain_refused :
    validate_load_params (some true) (some int_schema) true false ≡ fail top_level_non_ptr
unfolding validate_load_params validate_top_level
plain_refused = refl

no_handler : load_event_handler State.in_map_key EventType.seq_start ≡ none
unfolding load_event_handler
no_handler = refl

validate_load_params_accepts_example :
    (validate_load_params (some true) (some int_schema) true false ≡ ok tt)
    ↔ ((some true ≡ some true) × IsTopLevel (some int_schema) false × (true ≡ true))
validate_load_params_accepts_example =
    validate_load_params_accepts (some true) (some int_schema) true false

validate_save_params_accepts_example :
    (validate_save_params (some true) (some int_schema) true 0 ≡ ok tt)
    ↔ ((some true ≡ some true) × IsTopLevel (some int_schema) (not (0 == 0)) × (true ≡ true))
validate_save_params_accepts_example =
    validate_save_params_accepts (some true) (some int_schema) true 0
