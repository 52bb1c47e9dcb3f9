-- ===== src/Tests/Names.antt =====
-- A value of an enumeration and a truth value, saved and loaded by their names.
use libcyaml.Base.{ℕ, ◌+◌, ◌≤◌, ◌<◌, ◌≡◌, refl, arith, ◌⊎◌, inr, [], ◌∷◌}
use libcyaml.Base.Int.{pos}
use libcyaml.Errors.{ok}
use libcyaml.Outcome.{done}
use libcyaml.Schema.{SchemaType, SchemaValue}
use libcyaml.Memory.{Memory, little_endian, read_bytes}
use libcyaml.Data.{data_read}
use libcyaml.Load.Store.{validate_signed}
use libcyaml.Load.Scalar.{read_bool, read_enum}
use libcyaml.Load.Scalar.Back.{CameBack}
use libcyaml.Load.Scalar.Named.{read_enum-write_enum, read_bool-write_bool}
use libcyaml.Save.Style.{any_scalar, get_emit_style_scalar}
use libcyaml.Save.Emitter.{Saver, scalar, str_tag, bool_tag}
use libcyaml.Save.Scalar.{write_bool, write_enum, true_text}
use libcyaml.Save.Machine.Written.{Events, recorder, Emits}
use libcyaml.Tests.Integers.{config, plain_schema, blank}
use libcyaml.Tests.Saving.{saver}

-- Memory of ones.
abbrev ones : Saver Events
ones = record saver { memory = λ x. 1 }

abbrev enum_schema : SchemaValue
enum_schema =
    let s = plain_schema SchemaType.enum 1 [] in
    record s {
      enumeration = record s.enumeration {
        strings =
            record { str = 97 ∷ []; val = pos 0 } ∷ record { str = 98 ∷ []; val = pos 1 } ∷ [];
      };
    }

read_enum-write_enum_example :
    Emits (write_enum (recorder ones) enum_schema 8) (scalar (98 ∷ []) str_tag any_scalar ∷ [])
    × CameBack ones enum_schema 8 (read_enum config little_endian enum_schema (98 ∷ []) 16) 16 blank
unfolding get_emit_style_scalar read_bytes
read_enum-write_enum_example =
    read_enum-write_enum ones config enum_schema 8 16 blank (98 ∷ [])
      (record { str = 97 ∷ []; val = pos 0 } ∷ []) [] (λ x. omega arith) (omega arith) (omega arith)
      (refl, inr refl) refl ((λ e. ground (arith, e), λ e. ground (arith, e)), tt)
      (omega arith, omega arith) (unfold validate_signed in refl)

abbrev bool_schema : SchemaValue
bool_schema = plain_schema SchemaType.bool 2 []

read_bool-write_bool_example :
    Emits (write_bool (recorder ones) bool_schema 8) (scalar true_text bool_tag any_scalar ∷ [])
    × ((m' : Memory) × (read_bool little_endian bool_schema true_text 16 blank ≡ done tt m')
        × (data_read little_endian 2 16 m' ≡ ok 1)
        × ((x : ℕ) → (x < 16) ⊎ (16 + 2 ≤ x) → m' x ≡ blank x))
unfolding get_emit_style_scalar read_bytes
read_bool-write_bool_example =
    read_bool-write_bool ones bool_schema 8 16 blank (omega arith) (omega arith)
