-- ===== src/Strings/Order.antt =====
-- The answer 0 of `cyaml__strcmp` of src/util.h.
use libcyaml.Base.{ℕ, ◌≡◌, ◌≢◌, ◌↔◌, ◌⊎◌, inl, inr, refl, ap, arith}
use libcyaml.Base.{true, [], ◌∷◌, ◌++◌, Bool-cases, bit_and}
use libcyaml.Base.Int.{ℤ, pos}
use libcyaml.Schema.{Bytes, SchemaValue, Config}
use libcyaml.Strings.{c_strcmp, strcmp, is_case_sensitive}
use libcyaml.Utf8.{returns, casecmp}

pub c_strcmp-zero : (s t : Bytes) → c_strcmp s t ≡ pos 0 → s ≡ t
unfolding c_strcmp
c_strcmp-zero [] [] e = refl
c_strcmp-zero [] (y ∷ ys) e = cc
c_strcmp-zero (x ∷ xs) [] e = ground arith
c_strcmp-zero (x ∷ xs) (y ∷ ys) e = ground (arith, c_strcmp-zero xs ys)

c_strcmp_refl : (s : Bytes) → c_strcmp s s ≡ pos 0
unfolding c_strcmp
c_strcmp_refl [] = refl
c_strcmp_refl (x ∷ xs) = ground (arith, c_strcmp_refl xs)

pub c_strcmp-same : (s t : Bytes) → s ≡ t → c_strcmp s t ≡ pos 0
c_strcmp-same s t e = rw e (c_strcmp_refl t)

returns-zero : (d : ℤ) → returns d ≡ returns (pos 0) → d ≡ pos 0
returns-zero d e = cc

-- What include/cyaml/cyaml.h says of the flags: a schema that asks for comparison without regard to
-- case gets it, also if it asks for both; one that asks for neither gets what the configuration has.
abbrev pub RegardsCase : ℕ → ℕ → Type 0
RegardsCase schema_flags config_flags =
    (bit_and schema_flags 256 ≡ 0)
    × ((bit_and schema_flags 128 ≢ 0) ⊎ (bit_and config_flags 16 ≡ 0))

pub RegardsCase-sensitive :
    (config : Config) (schema : SchemaValue)
    → RegardsCase schema.flags config.flags
    → is_case_sensitive config schema ≡ true
unfolding is_case_sensitive
RegardsCase-sensitive config schema (insensitive, inl sensitive) = ground arith
RegardsCase-sensitive config schema (insensitive, inr configured) = ground arith

sensitive-RegardsCase :
    (config : Config) (schema : SchemaValue)
    → is_case_sensitive config schema ≡ true
    → RegardsCase schema.flags config.flags
unfolding is_case_sensitive
sensitive-RegardsCase config schema e = ground (arith, e)

-- Where the flags regard the case, `cyaml__strcmp` answers 0 exactly for equal strings; where they do
-- not, it answers as `cyaml_utf8_casecmp` on the terminated strings.
pub strcmp-RegardsCase :
    (config : Config) (schema : SchemaValue) (s t : Bytes)
    → (RegardsCase schema.flags config.flags
        × ((strcmp config schema s t ≡ returns (pos 0)) ↔ (s ≡ t)))
      ⊎ (¬ RegardsCase schema.flags config.flags
          × (strcmp config schema s t ≡ casecmp (s ++ (0 ∷ [])) (t ++ (0 ∷ []))))
unfolding strcmp
strcmp-RegardsCase config schema s t = elim (Bool-cases (is_case_sensitive config schema)) [
  | inl e ↦ inl (
    sensitive-RegardsCase config schema e,
    rw e (λ z. c_strcmp-zero s t (returns-zero _ z), λ z. ap returns (c_strcmp-same s t z)),
  )
  | inr e ↦ inr ((λ w. let f = RegardsCase-sensitive config schema w in cc), rw e refl)
]
