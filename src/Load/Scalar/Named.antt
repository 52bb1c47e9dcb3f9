-- ===== src/Load/Scalar/Named.antt =====
-- Booleans and enumerations that src/save.c wrote by name, read back by src/load.c.
use libcyaml.Base.{
  ℕ, ◌*◌, ◌-◌, ◌+◌, ◌%◌, ◌^◌, ◌≤◌, ◌<◌, ◌≡◌, refl, ap, sym, ◌∙◌, arith, ◌⊎◌, Bool, true, false,
}
use libcyaml.Base.{some, List, [], ◌∷◌, ◌++◌, ◌==◌, if◌then◌else◌, ◌≢◌, All, Bool-cases, inl, inr}
use libcyaml.Strings.{c_strcmp}
use libcyaml.Strings.Order.{c_strcmp-zero, c_strcmp-same, RegardsCase, RegardsCase-sensitive}
use libcyaml.Base.Int.{ℤ, pos, eqb_ℤ, eqb_ℤ→eq, eqb_ℤ_refl, to_u64, of_u64, to_u64-of_u64}
use libcyaml.Base.Width.{Width-all}
use libcyaml.Errors.{ok}
use libcyaml.Outcome.{done, ◌>>=◌}
use libcyaml.Schema.{Bytes, SchemaValue, StrVal, Config}
use libcyaml.Memory.{Memory, Host}
use libcyaml.Data.{data_read}
use libcyaml.Data.Laws.{data_read-data_write, data_read_lem}
use libcyaml.Load.Store.{store_int, store_bool, validate_signed}
use libcyaml.Load.Store.Range.{FitsInt}
use libcyaml.Load.Scalar.{read_bool, read_enum, find_strval, bool_value, false_strings, stores}
use libcyaml.Load.Scalar.Back.{AreBytes, object_value-lt, raw_at, CameBack, store_int-Leaves}
use libcyaml.Utf8.{compare_round, char_len, compare_ascii, difference}
use libcyaml.Save.Style.{get_emit_style_scalar}
use libcyaml.Save.Emitter.{Saver, scalar, str_tag, bool_tag, emit_scalar}
use libcyaml.Save.Scalar.{write_bool, write_enum, enum_name, true_text, false_text}
use libcyaml.Save.Machine.Written.{recorder, Emits}
use libcyaml.Save.Machine.Simulated.{emit-recorder}
use native.Mathlib.Nat.{mod-eq_of_lt, one-le-pow}

true_text_value : bool_value true_text false_strings ≡ some true
unfolding bool_value compare_round char_len compare_ascii difference
true_text_value = refl

false_text_value : bool_value false_text false_strings ≡ some false
unfolding bool_value compare_round char_len compare_ascii
false_text_value = refl

-- No entry has the value or the name.
abbrev pub AreOthers : ℤ → Bytes → List StrVal → Type 0
AreOthers value text strings = All (λ o. (o.val ≢ value) × (o.str ≢ text)) strings

-- The name of a value, from the entries around its own.
enum_name-at :
    (value : ℤ) (text : Bytes) (before after : List StrVal)
    → AreOthers value text before
    → enum_name (before ++ (record { str = text; val = value } ∷ after)) value ≡ some text
unfolding enum_name
enum_name-at value text [] after others = rw (eqb_ℤ_refl value) refl
enum_name-at value text (o ∷ before) after (other, others) =
    let ih = enum_name-at value text before after others in
    elim (Bool-cases (eqb_ℤ value o.val)) [
      | inl e ↦ absurd (other.0 (sym (eqb_ℤ→eq value o.val e)))
      | inr e ↦ rw e ih
    ]

find_strval-at :
    (config : Config) (schema : SchemaValue) (value : ℤ) (text : Bytes) (before after : List StrVal)
    → RegardsCase schema.flags config.flags
    → AreOthers value text before
    → find_strval config schema text (before ++ (record { str = text; val = value } ∷ after))
      ≡ some (some value)
unfolding find_strval
find_strval-at config schema value text [] after regards others =
    rw (find_strval, RegardsCase-sensitive config schema regards, c_strcmp-same text text refl) refl
find_strval-at config schema value text (o ∷ before) after regards (other, others) =
    let ih = find_strval-at config schema value text before after regards others in
    elim (Bool-cases (eqb_ℤ (c_strcmp text o.str) (pos 0))) [
      | inl e ↦ absurd (other.1 (sym (c_strcmp-zero text o.str (eqb_ℤ→eq _ _ e))))
      | inr e ↦ rw (find_strval, RegardsCase-sensitive config schema regards, e) ih
    ]

module _ (config : Config) (h : Host) (schema : SchemaValue) (text : Bytes) (b : ℕ) (m : Memory)
    {m' : Memory} where
  read_enum_named :
      (v : ℤ)
      → find_strval config schema text schema.enumeration.strings ≡ some (some v)
      → store_int h schema b v true m ≡ ok m'
      → read_enum config h schema text b m ≡ done tt m'
  unfolding read_enum
  read_enum_named v e f = rw (read_enum, e, f, stores) refl

module _ (h : Host) (schema : SchemaValue) (text : Bytes) (b : ℕ) (m : Memory) {m' : Memory} where
  read_bool_value :
      (v : Bool)
      → bool_value text false_strings ≡ some v
      → store_bool h schema b v m ≡ ok m'
      → read_bool h schema text b m ≡ done tt m'
  unfolding read_bool
  read_bool_value v e f = rw (read_bool, e, f, stores) refl

module _ {W : Type 0} (s : Saver W) (config : Config) (schema : SchemaValue) (a b : ℕ)
    (m : Memory) where
  -- A value of an enumeration that was saved by its name loads to the same bytes: for a size of 1 to 8
  -- bytes, flags that regard the case of names, and a value that some entry of the enumeration has, no
  -- entry before it having its value or its name, that is in the range of a signed integer of the size
  -- and that the schema's validation accepts, saving emits the name of that entry, and loading the name
  -- at any address succeeds, leaves there the value that was saved, and changes no other byte.
  pub read_enum-write_enum :
      (text : Bytes) (before after : List StrVal)
      → AreBytes s.memory
      → 0 < schema.data_size
      → schema.data_size ≤ 8
      → RegardsCase schema.flags config.flags
      → schema.enumeration.strings
        ≡ before ++ (record { str = text; val = of_u64 (raw_at s schema a) } ∷ after)
      → AreOthers (of_u64 (raw_at s schema a)) text before
      → FitsInt schema.data_size (of_u64 (raw_at s schema a))
      → validate_signed schema schema.type (of_u64 (raw_at s schema a)) ≡ ok tt
      → Emits
          (write_enum (recorder s) schema a)
          (scalar text str_tag (get_emit_style_scalar schema) ∷ [])
        × CameBack s schema a (read_enum config s.host schema text b) b m
  unfolding write_enum read_enum emit_scalar
  read_enum-write_enum text before after bytes p q regards entries others fits valid =
      let n = schema.data_size in
      let raw = raw_at s schema a in
      let named : enum_name schema.enumeration.strings (of_u64 raw) ≡ some text =
        rw entries (enum_name-at (of_u64 raw) text before after others) in
      let found : find_strval config schema text schema.enumeration.strings
          ≡ some (some (of_u64 raw)) =
        rw entries (find_strval-at config schema (of_u64 raw) text before after regards others) in
      let below = object_value-lt s.host a n s.memory bytes in
      let wid = Width-all n p q in
      let (m', stored, back, rest) =
        store_int-Leaves s.host schema b m (of_u64 raw) p q fits valid in
      let low : to_u64 (of_u64 raw) % 256 ^ n ≡ raw =
        ap (λ k. k % 256 ^ n) (to_u64-of_u64 raw (omega (arith, below, wid.bytes, wid.cap)))
        ∙ mod-eq_of_lt below in
      (
        (λ log. rw (data_read_lem s.host n a s.memory p q, ◌>>=◌, named) (emit-recorder s _ log)),
        (
          m',
          read_enum_named config s.host schema text b m (of_u64 raw) found stored,
          back ∙ ap ok low ∙ sym (data_read_lem s.host n a s.memory p q),
          rest,
        ),
      )

module _ {W : Type 0} (s : Saver W) (schema : SchemaValue) (a b : ℕ) (m : Memory) where
  loaded :
      (zero_value : Bool)
      → 0 < schema.data_size
      → schema.data_size ≤ 8
      → (m' : Memory) × (read_bool s.host schema (if zero_value then false_text else true_text) b m
          ≡ done tt m')
        × (data_read s.host schema.data_size b m' ≡ ok (if zero_value then 0 else 1))
        × ((x : ℕ) → (x < b) ⊎ (b + schema.data_size ≤ x) → m' x ≡ m x)
  unfolding store_bool
  loaded true p q =
      let (m', stored, back, rest) = data_read-data_write s.host 0 schema.data_size b m p q in
      (
        m',
        read_bool_value s.host schema false_text b m false false_text_value stored,
        back
            ∙ ap ok (
                mod-eq_of_lt (
                  omega (
                    arith,
                    (Width-all schema.data_size p q).bytes,
                    (Width-all schema.data_size p q).double,
                    one-le-pow (schema.data_size * 8 - 1) 2 (omega arith),
                  ))),
        rest,
      )
  loaded false p q =
      let (m', stored, back, rest) = data_read-data_write s.host 1 schema.data_size b m p q in
      let wid = Width-all schema.data_size p q in
      (
        m',
        read_bool_value s.host schema true_text b m true true_text_value stored,
        back
            ∙ ap ok (
                mod-eq_of_lt (
                  omega (
                    arith,
                    wid.bytes,
                    wid.double,
                    one-le-pow (schema.data_size * 8 - 1) 2 (omega arith),
                  ))),
        rest,
      )

  -- A truth value that was saved loads as a truth value of the same kind: for a size of 1 to 8 bytes,
  -- saving emits "false" for 0 and "true" for any other value, and loading that text at any address
  -- succeeds, leaves there 0 for 0 and 1 for any other value, and changes no other byte.
  pub read_bool-write_bool :
      0 < schema.data_size
      → schema.data_size ≤ 8
      → Emits (write_bool (recorder s) schema a) (
          scalar
            (if raw_at s schema a == 0 then false_text else true_text)
            bool_tag
            (get_emit_style_scalar schema)
          ∷ [])
        × ((m' : Memory) × (read_bool s.host schema
                (if raw_at s schema a == 0 then false_text else true_text)
                b
                m
              ≡ done tt m')
            × (data_read s.host schema.data_size b m'
                ≡ ok (if raw_at s schema a == 0 then 0 else 1))
            × ((x : ℕ) → (x < b) ⊎ (b + schema.data_size ≤ x) → m' x ≡ m x))
  unfolding write_bool emit_scalar
  read_bool-write_bool p q = (
    (λ log.
        rw (data_read_lem s.host schema.data_size a s.memory p q, ◌>>=◌) (emit-recorder s _ log)),
    loaded (raw_at s schema a == 0) p q,
  )
