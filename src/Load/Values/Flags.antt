-- ===== src/Load/Values/Flags.antt =====
-- Flags that src/save.c wrote as a sequence of texts, read back by src/load.c.
use libcyaml.Base.{ℕ, ◌^◌, ◌≤◌, ◌<◌, ◌≡◌, refl, ap, sym, ◌∙◌, arith, ◌⊎◌}
use libcyaml.Base.{false, some, none, List, [], ◌∷◌, ◌++◌, map, All}
use libcyaml.Base.{
  inl, inr, ◌==◌, if◌then◌else◌, Bool-cases, bit_and, bit_or, append_assoc, ltb, ◌||◌,
}
use libcyaml.Base.{append-nil, ==→eq}
use libcyaml.Base.Bits.{bit_or_assoc, bit_or-zero, bit_or_comm}
use libcyaml.Base.Complement.{bit_or-complement, bit_and_le}
use libcyaml.Base.Int.{ℤ, pos, to_u64}
use libcyaml.Outcome.{Outcome, done, M, ◌>>=◌, ◌>>◌, return}
use libcyaml.Schema.{Bytes, SchemaValue, StrVal, Config}
use libcyaml.Save.Style.{get_emit_style_scalar}
use libcyaml.Save.Emitter.{Saver, OutEvent, scalar, str_tag}
use libcyaml.Save.Scalar.{emit_flags, complement}
use libcyaml.Save.Machine.Written.{Events, recorder}
use libcyaml.Load.Scalar.{set_flag, find_strval, flag_number, whole}
use libcyaml.Load.Store.{uint_max}
use libcyaml.Load.Store.Range.{uint_max_lem}
use libcyaml.Number.{print_unsigned, print_signed, strtoll}
use libcyaml.Number.Parsed.{strtoll-print_signed}
use libcyaml.Schema.Flag
use libcyaml.Strings.{has_flag}

-- The names that a number is written with, and the bits that no name stands for.
unfoldable pub named : List StrVal → ℕ → List Bytes
named [] number = []
named (f ∷ strings) number =
    let skip = named strings number in
    let rest = named strings (bit_and number (complement (to_u64 f.val))) in
    if bit_and number (to_u64 f.val) == 0 then skip else f.str ∷ rest

unfoldable pub left : List StrVal → ℕ → ℕ
left [] number = number
left (f ∷ strings) number =
    let skip = left strings number in
    let rest = left strings (bit_and number (complement (to_u64 f.val))) in
    if bit_and number (to_u64 f.val) == 0 then skip else rest

-- At its turn, each flag is set with all of its bits, or with none.
unfoldable pub IsWhole : List StrVal → ℕ → Type 0
IsWhole [] number = Unit
IsWhole (f ∷ strings) number =
    let flag = to_u64 f.val in
    let skip = IsWhole strings number in
    let rest = (bit_and number flag ≡ flag) × IsWhole strings (bit_and number (complement flag)) in
    if bit_and number flag == 0 then skip else rest

to_u64-lt : (v : ℤ) → to_u64 v < 2 ^ 64
to_u64-lt v = ground arith

module _ {W : Type 0} (s : Saver W) (schema : SchemaValue) where
  abbrev pub flag_event : Bytes → OutEvent
  flag_event text = scalar text str_tag (get_emit_style_scalar schema)

  -- The loop of `cyaml__emit_flags_sequence` writes these names.
  pub emit_flags-named :
      (strings : List StrVal) (number : ℕ) (log : Events)
      → emit_flags (recorder s) schema strings number log
        ≡ done (left strings number) (log ++ map flag_event (named strings number))
  unfolding emit_flags named left
  emit_flags-named [] number log = ap (λ l. done number l) (sym (append-nil log))
  emit_flags-named (f ∷ strings) number log =
      elim (Bool-cases (bit_and number (to_u64 f.val) == 0)) [
        | inl e ↦ rw e (emit_flags-named strings number log)
        | inr e ↦ rw e (
            let rest = bit_and number (complement (to_u64 f.val)) in
            emit_flags-named strings rest (log ++ (flag_event f.str ∷ []))
            ∙ ap (λ l. done (left strings rest) l)
                (append_assoc log (flag_event f.str ∷ []) (map flag_event (named strings rest))))
      ]

-- `cyaml__set_flag` on one text after the other.
abbrev pub set_flags : Config → SchemaValue → List Bytes → M ℕ (Unit {0})
set_flags config schema [] = return tt
set_flags config schema (text ∷ texts) =
    set_flag config schema text >> set_flags config schema texts

module _ (config : Config) (schema : SchemaValue) where
  -- A name that is found with its own value.
  abbrev pub IsFound : StrVal → Type 0
  IsFound f = find_strval config schema f.str schema.enumeration.strings ≡ some (some f.val)

  set_flag_found :
      (f : StrVal) (flags : ℕ) (rest : M ℕ (Unit {0})) {o : Outcome ℕ (Unit {0})}
      → IsFound f
      → rest (bit_or flags (to_u64 f.val)) ≡ o
      → (set_flag config schema f.str >> rest) flags ≡ o
  unfolding set_flag
  set_flag_found f flags rest e h = rw (e, ◌>>=◌, ◌>>◌, set_flag) h

  -- The names set the bits that they stand for.
  pub set_flags-named :
      (strings : List StrVal) (number flags : ℕ) (tail : List Bytes)
      → number < 2 ^ 64
      → All IsFound strings
      → IsWhole strings number
      → (flags' : ℕ) × (set_flags config schema (named strings number ++ tail) flags
          ≡ set_flags config schema tail flags')
        × (bit_or flags' (left strings number) ≡ bit_or flags number)
  unfolding named left set_flag IsWhole
  set_flags-named [] number flags tail lt found whole = (flags, refl, refl)
  set_flags-named (f ∷ strings) number flags tail lt found whole =
      elim (Bool-cases (bit_and number (to_u64 f.val) == 0)) [
        | inl e ↦ rw e (set_flags-named strings number flags tail lt found.1 (rw e at whole))
        | inr e ↦ rw e (
            let flag = to_u64 f.val in
            let rest = bit_and number (complement flag) in
            let w = rw e at whole in
            let (flags', run, joined) =
              set_flags-named strings rest (bit_or flags flag) tail
                (omega (arith, bit_and_le number (complement flag))) found.1 w.1 in
            (
              flags',
              set_flag_found f flags (set_flags config schema (named strings rest ++ tail)) found.0
                  run,
              joined
                  ∙ bit_or_assoc flags flag rest
                  ∙ ap (λ t. bit_or flags t)
                      (bit_or-complement 64 number flag lt (to_u64-lt f.val) w.0),
            ))
      ]

-- The text of the bits that no name stands for, if there are any.
abbrev pub rest_text : ℕ → List Bytes
rest_text bits = if bits == 0 then [] else print_unsigned bits ∷ []

-- The texts of a value of flags.
abbrev pub flag_texts : SchemaValue → ℕ → List Bytes
flag_texts schema number =
    let strings = schema.enumeration.strings in
    named strings number ++ rest_text (left strings number)

-- Bits that no name stands for are a number that is read back: the schema is not strict, the number
-- is none of the names, it fits the size, and it is not too large for a signed number.
abbrev pub IsReadable : Config → SchemaValue → ℕ → Type 0
IsReadable config schema bits =
    (bits ≡ 0)
    ⊎ ((has_flag schema.flags Flag.strict ≡ false)
        × (find_strval config schema (print_unsigned bits) schema.enumeration.strings ≡ some none)
        × (bits < 2 ^ 63)
        × (bits < 256 ^ schema.data_size))

module _ (config : Config) (schema : SchemaValue) (p : 0 < schema.data_size)
    (q : schema.data_size ≤ 8) where
  flag_number-print_unsigned :
      (bits : ℕ)
      → bits < 2 ^ 63
      → bits < 256 ^ schema.data_size
      → flag_number schema (print_unsigned bits) ≡ some bits
  unfolding flag_number
  flag_number-print_unsigned bits lt fits =
      let limit = uint_max_lem schema.data_size p q in
      let small : ltb (uint_max schema.data_size) bits ≡ false = ground (arith, limit) in
      let conv : strtoll (print_unsigned bits)
          ≡ some (record { value = pos bits; rest = []; range = false }) =
        unfold print_signed in strtoll-print_signed (pos bits) (lt, omega arith) in
      rw (conv, flag_number, whole, small) refl

  set_flags-rest_text :
      (bits flags : ℕ)
      → IsReadable config schema bits
      → set_flags config schema (rest_text bits) flags ≡ done tt (bit_or flags bits)
  unfolding set_flag
  set_flags-rest_text bits flags (inl z) = rw z (ap (λ t. done tt t) (sym (bit_or-zero flags)))
  set_flags-rest_text bits flags (inr (loose, unnamed, lt, fits)) = elim (Bool-cases (bits == 0)) [
    | inl e ↦
        let z : bits ≡ 0 = ==→eq bits 0 e in rw z (ap (λ t. done tt t) (sym (bit_or-zero flags)))
    | inr e ↦
        let sized : (schema.data_size == 0 || ltb 8 schema.data_size) ≡ false = ground arith in
        let number = flag_number-print_unsigned bits lt fits in
        rw (e, unnamed, loose, sized, number, set_flag, ◌>>=◌, ◌>>◌) refl
  ]

  -- The texts of a number set its bits.
  pub set_flags-flag_texts :
      (number : ℕ)
      → number < 2 ^ 64
      → All (IsFound config schema) schema.enumeration.strings
      → IsWhole schema.enumeration.strings number
      → IsReadable config schema (left schema.enumeration.strings number)
      → set_flags config schema (flag_texts schema number) 0 ≡ done tt number
  set_flags-flag_texts number lt found whole readable =
      let strings = schema.enumeration.strings in
      let bits = left strings number in
      let (flags, run, joined) =
        set_flags-named config schema strings number 0 (rest_text bits) lt found whole in
      run
      ∙ set_flags-rest_text bits flags readable
      ∙ ap (λ t. done tt t) (joined ∙ bit_or_comm 0 number ∙ bit_or-zero number)
