-- ===== src/Load/Machine/Values.antt =====
-- The functions of src/load.c that read a scalar, flags, a bit field or a default, on any events and any
-- memory: what they do to the event context and to the stack.
use libcyaml.Base.{ℕ, ◌≤◌, ◌<◌, ◌≡◌, refl, arith, inl, inr, Bool, true, false}
use libcyaml.Base.{Option, none, some, ◌==◌, Bool-cases, ◌||◌, ◌&&◌, All}
use libcyaml.Base.Int.{ℤ}
use libcyaml.Errors.{Result, ok, fail, invalid_value}
use libcyaml.Outcome.{
  Outcome, done, failed, fault, M, ◌>>=◌, ◌>>◌, return, Ensures, Ensures-bind, Ensures-within,
  IsDefined,
}
use libcyaml.Outcome.{Option-cases, Result-cases}
use libcyaml.Schema.{Bytes, SchemaType, SchemaValue, Config}
use libcyaml.Schema.Flag
use libcyaml.Strings.{has_flag, is_case_sensitive}
use libcyaml.Memory.{Memory, Host}
use libcyaml.Number.{Conversion, strtoll}
use libcyaml.Load.Store.{FloatUnit, store_int, store_uint, store_float, store_string}
use libcyaml.Load.Store.{flag_check_all}
use libcyaml.Load.Fields.{
  field_scalar_apply_default, store_default, no_string_default, default_size,
}
use libcyaml.Load.Fields.{numerical_default_zero, stored}
use libcyaml.Load.Events.{Event, Ctx}
use libcyaml.Load.Events.Invariant.{Good}
use libcyaml.Load.Scalar.{
  read_int, read_uint, read_uint64_t, read_enum, read_enum_number, read_float,
}
use libcyaml.Load.Scalar.{read_string, read_scalar_value, stores, whole, is_empty}
use libcyaml.Load.Values.{
  Loading, on_context, store_to, read_flags_value, read_bitfield_value, flags_loop, bits_loop,
}
use libcyaml.Load.Values.Total.{Stays, find_strval-some, flags_loop-Stays, bits_loop-Stays}
use libcyaml.Load.Stack.{LoadCtx, on_loading, on_heap, on_memory, with_heap}
use libcyaml.Load.Machine.Sound.{Keeps}

module _ {P H : Type 0} where
  abbrev pub StaysIn {κ} : {A : Type κ} → A → Loading P H → Type 0
  StaysIn a s = Good s.context

  pub on_context-StaysIn {κ} :
      {A : Type κ} (m : M (Ctx P H) A) (s : Loading P H)
      → Ensures Stays (m s.context)
      → Ensures StaysIn (on_context m s)
  on_context-StaysIn m s h =
      Ensures-within Stays StaysIn (λ c. record s { context = c }) (m s.context) (λ a c k. k) h

  pub on_loading-Keeps {κ} :
      {A : Type κ} (m : M (Loading P H) A) (c : LoadCtx P H)
      → Ensures StaysIn (m c.loading)
      → Ensures (Keeps c.stack) (on_loading m c)
  on_loading-Keeps m c h =
      Ensures-within StaysIn (Keeps c.stack) (λ s. record c { loading = s }) (m c.loading)
        (λ a s k. (k, refl)) h

  pub on_heap-Keeps {κ} :
      {A : Type κ} (m : M (Memory × H) A) (c : LoadCtx P H)
      → Good c.loading.context
      → IsDefined (m (c.loading.memory, c.loading.context.heap))
      → Ensures (Keeps c.stack) (on_heap m c)
  on_heap-Keeps m c g h =
      Ensures-within (λ _ _. Unit) (Keeps c.stack) (λ s. with_heap c s.0 s.1)
        (m (c.loading.memory, c.loading.context.heap)) (λ a s k. (g, refl)) h

  pub on_memory-Keeps {κ} :
      {A : Type κ} (m : M Memory A) (c : LoadCtx P H)
      → Good c.loading.context
      → IsDefined (m c.loading.memory)
      → Ensures (Keeps c.stack) (on_memory m c)
  on_memory-Keeps m c g h =
      Ensures-within (λ _ _. Unit) (Keeps c.stack) (λ s. with_heap c s c.loading.context.heap)
        (m c.loading.memory) (λ a s k. (g, refl)) h

  store_to-StaysIn :
      (f : Memory → Result Memory) (s : Loading P H)
      → Good s.context
      → Ensures StaysIn ((store_to f >> return true) s)
  store_to-StaysIn f s g = elim (Result-cases (f s.memory)) [
    | inl (e, h) ↦ rw (h, ◌>>=◌, ◌>>◌) tt
    | inr (m, h) ↦ rw (h, ◌>>=◌, ◌>>◌) g
  ]

module _ {P H : Type 0} (parse : P → Option (Event × P)) (realloc : H → ℕ → Bool × H)
    (event_size : ℕ) (config : Config) (schema : SchemaValue)
    (exact : is_case_sensitive config schema ≡ true) (fuel : ℕ) (h : Host) (place : ℕ) where
  stored_flags :
      (ended : Option ℕ) (s : Loading P H)
      → Good s.context
      → Ensures StaysIn (
          (elim ended as (λ _. M (Loading P H) Bool) [
            | none ↦ return false
            | some value ↦
                store_to (λ m. store_uint h schema place value true m) >>= λ u. return true
          ])
            s)
  stored_flags none s g = g
  stored_flags (some value) s g = store_to-StaysIn (λ m. store_uint h schema place value true m) s g

  pub read_flags_value-StaysIn :
      (s : Loading P H)
      → Good s.context
      → 0 < schema.data_size
      → schema.data_size ≤ 8
      → Ensures StaysIn (read_flags_value parse realloc event_size config schema fuel h place s)
  unfolding read_flags_value
  read_flags_value-StaysIn s g p q =
      let sized : (schema.data_size == 0) ≡ false = ground arith in
      rw sized (
        Ensures-bind StaysIn StaysIn
          (on_context (flags_loop parse realloc event_size config schema fuel 0)) _ s
          (on_context-StaysIn (flags_loop parse realloc event_size config schema fuel 0) s
            (flags_loop-Stays parse realloc event_size config schema exact p q fuel 0 s.context g))
          (λ ended s' _ g'. stored_flags ended s' g'))

  pub read_bitfield_value-StaysIn :
      (s : Loading P H)
      → Good s.context
      → schema.data_size ≤ 8
      → All (λ b. 0 < b.bits) schema.bitfield.bitdefs
      → Ensures StaysIn (read_bitfield_value parse realloc event_size config schema fuel h place s)
  unfolding read_bitfield_value
  read_bitfield_value-StaysIn s g q wide =
      Ensures-bind StaysIn StaysIn
        (on_context (bits_loop parse realloc event_size config schema fuel 0)) _ s
        (on_context-StaysIn (bits_loop parse realloc event_size config schema fuel 0) s
          (bits_loop-Stays parse realloc event_size config schema exact q wide fuel 0 s.context g))
        (λ ended s' _ g'. stored_flags ended s' g')

pub stores-IsDefined : (f : Memory → Result Memory) (m : Memory) → IsDefined (stores f m)
stores-IsDefined f m = elim (Result-cases (f m)) [
  | inl (e, h) ↦ rw (stores, h) tt
  | inr (a, h) ↦ rw (stores, h) tt
]

-- The types whose text is read by a function of its own, but for truth values.
abbrev pub is_plain_scalar : SchemaType → Bool
is_plain_scalar SchemaType.int = true
is_plain_scalar SchemaType.uint = true
is_plain_scalar SchemaType.enum = true
is_plain_scalar SchemaType.float = true
is_plain_scalar SchemaType.string = true
is_plain_scalar _ = false

module _ (h : Host) (schema : SchemaValue) (text : Bytes) (place : ℕ) (m : Memory) where
  read_int-IsDefined : IsDefined (read_int h schema text place m)
  unfolding read_int
  read_int-IsDefined = elim (Option-cases (whole (strtoll text))) [
    | inl e ↦ rw (read_int, e) tt
    | inr (v, e) ↦ rw (read_int, e) (stores-IsDefined (store_int h schema place v true) m)
  ]

  read_uint-IsDefined : IsDefined (read_uint h schema text place m)
  unfolding read_uint
  read_uint-IsDefined = elim (Result-cases (read_uint64_t text)) [
    | inl (e, k) ↦ rw (read_uint, k) tt
    | inr (v, k) ↦ rw (read_uint, k) (stores-IsDefined (store_uint h schema place v true) m)
  ]

  read_enum_number-IsDefined : IsDefined (read_enum_number h schema text place m)
  unfolding read_enum_number
  read_enum_number-IsDefined = elim (Bool-cases (flag_check_all schema.flags Flag.strict)) [
    | inl e ↦ rw (read_enum_number, e) tt
    | inr e ↦ rw (read_enum_number, e) (go (read_int h schema text place m) read_int-IsDefined)
  ]
    where
      go :
          (o : Outcome Memory (Unit {0}))
          → IsDefined o
          → IsDefined (elim o as (λ _. Outcome Memory (Unit {0})) [
            | done u m' ↦ done tt m'
            | failed e m' ↦ failed invalid_value m'
            | fault ↦ fault
          ])
      go (done u m') k = tt
      go (failed e m') k = tt
      go fault k = k

  read_enum-IsDefined :
      (config : Config)
      → is_case_sensitive config schema ≡ true
      → IsDefined (read_enum config h schema text place m)
  unfolding read_enum
  read_enum-IsDefined config exact =
      let (o, found) = find_strval-some config schema exact text schema.enumeration.strings in
      rw (read_enum, found) (go o)
    where
      go :
          (o : Option ℤ)
          → IsDefined (
              (elim o as (λ _. M Memory (Unit {0})) [
                | some val ↦ stores (store_int h schema place val true)
                | none ↦ read_enum_number h schema text place
              ])
                m)
      go (some val) = stores-IsDefined (store_int h schema place val true) m
      go none = read_enum_number-IsDefined

  read_float-IsDefined :
      (fpu : FloatUnit) (strtod : Bytes → Option (Conversion ℕ))
      → IsDefined (read_float fpu strtod h schema text place m)
  unfolding read_float
  read_float-IsDefined fpu strtod = elim (Option-cases (strtod text)) [
    | inl e ↦ rw (read_float, e) tt
    | inr (c, e) ↦
        rw (read_float, e)
          (elim (Bool-cases (is_empty c.rest)) [
            | inr k ↦ rw k tt
            | inl k ↦ rw k (elim (Bool-cases (c.range && flag_check_all schema.flags Flag.strict)) [
              | inl r ↦ rw r tt
              | inr r ↦ rw r (stores-IsDefined (store_float fpu h schema place c.value) m)
            ])
          ])
  ]

  pub read_scalar_value-IsDefined :
      (fpu : FloatUnit) (strtod : Bytes → Option (Conversion ℕ)) (config : Config) (t : SchemaType)
      → is_case_sensitive config schema ≡ true
      → is_plain_scalar t ≡ true
      → IsDefined (read_scalar_value fpu strtod config h schema t text place m)
  unfolding read_scalar_value read_string
  read_scalar_value-IsDefined fpu strtod config SchemaType.int exact e = read_int-IsDefined
  read_scalar_value-IsDefined fpu strtod config SchemaType.uint exact e = read_uint-IsDefined
  read_scalar_value-IsDefined fpu strtod config SchemaType.enum exact e =
      read_enum-IsDefined config exact
  read_scalar_value-IsDefined fpu strtod config SchemaType.float exact e =
      read_float-IsDefined fpu strtod
  read_scalar_value-IsDefined fpu strtod config SchemaType.string exact e =
      stores-IsDefined (store_string schema place text) m
  read_scalar_value-IsDefined fpu strtod config _ exact e = cc

second_false : (a : Bool) {b : Bool} → (a || b) ≡ false → b ≡ false
second_false true e = cc
second_false false e = e

module _ {H : Type 0} (h : Host) (fpu : FloatUnit) (alloc : H → ℕ → Option ℕ × H) where
  stored-IsDefined : (r : Result Memory) (s : Memory × H) → IsDefined (stored h fpu alloc r s)
  stored-IsDefined (ok m) s = tt
  stored-IsDefined (fail e) s = tt

  store_default-IsDefined :
      (schema : SchemaValue) (t : SchemaType) (place : ℕ) (s : Memory × H)
      → no_string_default h fpu alloc schema t ≡ false
      → IsDefined (store_default h fpu alloc schema t place s)
  unfolding store_default
  store_default-IsDefined schema SchemaType.int place s e = stored-IsDefined _ s
  store_default-IsDefined schema SchemaType.enum place s e = stored-IsDefined _ s
  store_default-IsDefined schema SchemaType.uint place s e = stored-IsDefined _ s
  store_default-IsDefined schema SchemaType.flags place s e = stored-IsDefined _ s
  store_default-IsDefined schema SchemaType.bitfield place s e = stored-IsDefined _ s
  store_default-IsDefined schema SchemaType.bool place s e = stored-IsDefined _ s
  store_default-IsDefined schema SchemaType.float place s e = stored-IsDefined _ s
  store_default-IsDefined schema SchemaType.string place s e =
      elim (Option-cases schema.string.missing) [
        | inl k ↦ let no : true ≡ false = rw k at e in cc
        | inr (str, k) ↦ rw (store_default, k) (stored-IsDefined _ s)
      ]
  store_default-IsDefined schema _ place s e = tt

  pub field_scalar_apply_default-IsDefined :
      (schema : SchemaValue) (place : ℕ) (s : Memory × H)
      → IsDefined (field_scalar_apply_default h fpu alloc schema place s)
  unfolding field_scalar_apply_default
  field_scalar_apply_default-IsDefined schema place (m, heap) =
      let none_given =
        numerical_default_zero schema schema.type
        || no_string_default h fpu alloc schema schema.type in
      elim (Bool-cases none_given) [
        | inl e ↦ rw e tt
        | inr e ↦
            let given = second_false (numerical_default_zero schema schema.type) e in
            rw e (elim (Bool-cases (has_flag schema.flags Flag.pointer)) [
              | inr k ↦ rw k (store_default-IsDefined schema schema.type place (m, heap) given)
              | inl k ↦
                  rw k
                    (elim (Option-cases
                      (alloc heap (default_size h fpu alloc schema schema.type)).0) [
                        | inl none_left ↦ rw none_left tt
                        | inr (p, got) ↦
                            rw got (store_default-IsDefined schema schema.type p _ given)
                      ])
            ])
      ]
