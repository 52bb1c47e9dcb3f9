-- ===== src/Load/Store/Laws.antt =====
-- The integers that `cyaml__store_int` and `cyaml__store_uint` of src/load.c accept, and reading them
-- back.
use libcyaml.Base.{ℕ, ◌+◌, ◌-◌, ◌*◌, ◌%◌, ◌^◌, ◌≤◌, ◌<◌, ◌≡◌, ap, ◌∙◌, arith}
use libcyaml.Base.{◌⊎◌, inl, inr, ◌↔◌, Bool, true}
use libcyaml.Base.Int.{ℤ, pos, negsuc, to_u64}
use libcyaml.Base.Width.{Width-all}
use libcyaml.Errors.{Err, ok, fail, invalid_value, invalid_data_size}
use libcyaml.Schema.{SchemaType, SchemaValue}
use libcyaml.Memory.{Memory, Host}
use libcyaml.Data.{data_write, data_read}
use libcyaml.Data.Laws.{data_read-data_write}
use libcyaml.Load.Store.{store_int, store_uint, validate_signed, validate_unsigned}
use libcyaml.Load.Store.Range.{FitsInt, FitsUint, int_max_lem, uint_max_lem}
use libcyaml.Load.Store.Range.{low_bytes-pos, low_bytes-negsuc}
use libcyaml.Save.Sign.{sign_pad, sign_pad_lem}
use native.Mathlib.Nat.{mod-eq_of_lt}

-- The low bytes of a fitting integer, read as a signed integer, are that integer.
pub sign_pad-low_bytes :
    (s : ℕ) (v : ℤ) → 0 < s → s ≤ 8 → FitsInt s v → sign_pad (to_u64 v % 256 ^ s) s ≡ v
sign_pad-low_bytes s (pos n) p q f =
    let wid = Width-all s p q in
    rw (← wid.bytes, low_bytes-pos s n p q f.0, sign_pad_lem s n p q (omega (arith, wid.double)))
      (ground arith)
sign_pad-low_bytes s (negsuc n) p q f =
    let wid = Width-all s p q in
    rw
      (
        ← wid.bytes,
        low_bytes-negsuc s n p q f.1,
        sign_pad_lem s (2 ^ (s * 8) - 1 - n) p q (omega (arith, wid.double)),
      )
      (ground (arith, wid.double))

-- When `store_int` succeeds: the size is 1 to 8, the value fits it, the validation passed if it
-- was asked for, and the memory is that of `data_write`.
pub store_int_ok :
    (h : Host) (schema : SchemaValue) (a : ℕ) (v : ℤ) (validate : Bool) (m : Memory) {m' : Memory}
    → store_int h schema a v validate m ≡ ok m'
    → (0 < schema.data_size)
      × (schema.data_size ≤ 8)
      × FitsInt schema.data_size v
      × (validate ≡ true → validate_signed schema schema.type v ≡ ok tt)
      × (data_write h (to_u64 v) schema.data_size a m ≡ ok m')
unfolding store_int
store_int_ok h schema a v validate m e = ground (arith, int_max_lem schema.data_size)

pub store_uint_ok :
    (h : Host) (schema : SchemaValue) (a v : ℕ) (validate : Bool) (m : Memory) {m' : Memory}
    → store_uint h schema a v validate m ≡ ok m'
    → (0 < schema.data_size)
      × (schema.data_size ≤ 8)
      × FitsUint schema.data_size v
      × (validate ≡ true → validate_unsigned schema schema.type v ≡ ok tt)
      × (data_write h v schema.data_size a m ≡ ok m')
unfolding store_uint
store_uint_ok h schema a v validate m e = ground (arith, uint_max_lem schema.data_size)

-- `store_int` succeeds exactly when the size is 1 to 8 bytes, the value fits a signed integer of
-- that size, and its validation, if asked for, passes.
pub store_int_accepts :
    (h : Host) (schema : SchemaValue) (a : ℕ) (v : ℤ) (validate : Bool) (m : Memory)
    → ((m' : Memory) × (store_int h schema a v validate m ≡ ok m')) ↔ (
        (0 < schema.data_size)
        × (schema.data_size ≤ 8)
        × FitsInt schema.data_size v
        × (validate ≡ true → validate_signed schema schema.type v ≡ ok tt))
store_int_accepts h schema a v validate m = (only_if, if_fits)
  where
    only_if :
        (m' : Memory) × (store_int h schema a v validate m ≡ ok m')
        → (0 < schema.data_size)
          × (schema.data_size ≤ 8)
          × FitsInt schema.data_size v
          × (validate ≡ true → validate_signed schema schema.type v ≡ ok tt)
    only_if (m', e) = let r = store_int_ok h schema a v validate m e in (r.0, r.1, r.2, r.3)

    if_fits :
        (0 < schema.data_size)
          × (schema.data_size ≤ 8)
          × FitsInt schema.data_size v
          × (validate ≡ true → validate_signed schema schema.type v ≡ ok tt)
        → (m' : Memory) × (store_int h schema a v validate m ≡ ok m')
    if_fits (p, q, f, valid) =
        let w = data_read-data_write h (to_u64 v) schema.data_size a m p q in
        (w.0, unfold store_int in ground (arith, int_max_lem schema.data_size, w.1))

-- What `store_int` stored, src/save.c reads back: after a successful call `sign_pad` of the value
-- that `data_read` finds at the location is the value stored, and no other byte has changed.
pub sign_pad-store_int :
    (h : Host) (schema : SchemaValue) (a : ℕ) (v : ℤ) (validate : Bool) (m m' : Memory)
    → store_int h schema a v validate m ≡ ok m'
    → (raw : ℕ) × (data_read h schema.data_size a m' ≡ ok raw)
      × (sign_pad raw schema.data_size ≡ v)
      × ((x : ℕ) → (x < a) ⊎ (a + schema.data_size ≤ x) → m' x ≡ m x)
sign_pad-store_int h schema a v validate m m' e =
    let s = schema.data_size in
    let r = store_int_ok h schema a v validate m e in
    let w = data_read-data_write h (to_u64 v) s a m r.0 r.1 in
    let same : w.0 ≡ m' = ground (arith, w.1, r.4) in
    (
      to_u64 v % 256 ^ s,
      rw (← same) w.2,
      sign_pad-low_bytes s v r.0 r.1 r.2,
      λ x out. rw (← same) (w.3 x out),
    )

-- What `store_uint` stored reads back: after a successful call `data_read` of the schema's size at the
-- location answers the value, and no other byte has changed.
pub data_read-store_uint :
    (h : Host) (schema : SchemaValue) (a v : ℕ) (validate : Bool) (m m' : Memory)
    → store_uint h schema a v validate m ≡ ok m'
    → (data_read h schema.data_size a m' ≡ ok v)
      × ((x : ℕ) → (x < a) ⊎ (a + schema.data_size ≤ x) → m' x ≡ m x)
data_read-store_uint h schema a v validate m m' e =
    let s = schema.data_size in
    let r = store_uint_ok h schema a v validate m e in
    let w = data_read-data_write h v s a m r.0 r.1 in
    let same : w.0 ≡ m' = ground (arith, w.1, r.4) in
    (rw (← same) (w.2 ∙ ap ok (mod-eq_of_lt r.2)), λ x out. rw (← same) (w.3 x out))

validate_signed_error :
    (schema : SchemaValue) (t : SchemaType) (v : ℤ) (e : Err)
    → validate_signed schema t v ≡ fail e
    → e ≡ invalid_value
unfolding validate_signed
validate_signed_error schema SchemaType.int v e f = ground arith
validate_signed_error schema SchemaType.enum v e f = ground arith
validate_signed_error schema _ v e f = cc

-- A `store_int` that does not succeed answers `CYAML_ERR_INVALID_DATA_SIZE` when the size is 0 or
-- above 8, and `CYAML_ERR_INVALID_VALUE` otherwise.
pub store_int_errors :
    (h : Host) (schema : SchemaValue) (a : ℕ) (v : ℤ) (validate : Bool) (m : Memory) {e : Err}
    → store_int h schema a v validate m ≡ fail e
    → (((schema.data_size ≡ 0) ⊎ (8 < schema.data_size)) × (e ≡ invalid_data_size))
      ⊎ ((0 < schema.data_size) × (schema.data_size ≤ 8) × (e ≡ invalid_value))
store_int_errors h schema a v validate m {e} f = elim (size_cases schema.data_size) [
  | inl bad ↦ inl (bad, unfold store_int in ground arith)
  | inr (p, q) ↦
      let w = data_read-data_write h (to_u64 v) schema.data_size a m p q in
      inr (
        p,
        q,
        unfold store_int in ground (arith, w.1, validate_signed_error schema schema.type v e),
      )
]
  where
    size_cases : (s : ℕ) → ((s ≡ 0) ⊎ (8 < s)) ⊎ ((0 < s) × (s ≤ 8))
    size_cases s = ground arith
