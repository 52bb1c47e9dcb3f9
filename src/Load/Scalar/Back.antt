-- ===== src/Load/Scalar/Back.antt =====
-- Integers that src/save.c wrote as text, read back by src/load.c.
use libcyaml.Base.{
  ℕ, zero, suc, ◌+◌, ◌-◌, ◌*◌, ◌%◌, ◌^◌, ◌≤◌, ◌<◌, ◌≡◌, refl, ap, sym, ◌∙◌, arith, ◌⊎◌,
}
use libcyaml.Base.{true, some, [], ◌∷◌, false, ltb, Bool-cases, inl, inr}
use libcyaml.Base.Int.{ℤ, to_u64, IsI64}
use libcyaml.Base.Width.{Width-all}
use libcyaml.Errors.{Result, ok}
use libcyaml.Outcome.{done, M, ◌>>=◌}
use libcyaml.Schema.{Bytes, SchemaValue}
use libcyaml.Memory.{
  Memory, Host, little_endian, big_endian, read_bytes, object_value, le_value, be_value,
}
use libcyaml.Data.{data_read}
use libcyaml.Data.Laws.{data_read-data_write, data_read_lem, length-read_bytes}
use libcyaml.Number.{strtoll, strtoull, print_signed, print_unsigned}
use libcyaml.Number.Parsed.{strtoll-print_signed, strtoull-print_unsigned}
use libcyaml.Load.Store.{store_int, store_uint, validate_signed, validate_unsigned}
use libcyaml.Load.Store.Range.{FitsInt, FitsUint, low_bytes-pos, low_bytes-negsuc, uint_max_lem}
use libcyaml.Load.Store.Laws.{store_int_accepts, store_int_ok}
use libcyaml.Load.Scalar.{read_int, read_uint, read_uint64_t, whole, stores}
use libcyaml.Save.Sign.{sign_pad, sign_pad_lem}
use libcyaml.Save.Style.{get_emit_style_scalar}
use libcyaml.Save.Emitter.{Saver, scalar, int_tag, emit_scalar}
use libcyaml.Save.Scalar.{get_int, get_uint, write_int, write_uint}
use libcyaml.Save.Machine.Written.{recorder, Emits}
use libcyaml.Save.Machine.Simulated.{emit-recorder}
use native.Mathlib.Nat.{mod-eq_of_lt, pow-suc, pow-zero, mul-le-mul_right}

module _ (size raw : ℕ) (p : 0 < size) (q : size ≤ 8) (lt : raw < 256 ^ size) where
  -- The signed value of the bytes fits, and has these bytes.
  sign_pad_cases :
      (FitsInt size (sign_pad raw size))
      × (IsI64 (sign_pad raw size))
      × (to_u64 (sign_pad raw size) % 256 ^ size ≡ raw)
  sign_pad_cases =
      let wid = Width-all size p q in
      let h : raw < 2 ^ (size * 8) = omega (arith, wid.bytes) in
      elim (Bool-cases (ltb raw (2 ^ (size * 8 - 1)))) [
        | inl e ↦
            rw (sign_pad_lem size raw p q h, e)
              (let small : raw < 2 ^ (size * 8 - 1) = ground arith in
                (
                  (small, omega arith),
                  (omega (arith, wid.cap, wid.double), omega arith),
                  rw (← wid.bytes) (low_bytes-pos size raw p q small),
                ))
        | inr e ↦
            rw (sign_pad_lem size raw p q h, e)
              (let n = 2 ^ (size * 8) - 1 - raw in
                let big : 2 ^ (size * 8 - 1) ≤ raw = ground arith in
                let small : n < 2 ^ (size * 8 - 1) = omega (arith, wid.double) in
                (
                  (omega arith, omega arith),
                  (omega arith, omega (arith, wid.cap, wid.double)),
                  rw (← wid.bytes) (low_bytes-negsuc size n p q small ∙ omega (arith, wid.bytes)),
                ))
      ]

-- Bytes of a memory are below 256.
abbrev pub AreBytes : Memory → Type 0
AreBytes m = (x : ℕ) → m x < 256

le_value-lt : (a n : ℕ) (m : Memory) → AreBytes m → le_value (read_bytes a n m) < 256 ^ n
unfolding read_bytes
le_value-lt a zero m h = omega (arith, pow-zero 256)
le_value-lt a (suc n) m h = omega (arith, pow-suc 256 n, h a, le_value-lt (a + 1) n m h)

be_value-lt : (a n : ℕ) (m : Memory) → AreBytes m → be_value (read_bytes a n m) < 256 ^ n
unfolding read_bytes
be_value-lt a zero m h = omega (arith, pow-zero 256)
be_value-lt a (suc n) m h =
    let len = length-read_bytes (a + 1) n m in
    let top : m a * 256 ^ n ≤ 255 * 256 ^ n = mul-le-mul_right (256 ^ n) (omega (arith, h a)) in
    rw len (omega (arith, pow-suc 256 n, top, be_value-lt (a + 1) n m h))

pub object_value-lt :
    (h : Host) (a n : ℕ) (m : Memory) → AreBytes m → object_value h (read_bytes a n m) < 256 ^ n
object_value-lt little_endian a n m h = le_value-lt a n m h
object_value-lt big_endian a n m h = be_value-lt a n m h

module _ (h : Host) (schema : SchemaValue) (b : ℕ) (m : Memory) where
  -- What an accepted store leaves.
  abbrev pub Leaves : Result Memory → ℕ → Type 0
  Leaves o v =
      (m' : Memory) × (o ≡ ok m')
      × (data_read h schema.data_size b m' ≡ ok (v % 256 ^ schema.data_size))
      × ((x : ℕ) → (x < b) ⊎ (b + schema.data_size ≤ x) → m' x ≡ m x)

  pub store_int-Leaves :
      (v : ℤ)
      → 0 < schema.data_size
      → schema.data_size ≤ 8
      → FitsInt schema.data_size v
      → validate_signed schema schema.type v ≡ ok tt
      → Leaves (store_int h schema b v true m) (to_u64 v)
  store_int-Leaves v p q fits valid =
      let (m1, stored) = (store_int_accepts h schema b v true m).1 (p, q, fits, λ e. valid) in
      let r = store_int_ok h schema b v true m stored in
      let w = data_read-data_write h (to_u64 v) schema.data_size b m p q in
      let same : w.0 ≡ m1 = ground (arith, w.1, r.4) in
      (m1, stored, rw (← same) w.2, λ x out. rw (← same) (w.3 x out))

  pub store_uint-Leaves :
      (v : ℕ)
      → 0 < schema.data_size
      → schema.data_size ≤ 8
      → FitsUint schema.data_size v
      → validate_unsigned schema schema.type v ≡ ok tt
      → Leaves (store_uint h schema b v true m) v
  store_uint-Leaves v p q fits valid =
      let w = data_read-data_write h v schema.data_size b m p q in
      let limit = uint_max_lem schema.data_size p q in
      (w.0, unfold store_uint in ground (arith, w.1, limit), w.2, w.3)

  read_int_text :
      (text : Bytes) (v : ℤ) {m' : Memory}
      → strtoll text ≡ some (record { value = v; rest = []; range = false })
      → store_int h schema b v true m ≡ ok m'
      → read_int h schema text b m ≡ done tt m'
  unfolding read_int whole
  read_int_text text v e f = rw (e, f, read_int, whole, stores) refl

  read_uint_text :
      (text : Bytes) (v : ℕ) {m' : Memory}
      → strtoull text ≡ some (record { value = v; rest = []; range = false })
      → store_uint h schema b v true m ≡ ok m'
      → read_uint h schema text b m ≡ done tt m'
  unfolding read_uint read_uint64_t whole
  read_uint_text text v e f = rw (e, f, read_uint, read_uint64_t, whole, stores) refl

module _ {W : Type 0} (s : Saver W) (schema : SchemaValue) (a : ℕ) where
  -- The value of the schema's size at the address.
  abbrev pub raw_at : ℕ
  raw_at = object_value s.host (read_bytes a schema.data_size s.memory)

  -- A value of type INT is written as the text of the signed number that its bytes are.
  pub write_int-Emits :
      0 < schema.data_size
      → schema.data_size ≤ 8
      → Emits (write_int (recorder s) schema a) (
          scalar
            (print_signed (sign_pad raw_at schema.data_size))
            int_tag
            (get_emit_style_scalar schema)
          ∷ [])
  unfolding write_int get_int emit_scalar
  write_int-Emits p q log =
      rw (data_read_lem s.host schema.data_size a s.memory p q, ◌>>=◌) (emit-recorder s _ log)

  pub write_uint-Emits :
      0 < schema.data_size
      → schema.data_size ≤ 8
      → Emits
          (write_uint (recorder s) schema a)
          (scalar (print_unsigned raw_at) int_tag (get_emit_style_scalar schema) ∷ [])
  unfolding write_uint get_uint emit_scalar
  write_uint-Emits p q log =
      rw (data_read_lem s.host schema.data_size a s.memory p q, ◌>>=◌) (emit-recorder s _ log)

  -- What an address holds after a load from the text that the value at `a` was written as.
  abbrev pub CameBack : M Memory (Unit {0}) → ℕ → Memory → Type 0
  CameBack load b m =
      (m' : Memory) × (load m ≡ done tt m')
      × (data_read s.host schema.data_size b m' ≡ data_read s.host schema.data_size a s.memory)
      × ((x : ℕ) → (x < b) ⊎ (b + schema.data_size ≤ x) → m' x ≡ m x)

  -- An INT that was saved loads to the same bytes: for a size of 1 to 8 bytes and a value that the
  -- schema's validation accepts, saving emits one scalar, and loading that scalar's text at any
  -- address succeeds, leaves there the value that was saved, and changes no other byte.
  pub read_int-write_int :
      (b : ℕ) (m : Memory)
      → AreBytes s.memory
      → 0 < schema.data_size
      → schema.data_size ≤ 8
      → validate_signed schema schema.type (sign_pad raw_at schema.data_size) ≡ ok tt
      → (text : Bytes) × Emits
          (write_int (recorder s) schema a)
          (scalar text int_tag (get_emit_style_scalar schema) ∷ [])
        × CameBack (read_int s.host schema text b) b m
  read_int-write_int b m bytes p q valid =
      let n = schema.data_size in
      let v = sign_pad raw_at n in
      let below = object_value-lt s.host a n s.memory bytes in
      let (fits, wide, low) = sign_pad_cases n raw_at p q below in
      let (m', stored, back, rest) = store_int-Leaves s.host schema b m v p q fits valid in
      (
        print_signed v,
        write_int-Emits p q,
        (
          m',
          read_int_text s.host schema b m (print_signed v) v (strtoll-print_signed v wide) stored,
          back ∙ ap ok low ∙ sym (data_read_lem s.host n a s.memory p q),
          rest,
        ),
      )

  -- A UINT that was saved loads to the same bytes: for a size of 1 to 8 bytes and a value that the
  -- schema's validation accepts, saving emits one scalar, and loading that scalar's text at any
  -- address succeeds, leaves there the value that was saved, and changes no other byte.
  pub read_uint-write_uint :
      (b : ℕ) (m : Memory)
      → AreBytes s.memory
      → 0 < schema.data_size
      → schema.data_size ≤ 8
      → validate_unsigned schema schema.type raw_at ≡ ok tt
      → (text : Bytes) × Emits
          (write_uint (recorder s) schema a)
          (scalar text int_tag (get_emit_style_scalar schema) ∷ [])
        × CameBack (read_uint s.host schema text b) b m
  read_uint-write_uint b m bytes p q valid =
      let n = schema.data_size in
      let below = object_value-lt s.host a n s.memory bytes in
      let wid = Width-all n p q in
      let (m', stored, back, rest) = store_uint-Leaves s.host schema b m raw_at p q below valid in
      (
        print_unsigned raw_at,
        write_uint-Emits p q,
        (
          m',
          read_uint_text s.host schema b m (print_unsigned raw_at) raw_at
              (strtoull-print_unsigned raw_at (omega (arith, below, wid.bytes, wid.cap))) stored,
          back ∙ ap ok (mod-eq_of_lt below) ∙ sym (data_read_lem s.host n a s.memory p q),
          rest,
        ),
      )
