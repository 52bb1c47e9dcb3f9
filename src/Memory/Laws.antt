-- ===== src/Memory/Laws.antt =====
-- Reading back what was written, and what a write leaves alone.
use libcyaml.Base.{ℕ, zero, suc, ◌+◌, ◌/◌, ◌%◌, ◌^◌, ◌≤◌, ◌<◌, ◌⊎◌, inl, inr, ◌≡◌, refl}
use libcyaml.Base.{ap, ◌∙◌, [], ◌∷◌, ◌++◌, length, take, drop, replicate, arith}
use libcyaml.Base.DivMod.{mod_low_byte, mod_high_byte}
use libcyaml.Schema.{Bytes}
use libcyaml.Memory.{Memory, store_byte, write_bytes, read_bytes}
use libcyaml.Memory.{le_bytes, be_bytes, le_value, be_value}

-- A write outside `x` leaves `x` alone.
pub write_bytes_outside :
    (bs : Bytes) (a x : ℕ) (m : Memory) → (x < a) ⊎ (a + length bs ≤ x) → write_bytes a bs m x ≡ m x
unfolding write_bytes
write_bytes_outside [] a x m h = refl
write_bytes_outside (b ∷ bs) a x m h =
    write_bytes_outside bs (a + 1) x (store_byte a b m) (apart h) ∙ ground arith
  where
    apart : (x < a) ⊎ (a + length (b ∷ bs) ≤ x) → (x < a + 1) ⊎ (a + 1 + length bs ≤ x)
    apart (inl p) = inl (omega arith)
    apart (inr p) = inr (omega arith)

pub read_bytes-write_bytes :
    (bs : Bytes) (a : ℕ) (m : Memory) → read_bytes a (length bs) (write_bytes a bs m) ≡ bs
unfolding read_bytes write_bytes
read_bytes-write_bytes [] a m = refl
read_bytes-write_bytes (b ∷ bs) a m = ground (
  arith,
  write_bytes_outside bs (a + 1) a (store_byte a b m),
  read_bytes-write_bytes bs (a + 1) (store_byte a b m),
)

pub length-le_bytes : (n v : ℕ) → length (le_bytes n v) ≡ n
length-le_bytes zero v = refl
length-le_bytes (suc n) v = ap suc (length-le_bytes n (v / 256))

pub length-be_bytes : (n v : ℕ) → length (be_bytes n v) ≡ n
length-be_bytes zero v = refl
length-be_bytes (suc n) v = ap suc (length-be_bytes n v)

pub le_value-le_bytes : (n v : ℕ) → le_value (le_bytes n v) ≡ v % 256 ^ n
le_value-le_bytes zero v = omega arith
le_value-le_bytes (suc n) v = omega (arith, le_value-le_bytes n (v / 256), mod_low_byte n v)

pub be_value-be_bytes : (n v : ℕ) → be_value (be_bytes n v) ≡ v % 256 ^ n
be_value-be_bytes zero v = omega arith
be_value-be_bytes (suc n) v =
    rw (length-be_bytes n v) (omega (arith, be_value-be_bytes n v, mod_high_byte n v))

-- The lowest `s` bytes stand first on a little-endian host, and last on a big-endian one.
pub take-le_bytes : (s n v : ℕ) → s ≤ n → take s (le_bytes n v) ≡ le_bytes s v
take-le_bytes zero n v h = refl
take-le_bytes (suc s) zero v h = absurd (omega arith)
take-le_bytes (suc s) (suc n) v h =
    ap (λ t. v % 256 ∷ t) (take-le_bytes s n (v / 256) (omega arith))

pub drop-be_bytes : (t n s v : ℕ) → n ≡ t + s → drop t (be_bytes n v) ≡ be_bytes s v
drop-be_bytes zero n s v e = let same : n ≡ s = omega (arith, e) in ap (λ k. be_bytes k v) same
drop-be_bytes (suc t) zero s v e = absurd (omega arith)
drop-be_bytes (suc t) (suc n) s v e = drop-be_bytes t n s v (omega arith)

pub le_value-padded : (bs : Bytes) (k : ℕ) → le_value (bs ++ replicate k 0) ≡ le_value bs
le_value-padded [] zero = refl
le_value-padded [] (suc k) = omega (arith, le_value-padded [] k)
le_value-padded (b ∷ bs) k = omega (arith, le_value-padded bs k)

pub be_value-padded : (k : ℕ) (bs : Bytes) → be_value (replicate k 0 ++ bs) ≡ be_value bs
be_value-padded zero bs = refl
be_value-padded (suc k) bs = omega (arith, be_value-padded k bs)
