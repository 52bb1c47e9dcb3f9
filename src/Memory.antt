-- ===== src/Memory.antt =====
-- The bytes that a client's data structure occupies: memory by address, `memcpy` in and out of it,
-- and the bytes of a `uint64_t` on a host of either endianness.
pub mod Laws
use libcyaml.Base.{ℕ, zero, suc, ◌+◌, ◌*◌, ◌/◌, ◌%◌, ◌^◌, List, [], ◌∷◌, ◌++◌, length, ◌==◌}
use libcyaml.Base.{if◌then◌else◌}
use libcyaml.Schema.{Bytes}

abbrev pub Memory : Type 0
Memory = ℕ → ℕ

-- `*a = b`
unfoldable pub store_byte : ℕ → ℕ → Memory → Memory
store_byte a b m x = if x == a then b else m x

-- `memcpy(a, bytes, n)` into memory, and out of it.
unfoldable pub write_bytes : ℕ → Bytes → Memory → Memory
unfolding store_byte
write_bytes a [] m = m
write_bytes a (b ∷ bs) m = write_bytes (a + 1) bs (store_byte a b m)

unfoldable pub read_bytes : ℕ → ℕ → Memory → Bytes
read_bytes a zero m = []
read_bytes a (suc n) m = m a ∷ read_bytes (a + 1) n m

-- Bytes of a number, lowest first and highest first, and back.
abbrev pub le_bytes : ℕ → ℕ → Bytes
le_bytes zero v = []
le_bytes (suc n) v = v % 256 ∷ le_bytes n (v / 256)

abbrev pub be_bytes : ℕ → ℕ → Bytes
be_bytes zero v = []
be_bytes (suc n) v = v / 256 ^ n % 256 ∷ be_bytes n v

abbrev pub le_value : Bytes → ℕ
le_value [] = 0
le_value (b ∷ bs) = b + 256 * le_value bs

abbrev pub be_value : Bytes → ℕ
be_value [] = 0
be_value (b ∷ bs) = b * 256 ^ length bs + be_value bs

pub data Host : Type 0 where
  little_endian big_endian : Host

-- The bytes of an object of `n` bytes with the value `v`, and the value of such an object.
abbrev pub object_bytes : Host → ℕ → ℕ → Bytes
object_bytes little_endian n v = le_bytes n v
object_bytes big_endian n v = be_bytes n v

abbrev pub object_value : Host → Bytes → ℕ
object_value little_endian bs = le_value bs
object_value big_endian bs = be_value bs
