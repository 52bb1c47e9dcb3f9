-- ===== src/Data.antt =====
-- src/data.h: values of up to eight bytes in and out of a client's data, and the host's endianness
-- of src/util.h. The host's order of bytes is the parameter `h`.
pub mod Laws
use libcyaml.Base.{ℕ, zero, suc, ◌-◌, Bool, true, false, not, ◌||◌, List, [], ◌∷◌, ◌++◌}
use libcyaml.Base.{length, take, drop, replicate, ltb, ◌==◌, if◌then◌else◌, bit_and}
use libcyaml.Errors.{Result, ok, fail, Err, invalid_data_size, ◌>>=◌, ◌>>◌, require}
use libcyaml.Schema.{Bytes, SchemaValue}
use libcyaml.Schema.Flag
use libcyaml.Memory.{Memory, write_bytes, read_bytes, Host, object_bytes, object_value}

-- The first byte of the `uint16_t` 1, as a bool.
unfoldable pub host_is_little_endian : Host → Bool
host_is_little_endian h = elim (object_bytes h 2 1) [ [] ↦ false | b ∷ bs ↦ not (b == 0) ]

unfoldable pub host_is_big_endian : Host → Bool
unfolding host_is_little_endian
host_is_big_endian h = not (host_is_little_endian h)

-- `memcpy` of `bs` into the object `obj` from its byte `off` on.
abbrev pub overlay : Bytes → ℕ → Bytes → Bytes
overlay obj zero [] = obj
overlay obj zero (b ∷ bs) = elim obj [ [] ↦ [] | o ∷ os ↦ b ∷ overlay os zero bs ]
overlay [] (suc off) bs = []
overlay (o ∷ os) (suc off) bs = o ∷ overlay os off bs

-- `cyaml_data_write`: the memory that it leaves, or its error; on an error nothing is written.
unfoldable pub data_write : Host → ℕ → ℕ → ℕ → Memory → Result Memory
unfolding host_is_big_endian
data_write h value entry_size data_tgt m =
    if entry_size == 0 || ltb 8 entry_size
    then fail invalid_data_size
    else let value_bytes = object_bytes h 8 value in
      let from = if host_is_big_endian h then drop (8 - entry_size) value_bytes else value_bytes in
      ok (write_bytes data_tgt (take entry_size from) m)

-- `cyaml_data_read`
unfoldable pub data_read : Host → ℕ → ℕ → Memory → Result ℕ
unfolding host_is_big_endian
data_read h entry_size addr m =
    if entry_size == 0 || ltb 8 entry_size
    then fail invalid_data_size
    else let off : ℕ = if host_is_big_endian h then 8 - entry_size else 0 in
      ok (object_value h (overlay (object_bytes h 8 0) off (read_bytes addr entry_size m)))

-- `cyaml_data_write_pointer` and `cyaml_data_read_pointer` on a host with 8-byte pointers.
unfoldable pub data_write_pointer : Host → ℕ → ℕ → Memory → Memory
unfolding data_write
data_write_pointer h ptr data_target m = elim (data_write h ptr 8 data_target m) [
  | ok m' ↦ m'
  | fail e ↦ m
]

unfoldable pub data_read_pointer : Host → ℕ → Memory → ℕ
unfolding data_read
data_read_pointer h addr m = elim (data_read h 8 addr m) [ ok p ↦ p | fail e ↦ 0 ]

-- `cyaml_data_save_handle_pointer`: the address of the value itself.
unfoldable pub data_save_handle_pointer : Host → SchemaValue → ℕ → Memory → ℕ
unfolding data_read_pointer
data_save_handle_pointer h schema data_in m =
    if bit_and schema.flags Flag.pointer == 0 then data_in else data_read_pointer h data_in m
