-- ===== src/Data/Laws.antt =====
-- Reads after writes with the functions of src/data.h, on hosts of both endiannesses.
use libcyaml.Base.{ℕ, zero, suc, ◌+◌, ◌-◌, ◌%◌, ◌^◌, ◌≤◌, ◌<◌, ◌⊎◌, ◌≡◌, refl, ap, ◌∙◌}
use libcyaml.Base.{[], ◌∷◌, ◌++◌, length, take, replicate}
use libcyaml.Base.{arith}
use mathlib.Core.Path.{subst}
use mathlib.Core.List.{append-nil}
use libcyaml.Errors.{ok, fail, invalid_data_size}
use libcyaml.Schema.{Bytes}
use libcyaml.Memory.{Memory, write_bytes, read_bytes, Host, object_bytes, object_value}
use libcyaml.Memory.{little_endian, big_endian, be_bytes}
use libcyaml.Memory.Laws.{write_bytes_outside, read_bytes-write_bytes, take-le_bytes, drop-be_bytes}
use libcyaml.Memory.Laws.{length-le_bytes, length-be_bytes, le_value-le_bytes, be_value-be_bytes}
use libcyaml.Memory.Laws.{le_value-padded, be_value-padded}
use libcyaml.Data.{overlay, data_write, data_read}

take_self : (bs : Bytes) (n : ℕ) → length bs ≡ n → take n bs ≡ bs
take_self [] zero e = refl
take_self [] (suc n) e = refl
take_self (b ∷ bs) zero e = absurd (omega arith)
take_self (b ∷ bs) (suc n) e = ap (λ t. b ∷ t) (take_self bs n (omega arith))

overlay_front :
    (bs : Bytes) (n k : ℕ) → n ≡ length bs + k → overlay (replicate n 0) 0 bs ≡ bs ++ replicate k 0
overlay_front [] n k e = let same : n ≡ k = omega (arith, e) in ap (λ t. replicate t 0) same
overlay_front (b ∷ bs) zero k e = absurd (omega arith)
overlay_front (b ∷ bs) (suc n) k e = ap (λ t. b ∷ t) (overlay_front bs n k (omega arith))

overlay_back :
    (t : ℕ) (bs : Bytes) (n : ℕ)
    → n ≡ t + length bs
    → overlay (replicate n 0) t bs ≡ replicate t 0 ++ bs
overlay_back zero bs n e = overlay_front bs n 0 (omega arith) ∙ append-nil bs
overlay_back (suc t) bs zero e = absurd (omega arith)
overlay_back (suc t) bs (suc n) e = ap (λ l. 0 ∷ l) (overlay_back t bs n (omega arith))

pub length-read_bytes : (a n : ℕ) (m : Memory) → length (read_bytes a n m) ≡ n
unfolding read_bytes
length-read_bytes a zero m = refl
length-read_bytes a (suc n) m = ap suc (length-read_bytes (a + 1) n m)

pub length-object_bytes : (h : Host) (n v : ℕ) → length (object_bytes h n v) ≡ n
length-object_bytes little_endian n v = length-le_bytes n v
length-object_bytes big_endian n v = length-be_bytes n v

object_value-object_bytes : (h : Host) (n v : ℕ) → object_value h (object_bytes h n v) ≡ v % 256 ^ n
object_value-object_bytes little_endian n v = le_value-le_bytes n v
object_value-object_bytes big_endian n v = be_value-be_bytes n v

-- The bytes that `data_write` stores: the low `s` bytes of the value, in the host's order.
pub data_write_lem :
    (h : Host) (v s a : ℕ) (m : Memory)
    → 0 < s
    → s ≤ 8
    → data_write h v s a m ≡ ok (write_bytes a (object_bytes h s v) m)
unfolding data_write
data_write_lem little_endian v s a m p q = rw (take-le_bytes s 8 v q) (ground arith)
data_write_lem big_endian v s a m p q =
    rw (drop-be_bytes (8 - s) 8 s v (omega arith), take_self (be_bytes s v) s (length-be_bytes s v))
      (ground arith)

-- The value that `data_read` answers: that of the `s` bytes in the host's order.
pub data_read_lem :
    (h : Host) (s a : ℕ) (m : Memory)
    → 0 < s
    → s ≤ 8
    → data_read h s a m ≡ ok (object_value h (read_bytes a s m))
unfolding data_read
data_read_lem little_endian s a m p q =
    let bs = read_bytes a s m in
    rw
      (
        overlay_front bs 8 (8 - s) (omega (arith, length-read_bytes a s m)),
        le_value-padded bs (8 - s),
      )
      (ground arith)
data_read_lem big_endian s a m p q =
    let bs = read_bytes a s m in
    rw
      (
        overlay_back (8 - s) bs 8 (omega (arith, length-read_bytes a s m)),
        be_value-padded (8 - s) bs,
      )
      (ground arith)

-- A size of 0 or above 8 bytes is refused with CYAML_ERR_INVALID_DATA_SIZE by the write and the read.
pub data_size_refused :
    (h : Host) (v s a : ℕ) (m : Memory)
    → (s ≡ 0) ⊎ (8 < s)
    → (data_write h v s a m ≡ fail invalid_data_size) × (data_read h s a m ≡ fail invalid_data_size)
unfolding data_write data_read
data_size_refused h v s a m p = ground arith

-- After a write of `s` bytes, 1 to 8, at `a`, a read of `s` bytes at `a` answers the value modulo
-- 256 ^ s, on a host of either endianness, and no byte outside `a`..`a + s - 1` has changed.
pub data_read-data_write :
    (h : Host) (v s a : ℕ) (m : Memory)
    → 0 < s
    → s ≤ 8
    → (m' : Memory) × (data_write h v s a m ≡ ok m')
      × (data_read h s a m' ≡ ok (v % 256 ^ s))
      × ((x : ℕ) → (x < a) ⊎ (a + s ≤ x) → m' x ≡ m x)
data_read-data_write h v s a m p q =
    let bs = object_bytes h s v in
    let m' = write_bytes a bs m in
    let len : length bs ≡ s = length-object_bytes h s v in
    let back : read_bytes a s m' ≡ bs =
      subst (λ n. read_bytes a n m' ≡ bs) len (read_bytes-write_bytes bs a m) in
    (
      m',
      data_write_lem h v s a m p q,
      data_read_lem h s a m' p q
          ∙ ap (λ l. ok (object_value h l)) back
          ∙ ap ok (object_value-object_bytes h s v),
      λ x out. write_bytes_outside bs a x m (rw len out),
    )
