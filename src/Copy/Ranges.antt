-- ===== src/Copy/Ranges.antt =====
-- Ranges of bytes in the memory: reads beside a write, and pointers that are read back.
use libcyaml.Base.{ℕ, zero, suc, ◌+◌, ◌^◌, ◌%◌, ◌≤◌, ◌<◌, ◌≡◌, refl, ◌∙◌, arith}
use libcyaml.Base.{◌⊎◌, length, replicate}
use libcyaml.Errors.{ok}
use libcyaml.Schema.{Bytes}
use libcyaml.Memory.{Memory, Host, read_bytes, write_bytes}
use libcyaml.Memory.Laws.{write_bytes_outside}
use libcyaml.Data.{data_write, data_read, data_write_pointer, data_read_pointer}
use libcyaml.Data.Laws.{data_read-data_write}
use native.Mathlib.Nat.{mod-eq_of_lt}

-- Two ranges of bytes share none.
abbrev pub AreApart : ℕ → ℕ → ℕ → ℕ → Type 0
AreApart a n b k = (a + n ≤ b) ⊎ (b + k ≤ a)

pub length-read_bytes : (a n : ℕ) (m : Memory) → length (read_bytes a n m) ≡ n
unfolding read_bytes
length-read_bytes a zero m = refl
length-read_bytes a (suc n) m = omega (arith, length-read_bytes (a + 1) n m)

pub length-replicate : (n x : ℕ) → length (replicate n x) ≡ n
length-replicate zero x = refl
length-replicate (suc n) x = omega (arith, length-replicate n x)

pub read_bytes-same :
    (a n : ℕ) (m m' : Memory)
    → ((x : ℕ) → a ≤ x → x < a + n → m x ≡ m' x)
    → read_bytes a n m ≡ read_bytes a n m'
unfolding read_bytes
read_bytes-same a zero m m' h = refl
read_bytes-same a (suc n) m m' h =
    rw
      (
        h a (omega arith) (omega arith),
        read_bytes-same (a + 1) n m m' (λ x p q. h x (omega (arith, p)) (omega (arith, q))),
      )
      refl

-- A write elsewhere.
pub read_bytes-elsewhere :
    (a n b : ℕ) (bs : Bytes) (m : Memory)
    → AreApart a n b (length bs)
    → read_bytes a n (write_bytes b bs m) ≡ read_bytes a n m
read_bytes-elsewhere a n b bs m apart =
    read_bytes-same a n (write_bytes b bs m) m
      (λ x p q. write_bytes_outside bs b x m (ground (arith, apart, p, q)))

pub data_read_pointer-same :
    (h : Host) (a : ℕ) (m m' : Memory)
    → read_bytes a 8 m ≡ read_bytes a 8 m'
    → data_read_pointer h a m ≡ data_read_pointer h a m'
unfolding data_read_pointer
data_read_pointer-same h a m m' e = rw e refl

data_write_pointer-done :
    (h : Host) (p a : ℕ) (m m' : Memory)
    → data_write h p 8 a m ≡ ok m'
    → data_write_pointer h p a m ≡ m'
unfolding data_write_pointer
data_write_pointer-done h p a m m' e = cc

data_read_pointer-done :
    (h : Host) (a v : ℕ) (m : Memory) → data_read h 8 a m ≡ ok v → data_read_pointer h a m ≡ v
unfolding data_read_pointer
data_read_pointer-done h a v m e = cc

-- The pointer that was written is read, and no other byte has changed.
pub data_write_pointer_lem :
    (h : Host) (p a : ℕ) (m : Memory)
    → p < 2 ^ 64
    → (data_read_pointer h a (data_write_pointer h p a m) ≡ p)
      × ((x : ℕ) → (x < a) ⊎ (a + 8 ≤ x) → data_write_pointer h p a m x ≡ m x)
data_write_pointer_lem h p a m small =
    let (m', written, back, same) = data_read-data_write h p 8 a m (omega arith) (omega arith) in
    rw (data_write_pointer-done h p a m m' written)
      (data_read_pointer-done h a (p % 256 ^ 8) m' back ∙ mod-eq_of_lt small, same)
