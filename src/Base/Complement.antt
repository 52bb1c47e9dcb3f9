-- ===== src/Base/Complement.antt =====
-- The bits of `~f` in a word of `w` bits, and bits that are taken out of a number and put back.
use Prim.Native.Nat.{ℕ, zero, suc, ◌-◌, ◌/◌, ◌^◌, ◌≤◌, ◌<◌}
use Prim.Native.Nat.{bit_and, bit_or}
use mathlib.Core.Path.{◌≡◌, ap}
use mathlib.Core.Logic.{inl, inr}
use native.Mathlib.Nat.{pow-suc, pow-zero}
use native.Mathlib.Omega.{arith}
use libcyaml.Base.Tests.{compare_cases}
use libcyaml.Base.Bits.{
  bit, bit_lt, bit-bit_and, bit-bit_or, bits_ext, bit-zero, bit_and_halves, bit_and_comm,
  bit_and-zero,
}

bit_complement_below : (w k f : ℕ) → f < 2 ^ w → k < w → bit k (2 ^ w - 1 - f) ≡ 1 - bit k f
bit_complement_below zero k f h lt = absurd (omega arith)
bit_complement_below (suc w) zero f h lt = omega (arith, pow-suc 2 w)
bit_complement_below (suc w) (suc k) f h lt =
    let half : (2 ^ suc w - 1 - f) / 2 ≡ 2 ^ w - 1 - f / 2 = omega (arith, pow-suc 2 w) in
    rw half (bit_complement_below w k (f / 2) (omega (arith, pow-suc 2 w)) (omega arith))

bit_above : (w k n : ℕ) → n < 2 ^ w → w ≤ k → bit k n ≡ 0
bit_above zero k n h le = let zero_n : n ≡ 0 = omega (arith, pow-zero 2) in rw zero_n (bit-zero k)
bit_above (suc w) zero n h le = absurd (omega arith)
bit_above (suc w) (suc k) n h le = bit_above w k (n / 2) (omega (arith, pow-suc 2 w)) (omega arith)

-- `f | (n & ~f)` is `n` where `f` is within `n`.
pub bit_or-complement :
    (w n f : ℕ) → n < 2 ^ w → f < 2 ^ w → bit_and n f ≡ f → bit_or f (bit_and n (2 ^ w - 1 - f)) ≡ n
bit_or-complement w n f hn hf within = bits_ext _ _ (λ k. elim (compare_cases k w) [
  | inl lt ↦ omega (
    arith,
    bit-bit_or k f (bit_and n (2 ^ w - 1 - f)),
    bit-bit_and k n (2 ^ w - 1 - f),
    bit_complement_below w k f hf lt,
    bit-bit_and k n f,
    ap (λ t. bit k t) within,
    bit_lt k n,
    bit_lt k f,
  )
  | inr le ↦ omega (
    arith,
    bit-bit_or k f (bit_and n (2 ^ w - 1 - f)),
    bit-bit_and k n (2 ^ w - 1 - f),
    bit_above w k n hn le,
    bit_above w k f hf le,
  )
])

-- A number without some of its bits is no greater; the first argument bounds the number.
bit_and_le_below : (fuel a b : ℕ) → a ≤ fuel → bit_and a b ≤ a
bit_and_le_below fuel zero b h = omega (arith, bit_and_comm 0 b, bit_and-zero b)
bit_and_le_below zero (suc a) b h = absurd (omega arith)
bit_and_le_below (suc fuel) (suc a) b h =
    omega (arith, bit_and_halves (suc a) b, bit_and_le_below fuel (suc a / 2) (b / 2) (omega arith))

pub bit_and_le : (a b : ℕ) → bit_and a b ≤ a
bit_and_le a b = bit_and_le_below a a b (omega arith)
