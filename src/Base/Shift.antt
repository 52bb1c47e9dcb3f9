-- ===== src/Base/Shift.antt =====
-- Fields of a word: `n & (x << off)`, and the masks of `m` bits.
use Prim.Native.Nat.{ℕ, zero, suc, ◌+◌, ◌-◌, ◌*◌, ◌/◌, ◌%◌, ◌^◌, ◌≤◌, ◌<◌, bit_and}
use mathlib.Core.Path.{◌≡◌, refl, ap, sym, ◌∙◌}
use mathlib.Core.Bool.{Bool, true}
use native.Mathlib.Nat.{
  pow-suc, pow-zero, one-le-pow, mod-eq_of_lt, div-one, div-div-eq-div-mul, mul-div_cancel,
  pow-le-pow_right,
}
use native.Mathlib.Omega.{arith}
use libcyaml.Base.Tests.{◌==◌, all_below, all_below→at, ==→eq}
use libcyaml.Base.Bits.{bit_and_halves, bit_and_comm}
use libcyaml.Base.Complement.{bit_and_le}

abbrev mask_test : ℕ → Bool
mask_test m = (2 ^ 64 - 1) / 2 ^ (64 - m) == 2 ^ m - 1

mask_test-all : all_below 65 mask_test ≡ true
mask_test-all = refl

pub low_mask : (m : ℕ) → m ≤ 64 → (2 ^ 64 - 1) / 2 ^ (64 - m) ≡ 2 ^ m - 1
low_mask m h = ==→eq _ _ (all_below→at 65 mask_test mask_test-all m (omega arith))

double : (x off : ℕ) → x * 2 ^ suc off ≡ 2 * (x * 2 ^ off)
double x off = rw (pow-suc 2 off) (grind arith)

pow_add : (m off : ℕ) → 2 ^ m * 2 ^ off ≡ 2 ^ (m + off)
pow_add m zero =
    ap (λ t. 2 ^ m * t) (pow-zero 2)
    ∙ omega arith
    ∙ ap (λ t. 2 ^ t) {x = m} {y = m + 0} (omega arith)
pow_add m (suc off) =
    double (2 ^ m) off
    ∙ ap (λ (t : ℕ). 2 * t) (pow_add m off)
    ∙ omega (arith, pow-suc 2 (m + off))
    ∙ ap (λ t. 2 ^ t) {x = suc (m + off)} {y = m + suc off} (omega arith)

pub bit_and-shifted : (off n x : ℕ) → bit_and n (x * 2 ^ off) ≡ bit_and (n / 2 ^ off) x * 2 ^ off
bit_and-shifted zero n x =
    let same : x * 2 ^ 0 ≡ x = omega (arith, pow-zero 2) in
    let whole : n / 2 ^ 0 ≡ n = div-one n in rw (same, whole) (omega arith)
bit_and-shifted (suc off) n x =
    let half : x * 2 ^ suc off / 2 ≡ x * 2 ^ off = omega (arith, double x off) in
    let ih = bit_and-shifted off (n / 2) x in
    let div : n / 2 / 2 ^ off ≡ n / 2 ^ suc off =
      div-div-eq-div-mul n 2 (2 ^ off) ∙ ap (λ t. n / t) (omega (arith, pow-suc 2 off)) in
    let halved : bit_and (n / 2) (x * 2 ^ suc off / 2) ≡ bit_and (n / 2 ^ suc off) x * 2 ^ off =
      ap (λ t. bit_and (n / 2) t) half ∙ ih ∙ ap (λ t. bit_and t x * 2 ^ off) div in
    omega (
      arith,
      bit_and_halves n (x * 2 ^ suc off),
      double x off,
      halved,
      double (bit_and (n / 2 ^ suc off) x) off,
    )

-- The bits that a field of `m` bits at `off` picks, as a number: within the field, and shifted back
-- they are the bits picked.
module _ (m off n : ℕ) (fits : m + off ≤ 64) where
  abbrev pub field_mask : ℕ
  field_mask = (2 ^ 64 - 1) / 2 ^ (64 - m) * 2 ^ off % 2 ^ 64

  pub field_mask_lem : field_mask ≡ (2 ^ m - 1) * 2 ^ off
  field_mask_lem =
      let top : 2 ^ m * 2 ^ off ≤ 2 ^ 64 =
        rw (pow_add m off) (pow-le-pow_right {n = 2} (omega arith) fits) in
      let small : (2 ^ m - 1) * 2 ^ off < 2 ^ 64 =
        let pred : 2 ^ m ≡ suc (2 ^ m - 1) = omega (arith, one-le-pow m 2 (omega arith)) in
        omega (arith, top, ap (λ (t : ℕ). 2 ^ off * t) pred, one-le-pow off 2 (omega arith)) in
      ap (λ t. t * 2 ^ off % 2 ^ 64) (low_mask m (omega arith)) ∙ mod-eq_of_lt small

  picked : bit_and n field_mask ≡ bit_and (n / 2 ^ off) (2 ^ m - 1) * 2 ^ off
  picked = ap (λ t. bit_and n t) field_mask_lem ∙ bit_and-shifted off n (2 ^ m - 1)

  pub picked_value : bit_and n field_mask / 2 ^ off ≡ bit_and (n / 2 ^ off) (2 ^ m - 1)
  picked_value = ap (λ t. t / 2 ^ off) picked ∙ mul-div_cancel _ (one-le-pow off 2 (omega arith))

  pub picked_le : bit_and n field_mask / 2 ^ off ≤ (2 ^ 64 - 1) / 2 ^ (64 - m)
  picked_le =
      let q = n / 2 ^ off in
      omega (
        arith,
        picked_value,
        low_mask m (omega arith),
        bit_and_comm q (2 ^ m - 1),
        bit_and_le (2 ^ m - 1) q,
      )

  pub picked_back :
      n < 2 ^ 64 → bit_and n field_mask / 2 ^ off * 2 ^ off % 2 ^ 64 ≡ bit_and n field_mask
  picked_back lt =
      let small : bit_and n field_mask < 2 ^ 64 = omega (arith, bit_and_le n field_mask) in
      ap (λ t. t * 2 ^ off % 2 ^ 64) picked_value
      ∙ ap (λ t. t % 2 ^ 64) (sym picked)
      ∙ mod-eq_of_lt small
