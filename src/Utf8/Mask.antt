-- ===== src/Utf8/Mask.antt =====
-- `&` with a field of ones, as arithmetic, at every width.
use libcyaml.Base.{ℕ, zero, suc, ◌+◌, ◌-◌, ◌*◌, ◌/◌, ◌%◌, ◌^◌, ◌≡◌, sym, ap, ◌∙◌, arith}
use libcyaml.Base.{bit_and}
use libcyaml.Base.Bits.{bit_and_halves, bit_and-zero}
use libcyaml.Base.DivMod.{mod_split}
use native.Mathlib.Nat.{pow-suc, one-le-pow, div-div-eq-div-mul}

-- `x & (2^d - 1)`
pub bit_and_ones : (d x : ℕ) → bit_and x (2 ^ d - 1) ≡ x % 2 ^ d
bit_and_ones zero x = bit_and-zero x ∙ omega arith
bit_and_ones (suc d) x =
    let ones : (2 ^ suc d - 1) / 2 ≡ 2 ^ d - 1 = omega (arith, pow-suc 2 d, one-le-pow d 2) in
    let twice : 2 ^ suc d ≡ 2 * 2 ^ d = omega (arith, pow-suc 2 d) in
    let split : x % 2 ^ suc d ≡ x % 2 + 2 * (x / 2 % 2 ^ d) =
      ap (λ t. x % t) twice ∙ mod_split 2 (2 ^ d) x (omega arith) (one-le-pow d 2 (omega arith)) in
    omega (
      arith,
      split,
      twice,
      one-le-pow d 2,
      bit_and_halves x (2 ^ suc d - 1),
      ap (λ t. bit_and (x / 2) t) ones,
      bit_and_ones d (x / 2),
    )

mul_two_pow : (q w : ℕ) → q * 2 ^ suc w ≡ 2 * (q * 2 ^ w)
mul_two_pow q w = omega (arith, ap (λ (t : ℕ). q * t) (pow-suc 2 w))

-- `x & ((2^d - 1) << w)`
pub bit_and_field : (w d x : ℕ) → bit_and x ((2 ^ d - 1) * 2 ^ w) ≡ x / 2 ^ w % 2 ^ d * 2 ^ w
bit_and_field zero d x =
    ap (λ t. bit_and x t) one ∙ bit_and_ones d x ∙ sym (omega (arith, ap (λ t. t % 2 ^ d) whole))
  where
    one : (2 ^ d - 1) * 2 ^ 0 ≡ 2 ^ d - 1
    one = omega arith

    whole : x / 2 ^ 0 ≡ x
    whole = omega arith
bit_and_field (suc w) d x =
    let mask = (2 ^ d - 1) * 2 ^ w in
    let r = x / 2 ^ suc w % 2 ^ d in
    let doubled : (2 ^ d - 1) * 2 ^ suc w ≡ 2 * mask = mul_two_pow (2 ^ d - 1) w in
    let half : (2 ^ d - 1) * 2 ^ suc w / 2 ≡ mask = omega (arith, doubled) in
    let down : x / 2 / 2 ^ w ≡ x / 2 ^ suc w =
      div-div-eq-div-mul x 2 (2 ^ w) ∙ ap (λ t. x / t) (omega (arith, pow-suc 2 w)) in
    omega (
      arith,
      doubled,
      bit_and_halves x ((2 ^ d - 1) * 2 ^ suc w),
      ap (λ t. bit_and (x / 2) t) half,
      bit_and_field w d (x / 2),
      ap (λ t. t % 2 ^ d * 2 ^ w) down,
      mul_two_pow r w,
    )
