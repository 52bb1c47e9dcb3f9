-- ===== src/Save/Sign.antt =====
-- src/save.c, `cyaml_sign_pad`: the signed value of an integer of `size` bytes.
use libcyaml.Base.{ℕ, zero, suc, ◌+◌, ◌-◌, ◌*◌, ◌/◌, ◌%◌, ◌^◌, ◌≤◌, ◌<◌, ◌≡◌, refl, ap, ◌∙◌}
use libcyaml.Base.{false, not, ◌&&◌, bit_and, bit_or, ltb, ◌==◌, if◌then◌else◌, arith}
use libcyaml.Base.Int.{ℤ, pos, negsuc, of_u64}
use libcyaml.Base.Bits.{bit_and_halves, bit_or_join, bit_or_comm, bit_and-zero}
use libcyaml.Base.Width.{Width-all}
use native.Mathlib.Nat.{pow-suc, one-le-pow}

unfoldable pub sign_pad : ℕ → ℕ → ℤ
sign_pad raw size =
    let sign_bit : ℕ = if size == 0 then 2 ^ 64 - 1 else 2 ^ (size * 8 - 1) in
    let padding : ℕ = (8 - size) * 8 in
    if not (bit_and sign_bit raw == 0) && not (padding == 0)
    then of_u64 (bit_or raw ((2 ^ padding - 1) * 2 ^ (size * 8) % 2 ^ 64))
    else of_u64 raw

-- A single bit picked out of a number that has no higher one.
top_bit : (w r : ℕ) → r < 2 ^ suc w → bit_and (2 ^ w) r ≡ (if ltb r (2 ^ w) then 0 else 2 ^ w)
top_bit zero zero h = bit_and-zero 1
top_bit zero (suc zero) h = refl
top_bit zero (suc (suc r)) h = absurd (omega arith)
top_bit (suc w) r h =
    let low : 2 ^ suc w / 2 ≡ 2 ^ w = omega (arith, pow-suc 2 w) in
    let half : bit_and (2 ^ suc w) r ≡ 2 * bit_and (2 ^ w) (r / 2) =
      omega (arith, pow-suc 2 w, bit_and_halves (2 ^ suc w) r, ap (λ t. bit_and t (r / 2)) low) in
    ground (arith, half, pow-suc 2 w, pow-suc 2 (suc w), top_bit w (r / 2))

pred_mul : (big pad k : ℕ) → pad ≡ suc k → k * big + big ≡ big * pad
pred_mul big pad k e = omega (arith, ap (λ (t : ℕ). big * t) e)

-- The value of `s` bytes, 1 to 8: itself below the sign bit, and less by 256 ^ s from there on.
pub sign_pad_lem :
    (s raw : ℕ)
    → 0 < s
    → s ≤ 8
    → raw < 2 ^ (s * 8)
    → sign_pad raw s
      ≡ (if ltb raw (2 ^ (s * 8 - 1)) then pos raw else negsuc (2 ^ (s * 8) - 1 - raw))
unfolding sign_pad
sign_pad_lem s raw p q h =
    let wid = Width-all s p q in
    let big = 2 ^ (s * 8) in
    let pad = 2 ^ ((8 - s) * 8) in
    let shifted : (pad - 1) * big + big ≡ 2 ^ 64 =
      pred_mul big pad (pad - 1) (omega (arith, one-le-pow ((8 - s) * 8) 2)) ∙ wid.whole in
    let fits : (pad - 1) * big % 2 ^ 64 ≡ (pad - 1) * big =
      omega (arith, shifted, one-le-pow (s * 8) 2) in
    let joined : bit_or raw ((pad - 1) * big) ≡ (pad - 1) * big + raw =
      bit_or_comm raw ((pad - 1) * big) ∙ bit_or_join (s * 8) (pad - 1) raw h in
    let picked = top_bit (s * 8 - 1) raw (rw wid.top h) in
    let positive : (s == 0) ≡ false = ground arith in
    rw (positive, picked, fits, joined)
      (ground (arith, shifted, wid.double, wid.room, wid.whole, one-le-pow (s * 8 - 1) 2))
