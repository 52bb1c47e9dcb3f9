-- ===== src/Base/DivMod.antt =====
-- Remainders by a product, and by a power of 256 or of 2.
use Prim.Native.Nat.{ℕ, suc, ◌+◌, ◌*◌, ◌/◌, ◌%◌, ◌^◌, ◌<◌}
use mathlib.Core.Path.{◌≡◌, ap, ◌∙◌}
use native.Mathlib.Nat.{pow-suc, one-le-pow, add-mul-mod_self_left, mod-eq_of_lt, mod-lt}
use native.Mathlib.Nat.{div-add-mod, mul_comm}
use native.Mathlib.Omega.{arith}

-- A remainder by `b * p`, digit by digit.
pub mod_split : (b p n : ℕ) → 0 < b → 0 < p → n % (b * p) ≡ n % b + b * (n / b % p)
mod_split b p n hb hp =
    let q = n / b / p in
    let r = n / b % p in
    let whole : n ≡ n % b + b * r + b * p * q =
      omega (arith, div-add-mod n b, ap (λ (t : ℕ). b * t) (div-add-mod (n / b) p)) in
    let rest : n % b < b = mod-lt n hb in
    let digit : r < p = mod-lt (n / b) hp in
    let small : n % b + b * r < b * p = grind arith in
    ap (λ t. t % (b * p)) whole
    ∙ add-mul-mod_self_left (n % b + b * r) (b * p) q
    ∙ mod-eq_of_lt small

-- The lowest byte first.
pub mod_low_byte : (k n : ℕ) → n % 256 ^ suc k ≡ n % 256 + 256 * (n / 256 % 256 ^ k)
mod_low_byte k n =
    ap (λ t. n % t) (pow-suc 256 k ∙ mul_comm (256 ^ k) 256)
    ∙ mod_split 256 (256 ^ k) n (omega arith) (one-le-pow k 256 (omega arith))

-- The highest byte first.
pub mod_high_byte : (k n : ℕ) → n % 256 ^ suc k ≡ n % 256 ^ k + 256 ^ k * (n / 256 ^ k % 256)
mod_high_byte k n =
    ap (λ t. n % t) (pow-suc 256 k)
    ∙ mod_split (256 ^ k) 256 n (one-le-pow k 256 (omega arith)) (omega arith)
