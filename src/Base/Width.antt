-- ===== src/Base/Width.antt =====
-- Powers of two at the widths of one to eight bytes.
use Prim.Native.Nat.{ℕ, suc, ◌-◌, ◌*◌, ◌^◌, ◌≤◌, ◌<◌}
use mathlib.Core.Path.{◌≡◌, refl}
use mathlib.Core.Logic.{◌⊎◌}
use mathlib.Core.Bool.{Bool, true, ◌&&◌, ◌||◌}
use native.Mathlib.Omega.{arith}
use libcyaml.Base.Tests.{leb, ◌==◌, all_below, all_below→at}

-- The powers of two that belong to the width of `s` bytes.
abbrev widths : ℕ → Bool
widths s =
    2 ^ (s * 8) * 2 ^ ((8 - s) * 8) == 2 ^ 64
    && (s == 0 || 2 ^ suc (s * 8 - 1) == 2 ^ (s * 8))
    && (s == 0 || 2 * 2 ^ (s * 8 - 1) == 2 ^ (s * 8))
    && 2 ^ (s * 8) == 256 ^ s
    && leb (2 ^ (s * 8)) (2 ^ 64)
    && (s == 8 || leb 256 (2 ^ ((8 - s) * 8)))

widths-all : all_below 9 widths ≡ true
widths-all = refl

pub record Width (s : ℕ) : Type 0 where
  pub whole : 2 ^ (s * 8) * 2 ^ ((8 - s) * 8) ≡ 2 ^ 64
  pub top : 2 ^ suc (s * 8 - 1) ≡ 2 ^ (s * 8)
  pub double : 2 * 2 ^ (s * 8 - 1) ≡ 2 ^ (s * 8)
  pub bytes : 2 ^ (s * 8) ≡ 256 ^ s
  pub cap : 2 ^ (s * 8) ≤ 2 ^ 64
  pub room : (s ≡ 8) ⊎ (256 ≤ 2 ^ ((8 - s) * 8))

pub Width-all : (s : ℕ) → 0 < s → s ≤ 8 → Width s
Width-all s p q =
    let e : widths s ≡ true = all_below→at 9 widths widths-all s (omega arith) in ground arith
