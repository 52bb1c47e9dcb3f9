-- ===== src/Load/Store/Range.antt =====
-- The limits that `cyaml__store_int` and `cyaml__store_uint` compute, as powers of two, and the
-- low bytes of an integer that fits them.
use libcyaml.Base.{ℕ, suc, ◌+◌, ◌-◌, ◌*◌, ◌%◌, ◌^◌, ◌≤◌, ◌<◌, ◌≡◌, refl, ap, ◌∙◌, arith}
use libcyaml.Base.{Bool, true, ◌&&◌, ◌||◌, ◌==◌, all_below, all_below→at}
use libcyaml.Base.Int.{ℤ, pos, negsuc, pos_part, neg_part, to_u64}
use libcyaml.Base.Width.{Width-all}
use libcyaml.Load.Store.{int_max, uint_max}
use native.Mathlib.Nat.{add-mul-mod_self_left, mod-eq_of_lt, one-le-pow}

-- The values of a signed, and of an unsigned, integer of `s` bytes.
abbrev pub FitsInt : ℕ → ℤ → Type 0
FitsInt s v = (pos_part v < 2 ^ (s * 8 - 1)) × (neg_part v ≤ 2 ^ (s * 8 - 1))

abbrev pub FitsUint : ℕ → ℕ → Type 0
FitsUint s v = v < 256 ^ s

abbrev limits : ℕ → Bool
limits s = s == 0 || (int_max s + 1 == 2 ^ (s * 8 - 1) && uint_max s + 1 == 2 ^ (s * 8))

limits-all : all_below 9 limits ≡ true
limits-all = refl

pub int_max_lem : (s : ℕ) → 0 < s → s ≤ 8 → int_max s + 1 ≡ 2 ^ (s * 8 - 1)
int_max_lem s p q =
    let e : limits s ≡ true = all_below→at 9 limits limits-all s (omega arith) in ground arith

pub uint_max_lem : (s : ℕ) → 0 < s → s ≤ 8 → uint_max s + 1 ≡ 256 ^ s
uint_max_lem s p q =
    let e : limits s ≡ true = all_below→at 9 limits limits-all s (omega arith) in
    let wid = Width-all s p q in ground (arith, wid.bytes)

below_multiple :
    (big pad k n : ℕ)
    → pad ≡ suc k
    → big * pad ≡ 2 ^ 64
    → n < big
    → (2 ^ 64 - 1 - n) % big ≡ big - 1 - n
below_multiple big pad k n e whole lt =
    let split : 2 ^ 64 - 1 - n ≡ (big - 1 - n) + big * k =
      omega (arith, ap (λ (t : ℕ). big * t) e) in
    ap (λ t. t % big) split ∙ add-mul-mod_self_left (big - 1 - n) big k ∙ mod-eq_of_lt (omega arith)

-- The low `s` bytes of a fitting integer.
pub low_bytes-pos :
    (s n : ℕ) → 0 < s → s ≤ 8 → n < 2 ^ (s * 8 - 1) → to_u64 (pos n) % 2 ^ (s * 8) ≡ n
low_bytes-pos s n p q h =
    let wid = Width-all s p q in
    let below : n < 2 ^ (s * 8) = omega (arith, wid.double) in
    let small : n % 2 ^ 64 ≡ n = mod-eq_of_lt (omega (arith, wid.cap)) in
    ap (λ t. t % 2 ^ (s * 8)) small ∙ mod-eq_of_lt below

pub low_bytes-negsuc :
    (s n : ℕ)
    → 0 < s
    → s ≤ 8
    → n < 2 ^ (s * 8 - 1)
    → to_u64 (negsuc n) % 2 ^ (s * 8) ≡ 2 ^ (s * 8) - 1 - n
low_bytes-negsuc s n p q h =
    let wid = Width-all s p q in
    let pad = 2 ^ ((8 - s) * 8) in
    let below : n < 2 ^ (s * 8) = omega (arith, wid.double) in
    let small : n % 2 ^ 64 ≡ n = mod-eq_of_lt (omega (arith, wid.cap)) in
    let pred : pad ≡ suc (pad - 1) = omega (arith, one-le-pow ((8 - s) * 8) 2) in
    ap (λ t. (2 ^ 64 - 1 - t) % 2 ^ (s * 8)) small
    ∙ below_multiple (2 ^ (s * 8)) pad (pad - 1) n pred wid.whole below
