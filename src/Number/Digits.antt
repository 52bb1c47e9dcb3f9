-- ===== src/Number/Digits.antt =====
-- Digits as `sprintf` prints them and `strtoll` reads them.
use libcyaml.Base.{ℕ, zero, suc, ◌+◌, ◌*◌, ◌/◌, ◌%◌, ◌^◌, ◌≤◌, ◌<◌, ◌≡◌, refl, arith, ap, ◌∙◌}
use libcyaml.Base.{true, Bool, ◌∷◌, ltb, ◌==◌, Bool-cases, inl, inr}
use libcyaml.Base.{all_below, all_below→at, ==→eq, ==→ne}
use libcyaml.Schema.{Bytes}
use libcyaml.Number.{digit_char, digit_value, read_digits, put_digits}
use native.Mathlib.Nat.{
  pow-suc, pow-zero, mod-lt, mod-eq_of_lt, div-eq_of_lt, div-lt_iff_lt-mul, div-add-mod',
}

abbrev value_test : ℕ → Bool
value_test d = digit_value (digit_char d) == d

value_test-all : all_below 16 value_test ≡ true
value_test-all = refl

pub digit_value-digit_char : (d : ℕ) → d < 16 → digit_value (digit_char d) ≡ d
digit_value-digit_char d h = ==→eq _ d (all_below→at 16 value_test value_test-all d h)

module _ (base : ℕ) (low : 2 ≤ base) (high : base ≤ 16) where
  read_digits-digit_char :
      (d : ℕ) (acc : Bytes) (k : ℕ)
      → d < base
      → read_digits base (digit_char d ∷ acc) k ≡ read_digits base acc (k * base + d)
  unfolding read_digits
  read_digits-digit_char d acc k h =
      let v = digit_value-digit_char d (omega arith) in
      let e : ltb d base ≡ true = ground arith in rw (v, e) refl

  power_one : base ^ 1 ≡ base
  power_one = pow-suc base 0 ∙ ap (λ (t : ℕ). t * base) (pow-zero base) ∙ omega arith

  quotient_lt : (fuel n : ℕ) → n < base ^ suc fuel → n / base < base ^ fuel
  quotient_lt fuel n h =
      let step : n < base ^ fuel * base = omega (arith, pow-suc base fuel) in
      (div-lt_iff_lt-mul (omega arith)).1 step

  quotient_zero : (n : ℕ) → n / base ≡ 0 → n < base
  quotient_zero n e =
      let none : n / base * base ≡ 0 = rw e (omega arith) in
      omega (arith, div-add-mod' n base, none, mod-lt n {m = base} (omega arith))

  one_digit :
      (n : ℕ) (acc : Bytes)
      → n < base
      → read_digits base (digit_char (n % base) ∷ acc) 0 ≡ read_digits base acc n
  one_digit n acc h =
      rw (mod-eq_of_lt h)
        (read_digits-digit_char n acc 0 h ∙ ap (λ t. read_digits base acc t) (omega arith))

  pub read_digits-put_digits :
      (fuel n : ℕ) (acc : Bytes)
      → n < base ^ suc fuel
      → read_digits base (put_digits base (suc fuel) n acc) 0 ≡ read_digits base acc n
  unfolding put_digits
  read_digits-put_digits zero n acc h =
      let lt : n < base = omega (arith, power_one) in
      let none : n / base ≡ 0 = div-eq_of_lt lt in rw none (one_digit n acc lt)
  read_digits-put_digits (suc fuel) n acc h = elim (Bool-cases (n / base == 0)) [
    | inl e ↦ let lt : n < base = quotient_zero n (==→eq _ _ e) in rw e (one_digit n acc lt)
    | inr e ↦ rw e (
        read_digits-put_digits fuel (n / base) (digit_char (n % base) ∷ acc)
          (quotient_lt (suc fuel) n h)
        ∙ read_digits-digit_char (n % base) acc (n / base) (mod-lt n (omega arith))
        ∙ ap (λ t. read_digits base acc t) (div-add-mod' n base))
  ]

  -- The first digit of a number that is not 0 is not 0.
  pub put_digits_head :
      (fuel n : ℕ) (acc : Bytes)
      → 0 < n
      → n < base ^ suc fuel
      → (d : ℕ) × (ds : Bytes) × (put_digits base (suc fuel) n acc ≡ digit_char d ∷ ds)
        × (0 < d)
        × (d < base)
  unfolding put_digits
  put_digits_head zero n acc pos h =
      let lt : n < base = omega (arith, power_one) in
      let none : n / base ≡ 0 = div-eq_of_lt lt in
      (n, acc, rw (none, mod-eq_of_lt lt) refl, pos, lt)
  put_digits_head (suc fuel) n acc pos h = elim (Bool-cases (n / base == 0)) [
    | inl e ↦
        let lt : n < base = quotient_zero n (==→eq _ _ e) in
        (n, acc, rw (e, mod-eq_of_lt lt) refl, pos, lt)
    | inr e ↦
        let ne = ==→ne _ _ e in
        rw e (
          put_digits_head fuel (n / base) (digit_char (n % base) ∷ acc) (omega (arith, ne))
            (quotient_lt (suc fuel) n h))
  ]
