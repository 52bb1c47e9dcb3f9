-- ===== src/Number/Parsed.antt =====
-- `strtoll` and `strtoull` of what `sprintf` printed.
use libcyaml.Base.{ℕ, zero, suc, ◌-◌, ◌^◌, ◌<◌, ◌≡◌, refl, arith, ap, ◌∙◌}
use libcyaml.Base.{true, false, not, ◌&&◌, Bool, some, [], ◌∷◌, ltb, leb, ◌==◌}
use libcyaml.Base.{all_below, all_below→at, lt→ltb}
use libcyaml.Base.Int.{ℤ, pos, negsuc, IsI64}
use libcyaml.Schema.{Bytes}
use libcyaml.Number.{digit_char, digit_value, is_space, is_digit, skip_spaces, take_sign}
use libcyaml.Number.{
  read_magnitude, signed_result, unsigned_result, strtoll, strtoull, print_signed, print_unsigned,
  print_hex,
}
use libcyaml.Number.{read_digits, put_digits}
use libcyaml.Number.Digits.{digit_value-digit_char, read_digits-put_digits, put_digits_head}

-- The character of a digit above 0 is neither a space nor a sign, and begins no prefix.
abbrev plain_test : ℕ → Bool
plain_test d =
    not (is_space (digit_char (suc d)))
    && (not (digit_char (suc d) == 45)
        && (not (digit_char (suc d) == 43) && not (digit_char (suc d) == 48)))

plain_test-all : all_below 9 plain_test ≡ true
plain_test-all = refl

all_false :
    (a b c d : Bool)
    → (not a && (not b && (not c && not d))) ≡ true
    → (a ≡ false) × (b ≡ false) × (c ≡ false) × (d ≡ false)
all_false false false false false e = (refl, refl, refl, refl)
all_false true b c d e = cc
all_false false true c d e = cc
all_false false false true d e = cc
all_false false false false true e = cc

signless :
    (c : ℕ) (cs : Bytes)
    → is_space c ≡ false
    → (c == 45) ≡ false
    → (c == 43) ≡ false
    → take_sign (skip_spaces (c ∷ cs)) ≡ (false, c ∷ cs)
signless c cs e f g = rw (e, f, g) refl

decimal_magnitude :
    (c : ℕ) (cs : Bytes)
    → (c == 48) ≡ false
    → ltb (digit_value c) 10 ≡ true
    → read_magnitude (c ∷ cs) ≡ some (read_digits 10 (c ∷ cs) 0)
unfolding read_magnitude
decimal_magnitude c [] e f = rw f refl
decimal_magnitude c (d ∷ cs) e f = rw (e, f) refl

-- A printed number has no sign, and is read as decimal.
print_unsigned_shape :
    (n : ℕ)
    → n < 2 ^ 64
    → (take_sign (skip_spaces (print_unsigned n)) ≡ (false, print_unsigned n))
      × (read_magnitude (print_unsigned n) ≡ some (n, []))
unfolding print_unsigned
print_unsigned_shape zero h = (refl, unfold read_magnitude read_digits in refl)
print_unsigned_shape (suc k) h =
    let (d, ds, shape, above, lt) =
      put_digits_head 10 (omega arith) (omega arith) 63 (suc k) [] (omega arith) (omega arith) in
    first d ds shape above lt
  where
    first :
        (d : ℕ) (ds : Bytes)
        → put_digits 10 64 (suc k) [] ≡ digit_char d ∷ ds
        → 0 < d
        → d < 10
        → (take_sign (skip_spaces (put_digits 10 64 (suc k) []))
            ≡ (false, put_digits 10 64 (suc k) []))
          × (read_magnitude (put_digits 10 64 (suc k) []) ≡ some (suc k, []))
    first zero ds shape above lt = absurd (omega arith)
    first (suc d) ds shape above lt =
        let c = digit_char (suc d) in
        let (space, minus, plus, prefix) =
          all_false (is_space c) (c == 45) (c == 43) (c == 48)
            (all_below→at 9 plain_test plain_test-all d (omega arith)) in
        let value : ltb (digit_value c) 10 ≡ true =
          rw (digit_value-digit_char (suc d) (omega arith)) (lt→ltb (suc d) 10 lt) in
        let read =
          read_digits-put_digits 10 (omega arith) (omega arith) 63 (suc k) [] (omega arith) in
        let mag : read_magnitude (put_digits 10 64 (suc k) [])
            ≡ some (read_digits 10 (put_digits 10 64 (suc k) []) 0) =
          rw shape (decimal_magnitude c ds prefix value) in
        (
          rw shape (signless c ds space minus plus),
          mag ∙ ap some (read ∙ unfold read_digits in refl),
        )

signed_result_small :
    (n : ℕ)
    → n < 2 ^ 63
    → signed_result false (some (n, [])) ≡ some (record { value = pos n; rest = []; range = false })
unfolding signed_result
signed_result_small n h = let e : leb (2 ^ 63) n ≡ false = ground arith in rw e refl

signed_result_negative :
    (n : ℕ)
    → n < 2 ^ 63
    → signed_result true (some (suc n, []))
      ≡ some (record { value = negsuc n; rest = []; range = false })
unfolding signed_result
signed_result_negative n h =
    let e : ltb (2 ^ 63) (suc n) ≡ false = ground arith in
    let z : (suc n == 0) ≡ false = ground arith in
    let p : suc n - 1 ≡ n = omega arith in rw (e, z, p) refl

unsigned_result_small :
    (n : ℕ)
    → n < 2 ^ 64
    → unsigned_result false (some (n, [])) ≡ some (record { value = n; rest = []; range = false })
unfolding unsigned_result
unsigned_result_small n h = let e : leb (2 ^ 64) n ≡ false = ground arith in rw e refl

module _ (text : Bytes) (negative : Bool) (digits : Bytes) (n : ℕ) where
  strtoll_parts :
      take_sign (skip_spaces text) ≡ (negative, digits)
      → read_magnitude digits ≡ some (n, [])
      → strtoll text ≡ signed_result negative (some (n, []))
  unfolding strtoll
  strtoll_parts e f =
      ap (λ p. signed_result p.0 (read_magnitude p.1)) e ∙ ap (λ m. signed_result negative m) f

  strtoull_parts :
      take_sign (skip_spaces text) ≡ (negative, digits)
      → read_magnitude digits ≡ some (n, [])
      → strtoull text ≡ unsigned_result negative (some (n, []))
  unfolding strtoull
  strtoull_parts e f =
      ap (λ p. unsigned_result p.0 (read_magnitude p.1)) e ∙ ap (λ m. unsigned_result negative m) f

-- `strtoll` of a printed signed integer is that integer, with nothing behind it and no range error.
pub strtoll-print_signed :
    (v : ℤ)
    → IsI64 v
    → strtoll (print_signed v) ≡ some (record { value = v; rest = []; range = false })
unfolding print_signed
strtoll-print_signed (pos n) h =
    let shape = print_unsigned_shape n (omega (arith, h.0)) in
    strtoll_parts (print_unsigned n) false (print_unsigned n) n shape.0 shape.1
    ∙ signed_result_small n h.0
strtoll-print_signed (negsuc n) h =
    let shape = print_unsigned_shape (suc n) (omega (arith, h.1)) in
    strtoll_parts (45 ∷ print_unsigned (suc n)) true (print_unsigned (suc n)) (suc n) refl shape.1
    ∙ signed_result_negative n (omega (arith, h.1))

-- `strtoull` of a printed unsigned integer is that integer, with nothing behind it and no range error.
pub strtoull-print_unsigned :
    (n : ℕ)
    → n < 2 ^ 64
    → strtoull (print_unsigned n) ≡ some (record { value = n; rest = []; range = false })
strtoull-print_unsigned n h =
    let shape = print_unsigned_shape n h in
    strtoull_parts (print_unsigned n) false (print_unsigned n) n shape.0 shape.1
    ∙ unsigned_result_small n h

hex_magnitude :
    (cs : Bytes)
    → is_digit 16 cs ≡ true
    → read_magnitude (48 ∷ 120 ∷ cs) ≡ some (read_digits 16 cs 0)
unfolding read_magnitude
hex_magnitude cs e = rw e refl

is_digit-put_digits : (n : ℕ) → n < 2 ^ 64 → is_digit 16 (put_digits 16 64 n []) ≡ true
is_digit-put_digits zero h = unfold put_digits in refl
is_digit-put_digits (suc k) h =
    let (d, ds, shape, above, lt) =
      put_digits_head 16 (omega arith) (omega arith) 63 (suc k) [] (omega arith) (omega arith) in
    rw (shape, digit_value-digit_char d lt) (lt→ltb d 16 lt)

-- The same in hexadecimal.
pub strtoull-print_hex :
    (n : ℕ)
    → n < 2 ^ 64
    → strtoull (print_hex n) ≡ some (record { value = n; rest = []; range = false })
unfolding print_hex
strtoull-print_hex n h =
    let digits = put_digits 16 64 n [] in
    let read = read_digits-put_digits 16 (omega arith) (omega arith) 63 n [] (omega arith) in
    strtoull_parts (48 ∷ 120 ∷ digits) false (48 ∷ 120 ∷ digits) n refl
      (hex_magnitude digits (is_digit-put_digits n h) ∙ ap some (read ∙ unfold read_digits in refl))
    ∙ unsigned_result_small n h
