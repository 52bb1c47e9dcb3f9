-- ===== src/Number.antt =====
-- The C library's conversions between text and 64-bit integers, as src/load.c and src/save.c use
-- them: `strtoll` and `strtoull` with base 0, and `sprintf` of `%PRIi64`, `%PRIu64` and `0x%PRIx64`.
-- A text is the list of its bytes without the terminator.
pub mod Digits
pub mod Parsed
use libcyaml.Base.{ℕ, zero, suc, ◌+◌, ◌-◌, ◌*◌, ◌/◌, ◌%◌, ◌^◌, Bool, true, false, ◌&&◌, ◌||◌}
use libcyaml.Base.{Option, none, some, List, [], ◌∷◌, ◌++◌, ltb, leb, ◌==◌, if◌then◌else◌}
use libcyaml.Base.Int.{ℤ, pos, negsuc}
use libcyaml.Schema.{Bytes}

-- `isspace` in the C locale.
abbrev pub is_space : ℕ → Bool
is_space c = c == 32 || (leb 9 c && leb c 13)

abbrev pub skip_spaces : Bytes → Bytes
skip_spaces [] = []
skip_spaces (c ∷ cs) = let rest = skip_spaces cs in if is_space c then rest else c ∷ cs

-- Whether there is a minus sign, and the text after the sign.
abbrev pub take_sign : Bytes → Bool × Bytes
take_sign [] = (false, [])
take_sign (c ∷ cs) =
    if c == 45 then (true, cs) else if c == 43 then (false, cs) else (false, c ∷ cs)

-- The value of a digit or a letter; 36 is that of no base.
abbrev pub digit_value : ℕ → ℕ
digit_value c =
    if leb 48 c && leb c 57
    then c - 48
    else if leb 97 c && leb c 122
    then c - 87
    else if leb 65 c && leb c 90
    then c - 55
    else 36

abbrev pub is_digit : ℕ → Bytes → Bool
is_digit base [] = false
is_digit base (c ∷ cs) = ltb (digit_value c) base

-- The digits at the start of a text after digits of the value `acc`: their value and the text behind.
unfoldable pub read_digits : ℕ → Bytes → ℕ → ℕ × Bytes
read_digits base [] acc = (acc, [])
read_digits base (c ∷ cs) acc =
    let more = read_digits base cs (acc * base + digit_value c) in
    if ltb (digit_value c) base then more else (acc, c ∷ cs)

-- Base 0: `0x` and a hexadecimal digit begin base 16, another `0` base 8. `none`: no digits.
unfoldable pub read_magnitude : Bytes → Option (ℕ × Bytes)
unfolding read_digits
read_magnitude [] = none
read_magnitude (c ∷ []) = if ltb (digit_value c) 10 then some (read_digits 10 (c ∷ []) 0) else none
read_magnitude (c ∷ d ∷ cs) =
    if c == 48
    then (if (d == 120 || d == 88) && is_digit 16 cs
        then some (read_digits 16 cs 0)
        else some (read_digits 8 (c ∷ d ∷ cs) 0))
    else if ltb (digit_value c) 10
    then some (read_digits 10 (c ∷ d ∷ cs) 0)
    else none

-- What a conversion answers: its value, the text from its end pointer on, and whether it set
-- `errno` to `ERANGE`.
pub record Conversion (A : Type 0) : Type 0 where
  pub value : A
  pub rest : Bytes
  pub range : Bool

-- The value of a sign and a magnitude, at most `LLONG_MAX` and at least `LLONG_MIN`.
unfoldable pub signed_result : Bool → Option (ℕ × Bytes) → Option (Conversion ℤ)
signed_result negative none = none
signed_result true (some (n, rest)) = some (
    if ltb (2 ^ 63) n
    then record { value = negsuc (2 ^ 63 - 1); rest = rest; range = true }
    else record { value = if n == 0 then pos 0 else negsuc (n - 1); rest = rest; range = false })
signed_result false (some (n, rest)) = some (
    if leb (2 ^ 63) n
    then record { value = pos (2 ^ 63 - 1); rest = rest; range = true }
    else record { value = pos n; rest = rest; range = false })

-- The same at most `ULLONG_MAX`; a minus sign negates the value as an unsigned integer.
unfoldable pub unsigned_result : Bool → Option (ℕ × Bytes) → Option (Conversion ℕ)
unsigned_result negative none = none
unsigned_result negative (some (n, rest)) = some (
    if leb (2 ^ 64) n then record { value = 2 ^ 64 - 1; rest = rest; range = true } else record {
      value = if negative then (2 ^ 64 - n) % 2 ^ 64 else n;
      rest = rest;
      range = false;
    })

-- `strtoll(s, &end, 0)`; `none` is a conversion of nothing, which leaves `end == s`.
unfoldable pub strtoll : Bytes → Option (Conversion ℤ)
unfolding read_magnitude signed_result
strtoll s =
    let (negative, digits) = take_sign (skip_spaces s) in
    signed_result negative (read_magnitude digits)

-- `strtoull(s, &end, 0)`
unfoldable pub strtoull : Bytes → Option (Conversion ℕ)
unfolding read_magnitude unsigned_result
strtoull s =
    let (negative, digits) = take_sign (skip_spaces s) in
    unsigned_result negative (read_magnitude digits)

-- A digit of base 16 or less as a lower-case character.
abbrev pub digit_char : ℕ → ℕ
digit_char d = if ltb d 10 then 48 + d else 87 + d

-- The digits of `n` in front of `acc`, the lowest one first on fuel.
unfoldable pub put_digits : ℕ → ℕ → ℕ → Bytes → Bytes
put_digits base zero n acc = acc
put_digits base (suc fuel) n acc =
    let rest = put_digits base fuel (n / base) (digit_char (n % base) ∷ acc) in
    if n / base == 0 then digit_char (n % base) ∷ acc else rest

-- `%PRIu64` and `0x%PRIx64`: a 64-bit number has at most 64 digits in any base.
unfoldable pub print_unsigned : ℕ → Bytes
unfolding put_digits
print_unsigned n = put_digits 10 64 n []

unfoldable pub print_hex : ℕ → Bytes
unfolding put_digits
print_hex n = 48 ∷ 120 ∷ put_digits 16 64 n []

-- `%PRIi64`
unfoldable pub print_signed : ℤ → Bytes
unfolding print_unsigned
print_signed (pos n) = print_unsigned n
print_signed (negsuc n) = 45 ∷ print_unsigned (suc n)
