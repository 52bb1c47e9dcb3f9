-- ===== src/Utf8/Decode.antt =====
-- `cyaml_utf8_get_codepoint` of src/utf8.c on the UTF-8 forms of code points.
use libcyaml.Base.{ℕ, suc, ◌+◌, ◌-◌, ◌*◌, ◌/◌, ◌%◌, ◌^◌, ◌≤◌, ◌<◌, ◌≡◌, refl, ◌∙◌, arith}
use libcyaml.Base.{some, [], ◌∷◌, ◌++◌, length, get_elem?, true, false, not}
use libcyaml.Base.{ltb, ◌==◌, if◌then◌else◌, bit_and, bit_or, ◌≢◌, Bool-cases, inl, inr}
use libcyaml.Base.Bits.{bit_or_join, bit_and_comm}
use libcyaml.Schema.{Bytes}
use libcyaml.Utf8.Mask.{bit_and_ones, bit_and_field}
use libcyaml.Utf8.Encode.{encode, encode_one, encode_two, encode_three, encode_four}
use libcyaml.Utf8.Encode.{one, two, three, four, size}
use libcyaml.Utf8.{char_len, get_codepoint, continuation, finish, shortest_form, replacement}
use libcyaml.Utf8.{broken}

-- The masks of the code, on a byte or a code point of at most 21 bits.
high_bit : (b : ℕ) → bit_and b 0x80 ≡ b / 128 % 2 * 128
high_bit b = bit_and_field 7 1 b

top_two : (b : ℕ) → bit_and b 0xc0 ≡ b / 64 % 4 * 64
top_two b = bit_and_field 6 2 b

-- The first byte announces the length of the form.
pub char_len_lem :
    (b : ℕ)
    → b < 256
    → char_len b ≡ (
        if ltb b 0x80
        then 1
        else if ltb b 0xc0
        then 0
        else if ltb b 0xe0
        then 2
        else if ltb b 0xf0
        then 3
        else if ltb b 0xf8
        then 4
        else 0)
unfolding char_len
char_len_lem b h = ground (arith, high_bit b)

-- What a byte announces.
pub data Lead (b : ℕ) : Type 0 where
  single : b < 0x80 → char_len b ≡ 1 → Lead b
  invalid : char_len b ≡ 0 → Lead b
  double : 0xc0 ≤ b → b < 0xe0 → char_len b ≡ 2 → Lead b
  triple : 0xe0 ≤ b → b < 0xf0 → char_len b ≡ 3 → Lead b
  quadruple : 0xf0 ≤ b → b < 0xf8 → char_len b ≡ 4 → Lead b

pub lead : (b : ℕ) → b < 256 → Lead b
lead b h =
    let e = char_len_lem b h in
    elim (Bool-cases (ltb b 0x80)) [
      | inl p ↦ single (ground arith) (ground arith)
      | inr p ↦ elim (Bool-cases (ltb b 0xc0)) [
        | inl q ↦ invalid (ground arith)
        | inr q ↦ elim (Bool-cases (ltb b 0xe0)) [
          | inl r ↦ double (ground arith) (ground arith) (ground arith)
          | inr r ↦ elim (Bool-cases (ltb b 0xf0)) [
            | inl t ↦ triple (ground arith) (ground arith) (ground arith)
            | inr t ↦ elim (Bool-cases (ltb b 0xf8)) [
              | inl v ↦ quadruple (ground arith) (ground arith) (ground arith)
              | inr v ↦ invalid (ground arith)
            ]
          ]
        ]
      ]
    ]

-- One round of the loop on a continuation byte and on any other.
continuation_next :
    (s : Bytes) (len left i c b : ℕ)
    → get_elem? s i ≡ some b
    → b / 64 ≡ 2
    → continuation s len (suc left) i c
      ≡ continuation s len left (i + 1) (bit_or c (b % 64 * 2 ^ ((len - i - 1) * 6)))
unfolding continuation
continuation_next s len left i c b e h =
    let low : bit_and 0x3f b ≡ b % 64 = bit_and_comm 0x3f b ∙ bit_and_ones 6 b in
    let marked : (bit_and b 0xc0 == 0x80) ≡ true = ground (arith, top_two b) in
    rw (e, continuation) (rw (low, marked))

continuation_broken :
    (s : Bytes) (len left i c b : ℕ)
    → get_elem? s i ≡ some b
    → b < 256
    → b / 64 ≢ 2
    → continuation s len (suc left) i c ≡ broken i
unfolding continuation
continuation_broken s len left i c b e lt h =
    let unmarked : (bit_and b 0xc0 == 0x80) ≡ false = ground (arith, top_two b) in
    rw (e, continuation) (rw unmarked)

-- The answer for a first byte that announces two, three or four bytes and as many that continue it.
abbrev pub at_least : ℕ → ℕ → ℕ
at_least least c = if ltb c least then replacement else c

shortest_two : (c : ℕ) → c < 2 ^ 11 → shortest_form 2 c ≡ not (ltb c 0x80)
unfolding shortest_form
shortest_two c h = ground (arith, bit_and_field 7 4 c)

shortest_three : (c : ℕ) → c < 2 ^ 16 → shortest_form 3 c ≡ not (ltb c 0x800)
unfolding shortest_form
shortest_three c h = ground (arith, bit_and_field 11 5 c)

shortest_four : (c : ℕ) → c < 2 ^ 21 → shortest_form 4 c ≡ not (ltb c 0x10000)
unfolding shortest_form
shortest_four c h = ground (arith, bit_and_field 16 5 c)

finish_lem :
    (s : Bytes) (len i c least : ℕ)
    → shortest_form len c ≡ not (ltb c least)
    → finish len (continuation s len 0 i c) ≡ some (at_least least c, len)
unfolding finish continuation
finish_lem s len i c least e = rw e (ground arith)

pub get_two :
    (b x : ℕ) (r : Bytes)
    → x / 64 ≡ 2
    → get_codepoint (b ∷ x ∷ r) 2 ≡ some (at_least 0x80 (b % 32 * 64 + x % 64), 2)
unfolding get_codepoint
get_two b x r hx =
    let joined : bit_or (b % 32 * 2 ^ 6) (x % 64 * 2 ^ 0) ≡ b % 32 * 64 + x % 64 =
      bit_or_join 6 (b % 32) (x % 64 * 2 ^ 0) (omega arith) ∙ omega arith in
    rw (bit_and_ones 5 b, continuation_next (b ∷ x ∷ r) 2 0 1 (b % 32 * 2 ^ 6) x refl hx, joined)
      (finish_lem (b ∷ x ∷ r) 2 (1 + 1) (b % 32 * 64 + x % 64) 0x80
        (shortest_two (b % 32 * 64 + x % 64) (omega arith)))

pub get_three :
    (b x y : ℕ) (r : Bytes)
    → x / 64 ≡ 2
    → y / 64 ≡ 2
    → get_codepoint (b ∷ x ∷ y ∷ r) 3
      ≡ some (at_least 0x800 (b % 16 * 4096 + x % 64 * 64 + y % 64), 3)
unfolding get_codepoint
get_three b x y r hx hy =
    let s = b ∷ x ∷ y ∷ r in
    let c1 = b % 16 * 4096 + x % 64 * 64 in
    let first : bit_or (b % 16 * 2 ^ 12) (x % 64 * 2 ^ 6) ≡ (b % 16 * 64 + x % 64) * 2 ^ 6 =
      bit_or_join 12 (b % 16) (x % 64 * 2 ^ 6) (omega arith) ∙ omega arith in
    let second : bit_or ((b % 16 * 64 + x % 64) * 2 ^ 6) (y % 64 * 2 ^ 0) ≡ c1 + y % 64 =
      bit_or_join 6 (b % 16 * 64 + x % 64) (y % 64 * 2 ^ 0) (omega arith) ∙ omega arith in
    rw
      (
        bit_and_ones 4 b,
        continuation_next s 3 1 1 (b % 16 * 2 ^ 12) x refl hx,
        first,
        continuation_next s 3 0 2 ((b % 16 * 64 + x % 64) * 2 ^ 6) y refl hy,
        second,
      )
      (finish_lem s 3 (2 + 1) (c1 + y % 64) 0x800 (shortest_three (c1 + y % 64) (omega arith)))

pub get_four :
    (b x y z : ℕ) (r : Bytes)
    → x / 64 ≡ 2
    → y / 64 ≡ 2
    → z / 64 ≡ 2
    → get_codepoint (b ∷ x ∷ y ∷ z ∷ r) 4
      ≡ some (at_least 0x10000 (b % 8 * 262144 + x % 64 * 4096 + y % 64 * 64 + z % 64), 4)
unfolding get_codepoint
get_four b x y z r hx hy hz =
    let s = b ∷ x ∷ y ∷ z ∷ r in
    let q1 = b % 8 * 64 + x % 64 in
    let q2 = q1 * 64 + y % 64 in
    let first : bit_or (b % 8 * 2 ^ 18) (x % 64 * 2 ^ 12) ≡ q1 * 2 ^ 12 =
      bit_or_join 18 (b % 8) (x % 64 * 2 ^ 12) (omega arith) ∙ omega arith in
    let second : bit_or (q1 * 2 ^ 12) (y % 64 * 2 ^ 6) ≡ q2 * 2 ^ 6 =
      bit_or_join 12 q1 (y % 64 * 2 ^ 6) (omega arith) ∙ omega arith in
    let c3 = b % 8 * 262144 + x % 64 * 4096 + y % 64 * 64 + z % 64 in
    let third : bit_or (q2 * 2 ^ 6) (z % 64 * 2 ^ 0) ≡ c3 =
      bit_or_join 6 q2 (z % 64 * 2 ^ 0) (omega arith) ∙ omega arith in
    rw
      (
        bit_and_ones 3 b,
        continuation_next s 4 2 1 (b % 8 * 2 ^ 18) x refl hx,
        first,
        continuation_next s 4 1 2 (q1 * 2 ^ 12) y refl hy,
        second,
        continuation_next s 4 0 3 (q2 * 2 ^ 6) z refl hz,
        third,
      )
      (finish_lem s 4 (3 + 1) c3 0x10000 (shortest_four c3 (omega arith)))

-- What the decoder makes of the bytes `form`, whatever follows them.
pub record DecodesTo (u : ℕ) (form : Bytes) : Type 0 where
  pub first : ℕ
  pub others : Bytes
  pub is_form : form ≡ first ∷ others
  pub is_byte : first < 256
  pub not_nul : 0 < u → 0 < first
  pub one_byte : length form ≡ 1 → (first ≡ u) × (u < 0x80)
  pub no_longer : length form ≤ 4
  pub announces : char_len first ≡ length form
  pub answers : (rest : Bytes) → get_codepoint (form ++ rest) (length form) ≡ some (u, length form)

get_one : (u : ℕ) (r : Bytes) → get_codepoint (u ∷ r) 1 ≡ some (u, 1)
unfolding get_codepoint
get_one u r = refl

-- For every code point of at most 21 bits: the first byte of its UTF-8 form announces the length
-- of the form, and `get_codepoint` with that length answers the code point and consumes exactly
-- the form, whatever bytes follow.
pub get_codepoint-encode : (u : ℕ) → u < 0x200000 → DecodesTo u (encode u)
get_codepoint-encode u h = elim (size u h) [
  | one p ↦ rw (encode_one u p) (record {
    first = u;
    others = [];
    is_form = refl;
    is_byte = omega arith;
    not_nul = λ pos. omega arith;
    one_byte = λ len. omega arith;
    no_longer = omega arith;
    announces = char_len_lem u (omega arith) ∙ ground arith;
    answers = λ rest. get_one u rest;
  })
  | two p q ↦ rw (encode_two u p q) (record {
    first = 0xc0 + u / 64;
    others = (0x80 + u % 64) ∷ [];
    is_form = refl;
    is_byte = omega arith;
    not_nul = λ pos. omega arith;
    one_byte = λ len. omega arith;
    no_longer = omega arith;
    announces = char_len_lem (0xc0 + u / 64) (omega arith) ∙ ground arith;
    answers = λ rest. get_two (0xc0 + u / 64) (0x80 + u % 64) rest (omega arith) ∙ ground arith;
  })
  | three p q ↦ rw (encode_three u p q) (record {
    first = 0xe0 + u / 4096;
    others = (0x80 + u / 64 % 64) ∷ (0x80 + u % 64) ∷ [];
    is_form = refl;
    is_byte = omega arith;
    not_nul = λ pos. omega arith;
    one_byte = λ len. omega arith;
    no_longer = omega arith;
    announces = char_len_lem (0xe0 + u / 4096) (omega arith) ∙ ground arith;
    answers = λ rest.
        get_three (0xe0 + u / 4096) (0x80 + u / 64 % 64) (0x80 + u % 64) rest (omega arith)
          (omega arith)
        ∙ ground arith;
  })
  | four p q ↦ rw (encode_four u p) (record {
    first = 0xf0 + u / 262144;
    others = (0x80 + u / 4096 % 64) ∷ (0x80 + u / 64 % 64) ∷ (0x80 + u % 64) ∷ [];
    is_form = refl;
    is_byte = omega arith;
    not_nul = λ pos. omega arith;
    one_byte = λ len. omega arith;
    no_longer = omega arith;
    announces = char_len_lem (0xf0 + u / 262144) (omega arith) ∙ ground arith;
    answers = λ rest.
        get_four (0xf0 + u / 262144) (0x80 + u / 4096 % 64) (0x80 + u / 64 % 64) (0x80 + u % 64)
          rest (omega arith) (omega arith) (omega arith)
        ∙ ground arith;
  })
]
