-- ===== src/Utf8.antt =====
-- src/utf8.c: code points of UTF-8 text, their folding to one case, and the case-insensitive
-- comparison. A `const uint8_t *` is the rest of the buffer that it points into, terminator
-- included; reading where nothing is left is the outcome `fault`.
pub mod Mask
pub mod Encode
pub mod Decode
pub mod Sound
pub mod Fold
pub mod Compare
pub mod Safety
use libcyaml.Base.{ℕ, zero, suc, ◌+◌, ◌-◌, ◌*◌, ◌/◌, ◌^◌, ◌≤◌, Bool, true, false, not, ◌&&◌, ◌||◌}
use libcyaml.Base.{Option, none, some, List, [], ◌∷◌, get_elem?, drop, length, leb, ltb, ◌==◌}
use libcyaml.Base.{if◌then◌else◌, bit_and, bit_or}
use libcyaml.Base.Int.{ℤ, pos, negsuc}
use libcyaml.Schema.{Bytes}

-- `cyaml_utf8_char_len`: the length that a first byte announces, 0 if it is none.
unfoldable pub char_len : ℕ → ℕ
char_len b =
    if bit_and b 0x80 == 0
    then 1
    else let top = b / 2 ^ 3 in
      if top == 0x18 || top == 0x19 || top == 0x1a || top == 0x1b
      then 2
      else if top == 0x1c || top == 0x1d
      then 3
      else if top == 0x1e
      then 4
      else 0

-- The outcome of the loop over the continuation bytes: the code point composed, or the index of a
-- byte that continues nothing, or a read past the buffer.
pub data Tail : Type 0 where
  composed : ℕ → Tail
  broken : ℕ → Tail
  overrun : Tail

-- `for (unsigned i = 1; i < *len; i++)` with `left` rounds to go.
unfoldable pub continuation : Bytes → ℕ → ℕ → ℕ → ℕ → Tail
continuation s len zero i c = composed c
continuation s len (suc left) i c = elim (get_elem? s i) [
  | none ↦ overrun
  | some b ↦
      let rest =
        continuation s len left (i + 1) (bit_or c (bit_and 0x3f b * 2 ^ ((len - i - 1) * 6))) in
      if not (bit_and b 0xc0 == 0x80) then broken i else rest
]

-- Whether the bits that a shorter form would lack are all clear; any other length is invalid.
unfoldable pub shortest_form : ℕ → ℕ → Bool
shortest_form len c =
    if len == 2
    then not (bit_and c ((2 ^ 4 - 1) * 2 ^ (11 - 4)) == 0)
    else if len == 3
    then not (bit_and c ((2 ^ 5 - 1) * 2 ^ (16 - 5)) == 0)
    else if len == 4
    then not (bit_and c ((2 ^ 5 - 1) * 2 ^ (21 - 5)) == 0)
    else false

abbrev pub replacement : ℕ
replacement = 0xfffd

-- What the function answers after its loop: the code point and the new length.
unfoldable pub finish : ℕ → Tail → Option (ℕ × ℕ)
unfolding shortest_form
finish len overrun = none
finish len (broken i) = some (replacement, len - i)
finish len (composed c) = some (if shortest_form len c then c else replacement, len)

-- `cyaml_utf8_get_codepoint`: the code point and the length on return; `none` is a fault.
unfoldable pub get_codepoint : Bytes → ℕ → Option (ℕ × ℕ)
get_codepoint [] len = none
get_codepoint (b ∷ bs) len =
    if len == 1
    then some (b, 1)
    else if ltb 1 len && leb len 4
    then finish len (
        continuation (b ∷ bs) len (len - 1) 1 (bit_and b (2 ^ (7 - len) - 1) * 2 ^ ((len - 1) * 6)))
    else some (replacement, len)

-- `lo <= c && c <= hi`
abbrev pub between : ℕ → ℕ → ℕ → Bool
between lo hi c = leb lo c && leb c hi

-- `c & ~0x1u`
abbrev pub clear_low : ℕ → ℕ
clear_low c = bit_and c (2 ^ 32 - 2)

-- The `switch` of `cyaml_utf8_to_lower`.
abbrev pub singles : List (ℕ × ℕ)
singles =
    (0x0178, 0x00ff)
    ∷ (0x0187, 0x0188)
    ∷ (0x018b, 0x018c)
    ∷ (0x018e, 0x01dd)
    ∷ (0x0191, 0x0192)
    ∷ (0x0198, 0x0199)
    ∷ (0x01a7, 0x01a8)
    ∷ (0x01ac, 0x01ad)
    ∷ (0x01af, 0x01b0)
    ∷ (0x01b7, 0x0292)
    ∷ (0x01b8, 0x01b9)
    ∷ (0x01bc, 0x01bd)
    ∷ (0x01c4, 0x01c6)
    ∷ (0x01c5, 0x01c6)
    ∷ (0x01c7, 0x01c9)
    ∷ (0x01c8, 0x01c9)
    ∷ (0x01ca, 0x01cc)
    ∷ (0x01cb, 0x01cc)
    ∷ (0x01f1, 0x01f3)
    ∷ (0x01f2, 0x01f3)
    ∷ (0x01f4, 0x01f5)
    ∷ (0x01f7, 0x01bf)
    ∷ (0x0220, 0x019e)
    ∷ (0x023b, 0x023c)
    ∷ (0x023d, 0x019a)
    ∷ (0x0241, 0x0242)
    ∷ (0x0243, 0x0180)
    ∷ []

-- The case of `c` in a list of cases, and `c` itself by default.
unfoldable pub switch : List (ℕ × ℕ) → ℕ → ℕ
switch [] c = c
switch ((from, to) ∷ cases) c = if c == from then to else switch cases c

-- `cyaml_utf8_to_lower`
unfoldable pub to_lower : ℕ → ℕ
unfolding switch
to_lower c =
    if between 0x0041 0x005a c || between 0x00c0 0x00d6 c || between 0x00d8 0x00de c
    then c + 32
    else if between 0x0100 0x012f c
        || between 0x0132 0x0137 c
        || between 0x014a 0x0177 c
        || between 0x0182 0x0185 c
        || between 0x01a0 0x01a5 c
        || between 0x01de 0x01ef c
        || between 0x01f8 0x021f c
        || between 0x0222 0x0233 c
        || between 0x0246 0x024f c
    then clear_low c
    else if between 0x0139 0x0148 c
        || between 0x0179 0x017e c
        || between 0x01b3 0x01b6 c
        || between 0x01cd 0x01dc c
    then clear_low (c + 1)
    else switch singles c

-- `cyaml_utf8_difference`
unfoldable pub difference : ℕ → ℕ → ℤ
difference a b = if leb b a then pos (a - b) else negsuc (b - a - 1)

-- One round of `cyaml_utf8_casecmp`: it returns, advances both strings, or reads past a buffer.
pub data Round : Type 0 where
  answer : ℤ → Round
  advance : ℕ → ℕ → Round
  fault : Round

-- `(c >= 'A') && (c <= 'Z') ? c + 32u : c`
abbrev pub ascii_lower : ℕ → ℕ
ascii_lower c = if between b'A' b'Z' c then c + 32 else c

-- Both characters have one byte.
unfoldable pub compare_ascii : ℕ → ℕ → Round
compare_ascii b1 b2 =
    if b1 == b2
    then advance 1 1
    else if ascii_lower b1 == ascii_lower b2
    then advance 1 1
    else answer (difference (ascii_lower b1) (ascii_lower b2))

-- Neither character starts with an invalid byte.
unfoldable pub compare_codepoints : Option (ℕ × ℕ) → Option (ℕ × ℕ) → Round
compare_codepoints (some (cmp1, len1)) (some (cmp2, len2)) =
    if cmp1 == cmp2
    then advance len1 len2
    else if to_lower cmp1 == to_lower cmp2
    then advance len1 len2
    else answer (difference (to_lower cmp1) (to_lower cmp2))
compare_codepoints (some p) none = fault
compare_codepoints none q = fault

unfoldable pub compare_round : Bytes → Bytes → Round
compare_round [] s2 = fault
compare_round (b1 ∷ bs1) [] = fault
compare_round (b1 ∷ bs1) (b2 ∷ bs2) =
    if b1 == 0 && b2 == 0
    then answer (pos 0)
    else if b1 == 0
    then answer (pos 1)
    else if b2 == 0
    then answer (negsuc 0)
    else let len1 = char_len b1 in
      let len2 = char_len b2 in
      if len1 == 1 && len2 == 1
      then compare_ascii b1 b2
      else if not (len1 == 0) && not (len2 == 0)
      then compare_codepoints (get_codepoint (b1 ∷ bs1) len1) (get_codepoint (b2 ∷ bs2) len2)
      else if not (bit_or len1 len2 == 0)
      then answer (difference len1 len2)
      else advance 1 1

-- What the comparison comes to; `stuck` is no answer of the program: the fuel ran out.
pub data Compared : Type 0 where
  returns : ℤ → Compared
  faulted stuck : Compared

unfoldable pub casecmp_loop : ℕ → Bytes → Bytes → Compared
casecmp_loop zero s1 s2 = stuck
casecmp_loop (suc fuel) s1 s2 = elim (compare_round s1 s2) [
  | answer d ↦ returns d
  | advance n1 n2 ↦ casecmp_loop fuel (drop n1 s1) (drop n2 s2)
  | fault ↦ faulted
]

-- `cyaml_utf8_casecmp`: a round takes at least a byte of each string, so the length is enough fuel.
unfoldable pub casecmp : Bytes → Bytes → Compared
unfolding casecmp_loop
casecmp s1 s2 = casecmp_loop (suc (length s1)) s1 s2
