-- ===== src/Utf8/Encode.antt =====
-- The UTF-8 form of a code point, the specification that src/utf8.c is measured against.
use libcyaml.Base.{ℕ, ◌+◌, ◌/◌, ◌%◌, ◌≤◌, ◌<◌, ◌≡◌, arith}
use libcyaml.Base.{List, [], ◌∷◌, ◌++◌, ltb, if◌then◌else◌, Bool-cases, inl, inr}
use libcyaml.Schema.{Bytes}

-- One to four bytes for a code point of up to 21 bits, in its shortest form.
unfoldable pub encode : ℕ → Bytes
encode u =
    if ltb u 0x80
    then u ∷ []
    else if ltb u 0x800
    then (0xc0 + u / 64) ∷ (0x80 + u % 64) ∷ []
    else if ltb u 0x10000
    then (0xe0 + u / 4096) ∷ (0x80 + u / 64 % 64) ∷ (0x80 + u % 64) ∷ []
    else (0xf0 + u / 262144) ∷ (0x80 + u / 4096 % 64) ∷ (0x80 + u / 64 % 64) ∷ (0x80 + u % 64) ∷ []

-- The bytes of a text, with the terminator.
abbrev pub text : List ℕ → Bytes
text [] = 0 ∷ []
text (u ∷ us) = encode u ++ text us

-- A code point that can stand in a C string.
abbrev pub IsCodepoint : ℕ → Type 0
IsCodepoint u = (0 < u) × (u < 0x200000)

pub encode_one : (u : ℕ) → u < 0x80 → encode u ≡ u ∷ []
unfolding encode
encode_one u h = ground arith

pub encode_two : (u : ℕ) → 0x80 ≤ u → u < 0x800 → encode u ≡ (0xc0 + u / 64) ∷ (0x80 + u % 64) ∷ []
unfolding encode
encode_two u p q = ground arith

pub encode_three :
    (u : ℕ)
    → 0x800 ≤ u
    → u < 0x10000
    → encode u ≡ (0xe0 + u / 4096) ∷ (0x80 + u / 64 % 64) ∷ (0x80 + u % 64) ∷ []
unfolding encode
encode_three u p q = ground arith

pub encode_four :
    (u : ℕ)
    → 0x10000 ≤ u
    → encode u
      ≡ (0xf0 + u / 262144) ∷ (0x80 + u / 4096 % 64) ∷ (0x80 + u / 64 % 64) ∷ (0x80 + u % 64) ∷ []
unfolding encode
encode_four u p = ground arith

-- The four widths.
pub data Size (u : ℕ) : Type 0 where
  one : u < 0x80 → Size u
  two : 0x80 ≤ u → u < 0x800 → Size u
  three : 0x800 ≤ u → u < 0x10000 → Size u
  four : 0x10000 ≤ u → u < 0x200000 → Size u

pub size : (u : ℕ) → u < 0x200000 → Size u
size u h = elim (Bool-cases (ltb u 0x80)) [
  | inl p ↦ one (ground arith)
  | inr p ↦ elim (Bool-cases (ltb u 0x800)) [
    | inl q ↦ two (ground arith) (ground arith)
    | inr q ↦ elim (Bool-cases (ltb u 0x10000)) [
      | inl r ↦ three (ground arith) (ground arith)
      | inr r ↦ four (ground arith) h
    ]
  ]
]
