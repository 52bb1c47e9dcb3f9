-- ===== src/Utf8/Sound.antt =====
-- `cyaml_utf8_get_codepoint` of src/utf8.c on arbitrary bytes.
use libcyaml.Base.{ℕ, zero, suc, ◌+◌, ◌-◌, ◌*◌, ◌/◌, ◌%◌, ◌^◌, ◌≤◌, ◌<◌, ◌≡◌, refl, sym, ap, arith}
use libcyaml.Base.{Option, none, some, [], ◌∷◌, take, get_elem?}
use libcyaml.Base.{◌==◌, bit_and, bit_or, All, ◌≢◌, inl, inr, Bool-cases}
use libcyaml.Schema.{Bytes}
use libcyaml.Utf8.Mask.{bit_and_field}
use libcyaml.Utf8.Encode.{encode, encode_one, encode_two, encode_three, encode_four}
use libcyaml.Utf8.Decode.{get_two, get_three, get_four}
use libcyaml.Utf8.Decode.{lead, single, invalid, double, triple, quadruple}
use libcyaml.Utf8.{char_len, get_codepoint, continuation, finish, replacement}
use libcyaml.Utf8.{Tail, composed, broken, overrun}

abbrev pub IsByte : ℕ → Type 0
IsByte b = b < 256

-- A byte `10xxxxxx` at index `j`.
abbrev Continues : Bytes → ℕ → Type 0
Continues s j = (x : ℕ) × (get_elem? s j ≡ some x) × (x / 64 % 4 ≡ 2)

abbrev next_part : ℕ → ℕ → ℕ → ℕ → ℕ
next_part len i c b = bit_or c (bit_and 0x3f b * 2 ^ ((len - i - 1) * 6))

-- A round that does not stop the loop.
continuation_step :
    (s : Bytes) (len left i c c' : ℕ) (o : Option ℕ)
    → get_elem? s i ≡ o
    → continuation s len (suc left) i c ≡ composed c'
    → (x : ℕ) × (get_elem? s i ≡ some x)
      × (x / 64 % 4 ≡ 2)
      × (continuation s len left (i + 1) (next_part len i c x) ≡ composed c')
unfolding continuation
continuation_step s len left i c c' none r e = let e' = rw (r, continuation) at e in cc
continuation_step s len left i c c' (some x) r e =
    let e' = rw (r, continuation) at e in (x, r, ground (arith, bit_and_field 6 2 x), ground arith)

continuation_composed :
    (s : Bytes) (len left i c c' j : ℕ)
    → continuation s len left i c ≡ composed c'
    → i ≤ j
    → j < i + left
    → Continues s j
continuation_composed s len zero i c c' j e p q = absurd (omega arith)
continuation_composed s len (suc left) i c c' j e p q =
    let (x, at, mark, rest) = continuation_step s len left i c c' (get_elem? s i) refl e in
    elim (Bool-cases (i == j)) [
      | inl same ↦ let eq : i ≡ j = ground arith in (x, rw (← eq) at, mark)
      | inr other ↦
          continuation_composed s len left (i + 1) (next_part len i c x) c' j rest (ground arith)
            (omega arith)
    ]

finish_accepts :
    (len : ℕ) (t : Tail) (c k : ℕ)
    → finish len t ≡ some (c, k)
    → c ≢ replacement
    → (t ≡ composed c) × (k ≡ len)
unfolding finish
finish_accepts len overrun c k e ne = cc
finish_accepts len (broken i) c k e ne = absurd (ne (ground arith))
finish_accepts len (composed c') c k e ne = ground arith

-- Every byte behind the first continues it.
accepted_tail :
    (b : ℕ) (bs : Bytes) (len c k j : ℕ)
    → 1 < len
    → len ≤ 4
    → get_codepoint (b ∷ bs) len ≡ some (c, k)
    → c ≢ replacement
    → 1 ≤ j
    → j < len
    → Continues (b ∷ bs) j
unfolding get_codepoint
accepted_tail b bs len c k j p q e ne lo hi =
    let c0 = bit_and b (2 ^ (7 - len) - 1) * 2 ^ ((len - 1) * 6) in
    let t = continuation (b ∷ bs) len (len - 1) 1 c0 in
    let done : finish len t ≡ some (c, k) = ground arith in
    continuation_composed (b ∷ bs) len (len - 1) 1 c0 c j (finish_accepts len t c k done ne).0 lo
      (omega arith)

Continues-at : (s : Bytes) (j x : ℕ) → get_elem? s j ≡ some x → x < 256 → Continues s j → x / 64 ≡ 2
Continues-at s j x e lt (x', at, m) = let same : x ≡ x' = cc in omega (arith, same)

none_there : (j : ℕ) → ¬ Continues [] j
none_there j (x, at, m) = cc

accepts_two :
    (b c k : ℕ) (bs : Bytes)
    → All IsByte (b ∷ bs)
    → 0xc0 ≤ b
    → b < 0xe0
    → get_codepoint (b ∷ bs) 2 ≡ some (c, k)
    → c ≢ replacement
    → (k ≡ 2) × (take 2 (b ∷ bs) ≡ encode c)
accepts_two b c k bs h p q e ne = go bs h e (tail_at 1 (omega arith) (omega arith))
  where
    tail_at : (j : ℕ) → 1 ≤ j → j < 2 → Continues (b ∷ bs) j
    tail_at j = accepted_tail b bs 2 c k j (omega arith) (omega arith) e ne

    go :
        (l : Bytes)
        → All IsByte (b ∷ l)
        → get_codepoint (b ∷ l) 2 ≡ some (c, k)
        → Continues l 0
        → (k ≡ 2) × (take 2 (b ∷ l) ≡ encode c)
    go [] h e t = absurd (none_there 0 t)
    go (x ∷ r) h e t =
        let mark : x / 64 ≡ 2 = Continues-at (x ∷ r) 0 x refl h.1.0 t in
        let value = get_two b x r mark in
        let c_is : (c ≡ b % 32 * 64 + x % 64) × (0x80 ≤ c) × (k ≡ 2) = ground (arith, value) in
        (c_is.2, rw (encode_two c c_is.1 (omega arith)) (ground arith))

accepts_three :
    (b c k : ℕ) (bs : Bytes)
    → All IsByte (b ∷ bs)
    → 0xe0 ≤ b
    → b < 0xf0
    → get_codepoint (b ∷ bs) 3 ≡ some (c, k)
    → c ≢ replacement
    → (k ≡ 3) × (take 3 (b ∷ bs) ≡ encode c)
accepts_three b c k bs h p q e ne =
    go bs h e (tail_at 1 (omega arith) (omega arith)) (tail_at 2 (omega arith) (omega arith))
  where
    tail_at : (j : ℕ) → 1 ≤ j → j < 3 → Continues (b ∷ bs) j
    tail_at j = accepted_tail b bs 3 c k j (omega arith) (omega arith) e ne

    go :
        (l : Bytes)
        → All IsByte (b ∷ l)
        → get_codepoint (b ∷ l) 3 ≡ some (c, k)
        → Continues l 0
        → Continues l 1
        → (k ≡ 3) × (take 3 (b ∷ l) ≡ encode c)
    go [] h e t u = absurd (none_there 0 t)
    go (x ∷ []) h e t u = absurd (none_there 0 u)
    go (x ∷ y ∷ r) h e t u =
        let mark : x / 64 ≡ 2 = Continues-at (x ∷ y ∷ r) 0 x refl h.1.0 t in
        let mark' : y / 64 ≡ 2 = Continues-at (x ∷ y ∷ r) 1 y refl h.1.1.0 u in
        let value = get_three b x y r mark mark' in
        let c_is : (c ≡ b % 16 * 4096 + x % 64 * 64 + y % 64) × (0x800 ≤ c) × (k ≡ 3) =
          ground (arith, value) in
        (c_is.2, rw (encode_three c c_is.1 (omega arith)) (ground arith))

accepts_four :
    (b c k : ℕ) (bs : Bytes)
    → All IsByte (b ∷ bs)
    → 0xf0 ≤ b
    → b < 0xf8
    → get_codepoint (b ∷ bs) 4 ≡ some (c, k)
    → c ≢ replacement
    → (k ≡ 4) × (take 4 (b ∷ bs) ≡ encode c)
accepts_four b c k bs h p q e ne =
    go bs h e (tail_at 1 (omega arith) (omega arith)) (tail_at 2 (omega arith) (omega arith))
      (tail_at 3 (omega arith) (omega arith))
  where
    tail_at : (j : ℕ) → 1 ≤ j → j < 4 → Continues (b ∷ bs) j
    tail_at j = accepted_tail b bs 4 c k j (omega arith) (omega arith) e ne

    go :
        (l : Bytes)
        → All IsByte (b ∷ l)
        → get_codepoint (b ∷ l) 4 ≡ some (c, k)
        → Continues l 0
        → Continues l 1
        → Continues l 2
        → (k ≡ 4) × (take 4 (b ∷ l) ≡ encode c)
    go [] h e t u v = absurd (none_there 0 t)
    go (x ∷ []) h e t u v = absurd (none_there 0 u)
    go (x ∷ y ∷ []) h e t u v = absurd (none_there 0 v)
    go (x ∷ y ∷ z ∷ r) h e t u v =
        let mark : x / 64 ≡ 2 = Continues-at (x ∷ y ∷ z ∷ r) 0 x refl h.1.0 t in
        let mark' : y / 64 ≡ 2 = Continues-at (x ∷ y ∷ z ∷ r) 1 y refl h.1.1.0 u in
        let mark'' : z / 64 ≡ 2 = Continues-at (x ∷ y ∷ z ∷ r) 2 z refl h.1.1.1.0 v in
        let value = get_four b x y z r mark mark' mark'' in
        let sum = b % 8 * 262144 + x % 64 * 4096 + y % 64 * 64 + z % 64 in
        let c_is : (c ≡ sum) × (0x10000 ≤ c) × (k ≡ 4) = ground (arith, value) in
        (c_is.2, rw (encode_four c c_is.1) (ground arith))

-- Whatever bytes a string has: if `get_codepoint`, called with the length that the first byte
-- announces, answers a code point other than U+FFFD, then the bytes it consumes, as many as
-- announced, are the shortest UTF-8 form of that code point.
pub encode-get_codepoint :
    (b c k : ℕ) (bs : Bytes)
    → All IsByte (b ∷ bs)
    → get_codepoint (b ∷ bs) (char_len b) ≡ some (c, k)
    → c ≢ replacement
    → (k ≡ char_len b) × (take k (b ∷ bs) ≡ encode c)
encode-get_codepoint b c k bs h e ne = elim (lead b h.0) [
  | single p len ↦
      let e' : get_codepoint (b ∷ bs) 1 ≡ some (c, k) = rw len at e in
      let r : (c ≡ b) × (k ≡ 1) = unfold get_codepoint in ground arith in
      rw (len, r.1) (refl, rw (encode_one c (omega (arith, r.0))) (ap (λ t. t ∷ []) (sym r.0)))
  | invalid len ↦
      let e' : get_codepoint (b ∷ bs) 0 ≡ some (c, k) = rw len at e in
      absurd (ne (unfold get_codepoint in ground arith))
  | double p q len ↦
      let r = accepts_two b c k bs h p q (rw len at e) ne in rw (len, r.0) (refl, r.1)
  | triple p q len ↦
      let r = accepts_three b c k bs h p q (rw len at e) ne in rw (len, r.0) (refl, r.1)
  | quadruple p q len ↦
      let r = accepts_four b c k bs h p q (rw len at e) ne in rw (len, r.0) (refl, r.1)
]
