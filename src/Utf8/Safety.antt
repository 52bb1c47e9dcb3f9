-- ===== src/Utf8/Safety.antt =====
-- Reads past the end of a string in src/utf8.c, and the loop of the comparison.
use libcyaml.Base.{ℕ, zero, suc, ◌+◌, ◌-◌, ◌≤◌, ◌<◌, ◌≡◌, ◌≢◌, refl, ap, ◌∙◌, arith}
use libcyaml.Base.{Option, none, some, [], ◌∷◌, ◌++◌, length, drop, length-drop_le, get_elem?}
use libcyaml.Base.{Bool, true, false, ◌==◌, Bool-cases, ◌⊎◌, inl, inr}
use libcyaml.Base.{all_below, all_below→at, bit_and, bit_or, ◌*◌, ◌^◌}
use libcyaml.Schema.{Bytes}
use libcyaml.Utf8.{char_len, get_codepoint, continuation, finish, Tail, composed, broken, overrun}
use libcyaml.Utf8.{Round, answer, advance, fault, compare_round, compare_ascii}
use libcyaml.Utf8.{compare_codepoints, Compared, returns, faulted, stuck, casecmp_loop, casecmp}

-- A terminated string, `rest` standing for whatever memory follows it.
abbrev pub terminated : Bytes → Bytes → Bytes
terminated v rest = v ++ (0 ∷ rest)

terminator : (v rest : Bytes) → get_elem? (terminated v rest) (length v) ≡ some 0
terminator [] rest = refl
terminator (b ∷ v) rest = terminator v rest

inside :
    (v rest : Bytes) (i : ℕ) → i < length v → (x : ℕ) × (get_elem? (terminated v rest) i ≡ some x)
inside [] rest i h = absurd (omega arith)
inside (b ∷ v) rest zero h = (b, refl)
inside (b ∷ v) rest (suc i) h = inside v rest i (omega arith)

-- The loop stops at the terminator at the latest.
continuation-ne-overrun :
    (v rest : Bytes) (len left i c : ℕ)
    → i ≤ length v
    → continuation (terminated v rest) len left i c ≢ overrun
unfolding continuation
continuation-ne-overrun v rest len zero i c h = λ e. cc
continuation-ne-overrun v rest len (suc left) i c h = elim (Bool-cases (i == length v)) [
  | inl same ↦
      let at : get_elem? (terminated v rest) i ≡ some 0 =
        ap (get_elem? (terminated v rest)) (ground arith) ∙ terminator v rest in
      rw (at, continuation) (λ e. cc)
  | inr other ↦
      let (x, at) = inside v rest i (ground arith) in
      rw (at, continuation)
        (ground (
          arith,
          continuation-ne-overrun v rest len left (i + 1)
              (bit_or c (bit_and 0x3f x * 2 ^ ((len - i - 1) * 6))),
        ))
]

finish-ne-none : (len : ℕ) (t : Tail) → t ≢ overrun → finish len t ≢ none
unfolding finish
finish-ne-none len overrun ne = absurd (ne refl)
finish-ne-none len (broken i) ne = λ e. cc
finish-ne-none len (composed c) ne = λ e. cc

-- Decoding a character of a terminated string that has not ended reads nothing past the
-- terminator, whatever length it is called with and whatever bytes the string has.
pub get_codepoint-ne-none :
    (b : ℕ) (v rest : Bytes) (len : ℕ) → get_codepoint (terminated (b ∷ v) rest) len ≢ none
unfolding get_codepoint
get_codepoint-ne-none b v rest len =
    let c0 = bit_and b (2 ^ (7 - len) - 1) * 2 ^ ((len - 1) * 6) in
    let t = continuation (b ∷ terminated v rest) len (len - 1) 1 c0 in
    ground (
      arith,
      finish-ne-none len t (continuation-ne-overrun (b ∷ v) rest len (len - 1) 1 c0 (omega arith)),
    )

broken_step :
    (s : Bytes) (len left i c j : ℕ) (o : Option ℕ)
    → get_elem? s i ≡ o
    → continuation s len (suc left) i c ≡ broken j
    → (j ≡ i) ⊎ ((c' : ℕ) × (continuation s len left (i + 1) c' ≡ broken j))
unfolding continuation
broken_step s len left i c j none r e = let e' = rw (r, continuation) at e in cc
broken_step s len left i c j (some x) r e =
    let e' = rw (r, continuation) at e in
    elim (Bool-cases (bit_and x 0xc0 == 0x80)) [
      | inl mark ↦ inr (bit_or c (bit_and 0x3f x * 2 ^ ((len - i - 1) * 6)), rw mark at e')
      | inr mark ↦ inl (let f = rw mark at e' in ground arith)
    ]

broken_lt : (s : Bytes) (len left i c j : ℕ) → continuation s len left i c ≡ broken j → j < i + left
broken_lt s len zero i c j e = unfold continuation in cc
broken_lt s len (suc left) i c j e = elim (broken_step s len left i c j (get_elem? s i) refl e) [
  | inl here ↦ omega (arith, here)
  | inr (c', e') ↦ omega (arith, broken_lt s len left (i + 1) c' j e')
]

finish_takes :
    (len : ℕ) (t : Tail) (c k : ℕ)
    → ((j : ℕ) → t ≡ broken j → j < len)
    → 0 < len
    → finish len t ≡ some (c, k)
    → 0 < k
unfolding finish
finish_takes len overrun c k h p e = cc
finish_takes len (broken i) c k h p e = ground (arith, h i refl)
finish_takes len (composed c') c k h p e = ground arith

-- A character that is decoded takes a byte at least.
get_codepoint_takes :
    (b : ℕ) (bs : Bytes) (len c k : ℕ) → 0 < len → get_codepoint (b ∷ bs) len ≡ some (c, k) → 0 < k
unfolding get_codepoint
get_codepoint_takes b bs len c k p e =
    let c0 = bit_and b (2 ^ (7 - len) - 1) * 2 ^ ((len - 1) * 6) in
    let t = continuation (b ∷ bs) len (len - 1) 1 c0 in
    let stops : (j : ℕ) → t ≡ broken j → j < len =
      λ j f. omega (arith, broken_lt (b ∷ bs) len (len - 1) 1 c0 j f, p) in
    ground (arith, finish_takes len t c k stops p)

abbrev Positive : Option (ℕ × ℕ) → Type 0
Positive q = (c k : ℕ) → q ≡ some (c, k) → 0 < k

compare_codepoints_takes :
    (q1 q2 : Option (ℕ × ℕ)) (n1 n2 : ℕ)
    → Positive q1
    → Positive q2
    → compare_codepoints q1 q2 ≡ advance n1 n2
    → (0 < n1) × (0 < n2)
unfolding compare_codepoints
compare_codepoints_takes (some (c1, k1)) (some (c2, k2)) n1 n2 h1 h2 e =
    ground (arith, h1 c1 k1 refl, h2 c2 k2 refl)
compare_codepoints_takes (some p) none n1 n2 h1 h2 e = cc
compare_codepoints_takes none q2 n1 n2 h1 h2 e = cc

compare_ascii_takes : (b1 b2 n1 n2 : ℕ) → compare_ascii b1 b2 ≡ advance n1 n2 → (0 < n1) × (0 < n2)
unfolding compare_ascii
compare_ascii_takes b1 b2 n1 n2 e = ground arith

compare_round_takes :
    (s1 s2 : Bytes) (n1 n2 : ℕ) → compare_round s1 s2 ≡ advance n1 n2 → (0 < n1) × (0 < n2)
unfolding compare_round
compare_round_takes [] s2 n1 n2 e = cc
compare_round_takes (b1 ∷ o1) [] n1 n2 e = cc
compare_round_takes (b1 ∷ o1) (b2 ∷ o2) n1 n2 e = ground (
  arith,
  compare_ascii_takes b1 b2 n1 n2,
  λ (p : 0 < char_len b1) (q : 0 < char_len b2).
      compare_codepoints_takes (get_codepoint (b1 ∷ o1) (char_len b1))
        (get_codepoint (b2 ∷ o2) (char_len b2)) n1 n2
        (λ c k. get_codepoint_takes b1 o1 (char_len b1) c k p)
        (λ c k. get_codepoint_takes b2 o2 (char_len b2) c k q),
)

shorter : (n : ℕ) (s : Bytes) → 0 < n → 0 < length s → length (drop n s) < length s
shorter zero s p q = absurd (omega arith)
shorter (suc n) [] p q = absurd (omega arith)
shorter (suc n) (b ∷ s) p q = omega (arith, length-drop_le n s)

casecmp_loop-ne-stuck :
    (fuel : ℕ) (s1 s2 : Bytes) → length s1 < fuel → casecmp_loop fuel s1 s2 ≢ stuck
unfolding casecmp_loop
casecmp_loop-ne-stuck zero s1 s2 h = absurd (omega arith)
casecmp_loop-ne-stuck (suc fuel) [] s2 h = unfold compare_round in λ e. cc
casecmp_loop-ne-stuck (suc fuel) (b ∷ s1) s2 h =
    go (casecmp_loop-ne-stuck fuel) (compare_round (b ∷ s1) s2) refl
  where
    go :
        ((t1 t2 : Bytes) → length t1 < fuel → casecmp_loop fuel t1 t2 ≢ stuck)
        → (r : Round) → compare_round (b ∷ s1) s2 ≡ r
        → casecmp_loop (suc fuel) (b ∷ s1) s2 ≢ stuck
    go ih (answer d) e = rw (e, casecmp_loop) (λ f. cc)
    go ih fault e = rw (e, casecmp_loop) (λ f. cc)
    go ih (advance n1 n2) e =
        let takes = compare_round_takes (b ∷ s1) s2 n1 n2 e in
        let less = shorter n1 (b ∷ s1) takes.0 (omega arith) in
        rw (e, casecmp_loop) (ih (drop n1 (b ∷ s1)) (drop n2 s2) (omega arith))

-- On any two buffers the comparison ends: its loop never runs out of fuel.
pub casecmp-ne-stuck : (s1 s2 : Bytes) → casecmp s1 s2 ≢ stuck
unfolding casecmp
casecmp-ne-stuck s1 s2 = casecmp_loop-ne-stuck (suc (length s1)) s1 s2 (omega arith)

is_faulted : Compared → Bool
is_faulted (returns d) = false
is_faulted faulted = true
is_faulted stuck = false

is_faulted→faulted : (r : Compared) → is_faulted r ≡ true → r ≡ faulted
unfolding is_faulted
is_faulted→faulted (returns d) e = cc
is_faulted→faulted faulted e = refl
is_faulted→faulted stuck e = cc

runs_over : ℕ → ℕ → Bool
unfolding is_faulted
runs_over x y = is_faulted (casecmp ((0xe0 + x) ∷ 0 ∷ []) ((0xe0 + y) ∷ 0 ∷ []))

over_table : all_below 24 (λ x. all_below 24 (λ y. runs_over x y)) ≡ true
unfolding runs_over casecmp compare_round compare_codepoints compare_ascii char_len get_codepoint
    continuation finish
over_table = refl

-- A fault of the program. A string that ends in the first byte of a three- or four-byte character
-- is compared with itself, or with any other such string of one byte: the comparison steps over
-- the terminator and reads past the end of the buffer.
pub casecmp-faulted :
    (b1 b2 : ℕ)
    → 0xe0 ≤ b1
    → b1 < 0xf8
    → 0xe0 ≤ b2
    → b2 < 0xf8
    → casecmp (b1 ∷ 0 ∷ []) (b2 ∷ 0 ∷ []) ≡ faulted
casecmp-faulted b1 b2 p1 q1 p2 q2 =
    let x = b1 - 0xe0 in
    let y = b2 - 0xe0 in
    let row = all_below→at 24 (λ x. all_below 24 (runs_over x)) over_table x (omega arith) in
    let cell : runs_over x y ≡ true = all_below→at 24 (runs_over x) row y (omega arith) in
    let is_b1 : b1 ≡ 0xe0 + x = omega arith in
    let is_b2 : b2 ≡ 0xe0 + y = omega arith in
    rw (is_b1, is_b2) (is_faulted→faulted _ (unfold runs_over in cell))
