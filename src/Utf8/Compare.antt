-- ===== src/Utf8/Compare.antt =====
-- `cyaml_utf8_casecmp` of src/utf8.c on well-formed texts.
use libcyaml.Base.{ℕ, zero, suc, ◌<◌, ◌≡◌, refl, sym, ap, ◌∙◌, arith}
use libcyaml.Base.{some, List, [], ◌∷◌, ◌++◌, length, length-append, drop, map, All}
use libcyaml.Base.{◌==◌, if◌then◌else◌, Bool-cases, inl, inr, ◌↔◌}
use libcyaml.Base.Int.{ℤ, pos, negsuc}
use libcyaml.Schema.{Bytes}
use libcyaml.Utf8.Encode.{encode, text, IsCodepoint}
use libcyaml.Utf8.Decode.{DecodesTo, get_codepoint-encode}
use libcyaml.Utf8.Fold.{to_lower_ascii}
use libcyaml.Utf8.{char_len, get_codepoint, to_lower, difference}
use libcyaml.Utf8.{Round, answer, advance, compare_ascii, compare_codepoints, compare_round}
use libcyaml.Utf8.{returns, casecmp_loop, casecmp}

-- The comparison that is meant: by folded code points, and a text that ends first is the greater.
unfoldable pub compare_folded : List ℕ → List ℕ → ℤ
compare_folded [] [] = pos 0
compare_folded [] (v ∷ vs) = pos 1
compare_folded (u ∷ us) [] = negsuc 0
compare_folded (u ∷ us) (v ∷ vs) =
    if to_lower u == to_lower v then compare_folded us vs else difference (to_lower u) (to_lower v)

-- One round on two code points.
abbrev fold_round : ℕ → ℕ → ℕ → ℕ → Round
fold_round u v n1 n2 =
    if to_lower u == to_lower v
    then advance n1 n2
    else answer (difference (to_lower u) (to_lower v))

compare_ascii_lem : (u v : ℕ) → u < 0x80 → v < 0x80 → compare_ascii u v ≡ fold_round u v 1 1
unfolding compare_ascii
compare_ascii_lem u v p q = rw (to_lower_ascii u p, to_lower_ascii v q) (ground arith)

compare_codepoints_lem :
    (u v n1 n2 : ℕ) → compare_codepoints (some (u, n1)) (some (v, n2)) ≡ fold_round u v n1 n2
unfolding compare_codepoints
compare_codepoints_lem u v n1 n2 = ground (arith, ap to_lower {x = u} {y = v})

compare_round_heads :
    (u v b1 b2 n1 n2 : ℕ) (o1 o2 : Bytes)
    → 0 < b1
    → 0 < b2
    → char_len b1 ≡ n1
    → char_len b2 ≡ n2
    → 0 < n1
    → 0 < n2
    → (n1 ≡ 1 → (b1 ≡ u) × (u < 0x80))
    → (n2 ≡ 1 → (b2 ≡ v) × (v < 0x80))
    → get_codepoint (b1 ∷ o1) n1 ≡ some (u, n1)
    → get_codepoint (b2 ∷ o2) n2 ≡ some (v, n2)
    → compare_round (b1 ∷ o1) (b2 ∷ o2) ≡ fold_round u v n1 n2
unfolding compare_round
compare_round_heads u v b1 b2 n1 n2 o1 o2 p q c1 c2 l1 l2 a1 a2 g1 g2 =
    rw (c1, c2, g1, g2) (ground (arith, compare_ascii_lem u v, compare_codepoints_lem u v n1 n2))

compare_round_forms :
    (u v : ℕ) (f1 f2 r1 r2 : Bytes)
    → DecodesTo u f1
    → DecodesTo v f2
    → 0 < u
    → 0 < v
    → compare_round (f1 ++ r1) (f2 ++ r2) ≡ fold_round u v (length f1) (length f2)
compare_round_forms u v f1 f2 r1 r2 d1 d2 p q =
    let n1 = length f1 in
    let n2 = length f2 in
    let g1 : get_codepoint (d1.first ∷ (d1.others ++ r1)) n1 ≡ some (u, n1) =
      ap (λ f. get_codepoint (f ++ r1) n1) (sym d1.is_form) ∙ d1.answers r1 in
    let g2 : get_codepoint (d2.first ∷ (d2.others ++ r2)) n2 ≡ some (v, n2) =
      ap (λ f. get_codepoint (f ++ r2) n2) (sym d2.is_form) ∙ d2.answers r2 in
    ap (λ f. compare_round (f ++ r1) (f2 ++ r2)) d1.is_form
    ∙ ap (λ f. compare_round (d1.first ∷ (d1.others ++ r1)) (f ++ r2)) d2.is_form
    ∙ compare_round_heads u v d1.first d2.first n1 n2 (d1.others ++ r1) (d2.others ++ r2)
        (d1.not_nul p) (d2.not_nul q) d1.announces d2.announces
        (omega (arith, ap length d1.is_form)) (omega (arith, ap length d2.is_form)) d1.one_byte
        d2.one_byte g1 g2

drop-append : (f r : Bytes) → drop (length f) (f ++ r) ≡ r
drop-append [] r = refl
drop-append (b ∷ f) r = drop-append f r

ended_first : (b : ℕ) (o : Bytes) → 0 < b → compare_round (0 ∷ []) (b ∷ o) ≡ answer (pos 1)
unfolding compare_round
ended_first b o p = ground arith

ended_second : (b : ℕ) (o : Bytes) → 0 < b → compare_round (b ∷ o) (0 ∷ []) ≡ answer (negsuc 0)
unfolding compare_round
ended_second b o p = ground arith

loop_answer :
    (fuel : ℕ) (s1 s2 : Bytes) (d : ℤ)
    → compare_round s1 s2 ≡ answer d
    → casecmp_loop (suc fuel) s1 s2 ≡ returns d
unfolding casecmp_loop
loop_answer fuel s1 s2 d e = rw (e, casecmp_loop)

loop_advance :
    (fuel : ℕ) (s1 s2 : Bytes) (n1 n2 : ℕ)
    → compare_round s1 s2 ≡ advance n1 n2
    → casecmp_loop (suc fuel) s1 s2 ≡ casecmp_loop fuel (drop n1 s1) (drop n2 s2)
unfolding casecmp_loop
loop_advance fuel s1 s2 n1 n2 e = rw (e, casecmp_loop)

casecmp_loop-text :
    (fuel : ℕ) (us vs : List ℕ)
    → All IsCodepoint us
    → All IsCodepoint vs
    → length us < fuel
    → casecmp_loop fuel (text us) (text vs) ≡ returns (compare_folded us vs)
unfolding compare_folded
casecmp_loop-text zero us vs hu hv lt = absurd (omega arith)
casecmp_loop-text (suc fuel) [] [] hu hv lt =
    loop_answer fuel (text []) (text []) (pos 0) (unfold compare_round in refl)
casecmp_loop-text (suc fuel) [] (v ∷ vs) hu hv lt =
    let d = get_codepoint-encode v hv.0.1 in
    loop_answer fuel (text []) (text (v ∷ vs)) (pos 1)
      (rw d.is_form (ended_first d.first (d.others ++ text vs) (d.not_nul hv.0.0)))
casecmp_loop-text (suc fuel) (u ∷ us) [] hu hv lt =
    let d = get_codepoint-encode u hu.0.1 in
    loop_answer fuel (text (u ∷ us)) (text []) (negsuc 0)
      (rw d.is_form (ended_second d.first (d.others ++ text us) (d.not_nul hu.0.0)))
casecmp_loop-text (suc fuel) (u ∷ us) (v ∷ vs) (hu, hus) (hv, hvs) lt =
    let d1 = get_codepoint-encode u hu.1 in
    let d2 = get_codepoint-encode v hv.1 in
    let s1 = text (u ∷ us) in
    let s2 = text (v ∷ vs) in
    let n1 = length (encode u) in
    let n2 = length (encode v) in
    let round = compare_round_forms u v (encode u) (encode v) (text us) (text vs) d1 d2 hu.0 hv.0 in
    elim (Bool-cases (to_lower u == to_lower v)) [
      | inl same ↦
          loop_advance fuel s1 s2 n1 n2 (rw same at round)
          ∙ rw (drop-append (encode u) (text us), drop-append (encode v) (text vs), same)
              (casecmp_loop-text fuel us vs hus hvs (omega arith))
      | inr other ↦ loop_answer fuel s1 s2 _ (rw other at round) ∙ rw other refl
    ]

length-text : (us : List ℕ) → All IsCodepoint us → length us < length (text us)
length-text [] h = omega arith
length-text (u ∷ us) h =
    let d = get_codepoint-encode u h.0.1 in
    omega (arith, length-append (encode u) (text us), length-text us h.1, ap length d.is_form)

-- On texts in UTF-8, terminated, with no code point 0 or above 21 bits, `casecmp` returns, reads
-- nothing past the terminators, and compares the folded code points one by one.
pub casecmp-text :
    (us vs : List ℕ)
    → All IsCodepoint us
    → All IsCodepoint vs
    → casecmp (text us) (text vs) ≡ returns (compare_folded us vs)
unfolding casecmp
casecmp-text us vs hu hv =
    casecmp_loop-text (suc (length (text us))) us vs hu hv (omega (arith, length-text us hu))

difference-zero : (a b : ℕ) → difference a b ≡ pos 0 → a ≡ b
unfolding difference
difference-zero a b e = ground arith

compare_folded-zero :
    (us vs : List ℕ) → compare_folded us vs ≡ pos 0 → map to_lower us ≡ map to_lower vs
unfolding compare_folded
compare_folded-zero [] [] e = refl
compare_folded-zero [] (v ∷ vs) e = cc
compare_folded-zero (u ∷ us) [] e = cc
compare_folded-zero (u ∷ us) (v ∷ vs) e =
    ground (arith, compare_folded-zero us vs, difference-zero (to_lower u) (to_lower v))

compare_folded-same :
    (us vs : List ℕ) → map to_lower us ≡ map to_lower vs → compare_folded us vs ≡ pos 0
unfolding compare_folded
compare_folded-same [] [] e = refl
compare_folded-same [] (v ∷ vs) e = cc
compare_folded-same (u ∷ us) [] e = cc
compare_folded-same (u ∷ us) (v ∷ vs) e = ground (arith, compare_folded-same us vs)

-- On such texts the answer is 0 exactly when the texts fold to the same code points.
pub casecmp-zero_iff :
    (us vs : List ℕ)
    → All IsCodepoint us
    → All IsCodepoint vs
    → (casecmp (text us) (text vs) ≡ returns (pos 0)) ↔ (map to_lower us ≡ map to_lower vs)
casecmp-zero_iff us vs hu hv =
    let e = casecmp-text us vs hu hv in
    (λ h. compare_folded-zero us vs (ground (arith, e)), λ h. rw (e, compare_folded-same us vs h))
