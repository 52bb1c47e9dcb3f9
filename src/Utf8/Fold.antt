-- ===== src/Utf8/Fold.antt =====
-- `cyaml_utf8_to_lower` of src/utf8.c as a folding of case.
use libcyaml.Base.{ℕ, ◌≤◌, ◌<◌, ◌≡◌, refl, ap, arith, Bool, true}
use libcyaml.Base.{List, [], ◌∷◌, ltb, ◌==◌, ==→eq, all_below, all_below→at}
use libcyaml.Base.{Bool-cases, inl, inr, All}
use libcyaml.Utf8.{to_lower, switch, singles, ascii_lower}

idempotent_at : ℕ → Bool
unfolding to_lower
idempotent_at c = to_lower (to_lower c) == to_lower c

folding_table : all_below 0x250 idempotent_at ≡ true
unfolding idempotent_at
folding_table = refl

abbrev Below : ℕ → List (ℕ × ℕ) → Type 0
Below n = All (λ p. p.0 < n)

switch_default : (cases : List (ℕ × ℕ)) (c : ℕ) → Below c cases → switch cases c ≡ c
unfolding switch
switch_default [] c h = refl
switch_default ((from, to) ∷ cases) c h = ground (arith, switch_default cases c h.1)

-- Code points from U+0250 on fold to themselves.
pub to_lower_above : (c : ℕ) → 0x250 ≤ c → to_lower c ≡ c
unfolding to_lower
to_lower_above c h = ground (arith, switch_default singles c (omega arith))

-- Folding twice is folding once, for every code point.
pub to_lower_idem : (c : ℕ) → to_lower (to_lower c) ≡ to_lower c
to_lower_idem c = elim (Bool-cases (ltb c 0x250)) [
  | inl p ↦
      let t : idempotent_at c ≡ true =
        all_below→at 0x250 idempotent_at folding_table c (ground arith) in
      ==→eq _ _ (unfold idempotent_at in t)
  | inr p ↦ ap to_lower (to_lower_above c (ground arith))
]

ascii_at : ℕ → Bool
unfolding to_lower
ascii_at c = to_lower c == ascii_lower c

ascii_table : all_below 0x80 ascii_at ≡ true
unfolding ascii_at
ascii_table = refl

pub to_lower_ascii : (c : ℕ) → c < 0x80 → to_lower c ≡ ascii_lower c
to_lower_ascii c h =
    let t : ascii_at c ≡ true = all_below→at 0x80 ascii_at ascii_table c h in
    ==→eq _ _ (unfold ascii_at in t)
