-- ===== src/Load/Fields/Found.antt =====
-- The bit field of src/load.c for the fields of a mapping that were found, as a set of field indices.
use libcyaml.Base.{ℕ, zero, suc, ◌+◌, ◌-◌, ◌/◌, ◌%◌, ◌^◌, ◌<◌, ◌≡◌, ◌≢◌, refl, ap, sym, ◌∙◌, arith}
use libcyaml.Base.{Bool, false, not, ◌||◌, inl, inr, Option, none, some, List, [], ◌∷◌}
use libcyaml.Errors.{ok}
use libcyaml.Base.{All, get_elem?, set, replicate, ◌==◌, bit_and, bit_or}
use native.Mathlib.Nat.{pow-suc}
use libcyaml.Base.{Bool-cases, ==→eq, ==→ne, ==-ne, eq→==, ==-refl}
use libcyaml.Base.Bits.{bit, bit-bit_and, bit-bit_or, bits_ext, bit-zero, bit_lt}
use libcyaml.Load.Fields.{mapping_bitfield_create, mapping_bitfield_set, mapping_bitfield_check}

bit-two_pow_same : (k : ℕ) → bit k (2 ^ k) ≡ 1
bit-two_pow_same zero = refl
bit-two_pow_same (suc k) =
    let half : 2 ^ suc k / 2 ≡ 2 ^ k = omega (arith, pow-suc 2 k) in rw half (bit-two_pow_same k)

bit-two_pow_other : (i k : ℕ) → i ≢ k → bit i (2 ^ k) ≡ 0
bit-two_pow_other zero zero ne = absurd (ne refl)
bit-two_pow_other (suc i) zero ne = bit-zero i
bit-two_pow_other zero (suc k) ne = omega (arith, pow-suc 2 k)
bit-two_pow_other (suc i) (suc k) ne =
    let half : 2 ^ suc k / 2 ≡ 2 ^ k = omega (arith, pow-suc 2 k) in
    rw half (bit-two_pow_other i k (λ e. ne (ap suc e)))

-- A word has the bit `k` or not.
abbrev has_bit : ℕ → ℕ → Bool
has_bit w k = not (bit_and w (2 ^ k) == 0)

bit_and-two_pow : (w k : ℕ) → bit k w ≡ 0 → bit_and w (2 ^ k) ≡ 0
bit_and-two_pow w k e = bits_ext _ _ (λ i. elim (Bool-cases (i == k)) [
  | inl same ↦
      let at : i ≡ k = ==→eq i k same in
      omega (arith, bit-bit_and i w (2 ^ k), bit-zero i, ap (λ j. bit j w) at, e)
  | inr other ↦
      omega (arith, bit-bit_and i w (2 ^ k), bit-zero i, bit-two_pow_other i k (==→ne i k other))
])

has_bit_lem : (w k : ℕ) → has_bit w k ≡ (bit k w == 1)
has_bit_lem w k = elim (Bool-cases (bit k w == 0)) [
  | inl e ↦ let z : bit k w ≡ 0 = ==→eq _ _ e in rw (bit_and-two_pow w k z, z) refl
  | inr e ↦
      let one : bit k w ≡ 1 = ground (arith, bit_lt k w, e) in
      let ne : bit_and w (2 ^ k) ≢ 0 = λ z.
        omega (arith, bit-bit_and k w (2 ^ k), bit-two_pow_same k, one, ap (bit k) z, bit-zero k) in
      rw (==-ne _ 0 ne, one) refl
]

has_bit-bit_or : (w k i : ℕ) → has_bit (bit_or w (2 ^ k)) i ≡ (i == k || has_bit w i)
has_bit-bit_or w k i = elim (Bool-cases (i == k)) [
  | inl same ↦
      let at : i ≡ k = ==→eq i k same in
      rw (at, has_bit_lem (bit_or w (2 ^ k)) k, ==-refl k)
        (eq→== _ _ (omega (arith, bit-bit_or k w (2 ^ k), bit-two_pow_same k, bit_lt k w)))
  | inr other ↦
      rw (other, has_bit_lem (bit_or w (2 ^ k)) i, has_bit_lem w i)
        (ap (λ b. b == 1)
          (omega (arith, bit-bit_or i w (2 ^ k), bit-two_pow_other i k (==→ne i k other))))
]

get_elem?-set_same :
    (xs : List ℕ) (i v : ℕ) {w : ℕ} → get_elem? xs i ≡ some w → get_elem? (set xs i v) i ≡ some v
get_elem?-set_same [] i v e = cc
get_elem?-set_same (x ∷ xs) zero v e = refl
get_elem?-set_same (x ∷ xs) (suc i) v e = get_elem?-set_same xs i v e

get_elem?-set_other : (xs : List ℕ) (i j v : ℕ) → i ≢ j → get_elem? (set xs i v) j ≡ get_elem? xs j
get_elem?-set_other [] i j v ne = refl
get_elem?-set_other (x ∷ xs) zero zero v ne = absurd (ne refl)
get_elem?-set_other (x ∷ xs) zero (suc j) v ne = refl
get_elem?-set_other (x ∷ xs) (suc i) zero v ne = refl
get_elem?-set_other (x ∷ xs) (suc i) (suc j) v ne =
    get_elem?-set_other xs i j v (λ e. ne (ap suc e))

get_elem?-replicate : (n i : ℕ) → i < n → get_elem? (replicate {A = ℕ} n 0) i ≡ some 0
get_elem?-replicate zero i h = absurd (omega arith)
get_elem?-replicate (suc n) zero h = refl
get_elem?-replicate (suc n) (suc i) h = get_elem?-replicate n i (omega arith)

-- The bit field answers `f` for each of the `count` fields.
abbrev Answers : ℕ → List ℕ → (ℕ → Bool) → Type 0
Answers count ws f = (i : ℕ) → i < count → mapping_bitfield_check ws i ≡ some (f i)

-- An index has a word if it has an answer.
word_of :
    (ws : List ℕ) (i : ℕ) {b : Bool}
    → mapping_bitfield_check ws i ≡ some b
    → (w : ℕ) × (get_elem? ws (i / 32) ≡ some w) × (has_bit w (i % 32) ≡ b)
unfolding mapping_bitfield_check
word_of ws i {b} e = go (get_elem? ws (i / 32)) refl
  where
    go :
        (o : Option ℕ)
        → get_elem? ws (i / 32) ≡ o
        → (w : ℕ) × (get_elem? ws (i / 32) ≡ some w) × (has_bit w (i % 32) ≡ b)
    go none q = cc (rw (q, mapping_bitfield_check) at e)
    go (some w) q = (w, q, same)
      where
        opened : Path (Option Bool) (some (has_bit w (i % 32))) (some b)
        opened = rw (q, mapping_bitfield_check) at e

        same : has_bit w (i % 32) ≡ b
        same = cc opened

checked :
    (ws : List ℕ) (i w : ℕ)
    → get_elem? ws (i / 32) ≡ some w
    → mapping_bitfield_check ws i ≡ some (has_bit w (i % 32))
unfolding mapping_bitfield_check
checked ws i w e = rw (e, mapping_bitfield_check) refl

set_step :
    (ws : List ℕ) (k w : ℕ)
    → get_elem? ws (k / 32) ≡ some w
    → mapping_bitfield_set ws k ≡ some (set ws (k / 32) (bit_or w (2 ^ (k % 32))))
unfolding mapping_bitfield_set
set_step ws k w e = rw (e, mapping_bitfield_set) refl

same_rest : (i k : ℕ) → i / 32 ≡ k / 32 → (i % 32 == k % 32) ≡ (i == k)
same_rest i k q = elim (Bool-cases (i == k)) [
  | inl e ↦ let at : i ≡ k = ==→eq i k e in rw e (eq→== _ _ (omega (arith, at)))
  | inr e ↦ let ne : i ≢ k = ==→ne i k e in rw e (==-ne _ _ (λ r. ne (omega (arith, q, r))))
]

Answers-set :
    (count : ℕ) (ws : List ℕ) (f : ℕ → Bool) (k : ℕ)
    → Answers count ws f
    → k < count
    → (ws' : List ℕ) × (mapping_bitfield_set ws k ≡ some ws')
      × Answers count ws' (λ i. i == k || f i)
Answers-set count ws f k ans lt =
    let (w, at, _) = word_of ws k (ans k lt) in
    (set ws (k / 32) (bit_or w (2 ^ (k % 32))), set_step ws k w at, λ i l. after w at i l)
  where
    after :
        (w : ℕ)
        → get_elem? ws (k / 32) ≡ some w
        → (i : ℕ) → i < count
        → mapping_bitfield_check (set ws (k / 32) (bit_or w (2 ^ (k % 32)))) i
          ≡ some (i == k || f i)
    after w at i l =
        let (v, atv, b) = word_of ws i (ans i l) in
        elim (Bool-cases (i / 32 == k / 32)) [
          | inr other ↦
              let ne : i / 32 ≢ k / 32 = ==→ne _ _ other in
              checked _ i v (get_elem?-set_other ws (k / 32) (i / 32) _ (λ e. ne (sym e)) ∙ atv)
              ∙ ap some (b ∙ rw (==-ne i k (λ e. ne (ap (λ x. x / 32) e))) refl)
          | inl same ↦
              let quot : i / 32 ≡ k / 32 = ==→eq _ _ same in
              let here : get_elem? (set ws (k / 32) (bit_or w (2 ^ (k % 32)))) (i / 32)
                  ≡ some (bit_or w (2 ^ (k % 32))) =
                ap (get_elem? (set ws (k / 32) (bit_or w (2 ^ (k % 32))))) quot
                ∙ get_elem?-set_same ws (k / 32) (bit_or w (2 ^ (k % 32))) at in
              let vw : has_bit w (i % 32) ≡ f i = cc (at, atv, quot, b) in
              checked _ i (bit_or w (2 ^ (k % 32))) here
              ∙ ap some (has_bit-bit_or w (k % 32) (i % 32) ∙ rw (same_rest i k quot, vw) refl)
        ]

-- Whether an index is in a list.
abbrev pub has_index : ℕ → List ℕ → Bool
has_index i [] = false
has_index i (k ∷ ks) = i == k || has_index i ks

-- The bits of the indices are set one after another.
abbrev pub set_all : List ℕ → List ℕ → Option (List ℕ)
set_all ws [] = some ws
set_all ws (k ∷ ks) = elim (set_all ws ks) [ none ↦ none | some ws' ↦ mapping_bitfield_set ws' k ]

Answers-create :
    {H : Type 0} (alloc : H → ℕ → Bool × H) (count : ℕ) (h : H) (ws : List ℕ)
    → (mapping_bitfield_create alloc count h).0 ≡ ok ws
    → Answers count ws (λ i. false)
unfolding mapping_bitfield_create
Answers-create alloc count h ws e i lt =
    let words = (count + 32 - 1) / 32 in
    let same : ws ≡ replicate words 0 = ground (arith, e) in
    checked ws i 0 (rw same (get_elem?-replicate words (i / 32) (omega (arith, lt))))
    ∙ ap some (has_bit_lem 0 (i % 32) ∙ ap (λ b. b == 1) (bit-zero (i % 32)))

set_all_ok :
    {H : Type 0} (alloc : H → ℕ → Bool × H) (count : ℕ) (h : H) (ws : List ℕ) (ks : List ℕ)
    → (mapping_bitfield_create alloc count h).0 ≡ ok ws
    → All (λ k. k < count) ks
    → (ws' : List ℕ) × (set_all ws ks ≡ some ws') × Answers count ws' (λ i. has_index i ks)
set_all_ok alloc count h ws [] e below = (ws, refl, Answers-create alloc count h ws e)
set_all_ok alloc count h ws (k ∷ ks) e below =
    let (ws1, s1, a1) = set_all_ok alloc count h ws ks e below.1 in
    let (ws2, s2, a2) = Answers-set count ws1 (λ i. has_index i ks) k a1 below.0 in
    (ws2, rw s1 s2, a2)

-- The bit field is a set of field indices: where the words for `count` fields are allocated, setting
-- the bits of any indices below `count` one after another never leaves the array, and the check of
-- an index below `count` then tells whether it is one of them.
pub check-set_all :
    {H : Type 0} (alloc : H → ℕ → Bool × H) (count : ℕ) (h : H) (ws : List ℕ) (ks : List ℕ) (i : ℕ)
    → (mapping_bitfield_create alloc count h).0 ≡ ok ws
    → All (λ k. k < count) ks
    → i < count
    → (ws' : List ℕ) × (set_all ws ks ≡ some ws')
      × (mapping_bitfield_check ws' i ≡ some (has_index i ks))
check-set_all alloc count h ws ks i e below lt =
    let (ws', set_, answers) = set_all_ok alloc count h ws ks e below in (ws', set_, answers i lt)
