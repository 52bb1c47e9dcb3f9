-- ===== src/Tests/Output.antt =====
-- Runs of the output buffer, with an allocator that pads with zeros.
use libcyaml.Base.{ℕ, zero, suc, ◌-◌, ◌≤◌, ◌≡◌, refl, ap, ◌∙◌, arith}
use libcyaml.Base.{Option, none, some, [], ◌∷◌, ◌++◌, length, take, replicate, ltb, if◌then◌else◌}
use libcyaml.Base.{length-append}
use libcyaml.Outcome.{Ensures}
use libcyaml.Schema.{Bytes}
use libcyaml.Save.Buffer.{Realloc, BufferCtx, empty_buffer, buffer_handler}
use libcyaml.Save.Buffer.Written.{
  Writes, Wrote, write_chunks, buffer_handler-Holds, write_chunks-Holds,
}

abbrev padded : ℕ → Bytes → ℕ → Option Bytes × ℕ
padded h old n =
    (if ltb n (length old) then none else some (old ++ replicate (n - length old) 0), h)

length-replicate : (n : ℕ) → length (replicate {A = ℕ} n 0) ≡ n
length-replicate zero = refl
length-replicate (suc n) = ap suc (length-replicate n)

take-prefix : (xs ys : Bytes) → take (length xs) (xs ++ ys) ≡ xs
take-prefix [] ys = refl
take-prefix (x ∷ xs) ys = ap (λ zs. x ∷ zs) (take-prefix xs ys)

padded_cases :
    (h : ℕ) (old new : Bytes) (n : ℕ)
    → (padded h old n).0 ≡ some new
    → (length old ≤ n) × (new ≡ old ++ replicate (n - length old) 0)
padded_cases h old new n e = (ground (arith, e), ground (arith, e))

abbrev allocator : Realloc ℕ
allocator = record {
  realloc = padded;
  size = λ h old new n e.
      let (le, same) = padded_cases h old new n e in
      ap length same
      ∙ length-append old (replicate (n - length old) 0)
      ∙ omega (arith, le, length-replicate (n - length old));
  keeps = λ h old new n le e.
      let (_, same) = padded_cases h old new n e in ap (take (length old)) same ∙ take-prefix old _;
}

write_chunks-Holds_example :
    Ensures
      (λ won (b' : BufferCtx ℕ). Wrote allocator (1 ∷ 2 ∷ 3 ∷ []) won b')
      (write_chunks allocator ((1 ∷ 2 ∷ []) ∷ (3 ∷ []) ∷ []) (empty_buffer 0))
write_chunks-Holds_example = write_chunks-Holds allocator 0 ((1 ∷ 2 ∷ []) ∷ (3 ∷ []) ∷ [])

buffer_handler-Holds_example :
    Ensures
      (λ won (b' : BufferCtx ℕ). Writes allocator [] (1 ∷ 2 ∷ []) won b')
      (buffer_handler allocator (1 ∷ 2 ∷ []) (empty_buffer 0))
buffer_handler-Holds_example =
    buffer_handler-Holds allocator [] (1 ∷ 2 ∷ []) (empty_buffer 0)
      (record { allocated = refl; count = refl; room = omega arith; content = refl })
