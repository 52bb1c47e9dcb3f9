-- ===== src/Save/Buffer/Written.antt =====
-- What the output buffer of src/save.c holds after writes.
use mathlib.Core.Path.{subst}
use libcyaml.Base.{ℕ, zero, suc, ◌+◌, ◌-◌, ◌≤◌, ◌≡◌, refl, ap, ◌∙◌, arith, ◌⊎◌, inl, inr}
use libcyaml.Base.{Bool, true, false, Option, none, some, List, [], ◌∷◌, ◌++◌, length, take}
use libcyaml.Base.{ltb, if◌then◌else◌, Bool-cases, length-append, append-nil, append_assoc}
use libcyaml.Errors.{oom}
use libcyaml.Outcome.{done, M, return, ◌>>=◌, Ensures, Ensures-bind}
use libcyaml.Schema.{Bytes}
use libcyaml.Data.{overlay}
use libcyaml.Save.Buffer.{Realloc, BufferCtx, append_chunk, buffer_handler, empty_buffer}

-- The buffer's counts are those of its allocation, and `written` is what it holds.
pub record Holds {H : Type 0} (b : BufferCtx H) (written : Bytes) : Type 0 where
  pub allocated : length b.chars ≡ b.len
  pub count : length written ≡ b.used
  pub room : b.used ≤ b.len
  pub content : take b.used b.chars ≡ written

length-overlay : (obj : Bytes) (off : ℕ) (bs : Bytes) → length (overlay obj off bs) ≡ length obj
length-overlay obj zero [] = refl
length-overlay [] zero (b ∷ bs) = refl
length-overlay (o ∷ os) zero (b ∷ bs) = ap suc (length-overlay os zero bs)
length-overlay [] (suc off) bs = refl
length-overlay (o ∷ os) (suc off) bs = ap suc (length-overlay os off bs)

take-overlay :
    (n : ℕ) (obj : Bytes) (off : ℕ) (bs : Bytes)
    → n ≡ off + length bs
    → n ≤ length obj
    → take n (overlay obj off bs) ≡ take off obj ++ bs
take-overlay zero obj zero [] e le = refl
take-overlay (suc n) obj zero [] e le = absurd (omega (arith, e))
take-overlay n [] zero (b ∷ bs) e le = absurd (omega (arith, e, le))
take-overlay zero (o ∷ os) zero (b ∷ bs) e le = absurd (omega (arith, e))
take-overlay (suc n) (o ∷ os) zero (b ∷ bs) e le =
    ap (λ xs. b ∷ xs) (take-overlay n os zero bs (omega (arith, e)) (omega (arith, le)))
take-overlay zero [] (suc off) bs e le = absurd (omega (arith, e))
take-overlay (suc n) [] (suc off) bs e le = absurd (omega (arith, le))
take-overlay zero (o ∷ os) (suc off) bs e le = absurd (omega (arith, e))
take-overlay (suc n) (o ∷ os) (suc off) bs e le =
    ap (λ xs. o ∷ xs) (take-overlay n os off bs (omega (arith, e)) (omega (arith, le)))

take-take : (xs ys : Bytes) (n m : ℕ) → take m ys ≡ xs → n ≤ m → take n ys ≡ take n xs
take-take xs ys zero m e le = refl
take-take xs ys (suc n) zero e le = absurd (omega (arith, le))
take-take xs [] (suc n) (suc m) e le = ap (take (suc n)) e
take-take xs (y ∷ ys) (suc n) (suc m) e le =
    ap (λ zs. y ∷ zs) (take-take (take m ys) ys n m refl (omega (arith, le))) ∙ ap (take (suc n)) e

-- The chunks one after another.
abbrev pub join : List Bytes → Bytes
join [] = []
join (x ∷ xs) = x ++ join xs

module _ {H : Type 0} (r : Realloc H) where
  -- What one write does: it adds its bytes, or it fails with CYAML_ERR_OOM and keeps what was written.
  abbrev pub Writes : Bytes → Bytes → Bool → BufferCtx H → Type 0
  Writes written buffer true b = Holds b (written ++ buffer)
  Writes written buffer false b = Holds b written × (b.err ≡ some oom)

  append_chunk_ok :
      (written buffer : Bytes) (b : BufferCtx H)
      → Holds b written
      → b.used + length buffer ≤ b.len
      → Ensures (λ won b'. Writes written buffer won b') (append_chunk r buffer b)
  unfolding append_chunk
  append_chunk_ok written buffer b w le = rw fits (record {
    allocated = length-overlay b.chars b.used buffer ∙ w.allocated;
    count = length-append written buffer ∙ ap (λ n. n + length buffer) w.count;
    room = le;
    content =
        take-overlay _ b.chars b.used buffer refl (omega (arith, le, w.allocated))
        ∙ ap (λ xs. xs ++ buffer) w.content;
  })
    where
      fits : ltb (length b.chars) (b.used + length buffer) ≡ false
      fits = ground (arith, le, w.allocated)

  -- A write to a buffer in order never leaves the allocation: it adds its bytes behind the ones that
  -- the buffer holds, or it fails with CYAML_ERR_OOM and the buffer holds what it held.
  pub buffer_handler-Holds :
      (written buffer : Bytes) (b : BufferCtx H)
      → Holds b written
      → Ensures (λ won b'. Writes written buffer won b') (buffer_handler r buffer b)
  unfolding buffer_handler
  buffer_handler-Holds written buffer b w =
      go (Bool-cases (ltb (b.len - b.used) (length buffer)))
        ((r.realloc b.heap b.chars (b.used + length buffer)).0) refl
    where
      kept :
          Holds
            (record b {
              heap = (r.realloc b.heap b.chars (b.used + length buffer)).1;
              err = some oom;
            })
            written
      kept = record { allocated = w.allocated; count = w.count; room = w.room; content = w.content }

      grown :
          (chars : Bytes)
          → ltb (b.len - b.used) (length buffer) ≡ true
          → (r.realloc b.heap b.chars (b.used + length buffer)).0 ≡ some chars
          → Holds
              (record b {
                heap = (r.realloc b.heap b.chars (b.used + length buffer)).1;
                chars = chars;
                len = b.used + length buffer;
              })
              written
      grown chars e at = record {
        allocated = r.size b.heap b.chars chars (b.used + length buffer) at;
        count = w.count;
        room = omega arith;
        content =
            take-take b.chars chars b.used (length b.chars)
              (r.keeps b.heap b.chars chars (b.used + length buffer)
                (ground (arith, e, w.allocated, w.room)) at)
              (omega (arith, w.allocated, w.room))
            ∙ w.content;
      }

      go :
          (ltb (b.len - b.used) (length buffer) ≡ true)
            ⊎ (ltb (b.len - b.used) (length buffer) ≡ false)
          → (o : Option Bytes) → (r.realloc b.heap b.chars (b.used + length buffer)).0 ≡ o
          → Ensures (λ won b'. Writes written buffer won b') (buffer_handler r buffer b)
      go (inr e) o at =
          rw (e, buffer_handler) (append_chunk_ok written buffer b w (ground (arith, e, w.room)))
      go (inl e) none at = rw (e, buffer_handler, at) (kept, refl)
      go (inl e) (some chars) at =
          rw (e, buffer_handler, at)
            (append_chunk_ok written buffer _ (grown chars e at) (omega arith))

  -- The buffer holds all that was written, or a write failed.
  abbrev pub Wrote : Bytes → Bool → BufferCtx H → Type 0
  Wrote all true b = Holds b all
  Wrote all false b = b.err ≡ some oom

  -- The emitter writes chunk after chunk, until a write fails.
  abbrev pub write_chunks : List Bytes → M (BufferCtx H) Bool
  write_chunks [] = return true
  write_chunks (x ∷ xs) =
      buffer_handler r x >>= λ won b. if won then write_chunks xs b else done false b

  write_all :
      (chunks : List Bytes) (written : Bytes) (b : BufferCtx H)
      → Holds b written
      → Ensures (λ won b'. Wrote (written ++ join chunks) won b') (write_chunks chunks b)
  write_all [] written b w = rw (append-nil written) w
  write_all (x ∷ xs) written b w =
      Ensures-bind (λ won b'. Writes written x won b') _ (buffer_handler r x) _ b
        (buffer_handler-Holds written x b w)
        (λ won b' _ k. more won b' k (write_all xs (written ++ x)))
    where
      more :
          (won : Bool) (b' : BufferCtx H)
          → Writes written x won b'
          → ((b' : BufferCtx H)
              → Holds b' (written ++ x)
              → Ensures (λ won b'. Wrote ((written ++ x) ++ join xs) won b') (write_chunks xs b'))
          → Ensures
              (λ won b''. Wrote (written ++ join (x ∷ xs)) won b'')
              (if won then write_chunks xs b' else done false b')
      more true b' k rest =
          subst (λ ys. Ensures (λ won b'. Wrote ys won b') (write_chunks xs b'))
            (append_assoc written x (join xs)) (rest b' k)
      more false b' k rest = k.1

  -- The output of `cyaml_save_data`: starting from the empty buffer, no write leaves the allocation;
  -- if all writes succeed the buffer holds all chunks in their order, and otherwise the error of the
  -- buffer is CYAML_ERR_OOM.
  pub write_chunks-Holds :
      (heap : H) (chunks : List Bytes)
      → Ensures (λ won b'. Wrote (join chunks) won b') (write_chunks chunks (empty_buffer heap))
  write_chunks-Holds heap chunks =
      write_all chunks [] (empty_buffer heap)
        (record { allocated = refl; count = refl; room = omega arith; content = refl })
