-- ===== src/Save/Buffer.antt =====
-- src/save.c: the output buffer of `cyaml_save_data`, which libyaml's emitter writes to in chunks.
--
-- The allocation is the list of its bytes. The client's allocator is an instance of `Realloc`; its
-- laws are those of the C library's `realloc` on a growing allocation.
pub mod Written
use libcyaml.Base.{ℕ, ◌+◌, ◌-◌, ◌≤◌, ◌≡◌, Bool, true, false, Option, none, some, List, [], length}
use libcyaml.Base.{take, ltb, if◌then◌else◌}
use libcyaml.Errors.{Err, oom}
use libcyaml.Outcome.{Outcome, done, failed, fault, M}
use libcyaml.Schema.{Bytes}
use libcyaml.Data.{overlay}

pub record Realloc (H : Type 0) : Type 0 where
  pub realloc : H → Bytes → ℕ → Option Bytes × H
  pub size : (h : H) (old new : Bytes) (n : ℕ) → (realloc h old n).0 ≡ some new → length new ≡ n
  pub keeps :
      (h : H) (old new : Bytes) (n : ℕ)
      → length old ≤ n
      → (realloc h old n).0 ≡ some new
      → take (length old) new ≡ old

-- `cyaml_buffer_ctx_t`; `err` is `CYAML_OK` or the error, `heap` the state of the allocator.
pub record BufferCtx (H : Type 0) : Type 0 where
  pub heap : H
  pub len : ℕ
  pub used : ℕ
  pub chars : Bytes
  pub err : Option Err

-- The empty buffer of `cyaml_save_data`.
abbrev pub empty_buffer : {H : Type 0} → H → BufferCtx H
empty_buffer heap = record { heap = heap; len = 0; used = 0; chars = []; err = none }

module _ {H : Type 0} (r : Realloc H) where
  -- The `memcpy` of `cyaml__buffer_handler`.
  unfoldable pub append_chunk : Bytes → M (BufferCtx H) Bool
  append_chunk buffer b =
      if ltb (length b.chars) (b.used + length buffer)
      then fault
      else done true
          (record b { chars = overlay b.chars b.used buffer; used = b.used + length buffer })

  -- `cyaml__buffer_handler`: whether it succeeds.
  unfoldable pub buffer_handler : Bytes → M (BufferCtx H) Bool
  unfolding append_chunk
  buffer_handler buffer b =
      let size = length buffer in
      let (temp, heap) = r.realloc b.heap b.chars (b.used + size) in
      if ltb (b.len - b.used) size
      then elim temp [
        | none ↦ done false (record b { heap = heap; err = some oom })
        | some chars ↦
            append_chunk buffer (record b { heap = heap; chars = chars; len = b.used + size })
      ]
      else append_chunk buffer b
