-- ===== src/Load/Events/Updates.antt =====
-- The updates of the anchors after an event in src/load.c, and the invariant.
use libcyaml.Base.{ℕ, ◌+◌, ◌*◌, ◌<◌, ◌≡◌, ◌≢◌, refl, arith, ◌⊎◌, inl, inr}
use libcyaml.Base.{Bool, true, false, List, [], ◌∷◌, length}
use libcyaml.Base.{length-append, eq→==, ==-ne, All-append, Bool-cases}
use libcyaml.Errors.{oom}
use libcyaml.Outcome.{done, failed, M, ◌>>=◌, Ensures}
use libcyaml.Load.Events.{EventType, Event, Anchor, Ctx, starts_collection}
use libcyaml.Load.Events.{
  allocate, record_stack_push, record_stack_pop, update_anchor_recordings, record_index,
}
use libcyaml.Load.Events.Invariant.{Ready, opened, within}
use libcyaml.Load.Events.Invariant.{
  alone, Good, IsPending, IsPrepared, push_ok, closed_ok, popped_ok, other_ok,
}

module _ {P H : Type 0} (realloc : H → ℕ → Bool × H) where
  pub allocate_cases :
      (bytes : ℕ) (c : Ctx P H)
      → ((h : H) × (allocate realloc bytes c ≡ done tt (record c { heap = h })))
        ⊎ ((h : H) × (allocate realloc bytes c ≡ failed oom (record c { heap = h })))
  unfolding allocate
  allocate_cases bytes c = elim (Bool-cases (realloc c.heap bytes).0) [
    | inl e ↦ inl ((realloc c.heap bytes).1, rw e)
    | inr e ↦ inr ((realloc c.heap bytes).1, rw e)
  ]

  -- A postcondition behind an allocation: it fails, or changes the heap alone.
  pub allocate-Ensures {ℓ} :
      {B : Type ℓ} (bytes : ℕ) (c : Ctx P H) (f : Unit {0} → M (Ctx P H) B)
      (R : B → Ctx P H → Type 0)
      → ((h : H) → Ensures R (f tt (record c { heap = h })))
      → Ensures R ((allocate realloc bytes >>= f) c)
  allocate-Ensures bytes c f R k = elim (allocate_cases bytes c) [
    | inl (h, e) ↦ rw (e, ◌>>=◌) (k h)
    | inr (h, e) ↦ rw (e, ◌>>=◌) tt
  ]

  record_stack_push_ok :
      (n : ℕ) (t : EventType) (c : Ctx P H)
      → starts_collection t ≡ true
      → IsPending n t c.recording c.replay
      → Ensures (λ _ c'. Good c') (record_stack_push realloc n c)
  unfolding record_stack_push
  record_stack_push_ok n t c s w =
      allocate-Ensures (length c.recording.stack * 4 + 4) c _ (λ _ c'. Good c')
        (λ h. push_ok n t c.recording c.replay s w)

  pub pop_cases :
      (n : ℕ) (t : EventType) (c : Ctx P H) (ps : List Anchor) (st : List ℕ)
      → c.recording.progress ≡ ps
      → c.recording.stack ≡ st
      → starts_collection t ≡ false
      → t ≢ EventType.scalar
      → IsPending n t c.recording c.replay
      → Ready n ps st t
      → Ensures (λ _ c'. Good c') (record_stack_pop realloc n c)
  unfolding record_stack_pop
  pop_cases n t c _ st ep es e ne w (opened s at below k) = cc
  pop_cases n t c _ st ep es e ne w (alone s) = absurd (ne s)
  pop_cases n t c _ [] ep es e ne w (within below k) = elim k [ ]
  pop_cases n t c (a ∷ ps) (s ∷ st) ep es e ne w (within below (inl (at, nest))) =
      rw (ep, es, eq→== _ _ at)
        (allocate-Ensures (length c.recording.complete * 24 + 24) _ _ (λ _ c'. Good c')
          (λ h. closed_ok n t c.recording c.replay a ps s st e w below nest))
  pop_cases n t c (a ∷ ps) (s ∷ st) ep es e ne w (within below (inr (other, nest))) =
      rw (ep, es, ==-ne _ _ other) (popped_ok n t c.recording c.replay a ps st w below nest)

  pub update_anchor_recordings_ok :
      (n : ℕ) (t : EventType) (c : Ctx P H)
      → IsPending n t c.recording c.replay
      → Ensures (λ _ c'. Good c') (update_anchor_recordings realloc n t c)
  unfolding update_anchor_recordings
  update_anchor_recordings_ok n EventType.seq_start c w = record_stack_push_ok n _ c refl w
  update_anchor_recordings_ok n EventType.map_start c w = record_stack_push_ok n _ c refl w
  update_anchor_recordings_ok n EventType.seq_end c w =
      pop_cases n EventType.seq_end c _ _ refl refl refl (λ e. cc) w w.ready
  update_anchor_recordings_ok n EventType.map_end c w =
      pop_cases n EventType.map_end c _ _ refl refl refl (λ e. cc) w w.ready
  update_anchor_recordings_ok n EventType.no_event c w = other_ok n _ _ _ refl w
  update_anchor_recordings_ok n EventType.strm_start c w = other_ok n _ _ _ refl w
  update_anchor_recordings_ok n EventType.strm_end c w = other_ok n _ _ _ refl w
  update_anchor_recordings_ok n EventType.doc_start c w = other_ok n _ _ _ refl w
  update_anchor_recordings_ok n EventType.doc_end c w = other_ok n _ _ _ refl w
  update_anchor_recordings_ok n EventType.alias c w = other_ok n _ _ _ refl w
  update_anchor_recordings_ok n EventType.scalar c w = other_ok n _ _ _ refl w

  pub record_index_ok :
      (i : ℕ) (event : Event) (c : Ctx P H)
      → i < length c.recording.data_
      → IsPrepared event.type c.recording c.replay
      → Ensures (λ _ c'. Good c') (record_index realloc i event c)
  unfolding record_index
  record_index_ok i event c lt w =
      allocate-Ensures (length c.recording.events * 4 + 4) c _ (λ _ c'. Good c')
        (λ h. update_anchor_recordings_ok (length c.recording.events) event.type _ (record {
          counted = rw length-append (omega arith);
          complete_ok = w.complete_ok;
          data_ok = All-append _ c.recording.events _ w.data_ok (lt, tt);
          ready = w.ready;
          replayable = w.replayable;
        }))
