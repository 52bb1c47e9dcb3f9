-- ===== src/Load/Events/Recorded.antt =====
-- What `cyaml__handle_record` of src/load.c adds to the recording while an anchor is open.
use libcyaml.Base.{ℕ, ◌+◌, ◌*◌, ◌≡◌, refl, inl, inr, Bool, true, false}
use libcyaml.Base.{not, ◌&&◌, and_false, Option, none, some, List, [], ◌∷◌, ◌++◌, length, ◌==◌}
use libcyaml.Outcome.{M, ◌>>=◌, Leads, Leads-if}
use libcyaml.Load.Events.{EventType, Event, Anchor, Recording, Ctx, allocate, record_stack_push}
use libcyaml.Load.Events.{
  record_stack_pop, update_anchor_recordings, record_index, record_data, event_anchor,
  handle_record,
}
use libcyaml.Load.Events.{handle_anchor, handle_anchor_named, recording_none, starts_collection}
use libcyaml.Load.Events.Updates.{allocate_cases}
use libcyaml.Load.Events.Records.{added, named_cases}
use libcyaml.Schema.{Bytes}

-- Whether an event has an anchor.
abbrev pub has_anchor : Event → Bool
has_anchor event = elim (event_anchor event.type event.anchor) [ none ↦ false | some n ↦ true ]

module _ {P H : Type 0} (realloc : H → ℕ → Bool × H) where
  allocate-Leads {ℓ} :
      {B : Type ℓ} (bytes : ℕ) (c : Ctx P H) (f : Unit {0} → M (Ctx P H) B)
      (R : B → Ctx P H → Type 0)
      → ((h : H) → Leads R (f tt (record c { heap = h })))
      → Leads R ((allocate realloc bytes >>= f) c)
  allocate-Leads bytes c f R k = elim (allocate_cases realloc bytes c) [
    | inl (h, e) ↦ rw (e, ◌>>=◌) (k h)
    | inr (h, e) ↦ rw (e, ◌>>=◌) tt
  ]

  -- The same events and data.
  abbrev Keeps : Recording → Ctx P H → Type 0
  Keeps r c = (c.recording.events ≡ r.events) × (c.recording.data_ ≡ r.data_)

  pop-Keeps :
      (n : ℕ) (c : Ctx P H) → Leads (λ _ c'. Keeps c.recording c') (record_stack_pop realloc n c)
  unfolding record_stack_pop
  pop-Keeps n c = go c.recording.stack refl c.recording.progress refl
    where
      go :
          (st : List ℕ)
          → c.recording.stack ≡ st
          → (ps : List Anchor) → c.recording.progress ≡ ps
          → Leads (λ _ c'. Keeps c.recording c') (record_stack_pop realloc n c)
      go [] es ps ep = rw (es, record_stack_pop) tt
      go (s ∷ st) es [] ep = rw (es, record_stack_pop, ep) tt
      go (s ∷ st) es (a ∷ ps) ep =
          rw (es, record_stack_pop, ep)
            (Leads-if (λ _ c'. Keeps c.recording c') (a.start == s) _ _
              (λ _.
                allocate-Leads (length c.recording.complete * 24 + 24) _ _
                  (λ _ c'. Keeps c.recording c') (λ h. (refl, refl)))
              (λ _. (refl, refl)))

  push-Keeps :
      (n : ℕ) (c : Ctx P H) → Leads (λ _ c'. Keeps c.recording c') (record_stack_push realloc n c)
  unfolding record_stack_push
  push-Keeps n c =
      allocate-Leads (length c.recording.stack * 4 + 4) c _ (λ _ c'. Keeps c.recording c')
        (λ h. (refl, refl))

  update-Keeps :
      (n : ℕ) (t : EventType) (c : Ctx P H)
      → Leads (λ _ c'. Keeps c.recording c') (update_anchor_recordings realloc n t c)
  unfolding update_anchor_recordings
  update-Keeps n EventType.seq_start c = push-Keeps n c
  update-Keeps n EventType.map_start c = push-Keeps n c
  update-Keeps n EventType.seq_end c = pop-Keeps n c
  update-Keeps n EventType.map_end c = pop-Keeps n c
  update-Keeps n EventType.no_event c = (refl, refl)
  update-Keeps n EventType.strm_start c = (refl, refl)
  update-Keeps n EventType.strm_end c = (refl, refl)
  update-Keeps n EventType.doc_start c = (refl, refl)
  update-Keeps n EventType.doc_end c = (refl, refl)
  update-Keeps n EventType.alias c = (refl, refl)
  update-Keeps n EventType.scalar c = (refl, refl)

  -- One index more, and the same data.
  abbrev pub AddsIndex : Recording → ℕ → Ctx P H → Type 0
  AddsIndex r i c = (c.recording.events ≡ r.events ++ (i ∷ [])) × (c.recording.data_ ≡ r.data_)

  pub record_index-AddsIndex :
      (i : ℕ) (event : Event) (c : Ctx P H)
      → Leads (λ _ c'. AddsIndex c.recording i c') (record_index realloc i event c)
  unfolding record_index
  record_index-AddsIndex i event c =
      allocate-Leads (length c.recording.events * 4 + 4) c _ (λ _ c'. AddsIndex c.recording i c')
        (λ h. update-Keeps (length c.recording.events) event.type _)

module _ {P H : Type 0} (realloc : H → ℕ → Bool × H) (event_size : ℕ) where
  -- The recording holds one event more, the given one.
  abbrev pub Adds : Recording → Event → Ctx P H → Type 0
  Adds r e c =
      (c.recording.events ≡ r.events ++ (length r.data_ ∷ []))
      × (c.recording.data_ ≡ r.data_ ++ (e ∷ []))

  record_data-Adds :
      (event : Event) (c : Ctx P H)
      → Leads (λ _ c'. Adds c.recording event c') (record_data realloc event_size event c)
  unfolding record_data
  record_data-Adds event c =
      allocate-Leads realloc (length c.recording.data_ * event_size + event_size) c _
        (λ _ c'. Adds c.recording event c')
        (λ h. record_index-AddsIndex realloc (length c.recording.data_) event _)

  added-Adds :
      (starts : Bool) (name : Bytes) (event : Event) (c : Ctx P H) (h : H)
      → Leads
          (λ _ c'. Adds c.recording event c')
          (record_data realloc event_size event
            (record (added realloc event_size starts name c) { heap = h }))
  added-Adds true name event c h = record_data-Adds event _
  added-Adds false name event c h = record_data-Adds event _

  -- An event that was not replayed is recorded if an anchor is open or the event has one: when the
  -- call returns CYAML_OK, the recorded data are those before with the event behind them, and the
  -- recorded indices those before with the index of the event's data behind them.
  pub handle_record-Adds :
      (event : Event) (c : Ctx P H)
      → (recording_none c && not (has_anchor event)) ≡ false
      → Leads (λ _ c'. Adds c.recording event c') (handle_record realloc event_size event none c)
  unfolding handle_record handle_anchor
  handle_record-Adds event c on = go (event_anchor event.type event.anchor) refl
    where
      go :
          (o : Option Bytes)
          → event_anchor event.type event.anchor ≡ o
          → Leads
              (λ _ c'. Adds c.recording event c')
              (handle_record realloc event_size event none c)
      go none e =
          let bare : has_anchor event ≡ false = rw (e, has_anchor) refl in
          let on' : (recording_none c && true) ≡ false = rw bare at on in
          rw (e, handle_anchor_named, on') (record_data-Adds event c)
      go (some name) e = elim (named_cases realloc event_size event.type name c) [
        | inl (h, at) ↦
            rw (e, at, ◌>>=◌, and_false) (added-Adds (starts_collection event.type) name event c h)
        | inr (x, c', at) ↦ rw (e, at, ◌>>=◌) tt
      ]
