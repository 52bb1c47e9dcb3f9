-- ===== src/Load/Events/Records.antt =====
-- `cyaml__handle_record` of src/load.c and the invariant: the data and the index of a new event, the
-- anchor that it opens or is.
use mathlib.Core.Path.{subst}
use libcyaml.Base.{ℕ, suc, ◌+◌, ◌*◌, ◌<◌, ◌≡◌, refl, ap, arith, ◌⊎◌, inl, inr}
use libcyaml.Base.{Bool, true, false, not, ◌&&◌, Option, none, some, List, [], ◌∷◌, length}
use libcyaml.Base.{
  length-append, get_elem?-in_range, get_elem?-append_some, and_false, All, All-get_elem?,
  All-append, if◌then◌else◌,
}
use libcyaml.Errors.{Err, oom}
use libcyaml.Outcome.{done, failed, M, ◌>>=◌, Ensures}
use libcyaml.Schema.{Bytes}
use libcyaml.Load.Events.{EventType, Event, Anchor, Ctx, starts_collection}
use libcyaml.Load.Events.{
  anchor_size, handle_anchor_named, event_anchor, add_progress, add_complete, start_anchor,
  record_data, handle_record, handle_anchor, recording_none,
}
use libcyaml.Load.Events.Invariant.{Nested, Closed, Ready, opened, within}
use libcyaml.Load.Events.Invariant.{alone, Good, IsPrepared, All-mono}
use libcyaml.Load.Events.Updates.{allocate_cases, allocate-Ensures, record_index_ok}

Closed-mono : (n : ℕ) (xs : List Anchor) → All (Closed n) xs → All (Closed (suc n)) xs
Closed-mono n xs h = All-mono (Closed n) (Closed (suc n)) xs (λ a k. omega (arith, k.0, k.1)) h

recording_none-nil :
    {P H : Type 0} (c : Ctx P H) → c.recording.progress ≡ [] → recording_none c ≡ true
recording_none-nil c e = rw e refl

recording_none-cons :
    {P H : Type 0} (c : Ctx P H) {a : Anchor} {ps : List Anchor}
    → c.recording.progress ≡ a ∷ ps
    → recording_none c ≡ false
recording_none-cons c e = rw e refl

module _ {P H : Type 0} (realloc : H → ℕ → Bool × H) (event_size : ℕ) where
  pub record_data_ok :
      (event : Event) (c : Ctx P H)
      → IsPrepared event.type c.recording c.replay
      → Ensures (λ _ c'. Good c') (record_data realloc event_size event c)
  unfolding record_data
  record_data_ok event c w =
      allocate-Ensures realloc (length c.recording.data_ * event_size + event_size) c _
        (λ _ c'. Good c')
        (λ h.
          record_index_ok realloc (length c.recording.data_) event _
            (rw length-append (omega arith))
            (record {
              complete_ok = w.complete_ok;
              data_ok = rw length-append (
                  All-mono (λ i. i < length c.recording.data_) _ c.recording.events
                    (λ i lt. omega arith) w.data_ok);
              ready = w.ready;
              replayable = w.replayable;
            }))

  within_ok :
      (t : EventType) (c : Ctx P H) (a : Anchor) (ps : List Anchor)
      → c.recording.progress ≡ a ∷ ps
      → Good c
      → IsPrepared t c.recording c.replay
  within_ok t c a ps e (r, p) = record {
    complete_ok = Closed-mono _ c.recording.complete r.complete_ok;
    data_ok = r.data_ok;
    ready = rw e (
        within (subst (All (λ b. b.start < length c.recording.events)) e r.progress_ok)
          (subst (λ xs. Nested xs c.recording.stack) e r.nested));
    replayable = p;
  }

  opened_ok :
      (t : EventType) (c : Ctx P H) (name : Bytes)
      → starts_collection t ≡ true
      → Good c
      → IsPrepared t (add_progress (start_anchor c name) c).recording c.replay
  opened_ok t c name s (r, p) = record {
    complete_ok = Closed-mono _ c.recording.complete r.complete_ok;
    data_ok = r.data_ok;
    ready = opened s refl r.progress_ok r.nested;
    replayable = p;
  }

  complete_ok :
      (c : Ctx P H) (name : Bytes)
      → Good c
      → IsPrepared EventType.scalar (add_complete (start_anchor c name) c).recording c.replay
  complete_ok c name (r, p) = record {
    complete_ok =
        All-append _ c.recording.complete _ (Closed-mono _ c.recording.complete r.complete_ok)
          (omega arith, tt);
    data_ok = r.data_ok;
    ready = ready c.recording.progress c.recording.stack r.progress_ok r.nested;
    replayable = λ on.
        let (b, at, le) = p on in
        (b, get_elem?-append_some c.recording.complete _ c.replay.anchor_idx at, le);
  }
    where
      ready :
          (ps : List Anchor) (st : List ℕ)
          → All (λ b. b.start < length c.recording.events) ps
          → Nested ps st
          → Ready (length c.recording.events) ps st EventType.scalar
      ready [] [] below k = alone refl
      ready [] (s ∷ st) below k = elim k [ ]
      ready (a ∷ ps) st below k = within below k

  -- What follows the anchors of an event.
  abbrev record_after : Event → Bool → M (Ctx P H) (Unit {0})
  record_after event named c =
      if recording_none c && not named then done tt c else record_data realloc event_size event c

  no_anchor_ok :
      (event : Event) (c : Ctx P H)
      → Good c
      → Ensures (λ _ c'. Good c') (record_after event false c)
  no_anchor_ok event c g = go c.recording.progress refl
    where
      go :
          (ps : List Anchor)
          → c.recording.progress ≡ ps
          → Ensures (λ _ c'. Good c') (record_after event false c)
      go [] e = rw (recording_none-nil c e) g
      go (a ∷ ps) e =
          rw (recording_none-cons c e) (record_data_ok event c (within_ok event.type c a ps e g))

  abbrev pub added : Bool → Bytes → Ctx P H → Ctx P H
  added true name c = add_progress (start_anchor c name) c
  added false name c = add_complete (start_anchor c name) c

  added_heap :
      (s : Bool) (name : Bytes) (c : Ctx P H) (h : H)
      → (if s then add_progress else add_complete)
          (start_anchor (record c { heap = h }) name)
          (record c { heap = h })
        ≡ record (added s name c) { heap = h }
  added_heap true name c h = refl
  added_heap false name c h = refl

  pub named_cases :
      (t : EventType) (name : Bytes) (c : Ctx P H)
      → ((h : H) × (handle_anchor_named realloc t (some name) c
            ≡ done true (record (added (starts_collection t) name c) { heap = h })))
        ⊎ ((e : Err) × (c' : Ctx P H) × (handle_anchor_named realloc t (some name) c ≡ failed e c'))
  unfolding handle_anchor_named
  named_cases t name c =
      elim (allocate_cases realloc
        ((if starts_collection t then length c.recording.progress else length c.recording.complete)
            * anchor_size
          + anchor_size)
        c) [
          | inr (h, e) ↦ inr (oom, record c { heap = h }, rw (e, handle_anchor_named) refl)
          | inl (h, e) ↦ elim (allocate_cases realloc (length name + 1) (record c { heap = h })) [
            | inl (h', e') ↦ inl (
              h',
              rw (e, handle_anchor_named, e')
                  (ap (done true) (added_heap (starts_collection t) name c h')),
            )
            | inr (h', e') ↦ inr (
              oom,
              (if starts_collection t then add_progress else add_complete)
                  (start_anchor (record c { heap = h' }) []) (record c { heap = h' }),
              rw (e, handle_anchor_named, e') refl,
            )
          ]
        ]

  -- An event with an anchor that opens a collection, or is a scalar.
  named_ok :
      (event : Event) (name : Bytes) (c : Ctx P H)
      → ((h : H)
          → let c' = record (added (starts_collection event.type) name c) { heap = h } in
            IsPrepared event.type c'.recording c'.replay)
      → Ensures
          (λ _ c'. Good c')
          ((handle_anchor_named realloc event.type (some name) >>= record_after event) c)
  named_ok event name c w = elim (named_cases event.type name c) [
    | inl (h, e) ↦ rw (e, ◌>>=◌, and_false) (record_data_ok event _ (w h))
    | inr (x, c', e) ↦ rw (e, ◌>>=◌) tt
  ]

  handle_record_new_ok :
      (t : EventType) (a : Option Bytes) (name value : Bytes) (c : Ctx P H)
      → Good c
      → Ensures
          (λ _ c'. Good c')
          (handle_record realloc event_size
            (record { type = t; anchor = a; alias_of = name; value = value })
            none
            c)
  unfolding handle_record handle_anchor event_anchor
  handle_record_new_ok EventType.scalar (some n) name value c g =
      named_ok (record { type = EventType.scalar; anchor = some n; alias_of = name; value = value })
        n c (λ h. complete_ok c n g)
  handle_record_new_ok EventType.seq_start (some n) name value c g =
      named_ok
        (record { type = EventType.seq_start; anchor = some n; alias_of = name; value = value }) n c
        (λ h. opened_ok EventType.seq_start c n refl g)
  handle_record_new_ok EventType.map_start (some n) name value c g =
      named_ok
        (record { type = EventType.map_start; anchor = some n; alias_of = name; value = value }) n c
        (λ h. opened_ok EventType.map_start c n refl g)
  handle_record_new_ok EventType.scalar none name value c g = no_anchor_ok _ c g
  handle_record_new_ok EventType.seq_start none name value c g = no_anchor_ok _ c g
  handle_record_new_ok EventType.map_start none name value c g = no_anchor_ok _ c g
  handle_record_new_ok EventType.no_event a name value c g = no_anchor_ok _ c g
  handle_record_new_ok EventType.strm_start a name value c g = no_anchor_ok _ c g
  handle_record_new_ok EventType.strm_end a name value c g = no_anchor_ok _ c g
  handle_record_new_ok EventType.doc_start a name value c g = no_anchor_ok _ c g
  handle_record_new_ok EventType.doc_end a name value c g = no_anchor_ok _ c g
  handle_record_new_ok EventType.alias a name value c g = no_anchor_ok _ c g
  handle_record_new_ok EventType.seq_end a name value c g = no_anchor_ok _ c g
  handle_record_new_ok EventType.map_end a name value c g = no_anchor_ok _ c g

  pub handle_record_ok :
      (event : Event) (replayed : Option ℕ) (c : Ctx P H)
      → Good c
      → ((i : ℕ) → replayed ≡ some i → i < length c.recording.events)
      → Ensures (λ _ c'. Good c') (handle_record realloc event_size event replayed c)
  unfolding handle_record
  handle_record_ok event none c g lt =
      handle_record_new_ok event.type event.anchor event.alias_of event.value c g
  handle_record_ok event (some i) c g lt = go c.recording.progress refl
    where
      go :
          (ps : List Anchor)
          → c.recording.progress ≡ ps
          → Ensures (λ _ c'. Good c') (handle_record realloc event_size event (some i) c)
      go [] e = rw (recording_none-nil c e) g
      go (a ∷ ps) e =
          let (d, at) = get_elem?-in_range c.recording.events i (lt i refl) in
          rw (recording_none-cons c e, at)
            (record_index_ok realloc d event c
              (All-get_elem? _ c.recording.events i d g.0.data_ok at)
              (within_ok event.type c a ps e g))
