-- ===== src/Load/Events/Total.antt =====
-- `cyaml_get_next_event` of src/load.c and the invariant of the event context.
use libcyaml.Base.{ℕ, ◌+◌, ◌≤◌, ◌<◌, ◌≡◌, refl, arith, ◌⊎◌, inl, inr}
use libcyaml.Base.{Bool, true, false, Option, none, some, length}
use libcyaml.Base.{get_elem?, get_elem?-in_range, All-get_elem?, ◌==◌, if◌then◌else◌, Bool-cases}
use libcyaml.Outcome.{modify, Ensures, Ensures-bind, Ensures-if}
use libcyaml.Load.Events.{
  Event, Anchor, Ctx, handle_replay, handle_alias, fetch, get_next_event, next_parsed,
  next_replayed,
}
use libcyaml.Load.Events.{find_anchor, is_alias, no_alias, delete_yaml_event}
use libcyaml.Load.Events.Invariant.{Closed, Good, IsReplayable}
use libcyaml.Load.Events.Records.{handle_record_ok}
use libcyaml.Load.Events.Find.{find_anchor_lem, IsLast}

module _ {P H : Type 0} where
  -- A replayed event has an index that is recorded.
  handle_replay_ok :
      (c : Ctx P H)
      → Good c
      → c.replay.active ≡ true
      → Ensures (λ i c'. Good c' × (i < length c'.recording.events)) (handle_replay c)
  unfolding handle_replay
  handle_replay_ok c (r, p) on =
      let (a, at, le) = p on in
      let k =
        All-get_elem? (Closed (length c.recording.events)) c.recording.complete _ a r.complete_ok
          at in
      let (d, atd) =
        get_elem?-in_range c.recording.events c.replay.event_idx (omega (arith, le, k.1)) in
      let (e, ate) =
        get_elem?-in_range c.recording.data_ d
          (All-get_elem? _ c.recording.events _ d r.data_ok atd) in
      rw (at, handle_replay, atd, ate)
        ((r, advance a at le (Bool-cases (c.replay.event_idx == a.end))), omega (arith, le, k.1))
    where
      advance :
          (a : Anchor)
          → get_elem? c.recording.complete c.replay.anchor_idx ≡ some a
          → c.replay.event_idx ≤ a.end
          → ((c.replay.event_idx == a.end) ≡ true) ⊎ ((c.replay.event_idx == a.end) ≡ false)
          → IsReplayable c.recording (
              if c.replay.event_idx == a.end
              then record c.replay { active = false }
              else record c.replay { event_idx = c.replay.event_idx + 1 })
      advance a at le (inl e) = rw e (λ on. cc)
      advance a at le (inr e) = rw e (λ on. (a, at, ground (arith, le, e)))

  handle_alias_ok :
      (event : Event) (c : Ctx P H) → Good c → Ensures (λ _ c'. Good c') (handle_alias event c)
  unfolding handle_alias
  handle_alias_ok event c g =
      go (find_anchor c.recording.complete event.alias_of (length c.recording.complete)) refl
    where
      go :
          (o : Option ℕ)
          → find_anchor c.recording.complete event.alias_of (length c.recording.complete) ≡ o
          → Ensures (λ _ c'. Good c') (handle_alias event c)
      go none e = rw (e, handle_alias) tt
      go (some i) e =
          let found : IsLast c.recording.complete event.alias_of (length c.recording.complete) i =
            rw e at (
              find_anchor_lem c.recording.complete event.alias_of (length c.recording.complete)
                (omega arith)) in
          let (a, at, _) = found.1 in
          rw (e, handle_alias, at)
            (
              g.0,
              λ on. (
                a,
                at,
                (All-get_elem? (Closed (length c.recording.events)) c.recording.complete i a
                    g.0.complete_ok at).0,
              ),
            )

module _ {P H : Type 0} (parse : P → Option (Event × P)) where
  fetch_ok : (c : Ctx P H) → Good c → Ensures (λ _ c'. Good c') (fetch parse c)
  unfolding fetch
  fetch_ok c g = go (parse c.parser) refl
    where
      go : (o : Option (Event × P)) → parse c.parser ≡ o → Ensures (λ _ c'. Good c') (fetch parse c)
      go none e = rw (e, fetch) tt
      go (some (event, p)) e = elim (Bool-cases (is_alias event.type)) [
        | inr a ↦ rw (e, fetch, a) g
        | inl a ↦ elim (Bool-cases (no_alias c)) [
          | inl n ↦ rw (e, fetch, a, n) tt
          | inr n ↦
              rw (e, fetch, a, n)
                (Ensures-bind (λ _ c'. Good c') (λ _ c'. Good c') (handle_alias event)
                  (λ _. modify delete_yaml_event) _ (handle_alias_ok event _ g) (λ _ c' _ k. k))
        ]
      ]

module _ {P H : Type 0} (parse : P → Option (Event × P)) (realloc : H → ℕ → Bool × H)
    (event_size : ℕ) where
  -- The event to record, and its index if it is replayed.
  abbrev Delivered : Option ℕ → Ctx P H → Type 0
  Delivered replayed c = Good c × ((i : ℕ) → replayed ≡ some i → i < length c.recording.events)

  next_parsed_ok :
      (c : Ctx P H) → Good c → Ensures (λ _ c'. Good c') (next_parsed parse realloc event_size c)
  next_parsed_ok c g =
      Ensures-if (λ _ (c' : Ctx P H). Good c') c.replay.active _ _ (λ _. g)
        (λ _. fetch_ok parse c g)

  next_replayed_ok :
      (c : Ctx P H) → Good c → Ensures Delivered (next_replayed parse realloc event_size c)
  next_replayed_ok c g =
      Ensures-if Delivered c.replay.active _ _
        (λ on.
          Ensures-bind (λ i (c' : Ctx P H). Good c' × (i < length c'.recording.events)) Delivered
            handle_replay _ c (handle_replay_ok c g on)
            (λ i c' _ (g', lt). (g', λ j e. ground (arith, lt, e))))
        (λ _. (g, λ j e. cc))

  -- From a good state the call returns an event or an error, never with an access out of range, and
  -- a normal return leaves a good state.
  pub get_next_event-Good :
      (c : Ctx P H) → Good c → Ensures (λ _ c'. Good c') (get_next_event parse realloc event_size c)
  unfolding get_next_event
  get_next_event-Good c g =
      Ensures-bind (λ _ (c' : Ctx P H). Good c') (λ _ (c' : Ctx P H). Good c')
        (next_parsed parse realloc event_size) _ (delete_yaml_event c)
        (next_parsed_ok (delete_yaml_event c) g)
        (λ _ c' _ g'.
          Ensures-bind Delivered (λ _ (c'' : Ctx P H). Good c'')
            (next_replayed parse realloc event_size) _ c' (next_replayed_ok c' g')
            (λ replayed c'' _ (g'', lt).
              Ensures-if (λ _ (c3 : Ctx P H). Good c3) (no_alias c'') _ _ (λ _. g'')
                (λ _. handle_record_ok realloc event_size c''.event replayed c'' g'' lt)))
