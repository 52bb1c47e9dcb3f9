-- ===== src/Load/Events/Replay.antt =====
-- An alias and its replay in src/load.c: the events that the event context delivers after it.
use mathlib.Core.Path.{subst}
use libcyaml.Base.{ℕ, zero, suc, ◌+◌, ◌≡◌, ◌≢◌, refl, sym, ap, ◌∙◌, arith}
use libcyaml.Base.{Bool, true, false, Option, some, List, [], ◌∷◌, length}
use libcyaml.Base.{get_elem?, ==-ne, eq→==, ◌==◌, if◌then◌else◌}
use libcyaml.Outcome.{Outcome, done, M, ◌>>=◌, ◌>>◌, return, gets, modify, bind_done, bind_same}
use libcyaml.Load.Events.{Event, Anchor, Recording, Ctx, handle_replay, handle_alias}
use libcyaml.Load.Events.{get_next_event, handle_record, no_alias, find_anchor}
use libcyaml.Load.Events.{delete_yaml_event, next_replayed, next_parsed, fetch, is_alias}

-- The events recorded from the index `k` on begin with the given ones.
abbrev pub Reads : Recording → ℕ → List Event → Type 0
Reads r k [] = Unit
Reads r k (e ∷ es) =
    ((d : ℕ) × (get_elem? r.events k ≡ some d) × (get_elem? r.data_ d ≡ some e))
    × Reads r (k + 1) es

module _ {P H : Type 0} (parse : P → Option (Event × P)) (realloc : H → ℕ → Bool × H)
    (event_size : ℕ) where
  -- The events that `n` calls of the event context deliver.
  abbrev pub deliver : ℕ → M (Ctx P H) (List Event)
  deliver zero = return []
  deliver (suc n) = do
    get_next_event parse realloc event_size
    e ← gets (λ c. c.event)
    es ← deliver n
    return (e ∷ es)

  -- The context with a replay that runs or not, and the given open anchors.
  abbrev set_replay : Ctx P H → Bool → List Anchor → Ctx P H
  set_replay c active progress = record c {
    recording = record c.recording { progress = progress };
    replay = record c.replay { active = active };
  }

  -- The context after the replay's event `e`.
  abbrev advanced : Ctx P H → Anchor → Event → Ctx P H
  advanced c a e = record c {
    have_event = false;
    event = e;
    replay =
        if c.replay.event_idx == a.end
        then record c.replay { active = false }
        else record c.replay { event_idx = c.replay.event_idx + 1 };
  }

  handle_replay_step :
      (c : Ctx P H) (a : Anchor) (d : ℕ) (e : Event)
      → get_elem? c.recording.complete c.replay.anchor_idx ≡ some a
      → get_elem? c.recording.events c.replay.event_idx ≡ some d
      → get_elem? c.recording.data_ d ≡ some e
      → handle_replay (set_replay (delete_yaml_event c) true [])
        ≡ done c.replay.event_idx (advanced (set_replay c true []) a e)
  unfolding handle_replay
  handle_replay_step c a d e at atd ate = rw (at, handle_replay, atd, ate) refl

  replay_step :
      (c : Ctx P H) (a : Anchor) (d : ℕ) (e : Event)
      → no_alias c ≡ false
      → get_elem? c.recording.complete c.replay.anchor_idx ≡ some a
      → get_elem? c.recording.events c.replay.event_idx ≡ some d
      → get_elem? c.recording.data_ d ≡ some e
      → get_next_event parse realloc event_size (set_replay c true [])
        ≡ done tt (advanced (set_replay c true []) a e)
  unfolding get_next_event handle_record
  replay_step c a d e n at atd ate =
      bind_done (next_replayed parse realloc event_size) _
        (set_replay (delete_yaml_event c) true [])
        (bind_done handle_replay _ (set_replay (delete_yaml_event c) true [])
          (handle_replay_step c a d e at atd ate))
      ∙ rw n refl

  -- The result of delivering `es` from `c`: the replay has ended, nothing was read from libyaml, and
  -- the recording is the same.
  abbrev pub Delivers : Ctx P H → List Event → Outcome (Ctx P H) (List Event) → Type 0
  Delivers c es o =
      (c' : Ctx P H) × (o ≡ done es c')
      × (c'.replay.active ≡ false)
      × (c'.parser ≡ c.parser)
      × (c'.recording ≡ c.recording)

  deliver_step :
      (n : ℕ) (c c' : Ctx P H) (es : List Event)
      → get_next_event parse realloc event_size c ≡ done tt c'
      → (r : Delivers c' es (deliver n c')) → deliver (suc n) c ≡ done (c'.event ∷ es) r.0
  deliver_step n c c' es e (c'', e', _, _, _) =
      bind_done (get_next_event parse realloc event_size) _ c e ∙ bind_done (deliver n) _ c' e'

  last_step :
      (c : Ctx P H) (a : Anchor) (e : Event)
      → c.replay.event_idx ≡ a.end
      → advanced (set_replay c true []) a e
        ≡ record (set_replay c false []) { have_event = false; event = e }
  last_step c a e at = rw (eq→== _ _ at) refl

  next_step :
      (c : Ctx P H) (a : Anchor) (e : Event)
      → c.replay.event_idx ≢ a.end
      → advanced (set_replay c true []) a e
        ≡ set_replay
            (record c {
              have_event = false;
              event = e;
              replay = record c.replay { event_idx = c.replay.event_idx + 1 };
            })
            true
            []
  next_step c a e ne = rw (==-ne _ _ ne) refl

  deliver_all :
      (es : List Event) (e : Event) (c : Ctx P H) (a : Anchor)
      → no_alias c ≡ false
      → get_elem? c.recording.complete c.replay.anchor_idx ≡ some a
      → c.replay.event_idx + length es ≡ a.end
      → Reads c.recording c.replay.event_idx (e ∷ es)
      → Delivers (set_replay c true []) (e ∷ es) (deliver (suc (length es)) (set_replay c true []))
  deliver_all [] e c a n at len ((d, atd, ate), _) = (
    record (set_replay c false []) { have_event = false; event = e },
    deliver_step 0 _ _ []
        (replay_step c a d e n at atd ate ∙ ap (done tt) (last_step c a e (omega (arith, len))))
        (_, refl, refl, refl, refl),
    refl,
    refl,
    refl,
  )
  deliver_all (e' ∷ es) e c a n at len ((d, atd, ate), more) =
      let c1 = record c {
        have_event = false;
        event = e;
        replay = record c.replay { event_idx = c.replay.event_idx + 1 };
      } in
      let rest = deliver_all es e' c1 a n at (omega (arith, len)) more in
      (
        rest.0,
        deliver_step (suc (length es)) _ _ (e' ∷ es)
            (replay_step c a d e n at atd ate
              ∙ ap (done tt) (next_step c a e (λ q. omega (arith, len, q))))
            rest,
        rest.2,
        rest.3,
        rest.4,
      )

  -- The context in which the alias has been resolved.
  abbrev resolved : Ctx P H → Event → P → ℕ → Anchor → Ctx P H
  resolved c event p i a = record c {
    parser = p;
    have_event = false;
    event = event;
    replay = record { active = true; anchor_idx = i; event_idx = a.start };
  }

  abbrev received : Ctx P H → Event → P → Ctx P H
  received c event p =
      set_replay (record c { parser = p; have_event = true; event = event }) false []

  handle_alias_step :
      (c : Ctx P H) (event : Event) (i : ℕ) (a : Anchor)
      → find_anchor c.recording.complete event.alias_of (length c.recording.complete) ≡ some i
      → get_elem? c.recording.complete i ≡ some a
      → handle_alias event c
        ≡ done tt
            (record c { replay = record { active = true; anchor_idx = i; event_idx = a.start } })
  unfolding handle_alias
  handle_alias_step c event i a at ata = rw (at, handle_alias, ata) refl

  alias_step :
      (c : Ctx P H) (event : Event) (p : P) (i : ℕ) (a : Anchor)
      → no_alias c ≡ false
      → parse c.parser ≡ some (event, p)
      → is_alias event.type ≡ true
      → find_anchor c.recording.complete event.alias_of (length c.recording.complete) ≡ some i
      → get_elem? c.recording.complete i ≡ some a
      → get_next_event parse realloc event_size (set_replay c false [])
        ≡ get_next_event parse realloc event_size (set_replay (resolved c event p i a) true [])
  unfolding get_next_event fetch
  alias_step c event p i a n got is at ata =
      bind_done (next_parsed parse realloc event_size) _ (set_replay (delete_yaml_event c) false [])
        (fetched
          ∙ bind_done (handle_alias event) _ (received c event p)
              (handle_alias_step (received c event p) event i a at ata))
    where
      fetched :
          fetch parse (set_replay (delete_yaml_event c) false [])
          ≡ (handle_alias event >>= λ _. modify delete_yaml_event) (received c event p)
      fetched = rw (got, fetch, is, n) refl

  standing :
      (c : Ctx P H)
      → c.replay.active ≡ false
      → c.recording.progress ≡ []
      → c ≡ set_replay c false []
  standing c off none_ =
      ap (λ b. set_replay c b c.recording.progress) off ∙ ap (λ ps. set_replay c false ps) none_

  deliver_resolved :
      (c : Ctx P H) (event : Event) (p : P) (i : ℕ) (a : Anchor) (e : Event) (es : List Event)
      → no_alias c ≡ false
      → parse c.parser ≡ some (event, p)
      → is_alias event.type ≡ true
      → find_anchor c.recording.complete event.alias_of (length c.recording.complete) ≡ some i
      → get_elem? c.recording.complete i ≡ some a
      → a.start + length es ≡ a.end
      → Reads c.recording a.start (e ∷ es)
      → Delivers
          (record (set_replay c false []) { parser = p })
          (e ∷ es)
          (deliver (suc (length es)) (set_replay c false []))
  deliver_resolved c event p i a e es n got is at ata len rs =
      let rest = deliver_all es e (resolved c event p i a) a n ata len rs in
      (
        rest.0,
        bind_same (get_next_event parse realloc event_size) _ _ _
              (alias_step c event p i a n got is at ata)
            ∙ rest.1,
        rest.2,
        rest.3,
        rest.4,
      )

  -- An alias delivers the events that were recorded from the start to the end of the last complete
  -- anchor with its name: where libyaml's next event is an alias of that name, aliases are allowed
  -- and nothing is being recorded or replayed, as many calls as the anchor has events return these
  -- events in their order; after them no replay runs, libyaml was asked for one event only, and the
  -- recording is as it was.
  pub deliver-alias :
      (c : Ctx P H) (event : Event) (p : P) (i : ℕ) (a : Anchor) (e : Event) (es : List Event)
      → no_alias c ≡ false
      → parse c.parser ≡ some (event, p)
      → is_alias event.type ≡ true
      → c.replay.active ≡ false
      → c.recording.progress ≡ []
      → find_anchor c.recording.complete event.alias_of (length c.recording.complete) ≡ some i
      → get_elem? c.recording.complete i ≡ some a
      → a.start + length es ≡ a.end
      → Reads c.recording a.start (e ∷ es)
      → Delivers (record c { parser = p }) (e ∷ es) (deliver (suc (length es)) c)
  deliver-alias c event p i a e es n got is off none_ at ata len rs =
      subst (λ x. Delivers (record x { parser = p }) (e ∷ es) (deliver (suc (length es)) x))
        (sym (standing c off none_)) (deliver_resolved c event p i a e es n got is at ata len rs)
