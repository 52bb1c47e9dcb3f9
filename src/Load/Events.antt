-- ===== src/Load/Events.antt =====
-- src/load.c, the event context: the next event comes from libyaml, or from the replay of what was
-- recorded for an anchor, and it is recorded while an anchor is open.
--
-- The arrays `complete`, `data` and `events` are lists in the order of their indices; `progress`
-- and `stack`, which are used at their end only, are lists with the last entry first. libyaml's
-- parser is the parameter `parse`, the client's allocator the parameter `realloc`, asked for the
-- bytes of the whole array; `event_size` is `sizeof(yaml_event_t)`. Log messages are left out.
pub mod Invariant
pub mod Updates
pub mod Records
pub mod Find
pub mod Total
pub mod Recorded
pub mod Replay
use libcyaml.Base.{ℕ, zero, suc, ◌+◌, ◌*◌, Bool, true, false, not, ◌&&◌, ◌||◌, Option, none, some}
use libcyaml.Base.{List, [], ◌∷◌, ◌++◌, length, get_elem?, ◌==◌, if◌then◌else◌, bit_and}
use libcyaml.Errors.{Err, oom, libyaml_parser, invalid_alias}
use libcyaml.Errors
use libcyaml.Outcome.{Outcome, done, failed, fault, M, ◌>>=◌, ◌>>◌, return, raise, undefined}
use libcyaml.Outcome.{gets, modify, if_then}
use libcyaml.Schema.{Bytes, Config}
use libcyaml.Schema.CfgFlag

-- `cyaml_event_t`
pub data EventType : Type 0 where
  no_event strm_start strm_end doc_start doc_end alias scalar : EventType
  seq_start seq_end map_start map_end : EventType

-- `yaml_event_t`, as far as it is read: the anchor of a scalar, sequence or mapping, the name of an
-- alias, the text of a scalar.
pub record Event : Type 0 where
  pub type : EventType
  pub anchor : Option Bytes
  pub alias_of : Bytes
  pub value : Bytes

-- `cyaml_anchor_t`; the length of the name is that of the list.
pub record Anchor : Type 0 where
  pub name : Bytes
  pub start : ℕ
  pub end : ℕ

-- `cyaml_event_record_t`
pub record Recording : Type 0 where
  pub complete : List Anchor
  pub progress : List Anchor
  pub data_ : List Event
  pub events : List ℕ
  pub stack : List ℕ

-- `cyaml_event_replay_t`
pub record Replaying : Type 0 where
  pub active : Bool
  pub anchor_idx : ℕ
  pub event_idx : ℕ

-- The part of `cyaml_ctx_t` that these functions use.
pub record Ctx (P H : Type 0) : Type 0 where
  pub config : Config
  pub parser : P
  pub heap : H
  pub have_event : Bool
  pub event : Event
  pub recording : Recording
  pub replay : Replaying

-- `cyaml__get_yaml_event_anchor`, by the event's type.
unfoldable pub event_anchor : EventType → Option Bytes → Option Bytes
event_anchor scalar a = a
event_anchor map_start a = a
event_anchor seq_start a = a
event_anchor _ a = none

abbrev pub starts_collection : EventType → Bool
starts_collection seq_start = true
starts_collection map_start = true
starts_collection _ = false

abbrev pub is_alias : EventType → Bool
is_alias alias = true
is_alias _ = false

-- Equal lengths and `memcmp(...) == 0`.
unfoldable pub same_name : Bytes → Bytes → Bool
same_name [] [] = true
same_name [] (y ∷ ys) = false
same_name (x ∷ xs) [] = false
same_name (x ∷ xs) (y ∷ ys) = x == y && same_name xs ys

-- `for (uint32_t i = count; i > 0; i--)`: the index of the last anchor with the name.
unfoldable pub find_anchor : List Anchor → Bytes → ℕ → Option ℕ
find_anchor complete name zero = none
find_anchor complete name (suc i) =
    let rest = find_anchor complete name i in
    elim (get_elem? complete i) [
      | none ↦ rest
      | some a ↦ if same_name a.name name then some i else rest
    ]

abbrev pub anchor_size : ℕ
anchor_size = 24

module _ {P H : Type 0} where
  -- `cyaml__handle_alias`
  unfoldable pub handle_alias : Event → M (Ctx P H) (Unit {0})
  handle_alias event c =
      let r = c.recording in
      elim (find_anchor r.complete event.alias_of (length r.complete)) [
        | none ↦ failed invalid_alias c
        | some i ↦ elim (get_elem? r.complete i) [
          | none ↦ fault
          | some a ↦
              done tt (record c {
                replay = record { active = true; anchor_idx = i; event_idx = a.start };
              })
        ]
      ]

  -- The end of `cyaml__handle_anchor`, on the anchor that was added.
  abbrev pub start_anchor : Ctx P H → Bytes → Anchor
  start_anchor c name = record {
    name = name;
    start = length c.recording.events;
    end = length c.recording.events;
  }

  abbrev pub add_progress : Anchor → Ctx P H → Ctx P H
  add_progress a c =
      let r = c.recording in record c { recording = record r { progress = a ∷ r.progress } }

  abbrev pub add_complete : Anchor → Ctx P H → Ctx P H
  add_complete a c =
      let r = c.recording in record c { recording = record r { complete = r.complete ++ (a ∷ []) } }

  abbrev pub recording_none : Ctx P H → Bool
  recording_none c = elim c.recording.progress [ [] ↦ true | a ∷ rest ↦ false ]

  -- `cyaml__handle_replay`: the index of the event that it delivers.
  unfoldable pub handle_replay : M (Ctx P H) ℕ
  handle_replay c =
      let r = c.recording in
      let i = c.replay.event_idx in
      elim (get_elem? r.complete c.replay.anchor_idx) [
        | none ↦ fault
        | some a ↦ elim (get_elem? r.events i) [
          | none ↦ fault
          | some d ↦ elim (get_elem? r.data_ d) [
            | none ↦ fault
            | some e ↦
                let p = c.replay in
                done i (record c {
                  event = e;
                  replay =
                      if i == a.end
                      then record p { active = false }
                      else record p { event_idx = i + 1 };
                })
          ]
        ]
      ]

  -- `cyaml__delete_yaml_event`
  abbrev pub delete_yaml_event : Ctx P H → Ctx P H
  delete_yaml_event c = record c { have_event = false }

  abbrev pub no_alias : Ctx P H → Bool
  no_alias c = not (bit_and c.config.flags CfgFlag.no_alias == 0)

module _ {P H : Type 0} (realloc : H → ℕ → Bool × H) where
  -- `cyaml__realloc` of an array; `CYAML_ERR_OOM` if there is no memory.
  unfoldable pub allocate : ℕ → M (Ctx P H) (Unit {0})
  allocate bytes c =
      let (got, h) = realloc c.heap bytes in
      if got then done tt (record c { heap = h }) else failed oom (record c { heap = h })

  -- `cyaml__handle_anchor`: whether the event has an anchor. A name that cannot be copied is left
  -- empty, in the place of NULL.
  unfoldable pub handle_anchor_named : EventType → Option Bytes → M (Ctx P H) Bool
  handle_anchor_named t none c = done false c
  handle_anchor_named t (some name) c =
      let add = if starts_collection t then add_progress else add_complete in
      let count =
        if starts_collection t then length c.recording.progress else length c.recording.complete in
      elim (allocate (count * anchor_size + anchor_size) c) [
        | done u c' ↦ elim (allocate (length name + 1) c') [
          | done u c'' ↦ done true (add (start_anchor c'' name) c'')
          | failed e c'' ↦ failed e (add (start_anchor c'' []) c'')
          | fault ↦ fault
        ]
        | failed e c' ↦ failed e c'
        | fault ↦ fault
      ]

  unfoldable pub handle_anchor : Event → M (Ctx P H) Bool
  unfolding handle_anchor_named event_anchor
  handle_anchor event = handle_anchor_named event.type (event_anchor event.type event.anchor)

  -- `cyaml__record_stack_push`
  unfoldable pub record_stack_push : ℕ → M (Ctx P H) (Unit {0})
  record_stack_push event_index = do
    count ← gets (λ c. length c.recording.stack)
    allocate (count * 4 + 4)
    modify λ c.
        let r = c.recording in record c { recording = record r { stack = event_index ∷ r.stack } }

  -- `cyaml__record_stack_pop`; the assertion that the stack is not empty is a fault here.
  unfoldable pub record_stack_pop : ℕ → M (Ctx P H) (Unit {0})
  record_stack_pop event_index c =
      let r = c.recording in
      elim r.stack [
        | [] ↦ fault
        | s ∷ stack ↦ elim r.progress [
          | [] ↦ fault
          | a ∷ progress ↦
              if a.start == s
              then (do
                modify λ c. record c {
                  recording = record r { progress = record a { end = event_index } ∷ progress };
                }
                allocate (length r.complete * anchor_size + anchor_size)
                modify λ c. record c {
                  recording = record r {
                    complete = r.complete ++ (record a { end = event_index } ∷ []);
                    progress = progress;
                    stack = stack;
                  };
                })
                  c
              else done tt (record c { recording = record r { stack = stack } })
        ]
      ]

  -- `cyaml__update_anchor_recordings`
  unfoldable pub update_anchor_recordings : ℕ → EventType → M (Ctx P H) (Unit {0})
  unfolding record_stack_push record_stack_pop
  update_anchor_recordings event_index seq_start = record_stack_push event_index
  update_anchor_recordings event_index map_start = record_stack_push event_index
  update_anchor_recordings event_index seq_end = record_stack_pop event_index
  update_anchor_recordings event_index map_end = record_stack_pop event_index
  update_anchor_recordings event_index _ = return tt

  -- `cyaml__handle_record`, its last part: the index of the event's data is recorded.
  unfoldable pub record_index : ℕ → Event → M (Ctx P H) (Unit {0})
  unfolding update_anchor_recordings
  record_index event_index event = do
    events_count ← gets (λ c. length c.recording.events)
    allocate (events_count * 4 + 4)
    modify λ c.
        let r = c.recording in
        record c { recording = record r { events = r.events ++ (event_index ∷ []) } }
    update_anchor_recordings events_count event.type

module _ {P H : Type 0} (realloc : H → ℕ → Bool × H) (event_size : ℕ) where
  -- The event's data is recorded.
  unfoldable pub record_data : Event → M (Ctx P H) (Unit {0})
  unfolding record_index
  record_data event = do
    data_count ← gets (λ c. length c.recording.data_)
    allocate realloc (data_count * event_size + event_size)
    modify λ c.
        let r = c.recording in
        record c { recording = record r { data_ = r.data_ ++ (event ∷ []) }; have_event = false }
    record_index realloc data_count event

  -- `cyaml__handle_record`; `some i` is a replayed event, at index `i`.
  unfoldable pub handle_record : Event → Option ℕ → M (Ctx P H) (Unit {0})
  unfolding record_index record_data handle_anchor
  handle_record event (some i) c =
      if recording_none c then done tt c else elim (get_elem? c.recording.events i) [
        | none ↦ fault
        | some event_index ↦ record_index realloc event_index event c
      ]
  handle_record event none c =
      (handle_anchor realloc event >>= λ event_has_anchor c'.
      if recording_none c' && not event_has_anchor then done tt c' else record_data event c')
        c

module _ {P H : Type 0} (parse : P → Option (Event × P)) where
  -- The first half of `cyaml_get_next_event`: an event from libyaml, an alias resolved.
  unfoldable pub fetch : M (Ctx P H) (Unit {0})
  unfolding handle_alias
  fetch c = elim (parse c.parser) [
    | none ↦ failed libyaml_parser c
    | some (event, p) ↦
        let c' = record c { parser = p; event = event; have_event = true } in
        if is_alias event.type
        then (if no_alias c'
            then failed Err.alias c'
            else (do handle_alias event; modify delete_yaml_event) c')
        else done tt c'
  ]

module _ {P H : Type 0} (parse : P → Option (Event × P)) (realloc : H → ℕ → Bool × H)
    (event_size : ℕ) where
  -- An event from libyaml, if no replay runs.
  abbrev pub next_parsed : M (Ctx P H) (Unit {0})
  next_parsed c = if c.replay.active then done tt c else fetch parse c

  -- The index of the event that the replay delivers, if one runs.
  abbrev pub next_replayed : M (Ctx P H) (Option ℕ)
  next_replayed c =
      if c.replay.active then (handle_replay >>= λ i. return (some i)) c else done none c

  abbrev pub record_event : Option ℕ → M (Ctx P H) (Unit {0})
  record_event replayed c =
      if no_alias c then done tt c else handle_record realloc event_size c.event replayed c

  -- `cyaml_get_next_event`
  unfoldable pub get_next_event : M (Ctx P H) (Unit {0})
  unfolding fetch handle_replay handle_record
  get_next_event = do
    modify delete_yaml_event
    next_parsed
    replayed ← next_replayed
    record_event replayed
