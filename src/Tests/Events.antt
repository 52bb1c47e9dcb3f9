-- ===== src/Tests/Events.antt =====
-- Runs of the event context, with a list of events as the parser and an allocator that never fails.
use libcyaml.Base.{ℕ, ◌+◌, ◌≡◌, refl, Bool, true, false, Option, none, some, List, [], ◌∷◌}
use libcyaml.Outcome.{Leads, done, failed, fault, Ensures}
use libcyaml.Load.Events.{EventType, Event, Recording, Ctx, get_next_event, handle_alias}
use libcyaml.Load.Events.{find_anchor, same_name, fetch, handle_record, handle_anchor}
use libcyaml.Load.Events.{handle_anchor_named, event_anchor, allocate, record_data, record_index}
use libcyaml.Load.Events.{update_anchor_recordings, record_stack_push, record_stack_pop}
use libcyaml.Load.Events.Invariant.{Good}
use libcyaml.Load.Events.Total.{get_next_event-Good}
use libcyaml.Load.Events.Find.{Resolves, handle_alias_lem}
use libcyaml.Load.Events.Replay.{Delivers, deliver, deliver-alias}
use libcyaml.Load.Events.Recorded.{Adds, handle_record-Adds}
use libcyaml.Tests.Integers.{config}

abbrev pub from_list : List Event → Option (Event × List Event)
from_list [] = none
from_list (e ∷ es) = some (e, es)

abbrev pub granting : ℕ → ℕ → Bool × ℕ
granting h n = (true, h + n)

abbrev pub plain : EventType → Event
plain t = record { type = t; anchor = none; alias_of = []; value = [] }

abbrev anchored : EventType → Event
anchored t = record { type = t; anchor = some (0x61 ∷ []); alias_of = []; value = [] }

abbrev the_alias : Event
the_alias = record { type = EventType.alias; anchor = none; alias_of = 0x61 ∷ []; value = [] }

abbrev pub fresh : List Event → Ctx (List Event) ℕ
fresh es = record {
  config = config;
  parser = es;
  heap = 0;
  have_event = false;
  event = plain EventType.no_event;
  recording = record { complete = []; progress = []; data_ = []; events = []; stack = [] };
  replay = record { active = false; anchor_idx = 0; event_idx = 0 };
}

pub fresh-Good : (es : List Event) → Good (fresh es)
fresh-Good es =
    (record { complete_ok = tt; data_ok = tt; progress_ok = tt; nested = tt }, λ on. cc on)

-- An anchored sequence of one scalar has been recorded.
abbrev sequence : List Event
sequence = anchored EventType.seq_start ∷ plain EventType.scalar ∷ plain EventType.seq_end ∷ []

abbrev recorded : List Event → Ctx (List Event) ℕ
recorded es = record (fresh es) {
  recording = record {
    complete = record { name = 0x61 ∷ []; start = 0; end = 2 } ∷ [];
    progress = [];
    data_ = sequence;
    events = 0 ∷ 1 ∷ 2 ∷ [];
    stack = [];
  };
}

-- The recording that three calls make.
records_sequence :
    (elim (deliver from_list granting 104 3 (fresh sequence)) as (λ x. Option Recording) [
      | done es c ↦ some c.recording
      | failed e c ↦ none
      | fault ↦ none
    ])
    ≡ some (recorded []).recording
unfolding get_next_event fetch handle_record handle_anchor handle_anchor_named event_anchor allocate
    record_data record_index update_anchor_recordings record_stack_push record_stack_pop
records_sequence = refl

get_next_event-Good_example :
    Ensures
      (λ _ (c' : Ctx (List Event) ℕ). Good c')
      (get_next_event from_list granting 104 (fresh sequence))
get_next_event-Good_example =
    get_next_event-Good from_list granting 104 (fresh sequence) (fresh-Good sequence)

handle_alias_lem_example : Resolves the_alias (recorded []) (handle_alias the_alias (recorded []))
handle_alias_lem_example = handle_alias_lem the_alias (recorded [])

deliver-alias_example :
    Delivers from_list granting 104
      (recorded [])
      sequence
      (deliver from_list granting 104 3 (recorded (the_alias ∷ [])))
unfolding find_anchor same_name
deliver-alias_example =
    deliver-alias from_list granting 104 (recorded (the_alias ∷ [])) the_alias [] 0
      (record { name = 0x61 ∷ []; start = 0; end = 2 }) (anchored EventType.seq_start)
      (plain EventType.scalar ∷ plain EventType.seq_end ∷ []) refl refl refl refl refl refl refl
      refl ((0, refl, refl), ((1, refl, refl), ((2, refl, refl), tt)))

handle_record-Adds_example :
    Leads
      (λ _ (c' : Ctx (List Event) ℕ).
        Adds granting 104 (fresh []).recording (anchored EventType.scalar) c')
      (handle_record granting 104 (anchored EventType.scalar) none (fresh []))
unfolding event_anchor
handle_record-Adds_example =
    handle_record-Adds granting 104 (anchored EventType.scalar) (fresh []) refl
