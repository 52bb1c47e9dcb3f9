-- ===== src/Load/Machine/Sound.antt =====
-- The states of the loading machine of src/load.c that its functions are meant to keep: what is on the
-- stack, frame by frame, and the schemas that loading can follow on it.
use libcyaml.Base.{ℕ, ◌-◌, ◌*◌, ◌^◌, ◌≤◌, ◌<◌, ◌≡◌, Bool, true, false, List, [], ◌∷◌, length, All}
use libcyaml.Schema.{SchemaType, SchemaValue, Config}
use libcyaml.Strings.{State, is_case_sensitive}
use libcyaml.Load.Events.Invariant.{Good}
use libcyaml.Load.Stack.{Frame, LoadCtx, Loader}

-- By the type: flags and bit fields have sizes for which no shift is undefined, the fields of a mapping
-- can be counted, and there is no truth value, whose text is compared without regard to case.
abbrev pub IsSoundType : SchemaValue → SchemaType → Type 0
IsSoundType schema SchemaType.flags = (0 < schema.data_size) × (schema.data_size ≤ 8)
IsSoundType schema SchemaType.bitfield =
    (schema.data_size ≤ 8) × All (λ b. 0 < b.bits) schema.bitfield.bitdefs
IsSoundType schema SchemaType.mapping = length schema.mapping.fields < 2 ^ 16 - 1
IsSoundType schema SchemaType.bool = ⊥
IsSoundType schema _ = Unit

abbrev pub IsSound : Config → SchemaValue → Type 0
IsSound config schema = (is_case_sensitive config schema ≡ true) × IsSoundType schema schema.type

-- States in which a value is read, and which state may stand on which.
abbrev pub takes_value : State → Bool
takes_value State.in_doc = true
takes_value State.in_map_key = true
takes_value State.in_sequence = true
takes_value _ = false

abbrev pub is_state_start : State → Bool
is_state_start State.start = true
is_state_start _ = false

abbrev pub is_state_stream : State → Bool
is_state_stream State.in_stream = true
is_state_stream _ = false

abbrev pub rests : State → State → Bool
rests State.in_stream below = is_state_start below
rests State.in_doc below = is_state_stream below
rests State.in_map_key below = takes_value below
rests State.in_map_value below = takes_value below
rests State.in_sequence below = takes_value below
rests _ below = false

-- The fields of a mapping can be counted, and the words of its bit field are enough for them.
abbrev pub HasWords : Frame → Type 0
HasWords f =
    (length f.schema.mapping.fields < 2 ^ 16 - 1)
    × (length f.schema.mapping.fields ≤ 32 * length f.fields_set)

-- A frame of a state: the fields of a mapping can be marked, the field whose value is expected exists,
-- a sequence has at most as many entries as its schema allows, a stream at most one document.
abbrev pub IsInState : Frame → State → Type 0
IsInState f State.start = Unit
IsInState f State.in_stream = f.doc_count ≤ 1
IsInState f State.in_doc = Unit
IsInState f State.in_map_key = HasWords f
IsInState f State.in_map_value = HasWords f × (f.fields_idx < length f.schema.mapping.fields)
IsInState f State.in_sequence = f.count ≤ f.schema.sequence.max
IsInState f State.invalid = ⊥

module _ (config : Config) where
  abbrev pub IsFrame : Frame → Type 0
  IsFrame f = IsSound config f.schema × IsInState f f.state

  -- The frames below one of a state.
  abbrev pub Under : State → List Frame → Type 0
  Under s [] = s ≡ State.start
  Under s (f ∷ rest) = (rests s f.state ≡ true) × IsFrame f × Under f.state rest

  abbrev pub IsStack : List Frame → Type 0
  IsStack [] = ⊥
  IsStack (f ∷ rest) = IsFrame f × Under f.state rest

  -- The top of the stack is a state in which a value is read.
  abbrev pub Reads : List Frame → Type 0
  Reads [] = ⊥
  Reads (f ∷ rest) =
      (takes_value f.state ≡ true)
      × (f.state ≡ State.in_map_key → f.fields_idx < length f.schema.mapping.fields)

module _ {P H : Type 0} where
  -- The event context is good, and the stack is as given; and both are good.
  abbrev pub Keeps {κ} : {A : Type κ} → List Frame → A → LoadCtx P H → Type 0
  Keeps st a c = Good c.loading.context × (c.stack ≡ st)

  abbrev pub Holds {κ} : {A : Type κ} → Config → A → LoadCtx P H → Type 0
  Holds config a c = Good c.loading.context × IsStack config c.stack

-- What loading asks of what it is given: sound schemas, and none with a default that `cyaml_copy` makes.
pub record IsLoader {P H : Type 0} (l : Loader P H) : Type 0 where
  pub sound : (r : ℕ) → IsSound l.config (l.schemas r)
  pub no_copies :
      (r : ℕ) → ((l.schemas r).mapping.missing ≡ 0) × ((l.schemas r).sequence.missing ≡ 0)
