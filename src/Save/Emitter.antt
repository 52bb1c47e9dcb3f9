-- ===== src/Save/Emitter.antt =====
-- src/save.c, the events that are handed to libyaml's emitter.
--
-- What the saving functions are given and only read is the record `Saver`: the configuration, the
-- client's memory and schemas, and the operations of libyaml's emitter and of the client's allocator
-- over a state `W` of theirs. `false` is libyaml's answer 0, and an allocation that fails.
use libcyaml.Base.{ℕ, Bool, if◌then◌else◌}
use libcyaml.Errors.{libyaml_emitter, libyaml_event_init}
use libcyaml.Outcome.{done, failed, M}
use libcyaml.Schema.{Bytes, SchemaValue, SchemaRef, Config}
use libcyaml.Memory.{Memory, Host}
use libcyaml.Save.Style.{CollectionStyle, ScalarStyle, get_emit_style_scalar}

-- `YAML_INT_TAG` and the other tags of a scalar.
pub data Tag : Type 0 where
  int_tag bool_tag float_tag str_tag : Tag

-- The libyaml events that src/save.c initialises, with the arguments that vary. A collection has the
-- tag of its kind.
pub data OutEvent : Type 0 where
  stream_start stream_end : OutEvent
  document_start document_end : Bool → OutEvent
  mapping_start sequence_start : CollectionStyle → OutEvent
  mapping_end sequence_end : OutEvent
  scalar : Bytes → Tag → ScalarStyle → OutEvent

pub record Saver (W : Type 0) : Type 0 where
  pub config : Config
  pub host : Host
  pub memory : Memory
  pub schemas : SchemaRef → SchemaValue
  -- `sprintf` of `%g` and of `%.16e` on the bits of a double, and a float as a double.
  pub print_g : ℕ → Bytes
  pub print_e : ℕ → Bytes
  pub widen : ℕ → ℕ
  pub event_initialize : OutEvent → W → Bool × W
  pub emitter_emit : OutEvent → W → Bool × W
  pub emitter_flush : W → Bool × W
  -- Asked for the bytes of the whole array.
  pub realloc : ℕ → W → Bool × W

module _ {W : Type 0} (s : Saver W) where
  -- `cyaml__emit_event_helper`
  unfoldable pub emit_event_helper : Bool → OutEvent → M W (Unit {0})
  emit_event_helper valid event w =
      let (emitted, w') = s.emitter_emit event w in
      if valid
      then (if emitted then done tt w' else failed libyaml_emitter w')
      else failed libyaml_event_init w

  -- An event is initialised and emitted.
  unfoldable pub emit : OutEvent → M W (Unit {0})
  unfolding emit_event_helper
  emit event w = let (valid, w') = s.event_initialize event w in emit_event_helper valid event w'

  -- `cyaml__emit_scalar`
  unfoldable pub emit_scalar : SchemaValue → Bytes → Tag → M W (Unit {0})
  unfolding emit get_emit_style_scalar
  emit_scalar schema value tag = emit (scalar value tag (get_emit_style_scalar schema))
