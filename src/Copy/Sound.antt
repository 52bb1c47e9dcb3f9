-- ===== src/Copy/Sound.antt =====
-- The states of the copying machine of src/copy.c that its functions are meant to keep: what is on the
-- stack, and a part of the memory that copying does not write to, below the address `low`.
use libcyaml.Base.{ℕ, suc, ◌≤◌, ◌<◌, ◌≡◌, Bool, true, false, some, List, [], ◌∷◌}
use libcyaml.Base.{get_elem?}
use libcyaml.Schema.{SchemaType, Field}
use libcyaml.Memory.{Memory}
use libcyaml.Strings.{State}
use libcyaml.Copy.Stack.{Frame, Copier}

-- Whether a terminator ends a string is not known from the schema.
abbrev pub is_text : SchemaType → Bool
is_text SchemaType.string = true
is_text _ = false

abbrev pub is_inner : State → Bool
is_inner State.in_map_key = true
is_inner State.in_sequence = true
is_inner _ = false

-- Where the count of a sequence is found, it has a size that can be written.
abbrev pub HasCount : Frame → State → Type 0
HasCount f State.start = Unit
HasCount f State.in_sequence = Unit
HasCount f State.in_map_key =
    (i : ℕ) × (g : Field) × (f.field ≡ suc i)
    × (get_elem? f.schema.mapping.fields i ≡ some g)
    × (0 < g.count_size)
    × (g.count_size ≤ 8)
HasCount f _ = ⊥

module _ (low : ℕ) where
  abbrev pub IsFrame : Frame → Type 0
  IsFrame f = (low ≤ f.copy_at) × (is_text f.schema.type ≡ false)

  -- The first frame is the start, all others are mappings and sequences.
  abbrev pub IsStack : List Frame → Type 0
  IsStack [] = ⊥
  IsStack (f ∷ []) = (f.state ≡ State.start) × IsFrame f
  IsStack (f ∷ g ∷ rest) = (is_inner f.state ≡ true) × IsFrame f × IsStack (g ∷ rest)

  -- The memory below is as it was.
  abbrev pub Kept : Memory → Memory → Type 0
  Kept m0 m = (x : ℕ) → x < low → m x ≡ m0 x

-- Blocks and the variable for the top-level count lie at `low` or above, and no schema that is
-- referred to is a string.
pub record IsCopier {H : Type 0} (l : Copier H) (low : ℕ) : Type 0 where
  pub blocks : (h : H) (n p : ℕ) → (l.allocate h n).0 ≡ some p → low ≤ p
  pub counts : low ≤ l.count_variable
  pub texts : (r : ℕ) → is_text (l.schemas r).type ≡ false
