-- ===== src/Copy/Kept.antt =====
-- The loop of `cyaml_copy` of src/copy.c: what is on the stack and in the memory after it, on any data.
use libcyaml.Base.{
  ℕ, zero, suc, ◌+◌, ◌*◌, ◌%◌, ◌^◌, ◌≤◌, ◌≡◌, refl, ◌∙◌, arith, inl, inr, Bool, true, false, List,
  [], ◌∷◌, Bool-cases, ltb, some, get_elem?, length, if◌then◌else◌,
}
use libcyaml.Outcome.{◌>>=◌, ◌>>◌, return, Guards, Guards-bind, Guards-weaken, Option-cases}
use libcyaml.Schema.{SchemaValue, Field}
use libcyaml.Memory.{Memory}
use libcyaml.Strings.{State}
use libcyaml.Copy.Stack.{Frame, CopyCtx, Copier, new_frame, change_top, stack_pop, stack_push}
use libcyaml.Copy.Machine.{
  clone_start, clone_field, clone_mapping, clone_entry, clone_sequence, clone_state, run, copy_loop,
  seq_count_of, entry_size, fixed_count,
}
use libcyaml.Copy.Sound.{is_text, is_inner, IsStack, IsFrame, Kept, IsCopier}
use libcyaml.Copy.Pushed.{At, push_At, change_top-At}
use libcyaml.Copy.Values.{Ordered, clone_value-InOrder, clone_field_value-InOrder}

module _ (low : ℕ) where
  IsStack-top : (f : Frame) (rest : List Frame) → IsStack low (f ∷ rest) → IsFrame low f
  IsStack-top f [] (s, k) = k
  IsStack-top f (g ∷ rest) (s, k, w) = k

  IsStack-changed :
      (f g : Frame) (rest : List Frame)
      → g.state ≡ f.state
      → IsFrame low g
      → IsStack low (f ∷ rest)
      → IsStack low (g ∷ rest)
  IsStack-changed f g [] e k (s, _) = (e ∙ s, k)
  IsStack-changed f g (h ∷ rest) e k (s, _, w) = (rw e s, k, w)

  IsStack-below :
      (f : Frame) (rest : List Frame)
      → is_inner f.state ≡ true
      → IsStack low (f ∷ rest)
      → IsStack low rest
  IsStack-below f [] inner (s, k) = let g = rw s at inner in absurd (cc)
  IsStack-below f (g ∷ rest) inner (s, k, w) = w

  abbrev is_handled : State → Bool
  is_handled State.start = true
  is_handled s = is_inner s

  is_inner-handled : (s : State) → is_inner s ≡ true → is_handled s ≡ true
  is_inner-handled State.start e = refl
  is_inner-handled _ e = e

  IsStack-handled :
      (f : Frame) (rest : List Frame) → IsStack low (f ∷ rest) → is_handled f.state ≡ true
  IsStack-handled f [] (s, k) = rw s refl
  IsStack-handled f (g ∷ rest) (s, k, w) = is_inner-handled f.state s

  -- A stack in order with no more than one frame has one.
  IsStack-last :
      (st : List Frame) → IsStack low st → ltb 1 (length st) ≡ false → (f : Frame) × (st ≡ f ∷ [])
  IsStack-last [] w e = elim w [ ]
  IsStack-last (f ∷ []) w e = (f, refl)
  IsStack-last (f ∷ g ∷ rest) w e = absurd (ground (arith, e))

module _ {H : Type 0} (l : Copier H) (low : ℕ) (m0 : Memory) (good : IsCopier l low) where
  module _ (top : Frame) (rest : List Frame) (w : IsStack low (top ∷ rest)) where
    stack_pop-InOrder :
        (c : CopyCtx H)
        → is_inner top.state ≡ true
        → At l low m0 good {A = Unit {0}} (top ∷ rest) tt c
        → Guards (Ordered l low m0 good) (λ _. Ordered l low m0 good) (stack_pop c)
    unfolding stack_pop
    stack_pop-InOrder c inner (k, e) = rw (stack_pop, e) (k, IsStack-below low top rest inner w)

    clone_start-InOrder :
        (c : CopyCtx H)
        → top.state ≡ State.start
        → At l low m0 good {A = Unit {0}} (top ∷ rest) tt c
        → Guards (Ordered l low m0 good) (λ _. Ordered l low m0 good) (clone_start l top c)
    unfolding clone_start
    clone_start-InOrder c is at =
        let (above, plain) = IsStack-top low top rest w in
        clone_value-InOrder l low m0 good top rest w above top.schema top.data_at (seq_count_of l c)
          top.copy_at c plain above (λ _. rw is tt) at

    clone_field-InOrder :
        (field : Field) (c : CopyCtx H)
        → top.state ≡ State.in_map_key
        → get_elem? top.schema.mapping.fields top.field ≡ some field
        → At l low m0 good {A = Unit {0}} (top ∷ rest) tt c
        → Guards (Ordered l low m0 good) (λ _. Ordered l low m0 good) (clone_field l top field c)
    unfolding clone_field
    clone_field-InOrder field c is found at =
        let sound = IsStack-top low top rest w in
        let next : Frame = record top { field = suc top.field } in
        let v : IsStack low (next ∷ rest) = IsStack-changed low top next rest refl sound w in
        let value = l.schemas field.value in
        Guards-bind (Ordered l low m0 good) (At l low m0 good (next ∷ rest))
          (λ _. Ordered l low m0 good) (change_top λ f. record f { field = suc top.field }) _ c
          (change_top-At l low m0 good (Ordered l low m0 good)
            (λ f. record f { field = suc top.field }) top rest c at)
          (λ u c1 at1.
            clone_field_value-InOrder l low m0 good next rest v sound.0 top top.field field value
              value.type c1 refl (good.texts field.value) sound.0 is refl found at1)

    clone_mapping-InOrder :
        (c : CopyCtx H)
        → top.state ≡ State.in_map_key
        → At l low m0 good {A = Unit {0}} (top ∷ rest) tt c
        → Guards (Ordered l low m0 good) (λ _. Ordered l low m0 good) (clone_mapping l top c)
    unfolding clone_mapping
    clone_mapping-InOrder c is at =
        elim (Option-cases (get_elem? top.schema.mapping.fields top.field)) [
          | inl e ↦ rw (clone_mapping, e) (stack_pop-InOrder c (rw is refl) at)
          | inr (field, e) ↦ rw (clone_mapping, e) (clone_field-InOrder field c is e at)
        ]

    clone_entry-InOrder :
        (r : ℕ) (c : CopyCtx H)
        → top.state ≡ State.in_sequence
        → At l low m0 good {A = Unit {0}} (top ∷ rest) tt c
        → Guards
            (Ordered l low m0 good)
            (λ _. Ordered l low m0 good)
            (clone_entry l top (l.schemas r) c)
    unfolding clone_entry
    clone_entry-InOrder r c is at =
        let sound = IsStack-top low top rest w in
        let next : Frame = record top { entry = (top.entry + 1) % 2 ^ 64 } in
        let v : IsStack low (next ∷ rest) = IsStack-changed low top next rest refl sound w in
        let value = l.schemas r in
        let count = fixed_count (value.sequence.max % 2 ^ 32) value.type in
        let offset = entry_size value value.type count * top.entry % 2 ^ 64 in
        Guards-bind (Ordered l low m0 good) (At l low m0 good (next ∷ rest))
          (λ _. Ordered l low m0 good)
          (change_top λ f. record f { entry = (top.entry + 1) % 2 ^ 64 }) _ c
          (change_top-At l low m0 good (Ordered l low m0 good)
            (λ f. record f { entry = (top.entry + 1) % 2 ^ 64 }) top rest c at)
          (λ u c1 at1.
            clone_value-InOrder l low m0 good next rest v sound.0 value (top.data_at + offset) count
              (top.copy_at + offset) c1 (good.texts r) (omega (arith, sound.0)) (λ _. rw is tt) at1)

    clone_sequence-InOrder :
        (c : CopyCtx H)
        → top.state ≡ State.in_sequence
        → At l low m0 good {A = Unit {0}} (top ∷ rest) tt c
        → Guards (Ordered l low m0 good) (λ _. Ordered l low m0 good) (clone_sequence l top c)
    unfolding clone_sequence
    clone_sequence-InOrder c is at = elim (Bool-cases (ltb top.entry top.count)) [
      | inl e ↦ rw e (clone_entry-InOrder top.schema.sequence.entry c is at)
      | inr e ↦ rw e (stack_pop-InOrder c (rw is refl) at)
    ]

    clone_state-InOrder :
        (s : State) (c : CopyCtx H)
        → top.state ≡ s
        → At l low m0 good {A = Unit {0}} (top ∷ rest) tt c
        → Guards (Ordered l low m0 good) (λ _. Ordered l low m0 good) (clone_state l top s c)
    unfolding clone_state
    clone_state-InOrder State.start c is at = clone_start-InOrder c is at
    clone_state-InOrder State.in_map_key c is at = clone_mapping-InOrder c is at
    clone_state-InOrder State.in_sequence c is at = clone_sequence-InOrder c is at
    clone_state-InOrder s c is at = let h = rw is at (IsStack-handled low top rest w) in absurd (cc)

  -- The loop leaves the stack in order, and ends with one frame.
  abbrev Ended : Bool → CopyCtx H → Type 0
  Ended ended c = Ordered l low m0 good c × (ended ≡ true → (f : Frame) × (c.stack ≡ f ∷ []))

  next_round :
      (n : ℕ) (c : CopyCtx H) (deep : Bool)
      → ltb 1 (length c.stack) ≡ deep
      → Ordered l low m0 good c
      → Guards (Ordered l low m0 good) Ended (run l n c)
      → Guards (Ordered l low m0 good) Ended ((if deep then run l n else return true) c)
  next_round n c true e safe h = h
  next_round n c false e safe h = (safe, λ _. IsStack-last low c.stack safe.1 e)

  run-Ended :
      (n : ℕ) (c : CopyCtx H)
      → Ordered l low m0 good c
      → Guards (Ordered l low m0 good) Ended (run l n c)
  unfolding run
  run-Ended zero c safe = (safe, λ e. cc)
  run-Ended (suc n) c (k, w) = go (λ c1 safe. run-Ended n c1 safe) c.stack refl w
    where
      go :
          ((c1 : CopyCtx H)
            → Ordered l low m0 good c1
            → Guards (Ordered l low m0 good) Ended (run l n c1))
          → (st : List Frame) → c.stack ≡ st
          → IsStack low st
          → Guards (Ordered l low m0 good) Ended (run l (suc n) c)
      go later [] e w = elim w [ ]
      go later (top ∷ rest) e w =
          rw (run, e, ◌>>=◌)
            (Guards-bind (Ordered l low m0 good) (λ _. Ordered l low m0 good) Ended
              (clone_state l top top.state) _ c
              (clone_state-InOrder top rest w top.state c refl (k, e))
              (λ u c1 safe. next_round n c1 (ltb 1 (length c1.stack)) refl safe (later c1 safe)))

  -- After the end of the first state.
  abbrev pub Finished : Bool → CopyCtx H → Type 0
  Finished ended c =
      Kept low m0 c.memory × (ended ≡ true → c.stack ≡ []) × (ended ≡ false → IsStack low c.stack)

  abbrev pub Untouched : CopyCtx H → Type 0
  Untouched c = Kept low m0 c.memory

  finished :
      (ended : Bool) (c : CopyCtx H)
      → Ended ended c
      → Guards Untouched Finished (((if ended then stack_pop else return tt) >> return ended) c)
  unfolding stack_pop
  finished true c ((k, w), last) =
      let (f, e) = last refl in rw (stack_pop, e, ◌>>=◌, ◌>>◌) (k, (λ _. refl), λ g. cc)
  finished false c ((k, w), last) = (k, (λ g. cc), λ _. w)

  -- Copying leaves what it copies as it was, and its stack of states in order. For an allocator whose
  -- blocks, and a variable for the top-level count and a place for the copy that, lie at an address or
  -- above it, and schemas without strings: on any data the loop of `cyaml_copy` fails with an error, or
  -- runs out of the given rounds with a stack whose first state is the start and all others mappings
  -- and sequences, or ends with an empty stack, as its assertion says; it finds the count of every
  -- sequence, and the assertion that the count can be written holds; and in all cases no byte below
  -- the address has changed. Whether it stays within the blocks of the copy is not stated.
  pub copy_loop-Finished :
      (n : ℕ) (schema : SchemaValue) (origin copy : ℕ) (c : CopyCtx H)
      → is_text schema.type ≡ false
      → low ≤ copy
      → At l low m0 good {A = Unit {0}} [] tt c
      → Guards Untouched Finished (copy_loop l n schema origin copy c)
  unfolding copy_loop stack_push
  copy_loop-Finished n schema origin copy c plain above at =
      let f = new_frame State.start schema origin copy in
      Guards-bind Untouched (At l low m0 good (f ∷ [])) Finished
        (stack_push l State.start schema origin copy) _ c
        (push_At l low m0 good [] Untouched (λ c1 at1. at1.0) f c at)
        (λ u c1 (k, e).
          Guards-bind Untouched Ended Finished (run l n) _ c1
            (Guards-weaken (Ordered l low m0 good) Untouched Ended Ended (run l n c1)
              (run-Ended n c1 (k, rw e (refl, (above, plain)))) (λ c2 safe. safe.0)
              (λ ended c2 h. h))
            (λ ended c2 h. finished ended c2 h))
