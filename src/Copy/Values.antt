-- ===== src/Copy/Values.antt =====
-- src/copy.c, the copy of a value, and of the value of a field: what is on the stack and in the memory
-- after them, also where an error is caught.
use libcyaml.Base.{
  ℕ, suc, ◌+◌, ◌≤◌, ◌<◌, ◌≡◌, refl, arith, inl, inr, Bool, true, false, List, ◌∷◌, ◌==◌, Bool-cases,
  ◌||◌, ltb, some, get_elem?,
}
use libcyaml.Outcome.{
  Outcome, M, done, failed, fault, ◌>>=◌, Guards, Guards-bind, Guards-weaken, Result-cases,
}
use libcyaml.Errors.{Err, ok, bad_param_null_data}
use libcyaml.Schema.{SchemaType, SchemaValue, Field}
use libcyaml.Memory.{Memory, Host, read_bytes}
use libcyaml.Strings.{State, has_flag}
use libcyaml.Params.{is_any_sequence, is_sequence}
use libcyaml.Copy.Stack.{Frame, CopyCtx, Copier, new_frame, stack_push, data_handle_pointer}
use libcyaml.Copy.Clone.{clone_by_type, clone_value, clone_number}
use libcyaml.Copy.Machine.{fixed_count, unless_null, after_error, clone_field_value}
use libcyaml.Copy.Sound.{is_text, HasCount, IsStack, IsCopier}
use libcyaml.Copy.Pushed.{At, InOrder, order, push_At, data_handle_pointer-At, write_bytes-Kept}
use libcyaml.Schema.Flag
use libcyaml.Data.{data_read}
use libcyaml.Copy.Sequences.{clone_sequence_value-InOrder}

-- A number that was read has a size that can be written.
data_read-ok :
    (h : Host) (size a v : ℕ) (m : Memory) → data_read h size a m ≡ ok v → (0 < size) × (size ≤ 8)
unfolding data_read
data_read-ok h size a v m e = elim (Bool-cases (size == 0 || ltb 8 size)) [
  | inl f ↦ absurd (let g = rw f at e in cc)
  | inr f ↦ (ground (arith, f), ground (arith, f))
]

module _ {H : Type 0} (l : Copier H) (low : ℕ) (m0 : Memory) (good : IsCopier l low) where
  abbrev pub Ordered : CopyCtx H → Type 0
  Ordered = InOrder l low m0 good

  after_error-InOrder :
      (optional : Bool) (e : Err) (c : CopyCtx H)
      → Ordered c
      → Guards Ordered (λ _. Ordered) (after_error {H = H} optional e c)
  unfolding after_error
  after_error-InOrder true bad_param_null_data c s = s
  after_error-InOrder false bad_param_null_data c s = s
  after_error-InOrder true _ c s = s
  after_error-InOrder false _ c s = s

  unless_null-InOrder :
      (optional : Bool) (m : M (CopyCtx H) (Unit {0})) (c : CopyCtx H)
      → Guards Ordered (λ _. Ordered) (m c)
      → Guards Ordered (λ _. Ordered) (unless_null optional m c)
  unfolding unless_null
  unless_null-InOrder optional m c h = caught (m c) refl h
    where
      caught :
          (o : Outcome (CopyCtx H) (Unit {0}))
          → m c ≡ o
          → Guards Ordered (λ _. Ordered) o
          → Guards Ordered (λ _. Ordered) (unless_null optional m c)
      caught (done a s) e h = rw (unless_null, e) h
      caught (failed x s) e h = rw (unless_null, e) (after_error-InOrder optional x s h)
      caught fault e h = elim h [ ]

  module _ (top : Frame) (rest : List Frame) (w : IsStack low (top ∷ rest))
      (above : low ≤ top.copy_at) where
    clone_by_type-InOrder :
        (schema : SchemaValue) (t : SchemaType) (origin copy : ℕ) (c : CopyCtx H)
        → is_any_sequence t ≡ false
        → is_text t ≡ false
        → is_text schema.type ≡ false
        → low ≤ copy
        → At l low m0 good {A = Unit {0}} (top ∷ rest) tt c
        → Guards Ordered (λ _. Ordered) (clone_by_type l schema t origin copy c)
    unfolding clone_by_type clone_number stack_push
    clone_by_type-InOrder schema SchemaType.string origin copy c single no_text plain high at = cc
    clone_by_type-InOrder schema SchemaType.sequence origin copy c single no_text plain high at = cc
    clone_by_type-InOrder schema SchemaType.sequence_fixed origin copy c single no_text plain high
          at =
        cc
    clone_by_type-InOrder schema SchemaType.ignore origin copy c single no_text plain high at =
        order l low m0 good top rest w c at
    clone_by_type-InOrder schema SchemaType.unknown origin copy c single no_text plain high at =
        order l low m0 good top rest w c at
    clone_by_type-InOrder schema SchemaType.mapping origin copy c single no_text plain high at =
        let f = new_frame State.in_map_key schema origin copy in
        Guards-weaken Ordered Ordered (At l low m0 good (f ∷ top ∷ rest)) (λ _. Ordered)
          (stack_push l State.in_map_key schema origin copy c)
          (push_At l low m0 good (top ∷ rest) Ordered (order l low m0 good top rest w) f c at)
          (λ s h. h) (λ u s (k, e). (k, rw e (refl, (high, plain), w)))
    clone_by_type-InOrder schema _ origin copy c single no_text plain high (k, e) = (
      write_bytes-Kept low m0 (read_bytes origin schema.data_size c.memory) copy c.memory high k,
      rw e w,
    )

    pub clone_value-InOrder :
        (schema : SchemaValue) (origin n copy : ℕ) (c : CopyCtx H)
        → is_text schema.type ≡ false
        → low ≤ copy
        → (is_sequence schema.type ≡ true → HasCount top top.state)
        → At l low m0 good {A = Unit {0}} (top ∷ rest) tt c
        → Guards Ordered (λ _. Ordered) (clone_value l schema origin n copy c)
    unfolding clone_value
    clone_value-InOrder schema origin n copy c plain high has at =
        elim (Bool-cases (is_any_sequence schema.type)) [
          | inl f ↦ rw f (
              clone_sequence_value-InOrder l low m0 good top rest w above schema origin n copy c f
                plain high has at)
          | inr f ↦ rw f (
              Guards-bind Ordered (λ p c'. At l low m0 good (top ∷ rest) p c' × (low ≤ p.1))
                (λ _. Ordered) (data_handle_pointer l schema origin copy) _ c
                (data_handle_pointer-At l low m0 good top rest w schema origin copy c plain high at)
                (λ p c1 (at1, high').
                  clone_by_type-InOrder schema schema.type p.0 p.1 c1 f plain plain high' at1))
        ]

    value_of_field-InOrder :
        (before : Frame) (field : Field) (value : SchemaValue) (n : ℕ) (c : CopyCtx H)
        → is_text value.type ≡ false
        → low ≤ before.copy_at
        → (is_sequence value.type ≡ true → HasCount top top.state)
        → At l low m0 good {A = Unit {0}} (top ∷ rest) tt c
        → Guards Ordered
            (λ _. Ordered)
            (unless_null
              (has_flag value.flags Flag.optional)
              (clone_value l value
                (before.data_at + field.data_offset)
                n
                (before.copy_at + field.data_offset))
              c)
    value_of_field-InOrder before field value n c plain high has at =
        let origin = before.data_at + field.data_offset in
        let copy = before.copy_at + field.data_offset in
        unless_null-InOrder (has_flag value.flags Flag.optional) (clone_value l value origin n copy)
          c (clone_value-InOrder value origin n copy c plain (omega (arith, high)) has at)

    -- The value of the field before the one that the top frame has come to.
    pub clone_field_value-InOrder :
        (before : Frame) (i : ℕ) (field : Field) (value : SchemaValue) (t : SchemaType)
        (c : CopyCtx H)
        → value.type ≡ t
        → is_text value.type ≡ false
        → low ≤ before.copy_at
        → top.state ≡ State.in_map_key
        → top.field ≡ suc i
        → get_elem? top.schema.mapping.fields i ≡ some field
        → At l low m0 good {A = Unit {0}} (top ∷ rest) tt c
        → Guards Ordered (λ _. Ordered) (clone_field_value l before field value t c)
    unfolding clone_field_value
    clone_field_value-InOrder before i field value SchemaType.ignore c is plain high st e1 e2 at =
        order l low m0 good top rest w c at
    clone_field_value-InOrder before i field value SchemaType.sequence c is plain high st e1 e2 at =
        elim (Result-cases
          (data_read l.host field.count_size (before.data_at + field.count_offset) c.memory)) [
            | inl (x, e) ↦ rw (clone_field_value, ◌>>=◌, e) (order l low m0 good top rest w c at)
            | inr (n, e) ↦
                let (positive, small) =
                  data_read-ok l.host field.count_size (before.data_at + field.count_offset) n
                    c.memory e in
                rw (clone_field_value, ◌>>=◌, e)
                  (value_of_field-InOrder before field value n c plain high
                    (λ _. rw st (i, field, e1, e2, positive, small)) at)
          ]
    clone_field_value-InOrder before i field value t c is plain high st e1 e2 at =
        value_of_field-InOrder before field value (fixed_count value.sequence.min t) c plain high
          (λ k. let g = rw is at k in absurd (cc)) at
