-- ===== src/Copy/Sequences.antt =====
-- src/copy.c, the copy of a sequence: its state is pushed, its block allocated, its count written.
use libcyaml.Base.{ℕ, suc, ◌+◌, ◌≤◌, ◌<◌, ◌≡◌, refl, arith, inl, inr}
use libcyaml.Base.{true, false, List, ◌∷◌, some, get_elem?, ◌==◌, Bool-cases}
use libcyaml.Outcome.{done, ◌>>=◌, ◌>>◌, Guards, Guards-bind}
use libcyaml.Schema.{SchemaType, SchemaValue, Field}
use libcyaml.Memory.{Memory}
use libcyaml.Strings.{State}
use libcyaml.Params.{is_any_sequence, is_sequence}
use libcyaml.Copy.Stack.{Frame, CopyCtx, Copier, new_frame, top_state, change_top}
use libcyaml.Copy.Stack.{stack_ensure, count_place, push_sequence, stack_push, data_handle_pointer}
use libcyaml.Copy.Clone.{write_sequence_count, clone_sequence_value}
use libcyaml.Copy.Sound.{is_text, is_inner, HasCount, IsStack, IsFrame, IsCopier}
use libcyaml.Copy.Pushed.{
  At, InOrder, order, topped, stack_ensure-At, change_top-At, data_handle_pointer-At,
  data_write-Kept,
}

module _ {H : Type 0} (l : Copier H) (low : ℕ) (m0 : Memory) (good : IsCopier l low) where
  -- A place where a count can be written.
  abbrev IsCount : ℕ → ℕ → Type 0
  IsCount place size = (low ≤ place) × (0 < size) × (size ≤ 8)

  -- The state of a sequence, as it is pushed.
  abbrev IsPushed : SchemaType → Frame → Type 0
  IsPushed t f =
      (is_inner f.state ≡ true)
      × IsFrame low f
      × (is_sequence t ≡ true → IsCount f.count_data f.count_size)

  module _ (top : Frame) (rest : List Frame) (w : IsStack low (top ∷ rest))
      (above : low ≤ top.copy_at) where
    abbrev Pushed {κ} : {A : Type κ} → SchemaType → A → CopyCtx H → Type 0
    Pushed t a c = (f : Frame) × IsPushed t f × At l low m0 good (f ∷ top ∷ rest) a c

    count_place-field :
        (c : CopyCtx H) (i : ℕ) (g : Field)
        → top.field ≡ suc i
        → get_elem? top.schema.mapping.fields i ≡ some g
        → count_place l top State.in_map_key c ≡ done (top.copy_at + g.count_offset, g.count_size) c
    unfolding count_place
    count_place-field c i g e1 e2 = rw (count_place, e1, e2, ◌>>=◌) refl

    count_place-At :
        (s : State) (c : CopyCtx H)
        → HasCount top s
        → At l low m0 good {A = Unit {0}} (top ∷ rest) tt c
        → Guards
            (InOrder l low m0 good)
            (λ at c'. At l low m0 good (top ∷ rest) at c' × IsCount at.0 at.1)
            (count_place l top s c)
    unfolding count_place
    count_place-At State.in_sequence c has at = order l low m0 good top rest w c at
    count_place-At State.start c has at = (at, (good.counts, omega arith, omega arith))
    count_place-At State.in_map_key c (i, g, e1, e2, p, q) at =
        rw (count_place-field c i g e1 e2) (at, (omega (arith, above), p, q))
    count_place-At State.in_stream c has at = elim has [ ]
    count_place-At State.in_doc c has at = elim has [ ]
    count_place-At State.in_map_value c has at = elim has [ ]
    count_place-At State.invalid c has at = elim has [ ]

    push_sequence-Pushed :
        (schema : SchemaValue) (t : SchemaType) (origin copy : ℕ) (c : CopyCtx H)
        → is_any_sequence t ≡ true
        → is_text schema.type ≡ false
        → low ≤ copy
        → (is_sequence t ≡ true → HasCount top top.state)
        → At l low m0 good {A = Unit {0}} (top ∷ rest) tt c
        → Guards (InOrder l low m0 good) (Pushed t) (push_sequence l schema t origin copy c)
    unfolding push_sequence
    push_sequence-Pushed schema SchemaType.sequence_fixed origin copy c is plain high has at =
        elim (Bool-cases (schema.sequence.min == schema.sequence.max)) [
          | inr f ↦ rw f (order l low m0 good top rest w c at)
          | inl f ↦ rw f (
            new_frame State.in_sequence schema origin copy,
            (refl, (high, plain), λ k. cc),
            (at.0, rw (at.1) refl),
          )
        ]
    push_sequence-Pushed schema SchemaType.sequence origin copy c is plain high has at =
        Guards-bind (InOrder l low m0 good)
          (λ f c'. (f ≡ top) × At l low m0 good {A = Unit {0}} (top ∷ rest) tt c')
          (Pushed SchemaType.sequence) top_state _ c (topped l low m0 good top rest w c at)
          (λ f c1 (same, at1).
            Guards-bind (InOrder l low m0 good)
              (λ p c'. At l low m0 good (top ∷ rest) p c' × IsCount p.0 p.1)
              (Pushed SchemaType.sequence) (count_place l f f.state) _ c1
              (rw same (count_place-At top.state c1 (has refl) at1))
              (λ p c2 ((k, e), counted). (
                record (new_frame State.in_sequence schema origin copy) {
                  count_data = p.0;
                  count_size = p.1;
                },
                (refl, (high, plain), λ _. counted),
                (k, rw e refl),
              )))
    push_sequence-Pushed schema _ origin copy c is plain high has at = cc

    push_seq-Pushed :
        (schema : SchemaValue) (origin copy : ℕ) (c : CopyCtx H)
        → is_any_sequence schema.type ≡ true
        → is_text schema.type ≡ false
        → low ≤ copy
        → (is_sequence schema.type ≡ true → HasCount top top.state)
        → At l low m0 good {A = Unit {0}} (top ∷ rest) tt c
        → Guards
            (InOrder l low m0 good)
            (Pushed schema.type)
            (stack_push l State.in_sequence schema origin copy c)
    unfolding stack_push
    push_seq-Pushed schema origin copy c is plain high has at =
        Guards-bind (InOrder l low m0 good) (At l low m0 good (top ∷ rest)) (Pushed schema.type)
          (stack_ensure l) _ c
          (stack_ensure-At l low m0 good (top ∷ rest) (InOrder l low m0 good)
            (order l low m0 good top rest w) c at)
          (λ u c1 at1. push_sequence-Pushed schema schema.type origin copy c1 is plain high has at1)

    write_sequence_count-At :
        (schema : SchemaValue) (n : ℕ) (f : Frame) (c : CopyCtx H)
        → IsPushed schema.type f
        → At l low m0 good {A = Unit {0}} (f ∷ top ∷ rest) tt c
        → Guards
            (InOrder l low m0 good)
            (At l low m0 good (f ∷ top ∷ rest))
            (write_sequence_count l schema n c)
    unfolding write_sequence_count
    write_sequence_count-At schema n f c (inner, sound, counts) (k, e) =
        elim (Bool-cases (is_sequence schema.type)) [
          | inr g ↦ rw g (k, e)
          | inl g ↦
              let (place, positive, small) = counts g in
              let (m', written, kept) =
                data_write-Kept low m0 l.host n f.count_size f.count_data c.memory place k positive
                  small in
              rw (write_sequence_count, g, e, ◌>>=◌, written) (kept, e)
        ]

    pub clone_sequence_value-InOrder :
        (schema : SchemaValue) (origin n copy : ℕ) (c : CopyCtx H)
        → is_any_sequence schema.type ≡ true
        → is_text schema.type ≡ false
        → low ≤ copy
        → (is_sequence schema.type ≡ true → HasCount top top.state)
        → At l low m0 good {A = Unit {0}} (top ∷ rest) tt c
        → Guards
            (InOrder l low m0 good)
            (λ _. InOrder l low m0 good)
            (clone_sequence_value l schema origin n copy c)
    unfolding clone_sequence_value
    clone_sequence_value-InOrder schema origin n copy c is plain high has at =
        Guards-bind (InOrder l low m0 good) (Pushed schema.type) (λ _. InOrder l low m0 good)
          (stack_push l State.in_sequence schema origin copy) _ c
          (push_seq-Pushed schema origin copy c is plain high has at)
          (λ u c1 (f, pushed, at1). counted f pushed c1 at1)
      where
        counted :
            (f : Frame)
            → IsPushed schema.type f
            → (c : CopyCtx H) → At l low m0 good {A = Unit {0}} (f ∷ top ∷ rest) tt c
            → Guards
                (InOrder l low m0 good)
                (λ _. InOrder l low m0 good)
                ((change_top (λ f. record f { count = n })
                    >> (data_handle_pointer l schema origin copy >>= λ at.
                        write_sequence_count l schema n
                        >> change_top λ f. record f { data_at = at.0; copy_at = at.1 }))
                  c)
        counted f (inner, sound, counts) c at =
            let g : Frame = record f { count = n } in
            let v : IsStack low (g ∷ top ∷ rest) = (inner, sound, w) in
            Guards-bind (InOrder l low m0 good) (At l low m0 good (g ∷ top ∷ rest))
              (λ _. InOrder l low m0 good) (change_top λ f. record f { count = n }) _ c
              (change_top-At l low m0 good (InOrder l low m0 good) (λ f. record f { count = n }) f
                (top ∷ rest) c at)
              (λ u c1 at1.
                Guards-bind (InOrder l low m0 good)
                  (λ p c'. At l low m0 good (g ∷ top ∷ rest) p c' × (low ≤ p.1))
                  (λ _. InOrder l low m0 good) (data_handle_pointer l schema origin copy) _ c1
                  (data_handle_pointer-At l low m0 good g (top ∷ rest) v schema origin copy c1 plain
                    high at1)
                  (λ p c2 (at2, high').
                    Guards-bind (InOrder l low m0 good) (At l low m0 good (g ∷ top ∷ rest))
                      (λ _. InOrder l low m0 good) (write_sequence_count l schema n) _ c2
                      (write_sequence_count-At schema n g c2 (inner, sound, counts) at2)
                      (λ u c3 (k, e). rw e (k, (inner, (high', sound.1), w)))))
