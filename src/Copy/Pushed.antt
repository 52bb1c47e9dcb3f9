-- ===== src/Copy/Pushed.antt =====
-- src/copy.c, pushing a state and allocating a value: what is on the stack and in the memory after them.
use libcyaml.Base.{ℕ, ◌+◌, ◌*◌, ◌%◌, ◌-◌, ◌^◌, ◌≤◌, ◌<◌, ◌≡◌, refl, ◌∙◌, arith, inl, inr}
use libcyaml.Base.{false, ◌||◌, if◌then◌else◌, List, ◌∷◌, length}
use libcyaml.Base.{◌==◌, ltb, Bool-cases, replicate, drop, take}
use libcyaml.Outcome.{done, ◌>>=◌, Guards, Guards-bind, Option-cases}
use libcyaml.Errors.{ok}
use libcyaml.Schema.{Bytes, SchemaType, SchemaValue}
use libcyaml.Schema.Flag
use libcyaml.Memory.{Memory, Host, write_bytes, object_bytes}
use libcyaml.Memory.Laws.{write_bytes_outside}
use libcyaml.Data.{host_is_big_endian, data_write, data_write_pointer, data_save_handle_pointer}
use libcyaml.Strings.{has_flag}
use libcyaml.Copy.Stack.{Frame, CopyCtx, Copier, top_state, change_top, push_frame}
use libcyaml.Copy.Stack.{stack_ensure, block_size, alloc}
use libcyaml.Copy.Stack.{data_handle_pointer}
use libcyaml.Copy.Sound.{is_text, IsStack, Kept, IsCopier}

-- The bytes that `cyaml_data_write` writes.
abbrev number_bytes : Host → ℕ → ℕ → Bytes
number_bytes h v size =
    let bytes = object_bytes h 8 v in
    take size (if host_is_big_endian h then drop (8 - size) bytes else bytes)

module _ (low : ℕ) (m0 : Memory) where
  pub write_bytes-Kept :
      (bs : Bytes) (a : ℕ) (m : Memory) → low ≤ a → Kept low m0 m → Kept low m0 (write_bytes a bs m)
  write_bytes-Kept bs a m h k =
      λ x below. write_bytes_outside bs a x m (inl (omega (arith, below, h))) ∙ k x below

  -- Writing a number succeeds for a valid size, and keeps the memory below.
  pub data_write-Kept :
      (h : Host) (v size a : ℕ) (m : Memory)
      → low ≤ a
      → Kept low m0 m
      → 0 < size
      → size ≤ 8
      → (m' : Memory) × (data_write h v size a m ≡ ok m') × Kept low m0 m'
  unfolding data_write
  data_write-Kept h v size a m above k positive small =
      let fits : (size == 0 || ltb 8 size) ≡ false = ground (arith, positive, small) in
      let written = write_bytes a (number_bytes h v size) m in
      (written, (rw fits refl), write_bytes-Kept (number_bytes h v size) a m above k)

  pub data_write_pointer-Kept :
      (h : Host) (v a : ℕ) (m : Memory)
      → low ≤ a
      → Kept low m0 m
      → Kept low m0 (data_write_pointer h v a m)
  unfolding data_write_pointer
  data_write_pointer-Kept h v a m above k = write_bytes-Kept (number_bytes h v 8) a m above k

module _ {H : Type 0} (l : Copier H) (low : ℕ) (m0 : Memory) (good : IsCopier l low) where
  -- The stack is as given; or it and the memory are in order.
  abbrev pub At {κ} : {A : Type κ} → List Frame → A → CopyCtx H → Type 0
  At st a c = Kept low m0 c.memory × (c.stack ≡ st)

  abbrev pub InOrder : CopyCtx H → Type 0
  InOrder c = Kept low m0 c.memory × IsStack low c.stack

  -- A frame is pushed on any stack; where the allocator refuses, it and the memory are as they were.
  module _ (st : List Frame) (R : CopyCtx H → Type 0)
      (left : (c : CopyCtx H) → At {A = Unit {0}} st tt c → R c) where
    pub stack_ensure-At :
        (c : CopyCtx H) → At {A = Unit {0}} st tt c → Guards R (At st) (stack_ensure l c)
    unfolding stack_ensure
    stack_ensure-At c (k, e) = elim (Bool-cases (ltb (length c.stack) c.stack_max)) [
      | inl f ↦ rw f (k, e)
      | inr f ↦
          let asked = l.realloc c.heap (72 * ((c.stack_max + 16) % 2 ^ 32)) in
          elim (Bool-cases asked.0) [
            | inl g ↦ rw (f, g) (k, e)
            | inr g ↦ rw (f, g) (left (record c { heap = asked.1 }) (k, e))
          ]
    ]

    pub push_At :
        (f : Frame) (c : CopyCtx H)
        → At {A = Unit {0}} st tt c
        → Guards R (At (f ∷ st)) ((stack_ensure l >>= λ _. push_frame f) c)
    push_At f c at =
        Guards-bind R (At st) (At (f ∷ st)) (stack_ensure l) _ c (stack_ensure-At c at)
          (λ u c1 (k, e). (k, rw e refl))

  pub change_top-At :
      (R : CopyCtx H → Type 0) (g : Frame → Frame) (f : Frame) (st : List Frame) (c : CopyCtx H)
      → At {A = Unit {0}} (f ∷ st) tt c
      → Guards R (At (g f ∷ st)) (change_top g c)
  change_top-At R g f st c (k, e) = rw e (k, refl)

  pub top_state-cons :
      (c : CopyCtx H) {top : Frame} {rest : List Frame}
      → c.stack ≡ top ∷ rest
      → top_state c ≡ done top c
  top_state-cons c e = rw e refl

  module _ (top : Frame) (rest : List Frame) (w : IsStack low (top ∷ rest)) where
    abbrev st : List Frame
    st = top ∷ rest

    pub order : (c : CopyCtx H) → At {A = Unit {0}} st tt c → InOrder c
    order c (k, e) = (k, rw e w)

    pub topped :
        (c : CopyCtx H)
        → At {A = Unit {0}} st tt c
        → Guards InOrder (λ f c'. (f ≡ top) × At {A = Unit {0}} st tt c') (top_state c)
    topped c (k, e) = rw (top_state-cons c e) (refl, (k, e))

    alloc-At :
        (n : ℕ) (c : CopyCtx H)
        → At {A = Unit {0}} st tt c
        → Guards InOrder (λ p c'. At st p c' × (low ≤ p)) (alloc l n c)
    unfolding alloc
    alloc-At n c (k, e) = elim (Option-cases (l.allocate c.heap n).0) [
      | inl g ↦ rw (alloc, g) (k, rw e w)
      | inr (p, g) ↦
          let above = good.blocks c.heap n p g in
          rw (alloc, g) ((write_bytes-Kept low m0 (replicate n 0) p c.memory above k, e), above)
    ]

    block_size-At :
        (schema : SchemaValue) (t : SchemaType) (origin : ℕ) (c : CopyCtx H)
        → is_text t ≡ false
        → At {A = Unit {0}} st tt c
        → Guards InOrder (At st) (block_size l schema t origin c)
    unfolding block_size
    block_size-At schema SchemaType.string origin c plain at = cc
    block_size-At schema SchemaType.sequence origin c plain at =
        Guards-bind InOrder (λ f c'. (f ≡ top) × At {A = Unit {0}} st tt c') (At st) top_state _ c
          (topped c at) (λ f c1 (same, at1). at1)
    block_size-At schema _ origin c plain at = at

    pub data_handle_pointer-At :
        (schema : SchemaValue) (origin copy : ℕ) (c : CopyCtx H)
        → is_text schema.type ≡ false
        → low ≤ copy
        → At {A = Unit {0}} st tt c
        → Guards InOrder
            (λ at c'. At st at c' × (low ≤ at.1))
            (data_handle_pointer l schema origin copy c)
    unfolding data_handle_pointer
    data_handle_pointer-At schema origin copy c plain above at =
        elim (Bool-cases (has_flag schema.flags Flag.pointer)) [
          | inr f ↦ rw (f, ◌>>=◌) (at, above)
          | inl f ↦
              let place = data_save_handle_pointer l.host schema origin c.memory in
              elim (Bool-cases (place == 0)) [
                | inl g ↦ rw (f, g, ◌>>=◌) (order c at)
                | inr g ↦
                    rw (f, g, ◌>>=◌)
                      (Guards-bind InOrder (At st) (λ p c'. At st p c' × (low ≤ p.1))
                        (block_size l schema schema.type place) _ c
                        (block_size-At schema schema.type place c plain at)
                        (λ size c1 at1.
                          Guards-bind InOrder (λ p c'. At st p c' × (low ≤ p))
                            (λ p c'. At st p c' × (low ≤ p.1)) (alloc l size) _ c1
                            (alloc-At size c1 at1)
                            (λ block c2 ((k, e), high). (
                              (
                                data_write_pointer-Kept low m0 l.host block copy c2.memory above k,
                                e,
                              ),
                              high,
                            ))))
              ]
        ]
