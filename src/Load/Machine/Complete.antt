-- ===== src/Load/Machine/Complete.antt =====
-- The end of a mapping in src/load.c: what has been found when it succeeds.
use libcyaml.Base.{ℕ, zero, suc, ◌+◌, ◌<◌, ◌^◌, ◌%◌, ◌≡◌, refl, arith, Option, none, some, ◌∙◌}
use libcyaml.Base.{
  Bool, true, false, List, [], ◌∷◌, length, take, get_elem?, ap, if◌then◌else◌, Bool-cases, inl,
  inr,
}
use libcyaml.Outcome.{Outcome, M, done, failed, fault, ◌>>=◌, raise, Leads, Option-cases}
use libcyaml.Errors.{invalid_value}
use libcyaml.Schema.{Field}
use libcyaml.Schema.Flag
use libcyaml.Load.Store.{flag_check_all}
use libcyaml.Load.Fields.{mapping_bitfield_check}
use libcyaml.Load.Stack.{Frame, LoadCtx, Loader, stack_pop}
use libcyaml.Load.Machine.{field_apply_default, validate_fields, mapping_bitfield_validate}
use libcyaml.Load.Machine.{handle_map_end, refuses, judged}
use libcyaml.Memory.{Memory}
use native.Mathlib.Nat.{mod-eq_of_lt}

Leads-after :
    {S A B : Type 0} (R : B → S → Type 0) (m : M S A) (f : A → M S B) (s : S)
    → ((a : A) (s' : S) → m s ≡ done a s' → Leads R (f a s'))
    → Leads R ((m >>= f) s)
Leads-after R m f s k = go (m s) refl
  where
    go : (o : Outcome _ _) → m s ≡ o → Leads R ((m >>= f) s)
    go (done a s') e = rw (e, ◌>>=◌) (k a s' e)
    go (failed x s') e = rw (e, ◌>>=◌) tt
    go fault e = rw (e, ◌>>=◌) tt

Leads-weaken :
    {S A : Type 0} (Q R : A → S → Type 0) (o : Outcome S A)
    → Leads Q o
    → ((a : A) (s : S) → Q a s → R a s)
    → Leads R o
Leads-weaken Q R (done a s) h k = k a s h
Leads-weaken Q R (failed e s) h k = tt
Leads-weaken Q R fault h k = tt

take_all : {A : Type 0} (xs : List A) → take (length xs) xs ≡ xs
take_all [] = refl
take_all (x ∷ xs) = ap (λ ys. x ∷ ys) (take_all xs)

module _ {P H : Type 0} (l : Loader P H) where
  -- Every field that is not optional, counted from `i` on, has been marked in the bit field.
  abbrev pub AreFound : Frame → ℕ → List Field → Type 0
  AreFound top i fields =
      (j : ℕ) (field : Field)
      → get_elem? fields j ≡ some field
      → flag_check_all (l.schemas field.value).flags Flag.optional ≡ false
      → mapping_bitfield_check top.fields_set (i + j) ≡ some true

  module _ (top : Frame) where
    AreFound-cons :
        (i : ℕ) (field : Field) (fields : List Field)
        → (flag_check_all (l.schemas field.value).flags Flag.optional ≡ false
            → mapping_bitfield_check top.fields_set i ≡ some true)
        → AreFound top (suc i) fields
        → AreFound top i (field ∷ fields)
    AreFound-cons i field fields first later zero g e o =
        let same : field ≡ g = cc in
        let here : i + 0 ≡ i = omega arith in rw here (first (rw same o))
    AreFound-cons i field fields first later (suc j) g e o =
        let there : i + suc j ≡ suc i + j = omega arith in rw there (later j g e o)

    validate_fields-AreFound :
        (i : ℕ) (fields : List Field) (c : LoadCtx P H)
        → Leads (λ u c'. AreFound top i fields) (validate_fields l top i fields c)
    unfolding validate_fields
    validate_fields-AreFound i [] c = λ j field e o. cc
    validate_fields-AreFound i (field ∷ fields) c =
        let value = l.schemas field.value in
        elim (Option-cases (mapping_bitfield_check top.fields_set i)) [
          | inl e ↦ rw (validate_fields, e, ◌>>=◌) tt
          | inr (seen, e) ↦ elim (Bool-cases seen) [
            | inl s ↦
                rw (validate_fields, e, s, ◌>>=◌)
                  (Leads-weaken (λ u c'. AreFound top (suc i) fields)
                    (λ u c'. AreFound top i (field ∷ fields))
                    (validate_fields l top (suc i) fields c)
                    (validate_fields-AreFound (suc i) fields c)
                    (λ u c' h. AreFound-cons i field fields (λ o. rw (e, s) refl) h))
            | inr s ↦ elim (Bool-cases (flag_check_all value.flags Flag.optional)) [
              | inr o ↦ rw (validate_fields, e, s, o, ◌>>=◌) tt
              | inl o ↦
                  rw (validate_fields, e, s, o, ◌>>=◌)
                    (Leads-after (λ u c'. AreFound top i (field ∷ fields))
                      (field_apply_default l value value.type top field
                        (top.data_at + field.data_offset))
                      (λ _. validate_fields l top (suc i) fields) c
                      (λ u c1 done_c1.
                        Leads-weaken (λ u c'. AreFound top (suc i) fields)
                          (λ u c'. AreFound top i (field ∷ fields))
                          (validate_fields l top (suc i) fields c1)
                          (validate_fields-AreFound (suc i) fields c1)
                          (λ u c' h. AreFound-cons i field fields (λ n. absurd (cc)) h)))
            ]
          ]
        ]

    stack_pop-memory :
        (R : Unit {0} → LoadCtx P H → Type 0) (c : LoadCtx P H)
        → ((c' : LoadCtx P H) → c'.loading.memory ≡ c.loading.memory → R tt c')
        → Leads R (stack_pop c)
    unfolding stack_pop
    stack_pop-memory R c h = go c.stack refl
      where
        go : (st : List Frame) → c.stack ≡ st → Leads R (stack_pop c)
        go [] e = rw (stack_pop, e) tt
        go (f ∷ rest) e = rw (stack_pop, e) (h (record c { stack = rest }) refl)

    -- A callback, if there is one, has accepted the data in the memory.
    abbrev pub IsAccepted : Option (Memory → ℕ → Bool) → ℕ → Memory → Type 0
    IsAccepted v place m = (cb : Memory → ℕ → Bool) → v ≡ some cb → cb m place ≡ true

    IsAccepted-Leads :
        (v : Option (Memory → ℕ → Bool)) (place : ℕ) (F : Type 0) (c : LoadCtx P H)
        → F
        → Leads
            (λ u c'. F × IsAccepted v place c'.loading.memory)
            ((if refuses (judged v (λ cb. cb c.loading.memory place))
                then raise invalid_value
                else stack_pop)
              c)
    IsAccepted-Leads none place F c found = stack_pop-memory _ c (λ c' same. (found, λ cb e. cc))
    IsAccepted-Leads (some cb) place F c found = elim (Bool-cases (cb c.loading.memory place)) [
      | inr e ↦ rw e tt
      | inl e ↦ rw e (
          stack_pop-memory (λ u c'. F × IsAccepted (some cb) place c'.loading.memory) c
            (λ c' kept. (found, λ f g. let same : cb ≡ f = cc in rw⁻¹ same (rw kept e))))
    ]

    -- A mapping with a missing required field is never accepted: for fewer than 2 ^ 16 fields, if
    -- `cyaml__map_end` succeeds, whatever defaults it has made for missing fields, then every field that
    -- is not optional is marked in the bit field of the fields that were found, and the validation
    -- callback, if the schema has one, has accepted the data as it is in the memory after the defaults.
    pub handle_map_end-AreFound :
        (c : LoadCtx P H)
        → length top.schema.mapping.fields < 2 ^ 16
        → Leads
            (λ u c'.
              AreFound top 0 top.schema.mapping.fields
              × IsAccepted top.schema.mapping.validation_cb top.data_at c'.loading.memory)
            (handle_map_end l top c)
    unfolding handle_map_end mapping_bitfield_validate stack_pop
    handle_map_end-AreFound c few =
        let fields = top.schema.mapping.fields in
        let counted : ℕ = length fields % 2 ^ 16 in
        let all : take counted fields ≡ fields =
          ap (λ n. take n fields) (mod-eq_of_lt few) ∙ take_all fields in
        Leads-after
          (λ u c'.
            AreFound top 0 fields
            × IsAccepted top.schema.mapping.validation_cb top.data_at c'.loading.memory)
          (validate_fields l top 0 (take counted fields)) _ c
          (λ u c1 e.
            let found : AreFound top 0 (take counted fields) =
              rw e at (validate_fields-AreFound 0 (take counted fields) c) in
            IsAccepted-Leads top.schema.mapping.validation_cb top.data_at (AreFound top 0 fields) c1
              (rw all at found))
