-- ===== src/Save/Machine/Document.antt =====
-- The whole of `cyaml__save` of src/save.c: the events of the stream around those of the document.
use libcyaml.Base.{ℕ, suc, ◌+◌, ◌≡◌, refl, arith, ap, ◌∙◌, sym}
use libcyaml.Base.{
  ltb, Bool, true, false, [], ◌∷◌, ◌++◌, length, not, append_assoc, append-nil, some,
}
use libcyaml.Base.{◌==◌, if◌then◌else◌}
use libcyaml.Errors.{Result, ok, fail}
use libcyaml.Outcome.{Outcome, done, failed, return, bind_done, ◌>>=◌, ◌>>◌}
use libcyaml.Schema.{SchemaValue}
use libcyaml.Data.{data_read_pointer}
use libcyaml.Strings.{State}
use libcyaml.Params.{validate_save_params}
use libcyaml.Params.Accepted.{IsTopLevel, validate_save_params_accepts}
use libcyaml.Base.{◌≢◌}
use libcyaml.Save.Style.{emit_doc_delim}
use libcyaml.Save.Emitter.{Saver, OutEvent, stream_start, stream_end, document_start, document_end}
use libcyaml.Save.Emitter.{mapping_start, mapping_end, sequence_start, sequence_end}
use libcyaml.Save.Stack.{Frame, stack_push, new_frame, push_write_event, pop_write_event, mark_done}
use libcyaml.Save.Machine.{
  save, save_body, out, run, step, handle, finish, write_start, write_stream, write_doc,
}
use libcyaml.Save.Machine.{write_value}
use libcyaml.Save.Machine.Written.{
  Events, recorder, Node, leaf, mapping, sequence, Members, flatten,
}
use libcyaml.Save.Machine.Written.{flatten_members, flatten_items, IsValue}
use libcyaml.Save.Machine.Written.{no_members, left_out, member, Items, no_items, item}
use libcyaml.Save.Machine.Simulated.{context, grown, Goes, here, then_on, Goes-trans, run-Goes}
use libcyaml.Save.Machine.Simulated.{onto, onto_members, onto_items, emit-recorder}
use libcyaml.Save.Machine.Simulated.{stack_push-recorder, stack_pop-recorder}
use libcyaml.Save.Machine.Refined.{value}
use libcyaml.Save.Machine.Meant.{if-fixed_or}
use libcyaml.Save.Machine.Written.{fixed_or}

around :
    (log : Events) (e : OutEvent) (a b : Events)
    → ((log ++ (e ∷ [])) ++ a) ++ b ≡ log ++ (e ∷ (a ++ b))
around log e a b = append_assoc (log ++ (e ∷ [])) a b ∙ append_assoc log (e ∷ []) (a ++ b)

mutual
  unfolding onto flatten

  onto-flatten : (t : Node) (log : Events) → onto t log ≡ log ++ flatten t
  onto-flatten (leaf evs) log = refl
  onto-flatten (mapping style ms) log =
      rw (onto_members-flatten ms (log ++ (mapping_start style ∷ [])))
        (around log (mapping_start style) (flatten_members ms) (mapping_end ∷ []))
  onto-flatten (sequence style xs) log =
      rw (onto_items-flatten xs (log ++ (sequence_start style ∷ [])))
        (around log (sequence_start style) (flatten_items xs) (sequence_end ∷ []))

  onto_members-flatten :
      (ms : Members) (log : Events) → onto_members ms log ≡ log ++ flatten_members ms
  onto_members-flatten no_members log = sym (append-nil log)
  onto_members-flatten (left_out ms) log = onto_members-flatten ms log
  onto_members-flatten (member key t ms) log =
      rw
        (
          onto-flatten t (log ++ (key ∷ [])),
          onto_members-flatten ms ((log ++ (key ∷ [])) ++ flatten t),
        )
        (around log key (flatten t) (flatten_members ms))

  onto_items-flatten : (xs : Items) (log : Events) → onto_items xs log ≡ log ++ flatten_items xs
  onto_items-flatten no_items log = sym (append-nil log)
  onto_items-flatten (item t xs) log =
      rw (onto-flatten t log, onto_items-flatten xs (log ++ flatten t))
        (append_assoc log (flatten t) (flatten_items xs))

module _ {W : Type 0} (s : Saver W) (schema : SchemaValue) (data_at q : ℕ) where
  abbrev first : Frame
  first = new_frame State.start schema data_at

  abbrev stream : Bool → Frame
  stream handled = record (new_frame State.in_stream schema data_at) { handled = handled }

  abbrev document : Bool → Frame
  document handled = record (new_frame State.in_doc schema data_at) { handled = handled }

  abbrev pub top_count : ℕ
  top_count = fixed_or s schema.type schema.sequence.max q

  abbrev pub implicit : Bool
  implicit = not (emit_doc_delim s.config)

  start_round :
      (max : ℕ) (log : Events)
      → step (recorder s) (context (first ∷ []) max q log)
        ≡ done tt (
            context
              (stream false ∷ first ∷ [])
              (grown (first ∷ []) max)
              q
              (log ++ (document_start implicit ∷ [])))
  unfolding step handle write_start push_write_event
  start_round max log =
      stack_push-recorder s State.in_stream schema data_at (first ∷ []) max q log _
        (emit-recorder s (document_start implicit) log)

  stream_round :
      (max : ℕ) (log : Events)
      → step (recorder s) (context (stream false ∷ first ∷ []) max q log)
        ≡ done tt (
            context
              (document false ∷ stream true ∷ first ∷ [])
              (grown (stream true ∷ first ∷ []) max)
              q
              log)
  unfolding step handle write_stream push_write_event mark_done
  stream_round max log =
      stack_push-recorder s State.in_doc schema data_at (stream true ∷ first ∷ []) max q log log
        refl

  document_round :
      (max : ℕ) (log : Events)
      → step (recorder s) (context (document false ∷ stream true ∷ first ∷ []) max q log)
        ≡ write_value
            (recorder s)
            schema
            data_at
            top_count
            (context (document true ∷ stream true ∷ first ∷ []) max q log)
  unfolding step handle write_doc mark_done
  document_round max log = rw (if-fixed_or s schema.type schema.sequence.max q) refl

  document_end_round :
      (max : ℕ) (log : Events)
      → step (recorder s) (context (document true ∷ stream true ∷ first ∷ []) max q log)
        ≡ done tt (context (stream true ∷ first ∷ []) max q (log ++ (document_end implicit ∷ [])))
  unfolding step handle write_doc pop_write_event
  document_end_round max log =
      stack_pop-recorder s (document true) (stream true ∷ first ∷ []) max q log _
        (emit-recorder s (document_end implicit) log)

  stream_end_round :
      (max : ℕ) (log : Events)
      → step (recorder s) (context (stream true ∷ first ∷ []) max q log)
        ≡ done tt (context (first ∷ []) max q (log ++ (stream_end ∷ [])))
  unfolding step handle write_stream pop_write_event
  stream_end_round max log =
      stack_pop-recorder s (stream true) (first ∷ []) max q log _ (emit-recorder s stream_end log)

  last_round :
      (k max : ℕ) (log : Events)
      → run (recorder s) (suc k) (context (stream true ∷ first ∷ []) max q log)
        ≡ done true (context (first ∷ []) max q (log ++ (stream_end ∷ [])))
  unfolding run
  last_round k max log =
      bind_done (step (recorder s))
        (λ u c. if ltb 1 (length c.stack) then run (recorder s) k c else done true c)
        (context (stream true ∷ first ∷ []) max q log) (stream_end_round max log)

  finish_first :
      (max : ℕ) (log : Events)
      → finish (recorder s) (context (first ∷ []) max q log) ≡ done tt (context [] max q log)
  unfolding finish pop_write_event
  finish_first max log = rw (stack_pop-recorder s first [] max q log log refl, ◌>>=◌, ◌>>◌) refl

  -- The rounds up to the last one.
  rounds :
      (t : Node) (max : ℕ) (log : Events)
      → IsValue s schema data_at top_count t
      → (max' : ℕ) × Goes s (context (first ∷ []) max q log) (
          context
            (stream true ∷ first ∷ [])
            max'
            q
            (onto t (log ++ (document_start implicit ∷ [])) ++ (document_end implicit ∷ [])))
  rounds t max log h =
      let max1 = grown (first ∷ []) max in
      let max2 = grown (stream true ∷ first ∷ []) max1 in
      let log1 = log ++ (document_start implicit ∷ []) in
      let (c1, w, tall, (max', g)) =
        value s t schema data_at top_count (document true ∷ stream true ∷ first ∷ []) max2 q log1
          (omega arith) h in
      (
        max',
        then_on (start_round max log) (omega arith) (
            then_on (stream_round max1 log1) (omega arith) (
              then_on (document_round max2 log1 ∙ w) (omega (arith, tall)) (
                Goes-trans s g
                  (then_on (document_end_round max' (onto t log1)) (omega arith) here)))),
      )

  body :
      (fuel max : ℕ) (log : Events)
      → run (recorder s) fuel (context (first ∷ []) (grown [] 0) q (stream_start ∷ []))
        ≡ done true (context (first ∷ []) max q log)
      → save_body (recorder s) fuel schema data_at (context [] 0 q [])
        ≡ done true (context [] max q log)
  unfolding save_body push_write_event
  body fuel max log e =
      let S = recorder s in
      bind_done (stack_push S State.start schema data_at)
        (λ u. run S fuel >>= λ ended. (if ended then finish S else return tt) >> return ended)
        (context [] 0 q [])
        (stack_push-recorder s State.start schema data_at [] 0 q [] (stream_start ∷ [])
          (emit-recorder s stream_start []))
      ∙ bind_done (run S fuel) (λ ended. (if ended then finish S else return tt) >> return ended)
          (context (first ∷ []) (grown [] 0) q (stream_start ∷ [])) e
      ∙ bind_done (finish S) (λ u. return true) (context (first ∷ []) max q log)
          (finish_first max log)

  checked :
      (fuel : ℕ) (log : Events)
      → validate_save_params
          (some true)
          (some schema)
          (not (data_read_pointer s.host data_at s.memory == 0))
          q
        ≡ ok tt
      → out (recorder s) (save_body (recorder s) fuel schema data_at (context [] 0 q []))
        ≡ done true log
      → save (recorder s) fuel schema data_at q [] ≡ done true log
  unfolding save
  checked fuel log valid e =
      ap
        (λ (r : Result (Unit {0})).
          let o : Outcome Events Bool = elim r [
            | fail x ↦ failed x []
            | ok u ↦
                out (recorder s) (save_body (recorder s) fuel schema data_at (context [] 0 q []))
          ] in
          o)
        valid
      ∙ e

  whole_log :
      (t : Node)
      → (onto t (stream_start ∷ document_start implicit ∷ []) ++ (document_end implicit ∷ []))
          ++ (stream_end ∷ [])
        ≡ (stream_start ∷ document_start implicit ∷ flatten t)
          ++ (document_end implicit ∷ stream_end ∷ [])
  whole_log t = rw (onto-flatten t (stream_start ∷ document_start implicit ∷ [])) (
      append_assoc (stream_start ∷ document_start implicit ∷ flatten t) (document_end implicit ∷ [])
        (stream_end ∷ []))

  -- On an emitter that accepts every event, `cyaml__save` writes the document that the client's data
  -- stands for: for a schema that is a pointer, a count that is not 0 exactly if it is a sequence, and
  -- data that is given and that under the schema is the document `t`, there is an amount of fuel from
  -- which on the loop comes to its end without an error, and the
  -- events are those of `t` between the starts and the ends of the stream and its one document. The
  -- places of the values, NULL, the fields that are left out and the counts and distances of entries
  -- are told from the schema and the bytes; the texts of scalars, and the styles, as the functions for
  -- them choose.
  pub save-flatten :
      (t : Node)
      → IsTopLevel (some schema) (not (q == 0))
      → data_read_pointer s.host data_at s.memory ≢ 0
      → IsValue s schema data_at top_count t
      → (n : ℕ) × ((k : ℕ)
          → save (recorder s) (n + k) schema data_at q []
            ≡ done true (
                (stream_start ∷ document_start implicit ∷ flatten t)
                ++ (document_end implicit ∷ stream_end ∷ [])))
  save-flatten t top given h =
      let there : not (data_read_pointer s.host data_at s.memory == 0) ≡ true =
        ground (arith, given) in
      let valid =
        (validate_save_params_accepts (some true) (some schema)
            (not (data_read_pointer s.host data_at s.memory == 0)) q).1
          (refl, top, there) in
      let (max, g) = rounds t (grown [] 0) (stream_start ∷ []) h in
      let (n, ran) = run-Goes s g in
      let log =
        onto t (stream_start ∷ document_start implicit ∷ []) ++ (document_end implicit ∷ []) in
      (
        suc n,
        λ k.
            let whole =
              ap (λ f. run (recorder s) f (context (first ∷ []) (grown [] 0) q (stream_start ∷ [])))
                {x = suc n + k} {y = n + suc k} (omega arith)
              ∙ ran (suc k)
              ∙ last_round k max log in
            checked (suc n + k) _ valid (
              ap (λ o. out (recorder s) o) (body (suc n + k) max (log ++ (stream_end ∷ [])) whole)
              ∙ ap (λ l. done true l) (whole_log t)),
      )
