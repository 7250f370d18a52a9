-- ===== src/Engine/Schedule/Verdict.antt =====
-- The error of a run of pkg/engine/execution.go and its failed nodes.
use echopoint_runner.Prelude.{◌≡◌, ◌⊎◌, inl, inr, true, false, List, Option, none, some, Bool-cases}
use echopoint_runner.Prelude.Text.{Text, text_eq_refl}
use echopoint_runner.Refs.{InputError, validate_inputs}
use echopoint_runner.Engine.Graph.{Node, FlowEngine, RunWhen, on_success, always, other}
use echopoint_runner.Engine.State.{
  State, Flight, NodeResult, RunError, missing_inputs_error, validation_error, execution_error,
  not_executed_error, mark_node_failed, mark_node_complete, same_phase, start,
}
use echopoint_runner.Engine.Record.{
  Exec, Finished, run_checked, run_node, input_failure, as_error, store_result, note_outcome,
  note_outputs, note_routing, record_routing_decision, record_skipped_node,
  record_on_success_result, record_always_result, settle_always_skip,
}
use echopoint_runner.Engine.Schedule.{record_finished}
use echopoint_runner.Engine.Schedule.Invariants.{Kept}

-- An error that a node's run returned, not the one about nodes that did not run.
abbrev pub IsNodeError : RunError → Type 0
IsNodeError (missing_inputs_error e) = Unit
IsNodeError (validation_error e) = Unit
IsNodeError (execution_error e) = Unit
IsNodeError (not_executed_error n) = ⊥

-- The execution has no error and no failed node, or the error of a node and a failed node.
abbrev pub Honest : State → Type 0
Honest s =
    ((s.error ≡ none) × ((id : Text) → s.failed_nodes id ≡ false))
    ⊎ ((e : RunError) × (s.error ≡ some e)
        × IsNodeError e
        × (id : Text) × (s.failed_nodes id ≡ true))

abbrev OnError : Option RunError → Type 0
OnError none = Unit
OnError (some e) = IsNodeError e

err-run_checked :
    (exec : Exec) (f : Flight) (e : Option InputError) → OnError (run_checked exec f e).err
unfolding run_checked
err-run_checked exec f (some e) = of_phase f.node.run_when
  where
    of_phase : (w : RunWhen) → IsNodeError (input_failure w e)
    of_phase on_success = tt
    of_phase always = tt
    of_phase (other w) = tt
err-run_checked exec f none = of_text _
  where
    of_text : (o : Option Text) → OnError (as_error o)
    of_text none = tt
    of_text (some message) = tt

note_outcome-Honest :
    (g : FlowEngine) (n : Node) (err : Option RunError) (s : State)
    → OnError err
    → Honest s
    → Honest (note_outcome g n err s)
unfolding note_outcome mark_node_failed
note_outcome-Honest g n none s ok h = h
note_outcome-Honest g n (some e) s ok (inl (no_error, none_failed)) =
    inr (e, rw no_error, ok, n.id, rw (text_eq_refl n.id))
note_outcome-Honest g n (some e) s ok (inr (first, stored, is_node, id, failed)) =
    inr (first, rw stored, is_node, n.id, rw (text_eq_refl n.id))

note_outputs-Honest :
    (n : Node) (r : Option NodeResult) (s : State) → Honest s → Honest (note_outputs n r s)
unfolding note_outputs
note_outputs-Honest n none s h = h
note_outputs-Honest n (some r) s h = h

record_routing-Honest :
    (g : FlowEngine) (n : Node) (targets : Option (List Text)) (s : State)
    → Honest s
    → Honest (record_routing_decision g n targets s)
unfolding record_routing_decision
record_routing-Honest g n none s h = h
record_routing-Honest g n (some t) s h = h

note_routing-Honest :
    (g : FlowEngine) (n : Node) (r : Option NodeResult) (e : Option RunError) (s : State)
    → Honest s
    → Honest (note_routing g n r e s)
unfolding note_routing
note_routing-Honest g n (some r) none s h = record_routing-Honest g n r.routed s h
note_routing-Honest g n none none s h = h
note_routing-Honest g n none (some e) s h = h
note_routing-Honest g n (some r) (some e) s h = h

module _ (g : FlowEngine) where
  noted-Honest :
      (f : Finished) (s : State)
      → OnError f.err
      → Honest s
      → Honest (
          note_routing g f.node f.result f.err
            (note_outputs f.node f.result (note_outcome g f.node f.err (store_result f s))))
  unfolding store_result
  noted-Honest f s ok h =
      let s1 = note_outcome g f.node f.err (store_result f s) in
      note_routing-Honest g f.node f.result f.err (note_outputs f.node f.result s1) (
        note_outputs-Honest f.node f.result s1
          (note_outcome-Honest g f.node f.err (store_result f s) ok h))

  record_on_success_result-Honest :
      (f : Finished) (s : State)
      → OnError f.err
      → Honest s
      → Honest (record_on_success_result g f s)
  unfolding record_on_success_result mark_node_complete
  record_on_success_result-Honest f s ok h = noted-Honest f s ok h

  record_always_result-Honest :
      (f : Finished) (s : State) → OnError f.err → Honest s → Honest (record_always_result g f s)
  unfolding record_always_result mark_node_complete
  record_always_result-Honest f s ok h = noted-Honest f s ok h

  settle-Honest :
      (f : Finished) (e : Option RunError) (s : State)
      → OnError f.err
      → Honest s
      → Honest
          (record_always_result g (settle_always_skip g f e s).0 (settle_always_skip g f e s).1)
  unfolding settle_always_skip
  settle-Honest f (some (missing_inputs_error e)) s ok h = record_always_result-Honest _ _ tt h
  settle-Honest f none s ok h = record_always_result-Honest f s ok h
  settle-Honest f (some (validation_error e)) s ok h = record_always_result-Honest f s ok h
  settle-Honest f (some (execution_error e)) s ok h = record_always_result-Honest f s ok h
  settle-Honest f (some (not_executed_error e)) s ok h = record_always_result-Honest f s ok h

  record_finished-Honest :
      (f : Finished) (s : State) → OnError f.err → Honest s → Honest (record_finished g f s)
  unfolding record_finished
  record_finished-Honest f s ok h = elim (Bool-cases (same_phase f.node.run_when on_success)) [
    | inl main ↦ rw main (record_on_success_result-Honest f s ok h)
    | inr cleanup ↦ rw cleanup (settle-Honest f f.err s ok h)
  ]

  pub Honest-Kept : (exec : Exec) → Kept g exec Honest
  unfolding record_skipped_node mark_node_complete start run_node
  Honest-Kept exec = record {
    skip = λ n s h. h;
    block = λ n s cause e h. h;
    begin = λ n s h. h;
    land = λ fs s h. h;
    main = λ f s h.
        record_on_success_result-Honest _ s
          (err-run_checked exec f (validate_inputs f.node.input_schema f.view)) h;
    cleanup = λ f s h.
        record_finished-Honest _ s
          (err-run_checked exec f (validate_inputs f.node.input_schema f.view)) h;
  }
