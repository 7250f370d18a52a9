-- ===== src/Engine/Record.antt =====
-- What the scheduler writes when a node ends: recordOnSuccessResults, recordAlwaysResults,
-- recordRoutingDecision, propagateNodeOutputs, recordSkippedNode, settleAlwaysSkip and runNode of
-- pkg/engine/execution.go.
use echopoint_runner.Prelude.{
  ◌+◌, Bool, true, List, [], ◌∷◌, ◌++◌, Option, none, some, if◌then◌else◌,
}
use echopoint_runner.Prelude.Text.{Text}
use echopoint_runner.Prelude.Strings.{contains, dot}
use echopoint_runner.Value.{Value}
use echopoint_runner.Refs.{Outputs, OutputView, InputError, validate_inputs, assemble_inputs}
use echopoint_runner.Engine.Graph.{
  FlowEngine, Node, RunWhen, on_success, always, other, update_text,
}
use echopoint_runner.Engine.State.{
  State, NodeResult, RunError, Flight, missing_inputs_error, validation_error, execution_error,
  mark_node_complete, mark_node_failed,
}
use echopoint_runner.Engine.Skip.{describe_skip_cause, is_routed_away}

-- createSkippedNodeResult
unfoldable pub create_skipped_node_result : FlowEngine → Node → State → NodeResult
create_skipped_node_result g n s = record {
  outputs = [];
  routed = none;
  skipped = some (describe_skip_cause g n s);
}

unfoldable pub record_skipped_node : FlowEngine → Node → State → State
unfolding create_skipped_node_result
record_skipped_node g n s = mark_node_complete g n (record s {
  results = update_text s.results n.id (some (some (create_skipped_node_result g n s)));
  skipped_nodes = update_text s.skipped_nodes n.id true;
  routed_away = if is_routed_away g n s then update_text s.routed_away n.id true else s.routed_away;
})

unfoldable pub mark_dead : Text → List Text → List Node → (Text → Text → Bool) → Text → Text → Bool
mark_dead id taken [] dead = dead
mark_dead id taken (successor ∷ successors) dead = mark_dead id taken successors (
    if contains taken successor.id
    then dead
    else update_text dead id (update_text (dead id) successor.id true))

unfoldable pub record_routing_decision : FlowEngine → Node → Option (List Text) → State → State
unfolding mark_dead
record_routing_decision g n none s = s
record_routing_decision g n (some targets) s = record s {
  dead_edges = mark_dead n.id targets (g.node_edge_output n.ptr) s.dead_edges;
}

unfoldable pub flatten_outputs : Text → Outputs → (Text → Option Value) → Text → Option Value
flatten_outputs id [] final = final
flatten_outputs id ((key, value) ∷ outputs) final =
    flatten_outputs id outputs (update_text final (id ++ dot ∷ key) (some value))

unfoldable pub propagate_node_outputs : Node → NodeResult → State → State
unfolding flatten_outputs
propagate_node_outputs n result s = record s {
  all_outputs = update_text s.all_outputs n.id (some result.outputs);
  final_outputs = flatten_outputs n.id result.outputs s.final_outputs;
}

-- nodeRunResult
pub record Finished : Type 0 where
  pub node : Node
  pub result : Option NodeResult
  pub err : Option RunError

abbrev keep_first : Option RunError → RunError → Option RunError
keep_first none e = some e
keep_first (some first) e = some first

unfoldable pub store_result : Finished → State → State
store_result f s = record s { results = update_text s.results f.node.id (some f.result) }

-- The error branch, or the count.
unfoldable pub note_outcome : FlowEngine → Node → Option RunError → State → State
note_outcome g n none s = record s { executed_count = s.executed_count + 1 }
note_outcome g n (some e) s = mark_node_failed g n (record s { error = keep_first s.error e })

unfoldable pub note_outputs : Node → Option NodeResult → State → State
unfolding propagate_node_outputs
note_outputs n none s = s
note_outputs n (some result) s = propagate_node_outputs n result s

unfoldable pub note_routing :
    FlowEngine → Node → Option NodeResult → Option RunError → State → State
unfolding record_routing_decision
note_routing g n (some result) none s = record_routing_decision g n result.routed s
note_routing g n _ _ s = s

-- recordOnSuccessResults of one result
unfoldable pub record_on_success_result : FlowEngine → Finished → State → State
unfolding store_result note_outcome note_outputs note_routing
record_on_success_result g f s =
    let noted = note_outputs f.node f.result (note_outcome g f.node f.err (store_result f s)) in
    mark_node_complete g f.node (note_routing g f.node f.result f.err noted)

-- recordAlwaysResults of one result: the same writes
unfoldable pub record_always_result : FlowEngine → Finished → State → State
unfolding store_result note_outcome note_outputs note_routing
record_always_result g f s =
    let noted = note_outputs f.node f.result (note_outcome g f.node f.err (store_result f s)) in
    mark_node_complete g f.node (note_routing g f.node f.result f.err noted)

-- settleAlwaysSkip: the finished result to record, and the state that it leaves.
unfoldable pub settle_always_skip :
    FlowEngine → Finished → Option RunError → State → Finished × State
unfolding create_skipped_node_result
settle_always_skip g f (some (missing_inputs_error e)) s =
    let s' = record s { skipped_nodes = update_text s.skipped_nodes f.node.id true } in
    (
      record { node = f.node; result = some (create_skipped_node_result g f.node s'); err = none },
      s',
    )
settle_always_skip g f _ s = (f, s)

-- The executor of a node behind its middleware and its assertion pass, on the assembled inputs and
-- the snapshot: what Execute of the node kinds does, with the text of its error. A result is
-- expected where there is no error; without one runNode itself panics.
abbrev pub Exec : Type 0
Exec = Node → List (Text × Option Value) → OutputView → Option NodeResult × Option Text

abbrev pub input_failure : RunWhen → InputError → RunError
input_failure always e = missing_inputs_error e
input_failure on_success e = validation_error e
input_failure (other w) e = validation_error e

abbrev pub as_error : Option Text → Option RunError
as_error none = none
as_error (some message) = some (execution_error message)

-- runNode behind the input check
unfoldable pub run_checked : Exec → Flight → Option InputError → Finished
run_checked exec f (some e) = record {
  node = f.node;
  result = none;
  err = some (input_failure f.node.run_when e);
}
run_checked exec f none =
    let (result, err) = exec f.node (assemble_inputs f.node.input_schema f.view) f.view in
    record { node = f.node; result = result; err = as_error err }

-- runNode
unfoldable pub run_node : Exec → Flight → Finished
unfolding run_checked
run_node exec f = run_checked exec f (validate_inputs f.node.input_schema f.view)
