-- ===== src/Engine/State.antt =====
-- The state of one execution: executionState and phaseScheduler of pkg/engine/execution.go, with the
-- results of pkg/spi/result.go as far as the engine reads them.
use echopoint_runner.Prelude.{
  ℕ, ◌==◌, Bool, true, false, ◌&&◌, not, List, [], ◌∷◌, ◌++◌, Option, none, some, is_some,
  filter_by, any, count_by,
}
use echopoint_runner.Prelude.Int.{ℤ, pos, pred_ℤ, is_zero}
use echopoint_runner.Prelude.Text.{Text}
use echopoint_runner.Refs.{Outputs, OutputView, InputError}
use echopoint_runner.Value.{Value}
use echopoint_runner.Engine.Graph.{
  FlowEngine, Node, RunWhen, on_success, always, update, update_text,
}

-- Why a node was skipped; the text is the display name in the message.
pub data SkipReason : Type 0 where
  dependency_failed dependency_skipped routed_away_by_branch : Text → SkipReason
  missing_inputs not_reachable : SkipReason

pub record Skipped : Type 0 where
  pub reason : SkipReason
  pub missing : List Text

-- What the engine reads of a result. `routed` is present on a RoutingResult, `skipped` on a result
-- that createSkippedNodeResult built.
pub record NodeResult : Type 0 where
  pub outputs : Outputs
  pub routed : Option (List Text)
  pub skipped : Option Skipped

-- missingInputsError, the UserError of a failed input check, an error of the node's executor, and
-- the error of finalizeExecution.
pub data RunError : Type 0 where
  missing_inputs_error validation_error : InputError → RunError
  execution_error : Text → RunError
  not_executed_error : ℕ → RunError

-- A node in flight, with the snapshot of the outputs that it was started with.
pub record Flight : Type 0 where
  pub node : Node
  pub view : OutputView

pub record State : Type 0 where
  pub all_outputs : OutputView
  pub remaining_inputs : ℕ → Option ℤ
  pub executed_count : ℕ
  pub results : Text → Option (Option NodeResult)
  pub final_outputs : Text → Option Value
  pub error : Option RunError
  pub success : Bool
  pub failed_nodes : Text → Bool
  pub skipped_nodes : Text → Bool
  pub failure_cause : Text → Option Text
  pub dead_edges : Text → Text → Bool
  pub routed_away : Text → Bool
  pub in_flight : List Flight

-- Whether a node has an entry in remainingInputs.
abbrev pub is_pending : State → Node → Bool
is_pending s n = is_some (s.remaining_inputs n.ptr)

-- len(state.remainingInputs): its keys are nodes of the flow.
unfoldable pub pending_count : FlowEngine → State → ℕ
pending_count g s = count_by (is_pending s) g.nodes

-- state.remainingInputs[k]--, which makes an entry where there is none
unfoldable pub decrement : ℕ → (ℕ → Option ℤ) → ℕ → Option ℤ
decrement k f = update f k (some (pred_ℤ (elim (f k) [ none ↦ pos 0 | some z ↦ z ])))

unfoldable pub decrement_all : List Node → (ℕ → Option ℤ) → ℕ → Option ℤ
unfolding decrement
decrement_all [] f = f
decrement_all (n ∷ ns) f = decrement_all ns (decrement n.ptr f)

unfoldable pub mark_node_complete : FlowEngine → Node → State → State
unfolding decrement_all
mark_node_complete g n s = record s {
  remaining_inputs =
      update (decrement_all (g.node_edge_output n.ptr) s.remaining_inputs) n.ptr none;
}

abbrev name_or : Text → Text → Text
name_or [] id = id
name_or (c ∷ name) id = c ∷ name

-- nodeDisplayName
unfoldable pub node_display_name : FlowEngine → Text → Text
node_display_name g id = elim (g.node_map id) [ none ↦ id | some n ↦ name_or n.display_name id ]

unfoldable pub mark_node_failed : FlowEngine → Node → State → State
unfolding node_display_name
mark_node_failed g n s = record s {
  failed_nodes = update_text s.failed_nodes n.id true;
  failure_cause = update_text s.failure_cause n.id (some (node_display_name g n.id));
}

abbrev pub same_phase : RunWhen → RunWhen → Bool
same_phase on_success on_success = true
same_phase always always = true
same_phase _ _ = false

-- s.inFlight[n]
abbrev pub is_in_flight : List Flight → Node → Bool
is_in_flight flights n = any (λ f. f.node.ptr == n.ptr) flights

abbrev pub zero_left : Option ℤ → Bool
zero_left none = false
zero_left (some z) = is_zero z

-- The test of `ready`.
abbrev pub is_ready : RunWhen → State → Node → Bool
is_ready phase s n =
    zero_left (s.remaining_inputs n.ptr)
    && same_phase n.run_when phase
    && not (is_in_flight s.in_flight n)

unfoldable pub ready : FlowEngine → RunWhen → State → List Node
ready g phase s = filter_by (is_ready phase s) g.nodes

-- The goroutine of `start` runs the node on the snapshot; it hands its result back in `next`.
unfoldable pub start : Node → State → State
start n s = record s { in_flight = s.in_flight ++ record { node = n; view = s.all_outputs } ∷ [] }

abbrev pub idle : State → Bool
idle s = elim s.in_flight [ [] ↦ true | f ∷ fs ↦ false ]

-- The initial state of executeNodes; nodeEdgeInput has an entry for every node of the flow.
unfoldable pub initial_counts : FlowEngine → List Node → ℕ → Option ℤ
initial_counts g [] = λ _. none
initial_counts g (n ∷ ns) =
    update (initial_counts g ns) n.ptr (some (pos (g.node_edge_input n.ptr)))

unfoldable pub initial_state : FlowEngine → Outputs → State
unfolding initial_counts
initial_state g inputs = record {
  all_outputs = update_text (λ _. none) [] (some inputs);
  remaining_inputs = initial_counts g g.nodes;
  executed_count = 0;
  results = λ _. none;
  final_outputs = λ _. none;
  error = none;
  success = false;
  failed_nodes = λ _. false;
  skipped_nodes = λ _. false;
  failure_cause = λ _. none;
  dead_edges = λ _ _. false;
  routed_away = λ _. false;
  in_flight = [];
}
