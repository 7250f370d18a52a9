-- ===== src/Engine/Schedule/Tests.antt =====
-- Runs of small flows, and the theorems on runs at one of them.
use echopoint_runner.Prelude.{
  ℕ, ◌≡◌, refl, sym, subst, inl, inr, Bool, true, List, [], ◌∷◌, none, some, is_some, In, All,
  All-In, ◌<◌, arith, if◌then◌else◌,
}
use echopoint_runner.Prelude.Text.{Text, codes, text_eq}
use echopoint_runner.Prelude.Strings.{contains}
use echopoint_runner.Value.{lookup_path, has_path_root}
use echopoint_runner.Refs.{validate_inputs}
use echopoint_runner.Engine.Graph.{
  Node, Edge, Flow, FlowEngine, Built, built, source_missing, target_missing, RunWhen, on_success,
  always, new_flow_engine, empty_engine,
}
use echopoint_runner.Engine.Graph.Edges.{
  WellFormed, Apart, IsGraphOf, new_flow_engine-IsGraphOf, OnBuilt,
}
use echopoint_runner.Engine.State.{
  Flight, NodeResult, State, initial_state, mark_node_complete, start, ready,
}
use echopoint_runner.Engine.Skip.{
  upstream_failure, is_fully_dead, inputs_reference_skipped_node, is_routed_away,
}
use echopoint_runner.Engine.Record.{Exec, run_node, record_skipped_node, record_on_success_result}
use echopoint_runner.Engine.Schedule.{
  skip_routed_away, start_all, execute_nodes, start_ready, rounds, on_success_step,
}
use echopoint_runner.Engine.Schedule.Ready.{nodes_of}
use echopoint_runner.Engine.Schedule.Failures.{DistinctIds}
use echopoint_runner.Engine.Schedule.Failures.Cleanup.{in_flight-taken}
use echopoint_runner.Prelude.{◌==◌, false}
use echopoint_runner.Engine.Schedule.Reach.{
  Reached, between, waits, switched, waiting_state, skips_of, begun, filled, ended, main,
  in_flight-sources, in_flight-once,
}
use echopoint_runner.Prelude.Int.{pos, pred_ℤ}
use echopoint_runner.Engine.Schedule.Phases.Always.{IsAcyclic}
use echopoint_runner.Engine.Schedule.Phases.Stuck.{HasPhase}
use echopoint_runner.Engine.Schedule.Outcome.{
  Completed, execute_nodes-Completed, execute_nodes-Verdict, Verdict,
}

abbrev node : ℕ → Text → RunWhen → List Text → Node
node ptr id when refs = record {
  ptr = ptr;
  id = id;
  display_name = id;
  kind = codes "request";
  run_when = when;
  input_schema = refs;
}

abbrev edge : Text → Text → Edge
edge source target = record { id = []; source = source; target = target }

-- create branches to use or to undo; cleanup always runs.
abbrev create : Node
create = node 1 (codes "create") on_success []

abbrev use_it : Node
use_it = node 2 (codes "use") on_success (codes "create.id" ∷ [])

abbrev undo : Node
undo = node 3 (codes "undo") on_success []

abbrev cleanup : Node
cleanup = node 4 (codes "cleanup") always (codes "create.id" ∷ [])

abbrev flow : Flow
flow = record {
  name = codes "sample";
  nodes = create ∷ use_it ∷ undo ∷ cleanup ∷ [];
  edges =
      edge (codes "create") (codes "use")
      ∷ edge (codes "create") (codes "undo")
      ∷ edge (codes "use") (codes "cleanup")
      ∷ edge (codes "undo") (codes "cleanup")
      ∷ [];
}

abbrev engine_of : Built → FlowEngine
engine_of (built g) = g
engine_of (source_missing _ _) = empty_engine []
engine_of (target_missing _ _) = empty_engine []

sample : FlowEngine
unfolding new_flow_engine text_eq
sample = engine_of (new_flow_engine flow)

abbrev created : NodeResult
created = record {
  outputs = (codes "id", echopoint_runner.Value.str (codes "7")) ∷ [];
  routed = some (codes "use" ∷ []);
  skipped = none;
}

abbrev plain : NodeResult
plain = record { outputs = []; routed = none; skipped = none }

-- Every node succeeds; create routes to use.
exec : Exec
unfolding text_eq
exec n inputs view =
    if text_eq n.id (codes "create") then (some created, none) else (some plain, none)

-- The step `use` fails.
exec_failing : Exec
unfolding text_eq
exec_failing n inputs view =
    if text_eq n.id (codes "create")
    then (some created, none)
    else if text_eq n.id (codes "use")
    then (some plain, some (codes "boom"))
    else (some plain, none)

end : State
unfolding execute_nodes exec sample
end = execute_nodes sample exec (λ _. 0) (λ _. 0) []

end_failing : State
unfolding execute_nodes exec_failing sample
end_failing = execute_nodes sample exec_failing (λ _. 0) (λ _. 0) []

-- What the end state holds of a node: whether it has a result, ran, was skipped, failed.
abbrev seen : State → Text → List Bool
seen s id = is_some (s.results id) ∷ s.skipped_nodes id ∷ s.failed_nodes id ∷ s.routed_away id ∷ []

abbrev summary : State → List (List Bool)
summary s =
    (s.success ∷ [])
    ∷ seen s (codes "create")
    ∷ seen s (codes "use")
    ∷ seen s (codes "undo")
    ∷ seen s (codes "cleanup")
    ∷ []

abbrev end_summary : List (List Bool)
end_summary = summary end

abbrev end_failing_summary : List (List Bool)
end_failing_summary = summary end_failing

sample_nodes : sample.nodes ≡ flow.nodes
unfolding sample
sample_nodes = refl

cleanup_In : In cleanup sample.nodes
unfolding sample
cleanup_In = inr (inr (inr (inl refl)))

sample-WellFormed : WellFormed sample
unfolding sample new_flow_engine text_eq
sample-WellFormed = (new_flow_engine-IsGraphOf flow).well_formed

one_two : 1 < 2
one_two = omega arith

one_three : 1 < 3
one_three = omega arith

two_four : 2 < 4
two_four = omega arith

three_four : 3 < 4
three_four = omega arith

sample-IsAcyclic : IsAcyclic sample (λ p. p)
unfolding sample
sample-IsAcyclic = record {
  well_formed = sample-WellFormed;
  apart = ((refl, (refl, (refl, tt))), ((refl, (refl, tt)), ((refl, tt), (tt, tt))));
  ranked = λ n i.
      All-In (λ n. All (λ p. p.ptr < n.ptr) (sample.node_edge_source n.ptr)) sample.nodes n
        (tt, ((one_two, tt), ((one_three, tt), ((two_four, (three_four, tt)), tt)))) i;
  phased =
      λ n i. All-In HasPhase sample.nodes n (inl refl, (inl refl, (inl refl, (inr refl, tt)))) i;
}

execute_nodes-Completed_example :
    Completed sample exec [] (execute_nodes sample exec (λ _. 1) (λ _. 0) [])
execute_nodes-Completed_example =
    execute_nodes-Completed sample exec (λ p. p) sample-IsAcyclic (λ _. 1) (λ _. 0) []

execute_nodes-Verdict_example : Verdict (execute_nodes sample exec_failing (λ _. 0) (λ _. 0) [])
execute_nodes-Verdict_example =
    execute_nodes-Verdict sample exec_failing (λ p. p) sample-IsAcyclic (λ _. 0) (λ _. 0) []

new_flow_engine-IsGraphOf_example : OnBuilt (IsGraphOf flow) (new_flow_engine flow)
new_flow_engine-IsGraphOf_example = new_flow_engine-IsGraphOf flow

begun_state : State
begun_state = initial_state sample []

first_state : State
first_state = start_ready sample (rounds sample) begun_state

abbrev first_flight : Flight
first_flight = record { node = create; view = begun_state.all_outputs }

first_in_flight : first_state.in_flight ≡ first_flight ∷ []
unfolding first_state begun_state sample start_ready ready initial_state upstream_failure
    is_fully_dead inputs_reference_skipped_node start
first_in_flight = refl

second_state : State
second_state = on_success_step sample exec 0 first_flight [] first_state

third_state : State
third_state = start_ready sample (rounds sample) second_state

third_nodes : nodes_of third_state.in_flight ≡ use_it ∷ []
unfolding third_state second_state first_state begun_state sample start_ready ready on_success_step
    record_on_success_result mark_node_complete run_node validate_inputs pred_ℤ exec initial_state
    upstream_failure is_fully_dead inputs_reference_skipped_node start contains record_skipped_node
third_nodes = refl

third_Reached : Reached sample exec [] third_state
unfolding third_state second_state first_state begun_state
third_Reached = between (main (filled (ended 0 first_flight [] first_in_flight (filled begun))))

create_before_use : In create (sample.node_edge_source use_it.ptr)
unfolding sample
create_before_use = inl refl

in_flight-sources_example : is_some (third_state.results (codes "create")) ≡ true
in_flight-sources_example =
    in_flight-sources sample exec (λ p. p) sample-IsAcyclic [] third_state use_it create
      third_Reached (subst (In use_it) (sym third_nodes) (inl refl)) create_before_use

in_flight-once_example :
    Apart (nodes_of third_state.in_flight)
    × All (λ n. third_state.remaining_inputs n.ptr ≡ some (pos 0)) (nodes_of third_state.in_flight)
in_flight-once_example =
    in_flight-once sample exec (λ p. p) sample-IsAcyclic [] third_state third_Reached

sample-DistinctIds : DistinctIds sample
unfolding sample text_eq
sample-DistinctIds n m i j =
    All-In (λ k. text_eq n.id k.id ≡ true → (n.ptr == k.ptr) ≡ true) sample.nodes m
      (All-In (λ l. All (λ k. text_eq l.id k.id ≡ true → (l.ptr == k.ptr) ≡ true) sample.nodes)
        sample.nodes n
        (
          ((λ h. refl), (no, (no, (no, tt)))),
          (
            (no, ((λ h. refl), (no, (no, tt)))),
            ((no, (no, ((λ h. refl), (no, tt)))), ((no, (no, (no, ((λ h. refl), tt)))), tt)),
          ),
        )
        i)
      j
  where
    no : false ≡ true → false ≡ true
    no h = h

in_flight-taken_example :
    (p : Node) × In p (sample.node_edge_source use_it.ptr)
    × (third_state.dead_edges p.id use_it.id ≡ false)
    × (third_state.skipped_nodes p.id ≡ false)
    × (third_state.failed_nodes p.id ≡ false)
in_flight-taken_example =
    in_flight-taken sample exec (λ p. p) sample-IsAcyclic sample-DistinctIds [] third_state use_it
      create third_Reached (subst (In use_it) (sym third_nodes) (inl refl)) refl create_before_use

-- A flow of one cleanup node: the run waits for it inside a round of the second phase.
abbrev only : Node
only = node 9 (codes "only") always []

cleanup_only : FlowEngine
unfolding new_flow_engine text_eq
cleanup_only =
    engine_of (new_flow_engine (record { name = codes "cleanup"; nodes = only ∷ []; edges = [] }))

idle_state : State
idle_state = start_ready cleanup_only (rounds cleanup_only) (initial_state cleanup_only [])

cleanup_state : State
cleanup_state = waiting_state cleanup_only (record idle_state { in_flight = [] })

is_idle : idle_state.in_flight ≡ []
unfolding idle_state cleanup_only start_ready ready initial_state
is_idle = refl

nothing_skipped : (skips_of cleanup_only (record idle_state { in_flight = [] })).1 ≡ false
unfolding idle_state cleanup_only start_ready ready initial_state is_routed_away skip_routed_away
nothing_skipped = refl

cleanup_Reached : Reached cleanup_only exec [] cleanup_state
unfolding cleanup_state idle_state
cleanup_Reached = waits nothing_skipped (switched is_idle (filled begun))

cleanup_flies : nodes_of cleanup_state.in_flight ≡ only ∷ []
unfolding cleanup_state idle_state cleanup_only start_ready ready initial_state is_routed_away
    skip_routed_away start_all start
cleanup_flies = refl
