-- ===== src/Engine/Schedule.antt =====
-- The two phases of pkg/engine/execution.go. A node runs in its own goroutine on a snapshot, and the
-- scheduler learns of it when it receives the result, so the only choice that the goroutines make
-- is which node in flight ends next: `pick` makes it, for any schedule. Loops run on fuel.
pub mod Counts
pub mod Ready
pub mod Flights
pub mod Steps
pub mod Phases
pub mod Invariants
pub mod Verdict
pub mod Outcome
pub mod Reach
pub mod Failures
mod Tests
use echopoint_runner.Prelude.{
  ℕ, zero, suc, ◌+◌, ◌==◌, Bool, true, false, ◌&&◌, ◌||◌, not, List, [], ◌∷◌, ◌++◌, Option, none,
  some, is_some, filter_by, any, length, if◌then◌else◌,
}
use echopoint_runner.Prelude.Text.{Text}
use echopoint_runner.Refs.{Outputs, collect_missing_inputs}
use echopoint_runner.Engine.Graph.{
  FlowEngine, Node, RunWhen, on_success, always, other, update_text,
}
use echopoint_runner.Engine.State.{
  State, Flight, RunError, not_executed_error, is_pending, pending_count, ready, start, idle,
  same_phase, initial_state,
}
use echopoint_runner.Engine.Skip.{
  upstream_failure, is_fully_dead, inputs_reference_skipped_node, is_routed_away,
}
use echopoint_runner.Engine.Record.{
  Finished, Exec, record_skipped_node, record_on_success_result, record_always_result,
  settle_always_skip, run_node,
}

-- What the body of the loop of startReadyOnSuccessNodes does with a ready node: the new state, and
-- whether it skipped the node.
unfoldable pub consider_blocked : FlowEngine → Node → State → Option Text → State × Bool
consider_blocked g n s (some cause) = (
  record_skipped_node g n
      (record s { failure_cause = update_text s.failure_cause n.id (some cause) }),
  true,
)
consider_blocked g n s none =
    if is_fully_dead g n s || inputs_reference_skipped_node n s
    then (record_skipped_node g n s, true)
    else (start n s, false)

unfoldable pub consider : FlowEngine → Node → State → State × Bool
unfolding consider_blocked
consider g n s = consider_blocked g n s (upstream_failure g n s)

-- One round over the nodes that were ready when it began.
unfoldable pub consider_all : FlowEngine → List Node → State → State × Bool
unfolding consider
consider_all g [] s = (s, false)
consider_all g (n ∷ ns) s =
    let (s', skipped) = consider g n s in
    let (s'', more) = consider_all g ns s' in (s'', skipped || more)

-- startReadyOnSuccessNodes
unfoldable pub start_ready : FlowEngine → ℕ → State → State
unfolding consider_all
start_ready g zero s = s
start_ready g (suc fuel) s =
    let (s', skipped) = consider_all g (ready g on_success s) s in
    let again = start_ready g fuel s' in if skipped then again else s'

unfoldable pub start_all : List Node → State → State
start_all [] s = s
start_all (n ∷ ns) s = start_all ns (start n s)

-- The rounds that startReadyOnSuccessNodes needs: each but the last one skips a node.
abbrev pub rounds : FlowEngine → ℕ
rounds g = length g.nodes + 1

-- Takes the flight at a position out; past the end it takes the last one.
unfoldable pub take_flight : ℕ → Flight → List Flight → Flight × List Flight
take_flight k f [] = (f, [])
take_flight zero f (f' ∷ fs) = (f, f' ∷ fs)
take_flight (suc k) f (f' ∷ fs) = let (g, rest) = take_flight k f' fs in (g, f ∷ rest)

-- `next` on a scheduler that is not idle, in the phase's state.
unfoldable pub receive : Exec → ℕ → Flight → List Flight → State → Finished × State
unfolding take_flight
receive exec k f fs s =
    let (g, rest) = take_flight k f fs in (run_node exec g, record s { in_flight = rest })

-- The rest of the loop of runOnSuccessPhase, behind the idle test.
unfoldable pub on_success_step : FlowEngine → Exec → ℕ → Flight → List Flight → State → State
unfolding receive
on_success_step g exec k f fs s =
    let (finished, s') = receive exec k f fs s in record_on_success_result g finished s'

abbrev pub with_flights : List Flight → State → (Flight → List Flight → State) → State
with_flights [] s go = s
with_flights (f ∷ fs) s go = go f fs

-- runOnSuccessPhase
unfoldable pub run_on_success_phase : FlowEngine → Exec → (ℕ → ℕ) → ℕ → State → State
unfolding start_ready on_success_step
run_on_success_phase g exec pick zero s = s
run_on_success_phase g exec pick (suc fuel) s =
    let s' = start_ready g (rounds g) s in
    with_flights s'.in_flight s'
      λ f fs. run_on_success_phase g exec pick fuel (on_success_step g exec (pick fuel) f fs s')

-- skipRoutedAwayAlwaysNodes over the ready always nodes
unfoldable pub skip_routed_away : FlowEngine → List Node → State → State × Bool
skip_routed_away g [] s = (s, false)
skip_routed_away g (n ∷ ns) s =
    let away = is_routed_away g n s in
    let (s', skipped) = skip_routed_away g ns (if away then record_skipped_node g n s else s) in
    (s', away || skipped)

unfoldable pub has_remaining_always_predecessor : FlowEngine → Node → State → Bool
has_remaining_always_predecessor g n s =
    any (λ p. is_pending s p && same_phase p.run_when always) (g.node_edge_source n.ptr)

-- A node that resolveBlockedAlwaysNodes puts on one of its lists, and which one.
abbrev is_blocked : FlowEngine → State → Node → Bool
is_blocked g s n =
    same_phase n.run_when always && is_pending s n && not (has_remaining_always_predecessor g n s)

abbrev no_missing : List Text → Bool
no_missing [] = true
no_missing (ref ∷ refs) = false

abbrev can_run : FlowEngine → State → Node → Bool
can_run g s n =
    not (is_routed_away g n s) && no_missing (collect_missing_inputs n.input_schema s.all_outputs)

unfoldable pub record_skipped_all : FlowEngine → List Node → State → State
record_skipped_all g [] s = s
record_skipped_all g (n ∷ ns) s = record_skipped_all g ns (record_skipped_node g n s)

abbrev is_empty : List Node → Bool
is_empty [] = true
is_empty (n ∷ ns) = false

-- resolveBlockedAlwaysNodes
unfoldable pub resolve_blocked : FlowEngine → State → State × Bool
unfolding has_remaining_always_predecessor record_skipped_all start_all
resolve_blocked g s =
    let to_run = filter_by (λ n. is_blocked g s n && can_run g s n) g.nodes in
    let to_skip = filter_by (λ n. is_blocked g s n && not (can_run g s n)) g.nodes in
    if is_empty to_run && is_empty to_skip
    then (s, false)
    else (start_all to_run (record_skipped_all g to_skip s), true)

-- The rest of the loop of runAlwaysPhase, behind the idle test.
unfoldable pub record_finished : FlowEngine → Finished → State → State
record_finished g f s =
    if same_phase f.node.run_when on_success
    then record_on_success_result g f s
    else let (f', s') = settle_always_skip g f f.err s in record_always_result g f' s'

unfoldable pub always_step : FlowEngine → Exec → ℕ → Flight → List Flight → State → State
unfolding receive record_finished
always_step g exec k f fs s =
    let (finished, s') = receive exec k f fs s in record_finished g finished s'

-- What one round of runAlwaysPhase does once it has started the ready nodes: `none` ends the phase.
unfoldable pub finish_or_resolve : FlowEngine → Exec → ℕ → List Flight → State → State × Bool
unfolding always_step resolve_blocked
finish_or_resolve g exec k [] s = resolve_blocked g s
finish_or_resolve g exec k (f ∷ fs) s = (always_step g exec k f fs s, true)

-- The round goes back to its beginning if a node was skipped; else it starts the ready ones.
unfoldable pub after_skips : FlowEngine → Exec → ℕ → State × Bool → State × Bool
unfolding start_all finish_or_resolve
after_skips g exec k (s, true) = (s, true)
after_skips g exec k (s, false) =
    let s' = start_all (ready g always s) s in finish_or_resolve g exec k s'.in_flight s'

-- One round of the loop: the new state, and whether the loop goes on.
unfoldable pub always_round : FlowEngine → Exec → ℕ → State → State × Bool
unfolding start_ready skip_routed_away after_skips
always_round g exec k s =
    let s' = start_ready g (rounds g) s in
    after_skips g exec k (skip_routed_away g (ready g always s') s')

-- runAlwaysPhase
unfoldable pub run_always_phase : FlowEngine → Exec → (ℕ → ℕ) → ℕ → State → State
unfolding always_round
run_always_phase g exec pick zero s = s
run_always_phase g exec pick (suc fuel) s =
    let (s', more) = always_round g exec (pick fuel) s in
    let again = run_always_phase g exec pick fuel s' in if more then again else s'

-- finalizeExecution behind its first test
unfoldable pub finalize_with : FlowEngine → State → Option RunError → State
unfolding pending_count
finalize_with g s (some e) = record s { success = false }
finalize_with g s none =
    if pending_count g s == 0
    then record s { success = true }
    else record s { error = some (not_executed_error (pending_count g s)) }

-- finalizeExecution
unfoldable pub finalize_execution : FlowEngine → State → State
unfolding finalize_with
finalize_execution g s = finalize_with g s s.error

-- executeNodes, with fuel for each phase; the always phase has a scheduler of its own.
unfoldable pub execute_nodes : FlowEngine → Exec → (ℕ → ℕ) → (ℕ → ℕ) → Outputs → State
unfolding run_on_success_phase run_always_phase finalize_execution initial_state
execute_nodes g exec pick pick_always inputs =
    let s1 = run_on_success_phase g exec pick (rounds g) (initial_state g inputs) in
    let s2 = run_always_phase g exec pick_always (rounds g) (record s1 { in_flight = [] }) in
    finalize_execution g s2
