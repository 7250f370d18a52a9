-- ===== src/Engine/Schedule/Phases/Runs.antt =====
-- The on_success phase of pkg/engine/execution.go, run to its end.
use echopoint_runner.Prelude.{
  ℕ, zero, suc, ◌≤◌, ◌<◌, ◌≡◌, refl, sym, subst, List, [], ◌∷◌, ◌++◌, Option, none, some, arith,
}
use echopoint_runner.Engine.Graph.{FlowEngine}
use echopoint_runner.Engine.Graph.Edges.{WellFormed, Apart}
use echopoint_runner.Engine.State.{State, Flight}
use echopoint_runner.Engine.Record.{Exec, run_node, run_checked, record_on_success_result}
use echopoint_runner.Refs.{InputError, validate_inputs}
use echopoint_runner.Engine.Schedule.{
  receive, take_flight, with_flights, on_success_step, run_on_success_phase, start_ready, rounds,
}
use echopoint_runner.Engine.Schedule.Counts.{Identified}
use echopoint_runner.Engine.Schedule.Ready.{nodes_of, take_flight-Good, Good}
use echopoint_runner.Engine.Schedule.Steps.{
  Sched, pending_nodes, Completes-Sched, record_on_success_result-Completes,
}
use echopoint_runner.Engine.Schedule.Phases.{start_ready-Sched}

node-run_checked :
    (exec : Exec) (f : Flight) (e : Option InputError) → (run_checked exec f e).node ≡ f.node
unfolding run_checked
node-run_checked exec f none = refl
node-run_checked exec f (some e) = refl

node-run_node : (exec : Exec) (f : Flight) → (run_node exec f).node ≡ f.node
unfolding run_node
node-run_node exec f = node-run_checked exec f (validate_inputs f.node.input_schema f.view)

-- What is proved of `with_flights` for either shape of the list.
pub with_flights_ind :
    (P : State → Type 0) (fs : List Flight) (s : State) (go : Flight → List Flight → State)
    → (fs ≡ [] → P s)
    → ((f : Flight) (rest : List Flight) → fs ≡ f ∷ rest → P (go f rest))
    → P (with_flights fs s go)
with_flights_ind P [] s go h k = h refl
with_flights_ind P (f ∷ fs) s go h k = k f fs refl

module _ (g : FlowEngine) (exec : Exec) where
  pub receive-Sched :
      (k : ℕ) (f : Flight) (fs : List Flight) (s : State)
      → s.in_flight ≡ f ∷ fs
      → Sched g s []
      → Sched g (receive exec k f fs s).1 ((receive exec k f fs s).0.node ∷ [])
        × (pending_nodes g (receive exec k f fs s).1 ≡ pending_nodes g s)
  unfolding receive
  receive-Sched k f fs s e h =
      let listed : Good g s.remaining_inputs (nodes_of (f ∷ fs) ++ []) =
        subst (λ l. Good g s.remaining_inputs (nodes_of l ++ [])) e h.good in
      let taken = take_flight k f fs in
      (
        record {
          counts = h.counts;
          good =
              subst (λ n. Good g s.remaining_inputs (nodes_of taken.1 ++ n ∷ []))
                (sym (node-run_node exec taken.0))
                (take_flight-Good g s.remaining_inputs k f fs [] listed);
          done = h.done;
        },
        refl,
      )

module _ (g : FlowEngine) (exec : Exec) (w : WellFormed g) (ident : Identified g) where
  pub on_success_step-Sched :
      (k : ℕ) (f : Flight) (fs : List Flight) (s : State)
      → s.in_flight ≡ f ∷ fs
      → Sched g s []
      → Sched g (on_success_step g exec k f fs s) []
        × (pending_nodes g (on_success_step g exec k f fs s) < pending_nodes g s)
  unfolding on_success_step
  on_success_step-Sched k f fs s e h =
      let (finished, s') = receive exec k f fs s in
      let (held, same) = receive-Sched g exec k f fs s e h in
      let (kept, lt) =
        Completes-Sched g w ident finished.node s' (record_on_success_result g finished s') []
          (record_on_success_result-Completes g finished s') held in
      (kept, omega arith)

  -- With more rounds than pending nodes, runOnSuccessPhase stops because nothing is in flight.
  pub run_on_success_phase-Sched :
      (apart : Apart g.nodes) (pick : ℕ → ℕ) (fuel : ℕ) (s : State)
      → Sched g s []
      → pending_nodes g s < fuel
      → pending_nodes g s < rounds g
      → Sched g (run_on_success_phase g exec pick fuel s) []
        × ((run_on_success_phase g exec pick fuel s).in_flight ≡ [])
        × (pending_nodes g (run_on_success_phase g exec pick fuel s) ≤ pending_nodes g s)
  unfolding run_on_success_phase
  run_on_success_phase-Sched apart pick zero s h lt few = absurd (omega arith)
  run_on_success_phase-Sched apart pick (suc fuel) s h lt few =
      let s1 = start_ready g (rounds g) s in
      let (kept, less, none_ready) = start_ready-Sched g w ident apart (rounds g) s h few in
      with_flights_ind
        (λ r. Sched g r [] × (r.in_flight ≡ []) × (pending_nodes g r ≤ pending_nodes g s))
        s1.in_flight s1
        (λ f fs. run_on_success_phase g exec pick fuel (on_success_step g exec (pick fuel) f fs s1))
        (λ e. (kept, e, less))
        λ f fs e.
          let (next, falls) = on_success_step-Sched (pick fuel) f fs s1 e kept in
          let (end, idle, fewer) =
            run_on_success_phase-Sched apart pick fuel (on_success_step g exec (pick fuel) f fs s1)
              next (omega arith) (omega arith) in
          (end, idle, omega arith)
