-- ===== src/Engine/Schedule/Phases/Ends.antt =====
-- How the loops of executeNodes in pkg/engine/execution.go come to an end: by their own tests, for a
-- run that is described without fuel.
use echopoint_runner.Engine.Graph.Edges.{WellFormed, Apart}
use echopoint_runner.Engine.Graph.{FlowEngine, on_success}
use echopoint_runner.Engine.Record.{Exec}
use echopoint_runner.Engine.Schedule.Counts.{Identified}
use echopoint_runner.Engine.Schedule.Phases.Always.{IsAcyclic, Apart-Identified, always_round-Round}
use echopoint_runner.Engine.Schedule.Phases.Runs.{on_success_step-Sched, with_flights_ind}
use echopoint_runner.Engine.Schedule.Phases.{
  ready-Sched, consider_all-Considered, start_ready-Sched,
}
use echopoint_runner.Engine.Schedule.Steps.{Sched, pending_nodes}
use echopoint_runner.Engine.Schedule.{
  consider_all, start_ready, rounds, on_success_step, run_on_success_phase, always_round,
  run_always_phase,
}
use echopoint_runner.Engine.State.{State, Flight, ready}
use echopoint_runner.Prelude.{
  ℕ, zero, suc, ◌≤◌, ◌<◌, ◌≡◌, inl, inr, Bool, true, false, List, [], ◌∷◌, arith,
}

-- One round of startReadyOnSuccessNodes over the nodes that are ready.
abbrev pub fill_round : FlowEngine → State → State × Bool
fill_round g s = consider_all g (ready g on_success s) s

-- startReadyOnSuccessNodes leads from one state to another: it goes on after a round with a skip.
pub data Fills (g : FlowEngine) : State → State → Type 0 where
  steady : {s : State} → (fill_round g s).1 ≡ false → Fills g s (fill_round g s).0
  again : {s t : State} → (fill_round g s).1 ≡ true → Fills g (fill_round g s).0 t → Fills g s t

-- runOnSuccessPhase leads from one state to another by so many results, and nothing is in flight then.
pub data MainRuns (g : FlowEngine) (exec : Exec) : ℕ → State → State → Type 0 where
  idle : {s t : State} → Fills g s t → t.in_flight ≡ [] → MainRuns g exec 0 s t
  received :
      {s t u : State} {m : ℕ} (k : ℕ) (f : Flight) (fs : List Flight)
      → Fills g s t
      → t.in_flight ≡ f ∷ fs
      → MainRuns g exec m (on_success_step g exec k f fs t) u
      → MainRuns g exec (suc m) s u

-- runAlwaysPhase leads from one state to another by so many rounds that went on and one that ends it.
pub data AlwaysRuns (g : FlowEngine) (exec : Exec) : ℕ → State → State → Type 0 where
  stops :
      {s : State} (k : ℕ)
      → Fills g s (start_ready g (rounds g) s)
      → (always_round g exec k s).1 ≡ false
      → AlwaysRuns g exec 0 s (always_round g exec k s).0
  goes_on :
      {s u : State} {m : ℕ} (k : ℕ)
      → Fills g s (start_ready g (rounds g) s)
      → (always_round g exec k s).1 ≡ true
      → AlwaysRuns g exec m (always_round g exec k s).0 u
      → AlwaysRuns g exec (suc m) s u

module _ (g : FlowEngine) (w : WellFormed g) (ident : Identified g) (apart : Apart g.nodes) where
  pub start_ready-Fills :
      (fuel : ℕ) (s : State)
      → Sched g s []
      → pending_nodes g s < fuel
      → Fills g s (start_ready g fuel s)
  unfolding start_ready
  start_ready-Fills zero s h lt = absurd (omega arith)
  start_ready-Fills (suc fuel) s h lt =
      let held = ready g on_success s in
      let c =
        consider_all-Considered g w ident held s (ready-Sched g w ident apart on_success s h) in
      elim c.progress [
        | inl (skipped, falls) ↦
            rw skipped
              (again skipped (start_ready-Fills fuel (fill_round g s).0 c.sched (omega arith)))
        | inr (no_skip, starts) ↦ rw no_skip (steady no_skip)
      ]

module _ (g : FlowEngine) (exec : Exec) (rank : ℕ → ℕ) (a : IsAcyclic g rank) where
  -- A run with at most as many steps as nodes were pending.
  abbrev pub Within : (ℕ → State → State → Type 0) → State → State → Type 0
  Within Runs s t = (m : ℕ) × (m ≤ pending_nodes g s) × Runs m s t

  pub run_on_success_phase-MainRuns :
      (pick : ℕ → ℕ) (fuel : ℕ) (s : State)
      → Sched g s []
      → pending_nodes g s < fuel
      → pending_nodes g s < rounds g
      → Within (MainRuns g exec) s (run_on_success_phase g exec pick fuel s)
  unfolding run_on_success_phase
  run_on_success_phase-MainRuns pick zero s h lt few = absurd (omega arith)
  run_on_success_phase-MainRuns pick (suc fuel) s h lt few =
      let id = Apart-Identified g a.apart in
      let s1 = start_ready g (rounds g) s in
      let (kept, less, none_ready) =
        start_ready-Sched g a.well_formed id a.apart (rounds g) s h few in
      let fills = start_ready-Fills g a.well_formed id a.apart (rounds g) s h few in
      with_flights_ind (Within (MainRuns g exec) s) s1.in_flight s1
        (λ f fs. run_on_success_phase g exec pick fuel (on_success_step g exec (pick fuel) f fs s1))
        (λ e. (0, omega arith, idle fills e))
        λ f fs e.
          let (next, falls) =
            on_success_step-Sched g exec a.well_formed id (pick fuel) f fs s1 e kept in
          let (m, le, rest) =
            run_on_success_phase-MainRuns pick fuel (on_success_step g exec (pick fuel) f fs s1)
              next (omega arith) (omega arith) in
          (suc m, omega arith, received (pick fuel) f fs fills e rest)

  pub run_always_phase-AlwaysRuns :
      (pick : ℕ → ℕ) (fuel : ℕ) (s : State)
      → Sched g s []
      → pending_nodes g s < fuel
      → pending_nodes g s < rounds g
      → Within (AlwaysRuns g exec) s (run_always_phase g exec pick fuel s)
  unfolding run_always_phase
  run_always_phase-AlwaysRuns pick zero s h lt few = absurd (omega arith)
  run_always_phase-AlwaysRuns pick (suc fuel) s h lt few =
      let r = always_round g exec (pick fuel) s in
      let fills =
        start_ready-Fills g a.well_formed (Apart-Identified g a.apart) a.apart (rounds g) s h few in
      let (kept, why) = always_round-Round g exec rank a (pick fuel) s h few in
      elim why [
        | inl (more, falls) ↦
            let (m, le, rest) =
              run_always_phase-AlwaysRuns pick fuel r.0 kept (omega arith) (omega arith) in
            rw more (suc m, omega arith, goes_on (pick fuel) fills more rest)
        | inr (ended, done) ↦ rw ended (0, omega arith, stops (pick fuel) fills ended)
      ]
