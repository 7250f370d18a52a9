-- ===== src/Engine/Schedule/Failures/Passes.antt =====
-- Failed steps and untaken branches over the passes of the on_success phase of
-- pkg/engine/execution.go.
use echopoint_runner.Prelude.{
  ℕ, zero, suc, ◌≡◌, refl, sym, subst, inl, inr, ◌||◌, List, [], ◌∷◌, Option, none, some, clash, In,
  Bool-cases,
}
use echopoint_runner.Prelude.Text.{Text}
use echopoint_runner.Engine.Graph.{Node, FlowEngine, on_success, update_text}
use echopoint_runner.Engine.Graph.Edges.{WellFormed}
use echopoint_runner.Engine.State.{State, Flight, ready}
use echopoint_runner.Engine.Skip.{upstream_failure, is_fully_dead, inputs_reference_skipped_node}
use echopoint_runner.Engine.Record.{Exec, record_skipped_node}
use echopoint_runner.Engine.Schedule.{
  consider_blocked, consider, consider_all, start_ready, take_flight, receive, on_success_step,
}
use echopoint_runner.Engine.Schedule.Counts.{Identified}
use echopoint_runner.Engine.Schedule.Ready.{nodes_of}
use echopoint_runner.Engine.Schedule.Steps.{
  Sched, record_skipped_node-Completes, record_on_success_result-Completes,
}
use echopoint_runner.Engine.Schedule.Phases.{
  ready-Sched, consider-Considered, consider_all-Considered,
}
use echopoint_runner.Engine.Schedule.Failures.{
  DistinctIds, Safe, skip-Causes, block-Causes, main-Causes, first_cause-none,
}
use echopoint_runner.Engine.Schedule.Failures.Below.{complete-Safe, start-Safe, is_fully_dead-cong}
use echopoint_runner.Prelude.{||→neither, ◌∙◌}
use echopoint_runner.Refs.{Outputs}
use echopoint_runner.Engine.Graph.Edges.{Apart}
use echopoint_runner.Engine.State.{initial_state}
use echopoint_runner.Engine.Schedule.{rounds}
use echopoint_runner.Engine.Schedule.Reach.{Main, begun, filled, ended, Main-Sched}
use echopoint_runner.Engine.Schedule.Phases.Runs.{receive-Sched}
use echopoint_runner.Engine.Schedule.Phases.Always.{IsAcyclic, Apart-Identified}

take_flight-In :
    (k : ℕ) (f : Flight) (fs : List Flight) (n : Node)
    → In n (nodes_of (take_flight k f fs).1)
    → In n (nodes_of (f ∷ fs))
unfolding take_flight
take_flight-In k f [] n i = absurd i
take_flight-In zero f (f' ∷ fs) n i = inr i
take_flight-In (suc k) f (f' ∷ fs) n (inl e) = inl e
take_flight-In (suc k) f (f' ∷ fs) n (inr i) = inr (take_flight-In k f' fs n i)

module _ (g : FlowEngine) (w : WellFormed g) (ident : Identified g) (apart : Apart g.nodes)
    (distinct : DistinctIds g) where
  consider_blocked-Safe :
      (n : Node) (s : State) (rest : List Node) (cause : Option Text)
      → upstream_failure g n s ≡ cause
      → Sched g s (n ∷ rest)
      → Safe g s
      → Safe g (consider_blocked g n s cause).0
  unfolding consider_blocked upstream_failure
  consider_blocked-Safe n s rest (some cause) e h safe =
      let s1 = record s { failure_cause = update_text s.failure_cause n.id (some cause) } in
      let c = record_skipped_node-Completes g n s1 in
      complete-Safe g w distinct n s (record_skipped_node g n s1) rest
        (record {
          remaining = c.remaining;
          flights = c.flights;
          value = c.value;
          stored = c.stored;
        })
        (block-Causes g n s cause) h safe
  consider_blocked-Safe n s rest none e h safe =
      elim (Bool-cases (is_fully_dead g n s || inputs_reference_skipped_node n s)) [
        | inl dead ↦ rw dead (
            complete-Safe g w distinct n s (record_skipped_node g n s) rest
              (record_skipped_node-Completes g n s) (skip-Causes g n s) h safe)
        | inr live ↦ rw live (
            start-Safe g w distinct n s
              (λ main p j. first_cause-none (g.node_edge_source n.ptr) s.failure_cause p e j)
              (λ main.
                (||→neither (is_fully_dead g n s) (inputs_reference_skipped_node n s) live).0)
              safe)
      ]

  consider_all-Safe :
      (ns : List Node) (s : State) → Sched g s ns → Safe g s → Safe g (consider_all g ns s).0
  unfolding consider_all consider
  consider_all-Safe [] s h safe = safe
  consider_all-Safe (n ∷ ns) s h safe =
      let first = consider-Considered g w ident n s ns h in
      consider_all-Safe ns (consider g n s).0 first.sched
        (consider_blocked-Safe n s ns (upstream_failure g n s) refl h safe)

  pub start_ready-Safe :
      (fuel : ℕ) (s : State) → Sched g s [] → Safe g s → Safe g (start_ready g fuel s)
  unfolding start_ready
  start_ready-Safe zero s h safe = safe
  start_ready-Safe (suc fuel) s h safe =
      let held = ready-Sched g w ident apart on_success s h in
      let c = consider_all-Considered g w ident (ready g on_success s) s held in
      let once = consider_all-Safe (ready g on_success s) s held safe in
      elim (Bool-cases (consider_all g (ready g on_success s) s).1) [
        | inl skipped ↦
            rw skipped
              (start_ready-Safe fuel (consider_all g (ready g on_success s) s).0 c.sched once)
        | inr no_skip ↦ rw no_skip once
      ]

  pub receive-Safe :
      (exec : Exec) (k : ℕ) (f : Flight) (fs : List Flight) (s : State)
      → s.in_flight ≡ f ∷ fs
      → Safe g s
      → Safe g (receive exec k f fs s).1
  unfolding receive
  receive-Safe exec k f fs s e safe = record {
    quiet = safe.quiet;
    clear = λ n p i main j.
        safe.clear n p (subst (λ l. In n (nodes_of l)) (sym e) (take_flight-In k f fs n i)) main j;
    caused = safe.caused;
    live = λ n i main.
        is_fully_dead-cong g w distinct n s (receive exec k f fs s).1 (λ p j. refl)
        ∙ safe.live n (subst (λ l. In n (nodes_of l)) (sym e) (take_flight-In k f fs n i)) main;
  }

  on_success_step-Safe :
      (exec : Exec) (k : ℕ) (f : Flight) (fs : List Flight) (s : State)
      → s.in_flight ≡ f ∷ fs
      → Sched g s []
      → Safe g s
      → Safe g (on_success_step g exec k f fs s)
  unfolding on_success_step
  on_success_step-Safe exec k f fs s e h safe =
      let (finished, s') = receive exec k f fs s in
      let (held, same) = receive-Sched g exec k f fs s e h in
      complete-Safe g w distinct finished.node s' _ []
        (record_on_success_result-Completes g finished s') (main-Causes g finished s') held
        (receive-Safe exec k f fs s e safe)

  initial_state-Safe : (inputs : Outputs) → Safe g (initial_state g inputs)
  unfolding initial_state
  initial_state-Safe inputs = record {
    quiet = λ n i yes. refl;
    clear = λ n p i main j. refl;
    caused = λ id failed. absurd (clash _ failed refl);
    live = λ n i main. absurd i;
  }

module _ (g : FlowEngine) (exec : Exec) (rank : ℕ → ℕ) (a : IsAcyclic g rank)
    (distinct : DistinctIds g) (inputs : Outputs) where
  pub Main-Safe : {s : State} → Main g exec inputs s → Safe g s
  Main-Safe begun =
      initial_state-Safe g a.well_formed (Apart-Identified g a.apart) a.apart distinct inputs
  Main-Safe (filled {s} m) =
      start_ready-Safe g a.well_formed (Apart-Identified g a.apart) a.apart distinct (rounds g) s
        (Main-Sched g exec rank a inputs m) (Main-Safe m)
  Main-Safe (ended {s} k f fs e m) =
      on_success_step-Safe g a.well_formed (Apart-Identified g a.apart) a.apart distinct exec k f fs
        s e (Main-Sched g exec rank a inputs m) (Main-Safe m)
