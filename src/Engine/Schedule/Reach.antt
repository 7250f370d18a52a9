-- ===== src/Engine/Schedule/Reach.antt =====
-- The states that a run of executeNodes of pkg/engine/execution.go can come to, whatever order the
-- nodes end in, and what holds of the nodes that run in them.
use echopoint_runner.Prelude.{
  ℕ, ◌<◌, ◌≡◌, sym, ap, ◌∙◌, subst, inl, inr, Bool, true, false, List, [], ◌∷◌, some, is_some, All,
  In, All-In, Option-cases, arith, zero-count_by, count_by-le-length, clash,
}
use mathlib.Core.List.{append-nil}
use echopoint_runner.Prelude.Int.{pos}
use echopoint_runner.Refs.{Outputs}
use echopoint_runner.Engine.Graph.{Node, FlowEngine, on_success, always}
use echopoint_runner.Engine.Graph.Edges.{Apart}
use echopoint_runner.Engine.State.{State, Flight, initial_state, ready}
use echopoint_runner.Engine.Record.{Exec}
use echopoint_runner.Engine.Schedule.{
  rounds, start_ready, on_success_step, always_round, skip_routed_away, start_all,
}
use echopoint_runner.Engine.Schedule.Counts.{Free, pending, open_inputs}
use echopoint_runner.Engine.Schedule.Ready.{nodes_of}
use echopoint_runner.Engine.Schedule.Steps.{Sched, pending_nodes}
use echopoint_runner.Engine.Schedule.Phases.{NoneReady, ready-Sched, start_ready-Sched}
use echopoint_runner.Engine.Schedule.Phases.Runs.{on_success_step-Sched}
use echopoint_runner.Engine.Schedule.Phases.Always.{
  IsAcyclic, Apart-Identified, Skips, skip_routed_away-Skips, start_all-OnlyStarts,
  always_round-Round,
}
use echopoint_runner.Engine.Schedule.Outcome.{initial_state-Sched}

-- The states of the phase of on_success nodes: a pass that starts nodes, or a result that comes in.
pub data Main (g : FlowEngine) (exec : Exec) (inputs : Outputs) : State → Type 0 where
  begun : Main g exec inputs (initial_state g inputs)
  filled : {s : State} → Main g exec inputs s → Main g exec inputs (start_ready g (rounds g) s)
  ended :
      {s : State} (k : ℕ) (f : Flight) (fs : List Flight)
      → s.in_flight ≡ f ∷ fs
      → Main g exec inputs s
      → Main g exec inputs (on_success_step g exec k f fs s)

-- With those between the rounds of the phase of always nodes, which goes on from an idle state.
pub data Rounds (g : FlowEngine) (exec : Exec) (inputs : Outputs) : State → Type 0 where
  main : {s : State} → Main g exec inputs s → Rounds g exec inputs s
  switched :
      {s : State}
      → s.in_flight ≡ []
      → Main g exec inputs s
      → Rounds g exec inputs (record s { in_flight = [] })
  round :
      {s : State} (k : ℕ)
      → Rounds g exec inputs s
      → Rounds g exec inputs (always_round g exec k s).0

-- A round of runAlwaysPhase: its pass over the on_success nodes, the skips of the always nodes that
-- are routed away, with whether there were some, and the start of the ready ones, behind which the
-- round waits for a result.
abbrev pub passed_state : FlowEngine → State → State
passed_state g s = start_ready g (rounds g) s

abbrev pub skips_of : FlowEngine → State → State × Bool
skips_of g s = skip_routed_away g (ready g always (passed_state g s)) (passed_state g s)

abbrev pub waiting_state : FlowEngine → State → State
waiting_state g s = start_all (ready g always (skips_of g s).0) (skips_of g s).0

-- Every state at which executeNodes waits, tests or begins a pass, those inside a round included.
pub data Reached (g : FlowEngine) (exec : Exec) (inputs : Outputs) : State → Type 0 where
  between : {s : State} → Rounds g exec inputs s → Reached g exec inputs s
  passed : {s : State} → Rounds g exec inputs s → Reached g exec inputs (passed_state g s)
  cleared : {s : State} → Rounds g exec inputs s → Reached g exec inputs (skips_of g s).0
  waits :
      {s : State}
      → (skips_of g s).1 ≡ false
      → Rounds g exec inputs s
      → Reached g exec inputs (waiting_state g s)

pub few_pending : (g : FlowEngine) (s : State) → pending_nodes g s < rounds g
few_pending g s = let le = count_by-le-length (pending s.remaining_inputs) g.nodes in omega arith

module _ (g : FlowEngine) (exec : Exec) (rank : ℕ → ℕ) (a : IsAcyclic g rank)
    (inputs : Outputs) where
  pub Main-Sched : {s : State} → Main g exec inputs s → Sched g s []
  Main-Sched begun = initial_state-Sched g a.well_formed inputs
  Main-Sched (filled {s} m) =
      (start_ready-Sched g a.well_formed (Apart-Identified g a.apart) a.apart (rounds g) s
        (Main-Sched m) (few_pending g s)).0
  Main-Sched (ended {s} k f fs e m) =
      (on_success_step-Sched g exec a.well_formed (Apart-Identified g a.apart) k f fs s e
        (Main-Sched m)).0

  pub Rounds-Sched : {s : State} → Rounds g exec inputs s → Sched g s []
  Rounds-Sched (main m) = Main-Sched m
  Rounds-Sched (switched {s} e m) =
      let h = Main-Sched m in
      record { counts = h.counts; good = record { free = tt; apart = tt }; done = h.done }
  Rounds-Sched (round {s} k r) =
      (always_round-Round g exec rank a k s (Rounds-Sched r) (few_pending g s)).0

  passed-Sched :
      (s : State)
      → Sched g s []
      → Sched g (passed_state g s) []
        × Skips g exec a.well_formed (Apart-Identified g a.apart) (passed_state g s) (skips_of g s)
        × NoneReady g on_success (passed_state g s)
  passed-Sched s h =
      let id = Apart-Identified g a.apart in
      let (kept, less, no_main) =
        start_ready-Sched g a.well_formed id a.apart (rounds g) s h (few_pending g s) in
      let held = ready-Sched g a.well_formed id a.apart always (passed_state g s) kept in
      (
        kept,
        skip_routed_away-Skips g exec a.well_formed id (ready g always (passed_state g s))
            (passed_state g s) held,
        no_main,
      )

  waits-Sched : (s : State) → Sched g s [] → Sched g (waiting_state g s) []
  waits-Sched s h =
      let id = Apart-Identified g a.apart in
      let s2 = (skips_of g s).0 in
      let held = ready-Sched g a.well_formed id a.apart always s2 ((passed-Sched s h).1).0 in
      (start_all-OnlyStarts g exec a.well_formed id (ready g always s2) s2 held).0

  pub Reached-Sched : {s : State} → Reached g exec inputs s → Sched g s []
  Reached-Sched (between r) = Rounds-Sched r
  Reached-Sched (passed {s} r) = (passed-Sched s (Rounds-Sched r)).0
  Reached-Sched (cleared {s} r) = ((passed-Sched s (Rounds-Sched r)).1).0
  Reached-Sched (waits {s} no_skip r) = waits-Sched s (Rounds-Sched r)

  Free-sources :
      (s : State) (n p : Node)
      → Sched g s []
      → Free g s.remaining_inputs n
      → In p (g.node_edge_source n.ptr)
      → is_some (s.results p.id) ≡ true
  Free-sources s n p h (i, zero_left) j =
      let e = sym (h.counts.counts n i (ap is_some zero_left)) ∙ zero_left in
      let none_open : open_inputs g s.remaining_inputs n ≡ 0 = ground arith in
      let gone =
        zero-count_by (pending s.remaining_inputs) (g.node_edge_source n.ptr) p none_open j in
      elim (Option-cases (s.remaining_inputs p.ptr)) [
        | inl absent ↦
            h.done p (All-In (λ q. In q g.nodes) _ p (a.well_formed.sources n.ptr) j) absent
        | inr (z, held) ↦ absurd (clash _ (ap is_some held) gone)
      ]

  -- For an acyclic flow whose nodes have different pointers and are on_success or always nodes: in
  -- every reachable state of a run, those in which either phase waits for a result included, a node
  -- that is in flight has a result stored for each node that an edge leads from to it.
  pub in_flight-sources :
      (s : State) (n p : Node)
      → Reached g exec inputs s
      → In n (nodes_of s.in_flight)
      → In p (g.node_edge_source n.ptr)
      → is_some (s.results p.id) ≡ true
  in_flight-sources s n p r i j =
      let h = Reached-Sched r in
      let free : All (Free g s.remaining_inputs) (nodes_of s.in_flight) =
        subst (All (Free g s.remaining_inputs)) (append-nil (nodes_of s.in_flight)) h.good.free in
      Free-sources s n p h (All-In (Free g s.remaining_inputs) (nodes_of s.in_flight) n free i) j

  -- For an acyclic flow whose nodes have different pointers and are on_success or always nodes: in
  -- every reachable state of a run, those in which either phase waits for a result included, no node
  -- is in flight twice, and none whose completion is recorded.
  pub in_flight-once :
      (s : State)
      → Reached g exec inputs s
      → Apart (nodes_of s.in_flight)
        × All (λ n. s.remaining_inputs n.ptr ≡ some (pos 0)) (nodes_of s.in_flight)
  in_flight-once s r =
      let h = Reached-Sched r in
      let listed = append-nil (nodes_of s.in_flight) in
      (
        subst Apart listed h.good.apart,
        All-weaken _ (subst (All (Free g s.remaining_inputs)) listed h.good.free),
      )
    where
      All-weaken :
          (ns : List Node)
          → All (Free g s.remaining_inputs) ns
          → All (λ n. s.remaining_inputs n.ptr ≡ some (pos 0)) ns
      All-weaken [] f = tt
      All-weaken (n ∷ ns) f = (f.0.1, All-weaken ns f.1)
