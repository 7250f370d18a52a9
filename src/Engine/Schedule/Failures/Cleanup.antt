-- ===== src/Engine/Schedule/Failures/Cleanup.antt =====
-- The phase of always nodes of pkg/engine/execution.go, and the on_success nodes in flight in it.
use echopoint_runner.Prelude.{
  ℕ, ◌≡◌, refl, sym, ap, subst, inl, inr, true, false, List, [], ◌∷◌, clash, In, Bool-cases,
}
use echopoint_runner.Engine.Graph.{Node, FlowEngine, on_success}
use echopoint_runner.Engine.Graph.Edges.{WellFormed}
use echopoint_runner.Engine.State.{State, Flight, ready}
use echopoint_runner.Engine.Record.{Exec, record_skipped_node}
use echopoint_runner.Engine.Schedule.{start_ready, receive}
use echopoint_runner.Engine.Schedule.Counts.{Identified}
use echopoint_runner.Engine.Schedule.Ready.{nodes_of}
use echopoint_runner.Engine.Schedule.Steps.{Sched, record_skipped_node-Completes}
use echopoint_runner.Engine.Schedule.Phases.{ready-Sched}
use echopoint_runner.Engine.Schedule.Failures.{DistinctIds, is_main, Safe, skip-Causes, main-Causes}
use echopoint_runner.Engine.Schedule.Failures.Below.{complete-Safe, start-Safe}
use echopoint_runner.Refs.{Outputs}
use echopoint_runner.Engine.Graph.Edges.{Apart}
use echopoint_runner.Engine.Schedule.{rounds}
use echopoint_runner.Engine.Schedule.Phases.Runs.{receive-Sched}
use echopoint_runner.Engine.Schedule.Phases.Always.{IsAcyclic, Apart-Identified}
use echopoint_runner.Engine.Graph.{always, RunWhen, other}
use echopoint_runner.Prelude.{In-filter_by, Bool, ap}
use echopoint_runner.Engine.State.{is_ready, same_phase, start, ready}
use echopoint_runner.Engine.Skip.{is_routed_away}
use echopoint_runner.Engine.Record.{Finished}
use echopoint_runner.Engine.Schedule.{
  skip_routed_away, start_all, record_finished, always_step, finish_or_resolve, after_skips,
  always_round,
}
use echopoint_runner.Prelude.{all, ||→neither, ◌||◌}
use echopoint_runner.Engine.Skip.{is_fully_dead, nonempty}
use echopoint_runner.Engine.Schedule.Failures.{killed, settle-Causes, Causes}
use echopoint_runner.Engine.Schedule.Flights.{is_ready-parts}
use echopoint_runner.Engine.Schedule.Steps.{Completes-Sched}
use echopoint_runner.Engine.Schedule.Phases.{OnlyStarts, NoneReady, start_ready-Sched}
use echopoint_runner.Engine.Schedule.Phases.Stuck.{resolve_blocked-AllDone}
use echopoint_runner.Engine.Schedule.Phases.Always.{
  Skips, skip_routed_away-Skips, start_all-OnlyStarts, Sched-drop, record_finished-Completes,
  idle-AllDone,
}
use echopoint_runner.Engine.Schedule.Reach.{
  Rounds, main, switched, round, Rounds-Sched, Reached, between, passed, cleared, waits,
  passed_state, skips_of, few_pending,
}
use echopoint_runner.Engine.Schedule.Failures.Passes.{start_ready-Safe, receive-Safe, Main-Safe}

always-not_main : (n : Node) → same_phase n.run_when always ≡ true → is_main n ≡ false
always-not_main n h = by_phase n.run_when h
  where
    by_phase : (r : RunWhen) → same_phase r always ≡ true → same_phase r on_success ≡ false
    by_phase always e = refl
    by_phase on_success e = absurd (clash _ e refl)
    by_phase (other t) e = absurd (clash _ e refl)

record_finished-Causes :
    (g : FlowEngine) (f : Finished) (s : State) → Causes f.node s (record_finished g f s)
unfolding record_finished
record_finished-Causes g f s = elim (Bool-cases (same_phase f.node.run_when on_success)) [
  | inl early ↦ rw early (main-Causes g f s)
  | inr late ↦ rw late (settle-Causes g f f.err s)
]

module _ (g : FlowEngine) (exec : Exec) (w : WellFormed g) (ident : Identified g)
    (apart : Apart g.nodes) (distinct : DistinctIds g) where
  skip_routed_away-Safe :
      (ns : List Node) (s : State) → Sched g s ns → Safe g s → Safe g (skip_routed_away g ns s).0
  unfolding skip_routed_away
  skip_routed_away-Safe [] s h safe = safe
  skip_routed_away-Safe (n ∷ ns) s h safe = elim (Bool-cases (is_routed_away g n s)) [
    | inr stays ↦ rw stays (skip_routed_away-Safe ns s (Sched-drop g exec w ident n s ns h) safe)
    | inl away ↦
        let c = record_skipped_node-Completes g n s in
        let (kept, lt) = Completes-Sched g w ident n s (record_skipped_node g n s) ns c h in
        rw away (
          skip_routed_away-Safe ns (record_skipped_node g n s) kept (
            complete-Safe g w distinct n s (record_skipped_node g n s) ns c (skip-Causes g n s) h
              safe))
  ]

  start_all-Safe :
      (ns : List Node) (s : State)
      → ((n : Node) → In n ns → is_main n ≡ false)
      → Safe g s
      → Safe g (start_all ns s)
  unfolding start_all
  start_all-Safe [] s late safe = safe
  start_all-Safe (n ∷ ns) s late safe =
      start_all-Safe ns (start n s) (λ m i. late m (inr i))
        (start-Safe g w distinct n s (λ early p j. absurd (clash _ early (late n (inl refl))))
          (λ early. absurd (clash _ early (late n (inl refl)))) safe)

  always_step-Safe :
      (k : ℕ) (f : Flight) (fs : List Flight) (s : State)
      → s.in_flight ≡ f ∷ fs
      → Sched g s []
      → Safe g s
      → Safe g (always_step g exec k f fs s)
  unfolding always_step
  always_step-Safe k f fs s e h safe =
      let (finished, s') = receive exec k f fs s in
      let (held, same) = receive-Sched g exec k f fs s e h in
      complete-Safe g w distinct finished.node s' _ [] (record_finished-Completes g finished s')
        (record_finished-Causes g finished s') held
        (receive-Safe g w ident apart distinct exec k f fs s e safe)

all-false :
    (q : Node → Bool) (ps : List Node) → all q ps ≡ false → (p : Node) × In p ps × (q p ≡ false)
all-false q [] h = absurd (clash _ refl h)
all-false q (p ∷ ps) h = elim (Bool-cases (q p)) [
  | inr off ↦ (p, inl refl, off)
  | inl on ↦ let (r, i, off) = all-false q ps (rw on at h) in (r, inr i, off)
]

In-nonempty : (n : Node) (ns : List Node) → In n ns → nonempty ns ≡ true
In-nonempty n [] i = absurd i
In-nonempty n (m ∷ ns) i = refl

ready-always : (g : FlowEngine) (s : State) (n : Node) → In n (ready g always s) → is_main n ≡ false
unfolding ready
ready-always g s n i =
    let (_, is) = In-filter_by (is_ready always s) g.nodes n i in
    let (_, phase, _) = is_ready-parts always s n is in always-not_main n phase

module _ (g : FlowEngine) (exec : Exec) (rank : ℕ → ℕ) (a : IsAcyclic g rank)
    (distinct : DistinctIds g) where
  finish-Safe :
      (k : ℕ) (fs : List Flight) (s s' : State)
      → s'.in_flight ≡ fs
      → Sched g s' []
      → OnlyStarts s s' (ready g always s)
      → NoneReady g on_success s
      → Safe g s'
      → Safe g (finish_or_resolve g exec k fs s').0
  unfolding finish_or_resolve
  finish-Safe k (f ∷ fs) s s' e h starts no_main safe =
      always_step-Safe g exec a.well_formed (Apart-Identified g a.apart) a.apart distinct k f fs s'
        e h safe
  finish-Safe k [] s s' e h starts no_main safe =
      rw (resolve_blocked-AllDone g s' (idle-AllDone g exec rank a s s' e h starts no_main)) safe

  after_skips-Safe :
      (k : ℕ) (s1 : State) (r : State × Bool)
      → NoneReady g on_success s1
      → Skips g exec a.well_formed (Apart-Identified g a.apart) s1 r
      → Safe g r.0
      → Safe g (after_skips g exec k r).0
  unfolding after_skips
  after_skips-Safe k s1 (s2, true) no_main sk safe = safe
  after_skips-Safe k s1 (s2, false) no_main (kept, less, inl (skipped, lt)) safe =
      absurd (clash false skipped refl)
  after_skips-Safe k s1 (s2, false) no_main (kept, less, inr (no_skip, same)) safe =
      let held = ready-Sched g a.well_formed (Apart-Identified g a.apart) a.apart always s2 kept in
      let (started, starts) =
        start_all-OnlyStarts g exec a.well_formed (Apart-Identified g a.apart) (ready g always s2)
          s2 held in
      let s3 = start_all (ready g always s2) s2 in
      let safe' =
        start_all-Safe g exec a.well_formed (Apart-Identified g a.apart) a.apart distinct
          (ready g always s2) s2 (ready-always g s2) safe in
      finish-Safe k s3.in_flight s2 s3 refl started starts
        (subst (NoneReady g on_success) (sym same) no_main) safe'

  always_round-Safe :
      (k : ℕ) (s : State) → Sched g s [] → Safe g s → Safe g (always_round g exec k s).0
  unfolding always_round
  always_round-Safe k s h safe =
      let id = Apart-Identified g a.apart in
      let s1 = start_ready g (rounds g) s in
      let (kept, less, no_main) =
        start_ready-Sched g a.well_formed id a.apart (rounds g) s h (few_pending g s) in
      let safe1 = start_ready-Safe g a.well_formed id a.apart distinct (rounds g) s h safe in
      let held = ready-Sched g a.well_formed id a.apart always s1 kept in
      after_skips-Safe k s1 (skip_routed_away g (ready g always s1) s1) no_main
        (skip_routed_away-Skips g exec a.well_formed id (ready g always s1) s1 held)
        (skip_routed_away-Safe g exec a.well_formed id a.apart distinct (ready g always s1) s1 held
          safe1)

  Rounds-Safe : (inputs : Outputs) {s : State} → Rounds g exec inputs s → Safe g s
  Rounds-Safe inputs (main m) = Main-Safe g exec rank a distinct inputs m
  Rounds-Safe inputs (switched {s} e m) =
      let safe = Main-Safe g exec rank a distinct inputs m in
      record {
        quiet = safe.quiet;
        clear = λ n p i. absurd i;
        caused = safe.caused;
        live = λ n i. absurd i;
      }
  Rounds-Safe inputs (round {s} k r) =
      always_round-Safe k s (Rounds-Sched g exec rank a inputs r) (Rounds-Safe inputs r)

  passed-Safe :
      (s : State) → Sched g s [] → Safe g s → Safe g (passed_state g s) × Safe g (skips_of g s).0
  passed-Safe s h safe =
      let id = Apart-Identified g a.apart in
      let (kept, less, no_main) =
        start_ready-Sched g a.well_formed id a.apart (rounds g) s h (few_pending g s) in
      let safe1 = start_ready-Safe g a.well_formed id a.apart distinct (rounds g) s h safe in
      let held = ready-Sched g a.well_formed id a.apart always (passed_state g s) kept in
      (
        safe1,
        skip_routed_away-Safe g exec a.well_formed id a.apart distinct
            (ready g always (passed_state g s)) (passed_state g s) held safe1,
      )

  Reached-Safe : (inputs : Outputs) {s : State} → Reached g exec inputs s → Safe g s
  Reached-Safe inputs (between r) = Rounds-Safe inputs r
  Reached-Safe inputs (passed {s} r) =
      (passed-Safe s (Rounds-Sched g exec rank a inputs r) (Rounds-Safe inputs r)).0
  Reached-Safe inputs (cleared {s} r) =
      (passed-Safe s (Rounds-Sched g exec rank a inputs r) (Rounds-Safe inputs r)).1
  Reached-Safe inputs (waits {s} no_skip r) =
      let s2 = (skips_of g s).0 in
      start_all-Safe g exec a.well_formed (Apart-Identified g a.apart) a.apart distinct
        (ready g always s2) s2 (ready-always g s2)
        (passed-Safe s (Rounds-Sched g exec rank a inputs r) (Rounds-Safe inputs r)).1

  -- For an acyclic flow whose nodes have different pointers and ids and are on_success or always
  -- nodes: in every reachable state of a run, those in which either phase waits for a result included,
  -- an on_success node in flight that has predecessors has one that was neither skipped nor failed and
  -- that did not route execution away from it.
  pub in_flight-taken :
      (inputs : Outputs) (s : State) (n q : Node)
      → Reached g exec inputs s
      → In n (nodes_of s.in_flight)
      → is_main n ≡ true
      → In q (g.node_edge_source n.ptr)
      → (p : Node) × In p (g.node_edge_source n.ptr)
        × (s.dead_edges p.id n.id ≡ false)
        × (s.skipped_nodes p.id ≡ false)
        × (s.failed_nodes p.id ≡ false)
  unfolding is_fully_dead
  in_flight-taken inputs s n q r i early j =
      let alive = (Reached-Safe inputs r).live n i early in
      let some_left = In-nonempty q (g.node_edge_source n.ptr) j in
      let (p, k, off) =
        all-false (λ p. killed s p.id n.id) (g.node_edge_source n.ptr) (rw some_left at alive) in
      let (front, failed) =
        ||→neither (s.dead_edges p.id n.id || s.skipped_nodes p.id) (s.failed_nodes p.id) off in
      let (dead, skipped) = ||→neither (s.dead_edges p.id n.id) (s.skipped_nodes p.id) front in
      (p, k, dead, skipped, failed)
