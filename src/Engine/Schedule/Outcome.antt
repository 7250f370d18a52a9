-- ===== src/Engine/Schedule/Outcome.antt =====
-- What executeNodes of pkg/engine/execution.go reports at the end of a run.
use echopoint_runner.Prelude.{
  ℕ, ◌≤◌, ◌<◌, length, ◌≡◌, refl, sym, ap, ◌∙◌, ◌⊎◌, inl, inr, true, false, ◌==◌, ==_iff, List, [],
  ◌∷◌, Option, none, some, is_some, clash, In, All-In, count_by-zero, count_by-all,
  count_by-le-length, Bool-cases, arith,
}
use echopoint_runner.Prelude.Int.{ℤ, pos}
use echopoint_runner.Prelude.Text.{Text}
use echopoint_runner.Refs.{Outputs}
use echopoint_runner.Engine.Graph.{Node, FlowEngine}
use echopoint_runner.Engine.Graph.Edges.{WellFormed}
use echopoint_runner.Engine.State.{State, RunError, pending_count, initial_counts, initial_state}
use echopoint_runner.Engine.Record.{Exec}
use echopoint_runner.Engine.Schedule.{
  rounds, run_on_success_phase, run_always_phase, finalize_with, finalize_execution, execute_nodes,
}
use echopoint_runner.Engine.Schedule.Counts.{pending, open_inputs}
use echopoint_runner.Engine.Schedule.Steps.{Sched, pending_nodes}
use echopoint_runner.Engine.Schedule.Invariants.{run_on_success_phase-Kept, run_always_phase-Kept}
use echopoint_runner.Engine.Schedule.Phases.Runs.{run_on_success_phase-Sched}
use echopoint_runner.Engine.Schedule.Phases.Ends.{
  MainRuns, AlwaysRuns, Within, run_on_success_phase-MainRuns, run_always_phase-AlwaysRuns,
}
use echopoint_runner.Engine.Schedule.Phases.Stuck.{AllDone}
use echopoint_runner.Engine.Schedule.Phases.Always.{
  IsAcyclic, Apart-Identified, run_always_phase-AllDone,
}
use echopoint_runner.Engine.Schedule.Verdict.{IsNodeError, Honest, Honest-Kept}

initial_counts-In :
    (g : FlowEngine) (ns : List Node) (n : Node)
    → In n ns
    → initial_counts g ns n.ptr ≡ some (pos (g.node_edge_input n.ptr))
unfolding initial_counts
initial_counts-In g [] n i = absurd i
initial_counts-In g (m ∷ ns) n i = elim (Bool-cases (m.ptr == n.ptr)) [
  | inl same ↦ let e = (==_iff m.ptr n.ptr).0 same in rw (same, e)
  | inr differs ↦ elim i [
    | inl e ↦ absurd (clash _ (==_of n m e) differs)
    | inr j ↦ rw differs (initial_counts-In g ns n j)
  ]
]
  where
    ==_of : (n m : Node) → n ≡ m → (m.ptr == n.ptr) ≡ true
    ==_of n m e = let same = ap (λ k. k.ptr) e in ground arith

not_none : {o : Option ℤ} {z : ℤ} → o ≡ some z → o ≡ none → ⊥
not_none e h = cc

module _ (g : FlowEngine) (w : WellFormed g) (inputs : Outputs) where
  initial_open :
      (n : Node)
      → open_inputs g (initial_state g inputs).remaining_inputs n ≡ g.node_edge_input n.ptr
  unfolding initial_state
  initial_open n =
      count_by-all _ (g.node_edge_source n.ptr) (λ p i. ap is_some (
        initial_counts-In g g.nodes p
          (All-In (λ q. In q g.nodes) (g.node_edge_source n.ptr) p (w.sources n.ptr) i)))
      ∙ sym (w.counted n.ptr)

  pub initial_state-Sched : Sched g (initial_state g inputs) []
  unfolding initial_state
  initial_state-Sched = record {
    counts = record {
      counts =
          λ n i _. initial_counts-In g g.nodes n i ∙ ap (λ c. some (pos c)) (sym (initial_open n));
      closed = λ n i none_left. absurd (not_none (initial_counts-In g g.nodes n i) none_left);
    };
    good = record { free = tt; apart = tt };
    done = λ n i none_left. absurd (not_none (initial_counts-In g g.nodes n i) none_left);
  }

results-finalize_with :
    (g : FlowEngine) (s : State) (e : Option RunError) → (finalize_with g s e).results ≡ s.results
unfolding finalize_with
results-finalize_with g s (some e) = refl
results-finalize_with g s none = elim (Bool-cases (pending_count g s == 0)) [
  | inl none_left ↦ rw none_left
  | inr some_left ↦ rw some_left
]

pending_count-AllDone : (g : FlowEngine) (s : State) → AllDone g s → pending_count g s ≡ 0
unfolding pending_count
pending_count-AllDone g s done =
    count_by-zero (pending s.remaining_inputs) g.nodes (λ n i. ap is_some (done n i))

-- The two ways a run of an acyclic flow ends.
abbrev pub Verdict : State → Type 0
Verdict s =
    ((s.success ≡ true) × (s.error ≡ none) × ((id : Text) → s.failed_nodes id ≡ false))
    ⊎ ((s.success ≡ false)
        × (e : RunError) × (s.error ≡ some e)
        × IsNodeError e
        × (id : Text) × (s.failed_nodes id ≡ true))

finalize_with-Verdict :
    (g : FlowEngine) (s : State) (e : Option RunError)
    → s.error ≡ e
    → AllDone g s
    → Honest s
    → Verdict (finalize_with g s e)
unfolding finalize_with
finalize_with-Verdict g s none no_error done (inl (_, none_failed)) =
    rw (pending_count-AllDone g s done) (inl (refl, no_error, none_failed))
finalize_with-Verdict g s none no_error done (inr (e, stored, _, _, _)) = cc
finalize_with-Verdict g s (some e) has_error done (inl (no_error, _)) = cc
finalize_with-Verdict g s (some e) has_error done (inr (e', stored, is_node, id, failed)) =
    inr (refl, e', stored, is_node, id, failed)

-- A run of executeNodes that ended by the tests of its loops, and its final state.
abbrev pub Completed : FlowEngine → Exec → Outputs → State → Type 0
Completed g exec inputs s =
    (s1 : State) × (s2 : State) × (m : ℕ) × (n : ℕ) × MainRuns g exec m (initial_state g inputs) s1
    × m ≤ length g.nodes
    × AlwaysRuns g exec n (record s1 { in_flight = [] }) s2
    × n ≤ length g.nodes
    × (s ≡ finalize_execution g s2)
    × ((node : Node) → In node g.nodes → is_some (s.results node.id) ≡ true)

module _ (g : FlowEngine) (exec : Exec) (rank : ℕ → ℕ) (a : IsAcyclic g rank)
    (pick pick_always : ℕ → ℕ) (inputs : Outputs) where
  abbrev after_main : State
  after_main = run_on_success_phase g exec pick (rounds g) (initial_state g inputs)

  abbrev after_always : State
  after_always =
      run_always_phase g exec pick_always (rounds g) (record after_main { in_flight = [] })

  after_always-AllDone : Sched g after_always [] × AllDone g after_always
  after_always-AllDone =
      let few : pending_nodes g (initial_state g inputs) < rounds g =
        let le = count_by-le-length (pending (initial_state g inputs).remaining_inputs) g.nodes in
        omega arith in
      let (kept, idle, less) =
        run_on_success_phase-Sched g exec a.well_formed (Apart-Identified g a.apart) a.apart pick
          (rounds g) (initial_state g inputs) (initial_state-Sched g a.well_formed inputs) few
          few in
      let again : Sched g (record after_main { in_flight = [] }) [] = record {
        counts = kept.counts;
        good = record { free = tt; apart = tt };
        done = kept.done;
      } in
      run_always_phase-AllDone g exec rank a pick_always (rounds g)
        (record after_main { in_flight = [] }) again (omega arith) (omega arith)

  initial-few : pending_nodes g (initial_state g inputs) ≤ length g.nodes
  initial-few = count_by-le-length (pending (initial_state g inputs).remaining_inputs) g.nodes

  main_ran : Within g exec rank a (MainRuns g exec) (initial_state g inputs) after_main
  main_ran =
      let few = initial-few in
      run_on_success_phase-MainRuns g exec rank a pick (rounds g) (initial_state g inputs)
        (initial_state-Sched g a.well_formed inputs) (omega arith) (omega arith)

  always_ran :
      Within g exec rank a (AlwaysRuns g exec) (record after_main { in_flight = [] }) after_always
      × (pending_nodes g after_main ≤ length g.nodes)
  always_ran =
      let few = initial-few in
      let (kept, idle, less) =
        run_on_success_phase-Sched g exec a.well_formed (Apart-Identified g a.apart) a.apart pick
          (rounds g) (initial_state g inputs) (initial_state-Sched g a.well_formed inputs)
          (omega arith) (omega arith) in
      let again : Sched g (record after_main { in_flight = [] }) [] = record {
        counts = kept.counts;
        good = record { free = tt; apart = tt };
        done = kept.done;
      } in
      (
        run_always_phase-AlwaysRuns g exec rank a pick_always (rounds g)
            (record after_main { in_flight = [] }) again (omega arith) (omega arith),
        omega arith,
      )

  -- For an acyclic flow whose nodes have different pointers and are on_success or always nodes,
  -- whatever the nodes return and in whatever order they end: each loop of executeNodes ends by its own
  -- test, the first phase with nothing in flight after at most as many results as there are nodes, the
  -- second after at most one round more, and in the final state every node has a result.
  pub execute_nodes-Completed :
      Completed g exec inputs (execute_nodes g exec pick pick_always inputs)
  unfolding execute_nodes finalize_execution
  execute_nodes-Completed =
      let (sched, done) = after_always-AllDone in
      let (m, le, ran) = main_ran in
      let ((n, le', cleaned), few) = always_ran in
      let first = initial-few in
      (
        after_main,
        after_always,
        m,
        n,
        ran,
        omega arith,
        cleaned,
        omega arith,
        refl,
        λ node i.
            ap (λ f. is_some (f node.id)) (results-finalize_with g after_always after_always.error)
            ∙ sched.done node i (done node i),
      )

  -- For an acyclic flow whose nodes have different pointers and are on_success or always nodes, the
  -- run succeeds with no error and no failed node, or it fails with the error of a node and with a
  -- failed node; it never reports a cycle or an unreachable node.
  pub execute_nodes-Verdict : Verdict (execute_nodes g exec pick pick_always inputs)
  unfolding execute_nodes finalize_execution initial_state
  execute_nodes-Verdict =
      let (sched, done) = after_always-AllDone in
      let start_clean : Honest (initial_state g inputs) = inl (refl, λ id. refl) in
      let k = Honest-Kept g exec in
      let main_clean =
        run_on_success_phase-Kept g exec Honest k pick (rounds g) (initial_state g inputs)
          start_clean in
      finalize_with-Verdict g after_always after_always.error refl done (
        run_always_phase-Kept g exec Honest k pick_always (rounds g)
          (record after_main { in_flight = [] }) main_clean)
